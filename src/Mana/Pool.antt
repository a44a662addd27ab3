-- ===== src/Mana/Pool.antt =====
-- A caster's mana stays within its pool.
use web_rts_nomads.Base.{
  ◌≡◌, refl, ◌||◌, Bool, true, false, Option, none, some, List, [], ◌∷◌, arith, ap, sym, subst, All,
  All-append, if-both, if◌then◌else◌,
}
use web_rts_nomads.Base.Int.{
  ℤ, pos, ltb_ℤ, leb_ℤ, ◌+ℤ◌, ◌-ℤ◌, ◌≤ℤ◌, ◌<ℤ◌, +ℤ_parts, -ℤ_parts, pos_part, neg_part, wrap_64,
  wrap_64-small,
}
use web_rts_nomads.Base.Float.{Float64}
use web_rts_nomads.Mana.{
  ManaRestoreEvent, Caster, Casting, filled, accumulated, regenerated, tick_unit_mana_regen,
  spend_unit_mana, effective_mana_regen, paid, record_mana_restore_event, add_unit_mana,
}

module _ (F : Float64) where
  open F use {Float}

  pub data Use : Type 0 where
    regen : Float → Float → Use
    spend : ℤ → Use
    restore : ℤ → Use

  unfoldable pub use_mana : Use → Casting F → Casting F
  use_mana (regen bonus dt) s = record s { unit = tick_unit_mana_regen F bonus dt s.unit }
  use_mana (spend cost) s = record s { unit = (spend_unit_mana F cost s.unit).1 }
  use_mana (restore amount) s = (add_unit_mana F amount s).1

  unfoldable pub use_all : List Use → Casting F → Casting F
  use_all [] s = s
  use_all (x ∷ xs) s = use_all xs (use_mana x s)

module _ (F : Float64) where
  open F use {Float, plus, minus, times, less, at_most, of_int, to_int}

  -- What is relied on in floats. `IsFraction` has those from 0 to below 1, and `IsStep` those from 0
  -- to a few thousand million, which truncation is exact on.
  pub record Regenerates : Type 1 where
    pub IsFraction : Float → Type 0
    pub IsStep : Float → Type 0
    pub none_yet : IsFraction (of_int (pos 0))
    pub early :
        (a x : Float)
        → IsFraction a
        → IsStep x
        → less (plus a x) (of_int (pos 1)) ≡ true
        → IsFraction (plus a x)
    pub truncated :
        (a x : Float)
        → IsFraction a
        → IsStep x
        → less (plus a x) (of_int (pos 1)) ≡ false
        → (pos 0 ≤ℤ to_int (plus a x))
          × (to_int (plus a x) ≤ℤ pos 0x1_0000_0000)
          × IsFraction (minus (plus a x) (of_int (to_int (plus a x))))

  module _ (laws : Regenerates) (per_second : Float) where
    open laws use {IsFraction, IsStep, none_yet, early, truncated}

    -- A caster whose mana is in its pool, which is far from the largest number, and that
    -- regenerates the given mana per second.
    pub record Within (u : Caster F) : Type 0 where
      pub low : pos 0 ≤ℤ u.current_mana
      pub high : u.current_mana ≤ℤ u.max_mana
      pub machine : u.max_mana ≤ℤ pos 0x4000_0000_0000_0000
      pub fraction : IsFraction u.mana_regen_accumulator
      pub speed : u.mana_regen_per_second ≡ per_second

    abbrev Pooled : Option (Caster F) → Type 0
    Pooled none = Unit
    Pooled (some u) = Within u

    abbrev Given : ManaRestoreEvent → Type 0
    Given e = pos 0 <ℤ e.amount

    -- The pool is neither overdrawn nor overfull, and every restoration that is shown gave something.
    pub data IsPool : Casting F → Type 0 where
      pool : {s : Casting F} → Pooled s.unit → All Given s.mana_restore_events_this_tick → IsPool s

    -- A tick whose regeneration, where there is any, is a step that floats represent well.
    abbrev pub Steps : Use F → Type 0
    Steps (regen bonus dt) =
        at_most (plus per_second bonus) (of_int (pos 0)) ≡ false
        → IsStep (times (plus per_second bonus) dt)
    Steps (spend cost) = Unit
    Steps (restore amount) = Unit

    filled-Within :
        (u : Caster F)
        → pos 0 ≤ℤ u.max_mana
        → u.max_mana ≤ℤ pos 0x4000_0000_0000_0000
        → u.mana_regen_per_second ≡ per_second
        → Within (filled F u)
    unfolding filled
    filled-Within u some_pool machine speed = record {
      low = some_pool;
      high = omega arith;
      machine = machine;
      fraction = none_yet;
      speed = speed;
    }

    accumulated-Within :
        (x : Float) (u : Caster F)
        → IsStep x
        → less (plus u.mana_regen_accumulator x) (of_int (pos 1)) ≡ false
        → Within u
        → Within (accumulated F (plus u.mana_regen_accumulator x) u)
    unfolding accumulated
    accumulated-Within x u step full h =
        let acc = plus u.mana_regen_accumulator x in
        let (some_gain, bounded, fraction) =
          truncated u.mana_regen_accumulator x h.fraction step full in
        let gain = to_int acc in
        let parts = +ℤ_parts u.current_mana gain in
        let exact : wrap_64 (u.current_mana +ℤ gain) ≡ u.current_mana +ℤ gain =
          wrap_64-small (u.current_mana +ℤ gain) (omega (arith, parts, some_gain, h.low))
            (omega (arith, parts, bounded, h.low, h.high, h.machine)) in
        let raised : pos 0 ≤ℤ wrap_64 (u.current_mana +ℤ gain) =
          subst (λ z. pos 0 ≤ℤ z) (sym exact) (omega (arith, parts, some_gain, h.low)) in
        let v : Caster F = record u {
          current_mana = wrap_64 (u.current_mana +ℤ gain);
          mana_regen_accumulator = minus acc (of_int gain);
        } in
        if-both Within (leb_ℤ v.max_mana v.current_mana) (filled F v) v
          (λ _. filled-Within v (omega (arith, h.low, h.high)) h.machine h.speed)
          (λ room. record {
            low = raised;
            high = ground (arith, room);
            machine = h.machine;
            fraction = fraction;
            speed = h.speed;
          })

    regenerated-Within :
        (rate dt : Float) (u : Caster F)
        → IsStep (times rate dt)
        → Within u
        → Within (regenerated F rate dt u)
    unfolding regenerated
    regenerated-Within rate dt u step h =
        let acc = plus u.mana_regen_accumulator (times rate dt) in
        if-both Within (leb_ℤ u.max_mana u.current_mana) (filled F u)
          (if less acc (of_int (pos 1))
            then record u { mana_regen_accumulator = acc }
            else accumulated F acc u)
          (λ _. filled-Within u (omega (arith, h.low, h.high)) h.machine h.speed)
          (λ _.
            if-both Within (less acc (of_int (pos 1))) (record u { mana_regen_accumulator = acc })
              (accumulated F acc u)
              (λ small. record {
                low = h.low;
                high = h.high;
                machine = h.machine;
                fraction = early u.mana_regen_accumulator (times rate dt) h.fraction step small;
                speed = h.speed;
              })
              (λ whole. accumulated-Within (times rate dt) u step whole h))

    paid-Within :
        (cost : ℤ) (u : Caster F)
        → leb_ℤ cost (pos 0) ≡ false
        → ltb_ℤ u.current_mana cost ≡ false
        → Within u
        → Within (paid F cost u)
    unfolding paid
    paid-Within cost u some_cost enough h = record {
      low = ground (arith, -ℤ_parts u.current_mana cost, enough);
      high = ground (arith, -ℤ_parts u.current_mana cost, some_cost, enough, h.low, h.high);
      machine = h.machine;
      fraction = h.fraction;
      speed = h.speed;
    }

    tick-Pooled :
        (bonus dt : Float) (o : Option (Caster F))
        → Steps (regen bonus dt)
        → Pooled o
        → Pooled (tick_unit_mana_regen F bonus dt o)
    unfolding tick_unit_mana_regen effective_mana_regen
    tick-Pooled bonus dt none step h = tt
    tick-Pooled bonus dt (some u) step h =
        let rate = effective_mana_regen F bonus (some u) in
        if-both Pooled
          (leb_ℤ u.hp (pos 0) || (leb_ℤ u.max_mana (pos 0) || at_most rate (of_int (pos 0))))
          (some u) (some (regenerated F rate dt u)) (λ _. h)
          (λ lives.
            let has_pool : leb_ℤ u.max_mana (pos 0) ≡ false = ground (arith, lives) in
            let is_rate : rate ≡ plus per_second bonus =
              rw (effective_mana_regen, has_pool) (ap (λ p. plus p bonus) h.speed) in
            let grows : at_most rate (of_int (pos 0)) ≡ false = ground (arith, lives) in
            regenerated-Within rate dt u
              (subst (λ r. IsStep (times r dt)) (sym is_rate)
                (step (subst (λ r. at_most r (of_int (pos 0)) ≡ false) is_rate grows)))
              h)

    spend-Pooled :
        (cost : ℤ) (o : Option (Caster F)) → Pooled o → Pooled (spend_unit_mana F cost o).1
    unfolding spend_unit_mana
    spend-Pooled cost none h = tt
    spend-Pooled cost (some u) h =
        if-both (λ (r : Bool × Option (Caster F)). Pooled r.1) (leb_ℤ cost (pos 0)) (true, some u) _
          (λ _. h)
          (λ some_cost.
            if-both (λ (r : Bool × Option (Caster F)). Pooled r.1)
              (leb_ℤ u.max_mana (pos 0) || ltb_ℤ u.current_mana cost) (false, some u)
              (true, some (paid F cost u)) (λ _. h)
              (λ enough. paid-Within cost u some_cost (ground (arith, enough)) h))

    restored-Within :
        (gain room : ℤ) (u : Caster F)
        → room ≡ u.max_mana -ℤ u.current_mana
        → pos 0 ≤ℤ gain
        → gain ≤ℤ room
        → Within u
        → Within (record u { current_mana = u.current_mana +ℤ gain })
    restored-Within gain room u e positive fits h =
        let sums = +ℤ_parts u.current_mana gain in
        let rooms = -ℤ_parts u.max_mana u.current_mana in
        record {
          low = omega (arith, sums, positive, h.low);
          high = omega (arith, ap pos_part e, ap neg_part e, sums, rooms, fits);
          machine = h.machine;
          fraction = h.fraction;
          speed = h.speed;
        }

    events-Given :
        (u : Caster F) (amount : ℤ) (events : List ManaRestoreEvent)
        → All Given events
        → All Given (record_mana_restore_event F u amount events)
    unfolding record_mana_restore_event
    events-Given u amount events h =
        if-both (All Given) (leb_ℤ amount (pos 0)) events _ (λ _. h)
          (λ some_amount. All-append Given events _ h (ground (arith, some_amount), tt))

    restore-IsPool :
        (amount : ℤ) (o : Option (Caster F)) (events : List ManaRestoreEvent)
        → Pooled o
        → All Given events
        → IsPool
            (add_unit_mana F amount (record { unit = o; mana_restore_events_this_tick = events })).1
    unfolding add_unit_mana
    restore-IsPool amount none events h given = pool h given
    restore-IsPool amount (some u) events h given =
        let room = u.max_mana -ℤ u.current_mana in
        let gain = if ltb_ℤ room amount then room else amount in
        if-both (λ (r : ℤ × Casting F). IsPool r.1)
          ((leb_ℤ amount (pos 0) || leb_ℤ u.max_mana (pos 0))
            || (leb_ℤ u.hp (pos 0) || leb_ℤ room (pos 0)))
          (pos 0, record { unit = some u; mana_restore_events_this_tick = events })
          (
            gain,
            record {
              unit = some (record u { current_mana = u.current_mana +ℤ gain });
              mana_restore_events_this_tick = record_mana_restore_event F u gain events;
            },
          )
          (λ _. pool h given)
          (λ alive.
            pool
              (restored-Within gain room u refl (ground (arith, alive)) (ground (arith, alive)) h)
              (events-Given u gain events given))

    use_mana-IsPool : (x : Use F) (s : Casting F) → Steps x → IsPool s → IsPool (use_mana F x s)
    unfolding use_mana
    use_mana-IsPool (regen bonus dt) s step (pool h given) =
        pool (tick-Pooled bonus dt s.unit step h) given
    use_mana-IsPool (spend cost) s step (pool h given) = pool (spend-Pooled cost s.unit h) given
    use_mana-IsPool (restore amount) s step (pool h given) =
        restore-IsPool amount s.unit s.mana_restore_events_this_tick h given

    -- With floats that truncate small sums rightly, and ticks whose regeneration is such a step:
    -- whatever ticks, costs and grants come, mana that was from 0 to its maximum, which is at most
    -- 2 ^ 62, stays there, though a regeneration's sum wraps around at 64 bits, and every
    -- restoration that is shown gave something.
    pub use_all-IsPool :
        (xs : List (Use F)) (s : Casting F) → All Steps xs → IsPool s → IsPool (use_all F xs s)
    unfolding use_all
    use_all-IsPool [] s steps h = h
    use_all-IsPool (x ∷ xs) s steps h =
        use_all-IsPool xs (use_mana F x s) steps.1 (use_mana-IsPool x s steps.0 h)
