-- ===== src/Mana.antt =====
-- server/internal/game/mana.go, with recordManaRestoreEventLocked of mana_restore_events.go: what a
-- caster's mana is spent on and restored by. `bonus` is manaConduitAuraBonusLocked of the unit.
-- Only the sum of a regeneration is of two numbers that were not compared, and can wrap around: `room`
-- and the sums of a cost or a grant lie between 0 and the maximum, where the mana does.
pub mod Pool
pub mod Refund
use web_rts_nomads.Base.{
  ℕ, Bool, true, false, ◌||◌, Option, none, some, List, [], ◌∷◌, ◌++◌, if◌then◌else◌,
}
use web_rts_nomads.Base.Int.{ℤ, pos, ltb_ℤ, leb_ℤ, ◌+ℤ◌, ◌-ℤ◌, wrap_64}
use web_rts_nomads.Base.Float.{Float64}

pub record ManaRestoreEvent : Type 0 where
  pub unit_id : ℕ
  pub amount : ℤ

module _ (F : Float64) where
  open F use {Float, plus, minus, times, less, at_most, of_int, to_int}

  pub record Caster : Type 0 where
    pub id : ℕ
    pub hp : ℤ
    pub max_mana : ℤ
    pub current_mana : ℤ
    pub mana_regen_per_second : Float
    pub mana_regen_accumulator : Float

  -- A unit, which may be nil, and the restorations that this tick shows.
  pub record Casting : Type 0 where
    pub unit : Option Caster
    pub mana_restore_events_this_tick : List ManaRestoreEvent

  unfoldable pub effective_mana_regen : Float → Option Caster → Float
  effective_mana_regen bonus none = of_int (pos 0)
  effective_mana_regen bonus (some u) =
      if leb_ℤ u.max_mana (pos 0) then of_int (pos 0) else plus u.mana_regen_per_second bonus

  -- The pool is full, and the accumulator starts again.
  unfoldable pub filled : Caster → Caster
  filled u = record u { current_mana = u.max_mana; mana_regen_accumulator = of_int (pos 0) }

  -- The whole points that the accumulator holds are given.
  unfoldable pub accumulated : Float → Caster → Caster
  accumulated acc u =
      let gain = to_int acc in
      let v = record u {
        current_mana = wrap_64 (u.current_mana +ℤ gain);
        mana_regen_accumulator = minus acc (of_int gain);
      } in
      if leb_ℤ v.max_mana v.current_mana then filled v else v

  unfoldable pub regenerated : Float → Float → Caster → Caster
  regenerated rate dt u =
      let acc = plus u.mana_regen_accumulator (times rate dt) in
      if leb_ℤ u.max_mana u.current_mana
      then filled u
      else if less acc (of_int (pos 1))
      then record u { mana_regen_accumulator = acc }
      else accumulated acc u

  unfoldable pub tick_unit_mana_regen : Float → Float → Option Caster → Option Caster
  tick_unit_mana_regen bonus dt none = none
  tick_unit_mana_regen bonus dt (some u) =
      let rate = effective_mana_regen bonus (some u) in
      if leb_ℤ u.hp (pos 0) || (leb_ℤ u.max_mana (pos 0) || at_most rate (of_int (pos 0)))
      then some u
      else some (regenerated rate dt u)

  -- What is left of the pool, which the code does not let fall below 0.
  unfoldable pub paid : ℤ → Caster → Caster
  paid cost u =
      let left = u.current_mana -ℤ cost in
      record u { current_mana = if ltb_ℤ left (pos 0) then pos 0 else left }

  unfoldable pub spend_unit_mana : ℤ → Option Caster → Bool × Option Caster
  spend_unit_mana cost none = (leb_ℤ cost (pos 0), none)
  spend_unit_mana cost (some u) =
      if leb_ℤ cost (pos 0)
      then (true, some u)
      else if leb_ℤ u.max_mana (pos 0) || ltb_ℤ u.current_mana cost
      then (false, some u)
      else (true, some (paid cost u))

  unfoldable pub record_mana_restore_event :
      Caster → ℤ → List ManaRestoreEvent → List ManaRestoreEvent
  record_mana_restore_event u amount events =
      if leb_ℤ amount (pos 0)
      then events
      else events ++ record { unit_id = u.id; amount = amount } ∷ []

  -- The amount that is given, and the state.
  unfoldable pub add_unit_mana : ℤ → Casting → ℤ × Casting
  add_unit_mana amount s = elim s.unit [
    | none ↦ (pos 0, s)
    | some u ↦
        let room = u.max_mana -ℤ u.current_mana in
        let gain = if ltb_ℤ room amount then room else amount in
        if (leb_ℤ amount (pos 0) || leb_ℤ u.max_mana (pos 0))
          || (leb_ℤ u.hp (pos 0) || leb_ℤ room (pos 0))
        then (pos 0, s)
        else (
          gain,
          record {
            unit = some (record u { current_mana = u.current_mana +ℤ gain });
            mana_restore_events_this_tick =
                record_mana_restore_event u gain s.mana_restore_events_this_tick;
          },
        )
  ]
