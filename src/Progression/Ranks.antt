-- ===== src/Progression/Ranks.antt =====
-- A unit's rank is the rank of its experience.
use web_rts_nomads.Base.{
  ℕ, zero, suc, ◌≡◌, refl, ◌⊎◌, inl, inr, String, Bool, true, false, not, ◌||◌, some, arith,
  Bool-cases, Option-cases, str_eq, subst, sym, ap, ◌∙◌, if-true, if-false, if◌then◌else◌,
}
use web_rts_nomads.Base.Int.{ℤ, pos, ltb_ℤ, leb_ℤ, ◌≤ℤ◌, ◌<ℤ◌, ◌+ℤ◌, +ℤ_parts}
use web_rts_nomads.Base.Float.{Float64}
use web_rts_nomads.Progression.{
  RankProgressionDef, rank_def_for_xp, rank_from, next_rank_def, next_in, RankedUnit, rank_up,
  climb, add_unit_xp, unit_can_gain_xp, add_unit_xp_float, add_unit_xp_raw_float,
}

-- Which rank some experience stands for, by the thresholds.
pub data RankOf (xp : ℤ) : String → Type 0 where
  base : xp <ℤ pos 100 → RankOf xp "base"
  bronze : pos 100 ≤ℤ xp → xp <ℤ pos 350 → RankOf xp "bronze"
  silver : pos 350 ≤ℤ xp → xp <ℤ pos 750 → RankOf xp "silver"
  gold : pos 750 ≤ℤ xp → RankOf xp "gold"

rank_def-RankOf : (xp : ℤ) → RankOf xp (rank_def_for_xp xp).rank
unfolding rank_def_for_xp rank_from
rank_def-RankOf xp = elim (Bool-cases (ltb_ℤ xp (pos 100))) [
  | inl low ↦ elim (Bool-cases (ltb_ℤ xp (pos 0))) [
    | inl below ↦ rw below (base (ground (arith, low)))
    | inr above ↦ rw (above, low) (base (ground (arith, low)))
  ]
  | inr over_base ↦
      let above : ltb_ℤ xp (pos 0) ≡ false = ground (arith, over_base) in
      elim (Bool-cases (ltb_ℤ xp (pos 350))) [
        | inl low ↦
            rw (above, over_base, low) (bronze (ground (arith, over_base)) (ground (arith, low)))
        | inr over_bronze ↦ elim (Bool-cases (ltb_ℤ xp (pos 750))) [
          | inl low ↦
              rw (above, over_base, over_bronze, low)
                (silver (ground (arith, over_bronze)) (ground (arith, low)))
          | inr over_silver ↦
              rw (above, over_base, over_bronze, over_silver) (gold (ground (arith, over_silver)))
        ]
      ]
]

module _ (F : Float64) (floor : F.Float → ℤ) {Trained Rng : Type 0} (intn : ℕ → Rng → ℕ × Rng)
    (finish : String → String → String → ℤ × Trained → ℤ × Trained) where
  abbrev Fighter : Type 0
  Fighter = RankedUnit F floor intn finish

  abbrev pub IsRanked : Fighter → Type 0
  IsRanked u = RankOf u.xp u.rank

  abbrev Draw : Type 0
  Draw = Fighter × Rng

  arrive :
      (k : ℕ) (final : String) (u : Fighter) (rng : Rng)
      → u.rank ≡ final
      → str_eq final final ≡ true
      → (climb F floor intn finish k final u rng).0.rank ≡ final
  unfolding climb
  arrive zero final u rng e same = e
  arrive (suc k) final u rng e same =
      if-true (λ (r : Draw). r.0.rank ≡ final) _ _ _ (ap (λ s. str_eq s final) e ∙ same) e

  -- The promotion loop goes from the first rank to the last of a list of neighbours.
  step :
      (k : ℕ) (r final : String) (n : RankProgressionDef) (u : Fighter) (rng : Rng)
      → u.rank ≡ r
      → str_eq r final ≡ false
      → next_rank_def r ≡ some n
      → climb F floor intn finish (suc k) final u rng
        ≡ climb F floor intn finish k final
            (rank_up F floor intn finish n.rank u rng).0
            (rank_up F floor intn finish n.rank u rng).1
  unfolding climb
  step k r final n u rng e other next =
      if-false
        (λ (z : Draw).
          z
          ≡ climb F floor intn finish k final (rank_up F floor intn finish n.rank u rng).0
              (rank_up F floor intn finish n.rank u rng).1)
        _ _ _ (ap (λ s. str_eq s final) e ∙ other) (rw (ap next_rank_def e ∙ next) refl)

  abbrev Ends : ℕ → String → Fighter → Rng → Type 0
  Ends k final u rng = (climb F floor intn finish k final u rng).0.rank ≡ final

  step-Ends :
      (k : ℕ) (r final : String) (n : RankProgressionDef) (u : Fighter) (rng : Rng)
      → u.rank ≡ r
      → str_eq r final ≡ false
      → next_rank_def r ≡ some n
      → Ends k final
          (rank_up F floor intn finish n.rank u rng).0
          (rank_up F floor intn finish n.rank u rng).1
      → Ends (suc k) final u rng
  step-Ends k r final n u rng e other next later =
      ap (λ (z : Draw). z.0.rank) (step k r final n u rng e other next) ∙ later

  -- From each rank, to each one above it.
  from_silver : (k : ℕ) (u : Fighter) (rng : Rng) → u.rank ≡ "silver" → Ends (suc k) "gold" u rng
  unfolding next_rank_def next_in rank_up
  from_silver k u rng e =
      step-Ends k "silver" "gold" _ u rng e refl refl (arrive k "gold" _ _ refl refl)

  from_bronze :
      (k : ℕ) (final : String) (u : Fighter) (rng : Rng)
      → u.rank ≡ "bronze"
      → (final ≡ "silver") ⊎ (final ≡ "gold")
      → Ends (suc (suc k)) final u rng
  unfolding next_rank_def next_in rank_up
  from_bronze k final u rng e (inl f) =
      subst (λ s. Ends (suc (suc k)) s u rng) (sym f)
        (step-Ends (suc k) "bronze" "silver" _ u rng e refl refl
          (arrive (suc k) "silver" _ _ refl refl))
  from_bronze k final u rng e (inr f) =
      subst (λ s. Ends (suc (suc k)) s u rng) (sym f)
        (step-Ends (suc k) "bronze" "gold" _ u rng e refl refl (from_silver k _ _ refl))

  from_base :
      (k : ℕ) (final : String) (u : Fighter) (rng : Rng)
      → u.rank ≡ "base"
      → (final ≡ "bronze") ⊎ ((final ≡ "silver") ⊎ (final ≡ "gold"))
      → Ends (suc (suc (suc k))) final u rng
  unfolding next_rank_def next_in rank_up
  from_base k final u rng e (inl f) =
      subst (λ s. Ends (suc (suc (suc k))) s u rng) (sym f)
        (step-Ends (suc (suc k)) "base" "bronze" _ u rng e refl refl
          (arrive (suc (suc k)) "bronze" _ _ refl refl))
  from_base k final u rng e (inr (inl f)) =
      subst (λ s. Ends (suc (suc (suc k))) s u rng) (sym f)
        (step-Ends (suc (suc k)) "base" "silver" _ u rng e refl refl
          (from_bronze k "silver" _ _ refl (inl refl)))
  from_base k final u rng e (inr (inr f)) =
      subst (λ s. Ends (suc (suc (suc k))) s u rng) (sym f)
        (step-Ends (suc (suc k)) "base" "gold" _ u rng e refl refl
          (from_bronze k "gold" _ _ refl (inr refl)))

  -- The loop reaches the rank of more experience.
  climbs :
      (x y : ℤ) (old new : String) (u : Fighter) (rng : Rng)
      → u.rank ≡ old
      → x ≤ℤ y
      → RankOf x old
      → RankOf y new
      → Ends 4 new u rng
  climbs x y old new u rng e le (base a) (base b) = arrive 4 "base" u rng e refl
  climbs x y old new u rng e le (base a) (bronze b c) = from_base 1 "bronze" u rng e (inl refl)
  climbs x y old new u rng e le (base a) (silver b c) =
      from_base 1 "silver" u rng e (inr (inl refl))
  climbs x y old new u rng e le (base a) (gold b) = from_base 1 "gold" u rng e (inr (inr refl))
  climbs x y old new u rng e le (bronze a d) (base b) = absurd (omega (arith, le, a, b))
  climbs x y old new u rng e le (bronze a d) (bronze b c) = arrive 4 "bronze" u rng e refl
  climbs x y old new u rng e le (bronze a d) (silver b c) =
      from_bronze 2 "silver" u rng e (inl refl)
  climbs x y old new u rng e le (bronze a d) (gold b) = from_bronze 2 "gold" u rng e (inr refl)
  climbs x y old new u rng e le (silver a d) (base b) = absurd (omega (arith, le, a, b))
  climbs x y old new u rng e le (silver a d) (bronze b c) = absurd (omega (arith, le, a, c))
  climbs x y old new u rng e le (silver a d) (silver b c) = arrive 4 "silver" u rng e refl
  climbs x y old new u rng e le (silver a d) (gold b) = from_silver 3 u rng e
  climbs x y old new u rng e le (gold a) (base b) = absurd (omega (arith, le, a, b))
  climbs x y old new u rng e le (gold a) (bronze b c) = absurd (omega (arith, le, a, c))
  climbs x y old new u rng e le (gold a) (silver b c) = absurd (omega (arith, le, a, c))
  climbs x y old new u rng e le (gold a) (gold b) = arrive 4 "gold" u rng e refl

  climb-xp :
      (k : ℕ) (final : String) (u : Fighter) (rng : Rng)
      → (climb F floor intn finish k final u rng).0.xp ≡ u.xp
  unfolding climb rank_up
  climb-xp zero final u rng = refl
  climb-xp (suc k) final u rng = elim (Bool-cases (str_eq u.rank final)) [
    | inl there ↦ if-true (λ (z : Draw). z.0.xp ≡ u.xp) _ _ _ there refl
    | inr lower ↦
        if-false (λ (z : Draw). z.0.xp ≡ u.xp) _ _ _ lower
          (elim (Option-cases (next_rank_def u.rank)) [
            | inl last ↦ rw last refl
            | inr (n, next) ↦ rw next (climb-xp k final _ _)
          ])
  ]

  -- A unit whose rank is that of its experience has the rank of its new experience after a gain,
  -- whatever the amount and however many ranks it crosses.
  pub add_unit_xp-IsRanked :
      (amount : ℤ) (u : Fighter) (rng : Rng)
      → IsRanked u
      → IsRanked (add_unit_xp F floor intn finish amount u rng).0
  unfolding add_unit_xp
  add_unit_xp-IsRanked amount u rng h =
      elim (Bool-cases (not (unit_can_gain_xp F floor intn finish u) || leb_ℤ amount (pos 0))) [
        | inl refused ↦ if-true (λ (z : Draw). IsRanked z.0) _ _ _ refused h
        | inr gains ↦
            let total = u.xp +ℤ amount in
            let fed : Fighter = record u { xp = total } in
            let final = (rank_def_for_xp total).rank in
            let climbed = climb F floor intn finish 4 final fed rng in
            let more : u.xp ≤ℤ total = ground (arith, gains, +ℤ_parts u.xp amount) in
            let new = rank_def-RankOf total in
            let up = climbs u.xp total u.rank final fed rng refl more h new in
            let same = climb-xp 4 final fed rng in
            if-false (λ (z : Draw). IsRanked z.0) _ (u, rng) climbed gains
              (subst (λ x. RankOf x climbed.0.rank) (sym same) (subst (RankOf total) (sym up) new))
      ]

  either-IsRanked :
      (b : Bool) (x y : Draw) → IsRanked x.0 → IsRanked y.0 → IsRanked (if b then x else y).0
  either-IsRanked true x y h k = h
  either-IsRanked false x y h k = k

  accrue :
      (total amount : F.Float) (u : Fighter) (rng : Rng)
      → IsRanked u
      → (let whole = floor total in
          let banked : Fighter = record u {
            xp_progress_remainder = F.minus total (F.of_int whole);
          } in
          IsRanked
            (if not (unit_can_gain_xp F floor intn finish u) || F.at_most amount (F.of_int (pos 0))
              then (u, rng)
              else if leb_ℤ whole (pos 0)
              then (banked, rng)
              else add_unit_xp F floor intn finish whole banked rng).0)
  accrue total amount u rng h =
      let whole = floor total in
      let banked : Fighter = record u { xp_progress_remainder = F.minus total (F.of_int whole) } in
      let added = add_unit_xp F floor intn finish whole banked rng in
      either-IsRanked _ (u, rng) (if leb_ℤ whole (pos 0) then (banked, rng) else added) h
        (either-IsRanked _ (banked, rng) added h (add_unit_xp-IsRanked whole banked rng h))

  -- Both ways of adding a fraction keep a unit's rank that of its experience.
  pub add_unit_xp_float-IsRanked :
      (factor amount : F.Float) (u : Fighter) (rng : Rng)
      → IsRanked u
      → IsRanked (add_unit_xp_float F floor intn finish factor amount u rng).0
        × IsRanked (add_unit_xp_raw_float F floor intn finish amount u rng).0
  unfolding add_unit_xp_float add_unit_xp_raw_float
  add_unit_xp_float-IsRanked factor amount u rng h = (
    accrue (F.plus u.xp_progress_remainder (F.times amount factor)) amount u rng h,
    accrue (F.plus u.xp_progress_remainder amount) amount u rng h,
  )
