-- ===== src/Progression.antt =====
-- server/internal/game/progression.go: experience and ranks. `Trained` is the rest of a unit (its
-- perks, abilities, stats and inventory), and `finish` what a promotion does to it and to its HP after
-- the path is known: assignUnitPerkLocked, assignUnitPathAbilitiesLocked, applyRankModifiersLocked
-- and onUnitRankUpLocked. `intn` is the perks' random generator.
pub mod Ranks
use web_rts_nomads.Base.{
  ℕ, zero, suc, String, Bool, true, false, not, ◌&&◌, ◌||◌, Option, none, some, List, [], ◌∷◌,
  str_eq, get_elem?, ◌==◌, if◌then◌else◌,
}
use web_rts_nomads.Base.Int.{ℤ, pos, ltb_ℤ, leb_ℤ, ◌+ℤ◌}
use web_rts_nomads.Base.Float.{Float64}
use web_rts_nomads.Matches.{enemy_player_id, neutral_player_id}

pub record RankProgressionDef : Type 0 where
  pub rank : String
  pub xp_threshold : ℤ

abbrev rank_row : String → ℤ → RankProgressionDef
rank_row rank threshold = record { rank = rank; xp_threshold = threshold }

abbrev pub rank_progression_table : List RankProgressionDef
rank_progression_table =
    rank_row "base" (pos 0)
    ∷ rank_row "bronze" (pos 100)
    ∷ rank_row "silver" (pos 350)
    ∷ rank_row "gold" (pos 750)
    ∷ []

-- The loop of `rankDefForXP`, with the best row so far.
unfoldable pub rank_from : ℤ → RankProgressionDef → List RankProgressionDef → RankProgressionDef
rank_from xp def [] = def
rank_from xp def (candidate ∷ rows) =
    let rest = rank_from xp candidate rows in if ltb_ℤ xp candidate.xp_threshold then def else rest

unfoldable pub rank_def_for_xp : ℤ → RankProgressionDef
unfolding rank_from
rank_def_for_xp xp = rank_from xp (rank_row "base" (pos 0)) rank_progression_table

-- The row after the first one of that rank.
unfoldable pub next_in : String → List RankProgressionDef → Option RankProgressionDef
next_in rank [] = none
next_in rank (candidate ∷ rows) =
    let rest = next_in rank rows in if str_eq candidate.rank rank then get_elem? rows 0 else rest

unfoldable pub next_rank_def : String → Option RankProgressionDef
unfolding next_in
next_rank_def rank = next_in rank rank_progression_table

module _ (F : Float64) (floor : F.Float → ℤ) {Trained Rng : Type 0} (intn : ℕ → Rng → ℕ × Rng)
    (finish : String → String → String → ℤ × Trained → ℤ × Trained) where
  open F use {Float, plus, minus, times, at_most, of_int}

  pub record RankedUnit : Type 0 where
    pub hp : ℤ
    pub visible : Bool
    pub owner_id : String
    pub unit_type : String
    pub rank : String
    pub xp : ℤ
    pub xp_progress_remainder : Float
    pub progression_path : String
    pub trained : Trained

  unfoldable pub unit_can_gain_xp : RankedUnit → Bool
  unit_can_gain_xp u =
      if leb_ℤ u.hp (pos 0) || not u.visible
      then false
      else not (str_eq u.owner_id enemy_player_id || str_eq u.owner_id neutral_player_id)

  -- `paths[intn(2)]`.
  abbrev pub pick_path : String → String → Rng → String × Rng
  pick_path a b rng = let (n, next) = intn 2 rng in ((if n == 0 then a else b), next)

  -- The path after `assignUnitPathOnRankUpLocked`.
  unfoldable pub assign_unit_path_on_rank_up : String → String → String → Rng → String × Rng
  assign_unit_path_on_rank_up unit_type rank path rng =
      if not (str_eq path "none")
      then (path, rng)
      else if str_eq rank "base"
      then (path, rng)
      else if str_eq unit_type "soldier"
      then pick_path "vanguard" "berserker" rng
      else if str_eq unit_type "archer"
      then pick_path "trapper" "marksman" rng
      else if str_eq unit_type "acolyte"
      then pick_path "cleric" "siphoner" rng
      else if str_eq unit_type "adept"
      then ("arch_mage", rng)
      else (path, rng)

  -- One round of the promotion loop.
  unfoldable pub rank_up : String → RankedUnit → Rng → RankedUnit × Rng
  rank_up rank u rng =
      let (path, next) = assign_unit_path_on_rank_up u.unit_type rank u.progression_path rng in
      let (hp, trained) = finish rank path u.unit_type (u.hp, u.trained) in
      (record u { rank = rank; progression_path = path; hp = hp; trained = trained }, next)

  -- The loop up to the rank of the new XP. Each round takes the next row of the table.
  unfoldable pub climb : ℕ → String → RankedUnit → Rng → RankedUnit × Rng
  climb zero final u rng = (u, rng)
  climb (suc fuel) final u rng =
      if str_eq u.rank final then (u, rng) else elim (next_rank_def u.rank) [
        | none ↦ (u, rng)
        | some next ↦ let (v, rng') = rank_up next.rank u rng in climb fuel final v rng'
      ]

  abbrev pub ranks : ℕ
  ranks = 4

  unfoldable pub add_unit_xp : ℤ → RankedUnit → Rng → RankedUnit × Rng
  unfolding climb rank_def_for_xp
  add_unit_xp amount u rng =
      if not (unit_can_gain_xp u) || leb_ℤ amount (pos 0)
      then (u, rng)
      else climb ranks (rank_def_for_xp (u.xp +ℤ amount)).rank (record u { xp = u.xp +ℤ amount })
          rng

  -- `addUnitXPRawFloatLocked`; `addUnitXPFloatLocked` scales the amount first.
  unfoldable pub add_unit_xp_raw_float : Float → RankedUnit → Rng → RankedUnit × Rng
  add_unit_xp_raw_float amount u rng =
      let total = plus u.xp_progress_remainder amount in
      let whole = floor total in
      let banked = record u { xp_progress_remainder = minus total (of_int whole) } in
      if not (unit_can_gain_xp u) || at_most amount (of_int (pos 0))
      then (u, rng)
      else if leb_ℤ whole (pos 0)
      then (banked, rng)
      else add_unit_xp whole banked rng

  -- `factor` is `xpGainMultiplier`. The guards come before the scaling.
  unfoldable pub add_unit_xp_float : Float → Float → RankedUnit → Rng → RankedUnit × Rng
  add_unit_xp_float factor amount u rng =
      let total = plus u.xp_progress_remainder (times amount factor) in
      let whole = floor total in
      let banked = record u { xp_progress_remainder = minus total (of_int whole) } in
      if not (unit_can_gain_xp u) || at_most amount (of_int (pos 0))
      then (u, rng)
      else if leb_ℤ whole (pos 0)
      then (banked, rng)
      else add_unit_xp whole banked rng
