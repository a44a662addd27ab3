-- ===== src/Fow/Recompute.antt =====
-- fow.go, `stampCircle`, and fow_recompute.go: how a tick rebuilds a player's grid from the units and
-- buildings that share their sight with that player.
pub mod Memory
use web_rts_nomads.Base.{
  ℕ, suc, zero, ◌+◌, ◌*◌, Bool, true, false, not, ◌&&◌, ◌||◌, Option, none, some, List, [], ◌∷◌,
  ◌++◌, String, Dict, lookup, insert, str_eq, if◌then◌else◌, ◌==◌,
}
use web_rts_nomads.Base.Int.{ℤ, pos, ◌+ℤ◌, ◌-ℤ◌, leb_ℤ, eqb_ℤ}
use web_rts_nomads.Base.Float.{Float64}
use web_rts_nomads.Matches.{enemy_player_id, neutral_player_id}
use web_rts_nomads.Fow.{
  PlayerFow, Footprint, ◌>>=◌, clear_clear_bits, any_footprint_clear, stamp_box, has_los,
}

-- `TeamID` of a player; a player that is not there has team 0.
abbrev pub team_of : Dict ℤ → String → ℤ
team_of teams id = elim (lookup id teams) [ none ↦ pos 0 | some t ↦ t ]

unfoldable pub players_are_friendly : Dict ℤ → String → String → Bool
players_are_friendly teams a b =
    if str_eq a enemy_player_id || str_eq b enemy_player_id
    then false
    else if str_eq a neutral_player_id || str_eq b neutral_player_id
    then false
    else eqb_ℤ (team_of teams a) (team_of teams b)

abbrev pub has_key {ℓ} : {V : Type ℓ} → String → Dict V → Bool
has_key k m = elim (lookup k m) [ none ↦ false | some _ ↦ true ]

unfoldable pub fow_owner_shares_vision : Dict ℤ → Dict PlayerFow → String → String → Bool
fow_owner_shares_vision teams fows owner viewer =
    if str_eq owner ""
    then false
    else if not (has_key owner fows)
    then false
    else players_are_friendly teams owner viewer

module _ (F : Float64) where
  open F use {Float, plus, minus, times, over, less, at_most, of_int, to_int, one_half}

  -- What the recomputation reads of a unit; `vision` is the range after the perks' multiplier.
  pub record SightedUnit : Type 0 where
    pub owner : String
    pub hp : ℤ
    pub visible : Bool
    pub flyer : Bool
    pub x : Float
    pub y : Float
    pub vision : Float

  pub record Building : Type 0 where
    pub id : String
    pub owner : Option String
    pub footprint : Footprint
    pub vision : Float

  -- `blocking != nil && !hasLOS(…)` lets no cell pass that is hidden.
  abbrev pub sees : Option (ℤ → ℤ → Bool) → ℤ → ℤ → ℤ → ℤ → Bool
  sees none cx cy gx gy = true
  sees (some blocking) cx cy gx gy = elim (has_los cx cy gx gy blocking) [
    | none ↦ false
    | some seen ↦ seen
  ]

  abbrev pub circle_covers : Float → Float → Float → Option (ℤ → ℤ → Bool) → ℕ → ℕ → Bool
  circle_covers cx cy r blocking gx gy =
      let dy = minus (plus (of_int (pos gy)) one_half) cy in
      let dx = minus (plus (of_int (pos gx)) one_half) cx in
      if less (times r r) (plus (times dx dx) (times dy dy))
      then false
      else sees blocking (to_int cx) (to_int cy) (pos gx) (pos gy)

  unfoldable pub stamp_circle :
      Float → Float → Float → Float → Option (ℤ → ℤ → Bool) → PlayerFow → Option PlayerFow
  stamp_circle world_x world_y radius cell_size blocking f =
      let cx = over world_x cell_size in
      let cy = over world_y cell_size in
      let r = over radius cell_size in
      if at_most cell_size (of_int (pos 0))
      then some f
      else stamp_box (circle_covers cx cy r blocking) (to_int (minus cx r) -ℤ pos 1)
          (to_int (plus cx r) +ℤ pos 1) (to_int (minus cy r) -ℤ pos 1) (to_int (plus cy r) +ℤ pos 1)
          f

  -- `float64(b.GridCoord.X) + float64(b.Width)/2.0`, in world pixels.
  abbrev center : Float → ℤ → ℕ → Float
  center cell_size at size =
      times (plus (of_int at) (over (of_int (pos size)) (of_int (pos 2)))) cell_size

  -- The snapshots of what is in sight now.
  unfoldable pub remember : PlayerFow → List Building → Dict Building → Option (Dict Building)
  remember f [] known = some known
  remember f (b ∷ bs) known = do
    hit ← any_footprint_clear f b.footprint
    remember f bs (if hit then insert b.id b known else known)

  module _ (teams : Dict ℤ) (fows : Dict PlayerFow) (viewer : String) (cell_size : Float)
      (blocking : ℤ → ℤ → Bool) where
    unfoldable pub stamp_unit : SightedUnit → PlayerFow → Option PlayerFow
    stamp_unit u f =
        if not (fow_owner_shares_vision teams fows u.owner viewer)
        then some f
        else if leb_ℤ u.hp (pos 0) || not u.visible
        then some f
        else stamp_circle u.x u.y u.vision cell_size (if u.flyer then none else some blocking) f

    unfoldable pub stamp_units : List SightedUnit → PlayerFow → Option PlayerFow
    stamp_units [] f = some f
    stamp_units (u ∷ us) f = do g ← stamp_unit u f; stamp_units us g

    abbrev shares : Option String → Bool
    shares none = false
    shares (some owner) = fow_owner_shares_vision teams fows owner viewer

    unfoldable pub stamp_building : Building → PlayerFow → Option PlayerFow
    stamp_building b f =
        if not (shares b.owner)
        then some f
        else stamp_circle (center cell_size b.footprint.grid_x b.footprint.width)
            (center cell_size b.footprint.grid_y b.footprint.height) b.vision cell_size
            (some blocking) f

    unfoldable pub stamp_buildings : List Building → PlayerFow → Option PlayerFow
    stamp_buildings [] f = some f
    stamp_buildings (b ∷ bs) f = do g ← stamp_building b f; stamp_buildings bs g

    -- The body of the loop over `s.FOW`, for one player.
    unfoldable pub recompute_fow :
        List SightedUnit
        → List Building
        → PlayerFow × Dict Building
        → Option (PlayerFow × Dict Building)
    recompute_fow units buildings (f, known) = do
      f1 ← stamp_units units (clear_clear_bits f)
      f2 ← stamp_buildings buildings f1
      known' ← remember f2 buildings known
      some (f2, known')
