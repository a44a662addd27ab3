-- ===== src/Pathing/Simplify.antt =====
-- pathing.go, the conversions between the world and the grids, `simplifyUnitPath` and
-- `unitPathSegmentClear`. `floor` and `ceil` are `int(math.Floor(x))` and `int(math.Ceil(x))`. A path
-- is read from the current waypoint on, where the source has an index.
pub mod Thinning
use web_rts_nomads.Base.{
  ℕ, zero, suc, ◌+◌, Bool, true, false, not, List, [], ◌∷◌, length, ltb, if◌then◌else◌,
}
use web_rts_nomads.Base.Int.{ℤ, pos, leb_ℤ, pos_part}
use web_rts_nomads.Base.Float.{Float64}
use web_rts_nomads.Pathing.{GridPoint, CellSet, has, clamp_grid_point}
use web_rts_nomads.Pathing.Nearest.{point}
use web_rts_nomads.Pathing.AStar.{Vec2}

module _ (F : Float64) (hypot : F.Float → F.Float → F.Float) (abs : F.Float → F.Float)
    (sqrt2 : F.Float) (floor ceil : F.Float → ℤ) where
  open F use {Float, plus, minus, times, over, less, of_int, one_half}

  abbrev pub Waypoint : Type 0
  Waypoint = Vec2 F hypot abs sqrt2

  unfoldable pub world_to_grid : ℕ → ℕ → Float → Float → Float → GridPoint
  world_to_grid cols rows cell_size x y =
      clamp_grid_point cols rows (point (floor (over x cell_size)) (floor (over y cell_size)))

  abbrev pub unit_path_sub_cell_size : Float
  unit_path_sub_cell_size = of_int (pos 16)

  unfoldable pub world_to_unit_path_sub_grid : Float → Float → GridPoint
  world_to_unit_path_sub_grid x y =
      point (floor (over x unit_path_sub_cell_size)) (floor (over y unit_path_sub_cell_size))

  unfoldable pub unit_path_sub_grid_dims : Float → Float → ℤ × ℤ
  unit_path_sub_grid_dims map_width map_height = (
    ceil (over map_width unit_path_sub_cell_size),
    ceil (over map_height unit_path_sub_cell_size),
  )

  -- The loop over the samples of a segment, from the i-th one on.
  unfoldable pub samples_clear : ℕ → ℕ → ℤ → Waypoint → Float → Float → CellSet → Bool
  samples_clear zero i steps a dx dy blocked = true
  samples_clear (suc n) i steps a dx dy blocked =
      let rest = samples_clear n (suc i) steps a dx dy blocked in
      let t = over (of_int (pos i)) (of_int steps) in
      let x = plus a.x (times dx t) in
      let y = plus a.y (times dy t) in
      if has (world_to_unit_path_sub_grid x y) blocked then false else rest

  unfoldable pub unit_path_segment_clear : CellSet → Waypoint → Waypoint → Bool
  unfolding samples_clear
  unit_path_segment_clear blocked a b =
      let dx = minus b.x a.x in
      let dy = minus b.y a.y in
      let dist = hypot dx dy in
      let steps = ceil (over dist (times unit_path_sub_cell_size one_half)) in
      let count = if leb_ℤ (pos 0) steps then suc (pos_part steps) else 0 in
      if less dist (of_int (pos 1)) then true else samples_clear count 0 steps a dx dy blocked

  module _ (blocked : CellSet) where
    -- The inner loop: `q` is the farthest waypoint so far, `rest` are the ones behind it.
    unfoldable pub farthest : Waypoint → Waypoint → List Waypoint → Waypoint × List Waypoint
    farthest p q [] = (q, [])
    farthest p q (r ∷ rest) =
        let on = farthest p r rest in
        if not (unit_path_segment_clear blocked p r) then (q, r ∷ rest) else on

    -- The waypoints that are appended after `p`. Each round uses up one at least.
    unfoldable pub simplify_from : ℕ → Waypoint → List Waypoint → List Waypoint
    simplify_from fuel p [] = []
    simplify_from zero p (q ∷ rest) = []
    simplify_from (suc fuel) p (q ∷ rest) =
        let (far, behind) = farthest p q rest in far ∷ simplify_from fuel far behind

    unfoldable pub simplify_unit_path : List Waypoint → List Waypoint
    simplify_unit_path [] = []
    simplify_unit_path (p ∷ rest) =
        if ltb (suc (length rest)) 3 then p ∷ rest else p ∷ simplify_from (length rest) p rest
