-- ===== src/Pathing/Terrain.antt =====
-- pathing.go, `buildBlockedCells` and `addTerrainBlocks`: the cells of a map that no ground unit
-- enters, by its terrain, obstacles and buildings (protocol.MapConfig).
pub mod Exact
use web_rts_nomads.Base.{
  ℕ, zero, suc, ◌+◌, String, Bool, true, false, not, ◌&&◌, ◌||◌, Option, none, some, List, [], ◌∷◌,
  ◌++◌, str_eq, leb, ◌==◌, if◌then◌else◌,
}
use web_rts_nomads.Base.Int.{ℤ, pos, negsuc, leb_ℤ, ltb_ℤ, eqb_ℤ, ◌+ℤ◌}
use web_rts_nomads.Pathing.{GridPoint, CellSet, out_of_grid}
use web_rts_nomads.Pathing.Nearest.{point}
use web_rts_nomads.Pathing.AStar.{PointMap, at_point}

pub record TileCoord : Type 0 where
  pub sheet : String
  pub sx : ℤ
  pub sy : ℤ

pub record TerrainCell : Type 0 where
  pub at : GridPoint
  pub terrain : String

pub record PlacedTile : Type 0 where
  pub at : GridPoint
  pub coord : TileCoord

pub record PlacedBuilding : Type 0 where
  pub at : GridPoint
  pub width : ℕ
  pub height : ℕ
  pub visible : Bool
  pub building_type : String

-- What the blocked cells are made from.
pub record MapConfig : Type 0 where
  pub grid_cols : ℕ
  pub grid_rows : ℕ
  pub default_tile : Option TileCoord
  pub terrain : List TerrainCell
  pub tiles : List PlacedTile
  pub obstacles : List GridPoint
  pub buildings : List PlacedBuilding

unfoldable pub is_pure_wang_tile_coord : TileCoord → Bool
is_pure_wang_tile_coord c =
    if eqb_ℤ c.sx (pos 64) && eqb_ℤ c.sy (pos 32)
    then true
    else if eqb_ℤ c.sx (pos 0) && eqb_ℤ c.sy (pos 96)
    then true
    else false

unfoldable pub infer_default_terrain : Option TileCoord → String
infer_default_terrain none = "grass"
infer_default_terrain (some c) =
    if not (str_eq c.sheet "tileset") && not (str_eq c.sheet "grass-dirt-0")
    then ""
    else if eqb_ℤ c.sx (pos 64) && eqb_ℤ c.sy (pos 32)
    then "grass"
    else if eqb_ℤ c.sx (pos 0) && eqb_ℤ c.sy (pos 96)
    then "dirt"
    else ""

-- The loop that fills `overrides`.
unfoldable pub terrain_overrides : ℕ → ℕ → List TerrainCell → PointMap String → PointMap String
terrain_overrides cols rows [] m = m
terrain_overrides cols rows (t ∷ ts) m =
    terrain_overrides cols rows ts (if out_of_grid cols rows t.at then m else (t.at, t.terrain) ∷ m)

unfoldable pub tile_overrides : List PlacedTile → PointMap TileCoord → PointMap TileCoord
tile_overrides [] m = m
tile_overrides (t ∷ ts) m = tile_overrides ts ((t.at, t.coord) ∷ m)

unfoldable pub terrain_at : ℕ → ℕ → String → PointMap String → GridPoint → String
terrain_at cols rows default_terrain overrides p =
    if out_of_grid cols rows p
    then default_terrain
    else elim (at_point p overrides) [ none ↦ default_terrain | some t ↦ t ]

-- `cornerIsGrass`, of the four cells around a corner.
unfoldable pub corner_is_grass : String → String → String → String → String → Bool
corner_is_grass default_terrain a b c d =
    if str_eq default_terrain "grass"
    then str_eq a "grass" && (str_eq b "grass" && (str_eq c "grass" && str_eq d "grass"))
    else str_eq a "grass" || (str_eq b "grass" || (str_eq c "grass" || str_eq d "grass"))

-- A bit of the mask; the four bits are distinct, so `|=` adds.
abbrev pub bit : ℕ → Bool → ℕ
bit n b = if b then n else 0

unfoldable pub compute_wang_mask : ℤ → ℤ → String → (ℤ → ℤ → String) → ℕ
compute_wang_mask cx cy default_terrain at =
    let l = cx +ℤ negsuc 0 in
    let r = cx +ℤ pos 1 in
    let u = cy +ℤ negsuc 0 in
    let d = cy +ℤ pos 1 in
    let corner = corner_is_grass default_terrain in
    bit 1 (corner (at l u) (at cx u) (at l cy) (at cx cy))
    + bit 2 (corner (at cx u) (at r u) (at cx cy) (at r cy))
    + bit 4 (corner (at l cy) (at cx cy) (at l d) (at cx d))
    + bit 8 (corner (at cx cy) (at r cy) (at cx d) (at r d))

-- The body of the loop over the cells: whether the tile that is seen there is a transition.
unfoldable pub is_transition : MapConfig → String → GridPoint → Bool
is_transition cfg default_terrain p =
    let cols = cfg.grid_cols in
    let rows = cfg.grid_rows in
    let overrides = terrain_overrides cols rows cfg.terrain [] in
    let mask =
      compute_wang_mask p.x p.y default_terrain
        (λ x y. terrain_at cols rows default_terrain overrides (point x y)) in
    elim (at_point p (tile_overrides cfg.tiles [])) [
      | some coord ↦ not (is_pure_wang_tile_coord coord)
      | none ↦ not (mask == 0) && not (mask == 15)
    ]

-- Cells (0 … n-1, y) that a test picks, added to the blocked ones.
unfoldable pub block_row : (GridPoint → Bool) → ℕ → ℕ → CellSet → CellSet
block_row test y zero blocked = blocked
block_row test y (suc n) blocked =
    let before = block_row test y n blocked in
    let cell = point (pos n) (pos y) in if test cell then cell ∷ before else before

unfoldable pub block_rows : (GridPoint → Bool) → ℕ → ℕ → CellSet → CellSet
block_rows test cols zero blocked = blocked
block_rows test cols (suc n) blocked = block_row test n cols (block_rows test cols n blocked)

unfoldable pub add_terrain_blocks : MapConfig → CellSet → CellSet
unfolding block_rows
add_terrain_blocks cfg blocked =
    let default_terrain = infer_default_terrain cfg.default_tile in
    if str_eq default_terrain ""
    then blocked
    else block_rows (is_transition cfg default_terrain) cfg.grid_cols cfg.grid_rows blocked

unfoldable pub add_obstacles : List GridPoint → CellSet → CellSet
add_obstacles [] blocked = blocked
add_obstacles (o ∷ os) blocked = add_obstacles os (o ∷ blocked)

-- The cells (x, y) … (x + n - 1, y).
unfoldable pub add_span : ℕ → ℤ → ℤ → CellSet → CellSet
add_span zero x y blocked = blocked
add_span (suc n) x y blocked = add_span n (x +ℤ pos 1) y (point x y ∷ blocked)

unfoldable pub add_footprint : ℕ → ℕ → ℤ → ℤ → CellSet → CellSet
add_footprint width zero x y blocked = blocked
add_footprint width (suc n) x y blocked =
    add_footprint width n x (y +ℤ pos 1) (add_span width x y blocked)

abbrev pub stands_there : PlacedBuilding → Bool
stands_there b = b.visible && not (str_eq b.building_type "enemy-spawnpoint")

unfoldable pub add_buildings : List PlacedBuilding → CellSet → CellSet
unfolding add_footprint
add_buildings [] blocked = blocked
add_buildings (b ∷ bs) blocked =
    add_buildings bs
      (if stands_there b then add_footprint b.width b.height b.at.x b.at.y blocked else blocked)

unfoldable pub build_blocked_cells : MapConfig → CellSet
build_blocked_cells cfg =
    add_buildings cfg.buildings (add_obstacles cfg.obstacles (add_terrain_blocks cfg []))
