-- ===== src/Tests/PathTests.antt =====
-- Pathing on a map of four by three cells with a wall, and its blocked cells.
use web_rts_nomads.Base.{ℕ, ◌+◌, ◌≡◌, refl, true, ◌||◌, none, some, [], ◌∷◌, arith}
use web_rts_nomads.Base.Int.{ℤ, pos, negsuc, ◌-ℤ◌, ◌+ℤ◌}
use web_rts_nomads.Pathing.{GridPoint, CellSet, has, is_walkable, clamp_grid_point}
use web_rts_nomads.Pathing.Nearest.{
  at, point, is_available, find_nearest_walkable_available, nearest_from, search, look_around, look,
}
use web_rts_nomads.Pathing.Nearest.Correct.{IsNearest, find_nearest_walkable_available-IsNearest}
use web_rts_nomads.Pathing.AStar.{
  Vec2, path, find_path, find_unit_path, search_path, route_of, reconstruct_path, points_back, run,
  relax_all, relax, at_point, passable, over_budget, heuristic_cost, grid_to_world_center,
}
use web_rts_nomads.Pathing.Heap.{heap_push, heap_pop, up, down, swap, pop_last}
use web_rts_nomads.Pathing.AStar.Routes.{IsAnswer, find_path-Settles, find_unit_path-Settles}
use web_rts_nomads.Pathing.Terrain.{MapConfig, build_blocked_cells}
use web_rts_nomads.Pathing.Terrain.Exact.{covered_by, terrain_blocks, has-build_blocked_cells}
use web_rts_nomads.Pathing.Simplify.{simplify_unit_path}
use web_rts_nomads.Pathing.Simplify.Thinning.{IsThinned, simplify_unit_path-IsThinned}
use web_rts_nomads.Tests.Whole.{whole, whole_order}

-- A wall with its gap in the last row.
abbrev wall : CellSet
wall = point (pos 1) (pos 0) ∷ point (pos 1) (pos 1) ∷ []

abbrev behind : GridPoint
behind = point (pos 2) (pos 0)

abbrev corner : GridPoint
corner = point (pos 0) (pos 0)

find_nearest_walkable_available-IsNearest_example :
    IsNearest 4 3
      (is_available 4 3 wall (corner ∷ []))
      (clamp_grid_point 4 3 (point (negsuc 4) (pos 0)))
      (find_nearest_walkable_available 4 3 (point (negsuc 4) (pos 0)) wall (corner ∷ []))
find_nearest_walkable_available-IsNearest_example =
    find_nearest_walkable_available-IsNearest 4 3 (point (negsuc 4) (pos 0)) wall (corner ∷ [])
      (omega arith) (omega arith)

nearest_to_corner :
    find_nearest_walkable_available 4 3 (point (negsuc 4) (pos 0)) wall (corner ∷ [])
    ≡ at (point (pos 0) (pos 1))
unfolding find_nearest_walkable_available nearest_from search look_around look has is_walkable
    clamp_grid_point ◌-ℤ◌ ◌+ℤ◌
nearest_to_corner = refl

abbrev longer : ℤ → ℤ → ℤ
longer a b = a

abbrev size : ℤ → ℤ
size a = a

find_path-Settles_example :
    (n : ℕ) × ((extra : ℕ)
      → IsAnswer whole longer size
          (pos 1)
          whole_order
          4
          3
          wall
          []
          none
          (clamp_grid_point 4 3 corner)
          (clamp_grid_point 4 3 behind)
          (pos 64)
          (find_path whole longer size (pos 1) (n + extra) 4 3 (pos 64) corner behind wall []))
find_path-Settles_example =
    find_path-Settles whole longer size (pos 1) whole_order 4 3 (pos 64) corner behind wall []
      (omega arith) (omega arith)

find_unit_path-Settles_example :
    (n : ℕ) × ((extra : ℕ)
      → IsAnswer whole longer size
          (pos 1)
          whole_order
          4
          3
          wall
          []
          (some 112)
          corner
          behind
          (pos 16)
          (find_unit_path whole longer size (pos 1) (n + extra) 4 3 (pos 16) corner behind wall))
find_unit_path-Settles_example =
    find_unit_path-Settles whole longer size (pos 1) whole_order 4 3 (pos 16) corner behind wall
      refl

-- The whole search on the map with the wall: down, through the gap and up.
abbrev center : ℕ → ℕ → Vec2 whole longer size (pos 1)
center a b = record { x = pos a; y = pos b }

path_around :
    find_path whole longer size (pos 1) 12 4 3 (pos 64) corner behind wall []
    ≡ path (
        center 0 0
        ∷ center 0 1
        ∷ center 0 2
        ∷ center 1 2
        ∷ center 2 2
        ∷ center 2 1
        ∷ center 2 0
        ∷ [])
unfolding find_path search_path route_of reconstruct_path points_back run relax_all relax at_point
    passable over_budget heuristic_cost grid_to_world_center heap_push heap_pop up down swap
    pop_last has is_walkable clamp_grid_point ◌-ℤ◌ ◌+ℤ◌
path_around = refl

abbrev meadow : MapConfig
meadow = record {
  grid_cols = 4;
  grid_rows = 3;
  default_tile = none;
  terrain = record { at = point (pos 3) (pos 2); terrain = "dirt" } ∷ [];
  tiles = [];
  obstacles = corner ∷ [];
  buildings =
      record {
        at = point (pos 1) (pos 0);
        width = 1;
        height = 2;
        visible = true;
        building_type = "townhall";
      }
      ∷ [];
}

has-build_blocked_cells_example : has (point (pos 1) (pos 1)) (build_blocked_cells meadow) ≡ (
    covered_by meadow.buildings (point (pos 1) (pos 1))
    || (has (point (pos 1) (pos 1)) meadow.obstacles
        || terrain_blocks meadow (point (pos 1) (pos 1))))
has-build_blocked_cells_example = has-build_blocked_cells meadow (point (pos 1) (pos 1))

simplify_unit_path-IsThinned_example :
    IsThinned whole longer size
      (pos 1)
      size
      size
      wall
      (center 0 0 ∷ center 0 1 ∷ center 0 2 ∷ center 1 2 ∷ center 2 2 ∷ [])
      (simplify_unit_path whole longer size
        (pos 1)
        size
        size
        wall
        (center 0 0 ∷ center 0 1 ∷ center 0 2 ∷ center 1 2 ∷ center 2 2 ∷ []))
simplify_unit_path-IsThinned_example =
    simplify_unit_path-IsThinned whole longer size (pos 1) size size wall (center 0 0)
      (center 0 1 ∷ center 0 2 ∷ center 1 2 ∷ center 2 2 ∷ [])
