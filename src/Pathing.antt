-- ===== src/Pathing.antt =====
-- server/internal/game/pathing.go: the grid that units walk on, and the searches over it.
pub mod Nearest
pub mod Heap
pub mod AStar
pub mod Terrain
pub mod Simplify
use web_rts_nomads.Base.{ℕ, Bool, true, false, not, ◌&&◌, ◌||◌, List, [], ◌∷◌, if◌then◌else◌}
use web_rts_nomads.Base.Int.{ℤ, pos, ltb_ℤ, leb_ℤ, eqb_ℤ, ◌-ℤ◌}

pub record GridPoint : Type 0 where
  pub x : ℤ
  pub y : ℤ

abbrev pub eqb_point : GridPoint → GridPoint → Bool
eqb_point p q = eqb_ℤ p.x q.x && eqb_ℤ p.y q.y

-- A `map[gridPoint]bool` into which only `true` is written.
abbrev pub CellSet : Type 0
CellSet = List GridPoint

unfoldable pub has : GridPoint → CellSet → Bool
has p [] = false
has p (q ∷ qs) = eqb_point p q || has p qs

abbrev pub min_int : ℤ → ℤ → ℤ
min_int a b = if ltb_ℤ a b then a else b

abbrev pub max_int : ℤ → ℤ → ℤ
max_int a b = if ltb_ℤ b a then a else b

-- The early `continue` or `return false` for a point beyond the map.
abbrev pub out_of_grid : ℕ → ℕ → GridPoint → Bool
out_of_grid cols rows p =
    ltb_ℤ p.x (pos 0) || (ltb_ℤ p.y (pos 0) || (leb_ℤ (pos cols) p.x || leb_ℤ (pos rows) p.y))

unfoldable pub clamp_grid_point : ℕ → ℕ → GridPoint → GridPoint
clamp_grid_point cols rows p = record {
  x = max_int (pos 0) (min_int p.x (pos cols -ℤ pos 1));
  y = max_int (pos 0) (min_int p.y (pos rows -ℤ pos 1));
}

-- `isUnitPathSubWalkable` is the same function of the dimensions that it is given.
unfoldable pub is_walkable : ℕ → ℕ → CellSet → GridPoint → Bool
is_walkable cols rows blocked p = if out_of_grid cols rows p then false else not (has p blocked)
