-- ===== src/Pathing/AStar.antt =====
-- pathing.go, `findPath`, `reconstructPath`, `heuristicCost` and `findUnitPath`: A* over the eight
-- neighbours of a cell. The two searches have one loop, which `find_unit_path` runs on its finer grid
-- with a bound on the cells that it closes and without the extra cost of cells where units stand.
-- The counters of the debug tracker are left out.
pub mod Bound
pub mod Order
pub mod Relax
pub mod Better
pub mod Directions
pub mod Closing
pub mod Rounds
pub mod Routes
use web_rts_nomads.Base.{
  ℕ, zero, suc, ◌+◌, ◌*◌, Bool, true, false, not, ◌&&◌, ◌||◌, Option, none, some, List, [], ◌∷◌,
  ◌++◌, map, leb, if◌then◌else◌,
}
use web_rts_nomads.Base.Int.{ℤ, pos, negsuc, eqb_ℤ, ◌+ℤ◌, ◌-ℤ◌}
use web_rts_nomads.Base.Float.{Float64}
use web_rts_nomads.Pathing.{GridPoint, CellSet, eqb_point, has, clamp_grid_point, is_walkable}
use web_rts_nomads.Pathing.Nearest.{point, next_to}
use web_rts_nomads.Pathing.Heap.{PathNode, heap_push, heap_pop}

-- A `map[gridPoint]V`, the latest write first.
abbrev pub PointMap {ℓ} : Type ℓ → Type ℓ
PointMap V = List (GridPoint × V)

unfoldable pub at_point {ℓ} : {V : Type ℓ} → GridPoint → PointMap V → Option V
at_point p [] = none
at_point p ((q, v) ∷ m) = if eqb_point p q then some v else at_point p m

abbrev pub eight : List GridPoint
eight =
    point (pos 1) (pos 0)
    ∷ point (negsuc 0) (pos 0)
    ∷ point (pos 0) (pos 1)
    ∷ point (pos 0) (negsuc 0)
    ∷ point (pos 1) (pos 1)
    ∷ point (pos 1) (negsuc 0)
    ∷ point (negsuc 0) (pos 1)
    ∷ point (negsuc 0) (negsuc 0)
    ∷ []

abbrev pub is_diagonal : GridPoint → Bool
is_diagonal d = not (eqb_ℤ d.x (pos 0)) && not (eqb_ℤ d.y (pos 0))

-- The two cells beside a diagonal step.
abbrev pub side_a : GridPoint → GridPoint → GridPoint
side_a p d = point (p.x +ℤ d.x) p.y

abbrev pub side_b : GridPoint → GridPoint → GridPoint
side_b p d = point p.x (p.y +ℤ d.y)

-- The two early `continue`s of the inner loop.
unfoldable pub passable : ℕ → ℕ → CellSet → GridPoint → GridPoint → Bool
passable cols rows blocked current d =
    if not (is_walkable cols rows blocked (next_to current d))
    then false
    else if is_diagonal d
    then is_walkable cols rows blocked (side_a current d)
      && is_walkable cols rows blocked (side_b current d)
    else true

-- The first loop of `reconstructPath`, from `current` back: the points in the order of the path.
unfoldable pub points_back :
    ℕ → PointMap GridPoint → GridPoint → List GridPoint → Option (List GridPoint)
points_back zero came_from current points = none
points_back (suc fuel) came_from current points = elim (at_point current came_from) [
  | none ↦ some (current ∷ points)
  | some prev ↦ points_back fuel came_from prev (current ∷ points)
]

-- `math.Hypot`, `math.Abs` and the constant `math.Sqrt2`.
module _ (F : Float64) (hypot : F.Float → F.Float → F.Float) (abs : F.Float → F.Float)
    (sqrt2 : F.Float) where
  open F use {Float, plus, times, at_most, of_int, one_half}

  pub record Vec2 : Type 0 where
    pub x : Float
    pub y : Float

  unfoldable pub heuristic_cost : GridPoint → GridPoint → Float
  heuristic_cost a b = hypot (abs (of_int (a.x -ℤ b.x))) (abs (of_int (a.y -ℤ b.y)))

  -- `gridToWorldCenter` and `unitPathSubGridToWorldCenter`, which differ in the size of a cell.
  unfoldable pub grid_to_world_center : Float → GridPoint → Vec2
  grid_to_world_center cell_size p = record {
    x = times (plus (of_int p.x) one_half) cell_size;
    y = times (plus (of_int p.y) one_half) cell_size;
  }

  abbrev pub base_cost : GridPoint → Float
  base_cost d = if is_diagonal d then sqrt2 else of_int (pos 1)

  pub record Search : Type 0 where
    pub open_cells : List (PathNode F)
    pub came_from : PointMap GridPoint
    pub g_score : PointMap Float
    pub closed : CellSet
    pub expansions : ℕ

  -- `gScore[current]`.
  abbrev pub score_of : GridPoint → PointMap Float → Float
  score_of p m = elim (at_point p m) [ none ↦ of_int (pos 0) | some g ↦ g ]

  -- `seen && tentative >= best`.
  abbrev pub no_better : Option Float → Float → Bool
  no_better none tentative = false
  no_better (some best) tentative = at_most best tentative

  module _ (cols rows : ℕ) (blocked soft_blocked : CellSet) (budget : Option ℕ)
      (goal : GridPoint) where
    abbrev pub step_cost : GridPoint → GridPoint → Float
    step_cost current d =
        if has (next_to current d) soft_blocked
        then plus (base_cost d) (of_int (pos 2))
        else base_cost d

    abbrev pub reaches : GridPoint → GridPoint → Float → Search → Search
    reaches current next tentative s = record s {
      came_from = (next, current) ∷ s.came_from;
      g_score = (next, tentative) ∷ s.g_score;
      open_cells =
          heap_push F (record { at = next; priority = plus tentative (heuristic_cost next goal) })
            s.open_cells;
    }

    unfoldable pub relax : GridPoint → GridPoint → Search → Search
    relax current d s =
        let next = next_to current d in
        let tentative = plus (score_of current s.g_score) (step_cost current d) in
        if not (passable cols rows blocked current d)
        then s
        else if no_better (at_point next s.g_score) tentative
        then s
        else reaches current next tentative s

    unfoldable pub relax_all : List GridPoint → GridPoint → Search → Search
    relax_all [] current s = s
    relax_all (d ∷ ds) current s = relax_all ds current (relax current d s)

    unfoldable pub over_budget : ℕ → Bool
    over_budget n = elim budget [ none ↦ false | some most ↦ leb most n ]

    abbrev pub close_cell : GridPoint → Search → Search
    close_cell current s = record s { closed = current ∷ s.closed; expansions = suc s.expansions }

    pub data Outcome : Type 0 where
      arrives : Search → Outcome
      exhausted budget_hit out_of_fuel : Outcome

    unfoldable pub run : ℕ → Search → Outcome
    run zero s = elim (heap_pop F s.open_cells) [ none ↦ exhausted | some _ ↦ out_of_fuel ]
    run (suc fuel) s = elim (heap_pop F s.open_cells) [
      | none ↦ exhausted
      | some (node, rest) ↦
          let popped = record s { open_cells = rest } in
          let closing = close_cell node.at popped in
          elim (has node.at s.closed) [
            | true ↦ run fuel popped
            | false ↦ elim (eqb_point node.at goal) [
              | true ↦ arrives popped
              | false ↦ elim (over_budget closing.expansions) [
                | true ↦ budget_hit
                | false ↦ run fuel (relax_all eight node.at closing)
              ]
            ]
          ]
    ]

    abbrev pub begin : GridPoint → Search
    begin start = record {
      open_cells = heap_push F (record { at = start; priority = heuristic_cost start goal }) [];
      came_from = [];
      g_score = (start, of_int (pos 0)) ∷ [];
      closed = [];
      expansions = 0;
    }

  -- `nil` is `no_path`.
  pub data Route : Type 0 where
    path : List Vec2 → Route
    no_path out_of_rounds : Route

  unfoldable pub reconstruct_path : ℕ → Float → PointMap GridPoint → GridPoint → Route
  reconstruct_path fuel cell_size came_from current = elim (points_back fuel came_from current []) [
    | none ↦ out_of_rounds
    | some points ↦ path (map (grid_to_world_center cell_size) points)
  ]

  -- Rounds that the search never needs more of: every pop either closes a cell of the grid, which
  -- adds eight nodes at most, or uses up a node.
  abbrev pub enough_rounds : ℕ → ℕ → ℕ
  enough_rounds cols rows = 9 * (cols * rows) + 1

  -- The returns of the loop.
  unfoldable pub route_of :
      {cols rows : ℕ} {blocked soft_blocked : CellSet} {budget : Option ℕ} {goal : GridPoint}
      → ℕ
      → Float
      → Outcome cols rows blocked soft_blocked budget goal
      → Route
  route_of {goal = goal} fuel cell_size (arrives s) =
      reconstruct_path fuel cell_size s.came_from goal
  route_of fuel cell_size exhausted = no_path
  route_of fuel cell_size budget_hit = no_path
  route_of fuel cell_size out_of_fuel = out_of_rounds

  -- `fuel` bounds the walk back only.
  unfoldable pub search_path :
      ℕ → ℕ → ℕ → Float → CellSet → CellSet → Option ℕ → GridPoint → GridPoint → Route
  search_path fuel cols rows cell_size blocked soft_blocked budget start goal =
      if eqb_point start goal
      then path (grid_to_world_center cell_size goal ∷ [])
      else route_of fuel cell_size (
          run cols rows blocked soft_blocked budget goal (enough_rounds cols rows)
            (begin cols rows blocked soft_blocked budget goal start))

  unfoldable pub find_path : ℕ → ℕ → ℕ → Float → GridPoint → GridPoint → CellSet → CellSet → Route
  find_path fuel cols rows cell_size start goal blocked soft_blocked =
      search_path fuel cols rows cell_size blocked soft_blocked none
        (clamp_grid_point cols rows start) (clamp_grid_point cols rows goal)

  abbrev pub unit_path_expansion_factor : ℕ
  unit_path_expansion_factor = 16

  -- `cols` and `rows` are `unitPathSubGridDims()`, and `cell_size` is the constant 16.
  unfoldable pub find_unit_path : ℕ → ℕ → ℕ → Float → GridPoint → GridPoint → CellSet → Route
  find_unit_path fuel cols rows cell_size start goal blocked =
      search_path fuel cols rows cell_size blocked []
        (some (unit_path_expansion_factor * (cols + rows))) start goal
