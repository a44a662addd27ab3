-- ===== src/Pathing/Nearest.antt =====
-- pathing.go, `findNearestWalkable`, `findNearestWalkableAvailable` and
-- `findNearestUnitPathSubWalkable`: a breadth-first search for a free cell. It walks through blocked
-- cells too, and is bounded by the map only.
pub mod Scan
pub mod Shape
pub mod Cells
pub mod Layers
pub mod Correct
use web_rts_nomads.Base.{
  ℕ, zero, suc, ◌*◌, Bool, true, false, not, ◌&&◌, List, [], ◌∷◌, ◌++◌, if◌then◌else◌,
}
use web_rts_nomads.Base.Int.{ℤ, pos, negsuc, ◌+ℤ◌}
use web_rts_nomads.Pathing.{GridPoint, CellSet, has, out_of_grid, clamp_grid_point, is_walkable}

pub record Search : Type 0 where
  pub queue : List GridPoint
  pub visited : CellSet

-- How one direction ends: the enclosing function returns, or the loop goes on.
pub data Outcome : Type 0 where
  found : GridPoint → Outcome
  carry_on : Search → Outcome

-- `(gridPoint{}, false)` is `nowhere`.
pub data Nearest : Type 0 where
  at : GridPoint → Nearest
  nowhere out_of_fuel : Nearest

abbrev pub point : ℤ → ℤ → GridPoint
point a b = record { x = a; y = b }

abbrev pub directions : List GridPoint
directions =
    point (pos 1) (pos 0)
    ∷ point (negsuc 0) (pos 0)
    ∷ point (pos 0) (pos 1)
    ∷ point (pos 0) (negsuc 0)
    ∷ []

abbrev pub next_to : GridPoint → GridPoint → GridPoint
next_to p d = point (p.x +ℤ d.x) (p.y +ℤ d.y)

abbrev pub start_at : GridPoint → Search
start_at start = record { queue = start ∷ []; visited = start ∷ [] }

module _ (cols rows : ℕ) (accepts : GridPoint → Bool) where
  -- The body of the inner loop.
  unfoldable pub look : GridPoint → Search → Outcome
  look next s =
      if has next s.visited
      then carry_on s
      else if out_of_grid cols rows next
      then carry_on s
      else if accepts next
      then found next
      else carry_on (record { queue = s.queue ++ next ∷ []; visited = next ∷ s.visited })

  unfoldable pub look_around : List GridPoint → GridPoint → Search → Outcome
  look_around [] current s = carry_on s
  look_around (d ∷ ds) current s = elim (look (next_to current d) s) [
    | found p ↦ found p
    | carry_on s' ↦ look_around ds current s'
  ]

  unfoldable pub search : ℕ → Search → Nearest
  search zero s = elim s.queue [ [] ↦ nowhere | _ ∷ _ ↦ out_of_fuel ]
  search (suc fuel) s = elim s.queue [
    | [] ↦ nowhere
    | current ∷ rest ↦ elim (look_around directions current (record s { queue = rest })) [
      | found p ↦ at p
      | carry_on s' ↦ search fuel s'
    ]
  ]

  unfoldable pub nearest_from : GridPoint → Nearest
  unfolding search
  nearest_from start =
      if accepts start then at start else search (suc (cols * rows)) (start_at start)

-- `s.isWalkable(p, blocked) && !reserved[p]`.
abbrev pub is_available : ℕ → ℕ → CellSet → CellSet → GridPoint → Bool
is_available cols rows blocked reserved p = is_walkable cols rows blocked p && not (has p reserved)

unfoldable pub find_nearest_walkable_available : ℕ → ℕ → GridPoint → CellSet → CellSet → Nearest
unfolding nearest_from
find_nearest_walkable_available cols rows start blocked reserved =
    nearest_from cols rows (is_available cols rows blocked reserved)
      (clamp_grid_point cols rows start)

unfoldable pub find_nearest_walkable : ℕ → ℕ → GridPoint → CellSet → Nearest
find_nearest_walkable cols rows start blocked =
    find_nearest_walkable_available cols rows start blocked []

-- The loop tests the bounds of a cell, and then the blocked cells alone.
unfoldable pub find_nearest_unit_path_sub_walkable : ℕ → ℕ → GridPoint → CellSet → Nearest
unfolding search
find_nearest_unit_path_sub_walkable cols rows start blocked =
    if is_walkable cols rows blocked start
    then at start
    else search cols rows (λ p. not (has p blocked)) (suc (cols * rows)) (start_at start)
