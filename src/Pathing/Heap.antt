-- ===== src/Pathing/Heap.antt =====
-- pathing.go, `priorityQueue` under container/heap: the open cells of a search, least priority first.
-- The field `index` is never read and is left out; the list is the slice. Both loops move the index
-- towards one end of the slice, so its length bounds their rounds.
pub mod Laws
use web_rts_nomads.Base.{
  ℕ, zero, suc, ◌+◌, ◌-◌, ◌*◌, ◌/◌, Bool, true, false, not, ◌&&◌, ◌||◌, Option, none, some, List,
  [], ◌∷◌, ◌++◌, length, get_elem?, set, ltb, leb, ◌==◌, if◌then◌else◌,
}
use web_rts_nomads.Base.Float.{Float64}
use web_rts_nomads.Pathing.{GridPoint}

module _ (F : Float64) where
  open F use {Float, less}

  pub record PathNode : Type 0 where
    pub at : GridPoint
    pub priority : Float

  -- An index out of range would be a panic; the loops below never use one.
  abbrev pub less_at : ℕ → ℕ → List PathNode → Bool
  less_at i j pq = elim (get_elem? pq i) [
    | none ↦ false
    | some a ↦ elim (get_elem? pq j) [ none ↦ false | some b ↦ less a.priority b.priority ]
  ]

  unfoldable pub swap : ℕ → ℕ → List PathNode → List PathNode
  swap i j pq = elim (get_elem? pq i) [
    | none ↦ pq
    | some a ↦ elim (get_elem? pq j) [ none ↦ pq | some b ↦ set (set pq i b) j a ]
  ]

  unfoldable pub up : ℕ → ℕ → List PathNode → List PathNode
  up zero j pq = pq
  up (suc fuel) j pq =
      let i = (j - 1) / 2 in
      let rest = up fuel i (swap i j pq) in if (i == j) || not (less_at j i pq) then pq else rest

  -- The smaller of the two children of a node whose first child is at `j1`.
  abbrev pub child : ℕ → ℕ → List PathNode → ℕ
  child n j1 pq = if ltb (j1 + 1) n && less_at (j1 + 1) j1 pq then j1 + 1 else j1

  unfoldable pub down : ℕ → ℕ → ℕ → List PathNode → List PathNode
  down zero n i pq = pq
  down (suc fuel) n i pq =
      let j1 = 2 * i + 1 in
      let j = child n j1 pq in
      let rest = down fuel n j (swap i j pq) in
      if leb n j1 then pq else if not (less_at j i pq) then pq else rest

  -- `pq[n-1]` and `pq[:n-1]`.
  unfoldable pub pop_last : List PathNode → Option (PathNode × List PathNode)
  pop_last [] = none
  pop_last (a ∷ pq) = elim (pop_last pq) [
    | none ↦ some (a, [])
    | some (b, rest) ↦ some (b, a ∷ rest)
  ]

  unfoldable pub heap_push : PathNode → List PathNode → List PathNode
  heap_push node pq = up (suc (length pq)) (length pq) (pq ++ node ∷ [])

  -- `none` for an empty queue, which the source never pops.
  unfoldable pub heap_pop : List PathNode → Option (PathNode × List PathNode)
  unfolding pop_last
  heap_pop pq = let n = length pq - 1 in pop_last (down (length pq) n 0 (swap 0 n pq))
