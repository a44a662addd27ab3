-- ===== src/Pathing/AStar/Bound.antt =====
-- The bound of the search on the finer grid: what it counts.
use web_rts_nomads.Base.{
  ℕ, suc, ◌≤◌, ◌≡◌, refl, true, false, some, List, [], ◌∷◌, arith, inl, inr, Option, All, length,
  ap, ◌∙◌, Option-cases,
}
use web_rts_nomads.Base.Float.{Float64}
use web_rts_nomads.Pathing.{GridPoint, CellSet, has}
use web_rts_nomads.Pathing.AStar.{PointMap, relax, relax_all, over_budget, Search}
use web_rts_nomads.Pathing.AStar.Order.{Walk, rests, steps, Chain, root, link}

-- No cell stands twice.
abbrev pub DistinctCells : CellSet → Type 0
DistinctCells [] = Unit
DistinctCells (p ∷ ps) = (has p ps ≡ false) × DistinctCells ps

module _ (cols rows : ℕ) (blocked : CellSet) (start : GridPoint) where
  pub Chain-Walk :
      {came : PointMap GridPoint} (p : GridPoint)
      → Chain cols rows blocked start came p
      → Walk cols rows blocked start p
  Chain-Walk p (root e) = rests
  Chain-Walk p (link {q = q} e step rest) = steps (Chain-Walk q rest) step

  -- The closed cells are distinct, can all be walked to, and are as many as is counted.
  pub record Counted (closed : CellSet) (expansions : ℕ) : Type 0 where
    pub distinct : DistinctCells closed
    pub walked : All (Walk cols rows blocked start) closed
    pub count : length closed ≡ expansions

  -- At least `most` cells other than the goal can be walked to.
  pub record Exhausts (goal : GridPoint) (most : ℕ) : Type 0 where
    pub visited : CellSet
    pub distinct : DistinctCells visited
    pub walked : All (Walk cols rows blocked start) visited
    pub not_goal : has goal visited ≡ false
    pub enough : most ≤ length visited

  pub Counted-close :
      (p : GridPoint) (closed : CellSet) (n : ℕ)
      → has p closed ≡ false
      → Walk cols rows blocked start p
      → Counted closed n
      → Counted (p ∷ closed) (suc n)
  Counted-close p closed n fresh walk c = record {
    distinct = (fresh, c.distinct);
    walked = (walk, c.walked);
    count = ap suc c.count;
  }

module _ (F : Float64) (hypot : F.Float → F.Float → F.Float) (abs : F.Float → F.Float)
    (sqrt2 : F.Float) (cols rows : ℕ) (blocked soft_blocked : CellSet) (budget : Option ℕ)
    (goal : GridPoint) where
  abbrev relax_one : GridPoint → GridPoint → Search F hypot abs sqrt2 → Search F hypot abs sqrt2
  relax_one = relax F hypot abs sqrt2 cols rows blocked soft_blocked budget goal

  relax-expansions :
      (p d : GridPoint) (s : Search F hypot abs sqrt2) → (relax_one p d s).expansions ≡ s.expansions
  unfolding relax
  relax-expansions p d s = ground arith

  pub relax_all-expansions :
      (ds : List GridPoint) (p : GridPoint) (s : Search F hypot abs sqrt2)
      → (relax_all F hypot abs sqrt2 cols rows blocked soft_blocked budget goal ds p s).expansions
        ≡ s.expansions
  unfolding relax_all
  relax_all-expansions [] p s = refl
  relax_all-expansions (d ∷ ds) p s =
      relax_all-expansions ds p (relax_one p d s) ∙ relax-expansions p d s

  pub over_budget-most :
      (n : ℕ)
      → over_budget F hypot abs sqrt2 cols rows blocked soft_blocked budget goal n ≡ true
      → (most : ℕ) × (budget ≡ some most) × (most ≤ n)
  unfolding over_budget
  over_budget-most n e = elim (Option-cases budget) [
    | inl none_ ↦ absurd (ground (arith, e, none_))
    | inr (most, some_) ↦ (most, some_, ground (arith, e, some_))
  ]
