-- ===== src/Pathing/AStar/Relax.antt =====
-- What the search keeps while it looks at the neighbours of the cell that it closes.
use web_rts_nomads.Base.{
  ℕ, ◌≡◌, ◌⊎◌, inl, inr, true, false, Option, some, List, [], ◌∷◌, Bool-cases, subst, sym, ◌∙◌, All,
}
use web_rts_nomads.Base.Float.{Float64}
use web_rts_nomads.Pathing.{GridPoint, CellSet, eqb_point, has}
use web_rts_nomads.Pathing.Nearest.{next_to}
use web_rts_nomads.Pathing.Nearest.Shape.{InGrid, eqb_point→eq}
use web_rts_nomads.Pathing.Heap.{PathNode}
use web_rts_nomads.Pathing.AStar.{
  PointMap, at_point, eight, is_diagonal, passable, base_cost, step_cost, Search,
}
use web_rts_nomads.Pathing.AStar.Order.{Ordered, at_point-cons_self, at_point-cons_other, Chain}

module _ (F : Float64) (hypot : F.Float → F.Float → F.Float) (abs : F.Float → F.Float)
    (sqrt2 : F.Float) (laws : Ordered F sqrt2) (cols rows : ℕ) (blocked soft_blocked : CellSet)
    (budget : Option ℕ) (start goal : GridPoint) where
  open laws use {IsScore, IsCost, adds, grows, transitive, total}

  abbrev pub State : Type 0
  State = Search F hypot abs sqrt2

  pub record Scored (m : PointMap F.Float) (p : GridPoint) : Type 0 where
    pub score : F.Float
    pub is_at : at_point p m ≡ some score

  -- Some open node is at the cell.
  abbrev pub Waits : GridPoint → List (PathNode F) → Type 0
  Waits p pq = ¬ All (λ node. eqb_point p node.at ≡ false) pq

  pub record Inv (Open : GridPoint → Type 0) (s : State) : Type 0 where
    pub source : Scored s.g_score start
    pub chains : (p : GridPoint) → Scored s.g_score p → Chain cols rows blocked start s.came_from p
    pub order :
        (p q : GridPoint) (g : F.Float)
        → at_point p s.came_from ≡ some q
        → at_point p s.g_score ≡ some g
        → (h : F.Float) × (at_point q s.g_score ≡ some h) × (F.at_most h g ≡ true)
    pub scores : (p : GridPoint) (g : F.Float) → at_point p s.g_score ≡ some g → IsScore g
    pub open_scored : All (λ node. Scored s.g_score node.at) s.open_cells
    pub waiting :
        (p : GridPoint) → Scored s.g_score p → (has p s.closed ≡ true) ⊎ Waits p s.open_cells
    pub expanded :
        (p : GridPoint)
        → has p s.closed ≡ true
        → Open p
          ⊎ ((d : GridPoint)
              → has d eight ≡ true
              → passable cols rows blocked p d ≡ true
              → Scored s.g_score (next_to p d))
    pub goal_open : has goal s.closed ≡ false
    pub inside : (p : GridPoint) → Scored s.g_score p → InGrid cols rows p

  IsCost-base : (d : GridPoint) → IsCost (base_cost F hypot abs sqrt2 d)
  IsCost-base d = elim (Bool-cases (is_diagonal d)) [
    | inl diag ↦ rw diag laws.diagonal
    | inr straight ↦ rw straight laws.straight
  ]

  pub IsCost-step :
      (p d : GridPoint)
      → IsCost (step_cost F hypot abs sqrt2 cols rows blocked soft_blocked budget goal p d)
  IsCost-step p d =
      let base = IsCost-base d in
      elim (Bool-cases (has (next_to p d) soft_blocked)) [
        | inl soft ↦ rw soft (laws.penalized _ base)
        | inr free ↦ rw free base
      ]

  pub Scored-cons :
      (m : PointMap F.Float) (n p : GridPoint) (v : F.Float) → Scored m p → Scored ((n, v) ∷ m) p
  Scored-cons m n p v h = elim (Bool-cases (eqb_point p n)) [
    | inl same ↦ record {
      score = v;
      is_at =
          subst (λ q. at_point q ((n, v) ∷ m) ≡ some v) (sym (eqb_point→eq p n same))
            (at_point-cons_self n v m);
    }
    | inr other ↦ record { score = h.score; is_at = at_point-cons_other p n v m other ∙ h.is_at }
  ]

  pub Scored-uncons :
      (m : PointMap F.Float) (n p : GridPoint) (v : F.Float)
      → Scored ((n, v) ∷ m) p
      → (p ≡ n) ⊎ Scored m p
  Scored-uncons m n p v h = elim (Bool-cases (eqb_point p n)) [
    | inl same ↦ inl (eqb_point→eq p n same)
    | inr other ↦
        inr (record { score = h.score; is_at = sym (at_point-cons_other p n v m other) ∙ h.is_at })
  ]

  pub All-Scored :
      (m : PointMap F.Float) (n : GridPoint) (v : F.Float) (pq : List (PathNode F))
      → All (λ node. Scored m node.at) pq
      → All (λ node. Scored ((n, v) ∷ m) node.at) pq
  All-Scored m n v [] h = h
  All-Scored m n v (x ∷ xs) h = (Scored-cons m n x.at v h.0, All-Scored m n v xs h.1)

  pub at_most_refl : (g : F.Float) → IsScore g → F.at_most g g ≡ true
  at_most_refl g i = elim (Bool-cases (F.at_most g g)) [ inl e ↦ e | inr e ↦ total g g i i e ]
