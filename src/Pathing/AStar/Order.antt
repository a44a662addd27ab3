-- ===== src/Pathing/AStar/Order.antt =====
-- Steps, routes and the chains of predecessors that a search keeps.
use web_rts_nomads.Base.{
  ℕ, zero, suc, ◌≤◌, ◌≡◌, refl, inl, inr, true, false, none, some, List, [], ◌∷◌, arith, Bool-cases,
  subst, sym, ◌∙◌,
}
use web_rts_nomads.Base.Int.{pos}
use web_rts_nomads.Base.Float.{Float64}
use web_rts_nomads.Pathing.{GridPoint, CellSet, eqb_point, has, is_walkable}
use web_rts_nomads.Pathing.Nearest.{next_to}
use web_rts_nomads.Pathing.Nearest.Shape.{InGrid, eqb_point→eq, eqb_point_refl}
use web_rts_nomads.Pathing.AStar.{
  PointMap, at_point, eight, is_diagonal, side_a, side_b, passable, points_back,
}

-- What the search relies on in Go's floats: the scores are values that `<=` orders, and adding the
-- cost of a step to a score makes it no smaller.
pub record Ordered (F : Float64) (sqrt2 : F.Float) : Type 1 where
  pub IsScore : F.Float → Type 0
  pub IsCost : F.Float → Type 0
  pub zero_score : IsScore (F.of_int (pos 0))
  pub straight : IsCost (F.of_int (pos 1))
  pub diagonal : IsCost sqrt2
  pub penalized : (c : F.Float) → IsCost c → IsCost (F.plus c (F.of_int (pos 2)))
  pub adds : (g c : F.Float) → IsScore g → IsCost c → IsScore (F.plus g c)
  pub grows : (g c : F.Float) → IsScore g → IsCost c → F.at_most g (F.plus g c) ≡ true
  pub transitive :
      (a b c : F.Float)
      → IsScore a
      → IsScore b
      → IsScore c
      → F.at_most a b ≡ true
      → F.at_most b c ≡ true
      → F.at_most a c ≡ true
  pub total : (a b : F.Float) → IsScore a → IsScore b → F.at_most a b ≡ false → F.at_most b a ≡ true

module _ {ℓ} {V : Type ℓ} where
  pub at_point-cons_self :
      (p : GridPoint) (v : V) (m : PointMap V) → at_point p ((p, v) ∷ m) ≡ some v
  unfolding at_point
  at_point-cons_self p v m = rw (at_point, eqb_point_refl p) refl

  pub at_point-cons_other :
      (p q : GridPoint) (v : V) (m : PointMap V)
      → eqb_point p q ≡ false
      → at_point p ((q, v) ∷ m) ≡ at_point p m
  unfolding at_point
  at_point-cons_other p q v m e = rw (at_point, e) refl

module _ (cols rows : ℕ) (blocked : CellSet) where
  -- A step to a walkable neighbour that cuts no corner.
  pub record LegalStep (p q : GridPoint) : Type 0 where
    pub direction : GridPoint
    pub is_direction : has direction eight ≡ true
    pub leads : next_to p direction ≡ q
    pub walkable : is_walkable cols rows blocked q ≡ true
    pub clear :
        is_diagonal direction ≡ true
        → (is_walkable cols rows blocked (side_a p direction) ≡ true)
          × (is_walkable cols rows blocked (side_b p direction) ≡ true)

  pub data Walk (start : GridPoint) : GridPoint → Type 0 where
    rests : Walk start start
    steps : {p q : GridPoint} → Walk start p → LegalStep p q → Walk start q

  pub data IsRoute (goal : GridPoint) : GridPoint → List GridPoint → Type 0 where
    ends : IsRoute goal goal (goal ∷ [])
    goes :
        {p q : GridPoint} {ps : List GridPoint}
        → LegalStep p q
        → IsRoute goal q ps
        → IsRoute goal p (p ∷ ps)

  pub LegalStep-of_passable :
      (p d : GridPoint)
      → has d eight ≡ true
      → passable cols rows blocked p d ≡ true
      → LegalStep p (next_to p d)
  unfolding passable
  LegalStep-of_passable p d h e = record {
    direction = d;
    is_direction = h;
    leads = refl;
    walkable = ground (arith, e);
    clear = λ diag. ground (arith, e, diag);
  }

  pub passable-of_LegalStep :
      (p q : GridPoint) (s : LegalStep p q) → passable cols rows blocked p s.direction ≡ true
  unfolding passable
  passable-of_LegalStep p q s =
      let free = subst (λ r. is_walkable cols rows blocked r ≡ true) (sym s.leads) s.walkable in
      elim (Bool-cases (is_diagonal s.direction)) [
        | inl diag ↦ rw (passable, free, diag, (s.clear diag).0, (s.clear diag).1) refl
        | inr straight ↦ rw (passable, free, straight) refl
      ]

  pub walkable-InGrid :
      (p : GridPoint) → is_walkable cols rows blocked p ≡ true → InGrid cols rows p
  unfolding is_walkable
  walkable-InGrid p e = ground (arith, e)

  -- Predecessors from a cell back to the start.
  pub data Chain (start : GridPoint) (came : PointMap GridPoint) : GridPoint → Type 0 where
    root : at_point start came ≡ none → Chain start came start
    link :
        {p q : GridPoint}
        → at_point p came ≡ some q
        → LegalStep q p
        → Chain start came q
        → Chain start came p

  -- A chain whose cells are none of them written to stays; one that leads to the written cell goes on
  -- from there.
  pub Chain-rebuild :
      (start n c : GridPoint) (came : PointMap GridPoint) (x : GridPoint)
      → Chain start ((n, c) ∷ came) n
      → Chain start came x
      → Chain start ((n, c) ∷ came) x
  Chain-rebuild start n c came x new (root e) = elim (Bool-cases (eqb_point start n)) [
    | inl same ↦ subst (Chain start ((n, c) ∷ came)) (sym (eqb_point→eq start n same)) new
    | inr other ↦ root (at_point-cons_other start n c came other ∙ e)
  ]
  Chain-rebuild start n c came x new (link {q = q} e step rest) =
      elim (Bool-cases (eqb_point x n)) [
        | inl same ↦ subst (Chain start ((n, c) ∷ came)) (sym (eqb_point→eq x n same)) new
        | inr other ↦
            link (at_point-cons_other x n c came other ∙ e) step
              (Chain-rebuild start n c came q new rest)
      ]

  back-root :
      (came : PointMap GridPoint) (x : GridPoint) (points : List GridPoint)
      → at_point x came ≡ none
      → (fuel : ℕ) → 1 ≤ fuel
      → points_back fuel came x points ≡ some (x ∷ points)
  unfolding points_back
  back-root came x points e zero le = absurd (omega arith)
  back-root came x points e (suc fuel) le = rw (points_back, e) refl

  back-link :
      (came : PointMap GridPoint) (x q : GridPoint) (points cells : List GridPoint) (n : ℕ)
      → at_point x came ≡ some q
      → ((fuel : ℕ) → n ≤ fuel → points_back fuel came q (x ∷ points) ≡ some cells)
      → (fuel : ℕ) → suc n ≤ fuel
      → points_back fuel came x points ≡ some cells
  unfolding points_back
  back-link came x q points cells n e later zero le = absurd (omega arith)
  back-link came x q points cells n e later (suc fuel) le =
      rw (points_back, e) (later fuel (omega (arith, le)))

  -- Walking back along a chain gives a route from the start.
  pub points_back-IsRoute :
      (start goal : GridPoint) (came : PointMap GridPoint) (x : GridPoint) (points : List GridPoint)
      → Chain start came x
      → IsRoute goal x (x ∷ points)
      → (n : ℕ) × (cells : List GridPoint) × IsRoute goal start cells
        × ((fuel : ℕ) → n ≤ fuel → points_back fuel came x points ≡ some cells)
  points_back-IsRoute start goal came x points (root e) route =
      (1, start ∷ points, route, back-root came start points e)
  points_back-IsRoute start goal came x points (link {q = q} e step rest) route =
      let (n, cells, whole, back) =
        points_back-IsRoute start goal came q (x ∷ points) rest (goes step route) in
      (suc n, cells, whole, back-link came x q points cells n e back)
