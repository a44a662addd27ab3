-- ===== src/Pathing/AStar/Rounds.antt =====
-- The rounds of the outer loop: it ends, and how.
use web_rts_nomads.Base.{
  ℕ, zero, suc, ◌≤◌, ◌≡◌, refl, inl, inr, true, false, Option, none, some, List, [], ◌∷◌, arith,
  Bool-cases, Option-cases, List-cases, subst, sym, ap, ◌∙◌,
}
use web_rts_nomads.Base.Float.{Float64}
use web_rts_nomads.Pathing.{GridPoint, CellSet, eqb_point, has}
use web_rts_nomads.Pathing.Nearest.Shape.{eqb_point→eq}
use web_rts_nomads.Pathing.Heap.{PathNode, heap_pop}
use web_rts_nomads.Pathing.Heap.Laws.{heap_pop-total}
use web_rts_nomads.Pathing.AStar.{
  PointMap, eight, relax_all, over_budget, close_cell, Outcome, arrives, exhausted, budget_hit,
  out_of_fuel, run,
}
use web_rts_nomads.Pathing.AStar.Bound.{
  Counted, Exhausts, Counted-close, Chain-Walk, relax_all-expansions, over_budget-most,
}
use web_rts_nomads.Pathing.AStar.Order.{Ordered, Walk, Chain}
use web_rts_nomads.Pathing.AStar.Relax.{State, Scored, Waits, Inv}
use web_rts_nomads.Pathing.AStar.Closing.{
  NothingOpen, closed-expand, work, no-Walk, at_hand, size, Inv-skip, Inv-expand, work-expand,
}

module _ (F : Float64) (hypot : F.Float → F.Float → F.Float) (abs : F.Float → F.Float)
    (sqrt2 : F.Float) (laws : Ordered F sqrt2) (cols rows : ℕ) (blocked soft_blocked : CellSet)
    (budget : Option ℕ) (start goal : GridPoint) where
  abbrev Here : Type 0
  Here = State F hypot abs sqrt2 laws cols rows blocked soft_blocked budget start goal

  abbrev relax_here : List GridPoint → GridPoint → Here → Here
  relax_here = relax_all F hypot abs sqrt2 cols rows blocked soft_blocked budget goal

  abbrev ScoredAt : PointMap F.Float → GridPoint → Type 0
  ScoredAt = Scored F hypot abs sqrt2 laws cols rows blocked soft_blocked budget start goal

  abbrev WaitsAt : GridPoint → List (PathNode F) → Type 0
  WaitsAt = Waits F hypot abs sqrt2 laws cols rows blocked soft_blocked budget start goal

  abbrev Keeps : (GridPoint → Type 0) → Here → Type 0
  Keeps = Inv F hypot abs sqrt2 laws cols rows blocked soft_blocked budget start goal

  abbrev Nothing : GridPoint → Type 0
  Nothing = NothingOpen F hypot abs sqrt2 laws cols rows blocked soft_blocked budget start goal

  abbrev work_left : Here → ℕ
  work_left = work F hypot abs sqrt2 laws cols rows blocked soft_blocked budget start goal

  -- How a search ends: at the goal, with predecessors that lead back to the start; or with Nothing
  -- left to look at, and then no walk leads to the goal; or at the bound, when that many cells are closed.
  abbrev pub Ended : Outcome F hypot abs sqrt2 cols rows blocked soft_blocked budget goal → Type 0
  Ended (arrives s) = Chain cols rows blocked start s.came_from goal
  Ended exhausted = ¬ Walk cols rows blocked start goal
  Ended budget_hit = (most : ℕ) × (budget ≡ some most) × Exhausts cols rows blocked start goal most
  Ended out_of_fuel = ⊥

  abbrev run_here : ℕ → Here → Outcome F hypot abs sqrt2 cols rows blocked soft_blocked budget goal
  run_here = run F hypot abs sqrt2 cols rows blocked soft_blocked budget goal

  run-empty : (fuel : ℕ) (s : Here) → heap_pop F s.open_cells ≡ none → run_here fuel s ≡ exhausted
  unfolding run
  run-empty zero s e = rw (run, e) refl
  run-empty (suc fuel) s e = rw (run, e) refl

  abbrev CountedAt : Here → Type 0
  CountedAt s = Counted cols rows blocked start s.closed s.expansions

  module _ (fuel : ℕ) (s : Here) (node : PathNode F) (rest : List (PathNode F))
      (popped : heap_pop F s.open_cells ≡ some (node, rest)) where
    abbrev taken : Here
    taken = record s { open_cells = rest }

    abbrev closing_now : Here
    closing_now =
        close_cell F hypot abs sqrt2 cols rows blocked soft_blocked budget goal node.at taken

    run-skip : has node.at s.closed ≡ true → run_here (suc fuel) s ≡ run_here fuel taken
    unfolding run
    run-skip e = rw (run, popped, e) refl

    run-arrives :
        has node.at s.closed ≡ false
        → eqb_point node.at goal ≡ true
        → run_here (suc fuel) s ≡ arrives taken
    unfolding run
    run-arrives e f = rw (run, popped, e, f) refl

    run-hit :
        has node.at s.closed ≡ false
        → eqb_point node.at goal ≡ false
        → over_budget F hypot abs sqrt2 cols rows blocked soft_blocked budget goal
            (suc s.expansions)
          ≡ true
        → run_here (suc fuel) s ≡ budget_hit
    unfolding run
    run-hit e f g = rw (run, popped, e, f, g) refl

    run-go :
        has node.at s.closed ≡ false
        → eqb_point node.at goal ≡ false
        → over_budget F hypot abs sqrt2 cols rows blocked soft_blocked budget goal
            (suc s.expansions)
          ≡ false
        → run_here (suc fuel) s ≡ run_here fuel (relax_here eight node.at closing_now)
    unfolding run
    run-go e f g = rw (run, popped, e, f, g) refl

  empty_queue : (s : Here) → heap_pop F s.open_cells ≡ none → s.open_cells ≡ []
  empty_queue s e = elim (List-cases s.open_cells) [
    | inl empty ↦ empty
    | inr (x, xs, l) ↦
        let (node, rest, popped) = heap_pop-total F (λ _. Unit) x xs in
        let no_node : Option (PathNode F × List (PathNode F)) = none in
        let both : no_node ≡ some (node, rest) = sym e ∙ (ap (heap_pop F) l ∙ popped) in cc
  ]

  -- The cell at hand is one more that can be walked to.
  Counted-closing :
      (s : Here) (node : PathNode F) (rest : List (PathNode F))
      → Keeps Nothing s
      → CountedAt s
      → heap_pop F s.open_cells ≡ some (node, rest)
      → has node.at s.closed ≡ false
      → Counted cols rows blocked start (node.at ∷ s.closed) (suc s.expansions)
  Counted-closing s node rest inv counted popped fresh =
      Counted-close cols rows blocked start node.at s.closed s.expansions fresh
        (Chain-Walk cols rows blocked start node.at (
          inv.chains node.at (
            at_hand F hypot abs sqrt2 laws cols rows blocked soft_blocked budget start goal s inv
              node rest popped)))
        counted

  hit-Exhausts :
      (s : Here) (node : PathNode F) (rest : List (PathNode F))
      → Keeps Nothing s
      → CountedAt s
      → heap_pop F s.open_cells ≡ some (node, rest)
      → has node.at s.closed ≡ false
      → eqb_point node.at goal ≡ false
      → over_budget F hypot abs sqrt2 cols rows blocked soft_blocked budget goal (suc s.expansions)
        ≡ true
      → Ended budget_hit
  unfolding has
  hit-Exhausts s node rest inv counted popped fresh away over =
      let closing = Counted-closing s node rest inv counted popped fresh in
      let (most, bound, le) =
        over_budget-most F hypot abs sqrt2 cols rows blocked soft_blocked budget goal
          (suc s.expansions) over in
      (
        most,
        bound,
        record {
          visited = node.at ∷ s.closed;
          distinct = closing.distinct;
          walked = closing.walked;
          not_goal = ground (arith, away, inv.goal_open);
          enough = omega (arith, le, closing.count);
        },
      )

  Counted-expand :
      (s : Here) (node : PathNode F) (rest : List (PathNode F)) (inv : Keeps Nothing s)
      (popped : heap_pop F s.open_cells ≡ some (node, rest))
      → CountedAt s
      → has node.at s.closed ≡ false
      → eqb_point node.at goal ≡ false
      → CountedAt (relax_here eight node.at (closing_now 0 s node rest popped))
  Counted-expand s node rest inv popped counted fresh away =
      let closed =
        closed-expand F hypot abs sqrt2 laws cols rows blocked soft_blocked budget start goal s inv
          node rest popped away in
      let number =
        relax_all-expansions F hypot abs sqrt2 cols rows blocked soft_blocked budget goal eight
          node.at (closing_now 0 s node rest popped) in
      subst
        (λ c.
          Counted cols rows blocked start c
            (relax_here eight node.at (closing_now 0 s node rest popped)).expansions)
        (sym closed)
        (subst (Counted cols rows blocked start (node.at ∷ s.closed)) (sym number)
          (Counted-closing s node rest inv counted popped fresh))

  run_round :
      (fuel : ℕ) (s : Here) (node : PathNode F) (rest : List (PathNode F))
      → ((t : Here) → Keeps Nothing t → CountedAt t → work_left t ≤ fuel → Ended (run_here fuel t))
      → Keeps Nothing s
      → CountedAt s
      → work_left s ≤ suc fuel
      → heap_pop F s.open_cells ≡ some (node, rest)
      → Ended (run_here (suc fuel) s)
  run_round fuel s node rest later inv counted le popped =
      elim (Bool-cases (has node.at s.closed)) [
        | inl old ↦ subst Ended (sym (run-skip fuel s node rest popped old)) (
            later _
              (Inv-skip F hypot abs sqrt2 laws cols rows blocked soft_blocked budget start goal s
                inv node rest popped old)
              counted
              (omega (
                arith,
                size F hypot abs sqrt2 laws cols rows blocked soft_blocked budget start goal s inv
                    node rest popped,
                le,
              )))
        | inr fresh ↦ elim (Bool-cases (eqb_point node.at goal)) [
          | inl here ↦ subst Ended (sym (run-arrives fuel s node rest popped fresh here)) (
              subst (Chain cols rows blocked start s.came_from) (eqb_point→eq node.at goal here) (
                inv.chains node.at (
                  at_hand F hypot abs sqrt2 laws cols rows blocked soft_blocked budget start goal s
                    inv node rest popped)))
          | inr away ↦
              elim (Bool-cases (
                over_budget F hypot abs sqrt2 cols rows blocked soft_blocked budget goal
                  (suc s.expansions))) [
                    | inl over ↦
                        subst Ended (sym (run-hit fuel s node rest popped fresh away over))
                          (hit-Exhausts s node rest inv counted popped fresh away over)
                    | inr within ↦
                        subst Ended (sym (run-go fuel s node rest popped fresh away within)) (
                          later _
                            (Inv-expand F hypot abs sqrt2 laws cols rows blocked soft_blocked budget
                              start goal s inv node rest popped away)
                            (Counted-expand s node rest inv popped counted fresh away)
                            (omega (
                              arith,
                              work-expand F hypot abs sqrt2 laws cols rows blocked soft_blocked
                                  budget start goal s inv node rest popped fresh away,
                              le,
                            )))
                  ]
        ]
      ]

  pub run-Ended :
      (fuel : ℕ) (s : Here)
      → Keeps Nothing s
      → CountedAt s
      → work_left s ≤ fuel
      → Ended (run_here fuel s)
  run-Ended zero s inv counted le = elim (Option-cases (heap_pop F s.open_cells)) [
    | inl empty ↦ subst Ended (sym (run-empty zero s empty)) (
        no-Walk F hypot abs sqrt2 laws cols rows blocked soft_blocked budget start goal s inv
          (empty_queue s empty))
    | inr ((node, rest), popped) ↦ absurd (
        omega (
          arith,
          size F hypot abs sqrt2 laws cols rows blocked soft_blocked budget start goal s inv node
              rest popped,
          le,
        ))
  ]
  run-Ended (suc fuel) s inv counted le = elim (Option-cases (heap_pop F s.open_cells)) [
    | inl empty ↦ subst Ended (sym (run-empty (suc fuel) s empty)) (
        no-Walk F hypot abs sqrt2 laws cols rows blocked soft_blocked budget start goal s inv
          (empty_queue s empty))
    | inr ((node, rest), popped) ↦ run_round fuel s node rest (run-Ended fuel) inv counted le popped
  ]
