-- ===== src/Pathing/AStar/Routes.antt =====
-- What the two searches return.
use web_rts_nomads.Base.{
  ℕ, ◌+◌, ◌*◌, ◌≤◌, ◌<◌, ◌≡◌, refl, ◌⊎◌, inl, inr, true, false, Option, none, some, List, [], ◌∷◌,
  map, arith, Bool-cases, subst, sym, ◌∙◌, some-inj,
}
use web_rts_nomads.Base.Int.{pos}
use web_rts_nomads.Base.Float.{Float64}
use web_rts_nomads.Pathing.{GridPoint, CellSet, eqb_point, has, clamp_grid_point}
use web_rts_nomads.Pathing.Nearest.Shape.{InGrid, eqb_point→eq, eqb_point_refl}
use web_rts_nomads.Pathing.Nearest.Cells.{cells, unseen-le}
use web_rts_nomads.Pathing.Nearest.Correct.{clamp-InGrid}
use web_rts_nomads.Pathing.Heap.Laws.{length-heap_push, All-heap_push, All-of_heap_push}
use web_rts_nomads.Pathing.AStar.{
  PointMap, at_point, begin, arrives, Outcome, route_of, exhausted, budget_hit, out_of_fuel,
  enough_rounds, Route, path, no_path, out_of_rounds, reconstruct_path, search_path, find_path,
  find_unit_path, unit_path_expansion_factor, grid_to_world_center,
}
use web_rts_nomads.Pathing.AStar.Order.{
  Ordered, at_point-cons_self, at_point-cons_other, Walk, IsRoute, ends, Chain, root,
  points_back-IsRoute,
}
use web_rts_nomads.Pathing.AStar.Bound.{Counted, Exhausts}
use web_rts_nomads.Pathing.AStar.Relax.{State, Scored, Inv}
use web_rts_nomads.Pathing.AStar.Closing.{NothingOpen, work}
use web_rts_nomads.Pathing.AStar.Rounds.{Ended, run-Ended}

module _ (F : Float64) (hypot : F.Float → F.Float → F.Float) (abs : F.Float → F.Float)
    (sqrt2 : F.Float) (laws : Ordered F sqrt2) (cols rows : ℕ) (blocked soft_blocked : CellSet)
    (budget : Option ℕ) (start goal : GridPoint) where
  only_start :
      (p : GridPoint) (g : F.Float)
      → at_point p ((start, F.of_int (pos 0)) ∷ []) ≡ some g
      → (p ≡ start) × (F.of_int (pos 0) ≡ g)
  unfolding at_point
  only_start p g e = elim (Bool-cases (eqb_point p start)) [
    | inl same ↦ (
      eqb_point→eq p start same,
      some-inj (
          sym (
            subst (λ q. at_point q ((start, F.of_int (pos 0)) ∷ []) ≡ some (F.of_int (pos 0)))
              (sym (eqb_point→eq p start same)) (at_point-cons_self start (F.of_int (pos 0)) []))
          ∙ e),
    )
    | inr other ↦
        let none_ : none ≡ some g =
          sym (at_point-cons_other p start (F.of_int (pos 0)) [] other) ∙ e in
        cc
  ]

  abbrev first : (State F hypot abs sqrt2 laws cols rows blocked soft_blocked budget start goal)
  first = begin F hypot abs sqrt2 cols rows blocked soft_blocked budget goal start

  start-Scored :
      (Scored F hypot abs sqrt2 laws cols rows blocked soft_blocked budget start goal) first.g_score
        start
  start-Scored = record {
    score = F.of_int (pos 0);
    is_at = at_point-cons_self start (F.of_int (pos 0)) [];
  }

  Inv-begin :
      InGrid cols rows start
      → eqb_point start goal ≡ false
      → (Inv F hypot abs sqrt2 laws cols rows blocked soft_blocked budget start goal)
          (NothingOpen F hypot abs sqrt2 laws cols rows blocked soft_blocked budget start goal)
          first
  unfolding at_point has
  Inv-begin inside apart = record {
    source = start-Scored;
    chains = λ p h.
        subst (Chain cols rows blocked start []) (sym (only_start p h.score h.is_at).0) (root refl);
    order = λ p q g e f. cc;
    scores = λ p g e. subst laws.IsScore (only_start p g e).1 laws.zero_score;
    open_scored =
        All-heap_push F
          (λ node.
            (Scored F hypot abs sqrt2 laws cols rows blocked soft_blocked budget start goal)
              first.g_score node.at)
          _ [] tt start-Scored;
    waiting = λ p h. inr (λ all.
        let away = (All-of_heap_push F (λ node. eqb_point p node.at ≡ false) _ [] all).1.0 in
        let here =
          subst (λ q. eqb_point p q ≡ true) (only_start p h.score h.is_at).0 (eqb_point_refl p) in
        let both : true ≡ false = sym here ∙ away in cc);
    expanded = λ p c. cc;
    goal_open = refl;
    inside = λ p h. subst (InGrid cols rows) (sym (only_start p h.score h.is_at).0) inside;
  }

  work-begin :
      work F hypot abs sqrt2 laws cols rows blocked soft_blocked budget start goal first
      ≤ enough_rounds F hypot abs sqrt2 cols rows
  work-begin = omega (arith, unseen-le [] cols rows, length-heap_push F (λ _. Unit) _ [])

  nothing_closed : Counted cols rows blocked start first.closed first.expansions
  nothing_closed = record { distinct = tt; walked = tt; count = refl }

  -- What a search promises of its result.
  abbrev pub IsAnswer : F.Float → Route F hypot abs sqrt2 → Type 0
  IsAnswer cell_size (path points) =
      (cells : List GridPoint) × IsRoute cols rows blocked goal start cells
      × (points ≡ map (grid_to_world_center F hypot abs sqrt2 cell_size) cells)
  IsAnswer cell_size no_path =
      (¬ Walk cols rows blocked start goal)
      ⊎ ((most : ℕ) × (budget ≡ some most) × Exhausts cols rows blocked start goal most)
  IsAnswer cell_size out_of_rounds = ⊥

  abbrev Settles : F.Float → (ℕ → Route F hypot abs sqrt2) → Type 0
  Settles cell_size r = (n : ℕ) × ((fuel : ℕ) → n ≤ fuel → IsAnswer cell_size (r fuel))

  reconstruct-Settles :
      (cell_size : F.Float) (came : PointMap GridPoint)
      → Chain cols rows blocked start came goal
      → Settles cell_size (λ fuel. reconstruct_path F hypot abs sqrt2 fuel cell_size came goal)
  unfolding reconstruct_path
  reconstruct-Settles cell_size came chain =
      let (n, cells, route, back) =
        points_back-IsRoute cols rows blocked start goal came goal [] chain ends in
      (n, λ fuel le. rw (reconstruct_path, back fuel le) (cells, route, refl))

  route_of-Settles :
      (cell_size : F.Float)
      (o : Outcome F hypot abs sqrt2 cols rows blocked soft_blocked budget goal)
      → Ended F hypot abs sqrt2 laws cols rows blocked soft_blocked budget start goal o
      → Settles cell_size (λ fuel. route_of F hypot abs sqrt2 fuel cell_size o)
  unfolding route_of
  route_of-Settles cell_size (arrives s) chain = reconstruct-Settles cell_size s.came_from chain
  route_of-Settles cell_size exhausted unreachable = (0, λ fuel le. inl unreachable)
  route_of-Settles cell_size budget_hit bounded = (0, λ fuel le. inr bounded)
  route_of-Settles cell_size out_of_fuel e = absurd e

  pub search_path-Settles :
      (cell_size : F.Float)
      → InGrid cols rows start
      → Settles cell_size (λ fuel.
        search_path F hypot abs sqrt2 fuel cols rows cell_size blocked soft_blocked budget start
          goal)
  unfolding search_path
  search_path-Settles cell_size inside = elim (Bool-cases (eqb_point start goal)) [
    | inl same ↦
        let e = eqb_point→eq start goal same in
        (
          0,
          λ fuel le.
              rw (search_path, same)
                (
                  goal ∷ [],
                  subst (λ p. IsRoute cols rows blocked goal p (goal ∷ [])) (sym e) ends,
                  refl,
                ),
        )
    | inr apart ↦
        let ended =
          run-Ended F hypot abs sqrt2 laws cols rows blocked soft_blocked budget start goal
            (enough_rounds F hypot abs sqrt2 cols rows) first (Inv-begin inside apart)
            nothing_closed work-begin in
        let (n, settles) = route_of-Settles cell_size _ ended in
        (n, λ fuel le. rw (search_path, apart) (settles fuel le))
  ]

-- On a map with cells, with float scores that are ordered and never fall when a step's cost is
-- added: from some number of rounds for the walk back on, the coarse search returns a path whose
-- cells lead from the clamped start to the clamped goal by steps to walkable neighbours that cut no
-- corner, or says that there is none, and then no such walk exists.
pub find_path-Settles :
    (F : Float64) (hypot : F.Float → F.Float → F.Float) (abs : F.Float → F.Float) (sqrt2 : F.Float)
    (laws : Ordered F sqrt2) (cols rows : ℕ) (cell_size : F.Float) (start goal : GridPoint)
    (blocked soft_blocked : CellSet)
    → 0 < cols
    → 0 < rows
    → (n : ℕ) × ((extra : ℕ)
        → IsAnswer F hypot abs sqrt2 laws cols rows blocked soft_blocked none
            (clamp_grid_point cols rows start)
            (clamp_grid_point cols rows goal)
            cell_size
            (find_path F hypot abs sqrt2
              (n + extra)
              cols
              rows
              cell_size
              start
              goal
              blocked
              soft_blocked))
unfolding find_path
find_path-Settles F hypot abs sqrt2 laws cols rows cell_size start goal blocked soft_blocked hc hr =
    let (n, settles) =
      search_path-Settles F hypot abs sqrt2 laws cols rows blocked soft_blocked none
        (clamp_grid_point cols rows start) (clamp_grid_point cols rows goal) cell_size
        (clamp-InGrid cols rows start hc hr) in
    (n, λ extra. settles (n + extra) (omega arith))

-- From a start on the finer grid, with float scores as above: from some number of rounds for the
-- walk back on, the bounded search returns a path whose cells lead from the start to the goal by
-- steps to walkable neighbours that cut no corner; or no path, and then no such walk exists, or at
-- least as many distinct cells other than the goal as the bound allows can be walked to from the
-- start.
pub find_unit_path-Settles :
    (F : Float64) (hypot : F.Float → F.Float → F.Float) (abs : F.Float → F.Float) (sqrt2 : F.Float)
    (laws : Ordered F sqrt2) (cols rows : ℕ) (cell_size : F.Float) (start goal : GridPoint)
    (blocked : CellSet)
    → InGrid cols rows start
    → (n : ℕ) × ((extra : ℕ)
        → IsAnswer F hypot abs sqrt2 laws cols rows blocked []
            (some (unit_path_expansion_factor F hypot abs sqrt2 * (cols + rows)))
            start
            goal
            cell_size
            (find_unit_path F hypot abs sqrt2 (n + extra) cols rows cell_size start goal blocked))
unfolding find_unit_path
find_unit_path-Settles F hypot abs sqrt2 laws cols rows cell_size start goal blocked inside =
    let (n, settles) =
      search_path-Settles F hypot abs sqrt2 laws cols rows blocked []
        (some (unit_path_expansion_factor F hypot abs sqrt2 * (cols + rows))) start goal cell_size
        inside in
    (n, λ extra. settles (n + extra) (omega arith))
