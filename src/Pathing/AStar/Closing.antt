-- ===== src/Pathing/AStar/Closing.antt =====
-- Taking a cell from the queue: it is closed already, or is closed now with its neighbours looked at.
use web_rts_nomads.Base.{
  ℕ, suc, ◌+◌, ◌*◌, ◌<◌, ◌≡◌, ◌⊎◌, inl, inr, true, false, Option, some, List, [], ◌∷◌, arith,
  Bool-cases, subst, sym, ap, All, length,
}
use web_rts_nomads.Base.Float.{Float64}
use web_rts_nomads.Pathing.{GridPoint, CellSet, eqb_point, has}
use web_rts_nomads.Pathing.Nearest.{next_to}
use web_rts_nomads.Pathing.Nearest.Shape.{eqb_point→eq, has-cons, has-head, has-tail}
use web_rts_nomads.Pathing.Nearest.Cells.{cells, unseen, unseen-cons, has-cells}
use web_rts_nomads.Pathing.Heap.{PathNode, heap_pop}
use web_rts_nomads.Pathing.Heap.Laws.{heap_pop-Popped}
use web_rts_nomads.Pathing.AStar.{PointMap, eight, passable, relax_all, close_cell}
use web_rts_nomads.Pathing.AStar.Order.{Ordered, Walk, rests, steps, passable-of_LegalStep}
use web_rts_nomads.Pathing.AStar.Relax.{State, Scored, Waits, Inv}
use web_rts_nomads.Pathing.AStar.Directions.{relax_all-RelaxedAll}

module _ (F : Float64) (hypot : F.Float → F.Float → F.Float) (abs : F.Float → F.Float)
    (sqrt2 : F.Float) (laws : Ordered F sqrt2) (cols rows : ℕ) (blocked soft_blocked : CellSet)
    (budget : Option ℕ) (start goal : GridPoint) where
  abbrev Here : Type 0
  Here = State F hypot abs sqrt2 laws cols rows blocked soft_blocked budget start goal

  abbrev relax_here : List GridPoint → GridPoint → Here → Here
  relax_here = relax_all F hypot abs sqrt2 cols rows blocked soft_blocked budget goal

  abbrev ScoredAt : PointMap F.Float → GridPoint → Type 0
  ScoredAt = Scored F hypot abs sqrt2 laws cols rows blocked soft_blocked budget start goal

  abbrev WaitsAt : GridPoint → List (PathNode F) → Type 0
  WaitsAt = Waits F hypot abs sqrt2 laws cols rows blocked soft_blocked budget start goal

  abbrev Keeps : (GridPoint → Type 0) → Here → Type 0
  Keeps = Inv F hypot abs sqrt2 laws cols rows blocked soft_blocked budget start goal

  abbrev pub NothingOpen : GridPoint → Type 0
  NothingOpen _ = ⊥

  abbrev Only : GridPoint → GridPoint → Type 0
  Only current p = p ≡ current

  abbrev pub work : Here → ℕ
  work s = 9 * unseen s.closed (cells cols rows) + length s.open_cells

  -- With a queue that is empty, everything that is in reach has been closed.
  closed_when_empty :
      (s : Here) (p : GridPoint)
      → Keeps NothingOpen s
      → s.open_cells ≡ []
      → ScoredAt s.g_score p
      → has p s.closed ≡ true
  closed_when_empty s p inv e h = elim (inv.waiting p h) [
    | inl done ↦ done
    | inr waits ↦ absurd (waits (subst (All (λ node. eqb_point p node.at ≡ false)) (sym e) tt))
  ]

  Scored-walk :
      (s : Here) (p : GridPoint)
      → Keeps NothingOpen s
      → s.open_cells ≡ []
      → Walk cols rows blocked start p
      → ScoredAt s.g_score p
  Scored-walk s p inv e rests = inv.source
  Scored-walk s p inv e (steps {p = q} before step) =
      elim (inv.expanded q (closed_when_empty s q inv e (Scored-walk s q inv e before))) [
        | inl none_ ↦ absurd none_
        | inr done ↦
            subst (λ r. ScoredAt s.g_score r) step.leads
              (done step.direction step.is_direction
                (passable-of_LegalStep cols rows blocked q p step))
      ]

  pub no-Walk :
      (s : Here) → Keeps NothingOpen s → s.open_cells ≡ [] → ¬ Walk cols rows blocked start goal
  no-Walk s inv e walk =
      let closed = closed_when_empty s goal inv e (Scored-walk s goal inv e walk) in
      let open_ = inv.goal_open in cc

  module _ (s : Here) (inv : Keeps NothingOpen s) (node : PathNode F) (rest : List (PathNode F))
      (popped : heap_pop F s.open_cells ≡ some (node, rest)) where
    pub at_hand : ScoredAt s.g_score node.at
    at_hand =
        ((heap_pop-Popped F (λ n. ScoredAt s.g_score n.at) s.open_cells node rest popped).parts
          inv.open_scored).0

    rest_scored : All (λ n. ScoredAt s.g_score n.at) rest
    rest_scored =
        ((heap_pop-Popped F (λ n. ScoredAt s.g_score n.at) s.open_cells node rest popped).parts
          inv.open_scored).1

    pub size : suc (length rest) ≡ length s.open_cells
    size = (heap_pop-Popped F (λ _. Unit) s.open_cells node rest popped).fewer

    -- A cell is closed, at hand or waiting still.
    still_waits :
        (p : GridPoint) (closed : CellSet)
        → has node.at closed ≡ true
        → ((q : GridPoint) → has q s.closed ≡ true → has q closed ≡ true)
        → ScoredAt s.g_score p
        → (has p closed ≡ true) ⊎ WaitsAt p rest
    still_waits p closed here more h = elim (Bool-cases (eqb_point p node.at)) [
      | inl same ↦ inl (subst (λ q. has q closed ≡ true) (sym (eqb_point→eq p node.at same)) here)
      | inr other ↦ elim (inv.waiting p h) [
        | inl done ↦ inl (more p done)
        | inr waits ↦ inr (λ all. waits (
            (heap_pop-Popped F (λ n. eqb_point p n.at ≡ false) s.open_cells node rest popped).whole
              other all))
      ]
    ]

    pub Inv-skip : has node.at s.closed ≡ true → Keeps NothingOpen (record s { open_cells = rest })
    Inv-skip here = record {
      source = inv.source;
      chains = inv.chains;
      order = inv.order;
      scores = inv.scores;
      open_scored = rest_scored;
      waiting = λ p h. still_waits p s.closed here (λ q k. k) h;
      expanded = inv.expanded;
      goal_open = inv.goal_open;
      inside = inv.inside;
    }

    abbrev closing : Here
    closing =
        close_cell F hypot abs sqrt2 cols rows blocked soft_blocked budget goal node.at
          (record s { open_cells = rest })

    Inv-close : eqb_point node.at goal ≡ false → Keeps (Only node.at) closing
    unfolding has
    Inv-close away = record {
      source = inv.source;
      chains = inv.chains;
      order = inv.order;
      scores = inv.scores;
      open_scored = rest_scored;
      waiting = λ p h.
          still_waits p closing.closed (has-head node.at s.closed)
            (λ q k. has-tail q node.at s.closed k) h;
      expanded = λ p c. elim (has-cons p node.at s.closed c) [
        | inl same ↦ inl same
        | inr old ↦ elim (inv.expanded p old) [ inl none_ ↦ absurd none_ | inr done ↦ inr done ]
      ];
      goal_open = ground (arith, inv.goal_open);
      inside = inv.inside;
    }

    pub Inv-expand :
        eqb_point node.at goal ≡ false → Keeps NothingOpen (relax_here eight node.at closing)
    Inv-expand away =
        let all =
          relax_all-RelaxedAll F hypot abs sqrt2 laws cols rows blocked soft_blocked budget start
            goal (Only node.at) node.at eight closing (Inv-close away) at_hand (λ d k. k) in
        record {
          source = all.keeps.source;
          chains = all.keeps.chains;
          order = all.keeps.order;
          scores = all.keeps.scores;
          open_scored = all.keeps.open_scored;
          waiting = all.keeps.waiting;
          expanded = λ p c. elim (all.keeps.expanded p c) [
            | inl here ↦ inr (λ d k e.
                let free = subst (λ q. passable cols rows blocked q d ≡ true) here e in
                subst (λ q. ScoredAt (relax_here eight node.at closing).g_score (next_to q d))
                  (sym here) (all.reached d k free))
            | inr done ↦ inr done
          ];
          goal_open = all.keeps.goal_open;
          inside = all.keeps.inside;
        }

    pub closed-expand :
        eqb_point node.at goal ≡ false
        → (relax_here eight node.at closing).closed ≡ node.at ∷ s.closed
    closed-expand away =
        (relax_all-RelaxedAll F hypot abs sqrt2 laws cols rows blocked soft_blocked budget start
          goal (Only node.at) node.at eight closing (Inv-close away) at_hand (λ d k. k)).same_closed

    pub work-expand :
        has node.at s.closed ≡ false
        → eqb_point node.at goal ≡ false
        → work (relax_here eight node.at closing) < work s
    work-expand fresh away =
        let all =
          relax_all-RelaxedAll F hypot abs sqrt2 laws cols rows blocked soft_blocked budget start
            goal (Only node.at) node.at eight closing (Inv-close away) at_hand (λ d k. k) in
        let fewer =
          unseen-cons node.at s.closed (cells cols rows) fresh
            (has-cells cols rows node.at (inv.inside node.at at_hand)) in
        let same = ap (λ c. unseen c (cells cols rows)) all.same_closed in
        omega (arith, all.growth, size, fewer, same)
