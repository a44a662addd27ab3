-- ===== src/Pathing/AStar/Directions.antt =====
-- The inner loop over the eight directions, as a whole.
use web_rts_nomads.Base.{
  ℕ, suc, ◌+◌, ◌≤◌, ◌≡◌, refl, inl, inr, true, false, Option, List, [], ◌∷◌, arith, Bool-cases,
  Option-cases, subst, sym, ◌∙◌, length,
}
use web_rts_nomads.Base.Float.{Float64}
use web_rts_nomads.Pathing.{GridPoint, CellSet, has}
use web_rts_nomads.Pathing.Nearest.{next_to}
use web_rts_nomads.Pathing.Nearest.Shape.{has-cons, has-head, has-tail}
use web_rts_nomads.Pathing.Heap.Laws.{length-heap_push}
use web_rts_nomads.Pathing.AStar.{
  PointMap, at_point, eight, passable, step_cost, score_of, no_better, relax, relax_all,
}
use web_rts_nomads.Pathing.AStar.Order.{Ordered, at_point-cons_self, LegalStep-of_passable}
use web_rts_nomads.Pathing.AStar.Relax.{State, Scored, Inv, IsCost-step, Scored-cons}
use web_rts_nomads.Pathing.AStar.Better.{Inv-reaches}

module _ (F : Float64) (hypot : F.Float → F.Float → F.Float) (abs : F.Float → F.Float)
    (sqrt2 : F.Float) (laws : Ordered F sqrt2) (cols rows : ℕ) (blocked soft_blocked : CellSet)
    (budget : Option ℕ) (start goal : GridPoint) where
  open laws use {IsScore, IsCost}

  abbrev Here : Type 0
  Here = State F hypot abs sqrt2 laws cols rows blocked soft_blocked budget start goal

  abbrev ScoredAt : PointMap F.Float → GridPoint → Type 0
  ScoredAt = Scored F hypot abs sqrt2 laws cols rows blocked soft_blocked budget start goal

  abbrev Keeps : (GridPoint → Type 0) → Here → Type 0
  Keeps = Inv F hypot abs sqrt2 laws cols rows blocked soft_blocked budget start goal

  abbrev relax_one : GridPoint → GridPoint → Here → Here
  relax_one = relax F hypot abs sqrt2 cols rows blocked soft_blocked budget goal

  abbrev relax_here : List GridPoint → GridPoint → Here → Here
  relax_here = relax_all F hypot abs sqrt2 cols rows blocked soft_blocked budget goal

  -- What one direction does.
  record Relaxed (Open : GridPoint → Type 0) (current d : GridPoint) (s t : Here) : Type 0 where
    keeps : Keeps Open t
    more : (p : GridPoint) → ScoredAt s.g_score p → ScoredAt t.g_score p
    reached : passable cols rows blocked current d ≡ true → ScoredAt t.g_score (next_to current d)
    same_closed : t.closed ≡ s.closed
    one_more : length t.open_cells ≤ suc (length s.open_cells)

  relax-Relaxed :
      (Open : GridPoint → Type 0) (current d : GridPoint) (s : Here)
      → Keeps Open s
      → ScoredAt s.g_score current
      → has d eight ≡ true
      → Relaxed Open current d s (relax_one current d s)
  unfolding relax
  relax-Relaxed Open current d s inv from is_d =
      elim (Bool-cases (passable cols rows blocked current d)) [
        | inr shut ↦
            rw (relax, shut)
              (record {
                keeps = inv;
                more = λ p h. h;
                reached = λ e. cc;
                same_closed = refl;
                one_more = omega arith;
              })
        | inl free ↦
            let next = next_to current d in
            let cost =
              step_cost F hypot abs sqrt2 cols rows blocked soft_blocked budget goal current d in
            let score : score_of F hypot abs sqrt2 current s.g_score ≡ from.score =
              rw (score_of, from.is_at) refl in
            elim (Bool-cases
              (no_better F hypot abs sqrt2 (at_point next s.g_score) (F.plus from.score cost))) [
                | inl worse ↦
                    rw (relax, free, score, worse)
                      (record {
                        keeps = inv;
                        more = λ p h. h;
                        reached = λ _. already next s (F.plus from.score cost) worse;
                        same_closed = refl;
                        one_more = omega arith;
                      })
                | inr better ↦
                    let tentative = F.plus from.score cost in
                    rw (relax, free, score, better)
                      (record {
                        keeps =
                            Inv-reaches F hypot abs sqrt2 laws cols rows blocked soft_blocked budget
                              start goal Open s inv current next from.score from.is_at
                              (LegalStep-of_passable cols rows blocked current d is_d free) cost
                              (IsCost-step F hypot abs sqrt2 laws cols rows blocked soft_blocked
                                budget start goal current d)
                              better;
                        more = λ p h.
                            Scored-cons F hypot abs sqrt2 laws cols rows blocked soft_blocked budget
                              start goal s.g_score next p tentative h;
                        reached = λ _. record {
                          score = tentative;
                          is_at = at_point-cons_self next tentative s.g_score;
                        };
                        same_closed = refl;
                        one_more = omega (arith, length-heap_push F (λ _. Unit) _ s.open_cells);
                      })
              ]
      ]
    where
      already :
          (next : GridPoint) (s : Here) (t : F.Float)
          → no_better F hypot abs sqrt2 (at_point next s.g_score) t ≡ true
          → ScoredAt s.g_score next
      already next s t e = elim (Option-cases (at_point next s.g_score)) [
        | inl none_ ↦
            let no : false ≡ true = subst (λ o. no_better F hypot abs sqrt2 o t ≡ true) none_ e in
            cc
        | inr (g, at_g) ↦ record { score = g; is_at = at_g }
      ]

  -- What the loop over the directions does.
  pub record RelaxedAll (Open : GridPoint → Type 0) (current : GridPoint) (ds : List GridPoint)
      (s t : Here) : Type 0 where
    pub keeps : Keeps Open t
    pub more : (p : GridPoint) → ScoredAt s.g_score p → ScoredAt t.g_score p
    pub reached :
        (d : GridPoint)
        → has d ds ≡ true
        → passable cols rows blocked current d ≡ true
        → ScoredAt t.g_score (next_to current d)
    pub same_closed : t.closed ≡ s.closed
    pub growth : length t.open_cells ≤ length ds + length s.open_cells

  pub relax_all-RelaxedAll :
      (Open : GridPoint → Type 0) (current : GridPoint) (ds : List GridPoint) (s : Here)
      → Keeps Open s
      → ScoredAt s.g_score current
      → ((d : GridPoint) → has d ds ≡ true → has d eight ≡ true)
      → RelaxedAll Open current ds s (relax_here ds current s)
  unfolding relax_all has
  relax_all-RelaxedAll Open current [] s inv from sub = record {
    keeps = inv;
    more = λ p h. h;
    reached = λ d k e. cc;
    same_closed = refl;
    growth = omega arith;
  }
  relax_all-RelaxedAll Open current (d ∷ ds) s inv from sub =
      let one = relax-Relaxed Open current d s inv from (sub d (has-head d ds)) in
      let rest =
        relax_all-RelaxedAll Open current ds (relax_one current d s) one.keeps
          (one.more current from) (λ e k. sub e (has-tail e d ds k)) in
      record {
        keeps = rest.keeps;
        more = λ p h. rest.more p (one.more p h);
        reached = λ e k free. elim (has-cons e d ds k) [
          | inl same ↦
              let here = subst (λ x. passable cols rows blocked current x ≡ true) same free in
              subst
                (λ x.
                  ScoredAt (relax_here ds current (relax_one current d s)).g_score
                    (next_to current x))
                (sym same) (rest.more (next_to current d) (one.reached here))
          | inr later ↦ rest.reached e later free
        ];
        same_closed = rest.same_closed ∙ one.same_closed;
        growth = omega (arith, rest.growth, one.one_more);
      }
