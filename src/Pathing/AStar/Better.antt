-- ===== src/Pathing/AStar/Better.antt =====
-- A better way to a neighbour, written down, keeps what the search keeps.
use web_rts_nomads.Base.{
  ℕ, ◌≡◌, ◌⊎◌, inl, inr, true, false, Option, some, List, ◌∷◌, Bool-cases, subst, sym, ap, ◌∙◌,
  some-inj,
}
use web_rts_nomads.Base.Float.{Float64}
use web_rts_nomads.Pathing.{GridPoint, CellSet, eqb_point, has}
use web_rts_nomads.Pathing.Nearest.{next_to}
use web_rts_nomads.Pathing.Nearest.Shape.{InGrid, eqb_point→eq, eqb_point_refl}
use web_rts_nomads.Pathing.Heap.{PathNode}
use web_rts_nomads.Pathing.Heap.Laws.{All-heap_push, All-of_heap_push}
use web_rts_nomads.Pathing.AStar.{PointMap, at_point, reaches, no_better}
use web_rts_nomads.Pathing.AStar.Order.{
  Ordered, at_point-cons_self, at_point-cons_other, LegalStep, walkable-InGrid, Chain, root, link,
  Chain-rebuild,
}
use web_rts_nomads.Pathing.AStar.Relax.{
  State, Scored, Waits, Inv, Scored-cons, Scored-uncons, All-Scored, at_most_refl,
}

module _ (F : Float64) (hypot : F.Float → F.Float → F.Float) (abs : F.Float → F.Float)
    (sqrt2 : F.Float) (laws : Ordered F sqrt2) (cols rows : ℕ) (blocked soft_blocked : CellSet)
    (budget : Option ℕ) (start goal : GridPoint) where
  open laws use {IsScore, IsCost, adds, grows, transitive, total}

  abbrev Here : Type 0
  Here = State F hypot abs sqrt2 laws cols rows blocked soft_blocked budget start goal

  abbrev ScoredAt : PointMap F.Float → GridPoint → Type 0
  ScoredAt = Scored F hypot abs sqrt2 laws cols rows blocked soft_blocked budget start goal

  abbrev WaitsAt : GridPoint → List (PathNode F) → Type 0
  WaitsAt = Waits F hypot abs sqrt2 laws cols rows blocked soft_blocked budget start goal

  abbrev Keeps : (GridPoint → Type 0) → Here → Type 0
  Keeps = Inv F hypot abs sqrt2 laws cols rows blocked soft_blocked budget start goal

  module _ (Open : GridPoint → Type 0) (s : Here) (inv : Keeps Open s) (current next : GridPoint)
      (g : F.Float) (is_g : at_point current s.g_score ≡ some g)
      (step : LegalStep cols rows blocked current next) (cost : F.Float) (is_cost : IsCost cost)
      (better : no_better F hypot abs sqrt2 (at_point next s.g_score) (F.plus g cost) ≡ false) where
    abbrev tentative : F.Float
    tentative = F.plus g cost

    score_g : IsScore g
    score_g = inv.scores current g is_g

    -- No cell whose score is at most g is written to.
    not_next :
        (x : GridPoint) (h : F.Float)
        → at_point x s.g_score ≡ some h
        → F.at_most h g ≡ true
        → eqb_point x next ≡ false
    not_next x h e le = elim (Bool-cases (eqb_point x next)) [
      | inl same ↦
          let here = ap (λ q. at_point q s.g_score) (sym (eqb_point→eq x next same)) ∙ e in
          let worse =
            transitive h g tentative (inv.scores x h e) score_g (adds g cost score_g is_cost) le
              (grows g cost score_g is_cost) in
          let no : F.at_most h tentative ≡ false =
            subst (λ o. no_better F hypot abs sqrt2 o tentative ≡ false) here better in
          cc
      | inr other ↦ other
    ]

    keep-Chain :
        (x : GridPoint) (h : F.Float)
        → at_point x s.g_score ≡ some h
        → F.at_most h g ≡ true
        → Chain cols rows blocked start s.came_from x
        → Chain cols rows blocked start ((next, current) ∷ s.came_from) x
    keep-Chain x h e le (root r) =
        root (at_point-cons_other start next current s.came_from (not_next start h e le) ∙ r)
    keep-Chain x h e le (link {q = q} c stp rest) =
        let (k, at_q, below) = inv.order x q h c e in
        link (at_point-cons_other x next current s.came_from (not_next x h e le) ∙ c) stp (
          keep-Chain q k at_q
            (transitive k h g (inv.scores q k at_q) (inv.scores x h e) score_g below le) rest)

    not_current : eqb_point current next ≡ false
    not_current = not_next current g is_g (
        (at_most_refl F hypot abs sqrt2 laws cols rows blocked soft_blocked budget start goal) g
          score_g)

    next-Chain : Chain cols rows blocked start ((next, current) ∷ s.came_from) next
    next-Chain = link (at_point-cons_self next current s.came_from) step (
        keep-Chain current g is_g
          ((at_most_refl F hypot abs sqrt2 laws cols rows blocked soft_blocked budget start goal) g
            score_g)
          (inv.chains current (record { score = g; is_at = is_g })))

    better_order :
        (x q : GridPoint) (k : F.Float)
        → at_point x ((next, current) ∷ s.came_from) ≡ some q
        → at_point x ((next, tentative) ∷ s.g_score) ≡ some k
        → (h : F.Float) × (at_point q ((next, tentative) ∷ s.g_score) ≡ some h)
          × (F.at_most h k ≡ true)
    better_order x q k from at_x = elim (Bool-cases (eqb_point x next)) [
      | inl same ↦
          let is_next = eqb_point→eq x next same in
          let is_current : current ≡ q = some-inj (
            sym (at_point-cons_self next current s.came_from)
            ∙ ap (λ r. at_point r ((next, current) ∷ s.came_from)) (sym is_next)
            ∙ from) in
          let is_tentative : tentative ≡ k = some-inj (
            sym (at_point-cons_self next tentative s.g_score)
            ∙ ap (λ r. at_point r ((next, tentative) ∷ s.g_score)) (sym is_next)
            ∙ at_x) in
          (
            g,
            ap (λ r. at_point r ((next, tentative) ∷ s.g_score)) (sym is_current)
                ∙ (at_point-cons_other current next tentative s.g_score not_current ∙ is_g),
            subst (λ r. F.at_most g r ≡ true) is_tentative (grows g cost score_g is_cost),
          )
      | inr other ↦
          let old_from = sym (at_point-cons_other x next current s.came_from other) ∙ from in
          let old_at = sym (at_point-cons_other x next tentative s.g_score other) ∙ at_x in
          let (h, at_q, below) = inv.order x q k old_from old_at in
          elim (Bool-cases (eqb_point q next)) [
            | inl same ↦
                let is_next = eqb_point→eq q next same in
                let at_next = ap (λ r. at_point r s.g_score) (sym is_next) ∙ at_q in
                let no : F.at_most h tentative ≡ false =
                  subst (λ o. no_better F hypot abs sqrt2 o tentative ≡ false) at_next better in
                let score_h = inv.scores q h at_q in
                let score_t = adds g cost score_g is_cost in
                (
                  tentative,
                  ap (λ r. at_point r ((next, tentative) ∷ s.g_score)) is_next
                      ∙ at_point-cons_self next tentative s.g_score,
                  transitive tentative h k score_t score_h (inv.scores x k old_at)
                      (total h tentative score_h score_t no) below,
                )
            | inr apart ↦ (h, at_point-cons_other q next tentative s.g_score apart ∙ at_q, below)
          ]
    ]

    abbrev reached : Here
    reached =
        reaches F hypot abs sqrt2 cols rows blocked soft_blocked budget goal current next tentative
          s

    better_scores :
        (p : GridPoint) (k : F.Float)
        → at_point p ((next, tentative) ∷ s.g_score) ≡ some k
        → IsScore k
    better_scores p k e = elim (Bool-cases (eqb_point p next)) [
      | inl same ↦
          let at_next =
            ap (λ r. at_point r ((next, tentative) ∷ s.g_score)) (sym (eqb_point→eq p next same))
            ∙ e in
          subst IsScore (some-inj (sym (at_point-cons_self next tentative s.g_score) ∙ at_next))
            (adds g cost score_g is_cost)
      | inr other ↦ inv.scores p k (sym (at_point-cons_other p next tentative s.g_score other) ∙ e)
    ]

    better_waiting :
        (p : GridPoint)
        → ScoredAt ((next, tentative) ∷ s.g_score) p
        → (has p s.closed ≡ true) ⊎ WaitsAt p reached.open_cells
    better_waiting p h =
        elim ((Scored-uncons F hypot abs sqrt2 laws cols rows blocked soft_blocked budget start
            goal)
          s.g_score next p tentative h) [
            | inl here ↦ inr (λ all.
                let none_at =
                  (All-of_heap_push F (λ node. eqb_point p node.at ≡ false) _ s.open_cells
                    all).1.0 in
                let self : eqb_point p next ≡ true =
                  subst (λ q. eqb_point p q ≡ true) here (eqb_point_refl p) in
                cc)
            | inr old ↦ elim (inv.waiting p old) [
              | inl done ↦ inl done
              | inr waits ↦ inr (λ all.
                  waits
                    (All-of_heap_push F (λ node. eqb_point p node.at ≡ false) _ s.open_cells all).0)
            ]
          ]

    -- The write of a better predecessor keeps what the search keeps.
    pub Inv-reaches : Keeps Open reached
    Inv-reaches = record {
      source =
          (Scored-cons F hypot abs sqrt2 laws cols rows blocked soft_blocked budget start goal)
            s.g_score next start tentative inv.source;
      chains = λ p h.
          elim ((Scored-uncons F hypot abs sqrt2 laws cols rows blocked soft_blocked budget start
              goal)
            s.g_score next p tentative h) [
              | inl here ↦
                  subst (Chain cols rows blocked start ((next, current) ∷ s.came_from)) (sym here)
                    next-Chain
              | inr old ↦
                  Chain-rebuild cols rows blocked start next current s.came_from p next-Chain
                    (inv.chains p old)
            ];
      order = better_order;
      scores = better_scores;
      open_scored =
          All-heap_push F (λ node. ScoredAt ((next, tentative) ∷ s.g_score) node.at) _ s.open_cells
            ((All-Scored F hypot abs sqrt2 laws cols rows blocked soft_blocked budget start goal)
              s.g_score next tentative s.open_cells inv.open_scored)
            (record { score = tentative; is_at = at_point-cons_self next tentative s.g_score });
      waiting = better_waiting;
      expanded = λ p c. elim (inv.expanded p c) [
        | inl open_ ↦ inl open_
        | inr done ↦ inr (λ d k e.
            (Scored-cons F hypot abs sqrt2 laws cols rows blocked soft_blocked budget start goal)
              s.g_score next (next_to p d) tentative (done d k e))
      ];
      goal_open = inv.goal_open;
      inside = λ p h.
          elim ((Scored-uncons F hypot abs sqrt2 laws cols rows blocked soft_blocked budget start
              goal)
            s.g_score next p tentative h) [
              | inl here ↦
                  subst (InGrid cols rows) (sym here)
                    (walkable-InGrid cols rows blocked next step.walkable)
              | inr old ↦ inv.inside p old
            ];
    }
