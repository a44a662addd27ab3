-- ===== src/Pathing/Nearest/Layers.antt =====
-- The search goes outwards in layers of one distance each, so the first free cell that it meets is a
-- nearest one.
use web_rts_nomads.Base.{
  ℕ, zero, suc, ◌≤◌, ◌≡◌, ◌⊎◌, inl, inr, Bool, true, false, List, [], ◌∷◌, ◌++◌, arith, Bool-cases,
  subst, sym, All, All-append,
}
use web_rts_nomads.Pathing.{GridPoint, has}
use web_rts_nomads.Pathing.Nearest.{Search, directions, next_to}
use web_rts_nomads.Pathing.Nearest.Shape.{
  InGrid, distance, towards, has-tail, has-cons, has-snoc, has-append,
}
use web_rts_nomads.Pathing.Nearest.Scan.{push, IsNew}

All-has :
    (P : GridPoint → Type 0) (q : List GridPoint) (p : GridPoint) → All P q → has p q ≡ true → P p
unfolding has
All-has P [] p a w = cc
All-has P (x ∷ xs) p a w = elim (has-cons p x xs w) [
  | inl first ↦ subst P (sym first) a.0
  | inr later ↦ All-has P xs p a.1 later
]

module _ (cols rows : ℕ) (accepts : GridPoint → Bool) (start : GridPoint) where
  abbrev pub far : GridPoint → ℕ
  far p = distance start p

  -- Cells at distance k, then cells at distance k + 1.
  abbrev pub Frontier : ℕ → List GridPoint → Type 0
  Frontier k [] = Unit
  Frontier k (p ∷ ps) =
      ((far p ≡ k) × Frontier k ps) ⊎ ((far p ≡ suc k) × All (λ q. far q ≡ suc k) ps)

  Frontier-of_All : (k : ℕ) (q : List GridPoint) → All (λ p. far p ≡ k) q → Frontier k q
  Frontier-of_All k [] h = h
  Frontier-of_All k (p ∷ ps) h = inl (h.0, Frontier-of_All k ps h.1)

  Frontier-snoc :
      (k : ℕ) (q : List GridPoint) (n : GridPoint)
      → Frontier k q
      → far n ≡ suc k
      → Frontier k (q ++ n ∷ [])
  Frontier-snoc k [] n h e = inr (e, tt)
  Frontier-snoc k (p ∷ ps) n (inl h) e = inl (h.0, Frontier-snoc k ps n h.1 e)
  Frontier-snoc k (p ∷ ps) n (inr h) e =
      inr (h.0, All-append (λ q. far q ≡ suc k) ps (n ∷ []) h.1 (e, tt))

  abbrev pub Covered : GridPoint → Search → Type 0
  Covered p s =
      (d : GridPoint)
      → has d directions ≡ true
      → InGrid cols rows (next_to p d)
      → has (next_to p d) s.visited ≡ true

  -- The search has visited the cells up to distance k, and none of those that it visited is free;
  -- `Open` are the cells whose neighbours it may not have visited.
  pub record Layer (k : ℕ) (Open : GridPoint → Type 0) (s : Search) : Type 0 where
    pub source : has start s.visited ≡ true
    pub barren : (p : GridPoint) → has p s.visited ≡ true → InGrid cols rows p × (accepts p ≡ false)
    pub near : (p : GridPoint) → InGrid cols rows p → far p ≤ k → has p s.visited ≡ true
    pub frontier : Frontier k s.queue
    pub closed :
        (p : GridPoint) → has p s.visited ≡ true → (has p s.queue ≡ true) ⊎ (Open p ⊎ Covered p s)

  pub Layer-push :
      (k : ℕ) (Open : GridPoint → Type 0) (s : Search) (n : GridPoint)
      → far n ≤ suc k
      → Layer k Open s
      → IsNew cols rows accepts n s
      → accepts n ≡ false
      → Layer k Open (push n s)
  Layer-push k Open s n near_by h new no_good = record {
    source = has-tail start n s.visited h.source;
    barren = λ p v. elim (has-cons p n s.visited v) [
      | inl same ↦
          subst (λ q. InGrid cols rows q × (accepts q ≡ false)) (sym same) (new.inside, no_good)
      | inr old ↦ h.barren p old
    ];
    near = λ p i c. has-tail p n s.visited (h.near p i c);
    frontier =
        Frontier-snoc k s.queue n h.frontier (ground (arith, h.near n new.inside, new.unvisited));
    closed = λ p v. elim (has-cons p n s.visited v) [
      | inl same ↦
          inl (subst (λ q. has q (s.queue ++ n ∷ []) ≡ true) (sym same) (has-snoc n s.queue))
      | inr old ↦ elim (h.closed p old) [
        | inl waiting ↦ inl (has-append p n s.queue waiting)
        | inr (inl open_) ↦ inr (inl open_)
        | inr (inr done) ↦ inr (inr (λ d k' i. has-tail (next_to p d) n s.visited (done d k' i)))
      ]
    ];
  }

  abbrev pub NothingOpen : GridPoint → Type 0
  NothingOpen _ = ⊥

  -- With a queue of cells at distance k + 1 Only, the search has visited all of that distance.
  Layer-raise :
      (k : ℕ) (s : Search)
      → InGrid cols rows start
      → All (λ p. far p ≡ suc k) s.queue
      → Layer k NothingOpen s
      → Layer (suc k) NothingOpen s
  Layer-raise k s hs beyond h = record {
    source = h.source;
    barren = h.barren;
    near = λ p i c. elim (Bool-cases (has p s.visited)) [
      | inl seen ↦ seen
      | inr missed ↦
          let edge : far p ≡ suc k = ground (arith, h.near p i) in
          let back = towards cols rows start p k hs i edge in
          let from = h.near back.before back.inside (omega (arith, back.closer)) in
          elim (h.closed back.before from) [
            | inl waiting ↦
                let late = All-has (λ q. far q ≡ suc k) s.queue back.before beyond waiting in
                absurd (omega (arith, late, back.closer))
            | inr (inl none_) ↦ absurd none_
            | inr (inr done) ↦
                subst (λ q. has q s.visited ≡ true) back.leads
                  (done back.direction back.is_direction
                    (subst (InGrid cols rows) (sym back.leads) i))
          ]
    ];
    frontier = Frontier-of_All (suc k) s.queue beyond;
    closed = h.closed;
  }

  abbrev pub Only : GridPoint → GridPoint → Type 0
  Only current p = p ≡ current

  -- Taking the first cell from the queue, at the distance of the layer.
  Layer-pop_at :
      (k : ℕ) (s : Search) (current : GridPoint) (rest : List GridPoint)
      → s.queue ≡ current ∷ rest
      → Frontier k rest
      → Layer k NothingOpen s
      → Layer k (Only current) (record s { queue = rest })
  Layer-pop_at k s current rest e fr h = record {
    source = h.source;
    barren = h.barren;
    near = h.near;
    frontier = fr;
    closed = λ p v. elim (h.closed p v) [
      | inl waiting ↦ elim (has-cons p current rest (subst (λ q. has p q ≡ true) e waiting)) [
        | inl first ↦ inr (inl first)
        | inr later ↦ inl later
      ]
      | inr (inl none_) ↦ absurd none_
      | inr (inr done) ↦ inr (inr done)
    ];
  }

  pub Layer-pop :
      (k : ℕ) (s : Search) (current : GridPoint) (rest : List GridPoint)
      → InGrid cols rows start
      → s.queue ≡ current ∷ rest
      → Layer k NothingOpen s
      → (j : ℕ) × (far current ≡ j) × Layer j (Only current) (record s { queue = rest })
  Layer-pop k s current rest hs e h = elim (subst (Frontier k) e h.frontier) [
    | inl (d, fr) ↦ (k, d, Layer-pop_at k s current rest e fr h)
    | inr (d, beyond) ↦
        let all_beyond = subst (All (λ p. far p ≡ suc k)) (sym e) (d, beyond) in
        (
          suc k,
          d,
          Layer-pop_at (suc k) s current rest e (Frontier-of_All (suc k) rest beyond)
              (Layer-raise k s hs all_beyond h),
        )
  ]

  pub Layer-close :
      (k : ℕ) (s : Search) (current : GridPoint)
      → Covered current s
      → Layer k (Only current) s
      → Layer k NothingOpen s
  Layer-close k s current around h = record {
    source = h.source;
    barren = h.barren;
    near = h.near;
    frontier = h.frontier;
    closed = λ p v. elim (h.closed p v) [
      | inl waiting ↦ inl waiting
      | inr (inl here) ↦ inr (inr (subst (λ q. Covered q s) (sym here) around))
      | inr (inr done) ↦ inr (inr done)
    ];
  }

  -- With an empty queue every layer is visited.
  pub Layer-exhausted :
      (m k : ℕ) (s : Search)
      → InGrid cols rows start
      → s.queue ≡ []
      → Layer k NothingOpen s
      → (j : ℕ) × (m ≤ j) × Layer j NothingOpen s
  Layer-exhausted zero k s hs e h = (k, omega arith, h)
  Layer-exhausted (suc m) k s hs e h =
      let (j, le, layer) = Layer-exhausted m k s hs e h in
      let none_beyond = subst (All (λ p. far p ≡ suc j)) (sym e) tt in
      (suc j, omega (arith, le), Layer-raise j s hs none_beyond layer)
