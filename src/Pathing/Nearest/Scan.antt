-- ===== src/Pathing/Nearest/Scan.antt =====
-- The inner loop over the four directions.
use web_rts_nomads.Base.{
  ℕ, ◌≡◌, refl, ◌⊎◌, inl, inr, Bool, true, false, List, [], ◌∷◌, ◌++◌, arith, Bool-cases, subst,
  sym, ap, ◌∙◌,
}
use web_rts_nomads.Pathing.{GridPoint, has, out_of_grid}
use web_rts_nomads.Pathing.Nearest.{Search, Outcome, found, carry_on, next_to, look, look_around}
use web_rts_nomads.Pathing.Nearest.Shape.{InGrid, has-head, has-tail, has-cons}

abbrev pub push : GridPoint → Search → Search
push n s = record { queue = s.queue ++ n ∷ []; visited = n ∷ s.visited }

pub Outcome-cases :
    (o : Outcome) → ((p : GridPoint) × (o ≡ found p)) ⊎ ((s : Search) × (o ≡ carry_on s))
Outcome-cases (found p) = inl (p, refl)
Outcome-cases (carry_on s) = inr (s, refl)

carry_on_inj : {s t : Search} → carry_on s ≡ carry_on t → s ≡ t
carry_on_inj e = cc

found_inj : {p q : GridPoint} → found p ≡ found q → p ≡ q
found_inj e = cc

module _ (cols rows : ℕ) (accepts : GridPoint → Bool) where
  -- A cell on the map that the search meets for the first time.
  pub record IsNew (n : GridPoint) (s : Search) : Type 0 where
    pub inside : InGrid cols rows n
    pub unvisited : has n s.visited ≡ false

  data Looked (n : GridPoint) (s : Search) : Outcome → Type 0 where
    finds : IsNew n s → accepts n ≡ true → Looked n s (found n)
    skips : (InGrid cols rows n → has n s.visited ≡ true) → Looked n s (carry_on s)
    queues : IsNew n s → accepts n ≡ false → Looked n s (carry_on (push n s))

  look_lem : (n : GridPoint) (s : Search) → Looked n s (look cols rows accepts n s)
  unfolding look
  look_lem n s = elim (Bool-cases (has n s.visited)) [
    | inl old ↦ rw old (skips (λ _. old))
    | inr fresh ↦ elim (Bool-cases (out_of_grid cols rows n)) [
      | inl out ↦ rw (fresh, out) (skips (λ h. cc))
      | inr inside ↦
          let new : IsNew n s = record { inside = inside; unvisited = fresh } in
          elim (Bool-cases (accepts n)) [
            | inl fits ↦ rw (fresh, inside, fits) (finds new fits)
            | inr rejects ↦ rw (fresh, inside, rejects) (queues new rejects)
          ]
    ]
  ]

  -- What a direction leaves, where the loop goes on.
  went_on {ℓ} :
      (P : Search → Type ℓ) (n : GridPoint) (s t : Search) {o : Outcome}
      → (IsNew n s → accepts n ≡ false → P (push n s))
      → P s
      → Looked n s o
      → o ≡ carry_on t
      → P t
  went_on P n s t keep h (finds new fits) e = cc
  went_on P n s t keep h (skips old) e = subst P (carry_on_inj e) h
  went_on P n s t keep h (queues new rejects) e = subst P (carry_on_inj e) (keep new rejects)

  ended :
      (n p : GridPoint) (s : Search) {o : Outcome}
      → Looked n s o
      → o ≡ found p
      → (p ≡ n) × IsNew n s × (accepts n ≡ true)
  ended n p s (finds new fits) e = (sym (found_inj e), new, fits)
  ended n p s (skips old) e = cc
  ended n p s (queues new rejects) e = cc

  covered :
      (n : GridPoint) (s t : Search) {o : Outcome}
      → Looked n s o
      → o ≡ carry_on t
      → InGrid cols rows n
      → has n t.visited ≡ true
  covered n s t (finds new fits) e i = cc
  covered n s t (skips old) e i = subst (λ u. has n u.visited ≡ true) (carry_on_inj e) (old i)
  covered n s t (queues new rejects) e i =
      subst (λ u. has n u.visited ≡ true) (carry_on_inj e) (has-head n s.visited)

  module _ (current : GridPoint) where
    around-cons :
        (d : GridPoint) (ds : List GridPoint) (s u : Search)
        → look cols rows accepts (next_to current d) s ≡ carry_on u
        → look_around cols rows accepts (d ∷ ds) current s
          ≡ look_around cols rows accepts ds current u
    unfolding look_around
    around-cons d ds s u e = rw (look_around, e) refl

    around-cons_found :
        (d p : GridPoint) (ds : List GridPoint) (s : Search)
        → look cols rows accepts (next_to current d) s ≡ found p
        → look_around cols rows accepts (d ∷ ds) current s ≡ found p
    unfolding look_around
    around-cons_found d p ds s e = rw (look_around, e) refl

    -- The searches that a push of a new neighbour leads to keep the property.
    abbrev pub Pushes {ℓ} : (Search → Type ℓ) → List GridPoint → Type ℓ
    Pushes P ds =
        (d : GridPoint) (s : Search)
        → has d ds ≡ true
        → P s
        → IsNew (next_to current d) s
        → accepts (next_to current d) ≡ false
        → P (push (next_to current d) s)

    pub around_keeps {ℓ} :
        (P : Search → Type ℓ) (ds : List GridPoint) (s t : Search)
        → Pushes P ds
        → P s
        → look_around cols rows accepts ds current s ≡ carry_on t
        → P t
    unfolding look_around
    around_keeps P [] s t keep h e = subst P (carry_on_inj e) h
    around_keeps P (d ∷ ds) s t keep h e =
        let n = next_to current d in
        let looked = look_lem n s in
        elim (Outcome-cases (look cols rows accepts n s)) [
          | inl (p, hit) ↦ cc (around-cons_found d p ds s hit, e)
          | inr (u, on) ↦
              around_keeps P ds u t (λ d' s' k. keep d' s' (has-tail d' d ds k))
                (went_on P n s u (keep d s (has-head d ds) h) h looked on)
                (sym (around-cons d ds s u on) ∙ e)
        ]

    -- After the loop every neighbour on the map is visited.
    pub around_covers :
        (ds : List GridPoint) (s t : Search) (d : GridPoint)
        → look_around cols rows accepts ds current s ≡ carry_on t
        → has d ds ≡ true
        → InGrid cols rows (next_to current d)
        → has (next_to current d) t.visited ≡ true
    unfolding has
    around_covers [] s t d e h i = ground (arith, h)
    around_covers (c ∷ ds) s t d e h i =
        let n = next_to current c in
        elim (Outcome-cases (look cols rows accepts n s)) [
          | inl (p, hit) ↦ cc (around-cons_found c p ds s hit, e)
          | inr (u, on) ↦
              let later = sym (around-cons c ds s u on) ∙ e in
              elim (has-cons d c ds h) [
                | inl first ↦
                    let at_n = subst (λ x. InGrid cols rows (next_to current x)) first i in
                    let seen = covered n s u (look_lem n s) on at_n in
                    subst (λ x. has (next_to current x) t.visited ≡ true) (sym first)
                      (around_keeps (λ v. has n v.visited ≡ true) ds u t
                        (λ d' s' _ k _ _. has-tail n (next_to current d') s'.visited k) seen later)
                | inr rest ↦ around_covers ds u t d later rest i
              ]
        ]

    pub record Hit {ℓ} (P : Search → Type ℓ) (ds : List GridPoint) (p : GridPoint) : Type ℓ where
      pub before : Search
      pub kept : P before
      pub direction : GridPoint
      pub is_direction : has direction ds ≡ true
      pub is_next : p ≡ next_to current direction
      pub is_new : IsNew p before
      pub accepted : accepts p ≡ true

    -- Where the function returns, the cell is a new neighbour that the test accepts.
    pub around_finds {ℓ} :
        (P : Search → Type ℓ) (ds : List GridPoint) (s : Search) (p : GridPoint)
        → Pushes P ds
        → P s
        → look_around cols rows accepts ds current s ≡ found p
        → Hit P ds p
    unfolding look_around
    around_finds P [] s p keep h e = cc
    around_finds P (d ∷ ds) s p keep h e =
        let n = next_to current d in
        let looked = look_lem n s in
        elim (Outcome-cases (look cols rows accepts n s)) [
          | inl (q, hit) ↦
              let same = found_inj (sym e ∙ around-cons_found d q ds s hit) in
              let (is_n, new, fits) = ended n p s looked (hit ∙ ap found (sym same)) in
              record {
                before = s;
                kept = h;
                direction = d;
                is_direction = has-head d ds;
                is_next = is_n;
                is_new = subst (λ x. IsNew x s) (sym is_n) new;
                accepted = subst (λ x. accepts x ≡ true) (sym is_n) fits;
              }
          | inr (u, on) ↦
              let later =
                around_finds P ds u p (λ d' s' k. keep d' s' (has-tail d' d ds k))
                  (went_on P n s u (keep d s (has-head d ds) h) h looked on)
                  (sym (around-cons d ds s u on) ∙ e) in
              record {
                before = later.before;
                kept = later.kept;
                direction = later.direction;
                is_direction = has-tail later.direction d ds later.is_direction;
                is_next = later.is_next;
                is_new = later.is_new;
                accepted = later.accepted;
              }
        ]
