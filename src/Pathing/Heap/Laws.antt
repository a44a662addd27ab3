-- ===== src/Pathing/Heap/Laws.antt =====
-- The queue loses and invents nothing.
use web_rts_nomads.Base.{
  List-cases, some-inj, ℕ, zero, suc, ◌+◌, ◌-◌, ◌*◌, ◌/◌, ◌<◌, ◌≡◌, refl, inl, inr, Bool, true,
  false, some, List, [], ◌∷◌, ◌++◌, length, get_elem?, set, ◌==◌, arith, Bool-cases, Option-cases,
  All, All-append, length-append, length-set, get_elem?-set_self, get_elem?-set_other, sym, ◌∙◌, ap,
  subst, if◌then◌else◌,
}
use web_rts_nomads.Base.Float.{Float64}
use web_rts_nomads.Pathing.Heap.{PathNode, swap, up, child, down, pop_last, heap_push, heap_pop}

get_elem?-lt : {A : Type 0} (xs : List A) (i : ℕ) (a : A) → get_elem? xs i ≡ some a → i < length xs
get_elem?-lt [] i a e = cc
get_elem?-lt (x ∷ xs) zero a e = omega arith
get_elem?-lt (x ∷ xs) (suc i) a e = omega (arith, get_elem?-lt xs i a e)

module _ (F : Float64) (P : PathNode F → Type 0) where
  -- How a list of nodes relates to one that came from it: no shorter or longer, and with P if that
  -- has P.
  record Rearranged (pq qp : List (PathNode F)) : Type 0 where
    size : length qp ≡ length pq
    keeps : All P pq → All P qp
    back : All P qp → All P pq

  Rearranged-refl : (pq : List (PathNode F)) → Rearranged pq pq
  Rearranged-refl pq = record { size = refl; keeps = λ h. h; back = λ h. h }

  Rearranged-trans : (a b c : List (PathNode F)) → Rearranged a b → Rearranged b c → Rearranged a c
  Rearranged-trans a b c h k = record {
    size = k.size ∙ h.size;
    keeps = λ x. k.keeps (h.keeps x);
    back = λ x. h.back (k.back x);
  }

  All-get_elem? :
      (pq : List (PathNode F)) (i : ℕ) (a : PathNode F) → All P pq → get_elem? pq i ≡ some a → P a
  All-get_elem? [] i a h e = cc
  All-get_elem? (x ∷ xs) zero a h e = (let same : x ≡ a = cc in subst P same h.0)
  All-get_elem? (x ∷ xs) (suc i) a h e = All-get_elem? xs i a h.1 e

  All-set : (pq : List (PathNode F)) (i : ℕ) (a : PathNode F) → All P pq → P a → All P (set pq i a)
  All-set [] i a h p = h
  All-set (x ∷ xs) zero a h p = (p, h.1)
  All-set (x ∷ xs) (suc i) a h p = (h.0, All-set xs i a h.1 p)

  All-of_set :
      (pq : List (PathNode F)) (i : ℕ) (v a : PathNode F)
      → get_elem? pq i ≡ some a
      → P a
      → All P (set pq i v)
      → All P pq
  All-of_set [] i v a e p h = cc
  All-of_set (x ∷ xs) zero v a e p h = let same : x ≡ a = cc in (subst P (sym same) p, h.1)
  All-of_set (x ∷ xs) (suc i) v a e p h = (h.0, All-of_set xs i v a e p h.1)

  -- An exchange can be undone.
  All-of_swap :
      (pq : List (PathNode F)) (i j : ℕ) (a b : PathNode F)
      → get_elem? pq i ≡ some a
      → get_elem? pq j ≡ some b
      → All P (set (set pq i b) j a)
      → All P pq
  All-of_swap pq i j a b at_i at_j h =
      let half = set pq i b in
      let i_in = get_elem?-lt pq i a at_i in
      let j_in = get_elem?-lt pq j b at_j in
      let a_in = get_elem?-set_self half j a (rw (length-set pq i b) j_in) in
      let p_a = All-get_elem? (set half j a) j a h a_in in
      elim (Bool-cases (j == i)) [
        | inl same ↦
            let e : j ≡ i = ground arith in
            let one : b ≡ a = some-inj (sym at_j ∙ ap (get_elem? pq) e ∙ at_i) in
            let p_b = subst P (sym one) p_a in
            All-of_set pq i b a at_i p_a
              (All-of_set half j a b (ap (get_elem? half) e ∙ get_elem?-set_self pq i b i_in) p_b h)
        | inr other ↦
            let miss : (i == j) ≡ false = ground arith in
            let b_at_i = get_elem?-set_other half j i a other ∙ get_elem?-set_self pq i b i_in in
            let p_b = All-get_elem? (set half j a) i b h b_at_i in
            let b_at_j = get_elem?-set_other pq i j b miss ∙ at_j in
            All-of_set pq i b a at_i p_a (All-of_set half j a b b_at_j p_b h)
      ]

  All-of_append :
      (xs : List (PathNode F)) (ys : List (PathNode F)) → All P (xs ++ ys) → All P xs × (All P ys)
  All-of_append [] ys h = (tt, h)
  All-of_append (x ∷ xs) ys h = let (left, right) = All-of_append xs ys h.1 in ((h.0, left), right)

  swap-Rearranged : (i j : ℕ) (pq : List (PathNode F)) → Rearranged pq (swap F i j pq)
  unfolding swap
  swap-Rearranged i j pq = elim (Option-cases (get_elem? pq i)) [
    | inl out ↦ rw (swap, out) (Rearranged-refl pq)
    | inr (a, at_i) ↦ elim (Option-cases (get_elem? pq j)) [
      | inl out ↦ rw (swap, at_i, out) (Rearranged-refl pq)
      | inr (b, at_j) ↦
          rw (swap, at_i, at_j)
            (record {
              size = length-set (set pq i b) j a ∙ length-set pq i b;
              keeps = λ h.
                  All-set (set pq i b) j a (All-set pq i b h (All-get_elem? pq j b h at_j))
                    (All-get_elem? pq i a h at_i);
              back = All-of_swap pq i j a b at_i at_j;
            })
    ]
  ]

  if-Rearranged :
      (b : Bool) (pq x y : List (PathNode F))
      → Rearranged pq x
      → Rearranged pq y
      → Rearranged pq (if b then x else y)
  if-Rearranged true pq x y h k = h
  if-Rearranged false pq x y h k = k

  up-Rearranged : (fuel j : ℕ) (pq : List (PathNode F)) → Rearranged pq (up F fuel j pq)
  unfolding up
  up-Rearranged zero j pq = Rearranged-refl pq
  up-Rearranged (suc fuel) j pq =
      let i = (j - 1) / 2 in
      if-Rearranged _ pq _ _ (Rearranged-refl pq)
        (Rearranged-trans pq _ _ (swap-Rearranged i j pq) (up-Rearranged fuel i (swap F i j pq)))

  down-Rearranged : (fuel n i : ℕ) (pq : List (PathNode F)) → Rearranged pq (down F fuel n i pq)
  unfolding down
  down-Rearranged zero n i pq = Rearranged-refl pq
  down-Rearranged (suc fuel) n i pq =
      let j = child F n (2 * i + 1) pq in
      let later =
        Rearranged-trans pq _ _ (swap-Rearranged i j pq)
          (down-Rearranged fuel n j (swap F i j pq)) in
      if-Rearranged _ pq _ _ (Rearranged-refl pq)
        (if-Rearranged _ pq _ _ (Rearranged-refl pq) later)

  pub length-heap_push :
      (node : PathNode F) (pq : List (PathNode F)) → length (heap_push F node pq) ≡ suc (length pq)
  unfolding heap_push
  length-heap_push node pq = omega (
    arith,
    (up-Rearranged (suc (length pq)) (length pq) (pq ++ node ∷ [])).size,
    length-append pq (node ∷ []),
  )

  pub All-heap_push :
      (node : PathNode F) (pq : List (PathNode F)) → All P pq → P node → All P (heap_push F node pq)
  unfolding heap_push
  All-heap_push node pq h p =
      (up-Rearranged (suc (length pq)) (length pq) (pq ++ node ∷ [])).keeps
        (All-append P pq (node ∷ []) h (p, tt))

  pub All-of_heap_push :
      (node : PathNode F) (pq : List (PathNode F))
      → All P (heap_push F node pq)
      → All P pq × All P (node ∷ [])
  unfolding heap_push
  All-of_heap_push node pq h =
      All-of_append pq (node ∷ [])
        ((up-Rearranged (suc (length pq)) (length pq) (pq ++ node ∷ [])).back h)

  pop_last-split :
      (x : PathNode F) (xs : List (PathNode F))
      → (node : PathNode F) × (rest : List (PathNode F)) × (pop_last F (x ∷ xs) ≡ some (node, rest))
        × (x ∷ xs ≡ rest ++ node ∷ [])
  unfolding pop_last
  pop_last-split x [] = (x, [], refl, refl)
  pop_last-split x (y ∷ ys) =
      let (node, rest, e, split) = pop_last-split y ys in
      (node, x ∷ rest, rw (pop_last, e) refl, ap (λ l. x ∷ l) split)

  pop_last-append :
      (pq : List (PathNode F)) (node : PathNode F) (rest : List (PathNode F))
      → pop_last F pq ≡ some (node, rest)
      → pq ≡ rest ++ node ∷ []
  unfolding pop_last
  pop_last-append [] node rest e = cc
  pop_last-append (x ∷ xs) node rest e =
      let (b, r, popped, split) = pop_last-split x xs in
      let same : (b, r) ≡ (node, rest) = some-inj (sym popped ∙ e) in
      split ∙ ap (λ (q : PathNode F × List (PathNode F)). q.1 ++ q.0 ∷ []) same

  -- The whole queue before the last node is taken off.
  sifted : List (PathNode F) → List (PathNode F)
  sifted pq = down F (length pq) (length pq - 1) 0 (swap F 0 (length pq - 1) pq)

  sifted-Rearranged : (pq : List (PathNode F)) → Rearranged pq (sifted pq)
  unfolding sifted
  sifted-Rearranged pq =
      Rearranged-trans pq _ _ (swap-Rearranged 0 (length pq - 1) pq)
        (down-Rearranged (length pq) (length pq - 1) 0 (swap F 0 (length pq - 1) pq))

  -- The queue before a pop is the popped node and the rest, in some order.
  pub record Popped (pq : List (PathNode F)) (node : PathNode F) (rest : List (PathNode F))
      : Type 0 where
    pub fewer : suc (length rest) ≡ length pq
    pub parts : All P pq → P node × All P rest
    pub whole : P node → All P rest → All P pq

  pub heap_pop-Popped :
      (pq : List (PathNode F)) (node : PathNode F) (rest : List (PathNode F))
      → heap_pop F pq ≡ some (node, rest)
      → Popped pq node rest
  unfolding heap_pop sifted
  heap_pop-Popped pq node rest e =
      let shape = sifted-Rearranged pq in
      let split : sifted pq ≡ rest ++ node ∷ [] = pop_last-append (sifted pq) node rest e in
      record {
        fewer = omega (arith, ap length split, shape.size, length-append rest (node ∷ []));
        parts = λ h.
            let (left, right) =
              All-of_append rest (node ∷ []) (subst (All P) split (shape.keeps h)) in
            (right.0, left);
        whole =
            λ p r. shape.back (subst (All P) (sym split) (All-append P rest (node ∷ []) r (p, tt)));
      }

  pub heap_pop-total :
      (x : PathNode F) (xs : List (PathNode F))
      → (node : PathNode F) × (rest : List (PathNode F)) × (heap_pop F (x ∷ xs) ≡ some (node, rest))
  unfolding heap_pop sifted
  heap_pop-total x xs = elim (List-cases (sifted (x ∷ xs))) [
    | inl empty ↦
        let size = (sifted-Rearranged (x ∷ xs)).size in
        absurd (omega (arith, ap length empty, size))
    | inr (y, ys, e) ↦
        let (node, rest, popped, _) = pop_last-split y ys in
        (node, rest, ap (pop_last F) e ∙ popped)
  ]
