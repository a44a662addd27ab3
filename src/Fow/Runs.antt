-- ===== src/Fow/Runs.antt =====
-- fow.go, `encodeRLE`: the wire form of the cells, against an independent decoder.
use web_rts_nomads.Base.{
  ℕ, suc, zero, ◌+◌, ◌<◌, ◌≡◌, ◌≢◌, refl, sym, ap, List, [], ◌∷◌, ◌++◌, ◌==◌, arith, Bool-cases,
  inl, inr, ==_iff,
}
use native.Mathlib.Numerals.{add-one}
use web_rts_nomads.Fow.{replicate, encode_from, encode_rle}

-- What a client does with `[state, count, state, count, ...]`.
pub decode_rle : List ℕ → List ℕ
decode_rle [] = []
decode_rle (s ∷ []) = []
decode_rle (s ∷ n ∷ rest) = replicate n s ++ decode_rle rest

replicate-snoc : (n s : ℕ) (vs : List ℕ) → replicate n s ++ s ∷ vs ≡ replicate (suc n) s ++ vs
replicate-snoc zero s vs = refl
replicate-snoc (suc n) s vs = ap (λ t. s ∷ t) (replicate-snoc n s vs)

decode-encode_from :
    (cur count : ℕ) (vs : List ℕ)
    → decode_rle (encode_from cur count vs) ≡ replicate count cur ++ vs
unfolding decode_rle encode_from
decode-encode_from cur count [] = refl
decode-encode_from cur count (v ∷ vs) = elim (Bool-cases (v == cur)) [
  | inl same ↦ rw same (
      rw (decode-encode_from cur (count + 1) vs)
        (rw ((==_iff v cur).0 same, add-one) (sym (replicate-snoc count cur vs))))
  | inr new ↦ rw new (ap (◌++◌ (replicate count cur)) (decode-encode_from v 1 vs))
]

-- Decoding an encoded list of cells gives the cells back.
pub decode-encode : (cells : List ℕ) → decode_rle (encode_rle cells) ≡ cells
unfolding encode_rle decode_rle
decode-encode [] = refl
decode-encode (c ∷ cs) = decode-encode_from c 1 cs

-- Runs that could be no shorter: counts are positive and neighbouring runs differ.
abbrev pub IsCanonical : List ℕ → Type 0
IsCanonical [] = Unit {0}
IsCanonical (s ∷ []) = ⊥
IsCanonical (s ∷ n ∷ []) = 0 < n
IsCanonical (s ∷ n ∷ t ∷ []) = ⊥
IsCanonical (s ∷ n ∷ t ∷ m ∷ rest) = (0 < n) × (s ≢ t) × IsCanonical (t ∷ m ∷ rest)

-- An encoding that goes on with the run `cur`.
abbrev Continues : ℕ → List ℕ → Type 0
Continues cur runs =
    (n : ℕ) × (rest : List ℕ) × (runs ≡ cur ∷ n ∷ rest) × IsCanonical (cur ∷ n ∷ rest)

encode_from-Continues :
    (cur count : ℕ) (vs : List ℕ) → 0 < count → Continues cur (encode_from cur count vs)
unfolding encode_from
encode_from-Continues cur count [] h = (count, [], refl, h)
encode_from-Continues cur count (v ∷ vs) h = elim (Bool-cases (v == cur)) [
  | inl same ↦ rw same (encode_from-Continues cur (count + 1) vs (omega arith))
  | inr new ↦
      let (n, rest, e, c) = encode_from-Continues v 1 vs (omega arith) in
      rw (new, e) (count, v ∷ n ∷ rest, refl, (h, ground (arith, new), c))
]

-- The encoding cannot be shortened: each run is of at least one cell, and neighbouring runs differ.
encode_rle-IsCanonical : (cells : List ℕ) → IsCanonical (encode_rle cells)
unfolding encode_rle
encode_rle-IsCanonical [] = tt
encode_rle-IsCanonical (c ∷ cs) =
    let (n, rest, e, canonical) = encode_from-Continues c 1 cs (omega arith) in rw e canonical
