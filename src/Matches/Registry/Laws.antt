-- ===== src/Matches/Registry/Laws.antt =====
-- Evicting a player: what becomes of each match.
use web_rts_nomads.Base.{
  String, true, false, Option, none, some, List, [], ◌∷◌, ◌≡◌, refl, sym, ◌∙◌, ◌⊎◌, inl, inr, Dict,
  lookup, str_eq, contains, All, if◌then◌else◌, arith, lookup-store, str_eq→eq, str_eq_refl, str_ne,
  ◌≢◌, Bool-cases, Option-cases,
}
use web_rts_nomads.Matches.{Match, MatchManager}
use web_rts_nomads.Matches.Registry.{
  without, evict_match, evict_step, evict_each, candidates, evict_player_from_other_matches,
}

pub contains-without : (p : String) (xs : List String) → contains (without p xs) p ≡ false
contains-without p [] = refl
contains-without p (x ∷ xs) = ground (arith, contains-without p xs)

-- The match holds neither the player nor a timer of theirs.
abbrev pub IsFree : String → Match → Type 0
IsFree p match =
    (contains match.players p ≡ false) × (contains match.pending_player_cleanups p ≡ false)

pub evict_match-IsFree : (p : String) (match m : Match) → evict_match p match ≡ some m → IsFree p m
unfolding evict_match
evict_match-IsFree p match m e =
    ground
      (arith, contains-without p match.players, contains-without p match.pending_player_cleanups)

evict_match_free : (p : String) (m : Match) → IsFree p m → evict_match p m ≡ some m
unfolding evict_match
evict_match_free p m h = ground arith

abbrev pub and_then {ℓ κ} : {A : Type ℓ} {B : Type κ} → Option A → (A → Option B) → Option B
and_then none f = none
and_then (some a) f = f a

evict_match_twice :
    (p : String) (m : Match) → and_then (evict_match p m) (evict_match p) ≡ evict_match p m
evict_match_twice p m = elim (Option-cases (evict_match p m)) [
  | inl e ↦ rw e
  | inr (m', e) ↦ rw e (evict_match_free p m' (evict_match-IsFree p m m' e))
]

lookup-evict_step :
    (p k j : String) (ms : Dict Match)
    → lookup j (evict_step p k ms)
      ≡ (if str_eq k j then and_then (lookup j ms) (evict_match p) else lookup j ms)
unfolding evict_step
lookup-evict_step p k j ms = elim (Option-cases (lookup k ms)) [
  | inl e ↦ elim (Bool-cases (str_eq k j)) [
    | inl hit ↦ rw (e, evict_step) (rw hit (gone (str_eq→eq k j hit) e))
    | inr miss ↦ rw (e, evict_step) (rw miss)
  ]
  | inr (m, e) ↦ elim (Bool-cases (str_eq k j)) [
    | inl hit ↦
        rw (e, evict_step)
          (rw (lookup-store k j (evict_match p m) ms, hit) (found m (str_eq→eq k j hit) e))
    | inr miss ↦ rw (e, evict_step) (rw (lookup-store k j (evict_match p m) ms, miss))
  ]
]
  where
    gone : k ≡ j → lookup k ms ≡ none → lookup j ms ≡ and_then (lookup j ms) (evict_match p)
    gone q e = rw (← q) (rw e)

    found :
        (m : Match)
        → k ≡ j
        → lookup k ms ≡ some m
        → evict_match p m ≡ and_then (lookup j ms) (evict_match p)
    found m q e = rw (← q) (rw e)

and_then_twice :
    (p : String) (o : Option Match)
    → and_then (and_then o (evict_match p)) (evict_match p) ≡ and_then o (evict_match p)
and_then_twice p none = refl
and_then_twice p (some m) = evict_match_twice p m

-- What the whole loop does to one entry.
lookup-evict_each :
    (p j : String) (ids : List String) (ms : Dict Match)
    → lookup j (evict_each p ids ms)
      ≡ (if contains ids j then and_then (lookup j ms) (evict_match p) else lookup j ms)
unfolding evict_each
lookup-evict_each p j [] ms = refl
lookup-evict_each p j (id ∷ ids) ms = elim (Bool-cases (str_eq id j)) [
  | inl hit ↦
      rw (lookup-evict_each p j ids (evict_step p id ms), lookup-evict_step p id j ms)
        (rw hit (ground (arith, and_then_twice p (lookup j ms))))
  | inr miss ↦
      rw (lookup-evict_each p j ids (evict_step p id ms), lookup-evict_step p id j ms) (rw miss)
]

-- Every match is stored under its own id.
abbrev pub IsKeyed : Dict Match → Type 0
IsKeyed = All λ e. e.0 ≡ e.1.id

not-candidate : (k : String) (ms : Dict Match) → contains (candidates k ms) k ≡ false
unfolding candidates
not-candidate k [] = refl
not-candidate k ((i, m) ∷ ms) = ground (arith, not-candidate k ms)

candidate :
    (k j : String) (ms : Dict Match) {m : Match}
    → IsKeyed ms
    → str_eq j k ≡ false
    → lookup j ms ≡ some m
    → contains (candidates k ms) j ≡ true
unfolding candidates
candidate k j [] h n e = cc
candidate k j ((i, m) ∷ ms) {m = m'} h n e = elim (Bool-cases (str_eq i j)) [
  | inl hit ↦
      let same : m.id ≡ j = sym h.0 ∙ str_eq→eq i j hit in
      rw (same, candidates) (rw n (rw (str_eq_refl j)))
  | inr miss ↦
      let later : contains (candidates k ms) j ≡ true =
        candidate k j ms {m = m'} h.1 n (rw miss at e) in
      ground (arith, later)
]

-- An entry after the eviction, from the entry before it.
pub evict-lookup :
    (p except_id j : String) (m : MatchManager)
    → IsKeyed m.matches
    → lookup j (evict_player_from_other_matches p except_id m).matches ≡ (
        if str_eq j except_id
        then lookup j m.matches
        else and_then (lookup j m.matches) (evict_match p))
unfolding evict_player_from_other_matches
evict-lookup p except_id j m h =
    rw (lookup-evict_each p j (candidates except_id m.matches) m.matches)
      (elim (Bool-cases (str_eq j except_id)) [
        | inl same ↦
            rw
              (str_eq→eq j except_id same, not-candidate except_id m.matches, str_eq_refl except_id)
        | inr other ↦ rw other (go (lookup j m.matches) refl other)
      ])
  where
    go :
        (o : Option Match)
        → lookup j m.matches ≡ o
        → str_eq j except_id ≡ false
        → (if contains (candidates except_id m.matches) j
            then and_then (lookup j m.matches) (evict_match p)
            else lookup j m.matches)
          ≡ and_then (lookup j m.matches) (evict_match p)
    go none e n = rw e (ground arith)
    go (some a) e n = rw (candidate except_id j m.matches h n e)

-- In a registry keyed by match ids, after a player joins one match, no other match that is left
-- holds that player or a timer of theirs.
pub evict_frees :
    (p except_id j : String) (m : MatchManager) (match : Match)
    → IsKeyed m.matches
    → j ≢ except_id
    → lookup j (evict_player_from_other_matches p except_id m).matches ≡ some match
    → IsFree p match
evict_frees p except_id j m match h n e = elim (Bool-cases (str_eq j except_id)) [
  | inl same ↦ absurd (n (str_eq→eq j except_id same))
  | inr other ↦ go (lookup j m.matches) (rw other at (rw (evict-lookup p except_id j m h) at e))
]
  where
    go : (o : Option Match) → and_then o (evict_match p) ≡ some match → IsFree p match
    go none q = cc
    go (some a) q = evict_match-IsFree p a match q

-- In a registry keyed by match ids, the joined match, and every match without the player, is as it
-- was before the eviction.
pub evict_spares :
    (p except_id j : String) (m : MatchManager) (match : Match)
    → IsKeyed m.matches
    → lookup j m.matches ≡ some match
    → (j ≡ except_id) ⊎ IsFree p match
    → lookup j (evict_player_from_other_matches p except_id m).matches ≡ some match
evict_spares p except_id j m match h e c =
    rw (evict-lookup p except_id j m h) (go (Bool-cases (str_eq j except_id)) c)
  where
    go :
        (str_eq j except_id ≡ true) ⊎ (str_eq j except_id ≡ false)
        → (j ≡ except_id) ⊎ IsFree p match
        → (if str_eq j except_id
            then lookup j m.matches
            else and_then (lookup j m.matches) (evict_match p))
          ≡ some match
    go (inl same) d = rw same e
    go (inr other) (inl q) = absurd (str_ne j except_id other q)
    go (inr other) (inr f) = rw (other, e) (evict_match_free p match f)
