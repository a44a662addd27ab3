-- ===== src/Lobbies/Invariant/Players.antt =====
-- lobbies.go: the player list of a lobby, under a join and under a leave.
use web_rts_nomads.Base.{
  ℕ, suc, ◌+◌, ◌≤◌, ◌≡◌, refl, String, false, ◌||◌, Option, none, some, List, [], ◌∷◌, ◌++◌,
  contains, remove_at, length, length-append, str_eq, if◌then◌else◌, arith, Bool-cases, inl, inr,
  str_eq_iff,
}
use web_rts_nomads.Lobbies.{Lobby, status_closed, ok, join_lobby, leave_lobby, index_from}
use web_rts_nomads.Lobbies.Invariant.{Distinct, LobbyIsValid}

pub contains-snoc :
    (xs : List String) (a b : String) → contains (xs ++ a ∷ []) b ≡ (contains xs b || str_eq a b)
contains-snoc [] a b = ground arith
contains-snoc (x ∷ xs) a b = ground (arith, contains-snoc xs a b)

Distinct-snoc :
    (xs : List String) (a : String) → contains xs a ≡ false → Distinct xs → Distinct (xs ++ a ∷ [])
Distinct-snoc [] a n d = (refl, tt)
Distinct-snoc (x ∷ xs) a n d =
    ground (arith, contains-snoc xs a x, Distinct-snoc xs a, str_eq_iff a x, str_eq_iff x a)

-- The list without the first occurrence.
pub remove_first : String → List String → List String
remove_first p [] = []
remove_first p (x ∷ xs) = if str_eq x p then xs else x ∷ remove_first p xs

pub index_from-removes :
    (i : ℕ) (p : String) (xs : List String) {j : ℕ}
    → index_from i p xs ≡ some j
    → (k : ℕ) × (j ≡ i + k) × (remove_at k xs ≡ remove_first p xs)
unfolding index_from remove_first
index_from-removes i p [] h = cc
index_from-removes i p (x ∷ xs) h = elim (Bool-cases (str_eq x p)) [
  | inl hit ↦ (0, ground (arith, hit), rw hit)
  | inr miss ↦
      let (k, e, r) = index_from-removes (suc i) p xs (rw miss at h) in
      (suc k, omega arith, rw (miss, r))
]

pub contains-remove_first_other :
    (p h : String) (xs : List String)
    → str_eq p h ≡ false
    → contains (remove_first p xs) h ≡ contains xs h
unfolding remove_first
contains-remove_first_other p h [] n = refl
contains-remove_first_other p h (x ∷ xs) n =
    ground
      (arith, contains-remove_first_other p h xs n, str_eq_iff x p, str_eq_iff x h, str_eq_iff p h)

pub Distinct-remove_first :
    (p : String) (xs : List String) → Distinct xs → Distinct (remove_first p xs)
unfolding remove_first
Distinct-remove_first p [] d = d
Distinct-remove_first p (x ∷ xs) d = ground (
  arith,
  Distinct-remove_first p xs,
  contains-remove_first_other p x xs,
  str_eq_iff p x,
  str_eq_iff x p,
)

pub contains-remove_first_self :
    (p : String) (xs : List String) → Distinct xs → contains (remove_first p xs) p ≡ false
unfolding remove_first
contains-remove_first_self p [] d = refl
contains-remove_first_self p (x ∷ xs) d =
    ground (arith, contains-remove_first_self p xs, str_eq_iff x p)

length-remove_first-le : (p : String) (xs : List String) → length (remove_first p xs) ≤ length xs
unfolding remove_first
length-remove_first-le p [] = omega arith
length-remove_first-le p (x ∷ xs) = ground (arith, length-remove_first-le p xs)

pub join_lobby-IsValid :
    (now : ℕ) (p : String) (l : Lobby) {l' : Lobby}
    → LobbyIsValid l
    → join_lobby now p l ≡ ok l'
    → LobbyIsValid l'
unfolding join_lobby
join_lobby-IsValid now p l v e = ground (
  arith,
  v.hosted,
  Distinct-snoc l.players p,
  length-append l.players (p ∷ []),
  contains-snoc l.players p l.host_player_id,
)

-- A leave takes the leaver out and closes the lobby if that was the host.
pub leave_lobby_inv :
    (now : ℕ) (p : String) (l : Lobby) {l' : Lobby}
    → leave_lobby now p l ≡ ok l'
    → l' ≡ record l {
      players = remove_first p l.players;
      last_activity = now;
      status = if str_eq p l.host_player_id then status_closed else l.status;
    }
unfolding leave_lobby
leave_lobby_inv now p l {l' = l'} e = go (index_from 0 p l.players) refl e
  where
    at_k : {i : ℕ} (k : ℕ) → i ≡ 0 + k → i ≡ k
    at_k k same = omega arith

    go :
        (o : Option ℕ)
        → index_from 0 p l.players ≡ o
        → leave_lobby now p l ≡ ok l'
        → l' ≡ record l {
          players = remove_first p l.players;
          last_activity = now;
          status = if str_eq p l.host_player_id then status_closed else l.status;
        }
    go none q h = cc (rw (q, leave_lobby) at h)
    go (some i) q h =
        let (k, same, r) = index_from-removes 0 p l.players q in
        let removed : remove_at i l.players ≡ remove_first p l.players = rw (at_k k same) r in
        ground (arith, q, removed)

pub leave_lobby-IsValid :
    (now : ℕ) (p : String) (l : Lobby) {l' : Lobby}
    → LobbyIsValid l
    → leave_lobby now p l ≡ ok l'
    → LobbyIsValid l'
leave_lobby-IsValid now p l v e = rw (leave_lobby_inv now p l e) (
    ground (
      arith,
      v.hosted,
      v.unmatched,
      Distinct-remove_first p l.players v.distinct,
      length-remove_first-le p l.players,
      contains-remove_first_other p l.host_player_id l.players,
    ))
