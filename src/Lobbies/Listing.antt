-- ===== src/Lobbies/Listing.antt =====
-- lobbies.go, `List`: the open lobbies, newest first.
use mathlib.Core.List.{Perm, perm_middle}
use mathlib.Core.List.Perm
use web_rts_nomads.Base.{
  ℕ, ◌≤◌, ◌≡◌, ◌⊎◌, refl, true, false, List, [], ◌∷◌, ◌++◌, Dict, All, arith, ltb, Bool-cases, inl,
  inr, ltb→lt,
}
use web_rts_nomads.Lobbies.{
  Lobby, LobbyManager, LobbyStatus, status_open, status_started, status_closed, is_open,
  insert_newest, sort_newest, open_lobbies, list,
}

abbrev pub NoNewerThan : ℕ → List Lobby → Type 0
NoNewerThan t = All λ l. l.created_at ≤ t

-- Each lobby is at least as new as all behind it.
abbrev pub IsNewestFirst : List Lobby → Type 0
IsNewestFirst [] = Unit {0}
IsNewestFirst (l ∷ ls) = NoNewerThan l.created_at ls × IsNewestFirst ls

NoNewerThan-mono : (s t : ℕ) (ls : List Lobby) → s ≤ t → NoNewerThan s ls → NoNewerThan t ls
NoNewerThan-mono s t [] h a = tt
NoNewerThan-mono s t (l ∷ ls) h a = (omega arith, NoNewerThan-mono s t ls h a.1)

NoNewerThan-insert :
    (t : ℕ) (l : Lobby) (ls : List Lobby)
    → l.created_at ≤ t
    → NoNewerThan t ls
    → NoNewerThan t (insert_newest l ls)
unfolding insert_newest
NoNewerThan-insert t l [] h a = (h, tt)
NoNewerThan-insert t l (x ∷ xs) h a = ground (arith, NoNewerThan-insert t l xs h a.1)

insert-IsNewestFirst :
    (l : Lobby) (ls : List Lobby) → IsNewestFirst ls → IsNewestFirst (insert_newest l ls)
unfolding insert_newest
insert-IsNewestFirst l [] s = (tt, tt)
insert-IsNewestFirst l (x ∷ xs) s = elim (Bool-cases (ltb l.created_at x.created_at)) [
  | inl lt ↦
      let older = ltb→lt _ _ lt in
      rw lt (NoNewerThan-insert x.created_at l xs (omega arith) s.0, insert-IsNewestFirst l xs s.1)
  | inr ge ↦
      let newer : x.created_at ≤ l.created_at = ground (arith, ge) in
      rw ge ((newer, NoNewerThan-mono x.created_at l.created_at xs newer s.0), s)
]

sort-IsNewestFirst : (ls : List Lobby) → IsNewestFirst (sort_newest ls)
unfolding sort_newest
sort-IsNewestFirst [] = tt
sort-IsNewestFirst (l ∷ ls) = insert-IsNewestFirst l (sort_newest ls) (sort-IsNewestFirst ls)

insert_newest-perm : (l : Lobby) (ls : List Lobby) → Perm (insert_newest l ls) (l ∷ ls)
unfolding insert_newest
insert_newest-perm l [] = Perm.refl (l ∷ [])
insert_newest-perm l (x ∷ xs) = elim (Bool-cases (ltb l.created_at x.created_at)) [
  | inl lt ↦ rw lt (Perm.trans (Perm.cons x (insert_newest-perm l xs)) (Perm.swap l x xs))
  | inr ge ↦ rw ge (Perm.refl (l ∷ x ∷ xs))
]

sort_newest-perm : (ls : List Lobby) → Perm (sort_newest ls) ls
unfolding sort_newest
sort_newest-perm [] = Perm.refl []
sort_newest-perm (l ∷ ls) =
    Perm.trans (insert_newest-perm l (sort_newest ls)) (Perm.cons l (sort_newest-perm ls))

-- Lobbies of which none is open.
abbrev pub NoneOpen : List Lobby → Type 0
NoneOpen = All λ l. ¬ (l.status ≡ status_open)

abbrev pub AllOpen : List Lobby → Type 0
AllOpen = All λ l. l.status ≡ status_open

-- Every stored lobby.
abbrev pub stored : Dict Lobby → List Lobby
stored [] = []
stored ((k, l) ∷ ls) = l ∷ stored ls

-- A choice of the lobbies that are open: they are, and the rest are not.
pub record Splits (ls chosen : List Lobby) : Type 0 where
  pub all_open : AllOpen chosen
  pub left_out : List Lobby
  pub none_open : NoneOpen left_out
  pub parts : Perm (chosen ++ left_out) ls

is_open-cases :
    (s : LobbyStatus)
    → ((is_open s ≡ true) × (s ≡ status_open)) ⊎ ((is_open s ≡ false) × (¬ (s ≡ status_open)))
is_open-cases status_open = inl (refl, refl)
is_open-cases status_started = inr (refl, λ e. cc)
is_open-cases status_closed = inr (refl, λ e. cc)

open_lobbies-Splits : (ls : Dict Lobby) → Splits (stored ls) (open_lobbies ls)
unfolding open_lobbies
open_lobbies-Splits [] = record {
  all_open = tt;
  left_out = [];
  none_open = tt;
  parts = Perm.refl [];
}
open_lobbies-Splits ((k, l) ∷ ls) =
    let rest = open_lobbies-Splits ls in
    elim (is_open-cases l.status) [
      | inl (yes_, open_) ↦ rw yes_ (record {
        all_open = (open_, rest.all_open);
        left_out = rest.left_out;
        none_open = rest.none_open;
        parts = Perm.cons l rest.parts;
      })
      | inr (no_, shut) ↦ rw no_ (record {
        all_open = rest.all_open;
        left_out = l ∷ rest.left_out;
        none_open = (shut, rest.none_open);
        parts = Perm.trans (perm_middle (open_lobbies ls) rest.left_out) (Perm.cons l rest.parts);
      })
    ]

AllOpen-insert :
    (l : Lobby) (ls : List Lobby)
    → l.status ≡ status_open
    → AllOpen ls
    → AllOpen (insert_newest l ls)
unfolding insert_newest
AllOpen-insert l [] h a = (h, tt)
AllOpen-insert l (x ∷ xs) h a = ground (arith, AllOpen-insert l xs h a.1)

AllOpen-sort : (ls : List Lobby) → AllOpen ls → AllOpen (sort_newest ls)
unfolding sort_newest
AllOpen-sort [] a = tt
AllOpen-sort (l ∷ ls) a = AllOpen-insert l (sort_newest ls) a.0 (AllOpen-sort ls a.1)

-- The listing is a choice among the manager's lobbies, each as often as it is stored: every listed
-- one is open, and every one left out is not; and no lobby stands before a newer one.
pub list_lem : (lm : LobbyManager) → IsNewestFirst (list lm) × Splits (stored lm.lobbies) (list lm)
unfolding list
list_lem lm =
    let open_ = open_lobbies-Splits lm.lobbies in
    let sorted = sort_newest-perm (open_lobbies lm.lobbies) in
    (
      sort-IsNewestFirst (open_lobbies lm.lobbies),
      record {
        all_open = AllOpen-sort (open_lobbies lm.lobbies) open_.all_open;
        left_out = open_.left_out;
        none_open = open_.none_open;
        parts = Perm.trans (Perm.append_right open_.left_out sorted) open_.parts;
      },
    )
