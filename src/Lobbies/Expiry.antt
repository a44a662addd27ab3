-- ===== src/Lobbies/Expiry.antt =====
-- lobbies.go: what a request leaves behind. The cleanup, and the outcomes of `Join` and `Start`.
use web_rts_nomads.Base.{
  ℕ, ◌+◌, ◌≡◌, refl, String, true, false, sym, subst, lookup-insert, Option, none, some, [], ◌∷◌,
  ◌++◌, Dict, lookup, insert, contains, length, if◌then◌else◌, arith, str_eq, str_eq_refl, Unique,
  ◌≤◌, str_eq_iff, length-append, ltb, max,
}
use web_rts_nomads.Matches.{Match, MatchManager, new_match, new_match_locked}
use web_rts_nomads.Lobbies.{
  Lobby, LobbyManager, LobbyStatus, status_open, status_started, status_closed, ok, join_lobby,
  update_lobby, join, start, start_refused, is_stale, drop_stale, cleanup_stale,
}
use web_rts_nomads.Lobbies.Invariant.Players.{contains-snoc}

lookup-drop_stale_missing :
    (now : ℕ) (k : String) (ls : Dict Lobby)
    → lookup k ls ≡ none
    → lookup k (drop_stale now ls) ≡ none
unfolding drop_stale
lookup-drop_stale_missing now k [] h = refl
lookup-drop_stale_missing now k ((j, l) ∷ ls) h = ground (arith, lookup-drop_stale_missing now k ls)

-- The idle time after which a lobby is dropped.
abbrev pub idle_limit : LobbyStatus → ℕ
idle_limit status_closed = 30000
idle_limit status_started = 60000
idle_limit status_open = 300000

abbrev pub survivor : ℕ → Option Lobby → Option Lobby
survivor now none = none
survivor now (some l) = if is_stale now l then none else some l

lookup-drop_stale :
    (now : ℕ) (k : String) (ls : Dict Lobby)
    → Unique ls
    → lookup k (drop_stale now ls) ≡ survivor now (lookup k ls)
unfolding drop_stale
lookup-drop_stale now k [] u = refl
lookup-drop_stale now k ((j, l) ∷ ls) u =
    ground (
      arith,
      lookup-drop_stale now k ls u.1,
      lookup-drop_stale_missing now j ls u.0,
      str_eq_iff j k,
    )

-- Where ids are unique, a lobby is dropped exactly when it has been idle for longer than its status
-- allows, and the others stay as they were.
pub lookup-cleanup_stale :
    (now : ℕ) (k : String) (lm : LobbyManager)
    → Unique lm.lobbies
    → lookup k (cleanup_stale now lm).lobbies ≡ (elim (lookup k lm.lobbies) [
      | none ↦ none
      | some l ↦ if ltb (idle_limit l.status + l.last_activity) now then none else some l
    ])
unfolding cleanup_stale is_stale
lookup-cleanup_stale now k lm u = rw (lookup-drop_stale now k lm.lobbies u) (ground arith)

-- A join succeeds only in an open lobby. It leaves the joiner among the players, adds nobody who
-- was there before, and makes the lobby no larger than its number of spawn points, where it was
-- not.
pub join_admits :
    (now : ℕ) (id p : String) (lm : LobbyManager) (l l' : Lobby)
    → lookup id lm.lobbies ≡ some l
    → (join now id p lm).1 ≡ ok l'
    → (l.status ≡ status_open)
      × (contains l'.players p ≡ true)
      × (length l'.players ≤ max l.max_players (length l.players))
      × (l'.players ≡ (if contains l.players p then l.players else l.players ++ p ∷ []))
      × ((join now id p lm).0.lobbies ≡ insert id l' lm.lobbies)
unfolding join update_lobby join_lobby
join_admits now id p lm l l' e h =
    ground (arith, contains-snoc l.players p p, str_eq_refl p, length-append l.players (p ∷ []))

-- A new match is registered under its id, and the others are as they were.
lookup-new_match_locked :
    (resolve_map : String → String) (map_id k : String) (mm : MatchManager)
    → lookup k (new_match_locked resolve_map map_id mm).1.matches ≡ (
        if str_eq (new_match_locked resolve_map map_id mm).0.id k
        then some (new_match_locked resolve_map map_id mm).0
        else lookup k mm.matches)
unfolding new_match_locked
lookup-new_match_locked resolve_map map_id k mm =
    let (match, after) = new_match_locked resolve_map map_id mm in
    lookup-insert match.id k match mm.matches

-- The match of a lobby that was started: it is of the lobby's map and runs, and is
-- registered under its id and nothing else changes in the registry but the next number.
pub record Opens (resolve_map : String → String) (l l' : Lobby) (before after : MatchManager)
    : Type 0 where
  pub match : Match
  pub named : l'.match_id ≡ match.id
  pub of_map : match.map_id ≡ resolve_map l.map_id
  pub runs : match.game_over ≡ false
  pub registered :
      (k : String)
      → lookup k after.matches ≡ (if str_eq match.id k then some match else lookup k before.matches)
  pub numbered : after.next_id ≡ before.next_id + 1

new_match_locked-Opens :
    (resolve_map : String → String) (l l' : Lobby) (mm : MatchManager)
    → l'.match_id ≡ (new_match_locked resolve_map l.map_id mm).0.id
    → Opens resolve_map l l' mm (new_match_locked resolve_map l.map_id mm).1
unfolding new_match_locked new_match
new_match_locked-Opens resolve_map l l' mm e = record {
  match = (new_match_locked resolve_map l.map_id mm).0;
  named = e;
  of_map = refl;
  runs = refl;
  registered = λ k. lookup-new_match_locked resolve_map l.map_id k mm;
  numbered = refl;
}

-- What `Start` writes, in terms of the manager's new match.
start-writes :
    (resolve_map : String → String) (now : ℕ) (id caller : String) (lm : LobbyManager)
    (mm : MatchManager) (l l' : Lobby)
    → lookup id lm.lobbies ≡ some l
    → (start resolve_map now id caller lm mm).2 ≡ ok l'
    → ((start resolve_map now id caller lm mm).1 ≡ (new_match_locked resolve_map l.map_id mm).1)
      × (l'.match_id ≡ (new_match_locked resolve_map l.map_id mm).0.id)
unfolding start start_refused
start-writes resolve_map now id caller lm mm l l' e h =
    ground (arith, str_eq_iff caller l.host_player_id)

-- A start that succeeds was asked for by the host of an open lobby, which is then started. It
-- registers one match that is not over, of the map that the lobby's resolves to, under the id that
-- the lobby records, leaves what is registered under other ids, and counts the next number up.
pub start_starts :
    (resolve_map : String → String) (now : ℕ) (id caller : String) (lm : LobbyManager)
    (mm : MatchManager) (l l' : Lobby)
    → lookup id lm.lobbies ≡ some l
    → (start resolve_map now id caller lm mm).2 ≡ ok l'
    → (caller ≡ l.host_player_id)
      × (l.status ≡ status_open)
      × (l'.status ≡ status_started)
      × ((start resolve_map now id caller lm mm).0.lobbies ≡ insert id l' lm.lobbies)
      × Opens resolve_map l l' mm (start resolve_map now id caller lm mm).1
unfolding start start_refused
start_starts resolve_map now id caller lm mm l l' e h =
    let (registry, named) = start-writes resolve_map now id caller lm mm l l' e h in
    let opens =
      subst (Opens resolve_map l l' mm) (sym registry)
        (new_match_locked-Opens resolve_map l l' mm named) in
    let (host, open_, started, stored) = changes in (host, open_, started, stored, opens)
  where
    changes :
        (caller ≡ l.host_player_id)
        × (l.status ≡ status_open)
        × (l'.status ≡ status_started)
        × ((start resolve_map now id caller lm mm).0.lobbies ≡ insert id l' lm.lobbies)
    changes = ground (arith, str_eq_iff caller l.host_player_id)
