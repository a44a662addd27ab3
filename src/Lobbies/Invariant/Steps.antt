-- ===== src/Lobbies/Invariant/Steps.antt =====
-- lobbies.go: the invariant over any sequence of requests.
use web_rts_nomads.Base.{
  ℕ, ◌≤◌, ◌≡◌, refl, sym, ◌∙◌, String, false, Option, none, some, List, [], ◌∷◌, Dict, lookup,
  insert, arith, Bool-cases, Option-cases, inl, inr, All-lookup, All-insert, str_eq_refl, ltb,
}
use web_rts_nomads.Matches.{MatchManager, new_match_locked}
use web_rts_nomads.Lobbies.{
  Lobby, LobbyManager, status_started, Result, ok, err, LobbyError, MapEntry, new_lobby, create,
  generate_id, count_spawn_points, update_lobby, join, leave, start, start_refused, join_lobby,
  leave_lobby, cleanup_stale, drop_stale,
}
use web_rts_nomads.Lobbies.Invariant.{
  LobbyIsValid, EntryIsValid, IsValid, Request, creates, joins, leaves, starts, cleans, Server,
  step, run,
}
use web_rts_nomads.Lobbies.Invariant.Players.{
  join_lobby-IsValid, leave_lobby_inv, leave_lobby-IsValid,
}

drop_stale-IsValid : (now : ℕ) (ls : Dict Lobby) → IsValid ls → IsValid (drop_stale now ls)
unfolding drop_stale
drop_stale-IsValid now [] h = h
drop_stale-IsValid now ((k, l) ∷ ls) h = ground (arith, drop_stale-IsValid now ls h.1)

-- An update that keeps the id and the lobby's own validity keeps the manager's.
update_lobby-IsValid :
    (f : Lobby → Result Lobby) (id : String) (lm : LobbyManager)
    → ((l l' : Lobby) → f l ≡ ok l' → LobbyIsValid l → (l'.id ≡ l.id) × LobbyIsValid l')
    → IsValid lm.lobbies
    → IsValid (update_lobby f id lm).0.lobbies
unfolding update_lobby
update_lobby-IsValid f id lm keep h = elim (Option-cases (lookup id lm.lobbies)) [
  | inl e ↦ rw (e, update_lobby) h
  | inr (l, e) ↦ go l e (f l) refl
]
  where
    go :
        (l : Lobby)
        → lookup id lm.lobbies ≡ some l
        → (r : Result Lobby) → f l ≡ r
        → IsValid (update_lobby f id lm).0.lobbies
    go l e (err x) q = rw (e, update_lobby) (rw q h)
    go l e (ok l') q =
        let (key, valid) = All-lookup EntryIsValid id l lm.lobbies h e in
        let (same, valid') = keep l l' q valid in
        rw (e, update_lobby)
          (rw q (All-insert EntryIsValid id l' lm.lobbies h (key ∙ sym same, valid')))

-- Neither a join nor a leave touches the id.
join_lobby-keeps :
    (now : ℕ) (p : String) (l l' : Lobby)
    → join_lobby now p l ≡ ok l'
    → LobbyIsValid l
    → (l'.id ≡ l.id) × LobbyIsValid l'
join_lobby-keeps now p l l' e v = (join_lobby-id now p l e, join_lobby-IsValid now p l v e)
  where
    join_lobby-id :
        (now : ℕ) (p : String) (l : Lobby) {l' : Lobby} → join_lobby now p l ≡ ok l' → l'.id ≡ l.id
    join_lobby-id now p l e = unfold join_lobby in ground arith

leave_lobby-keeps :
    (now : ℕ) (p : String) (l l' : Lobby)
    → leave_lobby now p l ≡ ok l'
    → LobbyIsValid l
    → (l'.id ≡ l.id) × LobbyIsValid l'
leave_lobby-keeps now p l l' e v =
    (ground (arith, leave_lobby_inv now p l e), leave_lobby-IsValid now p l v e)

new_lobby-IsValid :
    (id map_id name host : String) (n now : ℕ)
    → 1 ≤ n
    → LobbyIsValid (new_lobby id map_id name host n now)
new_lobby-IsValid id map_id name host n now h = record {
  distinct = (refl, tt);
  fits = omega arith;
  hosted = λ _. rw (str_eq_refl host);
  unmatched = λ _. refl;
}

create-IsValid :
    (catalog : String → Option MapEntry) (rand : ℕ → Option (List ℕ)) (now : ℕ) (seen : Dict Lobby)
    (map_id host : String) (lm : LobbyManager)
    → IsValid lm.lobbies
    → IsValid (create catalog rand now seen map_id host lm).0.lobbies
unfolding create
create-IsValid catalog rand now seen map_id host lm h = go (catalog map_id) refl
  where
    drawn :
        (entry : MapEntry)
        → ltb (count_spawn_points entry.building_types) 1 ≡ false
        → (r : Result String)
        → IsValid
            (elim r as (λ _. LobbyManager × Result Lobby) [
              | err e ↦ (lm, err e)
              | ok id ↦
                  let l =
                    new_lobby id map_id entry.name host
                      (count_spawn_points entry.building_types)
                      now in
                  (record { lobbies = insert id l lm.lobbies }, ok l)
            ]).0.lobbies
    drawn entry n (err e) = h
    drawn entry n (ok id) =
        All-insert EntryIsValid id _ lm.lobbies h
          (refl, new_lobby-IsValid id map_id entry.name host _ now (ground (arith, n)))

    go :
        (o : Option MapEntry)
        → catalog map_id ≡ o
        → IsValid (create catalog rand now seen map_id host lm).0.lobbies
    go none e = rw (e, create) h
    go (some entry) e = elim (Bool-cases (ltb (count_spawn_points entry.building_types) 1)) [
      | inl few ↦ rw (e, create) (rw few h)
      | inr n ↦ rw (e, create) (rw n (drawn entry n (generate_id rand seen)))
    ]

start-IsValid :
    (resolve_map : String → String) (now : ℕ) (id caller : String) (lm : LobbyManager)
    (mm : MatchManager)
    → IsValid lm.lobbies
    → IsValid (start resolve_map now id caller lm mm).0.lobbies
unfolding start
start-IsValid resolve_map now id caller lm mm h = go (lookup id lm.lobbies) refl
  where
    started :
        (l : Lobby) (o : Option LobbyError)
        → EntryIsValid (id, l)
        → IsValid
            (elim o as (λ _. LobbyManager × MatchManager × Result Lobby) [
              | some e ↦ (lm, mm, err e)
              | none ↦
                  let (match, mm') = new_match_locked resolve_map l.map_id mm in
                  let l' = record l {
                    match_id = match.id;
                    status = status_started;
                    last_activity = now;
                  } in
                  (record { lobbies = insert id l' lm.lobbies }, mm', ok l')
            ]).0.lobbies
    started l (some e) v = h
    started l none (key, v) = All-insert EntryIsValid id _ lm.lobbies h (
      key,
      record { distinct = v.distinct; fits = v.fits; hosted = λ q. cc; unmatched = λ q. cc },
    )

    go :
        (o : Option Lobby)
        → lookup id lm.lobbies ≡ o
        → IsValid (start resolve_map now id caller lm mm).0.lobbies
    go none e = rw (e, start) h
    go (some l) e =
        rw (e, start)
          (started l (start_refused caller l) (All-lookup EntryIsValid id l lm.lobbies h e))

module _ (catalog : String → Option MapEntry) (resolve_map : String → String) where
  step-IsValid :
      (s : Server) (r : Request)
      → IsValid s.lobby_manager.lobbies
      → IsValid (step catalog resolve_map s r).lobby_manager.lobbies
  unfolding step join leave cleanup_stale
  step-IsValid s (creates now rand seen map_id host) h =
      create-IsValid catalog rand now seen map_id host s.lobby_manager h
  step-IsValid s (joins now id p) h =
      update_lobby-IsValid (join_lobby now p) id s.lobby_manager (join_lobby-keeps now p) h
  step-IsValid s (leaves now id p) h =
      update_lobby-IsValid (leave_lobby now p) id s.lobby_manager (leave_lobby-keeps now p) h
  step-IsValid s (starts now id p) h =
      start-IsValid resolve_map now id p s.lobby_manager s.match_manager h
  step-IsValid s (cleans now) h = drop_stale-IsValid now s.lobby_manager.lobbies h

  -- Whatever requests come, in whatever order: every lobby is stored under its own id, has each
  -- player once and no more of them than spawn points, and while it is open its host is among them
  -- and it has no match.
  pub run-IsValid :
      (s : Server) (rs : List Request)
      → IsValid s.lobby_manager.lobbies
      → IsValid (run catalog resolve_map s rs).lobby_manager.lobbies
  unfolding run
  run-IsValid s [] h = h
  run-IsValid s (r ∷ rs) h = run-IsValid (step catalog resolve_map s r) rs (step-IsValid s r h)
