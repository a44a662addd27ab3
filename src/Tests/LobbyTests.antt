-- ===== src/Tests/LobbyTests.antt =====
-- Lobbies: a lobby is created and joined, started, listed and dropped.
use web_rts_nomads.Base.{
  ℕ, ◌+◌, ◌≡◌, refl, String, Option, none, some, List, [], ◌∷◌, ◌++◌, lookup, insert, contains,
  length, ◌≤◌, max, if◌then◌else◌, ltb, true,
}
use web_rts_nomads.Matches.{MatchManager, new_match_locked}
use web_rts_nomads.Lobbies.{
  Lobby, LobbyManager, MapEntry, ok, err, status_open, status_started, not_host, new_lobby, join,
  start, cleanup_stale, list, start_refused, join_lobby, update_lobby,
}
use web_rts_nomads.Lobbies.Invariant.{
  Request, creates, joins, leaves, starts, cleans, Server, IsValid, run,
}
use web_rts_nomads.Lobbies.Invariant.Steps.{run-IsValid}
use web_rts_nomads.Lobbies.Listing.{IsNewestFirst, stored, Splits, list_lem}
use web_rts_nomads.Lobbies.Expiry.{
  idle_limit, lookup-cleanup_stale, join_admits, Opens, start_starts,
}

abbrev catalog : String → Option MapEntry
catalog id =
    some (record {
      name = "Crossing";
      building_types = "spawn-point" ∷ "townhall" ∷ "spawn-point" ∷ [];
    })

abbrev resolve : String → String
resolve id = id

abbrev bytes : ℕ → Option (List ℕ)
bytes i = some (0 ∷ 1 ∷ 2 ∷ 3 ∷ 4 ∷ 5 ∷ [])

abbrev idle_server : Server
idle_server = record {
  lobby_manager = record { lobbies = [] };
  match_manager = record { matches = []; next_id = 1 };
}

abbrev evening : List Request
evening =
    creates 1000 bytes [] "crossing" "alice"
    ∷ joins 2000 "lob-ABCDEF" "bob"
    ∷ joins 2500 "lob-ABCDEF" "carol"
    ∷ starts 3000 "lob-ABCDEF" "alice"
    ∷ leaves 4000 "lob-ABCDEF" "bob"
    ∷ cleans 90000
    ∷ []

run-IsValid_example : IsValid (run catalog resolve idle_server evening).lobby_manager.lobbies
run-IsValid_example = run-IsValid catalog resolve idle_server evening tt

abbrev waiting : Lobby
waiting = new_lobby "lob-ABCDEF" "crossing" "Crossing" "alice" 2 1000

abbrev one_lobby : LobbyManager
one_lobby = record { lobbies = ("lob-ABCDEF", waiting) ∷ [] }

lookup-cleanup_stale_example :
    lookup "lob-ABCDEF" (cleanup_stale 400000 one_lobby).lobbies
    ≡ (elim (lookup "lob-ABCDEF" one_lobby.lobbies) [
      | none ↦ none
      | some l ↦ if ltb (idle_limit l.status + l.last_activity) 400000 then none else some l
    ])
lookup-cleanup_stale_example = lookup-cleanup_stale 400000 "lob-ABCDEF" one_lobby (refl, tt)

abbrev joined : Lobby
joined = record waiting { players = "alice" ∷ "bob" ∷ []; last_activity = 2000 }

bob_joins : (join 2000 "lob-ABCDEF" "bob" one_lobby).1 ≡ ok joined
unfolding join update_lobby join_lobby
bob_joins = refl

join_admits_example :
    (waiting.status ≡ status_open)
    × (contains joined.players "bob" ≡ true)
    × (length joined.players ≤ max waiting.max_players (length waiting.players))
    × (joined.players ≡ (
        if contains waiting.players "bob" then waiting.players else waiting.players ++ "bob" ∷ []))
    × ((join 2000 "lob-ABCDEF" "bob" one_lobby).0.lobbies
        ≡ insert "lob-ABCDEF" joined one_lobby.lobbies)
join_admits_example = join_admits 2000 "lob-ABCDEF" "bob" one_lobby waiting joined refl bob_joins

abbrev no_matches : MatchManager
no_matches = record { matches = []; next_id = 1 }

abbrev started : Lobby
started = record waiting {
  match_id = (new_match_locked resolve "crossing" no_matches).0.id;
  status = status_started;
  last_activity = 3000;
}

alice_starts : (start resolve 3000 "lob-ABCDEF" "alice" one_lobby no_matches).2 ≡ ok started
unfolding start start_refused
alice_starts = refl

start_starts_example :
    ("alice" ≡ waiting.host_player_id)
    × (waiting.status ≡ status_open)
    × (started.status ≡ status_started)
    × ((start resolve 3000 "lob-ABCDEF" "alice" one_lobby no_matches).0.lobbies
        ≡ insert "lob-ABCDEF" started one_lobby.lobbies)
    × Opens resolve waiting started no_matches
        (start resolve 3000 "lob-ABCDEF" "alice" one_lobby no_matches).1
start_starts_example =
    start_starts resolve 3000 "lob-ABCDEF" "alice" one_lobby no_matches waiting started refl
      alice_starts

bob_may_not_start : (start resolve 3000 "lob-ABCDEF" "bob" one_lobby no_matches).2 ≡ err not_host
unfolding start start_refused
bob_may_not_start = refl

-- An open lobby and a started one.
abbrev two_lobbies : LobbyManager
two_lobbies = record {
  lobbies = ("lob-STARTD", record started { id = "lob-STARTD" }) ∷ ("lob-ABCDEF", waiting) ∷ [];
}

list_lem_example :
    IsNewestFirst (list two_lobbies) × Splits (stored two_lobbies.lobbies) (list two_lobbies)
list_lem_example = list_lem two_lobbies
