-- ===== src/Lobbies/Invariant.antt =====
-- lobbies.go: what every lobby satisfies between two requests, and requests as steps of one state.
pub mod Players
pub mod Steps
use web_rts_nomads.Base.{
  ℕ, ◌≤◌, ◌≡◌, String, Bool, true, false, Option, List, [], ◌∷◌, Dict, All, contains, length,
}
use web_rts_nomads.Matches.{MatchManager}
use web_rts_nomads.Lobbies.{
  Lobby, LobbyManager, LobbyStatus, status_open, MapEntry, create, join, leave, start,
  cleanup_stale,
}

abbrev pub Distinct : List String → Type 0
Distinct [] = Unit {0}
Distinct (x ∷ xs) = (contains xs x ≡ false) × Distinct xs

pub record LobbyIsValid (l : Lobby) : Type 0 where
  pub distinct : Distinct l.players
  pub fits : length l.players ≤ l.max_players
  pub hosted : l.status ≡ status_open → contains l.players l.host_player_id ≡ true
  pub unmatched : l.status ≡ status_open → l.match_id ≡ ""

abbrev pub EntryIsValid : String × Lobby → Type 0
EntryIsValid e = (e.0 ≡ e.1.id) × LobbyIsValid e.1

abbrev pub IsValid : Dict Lobby → Type 0
IsValid = All EntryIsValid

-- What the HTTP routes and the cleanup timer may ask for.
pub data Request : Type 0 where
  creates : ℕ → (ℕ → Option (List ℕ)) → Dict Lobby → String → String → Request
  joins leaves starts : ℕ → String → String → Request
  cleans : ℕ → Request

pub record Server : Type 0 where
  pub lobby_manager : LobbyManager
  pub match_manager : MatchManager

module _ (catalog : String → Option MapEntry) (resolve_map : String → String) where
  unfoldable pub step : Server → Request → Server
  step s (creates now rand seen map_id host) = record s {
    lobby_manager = (create catalog rand now seen map_id host s.lobby_manager).0;
  }
  step s (joins now id p) = record s { lobby_manager = (join now id p s.lobby_manager).0 }
  step s (leaves now id p) = record s { lobby_manager = (leave now id p s.lobby_manager).0 }
  step s (starts now id p) =
      let (lm, mm, _) = start resolve_map now id p s.lobby_manager s.match_manager in
      record { lobby_manager = lm; match_manager = mm }
  step s (cleans now) = record s { lobby_manager = cleanup_stale now s.lobby_manager }

  unfoldable pub run : Server → List Request → Server
  run s [] = s
  run s (r ∷ rs) = run (step s r) rs
