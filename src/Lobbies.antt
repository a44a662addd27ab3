-- ===== src/Lobbies.antt =====
-- server/internal/game/lobbies.go: the lobbies in which players gather before a match. Every method
-- runs under one mutex, so it is a function on the manager; the clock and the random bytes are
-- arguments. A returned `shallowCopy` is a value here, as every record is.
pub mod Invariant
pub mod Listing
pub mod Expiry
use web_rts_nomads.Base.{
  ℕ, suc, zero, ◌+◌, ◌-◌, ◌%◌, String, Bool, true, false, not, Option, none, some, List, [], ◌∷◌,
  ◌++◌, Dict, lookup, insert, delete, str_eq, contains, keep_if, remove_at, length, ltb, leb, ◌==◌,
  if◌then◌else◌,
}
use Prim.Native.String.{◌++◌ as str_append}
use web_rts_nomads.Matches.{MatchManager, new_match_locked}

pub data LobbyStatus : Type 0 where
  status_open status_started status_closed : LobbyStatus

-- Times are Unix milliseconds, which are not negative.
pub record Lobby : Type 0 where
  pub id : String
  pub map_id : String
  pub map_name : String
  pub host_player_id : String
  pub players : List String
  pub max_players : ℕ
  pub created_at : ℕ
  pub last_activity : ℕ
  pub status : LobbyStatus
  pub match_id : String

-- `map_not_found`, `no_spawn_points`, `rand_failed`, `no_unique_id` and `player_not_in_lobby` are the
-- errors that the source formats in place.
pub data LobbyError : Type 0 where
  lobby_not_found lobby_already_started lobby_closed lobby_full not_host : LobbyError
  rand_failed no_unique_id : LobbyError
  map_not_found no_spawn_points player_not_in_lobby : String → LobbyError

pub data Result {ℓ} (A : Type ℓ) : Type ℓ where
  ok : A → Result A
  err : LobbyError → Result A

pub record LobbyManager : Type 0 where
  pub lobbies : Dict Lobby

-- The part of a map catalogue entry that a lobby reads: its name, and the types of its buildings.
pub record MapEntry : Type 0 where
  pub name : String
  pub building_types : List String

abbrev pub lobby_id_alphabet : List String
lobby_id_alphabet =
    "A" ∷ "B" ∷ "C" ∷ "D" ∷ "E" ∷ "F" ∷ "G" ∷ "H" ∷ "I" ∷ "J" ∷ "K" ∷ "L" ∷ "M" ∷ "N" ∷ "O" ∷ "P"
    ∷ "Q" ∷ "R" ∷ "S" ∷ "T" ∷ "U" ∷ "V" ∷ "W" ∷ "X" ∷ "Y" ∷ "Z" ∷ "0" ∷ "1" ∷ "2" ∷ "3" ∷ "4" ∷ "5"
    ∷ "6" ∷ "7" ∷ "8" ∷ "9" ∷ []

-- `lobbyIDAlphabet[i]`.
char_at : ℕ → List String → String
char_at i [] = ""
char_at zero (c ∷ cs) = c
char_at (suc i) (c ∷ cs) = char_at i cs

unfoldable pub chars : List ℕ → String
unfolding char_at
chars [] = ""
chars (b ∷ bs) = str_append (char_at (b % 36) lobby_id_alphabet) (chars bs)

-- `rand i` is what the i-th `rand.Read` delivers, six bytes or an error.
pub generate_id_loop : ℕ → ℕ → (ℕ → Option (List ℕ)) → Dict Lobby → Result String
unfolding chars
generate_id_loop zero i rand lobbies = err no_unique_id
generate_id_loop (suc n) i rand lobbies =
    let again = generate_id_loop n (suc i) rand lobbies in
    elim (rand i) [
      | none ↦ err rand_failed
      | some buf ↦
          let id = str_append "lob-" (chars buf) in
          elim (lookup id lobbies) [ none ↦ ok id | some _ ↦ again ]
    ]

unfoldable pub generate_id : (ℕ → Option (List ℕ)) → Dict Lobby → Result String
unfolding generate_id_loop
generate_id rand lobbies = generate_id_loop 10 0 rand lobbies

pub count_spawn_points : List String → ℕ
count_spawn_points [] = 0
count_spawn_points (b ∷ bs) =
    let rest = count_spawn_points bs in if str_eq b "spawn-point" then suc rest else rest

abbrev pub new_lobby : String → String → String → String → ℕ → ℕ → Lobby
new_lobby id map_id map_name host max_players now = record {
  id = id;
  map_id = map_id;
  map_name = map_name;
  host_player_id = host;
  players = host ∷ [];
  max_players = max_players;
  created_at = now;
  last_activity = now;
  status = status_open;
  match_id = "";
}

-- The id is drawn against `seen`, the lobbies as `generateID` reads them before the lock is taken;
-- the lobby is put into the manager's lobbies as they are then.
unfoldable pub create :
    (String → Option MapEntry)
    → (ℕ → Option (List ℕ))
    → ℕ
    → Dict Lobby
    → String
    → String
    → LobbyManager
    → LobbyManager × Result Lobby
create catalog rand now seen map_id host lm = elim (catalog map_id) [
  | none ↦ (lm, err (map_not_found map_id))
  | some entry ↦
      let max_players = count_spawn_points entry.building_types in
      if ltb max_players 1
      then (lm, err (no_spawn_points map_id))
      else elim (generate_id rand seen) [
        | err e ↦ (lm, err e)
        | ok id ↦
            let lobby = new_lobby id map_id entry.name host max_players now in
            (record { lobbies = insert id lobby lm.lobbies }, ok lobby)
      ]
]

unfoldable pub get : String → LobbyManager → Option Lobby
get id lm = lookup id lm.lobbies

pub find_by_match_id : String → Dict Lobby → Option Lobby
find_by_match_id match_id [] = none
find_by_match_id match_id ((k, l) ∷ rest) =
    if str_eq l.match_id match_id then some l else find_by_match_id match_id rest

-- The lobby that `Join` leaves under the id, or the error.
unfoldable pub join_lobby : ℕ → String → Lobby → Result Lobby
join_lobby now player_id l = elim l.status [
  | status_started ↦ err lobby_already_started
  | status_closed ↦ err lobby_closed
  | status_open ↦
      if contains l.players player_id
      then ok (record l { last_activity = now })
      else if leb l.max_players (length l.players)
      then err lobby_full
      else ok (record l { players = l.players ++ player_id ∷ []; last_activity = now })
]

-- The first occurrence, counted from the argument.
pub index_from : ℕ → String → List String → Option ℕ
index_from i p [] = none
index_from i p (x ∷ xs) = if str_eq x p then some i else index_from (suc i) p xs

unfoldable pub leave_lobby : ℕ → String → Lobby → Result Lobby
leave_lobby now player_id l = elim (index_from 0 player_id l.players) [
  | none ↦ err (player_not_in_lobby player_id)
  | some idx ↦ ok (record l {
    players = remove_at idx l.players;
    last_activity = now;
    status = if str_eq player_id l.host_player_id then status_closed else l.status;
  })
]

-- `Join` and `Leave` look the lobby up and write through the pointer on success.
unfoldable pub update_lobby :
    (Lobby → Result Lobby) → String → LobbyManager → LobbyManager × Result Lobby
update_lobby f id lm = elim (lookup id lm.lobbies) [
  | none ↦ (lm, err lobby_not_found)
  | some l ↦ elim (f l) [
    | err e ↦ (lm, err e)
    | ok l' ↦ (record { lobbies = insert id l' lm.lobbies }, ok l')
  ]
]

unfoldable pub join : ℕ → String → String → LobbyManager → LobbyManager × Result Lobby
join now id player_id lm = update_lobby (join_lobby now player_id) id lm

unfoldable pub leave : ℕ → String → String → LobbyManager → LobbyManager × Result Lobby
leave now id player_id lm = update_lobby (leave_lobby now player_id) id lm

-- The guards of `Start`, in their order; `none` lets the start go on.
unfoldable pub start_refused : String → Lobby → Option LobbyError
start_refused caller l =
    if not (str_eq caller l.host_player_id) then some not_host else elim l.status [
      | status_started ↦ some lobby_already_started
      | status_closed ↦ some lobby_closed
      | status_open ↦ none
    ]

-- `Start` also makes a match, in the match manager.
unfoldable pub start :
    (String → String)
    → ℕ
    → String
    → String
    → LobbyManager
    → MatchManager
    → LobbyManager × MatchManager × Result Lobby
start resolve_map now id caller lm mm = elim (lookup id lm.lobbies) [
  | none ↦ (lm, mm, err lobby_not_found)
  | some l ↦ elim (start_refused caller l) [
    | some e ↦ (lm, mm, err e)
    | none ↦
        let (match, mm') = new_match_locked resolve_map l.map_id mm in
        let l' = record l { match_id = match.id; status = status_started; last_activity = now } in
        (record { lobbies = insert id l' lm.lobbies }, mm', ok l')
  ]
]

-- `age > limit`; where the clock ran backwards the age is negative, and 0 here.
unfoldable pub is_stale : ℕ → Lobby → Bool
is_stale now l =
    let age = now - l.last_activity in
    elim l.status [
      | status_closed ↦ ltb 30000 age
      | status_started ↦ ltb 60000 age
      | status_open ↦ ltb 300000 age
    ]

pub drop_stale : ℕ → Dict Lobby → Dict Lobby
drop_stale now [] = []
drop_stale now ((k, l) ∷ rest) =
    let kept = drop_stale now rest in if is_stale now l then kept else (k, l) ∷ kept

unfoldable pub cleanup_stale : ℕ → LobbyManager → LobbyManager
cleanup_stale now lm = record { lobbies = drop_stale now lm.lobbies }

-- `sort.Slice` by `CreatedAt`, newest first.
pub insert_newest : Lobby → List Lobby → List Lobby
insert_newest l [] = l ∷ []
insert_newest l (x ∷ xs) =
    if ltb l.created_at x.created_at then x ∷ insert_newest l xs else l ∷ x ∷ xs

pub sort_newest : List Lobby → List Lobby
sort_newest [] = []
sort_newest (l ∷ ls) = insert_newest l (sort_newest ls)

abbrev is_open : LobbyStatus → Bool
is_open status_open = true
is_open _ = false

pub open_lobbies : Dict Lobby → List Lobby
open_lobbies [] = []
open_lobbies ((k, l) ∷ rest) =
    let later = open_lobbies rest in if is_open l.status then l ∷ later else later

unfoldable pub list : LobbyManager → List Lobby
list lm = sort_newest (open_lobbies lm.lobbies)
