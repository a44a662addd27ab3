-- ===== src/Matches.antt =====
-- server/internal/game/manager.go: the registry of running matches, with the part of match.go that
-- the registry reads. The match loop, its clock and the game state behind it stay outside.
pub mod Registry
pub mod Finding
use web_rts_nomads.Base.{
  ℕ, suc, zero, ◌+◌, ◌/◌, ◌%◌, String, Bool, true, false, not, ◌&&◌, Option, none, some, List, [],
  ◌∷◌, Dict, lookup, insert, delete, str_eq, contains, keep_if, length, get_elem?, ltb, ◌==◌,
  if◌then◌else◌,
}
use Prim.Native.String.{◌++◌}

-- state_waves.go names the two players that no human controls.
abbrev pub enemy_player_id : String
enemy_player_id = "__enemy__"

abbrev pub neutral_player_id : String
neutral_player_id = "__neutral__"

-- `State.Players` by its keys, and `IsGameOver()` as a flag. A client is known by its number.
pub record Match : Type 0 where
  pub id : String
  pub map_id : String
  pub players : List String
  pub game_over : Bool
  pub clients : List ℕ
  pub pending_player_cleanups : List String

pub record MatchManager : Type 0 where
  pub matches : Dict Match
  pub next_id : ℕ

unfoldable pub new_match_manager : MatchManager
new_match_manager = record { matches = []; next_id = 1 }

abbrev digit : ℕ → String
digit n =
    elim (get_elem? {A = String} ("0" ∷ "1" ∷ "2" ∷ "3" ∷ "4" ∷ "5" ∷ "6" ∷ "7" ∷ "8" ∷ "9" ∷ [])
      n) [ none ↦ "" | some d ↦ d ]

itoa_fuel : ℕ → ℕ → String → String
itoa_fuel zero n acc = acc
itoa_fuel (suc f) n acc =
    let s = digit (n % 10) ++ acc in
    let rest = itoa_fuel f (n / 10) s in if ltb n 10 then s else rest

-- The decimal numeral of `%d`.
unfoldable pub itoa : ℕ → String
unfolding itoa_fuel
itoa n = itoa_fuel (suc n) n ""

-- The embedded map catalogue decides which map a request resolves to. On a map with a guarded neutral
-- shop the code also registers the neutral player here; no map of the repository has one.
module _ (resolve_map : String → String) where
  unfoldable pub new_match : String → String → Match
  new_match id map_id = record {
    id = id;
    map_id = resolve_map map_id;
    players = [];
    game_over = false;
    clients = [];
    pending_player_cleanups = [];
  }

  unfoldable pub new_match_locked : String → MatchManager → Match × MatchManager
  unfolding new_match itoa
  new_match_locked map_id m =
      let match_id = "match-" ++ itoa m.next_id in
      let match = new_match match_id map_id in
      (match, record { matches = insert match_id match m.matches; next_id = m.next_id + 1 })

abbrev pub is_human_or_neutral : String → Bool
is_human_or_neutral id = not (str_eq id enemy_player_id)

unfoldable pub player_count : Match → ℕ
player_count match = length (keep_if is_human_or_neutral match.players)

unfoldable pub has_player : Match → String → Bool
has_player match player_id = contains match.players player_id

-- `match.MapID == mapID && match.PlayerCount() < 4 && !match.State.IsGameOver()`.
unfoldable pub joinable : String → Match → Bool
unfolding player_count
joinable map_id match =
    str_eq match.map_id map_id && (ltb (player_count match) 4 && not match.game_over)

unfoldable pub first_joinable : String → Dict Match → Option Match
unfolding joinable
first_joinable map_id [] = none
first_joinable map_id ((k, match) ∷ rest) =
    if joinable map_id match then some match else first_joinable map_id rest

unfoldable pub find_or_create_match :
    (String → String) → String → MatchManager → Match × MatchManager
unfolding first_joinable new_match_locked
find_or_create_match resolve_map map_id m = elim (first_joinable map_id m.matches) [
  | some match ↦ (match, m)
  | none ↦ new_match_locked resolve_map map_id m
]

unfoldable pub get_match : String → MatchManager → Option Match
get_match match_id m = lookup match_id m.matches

unfoldable pub delete_match : String → MatchManager → MatchManager
delete_match match_id m = elim (lookup match_id m.matches) [
  | some match ↦ record m { matches = delete match_id m.matches }
  | none ↦ m
]

unfoldable pub is_player_in_active_match : String → Dict Match → Bool
unfolding has_player
is_player_in_active_match player_id [] = false
is_player_in_active_match player_id ((k, match) ∷ rest) =
    let later = is_player_in_active_match player_id rest in
    if match.game_over then later else if has_player match player_id then true else later
