-- ===== src/Matches/Registry.antt =====
-- manager.go and match.go: leaving matches. The players of a match, the timers of its disconnected
-- players, and the rule that a player is in one match only.
pub mod Laws
use web_rts_nomads.Base.{
  ℕ, suc, zero, String, Bool, true, false, not, ◌&&◌, ◌||◌, Option, none, some, List, [], ◌∷◌, Dict,
  lookup, store, str_eq, contains, keep_if, length, ltb, ◌==◌, if◌then◌else◌,
}
use web_rts_nomads.Matches.{Match, MatchManager, has_player}

abbrev pub without : String → List String → List String
without player_id = keep_if (λ p. not (str_eq p player_id))

-- `t.Stop()` and the removal of the timer's entry; the flag says whether there was one.
unfoldable pub cancel_player_removal : String → Match → Match × Bool
cancel_player_removal player_id match =
    if contains match.pending_player_cleanups player_id
    then (
      record match { pending_player_cleanups = without player_id match.pending_player_cleanups },
      true,
    )
    else (match, false)

-- `delete(s.Players, playerID)`; the rest of `State.RemovePlayer` is the game state's.
unfoldable pub remove_player : String → Match → Match
remove_player player_id match = record match { players = without player_id match.players }

-- A pre-existing timer of that player is replaced.
unfoldable pub schedule_player_removal : String → Match → Match
schedule_player_removal player_id match = record match {
  pending_player_cleanups = player_id ∷ without player_id match.pending_player_cleanups;
}

abbrev pub is_empty {ℓ} : {A : Type ℓ} → List A → Bool
is_empty [] = true
is_empty (x ∷ xs) = false

-- The timer's callback: `none` is a match that is deleted because nobody is left in it.
unfoldable pub removal_fires : String → Match → Option Match
unfolding remove_player
removal_fires player_id match =
    let left = remove_player player_id match in
    let m = record left {
      pending_player_cleanups = without player_id left.pending_player_cleanups;
    } in
    if is_empty m.clients && is_empty m.pending_player_cleanups then none else some m

-- One round of the eviction loop; `none` is a match that is deleted.
unfoldable pub evict_match : String → Match → Option Match
unfolding cancel_player_removal remove_player has_player
evict_match player_id match =
    let (m, had_grace) = cancel_player_removal player_id match in
    let had_player = has_player m player_id in
    let left = remove_player player_id m in
    if not had_grace && not had_player
    then some m
    else if is_empty left.clients && is_empty left.pending_player_cleanups
    then none
    else some left

pub evict_step : String → String → Dict Match → Dict Match
evict_step player_id id ms = elim (lookup id ms) [
  | none ↦ ms
  | some match ↦ store id (evict_match player_id match) ms
]

pub evict_each : String → List String → Dict Match → Dict Match
evict_each player_id [] ms = ms
evict_each player_id (id ∷ ids) ms = evict_each player_id ids (evict_step player_id id ms)

-- The matches that are looked at: all but the one that is joined.
pub candidates : String → Dict Match → List String
candidates except_id [] = []
candidates except_id ((k, match) ∷ rest) =
    let later = candidates except_id rest in
    if str_eq match.id except_id then later else match.id ∷ later

unfoldable pub evict_player_from_other_matches : String → String → MatchManager → MatchManager
evict_player_from_other_matches player_id except_id m = record m {
  matches = evict_each player_id (candidates except_id m.matches) m.matches;
}
