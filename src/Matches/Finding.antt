-- ===== src/Matches/Finding.antt =====
-- manager.go, `FindOrCreateMatch`: which match a player is sent to.
use web_rts_nomads.Base.{
  ◌+◌, ◌<◌, ◌≡◌, ◌⊎◌, inl, inr, refl, String, true, false, some, [], ◌∷◌, Dict, lookup, arith,
  Bool-cases, Option-cases, Unique, lookup-insert, str_eq_refl, str_eq_iff, ◌∙◌,
}
use Prim.Native.String.{◌++◌}
use web_rts_nomads.Matches.{
  Match, MatchManager, joinable, player_count, first_joinable, new_match_locked,
  find_or_create_match, new_match, itoa,
}
use web_rts_nomads.Matches.Registry.Laws.{IsKeyed}

-- A match of the map with fewer than four players that is not over.
abbrev pub IsJoinable : String → Match → Type 0
IsJoinable map_id m = (m.map_id ≡ map_id) × (player_count m < 4) × (m.game_over ≡ false)

joinable-IsJoinable : (map_id : String) (m : Match) → joinable map_id m ≡ true → IsJoinable map_id m
unfolding joinable
joinable-IsJoinable map_id m h = ground (arith, str_eq_iff m.map_id map_id)

first_joinable-found :
    (map_id : String) (ms : Dict Match) (m : Match)
    → Unique ms
    → IsKeyed ms
    → first_joinable map_id ms ≡ some m
    → (lookup m.id ms ≡ some m) × (joinable map_id m ≡ true)
unfolding first_joinable
first_joinable-found map_id [] m u h e = cc
first_joinable-found map_id ((k, match) ∷ rest) m u h e =
    elim (Bool-cases (joinable map_id match)) [
      | inl fits ↦
          let same : match ≡ m = ground (arith, fits) in
          ground (arith, fits, same, h.0, str_eq_iff k m.id)
      | inr full ↦
          let (there, fits) = first_joinable-found map_id rest m u.1 h.1 (ground (arith, full)) in
          (ground (arith, there, u.0, str_eq_iff k m.id), fits)
    ]

new_match_locked-registers :
    (resolve_map : String → String) (map_id : String) (m : MatchManager)
    → (lookup
          (new_match_locked resolve_map map_id m).0.id
          (new_match_locked resolve_map map_id m).1.matches
        ≡ some (new_match_locked resolve_map map_id m).0)
      × ((new_match_locked resolve_map map_id m).0.map_id ≡ resolve_map map_id)
      × ((new_match_locked resolve_map map_id m).1.next_id ≡ m.next_id + 1)
unfolding new_match_locked new_match
new_match_locked-registers resolve_map map_id m =
    let id = "match-" ++ itoa m.next_id in
    (
      lookup-insert id id (new_match resolve_map id map_id) m.matches ∙ rw (str_eq_refl id) refl,
      refl,
      refl,
    )

-- In a registry keyed by match ids, the match that a player is sent to is registered under its id;
-- either it was, and is of the requested map, not over and below the limit of players, or it is the
-- new match of the resolved map.
pub find_or_create_match_lem :
    (resolve_map : String → String) (map_id : String) (m : MatchManager)
    → Unique m.matches
    → IsKeyed m.matches
    → (lookup
          (find_or_create_match resolve_map map_id m).0.id
          (find_or_create_match resolve_map map_id m).1.matches
        ≡ some (find_or_create_match resolve_map map_id m).0)
      × ((((find_or_create_match resolve_map map_id m).1 ≡ m)
            × IsJoinable map_id (find_or_create_match resolve_map map_id m).0)
          ⊎ (((find_or_create_match resolve_map map_id m).0.map_id ≡ resolve_map map_id)
              × ((find_or_create_match resolve_map map_id m).1.next_id ≡ m.next_id + 1)))
unfolding find_or_create_match
find_or_create_match_lem resolve_map map_id m u h =
    elim (Option-cases (first_joinable map_id m.matches)) [
      | inl n ↦
          let (there, map, number) = new_match_locked-registers resolve_map map_id m in
          rw (find_or_create_match, n) (there, inr (map, number))
      | inr (match, e) ↦
          let (there, fits) = first_joinable-found map_id m.matches match u h e in
          rw (find_or_create_match, e) (there, inl (refl, joinable-IsJoinable map_id match fits))
    ]
