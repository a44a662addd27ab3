-- ===== src/Tests/MatchTests.antt =====
-- Matches: a player of two matches is taken out of the one that they do not join.
use web_rts_nomads.Base.{◌≡◌, refl, some, [], ◌∷◌, lookup, ◌∙◌, false, inl, str_ne}
use web_rts_nomads.Base.{◌+◌, ◌⊎◌, String}
use web_rts_nomads.Matches.Finding.{IsJoinable, find_or_create_match_lem}
use web_rts_nomads.Matches.{find_or_create_match, Match, MatchManager}
use web_rts_nomads.Matches.Registry.{evict_player_from_other_matches, evict_match}
use web_rts_nomads.Matches.Registry.Laws.{IsFree, evict-lookup, evict_frees, evict_spares}

abbrev left_match : Match
left_match = record {
  id = "match-1";
  map_id = "crossing";
  players = "ann" ∷ "bob" ∷ [];
  game_over = false;
  clients = 2 ∷ [];
  pending_player_cleanups = "ann" ∷ [];
}

abbrev joined_match : Match
joined_match = record {
  id = "match-2";
  map_id = "crossing";
  players = "ann" ∷ [];
  game_over = false;
  clients = 1 ∷ [];
  pending_player_cleanups = [];
}

abbrev left_after : Match
left_after = record left_match { players = "bob" ∷ []; pending_player_cleanups = [] }

abbrev two_matches : MatchManager
two_matches = record {
  matches = ("match-1", left_match) ∷ ("match-2", joined_match) ∷ [];
  next_id = 3;
}

ann_is_evicted : evict_match "ann" left_match ≡ some left_after
unfolding evict_match
ann_is_evicted = refl

ann_is_gone :
    lookup "match-1" (evict_player_from_other_matches "ann" "match-2" two_matches).matches
    ≡ some left_after
ann_is_gone = evict-lookup "ann" "match-2" "match-1" two_matches (refl, (refl, tt)) ∙ ann_is_evicted

evict_frees_example : IsFree "ann" left_after
evict_frees_example =
    evict_frees "ann" "match-2" "match-1" two_matches left_after (refl, (refl, tt))
      (str_ne "match-1" "match-2" refl) ann_is_gone

evict_spares_example :
    lookup "match-2" (evict_player_from_other_matches "ann" "match-2" two_matches).matches
    ≡ some joined_match
evict_spares_example =
    evict_spares "ann" "match-2" "match-2" two_matches joined_match (refl, (refl, tt)) refl
      (inl refl)

abbrev same_map : String → String
same_map id = id

find_or_create_match_lem_example :
    (lookup
        (find_or_create_match same_map "crossing" two_matches).0.id
        (find_or_create_match same_map "crossing" two_matches).1.matches
      ≡ some (find_or_create_match same_map "crossing" two_matches).0)
    × ((((find_or_create_match same_map "crossing" two_matches).1 ≡ two_matches)
          × IsJoinable "crossing" (find_or_create_match same_map "crossing" two_matches).0)
        ⊎ (((find_or_create_match same_map "crossing" two_matches).0.map_id ≡ same_map "crossing")
            × ((find_or_create_match same_map "crossing" two_matches).1.next_id
                ≡ two_matches.next_id + 1)))
find_or_create_match_lem_example =
    find_or_create_match_lem same_map "crossing" two_matches (refl, (refl, tt)) (refl, (refl, tt))
