-- ===== src/Profile.antt =====
-- Player profiles (server/internal/profile): the record, its migration (store.go), and the sorted
-- sets of ids that the handlers keep in it (server/internal/http/profile_handlers.go).
pub mod Store
pub mod Handlers
pub mod Ledger
pub mod Chains
use Prim.Native.Nat.{Ordering}
use Prim.Native.String.{compare}
use web_rts_nomads.Base.{
  ◌++◌, ℕ, String, Bool, true, false, Option, none, some, List, [], ◌∷◌, Dict, str_eq,
  if◌then◌else◌, ◌≡◌, refl,
}
use web_rts_nomads.Base.Int.{ℤ, pos, ltb_ℤ}
use web_rts_nomads.Base.{contains, keep_if, not}

pub record AcquiredAdvancement : Type 0 where
  pub id : String
  pub cost_paid : ℤ

-- A profile as it is parsed: the fields that later versions added may be missing. The statistics and
-- the wave caps, which none of these operations reads, are left out.
pub record RawProfile : Type 0 where
  pub player_id : String
  pub version : ℕ
  pub created_at_unix : ℕ
  pub updated_at_unix : ℕ
  pub legend_points : ℤ
  pub lifetime_legend_points : ℤ
  pub owned_commander_ids : List String
  pub selected_commander_id : String
  pub owned_upgrade_ranks : Option (Dict ℤ)
  pub active_upgrade_ids : Option (List String)
  pub acquired_advancements : Option (List AcquiredAdvancement)

-- A profile once it is migrated or created: nothing is missing.
pub record PlayerProfile : Type 0 where
  pub player_id : String
  pub version : ℕ
  pub created_at_unix : ℕ
  pub updated_at_unix : ℕ
  pub legend_points : ℤ
  pub lifetime_legend_points : ℤ
  pub owned_commander_ids : List String
  pub selected_commander_id : String
  pub owned_upgrade_ranks : Dict ℤ
  pub active_upgrade_ids : List String
  pub acquired_advancements : List AcquiredAdvancement

abbrev pub current_version : ℕ
current_version = 4

abbrev pub default_commander_id : String
default_commander_id = "nomad_commander_default"

-- Go orders strings by their bytes.
abbrev pub before : String → String → Bool
before s t = elim (compare s t) [ Ordering.gt ↦ false | _ ↦ true ]

-- `sort.Strings`.
unfoldable pub insert_sorted : String → List String → List String
insert_sorted s [] = s ∷ []
insert_sorted s (t ∷ ts) =
    let rest = insert_sorted s ts in if before s t then s ∷ t ∷ ts else t ∷ rest

unfoldable pub sort_strings : List String → List String
sort_strings [] = []
sort_strings (s ∷ ss) = insert_sorted s (sort_strings ss)

pub ranked_ids : Dict ℤ → List String
ranked_ids [] = []
ranked_ids ((id, rank) ∷ m) =
    let rest = ranked_ids m in if ltb_ℤ (pos 0) rank then id ∷ rest else rest

abbrev or_else {ℓ} : {A : Type ℓ} → Option A → A → A
or_else none x = x
or_else (some y) x = y

unfoldable pub migrate_profile : RawProfile → PlayerProfile
migrate_profile p =
    let ranks = or_else p.owned_upgrade_ranks [] in
    record {
      player_id = p.player_id;
      version = current_version;
      created_at_unix = p.created_at_unix;
      updated_at_unix = p.updated_at_unix;
      legend_points = p.legend_points;
      lifetime_legend_points = p.lifetime_legend_points;
      owned_commander_ids = p.owned_commander_ids;
      selected_commander_id = p.selected_commander_id;
      owned_upgrade_ranks = ranks;
      active_upgrade_ids = or_else p.active_upgrade_ids (sort_strings (ranked_ids ranks));
      acquired_advancements = or_else p.acquired_advancements [];
    }

-- What `json.Marshal` writes of a profile: the parsed form with every field present.
abbrev pub as_saved : PlayerProfile → RawProfile
as_saved p = record {
  player_id = p.player_id;
  version = p.version;
  created_at_unix = p.created_at_unix;
  updated_at_unix = p.updated_at_unix;
  legend_points = p.legend_points;
  lifetime_legend_points = p.lifetime_legend_points;
  owned_commander_ids = p.owned_commander_ids;
  selected_commander_id = p.selected_commander_id;
  owned_upgrade_ranks = some p.owned_upgrade_ranks;
  active_upgrade_ids = some p.active_upgrade_ids;
  acquired_advancements = some p.acquired_advancements;
}

unfoldable pub new_default_profile : ℕ → String → String → PlayerProfile
new_default_profile now player_id commander_id = record {
  player_id = player_id;
  version = current_version;
  created_at_unix = now;
  updated_at_unix = now;
  legend_points = pos 0;
  lifetime_legend_points = pos 0;
  owned_commander_ids = commander_id ∷ [];
  selected_commander_id = commander_id;
  owned_upgrade_ranks = [];
  active_upgrade_ids = [];
  acquired_advancements = [];
}

unfoldable pub add_to_sorted_set : List String → String → List String
add_to_sorted_set ids id = if contains ids id then ids else sort_strings (ids ++ id ∷ [])

unfoldable pub remove_from_sorted_set : List String → String → List String
remove_from_sorted_set ids id = keep_if (λ t. not (str_eq t id)) ids
