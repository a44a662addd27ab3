-- ===== src/World.antt =====
-- The part of the match state (state.go, protocol.BuildingTile) that the items, the shops and the
-- production queues read and write, with the lookups of state_helpers.go.
pub mod Updates
use web_rts_nomads.Base.{
  ℕ, String, Bool, true, false, Option, none, some, List, [], ◌∷◌, Dict, lookup, insert, str_eq,
  contains, ◌==◌, ltb, leb, if◌then◌else◌, not, ◌&&◌, max,
}
use web_rts_nomads.Base.Int.{ℤ, pos, ltb_ℤ, ◌+ℤ◌}

pub record VaultItem : Type 0 where
  pub instance_id : ℕ
  pub item_id : String
  pub stacks : ℕ

-- `EquippedItem` has the same fields in the source.
abbrev pub EquippedItem : Type 0
EquippedItem = VaultItem

pub record Player : Type 0 where
  pub id : String
  pub resources : Dict ℤ
  pub vault : List VaultItem
  pub shop_item_count_bonus : ℤ
  pub shop_rerolls_remaining : ℤ

-- The whole-number fields of the equipment bonus; those that are floats are derived with the rest
-- of the combat stats.
pub record EquipmentBonus : Type 0 where
  pub hp : ℤ
  pub damage : ℤ
  pub armor : ℤ
  pub max_shield : ℤ

pub record GameUnit : Type 0 where
  pub id : ℕ
  pub owner_id : String
  pub unit_type : String
  pub hp : ℤ
  pub max_hp : ℤ
  pub inventory_size : ℕ
  pub equipped : List (Option EquippedItem)
  pub equipment_bonus : EquipmentBonus

pub record ShopStockEntry : Type 0 where
  pub item_id : String
  pub quantity : ℤ

-- `tier` is `int(v)` of the metadata's "tier", where it is a number that is at least 1.
pub record BuildingTile : Type 0 where
  pub id : String
  pub building_type : String
  pub visible : Bool
  pub owner_id : Option String
  pub capabilities : List String
  pub spawn_unit_types : List String
  pub under_construction : Bool
  pub tier : Option ℕ
  pub shop_inventory : List ShopStockEntry
  pub shop_loot_table_id : String
  pub shop_fixed_inventory : List String
  pub shop_guard_unit_ids : List ℕ

-- `known_buildings` has a player's entry if the player has a fog-of-war grid.
pub record World : Type 0 where
  pub players : Dict Player
  pub units : List GameUnit
  pub buildings : List BuildingTile
  pub known_buildings : Dict (List String)
  pub next_item_instance_id : ℕ

pub find_unit : ℕ → List GameUnit → Option GameUnit
find_unit id [] = none
find_unit id (u ∷ us) = if u.id == id then some u else find_unit id us

-- A write through the pointer that the lookup gave.
pub put_unit : GameUnit → List GameUnit → List GameUnit
put_unit v [] = []
put_unit v (u ∷ us) = if u.id == v.id then v ∷ us else u ∷ put_unit v us

unfoldable pub find_building : String → List BuildingTile → Option BuildingTile
find_building id [] = none
find_building id (b ∷ bs) = if str_eq b.id id then some b else find_building id bs

pub put_building : BuildingTile → List BuildingTile → List BuildingTile
put_building v [] = []
put_building v (b ∷ bs) = if str_eq b.id v.id then v ∷ bs else b ∷ put_building v bs

-- `resources[k]` of a Go map: 0 where the key is missing.
abbrev pub amount : String → Dict ℤ → ℤ
amount k m = elim (lookup k m) [ none ↦ pos 0 | some v ↦ v ]

abbrev pub owned_by : String → Option String → Bool
owned_by player_id none = false
owned_by player_id (some o) = str_eq o player_id

abbrev tier_of : Option ℕ → ℕ
tier_of none = 1
tier_of (some t) = t

abbrev counts_as_townhall : String → BuildingTile → Bool
counts_as_townhall player_id b =
    b.visible
    && (str_eq b.building_type "townhall"
        && (owned_by player_id b.owner_id && not b.under_construction))

pub townhall_tier_from : ℕ → String → List BuildingTile → ℕ
townhall_tier_from highest player_id [] = highest
townhall_tier_from highest player_id (b ∷ bs) =
    townhall_tier_from
      (if counts_as_townhall player_id b
        then if ltb highest (tier_of b.tier) then tier_of b.tier else highest
        else highest)
      player_id bs

unfoldable pub townhall_tier_for_player : String → World → ℕ
unfolding townhall_tier_from
townhall_tier_for_player player_id w = townhall_tier_from 0 player_id w.buildings

-- `grantResourceToPlayerLocked`.
unfoldable pub grant_resource : String → ℤ → Player → Player
grant_resource key n p =
    if ltb_ℤ (pos 0) n
    then if str_eq key ""
      then p
      else record p { resources = insert key (amount key p.resources +ℤ n) p.resources }
    else p
