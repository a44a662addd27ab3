-- ===== src/Items.antt =====
-- Items (server/internal/game/state_items.go, items.go): the catalog's entries, the vault, and what
-- the equipped items add to a unit. `catalog` is the loaded item catalog. `rebake` gives the HP and
-- the maximal HP that `applyRankModifiersLocked` leaves; the floats it also derives are not modelled.
pub mod Actions
pub mod Slots
pub mod Vault
pub mod Conservation
pub mod Purchases
pub mod Consumption
use web_rts_nomads.Base.{
  ℕ, zero, suc, ◌+◌, ◌-◌, String, Bool, true, false, Option, none, some, List, [], ◌∷◌, Dict,
  lookup, str_eq, contains, ◌==◌, ltb, leb, if◌then◌else◌, not, ◌&&◌, ◌||◌, length, ◌++◌, insert,
}
use web_rts_nomads.Base.Int.{ℤ, pos, negsuc, ltb_ℤ, ◌+ℤ◌}
use web_rts_nomads.World.{
  VaultItem, EquippedItem, Player, EquipmentBonus, GameUnit, BuildingTile, World, owned_by,
  townhall_tier_for_player,
}

pub data ItemKind : Type 0 where
  equipment : ItemKind
  consumable : ItemKind

abbrev pub is_consumable : ItemKind → Bool
is_consumable equipment = false
is_consumable consumable = true

pub record ItemModifiers : Type 0 where
  pub hp : ℤ
  pub damage : ℤ
  pub armor : ℤ
  pub max_shield : ℤ

pub record ConsumableEffect : Type 0 where
  pub effect_type : String
  pub amount : ℤ

-- A `max_stacks` that is not positive is 0 here.
pub record ItemDef : Type 0 where
  pub id : String
  pub kind : ItemKind
  pub allowed_unit_types : List String
  pub cost_gold : ℤ
  pub modifiers : Option ItemModifiers
  pub effect : Option ConsumableEffect
  pub max_stacks : ℕ

abbrev pub capacity_of_tier : ℕ → ℕ
capacity_of_tier tier =
    if tier == 1 then 5 else if tier == 2 then 10 else if tier == 3 then 15 else 6

unfoldable pub vault_capacity_for_player : String → World → ℕ
vault_capacity_for_player player_id w = capacity_of_tier (townhall_tier_for_player player_id w)

abbrev sells_for : String → BuildingTile → Bool
sells_for player_id b =
    b.visible
    && (owned_by player_id b.owner_id
        && (not b.under_construction && contains b.capabilities "item-purchase"))

pub player_has_marketplace_in : String → List BuildingTile → Bool
player_has_marketplace_in player_id [] = false
player_has_marketplace_in player_id (b ∷ bs) =
    let rest = player_has_marketplace_in player_id bs in
    if sells_for player_id b then true else rest

pub player_has_marketplace : String → World → Bool
player_has_marketplace player_id w = player_has_marketplace_in player_id w.buildings

unfoldable pub item_max_stacks : ItemDef → ℕ
item_max_stacks d = if ltb 0 d.max_stacks then d.max_stacks else 1

-- The loop that puts one more onto the first entry with room; none if there is no such entry.
pub stack_onto : String → ℕ → List VaultItem → Option (List VaultItem)
stack_onto item_id max_st [] = none
stack_onto item_id max_st (v ∷ vs) =
    let rest = stack_onto item_id max_st vs in
    if str_eq v.item_id item_id && ltb v.stacks max_st
    then some (record v { stacks = suc v.stacks } ∷ vs)
    else elim rest [ none ↦ none | some ws ↦ some (v ∷ ws) ]

-- A new entry, if the vault has room: the next instance id and the vault.
unfoldable pub new_entry : ItemDef → ℕ → ℕ → List VaultItem → Option (ℕ × List VaultItem)
new_entry d capacity next_id vault =
    if leb capacity (length vault)
    then none
    else some (
      suc next_id,
      vault ++ record { instance_id = suc next_id; item_id = d.id; stacks = 1 } ∷ [],
    )

unfoldable pub add_item_to_vault : ItemDef → ℕ → ℕ → List VaultItem → Option (ℕ × List VaultItem)
unfolding item_max_stacks
add_item_to_vault d capacity next_id vault =
    if is_consumable d.kind
    then elim (stack_onto d.id (item_max_stacks d) vault) [
      | some vs ↦ some (next_id, vs)
      | none ↦ new_entry d capacity next_id vault
    ]
    else new_entry d capacity next_id vault

pub remove_item_from_vault_by_instance : ℕ → List VaultItem → Option (VaultItem × List VaultItem)
remove_item_from_vault_by_instance instance_id [] = none
remove_item_from_vault_by_instance instance_id (v ∷ vs) =
    let rest = remove_item_from_vault_by_instance instance_id vs in
    if v.instance_id == instance_id
    then (if ltb 1 v.stacks
        then some (record v { stacks = 1 }, record v { stacks = v.stacks - 1 } ∷ vs)
        else some (v, vs))
    else elim rest [ none ↦ none | some (r, ws) ↦ some (r, v ∷ ws) ]

pub data Rank : Type 0 where
  bronze : Rank
  silver : Rank
  gold : Rank
  unranked : Rank

abbrev pub size_for_rank : Rank → ℕ
size_for_rank bronze = 1
size_for_rank silver = 2
size_for_rank gold = 3
size_for_rank unranked = 0

-- Empty slots appended while there are fewer than `size`, `missing` bounding the rounds.
pub grow_slots : ℕ → ℕ → List (Option EquippedItem) → List (Option EquippedItem)
grow_slots zero size slots = slots
grow_slots (suc missing) size slots =
    if ltb (length slots) size then grow_slots missing size (slots ++ none ∷ []) else slots

unfoldable pub set_inventory_size_for_rank : Rank → GameUnit → GameUnit
set_inventory_size_for_rank rank u = record u {
  inventory_size = size_for_rank rank;
  equipped = grow_slots (size_for_rank rank) (size_for_rank rank) u.equipped;
}

abbrev pub no_bonus : EquipmentBonus
no_bonus = record { hp = pos 0; damage = pos 0; armor = pos 0; max_shield = pos 0 }

abbrev pub add_modifiers : ItemModifiers → EquipmentBonus → EquipmentBonus
add_modifiers m b = record {
  hp = b.hp +ℤ m.hp;
  damage = b.damage +ℤ m.damage;
  armor = b.armor +ℤ m.armor;
  max_shield = b.max_shield +ℤ m.max_shield;
}

module _ (catalog : Dict ItemDef) (rebake : GameUnit → ℤ × ℤ) where
  abbrev pub modifiers_of : Option EquippedItem → Option ItemModifiers
  modifiers_of none = none
  modifiers_of (some slot) = elim (lookup slot.item_id catalog) [
    | none ↦ none
    | some d ↦ d.modifiers
  ]

  pub sum_bonus : EquipmentBonus → List (Option EquippedItem) → EquipmentBonus
  sum_bonus acc [] = acc
  sum_bonus acc (s ∷ ss) =
      sum_bonus (elim (modifiers_of s) [ none ↦ acc | some m ↦ add_modifiers m acc ]) ss

  unfoldable pub recompute_unit_equipment_bonus : GameUnit → GameUnit
  recompute_unit_equipment_bonus u =
      let v = record u { equipment_bonus = sum_bonus no_bonus u.equipped } in
      record v { hp = (rebake v).0; max_hp = (rebake v).1 }

unfoldable pub apply_consumable_effect : ItemDef → GameUnit → GameUnit
apply_consumable_effect d u = elim d.effect [
  | none ↦ u
  | some e ↦
      let healed = u.hp +ℤ e.amount in
      if str_eq e.effect_type "heal"
      then record u { hp = if ltb_ℤ u.max_hp healed then u.max_hp else healed }
      else u
]
