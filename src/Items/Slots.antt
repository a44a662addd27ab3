-- ===== src/Items/Slots.antt =====
-- server/internal/game/state_items.go: the requests on a unit's slots. A refused request changes nothing.
use web_rts_nomads.Base.{
  ℕ, ◌-◌, String, Bool, Option, none, some, List, [], ◌∷◌, Dict, lookup, str_eq, contains, ◌==◌,
  ltb, leb, if◌then◌else◌, ◌&&◌, ◌||◌, length, ◌++◌, insert, set, get_elem?,
}
use web_rts_nomads.Base.Int.{ℤ, pos, negsuc, ltb_ℤ}
use web_rts_nomads.World.{VaultItem, EquippedItem, Player, GameUnit, World, find_unit, put_unit}
use web_rts_nomads.Items.{
  ItemDef, is_consumable, vault_capacity_for_player, remove_item_from_vault_by_instance,
  recompute_unit_equipment_bonus, apply_consumable_effect,
}
use web_rts_nomads.Items.Actions.{is_empty, has_room}

-- `slot < 0 || slot >= unit.InventorySize || len(unit.Equipped) <= slot` refuses the slot.
unfoldable pub slot_index : ℤ → GameUnit → Option ℕ
slot_index (pos n) u = if ltb n u.inventory_size && ltb n (length u.equipped) then some n else none
slot_index (negsuc n) u = none

abbrev pub allows : ItemDef → GameUnit → Bool
allows d u = is_empty d.allowed_unit_types || contains d.allowed_unit_types u.unit_type

-- What is in a slot that the request may use.
abbrev pub item_at : ℤ → GameUnit → Option (ℕ × EquippedItem)
item_at slot u = elim (slot_index slot u) [
  | none ↦ none
  | some i ↦ elim (get_elem? u.equipped i) [
    | none ↦ none
    | some none ↦ none
    | some (some x) ↦ some (i, x)
  ]
]

abbrev pub free_slot : ℤ → GameUnit → Option ℕ
free_slot slot u = elim (slot_index slot u) [
  | none ↦ none
  | some i ↦ elim (get_elem? u.equipped i) [
    | none ↦ none
    | some none ↦ some i
    | some (some x) ↦ none
  ]
]

-- `getUnitByIDLocked` with the test of the owner, and with that of its health.
abbrev pub own_unit : String → ℕ → World → Option GameUnit
own_unit player_id id w = elim (find_unit id w.units) [
  | none ↦ none
  | some u ↦ if str_eq u.owner_id player_id then some u else none
]

abbrev pub own_living_unit : String → ℕ → World → Option GameUnit
own_living_unit player_id id w = elim (own_unit player_id id w) [
  | none ↦ none
  | some u ↦ if ltb_ℤ (pos 0) u.hp then some u else none
]

unfoldable pub entry_of : ℕ → List VaultItem → Option VaultItem
entry_of instance_id [] = none
entry_of instance_id (v ∷ vs) =
    if v.instance_id == instance_id then some v else entry_of instance_id vs

module _ (catalog : Dict ItemDef) (rebake : GameUnit → ℤ × ℤ) where
  abbrev pub rebuilt : GameUnit → GameUnit
  rebuilt = recompute_unit_equipment_bonus catalog rebake

  -- What a request moves once it has passed its checks: the player, the unit, the slot, the item
  -- and, for one that leaves the vault, the rest of the vault.
  unfoldable pub equip_checked :
      String → ℕ → ℤ → ℕ → World → Option (Player × GameUnit × ℕ × EquippedItem × List VaultItem)
  equip_checked player_id unit_id slot instance_id w = elim (lookup player_id w.players) [
    | none ↦ none
    | some player ↦ elim (own_living_unit player_id unit_id w) [
      | none ↦ none
      | some u ↦ elim (free_slot slot u) [
        | none ↦ none
        | some i ↦ elim (entry_of instance_id player.vault) [
          | none ↦ none
          | some entry ↦ elim (lookup entry.item_id catalog) [
            | none ↦ none
            | some d ↦
                if allows d u
                then elim (remove_item_from_vault_by_instance instance_id player.vault) [
                  | none ↦ none
                  | some (removed, vault) ↦ some (player, u, i, removed, vault)
                ]
                else none
          ]
        ]
      ]
    ]
  ]

  unfoldable pub equip_item : String → ℕ → ℤ → ℕ → World → World
  equip_item player_id unit_id slot instance_id w =
      elim (equip_checked player_id unit_id slot instance_id w) [
        | none ↦ w
        | some (player, u, i, removed, vault) ↦ record w {
          players = insert player_id (record player { vault = vault }) w.players;
          units =
              put_unit (rebuilt (record u { equipped = set u.equipped i (some removed) })) w.units;
        }
      ]

  unfoldable pub unequip_checked :
      String → ℕ → ℤ → World → Option (Player × GameUnit × ℕ × EquippedItem)
  unequip_checked player_id unit_id slot w = elim (lookup player_id w.players) [
    | none ↦ none
    | some player ↦ elim (own_unit player_id unit_id w) [
      | none ↦ none
      | some u ↦ elim (item_at slot u) [ none ↦ none | some (i, x) ↦ some (player, u, i, x) ]
    ]
  ]

  -- An item that the catalog does not know is dropped.
  unfoldable pub unequip_item : String → ℕ → ℤ → World → World
  unequip_item player_id unit_id slot w = elim (unequip_checked player_id unit_id slot w) [
    | none ↦ w
    | some (player, u, i, x) ↦
        let bare = put_unit (rebuilt (record u { equipped = set u.equipped i none })) w.units in
        elim (lookup x.item_id catalog) [
          | none ↦ record w { units = bare }
          | some d ↦
              if has_room d (vault_capacity_for_player player_id w) player.vault
              then record w {
                players =
                    insert player_id (record player { vault = player.vault ++ x ∷ [] }) w.players;
                units = bare;
              }
              else w
        ]
  ]

  unfoldable pub use_consumable : String → ℕ → ℤ → World → World
  use_consumable player_id unit_id slot w = elim (own_living_unit player_id unit_id w) [
    | none ↦ w
    | some u ↦ elim (item_at slot u) [
      | none ↦ w
      | some (i, x) ↦ elim (lookup x.item_id catalog) [
        | none ↦ w
        | some d ↦
            let left : Option EquippedItem =
              if leb x.stacks 1 then none else some (record x { stacks = x.stacks - 1 }) in
            let healed = apply_consumable_effect d u in
            if is_consumable d.kind
            then record w {
              units = put_unit (record healed { equipped = set u.equipped i left }) w.units;
            }
            else w
      ]
    ]
  ]

  unfoldable pub transfer_checked :
      String → ℕ → ℤ → ℕ → ℤ → World → Option (GameUnit × GameUnit × ℕ × ℕ × EquippedItem)
  transfer_checked player_id from_id from_slot to_id to_slot w =
      elim (own_living_unit player_id from_id w) [
        | none ↦ none
        | some source ↦ elim (own_living_unit player_id to_id w) [
          | none ↦ none
          | some target ↦ elim (item_at from_slot source) [
            | none ↦ none
            | some (i, x) ↦ elim (free_slot to_slot target) [
              | none ↦ none
              | some j ↦ elim (lookup x.item_id catalog) [
                | none ↦ none
                | some d ↦ if allows d target then some (source, target, i, j, x) else none
              ]
            ]
          ]
        ]
      ]

  -- Both units are reached by pointers: on one unit, both writes are to the same slots.
  unfoldable pub transfer_item : String → ℕ → ℤ → ℕ → ℤ → World → World
  transfer_item player_id from_id from_slot to_id to_slot w =
      elim (transfer_checked player_id from_id from_slot to_id to_slot w) [
        | none ↦ w
        | some (source, target, i, j, x) ↦
            let same_unit = record source {
              equipped = set (set source.equipped j (some x)) i none;
            } in
            let bare = record source { equipped = set source.equipped i none } in
            let dressed = record target { equipped = set target.equipped j (some x) } in
            if from_id == to_id
            then record w { units = put_unit (rebuilt same_unit) w.units }
            else record w { units = put_unit (rebuilt dressed) (put_unit (rebuilt bare) w.units) }
      ]
