-- ===== src/Items/Actions.antt =====
-- server/internal/game/state_items.go: what may be bought, and the purchase. A refused request changes
-- nothing.
use web_rts_nomads.Base.{
  ℕ, String, Bool, true, false, Option, none, some, List, [], ◌∷◌, Dict, lookup, str_eq, contains,
  ltb, if◌then◌else◌, not, ◌&&◌, length, insert,
}
use web_rts_nomads.Base.Int.{ℤ, pos, ltb_ℤ, leb_ℤ, ◌-ℤ◌}
use web_rts_nomads.Matches.{neutral_player_id}
use web_rts_nomads.World.{
  VaultItem, Player, GameUnit, ShopStockEntry, BuildingTile, World, find_unit, find_building,
  put_building, amount,
}
use web_rts_nomads.Items.{
  ItemDef, is_consumable, vault_capacity_for_player, item_max_stacks, add_item_to_vault,
}

unfoldable pub any_guard_alive : List ℕ → List GameUnit → Bool
any_guard_alive [] us = false
any_guard_alive (id ∷ ids) us =
    let rest = any_guard_alive ids us in
    elim (find_unit id us) [ none ↦ rest | some u ↦ if ltb_ℤ (pos 0) u.hp then true else rest ]

unfoldable pub shop_locked : BuildingTile → World → Bool
shop_locked b w = any_guard_alive b.shop_guard_unit_ids w.units

abbrev pub has_discovered : String → String → World → Bool
has_discovered player_id building_id w = elim (lookup player_id w.known_buildings) [
  | none ↦ false
  | some known ↦ contains known building_id
]

-- The checks of the building that stand before those of the item.
unfoldable pub may_buy_at : String → BuildingTile → World → Bool
may_buy_at player_id b w =
    b.visible
    && (not b.under_construction
        && (contains b.capabilities "item-purchase" && (elim b.owner_id [
          | none ↦ false
          | some o ↦
              if str_eq o neutral_player_id
              then has_discovered player_id b.id w && not (shop_locked b w)
              else str_eq o player_id
        ])))

-- The quantity in the first entry of the item, and that entry's decrement.
unfoldable pub stock_of : String → List ShopStockEntry → Option ℤ
stock_of item_id [] = none
stock_of item_id (e ∷ es) =
    if str_eq e.item_id item_id then some e.quantity else stock_of item_id es

unfoldable pub take_stock : String → List ShopStockEntry → List ShopStockEntry
take_stock item_id [] = []
take_stock item_id (e ∷ es) =
    if str_eq e.item_id item_id
    then record e { quantity = e.quantity -ℤ pos 1 } ∷ es
    else e ∷ take_stock item_id es

unfoldable pub can_stack : String → ℕ → List VaultItem → Bool
can_stack item_id max_st [] = false
can_stack item_id max_st (v ∷ vs) =
    let rest = can_stack item_id max_st vs in
    if str_eq v.item_id item_id && ltb v.stacks max_st then true else rest

-- The dry run before an item is paid for, and before an equipped one is taken off.
unfoldable pub has_room : ItemDef → ℕ → List VaultItem → Bool
unfolding item_max_stacks
has_room d capacity vault =
    if is_consumable d.kind && can_stack d.id (item_max_stacks d) vault
    then true
    else ltb (length vault) capacity

abbrev pub is_empty : List String → Bool
is_empty [] = true
is_empty (x ∷ xs) = false

module _ (catalog : Dict ItemDef) where
  -- Everything that a purchase has passed once it changes the state.
  unfoldable pub purchase_checked :
      String → String → String → World → Option (Player × BuildingTile × ItemDef)
  purchase_checked player_id building_id item_id w = elim (lookup player_id w.players) [
    | none ↦ none
    | some player ↦ elim (find_building building_id w.buildings) [
      | none ↦ none
      | some b ↦ elim (stock_of item_id b.shop_inventory) [
        | none ↦ none
        | some q ↦ elim (lookup item_id catalog) [
          | none ↦ none
          | some d ↦
              if may_buy_at player_id b w
                && (ltb_ℤ (pos 0) q
                    && (leb_ℤ d.cost_gold (amount "gold" player.resources)
                        && has_room d (vault_capacity_for_player player_id w) player.vault))
              then some (player, b, d)
              else none
        ]
      ]
    ]
  ]

  unfoldable pub purchase_item : String → String → String → World → World
  purchase_item player_id building_id item_id w =
      elim (purchase_checked player_id building_id item_id w) [
        | none ↦ w
        | some (player, b, d) ↦
            let added : ℕ × List VaultItem =
              elim (add_item_to_vault d (vault_capacity_for_player player_id w)
                w.next_item_instance_id player.vault) [
                  | none ↦ (w.next_item_instance_id, player.vault)
                  | some r ↦ r
                ] in
            let paid =
              insert "gold" (amount "gold" player.resources -ℤ d.cost_gold) player.resources in
            record w {
              players =
                  insert player_id (record player { resources = paid; vault = added.1 }) w.players;
              buildings =
                  put_building (record b { shop_inventory = take_stock item_id b.shop_inventory })
                    w.buildings;
              next_item_instance_id = added.0;
            }
      ]
