-- ===== src/Shops.antt =====
-- Shops (server/internal/game/state_shop.go): the loot roll, a shop's first inventory, and rerolls.
-- `loot_tables` and `packages` are the loaded tables, `intn` is `(*rand.Rand).Intn` with its
-- generator passed on.
pub mod Rolls
use web_rts_nomads.Base.{
  ℕ, zero, suc, ◌+◌, ◌*◌, String, Bool, true, false, Option, none, some, List, [], ◌∷◌, ◌++◌, Dict,
  lookup, insert, str_eq, contains, ltb, ◌==◌, if◌then◌else◌, not, ◌&&◌, length, max, map,
}
use web_rts_nomads.Base.Int.{ℤ, pos, pos_part, ltb_ℤ, leb_ℤ, ◌+ℤ◌, ◌-ℤ◌}
use web_rts_nomads.Matches.{neutral_player_id}
use web_rts_nomads.World.{Player, ShopStockEntry, BuildingTile, World, find_building, put_building}
use web_rts_nomads.Items.Actions.{has_discovered, shop_locked, is_empty}

pub record LootTableEntry : Type 0 where
  pub entry : String
  pub min : ℤ
  pub max : ℤ

pub record LootSubtableEntry : Type 0 where
  pub item : String
  pub min : ℤ
  pub max : ℤ

pub data PackagedItem : Type 0 where
  resource_bundle : Dict ℤ → PackagedItem
  item_subtable : List LootSubtableEntry → PackagedItem

abbrev pub default_shop_loot_target_count : ℕ
default_shop_loot_target_count = 3

abbrev pub default_marketplace_starter_inventory : List String
default_marketplace_starter_inventory = "broad_sword" ∷ "potion_common_heal" ∷ []

abbrev pub default_neutral_shop_loot_table_id : String
default_neutral_shop_loot_table_id = "merchant_basic"

unfoldable pub shop_item_target_count_for_player : String → World → ℤ
shop_item_target_count_for_player player_id w =
    if str_eq player_id ""
    then pos default_shop_loot_target_count
    else elim (lookup player_id w.players) [
      | none ↦ pos default_shop_loot_target_count
      | some p ↦
          let target = pos default_shop_loot_target_count +ℤ p.shop_item_count_bonus in
          if ltb_ℤ target (pos 1) then pos 1 else target
    ]

abbrev pub starter_stock_for_building_type : String → ℤ
starter_stock_for_building_type building_type =
    if str_eq building_type "marketplace" then pos 99 else pos 1

unfoldable pub make_shop_stock_entries : List String → String → List ShopStockEntry
make_shop_stock_entries ids building_type =
    map (λ id. record { item_id = id; quantity = starter_stock_for_building_type building_type })
      ids

-- The first row of a table whose range holds the roll.
pub table_hit : ℕ → List LootTableEntry → Option String
table_hit r [] = none
table_hit r (e ∷ es) =
    if leb_ℤ e.min (pos r) && leb_ℤ (pos r) e.max then some e.entry else table_hit r es

pub subtable_hit : ℕ → List LootSubtableEntry → Option String
subtable_hit r [] = none
subtable_hit r (e ∷ es) =
    if leb_ℤ e.min (pos r) && leb_ℤ (pos r) e.max then some e.item else subtable_hit r es

pub max_sub : List LootSubtableEntry → ℕ
max_sub [] = 0
max_sub (e ∷ es) = max (pos_part e.max) (max_sub es)

module _ {Rng : Type 0} (intn : Rng → ℕ → ℕ × Rng) (loot_tables : Dict (List LootTableEntry))
    (packages : Dict PackagedItem) where
  -- One round of the loop: the item that it rolls, if any.
  unfoldable pub roll_once : List LootTableEntry → Rng → Option String × Rng
  roll_once table rng =
      let (n, next) = intn rng 100 in
      elim (table_hit (n + 1) table) [
        | none ↦ (none, next)
        | some name ↦ elim (lookup name packages) [
          | none ↦ (none, next)
          | some (resource_bundle resources) ↦ (none, next)
          | some (item_subtable entries) ↦ if max_sub entries == 0 then (none, next) else (
            subtable_hit ((intn next (max_sub entries)).0 + 1) entries,
            (intn next (max_sub entries)).1,
          )
        ]
      ]

  abbrev pub keep_new : Option String → List String → List String
  keep_new none items = items
  keep_new (some item) items = if contains items item then items else items ++ item ∷ []

  -- At most `attempts` rounds, while there are fewer than `target` items.
  unfoldable pub roll_items : List LootTableEntry → ℕ → ℕ → Rng → List String → List String × Rng
  roll_items table zero target rng items = (items, rng)
  roll_items table (suc attempts) target rng items =
      let (hit, next) = roll_once table rng in
      let rest = roll_items table attempts target next (keep_new hit items) in
      if ltb (length items) target then rest else (items, rng)

  unfoldable pub roll_shop_loot_table : String → ℤ → Rng → Option (List String) × Rng
  roll_shop_loot_table table_id target rng = elim (lookup table_id loot_tables) [
    | none ↦ (none, rng)
    | some table ↦
        let (items, next) = roll_items table (pos_part target * 8) (pos_part target) rng [] in
        (some items, next)
  ]

  unfoldable pub rolled_inventory : String → ℤ → BuildingTile → Rng → Option BuildingTile × Rng
  rolled_inventory table_id target b rng =
      let (rolled, next) = roll_shop_loot_table table_id target rng in
      (
        elim rolled [
          | none ↦ none
          | some items ↦
              some (record b { shop_inventory = make_shop_stock_entries items b.building_type })
        ],
        next,
      )

  abbrev kept : BuildingTile → Option BuildingTile × Rng → BuildingTile × Rng
  kept b (none, rng) = (b, rng)
  kept b (some c, rng) = (c, rng)

  unfoldable pub populate_shop_inventory_for_building : BuildingTile → Rng → BuildingTile × Rng
  populate_shop_inventory_for_building b rng =
      let stocked = λ (ids : List String). record b {
        shop_inventory = make_shop_stock_entries ids b.building_type;
      } in
      let rolled = λ (table_id : String).
        kept b (rolled_inventory table_id (pos default_shop_loot_target_count) b rng) in
      if not (contains b.capabilities "item-purchase")
      then (b, rng)
      else (if not (is_empty b.shop_fixed_inventory)
          then (stocked b.shop_fixed_inventory, rng)
          else (if not (str_eq b.shop_loot_table_id "")
              then rolled b.shop_loot_table_id
              else (if str_eq b.building_type "marketplace"
                  then (stocked default_marketplace_starter_inventory, rng)
                  else (if str_eq b.building_type "neutral-shop"
                      then rolled default_neutral_shop_loot_table_id
                      else (b, rng)))))

  abbrev pub table_of : BuildingTile → String
  table_of b =
      if str_eq b.shop_loot_table_id ""
      then default_neutral_shop_loot_table_id
      else b.shop_loot_table_id

  -- The player and the shop of a reroll that passed its checks.
  unfoldable pub reroll_checked : String → String → World → Option (Player × BuildingTile)
  reroll_checked player_id building_id w = elim (lookup player_id w.players) [
    | none ↦ none
    | some p ↦ elim (find_building building_id w.buildings) [
      | none ↦ none
      | some b ↦
          if ltb_ℤ (pos 0) p.shop_rerolls_remaining
            && (b.visible
                && (contains b.capabilities "item-purchase"
                    && (str_eq b.building_type "neutral-shop"
                        && (elim b.owner_id [ none ↦ false | some o ↦ str_eq o neutral_player_id ]
                            && (has_discovered player_id b.id w
                                && (not (shop_locked b w) && is_empty b.shop_fixed_inventory))))))
          then some (p, b)
          else none
    ]
  ]

  unfoldable pub reroll_shop : String → String → World → Rng → World × Rng
  reroll_shop player_id building_id w rng = elim (reroll_checked player_id building_id w) [
    | none ↦ (w, rng)
    | some (p, b) ↦
        let (rolled, next) =
          rolled_inventory (table_of b) (shop_item_target_count_for_player player_id w) b rng in
        elim rolled [
          | none ↦ (w, next)
          | some c ↦ (
            record w {
              players =
                  insert player_id
                    (record p { shop_rerolls_remaining = p.shop_rerolls_remaining -ℤ pos 1 })
                    w.players;
              buildings = put_building c w.buildings;
            },
            next,
          )
        ]
  ]
