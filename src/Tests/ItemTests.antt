-- ===== src/Tests/ItemTests.antt =====
-- Items and shops: a market, a vault, two soldiers and a merchant.
use web_rts_nomads.Base.{ℕ, ◌+◌, ◌≡◌, refl, true, false, Option, none, some, List, [], ◌∷◌, Dict}
use web_rts_nomads.Base.Int.{ℤ, pos}
use web_rts_nomads.World.{VaultItem, EquippedItem, Player, GameUnit, BuildingTile, World}
use web_rts_nomads.Items.{ItemDef, equipment, consumable, no_bonus}
use web_rts_nomads.Items.Slots.{equip_item, unequip_item, transfer_item}
use web_rts_nomads.Items.Purchases.{Settles, purchase_item-Settles}
use web_rts_nomads.Items.Conservation.{
  holdings, equip_item-conserves, unequip_item-conserves, transfer_item-conserves,
}
use web_rts_nomads.Items.Consumption.{Spends, use_consumable-Spends}
use web_rts_nomads.Shops.{LootTableEntry, PackagedItem, item_subtable}
use web_rts_nomads.Shops.Rolls.{RerollSettles, reroll_shop-settles}

abbrev sword : ItemDef
sword = record {
  id = "broad_sword";
  kind = equipment;
  allowed_unit_types = [];
  cost_gold = pos 50;
  modifiers = none;
  effect = none;
  max_stacks = 0;
}

abbrev potion : ItemDef
potion = record {
  id = "potion";
  kind = consumable;
  allowed_unit_types = [];
  cost_gold = pos 10;
  modifiers = none;
  effect = some (record { effect_type = "heal"; amount = pos 25 });
  max_stacks = 3;
}

abbrev catalog : Dict ItemDef
catalog = ("broad_sword", sword) ∷ ("potion", potion) ∷ []

abbrev same_health : GameUnit → ℤ × ℤ
same_health u = (u.hp, u.max_hp)

abbrev soldier : ℕ → Option EquippedItem → GameUnit
soldier id slot = record {
  id = id;
  owner_id = "ann";
  unit_type = "soldier";
  hp = pos 80;
  max_hp = pos 100;
  inventory_size = 1;
  equipped = slot ∷ [];
  equipment_bonus = no_bonus;
}

abbrev some_potions : VaultItem
some_potions = record { instance_id = 7; item_id = "potion"; stacks = 2 }

abbrev a_sword : VaultItem
a_sword = record { instance_id = 8; item_id = "broad_sword"; stacks = 1 }

abbrev market : BuildingTile
market = record {
  id = "market";
  building_type = "marketplace";
  visible = true;
  owner_id = some "ann";
  capabilities = "item-purchase" ∷ [];
  spawn_unit_types = [];
  under_construction = false;
  tier = none;
  shop_inventory = record { item_id = "potion"; quantity = pos 2 } ∷ [];
  shop_loot_table_id = "";
  shop_fixed_inventory = [];
  shop_guard_unit_ids = [];
}

abbrev merchant : BuildingTile
merchant = record market {
  id = "merchant";
  building_type = "neutral-shop";
  owner_id = some "__neutral__";
  shop_loot_table_id = "basic";
}

abbrev ann : Player
ann = record {
  id = "ann";
  resources = ("gold", pos 15) ∷ [];
  vault = some_potions ∷ [];
  shop_item_count_bonus = pos 0;
  shop_rerolls_remaining = pos 1;
}

abbrev world : World
world = record {
  players = ("ann", ann) ∷ [];
  units = soldier 1 (some a_sword) ∷ soldier 2 none ∷ [];
  buildings = market ∷ merchant ∷ [];
  known_buildings = ("ann", "merchant" ∷ []) ∷ [];
  next_item_instance_id = 8;
}

purchase_item-Settles_example : Settles catalog "ann" "market" "potion" world
purchase_item-Settles_example = purchase_item-Settles catalog "ann" "market" "potion" world

equip_item-conserves_example :
    holdings "potion" "ann" (equip_item catalog same_health "ann" 2 (pos 0) 7 world)
    ≡ holdings "potion" "ann" world
equip_item-conserves_example =
    equip_item-conserves catalog same_health "potion" "ann" 2 (pos 0) 7 world

unequip_item-conserves_example :
    holdings "broad_sword" "ann" (unequip_item catalog same_health "ann" 1 (pos 0) world)
    ≡ holdings "broad_sword" "ann" world
unequip_item-conserves_example =
    unequip_item-conserves catalog same_health "broad_sword" "ann" 1 (pos 0) world sword refl

transfer_item-conserves_example :
    holdings "broad_sword" "ann" (transfer_item catalog same_health "ann" 1 (pos 0) 2 (pos 0) world)
    ≡ holdings "broad_sword" "ann" world
transfer_item-conserves_example =
    transfer_item-conserves catalog same_health "broad_sword" "ann" 1 (pos 0) 2 (pos 0) world

-- A generator that counts.
abbrev counter : ℕ → ℕ → ℕ × ℕ
counter n bound = (0, n + 1)

abbrev tables : Dict (List LootTableEntry)
tables = ("basic", record { entry = "weapons"; min = pos 1; max = pos 100 } ∷ []) ∷ []

abbrev packages : Dict PackagedItem
packages =
    ("weapons", item_subtable (record { item = "broad_sword"; min = pos 1; max = pos 1 } ∷ [])) ∷ []

reroll_shop-settles_example : RerollSettles counter tables packages "ann" "merchant" world 0
reroll_shop-settles_example = reroll_shop-settles counter tables packages "ann" "merchant" world 0

abbrev thirsty_world : World
thirsty_world = record world { units = soldier 1 (some some_potions) ∷ [] }

use_consumable-Spends_example : Spends catalog same_health "potion" "ann" 1 (pos 0) thirsty_world
use_consumable-Spends_example =
    use_consumable-Spends catalog same_health "potion" "ann" 1 (pos 0) thirsty_world
