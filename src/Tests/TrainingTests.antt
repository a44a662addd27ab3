-- ===== src/Tests/TrainingTests.antt =====
-- Training: one spearman is ordered at a barracks and cancelled again.
use web_rts_nomads.Base.{
  ℕ, suc, ◌≡◌, refl, String, true, false, if◌then◌else◌, Option, none, some, List, [], ◌∷◌, Dict,
}
use web_rts_nomads.Base.Int.{ℤ, pos, ltb_ℤ, ◌+ℤ◌, ◌-ℤ◌}
use web_rts_nomads.World.{Player, BuildingTile, World, find_building}
use web_rts_nomads.Training.Production.{
  update_unit_productions, complete_all, complete_unit_production, count_down, building_for,
}
use web_rts_nomads.Training.Production.Ticks.{Ticked, update_unit_productions-Ticked}
use web_rts_nomads.Tests.Whole.{whole}
use web_rts_nomads.Training.{
  UnitDef, UnitProduction, Barracks, queue_of, consume_production_queue_item, train_checked,
  affords, can_afford_meat_cost, get_used_meat_for_player, meat_of_units, meat_of_queues,
  max_meat_of, has_all,
}
use web_rts_nomads.Training.Refunds.{IsUndone, cancel_training_at-train_unit}
use web_rts_nomads.Training.Queues.{
  Order, train, cancel, elapse, IsBounded, apply_orders, apply_orders-IsBounded,
}

abbrev spearman : UnitDef
spearman = record {
  resource_cost = ("gold", pos 30) ∷ ("wood", pos 5) ∷ [];
  meat_cost = pos 1;
  requires_buildings = [];
}

abbrev units : Dict UnitDef
units = ("spearman", spearman) ∷ []

abbrev food : Dict ℤ
food = ("barracks", pos 4) ∷ []

abbrev seconds : Player → BuildingTile → String → ℕ
seconds p b t = 12

abbrev barracks : BuildingTile
barracks = record {
  id = "b1";
  building_type = "barracks";
  visible = true;
  owner_id = some "ann";
  capabilities = "unit-spawner" ∷ [];
  spawn_unit_types = "spearman" ∷ [];
  under_construction = false;
  tier = none;
  shop_inventory = [];
  shop_loot_table_id = "";
  shop_fixed_inventory = [];
  shop_guard_unit_ids = [];
}

abbrev ann : Player
ann = record {
  id = "ann";
  resources = ("gold", pos 40) ∷ ("wood", pos 5) ∷ [];
  vault = [];
  shop_item_count_bonus = pos 0;
  shop_rerolls_remaining = pos 0;
}

abbrev camp : Barracks ℕ
camp = record {
  world = record {
    players = ("ann", ann) ∷ [];
    units = [];
    buildings = barracks ∷ [];
    known_buildings = [];
    next_item_instance_id = 0;
  };
  productions = [];
}

order_passes :
    train_checked units food seconds "ann" "b1" "spearman" camp ≡ some (ann, barracks, spearman)
unfolding train_checked find_building affords can_afford_meat_cost get_used_meat_for_player
    meat_of_units meat_of_queues max_meat_of has_all ◌+ℤ◌
order_passes = refl

cancel_training_at-train_unit_example :
    IsUndone units food seconds "ann" "b1" "spearman" "gold" camp ann
cancel_training_at-train_unit_example =
    cancel_training_at-train_unit units food seconds "ann" "b1" "spearman" "gold" camp ann barracks
      spearman order_passes refl

abbrev longer : ℤ → ℤ → ℤ
longer a b = if ltb_ℤ a b then b else a

-- There is always a place to spawn, and a spawned unit is seen by its number alone.
abbrev gate : World → BuildingTile → Option String
gate w b = some "gate"

abbrev muster : UnitProduction ℤ → Player → String → BuildingTile → World → World
muster x p place b w = record w { next_item_instance_id = suc w.next_item_instance_id }

abbrev whole_seconds : Player → BuildingTile → String → ℤ
whole_seconds p b t = pos 12

abbrev orders : List (Order ℤ)
orders =
    train "ann" "b1" "spearman"
    ∷ elapse (pos 5)
    ∷ train "ann" "b1" "spearman"
    ∷ cancel "ann" "b1" (pos 1)
    ∷ []

abbrev empty_camp : Barracks ℤ
empty_camp = record { world = camp.world; productions = [] }

apply_orders-IsBounded_example :
    IsBounded (apply_orders whole longer gate muster units food whole_seconds orders empty_camp)
apply_orders-IsBounded_example =
    apply_orders-IsBounded whole longer gate muster units food whole_seconds orders empty_camp tt

-- A queue with one order that is nearly ready and one behind it.
abbrev order_of : ℤ → UnitProduction ℤ
order_of left = record {
  player_id = "ann";
  unit_type = "spearman";
  remaining_seconds = left;
  total_seconds = pos 12;
}

abbrev busy_camp : Barracks ℤ
busy_camp = record {
  world = camp.world;
  productions = ("b1", order_of (pos 2) ∷ order_of (pos 12) ∷ []) ∷ [];
}

update_unit_productions-Ticked_example :
    Ticked whole longer gate muster
      (pos 2)
      busy_camp
      "b1"
      (order_of (pos 2) ∷ order_of (pos 12) ∷ [])
      (queue_of "b1"
        (update_unit_productions whole longer gate muster (pos 2) busy_camp).productions)
update_unit_productions-Ticked_example =
    update_unit_productions-Ticked whole longer gate muster (pos 2) busy_camp "b1" (refl, tt)

first_leaves :
    (update_unit_productions whole longer gate muster (pos 2) busy_camp).productions
    ≡ ("b1", order_of (pos 12) ∷ []) ∷ []
unfolding update_unit_productions complete_all complete_unit_production count_down building_for
    consume_production_queue_item find_building ◌-ℤ◌
first_leaves = refl
