-- ===== src/Training.antt =====
-- Unit training (server/internal/game/state_production.go): paying for a unit, the queue of a
-- building, and cancelling. `units` is the unit catalog, `food_supply` what each building type feeds,
-- and `spawn_seconds` the time that `getEffectiveUnitSpawnSecondsLocked` gives, in floats.
pub mod Refunds
pub mod Queues
pub mod Production
use web_rts_nomads.Base.{
  ℕ, zero, suc, ◌+◌, String, Bool, true, false, Option, none, some, List, [], ◌∷◌, ◌++◌, Dict,
  lookup, insert, delete, str_eq, contains, ltb, leb, if◌then◌else◌, not, ◌&&◌, length, get_elem?,
  remove_at,
}
use web_rts_nomads.Base.Int.{ℤ, pos, negsuc, ltb_ℤ, leb_ℤ, ◌+ℤ◌, ◌-ℤ◌}
use web_rts_nomads.World.{Player, GameUnit, BuildingTile, World, amount, owned_by, find_building}

pub record UnitDef : Type 0 where
  pub resource_cost : Dict ℤ
  pub meat_cost : ℤ
  pub requires_buildings : List String

pub record UnitProduction (Seconds : Type 0) : Type 0 where
  pub player_id : String
  pub unit_type : String
  pub remaining_seconds : Seconds
  pub total_seconds : Seconds

pub record Barracks (Seconds : Type 0) : Type 0 where
  pub world : World
  pub productions : Dict (List (UnitProduction Seconds))

abbrev pub unit_production_max_queue : ℕ
unit_production_max_queue = 8

abbrev stands_for : String → String → BuildingTile → Bool
stands_for player_id building_type b =
    b.visible
    && (str_eq b.building_type building_type
        && (owned_by player_id b.owner_id && not b.under_construction))

pub player_has_building_type : String → String → List BuildingTile → Bool
player_has_building_type player_id building_type [] = false
player_has_building_type player_id building_type (b ∷ bs) =
    let rest = player_has_building_type player_id building_type bs in
    if stands_for player_id building_type b then true else rest

unfoldable pub has_all : String → List String → List BuildingTile → Bool
has_all player_id [] bs = true
has_all player_id (t ∷ ts) bs =
    let rest = has_all player_id ts bs in
    if player_has_building_type player_id t bs then rest else false

-- The loops over a unit's `ResourceCost`.
unfoldable pub affords : Dict ℤ → Dict ℤ → Bool
affords [] resources = true
affords ((k, cost) ∷ costs) resources =
    let rest = affords costs resources in if ltb_ℤ (amount k resources) cost then false else rest

unfoldable pub pay_cost : Dict ℤ → Dict ℤ → Dict ℤ
pay_cost [] resources = resources
pay_cost ((k, cost) ∷ costs) resources =
    pay_cost costs (insert k (amount k resources -ℤ cost) resources)

unfoldable pub refund_cost : Dict ℤ → Dict ℤ → Dict ℤ
refund_cost [] resources = resources
refund_cost ((k, cost) ∷ costs) resources =
    refund_cost costs (insert k (amount k resources +ℤ cost) resources)

-- The queue of a building; a missing one is empty.
abbrev pub queue_of :
    {Seconds : Type 0}
    → String
    → Dict (List (UnitProduction Seconds))
    → List (UnitProduction Seconds)
queue_of id m = elim (lookup id m) [ none ↦ [] | some q ↦ q ]

unfoldable pub consume_production_queue_item :
    {Seconds : Type 0}
    → String
    → Dict (List (UnitProduction Seconds))
    → Dict (List (UnitProduction Seconds))
consume_production_queue_item id m = elim (queue_of id m) [
  | [] ↦ delete id m
  | x ∷ rest ↦ elim rest [ [] ↦ delete id m | y ∷ more ↦ insert id (y ∷ more) m ]
]

module _ {Seconds : Type 0} (units : Dict UnitDef) (food_supply : Dict ℤ)
    (spawn_seconds : Player → BuildingTile → String → Seconds) where
  abbrev pub meat_of : String → ℤ
  meat_of unit_type = elim (lookup unit_type units) [ none ↦ pos 0 | some d ↦ d.meat_cost ]

  unfoldable pub meat_of_units : String → List GameUnit → ℤ
  meat_of_units player_id [] = pos 0
  meat_of_units player_id (u ∷ us) =
      let rest = meat_of_units player_id us in
      if str_eq u.owner_id player_id then meat_of u.unit_type +ℤ rest else rest

  pub meat_of_queue : String → List (UnitProduction Seconds) → ℤ
  meat_of_queue player_id [] = pos 0
  meat_of_queue player_id (x ∷ xs) =
      let rest = meat_of_queue player_id xs in
      if str_eq x.player_id player_id then meat_of x.unit_type +ℤ rest else rest

  unfoldable pub meat_of_queues : String → Dict (List (UnitProduction Seconds)) → ℤ
  meat_of_queues player_id [] = pos 0
  meat_of_queues player_id ((id, q) ∷ m) = meat_of_queue player_id q +ℤ meat_of_queues player_id m

  unfoldable pub get_used_meat_for_player : String → Barracks Seconds → ℤ
  get_used_meat_for_player player_id s =
      meat_of_units player_id s.world.units +ℤ meat_of_queues player_id s.productions

  unfoldable pub max_meat_of : String → List BuildingTile → ℤ
  max_meat_of player_id [] = pos 0
  max_meat_of player_id (b ∷ bs) =
      let rest = max_meat_of player_id bs in
      if owned_by player_id b.owner_id && not b.under_construction
      then elim (lookup b.building_type food_supply) [ none ↦ rest | some n ↦ n +ℤ rest ]
      else rest

  unfoldable pub can_afford_meat_cost : String → UnitDef → Barracks Seconds → Bool
  can_afford_meat_cost player_id d s =
      leb_ℤ (get_used_meat_for_player player_id s +ℤ d.meat_cost)
        (max_meat_of player_id s.world.buildings)

  -- Everything that an order has passed once it is carried out.
  unfoldable pub train_checked :
      String → String → String → Barracks Seconds → Option (Player × BuildingTile × UnitDef)
  train_checked player_id building_id unit_type s = elim (lookup unit_type units) [
    | none ↦ none
    | some d ↦ elim (find_building building_id s.world.buildings) [
      | none ↦ none
      | some b ↦ elim (lookup player_id s.world.players) [
        | none ↦ none
        | some p ↦
            if b.visible
              && (owned_by player_id b.owner_id
                  && (not b.under_construction
                      && (contains b.spawn_unit_types unit_type
                          && (has_all player_id d.requires_buildings s.world.buildings
                              && (ltb (length (queue_of building_id s.productions))
                                    unit_production_max_queue
                                  && (affords d.resource_cost p.resources
                                      && can_afford_meat_cost player_id d s))))))
            then some (p, b, d)
            else none
      ]
    ]
  ]

  unfoldable pub train_unit : String → String → String → Barracks Seconds → Barracks Seconds
  train_unit player_id building_id unit_type s =
      elim (train_checked player_id building_id unit_type s) [
        | none ↦ s
        | some (p, b, d) ↦
            let paid = record p { resources = pay_cost d.resource_cost p.resources } in
            let seconds = spawn_seconds paid b unit_type in
            let order : UnitProduction Seconds = record {
              player_id = p.id;
              unit_type = unit_type;
              remaining_seconds = seconds;
              total_seconds = seconds;
            } in
            record {
              world = record s.world { players = insert player_id paid s.world.players };
              productions = insert b.id (queue_of b.id s.productions ++ order ∷ []) s.productions;
            }
      ]

  unfoldable pub refund_unit_cost : String → Player → Player
  refund_unit_cost unit_type p = elim (lookup unit_type units) [
    | none ↦ p
    | some d ↦ record p { resources = refund_cost d.resource_cost p.resources }
  ]

  -- The first entry is consumed; one behind it is spliced out.
  unfoldable pub drop_order :
      String → ℕ → Dict (List (UnitProduction Seconds)) → Dict (List (UnitProduction Seconds))
  drop_order id zero m = consume_production_queue_item id m
  drop_order id (suc i) m = elim (remove_at (suc i) (queue_of id m)) [
    | [] ↦ delete id m
    | x ∷ rest ↦ insert id (x ∷ rest) m
  ]

  unfoldable pub cancel_checked :
      String
      → String
      → ℤ
      → Barracks Seconds
      → Option (Player × BuildingTile × ℕ × UnitProduction Seconds)
  cancel_checked player_id building_id (negsuc n) s = none
  cancel_checked player_id building_id (pos i) s =
      elim (find_building building_id s.world.buildings) [
        | none ↦ none
        | some b ↦ elim (get_elem? (queue_of b.id s.productions) i) [
          | none ↦ none
          | some x ↦ elim (lookup player_id s.world.players) [
            | none ↦ none
            | some p ↦
                if b.visible
                  && (contains b.capabilities "unit-spawner" && owned_by player_id b.owner_id)
                then some (p, b, i, x)
                else none
          ]
        ]
      ]

  unfoldable pub cancel_training_at : String → String → ℤ → Barracks Seconds → Barracks Seconds
  cancel_training_at player_id building_id queue_index s =
      elim (cancel_checked player_id building_id queue_index s) [
        | none ↦ s
        | some (p, b, i, x) ↦ record {
          world = record s.world {
            players = insert player_id (refund_unit_cost x.unit_type p) s.world.players;
          };
          productions = drop_order b.id i s.productions;
        }
      ]

  unfoldable pub cancel_current_training : String → String → Barracks Seconds → Barracks Seconds
  cancel_current_training player_id building_id s =
      cancel_training_at player_id building_id (pos 0) s
