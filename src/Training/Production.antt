-- ===== src/Training/Production.antt =====
-- updateUnitProductionsLocked and completeUnitProductionLocked of state_production.go.
-- `spawn_position` is getProductionSpawnPositionLocked, and `spawn_player_unit` what
-- spawnPlayerUnitLocked and the order to move to the rally point leave. `max_float` is math.Max.
pub mod Counts
pub mod Completion
pub mod Ticks
use web_rts_nomads.Base.{
  String, Bool, true, Option, none, some, List, [], ◌∷◌, Dict, lookup, delete, if◌then◌else◌, ◌&&◌,
}
use web_rts_nomads.Base.Int.{pos}
use web_rts_nomads.Base.Float.{Float64}
use web_rts_nomads.World.{Player, BuildingTile, World, owned_by, find_building}
use web_rts_nomads.Training.{UnitProduction, Barracks, queue_of, consume_production_queue_item}

module _ (F : Float64) (max_float : F.Float → F.Float → F.Float) where
  open F use {Float, minus, at_most, of_int}

  abbrev pub counted : Float → UnitProduction Float → UnitProduction Float
  counted dt x = record x {
    remaining_seconds = max_float (of_int (pos 0)) (minus x.remaining_seconds dt);
  }

  abbrev pub counted_queue : Float → List (UnitProduction Float) → List (UnitProduction Float)
  counted_queue dt [] = []
  counted_queue dt (x ∷ q) = counted dt x ∷ q

  abbrev pub finished : Float → List (UnitProduction Float) → Bool
  finished dt [] = true
  finished dt (x ∷ q) = at_most (counted dt x).remaining_seconds (of_int (pos 0))

  -- The loop over the queues: their first orders' times, and the buildings that are completed.
  unfoldable pub count_down :
      Float → Dict (List (UnitProduction Float)) → Dict (List (UnitProduction Float)) × List String
  count_down dt [] = ([], [])
  count_down dt ((id, q) ∷ m) =
      let (rest, completed) = count_down dt m in
      ((id, counted_queue dt q) ∷ rest, if finished dt q then id ∷ completed else completed)

  -- The building of an order, where it stands and is its player's.
  unfoldable pub building_for : String → UnitProduction Float → World → Option BuildingTile
  building_for id x w = elim (find_building id w.buildings) [
    | none ↦ none
    | some b ↦ if b.visible && owned_by x.player_id b.owner_id then some b else none
  ]

  module _ {Place : Type 0} (spawn_position : World → BuildingTile → Option Place)
      (spawn_player_unit : UnitProduction Float
        → Player
        → Place
        → BuildingTile
        → World
        → World) where
    abbrev consumed : String → Barracks Float → Barracks Float
    consumed id s = record s { productions = consume_production_queue_item id s.productions }

    unfoldable pub complete_unit_production : String → Barracks Float → Barracks Float
    complete_unit_production id s = elim (queue_of id s.productions) [
      | [] ↦ record s { productions = delete id s.productions }
      | x ∷ q ↦ elim (building_for id x s.world) [
        | none ↦ consumed id s
        | some b ↦ elim (lookup x.player_id s.world.players) [
          | none ↦ consumed id s
          | some p ↦ elim (spawn_position s.world b) [
            | none ↦ s
            | some place ↦ consumed id (record s { world = spawn_player_unit x p place b s.world })
          ]
        ]
      ]
    ]

    unfoldable pub complete_all : List String → Barracks Float → Barracks Float
    complete_all [] s = s
    complete_all (id ∷ ids) s = complete_all ids (complete_unit_production id s)

    unfoldable pub update_unit_productions : Float → Barracks Float → Barracks Float
    update_unit_productions dt s = elim s.productions [
      | [] ↦ s
      | entry ∷ m ↦
          let (counted_down, completed) = count_down dt (entry ∷ m) in
          complete_all completed (record s { productions = counted_down })
    ]
