-- ===== src/Training/Production/Ticks.antt =====
-- What a tick does to the queue of each building.
use web_rts_nomads.Base.{
  ◌≡◌, refl, sym, ap, ◌∙◌, subst, String, Bool-cases, true, false, Option, none, some, List, [],
  ◌∷◌, ◌++◌, Dict, lookup, Unique, contains, inl, inr,
}
use web_rts_nomads.Base.Float.{Float64}
use web_rts_nomads.World.{Player, BuildingTile, World}
use web_rts_nomads.Training.{UnitProduction, Barracks, queue_of}
use web_rts_nomads.Training.Production.Completion
use web_rts_nomads.Training.Production.Completion.{gone, spent, stuck, each-other, each-own}
use web_rts_nomads.Training.Production.Counts.{
  orders_in, queue_of-count_down, marked, contains-count_down, IsDistinct-count_down,
}
use web_rts_nomads.Training.Production.{
  counted, counted_queue, finished, count_down, complete_all, update_unit_productions,
}

module _ (F : Float64) (max_float : F.Float → F.Float → F.Float) where
  open F use {Float, minus, at_most, of_int}

  abbrev count :
      Float → Dict (List (UnitProduction Float)) → Dict (List (UnitProduction Float)) × List String
  count = count_down F max_float

  module _ {Place : Type 0} (spawn_position : World → BuildingTile → Option Place)
      (spawn_player_unit : UnitProduction Float
        → Player
        → Place
        → BuildingTile
        → World
        → World) where
    abbrev each : List String → Barracks Float → Barracks Float
    each = complete_all F max_float spawn_position spawn_player_unit

    abbrev IsStuck : String → UnitProduction Float → World → Type 0
    IsStuck = Completion.IsStuck F max_float spawn_position spawn_player_unit

    abbrev Done :
        String → World → List (UnitProduction Float) → List (UnitProduction Float) → Type 0
    Done = Completion.Done F max_float spawn_position spawn_player_unit

    -- The match when a tick has counted down all queues.
    abbrev counted_down : Float → Barracks Float → Barracks Float
    counted_down dt s = record s { productions = (count dt s.productions).0 }

    -- A world in which a tick comes to the building id: those before it in the order are completed.
    pub record Reaches (dt : Float) (s : Barracks Float) (id : String) (w : World) : Type 0 where
      pub before : List String
      pub rest : List String
      pub split : (count dt s.productions).1 ≡ before ++ id ∷ rest
      pub when : (each before (counted_down dt s)).world ≡ w

    -- A building's queue before and after a tick of length dt: it is empty; its first order has come
    -- nearer, and is not ready; or it is ready, and stays exactly if it is stuck at its turn.
    pub data Ticked (dt : Float) (s : Barracks Float) (id : String)
        : List (UnitProduction Float) → List (UnitProduction Float) → Type 0 where
      idle : Ticked dt s id [] []
      nearer :
          {x : UnitProduction Float} {q : List (UnitProduction Float)}
          → finished F max_float dt (x ∷ q) ≡ false
          → Ticked dt s id (x ∷ q) (counted F max_float dt x ∷ q)
      ready :
          {x : UnitProduction Float} {q : List (UnitProduction Float)} (w : World)
          → finished F max_float dt (x ∷ q) ≡ true
          → Reaches dt s id w
          → ¬ IsStuck id (counted F max_float dt x) w
          → Ticked dt s id (x ∷ q) q
      no_room :
          {x : UnitProduction Float} {q : List (UnitProduction Float)} (w : World)
          → finished F max_float dt (x ∷ q) ≡ true
          → Reaches dt s id w
          → IsStuck id (counted F max_float dt x) w
          → Ticked dt s id (x ∷ q) (counted F max_float dt x ∷ q)

    Done-Ticked :
        (dt : Float) (s : Barracks Float) (id : String) (w : World)
        (q r : List (UnitProduction Float))
        → finished F max_float dt q ≡ true
        → Reaches dt s id w
        → Done id w (counted_queue F max_float dt q) r
        → Ticked dt s id q r
    Done-Ticked dt s id w [] r full turn gone = idle
    Done-Ticked dt s id w (x ∷ q) r full turn (spent free) = ready w full turn free
    Done-Ticked dt s id w (x ∷ q) r full turn (stuck blocked) = no_room w full turn blocked

    early-Ticked :
        (dt : Float) (s : Barracks Float) (id : String) (o : Option (List (UnitProduction Float)))
        → marked F max_float dt o ≡ false
        → Ticked dt s id (orders_in o) (counted_queue F max_float dt (orders_in o))
    early-Ticked dt s id none early = idle
    early-Ticked dt s id (some []) early = cc
    early-Ticked dt s id (some (x ∷ q)) early = nearer early

    marked-finished :
        (dt : Float) (o : Option (List (UnitProduction Float)))
        → marked F max_float dt o ≡ true
        → finished F max_float dt (orders_in o) ≡ true
    marked-finished dt none h = refl
    marked-finished dt (some q) h = h

    -- In a tick, a building's queue is empty and stays so; or its first order comes nearer by the
    -- tick's length and is not ready; or it is ready, and leaves the queue exactly if, after the
    -- buildings before it, its own building is missing, hidden or another's, its player is gone, or
    -- a place to spawn is free. The orders behind it are as they were.
    pub update_unit_productions-Ticked :
        (dt : Float) (s : Barracks Float) (id : String)
        → Unique s.productions
        → Ticked dt s id (queue_of id s.productions) (
            queue_of id
              (update_unit_productions F max_float spawn_position spawn_player_unit dt
                s).productions)
    unfolding update_unit_productions
    update_unit_productions-Ticked dt s id unique = go s.productions unique
      where
        at : Dict (List (UnitProduction Float)) → Barracks Float
        at m = record s { productions = m }

        after : Dict (List (UnitProduction Float)) → Barracks Float
        after m = each (count dt m).1 (record s { productions = (count dt m).0 })

        ticks :
            (m : Dict (List (UnitProduction Float)))
            → Unique m
            → Ticked dt (at m) id (queue_of id m) (queue_of id (after m).productions)
        ticks m u = elim (Bool-cases (contains (count dt m).1 id)) [
          | inl done ↦
              let full = sym (contains-count_down F max_float dt id m u) ∙ done in
              let turn =
                each-own F max_float spawn_position spawn_player_unit (count dt m).1 id
                  (counted_down dt (at m)) (IsDistinct-count_down F max_float dt m u) done in
              let w = (each turn.before (counted_down dt (at m))).world in
              Done-Ticked dt (at m) id w (queue_of id m) (queue_of id (after m).productions)
                (marked-finished dt (lookup id m) full)
                (record { before = turn.before; rest = turn.rest; split = turn.split; when = refl })
                (subst (λ q. Done id w q (queue_of id (after m).productions))
                  (queue_of-count_down F max_float dt id m) turn.done)
          | inr early ↦
              let waits = sym (contains-count_down F max_float dt id m u) ∙ early in
              let left =
                each-other F max_float spawn_position spawn_player_unit (count dt m).1 id
                  (counted_down dt (at m)) early in
              subst (Ticked dt (at m) id (queue_of id m))
                (sym (ap orders_in left ∙ queue_of-count_down F max_float dt id m))
                (early-Ticked dt (at m) id (lookup id m) waits)
        ]

        go :
            (m : Dict (List (UnitProduction Float)))
            → Unique m
            → Ticked dt (at m) id (queue_of id m) (
                queue_of id
                  (update_unit_productions F max_float spawn_position spawn_player_unit dt
                    (record s { productions = m })).productions)
        go [] u = idle
        go (entry ∷ m) u = ticks (entry ∷ m) u
