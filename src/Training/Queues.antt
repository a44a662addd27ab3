-- ===== src/Training/Queues.antt =====
-- No sequence of requests makes a building's training queue longer than its cap.
use web_rts_nomads.Base.{
  ℕ, zero, suc, ◌≤◌, ◌≡◌, String, true, Option, some, List, [], ◌∷◌, Dict, lookup, insert, delete,
  length, remove_at, arith, All, All-insert, All-lookup, inl, inr, Option-cases, length-append, ltb,
  ltb→lt, subst, sym,
}
use web_rts_nomads.Base.Int.{ℤ}
use web_rts_nomads.Base.Float.{Float64}
use web_rts_nomads.World.{Player, BuildingTile, World, find_building}
use web_rts_nomads.World.Updates.{find_building-id}
use web_rts_nomads.Training.Production.{
  count_down, complete_unit_production, complete_all, update_unit_productions,
}
use web_rts_nomads.Training.Production.Completion.{
  Completed, cleared, consumes, waits_for_place, complete-Completed,
}
use web_rts_nomads.Training.{
  UnitDef, UnitProduction, Barracks, queue_of, consume_production_queue_item, train_checked,
  train_unit, drop_order, cancel_checked, cancel_training_at, unit_production_max_queue,
}

abbrev pub HasRoom : {Seconds : Type 0} → String × List (UnitProduction Seconds) → Type 0
HasRoom kv = length kv.1 ≤ unit_production_max_queue

-- Every queue is within the cap.
abbrev pub IsBounded : {Seconds : Type 0} → Barracks Seconds → Type 0
IsBounded s = All HasRoom s.productions

pub data Order (Seconds : Type 0) : Type 0 where
  train : String → String → String → Order Seconds
  cancel : String → String → ℤ → Order Seconds
  elapse : Seconds → Order Seconds

module _ {Seconds : Type 0} where
  queue_of-room :
      (id : String) (m : Dict (List (UnitProduction Seconds)))
      → All HasRoom m
      → length (queue_of id m) ≤ unit_production_max_queue
  queue_of-room id m h = elim (Option-cases (lookup id m)) [
    | inl n ↦ ground (arith, n)
    | inr (q, e) ↦ ground (arith, e, All-lookup HasRoom id q m h e)
  ]

  All-delete :
      (id : String) (m : Dict (List (UnitProduction Seconds)))
      → All HasRoom m
      → All HasRoom (delete id m)
  All-delete id [] h = h
  All-delete id ((k, q) ∷ m) h = ground (arith, All-delete id m h.1)

  remove_at-le : (i : ℕ) (q : List (UnitProduction Seconds)) → length (remove_at i q) ≤ length q
  remove_at-le i [] = omega arith
  remove_at-le zero (x ∷ q) = omega arith
  remove_at-le (suc i) (x ∷ q) = omega (arith, remove_at-le i q)

  consume-room :
      (id : String) (m : Dict (List (UnitProduction Seconds)))
      → All HasRoom m
      → All HasRoom (consume_production_queue_item id m)
  unfolding consume_production_queue_item
  consume-room id m h = go (queue_of id m) (queue_of-room id m h)
    where
      go :
          (q : List (UnitProduction Seconds))
          → length q ≤ unit_production_max_queue
          → All HasRoom (elim q [
            | [] ↦ delete id m
            | x ∷ rest ↦ elim rest [ [] ↦ delete id m | y ∷ more ↦ insert id (y ∷ more) m ]
          ])
      go [] l = All-delete id m h
      go (x ∷ []) l = All-delete id m h
      go (x ∷ y ∷ more) l = All-insert HasRoom id (y ∷ more) m h (omega arith)

module _ {Seconds : Type 0} (units : Dict UnitDef) (food_supply : Dict ℤ)
    (spawn_seconds : Player → BuildingTile → String → Seconds) where
  train_checked-room :
      (p b t : String) (s : Barracks Seconds) (player : Player) (tile : BuildingTile) (d : UnitDef)
      → train_checked units food_supply spawn_seconds p b t s ≡ some (player, tile, d)
      → (find_building b s.world.buildings ≡ some tile)
        × (ltb (length (queue_of b s.productions)) unit_production_max_queue ≡ true)
  unfolding train_checked
  train_checked-room p b t s player tile d e = ground arith

  train_unit-IsBounded :
      (p b t : String) (s : Barracks Seconds)
      → IsBounded s
      → IsBounded (train_unit units food_supply spawn_seconds p b t s)
  unfolding train_unit
  train_unit-IsBounded p b t s h =
      elim (Option-cases (train_checked units food_supply spawn_seconds p b t s)) [
        | inl n ↦ rw (train_unit, n) h
        | inr ((player, tile, d), e) ↦
            let (found, room) = train_checked-room p b t s player tile d e in
            let same : tile.id ≡ b = find_building-id b s.world.buildings found in
            let short =
              subst (λ i. ltb (length (queue_of i s.productions)) unit_production_max_queue ≡ true)
                (sym same) room in
            rw (train_unit, e)
              (All-insert HasRoom tile.id _ s.productions h
                (omega (arith, length-append (queue_of tile.id s.productions), ltb→lt _ _ short)))
      ]

  drop_order-room :
      (id : String) (i : ℕ) (m : Dict (List (UnitProduction Seconds)))
      → All HasRoom m
      → All HasRoom (drop_order units food_supply spawn_seconds id i m)
  unfolding drop_order consume_production_queue_item
  drop_order-room id zero m h = consume-room id m h
  drop_order-room id (suc i) m h =
      go (remove_at (suc i) (queue_of id m))
        (omega (arith, remove_at-le (suc i) (queue_of id m), queue_of-room id m h))
    where
      go :
          (q : List (UnitProduction Seconds))
          → length q ≤ unit_production_max_queue
          → All HasRoom (elim q [ [] ↦ delete id m | x ∷ rest ↦ insert id (x ∷ rest) m ])
      go [] l = All-delete id m h
      go (x ∷ rest) l = All-insert HasRoom id (x ∷ rest) m h l

  cancel_training_at-IsBounded :
      (p b : String) (i : ℤ) (s : Barracks Seconds)
      → IsBounded s
      → IsBounded (cancel_training_at units food_supply spawn_seconds p b i s)
  unfolding cancel_training_at
  cancel_training_at-IsBounded p b i s h =
      elim (Option-cases (cancel_checked units food_supply spawn_seconds p b i s)) [
        | inl n ↦ rw (cancel_training_at, n) h
        | inr ((player, tile, k, x), e) ↦
            rw (cancel_training_at, e) (drop_order-room tile.id k s.productions h)
      ]

module _ (F : Float64) (max_float : F.Float → F.Float → F.Float) {Place : Type 0}
    (spawn_position : World → BuildingTile → Option Place)
    (spawn_player_unit : UnitProduction F.Float
      → Player
      → Place
      → BuildingTile
      → World
      → World) where
  Completed-room :
      (id : String) {s t : Barracks F.Float}
      → Completed F max_float spawn_position spawn_player_unit id s t
      → IsBounded s
      → IsBounded t
  Completed-room id {s = s} (cleared e left) h =
      subst (All HasRoom) (sym left) (All-delete id s.productions h)
  Completed-room id {s = s} (consumes x q e free left) h =
      subst (All HasRoom) (sym left) (consume-room id s.productions h)
  Completed-room id (waits_for_place x q e blocked) h = h

  each-room :
      (ids : List String) (s : Barracks F.Float)
      → IsBounded s
      → IsBounded (complete_all F max_float spawn_position spawn_player_unit ids s)
  unfolding complete_all
  each-room [] s h = h
  each-room (id ∷ ids) s h =
      each-room ids (complete_unit_production F max_float spawn_position spawn_player_unit id s)
        (Completed-room id (complete-Completed F max_float spawn_position spawn_player_unit id s) h)

  count_down-room :
      (dt : F.Float) (m : Dict (List (UnitProduction F.Float)))
      → All HasRoom m
      → All HasRoom (count_down F max_float dt m).0
  unfolding count_down
  count_down-room dt [] h = tt
  count_down-room dt ((id, []) ∷ m) h = (omega arith, count_down-room dt m h.1)
  count_down-room dt ((id, x ∷ q) ∷ m) h = (h.0, count_down-room dt m h.1)

  update_unit_productions-IsBounded :
      (dt : F.Float) (s : Barracks F.Float)
      → IsBounded s
      → IsBounded (update_unit_productions F max_float spawn_position spawn_player_unit dt s)
  unfolding update_unit_productions
  update_unit_productions-IsBounded dt s h = go s.productions h
    where
      go :
          (m : Dict (List (UnitProduction F.Float)))
          → All HasRoom m
          → IsBounded (
              update_unit_productions F max_float spawn_position spawn_player_unit dt
                (record s { productions = m }))
      go [] k = tt
      go (entry ∷ m) k = each-room _ _ (count_down-room dt (entry ∷ m) k)

  module _ (units : Dict UnitDef) (food_supply : Dict ℤ)
      (spawn_seconds : Player → BuildingTile → String → F.Float) where
    pub apply_order : Order F.Float → Barracks F.Float → Barracks F.Float
    apply_order (train p b t) s = train_unit units food_supply spawn_seconds p b t s
    apply_order (cancel p b i) s = cancel_training_at units food_supply spawn_seconds p b i s
    apply_order (elapse dt) s =
        update_unit_productions F max_float spawn_position spawn_player_unit dt s

    pub apply_orders : List (Order F.Float) → Barracks F.Float → Barracks F.Float
    apply_orders [] s = s
    apply_orders (o ∷ os) s = apply_orders os (apply_order o s)

    apply_order-IsBounded :
        (o : Order F.Float) (s : Barracks F.Float) → IsBounded s → IsBounded (apply_order o s)
    unfolding apply_order
    apply_order-IsBounded (train p b t) s h =
        train_unit-IsBounded units food_supply spawn_seconds p b t s h
    apply_order-IsBounded (cancel p b i) s h =
        cancel_training_at-IsBounded units food_supply spawn_seconds p b i s h
    apply_order-IsBounded (elapse dt) s h = update_unit_productions-IsBounded dt s h

    -- Trainings, cancellations and ticks of production, in any order, leave every building's queue
    -- within the cap.
    pub apply_orders-IsBounded :
        (os : List (Order F.Float)) (s : Barracks F.Float)
        → IsBounded s
        → IsBounded (apply_orders os s)
    unfolding apply_orders
    apply_orders-IsBounded [] s h = h
    apply_orders-IsBounded (o ∷ os) s h =
        apply_orders-IsBounded os (apply_order o s) (apply_order-IsBounded o s h)
