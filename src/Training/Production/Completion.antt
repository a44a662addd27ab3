-- ===== src/Training/Production/Completion.antt =====
-- What a tick's completions do to the queue of each building.
use web_rts_nomads.Base.{
  ◌≡◌, refl, sym, ap, ◌∙◌, subst, String, Bool-cases, true, false, Option, none, some, Option-cases,
  List, [], ◌∷◌, ◌++◌, some-inj, Dict, lookup, delete, lookup-delete, str_eq, str_eq_refl,
  str_eq→eq, contains, IsDistinct, List-cases, arith, inl, inr,
}
use web_rts_nomads.Base.Float.{Float64}
use web_rts_nomads.World.{Player, BuildingTile, World, find_building, owned_by}
use web_rts_nomads.Training.{UnitProduction, Barracks, queue_of, consume_production_queue_item}
use web_rts_nomads.Training.Production.Counts.{orders_in, lookup-consume, queue_of-consume}
use web_rts_nomads.Training.Production.{
  count_down, building_for, complete_unit_production, complete_all,
}

module _ (F : Float64) (max_float : F.Float → F.Float → F.Float) where
  open F use {Float, minus, at_most, of_int}

  abbrev count :
      Float → Dict (List (UnitProduction Float)) → Dict (List (UnitProduction Float)) × List String
  count = count_down F max_float

  module _ {Place : Type 0} (spawn_position : World → BuildingTile → Option Place)
      (spawn_player_unit : UnitProduction Float
        → Player
        → Place
        → BuildingTile
        → World
        → World) where
    abbrev pub complete : String → Barracks Float → Barracks Float
    complete = complete_unit_production F max_float spawn_position spawn_player_unit

    abbrev pub each : List String → Barracks Float → Barracks Float
    each = complete_all F max_float spawn_position spawn_player_unit

    -- In the world w, the building id stands and is the order's player's, who is in the match, and no
    -- place to spawn is free.
    pub record IsStuck (id : String) (x : UnitProduction Float) (w : World) : Type 0 where
      pub building : BuildingTile
      pub player : Player
      pub found : find_building id w.buildings ≡ some building
      pub stands : building.visible ≡ true
      pub owned : owned_by x.player_id building.owner_id ≡ true
      pub known : lookup x.player_id w.players ≡ some player
      pub nowhere : spawn_position w building ≡ none

    -- A completed queue has its first order still if that is stuck, and else has lost it.
    pub data Done (id : String) (w : World)
        : List (UnitProduction Float) → List (UnitProduction Float) → Type 0 where
      gone : Done id w [] []
      spent :
          {x : UnitProduction Float} {q : List (UnitProduction Float)}
          → ¬ IsStuck id x w
          → Done id w (x ∷ q) q
      stuck :
          {x : UnitProduction Float} {q : List (UnitProduction Float)}
          → IsStuck id x w
          → Done id w (x ∷ q) (x ∷ q)

    -- What a completion leaves: the queues without the building's first order, or all of them.
    pub data Completed (id : String) : Barracks Float → Barracks Float → Type 0 where
      cleared :
          {s t : Barracks Float}
          → queue_of id s.productions ≡ []
          → t.productions ≡ delete id s.productions
          → Completed id s t
      consumes :
          {s t : Barracks Float} (x : UnitProduction Float) (q : List (UnitProduction Float))
          → queue_of id s.productions ≡ x ∷ q
          → ¬ IsStuck id x s.world
          → t.productions ≡ consume_production_queue_item id s.productions
          → Completed id s t
      waits_for_place :
          {s : Barracks Float} (x : UnitProduction Float) (q : List (UnitProduction Float))
          → queue_of id s.productions ≡ x ∷ q
          → IsStuck id x s.world
          → Completed id s s

    building_for-parts :
        (id : String) (x : UnitProduction Float) (w : World) (b : BuildingTile)
        → building_for F max_float id x w ≡ some b
        → (find_building id w.buildings ≡ some b)
          × (b.visible ≡ true)
          × (owned_by x.player_id b.owner_id ≡ true)
    unfolding building_for
    building_for-parts id x w b e = ground arith

    no_building :
        (id : String) (x : UnitProduction Float) (w : World)
        → building_for F max_float id x w ≡ none
        → ¬ IsStuck id x w
    unfolding building_for
    no_building id x w n st =
        let found = st.found in
        let stands = st.stands in
        let owned = st.owned in
        let both : none ≡ some st.building = sym n ∙ rw (building_for, found, stands, owned) refl in
        cc

    building_for-IsStuck :
        (id : String) (x : UnitProduction Float) (w : World) (b : BuildingTile) (p : Player)
        → building_for F max_float id x w ≡ some b
        → lookup x.player_id w.players ≡ some p
        → spawn_position w b ≡ none
        → IsStuck id x w
    building_for-IsStuck id x w b p found known n =
        let (there, stands, owned) = building_for-parts id x w b found in
        record {
          building = b;
          player = p;
          found = there;
          stands = stands;
          owned = owned;
          known = known;
          nowhere = n;
        }

    has_place :
        (id : String) (x : UnitProduction Float) (w : World) (b : BuildingTile) (place : Place)
        → building_for F max_float id x w ≡ some b
        → spawn_position w b ≡ some place
        → ¬ IsStuck id x w
    has_place id x w b place found free st =
        let same : b ≡ st.building =
          some-inj (sym (building_for-parts id x w b found).0 ∙ st.found) in
        let nowhere : spawn_position w b ≡ none =
          subst (λ c. spawn_position w c ≡ none) (sym same) st.nowhere in
        let both : none ≡ some place = sym nowhere ∙ free in cc

    pub complete-Completed : (id : String) (s : Barracks Float) → Completed id s (complete id s)
    unfolding complete_unit_production
    complete-Completed id s = elim (List-cases (queue_of id s.productions)) [
      | inl e ↦ rw (complete_unit_production, e) (cleared e refl)
      | inr (x, q, e) ↦ elim (Option-cases (building_for F max_float id x s.world)) [
        | inl n ↦
            rw (complete_unit_production, e, n) (consumes x q e (no_building id x s.world n) refl)
        | inr (b, found) ↦ elim (Option-cases (lookup x.player_id s.world.players)) [
          | inl n ↦
              rw (complete_unit_production, e, found, n)
                (consumes x q e (λ st. let both : none ≡ some st.player = sym n ∙ st.known in cc)
                  refl)
          | inr (p, known) ↦ elim (Option-cases (spawn_position s.world b)) [
            | inl n ↦
                rw (complete_unit_production, e, found, known, n)
                  (waits_for_place x q e (building_for-IsStuck id x s.world b p found known n))
            | inr (place, free) ↦
                rw (complete_unit_production, e, found, known, free)
                  (consumes x q e (has_place id x s.world b place found free) refl)
          ]
        ]
      ]
    ]

    Completed-other :
        (id j : String) {s t : Barracks Float}
        → str_eq id j ≡ false
        → Completed id s t
        → lookup j t.productions ≡ lookup j s.productions
    Completed-other id j {s = s} other (cleared e left) =
        ap (lookup j) left ∙ ground (arith, lookup-delete id j s.productions, other)
    Completed-other id j {s = s} other (consumes x q e free left) =
        ap (lookup j) left ∙ lookup-consume id j s.productions other
    Completed-other id j other (waits_for_place x q e blocked) = refl

    Completed-own :
        (id : String) {s t : Barracks Float}
        → Completed id s t
        → Done id s.world (queue_of id s.productions) (queue_of id t.productions)
    Completed-own id {s = s} {t = t} (cleared e left) =
        subst (λ a. Done id s.world a (queue_of id t.productions)) (sym e)
          (subst (Done id s.world [])
            (sym (
              ap (queue_of id) left
              ∙ ground (arith, lookup-delete id id s.productions, str_eq_refl id)))
            gone)
    Completed-own id {s = s} {t = t} (consumes x q e free left) =
        subst (λ a. Done id s.world a (queue_of id t.productions)) (sym e)
          (subst (Done id s.world (x ∷ q))
            (sym (ap (queue_of id) left ∙ queue_of-consume id x q s.productions e)) (spent free))
    Completed-own id {s = s} (waits_for_place x q e blocked) =
        subst (λ a. Done id s.world a a) (sym e) (stuck blocked)

    pub each-other :
        (ids : List String) (j : String) (s : Barracks Float)
        → contains ids j ≡ false
        → lookup j (each ids s).productions ≡ lookup j s.productions
    unfolding complete_all
    each-other [] j s absent = refl
    each-other (id ∷ ids) j s absent =
        each-other ids j (complete id s) (ground (arith, absent))
        ∙ Completed-other id j (ground (arith, absent)) (complete-Completed id s)

    -- The completion of one of the buildings, after those that stand before it in the order.
    pub record Turn (ids : List String) (j : String) (s : Barracks Float)
        (q r : List (UnitProduction Float)) : Type 0 where
      pub before : List String
      pub rest : List String
      pub split : ids ≡ before ++ j ∷ rest
      pub done : Done j (each before s).world q r

    pub each-own :
        (ids : List String) (j : String) (s : Barracks Float)
        → IsDistinct ids
        → contains ids j ≡ true
        → Turn ids j s (queue_of j s.productions) (queue_of j (each ids s).productions)
    unfolding complete_all
    each-own [] j s distinct present = cc
    each-own (id ∷ ids) j s distinct present = elim (Bool-cases (str_eq id j)) [
      | inl same ↦
          let here : id ≡ j = str_eq→eq id j same in
          let rest =
            each-other ids j (complete id s)
              (subst (λ i. contains ids i ≡ false) here distinct.0) in
          record {
            before = [];
            rest = ids;
            split = ap (λ i. i ∷ ids) here;
            done = subst (Done j s.world (queue_of j s.productions)) (sym (ap orders_in rest)) (
                subst
                  (λ i.
                    Done i s.world (queue_of i s.productions)
                      (queue_of i (complete id s).productions))
                  here (Completed-own id (complete-Completed id s)));
          }
      | inr other ↦
          let first = Completed-other id j other (complete-Completed id s) in
          let turn = each-own ids j (complete id s) distinct.1 (ground (arith, present, other)) in
          record {
            before = id ∷ turn.before;
            rest = turn.rest;
            split = ap (λ l. id ∷ l) turn.split;
            done =
                subst
                  (λ q.
                    Done j (each turn.before (complete id s)).world q
                      (queue_of j (each ids (complete id s)).productions))
                  (ap orders_in first) turn.done;
          }
    ]
