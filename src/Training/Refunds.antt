-- ===== src/Training/Refunds.antt =====
-- An order that is cancelled leaves the player and the queue as they were before it.
use web_rts_nomads.Base.{
  ℕ, ◌≡◌, refl, String, true, none, some, List, [], ◌∷◌, ◌++◌, Dict, lookup, insert, delete, str_eq,
  contains, if◌then◌else◌, length, get_elem?, remove_at, arith, lookup-insert, lookup-delete,
  str_eq_refl, Bool-cases, inl, inr, ◌∙◌, ap, sym, subst, str_eq→eq,
}
use web_rts_nomads.Base.Int.{
  ℤ, pos, ◌+ℤ◌, ◌-ℤ◌, +ℤ_parts, eq_of_parts, +ℤ_swap, +ℤ_assoc, add-sub_self,
}
use web_rts_nomads.World.{Player, BuildingTile, amount, find_building, owned_by}
use web_rts_nomads.World.Updates.{find_building-id}
use web_rts_nomads.Training.{
  UnitDef, UnitProduction, Barracks, pay_cost, refund_cost, queue_of, consume_production_queue_item,
  train_checked, train_unit, refund_unit_cost, drop_order, cancel_checked, cancel_training_at,
}

-- What a list of costs asks of one resource.
abbrev pub cost_total : String → Dict ℤ → ℤ
cost_total k [] = pos 0
cost_total k ((j, c) ∷ costs) = if str_eq j k then c +ℤ cost_total k costs else cost_total k costs

amount-write :
    (j k : String) (n : ℤ) (m : Dict ℤ)
    → amount k (insert j n m) ≡ (if str_eq j k then n else amount k m)
amount-write j k n m = ground (arith, lookup-insert j k n m)

pay_cost-amount :
    (k : String) (c r : Dict ℤ) → amount k (pay_cost c r) +ℤ cost_total k c ≡ amount k r
unfolding pay_cost
pay_cost-amount k [] r = eq_of_parts _ _ (omega (arith, +ℤ_parts (amount k r) (pos 0)))
pay_cost-amount k ((j, c) ∷ costs) r = elim (Bool-cases (str_eq j k)) [
  | inl same ↦ rw same (
      +ℤ_swap (amount k (pay_cost costs (insert j (amount j r -ℤ c) r))) c (cost_total k costs)
      ∙ ap (λ t. c +ℤ t)
          (pay_cost-amount k costs (insert j (amount j r -ℤ c) r)
            ∙ (amount-write j k (amount j r -ℤ c) r ∙ rw same refl))
      ∙ add-sub_self c (amount j r)
      ∙ ap (λ t. amount t r) (str_eq→eq j k same))
  | inr other ↦ rw other (
      pay_cost-amount k costs (insert j (amount j r -ℤ c) r)
      ∙ (amount-write j k (amount j r -ℤ c) r ∙ rw other refl))
]

refund_cost-amount :
    (k : String) (c r : Dict ℤ) → amount k (refund_cost c r) ≡ amount k r +ℤ cost_total k c
unfolding refund_cost
refund_cost-amount k [] r = eq_of_parts _ _ (omega (arith, +ℤ_parts (amount k r) (pos 0)))
refund_cost-amount k ((j, c) ∷ costs) r = elim (Bool-cases (str_eq j k)) [
  | inl same ↦ rw same (
      refund_cost-amount k costs (insert j (amount j r +ℤ c) r)
      ∙ ap (λ t. t +ℤ cost_total k costs)
          (amount-write j k (amount j r +ℤ c) r
            ∙ rw same (ap (λ t. amount t r +ℤ c) (str_eq→eq j k same)))
      ∙ +ℤ_assoc (amount k r) c (cost_total k costs))
  | inr other ↦ rw other (
      refund_cost-amount k costs (insert j (amount j r +ℤ c) r)
      ∙ ap (λ t. t +ℤ cost_total k costs) (amount-write j k (amount j r +ℤ c) r ∙ rw other refl))
]

last_elem : {A : Type 0} (q : List A) (x : A) → get_elem? (q ++ x ∷ []) (length q) ≡ some x
last_elem [] x = refl
last_elem (y ∷ q) x = last_elem q x

remove_last : {A : Type 0} (q : List A) (x : A) → remove_at (length q) (q ++ x ∷ []) ≡ q
remove_last [] x = refl
remove_last (y ∷ q) x = ap (λ t. y ∷ t) (remove_last q x)

module _ {Seconds : Type 0} (units : Dict UnitDef) (food_supply : Dict ℤ)
    (spawn_seconds : Player → BuildingTile → String → Seconds) where
  queue_of-insert :
      (id : String) (q : List (UnitProduction Seconds)) (m : Dict (List (UnitProduction Seconds)))
      → queue_of id (insert id q m) ≡ q
  queue_of-insert id q m = ground (arith, lookup-insert id id q m, str_eq_refl id)

  drop_order-last :
      (id : String) (q : List (UnitProduction Seconds)) (x : UnitProduction Seconds)
      (m : Dict (List (UnitProduction Seconds)))
      → queue_of id
          (drop_order units food_supply spawn_seconds id (length q) (insert id (q ++ x ∷ []) m))
        ≡ q
  unfolding drop_order consume_production_queue_item
  drop_order-last id [] x m =
      let here = lookup-insert id id (x ∷ []) m in
      let gone : lookup id (delete id (insert id (x ∷ []) m)) ≡ none =
        lookup-delete id id (insert id (x ∷ []) m) ∙ rw (str_eq_refl id) refl in
      ground (arith, here, str_eq_refl id, gone)
  drop_order-last id (y ∷ q) x m =
      let here = lookup-insert id id (y ∷ (q ++ x ∷ [])) m in
      let later = queue_of-insert id (y ∷ q) (insert id (y ∷ (q ++ x ∷ [])) m) in
      ground (arith, here, str_eq_refl id, remove_last (y ∷ q) x, later)

  train_checked-finds :
      (player_id building_id unit_type : String) (s : Barracks Seconds) (p : Player)
      (b : BuildingTile) (d : UnitDef)
      → train_checked units food_supply spawn_seconds player_id building_id unit_type s
        ≡ some (p, b, d)
      → (find_building building_id s.world.buildings ≡ some b)
        × (lookup unit_type units ≡ some d)
        × (b.visible ≡ true)
        × (owned_by player_id b.owner_id ≡ true)
  unfolding train_checked
  train_checked-finds player_id building_id unit_type s p b d e = ground arith

  cancel_checked-passes :
      (player_id building_id : String) (t : Barracks Seconds) (p : Player) (b : BuildingTile)
      (n : ℕ) (x : UnitProduction Seconds)
      → find_building building_id t.world.buildings ≡ some b
      → lookup player_id t.world.players ≡ some p
      → get_elem? (queue_of b.id t.productions) n ≡ some x
      → contains b.capabilities "unit-spawner" ≡ true
      → b.visible ≡ true
      → owned_by player_id b.owner_id ≡ true
      → cancel_checked units food_supply spawn_seconds player_id building_id (pos n) t
        ≡ some (p, b, n, x)
  unfolding cancel_checked
  cancel_checked-passes player_id building_id t p b n x found player held spawner shown own =
      rw (cancel_checked, found, held, player, shown, spawner, own) refl

  -- What was paid for a unit is what its refund gives back.
  refund_unit_cost-pay_cost :
      (unit_type k : String) (d : UnitDef) (p : Player)
      → lookup unit_type units ≡ some d
      → amount k
          (refund_unit_cost units food_supply spawn_seconds unit_type
            (record p { resources = pay_cost d.resource_cost p.resources })).resources
        ≡ amount k p.resources
  unfolding refund_unit_cost
  refund_unit_cost-pay_cost unit_type k d p there =
      rw (refund_unit_cost, there)
        (refund_cost-amount k d.resource_cost (pay_cost d.resource_cost p.resources)
          ∙ pay_cost-amount k d.resource_cost p.resources)

  -- After an order and its cancellation, the player has as much of a resource as before it, and the
  -- building the same queue.
  abbrev pub IsUndone : String → String → String → String → Barracks Seconds → Player → Type 0
  IsUndone player_id building_id unit_type k s p =
      (p' : Player) × (lookup player_id
          (cancel_training_at units food_supply spawn_seconds player_id building_id
            (pos (length (queue_of building_id s.productions)))
            (train_unit units food_supply spawn_seconds player_id building_id unit_type
              s)).world.players
        ≡ some p')
      × (amount k p'.resources ≡ amount k p.resources)
      × (queue_of building_id
            (cancel_training_at units food_supply spawn_seconds player_id building_id
              (pos (length (queue_of building_id s.productions)))
              (train_unit units food_supply spawn_seconds player_id building_id unit_type
                s)).productions
          ≡ queue_of building_id s.productions)

  -- An order that was accepted and is then cancelled at the end of its queue, in a building that
  -- can cancel, gives every resource back, and the queue has the orders it had.
  pub cancel_training_at-train_unit :
      (player_id building_id unit_type k : String) (s : Barracks Seconds) (p : Player)
      (b : BuildingTile) (d : UnitDef)
      → train_checked units food_supply spawn_seconds player_id building_id unit_type s
        ≡ some (p, b, d)
      → contains b.capabilities "unit-spawner" ≡ true
      → IsUndone player_id building_id unit_type k s p
  unfolding train_unit cancel_training_at
  cancel_training_at-train_unit player_id building_id unit_type k s p b d e spawner =
      let (found, there, shown, own) =
        train_checked-finds player_id building_id unit_type s p b d e in
      let paid : Player = record p { resources = pay_cost d.resource_cost p.resources } in
      let order : UnitProduction Seconds = record {
        player_id = p.id;
        unit_type = unit_type;
        remaining_seconds = spawn_seconds paid b unit_type;
        total_seconds = spawn_seconds paid b unit_type;
      } in
      let q = queue_of b.id s.productions in
      let t : Barracks Seconds = record {
        world = record s.world { players = insert player_id paid s.world.players };
        productions = insert b.id (q ++ order ∷ []) s.productions;
      } in
      let trained : train_unit units food_supply spawn_seconds player_id building_id unit_type s
          ≡ t =
        rw (train_unit, e) refl in
      let held : get_elem? (queue_of b.id t.productions) (length q) ≡ some order =
        subst (λ z. get_elem? z (length q) ≡ some order)
          (sym (queue_of-insert b.id (q ++ order ∷ []) s.productions)) (last_elem q order) in
      let player : lookup player_id t.world.players ≡ some paid =
        rw (lookup-insert, str_eq_refl player_id) refl in
      let passed =
        cancel_checked-passes player_id building_id t paid b (length q) order found player held
          spawner shown own in
      let passed_there : cancel_checked units food_supply spawn_seconds player_id building_id
            (pos (length q))
            (train_unit units food_supply spawn_seconds player_id building_id unit_type s)
          ≡ some (paid, b, length q, order) =
        subst
          (λ z.
            cancel_checked units food_supply spawn_seconds player_id building_id (pos (length q)) z
            ≡ some (paid, b, length q, order))
          (sym trained) passed in
      let same : b.id ≡ building_id = find_building-id building_id s.world.buildings found in
      let length_same : length (queue_of building_id s.productions) ≡ length q =
        ap (λ i. length (queue_of i s.productions)) (sym same) in
      rw (length_same, cancel_training_at, passed_there)
        (
          refund_unit_cost units food_supply spawn_seconds unit_type paid,
          rw (lookup-insert player_id player_id, str_eq_refl player_id) refl,
          refund_unit_cost-pay_cost unit_type k d p there,
          ap
                (λ z.
                  queue_of building_id
                    (drop_order units food_supply spawn_seconds b.id (length q) z.productions))
                trained
              ∙ subst
                  (λ i.
                    queue_of i
                      (drop_order units food_supply spawn_seconds b.id (length q) t.productions)
                    ≡ queue_of i s.productions)
                  same (drop_order-last b.id q order s.productions),
        )
