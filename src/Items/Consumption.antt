-- ===== src/Items/Consumption.antt =====
-- Using a consumable spends one copy of it, and heals within the unit's maximum.
use web_rts_nomads.Base.{
  ℕ, ◌+◌, ◌-◌, ◌≡◌, ◌⊎◌, inl, inr, refl, String, Option, none, some, Dict, lookup, str_eq, arith,
  ltb, leb, if◌then◌else◌, set, Bool-cases, Option-cases, ◌∙◌, subst, sym,
}
use web_rts_nomads.Base.Int.{ℤ, ◌≤ℤ◌}
use web_rts_nomads.World.{EquippedItem, GameUnit, World, find_unit, put_unit}
use web_rts_nomads.World.Updates.{total_units, find_unit-id, total-put_unit, find-put_unit}
use web_rts_nomads.Items.{ItemDef, is_consumable, apply_consumable_effect}
use web_rts_nomads.Items.Slots.{item_at, own_living_unit, use_consumable}
use web_rts_nomads.Items.Vault.{slot_copies, equipped_copies-set}
use web_rts_nomads.Items.Conservation.{unit_copies, item_at-holds}

-- What one use takes from a stack of an item.
abbrev pub spent : String → EquippedItem → ℕ
spent item x = if str_eq x.item_id item then if ltb 0 x.stacks then 1 else 0 else 0

abbrev pub left_over : EquippedItem → Option EquippedItem
left_over x = if leb x.stacks 1 then none else some (record x { stacks = x.stacks - 1 })

apply_consumable_effect-id : (d : ItemDef) (u : GameUnit) → (apply_consumable_effect d u).id ≡ u.id
unfolding apply_consumable_effect
apply_consumable_effect-id d u = ground arith

-- Healing lifts no unit over its maximum.
apply_consumable_effect-bounded :
    (d : ItemDef) (u : GameUnit)
    → ((apply_consumable_effect d u).hp ≡ u.hp) ⊎ ((apply_consumable_effect d u).hp ≤ℤ u.max_hp)
unfolding apply_consumable_effect
apply_consumable_effect-bounded d u = ground arith

left_over-copies :
    (item : String) (x : EquippedItem)
    → slot_copies item (left_over x) + spent item x ≡ slot_copies item (some x)
left_over-copies item x = ground arith

module _ (catalog : Dict ItemDef) (rebake : GameUnit → ℤ × ℤ) where
  -- The state stays as it is, or a unit has used the item `x` of its slot.
  abbrev pub Spends : String → String → ℕ → ℤ → World → Type 0
  Spends item player_id unit_id slot w =
      (use_consumable catalog rebake player_id unit_id slot w ≡ w)
      ⊎ ((u u' : GameUnit) × (i : ℕ) × (x : EquippedItem) × (find_unit unit_id w.units ≡ some u)
          × (find_unit unit_id (use_consumable catalog rebake player_id unit_id slot w).units
              ≡ some u')
          × (item_at slot u ≡ some (i, x))
          × ((u'.hp ≡ u.hp) ⊎ (u'.hp ≤ℤ u.max_hp))
          × (total_units (unit_copies item)
                  (use_consumable catalog rebake player_id unit_id slot w).units
                + spent item x
              ≡ total_units (unit_copies item) w.units))

  -- Using a consumable either changes nothing, or takes one copy from the slot's stack, whichever
  -- item is counted, and leaves the unit's HP as it is or within its maximum.
  pub use_consumable-Spends :
      (item player_id : String) (unit_id : ℕ) (slot : ℤ) (w : World)
      → Spends item player_id unit_id slot w
  unfolding use_consumable
  use_consumable-Spends item player_id unit_id slot w =
      elim (Option-cases (own_living_unit player_id unit_id w)) [
        | inl n ↦ inl (rw (use_consumable, n) refl)
        | inr (u, own) ↦ elim (Option-cases (item_at slot u)) [
          | inl n ↦ inl (rw (use_consumable, own, n) refl)
          | inr ((i, x), at) ↦ elim (Option-cases (lookup x.item_id catalog)) [
            | inl n ↦ inl (rw (use_consumable, own, at, n) refl)
            | inr (d, there) ↦ elim (Bool-cases (is_consumable d.kind)) [
              | inr worn ↦ inl (rw (use_consumable, own, at, there, worn) refl)
              | inl drunk ↦
                  let v : GameUnit = record (apply_consumable_effect d u) {
                    equipped = set u.equipped i (left_over x);
                  } in
                  let found : find_unit unit_id w.units ≡ some u = ground (arith, own) in
                  let same : v.id ≡ unit_id =
                    apply_consumable_effect-id d u ∙ find_unit-id unit_id w.units found in
                  let used : use_consumable catalog rebake player_id unit_id slot w
                      ≡ record w { units = put_unit v w.units } =
                    rw (use_consumable, own, at, there, drunk) refl in
                  let total = total-put_unit (unit_copies item) unit_id v w.units found same in
                  let share =
                    equipped_copies-set item u.equipped i (some x) (left_over x)
                      (item_at-holds catalog rebake slot u i x at) in
                  let kept = left_over-copies item x in
                  inr (
                    subst
                      (λ t.
                        (u0 u' : GameUnit) × (j : ℕ) × (y : EquippedItem) × (find_unit unit_id
                            w.units
                          ≡ some u0)
                        × (find_unit unit_id t.units ≡ some u')
                        × (item_at slot u0 ≡ some (j, y))
                        × ((u'.hp ≡ u0.hp) ⊎ (u'.hp ≤ℤ u0.max_hp))
                        × (total_units (unit_copies item) t.units + spent item y
                            ≡ total_units (unit_copies item) w.units))
                      (sym used)
                      (
                        u,
                        v,
                        i,
                        x,
                        found,
                        find-put_unit unit_id unit_id v w.units found same ∙ ground arith,
                        at,
                        apply_consumable_effect-bounded d u,
                        omega (arith, total, share, kept),
                      ))
            ]
          ]
        ]
      ]
