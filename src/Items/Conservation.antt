-- ===== src/Items/Conservation.antt =====
-- Moves between a vault and the units' slots, and between slots, neither make nor lose an item.
use web_rts_nomads.Base.{
  ℕ, ◌+◌, ◌≡◌, String, false, Option, none, some, List, [], ◌∷◌, Dict, lookup, lookup-insert, arith,
  ◌==◌, set, get_elem?, Bool-cases, inl, inr, refl, Option-cases, str_eq_iff, str_eq_refl, sym, ◌∙◌,
  subst, get_elem?-set_other,
}
use web_rts_nomads.Base.Int.{ℤ}
use web_rts_nomads.World.{VaultItem, EquippedItem, Player, GameUnit, World, find_unit, put_unit}
use web_rts_nomads.World.Updates.{total_units, find_unit-id, total-put_unit, find-put_unit}
use web_rts_nomads.Items.{
  ItemDef, recompute_unit_equipment_bonus, remove_item_from_vault_by_instance,
  vault_capacity_for_player,
}
use web_rts_nomads.Items.Actions.{has_room}
use web_rts_nomads.Items.Slots.{
  free_slot, item_at, equip_item, unequip_item, transfer_item, equip_checked, unequip_checked,
  transfer_checked,
}
use web_rts_nomads.Items.Vault.{
  stacks_in, copies, slot_copies, equipped_copies, equipped_copies-set, remove-conserves,
  stacks_in-append,
}

abbrev pub vault_copies : String → Option Player → ℕ
vault_copies item none = 0
vault_copies item (some p) = stacks_in item p.vault

abbrev pub unit_copies : String → GameUnit → ℕ
unit_copies item u = equipped_copies item u.equipped

-- The copies of an item in a player's vault and in all units' slots.
abbrev pub holdings : String → String → World → ℕ
holdings item player_id w =
    vault_copies item (lookup player_id w.players) + total_units (unit_copies item) w.units

module _ (catalog : Dict ItemDef) (rebake : GameUnit → ℤ × ℤ) where
  -- What writing a found unit back with other slots does to the units' copies.
  total-slots :
      (item : String) (id : ℕ) (us : List GameUnit) (u : GameUnit)
      (slots : List (Option EquippedItem))
      → find_unit id us ≡ some u
      → total_units (unit_copies item) (
            put_unit
              (recompute_unit_equipment_bonus catalog rebake (record u { equipped = slots }))
              us)
          + equipped_copies item u.equipped
        ≡ total_units (unit_copies item) us + equipped_copies item slots
  unfolding recompute_unit_equipment_bonus
  total-slots item id us u slots found =
      total-put_unit (unit_copies item) id
        (recompute_unit_equipment_bonus catalog rebake (record u { equipped = slots })) us found
        (find_unit-id id us found)

  -- The same for one changed slot.
  total-rewrite :
      (item : String) (id i : ℕ) (us : List GameUnit) (u : GameUnit) (old new : Option EquippedItem)
      → find_unit id us ≡ some u
      → get_elem? u.equipped i ≡ some old
      → total_units (unit_copies item) (
            put_unit
              (recompute_unit_equipment_bonus catalog rebake
                (record u { equipped = set u.equipped i new }))
              us)
          + slot_copies item old
        ≡ total_units (unit_copies item) us + slot_copies item new
  total-rewrite item id i us u old new found held = omega (
    arith,
    total-slots item id us u (set u.equipped i new) found,
    equipped_copies-set item u.equipped i old new held,
  )

  -- A write to one unit leaves the lookup of another as it was.
  find-rebuilt :
      (id k : ℕ) (us : List GameUnit) (u : GameUnit) (slots : List (Option EquippedItem))
      → find_unit id us ≡ some u
      → (id == k) ≡ false
      → find_unit k (
          put_unit
            (recompute_unit_equipment_bonus catalog rebake (record u { equipped = slots }))
            us)
        ≡ find_unit k us
  unfolding recompute_unit_equipment_bonus
  find-rebuilt id k us u slots found other = rw (
    find-put_unit id k
        (recompute_unit_equipment_bonus catalog rebake (record u { equipped = slots })) us found
        (find_unit-id id us found),
    other,
  )

  free_slot-holds :
      (slot : ℤ) (u : GameUnit) (i : ℕ)
      → free_slot slot u ≡ some i
      → get_elem? u.equipped i ≡ some none
  free_slot-holds slot u i e = ground arith

  pub item_at-holds :
      (slot : ℤ) (u : GameUnit) (i : ℕ) (x : EquippedItem)
      → item_at slot u ≡ some (i, x)
      → get_elem? u.equipped i ≡ some (some x)
  item_at-holds slot u i x e = ground arith

  -- What a request that passed its checks has found.
  equip_checked-finds :
      (player_id : String) (unit_id : ℕ) (slot : ℤ) (instance_id : ℕ) (w : World) (p : Player)
      (u : GameUnit) (i : ℕ) (r : EquippedItem) (ws : List VaultItem)
      → equip_checked catalog rebake player_id unit_id slot instance_id w ≡ some (p, u, i, r, ws)
      → (lookup player_id w.players ≡ some p)
        × (find_unit unit_id w.units ≡ some u)
        × (free_slot slot u ≡ some i)
        × (remove_item_from_vault_by_instance instance_id p.vault ≡ some (r, ws))
  unfolding equip_checked
  equip_checked-finds player_id unit_id slot instance_id w p u i r ws e = ground arith

  unequip_checked-finds :
      (player_id : String) (unit_id : ℕ) (slot : ℤ) (w : World) (p : Player) (u : GameUnit) (i : ℕ)
      (x : EquippedItem)
      → unequip_checked catalog rebake player_id unit_id slot w ≡ some (p, u, i, x)
      → (lookup player_id w.players ≡ some p)
        × (find_unit unit_id w.units ≡ some u)
        × (item_at slot u ≡ some (i, x))
  unfolding unequip_checked
  unequip_checked-finds player_id unit_id slot w p u i x e = ground arith

  transfer_checked-finds :
      (player_id : String) (from_id : ℕ) (from_slot : ℤ) (to_id : ℕ) (to_slot : ℤ) (w : World)
      (source target : GameUnit) (i j : ℕ) (x : EquippedItem)
      → transfer_checked catalog rebake player_id from_id from_slot to_id to_slot w
        ≡ some (source, target, i, j, x)
      → (find_unit from_id w.units ≡ some source)
        × (find_unit to_id w.units ≡ some target)
        × (item_at from_slot source ≡ some (i, x))
        × (free_slot to_slot target ≡ some j)
  unfolding transfer_checked
  transfer_checked-finds player_id from_id from_slot to_id to_slot w source target i j x e =
      ground arith

  -- Equipping an item keeps, for every item, the number of copies in the player's vault and all
  -- units' slots.
  pub equip_item-conserves :
      (item player_id : String) (unit_id : ℕ) (slot : ℤ) (instance_id : ℕ) (w : World)
      → holdings item player_id (equip_item catalog rebake player_id unit_id slot instance_id w)
        ≡ holdings item player_id w
  unfolding equip_item
  equip_item-conserves item player_id unit_id slot instance_id w =
      go (equip_checked catalog rebake player_id unit_id slot instance_id w) refl
    where
      go :
          (o : Option (Player × GameUnit × ℕ × EquippedItem × List VaultItem))
          → equip_checked catalog rebake player_id unit_id slot instance_id w ≡ o
          → holdings item player_id (equip_item catalog rebake player_id unit_id slot instance_id w)
            ≡ holdings item player_id w
      go none e = rw (equip_item, e)
      go (some (p, u, i, r, ws)) e =
          let (player, found, free, out) =
            equip_checked-finds player_id unit_id slot instance_id w p u i r ws e in
          let units =
            total-rewrite item unit_id i w.units u none (some r) found
              (free_slot-holds slot u i free) in
          let vault = remove-conserves item instance_id p.vault r ws out in
          rw (equip_item, e, lookup-insert, str_eq_refl player_id, player)
            (omega (arith, units, vault.0))

  -- Unequipping keeps the number of copies of each item that the catalog knows.
  pub unequip_item-conserves :
      (item player_id : String) (unit_id : ℕ) (slot : ℤ) (w : World) (known : ItemDef)
      → lookup item catalog ≡ some known
      → holdings item player_id (unequip_item catalog rebake player_id unit_id slot w)
        ≡ holdings item player_id w
  unfolding unequip_item
  unequip_item-conserves item player_id unit_id slot w known k =
      go (unequip_checked catalog rebake player_id unit_id slot w) refl
    where
      go :
          (o : Option (Player × GameUnit × ℕ × EquippedItem))
          → unequip_checked catalog rebake player_id unit_id slot w ≡ o
          → holdings item player_id (unequip_item catalog rebake player_id unit_id slot w)
            ≡ holdings item player_id w
      go none e = rw (unequip_item, e)
      go (some (p, u, i, x)) e =
          let (player, found, held) = unequip_checked-finds player_id unit_id slot w p u i x e in
          let units =
            total-rewrite item unit_id i w.units u (some x) none found
              (item_at-holds slot u i x held) in
          elim (Option-cases (lookup x.item_id catalog)) [
            | inl n ↦
                let other : copies item x ≡ 0 = ground (arith, n, k, str_eq_iff x.item_id item) in
                rw (unequip_item, e, n) (omega (arith, units, other))
            | inr (d, c) ↦
                elim (Bool-cases (has_room d (vault_capacity_for_player player_id w) p.vault)) [
                  | inl room ↦
                      rw (unequip_item, e, c, room, lookup-insert, str_eq_refl player_id, player)
                        (omega (arith, units, stacks_in-append item p.vault (x ∷ [])))
                  | inr full ↦ rw (unequip_item, e, c, full)
                ]
          ]

  -- Handing an item to another slot, of the same or of another unit, keeps the number of copies of
  -- every item.
  pub transfer_item-conserves :
      (item player_id : String) (from_id : ℕ) (from_slot : ℤ) (to_id : ℕ) (to_slot : ℤ) (w : World)
      → holdings item player_id
          (transfer_item catalog rebake player_id from_id from_slot to_id to_slot w)
        ≡ holdings item player_id w
  unfolding transfer_item
  transfer_item-conserves item player_id from_id from_slot to_id to_slot w =
      go (transfer_checked catalog rebake player_id from_id from_slot to_id to_slot w) refl
    where
      go :
          (o : Option (GameUnit × GameUnit × ℕ × ℕ × EquippedItem))
          → transfer_checked catalog rebake player_id from_id from_slot to_id to_slot w ≡ o
          → holdings item player_id
              (transfer_item catalog rebake player_id from_id from_slot to_id to_slot w)
            ≡ holdings item player_id w
      go none e = rw (transfer_item, e)
      go (some (source, target, i, j, x)) e =
          let (found, there, held, free) =
            transfer_checked-finds player_id from_id from_slot to_id to_slot w source target i j x
              e in
          let full = item_at-holds from_slot source i x held in
          let empty = free_slot-holds to_slot target j free in
          elim (Bool-cases (from_id == to_id)) [
            | inl same ↦
                let one : source ≡ target = ground (arith, same, found, there) in
                let empty_there : get_elem? source.equipped j ≡ some none =
                  subst (λ t. get_elem? t.equipped j ≡ some none) (sym one) empty in
                let apart : (j == i) ≡ false = ground (arith, full, empty_there) in
                let kept = get_elem?-set_other source.equipped j i (some x) apart ∙ full in
                let slots = set (set source.equipped j (some x)) i none in
                rw (transfer_item, e, same)
                  (omega (
                    arith,
                    total-slots item from_id w.units source slots found,
                    equipped_copies-set item source.equipped j none (some x) empty_there,
                    equipped_copies-set item (set source.equipped j (some x)) i (some x) none kept,
                  ))
            | inr other ↦
                let bare = total-rewrite item from_id i w.units source (some x) none found full in
                let dressed =
                  total-rewrite item to_id j
                    (put_unit
                      (recompute_unit_equipment_bonus catalog rebake
                        (record source { equipped = set source.equipped i none }))
                      w.units)
                    target none (some x)
                    (find-rebuilt from_id to_id w.units source (set source.equipped i none) found
                        other
                      ∙ there)
                    empty in
                rw (transfer_item, e, other) (omega (arith, bare, dressed))
          ]
