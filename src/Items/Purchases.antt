-- ===== src/Items/Purchases.antt =====
-- What a purchase does to the buyer's gold and vault and to the shop's stock.
use web_rts_nomads.Base.{
  ℕ, ◌+◌, ◌≤◌, ◌≡◌, String, true, some, Dict, lookup, insert, lookup-insert, arith, length, inl,
  inr, Option-cases, ◌⊎◌, max, str_eq_refl,
}
use web_rts_nomads.Base.Int.{ℤ, pos, ◌-ℤ◌, ◌≤ℤ◌, ◌<ℤ◌}
use web_rts_nomads.World.{Player, BuildingTile, World, amount, find_building}
use web_rts_nomads.World.Updates.{amount-insert, find_building-id, find-put_building}
use web_rts_nomads.Items.{ItemDef, vault_capacity_for_player}
use web_rts_nomads.Items.Actions.{
  may_buy_at, stock_of, take_stock, has_room, purchase_checked, purchase_item,
}
use web_rts_nomads.Items.Vault.{
  stacks_in, add_item_to_vault-adds, has_room-add, stock_of-take_stock,
}

-- The buyer `p` becomes `p'` and the shop `b` becomes `b'` by one sale of an item `d`.
abbrev pub IsSale : String → ℕ → ItemDef → Player → Player → BuildingTile → BuildingTile → Type 0
IsSale item_id capacity d p p' b b' =
    (d.cost_gold ≤ℤ amount "gold" p.resources)
    × (amount "gold" p'.resources ≡ amount "gold" p.resources -ℤ d.cost_gold)
    × (stacks_in d.id p'.vault ≡ stacks_in d.id p.vault + 1)
    × (length p'.vault ≤ max capacity (length p.vault))
    × ((q : ℤ) × (pos 0 <ℤ q)
        × (stock_of item_id b.shop_inventory ≡ some q)
        × (stock_of item_id b'.shop_inventory ≡ some (q -ℤ pos 1)))

module _ (catalog : Dict ItemDef) where
  purchase_checked-finds :
      (player_id building_id item_id : String) (w : World) (p : Player) (b : BuildingTile)
      (d : ItemDef)
      → purchase_checked catalog player_id building_id item_id w ≡ some (p, b, d)
      → (lookup player_id w.players ≡ some p)
        × (find_building building_id w.buildings ≡ some b)
        × (lookup item_id catalog ≡ some d)
        × (may_buy_at player_id b w ≡ true)
        × (d.cost_gold ≤ℤ amount "gold" p.resources)
        × (has_room d (vault_capacity_for_player player_id w) p.vault ≡ true)
  unfolding purchase_checked
  purchase_checked-finds player_id building_id item_id w p b d e = ground arith

  purchase_checked-stock :
      (player_id building_id item_id : String) (w : World) (p : Player) (b : BuildingTile)
      (d : ItemDef)
      → purchase_checked catalog player_id building_id item_id w ≡ some (p, b, d)
      → (q : ℤ) × (stock_of item_id b.shop_inventory ≡ some q) × (pos 0 <ℤ q)
  unfolding purchase_checked
  purchase_checked-stock player_id building_id item_id w p b d e =
      elim (Option-cases (stock_of item_id b.shop_inventory)) [
        | inl n ↦ absurd (ground (arith, n))
        | inr (q, s) ↦ (q, s, ground (arith, s))
      ]

  -- The state stays as it is, or it is that after one sale of the item by the shop to the player.
  abbrev pub Settles : String → String → String → World → Type 0
  Settles player_id building_id item_id w =
      (purchase_item catalog player_id building_id item_id w ≡ w)
      ⊎ ((p p' : Player) × (b b' : BuildingTile) × (d : ItemDef) × (lookup player_id w.players
            ≡ some p)
          × (lookup player_id (purchase_item catalog player_id building_id item_id w).players
              ≡ some p')
          × (find_building building_id w.buildings ≡ some b)
          × (find_building building_id
                (purchase_item catalog player_id building_id item_id w).buildings
              ≡ some b')
          × (lookup item_id catalog ≡ some d)
          × (may_buy_at player_id b w ≡ true)
          × IsSale item_id (vault_capacity_for_player player_id w) d p p' b b')

  -- A purchase either changes nothing or is one sale: the buyer could pay and pays the price, gets
  -- one copy and no place beyond the vault's capacity, and the shop's stock, which was not empty,
  -- is one less.
  pub purchase_item-Settles :
      (player_id building_id item_id : String) (w : World) → Settles player_id building_id item_id w
  unfolding purchase_item
  purchase_item-Settles player_id building_id item_id w =
      elim (Option-cases (purchase_checked catalog player_id building_id item_id w)) [
        | inl n ↦ inl (rw (purchase_item, n))
        | inr ((p, b, d), e) ↦
            let (player, building, item, may, cost, room) =
              purchase_checked-finds player_id building_id item_id w p b d e in
            let (q, stock, positive) =
              purchase_checked-stock player_id building_id item_id w p b d e in
            let ((next, vault), added) =
              has_room-add d (vault_capacity_for_player player_id w) w.next_item_instance_id p.vault
                room in
            let gain =
              add_item_to_vault-adds d.id d (vault_capacity_for_player player_id w)
                w.next_item_instance_id p.vault next vault added in
            let paid = insert "gold" (amount "gold" p.resources -ℤ d.cost_gold) p.resources in
            let p' : Player = record p { resources = paid; vault = vault } in
            let b' : BuildingTile = record b {
              shop_inventory = take_stock item_id b.shop_inventory;
            } in
            inr (
              p,
              p',
              b,
              b',
              d,
              player,
              rw (purchase_item, e, added, lookup-insert, str_eq_refl player_id),
              building,
              rw (purchase_item, e)
                  (find-put_building building_id b' w.buildings building
                    (find_building-id building_id w.buildings building)),
              item,
              may,
              (
                cost,
                amount-insert "gold" (amount "gold" p.resources -ℤ d.cost_gold) p.resources,
                rw (str_eq_refl d.id) at gain.0,
                gain.1,
                (q, positive, stock, stock_of-take_stock item_id b.shop_inventory stock),
              ),
            )
      ]
