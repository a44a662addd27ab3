-- ===== src/Shops/Rolls.antt =====
-- What a loot roll can give.
use web_rts_nomads.Base.{
  IsDistinct, IsDistinct-snoc, ℕ, zero, suc, ◌≤◌, ◌≡◌, refl, String, true, Option, none, some, List,
  [], ◌∷◌, Dict, lookup, length, arith, Bool-cases, inl, inr, Option-cases, length-append, ltb,
  ltb→lt, contains, ◌⊎◌, map, ap, sym, subst, lookup-insert, str_eq_refl, ◌*◌, ◌∙◌,
}
use web_rts_nomads.Base.Int.{ℤ, pos, pos_part, ◌-ℤ◌, ◌<ℤ◌}
use web_rts_nomads.World.{Player, BuildingTile, World, ShopStockEntry, find_building}
use web_rts_nomads.World.Updates.{find_building-id, find-put_building}
use web_rts_nomads.Shops.{
  LootTableEntry, PackagedItem, keep_new, roll_once, roll_items, roll_shop_loot_table,
  rolled_inventory, reroll_checked, reroll_shop, make_shop_stock_entries,
  shop_item_target_count_for_player, table_of,
}

module _ {Rng : Type 0} (intn : Rng → ℕ → ℕ × Rng) (loot_tables : Dict (List LootTableEntry))
    (packages : Dict PackagedItem) where
  keep_new-IsDistinct :
      (o : Option String) (items : List String) (target : ℕ)
      → IsDistinct items
      → length items ≤ target
      → ltb (length items) target ≡ true
      → IsDistinct (keep_new intn loot_tables packages o items)
        × (length (keep_new intn loot_tables packages o items) ≤ target)
  keep_new-IsDistinct none items target d l r = (d, l)
  keep_new-IsDistinct (some x) items target d l r = elim (Bool-cases (contains items x)) [
    | inl there ↦ rw there (d, l)
    | inr new ↦
        rw new
          (IsDistinct-snoc items x d new, omega (arith, length-append items (x ∷ []), ltb→lt _ _ r))
  ]

  -- A roll that begins with distinct items within the target, however many rounds it has and
  -- whatever the generator draws, gives distinct items and no more of them than asked for.
  pub roll_items-IsDistinct :
      (table : List LootTableEntry) (attempts target : ℕ) (rng : Rng) (items : List String)
      → IsDistinct items
      → length items ≤ target
      → IsDistinct (roll_items intn loot_tables packages table attempts target rng items).0
        × (length (roll_items intn loot_tables packages table attempts target rng items).0 ≤ target)
  unfolding roll_items
  roll_items-IsDistinct table zero target rng items d l = (d, l)
  roll_items-IsDistinct table (suc attempts) target rng items d l =
      elim (Bool-cases (ltb (length items) target)) [
        | inl room ↦
            let next = roll_once intn loot_tables packages table rng in
            let (kept, short) = keep_new-IsDistinct next.0 items target d l room in
            rw (roll_items, room)
              (roll_items-IsDistinct table attempts target next.1
                (keep_new intn loot_tables packages next.0 items) kept short)
        | inr full ↦ rw (roll_items, full) (d, l)
      ]

  -- The ids that a shop shows.
  abbrev pub shown_ids : BuildingTile → List String
  shown_ids b = map (λ (e : ShopStockEntry). e.item_id) b.shop_inventory

  shown_ids-stocked :
      (ids : List String) (t : String)
      → map (λ (e : ShopStockEntry). e.item_id) (make_shop_stock_entries ids t) ≡ ids
  unfolding make_shop_stock_entries
  shown_ids-stocked [] t = refl
  shown_ids-stocked (x ∷ ids) t = ap (λ r. x ∷ r) (shown_ids-stocked ids t)

  -- A rolled inventory is of the same building, shows distinct items, and no more than the target.
  rolled_inventory-shows :
      (table_id : String) (target : ℤ) (b c : BuildingTile) (rng : Rng)
      → (rolled_inventory intn loot_tables packages table_id target b rng).0 ≡ some c
      → (c.id ≡ b.id) × IsDistinct (shown_ids c) × (length (shown_ids c) ≤ pos_part target)
  unfolding rolled_inventory roll_shop_loot_table
  rolled_inventory-shows table_id target b c rng e =
      elim (Option-cases (lookup table_id loot_tables)) [
        | inl n ↦ absurd (ground (arith, n))
        | inr (table, there) ↦
            let items =
              (roll_items intn loot_tables packages table (pos_part target * 8) (pos_part target)
                rng []).0 in
            let (distinct, short) =
              roll_items-IsDistinct table (pos_part target * 8) (pos_part target) rng [] tt
                (omega arith) in
            let stocked : BuildingTile = record b {
              shop_inventory = make_shop_stock_entries items b.building_type;
            } in
            let same : stocked ≡ c = ground (arith, there) in
            let shown = shown_ids-stocked items b.building_type in
            subst
              (λ t.
                (t.id ≡ b.id) × IsDistinct (shown_ids t) × (length (shown_ids t) ≤ pos_part target))
              same
              (
                refl,
                subst IsDistinct (sym shown) distinct,
                subst (λ t. length t ≤ pos_part target) (sym shown) short,
              )
      ]

  reroll_checked-finds :
      (player_id building_id : String) (w : World) (p : Player) (b : BuildingTile)
      → reroll_checked intn loot_tables packages player_id building_id w ≡ some (p, b)
      → (lookup player_id w.players ≡ some p)
        × (find_building building_id w.buildings ≡ some b)
        × (pos 0 <ℤ p.shop_rerolls_remaining)
  unfolding reroll_checked
  reroll_checked-finds player_id building_id w p b e = ground arith

  -- The state stays as it is, or it is that after one reroll of the shop by the player.
  abbrev pub RerollSettles : String → String → World → Rng → Type 0
  RerollSettles player_id building_id w rng =
      ((reroll_shop intn loot_tables packages player_id building_id w rng).0 ≡ w)
      ⊎ ((p p' : Player) × (c : BuildingTile) × (lookup player_id w.players ≡ some p)
          × (lookup player_id
                (reroll_shop intn loot_tables packages player_id building_id w rng).0.players
              ≡ some p')
          × (find_building building_id
                (reroll_shop intn loot_tables packages player_id building_id w rng).0.buildings
              ≡ some c)
          × (pos 0 <ℤ p.shop_rerolls_remaining)
          × (p'.shop_rerolls_remaining ≡ p.shop_rerolls_remaining -ℤ pos 1)
          × IsDistinct (shown_ids c)
          × (length (shown_ids c) ≤ pos_part (shop_item_target_count_for_player player_id w)))

  -- A reroll either leaves the state as it is, or takes one of the player's rerolls, of which there
  -- was one, and gives the shop distinct items, no more of them than the player's target.
  pub reroll_shop-settles :
      (player_id building_id : String) (w : World) (rng : Rng)
      → RerollSettles player_id building_id w rng
  unfolding reroll_shop
  reroll_shop-settles player_id building_id w rng =
      elim (Option-cases (reroll_checked intn loot_tables packages player_id building_id w)) [
        | inl n ↦ inl (rw (reroll_shop, n) refl)
        | inr ((p, b), e) ↦
            let (player, found, left) = reroll_checked-finds player_id building_id w p b e in
            let target = shop_item_target_count_for_player player_id w in
            elim (Option-cases
              (rolled_inventory intn loot_tables packages (table_of intn loot_tables packages b)
                target b rng).0) [
                  | inl n ↦ inl (rw (reroll_shop, e, n) refl)
                  | inr (c, rolled) ↦
                      let (same, distinct, short) =
                        rolled_inventory-shows (table_of intn loot_tables packages b) target b c rng
                          rolled in
                      let id = same ∙ find_building-id building_id w.buildings found in
                      inr (
                        p,
                        record p { shop_rerolls_remaining = p.shop_rerolls_remaining -ℤ pos 1 },
                        c,
                        player,
                        rw (reroll_shop, e, rolled, lookup-insert, str_eq_refl player_id) refl,
                        rw (reroll_shop, e, rolled)
                            (find-put_building building_id c w.buildings found id),
                        left,
                        refl,
                        distinct,
                        short,
                      )
                ]
      ]
