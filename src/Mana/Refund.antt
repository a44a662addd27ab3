-- ===== src/Mana/Refund.antt =====
-- Mana that was spent can be given back.
use web_rts_nomads.Base.{◌≡◌, refl, true, false, some, List, [], ◌∷◌, ◌++◌, arith}
use web_rts_nomads.Base.Int.{ℤ, pos, ltb_ℤ, leb_ℤ, ◌-ℤ◌, ◌≤ℤ◌, ◌<ℤ◌, -ℤ_parts, sub-add}
use web_rts_nomads.Base.Float.{Float64}
use web_rts_nomads.Mana.{
  ManaRestoreEvent, Caster, spend_unit_mana, paid, record_mana_restore_event, add_unit_mana,
}

module _ (F : Float64) where
  spend_unit_mana-pays :
      (cost : ℤ) (u : Caster F)
      → pos 0 <ℤ cost
      → pos 0 <ℤ u.max_mana
      → cost ≤ℤ u.current_mana
      → spend_unit_mana F cost (some u)
        ≡ (true, some (record u { current_mana = u.current_mana -ℤ cost }))
  unfolding spend_unit_mana paid
  spend_unit_mana-pays cost u some_cost has_pool enough =
      let costs : leb_ℤ cost (pos 0) ≡ false = ground (arith, some_cost) in
      let pools : leb_ℤ u.max_mana (pos 0) ≡ false = ground (arith, has_pool) in
      let pays : ltb_ℤ u.current_mana cost ≡ false = ground (arith, enough) in
      let stays : ltb_ℤ (u.current_mana -ℤ cost) (pos 0) ≡ false =
        ground (arith, enough, -ℤ_parts u.current_mana cost) in
      rw (costs, pools, pays, stays) refl

  -- A living caster, within its pool, that pays a positive cost it has and is granted the cost
  -- again: the whole cost is granted and shown, and the caster is as before.
  pub add_unit_mana-spend_unit_mana :
      (cost : ℤ) (u : Caster F) (events : List ManaRestoreEvent)
      → pos 0 <ℤ cost
      → pos 0 <ℤ u.hp
      → cost ≤ℤ u.current_mana
      → u.current_mana ≤ℤ u.max_mana
      → add_unit_mana F cost (record {
        unit = (spend_unit_mana F cost (some u)).1;
        mana_restore_events_this_tick = events;
      })
        ≡ (
          cost,
          record {
            unit = some u;
            mana_restore_events_this_tick = events ++ record { unit_id = u.id; amount = cost } ∷ [];
          },
        )
  unfolding add_unit_mana record_mana_restore_event
  add_unit_mana-spend_unit_mana cost u events some_cost living enough within =
      let room = u.max_mana -ℤ (u.current_mana -ℤ cost) in
      let spaces = -ℤ_parts u.max_mana (u.current_mana -ℤ cost) in
      let lefts = -ℤ_parts u.current_mana cost in
      let costs : leb_ℤ cost (pos 0) ≡ false = ground (arith, some_cost) in
      let pools : leb_ℤ u.max_mana (pos 0) ≡ false = ground (arith, some_cost, enough, within) in
      let lives : leb_ℤ u.hp (pos 0) ≡ false = ground (arith, living) in
      let spare : leb_ℤ room (pos 0) ≡ false = ground (arith, some_cost, within, spaces, lefts) in
      let fits : ltb_ℤ room cost ≡ false = ground (arith, within, spaces, lefts) in
      let pays =
        spend_unit_mana-pays cost u some_cost (omega (arith, some_cost, enough, within)) enough in
      rw (pays, fits, costs, pools, lives, spare, sub-add u.current_mana cost) refl
