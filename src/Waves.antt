-- ===== src/Waves.antt =====
-- Wave upgrades and the pause (server/internal/game/upgrade_offers.go, upgrade_apply.go,
-- upgrade_state.go, pause.go): the phase between two waves, in which each player picks one of three
-- offers. Weights are floats; `float64` draws the generator's next number. `simulate` is what an
-- upgrade does to units: experience, spawning and stat multipliers.
pub mod Offers
pub mod Phase
pub mod Machine
use web_rts_nomads.Base.{
  ℕ, zero, suc, ◌+◌, ◌-◌, String, Bool, true, false, Option, none, some, List, [], ◌∷◌, ◌++◌, Dict,
  lookup, insert, str_eq, contains, ltb, leb, ◌==◌, if◌then◌else◌, not, ◌&&◌, ◌||◌, length, map,
  max,
}
use web_rts_nomads.Base.Int.{ℤ, pos, ltb_ℤ, leb_ℤ, ◌+ℤ◌, ◌-ℤ◌}
use web_rts_nomads.Base.Float.{Float64}
use web_rts_nomads.Matches.{enemy_player_id, neutral_player_id}
use web_rts_nomads.World.{Player, VaultItem, World, amount}
use web_rts_nomads.Items.{ItemDef, add_item_to_vault, vault_capacity_for_player}

pub data UpgradeEffect : Type 0 where
  equipment_effect : String → UpgradeEffect
  resources_effect : ℤ → ℤ → UpgradeEffect
  simulated_effect : UpgradeEffect

pub record UpgradeDef : Type 0 where
  pub id : String
  pub group : String
  pub rarity : String
  pub effect : UpgradeEffect
  pub max_stacks : ℤ
  pub unlimited : Bool

-- The statistics buffs, which only the units' spawning reads, are left out.
pub record PlayerUpgradeState : Type 0 where
  pub upgrade_stacks : Dict ℤ
  pub max_rerolls : ℤ
  pub max_upgrade_stacks : ℤ
  pub rerolls_remaining : ℤ
  pub current_offers : List UpgradeDef
  pub offer_deadline_ms : ℕ
  pub resolved : Bool

-- `upgrades` has each player's `UpgradeState`.
pub record WaveState : Type 0 where
  pub world : World
  pub upgrades : Dict PlayerUpgradeState
  pub current_wave : ℤ
  pub state : String
  pub paused : Bool
  pub paused_by : String
  pub paused_at_ms : ℕ

abbrev positive_or : ℤ → ℤ → ℤ
positive_or d n = if leb_ℤ n (pos 0) then d else n

unfoldable pub new_player_upgrade_state : ℤ → ℤ → PlayerUpgradeState
new_player_upgrade_state max_rerolls max_stacks = record {
  upgrade_stacks = [];
  max_rerolls = positive_or (pos 1) max_rerolls;
  max_upgrade_stacks = positive_or (pos 3) max_stacks;
  rerolls_remaining = pos 0;
  current_offers = [];
  offer_deadline_ms = 0;
  resolved = false;
}

-- Below the cap, which is the larger of the upgrade's and the player's.
abbrev pub is_eligible : PlayerUpgradeState → UpgradeDef → Bool
is_eligible u d =
    let cap =
      if ltb_ℤ d.max_stacks u.max_upgrade_stacks then u.max_upgrade_stacks else d.max_stacks in
    d.unlimited || ltb_ℤ (amount d.group u.upgrade_stacks) cap

abbrev pub is_human : String → Bool
is_human id = not (str_eq id enemy_player_id || str_eq id neutral_player_id)

abbrev pub ids_of : List UpgradeDef → List String
ids_of = map (λ (d : UpgradeDef). d.id)

module _ (F : Float64) {Rng : Type 0} (float64 : Rng → F.Float × Rng) (defs : List UpgradeDef)
    (base_weight rarity_scale : String → F.Float) (rarity_order : String → ℤ)
    (milestone_waves : List ℤ) (milestone_min_rarity : String) where
  open F use {Float, plus, minus, times, at_most, of_int}

  abbrev pub weight : ℤ → UpgradeDef → Float
  weight wave d =
      plus (base_weight d.rarity) (times (rarity_scale d.rarity) (of_int (wave -ℤ pos 1)))

  pub pool_from : PlayerUpgradeState → ℤ → List UpgradeDef → List (UpgradeDef × Float)
  pool_from u wave [] = []
  pool_from u wave (d ∷ ds) =
      let rest = pool_from u wave ds in
      if is_eligible u d && not (at_most (weight wave d) (of_int (pos 0)))
      then (d, weight wave d) ∷ rest
      else rest

  pub total_weight : List (UpgradeDef × Float) → Float → Float
  total_weight [] acc = acc
  total_weight ((d, w) ∷ pool) acc = total_weight pool (plus acc w)

  -- The entry at which the running rest is used up; the last one where it never is.
  pub sample_from : UpgradeDef × Float → List (UpgradeDef × Float) → Float → UpgradeDef
  sample_from (d, w) [] r = d
  sample_from (d, w) (next ∷ pool) r =
      let rest = sample_from next pool (minus r w) in
      if at_most (minus r w) (of_int (pos 0)) then d else rest

  unfoldable pub weighted_sample_upgrade :
      Rng → UpgradeDef × Float → List (UpgradeDef × Float) → UpgradeDef × Rng
  weighted_sample_upgrade rng first rest =
      let (draw, next) = float64 rng in
      (sample_from first rest (times draw (total_weight (first ∷ rest) (of_int (pos 0)))), next)

  pub available_in : List UpgradeDef → List (UpgradeDef × Float) → List (UpgradeDef × Float)
  available_in selected [] = []
  available_in selected ((d, w) ∷ pool) =
      let rest = available_in selected pool in
      if contains (ids_of selected) d.id then rest else (d, w) ∷ rest

  -- The loop that fills the places that are left; each round takes one or ends the loop.
  pub fill : ℕ → List (UpgradeDef × Float) → Rng → List UpgradeDef → List UpgradeDef × Rng
  fill zero pool rng selected = (selected, rng)
  fill (suc places) pool rng selected = elim (available_in selected pool) [
    | [] ↦ (selected, rng)
    | first ∷ rest ↦
        let (pick, next) = weighted_sample_upgrade rng first rest in
        fill places pool next (selected ++ pick ∷ [])
  ]

  pub rare_in : ℤ → List (UpgradeDef × Float) → List (UpgradeDef × Float)
  rare_in rank [] = []
  rare_in rank ((d, w) ∷ pool) =
      let rest = rare_in rank pool in
      if leb_ℤ rank (rarity_order d.rarity) then (d, w) ∷ rest else rest

  pub has_wave : ℤ → List ℤ → Bool
  has_wave wave [] = false
  has_wave wave (m ∷ ms) = (leb_ℤ wave m && leb_ℤ m wave) || has_wave wave ms

  -- On a milestone wave the first pick is a rare one, where the pool has one.
  unfoldable pub first_pick : ℤ → List (UpgradeDef × Float) → Rng → List UpgradeDef × Rng
  first_pick wave pool rng =
      let rank = rarity_order milestone_min_rarity in
      if has_wave wave milestone_waves
        && (not (str_eq milestone_min_rarity "") && leb_ℤ (pos 0) rank)
      then elim (rare_in rank pool) [
        | [] ↦ ([], rng)
        | first ∷ rest ↦
            let (pick, next) = weighted_sample_upgrade rng first rest in (pick ∷ [], next)
      ]
      else ([], rng)

  unfoldable pub generate_upgrade_offers : PlayerUpgradeState → ℤ → Rng → List UpgradeDef × Rng
  generate_upgrade_offers u wave rng =
      let pool = pool_from u wave defs in
      let (selected, next) = first_pick wave pool rng in
      fill (3 - length selected) pool next selected

  pub enter_each : ℤ → ℕ → Dict PlayerUpgradeState → Rng → Dict PlayerUpgradeState × Rng
  enter_each wave deadline [] rng = ([], rng)
  enter_each wave deadline ((id, u) ∷ us) rng =
      if is_human id
      then (let (offers, next) = generate_upgrade_offers u wave rng in
          let (rest, last) = enter_each wave deadline us next in
          (
            (
              id,
              record u {
                rerolls_remaining = u.max_rerolls;
                current_offers = offers;
                offer_deadline_ms = deadline;
                resolved = false;
              },
            )
                ∷ rest,
            last,
          ))
      else (let (rest, last) = enter_each wave deadline us rng in ((id, u) ∷ rest, last))

  -- `timer_ms` is the phase's length.
  unfoldable pub enter_wave_upgrade_phase : ℕ → ℕ → WaveState → Rng → WaveState × Rng
  enter_wave_upgrade_phase now timer_ms s rng =
      let (us, next) = enter_each s.current_wave (now + timer_ms) s.upgrades rng in
      (record s { upgrades = us }, next)

  unfoldable pub handle_wave_upgrade_reroll : String → WaveState → Rng → WaveState × Rng
  handle_wave_upgrade_reroll player_id s rng = elim (lookup player_id s.upgrades) [
    | none ↦ (s, rng)
    | some u ↦
        let v = record u { rerolls_remaining = u.rerolls_remaining -ℤ pos 1 } in
        let (offers, next) = generate_upgrade_offers v s.current_wave rng in
        if u.resolved || (not (str_eq s.state "upgrade") || leb_ℤ u.rerolls_remaining (pos 0))
        then (s, rng)
        else (
          record s {
            upgrades = insert player_id (record v { current_offers = offers }) s.upgrades;
          },
          next,
        )
  ]

module _ (upgrade_defs : Dict UpgradeDef) (catalog : Dict ItemDef)
    (simulate : String → UpgradeDef → ℕ → World → World) where
  -- The effects on the player's vault and resources, or those on units.
  unfoldable pub apply_effect : String → UpgradeDef → ℕ → World → World
  apply_effect player_id d target w = elim (lookup player_id w.players) [
    | none ↦ w
    | some p ↦ elim d.effect [
      | simulated_effect ↦ simulate player_id d target w
      | resources_effect gold wood ↦
          let with_gold = insert "gold" (amount "gold" p.resources +ℤ gold) p.resources in
          let with_wood = insert "wood" (amount "wood" with_gold +ℤ wood) with_gold in
          record w { players = insert player_id (record p { resources = with_wood }) w.players }
      | equipment_effect item_id ↦ elim (lookup item_id catalog) [
        | none ↦ w
        | some item ↦
            elim (add_item_to_vault item (vault_capacity_for_player player_id w)
              w.next_item_instance_id p.vault) [
                | none ↦ w
                | some (next, vault) ↦ record w {
                  players = insert player_id (record p { vault = vault }) w.players;
                  next_item_instance_id = next;
                }
              ]
      ]
    ]
  ]

  unfoldable pub apply_upgrade :
      String → String → ℕ → PlayerUpgradeState → World → PlayerUpgradeState × World
  apply_upgrade player_id upgrade_id target u w = elim (lookup upgrade_id upgrade_defs) [
    | none ↦ (u, w)
    | some d ↦
        let stacks = insert d.group (amount d.group u.upgrade_stacks +ℤ pos 1) u.upgrade_stacks in
        (
          (if d.unlimited then u else record u { upgrade_stacks = stacks }),
          apply_effect player_id d target w,
        )
  ]

  unfoldable pub handle_wave_upgrade_choice : String → String → ℕ → WaveState → WaveState
  handle_wave_upgrade_choice player_id upgrade_id target s = elim (lookup player_id s.upgrades) [
    | none ↦ s
    | some u ↦
        let (v, w) = apply_upgrade player_id upgrade_id target u s.world in
        if u.resolved
          || (not (str_eq s.state "upgrade") || not (contains (ids_of u.current_offers) upgrade_id))
        then s
        else record s {
          upgrades = insert player_id (record v { resolved = true }) s.upgrades;
          world = w;
        }
  ]

  abbrev pub auto_pick : String → PlayerUpgradeState → World → PlayerUpgradeState × World
  auto_pick id u w = elim u.current_offers [ [] ↦ (u, w) | d ∷ ds ↦ apply_upgrade id d.id 0 u w ]

  -- The loop of the phase's tick, over the players and the state they share.
  unfoldable pub tick_each : ℕ → Dict PlayerUpgradeState → World → Dict PlayerUpgradeState × World
  tick_each now [] w = ([], w)
  tick_each now ((id, u) ∷ us) w =
      let (v, picked) = auto_pick id u w in
      let late = tick_each now us picked in
      let early = tick_each now us w in
      if not (is_human id) || (u.resolved || ltb now u.offer_deadline_ms)
      then ((id, u) ∷ early.0, early.1)
      else ((id, record v { resolved = true }) ∷ late.0, late.1)

  unfoldable pub wave_upgrade_all_resolved : Dict PlayerUpgradeState → Bool
  wave_upgrade_all_resolved [] = true
  wave_upgrade_all_resolved ((id, u) ∷ us) =
      let rest = wave_upgrade_all_resolved us in
      if is_human id && not u.resolved then false else rest

  unfoldable pub tick_upgrade_phase : ℕ → WaveState → WaveState
  tick_upgrade_phase now s =
      let (us, w) = tick_each now s.upgrades s.world in
      record s {
        upgrades = us;
        world = w;
        state = if wave_upgrade_all_resolved us then "prep" else s.state;
      }

abbrev pub shift : ℕ → PlayerUpgradeState → PlayerUpgradeState
shift elapsed u =
    if ltb 0 u.offer_deadline_ms && not u.resolved
    then record u { offer_deadline_ms = u.offer_deadline_ms + elapsed }
    else u

unfoldable pub shift_each : ℕ → Dict PlayerUpgradeState → Dict PlayerUpgradeState
shift_each elapsed [] = []
shift_each elapsed ((id, u) ∷ us) = (id, shift elapsed u) ∷ shift_each elapsed us

unfoldable pub handle_set_pause : ℕ → String → Bool → WaveState → WaveState
handle_set_pause now player_id paused s =
    if str_eq player_id enemy_player_id || str_eq player_id ""
    then s
    else elim (lookup player_id s.upgrades) [
      | none ↦ s
      | some u ↦
          let shifted =
            if ltb 0 s.paused_at_ms && ltb s.paused_at_ms now
            then shift_each (now - s.paused_at_ms) s.upgrades
            else s.upgrades in
          if paused
          then (if s.paused
              then s
              else record s { paused = true; paused_by = player_id; paused_at_ms = now })
          else (if s.paused
              then record s { upgrades = shifted; paused = false; paused_by = ""; paused_at_ms = 0 }
              else s)
    ]
