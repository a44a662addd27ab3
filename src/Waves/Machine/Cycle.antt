-- ===== src/Waves/Machine/Cycle.antt =====
-- The cycle of the waves, whatever ticks and requests come.
use web_rts_nomads.Base.{
  ℕ, ◌≡◌, refl, ◌⊎◌, inl, inr, String, Bool, true, Option, List, Dict, str_eq, arith, Bool-cases,
  if-true, if-false, ap, subst, sym, not,
}
use web_rts_nomads.Base.Int.{ℤ, pos, ◌≤ℤ◌, ◌<ℤ◌, +ℤ_parts}
use web_rts_nomads.Base.Float.{Float64}
use web_rts_nomads.World.{World}
use web_rts_nomads.Items.{ItemDef}
use web_rts_nomads.Waves.{
  UpgradeDef, WaveState, enter_wave_upgrade_phase, tick_upgrade_phase, tick_each,
  wave_upgrade_all_resolved, handle_wave_upgrade_choice, handle_wave_upgrade_reroll,
  handle_set_pause,
}
use web_rts_nomads.Waves.Machine.{
  Spawnpoint, FieldUnit, has_wave_points, WaveConfig, WaveMachine, init_wave_manager, enter_upgrade,
  start_wave, test_hook, is_cleared, tick_prep, is_last, capped, tick_active, tick_upgrade,
  tick_wave,
}

-- Where a match with waves stands: before a wave that is still to come, in one, or after the last.
-- `total` is the number of waves, or is not positive where there is no end.
pub data Position (total wave : ℤ) : String → Type 0 where
  preparing : (total ≤ℤ pos 0) ⊎ (wave <ℤ total) → pos 0 ≤ℤ wave → Position total wave "prep"
  fighting : (total ≤ℤ pos 0) ⊎ (wave ≤ℤ total) → pos 0 <ℤ wave → Position total wave "active"
  upgrading : (total ≤ℤ pos 0) ⊎ (wave <ℤ total) → pos 0 ≤ℤ wave → Position total wave "upgrade"
  completed : pos 0 <ℤ total → total ≤ℤ wave → wave ≤ℤ total → Position total wave "complete"

module _ (F : Float64) (rem : ℤ → ℤ → ℤ) where
  abbrev pub IsCycle : WaveMachine F rem → Type 0
  IsCycle m = Position m.total_waves m.phase.current_wave m.phase.state

  pub init-IsCycle :
      (wave_prep wave_active : F.Float) (points : List Spawnpoint)
      (config : Option (WaveConfig F rem)) (m : WaveMachine F rem)
      → has_wave_points points ≡ true
      → IsCycle (init_wave_manager F rem wave_prep wave_active points config m)
  unfolding init_wave_manager
  init-IsCycle wave_prep wave_active points config m tagged =
      rw (init_wave_manager, tagged) (preparing (ground arith) (omega arith))

  module _ {Rng : Type 0} (float64 : Rng → F.Float × Rng) (defs : List UpgradeDef)
      (base_weight rarity_scale : String → F.Float) (rarity_order : String → ℤ)
      (milestone_waves : List ℤ) (milestone_min_rarity : String) (upgrade_defs : Dict UpgradeDef)
      (catalog : Dict ItemDef) (simulate : String → UpgradeDef → ℕ → World → World)
      (points : List Spawnpoint) (timer_ms : ℕ) where
    abbrev tick : F.Float → ℕ → List FieldUnit → WaveMachine F rem → Rng → WaveMachine F rem × Rng
    tick =
        tick_wave F rem float64 defs base_weight rarity_scale rarity_order milestone_waves
          milestone_min_rarity upgrade_defs catalog simulate points timer_ms

    -- What happens to a match's waves.
    pub data Step : WaveMachine F rem → WaveMachine F rem → Type 0 where
      ticks :
          (dt : F.Float) (now : ℕ) (units : List FieldUnit) (m : WaveMachine F rem) (rng : Rng)
          → Step m (tick dt now units m rng).0
      chooses :
          (player_id upgrade_id : String) (target : ℕ) (m : WaveMachine F rem)
          → Step m (record m {
            phase =
                handle_wave_upgrade_choice upgrade_defs catalog simulate player_id upgrade_id target
                  m.phase;
          })
      rerolls :
          (player_id : String) (m : WaveMachine F rem) (rng : Rng)
          → Step m (record m {
            phase =
                (handle_wave_upgrade_reroll F float64 defs base_weight rarity_scale rarity_order
                  milestone_waves milestone_min_rarity player_id m.phase rng).0;
          })
      pauses :
          (now : ℕ) (player_id : String) (paused : Bool) (m : WaveMachine F rem)
          → Step m (record m { phase = handle_set_pause now player_id paused m.phase })

    pub data Reaches (start : WaveMachine F rem) : WaveMachine F rem → Type 0 where
      begins : Reaches start start
      goes_on : {m n : WaveMachine F rem} → Reaches start m → Step m n → Reaches start n

    -- The requests of players leave the position alone.
    abbrev SamePlace : WaveState → WaveState → Type 0
    SamePlace s t = (t.state ≡ s.state) × (t.current_wave ≡ s.current_wave)

    choice-SamePlace :
        (player_id upgrade_id : String) (target : ℕ) (s : WaveState)
        → SamePlace s
            (handle_wave_upgrade_choice upgrade_defs catalog simulate player_id upgrade_id target s)
    unfolding handle_wave_upgrade_choice
    choice-SamePlace player_id upgrade_id target s = ground arith

    reroll-SamePlace :
        (player_id : String) (s : WaveState) (rng : Rng)
        → SamePlace s
            (handle_wave_upgrade_reroll F float64 defs base_weight rarity_scale rarity_order
              milestone_waves milestone_min_rarity player_id s rng).0
    unfolding handle_wave_upgrade_reroll
    reroll-SamePlace player_id s rng = ground arith

    pause-SamePlace :
        (now : ℕ) (player_id : String) (paused : Bool) (s : WaveState)
        → SamePlace s (handle_set_pause now player_id paused s)
    unfolding handle_set_pause
    pause-SamePlace now player_id paused s = ground arith

    IsCycle-same :
        (m : WaveMachine F rem) (t : WaveState)
        → SamePlace m.phase t
        → IsCycle m
        → IsCycle (record m { phase = t })
    IsCycle-same m t same h =
        subst (λ st. Position m.total_waves t.current_wave st) (sym same.0)
          (subst (λ w. Position m.total_waves w m.phase.state) (sym same.1) h)

    abbrev CycleAt : WaveMachine F rem × Rng → Type 0
    CycleAt r = IsCycle r.0

    abbrev entered : ℕ → WaveMachine F rem → Rng → WaveMachine F rem × Rng
    entered =
        enter_upgrade F rem float64 defs base_weight rarity_scale rarity_order milestone_waves
          milestone_min_rarity upgrade_defs catalog simulate points timer_ms

    enter-Position :
        (now : ℕ) (m : WaveMachine F rem) (rng : Rng)
        → (m.total_waves ≤ℤ pos 0) ⊎ (m.phase.current_wave <ℤ m.total_waves)
        → pos 0 ≤ℤ m.phase.current_wave
        → IsCycle (entered now m rng).0
    unfolding enter_upgrade enter_wave_upgrade_phase
    enter-Position now m rng h k = upgrading h k

    -- A tick in each of the states.
    prep-IsCycle :
        (dt : F.Float) (now : ℕ) (m : WaveMachine F rem) (rng : Rng)
        → m.phase.state ≡ "prep"
        → (m.total_waves ≤ℤ pos 0) ⊎ (m.phase.current_wave <ℤ m.total_waves)
        → pos 0 ≤ℤ m.phase.current_wave
        → IsCycle
            (tick_prep F rem float64 defs base_weight rarity_scale rarity_order milestone_waves
              milestone_min_rarity upgrade_defs catalog simulate points timer_ms dt now m rng).0
    unfolding tick_prep start_wave
    prep-IsCycle dt now m rng e h k =
        elim (Bool-cases (
          test_hook F rem float64 defs base_weight rarity_scale rarity_order milestone_waves
            milestone_min_rarity upgrade_defs catalog simulate points timer_ms m)) [
              | inl test ↦
                  rw (tick_prep, test)
                    (enter-Position now (record m { test_upgrade_fired = true }) rng h k)
              | inr no_test ↦
                  elim (Bool-cases (F.at_most (F.minus m.timer dt) (F.of_int (pos 0)))) [
                    | inl over ↦
                        let next = +ℤ_parts m.phase.current_wave (pos 1) in
                        rw (tick_prep, no_test, over)
                          (fighting (ground (arith, next, h)) (omega (arith, next, k)))
                    | inr waits ↦
                        rw (tick_prep, no_test, waits)
                          (subst (Position m.total_waves m.phase.current_wave) (sym e)
                            (preparing h k))
                  ]
            ]

    active-IsCycle :
        (dt : F.Float) (now : ℕ) (units : List FieldUnit) (m : WaveMachine F rem) (rng : Rng)
        → m.phase.state ≡ "active"
        → (m.total_waves ≤ℤ pos 0) ⊎ (m.phase.current_wave ≤ℤ m.total_waves)
        → pos 0 <ℤ m.phase.current_wave
        → IsCycle
            (tick_active F rem float64 defs base_weight rarity_scale rarity_order milestone_waves
              milestone_min_rarity upgrade_defs catalog simulate points timer_ms dt now units m
              rng).0
    unfolding tick_active
    active-IsCycle dt now units m rng e h k =
        let t =
          capped F rem float64 defs base_weight rarity_scale rarity_order milestone_waves
            milestone_min_rarity upgrade_defs catalog simulate points timer_ms m
            (F.plus m.timer dt) in
        let fought = record m { timer = t } in
        elim (Bool-cases (
          is_cleared F rem float64 defs base_weight rarity_scale rarity_order milestone_waves
            milestone_min_rarity upgrade_defs catalog simulate points timer_ms t units)) [
              | inr fighting_on ↦
                  rw (tick_active, fighting_on)
                    (subst (Position m.total_waves m.phase.current_wave) (sym e) (fighting h k))
              | inl cleared ↦
                  elim (Bool-cases (
                    is_last F rem float64 defs base_weight rarity_scale rarity_order milestone_waves
                      milestone_min_rarity upgrade_defs catalog simulate points timer_ms m)) [
                        | inl last ↦
                            rw (tick_active, cleared, last)
                              (completed (ground (arith, last)) (ground (arith, last))
                                (ground (arith, last, h)))
                        | inr more ↦
                            rw (tick_active, cleared, more)
                              (enter-Position now fought rng (ground (arith, more))
                                (omega (arith, k)))
                      ]
            ]

    upgrade-IsCycle :
        (now : ℕ) (m : WaveMachine F rem)
        → m.phase.state ≡ "upgrade"
        → (m.total_waves ≤ℤ pos 0) ⊎ (m.phase.current_wave <ℤ m.total_waves)
        → pos 0 ≤ℤ m.phase.current_wave
        → IsCycle (
            tick_upgrade F rem float64 defs base_weight rarity_scale rarity_order milestone_waves
              milestone_min_rarity upgrade_defs catalog simulate points timer_ms now m)
    unfolding tick_upgrade tick_upgrade_phase
    upgrade-IsCycle now m e h k =
        let us = (tick_each upgrade_defs catalog simulate now m.phase.upgrades m.phase.world).0 in
        elim (Bool-cases (wave_upgrade_all_resolved upgrade_defs catalog simulate us)) [
          | inl done ↦ rw (tick_upgrade, tick_upgrade_phase, done) (preparing h k)
          | inr waits ↦
              rw (tick_upgrade, tick_upgrade_phase, waits)
                (subst (Position m.total_waves m.phase.current_wave) (sym e) (upgrading h k))
        ]

    -- A tick, by the state it finds.
    tick_by_state :
        (dt : F.Float) (now : ℕ) (units : List FieldUnit) (m : WaveMachine F rem) (rng : Rng)
        (st : String)
        → m.enabled ≡ true
        → m.phase.state ≡ st
        → Position m.total_waves m.phase.current_wave st
        → IsCycle (tick dt now units m rng).0
    unfolding tick_wave
    tick_by_state dt now units m rng st on e (preparing h k) =
        if-false CycleAt _ _ _ (ap not on)
          (if-true CycleAt _ _ _ (ap (λ s. str_eq s "prep") e) (prep-IsCycle dt now m rng e h k))
    tick_by_state dt now units m rng st on e (fighting h k) = if-false CycleAt _ _ _ (ap not on) (
        if-false CycleAt _ _ _ (ap (λ s. str_eq s "prep") e) (
          if-true CycleAt _ _ _ (ap (λ s. str_eq s "active") e)
            (active-IsCycle dt now units m rng e h k)))
    tick_by_state dt now units m rng st on e (upgrading h k) = if-false CycleAt _ _ _ (ap not on) (
        if-false CycleAt _ _ _ (ap (λ s. str_eq s "prep") e) (
          if-false CycleAt _ _ _ (ap (λ s. str_eq s "active") e)
            (if-true CycleAt _ _ _ (ap (λ s. str_eq s "upgrade") e) (upgrade-IsCycle now m e h k))))
    tick_by_state dt now units m rng st on e (completed h k l) =
        if-false CycleAt _ _ _ (ap not on) (
          if-false CycleAt _ _ _ (ap (λ s. str_eq s "prep") e) (
            if-false CycleAt _ _ _ (ap (λ s. str_eq s "active") e) (
              if-false CycleAt _ _ _ (ap (λ s. str_eq s "upgrade") e)
                (subst (Position m.total_waves m.phase.current_wave) (sym e) (completed h k l)))))

    tick-IsCycle :
        (dt : F.Float) (now : ℕ) (units : List FieldUnit) (m : WaveMachine F rem) (rng : Rng)
        → IsCycle m
        → IsCycle (tick dt now units m rng).0
    unfolding tick_wave
    tick-IsCycle dt now units m rng h = elim (Bool-cases m.enabled) [
      | inl on ↦ tick_by_state dt now units m rng m.phase.state on refl h
      | inr off ↦ if-true CycleAt _ _ _ (ap not off) h
    ]

    Step-IsCycle : (m n : WaveMachine F rem) → Step m n → IsCycle m → IsCycle n
    Step-IsCycle _ _ (ticks dt now units m rng) h = tick-IsCycle dt now units m rng h
    Step-IsCycle _ _ (chooses player_id upgrade_id target m) h =
        IsCycle-same m
          (handle_wave_upgrade_choice upgrade_defs catalog simulate player_id upgrade_id target
            m.phase)
          (choice-SamePlace player_id upgrade_id target m.phase) h
    Step-IsCycle _ _ (rerolls player_id m rng) h =
        IsCycle-same m
          (handle_wave_upgrade_reroll F float64 defs base_weight rarity_scale rarity_order
            milestone_waves milestone_min_rarity player_id m.phase rng).0
          (reroll-SamePlace player_id m.phase rng) h
    Step-IsCycle _ _ (pauses now player_id paused m) h =
        IsCycle-same m (handle_set_pause now player_id paused m.phase)
          (pause-SamePlace now player_id paused m.phase) h

    Reaches-IsCycle : (start m : WaveMachine F rem) → IsCycle start → Reaches start m → IsCycle m
    Reaches-IsCycle start m h begins = h
    Reaches-IsCycle start m h (goes_on {m = before} way step) =
        Step-IsCycle before m step (Reaches-IsCycle start before h way)

    -- On a map with wave spawn points, whatever ticks, choices, rerolls and pauses follow the
    -- start: the match is in one of the four states; with a last wave set, the wave number is below
    -- it before a wave and between waves, at most it in a wave, and equal to it when the waves are
    -- complete; and a wave is never active before the first.
    pub waves-IsCycle :
        (wave_prep wave_active : F.Float) (config : Option (WaveConfig F rem))
        (fresh m : WaveMachine F rem)
        → has_wave_points points ≡ true
        → Reaches (init_wave_manager F rem wave_prep wave_active points config fresh) m
        → IsCycle m
    waves-IsCycle wave_prep wave_active config fresh m tagged way =
        Reaches-IsCycle _ m (init-IsCycle wave_prep wave_active points config fresh tagged) way
