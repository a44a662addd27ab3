-- ===== src/Waves/Machine.antt =====
-- server/internal/game/state_waves.go: the wave state machine, from the preparation of a wave over
-- its fight and the players' upgrades to the next one, and the gates of the spawn points. Timers are
-- floats. `now` is the clock, and `timer_ms` the length of the upgrade phase.
pub mod Cycle
use web_rts_nomads.Base.{
  ℕ, suc, ◌+◌, String, Bool, true, false, Option, none, some, List, [], ◌∷◌, Dict, lookup, insert,
  delete, str_eq, ◌==◌, if◌then◌else◌, not, ◌&&◌, ◌||◌,
}
use web_rts_nomads.Base.Int.{ℤ, pos, ltb_ℤ, leb_ℤ, eqb_ℤ, ◌+ℤ◌}
use web_rts_nomads.Base.Float.{Float64}
use web_rts_nomads.Matches.{enemy_player_id}
use web_rts_nomads.World.{World}
use web_rts_nomads.Items.{ItemDef}
use web_rts_nomads.Waves.{
  UpgradeDef, PlayerUpgradeState, WaveState, enter_wave_upgrade_phase, tick_upgrade_phase,
}

-- A spawn point's metadata: `int(v)` of "waveNumber", "startingWave" and "waveInterval", where they
-- are numbers. `rem` is Go's `%` on the wave numbers.
pub record Spawnpoint : Type 0 where
  pub id : String
  pub building_type : String
  pub wave_number : Option ℤ
  pub starting_wave : Option ℤ
  pub wave_interval : Option ℤ
  pub game_start : Bool

-- What gates the end of a wave.
pub record FieldUnit : Type 0 where
  pub owner_id : String
  pub hp : ℤ
  pub mining_inside : Bool
  pub ignore_wave_clear : Bool

unfoldable pub count_enemy_units : List FieldUnit → ℕ
count_enemy_units [] = 0
count_enemy_units (u ∷ us) =
    let rest = count_enemy_units us in
    if str_eq u.owner_id enemy_player_id
      && (ltb_ℤ (pos 0) u.hp && (not u.mining_inside && not u.ignore_wave_clear))
    then suc rest
    else rest

abbrev pub is_positive : Option ℤ → Bool
is_positive none = false
is_positive (some n) = ltb_ℤ (pos 0) n

abbrev pub is_given : Option ℤ → Bool
is_given none = false
is_given (some n) = true

abbrev pub is_spawnpoint : Spawnpoint → Bool
is_spawnpoint b = str_eq b.building_type "enemy-spawnpoint"

abbrev pub has_wave_tag : Spawnpoint → Bool
has_wave_tag b =
    is_positive b.wave_number || (is_given b.starting_wave || is_positive b.wave_interval)

unfoldable pub has_wave_points : List Spawnpoint → Bool
has_wave_points [] = false
has_wave_points (b ∷ bs) = (is_spawnpoint b && has_wave_tag b) || has_wave_points bs

abbrev pub larger : ℤ → Option ℤ → ℤ
larger most none = most
larger most (some n) = if ltb_ℤ (pos 0) n && ltb_ℤ most n then n else most

unfoldable pub max_wave : ℤ → List Spawnpoint → ℤ
max_wave most [] = most
max_wave most (b ∷ bs) = max_wave (if is_spawnpoint b then larger most b.wave_number else most) bs

module _ (F : Float64) (rem : ℤ → ℤ → ℤ) where
  open F use {Float, plus, minus, less, at_most, of_int}

  pub record WaveConfig : Type 0 where
    pub prep_duration : Float
    pub wave_duration : Float
    pub total_waves : ℤ

  pub record EnemySpawnTimer : Type 0 where
    pub remaining_delay : Float
    pub total_delay : Float
    pub remaining_interval : Float
    pub total_interval : Float
    pub spawn_once : Bool
    pub has_fired : Bool

  -- `CurrentWave` and `State` are fields of `phase`, which the upgrade phase reads.
  pub record WaveMachine : Type 0 where
    pub phase : WaveState
    pub enabled : Bool
    pub total_waves : ℤ
    pub timer : Float
    pub prep_duration : Float
    pub wave_duration : Float
    pub test_upgrade_fired : Bool
    pub spawn_timers : Dict EnemySpawnTimer

  abbrev pub no_time : Float
  no_time = of_int (pos 0)

  abbrev pub positive_or : Float → Float → Float
  positive_or d v = if less no_time v then v else d

  -- `wavePrepDuration` and `waveActiveDuration` are the tuning's.
  unfoldable pub init_wave_manager :
      Float → Float → List Spawnpoint → Option WaveConfig → WaveMachine → WaveMachine
  init_wave_manager wave_prep wave_active points config m =
      let most = max_wave (pos 0) points in
      let prep : Float = elim config [
        | none ↦ wave_prep
        | some c ↦ positive_or wave_prep c.prep_duration
      ] in
      let active : Float = elim config [
        | none ↦ wave_active
        | some c ↦ positive_or wave_active c.wave_duration
      ] in
      let total : ℤ = elim config [
        | none ↦ most
        | some c ↦ if ltb_ℤ (pos 0) c.total_waves then c.total_waves else most
      ] in
      if has_wave_points points
      then record m {
        phase = record m.phase { current_wave = pos 0; state = "prep" };
        enabled = true;
        total_waves = total;
        timer = prep;
        prep_duration = prep;
        wave_duration = active;
        test_upgrade_fired = false;
      }
      else record m {
        phase = record m.phase { current_wave = pos 0; state = "" };
        enabled = false;
        total_waves = pos 0;
        timer = no_time;
        prep_duration = no_time;
        wave_duration = no_time;
        test_upgrade_fired = false;
      }

  abbrev pub is_wave : ℤ → Option ℤ → Bool
  is_wave wave none = false
  is_wave wave (some n) = eqb_ℤ n wave

  abbrev pub has_started : ℤ → Option ℤ → Bool
  has_started wave none = false
  has_started wave (some n) = leb_ℤ n wave

  abbrev pub on_interval : ℤ → Option ℤ → Bool
  on_interval wave none = false
  on_interval wave (some n) = ltb_ℤ (pos 0) n && (ltb_ℤ (pos 0) wave && eqb_ℤ (rem wave n) (pos 0))

  unfoldable pub reset_wave_spawn_timers :
      ℤ → List Spawnpoint → Dict EnemySpawnTimer → Dict EnemySpawnTimer
  reset_wave_spawn_timers wave [] timers = timers
  reset_wave_spawn_timers wave (b ∷ bs) timers = reset_wave_spawn_timers wave bs (
      if is_spawnpoint b
        && (is_wave wave b.wave_number
            || (has_started wave b.starting_wave || on_interval wave b.wave_interval))
      then delete b.id timers
      else timers)

  abbrev pub timer_expired : WaveMachine → Bool
  timer_expired m = less no_time m.wave_duration && at_most m.wave_duration m.timer

  -- The wave-gating of `tickEnemySpawnpointsLocked`: whether a spawn point is passed over.
  unfoldable pub is_gated : WaveMachine → Spawnpoint → Bool
  is_gated m b =
      let wave = m.phase.current_wave in
      let shut = not (str_eq m.phase.state "active") in
      let late = timer_expired m in
      if b.game_start || not m.enabled
      then false
      else if is_positive b.wave_interval
      then shut || (not (on_interval wave b.wave_interval) || late)
      else if is_positive b.starting_wave
      then shut || (not (has_started wave b.starting_wave) || late)
      else if is_positive b.wave_number
      then shut || (not (is_wave wave b.wave_number) || late)
      else shut || late

  module _ {Rng : Type 0} (float64 : Rng → Float × Rng) (defs : List UpgradeDef)
      (base_weight rarity_scale : String → Float) (rarity_order : String → ℤ)
      (milestone_waves : List ℤ) (milestone_min_rarity : String) (upgrade_defs : Dict UpgradeDef)
      (catalog : Dict ItemDef) (simulate : String → UpgradeDef → ℕ → World → World)
      (points : List Spawnpoint) (timer_ms : ℕ) where
    -- `wm.State = "upgrade"` and the start of the phase.
    unfoldable pub enter_upgrade : ℕ → WaveMachine → Rng → WaveMachine × Rng
    enter_upgrade now m rng =
        let (phase, next) =
          enter_wave_upgrade_phase F float64 defs base_weight rarity_scale rarity_order
            milestone_waves milestone_min_rarity now timer_ms (record m.phase { state = "upgrade" })
            rng in
        (record m { phase = phase }, next)

    -- The start of a wave's fight. The reset of the units' path diagnostics is left out.
    unfoldable pub start_wave : WaveMachine → WaveMachine
    start_wave m =
        let wave = m.phase.current_wave +ℤ pos 1 in
        record m {
          phase = record m.phase { current_wave = wave; state = "active" };
          timer = no_time;
          spawn_timers = reset_wave_spawn_timers wave points m.spawn_timers;
        }

    abbrev pub has_players : Dict PlayerUpgradeState → Bool
    has_players [] = false
    has_players (_ ∷ _) = true

    abbrev pub test_hook : WaveMachine → Bool
    test_hook m =
        eqb_ℤ m.phase.current_wave (pos 0)
        && (has_players m.phase.upgrades && not m.test_upgrade_fired)

    unfoldable pub tick_prep : Float → ℕ → WaveMachine → Rng → WaveMachine × Rng
    tick_prep dt now m rng =
        let waited = record m { timer = minus m.timer dt } in
        if test_hook m
        then enter_upgrade now (record m { test_upgrade_fired = true }) rng
        else if at_most waited.timer no_time
        then (start_wave waited, rng)
        else (waited, rng)

    abbrev pub capped : WaveMachine → Float → Float
    capped m t =
        if less no_time m.wave_duration && at_most m.wave_duration t then m.wave_duration else t

    abbrev pub is_last : WaveMachine → Bool
    is_last m = ltb_ℤ (pos 0) m.total_waves && leb_ℤ m.total_waves m.phase.current_wave

    -- `minActiveSeconds` is 5.
    abbrev pub is_cleared : Float → List FieldUnit → Bool
    is_cleared t units = at_most (of_int (pos 5)) t && (count_enemy_units units == 0)

    -- `markWaveObjectivesCompleteLocked`, which writes the map's objectives, is left out.
    unfoldable pub tick_active : Float → ℕ → List FieldUnit → WaveMachine → Rng → WaveMachine × Rng
    tick_active dt now units m rng =
        let fought = record m { timer = capped m (plus m.timer dt) } in
        if is_cleared fought.timer units
        then (if is_last m
            then (record fought { phase = record m.phase { state = "complete" } }, rng)
            else enter_upgrade now fought rng)
        else (fought, rng)

    unfoldable pub tick_upgrade : ℕ → WaveMachine → WaveMachine
    tick_upgrade now m =
        let phase = tick_upgrade_phase upgrade_defs catalog simulate now m.phase in
        record m {
          phase = phase;
          timer = if str_eq phase.state "prep" then m.prep_duration else m.timer;
        }

    unfoldable pub tick_wave : Float → ℕ → List FieldUnit → WaveMachine → Rng → WaveMachine × Rng
    tick_wave dt now units m rng =
        if not m.enabled
        then (m, rng)
        else if str_eq m.phase.state "prep"
        then tick_prep dt now m rng
        else if str_eq m.phase.state "active"
        then tick_active dt now units m rng
        else if str_eq m.phase.state "upgrade"
        then (tick_upgrade now m, rng)
        else (m, rng)
