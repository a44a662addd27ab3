-- ===== src/Tests/RankTests.antt =====
-- A soldier's promotions, and the cycle of the waves.
use web_rts_nomads.Base.{ℕ, ◌+◌, refl, String, true, false, none, some, [], ◌∷◌, arith}
use web_rts_nomads.Base.Int.{ℤ, pos}
use web_rts_nomads.Progression.{RankedUnit, add_unit_xp}
use web_rts_nomads.Progression.Ranks.{IsRanked, base, add_unit_xp-IsRanked}
use web_rts_nomads.World.{World}
use web_rts_nomads.Waves.{UpgradeDef}
use web_rts_nomads.Waves.Machine.{
  Spawnpoint, WaveMachine, init_wave_manager, has_wave_points, tick_wave,
}
use web_rts_nomads.Waves.Machine.Cycle.{IsCycle, begins, goes_on, ticks, waves-IsCycle}
use web_rts_nomads.Tests.Whole.{whole}

abbrev floor : ℤ → ℤ
floor a = a

abbrev coin : ℕ → ℕ → ℕ × ℕ
coin n rng = (0, rng + 1)

-- What a promotion adds is counted.
abbrev promoted : String → String → String → ℤ × ℕ → ℤ × ℕ
promoted rank path unit_type (hp, n) = (hp, n + 1)

abbrev recruit : RankedUnit whole floor coin promoted
recruit = record {
  hp = pos 50;
  visible = true;
  owner_id = "ann";
  unit_type = "soldier";
  rank = "base";
  xp = pos 90;
  xp_progress_remainder = pos 0;
  progression_path = "none";
  trained = 0;
}

add_unit_xp-IsRanked_example :
    IsRanked whole floor coin promoted (add_unit_xp whole floor coin promoted (pos 300) recruit 7).0
add_unit_xp-IsRanked_example =
    add_unit_xp-IsRanked whole floor coin promoted (pos 300) recruit 7 (base (omega arith))

abbrev rem : ℤ → ℤ → ℤ
rem a b = pos 0

abbrev camp : Spawnpoint
camp = record {
  id = "camp";
  building_type = "enemy-spawnpoint";
  wave_number = some (pos 1);
  starting_wave = none;
  wave_interval = none;
  game_start = false;
}

abbrev empty_world : World
empty_world = record {
  players = [];
  units = [];
  buildings = [];
  known_buildings = [];
  next_item_instance_id = 1;
}

abbrev fresh : WaveMachine whole rem
fresh = record {
  phase = record {
    world = empty_world;
    upgrades = [];
    current_wave = pos 0;
    state = "";
    paused = false;
    paused_by = "";
    paused_at_ms = 0;
  };
  enabled = false;
  total_waves = pos 0;
  timer = pos 0;
  prep_duration = pos 0;
  wave_duration = pos 0;
  test_upgrade_fired = false;
  spawn_timers = [];
}

abbrev draw : ℕ → ℤ × ℕ
draw n = (pos n, n + 1)

abbrev even : String → ℤ
even rarity = pos 1

abbrev unchanged : String → UpgradeDef → ℕ → World → World
unchanged id d n w = w

abbrev readied : WaveMachine whole rem
readied = init_wave_manager whole rem (pos 60) (pos 120) (camp ∷ []) none fresh

-- A tick that is longer than the preparation.
abbrev first_tick : WaveMachine whole rem
first_tick =
    (tick_wave whole rem draw [] even even even [] "" [] [] unchanged (camp ∷ []) 30000 (pos 61)
      1000 [] readied 5).0

waves-IsCycle_example : IsCycle whole rem first_tick
unfolding has_wave_points
waves-IsCycle_example =
    waves-IsCycle whole rem draw [] even even even [] "" [] [] unchanged (camp ∷ []) 30000 (pos 60)
      (pos 120) none fresh first_tick refl (goes_on begins (ticks (pos 61) 1000 [] readied 5))
