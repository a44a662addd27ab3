-- ===== src/Tests/WaveTests.antt =====
-- Wave upgrades: offers of a milestone wave, a choice, the end of the phase, and a pause.
use web_rts_nomads.Base.{
  ℕ, ◌+◌, ◌≡◌, ◌≤◌, refl, String, true, false, some, List, [], ◌∷◌, Dict, lookup, length, arith,
}
use web_rts_nomads.Base.Int.{ℤ, pos}
use web_rts_nomads.Tests.Whole.{whole}
use web_rts_nomads.World.{World}
use web_rts_nomads.Waves.{
  UpgradeDef, PlayerUpgradeState, WaveState, simulated_effect, generate_upgrade_offers,
  tick_upgrade_phase, handle_set_pause, handle_wave_upgrade_choice,
}
use web_rts_nomads.Waves.Offers.{AreOffers, generate_upgrade_offers-AreOffers}
use web_rts_nomads.Waves.Phase.{tick_upgrade_phase-ends, choice_once, resume_keeps_time}

abbrev draw : ℕ → ℤ × ℕ
draw n = (pos n, n + 1)

abbrev upgrade : String → UpgradeDef
upgrade id = record {
  id = id;
  group = id;
  rarity = "epic";
  effect = simulated_effect;
  max_stacks = pos 3;
  unlimited = false;
}

abbrev all_upgrades : List UpgradeDef
all_upgrades = upgrade "blades" ∷ upgrade "boots" ∷ upgrade "bows" ∷ upgrade "bread" ∷ []

abbrev one_each : String → ℤ
one_each rarity = pos 1

abbrev choosing : PlayerUpgradeState
choosing = record {
  upgrade_stacks = ("bows", pos 3) ∷ [];
  max_rerolls = pos 1;
  max_upgrade_stacks = pos 3;
  rerolls_remaining = pos 1;
  current_offers = upgrade "blades" ∷ upgrade "boots" ∷ [];
  offer_deadline_ms = 9000;
  resolved = false;
}

generate_upgrade_offers-AreOffers_example :
    AreOffers choosing
      (generate_upgrade_offers whole draw all_upgrades one_each one_each one_each
        (pos 5 ∷ [])
        "epic"
        choosing
        (pos 5)
        0).0
    × (length
          (generate_upgrade_offers whole draw all_upgrades one_each one_each one_each
            (pos 5 ∷ [])
            "epic"
            choosing
            (pos 5)
            0).0
        ≤ 3)
generate_upgrade_offers-AreOffers_example =
    generate_upgrade_offers-AreOffers whole draw all_upgrades one_each one_each one_each
      (pos 5 ∷ []) "epic" choosing (pos 5) 0

abbrev empty_world : World
empty_world = record {
  players = [];
  units = [];
  buildings = [];
  known_buildings = [];
  next_item_instance_id = 0;
}

abbrev between_waves : WaveState
between_waves = record {
  world = empty_world;
  upgrades = ("ann", choosing) ∷ ("bob", choosing) ∷ [];
  current_wave = pos 5;
  state = "upgrade";
  paused = false;
  paused_by = "";
  paused_at_ms = 0;
}

abbrev no_change : String → UpgradeDef → ℕ → World → World
no_change p d t w = w

abbrev catalog : Dict UpgradeDef
catalog = ("blades", upgrade "blades") ∷ ("boots", upgrade "boots") ∷ []

tick_upgrade_phase-ends_example :
    (tick_upgrade_phase catalog [] no_change 9500 between_waves).state ≡ "prep"
tick_upgrade_phase-ends_example =
    tick_upgrade_phase-ends catalog [] no_change 9500 between_waves (omega arith, (omega arith, tt))

choice_once_example :
    ((v : PlayerUpgradeState) × (lookup "ann"
          (handle_wave_upgrade_choice catalog [] no_change "ann" "blades" 0 between_waves).upgrades
        ≡ some v)
      × (v.resolved ≡ true))
    × (handle_wave_upgrade_choice catalog [] no_change "ann" "boots" 0
          (handle_wave_upgrade_choice catalog [] no_change "ann" "blades" 0 between_waves)
        ≡ handle_wave_upgrade_choice catalog [] no_change "ann" "blades" 0 between_waves)
choice_once_example =
    choice_once catalog [] no_change "ann" "blades" "boots" 0 0 between_waves choosing refl refl
      refl refl

resume_keeps_time_example :
    (u' : PlayerUpgradeState) × (lookup "bob"
        (handle_set_pause 7000 "bob" false
          (handle_set_pause 5000 "ann" true between_waves)).upgrades
      ≡ some u')
    × (u'.offer_deadline_ms + 5000 ≡ choosing.offer_deadline_ms + 7000)
    × ((handle_set_pause 7000 "bob" false (handle_set_pause 5000 "ann" true between_waves)).paused
        ≡ false)
resume_keeps_time_example =
    resume_keeps_time 5000 7000 "ann" "bob" "bob" between_waves choosing refl (omega arith)
      (omega arith) (refl, refl, (choosing, refl)) (refl, refl, (choosing, refl)) refl (omega arith)
      refl
