-- ===== src/Tests/ProfileTests.antt =====
-- Profiles: a store with a damaged backup, upgrades, and advancements whose costs changed.
use web_rts_nomads.Base.{
  ◌≡◌, ◌⊎◌, inr, refl, String, false, Option, none, some, List, [], ◌∷◌, Dict, str_eq,
  if◌then◌else◌,
}
use web_rts_nomads.Base.Int.{pos, ◌+ℤ◌, ◌-ℤ◌}
use web_rts_nomads.World.{amount}
use web_rts_nomads.Profile.{
  RawProfile, PlayerProfile, migrate_profile, as_saved, new_default_profile, add_to_sorted_set,
  sort_strings, insert_sorted,
}
use web_rts_nomads.Profile.Store.{
  Files, Reply, accept, loaded, load, interrupted, save_actions, with_locked, update_loaded, commit,
  updated, save-crash_safe, with_locked-durable,
}
use web_rts_nomads.Profile.Handlers.{
  ProfileUpgradeDef, UnitAdvancementNode, Refusal, purchase_upgrade, refund_upgrade,
  purchase_advancement, refund_stale_advancement_costs, prerequisite_id, previous_in, sort_by_id,
  insert_by_id,
}
use web_rts_nomads.Profile.Chains.{IsClosed, IsOnce, purchase_advancement-IsClosed}
use web_rts_nomads.Profile.Ledger.{worth, refund_stale-worth, refund_upgrade-purchase_upgrade}

abbrev old_profile : RawProfile
old_profile = record {
  player_id = "ann";
  version = 1;
  created_at_unix = 10;
  updated_at_unix = 20;
  legend_points = pos 9;
  lifetime_legend_points = pos 12;
  owned_commander_ids = "nomad" ∷ [];
  selected_commander_id = "nomad";
  owned_upgrade_ranks = some (("swift", pos 1) ∷ ("stout", pos 0) ∷ []);
  active_upgrade_ids = none;
  acquired_advancements = none;
}

abbrev new_profile : RawProfile
new_profile = record old_profile {
  version = 4;
  active_upgrade_ids = some [];
  acquired_advancements = some [];
}

-- A format with two documents.
abbrev old_encode : RawProfile → String
old_encode p = "new"

abbrev old_parse : String → Option RawProfile
old_parse text =
    if str_eq text "old"
    then some old_profile
    else if str_eq text "new"
    then some new_profile
    else none

abbrev files : Files
files = record { primary = some "old"; backup = some "torn"; tmp = none }

save-crash_safe_example :
    (load old_encode old_parse (interrupted 1 "ne" (save_actions "new" files) files)
      ≡ load old_encode old_parse files)
    ⊎ (load old_encode old_parse (interrupted 1 "ne" (save_actions "new" files) files)
        ≡ loaded (migrate_profile new_profile))
save-crash_safe_example =
    save-crash_safe old_encode old_parse 1 "ne" "new" files new_profile
      (inr ("old", old_profile, refl, refl)) refl

abbrev ann_profile : PlayerProfile
ann_profile = migrate_profile old_profile

abbrev grant : PlayerProfile → Reply Refusal
grant p = accept (record p { legend_points = pos 14 })

abbrev granted : PlayerProfile
granted = record ann_profile { legend_points = pos 14; updated_at_unix = 30 }

-- A format that knows the old document and the granted one.
abbrev parse : String → Option RawProfile
parse text =
    if str_eq text "old"
    then some old_profile
    else if str_eq text "new"
    then some (as_saved granted)
    else none

grant_is_done : (with_locked old_encode parse 3 "" 30 "ann" grant files).0 ≡ updated granted
unfolding with_locked update_loaded commit load save_actions migrate_profile
grant_is_done = refl

with_locked-durable_example :
    load old_encode parse (with_locked old_encode parse 3 "" 30 "ann" grant files).1
    ≡ loaded granted
unfolding migrate_profile
with_locked-durable_example =
    with_locked-durable old_encode parse 3 "" 30 "ann" grant files granted refl refl grant_is_done

abbrev upgrades : Dict ProfileUpgradeDef
upgrades = ("swift", record { max_ranks = pos 2; cost_per_rank = pos 3 ∷ pos 5 ∷ [] }) ∷ []

abbrev bought : PlayerProfile
bought = record (new_default_profile 10 "ann" "nomad") {
  legend_points = pos 4;
  owned_upgrade_ranks = ("swift", pos 1) ∷ [];
  active_upgrade_ids = "swift" ∷ [];
}

abbrev before_buying : PlayerProfile
before_buying = record (new_default_profile 10 "ann" "nomad") { legend_points = pos 7 }

swift_is_bought : purchase_upgrade upgrades "swift" before_buying ≡ accept bought
unfolding purchase_upgrade add_to_sorted_set new_default_profile ◌+ℤ◌ ◌-ℤ◌ sort_strings
    insert_sorted
swift_is_bought = refl

refund_upgrade-purchase_upgrade_example :
    (r : PlayerProfile) × (refund_upgrade upgrades "swift" bought ≡ accept r)
    × (r.legend_points ≡ before_buying.legend_points)
    × (amount "swift" r.owned_upgrade_ranks ≡ amount "swift" before_buying.owned_upgrade_ranks)
refund_upgrade-purchase_upgrade_example =
    refund_upgrade-purchase_upgrade upgrades "swift" before_buying bought swift_is_bought

abbrev nodes : Dict UnitAdvancementNode
nodes =
    ("archer-1", record { id = "archer-1"; cost = pos 2 })
    ∷ ("archer-2", record { id = "archer-2"; cost = pos 3 })
    ∷ []

abbrev veteran : PlayerProfile
veteran = record before_buying {
  acquired_advancements =
      record { id = "archer-1"; cost_paid = pos 4 }
      ∷ record { id = "removed"; cost_paid = pos 6 }
      ∷ [];
}

refund_stale-worth_example : worth (refund_stale_advancement_costs nodes veteran).1 ≡ worth veteran
refund_stale-worth_example = refund_stale-worth nodes veteran

abbrev track : List (List UnitAdvancementNode)
track =
    (record { id = "archer-1"; cost = pos 2 } ∷ record { id = "archer-2"; cost = pos 3 } ∷ []) ∷ []

abbrev promoted : PlayerProfile
promoted = record veteran {
  legend_points = pos 4;
  acquired_advancements =
      record { id = "archer-1"; cost_paid = pos 4 }
      ∷ record { id = "archer-2"; cost_paid = pos 3 }
      ∷ record { id = "removed"; cost_paid = pos 6 }
      ∷ [];
}

archer_is_promoted : purchase_advancement nodes track false "archer-2" veteran ≡ accept promoted
unfolding purchase_advancement prerequisite_id previous_in sort_by_id insert_by_id ◌-ℤ◌
    new_default_profile
archer_is_promoted = refl

abbrev starter : PlayerProfile
starter = record before_buying {
  acquired_advancements = record { id = "archer-1"; cost_paid = pos 2 } ∷ [];
}

abbrev second_step : PlayerProfile
second_step = record starter {
  legend_points = pos 4;
  acquired_advancements =
      record { id = "archer-1"; cost_paid = pos 2 }
      ∷ record { id = "archer-2"; cost_paid = pos 3 }
      ∷ [];
}

second_is_bought : purchase_advancement nodes track false "archer-2" starter ≡ accept second_step
unfolding purchase_advancement prerequisite_id previous_in sort_by_id insert_by_id ◌-ℤ◌
    new_default_profile
second_is_bought = refl

starter-IsClosed : IsClosed track starter.acquired_advancements
unfolding prerequisite_id previous_in
starter-IsClosed = (refl, tt)

purchase_advancement-IsClosed_example :
    IsClosed track second_step.acquired_advancements × IsOnce second_step.acquired_advancements
purchase_advancement-IsClosed_example =
    purchase_advancement-IsClosed nodes track false "archer-2" starter second_step
      (refl, (refl, tt)) starter-IsClosed (refl, tt) second_is_bought
