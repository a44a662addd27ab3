-- ===== src/Waves/Phase.antt =====
-- How the upgrade phase goes on: deadlines, choices, and the pause.
use web_rts_nomads.Base.{
  ℕ, ◌+◌, ◌-◌, ◌≤◌, ◌<◌, ◌≡◌, refl, String, true, false, some, [], ◌∷◌, Dict, lookup, insert,
  str_eq, arith, Bool-cases, inl, inr, contains, All, ltb, lookup-insert, str_eq_refl, subst, sym,
  ap, ◌∙◌,
}
use web_rts_nomads.Matches.{enemy_player_id}
use web_rts_nomads.World.{World}
use web_rts_nomads.Items.{ItemDef}
use web_rts_nomads.Waves.{
  UpgradeDef, PlayerUpgradeState, WaveState, ids_of, apply_upgrade, handle_wave_upgrade_choice,
  auto_pick, tick_each, wave_upgrade_all_resolved, tick_upgrade_phase, shift, shift_each,
  handle_set_pause,
}

module _ (upgrade_defs : Dict UpgradeDef) (catalog : Dict ItemDef)
    (simulate : String → UpgradeDef → ℕ → World → World) where
  tick_each-resolves :
      (now : ℕ) (us : Dict PlayerUpgradeState) (w : World)
      → All (λ e. e.1.offer_deadline_ms ≤ now) us
      → wave_upgrade_all_resolved upgrade_defs catalog simulate
          (tick_each upgrade_defs catalog simulate now us w).0
        ≡ true
  unfolding tick_each wave_upgrade_all_resolved
  tick_each-resolves now [] w due = refl
  tick_each-resolves now ((id, u) ∷ us) w due = ground (
    arith,
    due.0,
    tick_each-resolves now us w due.1,
    tick_each-resolves now us (auto_pick upgrade_defs catalog simulate id u w).1 due.1,
  )

  -- Once every player's deadline has passed, the next tick of the upgrade phase ends it.
  pub tick_upgrade_phase-ends :
      (now : ℕ) (s : WaveState)
      → All (λ e. e.1.offer_deadline_ms ≤ now) s.upgrades
      → (tick_upgrade_phase upgrade_defs catalog simulate now s).state ≡ "prep"
  unfolding tick_upgrade_phase
  tick_upgrade_phase-ends now s due = rw (tick_each-resolves now s.upgrades s.world due) refl

  choice_late :
      (player_id second : String) (target : ℕ) (s : WaveState) (u : PlayerUpgradeState)
      → lookup player_id s.upgrades ≡ some u
      → u.resolved ≡ true
      → handle_wave_upgrade_choice upgrade_defs catalog simulate player_id second target s ≡ s
  unfolding handle_wave_upgrade_choice
  choice_late player_id second target s u there done =
      rw (handle_wave_upgrade_choice, there, done) refl

  -- In the upgrade phase, a choice that is among the offers of a player who has yet to choose
  -- resolves that player's choice, and a second choice of that player changes nothing.
  pub choice_once :
      (player_id first second : String) (target target' : ℕ) (s : WaveState)
      (u : PlayerUpgradeState)
      → lookup player_id s.upgrades ≡ some u
      → u.resolved ≡ false
      → str_eq s.state "upgrade" ≡ true
      → contains (ids_of u.current_offers) first ≡ true
      → let t = handle_wave_upgrade_choice upgrade_defs catalog simulate player_id first target s in
        ((v : PlayerUpgradeState) × (lookup player_id t.upgrades ≡ some v) × (v.resolved ≡ true))
        × (handle_wave_upgrade_choice upgrade_defs catalog simulate player_id second target' t ≡ t)
  unfolding handle_wave_upgrade_choice
  choice_once player_id first second target target' s u there open_ phase offered =
      let (v, w) = apply_upgrade upgrade_defs catalog simulate player_id first target u s.world in
      let done : PlayerUpgradeState = record v { resolved = true } in
      let next : WaveState = record s { upgrades = insert player_id done s.upgrades; world = w } in
      let accepted : handle_wave_upgrade_choice upgrade_defs catalog simulate player_id first target
            s
          ≡ next =
        rw (handle_wave_upgrade_choice, there, open_, phase, offered) refl in
      let found : lookup player_id next.upgrades ≡ some done =
        rw (lookup-insert player_id player_id, str_eq_refl player_id) refl in
      subst
        (λ t.
          ((v : PlayerUpgradeState) × (lookup player_id t.upgrades ≡ some v) × (v.resolved ≡ true))
          × (handle_wave_upgrade_choice upgrade_defs catalog simulate player_id second target' t
              ≡ t))
        (sym accepted)
        ((done, found, refl), choice_late player_id second target' next done found refl)

lookup-shift_each :
    (k : String) (elapsed : ℕ) (us : Dict PlayerUpgradeState) (u : PlayerUpgradeState)
    → lookup k us ≡ some u
    → lookup k (shift_each elapsed us) ≡ some (shift elapsed u)
unfolding shift_each
lookup-shift_each k elapsed [] u e = cc
lookup-shift_each k elapsed ((id, v) ∷ us) u e = elim (Bool-cases (str_eq id k)) [
  | inl hit ↦
      let same : v ≡ u = ground (arith, hit, e) in rw hit (ap (λ t. some (shift elapsed t)) same)
  | inr miss ↦ rw miss (lookup-shift_each k elapsed us u (rw miss at e))
]

-- A player of the match who may pause it.
abbrev pub MayPause : String → WaveState → Type 0
MayPause p s =
    (str_eq p enemy_player_id ≡ false)
    × (str_eq p "" ≡ false)
    × ((u : PlayerUpgradeState) × (lookup p s.upgrades ≡ some u))

-- After a player of the match pauses a running match and a player resumes it later, a player who
-- had yet to choose an upgrade has as much time left as before, and the match runs.
pub resume_keeps_time :
    (start stop : ℕ) (p q k : String) (s : WaveState) (u : PlayerUpgradeState)
    → s.paused ≡ false
    → 0 < start
    → start < stop
    → MayPause p s
    → MayPause q s
    → lookup k s.upgrades ≡ some u
    → 0 < u.offer_deadline_ms
    → u.resolved ≡ false
    → (u' : PlayerUpgradeState) × (lookup k
          (handle_set_pause stop q false (handle_set_pause start p true s)).upgrades
        ≡ some u')
      × (u'.offer_deadline_ms + start ≡ u.offer_deadline_ms + stop)
      × ((handle_set_pause stop q false (handle_set_pause start p true s)).paused ≡ false)
unfolding handle_set_pause
resume_keeps_time start stop p q k s u running positive later may_p may_q there left undecided =
    let (_, _, (up, held_p)) = may_p in
    let (_, _, (uq, held_q)) = may_q in
    let s1 : WaveState = record s { paused = true; paused_by = p; paused_at_ms = start } in
    let s2 : WaveState = record s1 {
      upgrades = shift_each (stop - start) s.upgrades;
      paused = false;
      paused_by = "";
      paused_at_ms = 0;
    } in
    let halted : handle_set_pause start p true s ≡ s1 =
      rw (handle_set_pause, may_p.0, may_p.1, held_p, running) refl in
    let began : ltb 0 start ≡ true = ground (arith, positive) in
    let went : ltb start stop ≡ true = ground (arith, later) in
    let resumed : handle_set_pause stop q false s1 ≡ s2 =
      rw (handle_set_pause, may_q.0, may_q.1, held_q, began, went) refl in
    let both : handle_set_pause stop q false (handle_set_pause start p true s) ≡ s2 =
      ap (handle_set_pause stop q false) halted ∙ resumed in
    let waits : ltb 0 u.offer_deadline_ms ≡ true = ground (arith, left) in
    let moved : (shift (stop - start) u).offer_deadline_ms + start ≡ u.offer_deadline_ms + stop =
      rw (waits, undecided) (omega (arith, later)) in
    subst
      (λ t.
        (u' : PlayerUpgradeState) × (lookup k t.upgrades ≡ some u')
        × (u'.offer_deadline_ms + start ≡ u.offer_deadline_ms + stop)
        × (t.paused ≡ false))
      (sym both)
      (shift (stop - start) u, lookup-shift_each k (stop - start) s.upgrades u there, moved, refl)
