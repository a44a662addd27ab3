-- ===== src/Profile/Store.antt =====
-- The file store of profiles (server/internal/profile/store.go) and the manager's locked updates
-- (manager.go). `encode` and `parse` stand for encoding/json on this record. One player's files are a
-- state; writing them is a sequence of disk actions, of which a crash performs only the first few.
-- The test of the player's id and the directory's creation are not modelled.
use web_rts_nomads.Base.{
  ℕ, zero, suc, ◌≡◌, ◌⊎◌, inl, inr, refl, String, Option, none, some, List, [], ◌∷◌, if◌then◌else◌,
  arith, length, ltb, false, Bool-cases, subst, sym, ap, ◌∙◌,
}
use web_rts_nomads.Profile.{
  RawProfile, PlayerProfile, migrate_profile, as_saved, new_default_profile, default_commander_id,
  current_version,
}

pub record Files : Type 0 where
  pub primary : Option String
  pub backup : Option String
  pub tmp : Option String

pub data Action : Type 0 where
  write_backup : String → Action
  write_tmp : String → Action
  rename_tmp : Action

abbrev pub perform : Action → Files → Files
perform (write_backup s) f = record f { backup = some s }
perform (write_tmp s) f = record f { tmp = some s }
perform rename_tmp f = record f { primary = f.tmp; tmp = none }

-- A crash inside an action: a write leaves some part of its text, the rename is atomic.
abbrev pub tear : String → Action → Files → Files
tear torn (write_backup s) f = record f { backup = some torn }
tear torn (write_tmp s) f = record f { tmp = some torn }
tear torn rename_tmp f = f

-- The disk after `n` whole actions and a crash inside the next one.
pub interrupted : ℕ → String → List Action → Files → Files
interrupted n torn [] f = f
interrupted zero torn (a ∷ rest) f = tear torn a f
interrupted (suc n) torn (a ∷ rest) f = interrupted n torn rest (perform a f)

-- The backup is a copy of the file that is there; then the new one is written aside and renamed.
unfoldable pub save_actions : String → Files → List Action
save_actions text f =
    let fresh = write_tmp text ∷ rename_tmp ∷ [] in
    elim f.primary [ none ↦ fresh | some old ↦ write_backup old ∷ fresh ]

pub data Loaded : Type 0 where
  missing : Loaded
  loaded : PlayerProfile → Loaded
  corrupt : Loaded

-- What a locked update returns: `save_failed` if the disk fails on the way.
pub data UpdateError (E : Type 0) : Type 0 where
  refused : E → UpdateError E
  load_failed : UpdateError E
  save_failed : UpdateError E

pub data Outcome (E : Type 0) : Type 0 where
  updated : PlayerProfile → Outcome E
  failed : UpdateError E → Outcome E

-- What the callback of a locked update gives back.
pub data Reply (E : Type 0) : Type 0 where
  accept : PlayerProfile → Reply E
  reject : E → Reply E

module _ (encode : RawProfile → String) (parse : String → Option RawProfile) where
  abbrev parsed : Option String → Loaded
  parsed none = corrupt
  parsed (some text) = elim (parse text) [ none ↦ corrupt | some p ↦ loaded (migrate_profile p) ]

  unfoldable pub load : Files → Loaded
  load f = elim f.primary [
    | none ↦ missing
    | some text ↦ elim (parse text) [ none ↦ parsed f.backup | some p ↦ loaded (migrate_profile p) ]
  ]

  -- The save at the end of `WithLocked`, on a disk that fails inside the action after the first `n`.
  unfoldable pub commit : {E : Type 0} → ℕ → String → ℕ → Reply E → Files → Outcome E × Files
  commit n torn now (reject e) f = (failed (refused e), f)
  commit n torn now (accept q) f =
      let stamped = record q { updated_at_unix = now } in
      let actions = save_actions (encode (as_saved stamped)) f in
      (
        if ltb n (length actions) then failed save_failed else updated stamped,
        interrupted n torn actions f,
      )

  unfoldable pub update_loaded :
      {E : Type 0}
      → ℕ
      → String
      → ℕ
      → String
      → (PlayerProfile → Reply E)
      → Loaded
      → Files
      → Outcome E × Files
  update_loaded n torn now player_id fn corrupt f = (failed load_failed, f)
  update_loaded n torn now player_id fn missing f =
      commit n torn now (fn (new_default_profile now player_id default_commander_id)) f
  update_loaded n torn now player_id fn (loaded p) f = commit n torn now (fn p) f

  unfoldable pub with_locked :
      {E : Type 0} → ℕ → String → ℕ → String → (PlayerProfile → Reply E) → Files → Outcome E × Files
  with_locked n torn now player_id fn f = update_loaded n torn now player_id fn (load f) f

  -- `GetOrCreate`: a profile that is there is given as it is, and not written.
  unfoldable pub get_or_create :
      {E : Type 0} → ℕ → String → ℕ → String → String → Files → Outcome E × Files
  get_or_create n torn now player_id commander_id f = elim (load f) [
    | corrupt ↦ (failed load_failed, f)
    | loaded p ↦ (updated p, f)
    | missing ↦ commit n torn now (accept (new_default_profile now player_id commander_id)) f
  ]

  -- The primary file, where there is one, is readable.
  abbrev pub IsReadable : Files → Type 0
  IsReadable f =
      (f.primary ≡ none)
      ⊎ ((text : String) × (p : RawProfile) × (f.primary ≡ some text) × (parse text ≡ some p))

  fresh-primary :
      (n : ℕ) (torn text : String) (f : Files)
      → ((interrupted n torn (write_tmp text ∷ rename_tmp ∷ []) f).primary ≡ f.primary)
        ⊎ ((interrupted n torn (write_tmp text ∷ rename_tmp ∷ []) f).primary ≡ some text)
  unfolding interrupted
  fresh-primary zero torn text f = inl refl
  fresh-primary (suc zero) torn text f = inl refl
  fresh-primary (suc (suc n)) torn text f = inr refl

  save-primary :
      (n : ℕ) (torn text : String) (f : Files)
      → ((interrupted n torn (save_actions text f) f).primary ≡ f.primary)
        ⊎ ((interrupted n torn (save_actions text f) f).primary ≡ some text)
  unfolding interrupted save_actions
  save-primary n torn text f = go n f.primary
    where
      go :
          (m : ℕ) (o : Option String)
          → let actions : List Action = elim o [
            | none ↦ write_tmp text ∷ rename_tmp ∷ []
            | some old ↦ write_backup old ∷ write_tmp text ∷ rename_tmp ∷ []
          ] in
            ((interrupted m torn actions f).primary ≡ f.primary)
            ⊎ ((interrupted m torn actions f).primary ≡ some text)
      go m none = fresh-primary m torn text f
      go zero (some old) = inl refl
      go (suc m) (some old) = fresh-primary m torn text (record f { backup = some old })

  readable-load : (f g : Files) → IsReadable f → g.primary ≡ f.primary → load g ≡ load f
  unfolding load
  readable-load f g r e = elim r [
    | inl none_there ↦ rw (load, e, none_there) refl
    | inr (text, p, there, ok) ↦ ground (arith, e, there, ok)
  ]

  saved-load :
      (g : Files) (text : String) (q : RawProfile)
      → g.primary ≡ some text
      → parse text ≡ some q
      → load g ≡ loaded (migrate_profile q)
  unfolding load
  saved-load g text q e p = ground arith

  -- If the profile file is absent or readable, then wherever a save is interrupted, the next load
  -- finds what a load found before or the profile that was being saved.
  pub save-crash_safe :
      (n : ℕ) (torn text : String) (f : Files) (q : RawProfile)
      → IsReadable f
      → parse text ≡ some q
      → (load (interrupted n torn (save_actions text f) f) ≡ load f)
        ⊎ (load (interrupted n torn (save_actions text f) f) ≡ loaded (migrate_profile q))
  save-crash_safe n torn text f q r p = elim (save-primary n torn text f) [
    | inl old ↦ inl (readable-load f (interrupted n torn (save_actions text f) f) r old)
    | inr new ↦ inr (saved-load (interrupted n torn (save_actions text f) f) text q new p)
  ]

  -- A save that is not interrupted puts the new text in place.
  save-whole :
      (n : ℕ) (torn text : String) (f : Files)
      → ltb n (length (save_actions text f)) ≡ false
      → (interrupted n torn (save_actions text f) f).primary ≡ some text
  unfolding interrupted save_actions
  save-whole n torn text f = go n f.primary
    where
      fresh :
          (m : ℕ) (g : Files)
          → ltb m 2 ≡ false
          → (interrupted m torn (write_tmp text ∷ rename_tmp ∷ []) g).primary ≡ some text
      fresh zero g h = ground arith
      fresh (suc zero) g h = ground arith
      fresh (suc (suc m)) g h = refl

      go :
          (m : ℕ) (o : Option String)
          → let actions : List Action = elim o [
            | none ↦ write_tmp text ∷ rename_tmp ∷ []
            | some old ↦ write_backup old ∷ write_tmp text ∷ rename_tmp ∷ []
          ] in
            ltb m (length actions) ≡ false → (interrupted m torn actions f).primary ≡ some text
      go m none h = fresh m f h
      go zero (some old) h = ground arith
      go (suc m) (some old) h = fresh m (record f { backup = some old }) (ground arith)

  commit-durable :
      {E : Type 0} (n : ℕ) (torn : String) (now : ℕ) (y : Reply E) (f : Files) (r : PlayerProfile)
      → parse (encode (as_saved r)) ≡ some (as_saved r)
      → (commit n torn now y f).0 ≡ updated r
      → load (commit n torn now y f).1 ≡ loaded (migrate_profile (as_saved r))
  unfolding commit
  commit-durable n torn now (reject x) f r codec e = absurd (cc e)
  commit-durable n torn now (accept q) f r codec e =
      let p = record q { updated_at_unix = now } in
      let text = encode (as_saved p) in
      elim (Bool-cases (ltb n (length (save_actions text f)))) [
        | inl cut ↦ absurd (ground (arith, cut))
        | inr whole ↦
            let same : p ≡ r = ground (arith, whole) in
            saved-load (interrupted n torn (save_actions text f) f) text (as_saved r)
              (save-whole n torn text f whole)
              (subst (λ t. parse (encode (as_saved t)) ≡ some (as_saved r)) (sym same) codec)
      ]

  update-durable :
      {E : Type 0} (n : ℕ) (torn : String) (now : ℕ) (player_id : String)
      (fn : PlayerProfile → Reply E) (l : Loaded) (f : Files) (r : PlayerProfile)
      → parse (encode (as_saved r)) ≡ some (as_saved r)
      → (update_loaded n torn now player_id fn l f).0 ≡ updated r
      → load (update_loaded n torn now player_id fn l f).1 ≡ loaded (migrate_profile (as_saved r))
  unfolding update_loaded
  update-durable n torn now player_id fn corrupt f r codec e = absurd (cc e)
  update-durable n torn now player_id fn missing f r codec e =
      commit-durable n torn now (fn (new_default_profile now player_id default_commander_id)) f r
        codec e
  update-durable n torn now player_id fn (loaded p) f r codec e =
      commit-durable n torn now (fn p) f r codec e

  -- Nothing is lost when a whole profile of the current version is migrated.
  migrate_profile-as_saved :
      (r : PlayerProfile) → r.version ≡ current_version → migrate_profile (as_saved r) ≡ r
  unfolding migrate_profile
  migrate_profile-as_saved r v = ap (λ (n : ℕ). record r { version = n }) (sym v)

  -- A locked update that is reported as done, of a profile of the current version that the format
  -- can represent, is what the next load finds.
  pub with_locked-durable :
      {E : Type 0} (n : ℕ) (torn : String) (now : ℕ) (player_id : String)
      (fn : PlayerProfile → Reply E) (f : Files) (r : PlayerProfile)
      → r.version ≡ current_version
      → parse (encode (as_saved r)) ≡ some (as_saved r)
      → (with_locked n torn now player_id fn f).0 ≡ updated r
      → load (with_locked n torn now player_id fn f).1 ≡ loaded r
  unfolding with_locked
  with_locked-durable n torn now player_id fn f r version codec e =
      update-durable n torn now player_id fn (load f) f r codec e
      ∙ ap loaded (migrate_profile-as_saved r version)
