-- ===== src/Waves/Offers.antt =====
-- What the offers of a wave can be.
use web_rts_nomads.Base.{
  ℕ, zero, suc, ◌+◌, ◌-◌, ◌≤◌, ◌≡◌, refl, String, Bool, true, false, List, [], ◌∷◌, ◌++◌,
  if◌then◌else◌, length, arith, Bool-cases, inl, inr, contains, ap, not, ◌&&◌, str_eq, sym, subst,
  All, All-append, length-append, IsDistinct, IsDistinct-snoc,
}
use web_rts_nomads.Base.Int.{ℤ, pos, leb_ℤ}
use web_rts_nomads.Base.Float.{Float64}
use web_rts_nomads.Waves.{
  UpgradeDef, PlayerUpgradeState, is_eligible, ids_of, pool_from, total_weight, sample_from,
  weighted_sample_upgrade, available_in, fill, rare_in, has_wave, first_pick,
  generate_upgrade_offers,
}

-- Offers that are below their caps and of different upgrades.
abbrev pub AreOffers : PlayerUpgradeState → List UpgradeDef → Type 0
AreOffers u ds = All (λ d. is_eligible u d ≡ true) ds × IsDistinct (ids_of ds)

ids_of-snoc :
    (ds : List UpgradeDef) (d : UpgradeDef) → ids_of (ds ++ d ∷ []) ≡ ids_of ds ++ d.id ∷ []
ids_of-snoc [] d = refl
ids_of-snoc (x ∷ ds) d = ap (λ t. x.id ∷ t) (ids_of-snoc ds d)

module _ (F : Float64) {Rng : Type 0} (float64 : Rng → F.Float × Rng) (defs : List UpgradeDef)
    (base_weight rarity_scale : String → F.Float) (rarity_order : String → ℤ)
    (milestone_waves : List ℤ) (milestone_min_rarity : String) where
  abbrev Weighted : Type 0
  Weighted = UpgradeDef × F.Float

  abbrev WeightedBy : (UpgradeDef → Type 0) → Weighted → Type 0
  WeightedBy P e = P e.0

  pool_from-eligible :
      (u : PlayerUpgradeState) (wave : ℤ) (ds : List UpgradeDef)
      → All (WeightedBy (λ d. is_eligible u d ≡ true)) (
          pool_from F float64 defs base_weight rarity_scale rarity_order milestone_waves
            milestone_min_rarity u wave ds)
  unfolding pool_from
  pool_from-eligible u wave [] = tt
  pool_from-eligible u wave (d ∷ ds) = ground (arith, pool_from-eligible u wave ds)

  sample_from-one :
      (P : UpgradeDef → Type 0) (first : Weighted) (rest : List Weighted) (r : F.Float)
      → WeightedBy P first
      → All (WeightedBy P) rest
      → P (
          sample_from F float64 defs base_weight rarity_scale rarity_order milestone_waves
            milestone_min_rarity first rest r)
  unfolding sample_from
  sample_from-one P (d, w) [] r p ps = p
  sample_from-one P (d, w) (next ∷ pool) r p ps =
      elim (Bool-cases (F.at_most (F.minus r w) (F.of_int (pos 0)))) [
        | inl here ↦ rw (sample_from, here) p
        | inr later ↦ rw (sample_from, later) (sample_from-one P next pool (F.minus r w) ps.0 ps.1)
      ]

  available_in-fresh :
      (P : UpgradeDef → Type 0) (selected : List UpgradeDef) (pool : List Weighted)
      → All (WeightedBy P) pool
      → All (WeightedBy (λ d. P d × (contains (ids_of selected) d.id ≡ false))) (
          available_in F float64 defs base_weight rarity_scale rarity_order milestone_waves
            milestone_min_rarity selected pool)
  unfolding available_in
  available_in-fresh P selected [] ps = tt
  available_in-fresh P selected ((d, w) ∷ pool) ps =
      elim (Bool-cases (contains (ids_of selected) d.id)) [
        | inl used ↦ rw (available_in, used) (available_in-fresh P selected pool ps.1)
        | inr new ↦ rw (available_in, new) ((ps.0, new), available_in-fresh P selected pool ps.1)
      ]

  rare_in-All :
      (P : UpgradeDef → Type 0) (rank : ℤ) (pool : List Weighted)
      → All (WeightedBy P) pool
      → All (WeightedBy P) (
          rare_in F float64 defs base_weight rarity_scale rarity_order milestone_waves
            milestone_min_rarity rank pool)
  unfolding rare_in
  rare_in-All P rank [] ps = tt
  rare_in-All P rank ((d, w) ∷ pool) ps = elim (Bool-cases (leb_ℤ rank (rarity_order d.rarity))) [
    | inl rare ↦ rw (rare_in, rare) (ps.0, rare_in-All P rank pool ps.1)
    | inr common ↦ rw (rare_in, common) (rare_in-All P rank pool ps.1)
  ]

  AreOffers-snoc :
      (u : PlayerUpgradeState) (ds : List UpgradeDef) (d : UpgradeDef)
      → AreOffers u ds
      → (is_eligible u d ≡ true) × (contains (ids_of ds) d.id ≡ false)
      → AreOffers u (ds ++ d ∷ [])
  AreOffers-snoc u ds d (eligible, distinct) (e, new) = (
    All-append (λ d. is_eligible u d ≡ true) ds (d ∷ []) eligible (e, tt),
    subst IsDistinct (sym (ids_of-snoc ds d)) (IsDistinct-snoc (ids_of ds) d.id distinct new),
  )

  fill-AreOffers :
      (u : PlayerUpgradeState) (places : ℕ) (pool : List Weighted) (rng : Rng)
      (selected : List UpgradeDef)
      → All (WeightedBy (λ d. is_eligible u d ≡ true)) pool
      → AreOffers u selected
      → AreOffers u
          (fill F float64 defs base_weight rarity_scale rarity_order milestone_waves
            milestone_min_rarity places pool rng selected).0
        × (length
              (fill F float64 defs base_weight rarity_scale rarity_order milestone_waves
                milestone_min_rarity places pool rng selected).0
            ≤ length selected + places)
  unfolding fill weighted_sample_upgrade
  fill-AreOffers u zero pool rng selected ps o = (o, omega arith)
  fill-AreOffers u (suc places) pool rng selected ps o =
      go
        (available_in F float64 defs base_weight rarity_scale rarity_order milestone_waves
          milestone_min_rarity selected pool)
        (available_in-fresh (λ d. is_eligible u d ≡ true) selected pool ps)
        (λ next more. fill-AreOffers u places pool next more ps)
    where
      go :
          (rest : List Weighted)
          → All
              (WeightedBy
                (λ d. (is_eligible u d ≡ true) × (contains (ids_of selected) d.id ≡ false)))
              rest
          → ((next : Rng) (more : List UpgradeDef)
              → AreOffers u more
              → AreOffers u
                  (fill F float64 defs base_weight rarity_scale rarity_order milestone_waves
                    milestone_min_rarity places pool next more).0
                × (length
                      (fill F float64 defs base_weight rarity_scale rarity_order milestone_waves
                        milestone_min_rarity places pool next more).0
                    ≤ length more + places))
          → let filled : List UpgradeDef × Rng = elim rest [
            | [] ↦ (selected, rng)
            | first ∷ more ↦
                let (pick, next) =
                  weighted_sample_upgrade F float64 defs base_weight rarity_scale rarity_order
                    milestone_waves milestone_min_rarity rng first more in
                fill F float64 defs base_weight rarity_scale rarity_order milestone_waves
                  milestone_min_rarity places pool next
                  (selected ++ pick ∷ [])
          ] in
            AreOffers u filled.0 × (length filled.0 ≤ length selected + suc places)
      go [] fresh again = (o, omega arith)
      go (first ∷ more) fresh again =
          let (pick, next) =
            weighted_sample_upgrade F float64 defs base_weight rarity_scale rarity_order
              milestone_waves milestone_min_rarity rng first more in
          let r = F.times (float64 rng).0 (
            total_weight F float64 defs base_weight rarity_scale rarity_order milestone_waves
              milestone_min_rarity (first ∷ more) (F.of_int (pos 0))) in
          let good =
            sample_from-one
              (λ d. (is_eligible u d ≡ true) × (contains (ids_of selected) d.id ≡ false)) first more
              r fresh.0 fresh.1 in
          let (offers, short) =
            again next (selected ++ pick ∷ []) (AreOffers-snoc u selected pick o good) in
          (offers, omega (arith, short, length-append selected (pick ∷ [])))

  first_pick-AreOffers :
      (u : PlayerUpgradeState) (wave : ℤ) (pool : List Weighted) (rng : Rng)
      → All (WeightedBy (λ d. is_eligible u d ≡ true)) pool
      → AreOffers u
          (first_pick F float64 defs base_weight rarity_scale rarity_order milestone_waves
            milestone_min_rarity wave pool rng).0
        × (length
              (first_pick F float64 defs base_weight rarity_scale rarity_order milestone_waves
                milestone_min_rarity wave pool rng).0
            ≤ 1)
  unfolding first_pick weighted_sample_upgrade
  first_pick-AreOffers u wave pool rng ps =
      go
        (has_wave F float64 defs base_weight rarity_scale rarity_order milestone_waves
            milestone_min_rarity wave milestone_waves
          && (not (str_eq milestone_min_rarity "")
              && leb_ℤ (pos 0) (rarity_order milestone_min_rarity)))
        (rare_in F float64 defs base_weight rarity_scale rarity_order milestone_waves
          milestone_min_rarity (rarity_order milestone_min_rarity) pool)
        (rare_in-All (λ d. is_eligible u d ≡ true) (rarity_order milestone_min_rarity) pool ps)
    where
      go :
          (milestone : Bool) (rest : List Weighted)
          → All (WeightedBy (λ d. is_eligible u d ≡ true)) rest
          → let picked : List UpgradeDef × Rng =
              if milestone
              then elim rest [
                | [] ↦ ([], rng)
                | first ∷ more ↦
                    let (pick, next) =
                      weighted_sample_upgrade F float64 defs base_weight rarity_scale rarity_order
                        milestone_waves milestone_min_rarity rng first more in
                    (pick ∷ [], next)
              ]
              else ([], rng) in
            AreOffers u picked.0 × (length picked.0 ≤ 1)
      go false rest ps' = ((tt, tt), omega arith)
      go true [] ps' = ((tt, tt), omega arith)
      go true (first ∷ more) ps' =
          let r = F.times (float64 rng).0 (
            total_weight F float64 defs base_weight rarity_scale rarity_order milestone_waves
              milestone_min_rarity (first ∷ more) (F.of_int (pos 0))) in
          (
            (
              (sample_from-one (λ d. is_eligible u d ≡ true) first more r ps'.0 ps'.1, tt),
              (refl, tt),
            ),
            omega arith,
          )

  -- Whatever the wave, the weights and the generator: at most three upgrades are offered, of
  -- different ids, each of them below its cap for the player.
  pub generate_upgrade_offers-AreOffers :
      (u : PlayerUpgradeState) (wave : ℤ) (rng : Rng)
      → AreOffers u
          (generate_upgrade_offers F float64 defs base_weight rarity_scale rarity_order
            milestone_waves milestone_min_rarity u wave rng).0
        × (length
              (generate_upgrade_offers F float64 defs base_weight rarity_scale rarity_order
                milestone_waves milestone_min_rarity u wave rng).0
            ≤ 3)
  unfolding generate_upgrade_offers
  generate_upgrade_offers-AreOffers u wave rng =
      let pool =
        pool_from F float64 defs base_weight rarity_scale rarity_order milestone_waves
          milestone_min_rarity u wave defs in
      let picked =
        first_pick F float64 defs base_weight rarity_scale rarity_order milestone_waves
          milestone_min_rarity wave pool rng in
      let (offers, one) = first_pick-AreOffers u wave pool rng (pool_from-eligible u wave defs) in
      let (all, short) =
        fill-AreOffers u (3 - length picked.0) pool picked.1 picked.0
          (pool_from-eligible u wave defs) offers in
      (all, omega (arith, short, one))
