-- ===== src/Pathing/Simplify/Thinning.antt =====
-- What the simplification of a path leaves.
use web_rts_nomads.Base.{
  ℕ, zero, suc, ◌+◌, ◌<◌, ◌≤◌, ◌≡◌, refl, ◌⊎◌, Bool, true, false, not, List, [], ◌∷◌, ◌++◌, length,
  arith, inl, inr, Bool-cases, if-true, if-false, subst, sym, ap, ltb, length-append,
}
use web_rts_nomads.Base.Int.{ℤ, pos, leb_ℤ, ◌≤ℤ◌, pos_part}
use web_rts_nomads.Base.Float.{Float64}
use web_rts_nomads.Pathing.{CellSet, GridPoint, has}
use web_rts_nomads.Pathing.Simplify.{
  Waypoint, unit_path_sub_cell_size, world_to_unit_path_sub_grid, samples_clear,
  unit_path_segment_clear, farthest, simplify_from, simplify_unit_path,
}

module _ (F : Float64) (hypot : F.Float → F.Float → F.Float) (abs : F.Float → F.Float)
    (sqrt2 : F.Float) (floor ceil : F.Float → ℤ) (blocked : CellSet) where
  open F use {Float, plus, minus, times, over, less, of_int, one_half}

  abbrev Place : Type 0
  Place = Waypoint F hypot abs sqrt2 floor ceil

  abbrev sees : Place → Place → Bool
  sees = unit_path_segment_clear F hypot abs sqrt2 floor ceil blocked

  abbrev length_of : Place → Place → Float
  length_of a b = hypot (minus b.x a.x) (minus b.y a.y)

  abbrev steps_of : Place → Place → ℤ
  steps_of a b =
      ceil (
        over (length_of a b)
          (times (unit_path_sub_cell_size F hypot abs sqrt2 floor ceil) one_half))

  abbrev sample_at : Place → Float → Float → ℤ → ℕ → GridPoint
  sample_at a dx dy steps i =
      let t = over (of_int (pos i)) (of_int steps) in
      world_to_unit_path_sub_grid F hypot abs sqrt2 floor ceil (plus a.x (times dx t))
        (plus a.y (times dy t))

  -- The cell in which the i-th of a segment's samples lies.
  abbrev sample : Place → Place → ℕ → GridPoint
  sample a b i = sample_at a (minus b.x a.x) (minus b.y a.y) (steps_of a b) i

  -- A segment that is shorter than 1, or of which no sample lies in a blocked cell.
  abbrev pub IsClear : Place → Place → Type 0
  IsClear a b =
      (less (length_of a b) (of_int (pos 1)) ≡ true)
      ⊎ ((i : ℕ) → pos i ≤ℤ steps_of a b → has (sample a b i) blocked ≡ false)

  samples_clear-all :
      (n i : ℕ) (steps : ℤ) (a : Place) (dx dy : Float)
      → samples_clear F hypot abs sqrt2 floor ceil n i steps a dx dy blocked ≡ true
      → (k : ℕ) → k < n
      → has (sample_at a dx dy steps (i + k)) blocked ≡ false
  unfolding samples_clear
  samples_clear-all zero i steps a dx dy e k le = absurd (omega (arith, le))
  samples_clear-all (suc n) i steps a dx dy e zero le =
      let here : i + 0 ≡ i = omega arith in
      subst (λ j. has (sample_at a dx dy steps j) blocked ≡ false) (sym here) (ground (arith, e))
  samples_clear-all (suc n) i steps a dx dy e (suc k) le =
      let there : suc i + k ≡ i + suc k = omega arith in
      subst (λ j. has (sample_at a dx dy steps j) blocked ≡ false) there
        (samples_clear-all n (suc i) steps a dx dy (ground (arith, e)) k (omega (arith, le)))

  sees-IsClear : (a b : Place) → sees a b ≡ true → IsClear a b
  unfolding unit_path_segment_clear
  sees-IsClear a b e = elim (Bool-cases (less (length_of a b) (of_int (pos 1)))) [
    | inl short ↦ inl short
    | inr long ↦ inr (λ i le.
        let steps = steps_of a b in
        let some_steps : leb_ℤ (pos 0) steps ≡ true = ground (arith, le) in
        let here : 0 + i ≡ i = omega arith in
        subst (λ j. has (sample a b j) blocked ≡ false) here
          (samples_clear-all (suc (pos_part steps)) 0 steps a (minus b.x a.x) (minus b.y a.y)
            (rw (sees, unit_path_segment_clear, long, some_steps) at e) i (omega (arith, le))))
  ]

  -- A path that leaves out waypoints of another: it begins and ends as that one does, and each of its
  -- hops is one of that one's or a clear segment.
  pub data IsThinned : List Place → List Place → Type 0 where
    stays : {p : Place} → IsThinned (p ∷ []) (p ∷ [])
    hops :
        {p q : Place} {rest out : List Place}
        → IsThinned (q ∷ rest) (q ∷ out)
        → IsThinned (p ∷ q ∷ rest) (p ∷ q ∷ out)
    cuts :
        {p q : Place} {rest out : List Place} (skipped : List Place)
        → IsClear p q
        → IsThinned (q ∷ rest) (q ∷ out)
        → IsThinned (p ∷ skipped ++ q ∷ rest) (p ∷ q ∷ out)

  abbrev farthest_of : Place → Place → List Place → Place × List Place
  farthest_of = farthest F hypot abs sqrt2 floor ceil blocked

  IsThinned-refl : (p : Place) (rest : List Place) → IsThinned (p ∷ rest) (p ∷ rest)
  IsThinned-refl p [] = stays
  IsThinned-refl p (q ∷ rest) = hops (IsThinned-refl q rest)

  -- The farthest waypoint is the next one, or is in sight behind some that are skipped.
  record Reach (p q : Place) (rest : List Place) (r : Place × List Place) : Type 0 where
    skipped : List Place
    split : q ∷ rest ≡ skipped ++ r.0 ∷ r.1
    in_sight : ((skipped ≡ []) × (r.0 ≡ q)) ⊎ (sees p r.0 ≡ true)

  farthest-Reach : (p q : Place) (rest : List Place) → Reach p q rest (farthest_of p q rest)
  unfolding farthest
  farthest-Reach p q [] = record { skipped = []; split = refl; in_sight = inl (refl, refl) }
  farthest-Reach p q (r ∷ rest) =
      let on = farthest-Reach p r rest in
      elim (Bool-cases (sees p r)) [
        | inr shut ↦
            if-true (λ x. Reach p q (r ∷ rest) x) _ (q, r ∷ rest) (farthest_of p r rest)
              (ap not shut) (record { skipped = []; split = refl; in_sight = inl (refl, refl) })
        | inl clear ↦
            if-false (λ x. Reach p q (r ∷ rest) x) _ (q, r ∷ rest) (farthest_of p r rest)
              (ap not clear)
              (record {
                skipped = q ∷ on.skipped;
                split = ap (λ l. q ∷ l) on.split;
                in_sight = elim on.in_sight [
                  | inl here ↦ inr (subst (λ x. sees p x ≡ true) (sym here.1) clear)
                  | inr seen ↦ inr seen
                ];
              })
      ]

  simplified : ℕ → Place → List Place → List Place
  simplified = simplify_from F hypot abs sqrt2 floor ceil blocked

  simplify_from-IsThinned :
      (fuel : ℕ) (p : Place) (qs : List Place)
      → length qs ≤ fuel
      → IsThinned (p ∷ qs) (p ∷ simplified fuel p qs)
  unfolding simplify_from simplified
  simplify_from-IsThinned fuel p [] le = stays
  simplify_from-IsThinned zero p (q ∷ rest) le = absurd (omega arith)
  simplify_from-IsThinned (suc fuel) p (q ∷ rest) le =
      let r = farthest_of p q rest in
      let reach = farthest-Reach p q rest in
      let sizes = ap length reach.split in
      let shorter : length r.1 ≤ fuel =
        omega (arith, sizes, le, length-append reach.skipped (r.0 ∷ r.1)) in
      let later = simplify_from-IsThinned fuel r.0 r.1 shorter in
      let whole = λ (l : List Place). IsThinned (p ∷ l) (p ∷ r.0 ∷ simplified fuel r.0 r.1) in
      elim reach.in_sight [
        | inl next ↦
            let split = subst (λ (s : List Place). q ∷ rest ≡ s ++ r.0 ∷ r.1) next.0 reach.split in
            subst whole (sym split) (hops later)
        | inr seen ↦
            subst whole (sym reach.split) (cuts reach.skipped (sees-IsClear p r.0 seen) later)
      ]

  -- A path's simplification begins and ends as the path does, and each of its hops is a hop of the
  -- path or a segment that is shorter than 1 or has none of its samples in a blocked cell.
  pub simplify_unit_path-IsThinned :
      (p : Place) (rest : List Place)
      → IsThinned (p ∷ rest) (simplify_unit_path F hypot abs sqrt2 floor ceil blocked (p ∷ rest))
  unfolding simplify_unit_path simplified
  simplify_unit_path-IsThinned p rest = elim (Bool-cases (ltb (suc (length rest)) 3)) [
    | inl short ↦
        if-true (λ l. IsThinned (p ∷ rest) l) _ (p ∷ rest) (p ∷ simplified (length rest) p rest)
          short (IsThinned-refl p rest)
    | inr long ↦
        if-false (λ l. IsThinned (p ∷ rest) l) _ (p ∷ rest) (p ∷ simplified (length rest) p rest)
          long (simplify_from-IsThinned (length rest) p rest (omega arith))
  ]
