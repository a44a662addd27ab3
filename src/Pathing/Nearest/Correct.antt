-- ===== src/Pathing/Nearest/Correct.antt =====
-- The search returns a nearest free cell of the map, where there is one.
use web_rts_nomads.Base.{
  List-cases, ℕ, zero, suc, ◌+◌, ◌*◌, ◌≤◌, ◌<◌, ◌≡◌, refl, inl, inr, Bool, true, false, List, [],
  ◌∷◌, arith, Bool-cases, subst, sym, ap, length, length-append, leb, leb→le,
}
use web_rts_nomads.Base.Int.{pos, eq_of_parts, -ℤ_parts}
use web_rts_nomads.Pathing.{GridPoint, CellSet, has, clamp_grid_point}
use web_rts_nomads.Pathing.Nearest.{
  Search, found, carry_on, Nearest, at, nowhere, out_of_fuel, directions, next_to, look_around,
  search, start_at, nearest_from, is_available, find_nearest_walkable_available,
}
use web_rts_nomads.Pathing.Nearest.Shape.{
  InGrid, distance, distance-next_to, has-cons, has-head, eq_of_point,
}
use web_rts_nomads.Pathing.Nearest.Cells.{cells, unseen, unseen-cons, unseen-le, has-cells}
use web_rts_nomads.Pathing.Nearest.Scan.{
  Outcome-cases, Pushes, around_keeps, around_covers, Hit, around_finds,
}
use web_rts_nomads.Pathing.Nearest.Layers.{
  Layer, Layer-push, Layer-pop, Layer-close, Layer-exhausted, NothingOpen, Only,
}

-- What the function promises: a free cell of the map that no other is nearer than, or that there is
-- none.
abbrev pub IsNearest : ℕ → ℕ → (GridPoint → Bool) → GridPoint → Nearest → Type 0
IsNearest cols rows free start (at p) =
    InGrid cols rows p
    × (free p ≡ true)
    × ((q : GridPoint) → InGrid cols rows q → free q ≡ true → distance start p ≤ distance start q)
IsNearest cols rows free start nowhere = (q : GridPoint) → InGrid cols rows q → free q ≡ false
IsNearest cols rows free start out_of_fuel = ⊥

module _ (cols rows : ℕ) (accepts : GridPoint → Bool) (start : GridPoint)
    (hs : InGrid cols rows start) where
  abbrev Good : Nearest → Type 0
  Good = IsNearest cols rows accepts start

  abbrev work : Search → ℕ
  work s = unseen s.visited (cells cols rows) + length s.queue

  -- What holds while the neighbours of the current cell are looked at.
  record InRound (k fuel : ℕ) (current : GridPoint) (s : Search) : Type 0 where
    layer : Layer cols rows accepts start k (Only cols rows accepts start current) s
    enough : work s ≤ fuel

  InRound-push :
      (k fuel : ℕ) (current : GridPoint)
      → distance start current ≡ k
      → Pushes cols rows accepts current (InRound k fuel current) directions
  InRound-push k fuel current e d s is_d h new rejects =
      let n = next_to current d in
      record {
        layer =
            Layer-push cols rows accepts start k (Only cols rows accepts start current) s n
              (omega (arith, distance-next_to start current d is_d, e)) h.layer new rejects;
        enough = omega (
          arith,
          unseen-cons n s.visited (cells cols rows) new.unvisited
              (has-cells cols rows n new.inside),
          length-append s.queue (n ∷ []),
          h.enough,
        );
      }

  Good-of_Hit :
      (k fuel : ℕ) (current p : GridPoint)
      → distance start current ≡ k
      → Hit cols rows accepts current (InRound k fuel current) directions p
      → Good (at p)
  Good-of_Hit k fuel current p e hit = (
    hit.is_new.inside,
    hit.accepted,
    λ q i free. elim (Bool-cases (leb (distance start p) (distance start q))) [
      | inl le ↦ leb→le _ _ le
      | inr nearer ↦
          let step = distance-next_to start current hit.direction hit.is_direction in
          let same = ap (distance start) hit.is_next in
          let seen = hit.kept.layer.near q i (ground (arith, step, same, e)) in
          let barren = hit.kept.layer.barren q seen in cc
    ],
  )

  Good-nowhere :
      (k : ℕ) (s : Search)
      → Layer cols rows accepts start k (NothingOpen cols rows accepts start) s
      → s.queue ≡ []
      → Good nowhere
  Good-nowhere k s h e q i =
      let (j, le, layer) = Layer-exhausted cols rows accepts start (distance start q) k s hs e h in
      (layer.barren q (layer.near q i le)).1

  search-empty : (fuel : ℕ) (s : Search) → s.queue ≡ [] → search cols rows accepts fuel s ≡ nowhere
  unfolding search
  search-empty zero s e = rw (search, e) refl
  search-empty (suc fuel) s e = rw (search, e) refl

  search-found :
      (fuel : ℕ) (s : Search) (current p : GridPoint) (rest : List GridPoint)
      → s.queue ≡ current ∷ rest
      → look_around cols rows accepts directions current (record s { queue = rest }) ≡ found p
      → search cols rows accepts (suc fuel) s ≡ at p
  unfolding search
  search-found fuel s current p rest e hit = rw (search, e) (rw hit refl)

  search-on :
      (fuel : ℕ) (s t : Search) (current : GridPoint) (rest : List GridPoint)
      → s.queue ≡ current ∷ rest
      → look_around cols rows accepts directions current (record s { queue = rest }) ≡ carry_on t
      → search cols rows accepts (suc fuel) s ≡ search cols rows accepts fuel t
  unfolding search
  search-on fuel s t current rest e on = rw (search, e) (rw on refl)

  pub search-IsNearest :
      (fuel k : ℕ) (s : Search)
      → Layer cols rows accepts start k (NothingOpen cols rows accepts start) s
      → work s ≤ fuel
      → Good (search cols rows accepts fuel s)
  search-IsNearest zero k s h le = elim (List-cases s.queue) [
    | inl empty ↦ subst Good (sym (search-empty zero s empty)) (Good-nowhere k s h empty)
    | inr (current, rest, e) ↦ absurd (omega (arith, ap length e, le))
  ]
  search-IsNearest (suc fuel) k s h le = elim (List-cases s.queue) [
    | inl empty ↦ subst Good (sym (search-empty (suc fuel) s empty)) (Good-nowhere k s h empty)
    | inr (current, rest, e) ↦
        let popped = record s { queue = rest } in
        let (j, at_j, layer) = Layer-pop cols rows accepts start k s current rest hs e h in
        let round : InRound j fuel current popped = record {
          layer = layer;
          enough = omega (arith, ap length e, le);
        } in
        let keeps = InRound-push j fuel current at_j in
        elim (Outcome-cases (look_around cols rows accepts directions current popped)) [
          | inl (p, hit) ↦ subst Good (sym (search-found fuel s current p rest e hit)) (
              Good-of_Hit j fuel current p at_j (
                around_finds cols rows accepts current (InRound j fuel current) directions popped p
                  keeps round hit))
          | inr (t, on) ↦
              let after =
                around_keeps cols rows accepts current (InRound j fuel current) directions popped t
                  keeps round on in
              let around = λ (d : GridPoint).
                around_covers cols rows accepts current directions popped t d on in
              subst Good (sym (search-on fuel s t current rest e on)) (
                search-IsNearest fuel j t
                  (Layer-close cols rows accepts start j t current around after.layer) after.enough)
        ]
  ]

  has-single : (p : GridPoint) → has p (start ∷ []) ≡ true → p ≡ start
  unfolding has
  has-single p v = ground (arith, has-cons p start [] v)

  distance_zero : (p : GridPoint) → distance start p ≤ 0 → start ≡ p
  distance_zero p c =
      eq_of_point start p (eq_of_parts _ _ (omega (arith, c))) (eq_of_parts _ _ (omega (arith, c)))

  Layer-start :
      accepts start ≡ false
      → Layer cols rows accepts start 0 (NothingOpen cols rows accepts start) (start_at start)
  Layer-start rejects = record {
    source = has-head start [];
    barren = λ p v.
        subst (λ q. InGrid cols rows q × (accepts q ≡ false)) (sym (has-single p v)) (hs, rejects);
    near = λ p i c. subst (λ q. has q (start ∷ []) ≡ true) (distance_zero p c) (has-head start []);
    frontier = inl (omega arith, tt);
    closed = λ p v. inl v;
  }

  pub nearest_from-IsNearest : Good (nearest_from cols rows accepts start)
  unfolding nearest_from
  nearest_from-IsNearest = elim (Bool-cases (accepts start)) [
    | inl free ↦ rw (nearest_from, free) (hs, free, λ q i f. omega arith)
    | inr rejects ↦
        rw (nearest_from, rejects)
          (search-IsNearest (suc (cols * rows)) 0 (start_at start) (Layer-start rejects)
            (omega (arith, unseen-le (start ∷ []) cols rows)))
  ]

-- The clamped point is on a map that is not empty.
pub clamp-InGrid :
    (cols rows : ℕ) (p : GridPoint)
    → 0 < cols
    → 0 < rows
    → InGrid cols rows (clamp_grid_point cols rows p)
unfolding clamp_grid_point
clamp-InGrid cols rows p hc hr =
    ground (arith, -ℤ_parts (pos cols) (pos 1), -ℤ_parts (pos rows) (pos 1))

-- On a map with cells the search always ends within its rounds, and returns a walkable cell that is
-- not reserved and that no other such cell is nearer than, in steps from the clamped start; or it
-- reports that there is none, and then there is none.
pub find_nearest_walkable_available-IsNearest :
    (cols rows : ℕ) (start : GridPoint) (blocked reserved : CellSet)
    → 0 < cols
    → 0 < rows
    → IsNearest cols rows
        (is_available cols rows blocked reserved)
        (clamp_grid_point cols rows start)
        (find_nearest_walkable_available cols rows start blocked reserved)
unfolding find_nearest_walkable_available
find_nearest_walkable_available-IsNearest cols rows start blocked reserved hc hr =
    nearest_from-IsNearest cols rows (is_available cols rows blocked reserved)
      (clamp_grid_point cols rows start) (clamp-InGrid cols rows start hc hr)
