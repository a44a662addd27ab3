-- ===== src/Fow/Sight.antt =====
-- fow.go, `hasLOS`: Bresenham's walk reaches its target, so the loop with no bound in its head ends.
use web_rts_nomads.Base.{
  ℕ, suc, zero, ◌+◌, ◌-◌, ◌*◌, ◌≤◌, ◌<◌, ◌≡◌, refl, sym, subst, ◌∙◌, ◌⊎◌, inl, inr, Bool, true,
  false, Option, some, ltb, if◌then◌else◌, arith, Bool-cases, max, ltb→lt, lt→ltb, ltb-false,
}
use web_rts_nomads.Base.Int.{
  ℤ, pos, negsuc, pos_part, neg_part, eqb_ℤ, ltb_ℤ, ◌+ℤ◌, ◌-ℤ◌, +ℤ_parts, -ℤ_parts,
}
use web_rts_nomads.Fow.{los_step, los_loop, has_los, distance}

-- The walk counted by what is left: `u` columns and `v` rows.
abbrev moves_x : ℕ → ℕ → ℕ → ℕ → Bool
moves_x dx dy u v = ltb (dy + 2 * (dx * v)) (2 * dx + 2 * (dy * u))

abbrev moves_y : ℕ → ℕ → ℕ → ℕ → Bool
moves_y dx dy u v = ltb (dx + 2 * (dy * u)) (2 * dy + 2 * (dx * v))

abbrev less_x : ℕ → ℕ → ℕ → ℕ → ℕ
less_x dx dy u v = if moves_x dx dy u v then u - 1 else u

abbrev less_y : ℕ → ℕ → ℕ → ℕ → ℕ
less_y dx dy u v = if moves_y dx dy u v then v - 1 else v

-- From (u, v) left the walk arrives within `n` rounds, and never steps past the target.
abbrev Arrives : ℕ → ℕ → ℕ → ℕ → ℕ → Type 0
Arrives dx dy zero u v = (u ≡ 0) × (v ≡ 0)
Arrives dx dy (suc n) u v =
    ((u ≡ 0) × (v ≡ 0))
    ⊎ ((moves_x dx dy u v ≡ true → 1 ≤ u)
        × (moves_y dx dy u v ≡ true → 1 ≤ v)
        × Arrives dx dy n (less_x dx dy u v) (less_y dx dy u v))

pred_suc : (n : ℕ) → suc n - 1 ≡ n
pred_suc n = omega arith

-- A wide walk moves one column in every round.
Arrives-wide :
    (dx dy u v : ℕ)
    → dy < dx
    → 2 * (dx * v) + dy < 2 * dx + 2 * (dy * u)
    → 2 * (dy * u) ≤ dx + 2 * (dx * v)
    → Arrives dx dy u u v
Arrives-wide dx dy zero zero h low high = (refl, refl)
Arrives-wide dx dy zero (suc v) h low high = absurd (grind arith)
Arrives-wide dx dy (suc u) zero h low high =
    let stays : moves_y dx dy (suc u) zero ≡ false = ground arith in
    inr (
      λ _. omega arith,
      λ m. cc (sym stays ∙ m),
      rw (moves, stays, pred_suc u) (Arrives-wide dx dy u zero h (omega arith) (omega arith)),
    )
  where
    moves : moves_x dx dy (suc u) zero ≡ true
    moves = lt→ltb _ _ (omega arith)
Arrives-wide dx dy (suc u) (suc v) h low high = inr (
  λ _. omega arith,
  λ _. omega arith,
  elim (Bool-cases (moves_y dx dy (suc u) (suc v))) [
    | inl down ↦
        let less = ltb→lt _ _ down in
        rw (moves, down, pred_suc u, pred_suc v)
          (Arrives-wide dx dy u v h (omega arith) (omega arith))
    | inr level ↦
        let more = ltb-false _ _ level in
        rw (moves, level, pred_suc u) (Arrives-wide dx dy u (suc v) h (omega arith) (omega arith))
  ],
)
  where
    moves : moves_x dx dy (suc u) (suc v) ≡ true
    moves = lt→ltb _ _ (omega arith)

Arrives-square : (d u : ℕ) → 1 ≤ d → Arrives d d u u u
Arrives-square d zero h = (refl, refl)
Arrives-square d (suc u) h =
    inr (
      λ _. omega arith,
      λ _. omega arith,
      rw (lt→ltb _ _ across, pred_suc u) (Arrives-square d u h),
    )
  where
    across : d + 2 * (d * suc u) < 2 * d + 2 * (d * suc u)
    across = omega arith

-- Exchanging the axes exchanges the two tests.
Arrives-swap : (dx dy n u v : ℕ) → Arrives dy dx n v u → Arrives dx dy n u v
Arrives-swap dx dy zero u v (a, b) = (b, a)
Arrives-swap dx dy (suc n) u v (inl (a, b)) = inl (b, a)
Arrives-swap dx dy (suc n) u v (inr (f, g, rest)) =
    inr (g, f, Arrives-swap dx dy n (less_x dx dy u v) (less_y dx dy u v) rest)

max-left : (a b : ℕ) → b ≤ a → max a b ≡ a
max-left a b h = omega arith

max-right : (a b : ℕ) → a ≤ b → max a b ≡ b
max-right a b h = omega arith

square_all : (d : ℕ) → Arrives d d d d d
square_all zero = (refl, refl)
square_all (suc d) = Arrives-square (suc d) (suc d) (omega arith)

-- The longer side's number of rounds is enough.
walk-Arrives : (dx dy : ℕ) → Arrives dx dy (max dx dy) dx dy
walk-Arrives dx dy = go (order dx dy)
  where
    order : (a b : ℕ) → (b < a) ⊎ ((a ≡ b) ⊎ (a < b))
    order a b = grind arith

    go : (dy < dx) ⊎ ((dx ≡ dy) ⊎ (dx < dy)) → Arrives dx dy (max dx dy) dx dy
    go (inl h) =
        rw (max-left dx dy (omega arith)) (Arrives-wide dx dy dx dy h (grind arith) (grind arith))
    go (inr (inl h)) = rw (← h, max-left dx dx (omega arith)) (square_all dx)
    go (inr (inr h)) =
        rw (max-right dx dy (omega arith))
          (Arrives-swap dx dy dy dx dy (Arrives-wide dy dx dy dx h (grind arith) (grind arith)))

abbrev sign : Bool → ℤ
sign back = if back then negsuc 0 else pos 1

-- `u` steps in that direction lead from x to x1.
abbrev Away : Bool → ℕ → ℤ → ℤ → Type 0
Away true u x x1 = pos_part x + neg_part x1 ≡ pos_part x1 + neg_part x + u
Away false u x x1 = pos_part x1 + neg_part x ≡ pos_part x + neg_part x1 + u

step-Away :
    (back : Bool) (u : ℕ) (x x1 : ℤ)
    → 1 ≤ u
    → Away back u x x1
    → Away back (u - 1) (x +ℤ sign back) x1
step-Away true u x x1 h a = omega (arith, +ℤ_parts x (negsuc 0))
step-Away false u x x1 h a = omega (arith, +ℤ_parts x (pos 1))

arrived : (back : Bool) (x x1 : ℤ) → Away back 0 x x1 → eqb_ℤ x x1 ≡ true
arrived true x x1 a = ground arith
arrived false x x1 a = ground arith

-- The error term is a function of what is left.
abbrev ErrorIs : ℕ → ℕ → ℕ → ℕ → ℤ → Type 0
ErrorIs dx dy u v e = pos_part e + dy + dx * v ≡ neg_part e + dx + dy * u

error_x :
    (dx dy u v : ℕ) (e : ℤ) → 1 ≤ u → ErrorIs dx dy u v e → ErrorIs dx dy (u - 1) v (e -ℤ pos dy)
error_x dx dy zero v e h r = absurd (omega arith)
error_x dx dy (suc u) v e h r = rw (pred_suc u) (omega (arith, -ℤ_parts e (pos dy)))

error_y :
    (dx dy u v : ℕ) (e : ℤ) → 1 ≤ v → ErrorIs dx dy u v e → ErrorIs dx dy u (v - 1) (e +ℤ pos dx)
error_y dx dy u zero e h r = absurd (omega arith)
error_y dx dy u (suc v) e h r = rw (pred_suc v) (omega (arith, +ℤ_parts e (pos dx)))

tests_x :
    (dx dy u v : ℕ) (e : ℤ)
    → ErrorIs dx dy u v e
    → ltb_ℤ (pos 0 -ℤ pos dy) (e +ℤ e) ≡ moves_x dx dy u v
tests_x dx dy u v e r = ground (arith, -ℤ_parts (pos 0) (pos dy), +ℤ_parts e e)

tests_y :
    (dx dy u v : ℕ) (e : ℤ) → ErrorIs dx dy u v e → ltb_ℤ (e +ℤ e) (pos dx) ≡ moves_y dx dy u v
tests_y dx dy u v e r = ground (arith, +ℤ_parts e e)

abbrev On : Bool → Bool → ℕ → ℕ → ℕ → ℕ → ℤ → ℤ → ℤ × ℤ × ℤ → Type 0
On bx by dx dy u v x1 y1 s = Away bx u s.0 x1 × Away by v s.1 y1 × ErrorIs dx dy u v s.2

-- A round of the loop is a round of the count.
step-On :
    (bx by : Bool) (dx dy u v : ℕ) (x1 y1 x y e : ℤ)
    → (moves_x dx dy u v ≡ true → 1 ≤ u)
    → (moves_y dx dy u v ≡ true → 1 ≤ v)
    → On bx by dx dy u v x1 y1 (x, y, e)
    → On bx by dx dy
        (less_x dx dy u v)
        (less_y dx dy u v)
        x1
        y1
        (los_step dx dy (sign bx) (sign by) x y e)
unfolding los_step
step-On bx by dx dy u v x1 y1 x y e f g (ax, ay, r) =
    rw (tests_x dx dy u v e r, tests_y dx dy u v e r)
      (elim (Bool-cases (moves_x dx dy u v)) [
        | inl p ↦ elim (Bool-cases (moves_y dx dy u v)) [
          | inl q ↦
              rw (p, q)
                (
                  step-Away bx u x x1 (f p) ax,
                  step-Away by v y y1 (g q) ay,
                  error_y dx dy (u - 1) v _ (g q) (error_x dx dy u v e (f p) r),
                )
          | inr q ↦ rw (p, q) (step-Away bx u x x1 (f p) ax, ay, error_x dx dy u v e (f p) r)
        ]
        | inr p ↦ elim (Bool-cases (moves_y dx dy u v)) [
          | inl q ↦ rw (p, q) (ax, step-Away by v y y1 (g q) ay, error_y dx dy u v e (g q) r)
          | inr q ↦ rw (p, q) (ax, ay, r)
        ]
      ])

either :
    (a b : Bool) (o : Option Bool) (s : Bool)
    → o ≡ some s
    → (r : Bool) × ((if a then some true else if b then some false else o) ≡ some r)
either true b o s e = (true, refl)
either false true o s e = (false, refl)
either false false o s e = (s, e)

module _ (blocking : ℤ → ℤ → Bool) (dx dy : ℕ) (bx by : Bool) (x0 y0 x1 y1 : ℤ) where
  -- The loop from where the count arrives within `n` rounds.
  walk : ℕ → ℤ × ℤ × ℤ → Option Bool
  walk = los_loop blocking dx dy (sign bx) (sign by) x0 y0 x1 y1

  at_target :
      (n : ℕ) (x y e : ℤ) → Away bx 0 x x1 → Away by 0 y y1 → walk (suc n) (x, y, e) ≡ some true
  unfolding walk los_loop
  at_target n x y e ax ay = rw (arrived bx x x1 ax, arrived by y y1 ay)

  walk_ends :
      (n u v : ℕ) (x y e : ℤ)
      → Arrives dx dy n u v
      → On bx by dx dy u v x1 y1 (x, y, e)
      → (seen : Bool) × (walk (suc n) (x, y, e) ≡ some seen)
  unfolding walk los_loop
  walk_ends zero u v x y e (a, b) (ax, ay, r) = (
    true,
    at_target zero x y e (subst (λ k. Away bx k x x1) a ax) (subst (λ k. Away by k y y1) b ay),
  )
  walk_ends (suc n) u v x y e (inl (a, b)) (ax, ay, r) = (
    true,
    at_target (suc n) x y e (subst (λ k. Away bx k x x1) a ax) (subst (λ k. Away by k y y1) b ay),
  )
  walk_ends (suc n) u v x y e (inr (f, g, rest)) on =
      let (seen, ih) =
        walk_ends n (less_x dx dy u v) (less_y dx dy u v) _ _ _ rest
          (step-On bx by dx dy u v x1 y1 x y e f g on) in
      either _ _ _ seen ih

start_Away : (a b : ℤ) → Away (ltb_ℤ b a) (distance a b) a b
unfolding ◌-ℤ◌
start_Away a b = elim (Bool-cases (ltb_ℤ b a)) [
  | inl back ↦ rw back (ground (arith, back))
  | inr ahead ↦ rw ahead (ground (arith, ahead))
]

start_error : (dx dy : ℕ) → ErrorIs dx dy dx dy (pos dx -ℤ pos dy)
start_error dx dy = omega (arith, -ℤ_parts (pos dx) (pos dy))

-- The walk of the line of sight always returns, after at most one round more than its longer side
-- has steps.
pub has_los_ends :
    (x0 y0 x1 y1 : ℤ) (blocking : ℤ → ℤ → Bool)
    → (seen : Bool) × (has_los x0 y0 x1 y1 blocking ≡ some seen)
unfolding has_los walk
has_los_ends x0 y0 x1 y1 blocking =
    walk_ends blocking (distance x0 x1) (distance y0 y1) (ltb_ℤ x1 x0) (ltb_ℤ y1 y0) x0 y0 x1 y1
      (max (distance x0 x1) (distance y0 y1)) (distance x0 x1) (distance y0 y1) x0 y0 _
      (walk-Arrives (distance x0 x1) (distance y0 y1))
      (start_Away x0 x1, start_Away y0 y1, start_error (distance x0 x1) (distance y0 y1))
