-- ===== src/Pathing/Nearest/Shape.antt =====
-- The shape of the grid: cells, their four neighbours and the distance in steps.
use web_rts_nomads.Base.{
  ℕ, suc, ◌+◌, ◌-◌, ◌≤◌, ◌<◌, ◌≡◌, refl, ◌⊎◌, inl, inr, true, false, [], ◌∷◌, ◌++◌, arith,
}
use web_rts_nomads.Base.Int.{ℤ, pos, negsuc, pos_part, neg_part, +ℤ_parts, eq_of_parts, ◌+ℤ◌}
use web_rts_nomads.Pathing.{GridPoint, CellSet, eqb_point, has, out_of_grid}
use web_rts_nomads.Pathing.Nearest.{point, directions, next_to}

abbrev pub InGrid : ℕ → ℕ → GridPoint → Type 0
InGrid cols rows p = out_of_grid cols rows p ≡ false

abbrev pub gap : ℤ → ℤ → ℕ
gap a b =
    ((pos_part a + neg_part b) - (pos_part b + neg_part a))
    + ((pos_part b + neg_part a) - (pos_part a + neg_part b))

abbrev pub distance : GridPoint → GridPoint → ℕ
distance p q = gap p.x q.x + gap p.y q.y

pub eqb_point→eq : (p q : GridPoint) → eqb_point p q ≡ true → p ≡ q
eqb_point→eq p q h =
    let same_x : p.x ≡ q.x = eq_of_parts p.x q.x (ground arith) in
    let same_y : p.y ≡ q.y = eq_of_parts p.y q.y (ground arith) in cc

pub eqb_point_refl : (p : GridPoint) → eqb_point p p ≡ true
eqb_point_refl p = ground arith

pub has-append : (p n : GridPoint) (q : CellSet) → has p q ≡ true → has p (q ++ n ∷ []) ≡ true
unfolding has
has-append p n [] h = cc
has-append p n (x ∷ xs) h = ground (arith, has-append p n xs)

pub has-snoc : (n : GridPoint) (q : CellSet) → has n (q ++ n ∷ []) ≡ true
unfolding has
has-snoc n [] = ground (arith, eqb_point_refl n)
has-snoc n (x ∷ xs) = ground (arith, has-snoc n xs)

pub has-cons : (p n : GridPoint) (q : CellSet) → has p (n ∷ q) ≡ true → (p ≡ n) ⊎ (has p q ≡ true)
unfolding has
has-cons p n q h = ground (arith, eqb_point→eq p n)

pub has-head : (n : GridPoint) (q : CellSet) → has n (n ∷ q) ≡ true
unfolding has
has-head n q = ground (arith, eqb_point_refl n)

pub has-tail : (p n : GridPoint) (q : CellSet) → has p q ≡ true → has p (n ∷ q) ≡ true
unfolding has
has-tail p n q h = ground arith

pub eq_of_point : (p q : GridPoint) → p.x ≡ q.x → p.y ≡ q.y → p ≡ q
eq_of_point p q a b = cc

-- A step changes the distance from `s` by one at most.
distance-step :
    (s p d : GridPoint)
    → gap d.x (pos 0) + gap d.y (pos 0) ≤ 1
    → distance s (next_to p d) ≤ suc (distance s p)
distance-step s p d h = omega (arith, +ℤ_parts p.x d.x, +ℤ_parts p.y d.y)

pub distance-next_to :
    (s p d : GridPoint) → has d directions ≡ true → distance s (next_to p d) ≤ suc (distance s p)
unfolding has
distance-next_to s p d h = distance-step s p d (ground arith)

-- The step back from `p` towards `s`.
pub record Towards (cols rows : ℕ) (s p : GridPoint) (k : ℕ) : Type 0 where
  pub before : GridPoint
  pub direction : GridPoint
  pub is_direction : has direction directions ≡ true
  pub leads : next_to before direction ≡ p
  pub inside : InGrid cols rows before
  pub closer : distance s before ≡ k

pub compare_gap :
    (a b : ℤ)
    → (pos_part a + neg_part b < pos_part b + neg_part a)
      ⊎ ((pos_part b + neg_part a < pos_part a + neg_part b)
          ⊎ (pos_part a + neg_part b ≡ pos_part b + neg_part a))
compare_gap a b = ground arith

-- Directions that undo each other.
abbrev Cancel : ℤ → ℤ → Type 0
Cancel a b = pos_part a + pos_part b ≡ neg_part a + neg_part b

back-again : (p o d : GridPoint) → Cancel o.x d.x → Cancel o.y d.y → next_to (next_to p o) d ≡ p
back-again p o d h k =
    eq_of_point _ p
      (eq_of_parts _ _ (omega (arith, +ℤ_parts (p.x +ℤ o.x) d.x, +ℤ_parts p.x o.x, h)))
      (eq_of_parts _ _ (omega (arith, +ℤ_parts (p.y +ℤ o.y) d.y, +ℤ_parts p.y o.y, k)))

module _ (cols rows : ℕ) (s p : GridPoint) (k : ℕ) where
  Towards-by :
      (o d : GridPoint)
      → has d directions ≡ true
      → Cancel o.x d.x
      → Cancel o.y d.y
      → InGrid cols rows (next_to p o)
      → distance s (next_to p o) ≡ k
      → Towards cols rows s p k
  Towards-by o d h cx cy i c = record {
    before = next_to p o;
    direction = d;
    is_direction = h;
    leads = back-again p o d cx cy;
    inside = i;
    closer = c;
  }

  -- A cell at distance k + 1 has a neighbour on the map at distance k.
  pub towards :
      InGrid cols rows s → InGrid cols rows p → distance s p ≡ suc k → Towards cols rows s p k
  unfolding has
  towards hs hp e =
      let stay_x = +ℤ_parts p.x (pos 0) in
      let stay_y = +ℤ_parts p.y (pos 0) in
      elim (compare_gap s.x p.x) [
        | inl left ↦
            let back = +ℤ_parts p.x (negsuc 0) in
            Towards-by (point (negsuc 0) (pos 0)) (point (pos 1) (pos 0)) refl (omega arith)
              (omega arith) (ground (arith, back, stay_y)) (omega (arith, back, stay_y))
        | inr (inl right) ↦
            let back = +ℤ_parts p.x (pos 1) in
            Towards-by (point (pos 1) (pos 0)) (point (negsuc 0) (pos 0)) refl (omega arith)
              (omega arith) (ground (arith, back, stay_y)) (omega (arith, back, stay_y))
        | inr (inr level) ↦ elim (compare_gap s.y p.y) [
          | inl above ↦
              let back = +ℤ_parts p.y (negsuc 0) in
              Towards-by (point (pos 0) (negsuc 0)) (point (pos 0) (pos 1)) refl (omega arith)
                (omega arith) (ground (arith, back, stay_x)) (omega (arith, back, stay_x))
          | inr (inl below) ↦
              let back = +ℤ_parts p.y (pos 1) in
              Towards-by (point (pos 0) (pos 1)) (point (pos 0) (negsuc 0)) refl (omega arith)
                (omega arith) (ground (arith, back, stay_x)) (omega (arith, back, stay_x))
          | inr (inr here) ↦ absurd (omega arith)
        ]
      ]
