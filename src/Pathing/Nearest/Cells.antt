-- ===== src/Pathing/Nearest/Cells.antt =====
-- The cells of the grid that a search has not visited, as a number.
use web_rts_nomads.Base.{
  ℕ, zero, suc, ◌*◌, ◌≤◌, ◌<◌, ◌≡◌, refl, true, false, not, List, [], ◌∷◌, ◌++◌, length, keep_if,
  ◌==◌, sym, subst, length-append, length-keep_if-le, arith, inl, inr, Bool-cases,
}
use native.Mathlib.Nat.{mul-suc}
use web_rts_nomads.Base.Int.{pos, pos_part, eq_of_parts}
use web_rts_nomads.Pathing.{GridPoint, CellSet, has, eqb_point}
use web_rts_nomads.Pathing.Nearest.{point}
use web_rts_nomads.Pathing.Nearest.Shape.{InGrid, has-tail, has-head, eq_of_point, eqb_point→eq}

row : ℕ → ℕ → List GridPoint
row b zero = []
row b (suc n) = point (pos n) (pos b) ∷ row b n

pub cells : ℕ → ℕ → List GridPoint
cells cols zero = []
cells cols (suc n) = row n cols ++ cells cols n

length-row : (b n : ℕ) → length (row b n) ≡ n
unfolding row
length-row b zero = refl
length-row b (suc n) = omega (arith, length-row b n)

pub length-cells : (cols n : ℕ) → length (cells cols n) ≡ cols * n
unfolding cells
length-cells cols zero = omega arith
length-cells cols (suc n) = omega (
  arith,
  mul-suc cols n,
  length-append (row n cols) (cells cols n),
  length-row n cols,
  length-cells cols n,
)

has-left : (p : GridPoint) (q r : CellSet) → has p q ≡ true → has p (q ++ r) ≡ true
unfolding has
has-left p [] r h = cc
has-left p (x ∷ xs) r h = ground (arith, has-left p xs r)

has-right : (p : GridPoint) (q r : CellSet) → has p r ≡ true → has p (q ++ r) ≡ true
unfolding has
has-right p [] r h = h
has-right p (x ∷ xs) r h = ground (arith, has-right p xs r)

has-row : (a b n : ℕ) → a < n → has (point (pos a) (pos b)) (row b n) ≡ true
unfolding has row
has-row a b zero h = absurd (omega arith)
has-row a b (suc n) h = ground (arith, has-row a b n)

has-cells_parts :
    (cols a b n : ℕ) → a < cols → b < n → has (point (pos a) (pos b)) (cells cols n) ≡ true
unfolding cells
has-cells_parts cols a b zero h k = absurd (omega arith)
has-cells_parts cols a b (suc n) h k = elim (Bool-cases (b == n)) [
  | inl same ↦
      has-left (point (pos a) (pos b)) (row n cols) (cells cols n)
        (ground (arith, has-row a b cols h))
  | inr other ↦
      has-right (point (pos a) (pos b)) (row n cols) (cells cols n)
        (has-cells_parts cols a b n h (ground arith))
]

pub has-cells :
    (cols rows : ℕ) (p : GridPoint) → InGrid cols rows p → has p (cells cols rows) ≡ true
has-cells cols rows p h =
    let on_map : p ≡ point (pos (pos_part p.x)) (pos (pos_part p.y)) =
      eq_of_point p _ (eq_of_parts _ _ (ground arith)) (eq_of_parts _ _ (ground arith)) in
    let cell =
      has-cells_parts cols (pos_part p.x) (pos_part p.y) rows (ground arith) (ground arith) in
    subst (λ q. has q (cells cols rows) ≡ true) (sym on_map) cell

-- Visiting one more cell of a list leaves fewer that are not visited.
abbrev pub unseen : CellSet → List GridPoint → ℕ
unseen v cs = length (keep_if (λ p. not (has p v)) cs)

unseen-cons_le :
    (n : GridPoint) (v : CellSet) (cs : List GridPoint) → unseen (n ∷ v) cs ≤ unseen v cs
unseen-cons_le n v [] = omega arith
unseen-cons_le n v (c ∷ cs) = ground (arith, unseen-cons_le n v cs, has-tail c n v)

pub unseen-cons :
    (n : GridPoint) (v : CellSet) (cs : List GridPoint)
    → has n v ≡ false
    → has n cs ≡ true
    → unseen (n ∷ v) cs < unseen v cs
unfolding has
unseen-cons n v [] h k = cc
unseen-cons n v (c ∷ cs) h k = elim (Bool-cases (eqb_point n c)) [
  | inl same ↦
      let e = eqb_point→eq n c same in
      let le = unseen-cons_le n v cs in ground (arith, has-head n v)
  | inr other ↦ ground (arith, unseen-cons n v cs, has-tail c n v)
]

pub unseen-le : (v : CellSet) (cols rows : ℕ) → unseen v (cells cols rows) ≤ cols * rows
unseen-le v cols rows =
    ground (arith, length-keep_if-le (λ p. not (has p v)) (cells cols rows), length-cells cols rows)
