-- ===== src/Fow/Stamping.antt =====
-- fow.go, `stampCircle`: the loops over the bounding box, whatever the tests on a cell are.
use web_rts_nomads.Base.{
  ℕ, suc, zero, ◌+◌, ◌-◌, ◌*◌, ◌≤◌, ◌<◌, ◌≡◌, ◌≢◌, refl, ◌∙◌, ◌⊎◌, inl, inr, Bool, true, false,
  ◌&&◌, Option, some, List, length, get_elem?, set, ltb, leb, ◌==◌, if◌then◌else◌, arith,
  Bool-cases, length-set, get_elem?-set, lt→ltb,
}
use web_rts_nomads.Base.Int.{ℤ, pos, leb_ℤ, +ℤ_parts, -ℤ_parts}
use web_rts_nomads.Fow.{
  PlayerFow, cell_clear, write_cell, stamp_row, stamp_rows, stamp_box, clamp_low, clamp_high,
  rounds,
}

pub index_lt : (x y cols rows : ℕ) → x < cols → y < rows → y * cols + x < cols * rows
index_lt x y cols rows p q = grind arith

index_lt_row : (x x' y y' cols : ℕ) → x < cols → y < y' → y * cols + x ≢ y' * cols + x'
index_lt_row x x' y y' cols p q e = grind arith

-- The cell (x, y) of a slice in row order.
abbrev pub at : ℕ → ℕ → ℕ → List ℕ → Option ℕ
at cols x y cells = get_elem? cells (y * cols + x)

index_eq :
    (cols x y gx gy : ℕ)
    → x < cols
    → gx < cols
    → ((gy * cols + gx) == (y * cols + x)) ≡ ((x == gx) && (y == gy))
index_eq cols x y gx gy p q = elim (trichotomy y gy) [
  | inl below ↦ ground (arith, below, index_lt_row x gx y gy cols p below)
  | inr (inl same) ↦ rw same (ground arith)
  | inr (inr above) ↦ ground (arith, above, index_lt_row gx x gy y cols q above)
]
  where
    trichotomy : (a b : ℕ) → (a < b) ⊎ ((a ≡ b) ⊎ (b < a))
    trichotomy a b = grind arith

at-set :
    (cols x y gx gy : ℕ) (cells : List ℕ)
    → x < cols
    → gx < cols
    → gy * cols + gx < length cells
    → at cols x y (set cells (gy * cols + gx) cell_clear)
      ≡ (if (x == gx) && (y == gy) then some cell_clear else at cols x y cells)
at-set cols x y gx gy cells p q r =
    rw (
      get_elem?-set cells (gy * cols + gx) (y * cols + x) cell_clear r,
      index_eq cols x y gx gy p q,
    )

abbrev pub in_span : ℕ → ℕ → ℕ → Bool
in_span lo n x = leb lo x && ltb x (lo + n)

-- `next` is `cells` with the cells that `hit` accepts made clear, on a grid of `cols` columns.
abbrev pub Stamps : (ℕ → ℕ → Bool) → ℕ → List ℕ → List ℕ → Type 0
Stamps hit cols cells next =
    (length next ≡ length cells)
    × ((x y : ℕ)
        → x < cols
        → at cols x y next ≡ (if hit x y then some cell_clear else at cols x y cells))

abbrev row_hit : (ℕ → ℕ → Bool) → ℕ → ℕ → ℕ → ℕ → ℕ → Bool
row_hit covers n gx gy x y = (y == gy) && (in_span gx n x && covers x y)

row_grows :
    (covers : ℕ → ℕ → Bool) (n gx gy x y : ℕ) (o : Option ℕ)
    → covers gx gy ≡ true
    → (if row_hit covers n (suc gx) gy x y
        then some cell_clear
        else if (x == gx) && (y == gy)
        then some cell_clear
        else o)
      ≡ (if row_hit covers (suc n) gx gy x y then some cell_clear else o)
row_grows covers n gx gy x y o h = ground arith

row_skips :
    (covers : ℕ → ℕ → Bool) (n gx gy x y : ℕ) (o : Option ℕ)
    → covers gx gy ≡ false
    → (if row_hit covers n (suc gx) gy x y then some cell_clear else o)
      ≡ (if row_hit covers (suc n) gx gy x y then some cell_clear else o)
row_skips covers n gx gy x y o h = ground arith

stamp_row-Stamps :
    (covers : ℕ → ℕ → Bool) (cols n gx gy : ℕ) (cells : List ℕ) (rows : ℕ)
    → length cells ≡ cols * rows
    → n ≤ cols - gx
    → gy < rows
    → (next : List ℕ) × (stamp_row covers cols n gx gy cells ≡ some next)
      × Stamps (row_hit covers n gx gy) cols cells next
unfolding stamp_row
stamp_row-Stamps covers cols zero gx gy cells rows len fits inside =
    (cells, refl, (refl, λ x y p. ground arith))
stamp_row-Stamps covers cols (suc n) gx gy cells rows len fits inside =
    elim (Bool-cases (covers gx gy)) [
      | inl hit ↦
          let next = set cells (gy * cols + gx) cell_clear in
          let (last, e, (l, same)) =
            stamp_row-Stamps covers cols n (suc gx) gy next rows (length-set cells _ _ ∙ len)
              (omega arith) inside in
          (
            last,
            rw (hit, write) e,
            (
              l ∙ length-set cells _ _,
              λ x y p.
                  same x y p
                  ∙ (rw (at-set cols x y gx gy cells p (omega arith) room)
                      (row_grows covers n gx gy x y _ hit)),
            ),
          )
      | inr miss ↦
          let (last, e, (l, same)) =
            stamp_row-Stamps covers cols n (suc gx) gy cells rows len (omega arith) inside in
          (last, rw miss e, (l, λ x y p. same x y p ∙ row_skips covers n gx gy x y _ miss))
    ]
  where
    room : gy * cols + gx < length cells
    room = rw len (index_lt gx gy cols rows (omega arith) inside)

    write :
        write_cell (gy * cols + gx) cell_clear cells ≡ some (set cells (gy * cols + gx) cell_clear)
    write = unfold write_cell in rw (lt→ltb _ _ room)

abbrev box_hit : (ℕ → ℕ → Bool) → ℕ → ℕ → ℕ → ℕ → ℕ → ℕ → Bool
box_hit covers w n gx gy x y = in_span gy n y && (in_span gx w x && covers x y)

rows_grow :
    (covers : ℕ → ℕ → Bool) (w n gx gy x y : ℕ) (o : Option ℕ)
    → (if box_hit covers w n gx (suc gy) x y
        then some cell_clear
        else if row_hit covers w gx gy x y
        then some cell_clear
        else o)
      ≡ (if box_hit covers w (suc n) gx gy x y then some cell_clear else o)
rows_grow covers w n gx gy x y o = ground arith

stamp_rows-Stamps :
    (covers : ℕ → ℕ → Bool) (cols w n gx gy : ℕ) (cells : List ℕ) (rows : ℕ)
    → length cells ≡ cols * rows
    → w ≤ cols - gx
    → n ≤ rows - gy
    → (next : List ℕ) × (stamp_rows covers cols w n gx gy cells ≡ some next)
      × Stamps (box_hit covers w n gx gy) cols cells next
unfolding stamp_rows
stamp_rows-Stamps covers cols w zero gx gy cells rows len fits inside =
    (cells, refl, (refl, λ x y p. ground arith))
stamp_rows-Stamps covers cols w (suc n) gx gy cells rows len fits inside =
    let (next, e, (l, same)) =
      stamp_row-Stamps covers cols w gx gy cells rows len fits (omega arith) in
    let (last, e', (l', same')) =
      stamp_rows-Stamps covers cols w n gx (suc gy) next rows (l ∙ len) fits (omega arith) in
    (
      last,
      rw e e',
      (l' ∙ l, λ x y p. same' x y p ∙ rw (same x y p) (rows_grow covers w n gx gy x y _)),
    )

abbrev pub in_range : ℤ → ℤ → ℕ → Bool
in_range lo hi x = leb_ℤ lo (pos x) && leb_ℤ (pos x) hi

span_range :
    (size x : ℕ) (lo hi : ℤ)
    → x < size
    → in_span (clamp_low lo) (rounds (clamp_low lo) (clamp_high size hi)) x ≡ in_range lo hi x
span_range size x lo hi h =
    ground (arith, +ℤ_parts (clamp_high size hi) (pos 1), -ℤ_parts (pos size) (pos 1))

rounds-le :
    (size : ℕ) (lo hi : ℤ) → rounds (clamp_low lo) (clamp_high size hi) ≤ size - clamp_low lo
rounds-le size lo hi =
    ground (arith, +ℤ_parts (clamp_high size hi) (pos 1), -ℤ_parts (pos size) (pos 1))

pub stamp_box-Stamps :
    (covers : ℕ → ℕ → Bool) (min_x max_x min_y max_y : ℤ) (f : PlayerFow)
    → length f.cells ≡ f.cols * f.rows
    → (next : List ℕ) × (stamp_box covers min_x max_x min_y max_y f
        ≡ some (record f { cells = next }))
      × (length next ≡ f.cols * f.rows)
      × ((x y : ℕ)
          → x < f.cols
          → y < f.rows
          → at f.cols x y next ≡ (
              if in_range min_y max_y y && (in_range min_x max_x x && covers x y)
              then some cell_clear
              else at f.cols x y f.cells))
unfolding stamp_box
stamp_box-Stamps covers min_x max_x min_y max_y f len =
    let (next, e, (l, same)) =
      stamp_rows-Stamps covers f.cols _ _ (clamp_low min_x) (clamp_low min_y) f.cells f.rows len
        (rounds-le f.cols min_x max_x) (rounds-le f.rows min_y max_y) in
    (
      next,
      rw e,
      l ∙ len,
      λ x y px py.
          same x y px ∙ rw (span_range f.cols x min_x max_x px, span_range f.rows y min_y max_y py),
    )

-- On a grid whose slice has its size, no box makes the stamping loops read or write beyond the
-- slice; a cell becomes clear exactly if the box holds it and the tests accept it, and else it
-- stays.
pub stamp_box_lem :
    (covers : ℕ → ℕ → Bool) (min_x max_x min_y max_y : ℤ) (f : PlayerFow) (x y : ℕ)
    → length f.cells ≡ f.cols * f.rows
    → x < f.cols
    → y < f.rows
    → (g : PlayerFow) × (stamp_box covers min_x max_x min_y max_y f ≡ some g)
      × (g.cols ≡ f.cols)
      × (length g.cells ≡ f.cols * f.rows)
      × (at f.cols x y g.cells ≡ (
          if in_range min_y max_y y && (in_range min_x max_x x && covers x y)
          then some cell_clear
          else at f.cols x y f.cells))
stamp_box_lem covers min_x max_x min_y max_y f x y len px py =
    let (next, e, l, same) = stamp_box-Stamps covers min_x max_x min_y max_y f len in
    (record f { cells = next }, e, refl, l, same x y px py)
