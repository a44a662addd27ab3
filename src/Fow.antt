-- ===== src/Fow.antt =====
-- server/internal/game/fow.go: a player's fog-of-war grid. Cells are bytes in row order; a read or a
-- write beyond the slice is a panic, `none` here.
pub mod Sight
pub mod Runs
pub mod Stamping
pub mod Recompute
use web_rts_nomads.Base.{
  ℕ, suc, zero, ◌+◌, ◌-◌, ◌*◌, ◌%◌, ◌≤◌, ◌≡◌, Bool, true, false, not, ◌&&◌, ◌||◌, Option, none,
  some, List, [], ◌∷◌, ◌++◌, map, length, get_elem?, set, max, ltb, leb, ◌==◌, if◌then◌else◌,
}
use web_rts_nomads.Base.Int.{ℤ, pos, negsuc, ltb_ℤ, leb_ℤ, eqb_ℤ, ◌+ℤ◌, ◌-ℤ◌, pos_part, neg_part}
use web_rts_nomads.Base.Float.{Float64}

abbrev pub cell_dark : ℕ
cell_dark = 0

abbrev pub cell_shroud : ℕ
cell_shroud = 1

abbrev pub cell_clear : ℕ
cell_clear = 3

-- The cache of known buildings is kept by the recomputation, in fow_recompute.go.
pub record PlayerFow : Type 0 where
  pub cols : ℕ
  pub rows : ℕ
  pub cells : List ℕ

abbrev pub replicate {ℓ} : {A : Type ℓ} → ℕ → A → List A
replicate zero a = []
replicate (suc n) a = a ∷ replicate n a

unfoldable pub new_player_fow : ℕ → ℕ → PlayerFow
new_player_fow cols rows = record { cols = cols; rows = rows; cells = replicate (cols * rows) 0 }

-- `f.Cells[i] &= 0x01`: the low bit of a byte.
unfoldable pub clear_clear_bits : PlayerFow → PlayerFow
clear_clear_bits f = record f { cells = map (λ c. c % 2) f.cells }

unfoldable pub cell_at : PlayerFow → ℤ → ℤ → Option ℕ
cell_at f gx gy =
    if ltb_ℤ gx (pos 0) || (leb_ℤ (pos f.cols) gx || (ltb_ℤ gy (pos 0) || leb_ℤ (pos f.rows) gy))
    then some cell_dark
    else get_elem? f.cells (pos_part gy * f.cols + pos_part gx)

-- A building's grid rectangle.
pub record Footprint : Type 0 where
  pub grid_x : ℤ
  pub grid_y : ℤ
  pub width : ℕ
  pub height : ℕ

unfoldable pub building_footprint_touches_cell : Footprint → ℤ → ℤ → Bool
building_footprint_touches_cell b gx gy =
    leb_ℤ b.grid_x gx
    && (ltb_ℤ gx (b.grid_x +ℤ pos b.width)
        && (leb_ℤ b.grid_y gy && ltb_ℤ gy (b.grid_y +ℤ pos b.height)))

infixl 5 ◌>>=◌
abbrev pub ◌>>=◌ {ℓ κ} : {A : Type ℓ} {B : Type κ} → Option A → (A → Option B) → Option B
none >>= f = none
some a >>= f = f a

-- The inner loop of `anyFootprintClear`, over `n` cells from (gx, gy).
unfoldable pub row_has_clear : PlayerFow → ℕ → ℤ → ℤ → Option Bool
row_has_clear f zero gx gy = some false
row_has_clear f (suc n) gx gy =
    let rest = row_has_clear f n (gx +ℤ pos 1) gy in
    do c ← cell_at f gx gy; if c == cell_clear then some true else rest

unfoldable pub rows_have_clear : PlayerFow → ℕ → ℕ → ℤ → ℤ → Option Bool
rows_have_clear f w zero gx gy = some false
rows_have_clear f w (suc n) gx gy =
    let rest = rows_have_clear f w n gx (gy +ℤ pos 1) in
    do hit ← row_has_clear f w gx gy; if hit then some true else rest

unfoldable pub any_footprint_clear : PlayerFow → Footprint → Option Bool
unfolding rows_have_clear row_has_clear
any_footprint_clear f b = rows_have_clear f b.width b.height b.grid_x b.grid_y

-- The loop of `encodeRLE`: the run so far is `count` cells of state `cur`.
unfoldable pub encode_from : ℕ → ℕ → List ℕ → List ℕ
encode_from cur count [] = cur ∷ count ∷ []
encode_from cur count (v ∷ vs) =
    let longer = encode_from cur (count + 1) vs in
    let next = encode_from v 1 vs in if v == cur then longer else cur ∷ count ∷ next

unfoldable pub encode_rle : List ℕ → List ℕ
unfolding encode_from
encode_rle [] = []
encode_rle (c ∷ cs) = encode_from c 1 cs

-- `f.Cells[i] = v`.
unfoldable pub write_cell : ℕ → ℕ → List ℕ → Option (List ℕ)
write_cell i v cells = if ltb i (length cells) then some (set cells i v) else none

-- `stampCircle`'s loops with the two tests on a cell, distance and line of sight, as `covers`.
unfoldable pub stamp_row : (ℕ → ℕ → Bool) → ℕ → ℕ → ℕ → ℕ → List ℕ → Option (List ℕ)
stamp_row covers cols zero gx gy cells = some cells
stamp_row covers cols (suc n) gx gy cells = do
  next ← (if covers gx gy then write_cell (gy * cols + gx) cell_clear cells else some cells)
  stamp_row covers cols n (suc gx) gy next

unfoldable pub stamp_rows : (ℕ → ℕ → Bool) → ℕ → ℕ → ℕ → ℕ → ℕ → List ℕ → Option (List ℕ)
stamp_rows covers cols w zero gx gy cells = some cells
stamp_rows covers cols w (suc n) gx gy cells = do
  next ← stamp_row covers cols w gx gy cells
  stamp_rows covers cols w n gx (suc gy) next

-- `if min < 0 { min = 0 }`.
abbrev pub clamp_low : ℤ → ℕ
clamp_low = pos_part

-- `if max >= size { max = size - 1 }`.
abbrev pub clamp_high : ℕ → ℤ → ℤ
clamp_high size hi = if leb_ℤ (pos size) hi then pos size -ℤ pos 1 else hi

-- The rounds of `for g := lo; g <= hi; g++`.
abbrev pub rounds : ℕ → ℤ → ℕ
rounds lo hi = pos_part (hi +ℤ pos 1) - lo

unfoldable pub stamp_box : (ℕ → ℕ → Bool) → ℤ → ℤ → ℤ → ℤ → PlayerFow → Option PlayerFow
stamp_box covers min_x max_x min_y max_y f =
    let x0 = clamp_low min_x in
    let y0 = clamp_low min_y in
    let w = rounds x0 (clamp_high f.cols max_x) in
    let h = rounds y0 (clamp_high f.rows max_y) in
    do cells ← stamp_rows covers f.cols w h x0 y0 f.cells; some (record f { cells = cells })

-- One round of Bresenham's loop after its return and its test for a blocker: the next (x, y, err).
-- `2 * err` is compared to `-dy` and `dx`; dx and dy are not negative.
unfoldable pub los_step : ℕ → ℕ → ℤ → ℤ → ℤ → ℤ → ℤ → ℤ × ℤ × ℤ
los_step dx dy sx sy x y error =
    let e2 = error +ℤ error in
    let go_x = ltb_ℤ (pos 0 -ℤ pos dy) e2 in
    let go_y = ltb_ℤ e2 (pos dx) in
    let error_x = if go_x then error -ℤ pos dy else error in
    (
      (if go_x then x +ℤ sx else x),
      (if go_y then y +ℤ sy else y),
      if go_y then error_x +ℤ pos dx else error_x,
    )

-- `for { … }` with fuel; `none` means that the fuel ran out.
pub los_loop : (ℤ → ℤ → Bool) → ℕ → ℕ → ℤ → ℤ → ℤ → ℤ → ℤ → ℤ → ℕ → ℤ × ℤ × ℤ → Option Bool
los_loop blocking dx dy sx sy x0 y0 x1 y1 zero state = none
los_loop blocking dx dy sx sy x0 y0 x1 y1 (suc fuel) (x, y, error) =
    let next = los_loop blocking dx dy sx sy x0 y0 x1 y1 fuel (los_step dx dy sx sy x y error) in
    if eqb_ℤ x x1 && eqb_ℤ y y1
    then some true
    else if not (eqb_ℤ x x0 && eqb_ℤ y y0) && blocking x y
    then some false
    else next

-- `x1 - x0`, made positive.
abbrev pub distance : ℤ → ℤ → ℕ
distance a b = pos_part (b -ℤ a) + neg_part (b -ℤ a)

abbrev pub direction : ℤ → ℤ → ℤ
direction a b = if ltb_ℤ b a then negsuc 0 else pos 1

unfoldable pub has_los : ℤ → ℤ → ℤ → ℤ → (ℤ → ℤ → Bool) → Option Bool
has_los x0 y0 x1 y1 blocking =
    let dx = distance x0 x1 in
    let dy = distance y0 y1 in
    los_loop blocking dx dy (direction x0 x1) (direction y0 y1) x0 y0 x1 y1 (suc (max dx dy))
      (x0, y0, pos dx -ℤ pos dy)
