-- ===== src/Pathing/Terrain/Exact.antt =====
-- Exactly which cells are blocked.
use web_rts_nomads.Base.{
  ℕ, zero, suc, ◌≡◌, refl, inl, inr, Bool, false, not, ◌&&◌, ◌||◌, List, [], ◌∷◌, str_eq, arith,
  Bool-cases, sym, ap,
}
use web_rts_nomads.Base.Int.{ℤ, pos, leb_ℤ, ltb_ℤ, ◌+ℤ◌, +ℤ_parts}
use web_rts_nomads.Pathing.{GridPoint, CellSet, eqb_point, has, out_of_grid}
use web_rts_nomads.Pathing.Nearest.{point}
use web_rts_nomads.Pathing.Nearest.Shape.{eqb_point→eq}
use web_rts_nomads.Pathing.Terrain.{
  MapConfig, PlacedBuilding, infer_default_terrain, is_transition, block_row, block_rows,
  add_terrain_blocks, add_obstacles, add_span, add_footprint, stands_there, add_buildings,
  build_blocked_cells,
}

-- A cell of a rectangle.
abbrev pub within : ℕ → ℕ → ℤ → ℤ → GridPoint → Bool
within width height x y p =
    leb_ℤ x p.x && (ltb_ℤ p.x (x +ℤ pos width) && (leb_ℤ y p.y && ltb_ℤ p.y (y +ℤ pos height)))

abbrev pub covered_by : List PlacedBuilding → GridPoint → Bool
covered_by [] p = false
covered_by (b ∷ bs) p =
    (stands_there b && within b.width b.height b.at.x b.at.y p) || covered_by bs p

abbrev pub terrain_blocks : MapConfig → GridPoint → Bool
terrain_blocks cfg p =
    let default_terrain = infer_default_terrain cfg.default_tile in
    not (str_eq default_terrain "")
    && (not (out_of_grid cfg.grid_cols cfg.grid_rows p) && is_transition cfg default_terrain p)

abbrev pub on_row : ℕ → ℕ → GridPoint → Bool
on_row y n p = within n 1 (pos 0) (pos y) p

or_swap : (a b c : Bool) → (b || (a || c)) ≡ ((a || b) || c)
or_swap a b c = ground arith

-- A span is its first cell and the rest; a rectangle is its first row and the rest.
within_first :
    (n : ℕ) (x y : ℤ) (p : GridPoint)
    → within (suc n) 1 x y p ≡ (eqb_point p (point x y) || within n 1 (x +ℤ pos 1) y p)
within_first n x y p = ground (
  arith,
  +ℤ_parts x (pos (suc n)),
  +ℤ_parts (x +ℤ pos 1) (pos n),
  +ℤ_parts x (pos 1),
  +ℤ_parts y (pos 1),
)

within_top :
    (width n : ℕ) (x y : ℤ) (p : GridPoint)
    → within width (suc n) x y p ≡ (within width 1 x y p || within width n x (y +ℤ pos 1) p)
within_top width n x y p = ground (
  arith,
  +ℤ_parts x (pos width),
  +ℤ_parts y (pos (suc n)),
  +ℤ_parts (y +ℤ pos 1) (pos n),
  +ℤ_parts y (pos 1),
)

within_last :
    (y n : ℕ) (p : GridPoint)
    → on_row y (suc n) p ≡ (eqb_point p (point (pos n) (pos y)) || on_row y n p)
within_last y n p =
    ground
      (arith, +ℤ_parts (pos 0) (pos (suc n)), +ℤ_parts (pos 0) (pos n), +ℤ_parts (pos y) (pos 1))

has-block_row :
    (test : GridPoint → Bool) (y n : ℕ) (blocked : CellSet) (p : GridPoint)
    → has p (block_row test y n blocked) ≡ ((on_row y n p && test p) || has p blocked)
unfolding block_row has
has-block_row test y zero blocked p =
    ground (arith, +ℤ_parts (pos 0) (pos 0), +ℤ_parts (pos y) (pos 1))
has-block_row test y (suc n) blocked p =
    let cell = point (pos n) (pos y) in
    let before = has-block_row test y n blocked p in
    let parts = within_last y n p in
    elim (Bool-cases (eqb_point p cell)) [
      | inl same ↦
          let at_cell : test cell ≡ test p = ap test (sym (eqb_point→eq p cell same)) in
          ground (arith, before, parts, at_cell, same)
      | inr other ↦ ground (arith, before, parts, other)
    ]

has-add_obstacles :
    (os : List GridPoint) (blocked : CellSet) (p : GridPoint)
    → has p (add_obstacles os blocked) ≡ (has p os || has p blocked)
unfolding add_obstacles has
has-add_obstacles [] blocked p = refl
has-add_obstacles (o ∷ os) blocked p = ground (arith, has-add_obstacles os (o ∷ blocked) p)

has-add_span :
    (n : ℕ) (x y : ℤ) (blocked : CellSet) (p : GridPoint)
    → has p (add_span n x y blocked) ≡ (within n 1 x y p || has p blocked)
unfolding add_span has
has-add_span zero x y blocked p = ground (arith, +ℤ_parts x (pos 0), +ℤ_parts y (pos 1))
has-add_span (suc n) x y blocked p =
    rw (has-add_span n (x +ℤ pos 1) y (point x y ∷ blocked) p, within_first n x y p)
      (or_swap (eqb_point p (point x y)) (within n 1 (x +ℤ pos 1) y p) (has p blocked))

has-add_footprint :
    (width n : ℕ) (x y : ℤ) (blocked : CellSet) (p : GridPoint)
    → has p (add_footprint width n x y blocked) ≡ (within width n x y p || has p blocked)
unfolding add_footprint
has-add_footprint width zero x y blocked p = ground (arith, +ℤ_parts y (pos 0))
has-add_footprint width (suc n) x y blocked p =
    rw
      (
        has-add_footprint width n x (y +ℤ pos 1) (add_span width x y blocked) p,
        has-add_span width x y blocked p,
        within_top width n x y p,
      )
      (or_swap (within width 1 x y p) (within width n x (y +ℤ pos 1) p) (has p blocked))

either_row : (a b t c : Bool) → ((a && t) || ((b && t) || c)) ≡ (((a || b) && t) || c)
either_row a b t c = ground arith

inside_last :
    (cols n : ℕ) (p : GridPoint)
    → not (out_of_grid cols (suc n) p) ≡ (on_row n cols p || not (out_of_grid cols n p))
inside_last cols n p = ground (arith, +ℤ_parts (pos 0) (pos cols), +ℤ_parts (pos n) (pos 1))

has-block_rows :
    (test : GridPoint → Bool) (cols n : ℕ) (blocked : CellSet) (p : GridPoint)
    → has p (block_rows test cols n blocked)
      ≡ ((not (out_of_grid cols n p) && test p) || has p blocked)
unfolding block_rows
has-block_rows test cols zero blocked p = ground arith
has-block_rows test cols (suc n) blocked p =
    rw
      (
        has-block_row test n cols (block_rows test cols n blocked) p,
        has-block_rows test cols n blocked p,
        inside_last cols n p,
      )
      (either_row (on_row n cols p) (not (out_of_grid cols n p)) (test p) (has p blocked))

has-add_buildings :
    (bs : List PlacedBuilding) (blocked : CellSet) (p : GridPoint)
    → has p (add_buildings bs blocked) ≡ (covered_by bs p || has p blocked)
unfolding add_buildings
has-add_buildings [] blocked p = refl
has-add_buildings (b ∷ bs) blocked p = elim (Bool-cases (stands_there b)) [
  | inl stands ↦
      rw
        (
          stands,
          has-add_buildings bs (add_footprint b.width b.height b.at.x b.at.y blocked) p,
          has-add_footprint b.width b.height b.at.x b.at.y blocked p,
        )
        (or_swap (within b.width b.height b.at.x b.at.y p) (covered_by bs p) (has p blocked))
  | inr not_there ↦ rw (not_there, has-add_buildings bs blocked p) refl
]

has-add_terrain_blocks :
    (cfg : MapConfig) (p : GridPoint) → has p (add_terrain_blocks cfg []) ≡ terrain_blocks cfg p
unfolding add_terrain_blocks has
has-add_terrain_blocks cfg p =
    let default_terrain = infer_default_terrain cfg.default_tile in
    let rows =
      has-block_rows (is_transition cfg default_terrain) cfg.grid_cols cfg.grid_rows [] p in
    ground (arith, rows)

-- A cell is blocked exactly if a visible building other than an enemy spawn point covers it, an
-- obstacle is on it, or it is on the map and its tile is a transition, where the default terrain is
-- known.
pub has-build_blocked_cells :
    (cfg : MapConfig) (p : GridPoint)
    → has p (build_blocked_cells cfg)
      ≡ (covered_by cfg.buildings p || (has p cfg.obstacles || terrain_blocks cfg p))
unfolding build_blocked_cells
has-build_blocked_cells cfg p =
    rw
      (
        build_blocked_cells,
        has-add_buildings cfg.buildings (add_obstacles cfg.obstacles (add_terrain_blocks cfg [])) p,
        has-add_obstacles cfg.obstacles (add_terrain_blocks cfg []) p,
        has-add_terrain_blocks cfg p,
      )
      refl
