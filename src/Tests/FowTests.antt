-- ===== src/Tests/FowTests.antt =====
-- Fog of war: a four by three grid, a run-length code, a line of sight and one tick.
use web_rts_nomads.Base.{
  ℕ, ◌*◌, ◌%◌, ◌≡◌, refl, Bool, true, none, some, List, [], ◌∷◌, Dict, length, if◌then◌else◌, ◌&&◌,
  ltb, arith,
}
use web_rts_nomads.Base.Int.{ℤ, pos, negsuc, eqb_ℤ, ◌+ℤ◌, ◌-ℤ◌}
use web_rts_nomads.Tests.Whole.{whole}
use web_rts_nomads.Fow.{
  PlayerFow, cell_clear, encode_rle, stamp_box, has_los, clear_clear_bits, write_cell, stamp_row,
  stamp_rows,
}
use web_rts_nomads.Fow.Runs.{decode_rle, decode-encode}
use web_rts_nomads.Fow.Stamping.{at, in_range, stamp_box_lem}
use web_rts_nomads.Fow.Sight.{has_los_ends}
use web_rts_nomads.Fow.Recompute.{
  SightedUnit, Building, recompute_fow, has_key, stamp_unit, stamp_units, stamp_buildings, remember,
  stamp_circle, players_are_friendly, fow_owner_shares_vision,
}
use web_rts_nomads.Fow.Recompute.Memory.{IsGrid, recompute_fow-IsGrid, recompute_fow_remembers}

abbrev row : List ℕ
row = 0 ∷ 0 ∷ 3 ∷ 3 ∷ 3 ∷ 1 ∷ []

decode-encode_example : decode_rle (encode_rle row) ≡ row
decode-encode_example = decode-encode row

abbrev grid : PlayerFow
grid = record { cols = 4; rows = 3; cells = 0 ∷ 0 ∷ 0 ∷ 0 ∷ 0 ∷ 1 ∷ 0 ∷ 0 ∷ 0 ∷ 0 ∷ 0 ∷ 0 ∷ [] }

abbrev left_half : ℕ → ℕ → Bool
left_half x y = ltb x 2

stamp_box_lem_example :
    (g : PlayerFow) × (stamp_box left_half (negsuc 0) (pos 9) (pos 1) (pos 9) grid ≡ some g)
    × (g.cols ≡ 4)
    × (length g.cells ≡ 4 * 3)
    × (at 4 1 2 g.cells ≡ (
        if in_range (pos 1) (pos 9) 2 && (in_range (negsuc 0) (pos 9) 1 && left_half 1 2)
        then some cell_clear
        else at 4 1 2 grid.cells))
stamp_box_lem_example =
    stamp_box_lem left_half (negsuc 0) (pos 9) (pos 1) (pos 9) grid 1 2 refl (omega arith)
      (omega arith)

abbrev wall : ℤ → ℤ → Bool
wall x y = eqb_ℤ x (pos 3)

has_los_ends_example : (seen : Bool) × (has_los (pos 0) (pos 0) (pos 7) (negsuc 1) wall ≡ some seen)
has_los_ends_example = has_los_ends (pos 0) (pos 0) (pos 7) (negsuc 1) wall

-- Whole numbers of half cells in place of floats.
abbrev scout : SightedUnit whole
scout = record {
  owner = "ann";
  hp = pos 10;
  visible = true;
  flyer = true;
  x = pos 3;
  y = pos 2;
  vision = pos 1;
}

abbrev own_grids : Dict PlayerFow
own_grids = ("ann", grid) ∷ []

recompute_fow-IsGrid_example :
    (g : PlayerFow) × (known' : Dict (Building whole)) × (recompute_fow whole [] own_grids "ann"
        (pos 1)
        wall
        (scout ∷ [])
        []
        (grid, [])
      ≡ some (g, known'))
    × (g.cols ≡ grid.cols)
    × (g.rows ≡ grid.rows)
    × IsGrid g
recompute_fow-IsGrid_example =
    recompute_fow-IsGrid whole [] own_grids "ann" (pos 1) wall (scout ∷ []) [] grid [] refl

abbrev hut : Building whole
hut = record {
  id = "hut";
  owner = none;
  footprint = record { grid_x = pos 0; grid_y = pos 0; width = 1; height = 1 };
  vision = pos 1;
}

abbrev grid_after : PlayerFow
grid_after = record {
  cols = 4;
  rows = 3;
  cells = 0 ∷ 3 ∷ 3 ∷ 3 ∷ 0 ∷ 3 ∷ 3 ∷ 3 ∷ 0 ∷ 3 ∷ 3 ∷ 3 ∷ [];
}

tick_after :
    recompute_fow whole [] own_grids "ann" (pos 1) wall (scout ∷ []) [] (grid, ("hut", hut) ∷ [])
    ≡ some (grid_after, ("hut", hut) ∷ [])
unfolding recompute_fow stamp_units stamp_unit stamp_buildings remember stamp_circle
    players_are_friendly fow_owner_shares_vision clear_clear_bits write_cell stamp_row stamp_rows
    stamp_box ◌+ℤ◌ ◌-ℤ◌
tick_after = refl

recompute_fow_remembers_example :
    ((d : ℕ) × (at 4 1 1 grid_after.cells ≡ some d) × (d % 2 ≡ 1))
    × (has_key "hut" (("hut", hut) ∷ []) ≡ true)
recompute_fow_remembers_example =
    recompute_fow_remembers whole [] own_grids "ann" (pos 1) wall (scout ∷ []) [] grid grid_after
      (("hut", hut) ∷ []) (("hut", hut) ∷ []) 1 1 1 "hut" refl tick_after (omega arith)
      (omega arith) refl refl refl
