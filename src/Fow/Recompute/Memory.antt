-- ===== src/Fow/Recompute/Memory.antt =====
-- fow_recompute.go: a tick reads and writes inside the grid only, and forgets nothing.
use web_rts_nomads.Base.{
  ℕ, suc, zero, ◌+◌, ◌*◌, ◌%◌, ◌<◌, ◌≡◌, refl, sym, subst, ◌∙◌, ◌⊎◌, inl, inr, Bool, true, false,
  ◌||◌, Option, some, List, [], ◌∷◌, length, String, Dict, insert, if◌then◌else◌, ◌==◌, arith,
  Bool-cases, lookup-insert, get_elem?-total, get_elem?-map, length-map,
}
use web_rts_nomads.Base.Int.{ℤ, pos, pos_part, ltb_ℤ, leb_ℤ, ◌+ℤ◌}
use web_rts_nomads.Base.Float.{Float64}
use web_rts_nomads.Fow.{
  PlayerFow, Footprint, cell_dark, cell_clear, ◌>>=◌, clear_clear_bits, cell_at, row_has_clear,
  rows_have_clear, any_footprint_clear, stamp_box,
}
use web_rts_nomads.Fow.Stamping.{at, stamp_box-Stamps, index_lt}
use web_rts_nomads.Fow.Recompute.{
  SightedUnit, Building, stamp_circle, stamp_unit, stamp_units, stamp_building, stamp_buildings,
  remember, recompute_fow, has_key,
}

abbrev pub IsGrid : PlayerFow → Type 0
IsGrid f = length f.cells ≡ f.cols * f.rows

-- `g` is `f` on the same grid with some cells made clear.
abbrev pub Brightens : PlayerFow → PlayerFow → Type 0
Brightens f g =
    (g.cols ≡ f.cols)
    × (g.rows ≡ f.rows)
    × (length g.cells ≡ f.cols * f.rows)
    × ((x y : ℕ)
        → x < f.cols
        → y < f.rows
        → (at f.cols x y g.cells ≡ some cell_clear)
          ⊎ (at f.cols x y g.cells ≡ at f.cols x y f.cells))

Brightens-refl : (f : PlayerFow) → IsGrid f → Brightens f f
Brightens-refl f h = (refl, refl, h, λ x y p q. inr refl)

Brightens-trans : (f g h : PlayerFow) → Brightens f g → Brightens g h → Brightens f h
Brightens-trans f g h (c, r, l, s) (c', r', l', s') = (c' ∙ c, r' ∙ r, cc, λ x y p q. go x y p q)
  where
    go :
        (x y : ℕ)
        → x < f.cols
        → y < f.rows
        → (at f.cols x y h.cells ≡ some cell_clear)
          ⊎ (at f.cols x y h.cells ≡ at f.cols x y f.cells)
    go x y p q =
        elim (subst
          (λ k. (at k x y h.cells ≡ some cell_clear) ⊎ (at k x y h.cells ≡ at k x y g.cells)) c
          (s' x y (rw c p) (rw r q))) [
            | inl clear ↦ inl clear
            | inr same ↦ elim (s x y p q) [
              | inl clear ↦ inl (same ∙ clear)
              | inr kept ↦ inr (same ∙ kept)
            ]
          ]

Brightens-IsGrid : (f g : PlayerFow) → Brightens f g → IsGrid g
Brightens-IsGrid f g (c, r, l, s) = cc

clear_or_kept :
    (b : Bool) (o o' : Option ℕ)
    → o' ≡ (if b then some cell_clear else o)
    → (o' ≡ some cell_clear) ⊎ (o' ≡ o)
clear_or_kept true o o' e = inl e
clear_or_kept false o o' e = inr e

-- A stage of the recomputation that succeeds and only makes cells clear.
abbrev Stage : Option PlayerFow → PlayerFow → Type 0
Stage r f = (g : PlayerFow) × (r ≡ some g) × Brightens f g

Stage-then :
    (f : PlayerFow) (m : Option PlayerFow) (k : PlayerFow → Option PlayerFow)
    → Stage m f
    → ((g : PlayerFow) → IsGrid g → Stage (k g) g)
    → Stage (m >>= k) f
Stage-then f m k (g, e, b) next =
    let (h, e', b') = next g (Brightens-IsGrid f g b) in (h, rw e e', Brightens-trans f g h b b')

Stage-if :
    (b : Bool) (f : PlayerFow) (m : Option PlayerFow)
    → IsGrid f
    → Stage m f
    → Stage (if b then some f else m) f
Stage-if true f m h s = (f, refl, Brightens-refl f h)
Stage-if false f m h s = s

stamp_box-Stage :
    (covers : ℕ → ℕ → Bool) (min_x max_x min_y max_y : ℤ) (f : PlayerFow)
    → IsGrid f
    → Stage (stamp_box covers min_x max_x min_y max_y f) f
stamp_box-Stage covers min_x max_x min_y max_y f h =
    let (next, e, l, same) = stamp_box-Stamps covers min_x max_x min_y max_y f h in
    (record f { cells = next }, e, (refl, refl, l, λ x y p q. clear_or_kept _ _ _ (same x y p q)))

module _ (F : Float64) where
  open F use {Float}

  stamp_circle-Stage :
      (wx wy radius size : Float) (blocking : Option (ℤ → ℤ → Bool)) (f : PlayerFow)
      → IsGrid f
      → Stage (stamp_circle F wx wy radius size blocking f) f
  unfolding stamp_circle
  stamp_circle-Stage wx wy radius size blocking f h =
      Stage-if _ f _ h (stamp_box-Stage _ _ _ _ _ f h)

  module _ (teams : Dict ℤ) (fows : Dict PlayerFow) (viewer : String) (size : Float)
      (blocking : ℤ → ℤ → Bool) where
    stamp_unit-Stage :
        (u : SightedUnit F) (f : PlayerFow)
        → IsGrid f
        → Stage (stamp_unit F teams fows viewer size blocking u f) f
    unfolding stamp_unit
    stamp_unit-Stage u f h = Stage-if _ f _ h (Stage-if _ f _ h (stamp_circle-Stage _ _ _ _ _ f h))

    stamp_units-Stage :
        (us : List (SightedUnit F)) (f : PlayerFow)
        → IsGrid f
        → Stage (stamp_units F teams fows viewer size blocking us f) f
    unfolding stamp_units
    stamp_units-Stage [] f h = (f, refl, Brightens-refl f h)
    stamp_units-Stage (u ∷ us) f h =
        Stage-then f _ (stamp_units F teams fows viewer size blocking us) (stamp_unit-Stage u f h)
          (stamp_units-Stage us)

    stamp_building-Stage :
        (b : Building F) (f : PlayerFow)
        → IsGrid f
        → Stage (stamp_building F teams fows viewer size blocking b f) f
    unfolding stamp_building
    stamp_building-Stage b f h = Stage-if _ f _ h (stamp_circle-Stage _ _ _ _ _ f h)

    stamp_buildings-Stage :
        (bs : List (Building F)) (f : PlayerFow)
        → IsGrid f
        → Stage (stamp_buildings F teams fows viewer size blocking bs f) f
    unfolding stamp_buildings
    stamp_buildings-Stage [] f h = (f, refl, Brightens-refl f h)
    stamp_buildings-Stage (b ∷ bs) f h =
        Stage-then f _ (stamp_buildings F teams fows viewer size blocking bs)
          (stamp_building-Stage b f h) (stamp_buildings-Stage bs)

cell_at-total : (f : PlayerFow) (gx gy : ℤ) → IsGrid f → (c : ℕ) × (cell_at f gx gy ≡ some c)
unfolding cell_at
cell_at-total f gx gy h =
    elim (Bool-cases (
      ltb_ℤ gx (pos 0) || (leb_ℤ (pos f.cols) gx || (ltb_ℤ gy (pos 0) || leb_ℤ (pos f.rows) gy)))) [
        | inl outside ↦ (cell_dark, rw outside)
        | inr inside ↦
            let (c, e) = get_elem?-total f.cells (pos_part gy * f.cols + pos_part gx) (
              rw h (
                index_lt (pos_part gx) (pos_part gy) f.cols f.rows (ground (arith, inside))
                  (ground (arith, inside)))) in
            (c, rw inside e)
      ]

if_total :
    (t b : Bool) (o : Option Bool)
    → o ≡ some b
    → (r : Bool) × ((if t then some true else o) ≡ some r)
if_total true b o e = (true, refl)
if_total false b o e = (b, e)

row_has_clear-total :
    (f : PlayerFow) (n : ℕ) (gx gy : ℤ) → IsGrid f → (b : Bool) × (row_has_clear f n gx gy ≡ some b)
unfolding row_has_clear
row_has_clear-total f zero gx gy h = (false, refl)
row_has_clear-total f (suc n) gx gy h =
    let (c, e) = cell_at-total f gx gy h in
    let (b, e') = row_has_clear-total f n (gx +ℤ pos 1) gy h in
    rw e (if_total (c == cell_clear) b _ e')

rows_have_clear-total :
    (f : PlayerFow) (w n : ℕ) (gx gy : ℤ)
    → IsGrid f
    → (b : Bool) × (rows_have_clear f w n gx gy ≡ some b)
unfolding rows_have_clear
rows_have_clear-total f w zero gx gy h = (false, refl)
rows_have_clear-total f w (suc n) gx gy h =
    let (hit, e) = row_has_clear-total f w gx gy h in
    let (b, e') = rows_have_clear-total f w n gx (gy +ℤ pos 1) h in rw e (if_total hit b _ e')

any_footprint_clear-total :
    (f : PlayerFow) (b : Footprint) → IsGrid f → (r : Bool) × (any_footprint_clear f b ≡ some r)
unfolding any_footprint_clear
any_footprint_clear-total f b h = rows_have_clear-total f b.width b.height b.grid_x b.grid_y h

remember_lem :
    (F : Float64) (f : PlayerFow) (bs : List (Building F)) (known : Dict (Building F))
    → IsGrid f
    → (known' : Dict (Building F)) × (remember F f bs known ≡ some known')
      × ((k : String) → has_key k known ≡ true → has_key k known' ≡ true)
unfolding remember
remember_lem F f [] known h = (known, refl, λ k e. e)
remember_lem F f (b ∷ bs) known h =
    let (hit, e) = any_footprint_clear-total f b.footprint h in
    let (known', e', keep) = remember_lem F f bs (if hit then insert b.id b known else known) h in
    (known', rw e e', λ k old. keep k (kept k hit old))
  where
    kept :
        (k : String) (hit : Bool)
        → has_key k known ≡ true
        → has_key k (if hit then insert b.id b known else known) ≡ true
    kept k true old = ground (arith, lookup-insert b.id k b known)
    kept k false old = old

-- A cell that is clear or kept after the clear bits went is ever-seen if it was.
still_seen :
    (c : ℕ) (o : Option ℕ) {p : Option ℕ}
    → c % 2 ≡ 1
    → (o ≡ some cell_clear) ⊎ (o ≡ p)
    → p ≡ some (c % 2)
    → (d : ℕ) × (o ≡ some d) × (d % 2 ≡ 1)
still_seen c o odd (inl clear) e = (cell_clear, clear, refl)
still_seen c o odd (inr kept) e = (c % 2, kept ∙ e, omega arith)

module _ (F : Float64) (teams : Dict ℤ) (fows : Dict PlayerFow) (viewer : String) (size : F.Float)
    (blocking : ℤ → ℤ → Bool) (units : List (SightedUnit F)) (buildings : List (Building F)) where
  recompute : PlayerFow × Dict (Building F) → Option (PlayerFow × Dict (Building F))
  recompute = recompute_fow F teams fows viewer size blocking units buildings

  clear-IsGrid : (f : PlayerFow) → IsGrid f → IsGrid (clear_clear_bits f)
  unfolding clear_clear_bits
  clear-IsGrid f h = length-map _ f.cells ∙ h

  recompute_stages :
      (f : PlayerFow) (known : Dict (Building F))
      → IsGrid f
      → (g : PlayerFow) × (known' : Dict (Building F)) × (recompute (f, known) ≡ some (g, known'))
        × Brightens (clear_clear_bits f) g
        × ((k : String) → has_key k known ≡ true → has_key k known' ≡ true)
  unfolding recompute recompute_fow
  recompute_stages f known h =
      let f0 = clear_clear_bits f in
      let (f1, e1, b1) =
        stamp_units-Stage F teams fows viewer size blocking units f0 (clear-IsGrid f h) in
      let (f2, e2, b2) =
        stamp_buildings-Stage F teams fows viewer size blocking buildings f1
          (Brightens-IsGrid f0 f1 b1) in
      let (known', e3, keep) = remember_lem F f2 buildings known (Brightens-IsGrid f1 f2 b2) in
      (f2, known', rw e1 (rw e2 (rw e3)), Brightens-trans f0 f1 f2 b1 b2, keep)

  -- On a grid whose slice has its size, a tick's recomputation never reads or writes beyond the
  -- slice, and keeps the grid's size.
  pub recompute_fow-IsGrid :
      (f : PlayerFow) (known : Dict (Building F))
      → IsGrid f
      → (g : PlayerFow) × (known' : Dict (Building F)) × (recompute_fow F teams fows viewer size
            blocking units buildings
            (f, known)
          ≡ some (g, known'))
        × (g.cols ≡ f.cols)
        × (g.rows ≡ f.rows)
        × IsGrid g
  unfolding recompute clear_clear_bits
  recompute_fow-IsGrid f known h =
      let (g, known', e, b, keep) = recompute_stages f known h in
      (g, known', e, b.0, b.1, Brightens-IsGrid (clear_clear_bits f) g b)

  -- A cell that was ever seen is still ever-seen after a tick's recomputation, and a building that
  -- was known is still known.
  pub recompute_fow_remembers :
      (f g : PlayerFow) (known known' : Dict (Building F)) (x y c : ℕ) (id : String)
      → IsGrid f
      → recompute_fow F teams fows viewer size blocking units buildings (f, known)
        ≡ some (g, known')
      → x < f.cols
      → y < f.rows
      → at f.cols x y f.cells ≡ some c
      → c % 2 ≡ 1
      → has_key id known ≡ true
      → ((d : ℕ) × (at g.cols x y g.cells ≡ some d) × (d % 2 ≡ 1)) × (has_key id known' ≡ true)
  unfolding recompute clear_clear_bits
  recompute_fow_remembers f g known known' x y c id h e px py old odd k =
      let (g1, known1, e1, b, keep) = recompute_stages f known h in
      let same : g1 ≡ g = cc in
      let known_same : known1 ≡ known' = cc in
      (
        subst (λ r. (d : ℕ) × (at r.cols x y r.cells ≡ some d) × (d % 2 ≡ 1)) same
            (subst (λ n. (d : ℕ) × (at n x y g1.cells ≡ some d) × (d % 2 ≡ 1)) (sym b.0)
              (still_seen c (at f.cols x y g1.cells) odd (b.3 x y px py)
                (get_elem?-map (λ v. v % 2) f.cells (y * f.cols + x) c old))),
        subst (λ m. has_key id m ≡ true) known_same (keep id k),
      )
