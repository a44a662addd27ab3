-- ===== src/World/Updates.antt =====
-- Writing through a found pointer: what a lookup and a total over all units see afterwards.
use web_rts_nomads.Base.{
  ℕ, String, ◌+◌, ◌≡◌, some, List, [], ◌∷◌, ◌==◌, if◌then◌else◌, arith, str_eq, str_eq_iff,
  Bool-cases, true, false, inl, inr,
}
use web_rts_nomads.Base.{Dict, insert, lookup-insert, str_eq_refl}
use web_rts_nomads.Base.Int.{ℤ}
use web_rts_nomads.World.{
  amount, GameUnit, BuildingTile, find_unit, put_unit, find_building, put_building,
}

pub total_units : (GameUnit → ℕ) → List GameUnit → ℕ
total_units f [] = 0
total_units f (u ∷ us) = f u + total_units f us

pub find_unit-id :
    (id : ℕ) (us : List GameUnit) {u : GameUnit} → find_unit id us ≡ some u → u.id ≡ id
unfolding find_unit
find_unit-id id [] e = cc
find_unit-id id (x ∷ xs) {u = u} e = ground (arith, find_unit-id id xs {u = u})

-- A total changes by what the written unit's share changes.
pub total-put_unit :
    (f : GameUnit → ℕ) (id : ℕ) (v : GameUnit) (us : List GameUnit) {u : GameUnit}
    → find_unit id us ≡ some u
    → v.id ≡ id
    → total_units f (put_unit v us) + f u ≡ total_units f us + f v
unfolding total_units find_unit put_unit
total-put_unit f id v [] e same = cc
total-put_unit f id v (x ∷ xs) {u = u} e same = elim (Bool-cases (x.id == id)) [
  | inl hit ↦
      let first : x ≡ u = ground (arith, hit) in
      let write : (x.id == v.id) ≡ true = ground (arith, hit, same) in
      rw write (rw first (omega arith))
  | inr miss ↦
      let later : find_unit id xs ≡ some u = ground (arith, miss) in
      let skip : (x.id == v.id) ≡ false = ground (arith, miss, same) in
      rw skip (omega (arith, total-put_unit f id v xs {u = u} later same))
]

pub find-put_unit :
    (id k : ℕ) (v : GameUnit) (us : List GameUnit) {u : GameUnit}
    → find_unit id us ≡ some u
    → v.id ≡ id
    → find_unit k (put_unit v us) ≡ (if id == k then some v else find_unit k us)
unfolding find_unit put_unit
find-put_unit id k v [] e same = cc
find-put_unit id k v (x ∷ xs) {u = u} e same = elim (Bool-cases (x.id == id)) [
  | inl hit ↦
      let write : (x.id == v.id) ≡ true = ground (arith, hit, same) in
      rw write (ground (arith, hit, same))
  | inr miss ↦
      let later : find_unit id xs ≡ some u = ground (arith, miss) in
      let skip : (x.id == v.id) ≡ false = ground (arith, miss, same) in
      rw skip (ground (arith, miss, find-put_unit id k v xs {u = u} later same))
]

pub find_building-id :
    (id : String) (bs : List BuildingTile) {b : BuildingTile}
    → find_building id bs ≡ some b
    → b.id ≡ id
unfolding find_building
find_building-id id [] e = cc
find_building-id id (x ∷ xs) {b = b} e = elim (Bool-cases (str_eq x.id id)) [
  | inl hit ↦ ground (arith, hit, str_eq_iff x.id id)
  | inr miss ↦ find_building-id id xs {b = b} (ground (arith, miss))
]

pub find-put_building :
    (id : String) (v : BuildingTile) (bs : List BuildingTile) {b : BuildingTile}
    → find_building id bs ≡ some b
    → v.id ≡ id
    → find_building id (put_building v bs) ≡ some v
unfolding find_building put_building
find-put_building id v [] e same = cc
find-put_building id v (x ∷ xs) {b = b} e same = elim (Bool-cases (str_eq x.id id)) [
  | inl hit ↦
      let write : str_eq x.id v.id ≡ true = ground (arith, hit, same) in
      rw write (ground (arith, same, str_eq_iff v.id id))
  | inr miss ↦
      let skip : str_eq x.id v.id ≡ false = ground (arith, miss, same) in
      rw skip (rw miss (find-put_building id v xs {b = b} (ground (arith, miss)) same))
]

pub amount-insert : (k : String) (n : ℤ) (m : Dict ℤ) → amount k (insert k n m) ≡ n
amount-insert k n m = ground (arith, lookup-insert k k n m, str_eq_refl k)
