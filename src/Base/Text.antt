-- ===== src/Base/Text.antt =====
-- Identifiers are texts that the code only compares; maps keyed by them are association lists.
use mathlib.Core.Path.{◌≡◌, refl}
use mathlib.Core.Logic.{◌≢◌, inl, inr}
use mathlib.Core.Bool.{Bool, true, false, ◌||◌}
use mathlib.Core.Option.{Option, none, some}
use mathlib.Core.List.{List, [], ◌∷◌, ◌++◌}
use Prim.Native.String.{String}
use text.Mathlib.Text.{◌==◌}
use text.Mathlib.TextEquality.{eq_iff}
use text.Mathlib.TextPositions.{eq_refl}
use native.Mathlib.Omega.{arith}
use web_rts_nomads.Base.Tests.{if◌then◌else◌, Bool-cases}
use web_rts_nomads.Base.Lists.{All}

abbrev pub str_eq : String → String → Bool
str_eq s t = s == t

pub str_eq→eq : (s t : String) → str_eq s t ≡ true → s ≡ t
str_eq→eq s t = (eq_iff s t).0

pub eq→str_eq : (s t : String) → s ≡ t → str_eq s t ≡ true
eq→str_eq s t = (eq_iff s t).1

pub str_eq_refl : (s : String) → str_eq s s ≡ true
str_eq_refl = eq_refl

pub str_ne : (s t : String) → str_eq s t ≡ false → s ≢ t
str_ne s t e q = cc (eq→str_eq s t q)

pub str_eq_iff : (s t : String) → (str_eq s t ≡ true → s ≡ t) × (s ≡ t → str_eq s t ≡ true)
str_eq_iff = eq_iff

-- A Go `map[string]V`. A missing key is `none`; the list order is an iteration order.
abbrev pub Dict {ℓ} : Type ℓ → Type ℓ
Dict V = List (String × V)

module _ {ℓ} {V : Type ℓ} where
  abbrev pub lookup : String → Dict V → Option V
  lookup k [] = none
  lookup k ((j, v) ∷ m) = if str_eq j k then some v else lookup k m

  -- `m[k] = v`.
  abbrev pub insert : String → V → Dict V → Dict V
  insert k v [] = (k, v) ∷ []
  insert k v ((j, w) ∷ m) = if str_eq j k then (j, v) ∷ m else (j, w) ∷ insert k v m

  -- `delete(m, k)`.
  abbrev pub delete : String → Dict V → Dict V
  delete k [] = []
  delete k ((j, w) ∷ m) = if str_eq j k then delete k m else (j, w) ∷ delete k m

  pub lookup-insert :
      (k j : String) (v : V) (m : Dict V)
      → lookup j (insert k v m) ≡ (if str_eq k j then some v else lookup j m)
  lookup-insert k j v [] = refl
  lookup-insert k j v ((i, w) ∷ m) =
      ground (arith, eq_iff k j, eq_iff i k, eq_iff i j, lookup-insert k j v m)

  pub lookup-delete :
      (k j : String) (m : Dict V)
      → lookup j (delete k m) ≡ (if str_eq k j then none else lookup j m)
  lookup-delete k j [] = ground arith
  lookup-delete k j ((i, w) ∷ m) =
      ground (arith, eq_iff k j, eq_iff i k, eq_iff i j, lookup-delete k j m)

  -- What holds of every entry holds of the one that is found.
  pub All-lookup {κ} :
      (P : String × V → Type κ) (k : String) (v : V) (m : Dict V)
      → All P m
      → lookup k m ≡ some v
      → P (k, v)
  All-lookup P k v ((j, w) ∷ m) h e = elim (Bool-cases (str_eq j k)) [
    | inl hit ↦ ground (arith, str_eq→eq j k hit, h.0)
    | inr miss ↦ All-lookup P k v m h.1 (rw miss at e)
  ]
  All-lookup P k v [] h e = cc

  pub All-insert {κ} :
      (P : String × V → Type κ) (k : String) (v : V) (m : Dict V)
      → All P m
      → P (k, v)
      → All P (insert k v m)
  All-insert P k v [] h p = (p, h)
  All-insert P k v ((j, w) ∷ m) h p = elim (Bool-cases (str_eq j k)) [
    | inl hit ↦ rw hit (rw (str_eq→eq j k hit) p, h.1)
    | inr miss ↦ rw miss (h.0, All-insert P k v m h.1 p)
  ]

-- No key stands twice, as in a Go map.
abbrev pub Unique {ℓ} : {V : Type ℓ} → Dict V → Type ℓ
Unique [] = Unit
Unique ((k, v) ∷ m) = (lookup k m ≡ none) × Unique m

module _ {ℓ} {V : Type ℓ} where
  pub Unique-insert : (k : String) (v : V) (m : Dict V) → Unique m → Unique (insert k v m)
  Unique-insert k v [] u = (refl, u)
  Unique-insert k v ((j, w) ∷ m) u = elim (Bool-cases (str_eq j k)) [
    | inl hit ↦ rw hit u
    | inr miss ↦
        rw miss
          (ground (arith, lookup-insert k j v m, eq_iff k j, eq_iff j k), Unique-insert k v m u.1)
  ]

-- `m[k] = v` or `delete(m, k)`.
module _ {ℓ} {V : Type ℓ} where
  unfoldable pub store : String → Option V → Dict V → Dict V
  store k none m = delete k m
  store k (some v) m = insert k v m

  pub lookup-store :
      (k j : String) (o : Option V) (m : Dict V)
      → lookup j (store k o m) ≡ (if str_eq k j then o else lookup j m)
  unfolding store
  lookup-store k j none m = lookup-delete k j m
  lookup-store k j (some v) m = lookup-insert k j v m

abbrev pub contains : List String → String → Bool
contains [] a = false
contains (x ∷ xs) a = str_eq x a || contains xs a

-- No text stands twice.
abbrev pub IsDistinct : List String → Type 0
IsDistinct [] = Unit
IsDistinct (x ∷ xs) = (contains xs x ≡ false) × IsDistinct xs

pub contains-snoc :
    (xs : List String) (x y : String) → contains (xs ++ x ∷ []) y ≡ (contains xs y || str_eq x y)
contains-snoc [] x y = ground arith
contains-snoc (z ∷ zs) x y = ground (arith, contains-snoc zs x y)

pub IsDistinct-snoc :
    (xs : List String) (x : String)
    → IsDistinct xs
    → contains xs x ≡ false
    → IsDistinct (xs ++ x ∷ [])
IsDistinct-snoc [] x d n = (refl, tt)
IsDistinct-snoc (y ∷ ys) x d n = (
  ground (arith, contains-snoc ys x y, str_eq_iff x y, str_eq_iff y x, n, d.0),
  IsDistinct-snoc ys x d.1 (ground (arith, n)),
)
