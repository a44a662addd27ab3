-- ===== src/Training/Production/Counts.antt =====
-- The countdown of a tick, and consuming an order, as lookups see them.
use web_rts_nomads.Base.{
  ◌≡◌, refl, ap, ◌∙◌, subst, String, Bool, Bool-cases, false, Option, none, some, List, [], ◌∷◌,
  Dict, lookup, insert, delete, lookup-insert, lookup-delete, str_eq, str_eq_refl, str_eq→eq,
  Unique, contains, IsDistinct, arith, inl, inr,
}
use web_rts_nomads.Base.Float.{Float64}
use web_rts_nomads.Training.{UnitProduction, queue_of, consume_production_queue_item}
use web_rts_nomads.Training.Production.{counted_queue, finished, count_down}

module _ {Seconds : Type 0} where
  -- The orders that a lookup finds; a missing queue is empty.
  abbrev pub orders_in : Option (List (UnitProduction Seconds)) → List (UnitProduction Seconds)
  orders_in none = []
  orders_in (some q) = q

  pub lookup-consume :
      (id j : String) (m : Dict (List (UnitProduction Seconds)))
      → str_eq id j ≡ false
      → lookup j (consume_production_queue_item id m) ≡ lookup j m
  unfolding consume_production_queue_item
  lookup-consume id j m other = go (queue_of id m)
    where
      go :
          (q : List (UnitProduction Seconds))
          → lookup j (elim q [
            | [] ↦ delete id m
            | x ∷ rest ↦ elim rest [ [] ↦ delete id m | y ∷ more ↦ insert id (y ∷ more) m ]
          ])
            ≡ lookup j m
      go [] = ground (arith, lookup-delete id j m, other)
      go (x ∷ []) = ground (arith, lookup-delete id j m, other)
      go (x ∷ y ∷ more) = ground (arith, lookup-insert id j (y ∷ more) m, other)

  pub queue_of-consume :
      (id : String) (x : UnitProduction Seconds) (q : List (UnitProduction Seconds))
      (m : Dict (List (UnitProduction Seconds)))
      → queue_of id m ≡ x ∷ q
      → queue_of id (consume_production_queue_item id m) ≡ q
  unfolding consume_production_queue_item
  queue_of-consume id x [] m e =
      rw (consume_production_queue_item, e) (ground (arith, lookup-delete id id m, str_eq_refl id))
  queue_of-consume id x (y ∷ q) m e =
      rw (consume_production_queue_item, e)
        (ground (arith, lookup-insert id id (y ∷ q) m, str_eq_refl id))

module _ (F : Float64) (max_float : F.Float → F.Float → F.Float) where
  open F use {Float, minus, at_most, of_int}

  abbrev count :
      Float → Dict (List (UnitProduction Float)) → Dict (List (UnitProduction Float)) × List String
  count = count_down F max_float

  pub queue_of-count_down :
      (dt : Float) (j : String) (m : Dict (List (UnitProduction Float)))
      → queue_of j (count dt m).0 ≡ counted_queue F max_float dt (queue_of j m)
  unfolding count_down
  queue_of-count_down dt j [] = refl
  queue_of-count_down dt j ((k, q) ∷ m) = elim (Bool-cases (str_eq k j)) [
    | inl same ↦ rw (queue_of, same) refl
    | inr other ↦ rw (queue_of, other) (queue_of-count_down dt j m)
  ]

  abbrev pub marked : Float → Option (List (UnitProduction Float)) → Bool
  marked dt none = false
  marked dt (some q) = finished F max_float dt q

  -- The completed buildings are those whose queue is empty or whose first order is ready.
  pub contains-count_down :
      (dt : Float) (j : String) (m : Dict (List (UnitProduction Float)))
      → Unique m
      → contains (count dt m).1 j ≡ marked dt (lookup j m)
  unfolding count_down
  contains-count_down dt j [] u = refl
  contains-count_down dt j ((k, q) ∷ m) u = elim (Bool-cases (str_eq k j)) [
    | inl same ↦
        let later : contains (count dt m).1 j ≡ false =
          contains-count_down dt j m u.1
          ∙ ap (marked dt) (subst (λ i. lookup i m ≡ none) (str_eq→eq k j same) u.0) in
        elim (Bool-cases (finished F max_float dt q)) [
          | inl ready ↦ rw (same, ready, same) refl
          | inr early ↦ rw (same, early) later
        ]
    | inr other ↦ elim (Bool-cases (finished F max_float dt q)) [
      | inl ready ↦ rw (other, ready, other) (contains-count_down dt j m u.1)
      | inr early ↦ rw (other, early) (contains-count_down dt j m u.1)
    ]
  ]

  pub IsDistinct-count_down :
      (dt : Float) (m : Dict (List (UnitProduction Float))) → Unique m → IsDistinct (count dt m).1
  unfolding count_down
  IsDistinct-count_down dt [] u = tt
  IsDistinct-count_down dt ((k, q) ∷ m) u =
      let later = IsDistinct-count_down dt m u.1 in
      elim (Bool-cases (finished F max_float dt q)) [
        | inl ready ↦ rw ready (contains-count_down dt k m u.1 ∙ ap (marked dt) u.0, later)
        | inr early ↦ rw early later
      ]
