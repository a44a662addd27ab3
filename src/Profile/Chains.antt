-- ===== src/Profile/Chains.antt =====
-- Advancements are bought along their tracks: none without the one before it, and none twice.
use web_rts_nomads.Base.{
  ◌≡◌, refl, String, Bool, true, false, some, List, [], ◌∷◌, ◌++◌, Dict, lookup, str_eq, ◌||◌,
  arith, Bool-cases, Option-cases, inl, inr, All, All-lookup, subst, sym, ◌∙◌, ap, str_eq_iff,
}
use web_rts_nomads.Profile.{PlayerProfile, AcquiredAdvancement, before}
use web_rts_nomads.Profile.Store.{accept}
use web_rts_nomads.Profile.Handlers.{
  UnitAdvancementNode, is_acquired, prerequisite_id, prerequisite_met, insert_by_id, sort_by_id,
  purchase_advancement,
}

-- Each entry's prerequisite is there too, and no advancement is there twice.
abbrev pub IsClosed : List (List UnitAdvancementNode) → List AcquiredAdvancement → Type 0
IsClosed tracks list = All (λ a. prerequisite_met (prerequisite_id a.id tracks) list ≡ true) list

abbrev pub IsOnce : List AcquiredAdvancement → Type 0
IsOnce [] = Unit
IsOnce (a ∷ list) = (is_acquired a.id list ≡ false) × IsOnce list

is_acquired-insert :
    (k : String) (a : AcquiredAdvancement) (l : List AcquiredAdvancement)
    → is_acquired k (insert_by_id a l) ≡ (str_eq a.id k || is_acquired k l)
unfolding insert_by_id
is_acquired-insert k a [] = refl
is_acquired-insert k a (b ∷ bs) = elim (Bool-cases (before a.id b.id)) [
  | inl first ↦ rw (insert_by_id, first) refl
  | inr later ↦ rw (insert_by_id, later) (ground (arith, is_acquired-insert k a bs))
]

is_acquired-sort :
    (k : String) (l : List AcquiredAdvancement) → is_acquired k (sort_by_id l) ≡ is_acquired k l
unfolding sort_by_id
is_acquired-sort k [] = refl
is_acquired-sort k (a ∷ l) =
    is_acquired-insert k a (sort_by_id l) ∙ ap (λ t. str_eq a.id k || t) (is_acquired-sort k l)

is_acquired-snoc :
    (k : String) (l : List AcquiredAdvancement) (a : AcquiredAdvancement)
    → is_acquired k (l ++ a ∷ []) ≡ (is_acquired k l || str_eq a.id k)
is_acquired-snoc k [] a = ground arith
is_acquired-snoc k (b ∷ l) a = ground (arith, is_acquired-snoc k l a)

All-insert_by_id :
    (P : AcquiredAdvancement → Type 0) (a : AcquiredAdvancement) (l : List AcquiredAdvancement)
    → P a
    → All P l
    → All P (insert_by_id a l)
unfolding insert_by_id
All-insert_by_id P a [] p ps = (p, tt)
All-insert_by_id P a (b ∷ bs) p ps = elim (Bool-cases (before a.id b.id)) [
  | inl first ↦ rw (insert_by_id, first) (p, ps)
  | inr later ↦ rw (insert_by_id, later) (ps.0, All-insert_by_id P a bs p ps.1)
]

All-sort_by_id :
    (P : AcquiredAdvancement → Type 0) (l : List AcquiredAdvancement)
    → All P l
    → All P (sort_by_id l)
unfolding sort_by_id
All-sort_by_id P [] ps = tt
All-sort_by_id P (a ∷ l) ps = All-insert_by_id P a (sort_by_id l) ps.0 (All-sort_by_id P l ps.1)

IsOnce-insert :
    (a : AcquiredAdvancement) (l : List AcquiredAdvancement)
    → is_acquired a.id l ≡ false
    → IsOnce l
    → IsOnce (insert_by_id a l)
unfolding insert_by_id
IsOnce-insert a [] n o = (refl, tt)
IsOnce-insert a (b ∷ bs) n o = elim (Bool-cases (before a.id b.id)) [
  | inl first ↦ rw (insert_by_id, first) (n, o)
  | inr later ↦
      rw (insert_by_id, later)
        (
          is_acquired-insert b.id a bs
              ∙ ground (arith, n, o.0, str_eq_iff a.id b.id, str_eq_iff b.id a.id),
          IsOnce-insert a bs (ground (arith, n)) o.1,
        )
]

IsOnce-sort : (l : List AcquiredAdvancement) → IsOnce l → IsOnce (sort_by_id l)
unfolding sort_by_id
IsOnce-sort [] o = tt
IsOnce-sort (a ∷ l) o =
    IsOnce-insert a (sort_by_id l) (is_acquired-sort a.id l ∙ o.0) (IsOnce-sort l o.1)

IsOnce-snoc :
    (l : List AcquiredAdvancement) (a : AcquiredAdvancement)
    → IsOnce l
    → is_acquired a.id l ≡ false
    → IsOnce (l ++ a ∷ [])
IsOnce-snoc [] a o n = (refl, tt)
IsOnce-snoc (b ∷ l) a o n = (
  is_acquired-snoc b.id l a ∙ ground (arith, n, o.0, str_eq_iff a.id b.id, str_eq_iff b.id a.id),
  IsOnce-snoc l a o.1 (ground (arith, n)),
)

-- An entry more takes no prerequisite away.
met_still :
    (pre : String) (l : List AcquiredAdvancement) (a : AcquiredAdvancement)
    → prerequisite_met pre l ≡ true
    → prerequisite_met pre (sort_by_id (l ++ a ∷ [])) ≡ true
met_still pre l a h =
    ground (arith, h, is_acquired-sort pre (l ++ a ∷ []), is_acquired-snoc pre l a)

All-met_still :
    (tracks : List (List UnitAdvancementNode)) (l rest : List AcquiredAdvancement)
    (a : AcquiredAdvancement)
    → All (λ b. prerequisite_met (prerequisite_id b.id tracks) l ≡ true) rest
    → prerequisite_met (prerequisite_id a.id tracks) l ≡ true
    → All
        (λ b. prerequisite_met (prerequisite_id b.id tracks) (sort_by_id (l ++ a ∷ [])) ≡ true)
        (rest ++ a ∷ [])
All-met_still tracks l [] a h p = (met_still (prerequisite_id a.id tracks) l a p, tt)
All-met_still tracks l (b ∷ rest) a h p =
    (met_still (prerequisite_id b.id tracks) l a h.0, All-met_still tracks l rest a h.1 p)

purchase_advancement-finds :
    (catalog : Dict UnitAdvancementNode) (tracks : List (List UnitAdvancementNode))
    (in_match : Bool) (id : String) (p q : PlayerProfile) (node : UnitAdvancementNode)
    → purchase_advancement catalog tracks in_match id p ≡ accept q
    → lookup id catalog ≡ some node
    → (is_acquired id p.acquired_advancements ≡ false)
      × (prerequisite_met (prerequisite_id id tracks) p.acquired_advancements ≡ true)
      × (q.acquired_advancements
          ≡ sort_by_id
              (p.acquired_advancements ++ record { id = node.id; cost_paid = node.cost } ∷ []))
unfolding purchase_advancement
purchase_advancement-finds catalog tracks in_match id p q node e there = ground (arith, there)

-- With a catalog keyed by ids, buying an advancement keeps the acquired ones closed under
-- prerequisites and without repetition.
pub purchase_advancement-IsClosed :
    (catalog : Dict UnitAdvancementNode) (tracks : List (List UnitAdvancementNode))
    (in_match : Bool) (id : String) (p q : PlayerProfile)
    → All (λ e. e.0 ≡ e.1.id) catalog
    → IsClosed tracks p.acquired_advancements
    → IsOnce p.acquired_advancements
    → purchase_advancement catalog tracks in_match id p ≡ accept q
    → IsClosed tracks q.acquired_advancements × IsOnce q.acquired_advancements
unfolding purchase_advancement
purchase_advancement-IsClosed catalog tracks in_match id p q keyed closed once e =
    elim (Option-cases (lookup id catalog)) [
      | inl n ↦ absurd (ground (arith, n))
      | inr (node, there) ↦
          let (new, met, list) =
            purchase_advancement-finds catalog tracks in_match id p q node e there in
          let same : id ≡ node.id = All-lookup (λ e. e.0 ≡ e.1.id) id node catalog keyed there in
          let l = p.acquired_advancements in
          let a : AcquiredAdvancement = record { id = node.id; cost_paid = node.cost } in
          let met_here =
            subst (λ i. prerequisite_met (prerequisite_id i tracks) l ≡ true) same met in
          let new_here = subst (λ i. is_acquired i l ≡ false) same new in
          subst (λ t. IsClosed tracks t × IsOnce t) (sym list)
            (
              All-sort_by_id
                  (λ b.
                    prerequisite_met (prerequisite_id b.id tracks) (sort_by_id (l ++ a ∷ []))
                    ≡ true)
                  (l ++ a ∷ []) (All-met_still tracks l l a closed met_here),
              IsOnce-sort (l ++ a ∷ []) (IsOnce-snoc l a once new_here),
            )
    ]
