-- ===== src/Profile/Ledger.antt =====
-- Legend points: what is spent can be had back, and what is not spent stays.
use web_rts_nomads.Base.{
  ◌≡◌, refl, String, Bool, false, some, List, [], ◌∷◌, ◌++◌, Dict, lookup, insert, arith,
  Bool-cases, Option-cases, inl, inr, ap, ◌∙◌, subst,
}
use web_rts_nomads.Base.Int.{
  ℤ, pos, negsuc, ltb_ℤ, leb_ℤ, ◌+ℤ◌, ◌-ℤ◌, +ℤ_parts, -ℤ_parts, eq_of_parts, +ℤ_assoc, +ℤ_swap,
  sub-add, add-sub,
}
use web_rts_nomads.World.{amount}
use web_rts_nomads.World.Updates.{amount-insert}
use web_rts_nomads.Profile.{PlayerProfile, AcquiredAdvancement, before}
use web_rts_nomads.Profile.Store.{accept}
use web_rts_nomads.Profile.Handlers.{
  ProfileUpgradeDef, UnitAdvancementNode, index, purchase_upgrade, refund_upgrade, refund_each,
  refund_stale_advancement_costs, insert_by_id, sort_by_id, purchase_advancement,
}

abbrev pub paid_total : List AcquiredAdvancement → ℤ
paid_total [] = pos 0
paid_total (a ∷ rest) = a.cost_paid +ℤ paid_total rest

-- The points a profile has and those its advancements were paid with.
abbrev pub worth : PlayerProfile → ℤ
worth p = p.legend_points +ℤ paid_total p.acquired_advancements

-- Of `c` points paid, all but `k` given back.
give_back : (p c k t : ℤ) → k +ℤ ((p +ℤ (c -ℤ k)) +ℤ t) ≡ p +ℤ (c +ℤ t)
give_back p c k t = eq_of_parts _ _ (
    omega (
      arith,
      +ℤ_parts k ((p +ℤ (c -ℤ k)) +ℤ t),
      +ℤ_parts (p +ℤ (c -ℤ k)) t,
      +ℤ_parts p (c -ℤ k),
      -ℤ_parts c k,
      +ℤ_parts p (c +ℤ t),
      +ℤ_parts c t,
    ))

spend : (p c t : ℤ) → (p -ℤ c) +ℤ (c +ℤ t) ≡ p +ℤ t
spend p c t =
    eq_of_parts _ _
      (omega (arith, +ℤ_parts (p -ℤ c) (c +ℤ t), -ℤ_parts p c, +ℤ_parts c t, +ℤ_parts p t))

refund_each-worth :
    (catalog : Dict UnitAdvancementNode) (points : ℤ) (list : List AcquiredAdvancement)
    → (refund_each catalog points list).1 +ℤ paid_total (refund_each catalog points list).2
      ≡ points +ℤ paid_total list
unfolding refund_each
refund_each-worth catalog points [] = refl
refund_each-worth catalog points (a ∷ rest) = elim (Option-cases (lookup a.id catalog)) [
  | inl gone ↦
      rw (refund_each, gone)
        (refund_each-worth catalog (points +ℤ a.cost_paid) rest
          ∙ +ℤ_assoc points a.cost_paid (paid_total rest))
  | inr (node, there) ↦ elim (Bool-cases (ltb_ℤ node.cost a.cost_paid)) [
    | inl cheaper ↦
        let k = node.cost in
        let r = refund_each catalog (points +ℤ (a.cost_paid -ℤ k)) rest in
        rw (refund_each, there, cheaper)
          (+ℤ_swap r.1 k (paid_total r.2)
            ∙ ap (λ t. k +ℤ t) (refund_each-worth catalog (points +ℤ (a.cost_paid -ℤ k)) rest)
            ∙ give_back points a.cost_paid k (paid_total rest))
    | inr same ↦
        let r = refund_each catalog points rest in
        rw (refund_each, there, same)
          (+ℤ_swap r.1 a.cost_paid (paid_total r.2)
            ∙ ap (λ t. a.cost_paid +ℤ t) (refund_each-worth catalog points rest)
            ∙ +ℤ_swap a.cost_paid points (paid_total rest))
  ]
]

-- Refunding stale costs keeps the sum of a profile's points and of what its advancements are
-- counted as paid.
pub refund_stale-worth :
    (catalog : Dict UnitAdvancementNode) (p : PlayerProfile)
    → worth (refund_stale_advancement_costs catalog p).1 ≡ worth p
unfolding refund_stale_advancement_costs
refund_stale-worth catalog p = refund_each-worth catalog p.legend_points p.acquired_advancements

refund_each-settled :
    (catalog : Dict UnitAdvancementNode) (points again : ℤ) (list : List AcquiredAdvancement)
    → refund_each catalog again (refund_each catalog points list).2
      ≡ (false, again, (refund_each catalog points list).2)
unfolding refund_each
refund_each-settled catalog points again [] = refl
refund_each-settled catalog points again (a ∷ rest) = elim (Option-cases (lookup a.id catalog)) [
  | inl gone ↦
      rw (refund_each, gone) (refund_each-settled catalog (points +ℤ a.cost_paid) again rest)
  | inr (node, there) ↦ elim (Bool-cases (ltb_ℤ node.cost a.cost_paid)) [
    | inl cheaper ↦
        let equal : ltb_ℤ node.cost node.cost ≡ false = ground arith in
        rw
          (
            refund_each,
            there,
            cheaper,
            there,
            equal,
            refund_each-settled catalog (points +ℤ (a.cost_paid -ℤ node.cost)) again rest,
          )
          refl
    | inr same ↦
        rw (refund_each, there, same, there, same, refund_each-settled catalog points again rest)
          refl
  ]
]

-- A profile that was refunded once is not refunded again: the second run reports no change and
-- makes none.
refund_stale-settled :
    (catalog : Dict UnitAdvancementNode) (p : PlayerProfile)
    → refund_stale_advancement_costs catalog (refund_stale_advancement_costs catalog p).1
      ≡ (false, (refund_stale_advancement_costs catalog p).1)
unfolding refund_stale_advancement_costs
refund_stale-settled catalog p =
    rw
      (refund_each-settled catalog p.legend_points
        (refund_each catalog p.legend_points p.acquired_advancements).1 p.acquired_advancements)
      refl

insert_by_id-paid :
    (a : AcquiredAdvancement) (l : List AcquiredAdvancement)
    → paid_total (insert_by_id a l) ≡ a.cost_paid +ℤ paid_total l
unfolding insert_by_id
insert_by_id-paid a [] = refl
insert_by_id-paid a (b ∷ bs) = elim (Bool-cases (before a.id b.id)) [
  | inl first ↦ rw (insert_by_id, first) refl
  | inr later ↦
      rw (insert_by_id, later)
        (ap (λ t. b.cost_paid +ℤ t) (insert_by_id-paid a bs)
          ∙ +ℤ_swap b.cost_paid a.cost_paid (paid_total bs))
]

sort_by_id-paid : (l : List AcquiredAdvancement) → paid_total (sort_by_id l) ≡ paid_total l
unfolding sort_by_id
sort_by_id-paid [] = refl
sort_by_id-paid (a ∷ l) =
    insert_by_id-paid a (sort_by_id l) ∙ ap (λ t. a.cost_paid +ℤ t) (sort_by_id-paid l)

snoc-paid :
    (l : List AcquiredAdvancement) (a : AcquiredAdvancement)
    → paid_total (l ++ a ∷ []) ≡ a.cost_paid +ℤ paid_total l
snoc-paid [] a = refl
snoc-paid (b ∷ l) a =
    ap (λ t. b.cost_paid +ℤ t) (snoc-paid l a) ∙ +ℤ_swap b.cost_paid a.cost_paid (paid_total l)

-- Buying an advancement turns points into an entry of the same worth.
purchase_advancement-worth :
    (catalog : Dict UnitAdvancementNode) (tracks : List (List UnitAdvancementNode))
    (in_match : Bool) (id : String) (p q : PlayerProfile)
    → purchase_advancement catalog tracks in_match id p ≡ accept q
    → worth q ≡ worth p
unfolding purchase_advancement
purchase_advancement-worth catalog tracks in_match id p q e =
    elim (Option-cases (lookup id catalog)) [
      | inl n ↦ absurd (ground (arith, n))
      | inr (node, there) ↦
          let bought : PlayerProfile = record p {
            legend_points = p.legend_points -ℤ node.cost;
            acquired_advancements =
                sort_by_id
                  (p.acquired_advancements ++ record { id = node.id; cost_paid = node.cost } ∷ []);
          } in
          let same : bought ≡ q = ground (arith, there) in
          let entry : AcquiredAdvancement = record { id = node.id; cost_paid = node.cost } in
          subst (λ t. worth t ≡ worth p) same
            (ap (λ t. (p.legend_points -ℤ node.cost) +ℤ t)
                (sort_by_id-paid (p.acquired_advancements ++ entry ∷ [])
                  ∙ snoc-paid p.acquired_advancements entry)
              ∙ spend p.legend_points node.cost (paid_total p.acquired_advancements))
    ]

index-positive : (xs : List ℤ) (z c : ℤ) → index xs z ≡ some c → leb_ℤ (z +ℤ pos 1) (pos 0) ≡ false
unfolding ◌+ℤ◌
index-positive xs (pos n) c e = ground arith
index-positive xs (negsuc n) c e = absurd (cc e)

-- The rank and the points after a purchase that was accepted.
purchase_upgrade-finds :
    (catalog : Dict ProfileUpgradeDef) (id : String) (p q : PlayerProfile) (d : ProfileUpgradeDef)
    (cost : ℤ)
    → purchase_upgrade catalog id p ≡ accept q
    → lookup id catalog ≡ some d
    → index d.cost_per_rank (amount id p.owned_upgrade_ranks) ≡ some cost
    → (q.legend_points ≡ p.legend_points -ℤ cost)
      × (q.owned_upgrade_ranks
          ≡ insert id (amount id p.owned_upgrade_ranks +ℤ pos 1) p.owned_upgrade_ranks)
unfolding purchase_upgrade
purchase_upgrade-finds catalog id p q d cost e there price = ground (arith, there, price)

refund_upgrade-gives :
    (catalog : Dict ProfileUpgradeDef) (id : String) (q : PlayerProfile) (d : ProfileUpgradeDef)
    (rank cost : ℤ)
    → lookup id catalog ≡ some d
    → amount id q.owned_upgrade_ranks ≡ rank +ℤ pos 1
    → index d.cost_per_rank rank ≡ some cost
    → (r : PlayerProfile) × (refund_upgrade catalog id q ≡ accept r)
      × (r.legend_points ≡ q.legend_points +ℤ cost)
      × (amount id r.owned_upgrade_ranks ≡ rank)
unfolding refund_upgrade
refund_upgrade-gives catalog id q d rank cost there owned price =
    rw
      (
        refund_upgrade,
        there,
        owned,
        index-positive d.cost_per_rank rank cost price,
        add-sub rank (pos 1),
        price,
      )
      (
        _,
        refl,
        refl,
        amount-insert id (amount id q.owned_upgrade_ranks -ℤ pos 1) q.owned_upgrade_ranks
            ∙ ap (λ t. t -ℤ pos 1) owned
            ∙ add-sub rank (pos 1),
      )

-- A rank that was bought can be given back: the refund is accepted, and the points and the rank are
-- as before the purchase.
pub refund_upgrade-purchase_upgrade :
    (catalog : Dict ProfileUpgradeDef) (id : String) (p q : PlayerProfile)
    → purchase_upgrade catalog id p ≡ accept q
    → (r : PlayerProfile) × (refund_upgrade catalog id q ≡ accept r)
      × (r.legend_points ≡ p.legend_points)
      × (amount id r.owned_upgrade_ranks ≡ amount id p.owned_upgrade_ranks)
unfolding purchase_upgrade
refund_upgrade-purchase_upgrade catalog id p q e = elim (Option-cases (lookup id catalog)) [
  | inl n ↦ absurd (ground (arith, n))
  | inr (d, there) ↦ elim (Option-cases (index d.cost_per_rank (amount id p.owned_upgrade_ranks))) [
    | inl n ↦ absurd (ground (arith, there, n))
    | inr (cost, price) ↦
        let rank = amount id p.owned_upgrade_ranks in
        let (points, ranks) = purchase_upgrade-finds catalog id p q d cost e there price in
        let owned = ap (amount id) ranks ∙ amount-insert id (rank +ℤ pos 1) p.owned_upgrade_ranks in
        let (r, done, back, same) =
          refund_upgrade-gives catalog id q d rank cost there owned price in
        (r, done, back ∙ ap (λ t. t +ℤ cost) points ∙ sub-add p.legend_points cost, same)
  ]
]
