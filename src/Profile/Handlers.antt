-- ===== src/Profile/Handlers.antt =====
-- The updates that the profile routes run under the player's lock (server/internal/http/
-- profile_handlers.go, advancement_handlers.go) and `CommitLegendPoints` (profile/manager.go). The
-- catalogs are arguments; methods, headers and bodies of the requests are not modelled.
use web_rts_nomads.Base.{
  String, Bool, true, false, Option, none, some, List, [], ◌∷◌, ◌++◌, Dict, lookup, insert, str_eq,
  if◌then◌else◌, get_elem?, contains, map, not, ◌&&◌,
}
use web_rts_nomads.Base.Int.{ℤ, pos, negsuc, ltb_ℤ, leb_ℤ, ◌+ℤ◌, ◌-ℤ◌}
use web_rts_nomads.World.{amount}
use web_rts_nomads.Profile.{
  PlayerProfile, AcquiredAdvancement, add_to_sorted_set, remove_from_sorted_set, before,
}
use web_rts_nomads.Profile.Store.{Reply}

-- The error codes of the responses. `index_panic` is Go's panic on an index out of range.
pub data Refusal : Type 0 where
  unknown_upgrade : Refusal
  max_rank_reached : Refusal
  insufficient_legend_points : Refusal
  not_owned : Refusal
  invalid_amount : Refusal
  missing_advancement_id : Refusal
  unknown_advancement : Refusal
  player_in_match : Refusal
  already_acquired : Refusal
  prerequisite_not_acquired : Refusal
  index_panic : Refusal

pub record ProfileUpgradeDef : Type 0 where
  pub max_ranks : ℤ
  pub cost_per_rank : List ℤ

pub record UnitAdvancementNode : Type 0 where
  pub id : String
  pub cost : ℤ

-- `xs[i]` of a Go slice.
abbrev pub index : List ℤ → ℤ → Option ℤ
index xs (pos i) = get_elem? xs i
index xs (negsuc i) = none

unfoldable pub purchase_upgrade : Dict ProfileUpgradeDef → String → PlayerProfile → Reply Refusal
purchase_upgrade catalog id p = elim (lookup id catalog) [
  | none ↦ Reply.reject unknown_upgrade
  | some d ↦
      let rank = amount id p.owned_upgrade_ranks in
      if leb_ℤ d.max_ranks rank
      then Reply.reject max_rank_reached
      else elim (index d.cost_per_rank rank) [
        | none ↦ Reply.reject index_panic
        | some cost ↦
            if ltb_ℤ p.legend_points cost
            then Reply.reject insufficient_legend_points
            else Reply.accept (record p {
              legend_points = p.legend_points -ℤ cost;
              owned_upgrade_ranks = insert id (rank +ℤ pos 1) p.owned_upgrade_ranks;
              active_upgrade_ids =
                  if leb_ℤ rank (pos 0) && leb_ℤ (pos 0) rank
                  then add_to_sorted_set p.active_upgrade_ids id
                  else p.active_upgrade_ids;
            })
      ]
]

unfoldable pub refund_upgrade : Dict ProfileUpgradeDef → String → PlayerProfile → Reply Refusal
refund_upgrade catalog id p = elim (lookup id catalog) [
  | none ↦ Reply.reject unknown_upgrade
  | some d ↦
      let rank = amount id p.owned_upgrade_ranks in
      if leb_ℤ rank (pos 0)
      then Reply.reject not_owned
      else elim (index d.cost_per_rank (rank -ℤ pos 1)) [
        | none ↦ Reply.reject index_panic
        | some cost ↦ Reply.accept (record p {
          legend_points = p.legend_points +ℤ cost;
          owned_upgrade_ranks = insert id (rank -ℤ pos 1) p.owned_upgrade_ranks;
          active_upgrade_ids =
              if leb_ℤ rank (pos 1)
              then remove_from_sorted_set p.active_upgrade_ids id
              else p.active_upgrade_ids;
        })
      ]
]

unfoldable pub toggle_upgrade :
    Dict ProfileUpgradeDef → String → Bool → PlayerProfile → Reply Refusal
toggle_upgrade catalog id active p = elim (lookup id catalog) [
  | none ↦ Reply.reject unknown_upgrade
  | some d ↦
      if leb_ℤ (amount id p.owned_upgrade_ranks) (pos 0)
      then Reply.reject not_owned
      else Reply.accept (record p {
        active_upgrade_ids =
            if active
            then add_to_sorted_set p.active_upgrade_ids id
            else remove_from_sorted_set p.active_upgrade_ids id;
      })
]

abbrev pub earn : ℤ → PlayerProfile → PlayerProfile
earn n p = record p {
  legend_points = p.legend_points +ℤ n;
  lifetime_legend_points = p.lifetime_legend_points +ℤ n;
}

unfoldable pub grant_legend_points : ℤ → PlayerProfile → Reply Refusal
grant_legend_points n p =
    if leb_ℤ n (pos 0) then Reply.reject invalid_amount else Reply.accept (earn n p)

-- Nothing is loaded or saved where nothing was earned.
unfoldable pub commit_legend_points : ℤ → Option (PlayerProfile → Reply Refusal)
commit_legend_points earned =
    if leb_ℤ earned (pos 0) then none else some (λ p. Reply.accept (earn earned p))

abbrev pub is_acquired : String → List AcquiredAdvancement → Bool
is_acquired id list = contains (map (λ a. a.id) list) id

-- The node before `id` in its track; the empty text for a first node and for an unknown one.
unfoldable pub previous_in : String → String → List UnitAdvancementNode → Option String
previous_in prev id [] = none
previous_in prev id (n ∷ ns) = if str_eq n.id id then some prev else previous_in n.id id ns

unfoldable pub prerequisite_id : String → List (List UnitAdvancementNode) → String
prerequisite_id id [] = ""
prerequisite_id id (t ∷ ts) = elim (previous_in "" id t) [
  | some prev ↦ prev
  | none ↦ prerequisite_id id ts
]

-- `sort.Slice` by id.
unfoldable pub insert_by_id :
    AcquiredAdvancement → List AcquiredAdvancement → List AcquiredAdvancement
insert_by_id a [] = a ∷ []
insert_by_id a (b ∷ bs) =
    let rest = insert_by_id a bs in if before a.id b.id then a ∷ b ∷ bs else b ∷ rest

unfoldable pub sort_by_id : List AcquiredAdvancement → List AcquiredAdvancement
sort_by_id [] = []
sort_by_id (a ∷ as_) = insert_by_id a (sort_by_id as_)

abbrev pub prerequisite_met : String → List AcquiredAdvancement → Bool
prerequisite_met prereq list = if str_eq prereq "" then true else is_acquired prereq list

unfoldable pub purchase_advancement :
    Dict UnitAdvancementNode
    → List (List UnitAdvancementNode)
    → Bool
    → String
    → PlayerProfile
    → Reply Refusal
purchase_advancement catalog tracks in_match id p =
    if str_eq id "" then Reply.reject missing_advancement_id else elim (lookup id catalog) [
      | none ↦ Reply.reject unknown_advancement
      | some node ↦
          if in_match
          then Reply.reject player_in_match
          else (if is_acquired id p.acquired_advancements
              then Reply.reject already_acquired
              else (if not (prerequisite_met (prerequisite_id id tracks) p.acquired_advancements)
                  then Reply.reject prerequisite_not_acquired
                  else (if ltb_ℤ p.legend_points node.cost
                      then Reply.reject insufficient_legend_points
                      else Reply.accept (record p {
                        legend_points = p.legend_points -ℤ node.cost;
                        acquired_advancements = sort_by_id (
                            p.acquired_advancements
                            ++ record { id = node.id; cost_paid = node.cost } ∷ []);
                      }))))
    ]

-- The points given back and the entries kept, one entry after the other.
unfoldable pub refund_each :
    Dict UnitAdvancementNode → ℤ → List AcquiredAdvancement → Bool × ℤ × List AcquiredAdvancement
refund_each catalog points [] = (false, points, [])
refund_each catalog points (a ∷ rest) = elim (lookup a.id catalog) [
  | none ↦
      let (modified, left, kept) = refund_each catalog (points +ℤ a.cost_paid) rest in
      (true, left, kept)
  | some node ↦
      if ltb_ℤ node.cost a.cost_paid
      then (let (modified, left, kept) =
            refund_each catalog (points +ℤ (a.cost_paid -ℤ node.cost)) rest in
          (true, left, record a { cost_paid = node.cost } ∷ kept))
      else (let (modified, left, kept) = refund_each catalog points rest in
          (modified, left, a ∷ kept))
]

unfoldable pub refund_stale_advancement_costs :
    Dict UnitAdvancementNode → PlayerProfile → Bool × PlayerProfile
refund_stale_advancement_costs catalog p =
    let (modified, points, kept) = refund_each catalog p.legend_points p.acquired_advancements in
    (modified, record p { legend_points = points; acquired_advancements = kept })
