-- ===== src/Items/Vault.antt =====
-- How many copies of an item a vault and a unit's slots hold, and how the vault's operations change that.
use web_rts_nomads.Base.{
  ℕ, zero, suc, ◌+◌, ◌≤◌, ◌≡◌, String, true, false, Option, none, some, List, [], ◌∷◌, str_eq,
  arith, if◌then◌else◌, ◌++◌, length, set, get_elem?, Bool-cases, inl, inr, refl, max,
  length-append, Option-cases, str_eq_iff,
}
use web_rts_nomads.Base.Int.{ℤ, pos, ◌-ℤ◌}
use web_rts_nomads.World.{VaultItem, EquippedItem, ShopStockEntry}
use web_rts_nomads.Items.{
  ItemDef, stack_onto, new_entry, add_item_to_vault, item_max_stacks,
  remove_item_from_vault_by_instance,
}
use web_rts_nomads.Items.Actions.{can_stack, has_room, stock_of, take_stock}

abbrev pub copies : String → VaultItem → ℕ
copies item v = if str_eq v.item_id item then v.stacks else 0

abbrev pub stacks_in : String → List VaultItem → ℕ
stacks_in item [] = 0
stacks_in item (v ∷ vs) = copies item v + stacks_in item vs

abbrev pub slot_copies : String → Option EquippedItem → ℕ
slot_copies item none = 0
slot_copies item (some x) = copies item x

abbrev pub equipped_copies : String → List (Option EquippedItem) → ℕ
equipped_copies item [] = 0
equipped_copies item (s ∷ ss) = slot_copies item s + equipped_copies item ss

pub stacks_in-append :
    (item : String) (vs ws : List VaultItem)
    → stacks_in item (vs ++ ws) ≡ stacks_in item vs + stacks_in item ws
stacks_in-append item [] ws = omega arith
stacks_in-append item (v ∷ vs) ws = omega (arith, stacks_in-append item vs ws)

pub equipped_copies-set :
    (item : String) (ss : List (Option EquippedItem)) (i : ℕ) (old new : Option EquippedItem)
    → get_elem? ss i ≡ some old
    → equipped_copies item (set ss i new) + slot_copies item old
      ≡ equipped_copies item ss + slot_copies item new
equipped_copies-set item [] i old new e = cc
equipped_copies-set item (s ∷ ss) zero old new e = let same : s ≡ old = cc in rw same (omega arith)
equipped_copies-set item (s ∷ ss) (suc i) old new e =
    omega (arith, equipped_copies-set item ss i old new e)

stack_onto-adds :
    (item id : String) (m : ℕ) (vs : List VaultItem) {ws : List VaultItem}
    → stack_onto id m vs ≡ some ws
    → (stacks_in item ws ≡ stacks_in item vs + (if str_eq id item then 1 else 0))
      × (length ws ≡ length vs)
unfolding stack_onto
stack_onto-adds item id m [] e = cc
stack_onto-adds item id m (v ∷ vs) {ws = ws} e = elim (Option-cases (stack_onto id m vs)) [
  | inl n ↦ ground (arith, n, str_eq_iff v.item_id id)
  | inr (zs, s) ↦ ground (arith, s, stack_onto-adds item id m vs s, str_eq_iff v.item_id id)
]

stack_onto-none :
    (id : String) (m : ℕ) (vs : List VaultItem)
    → stack_onto id m vs ≡ none
    → can_stack id m vs ≡ false
unfolding stack_onto can_stack
stack_onto-none id m [] e = refl
stack_onto-none id m (v ∷ vs) e = elim (Option-cases (stack_onto id m vs)) [
  | inl n ↦ ground (arith, n, stack_onto-none id m vs n)
  | inr (zs, s) ↦ ground (arith, s)
]

new_entry-adds :
    (item : String) (d : ItemDef) (capacity next_id : ℕ) (vault : List VaultItem) (next' : ℕ)
    (vault' : List VaultItem)
    → new_entry d capacity next_id vault ≡ some (next', vault')
    → (stacks_in item vault' ≡ stacks_in item vault + (if str_eq d.id item then 1 else 0))
      × (length vault' ≤ max capacity (length vault))
unfolding new_entry
new_entry-adds item d capacity next_id vault next' vault' e =
    let added : VaultItem = record { instance_id = suc next_id; item_id = d.id; stacks = 1 } in
    ground (arith, stacks_in-append item vault (added ∷ []), length-append vault (added ∷ []))

-- An item that goes in adds one copy of itself, and an entry only where there was room for one.
pub add_item_to_vault-adds :
    (item : String) (d : ItemDef) (capacity next_id : ℕ) (vault : List VaultItem) (next' : ℕ)
    (vault' : List VaultItem)
    → add_item_to_vault d capacity next_id vault ≡ some (next', vault')
    → (stacks_in item vault' ≡ stacks_in item vault + (if str_eq d.id item then 1 else 0))
      × (length vault' ≤ max capacity (length vault))
unfolding add_item_to_vault
add_item_to_vault-adds item d capacity next_id vault next' vault' e =
    elim (Option-cases (stack_onto d.id (item_max_stacks d) vault)) [
      | inl n ↦ ground (arith, n, new_entry-adds item d capacity next_id vault next' vault')
      | inr (zs, s) ↦ ground (
        arith,
        s,
        stack_onto-adds item d.id (item_max_stacks d) vault s,
        new_entry-adds item d capacity next_id vault next' vault',
      )
    ]

-- The dry run is right: where it finds room, the item goes in.
pub has_room-add :
    (d : ItemDef) (capacity next_id : ℕ) (vault : List VaultItem)
    → has_room d capacity vault ≡ true
    → (r : ℕ × List VaultItem) × (add_item_to_vault d capacity next_id vault ≡ some r)
unfolding add_item_to_vault new_entry has_room
has_room-add d capacity next_id vault e =
    elim (Option-cases (add_item_to_vault d capacity next_id vault)) [
      | inl n ↦ absurd (ground (arith, n, stack_onto-none d.id (item_max_stacks d) vault))
      | inr found ↦ found
    ]

-- What is taken out is missing in the rest, and is of the item that the lookup by instance finds.
pub remove-conserves :
    (item : String) (k : ℕ) (vs : List VaultItem) (r : VaultItem) (ws : List VaultItem)
    → remove_item_from_vault_by_instance k vs ≡ some (r, ws)
    → (stacks_in item ws + copies item r ≡ stacks_in item vs) × (length ws ≤ length vs)
unfolding remove_item_from_vault_by_instance
remove-conserves item k [] r ws e = cc
remove-conserves item k (v ∷ vs) r ws e =
    elim (Option-cases (remove_item_from_vault_by_instance k vs)) [
      | inl n ↦ ground (arith, n)
      | inr ((a, zs), s) ↦ ground (arith, s, remove-conserves item k vs a zs s)
    ]

pub stock_of-take_stock :
    (item : String) (es : List ShopStockEntry) {q : ℤ}
    → stock_of item es ≡ some q
    → stock_of item (take_stock item es) ≡ some (q -ℤ pos 1)
unfolding stock_of take_stock
stock_of-take_stock item [] e = cc
stock_of-take_stock item (x ∷ xs) {q = q} e = elim (Bool-cases (str_eq x.item_id item)) [
  | inl same ↦ ground (arith, same)
  | inr other ↦ ground (arith, other, stock_of-take_stock item xs {q = q})
]
