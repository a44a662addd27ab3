-- ===== src/Tests/ManaTests.antt =====
-- A priest's mana, in whole numbers.
use web_rts_nomads.Base.{◌≡◌, refl, true, false, ap, All, some, List, [], ◌∷◌, ◌++◌, arith}
use web_rts_nomads.Base.Int.{
  ℤ, pos, ltb_ℤ, ◌≤ℤ◌, ◌+ℤ◌, ◌-ℤ◌, +ℤ_parts, -ℤ_parts, eq_of_parts, pos_part, neg_part,
}
use web_rts_nomads.Mana.{Caster, Casting, spend_unit_mana, add_unit_mana}
use web_rts_nomads.Mana.Pool.{
  Regenerates, Steps, IsPool, pool, Use, regen, spend, restore, use_all, use_all-IsPool,
}
use web_rts_nomads.Mana.Refund.{add_unit_mana-spend_unit_mana}
use web_rts_nomads.Tests.Whole.{whole}

abbrev priest : Caster whole
priest = record {
  id = 4;
  hp = pos 60;
  max_mana = pos 100;
  current_mana = pos 90;
  mana_regen_per_second = pos 1;
  mana_regen_accumulator = pos 0;
}

abbrev calm : Casting whole
calm = record { unit = some priest; mana_restore_events_this_tick = [] }

abbrev uses : List (Use whole)
uses = spend (pos 30) ∷ regen (pos 2) (pos 1) ∷ restore (pos 80) ∷ spend (pos 200) ∷ []

early_whole :
    (a x : ℤ)
    → a ≡ pos 0
    → (pos 0 ≤ℤ x) × (x ≤ℤ pos 1000)
    → ltb_ℤ (a +ℤ x) (pos 1) ≡ true
    → a +ℤ x ≡ pos 0
early_whole a x e step small =
    eq_of_parts (a +ℤ x) (pos 0)
      (omega (arith, +ℤ_parts a x, ap pos_part e, ap neg_part e, step.0, below-one (a +ℤ x) small))
  where
    below-one : (z : ℤ) → ltb_ℤ z (pos 1) ≡ true → z ≤ℤ pos 0
    below-one z h = ground (arith, h)

truncated_whole :
    (a x : ℤ)
    → a ≡ pos 0
    → (pos 0 ≤ℤ x) × (x ≤ℤ pos 1000)
    → (pos 0 ≤ℤ a +ℤ x) × (a +ℤ x ≤ℤ pos 0x1_0000_0000) × ((a +ℤ x) -ℤ (a +ℤ x) ≡ pos 0)
truncated_whole a x e step = (
  omega (arith, +ℤ_parts a x, ap pos_part e, ap neg_part e, step.0),
  omega (arith, +ℤ_parts a x, ap pos_part e, ap neg_part e, step.1),
  eq_of_parts ((a +ℤ x) -ℤ (a +ℤ x)) (pos 0) (omega (arith, -ℤ_parts (a +ℤ x) (a +ℤ x))),
)

-- Whole numbers have no fractions but 0.
abbrev whole_steps : Regenerates whole
whole_steps = record {
  IsFraction = λ a. a ≡ pos 0;
  IsStep = λ x. (pos 0 ≤ℤ x) × (x ≤ℤ pos 1000);
  none_yet = refl;
  early = early_whole;
  truncated = λ a x e step _. truncated_whole a x e step;
}

uses-Steps : All (Steps whole whole_steps (pos 1)) uses
unfolding ◌+ℤ◌
uses-Steps = (tt, ((λ _. (omega arith, omega arith)), (tt, (tt, tt))))

use_all-IsPool_example : IsPool whole whole_steps (pos 1) (use_all whole uses calm)
use_all-IsPool_example = use_all-IsPool whole whole_steps (pos 1) uses calm uses-Steps (
    pool
      (record {
        low = omega arith;
        high = omega arith;
        machine = omega arith;
        fraction = refl;
        speed = refl;
      })
      tt)

add_unit_mana-spend_unit_mana_example :
    add_unit_mana whole (pos 30) (record {
      unit = (spend_unit_mana whole (pos 30) (some priest)).1;
      mana_restore_events_this_tick = [];
    })
    ≡ (
      pos 30,
      record {
        unit = some priest;
        mana_restore_events_this_tick = [] ++ record { unit_id = 4; amount = pos 30 } ∷ [];
      },
    )
add_unit_mana-spend_unit_mana_example =
    add_unit_mana-spend_unit_mana whole (pos 30) priest [] (omega arith) (omega arith) (omega arith)
      (omega arith)

too_dear : spend_unit_mana whole (pos 91) (some priest) ≡ (false, some priest)
unfolding spend_unit_mana
too_dear = refl
