-- ===== src/Tests/Whole.antt =====
-- Whole numbers in place of floats, for the tests.
use web_rts_nomads.Base.{◌≡◌, true, false, arith}
use web_rts_nomads.Base.Int.{ℤ, pos, ltb_ℤ, leb_ℤ, ◌≤ℤ◌, ◌+ℤ◌, ◌-ℤ◌, +ℤ_parts}
use web_rts_nomads.Base.Float.{Float64}
use web_rts_nomads.Pathing.AStar.Order.{Ordered}

abbrev pub whole : Float64
whole = record {
  Float = ℤ;
  plus = λ a b. a +ℤ b;
  minus = λ a b. a -ℤ b;
  times = λ a b. a;
  over = λ a b. a;
  less = ltb_ℤ;
  at_most = leb_ℤ;
  of_int = λ a. a;
  to_int = λ a. a;
  one_half = pos 0;
}

grows_whole : (g c : ℤ) → pos 0 ≤ℤ c → leb_ℤ g (g +ℤ c) ≡ true
grows_whole g c h = ground (arith, +ℤ_parts g c, h)

transitive_whole : (a b c : ℤ) → leb_ℤ a b ≡ true → leb_ℤ b c ≡ true → leb_ℤ a c ≡ true
transitive_whole a b c h k = ground (arith, h, k)

total_whole : (a b : ℤ) → leb_ℤ a b ≡ false → leb_ℤ b a ≡ true
total_whole a b h = ground (arith, h)

penalized_whole : (c : ℤ) → pos 0 ≤ℤ c → pos 0 ≤ℤ c +ℤ pos 2
penalized_whole c h = omega (arith, +ℤ_parts c (pos 2), h)

pub whole_order : Ordered whole (pos 1)
whole_order = record {
  IsScore = λ _. Unit;
  IsCost = λ c. pos 0 ≤ℤ c;
  zero_score = tt;
  straight = omega arith;
  diagonal = omega arith;
  penalized = penalized_whole;
  adds = λ g c _ _. tt;
  grows = λ g c _ h. grows_whole g c h;
  transitive = λ a b c _ _ _ h k. transitive_whole a b c h k;
  total = λ a b _ _ h. total_whole a b h;
}
