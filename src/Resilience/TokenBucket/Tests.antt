-- ===== src/Resilience/TokenBucket/Tests.antt =====
-- A bucket over whole numbers.
use network_lirbary.Common.{
  ℕ, ◌+◌, ◌-◌, ◌*◌, ◌/◌, ◌≡◌, refl, true, false, List, [], ◌∷◌, ltb, arith,
}
use network_lirbary.Resilience.TokenBucket.{Double, new}
use network_lirbary.Resilience.TokenBucket.Bounds.{Inv, run, run-new-Inv}

below_zero : (a : ℕ) → ltb a 0 ≡ false
below_zero a = ground arith

sub_below : (c a b : ℕ) → ltb c a ≡ false → ltb c (a - b) ≡ false
sub_below c a b h = ground arith

ltb_irrefl : (a : ℕ) → ltb a a ≡ false
ltb_irrefl a = ground arith

ltb_asym : (a b : ℕ) → ltb a b ≡ true → ltb b a ≡ false
ltb_asym a b h = ground arith

abbrev whole : Double
whole = record {
  Number = ℕ;
  zero_number = 0;
  million = 1000000;
  of_count = λ n. n;
  add = λ a b. a + b;
  sub = λ a b. a - b;
  mul = λ a b. a * b;
  div = λ a b. a / b;
  less = ltb;
  sub_nonneg = λ a b h. below_zero (a - b);
  sub_below = λ c a b h k. sub_below c a b k;
  add_nonneg = λ a b h k. below_zero (a + b);
  less_irrefl = ltb_irrefl;
  less_asym = ltb_asym;
}

abbrev asked : List (ℕ × ℕ)
asked = (3, 1000) ∷ (4, 2000) ∷ (5, 2000000000) ∷ []

run-new-Inv_example : Inv whole (run whole (new whole 2 5 0) asked)
run-new-Inv_example = run-new-Inv whole 2 5 0 asked refl (refl, (refl, (refl, tt)))
