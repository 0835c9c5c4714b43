-- ===== src/Sampler/Percents.antt =====
-- Whole percents as a carrier of rates, for the runs.
use tombstack_native.Prelude.{ℕ, ◌≡◌, refl, true, arith, ltb, leb}
use tombstack_native.Sampler.{Rates}

pub less_at_most : (x y : ℕ) → ltb x y ≡ true → leb x y ≡ true
less_at_most x y h = ground (arith, h)

pub at_most_trans : (x y z : ℕ) → leb x y ≡ true → leb y z ≡ true → leb x z ≡ true
at_most_trans x y z h k = ground (arith, h, k)

abbrev pub percents : Rates ℕ
percents = record {
  zero_rate = 0;
  one_rate = 100;
  is_less = ltb;
  is_at_most = leb;
  less_at_most = less_at_most;
  at_most_trans = at_most_trans;
  zero_at_most = refl;
  one_at_most = refl;
  one_above = refl;
}
