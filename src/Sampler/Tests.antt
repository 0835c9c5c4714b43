-- ===== src/Sampler/Tests.antt =====
-- A run and a witness for src/sampler.cpp.
use tombstack_native.Prelude.{ℕ, none, List, [], ◌∷◌, arith, Bytes, codes}
use tombstack_native.Sampler.Percents.{percents}
use tombstack_native.Sampler.{
  new_sampler, should_keep, set_rates, last_given, Decides, should_keep-set_rates,
}

abbrev calls : List (Bytes × ℕ)
calls = (codes "fps", 70) ∷ (codes "ping", 0) ∷ (codes "fps", 30) ∷ []

should_keep-set_rates_example :
    Decides percents
      (last_given percents (codes "fps") calls none)
      5
      (should_keep percents (codes "fps") 5 (set_rates percents calls new_sampler))
should_keep-set_rates_example = should_keep-set_rates percents (codes "fps") 5 calls (omega arith)
