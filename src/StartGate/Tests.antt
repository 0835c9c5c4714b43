-- ===== src/StartGate/Tests.antt =====
-- Witnesses for src/start_gate.h.
use tombstack_native.Prelude.{◌≡◌, refl, true, false, [], ◌∷◌}
use tombstack_native.StartGate.{new_gate, arm, is_set}
use tombstack_native.StartGate.Latch.{requests, exchanges, interleave, race_from, interleave_once}

interleave_once_example :
    (is_set
        (interleave
          (race_from (arm false new_gate))
          (requests ∷ requests ∷ exchanges ∷ exchanges ∷ [])).gate
      ≡ true)
    × ((interleave
          (race_from (arm false new_gate))
          (requests ∷ requests ∷ exchanges ∷ exchanges ∷ [])).first_openers
        ≡ 1)
unfolding arm is_set
interleave_once_example =
    interleave_once (arm false new_gate) (requests ∷ requests ∷ exchanges ∷ exchanges ∷ []) refl
