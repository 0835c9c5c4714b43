-- ===== src/Dedupe/Tests.antt =====
-- Runs and witnesses for src/dedupe.cpp.
use tombstack_native.Prelude.{◌≡◌, refl, true, false, List, [], ◌∷◌, map, arith, codes, str_eq}
use tombstack_native.Prelude.Assoc.{lookup, insert}
use tombstack_native.Dedupe.{Entry, DedupeWindow, check}
use tombstack_native.Dedupe.Window.{Call, run, Refused, run-Refused}

abbrev calls : List Call
calls = (codes "a", 10) ∷ (codes "b", 20) ∷ (codes "a", 59) ∷ (codes "a", 60) ∷ []

abbrev sent : Entry
sent = record { last_sent = 0; suppressed = 0 }

abbrev held_a : DedupeWindow
held_a = record { recent = (codes "a", sent) ∷ []; window = 60 }

decides : map (λ d. d.allowed) (run held_a calls).1 ≡ false ∷ true ∷ false ∷ true ∷ []
unfolding run check lookup insert str_eq
decides = refl

run-Refused_example :
    Refused
      (codes "a")
      0
      ((codes "a", 10) ∷ (codes "b", 20) ∷ (codes "a", 59) ∷ [])
      (run held_a ((codes "a", 10) ∷ (codes "b", 20) ∷ (codes "a", 59) ∷ [])).1
unfolding lookup str_eq
run-Refused_example =
    run-Refused (codes "a") sent held_a ((codes "a", 10) ∷ (codes "b", 20) ∷ (codes "a", 59) ∷ [])
      refl (omega arith) (omega arith)
