-- ===== src/PreInit/Tests.antt =====
-- Runs and witnesses for src/preinit.cpp.
use tombstack_native.PreInit.Capture.{
  call, Call, breadcrumb, event, metric, environment, consent, calls,
}
use tombstack_native.Prelude.{ℕ, ◌≡◌, refl, false, List, [], ◌∷◌, map, codes}
use tombstack_native.Prelude.Int.{pos}
use tombstack_native.PreInit.{new_store}

abbrev history : List (Call ℕ)
history =
    breadcrumb (pos 1) (codes "menu")
    ∷ event (codes "boot") []
    ∷ consent false
    ∷ metric (codes "load") 7 (codes "s")
    ∷ environment (codes "qa")
    ∷ []

keeps_order : map (λ t. t.name) (calls history new_store).tracks ≡ codes "boot" ∷ codes "load" ∷ []
unfolding calls call
keeps_order = refl
