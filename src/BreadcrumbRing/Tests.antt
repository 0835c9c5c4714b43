-- ===== src/BreadcrumbRing/Tests.antt =====
-- Runs and witnesses for src/breadcrumb_ring.cpp.
use tombstack_native.Prelude.{◌≡◌, refl, List, [], ◌∷◌, map, codes}
use tombstack_native.Prelude.Windows.{newest}
use tombstack_native.Json.Utf8.{utf8_safe_truncate}
use tombstack_native.BreadcrumbRing.{new_ring, add, snapshot}
use tombstack_native.BreadcrumbRing.Trail.{Call, recorded, add_all, snapshot-add_all}

abbrev calls : List Call
calls =
    (codes "info", codes "one", codes "t1")
    ∷ (codes "warn", codes "two", codes "t2")
    ∷ (codes "info", [], codes "t3")
    ∷ (codes "error", codes "four", codes "t4")
    ∷ []

keeps_two :
    map (λ c. c.message) (snapshot (add_all calls (new_ring 2))) ≡ codes "two" ∷ codes "four" ∷ []
unfolding add_all add snapshot new_ring utf8_safe_truncate
keeps_two = refl

snapshot-add_all_example : snapshot (add_all calls (new_ring 2)) ≡ newest 2 (recorded calls)
snapshot-add_all_example = snapshot-add_all 2 calls
