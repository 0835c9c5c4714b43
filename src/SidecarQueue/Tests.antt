-- ===== src/SidecarQueue/Tests.antt =====
-- Runs and witnesses for src/sidecar_queue.cpp.
use tombstack_native.Prelude.{◌≡◌, refl, true, [], ◌∷◌, codes, str_eq}
use tombstack_native.SidecarQueue.{crash, SidecarPath, SidecarQueue, Draw, scan}

abbrev drawn : Draw
drawn = record { name = codes "7-c.json"; opens = true }

abbrev one_crash : SidecarQueue
one_crash = record {
  crashes = (codes "1-a.json", codes "{}") ∷ [];
  bug_reports = [];
  events = (codes "notes.txt", codes "x") ∷ (codes "e.json", []) ∷ [];
  configured = true;
}

abbrev path : SidecarPath
path = record { kind = crash; name = codes "1-a.json" }

-- Neither the file with another extension nor the empty one is found.
finds : scan one_crash ≡ record { kind = crash; path = path; body = codes "{}" } ∷ []
unfolding scan str_eq
finds = refl
