-- ===== src/DeviceIdentity/Tests.antt =====
-- Runs and witnesses for src/device_identity.cpp.
use tombstack_native.Prelude.{◌≡◌, refl, [], codes}
use tombstack_native.DeviceIdentity.{fnv1a64}

-- the published test values of FNV-1a
hashes : (fnv1a64 [] ≡ 0xcbf29ce484222325) × (fnv1a64 (codes "a") ≡ 0xaf63dc4c8601ec8c)
unfolding fnv1a64
hashes = (refl, refl)
