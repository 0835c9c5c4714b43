-- ===== src/Payloads/Device/Content.antt =====
-- `device_has_content` of src/payloads.cpp names every field that `device_object` may write.
use tombstack_native.Prelude.{◌≡◌, refl, Bool, true, false, List, [], ◌∷◌, arith, All}
use tombstack_native.Json.Writer.{JsonWriter, statements}
use tombstack_native.Payloads.{Doubles}
use tombstack_native.Payloads.Device.{
  DevicePayload, device_has_content, device_fields, any_of, device_tests,
}

none_of : (bs : List Bool) → any_of bs ≡ false → All (λ b. b ≡ false) bs
none_of [] h = tt
none_of (true ∷ bs) h = absurd (ground arith)
none_of (false ∷ bs) h = (refl, none_of bs h)

-- The device object is left out only where its statements would have written nothing: no field of
-- the device is lost by the test.
pub device_fields-silent :
    (d : Doubles) (p : DevicePayload d) (w : JsonWriter)
    → device_has_content d p ≡ false
    → statements (device_fields d p) w ≡ w
unfolding device_has_content statements
device_fields-silent d p w h =
    let hs = none_of (device_tests d p) h in
    rw
      (
        hs.0, hs.1.0, hs.1.1.0, hs.1.1.1.0, hs.1.1.1.1.0, hs.1.1.1.1.1.0, hs.1.1.1.1.1.1.0,
        hs.1.1.1.1.1.1.1.0, hs.1.1.1.1.1.1.1.1.0, hs.1.1.1.1.1.1.1.1.1.0, hs.1.1.1.1.1.1.1.1.1.1.0,
        hs.1.1.1.1.1.1.1.1.1.1.1.0, hs.1.1.1.1.1.1.1.1.1.1.1.1.0, hs.1.1.1.1.1.1.1.1.1.1.1.1.1.0,
        hs.1.1.1.1.1.1.1.1.1.1.1.1.1.1.0, hs.1.1.1.1.1.1.1.1.1.1.1.1.1.1.1.0,
        hs.1.1.1.1.1.1.1.1.1.1.1.1.1.1.1.1.0, hs.1.1.1.1.1.1.1.1.1.1.1.1.1.1.1.1.1.0,
        hs.1.1.1.1.1.1.1.1.1.1.1.1.1.1.1.1.1.1.0, hs.1.1.1.1.1.1.1.1.1.1.1.1.1.1.1.1.1.1.1.0,
        hs.1.1.1.1.1.1.1.1.1.1.1.1.1.1.1.1.1.1.1.1.0,
      )
      refl
