-- ===== src/Payloads/Device/Emitting.antt =====
-- The `device` object as a statement that the scan for a key passes over.
use tombstack_native.Prelude.{◌≡◌, true, List, [], ◌∷◌, All, Bytes, codes, ◌&◌}
use tombstack_native.Json.Scan.Skip.{IsKey}
use tombstack_native.Json.Scan.Named.{
  Others, Emitting, is_other, bool_field-Emitting, object-Emitting, if-Emitting,
  statements-Emitting, unless-Emitting,
}
use tombstack_native.Payloads.{Doubles}
use tombstack_native.Payloads.Device.{
  DevicePayload, device_has_content, device_fields, device_object,
}
use tombstack_native.Payloads.Emitting.{
  optional_field-Emitting, optional_int_field-Emitting, optional_number_field-Emitting,
}

abbrev pub device_names : List Bytes
device_names =
    codes "model"
    ∷ codes "type"
    ∷ codes "os"
    ∷ codes "osFamily"
    ∷ codes "cpu"
    ∷ codes "cpuCount"
    ∷ codes "ramMB"
    ∷ codes "gpu"
    ∷ codes "gpuVendor"
    ∷ codes "gpuVersion"
    ∷ codes "gpuApi"
    ∷ codes "vramMB"
    ∷ codes "screen"
    ∷ codes "screenDpi"
    ∷ codes "refreshRate"
    ∷ codes "orientation"
    ∷ codes "fullscreen"
    ∷ codes "language"
    ∷ codes "engine"
    ∷ codes "scriptingBackend"
    ∷ codes "platform"
    ∷ []

module _ (key : Bytes) (k : IsKey key) where
  device_fields-Emitting :
      (d : Doubles) (p : DevicePayload d)
      → Others key device_names
      → All (Emitting key) (device_fields d p)
  device_fields-Emitting d p
        (
          h1,
          (
            h2,
            (
              h3,
              (
                h4,
                (
                  h5,
                  (
                    h6,
                    (
                      h7,
                      (
                        h8,
                        (
                          h9,
                          (
                            h10,
                            (
                              h11,
                              (
                                h12,
                                (h13, (h14, (h15, (h16, (h17, (h18, (h19, (h20, (h21, _))))))))),
                              ),
                            ),
                          ),
                        ),
                      ),
                    ),
                  ),
                ),
              ),
            ),
          ),
        ) =
      optional_field-Emitting key k _ p.model _ h1
      & optional_field-Emitting key k _ p.type _ h2
      & optional_field-Emitting key k _ p.os _ h3
      & optional_field-Emitting key k _ p.os_family _ h4
      & optional_field-Emitting key k _ p.cpu _ h5
      & optional_int_field-Emitting key k _ p.cpu_count h6
      & optional_int_field-Emitting key k _ p.ram_mb h7
      & optional_field-Emitting key k _ p.gpu _ h8
      & optional_field-Emitting key k _ p.gpu_vendor _ h9
      & optional_field-Emitting key k _ p.gpu_version _ h10
      & optional_field-Emitting key k _ p.gpu_api _ h11
      & optional_int_field-Emitting key k _ p.vram_mb h12
      & optional_field-Emitting key k _ p.screen _ h13
      & optional_number_field-Emitting key k d _ p.screen_dpi h14
      & optional_number_field-Emitting key k d _ p.refresh_rate h15
      & optional_field-Emitting key k _ p.orientation _ h16
      & if-Emitting key k p.fullscreen _ (λ _. bool_field-Emitting key k _ true h17)
      & optional_field-Emitting key k _ p.language _ h18
      & optional_field-Emitting key k _ p.engine _ h19
      & optional_field-Emitting key k _ p.scripting_backend _ h20
      & optional_field-Emitting key k _ p.platform _ h21
      & tt

  pub device_object-Emitting :
      (d : Doubles) (p : DevicePayload d)
      → is_other key (codes "device") ≡ true
      → Others key device_names
      → Emitting key (device_object d p)
  device_object-Emitting d p h others = unless-Emitting key k (device_has_content d p) _ (
      object-Emitting key k (codes "device") _ h
        (statements-Emitting key k (device_fields d p) (device_fields-Emitting d p others)))
