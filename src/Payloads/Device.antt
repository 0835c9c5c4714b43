-- ===== src/Payloads/Device.antt =====
-- The `device` object of src/payloads.cpp.
pub mod Emitting
pub mod Content
use tombstack_native.Prelude.{
  Bool, true, false, not, ◌||◌, List, [], ◌∷◌, if◌then◌else◌, is_empty, Bytes, codes,
}
use tombstack_native.Prelude.Int.{ℤ, pos, ltb_ℤ}
use tombstack_native.Json.Writer.{JsonWriter, bool_field, begin_object, end_object, statements}
use tombstack_native.Payloads.{Doubles, optional_field, optional_int_field, optional_number_field}
use tombstack_native.Payloads.Limits

pub record DevicePayload (d : Doubles) : Type 0 where
  pub model : Bytes
  pub type : Bytes
  pub os : Bytes
  pub os_family : Bytes
  pub cpu : Bytes
  pub cpu_count : ℤ
  pub ram_mb : ℤ
  pub gpu : Bytes
  pub gpu_vendor : Bytes
  pub gpu_version : Bytes
  pub gpu_api : Bytes
  pub vram_mb : ℤ
  pub screen : Bytes
  pub screen_dpi : d.double
  pub refresh_rate : d.double
  pub orientation : Bytes
  pub fullscreen : Bool
  pub language : Bytes
  pub engine : Bytes
  pub scripting_backend : Bytes
  pub platform : Bytes

-- a chain of `||`
abbrev pub any_of : List Bool → Bool
any_of [] = false
any_of (b ∷ bs) = b || any_of bs

-- whether each field is set
abbrev pub device_tests : (d : Doubles) → DevicePayload d → List Bool
device_tests d p =
    not (is_empty p.model)
    ∷ not (is_empty p.type)
    ∷ not (is_empty p.os)
    ∷ not (is_empty p.os_family)
    ∷ not (is_empty p.cpu)
    ∷ ltb_ℤ (pos 0) p.cpu_count
    ∷ ltb_ℤ (pos 0) p.ram_mb
    ∷ not (is_empty p.gpu)
    ∷ not (is_empty p.gpu_vendor)
    ∷ not (is_empty p.gpu_version)
    ∷ not (is_empty p.gpu_api)
    ∷ ltb_ℤ (pos 0) p.vram_mb
    ∷ not (is_empty p.screen)
    ∷ d.is_positive p.screen_dpi
    ∷ d.is_positive p.refresh_rate
    ∷ not (is_empty p.orientation)
    ∷ p.fullscreen
    ∷ not (is_empty p.language)
    ∷ not (is_empty p.engine)
    ∷ not (is_empty p.scripting_backend)
    ∷ not (is_empty p.platform)
    ∷ []

unfoldable pub device_has_content : (d : Doubles) → DevicePayload d → Bool
device_has_content d p = any_of (device_tests d p)

-- the statements between the braces, in order
abbrev pub device_fields : (d : Doubles) → DevicePayload d → List (JsonWriter → JsonWriter)
device_fields d p =
    optional_field (codes "model") p.model Limits.device_model
    ∷ optional_field (codes "type") p.type Limits.device_type
    ∷ optional_field (codes "os") p.os Limits.device_os
    ∷ optional_field (codes "osFamily") p.os_family Limits.device_os_family
    ∷ optional_field (codes "cpu") p.cpu Limits.device_cpu
    ∷ optional_int_field (codes "cpuCount") p.cpu_count
    ∷ optional_int_field (codes "ramMB") p.ram_mb
    ∷ optional_field (codes "gpu") p.gpu Limits.device_gpu
    ∷ optional_field (codes "gpuVendor") p.gpu_vendor Limits.device_gpu_vendor
    ∷ optional_field (codes "gpuVersion") p.gpu_version Limits.device_gpu_version
    ∷ optional_field (codes "gpuApi") p.gpu_api Limits.device_gpu_api
    ∷ optional_int_field (codes "vramMB") p.vram_mb
    ∷ optional_field (codes "screen") p.screen Limits.device_screen
    ∷ optional_number_field d (codes "screenDpi") p.screen_dpi
    ∷ optional_number_field d (codes "refreshRate") p.refresh_rate
    ∷ optional_field (codes "orientation") p.orientation Limits.device_orientation
    ∷ (λ w. if p.fullscreen then bool_field (codes "fullscreen") true w else w)
    ∷ optional_field (codes "language") p.language Limits.device_language
    ∷ optional_field (codes "engine") p.engine Limits.device_engine
    ∷ optional_field (codes "scriptingBackend") p.scripting_backend Limits.device_scripting_backend
    ∷ optional_field (codes "platform") p.platform Limits.device_platform
    ∷ []

abbrev pub device_object : (d : Doubles) → DevicePayload d → JsonWriter → JsonWriter
device_object d p w =
    if not (device_has_content d p)
    then w
    else end_object (statements (device_fields d p) (begin_object (codes "device") w))
