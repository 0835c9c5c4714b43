-- ===== src/Client/Device.antt =====
-- `set_device` of src/client.cpp: the copy of what the game says about the device.
pub mod Bounds
use tombstack_native.Prelude.{Bool, false, not, Option, none, some, [], ◌==◌, Bytes}
use tombstack_native.Prelude.Int.{ℤ, pos, negsuc}
use tombstack_native.Payloads.{Doubles}
use tombstack_native.Payloads.Limits
use tombstack_native.Payloads.Device.{DevicePayload}
use tombstack_native.Client.Identity.{Result, ok, clamped}
use tombstack_native.Client.Carry.{Carry, store_device}

-- `tombstone_device_t`; a string that is null is `none`.
pub record TombstoneDevice (d : Doubles) : Type 0 where
  pub model : Option Bytes
  pub type : Option Bytes
  pub os : Option Bytes
  pub os_family : Option Bytes
  pub cpu : Option Bytes
  pub cpu_count : ℤ
  pub ram_mb : ℤ
  pub gpu : Option Bytes
  pub gpu_vendor : Option Bytes
  pub gpu_version : Option Bytes
  pub gpu_api : Option Bytes
  pub vram_mb : ℤ
  pub screen : Option Bytes
  pub screen_dpi : d.double
  pub refresh_rate : d.double
  pub orientation : Option Bytes
  pub fullscreen : ℤ
  pub language : Option Bytes
  pub engine : Option Bytes
  pub scripting_backend : Option Bytes
  pub platform : Option Bytes

abbrev is_zero : ℤ → Bool
is_zero (pos n) = n == 0
is_zero (negsuc n) = false

module _ (d : Doubles) where
  -- `DevicePayload{}`
  abbrev pub no_device : DevicePayload d
  no_device = record {
    model = [];
    type = [];
    os = [];
    os_family = [];
    cpu = [];
    cpu_count = pos 0;
    ram_mb = pos 0;
    gpu = [];
    gpu_vendor = [];
    gpu_version = [];
    gpu_api = [];
    vram_mb = pos 0;
    screen = [];
    screen_dpi = d.unset;
    refresh_rate = d.unset;
    orientation = [];
    fullscreen = false;
    language = [];
    engine = [];
    scripting_backend = [];
    platform = [];
  }

  unfoldable pub copy_device : TombstoneDevice d → DevicePayload d
  copy_device device = record {
    model = clamped device.model Limits.device_model;
    type = clamped device.type Limits.device_type;
    os = clamped device.os Limits.device_os;
    os_family = clamped device.os_family Limits.device_os_family;
    cpu = clamped device.cpu Limits.device_cpu;
    cpu_count = device.cpu_count;
    ram_mb = device.ram_mb;
    gpu = clamped device.gpu Limits.device_gpu;
    gpu_vendor = clamped device.gpu_vendor Limits.device_gpu_vendor;
    gpu_version = clamped device.gpu_version Limits.device_gpu_version;
    gpu_api = clamped device.gpu_api Limits.device_gpu_api;
    vram_mb = device.vram_mb;
    screen = clamped device.screen Limits.device_screen;
    screen_dpi = device.screen_dpi;
    refresh_rate = device.refresh_rate;
    orientation = clamped device.orientation Limits.device_orientation;
    fullscreen = not (is_zero device.fullscreen);
    language = clamped device.language Limits.device_language;
    engine = clamped device.engine Limits.device_engine;
    scripting_backend = clamped device.scripting_backend Limits.device_scripting_backend;
    platform = clamped device.platform Limits.device_platform;
  }

  unfoldable pub set_device : Option (TombstoneDevice d) → Carry d → Carry d × Result
  unfolding copy_device
  set_device device c =
      (store_device d (elim device [ none ↦ no_device | some given ↦ copy_device given ]) c, ok)
