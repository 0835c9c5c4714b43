-- ===== src/Client/Device/Bounds.antt =====
-- What `set_device` of src/client.cpp stores.
use tombstack_native.Prelude.{
  ℕ, ◌≤◌, ◌≡◌, refl, Option, none, some, arith, if◌then◌else◌, length, Bytes,
}
use tombstack_native.Json.Utf8.Bounds.{truncate_short}
use tombstack_native.Payloads.{Doubles}
use tombstack_native.Payloads.Limits
use tombstack_native.Payloads.Device.{DevicePayload, device_has_content}
use tombstack_native.Client.Identity.{clamped}
use tombstack_native.Client.Carry.{Carry, build_beat, store_device}
use tombstack_native.Client.Device.{TombstoneDevice, no_device, copy_device, set_device}

-- Each text is within the maximum of the schema.
pub record IsBounded {d : Doubles} (p : DevicePayload d) : Type 0 where
  pub model : length p.model ≤ Limits.device_model
  pub type : length p.type ≤ Limits.device_type
  pub os : length p.os ≤ Limits.device_os
  pub os_family : length p.os_family ≤ Limits.device_os_family
  pub cpu : length p.cpu ≤ Limits.device_cpu
  pub gpu : length p.gpu ≤ Limits.device_gpu
  pub gpu_vendor : length p.gpu_vendor ≤ Limits.device_gpu_vendor
  pub gpu_version : length p.gpu_version ≤ Limits.device_gpu_version
  pub gpu_api : length p.gpu_api ≤ Limits.device_gpu_api
  pub screen : length p.screen ≤ Limits.device_screen
  pub orientation : length p.orientation ≤ Limits.device_orientation
  pub language : length p.language ≤ Limits.device_language
  pub engine : length p.engine ≤ Limits.device_engine
  pub scripting_backend : length p.scripting_backend ≤ Limits.device_scripting_backend
  pub platform : length p.platform ≤ Limits.device_platform

clamped_short : (text : Option Bytes) (n : ℕ) → length (clamped text n) ≤ n
clamped_short none n = omega arith
clamped_short (some text) n = truncate_short text n

module _ (d : Doubles) where
  copy_device-IsBounded : (device : TombstoneDevice d) → IsBounded (copy_device d device)
  unfolding copy_device
  copy_device-IsBounded device = record {
    model = clamped_short device.model Limits.device_model;
    type = clamped_short device.type Limits.device_type;
    os = clamped_short device.os Limits.device_os;
    os_family = clamped_short device.os_family Limits.device_os_family;
    cpu = clamped_short device.cpu Limits.device_cpu;
    gpu = clamped_short device.gpu Limits.device_gpu;
    gpu_vendor = clamped_short device.gpu_vendor Limits.device_gpu_vendor;
    gpu_version = clamped_short device.gpu_version Limits.device_gpu_version;
    gpu_api = clamped_short device.gpu_api Limits.device_gpu_api;
    screen = clamped_short device.screen Limits.device_screen;
    orientation = clamped_short device.orientation Limits.device_orientation;
    language = clamped_short device.language Limits.device_language;
    engine = clamped_short device.engine Limits.device_engine;
    scripting_backend = clamped_short device.scripting_backend Limits.device_scripting_backend;
    platform = clamped_short device.platform Limits.device_platform;
  }

  no_device-IsBounded : IsBounded (no_device d)
  no_device-IsBounded = record {
    model = omega arith;
    type = omega arith;
    os = omega arith;
    os_family = omega arith;
    cpu = omega arith;
    gpu = omega arith;
    gpu_vendor = omega arith;
    gpu_version = omega arith;
    gpu_api = omega arith;
    screen = omega arith;
    orientation = omega arith;
    language = omega arith;
    engine = omega arith;
    scripting_backend = omega arith;
    platform = omega arith;
  }

  -- Whatever the game passes to `set_device`, null included, and whatever was sent before, the
  -- device that is kept is within the maxima of the schema, and the next beat carries it if it has
  -- content.
  pub set_device-IsBounded :
      (device : Option (TombstoneDevice d)) (c : Carry d)
      → IsBounded (set_device d device c).0.device
        × ((build_beat d (set_device d device c).0).1.device ≡ (
            if device_has_content d (set_device d device c).0.device
            then some (set_device d device c).0.device
            else none))
  unfolding set_device store_device build_beat
  set_device-IsBounded none c = (no_device-IsBounded, refl)
  set_device-IsBounded (some device) c = (copy_device-IsBounded device, refl)
