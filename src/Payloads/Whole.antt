-- ===== src/Payloads/Whole.antt =====
-- A carrier of numbers for the runs: whole ones, printed in decimal.
use tombstack_native.Prelude.{ℕ, true, [], ltb, codes}
use tombstack_native.Prelude.Int.{pos}
use tombstack_native.Prelude.Decimal.{to_string, to_string-IsDigit}
use tombstack_native.Json.Scan.Ints.{digits-NoQuote}
use tombstack_native.Payloads.{Doubles}
use tombstack_native.Payloads.Device.{DevicePayload}

abbrev pub whole : Doubles
whole = record {
  double = ℕ;
  unset = 0;
  is_positive = λ n. ltb 0 n;
  printed = to_string;
  decimal_point = codes ".";
  no_quote = λ n h. digits-NoQuote (to_string n) (to_string-IsDigit n);
}

-- a device with a name, a number and a flag
abbrev pub laptop : DevicePayload whole
laptop = record {
  model = codes "\"log\":x";
  type = [];
  os = [];
  os_family = [];
  cpu = [];
  cpu_count = pos 8;
  ram_mb = pos 0;
  gpu = [];
  gpu_vendor = [];
  gpu_version = [];
  gpu_api = [];
  vram_mb = pos 0;
  screen = [];
  screen_dpi = 96;
  refresh_rate = 0;
  orientation = [];
  fullscreen = true;
  language = [];
  engine = [];
  scripting_backend = [];
  platform = [];
}
