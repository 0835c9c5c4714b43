-- ===== src/BreadcrumbRing.antt =====
-- src/breadcrumb_ring.h and src/breadcrumb_ring.cpp: the ring of the most recent breadcrumbs. Each
-- operation is one critical section of the ring's mutex, so a run of any number of threads is a
-- sequence of these operations.
pub mod Index
pub mod Write
pub mod Trail
mod Tests
use tombstack_native.Prelude.{
  ℕ, zero, suc, ◌+◌, ◌-◌, ◌%◌, List, [], ◌∷◌, map, ltb, if◌then◌else◌, length, is_empty, set,
  get_or, replicate, Bytes,
}
use tombstack_native.Json.Utf8.{utf8_safe_truncate}

pub record Breadcrumb : Type 0 where
  pub ts_iso : Bytes
  pub level : Bytes
  pub message : Bytes

abbrev pub blank : Breadcrumb
blank = record { ts_iso = []; level = []; message = [] }

pub record BreadcrumbRing : Type 0 where
  pub slots : List Breadcrumb
  pub head : ℕ
  pub count : ℕ

abbrev pub default_capacity : ℕ
default_capacity = 64

abbrev pub max_message_bytes : ℕ
max_message_bytes = 512

abbrev pub max_level_bytes : ℕ
max_level_bytes = 16

-- the constructor
unfoldable pub new_ring : ℕ → BreadcrumbRing
new_ring capacity = record {
  slots = replicate (if ltb 0 capacity then capacity else default_capacity) blank;
  head = 0;
  count = 0;
}

abbrev pub clamped : Bytes → Bytes → Bytes → Breadcrumb
clamped level message ts_iso = record {
  ts_iso = ts_iso;
  level = utf8_safe_truncate level max_level_bytes;
  message = utf8_safe_truncate message max_message_bytes;
}

-- the critical section of `add`
unfoldable pub store : Breadcrumb → BreadcrumbRing → BreadcrumbRing
store crumb r = record r {
  slots = set r.slots r.head crumb;
  head = (r.head + 1) % length r.slots;
  count = if ltb r.count (length r.slots) then r.count + 1 else r.count;
}

unfoldable pub add : Bytes → Bytes → Bytes → BreadcrumbRing → BreadcrumbRing
unfolding store
add level message ts_iso r = if is_empty message then r else store (clamped level message ts_iso) r

-- the loop of `snapshot`, from slot `at` for the rounds left
unfoldable pub collect : List Breadcrumb → ℕ → ℕ → List Breadcrumb
collect slots at zero = []
collect slots at (suc n) = get_or slots (at % length slots) blank ∷ collect slots (at + 1) n

unfoldable pub snapshot : BreadcrumbRing → List Breadcrumb
unfolding collect
snapshot r = collect r.slots ((r.head + length r.slots - r.count) % length r.slots) r.count

unfoldable pub clear : BreadcrumbRing → BreadcrumbRing
clear r = record { slots = map (λ s. blank) r.slots; head = 0; count = 0 }
