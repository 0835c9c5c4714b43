-- ===== src/Dedupe.antt =====
-- src/dedupe.h and src/dedupe.cpp: at most one report per signature and window. Times and the
-- window are counts of steady-clock ticks; `check` is one critical section of the window's mutex.
pub mod Window
mod Tests
use tombstack_native.Prelude.{
  ℕ, ◌+◌, Bool, true, false, Option, none, some, List, [], ltb, leb, if◌then◌else◌, length, Bytes,
}
use tombstack_native.Prelude.Assoc.{lookup, insert}

pub record Entry : Type 0 where
  pub last_sent : ℕ
  pub suppressed : ℕ

pub record DedupeWindow : Type 0 where
  pub recent : List (Bytes × Entry)
  pub window : ℕ

pub record Decision : Type 0 where
  pub allowed : Bool
  pub suppressed_count : ℕ

abbrev pub max_tracked_signatures : ℕ
max_tracked_signatures = 64

abbrev pub new_window : ℕ → DedupeWindow
new_window window = record { recent = []; window = window }

abbrev pub allow : Decision
allow = record { allowed = true; suppressed_count = 0 }

-- `now - entry.last_sent < window_`: the difference is signed in the source
abbrev within_window : DedupeWindow → Entry → ℕ → Bool
within_window d entry now = ltb now (entry.last_sent + d.window)

-- the branch where the signature is in the map
check_found : Bytes → ℕ → DedupeWindow → Entry → DedupeWindow × Decision
check_found signature now d entry =
    if within_window d entry now
    then (
      record d {
        recent = insert signature (record entry { suppressed = entry.suppressed + 1 }) d.recent;
      },
      record { allowed = false; suppressed_count = entry.suppressed + 1 },
    )
    else (
      record d { recent = insert signature (record { last_sent = now; suppressed = 0 }) d.recent },
      allow,
    )

-- the branch where it is not; a full map is emptied first
check_new : Bytes → ℕ → DedupeWindow → DedupeWindow × Decision
check_new signature now d =
    let kept : List (Bytes × Entry) =
      if leb max_tracked_signatures (length d.recent) then [] else d.recent in
    (
      record d { recent = insert signature (record { last_sent = now; suppressed = 0 }) kept },
      allow,
    )

check_entry : Bytes → ℕ → DedupeWindow → Option Entry → DedupeWindow × Decision
unfolding check_found check_new
check_entry signature now d none = check_new signature now d
check_entry signature now d (some entry) = check_found signature now d entry

unfoldable pub check : Bytes → ℕ → DedupeWindow → DedupeWindow × Decision
unfolding check_entry
check signature now d = check_entry signature now d (lookup signature d.recent)
