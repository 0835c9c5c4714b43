-- ===== src/Client/Capture/Consent.antt =====
-- What the capture calls do without consent, and before the session starts.
use tombstack_native.Prelude.{ℕ, ◌≡◌, refl, ◌⊎◌, inl, inr, Bool, true, false, Option, List, Bytes}
use tombstack_native.Payloads.{Doubles}
use tombstack_native.Client.Telemetry.{track_event, track_metric}
use tombstack_native.Client.Identity.{Result, invalid_argument, disabled}
use tombstack_native.Client.State.{Client, Moment, capture_allowed}
use tombstack_native.Client.Capture.{
  Level, guarded, is_unset, add_breadcrumb, log_line, report_crash, report_bug, set_level,
}

-- The capture calls of the C API, with what they are given and meet.
pub data Call (d : Doubles) : Type 0 where
  breadcrumb_call : Level → Option Bytes → Call d
  log_call : Level → Option Bytes → Call d
  event_call :
      Bool → Option Bytes → ℕ → Option (List (Option Bytes)) → Option (List (Option Bytes)) → Call d
  metric_call : Bool → Option Bytes → Bool → d.double → Option Bytes → Call d
  crash_call : Option Bytes → Option Bytes → Option Bytes → Bool → Call d
  bug_call : Option Bytes → Option Bytes → Bool → Call d
  level_call : Option Bytes → Call d

module _ (d : Doubles) where
  unfoldable pub capture : Moment → Call d → Client d → Client d × Result
  capture m (breadcrumb_call level message) c = add_breadcrumb d m level message c
  capture m (log_call level line) c = log_line d m level line c
  capture m (event_call keep name count keys values) c =
      track_event d m keep name count keys values c
  capture m (metric_call keep name is_finite value unit) c =
      track_metric d m keep name is_finite value unit c
  capture m (crash_call signature hint trace attach_log) c =
      report_crash d m signature hint trace attach_log c
  capture m (bug_call category message attach_log) c = report_bug d m category message attach_log c
  capture m (level_call name) c = set_level d m name c

  -- a refused call
  abbrev pub Refused : Client d → Client d × Result → Type 0
  Refused c r = (r.0 ≡ c) × ((r.1 ≡ disabled) ⊎ (r.1 ≡ invalid_argument))

  guarded-Refused :
      (refused : Bool) (c : Client d) (done : Client d × Result)
      → capture_allowed d c ≡ false
      → Refused c (guarded d refused c done)
  guarded-Refused true c done h = (refl, inr refl)
  guarded-Refused false c done h = rw h (refl, inl refl)

  -- Without consent, or before `init`, no capture call changes anything: no breadcrumb, no line of
  -- the log, no event, no metric, no file, no job, and the call says so.
  pub capture-Refused :
      (m : Moment) (call : Call d) (c : Client d)
      → capture_allowed d c ≡ false
      → Refused c (capture m call c)
  unfolding capture add_breadcrumb log_line track_event track_metric report_crash report_bug
      set_level
  capture-Refused m (breadcrumb_call level message) c h = guarded-Refused (is_unset message) c _ h
  capture-Refused m (log_call level line) c h = guarded-Refused (is_unset line) c _ h
  capture-Refused m (event_call keep name count keys values) c h = guarded-Refused _ c _ h
  capture-Refused m (metric_call keep name is_finite value unit) c h = guarded-Refused _ c _ h
  capture-Refused m (crash_call signature hint trace attach_log) c h = guarded-Refused false c _ h
  capture-Refused m (bug_call category message attach_log) c h =
      guarded-Refused (is_unset message) c _ h
  capture-Refused m (level_call name) c h = guarded-Refused (is_unset name) c _ h
