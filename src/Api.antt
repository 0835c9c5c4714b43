-- ===== src/Api.antt =====
-- src/src/tombstone_api.cpp: the client of the process, the store of what is called before
-- `tombstone_init`, and the replay of the store. An entry point is one step, since it runs under
-- the mutex or on a client that it holds. What the C++ library throws is left out.
pub mod Entries
pub mod Init
pub mod Calls
pub mod Chosen
pub mod Tracks
pub mod Settled
pub mod First
pub mod Unheard
pub mod Stored
pub mod Remembered
mod Tests
use tombstack_native.Prelude.{
  take_else, take_then, ℕ, zero, suc, ◌+◌, ◌-◌, ◌*◌, ◌/◌, ◌%◌, ◌^◌, ◌≤◌, ◌<◌, min, max, ◌≡◌, refl,
  sym, ap, ◌∙◌, subst, ◌≢◌, ◌↔◌, ◌⊎◌, inl, inr, Bool, true, false, not, ◌&&◌, ◌||◌, Option, none,
  some, List, [], ◌∷◌, ◌++◌, map, append-nil, append_assoc, arith, ltb, leb, ◌==◌, if◌then◌else◌,
  ltb→lt, lt→ltb, leb→le, ltb_refuted, leb_refuted, ==_iff, tests, Bool-cases, Option-cases,
  value_or, &&-eq-true, length, is_empty, get_elem?, set, get_or, take, drop, replicate, pop_front,
  All, length-append, length-set, length-replicate, length-take, length-drop, length-map,
  take-append-drop, take-length-append, drop-length-append, All-append, All-append_left,
  All-append_right, Bytes, codes, str_eq, str_eq_iff, str_eq_refl, starts_with, ◌&◌, if-ap_else,
  if-holds, if-cases,
}
use tombstack_native.Prelude.Int.{ℤ, pos, negsuc}
use tombstack_native.Payloads.{Doubles}
use tombstack_native.SessionMarker
use tombstack_native.PreInit
use tombstack_native.PreInit.{PreInitStore}
use tombstack_native.Sampler.{Rates, Sampler, should_keep}
use tombstack_native.Client.Identity.{Result, ok, not_initialized}
use tombstack_native.Client.Carry.{carry_set_user, carry_set_metadata}
use tombstack_native.Client.Identity
use tombstack_native.Client.State.{Client, Context, Moment}
use tombstack_native.Client.Capture
use tombstack_native.Client.Capture.{Level, debug, info, warn, error}
use tombstack_native.Client.Context
use tombstack_native.Client.Telemetry
use tombstack_native.Client.Control
use tombstack_native.Client.Session.{Session}
use tombstack_native.Client.Launch
use tombstack_native.Client.Launch.{Options}

-- A client with its sampler.
pub record Live (d : Doubles) : Type 0 where
  pub session : Session d
  pub sampler : Sampler d.double

-- `g_client` and `g_preinit`
pub record Process (d : Doubles) : Type 0 where
  pub client : Option (Live d)
  pub preinit : PreInitStore d.double

-- What a call meets: the clocks and the disk, and the roll of the sampler.
pub record Now (d : Doubles) : Type 0 where
  pub moment : Moment
  pub files : SessionMarker.Disk
  pub roll : d.double

-- `tombstone_options_init`, without the fields for the heartbeat thread and the log callback
abbrev pub default_options : Options
default_options = record {
  endpoint = none;
  token = none;
  build_version = none;
  environment = none;
  enable_session_log = true;
  enable_unclean_shutdown_detection = true;
  consent_granted = true;
  auto_start_session = true;
  enable_native_crash_handler = false;
}

-- `static_cast<int>(level)`, and back: a number of no level has the label of `info`.
unfoldable pub level_number : Level → ℤ
level_number debug = pos 0
level_number info = pos 1
level_number warn = pos 2
level_number error = pos 3

unfoldable pub level_of : ℤ → Level
level_of (pos n) = if n == 0 then debug else if n == 2 then warn else if n == 3 then error else info
level_of (negsuc n) = info

module _ (d : Doubles) where
  -- `with_client`
  unfoldable pub with_client : (Live d → Live d × Result) → Process d → Process d × Result
  with_client action p = elim p.client [
    | none ↦ (p, not_initialized)
    | some live ↦ (record p { client = some (action live).0 }, (action live).1)
  ]

  -- `with_client_or_buffer`
  unfoldable pub with_client_or_buffer :
      (Live d → Live d × Result)
      → (PreInitStore d.double → PreInitStore d.double × Result)
      → Process d
      → Process d × Result
  with_client_or_buffer action buffer p = elim p.client [
    | none ↦ (record p { preinit = (buffer p.preinit).0 }, (buffer p.preinit).1)
    | some live ↦ (record p { client = some (action live).0 }, (action live).1)
  ]

  -- a call of the client that leaves the session's tracking and the sampler alone
  abbrev pub on_client : (Client d → Client d × Result) → Live d → Live d × Result
  on_client action live = (
    record live { session = record live.session { client = (action live.session.client).0 } },
    (action live.session.client).1,
  )

  abbrev pub on_context : (Context → Context × Result) → Client d → Client d × Result
  on_context action c = (record c { context = (action c.context).0 }, (action c.context).1)

  unfoldable pub live_set_consent : Now d → Bool → Live d → Live d
  live_set_consent now granted live = record live {
    session = Launch.change_consent d now.files now.moment granted live.session;
  }

  unfoldable pub live_set_user : Option Bytes → Option Bytes → Client d → Client d × Result
  live_set_user user_id steam_id c =
      (record c { carry = carry_set_user d user_id steam_id c.carry }, ok)

  unfoldable pub live_set_user_metadata :
      ℕ → Option (List (Option Bytes)) → Option (List (Option Bytes)) → Client d → Client d × Result
  live_set_user_metadata count keys values c = (
    record c { carry = carry_set_metadata d count keys values c.carry },
    (Identity.set_user_metadata count keys values c.carry.metadata).1,
  )

  unfoldable pub live_start_session : Live d → Live d × Result
  live_start_session live = on_client (λ c. ((Control.start_session d c).0, ok)) live

  module _ (real : Rates d.double) (is_finite : d.double → Bool) where
    -- the calls of `track_event` and `track_metric`, with the answer of the client's sampler
    unfoldable pub live_track_event :
        Now d
        → Option Bytes
        → ℕ
        → Option (List (Option Bytes))
        → Option (List (Option Bytes))
        → Live d
        → Live d × Result
    live_track_event now name count keys values live =
        let keep = should_keep real (value_or name []) now.roll live.sampler in
        on_client (Telemetry.track_event d now.moment keep name count keys values) live

    unfoldable pub live_track_metric :
        Now d → Option Bytes → d.double → Option Bytes → Live d → Live d × Result
    live_track_metric now name value unit live =
        let keep = should_keep real (value_or name []) now.roll live.sampler in
        on_client (Telemetry.track_metric d now.moment keep name (is_finite value) value unit) live
