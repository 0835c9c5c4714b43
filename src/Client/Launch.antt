-- ===== src/Client/Launch.antt =====
-- `init` of src/client.cpp, `set_consent` whole, and the destructor. What the machine and the data
-- directory hold and answer is an argument; a string of the options that is null is `none`. The
-- heartbeat thread, the transport and the log callback are left out, as is the wait of the
-- worker's flush before it stops.
pub mod Deaths
mod Queued
pub mod Reported
pub mod Sample
mod Tests
use tombstack_native.Prelude.{
  ℕ, Bool, true, false, ◌&&◌, ◌||◌, Option, none, some, List, [], if◌then◌else◌, value_or, Bytes,
}
use tombstack_native.Payloads.{Doubles}
use tombstack_native.Payloads.Limits
use tombstack_native.BreadcrumbRing.{new_ring, default_capacity}
use tombstack_native.Dedupe.{new_window}
use tombstack_native.StartGate.{new_gate, arm}
use tombstack_native.SessionLog
use tombstack_native.SessionLog.{SessionLog, new_log}
use tombstack_native.SessionMarker
use tombstack_native.SessionMarker.{SessionMarker, SessionMarkerData}
use tombstack_native.SidecarQueue.{SidecarQueue, Draw}
use tombstack_native.NativeCrash.{NativeCrashDump}
use tombstack_native.NativeCrash.Handler.{take_previous}
use tombstack_native.Worker
use tombstack_native.Client.Identity.{
  Result, ok, invalid_argument, clamped, new_identity, new_metadata,
}
use tombstack_native.Client.Device.{no_device}
use tombstack_native.Client.DeviceFile.{IdentityFile, Machine, acquire_device_identity}
use tombstack_native.Client.State.{Client, Moment, flush_all_batches}
use tombstack_native.Client.Capture.{is_unset}
use tombstack_native.Client.Context.{trim_trailing_slash}
use tombstack_native.Client.Control.{set_consent, drain_sidecars}
use tombstack_native.Client.Session.{Session, start_session_tracking}

-- `tombstone_options`; a flag says whether the number is not 0.
pub record Options : Type 0 where
  pub endpoint : Option Bytes
  pub token : Option Bytes
  pub build_version : Option Bytes
  pub environment : Option Bytes
  pub enable_session_log : Bool
  pub enable_unclean_shutdown_detection : Bool
  pub consent_granted : Bool
  pub auto_start_session : Bool
  pub enable_native_crash_handler : Bool

-- What the platform answers.
pub record Host : Type 0 where
  pub os : Bytes
  pub arch : Bytes
  pub session_id : Bytes
  pub machine : Machine

-- What is in the data directory when the run starts, and what the file system answers in it.
pub record DataDir : Type 0 where
  pub usable : Bool
  pub identity : Option Bytes
  pub identity_reads : Bool
  pub identity_writes : Bool
  pub marker : Option Bytes
  pub marker_disk : SessionMarker.Disk
  pub current_log : Option Bytes
  pub previous_log : Option Bytes
  pub log_disk : SessionLog.Disk
  pub sidecars : SidecarQueue
  pub dump : Option Bytes
  pub dump_reads : Bool
  pub dump_removes : Bool

-- What `configure_storage` sets up.
pub record Storage : Type 0 where
  pub storage_available : Bool
  pub sidecars : SidecarQueue
  pub marker : SessionMarker
  pub session_log : SessionLog
  pub had_previous_log : Bool
  pub previous_marker : Option SessionMarkerData
  pub previous_native_dump : Option NativeCrashDump

abbrev pub marker_of : DataDir → SessionMarker
marker_of dir = SessionMarker.configure (record { configured = false; file = dir.marker })

abbrev log_of : DataDir → SessionLog
log_of dir =
    SessionLog.configure (record new_log { current = dir.current_log; previous = dir.previous_log })

abbrev no_storage : DataDir → Storage
no_storage dir = record {
  storage_available = false;
  sidecars = record dir.sidecars { configured = false };
  marker = record { configured = false; file = dir.marker };
  session_log = record new_log { current = dir.current_log; previous = dir.previous_log };
  had_previous_log = false;
  previous_marker = none;
  previous_native_dump = none;
}

abbrev pub storage : Options → DataDir → Storage
storage options dir =
    let taken = SessionMarker.take_previous dir.marker_disk (marker_of dir) in
    let rotated = SessionLog.rotate_for_new_session dir.log_disk (log_of dir) in
    record {
      storage_available = true;
      sidecars = record dir.sidecars { configured = true };
      marker =
          if options.enable_unclean_shutdown_detection
          then taken.0
          else SessionMarker.remove dir.marker_disk (marker_of dir);
      session_log =
          if options.enable_session_log
          then rotated.0
          else record new_log { current = dir.current_log; previous = dir.previous_log };
      had_previous_log = options.enable_session_log && rotated.1;
      previous_marker = if options.enable_unclean_shutdown_detection then taken.1 else none;
      previous_native_dump =
          if options.enable_native_crash_handler
          then (take_previous dir.dump_reads dir.dump_removes dir.dump).1
          else none;
    }

unfoldable pub configure_storage : Options → DataDir → Storage
configure_storage options dir = if dir.usable then storage options dir else no_storage dir

abbrev pub identity_file : DataDir → IdentityFile
identity_file dir = record {
  content = dir.identity;
  available = dir.usable;
  reads = dir.identity_reads;
  writes = dir.identity_writes;
}

abbrev pub refused : Options → Bool
refused options =
    is_unset options.endpoint || (is_unset options.token || is_unset options.build_version)

module _ (d : Doubles) where
  -- The client behind `configure_storage` and `acquire_device_identity`, with the worker started.
  abbrev built : Options → Host → DataDir → ℕ → Storage → Client d
  built options host dir now stored = record {
    settings = record {
      endpoint = trim_trailing_slash (value_or options.endpoint []);
      build_version = value_or options.build_version [];
      os = host.os;
      arch = host.arch;
      session_id = host.session_id;
      session_log_enabled = options.enable_session_log;
      storage_available = stored.storage_available;
    };
    initialized = true;
    consent = options.consent_granted;
    gate = arm options.auto_start_session new_gate;
    context = record {
      role = [];
      server_id = [];
      match_id = [];
      environment =
          if is_unset options.environment
          then []
          else clamped options.environment Limits.environment;
      region = [];
      hostname = [];
      current_level = [];
    };
    carry = record {
      identity = record new_identity {
        provisional_user_id =
            (acquire_device_identity (value_or options.token []) host.machine
              (identity_file dir)).0;
      };
      metadata = new_metadata;
      device = no_device d;
      device_sent = false;
      device_in_flight = false;
    };
    breadcrumbs = new_ring default_capacity;
    dedupe = new_window 60000;
    session_log = stored.session_log;
    event_batch = record { items = []; first_add = 0 };
    metric_batch = record { items = []; first_add = 0 };
    worker = Worker.start now (record {
      queue = [];
      running = false;
      in_flight = false;
      previous_log_claimed = false;
      wake_requested = false;
      next_log_flush = 0;
      sidecars = stored.sidecars;
    });
  }

  -- `init` up to the restart of the pending files
  unfoldable pub prepare : Options → Host → DataDir → ℕ → Session d
  unfolding configure_storage
  prepare options host dir now =
      let stored = configure_storage options dir in
      let drained = drain_sidecars d (built options host dir now stored) in
      record {
        client = drained.0;
        unclean_detection_enabled = options.enable_unclean_shutdown_detection;
        session_tracking_started = false;
        marker = stored.marker;
        previous_marker = stored.previous_marker;
        previous_native_dump = stored.previous_native_dump;
        had_previous_log = stored.had_previous_log;
        has_restored_crash = drained.1;
      }

  -- `none` where the options are refused: the client is destroyed, and nothing was touched.
  unfoldable pub init : Options → Host → DataDir → Moment → Option (Session d) × Result
  init options host dir moment =
      let ready = prepare options host dir (moment.now 0) in
      if refused options then (none, invalid_argument) else (
        some (
            if options.consent_granted
            then start_session_tracking d dir.marker_disk moment ready
            else ready),
        ok,
      )

  -- `set_consent`
  unfoldable pub change_consent : SessionMarker.Disk → Moment → Bool → Session d → Session d
  change_consent files moment granted s =
      let changed = record s { client = set_consent d granted s.client } in
      if granted && s.client.initialized
      then start_session_tracking d files moment changed
      else changed

  -- `~Client`: what the disk keeps. Without the deliveries that the wait of the flush allows.
  unfoldable pub close : SessionMarker.Disk → Moment → List Draw → Session d → Session d
  close files moment draws s =
      let logged = record s.client {
        session_log =
            if s.client.settings.session_log_enabled && s.client.settings.storage_available
            then SessionLog.flush_now moment.disk s.client.session_log
            else s.client.session_log;
      } in
      let flushed = flush_all_batches d moment logged in
      record s {
        client = record flushed { worker = Worker.stop draws flushed.worker };
        marker =
            if s.client.settings.storage_available
            then SessionMarker.remove files s.marker
            else s.marker;
      }
