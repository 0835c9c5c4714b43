-- ===== src/Client/Control.antt =====
-- The control calls, the heartbeat and its acknowledgement, and the restart of src/client.cpp.
pub mod Restart
use tombstack_native.Prelude.{
  Bool, true, false, not, ◌&&◌, ◌||◌, Option, none, some, List, [], ◌∷◌, ◌++◌, map, if◌then◌else◌,
  value_or, is_empty, Bytes, codes,
}
use tombstack_native.Prelude.Int.{ℤ, pos}
use tombstack_native.Json.Pending.{PendingPullRequest, find_pending_requests}
use tombstack_native.Json.Scan.{find_bool_field}
use tombstack_native.Payloads.{Doubles}
use tombstack_native.Payloads.Limits
use tombstack_native.Payloads.Heartbeat.{HeartbeatPayload, build_heartbeat_json}
use tombstack_native.Payloads.Pull.{
  build_pull_request_json, build_pull_fulfill_json, pull_request_targets_client,
}
use tombstack_native.BreadcrumbRing
use tombstack_native.StartGate.{set_gate, is_set}
use tombstack_native.SidecarQueue
use tombstack_native.SidecarQueue.{SidecarKind, crash, bug_report, event, SidecarRecord}
use tombstack_native.Worker.{
  UploadJob, new_job, ephemeral, persist_on_failure, write_ahead, enqueue, enqueue_all,
}
use tombstack_native.Client.Identity.{
  Result, ok, invalid_argument, not_initialized, current_user_id,
}
use tombstack_native.Client.Device.{no_device}
use tombstack_native.Client.Carry.{build_beat, commit_ack}
use tombstack_native.Client.State.{Client, Moment, capture_allowed}
use tombstack_native.Client.Capture.{is_unset, crashes_path, bug_reports_path}

abbrev pub heartbeats_path : Bytes
heartbeats_path = codes "/api/v1/ingest/heartbeats"

abbrev pub events_path : Bytes
events_path = codes "/api/v1/ingest/events"

abbrev pub pull_requests_path : Bytes
pull_requests_path = codes "/api/v1/pull-requests"

abbrev pub ingest_path_for : SidecarKind → Bytes
ingest_path_for crash = crashes_path
ingest_path_for bug_report = bug_reports_path
ingest_path_for event = events_path

is_crash : SidecarKind → Bool
is_crash crash = true
is_crash _ = false

has_crash : List SidecarRecord → Bool
unfolding is_crash
has_crash [] = false
has_crash (r ∷ rs) = is_crash r.kind || has_crash rs

module _ (d : Doubles) where
  -- `set_consent`, up to `start_session_tracking`
  unfoldable pub set_consent : Bool → Client d → Client d
  set_consent granted c = record c {
    consent = granted;
    breadcrumbs =
        if not (granted && c.initialized) && (not granted && c.consent)
        then BreadcrumbRing.clear c.breadcrumbs
        else c.breadcrumbs;
  }

  -- The second answer says whether the heartbeat thread and the worker are woken.
  unfoldable pub start_session : Client d → Client d × Bool
  start_session c = (
    record c {
      gate = (set_gate c.gate).0;
      worker = record c.worker { wake_requested = (set_gate c.gate).1 || c.worker.wake_requested };
    },
    (set_gate c.gate).1,
  )

  unfoldable pub request_player_logs :
      Option Bytes → Option Bytes → Option Bytes → Client d → Client d × Result
  request_player_logs target_type target_value reason c =
      let job = record new_job {
        url = c.settings.endpoint ++ pull_requests_path;
        body =
            build_pull_request_json (value_or target_type []) (value_or target_value [])
              (value_or reason []);
        durability = persist_on_failure;
        no_persist = true;
      } in
      if not c.initialized
      then (c, not_initialized)
      else if is_unset target_type || is_unset target_value || is_unset reason
      then (c, invalid_argument)
      else (record c { worker = enqueue job c.worker }, ok)

  -- what `consume` answers, where it is valid
  pub record FrameStats : Type 0 where
    pub fps_avg : d.double
    pub slow_frame_pct : d.double
    pub hitch_count : ℤ
    pub worst_frame_ms : ℤ

  abbrev no_frames : FrameStats
  no_frames = record {
    fps_avg = d.unset;
    slow_frame_pct = d.unset;
    hitch_count = pos 0;
    worst_frame_ms = pos 0;
  }

  abbrev is_valid : Option FrameStats → Bool
  is_valid none = false
  is_valid (some frames) = true

  unfoldable pub heartbeat_payload : Moment → Option FrameStats → Client d → HeartbeatPayload d
  heartbeat_payload moment frames c =
      let beat = (build_beat d c.carry).1 in
      record {
        session_id = c.settings.session_id;
        occurred_at_iso = moment.iso 0;
        build_version = c.settings.build_version;
        os = c.settings.os;
        arch = c.settings.arch;
        user_id = beat.user_id;
        prior_user_id = beat.prior_user_id;
        metadata_json = beat.metadata_json;
        has_frame_stats = is_valid frames;
        fps_avg = (value_or frames no_frames).fps_avg;
        slow_frame_pct = (value_or frames no_frames).slow_frame_pct;
        hitch_count = (value_or frames no_frames).hitch_count;
        worst_frame_ms = (value_or frames no_frames).worst_frame_ms;
        role = if is_empty c.context.role then codes "client" else c.context.role;
        server_id = c.context.server_id;
        match_id = c.context.match_id;
        region = c.context.region;
        hostname = c.context.hostname;
        environment = c.context.environment;
        device = value_or beat.device (no_device d);
      }

  unfoldable pub heartbeat_job : Moment → Option FrameStats → Client d → UploadJob
  unfolding heartbeat_payload
  heartbeat_job moment frames c = record new_job {
    url = c.settings.endpoint ++ heartbeats_path;
    body = build_heartbeat_json d (heartbeat_payload moment frames c);
    durability = ephemeral;
    parse_ack = true;
    sign_body = true;
  }

  -- One round of `heartbeat_loop`, up to its wait; the frame statistics are what `consume` answers.
  unfoldable pub heartbeat : Moment → Option FrameStats → Client d → Client d
  unfolding heartbeat_job
  heartbeat moment frames c =
      if capture_allowed d c && is_set c.gate
      then record c {
        carry = (build_beat d c.carry).0;
        worker = enqueue (heartbeat_job moment frames c) c.worker;
      }
      else c

  -- whether a pull request is honoured
  unfoldable pub is_honoured : Client d → PendingPullRequest → Bool
  is_honoured c request =
      not (is_empty request.request_id)
      && pull_request_targets_client request.target_type request.target_value
          (current_user_id c.carry.identity) c.settings.session_id c.context.match_id
          c.context.server_id

  abbrev pub fulfill_job : Client d → PendingPullRequest → UploadJob
  fulfill_job c request = record new_job {
    url =
        c.settings.endpoint
        ++ (pull_requests_path ++ (b'/' ∷ (request.request_id ++ codes "/fulfill")));
    body =
        build_pull_fulfill_json (current_user_id c.carry.identity) c.settings.session_id
          c.context.match_id c.context.server_id request.fulfill_nonce request.nonce_expiry;
    durability = persist_on_failure;
    request_log = true;
    no_persist = true;
  }

  unfoldable pub fulfill_jobs : Client d → List PendingPullRequest → List UploadJob
  unfolding is_honoured
  fulfill_jobs c [] = []
  fulfill_jobs c (request ∷ requests) =
      let rest = fulfill_jobs c requests in
      if is_honoured c request then fulfill_job c request ∷ rest else rest

  -- The state behind an acknowledgement, and the jobs that it queues.
  unfoldable pub handle_heartbeat_ack : Bytes → Client d → Client d × List UploadJob
  unfolding fulfill_jobs
  handle_heartbeat_ack response_body c =
      let committed = record c { carry = commit_ack d c.carry } in
      (
        committed,
        if not (capture_allowed d c) || is_empty response_body
            then []
            else fulfill_jobs committed (find_pending_requests response_body),
      )

  -- the job of a record that an earlier run left
  unfoldable pub restored_job : Client d → SidecarRecord → UploadJob
  restored_job c r = record new_job {
    url = c.settings.endpoint ++ ingest_path_for r.kind;
    body = r.body;
    durability = write_ahead;
    kind = r.kind;
    sidecar_path = some r.path;
    request_log =
        (elim r.kind [ event ↦ false | _ ↦ true ])
        && value_or (find_bool_field r.body (codes "log")) false;
    log_from_previous = true;
    sign_body = true;
  }

  -- `drain_sidecars`; the second answer is `has_restored_crash_`
  unfoldable pub drain_sidecars : Client d → Client d × Bool
  unfolding restored_job has_crash
  drain_sidecars c =
      let records = SidecarQueue.scan c.worker.sidecars in
      (record c { worker = enqueue_all (map (restored_job c) records) c.worker }, has_crash records)
