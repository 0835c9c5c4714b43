-- ===== src/Client/Tests.antt =====
-- Runs and witnesses for src/client.cpp and src/client_reports.cpp.
use tombstack_native.Prelude.{
  ◌≤◌, ◌≡◌, refl, ◌⊎◌, inl, inr, Bool, true, false, not, ◌&&◌, none, some, [], ◌∷◌, if◌then◌else◌,
  length, is_empty, All, Bytes, codes, str_eq,
}
use tombstack_native.Json.Writer.{document, string_field}
use tombstack_native.Json.Escape.{json_escape}
use tombstack_native.Json.Utf8.{utf8_safe_truncate}
use tombstack_native.Payloads.Metadata.{clamp_user_metadata, build_user_metadata_json}
use tombstack_native.Payloads.Whole.{whole, laptop}
use tombstack_native.Client.Identity.{
  new_identity, new_metadata, set_user, set_identity, set_user_metadata, beat_identity,
  beat_metadata, ack_identity, ack_metadata,
}
use tombstack_native.Client.Carry.{
  Carry, Beat, snap_identity, snap_device, snap_metadata, raise_flag, build_beat, commit_ack,
  carry_set_user, carry_set_metadata, store_device,
}
use tombstack_native.Client.Beats.{
  Exchange, Mode, idle, Reach, here, next, user_step, identity_snap, device_snap, metadata_snap,
  enqueue_step, ack_step,
}
use tombstack_native.Client.Beats.Sound.{IsSound, Reach-IsSound}
use tombstack_native.Client.Beats.Device.{steady, Delivered, device_sent-Reach}
use tombstack_native.Client.Beats.Settled.{lossless, IsQuiet, build_beat-IsQuiet}
use tombstack_native.Client.Beats.Commit.{one_by_one, ack_identity-Reach}
use tombstack_native.Prelude.Assoc.{lookup}
use tombstack_native.Json.Pending.{max_requests, find_pending_requests}
use tombstack_native.Payloads.Device.{DevicePayload, device_has_content}
use tombstack_native.Payloads.Crash.{CrashPayload, BugReportPayload, build_crash_json}
use tombstack_native.BreadcrumbRing.{new_ring}
use tombstack_native.Dedupe
use tombstack_native.Dedupe.{new_window}
use tombstack_native.SessionLog.{new_log}
use tombstack_native.SidecarQueue.{crash}
use tombstack_native.StartGate.{is_set}
use tombstack_native.Client.Identity.{ok}
use tombstack_native.Client.State.{Client, Moment, capture_allowed}
use tombstack_native.Client.Capture.{effective_signature, crash_payload, wants_log, report_crash}
use tombstack_native.Client.Capture.Consent.{Refused, capture, crash_call, capture-Refused}
use tombstack_native.Client.Capture.Crash.{IsKept, report_crash-IsKept}
use tombstack_native.Client.Control.{handle_heartbeat_ack}
use tombstack_native.Client.Control.Restart.{Answers, committed, handle_heartbeat_ack-Answers}

abbrev start_carry : Carry whole
start_carry = record {
  identity = record new_identity { provisional_user_id = codes "dev_1" };
  metadata = new_metadata;
  device = laptop;
  device_sent = false;
  device_in_flight = false;
}

abbrev login : Bytes → Carry whole → Carry whole
login id = carry_set_user whole (some id) none

abbrev logout : Carry whole → Carry whole
logout = carry_set_user whole none none

abbrev beat : Carry whole → Carry whole
beat c = (build_beat whole c).0

abbrev sent : Carry whole → Beat whole
sent c = (build_beat whole c).1

-- A login, and a beat with the marker that is lost; a logout, and a beat without it; a login while
-- that beat is on its way.
abbrev second_login : Carry whole
second_login = login (codes "b") (beat (logout (beat (login (codes "a") start_carry))))

-- The beat without a marker is acknowledged: the marker of the second login is gone, although no
-- beat has delivered it.
marker_lost :
    ((sent (logout (beat (login (codes "a") start_carry)))).prior_user_id ≡ [])
    × (second_login.identity.pending_prior_user_id ≡ codes "dev_1")
    × ((commit_ack whole second_login).identity.pending_prior_user_id ≡ [])
unfolding carry_set_user set_user build_beat beat_identity commit_ack ack_identity
    utf8_safe_truncate str_eq set_identity
marker_lost = (refl, refl, refl)

-- A map whose beat is lost is never sent, where it was cleared for one beat and set again.
abbrev rank : Carry whole → Carry whole
rank = carry_set_metadata whole 1 (some (some (codes "rank") ∷ [])) (some (some (codes "1") ∷ []))

abbrev clear_map : Carry whole → Carry whole
clear_map = carry_set_metadata whole 0 none none

abbrev second_map : Carry whole
second_map = rank (beat (clear_map (beat (rank start_carry))))

map_lost :
    ((sent (clear_map (beat (rank start_carry)))).metadata_json ≡ [])
    × ((sent (commit_ack whole second_map)).metadata_json ≡ [])
    × (build_user_metadata_json (commit_ack whole second_map).metadata.user_metadata
        ≡ codes "{\"rank\":\"1\"}")
unfolding carry_set_metadata set_user_metadata build_beat beat_metadata commit_ack ack_metadata
    utf8_safe_truncate str_eq clamp_user_metadata build_user_metadata_json document string_field
    json_escape
map_lost = (refl, refl, refl)

-- A beat without a marker is on its way when the player logs in and a beat with the marker is built:
-- the acknowledgement of the first beat clears the marker, which the second may lose.
early_ack :
    ((sent start_carry).prior_user_id ≡ [])
    × ((sent (login (codes "a") (beat start_carry))).prior_user_id ≡ codes "dev_1")
    × ((commit_ack whole
          (beat (login (codes "a") (beat start_carry)))).identity.pending_prior_user_id
        ≡ [])
unfolding carry_set_user set_user build_beat beat_identity commit_ack ack_identity
    utf8_safe_truncate str_eq set_identity
early_ack = (refl, refl, refl)

-- A device that is set between its copy for a beat and the flag of that beat counts as sent when that
-- beat is acknowledged, although the beat carried the device before it.
abbrev desktop : DevicePayload whole
desktop = record laptop { model = codes "x" }

abbrev raced : Carry whole → Carry whole
raced c = raise_flag whole (sent c) (store_device whole desktop c)

late_flag :
    ((sent start_carry).device ≡ some laptop)
    × ((commit_ack whole (raced start_carry)).device ≡ desktop)
    × ((commit_ack whole (raced start_carry)).device_sent ≡ true)
    × ((sent (commit_ack whole (raced start_carry))).device ≡ none)
unfolding build_beat snap_device raise_flag store_device commit_ack device_has_content
late_flag = (refl, refl, refl, refl)

abbrev start_exchange : Exchange whole
start_exchange = record { carry = start_carry; draft = idle; outstanding = []; delivered = [] }

abbrev logged_in : Carry whole
logged_in = login (codes "a") start_carry

abbrev named : Carry whole
named = (snap_identity whole logged_in).0

abbrev named_beat : Beat whole
named_beat = (snap_identity whole logged_in).1

abbrev described : Carry whole
described = (snap_metadata whole named (snap_device whole named named_beat)).0

abbrev described_beat : Beat whole
described_beat = (snap_metadata whole named (snap_device whole named named_beat)).1

abbrev raised : Carry whole
raised = raise_flag whole described_beat described

abbrev on_its_way : Exchange whole
on_its_way = record {
  carry = raised;
  draft = idle;
  outstanding = described_beat ∷ [];
  delivered = [];
}

abbrev arrived : Exchange whole
arrived = record {
  carry = commit_ack whole raised;
  draft = idle;
  outstanding = [];
  delivered = described_beat ∷ [];
}

to_login : (m : Mode) → Reach whole m start_exchange (record start_exchange { carry = logged_in })
to_login m = next here (user_step (some (codes "a")) none start_carry idle [] [])

to_beat : (m : Mode) → Reach whole m start_exchange on_its_way
to_beat m =
    next
      (next
        (next (next (to_login m) (identity_snap logged_in [] [] (inr refl)))
          (device_snap named named_beat [] []))
        (metadata_snap named (snap_device whole named named_beat) [] []))
      (enqueue_step described described_beat [] [])

to_ack : (m : Mode) → Reach whole m start_exchange arrived
to_ack m = next (to_beat m) (ack_step raised idle [] described_beat [] [])

start-IsSound : IsSound (codes "dev_1") start_carry.identity
start-IsSound = record {
  has_provisional = refl;
  marker_names = inl refl;
  in_flight_names = inl refl;
  logged_out = inr refl;
}

Reach-IsSound_example : IsSound (codes "dev_1") arrived.carry.identity
Reach-IsSound_example =
    Reach-IsSound whole (record { lossy = true; pipelined = true; racing = true }) (codes "dev_1")
      start_exchange arrived start-IsSound
      (to_ack (record { lossy = true; pipelined = true; racing = true }))

device_is_sent : arrived.carry.device_sent ≡ true
unfolding commit_ack raise_flag snap_metadata snap_device snap_identity carry_set_user
    device_has_content
device_is_sent = refl

device_sent-Reach_example : Delivered whole arrived.carry.device arrived.delivered
device_sent-Reach_example =
    device_sent-Reach whole true start_exchange arrived ((refl, refl), (refl, refl))
      (to_ack (steady true)) device_is_sent

ack_identity-Reach_example : (commit_ack whole raised).identity.pending_prior_user_id ≡ (
    if not (is_empty described_beat.prior_user_id)
      && str_eq described_beat.prior_user_id raised.identity.pending_prior_user_id
    then []
    else raised.identity.pending_prior_user_id)
ack_identity-Reach_example =
    ack_identity-Reach whole false start_exchange raised idle [] described_beat [] []
      (refl, refl, refl, refl, refl) (to_beat (one_by_one false))

build_beat-IsQuiet_example :
    IsQuiet whole (build_beat whole (commit_ack whole (build_beat whole logged_in).0)).1
build_beat-IsQuiet_example =
    build_beat-IsQuiet whole true true start_exchange logged_in [] refl
      (to_login (lossless true true))

abbrev sample_client : Bool → Bool → Client whole
sample_client consent opened = record {
  settings = record {
    endpoint = codes "https://t";
    build_version = codes "1";
    os = codes "linux";
    arch = codes "x64";
    session_id = codes "a";
    session_log_enabled = true;
    storage_available = true;
  };
  initialized = true;
  consent = consent;
  gate = record { opened = opened; requested = false };
  context = record {
    role = [];
    server_id = [];
    match_id = [];
    environment = [];
    region = [];
    hostname = [];
    current_level = [];
  };
  carry = start_carry;
  breadcrumbs = new_ring 4;
  dedupe = new_window 60000;
  session_log = new_log;
  event_batch = record { items = []; first_add = 0 };
  metric_batch = record { items = []; first_add = 0 };
  worker = record {
    queue = [];
    running = true;
    in_flight = false;
    previous_log_claimed = false;
    wake_requested = false;
    next_log_flush = 0;
    sidecars = record { crashes = []; bug_reports = []; events = []; configured = true };
  };
}

abbrev sample_moment : Moment
sample_moment = record {
  iso = λ i. codes "2026";
  now = λ i. 1000;
  disk = record { removes = true; renames = true; appends = true; truncates = true; reads = true };
  draw = record { name = codes "1.json"; opens = true };
}

capture-Refused_example : Refused whole (sample_client false true) (
    capture whole sample_moment
      (crash_call none (some (codes "boom")) none true)
      (sample_client false true))
capture-Refused_example =
    capture-Refused whole sample_moment (crash_call none (some (codes "boom")) none true)
      (sample_client false true) refl

first_crash :
    (Dedupe.check
      (effective_signature whole (some (codes "s")) none none)
      (sample_moment.now 0)
      (sample_client true true).dedupe).1.allowed
    ≡ true
unfolding Dedupe.check lookup
first_crash = refl

report_crash-IsKept_example :
    ((report_crash whole sample_moment
        (some (codes "s"))
        none
        none
        true
        (sample_client true true)).1
      ≡ ok)
    × IsKept whole crash sample_moment.draw
        (build_crash_json whole (
          crash_payload whole sample_moment
            (some (codes "s"))
            none
            none
            (wants_log whole true (sample_client true true))
            (sample_client true true)))
        (report_crash whole sample_moment
          (some (codes "s"))
          none
          none
          true
          (sample_client true true)).0.worker
report_crash-IsKept_example =
    report_crash-IsKept whole sample_moment (some (codes "s")) none none true
      (sample_client true true) refl first_crash refl refl

held : is_set (sample_client true false).gate ≡ false
unfolding is_set
held = refl

abbrev plain_crash : CrashPayload whole
plain_crash = crash_payload whole sample_moment none none none true (sample_client true true)

abbrev plain_report : BugReportPayload whole
plain_report = record {
  occurred_at_iso = [];
  build_version = [];
  os = [];
  arch = [];
  category = [];
  message = codes "\"log\":true";
  user_id = [];
  prior_user_id = [];
  steam_id = [];
  breadcrumbs = [];
  log = false;
  role = [];
  server_id = [];
  match_id = [];
  session_id = [];
  environment = [];
  device = laptop;
}

abbrev ack_body : Bytes
ack_body =
    codes
      "{\"data\":{\"pendingRequests\":[{\"requestId\":\"r\",\"targetType\":\"userId\",\"targetValue\":\"dev_1\"}]}}"

handle_heartbeat_ack-Answers_example :
    All
      (Answers whole (committed whole (sample_client true true)) (find_pending_requests ack_body))
      (handle_heartbeat_ack whole ack_body (sample_client true true)).1
    × (length (handle_heartbeat_ack whole ack_body (sample_client true true)).1 ≤ max_requests)
    × ((capture_allowed whole (sample_client true true) ≡ true)
        ⊎ ((handle_heartbeat_ack whole ack_body (sample_client true true)).1 ≡ []))
handle_heartbeat_ack-Answers_example =
    handle_heartbeat_ack-Answers whole ack_body (sample_client true true)
