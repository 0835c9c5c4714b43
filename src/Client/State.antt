-- ===== src/Client/State.antt =====
-- The state of the client, and how it hands jobs to the delivery thread: `enqueue_ingest` of
-- src/client_reports.cpp and the batch drains of src/client.cpp. The delivery thread, with the
-- pending files, is the worker's model. What the clocks, the disk and the random engine answer is
-- an argument.
use tombstack_native.Prelude.{
  ℕ, Bool, true, false, not, ◌&&◌, none, List, [], ◌++◌, map, if◌then◌else◌, is_empty, Bytes, codes,
}
use tombstack_native.Payloads.{Doubles}
use tombstack_native.BreadcrumbRing.{BreadcrumbRing}
use tombstack_native.Dedupe.{DedupeWindow}
use tombstack_native.StartGate.{StartGate, is_set}
use tombstack_native.SessionLog.{SessionLog}
use tombstack_native.SessionLog
use tombstack_native.SidecarQueue
use tombstack_native.SidecarQueue.{SidecarKind, Draw}
use tombstack_native.Batch.{Batch, drain_envelopes_if_ready}
use tombstack_native.Worker.{
  Worker, UploadJob, new_job, Durability, persist_on_failure, write_ahead, enqueue, enqueue_all,
}
use tombstack_native.Client.Carry.{Carry}

-- what `init` settles
pub record Settings : Type 0 where
  pub endpoint : Bytes
  pub build_version : Bytes
  pub os : Bytes
  pub arch : Bytes
  pub session_id : Bytes
  pub session_log_enabled : Bool
  pub storage_available : Bool

-- what `match_mutex_` guards, but for the device
pub record Context : Type 0 where
  pub role : Bytes
  pub server_id : Bytes
  pub match_id : Bytes
  pub environment : Bytes
  pub region : Bytes
  pub hostname : Bytes
  pub current_level : Bytes

pub record Client (d : Doubles) : Type 0 where
  pub settings : Settings
  pub initialized : Bool
  pub consent : Bool
  pub gate : StartGate
  pub context : Context
  pub carry : Carry d
  pub breadcrumbs : BreadcrumbRing
  pub dedupe : DedupeWindow
  pub session_log : SessionLog
  pub event_batch : Batch
  pub metric_batch : Batch
  pub worker : Worker

-- What one call meets outside: the readings of the wall clock and of the steady clock, which counts
-- milliseconds, one for each place in the call; the disk under the session log; and the name drawn
-- for a pending file.
pub record Moment : Type 0 where
  pub iso : ℕ → Bytes
  pub now : ℕ → ℕ
  pub disk : SessionLog.Disk
  pub draw : Draw

abbrev pub events_batch_path : Bytes
events_batch_path = codes "/api/v1/ingest/events:batch"

abbrev pub metrics_batch_path : Bytes
metrics_batch_path = codes "/api/v1/ingest/metrics:batch"

abbrev pub is_write_ahead : Durability → Bool
is_write_ahead write_ahead = true
is_write_ahead _ = false

-- the job of a batch envelope
abbrev pub envelope_job : Bytes → Bool → Bytes → UploadJob
envelope_job url suppress_rtt envelope = record new_job {
  url = url;
  body = envelope;
  durability = persist_on_failure;
  no_persist = true;
  sign_body = true;
  suppress_rtt = suppress_rtt;
}

-- `maybe_flush_batch`: the batch that is left and the jobs, in order
unfoldable pub maybe_flush_batch : Bytes → Bool → Bytes → ℕ → Bool → Batch → Batch × List UploadJob
maybe_flush_batch url suppress_rtt sent_at_iso now force batch =
    let drained = drain_envelopes_if_ready sent_at_iso now force batch in
    if is_empty batch.items
    then (batch, [])
    else (drained.0, map (envelope_job url suppress_rtt) drained.1)

module _ (d : Doubles) where
  abbrev pub capture_allowed : Client d → Bool
  capture_allowed c = c.initialized && c.consent

  -- The worker with the job: a write-ahead body is on disk first, where there is storage.
  unfoldable pub enqueue_ingest :
      Bytes → Bytes → Durability → SidecarKind → Bool → Bool → Draw → Client d → Client d
  enqueue_ingest path body durability kind request_log log_from_previous draw c =
      let ahead = is_write_ahead durability && c.settings.storage_available in
      let written = SidecarQueue.write kind body draw c.worker.sidecars in
      record c {
        worker =
            enqueue
              (record new_job {
                url = c.settings.endpoint ++ path;
                body = body;
                durability = durability;
                kind = kind;
                request_log = request_log;
                log_from_previous = log_from_previous;
                sign_body = true;
                sidecar_path = if ahead then written.1 else none;
              })
              (record c.worker { sidecars = if ahead then written.0 else c.worker.sidecars });
      }

  -- both calls of `maybe_flush_batch`, the events first
  unfoldable pub flush_batches : Moment → Bool → Client d → Client d
  unfolding maybe_flush_batch
  flush_batches moment force c =
      let events =
        maybe_flush_batch (c.settings.endpoint ++ events_batch_path) false (moment.iso 2)
          (moment.now 1) force c.event_batch in
      let metrics =
        maybe_flush_batch (c.settings.endpoint ++ metrics_batch_path) true (moment.iso 3)
          (moment.now 1) force c.metric_batch in
      record c {
        event_batch = events.0;
        metric_batch = metrics.0;
        worker = enqueue_all metrics.1 (enqueue_all events.1 c.worker);
      }

  -- `drain_ready_batches`, the worker's hook
  unfoldable pub drain_ready_batches : Moment → Client d → Client d
  unfolding flush_batches
  drain_ready_batches moment c = if not (is_set c.gate) then c else flush_batches moment false c

  unfoldable pub flush_all_batches : Moment → Client d → Client d
  unfolding flush_batches
  flush_all_batches moment c = if not (is_set c.gate) then c else flush_batches moment true c
