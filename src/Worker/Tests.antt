-- ===== src/Worker/Tests.antt =====
-- Runs and witnesses for src/worker.cpp.
use tombstack_native.SidecarQueue.{SidecarPath}
use tombstack_native.Worker.{
  persist_all, retry_after_hint, retry_or_give_up, handle_outcome, handle_post_result, UploadJob,
  new_job, Worker, World, classify, process, take_ready_job, stop, start, enqueue,
}
use tombstack_native.Prelude.Assoc.{insert}
use tombstack_native.SidecarQueue.{write, crash, SidecarQueue, Draw}
use tombstack_native.Retry.{parse_retry_after_seconds, retry_delay}
use tombstack_native.Prelude.{
  ◌+◌, ◌≤◌, ◌<◌, ◌≡◌, refl, true, false, none, some, [], ◌∷◌, map, arith, codes, str_eq,
}
use tombstack_native.SidecarQueue.Bounds.{body_at}
use tombstack_native.Worker.Wakeup.{earliest, next_wakeup, next_wakeup-take_ready_job}
use tombstack_native.Worker.Queue.{IsSound}
use tombstack_native.Worker.Delivery.{Kept, process-Kept}
use tombstack_native.Worker.Leftovers.{stop_saves}
use tombstack_native.Worker.Step.{
  here, next, enqueues, takes, finishes, starts, InHand, Reach-bounds,
}

abbrev files : SidecarQueue
files = record { crashes = []; bug_reports = []; events = []; configured = true }

abbrev idle : Worker
idle = record {
  queue = [];
  running = false;
  in_flight = false;
  previous_log_claimed = false;
  wake_requested = false;
  next_log_flush = 0;
  sidecars = files;
}

abbrev drawn : Draw
drawn = record { name = codes "1-a.json"; opens = true }

-- The server is busy and asks for nine seconds.
abbrev busy : World
busy = record {
  now = 1000;
  response = record { transport_error = false; status = 429; body = []; retry_after = codes "9" };
  previous_log = [];
  current_log = [];
  draw = drawn;
  ack_jobs = none;
  rtt_handler = false;
}

abbrev taken : World
taken = record busy {
  response = record { transport_error = false; status = 201; body = codes "{}"; retry_after = [] };
}

abbrev report : UploadJob
report = record new_job { body = codes "{\"a\":1}"; kind = crash }

abbrev last_try : UploadJob
last_try = record report { attempt = 4 }

abbrev stored : UploadJob
stored = record report { sidecar_path = some (record { kind = crash; name = codes "1-a.json" }) }

abbrev holding : Worker
holding = record idle {
  sidecars = record files { crashes = (codes "1-a.json", codes "{\"a\":1}") ∷ [] };
}

waits : map (λ j. j.not_before) (process report busy idle).queue ≡ 10000 ∷ []
unfolding process handle_post_result handle_outcome classify retry_or_give_up enqueue retry_delay
    retry_after_hint parse_retry_after_seconds
waits = refl

gives_up :
    (process last_try busy idle).sidecars.crashes ≡ (codes "1-a.json", codes "{\"a\":1}") ∷ []
unfolding process handle_post_result handle_outcome classify retry_or_give_up write insert
gives_up = refl

process-Kept_example : Kept last_try busy idle (process last_try busy idle)
unfolding classify
process-Kept_example = process-Kept last_try busy idle refl refl refl refl tt

abbrev stored_path : SidecarPath
stored_path = record { kind = crash; name = codes "1-a.json" }

abbrev other_path : SidecarPath
other_path = record { kind = crash; name = codes "2-b.json" }

abbrev later : UploadJob
later = record report { not_before = 5000 }

abbrev two_jobs : Worker
two_jobs = record idle { queue = later ∷ report ∷ [] }

abbrev other_draw : Draw
other_draw = record { name = codes "2-b.json"; opens = true }

stop_saves_example :
    body_at
      (record { kind = crash; name = codes "1-a.json" })
      (stop (drawn ∷ other_draw ∷ []) (record two_jobs { running = true })).sidecars
    ≡ some report.body
unfolding str_eq persist_all
stop_saves_example =
    stop_saves [] (report ∷ []) later [] (other_draw ∷ []) drawn
      (record two_jobs { running = true }) refl refl refl refl refl refl (refl, tt)

abbrev started : Worker
started = record idle { running = true; next_log_flush = 5000 }

-- A report is queued, taken, and queued again.
Reach-bounds_example :
    IsSound (record (process report busy (record started { queue = []; in_flight = true })) {
      in_flight = false;
    })
    × InHand none
unfolding enqueue take_ready_job start
Reach-bounds_example = Reach-bounds idle refl (
    next (next (next (next here (starts 0)) (enqueues report (omega arith))) (takes 1000 refl refl))
      (finishes busy tt))

-- With nothing else to do, the thread sleeps until the job that waits is due.
next_wakeup-take_ready_job_example :
    (take_ready_job 4000 (record idle { queue = later ∷ []; next_log_flush = 6000 }) ≡ none)
    × (4000 < 6000)
    × (next_wakeup true 1000 (record idle { queue = later ∷ []; next_log_flush = 6000 })
        ≤ 1000 + 1000)
unfolding next_wakeup earliest
next_wakeup-take_ready_job_example =
    next_wakeup-take_ready_job false 1000 4000
      (record idle { queue = later ∷ []; next_log_flush = 6000 }) (omega arith)
