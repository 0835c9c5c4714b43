-- ===== src/Worker.antt =====
-- src/worker.h and src/worker.cpp: the delivery thread. Times are steady-clock milliseconds. What
-- happens outside is the argument of each operation: the clock, the answer of the transport, the
-- log bytes, the file name drawn for a sidecar, and the jobs that the client's handlers queue.
mod Job
pub mod Step
pub mod Queue
pub mod Take
pub mod Wakeup
pub mod Delivery
pub mod Leftovers
mod Tests
pub use Job.*
use tombstack_native.Prelude.{
  ℕ, ◌+◌, ◌*◌, Bool, true, false, not, ◌&&◌, ◌||◌, Option, none, some, List, [], ◌∷◌, ◌++◌, ltb,
  leb, ◌==◌, if◌then◌else◌, length, is_empty, drop, pop_front, Bytes,
}
use tombstack_native.Prelude.Int.{ℤ, pos, negsuc}
use tombstack_native.Retry.{parse_retry_after_seconds, retry_delay}
use tombstack_native.Json.Upload.{LogUpload, find_log_upload}
use tombstack_native.SidecarQueue
use tombstack_native.SidecarQueue.{SidecarQueue, Draw}

unfoldable pub classify : Bool → ℕ → Outcome
classify transport_error status =
    if transport_error
    then transient
    else if leb 200 status && ltb status 300
    then delivered
    else if status == 408 || status == 429 || leb 500 status
    then transient
    else poison

unfoldable pub retry_after_hint : ℕ → Bytes → ℤ
retry_after_hint status retry_after =
    if not (status == 429) && not (status == 503)
    then negsuc 0
    else parse_retry_after_seconds retry_after

unfoldable pub enqueue : UploadJob → Worker → Worker
enqueue job w = record w {
  queue = (if leb max_queue_size (length w.queue) then pop_front w.queue else w.queue) ++ job ∷ [];
}

unfoldable pub enqueue_all : List UploadJob → Worker → Worker
enqueue_all [] w = w
enqueue_all (job ∷ jobs) w = enqueue_all jobs (enqueue job w)

abbrev pub is_ephemeral : Durability → Bool
is_ephemeral ephemeral = true
is_ephemeral _ = false

-- the test in front of both calls of `sidecars_.write`
abbrev pub wants_file : UploadJob → Bool
wants_file job =
    not job.is_log_upload
    && not job.no_persist
    && (elim job.sidecar_path [ none ↦ true | some p ↦ false ])
    && not (is_ephemeral job.durability)

persist : UploadJob → Draw → Worker → Worker
persist job draw w =
    if wants_file job
    then record w { sidecars = (SidecarQueue.write job.kind job.body draw w.sidecars).0 }
    else w

unfoldable pub retry_or_give_up : UploadJob → ℤ → World → Worker → Worker
unfolding persist
retry_or_give_up job hint world w =
    if ltb (job.attempt + 1) max_attempts
    then enqueue
        (record job {
          attempt = job.attempt + 1;
          not_before = world.now + seconds (retry_delay (pos (job.attempt + 1)) hint);
        })
        w
    else persist job world.draw w

-- the last lines of `schedule_log_upload`: nothing is queued for an empty log
put_job : LogUpload → Bytes → UploadJob
put_job upload bytes = record new_job {
  is_log_upload = true;
  url = upload.url;
  form_fields = upload.fields;
  raw = bytes;
  durability = persist_on_failure;
}

put_log : LogUpload → Bytes → Worker → Worker
unfolding put_job
put_log upload bytes w = if is_empty bytes then w else enqueue (put_job upload bytes) w

-- the branch where the server granted a slot; the claim is an atomic exchange
granted : UploadJob → LogUpload → World → Worker → Worker
unfolding put_log
granted job upload world w =
    if job.log_from_previous
    then (if w.previous_log_claimed
        then w
        else put_log upload world.previous_log (record w { previous_log_claimed = true }))
    else put_log upload world.current_log w

grant_log : UploadJob → Option LogUpload → World → Worker → Worker
unfolding granted
grant_log job none world w = w
grant_log job (some upload) world w = granted job upload world w

unfoldable pub schedule_log_upload : UploadJob → World → Worker → Worker
unfolding grant_log
schedule_log_upload job world w = grant_log job (find_log_upload world.response.body) world w

abbrev ack_jobs_of : Option (Bytes → List UploadJob) → Bytes → List UploadJob
ack_jobs_of none body = []
ack_jobs_of (some handler) body = handler body

drop_file : UploadJob → Worker → Worker
drop_file job w = record w { sidecars = SidecarQueue.remove job.sidecar_path w.sidecars }

-- the case `Outcome::delivered`
unfoldable pub deliver : UploadJob → World → Worker → Worker
unfolding drop_file enqueue_all
deliver job world w =
    let removed = drop_file job w in
    let logged = if job.request_log then schedule_log_upload job world removed else removed in
    if job.parse_ack
    then enqueue_all (ack_jobs_of world.ack_jobs world.response.body) logged
    else logged

unfoldable pub handle_outcome : Outcome → UploadJob → World → Worker → Worker
unfolding drop_file
handle_outcome delivered job world w = deliver job world w
handle_outcome poison job world w = drop_file job w
handle_outcome transient job world w =
    if is_ephemeral job.durability
    then w
    else retry_or_give_up job (retry_after_hint world.response.status world.response.retry_after)
        world w

abbrev pub outcome_of : World → Outcome
outcome_of world = classify world.response.transport_error world.response.status

-- `handle_post_result`
unfoldable pub handle_post_result : UploadJob → World → Worker → Worker
handle_post_result job world w = handle_outcome (outcome_of world) job world w

log_outcome : Outcome → UploadJob → World → Worker → Worker
log_outcome transient job world w =
    if ltb (job.attempt + 1) max_attempts
    then retry_or_give_up job (retry_after_hint world.response.status world.response.retry_after)
        world w
    else w
log_outcome _ job world w = w

-- `process`, up to the round-trip sample
unfoldable pub process : UploadJob → World → Worker → Worker
unfolding log_outcome
process job world w =
    if job.is_log_upload
    then log_outcome (outcome_of world) job world w
    else handle_post_result job world w

is_delivered : Outcome → Bool
is_delivered delivered = true
is_delivered _ = false

-- `emit_rtt`: whether `process` hands a round-trip time to the handler
unfoldable pub emits_rtt : UploadJob → World → Bool
unfolding is_delivered
emits_rtt job world =
    not job.is_log_upload
    && (world.rtt_handler
        && job.sign_body
        && not job.suppress_rtt
        && is_delivered (outcome_of world))

-- the first job of the queue that is due, with the queue without it
pub take_due : ℕ → List UploadJob → Option (UploadJob × List UploadJob)
take_due now [] = none
take_due now (job ∷ jobs) =
    let rest = take_due now jobs in
    if leb job.not_before now
    then some (job, jobs)
    else elim rest [ none ↦ none | some (found, others) ↦ some (found, job ∷ others) ]

unfoldable pub take_ready_job : ℕ → Worker → Option (UploadJob × Worker)
unfolding take_due
take_ready_job now w = elim (take_due now w.queue) [
  | none ↦ none
  | some (job, others) ↦ some (job, record w { queue = others })
]

abbrev draw_at : List Draw → Draw
draw_at [] = record { name = []; opens = false }
draw_at (d ∷ ds) = d

-- the loop of `persist_leftovers`, with a draw for each job
pub persist_all : List UploadJob → List Draw → Worker → Worker
unfolding persist
persist_all [] draws w = w
persist_all (job ∷ jobs) draws w = persist_all jobs (drop 1 draws) (persist job (draw_at draws) w)

unfoldable pub persist_leftovers : List Draw → Worker → Worker
unfolding persist_all
persist_leftovers draws w = persist_all w.queue draws (record w { queue = [] })

-- `stop`, once the thread has ended
unfoldable pub stop : List Draw → Worker → Worker
unfolding persist_leftovers
stop draws w = if not w.running then w else persist_leftovers draws (record w { running = false })

-- `start`
unfoldable pub start : ℕ → Worker → Worker
start now w = if w.running then w else record w { running = true; next_log_flush = now + seconds 5 }

-- the test of `flush`
pub is_drained : Worker → Bool
is_drained w = is_empty w.queue && not w.in_flight
