-- ===== src/Worker/Queue.antt =====
-- The outbound queue: its bound, and the attempts of its jobs.
use tombstack_native.Prelude.{
  ◌+◌, ◌-◌, ◌≤◌, ◌<◌, ◌≡◌, inl, inr, Bool, true, false, Option, none, some, List, [], ◌∷◌, arith,
  ltb, leb, if◌then◌else◌, ltb→lt, tests, Bool-cases, length, pop_front, All, length-append,
  All-append, Bytes,
}
use tombstack_native.Prelude.Int.{ℤ}
use tombstack_native.SidecarQueue.{Draw}
use tombstack_native.Json.Upload.{LogUpload, find_log_upload}
use tombstack_native.Worker.{
  wants_file, is_ephemeral, UploadJob, Worker, World, Outcome, delivered, transient, poison,
  max_queue_size, max_attempts, enqueue, enqueue_all, retry_or_give_up, persist, put_log, granted,
  grant_log, schedule_log_upload, drop_file, deliver, handle_outcome, handle_post_result,
  log_outcome, process, ack_jobs_of, put_job,
}

-- At most 256 jobs wait, and none has used its five attempts.
pub record IsSound (w : Worker) : Type 0 where
  pub bounded : length w.queue ≤ max_queue_size
  pub attempts : All (λ job. job.attempt < max_attempts) w.queue

All-pop_front :
    (jobs : List UploadJob)
    → All (λ job. job.attempt < max_attempts) jobs
    → All (λ job. job.attempt < max_attempts) (pop_front jobs)
All-pop_front [] h = tt
All-pop_front (job ∷ jobs) h = h.1

length-pop_front : (jobs : List UploadJob) → length (pop_front jobs) ≡ length jobs - 1
length-pop_front [] = omega arith
length-pop_front (job ∷ jobs) = omega arith

pub enqueue-IsSound :
    (job : UploadJob) (w : Worker)
    → job.attempt < max_attempts
    → IsSound w
    → IsSound (enqueue job w)
unfolding enqueue
enqueue-IsSound job w h v = elim (Bool-cases (leb max_queue_size (length w.queue))) [
  | inl full ↦ rw full (record {
    bounded =
        omega (
          arith,
          length-append (pop_front w.queue) (job ∷ []),
          length-pop_front w.queue,
          v.bounded,
        );
    attempts =
        All-append (λ j. j.attempt < max_attempts) (pop_front w.queue) (job ∷ [])
          (All-pop_front w.queue v.attempts) (h, tt);
  })
  | inr room ↦ rw room (record {
    bounded = omega (tests, length-append w.queue (job ∷ []), room);
    attempts = All-append (λ j. j.attempt < max_attempts) w.queue (job ∷ []) v.attempts (h, tt);
  })
]

pub enqueue_all-IsSound :
    (jobs : List UploadJob) (w : Worker)
    → All (λ job. job.attempt < max_attempts) jobs
    → IsSound w
    → IsSound (enqueue_all jobs w)
unfolding enqueue_all
enqueue_all-IsSound [] w h v = v
enqueue_all-IsSound (job ∷ jobs) w h v =
    enqueue_all-IsSound jobs (enqueue job w) h.1 (enqueue-IsSound job w h.0 v)

pub if-IsSound : (b : Bool) (v w : Worker) → IsSound v → IsSound w → IsSound (if b then v else w)
if-IsSound true v w h k = h
if-IsSound false v w h k = k

persist-IsSound :
    (job : UploadJob) (draw : Draw) (w : Worker) → IsSound w → IsSound (persist job draw w)
unfolding persist
persist-IsSound job draw w v = elim (Bool-cases (wants_file job)) [
  | inl e ↦ rw e (record { bounded = v.bounded; attempts = v.attempts })
  | inr e ↦ rw e v
]

retry-IsSound :
    (job : UploadJob) (hint : ℤ) (world : World) (w : Worker)
    → IsSound w
    → IsSound (retry_or_give_up job hint world w)
unfolding retry_or_give_up
retry-IsSound job hint world w v = elim (Bool-cases (ltb (job.attempt + 1) max_attempts)) [
  | inl more ↦ rw more (enqueue-IsSound _ w (ltb→lt _ _ more) v)
  | inr last ↦ rw last (persist-IsSound job world.draw w v)
]

drop_file-IsSound : (job : UploadJob) (w : Worker) → IsSound w → IsSound (drop_file job w)
unfolding drop_file
drop_file-IsSound job w v = record { bounded = v.bounded; attempts = v.attempts }

put_log-IsSound :
    (upload : LogUpload) (bytes : Bytes) (w : Worker) → IsSound w → IsSound (put_log upload bytes w)
unfolding put_log
put_log-IsSound upload [] w v = v
put_log-IsSound upload (c ∷ bytes) w v =
    enqueue-IsSound (put_job upload (c ∷ bytes)) w (unfold put_job in omega arith) v

granted-IsSound :
    (job : UploadJob) (upload : LogUpload) (world : World) (w : Worker)
    → IsSound w
    → IsSound (granted job upload world w)
unfolding granted
granted-IsSound job upload world w v =
    if-IsSound job.log_from_previous _ _
      (if-IsSound w.previous_log_claimed _ _ v (
        put_log-IsSound upload world.previous_log _
          (record { bounded = v.bounded; attempts = v.attempts })))
      (put_log-IsSound upload world.current_log w v)

grant_log-IsSound :
    (job : UploadJob) (upload : Option LogUpload) (world : World) (w : Worker)
    → IsSound w
    → IsSound (grant_log job upload world w)
unfolding grant_log
grant_log-IsSound job none world w v = v
grant_log-IsSound job (some upload) world w v = granted-IsSound job upload world w v

-- The jobs that the client's handler queues are new.
abbrev pub AckJobsNew : World → Type 0
AckJobsNew world =
    All (λ job. job.attempt < max_attempts) (ack_jobs_of world.ack_jobs world.response.body)

deliver-IsSound :
    (job : UploadJob) (world : World) (w : Worker)
    → AckJobsNew world
    → IsSound w
    → IsSound (deliver job world w)
unfolding deliver schedule_log_upload
deliver-IsSound job world w a v =
    let logged =
      if-IsSound job.request_log _ _
        (grant_log-IsSound job (find_log_upload world.response.body) world (drop_file job w)
          (drop_file-IsSound job w v))
        (drop_file-IsSound job w v) in
    if-IsSound job.parse_ack _ _ (enqueue_all-IsSound _ _ a logged) logged

handle_outcome-IsSound :
    (o : Outcome) (job : UploadJob) (world : World) (w : Worker)
    → AckJobsNew world
    → IsSound w
    → IsSound (handle_outcome o job world w)
unfolding handle_outcome
handle_outcome-IsSound delivered job world w a v = deliver-IsSound job world w a v
handle_outcome-IsSound poison job world w a v = drop_file-IsSound job w v
handle_outcome-IsSound transient job world w a v =
    if-IsSound (is_ephemeral job.durability) _ _ v (retry-IsSound job _ world w v)

log_outcome-IsSound :
    (o : Outcome) (job : UploadJob) (world : World) (w : Worker)
    → IsSound w
    → IsSound (log_outcome o job world w)
unfolding log_outcome
log_outcome-IsSound transient job world w v =
    if-IsSound (ltb (job.attempt + 1) max_attempts) _ _ (retry-IsSound job _ world w v) v
log_outcome-IsSound delivered job world w v = v
log_outcome-IsSound poison job world w v = v

-- Whatever the server answers, one turn of the worker keeps the queue at 256 jobs or fewer, and
-- none in it has used its five attempts, if the jobs that the ack handler queues are new.
pub process-IsSound :
    (job : UploadJob) (world : World) (w : Worker)
    → AckJobsNew world
    → IsSound w
    → IsSound (process job world w)
unfolding process handle_post_result
process-IsSound job world w a v =
    if-IsSound job.is_log_upload _ _ (log_outcome-IsSound _ job world w v)
      (handle_outcome-IsSound _ job world w a v)
