-- ===== src/Worker/Wakeup.antt =====
-- `next_wakeup` of src/worker.cpp: how long the thread may sleep.
use tombstack_native.Prelude.{
  ℕ, ◌+◌, ◌≤◌, ◌<◌, ◌≡◌, refl, ap, Bool, true, false, ◌&&◌, none, List, [], ◌∷◌, arith, ltb, leb,
  if◌then◌else◌,
}
use tombstack_native.Worker.Take.{ready}
use tombstack_native.Worker.{UploadJob, Worker, seconds, take_due, take_ready_job}

-- the loop over the queue
unfoldable pub earliest : ℕ → List UploadJob → ℕ
earliest wakeup [] = wakeup
earliest wakeup (job ∷ jobs) =
    earliest (if ltb job.not_before wakeup then job.not_before else wakeup) jobs

-- whether a batch drainer is installed, and the time of the call, are arguments
unfoldable pub next_wakeup : Bool → ℕ → Worker → ℕ
unfolding earliest
next_wakeup batch_drainer now w =
    let wakeup = earliest w.next_log_flush w.queue in
    if batch_drainer && ltb (now + seconds 1) wakeup then now + seconds 1 else wakeup

earliest_first : (wakeup : ℕ) (jobs : List UploadJob) → earliest wakeup jobs ≤ wakeup
unfolding earliest
earliest_first wakeup [] = omega arith
earliest_first wakeup (job ∷ jobs) =
    ground
      (arith, earliest_first (if ltb job.not_before wakeup then job.not_before else wakeup) jobs)

not_due : (t wakeup : ℕ) (jobs : List UploadJob) → t < earliest wakeup jobs → take_due t jobs ≡ none
unfolding earliest take_due
not_due t wakeup [] h = refl
not_due t wakeup (job ∷ jobs) h =
    let next = if ltb job.not_before wakeup then job.not_before else wakeup in
    let early : leb job.not_before t ≡ false = ground (arith, earliest_first next jobs) in
    rw (early, not_due t next jobs h) refl

next_wakeup_bound :
    (batch_drainer : Bool) (now : ℕ) (w : Worker)
    → next_wakeup batch_drainer now w ≤ earliest w.next_log_flush w.queue
unfolding next_wakeup
next_wakeup_bound batch_drainer now w = ground arith

drained_in_time : (now : ℕ) (w : Worker) → next_wakeup true now w ≤ now + seconds 1
unfolding next_wakeup
drained_in_time now w = ground arith

-- Before the time that the thread sleeps until, no job of the queue is due and no log flush is;
-- and with a batch drainer it sleeps for a second at most.
pub next_wakeup-take_ready_job :
    (batch_drainer : Bool) (now t : ℕ) (w : Worker)
    → t < next_wakeup batch_drainer now w
    → (take_ready_job t w ≡ none) × (t < w.next_log_flush) × (next_wakeup true now w ≤ now + 1000)
unfolding take_ready_job
next_wakeup-take_ready_job batch_drainer now t w h =
    let before : t < earliest w.next_log_flush w.queue =
      omega (arith, next_wakeup_bound batch_drainer now w) in
    (
      ap (ready w) (not_due t w.next_log_flush w.queue before),
      omega (arith, earliest_first w.next_log_flush w.queue),
      drained_in_time now w,
    )
