-- ===== src/Worker/Delivery.antt =====
-- `process`: what a turn of the worker does to the job, its file and the queue.
use tombstack_native.Prelude.{
  take_else, take_then, ◌+◌, ◌≤◌, ◌≡◌, refl, ap, ◌∙◌, inl, inr, true, false, none, some, arith, ltb,
  Bool-cases, Option-cases,
}
use tombstack_native.Prelude.Int.{pos}
use tombstack_native.Retry.Delay.{retry_delay_range}
use tombstack_native.SidecarQueue.{SidecarQueue, SidecarPath}
use tombstack_native.SidecarQueue.Bounds.{refuses, body_at, write_stored, write_refused}
use tombstack_native.Worker.{
  UploadJob, Worker, World, transient, max_attempts, seconds, is_ephemeral, wants_file, outcome_of,
  enqueue, retry_or_give_up, retry_after_hint, persist, handle_outcome, handle_post_result, process,
}

-- The pending files of a worker.
record HasFiles (files : SidecarQueue) (w : Worker) : Type 0 where
  same : w.sidecars ≡ files

-- A job that names a file has its body there.
abbrev pub IsBacked : UploadJob → Worker → Type 0
IsBacked job w = elim job.sidecar_path [
  | none ↦ Unit
  | some path ↦ body_at path w.sidecars ≡ some job.body
]

IsBacked-at :
    (job : UploadJob) (w : Worker) (path : SidecarPath)
    → IsBacked job w
    → job.sidecar_path ≡ some path
    → body_at path w.sidecars ≡ some job.body
IsBacked-at job w path h e = rw e at h

-- What becomes of a job that has to be tried again.
pub data Kept (job : UploadJob) (world : World) (w w' : Worker) : Type 0 where
  requeued :
      (again : UploadJob)
      → w' ≡ enqueue again w
      → again ≡ record job { attempt = job.attempt + 1; not_before = again.not_before }
      → (world.now + seconds 2 ≤ again.not_before) × (again.not_before ≤ world.now + seconds 300)
      → Kept job world w w'
  on_file :
      (path : SidecarPath)
      → path.kind ≡ job.kind
      → body_at path w'.sidecars ≡ some job.body
      → w'.queue ≡ w.queue
      → Kept job world w w'
  had_file :
      (path : SidecarPath)
      → job.sidecar_path ≡ some path
      → body_at path w'.sidecars ≡ some job.body
      → w' ≡ w
      → Kept job world w w'
  refused : refuses job.kind world.draw w.sidecars ≡ true → w' ≡ w → Kept job world w w'

process-retry :
    (job : UploadJob) (world : World) (w : Worker)
    → job.is_log_upload ≡ false
    → is_ephemeral job.durability ≡ false
    → outcome_of world ≡ transient
    → process job world w
      ≡ retry_or_give_up job
          (retry_after_hint world.response.status world.response.retry_after)
          world
          w
unfolding process handle_post_result handle_outcome
process-retry job world w h e o =
    take_else job.is_log_upload _ _ h
    ∙ ap (λ x. handle_outcome x job world w) o
    ∙ take_else (is_ephemeral job.durability) _ _ e

persist-Kept :
    (job : UploadJob) (world : World) (w w' : Worker)
    → job.is_log_upload ≡ false
    → job.no_persist ≡ false
    → is_ephemeral job.durability ≡ false
    → IsBacked job w
    → w' ≡ persist job world.draw w
    → Kept job world w w'
unfolding persist
persist-Kept job world w w' h n e backed k = elim (Option-cases job.sidecar_path) [
  | inl no_file ↦
      let wants : wants_file job ≡ true = rw (no_file, h, n, e) refl in
      let written = k ∙ take_then (wants_file job) _ _ wants in
      elim (Bool-cases (refuses job.kind world.draw w.sidecars)) [
        | inl no' ↦ refused no' (
            written
            ∙ ap (λ r. record w { sidecars = r.0 })
                (write_refused job.kind job.body world.draw w.sidecars no'))
        | inr goes ↦
            on_file (record { kind = job.kind; name = world.draw.name }) refl
              (ap
                  (λ (x : Worker).
                    body_at (record { kind = job.kind; name = world.draw.name }) x.sidecars)
                  written
                ∙ (write_stored job.kind job.body world.draw w.sidecars goes).1)
              (ap (λ (x : Worker). x.queue) written)
      ]
  | inr (path, has) ↦
      let wants : wants_file job ≡ false = rw (has, h, n) refl in
      let same = k ∙ take_else (wants_file job) _ _ wants in
      had_file path has
        (ap (λ (x : Worker). body_at path x.sidecars) same ∙ IsBacked-at job w path backed has) same
]

-- A report that may be stored, with its body in the file that it names, if it names one, survives a
-- transient failure: with an attempt left the whole job, file name and durability included, waits
-- at the end of the queue for 2 to 300 seconds; else its body is in a pending file, which it had or
-- gets now, unless the full or unwritable directory refuses the file.
pub process-Kept :
    (job : UploadJob) (world : World) (w : Worker)
    → job.is_log_upload ≡ false
    → job.no_persist ≡ false
    → is_ephemeral job.durability ≡ false
    → outcome_of world ≡ transient
    → IsBacked job w
    → Kept job world w (process job world w)
unfolding retry_or_give_up
process-Kept job world w h n e o backed =
    let hint = retry_after_hint world.response.status world.response.retry_after in
    let retried = process-retry job world w h e o in
    let range = retry_delay_range (pos (job.attempt + 1)) hint in
    elim (Bool-cases (ltb (job.attempt + 1) max_attempts)) [
      | inl more ↦
          requeued _ (retried ∙ take_then (ltb (job.attempt + 1) max_attempts) _ _ more) refl
            (omega (arith, range.0), omega (arith, range.1))
      | inr last ↦
          persist-Kept job world w _ h n e backed
            (retried ∙ take_else (ltb (job.attempt + 1) max_attempts) _ _ last)
    ]
