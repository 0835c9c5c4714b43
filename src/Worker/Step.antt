-- ===== src/Worker/Step.antt =====
-- The worker thread and the threads that call it, as a step relation. A turn of the worker
-- (`process`) is one step; it may stand anywhere between the calls of other threads.
use tombstack_native.Prelude.{
  ℕ, ◌+◌, ◌≤◌, ◌<◌, ◌≡◌, ap, subst, true, false, Option, none, some, List, [], ◌∷◌, ◌++◌, arith,
  length, All, length-append, All-append, All-append_left, All-append_right,
}
use tombstack_native.SidecarQueue.{Draw}
use tombstack_native.Worker.{
  seconds, UploadJob, Worker, World, max_attempts, enqueue, process, take_ready_job, start, stop,
}
use tombstack_native.Worker.Take.{take_ready_job-Takes}
use tombstack_native.Worker.Leftovers.{stop-IsSound}
use tombstack_native.Worker.Queue.{
  if-IsSound, IsSound, AckJobsNew, enqueue-IsSound, process-IsSound,
}

-- the worker, and the job that its thread has in hand
pub record Machine : Type 0 where
  pub worker : Worker
  pub current : Option UploadJob

-- A new job has been tried fewer than five times (the client queues jobs with `attempt` 0).
pub data Step : Machine → Machine → Type 0 where
  enqueues :
      {w : Worker} {c : Option UploadJob} (job : UploadJob)
      → job.attempt < max_attempts
      → Step (record { worker = w; current = c }) (record { worker = enqueue job w; current = c })
  takes :
      {w w' : Worker} {job : UploadJob} (now : ℕ)
      → w.running ≡ true
      → take_ready_job now w ≡ some (job, w')
      → Step
          (record { worker = w; current = none })
          (record {
            worker = record w' { in_flight = true; wake_requested = false };
            current = some job;
          })
  finishes :
      {w : Worker} {job : UploadJob} (world : World)
      → AckJobsNew world
      → Step
          (record { worker = w; current = some job })
          (record { worker = record (process job world w) { in_flight = false }; current = none })
  starts :
      {w : Worker} {c : Option UploadJob} (now : ℕ)
      → Step (record { worker = w; current = c }) (record { worker = start now w; current = c })
  stops :
      {w : Worker} (draws : List Draw)
      → Step
          (record { worker = w; current = none })
          (record { worker = stop draws w; current = none })
  -- `wake`, by any thread
  wakes :
      {w : Worker} {c : Option UploadJob}
      → Step
          (record { worker = w; current = c })
          (record { worker = record w { wake_requested = true }; current = c })
  -- the thread wakes up, and paces the flush of the session log
  paces :
      {w : Worker} (now : ℕ)
      → w.running ≡ true
      → w.next_log_flush ≤ now
      → Step
          (record { worker = w; current = none })
          (record {
            worker = record w { next_log_flush = now + seconds 5; wake_requested = false };
            current = none;
          })

pub data Reach (m : Machine) : Machine → Type 0 where
  here : Reach m m
  next : {n k : Machine} → Reach m n → Step n k → Reach m k

-- what holds of the job in hand
abbrev pub InHand : Option UploadJob → Type 0
InHand none = Unit
InHand (some job) = job.attempt < max_attempts

record IsSane (m : Machine) : Type 0 where
  sound : IsSound m.worker
  in_hand : InHand m.current

take-IsSound :
    (now : ℕ) (w w' : Worker) (job : UploadJob)
    → take_ready_job now w ≡ some (job, w')
    → IsSound w
    → IsSound w' × (job.attempt < max_attempts)
take-IsSound now w w' job h v =
    let (t, _) = take_ready_job-Takes now w w' job h in
    let all : All (λ (j : UploadJob). j.attempt < max_attempts) (t.before ++ (job ∷ t.behind)) =
      subst (All (λ (j : UploadJob). j.attempt < max_attempts)) t.splits v.attempts in
    let tail =
      All-append_right (λ (j : UploadJob). j.attempt < max_attempts) t.before (job ∷ t.behind)
        all in
    (
      record {
        bounded = omega (
          arith,
          v.bounded,
          ap length t.splits,
          ap length t.rest,
          length-append t.before (job ∷ t.behind),
          length-append t.before t.behind,
        );
        attempts = rw t.rest (
            All-append (λ (j : UploadJob). j.attempt < max_attempts) t.before t.behind
              (All-append_left (λ (j : UploadJob). j.attempt < max_attempts) t.before
                (job ∷ t.behind) all)
              tail.1);
      },
      tail.0,
    )

start-IsSound : (now : ℕ) (w : Worker) → IsSound w → IsSound (start now w)
unfolding start
start-IsSound now w v =
    if-IsSound w.running w _ v (record { bounded = v.bounded; attempts = v.attempts })

Step-IsSane : {m n : Machine} → Step m n → IsSane m → IsSane n
Step-IsSane (enqueues {w} job h) s = record {
  sound = enqueue-IsSound job w h s.sound;
  in_hand = s.in_hand;
}
Step-IsSane (takes {w} {w'} {job} now r h) s =
    let (v, a) = take-IsSound now w w' job h s.sound in
    record { sound = record { bounded = v.bounded; attempts = v.attempts }; in_hand = a }
Step-IsSane (finishes {w} {job} world a) s =
    let v = process-IsSound job world w a s.sound in
    record { sound = record { bounded = v.bounded; attempts = v.attempts }; in_hand = tt }
Step-IsSane (starts {w} now) s = record { sound = start-IsSound now w s.sound; in_hand = s.in_hand }
Step-IsSane (stops {w} draws) s = record { sound = stop-IsSound draws w s.sound; in_hand = tt }
Step-IsSane (wakes {w}) s = record {
  sound = record { bounded = s.sound.bounded; attempts = s.sound.attempts };
  in_hand = s.in_hand;
}
Step-IsSane (paces {w} now r h) s = record {
  sound = record { bounded = s.sound.bounded; attempts = s.sound.attempts };
  in_hand = tt;
}

Reach-IsSane : {m n : Machine} → IsSane m → Reach m n → IsSane n
Reach-IsSane s here = s
Reach-IsSane s (next r t) = Step-IsSane t (Reach-IsSane s r)

-- In every state that calls, turns, starts and stops can reach from a worker with an empty queue,
-- at most 256 jobs wait, and no job that waits or is in hand has used its five attempts; the jobs
-- that callers and the ack handler queue are new.
pub Reach-bounds :
    (w : Worker) {m : Machine}
    → w.queue ≡ []
    → Reach (record { worker = w; current = none }) m
    → IsSound m.worker × InHand m.current
Reach-bounds w e r =
    let s =
      Reach-IsSane
        (record {
          sound = record { bounded = rw e (omega arith); attempts = rw e tt };
          in_hand = tt;
        })
        r in
    (s.sound, s.in_hand)
