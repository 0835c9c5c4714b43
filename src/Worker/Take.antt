-- ===== src/Worker/Take.antt =====
-- Which job the worker takes.
use tombstack_native.Prelude.{
  ℕ, ◌≤◌, ◌<◌, ◌≡◌, refl, ap, subst, inl, inr, Option, none, some, List, [], ◌∷◌, ◌++◌, arith, leb,
  leb→le, leb_refuted, Bool-cases, All,
}
use tombstack_native.Worker.{UploadJob, Worker, take_due, take_ready_job}

abbrev IsEarly : ℕ → UploadJob → Type 0
IsEarly now job = now < job.not_before

-- The job is due, every job in front of it is not, and the others stay in order.
pub record Takes (now : ℕ) (jobs : List UploadJob) (job : UploadJob) (others : List UploadJob)
    : Type 0 where
  pub before : List UploadJob
  pub behind : List UploadJob
  pub splits : jobs ≡ before ++ (job ∷ behind)
  pub rest : others ≡ before ++ behind
  pub due : job.not_before ≤ now
  pub early : All (λ j. now < j.not_before) before

abbrev Answer : ℕ → List UploadJob → Option (UploadJob × List UploadJob) → Type 0
Answer now jobs none = All (λ j. now < j.not_before) jobs
Answer now jobs (some (job, others)) = Takes now jobs job others

abbrev behind_one :
    UploadJob → Option (UploadJob × List UploadJob) → Option (UploadJob × List UploadJob)
behind_one j r = elim r [ none ↦ none | some (found, others) ↦ some (found, j ∷ others) ]

extend :
    (now : ℕ) (j : UploadJob) (jobs : List UploadJob) (r : Option (UploadJob × List UploadJob))
    → now < j.not_before
    → Answer now jobs r
    → Answer now (j ∷ jobs) (behind_one j r)
extend now j jobs none h a = (h, a)
extend now j jobs (some (job, others)) h a = record {
  before = j ∷ a.before;
  behind = a.behind;
  splits = ap (◌∷◌ j) a.splits;
  rest = ap (◌∷◌ j) a.rest;
  due = a.due;
  early = (h, a.early);
}

take_due-Answer : (now : ℕ) (jobs : List UploadJob) → Answer now jobs (take_due now jobs)
unfolding take_due
take_due-Answer now [] = tt
take_due-Answer now (j ∷ jobs) = elim (Bool-cases (leb j.not_before now)) [
  | inl due ↦ rw due (record {
    before = [];
    behind = jobs;
    splits = refl;
    rest = refl;
    due = leb→le _ _ due;
    early = tt;
  })
  | inr early ↦
      rw early
        (extend now j jobs (take_due now jobs) (leb_refuted _ _ early) (take_due-Answer now jobs))
]

abbrev pub ready : Worker → Option (UploadJob × List UploadJob) → Option (UploadJob × Worker)
ready w r = elim r [ none ↦ none | some (job, others) ↦ some (job, record w { queue = others }) ]

ready_found :
    (now : ℕ) (w w' : Worker) (job : UploadJob) (r : Option (UploadJob × List UploadJob))
    → Answer now w.queue r
    → ready w r ≡ some (job, w')
    → Takes now w.queue job w'.queue × (w' ≡ record w { queue = w'.queue })
ready_found now w w' job none a h = absurd (ground arith)
ready_found now w w' job (some (j, others)) a h =
    let e : j ≡ job = ground arith in
    let e' : record w { queue = others } ≡ w' = ground arith in
    (
      subst (λ x. Takes now w.queue x w'.queue) e
          (subst (λ (x : Worker). Takes now w.queue j x.queue) e' a),
      subst (λ (x : Worker). x ≡ record w { queue = x.queue }) e' refl,
    )

ready_nothing :
    (now : ℕ) (w : Worker) (r : Option (UploadJob × List UploadJob))
    → Answer now w.queue r
    → ready w r ≡ none
    → All (λ j. now < j.not_before) w.queue
ready_nothing now w none a h = a
ready_nothing now w (some (j, others)) a h = absurd (ground arith)

-- Where `take_ready_job` finds a job, it is the first of the queue that is due, and the queue
-- keeps all others in their order; the rest of the worker's state is unchanged.
pub take_ready_job-Takes :
    (now : ℕ) (w w' : Worker) (job : UploadJob)
    → take_ready_job now w ≡ some (job, w')
    → Takes now w.queue job w'.queue × (w' ≡ record w { queue = w'.queue })
unfolding take_ready_job
take_ready_job-Takes now w w' job h =
    ready_found now w w' job (take_due now w.queue) (take_due-Answer now w.queue) h

-- Where `take_ready_job` finds no job, every job of the queue has still to wait.
pub take_ready_job-none :
    (now : ℕ) (w : Worker) → take_ready_job now w ≡ none → All (λ j. now < j.not_before) w.queue
unfolding take_ready_job
take_ready_job-none now w h =
    ready_nothing now w (take_due now w.queue) (take_due-Answer now w.queue) h
