-- ===== src/Worker/Leftovers.antt =====
-- `stop`: what happens to the jobs that are left.
use tombstack_native.Prelude.{
  ◌≡◌, refl, sym, ap, ◌∙◌, subst, inl, inr, true, false, some, List, [], ◌∷◌, ◌++◌, arith,
  Bool-cases, length, drop, All, str_eq,
}
use tombstack_native.SidecarQueue.{Draw, SidecarPath}
use tombstack_native.SidecarQueue.Bounds.{body_at, refuses, write_keeps, write_stored}
use tombstack_native.Worker.{
  wants_file, UploadJob, Worker, persist, persist_all, persist_leftovers, stop, draw_at,
}
use tombstack_native.Worker.Queue.{IsSound}

queue-persist : (job : UploadJob) (draw : Draw) (w : Worker) → (persist job draw w).queue ≡ w.queue
unfolding persist
queue-persist job draw w = ground arith

queue-persist_all :
    (jobs : List UploadJob) (draws : List Draw) (w : Worker)
    → (persist_all jobs draws w).queue ≡ w.queue
unfolding persist_all
queue-persist_all [] draws w = refl
queue-persist_all (job ∷ jobs) draws w =
    queue-persist_all jobs (drop 1 draws) (persist job (draw_at draws) w)
    ∙ queue-persist job (draw_at draws) w

pub queue-stop : (draws : List Draw) (w : Worker) → w.running ≡ true → (stop draws w).queue ≡ []
unfolding stop persist_leftovers
queue-stop draws w h = rw h (queue-persist_all w.queue draws _)

pub stop-IsSound : (draws : List Draw) (w : Worker) → IsSound w → IsSound (stop draws w)
stop-IsSound draws w v = elim (Bool-cases w.running) [
  | inl e ↦ record {
    bounded = rw (queue-stop draws w e) (omega arith);
    attempts = rw (queue-stop draws w e) tt;
  }
  | inr e ↦ subst IsSound (sym (stopped e)) v
]
  where
    stopped : w.running ≡ false → stop draws w ≡ w
    stopped e = unfold stop in rw e

persist_all-append :
    (before behind : List UploadJob) (draws others : List Draw) (w : Worker)
    → length draws ≡ length before
    → persist_all (before ++ behind) (draws ++ others) w
      ≡ persist_all behind others (persist_all before draws w)
unfolding persist_all
persist_all-append [] behind [] others w h = refl
persist_all-append [] behind (d ∷ draws) others w h = absurd (omega arith)
persist_all-append (job ∷ before) behind [] others w h = absurd (omega arith)
persist_all-append (job ∷ before) behind (d ∷ draws) others w h =
    persist_all-append before behind draws others (persist job d w) (omega arith)

persist_keeps :
    (job : UploadJob) (draw : Draw) (w : Worker) (path : SidecarPath)
    → str_eq draw.name path.name ≡ false
    → body_at path (persist job draw w).sidecars ≡ body_at path w.sidecars
unfolding persist
persist_keeps job draw w path h = elim (Bool-cases (wants_file job)) [
  | inl e ↦ rw e (write_keeps job.kind job.body draw w.sidecars path h)
  | inr e ↦ rw e refl
]

persist_all_keeps :
    (jobs : List UploadJob) (draws : List Draw) (w : Worker) (path : SidecarPath)
    → length draws ≡ length jobs
    → All (λ (d : Draw). str_eq d.name path.name ≡ false) draws
    → body_at path (persist_all jobs draws w).sidecars ≡ body_at path w.sidecars
unfolding persist_all
persist_all_keeps [] draws w path e h = refl
persist_all_keeps (job ∷ jobs) [] w path e h = absurd (omega arith)
persist_all_keeps (job ∷ jobs) (d ∷ draws) w path e h =
    persist_all_keeps jobs draws (persist job d w) path (omega arith) h.1
    ∙ persist_keeps job d w path h.0

persist_saves :
    (job : UploadJob) (draw : Draw) (w : Worker)
    → wants_file job ≡ true
    → refuses job.kind draw w.sidecars ≡ false
    → body_at (record { kind = job.kind; name = draw.name }) (persist job draw w).sidecars
      ≡ some job.body
unfolding persist
persist_saves job draw w h k = rw h (write_stored job.kind job.body draw w.sidecars k).1

-- Where `stop` finds a job in the queue that belongs on disk, and the file of its name can be
-- written when its turn comes, the job's body is in that file after `stop`, if no later job draws
-- the same name.
pub stop_saves :
    (before behind : List UploadJob) (job : UploadJob) (ds es : List Draw) (d : Draw) (w : Worker)
    → w.running ≡ true
    → w.queue ≡ before ++ (job ∷ behind)
    → length ds ≡ length before
    → length es ≡ length behind
    → wants_file job ≡ true
    → refuses job.kind d (persist_all before ds (record w { running = false; queue = [] })).sidecars
      ≡ false
    → All (λ (later : Draw). str_eq later.name d.name ≡ false) es
    → body_at (record { kind = job.kind; name = d.name }) (stop (ds ++ (d ∷ es)) w).sidecars
      ≡ some job.body
unfolding stop persist_leftovers persist_all
stop_saves before behind job ds es d w r q l m h k n =
    let idle : Worker = record w { running = false; queue = [] } in
    let path : SidecarPath = record { kind = job.kind; name = d.name } in
    let all : stop (ds ++ (d ∷ es)) w
        ≡ persist_all behind es (persist job d (persist_all before ds idle)) =
      rw (r, q) (persist_all-append before (job ∷ behind) ds (d ∷ es) idle l) in
    ap (λ (x : Worker). body_at path x.sidecars) all
    ∙ persist_all_keeps behind es (persist job d (persist_all before ds idle)) path m n
    ∙ persist_saves job d (persist_all before ds idle) h k
