-- ===== src/Client/Control/Restart.antt =====
-- Bodies that an earlier run left, the held gate, and the pull requests of an acknowledgement.
use tombstack_native.Client.Control.{handle_heartbeat_ack}
use tombstack_native.Client.Control.{UploadJob}
use tombstack_native.Prelude.{
  take_else, take_then, ◌≤◌, ◌≡◌, refl, sym, ap, ◌≢◌, ◌⊎◌, inl, inr, Bool, true, false, not, ◌&&◌,
  ◌||◌, Option, List, [], ◌∷◌, ◌++◌, arith, if◌then◌else◌, Bool-cases, &&-eq-true, length, is_empty,
  All, Bytes, codes, str_eq, str_eq_iff,
}
use tombstack_native.Json.Pending.{PendingPullRequest}
use tombstack_native.Payloads.{Doubles}
use tombstack_native.Payloads.Pull.{pull_request_targets_client}
use tombstack_native.Client.Identity.{current_user_id}
use tombstack_native.StartGate.{is_set}
use tombstack_native.SidecarQueue.{SidecarRecord, SidecarPath}
use tombstack_native.Worker.{UploadJob}
use tombstack_native.Client.Carry.{commit_ack}
use tombstack_native.Json.Pending.{max_requests, find_pending_requests}
use tombstack_native.Json.Pending.Bounds.{length-find_pending_requests}
use tombstack_native.Client.State.{
  Client, Moment, capture_allowed, drain_ready_batches, flush_all_batches,
}
use tombstack_native.Client.Control.{FrameStats, heartbeat, is_honoured, fulfill_job, fulfill_jobs}

&&-eq-false : (a b : Bool) → b ≡ false → (a && b) ≡ false
&&-eq-false true b h = h
&&-eq-false false b h = refl

if-true :
    (b x y : Bool)
    → (if b then x else y) ≡ true
    → ((b ≡ true) × (x ≡ true)) ⊎ ((b ≡ false) × (y ≡ true))
if-true true x y h = inl (refl, h)
if-true false x y h = inr (refl, h)

not-true : (b : Bool) → not b ≡ true → b ≡ false
not-true true h = absurd (ground arith)
not-true false h = refl

module _ (d : Doubles) where
  abbrev pub left : SidecarPath → Bytes → SidecarRecord
  left path body = record { kind = path.kind; path = path; body = body }

  -- While the gate is held, nothing that a session sends leaves: no heartbeat is built, and neither
  -- the worker's drain nor the forced one before a crash or at the end takes anything from the
  -- batches.
  pub held-is_set :
      (m : Moment) (frames : Option (FrameStats d)) (c : Client d)
      → is_set c.gate ≡ false
      → (heartbeat d m frames c ≡ c)
        × (drain_ready_batches d m c ≡ c)
        × (flush_all_batches d m c ≡ c)
  unfolding heartbeat drain_ready_batches flush_all_batches
  held-is_set m frames c h = (
    take_else _ _ _ (&&-eq-false (capture_allowed d c) (is_set c.gate) h),
    take_then _ _ _ (ap not h),
    take_then _ _ _ (ap not h),
  )

  -- The request names this client, by its user, its session, its match or its server.
  abbrev pub Names : Client d → PendingPullRequest → Type 0
  Names c r =
      (r.target_value ≢ [])
      × (((r.target_type ≡ codes "userId") × (r.target_value ≡ current_user_id c.carry.identity))
          ⊎ (((r.target_type ≡ codes "sessionId") × (r.target_value ≡ c.settings.session_id))
              ⊎ (((r.target_type ≡ codes "matchId") × (r.target_value ≡ c.context.match_id))
                  ⊎ ((r.target_type ≡ codes "server") × (r.target_value ≡ c.context.server_id)))))

  -- The job uploads the log of this session for this request.
  abbrev pub Fulfills : Client d → PendingPullRequest → UploadJob → Type 0
  Fulfills c r job =
      (r.request_id ≢ [])
      × (job.url
          ≡ c.settings.endpoint
            ++ (codes "/api/v1/pull-requests/" ++ (r.request_id ++ codes "/fulfill")))
      × (job.request_log ≡ true)
      × (job.no_persist ≡ true)

  -- Each job answers one of the requests, and one that names this client.
  abbrev pub Answers : Client d → List PendingPullRequest → UploadJob → Type 0
  Answers c [] job = ⊥
  Answers c (r ∷ rs) job = (Names c r × Fulfills c r job) ⊎ Answers c rs job

  filled : (s : Bytes) → is_empty s ≡ false → s ≢ []
  filled [] h e = absurd (ground arith)
  filled (b ∷ s) h e = absurd (ground arith)

  same_value :
      (mine value : Bytes) → (not (is_empty mine) && str_eq mine value) ≡ true → value ≡ mine
  same_value mine value h = sym ((str_eq_iff mine value).0 (&&-eq-true (not (is_empty mine)) _ h).1)

  typed : (s t : Bytes) → str_eq s t ≡ true → s ≡ t
  typed s t h = (str_eq_iff s t).0 h

  targets-Names :
      (c : Client d) (r : PendingPullRequest)
      → pull_request_targets_client r.target_type r.target_value
          (current_user_id c.carry.identity)
          c.settings.session_id
          c.context.match_id
          c.context.server_id
        ≡ true
      → Names c r
  unfolding pull_request_targets_client
  targets-Names c r h = elim (if-true (is_empty r.target_value) false _ h) [
    | inl (_, e) ↦ absurd (ground arith)
    | inr (some_value, by_type) ↦ (
      filled r.target_value some_value,
      elim (if-true (str_eq r.target_type (codes "userId")) _ _ by_type) [
        | inl (t, v) ↦ inl (typed _ _ t, same_value _ _ v)
        | inr (_, k) ↦ inr (elim (if-true (str_eq r.target_type (codes "sessionId")) _ _ k) [
          | inl (t, v) ↦ inl (typed _ _ t, same_value _ _ v)
          | inr (_, k) ↦ inr (elim (if-true (str_eq r.target_type (codes "matchId")) _ _ k) [
            | inl (t, v) ↦ inl (typed _ _ t, same_value _ _ v)
            | inr (_, k) ↦ elim (if-true (str_eq r.target_type (codes "server")) _ _ k) [
              | inl (t, v) ↦ inr (typed _ _ t, same_value _ _ v)
              | inr (_, e) ↦ absurd (ground arith)
            ]
          ])
        ])
      ],
    )
  ]

  honoured-Answers :
      (c : Client d) (r : PendingPullRequest)
      → is_honoured d c r ≡ true
      → Names c r × Fulfills c r (fulfill_job d c r)
  unfolding is_honoured
  honoured-Answers c r h =
      let (has_id, targets) = &&-eq-true (not (is_empty r.request_id)) _ h in
      (targets-Names c r targets, (filled r.request_id (not-true _ has_id), refl, refl, refl))

  All-Answers :
      (c : Client d) (rs : List PendingPullRequest) → All (Answers c rs) (fulfill_jobs d c rs)
  unfolding fulfill_jobs
  All-Answers c [] = tt
  All-Answers c (r ∷ rs) = elim (Bool-cases (is_honoured d c r)) [
    | inl e ↦ rw e (inl (honoured-Answers c r e), All-weaken _ (All-Answers c rs))
    | inr e ↦ rw e (All-weaken _ (All-Answers c rs))
  ]
    where
      All-weaken : (jobs : List UploadJob) → All (Answers c rs) jobs → All (Answers c (r ∷ rs)) jobs
      All-weaken [] h = tt
      All-weaken (job ∷ jobs) h = (inr h.0, All-weaken jobs h.1)

  length-fulfill_jobs :
      (c : Client d) (rs : List PendingPullRequest) → length (fulfill_jobs d c rs) ≤ length rs
  unfolding fulfill_jobs
  length-fulfill_jobs c [] = omega arith
  length-fulfill_jobs c (r ∷ rs) = elim (Bool-cases (is_honoured d c r)) [
    | inl e ↦ rw e (omega (arith, length-fulfill_jobs c rs))
    | inr e ↦ rw e (omega (arith, length-fulfill_jobs c rs))
  ]

  refused :
      (c : Client d) (body : Bytes)
      → capture_allowed d c ≡ false
      → (not (capture_allowed d c) || is_empty body) ≡ true
  refused c body h = rw h refl

  unfoldable pub committed : Client d → Client d
  committed c = record c { carry = commit_ack d c.carry }

  jobs-bounded :
      (c : Client d) (rs : List PendingPullRequest) (b : Bool)
      → length rs ≤ max_requests
      → All (Answers c rs) (if b then [] else fulfill_jobs d c rs)
        × (length (if b then [] else fulfill_jobs d c rs) ≤ max_requests)
  jobs-bounded c rs true h = (tt, omega arith)
  jobs-bounded c rs false h = (All-Answers c rs, omega (arith, h, length-fulfill_jobs c rs))

  -- Whatever the bytes of an acknowledgement are, each job that it queues uploads the log for a
  -- request in it that names this client by its user, session, match or server; there are at most
  -- 32 of them, and without consent there is none.
  pub handle_heartbeat_ack-Answers :
      (body : Bytes) (c : Client d)
      → All (Answers (committed c) (find_pending_requests body)) (handle_heartbeat_ack d body c).1
        × (length (handle_heartbeat_ack d body c).1 ≤ max_requests)
        × ((capture_allowed d c ≡ true) ⊎ ((handle_heartbeat_ack d body c).1 ≡ []))
  unfolding handle_heartbeat_ack committed
  handle_heartbeat_ack-Answers body c = (
    (jobs-bounded (committed c) (find_pending_requests body) _
        (length-find_pending_requests body)).0,
    (jobs-bounded (committed c) (find_pending_requests body) _
        (length-find_pending_requests body)).1,
    elim (Bool-cases (capture_allowed d c)) [
      | inl e ↦ inl e
      | inr e ↦ inr (take_then _ _ _ (refused c body e))
    ],
  )
