-- ===== src/Client/Capture/Crash.antt =====
-- A crash that is let through is on disk before the delivery thread may send it.
use tombstack_native.Prelude.{
  take_then, ◌≡◌, refl, ap, ◌∙◌, inl, inr, Bool, true, false, Option, some, List, [], ◌∷◌, ◌++◌,
  Bool-cases, Bytes,
}
use tombstack_native.Payloads.{Doubles}
use tombstack_native.Payloads.Crash.{build_crash_json}
use tombstack_native.Dedupe
use tombstack_native.StartGate.{is_set}
use tombstack_native.SidecarQueue.{SidecarKind, crash, Draw}
use tombstack_native.SidecarQueue.Bounds.{body_at, refuses, write_stored}
use tombstack_native.Worker.{Worker, UploadJob, enqueue, enqueue_all, write_ahead}
use tombstack_native.Client.Identity.{ok}
use tombstack_native.Client.State.{
  Client, Moment, capture_allowed, enqueue_ingest, flush_batches, flush_all_batches,
}
use tombstack_native.Client.Capture.{
  effective_signature, crash_payload, crashes_path, wants_log, send_crash, report_crash,
}

pub enqueue_all-sidecars :
    (jobs : List UploadJob) (w : Worker) → (enqueue_all jobs w).sidecars ≡ w.sidecars
unfolding enqueue_all enqueue
enqueue_all-sidecars [] w = refl
enqueue_all-sidecars (job ∷ jobs) w = enqueue_all-sidecars jobs (enqueue job w)

module _ (d : Doubles) where
  flush_all-sidecars :
      (m : Moment) (c : Client d) → (flush_all_batches d m c).worker.sidecars ≡ c.worker.sidecars
  unfolding flush_all_batches flush_batches
  flush_all-sidecars m c = elim (Bool-cases (is_set c.gate)) [
    | inl e ↦ rw e (enqueue_all-sidecars _ _ ∙ enqueue_all-sidecars _ c.worker)
    | inr e ↦ rw e refl
  ]

  flush_all-settings : (m : Moment) (c : Client d) → (flush_all_batches d m c).settings ≡ c.settings
  unfolding flush_all_batches flush_batches
  flush_all-settings m c = elim (Bool-cases (is_set c.gate)) [
    | inl e ↦ rw e refl
    | inr e ↦ rw e refl
  ]

  -- The body is on disk, and the last job of the queue carries it and names its file.
  pub record IsKept (kind : SidecarKind) (draw : Draw) (body : Bytes) (w : Worker) : Type 0 where
    pub on_disk : body_at (record { kind = kind; name = draw.name }) w.sidecars ≡ some body
    pub front : List UploadJob
    pub job : UploadJob
    pub is_last : w.queue ≡ front ++ job ∷ []
    pub carries : job.body ≡ body
    pub names_file : job.sidecar_path ≡ some (record { kind = kind; name = draw.name })

  pub enqueue_ingest-IsKept :
      (path body : Bytes) (kind : SidecarKind) (request_log from_previous : Bool) (draw : Draw)
      (c : Client d)
      → c.settings.storage_available ≡ true
      → refuses kind draw c.worker.sidecars ≡ false
      → IsKept kind draw body
          (enqueue_ingest d path body write_ahead kind request_log from_previous draw c).worker
  unfolding enqueue_ingest enqueue
  enqueue_ingest-IsKept path body kind request_log from_previous draw c storage room = record {
    on_disk =
        ap (body_at (record { kind = kind; name = draw.name })) (take_then _ _ _ storage)
        ∙ (write_stored kind body draw c.worker.sidecars room).1;
    front = _;
    job = _;
    is_last = refl;
    carries = refl;
    names_file = take_then _ _ _ storage ∙ (write_stored kind body draw c.worker.sidecars room).0;
  }

  send_crash-IsKept :
      (m : Moment) (signature hint trace : Option Bytes) (want_log : Bool) (c : Client d)
      → c.settings.storage_available ≡ true
      → refuses crash m.draw c.worker.sidecars ≡ false
      → IsKept crash m.draw
          (build_crash_json d (crash_payload d m signature hint trace want_log c))
          (send_crash d m signature hint trace want_log c).worker
  unfolding send_crash
  send_crash-IsKept m signature hint trace want_log c storage room =
      enqueue_ingest-IsKept crashes_path
        (build_crash_json d (crash_payload d m signature hint trace want_log c)) crash want_log
        false m.draw (flush_all_batches d m _)
        (ap (λ s. s.storage_available) (flush_all-settings m _) ∙ storage)
        (ap (refuses crash m.draw) (flush_all-sidecars m _) ∙ room)

  -- A crash that is let through (with consent, and no repeat within the window), where there is
  -- storage, the directory has room and the file opens, is answered with success; its body is on
  -- disk, and the last job of the queue carries this body and names the file.
  pub report_crash-IsKept :
      (m : Moment) (signature hint trace : Option Bytes) (attach_log : Bool) (c : Client d)
      → capture_allowed d c ≡ true
      → (Dedupe.check (effective_signature d signature hint trace) (m.now 0) c.dedupe).1.allowed
        ≡ true
      → c.settings.storage_available ≡ true
      → refuses crash m.draw c.worker.sidecars ≡ false
      → ((report_crash d m signature hint trace attach_log c).1 ≡ ok)
        × IsKept crash m.draw
            (build_crash_json d
              (crash_payload d m signature hint trace (wants_log d attach_log c) c))
            (report_crash d m signature hint trace attach_log c).0.worker
  unfolding report_crash
  report_crash-IsKept m signature hint trace attach_log c allowed first storage room = rw allowed (
      rw first (
        refl,
        send_crash-IsKept m signature hint trace (wants_log d attach_log c)
            (record c { dedupe = _ }) storage room,
      ))
