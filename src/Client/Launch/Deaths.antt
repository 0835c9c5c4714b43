-- ===== src/Client/Launch/Deaths.antt =====
-- What a run says of the death of the one before.
use tombstack_native.Prelude.{
  take_else, take_then, ℕ, ◌≡◌, refl, ◌∙◌, inl, inr, Bool, true, false, not, ◌&&◌, ◌||◌, Option,
  none, some, List, [], ◌∷◌, Bool-cases, if-holds,
}
use tombstack_native.Payloads.{Doubles}
use tombstack_native.NativeCrash.{NativeCrashDump}
use tombstack_native.SessionMarker
use tombstack_native.SessionMarker.{SessionMarkerData, write, remove}
use tombstack_native.SessionMarker.RoundTrip.{take_previous-removed}
use tombstack_native.SidecarQueue.{Draw}
use tombstack_native.Worker.{Worker}
use tombstack_native.Client.Control.{set_consent}
use tombstack_native.Client.State.{Moment}
use tombstack_native.Client.Session.{
  Session, tracks, marked, report_dump, report_previous, report_unclean_shutdown,
  start_session_tracking,
}
use tombstack_native.Client.Launch.{
  Options, Host, DataDir, marker_of, configure_storage, prepare, change_consent, close,
}

module _ (d : Doubles) where
  -- Changes of consent, with the disk and the moment of each.
  abbrev pub Change : Type 0
  Change = SessionMarker.Disk × Moment × Bool

  abbrev pub change_all : List Change → Session d → Session d
  change_all [] s = s
  change_all ((files, moment, granted) ∷ changes) s =
      change_all changes (change_consent d files moment granted s)

  started_stays :
      (files : SessionMarker.Disk) (moment : Moment) (s : Session d)
      → s.session_tracking_started ≡ true
      → start_session_tracking d files moment s ≡ s
  unfolding start_session_tracking
  started_stays files moment s h =
      take_then (s.session_tracking_started || not (tracks d s)) _ _ (rw h refl)

  abbrev Quiet : Worker → Session d → Type 0
  Quiet w s = (s.session_tracking_started ≡ true) × (s.client.worker ≡ w)

  change_consent-Quiet :
      (files : SessionMarker.Disk) (moment : Moment) (granted : Bool) (w : Worker) (s : Session d)
      → Quiet w s
      → Quiet w (change_consent d files moment granted s)
  unfolding change_consent set_consent
  change_consent-Quiet files moment granted w s h =
      let changed = record s { client = set_consent d granted s.client } in
      if-holds (Quiet w) (granted && s.client.initialized)
        {x = start_session_tracking d files moment changed} {y = changed}
        (rw (started_stays files moment changed h.0) h) h

  change_all-Quiet :
      (changes : List Change) (w : Worker) (s : Session d)
      → Quiet w s
      → Quiet w (change_all changes s)
  change_all-Quiet [] w s h = h
  change_all-Quiet ((files, moment, granted) ∷ changes) w s h =
      change_all-Quiet changes w _ (change_consent-Quiet files moment granted w s h)

  -- A report leaves the marker and the flag.
  abbrev pub Same : Session d → Session d → Type 0
  Same s t = (t.session_tracking_started ≡ s.session_tracking_started) × (t.marker ≡ s.marker)

  report_dump-Same :
      (moment : Moment) (previous : SessionMarkerData) (dump : Option NativeCrashDump)
      (s : Session d)
      → Same s (report_dump d moment previous dump s)
  unfolding report_dump
  report_dump-Same moment previous none s = (refl, refl)
  report_dump-Same moment previous (some dump) s = (refl, refl)

  pub report_previous-Same :
      (moment : Moment) (previous : Option SessionMarkerData) (s : Session d)
      → Same s (report_previous d moment previous s)
  unfolding report_previous report_unclean_shutdown
  report_previous-Same moment none s = (refl, refl)
  report_previous-Same moment (some previous) s =
      if-holds (Same s) s.has_restored_crash
        {x = record s { previous_marker = none; previous_native_dump = none }}
        {y = report_dump d moment previous s.previous_native_dump
          (record s { previous_marker = none })}
        (refl, refl)
        (report_dump-Same moment previous s.previous_native_dump
          (record s { previous_marker = none }))

  pub runs :
      (files : SessionMarker.Disk) (moment : Moment) (s : Session d)
      → s.session_tracking_started ≡ false
      → tracks d s ≡ true
      → start_session_tracking d files moment s
        ≡ report_previous d moment s.previous_marker (marked d files moment s)
  unfolding start_session_tracking
  runs files moment s h k =
      take_else (s.session_tracking_started || not (tracks d s)) _ _ (rw (h, k) refl)

  start-started :
      (files : SessionMarker.Disk) (moment : Moment) (s : Session d)
      → tracks d s ≡ true
      → (start_session_tracking d files moment s).session_tracking_started ≡ true
  start-started files moment s h = elim (Bool-cases s.session_tracking_started) [
    | inl e ↦ rw (started_stays files moment s e) e
    | inr e ↦
        rw (runs files moment s e h)
          (report_previous-Same moment s.previous_marker (marked d files moment s)).0
  ]

  -- A death is reported once in a run: behind the start of the tracking, no change of consent, in
  -- whatever number and order, queues anything more.
  pub change_all_quiet :
      (files : SessionMarker.Disk) (moment : Moment) (changes : List Change) (s : Session d)
      → tracks d s ≡ true
      → (change_all changes (start_session_tracking d files moment s)).client.worker
        ≡ (start_session_tracking d files moment s).client.worker
  change_all_quiet files moment changes s h =
      (change_all-Quiet changes _ _ (start-started files moment s h, refl)).1

  start-none :
      (files : SessionMarker.Disk) (moment : Moment) (s : Session d)
      → s.previous_marker ≡ none
      → (start_session_tracking d files moment s).client ≡ s.client
  unfolding start_session_tracking report_previous
  start-none files moment s h =
      if-holds (λ (t : Session d). t.client ≡ s.client)
        (s.session_tracking_started || not (tracks d s)) {x = s}
        {y = report_previous d moment s.previous_marker (marked d files moment s)} refl (rw h refl)

  prepare-none :
      (options : Options) (host : Host) (dir : DataDir) (now : ℕ)
      → (SessionMarker.take_previous dir.marker_disk (marker_of dir)).1 ≡ none
      → (prepare d options host dir now).previous_marker ≡ none
  unfolding prepare configure_storage
  prepare-none options host dir now h = elim (Bool-cases dir.usable) [
    | inl e ↦ rw e (
        if-holds (λ (p : Option SessionMarkerData). p ≡ none)
          options.enable_unclean_shutdown_detection {y = none} h refl)
    | inr e ↦ rw e refl
  ]

  -- A run that ended cleanly, and could remove its marker, is not reported dead: the next one on the
  -- data directory starts its tracking and queues nothing for that.
  pub close-silent :
      (files files' : SessionMarker.Disk) (moment moment' : Moment) (draws : List Draw)
      (s : Session d) (options : Options) (host : Host) (dir : DataDir) (now : ℕ)
      → s.marker.configured ≡ true
      → s.client.settings.storage_available ≡ true
      → files.removes ≡ true
      → dir.marker ≡ (close d files moment draws s).marker.file
      → (start_session_tracking d files' moment' (prepare d options host dir now)).client
        ≡ (prepare d options host dir now).client
  close-silent files files' moment moment' draws s options host dir now c a r e =
      start-none files' moment' (prepare d options host dir now) (
        prepare-none options host dir now
          (take_previous-removed files dir.marker_disk s.marker dir.marker c r (e ∙ closed)))
    where
      closed : (close d files moment draws s).marker.file ≡ (remove files s.marker).file
      closed = unfold close in rw a refl
