-- ===== src/Client/Launch/Queued.antt =====
-- The job that the next run queues for a run that died, in the program's own terms.
use tombstack_native.Prelude.{
  take_else, ℕ, ◌^◌, ◌<◌, ◌≡◌, refl, ap, ◌∙◌, Bool, true, false, Option, none, some, List, is_empty,
  All, Bytes,
}
use tombstack_native.Payloads.{Doubles}
use tombstack_native.Payloads.Crash.{CrashPayload}
use tombstack_native.NativeCrash.{NativeCrashDump, ModuleEntry, Crash, dump_writes}
use tombstack_native.NativeCrash.Handler.{take_previous}
use tombstack_native.NativeCrash.Text.{IsInt}
use tombstack_native.NativeCrash.RoundTrip.{IsPlain, written, dump_of, parse_dump-dump_writes}
use tombstack_native.SessionMarker
use tombstack_native.SessionMarker.{SessionMarkerData, write}
use tombstack_native.SessionMarker.RoundTrip.{take_previous-file}
use tombstack_native.Client.Control.{drain_sidecars}
use tombstack_native.Client.State.{Client, Moment}
use tombstack_native.Client.Session.{
  Session, own_marker, tracks, marked, reported, report_dump, report_previous, unclean_payload,
  native_payload, report_unclean_shutdown, start_session_tracking,
}
use tombstack_native.Client.Launch.{Options, Host, DataDir, marker_of, configure_storage, prepare}
use tombstack_native.Client.Launch.Deaths.{report_previous-Same, runs}

module _ (d : Doubles) where
  -- what is reported: the native crash, or that the shutdown was unclean
  abbrev pub death_report :
      Bytes → SessionMarkerData → Option NativeCrashDump → Bool → Client d → CrashPayload d
  death_report now_iso previous none had_log c = unclean_payload d now_iso previous had_log c
  death_report now_iso previous (some dump) had_log c =
      native_payload d now_iso previous dump had_log c

  report_dump-reported :
      (moment : Moment) (previous : SessionMarkerData) (dump : Option NativeCrashDump)
      (s : Session d)
      → (report_dump d moment previous dump s).client
        ≡ reported d moment
            (death_report (moment.iso 1) previous dump s.had_previous_log s.client)
            s.client
  unfolding report_dump
  report_dump-reported moment previous none s = refl
  report_dump-reported moment previous (some dump) s = refl

  unclean-reported :
      (moment : Moment) (previous : SessionMarkerData) (s : Session d)
      → s.has_restored_crash ≡ false
      → (report_unclean_shutdown d moment previous s).client
        ≡ reported d moment
            (death_report
              (moment.iso 1)
              previous
              s.previous_native_dump
              s.had_previous_log
              s.client)
            s.client
  unfolding report_unclean_shutdown
  unclean-reported moment previous s h =
      ap (λ (t : Session d). t.client) (take_else s.has_restored_crash _ _ h)
      ∙ report_dump-reported moment previous s.previous_native_dump s

  report_previous-reported :
      (moment : Moment) (previous : SessionMarkerData) (p : Option SessionMarkerData)
      (s : Session d)
      → p ≡ some previous
      → s.has_restored_crash ≡ false
      → (report_previous d moment p s).client
        ≡ reported d moment
            (death_report
              (moment.iso 1)
              previous
              s.previous_native_dump
              s.had_previous_log
              s.client)
            s.client
  unfolding report_previous
  report_previous-reported moment previous p s e h =
      rw e (unclean-reported moment previous (record s { previous_marker = none }) h)

  prepare-some :
      (options : Options) (host : Host) (dir : DataDir) (now : ℕ) (previous : SessionMarkerData)
      → dir.usable ≡ true
      → options.enable_unclean_shutdown_detection ≡ true
      → (SessionMarker.take_previous dir.marker_disk (marker_of dir)).1 ≡ some previous
      → ((prepare d options host dir now).previous_marker ≡ some previous)
        × (tracks d (prepare d options host dir now) ≡ true)
  unfolding prepare configure_storage drain_sidecars
  prepare-some options host dir now previous u o h = (rw (u, o) h, rw (u, o) refl)

  not_started :
      (options : Options) (host : Host) (dir : DataDir) (now : ℕ)
      → (prepare d options host dir now).session_tracking_started ≡ false
  unfolding prepare
  not_started options host dir now = refl

  pub died-queued :
      (files files' : SessionMarker.Disk) (moment moment' : Moment) (s : Session d)
      (options : Options) (host : Host) (dir : DataDir) (now : ℕ)
      → s.session_tracking_started ≡ false
      → tracks d s ≡ true
      → s.marker.configured ≡ true
      → files.opens ≡ true
      → is_empty s.client.settings.session_id ≡ false
      → dir.marker ≡ (start_session_tracking d files moment s).marker.file
      → dir.usable ≡ true
      → dir.marker_disk.opens ≡ true
      → options.enable_unclean_shutdown_detection ≡ true
      → (prepare d options host dir now).has_restored_crash ≡ false
      → (start_session_tracking d files' moment' (prepare d options host dir now)).client
        ≡ reported d moment'
            (death_report
              (moment'.iso 1)
              (own_marker d (moment.iso 0) s)
              (prepare d options host dir now).previous_native_dump
              (prepare d options host dir now).had_previous_log
              (prepare d options host dir now).client)
            (prepare d options host dir now).client
  died-queued files files' moment moment' s options host dir now b t c w i e u r o n =
      let previous = own_marker d (moment.iso 0) s in
      let next = prepare d options host dir now in
      let written_marker : (start_session_tracking d files moment s).marker
          ≡ write files previous s.marker =
        rw (runs d files moment s b t)
          (report_previous-Same d moment s.previous_marker (marked d files moment s)).1 in
      let taken =
        take_previous-file files dir.marker_disk previous s.marker dir.marker c w r
          (e ∙ ap (λ (m : SessionMarker.SessionMarker). m.file) written_marker) in
      let ready = prepare-some options host dir now previous u o (taken ∙ rw i refl) in
      rw (runs d files' moment' next (not_started options host dir now) ready.1) (
        report_previous-reported moment' previous next.previous_marker
          (marked d files' moment' next) ready.0 n)

  -- What the handler wrote is what the next run has to report: where the handler is enabled, the file
  -- opens, and the dump is whole.
  pub previous_native_dump-prepare :
      (modules : List ModuleEntry) (c : Crash) (options : Options) (host : Host) (dir : DataDir)
      (now : ℕ)
      → All IsPlain modules
      → IsInt c.signal_no
      → IsInt c.code
      → c.fault_addr < 2 ^ 64
      → c.pc < 2 ^ 64
      → c.lr < 2 ^ 64
      → dir.dump ≡ some (written (dump_writes modules c))
      → dir.usable ≡ true
      → dir.dump_reads ≡ true
      → options.enable_native_crash_handler ≡ true
      → (prepare d options host dir now).previous_native_dump ≡ some (dump_of modules c)
  unfolding prepare configure_storage take_previous
  previous_native_dump-prepare modules c options host dir now p h k l pc lr e u r o =
      rw (u, o) (rw e (rw r (parse_dump-dump_writes modules c p h k l pc lr)))
