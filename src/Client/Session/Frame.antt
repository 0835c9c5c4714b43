-- ===== src/Client/Session/Frame.antt =====
-- The report of the last session's death changes only the worker of the client.
use tombstack_native.Prelude.{not, ◌||◌, Option, none, some, if-holds}
use tombstack_native.Payloads.{Doubles}
use tombstack_native.SessionMarker
use tombstack_native.SessionMarker.{SessionMarkerData}
use tombstack_native.NativeCrash.{NativeCrashDump}
use tombstack_native.Worker.{Worker}
use tombstack_native.Client.State.{Client, Moment, enqueue_ingest}
use tombstack_native.Client.Session.{
  Session, start_session_tracking, report_previous, report_unclean_shutdown, report_dump, marked,
  tracks,
}

module _ (d : Doubles) (P : Client d → Type 0)
    (keeps : (w : Worker) (c : Client d) → P c → P (record c { worker = w })) where
  report_dump-keeps :
      (moment : Moment) (previous : SessionMarkerData) (dump : Option NativeCrashDump)
      (s : Session d)
      → P s.client
      → P (report_dump d moment previous dump s).client
  unfolding report_dump enqueue_ingest
  report_dump-keeps moment previous none s h = keeps _ s.client h
  report_dump-keeps moment previous (some dump) s h = keeps _ s.client h

  report_previous-keeps :
      (moment : Moment) (previous : Option SessionMarkerData) (s : Session d)
      → P s.client
      → P (report_previous d moment previous s).client
  unfolding report_previous report_unclean_shutdown
  report_previous-keeps moment none s h = h
  report_previous-keeps moment (some previous) s h =
      if-holds {A = Session d} (λ t. P t.client) s.has_restored_crash h
        (report_dump-keeps moment previous s.previous_native_dump
          (record s { previous_marker = none }) h)

  pub start_session_tracking-keeps :
      (files : SessionMarker.Disk) (moment : Moment) (s : Session d)
      → P s.client
      → P (start_session_tracking d files moment s).client
  unfolding start_session_tracking
  start_session_tracking-keeps files moment s h =
      if-holds {A = Session d} (λ t. P t.client) (s.session_tracking_started || not (tracks d s)) h
        (report_previous-keeps moment s.previous_marker (marked d files moment s) h)
