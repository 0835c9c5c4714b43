-- ===== src/Api/Tracks.antt =====
-- The replay of events and metrics changes only the batches and the worker.
use tombstack_native.Prelude.{
  ℕ, suc, Bool, not, Option, some, List, [], ◌∷◌, map, value_or, length, Bytes, if-holds,
}
use tombstack_native.Payloads.{Doubles}
use tombstack_native.PreInit.{Track}
use tombstack_native.Batch.{Batch}
use tombstack_native.Worker.{Worker}
use tombstack_native.Sampler.{Rates, should_keep}
use tombstack_native.Client.Identity.{Result}
use tombstack_native.Client.State.{Client, capture_allowed}
use tombstack_native.Client.Capture.{guarded}
use tombstack_native.Client.Telemetry.{track_event, track_metric}
use tombstack_native.Api.{Live, Now, live_track_event, live_track_metric}
use tombstack_native.Api.Init.{replay_track, replay_tracks}

-- What holds of both answers holds of a guarded call.
pub guarded-keeps :
    {d : Doubles} (P : Client d → Type 0) (refused : Bool) (c : Client d) (done : Client d × Result)
    → P c
    → P done.0
    → P (guarded d refused c done).0
guarded-keeps {d} P refused c done p q =
    if-holds {A = Client d × Result} (λ r. P r.0) refused p
      (if-holds {A = Client d × Result} (λ r. P r.0) (not (capture_allowed d c)) p q)

module _ (d : Doubles) (real : Rates d.double) (is_finite : d.double → Bool) (P : Client d → Type 0)
    (keeps : (e m : Batch) (w : Worker) (c : Client d)
      → P c
      → P (record c { event_batch = e; metric_batch = m; worker = w })) where
  live_track_event-keeps :
      (now : Now d) (name : Option Bytes) (count : ℕ) (keys values : Option (List (Option Bytes)))
      (live : Live d)
      → P live.session.client
      → P (live_track_event d real is_finite now name count keys values live).0.session.client
  unfolding live_track_event track_event
  live_track_event-keeps now name count keys values live h =
      guarded-keeps P _ live.session.client _ h (
        if-holds {A = Client d × Result} (λ r. P r.0)
          (not (should_keep real (value_or name []) now.roll live.sampler)) h
          (keeps _ _ _ live.session.client h))

  live_track_metric-keeps :
      (now : Now d) (name : Option Bytes) (value : d.double) (unit : Option Bytes) (live : Live d)
      → P live.session.client
      → P (live_track_metric d real is_finite now name value unit live).0.session.client
  unfolding live_track_metric track_metric
  live_track_metric-keeps now name value unit live h = guarded-keeps P _ live.session.client _ h (
      if-holds {A = Client d × Result} (λ r. P r.0)
        (not (should_keep real (value_or name []) now.roll live.sampler)) h
        (keeps _ _ _ live.session.client h))

  pub replay_tracks-keeps :
      (at : ℕ → Now d) (tracks : List (Track d.double)) (live : Live d)
      → P live.session.client
      → P (replay_tracks d real is_finite at tracks live).session.client
  unfolding replay_tracks replay_track
  replay_tracks-keeps at [] live h = h
  replay_tracks-keeps at (track ∷ tracks) live h =
      replay_tracks-keeps (λ i. at (suc i)) tracks (replay_track d real is_finite (at 0) track live)
        (if-holds {A = Live d} (λ l. P l.session.client) track.is_metric
          (live_track_metric-keeps (at 0) (some track.name) (value_or track.value d.unset)
            (some track.unit) live h)
          (live_track_event-keeps (at 0) (some track.name) (length track.attributes)
            (some (map (λ a. some a.0) track.attributes))
            (some (map (λ a. some a.1) track.attributes)) live h))
