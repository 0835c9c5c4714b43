-- ===== src/Api/Init.antt =====
-- `tombstone_init` with its replay of the store, and `tombstone_shutdown`, of
-- src/src/tombstone_api.cpp.
use tombstack_native.Prelude.{
  ℕ, suc, Bool, Option, none, some, List, [], ◌∷◌, map, if◌then◌else◌, value_or, length,
}
use tombstack_native.Payloads.{Doubles}
use tombstack_native.SidecarQueue.{Draw}
use tombstack_native.PreInit
use tombstack_native.PreInit.{PreInitStore, Crumb, Track}
use tombstack_native.Sampler.{Rates, new_sampler}
use tombstack_native.Client.Identity.{Result, ok, invalid_argument, already_initialized}
use tombstack_native.Client.Capture
use tombstack_native.Client.Context
use tombstack_native.Client.Session.{Session}
use tombstack_native.Client.Launch
use tombstack_native.Client.Launch.{Options, Host, DataDir}
use tombstack_native.Api.{
  Live, Process, Now, level_of, on_client, on_context, live_set_consent, live_set_user,
  live_set_user_metadata, live_track_event, live_track_metric, live_start_session,
}

module _ (d : Doubles) where
  -- the loop over the breadcrumbs of the store; the n-th call meets the n-th of these
  unfoldable pub replay_breadcrumbs : (ℕ → Now d) → List Crumb → Live d → Live d
  replay_breadcrumbs at [] live = live
  replay_breadcrumbs at (crumb ∷ crumbs) live =
      replay_breadcrumbs (λ i. at (suc i)) crumbs
        (on_client d
          (Capture.add_breadcrumb d (at 0).moment (level_of crumb.level) (some crumb.message))
          live).0

  -- the first four statements of `replay_preinit`
  unfoldable pub replay_consent : Now d → PreInitStore d.double → Live d → Live d
  replay_consent now store live =
      if store.has_consent then live_set_consent d now store.consent live else live

  unfoldable pub replay_user : PreInitStore d.double → Live d → Live d
  replay_user store live =
      if store.has_user
      then (on_client d (live_set_user d (some store.user_id) (some store.steam_id)) live).0
      else live

  unfoldable pub replay_environment : PreInitStore d.double → Live d → Live d
  replay_environment store live =
      if store.has_environment
      then (on_client d (on_context d (Context.set_environment (some store.environment))) live).0
      else live

  unfoldable pub replay_user_metadata : PreInitStore d.double → Live d → Live d
  replay_user_metadata store live =
      if store.has_user_metadata
      then (on_client d
          (live_set_user_metadata d (length store.user_metadata)
            (some (map (λ e. some e.0) store.user_metadata))
            (some (map (λ e. some e.1) store.user_metadata)))
          live).0
      else live

  unfoldable pub replay_settings : Now d → PreInitStore d.double → Live d → Live d
  unfolding replay_consent replay_user replay_environment replay_user_metadata
  replay_settings now store live =
      replay_user_metadata store
        (replay_environment store (replay_user store (replay_consent now store live)))

  -- `tombstone_shutdown`: the process, and the session that `~Client` leaves on the disk
  unfoldable pub tombstone_shutdown : Now d → List Draw → Process d → Process d × Option (Session d)
  tombstone_shutdown now draws p = elim p.client [
    | none ↦ (p, none)
    | some live ↦
        (record p { client = none }, some (Launch.close d now.files now.moment draws live.session))
  ]

  module _ (real : Rates d.double) (is_finite : d.double → Bool) where
    -- one round of the loop over its events and metrics
    unfoldable pub replay_track : Now d → Track d.double → Live d → Live d
    unfolding live_track_event live_track_metric
    replay_track now track live =
        if track.is_metric
        then (live_track_metric d real is_finite now (some track.name)
            (value_or track.value d.unset) (some track.unit) live).0
        else (live_track_event d real is_finite now (some track.name) (length track.attributes)
            (some (map (λ a. some a.0) track.attributes))
            (some (map (λ a. some a.1) track.attributes)) live).0

    unfoldable pub replay_tracks : (ℕ → Now d) → List (Track d.double) → Live d → Live d
    replay_tracks at [] live = live
    replay_tracks at (track ∷ tracks) live =
        replay_tracks (λ i. at (suc i)) tracks (replay_track (at 0) track live)

    -- `replay_preinit`: what the settings meet, and what the crumbs and the tracks meet
    unfoldable pub replay_preinit :
        Now d → (ℕ → Now d) → (ℕ → Now d) → PreInitStore d.double → Live d → Live d
    unfolding live_start_session
    replay_preinit now at_crumb at_track store live =
        let captured =
          replay_tracks at_track store.tracks
            (replay_breadcrumbs at_crumb store.breadcrumbs (replay_settings now store live)) in
        if store.start_session_requested then (live_start_session d captured).0 else captured

    -- `tombstone_init` behind the test of `g_client`, with the answer of `init`
    abbrev pub publish :
        Now d
        → (ℕ → Now d)
        → (ℕ → Now d)
        → Option (Session d) × Result
        → Process d
        → Process d × Result
    publish now at_crumb at_track (none, result) p = (p, result)
    publish now at_crumb at_track (some session, result) p = (
      record {
        client = some (
            replay_preinit now at_crumb at_track p.preinit
              (record { session = session; sampler = new_sampler }));
        preinit = PreInit.clear p.preinit;
      },
      ok,
    )

    unfoldable pub tombstone_init :
        Now d
        → (ℕ → Now d)
        → (ℕ → Now d)
        → Host
        → DataDir
        → Option Options
        → Process d
        → Process d × Result
    unfolding replay_preinit
    tombstone_init now at_crumb at_track host dir none p = (p, invalid_argument)
    tombstone_init now at_crumb at_track host dir (some options) p = elim p.client [
      | some live ↦ (p, already_initialized)
      | none ↦ publish now at_crumb at_track (Launch.init d options host dir now.moment) p
    ]
