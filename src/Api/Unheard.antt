-- ===== src/Api/Unheard.antt =====
-- A game that withdraws its consent before `tombstone_init`.
use tombstack_native.Client.Session.{start_session_tracking}
use tombstack_native.Prelude.{
  ℕ, suc, ◌≡◌, refl, sym, ap, ◌∙◌, subst, Bool, true, false, not, ◌&&◌, none, some, List, [], ◌∷◌,
  map, if◌then◌else◌, value_or, length, if-holds,
}
use tombstack_native.Payloads.{Doubles}
use tombstack_native.BreadcrumbRing.{BreadcrumbRing, new_ring, default_capacity, clear}
use tombstack_native.PreInit.{PreInitStore, Crumb, Track}
use tombstack_native.Sampler.{Rates, should_keep}
use tombstack_native.Client.State.{capture_allowed, Client, Moment}
use tombstack_native.Client.Capture.Consent
use tombstack_native.Client.Control.{drain_sidecars, set_consent, start_session}
use tombstack_native.Client.Session.Frame.{start_session_tracking-keeps}
use tombstack_native.Client.Session.{Session, tracks}
use tombstack_native.Client.Launch
use tombstack_native.Client.Launch.{Options, Host, DataDir, refused, prepare, change_consent}
use tombstack_native.Api.{
  Process, level_of, Live, Now, on_client, live_set_consent, live_set_user, live_set_user_metadata,
  live_start_session, live_track_event, live_track_metric,
}
use tombstack_native.Api.Calls.{Call, new_process, run_all}
use tombstack_native.Api.Chosen.{choose_all, run_all-Viewed, Chosen, view}
use tombstack_native.Api.First.{initial, launched-seen}
use tombstack_native.Api.Settled.{look, replay_settings-look}
use tombstack_native.Api.Init.{
  tombstone_init, replay_consent, replay_user, replay_environment, replay_user_metadata,
  replay_settings, replay_breadcrumbs, replay_track, replay_tracks, replay_preinit,
}

-- no capture is kept: a new ring, and empty batches
abbrev pub IsSilent : {d : Doubles} → Client d → Type 0
IsSilent c =
    (c.breadcrumbs ≡ new_ring default_capacity)
    × (c.event_batch.items ≡ [])
    × (c.metric_batch.items ≡ [])

-- as `init` leaves it
abbrev pub IsFresh : {d : Doubles} → Client d → Type 0
IsFresh c = (c.initialized ≡ true) × IsSilent c

and_false : (b : Bool) → (b && false) ≡ false
and_false true = refl
and_false false = refl

module _ (d : Doubles) where
  set_consent-IsFresh :
      (granted : Bool) (c : Client d) → IsFresh c → IsFresh (set_consent d granted c)
  unfolding set_consent clear new_ring
  set_consent-IsFresh granted c (initialized, (ring, events, metrics)) = (
    initialized,
    (
      if-holds {A = BreadcrumbRing} (λ r. r ≡ new_ring default_capacity)
          (not (granted && c.initialized) && (not granted && c.consent)) (ap clear ring) ring,
      events,
      metrics,
    ),
  )

  replay_consent-IsFresh :
      (now : Now d) (store : PreInitStore d.double) (live : Live d)
      → IsFresh live.session.client
      → IsFresh (replay_consent d now store live).session.client
  unfolding replay_consent live_set_consent change_consent
  replay_consent-IsFresh now store live h =
      let changed = record live.session {
        client = set_consent d store.consent live.session.client;
      } in
      let silent = set_consent-IsFresh store.consent live.session.client h in
      if-holds {A = Live d} (λ l. IsFresh l.session.client) store.has_consent
        (if-holds {A = Session d} (λ s. IsFresh s.client)
          (store.consent && live.session.client.initialized)
          (start_session_tracking-keeps d IsFresh (λ w c h. h) now.files now.moment changed silent)
          silent)
        h

  pub replay_settings-IsFresh :
      (now : Now d) (store : PreInitStore d.double) (live : Live d)
      → IsFresh live.session.client
      → IsFresh (replay_settings d now store live).session.client
  unfolding replay_settings replay_user replay_environment replay_user_metadata live_set_user
      live_set_user_metadata
  replay_settings-IsFresh now store live h =
      let P = λ (l : Live d). IsFresh l.session.client in
      let consented = replay_consent-IsFresh now store live h in
      let known = if-holds {A = Live d} P store.has_user consented consented in
      let placed = if-holds {A = Live d} P store.has_environment known known in
      if-holds {A = Live d} P store.has_user_metadata placed placed

  -- Without consent a capture call changes nothing, and so does their replay.
  unheard_lem :
      (m : Moment) (call : Consent.Call d) (live : Live d)
      → capture_allowed d live.session.client ≡ false
      → (on_client d (Consent.capture d m call) live).0 ≡ live
  unheard_lem m call live denied =
      ap (λ (c : Client d). record live { session = record live.session { client = c } })
        (Consent.capture-Refused d m call live.session.client denied).0

  replay_breadcrumbs_unheard :
      (at : ℕ → Now d) (crumbs : List Crumb) (live : Live d)
      → capture_allowed d live.session.client ≡ false
      → replay_breadcrumbs d at crumbs live ≡ live
  unfolding replay_breadcrumbs Consent.capture
  replay_breadcrumbs_unheard at [] live denied = refl
  replay_breadcrumbs_unheard at (crumb ∷ crumbs) live denied =
      ap (replay_breadcrumbs d (λ i. at (suc i)) crumbs) (
        unheard_lem (at 0).moment
          (Consent.breadcrumb_call (level_of crumb.level) (some crumb.message)) live denied)
      ∙ replay_breadcrumbs_unheard (λ i. at (suc i)) crumbs live denied

  module _ (real : Rates d.double) (is_finite : d.double → Bool) where
    replay_track_unheard :
        (now : Now d) (track : Track d.double) (live : Live d)
        → capture_allowed d live.session.client ≡ false
        → replay_track d real is_finite now track live ≡ live
    unfolding replay_track live_track_event live_track_metric Consent.capture
    replay_track_unheard now track live denied =
        let keep = should_keep real track.name now.roll live.sampler in
        if-holds {A = Live d} (λ l. l ≡ live) track.is_metric
          (unheard_lem now.moment
            (Consent.metric_call keep (some track.name) (is_finite (value_or track.value d.unset))
              (value_or track.value d.unset) (some track.unit))
            live denied)
          (unheard_lem now.moment
            (Consent.event_call keep (some track.name) (length track.attributes)
              (some (map (λ a. some a.0) track.attributes))
              (some (map (λ a. some a.1) track.attributes)))
            live denied)

    replay_tracks_unheard :
        (at : ℕ → Now d) (tracks : List (Track d.double)) (live : Live d)
        → capture_allowed d live.session.client ≡ false
        → replay_tracks d real is_finite at tracks live ≡ live
    unfolding replay_tracks
    replay_tracks_unheard at [] live denied = refl
    replay_tracks_unheard at (track ∷ tracks) live denied =
        ap (replay_tracks d real is_finite (λ i. at (suc i)) tracks)
          (replay_track_unheard (at 0) track live denied)
        ∙ replay_tracks_unheard (λ i. at (suc i)) tracks live denied

    replay_preinit-IsSilent :
        (now : Now d) (at_crumb at_track : ℕ → Now d) (store : PreInitStore d.double)
        (live : Live d)
        → (view store (look d live)).granted ≡ false
        → IsFresh live.session.client
        → IsSilent (replay_preinit d real is_finite now at_crumb at_track store live).session.client
    unfolding replay_preinit live_start_session start_session
    replay_preinit-IsSilent now at_crumb at_track store live denied fresh =
        let settled = replay_settings d now store live in
        let quiet : IsFresh settled.session.client = replay_settings-IsFresh now store live fresh in
        let unheard : capture_allowed d settled.session.client ≡ false =
          ap (λ b. settled.session.client.initialized && b)
            (ap (λ (c : Chosen). c.granted) (replay_settings-look d now store live) ∙ denied)
          ∙ and_false settled.session.client.initialized in
        let P = λ (l : Live d). IsSilent l.session.client in
        let captured =
          subst P
            (sym (
              ap (replay_tracks d real is_finite at_track store.tracks)
                (replay_breadcrumbs_unheard at_crumb store.breadcrumbs settled unheard)
              ∙ replay_tracks_unheard at_track store.tracks settled unheard))
            quiet.1 in
        if-holds {A = Live d} P store.start_session_requested captured captured

module _ (d : Doubles) (real : Rates d.double) (is_finite : d.double → Bool) (now : Now d)
    (at_crumb at_track : ℕ → Now d) (host : Host) (dir : DataDir) where
  -- There is a client, and it keeps no capture.
  abbrev pub Silences : Process d → Type 0
  Silences p = elim p.client [ none ↦ ⊥ | some live ↦ IsSilent live.session.client ]

  pub launched-IsFresh :
      (options : Options)
      → IsFresh
          (if options.consent_granted
            then start_session_tracking d dir.marker_disk now.moment
                (prepare d options host dir (now.moment.now 0))
            else prepare d options host dir (now.moment.now 0)).client
  unfolding prepare drain_sidecars
  launched-IsFresh options =
      let ready = prepare d options host dir (now.moment.now 0) in
      let silent : IsFresh ready.client = (refl, (refl, refl, refl)) in
      if-holds {A = Session d} (λ s. IsFresh s.client) options.consent_granted
        (start_session_tracking-keeps d IsFresh (λ w c h. h) dir.marker_disk now.moment ready
          silent)
        silent

  init-Silences :
      (options : Options) (store : PreInitStore d.double)
      → refused options ≡ false
      → (view store (initial options)).granted ≡ false
      → Silences
          (tombstone_init d real is_finite now at_crumb at_track host dir
            (some options)
            (record { client = none; preinit = store })).0
  unfolding tombstone_init Launch.init
  init-Silences options store h denied = rw h (
      replay_preinit-IsSilent d real is_finite now at_crumb at_track store _
        (ap (λ c. (view store c).granted)
            (launched-seen d real is_finite now at_crumb at_track host dir options)
          ∙ denied)
        (launched-IsFresh options))

-- Where the last consent that a game gives before `tombstone_init` is a refusal, or the options refuse
-- and no call grants it, the new client holds none of the breadcrumbs, the events and the metrics
-- that were captured before.
pub init-unheard :
    (d : Doubles) (real : Rates d.double) (is_finite : d.double → Bool) (now : Now d)
    (at_crumb at_track : ℕ → Now d) (host : Host) (dir : DataDir) (options : Options)
    (calls : List (Call d))
    → refused options ≡ false
    → (choose_all calls (initial options)).granted ≡ false
    → Silences d real is_finite now at_crumb at_track host dir
        (tombstone_init d real is_finite now at_crumb at_track host dir
          (some options)
          (run_all d real is_finite calls (new_process d))).0
init-unheard d real is_finite now at_crumb at_track host dir options calls h denied =
    let p = run_all d real is_finite calls (new_process d) in
    let (none_yet, shows) =
      run_all-Viewed real is_finite (initial options) calls (initial options) (new_process d)
        (refl, refl) in
    subst
      (λ client.
        Silences d real is_finite now at_crumb at_track host dir
          (tombstone_init d real is_finite now at_crumb at_track host dir (some options)
            (record { client = client; preinit = p.preinit })).0)
      (sym none_yet)
      (init-Silences d real is_finite now at_crumb at_track host dir options p.preinit h
        (ap (λ (c : Chosen). c.granted) shows ∙ denied))
