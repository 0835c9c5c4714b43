-- ===== src/Api/Settled.antt =====
-- What the replay in `tombstone_init` makes of the settings.
use tombstack_native.Prelude.{
  ℕ, suc, ◌≡◌, refl, ap, ◌∙◌, inl, inr, Bool, true, false, ◌&&◌, ◌||◌, some, List, [], ◌∷◌,
  if◌then◌else◌, Bool-cases, if-holds,
}
use tombstack_native.Payloads.{Doubles}
use tombstack_native.Payloads.Limits
use tombstack_native.PreInit.{PreInitStore, Crumb, Track}
use tombstack_native.SessionMarker
use tombstack_native.StartGate.{set_gate, exchange_open, request}
use tombstack_native.Sampler.{Rates}
use tombstack_native.Client.Identity.{clamped, set_user, set_identity}
use tombstack_native.Client.Carry.{carry_set_user, carry_set_metadata}
use tombstack_native.Client.State.{Moment}
use tombstack_native.Client.Context.{set_environment, relabel_set}
use tombstack_native.Client.Capture
use tombstack_native.Client.Capture.{is_unset}
use tombstack_native.Client.Control.{set_consent, start_session}
use tombstack_native.Client.Session.Frame.{start_session_tracking-keeps}
use tombstack_native.Client.Session.{Session, start_session_tracking, tracks}
use tombstack_native.Client.Launch.{change_consent}
use tombstack_native.Api.{
  Live, Now, live_set_consent, live_set_user, live_set_user_metadata, live_start_session,
}
use tombstack_native.Api.Chosen.{Chosen, seen, view}
use tombstack_native.Api.Tracks.{guarded-keeps, replay_tracks-keeps}
use tombstack_native.Api.Init.{
  replay_consent, replay_user, replay_environment, replay_user_metadata, replay_settings,
  replay_breadcrumbs, replay_tracks, replay_preinit,
}

module _ (d : Doubles) where
  abbrev pub look : Live d → Chosen
  look live = seen live.session.client

  pub start_session_tracking-look :
      (files : SessionMarker.Disk) (moment : Moment) (s : Session d)
      → seen (start_session_tracking d files moment s).client ≡ seen s.client
  start_session_tracking-look files moment s =
      start_session_tracking-keeps d (λ c. seen c ≡ seen s.client) (λ w c h. h) files moment s refl

  live_set_consent-look :
      (now : Now d) (granted : Bool) (live : Live d)
      → look (live_set_consent d now granted live) ≡ record (look live) { granted = granted }
  unfolding live_set_consent change_consent set_consent
  live_set_consent-look now granted live =
      let changed = record live.session { client = set_consent d granted live.session.client } in
      if-holds {A = Session d} (λ s. seen s.client ≡ record (look live) { granted = granted })
        (granted && live.session.client.initialized)
        (start_session_tracking-look now.files now.moment changed) refl

  replay_consent-look :
      (now : Now d) (store : PreInitStore d.double) (live : Live d)
      → look (replay_consent d now store live) ≡ record (look live) {
        granted = if store.has_consent then store.consent else (look live).granted;
      }
  unfolding replay_consent
  replay_consent-look now store live = elim (Bool-cases store.has_consent) [
    | inl e ↦ rw e (live_set_consent-look now store.consent live)
    | inr e ↦ rw e refl
  ]

  -- what each of the other settings does to what is seen
  abbrev user_chosen : PreInitStore d.double → Chosen → Chosen
  user_chosen store c = record c {
    user_id = if store.has_user then clamped (some store.user_id) Limits.user_id else c.user_id;
    steam_id = if store.has_user then clamped (some store.steam_id) Limits.steam_id else c.steam_id;
  }

  abbrev label_chosen : PreInitStore d.double → Chosen → Chosen
  label_chosen store c = record c {
    label =
        if store.has_environment
        then relabel_set (some store.environment) Limits.environment c.label
        else c.label;
  }

  replay_user-look :
      (store : PreInitStore d.double) (live : Live d)
      → look (replay_user d store live) ≡ user_chosen store (look live)
  unfolding replay_user live_set_user carry_set_user set_user set_identity
  replay_user-look store live = elim (Bool-cases store.has_user) [
    | inl e ↦ rw e refl
    | inr e ↦ rw e refl
  ]

  replay_environment-look :
      (store : PreInitStore d.double) (live : Live d)
      → look (replay_environment d store live) ≡ label_chosen store (look live)
  unfolding replay_environment set_environment
  replay_environment-look store live = elim (Bool-cases store.has_environment) [
    | inl e ↦ rw e refl
    | inr e ↦ rw e refl
  ]

  replay_user_metadata-look :
      (store : PreInitStore d.double) (live : Live d)
      → look (replay_user_metadata d store live) ≡ look live
  unfolding replay_user_metadata live_set_user_metadata carry_set_metadata
  replay_user_metadata-look store live =
      if-holds {A = Live d} (λ l. look l ≡ look live) store.has_user_metadata refl refl

  pub replay_settings-look :
      (now : Now d) (store : PreInitStore d.double) (live : Live d)
      → look (replay_settings d now store live)
        ≡ record (view store (look live)) { opened = (look live).opened }
  unfolding replay_settings
  replay_settings-look now store live =
      replay_user_metadata-look store _
      ∙ replay_environment-look store _
      ∙ ap (label_chosen store)
          (replay_user-look store _ ∙ ap (user_chosen store) (replay_consent-look now store live))

  -- a capture call changes nothing of it
  replay_breadcrumbs-look :
      (at : ℕ → Now d) (crumbs : List Crumb) (live : Live d)
      → look (replay_breadcrumbs d at crumbs live) ≡ look live
  unfolding replay_breadcrumbs Capture.add_breadcrumb
  replay_breadcrumbs-look at [] live = refl
  replay_breadcrumbs-look at (crumb ∷ crumbs) live =
      replay_breadcrumbs-look (λ i. at (suc i)) crumbs _
      ∙ guarded-keeps (λ c. seen c ≡ look live) (is_unset (some crumb.message)) live.session.client
          _ refl refl

  module _ (real : Rates d.double) (is_finite : d.double → Bool) where
    replay_tracks-look :
        (at : ℕ → Now d) (tracks : List (Track d.double)) (live : Live d)
        → look (replay_tracks d real is_finite at tracks live) ≡ look live
    replay_tracks-look at tracks live =
        replay_tracks-keeps d real is_finite (λ c. seen c ≡ look live) (λ e m w c h. h) at tracks
          live refl

    requested-look :
        (b : Bool) (live : Live d) (c : Chosen)
        → look live ≡ c
        → look (if b then (live_start_session d live).0 else live)
          ≡ record c { opened = b || c.opened }
    unfolding live_start_session start_session set_gate exchange_open request
    requested-look true live c h = ap (λ (c : Chosen). record c { opened = true }) h
    requested-look false live c h = h

    pub replay_preinit-look :
        (now : Now d) (at_crumb at_track : ℕ → Now d) (store : PreInitStore d.double)
        (live : Live d)
        → look (replay_preinit d real is_finite now at_crumb at_track store live)
          ≡ view store (look live)
    unfolding replay_preinit
    replay_preinit-look now at_crumb at_track store live =
        let settled = replay_settings d now store live in
        let crumbed = replay_breadcrumbs d at_crumb store.breadcrumbs settled in
        requested-look store.start_session_requested
          (replay_tracks d real is_finite at_track store.tracks crumbed) _
          (replay_tracks-look at_track store.tracks crumbed
            ∙ replay_breadcrumbs-look at_crumb store.breadcrumbs settled
            ∙ replay_settings-look now store live)
