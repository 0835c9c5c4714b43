-- ===== src/Api/Chosen.antt =====
-- What is chosen before `tombstone_init` beats its options.
use tombstack_native.Prelude.{
  ℕ, ◌≡◌, refl, sym, subst, Bool, true, not, ◌&&◌, ◌||◌, Option, none, some, List, [], ◌∷◌, ltb,
  leb, if◌then◌else◌, value_or, length, Bytes, if-holds,
}
use tombstack_native.Payloads.{Doubles}
use tombstack_native.Json.Utf8.{utf8_safe_truncate}
use tombstack_native.Payloads.Limits
use tombstack_native.PreInit
use tombstack_native.PreInit.{PreInitStore, Track}
use tombstack_native.Sampler.{Rates}
use tombstack_native.Client.Identity.{Result, clamped, is_null}
use tombstack_native.Client.State.{Client}
use tombstack_native.Payloads.Metadata.{clamp_user_metadata}
use tombstack_native.Client.Capture.{is_unset}
use tombstack_native.Client.Telemetry.{attributes_of}
use tombstack_native.Client.Context.{relabel_set}
use tombstack_native.Client.Launch.{refused}
use tombstack_native.Api.{level_number, Process, with_client, with_client_or_buffer}
use tombstack_native.Api.Entries
use tombstack_native.Api.Calls.{
  Call, user, consent, session, environment, user_metadata, breadcrumb, event, metric, unbuffered,
  run, run_all,
}

-- The settings that both the options and the calls can give.
pub record Chosen : Type 0 where
  pub granted : Bool
  pub label : Bytes
  pub user_id : Bytes
  pub steam_id : Bytes
  pub opened : Bool

-- a text that may be missing, cut to so many bytes at a whole character
abbrev pub cut : Option Bytes → ℕ → Bytes
cut none max_bytes = []
cut (some text) max_bytes = utf8_safe_truncate text max_bytes

-- the label behind a call with this one: at most 64 bytes of it, where there are any
abbrev pub labelled : Option Bytes → Bytes → Bytes
labelled none old = old
labelled (some []) old = old
labelled (some (c ∷ cs)) old = utf8_safe_truncate (c ∷ cs) 64

-- the settings behind a replay of the store
abbrev pub view : {F : Type 0} → PreInitStore F → Chosen → Chosen
view s c = record {
  granted = if s.has_consent then s.consent else c.granted;
  label =
      if s.has_environment
      then relabel_set (some s.environment) Limits.environment c.label
      else c.label;
  user_id = if s.has_user then clamped (some s.user_id) Limits.user_id else c.user_id;
  steam_id = if s.has_user then clamped (some s.steam_id) Limits.steam_id else c.steam_id;
  opened = s.start_session_requested || c.opened;
}

module _ {d : Doubles} where
  abbrev pub seen : Client d → Chosen
  seen c = record {
    granted = c.consent;
    label = c.context.environment;
    user_id = c.carry.identity.user_id;
    steam_id = c.carry.identity.steam_id;
    opened = c.gate.opened;
  }

  -- A call before there is a client; one that is refused chooses nothing.
  abbrev pub choose : Call d → Chosen → Chosen
  choose (user id steam_id) c = record c { user_id = cut id 128; steam_id = cut steam_id 32 }
  choose (consent now granted) c = record c { granted = granted }
  choose session c = record c { opened = true }
  choose (environment e) c = record c { label = labelled e c.label }
  choose _ c = c

  abbrev pub choose_all : List (Call d) → Chosen → Chosen
  choose_all [] c = c
  choose_all (call ∷ calls) c = choose_all calls (choose call c)

abbrev pub Viewed : (d : Doubles) → Chosen → Chosen → Process d → Type 0
Viewed d base c p = (p.client ≡ none) × (view p.preinit base ≡ c)

kept :
    {F : Type 0} (base : Chosen) (refused : Bool) (keep : PreInitStore F → PreInitStore F)
    (s : PreInitStore F)
    → view (keep s) base ≡ view s base
    → view (Entries.checked refused keep s).0 base ≡ view s base
kept {F} base refused keep s h =
    if-holds {A = PreInitStore F × Result} (λ r. view r.0 base ≡ view s base) refused refl h

add_track-kept :
    {F : Type 0} (base : Chosen) (t : Track F) (s : PreInitStore F)
    → view (PreInit.add_track t s).0 base ≡ view s base
unfolding PreInit.add_track
add_track-kept {F} base t s =
    if-holds {A = PreInitStore F × Bool} (λ r. view r.0 base ≡ view s base)
      (leb PreInit.max_tracks (length s.tracks)) refl refl

module _ {d : Doubles} (real : Rates d.double) (is_finite : d.double → Bool) (base : Chosen) where
  run-Viewed :
      (call : Call d) (s : PreInitStore d.double)
      → Viewed d base
          (choose call (view s base))
          (run d real is_finite call (record { client = none; preinit = s })).0
  unfolding run with_client with_client_or_buffer Entries.tombstone_set_user Entries.buffer_user
      Entries.tombstone_set_consent Entries.tombstone_start_session
      Entries.tombstone_set_environment Entries.tombstone_set_user_metadata
      Entries.tombstone_add_breadcrumb Entries.tombstone_track_event Entries.tombstone_track_metric
      PreInit.set_user PreInit.set_consent PreInit.request_start_session PreInit.set_environment
      PreInit.set_user_metadata PreInit.add_breadcrumb PreInit.add_event PreInit.add_metric
      utf8_safe_truncate
  run-Viewed (user none none) s = (refl, refl)
  run-Viewed (user none (some steam_id)) s = (refl, refl)
  run-Viewed (user (some id) none) s = (refl, refl)
  run-Viewed (user (some id) (some steam_id)) s = (refl, refl)
  run-Viewed (consent now granted) s = (refl, refl)
  run-Viewed session s = (refl, refl)
  run-Viewed (environment none) s = (refl, refl)
  run-Viewed (environment (some [])) s = (refl, refl)
  run-Viewed (environment (some (c ∷ cs))) s = (refl, refl)
  run-Viewed (user_metadata keys values count) s = (
    refl,
    kept base (ltb 0 count && (is_null keys || is_null values))
        (PreInit.set_user_metadata (clamp_user_metadata keys values)) s refl,
  )
  run-Viewed (breadcrumb now level message) s = (
    refl,
    kept base (is_unset message) (PreInit.add_breadcrumb (level_number level) (value_or message []))
        s refl,
  )
  run-Viewed (event now name keys values count) s = (
    refl,
    kept base (is_unset name || (ltb 0 count && (is_null keys || is_null values)))
        (λ store.
          (PreInit.add_event (value_or name [])
            (attributes_of (value_or keys []) (value_or values [])) store).0)
        s (add_track-kept base _ s),
  )
  run-Viewed (metric now name value unit) s = (
    refl,
    kept base (is_unset name || not (is_finite value))
        (λ store. (PreInit.add_metric (value_or name []) value (value_or unit []) store).0) s
        (add_track-kept base _ s),
  )
  run-Viewed (unbuffered action) s = (refl, refl)

  run-Viewed_any :
      (call : Call d) (c : Chosen) (p : Process d)
      → Viewed d base c p
      → Viewed d base (choose call c) (run d real is_finite call p).0
  run-Viewed_any call c p (none_yet, shows) =
      subst (λ c. Viewed d base (choose call c) (run d real is_finite call p).0) shows
        (subst
          (λ client.
            Viewed d base (choose call (view p.preinit base))
              (run d real is_finite call (record { client = client; preinit = p.preinit })).0)
          (sym none_yet) (run-Viewed call p.preinit))

  pub run_all-Viewed :
      (calls : List (Call d)) (c : Chosen) (p : Process d)
      → Viewed d base c p
      → Viewed d base (choose_all calls c) (run_all d real is_finite calls p)
  unfolding run_all
  run_all-Viewed [] c p h = h
  run_all-Viewed (call ∷ calls) c p h =
      run_all-Viewed calls (choose call c) (run d real is_finite call p).0
        (run-Viewed_any call c p h)
