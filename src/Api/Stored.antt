-- ===== src/Api/Stored.antt =====
-- What the store holds of the calls that come before `tombstone_init`.
use tombstack_native.Prelude.{
  ◌≡◌, refl, sym, ap, ◌∙◌, Bool, true, false, not, ◌&&◌, ◌||◌, none, List, [], ◌∷◌, ◌++◌, ltb,
  if◌then◌else◌, value_or,
}
use tombstack_native.Payloads.{Doubles}
use tombstack_native.Payloads.Metadata.{clamp_user_metadata}
use tombstack_native.PreInit.{PreInitStore, Crumb}
use tombstack_native.PreInit.Capture as Stored
use tombstack_native.PreInit.Capture.{call, calls, crumbs}
use tombstack_native.Sampler.{Rates}
use tombstack_native.Client.Identity.{is_null}
use tombstack_native.Client.Capture.{is_unset}
use tombstack_native.Client.Telemetry.{attributes_of}
use tombstack_native.Api.{Process, level_number, with_client, with_client_or_buffer}
use tombstack_native.Api.Entries
use tombstack_native.Api.Calls.{
  Call, user, consent, session, environment, user_metadata, breadcrumb, event, metric, unbuffered,
  run, run_all,
}

-- one call of the store, where the entry point does not refuse
abbrev pub unless {ℓ} : {F : Type ℓ} → Bool → Stored.Call F → List (Stored.Call F)
unless refused c = if refused then [] else c ∷ []

module _ {d : Doubles} (is_finite : d.double → Bool) where
  -- what a call before there is a client does to the store
  abbrev pub stored : Call d → List (Stored.Call d.double)
  stored (user id steam_id) = Stored.user (value_or id []) (value_or steam_id []) ∷ []
  stored (consent now granted) = Stored.consent granted ∷ []
  stored session = Stored.start_session ∷ []
  stored (environment e) = unless (is_unset e) (Stored.environment (value_or e []))
  stored (user_metadata keys values count) =
      unless (ltb 0 count && (is_null keys || is_null values))
        (Stored.user_metadata (clamp_user_metadata keys values))
  stored (breadcrumb now level message) =
      unless (is_unset message) (Stored.breadcrumb (level_number level) (value_or message []))
  stored (event now name keys values count) =
      unless (is_unset name || (ltb 0 count && (is_null keys || is_null values)))
        (Stored.event (value_or name []) (attributes_of (value_or keys []) (value_or values [])))
  stored (metric now name value unit) =
      unless (is_unset name || not (is_finite value))
        (Stored.metric (value_or name []) value (value_or unit []))
  stored (unbuffered action) = []

  abbrev pub stored_all : List (Call d) → List (Stored.Call d.double)
  stored_all [] = []
  stored_all (c ∷ cs) = stored c ++ stored_all cs

-- A call that leaves no breadcrumb leaves none in front either.
pub crumbs-unless :
    {F : Type 0} (refused : Bool) (c : Stored.Call F) (cs : List (Stored.Call F)) {out : List Crumb}
    → crumbs (c ∷ cs) ≡ crumbs cs
    → crumbs cs ≡ out
    → crumbs (unless refused c ++ cs) ≡ out
crumbs-unless true c cs e h = h
crumbs-unless false c cs e h = e ∙ h

checked-stored :
    {F : Type 0} (refused : Bool) (c : Stored.Call F) (s : PreInitStore F)
    → (Entries.checked refused (call c) s).0 ≡ calls (unless refused c) s
unfolding calls
checked-stored true c s = refl
checked-stored false c s = refl

calls_append :
    {F : Type 0} (xs ys : List (Stored.Call F)) (s : PreInitStore F)
    → calls (xs ++ ys) s ≡ calls ys (calls xs s)
unfolding calls
calls_append [] ys s = refl
calls_append (x ∷ xs) ys s = calls_append xs ys (call x s)

module _ (d : Doubles) (real : Rates d.double) (is_finite : d.double → Bool) where
  abbrev pub waiting : PreInitStore d.double → Process d
  waiting s = record { client = none; preinit = s }

  run-stored :
      (c : Call d) (s : PreInitStore d.double)
      → (run d real is_finite c (waiting s)).0 ≡ waiting (calls (stored is_finite c) s)
  unfolding run with_client with_client_or_buffer Entries.tombstone_set_user Entries.buffer_user
      Entries.tombstone_set_consent Entries.tombstone_start_session
      Entries.tombstone_set_environment Entries.tombstone_set_user_metadata
      Entries.tombstone_add_breadcrumb Entries.tombstone_track_event Entries.tombstone_track_metric
      calls call
  run-stored (user id steam_id) s = refl
  run-stored (consent now granted) s = refl
  run-stored session s = refl
  run-stored (environment e) s =
      ap waiting (checked-stored (is_unset e) (Stored.environment (value_or e [])) s)
  run-stored (user_metadata keys values count) s = ap waiting (
      checked-stored (ltb 0 count && (is_null keys || is_null values))
        (Stored.user_metadata (clamp_user_metadata keys values)) s)
  run-stored (breadcrumb now level message) s = ap waiting (
      checked-stored (is_unset message)
        (Stored.breadcrumb (level_number level) (value_or message [])) s)
  run-stored (event now name keys values count) s = ap waiting (
      checked-stored (is_unset name || (ltb 0 count && (is_null keys || is_null values)))
        (Stored.event (value_or name []) (attributes_of (value_or keys []) (value_or values []))) s)
  run-stored (metric now name value unit) s = ap waiting (
      checked-stored (is_unset name || not (is_finite value))
        (Stored.metric (value_or name []) value (value_or unit [])) s)
  run-stored (unbuffered action) s = refl

  pub run_all-stored :
      (cs : List (Call d)) (s : PreInitStore d.double)
      → run_all d real is_finite cs (waiting s) ≡ waiting (calls (stored_all is_finite cs) s)
  unfolding run_all calls
  run_all-stored [] s = refl
  run_all-stored (c ∷ cs) s =
      ap (run_all d real is_finite cs) (run-stored c s)
      ∙ run_all-stored cs (calls (stored is_finite c) s)
      ∙ ap waiting (sym (calls_append (stored is_finite c) (stored_all is_finite cs) s))
