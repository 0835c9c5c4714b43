-- ===== src/PreInit/Capture.antt =====
-- What the store holds after a history of calls.
use tombstack_native.Prelude.{
  ◌≡◌, refl, ap, ◌∙◌, inl, inr, Bool, true, false, none, some, List, [], ◌∷◌, ◌++◌, append-nil,
  append_assoc, arith, leb, leb→le, leb_refuted, Bool-cases, length, take, Bytes,
}
use tombstack_native.Prelude.Int.{ℤ}
use tombstack_native.Prelude.Windows.{newest, newest_push, take_full, take_room}
use tombstack_native.PreInit.{
  Crumb, Track, PreInitStore, max_breadcrumbs, max_tracks, new_store, clear, add_breadcrumb,
  add_track, add_event, add_metric, set_user, set_environment, set_user_metadata, set_consent,
  request_start_session,
}

-- a call of the store's interface
pub data Call {ℓ} (F : Type ℓ) : Type ℓ where
  breadcrumb : ℤ → Bytes → Call F
  event : Bytes → List (Bytes × Bytes) → Call F
  metric : Bytes → F → Bytes → Call F
  user : Bytes → Bytes → Call F
  environment : Bytes → Call F
  user_metadata : List (Bytes × Bytes) → Call F
  consent : Bool → Call F
  start_session : Call F

module _ {ℓ} {F : Type ℓ} where
  unfoldable pub call : Call F → PreInitStore F → PreInitStore F
  unfolding add_breadcrumb add_event add_metric set_user set_environment set_user_metadata
      set_consent request_start_session
  call (breadcrumb level message) s = add_breadcrumb level message s
  call (event name attributes) s = (add_event name attributes s).0
  call (metric name value unit) s = (add_metric name value unit s).0
  call (user user_id steam_id) s = set_user user_id steam_id s
  call (environment e) s = set_environment e s
  call (user_metadata entries) s = set_user_metadata entries s
  call (consent granted) s = set_consent granted s
  call start_session s = request_start_session s

  unfoldable pub calls : List (Call F) → PreInitStore F → PreInitStore F
  calls [] s = s
  calls (c ∷ cs) s = calls cs (call c s)

  -- the breadcrumbs and the tracks of a history, in order
  abbrev pub crumbs : List (Call F) → List Crumb
  crumbs [] = []
  crumbs (breadcrumb level message ∷ cs) = record { level = level; message = message } ∷ crumbs cs
  crumbs (_ ∷ cs) = crumbs cs

  abbrev pub captures : List (Call F) → List (Track F)
  captures [] = []
  captures (event name attributes ∷ cs) =
      record { is_metric = false; name = name; attributes = attributes; value = none; unit = [] }
      ∷ captures cs
  captures (metric name value unit ∷ cs) =
      record { is_metric = true; name = name; attributes = []; value = some value; unit = unit }
      ∷ captures cs
  captures (_ ∷ cs) = captures cs

  -- The last user, metadata and consent that a history sets.
  abbrev pub last_consent : List (Call F) → Bool → Bool
  last_consent [] c = c
  last_consent (consent granted ∷ cs) c = last_consent cs granted
  last_consent (_ ∷ cs) c = last_consent cs c

  abbrev pub last_environment : List (Call F) → Bytes → Bytes
  last_environment [] e = e
  last_environment (environment e' ∷ cs) e = last_environment cs e'
  last_environment (_ ∷ cs) e = last_environment cs e

  push_track :
      (t : Track F) (s : PreInitStore F) (past : List (Track F))
      → s.tracks ≡ take max_tracks past
      → (add_track t s).0.tracks ≡ take max_tracks (past ++ t ∷ [])
  unfolding add_track
  push_track t s past h = elim (Bool-cases (leb max_tracks (length s.tracks))) [
    | inl e ↦ rw e (h ∙ take_full max_tracks past t (omega (arith, leb→le _ _ e, ap length h)))
    | inr e ↦ rw e (
        ap (λ ts. ts ++ t ∷ []) h
        ∙ take_room max_tracks past t (omega (arith, leb_refuted _ _ e, ap length h)))
  ]

  -- A track changes nothing but the tracks.
  record Rest (s s' : PreInitStore F) : Type ℓ where
    breadcrumbs : s'.breadcrumbs ≡ s.breadcrumbs
    environment : s'.environment ≡ s.environment
    consent : s'.consent ≡ s.consent
    has_consent : s'.has_consent ≡ s.has_consent

  add_track-Rest : (t : Track F) (s : PreInitStore F) → Rest s (add_track t s).0
  unfolding add_track
  add_track-Rest t s = elim (Bool-cases (leb max_tracks (length s.tracks))) [
    | inl e ↦
        rw e (record { breadcrumbs = refl; environment = refl; consent = refl; has_consent = refl })
    | inr e ↦
        rw e (record { breadcrumbs = refl; environment = refl; consent = refl; has_consent = refl })
  ]

  crumbs_lem :
      (cs : List (Call F)) (s : PreInitStore F) (past : List Crumb)
      → s.breadcrumbs ≡ newest max_breadcrumbs past
      → (calls cs s).breadcrumbs ≡ newest max_breadcrumbs (past ++ crumbs cs)
  unfolding calls call add_event add_metric add_breadcrumb
  crumbs_lem [] s past h = rw append-nil h
  crumbs_lem (breadcrumb level message ∷ cs) s past h =
      crumbs_lem cs (call (breadcrumb level message) s)
        (past ++ record { level = level; message = message } ∷ [])
        (newest_push max_breadcrumbs s.breadcrumbs past _ (omega arith) h)
      ∙ ap (newest max_breadcrumbs) (append_assoc past _ (crumbs cs))
  crumbs_lem (event name attributes ∷ cs) s past h =
      crumbs_lem cs (call (event name attributes) s) past ((add_track-Rest _ s).breadcrumbs ∙ h)
  crumbs_lem (metric name value unit ∷ cs) s past h =
      crumbs_lem cs (call (metric name value unit) s) past ((add_track-Rest _ s).breadcrumbs ∙ h)
  crumbs_lem (user u t ∷ cs) s past h = crumbs_lem cs (call (user u t) s) past h
  crumbs_lem (environment e ∷ cs) s past h = crumbs_lem cs (call (environment e) s) past h
  crumbs_lem (user_metadata e ∷ cs) s past h = crumbs_lem cs (call (user_metadata e) s) past h
  crumbs_lem (consent c ∷ cs) s past h = crumbs_lem cs (call (consent c) s) past h
  crumbs_lem (start_session ∷ cs) s past h = crumbs_lem cs (call start_session s) past h

  tracks_lem :
      (cs : List (Call F)) (s : PreInitStore F) (past : List (Track F))
      → s.tracks ≡ take max_tracks past
      → (calls cs s).tracks ≡ take max_tracks (past ++ captures cs)
  unfolding calls call add_event add_metric
  tracks_lem [] s past h = rw append-nil h
  tracks_lem (event name attributes ∷ cs) s past h =
      tracks_lem cs (call (event name attributes) s) (past ++ _ ∷ []) (push_track _ s past h)
      ∙ ap (take max_tracks) (append_assoc past _ (captures cs))
  tracks_lem (metric name value unit ∷ cs) s past h =
      tracks_lem cs (call (metric name value unit) s) (past ++ _ ∷ []) (push_track _ s past h)
      ∙ ap (take max_tracks) (append_assoc past _ (captures cs))
  tracks_lem (breadcrumb level message ∷ cs) s past h =
      tracks_lem cs (call (breadcrumb level message) s) past h
  tracks_lem (user u t ∷ cs) s past h = tracks_lem cs (call (user u t) s) past h
  tracks_lem (environment e ∷ cs) s past h = tracks_lem cs (call (environment e) s) past h
  tracks_lem (user_metadata e ∷ cs) s past h = tracks_lem cs (call (user_metadata e) s) past h
  tracks_lem (consent c ∷ cs) s past h = tracks_lem cs (call (consent c) s) past h
  tracks_lem (start_session ∷ cs) s past h = tracks_lem cs (call start_session s) past h

  settings_lem :
      (cs : List (Call F)) (s : PreInitStore F)
      → ((calls cs s).environment ≡ last_environment cs s.environment)
        × ((calls cs s).consent ≡ last_consent cs s.consent)
  unfolding calls call add_event add_metric
  settings_lem [] s = (refl, refl)
  settings_lem (event name attributes ∷ cs) s =
      let (e, c) = settings_lem cs (call (event name attributes) s) in
      let same = add_track-Rest _ s in
      (e ∙ ap (last_environment cs) same.environment, c ∙ ap (last_consent cs) same.consent)
  settings_lem (metric name value unit ∷ cs) s =
      let (e, c) = settings_lem cs (call (metric name value unit) s) in
      let same = add_track-Rest _ s in
      (e ∙ ap (last_environment cs) same.environment, c ∙ ap (last_consent cs) same.consent)
  settings_lem (breadcrumb level message ∷ cs) s =
      settings_lem cs (call (breadcrumb level message) s)
  settings_lem (user u t ∷ cs) s = settings_lem cs (call (user u t) s)
  settings_lem (environment e ∷ cs) s = settings_lem cs (call (environment e) s)
  settings_lem (user_metadata e ∷ cs) s = settings_lem cs (call (user_metadata e) s)
  settings_lem (consent c ∷ cs) s = settings_lem cs (call (consent c) s)
  settings_lem (start_session ∷ cs) s = settings_lem cs (call start_session s)

-- After any history of calls the store holds the newest 64 breadcrumbs, the first 128 events and
-- metrics in their common order, and the last environment and consent that were set.
pub calls_capture {ℓ} :
    {F : Type ℓ} (cs : List (Call F))
    → ((calls cs new_store).breadcrumbs ≡ newest max_breadcrumbs (crumbs cs))
      × ((calls cs new_store).tracks ≡ take max_tracks (captures cs))
      × ((calls cs new_store).environment ≡ last_environment cs [])
      × ((calls cs new_store).consent ≡ last_consent cs true)
calls_capture cs = (
  crumbs_lem cs new_store [] refl,
  tracks_lem cs new_store [] refl,
  (settings_lem cs new_store).0,
  (settings_lem cs new_store).1,
)

-- `clear` brings back the new store, whatever was captured.
pub clear-calls {ℓ} :
    {F : Type ℓ} (cs : List (Call F)) (s : PreInitStore F) → clear (calls cs s) ≡ new_store
unfolding clear
clear-calls cs s = refl
