-- ===== src/Api/Remembered.antt =====
-- The breadcrumbs that a game leaves before `tombstone_init`.
use tombstack_native.Prelude.{
  ℕ, zero, suc, ◌-◌, ◌≤◌, ◌≡◌, refl, sym, ap, ◌∙◌, subst, Bool, true, false, not, ◌&&◌, ◌||◌, none,
  some, List, [], ◌∷◌, map, arith, ltb, if◌then◌else◌, value_or, length, is_empty, drop, length-map,
  Bytes, codes, if-holds,
}
use tombstack_native.Prelude.Windows.{newest_all, length-newest, newest}
use tombstack_native.Payloads.{Doubles}
use tombstack_native.BreadcrumbRing
use tombstack_native.BreadcrumbRing.{Breadcrumb, new_ring, default_capacity, snapshot}
use tombstack_native.BreadcrumbRing.Trail.{recorded, add_all, snapshot-add_all}
use tombstack_native.PreInit.{PreInitStore, Crumb, new_store, max_breadcrumbs}
use tombstack_native.PreInit.Capture as Stored
use tombstack_native.PreInit.Capture.{calls, crumbs, calls_capture}
use tombstack_native.Sampler.{Rates}
use tombstack_native.Client.State.{Client, Moment, capture_allowed}
use tombstack_native.Client.Capture
use tombstack_native.Client.Capture.{debug, info, warn, error, is_unset, Level, level_label}
use tombstack_native.Client.Control.{start_session}
use tombstack_native.Client.Launch
use tombstack_native.Client.Launch.{Options, Host, DataDir, refused}
use tombstack_native.Api.{level_number, Live, Process, Now, level_of, live_start_session}
use tombstack_native.Api.Init.{replay_breadcrumbs, replay_settings, replay_preinit, tombstone_init}
use tombstack_native.Api.Tracks.{replay_tracks-keeps}
use tombstack_native.Api.Chosen.{Chosen, view, choose_all, run_all-Viewed}
use tombstack_native.Api.First.{initial, launched-seen}
use tombstack_native.Api.Settled.{look, replay_settings-look}
use tombstack_native.Api.Unheard.{IsFresh, replay_settings-IsFresh, launched-IsFresh}
use tombstack_native.Api.Stored.{crumbs-unless, stored_all, run_all-stored}
use tombstack_native.Api.Calls.{
  Call, user, consent, session, environment, user_metadata, breadcrumb, event, metric, unbuffered,
  run_all, new_process,
}
use tombstack_native.Json.Utf8.{utf8_safe_truncate}
use tombstack_native.Client.Identity.{is_null}
use tombstack_native.Client.Telemetry.{attributes_of}
use tombstack_native.Payloads.Metadata.{clamp_user_metadata}

both : {a b : Bool} → a ≡ true → b ≡ true → (a && b) ≡ true
both {a} {b} p q = rw (p, q) refl

-- The crumbs, as calls of the ring at these moments.
abbrev pub stamped : {d : Doubles} → (ℕ → Now d) → List Crumb → List (Bytes × Bytes × Bytes)
stamped at [] = []
stamped at (crumb ∷ crumbs) =
    (level_label (level_of crumb.level), crumb.message, (at 0).moment.iso 0)
    ∷ stamped (λ i. at (suc i)) crumbs

module _ (d : Doubles) where
  add_breadcrumb-adds :
      (moment : Moment) (level : Level) (message : Bytes) (c : Client d)
      → capture_allowed d c ≡ true
      → (Capture.add_breadcrumb d moment level (some message) c).0 ≡ record c {
        breadcrumbs = BreadcrumbRing.add (level_label level) message (moment.iso 0) c.breadcrumbs;
      }
  unfolding Capture.add_breadcrumb BreadcrumbRing.add
  add_breadcrumb-adds moment level [] c allowed = refl
  add_breadcrumb-adds moment level (b ∷ bs) c allowed = rw allowed refl

  -- the trail of a client with consent
  replay_breadcrumbs-trail :
      (at : ℕ → Now d) (crumbs : List Crumb) (live : Live d)
      → capture_allowed d live.session.client ≡ true
      → (replay_breadcrumbs d at crumbs live).session.client.breadcrumbs
        ≡ add_all (stamped at crumbs) live.session.client.breadcrumbs
  unfolding replay_breadcrumbs add_all
  replay_breadcrumbs-trail at [] live allowed = refl
  replay_breadcrumbs-trail at (crumb ∷ crumbs) live allowed =
      let with_client =
        λ (c : Client d). record live { session = record live.session { client = c } } in
      ap
        (λ c.
          (replay_breadcrumbs d (λ i. at (suc i)) crumbs
            (with_client c)).session.client.breadcrumbs)
        (add_breadcrumb-adds (at 0).moment (level_of crumb.level) crumb.message live.session.client
          allowed)
      ∙ replay_breadcrumbs-trail (λ i. at (suc i)) crumbs (with_client _) allowed

module _ (d : Doubles) (real : Rates d.double) (is_finite : d.double → Bool) (now : Now d)
    (at_crumb at_track : ℕ → Now d) (host : Host) (dir : DataDir) where
  -- There is a client, with this trail.
  abbrev pub Trails : List Breadcrumb → Process d → Type 0
  Trails trail p = elim p.client [
    | none ↦ ⊥
    | some live ↦ snapshot live.session.client.breadcrumbs ≡ trail
  ]

  replay_preinit-trail :
      (store : PreInitStore d.double) (live : Live d)
      → (view store (look d live)).granted ≡ true
      → IsFresh live.session.client
      → (replay_preinit d real is_finite now at_crumb at_track store
          live).session.client.breadcrumbs
        ≡ add_all (stamped at_crumb store.breadcrumbs) (new_ring default_capacity)
  unfolding replay_preinit live_start_session start_session
  replay_preinit-trail store live granted fresh =
      let settled = replay_settings d now store live in
      let kept : IsFresh settled.session.client = replay_settings-IsFresh d now store live fresh in
      let allowed : capture_allowed d settled.session.client ≡ true =
        both kept.0
          (ap (λ (c : Chosen). c.granted) (replay_settings-look d now store live) ∙ granted) in
      let crumbed = replay_breadcrumbs d at_crumb store.breadcrumbs settled in
      let trail = add_all (stamped at_crumb store.breadcrumbs) (new_ring default_capacity) in
      let P = λ (c : Client d). c.breadcrumbs ≡ trail in
      let shown =
        replay_tracks-keeps d real is_finite P (λ e m w c h. h) at_track store.tracks crumbed
          (replay_breadcrumbs-trail d at_crumb store.breadcrumbs settled allowed
            ∙ ap (add_all (stamped at_crumb store.breadcrumbs)) kept.1.0) in
      if-holds {A = Live d} (λ l. P l.session.client) store.start_session_requested shown shown

  init-Trails :
      (options : Options) (store : PreInitStore d.double)
      → refused options ≡ false
      → (view store (initial options)).granted ≡ true
      → Trails
          (newest default_capacity (recorded (stamped at_crumb store.breadcrumbs)))
          (tombstone_init d real is_finite now at_crumb at_track host dir
            (some options)
            (record { client = none; preinit = store })).0
  unfolding tombstone_init Launch.init
  init-Trails options store h granted = rw h (
      ap snapshot (
        replay_preinit-trail store _
          (ap (λ c. (view store c).granted)
              (launched-seen d real is_finite now at_crumb at_track host dir options)
            ∙ granted)
          (launched-IsFresh d real is_finite now at_crumb at_track host dir options))
      ∙ snapshot-add_all default_capacity (stamped at_crumb store.breadcrumbs))

-- The breadcrumbs that the calls leave: a message that is missing or empty is refused.
abbrev pub left : {d : Doubles} → List (Call d) → List (Level × Bytes)
left [] = []
left (breadcrumb now level none ∷ calls) = left calls
left (breadcrumb now level (some []) ∷ calls) = left calls
left (breadcrumb now level (some (c ∷ cs)) ∷ calls) = (level, c ∷ cs) ∷ left calls
left (_ ∷ calls) = left calls

-- the name of a level in a report
abbrev pub word : Level → Bytes
word debug = codes "Debug"
word info = codes "Info"
word warn = codes "Warning"
word error = codes "Error"

-- The trail of these breadcrumbs, the n-th with the time of the n-th moment.
abbrev pub told : {d : Doubles} → (ℕ → Now d) → List (Level × Bytes) → List Breadcrumb
told at [] = []
told at ((level, message) ∷ crumbs) =
    let rest = told (λ i. at (suc i)) crumbs in
    if is_empty message
    then rest
    else record {
      level = word level;
      message = utf8_safe_truncate message 512;
      ts_iso = (at 0).moment.iso 0;
    }
      ∷ rest

abbrev crumb_of : Level × Bytes → Crumb
crumb_of (level, message) = record { level = level_number level; message = message }

crumbs-left :
    {d : Doubles} (is_finite : d.double → Bool) (calls : List (Call d))
    → crumbs (stored_all is_finite calls) ≡ map crumb_of (left calls)
crumbs-left is_finite [] = refl
crumbs-left is_finite (user id steam_id ∷ calls) = crumbs-left is_finite calls
crumbs-left is_finite (consent now granted ∷ calls) = crumbs-left is_finite calls
crumbs-left is_finite (session ∷ calls) = crumbs-left is_finite calls
crumbs-left is_finite (environment e ∷ calls) =
    crumbs-unless (is_unset e) (Stored.environment (value_or e [])) (stored_all is_finite calls)
      refl (crumbs-left is_finite calls)
crumbs-left is_finite (user_metadata keys values count ∷ calls) =
    crumbs-unless (ltb 0 count && (is_null keys || is_null values))
      (Stored.user_metadata (clamp_user_metadata keys values)) (stored_all is_finite calls) refl
      (crumbs-left is_finite calls)
crumbs-left is_finite (breadcrumb now level none ∷ calls) = crumbs-left is_finite calls
crumbs-left is_finite (breadcrumb now level (some []) ∷ calls) = crumbs-left is_finite calls
crumbs-left is_finite (breadcrumb now level (some (c ∷ cs)) ∷ calls) =
    ap (λ rest. crumb_of (level, c ∷ cs) ∷ rest) (crumbs-left is_finite calls)
crumbs-left is_finite (event now name keys values count ∷ calls) =
    crumbs-unless (is_unset name || (ltb 0 count && (is_null keys || is_null values)))
      (Stored.event (value_or name []) (attributes_of (value_or keys []) (value_or values [])))
      (stored_all is_finite calls) refl (crumbs-left is_finite calls)
crumbs-left is_finite (metric now name value unit ∷ calls) =
    crumbs-unless (is_unset name || not (is_finite value))
      (Stored.metric (value_or name []) value (value_or unit [])) (stored_all is_finite calls) refl
      (crumbs-left is_finite calls)
crumbs-left is_finite (unbuffered action ∷ calls) = crumbs-left is_finite calls

drop-map {ℓ κ} :
    {A : Type ℓ} {B : Type κ} (f : A → B) (n : ℕ) (xs : List A)
    → drop n (map f xs) ≡ map f (drop n xs)
drop-map f zero xs = refl
drop-map f (suc n) [] = refl
drop-map f (suc n) (x ∷ xs) = drop-map f n xs

newest-map {ℓ κ} :
    {A : Type ℓ} {B : Type κ} (f : A → B) (n : ℕ) (xs : List A)
    → newest n (map f xs) ≡ map f (newest n xs)
newest-map f n xs = rw (length-map xs f) (drop-map f (length xs - n) xs)

word-clamped :
    (level : Level) (message ts : Bytes)
    → BreadcrumbRing.clamped (level_label (level_of (level_number level))) message ts
      ≡ record { level = word level; message = utf8_safe_truncate message 512; ts_iso = ts }
unfolding level_of level_number utf8_safe_truncate
word-clamped debug message ts = refl
word-clamped info message ts = refl
word-clamped warn message ts = refl
word-clamped error message ts = refl

recorded-told :
    {d : Doubles} (at : ℕ → Now d) (crumbs : List (Level × Bytes))
    → recorded (stamped at (map crumb_of crumbs)) ≡ told at crumbs
recorded-told at [] = refl
recorded-told at ((level, message) ∷ crumbs) =
    rw (word-clamped level message ((at 0).moment.iso 0), recorded-told (λ i. at (suc i)) crumbs)
      refl

length-told :
    {d : Doubles} (at : ℕ → Now d) (crumbs : List (Level × Bytes))
    → length (told at crumbs) ≤ length crumbs
length-told at [] = omega arith
length-told at ((level, message) ∷ crumbs) = ground (arith, length-told (λ i. at (suc i)) crumbs)

trail-told :
    {d : Doubles} (is_finite : d.double → Bool) (at : ℕ → Now d) (calls : List (Call d))
    → newest default_capacity
        (recorded (stamped at (newest max_breadcrumbs (crumbs (stored_all is_finite calls)))))
      ≡ told at (newest 64 (left calls))
trail-told is_finite at calls =
    rw
      (
        crumbs-left is_finite calls,
        newest-map crumb_of 64 (left calls),
        recorded-told at (newest 64 (left calls)),
      )
      (newest_all 64 (told at (newest 64 (left calls)))
        (omega (arith, length-told at (newest 64 (left calls)), length-newest 64 (left calls))))

-- Where a game's last word before `tombstone_init`, or else the options, grant consent, the trail of
-- the new client is the newest 64 of the breadcrumbs that were left before, in their order, each with
-- the name of the level that it was left at and the time of its replay, cut to 512 bytes.
pub init-remembers :
    (d : Doubles) (real : Rates d.double) (is_finite : d.double → Bool) (now : Now d)
    (at_crumb at_track : ℕ → Now d) (host : Host) (dir : DataDir) (options : Options)
    (calls : List (Call d))
    → refused options ≡ false
    → (choose_all calls (initial options)).granted ≡ true
    → Trails d real is_finite now at_crumb at_track host dir
        (told at_crumb (newest 64 (left calls)))
        (tombstone_init d real is_finite now at_crumb at_track host dir
          (some options)
          (run_all d real is_finite calls (new_process d))).0
init-remembers d real is_finite now at_crumb at_track host dir options calls h granted =
    let store = Stored.calls (stored_all is_finite calls) new_store in
    let (_, shows) =
      run_all-Viewed real is_finite (initial options) calls (initial options) (new_process d)
        (refl, refl) in
    let trail = newest default_capacity (
      recorded (stamped at_crumb (newest max_breadcrumbs (crumbs (stored_all is_finite calls))))) in
    let waits = run_all-stored d real is_finite calls new_store in
    let start = λ (p : Process d).
      (tombstone_init d real is_finite now at_crumb at_track host dir (some options) p).0 in
    let T = Trails d real is_finite now at_crumb at_track host dir in
    subst (λ shown. T shown (start (run_all d real is_finite calls (new_process d))))
      (trail-told is_finite at_crumb calls)
      (subst (λ p. T trail (start p)) (sym waits)
        (subst
          (λ crumbs.
            T (newest default_capacity (recorded (stamped at_crumb crumbs)))
              (start (record { client = none; preinit = store })))
          (calls_capture (stored_all is_finite calls)).0
          (init-Trails d real is_finite now at_crumb at_track host dir options store h (
            ap (λ (p : Process d). (view p.preinit (initial options)).granted) (sym waits)
            ∙ ap (λ (c : Chosen). c.granted) shows
            ∙ granted))))
