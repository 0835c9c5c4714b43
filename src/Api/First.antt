-- ===== src/Api/First.antt =====
-- The settings of the client that the first `tombstone_init` makes.
use tombstack_native.Prelude.{
  ℕ, ◌≡◌, refl, sym, ap, ◌∙◌, subst, Bool, true, false, ◌||◌, Option, none, some, List, [], ◌∷◌,
  if◌then◌else◌, Bytes, if-holds,
}
use tombstack_native.Payloads.{Doubles}
use tombstack_native.Payloads.Limits
use tombstack_native.PreInit
use tombstack_native.PreInit.{PreInitStore, new_store}
use tombstack_native.Sampler.{Rates}
use tombstack_native.Client.Identity.{Result, ok, clamped}
use tombstack_native.Client.Capture.{is_unset}
use tombstack_native.Client.Session.{Session, start_session_tracking}
use tombstack_native.Client.Launch
use tombstack_native.StartGate.{arm}
use tombstack_native.Client.Control.{drain_sidecars}
use tombstack_native.Client.Launch.{prepare, Options, Host, DataDir, refused}
use tombstack_native.Api.{Live, Process, Now}
use tombstack_native.Api.Chosen.{labelled, choose_all, run_all-Viewed, Chosen, seen, view}
use tombstack_native.Api.Calls.{Call, new_process, run_all}
use tombstack_native.Api.Init.{tombstone_init}
use tombstack_native.Api.Settled.{look, replay_preinit-look, start_session_tracking-look}

or_false : (b : Bool) → (b || false) ≡ b
or_false true = refl
or_false false = refl

option_label :
    (e : Option Bytes) → (if is_unset e then [] else clamped e Limits.environment) ≡ labelled e []
option_label none = refl
option_label (some []) = refl
option_label (some (c ∷ cs)) = refl

-- what `init` makes of the options
abbrev pub initial : Options → Chosen
initial options = record {
  granted = options.consent_granted;
  label = labelled options.environment [];
  user_id = [];
  steam_id = [];
  opened = options.auto_start_session;
}

module _ (d : Doubles) (real : Rates d.double) (is_finite : d.double → Bool) (now : Now d)
    (at_crumb at_track : ℕ → Now d) (host : Host) (dir : DataDir) where
  abbrev pub seen_of : Option (Live d) → Option Chosen
  seen_of none = none
  seen_of (some live) = some (look d live)

  -- The process behind the first `tombstone_init` that is not refused.
  abbrev pub Starts : Chosen → Process d × Result → Type 0
  Starts c (p, result) = (result ≡ ok) × (p.preinit ≡ new_store) × (seen_of p.client ≡ some c)

  pub launched-seen :
      (options : Options)
      → seen
          (if options.consent_granted
            then start_session_tracking d dir.marker_disk now.moment
                (prepare d options host dir (now.moment.now 0))
            else prepare d options host dir (now.moment.now 0)).client
        ≡ initial options
  unfolding prepare drain_sidecars arm
  launched-seen options =
      let ready = prepare d options host dir (now.moment.now 0) in
      if-holds {A = Session d} (λ s. seen s.client ≡ seen ready.client) options.consent_granted
        (start_session_tracking-look d dir.marker_disk now.moment ready) refl
      ∙ ap (λ l. record (seen ready.client) { label = l }) (option_label options.environment)
      ∙ ap (λ o. record (initial options) { opened = o }) (or_false options.auto_start_session)

  init-Starts :
      (options : Options) (store : PreInitStore d.double)
      → refused options ≡ false
      → Starts (view store (initial options)) (
          tombstone_init d real is_finite now at_crumb at_track host dir
            (some options)
            (record { client = none; preinit = store }))
  unfolding tombstone_init Launch.init PreInit.clear
  init-Starts options store h = rw h (
    refl,
    refl,
    ap some (
        replay_preinit-look d real is_finite now at_crumb at_track store _
        ∙ ap (view store) (launched-seen options)),
  )

-- Whatever a game calls before `tombstone_init`, a first `tombstone_init` that is not refused answers
-- ok and empties the store, and the client has the last consent, the last environment and the last
-- user, with its Steam id, that the calls chose, cut to 128, 32 and for the environment 64 bytes, or
-- else what the options say; its session has started where the options or a call ask for it.
pub init-chosen :
    (d : Doubles) (real : Rates d.double) (is_finite : d.double → Bool) (now : Now d)
    (at_crumb at_track : ℕ → Now d) (host : Host) (dir : DataDir) (options : Options)
    (calls : List (Call d))
    → refused options ≡ false
    → Starts d real is_finite now at_crumb at_track host dir (choose_all calls (initial options)) (
        tombstone_init d real is_finite now at_crumb at_track host dir
          (some options)
          (run_all d real is_finite calls (new_process d)))
init-chosen d real is_finite now at_crumb at_track host dir options calls h =
    let p = run_all d real is_finite calls (new_process d) in
    let (none_yet, shows) =
      run_all-Viewed real is_finite (initial options) calls (initial options) (new_process d)
        (refl, refl) in
    let start = λ (p : Process d).
      tombstone_init d real is_finite now at_crumb at_track host dir (some options) p in
    subst (λ c. Starts d real is_finite now at_crumb at_track host dir c (start p)) shows
      (subst
        (λ client.
          Starts d real is_finite now at_crumb at_track host dir (view p.preinit (initial options))
            (start (record { client = client; preinit = p.preinit })))
        (sym none_yet)
        (init-Starts d real is_finite now at_crumb at_track host dir options p.preinit h))
