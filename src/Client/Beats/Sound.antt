-- ===== src/Client/Beats/Sound.antt =====
-- The identity wherever the calls, the beats and their acknowledgements lead.
use tombstack_native.Prelude.{
  ◌≡◌, refl, sym, ◌∙◌, ◌≢◌, ◌⊎◌, inl, inr, Bool, true, false, not, Option, [], ◌∷◌, arith,
  if◌then◌else◌, Bool-cases, is_empty, Bytes,
}
use tombstack_native.Payloads.{Doubles}
use tombstack_native.Payloads.Limits
use tombstack_native.Client.Identity.{
  Identity, clamped, current_user_id, stamps, next_prior, acked_prior, set_identity, set_user,
  beat_identity, ack_identity,
}
use tombstack_native.Client.Carry.{
  snap_identity, snap_metadata, raise_flag, commit_ack, carry_set_user, carry_set_metadata,
  store_device,
}
use tombstack_native.Client.Beats.{
  Mode, Exchange, Step, user_step, metadata_step, device_step, identity_snap, device_snap,
  metadata_snap, enqueue_step, ack_step, lose_step, Reach, Reach-keeps,
}

abbrev IsPrior : Bytes → Bytes → Type 0
IsPrior provisional prior = (prior ≡ []) ⊎ (prior ≡ provisional)

-- The identity of the device is there, a marker names it, and nobody is logged out with a marker.
pub record IsSound (provisional : Bytes) (s : Identity) : Type 0 where
  pub has_provisional : s.provisional_user_id ≡ provisional
  pub marker_names : IsPrior provisional s.pending_prior_user_id
  pub in_flight_names : IsPrior provisional s.prior_in_flight
  pub logged_out : (is_empty s.user_id ≡ false) ⊎ (s.pending_prior_user_id ≡ [])

if-IsPrior :
    (p : Bytes) (b : Bool) {x y : Bytes}
    → IsPrior p x
    → IsPrior p y
    → IsPrior p (if b then x else y)
if-IsPrior p true h k = h
if-IsPrior p false h k = k

pub set_identity-IsSound :
    (provisional : Bytes) (user_id steam_id : Option Bytes) (s : Identity)
    → IsSound provisional s
    → IsSound provisional (set_identity user_id steam_id s)
unfolding set_identity next_prior
set_identity-IsSound provisional user_id steam_id s h =
    let id = clamped user_id Limits.user_id in
    record {
      has_provisional = h.has_provisional;
      marker_names =
          if-IsPrior provisional (is_empty id) (inl refl)
            (if-IsPrior provisional (stamps id s) (inr h.has_provisional) h.marker_names);
      in_flight_names = h.in_flight_names;
      logged_out = elim (Bool-cases (is_empty id)) [ inl e ↦ inr (rw e refl) | inr e ↦ inl e ];
    }

pub beat_identity-IsSound :
    (provisional : Bytes) (s : Identity)
    → IsSound provisional s
    → IsSound provisional (beat_identity s).0
unfolding beat_identity
beat_identity-IsSound provisional s h = record {
  has_provisional = h.has_provisional;
  marker_names = h.marker_names;
  in_flight_names =
      if-IsPrior provisional (not (is_empty s.pending_prior_user_id)) h.marker_names
        h.in_flight_names;
  logged_out = h.logged_out;
}

if-nil : (b : Bool) {x : Bytes} → x ≡ [] → (if b then [] else x) ≡ []
if-nil true h = refl
if-nil false h = h

pub ack_identity-IsSound :
    (provisional : Bytes) (s : Identity)
    → IsSound provisional s
    → IsSound provisional (ack_identity s)
unfolding ack_identity acked_prior
ack_identity-IsSound provisional s h = record {
  has_provisional = h.has_provisional;
  marker_names = if-IsPrior provisional _ (inl refl) h.marker_names;
  in_flight_names = inl refl;
  logged_out = elim h.logged_out [ inl e ↦ inl e | inr e ↦ inr (if-nil _ e) ];
}

Step-IsSound :
    (d : Doubles) (m : Mode) (provisional : Bytes) (s t : Exchange d)
    → Step d m s t
    → IsSound provisional s.carry.identity
    → IsSound provisional t.carry.identity
unfolding carry_set_user set_user carry_set_metadata store_device snap_identity snap_metadata
    raise_flag commit_ack
Step-IsSound d m p s t (user_step u v c r o bs) h = set_identity-IsSound p u v c.identity h
Step-IsSound d m p s t (metadata_step count keys values c r o bs) h = h
Step-IsSound d m p s t (device_step device c r o bs e) h = h
Step-IsSound d m p s t (identity_snap c o bs e) h = beat_identity-IsSound p c.identity h
Step-IsSound d m p s t (device_snap c b o bs) h = h
Step-IsSound d m p s t (metadata_snap c b o bs) h = h
Step-IsSound d m p s t (enqueue_step c b o bs) h = h
Step-IsSound d m p s t (ack_step c r front b rest bs) h = ack_identity-IsSound p c.identity h
Step-IsSound d m p s t (lose_step c r front b rest bs e) h = h

-- Wherever the calls of the game, the beats, and the acknowledgements and losses of beats lead, the
-- identity of the device is kept, a marker names nothing else, and while no user is set no marker
-- is pending: what is sent logged out is merged into nobody.
pub Reach-IsSound :
    (d : Doubles) (m : Mode) (provisional : Bytes) (s t : Exchange d)
    → IsSound provisional s.carry.identity
    → Reach d m s t
    → IsSound provisional t.carry.identity
Reach-IsSound d m p = Reach-keeps (λ e. IsSound p e.carry.identity) (Step-IsSound d m p)

nonempty : (s : Bytes) → is_empty s ≡ false → s ≢ []
nonempty [] h e = ground arith
nonempty (c ∷ s) h e = ground arith

effective : (s : Identity) → s.provisional_user_id ≢ [] → current_user_id s ≢ []
effective s h = elim (Bool-cases (is_empty s.user_id)) [
  | inl e ↦ rw e h
  | inr e ↦ rw e (nonempty s.user_id e)
]

-- So no beat is anonymous, once there is an identity of the device.
pub current_user_id-Reach :
    (d : Doubles) (m : Mode) (provisional : Bytes) (s t : Exchange d)
    → provisional ≢ []
    → IsSound provisional s.carry.identity
    → Reach d m s t
    → current_user_id t.carry.identity ≢ []
current_user_id-Reach d m p s t ne h way =
    effective t.carry.identity (λ e. ne (sym (Reach-IsSound d m p s t h way).has_provisional ∙ e))
