-- ===== src/Client/Beats/Settled.antt =====
-- Beats that are acknowledged leave nothing to send again.
use tombstack_native.Client.Beats.{store_device}
use tombstack_native.Client.Beats.{carry_set_metadata}
use tombstack_native.Client.Beats.{carry_set_user}
use tombstack_native.Prelude.{
  ℕ, ◌≡◌, refl, sym, ◌∙◌, inl, inr, Bool, true, false, not, ◌&&◌, Option, none, some, List, [], ◌∷◌,
  ◌++◌, arith, if◌then◌else◌, Bool-cases, is_empty, Bytes, str_eq, str_eq_iff, str_eq_refl,
}
use tombstack_native.Json.Writer.{document}
use tombstack_native.Payloads.{Doubles}
use tombstack_native.Payloads.Device.{DevicePayload, device_has_content}
use tombstack_native.Payloads.Metadata.{UserMetadataEntries, build_user_metadata_json}
use tombstack_native.Client.Identity.{
  Identity, Metadata, reset_metadata, set_user, set_user_metadata, beat_identity, beat_metadata,
  acked_prior, acked_json, ack_identity, ack_metadata, is_epoch,
}
use tombstack_native.Client.Carry.{
  Carry, Beat, carried_device, build_beat, snap_identity, snap_device, snap_metadata, raise_flag,
  commit_ack, carry_set_user, carry_set_metadata, store_device,
}
use tombstack_native.Client.Beats.{
  Draft, idle, has_identity, has_device, has_metadata, Mode, Exchange, Step, user_step,
  metadata_step, device_step, identity_snap, device_snap, metadata_snap, enqueue_step, ack_step,
  lose_step, Reach, Reach-keeps,
}

is_empty-nil : (s : Bytes) → is_empty s ≡ true → s ≡ []
is_empty-nil [] h = refl
is_empty-nil (c ∷ s) h = absurd (ground arith)

if-nil : (b : Bool) {x : Bytes} → x ≡ [] → (if b then [] else x) ≡ []
if-nil true h = refl
if-nil false h = h

-- the marker is cleared
settled_prior : (s : Identity) → acked_prior (beat_identity s).0 ≡ []
unfolding acked_prior beat_identity
settled_prior s = elim (Bool-cases (is_empty s.pending_prior_user_id)) [
  | inl e ↦ if-nil _ (is_empty-nil s.pending_prior_user_id e)
  | inr e ↦ rw (e, e, str_eq_refl s.pending_prior_user_id) refl
]

no_flight :
    (b : Bool) (json last : Bytes)
    → json ≡ []
    → (if b && not (is_empty json) then json else last) ≡ last
no_flight true json last h = rw h refl
no_flight false json last h = refl

document-fills :
    (entries : UserMetadataEntries) → is_empty (build_user_metadata_json entries) ≡ false
unfolding build_user_metadata_json document
document-fills entries = filled _ _
  where
    filled : (s : Bytes) (c : ℕ) → is_empty (s ++ c ∷ []) ≡ false
    filled [] c = refl
    filled (b ∷ s) c = refl

is_epoch_refl : (e : ℕ) → is_epoch (some e) e ≡ true
is_epoch_refl e = ground arith

-- the metadata count as acknowledged
settled_json :
    (m : Metadata)
    → m.in_flight_json ≡ []
    → acked_json (beat_metadata m).0 ≡ build_user_metadata_json m.user_metadata
unfolding acked_json beat_metadata
settled_json m h =
    let current = build_user_metadata_json m.user_metadata in
    elim (Bool-cases (str_eq current m.last_acked_json)) [
      | inl e ↦ rw e (no_flight _ _ _ h ∙ sym ((str_eq_iff current m.last_acked_json).0 e))
      | inr e ↦ rw (e, is_epoch_refl m.epoch, document-fills m.user_metadata) refl
    ]

abbrev pub lossless : Bool → Bool → Mode
lossless pipelined racing = record { lossy = false; pipelined = pipelined; racing = racing }

module _ (d : Doubles) where
  either_none : (b : Bool) {o : Option (DevicePayload d)} → (if b then o else o) ≡ o
  either_none true = refl
  either_none false = refl

  unsent : (b : Bool) → (if b then true else true) ≡ true
  unsent true = refl
  unsent false = refl

  -- the device is sent, or there is none
  settled_device : (c : Carry d) → carried_device d (commit_ack d (build_beat d c).0) ≡ none
  unfolding commit_ack build_beat snap_identity snap_device snap_metadata raise_flag
  settled_device c = elim (Bool-cases c.device_sent) [
    | inl e ↦ rw (e, unsent) refl
    | inr e ↦ elim (Bool-cases (device_has_content d c.device)) [
      | inl h ↦ rw (e, h) refl
      | inr h ↦ rw (e, h, either_none) refl
    ]
  ]

  -- the beat names nobody to merge, and has neither metadata nor a device
  abbrev pub IsQuiet : Beat d → Type 0
  IsQuiet b = (b.prior_user_id ≡ []) × (b.metadata_json ≡ []) × (b.device ≡ none)

  quiet :
      (m : Metadata)
      → m.last_acked_json ≡ build_user_metadata_json m.user_metadata
      → (beat_metadata m).1 ≡ []
  unfolding beat_metadata
  quiet m h = rw (h, str_eq_refl (build_user_metadata_json m.user_metadata)) refl

  settled_metadata :
      (m : Metadata)
      → m.in_flight_json ≡ []
      → (beat_metadata (ack_metadata (beat_metadata m).0)).1 ≡ []
  unfolding ack_metadata beat_metadata
  settled_metadata m h = quiet (ack_metadata (beat_metadata m).0) (settled_json m h)

  -- While no beat is built or on its way, no metadata is on its way.
  abbrev IsClear : Bytes → Draft d → List (Beat d) → Type 0
  IsClear json idle [] = json ≡ []
  IsClear json _ _ = Unit

  nothing-IsClear : (r : Draft d) (o : List (Beat d)) → IsClear [] r o
  nothing-IsClear idle [] = refl
  nothing-IsClear idle (b ∷ o) = tt
  nothing-IsClear (has_identity b) o = tt
  nothing-IsClear (has_device b) o = tt
  nothing-IsClear (has_metadata b) o = tt

  queued-IsClear : (json : Bytes) (o : List (Beat d)) (b : Beat d) → IsClear json idle (o ++ b ∷ [])
  queued-IsClear json [] b = tt
  queued-IsClear json (x ∷ o) b = tt

  Step-IsClear :
      (pipelined racing : Bool) (s t : Exchange d)
      → Step d (lossless pipelined racing) s t
      → IsClear s.carry.metadata.in_flight_json s.draft s.outstanding
      → IsClear t.carry.metadata.in_flight_json t.draft t.outstanding
  unfolding carry_set_user set_user reset_metadata carry_set_metadata set_user_metadata store_device
      commit_ack ack_metadata raise_flag
  Step-IsClear p q s t (user_step u v c r o bs) h = h
  Step-IsClear p q s t (metadata_step count keys values c r o bs) h = h
  Step-IsClear p q s t (device_step device c r o bs e) h = h
  Step-IsClear p q s t (identity_snap c o bs e) h = tt
  Step-IsClear p q s t (device_snap c b o bs) h = tt
  Step-IsClear p q s t (metadata_snap c b o bs) h = tt
  Step-IsClear p q s t (enqueue_step c b o bs) h = queued-IsClear _ o b
  Step-IsClear p q s t (ack_step c r front b rest bs) h = nothing-IsClear r (front ++ rest)
  Step-IsClear p q s t (lose_step c r front b rest bs e) h = absurd (ground arith)

  -- Where no beat is lost and all beats have been acknowledged, one beat that is acknowledged with no
  -- call in between is enough: the next beat carries no marker, no metadata and no device.
  pub build_beat-IsQuiet :
      (pipelined racing : Bool) (s : Exchange d) (c : Carry d) (bs : List (Beat d))
      → s.carry.metadata.in_flight_json ≡ []
      → Reach d
          (lossless pipelined racing)
          s
          (record { carry = c; draft = idle; outstanding = []; delivered = bs })
      → IsQuiet (build_beat d (commit_ack d (build_beat d c).0)).1
  unfolding build_beat snap_identity snap_device snap_metadata raise_flag commit_ack beat_identity
      ack_identity
  build_beat-IsQuiet p q s c bs h way = (
    rw (settled_prior c.identity) refl,
    settled_metadata c.metadata (
        Reach-keeps
          (λ (e : Exchange d). IsClear e.carry.metadata.in_flight_json e.draft e.outstanding)
          (Step-IsClear p q) s _ (rw h (nothing-IsClear s.draft s.outstanding)) way),
    settled_device c,
  )
