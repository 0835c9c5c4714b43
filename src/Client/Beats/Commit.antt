-- ===== src/Client/Beats/Commit.antt =====
-- The marker and the metadata that an acknowledgement commits, where no beat is lost.
use tombstack_native.Prelude.{
  ◌≡◌, refl, sym, ap, ◌⊎◌, inl, inr, Bool, true, false, not, ◌&&◌, List, [], ◌∷◌, ◌++◌, arith,
  if◌then◌else◌, is_empty, Bytes, codes, str_eq, if-ap_else, if-holds,
}
use tombstack_native.Payloads.{Doubles}
use tombstack_native.Payloads.Metadata.{build_user_metadata_json}
use tombstack_native.Client.Identity.{
  Metadata, beat_identity, beat_metadata, acked_prior, acked_json, ack_identity, ack_metadata,
  set_identity, reset_metadata, set_user, set_user_metadata,
}
use tombstack_native.Client.Carry.{
  Carry, Beat, snap_identity, snap_device, snap_metadata, raise_flag, commit_ack, carry_set_user,
  carry_set_metadata, store_device,
}
use tombstack_native.Client.Beats.{
  Draft, idle, has_identity, has_device, has_metadata, IsIdle, Mode, Exchange, Step, user_step,
  metadata_step, device_step, identity_snap, device_snap, metadata_snap, enqueue_step, ack_step,
  lose_step, Reach, Reach-keeps,
}

-- no beat is lost, and none is built while another is on its way
abbrev pub one_by_one : Bool → Mode
one_by_one racing = record { lossy = false; pipelined = false; racing = racing }

module _ (d : Doubles) where
  -- The fields for what is on its way say what the beat that is built or on its way carries.
  abbrev Drafted : Bytes → Bytes → Draft d → Type 0
  Drafted prior json idle = (prior ≡ []) × (json ≡ [])
  Drafted prior json (has_identity b) = (prior ≡ b.prior_user_id) × (json ≡ [])
  Drafted prior json (has_device b) = (prior ≡ b.prior_user_id) × (json ≡ [])
  Drafted prior json (has_metadata b) = (prior ≡ b.prior_user_id) × (json ≡ b.metadata_json)

  abbrev InFlight : Bytes → Bytes → Draft d → List (Beat d) → Type 0
  InFlight prior json r [] = Drafted prior json r
  InFlight prior json r (b ∷ []) = IsIdle r × ((prior ≡ b.prior_user_id) × (json ≡ b.metadata_json))
  InFlight prior json r (b ∷ _ ∷ _) = ⊥

  drafting :
      (prior json prior' json' : Bytes) (r r' : Draft d) (o : List (Beat d))
      → (IsIdle r → ⊥) ⊎ (o ≡ [])
      → (Drafted prior json r → Drafted prior' json' r')
      → InFlight prior json r o
      → InFlight prior' json' r' o
  drafting prior json prior' json' r r' [] e f h = f h
  drafting prior json prior' json' r r' (b ∷ []) (inl e) f h = absurd (e h.0)
  drafting prior json prior' json' r r' (b ∷ []) (inr e) f h = absurd (ground arith)
  drafting prior json prior' json' r r' (b ∷ x ∷ o) e f h = absurd h

  landed : (r : Draft d) → IsIdle r → Drafted [] [] r
  landed idle h = (refl, refl)
  landed (has_identity b) h = absurd h
  landed (has_device b) h = absurd h
  landed (has_metadata b) h = absurd h

  -- An acknowledgement is that of the only beat.
  landing :
      (prior json : Bytes) (r : Draft d) (front : List (Beat d)) (b : Beat d) (rest : List (Beat d))
      → InFlight prior json r (front ++ b ∷ rest)
      → InFlight [] [] r (front ++ rest) × ((prior ≡ b.prior_user_id) × (json ≡ b.metadata_json))
  landing prior json r [] b [] h = (landed r h.0, h.1)
  landing prior json r [] b (x ∷ rest) h = absurd h
  landing prior json r (x ∷ []) b rest h = absurd h
  landing prior json r (x ∷ y ∷ front) b rest h = absurd h

  sending :
      (prior json : Bytes) (b : Beat d) (o : List (Beat d))
      → InFlight prior json (has_metadata b) o
      → InFlight prior json idle (o ++ b ∷ [])
  sending prior json b [] h = (tt, h)
  sending prior json b (x ∷ []) h = absurd h.0
  sending prior json b (x ∷ y ∷ o) h = absurd h

  -- One of the beats carried this metadata.
  abbrev pub Committed : Bytes → List (Beat d) → Type 0
  Committed json [] = ⊥
  Committed json (b ∷ bs) = (b.metadata_json ≡ json) ⊎ Committed json bs

  pub record IsExact (s : Exchange d) : Type 0 where
    pub in_flight :
        InFlight s.carry.identity.prior_in_flight s.carry.metadata.in_flight_json s.draft
          s.outstanding
    pub committed :
        (s.carry.metadata.last_acked_json ≡ codes "{}")
        ⊎ Committed s.carry.metadata.last_acked_json s.delivered

  acked_json-IsExact :
      (m : Metadata) (b : Beat d) (bs : List (Beat d))
      → m.in_flight_json ≡ b.metadata_json
      → (m.last_acked_json ≡ codes "{}") ⊎ Committed m.last_acked_json bs
      → (acked_json m ≡ codes "{}") ⊎ Committed (acked_json m) (b ∷ bs)
  unfolding acked_json
  acked_json-IsExact m b bs e h =
      if-holds (λ json. (json ≡ codes "{}") ⊎ Committed json (b ∷ bs)) _ (inr (inl (sym e)))
        (elim h [ inl k ↦ inl k | inr k ↦ inr (inr k) ])

  unpipelined : (o : List (Beat d)) → (false ≡ true) ⊎ (o ≡ []) → o ≡ []
  unpipelined o (inl e) = absurd (ground arith)
  unpipelined o (inr e) = e

  snap_identity-Drafted :
      (c : Carry d)
      → Drafted c.identity.prior_in_flight c.metadata.in_flight_json idle
      → Drafted
          (snap_identity d c).0.identity.prior_in_flight
          c.metadata.in_flight_json
          (has_identity (snap_identity d c).1)
  unfolding snap_identity beat_identity
  snap_identity-Drafted c h = (
    if-ap_else (not (is_empty c.identity.pending_prior_user_id)) c.identity.pending_prior_user_id
        h.0,
    h.1,
  )

  snap_metadata-Drafted :
      (c : Carry d) (b : Beat d)
      → Drafted c.identity.prior_in_flight c.metadata.in_flight_json (has_device b)
      → Drafted c.identity.prior_in_flight
          (snap_metadata d c b).0.metadata.in_flight_json
          (has_metadata (snap_metadata d c b).1)
  unfolding snap_metadata beat_metadata
  snap_metadata-Drafted c b h = (
    h.0,
    if-ap_else
        (not
          (str_eq (build_user_metadata_json c.metadata.user_metadata) c.metadata.last_acked_json))
        (build_user_metadata_json c.metadata.user_metadata) h.1,
  )

  Step-IsExact :
      (racing : Bool) (s t : Exchange d) → Step d (one_by_one racing) s t → IsExact s → IsExact t
  unfolding carry_set_user set_user set_identity reset_metadata carry_set_metadata set_user_metadata
      store_device commit_ack ack_identity ack_metadata snap_identity snap_device snap_metadata
      beat_metadata raise_flag
  Step-IsExact q s t (user_step u v c r o bs) h = record {
    in_flight = h.in_flight;
    committed = if-holds (λ json. (json ≡ codes "{}") ⊎ Committed json bs) _ (inl refl) h.committed;
  }
  Step-IsExact q s t (metadata_step count keys values c r o bs) h = record {
    in_flight = h.in_flight;
    committed = h.committed;
  }
  Step-IsExact q s t (device_step device c r o bs e) h = record {
    in_flight = h.in_flight;
    committed = h.committed;
  }
  Step-IsExact q s t (identity_snap c o bs e) h = record {
    in_flight =
        drafting _ _ _ _ idle (has_identity (snap_identity d c).1) o (inr (unpipelined o e))
          (snap_identity-Drafted c) h.in_flight;
    committed = h.committed;
  }
  Step-IsExact q s t (device_snap c b o bs) h = record {
    in_flight =
        drafting _ _ _ _ (has_identity b) (has_device (snap_device d c b)) o (inl (λ k. k)) (λ k. k)
          h.in_flight;
    committed = h.committed;
  }
  Step-IsExact q s t (metadata_snap c b o bs) h = record {
    in_flight =
        drafting _ _ _ _ (has_device b) (has_metadata (snap_metadata d c b).1) o (inl (λ k. k))
          (snap_metadata-Drafted c b) h.in_flight;
    committed = h.committed;
  }
  Step-IsExact q s t (enqueue_step c b o bs) h = record {
    in_flight = sending _ _ b o h.in_flight;
    committed = h.committed;
  }
  Step-IsExact q s t (ack_step c r front b rest bs) h = record {
    in_flight = (landing _ _ r front b rest h.in_flight).0;
    committed =
        acked_json-IsExact c.metadata b bs (landing _ _ r front b rest h.in_flight).1.1 h.committed;
  }
  Step-IsExact q s t (lose_step c r front b rest bs e) h = absurd (ground arith)

  abbrev pub IsFresh : Exchange d → Type 0
  IsFresh s =
      (s.carry.identity.prior_in_flight ≡ [])
      × (s.carry.metadata.in_flight_json ≡ [])
      × (s.carry.metadata.last_acked_json ≡ codes "{}")
      × (s.draft ≡ idle)
      × (s.outstanding ≡ [])

  start-IsExact : (s : Exchange d) → IsFresh s → IsExact s
  start-IsExact s h = record { in_flight = rw (h.4, h.3) (h.0, h.1); committed = inl h.2 }

  pub Reach-IsExact :
      (racing : Bool) (s t : Exchange d) → IsFresh s → Reach d (one_by_one racing) s t → IsExact t
  Reach-IsExact q s t h way = Reach-keeps IsExact (Step-IsExact q) s t (start-IsExact s h) way

  -- Where no beat is lost and none is built while another is on its way, what counts as acknowledged
  -- metadata is the empty map or what a beat that was acknowledged carried.
  pub committed-Reach :
      (racing : Bool) (s t : Exchange d)
      → IsFresh s
      → Reach d (one_by_one racing) s t
      → (t.carry.metadata.last_acked_json ≡ codes "{}")
        ⊎ Committed t.carry.metadata.last_acked_json t.delivered
  committed-Reach q s t h way = (Reach-IsExact q s t h way).committed

  -- Where no beat is lost and none is built while another is on its way, an acknowledgement clears
  -- the marker if and only if the beat that it answers carried that marker: as if the handler had
  -- read the beat. Calls of the game may fall anywhere, also between the steps that build a beat.
  pub ack_identity-Reach :
      (racing : Bool) (s : Exchange d) (c : Carry d) (r : Draft d) (front : List (Beat d))
      (b : Beat d) (rest bs : List (Beat d))
      → IsFresh s
      → Reach d
          (one_by_one racing)
          s
          (record { carry = c; draft = r; outstanding = front ++ b ∷ rest; delivered = bs })
      → (commit_ack d c).identity.pending_prior_user_id ≡ (
          if not (is_empty b.prior_user_id)
            && str_eq b.prior_user_id c.identity.pending_prior_user_id
          then []
          else c.identity.pending_prior_user_id)
  unfolding commit_ack ack_identity acked_prior
  ack_identity-Reach q s c r front b rest bs h way =
      let exact =
        Reach-IsExact q s
          (record { carry = c; draft = r; outstanding = front ++ b ∷ rest; delivered = bs }) h
          way in
      ap
        (λ x.
          if not (is_empty x) && str_eq x c.identity.pending_prior_user_id
          then []
          else c.identity.pending_prior_user_id)
        (landing _ _ r front b rest exact.in_flight).1.0
