-- ===== src/Client/Beats/Device.antt =====
-- The device rides the beats until one that carried it is acknowledged, although beats are lost.
use tombstack_native.Prelude.{
  ◌≡◌, refl, sym, ap, ◌∙◌, ◌⊎◌, inl, inr, Bool, true, false, none, some, List, [], ◌∷◌, ◌++◌, arith,
  if◌then◌else◌, Bool-cases,
}
use tombstack_native.Payloads.{Doubles}
use tombstack_native.Payloads.Device.{DevicePayload, device_has_content}
use tombstack_native.Client.Carry.{
  Carry, Beat, carried_device, snap_identity, snap_device, snap_metadata, raise_flag, commit_ack,
  carry_set_user, carry_set_metadata, store_device,
}
use tombstack_native.Client.Beats.{
  Draft, idle, has_identity, has_device, has_metadata, IsIdle, IsOpen, Mode, Exchange, Step,
  user_step, metadata_step, device_step, identity_snap, device_snap, metadata_snap, enqueue_step,
  ack_step, lose_step, Reach, Reach-keeps,
}

-- no beat is built while another is on its way, and no device is set between its copy and its flag
abbrev pub steady : Bool → Mode
steady lossy = record { lossy = lossy; pipelined = false; racing = false }

module _ (d : Doubles) where
  -- One of the beats had this device on it.
  abbrev pub Delivered : DevicePayload d → List (Beat d) → Type 0
  Delivered device [] = ⊥
  Delivered device (b ∷ bs) = (b.device ≡ some device) ⊎ Delivered device bs

  -- What is known of the device of the beat that is built.
  abbrev Drafted : Carry d → Draft d → Type 0
  Drafted c idle = Unit
  Drafted c (has_identity b) = Unit
  Drafted c (has_device b) = b.device ≡ carried_device d c
  Drafted c (has_metadata b) = b.device ≡ carried_device d c

  abbrev Flying : Carry d → Draft d → List (Beat d) → Type 0
  Flying c r [] = Drafted c r
  Flying c r (b ∷ []) = IsIdle r × (c.device_in_flight ≡ true → b.device ≡ some c.device)
  Flying c r (b ∷ _ ∷ _) = ⊥

  drafting :
      (c c' : Carry d) (r r' : Draft d) (o : List (Beat d))
      → (IsIdle r → ⊥) ⊎ (o ≡ [])
      → (Drafted c r → Drafted c' r')
      → Flying c r o
      → Flying c' r' o
  drafting c c' r r' [] e f h = f h
  drafting c c' r r' (b ∷ []) (inl e) f h = absurd (e h.0)
  drafting c c' r r' (b ∷ []) (inr e) f h = absurd (ground arith)
  drafting c c' r r' (b ∷ x ∷ o) e f h = absurd h

  landed : (c : Carry d) (r : Draft d) → IsIdle r → Drafted c r
  landed c idle h = tt
  landed c (has_identity b) h = absurd h
  landed c (has_device b) h = absurd h
  landed c (has_metadata b) h = absurd h

  -- An acknowledgement or a loss is that of the only beat.
  landing :
      (c c' : Carry d) (r : Draft d) (front : List (Beat d)) (b : Beat d) (rest : List (Beat d))
      → Flying c r (front ++ b ∷ rest)
      → Flying c' r (front ++ rest) × (c.device_in_flight ≡ true → b.device ≡ some c.device)
  landing c c' r [] b [] h = (landed c' r h.0, h.1)
  landing c c' r [] b (x ∷ rest) h = absurd h
  landing c c' r (x ∷ []) b rest h = absurd h
  landing c c' r (x ∷ y ∷ front) b rest h = absurd h

  record IsTracked (s : Exchange d) : Type 0 where
    pub sent : s.carry.device_sent ≡ true → Delivered s.carry.device s.delivered
    pub in_flight :
        s.carry.device_in_flight ≡ true
        → (s.carry.device_sent ≡ false) × (device_has_content d s.carry.device ≡ true)
    pub flying : Flying s.carry s.draft s.outstanding

  unsent-carried :
      (c : Carry d)
      → c.device_sent ≡ false
      → device_has_content d c.device ≡ true
      → carried_device d c ≡ some c.device
  unsent-carried c e h = rw e (rw h refl)

  carried-cases :
      (c : Carry d)
      → (carried_device d c ≡ none)
        ⊎ ((carried_device d c ≡ some c.device)
            × ((c.device_sent ≡ false) × (device_has_content d c.device ≡ true)))
  carried-cases c = elim (Bool-cases c.device_sent) [
    | inl e ↦ inl (rw e refl)
    | inr e ↦ elim (Bool-cases (device_has_content d c.device)) [
      | inl h ↦ inr (unsent-carried c e h, (e, h))
      | inr h ↦ inl (rw e (rw h refl))
    ]
  ]

  sending :
      (c : Carry d) (b : Beat d) (o bs : List (Beat d))
      → IsTracked (record { carry = c; draft = has_metadata b; outstanding = o; delivered = bs })
      → IsTracked (record {
        carry = raise_flag d b c;
        draft = idle;
        outstanding = o ++ b ∷ [];
        delivered = bs;
      })
  unfolding raise_flag
  sending c b [] bs h = elim (carried-cases c) [
    | inl e ↦
        let same =
          λ (f : (raise_flag d b c).device_in_flight ≡ true). h.in_flight (rw (h.flying, e) at f) in
        record {
          sent = h.sent;
          in_flight = same;
          flying = (tt, λ f. h.flying ∙ unsent-carried c (same f).0 (same f).1);
        }
    | inr (e, k) ↦ record { sent = h.sent; in_flight = λ f. k; flying = (tt, λ f. h.flying ∙ e) }
  ]
  sending c b (x ∷ []) bs h = absurd h.flying.0
  sending c b (x ∷ y ∷ o) bs h = absurd h.flying

  ack-sent :
      (c : Carry d) (b : Beat d) (bs : List (Beat d)) (f : Bool)
      → c.device_in_flight ≡ f
      → (c.device_in_flight ≡ true → b.device ≡ some c.device)
      → (c.device_sent ≡ true → Delivered c.device bs)
      → (if f then true else c.device_sent) ≡ true
      → Delivered c.device (b ∷ bs)
  ack-sent c b bs true e flying sent k = inl (flying e)
  ack-sent c b bs false e flying sent k = inr (sent k)

  ack-IsTracked :
      (c : Carry d) (r : Draft d) (front : List (Beat d)) (b : Beat d) (rest bs : List (Beat d))
      → IsTracked (record { carry = c; draft = r; outstanding = front ++ b ∷ rest; delivered = bs })
      → IsTracked (record {
        carry = commit_ack d c;
        draft = r;
        outstanding = front ++ rest;
        delivered = b ∷ bs;
      })
  unfolding commit_ack
  ack-IsTracked c r front b rest bs h =
      let (away, carried) = landing c (commit_ack d c) r front b rest h.flying in
      record {
        sent = ack-sent c b bs c.device_in_flight refl carried h.sent;
        in_flight = λ f. absurd (ground arith);
        flying = away;
      }

  -- The flight depends on the device and its flags only.
  same-Flying :
      (c c' : Carry d) (r : Draft d) (o : List (Beat d))
      → c'.device_sent ≡ c.device_sent
      → c'.device_in_flight ≡ c.device_in_flight
      → c'.device ≡ c.device
      → Flying c r o
      → Flying c' r o
  same-Flying c c' idle [] z e k h = tt
  same-Flying c c' (has_identity b) [] z e k h = tt
  same-Flying c c' (has_device b) [] z e k h = rw (z, k) h
  same-Flying c c' (has_metadata b) [] z e k h = rw (z, k) h
  same-Flying c c' r (b ∷ []) z e k h = (h.0, λ f. h.1 (sym e ∙ f) ∙ ap some (sym k))
  same-Flying c c' r (b ∷ x ∷ o) z e k h = absurd h

  unarmed :
      (c c' : Carry d) (r : Draft d) (o : List (Beat d))
      → (false ≡ true) ⊎ IsOpen r
      → c'.device_in_flight ≡ false
      → Flying c r o
      → Flying c' r o
  unarmed c c' r o (inl q) e h = absurd (ground arith)
  unarmed c c' idle [] (inr q) e h = tt
  unarmed c c' (has_identity b) [] (inr q) e h = tt
  unarmed c c' (has_device b) [] (inr q) e h = absurd q
  unarmed c c' (has_metadata b) [] (inr q) e h = absurd q
  unarmed c c' r (b ∷ []) (inr q) e h = (h.0, λ f. absurd (ground arith))
  unarmed c c' r (b ∷ x ∷ o) (inr q) e h = absurd h

  only-beat : (o : List (Beat d)) → (false ≡ true) ⊎ (o ≡ []) → o ≡ []
  only-beat o (inl e) = absurd (ground arith)
  only-beat o (inr e) = e

  Step-IsTracked :
      (lossy : Bool) (s t : Exchange d) → Step d (steady lossy) s t → IsTracked s → IsTracked t
  unfolding carry_set_user carry_set_metadata store_device snap_identity snap_device snap_metadata
  Step-IsTracked q s t (user_step u v c r o bs) h = record {
    sent = h.sent;
    in_flight = h.in_flight;
    flying = same-Flying c (carry_set_user d u v c) r o refl refl refl h.flying;
  }
  Step-IsTracked q s t (metadata_step count keys values c r o bs) h = record {
    sent = h.sent;
    in_flight = h.in_flight;
    flying = same-Flying c (carry_set_metadata d count keys values c) r o refl refl refl h.flying;
  }
  Step-IsTracked q s t (device_step device c r o bs e) h = record {
    sent = λ f. absurd (ground arith);
    in_flight = λ f. absurd (ground arith);
    flying = unarmed c (store_device d device c) r o e refl h.flying;
  }
  Step-IsTracked q s t (identity_snap c o bs e) h = record {
    sent = h.sent;
    in_flight = h.in_flight;
    flying =
        drafting c (snap_identity d c).0 idle (has_identity (snap_identity d c).1) o
          (inr (only-beat o e)) (λ k. tt) h.flying;
  }
  Step-IsTracked q s t (device_snap c b o bs) h = record {
    sent = h.sent;
    in_flight = h.in_flight;
    flying =
        drafting c c (has_identity b) (has_device (snap_device d c b)) o (inl (λ k. k)) (λ k. refl)
          h.flying;
  }
  Step-IsTracked q s t (metadata_snap c b o bs) h = record {
    sent = h.sent;
    in_flight = h.in_flight;
    flying =
        drafting c (snap_metadata d c b).0 (has_device b) (has_metadata (snap_metadata d c b).1) o
          (inl (λ k. k)) (λ k. k) h.flying;
  }
  Step-IsTracked q s t (enqueue_step c b o bs) h = sending c b o bs h
  Step-IsTracked q s t (ack_step c r front b rest bs) h = ack-IsTracked c r front b rest bs h
  Step-IsTracked q s t (lose_step c r front b rest bs e) h = record {
    sent = h.sent;
    in_flight = h.in_flight;
    flying = (landing c c r front b rest h.flying).0;
  }

  abbrev pub IsUnsent : Exchange d → Type 0
  IsUnsent s =
      ((s.carry.device_sent ≡ false) × (s.carry.device_in_flight ≡ false))
      × ((s.draft ≡ idle) × (s.outstanding ≡ []))

  start-IsTracked : (s : Exchange d) → IsUnsent s → IsTracked s
  start-IsTracked s h = record {
    sent = λ f. absurd (ground (arith, h));
    in_flight = λ f. absurd (ground (arith, h));
    flying = rw (h.1.1, h.1.0) tt;
  }

  -- The device is dropped from the beats only when a beat that carried this very device has been
  -- acknowledged, in any order of calls, acknowledgements and losses, where no beat is built while
  -- another is on its way, the device is not set between its copy for a beat and the flag of that
  -- beat, and a `set_device` and an acknowledgement run one after the other.
  pub device_sent-Reach :
      (lossy : Bool) (s t : Exchange d)
      → IsUnsent s
      → Reach d (steady lossy) s t
      → t.carry.device_sent ≡ true
      → Delivered t.carry.device t.delivered
  device_sent-Reach lossy s t h way =
      (Reach-keeps IsTracked (Step-IsTracked lossy) s t (start-IsTracked s h) way).sent
