-- ===== src/Client/Beats.antt =====
-- Heartbeats on their way: the calls of the game, the rounds of the heartbeat thread in
-- src/client.cpp (`heartbeat_loop`) and what the delivery thread makes of the beats, as a step
-- relation. A round takes the identity, the device and the metadata in three steps and then raises
-- the flag of the device and queues the beat; a call, an acknowledgement or a loss may fall between
-- any two of them. Beats are queued without waiting, and acknowledged or lost in any order. A
-- `set_device` and an acknowledgement are one step each.
pub mod Sound
pub mod Commit
pub mod Device
pub mod Settled
use tombstack_native.Prelude.{
  take_else, take_then, ℕ, zero, suc, ◌+◌, ◌-◌, ◌*◌, ◌/◌, ◌%◌, ◌^◌, ◌≤◌, ◌<◌, min, max, ◌≡◌, refl,
  sym, ap, ◌∙◌, subst, ◌≢◌, ◌↔◌, ◌⊎◌, inl, inr, Bool, true, false, not, ◌&&◌, ◌||◌, Option, none,
  some, List, [], ◌∷◌, ◌++◌, map, append-nil, append_assoc, arith, ltb, leb, ◌==◌, if◌then◌else◌,
  ltb→lt, lt→ltb, leb→le, ltb_refuted, leb_refuted, ==_iff, tests, Bool-cases, Option-cases,
  value_or, &&-eq-true, length, is_empty, get_elem?, set, get_or, take, drop, replicate, pop_front,
  All, length-append, length-set, length-replicate, length-take, length-drop, length-map,
  take-append-drop, take-length-append, drop-length-append, All-append, All-append_left,
  All-append_right, Bytes, codes, str_eq, str_eq_iff, str_eq_refl, starts_with, ◌&◌, if-ap_else,
  if-holds, if-cases,
}
use tombstack_native.Payloads.{Doubles}
use tombstack_native.Payloads.Device.{DevicePayload}
use tombstack_native.Client.Carry.{
  Carry, Beat, snap_identity, snap_device, snap_metadata, raise_flag, commit_ack, carry_set_user,
  carry_set_metadata, store_device,
}

-- The beat that the heartbeat thread is building, and how far it is.
pub data Draft (d : Doubles) : Type 0 where
  idle : Draft d
  has_identity : Beat d → Draft d
  has_device : Beat d → Draft d
  has_metadata : Beat d → Draft d

-- The client, the beat that is built, the beats that are on their way, and the beats that the server
-- has acknowledged, the latest first.
pub record Exchange (d : Doubles) : Type 0 where
  pub carry : Carry d
  pub draft : Draft d
  pub outstanding : List (Beat d)
  pub delivered : List (Beat d)

-- What may happen: that a beat is lost, that a beat is built while another is on its way, and that
-- the device is set between its copy for a beat and the flag of that beat.
pub record Mode : Type 0 where
  pub lossy : Bool
  pub pipelined : Bool
  pub racing : Bool

abbrev pub IsIdle : {d : Doubles} → Draft d → Type 0
IsIdle idle = Unit
IsIdle (has_identity b) = ⊥
IsIdle (has_device b) = ⊥
IsIdle (has_metadata b) = ⊥

-- the device is not copied yet
abbrev pub IsOpen : {d : Doubles} → Draft d → Type 0
IsOpen idle = Unit
IsOpen (has_identity b) = Unit
IsOpen (has_device b) = ⊥
IsOpen (has_metadata b) = ⊥

pub data Step (d : Doubles) (m : Mode) : Exchange d → Exchange d → Type 0 where
  user_step :
      (user_id steam_id : Option Bytes) (c : Carry d) (r : Draft d) (o bs : List (Beat d))
      → Step d m
          (record { carry = c; draft = r; outstanding = o; delivered = bs })
          (record {
            carry = carry_set_user d user_id steam_id c;
            draft = r;
            outstanding = o;
            delivered = bs;
          })
  metadata_step :
      (count : ℕ) (keys values : Option (List (Option Bytes))) (c : Carry d) (r : Draft d)
      (o bs : List (Beat d))
      → Step d m
          (record { carry = c; draft = r; outstanding = o; delivered = bs })
          (record {
            carry = carry_set_metadata d count keys values c;
            draft = r;
            outstanding = o;
            delivered = bs;
          })
  device_step :
      (device : DevicePayload d) (c : Carry d) (r : Draft d) (o bs : List (Beat d))
      → (m.racing ≡ true) ⊎ IsOpen r
      → Step d m
          (record { carry = c; draft = r; outstanding = o; delivered = bs })
          (record { carry = store_device d device c; draft = r; outstanding = o; delivered = bs })
  identity_snap :
      (c : Carry d) (o bs : List (Beat d))
      → (m.pipelined ≡ true) ⊎ (o ≡ [])
      → Step d m
          (record { carry = c; draft = idle; outstanding = o; delivered = bs })
          (record {
            carry = (snap_identity d c).0;
            draft = has_identity (snap_identity d c).1;
            outstanding = o;
            delivered = bs;
          })
  device_snap :
      (c : Carry d) (b : Beat d) (o bs : List (Beat d))
      → Step d m
          (record { carry = c; draft = has_identity b; outstanding = o; delivered = bs })
          (record {
            carry = c;
            draft = has_device (snap_device d c b);
            outstanding = o;
            delivered = bs;
          })
  metadata_snap :
      (c : Carry d) (b : Beat d) (o bs : List (Beat d))
      → Step d m
          (record { carry = c; draft = has_device b; outstanding = o; delivered = bs })
          (record {
            carry = (snap_metadata d c b).0;
            draft = has_metadata (snap_metadata d c b).1;
            outstanding = o;
            delivered = bs;
          })
  enqueue_step :
      (c : Carry d) (b : Beat d) (o bs : List (Beat d))
      → Step d m
          (record { carry = c; draft = has_metadata b; outstanding = o; delivered = bs })
          (record {
            carry = raise_flag d b c;
            draft = idle;
            outstanding = o ++ b ∷ [];
            delivered = bs;
          })
  ack_step :
      (c : Carry d) (r : Draft d) (front : List (Beat d)) (b : Beat d) (rest bs : List (Beat d))
      → Step d m
          (record { carry = c; draft = r; outstanding = front ++ b ∷ rest; delivered = bs })
          (record {
            carry = commit_ack d c;
            draft = r;
            outstanding = front ++ rest;
            delivered = b ∷ bs;
          })
  lose_step :
      (c : Carry d) (r : Draft d) (front : List (Beat d)) (b : Beat d) (rest bs : List (Beat d))
      → m.lossy ≡ true
      → Step d m
          (record { carry = c; draft = r; outstanding = front ++ b ∷ rest; delivered = bs })
          (record { carry = c; draft = r; outstanding = front ++ rest; delivered = bs })

pub data Reach (d : Doubles) (m : Mode) (s : Exchange d) : Exchange d → Type 0 where
  here : Reach d m s s
  next : {t u : Exchange d} → Reach d m s t → Step d m t u → Reach d m s u

-- A property that every step keeps holds wherever the steps lead.
pub Reach-keeps {κ} :
    {d : Doubles} {m : Mode} (P : Exchange d → Type κ)
    → ((t u : Exchange d) → Step d m t u → P t → P u)
    → (s t : Exchange d) → P s
    → Reach d m s t
    → P t
Reach-keeps P keeps s t h here = h
Reach-keeps P keeps s u h (next {t = t} way step) = keeps t u step (Reach-keeps P keeps s t h way)
