-- ===== src/Client/Carry.antt =====
-- What heartbeats carry until one is acknowledged, in src/client.cpp: the one-shot marker of the
-- identity, the metadata and the device.
use tombstack_native.Prelude.{
  ℕ, Bool, true, false, not, Option, none, some, List, [], if◌then◌else◌, Bytes,
}
use tombstack_native.Payloads.{Doubles}
use tombstack_native.Payloads.Device.{DevicePayload, device_has_content}
use tombstack_native.Client.Identity.{
  Identity, Metadata, current_user_id, set_user, set_user_metadata, beat_identity, beat_metadata,
  ack_identity, ack_metadata,
}

pub record Carry (d : Doubles) : Type 0 where
  pub identity : Identity
  pub metadata : Metadata
  pub device : DevicePayload d
  pub device_sent : Bool
  pub device_in_flight : Bool

-- the parts of a heartbeat that change from beat to beat
pub record Beat (d : Doubles) : Type 0 where
  pub user_id : Bytes
  pub prior_user_id : Bytes
  pub metadata_json : Bytes
  pub device : Option (DevicePayload d)

module _ (d : Doubles) where
  abbrev pub carried_device : Carry d → Option (DevicePayload d)
  carried_device c =
      if not c.device_sent
      then (if device_has_content d c.device then some c.device else none)
      else none

  abbrev is_carried : Option (DevicePayload d) → Bool
  is_carried none = false
  is_carried (some device) = true

  -- `heartbeat_loop` takes the user and the marker under one lock
  unfoldable pub snap_identity : Carry d → Carry d × Beat d
  unfolding beat_identity
  snap_identity c = (
    record c { identity = (beat_identity c.identity).0 },
    record {
      user_id = current_user_id c.identity;
      prior_user_id = (beat_identity c.identity).1;
      metadata_json = [];
      device = none;
    },
  )

  -- then the device
  unfoldable pub snap_device : Carry d → Beat d → Beat d
  snap_device c b = record b { device = carried_device c }

  -- then the metadata, under a lock of its own
  unfoldable pub snap_metadata : Carry d → Beat d → Carry d × Beat d
  unfolding beat_metadata
  snap_metadata c b = (
    record c { metadata = (beat_metadata c.metadata).0 },
    record b { metadata_json = (beat_metadata c.metadata).1 },
  )

  -- and raises the flag of the device last, where the beat carries one
  unfoldable pub raise_flag : Beat d → Carry d → Carry d
  raise_flag b c = record c {
    device_in_flight = if is_carried b.device then true else c.device_in_flight;
  }

  -- a round of `heartbeat_loop` that sends and that no other thread interrupts, as far as these
  -- fields go
  unfoldable pub build_beat : Carry d → Carry d × Beat d
  unfolding snap_identity snap_device snap_metadata raise_flag
  build_beat c =
      let (identified, named) = snap_identity c in
      let (described, beat) = snap_metadata identified (snap_device identified named) in
      (raise_flag beat described, beat)

  -- the first part of `handle_heartbeat_ack`
  unfoldable pub commit_ack : Carry d → Carry d
  unfolding ack_identity ack_metadata
  commit_ack c = record c {
    identity = ack_identity c.identity;
    metadata = ack_metadata c.metadata;
    device_sent = if c.device_in_flight then true else c.device_sent;
    device_in_flight = false;
  }

  unfoldable pub carry_set_user : Option Bytes → Option Bytes → Carry d → Carry d
  carry_set_user user_id steam_id c =
      let next = set_user user_id steam_id (c.identity, c.metadata) in
      record c { identity = next.0; metadata = next.1 }

  unfoldable pub carry_set_metadata :
      ℕ → Option (List (Option Bytes)) → Option (List (Option Bytes)) → Carry d → Carry d
  carry_set_metadata count keys values c = record c {
    metadata = (set_user_metadata count keys values c.metadata).0;
  }

  -- the end of `set_device`, with the clamped copy
  unfoldable pub store_device : DevicePayload d → Carry d → Carry d
  store_device device c = record c {
    device = device;
    device_sent = false;
    device_in_flight = false;
  }
