-- ===== src/Client/Identity.antt =====
-- The identity and the metadata of the user in src/client.cpp and src/client_reports.cpp: what
-- `user_mutex_` and `metadata_mutex_` guard. A C string that is null is `none`.
use tombstack_native.Prelude.{
  ℕ, ◌+◌, Bool, true, false, not, ◌&&◌, ◌||◌, Option, none, some, List, [], ltb, ◌==◌,
  if◌then◌else◌, is_empty, Bytes, codes, str_eq,
}
use tombstack_native.Json.Utf8.{utf8_safe_truncate}
use tombstack_native.Payloads.Limits
use tombstack_native.Payloads.Metadata.{
  UserMetadataEntries, clamp_user_metadata, build_user_metadata_json,
}

pub record Identity : Type 0 where
  pub user_id : Bytes
  pub steam_id : Bytes
  pub provisional_user_id : Bytes
  pub pending_prior_user_id : Bytes
  pub prior_in_flight : Bytes

-- `metadata_in_flight_epoch_` of -1 is `none`
pub record Metadata : Type 0 where
  pub user_metadata : UserMetadataEntries
  pub last_acked_json : Bytes
  pub epoch : ℕ
  pub in_flight_json : Bytes
  pub in_flight_epoch : Option ℕ

pub data Result : Type 0 where
  ok disabled suppressed : Result
  invalid_argument not_initialized already_initialized io queue_full timeout internal : Result

abbrev pub new_identity : Identity
new_identity = record {
  user_id = [];
  steam_id = [];
  provisional_user_id = [];
  pending_prior_user_id = [];
  prior_in_flight = [];
}

abbrev pub new_metadata : Metadata
new_metadata = record {
  user_metadata = [];
  last_acked_json = codes "{}";
  epoch = 0;
  in_flight_json = [];
  in_flight_epoch = none;
}

abbrev pub clamped : Option Bytes → ℕ → Bytes
clamped none max_bytes = []
clamped (some value) max_bytes = utf8_safe_truncate value max_bytes

abbrev pub current_user_id : Identity → Bytes
current_user_id s = if is_empty s.user_id then s.provisional_user_id else s.user_id

-- whether a non-empty id stamps the marker: on leaving the provisional identity
pub stamps : Bytes → Identity → Bool
stamps next s =
    not (is_empty s.provisional_user_id)
    && not (str_eq next s.provisional_user_id)
    && str_eq (current_user_id s) s.provisional_user_id

-- `pending_prior_user_id_` behind a `set_user` with this id
unfoldable pub next_prior : Bytes → Identity → Bytes
unfolding stamps
next_prior next s =
    if is_empty next
    then []
    else if stamps next s
    then s.provisional_user_id
    else s.pending_prior_user_id

unfoldable pub set_identity : Option Bytes → Option Bytes → Identity → Identity
unfolding next_prior
set_identity user_id steam_id s = record s {
  user_id = clamped user_id Limits.user_id;
  steam_id = clamped steam_id Limits.steam_id;
  pending_prior_user_id = next_prior (clamped user_id Limits.user_id) s;
}

-- what `set_user` does to the metadata; the flag says that the id changes
unfoldable pub reset_metadata : Bool → Identity → Metadata → Metadata
reset_metadata changed s m = record m {
  user_metadata = if changed && not (is_empty s.user_id) then [] else m.user_metadata;
  last_acked_json = if changed then codes "{}" else m.last_acked_json;
  epoch = if changed then m.epoch + 1 else m.epoch;
}

unfoldable pub set_user : Option Bytes → Option Bytes → Identity × Metadata → Identity × Metadata
unfolding reset_metadata
set_user user_id steam_id (s, m) = (
  set_identity user_id steam_id s,
  reset_metadata (not (str_eq (clamped user_id Limits.user_id) s.user_id)) s m,
)

abbrev pub is_null : Option (List (Option Bytes)) → Bool
is_null none = true
is_null (some items) = false

-- `count` is the length of both arrays, where they are given
unfoldable pub set_user_metadata :
    ℕ → Option (List (Option Bytes)) → Option (List (Option Bytes)) → Metadata → Metadata × Result
set_user_metadata count keys values m =
    let refused = ltb 0 count && (is_null keys || is_null values) in
    (
      record m {
        user_metadata = if refused then m.user_metadata else clamp_user_metadata keys values;
      },
      if refused then invalid_argument else ok,
    )

-- the identity that a beat takes, and what it leaves: the effective id and the marker
unfoldable pub beat_identity : Identity → Identity × Bytes
beat_identity s =
    let carries = not (is_empty s.pending_prior_user_id) in
    (
      record s { prior_in_flight = if carries then s.pending_prior_user_id else s.prior_in_flight },
      if carries then s.pending_prior_user_id else [],
    )

-- the metadata that a beat takes
unfoldable pub beat_metadata : Metadata → Metadata × Bytes
beat_metadata m =
    let current = build_user_metadata_json m.user_metadata in
    let carries = not (str_eq current m.last_acked_json) in
    (
      record m {
        in_flight_json = if carries then current else m.in_flight_json;
        in_flight_epoch = if carries then some m.epoch else m.in_flight_epoch;
      },
      if carries then current else [],
    )

-- the two critical sections of `handle_heartbeat_ack`
unfoldable pub acked_prior : Identity → Bytes
acked_prior s =
    if not (is_empty s.prior_in_flight) && str_eq s.prior_in_flight s.pending_prior_user_id
    then []
    else s.pending_prior_user_id

unfoldable pub ack_identity : Identity → Identity
unfolding acked_prior
ack_identity s = record s { pending_prior_user_id = acked_prior s; prior_in_flight = [] }

abbrev pub is_epoch : Option ℕ → ℕ → Bool
is_epoch none epoch = false
is_epoch (some e) epoch = e == epoch

unfoldable pub acked_json : Metadata → Bytes
acked_json m =
    if is_epoch m.in_flight_epoch m.epoch && not (is_empty m.in_flight_json)
    then m.in_flight_json
    else m.last_acked_json

unfoldable pub ack_metadata : Metadata → Metadata
unfolding acked_json
ack_metadata m = record m {
  last_acked_json = acked_json m;
  in_flight_json = [];
  in_flight_epoch = none;
}
