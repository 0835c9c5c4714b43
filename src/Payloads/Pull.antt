-- ===== src/Payloads/Pull.antt =====
-- Log pulls: `build_pull_request_json`, `build_pull_fulfill_json` and `pull_request_targets_client`
-- of src/payloads.cpp.
use tombstack_native.Prelude.{
  Bool, false, not, ◌&&◌, List, [], ◌∷◌, ◌++◌, if◌then◌else◌, is_empty, Bytes, codes, str_eq,
}
use tombstack_native.Prelude.Int.{ℤ}
use tombstack_native.Json.Writer.{JsonWriter, int_field, document}
use tombstack_native.Payloads.{clamped_field, optional_field}
use tombstack_native.Payloads.Limits

unfoldable pub build_pull_request_json : Bytes → Bytes → Bytes → Bytes
build_pull_request_json target_type target_value reason = document (
    clamped_field (codes "targetType") target_type Limits.pull_target_type
    ∷ clamped_field (codes "targetValue") target_value Limits.pull_target_value
    ∷ clamped_field (codes "reason") reason Limits.pull_reason
    ∷ [])

abbrev pub nonce_fields : Bytes → ℤ → JsonWriter → JsonWriter
nonce_fields nonce nonce_expiry w =
    if not (is_empty nonce)
    then int_field (codes "nonceExpiry") nonce_expiry
        (clamped_field (codes "nonce") nonce Limits.pull_nonce w)
    else w

abbrev pub identity_fields : Bytes → Bytes → Bytes → Bytes → List (JsonWriter → JsonWriter)
identity_fields user_id session_id match_id server_id =
    optional_field (codes "userId") user_id Limits.user_id
    ∷ optional_field (codes "sessionId") session_id Limits.session_id
    ∷ optional_field (codes "matchId") match_id Limits.match_id
    ∷ optional_field (codes "serverId") server_id Limits.server_id
    ∷ []

unfoldable pub build_pull_fulfill_json : Bytes → Bytes → Bytes → Bytes → Bytes → ℤ → Bytes
build_pull_fulfill_json user_id session_id match_id server_id nonce nonce_expiry = document (
    identity_fields user_id session_id match_id server_id ++ (nonce_fields nonce nonce_expiry ∷ []))

unfoldable pub pull_request_targets_client : Bytes → Bytes → Bytes → Bytes → Bytes → Bytes → Bool
pull_request_targets_client target_type target_value user_id session_id match_id server_id =
    if is_empty target_value
    then false
    else if str_eq target_type (codes "userId")
    then not (is_empty user_id) && str_eq user_id target_value
    else if str_eq target_type (codes "sessionId")
    then not (is_empty session_id) && str_eq session_id target_value
    else if str_eq target_type (codes "matchId")
    then not (is_empty match_id) && str_eq match_id target_value
    else if str_eq target_type (codes "server")
    then not (is_empty server_id) && str_eq server_id target_value
    else false
