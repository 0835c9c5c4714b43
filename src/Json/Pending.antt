-- ===== src/Json/Pending.antt =====
-- `find_pending_requests` of src/json_scan.cpp: the pull requests of a heartbeat's acknowledgement.
pub mod Bounds
use tombstack_native.Prelude.{
  ℕ, zero, suc, ◌+◌, ◌-◌, ◌&&◌, Option, none, some, List, [], ◌∷◌, ◌++◌, leb, ◌==◌, if◌then◌else◌,
  value_or, Bytes, codes,
}
use tombstack_native.Prelude.Int.{ℤ, pos}
use tombstack_native.Json.Scan.{find_value_start, find_string_field}
use tombstack_native.Json.Scan.Ints.{find_int_field}
use tombstack_native.Json.Upload.{Inside, plain, quoted, escaped}

pub record PendingPullRequest : Type 0 where
  pub request_id : Bytes
  pub target_type : Bytes
  pub target_value : Bytes
  pub fulfill_nonce : Bytes
  pub nonce_expiry : ℤ

abbrev pub max_requests : ℕ
max_requests = 32

unfoldable pub request_of : Bytes → PendingPullRequest
request_of object = record {
  request_id = value_or (find_string_field object (codes "requestId")) [];
  target_type = value_or (find_string_field object (codes "targetType")) [];
  target_value = value_or (find_string_field object (codes "targetValue")) [];
  fulfill_nonce = value_or (find_string_field object (codes "fulfillNonce")) [];
  nonce_expiry = value_or (find_int_field object (codes "nonceExpiry")) (pos 0);
}

-- The text from `object_start` on; `none` is `npos`.
abbrev push_back : Option Bytes → ℕ → Option Bytes
push_back none c = none
push_back (some text) c = some (text ++ c ∷ [])

-- One byte of the loop: its end, a whole object, or how it goes on.
pub data Move : Type 0 where
  done : Move
  found : Bytes → Move
  goes : Inside → ℕ → Option Bytes → Move

closed : ℕ → Option Bytes → Move
closed zero none = goes plain 0 none
closed zero (some object) = found object
closed (suc depth) start = goes plain (suc depth) start

-- a `}`
close_brace : ℕ → Option Bytes → Move
unfolding closed
close_brace zero start = goes plain zero (push_back start b'}')
close_brace (suc depth) start = closed depth (push_back start b'}')

pub move : Inside → ℕ → Option Bytes → ℕ → Move
unfolding close_brace
move escaped depth start c = goes quoted depth (push_back start c)
move quoted depth start c =
    if c == b'\\'
    then goes escaped depth (push_back start c)
    else if c == b'"'
    then goes plain depth (push_back start c)
    else goes quoted depth (push_back start c)
move plain depth start c =
    if c == b'"'
    then goes quoted depth (push_back start c)
    else if c == b'{'
    then goes plain (depth + 1) (push_back (if depth == 0 then some [] else start) c)
    else if c == b'}'
    then close_brace depth start
    else if c == b']' && depth == 0
    then done
    else goes plain depth (push_back start c)

-- The loop, with room for so many requests.
pub walk : ℕ → Inside → ℕ → Option Bytes → Bytes → List PendingPullRequest
unfolding move
walk room at depth start [] = []
walk room at depth start (c ∷ cs) = elim (move at depth start c) [
  | done ↦ []
  | found object ↦
      let rest = walk (room - 1) plain 0 none cs in
      request_of object ∷ (if leb room 1 then [] else rest)
  | goes next depth' start' ↦ walk room next depth' start' cs
]

requests_at : Option Bytes → List PendingPullRequest
unfolding walk
requests_at none = []
requests_at (some []) = []
requests_at (some (c ∷ cs)) = if c == b'[' then walk max_requests plain 0 none (c ∷ cs) else []

unfoldable pub find_pending_requests : Bytes → List PendingPullRequest
unfolding requests_at
find_pending_requests response_body =
    requests_at (find_value_start response_body (codes "pendingRequests"))
