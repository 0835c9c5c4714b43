-- ===== src/Json/Pending/Bounds.antt =====
-- The number of pull requests that are read from one acknowledgement.
use tombstack_native.Prelude.{
  ℕ, ◌-◌, ◌≤◌, inl, inr, Option, none, some, List, [], ◌∷◌, arith, leb, ◌==◌, if◌then◌else◌,
  leb_refuted, Bool-cases, length, Bytes, codes, if-holds,
}
use tombstack_native.Json.Scan.{find_value_start}
use tombstack_native.Json.Upload.{Inside, plain}
use tombstack_native.Json.Pending.{
  PendingPullRequest, max_requests, Move, done, found, goes, move, walk, requests_at, request_of,
  find_pending_requests,
}

abbrev moved :
    ℕ
    → List PendingPullRequest
    → (Inside → ℕ → Option Bytes → List PendingPullRequest)
    → Move
    → List PendingPullRequest
moved room again on m = elim m [
  | done ↦ []
  | found object ↦ request_of object ∷ (if leb room 1 then [] else again)
  | goes next depth' start' ↦ on next depth' start'
]

length-moved :
    (room : ℕ) (again : List PendingPullRequest)
    (on : Inside → ℕ → Option Bytes → List PendingPullRequest) (m : Move)
    → 1 ≤ room
    → (2 ≤ room → length again ≤ room - 1)
    → ((at : Inside) (depth : ℕ) (start : Option Bytes) → length (on at depth start) ≤ room)
    → length (moved room again on m) ≤ room
length-moved room again on done h k l = omega arith
length-moved room again on (found object) h k l = elim (Bool-cases (leb room 1)) [
  | inl e ↦ rw e (omega (arith, h))
  | inr e ↦ rw e (omega (arith, k (leb_refuted room 1 e), leb_refuted room 1 e))
]
length-moved room again on (goes next depth start) h k l = l next depth start

length-walk :
    (room : ℕ) (at : Inside) (depth : ℕ) (start : Option Bytes) (text : Bytes)
    → 1 ≤ room
    → length (walk room at depth start text) ≤ room
unfolding walk
length-walk room at depth start [] h = omega arith
length-walk room at depth start (c ∷ cs) h =
    length-moved room (walk (room - 1) plain 0 none cs)
      (λ at' depth' start'. walk room at' depth' start' cs) (move at depth start c) h
      (λ two. length-walk (room - 1) plain 0 none cs (omega (arith, two)))
      (λ at' depth' start'. length-walk room at' depth' start' cs h)

length-requests_at : (at : Option Bytes) → length (requests_at at) ≤ max_requests
unfolding requests_at
length-requests_at none = omega arith
length-requests_at (some []) = omega arith
length-requests_at (some (c ∷ cs)) =
    if-holds (λ rs. length rs ≤ max_requests) (c == b'[') {y = []}
      (length-walk max_requests plain 0 none (c ∷ cs) (omega arith)) (omega arith)

-- At most 32 pull requests are read from one acknowledgement, whatever its bytes are.
pub length-find_pending_requests :
    (response_body : Bytes) → length (find_pending_requests response_body) ≤ max_requests
unfolding find_pending_requests
length-find_pending_requests body =
    length-requests_at (find_value_start body (codes "pendingRequests"))
