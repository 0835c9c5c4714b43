-- ===== src/StartGate.antt =====
-- src/start_gate.h: the latch that holds heartbeats and batches until the session starts. Each
-- operation is one step; `set` is two atomic operations, whose interleavings are in the child.
pub mod Latch
mod Tests
use tombstack_native.Prelude.{Bool, true, false, not, ◌||◌}

pub record StartGate : Type 0 where
  pub opened : Bool
  pub requested : Bool

abbrev pub new_gate : StartGate
new_gate = record { opened = true; requested = false }

-- `open_.store(auto_start || requested_.load())`
unfoldable pub arm : Bool → StartGate → StartGate
arm auto_start g = record g { opened = auto_start || g.requested }

-- the two statements of `set`; `exchange` answers with the old value
unfoldable pub request : StartGate → StartGate
request g = record g { requested = true }

unfoldable pub exchange_open : StartGate → StartGate × Bool
exchange_open g = (record g { opened = true }, not g.opened)

unfoldable pub set_gate : StartGate → StartGate × Bool
unfolding request exchange_open
set_gate g = exchange_open (request g)

unfoldable pub is_set : StartGate → Bool
is_set g = g.opened
