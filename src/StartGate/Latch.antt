-- ===== src/StartGate/Latch.antt =====
-- Threads that race to open the gate: each thread does the two atomic operations of `set` in
-- order, and any number of threads are interleaved.
use tombstack_native.Prelude.{
  ℕ, ◌+◌, ◌≡◌, refl, Bool, true, false, not, List, [], ◌∷◌, arith, if◌then◌else◌,
}
use tombstack_native.StartGate.{StartGate, new_gate, arm, request, exchange_open, set_gate, is_set}

-- One atomic operation of some thread.
pub data Atomic : Type 0 where
  requests exchanges : Atomic

-- the gate and the number of threads whose `set` answered true
pub record Race : Type 0 where
  pub gate : StartGate
  pub first_openers : ℕ

tally : Race → StartGate × Bool → Race
tally r (g, answer) = record {
  gate = g;
  first_openers = (if answer then 1 else 0) + r.first_openers;
}

unfoldable pub atomic : Race → Atomic → Race
unfolding tally
atomic r requests = record r { gate = request r.gate }
atomic r exchanges = tally r (exchange_open r.gate)

unfoldable pub interleave : Race → List Atomic → Race
interleave r [] = r
interleave r (a ∷ as') = interleave (atomic r a) as'

abbrev pub has_exchange : List Atomic → Bool
has_exchange [] = false
has_exchange (requests ∷ as') = has_exchange as'
has_exchange (exchanges ∷ as') = true

abbrev pub race_from : StartGate → Race
race_from g = record { gate = g; first_openers = 0 }

interleave_opened :
    (r : Race) (as' : List Atomic)
    → r.gate.opened ≡ true
    → ((interleave r as').gate.opened ≡ true) × ((interleave r as').first_openers ≡ r.first_openers)
unfolding interleave atomic request exchange_open
interleave_opened r [] h = (h, refl)
interleave_opened r (requests ∷ as') h = interleave_opened (atomic r requests) as' h
interleave_opened r (exchanges ∷ as') h =
    ground (arith, interleave_opened (atomic r exchanges) as' refl)

interleave_closed :
    (r : Race) (as' : List Atomic)
    → r.gate.opened ≡ false
    → ((interleave r as').gate.opened ≡ has_exchange as')
      × ((interleave r as').first_openers ≡ (if has_exchange as' then 1 else 0) + r.first_openers)
unfolding interleave atomic request exchange_open
interleave_closed r [] h = ground arith
interleave_closed r (requests ∷ as') h = interleave_closed (atomic r requests) as' h
interleave_closed r (exchanges ∷ as') h =
    ground (arith, interleave_opened (atomic r exchanges) as' refl)

-- From a closed gate, however the threads are interleaved, the gate is open exactly when some
-- thread has done its exchange, and then exactly one thread was told that it opened it.
pub interleave_once :
    (g : StartGate) (as' : List Atomic)
    → is_set g ≡ false
    → (is_set (interleave (race_from g) as').gate ≡ has_exchange as')
      × ((interleave (race_from g) as').first_openers ≡ (if has_exchange as' then 1 else 0))
unfolding is_set
interleave_once g as' h = ground (arith, interleave_closed (race_from g) as' h)

-- A gate that is open stays open, and tells no thread that it opened it.
pub interleave_stays :
    (g : StartGate) (as' : List Atomic)
    → is_set g ≡ true
    → (is_set (interleave (race_from g) as').gate ≡ true)
      × ((interleave (race_from g) as').first_openers ≡ 0)
unfolding is_set
interleave_stays g as' h = interleave_opened (race_from g) as' h

-- At init, `arm` leaves the gate open exactly when the option says so or `set` was called before;
-- and after a `set` no `arm` closes it.
pub arm_remembers :
    (g : StartGate) (auto_start : Bool)
    → (is_set (arm auto_start new_gate) ≡ auto_start)
      × (is_set (arm auto_start (set_gate g).0) ≡ true)
      × ((set_gate (arm auto_start new_gate)).1 ≡ not auto_start)
unfolding is_set arm set_gate
arm_remembers g auto_start = ground arith
