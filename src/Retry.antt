-- ===== src/Retry.antt =====
-- src/retry_after.h and src/retry_after.cpp: the Retry-After header and the retry delay.
-- A header value is its list of bytes; the pair `begin`, `end` of the loop is the part of the
-- list that is left. `long` and `int` are ℤ: a value has at most nine digits, and a delay is at
-- most 300, so that no operation of the file overflows.
pub mod Header
pub mod Delay
mod Tests
use tombstack_native.Prelude.{
  ℕ, suc, ◌+◌, ◌-◌, ◌*◌, ◌^◌, Bool, true, false, not, ◌&&◌, ◌||◌, List, [], ◌∷◌, Bytes, length,
  is_empty, ltb, leb, ◌==◌, if◌then◌else◌,
}
use tombstack_native.Prelude.Int.{ℤ, pos, negsuc, pos_part, ltb_ℤ}

abbrev pub max_retry_after_seconds : ℕ
max_retry_after_seconds = 300

unfoldable pub is_ows : ℕ → Bool
is_ows c = c == b' ' || c == b'\t' || c == b'\r' || c == b'\n'

-- `while (begin < end && is_ows(value[begin])) ++begin;`
pub skip_front : Bytes → Bytes
skip_front [] = []
skip_front (c ∷ cs) = if is_ows c then skip_front cs else c ∷ cs

-- what the loop at the end leaves of `c` in front of what it leaves of the rest
pub keep_unless_ows : ℕ → Bytes → Bytes
keep_unless_ows c [] = if is_ows c then [] else c ∷ []
keep_unless_ows c (d ∷ ds) = c ∷ d ∷ ds

-- `while (end > begin && is_ows(value[end - 1])) --end;`
pub skip_back : Bytes → Bytes
unfolding keep_unless_ows
skip_back [] = []
skip_back (c ∷ cs) = keep_unless_ows c (skip_back cs)

-- the loop over the digits, from the value read so far
pub read_digits : ℕ → Bytes → ℤ
read_digits out [] = pos out
read_digits out (c ∷ cs) =
    let rest = read_digits (out * 10 + (c - b'0')) cs in
    if ltb c b'0' || ltb b'9' c then negsuc 0 else rest

pub parse_trimmed : Bytes → ℤ
unfolding read_digits
parse_trimmed v = if is_empty v || ltb 9 (length v) then negsuc 0 else read_digits 0 v

unfoldable pub parse_retry_after_seconds : Bytes → ℤ
unfolding is_ows skip_front skip_back parse_trimmed
parse_retry_after_seconds value = parse_trimmed (skip_back (skip_front value))

-- The two tests on `attempt`.
pub clamp_attempt : ℤ → ℕ
clamp_attempt attempt =
    if ltb_ℤ attempt (pos 1) then 1 else if ltb_ℤ (pos 5) attempt then 5 else pos_part attempt

-- `2L << (attempt - 1)`
pub backoff : ℕ → ℕ
backoff attempt = 2 * 2 ^ (attempt - 1)

pub raise_to : ℤ → ℕ → ℕ
raise_to retry_after delay = if ltb_ℤ (pos delay) retry_after then pos_part retry_after else delay

unfoldable pub retry_delay : ℤ → ℤ → ℕ
unfolding clamp_attempt backoff raise_to
retry_delay attempt retry_after =
    let delay = raise_to retry_after (backoff (clamp_attempt attempt)) in
    if ltb max_retry_after_seconds delay then max_retry_after_seconds else delay
