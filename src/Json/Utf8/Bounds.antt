-- ===== src/Json/Utf8/Bounds.antt =====
-- The length of what `utf8_safe_truncate` keeps, of any bytes.
use tombstack_native.Prelude.{
  take_then, ℕ, zero, suc, ◌≤◌, ◌≡◌, inl, inr, arith, leb, leb→le, Bool-cases, length, get_or,
  length-take, Bytes,
}
use tombstack_native.Json.Utf8.{is_continuation, back_off, utf8_safe_truncate}

back_off_le : (value : Bytes) (n : ℕ) → back_off value n ≤ n
unfolding back_off
back_off_le value zero = omega arith
back_off_le value (suc n) = elim (Bool-cases (is_continuation (get_or value (suc n) 0))) [
  | inl e ↦ rw e (omega (arith, back_off_le value n))
  | inr e ↦ rw e (omega arith)
]

pub truncate_short : (value : Bytes) (n : ℕ) → length (utf8_safe_truncate value n) ≤ n
unfolding utf8_safe_truncate
truncate_short value n = elim (Bool-cases (leb (length value) n)) [
  | inl e ↦ rw e (leb→le (length value) n e)
  | inr e ↦ rw e (omega (arith, back_off_le value n, length-take (back_off value n) value))
]

pub truncate_stays : (value : Bytes) (n : ℕ) → length value ≤ n → utf8_safe_truncate value n ≡ value
unfolding utf8_safe_truncate
truncate_stays value n h = take_then (leb (length value) n) _ _ (ground (arith, h))
