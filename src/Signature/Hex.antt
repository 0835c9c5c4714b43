-- ===== src/Signature/Hex.antt =====
-- The form of what src/signature.cpp prints.
use tombstack_native.Prelude.{
  ℕ, zero, suc, ◌*◌, ◌/◌, ◌%◌, ◌≤◌, ◌<◌, ◌≡◌, refl, ◌⊎◌, inl, inr, List, [], ◌∷◌, arith, ltb,
  ltb→lt, ltb_refuted, tests, Bool-cases, length, take, All, length-take, Bytes, ◌&◌,
}
use tombstack_native.Payloads.Limits
use tombstack_native.Json.Utf8.{utf8_safe_truncate}
use tombstack_native.Json.Utf8.Bounds.{truncate_stays}
use tombstack_native.Signature.Sha256.{digest, sha256_raw}
use tombstack_native.Signature.{
  hex_char, to_hex, sha256_hex, compute_crash_signature, crash_material, signature_hex_length,
}

abbrev pub IsHex : ℕ → Type 0
IsHex c = ((b'0' ≤ c) × (c ≤ b'9')) ⊎ ((b'a' ≤ c) × (c ≤ b'f'))

pub hex_char-IsHex : (n : ℕ) → n < 16 → IsHex (hex_char n)
unfolding hex_char
hex_char-IsHex n h = elim (Bool-cases (ltb n 10)) [
  | inl e ↦ rw e (inl (omega (tests, ltb→lt n 10 e)))
  | inr e ↦ rw e (inr (omega (tests, ltb_refuted n 10 e)))
]

pub to_hex-IsHex : (bytes : Bytes) → All IsHex (to_hex bytes)
unfolding to_hex
to_hex-IsHex [] = tt
to_hex-IsHex (b ∷ bytes) =
    hex_char-IsHex (b / 16 % 16) (omega arith)
    & hex_char-IsHex (b % 16) (omega arith)
    & to_hex-IsHex bytes

length-to_hex : (bytes : Bytes) → length (to_hex bytes) ≡ 2 * length bytes
unfolding to_hex
length-to_hex [] = refl
length-to_hex (b ∷ bytes) = omega (arith, length-to_hex bytes)

length-sha256_raw : (bytes : Bytes) → length (sha256_raw bytes) ≡ 32
unfolding sha256_raw digest
length-sha256_raw bytes = refl

take-All {ℓ κ} : {A : Type ℓ} (P : A → Type κ) (n : ℕ) (xs : List A) → All P xs → All P (take n xs)
take-All P zero xs h = tt
take-All P (suc n) [] h = tt
take-All P (suc n) (x ∷ xs) h = (h.0, take-All P n xs h.1)

IsHex-prefix :
    (bytes : Bytes)
    → length bytes ≡ 32
    → All IsHex (take signature_hex_length (to_hex bytes))
      × (length (take signature_hex_length (to_hex bytes)) ≡ 32)
IsHex-prefix bytes h = (
  take-All IsHex signature_hex_length (to_hex bytes) (to_hex-IsHex bytes),
  omega (arith, h, length-to_hex bytes, length-take signature_hex_length (to_hex bytes)),
)

-- Whatever the hint and the trace are, the signature of a crash is 32 lowercase hexadecimal digits.
pub compute_crash_signature-IsHex :
    (stack_hint stack_trace : Bytes)
    → All IsHex (compute_crash_signature stack_hint stack_trace)
      × (length (compute_crash_signature stack_hint stack_trace) ≡ 32)
unfolding compute_crash_signature sha256_hex
compute_crash_signature-IsHex hint trace =
    IsHex-prefix (sha256_raw (crash_material hint trace))
      (length-sha256_raw (crash_material hint trace))

-- So the clamp of the payload leaves it whole.
pub truncate-compute_crash_signature :
    (stack_hint stack_trace : Bytes)
    → utf8_safe_truncate (compute_crash_signature stack_hint stack_trace) Limits.signature
      ≡ compute_crash_signature stack_hint stack_trace
truncate-compute_crash_signature hint trace =
    truncate_stays (compute_crash_signature hint trace) Limits.signature
      (omega (arith, (compute_crash_signature-IsHex hint trace).1))
