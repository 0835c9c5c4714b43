-- ===== src/DeviceIdentity/Valid.antt =====
-- Every derived id passes the test for stored ids, and the hash of the pieces is that of the whole.
use tombstack_native.Prelude.{
  ℕ, zero, suc, ◌*◌, ◌/◌, ◌%◌, ◌^◌, ◌<◌, ◌≡◌, refl, sym, ap, true, false, [], ◌∷◌, ◌++◌, arith,
  length, is_empty, Bytes, codes, str_eq,
}
use tombstack_native.DeviceIdentity.{
  fnv_offset_basis, id_prefix, fnv1a64_append, fnv1a64, hex_char, hex_digits, source_hash, derive,
  is_id_char, all_id_chars, is_valid,
}

hex_char-is_id_char : (n : ℕ) → n < 16 → is_id_char (hex_char n) ≡ true
unfolding hex_char is_id_char
hex_char-is_id_char n h = ground arith

hex_digits-all_id_chars : (left hash : ℕ) → all_id_chars (hex_digits left hash) ≡ true
unfolding hex_digits all_id_chars
hex_digits-all_id_chars zero hash = refl
hex_digits-all_id_chars (suc left) hash =
    rw (hex_char-is_id_char (hash / 2 ^ (4 * left) % 16) (omega arith))
      (hex_digits-all_id_chars left hash)

length-hex_digits : (left hash : ℕ) → length (hex_digits left hash) ≡ left
unfolding hex_digits
length-hex_digits zero hash = refl
length-hex_digits (suc left) hash = omega (arith, length-hex_digits left hash)

pub derive-all_id_chars :
    (salt machine_source : Bytes)
    → (all_id_chars (derive salt machine_source) ≡ true)
      × (is_empty (derive salt machine_source) ≡ false)
unfolding derive all_id_chars
derive-all_id_chars salt machine_source =
    (hex_digits-all_id_chars 16 (source_hash salt machine_source), refl)

fnv1a64_append-append :
    (a b : Bytes) (hash : ℕ)
    → fnv1a64_append hash (a ++ b) ≡ fnv1a64_append (fnv1a64_append hash a) b
unfolding fnv1a64_append
fnv1a64_append-append [] b hash = refl
fnv1a64_append-append (c ∷ a) b hash = fnv1a64_append-append a b _

-- Whatever the salt and the machine's identity are, the derived id is 20 bytes long, passes
-- `is_valid`, and its digits are those of the FNV-1a hash of the salt, a bar and the identity.
pub derive-is_valid :
    (salt machine_source : Bytes)
    → (is_valid (derive salt machine_source) ≡ true)
      × (length (derive salt machine_source) ≡ 20)
      × (derive salt machine_source
          ≡ id_prefix ++ hex_digits 16 (fnv1a64 (salt ++ (codes "|" ++ machine_source))))
unfolding derive is_valid source_hash fnv1a64 str_eq
derive-is_valid salt machine_source =
    let same : source_hash salt machine_source ≡ fnv1a64 (salt ++ (codes "|" ++ machine_source)) =
      sym (fnv1a64_append-append salt (codes "|" ++ machine_source) fnv_offset_basis) in
    (
      hex_digits-all_id_chars 16 (source_hash salt machine_source),
      refl,
      ap (λ h. id_prefix ++ hex_digits 16 h) same,
    )
