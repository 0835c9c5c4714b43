-- ===== src/DeviceIdentity.antt =====
-- src/device_identity.h and src/device_identity.cpp. The hash is 64 bits wide: its wrap-around is
-- written out.
pub mod Valid
mod Tests
use Prim.Native.Nat.{bit_xor}
use tombstack_native.Prelude.{
  take_else, take_then, ℕ, zero, suc, ◌+◌, ◌-◌, ◌*◌, ◌/◌, ◌%◌, ◌^◌, ◌≤◌, ◌<◌, min, max, ◌≡◌, refl,
  sym, ap, ◌∙◌, subst, ◌≢◌, ◌↔◌, ◌⊎◌, inl, inr, Bool, true, false, not, ◌&&◌, ◌||◌, Option, none,
  some, List, [], ◌∷◌, ◌++◌, map, append-nil, append_assoc, arith, ltb, leb, ◌==◌, if◌then◌else◌,
  ltb→lt, lt→ltb, leb→le, ltb_refuted, leb_refuted, ==_iff, tests, Bool-cases, Option-cases,
  value_or, &&-eq-true, length, is_empty, get_elem?, set, get_or, take, drop, replicate, pop_front,
  All, length-append, length-set, length-replicate, length-take, length-drop, length-map,
  take-append-drop, take-length-append, drop-length-append, All-append, All-append_left,
  All-append_right, Bytes, codes, str_eq, str_eq_iff, str_eq_refl, starts_with, ◌&◌, if-ap_else,
  if-holds, if-cases,
}

abbrev pub fnv_offset_basis : ℕ
fnv_offset_basis = 14695981039346656037

abbrev pub fnv_prime : ℕ
fnv_prime = 1099511628211

abbrev pub id_prefix : Bytes
id_prefix = codes "dev_"

abbrev pub max_id_length : ℕ
max_id_length = 40

pub fnv1a64_append : ℕ → Bytes → ℕ
fnv1a64_append hash [] = hash
fnv1a64_append hash (c ∷ cs) = fnv1a64_append (bit_xor hash c * fnv_prime % 2 ^ 64) cs

unfoldable pub fnv1a64 : Bytes → ℕ
unfolding fnv1a64_append
fnv1a64 bytes = fnv1a64_append fnv_offset_basis bytes

-- the digit of four bits, of `digits`
pub hex_char : ℕ → ℕ
hex_char n = if ltb n 10 then b'0' + n else b'a' + (n - 10)

-- the loop of `derive`, for the digits left
pub hex_digits : ℕ → ℕ → Bytes
unfolding hex_char
hex_digits zero hash = []
hex_digits (suc left) hash = hex_char (hash / 2 ^ (4 * left) % 16) ∷ hex_digits left hash

-- the three calls of `fnv1a64_append` in `derive`
pub source_hash : Bytes → Bytes → ℕ
unfolding fnv1a64_append
source_hash salt machine_source =
    fnv1a64_append (fnv1a64_append (fnv1a64_append fnv_offset_basis salt) (codes "|"))
      machine_source

unfoldable pub derive : Bytes → Bytes → Bytes
unfolding source_hash hex_digits
derive salt machine_source = id_prefix ++ hex_digits 16 (source_hash salt machine_source)

unfoldable pub is_id_char : ℕ → Bool
is_id_char c = (leb b'a' c && leb c b'z') || (leb b'0' c && leb c b'9') || c == b'_' || c == b'-'

unfoldable pub all_id_chars : Bytes → Bool
unfolding is_id_char
all_id_chars [] = true
all_id_chars (c ∷ cs) = is_id_char c && all_id_chars cs

unfoldable pub is_valid : Bytes → Bool
unfolding all_id_chars
is_valid id =
    if leb (length id) (length id_prefix) || ltb max_id_length (length id)
    then false
    else if not (str_eq (take (length id_prefix) id) id_prefix)
    then false
    else all_id_chars (drop (length id_prefix) id)
