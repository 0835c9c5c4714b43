-- ===== src/Json/Utf8.antt =====
-- `utf8_safe_truncate` of src/json_writer.cpp.
pub mod Bounds
pub mod Valid
use Prim.Native.Nat.{bit_and}
use tombstack_native.Prelude.{
  ℕ, zero, suc, Bool, leb, ◌==◌, if◌then◌else◌, length, get_or, take, Bytes,
}

-- `(static_cast<unsigned char>(c) & 0xC0U) == 0x80U`
unfoldable pub is_continuation : ℕ → Bool
is_continuation c = bit_and c 0xC0 == 0x80

-- the loop that moves `end` down
pub back_off : Bytes → ℕ → ℕ
back_off value zero = zero
back_off value (suc end) =
    let rest = back_off value end in
    if is_continuation (get_or value (suc end) 0) then rest else suc end

unfoldable pub utf8_safe_truncate : Bytes → ℕ → Bytes
unfolding back_off is_continuation
utf8_safe_truncate value max_bytes =
    if leb (length value) max_bytes then value else take (back_off value max_bytes) value
