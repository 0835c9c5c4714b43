-- ===== src/Signature.antt =====
-- src/signature.h and src/signature.cpp: the signature of a crash and the header that signs a body.
pub mod Sha256
pub mod Hex
mod Tests
use Prim.Native.Nat.{bit_xor}
use tombstack_native.Prelude.{
  ℕ, zero, suc, ◌+◌, ◌-◌, ◌/◌, ◌%◌, Bool, ◌||◌, List, [], ◌∷◌, ◌++◌, map, ltb, ◌==◌, if◌then◌else◌,
  length, is_empty, take, replicate, Bytes, codes, starts_with,
}
use tombstack_native.Prelude.Decimal.{int_text}
use tombstack_native.Prelude.Int.{ℤ}
use tombstack_native.Signature.Sha256.{sha256_raw}

-- of `hex_digits`; the mask 0xF is `% 16`
unfoldable pub hex_char : ℕ → ℕ
hex_char n = if ltb n 10 then b'0' + n else b'a' + (n - 10)

unfoldable pub to_hex : Bytes → Bytes
unfolding hex_char
to_hex [] = []
to_hex (b ∷ bytes) = hex_char (b / 16 % 16) ∷ hex_char (b % 16) ∷ to_hex bytes

unfoldable pub sha256_hex : Bytes → Bytes
unfolding to_hex sha256_raw
sha256_hex bytes = to_hex (sha256_raw bytes)

abbrev pub block_size : ℕ
block_size = 64

-- the key, hashed where it is too long, and the zeros of the block behind it
pub key_block : Bytes → Bytes
key_block key =
    let used = if ltb block_size (length key) then sha256_raw key else key in
    used ++ replicate (block_size - length used) 0

unfoldable pub hmac_sha256_hex : Bytes → Bytes → Bytes
unfolding to_hex key_block
hmac_sha256_hex key message =
    let inner = map (λ byte. bit_xor byte 0x36) (key_block key) ++ message in
    let outer = map (λ byte. bit_xor byte 0x5C) (key_block key) ++ sha256_raw inner in
    to_hex (sha256_raw outer)

unfoldable pub build_ingest_signature_header : Bytes → Bytes → ℤ → Bytes
unfolding hmac_sha256_hex
build_ingest_signature_header ingest_key body unix_seconds =
    let t = int_text unix_seconds in
    codes "t=" ++ (t ++ (codes ",v1=" ++ hmac_sha256_hex ingest_key (t ++ (b'.' ∷ body))))

is_blank : ℕ → Bool
is_blank c = c == b' ' || c == 9 || c == 13

trim_front : Bytes → Bytes
unfolding is_blank
trim_front [] = []
trim_front (c ∷ cs) = if is_blank c then trim_front cs else c ∷ cs

-- a blank with nothing kept behind it goes
keep_unless_blank : ℕ → Bytes → Bytes
unfolding is_blank
keep_unless_blank c [] = if is_blank c then [] else c ∷ []
keep_unless_blank c (e ∷ kept) = c ∷ e ∷ kept

trim_back : Bytes → Bytes
unfolding keep_unless_blank
trim_back [] = []
trim_back (c ∷ cs) = keep_unless_blank c (trim_back cs)

-- the frame in front of ` (at `, where its line has one
cut_at : Bytes → Bytes
cut_at [] = []
cut_at (c ∷ cs) = if starts_with (codes " (at ") (c ∷ cs) then [] else c ∷ cut_at cs

begin_line : ℕ → List Bytes → List Bytes
begin_line c [] = (c ∷ []) ∷ []
begin_line c (line ∷ lines) = (c ∷ line) ∷ lines

-- The lines that the loop meets: a line break at the end starts no line.
lines : Bytes → List Bytes
unfolding begin_line
lines [] = []
lines (c ∷ cs) = if c == 10 then [] ∷ lines cs else begin_line c (lines cs)

frame_of : Bytes → Bytes
unfolding trim_front trim_back cut_at
frame_of line = trim_back (trim_front (cut_at line))

abbrev pub signature_frames : ℕ
signature_frames = 8

abbrev pub signature_hex_length : ℕ
signature_hex_length = 32

-- the loop, with the frames that are left to take
frame_loop : ℕ → List Bytes → Bytes
unfolding frame_of
frame_loop zero ls = []
frame_loop (suc left) [] = []
frame_loop (suc left) (line ∷ ls) =
    let rest = frame_loop left ls in
    let same = frame_loop (suc left) ls in
    if is_empty (frame_of line) then same else (10 ∷ frame_of line) ++ rest

-- what is hashed: the hint, and the frames on lines of their own
pub crash_material : Bytes → Bytes → Bytes
unfolding lines frame_loop
crash_material stack_hint stack_trace =
    stack_hint ++ frame_loop signature_frames (lines stack_trace)

unfoldable pub compute_crash_signature : Bytes → Bytes → Bytes
unfolding crash_material
compute_crash_signature stack_hint stack_trace =
    take signature_hex_length (sha256_hex (crash_material stack_hint stack_trace))
