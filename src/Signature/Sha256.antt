-- ===== src/Signature/Sha256.antt =====
-- SHA-256 of src/signature.cpp. A word is 32 bits wide: its wrap-around is written out.
use Prim.Native.Nat.{bit_and, bit_or, bit_xor}
use tombstack_native.Prelude.{
  ℕ, zero, suc, ◌+◌, ◌-◌, ◌*◌, ◌/◌, ◌%◌, ◌^◌, List, [], ◌∷◌, ◌++◌, ltb, if◌then◌else◌, length,
  get_or, take, drop, replicate, Bytes,
}

abbrev pub k : List ℕ
k =
    0x428a2f98 ∷ 0x71374491 ∷ 0xb5c0fbcf ∷ 0xe9b5dba5 ∷ 0x3956c25b ∷ 0x59f111f1 ∷ 0x923f82a4
    ∷ 0xab1c5ed5 ∷ 0xd807aa98 ∷ 0x12835b01 ∷ 0x243185be ∷ 0x550c7dc3 ∷ 0x72be5d74 ∷ 0x80deb1fe
    ∷ 0x9bdc06a7 ∷ 0xc19bf174 ∷ 0xe49b69c1 ∷ 0xefbe4786 ∷ 0x0fc19dc6 ∷ 0x240ca1cc ∷ 0x2de92c6f
    ∷ 0x4a7484aa ∷ 0x5cb0a9dc ∷ 0x76f988da ∷ 0x983e5152 ∷ 0xa831c66d ∷ 0xb00327c8 ∷ 0xbf597fc7
    ∷ 0xc6e00bf3 ∷ 0xd5a79147 ∷ 0x06ca6351 ∷ 0x14292967 ∷ 0x27b70a85 ∷ 0x2e1b2138 ∷ 0x4d2c6dfc
    ∷ 0x53380d13 ∷ 0x650a7354 ∷ 0x766a0abb ∷ 0x81c2c92e ∷ 0x92722c85 ∷ 0xa2bfe8a1 ∷ 0xa81a664b
    ∷ 0xc24b8b70 ∷ 0xc76c51a3 ∷ 0xd192e819 ∷ 0xd6990624 ∷ 0xf40e3585 ∷ 0x106aa070 ∷ 0x19a4c116
    ∷ 0x1e376c08 ∷ 0x2748774c ∷ 0x34b0bcb5 ∷ 0x391c0cb3 ∷ 0x4ed8aa4a ∷ 0x5b9cca4f ∷ 0x682e6ff3
    ∷ 0x748f82ee ∷ 0x78a5636f ∷ 0x84c87814 ∷ 0x8cc70208 ∷ 0x90befffa ∷ 0xa4506ceb ∷ 0xbef9a3f7
    ∷ 0xc67178f2 ∷ []

abbrev pub word_size : ℕ
word_size = 2 ^ 32

-- `x >> n` and `x << n`
abbrev pub shift_right : ℕ → ℕ → ℕ
shift_right x n = x / 2 ^ n

abbrev pub shift_left : ℕ → ℕ → ℕ
shift_left x n = x * 2 ^ n % word_size

unfoldable pub rotr : ℕ → ℕ → ℕ
rotr x n = bit_or (shift_right x n) (shift_left x (32 - n))

pub record Sha256State : Type 0 where
  pub a : ℕ
  pub b : ℕ
  pub c : ℕ
  pub d : ℕ
  pub e : ℕ
  pub f : ℕ
  pub g : ℕ
  pub hh : ℕ

abbrev pub initial : Sha256State
initial = record {
  a = 0x6a09e667;
  b = 0xbb67ae85;
  c = 0x3c6ef372;
  d = 0xa54ff53a;
  e = 0x510e527f;
  f = 0x9b05688c;
  g = 0x1f83d9ab;
  hh = 0x5be0cd19;
}

-- the 16 big-endian words of a block
unfoldable pub block_words : ℕ → Bytes → List ℕ
block_words zero block = []
block_words (suc n) block =
    bit_or (shift_left (get_or block 0 0) 24) (
      bit_or (shift_left (get_or block 1 0) 16)
        (bit_or (shift_left (get_or block 2 0) 8) (get_or block 3 0)))
    ∷ block_words n (drop 4 block)

small_sigma : ℕ → ℕ → ℕ → ℕ → ℕ
unfolding rotr
small_sigma x m n s = bit_xor (bit_xor (rotr x m) (rotr x n)) (shift_right x s)

-- The message schedule, with the latest word at the head.
extend : ℕ → List ℕ → List ℕ
unfolding small_sigma
extend zero w = w
extend (suc n) w = extend n (
    (get_or w 15 0
        + small_sigma (get_or w 14 0) 7 18 3
        + get_or w 6 0
        + small_sigma (get_or w 1 0) 17 19 10)
      % word_size
    ∷ w)

reverse_onto : List ℕ → List ℕ → List ℕ
reverse_onto [] out = out
reverse_onto (x ∷ xs) out = reverse_onto xs (x ∷ out)

-- the 64 words of `w`, in order
schedule : Bytes → List ℕ
unfolding block_words extend reverse_onto
schedule block = reverse_onto (extend 48 (reverse_onto (block_words 16 block) [])) []

big_sigma : ℕ → ℕ → ℕ → ℕ → ℕ
unfolding rotr
big_sigma x m n o = bit_xor (bit_xor (rotr x m) (rotr x n)) (rotr x o)

-- one turn of the loop, with the constant and the word of the turn
round : ℕ → ℕ → Sha256State → Sha256State
unfolding big_sigma
round k_i w_i s =
    let ch = bit_xor (bit_and s.e s.f) (bit_and (word_size - 1 - s.e) s.g) in
    let temp1 = (s.hh + big_sigma s.e 6 11 25 + ch + k_i + w_i) % word_size in
    let maj = bit_xor (bit_xor (bit_and s.a s.b) (bit_and s.a s.c)) (bit_and s.b s.c) in
    let temp2 = (big_sigma s.a 2 13 22 + maj) % word_size in
    record {
      a = (temp1 + temp2) % word_size;
      b = s.a;
      c = s.b;
      d = s.c;
      e = (s.d + temp1) % word_size;
      f = s.e;
      g = s.f;
      hh = s.g;
    }

rounds : List ℕ → List ℕ → Sha256State → Sha256State
unfolding round
rounds [] ws s = s
rounds (k_i ∷ ks) [] s = s
rounds (k_i ∷ ks) (w_i ∷ ws) s = rounds ks ws (round k_i w_i s)

add_states : Sha256State → Sha256State → Sha256State
add_states s t = record {
  a = (s.a + t.a) % word_size;
  b = (s.b + t.b) % word_size;
  c = (s.c + t.c) % word_size;
  d = (s.d + t.d) % word_size;
  e = (s.e + t.e) % word_size;
  f = (s.f + t.f) % word_size;
  g = (s.g + t.g) % word_size;
  hh = (s.hh + t.hh) % word_size;
}

pub process_block : Bytes → Sha256State → Sha256State
unfolding schedule rounds add_states
process_block block s = add_states s (rounds k (schedule block) s)

-- So many blocks of 64 bytes, one after the other.
process_blocks : ℕ → Bytes → Sha256State → Sha256State
unfolding process_block
process_blocks zero bytes s = s
process_blocks (suc n) bytes s = process_blocks n (drop 64 bytes) (process_block (take 64 bytes) s)

-- eight bytes, big-endian
length_bytes : ℕ → ℕ → Bytes
length_bytes zero bits = []
length_bytes (suc n) bits = bits / 2 ^ (8 * n) % 256 ∷ length_bytes n bits

-- The last block or two: the rest of the data, 0x80, zeros and the length in bits.
pub tail_blocks : ℕ → ℕ
tail_blocks remainder = if ltb 64 (remainder + 1 + 8) then 2 else 1

pub padded_tail : Bytes → ℕ → Bytes
unfolding length_bytes tail_blocks
padded_tail rest data_size =
    rest
    ++ (0x80
        ∷ (replicate (tail_blocks (length rest) * 64 - 9 - length rest) 0
            ++ length_bytes 8 (data_size * 8 % 2 ^ 64)))

-- big-endian; the mask 0xFF is `% 256`
word_bytes : ℕ → Bytes
word_bytes x =
    shift_right x 24 % 256 ∷ shift_right x 16 % 256 ∷ shift_right x 8 % 256 ∷ x % 256 ∷ []

unfoldable pub digest : Sha256State → Bytes
unfolding word_bytes
digest s =
    word_bytes s.a
    ++ (word_bytes s.b
        ++ (word_bytes s.c
            ++ (word_bytes s.d
                ++ (word_bytes s.e ++ (word_bytes s.f ++ (word_bytes s.g ++ word_bytes s.hh))))))

unfoldable pub sha256_raw : Bytes → Bytes
unfolding process_blocks padded_tail tail_blocks digest
sha256_raw bytes =
    let full_blocks = length bytes / 64 in
    let rest = drop (full_blocks * 64) bytes in
    digest (
      process_blocks (tail_blocks (length rest)) (padded_tail rest (length bytes))
        (process_blocks full_blocks bytes initial))
