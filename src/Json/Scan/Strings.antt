-- ===== src/Json/Scan/Strings.antt =====
-- Reading back what was escaped: `json_escape` of src/json_writer.cpp against `read_string` of
-- src/json_scan.cpp.
use tombstack_native.Prelude.{
  ℕ, ◌<◌, ◌≡◌, refl, ◌≢◌, ◌⊎◌, inl, inr, not, ◌&&◌, some, [], ◌∷◌, ◌++◌, append_assoc, arith, leb,
  ◌==◌, Bool-cases, drop, All, Bytes,
}
use tombstack_native.Json.Escape.{json_escape, escape_byte, hex_digit}
use tombstack_native.Json.Scan.{read_string, read_body, prepend, turn, hex_value, utf8_bytes, fresh}

-- What one byte becomes: itself, an escaped quote, or a backslash with bytes that are no quotes.
abbrev pub Shape : ℕ → Bytes → Type 0
Shape c t =
    ((t ≡ c ∷ []) × (c ≢ b'"') × (c ≢ b'\\'))
    ⊎ (t ≡ b'\\' ∷ b'"' ∷ [])
    ⊎ ((r : Bytes) × (t ≡ b'\\' ∷ r) × All (λ d. d ≢ b'"') r)

pub escape_byte-Shape : (c : ℕ) → Shape c (escape_byte c)
unfolding escape_byte
escape_byte-Shape c = elim (Bool-cases (c == b'"')) [
  | inl e ↦ inr (inl (ground arith))
  | inr e ↦ elim (Bool-cases (leb 0x20 c && not (c == b'\\'))) [
    | inl plain ↦ inl (ground arith)
    | inr odd ↦ inr (inr (drop 1 (escape_byte c), ground arith, ground arith))
  ]
]

hex_value-hex_digit : (n : ℕ) → n < 16 → hex_value (hex_digit n) ≡ some n
unfolding hex_value hex_digit
hex_value-hex_digit n h = ground arith

read_body-escape_byte :
    (c : ℕ) (t : Bytes)
    → read_body fresh (escape_byte c ++ t) ≡ prepend (c ∷ []) (read_body fresh t)
unfolding read_body turn escape_byte utf8_bytes
read_body-escape_byte c t = ground arith

pub read_body-json_escape :
    (v rest : Bytes) → read_body fresh (json_escape v ++ (b'"' ∷ rest)) ≡ some (v, rest)
unfolding json_escape read_body turn
read_body-json_escape [] rest = refl
read_body-json_escape (c ∷ v) rest =
    rw (append_assoc (escape_byte c) (json_escape v) (b'"' ∷ rest), read_body-escape_byte)
      (rw (read_body-json_escape v rest))

-- Every byte string, written as a JSON string with any text behind it, is read back unchanged,
-- and the reader stops right behind the closing quote.
pub read-escape :
    (v rest : Bytes) → read_string (b'"' ∷ (json_escape v ++ (b'"' ∷ rest))) ≡ some (v, rest)
unfolding read_string
read-escape v rest = read_body-json_escape v rest
