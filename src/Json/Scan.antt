-- ===== src/Json/Scan.antt =====
-- The scanners of src/json_scan.cpp for single values. A position in the text is the rest of the
-- text from there on; `npos` is `none`.
pub mod Strings
pub mod Skip
pub mod Members
pub mod Ints
pub mod Documents
pub mod Named
use Prim.Native.Nat.{bit_and, bit_or}
use tombstack_native.Prelude.{
  ℕ, zero, suc, ◌+◌, ◌-◌, ◌*◌, ◌/◌, ◌^◌, Bool, true, false, not, ◌&&◌, ◌||◌, Option, none, some, [],
  ◌∷◌, ◌++◌, ltb, leb, ◌==◌, if◌then◌else◌, length, drop, Bytes, codes, starts_with,
}

pub is_space : ℕ → Bool
is_space c = c == b' ' || c == 9 || c == 10 || c == 13

pub skip_space : Bytes → Bytes
skip_space [] = []
skip_space (c ∷ cs) = if is_space c then skip_space cs else c ∷ cs

after_colon : Bytes → Option Bytes
after_colon [] = none
after_colon (c ∷ cs) = if c == b':' then some (skip_space cs) else none

-- past the quoted key: white space, `:`, white space
pub value_after : Bytes → Option Bytes
unfolding after_colon
value_after text = after_colon (skip_space text)

-- The loop of `find_value_start`: the first number is how many bytes of a match without a colon
-- are still to be passed over.
pub scan : Bytes → ℕ → Bytes → Option Bytes
scan quoted passing [] = none
scan quoted (suc passing) (c ∷ cs) = scan quoted passing cs
scan quoted zero (c ∷ cs) = elim (starts_with quoted (c ∷ cs)) [
  | true ↦ elim (value_after (drop (length quoted) (c ∷ cs))) [
    | some value ↦ some value
    | none ↦ scan quoted (length quoted - 1) cs
  ]
  | false ↦ scan quoted zero cs
]

abbrev pub quoted_key : Bytes → Bytes
quoted_key key = b'"' ∷ (key ++ (b'"' ∷ []))

unfoldable pub find_value_start : Bytes → Bytes → Option Bytes
unfolding scan starts_with value_after skip_space is_space
find_value_start json key = scan (quoted_key key) 0 json

-- the bytes that `append_utf8` appends
pub utf8_bytes : ℕ → Bytes
utf8_bytes code_point =
    if ltb code_point 0x80
    then code_point ∷ []
    else if ltb code_point 0x800
    then bit_or 0xC0 (code_point / 2 ^ 6) ∷ bit_or 0x80 (bit_and code_point 0x3F) ∷ []
    else bit_or 0xE0 (code_point / 2 ^ 12)
      ∷ bit_or 0x80 (bit_and (code_point / 2 ^ 6) 0x3F)
      ∷ bit_or 0x80 (bit_and code_point 0x3F)
      ∷ []

-- `none` stands for -1
pub hex_value : ℕ → Option ℕ
hex_value c =
    if leb b'0' c && leb c b'9'
    then some (c - b'0')
    else if leb b'a' c && leb c b'f'
    then some (c - b'a' + 10)
    else if leb b'A' c && leb c b'F'
    then some (c - b'A' + 10)
    else none

-- Where the loop of `read_string` stands: at a fresh byte, behind a backslash, or before the last
-- `left + 1` of the four hexadecimal digits, with the value of those read.
pub data Cursor : Type 0 where
  fresh : Cursor
  escape : Cursor
  hex : ℕ → ℕ → Cursor

-- One byte: the closing quote, a refusal, or bytes to append and how to go on.
pub data Turn : Type 0 where
  close refuse : Turn
  go : Bytes → Cursor → Turn

hex_turn : ℕ → ℕ → Turn
unfolding utf8_bytes
hex_turn zero code_point = go (utf8_bytes code_point) fresh
hex_turn (suc left) code_point = go [] (hex left code_point)

hex_digit_turn : ℕ → ℕ → Option ℕ → Turn
unfolding hex_turn
hex_digit_turn left code_point none = refuse
hex_digit_turn left code_point (some digit) = hex_turn left (code_point * 16 + digit)

escape_turn : ℕ → Turn
escape_turn c =
    if c == b'"'
    then go (b'"' ∷ []) fresh
    else if c == b'\\'
    then go (b'\\' ∷ []) fresh
    else if c == b'/'
    then go (b'/' ∷ []) fresh
    else if c == b'n'
    then go (10 ∷ []) fresh
    else if c == b'r'
    then go (13 ∷ []) fresh
    else if c == b't'
    then go (9 ∷ []) fresh
    else if c == b'b'
    then go (8 ∷ []) fresh
    else if c == b'f'
    then go (12 ∷ []) fresh
    else if c == b'u'
    then go [] (hex 3 0)
    else refuse

pub turn : Cursor → ℕ → Turn
unfolding hex_digit_turn escape_turn hex_value
turn fresh c =
    if c == b'"'
    then close
    else if ltb c 0x20
    then refuse
    else if not (c == b'\\')
    then go (c ∷ []) fresh
    else go [] escape
turn escape c = escape_turn c
turn (hex left code_point) c = hex_digit_turn left code_point (hex_value c)

abbrev pub prepend : Bytes → Option (Bytes × Bytes) → Option (Bytes × Bytes)
prepend text none = none
prepend text (some (out, after)) = some (text ++ out, after)

-- the loop: the string read, and the text behind its closing quote
pub read_body : Cursor → Bytes → Option (Bytes × Bytes)
read_body at [] = none
read_body at (c ∷ cs) = elim (turn at c) [
  | close ↦ some ([], cs)
  | refuse ↦ none
  | go text next ↦ prepend text (read_body next cs)
]

unfoldable pub read_string : Bytes → Option (Bytes × Bytes)
unfolding read_body turn
read_string [] = none
read_string (c ∷ cs) = if c == b'"' then read_body fresh cs else none

abbrev pub string_of : Option (Bytes × Bytes) → Option Bytes
string_of none = none
string_of (some (out, after)) = some out

abbrev string_at : Option Bytes → Option Bytes
string_at none = none
string_at (some text) = string_of (read_string text)

unfoldable pub find_string_field : Bytes → Bytes → Option Bytes
unfolding find_value_start read_string
find_string_field json key = string_at (find_value_start json key)

pub bool_at : Option Bytes → Option Bool
bool_at none = none
bool_at (some text) =
    if starts_with (codes "true") text
    then some true
    else if starts_with (codes "false") text
    then some false
    else none

unfoldable pub find_bool_field : Bytes → Bytes → Option Bool
unfolding find_value_start bool_at
find_bool_field json key = bool_at (find_value_start json key)
