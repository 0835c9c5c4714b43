-- ===== src/NativeCrash.antt =====
-- src/native_crash.h and src/native_crash.cpp: what the signal handler writes into the dump file,
-- and what the next launch reads from it. A `long` that overflows is undefined in the source; here
-- it is an integer, cut to an `int` where the source does that.
pub mod Text
pub mod RoundTrip
pub mod BuildId
pub mod Modules
pub mod Handler
mod Tests
use tombstack_native.Prelude.{
  ℕ, zero, suc, ◌+◌, ◌-◌, ◌*◌, ◌/◌, ◌%◌, ◌^◌, Bool, true, false, ◌&&◌, ◌||◌, Option, none, some,
  List, [], ◌∷◌, ◌++◌, ltb, leb, ◌==◌, if◌then◌else◌, is_empty, drop, Bytes, codes, starts_with,
}
use tombstack_native.Prelude.Int.{ℤ, pos, negsuc}
use tombstack_native.Prelude.Decimal.{int_text}
use tombstack_native.Signature.{hex_char, to_hex}

pub record NativeCrashFrame : Type 0 where
  pub module_name : Bytes
  pub offset : ℕ
  pub build_id : Bytes

pub record NativeCrashDump : Type 0 where
  pub signal_no : ℤ
  pub code : ℤ
  pub fault_addr : ℕ
  pub frames : List NativeCrashFrame

abbrev pub new_dump : NativeCrashDump
new_dump = record { signal_no = pos 0; code = pos 0; fault_addr = 0; frames = [] }

abbrev known_signals : List (ℕ × Bytes)
known_signals =
    (4, codes "SIGILL")
    ∷ (5, codes "SIGTRAP")
    ∷ (6, codes "SIGABRT")
    ∷ (7, codes "SIGBUS")
    ∷ (8, codes "SIGFPE")
    ∷ (11, codes "SIGSEGV")
    ∷ []

abbrev name_or : Bytes → ℕ → List (ℕ × Bytes) → Bytes
name_or other n [] = other
name_or other n ((m, name) ∷ rest) = if n == m then name else name_or other n rest

unfoldable pub signal_name : ℤ → Bytes
signal_name (pos n) = name_or (codes "signal " ++ int_text (pos n)) n known_signals
signal_name (negsuc n) = codes "signal " ++ int_text (negsuc n)

-- One loaded module: its range, its path and its build id.
pub record ModuleEntry : Type 0 where
  pub base : ℕ
  pub end_address : ℕ
  pub name : Bytes
  pub build_id : Bytes

-- `value >> (4 * k)`
pub shifted : ℕ → ℕ → ℕ
shifted zero value = value
shifted (suc k) value = shifted k value / 16

-- the nibbles from the k-th lowest down
pub nibbles : ℕ → ℕ → Bytes
unfolding shifted
nibbles zero value = []
nibbles (suc k) value = hex_char (shifted k value % 16) ∷ nibbles k value

-- the same, without the zeros in front
pub hex_from : ℕ → ℕ → Bytes
unfolding nibbles shifted
hex_from zero value = nibbles 1 value
hex_from (suc k) value =
    let rest = hex_from k value in
    if shifted (suc k) value % 16 == 0 then rest else nibbles (suc (suc k)) value

unfoldable pub hex_to : ℕ → Bytes
unfolding hex_from
hex_to value = b'0' ∷ b'x' ∷ hex_from 15 value

-- the first module whose range holds the address, with the offset in it
pub resolve_module : ℕ → List ModuleEntry → Option (ModuleEntry × ℕ)
resolve_module addr [] = none
resolve_module addr (m ∷ ms) =
    if leb m.base addr && ltb addr m.end_address
    then some (m, addr - m.base)
    else resolve_module addr ms

-- What `write_frame` writes, one text for each call of `write_all`.
pub frame_writes : Option (ModuleEntry × ℕ) → ℕ → List Bytes
frame_writes none addr = codes "frame " ∷ codes "?? " ∷ hex_to addr ∷ codes " \n" ∷ []
frame_writes (some (m, offset)) addr =
    codes "frame "
    ∷ m.name
    ∷ codes " "
    ∷ hex_to offset
    ∷ codes " "
    ∷ to_hex m.build_id
    ∷ codes "\n"
    ∷ []

unfoldable pub write_frame : List ModuleEntry → ℕ → List Bytes
unfolding frame_writes resolve_module
write_frame modules addr = frame_writes (resolve_module addr modules) addr

-- What the handler is given: the signal, `si_code` and `si_addr` (0 without a `siginfo_t`), and the
-- two addresses of `extract_pc_lr`.
pub record Crash : Type 0 where
  pub signal_no : ℤ
  pub code : ℤ
  pub fault_addr : ℕ
  pub pc : ℕ
  pub lr : ℕ

abbrev pub frame_if : List ModuleEntry → ℕ → List Bytes
frame_if modules addr = if addr == 0 then [] else write_frame modules addr

unfoldable pub dump_writes : List ModuleEntry → Crash → List Bytes
dump_writes modules crash =
    (codes "tombstone-native-crash 1\n"
      ∷ codes "signal "
      ∷ int_text crash.signal_no
      ∷ codes "\n"
      ∷ codes "code "
      ∷ int_text crash.code
      ∷ codes "\n"
      ∷ codes "fault "
      ∷ hex_to crash.fault_addr
      ∷ codes "\n"
      ∷ [])
    ++ (frame_if modules crash.pc ++ (frame_if modules crash.lr ++ (codes "end\n" ∷ [])))

-- the value of a hexadecimal digit
unfoldable pub hex_digit : ℕ → Option ℕ
hex_digit c =
    if leb b'0' c && leb c b'9'
    then some (c - b'0')
    else if leb b'a' c && leb c b'f'
    then some (10 + (c - b'a'))
    else if leb b'A' c && leb c b'F'
    then some (10 + (c - b'A'))
    else none

-- the loop of `parse_hex`, on 64 bits
pub hex_loop : ℕ → Bytes → ℕ
hex_loop v [] = v
hex_loop v (c ∷ cs) = elim (hex_digit c) [
  | none ↦ v
  | some digit ↦ hex_loop (v * 16 % 2 ^ 64 + digit) cs
]

unfoldable pub parse_hex : Bytes → ℕ
unfolding hex_loop hex_digit
parse_hex text =
    if starts_with (codes "0x") text || starts_with (codes "0X") text
    then hex_loop 0 (drop 2 text)
    else hex_loop 0 text

pub digits_loop : ℕ → Bytes → ℕ
digits_loop v [] = v
digits_loop v (c ∷ cs) =
    if leb b'0' c && leb c b'9' then digits_loop (v * 10 + (c - b'0')) cs else v

abbrev pub negated : ℕ → ℤ
negated zero = pos 0
negated (suc n) = negsuc n

unfoldable pub parse_dec : Bytes → ℤ
unfolding digits_loop
parse_dec text =
    if starts_with (codes "-") text
    then negated (digits_loop 0 (drop 1 text))
    else pos (digits_loop 0 text)

abbrev from_word : ℕ → ℤ
from_word w = if ltb w (2 ^ 31) then pos w else negsuc (2 ^ 32 - 1 - w)

-- the cast to a 32-bit `int`
unfoldable pub to_int : ℤ → ℤ
to_int (pos n) = from_word (n % 2 ^ 32)
to_int (negsuc n) = from_word (2 ^ 32 - 1 - n % 2 ^ 32)

abbrev push_front : ℕ → Option (Bytes × Bytes) → Option (Bytes × Bytes)
push_front c none = none
push_front c (some (front, behind)) = some (c ∷ front, behind)

-- what stands before and behind the first space, if there is one
unfoldable pub cut_space : Bytes → Option (Bytes × Bytes)
cut_space [] = none
cut_space (c ∷ cs) =
    let rest = push_front c (cut_space cs) in if c == b' ' then some ([], cs) else rest

keep_last : ℕ → Bytes → Bytes
keep_last c [] = if c == b' ' then [] else c ∷ []
keep_last c (e ∷ kept) = c ∷ e ∷ kept

pub trim_spaces : Bytes → Bytes
unfolding keep_last
trim_spaces [] = []
trim_spaces (c ∷ cs) = keep_last c (trim_spaces cs)

-- what stands behind the name of the module
abbrev frame_behind : Bytes → Bytes → Option (Bytes × Bytes) → NativeCrashFrame
frame_behind name after none = record {
  module_name = name;
  offset = parse_hex after;
  build_id = [];
}
frame_behind name after (some (offset, bid)) = record {
  module_name = name;
  offset = parse_hex offset;
  build_id = trim_spaces bid;
}

abbrev frame_of : Option (Bytes × Bytes) → List NativeCrashFrame
frame_of none = []
frame_of (some (name, after)) = frame_behind name after (cut_space after) ∷ []

-- Whether the header was seen, and the dump so far.
abbrev pub Seen : Type 0
Seen = Bool × NativeCrashDump

-- One line that is not empty; what it does not know it ignores.
unfoldable pub parse_line : Bytes → Seen → Seen
parse_line line (saw_header, dump) =
    if starts_with (codes "tombstone-native-crash") line
    then (true, dump)
    else if starts_with (codes "signal ") line
    then (saw_header, record dump { signal_no = to_int (parse_dec (drop 7 line)) })
    else if starts_with (codes "code ") line
    then (saw_header, record dump { code = to_int (parse_dec (drop 5 line)) })
    else if starts_with (codes "fault ") line
    then (saw_header, record dump { fault_addr = parse_hex (drop 6 line) })
    else if starts_with (codes "frame ") line
    then (saw_header, record dump { frames = dump.frames ++ frame_of (cut_space (drop 6 line)) })
    else (saw_header, dump)

pub parse_lines : List Bytes → Seen → Seen
unfolding parse_line
parse_lines [] seen = seen
parse_lines (line ∷ lines) seen =
    parse_lines lines (if is_empty line then seen else parse_line line seen)

push_line : ℕ → List Bytes → List Bytes
push_line c [] = (c ∷ []) ∷ []
push_line c (line ∷ lines) = (c ∷ line) ∷ lines

-- the lines of a text; the last needs no newline
pub split_lines : Bytes → List Bytes
unfolding push_line
split_lines [] = []
split_lines (c ∷ cs) = let rest = split_lines cs in if c == 10 then [] ∷ rest else push_line c rest

abbrev pub accepted : Seen → Option NativeCrashDump
accepted (saw_header, dump) = if saw_header then some dump else none

unfoldable pub parse_dump : Bytes → Option NativeCrashDump
unfolding parse_lines split_lines
parse_dump text = accepted (parse_lines (split_lines text) (false, new_dump))
