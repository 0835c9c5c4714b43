-- ===== src/NativeCrash/BuildId.antt =====
-- The walk of `read_build_id` in src/native_crash.cpp over a note segment: its bytes, with
-- little-endian words, and where it stands. An address wraps at the width of a pointer; a read
-- outside the segment is a fault of the model.
pub mod Bounds
use tombstack_native.Prelude.{
  ℕ, zero, suc, ◌+◌, ◌-◌, ◌*◌, ◌/◌, ◌%◌, ◌^◌, ◌≤◌, min, ◌&&◌, Option, none, some, [], ◌∷◌, ltb, leb,
  ◌==◌, if◌then◌else◌, length, take, drop, Bytes, codes, str_eq,
}

abbrev pub max_build_id_bytes : ℕ
max_build_id_bytes = 20

abbrev pub max_name_len : ℕ
max_name_len = 255

abbrev pub max_modules : ℕ
max_modules = 512

-- `(size + 3) & ~3u`, on 32 bits
abbrev align4 : ℕ → ℕ
align4 size = (size + 3) % 2 ^ 32 / 4 * 4

abbrev little : Bytes → ℕ
little [] = 0
little (b ∷ bs) = b + 256 * little bs

-- The bytes of a note segment, its address, and the bits of an address.
pub record Segment : Type 0 where
  pub width : ℕ
  pub start : ℕ
  pub bytes : Bytes

-- a pointer moved on, which wraps
abbrev plus : Segment → ℕ → ℕ → ℕ
plus s at size = (at + size) % 2 ^ s.width

abbrev end_of : Segment → ℕ
end_of s = plus s s.start (length s.bytes)

-- a read of so many bytes at this address
abbrev slice : Segment → ℕ → ℕ → Option Bytes
slice s at size =
    if leb s.start at && leb (at + size) (s.start + length s.bytes)
    then some (take size (drop (at - s.start) s.bytes))
    else none

pub data Outcome : Type 0 where
  out_of_fuel : Outcome
  bad_read : Outcome
  keeps : Outcome
  found : Bytes → Outcome

-- A round of the loop: its end, or the address of the next note.
pub data Round : Type 0 where
  finished : Outcome → Round
  continues : ℕ → Round

abbrev read_or_fault : Option Bytes → (Bytes → Round) → Round
read_or_fault none f = finished bad_read
read_or_fault (some bytes) f = f bytes

-- the descriptor of the note that is the build id
unfoldable pub take_desc : Segment → ℕ → ℕ → Round
take_desc s desc size =
    let len = min size max_build_id_bytes in
    if leb (plus s desc len) (end_of s)
    then read_or_fault (slice s desc len) (λ id. finished (found id))
    else finished keeps

unfoldable pub advance : ℕ → ℕ → Round
advance note next = if leb next note then finished keeps else continues next

-- the note at this address, with its three words
unfoldable pub read_note : Segment → ℕ → ℕ → ℕ → ℕ → Round
read_note s note namesz descsz type =
    let name = plus s note 12 in
    let desc = plus s name (align4 namesz) in
    let onward = advance note (plus s desc (align4 descsz)) in
    if ltb (end_of s) desc
    then finished keeps
    else if type == 3 && (namesz == 4 && leb (plus s name 4) (end_of s))
    then read_or_fault (slice s name 3)
        (λ gnu. if str_eq gnu (codes "GNU") then take_desc s desc descsz else onward)
    else onward

unfoldable pub round : Segment → ℕ → Round
round s note =
    if leb (plus s note 12) (end_of s)
    then read_or_fault (slice s note 12) (λ words.
      read_note s note (little (take 4 words)) (little (take 4 (drop 4 words)))
        (little (drop 8 words)))
    else finished keeps

unfoldable pub walk : ℕ → Segment → ℕ → Outcome
walk zero s note = out_of_fuel
walk (suc fuel) s note = elim (round s note) [
  | finished outcome ↦ outcome
  | continues next ↦ walk fuel s next
]

-- The build id of the entry behind the walk.
unfoldable pub read_build_id : Segment → Bytes → Bytes
unfolding walk round read_note take_desc advance
read_build_id s build_id = elim (walk (length s.bytes + 1) s s.start) [
  | found id ↦ id
  | _ ↦ build_id
]

-- No fault, and a build id that fits its array.
abbrev pub IsSafe : Outcome → Type 0
IsSafe out_of_fuel = ⊥
IsSafe bad_read = ⊥
IsSafe keeps = Unit
IsSafe (found id) = length id ≤ max_build_id_bytes
