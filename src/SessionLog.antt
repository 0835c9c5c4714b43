-- ===== src/SessionLog.antt =====
-- src/session_log.h and src/session_log.cpp: the rolling session log. What the file system does is
-- an argument of each operation; a file that does not exist is `none`.
pub mod Bounds
pub mod Trim
pub mod Lines
mod Tests
use tombstack_native.Prelude.Decimal.{to_string}
use tombstack_native.Prelude.{
  ℕ, ◌+◌, ◌-◌, ◌*◌, ◌/◌, Bool, true, false, not, ◌&&◌, ◌||◌, Option, none, some, [], ◌∷◌, ◌++◌, ltb,
  leb, ◌==◌, if◌then◌else◌, length, is_empty, drop, Bytes, codes,
}

pub record SessionLog : Type 0 where
  pub pending : Bytes
  pub dropped_lines : ℕ
  pub current : Option Bytes
  pub previous : Option Bytes
  pub file_bytes : ℕ
  pub configured : Bool

-- what the file system lets the log do
pub record Disk : Type 0 where
  pub removes : Bool
  pub renames : Bool
  pub appends : Bool
  pub truncates : Bool
  pub reads : Bool

abbrev pub max_log_bytes : ℕ
max_log_bytes = 512 * 1024

abbrev pub trimmed_log_bytes : ℕ
trimmed_log_bytes = max_log_bytes / 2

abbrev pub max_pending_bytes : ℕ
max_pending_bytes = 64 * 1024

abbrev pub new_log : SessionLog
new_log = record {
  pending = [];
  dropped_lines = 0;
  current = none;
  previous = none;
  file_bytes = 0;
  configured = false;
}

unfoldable pub configure : SessionLog → SessionLog
configure s = record s { configured = true }

abbrev pub exists : Option Bytes → Bool
exists none = false
exists (some text) = true

remove_previous : Disk → SessionLog → SessionLog
remove_previous disk s = if disk.removes then record s { previous = none } else s

rename_current : Disk → SessionLog → SessionLog
rename_current disk s =
    if exists s.current && disk.renames
    then record s { previous = s.current; current = none }
    else s

unfoldable pub rotate_for_new_session : Disk → SessionLog → SessionLog × Bool
unfolding remove_previous rename_current
rotate_for_new_session disk s =
    let rotated = rename_current disk (remove_previous disk s) in
    if not s.configured
    then (s, false)
    else (record rotated { file_bytes = 0 }, exists rotated.previous)

abbrev pub ends_line : Bytes → Bool
ends_line [] = false
ends_line (c ∷ []) = c == 10
ends_line (c ∷ d ∷ cs) = ends_line (d ∷ cs)

-- the text that `append` adds for one line
unfoldable pub line_text : Bytes → Bytes → Bytes → Bytes
line_text ts_iso level message =
    ts_iso
    ++ (codes " ["
        ++ (level ++ (codes "] " ++ (message ++ (if ends_line message then [] else 10 ∷ [])))))

unfoldable pub append : Bytes → Bytes → Bytes → SessionLog → SessionLog
append ts_iso level message s =
    if is_empty message
    then s
    else if leb max_pending_bytes (length s.pending)
    then record s { dropped_lines = s.dropped_lines + 1 }
    else record s { pending = s.pending ++ line_text ts_iso level message }

overflow_line : ℕ → Bytes
unfolding to_string
overflow_line lines =
    if lines == 0
    then []
    else codes "[tombstone] session log buffer overflow: "
      ++ (to_string lines ++ (codes " lines dropped" ++ 10 ∷ []))

unfoldable pub take_pending : SessionLog → SessionLog × Bytes
unfolding overflow_line
take_pending s =
    if is_empty s.pending
    then (s, [])
    else (record s { pending = []; dropped_lines = 0 }, s.pending ++ overflow_line s.dropped_lines)

abbrev pub text_of : Option Bytes → Bytes
text_of none = []
text_of (some text) = text

-- `read_file`
abbrev pub read_file : Disk → Option Bytes → Bytes
read_file disk file = if disk.reads then text_of file else []

-- the loop of `trim_from_front` and the step over the line break
pub skip_line : Bytes → Bytes
skip_line [] = []
skip_line (c ∷ cs) = if c == 10 then cs else skip_line cs

-- what `trim_from_front` keeps of a long log
abbrev pub newest_lines : Bytes → Bytes
newest_lines all = skip_line (drop (length all - trimmed_log_bytes) all)

unfoldable pub trim_from_front : Disk → SessionLog → SessionLog
unfolding skip_line
trim_from_front disk s =
    let all = read_file disk s.current in
    if leb (length all) trimmed_log_bytes
    then record s { file_bytes = length all }
    else if not disk.truncates
    then s
    else record s { current = some (newest_lines all); file_bytes = length (newest_lines all) }

unfoldable pub write_chunk : Disk → Bytes → SessionLog → SessionLog
write_chunk disk chunk s =
    let written = record s {
      current = some (text_of s.current ++ chunk);
      file_bytes = s.file_bytes + length chunk;
    } in
    if not s.configured || not disk.appends
    then s
    else if ltb max_log_bytes written.file_bytes
    then trim_from_front disk written
    else written

unfoldable pub flush_now : Disk → SessionLog → SessionLog
unfolding take_pending write_chunk trim_from_front
flush_now disk s =
    let taken = take_pending s in
    if is_empty taken.1 then taken.0 else write_chunk disk taken.1 taken.0

unfoldable pub read_current : Disk → SessionLog → SessionLog × Bytes
unfolding flush_now
read_current disk s = (flush_now disk s, read_file disk (flush_now disk s).current)

unfoldable pub read_previous : Disk → SessionLog → Bytes
read_previous disk s = read_file disk s.previous
