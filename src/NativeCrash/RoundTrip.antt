-- ===== src/NativeCrash/RoundTrip.antt =====
-- The dump that the handler writes, as the next launch reads it.
use tombstack_native.NativeCrash.{accepted}
use tombstack_native.NativeCrash.{Seen}
use tombstack_native.NativeCrash.{frame_writes}
use tombstack_native.NativeCrash.Text.{int-parse_dec}
use tombstack_native.NativeCrash.Text.{int_text-Avoids}
use tombstack_native.NativeCrash.{parse_dump}
use tombstack_native.NativeCrash.{new_dump}
use tombstack_native.NativeCrash.{frame_if}
use tombstack_native.NativeCrash.Text.{split_lines_cut}
use tombstack_native.NativeCrash.{int_text}
use tombstack_native.NativeCrash.Text.{IsInt}
use tombstack_native.NativeCrash.{write_frame}
use tombstack_native.NativeCrash.{split_lines}
use tombstack_native.NativeCrash.{parse_lines}
use tombstack_native.NativeCrash.{Crash}
use tombstack_native.NativeCrash.{dump_writes}
use tombstack_native.Prelude.{
  ℕ, ◌^◌, ◌<◌, ◌≡◌, refl, sym, ap, ◌∙◌, subst, ◌≢◌, inl, inr, Bool, true, false, ◌&&◌, Option, none,
  some, List, [], ◌∷◌, ◌++◌, map, append-nil, append_assoc, arith, ltb, leb, ◌==◌, if◌then◌else◌,
  Bool-cases, is_empty, All, All-append, Bytes, codes, starts_with, ◌&◌, if-holds,
}
use mathlib.Core.List.{map-append}
use tombstack_native.Signature.{to_hex}
use tombstack_native.NativeCrash.{
  NativeCrashFrame, NativeCrashDump, ModuleEntry, hex_to, resolve_module, parse_line,
}
use tombstack_native.NativeCrash.Text.{
  Avoids, parse_hex-hex_to, to_hex-Avoids, hex_to-Avoids, cut_space_found, trim_spaces_stays,
}

-- What the file holds behind these calls of `write_all`, where each writes the whole of its text.
abbrev pub written : List Bytes → Bytes
written [] = []
written (text ∷ texts) = text ++ written texts

written-append : (a b : List Bytes) → written (a ++ b) ≡ written a ++ written b
written-append [] b = refl
written-append (text ∷ a) b = rw (written-append a b, append_assoc) refl

-- The frame that an address stands for.
abbrev found : ℕ → Option (ModuleEntry × ℕ) → NativeCrashFrame
found addr none = record { module_name = codes "??"; offset = addr; build_id = [] }
found addr (some (m, offset)) = record {
  module_name = m.name;
  offset = offset;
  build_id = to_hex m.build_id;
}

abbrev pub stack_frame : List ModuleEntry → ℕ → List NativeCrashFrame
stack_frame modules addr = if addr == 0 then [] else found addr (resolve_module addr modules) ∷ []

abbrev frame_line : NativeCrashFrame → Bytes
frame_line f =
    codes "frame " ++ (f.module_name ++ (b' ' ∷ (hex_to f.offset ++ (b' ' ∷ f.build_id))))

abbrev unlines : List Bytes → Bytes
unlines [] = []
unlines (line ∷ lines) = line ++ (10 ∷ unlines lines)

record IsClean (f : NativeCrashFrame) : Type 0 where
  pub name_space : Avoids b' ' f.module_name
  pub name_line : Avoids 10 f.module_name
  pub offset_64 : f.offset < 2 ^ 64
  pub id_space : Avoids b' ' f.build_id
  pub id_line : Avoids 10 f.build_id

-- A path of a module that the format can hold: without a space and a newline.
abbrev pub IsPlain : ModuleEntry → Type 0
IsPlain m = Avoids b' ' m.name × Avoids 10 m.name

found-IsClean :
    (addr : ℕ) (modules : List ModuleEntry)
    → addr < 2 ^ 64
    → All IsPlain modules
    → IsClean (found addr (resolve_module addr modules))
unfolding resolve_module
found-IsClean addr [] h k = record {
  name_space = omega arith;
  name_line = omega arith;
  offset_64 = h;
  id_space = tt;
  id_line = tt;
}
found-IsClean addr (m ∷ ms) h k = elim (Bool-cases (leb m.base addr && ltb addr m.end_address)) [
  | inl e ↦ rw e (record {
    name_space = k.0.0;
    name_line = k.0.1;
    offset_64 = omega arith;
    id_space = to_hex-Avoids b' ' m.build_id (omega arith);
    id_line = to_hex-Avoids 10 m.build_id (omega arith);
  })
  | inr e ↦ rw e (found-IsClean addr ms h k.1)
]

-- A frame is read back.
parse_line-frame_line :
    (f : NativeCrashFrame) (saw : Bool) (dump : NativeCrashDump)
    → IsClean f
    → parse_line (frame_line f) (saw, dump) ≡ (saw, record dump { frames = dump.frames ++ f ∷ [] })
unfolding parse_line starts_with
parse_line-frame_line f saw dump h =
    rw (cut_space_found f.module_name (hex_to f.offset ++ (b' ' ∷ f.build_id)) h.name_space) (
      rw (cut_space_found (hex_to f.offset) f.build_id (hex_to-Avoids b' ' f.offset (omega arith)))
        (rw (parse_hex-hex_to f.offset h.offset_64, trim_spaces_stays f.build_id h.id_space) refl))

unlines-append : (a b : List Bytes) → unlines (a ++ b) ≡ unlines a ++ unlines b
unlines-append [] b = refl
unlines-append (line ∷ a) b =
    rw (unlines-append a b) (sym (append_assoc line (10 ∷ unlines a) (unlines b)))

written-frame_writes :
    (r : Option (ModuleEntry × ℕ)) (addr : ℕ)
    → written (frame_writes r addr) ≡ frame_line (found addr r) ++ (10 ∷ [])
unfolding frame_writes
written-frame_writes none addr =
    ap (λ t. codes "frame ?? " ++ t) (sym (append_assoc (hex_to addr) (b' ' ∷ []) (10 ∷ [])))
written-frame_writes (some (m, offset)) addr = simp append_assoc

written-frame_if :
    (modules : List ModuleEntry) (addr : ℕ)
    → written (frame_if modules addr) ≡ unlines (map frame_line (stack_frame modules addr))
unfolding write_frame
written-frame_if modules addr = elim (Bool-cases (addr == 0)) [
  | inl e ↦ rw e refl
  | inr e ↦ rw e (written-frame_writes (resolve_module addr modules) addr)
]

split_lines-unlines :
    (lines : List Bytes) → All (Avoids 10) lines → split_lines (unlines lines) ≡ lines
unfolding split_lines
split_lines-unlines [] h = refl
split_lines-unlines (line ∷ lines) h =
    split_lines_cut line (unlines lines) h.0 ∙ ap (λ ls. line ∷ ls) (split_lines-unlines lines h.1)

parse_lines-frames :
    (fs : List NativeCrashFrame) (lines : List Bytes) (dump : NativeCrashDump)
    → All IsClean fs
    → parse_lines (map frame_line fs ++ lines) (true, dump)
      ≡ parse_lines lines (true, record dump { frames = dump.frames ++ fs })
unfolding parse_lines
parse_lines-frames [] lines dump h = rw (append-nil dump.frames) refl
parse_lines-frames (f ∷ fs) lines dump h =
    ap (parse_lines (map frame_line fs ++ lines)) (parse_line-frame_line f true dump h.0)
    ∙ parse_lines-frames fs lines (record dump { frames = dump.frames ++ f ∷ [] }) h.1
    ∙ rw (append_assoc dump.frames (f ∷ []) fs) refl

dump_lines : Crash → List NativeCrashFrame → List Bytes
dump_lines crash frames =
    codes "tombstone-native-crash 1"
    ∷ (codes "signal " ++ int_text crash.signal_no)
    ∷ (codes "code " ++ int_text crash.code)
    ∷ (codes "fault " ++ hex_to crash.fault_addr)
    ∷ (map frame_line frames ++ (codes "end" ∷ []))

-- What a crash is, as a dump.
abbrev pub dump_of : List ModuleEntry → Crash → NativeCrashDump
dump_of modules crash = record {
  signal_no = crash.signal_no;
  code = crash.code;
  fault_addr = crash.fault_addr;
  frames = stack_frame modules crash.pc ++ stack_frame modules crash.lr;
}

written-frames :
    (modules : List ModuleEntry) (crash : Crash)
    → written (frame_if modules crash.pc ++ (frame_if modules crash.lr ++ (codes "end\n" ∷ [])))
      ≡ unlines (map frame_line (dump_of modules crash).frames ++ (codes "end" ∷ []))
written-frames modules crash =
    simp (written-append, unlines-append, map-append, written-frame_if, append_assoc)

written-dump_writes :
    (modules : List ModuleEntry) (crash : Crash)
    → written (dump_writes modules crash)
      ≡ unlines (dump_lines crash (dump_of modules crash).frames)
unfolding dump_writes dump_lines
written-dump_writes modules crash =
    ap
      (λ t.
        codes "tombstone-native-crash 1\nsignal "
        ++ (int_text crash.signal_no
            ++ (codes "\ncode "
                ++ (int_text crash.code
                    ++ (codes "\nfault " ++ (hex_to crash.fault_addr ++ (10 ∷ t)))))))
      (written-frames modules crash)

parse_lines-dump_lines :
    (crash : Crash) (frames : List NativeCrashFrame)
    → IsInt crash.signal_no
    → IsInt crash.code
    → crash.fault_addr < 2 ^ 64
    → All IsClean frames
    → parse_lines (dump_lines crash frames) (false, new_dump) ≡ (
      true,
      record {
        signal_no = crash.signal_no;
        code = crash.code;
        fault_addr = crash.fault_addr;
        frames = frames;
      },
    )
unfolding parse_lines parse_line dump_lines starts_with
parse_lines-dump_lines crash frames h k l m =
    parse_lines-frames frames (codes "end" ∷ []) _ m
    ∙ rw
        (
          int-parse_dec crash.signal_no h,
          int-parse_dec crash.code k,
          parse_hex-hex_to crash.fault_addr l,
        )
        refl

frame_line-Avoids : (f : NativeCrashFrame) → IsClean f → Avoids 10 (frame_line f)
frame_line-Avoids f h =
    All-append (λ c. c ≢ 10) (codes "frame ") _ (omega arith)
      (All-append (λ c. c ≢ 10) f.module_name _ h.name_line
        (omega arith
          & All-append (λ c. c ≢ 10) (hex_to f.offset) _ (hex_to-Avoids 10 f.offset (omega arith))
              (omega arith & h.id_line)))

frames-Avoids : (fs : List NativeCrashFrame) → All IsClean fs → All (Avoids 10) (map frame_line fs)
frames-Avoids [] h = tt
frames-Avoids (f ∷ fs) h = (frame_line-Avoids f h.0, frames-Avoids fs h.1)

stack_frame-IsClean :
    (modules : List ModuleEntry) (addr : ℕ)
    → addr < 2 ^ 64
    → All IsPlain modules
    → All IsClean (stack_frame modules addr)
stack_frame-IsClean modules addr h k = elim (Bool-cases (addr == 0)) [
  | inl e ↦ rw e tt
  | inr e ↦ rw e (found-IsClean addr modules h k & tt)
]

dump_lines-Avoids :
    (crash : Crash) (frames : List NativeCrashFrame)
    → All IsClean frames
    → All (Avoids 10) (dump_lines crash frames)
unfolding dump_lines
dump_lines-Avoids crash frames h =
    omega arith
    & All-append (λ c. c ≢ 10) (codes "signal ") _ (omega arith)
        (int_text-Avoids 10 crash.signal_no (omega arith))
    & All-append (λ c. c ≢ 10) (codes "code ") _ (omega arith)
        (int_text-Avoids 10 crash.code (omega arith))
    & All-append (λ c. c ≢ 10) (codes "fault ") _ (omega arith)
        (hex_to-Avoids 10 crash.fault_addr (omega arith))
    & All-append (Avoids 10) (map frame_line frames) _ (frames-Avoids frames h) (omega arith)

-- What the handler writes is what the next launch reads, frame by frame: where every write is whole,
-- the numbers are those of their machine types, and no module's path has a space or a newline.
pub parse_dump-dump_writes :
    (modules : List ModuleEntry) (crash : Crash)
    → All IsPlain modules
    → IsInt crash.signal_no
    → IsInt crash.code
    → crash.fault_addr < 2 ^ 64
    → crash.pc < 2 ^ 64
    → crash.lr < 2 ^ 64
    → parse_dump (written (dump_writes modules crash)) ≡ some (dump_of modules crash)
unfolding parse_dump
parse_dump-dump_writes modules crash plain h k l pc lr =
    let frames = (dump_of modules crash).frames in
    let clean : All IsClean frames =
      All-append IsClean (stack_frame modules crash.pc) (stack_frame modules crash.lr)
        (stack_frame-IsClean modules crash.pc pc plain)
        (stack_frame-IsClean modules crash.lr lr plain) in
    rw
      (
        written-dump_writes modules crash,
        split_lines-unlines (dump_lines crash frames) (dump_lines-Avoids crash frames clean),
        parse_lines-dump_lines crash frames h k l clean,
      )
      refl

-- A header that was seen stays seen.
parse_line_keeps : (line : Bytes) (seen : Seen) → seen.0 ≡ true → (parse_line line seen).0 ≡ true
unfolding parse_line
parse_line_keeps line seen h = ground arith

parse_lines_keeps :
    (lines : List Bytes) (seen : Seen) → seen.0 ≡ true → (parse_lines lines seen).0 ≡ true
unfolding parse_lines
parse_lines_keeps [] seen h = h
parse_lines_keeps (line ∷ lines) seen h = parse_lines_keeps lines _ (
    if-holds (λ (s : Seen). s.0 ≡ true) (is_empty line) {y = parse_line line seen} h
      (parse_line_keeps line seen h))

accepted-some : (seen : Seen) → seen.0 ≡ true → accepted seen ≢ none
accepted-some seen h e = ground arith

-- However the file is cut or damaged behind its first line, the dump counts.
pub parse_dump-accepts :
    (rest : Bytes) → parse_dump (codes "tombstone-native-crash 1\n" ++ rest) ≢ none
unfolding parse_dump parse_lines parse_line starts_with
parse_dump-accepts rest =
    subst (λ ls. accepted (parse_lines ls (false, new_dump)) ≢ none)
      (sym (split_lines_cut (codes "tombstone-native-crash 1") rest (omega arith)))
      (accepted-some _ (parse_lines_keeps (split_lines rest) (true, new_dump) refl))
