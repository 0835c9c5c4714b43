-- ===== src/NativeCrash/Tests.antt =====
-- Runs and witnesses for src/native_crash.cpp.
use tombstack_native.Prelude.{
  ℕ, ◌≡◌, refl, true, false, some, [], ◌∷◌, arith, take, Bytes, codes, str_eq, starts_with,
}
use tombstack_native.Prelude.Int.{pos, negsuc}
use tombstack_native.Prelude.Decimal.{int_text}
use tombstack_native.Signature.{to_hex}
use tombstack_native.NativeCrash.{
  to_int, cut_space, parse_dec, trim_spaces, ModuleEntry, Crash, dump_writes, write_frame, hex_to,
  parse_dump, parse_hex, signal_name,
}
use tombstack_native.NativeCrash.BuildId.{
  Segment, bad_read, keeps, IsSafe, round, read_note, take_desc, advance, walk, read_build_id,
}
use tombstack_native.NativeCrash.BuildId.Bounds.{read_build_id-IsSafe}
use tombstack_native.NativeCrash.Handler.{
  HandlerState, plain_handler, handle_all, dumps, dumps-handle_all,
}
use tombstack_native.NativeCrash.RoundTrip.{written, dump_of, parse_dump-dump_writes}

abbrev game : ModuleEntry
game = record {
  base = 4096;
  end_address = 8192;
  name = codes "libgame.so";
  build_id = 171 ∷ 1 ∷ [];
}

abbrev segfault : Crash
segfault = record { signal_no = pos 11; code = pos 1; fault_addr = 16; pc = 4112; lr = 3 }

-- one known frame, and one outside the modules
the_text :
    written (dump_writes (game ∷ []) segfault)
    ≡ codes
        "tombstone-native-crash 1\nsignal 11\ncode 1\nfault 0x10\nframe libgame.so 0x10 ab01\nframe ?? 0x3 \nend\n"
unfolding dump_writes write_frame hex_to int_text to_hex
the_text = refl

names : (signal_name (pos 6) ≡ codes "SIGABRT") × (signal_name (negsuc 0) ≡ codes "signal -1")
unfolding signal_name int_text
names = (refl, refl)

parse_dump-dump_writes_example :
    parse_dump (written (dump_writes (game ∷ []) segfault)) ≡ some (dump_of (game ∷ []) segfault)
parse_dump-dump_writes_example =
    parse_dump-dump_writes (game ∷ []) segfault (omega arith) (omega arith) (omega arith)
      (omega arith) (omega arith) (omega arith)

-- A path with a space is cut there, and what stands behind it is read as the offset.
abbrev spaced : ModuleEntry
spaced = record game { name = codes "My Game.so" }

path_with_space :
    parse_dump (written (dump_writes (spaced ∷ []) (record segfault { lr = 0 })))
    ≡ some (record (dump_of (spaced ∷ []) segfault) {
      frames = record { module_name = codes "My"; offset = 0; build_id = codes "0x10 ab01" } ∷ [];
    })
unfolding parse_dump dump_writes write_frame hex_to int_text to_hex starts_with parse_hex to_int
    cut_space parse_dec trim_spaces
path_with_space = refl

-- a build id, and a note that claims more than there is
abbrev gnu_note : Bytes
gnu_note = 4 ∷ 0 ∷ 0 ∷ 0 ∷ 2 ∷ 0 ∷ 0 ∷ 0 ∷ 3 ∷ 0 ∷ 0 ∷ 0 ∷ 71 ∷ 78 ∷ 85 ∷ 0 ∷ 171 ∷ 1 ∷ []

abbrev at_page : ℕ → Bytes → Segment
at_page width bytes = record { width = width; start = 4096; bytes = bytes }

ids :
    (read_build_id (at_page 64 gnu_note) [] ≡ 171 ∷ 1 ∷ [])
    × (read_build_id (at_page 64 (take 17 gnu_note)) [] ≡ [])
unfolding read_build_id str_eq
ids = (refl, refl)

read_build_id-IsSafe_example : IsSafe (walk 19 (at_page 64 gnu_note) 4096)
read_build_id-IsSafe_example = read_build_id-IsSafe (at_page 64 gnu_note) (omega arith)

-- A descriptor whose size leads to 8 bytes below the top of a 32-bit address space: the test of the
-- next note wraps to 4 and holds, and the note is read outside the segment.
abbrev hostile_note : Bytes
hostile_note = 0 ∷ 0 ∷ 0 ∷ 0 ∷ 236 ∷ 239 ∷ 255 ∷ 255 ∷ 1 ∷ 0 ∷ 0 ∷ 0 ∷ []

wrapped_note :
    (walk 13 (at_page 32 hostile_note) 4096 ≡ bad_read)
    × (walk 13 (at_page 64 hostile_note) 4096 ≡ keeps)
unfolding walk round read_note take_desc advance
wrapped_note = (refl, refl)

abbrev armed : HandlerState
armed = record {
  modules = game ∷ [];
  dump_open = true;
  old_actions = (11, plain_handler) ∷ [];
  installed = true;
  in_handler = false;
}

dumps-handle_all_example :
    dumps (handle_all (segfault ∷ record segfault { signal_no = pos 6 } ∷ []) armed)
    ≡ dump_writes (game ∷ []) segfault ∷ []
dumps-handle_all_example =
    dumps-handle_all segfault (record segfault { signal_no = pos 6 } ∷ []) armed refl
