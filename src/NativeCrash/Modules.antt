-- ===== src/NativeCrash/Modules.antt =====
-- `phdr_callback` of src/native_crash.cpp, over the objects that `dl_iterate_phdr` reports. A header
-- is a loaded range of addresses, a note segment with its address and its bytes, or another one;
-- an address wraps at the width of a pointer. The build id of
-- the slot that is filled is kept while objects without a loaded segment pass.
use tombstack_native.Prelude.{
  ℕ, ◌+◌, ◌%◌, ◌^◌, min, max, Option, none, some, List, [], ◌∷◌, ◌++◌, leb, if◌then◌else◌, length,
  take, Bytes, codes,
}
use tombstack_native.NativeCrash.{ModuleEntry}
use tombstack_native.NativeCrash.BuildId.{Segment, max_modules, max_name_len, read_build_id}

pub data Header : Type 0 where
  loaded : ℕ → ℕ → Header
  note : ℕ → Bytes → Header
  other : Header

pub record Object : Type 0 where
  pub name : Option Bytes
  pub addr : ℕ
  pub headers : List Header

-- The range so far, `none` before the first loaded segment, and the build id.
abbrev pub Range : Type 0
Range = Option (ℕ × ℕ) × Bytes

abbrev widen : ℕ → ℕ → Option (ℕ × ℕ) → ℕ × ℕ
widen lo hi none = (lo, hi)
widen lo hi (some (l, h)) = (min lo l, max hi h)

header : ℕ → ℕ → Header → Range → Range
header width addr (loaded vaddr size) (range, id) =
    let lo = (addr + vaddr) % 2 ^ width in (some (widen lo ((lo + size) % 2 ^ width) range), id)
header width addr (note vaddr bytes) (range, id) =
    let segment : Segment = record {
      width = width;
      start = (addr + vaddr) % 2 ^ width;
      bytes = bytes;
    } in
    (range, read_build_id segment id)
header width addr other (range, id) = (range, id)

pub scan_headers : ℕ → ℕ → List Header → Range → Range
unfolding header
scan_headers width addr [] range = range
scan_headers width addr (h ∷ hs) range = scan_headers width addr hs (header width addr h range)

abbrev object_name : Option Bytes → Bytes
object_name none = codes "main"
object_name (some []) = codes "main"
object_name (some (c ∷ cs)) = take max_name_len (c ∷ cs)

-- The modules, in order, and the build id that the next slot holds.
abbrev pub Table : Type 0
Table = List ModuleEntry × Bytes

add_module : Bytes → Range → List ModuleEntry → Table
add_module name (none, id) modules = (modules, id)
add_module name (some (lo, hi), id) modules =
    (modules ++ record { base = lo; end_address = hi; name = name; build_id = id } ∷ [], [])

unfoldable pub phdr_callback : ℕ → Object → Table → Table
unfolding scan_headers add_module
phdr_callback width object (modules, id) =
    if leb max_modules (length modules)
    then (modules, id)
    else add_module (object_name object.name)
        (scan_headers width object.addr object.headers (none, id)) modules

pub load_modules : ℕ → List Object → Table → Table
unfolding phdr_callback
load_modules width [] table = table
load_modules width (object ∷ objects) table =
    load_modules width objects (phdr_callback width object table)
