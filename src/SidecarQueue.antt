-- ===== src/SidecarQueue.antt =====
-- src/sidecar_queue.h and src/sidecar_queue.cpp: the pending files, one directory for each kind. A
-- directory is the list of its regular files with their contents. What `unique_file_name` draws
-- from the clock and the random engine is an argument, and so is whether the stream opens; an open
-- stream takes the whole body, and a file that is there can be deleted.
pub mod Bounds
mod Tests
use tombstack_native.Prelude.{
  ℕ, ◌+◌, Bool, false, not, ◌&&◌, ◌||◌, Option, none, some, List, [], ◌∷◌, ◌++◌, leb, if◌then◌else◌,
  length, is_empty, drop, Bytes, codes, str_eq,
}
use tombstack_native.Prelude.Assoc.{insert}

pub data SidecarKind : Type 0 where
  crash bug_report event : SidecarKind

-- a path under `pending/`
pub record SidecarPath : Type 0 where
  pub kind : SidecarKind
  pub name : Bytes

pub record SidecarRecord : Type 0 where
  pub kind : SidecarKind
  pub path : SidecarPath
  pub body : Bytes

abbrev pub Dir : Type 0
Dir = List (Bytes × Bytes)

pub record SidecarQueue : Type 0 where
  pub crashes : Dir
  pub bug_reports : Dir
  pub events : Dir
  pub configured : Bool

abbrev pub max_files_per_kind : ℕ
max_files_per_kind = 64

-- `kind_dir`
abbrev pub dir_of : SidecarKind → SidecarQueue → Dir
dir_of crash q = q.crashes
dir_of bug_report q = q.bug_reports
dir_of event q = q.events

abbrev pub with_dir : SidecarKind → Dir → SidecarQueue → SidecarQueue
with_dir crash dir q = record q { crashes = dir }
with_dir bug_report dir q = record q { bug_reports = dir }
with_dir event dir q = record q { events = dir }

pub record Draw : Type 0 where
  pub name : Bytes
  pub opens : Bool

unfoldable pub write : SidecarKind → Bytes → Draw → SidecarQueue → SidecarQueue × Option SidecarPath
write kind body draw q =
    if not q.configured || leb max_files_per_kind (length (dir_of kind q)) || not draw.opens
    then (q, none)
    else (
      with_dir kind (insert draw.name body (dir_of kind q)) q,
      some (record { kind = kind; name = draw.name }),
    )

delete : Bytes → Dir → Dir
delete name [] = []
delete name ((n, body) ∷ dir) =
    if str_eq n name then delete name dir else (n, body) ∷ delete name dir

-- `remove`, where the empty path is `none`
unfoldable pub remove : Option SidecarPath → SidecarQueue → SidecarQueue
unfolding delete
remove none q = q
remove (some path) q = with_dir path.kind (delete path.name (dir_of path.kind q)) q

-- `extension() == ".json"`
pub is_json_name : Bytes → Bool
is_json_name [] = false
is_json_name (c ∷ cs) = str_eq (c ∷ cs) (codes ".json") || is_json_name cs

scan_dir : SidecarKind → Dir → List SidecarRecord
unfolding is_json_name
scan_dir kind [] = []
scan_dir kind ((name, body) ∷ dir) =
    let rest = scan_dir kind dir in
    if is_json_name (drop 1 name) && not (is_empty body)
    then record { kind = kind; path = record { kind = kind; name = name }; body = body } ∷ rest
    else rest

unfoldable pub scan : SidecarQueue → List SidecarRecord
unfolding scan_dir
scan q =
    if not q.configured
    then []
    else scan_dir crash q.crashes ++ (scan_dir bug_report q.bug_reports ++ scan_dir event q.events)

unfoldable pub pending_count : SidecarQueue → ℕ
pending_count q =
    if not q.configured then 0 else length q.crashes + length q.bug_reports + length q.events
