-- ===== src/SidecarQueue/Bounds.antt =====
-- The queue is bounded, and a file that was written stays until it is removed.
use tombstack_native.Prelude.{
  ◌+◌, ◌≤◌, ◌≡◌, refl, sym, ap, ◌∙◌, ◌≢◌, ◌⊎◌, inl, inr, Bool, true, false, not, ◌||◌, Option, none,
  some, [], ◌∷◌, arith, leb, Bool-cases, Option-cases, length, Bytes, str_eq, str_eq_iff,
  str_eq_refl,
}
use tombstack_native.Prelude.Assoc.{
  lookup, insert, lookup-insert, length-insert_new, length-insert_old,
}
use tombstack_native.SidecarQueue.{
  SidecarKind, crash, bug_report, event, SidecarPath, Dir, SidecarQueue, max_files_per_kind, dir_of,
  with_dir, Draw, write, remove, delete,
}

pub record IsBounded (q : SidecarQueue) : Type 0 where
  pub crashes : length q.crashes ≤ max_files_per_kind
  pub bug_reports : length q.bug_reports ≤ max_files_per_kind
  pub events : length q.events ≤ max_files_per_kind

pub insert_size : (k v : Bytes) (dir : Dir) → length (insert k v dir) ≤ length dir + 1
insert_size k v dir = elim (Option-cases (lookup k dir)) [
  | inl e ↦ omega (arith, length-insert_new k v dir e)
  | inr (w, e) ↦ omega (arith, length-insert_old k v dir e)
]

delete_size : (name : Bytes) (dir : Dir) → length (delete name dir) ≤ length dir
unfolding delete
delete_size name [] = omega arith
delete_size name ((n, body) ∷ dir) = ground (arith, delete_size name dir)

-- Writing, to whichever directory, keeps every directory at 64 files or fewer.
pub write-IsBounded :
    (kind : SidecarKind) (body : Bytes) (draw : Draw) (q : SidecarQueue)
    → IsBounded q
    → IsBounded (write kind body draw q).0
unfolding write
write-IsBounded crash body draw q v = ground (arith, insert_size draw.name body q.crashes)
write-IsBounded bug_report body draw q v = ground (arith, insert_size draw.name body q.bug_reports)
write-IsBounded event body draw q v = ground (arith, insert_size draw.name body q.events)

pub remove-IsBounded :
    (path : SidecarPath) (q : SidecarQueue) → IsBounded q → IsBounded (remove (some path) q)
unfolding remove
remove-IsBounded path q v = go path.kind
  where
    go : (k : SidecarKind) → IsBounded (with_dir k (delete path.name (dir_of k q)) q)
    go crash = ground (arith, delete_size path.name q.crashes)
    go bug_report = ground (arith, delete_size path.name q.bug_reports)
    go event = ground (arith, delete_size path.name q.events)

-- The body of a pending file.
abbrev pub body_at : SidecarPath → SidecarQueue → Option Bytes
body_at path q = lookup path.name (dir_of path.kind q)

abbrev pub is_full : SidecarKind → SidecarQueue → Bool
is_full kind q = leb max_files_per_kind (length (dir_of kind q))

abbrev pub refuses : SidecarKind → Draw → SidecarQueue → Bool
refuses kind draw q = not q.configured || is_full kind q || not draw.opens

pub write_refused :
    (kind : SidecarKind) (body : Bytes) (draw : Draw) (q : SidecarQueue)
    → refuses kind draw q ≡ true
    → write kind body draw q ≡ (q, none)
unfolding write
write_refused kind body draw q h = rw h

dir_of-with_dir :
    (kind : SidecarKind) (dir : Dir) (q : SidecarQueue) → dir_of kind (with_dir kind dir q) ≡ dir
dir_of-with_dir crash dir q = refl
dir_of-with_dir bug_report dir q = refl
dir_of-with_dir event dir q = refl

-- A write that is not refused (the queue is configured, the directory holds fewer than 64 files,
-- the file opens) answers with its path, and the file there holds the body.
pub write_stored :
    (kind : SidecarKind) (body : Bytes) (draw : Draw) (q : SidecarQueue)
    → refuses kind draw q ≡ false
    → ((write kind body draw q).1 ≡ some (record { kind = kind; name = draw.name }))
      × (body_at (record { kind = kind; name = draw.name }) (write kind body draw q).0 ≡ some body)
unfolding write
write_stored kind body draw q h = rw h (
  refl,
  rw (
    dir_of-with_dir kind (insert draw.name body (dir_of kind q)) q,
    lookup-insert,
    str_eq_refl draw.name,
  ),
)

other_dir :
    (a b : SidecarKind) (name : Bytes) (dir : Dir) (q : SidecarQueue)
    → (a ≡ b → lookup name dir ≡ lookup name (dir_of a q))
    → lookup name (dir_of a (with_dir b dir q)) ≡ lookup name (dir_of a q)
other_dir crash crash name dir q h = h refl
other_dir bug_report bug_report name dir q h = h refl
other_dir event event name dir q h = h refl
other_dir _ _ name dir q h = refl

lookup-delete : (name : Bytes) (dir : Dir) → lookup name (delete name dir) ≡ none
unfolding lookup delete
lookup-delete name [] = refl
lookup-delete name ((n, body) ∷ dir) = ground (arith, lookup-delete name dir)

lookup-delete_ne :
    (name j : Bytes) (dir : Dir) → str_eq name j ≡ false → lookup j (delete name dir) ≡ lookup j dir
unfolding lookup delete
lookup-delete_ne name j [] h = refl
lookup-delete_ne name j ((n, body) ∷ dir) h =
    ground
      (arith, lookup-delete_ne name j dir, str_eq_iff n name, str_eq_iff n j, str_eq_iff name j)

-- After `remove` of a path the queue holds no file there.
pub body_at-remove :
    (path : SidecarPath) (q : SidecarQueue) → body_at path (remove (some path) q) ≡ none
unfolding remove
body_at-remove path q =
    rw (dir_of-with_dir path.kind (delete path.name (dir_of path.kind q)) q)
      (lookup-delete path.name _)

-- A write, refused or not, changes no file but that of the name it draws.
pub write_keeps :
    (kind : SidecarKind) (body : Bytes) (draw : Draw) (q : SidecarQueue) (path : SidecarPath)
    → str_eq draw.name path.name ≡ false
    → body_at path (write kind body draw q).0 ≡ body_at path q
unfolding write
write_keeps kind body draw q path h = elim (Bool-cases (refuses kind draw q)) [
  | inl no' ↦ rw no'
  | inr go ↦ rw go (
      other_dir path.kind kind path.name (insert draw.name body (dir_of kind q)) q
        (λ e. rw (lookup-insert, h) (ap (λ k. lookup path.name (dir_of k q)) (sym e))))
]

-- Removing one file changes no file of another name.
pub remove_keeps :
    (gone : Option SidecarPath) (q : SidecarQueue) (path : SidecarPath)
    → ((p : SidecarPath) → gone ≡ some p → str_eq p.name path.name ≡ false)
    → body_at path (remove gone q) ≡ body_at path q
unfolding remove
remove_keeps none q path h = refl
remove_keeps (some p) q path h =
    other_dir path.kind p.kind path.name (delete p.name (dir_of p.kind q)) q (λ e.
      lookup-delete_ne p.name path.name (dir_of p.kind q) (h p refl)
      ∙ ap (λ k. lookup path.name (dir_of k q)) (sym e))

-- and no file of another kind
pub remove_other :
    (path other : SidecarPath) (q : SidecarQueue)
    → (other.kind ≢ path.kind) ⊎ (str_eq path.name other.name ≡ false)
    → body_at other (remove (some path) q) ≡ body_at other q
unfolding remove
remove_other path other q (inl kinds) =
    other_dir other.kind path.kind other.name (delete path.name (dir_of path.kind q)) q
      (λ e. absurd (kinds e))
remove_other path other q (inr names) =
    other_dir other.kind path.kind other.name (delete path.name (dir_of path.kind q)) q (λ e.
      lookup-delete_ne path.name other.name (dir_of path.kind q) names
      ∙ ap (λ k. lookup other.name (dir_of k q)) (sym e))
