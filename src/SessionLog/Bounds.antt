-- ===== src/SessionLog/Bounds.antt =====
-- The bound of the log file.
use tombstack_native.Prelude.{
  ◌+◌, ◌-◌, ◌≤◌, ◌≡◌, refl, ap, inl, inr, Bool, true, false, not, ◌||◌, [], ◌∷◌, arith, ltb, leb,
  if◌then◌else◌, leb→le, ltb_refuted, Bool-cases, length, is_empty, drop, length-append,
  length-drop, Bytes,
}
use tombstack_native.SessionLog.{
  SessionLog, Disk, max_log_bytes, trimmed_log_bytes, take_pending, text_of, read_file, skip_line,
  newest_lines, trim_from_front, write_chunk, flush_now,
}

-- The counter is the size of the file, and the file is within its bound.
pub record IsBounded (s : SessionLog) : Type 0 where
  pub counted : s.file_bytes ≡ length (text_of s.current)
  pub within : s.file_bytes ≤ max_log_bytes

pub length-skip_line : (t : Bytes) → length (skip_line t) ≤ length t
unfolding skip_line
length-skip_line [] = omega arith
length-skip_line (c ∷ cs) = ground (arith, length-skip_line cs)

length-newest_lines : (t : Bytes) → length (newest_lines t) ≤ max_log_bytes
length-newest_lines t = omega (
  arith,
  length-skip_line (drop (length t - trimmed_log_bytes) t),
  length-drop (length t - trimmed_log_bytes) t,
)

if-IsBounded :
    (b : Bool) (v w : SessionLog)
    → (b ≡ true → IsBounded v)
    → (b ≡ false → IsBounded w)
    → IsBounded (if b then v else w)
if-IsBounded true v w h k = h refl
if-IsBounded false v w h k = k refl

trim-IsBounded :
    (disk : Disk) (s : SessionLog)
    → disk.reads ≡ true
    → disk.truncates ≡ true
    → IsBounded (trim_from_front disk s)
unfolding trim_from_front
trim-IsBounded disk s r t =
    let all = read_file disk s.current in
    let e : all ≡ text_of s.current = rw r refl in
    if-IsBounded (leb (length all) trimmed_log_bytes) _ _
      (λ short. record { counted = ap length e; within = omega (arith, leb→le _ _ short) })
      (λ long.
        if-IsBounded (not disk.truncates) s _ (λ n. absurd (ground arith))
          (λ yes. record { counted = refl; within = length-newest_lines all }))

write_chunk-IsBounded :
    (disk : Disk) (chunk : Bytes) (s : SessionLog)
    → disk.reads ≡ true
    → disk.truncates ≡ true
    → IsBounded s
    → IsBounded (write_chunk disk chunk s)
unfolding write_chunk
write_chunk-IsBounded disk chunk s r t v =
    if-IsBounded (not s.configured || not disk.appends) s _ (λ no'. v)
      (λ yes.
        if-IsBounded (ltb max_log_bytes (s.file_bytes + length chunk)) _ _
          (λ over. trim-IsBounded disk _ r t)
          (λ fits. record {
            counted = omega (arith, v.counted, length-append (text_of s.current) chunk);
            within = omega (arith, ltb_refuted _ _ fits);
          }))

taken-IsBounded : (s : SessionLog) → IsBounded s → IsBounded (take_pending s).0
unfolding take_pending
taken-IsBounded s v = elim (Bool-cases (is_empty s.pending)) [
  | inl e ↦ rw e v
  | inr e ↦ rw e (record { counted = v.counted; within = v.within })
]

-- If the file system reads and truncates the log, `flush_now` keeps the file at 512 KB or less,
-- however much was buffered, with a counter that is the file's size.
pub flush_now-IsBounded :
    (disk : Disk) (s : SessionLog)
    → disk.reads ≡ true
    → disk.truncates ≡ true
    → IsBounded s
    → IsBounded (flush_now disk s)
unfolding flush_now
flush_now-IsBounded disk s r t v =
    let taken = taken-IsBounded s v in
    if-IsBounded (is_empty (take_pending s).1) (take_pending s).0 _ (λ nothing. taken)
      (λ chunk. write_chunk-IsBounded disk (take_pending s).1 (take_pending s).0 r t taken)
