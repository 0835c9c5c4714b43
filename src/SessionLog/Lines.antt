-- ===== src/SessionLog/Lines.antt =====
-- The lines that the log file holds.
use tombstack_native.Prelude.{
  take_else, take_then, ◌+◌, ◌≤◌, ◌<◌, ◌≡◌, refl, sym, ap, ◌∙◌, ◌⊎◌, inl, inr, true, false, not,
  ◌||◌, List, [], ◌∷◌, ◌++◌, append-nil, append_assoc, arith, ltb, leb, if◌then◌else◌, leb→le,
  Bool-cases, length, is_empty, length-append, Bytes,
}
use tombstack_native.SessionLog.{
  SessionLog, Disk, max_log_bytes, max_pending_bytes, line_text, append, take_pending,
  overflow_line, text_of, write_chunk, flush_now,
}

-- A call of `append`: time stamp, level, message.
abbrev pub Line : Type 0
Line = Bytes × Bytes × Bytes

unfoldable pub append_all : List Line → SessionLog → SessionLog
append_all [] s = s
append_all ((ts, level, message) ∷ ls) s = append_all ls (append ts level message s)

abbrev pub lines_text : List Line → Bytes
lines_text [] = []
lines_text ((ts, level, message) ∷ ls) =
    (if is_empty message then [] else line_text ts level message) ++ lines_text ls

append_lem :
    (ts level message : Bytes) (s : SessionLog)
    → length s.pending < max_pending_bytes
    → append ts level message s ≡ record s {
      pending = s.pending ++ (if is_empty message then [] else line_text ts level message);
    }
unfolding append
append_lem ts level [] s h = ap (λ p. record s { pending = p }) (sym (append-nil s.pending))
append_lem ts level (c ∷ message) s h =
    ap
      (λ b.
        if b
        then record s { dropped_lines = s.dropped_lines + 1 }
        else record s { pending = s.pending ++ line_text ts level (c ∷ message) })
      (not_full (Bool-cases (leb max_pending_bytes (length s.pending))))
  where
    not_full :
        (leb max_pending_bytes (length s.pending) ≡ true)
          ⊎ (leb max_pending_bytes (length s.pending) ≡ false)
        → leb max_pending_bytes (length s.pending) ≡ false
    not_full (inl e) = absurd (omega (arith, leb→le _ _ e))
    not_full (inr e) = e

append_all_lem :
    (ls : List Line) (s : SessionLog)
    → length s.pending + length (lines_text ls) < max_pending_bytes
    → append_all ls s ≡ record s { pending = s.pending ++ lines_text ls }
unfolding append_all
append_all_lem [] s h = ap (λ p. record s { pending = p }) (sym (append-nil s.pending))
append_all_lem ((ts, level, message) ∷ ls) s h =
    let line = if is_empty message then [] else line_text ts level message in
    let pushed : SessionLog = record s { pending = s.pending ++ line } in
    ap (append_all ls) (append_lem ts level message s (omega arith))
    ∙ append_all_lem ls pushed
        (omega (arith, length-append s.pending line, length-append line (lines_text ls)))
    ∙ ap (λ p. record s { pending = p }) (append_assoc s.pending line (lines_text ls))

-- what `take_pending` does when no line was dropped
record Taken (r : SessionLog × Bytes) (s : SessionLog) : Type 0 where
  chunk : r.1 ≡ s.pending
  current : r.0.current ≡ s.current
  configured : r.0.configured ≡ s.configured
  file_bytes : r.0.file_bytes ≡ s.file_bytes

empty_lem : (t : Bytes) → is_empty t ≡ true → [] ≡ t
empty_lem [] h = refl
empty_lem (c ∷ t) h = absurd (ground arith)

take_pending-Taken : (s : SessionLog) → s.dropped_lines ≡ 0 → Taken (take_pending s) s
unfolding take_pending
take_pending-Taken s d = elim (Bool-cases (is_empty s.pending)) [
  | inl e ↦ rw e (record {
    chunk = empty_lem s.pending e;
    current = refl;
    configured = refl;
    file_bytes = refl;
  })
  | inr e ↦ rw e (record {
    chunk = ap (λ n. s.pending ++ overflow_line n) d ∙ nothing s.pending;
    current = refl;
    configured = refl;
    file_bytes = refl;
  })
]
  where
    nothing : (t : Bytes) → t ++ overflow_line 0 ≡ t
    nothing t = unfold overflow_line in append-nil t

write_chunk-current :
    (disk : Disk) (chunk : Bytes) (s : SessionLog)
    → s.configured ≡ true
    → disk.appends ≡ true
    → s.file_bytes + length chunk ≤ max_log_bytes
    → text_of (write_chunk disk chunk s).current ≡ text_of s.current ++ chunk
unfolding write_chunk
write_chunk-current disk chunk s c a h =
    ap (λ (x : SessionLog). text_of x.current)
      (take_else (not s.configured || not disk.appends) _ _ (rw (c, a) refl)
        ∙ take_else (ltb max_log_bytes (s.file_bytes + length chunk)) _ _ (ground arith))

flush_now-current :
    (disk : Disk) (s : SessionLog)
    → s.configured ≡ true
    → disk.appends ≡ true
    → s.dropped_lines ≡ 0
    → s.file_bytes + length s.pending ≤ max_log_bytes
    → text_of (flush_now disk s).current ≡ text_of s.current ++ s.pending
unfolding flush_now
flush_now-current disk s c a d h =
    let taken = take_pending-Taken s d in
    let same : text_of (take_pending s).0.current ++ (take_pending s).1
        ≡ text_of s.current ++ s.pending =
      cc (taken.current, taken.chunk) in
    elim (Bool-cases (is_empty (take_pending s).1)) [
      | inl e ↦
          ap (λ (x : SessionLog). text_of x.current) (take_then (is_empty (take_pending s).1) _ _ e)
          ∙ sym (append-nil _)
          ∙ ap (λ t. text_of (take_pending s).0.current ++ t) (empty_lem _ e)
          ∙ same
      | inr e ↦
          ap (λ (x : SessionLog). text_of x.current) (take_else (is_empty (take_pending s).1) _ _ e)
          ∙ write_chunk-current disk (take_pending s).1 (take_pending s).0 (taken.configured ∙ c) a
              (omega (arith, taken.file_bytes, ap length taken.chunk, h))
          ∙ same
    ]

-- Where the buffer and the file have room, the file holds after a flush what it held before and
-- the text of every line appended since, in order; lines with an empty message have none.
pub flush_now-append_all :
    (disk : Disk) (ls : List Line) (s : SessionLog)
    → s.configured ≡ true
    → disk.appends ≡ true
    → s.pending ≡ []
    → s.dropped_lines ≡ 0
    → length (lines_text ls) < max_pending_bytes
    → s.file_bytes + length (lines_text ls) ≤ max_log_bytes
    → text_of (flush_now disk (append_all ls s)).current ≡ text_of s.current ++ lines_text ls
flush_now-append_all disk ls s c a p d h k =
    let appended : append_all ls s ≡ record s { pending = s.pending ++ lines_text ls } =
      append_all_lem ls s (omega (arith, ap length p)) in
    let text : s.pending ++ lines_text ls ≡ lines_text ls = ap (λ t. t ++ lines_text ls) p in
    ap (λ (x : SessionLog). text_of (flush_now disk x).current) appended
    ∙ flush_now-current disk (record s { pending = s.pending ++ lines_text ls }) c a d
        (omega (arith, ap length text))
    ∙ ap (λ t. text_of s.current ++ t) text
