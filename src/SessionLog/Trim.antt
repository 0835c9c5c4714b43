-- ===== src/SessionLog/Trim.antt =====
-- What a trim keeps of the log.
use tombstack_native.Prelude.{
  ℕ, ◌-◌, ◌≤◌, ◌≡◌, refl, sym, ap, ◌∙◌, ◌⊎◌, inl, inr, true, [], ◌∷◌, ◌++◌, append_assoc, arith,
  ◌==◌, Bool-cases, length, take, drop, length-drop, take-append-drop, Bytes,
}
use tombstack_native.SessionLog.{trimmed_log_bytes, ends_line, skip_line, newest_lines}
use tombstack_native.SessionLog.Bounds.{length-skip_line}

-- What a trim keeps: the end of the log, from the beginning of a line on.
pub record Trims (all kept : Bytes) : Type 0 where
  pub front : Bytes
  pub splits : all ≡ front ++ kept
  pub at_line : (kept ≡ []) ⊎ (ends_line front ≡ true)

ends_line-cons : (c : ℕ) (t : Bytes) → ends_line t ≡ true → ends_line (c ∷ t) ≡ true
ends_line-cons c [] h = absurd (ground arith)
ends_line-cons c (d ∷ t) h = h

ends_line-append : (s t : Bytes) → ends_line t ≡ true → ends_line (s ++ t) ≡ true
ends_line-append [] t h = h
ends_line-append (c ∷ s) t h = ends_line-cons c (s ++ t) (ends_line-append s t h)

later_line :
    (s front kept : Bytes)
    → (kept ≡ []) ⊎ (ends_line front ≡ true)
    → (kept ≡ []) ⊎ (ends_line (s ++ front) ≡ true)
later_line s front kept (inl e) = inl e
later_line s front kept (inr h) = inr (ends_line-append s front h)

skip_line-Trims : (t : Bytes) → Trims t (skip_line t)
unfolding skip_line
skip_line-Trims [] = record { front = []; splits = refl; at_line = inl refl }
skip_line-Trims (c ∷ cs) =
    let rest = skip_line-Trims cs in
    elim (Bool-cases (c == 10)) [
      | inl e ↦ rw e (record { front = c ∷ []; splits = refl; at_line = inr e })
      | inr e ↦ rw e (record {
        front = c ∷ rest.front;
        splits = ap (◌∷◌ c) rest.splits;
        at_line = later_line (c ∷ []) rest.front (skip_line cs) rest.at_line;
      })
    ]

-- A trim keeps at most 256 KB, the end of the log, and begins with a whole line, if anything is
-- kept.
pub newest_lines-Trims :
    (all : Bytes)
    → Trims all (newest_lines all)
      × (length (newest_lines all) ≤ length all - (length all - trimmed_log_bytes))
newest_lines-Trims all =
    let k = length all - trimmed_log_bytes in
    let rest = skip_line-Trims (drop k all) in
    (
      record {
        front = take k all ++ rest.front;
        splits =
            sym (take-append-drop k all)
            ∙ ap (λ t. take k all ++ t) rest.splits
            ∙ sym (append_assoc (take k all) rest.front (newest_lines all));
        at_line = later_line (take k all) rest.front (newest_lines all) rest.at_line;
      },
      omega (arith, length-skip_line (drop k all), length-drop k all),
    )
