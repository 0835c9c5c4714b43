-- ===== src/Dedupe/Window.antt =====
-- What reports pass, over any history of calls.
use tombstack_native.Prelude.{
  ℕ, ◌+◌, ◌≤◌, ◌<◌, ◌≡◌, refl, ◌∙◌, inl, inr, Bool, true, false, none, some, List, [], ◌∷◌, arith,
  ltb, lt→ltb, Bool-cases, Option-cases, length, All, Bytes, str_eq, str_eq_iff, str_eq_refl,
}
use tombstack_native.Prelude.Assoc.{
  lookup, insert, lookup-insert, length-insert_new, length-insert_old,
}
use tombstack_native.Dedupe.{
  Entry, DedupeWindow, Decision, max_tracked_signatures, allow, new_window, check, check_entry,
}

abbrev pub Call : Type 0
Call = Bytes × ℕ

-- the decisions of a history of calls, and the state behind it
unfoldable pub run : DedupeWindow → List Call → DedupeWindow × List Decision
run d [] = (d, [])
run d ((signature, now) ∷ calls) =
    let (d', decision) = check signature now d in
    let (d'', decisions) = run d' calls in (d'', decision ∷ decisions)

abbrev IsBounded : DedupeWindow → Type 0
IsBounded d = length d.recent ≤ max_tracked_signatures

check-IsBounded :
    (signature : Bytes) (now : ℕ) (d : DedupeWindow)
    → IsBounded d
    → IsBounded (check signature now d).0
unfolding check insert
check-IsBounded signature now d h = elim (Option-cases (lookup signature d.recent)) [
  | inl e ↦
      rw (e, check_entry)
        (ground (
          arith,
          length-insert_new signature (record { last_sent = now; suppressed = 0 }) d.recent e,
        ))
  | inr (entry, e) ↦
      rw (e, check_entry)
        (ground (
          arith,
          length-insert_old signature (record entry { suppressed = entry.suppressed + 1 }) d.recent
              e,
          length-insert_old signature (record { last_sent = now; suppressed = 0 }) d.recent e,
        ))
]

run-IsBounded : (d : DedupeWindow) (calls : List Call) → IsBounded d → IsBounded (run d calls).0
unfolding run
run-IsBounded d [] h = h
run-IsBounded d ((signature, now) ∷ calls) h =
    run-IsBounded (check signature now d).0 calls (check-IsBounded signature now d h)

-- However many calls are made, the map never holds more than 64 signatures.
pub run-bounded :
    (window : ℕ) (calls : List Call)
    → length (run (new_window window) calls).0.recent ≤ max_tracked_signatures
run-bounded window calls = run-IsBounded (new_window window) calls (omega arith)

-- A signature that the map does not hold is reported at once, full map or not, and is held from
-- then on, since this time.
pub check_new_signature :
    (signature : Bytes) (now : ℕ) (d : DedupeWindow)
    → lookup signature d.recent ≡ none
    → ((check signature now d).1 ≡ allow)
      × (lookup signature (check signature now d).0.recent
          ≡ some (record { last_sent = now; suppressed = 0 }))
unfolding check
check_new_signature signature now d h =
    rw (h, check_entry) (rw (lookup-insert, str_eq_refl signature) (refl, refl))

-- The state of one signature after a call for it.
held :
    (signature : Bytes) (now : ℕ) (d : DedupeWindow) (e : Entry)
    → lookup signature d.recent ≡ some e
    → ltb now (e.last_sent + d.window) ≡ true
    → ((check signature now d).1 ≡ record { allowed = false; suppressed_count = e.suppressed + 1 })
      × (lookup signature (check signature now d).0.recent
          ≡ some (record e { suppressed = e.suppressed + 1 }))
      × (length (check signature now d).0.recent ≡ length d.recent)
      × ((check signature now d).0.window ≡ d.window)
unfolding check
held signature now d e h w =
    rw (h, check_entry)
      (rw (w, check_entry)
        (rw (lookup-insert, str_eq_refl signature)
          (refl, refl, length-insert_old signature _ d.recent h, refl)))

-- A call for another signature, while there is room, leaves the entry alone.
other :
    (s signature : Bytes) (now : ℕ) (d : DedupeWindow)
    → str_eq signature s ≡ false
    → length d.recent < max_tracked_signatures
    → (lookup s (check signature now d).0.recent ≡ lookup s d.recent)
      × (length (check signature now d).0.recent ≤ length d.recent + 1)
      × ((check signature now d).0.window ≡ d.window)
unfolding check
other s signature now d ne room = elim (Option-cases (lookup signature d.recent)) [
  | inl e ↦
      rw (e, check_entry)
        (ground (
          arith,
          lookup-insert signature s (record { last_sent = now; suppressed = 0 }) d.recent,
          length-insert_new signature (record { last_sent = now; suppressed = 0 }) d.recent e,
        ))
  | inr (entry, e) ↦
      rw (e, check_entry)
        (ground (
          arith,
          lookup-insert signature s (record entry { suppressed = entry.suppressed + 1 }) d.recent,
          lookup-insert signature s (record { last_sent = now; suppressed = 0 }) d.recent,
          length-insert_old signature (record entry { suppressed = entry.suppressed + 1 }) d.recent
              e,
          length-insert_old signature (record { last_sent = now; suppressed = 0 }) d.recent e,
        ))
]

-- The one statement or the other, by a test.
abbrev pub Either : Bool → Type 0 → Type 0 → Type 0
Either true P Q = P
Either false P Q = Q

Either_true : (P Q : Type 0) (b : Bool) → b ≡ true → P → Either b P Q
Either_true P Q true h p = p
Either_true P Q false h p = absurd (ground arith)

Either_false : (P Q : Type 0) (b : Bool) → b ≡ false → Q → Either b P Q
Either_false P Q true h q = absurd (ground arith)
Either_false P Q false h q = q

-- Every decision on `s` is a refusal, and they are numbered from n + 1.
abbrev pub Refused : Bytes → ℕ → List Call → List Decision → Type 0
Refused s n [] decisions = Unit
Refused s n (call ∷ calls) [] = ⊥
Refused s n ((signature, now) ∷ calls) (decision ∷ decisions) =
    Either (str_eq signature s)
      ((decision ≡ record { allowed = false; suppressed_count = n + 1 })
        × Refused s (n + 1) calls decisions)
      (Refused s n calls decisions)

-- While an entry of `s` is in its window, and the map has room for as many new signatures as there
-- are calls, no call reports `s`, and each refusal gives the number of repeats so far.
pub run-Refused :
    (s : Bytes) (e : Entry) (d : DedupeWindow) (calls : List Call)
    → lookup s d.recent ≡ some e
    → length d.recent + length calls ≤ max_tracked_signatures
    → All (λ call. call.1 < e.last_sent + d.window) calls
    → Refused s e.suppressed calls (run d calls).1
unfolding run
run-Refused s e d [] h room early = tt
run-Refused s e d ((signature, now) ∷ calls) h room early = elim (Bool-cases (str_eq signature s)) [
  | inl same ↦
      let (refused, found, size, window) = held s now d e h (lt→ltb _ _ early.0) in
      let next : Entry = record e { suppressed = e.suppressed + 1 } in
      Either_true _ _ (str_eq signature s) same (
        rw ((str_eq_iff signature s).0 same) (
          refused,
          run-Refused s next (check s now d).0 calls found (omega arith) (rw window early.1),
        ))
  | inr ne ↦
      let (kept, size, window) = other s signature now d ne (omega arith) in
      Either_false _ _ (str_eq signature s) ne (
        run-Refused s e (check signature now d).0 calls (kept ∙ h) (omega arith)
          (rw window early.1))
]
