-- ===== src/Json/Utf8/Valid.antt =====
-- Truncation against the encoding: what is cut off are whole sequences, and as few as possible.
use Prim.Native.Nat.{bit_and}
use tombstack_native.Prelude.{
  ℕ, zero, suc, ◌+◌, ◌≤◌, ◌<◌, min, ◌≡◌, refl, sym, ap, subst, ◌≢◌, ◌⊎◌, inl, inr, Bool, true,
  false, not, ◌&&◌, [], ◌∷◌, ◌++◌, arith, ltb, leb, ◌==◌, if◌then◌else◌, ltb→lt, ltb_refuted, tests,
  Bool-cases, length, get_or, take, drop, length-take, Bytes,
}
use tombstack_native.Json.Utf8.{is_continuation, back_off, utf8_safe_truncate}

abbrev pub IsTail : ℕ → Type 0
IsTail c = (0x80 ≤ c) × (c < 0xC0)

-- Well-formed UTF-8, by the table of the Unicode standard: each lead byte has as many continuation
-- bytes as its range says, and the second byte excludes what is overlong, a surrogate, or above
-- U+10FFFF.
pub data IsUtf8 : Bytes → Type 0 where
  nil : IsUtf8 []
  one : {c : ℕ} {cs : Bytes} → c < 0x80 → IsUtf8 cs → IsUtf8 (c ∷ cs)
  two : {c d : ℕ} {cs : Bytes} → 0xC2 ≤ c → c < 0xE0 → IsTail d → IsUtf8 cs → IsUtf8 (c ∷ d ∷ cs)
  three :
      {c d e : ℕ} {cs : Bytes}
      → 0xE0 ≤ c
      → c < 0xF0
      → IsTail d
      → IsTail e
      → ((0xE1 ≤ c) ⊎ (0xA0 ≤ d)) × ((c ≢ 0xED) ⊎ (d < 0xA0))
      → IsUtf8 cs
      → IsUtf8 (c ∷ d ∷ e ∷ cs)
  four :
      {c d e f : ℕ} {cs : Bytes}
      → 0xF0 ≤ c
      → c < 0xF5
      → IsTail d
      → IsTail e
      → IsTail f
      → ((0xF1 ≤ c) ⊎ (0x90 ≤ d)) × ((c < 0xF4) ⊎ (d < 0x90))
      → IsUtf8 cs
      → IsUtf8 (c ∷ d ∷ e ∷ f ∷ cs)

abbrev in_tail : ℕ → Bool
in_tail c = leb 0x80 c && ltb c 0xC0

-- the mask test against the range, on the bytes below a bound
mask_agrees : ℕ → Bool
mask_agrees zero = true
mask_agrees (suc c) =
    let rest = mask_agrees c in
    if bit_and c 0xC0 == 0x80 then in_tail c && rest else not (in_tail c) && rest

both : (a b r : Bool) → (if a then b && r else not b && r) ≡ true → (a ≡ b) × (r ≡ true)
both true true r h = (refl, h)
both true false r h = absurd (ground arith)
both false true r h = absurd (ground arith)
both false false r h = (refl, h)

mask_agrees-at :
    (bound c : ℕ) → c < bound → mask_agrees bound ≡ true → (bit_and c 0xC0 == 0x80) ≡ in_tail c
unfolding mask_agrees
mask_agrees-at zero c k h = absurd (omega arith)
mask_agrees-at (suc bound) c k h =
    let (here, below) = both (bit_and bound 0xC0 == 0x80) (in_tail bound) (mask_agrees bound) h in
    elim (Bool-cases (ltb c bound)) [
      | inl less ↦ mask_agrees-at bound c (ltb→lt _ _ less) below
      | inr not_less ↦
          let e : bound ≡ c = omega (arith, ltb_refuted _ _ not_less) in
          subst (λ x. (bit_and x 0xC0 == 0x80) ≡ in_tail x) e here
    ]

bytes_agree : mask_agrees 256 ≡ true
unfolding mask_agrees
bytes_agree = refl

-- The mask test is the test for the range, on every byte.
is_continuation-in_tail : (c : ℕ) → c < 256 → is_continuation c ≡ in_tail c
unfolding is_continuation
is_continuation-in_tail c h = mask_agrees-at 256 c h bytes_agree

tail_continues : (c : ℕ) → IsTail c → is_continuation c ≡ true
tail_continues c h = ground (arith, is_continuation-in_tail c)

low_stops : (c : ℕ) → c < 0x80 → is_continuation c ≡ false
low_stops c h = ground (arith, is_continuation-in_tail c)

high_stops : (c : ℕ) → 0xC0 ≤ c → c < 0x100 → is_continuation c ≡ false
high_stops c h k = ground (arith, is_continuation-in_tail c)

-- no sequence begins with a continuation byte
head_stops : {v : Bytes} → IsUtf8 v → is_continuation (get_or v 0 0) ≡ false
head_stops nil = low_stops 0 (omega arith)
head_stops (one {c} h r) = low_stops c h
head_stops (two {c} h k _ r) = high_stops c (omega arith) (omega arith)
head_stops (three {c} h k _ _ _ r) = high_stops c (omega arith) (omega arith)
head_stops (four {c} h k _ _ _ _ r) = high_stops c (omega arith) (omega arith)

-- The loop on a longer text, one byte in front.
back_off-cons :
    (c : ℕ) (v : Bytes) (n : ℕ)
    → back_off (c ∷ v) (suc n)
      ≡ (if back_off v n == 0 && is_continuation (get_or v 0 0) then 0 else suc (back_off v n))
unfolding back_off
back_off-cons c v zero = ground arith
back_off-cons c v (suc n) = ground (arith, back_off-cons c v n)

-- the loop past the bytes of one sequence
module _ (v : Bytes) (valid : IsUtf8 v) where
  after_one : (c n : ℕ) → back_off (c ∷ v) (suc n) ≡ suc (back_off v n)
  after_one c n = ground (arith, back_off-cons c v n, head_stops valid)

  after_two : (c d n : ℕ) → back_off (c ∷ d ∷ v) (suc (suc n)) ≡ suc (suc (back_off v n))
  after_two c d n = ground (arith, back_off-cons c (d ∷ v) (suc n), after_one d n)

  after_three :
      (c d e n : ℕ) → back_off (c ∷ d ∷ e ∷ v) (suc (suc (suc n))) ≡ suc (suc (suc (back_off v n)))
  after_three c d e n = ground (arith, back_off-cons c (d ∷ e ∷ v) (suc (suc n)), after_two d e n)

  after_four :
      (c d e f n : ℕ)
      → back_off (c ∷ d ∷ e ∷ f ∷ v) (suc (suc (suc (suc n))))
        ≡ suc (suc (suc (suc (back_off v n))))
  after_four c d e f n =
      ground (arith, back_off-cons c (d ∷ e ∷ f ∷ v) (suc (suc (suc n))), after_three d e f n)

inside_two : (c d : ℕ) (v : Bytes) → IsTail d → back_off (c ∷ d ∷ v) 1 ≡ 0
unfolding back_off
inside_two c d v h = ground (arith, tail_continues d h)

inside_three : (c d e : ℕ) (v : Bytes) → IsTail d → IsTail e → back_off (c ∷ d ∷ e ∷ v) 2 ≡ 0
unfolding back_off
inside_three c d e v h k = ground (arith, tail_continues d h, tail_continues e k)

inside_four :
    (c d e f : ℕ) (v : Bytes) → IsTail d → IsTail e → IsTail f → back_off (c ∷ d ∷ e ∷ f ∷ v) 3 ≡ 0
unfolding back_off
inside_four c d e f v h k l =
    ground (arith, tail_continues d h, tail_continues e k, tail_continues f l)

-- What the loop ends at, at most three bytes below its start, with the text up to there.
abbrev EndsAt : Bytes → ℕ → ℕ → Type 0
EndsAt v n e = IsUtf8 (take e v) × (e ≤ n) × (n ≤ e + 3)

back_off-zero : (v : Bytes) → EndsAt v 0 (back_off v 0)
unfolding back_off
back_off-zero v = (nil, omega arith, omega arith)

-- the loop inside the first sequence goes back to the start
at_start : {n e : ℕ} (v : Bytes) → e ≡ 0 → n ≤ 3 → EndsAt v n e
at_start {n} v h k = subst (EndsAt v n) (sym h) (nil, omega arith, omega arith)

back_off-nil : (n : ℕ) → EndsAt [] n (back_off [] n)
unfolding back_off
back_off-nil zero = back_off-zero []
back_off-nil (suc n) = rw (low_stops 0 (omega arith)) (nil, omega arith, omega arith)

back_off-EndsAt : {v : Bytes} → IsUtf8 v → (n : ℕ) → EndsAt v n (back_off v n)
back_off-EndsAt {v} nil n = back_off-nil n
back_off-EndsAt {v} (one h r) zero = back_off-zero v
back_off-EndsAt (one {c} {cs} h r) (suc n) =
    let (u, a, b) = back_off-EndsAt r n in
    rw (after_one cs r c n) (one h u, omega arith, omega arith)
back_off-EndsAt {v} (two h k t r) zero = back_off-zero v
back_off-EndsAt {v} (two {c} {d} {cs} h k t r) (suc zero) =
    at_start v (inside_two c d cs t) (omega arith)
back_off-EndsAt (two {c} {d} {cs} h k t r) (suc (suc n)) =
    let (u, a, b) = back_off-EndsAt r n in
    rw (after_two cs r c d n) (two h k t u, omega arith, omega arith)
back_off-EndsAt {v} (three h k t t' x r) zero = back_off-zero v
back_off-EndsAt {v} (three {c} {d} {e} {cs} h k t t' x r) (suc zero) =
    at_start v (inside_two c d (e ∷ cs) t) (omega arith)
back_off-EndsAt {v} (three {c} {d} {e} {cs} h k t t' x r) (suc (suc zero)) =
    at_start v (inside_three c d e cs t t') (omega arith)
back_off-EndsAt (three {c} {d} {e} {cs} h k t t' x r) (suc (suc (suc n))) =
    let (u, a, b) = back_off-EndsAt r n in
    rw (after_three cs r c d e n) (three h k t t' x u, omega arith, omega arith)
back_off-EndsAt {v} (four h k t t' s x r) zero = back_off-zero v
back_off-EndsAt {v} (four {c} {d} {e} {f} {cs} h k t t' s x r) (suc zero) =
    at_start v (inside_two c d (e ∷ f ∷ cs) t) (omega arith)
back_off-EndsAt {v} (four {c} {d} {e} {f} {cs} h k t t' s x r) (suc (suc zero)) =
    at_start v (inside_three c d e (f ∷ cs) t t') (omega arith)
back_off-EndsAt {v} (four {c} {d} {e} {f} {cs} h k t t' s x r) (suc (suc (suc zero))) =
    at_start v (inside_four c d e f cs t t' s) (omega arith)
back_off-EndsAt (four {c} {d} {e} {f} {cs} h k t t' s x r) (suc (suc (suc (suc n)))) =
    let (u, a, b) = back_off-EndsAt r n in
    rw (after_four cs r c d e f n) (four h k t t' s x u, omega arith, omega arith)

append-drop_self : (v : Bytes) → v ++ drop (length v) v ≡ v
append-drop_self [] = refl
append-drop_self (c ∷ v) = ap (◌∷◌ c) (append-drop_self v)

-- A prefix of a text is what a length of its own cuts off.
retake : (e : ℕ) (v : Bytes) → take e v ++ drop (length (take e v)) v ≡ v
retake zero v = refl
retake (suc e) [] = refl
retake (suc e) (c ∷ v) = ap (◌∷◌ c) (retake e v)

-- Truncating well-formed UTF-8 gives well-formed UTF-8 of at most `max_bytes` bytes, which begins
-- the text; a text that fits is unchanged, and of a longer one at most three bytes more than
-- necessary are cut.
pub truncate-IsUtf8 :
    {v : Bytes} (max_bytes : ℕ)
    → IsUtf8 v
    → IsUtf8 (utf8_safe_truncate v max_bytes)
      × (length (utf8_safe_truncate v max_bytes) ≤ max_bytes)
      × (utf8_safe_truncate v max_bytes ++ drop (length (utf8_safe_truncate v max_bytes)) v ≡ v)
      × ((max_bytes < length v) ⊎ (utf8_safe_truncate v max_bytes ≡ v))
      × (min (length v) max_bytes ≤ length (utf8_safe_truncate v max_bytes) + 3)
unfolding utf8_safe_truncate
truncate-IsUtf8 {v} n h = elim (Bool-cases (leb (length v) n)) [
  | inl short ↦ rw short (h, omega tests, append-drop_self v, inr refl, omega arith)
  | inr long ↦
      let (u, a, b) = back_off-EndsAt h n in
      rw long (
        u,
        omega (tests, length-take (back_off v n) v),
        retake (back_off v n) v,
        inl (omega tests),
        omega (tests, length-take (back_off v n) v),
      )
]
