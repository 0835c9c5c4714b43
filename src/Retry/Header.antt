-- ===== src/Retry/Header.antt =====
-- What `parse_retry_after_seconds` accepts, and the number that it returns.
use tombstack_native.Prelude.{
  ℕ, ◌+◌, ◌-◌, ◌*◌, ◌≤◌, ◌≡◌, refl, ap, ◌∙◌, inl, inr, true, false, [], ◌∷◌, ◌++◌, arith,
  Bool-cases, length, All, Bytes,
}
use tombstack_native.Prelude.Decimal.{IsDigit, decimal}
use tombstack_native.Prelude.Int.{pos}
use tombstack_native.Retry.{
  is_ows, skip_front, skip_back, keep_unless_ows, read_digits, parse_trimmed,
  parse_retry_after_seconds,
}

abbrev pub IsOws : ℕ → Type 0
IsOws c = is_ows c ≡ true

-- `value` is one to nine digits of value n, with white space around them.
pub record Reads (value : Bytes) (n : ℕ) : Type 0 where
  pub left : Bytes
  pub digits : Bytes
  pub right : Bytes
  pub splits : value ≡ left ++ (digits ++ right)
  pub left_ows : All IsOws left
  pub right_ows : All IsOws right
  pub all_digits : All IsDigit digits
  pub some_digit : 1 ≤ length digits
  pub few_digits : length digits ≤ 9
  pub is_value : n ≡ decimal 0 digits

skip_front-ows : (l rest : Bytes) → All IsOws l → skip_front (l ++ rest) ≡ skip_front rest
unfolding skip_front
skip_front-ows [] rest h = refl
skip_front-ows (c ∷ l) rest h = rw h.0 (skip_front-ows l rest h.1)

digit-ne-ows : (c : ℕ) → IsDigit c → is_ows c ≡ false
unfolding is_ows
digit-ne-ows c h = ground arith

skip_front-digits :
    (ds rest : Bytes) → All IsDigit ds → 1 ≤ length ds → skip_front (ds ++ rest) ≡ ds ++ rest
unfolding skip_front
skip_front-digits [] rest h k = absurd (omega arith)
skip_front-digits (c ∷ ds) rest h k = rw (digit-ne-ows c h.0)

skip_back-ows : (r : Bytes) → All IsOws r → skip_back r ≡ []
unfolding skip_back
skip_back-ows [] h = refl
skip_back-ows (c ∷ r) h = rw (skip_back-ows r h.1, keep_unless_ows, h.0)

skip_back-digits : (ds r : Bytes) → All IsDigit ds → All IsOws r → skip_back (ds ++ r) ≡ ds
unfolding skip_back
skip_back-digits [] r h k = skip_back-ows r k
skip_back-digits (c ∷ []) r h k = rw (skip_back-ows r k, keep_unless_ows, digit-ne-ows c h.0)
skip_back-digits (c ∷ d ∷ ds) r h k = rw (skip_back-digits (d ∷ ds) r h.1 k)

read_digits-decimal :
    (out : ℕ) (ds : Bytes) → All IsDigit ds → read_digits out ds ≡ pos (decimal out ds)
unfolding read_digits
read_digits-decimal out [] h = refl
read_digits-decimal out (c ∷ ds) h =
    ground (arith, read_digits-decimal (out * 10 + (c - b'0')) ds h.1)

-- A header value of one to nine decimal digits, with nothing but blanks, tabs and line breaks
-- around them, is read as the number of the digits.
pub parse_complete :
    {value : Bytes} {n : ℕ} → Reads value n → parse_retry_after_seconds value ≡ pos n
unfolding parse_retry_after_seconds
parse_complete r =
    rw
      (
        r.splits,
        skip_front-ows r.left _ r.left_ows,
        skip_front-digits r.digits r.right r.all_digits r.some_digit,
        skip_back-digits r.digits r.right r.all_digits r.right_ows,
      )
      (ground (arith, read_digits-decimal 0 r.digits r.all_digits))

skip_front_splits : (v : Bytes) → (l : Bytes) × (v ≡ l ++ skip_front v) × All IsOws l
unfolding skip_front
skip_front_splits [] = ([], refl, tt)
skip_front_splits (c ∷ cs) = elim (Bool-cases (is_ows c)) [
  | inl e ↦ let (l, s, o) = skip_front_splits cs in (c ∷ l, rw e (ap (◌∷◌ c) s), (e, o))
  | inr e ↦ ([], rw e, tt)
]

keep_unless_ows_splits :
    (c : ℕ) (ds r : Bytes)
    → All IsOws r
    → (r' : Bytes) × (c ∷ (ds ++ r) ≡ keep_unless_ows c ds ++ r') × All IsOws r'
unfolding keep_unless_ows
keep_unless_ows_splits c [] r h = elim (Bool-cases (is_ows c)) [
  | inl e ↦ (c ∷ r, rw e, (e, h))
  | inr e ↦ (r, rw e, h)
]
keep_unless_ows_splits c (d ∷ ds) r h = (r, refl, h)

skip_back_splits : (v : Bytes) → (r : Bytes) × (v ≡ skip_back v ++ r) × All IsOws r
unfolding skip_back
skip_back_splits [] = ([], refl, tt)
skip_back_splits (c ∷ cs) =
    let (r, s, o) = skip_back_splits cs in
    let (r', s', o') = keep_unless_ows_splits c (skip_back cs) r o in (r', ap (◌∷◌ c) s ∙ s', o')

read_digits_sound :
    (ds : Bytes) (out n : ℕ) → read_digits out ds ≡ pos n → All IsDigit ds × (n ≡ decimal out ds)
unfolding read_digits
read_digits_sound [] out n h = ground arith
read_digits_sound (c ∷ ds) out n h = ground (arith, read_digits_sound ds (out * 10 + (c - b'0')) n)

parse_trimmed_sound :
    (ds : Bytes) (n : ℕ)
    → parse_trimmed ds ≡ pos n
    → All IsDigit ds × (n ≡ decimal 0 ds) × (1 ≤ length ds) × (length ds ≤ 9)
unfolding parse_trimmed
parse_trimmed_sound [] n h = ground arith
parse_trimmed_sound (c ∷ ds) n h = ground (arith, read_digits_sound (c ∷ ds) 0 n)

-- A header value that is read as n is one to nine decimal digits of value n, with nothing but
-- blanks, tabs and line breaks around them.
pub parse_sound : (value : Bytes) (n : ℕ) → parse_retry_after_seconds value ≡ pos n → Reads value n
unfolding parse_retry_after_seconds
parse_sound value n h =
    let (l, s, o) = skip_front_splits value in
    let (r, s', o') = skip_back_splits (skip_front value) in
    let good = parse_trimmed_sound (skip_back (skip_front value)) n h in
    record {
      left = l;
      digits = skip_back (skip_front value);
      right = r;
      splits = s ∙ ap (λ t. l ++ t) s';
      left_ows = o;
      right_ows = o';
      all_digits = good.0;
      some_digit = good.2;
      few_digits = good.3;
      is_value = good.1;
    }
