-- ===== src/Prelude/Decimal.antt =====
-- Decimal numerals: `std::to_string`, and `%d`, `%u`, `%lld` without flags.
use tombstack_native.Prelude.{
  ℕ, zero, suc, ◌+◌, ◌-◌, ◌*◌, ◌/◌, ◌%◌, ◌^◌, ◌≤◌, ◌<◌, ◌≡◌, refl, inl, inr, [], ◌∷◌, ◌++◌, arith,
  ltb, if◌then◌else◌, ltb→lt, ltb_refuted, tests, Bool-cases, length, All, length-append,
  All-append, Bytes,
}
use native.Mathlib.Nat.{pow-succ'}
use tombstack_native.Prelude.Int.{ℤ, pos, negsuc}

abbrev pub IsDigit : ℕ → Type 0
IsDigit c = (b'0' ≤ c) × (c ≤ b'9')

-- The value of a decimal numeral, most significant digit first.
abbrev pub decimal : ℕ → Bytes → ℕ
decimal out [] = out
decimal out (c ∷ cs) = decimal (out * 10 + (c - b'0')) cs

-- On fuel: a number has fewer digits than its value and one more.
digits : ℕ → ℕ → Bytes
digits zero n = []
digits (suc fuel) n =
    let rest = digits fuel (n / 10) in
    if ltb n 10 then (b'0' + n) ∷ [] else rest ++ (b'0' + n % 10) ∷ []

unfoldable pub to_string : ℕ → Bytes
unfolding digits
to_string n = digits (n + 1) n

unfoldable pub int_text : ℤ → Bytes
unfolding to_string
int_text (pos n) = to_string n
int_text (negsuc n) = b'-' ∷ to_string (n + 1)

pub decimal-append :
    (out : ℕ) (s : Bytes) (c : ℕ) → decimal out (s ++ c ∷ []) ≡ decimal out s * 10 + (c - b'0')
decimal-append out [] c = refl
decimal-append out (d ∷ s) c = decimal-append (out * 10 + (d - b'0')) s c

digits-IsDigit : (fuel n : ℕ) → All IsDigit (digits fuel n)
unfolding digits
digits-IsDigit zero n = tt
digits-IsDigit (suc fuel) n = elim (Bool-cases (ltb n 10)) [
  | inl e ↦ rw e (omega (tests, ltb→lt _ _ e))
  | inr e ↦
      rw e
        (All-append IsDigit (digits fuel (n / 10)) _ (digits-IsDigit fuel (n / 10)) (omega arith))
]

pub to_string-IsDigit : (n : ℕ) → All IsDigit (to_string n)
unfolding to_string
to_string-IsDigit n = digits-IsDigit (n + 1) n

-- The digits of a number below 10 ^ most, with fuel enough.
pub record Writes (most n : ℕ) (s : Bytes) : Type 0 where
  pub value : decimal 0 s ≡ n
  pub all_digits : All IsDigit s
  pub some_digit : 1 ≤ length s
  pub few_digits : length s ≤ most

power_suc : (most : ℕ) → 10 ^ suc most ≡ 10 * 10 ^ most
power_suc most = pow-succ' 10 most

some_power : (most n : ℕ) → 10 ≤ n → n < 10 ^ suc most → 1 ≤ most
some_power zero n h l = absurd (omega arith)
some_power (suc most) n h l = omega arith

digits-Writes :
    (most fuel n : ℕ) → n < fuel → 1 ≤ most → n < 10 ^ most → Writes most n (digits fuel n)
unfolding digits
digits-Writes most zero n h k l = absurd (omega arith)
digits-Writes zero (suc fuel) n h k l = absurd (omega arith)
digits-Writes (suc most) (suc fuel) n h k l = elim (Bool-cases (ltb n 10)) [
  | inl e ↦ rw e (record {
    value = omega (tests, ltb→lt _ _ e);
    all_digits = omega (tests, ltb→lt _ _ e);
    some_digit = omega arith;
    few_digits = omega arith;
  })
  | inr e ↦
      let big : 10 ≤ n = ltb_refuted _ _ e in
      let one : 1 ≤ most = some_power most n big l in
      let rest : Writes most (n / 10) (digits fuel (n / 10)) =
        digits-Writes most fuel (n / 10) (omega arith) one (omega (arith, power_suc most)) in
      rw e (record {
        value = omega (arith, decimal-append 0 (digits fuel (n / 10)) (b'0' + n % 10), rest.value);
        all_digits = All-append IsDigit (digits fuel (n / 10)) _ rest.all_digits (omega arith);
        some_digit = omega (arith, length-append (digits fuel (n / 10)) ((b'0' + n % 10) ∷ []));
        few_digits =
            omega
              (arith, rest.few_digits, length-append (digits fuel (n / 10)) ((b'0' + n % 10) ∷ []));
      })
]

-- Every number below a power of ten has a numeral, with at most as many digits.
pub to_string-Writes : (most n : ℕ) → 1 ≤ most → n < 10 ^ most → Writes most n (to_string n)
unfolding to_string
to_string-Writes most n k l = digits-Writes most (n + 1) n (omega arith) k l
