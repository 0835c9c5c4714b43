-- ===== src/NativeCrash/Text.antt =====
-- The numerals and the lines of the dump file, as the parser reads them back.
use tombstack_native.Prelude.{
  ℕ, zero, suc, ◌+◌, ◌-◌, ◌*◌, ◌/◌, ◌%◌, ◌^◌, ◌≤◌, ◌<◌, ◌≡◌, refl, ◌∙◌, subst, ◌≢◌, inl, inr, true,
  false, some, [], ◌∷◌, ◌++◌, arith, ◌==◌, ==_iff, Bool-cases, All, Bytes, codes, starts_with, ◌&◌,
  if-holds,
}
use tombstack_native.Prelude.Int.{ℤ, pos, negsuc}
use tombstack_native.Prelude.Decimal.{
  IsDigit, decimal, to_string, int_text, to_string-IsDigit, to_string-Writes,
}
use tombstack_native.Signature.{hex_char, to_hex}
use tombstack_native.Signature.Hex.{IsHex, hex_char-IsHex, to_hex-IsHex}
use tombstack_native.NativeCrash.{
  shifted, nibbles, hex_from, hex_to, hex_digit, hex_loop, parse_hex, digits_loop, parse_dec,
  to_int, negated, cut_space, trim_spaces, split_lines,
}

-- No byte of the text is this one.
abbrev pub Avoids : ℕ → Bytes → Type 0
Avoids b = All (λ c. c ≢ b)

-- The values of a 32-bit `int`.
abbrev pub IsInt : ℤ → Type 0
IsInt (pos n) = n < 2 ^ 31
IsInt (negsuc n) = n < 2 ^ 31

hex_digit-hex_char : (n : ℕ) → n < 16 → hex_digit (hex_char n) ≡ some n
unfolding hex_digit hex_char
hex_digit-hex_char n h = ground arith

hex_loop_step :
    (v n : ℕ) (cs : Bytes)
    → n < 16
    → hex_loop v (hex_char n ∷ cs) ≡ hex_loop (v * 16 % 2 ^ 64 + n) cs
unfolding hex_loop
hex_loop_step v n cs h = rw (hex_loop, hex_digit-hex_char n h) refl

shifted_le : (k value : ℕ) → shifted k value ≤ value
unfolding shifted
shifted_le zero value = omega arith
shifted_le (suc k) value = omega (arith, shifted_le k value)

-- The digits from the k-th lowest down, behind the part above them.
hex_loop-nibbles :
    (k value : ℕ) → value < 2 ^ 64 → hex_loop (shifted k value) (nibbles k value) ≡ value
unfolding nibbles shifted
hex_loop-nibbles zero value h = hex_loop_nil value
  where
    hex_loop_nil : (v : ℕ) → hex_loop v [] ≡ v
    hex_loop_nil v = unfold hex_loop in refl
hex_loop-nibbles (suc k) value h =
    hex_loop_step (shifted k value / 16) (shifted k value % 16) (nibbles k value) (omega arith)
    ∙ rw (low (shifted k value) (omega (arith, shifted_le k value))) (hex_loop-nibbles k value h)
  where
    low : (s : ℕ) → s < 2 ^ 64 → s / 16 * 16 % 2 ^ 64 + s % 16 ≡ s
    low s l = omega arith

hex_loop-top :
    (j value : ℕ) → value < 2 ^ 64 → shifted j value ≡ 0 → hex_loop 0 (nibbles j value) ≡ value
hex_loop-top j value h t =
    subst (λ v. hex_loop v (nibbles j value) ≡ value) t (hex_loop-nibbles j value h)

shifted_zero :
    (k value : ℕ)
    → shifted (suc k) value ≡ 0
    → (shifted k value % 16 == 0) ≡ true
    → shifted k value ≡ 0
unfolding shifted
shifted_zero k value e z = omega (arith, (==_iff (shifted k value % 16) 0).0 z)

hex_loop-hex_from :
    (k value : ℕ)
    → value < 2 ^ 64
    → shifted (suc k) value ≡ 0
    → hex_loop 0 (hex_from k value) ≡ value
unfolding hex_from
hex_loop-hex_from zero value h e = hex_loop-top 1 value h e
hex_loop-hex_from (suc k) value h e = elim (Bool-cases (shifted (suc k) value % 16 == 0)) [
  | inl z ↦ rw z (hex_loop-hex_from k value h (shifted_zero (suc k) value e z))
  | inr z ↦ rw z (hex_loop-top (suc (suc k)) value h e)
]

shifted_out : (value : ℕ) → value < 2 ^ 64 → shifted 16 value ≡ 0
unfolding shifted
shifted_out value h = omega arith

pub parse_hex-hex_to : (value : ℕ) → value < 2 ^ 64 → parse_hex (hex_to value) ≡ value
unfolding parse_hex hex_to starts_with
parse_hex-hex_to value h = hex_loop-hex_from 15 value h (shifted_out value h)

-- decimal numerals
digits_loop-decimal : (v : ℕ) (ds : Bytes) → All IsDigit ds → digits_loop v ds ≡ decimal v ds
unfolding digits_loop
digits_loop-decimal v [] h = refl
digits_loop-decimal v (c ∷ ds) h = ground (arith, digits_loop-decimal (v * 10 + (c - b'0')) ds h.1)

digits_loop-to_string : (n : ℕ) → n < 2 ^ 32 → digits_loop 0 (to_string n) ≡ n
digits_loop-to_string n h =
    digits_loop-decimal 0 (to_string n) (to_string-IsDigit n)
    ∙ (to_string-Writes 10 n (omega arith) (omega arith)).value

unsigned : (ds : Bytes) → All IsDigit ds → starts_with (codes "-") ds ≡ false
unfolding starts_with
unsigned [] h = refl
unsigned (c ∷ ds) h = ground arith

to_int_stays : (z : ℤ) → IsInt z → to_int z ≡ z
unfolding to_int
to_int_stays (pos n) h = ground arith
to_int_stays (negsuc n) h = ground arith

pub int-parse_dec : (z : ℤ) → IsInt z → to_int (parse_dec (int_text z)) ≡ z
unfolding int_text parse_dec starts_with
int-parse_dec (pos n) h =
    rw (unsigned (to_string n) (to_string-IsDigit n), digits_loop-to_string n (omega arith))
      (to_int_stays (pos n) h)
int-parse_dec (negsuc n) h =
    rw (digits_loop-to_string (n + 1) (omega arith)) (rw (minus n) (to_int_stays (negsuc n) h))
  where
    minus : (m : ℕ) → negated (m + 1) ≡ negsuc m
    minus m = ground arith

-- what the numerals avoid
pub All-Avoids {κ} :
    {P : ℕ → Type κ} (b : ℕ) (s : Bytes) → ((c : ℕ) → P c → c ≢ b) → All P s → Avoids b s
All-Avoids b [] ne h = tt
All-Avoids b (c ∷ s) ne h = (ne c h.0, All-Avoids b s ne h.1)

-- A byte below '0' but for '-', as the space and the newline.
abbrev pub IsBlank : ℕ → Type 0
IsBlank b = b < b'-'

IsHex-ne : (b : ℕ) → IsBlank b → (c : ℕ) → IsHex c → c ≢ b
IsHex-ne b k c (inl h) e = omega arith
IsHex-ne b k c (inr h) e = omega arith

pub to_hex-Avoids : (b : ℕ) (bytes : Bytes) → IsBlank b → Avoids b (to_hex bytes)
to_hex-Avoids b bytes k = All-Avoids b (to_hex bytes) (IsHex-ne b k) (to_hex-IsHex bytes)

nibbles-IsHex : (k value : ℕ) → All IsHex (nibbles k value)
unfolding nibbles
nibbles-IsHex zero value = tt
nibbles-IsHex (suc k) value =
    (hex_char-IsHex (shifted k value % 16) (omega arith), nibbles-IsHex k value)

hex_from-IsHex : (k value : ℕ) → All IsHex (hex_from k value)
unfolding hex_from
hex_from-IsHex zero value = nibbles-IsHex 1 value
hex_from-IsHex (suc k) value =
    if-holds (All IsHex) (shifted (suc k) value % 16 == 0) {y = nibbles (suc (suc k)) value}
      (hex_from-IsHex k value) (nibbles-IsHex (suc (suc k)) value)

pub hex_to-Avoids : (b value : ℕ) → IsBlank b → Avoids b (hex_to value)
unfolding hex_to
hex_to-Avoids b value k =
    omega arith
    & omega arith
    & All-Avoids b (hex_from 15 value) (IsHex-ne b k) (hex_from-IsHex 15 value)

pub int_text-Avoids : (b : ℕ) (z : ℤ) → IsBlank b → Avoids b (int_text z)
unfolding int_text
int_text-Avoids b (pos n) k = All-Avoids b (to_string n) (λ c h. omega arith) (to_string-IsDigit n)
int_text-Avoids b (negsuc n) k =
    (omega arith, All-Avoids b (to_string (n + 1)) (λ c h. omega arith) (to_string-IsDigit (n + 1)))

-- cutting at a space, and at a newline
pub cut_space_found :
    (front behind : Bytes)
    → Avoids b' ' front
    → cut_space (front ++ (b' ' ∷ behind)) ≡ some (front, behind)
unfolding cut_space
cut_space_found [] behind h = refl
cut_space_found (c ∷ front) behind h = ground (arith, h.0, cut_space_found front behind h.1)

pub trim_spaces_stays : (s : Bytes) → Avoids b' ' s → trim_spaces s ≡ s
unfolding trim_spaces
trim_spaces_stays [] h = refl
trim_spaces_stays (c ∷ []) h = ground (arith, h.0)
trim_spaces_stays (c ∷ e ∷ s) h = rw (trim_spaces_stays (e ∷ s) h.1) refl

pub split_lines_cut :
    (line rest : Bytes)
    → Avoids 10 line
    → split_lines (line ++ (10 ∷ rest)) ≡ line ∷ split_lines rest
unfolding split_lines
split_lines_cut [] rest h = refl
split_lines_cut (c ∷ line) rest h = ground (arith, h.0, split_lines_cut line rest h.1)
