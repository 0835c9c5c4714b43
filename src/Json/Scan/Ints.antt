-- ===== src/Json/Scan/Ints.antt =====
-- `find_int_field` of src/json_scan.cpp, and that it reads back what `int_field` wrote.
use tombstack_native.Prelude.{
  ℕ, zero, suc, ◌+◌, ◌-◌, ◌*◌, ◌^◌, ◌≤◌, ◌<◌, ◌≡◌, refl, ◌∙◌, inl, inr, Bool, true, false, ◌&&◌,
  ◌||◌, Option, none, some, [], ◌∷◌, ◌++◌, arith, leb, ◌==◌, if◌then◌else◌, length, All, Bytes,
}
use tombstack_native.Prelude.Int.{ℤ, pos, negsuc, pos_part, neg_part}
use tombstack_native.Prelude.Decimal.{
  IsDigit, decimal, to_string, int_text, to_string-Writes, to_string-IsDigit,
}
use tombstack_native.Json.Writer.Emits.{Fields, object_text, fields_text}
use tombstack_native.Json.Scan.{find_value_start, skip_space, is_space}
use tombstack_native.Json.Scan.Skip.{IsKey, IsEnd, Skips, NoQuote, NoQuote-Skips}
use tombstack_native.Json.Scan.Members.{Finds, find_value_start-Finds, fields-IsEnd}

abbrev max_digits : ℕ
max_digits = 18

is_digit : ℕ → Bool
is_digit c = leb b'0' c && leb c b'9'

-- The loop, with `left` digits to go: the value, the number of digits, and the text behind them.
digit_loop : ℕ → ℕ → ℕ → Bytes → ℕ × ℕ × Bytes
unfolding is_digit
digit_loop zero value digits text = (value, digits, text)
digit_loop (suc left) value digits [] = (value, digits, [])
digit_loop (suc left) value digits (c ∷ cs) =
    let rest = digit_loop left (value * 10 + (c - b'0')) (digits + 1) cs in
    if is_digit c then rest else (value, digits, c ∷ cs)

-- what the text behind the digits must not go on with
goes_on : Bytes → Bool
unfolding is_digit
goes_on [] = false
goes_on (c ∷ cs) = c == b'.' || c == b'e' || c == b'E' || is_digit c

signed : Bool → ℕ → ℤ
signed true (suc n) = negsuc n
signed true zero = pos zero
signed false n = pos n

checked_int : Bool → ℕ × ℕ × Bytes → Option ℤ
unfolding goes_on signed
checked_int negative (value, digits, rest) =
    if digits == 0 then none else if goes_on rest then none else some (signed negative value)

int_token : Bytes → Option ℤ
unfolding digit_loop checked_int
int_token [] = none
int_token (c ∷ cs) =
    if c == b'-'
    then checked_int true (digit_loop max_digits 0 0 cs)
    else checked_int false (digit_loop max_digits 0 0 (c ∷ cs))

int_at : Option Bytes → Option ℤ
unfolding int_token
int_at none = none
int_at (some text) = int_token text

unfoldable pub find_int_field : Bytes → Bytes → Option ℤ
unfolding find_value_start int_at
find_int_field json key = int_at (find_value_start json key)

-- Digits that fit are read to the end.
digit_loop-digits :
    (ds rest : Bytes) (left value digits : ℕ)
    → All IsDigit ds
    → length ds ≤ left
    → IsEnd rest
    → digit_loop left value digits (ds ++ rest) ≡ (decimal value ds, digits + length ds, rest)
unfolding digit_loop is_digit
digit_loop-digits [] rest zero value digits h k l = ground arith
digit_loop-digits [] [] (suc left) value digits h k l = ground arith
digit_loop-digits [] (c ∷ rest) (suc left) value digits h k l = ground arith
digit_loop-digits (c ∷ ds) rest zero value digits h k l = absurd (omega arith)
digit_loop-digits (c ∷ ds) rest (suc left) value digits h k l = ground (
  arith,
  digit_loop-digits ds rest left (value * 10 + (c - b'0')) (digits + 1) h.1 (omega arith) l,
)

end-stops : (rest : Bytes) → IsEnd rest → goes_on rest ≡ false
unfolding goes_on is_digit
end-stops [] h = refl
end-stops (c ∷ rest) h = ground arith

checked-numeral :
    (n : ℕ) (negative : Bool) (rest : Bytes)
    → n < 10 ^ 18
    → IsEnd rest
    → checked_int negative (digit_loop max_digits 0 0 (to_string n ++ rest))
      ≡ some (signed negative n)
unfolding checked_int
checked-numeral n negative rest h k =
    let w = to_string-Writes 18 n (omega arith) h in
    rw (digit_loop-digits (to_string n) rest 18 0 0 w.all_digits w.few_digits k, w.value)
      (let some_digit : (0 + length (to_string n) == 0) ≡ false = ground (arith, w.some_digit) in
        rw (some_digit, end-stops rest k))

digit-is_space : (c : ℕ) → IsDigit c → is_space c ≡ false
unfolding is_space
digit-is_space c h = ground arith

digit_unsigned : (c : ℕ) → IsDigit c → (c == b'-') ≡ false
digit_unsigned c h = ground arith

-- In front of a numeral stands no white space and no sign.
numeral_start :
    (ds rest : Bytes)
    → All IsDigit ds
    → 1 ≤ length ds
    → int_token (skip_space (ds ++ rest))
      ≡ checked_int false (digit_loop max_digits 0 0 (ds ++ rest))
unfolding int_token skip_space
numeral_start [] rest h k = absurd (omega arith)
numeral_start (c ∷ ds) rest h k = rw (digit-is_space c h.0, digit_unsigned c h.0) refl

some_numeral : (n : ℕ) → n < 10 ^ 18 → 1 ≤ length (to_string n)
some_numeral n h = (to_string-Writes 18 n (omega arith) h).some_digit

negated :
    (n : ℕ) (rest : Bytes)
    → checked_int true (digit_loop max_digits 0 0 (to_string (n + 1) ++ rest))
      ≡ some (signed true (n + 1))
    → int_token (skip_space (b'-' ∷ (to_string (n + 1) ++ rest))) ≡ some (negsuc n)
unfolding int_token skip_space is_space signed
negated n rest h = ground arith

pub digits-NoQuote : (ds : Bytes) → All IsDigit ds → NoQuote ds
digits-NoQuote [] h = tt
digits-NoQuote (c ∷ ds) h = (omega arith, digits-NoQuote ds h.1)

int_text-NoQuote : (z : ℤ) → NoQuote (int_text z)
unfolding int_text
int_text-NoQuote (pos n) = digits-NoQuote (to_string n) (to_string-IsDigit n)
int_text-NoQuote (negsuc n) =
    (omega arith, digits-NoQuote (to_string (n + 1)) (to_string-IsDigit (n + 1)))

token-int_text :
    (z : ℤ) (rest : Bytes)
    → pos_part z < 10 ^ 18
    → neg_part z < 10 ^ 18
    → IsEnd rest
    → int_token (skip_space (int_text z ++ rest)) ≡ some z
unfolding int_text signed
token-int_text (pos n) rest h k l =
    numeral_start (to_string n) rest (to_string-IsDigit n) (some_numeral n h)
    ∙ checked-numeral n false rest h l
token-int_text (negsuc n) rest h k l =
    negated n rest (checked-numeral (n + 1) true rest (omega arith) l)

-- In an object that the writer made, an integer of at most eighteen digits is found and read back,
-- sign included, if no member in front of it has its name, at any depth.
pub find_int_field-Finds :
    {key : Bytes} (z : ℤ) {fs : Fields}
    → Finds key (int_text z) fs
    → IsKey key
    → pos_part z < 10 ^ 18
    → neg_part z < 10 ^ 18
    → find_int_field (object_text fs) key ≡ some z
unfolding find_int_field int_at
find_int_field-Finds z f k h l = rw (find_value_start-Finds f k) (
    token-int_text z (fields_text true f.behind ++ (b'}' ∷ [])) h l
      (fields-IsEnd f.behind (b'}' ∷ []) (inr (inl refl))))

pub int_text-Skips : (key : Bytes) (z : ℤ) → Skips key (int_text z)
int_text-Skips key z = NoQuote-Skips key (int_text z) (int_text-NoQuote z)
