-- ===== src/Json/Scan/Skip.antt =====
-- Text that `find_value_start` passes over without finding its key.
use tombstack_native.Prelude.{
  ℕ, zero, suc, ◌-◌, ◌≤◌, ◌≡◌, refl, ◌∙◌, ◌≢◌, ◌⊎◌, inl, inr, Bool, true, false, none, some, [],
  ◌∷◌, ◌++◌, append_assoc, arith, Bool-cases, length, drop, All, drop-length-append, Bytes, codes,
  starts_with,
}
use tombstack_native.Json.Escape.{json_escape, escape_byte}
use tombstack_native.Json.Writer.Emits.{string_text, bool_text}
use tombstack_native.Json.Scan.{scan, quoted_key, value_after, skip_space, is_space}
use tombstack_native.Json.Scan.Strings.{escape_byte-Shape}

-- A byte of a key: between `A` and `z`, and no backslash or bracket.
abbrev pub KeyByte : ℕ → Type 0
KeyByte c = (65 ≤ c) × (c ≤ 122) × (c ≢ b'\\') × (c ≢ b']')

abbrev pub IsKey : Bytes → Type 0
IsKey key = All KeyByte key × (1 ≤ length key)

-- What follows a value of an object or an array: nothing, a comma or a closing bracket.
abbrev pub IsEnd : Bytes → Type 0
IsEnd [] = Unit
IsEnd (c ∷ cs) = (c ≡ b',') ⊎ (c ≡ b'}') ⊎ (c ≡ b']')

-- The scan for `key` comes out behind the text as it went in.
abbrev pub Skips : Bytes → Bytes → Type 0
Skips key t =
    (rest : Bytes) → IsEnd rest → scan (quoted_key key) 0 (t ++ rest) ≡ scan (quoted_key key) 0 rest

abbrev pub NoQuote : Bytes → Type 0
NoQuote = All (λ d. d ≢ b'"')

pub scan_passing : (q t rest : Bytes) (n : ℕ) → n ≡ length t → scan q n (t ++ rest) ≡ scan q 0 rest
unfolding scan
scan_passing q [] rest zero h = refl
scan_passing q [] rest (suc n) h = absurd (omega arith)
scan_passing q (c ∷ t) rest zero h = absurd (omega arith)
scan_passing q (c ∷ t) rest (suc n) h = scan_passing q t rest n (omega arith)

pub scan_other :
    (key t : Bytes) (c : ℕ) → c ≢ b'"' → scan (quoted_key key) 0 (c ∷ t) ≡ scan (quoted_key key) 0 t
unfolding scan starts_with
scan_other key t c h = ground arith

pub scan-NoQuote :
    (key t rest : Bytes)
    → NoQuote t
    → scan (quoted_key key) 0 (t ++ rest) ≡ scan (quoted_key key) 0 rest
scan-NoQuote key [] rest h = refl
scan-NoQuote key (c ∷ t) rest h = scan_other key (t ++ rest) c h.0 ∙ scan-NoQuote key t rest h.1

-- A quote that the key does not follow.
pub scan_quote :
    (key t : Bytes)
    → starts_with (key ++ (b'"' ∷ [])) t ≡ false
    → scan (quoted_key key) 0 (b'"' ∷ t) ≡ scan (quoted_key key) 0 t
unfolding scan starts_with
scan_quote key t h = rw (h, scan)

starts_with-split : (p t : Bytes) → starts_with p t ≡ true → t ≡ p ++ drop (length p) t
unfolding starts_with
starts_with-split [] t h = refl
starts_with-split (c ∷ p) [] h = ground arith
starts_with-split (c ∷ p) (d ∷ t) h = ground (arith, starts_with-split p t)

-- The text of a string is matched by a quoted key only as a whole.
pub key_match :
    (key v rest : Bytes)
    → All KeyByte key
    → starts_with (key ++ (b'"' ∷ [])) (json_escape v ++ (b'"' ∷ rest)) ≡ true
    → json_escape v ≡ key
unfolding starts_with json_escape
key_match [] [] rest k h = refl
key_match [] (c ∷ v) rest k h = ground (arith, escape_byte-Shape c)
key_match (x ∷ key) [] rest k h = ground arith
key_match (x ∷ key) (c ∷ v) rest k h = ground (arith, escape_byte-Shape c, key_match key v rest k.1)

pub json_escape-IsKey : (name : Bytes) → All KeyByte name → json_escape name ≡ name
unfolding json_escape escape_byte
json_escape-IsKey [] h = refl
json_escape-IsKey (c ∷ name) h = ground (arith, json_escape-IsKey name h.1)

value_after-IsEnd : (rest : Bytes) → IsEnd rest → value_after rest ≡ none
unfolding value_after skip_space is_space
value_after-IsEnd [] h = refl
value_after-IsEnd (c ∷ rest) h = ground arith

close_differs :
    (key rest : Bytes) → IsKey key → IsEnd rest → starts_with (key ++ (b'"' ∷ [])) rest ≡ false
unfolding starts_with
close_differs [] rest k h = absurd (omega arith)
close_differs (x ∷ key) [] k h = refl
close_differs (x ∷ key) (c ∷ rest) k h = ground arith

-- The scan from inside a string, before its byte `v`, and from its opening quote.
abbrev FromInside : Bytes → Bytes → Type 0
FromInside key v =
    (rest : Bytes)
    → IsEnd rest
    → scan (quoted_key key) 0 (json_escape v ++ (b'"' ∷ rest)) ≡ scan (quoted_key key) 0 rest

starts_with-append : (p t : Bytes) → starts_with p (p ++ t) ≡ true
unfolding starts_with
starts_with-append [] t = refl
starts_with-append (c ∷ p) t = ground (arith, starts_with-append p t)

-- A match with no colon behind it is passed over; with a colon, the value is found.
pub scan_hit :
    (q : Bytes) (c : ℕ) (cs rest : Bytes)
    → c ∷ cs ≡ q ++ rest
    → scan q 0 (c ∷ cs)
      ≡ elim (value_after rest) [ some value ↦ some value | none ↦ scan q (length q - 1) cs ]
unfolding scan
scan_hit q c cs rest e =
    let hit : starts_with q (c ∷ cs) ≡ true = rw e (starts_with-append q rest) in
    let behind : drop (length q) (c ∷ cs) ≡ rest = rw e (drop-length-append q rest) in
    rw (hit, scan) (rw (behind, scan))

whole_match :
    (key t rest : Bytes)
    → t ≡ key
    → IsEnd rest
    → scan (quoted_key key) 0 (b'"' ∷ (t ++ (b'"' ∷ rest))) ≡ scan (quoted_key key) 0 rest
whole_match key t rest e h =
    scan_hit (quoted_key key) _ _ rest (rw (e, append_assoc))
    ∙ rw (value_after-IsEnd rest h, e)
        (rw (← append_assoc key (b'"' ∷ []) rest)
          (scan_passing (quoted_key key) (key ++ (b'"' ∷ [])) rest _ (omega arith)))

from_quote : (key v : Bytes) → IsKey key → FromInside key v → Skips key (string_text v)
from_quote key v k inside rest h =
    elim (Bool-cases (starts_with (key ++ (b'"' ∷ [])) (json_escape v ++ (b'"' ∷ rest)))) [
      | inl hit ↦ rw append_assoc (whole_match key _ rest (key_match key v rest k.0 hit) h)
      | inr miss ↦ rw append_assoc (scan_quote key _ miss ∙ inside rest h)
    ]

from_inside : (key v : Bytes) → IsKey key → FromInside key v
unfolding json_escape
from_inside key [] k rest h = scan_quote key rest (close_differs key rest k h)
from_inside key (c ∷ v) k rest h = elim (escape_byte-Shape c) [
  | inl (e, n, _) ↦ rw (e) (scan_other key _ c n ∙ from_inside key v k rest h)
  | inr (inl e) ↦ rw (e) (
      scan_other key _ b'\\' (omega arith)
      ∙ rw append_assoc at (from_quote key v k (from_inside key v k) rest h))
  | inr (inr (r, e, clean)) ↦
      rw (e, append_assoc)
        (scan_other key _ b'\\' (omega arith)
          ∙ scan-NoQuote key r _ clean
          ∙ from_inside key v k rest h)
]

-- Whatever bytes a string value holds, the scan for a key passes over its text.
pub string-Skips : (key v : Bytes) → IsKey key → Skips key (string_text v)
string-Skips key v k = from_quote key v k (from_inside key v k)

pub NoQuote-Skips : (key t : Bytes) → NoQuote t → Skips key t
NoQuote-Skips key t h rest _ = scan-NoQuote key t rest h

pub bool-Skips : (key : Bytes) (b : Bool) → Skips key (bool_text b)
bool-Skips key true = NoQuote-Skips key (codes "true") (omega arith)
bool-Skips key false = NoQuote-Skips key (codes "false") (omega arith)
