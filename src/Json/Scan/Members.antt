-- ===== src/Json/Scan/Members.antt =====
-- The scanners of src/json_scan.cpp on an object that the writer of src/json_writer.cpp made.
use tombstack_native.Prelude.{
  ◌≡◌, refl, sym, ap, ◌∙◌, ◌≢◌, inl, inr, Bool, true, false, Option, none, some, List, [], ◌∷◌,
  ◌++◌, append_assoc, arith, if◌then◌else◌, Bool-cases, All, All-append, Bytes, str_eq, str_eq_iff,
  starts_with,
}
use tombstack_native.Json.Escape.{json_escape}
use tombstack_native.Json.Writer.Emits.{
  Fields, field_text, separator, fields_text, object_text, items_text, array_text, string_text,
  bool_text,
}
use tombstack_native.Json.Scan.{
  scan, quoted_key, value_after, after_colon, skip_space, is_space, find_value_start,
  find_string_field, find_bool_field, bool_at,
}
use tombstack_native.Json.Scan.Strings.{read-escape}
use tombstack_native.Json.Scan.Skip.{
  IsKey, KeyByte, IsEnd, Skips, NoQuote, scan_other, string-Skips, scan_quote, scan-NoQuote,
  scan_hit, key_match, json_escape-IsKey,
}

-- A member that the scan for `key` passes over.
abbrev pub Passes : Bytes → Bytes × Bytes → Type 0
Passes key (name, value) = IsKey name × (name ≢ key) × Skips key value

KeyByte-NoQuote : (name : Bytes) → All KeyByte name → NoQuote name
KeyByte-NoQuote [] h = tt
KeyByte-NoQuote (c ∷ name) h = (omega arith, KeyByte-NoQuote name h.1)

colon_differs :
    (key rest : Bytes) → IsKey key → starts_with (key ++ (b'"' ∷ [])) (b':' ∷ rest) ≡ false
unfolding starts_with
colon_differs [] rest k = absurd (omega arith)
colon_differs (x ∷ key) rest k = ground arith

name_differs :
    (key name rest : Bytes)
    → IsKey key
    → IsKey name
    → name ≢ key
    → starts_with (key ++ (b'"' ∷ [])) (json_escape name ++ (b'"' ∷ rest)) ≡ false
name_differs key name rest k n ne =
    elim (Bool-cases (starts_with (key ++ (b'"' ∷ [])) (json_escape name ++ (b'"' ∷ rest)))) [
      | inl hit ↦ absurd (ne (sym (json_escape-IsKey name n.0) ∙ key_match key name rest k.0 hit))
      | inr miss ↦ miss
    ]

skip_member :
    (key : Bytes) (f : Bytes × Bytes) (rest : Bytes)
    → IsKey key
    → Passes key f
    → IsEnd rest
    → scan (quoted_key key) 0 (field_text f.0 f.1 ++ rest) ≡ scan (quoted_key key) 0 rest
skip_member key (name, value) rest k (n, ne, v) h = rw append_assoc (
    scan_quote key _ (name_differs key name _ k n ne)
    ∙ rw (json_escape-IsKey name n.0) (
        scan-NoQuote key name _ (KeyByte-NoQuote name n.0)
        ∙ scan_quote key _ (colon_differs key _ k)
        ∙ scan_other key _ b':' (omega arith)
        ∙ v rest h))

separator_passes :
    (key : Bytes) (b : Bool) (rest : Bytes)
    → scan (quoted_key key) 0 (separator b ++ rest) ≡ scan (quoted_key key) 0 rest
separator_passes key true rest = scan_other key rest b',' (omega arith)
separator_passes key false rest = refl

pub fields-IsEnd : (fs : Fields) (rest : Bytes) → IsEnd rest → IsEnd (fields_text true fs ++ rest)
fields-IsEnd [] rest h = h
fields-IsEnd (f ∷ fs) rest h = inl refl

pub fields_pass :
    (key : Bytes) (b : Bool) (fs : Fields) (rest : Bytes)
    → IsKey key
    → All (Passes key) fs
    → IsEnd rest
    → scan (quoted_key key) 0 (fields_text b fs ++ rest) ≡ scan (quoted_key key) 0 rest
fields_pass key b [] rest k ps h = refl
fields_pass key b (f ∷ fs) rest k ps h =
    rw (append_assoc (separator b) _ rest, append_assoc (field_text f.0 f.1) _ rest)
      (separator_passes key b _
        ∙ skip_member key f _ k ps.0 (fields-IsEnd fs rest h)
        ∙ fields_pass key true fs rest k ps.1 h)

pub object-Skips :
    (key : Bytes) (fs : Fields) → IsKey key → All (Passes key) fs → Skips key (object_text fs)
object-Skips key fs k ps rest h =
    scan_other key _ b'{' (omega arith)
    ∙ rw (append_assoc (fields_text false fs) (b'}' ∷ []) rest)
        (fields_pass key false fs _ k ps (inr (inl refl)) ∙ scan_other key rest b'}' (omega arith))

items-IsEnd : (ts : List Bytes) (rest : Bytes) → IsEnd rest → IsEnd (items_text true ts ++ rest)
items-IsEnd [] rest h = h
items-IsEnd (t ∷ ts) rest h = inl refl

items_pass :
    (key : Bytes) (b : Bool) (ts : List Bytes) (rest : Bytes)
    → All (Skips key) ts
    → IsEnd rest
    → scan (quoted_key key) 0 (items_text b ts ++ rest) ≡ scan (quoted_key key) 0 rest
items_pass key b [] rest ps h = refl
items_pass key b (t ∷ ts) rest ps h =
    rw (append_assoc (separator b) _ rest, append_assoc t _ rest)
      (separator_passes key b _
        ∙ ps.0 _ (items-IsEnd ts rest h)
        ∙ items_pass key true ts rest ps.1 h)

pub array-Skips : (key : Bytes) (ts : List Bytes) → All (Skips key) ts → Skips key (array_text ts)
array-Skips key ts ps rest h =
    scan_other key _ b'[' (omega arith)
    ∙ rw (append_assoc (items_text false ts) (b']' ∷ []) rest)
        (items_pass key false ts _ ps (inr (inr refl)) ∙ scan_other key rest b']' (omega arith))

-- `key` is a name of the object, with this text for a value, and the scan passes over all that
-- stands in front.
pub record Finds (key value : Bytes) (fs : Fields) : Type 0 where
  pub before : Fields
  pub behind : Fields
  pub splits : fs ≡ before ++ ((key, value) ∷ behind)
  pub passes : All (Passes key) before

pub Finds-here : (key value : Bytes) (fs : Fields) → Finds key value ((key, value) ∷ fs)
Finds-here key value fs = record { before = []; behind = fs; splits = refl; passes = tt }

pub Finds-append :
    {key value : Bytes} (pre : Fields) {fs : Fields}
    → All (Passes key) pre
    → Finds key value fs
    → Finds key value (pre ++ fs)
Finds-append {key} pre ps f = record {
  before = pre ++ f.before;
  behind = f.behind;
  splits = ap (λ t. pre ++ t) f.splits ∙ sym (append_assoc pre f.before _);
  passes = All-append (Passes key) pre f.before ps f.passes;
}

-- the value text of the member, with the end of the object
abbrev pub from_value : {key value : Bytes} {fs : Fields} → Finds key value fs → Bytes
from_value {key} {value} f = value ++ (fields_text true f.behind ++ (b'}' ∷ []))

value_found :
    (key value rest : Bytes)
    → scan (quoted_key key) 0 (b'"' ∷ (key ++ (b'"' ∷ b':' ∷ (value ++ rest))))
      ≡ some (skip_space (value ++ rest))
unfolding value_after after_colon skip_space is_space
value_found key value rest =
    scan_hit (quoted_key key) _ _ (b':' ∷ (value ++ rest)) (rw append_assoc)

found_in :
    (key value : Bytes) (b : Bool) (fs gs : Fields) (rest : Bytes)
    → IsKey key
    → All (Passes key) fs
    → IsEnd rest
    → scan (quoted_key key) 0 (fields_text b (fs ++ ((key, value) ∷ gs)) ++ rest)
      ≡ some (skip_space (value ++ (fields_text true gs ++ rest)))
found_in key value b [] gs rest k ps h =
    rw (append_assoc (separator b) _ rest, append_assoc (field_text key value) _ rest)
      (separator_passes key b _
        ∙ rw
            (
              append_assoc (json_escape key) _ (fields_text true gs ++ rest),
              json_escape-IsKey key k.0,
            )
            (value_found key value _))
found_in key value b (f ∷ fs) gs rest k ps h =
    rw (append_assoc (separator b) _ rest, append_assoc (field_text f.0 f.1) _ rest)
      (separator_passes key b _
        ∙ skip_member key f _ k ps.0 (fields-IsEnd (fs ++ ((key, value) ∷ gs)) rest h)
        ∙ found_in key value true fs gs rest k ps.1 h)

pub find_value_start-Finds :
    {key value : Bytes} {fs : Fields} (f : Finds key value fs)
    → IsKey key
    → find_value_start (object_text fs) key ≡ some (skip_space (from_value f))
unfolding find_value_start
find_value_start-Finds {key} {value} f k =
    rw f.splits (found_in key value false f.before f.behind (b'}' ∷ []) k f.passes (inr (inl refl)))

-- In an object that the writer made, a string member is found and read back byte for byte, if no
-- member in front of it has its name, at any depth.
pub find_string_field-Finds :
    {key v : Bytes} {fs : Fields}
    → Finds key (string_text v) fs
    → IsKey key
    → find_string_field (object_text fs) key ≡ some v
unfolding find_string_field skip_space is_space
find_string_field-Finds {key} {v} f k =
    rw (find_value_start-Finds f k) (rw append_assoc (rw (read-escape v _)))

-- In an object that the writer made, a Boolean member is found and read back, if no member in
-- front of it has its name, at any depth.
pub find_bool_field-Finds :
    {key : Bytes} (b : Bool) {fs : Fields}
    → Finds key (bool_text b) fs
    → IsKey key
    → find_bool_field (object_text fs) key ≡ some b
unfolding find_bool_field skip_space is_space bool_at starts_with
find_bool_field-Finds true f k = rw (find_value_start-Finds f k)
find_bool_field-Finds false f k = rw (find_value_start-Finds f k)

-- An object of strings, as a list of names and values.
abbrev pub strings : List (Bytes × Bytes) → Fields
strings [] = []
strings ((name, v) ∷ kvs) = (name, string_text v) ∷ strings kvs

abbrev pub first : Bytes → List (Bytes × Bytes) → Option Bytes
first key [] = none
first key ((name, v) ∷ kvs) = if str_eq name key then some v else first key kvs

pub Finds-strings :
    (key v : Bytes) (kvs : List (Bytes × Bytes))
    → IsKey key
    → All (λ kv. IsKey kv.0) kvs
    → first key kvs ≡ some v
    → Finds key (string_text v) (strings kvs)
Finds-strings key v [] k n h = absurd (ground arith)
Finds-strings key v ((name, u) ∷ kvs) k n h = elim (Bool-cases (str_eq name key)) [
  | inl same ↦
      let e : name ≡ key = (str_eq_iff name key).0 same in
      let e' : u ≡ v = ground arith in rw (e, e') (Finds-here key (string_text v) (strings kvs))
  | inr other ↦
      Finds-append ((name, string_text u) ∷ [])
        ((n.0, (λ e. ground (arith, str_eq_iff name key)), string-Skips key u k), tt)
        (Finds-strings key v kvs k n.1 (rw other at h))
]
