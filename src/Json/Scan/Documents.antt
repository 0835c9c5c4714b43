-- ===== src/Json/Scan/Documents.antt =====
-- What the writer of src/json_writer.cpp puts into a flat object, the scanners of
-- src/json_scan.cpp read back.
use tombstack_native.Prelude.{
  ◌^◌, ◌<◌, ◌≡◌, ap, inl, inr, Bool, Option, none, some, List, [], ◌∷◌, map, arith, if◌then◌else◌,
  Bool-cases, All, Bytes, str_eq, str_eq_iff,
}
use tombstack_native.Prelude.Decimal.{int_text}
use tombstack_native.Prelude.Int.{ℤ, pos_part, neg_part}
use tombstack_native.Json.Writer.{
  JsonWriter, document, statements, string_field, int_field, bool_field,
}
use tombstack_native.Json.Writer.Emits.{
  Fields, Emits, Emits-nothing, Emits-then, string_text, bool_text, object_text,
}
use tombstack_native.Json.Writer.Fields.{
  string_field-Emits, int_field-Emits, bool_field-Emits, document-text,
}
use tombstack_native.Json.Scan.{find_string_field}
use tombstack_native.Json.Scan.Ints.{find_int_field, find_int_field-Finds, int_text-Skips}
use tombstack_native.Json.Scan.Skip.{IsKey, Skips, string-Skips, bool-Skips}
use tombstack_native.Json.Scan.Members.{Finds, Finds-here, Finds-append, find_string_field-Finds}

pub data Value : Type 0 where
  text : Bytes → Value
  number : ℤ → Value
  flag : Bool → Value

-- a member, and the call of the writer for it
abbrev pub Member : Type 0
Member = Bytes × Value

abbrev pub put : Member → JsonWriter → JsonWriter
put (name, text v) = string_field name v
put (name, number z) = int_field name z
put (name, flag b) = bool_field name b

abbrev pub written : List Member → Bytes
written members = document (map put members)

-- the value of the first member of this name
abbrev pub first_of : Bytes → List Member → Option Value
first_of key [] = none
first_of key ((name, v) ∷ members) = if str_eq name key then some v else first_of key members

abbrev value_text : Value → Bytes
value_text (text v) = string_text v
value_text (number z) = int_text z
value_text (flag b) = bool_text b

abbrev fields_of : List Member → Fields
fields_of [] = []
fields_of ((name, v) ∷ members) = (name, value_text v) ∷ fields_of members

put-Emits : (name : Bytes) (v : Value) → Emits (put (name, v)) ((name, value_text v) ∷ [])
put-Emits name (text v) = string_field-Emits name v
put-Emits name (number z) = int_field-Emits name z
put-Emits name (flag b) = bool_field-Emits name b

all_put-Emits : (members : List Member) → Emits (statements (map put members)) (fields_of members)
unfolding statements
all_put-Emits [] = Emits-nothing
all_put-Emits ((name, v) ∷ members) =
    Emits-then (put (name, v)) (statements (map put members)) ((name, value_text v) ∷ [])
      (fields_of members) (put-Emits name v) (all_put-Emits members)

written-object : (members : List Member) → written members ≡ object_text (fields_of members)
written-object members = document-text (map put members) (fields_of members) (all_put-Emits members)

value-Skips : (key : Bytes) (v : Value) → IsKey key → Skips key (value_text v)
value-Skips key (text v) k = string-Skips key v k
value-Skips key (number z) k = int_text-Skips key z
value-Skips key (flag b) k = bool-Skips key b

some_value : {v w : Value} → some v ≡ some w → v ≡ w
some_value {v} e = ap (λ o. elim o [ none ↦ v | some x ↦ x ]) e

fields-Finds :
    (key : Bytes) (v : Value) (members : List Member)
    → IsKey key
    → All (λ m. IsKey m.0) members
    → first_of key members ≡ some v
    → Finds key (value_text v) (fields_of members)
fields-Finds key v [] k names h = absurd (ground arith)
fields-Finds key v ((name, u) ∷ members) k names h = elim (Bool-cases (str_eq name key)) [
  | inl same ↦
      let e : name ≡ key = (str_eq_iff name key).0 same in
      rw (e, some_value (rw same at h)) (Finds-here key (value_text v) (fields_of members))
  | inr other ↦
      Finds-append ((name, value_text u) ∷ [])
        ((names.0, (λ e. ground (arith, str_eq_iff name key)), value-Skips key u k), tt)
        (fields-Finds key v members k names.1 (rw other at h))
]

-- In a flat object of strings, integers and flags that the writer writes, where every name is not
-- empty and made of the bytes from `A` to `z` but the backslash and `]`, the value of the first
-- member of a name is read back where it is a string, byte for byte.
pub find_string_field-written :
    (key v : Bytes) (members : List Member)
    → IsKey key
    → All (λ m. IsKey m.0) members
    → first_of key members ≡ some (text v)
    → find_string_field (written members) key ≡ some v
find_string_field-written key v members k names h =
    rw (written-object members)
      (find_string_field-Finds (fields-Finds key (text v) members k names h) k)

-- In a flat object of strings, integers and flags that the writer writes, where every name is not
-- empty and made of the bytes from `A` to `z` but the backslash and `]`, the value of the first
-- member of a name is read back, with its sign, where it is an integer of at most eighteen digits.
pub find_int_field-written :
    (key : Bytes) (z : ℤ) (members : List Member)
    → IsKey key
    → All (λ m. IsKey m.0) members
    → first_of key members ≡ some (number z)
    → pos_part z < 10 ^ 18
    → neg_part z < 10 ^ 18
    → find_int_field (written members) key ≡ some z
find_int_field-written key z members k names h p n =
    rw (written-object members)
      (find_int_field-Finds z (fields-Finds key (number z) members k names h) k p n)
