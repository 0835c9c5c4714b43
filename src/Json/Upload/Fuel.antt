-- ===== src/Json/Upload/Fuel.antt =====
-- The fuel of the field loop of `find_log_upload` is enough.
use tombstack_native.Prelude.{
  ℕ, zero, suc, ◌+◌, ◌≤◌, ◌≡◌, refl, sym, ap, true, Option, none, some, List, [], ◌∷◌, ◌++◌, arith,
  leb, ◌==◌, if◌then◌else◌, length, length-append, Bytes,
}
use tombstack_native.Json.Upload.{read_field, read_fields, field_fuel}

-- The 33rd field is refused.
read_field_full :
    (so_far : List (Bytes × Bytes)) (text : Bytes)
    → 32 ≤ length so_far
    → read_field so_far text ≡ none
unfolding read_field
read_field_full so_far text h =
    let full : leb 32 (length so_far) ≡ true = ground arith in ground arith

abbrev after :
    (List (Bytes × Bytes) → Bytes → Option (List (Bytes × Bytes)))
    → List (Bytes × Bytes)
    → Option (Bytes × Bytes × Bytes)
    → Option (List (Bytes × Bytes))
after go so_far r = elim r [
  | none ↦ none
  | some (name, value, []) ↦ none
  | some (name, value, c ∷ cs) ↦
      let rest = go (so_far ++ (name, value) ∷ []) cs in
      if c == b'}' then some (so_far ++ (name, value) ∷ []) else if c == b',' then rest else none
]

same_after :
    (go go' : List (Bytes × Bytes) → Bytes → Option (List (Bytes × Bytes)))
    (so_far : List (Bytes × Bytes)) (r : Option (Bytes × Bytes × Bytes))
    → ((f : Bytes × Bytes) (text : Bytes)
        → go (so_far ++ f ∷ []) text ≡ go' (so_far ++ f ∷ []) text)
    → after go so_far r ≡ after go' so_far r
same_after go go' so_far none h = refl
same_after go go' so_far (some (name, value, [])) h = refl
same_after go go' so_far (some (name, value, c ∷ cs)) h =
    ap
      (λ rest.
        if c == b'}' then some (so_far ++ (name, value) ∷ []) else if c == b',' then rest else none)
      (h (name, value) cs)

-- With fuel for 33 fields in all, more fuel changes nothing, whatever the text is.
pub read_fields_enough :
    (fuel : ℕ) (so_far : List (Bytes × Bytes)) (text : Bytes)
    → field_fuel ≤ length so_far + fuel
    → read_fields fuel so_far text ≡ read_fields (suc fuel) so_far text
unfolding read_fields
read_fields_enough zero so_far text h =
    sym (ap (after (read_fields zero) so_far) (read_field_full so_far text (omega arith)))
read_fields_enough (suc fuel) so_far text h =
    same_after (read_fields fuel) (read_fields (suc fuel)) so_far (read_field so_far text)
      (λ f rest.
        read_fields_enough fuel (so_far ++ f ∷ []) rest
          (omega (arith, length-append so_far (f ∷ []))))
