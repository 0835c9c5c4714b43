-- ===== src/Payloads/Items/Attributes.antt =====
-- The attributes on the body of an event.
use tombstack_native.Prelude.{
  ℕ, zero, suc, ◌+◌, ◌≡◌, inl, inr, true, false, List, [], ◌∷◌, arith, leb, if◌then◌else◌,
  Bool-cases, is_empty, take, Bytes,
}
use tombstack_native.Json.Utf8.{utf8_safe_truncate}
use tombstack_native.Json.Writer.{string_field}
use tombstack_native.Json.Writer.Emits.{Fields, Emits, Emits-nothing, Emits-then, string_text}
use tombstack_native.Json.Writer.Fields.{string_field-Emits}
use tombstack_native.Payloads.Limits
use tombstack_native.Payloads.Items.{attribute_loop}

-- The attributes with a key, clamped to the wire, in order.
abbrev pub named : List (Bytes × Bytes) → Fields
named [] = []
named ((key, value) ∷ attributes) =
    let rest = named attributes in
    if is_empty key
    then rest
    else (
      utf8_safe_truncate key Limits.event_attribute_key,
      string_text (utf8_safe_truncate value Limits.event_attribute_value),
    )
      ∷ rest

-- The loop writes the first 32 attributes that have a key, clamped and in order, and no other: an
-- attribute without a key takes no room.
pub attribute_loop-Emits :
    (written room : ℕ) (attributes : List (Bytes × Bytes))
    → written + room ≡ Limits.event_attributes
    → Emits (attribute_loop written attributes) (take room (named attributes))
unfolding attribute_loop
attribute_loop-Emits written zero [] h = Emits-nothing
attribute_loop-Emits written (suc room) [] h = Emits-nothing
attribute_loop-Emits written zero ((key, value) ∷ attributes) h =
    let full : leb Limits.event_attributes written ≡ true = ground (arith, h) in
    rw full Emits-nothing
attribute_loop-Emits written (suc room) ((key, value) ∷ attributes) h =
    let more : leb Limits.event_attributes written ≡ false = ground (arith, h) in
    elim (Bool-cases (is_empty key)) [
      | inl e ↦ rw more (rw e (attribute_loop-Emits written (suc room) attributes h))
      | inr e ↦ rw more (
          rw e (
            Emits-then
              (string_field (utf8_safe_truncate key Limits.event_attribute_key)
                (utf8_safe_truncate value Limits.event_attribute_value))
              (attribute_loop (written + 1) attributes)
              ((
                utf8_safe_truncate key Limits.event_attribute_key,
                string_text (utf8_safe_truncate value Limits.event_attribute_value),
              )
                ∷ [])
              (take room (named attributes))
              (string_field-Emits (utf8_safe_truncate key Limits.event_attribute_key)
                (utf8_safe_truncate value Limits.event_attribute_value))
              (attribute_loop-Emits (written + 1) room attributes (omega (arith, h)))))
    ]
