-- ===== src/Batch.antt =====
-- src/batch.h and src/batch.cpp, with `build_batch_envelope` of src/payloads.cpp. Times are
-- steady-clock milliseconds; the time of `add` is an argument.
pub mod Groups
mod Tests
use tombstack_native.Prelude.{
  ℕ, zero, suc, ◌+◌, ◌*◌, Bool, true, false, not, ◌&&◌, ◌||◌, Option, none, some, List, [], ◌∷◌,
  ◌++◌, map, ltb, leb, if◌then◌else◌, length, is_empty, pop_front, Bytes, codes,
}
use tombstack_native.Json.Writer.{
  JsonWriter, statements, document, string_field, begin_array, raw_element, end_array,
}

pub record Batch : Type 0 where
  pub items : List Bytes
  pub first_add : ℕ

abbrev pub max_items : ℕ
max_items = 256

abbrev pub flush_count : ℕ
flush_count = 50

abbrev pub max_batch_bytes : ℕ
max_batch_bytes = 512 * 1024

abbrev pub flush_age : ℕ
flush_age = 10000

unfoldable pub add : ℕ → Bytes → Batch → Batch × Bool
add now item batch =
    let kept = if leb max_items (length batch.items) then pop_front batch.items else batch.items in
    (
      record {
        items = kept ++ item ∷ [];
        first_add = if is_empty batch.items then now else batch.first_add;
      },
      leb flush_count (length (kept ++ item ∷ [])),
    )

-- the array of `build_batch_envelope`, with its loop
abbrev pub items_array : List Bytes → JsonWriter → JsonWriter
items_array items w = end_array (statements (map raw_element items) (begin_array (codes "items") w))

unfoldable pub build_batch_envelope : Bytes → List Bytes → Bytes
build_batch_envelope sent_at_iso items =
    document (string_field (codes "sentAtIso") sent_at_iso ∷ items_array items ∷ [])

-- The loop of `drain_locked`: what it drains and what it leaves. The flag is `!drained.empty()`.
pub take_group : Bool → ℕ → List Bytes → List Bytes × List Bytes
take_group started bytes [] = ([], [])
take_group started bytes (item ∷ items) =
    let next_bytes = length item + (if started then 1 else 0) in
    let rest = take_group true (bytes + next_bytes) items in
    if started && ltb max_batch_bytes (bytes + next_bytes)
    then ([], item ∷ items)
    else if leb max_batch_bytes (bytes + next_bytes)
    then (item ∷ [], items)
    else (item ∷ rest.0, rest.1)

-- The new items and the envelope.
unfoldable pub drain_locked : Bytes → List Bytes → List Bytes × Bytes
unfolding take_group
drain_locked sent_at_iso items =
    let group = take_group false (length (build_batch_envelope sent_at_iso [])) items in
    (group.1, build_batch_envelope sent_at_iso group.0)

pub ready : ℕ → Bool → Batch → Bool
ready now force batch =
    not (is_empty batch.items)
    && (force || leb flush_count (length batch.items) || leb (batch.first_add + flush_age) now)

unfoldable pub drain_if_ready : Bytes → ℕ → Bool → Batch → Batch × Option Bytes
unfolding ready
drain_if_ready sent_at_iso now force batch =
    if not (ready now force batch) then (batch, none) else (
      record batch { items = (drain_locked sent_at_iso batch.items).0 },
      some (drain_locked sent_at_iso batch.items).1,
    )

-- The loop of `drain_envelopes_if_ready`, on fuel: the items that are left and the envelopes.
pub drain_all : ℕ → Bytes → List Bytes → List Bytes × List Bytes
unfolding drain_locked
drain_all zero sent_at_iso items = (items, [])
drain_all (suc fuel) sent_at_iso [] = ([], [])
drain_all (suc fuel) sent_at_iso (item ∷ items) =
    let drained = drain_locked sent_at_iso (item ∷ items) in
    let rest = drain_all fuel sent_at_iso drained.0 in (rest.0, drained.1 ∷ rest.1)

-- Every turn drains an item, so the number of items is fuel enough.
unfoldable pub drain_envelopes_if_ready : Bytes → ℕ → Bool → Batch → Batch × List Bytes
unfolding ready drain_all
drain_envelopes_if_ready sent_at_iso now force batch =
    let drained = drain_all (length batch.items) sent_at_iso batch.items in
    if not (ready now force batch)
    then (batch, [])
    else (record batch { items = drained.0 }, drained.1)
