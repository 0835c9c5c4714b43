-- ===== src/Batch/Groups.antt =====
-- How draining cuts the items into envelopes.
use tombstack_native.Prelude.{
  ℕ, zero, suc, ◌+◌, ◌≤◌, ◌≡◌, refl, ap, ◌∙◌, subst, ◌⊎◌, inl, inr, Bool, true, false, List, [],
  ◌∷◌, ◌++◌, map, append-nil, append_assoc, arith, ltb, leb, if◌then◌else◌, ltb_refuted,
  leb_refuted, Bool-cases, length, length-append, Bytes, codes,
}
use tombstack_native.Json.Writer.{statements, string_field, raw_element}
use tombstack_native.Json.Writer.Emits.{
  EmitsItems, object_text, array_text, string_text, items_text,
}
use tombstack_native.Json.Writer.Fields.{
  raw_element-EmitsItems, document-Emits, array-Emits, string_field-Emits,
}
use tombstack_native.Prelude.Windows.{newest, newest_push}
use tombstack_native.Batch.{
  Batch, max_items, max_batch_bytes, flush_count, add, build_batch_envelope, items_array,
  take_group, drain_locked, drain_all, ready, drain_envelopes_if_ready,
}

take_group_whole :
    (b : Bool) (bytes : ℕ) (items : List Bytes)
    → (take_group b bytes items).0 ++ (take_group b bytes items).1 ≡ items
unfolding take_group
take_group_whole b bytes [] = refl
take_group_whole b bytes (item ∷ items) =
    ground (arith, take_group_whole true (bytes + (length item + (if b then 1 else 0))) items)

take_group_fits :
    (bytes : ℕ) (items : List Bytes)
    → bytes ≤ max_batch_bytes
    → bytes + length (items_text true (take_group true bytes items).0) ≤ max_batch_bytes
unfolding take_group
take_group_fits bytes [] h = omega arith
take_group_fits bytes (item ∷ items) h = elim (Bool-cases (ltb max_batch_bytes next)) [
  | inl over ↦ rw over (omega arith)
  | inr within ↦ elim (Bool-cases (leb max_batch_bytes next)) [
    | inl full ↦ rw (within, full) (omega (arith, ltb_refuted _ _ within, length-append item []))
    | inr room ↦
        rw (within, room)
          (omega (
            arith,
            length-append item (items_text true (take_group true next items).0),
            take_group_fits next items (ltb_refuted _ _ within),
          ))
  ]
]
  where
    next : ℕ
    next = bytes + (length item + 1)

-- The first group is one item, or fits.
take_group_first :
    (bytes : ℕ) (item : Bytes) (items : List Bytes)
    → ((take_group false bytes (item ∷ items)).0 ≡ item ∷ [])
      ⊎ (bytes + length (items_text false (take_group false bytes (item ∷ items)).0)
          ≤ max_batch_bytes)
unfolding take_group
take_group_first bytes item items =
    elim (Bool-cases (leb max_batch_bytes (bytes + (length item + 0)))) [
      | inl full ↦ inl (rw full refl)
      | inr room ↦ inr (
          rw room (
            omega (
              arith,
              leb_refuted _ _ room,
              length-append item
                  (items_text true (take_group true (bytes + (length item + 0)) items).0),
              take_group_fits (bytes + (length item + 0)) items
                  (omega (arith, leb_refuted _ _ room)),
            )))
    ]

take_group_item :
    (bytes : ℕ) (item : Bytes) (items : List Bytes)
    → 1 ≤ length (take_group false bytes (item ∷ items)).0
unfolding take_group
take_group_item bytes item items = ground arith

take_group_shrinks :
    (bytes : ℕ) (item : Bytes) (items : List Bytes)
    → length (take_group false bytes (item ∷ items)).1 ≤ length items
take_group_shrinks bytes item items = omega (
  arith,
  take_group_item bytes item items,
  ap length (take_group_whole false bytes (item ∷ items)),
  length-append (take_group false bytes (item ∷ items)).0 (take_group false bytes (item ∷ items)).1,
)

raw_elements-EmitsItems :
    (items : List Bytes) → EmitsItems (statements (map raw_element items)) items
unfolding statements
raw_elements-EmitsItems [] o true scopes = simp append-nil
raw_elements-EmitsItems [] o false scopes = simp append-nil
raw_elements-EmitsItems (item ∷ items) o true scopes =
    ap (statements (map raw_element items)) (raw_element-EmitsItems item o true scopes)
    ∙ raw_elements-EmitsItems items _ true scopes
    ∙ simp (append_assoc, append-nil)
raw_elements-EmitsItems (item ∷ items) o false scopes =
    ap (statements (map raw_element items)) (raw_element-EmitsItems item o false scopes)
    ∙ raw_elements-EmitsItems items _ true scopes
    ∙ simp (append_assoc, append-nil)

envelope_lem :
    (sent_at_iso : Bytes) (items : List Bytes)
    → build_batch_envelope sent_at_iso items
      ≡ object_text
          ((codes "sentAtIso", string_text sent_at_iso) ∷ (codes "items", array_text items) ∷ [])
unfolding build_batch_envelope
envelope_lem sent_at_iso items =
    document-Emits (string_field (codes "sentAtIso") sent_at_iso ∷ items_array items ∷ [])
      (((codes "sentAtIso", string_text sent_at_iso) ∷ [])
        ∷ ((codes "items", array_text items) ∷ [])
        ∷ [])
      (
        string_field-Emits (codes "sentAtIso") sent_at_iso,
        (
          array-Emits (codes "items") (statements (map raw_element items)) items
              (raw_elements-EmitsItems items),
          tt,
        ),
      )

length-envelope :
    (sent_at_iso : Bytes) (items : List Bytes)
    → length (build_batch_envelope sent_at_iso items)
      ≡ length (build_batch_envelope sent_at_iso []) + length (items_text false items)
length-envelope sent_at_iso items =
    rw (envelope_lem sent_at_iso items, envelope_lem sent_at_iso [])
      (simp (length-append) (omega arith))

-- What a cut of the items into envelopes has to be.
pub data Cut (sent_at_iso : Bytes) : List Bytes → List Bytes → Type 0 where
  done : Cut sent_at_iso [] []
  envelope :
      {items envelopes : List Bytes} (group : List Bytes)
      → 1 ≤ length group
      → (length group ≤ 1) ⊎ (length (build_batch_envelope sent_at_iso group) ≤ max_batch_bytes)
      → Cut sent_at_iso items envelopes
      → Cut sent_at_iso (group ++ items) (build_batch_envelope sent_at_iso group ∷ envelopes)

drain_all-Cut :
    (fuel : ℕ) (sent_at_iso : Bytes) (items : List Bytes)
    → length items ≤ fuel
    → ((drain_all fuel sent_at_iso items).0 ≡ [])
      × Cut sent_at_iso items (drain_all fuel sent_at_iso items).1
unfolding drain_all drain_locked
drain_all-Cut zero sent_at_iso [] h = (refl, done)
drain_all-Cut zero sent_at_iso (item ∷ items) h = absurd (omega arith)
drain_all-Cut (suc fuel) sent_at_iso [] h = (refl, done)
drain_all-Cut (suc fuel) sent_at_iso (item ∷ items) h =
    let base = length (build_batch_envelope sent_at_iso []) in
    let group = take_group false base (item ∷ items) in
    let (none_left, cut) =
      drain_all-Cut fuel sent_at_iso group.1 (omega (arith, take_group_shrinks base item items)) in
    (
      none_left,
      subst (λ all. Cut sent_at_iso all (drain_all (suc fuel) sent_at_iso (item ∷ items)).1)
          (take_group_whole false base (item ∷ items))
          (envelope group.0 (take_group_item base item items)
            (light group.0 (take_group_first base item items)) cut),
    )
  where
    light :
        (group : List Bytes)
        → (group ≡ item ∷ [])
          ⊎ (length (build_batch_envelope sent_at_iso []) + length (items_text false group)
              ≤ max_batch_bytes)
        → (length group ≤ 1) ⊎ (length (build_batch_envelope sent_at_iso group) ≤ max_batch_bytes)
    light group (inl e) = inl (omega (arith, ap length e))
    light group (inr e) = inr (omega (arith, e, length-envelope sent_at_iso group))

-- A drain of a batch that is ready leaves it empty, and cuts all its items, in order, into
-- envelopes: each holds an item, and is of 512 KB at most unless that item is its only one.
pub drain_envelopes_if_ready-Cut :
    (sent_at_iso : Bytes) (now : ℕ) (force : Bool) (batch : Batch)
    → ready now force batch ≡ true
    → ((drain_envelopes_if_ready sent_at_iso now force batch).0.items ≡ [])
      × Cut sent_at_iso batch.items (drain_envelopes_if_ready sent_at_iso now force batch).1
unfolding drain_envelopes_if_ready
drain_envelopes_if_ready-Cut sent_at_iso now force batch h =
    rw h (drain_all-Cut (length batch.items) sent_at_iso batch.items (omega arith))

-- A batch that holds the newest 256 items of a history holds, after `add`, the newest 256 of the
-- history with the new item, and asks for a drain exactly when at least 50 wait.
pub add-newest :
    (now : ℕ) (item : Bytes) (batch : Batch) (history : List Bytes)
    → batch.items ≡ newest max_items history
    → ((add now item batch).0.items ≡ newest max_items (history ++ item ∷ []))
      × ((add now item batch).1
          ≡ leb flush_count (length (newest max_items (history ++ item ∷ []))))
unfolding add
add-newest now item batch history h =
    let kept = newest_push max_items batch.items history item (omega arith) h in
    (kept, ap (λ items. leb flush_count (length items)) kept)
