-- ===== src/BreadcrumbRing/Trail.antt =====
-- The ring as the trail of the newest breadcrumbs.
use tombstack_native.Prelude.{
  ℕ, ◌+◌, min, ◌≡◌, refl, sym, ap, ◌∙◌, ◌⊎◌, inl, inr, true, false, List, [], ◌∷◌, ◌++◌, map,
  append-nil, append_assoc, arith, ltb, if◌then◌else◌, ltb→lt, ltb_refuted, Bool-cases, length,
  is_empty, drop, All, length-append, length-set, length-replicate, length-map, Bytes,
}
use tombstack_native.Prelude.Windows.{newest, newest_all, newest-push}
use tombstack_native.BreadcrumbRing.{
  Breadcrumb, BreadcrumbRing, blank, default_capacity, clamped, new_ring, store, add, snapshot,
  clear,
}
use tombstack_native.BreadcrumbRing.Write.{
  IsValid, new_ring-IsValid, store-IsValid, snapshot-store_room, snapshot-store_full,
}

-- A call of `add`: level, message, time stamp.
abbrev pub Call : Type 0
Call = Bytes × Bytes × Bytes

-- what a history of calls would leave in a ring with no bound
abbrev pub recorded : List Call → List Breadcrumb
recorded [] = []
recorded ((level, message, ts) ∷ calls) =
    if is_empty message then recorded calls else clamped level message ts ∷ recorded calls

unfoldable pub add_all : List Call → BreadcrumbRing → BreadcrumbRing
add_all [] r = r
add_all ((level, message, ts) ∷ calls) r = add_all calls (add level message ts r)

-- The ring stands for the newest entries of this history.
record Holds (r : BreadcrumbRing) (history : List Breadcrumb) : Type 0 where
  valid : IsValid r
  shows : snapshot r ≡ newest (length r.slots) history
  counts : r.count ≡ min (length r.slots) (length history)

length-store : (c : Breadcrumb) (r : BreadcrumbRing) → length (store c r).slots ≡ length r.slots
unfolding store
length-store c r = length-set r.slots r.head c

count-store :
    (c : Breadcrumb) (r : BreadcrumbRing)
    → IsValid r
    → (store c r).count ≡ min (length r.slots) (r.count + 1)
unfolding store
count-store c r v = ground (arith, v.count_in)

store-Holds :
    (c : Breadcrumb) (r : BreadcrumbRing) (history : List Breadcrumb)
    → Holds r history
    → Holds (store c r) (history ++ c ∷ [])
store-Holds c r history h = record {
  valid = store-IsValid c r h.valid;
  shows = rw (length-store c r) (shows (Bool-cases (ltb r.count (length r.slots))));
  counts =
      omega (
        arith,
        length-store c r,
        count-store c r h.valid,
        h.counts,
        length-append history (c ∷ []),
      );
}
  where
    shows :
        (ltb r.count (length r.slots) ≡ true) ⊎ (ltb r.count (length r.slots) ≡ false)
        → snapshot (store c r) ≡ newest (length r.slots) (history ++ c ∷ [])
    shows (inl e) =
        let room = ltb→lt _ _ e in
        snapshot-store_room c r h.valid room
        ∙ ap (λ t. t ++ c ∷ [])
            (h.shows ∙ newest_all (length r.slots) history (omega (arith, h.counts)))
        ∙ sym (
            newest_all (length r.slots) (history ++ c ∷ [])
              (omega (arith, h.counts, length-append history (c ∷ []))))
    shows (inr e) =
        let full = ltb_refuted _ _ e in
        snapshot-store_full c r h.valid (omega (arith, h.valid.count_in))
        ∙ ap (λ t. drop 1 t ++ c ∷ []) h.shows
        ∙ sym (newest-push (length r.slots) history c h.valid.some_slot (omega (arith, h.counts)))

length-add :
    (level message ts : Bytes) (r : BreadcrumbRing)
    → length (add level message ts r).slots ≡ length r.slots
unfolding add
length-add level [] ts r = refl
length-add level (c ∷ message) ts r = length-store (clamped level (c ∷ message) ts) r

-- what one call adds to the history
abbrev recorded_one : Bytes → Bytes → Bytes → List Breadcrumb
recorded_one level message ts = if is_empty message then [] else clamped level message ts ∷ []

add-Holds :
    (level message ts : Bytes) (r : BreadcrumbRing) (history : List Breadcrumb)
    → Holds r history
    → Holds (add level message ts r) (history ++ recorded_one level message ts)
unfolding add
add-Holds level [] ts r history h = rw append-nil h
add-Holds level (c ∷ message) ts r history h =
    store-Holds (clamped level (c ∷ message) ts) r history h

recorded-cons :
    (level message ts : Bytes) (calls : List Call)
    → recorded ((level, message, ts) ∷ calls) ≡ recorded_one level message ts ++ recorded calls
recorded-cons level [] ts calls = refl
recorded-cons level (c ∷ message) ts calls = refl

add_all-Holds :
    (calls : List Call) (r : BreadcrumbRing) (history : List Breadcrumb)
    → Holds r history
    → Holds (add_all calls r) (history ++ recorded calls)
      × (length (add_all calls r).slots ≡ length r.slots)
unfolding add_all
add_all-Holds [] r history h = (rw append-nil h, refl)
add_all-Holds ((level, message, ts) ∷ calls) r history h =
    let (ih, e) =
      add_all-Holds calls (add level message ts r) (history ++ recorded_one level message ts)
        (add-Holds level message ts r history h) in
    (
      rw
          (
            recorded-cons level message ts calls,
            ← append_assoc history (recorded_one level message ts) (recorded calls),
          )
          ih,
      e ∙ length-add level message ts r,
    )

new_ring-Holds : (capacity : ℕ) → Holds (new_ring capacity) []
unfolding new_ring snapshot
new_ring-Holds capacity = record {
  valid = new_ring-IsValid capacity;
  shows = ground arith;
  counts = ground arith;
}

length-new_ring :
    (capacity : ℕ)
    → length (new_ring capacity).slots ≡ (if ltb 0 capacity then capacity else default_capacity)
unfolding new_ring
length-new_ring capacity = length-replicate _ blank

-- After any calls of `add` on a new ring, from any threads in any order, `snapshot` gives the
-- newest breadcrumbs that were recorded, oldest first, as many as the capacity (64 where 0 was
-- asked for); calls with an empty message record nothing, level and message are cut to 16 and 512
-- bytes.
pub snapshot-add_all :
    (capacity : ℕ) (calls : List Call)
    → snapshot (add_all calls (new_ring capacity))
      ≡ newest (if ltb 0 capacity then capacity else default_capacity) (recorded calls)
snapshot-add_all capacity calls =
    let (h, e) = add_all-Holds calls (new_ring capacity) [] (new_ring-Holds capacity) in
    h.shows ∙ ap (λ n. newest n (recorded calls)) (e ∙ length-new_ring capacity)

-- `clear` empties the trail, leaves no text in any slot, and keeps the ring usable.
pub clear_scrubs :
    (r : BreadcrumbRing)
    → IsValid r
    → (snapshot (clear r) ≡ []) × All (λ s. s ≡ blank) (clear r).slots × IsValid (clear r)
unfolding clear snapshot
clear_scrubs r v =
    (refl, scrubbed r.slots, ground (arith, length-map r.slots (λ s. blank), v.some_slot))
  where
    scrubbed : (slots : List Breadcrumb) → All (λ s. s ≡ blank) (map (λ s. blank) slots)
    scrubbed [] = tt
    scrubbed (s ∷ slots) = (refl, scrubbed slots)
