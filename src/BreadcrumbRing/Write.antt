-- ===== src/BreadcrumbRing/Write.antt =====
-- One write to the ring, seen through `snapshot`.
use tombstack_native.Prelude.{
  ℕ, suc, ◌+◌, ◌-◌, ◌%◌, ◌≤◌, ◌<◌, ◌≡◌, sym, ap, ◌∙◌, ◌⊎◌, inl, inr, [], ◌∷◌, ◌++◌, arith, ltb,
  ltb→lt, lt→ltb, ltb_refuted, Bool-cases, length, set, get_or, drop, length-set, length-replicate,
}
use tombstack_native.BreadcrumbRing.{
  Breadcrumb, BreadcrumbRing, blank, default_capacity, new_ring, store, collect, snapshot,
}
use tombstack_native.BreadcrumbRing.Index.{
  mod_wrap, get_or-set_self, collect-set, collect_last, collect-mod, collect_wrap,
}

pub record IsValid (r : BreadcrumbRing) : Type 0 where
  pub some_slot : 1 ≤ length r.slots
  pub head_in : r.head < length r.slots
  pub count_in : r.count ≤ length r.slots

pub new_ring-IsValid : (capacity : ℕ) → IsValid (new_ring capacity)
unfolding new_ring
new_ring-IsValid capacity =
    ground (arith, length-replicate default_capacity blank, length-replicate capacity blank)

snapshot-collect :
    (r : BreadcrumbRing) → snapshot r ≡ collect r.slots (r.head + length r.slots - r.count) r.count
unfolding snapshot
snapshot-collect r = collect-mod r.slots _ r.count

next_head :
    (h n : ℕ) → h < n → ((h + 1 < n) × ((h + 1) % n ≡ h + 1)) ⊎ ((h + 1 ≡ n) × ((h + 1) % n ≡ 0))
next_head h n a = elim (Bool-cases (ltb (h + 1) n)) [
  | inl e ↦ inl (ltb→lt _ _ e, grind arith)
  | inr e ↦ let w : h + 1 ≡ n = omega (arith, ltb_refuted _ _ e) in inr (w, rw w (mod_self n))
]
  where
    mod_self : (n : ℕ) → n % n ≡ 0
    mod_self n = grind arith

pub store-IsValid : (c : Breadcrumb) (r : BreadcrumbRing) → IsValid r → IsValid (store c r)
unfolding store
store-IsValid c r v =
    ground (arith, length-set r.slots r.head c, next_head r.head (length r.slots) v.head_in)

module _ (c : Breadcrumb) (r : BreadcrumbRing) (v : IsValid r) where
  written : get_or (set r.slots r.head c) ((r.head + length r.slots) % length r.slots) blank ≡ c
  written =
      rw (mod_wrap r.head (length r.slots) v.head_in) (get_or-set_self r.slots r.head c v.head_in)

  -- the loop from `at` over the new slots, whose last round reads the new crumb
  last_is_new :
      (at n : ℕ)
      → r.head < at
      → at + n ≡ r.head + length r.slots
      → collect (set r.slots r.head c) at (suc n) ≡ collect r.slots at n ++ c ∷ []
  last_is_new at n a b =
      collect_last (set r.slots r.head c) at n
      ∙ rw (
        length-set r.slots r.head c,
        b,
        written,
        collect-set r.slots r.head c at n v.head_in a (omega arith),
      )

  store_start :
      r.count < length r.slots
      → collect
          (set r.slots r.head c)
          ((r.head + 1) % length r.slots + length r.slots - (r.count + 1))
          (suc r.count)
        ≡ collect (set r.slots r.head c) (r.head + length r.slots - r.count) (suc r.count)
  store_start h = elim (next_head r.head (length r.slots) v.head_in) [
    | inl (_, e) ↦
        let s : r.head + 1 + length r.slots - (r.count + 1) ≡ r.head + length r.slots - r.count =
          omega arith in
        rw (e, s)
    | inr (w, e) ↦
        let s : r.head + length r.slots - r.count
            ≡ 0 + length r.slots - (r.count + 1) + length r.slots =
          omega arith in
        rw (e, s)
          (sym (
            rw (length-set r.slots r.head c) at (
              collect_wrap (set r.slots r.head c) (0 + length r.slots - (r.count + 1))
                (suc r.count))))
  ]

  abbrev stored : ℕ → BreadcrumbRing
  stored n = record {
    slots = set r.slots r.head c;
    head = (r.head + 1) % length r.slots;
    count = n;
  }

  store_room : r.count < length r.slots → store c r ≡ stored (suc r.count)
  unfolding store
  store_room h = rw (lt→ltb _ _ h) (ap stored (omega arith))

  store_full : r.count ≡ length r.slots → store c r ≡ stored r.count
  unfolding store
  store_full h = ground arith

  snapshot-stored :
      (n : ℕ)
      → snapshot (stored n)
        ≡ collect (set r.slots r.head c) ((r.head + 1) % length r.slots + length r.slots - n) n
  snapshot-stored n = snapshot-collect (stored n) ∙ rw (length-set r.slots r.head c)

  -- While slots are free the snapshot grows by the new crumb.
  pub snapshot-store_room : r.count < length r.slots → snapshot (store c r) ≡ snapshot r ++ c ∷ []
  snapshot-store_room h =
      let s : r.count + 1 ≡ suc r.count = omega arith in
      ap snapshot (store_room h)
      ∙ snapshot-stored (suc r.count)
      ∙ (rw s at (store_start h))
      ∙ last_is_new (r.head + length r.slots - r.count) r.count (omega arith)
          (omega (arith, v.count_in))
      ∙ ap (λ t. t ++ c ∷ []) (sym (snapshot-collect r))

  all_slots :
      (n : ℕ)
      → suc n ≡ length r.slots
      → r.count ≡ length r.slots
      → drop 1 (snapshot r) ≡ collect r.slots (r.head + 1) n
  unfolding collect
  all_slots n e h =
      let s : r.head + length r.slots - r.count ≡ r.head = omega arith in
      let t : r.count ≡ suc n = omega arith in rw (snapshot-collect r) (rw (s, t))

  -- Once they are not, the oldest crumb is overwritten.
  pub snapshot-store_full :
      r.count ≡ length r.slots → snapshot (store c r) ≡ drop 1 (snapshot r) ++ c ∷ []
  snapshot-store_full h =
      let n : ℕ = length r.slots - 1 in
      let e : suc n ≡ length r.slots = omega (arith, v.some_slot) in
      let a : (r.head + 1) % length r.slots + length r.slots - r.count
          ≡ (r.head + 1) % length (set r.slots r.head c) =
        rw (length-set r.slots r.head c) (omega arith) in
      let t : r.count ≡ suc n = omega arith in
      ap snapshot (store_full h)
      ∙ snapshot-stored r.count
      ∙ ap (λ x. collect (set r.slots r.head c) x r.count) a
      ∙ collect-mod (set r.slots r.head c) (r.head + 1) r.count
      ∙ ap (λ x. collect (set r.slots r.head c) (r.head + 1) x) t
      ∙ last_is_new (r.head + 1) n (omega arith) (omega arith)
      ∙ ap (λ x. x ++ c ∷ []) (sym (all_slots n e h))
