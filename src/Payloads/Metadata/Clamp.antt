-- ===== src/Payloads/Metadata/Clamp.antt =====
-- What `clamp_user_metadata` lets through.
use tombstack_native.Prelude.{
  ◌≤◌, ◌<◌, ◌≡◌, refl, sym, ap, subst, ◌≢◌, ◌⊎◌, inl, inr, Option, none, some, List, [], ◌∷◌, ◌++◌,
  map, arith, leb, leb_refuted, Bool-cases, length, All, length-append, length-map, All-append,
  Bytes, str_eq, str_eq_iff,
}
use tombstack_native.Json.Utf8.{utf8_safe_truncate}
use tombstack_native.Payloads.Limits
use tombstack_native.Payloads.Metadata.{
  UserMetadataEntries, update, clamp_entry, usable, clamp_loop, clamp_user_metadata,
}
use tombstack_native.Json.Utf8.Bounds.{truncate_short}
use tombstack_native.Payloads.Metadata.Text.{Fits}

abbrev keys : UserMetadataEntries → List Bytes
keys = map (λ e. e.0)

abbrev pub Distinct : List Bytes → Type 0
Distinct [] = Unit
Distinct (k ∷ ks) = All (λ j. j ≢ k) ks × Distinct ks

-- Within the limits of the wire: few entries, short keys and values, no key twice.
pub record IsClamped (out : UserMetadataEntries) : Type 0 where
  pub few : length out ≤ Limits.user_metadata_keys
  pub fits : Fits out
  pub distinct : Distinct (keys out)

record Updated (value : Bytes) (out out' : UserMetadataEntries) : Type 0 where
  same_keys : keys out' ≡ keys out
  still_fits : Fits out → length value ≤ Limits.user_metadata_value → Fits out'

update-cases :
    (key value : Bytes) (out : UserMetadataEntries)
    → ((update key value out ≡ none) × All (λ j. j ≢ key) (keys out))
      ⊎ ((out' : UserMetadataEntries) × ((update key value out ≡ some out')
            × Updated value out out'))
unfolding update
update-cases key value [] = inl (refl, tt)
update-cases key value ((k, v) ∷ out) = elim (Bool-cases (str_eq k key)) [
  | inl e ↦ inr (
    (k, value) ∷ out,
    (rw e refl, record { same_keys = refl; still_fits = λ f l. ((f.0.0, l), f.1) }),
  )
  | inr e ↦ elim (update-cases key value out) [
    | inl (u, fresh) ↦ inl (rw e (rw u refl), ((λ k'. ground (arith, e, str_eq_iff k key)), fresh))
    | inr (out', (u, h)) ↦ inr (
      (k, v) ∷ out',
      (
        rw e (rw u refl),
        record {
          same_keys = ap (λ ks. k ∷ ks) h.same_keys;
          still_fits = λ f l. (f.0, h.still_fits f.1 l);
        },
      ),
    )
  ]
]

Distinct-snoc :
    (ks : List Bytes) (key : Bytes)
    → Distinct ks
    → All (λ j. j ≢ key) ks
    → Distinct (ks ++ key ∷ [])
Distinct-snoc [] key d f = (tt, tt)
Distinct-snoc (k ∷ ks) key d f = (
  All-append (λ j. j ≢ k) ks (key ∷ []) d.0 ((λ e. f.0 (sym e)), tt),
  Distinct-snoc ks key d.1 f.1,
)

keys-append :
    (out : UserMetadataEntries) (e : Bytes × Bytes) → keys (out ++ e ∷ []) ≡ keys out ++ e.0 ∷ []
keys-append [] e = refl
keys-append (x ∷ out) e = ap (λ ks. x.0 ∷ ks) (keys-append out e)

Updated-IsClamped :
    (value : Bytes) (out out' : UserMetadataEntries)
    → length value ≤ Limits.user_metadata_value
    → Updated value out out'
    → IsClamped out
    → IsClamped out'
Updated-IsClamped value out out' hv u h = record {
  few =
      omega (
        arith,
        h.few,
        ap length u.same_keys,
        length-map out (λ e. e.0),
        length-map out' (λ e. e.0),
      );
  fits = u.still_fits h.fits hv;
  distinct = subst Distinct (sym u.same_keys) h.distinct;
}

appended-IsClamped :
    (key value : Bytes) (out : UserMetadataEntries)
    → length key ≤ Limits.user_metadata_key
    → length value ≤ Limits.user_metadata_value
    → length out < Limits.user_metadata_keys
    → All (λ j. j ≢ key) (keys out)
    → IsClamped out
    → IsClamped (out ++ (key, value) ∷ [])
appended-IsClamped key value out hk hv room fresh h = record {
  few = omega (arith, length-append out ((key, value) ∷ []));
  fits = All-append _ out ((key, value) ∷ []) h.fits ((hk, hv), tt);
  distinct =
      subst Distinct (sym (keys-append out (key, value)))
        (Distinct-snoc (keys out) key h.distinct fresh);
}

clamp_entry-cases :
    (key value : Bytes) (out : UserMetadataEntries)
    → length key ≤ Limits.user_metadata_key
    → length value ≤ Limits.user_metadata_value
    → IsClamped out
    → (clamp_entry key value out ≡ none)
      ⊎ ((out' : UserMetadataEntries) × ((clamp_entry key value out ≡ some out') × IsClamped out'))
unfolding clamp_entry
clamp_entry-cases key value out hk hv h = elim (update-cases key value out) [
  | inr (out', (e, u)) ↦
      inr (out', (rw (e, clamp_entry) refl, Updated-IsClamped value out out' hv u h))
  | inl (e, fresh) ↦ elim (Bool-cases (leb Limits.user_metadata_keys (length out))) [
    | inl full ↦ inl (rw (e, clamp_entry) (rw full refl))
    | inr room ↦ inr (
      out ++ (key, value) ∷ [],
      (
        rw (e, clamp_entry) (rw room refl),
        appended-IsClamped key value out hk hv (leb_refuted _ _ room) fresh h,
      ),
    )
  ]
]

usable-cases :
    (key value : Option Bytes)
    → (usable key value ≡ none)
      ⊎ ((k : Bytes) × ((v : Bytes) × ((usable key value ≡ some (k, v))
              × ((length k ≤ Limits.user_metadata_key) × (length v ≤ Limits.user_metadata_value)))))
unfolding usable
usable-cases none value = inl refl
usable-cases (some []) value = inl refl
usable-cases (some (c ∷ key)) none = inl refl
usable-cases (some (c ∷ key)) (some []) = inl refl
usable-cases (some (c ∷ key)) (some (e ∷ value)) = inr (
  utf8_safe_truncate (c ∷ key) Limits.user_metadata_key,
  (
    utf8_safe_truncate (e ∷ value) Limits.user_metadata_value,
    (
      refl,
      (
        truncate_short (c ∷ key) Limits.user_metadata_key,
        truncate_short (e ∷ value) Limits.user_metadata_value,
      ),
    ),
  ),
)

empty-IsClamped : IsClamped []
empty-IsClamped = record { few = omega arith; fits = tt; distinct = tt }

clamp_loop-IsClamped :
    (keys values : List (Option Bytes)) (out : UserMetadataEntries)
    → IsClamped out
    → IsClamped (clamp_loop keys values out)
unfolding clamp_loop
clamp_loop-IsClamped [] values out h = h
clamp_loop-IsClamped (key ∷ ks) [] out h = h
clamp_loop-IsClamped (key ∷ ks) (value ∷ vs) out h = elim (usable-cases key value) [
  | inl e ↦ rw (e, clamp_loop) (clamp_loop-IsClamped ks vs out h)
  | inr (k, (v, (e, (hk, hv)))) ↦ elim (clamp_entry-cases k v out hk hv h) [
    | inl full ↦ rw (e, clamp_loop) (rw full h)
    | inr (out', (step, h')) ↦ rw (e, clamp_loop) (rw step (clamp_loop-IsClamped ks vs out' h'))
  ]
]

-- Whatever arrays the game hands over, null pointers, empty strings and repeated keys included, the
-- map that is kept has at most 16 entries, keys of at most 64 bytes, values of at most 512, and no
-- key twice.
pub clamp_user_metadata-IsClamped :
    (keys values : Option (List (Option Bytes))) → IsClamped (clamp_user_metadata keys values)
unfolding clamp_user_metadata
clamp_user_metadata-IsClamped none values = empty-IsClamped
clamp_user_metadata-IsClamped (some ks) none = empty-IsClamped
clamp_user_metadata-IsClamped (some ks) (some vs) = clamp_loop-IsClamped ks vs [] empty-IsClamped
