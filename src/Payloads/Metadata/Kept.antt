-- ===== src/Payloads/Metadata/Kept.antt =====
-- A map within the limits passes `clamp_user_metadata` whole.
use tombstack_native.Prelude.{
  ◌≤◌, ◌≡◌, refl, sym, ◌∙◌, subst, ◌≢◌, inl, inr, false, Option, none, some, List, [], ◌∷◌, ◌++◌,
  map, append-nil, append_assoc, arith, leb, Bool-cases, length, All, length-append, Bytes, str_eq,
  str_eq_iff,
}
use tombstack_native.Json.Utf8.Bounds.{truncate_stays}
use tombstack_native.Json.Scan.{find_string_field}
use tombstack_native.Json.Scan.Skip.{IsKey}
use tombstack_native.Json.Scan.Members.{first}
use tombstack_native.Payloads.Limits
use tombstack_native.Payloads.Metadata.{
  UserMetadataEntries, update, clamp_entry, usable, clamp_loop, clamp_user_metadata,
  build_user_metadata_json,
}
use tombstack_native.Payloads.Metadata.Text.{find-metadata}
use tombstack_native.Payloads.Metadata.Clamp.{Distinct}

-- the arrays of a game that hands over this map
abbrev pub keys_of : UserMetadataEntries → List (Option Bytes)
keys_of = map (λ e. some e.0)

abbrev pub values_of : UserMetadataEntries → List (Option Bytes)
values_of = map (λ e. some e.1)

abbrev names : UserMetadataEntries → List Bytes
names = map (λ e. e.0)

-- few entries, short keys and values, none empty, no key twice
pub record IsWithin (entries : UserMetadataEntries) : Type 0 where
  pub few : length entries ≤ 16
  pub filled : All (λ (e : Bytes × Bytes). (1 ≤ length e.0) × (1 ≤ length e.1)) entries
  pub short : All (λ (e : Bytes × Bytes). (length e.0 ≤ 64) × (length e.1 ≤ 512)) entries
  pub distinct : Distinct (names entries)

named-All :
    (P : Bytes → Type 0) (out : UserMetadataEntries) (k v : Bytes) (rest : UserMetadataEntries)
    → All P (names (out ++ (k, v) ∷ rest))
    → P k
named-All P [] k v rest h = h.0
named-All P (e ∷ out) k v rest h = named-All P out k v rest h.1

update-fresh :
    (out : UserMetadataEntries) (k v : Bytes) (rest : UserMetadataEntries)
    → Distinct (names (out ++ (k, v) ∷ rest))
    → update k v out ≡ none
unfolding update
update-fresh [] k v rest h = refl
update-fresh ((j, u) ∷ out) k v rest h =
    let other : k ≢ j = named-All (λ i. i ≢ j) out k v rest h.0 in
    elim (Bool-cases (str_eq j k)) [
      | inl e ↦ absurd (other (sym ((str_eq_iff j k).0 e)))
      | inr e ↦ rw e (rw (update-fresh out k v rest h.1) refl)
    ]

usable-filled :
    (k v : Bytes)
    → 1 ≤ length k
    → 1 ≤ length v
    → length k ≤ 64
    → length v ≤ 512
    → usable (some k) (some v) ≡ some (k, v)
unfolding usable
usable-filled [] v a b c e = absurd (omega (arith, a))
usable-filled (x ∷ k) [] a b c e = absurd (omega (arith, b))
usable-filled (x ∷ k) (y ∷ v) a b c e =
    rw
      (
        truncate_stays (x ∷ k) Limits.user_metadata_key c,
        truncate_stays (y ∷ v) Limits.user_metadata_value e,
      )
      refl

entry-fresh :
    (out : UserMetadataEntries) (k v : Bytes) (rest : UserMetadataEntries)
    → Distinct (names (out ++ (k, v) ∷ rest))
    → length (out ++ (k, v) ∷ rest) ≤ 16
    → clamp_entry k v out ≡ some (out ++ (k, v) ∷ [])
unfolding clamp_entry
entry-fresh out k v rest h l =
    let room : leb Limits.user_metadata_keys (length out) ≡ false =
      ground (arith, l, length-append out ((k, v) ∷ rest)) in
    rw (update-fresh out k v rest h, clamp_entry) (rw room refl)

clamp_loop-IsWithin :
    (entries out : UserMetadataEntries)
    → length (out ++ entries) ≤ 16
    → All (λ (e : Bytes × Bytes). (1 ≤ length e.0) × (1 ≤ length e.1)) entries
    → All (λ (e : Bytes × Bytes). (length e.0 ≤ 64) × (length e.1 ≤ 512)) entries
    → Distinct (names (out ++ entries))
    → clamp_loop (keys_of entries) (values_of entries) out ≡ out ++ entries
unfolding clamp_loop
clamp_loop-IsWithin [] out l f s h = sym (append-nil out)
clamp_loop-IsWithin ((k, v) ∷ entries) out l f s h =
    let moved = append_assoc out ((k, v) ∷ []) entries in
    rw (usable-filled k v f.0.0 f.0.1 s.0.0 s.0.1, clamp_loop)
      (rw (entry-fresh out k v entries h l) (
        clamp_loop-IsWithin entries (out ++ (k, v) ∷ [])
          (subst (λ es. length es ≤ 16) (sym moved) l) f.1 s.1
          (subst (λ es. Distinct (names es)) (sym moved) h)
        ∙ moved))

-- A map of at most 16 entries whose keys are at most 64 bytes and whose values are at most 512, none
-- empty and no key twice, where every key is made of the bytes from `A` to `z` but the backslash and
-- `]`: the JSON of the clamped map has every key that the game handed over, with its value.
pub find-clamp_user_metadata :
    (key value : Bytes) (entries : UserMetadataEntries)
    → IsWithin entries
    → IsKey key
    → All (λ (e : Bytes × Bytes). IsKey e.0) entries
    → first key entries ≡ some value
    → find_string_field
        (build_user_metadata_json
          (clamp_user_metadata (some (keys_of entries)) (some (values_of entries))))
        key
      ≡ some value
unfolding clamp_user_metadata
find-clamp_user_metadata key value entries h k ks e =
    rw (clamp_loop-IsWithin entries [] h.few h.filled h.short h.distinct)
      (find-metadata key value entries h.short k ks e)
