-- ===== src/Sampler.antt =====
-- src/sampler.h and src/sampler.cpp: the keep-rate of each name. What the C++ library does with a
-- `double` is a parameter, and the uniform roll is an argument.
pub mod Percents
mod Tests
use tombstack_native.Prelude.{
  take_else, take_then, ℕ, zero, suc, ◌+◌, ◌-◌, ◌*◌, ◌/◌, ◌%◌, ◌^◌, ◌≤◌, ◌<◌, min, max, ◌≡◌, refl,
  sym, ap, ◌∙◌, subst, ◌≢◌, ◌↔◌, ◌⊎◌, inl, inr, Bool, true, false, not, ◌&&◌, ◌||◌, Option, none,
  some, List, [], ◌∷◌, ◌++◌, map, append-nil, append_assoc, arith, ltb, leb, ◌==◌, if◌then◌else◌,
  ltb→lt, lt→ltb, leb→le, ltb_refuted, leb_refuted, ==_iff, tests, Bool-cases, Option-cases,
  value_or, &&-eq-true, length, is_empty, get_elem?, set, get_or, take, drop, replicate, pop_front,
  All, length-append, length-set, length-replicate, length-take, length-drop, length-map,
  take-append-drop, take-length-append, drop-length-append, All-append, All-append_left,
  All-append_right, Bytes, codes, str_eq, str_eq_iff, str_eq_refl, starts_with, ◌&◌, if-ap_else,
  if-holds, if-cases,
}
use tombstack_native.Prelude.Assoc.{
  lookup, insert, length-insert_new, length-insert_old, lookup-insert,
}

-- The comparisons `<` and `<=` of a `double`, where one with a NaN is false, and the constants 0.0
-- and 1.0. The laws are those of IEEE 754.
pub record Rates {ℓ} (F : Type ℓ) : Type ℓ where
  pub zero_rate : F
  pub one_rate : F
  pub is_less : F → F → Bool
  pub is_at_most : F → F → Bool
  pub less_at_most : (x y : F) → is_less x y ≡ true → is_at_most x y ≡ true
  pub at_most_trans :
      (x y z : F) → is_at_most x y ≡ true → is_at_most y z ≡ true → is_at_most x z ≡ true
  pub zero_at_most : is_at_most zero_rate zero_rate ≡ true
  pub one_at_most : is_at_most one_rate one_rate ≡ true
  pub one_above : is_at_most one_rate zero_rate ≡ false

pub record Sampler {ℓ} (F : Type ℓ) : Type ℓ where
  pub rates : List (Bytes × F)

abbrev pub max_entries : ℕ
max_entries = 256

abbrev pub new_sampler {ℓ} : {F : Type ℓ} → Sampler F
new_sampler = record { rates = [] }

not_full {ℓ} :
    {A : Type ℓ} (n : ℕ) (items : List A)
    → length items + suc n ≤ max_entries
    → leb max_entries (length items) ≡ false
not_full n items room = ground (arith, room)

module _ {ℓ} {F : Type ℓ} (real : Rates F) where
  -- `std::clamp(rate, 0.0, 1.0)`
  unfoldable pub clamp_rate : F → F
  clamp_rate rate =
      if real.is_less rate real.zero_rate
      then real.zero_rate
      else if real.is_less real.one_rate rate
      then real.one_rate
      else rate

  abbrev assign : Bytes → F → Sampler F → Sampler F
  assign name rate s = record { rates = insert name (clamp_rate rate) s.rates }

  unfoldable pub set_rate : Bytes → F → Sampler F → Sampler F
  set_rate name rate s = if is_empty name then s else elim (lookup name s.rates) [
    | some old ↦ assign name rate s
    | none ↦ if leb max_entries (length s.rates) then s else assign name rate s
  ]

  -- `should_keep` behind the lookup, `keep` included
  abbrev pub keeps : Option F → F → Bool
  keeps none roll = true
  keeps (some rate) roll =
      if real.is_at_most real.one_rate rate
      then true
      else if real.is_at_most rate real.zero_rate
      then false
      else real.is_less roll rate

  unfoldable pub should_keep : Bytes → F → Sampler F → Bool
  should_keep name roll s = keeps (lookup name s.rates) roll

  pub set_rates : List (Bytes × F) → Sampler F → Sampler F
  set_rates [] s = s
  set_rates ((name, rate) ∷ calls) s = set_rates calls (set_rate name rate s)

  -- the rate that the last call for this name gives, clamped; calls with an empty name give none
  pub last_rate : Bytes → List (Bytes × F) → Option F → Option F
  last_rate name [] rate = rate
  last_rate name ((other, rate) ∷ calls) old =
      last_rate name calls
        (if is_empty other then old else if str_eq other name then some (clamp_rate rate) else old)

  -- a name that is not empty, where there is room
  stored_lem :
      (name other : Bytes) (rate : F) (s : Sampler F) (n : ℕ) (found : Option F)
      → lookup other s.rates ≡ found
      → length s.rates + suc n ≤ max_entries
      → is_empty other ≡ false
      → (lookup name (set_rate other rate s).rates
          ≡ (if str_eq other name then some (clamp_rate rate) else lookup name s.rates))
        × (length (set_rate other rate s).rates + n ≤ max_entries)
  unfolding set_rate
  stored_lem name other rate s n (some old) e room h =
      rw (h, e)
        (
          lookup-insert other name (clamp_rate rate) s.rates,
          omega (arith, room, length-insert_old other (clamp_rate rate) s.rates e),
        )
  stored_lem name other rate s n none e room h =
      rw (h, e, not_full n s.rates room)
        (
          lookup-insert other name (clamp_rate rate) s.rates,
          omega (arith, room, length-insert_new other (clamp_rate rate) s.rates e),
        )

  set_rate_empty :
      (name : Bytes) (rate : F) (s : Sampler F) → is_empty name ≡ true → set_rate name rate s ≡ s
  unfolding set_rate
  set_rate_empty name rate s e = rw e refl

  set_rate-lem :
      (name other : Bytes) (rate : F) (s : Sampler F) (n : ℕ)
      → length s.rates + suc n ≤ max_entries
      → (lookup name (set_rate other rate s).rates ≡ (
          if is_empty other
          then lookup name s.rates
          else if str_eq other name
          then some (clamp_rate rate)
          else lookup name s.rates))
        × (length (set_rate other rate s).rates + n ≤ max_entries)
  set_rate-lem name other rate s n room = elim (Bool-cases (is_empty other)) [
    | inl e ↦ rw (set_rate_empty other rate s e, e) (refl, omega (arith, room))
    | inr e ↦ rw e (stored_lem name other rate s n (lookup other s.rates) refl room e)
  ]

  set_rates-lem :
      (name : Bytes) (calls : List (Bytes × F)) (s : Sampler F)
      → length s.rates + length calls ≤ max_entries
      → lookup name (set_rates calls s).rates ≡ last_rate name calls (lookup name s.rates)
  unfolding set_rates last_rate
  set_rates-lem name [] s room = refl
  set_rates-lem name ((other, rate) ∷ calls) s room =
      let (shows, left) = set_rate-lem name other rate s (length calls) room in
      set_rates-lem name calls (set_rate other rate s) left ∙ ap (last_rate name calls) shows

  -- what a rate as it was given decides
  below_zero :
      (rate : F)
      → real.is_less rate real.zero_rate ≡ true
      → real.is_at_most real.one_rate rate ≡ false
  below_zero rate h = elim (Bool-cases (real.is_at_most real.one_rate rate)) [
    | inr e ↦ e
    | inl e ↦
        let above =
          real.at_most_trans real.one_rate rate real.zero_rate e
            (real.less_at_most rate real.zero_rate h) in
        absurd (ground (arith, real.one_above))
  ]

  keeps-clamp_rate :
      (rate roll : F)
      → keeps (some (clamp_rate rate)) roll ≡ (
          if real.is_at_most real.one_rate rate
          then true
          else if real.is_at_most rate real.zero_rate
          then false
          else real.is_less roll rate)
  unfolding clamp_rate
  keeps-clamp_rate rate roll = elim (Bool-cases (real.is_less rate real.zero_rate)) [
    | inl e ↦
        rw
          (
            e,
            real.one_above,
            real.zero_at_most,
            below_zero rate e,
            real.less_at_most rate real.zero_rate e,
          )
          refl
    | inr e ↦ elim (Bool-cases (real.is_less real.one_rate rate)) [
      | inl k ↦ rw (e, k, real.one_at_most, real.less_at_most real.one_rate rate k) refl
      | inr k ↦ rw (e, k) refl
    ]
  ]

  -- the last rate, as it was given, of a name in these calls, where an empty name is passed over
  abbrev pub last_given : Bytes → List (Bytes × F) → Option F → Option F
  last_given name [] given = given
  last_given name ((other, rate) ∷ calls) given =
      last_given name calls
        (if is_empty other then given else if str_eq other name then some rate else given)

  abbrev clamp_option : Option F → Option F
  clamp_option none = none
  clamp_option (some rate) = some (clamp_rate rate)

  if-clamp :
      (a b : Bool) (rate : F) (given : Option F)
      → (if a then clamp_option given else if b then some (clamp_rate rate) else clamp_option given)
        ≡ clamp_option (if a then given else if b then some rate else given)
  if-clamp true b rate given = refl
  if-clamp false true rate given = refl
  if-clamp false false rate given = refl

  last_rate-given :
      (name : Bytes) (calls : List (Bytes × F)) (given : Option F)
      → last_rate name calls (clamp_option given) ≡ clamp_option (last_given name calls given)
  unfolding last_rate
  last_rate-given name [] given = refl
  last_rate-given name ((other, rate) ∷ calls) given =
      ap (last_rate name calls) (if-clamp (is_empty other) (str_eq other name) rate given)
      ∙ last_rate-given name calls _

  -- A sample whose name has this rate, as it was given, is kept or not: always from 1 up, never from 0
  -- down, by the roll between, and always without a rate.
  abbrev pub Decides : Option F → F → Bool → Type 0
  Decides none roll kept = kept ≡ true
  Decides (some rate) roll kept = kept ≡ (
      if real.is_at_most real.one_rate rate
      then true
      else if real.is_at_most rate real.zero_rate
      then false
      else real.is_less roll rate)

  keeps-Decides :
      (given : Option F) (roll : F) → Decides given roll (keeps (clamp_option given) roll)
  keeps-Decides none roll = refl
  keeps-Decides (some rate) roll = keeps-clamp_rate rate roll

-- After up to 256 calls of `set_rate` a sample is decided by the last rate that was given for its
-- name: it is kept always from 1 up, never from 0 down, and between them where the roll is below the
-- rate; without a rate it is kept.
pub should_keep-set_rates {ℓ} :
    {F : Type ℓ} (real : Rates F) (name : Bytes) (roll : F) (calls : List (Bytes × F))
    → length calls ≤ max_entries
    → Decides real
        (last_given real name calls none)
        roll
        (should_keep real name roll (set_rates real calls new_sampler))
unfolding should_keep lookup
should_keep-set_rates real name roll calls few =
    subst (Decides real (last_given real name calls none) roll)
      (sym (
        ap (λ rate. keeps real rate roll)
          (set_rates-lem real name calls new_sampler (omega (arith, few))
            ∙ last_rate-given real name calls none)))
      (keeps-Decides real (last_given real name calls none) roll)
