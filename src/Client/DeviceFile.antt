-- ===== src/Client/DeviceFile.antt =====
-- `acquire_device_identity` of src/client.cpp with what it calls: the file `identity` of the data
-- directory, which keeps the id of the device from launch to launch.
use tombstack_native.Prelude.{
  take_else, take_then, ℕ, ◌≡◌, refl, ap, ◌∙◌, ◌⊎◌, inl, inr, Bool, true, false, ◌&&◌, ◌||◌, Option,
  none, some, [], ◌∷◌, arith, ◌==◌, if◌then◌else◌, Bool-cases, &&-eq-true, is_empty, Bytes,
  if-holds,
}
use tombstack_native.DeviceIdentity.{derive, is_valid, is_id_char, all_id_chars}
use tombstack_native.DeviceIdentity.Valid.{derive-is_valid, derive-all_id_chars}

-- The file, if there is one, and whether the data directory is usable and the streams open.
pub record IdentityFile : Type 0 where
  pub content : Option Bytes
  pub available : Bool
  pub reads : Bool
  pub writes : Bool

-- `std::getline`
pub first_line : Bytes → Bytes
first_line [] = []
first_line (c ∷ cs) = let rest = first_line cs in if c == 10 then [] else c ∷ rest

is_trailing : ℕ → Bool
is_trailing c = c == 13 || c == 10 || c == b' '

keep_end : ℕ → Bytes → Bytes
unfolding is_trailing
keep_end c [] = if is_trailing c then [] else c ∷ []
keep_end c (e ∷ kept) = c ∷ e ∷ kept

pub trim_end : Bytes → Bytes
unfolding keep_end
trim_end [] = []
trim_end (c ∷ cs) = keep_end c (trim_end cs)

-- the id in the text of a file, or nothing
pub valid_or_empty : Bytes → Bytes
valid_or_empty id = if is_valid id then id else []

pub read_content : Option Bytes → Bytes
read_content none = []
read_content (some text) = valid_or_empty (trim_end (first_line text))

unfoldable pub read_persisted_identity : IdentityFile → Bytes
read_persisted_identity f = if f.available && f.reads then read_content f.content else []

unfoldable pub persist_identity : Bytes → IdentityFile → IdentityFile
persist_identity id f = record f {
  content = if f.available && f.writes then some id else f.content;
}

-- What `read_machine_id` and, where that is empty, `random_session_id` answer.
pub record Machine : Type 0 where
  pub machine_id : Bytes
  pub random : Bytes

abbrev source_of : Machine → Bytes
source_of machine = if is_empty machine.machine_id then machine.random else machine.machine_id

abbrev fresh_id : Bytes → Machine → Bytes
fresh_id token machine = derive token (source_of machine)

unfoldable pub acquire_device_identity : Bytes → Machine → IdentityFile → Bytes × IdentityFile
unfolding read_persisted_identity persist_identity read_content valid_or_empty first_line trim_end
acquire_device_identity token machine f =
    let stored = read_persisted_identity f in
    if is_empty stored
    then (fresh_id token machine, persist_identity (fresh_id token machine) f)
    else (stored, f)

-- what a valid id is made of stays
id_char-keeps : (c : ℕ) → is_id_char c ≡ true → ((c == 10) ≡ false) × (is_trailing c ≡ false)
unfolding is_id_char is_trailing
id_char-keeps c h = (ground arith, ground arith)

first_line_stays : (s : Bytes) → all_id_chars s ≡ true → first_line s ≡ s
unfolding first_line all_id_chars
first_line_stays [] h = refl
first_line_stays (c ∷ s) h =
    let both = &&-eq-true (is_id_char c) (all_id_chars s) h in
    rw ((id_char-keeps c both.0).0, first_line_stays s both.1) refl

trim_end_stays : (s : Bytes) → all_id_chars s ≡ true → trim_end s ≡ s
unfolding trim_end all_id_chars
trim_end_stays [] h = refl
trim_end_stays (c ∷ []) h = rw (id_char-keeps c (&&-eq-true (is_id_char c) true h).0).1 refl
trim_end_stays (c ∷ e ∷ s) h = rw (trim_end_stays (e ∷ s) (&&-eq-true (is_id_char c) _ h).1) refl

valid_or_empty_cases :
    (id : Bytes) → (valid_or_empty id ≡ []) ⊎ (is_valid (valid_or_empty id) ≡ true)
unfolding valid_or_empty
valid_or_empty_cases id = elim (Bool-cases (is_valid id)) [
  | inl e ↦ inr (rw e e)
  | inr e ↦ inl (rw e refl)
]

abbrev IsNoneOrValid : Bytes → Type 0
IsNoneOrValid id = (id ≡ []) ⊎ (is_valid id ≡ true)

content_cases : (content : Option Bytes) → IsNoneOrValid (read_content content)
unfolding read_content
content_cases none = inl refl
content_cases (some text) = valid_or_empty_cases (trim_end (first_line text))

stored_cases : (f : IdentityFile) → IsNoneOrValid (read_persisted_identity f)
unfolding read_persisted_identity
stored_cases f =
    if-holds IsNoneOrValid (f.available && f.reads) {y = []} (content_cases f.content) (inl refl)

stored-acquire :
    (token : Bytes) (machine : Machine) (f : IdentityFile)
    → is_empty (read_persisted_identity f) ≡ false
    → acquire_device_identity token machine f ≡ (read_persisted_identity f, f)
unfolding acquire_device_identity
stored-acquire token machine f h = take_else (is_empty (read_persisted_identity f)) _ _ h

fresh-acquire :
    (token : Bytes) (machine : Machine) (f : IdentityFile)
    → is_empty (read_persisted_identity f) ≡ true
    → acquire_device_identity token machine f
      ≡ (fresh_id token machine, persist_identity (fresh_id token machine) f)
unfolding acquire_device_identity
fresh-acquire token machine f h = take_then (is_empty (read_persisted_identity f)) _ _ h

-- The id of a launch is one that the wire accepts, whatever the file holds.
pub acquire_device_identity-is_valid :
    (token : Bytes) (machine : Machine) (f : IdentityFile)
    → is_valid (acquire_device_identity token machine f).0 ≡ true
acquire_device_identity-is_valid token machine f =
    elim (Bool-cases (is_empty (read_persisted_identity f))) [
      | inl e ↦ rw (fresh-acquire token machine f e) (derive-is_valid token _).0
      | inr e ↦
          rw (stored-acquire token machine f e)
            (elim (stored_cases f) [ inl k ↦ absurd (ground (arith, ap is_empty k)) | inr k ↦ k ])
    ]

read-persist :
    (token source : Bytes) (f : IdentityFile)
    → f.available ≡ true
    → f.reads ≡ true
    → f.writes ≡ true
    → read_persisted_identity (persist_identity (derive token source) f) ≡ derive token source
unfolding read_persisted_identity persist_identity read_content valid_or_empty
read-persist token source f a r w =
    let chars = (derive-all_id_chars token source).0 in
    rw
      (
        a,
        r,
        w,
        first_line_stays (derive token source) chars,
        trim_end_stays (derive token source) chars,
        (derive-is_valid token source).0,
      )
      refl

-- The device keeps its id: where the data directory can be read and written, a later launch has
-- the id of this one and leaves the file alone, although the token, the machine's id and the random
-- source are others by then.
pub acquire_device_identity_again :
    (token token' : Bytes) (machine machine' : Machine) (f : IdentityFile)
    → f.available ≡ true
    → f.reads ≡ true
    → f.writes ≡ true
    → acquire_device_identity token' machine' (acquire_device_identity token machine f).1
      ≡ acquire_device_identity token machine f
acquire_device_identity_again token token' machine machine' f a r w =
    elim (Bool-cases (is_empty (read_persisted_identity f))) [
      | inl e ↦
          let id = fresh_id token machine in
          let back = read-persist token (source_of machine) f a r w in
          rw (fresh-acquire token machine f e) (
            stored-acquire token' machine' (persist_identity id f)
              (ap is_empty back ∙ (derive-all_id_chars token (source_of machine)).1)
            ∙ ap (λ i. (i, persist_identity id f)) back)
      | inr e ↦ rw (stored-acquire token machine f e) (stored-acquire token' machine' f e)
    ]
