-- ===== src/Json/Scan/Named.antt =====
-- Statements of a builder that the scan for a key passes over.
use tombstack_native.Prelude.{
  ℕ, zero, suc, ◌^◌, ◌<◌, ◌≡◌, refl, ◌∙◌, ◌≢◌, inl, inr, Bool, true, false, not, ◌&&◌, some, List,
  [], ◌∷◌, ◌++◌, map, arith, leb, ◌==◌, if◌then◌else◌, Bool-cases, &&-eq-true, length, is_empty,
  drop, All, All-append, Bytes, str_eq, str_eq_iff, starts_with, if-holds,
}
use tombstack_native.Prelude.Int.{ℤ, pos_part, neg_part}
use tombstack_native.Prelude.Decimal.{int_text}
use tombstack_native.Json.Writer.{
  JsonWriter, statements, document, string_field, bool_field, int_field, number_field, number_text,
  replace_first, begin_object, begin_array, begin_element, end_object, end_array,
}
use tombstack_native.Json.Writer.Emits.{
  Fields, Op, Emits, EmitsItems, Emits-nothing, Emits-then, at, object_text, array_text, bool_text,
  string_text,
}
use tombstack_native.Json.Writer.Fields.{
  string_field-Emits, bool_field-Emits, int_field-Emits, number_field-Emits, object-Emits,
  array-Emits, element-EmitsItems, items-EmitsItems, document-text,
}
use tombstack_native.Json.Scan.{find_bool_field, find_string_field}
use tombstack_native.Json.Scan.Skip.{
  IsKey, KeyByte, Skips, NoQuote, string-Skips, bool-Skips, NoQuote-Skips,
}
use tombstack_native.Json.Scan.Members.{
  Passes, Finds, Finds-here, Finds-append, object-Skips, array-Skips, find_bool_field-Finds,
  find_string_field-Finds,
}
use tombstack_native.Json.Scan.Ints.{int_text-Skips, find_int_field, find_int_field-Finds}

key_byte : ℕ → Bool
key_byte c = leb 65 c && leb c 122 && not (c == b'\\') && not (c == b']')

all_key : Bytes → Bool
all_key [] = true
all_key (c ∷ cs) = key_byte c && all_key cs

-- A test that computes: the name is a key, and another one.
unfoldable pub is_other : Bytes → Bytes → Bool
unfolding all_key key_byte
is_other key name = all_key name && (not (is_empty name) && not (str_eq name key))

all_key-KeyByte : (name : Bytes) → all_key name ≡ true → All KeyByte name
unfolding all_key key_byte
all_key-KeyByte [] h = tt
all_key-KeyByte (c ∷ name) h = ground (arith, all_key-KeyByte name)

is_other-IsKey : (key name : Bytes) → is_other key name ≡ true → IsKey name
unfolding is_other
is_other-IsKey key [] h = absurd (ground arith)
is_other-IsKey key (c ∷ name) h =
    (all_key-KeyByte (c ∷ name) (&&-eq-true (all_key (c ∷ name)) _ h).0, omega arith)

is_other-ne : (key name : Bytes) → is_other key name ≡ true → name ≢ key
unfolding is_other
is_other-ne key name h e = ground (arith, str_eq_iff name key)

drop-NoQuote : (n : ℕ) (text : Bytes) → NoQuote text → NoQuote (drop n text)
drop-NoQuote zero text h = h
drop-NoQuote (suc n) [] h = tt
drop-NoQuote (suc n) (c ∷ text) h = drop-NoQuote n text h.1

-- Each name is a key, and none is this one.
abbrev pub Others : Bytes → List Bytes → Type 0
Others key = All (λ name. is_other key name ≡ true)

abbrev pub all_others : Bytes → List Bytes → Bool
all_others key [] = true
all_others key (name ∷ names) = is_other key name && all_others key names

pub all_others-Others :
    (key : Bytes) (names : List Bytes) → all_others key names ≡ true → Others key names
all_others-Others key [] h = tt
all_others-Others key (name ∷ names) h =
    let both = &&-eq-true (is_other key name) (all_others key names) h in
    (both.0, all_others-Others key names both.1)

replace_first-NoQuote : (dp text : Bytes) → NoQuote text → NoQuote (replace_first dp text)
unfolding replace_first
replace_first-NoQuote dp [] h = tt
replace_first-NoQuote dp (c ∷ cs) h = elim (Bool-cases (starts_with dp (c ∷ cs))) [
  | inl e ↦ rw e (omega arith, drop-NoQuote (length dp) (c ∷ cs) h)
  | inr e ↦ rw e (h.0, replace_first-NoQuote dp cs h.1)
]

pub number_text-NoQuote : (dp printed : Bytes) → NoQuote printed → NoQuote (number_text dp printed)
unfolding number_text
number_text-NoQuote dp printed h = if-holds (NoQuote) _ (replace_first-NoQuote dp printed h) h

-- The statement appends members, and the scan for the key passes over each.
pub record Emitting (key : Bytes) (op : Op) : Type 0 where
  pub fields : Fields
  pub emits : Emits op fields
  pub passes : All (Passes key) fields

pub record EmittingItems (key : Bytes) (op : Op) : Type 0 where
  pub items : List Bytes
  pub emits_items : EmitsItems op items
  pub skips : All (Skips key) items

module _ (key : Bytes) (k : IsKey key) where
  one_member :
      (name value : Bytes) (op : Op)
      → is_other key name ≡ true
      → Emits op ((name, value) ∷ [])
      → Skips key value
      → Emitting key op
  one_member name value op h e s = record {
    fields = (name, value) ∷ [];
    emits = e;
    passes = ((is_other-IsKey key name h, is_other-ne key name h, s), tt);
  }

  pub string_field-Emitting :
      (name value : Bytes) → is_other key name ≡ true → Emitting key (string_field name value)
  string_field-Emitting name value h =
      one_member name (string_text value) _ h (string_field-Emits name value)
        (string-Skips key value k)

  pub bool_field-Emitting :
      (name : Bytes) (b : Bool) → is_other key name ≡ true → Emitting key (bool_field name b)
  bool_field-Emitting name b h =
      one_member name (bool_text b) _ h (bool_field-Emits name b) (bool-Skips key b)

  pub int_field-Emitting :
      (name : Bytes) (z : ℤ) → is_other key name ≡ true → Emitting key (int_field name z)
  int_field-Emitting name z h =
      one_member name (int_text z) _ h (int_field-Emits name z) (int_text-Skips key z)

  pub number_field-Emitting :
      (dp name printed : Bytes)
      → is_other key name ≡ true
      → NoQuote printed
      → Emitting key (number_field dp name printed)
  number_field-Emitting dp name printed h q =
      one_member name (number_text dp printed) _ h (number_field-Emits dp name printed)
        (NoQuote-Skips key (number_text dp printed) (number_text-NoQuote dp printed q))

  pub object-Emitting :
      (name : Bytes) (op : Op)
      → is_other key name ≡ true
      → Emitting key op
      → Emitting key (λ w. end_object (op (begin_object name w)))
  object-Emitting name op h e =
      one_member name (object_text e.fields) _ h (object-Emits name op e.fields e.emits)
        (object-Skips key e.fields k e.passes)

  pub array-Emitting :
      (name : Bytes) (op : Op)
      → is_other key name ≡ true
      → EmittingItems key op
      → Emitting key (λ w. end_array (op (begin_array name w)))
  array-Emitting name op h e =
      one_member name (array_text e.items) _ h (array-Emits name op e.items e.emits_items)
        (array-Skips key e.items e.skips)

  elements-Skips {ℓ} :
      {A : Type ℓ} (op : A → Op) (xs : List A) (h : (x : A) → Emitting key (op x))
      → All (Skips key) (map (λ x. object_text (h x).fields) xs)
  elements-Skips op [] h = tt
  elements-Skips op (x ∷ xs) h =
      (object-Skips key (h x).fields k (h x).passes, elements-Skips op xs h)

  pub elements-Emitting {ℓ} :
      {A : Type ℓ} (op : A → Op) (xs : List A)
      → ((x : A) → Emitting key (op x))
      → EmittingItems key (statements (map (λ x w. end_object (op x (begin_element w))) xs))
  elements-Emitting op xs h = record {
    items = map (λ x. object_text (h x).fields) xs;
    emits_items =
        items-EmitsItems (λ x w. end_object (op x (begin_element w)))
          (λ x. object_text (h x).fields) xs
          (λ x. element-EmitsItems (op x) (h x).fields (h x).emits);
    skips = elements-Skips op xs h;
  }

  pub skip-Emitting : Emitting key (λ w. w)
  skip-Emitting = record { fields = []; emits = Emits-nothing; passes = tt }

  pub then-Emitting : (f g : Op) → Emitting key f → Emitting key g → Emitting key (λ w. g (f w))
  then-Emitting f g p q = record {
    fields = p.fields ++ q.fields;
    emits = Emits-then f g p.fields q.fields p.emits q.emits;
    passes = All-append (Passes key) p.fields q.fields p.passes q.passes;
  }

  pub if-Emitting :
      (b : Bool) (op : Op)
      → (b ≡ true → Emitting key op)
      → Emitting key (λ w. if b then op w else w)
  if-Emitting true op h = h refl
  if-Emitting false op h = skip-Emitting

  pub unless-Emitting :
      (b : Bool) (op : Op) → Emitting key op → Emitting key (λ w. if not b then w else op w)
  unless-Emitting true op h = h
  unless-Emitting false op h = skip-Emitting

  pub statements-Emitting : (ops : List Op) → All (Emitting key) ops → Emitting key (statements ops)
  unfolding statements
  statements-Emitting [] h = skip-Emitting
  statements-Emitting (op ∷ ops) h =
      then-Emitting op (statements ops) h.0 (statements-Emitting ops h.1)

statements-append :
    (pre post : List Op) (w : JsonWriter)
    → statements (pre ++ post) w ≡ statements post (statements pre w)
unfolding statements
statements-append [] post w = refl
statements-append (op ∷ pre) post w = statements-append pre post (op w)

statements-Emits_around :
    (pre post : List Op) (op : Op) (fs gs hs : Fields)
    → Emits (statements pre) fs
    → Emits op gs
    → Emits (statements post) hs
    → Emits (statements (pre ++ (op ∷ post))) (fs ++ (gs ++ hs))
unfolding statements
statements-Emits_around pre post op fs gs hs p q r o b scopes =
    statements-append pre (op ∷ post) (at o b scopes)
    ∙ Emits-then (statements pre) (λ w. statements post (op w)) fs (gs ++ hs) p
        (Emits-then op (statements post) gs hs q r) o b scopes

-- A document with a statement that appends this one member, behind and in front of others that the
-- scan passes over.
pub record Holds (key value : Bytes) (ops : List Op) : Type 0 where
  pub members : Fields
  pub text : document ops ≡ object_text members
  pub finds : Finds key value members

pub Holds-around :
    (key value : Bytes) (pre post : List Op) (op : Op)
    → Emitting key (statements pre)
    → Emits op ((key, value) ∷ [])
    → Emitting key (statements post)
    → Holds key value (pre ++ (op ∷ post))
Holds-around key value pre post op p e q = record {
  members = p.fields ++ ((key, value) ∷ q.fields);
  text =
      document-text (pre ++ (op ∷ post)) _ (
        statements-Emits_around pre post op p.fields ((key, value) ∷ []) q.fields p.emits e
          q.emits);
  finds = Finds-append p.fields p.passes (Finds-here key value q.fields);
}

pub find_bool_field-Holds :
    {key : Bytes} (b : Bool) (ops : List Op)
    → Holds key (bool_text b) ops
    → IsKey key
    → find_bool_field (document ops) key ≡ some b
find_bool_field-Holds b ops h k = rw h.text (find_bool_field-Finds b h.finds k)

pub find_string_field-Holds :
    {key v : Bytes} (ops : List Op)
    → Holds key (string_text v) ops
    → IsKey key
    → find_string_field (document ops) key ≡ some v
find_string_field-Holds ops h k = rw h.text (find_string_field-Finds h.finds k)

pub find_int_field-Holds :
    {key : Bytes} (z : ℤ) (ops : List Op)
    → Holds key (int_text z) ops
    → IsKey key
    → pos_part z < 10 ^ 18
    → neg_part z < 10 ^ 18
    → find_int_field (document ops) key ≡ some z
find_int_field-Holds z ops h k l m = rw h.text (find_int_field-Finds z h.finds k l m)
