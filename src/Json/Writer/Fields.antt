-- ===== src/Json/Writer/Fields.antt =====
-- Each operation of the writer as the members, or the items, that it appends.
use tombstack_native.Json.Writer.{statements}
use tombstack_native.Prelude.Decimal.{int_text}
use tombstack_native.Prelude.Int.{ℤ}
use tombstack_native.Json.Writer.{number_text}
use tombstack_native.Json.Writer.{number_field}
use tombstack_native.Json.Writer.{int_field}
use tombstack_native.Prelude.{
  ◌≡◌, ap, ◌∙◌, Bool, true, false, List, [], ◌∷◌, ◌++◌, map, append-nil, append_assoc, Bytes,
}
use tombstack_native.Json.Writer.{
  append, comma, mark, element_prefix, name_prefix, push_scope, pop_scope, begin_element,
  begin_object, begin_array, end_object, end_array, string_field, bool_field, raw_element,
  raw_field, document,
}
use tombstack_native.Json.Writer.Emits.{
  Fields, Op, Emits, EmitsItems, AllEmit, flatten, at, separator, field_text, object_text,
  array_text, string_text, bool_text, statements-Emits,
}

name_prefix-at :
    (name o : Bytes) (b : Bool) (scopes : List Bool)
    → name_prefix name (at o b scopes) ≡ at (o ++ (separator b ++ field_text name [])) true scopes
unfolding name_prefix element_prefix comma mark append
name_prefix-at name o true scopes = simp append_assoc
name_prefix-at name o false scopes = simp append-nil

-- A value appended behind a name is one member.
member-Emits :
    (name value : Bytes) → Emits (λ w. append value (name_prefix name w)) ((name, value) ∷ [])
unfolding append
member-Emits name value o true scopes =
    rw (name_prefix-at name o true scopes) (simp (append_assoc, append-nil))
member-Emits name value o false scopes =
    rw (name_prefix-at name o false scopes) (simp (append_assoc, append-nil))

pub string_field-Emits :
    (name value : Bytes) → Emits (string_field name value) ((name, string_text value) ∷ [])
unfolding string_field
string_field-Emits name value = member-Emits name (string_text value)

pub bool_field-Emits :
    (name : Bytes) (value : Bool) → Emits (bool_field name value) ((name, bool_text value) ∷ [])
unfolding bool_field
bool_field-Emits name value = member-Emits name (bool_text value)

pub raw_field-Emits : (name raw : Bytes) → Emits (raw_field name raw) ((name, raw) ∷ [])
unfolding raw_field
raw_field-Emits name raw = member-Emits name raw

pub number_field-Emits :
    (dp name printed : Bytes)
    → Emits (number_field dp name printed) ((name, number_text dp printed) ∷ [])
unfolding number_field
number_field-Emits dp name printed = member-Emits name (number_text dp printed)

pub int_field-Emits :
    (name : Bytes) (value : ℤ) → Emits (int_field name value) ((name, int_text value) ∷ [])
unfolding int_field
int_field-Emits name value = member-Emits name (int_text value)

pub raw_element-EmitsItems : (raw : Bytes) → EmitsItems (raw_element raw) (raw ∷ [])
unfolding raw_element element_prefix append comma mark
raw_element-EmitsItems raw o true scopes = simp (append_assoc, append-nil)
raw_element-EmitsItems raw o false scopes = simp append-nil

-- A nested object is one member, whatever its statements append.
pub object-Emits :
    (name : Bytes) (op : Op) (fs : Fields)
    → Emits op fs
    → Emits (λ w. end_object (op (begin_object name w))) ((name, object_text fs) ∷ [])
unfolding begin_object end_object push_scope pop_scope append
object-Emits name op fs e o true scopes =
    rw (e _ false (true ∷ scopes)) (simp (append_assoc, append-nil))
object-Emits name op fs e o false scopes =
    rw (e _ false (true ∷ scopes)) (simp (append_assoc, append-nil))

pub array-Emits :
    (name : Bytes) (op : Op) (ts : List Bytes)
    → EmitsItems op ts
    → Emits (λ w. end_array (op (begin_array name w))) ((name, array_text ts) ∷ [])
unfolding begin_array end_array push_scope pop_scope append
array-Emits name op ts e o true scopes =
    rw (e _ false (true ∷ scopes)) (simp (append_assoc, append-nil))
array-Emits name op ts e o false scopes =
    rw (e _ false (true ∷ scopes)) (simp (append_assoc, append-nil))

-- So is an object in an array one item.
pub element-EmitsItems :
    (op : Op) (fs : Fields)
    → Emits op fs
    → EmitsItems (λ w. end_object (op (begin_element w))) (object_text fs ∷ [])
unfolding begin_element end_object push_scope pop_scope append element_prefix comma mark
element-EmitsItems op fs e o true scopes =
    rw (e _ false (true ∷ scopes)) (simp (append_assoc, append-nil))
element-EmitsItems op fs e o false scopes =
    rw (e _ false (true ∷ scopes)) (simp (append_assoc, append-nil))

-- A loop that appends an item for each element appends their items, in order.
pub items-EmitsItems {ℓ} :
    {A : Type ℓ} (op : A → Op) (t : A → Bytes) (xs : List A)
    → ((x : A) → EmitsItems (op x) (t x ∷ []))
    → EmitsItems (statements (map op xs)) (map t xs)
unfolding statements
items-EmitsItems op t [] h o true scopes = simp append-nil
items-EmitsItems op t [] h o false scopes = simp append-nil
items-EmitsItems op t (x ∷ xs) h o true scopes =
    ap (statements (map op xs)) (h x o true scopes)
    ∙ items-EmitsItems op t xs h _ true scopes
    ∙ simp (append_assoc, append-nil)
items-EmitsItems op t (x ∷ xs) h o false scopes =
    ap (statements (map op xs)) (h x o false scopes)
    ∙ items-EmitsItems op t xs h _ true scopes
    ∙ simp (append_assoc, append-nil)

pub document-text :
    (ops : List Op) (fs : Fields) → Emits (statements ops) fs → document ops ≡ object_text fs
unfolding document begin_element end_object push_scope pop_scope append element_prefix comma mark
document-text ops fs h = rw (h _ false [])

-- A document whose statements append these members is the text of the object of all the members,
-- in order, with a comma between each two and none elsewhere.
pub document-Emits :
    (ops : List Op) (fss : List Fields) → AllEmit ops fss → document ops ≡ object_text (flatten fss)
document-Emits ops fss h = document-text ops (flatten fss) (statements-Emits ops fss h)
