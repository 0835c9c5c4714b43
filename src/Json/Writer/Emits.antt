-- ===== src/Json/Writer/Emits.antt =====
-- What a run of the writer appends, as a list of members: each a name and the text of its value.
use tombstack_native.Prelude.{
  ◌≡◌, refl, Bool, true, false, not, ◌||◌, List, [], ◌∷◌, ◌++◌, append-nil, append_assoc,
  if◌then◌else◌, is_empty, Bytes, codes,
}
use tombstack_native.Json.Escape.{json_escape}
use tombstack_native.Json.Writer.{JsonWriter, statements}

abbrev pub Fields : Type 0
Fields = List (Bytes × Bytes)

abbrev pub field_text : Bytes → Bytes → Bytes
field_text name value = b'"' ∷ (json_escape name ++ (b'"' ∷ b':' ∷ value))

abbrev pub separator : Bool → Bytes
separator b = if b then b',' ∷ [] else []

-- Members with commas between them; the flag asks for one in front.
abbrev pub fields_text : Bool → Fields → Bytes
fields_text b [] = []
fields_text b ((name, value) ∷ fs) = separator b ++ (field_text name value ++ fields_text true fs)

abbrev pub object_text : Fields → Bytes
object_text fs = b'{' ∷ (fields_text false fs ++ (b'}' ∷ []))

abbrev pub items_text : Bool → List Bytes → Bytes
items_text b [] = []
items_text b (t ∷ ts) = separator b ++ (t ++ items_text true ts)

abbrev pub array_text : List Bytes → Bytes
array_text ts = b'[' ∷ (items_text false ts ++ (b']' ∷ []))

abbrev pub string_text : Bytes → Bytes
string_text v = b'"' ∷ (json_escape v ++ (b'"' ∷ []))

abbrev pub bool_text : Bool → Bytes
bool_text v = if v then codes "true" else codes "false"

abbrev pub Op : Type 0
Op = JsonWriter → JsonWriter

abbrev pub at : Bytes → Bool → List Bool → JsonWriter
at o b scopes = record { out = o; needs_comma = b ∷ scopes }

-- Inside a scope, the operation appends these members and leaves the scopes around it alone.
abbrev pub Emits : Op → Fields → Type 0
Emits op fs =
    (o : Bytes) (b : Bool) (scopes : List Bool)
    → op (at o b scopes) ≡ at (o ++ fields_text b fs) (b || not (is_empty fs)) scopes

abbrev pub EmitsItems : Op → List Bytes → Type 0
EmitsItems op ts =
    (o : Bytes) (b : Bool) (scopes : List Bool)
    → op (at o b scopes) ≡ at (o ++ items_text b ts) (b || not (is_empty ts)) scopes

abbrev pub flatten {ℓ} : {A : Type ℓ} → List (List A) → List A
flatten [] = []
flatten (xs ∷ xss) = xs ++ flatten xss

abbrev pub AllEmit : List Op → List Fields → Type 0
AllEmit [] [] = Unit
AllEmit [] (fs ∷ fss) = ⊥
AllEmit (op ∷ ops) [] = ⊥
AllEmit (op ∷ ops) (fs ∷ fss) = Emits op fs × AllEmit ops fss

fields_text-append :
    (b : Bool) (fs gs : Fields)
    → fields_text b (fs ++ gs) ≡ fields_text b fs ++ fields_text (b || not (is_empty fs)) gs
fields_text-append true [] gs = refl
fields_text-append false [] gs = refl
fields_text-append true ((n, v) ∷ fs) gs = simp (fields_text-append true fs gs, append_assoc)
fields_text-append false ((n, v) ∷ fs) gs = simp (fields_text-append true fs gs, append_assoc)

is_empty-append {ℓ} :
    {A : Type ℓ} (b : Bool) (fs gs : List A)
    → (b || not (is_empty (fs ++ gs))) ≡ ((b || not (is_empty fs)) || not (is_empty gs))
is_empty-append true fs gs = refl
is_empty-append false [] gs = refl
is_empty-append false (f ∷ fs) gs = refl

pub Emits-nothing : Emits (λ w. w) []
Emits-nothing o true scopes = rw append-nil
Emits-nothing o false scopes = rw append-nil

pub Emits-then :
    (f g : Op) (fs gs : Fields) → Emits f fs → Emits g gs → Emits (λ w. g (f w)) (fs ++ gs)
Emits-then f g fs gs p q o b scopes =
    rw (p o b scopes, q _ _ scopes, fields_text-append b fs gs, is_empty-append b fs gs)
      (rw append_assoc)

pub statements-Emits :
    (ops : List Op) (fss : List Fields) → AllEmit ops fss → Emits (statements ops) (flatten fss)
unfolding statements
statements-Emits [] [] h = Emits-nothing
statements-Emits [] (fs ∷ fss) h = absurd h
statements-Emits (op ∷ ops) [] h = absurd h
statements-Emits (op ∷ ops) (fs ∷ fss) h =
    Emits-then op (statements ops) fs (flatten fss) h.0 (statements-Emits ops fss h.1)
