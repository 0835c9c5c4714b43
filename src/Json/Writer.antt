-- ===== src/Json/Writer.antt =====
-- `JsonWriter` of src/json_writer.cpp. The stack `needs_comma_` has its back at the head of the list.
pub mod Emits
pub mod Fields
use tombstack_native.Prelude.{
  Bool, true, false, not, ◌&&◌, List, [], ◌∷◌, ◌++◌, if◌then◌else◌, length, is_empty, drop,
  pop_front, Bytes, codes, str_eq, starts_with,
}
use tombstack_native.Prelude.Decimal.{int_text}
use tombstack_native.Prelude.Int.{ℤ}
use tombstack_native.Json.Escape.{json_escape}

pub record JsonWriter : Type 0 where
  pub out : Bytes
  pub needs_comma : List Bool

abbrev pub new_writer : JsonWriter
new_writer = record { out = []; needs_comma = [] }

append : Bytes → JsonWriter → JsonWriter
append text w = record w { out = w.out ++ text }

-- the comma that the innermost scope asks for
comma : List Bool → Bytes
comma [] = []
comma (b ∷ scopes) = if b then b',' ∷ [] else []

mark : List Bool → List Bool
mark [] = []
mark (b ∷ scopes) = true ∷ scopes

element_prefix : JsonWriter → JsonWriter
element_prefix w = record w { out = w.out ++ comma w.needs_comma; needs_comma = mark w.needs_comma }

name_prefix : Bytes → JsonWriter → JsonWriter
name_prefix name w = append (b'"' ∷ (json_escape name ++ (b'"' ∷ b':' ∷ []))) (element_prefix w)

push_scope : JsonWriter → JsonWriter
push_scope w = record w { needs_comma = false ∷ w.needs_comma }

-- `pop_scope`, which leaves an empty stack empty
pop_scope : JsonWriter → JsonWriter
pop_scope w = record w { needs_comma = pop_front w.needs_comma }

-- `begin_object()`, and below `begin_object(name)`
unfoldable pub begin_element : JsonWriter → JsonWriter
unfolding append name_prefix element_prefix comma mark push_scope pop_scope
begin_element w = push_scope (append (b'{' ∷ []) (element_prefix w))

unfoldable pub begin_object : Bytes → JsonWriter → JsonWriter
unfolding append name_prefix element_prefix comma mark push_scope pop_scope
begin_object name w = push_scope (append (b'{' ∷ []) (name_prefix name w))

unfoldable pub begin_array : Bytes → JsonWriter → JsonWriter
unfolding append name_prefix element_prefix comma mark push_scope pop_scope
begin_array name w = push_scope (append (b'[' ∷ []) (name_prefix name w))

unfoldable pub end_object : JsonWriter → JsonWriter
unfolding append name_prefix element_prefix comma mark push_scope pop_scope
end_object w = pop_scope (append (b'}' ∷ []) w)

unfoldable pub end_array : JsonWriter → JsonWriter
unfolding append name_prefix element_prefix comma mark push_scope pop_scope
end_array w = pop_scope (append (b']' ∷ []) w)

unfoldable pub string_field : Bytes → Bytes → JsonWriter → JsonWriter
unfolding append name_prefix element_prefix comma mark push_scope pop_scope
string_field name value w = append (b'"' ∷ (json_escape value ++ (b'"' ∷ []))) (name_prefix name w)

unfoldable pub bool_field : Bytes → Bool → JsonWriter → JsonWriter
unfolding append name_prefix element_prefix comma mark push_scope pop_scope
bool_field name value w =
    append (if value then codes "true" else codes "false") (name_prefix name w)

-- The first `dp` of the text gives way to a point.
unfoldable pub replace_first : Bytes → Bytes → Bytes
unfolding starts_with
replace_first dp [] = []
replace_first dp (c ∷ cs) =
    if starts_with dp (c ∷ cs) then b'.' ∷ drop (length dp) (c ∷ cs) else c ∷ replace_first dp cs

-- What `number_field` appends where `snprintf` printed this text under a locale with this decimal
-- point; a null pointer is the empty one.
unfoldable pub number_text : Bytes → Bytes → Bytes
unfolding replace_first
number_text dp printed =
    if not (is_empty printed) && not (is_empty dp) && not (str_eq dp (codes "."))
    then replace_first dp printed
    else printed

unfoldable pub number_field : Bytes → Bytes → Bytes → JsonWriter → JsonWriter
unfolding append name_prefix element_prefix comma mark push_scope pop_scope number_text
number_field dp name printed w = append (number_text dp printed) (name_prefix name w)

unfoldable pub int_field : Bytes → ℤ → JsonWriter → JsonWriter
unfolding append name_prefix element_prefix comma mark push_scope pop_scope
int_field name value w = append (int_text value) (name_prefix name w)

unfoldable pub raw_element : Bytes → JsonWriter → JsonWriter
unfolding append name_prefix element_prefix comma mark push_scope pop_scope
raw_element raw w = append raw (element_prefix w)

unfoldable pub raw_field : Bytes → Bytes → JsonWriter → JsonWriter
unfolding append name_prefix element_prefix comma mark push_scope pop_scope
raw_field name raw w = append raw (name_prefix name w)

-- the statements of a builder, in order
unfoldable pub statements : List (JsonWriter → JsonWriter) → JsonWriter → JsonWriter
statements [] w = w
statements (op ∷ ops) w = statements ops (op w)

-- the document of a builder: its statements between the braces of the root object
unfoldable pub document : List (JsonWriter → JsonWriter) → Bytes
unfolding statements begin_element end_object
document ops = (end_object (statements ops (begin_element new_writer))).out
