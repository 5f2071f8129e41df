-- ===== src/Proto/Json.antt =====
-- The JSON library (jansson) that src/proto/proto_ta.c calls: its operations as a record, and the
-- documented behaviour that the proofs rely on. A pointer to a JSON value that is NULL is `none`.
-- Objects are changed in place there, and are values here: each belongs to one holder.
pub mod Tree
use tpaf.Prelude.{◌≡◌, Bool, true, false, Option, none, some, List, [], ◌∷◌, ◌++◌, if◌then◌else◌, ℕ}
use tpaf.Prelude.Int.{ℤ}
use tpaf.Clib.Str.{Str, str_eq}
use tpaf.Clib.Ftime.{Ftime}

pub record Json : Type 1 where
  pub Value : Type 0
  pub is_integer : Value → Bool
  pub is_number : Value → Bool
  pub is_string : Value → Bool
  pub is_array : Value → Bool
  pub is_object : Value → Bool
  pub integer_value : Value → ℤ
  pub number_value : Value → Ftime
  pub string_value : Value → Str
  -- What json_array_foreach and json_object_foreach go through.
  pub elements : Value → List Value
  pub entries : Value → List (Str × Value)
  pub object_get : Value → Str → Option Value
  pub object_size : Value → ℕ
  pub integer : ℤ → Value
  -- json_real(NAN) and json_string of what is no UTF-8 are NULL.
  pub real : Ftime → Option Value
  pub string : Str → Option Value
  pub array : Value
  pub object : Value
  pub array_append : Value → Value → Value
  pub object_set : Value → Str → Value → Value
  -- json_loadb, and json_dumps with no flags.
  pub loadb : Str → Option Value
  pub dumps : Value → Str

-- An association list with the value of a key replaced, or put at the end: objects keep the order in
-- which their keys came.
abbrev pub set_entry {ℓ} : {V : Type ℓ} → List (Str × V) → Str → V → List (Str × V)
set_entry [] key value = (key, value) ∷ []
set_entry ((k, v) ∷ entries) key value =
    if str_eq k key then (k, value) ∷ entries else (k, v) ∷ set_entry entries key value

-- The value of a key, of which there is one at most.
abbrev pub get_entry {ℓ} : {V : Type ℓ} → List (Str × V) → Str → Option V
get_entry [] key = none
get_entry ((k, v) ∷ entries) key = if str_eq k key then some v else get_entry entries key

-- What the documentation of the library says of these operations, for keys and texts that are UTF-8: the
-- library puts no other key into an object.
pub record IsLawful (J : Json) : Type 0 where
  pub is_integer-integer : (z : ℤ) → J.is_integer (J.integer z) ≡ true
  pub integer_value-integer : (z : ℤ) → J.integer_value (J.integer z) ≡ z
  pub is_string-string : (s : Str) (v : J.Value) → J.string s ≡ some v → J.is_string v ≡ true
  pub string_value-string : (s : Str) (v : J.Value) → J.string s ≡ some v → J.string_value v ≡ s
  pub string_not_integer : (s : Str) (v : J.Value) → J.string s ≡ some v → J.is_integer v ≡ false
  pub is_number-real : (t : Ftime) (v : J.Value) → J.real t ≡ some v → J.is_number v ≡ true
  pub number_value-real : (t : Ftime) (v : J.Value) → J.real t ≡ some v → J.number_value v ≡ t
  pub is_array-array : J.is_array J.array ≡ true
  pub elements-array : J.elements J.array ≡ []
  pub is_array-append :
      (a v : J.Value) → J.is_array a ≡ true → J.is_array (J.array_append a v) ≡ true
  pub elements-append :
      (a v : J.Value)
      → J.is_array a ≡ true
      → J.elements (J.array_append a v) ≡ J.elements a ++ v ∷ []
  pub is_object-object : J.is_object J.object ≡ true
  pub entries-object : J.entries J.object ≡ []
  pub is_object-set :
      (o : J.Value) (k : Str) (v : J.Value)
      → J.is_object o ≡ true
      → J.is_object (J.object_set o k v) ≡ true
  pub entries-set :
      (o : J.Value) (k : Str) (v : J.Value)
      → J.is_object o ≡ true
      → J.entries (J.object_set o k v) ≡ set_entry (J.entries o) k v
  pub get-entries :
      (o : J.Value) (k : Str) → J.is_object o ≡ true → J.object_get o k ≡ get_entry (J.entries o) k
