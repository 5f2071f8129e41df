-- ===== src/Proto/Json/Tree.antt =====
-- JSON values as trees: an instance of the operations of the JSON library that meets what is assumed
-- of it. Texts are not parsed here: `loadb` is given.
use tpaf.Prelude.{
  ◌≡◌, refl, Bool, true, false, Option, none, some, List, [], ◌∷◌, ◌++◌, if◌then◌else◌, length,
  arith,
}
use tpaf.Prelude.Int.{ℤ, pos}
use tpaf.Clib.Str.{Str, str_eq}
use tpaf.Clib.Ftime.{Ftime, at, nan, seconds}
use tpaf.Proto.Json.{Json, IsLawful, set_entry, get_entry}

mutual
  pub data Tree : Type 0 where
    integer : ℤ → Tree
    real : ℤ → Tree
    string : Str → Tree
    array : Trees → Tree
    object : Entries → Tree

  pub data Trees : Type 0 where
    nil : Trees
    cons : Tree → Trees → Trees

  pub data Entries : Type 0 where
    none_left : Entries
    entry : Str → Tree → Entries → Entries

abbrev items : Trees → List Tree
items nil = []
items (cons t ts) = t ∷ items ts

abbrev pairs : Entries → List (Str × Tree)
pairs none_left = []
pairs (entry k t es) = (k, t) ∷ pairs es

abbrev append_item : Trees → Tree → Trees
append_item nil t = cons t nil
append_item (cons u ts) t = cons u (append_item ts t)

abbrev set_pair : Entries → Str → Tree → Entries
set_pair none_left key t = entry key t none_left
set_pair (entry k u es) key t = if str_eq k key then entry k t es else entry k u (set_pair es key t)

items-append : (ts : Trees) (t : Tree) → items (append_item ts t) ≡ items ts ++ t ∷ []
items-append nil t = refl
items-append (cons u ts) t = ground (arith, items-append ts t)

pairs-set : (es : Entries) (k : Str) (t : Tree) → pairs (set_pair es k t) ≡ set_entry (pairs es) k t
pairs-set none_left k t = refl
pairs-set (entry j u es) k t = ground (arith, pairs-set es k t)

abbrev as_integer : Tree → Option ℤ
as_integer (integer z) = some z
as_integer _ = none

abbrev as_number : Tree → Option Ftime
as_number (integer z) = some (at (seconds z))
as_number (real t) = some (at t)
as_number _ = none

abbrev as_string : Tree → Option Str
as_string (string s) = some s
as_string _ = none

abbrev as_array : Tree → Option (List Tree)
as_array (array ts) = some (items ts)
as_array _ = none

abbrev as_object : Tree → Option (List (Str × Tree))
as_object (object es) = some (pairs es)
as_object _ = none

abbrev is_some : {A : Type 0} → Option A → Bool
is_some none = false
is_some (some a) = true

abbrev or_else : {A : Type 0} → Option A → A → A
or_else none b = b
or_else (some a) b = a

abbrev real_of : Ftime → Option Tree
real_of nan = none
real_of (at t) = some (real t)

abbrev append_to : Tree → Tree → Tree
append_to (array ts) t = array (append_item ts t)
append_to u t = u

abbrev set_in : Tree → Str → Tree → Tree
set_in (object es) k t = object (set_pair es k t)
set_in u k t = u

number_of-real : (t : Ftime) (v : Tree) → real_of t ≡ some v → as_number v ≡ some t
number_of-real (at z) v e = ground arith
number_of-real nan v e = ground arith

is_array-append_to :
    (a t : Tree) → is_some (as_array a) ≡ true → is_some (as_array (append_to a t)) ≡ true
is_array-append_to (array ts) t h = refl
is_array-append_to a t h = ground arith

elements-append_to :
    (a t : Tree)
    → is_some (as_array a) ≡ true
    → or_else (as_array (append_to a t)) [] ≡ or_else (as_array a) [] ++ t ∷ []
elements-append_to (array ts) t h = items-append ts t
elements-append_to a t h = ground arith

is_object-set_in :
    (o : Tree) (k : Str) (t : Tree)
    → is_some (as_object o) ≡ true
    → is_some (as_object (set_in o k t)) ≡ true
is_object-set_in (object es) k t h = refl
is_object-set_in o k t h = ground arith

entries-set_in :
    (o : Tree) (k : Str) (t : Tree)
    → is_some (as_object o) ≡ true
    → or_else (as_object (set_in o k t)) [] ≡ set_entry (or_else (as_object o) []) k t
entries-set_in (object es) k t h = pairs-set es k t
entries-set_in o k t h = ground arith

abbrev pub tree_json : (Str → Option Tree) → Json
tree_json loadb = record {
  Value = Tree;
  is_integer = λ t. is_some (as_integer t);
  is_number = λ t. is_some (as_number t);
  is_string = λ t. is_some (as_string t);
  is_array = λ t. is_some (as_array t);
  is_object = λ t. is_some (as_object t);
  integer_value = λ t. or_else (as_integer t) (pos 0);
  number_value = λ t. or_else (as_number t) (at (pos 0));
  string_value = λ t. or_else (as_string t) [];
  elements = λ t. or_else (as_array t) [];
  entries = λ t. or_else (as_object t) [];
  object_get = λ t k. get_entry (or_else (as_object t) []) k;
  object_size = λ t. length (or_else (as_object t) []);
  integer = integer;
  real = real_of;
  string = λ s. some (string s);
  array = array nil;
  object = object none_left;
  array_append = append_to;
  object_set = set_in;
  loadb = loadb;
  dumps = λ t. [];
}

pub tree_json-IsLawful : (loadb : Str → Option Tree) → IsLawful (tree_json loadb)
tree_json-IsLawful loadb = record {
  is_integer-integer = λ z. refl;
  integer_value-integer = λ z. refl;
  is_string-string = λ s v e. ground arith;
  string_value-string = λ s v e. ground arith;
  string_not_integer = λ s v e. ground arith;
  is_number-real = λ t v e. ground (arith, number_of-real t v);
  number_value-real = λ t v e. ground (arith, number_of-real t v);
  is_array-array = refl;
  elements-array = refl;
  is_array-append = is_array-append_to;
  elements-append = elements-append_to;
  is_object-object = refl;
  entries-object = refl;
  is_object-set = is_object-set_in;
  entries-set = entries-set_in;
  get-entries = λ o k h. refl;
}
