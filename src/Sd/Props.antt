-- ===== src/Sd/Props.antt =====
-- src/sd/props.c: an ordered multi-map from names to values. The arrays `names` and `values` of
-- equal length `num` are one list of pairs.
pub mod Laws
use tpaf.Prelude.{
  ℕ, zero, suc, ◌+◌, ◌≡◌, refl, Bool, true, false, not, ◌&&◌, Option, none, some, List, [], ◌∷◌,
  ◌++◌, if◌then◌else◌, ◌==◌, ltb, length,
}
use tpaf.Prelude.Int.{ℤ}
use tpaf.Clib.Str.{Str, str_eq}
use tpaf.Util.Sequence
use tpaf.Sd.Pvalue
use tpaf.Sd.Pvalue.{Pvalue}
use mathlib.Core.Option

abbrev pub Props : Type 0
Props = List (Str × Pvalue)

abbrev pub create : Props
create = []

-- The new pair goes to the end of the arrays.
unfoldable pub add : Props → Str → Pvalue → Props
unfolding Pvalue.clone
add props name value = props ++ (name, Pvalue.clone value) ∷ []

unfoldable pub add_int64 : Props → Str → ℤ → Props
add_int64 props name value = props ++ (name, Pvalue.int64 value) ∷ []

unfoldable pub add_str : Props → Str → Str → Props
add_str props name value = props ++ (name, Pvalue.str value) ∷ []

unfoldable pub has_pair : Props → Str → Pvalue → Bool
has_pair [] prop_name prop_value = false
has_pair ((name, value) ∷ props) prop_name prop_value =
    if str_eq name prop_name && Pvalue.equal value prop_value
    then true
    else has_pair props prop_name prop_value

-- The loop of props_equal over the pairs of `a`.
unfoldable pub all_paired : Props → Props → Bool
unfolding has_pair
all_paired b [] = true
all_paired b ((name, value) ∷ a) = if not (has_pair b name value) then false else all_paired b a

unfoldable pub equal : Props → Props → Bool
unfolding all_paired
equal a b = if not (length a == length b) then false else all_paired b a

abbrev pub num_values : Props → ℕ
num_values = length

-- Whether one of the names before index i is the name at i.
unfoldable pub has : Props → Str → Bool
has [] prop_name = false
has ((name, value) ∷ props) prop_name = if str_eq name prop_name then true else has props prop_name

-- `before` holds the pairs at smaller indices.
unfoldable pub count_names : Props → Props → ℕ
unfolding has
count_names before [] = 0
count_names before ((name, value) ∷ props) =
    let rest = count_names (before ++ (name, value) ∷ []) props in
    if has before name then rest else suc rest

unfoldable pub num_names : Props → ℕ
unfolding count_names
num_names props = count_names [] props

unfoldable pub clone_loop : Props → Props → Props
unfolding add
clone_loop copy [] = copy
clone_loop copy ((name, value) ∷ orig) = clone_loop (add copy name value) orig

unfoldable pub clone : Props → Props
unfolding clone_loop
clone orig = clone_loop create orig

-- The cells of `values` that are written, and the number of matches, which may be larger.
unfoldable pub get_loop : ℕ → Str → List Pvalue × ℕ → Props → List Pvalue × ℕ
get_loop capacity prop_name found [] = found
get_loop capacity prop_name (values, len) ((name, value) ∷ props) =
    get_loop capacity prop_name
      (if str_eq name prop_name
        then ((if ltb len capacity then values ++ value ∷ [] else values), len + 1)
        else (values, len))
      props

unfoldable pub get : Props → Str → ℕ → List Pvalue × ℕ
unfolding get_loop
get props prop_name capacity = get_loop capacity prop_name ([], 0) props

unfoldable pub get_one : Props → Str → Option Pvalue
get_one [] prop_name = none
get_one ((name, value) ∷ props) prop_name =
    if str_eq name prop_name then some value else get_one props prop_name

-- `none` is the failed assertion: no property has the name.
unfoldable pub del_one : Props → Str → Option Props
del_one [] prop_name = none
del_one ((name, value) ∷ props) prop_name =
    if str_eq name prop_name
    then some props
    else Option.map (◌∷◌ (name, value)) (del_one props prop_name)

unfoldable pub foreach {κ} : {S : Type κ} → Props → (Str → Pvalue → S → Bool × S) → S → S
foreach props cb = Sequence.foreach (λ (name, value). cb name value) props
