-- ===== src/Sd/Filter.antt =====
-- src/sd/filter.c and flist.c: the filters, and what they match.
pub mod Print
pub mod Parse
pub mod Writable
pub mod RoundTrip
pub mod Steps
pub mod Total
pub mod Meaning
pub mod Match
mod Tests
use tpaf.Prelude.{
  ℕ, zero, suc, ◌+◌, ◌-◌, ◌≡◌, refl, Bool, true, false, not, ◌&&◌, ◌||◌, Option, none, some, List,
  [], ◌∷◌, ◌++◌, if◌then◌else◌, ◌==◌, ltb, leb, drop, length,
}
use tpaf.Prelude.Int.{ℤ, pos, negsuc, sub_ℕ, ltb_ℤ}
use tpaf.Clib.Str.{Str, str_eq, starts_with, strstr}
use tpaf.Clib.Decimal.{print_int64, strtoll}
use tpaf.Sd.Pvalue
use tpaf.Sd.Pvalue.{Pvalue}
use tpaf.Sd.Props
use tpaf.Sd.Props.{Props}
use mathlib.Core.Option

-- The character in the `op` field of struct comparison, and of struct composite.
pub data CompareOp : Type 0 where
  equal greater_than less_than : CompareOp

pub data CompositeOp : Type 0 where
  and or : CompositeOp

-- `Filters` is struct flist.
mutual
  pub data Filter : Type 0 where
    comparison : CompareOp → Str → Str → Filter
    present : Str → Filter
    substring : Str → Option Str → Option (List Str) → Option Str → Filter
    negation : Filter → Filter
    composite : CompositeOp → Filters → Filter

  pub data Filters : Type 0 where
    nil : Filters
    cons : Filter → Filters → Filters

-- The value of the property as text: snprintf of an integer.
unfoldable pub value_text : Pvalue → Str
value_text (Pvalue.int64 v) = print_int64 v
value_text (Pvalue.str s) = s

-- Whether one value of the right name passes the comparison.
unfoldable pub compare_value : CompareOp → Str → Pvalue → Bool
unfolding value_text
compare_value equal value prop_value = str_eq (value_text prop_value) value
compare_value greater_than value (Pvalue.int64 v) = ltb_ℤ (strtoll value).0 v
compare_value greater_than value (Pvalue.str s) = false
compare_value less_than value (Pvalue.int64 v) = ltb_ℤ v (strtoll value).0
compare_value less_than value (Pvalue.str s) = false

-- comparison_matches_cb: whether to go on, and `match_found`.
unfoldable pub comparison_matches_cb : CompareOp → Str → Str → Str → Pvalue → Bool → Bool × Bool
comparison_matches_cb op key value prop_name prop_value match_found =
    let found = if compare_value op value prop_value then true else match_found in
    if not (str_eq key prop_name) then (true, match_found) else (not found, found)

-- Where the search stands in the value, as the C expressions compute it. `start - value` and
-- `value - start` are pointer differences; a place before the start of the value is a fault.
abbrev pub Offset : Type 0
Offset = ℤ

-- strstr from the offset on: `none` is a read outside the string, `some none` is NULL, and else the
-- distance of the occurrence from the start of the value.
unfoldable pub find_from : Str → ℤ → Str → Option (Option ℕ)
find_from value (negsuc n) needle = none
find_from value (pos offset) needle =
    if leb offset (length value)
    then some (Option.map (λ (i : ℕ). offset + i) (strstr (drop offset value) needle))
    else none

-- The loop over the intermediate values: a fault, no match, or the offset after the last one.
unfoldable pub intermediate_loop : Str → ℤ → List Str → Option (Option ℤ)
unfolding find_from
intermediate_loop value offset [] = some (some offset)
intermediate_loop value offset (intermediate ∷ rest) = elim (find_from value offset intermediate) [
  | none ↦ none
  | some none ↦ some none
  | some (some start) ↦ intermediate_loop value (sub_ℕ (length intermediate) start) rest
]

-- The comparison with the final value, at the end of what is left of the value.
unfoldable pub final_matches : Str → ℤ → Option Str → Option Bool
final_matches value offset none = some true
final_matches value (negsuc n) (some final) = none
final_matches value (pos offset) (some final) =
    let offset_len = length (drop offset value) in
    if leb offset (length value)
    then some (
        if ltb offset_len (length final)
        then false
        else str_eq final (drop (offset + (offset_len - length final)) value))
    else none

unfoldable pub initial_offset : Str → Option Str → Option ℤ
initial_offset value none = some (pos 0)
initial_offset value (some initial) =
    if starts_with initial value then some (pos (length initial)) else none

abbrev pub or_empty : Option (List Str) → List Str
or_empty none = []
or_empty (some l) = l

-- substring_matches_cb on one string value.
unfoldable pub substring_matches_str :
    Option Str → Option (List Str) → Option Str → Str → Option Bool
unfolding initial_offset intermediate_loop final_matches
substring_matches_str initial intermediate final value = elim (initial_offset value initial) [
  | none ↦ some false
  | some offset ↦ elim (intermediate_loop value offset (or_empty intermediate)) [
    | none ↦ none
    | some none ↦ some false
    | some (some offset') ↦ final_matches value offset' final
  ]
]

-- The search over all properties, with an early stop at the first match.
unfoldable pub substring_matches :
    Str → Option Str → Option (List Str) → Option Str → Props → Option Bool
unfolding substring_matches_str
substring_matches key initial intermediate final [] = some false
substring_matches key initial intermediate final ((name, Pvalue.int64 v) ∷ props) =
    substring_matches key initial intermediate final props
substring_matches key initial intermediate final ((name, Pvalue.str value) ∷ props) =
    let rest = substring_matches key initial intermediate final props in
    if not (str_eq name key)
    then rest
    else elim (substring_matches_str initial intermediate final value) [
      | none ↦ none
      | some true ↦ some true
      | some false ↦ rest
    ]

unfoldable mutual
  pub matches : Filter → Props → Option Bool
  matches (comparison op key value) props =
      some (Props.foreach props (comparison_matches_cb op key value) false)
  matches (present key) props = some (Props.has props key)
  matches (substring key initial intermediate final) props =
      substring_matches key initial intermediate final props
  matches (negation operand) props = Option.map not (matches operand props)
  matches (composite and operands) props = and_matches operands props
  matches (composite or operands) props = or_matches operands props

  pub and_matches : Filters → Props → Option Bool
  and_matches nil props = some true
  and_matches (cons operand operands) props =
      let rest = and_matches operands props in
      elim (matches operand props) [ none ↦ none | some false ↦ some false | some true ↦ rest ]

  pub or_matches : Filters → Props → Option Bool
  or_matches nil props = some false
  or_matches (cons operand operands) props =
      let rest = or_matches operands props in
      elim (matches operand props) [ none ↦ none | some true ↦ some true | some false ↦ rest ]
