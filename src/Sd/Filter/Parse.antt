-- ===== src/Sd/Filter/Parse.antt =====
-- src/sd/filter.c: the parser of filters. The input is what is left of the text from the offset on.
-- `failed` is NULL. The recursion runs on fuel: Sd/Filter/Total shows that filter_parse never uses it up.
use tpaf.Prelude.{
  ℕ, zero, suc, ◌+◌, ◌*◌, Bool, true, false, Option, none, some, List, [], ◌∷◌, ◌++◌, if◌then◌else◌,
  ◌==◌, length,
}
use tpaf.Prelude.Int.{ℤ}
use tpaf.Clib.Str.{Str, is_space}
use tpaf.Clib.Decimal.{print_int64, strtoll}
use tpaf.Sd.Filter.{
  Filter, Filters, comparison, present, substring, negation, composite, nil, cons, CompareOp, equal,
  greater_than, less_than, CompositeOp, and, or, or_empty,
}
use tpaf.Sd.Filter.Print.{
  is_special, escape_char, begin_expr, end_expr, any, not_char, compare_char,
}

pub data Parsed (A : Type 0) : Type 0 where
  ok : A → Str → Parsed A
  failed out_of_fuel : Parsed A

-- A step that gives a value and the input behind it, or fails; and the rest of the parser.
abbrev pub then_ok : {A B : Type 0} → Parsed A → (A → Str → Parsed B) → Parsed B
then_ok (ok a input) f = f a input
then_ok failed f = failed
then_ok out_of_fuel f = out_of_fuel

abbrev pub or_fail : {A : Type 0} → Option (A × Str) → Parsed A
or_fail none = failed
or_fail (some (a, input)) = ok a input

-- `none` is -1, at the end of the text.
abbrev pub input_current : Str → Option ℕ
input_current [] = none
input_current (c ∷ input) = some c

abbrev pub input_is_current : Str → ℕ → Option Bool
input_is_current [] expected = none
input_is_current (c ∷ input) expected = some (c == expected)

-- The character is skipped whatever it is: only the end of the text gives -1.
unfoldable pub input_expect : Str → ℕ → Parsed (Unit {0})
input_expect [] expected = failed
input_expect (c ∷ input) expected = elim (input_is_current (c ∷ input) expected) [
  | none ↦ failed
  | some same ↦ ok tt input
]

abbrev pub input_skip : Str → Str
input_skip [] = []
input_skip (c ∷ input) = input

-- The loop of parse_str, with `escaped` and the bytes of `result` so far.
unfoldable pub parse_str_loop : Bool → Str → Str → Option (Str × Str)
parse_str_loop escaped result [] = none
parse_str_loop true result (c ∷ input) = elim (is_special c) [
  | true ↦ parse_str_loop false (result ++ c ∷ []) input
  | false ↦ none
]
parse_str_loop false result (c ∷ input) = elim (c == escape_char) [
  | true ↦ parse_str_loop true result input
  | false ↦ elim (is_special c) [
    | true ↦ some (result, c ∷ input)
    | false ↦ parse_str_loop false (result ++ c ∷ []) input
  ]
]

unfoldable pub parse_str : Str → Parsed Str
unfolding parse_str_loop
parse_str input = or_fail (parse_str_loop false [] input)

abbrev pub is_empty : Str → Bool
is_empty [] = true
is_empty (c ∷ s) = false

-- The value, if the string is a number and nothing else, and does not begin with a space.
unfoldable pub int_of : Str → Option ℤ
int_of [] = none
int_of (c ∷ s) =
    let (value, end) = strtoll (c ∷ s) in
    if is_space c then none else if is_empty end then some value else none

unfoldable pub parse_int : Str → Parsed ℤ
unfolding parse_str
parse_int input =
    then_ok (parse_str input)
      λ value_s input'. elim (int_of value_s) [ none ↦ failed | some value ↦ ok value input' ]

abbrev pub non_empty : Str → Option Str
non_empty [] = none
non_empty (c ∷ s) = some (c ∷ s)

-- The loop of parse_substring_and_present: the intermediate values and the final value.
unfoldable pub substring_loop :
    ℕ → Option (List Str) → Str → Parsed (Option (List Str) × Option Str)
unfolding parse_str
substring_loop zero intermediate input = out_of_fuel
substring_loop (suc fuel) intermediate input = then_ok (parse_str input) λ next_value input'.
    elim (input_is_current input' any) [
      | none ↦ failed
      | some true ↦ elim (is_empty next_value) [
        | true ↦ failed
        | false ↦
            substring_loop fuel (some (or_empty intermediate ++ next_value ∷ []))
              (input_skip input')
      ]
      | some false ↦ ok (intermediate, non_empty next_value) input'
    ]

-- present_create or substring_create.
unfoldable pub substring_or_present : Str → Option Str → Option (List Str) → Option Str → Filter
substring_or_present key none none none = present key
substring_or_present key initial intermediate final = substring key initial intermediate final

unfoldable pub parse_substring_and_present : Str → Str → Str → Parsed Filter
unfolding substring_loop substring_or_present
parse_substring_and_present input key first_part_value =
    then_ok (substring_loop (suc (length input)) none input) λ (intermediate, final) input'.
      ok (substring_or_present key (non_empty first_part_value) intermediate final) input'

unfoldable pub parse_equal : Str → Str → Parsed Filter
unfolding input_expect parse_str parse_substring_and_present
parse_equal input key = then_ok (input_expect input (compare_char equal)) λ _ input₁.
    then_ok (parse_str input₁) λ value input₂. elim (input_is_current input₂ any) [
      | none ↦ failed
      | some true ↦ parse_substring_and_present (input_skip input₂) key value
      | some false ↦ ok (comparison equal key value) input₂
    ]

unfoldable pub parse_greater_and_less_than : Str → Str → CompareOp → Parsed Filter
unfolding input_expect parse_int
parse_greater_and_less_than input key op =
    then_ok (input_expect input (compare_char op)) λ _ input₁.
      then_ok (parse_int input₁) λ value input₂. ok (comparison op key (print_int64 value)) input₂

-- The switch of parse_simple on the character behind the key.
unfoldable pub parse_operator : Str → Str → Parsed Filter
unfolding parse_equal parse_greater_and_less_than
parse_operator key [] = failed
parse_operator key (c ∷ input) =
    if c == b'='
    then parse_equal (c ∷ input) key
    else if c == b'>'
    then parse_greater_and_less_than (c ∷ input) key greater_than
    else if c == b'<'
    then parse_greater_and_less_than (c ∷ input) key less_than
    else failed

unfoldable pub parse_simple : Str → Parsed Filter
unfolding parse_str parse_operator
parse_simple input =
    then_ok (parse_str input)
      λ key input'. if is_empty key then failed else parse_operator key input'

-- flist_append, and whether there are two operands or more.
unfoldable pub append_operand : Filters → Filter → Filters
append_operand nil operand = cons operand nil
append_operand (cons first operands) operand = cons first (append_operand operands operand)

abbrev pub has_two : Filters → Bool
has_two (cons first (cons second operands)) = true
has_two _ = false

unfoldable mutual
  unfolding input_expect parse_simple append_operand

  pub parse : ℕ → Str → Parsed Filter
  parse zero input = out_of_fuel
  parse (suc fuel) [] = failed
  parse (suc fuel) (c ∷ input) = elim (c == b'&') [
    | true ↦ composite_loop fuel and nil (input_skip (c ∷ input))
    | false ↦ elim (c == b'|') [
      | true ↦ composite_loop fuel or nil (input_skip (c ∷ input))
      | false ↦ elim (c == not_char) [
        | true ↦ parse_not fuel (c ∷ input)
        | false ↦ parse_simple (c ∷ input)
      ]
    ]
  ]

  pub parse_not : ℕ → Str → Parsed Filter
  parse_not zero input = out_of_fuel
  parse_not (suc fuel) input = then_ok (input_expect input not_char) λ _ input₁.
      then_ok (input_expect input₁ begin_expr) λ _ input₂.
        then_ok (parse fuel input₂) λ operand input₃.
          then_ok (input_expect input₃ end_expr) λ _ input₄. ok (negation operand) input₄

  -- The loop of parse_composite, behind the operator.
  pub composite_loop : ℕ → CompositeOp → Filters → Str → Parsed Filter
  composite_loop zero op operands input = out_of_fuel
  composite_loop (suc fuel) op operands [] = failed
  composite_loop (suc fuel) op operands (c ∷ input) = elim (c == begin_expr) [
    | true ↦ then_ok (parse fuel input) λ operand input₁.
        then_ok (input_expect input₁ end_expr)
          λ _ input₂. composite_loop fuel op (append_operand operands operand) input₂
    | false ↦ elim (c == end_expr) [
      | true ↦ if has_two operands then ok (composite op operands) (c ∷ input) else failed
      | false ↦ failed
    ]
  ]

-- input_left is 0 only at the end of the text.
unfoldable pub finish : Filter → Str → Parsed Filter
finish filter [] = ok filter []
finish filter (c ∷ input) = failed

unfoldable pub filter_parse : Str → Parsed Filter
unfolding input_expect parse finish
filter_parse s = then_ok (input_expect s begin_expr) λ _ input₁.
    then_ok (parse (2 * length s + 1) input₁)
      λ filter input₂. then_ok (input_expect input₂ end_expr) λ _ input₃. finish filter input₃

unfoldable pub filter_is_valid : Str → Bool
unfolding filter_parse
filter_is_valid s = elim (filter_parse s) [
  | ok filter input ↦ true
  | failed ↦ false
  | out_of_fuel ↦ false
]
