-- ===== src/Sd/Filter/Writable.antt =====
-- src/sd/filter.c: the filters that the parser builds, which are those that have a text.
use tpaf.Prelude.{◌≡◌, true, false, Option, none, some, List, [], ◌∷◌}
use tpaf.Prelude.Int.{ℤ, IsInt64}
use tpaf.Clib.Str.{Str}
use tpaf.Clib.Decimal.{print_int64}
use tpaf.Sd.Filter.{
  Filter, Filters, comparison, present, substring, negation, composite, nil, cons, CompareOp, equal,
  greater_than, less_than,
}
use tpaf.Sd.Filter.Parse.{is_empty, has_two}

-- The filters that have a text: the names and the parts of a pattern are not empty, a pattern has a
-- part, a bound is the text of an integer, and a composite has two operands or more.
abbrev pub IsText : Option Str → Type 0
IsText none = Unit {0}
IsText (some s) = is_empty s ≡ false

abbrev pub AllText : List Str → Type 0
AllText [] = Unit {0}
AllText (s ∷ values) = (is_empty s ≡ false) × AllText values

abbrev pub IsTexts : Option (List Str) → Type 0
IsTexts none = Unit {0}
IsTexts (some []) = ⊥
IsTexts (some (s ∷ values)) = AllText (s ∷ values)

abbrev pub IsNumber : CompareOp → Str → Type 0
IsNumber equal value = Unit {0}
IsNumber greater_than value = (z : ℤ) × IsInt64 z × (value ≡ print_int64 z)
IsNumber less_than value = (z : ℤ) × IsInt64 z × (value ≡ print_int64 z)

abbrev pub HasPart : Option Str → Option (List Str) → Option Str → Type 0
HasPart none none none = ⊥
HasPart _ _ _ = Unit {0}

abbrev mutual
  pub IsWritable : Filter → Type 0
  IsWritable (comparison op key value) = (is_empty key ≡ false) × IsNumber op value
  IsWritable (present key) = is_empty key ≡ false
  IsWritable (substring key initial intermediate final) =
      (is_empty key ≡ false)
      × IsText initial
      × IsTexts intermediate
      × IsText final
      × HasPart initial intermediate final
  IsWritable (negation operand) = IsWritable operand
  IsWritable (composite op operands) = (has_two operands ≡ true) × AllWritable operands

  pub AllWritable : Filters → Type 0
  AllWritable nil = Unit {0}
  AllWritable (cons operand operands) = IsWritable operand × AllWritable operands
