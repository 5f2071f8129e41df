-- ===== src/Sd/Filter/Print.antt =====
-- src/sd/filter.c: the text of a filter, filter_str and filter_escape.
use tpaf.Prelude.{
  ℕ, Bool, false, ◌||◌, Option, none, some, List, [], ◌∷◌, ◌++◌, if◌then◌else◌, ◌==◌,
}
use tpaf.Clib.Str.{Str, str_eq}
use tpaf.Sd.Filter.{
  Filter, Filters, comparison, present, substring, negation, composite, nil, cons, CompareOp, equal,
  greater_than, less_than, CompositeOp, and, or,
}

abbrev pub begin_expr : ℕ
begin_expr = b'('

abbrev pub end_expr : ℕ
end_expr = b')'

abbrev pub any : ℕ
any = b'*'

-- '\\'
abbrev pub escape_char : ℕ
escape_char = 92

abbrev pub not_char : ℕ
not_char = b'!'

abbrev pub compare_char : CompareOp → ℕ
compare_char equal = b'='
compare_char greater_than = b'>'
compare_char less_than = b'<'

abbrev pub composite_char : CompositeOp → ℕ
composite_char and = b'&'
composite_char or = b'|'

abbrev pub special_chars : Str
special_chars = b'(' ∷ b')' ∷ b'*' ∷ 92 ∷ b'!' ∷ b'&' ∷ b'|' ∷ b'=' ∷ b'<' ∷ b'>' ∷ []

-- strchr(s, c) != NULL, for a byte other than NUL.
abbrev has_char : Str → ℕ → Bool
has_char [] c = false
has_char (d ∷ s) c = d == c || has_char s c

unfoldable pub is_special : ℕ → Bool
is_special c = has_char special_chars c

unfoldable pub escape : Str → Str
escape [] = []
escape (c ∷ s) = let rest = escape s in if is_special c then escape_char ∷ c ∷ rest else c ∷ rest

unfoldable pub append_opt : Option Str → Str → Str
unfolding escape
append_opt none rest = rest
append_opt (some s) rest = escape s ++ rest

-- The intermediate values, each with the '*' behind it.
unfoldable pub intermediate_str : List Str → Str → Str
unfolding escape
intermediate_str [] rest = rest
intermediate_str (s ∷ values) rest = escape s ++ any ∷ intermediate_str values rest

unfoldable pub intermediates : Option (List Str) → Str → Str
unfolding intermediate_str
intermediates none rest = rest
intermediates (some values) rest = intermediate_str values rest

-- The text of a filter, in front of what follows it.
unfoldable mutual
  unfolding escape append_opt intermediates

  pub str_onto : Filter → Str → Str
  str_onto (comparison op key value) rest =
      begin_expr ∷ (escape key ++ compare_char op ∷ (escape value ++ end_expr ∷ rest))
  str_onto (present key) rest = begin_expr ∷ (escape key ++ b'=' ∷ any ∷ end_expr ∷ rest)
  str_onto (substring key initial intermediate final) rest =
      begin_expr
      ∷ (escape key
          ++ b'='
            ∷ append_opt initial
                (any ∷ intermediates intermediate (append_opt final (end_expr ∷ rest))))
  str_onto (negation operand) rest = begin_expr ∷ not_char ∷ str_onto operand (end_expr ∷ rest)
  str_onto (composite op operands) rest =
      begin_expr ∷ composite_char op ∷ str_each operands (end_expr ∷ rest)

  pub str_each : Filters → Str → Str
  str_each nil rest = rest
  str_each (cons operand operands) rest = str_onto operand (str_each operands rest)

-- filter_str.
unfoldable pub str : Filter → Str
unfolding str_onto
str filter = str_onto filter []

-- filter_equal compares the texts.
unfoldable pub filter_equal : Filter → Filter → Bool
unfolding str
filter_equal filter_a filter_b = str_eq (str filter_a) (str filter_b)
