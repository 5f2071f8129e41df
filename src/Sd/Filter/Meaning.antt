-- ===== src/Sd/Filter/Meaning.antt =====
-- What the filters of src/sd/filter.c mean, said without its searches: the specification of matching.
use tpaf.Prelude.{
  ◌-◌, Bool, true, false, not, ◌&&◌, ◌||◌, ◌≡◌, Option, none, some, [], ◌∷◌, leb, length, drop,
}
use tpaf.Clib.Str.{Str, str_eq, starts_with}
use tpaf.Sd.Pvalue.{Pvalue}
use tpaf.Sd.Props.{Props}
use tpaf.Sd.Filter.{
  Filter, Filters, comparison, present, substring, negation, composite, nil, cons, and, or,
  or_empty, compare_value,
}

abbrev pub any_prop : (Str → Pvalue → Bool) → Props → Bool
any_prop test [] = false
any_prop test ((name, value) ∷ props) = test name value || any_prop test props

abbrev pub text_of : Option Str → Str
text_of none = []
text_of (some s) = s

unfoldable pub ends_with : Str → Str → Bool
ends_with final s = leb (length final) (length s) && str_eq final (drop (length s - length final) s)

-- The value begins with the initial part, and what is behind it ends with the final part.
unfoldable pub fits : Option Str → Option Str → Str → Bool
unfolding ends_with
fits initial final value =
    starts_with (text_of initial) value
    && ends_with (text_of final) (drop (length (text_of initial)) value)

abbrev pub fits_value : Option Str → Option Str → Pvalue → Bool
fits_value initial final (Pvalue.int64 v) = false
fits_value initial final (Pvalue.str s) = fits initial final s

-- No intermediate values in any substring filter.
abbrev mutual
  pub IsPlain : Filter → Type 0
  IsPlain (comparison op key value) = Unit {0}
  IsPlain (present key) = Unit {0}
  IsPlain (substring key initial intermediate final) = or_empty intermediate ≡ []
  IsPlain (negation operand) = IsPlain operand
  IsPlain (composite op operands) = AllPlain operands

  pub AllPlain : Filters → Type 0
  AllPlain nil = Unit {0}
  AllPlain (cons operand operands) = IsPlain operand × AllPlain operands

-- What a filter means.
unfoldable mutual
  pub means : Filter → Props → Bool
  means (comparison op key value) props =
      any_prop (λ name v. str_eq key name && compare_value op value v) props
  means (present key) props = any_prop (λ name v. str_eq name key) props
  means (substring key initial intermediate final) props =
      any_prop (λ name v. str_eq name key && fits_value initial final v) props
  means (negation operand) props = not (means operand props)
  means (composite and operands) props = means_all operands props
  means (composite or operands) props = means_some operands props

  pub means_all : Filters → Props → Bool
  means_all nil props = true
  means_all (cons operand operands) props = means operand props && means_all operands props

  pub means_some : Filters → Props → Bool
  means_some nil props = false
  means_some (cons operand operands) props = means operand props || means_some operands props
