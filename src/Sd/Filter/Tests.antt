-- ===== src/Sd/Filter/Tests.antt =====
-- Filters of src/sd/filter.c on concrete texts and properties.
use tpaf.Prelude.{◌≡◌, ◌↔◌, ◌⊎◌, ◌++◌, refl, true, none, some, [], ◌∷◌, arith}
use tpaf.Prelude.Int.{negsuc}
use tpaf.Clib.Str.{Str, str_eq, starts_with, strstr}
use tpaf.Clib.Decimal.{print_int64, strtoll}
use tpaf.Util.Sequence
use tpaf.Sd.Pvalue
use tpaf.Sd.Props
use tpaf.Sd.Props.{Props}
use tpaf.Sd.Filter.{
  Filter, comparison, substring, negation, composite, nil, cons, equal, greater_than, and,
  substring_matches_str, substring_matches, matches, comparison_matches_cb, compare_value,
}
use tpaf.Sd.Filter.Print.{str, is_special}
use tpaf.Sd.Filter.Parse.{ok, failed, filter_parse}
use tpaf.Sd.Filter.Meaning.{means, fits}
use tpaf.Sd.Filter.Writable.{IsWritable}
use tpaf.Sd.Filter.RoundTrip.{filter_parse-str}
use tpaf.Sd.Filter.Total.{filter_parse_total}
use tpaf.Sd.Filter.Match.{matches-means, fits_iff, intermediate_before_start}

-- "area", "name" and the pattern "a(...b".
abbrev area : Str
area = b'a' ∷ b'r' ∷ b'e' ∷ b'a' ∷ []

abbrev name : Str
name = b'n' ∷ b'a' ∷ b'm' ∷ b'e' ∷ []

-- (&(!(area>-5))(name=a\(*b))
abbrev sample : Filter
sample = composite and (
    cons (negation (comparison greater_than area (b'-' ∷ b'5' ∷ [])))
      (cons (substring name (some (b'a' ∷ b'(' ∷ [])) none (some (b'b' ∷ []))) nil))

sample-IsWritable : IsWritable sample
unfolding print_int64
sample-IsWritable =
    (refl, ((refl, (negsuc 4, omega arith, refl)), ((refl, refl, tt, refl, tt), tt)))

filter_parse-str_example : filter_parse (str sample) ≡ ok sample []
filter_parse-str_example = filter_parse-str sample sample-IsWritable

-- "(a=b)"
abbrev short : Str
short = b'(' ∷ b'a' ∷ b'=' ∷ b'b' ∷ b')' ∷ []

filter_parse_total_example :
    (filter_parse short ≡ failed)
    ⊎ ((f : Filter) × (filter_parse short ≡ ok f [])
        × IsWritable f
        × (filter_parse (str f) ≡ ok f []))
filter_parse_total_example = filter_parse_total short

short_parses : filter_parse short ≡ ok (comparison equal (b'a' ∷ []) (b'b' ∷ [])) []
unfolding filter_parse is_special
short_parses = refl

abbrev some_props : Props
some_props = (area, Pvalue.int64 (negsuc 9)) ∷ (name, Pvalue.str (b'a' ∷ b'(' ∷ b'b' ∷ [])) ∷ []

matches-means_example : matches sample some_props ≡ some (means sample some_props)
matches-means_example = matches-means sample some_props (tt, (refl, tt))

sample-matches : matches sample some_props ≡ some true
unfolding matches Props.foreach Sequence.foreach comparison_matches_cb str_eq compare_value strtoll
    substring_matches substring_matches_str starts_with
sample-matches = refl

fits_iff_example :
    (fits (some (b'a' ∷ [])) none (b'a' ∷ b'b' ∷ []) ≡ true)
    ↔ ((middle : Str) × (b'a' ∷ b'b' ∷ [] ≡ (b'a' ∷ []) ++ (middle ++ [])))
fits_iff_example = fits_iff (some (b'a' ∷ [])) none (b'a' ∷ b'b' ∷ [])

-- The value "xxab" and the pattern "*a*b".
intermediate_before_start_example :
    substring_matches_str none
      (some ((b'a' ∷ []) ∷ []))
      (some (b'b' ∷ []))
      (b'x' ∷ b'x' ∷ b'a' ∷ b'b' ∷ [])
    ≡ none
unfolding strstr
intermediate_before_start_example =
    intermediate_before_start (b'a' ∷ []) (b'b' ∷ []) (b'x' ∷ b'x' ∷ b'a' ∷ b'b' ∷ []) 2 refl
      (omega arith)
