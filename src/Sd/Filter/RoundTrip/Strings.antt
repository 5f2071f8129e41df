-- ===== src/Sd/Filter/RoundTrip/Strings.antt =====
-- src/sd/filter.c: what the parts of the parser read from the text of the parts of a filter.
use tpaf.Prelude.{
  ℕ, zero, suc, ◌≤◌, ◌<◌, ◌≡◌, refl, ◌∙◌, ap, true, false, Option, none, some, List, [], ◌∷◌, ◌++◌,
  append_assoc, append-nil, arith, ◌==◌, length, length-append, Bool-cases, inl, inr,
}
use tpaf.Prelude.Int.{ℤ, IsInt64}
use tpaf.Clib.Str.{Str}
use tpaf.Clib.Decimal.{print_int64, strtoll}
use tpaf.Clib.Decimal.RoundTrip.{strtoll-print_int64, head-print_int64}
use tpaf.Sd.Filter.{
  comparison, present, substring, CompareOp, equal, greater_than, less_than, or_empty,
}
use tpaf.Sd.Filter.Print.{
  is_special, escape_char, end_expr, any, compare_char, escape, append_opt, intermediate_str,
  intermediates,
}
use tpaf.Sd.Filter.Parse.{
  ok, parse_str_loop, parse_str, is_empty, int_of, parse_int, non_empty, substring_loop,
  substring_or_present, parse_substring_and_present, parse_equal, parse_greater_and_less_than,
  parse_operator, parse_simple,
}
use tpaf.Sd.Filter.Writable.{IsText, AllText, IsTexts, IsNumber, HasPart}

-- A character that ends a string: special, and not the escape character.
abbrev pub IsStop : ℕ → Type 0
IsStop c = (is_special c ≡ true) × ((c == escape_char) ≡ false)

pub stops :
    IsStop b'('
    × IsStop b')'
    × IsStop b'*'
    × IsStop b'!'
    × IsStop b'&'
    × IsStop b'|'
    × IsStop b'='
    × IsStop b'<'
    × IsStop b'>'
unfolding is_special
stops = (
  (refl, refl),
  (refl, refl),
  (refl, refl),
  (refl, refl),
  (refl, refl),
  (refl, refl),
  (refl, refl),
  (refl, refl),
  (refl, refl),
)

plain_not_escape : (c : ℕ) → is_special c ≡ false → (c == escape_char) ≡ false
unfolding is_special
plain_not_escape c h = ground arith

parse_str_loop-escape :
    (result s : Str) (c : ℕ) (rest : Str)
    → IsStop c
    → parse_str_loop false result (escape s ++ c ∷ rest) ≡ some (result ++ s, c ∷ rest)
unfolding parse_str_loop escape
parse_str_loop-escape result [] c rest h = rw (h.1, h.0, append-nil result, parse_str_loop)
parse_str_loop-escape result (d ∷ s) c rest h = elim (Bool-cases (is_special d)) [
  | inl special ↦
      rw (special, parse_str_loop)
        (rw (special, parse_str_loop)
          (parse_str_loop-escape (result ++ d ∷ []) s c rest h
            ∙ ap (λ (t : Str). some (t, c ∷ rest)) (append_assoc result (d ∷ []) s)))
  | inr plain ↦ rw plain (
      rw (plain_not_escape d plain, plain, parse_str_loop)
        (parse_str_loop-escape (result ++ d ∷ []) s c rest h
          ∙ ap (λ (t : Str). some (t, c ∷ rest)) (append_assoc result (d ∷ []) s)))
]

-- parse_str reads an escaped string up to the special character behind it.
pub parse_str-escape :
    (s : Str) (c : ℕ) (rest : Str) → IsStop c → parse_str (escape s ++ c ∷ rest) ≡ ok s (c ∷ rest)
unfolding parse_str
parse_str-escape s c rest h = rw (parse_str_loop-escape [] s c rest h)

pub compare_char-IsStop : (op : CompareOp) → IsStop (compare_char op)
compare_char-IsStop equal = stops.6
compare_char-IsStop less_than = stops.7
compare_char-IsStop greater_than = stops.8

int_of-print_int64 : (z : ℤ) → IsInt64 z → int_of (print_int64 z) ≡ some z
unfolding int_of
int_of-print_int64 z h =
    let (c, s, e, space) = head-print_int64 z in
    let back : strtoll (c ∷ s) ≡ (z, []) = rw e at (strtoll-print_int64 z h) in rw (e, space, back)

parse_int-print :
    (z : ℤ) (c : ℕ) (rest : Str)
    → IsInt64 z
    → IsStop c
    → parse_int (escape (print_int64 z) ++ c ∷ rest) ≡ ok z (c ∷ rest)
unfolding parse_int
parse_int-print z c rest h stop =
    ground (arith, parse_str-escape (print_int64 z) c rest (stop.0, stop.1), int_of-print_int64 z h)

pub escape-nonempty :
    (s : Str) (c : ℕ) (rest : Str)
    → is_empty s ≡ false
    → IsStop c
    → parse_simple (escape s ++ c ∷ rest) ≡ parse_operator s (c ∷ rest)
unfolding parse_simple
escape-nonempty s c rest h stop = rw (parse_str-escape s c rest stop, h)

pub parse_operator-comparison :
    (op : CompareOp) (key value rest : Str)
    → IsNumber op value
    → parse_operator key (compare_char op ∷ (escape value ++ end_expr ∷ rest))
      ≡ ok (comparison op key value) (end_expr ∷ rest)
unfolding parse_operator parse_equal parse_greater_and_less_than
parse_operator-comparison equal key value rest h = rw (parse_str-escape value end_expr rest stops.1)
parse_operator-comparison greater_than key value rest (z, range, e) =
    rw (e, parse_int-print z end_expr rest range stops.1)
parse_operator-comparison less_than key value rest (z, range, e) =
    rw (e, parse_int-print z end_expr rest range stops.1)

is_empty-cases : (s : Str) → (is_empty s ≡ false) → non_empty s ≡ some s
is_empty-cases [] h = cc
is_empty-cases (c ∷ s) h = refl

substring_loop-final :
    (fuel : ℕ) (seen : Option (List Str)) (final : Option Str) (rest : Str)
    → IsText final
    → substring_loop (suc fuel) seen (append_opt final (end_expr ∷ rest))
      ≡ ok (seen, final) (end_expr ∷ rest)
unfolding substring_loop append_opt
substring_loop-final fuel seen none rest h = rw (parse_str-escape [] end_expr rest stops.1)
substring_loop-final fuel seen (some s) rest h =
    rw (parse_str-escape s end_expr rest stops.1, is_empty-cases s h)

-- The intermediate values after those that are still in the text.
abbrev seen_with : Option (List Str) → List Str → Option (List Str)
seen_with seen [] = seen
seen_with seen (s ∷ values) = seen_with (some (or_empty seen ++ s ∷ [])) values

seen_with-some : (l values : List Str) → seen_with (some l) values ≡ some (l ++ values)
seen_with-some l [] = rw append-nil
seen_with-some l (s ∷ values) =
    seen_with-some (l ++ s ∷ []) values ∙ ap some (append_assoc l (s ∷ []) values)

substring_loop-value :
    (s : Str) (fuel : ℕ) (seen : Option (List Str)) (tail : Str)
    → is_empty s ≡ false
    → substring_loop (suc fuel) seen (escape s ++ any ∷ tail)
      ≡ substring_loop fuel (some (or_empty seen ++ s ∷ [])) tail
unfolding substring_loop
substring_loop-value s fuel seen tail h = ground (arith, parse_str-escape s any tail stops.2)

substring_loop-values :
    (values : List Str) (fuel : ℕ) (seen : Option (List Str)) (final : Option Str) (rest : Str)
    → AllText values
    → IsText final
    → length values < fuel
    → substring_loop fuel seen (intermediate_str values (append_opt final (end_expr ∷ rest)))
      ≡ ok (seen_with seen values, final) (end_expr ∷ rest)
unfolding intermediate_str
substring_loop-values [] zero seen final rest t f h = absurd (omega arith)
substring_loop-values [] (suc fuel) seen final rest t f h =
    substring_loop-final fuel seen final rest f
substring_loop-values (s ∷ values) zero seen final rest t f h = absurd (omega arith)
substring_loop-values (s ∷ values) (suc fuel) seen final rest t f h =
    substring_loop-value s fuel seen _ t.0
    ∙ substring_loop-values values fuel (some (or_empty seen ++ s ∷ [])) final rest t.1 f
        (omega arith)

length-intermediate_str :
    (values : List Str) (rest : Str) → length values ≤ length (intermediate_str values rest)
unfolding intermediate_str
length-intermediate_str [] rest = omega arith
length-intermediate_str (s ∷ values) rest = omega (
  arith,
  length-append (escape s) (any ∷ intermediate_str values rest),
  length-intermediate_str values rest,
)

pattern_values :
    (intermediate : Option (List Str)) (final : Option Str) (rest : Str)
    → IsTexts intermediate
    → IsText final
    → let text = intermediates intermediate (append_opt final (end_expr ∷ rest)) in
      substring_loop (suc (length text)) none text ≡ ok (intermediate, final) (end_expr ∷ rest)
unfolding intermediates
pattern_values none final rest t f = substring_loop-final _ none final rest f
pattern_values (some []) final rest t f = elim t [ ]
pattern_values (some (s ∷ values)) final rest t f =
    substring_loop-values (s ∷ values) _ none final rest t f
      (omega (arith, length-intermediate_str (s ∷ values) (append_opt final (end_expr ∷ rest))))
    ∙ ap (λ (m : Option (List Str)). ok (m, final) (end_expr ∷ rest))
        (seen_with-some (s ∷ []) values)

-- The value in front of the first '*'.
abbrev first_part : Option Str → Str
first_part none = []
first_part (some s) = s

parse_str-initial :
    (initial : Option Str) (rest : Str)
    → IsText initial
    → (parse_str (append_opt initial (any ∷ rest)) ≡ ok (first_part initial) (any ∷ rest))
      × (non_empty (first_part initial) ≡ initial)
unfolding append_opt
parse_str-initial none rest t = (parse_str-escape [] any rest stops.2, refl)
parse_str-initial (some s) rest t = (parse_str-escape s any rest stops.2, is_empty-cases s t)

pub parse_operator-pattern :
    (key : Str) (initial : Option Str) (intermediate : Option (List Str)) (final : Option Str)
    (rest : Str)
    → IsText initial
    → IsTexts intermediate
    → IsText final
    → parse_operator key (
        b'='
        ∷ append_opt initial
            (any ∷ intermediates intermediate (append_opt final (end_expr ∷ rest))))
      ≡ ok (substring_or_present key initial intermediate final) (end_expr ∷ rest)
unfolding parse_operator parse_equal parse_substring_and_present
parse_operator-pattern key initial intermediate final rest i m f =
    let (read, back) =
      parse_str-initial initial (intermediates intermediate (append_opt final (end_expr ∷ rest)))
        i in
    ground (arith, read, back, pattern_values intermediate final rest m f)

pub substring_or_present-HasPart :
    (key : Str) (initial : Option Str) (intermediate : Option (List Str)) (final : Option Str)
    → HasPart initial intermediate final
    → substring_or_present key initial intermediate final ≡ substring key initial intermediate final
unfolding substring_or_present
substring_or_present-HasPart key none none none h = elim h [ ]
substring_or_present-HasPart key none none (some f) h = refl
substring_or_present-HasPart key none (some m) final h = refl
substring_or_present-HasPart key (some i) intermediate final h = refl

pub parse_operator-present :
    (key rest : Str)
    → parse_operator key (b'=' ∷ any ∷ end_expr ∷ rest) ≡ ok (present key) (end_expr ∷ rest)
unfolding append_opt intermediates substring_or_present
parse_operator-present key rest = parse_operator-pattern key none none none rest tt tt tt
