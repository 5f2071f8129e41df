-- ===== src/Sd/Filter/RoundTrip.antt =====
-- src/sd/filter.c: the parser reads back the text that filter_str writes.
mod Strings
use tpaf.Prelude.{
  ℕ, zero, suc, ◌+◌, ◌*◌, ◌≤◌, ◌<◌, ◌≡◌, ◌↔◌, refl, sym, ◌∙◌, ap, Bool, true, false, Option, none,
  some, List, [], ◌∷◌, ◌++◌, arith, if◌then◌else◌, ◌==◌, length, length-append, Bool-cases, inl,
  inr,
}
use tpaf.Clib.Str.{Str, str_eq, str_eq_iff}
use tpaf.Sd.Filter.{
  Filter, Filters, comparison, present, substring, negation, composite, nil, cons, CompareOp,
  CompositeOp, and, or,
}
use tpaf.Sd.Filter.Print.{
  is_special, escape_char, begin_expr, end_expr, any, not_char, compare_char, composite_char,
  escape, append_opt, filter_equal, intermediates, intermediate_str, str_onto, str_each, str,
}
use tpaf.Sd.Filter.Parse.{
  Parsed, ok, input_expect, input_skip, is_empty, parse_operator, parse_simple, append_operand,
  has_two, parse, parse_not, composite_loop, finish, filter_parse,
}
use tpaf.Sd.Filter.Writable.{IsWritable, AllWritable}
use Strings.{
  stops, IsStop, compare_char-IsStop, escape-nonempty, parse_operator-comparison,
  parse_operator-pattern, parse_operator-present, substring_or_present-HasPart,
}

-- The fuel that the parser needs for the text of a filter, behind its first bracket.
mutual
  need : Filter → ℕ
  need (negation operand) = suc (suc (need operand))
  need (composite op operands) = suc (need_each operands)
  need _ = 1

  need_each : Filters → ℕ
  need_each nil = 1
  need_each (cons operand operands) = suc (need operand + need_each operands)

length-append_opt : (o : Option Str) (rest : Str) → length rest ≤ length (append_opt o rest)
unfolding append_opt
length-append_opt none rest = omega arith
length-append_opt (some s) rest = omega (arith, length-append (escape s) rest)

length-intermediate_str :
    (values : List Str) (rest : Str) → length rest ≤ length (intermediate_str values rest)
unfolding intermediate_str
length-intermediate_str [] rest = omega arith
length-intermediate_str (s ∷ values) rest = omega (
  arith,
  length-append (escape s) (any ∷ intermediate_str values rest),
  length-intermediate_str values rest,
)

length-intermediates :
    (o : Option (List Str)) (rest : Str) → length rest ≤ length (intermediates o rest)
unfolding intermediates
length-intermediates none rest = omega arith
length-intermediates (some values) rest = length-intermediate_str values rest

mutual
  unfolding need str_onto

  need-le : (f : Filter) (rest : Str) → need f + 1 + length rest ≤ length (str_onto f rest)
  need-le (comparison op key value) rest = omega (
    arith,
    length-append (escape key) (compare_char op ∷ (escape value ++ end_expr ∷ rest)),
    length-append (escape value) (end_expr ∷ rest),
  )
  need-le (present key) rest =
      omega (arith, length-append (escape key) (b'=' ∷ any ∷ end_expr ∷ rest))
  need-le (substring key initial intermediate final) rest = omega (
    arith,
    length-append (escape key) (
        b'='
        ∷ append_opt initial
            (any ∷ intermediates intermediate (append_opt final (end_expr ∷ rest)))),
    length-append_opt initial
        (any ∷ intermediates intermediate (append_opt final (end_expr ∷ rest))),
    length-intermediates intermediate (append_opt final (end_expr ∷ rest)),
    length-append_opt final (end_expr ∷ rest),
  )
  need-le (negation operand) rest = omega (arith, need-le operand (end_expr ∷ rest))
  need-le (composite op operands) rest = omega (arith, need_each-le operands (end_expr ∷ rest))

  need_each-le :
      (fs : Filters) (rest : Str) → need_each fs + length rest ≤ length (str_each fs rest) + 1
  need_each-le nil rest = omega arith
  need_each-le (cons f fs) rest = omega (arith, need-le f (str_each fs rest), need_each-le fs rest)

plain-not_operator :
    (c : ℕ)
    → is_special c ≡ false
    → ((c == b'&') ≡ false) × ((c == b'|') ≡ false) × ((c == not_char) ≡ false)
unfolding is_special
plain-not_operator c h = ground arith

parse-parse_simple :
    (fuel c : ℕ) (input : Str)
    → ((c == b'&') ≡ false) × ((c == b'|') ≡ false) × ((c == not_char) ≡ false)
    → parse (suc fuel) (c ∷ input) ≡ parse_simple (c ∷ input)
unfolding parse
parse-parse_simple fuel c input h = ground arith

parse-escape :
    (fuel : ℕ) (key rest : Str)
    → is_empty key ≡ false
    → parse (suc fuel) (escape key ++ rest) ≡ parse_simple (escape key ++ rest)
unfolding escape
parse-escape fuel [] rest h = cc
parse-escape fuel (d ∷ key) rest h = elim (Bool-cases (is_special d)) [
  | inl special ↦
      rw special (parse-parse_simple fuel escape_char (d ∷ (escape key ++ rest)) (refl, refl, refl))
  | inr plain ↦
      rw plain (parse-parse_simple fuel d (escape key ++ rest) (plain-not_operator d plain))
]

-- A string in front of a stop, behind a bracket, is a key.
parse-key :
    (fuel : ℕ) (key : Str) (c : ℕ) (rest : Str)
    → is_empty key ≡ false
    → IsStop c
    → parse (suc fuel) (escape key ++ c ∷ rest) ≡ parse_operator key (c ∷ rest)
parse-key fuel key c rest h stop =
    parse-escape fuel key (c ∷ rest) h ∙ escape-nonempty key c rest h stop

append_all : Filters → Filters → Filters
append_all nil xs = xs
append_all (cons y ys) xs = cons y (append_all ys xs)

append_all-nil : (xs : Filters) → append_all xs nil ≡ xs
unfolding append_all
append_all-nil nil = refl
append_all-nil (cons x xs) = ap (cons x) (append_all-nil xs)

append_all-operand :
    (xs : Filters) (y : Filter) (ys : Filters)
    → append_all (append_operand xs y) ys ≡ append_all xs (cons y ys)
unfolding append_all append_operand
append_all-operand nil y ys = refl
append_all-operand (cons x xs) y ys = ap (cons x) (append_all-operand xs y ys)

str_onto-begin :
    (f : Filter) (rest : Str) → str_onto f rest ≡ begin_expr ∷ input_skip (str_onto f rest)
unfolding str_onto
str_onto-begin (comparison op key value) rest = refl
str_onto-begin _ rest = refl

need_pos : (f : Filter) → 0 < need f
unfolding need
need_pos (negation operand) = omega arith
need_pos (composite op operands) = omega arith
need_pos _ = omega arith

-- With the fuel that the text needs, the parser reads it up to the bracket that closes it.
abbrev Reads : Filter → Type 0
Reads f =
    (fuel : ℕ) (rest : Str)
    → IsWritable f
    → need f ≤ fuel
    → parse fuel (input_skip (str_onto f rest)) ≡ ok f (end_expr ∷ rest)

abbrev ReadsEach : Filters → Type 0
ReadsEach fs =
    (fuel : ℕ) (op : CompositeOp) (done : Filters) (rest : Str)
    → AllWritable fs
    → need_each fs ≤ fuel
    → has_two (append_all done fs) ≡ true
    → composite_loop fuel op done (str_each fs (end_expr ∷ rest))
      ≡ ok (composite op (append_all done fs)) (end_expr ∷ rest)

negation-Reads : (f : Filter) → Reads f → Reads (negation f)
unfolding need str_onto parse
negation-Reads f ih zero rest w h = absurd (omega arith)
negation-Reads f ih (suc zero) rest w h = absurd (omega arith)
negation-Reads f ih (suc (suc fuel)) rest w h =
    rw (str_onto-begin f (end_expr ∷ rest)) (ground (arith, ih fuel (end_expr ∷ rest)))

composite-Reads : (op : CompositeOp) (fs : Filters) → ReadsEach fs → Reads (composite op fs)
unfolding need str_onto parse append_all
composite-Reads op fs ih zero rest w h = absurd (omega arith)
composite-Reads and fs ih (suc fuel) rest w h = ih fuel and nil rest w.1 (omega arith) w.0
composite-Reads or fs ih (suc fuel) rest w h = ih fuel or nil rest w.1 (omega arith) w.0

nil-ReadsEach : ReadsEach nil
unfolding need str_each composite_loop
nil-ReadsEach zero op done rest w h two = absurd (omega arith)
nil-ReadsEach (suc fuel) op done rest w h two =
    rw (append_all-nil done) (ground (arith, append_all-nil done))

cons-ReadsEach : (f : Filter) (fs : Filters) → Reads f → ReadsEach fs → ReadsEach (cons f fs)
unfolding need str_each composite_loop
cons-ReadsEach f fs one each zero op done rest w h two = absurd (omega arith)
cons-ReadsEach f fs one each (suc fuel) op done rest w h two =
    let tail = str_each fs (end_expr ∷ rest) in
    rw (str_onto-begin f tail) (
      ground (
        arith,
        one fuel tail,
        each fuel op (append_operand done f) rest,
        append_all-operand done f fs,
      ))

comparison-Reads : (op : CompareOp) (key value : Str) → Reads (comparison op key value)
unfolding need str_onto
comparison-Reads op key value zero rest w h = absurd (omega arith)
comparison-Reads op key value (suc fuel) rest w h =
    parse-key fuel key (compare_char op) _ w.0 (compare_char-IsStop op)
    ∙ parse_operator-comparison op key value rest w.1

present-Reads : (key : Str) → Reads (present key)
unfolding need str_onto
present-Reads key zero rest w h = absurd (omega arith)
present-Reads key (suc fuel) rest w h =
    parse-key fuel key b'=' _ w stops.6 ∙ parse_operator-present key rest

substring-Reads :
    (key : Str) (initial : Option Str) (intermediate : Option (List Str)) (final : Option Str)
    → Reads (substring key initial intermediate final)
unfolding need str_onto
substring-Reads key initial intermediate final zero rest w h = absurd (omega arith)
substring-Reads key initial intermediate final (suc fuel) rest w h =
    parse-key fuel key b'=' _ w.0 stops.6
    ∙ parse_operator-pattern key initial intermediate final rest w.1 w.2 w.3
    ∙ ap (λ (g : Filter). ok g (end_expr ∷ rest))
        (substring_or_present-HasPart key initial intermediate final w.4)

parse-Reads : (f : Filter) → Reads f
parse-Reads f = elim f as Reads ReadsEach [
  | comparison op key value ↦ comparison-Reads op key value
  | present key ↦ present-Reads key
  | substring key initial intermediate final ↦ substring-Reads key initial intermediate final
  | negation (g → ih) ↦ negation-Reads g ih
  | composite op (fs → ih) ↦ composite-Reads op fs ih
  | nil ↦ nil-ReadsEach
  | cons (g → ih) (fs → ihs) ↦ cons-ReadsEach g fs ih ihs
]

filter_parse-ok :
    (s text : Str) (f : Filter)
    → s ≡ begin_expr ∷ text
    → parse (2 * length s + 1) text ≡ ok f (end_expr ∷ [])
    → filter_parse s ≡ ok f []
unfolding filter_parse
filter_parse-ok [] text f e h = cc
filter_parse-ok (c ∷ s) text f e h = ground arith

-- The text of a filter that can be written (IsWritable: no part is empty, operands and numbers are as
-- the parser makes them) parses to that filter, with the whole text read.
pub filter_parse-str : (f : Filter) → IsWritable f → filter_parse (str f) ≡ ok f []
unfolding str
filter_parse-str f w =
    filter_parse-ok (str_onto f []) (input_skip (str_onto f [])) f (str_onto-begin f [])
      (parse-Reads f (2 * length (str_onto f []) + 1) [] w (omega (arith, need-le f [])))

-- Filters that have a text are told apart by it: filter_equal decides equality.
pub filter_equal_iff :
    (f g : Filter) → IsWritable f → IsWritable g → (filter_equal f g ≡ true) ↔ (f ≡ g)
unfolding filter_equal
filter_equal_iff f g v w = (
  λ e.
      let same : str f ≡ str g = (str_eq_iff (str f) (str g)).0 e in
      cc (filter_parse-str f v, filter_parse-str g w, same),
  λ e. (str_eq_iff (str f) (str g)).1 (ap str e),
)
