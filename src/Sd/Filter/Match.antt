-- ===== src/Sd/Filter/Match.antt =====
-- src/sd/filter.c: what filters match. Filters with no intermediate values mean what they should;
-- with intermediate values the offset is computed with the wrong sign.
use tpaf.Prelude.{
  ℕ, zero, suc, ◌+◌, ◌-◌, ◌≤◌, ◌<◌, ◌≡◌, ◌↔◌, refl, sym, ◌∙◌, ap, true, false, ◌&&◌, Option, none,
  some, List, [], ◌∷◌, ◌++◌, arith, if◌then◌else◌, length, length-append, length-drop, drop, take,
  take-append-drop,
}
use tpaf.Prelude.Int.{pos}
use tpaf.Clib.Str.{Str, str_eq, str_eq_iff, str_eq_refl, starts_with, strstr}
use tpaf.Util.Sequence
use tpaf.Sd.Pvalue.{Pvalue}
use tpaf.Sd.Props
use tpaf.Sd.Props.{Props}
use tpaf.Sd.Filter.{
  Filter, Filters, comparison, present, substring, negation, composite, nil, cons, CompareOp, and,
  or, or_empty, compare_value, comparison_matches_cb, find_from, final_matches, initial_offset,
  substring_matches_str, substring_matches, matches, and_matches, or_matches,
}
use tpaf.Sd.Filter.Parse.{filter_parse}
use tpaf.Sd.Filter.Meaning.{
  any_prop, text_of, ends_with, fits, fits_value, IsPlain, AllPlain, means, means_all, means_some,
}

comparison-means :
    (op : CompareOp) (key value : Str) (props : Props)
    → Props.foreach props (comparison_matches_cb op key value) false
      ≡ any_prop (λ name v. str_eq key name && compare_value op value v) props
unfolding Props.foreach Sequence.foreach comparison_matches_cb
comparison-means op key value [] = refl
comparison-means op key value ((name, v) ∷ props) =
    ground (arith, comparison-means op key value props)

present-means :
    (key : Str) (props : Props) → Props.has props key ≡ any_prop (λ name v. str_eq name key) props
unfolding Props.has
present-means key [] = refl
present-means key ((name, v) ∷ props) = ground (arith, present-means key props)

drop-nil : (k : ℕ) → drop {A = ℕ} k [] ≡ []
drop-nil zero = refl
drop-nil (suc k) = refl

drop-drop : (n m : ℕ) (s : Str) → drop (n + m) s ≡ drop m (drop n s)
drop-drop zero m s = ap (λ (k : ℕ). drop k s) (omega arith)
drop-drop (suc n) m [] = drop-nil (suc n + m) ∙ sym (drop-nil m)
drop-drop (suc n) m (c ∷ s) =
    let e : suc n + m ≡ suc (n + m) = omega arith in rw e (drop-drop n m s)

starts_with-length : (prefix s : Str) → starts_with prefix s ≡ true → length prefix ≤ length s
unfolding starts_with
starts_with-length [] s h = omega arith
starts_with-length (c ∷ prefix) [] h = cc
starts_with-length (c ∷ prefix) (d ∷ s) h = ground (arith, starts_with-length prefix s)

final-means :
    (value final : Str) (offset : ℕ)
    → offset ≤ length value
    → final_matches value (pos offset) (some final) ≡ some (ends_with final (drop offset value))
unfolding final_matches ends_with
final-means value final offset h = ground (
  arith,
  length-drop offset value,
  drop-drop offset (length (drop offset value) - length final) value,
)

drop_all : (s : Str) → drop (length s) s ≡ []
drop_all [] = refl
drop_all (c ∷ s) = drop_all s

final_opt-means :
    (value : Str) (final : Option Str) (offset : ℕ)
    → offset ≤ length value
    → final_matches value (pos offset) final ≡ some (ends_with (text_of final) (drop offset value))
final_opt-means value (some final) offset h = final-means value final offset h
final_opt-means value none offset h =
    unfold final_matches ends_with in
    let t = drop offset value in
    let whole : length t - 0 ≡ length t = omega arith in
    rw (whole, drop_all t) (ground (arith, str_eq_refl []))

initial_opt-means :
    (value : Str) (initial : Option Str)
    → initial_offset value initial ≡ (
        if starts_with (text_of initial) value then some (pos (length (text_of initial))) else none)
unfolding initial_offset starts_with
initial_opt-means value none = refl
initial_opt-means value (some initial) = refl

-- The search for a value, when there are no intermediate values.
plain_search :
    (initial : Option Str) (intermediate : Option (List Str)) (final : Option Str) (value : Str)
    → or_empty intermediate ≡ []
    → substring_matches_str initial intermediate final value
      ≡ (elim (initial_offset value initial) [
        | none ↦ some false
        | some offset ↦ final_matches value offset final
      ])
unfolding substring_matches_str
plain_search initial none final value h = ground arith
plain_search initial (some []) final value h = ground arith
plain_search initial (some (s ∷ values)) final value h = cc

substring_str-means :
    (initial : Option Str) (intermediate : Option (List Str)) (final : Option Str) (value : Str)
    → or_empty intermediate ≡ []
    → substring_matches_str initial intermediate final value ≡ some (fits initial final value)
unfolding fits
substring_str-means initial intermediate final value h =
    plain_search initial intermediate final value h
    ∙ ground (
      arith,
      initial_opt-means value initial,
      starts_with-length (text_of initial) value,
      final_opt-means value final (length (text_of initial)),
    )

substring-means :
    (key : Str) (initial : Option Str) (intermediate : Option (List Str)) (final : Option Str)
    (props : Props)
    → or_empty intermediate ≡ []
    → substring_matches key initial intermediate final props
      ≡ some (any_prop (λ name v. str_eq name key && fits_value initial final v) props)
unfolding substring_matches
substring-means key initial intermediate final [] h = refl
substring-means key initial intermediate final ((name, Pvalue.int64 v) ∷ props) h =
    ground (arith, substring-means key initial intermediate final props)
substring-means key initial intermediate final ((name, Pvalue.str s) ∷ props) h = ground (
  arith,
  substring_str-means initial intermediate final s,
  substring-means key initial intermediate final props,
)

mutual
  unfolding matches means

  matches-means_lem :
      (f : Filter) (props : Props) → IsPlain f → matches f props ≡ some (means f props)
  matches-means_lem (comparison op key value) props h =
      ap some (comparison-means op key value props)
  matches-means_lem (present key) props h = ap some (present-means key props)
  matches-means_lem (substring key initial intermediate final) props h =
      substring-means key initial intermediate final props h
  matches-means_lem (negation operand) props h = rw (matches-means_lem operand props h)
  matches-means_lem (composite and operands) props h = and_matches-means operands props h
  matches-means_lem (composite or operands) props h = or_matches-means operands props h

  and_matches-means :
      (fs : Filters) (props : Props)
      → AllPlain fs
      → and_matches fs props ≡ some (means_all fs props)
  and_matches-means nil props h = refl
  and_matches-means (cons f fs) props h =
      ground (arith, matches-means_lem f props h.0, and_matches-means fs props h.1)

  or_matches-means :
      (fs : Filters) (props : Props)
      → AllPlain fs
      → or_matches fs props ≡ some (means_some fs props)
  or_matches-means nil props h = refl
  or_matches-means (cons f fs) props h =
      ground (arith, matches-means_lem f props h.0, or_matches-means fs props h.1)

-- A filter without intermediate values never reads outside a string, and matches exactly the
-- properties that it means.
pub matches-means :
    (f : Filter) (props : Props) → IsPlain f → matches f props ≡ some (means f props)
matches-means f props h = matches-means_lem f props h

starts_with_iff :
    (prefix s : Str) → (starts_with prefix s ≡ true) ↔ (s ≡ prefix ++ drop (length prefix) s)
unfolding starts_with
starts_with_iff [] s = ground arith
starts_with_iff (c ∷ prefix) [] = ground arith
starts_with_iff (c ∷ prefix) (d ∷ s) = ground (arith, starts_with_iff prefix s)

drop-append : (xs ys : Str) → drop (length xs) (xs ++ ys) ≡ ys
drop-append [] ys = refl
drop-append (x ∷ xs) ys = drop-append xs ys

ends_with_iff :
    (final s : Str) → (ends_with final s ≡ true) ↔ ((middle : Str) × (s ≡ middle ++ final))
unfolding ends_with
ends_with_iff final s = (split, λ (middle, e). rw e (joined middle))
  where
    k : ℕ
    k = length s - length final

    split : (ends_with final s ≡ true) → (middle : Str) × (s ≡ middle ++ final)
    split h =
        let same : final ≡ drop k s = (str_eq_iff final (drop k s)).0 (ground arith) in
        (take k s, sym (take-append-drop k s) ∙ ap (◌++◌ (take k s)) (sym same))

    joined : (middle : Str) → ends_with final (middle ++ final) ≡ true
    joined middle =
        let e : length (middle ++ final) - length final ≡ length middle =
          omega (arith, length-append middle final) in
        rw (e, drop-append middle final)
          (ground (arith, length-append middle final, str_eq_refl final))

-- The text of a pattern with an initial and a final part is any text between the two.
pub fits_iff :
    (initial final : Option Str) (value : Str)
    → (fits initial final value ≡ true)
      ↔ ((middle : Str) × (value ≡ text_of initial ++ (middle ++ text_of final)))
unfolding fits
fits_iff initial final value = (split, λ (middle, e). rw e (joined middle))
  where
    i : Str
    i = text_of initial

    split :
        fits initial final value ≡ true → (middle : Str) × (value ≡ i ++ (middle ++ text_of final))
    split h =
        let front : value ≡ i ++ drop (length i) value =
          (starts_with_iff i value).0 (ground arith) in
        let (middle, back) =
          (ends_with_iff (text_of final) (drop (length i) value)).0 (ground arith) in
        (middle, front ∙ ap (◌++◌ i) back)

    joined : (middle : Str) → fits initial final (i ++ (middle ++ text_of final)) ≡ true
    joined middle =
        let rest = middle ++ text_of final in
        let front : starts_with i (i ++ rest) ≡ true =
          (starts_with_iff i (i ++ rest)).1 (ap (◌++◌ i) (sym (drop-append i rest))) in
        rw (front, drop-append i rest) ((ends_with_iff (text_of final) rest).1 (middle, refl))

-- The class of the bug: where the first intermediate value occurs further from the start of the
-- value than it is long, and a final value follows, the search goes on in front of the value.
pub intermediate_before_start :
    (needle final value : Str) (start : ℕ)
    → strstr value needle ≡ some start
    → length needle < start
    → substring_matches_str none (some (needle ∷ [])) (some final) value ≡ none
unfolding substring_matches_str find_from
intermediate_before_start needle final value start e h = ground arith

-- Whatever the first character of the text is, the parser takes it for the opening bracket.
pub filter_parse_first : (c d : ℕ) (s : Str) → filter_parse (c ∷ s) ≡ filter_parse (d ∷ s)
unfolding filter_parse
filter_parse_first c d s = refl
