-- ===== src/Sd/Filter/Total/Parts.antt =====
-- src/sd/filter.c: the parts of the parser end within their fuel, and build parts of filters that
-- have a text.
use tpaf.Prelude.{
  ℕ, zero, suc, ◌≤◌, ◌<◌, ◌≡◌, ◌≢◌, refl, true, false, Option, none, some, List, [], ◌∷◌, ◌++◌,
  arith, if◌then◌else◌, ◌==◌, length, Bool-cases, inl, inr,
}
use tpaf.Prelude.Int.{ℤ, IsInt64}
use tpaf.Clib.Str.{Str}
use tpaf.Clib.Decimal.{print_int64}
use tpaf.Sd.Filter.{comparison, CompareOp, equal, greater_than, less_than, or_empty}
use tpaf.Sd.Filter.Print.{any, compare_char}
use tpaf.Sd.Filter.Parse.{
  ok, failed, input_is_current, input_expect, input_skip, parse_str, is_empty, parse_int, non_empty,
  substring_loop, substring_or_present, parse_substring_and_present, parse_equal,
  parse_greater_and_less_than, parse_operator, parse_simple,
}
use tpaf.Sd.Filter.Writable.{IsText, AllText, IsTexts, IsNumber, IsWritable}
use tpaf.Sd.Filter.Steps.{
  Within, Within-then_ok, Any, input_expect-Within, parse_str-Within, parse_int-Within, Within-mono,
}

non_empty-IsText : (s : Str) → IsText (non_empty s)
non_empty-IsText [] = tt
non_empty-IsText (c ∷ s) = refl

AllText-append : (l : List Str) (s : Str) → AllText l → is_empty s ≡ false → AllText (l ++ s ∷ [])
AllText-append [] s h k = (k, tt)
AllText-append (t ∷ l) s h k = (h.0, AllText-append l s h.1 k)

IsTexts-append :
    (m : Option (List Str)) (s : Str)
    → IsTexts m
    → is_empty s ≡ false
    → IsTexts (some (or_empty m ++ s ∷ []))
IsTexts-append none s h k = (k, tt)
IsTexts-append (some []) s h k = elim h [ ]
IsTexts-append (some (t ∷ l)) s h k = AllText-append (t ∷ l) s h k

-- The values that the loop returns.
abbrev IsPattern : Option (List Str) × Option Str → Type 0
IsPattern r = IsTexts r.0 × IsText r.1

substring_next-Within :
    (fuel : ℕ) (m : Option (List Str)) (s : Str) (n : ℕ) (input : Str)
    → IsTexts m
    → length input ≤ n
    → ((m' : Option (List Str)) (rest : Str)
        → IsTexts m'
        → length rest < length input
        → Within (length rest) IsPattern (substring_loop fuel m' rest))
    → Within n IsPattern (elim (input_is_current input any) [
      | none ↦ failed
      | some true ↦ elim (is_empty s) [
        | true ↦ failed
        | false ↦ substring_loop fuel (some (or_empty m ++ s ∷ [])) (input_skip input)
      ]
      | some false ↦ ok (m, non_empty s) input
    ])
substring_next-Within fuel m s n [] t h rec = tt
substring_next-Within fuel m s n (c ∷ input) t h rec = elim (Bool-cases (c == any)) [
  | inl star ↦ rw star (elim (Bool-cases (is_empty s)) [
    | inl empty ↦ rw empty tt
    | inr text ↦ rw text (
        Within-mono (length input) n IsPattern _ (omega arith)
          (rec (some (or_empty m ++ s ∷ [])) input (IsTexts-append m s t text) (omega arith)))
  ])
  | inr other ↦ rw other ((t, non_empty-IsText s), h)
]

substring_loop-Within :
    (fuel : ℕ) (m : Option (List Str)) (input : Str)
    → IsTexts m
    → length input < fuel
    → Within (length input) IsPattern (substring_loop fuel m input)
unfolding substring_loop
substring_loop-Within zero m input t h = absurd (omega arith)
substring_loop-Within (suc fuel) m input t h =
    Within-then_ok (length input) (length input) (Any {A = Str}) IsPattern (parse_str input) _
      (parse_str-Within input)
      λ s input' _ k.
        substring_next-Within fuel m s (length input) input' t k
          (λ m' rest t' h'. substring_loop-Within fuel m' rest t' (omega arith))

substring_or_present-IsWritable :
    (key : Str) (initial : Option Str) (m : Option (List Str)) (final : Option Str)
    → is_empty key ≡ false
    → IsText initial
    → IsTexts m
    → IsText final
    → IsWritable (substring_or_present key initial m final)
unfolding substring_or_present
substring_or_present-IsWritable key none none none k i t f = k
substring_or_present-IsWritable key none none (some s) k i t f = (k, i, t, f, tt)
substring_or_present-IsWritable key none (some l) final k i t f = (k, i, t, f, tt)
substring_or_present-IsWritable key (some s) m final k i t f = (k, i, t, f, tt)

parse_substring_and_present-Within :
    (input key first : Str)
    → is_empty key ≡ false
    → Within (length input) IsWritable (parse_substring_and_present input key first)
unfolding parse_substring_and_present
parse_substring_and_present-Within input key first k =
    Within-then_ok (length input) (length input) IsPattern IsWritable
      (substring_loop (suc (length input)) none input) _
      (substring_loop-Within (suc (length input)) none input tt (omega arith))
      λ (m, final) input' p h. (
        substring_or_present-IsWritable key (non_empty first) m final k (non_empty-IsText first) p.0
            p.1,
        h,
      )

equal_next-Within :
    (key value : Str) (n : ℕ) (input : Str)
    → is_empty key ≡ false
    → length input ≤ n
    → Within n IsWritable (elim (input_is_current input any) [
      | none ↦ failed
      | some true ↦ parse_substring_and_present (input_skip input) key value
      | some false ↦ ok (comparison equal key value) input
    ])
equal_next-Within key value n [] k h = tt
equal_next-Within key value n (c ∷ input) k h = elim (Bool-cases (c == any)) [
  | inl star ↦ rw star (
      Within-mono (length input) n IsWritable _ (omega arith)
        (parse_substring_and_present-Within input key value k))
  | inr other ↦ rw other ((k, tt), h)
]

parse_equal-Within :
    (input key : Str) (n : ℕ)
    → is_empty key ≡ false
    → length input ≤ suc n
    → Within n IsWritable (parse_equal input key)
unfolding parse_equal
parse_equal-Within input key n k h =
    Within-then_ok n n (Any {A = Unit {0}}) IsWritable (input_expect input (compare_char equal)) _
      (input_expect-Within input _ n h)
      λ _ input₁ _ h₁.
        Within-then_ok n n (Any {A = Str}) IsWritable (parse_str input₁) _
          (Within-mono (length input₁) n (Any {A = Str}) (parse_str input₁) h₁
            (parse_str-Within input₁))
          λ value input₂ _ h₂. equal_next-Within key value n input₂ k h₂

parse_greater_and_less_than-Within :
    (input key : Str) (op : CompareOp) (n : ℕ)
    → is_empty key ≡ false
    → op ≢ equal
    → length input ≤ suc n
    → Within n IsWritable (parse_greater_and_less_than input key op)
unfolding parse_greater_and_less_than
parse_greater_and_less_than-Within input key op n k o h =
    Within-then_ok n n (Any {A = Unit {0}}) IsWritable (input_expect input (compare_char op)) _
      (input_expect-Within input _ n h)
      λ _ input₁ _ h₁.
        Within-then_ok n n IsInt64 IsWritable (parse_int input₁) _
          (Within-mono (length input₁) n IsInt64 (parse_int input₁) h₁ (parse_int-Within input₁))
          λ z input₂ range h₂. ((k, number op z o range), h₂)
  where
    number : (op : CompareOp) (z : ℤ) → op ≢ equal → IsInt64 z → IsNumber op (print_int64 z)
    number equal z o range = tt
    number greater_than z o range = (z, range, refl)
    number less_than z o range = (z, range, refl)

parse_operator-Within :
    (key input : Str) (n : ℕ)
    → is_empty key ≡ false
    → length input ≤ suc n
    → Within n IsWritable (parse_operator key input)
unfolding parse_operator
parse_operator-Within key [] n k h = tt
parse_operator-Within key (c ∷ input) n k h = elim (Bool-cases (c == b'=')) [
  | inl same ↦ rw same (parse_equal-Within (c ∷ input) key n k h)
  | inr not_same ↦ elim (Bool-cases (c == b'>')) [
    | inl above ↦
        rw (not_same, above)
          (parse_greater_and_less_than-Within (c ∷ input) key greater_than n k (λ e. cc) h)
    | inr not_above ↦ elim (Bool-cases (c == b'<')) [
      | inl below ↦
          rw (not_same, not_above, below)
            (parse_greater_and_less_than-Within (c ∷ input) key less_than n k (λ e. cc) h)
      | inr other ↦ rw (not_same, not_above, other) tt
    ]
  ]
]

pub parse_simple-Within :
    (input : Str) (n : ℕ) → length input ≤ suc n → Within n IsWritable (parse_simple input)
unfolding parse_simple
parse_simple-Within input n h =
    Within-then_ok (suc n) n (Any {A = Str}) IsWritable (parse_str input) _
      (Within-mono (length input) (suc n) (Any {A = Str}) (parse_str input) h
        (parse_str-Within input))
      λ key input' _ h'. key_next key input' h'
  where
    key_next :
        (key input' : Str)
        → length input' ≤ suc n
        → Within n IsWritable (if is_empty key then failed else parse_operator key input')
    key_next [] input' h' = tt
    key_next (c ∷ key) input' h' = parse_operator-Within (c ∷ key) input' n refl h'
