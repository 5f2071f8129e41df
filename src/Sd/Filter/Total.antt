-- ===== src/Sd/Filter/Total.antt =====
-- src/sd/filter.c: the parser always ends, and what it returns has a text.
mod Parts
use tpaf.Prelude.{
  ℕ, zero, suc, ◌+◌, ◌*◌, ◌≤◌, ◌<◌, ◌≡◌, ◌≢◌, ◌⊎◌, refl, Bool, true, false, List, [], ◌∷◌, arith,
  if◌then◌else◌, ◌==◌, length, Bool-cases, inl, inr,
}
use tpaf.Clib.Str.{Str}
use tpaf.Sd.Filter.{Filter, Filters, negation, composite, nil, cons, CompositeOp, and, or}
use tpaf.Sd.Filter.Print.{begin_expr, end_expr, not_char, str}
use tpaf.Sd.Filter.Parse.{
  Parsed, ok, failed, out_of_fuel, input_expect, input_skip, parse_simple, append_operand, has_two,
  parse, parse_not, composite_loop, finish, filter_parse,
}
use tpaf.Sd.Filter.Writable.{IsWritable, AllWritable}
use tpaf.Sd.Filter.RoundTrip.{filter_parse-str}
use tpaf.Sd.Filter.Steps.{Within, Within-then_ok, Within-mono, Any, input_expect-Within}
use Parts.{parse_simple-Within}

AllWritable-append :
    (fs : Filters) (f : Filter) → AllWritable fs → IsWritable f → AllWritable (append_operand fs f)
unfolding append_operand
AllWritable-append nil f h w = (w, tt)
AllWritable-append (cons g fs) f h w = (h.0, AllWritable-append fs f h.1 w)

composite_end-Within :
    (op : CompositeOp) (fs : Filters) (input : Str) (n : ℕ)
    → AllWritable fs
    → length input ≤ n
    → Within n IsWritable (if has_two fs then ok (composite op fs) input else failed)
composite_end-Within op fs input n h k = elim (Bool-cases (has_two fs)) [
  | inl two ↦ rw two ((two, h), k)
  | inr few ↦ rw few tt
]

abbrev Skipped : Unit {0} → Type 0
Skipped = Any

mutual
  unfolding parse

  parse-Within :
      (fuel : ℕ) (input : Str)
      → 2 * length input < fuel
      → Within (length input) IsWritable (parse fuel input)
  parse-Within zero input h = absurd (omega arith)
  parse-Within (suc fuel) [] h = tt
  parse-Within (suc fuel) (c ∷ input) h = elim (Bool-cases (c == b'&')) [
    | inl conj ↦
        rw (conj, Within, parse)
          (Within-mono (length input) _ IsWritable _ (omega arith)
            (composite_loop-Within fuel and nil input tt (omega arith)))
    | inr not_conj ↦ elim (Bool-cases (c == b'|')) [
      | inl disj ↦
          rw (not_conj, disj, Within, parse)
            (Within-mono (length input) _ IsWritable _ (omega arith)
              (composite_loop-Within fuel or nil input tt (omega arith)))
      | inr not_disj ↦ elim (Bool-cases (c == not_char)) [
        | inl neg ↦
            rw (not_conj, not_disj, neg, Within, parse)
              (Within-mono (length input) _ IsWritable _ (omega arith)
                (parse_not-Within fuel c input (omega arith)))
        | inr other ↦
            rw (not_conj, not_disj, other, Within, parse)
              (parse_simple-Within (c ∷ input) _ (omega arith))
      ]
    ]
  ]

  parse_not-Within :
      (fuel c : ℕ) (input : Str)
      → 2 * length input + 2 ≤ fuel
      → Within (length input) IsWritable (parse_not fuel (c ∷ input))
  parse_not-Within zero c input h = absurd (omega arith)
  parse_not-Within (suc fuel) c input h =
      let n = length input in
      Within-then_ok n n Skipped IsWritable (input_expect (c ∷ input) not_char) _
        (input_expect-Within (c ∷ input) not_char n (omega arith))
        λ _ input₁ _ h₁.
          Within-then_ok n n Skipped IsWritable (input_expect input₁ begin_expr) _
            (input_expect-Within input₁ begin_expr n (omega arith))
            λ _ input₂ _ h₂.
              Within-then_ok n n IsWritable IsWritable (parse fuel input₂) _
                (Within-mono (length input₂) n IsWritable _ h₂
                  (parse-Within fuel input₂ (omega arith)))
                λ operand input₃ w h₃.
                  Within-then_ok n n Skipped IsWritable (input_expect input₃ end_expr)
                    (λ _ input₄. ok (negation operand) input₄)
                    (input_expect-Within input₃ end_expr n (omega arith)) λ _ input₄ _ h₄. (w, h₄)

  composite_loop-Within :
      (fuel : ℕ) (op : CompositeOp) (fs : Filters) (input : Str)
      → AllWritable fs
      → 2 * length input < fuel
      → Within (length input) IsWritable (composite_loop fuel op fs input)
  composite_loop-Within zero op fs input w h = absurd (omega arith)
  composite_loop-Within (suc fuel) op fs [] w h = tt
  composite_loop-Within (suc fuel) op fs (c ∷ input) w h = elim (Bool-cases (c == begin_expr)) [
    | inl opens ↦
        let n = length input in
        rw (opens, Within, composite_loop)
          (Within-then_ok n (suc n) IsWritable IsWritable (parse fuel input) _
            (parse-Within fuel input (omega arith))
            λ operand input₁ w₁ h₁.
              Within-then_ok n (suc n) Skipped IsWritable (input_expect input₁ end_expr) _
                (input_expect-Within input₁ end_expr n (omega arith))
                λ _ input₂ _ h₂. Within-mono (length input₂) (suc n) IsWritable _ (omega arith) (
                  composite_loop-Within fuel op (append_operand fs operand) input₂
                    (AllWritable-append fs operand w w₁) (omega arith)))
    | inr not_open ↦ elim (Bool-cases (c == end_expr)) [
      | inl close ↦
          rw (not_open, close, Within, composite_loop)
            (composite_end-Within op fs (c ∷ input) _ w (omega arith))
      | inr other ↦ rw (not_open, other, Within, composite_loop) tt
    ]
  ]

finish-Within : (f : Filter) (input : Str) → IsWritable f → Within 0 IsWritable (finish f input)
unfolding finish
finish-Within f [] w = (w, omega arith)
finish-Within f (c ∷ input) w = tt

filter_parse-Within : (s : Str) → Within 0 IsWritable (filter_parse s)
unfolding filter_parse
filter_parse-Within s =
    let n = length s in
    Within-then_ok n 0 Skipped IsWritable (input_expect s begin_expr) _
      (input_expect-Within s begin_expr n (omega arith))
      λ _ input₁ _ h₁.
        Within-then_ok n 0 IsWritable IsWritable (parse (2 * n + 1) input₁) _
          (Within-mono (length input₁) n IsWritable _ h₁
            (parse-Within (2 * n + 1) input₁ (omega arith)))
          λ f input₂ w h₂.
            Within-then_ok n 0 Skipped IsWritable (input_expect input₂ end_expr) _
              (input_expect-Within input₂ end_expr n (omega arith))
              λ _ input₃ _ h₃. finish-Within f input₃ w

result_cases :
    (s : Str) (r : Parsed Filter)
    → filter_parse s ≡ r
    → Within 0 IsWritable r
    → (filter_parse s ≡ failed)
      ⊎ ((f : Filter) × (filter_parse s ≡ ok f [])
          × IsWritable f
          × (filter_parse (str f) ≡ ok f []))
result_cases s (ok f []) e (w, h) = inr (f, e, w, filter_parse-str f w)
result_cases s (ok f (c ∷ input)) e (w, h) = absurd (omega arith)
result_cases s failed e h = inl e
result_cases s out_of_fuel e h = elim h [ ]

-- On every text `filter_parse` ends: it returns NULL, or a filter, with the whole text read, whose own
-- text parses to that filter again.
pub filter_parse_total :
    (s : Str)
    → (filter_parse s ≡ failed)
      ⊎ ((f : Filter) × (filter_parse s ≡ ok f [])
          × IsWritable f
          × (filter_parse (str f) ≡ ok f []))
filter_parse_total s = result_cases s (filter_parse s) refl (filter_parse-Within s)
