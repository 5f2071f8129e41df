-- ===== src/Sd/Filter/Steps.antt =====
-- src/sd/filter.c: the steps of the parser that read a character, a string or a number end within
-- their fuel.
use tpaf.Prelude.{
  ℕ, suc, ◌≤◌, ◌≡◌, refl, Bool, true, false, Option, none, some, [], ◌∷◌, ◌++◌, arith, length,
}
use tpaf.Prelude.Int.{ℤ, IsInt64}
use tpaf.Clib.Str.{Str}
use tpaf.Clib.Decimal.{strtoll}
use tpaf.Clib.Decimal.RoundTrip.{strtoll-IsInt64}
use tpaf.Sd.Filter.Parse.{
  Parsed, ok, failed, out_of_fuel, then_ok, or_fail, input_expect, parse_str_loop, parse_str,
  int_of, parse_int,
}

-- The fuel was enough; a value satisfies `P`, and leaves an input of length `n` at most.
abbrev pub Within : {A : Type 0} → ℕ → (A → Type 0) → Parsed A → Type 0
Within n P (ok a input) = P a × (length input ≤ n)
Within n P failed = Unit {0}
Within n P out_of_fuel = ⊥

pub Within-then_ok :
    {A B : Type 0} (n m : ℕ) (P : A → Type 0) (Q : B → Type 0) (r : Parsed A)
    (f : A → Str → Parsed B)
    → Within n P r
    → ((a : A) (input : Str) → P a → length input ≤ n → Within m Q (f a input))
    → Within m Q (then_ok r f)
Within-then_ok n m P Q (ok a input) f h k = k a input h.0 h.1
Within-then_ok n m P Q failed f h k = tt
Within-then_ok n m P Q out_of_fuel f h k = elim h [ ]

abbrev pub Any : {A : Type 0} → A → Type 0
Any a = Unit {0}

pub input_expect-Within :
    (input : Str) (c n : ℕ)
    → length input ≤ suc n
    → Within n (Any {A = Unit {0}}) (input_expect input c)
unfolding input_expect
input_expect-Within [] c n h = tt
input_expect-Within (d ∷ input) c n h = (tt, omega arith)

pub parse_str_loop-Within :
    (escaped : Bool) (result input : Str)
    → Within (length input) (Any {A = Str}) (or_fail (parse_str_loop escaped result input))
unfolding parse_str_loop
parse_str_loop-Within escaped result [] = tt
parse_str_loop-Within true result (c ∷ input) =
    ground (arith, parse_str_loop-Within false (result ++ c ∷ []) input)
parse_str_loop-Within false result (c ∷ input) = ground (
  arith,
  parse_str_loop-Within true result input,
  parse_str_loop-Within false (result ++ c ∷ []) input,
)

pub parse_str-Within : (input : Str) → Within (length input) (Any {A = Str}) (parse_str input)
unfolding parse_str
parse_str-Within input = parse_str_loop-Within false [] input

pub int_of-IsInt64 : (s : Str) (z : ℤ) → int_of s ≡ some z → IsInt64 z
unfolding int_of
int_of-IsInt64 [] z e = cc
int_of-IsInt64 (c ∷ s) z e =
    let same : (strtoll (c ∷ s)).0 ≡ z = ground arith in rw same at (strtoll-IsInt64 (c ∷ s))

pub int_result-Within :
    (r : Option ℤ) (input : Str) (n : ℕ)
    → ((z : ℤ) → r ≡ some z → IsInt64 z)
    → length input ≤ n
    → Within n IsInt64 (elim r [ none ↦ failed | some value ↦ ok value input ])
int_result-Within none input n h k = tt
int_result-Within (some z) input n h k = (h z refl, k)

pub parse_int-Within : (input : Str) → Within (length input) IsInt64 (parse_int input)
unfolding parse_int
parse_int-Within input =
    Within-then_ok (length input) (length input) (Any {A = Str}) IsInt64 (parse_str input) _
      (parse_str-Within input)
      λ s input' _ h. int_result-Within (int_of s) input' (length input) (int_of-IsInt64 s) h

pub Within-mono :
    {A : Type 0} (n m : ℕ) (P : A → Type 0) (r : Parsed A) → n ≤ m → Within n P r → Within m P r
Within-mono n m P (ok a input) h w = (w.0, omega arith)
Within-mono n m P failed h w = tt
Within-mono n m P out_of_fuel h w = w
