-- ===== src/Clib/Decimal/RoundTrip.antt =====
-- strtoll reads back what the conversion %ld printed.
use tpaf.Prelude.{
  ℕ, zero, suc, ◌+◌, ◌-◌, ◌*◌, ◌/◌, ◌%◌, ◌^◌, ◌<◌, ◌≡◌, refl, ◌∙◌, ap, Bool, true, false, [], ◌∷◌,
  ◌++◌, append_assoc, append-nil, arith, ltb, ◌==◌, Bool-cases, ltb→lt, lt→ltb, inl, inr,
}
use tpaf.Prelude.Int.{ℤ, pos, negsuc, IsInt64}
use tpaf.Clib.Str.{Str, is_space, is_digit}
use tpaf.Clib.Decimal.{
  print_digits, print_nat, print_int64, read_digits, skip_spaces, saturate, number, signed, strtoll,
}

read_digits-print :
    (fuel n : ℕ) (s : Str) → n < fuel → read_digits 0 (print_digits fuel n ++ s) ≡ read_digits n s
unfolding print_digits read_digits
read_digits-print zero n s h = absurd (omega arith)
read_digits-print (suc fuel) n s h = elim (Bool-cases (ltb n 10)) [
  | inl small ↦ rw small (ground arith)
  | inr large ↦
      rw
        (
          large,
          append_assoc (print_digits fuel (n / 10)) ((b'0' + n % 10) ∷ []) s,
          read_digits-print fuel (n / 10) ((b'0' + n % 10) ∷ s) (ground arith),
        )
        (step)
]
  where
    step : read_digits (n / 10) ((b'0' + n % 10) ∷ s) ≡ read_digits n s
    step =
        let digit : is_digit (b'0' + n % 10) ≡ true = ground arith in
        let e : n / 10 * 10 + (b'0' + n % 10 - b'0') ≡ n = omega arith in rw (digit, e)

-- A printed number begins with a digit.
head-print :
    (fuel n : ℕ) → (c : ℕ) × (s : Str) × (print_digits (suc fuel) n ≡ c ∷ s) × (is_digit c ≡ true)
unfolding print_digits
head-print zero n = elim (Bool-cases (ltb n 10)) [
  | inl small ↦ (b'0' + n, [], rw small, ground arith)
  | inr large ↦ (b'0' + n % 10, [], rw large, ground arith)
]
head-print (suc fuel) n = elim (Bool-cases (ltb n 10)) [
  | inl small ↦ (b'0' + n, [], rw small, ground arith)
  | inr large ↦
      let (c, s, e, d) = head-print fuel (n / 10) in
      (c, s ++ (b'0' + n % 10) ∷ [], rw large (ap (λ (t : Str). t ++ (b'0' + n % 10) ∷ []) e), d)
]

number-digits :
    (whole : Str) (negative : Bool) (n c : ℕ) (s : Str)
    → is_digit c ≡ true
    → read_digits 0 (c ∷ s) ≡ (n, [])
    → number whole negative (c ∷ s) ≡ (saturate negative n, [])
unfolding number
number-digits whole negative n c s d e = ground arith

read_digits-print_nat : (n : ℕ) → read_digits 0 (print_nat n) ≡ (n, [])
unfolding print_nat read_digits
read_digits-print_nat n =
    rw (append-nil (print_digits (suc n) n)) at (read_digits-print (suc n) n [] (omega arith))

number-print :
    (whole : Str) (negative : Bool) (n : ℕ)
    → number whole negative (print_nat n) ≡ (saturate negative n, [])
unfolding print_nat
number-print whole negative n =
    let (c, s, e, d) = head-print n n in
    rw e (number-digits whole negative n c s d (rw e at (read_digits-print_nat n)))

skip_spaces-digit : (c : ℕ) (s : Str) → is_digit c ≡ true → skip_spaces (c ∷ s) ≡ c ∷ s
unfolding skip_spaces
skip_spaces-digit c s d = ground arith

signed-digit :
    (whole : Str) (c : ℕ) (s : Str)
    → is_digit c ≡ true
    → signed whole (c ∷ s) ≡ number whole false (c ∷ s)
unfolding signed
signed-digit whole c s d = ground arith

strtoll-print_nat : (n : ℕ) → strtoll (print_nat n) ≡ (saturate false n, [])
unfolding strtoll print_nat
strtoll-print_nat n =
    let (c, s, e, d) = head-print n n in
    rw e (
      rw (skip_spaces-digit c s d, signed-digit (c ∷ s) c s d)
        (number-digits (c ∷ s) false n c s d (rw e at (read_digits-print_nat n))))

strtoll-minus : (s : Str) → strtoll (b'-' ∷ s) ≡ number (b'-' ∷ s) true s
unfolding strtoll
strtoll-minus s = refl

-- Every `int64_t` is read back, with nothing left over.
pub strtoll-print_int64 : (z : ℤ) → IsInt64 z → strtoll (print_int64 z) ≡ (z, [])
unfolding print_int64 saturate
strtoll-print_int64 (pos n) h = strtoll-print_nat n ∙ rw (lt→ltb n (2 ^ 63) h)
strtoll-print_int64 (negsuc n) h =
    strtoll-minus (print_nat (suc n))
    ∙ number-print (b'-' ∷ print_nat (suc n)) true (suc n)
    ∙ rw (lt→ltb n (2 ^ 63) h)

-- A printed integer is not empty, and does not begin with a space.
pub head-print_int64 :
    (z : ℤ) → (c : ℕ) × (s : Str) × (print_int64 z ≡ c ∷ s) × (is_space c ≡ false)
unfolding print_int64 print_nat is_space
head-print_int64 (pos n) = let (c, s, e, d) = head-print n n in (c, s, e, ground arith)
head-print_int64 (negsuc n) = (b'-', print_nat (suc n), refl, refl)

saturate-IsInt64 : (negative : Bool) (n : ℕ) → IsInt64 (saturate negative n)
unfolding saturate
saturate-IsInt64 false n = elim (Bool-cases (ltb n (2 ^ 63))) [
  | inl low ↦ rw low (ltb→lt n (2 ^ 63) low)
  | inr high ↦ rw high (omega arith)
]
saturate-IsInt64 true zero = omega arith
saturate-IsInt64 true (suc n) = elim (Bool-cases (ltb n (2 ^ 63))) [
  | inl low ↦ rw low (ltb→lt n (2 ^ 63) low)
  | inr high ↦ rw high (omega arith)
]

number-IsInt64 : (whole : Str) (negative : Bool) (s : Str) → IsInt64 (number whole negative s).0
unfolding number
number-IsInt64 whole negative [] = omega arith
number-IsInt64 whole negative (c ∷ s) = elim (Bool-cases (is_digit c)) [
  | inl digit ↦ rw digit (saturate-IsInt64 negative _)
  | inr other ↦ rw other (omega arith)
]

signed-IsInt64 : (whole s : Str) → IsInt64 (signed whole s).0
unfolding signed
signed-IsInt64 whole [] = omega arith
signed-IsInt64 whole (c ∷ s) = elim (Bool-cases (c == b'-')) [
  | inl minus ↦ rw minus (number-IsInt64 whole true s)
  | inr rest ↦ elim (Bool-cases (c == b'+')) [
    | inl plus ↦ rw (rest, plus) (number-IsInt64 whole false s)
    | inr other ↦ rw (rest, other) (number-IsInt64 whole false (c ∷ s))
  ]
]

-- What strtoll returns is an `int64_t`.
pub strtoll-IsInt64 : (s : Str) → IsInt64 (strtoll s).0
unfolding strtoll
strtoll-IsInt64 s = signed-IsInt64 s (skip_spaces s)
