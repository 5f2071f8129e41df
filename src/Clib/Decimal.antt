-- ===== src/Clib/Decimal.antt =====
-- Decimal numbers: the conversion %ld of snprintf, and strtoll with base 10.
pub mod RoundTrip
use tpaf.Prelude.{
  ℕ, zero, suc, ◌+◌, ◌-◌, ◌*◌, ◌/◌, ◌%◌, ◌^◌, ◌≤◌, ◌<◌, ◌≡◌, refl, ◌∙◌, Bool, true, false, ◌||◌,
  ◌⊎◌, inl, inr, Option, none, some, List, [], ◌∷◌, ◌++◌, append_assoc, arith, if◌then◌else◌, ltb,
  leb, ◌==◌, Bool-cases, ltb→lt,
}
use tpaf.Prelude.Int.{ℤ, pos, negsuc, IsInt64}
use tpaf.Clib.Str.{Str, is_space, is_digit}

-- The decimal digits of `n`, with fuel: `suc n` rounds are enough.
print_digits : ℕ → ℕ → Str
print_digits zero n = []
print_digits (suc fuel) n =
    let rest = print_digits fuel (n / 10) in
    if ltb n 10 then (b'0' + n) ∷ [] else rest ++ (b'0' + n % 10) ∷ []

print_nat : ℕ → Str
unfolding print_digits
print_nat n = print_digits (suc n) n

-- snprintf(s, 64, "%ld", value).
unfoldable pub print_int64 : ℤ → Str
unfolding print_nat
print_int64 (pos n) = print_nat n
print_int64 (negsuc n) = b'-' ∷ print_nat (suc n)

-- The value of the leading digits, onto `acc`, and what follows them.
read_digits : ℕ → Str → ℕ × Str
read_digits acc [] = (acc, [])
read_digits acc (c ∷ s) =
    let rest = read_digits (acc * 10 + (c - b'0')) s in if is_digit c then rest else (acc, c ∷ s)

skip_spaces : Str → Str
unfolding is_space
skip_spaces [] = []
skip_spaces (c ∷ s) = if is_space c then skip_spaces s else c ∷ s

-- A value out of range is replaced by the nearest one in range.
saturate : Bool → ℕ → ℤ
saturate false n = if ltb n (2 ^ 63) then pos n else pos (2 ^ 63 - 1)
saturate true zero = pos 0
saturate true (suc n) = if ltb n (2 ^ 63) then negsuc n else negsuc (2 ^ 63 - 1)

-- The number at the front of `s`; with no digit there the value is 0 and `*endptr` is `whole`.
number : Str → Bool → Str → ℤ × Str
unfolding read_digits saturate
number whole negative [] = (pos 0, whole)
number whole negative (c ∷ s) =
    let (n, rest) = read_digits 0 (c ∷ s) in
    if is_digit c then (saturate negative n, rest) else (pos 0, whole)

signed : Str → Str → ℤ × Str
unfolding number
signed whole [] = (pos 0, whole)
signed whole (c ∷ s) =
    if c == b'-'
    then number whole true s
    else if c == b'+'
    then number whole false s
    else number whole false (c ∷ s)

-- strtoll(s, &endptr, 10): the value, and the string at `endptr`.
unfoldable pub strtoll : Str → ℤ × Str
unfolding skip_spaces signed
strtoll s = signed s (skip_spaces s)
