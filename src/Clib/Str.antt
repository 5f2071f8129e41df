-- ===== src/Clib/Str.antt =====
-- C strings: the bytes before the terminating NUL, so no byte of a string is 0.
use tpaf.Prelude.{
  ℕ, suc, ◌≡◌, ◌↔◌, refl, Bool, true, false, ◌&&◌, ◌||◌, Option, none, some, List, [], ◌∷◌, arith,
  ◌==◌, leb,
}
use mathlib.Core.Option

abbrev pub Str : Type 0
Str = List ℕ

-- strcmp(a, b) == 0.
unfoldable pub str_eq : Str → Str → Bool
str_eq [] [] = true
str_eq [] (d ∷ b) = false
str_eq (c ∷ a) [] = false
str_eq (c ∷ a) (d ∷ b) = c == d && str_eq a b

pub str_eq_iff : (a b : Str) → (str_eq a b ≡ true) ↔ (a ≡ b)
unfolding str_eq
str_eq_iff [] [] = ground arith
str_eq_iff [] (d ∷ b) = ground arith
str_eq_iff (c ∷ a) [] = ground arith
str_eq_iff (c ∷ a) (d ∷ b) = ground (arith, str_eq_iff a b)

pub str_eq_refl : (a : Str) → str_eq a a ≡ true
str_eq_refl a = (str_eq_iff a a).1 refl

-- strncmp(prefix, s, strlen(prefix)) == 0.
unfoldable pub starts_with : Str → Str → Bool
starts_with [] s = true
starts_with (c ∷ prefix) [] = false
starts_with (c ∷ prefix) (d ∷ s) = c == d && starts_with prefix s

-- strstr(s, needle): the offset of the first occurrence, `none` for NULL.
unfoldable pub strstr : Str → Str → Option ℕ
unfolding starts_with
strstr [] needle = elim (starts_with needle []) [ true ↦ some 0 | false ↦ none ]
strstr (c ∷ s) needle = elim (starts_with needle (c ∷ s)) [
  | true ↦ some 0
  | false ↦ Option.map suc (strstr s needle)
]

-- isspace in the C locale.
unfoldable pub is_space : ℕ → Bool
is_space c = c == 32 || (leb 9 c && leb c 13)

abbrev pub is_digit : ℕ → Bool
is_digit c = leb b'0' c && leb c b'9'
