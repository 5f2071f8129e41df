-- ===== src/Sd/Pvalue.antt =====
-- src/sd/pvalue.c: a property value is an integer or a string.
use tpaf.Prelude.{◌≡◌, ◌↔◌, refl, Bool, true, false, Option, none, some, arith}
use tpaf.Prelude.Int.{ℤ, ◌==ℤ◌, ==ℤ_iff}
use tpaf.Clib.Str.{Str, str_eq, str_eq_iff}

pub data Pvalue : Type 0 where
  int64 : ℤ → Pvalue
  str : Str → Pvalue

abbrev pub is_int64 : Pvalue → Bool
is_int64 (int64 v) = true
is_int64 (str s) = false

abbrev pub is_str : Pvalue → Bool
is_str (int64 v) = false
is_str (str s) = true

-- `none` is the failed assertion.
abbrev pub get_int64 : Pvalue → Option ℤ
get_int64 (int64 v) = some v
get_int64 (str s) = none

abbrev pub get_str : Pvalue → Option Str
get_str (int64 v) = none
get_str (str s) = some s

unfoldable pub equal : Pvalue → Pvalue → Bool
equal (int64 v) (int64 w) = v ==ℤ w
equal (int64 v) (str t) = false
equal (str s) (int64 w) = false
equal (str s) (str t) = str_eq s t

unfoldable pub clone : Pvalue → Pvalue
clone (int64 v) = int64 v
clone (str s) = str s

-- `pvalue_equal` decides equality.
pub equal_iff : (a b : Pvalue) → (equal a b ≡ true) ↔ (a ≡ b)
unfolding equal
equal_iff (int64 v) (int64 w) = ground (arith, ==ℤ_iff v w)
equal_iff (int64 v) (str t) = ground arith
equal_iff (str s) (int64 w) = ground arith
equal_iff (str s) (str t) = ground (arith, str_eq_iff s t)

pub clone-eq : (a : Pvalue) → clone a ≡ a
unfolding clone
clone-eq (int64 v) = refl
clone-eq (str s) = refl
