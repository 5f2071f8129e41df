-- ===== src/Sd/Props/Laws.antt =====
-- What src/sd/props.c promises of a multi-map of properties.
use tpaf.Prelude.{
  ℕ, zero, suc, ◌+◌, ◌≤◌, ◌<◌, ◌≡◌, ◌≢◌, ◌↔◌, refl, ap, sym, ◌⊎◌, inl, inr, Bool, true, false,
  Option, none, some, List, [], ◌∷◌, ◌++◌, arith, if◌then◌else◌, ltb, ltb→lt, length, length-append,
  take, Bool-cases, append_assoc, append-nil,
}
use tpaf.Clib.Str.{Str, str_eq, str_eq_iff, str_eq_refl}
use tpaf.Sd.Pvalue
use tpaf.Sd.Pvalue.{Pvalue}
use tpaf.Sd.Props.{
  Props, add, has_pair, all_paired, equal, has, clone_loop, clone, get_loop, get, get_one, del_one,
}

-- The values of a name, in the order in which they were added.
unfoldable pub values_of : Props → Str → List Pvalue
values_of [] n = []
values_of ((name, value) ∷ p) n =
    let rest = values_of p n in if str_eq name n then value ∷ rest else rest

clone_loop-append : (copy p : Props) → clone_loop copy p ≡ copy ++ p
unfolding clone_loop add
clone_loop-append copy [] = sym (append-nil copy)
clone_loop-append copy ((name, value) ∷ p) =
    rw (Pvalue.clone-eq value, clone_loop-append (copy ++ (name, value) ∷ []) p)
      (append_assoc copy ((name, value) ∷ []) p)

pub clone-eq : (p : Props) → clone p ≡ p
unfolding clone
clone-eq p = clone_loop-append [] p

-- The head and the tail of a list, as values.
abbrev pub first : List Pvalue → Option Pvalue
first [] = none
first (v ∷ vs) = some v

abbrev pub rest_of : List Pvalue → List Pvalue
rest_of [] = []
rest_of (v ∷ vs) = vs

abbrev pub is_some : Option Pvalue → Bool
is_some none = false
is_some (some v) = true

get_one-first : (p : Props) (n : Str) → get_one p n ≡ first (values_of p n)
unfolding get_one values_of
get_one-first [] n = refl
get_one-first ((name, value) ∷ p) n = ground (arith, get_one-first p n)

has-first : (p : Props) (n : Str) → has p n ≡ is_some (first (values_of p n))
unfolding has values_of
has-first [] n = refl
has-first ((name, value) ∷ p) n = ground (arith, has-first p n)

take-append-le : (k : ℕ) (xs ys : List Pvalue) → k ≤ length xs → take k (xs ++ ys) ≡ take k xs
take-append-le zero xs ys h = refl
take-append-le (suc k) [] ys h = absurd (omega arith)
take-append-le (suc k) (x ∷ xs) ys h = ap (◌∷◌ x) (take-append-le k xs ys (omega arith))

take-snoc :
    (k : ℕ) (xs : List Pvalue) (y : Pvalue)
    → length xs < k
    → take k xs ++ y ∷ [] ≡ take k (xs ++ y ∷ [])
take-snoc zero xs y h = absurd (omega arith)
take-snoc (suc zero) [] y h = refl
take-snoc (suc (suc k)) [] y h = refl
take-snoc (suc k) (x ∷ xs) y h = ap (◌∷◌ x) (take-snoc k xs y (omega arith))

get_loop-values_of :
    (capacity : ℕ) (n : Str) (seen : List Pvalue) (p : Props)
    → get_loop capacity n (take capacity seen, length seen) p
      ≡ (take capacity (seen ++ values_of p n), length (seen ++ values_of p n))
unfolding get_loop values_of
get_loop-values_of capacity n seen [] = rw append-nil
get_loop-values_of capacity n seen ((name, value) ∷ p) = elim (Bool-cases (str_eq name n)) [
  | inl hit ↦
      let ih = get_loop-values_of capacity n (seen ++ value ∷ []) p in
      let e = append_assoc seen (value ∷ []) (values_of p n) in
      let len_eq : length (seen ++ value ∷ []) ≡ length seen + 1 =
        omega (arith, length-append seen (value ∷ [])) in
      rw hit (elim (Bool-cases (ltb (length seen) capacity)) [
        | inl room ↦ rw (room, take-snoc capacity seen value (ltb→lt _ _ room), ← len_eq, ← e) ih
        | inr full ↦
            rw (full, ← take-append-le capacity seen (value ∷ []) (ground arith), ← len_eq, ← e) ih
      ])
  | inr miss ↦ rw miss (get_loop-values_of capacity n seen p)
]

-- `props_get` writes the first `capacity` values of the name, and returns how many there are in all.
pub get-values_of :
    (p : Props) (n : Str) (capacity : ℕ)
    → get p n capacity ≡ (take capacity (values_of p n), length (values_of p n))
unfolding get
get-values_of p n zero = get_loop-values_of zero n [] p
get-values_of p n (suc capacity) = get_loop-values_of (suc capacity) n [] p

-- `props_add` puts the value behind the other values of its name.
pub values_of-add :
    (p : Props) (m n : Str) (v : Pvalue)
    → values_of (add p m v) n ≡ (if str_eq m n then values_of p n ++ v ∷ [] else values_of p n)
unfolding values_of add
values_of-add [] m n v = ground (arith, Pvalue.clone-eq v)
values_of-add ((name, value) ∷ p) m n v = ground (arith, values_of-add p m n v)

-- `props_del_one` fails exactly for a name with no value; else it removes the value that
-- `props_get_one` returns, and leaves the values of every other name.
pub del_one-values_of :
    (p : Props) (m : Str)
    → ((has p m ≡ false) × (del_one p m ≡ none))
      ⊎ ((q : Props) × (has p m ≡ true)
          × (del_one p m ≡ some q)
          × ((n : Str)
              → values_of q n ≡ (if str_eq m n then rest_of (values_of p n) else values_of p n)))
unfolding values_of del_one has
del_one-values_of [] m = inl (refl, refl)
del_one-values_of ((name, value) ∷ p) m = elim (Bool-cases (str_eq name m)) [
  | inl hit ↦ rw hit (inr (p, refl, refl, λ n. ground (arith, str_eq_iff name m)))
  | inr miss ↦ rw miss (elim (del_one-values_of p m) [
    | inl (a, b) ↦ inl (a, rw b)
    | inr (q, a, b, c) ↦ inr (
      (name, value) ∷ q,
      a,
      rw b,
      λ n. ground (arith, c n, str_eq_iff name m, str_eq_iff name n, str_eq_iff m n),
    )
  ])
]

-- Every pair of the first list is a pair of the second.
abbrev pub AllIn : Props → Props → Type 0
AllIn [] b = Unit {0}
AllIn ((name, value) ∷ a) b = (has_pair b name value ≡ true) × AllIn a b

all_paired_iff : (b a : Props) → (all_paired b a ≡ true) ↔ AllIn a b
unfolding all_paired
all_paired_iff b [] = (λ e. tt, λ e. refl)
all_paired_iff b ((name, value) ∷ a) = ground (arith, all_paired_iff b a)

has_pair_self :
    (b : Props) (name : Str) (value : Pvalue) → has_pair ((name, value) ∷ b) name value ≡ true
unfolding has_pair
has_pair_self b name value = rw (str_eq_refl name, (Pvalue.equal_iff value value).1 refl)

has_pair-cons :
    (b : Props) (m name : Str) (w value : Pvalue)
    → has_pair b name value ≡ true
    → has_pair ((m, w) ∷ b) name value ≡ true
unfolding has_pair
has_pair-cons b m name w value h = ground arith

AllIn-cons : (a b : Props) (m : Str) (w : Pvalue) → AllIn a b → AllIn a ((m, w) ∷ b)
AllIn-cons [] b m w h = tt
AllIn-cons ((name, value) ∷ a) b m w h =
    (has_pair-cons b m name w value h.0, AllIn-cons a b m w h.1)

AllIn-refl : (a : Props) → AllIn a a
AllIn-refl [] = tt
AllIn-refl ((name, value) ∷ a) =
    (has_pair_self a name value, AllIn-cons a a name value (AllIn-refl a))

-- `props_equal` accepts exactly two maps of one size of which the second has every pair of the first.
pub equal-AllIn : (a b : Props) → (equal a b ≡ true) ↔ ((length a ≡ length b) × AllIn a b)
unfolding equal
equal-AllIn a b = ground (arith, all_paired_iff b a)

pub equal_refl : (a : Props) → equal a a ≡ true
equal_refl a = (equal-AllIn a a).1 (refl, AllIn-refl a)

-- `props_equal` does not count: with one pair twice on its left, and another value of the name on
-- its right, it accepts two maps that differ, and that it rejects the other way round.
pub equal_asymmetric :
    (n : Str) (v w : Pvalue)
    → v ≢ w
    → (equal ((n, v) ∷ (n, v) ∷ []) ((n, v) ∷ (n, w) ∷ []) ≡ true)
      × (equal ((n, v) ∷ (n, w) ∷ []) ((n, v) ∷ (n, v) ∷ []) ≡ false)
unfolding equal all_paired has_pair
equal_asymmetric n v w h = ground (arith, str_eq_refl n, Pvalue.equal_iff v v, Pvalue.equal_iff v w)
