-- ===== src/Util/Sequence.antt =====
-- Lists as the clients of src/util/plist.c see them: position, removal by position, and the loop
-- that a callback may stop. Plist/Refinement shows that plist.c implements these.
use tpaf.Prelude.{
  ℕ, zero, suc, ◌+◌, ◌<◌, ◌≡◌, Bool, true, false, Option, none, some, List, [], ◌∷◌, arith,
  if◌then◌else◌, length, get_elem?,
}
use mathlib.Core.Option

module _ {ℓ} {A : Type ℓ} where
  -- The first position of an element that passes the test; `none` stands for -1.
  unfoldable pub index_of : (A → Bool) → List A → Option ℕ
  index_of test [] = none
  index_of test (x ∷ xs) = if test x then some 0 else Option.map suc (index_of test xs)

  unfoldable pub delete_at : ℕ → List A → List A
  delete_at i [] = []
  delete_at zero (x ∷ xs) = xs
  delete_at (suc i) (x ∷ xs) = x ∷ delete_at i xs

  -- The callback returns whether to go on, and the new value of what `cb_data` points to.
  unfoldable pub foreach {κ} : {S : Type κ} → (A → S → Bool × S) → List A → S → S
  foreach cb [] s = s
  foreach cb (x ∷ xs) s =
      let (continue, s') = cb x s in elim continue [ true ↦ foreach cb xs s' | false ↦ s' ]

  pub index_of-lt-length :
      (test : A → Bool) (xs : List A) (i : ℕ) → index_of test xs ≡ some i → i < length xs
  unfolding index_of
  index_of-lt-length test [] i e = ground arith
  index_of-lt-length test (x ∷ xs) zero e = omega arith
  index_of-lt-length test (x ∷ xs) (suc i) e = ground (arith, index_of-lt-length test xs i)

  pub length-delete_at :
      (i : ℕ) (xs : List A) → i < length xs → length (delete_at i xs) + 1 ≡ length xs
  unfolding delete_at
  length-delete_at i [] h = absurd (omega arith)
  length-delete_at zero (x ∷ xs) h = omega arith
  length-delete_at (suc i) (x ∷ xs) h = omega (arith, length-delete_at i xs)

  pub get_elem?-delete_at :
      (i j : ℕ) (xs : List A)
      → get_elem? (delete_at i xs) j ≡ (elim (Prim.Native.Nat.compare j i) [
        | Prim.Native.Nat.Ordering.lt ↦ get_elem? xs j
        | _ ↦ get_elem? xs (suc j)
      ])
  unfolding delete_at
  get_elem?-delete_at i j [] = ground arith
  get_elem?-delete_at zero zero (x ∷ xs) = ground arith
  get_elem?-delete_at zero (suc j) (x ∷ xs) = ground arith
  get_elem?-delete_at (suc i) zero (x ∷ xs) = ground arith
  get_elem?-delete_at (suc i) (suc j) (x ∷ xs) = ground (arith, get_elem?-delete_at i j xs)
