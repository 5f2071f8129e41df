-- ===== src/Proto/Lists/Removal.antt =====
-- Taking connections out of a list of src/proto/server.c.
use tpaf.Prelude.{
  ℕ, ◌≡◌, refl, Bool, true, false, not, Option, none, some, List, [], ◌∷◌, arith, ◌==◌, ==_iff,
  if◌then◌else◌, inl, inr, Bool-cases, Option-cases,
}
use mathlib.Core.Option
use tpaf.Util.Sequence
use tpaf.Proto.Lists.{index_of, remove}

unfoldable pub mem : List ℕ → ℕ → Bool
mem [] c = false
mem (x ∷ xs) c = if x == c then true else mem xs c

abbrev pub IsNodup : List ℕ → Type 0
IsNodup [] = Unit {0}
IsNodup (x ∷ xs) = (mem xs x ≡ false) × IsNodup xs

unfoldable pub select : (ℕ → Bool) → List ℕ → List ℕ
select test [] = []
select test (x ∷ xs) = if test x then x ∷ select test xs else select test xs

pub remove-cons :
    (x c : ℕ) (xs : List ℕ)
    → remove (x ∷ xs) c ≡ (if x == c then some xs else Option.map (◌∷◌ x) (remove xs c))
unfolding remove index_of Sequence.index_of Sequence.delete_at
remove-cons x c xs = elim (Option-cases (Sequence.index_of (λ d. d == c) xs)) [
  | inl missing ↦ ground arith
  | inr (i, at) ↦ ground arith
]

unfoldable pub remove_all : List ℕ → List ℕ → Option (List ℕ)
remove_all conns [] = some conns
remove_all conns (c ∷ expired) = elim (remove conns c) [
  | none ↦ none
  | some rest ↦ remove_all rest expired
]

pub mem-select :
    (test : ℕ → Bool) (xs : List ℕ) (c : ℕ)
    → mem (select test xs) c ≡ (if test c then mem xs c else false)
unfolding mem select
mem-select test [] c = ground arith
mem-select test (x ∷ xs) c = elim (Bool-cases (x == c)) [
  | inl hit ↦ rw ((==_iff x c).0 hit) (ground (arith, mem-select test xs c))
  | inr miss ↦ ground (arith, mem-select test xs c)
]

remove_all-cons :
    (x : ℕ) (xs expired : List ℕ)
    → mem expired x ≡ false
    → remove_all (x ∷ xs) expired ≡ Option.map (◌∷◌ x) (remove_all xs expired)
unfolding remove_all mem
remove_all-cons x xs [] h = refl
remove_all-cons x xs (c ∷ expired) h = elim (Option-cases (remove xs c)) [
  | inl missing ↦ ground (arith, remove-cons x c xs, ==_iff x c, ==_iff c x)
  | inr (rest, found) ↦
      ground (arith, remove-cons x c xs, ==_iff x c, ==_iff c x, remove_all-cons x rest expired)
]

-- Taking out of a list without repetitions those that pass a test leaves those that fail it.
pub remove_all-select :
    (test : ℕ → Bool) (xs : List ℕ)
    → IsNodup xs
    → remove_all xs (select test xs) ≡ some (select (λ c. not (test c)) xs)
unfolding remove_all select
remove_all-select test [] n = refl
remove_all-select test (x ∷ xs) n = elim (Bool-cases (test x)) [
  | inl hit ↦ ground (arith, remove-cons x x xs, ==_iff x x, remove_all-select test xs n.1)
  | inr miss ↦ ground (
    arith,
    remove_all-cons x xs (select test xs),
    mem-select test xs x,
    remove_all-select test xs n.1,
  )
]

pub select-IsNodup : (test : ℕ → Bool) (xs : List ℕ) → IsNodup xs → IsNodup (select test xs)
unfolding select
select-IsNodup test [] n = tt
select-IsNodup test (x ∷ xs) n = elim (Bool-cases (test x)) [
  | inl hit ↦ rw hit (ground (arith, mem-select test xs x, n.0), select-IsNodup test xs n.1)
  | inr miss ↦ rw miss (select-IsNodup test xs n.1)
]
