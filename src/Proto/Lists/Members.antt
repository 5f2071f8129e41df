-- ===== src/Proto/Lists/Members.antt =====
-- Which connections are in a list of src/proto/server.c when one is taken out or put at the end.
use tpaf.Prelude.{
  ℕ, ◌≡◌, refl, true, false, some, none, List, [], ◌∷◌, ◌++◌, arith, ◌==◌, ==_iff, if◌then◌else◌,
  inl, inr, Bool-cases, Option-cases,
}
use tpaf.Proto.Lists.{remove, index_of}
use tpaf.Util.Sequence
use tpaf.Proto.Lists.Removal.{mem, IsNodup, remove-cons}

remove-nil : (c : ℕ) → remove [] c ≡ none
unfolding remove index_of Sequence.index_of
remove-nil c = refl

pub remove-mem :
    (xs : List ℕ) (c : ℕ) → mem xs c ≡ true → (rest : List ℕ) × (remove xs c ≡ some rest)
unfolding mem
remove-mem [] c m = absurd (ground arith)
remove-mem (x ∷ xs) c m = elim (Bool-cases (x == c)) [
  | inl hit ↦ (xs, ground (arith, remove-cons x c xs))
  | inr miss ↦
      let (rest, e) = remove-mem xs c (ground arith) in
      (x ∷ rest, ground (arith, remove-cons x c xs))
]

pub remove-missing : (xs : List ℕ) (c : ℕ) → mem xs c ≡ false → remove xs c ≡ none
unfolding mem
remove-missing [] c m = remove-nil c
remove-missing (x ∷ xs) c m = ground (arith, remove-cons x c xs, remove-missing xs c)

pub mem-remove :
    (xs rest : List ℕ) (c : ℕ)
    → IsNodup xs
    → remove xs c ≡ some rest
    → (d : ℕ) → mem rest d ≡ (if c == d then false else mem xs d)
unfolding mem
mem-remove [] rest c n e d = absurd (ground (arith, remove-nil c))
mem-remove (x ∷ xs) rest c n e d = elim (Bool-cases (x == c)) [
  | inl hit ↦ ground (arith, n.0, remove-cons x c xs, ==_iff x c, ==_iff x d, ==_iff c d)
  | inr miss ↦ elim (Option-cases (remove xs c)) [
    | inl missing ↦ absurd (ground (arith, remove-cons x c xs))
    | inr (rest', e') ↦ ground (
      arith,
      remove-cons x c xs,
      mem-remove xs rest' c n.1 e' d,
      ==_iff x c,
      ==_iff x d,
      ==_iff c d,
    )
  ]
]

pub remove-IsNodup :
    (xs rest : List ℕ) (c : ℕ) → IsNodup xs → remove xs c ≡ some rest → IsNodup rest
remove-IsNodup [] rest c n e = absurd (ground (arith, remove-nil c))
remove-IsNodup (x ∷ xs) rest c n e = elim (Bool-cases (x == c)) [
  | inl hit ↦ let same : xs ≡ rest = ground (arith, remove-cons x c xs) in rw (← same) n.1
  | inr miss ↦ elim (Option-cases (remove xs c)) [
    | inl missing ↦ absurd (ground (arith, remove-cons x c xs))
    | inr (rest', e') ↦
        let same : x ∷ rest' ≡ rest = ground (arith, remove-cons x c xs) in
        rw (← same)
          (ground (arith, mem-remove xs rest' c n.1 e' x, n.0), remove-IsNodup xs rest' c n.1 e')
  ]
]

pub mem-append :
    (xs : List ℕ) (c d : ℕ) → mem (xs ++ c ∷ []) d ≡ (if c == d then true else mem xs d)
unfolding mem
mem-append [] c d = ground arith
mem-append (x ∷ xs) c d = ground (arith, mem-append xs c d)

pub append-IsNodup : (xs : List ℕ) (c : ℕ) → IsNodup xs → mem xs c ≡ false → IsNodup (xs ++ c ∷ [])
unfolding mem
append-IsNodup [] c n m = (refl, tt)
append-IsNodup (x ∷ xs) c n m = (
  ground (arith, n.0, mem-append xs c x, ==_iff x c, ==_iff c x),
  append-IsNodup xs c n.1 (ground arith),
)

pub removed_mem : (xs rest : List ℕ) (c : ℕ) → remove xs c ≡ some rest → mem xs c ≡ true
removed_mem xs rest c e = elim (Bool-cases (mem xs c)) [
  | inl there ↦ there
  | inr missing ↦ absurd (ground (arith, remove-missing xs c missing))
]
