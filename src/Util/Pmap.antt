-- ===== src/Util/Pmap.antt =====
-- src/util/pmap.c: a map from `uint64_t` keys to pointers, as an unordered list of entries (`elist`,
-- a plist of copied entries, here the list that Plist/Refinement shows it to be). A function that
-- asserts returns `none` where the assertion fails.
pub mod Laws
use tpaf.Prelude.{
  ℕ, Bool, true, false, not, Option, none, some, List, [], ◌∷◌, ◌++◌, if◌then◌else◌, ◌==◌, length,
  get_elem?,
}
use tpaf.Util.Sequence

pub record Entry {ℓ} (V : Type ℓ) : Type ℓ where
  pub key : ℕ
  pub value : V

abbrev pub Pmap {ℓ} : Type ℓ → Type ℓ
Pmap V = List (Entry V)

module _ {ℓ} {V : Type ℓ} where
  abbrev pub create : Pmap V
  create = []

  unfoldable pub index_of : Pmap V → ℕ → Option ℕ
  unfolding Sequence.index_of
  index_of map key = Sequence.index_of (λ (e : Entry V). e.key == key) map

  unfoldable pub has_key : Pmap V → ℕ → Bool
  unfolding index_of
  has_key map key = elim (index_of map key) [ none ↦ false | some idx ↦ true ]

  unfoldable pub add : Pmap V → ℕ → V → Option (Pmap V)
  unfolding has_key
  add map key value =
      if not (has_key map key) then some (map ++ record { key = key; value = value } ∷ []) else none

  -- `none` is NULL.
  unfoldable pub get : Pmap V → ℕ → Option V
  unfolding index_of
  get map key = elim (index_of map key) [
    | none ↦ none
    | some idx ↦ elim (get_elem? map idx) [ none ↦ none | some entry ↦ some entry.value ]
  ]

  unfoldable pub del : Pmap V → ℕ → Option (Pmap V)
  unfolding index_of Sequence.delete_at
  del map key = elim (index_of map key) [
    | none ↦ none
    | some idx ↦ some (Sequence.delete_at idx map)
  ]

  abbrev pub clear : Pmap V → Pmap V
  clear map = []

  abbrev pub size : Pmap V → ℕ
  size = length

  unfoldable pub foreach {κ} : {S : Type κ} → Pmap V → (ℕ → V → S → Bool × S) → S → S
  unfolding Sequence.foreach
  foreach map cb = Sequence.foreach (λ entry. cb entry.key entry.value) map

  -- A write to the object that the entry of the key points to.
  unfoldable pub update : Pmap V → ℕ → V → Pmap V
  update [] key value = []
  update (entry ∷ map) key value =
      if entry.key == key
      then record entry { value = value } ∷ map
      else entry ∷ update map key value
