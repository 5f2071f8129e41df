-- ===== src/Util/Plist.antt =====
-- src/util/plist.c: a growing array of pointers. `cells` is the allocated block, of which the first
-- `len` cells are in use; the others hold `none`, for what was never written or was left behind.
-- Allocation failure aborts the program and is not modelled; sizes do not reach SIZE_MAX.
pub mod Refinement
use tpaf.Prelude.{
  ℕ, zero, suc, ◌+◌, ◌-◌, ◌*◌, Bool, true, false, Option, none, some, List, [], ◌∷◌, ◌++◌,
  if◌then◌else◌, ltb, set, get_elem?, replicate, take, drop,
}

pub record Plist {ℓ} (A : Type ℓ) : Type ℓ where
  pub cells : List (Option A)
  pub capacity : ℕ
  pub len : ℕ

abbrev pub capacity_ask_factor : ℕ
capacity_ask_factor = 2

module _ {ℓ} {A : Type ℓ} where
  unfoldable pub create : Plist A
  create = record { cells = []; capacity = 0; len = 0 }

  -- ut_realloc keeps the old block and leaves the new cells unset.
  unfoldable pub assure_capacity : Plist A → ℕ → Plist A
  assure_capacity plist capacity =
      if ltb plist.capacity capacity
      then record plist {
        capacity = capacity_ask_factor * capacity;
        cells = plist.cells ++ replicate (capacity_ask_factor * capacity - plist.capacity) none;
      }
      else plist

  unfoldable pub append : Plist A → A → Plist A
  unfolding assure_capacity
  append plist elem =
      let new_len = plist.len + 1 in
      let grown = assure_capacity plist new_len in
      record grown { cells = set grown.cells grown.len (some elem); len = new_len }

  -- `none` is the failed assertion, or a cell that was never written.
  unfoldable pub get : Plist A → ℕ → Option A
  get plist idx =
      if ltb idx plist.len
      then elim (get_elem? plist.cells idx) [ none ↦ none | some cell ↦ cell ]
      else none

  -- memmove of `num` cells one place down, to `idx`.
  unfoldable pub shift_down : ℕ → ℕ → List (Option A) → List (Option A)
  shift_down num zero [] = []
  shift_down num zero (x ∷ cells) = take num cells ++ drop num (x ∷ cells)
  shift_down num (suc idx) [] = []
  shift_down num (suc idx) (x ∷ cells) = x ∷ shift_down num idx cells

  -- For an index out of range `last_idx - idx` wraps round and memmove leaves the block: `none`.
  unfoldable pub del : Plist A → ℕ → Option (Plist A)
  unfolding shift_down
  del plist idx =
      let last_idx = plist.len - 1 in
      let num_higher = last_idx - idx in
      let moved = if ltb 0 num_higher then shift_down num_higher idx plist.cells else plist.cells in
      if ltb idx plist.len then some (record plist { cells = moved; len = plist.len - 1 }) else none

  unfoldable pub clear : Plist A → Plist A
  clear plist = if ltb 0 plist.len then create else plist

  unfoldable pub clone : Plist A → Plist A
  clone original =
      if ltb 0 original.len
      then record {
        cells = take original.len original.cells;
        capacity = original.len;
        len = original.len;
      }
      else create

  -- The rounds left, the index, and the cells from there on; a cell never written matches nothing.
  unfoldable pub index_loop : (A → Bool) → ℕ → ℕ → List (Option A) → Option ℕ
  index_loop equal zero i cells = none
  index_loop equal (suc rounds) i [] = none
  index_loop equal (suc rounds) i (none ∷ cells) = index_loop equal rounds (i + 1) cells
  index_loop equal (suc rounds) i (some x ∷ cells) =
      if equal x then some i else index_loop equal rounds (i + 1) cells

  unfoldable pub index_of : Plist A → (A → Bool) → Option ℕ
  unfolding index_loop
  index_of plist equal = index_loop equal plist.len 0 plist.cells

  unfoldable pub has : Plist A → (A → Bool) → Bool
  unfolding index_of
  has plist equal = elim (index_of plist equal) [ none ↦ false | some i ↦ true ]

  unfoldable pub foreach_loop {κ} : {S : Type κ} → (A → S → Bool × S) → ℕ → List (Option A) → S → S
  foreach_loop cb zero cells s = s
  foreach_loop cb (suc rounds) [] s = s
  foreach_loop cb (suc rounds) (none ∷ cells) s = foreach_loop cb rounds cells s
  foreach_loop cb (suc rounds) (some x ∷ cells) s =
      let (continue, s') = cb x s in
      elim continue [ true ↦ foreach_loop cb rounds cells s' | false ↦ s' ]

  unfoldable pub foreach {κ} : {S : Type κ} → Plist A → (A → S → Bool × S) → S → S
  unfolding foreach_loop
  foreach plist cb s = foreach_loop cb plist.len plist.cells s
