-- ===== src/Util/Plist/Refinement.antt =====
-- src/util/plist.c implements a list: each operation on the array does what Sequence does.
use mathlib.Core.Option
use tpaf.Prelude.{
  ℕ, zero, suc, ◌+◌, ◌-◌, ◌*◌, ◌≤◌, ◌<◌, ◌≡◌, refl, ap, sym, Bool, Option, none, some, List, [],
  ◌∷◌, ◌++◌, map, append_assoc, arith, if◌then◌else◌, length, length-append, length-replicate, set,
  replicate, take, drop, inl, inr, Bool-cases, ltb, ltb→lt, lt→ltb,
}
use tpaf.Util.Sequence
use tpaf.Util.Plist.{
  Plist, create, assure_capacity, append, shift_down, del, index_loop, index_of, foreach_loop,
}

-- The block holds the elements, then the spare cells.
pub record Represents {ℓ} {A : Type ℓ} (p : Plist A) (xs : List A) : Type ℓ where
  pub spare : List (Option A)
  pub cells_eq : p.cells ≡ map some xs ++ spare
  pub len_eq : p.len ≡ length xs
  pub capacity_eq : p.capacity ≡ length xs + length spare

module _ {ℓ} {A : Type ℓ} where
  create-Represents : Represents (create {A = A}) []
  unfolding create
  create-Represents = record {
    spare = [];
    cells_eq = refl;
    len_eq = refl;
    capacity_eq = omega arith;
  }

  assure_capacity-Represents :
      (p : Plist A) (xs : List A) (n : ℕ)
      → Represents p xs
      → Represents (assure_capacity p n) xs × (n ≤ (assure_capacity p n).capacity)
  unfolding assure_capacity
  assure_capacity-Represents p xs n r = elim (Bool-cases (ltb p.capacity n)) [
    | inl small ↦ rw small (
      record {
        spare = r.spare ++ replicate (2 * n - p.capacity) none;
        cells_eq = rw r.cells_eq (append_assoc (map some xs) r.spare _);
        len_eq = r.len_eq;
        capacity_eq = omega (
          arith,
          length-append r.spare (replicate (2 * n - p.capacity) none),
          length-replicate {A = Option A} (2 * n - p.capacity) none,
          r.capacity_eq,
          ltb→lt p.capacity n small,
        );
      },
      omega arith,
    )
    | inr large ↦ rw large (r, ground arith)
  ]

  set-end :
      (xs : List A) (c : Option A) (spare : List (Option A)) (x : A)
      → set (map some xs ++ c ∷ spare) (length xs) (some x) ≡ map some (xs ++ x ∷ []) ++ spare
  set-end [] c spare x = refl
  set-end (y ∷ xs) c spare x = ap (◌∷◌ (some y)) (set-end xs c spare x)

  last : A → List A → A
  last x [] = x
  last x (y ∷ xs) = last y xs

  take-append_length :
      (xs : List A) (spare : List (Option A))
      → take (length xs) (map some xs ++ spare) ≡ map some xs
  take-append_length [] spare = refl
  take-append_length (x ∷ xs) spare = ap (◌∷◌ (some x)) (take-append_length xs spare)

  drop-last :
      (x : A) (xs : List A) (spare : List (Option A))
      → drop (length xs) (some x ∷ (map some xs ++ spare)) ≡ some (last x xs) ∷ spare
  unfolding last
  drop-last x [] spare = refl
  drop-last x (y ∷ xs) spare = drop-last y xs spare

  shift_down-map :
      (xs : List A) (n i : ℕ) (spare : List (Option A))
      → i + n + 1 ≡ length xs
      → (stale : Option A) × (shift_down n i (map some xs ++ spare)
          ≡ map some (Sequence.delete_at i xs) ++ stale ∷ spare)
  unfolding shift_down Sequence.delete_at
  shift_down-map [] n i spare h = absurd (omega arith)
  shift_down-map (x ∷ xs) n zero spare h =
      let e : n ≡ length xs = omega arith in
      (some (last x xs), rw (e, take-append_length xs spare, drop-last x xs spare))
  shift_down-map (x ∷ xs) n (suc i) spare h =
      let (stale, moved) = shift_down-map xs n i spare (omega arith) in
      (stale, ap (◌∷◌ (some x)) moved)

  -- With nothing above the index no cell moves.
  shift_down-zero : (i : ℕ) (cells : List (Option A)) → shift_down 0 i cells ≡ cells
  unfolding shift_down
  shift_down-zero zero [] = refl
  shift_down-zero zero (x ∷ cells) = refl
  shift_down-zero (suc i) [] = refl
  shift_down-zero (suc i) (x ∷ cells) = ap (◌∷◌ x) (shift_down-zero i cells)

  moved-eq :
      (n i : ℕ) (cells : List (Option A))
      → (if ltb 0 n then shift_down n i cells else cells) ≡ shift_down n i cells
  moved-eq zero i cells = sym (shift_down-zero i cells)
  moved-eq (suc n) i cells = ground arith

  append-room :
      (q : Plist A) (xs : List A) (x : A) (n : ℕ) (spare : List (Option A)) (r : Represents q xs)
      → (n ≡ length xs + 1) × (n ≤ q.capacity)
      → r.spare ≡ spare
      → Represents (record q { cells = set q.cells q.len (some x); len = n }) (xs ++ x ∷ [])
  append-room q xs x n [] r h e = absurd (omega (arith, r.capacity_eq, ap length e))
  append-room q xs x n (c ∷ spare) r h e = record {
    spare = spare;
    cells_eq = rw (r.cells_eq, r.len_eq, e) (set-end xs c spare x);
    len_eq = omega (arith, length-append xs (x ∷ []));
    capacity_eq = omega (arith, length-append xs (x ∷ []), r.capacity_eq, ap length e);
  }

  -- On a block that represents a list, `plist_append` adds the element at the end, whether or not
  -- the block had to grow.
  pub append-Represents :
      (p : Plist A) (xs : List A) (x : A) → Represents p xs → Represents (append p x) (xs ++ x ∷ [])
  unfolding append
  append-Represents p xs x r =
      let (grown, room) = assure_capacity-Represents p xs (p.len + 1) r in
      append-room _ xs x (p.len + 1) grown.spare grown (omega (arith, r.len_eq), room) refl

  -- On a block that represents a list, `plist_del` removes the element at an index below the length
  -- and keeps the order of the others.
  pub del-Represents :
      (p : Plist A) (xs : List A) (i : ℕ)
      → Represents p xs
      → i < length xs
      → (q : Plist A) × (del p i ≡ some q) × Represents q (Sequence.delete_at i xs)
  unfolding del
  del-Represents p xs i r h =
      let n = p.len - 1 - i in
      let (stale, moved) = shift_down-map xs n i r.spare (omega (arith, r.len_eq)) in
      let len_eq : p.len - 1 ≡ length (Sequence.delete_at i xs) =
        omega (arith, Sequence.length-delete_at i xs, r.len_eq) in
      (
        record p { cells = shift_down n i p.cells; len = p.len - 1 },
        rw (lt→ltb i p.len (omega (arith, r.len_eq)), moved-eq n i p.cells),
        record {
          spare = stale ∷ r.spare;
          cells_eq = rw r.cells_eq moved;
          len_eq = len_eq;
          capacity_eq = omega (arith, r.capacity_eq, r.len_eq, len_eq);
        },
      )

  index_loop-Represents :
      (equal : A → Bool) (xs : List A) (k : ℕ) (spare : List (Option A))
      → index_loop equal (length xs) k (map some xs ++ spare)
        ≡ Option.map (λ i. k + i) (Sequence.index_of equal xs)
  unfolding index_loop Sequence.index_of
  index_loop-Represents equal [] k spare = refl
  index_loop-Represents equal (x ∷ xs) k spare =
      ground (arith, index_loop-Represents equal xs (k + 1) spare)

  -- On a block that represents a list, `plist_index_of` finds the first element that is equal, and
  -- else returns -1.
  pub index_of-Represents :
      (p : Plist A) (xs : List A) (equal : A → Bool)
      → Represents p xs
      → index_of p equal ≡ Sequence.index_of equal xs
  unfolding index_of
  index_of-Represents p xs equal r =
      rw (r.cells_eq, r.len_eq, index_loop-Represents equal xs 0 r.spare) (ground arith)

  foreach_loop-Represents {κ} :
      {S : Type κ} (cb : A → S → Bool × S) (xs : List A) (spare : List (Option A)) (s : S)
      → foreach_loop cb (length xs) (map some xs ++ spare) s ≡ Sequence.foreach cb xs s
  unfolding foreach_loop Sequence.foreach
  foreach_loop-Represents cb [] spare s = refl
  foreach_loop-Represents cb (x ∷ xs) spare s =
      ground (arith, foreach_loop-Represents cb xs spare (cb x s).1)
