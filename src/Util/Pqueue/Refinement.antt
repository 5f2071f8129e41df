-- ===== src/Util/Pqueue/Refinement.antt =====
-- src/util/pqueue.c implements a first-in first-out queue, across growth, wrap-around and compaction.
use mathlib.Core.List.{head?, tail}
use native.Mathlib.Nat.{
  mod-lt, mod-eq_of_lt, mod-add-mod, mod-eq-sub-mod, mod-mod, add-zero, zero-add,
}
use tpaf.Prelude.{
  ℕ, zero, suc, ◌+◌, ◌-◌, ◌*◌, ◌%◌, ◌≤◌, ◌<◌, ◌≡◌, ◌≢◌, ◌⊎◌, refl, ap, sym, ◌∙◌, true, false,
  Option, none, some, List, [], ◌∷◌, ◌++◌, arith, length, length-append, length-set,
  length-replicate, set, get_elem?, get_elem?-set_self, get_elem?-set_ne, replicate, inl, inr,
  Bool-cases, ltb, leb, ltb→lt, leb→le, ◌==◌, ◌&&◌,
}
use tpaf.Util.Pqueue.{
  Pqueue, create, cell, copy_loop, assure_capacity, push, consider_compacting, pop, peek,
  capacity_increase_factor,
}

-- `xs`, oldest first, fills the cells from `start_idx` on, round the end of the block.
pub record Represents {ℓ} {A : Type ℓ} (q : Pqueue A) (xs : List A) : Type ℓ where
  pub len_eq : q.len ≡ length xs
  pub fits : length xs ≤ q.capacity
  pub start_eq : q.start_idx % q.capacity ≡ q.start_idx
  pub block : length q.elems ≡ q.capacity
  pub content :
      (i : ℕ)
      → i < length xs
      → get_elem? q.elems ((q.start_idx + i) % q.capacity) ≡ some (get_elem? xs i)

-- An offset below the capacity wraps round at most once.
wrap : (t i c : ℕ) → t < c → i < c → ((t + i) % c ≡ t + i) ⊎ ((t + i) % c + c ≡ t + i)
wrap t i c h k = elim (Bool-cases (ltb (t + i) c)) [
  | inl below ↦ inl (mod-eq_of_lt (ltb→lt (t + i) c below))
  | inr above ↦
      let reach : c ≤ t + i = ground arith in
      let once : (t + i - c) % c ≡ t + i - c = mod-eq_of_lt (omega arith) in
      inr (omega (arith, mod-eq-sub-mod reach, once))
]

-- Distinct offsets below the capacity are distinct cells.
offset-injective : (s i j c : ℕ) → i < j → j < c → (s + i) % c ≢ (s + j) % c
offset-injective s i j c h k e =
    let small : s % c < c = mod-lt s (omega arith) in
    elim (wrap (s % c) i c small (omega arith)) [
      | inl a ↦ elim (wrap (s % c) j c small k) [
        | inl b ↦ omega (arith, mod-add-mod s c i, mod-add-mod s c j)
        | inr b ↦ omega (arith, mod-add-mod s c i, mod-add-mod s c j)
      ]
      | inr a ↦ elim (wrap (s % c) j c small k) [
        | inl b ↦ omega (arith, mod-add-mod s c i, mod-add-mod s c j)
        | inr b ↦ omega (arith, mod-add-mod s c i, mod-add-mod s c j)
      ]
    ]

module _ {ℓ} {A : Type ℓ} where
  create-Represents : Represents (create {A = A}) []
  unfolding create
  create-Represents = record {
    len_eq = refl;
    fits = omega arith;
    start_eq = refl;
    block = refl;
    content = λ i h. absurd (omega arith);
  }

  get_elem?-append_left :
      (xs ys : List A) (i : ℕ) → i < length xs → get_elem? (xs ++ ys) i ≡ get_elem? xs i
  get_elem?-append_left [] ys i h = absurd (omega arith)
  get_elem?-append_left (x ∷ xs) ys zero h = refl
  get_elem?-append_left (x ∷ xs) ys (suc i) h = get_elem?-append_left xs ys i (omega arith)

  get_elem?-append_end : (xs : List A) (x : A) → get_elem? (xs ++ x ∷ []) (length xs) ≡ some x
  get_elem?-append_end [] x = refl
  get_elem?-append_end (y ∷ xs) x = get_elem?-append_end xs x

  length-copy_loop :
      (q : Pqueue A) (rounds k : ℕ) (new : List (Option A))
      → length (copy_loop q rounds k new) ≡ length new
  unfolding copy_loop
  length-copy_loop q zero k new = refl
  length-copy_loop q (suc rounds) k new = length-copy_loop q rounds (k + 1) _ ∙ length-set new k _

  -- What the copy leaves below `k` alone, and what it puts from there on.
  copy_loop-below :
      (q : Pqueue A) (rounds k : ℕ) (new : List (Option A)) (i : ℕ)
      → i < k
      → get_elem? (copy_loop q rounds k new) i ≡ get_elem? new i
  unfolding copy_loop
  copy_loop-below q zero k new i h = refl
  copy_loop-below q (suc rounds) k new i h =
      copy_loop-below q rounds (k + 1) _ i (omega arith)
      ∙ get_elem?-set_ne new _ (λ (e : k ≡ i). omega arith)

  copy_loop-at :
      (q : Pqueue A) (rounds k : ℕ) (new : List (Option A)) (i : ℕ)
      → k ≤ i
      → i < k + rounds
      → k + rounds ≤ length new
      → get_elem? (copy_loop q rounds k new) i
        ≡ some (cell q.elems ((q.start_idx + i) % q.capacity))
  unfolding copy_loop
  copy_loop-at q zero k new i h h' fits = absurd (omega arith)
  copy_loop-at q (suc rounds) k new i h h' fits = elim (Bool-cases (k == i)) [
    | inl here ↦
        let e : k ≡ i = ground arith in
        rw e (
          copy_loop-below q rounds (i + 1) _ i (omega arith)
          ∙ get_elem?-set_self new i _ (omega arith))
    | inr later ↦
        copy_loop-at q rounds (k + 1) _ i (ground arith) (omega arith)
          (omega (arith, length-set new k (cell q.elems ((q.start_idx + k) % q.capacity))))
  ]

  -- The copy into a block of `c` cells starts at its first cell.
  grow-Represents :
      (q : Pqueue A) (xs : List A) (c : ℕ)
      → Represents q xs
      → length xs < c
      → Represents
          (record q { start_idx = 0; capacity = c; elems = copy_loop q q.len 0 (replicate c none) })
          xs
  grow-Represents q xs c r h = record {
    len_eq = r.len_eq;
    fits = omega arith;
    start_eq = mod-eq_of_lt (omega arith);
    block = length-copy_loop q q.len 0 (replicate c none) ∙ length-replicate c none;
    content = λ i k.
        rw (zero-add, mod-eq_of_lt {n = i} {m = c} (omega arith))
          (copy_loop-at q q.len 0 (replicate c none) i (omega arith) (omega (arith, r.len_eq))
              (omega (arith, r.len_eq, length-replicate {A = Option A} c none))
            ∙ ap some (rw (r.content i k, cell)));
  }

  assure_capacity-Represents :
      (q : Pqueue A) (xs : List A) (n : ℕ)
      → Represents q xs
      → length xs < n
      → Represents (assure_capacity q n) xs × (n ≤ (assure_capacity q n).capacity)
  unfolding assure_capacity
  assure_capacity-Represents q xs n r h = elim (Bool-cases (leb n q.capacity)) [
    | inl large ↦ rw large (r, leb→le n q.capacity large)
    | inr small ↦
        rw small (grow-Represents q xs (n * capacity_increase_factor) r (omega arith), omega arith)
  ]

  place-Represents :
      (q : Pqueue A) (xs : List A) (x : A)
      → Represents q xs
      → length xs < q.capacity
      → Represents
          (record q {
            elems = set q.elems ((q.start_idx + q.len) % q.capacity) (some x);
            len = q.len + 1;
          })
          (xs ++ x ∷ [])
  place-Represents q xs x r room = record {
    len_eq = omega (arith, length-append xs (x ∷ []), r.len_eq);
    fits = omega (arith, length-append xs (x ∷ []));
    start_eq = r.start_eq;
    block = length-set q.elems _ (some x) ∙ r.block;
    content = λ i k. rw r.len_eq (elim (Bool-cases (ltb i (length xs))) [
      | inl old ↦
          get_elem?-set_ne q.elems (some x) (λ e.
            offset-injective q.start_idx i (length xs) q.capacity (ltb→lt i _ old) room (sym e))
          ∙ r.content i (ltb→lt i _ old)
          ∙ ap some (sym (get_elem?-append_left xs (x ∷ []) i (ltb→lt i _ old)))
      | inr new ↦
          let e : i ≡ length xs = ground (arith, length-append xs (x ∷ [])) in
          rw (e, get_elem?-append_end xs x)
            (get_elem?-set_self q.elems _ (some x) (
              omega
                (arith, r.block, mod-lt (q.start_idx + length xs) {m = q.capacity} (omega arith))))
    ]);
  }

  -- On a circular block that represents a list, `pqueue_push` puts the element behind all others.
  pub push-Represents :
      (q : Pqueue A) (xs : List A) (x : A) → Represents q xs → Represents (push q x) (xs ++ x ∷ [])
  unfolding push
  push-Represents q xs x r =
      let (grown, room) = assure_capacity-Represents q xs (q.len + 1) r (omega (arith, r.len_eq)) in
      place-Represents (assure_capacity q (q.len + 1)) xs x grown (omega (arith, r.len_eq))

  compact-Represents :
      (q : Pqueue A) (xs : List A) → Represents q xs → Represents (consider_compacting q) xs
  unfolding consider_compacting
  compact-Represents q [] r = elim (Bool-cases (q.len == 0 && ltb 128 q.capacity)) [
    | inl large ↦ rw large (record {
      len_eq = r.len_eq;
      fits = omega arith;
      start_eq = refl;
      block = refl;
      content = λ i h. absurd (omega arith);
    })
    | inr small ↦ rw small r
  ]
  compact-Represents q (x ∷ xs) r =
      let used : (q.len == 0) ≡ false = ground (arith, r.len_eq) in rw used r

  advance-Represents :
      (q : Pqueue A) (x : A) (xs : List A)
      → Represents q (x ∷ xs)
      → Represents (record q { start_idx = (q.start_idx + 1) % q.capacity; len = q.len - 1 }) xs
  advance-Represents q x xs r = record {
    len_eq = omega (arith, r.len_eq);
    fits = omega (arith, r.fits);
    start_eq = mod-mod (q.start_idx + 1) q.capacity;
    block = r.block;
    content = λ i k.
        let e : q.start_idx + 1 + i ≡ q.start_idx + suc i = omega arith in
        rw (mod-add-mod (q.start_idx + 1) q.capacity i, e) (r.content (suc i) (omega arith));
  }

  oldest :
      (q : Pqueue A) (x : A) (xs : List A)
      → Represents q (x ∷ xs)
      → cell q.elems q.start_idx ≡ some x
  oldest q x xs r =
      let first = r.content 0 (omega arith) in
      let here = rw (add-zero, r.start_eq) at first in rw (here, cell)

  -- On a circular block that represents a list, `pqueue_pop` takes the oldest element, and returns
  -- NULL on the empty queue only.
  pub pop-Represents :
      (q : Pqueue A) (xs : List A)
      → Represents q xs
      → ((pop q).0 ≡ head? xs) × Represents (pop q).1 (tail xs)
  unfolding pop
  pop-Represents q [] r =
      let idle : (q.len == 0) ≡ true = ground (arith, r.len_eq) in rw idle (refl, r)
  pop-Represents q (x ∷ xs) r =
      let used : (q.len == 0) ≡ false = ground (arith, r.len_eq) in
      rw used (oldest q x xs r, compact-Represents _ xs (advance-Represents q x xs r))

  -- `pqueue_peek` returns what `pqueue_pop` would take.
  pub peek-pop : (q : Pqueue A) → peek q ≡ (pop q).0
  unfolding peek pop
  peek-pop q = ground arith
