-- ===== src/Util/Pqueue.antt =====
-- src/util/pqueue.c: a queue in a circular block of cells. A cell holds `none` until it is written.
-- Allocation failure aborts the program and is not modelled; sizes do not reach SIZE_MAX.
pub mod Refinement
use tpaf.Prelude.{
  ℕ, zero, suc, ◌+◌, ◌-◌, ◌*◌, ◌%◌, Bool, ◌&&◌, Option, none, some, List, [], if◌then◌else◌, ltb,
  leb, ◌==◌, set, get_elem?, replicate,
}

pub record Pqueue {ℓ} (A : Type ℓ) : Type ℓ where
  pub elems : List (Option A)
  pub capacity : ℕ
  pub start_idx : ℕ
  pub len : ℕ

abbrev pub capacity_increase_factor : ℕ
capacity_increase_factor = 2

abbrev pub max_spare_capacity : ℕ
max_spare_capacity = 128

module _ {ℓ} {A : Type ℓ} where
  unfoldable pub create : Pqueue A
  create = record { elems = []; capacity = 0; start_idx = 0; len = 0 }

  -- elems[idx], where `none` is also what a read outside the block would give.
  abbrev pub cell : List (Option A) → ℕ → Option A
  cell elems idx = elim (get_elem? elems idx) [ none ↦ none | some c ↦ c ]

  -- The rounds left, the next index, and the new block so far.
  unfoldable pub copy_loop : Pqueue A → ℕ → ℕ → List (Option A) → List (Option A)
  copy_loop queue zero new_idx new_elems = new_elems
  copy_loop queue (suc rounds) new_idx new_elems =
      let old_idx = (queue.start_idx + new_idx) % queue.capacity in
      copy_loop queue rounds (new_idx + 1) (set new_elems new_idx (cell queue.elems old_idx))

  unfoldable pub assure_capacity : Pqueue A → ℕ → Pqueue A
  assure_capacity queue min_capacity =
      let new_capacity = min_capacity * capacity_increase_factor in
      let new_elems = copy_loop queue queue.len 0 (replicate new_capacity none) in
      if leb min_capacity queue.capacity
      then queue
      else record queue { start_idx = 0; capacity = new_capacity; elems = new_elems }

  unfoldable pub push : Pqueue A → A → Pqueue A
  push queue elem =
      let grown = assure_capacity queue (queue.len + 1) in
      let last_idx = (grown.start_idx + grown.len) % grown.capacity in
      record grown { elems = set grown.elems last_idx (some elem); len = grown.len + 1 }

  unfoldable pub consider_compacting : Pqueue A → Pqueue A
  consider_compacting queue =
      if queue.len == 0 && ltb max_spare_capacity queue.capacity
      then record queue { elems = []; capacity = 0; start_idx = 0 }
      else queue

  -- The element returned is `none` for NULL.
  unfoldable pub pop : Pqueue A → Option A × Pqueue A
  unfolding consider_compacting
  pop queue =
      let elem = cell queue.elems queue.start_idx in
      let rest = record queue {
        start_idx = (queue.start_idx + 1) % queue.capacity;
        len = queue.len - 1;
      } in
      if queue.len == 0 then (none, queue) else (elem, consider_compacting rest)

  unfoldable pub peek : Pqueue A → Option A
  peek queue = if queue.len == 0 then none else cell queue.elems queue.start_idx
