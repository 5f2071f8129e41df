-- ===== src/Util/Tests.antt =====
-- The containers of src/util on small inputs.
use mathlib.Core.List.{head?, tail}
use tpaf.Prelude.{ℕ, zero, suc, ◌+◌, ◌%◌, ◌<◌, ◌≡◌, refl, some, [], ◌∷◌, arith, get_elem?}
use tpaf.Util.Pqueue
use tpaf.Util.Pqueue.{Pqueue}
use tpaf.Util.Pqueue.Refinement.{Represents as Queues, push-Represents, pop-Represents}

-- Three elements, round the end of a full block.
abbrev full : Pqueue ℕ
full = record { elems = some 2 ∷ some 3 ∷ some 1 ∷ []; capacity = 3; start_idx = 2; len = 3 }

full_content :
    (i : ℕ) → i < 3 → get_elem? full.elems ((2 + i) % 3) ≡ some (get_elem? (1 ∷ 2 ∷ 3 ∷ []) i)
full_content zero h = refl
full_content (suc zero) h = refl
full_content (suc (suc zero)) h = refl
full_content (suc (suc (suc i))) h = absurd (omega arith)

full-Represents : Queues full (1 ∷ 2 ∷ 3 ∷ [])
full-Represents = record {
  len_eq = refl;
  fits = omega arith;
  start_eq = refl;
  block = refl;
  content = full_content;
}

push-Represents_example : Queues (Pqueue.push full 4) (1 ∷ 2 ∷ 3 ∷ 4 ∷ [])
push-Represents_example = push-Represents full (1 ∷ 2 ∷ 3 ∷ []) 4 full-Represents

pop-Represents_example :
    ((Pqueue.pop full).0 ≡ head? (1 ∷ 2 ∷ 3 ∷ []))
    × Queues (Pqueue.pop full).1 (tail (1 ∷ 2 ∷ 3 ∷ []))
pop-Represents_example = pop-Represents full (1 ∷ 2 ∷ 3 ∷ []) full-Represents
