-- ===== src/Sd/Service/Laws.antt =====
-- The life of a service object of src/sd/service.c: changes begin, are committed or aborted.
use mathlib.Core.Option
use tpaf.Prelude.{
  ℕ, ◌-◌, ◌*◌, ◌≤◌, ◌≡◌, ◌≢◌, ◌↔◌, refl, ap, sym, ◌⊎◌, inl, inr, true, false, Option, none, some,
  List, [], ◌∷◌, arith, Option-cases,
}
use tpaf.Prelude.Int.{ℤ, pos, ◌-ℤ◌}
use tpaf.Clib.Ftime.{at}
use tpaf.Sd.Generation
use tpaf.Sd.Generation.{Generation}
use tpaf.Sd.Props
use tpaf.Sd.Props.{Props}
use tpaf.Sd.Props.Laws
use tpaf.Sd.Service.{
  Service, unchanged, added, modified, ◌>>=◌, create, has_ongoing_change, add_begin, modify_begin,
  commit, remove, abort, set_next, orphan_time_left,
}

-- At rest: no change is in progress.
pub record IsIdle (s : Service) : Type 0 where
  pub change_eq : s.change_in_progress ≡ unchanged
  pub next_eq : s.next ≡ none

pub record IsBusy (s : Service) (g : Generation) : Type 0 where
  pub change_ne : (s.change_in_progress ≡ added) ⊎ (s.change_in_progress ≡ modified)
  pub next_eq : s.next ≡ some g

pub idle-ongoing : (s : Service) → IsIdle s → has_ongoing_change s ≡ some false
unfolding has_ongoing_change
idle-ongoing s i = rw (i.change_eq, i.next_eq)

pub busy-ongoing : (s : Service) (g : Generation) → IsBusy s g → has_ongoing_change s ≡ some true
unfolding has_ongoing_change
busy-ongoing s g (b) = elim b.change_ne [ inl e ↦ rw (e, b.next_eq) | inr e ↦ rw (e, b.next_eq) ]

pub clone-eq : (g : Generation) (p : Props) → g.props ≡ some p → Generation.clone g ≡ some g
unfolding Generation.clone
clone-eq g p e = ground (arith, Props.Laws.clone-eq p)

-- A change of a service at rest starts from a copy of its current generation.
pub modify_begin_lem :
    (s : Service) (g : Generation) (p : Props)
    → IsIdle s
    → s.current ≡ some g
    → g.props ≡ some p
    → modify_begin s ≡ some (record s { change_in_progress = modified; next = some g })
unfolding modify_begin
modify_begin_lem s g p i c q = rw (idle-ongoing s i, c, clone-eq g p q)

pub set_next_lem :
    (s : Service) (g : Generation) (f : Generation → Generation)
    → IsBusy s g
    → (set_next s f ≡ some (record s { next = some (f g) }))
      × IsBusy (record s { next = some (f g) }) (f g)
unfolding set_next
set_next_lem s g f b =
    (rw (busy-ongoing s g b, b.next_eq), record { change_ne = b.change_ne; next_eq = refl })

pub commit_lem :
    (s : Service) (g : Generation)
    → IsBusy s g
    → Generation.is_consistent g ≡ true
    → commit s
      ≡ some (
        record s {
          prev = s.current;
          current = some g;
          change_in_progress = unchanged;
          next = none;
        },
        s.change_in_progress,
      )
unfolding commit
commit_lem s g b c = rw (busy-ongoing s g b, b.next_eq, c)

-- The operations of a client on a service object, as one type.
pub data Op : Type 0 where
  add_begins modify_begins commits removes aborts : Op
  sets : (Generation → Generation) → Op

unfoldable pub apply : Op → Service → Option Service
apply add_begins s = add_begin s
apply modify_begins s = modify_begin s
apply commits s = Option.map (λ r. r.0) (commit s)
apply removes s = Option.map (λ r. r.0) (remove s)
apply aborts s = abort s
apply (sets f) s = set_next s f

-- At rest, or with a change under way and the generation that it builds.
abbrev pub IsValid : Service → Type 0
IsValid s = IsIdle s ⊎ ((g : Generation) × IsBusy s g)

create-IsValid : (id : ℤ) → IsIdle (create id)
unfolding create
create-IsValid id = record { change_eq = refl; next_eq = refl }

idle-apply : (op : Op) (s t : Service) → IsIdle s → apply op s ≡ some t → IsValid t
unfolding apply add_begin modify_begin commit remove abort set_next
idle-apply add_begins s t i e = inr (Generation.create, ground (arith, idle-ongoing s i))
idle-apply modify_begins s t i e = elim (Option-cases s.current) [
  | inl c ↦ absurd (ground (arith, idle-ongoing s i))
  | inr (g, c) ↦ elim (Option-cases (Generation.clone g)) [
    | inl q ↦ absurd (ground (arith, idle-ongoing s i))
    | inr (copy, q) ↦ inr (copy, ground (arith, idle-ongoing s i))
  ]
]
idle-apply commits s t i e = ground (arith, idle-ongoing s i)
idle-apply removes s t i e = inl (ground (arith, idle-ongoing s i))
idle-apply aborts s t i e = ground (arith, idle-ongoing s i)
idle-apply (sets f) s t i e = ground (arith, idle-ongoing s i)

busy-apply :
    (op : Op) (s t : Service) (g : Generation) → IsBusy s g → apply op s ≡ some t → IsValid t
unfolding apply add_begin modify_begin commit remove abort
busy-apply add_begins s t g b e = ground (arith, busy-ongoing s g b)
busy-apply modify_begins s t g b e = ground (arith, busy-ongoing s g b)
busy-apply commits s t g b e = inl (ground (arith, busy-ongoing s g b, b.next_eq))
busy-apply removes s t g b e = ground (arith, busy-ongoing s g b)
busy-apply aborts s t g b e = inl (ground (arith, busy-ongoing s g b))
busy-apply (sets f) s t g b e =
    let (done, busy) = set_next_lem s g f b in
    let e' : record s { next = some (f g) } ≡ t = cc in inr (f g, rw (← e') busy)

-- Every operation that does not fail an assertion leaves the object at rest or within a change.
pub apply-IsValid : (op : Op) (s t : Service) → IsValid s → apply op s ≡ some t → IsValid t
apply-IsValid op s t (inl i) e = idle-apply op s t i e
apply-IsValid op s t (inr (g, b)) e = busy-apply op s t g b e

-- At rest a change may begin, and nothing can be set, committed or aborted. Within a change no
-- other one begins and the service is not removed, and it can be aborted; it is committed exactly
-- if everything has been set.
pub apply_guards :
    (s : Service) (f : Generation → Generation)
    → (IsIdle s
        → (apply commits s ≡ none)
          × (apply aborts s ≡ none)
          × (apply (sets f) s ≡ none)
          × (apply add_begins s ≢ none)
          × (apply removes s ≢ none))
      × ((g : Generation)
          → IsBusy s g
          → (apply add_begins s ≡ none)
            × (apply modify_begins s ≡ none)
            × (apply removes s ≡ none)
            × (apply aborts s ≢ none)
            × (apply (sets f) s ≢ none)
            × ((apply commits s ≢ none) ↔ (Generation.is_consistent g ≡ true)))
unfolding apply add_begin modify_begin commit remove abort set_next
apply_guards s f =
    (λ i. ground (arith, idle-ongoing s i), λ g b. ground (arith, busy-ongoing s g b, b.next_eq))

-- Several setters in a row, on a service and on a generation.
unfoldable pub set_each : List (Generation → Generation) → Service → Option Service
set_each [] s = some s
set_each (f ∷ fs) s = set_next s f >>= set_each fs

unfoldable pub each : List (Generation → Generation) → Generation → Generation
each [] g = g
each (f ∷ fs) g = each fs (f g)

set_each_lem :
    (fs : List (Generation → Generation)) (s : Service) (g : Generation)
    → IsBusy s g
    → (set_each fs s ≡ some (record s { next = some (each fs g) }))
      × IsBusy (record s { next = some (each fs g) }) (each fs g)
unfolding set_each each
set_each_lem [] s g b = (
  ap some (λ i. record s { next = b.next_eq i }),
  record { change_ne = b.change_ne; next_eq = refl },
)
set_each_lem (f ∷ fs) s g b =
    let (done, busy) = set_next_lem s g f b in
    rw done (set_each_lem fs (record s { next = some (f g) }) (f g) busy)

modified-IsBusy :
    (s : Service) (g : Generation)
    → IsBusy (record s { change_in_progress = modified; next = some g }) g
modified-IsBusy s g = record { change_ne = inr refl; next_eq = refl }

-- A change of a service at rest, with any setters, that leaves everything set: the new generation
-- becomes the current one, the current one becomes the previous one, and the service is at rest.
pub modify-commit :
    (s : Service) (g : Generation) (p : Props) (fs : List (Generation → Generation))
    → IsIdle s
    → s.current ≡ some g
    → g.props ≡ some p
    → Generation.is_consistent (each fs g) ≡ true
    → (modify_begin s >>= set_each fs >>= commit)
      ≡ some (record s { prev = some g; current = some (each fs g) }, modified)
modify-commit s g p fs i c q ok =
    let (done, busy) = set_each_lem fs _ g (modified-IsBusy s g) in
    let restored : record s {
      prev = s.current;
      current = some (each fs g);
      change_in_progress = unchanged;
      next = none;
    }
        ≡ record s { prev = some g; current = some (each fs g) } =
      λ k. record s {
        prev = c k;
        current = some (each fs g);
        change_in_progress = sym i.change_eq k;
        next = sym i.next_eq k;
      } in
    rw (modify_begin_lem s g p i c q, done, commit_lem _ (each fs g) busy ok)
      (ap (λ (t : Service). some (t, modified)) restored)

-- An aborted change leaves the service as it was.
pub modify-abort :
    (s : Service) (g : Generation) (p : Props) (fs : List (Generation → Generation))
    → IsIdle s
    → s.current ≡ some g
    → g.props ≡ some p
    → (modify_begin s >>= set_each fs >>= abort) ≡ some s
unfolding abort
modify-abort s g p fs i c q =
    let (done, busy) = set_each_lem fs _ g (modified-IsBusy s g) in
    rw (modify_begin_lem s g p i c q, done)
      (λ k. some (record s { change_in_progress = sym i.change_eq k; next = sym i.next_eq k }))

-- The time that an orphan has left is between 0 and its time to live, if the clock has not gone back.
pub orphan_time_left_bounds :
    (now since : ℕ) (ttl : ℕ) (s : Service) (g : Generation)
    → s.current ≡ some g
    → g.orphan_since ≡ at (pos since)
    → g.ttl ≡ pos ttl
    → since ≤ now
    → (left : ℕ) × (orphan_time_left (pos now) s ≡ some (pos left))
      × (left ≡ ttl * 1000000 - (now - since))
unfolding orphan_time_left ◌-ℤ◌
orphan_time_left_bounds now since ttl s g c o t h =
    (ttl * 1000000 - (now - since), rw (c, o, t) (ground arith), refl)
