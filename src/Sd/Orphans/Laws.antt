-- ===== src/Sd/Orphans/Laws.antt =====
-- The timers of orphans in src/sd/sd.c and the notifications of a change.
use tpaf.Prelude.{
  ℕ, ◌≡◌, ◌≢◌, refl, Bool, true, false, Option, none, some, arith, Option-cases, Bool-cases, inl,
  inr,
}
use tpaf.Prelude.Int.{ℤ, to_u64, pos_part}
use tpaf.Clib.Ftime.{is_since}
use tpaf.Util.Pmap
use tpaf.Util.Pmap.{Pmap, Entry}
use tpaf.Util.Pmap.Laws.{
  IsDistinct, get-add, get-del, get-update, has_key-get, add-IsDistinct, del-IsDistinct,
  update-IsDistinct,
}
use tpaf.Sd.Generation.{Generation}
use tpaf.Sd.Service
use tpaf.Sd.Service.{Service, ChangeType}
use tpaf.Sd.Sub.Laws.{Changed, was_added, was_modified, was_removed}
use tpaf.Sd.State.{Sd, OrphanTimer}
use tpaf.Sd.Orphans.{
  orphan_timer_create, add_orphan_timer, update_orphan_timer, remove_orphan_timer,
  maintain_modified, maintain_orphans, ◌+ticks◌, epoll_rounding_error_margin,
}

-- Whether a generation, if there is one, is an orphan.
abbrev pub orphaned : Option Generation → Bool
orphaned none = false
orphaned (some g) = is_since g.orphan_since

abbrev pub has_timer : Sd → ℤ → Bool
has_timer s id = Pmap.has_key s.orphans (to_u64 id)

-- What an action on the timer of a service may change.
pub record OnlyTimer (id : ℤ) (s t : Sd) : Type 0 where
  pub db_eq : t.db ≡ s.db
  pub calls_eq : t.calls ≡ s.calls
  pub now_eq : t.now ≡ s.now
  pub others : (j : ℕ) → to_u64 id ≢ j → Pmap.get t.orphans j ≡ Pmap.get s.orphans j
  pub distinct : IsDistinct t.orphans

time_left-some :
    (now : ℤ) (service : Service) (g : Generation)
    → service.current ≡ some g
    → is_since g.orphan_since ≡ true
    → (left : ℤ) × (Service.orphan_time_left now service ≡ some left)
unfolding Service.orphan_time_left
time_left-some now service g c h = elim (Option-cases (Service.orphan_time_left now service)) [
  | inl n ↦ absurd (ground arith)
  | inr (left, e) ↦ (left, e)
]

orphan_timer_create_lem :
    (service : Service) (s : Sd) (left : ℤ)
    → Service.orphan_time_left s.now service ≡ some left
    → orphan_timer_create service s
      ≡ some (
        record {
          service_id = service.service_id;
          deadline = s.now +ticks pos_part left +ticks epoll_rounding_error_margin;
        },
        s,
      )
unfolding orphan_timer_create
orphan_timer_create_lem service s left e = rw e refl

add_timer_lem :
    (service : Service) (g : Generation) (s : Sd)
    → service.current ≡ some g
    → is_since g.orphan_since ≡ true
    → has_timer s service.service_id ≡ false
    → IsDistinct s.orphans
    → (t : Sd) × (add_orphan_timer service s ≡ some (tt, t))
      × (has_timer t service.service_id ≡ true)
      × OnlyTimer service.service_id s t
unfolding add_orphan_timer
add_timer_lem service g s c o h d =
    let (left, e) = time_left-some s.now service g c o in
    let key = to_u64 service.service_id in
    let absent : Pmap.get s.orphans key ≡ none = ground (arith, has_key-get s.orphans key) in
    let timer : OrphanTimer = record {
      service_id = service.service_id;
      deadline = s.now +ticks pos_part left +ticks epoll_rounding_error_margin;
    } in
    let (timers, added, reads) = get-add s.orphans key timer absent in
    (
      record s { orphans = timers },
      ground (arith, orphan_timer_create_lem service s left e, added),
      ground (arith, has_key-get timers key, reads key),
      record {
        db_eq = refl;
        calls_eq = refl;
        now_eq = refl;
        others = λ j n. ground (arith, reads j);
        distinct = add-IsDistinct s.orphans timers key timer added d;
      },
    )

update_timer_lem :
    (service : Service) (g : Generation) (s : Sd)
    → service.current ≡ some g
    → is_since g.orphan_since ≡ true
    → has_timer s service.service_id ≡ true
    → IsDistinct s.orphans
    → (t : Sd) × (update_orphan_timer service s ≡ some (tt, t))
      × (has_timer t service.service_id ≡ true)
      × OnlyTimer service.service_id s t
unfolding update_orphan_timer
update_timer_lem service g s c o h d =
    let (left, e) = time_left-some s.now service g c o in
    let key = to_u64 service.service_id in
    elim (Option-cases (Pmap.get s.orphans key)) [
      | inl gone ↦ absurd (ground (arith, has_key-get s.orphans key))
      | inr (timer, found) ↦
          let timer' = record timer { deadline = s.now +ticks pos_part left } in
          let timers = Pmap.update s.orphans key timer' in
          (
            record s { orphans = timers },
            rw (found, e) refl,
            ground (arith, has_key-get timers key, get-update s.orphans key key timer' timer found),
            record {
              db_eq = refl;
              calls_eq = refl;
              now_eq = refl;
              others = λ j n. ground (arith, get-update s.orphans key j timer' timer found);
              distinct = update-IsDistinct s.orphans key timer' d;
            },
          )
    ]

remove_timer_lem :
    (service : Service) (s : Sd)
    → has_timer s service.service_id ≡ true
    → IsDistinct s.orphans
    → (t : Sd) × (remove_orphan_timer service s ≡ some (tt, t))
      × (has_timer t service.service_id ≡ false)
      × OnlyTimer service.service_id s t
unfolding remove_orphan_timer
remove_timer_lem service s h d =
    let key = to_u64 service.service_id in
    elim (Option-cases (Pmap.get s.orphans key)) [
      | inl gone ↦ absurd (ground (arith, has_key-get s.orphans key))
      | inr (timer, found) ↦
          let (timers, deleted, reads) = get-del s.orphans key timer d found in
          (
            record s { orphans = timers },
            rw (found, deleted) refl,
            ground (arith, has_key-get timers key, reads key),
            record {
              db_eq = refl;
              calls_eq = refl;
              now_eq = refl;
              others = λ j n. ground (arith, reads j);
              distinct = del-IsDistinct s.orphans timers key deleted d;
            },
          )
    ]

unmoved : (id : ℤ) (s : Sd) → IsDistinct s.orphans → OnlyTimer id s s
unmoved id s d = record {
  db_eq = refl;
  calls_eq = refl;
  now_eq = refl;
  others = λ j n. refl;
  distinct = d;
}

-- A committed change of a service, or its removal, sets, moves or clears the timer of the service,
-- and touches no other timer: if the service had a timer exactly when its previous generation was an
-- orphan, then it has one afterwards exactly when its current generation is. No assertion fails.
pub maintain_orphans_lem :
    (change : ChangeType) (service : Service) (s : Sd)
    → Changed change service
    → has_timer s service.service_id ≡ orphaned service.prev
    → IsDistinct s.orphans
    → (t : Sd) × (maintain_orphans service change s ≡ some (tt, t))
      × (has_timer t service.service_id ≡ orphaned service.current)
      × OnlyTimer service.service_id s t
unfolding maintain_orphans maintain_modified Service.is_orphan Service.was_orphan
maintain_orphans_lem _ service s (was_added x g p c) h d =
    elim (Bool-cases (is_since g.orphan_since)) [
      | inl o ↦
          let (t, ran, timer, only) = add_timer_lem service g s c o (ground arith) d in
          (t, ground (arith, ran), ground arith, only)
      | inr o ↦ (s, rw (c, o) refl, ground arith, unmoved service.service_id s d)
    ]
maintain_orphans_lem _ service s (was_modified x g g' p c) h d =
    elim (Bool-cases (is_since g.orphan_since)) [
      | inl was ↦ elim (Bool-cases (is_since g'.orphan_since)) [
        | inl now ↦
            let (t, ran, timer, only) = update_timer_lem service g' s c now (ground arith) d in
            (t, ground (arith, ran), ground arith, only)
        | inr now ↦
            let (t, ran, timer, only) = remove_timer_lem service s (ground arith) d in
            (t, ground (arith, ran), ground arith, only)
      ]
      | inr was ↦ elim (Bool-cases (is_since g'.orphan_since)) [
        | inl now ↦
            let (t, ran, timer, only) = add_timer_lem service g' s c now (ground arith) d in
            (t, ground (arith, ran), ground arith, only)
        | inr now ↦ (s, rw (p, c, was, now) refl, ground arith, unmoved service.service_id s d)
      ]
    ]
maintain_orphans_lem _ service s (was_removed x g p c) h d =
    elim (Bool-cases (is_since g.orphan_since)) [
      | inl was ↦
          let (t, ran, timer, only) = remove_timer_lem service s (ground arith) d in
          (t, ground (arith, ran), ground arith, only)
      | inr was ↦ (s, rw (p, was) refl, ground arith, unmoved service.service_id s d)
    ]
