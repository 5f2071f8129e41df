-- ===== src/Sd/Orphans.antt =====
-- src/sd/sd.c: the timers of orphan services, and service_changed, which every change of a service
-- calls. libevent's event_add and event_del set and clear the deadline of a timer; when it is past
-- the clock, the event loop calls orphan_timeout_cb (Server).
pub mod Laws
pub mod Notify
use tpaf.Prelude.{ℕ, ◌+◌, ◌/◌, Bool, true, false, Option, none, some, ◌∷◌}
use tpaf.Prelude.Int.{ℤ, to_u64, pos_part, sub_ℕ, neg_part}
use tpaf.Clib.Ftime.{ticks_per_second}
use tpaf.Util.Pmap
use tpaf.Util.Pmap.{Pmap, Entry}
use tpaf.Sd.Service
use tpaf.Sd.Service.{Service, ChangeType}
use tpaf.Sd.Sub
use tpaf.Sd.Sub.{Sub, MatchType}
use tpaf.Sd.State.{OrphanTimer, M, ◌>>=◌, ◌>>◌, pure, lift, ut_assert, when, for_each, get_sd}

infixl 65 ◌+ticks◌
abbrev pub ◌+ticks◌ : ℤ → ℕ → ℤ
t +ticks n = sub_ℕ (pos_part t + n) (neg_part t)

-- 1e-3 seconds.
abbrev pub epoll_rounding_error_margin : ℕ
epoll_rounding_error_margin = ticks_per_second / 1000

abbrev put_orphans : Pmap OrphanTimer → M (Unit {0})
put_orphans orphans s = some (tt, record s { orphans = orphans })

-- The time that is left is computed once more, with the margin added.
unfoldable pub orphan_timer_create : Service → M OrphanTimer
orphan_timer_create service = do
  s ← get_sd
  time_left ← lift (Service.orphan_time_left s.now service)
  pure (record {
    service_id = service.service_id;
    deadline = s.now +ticks pos_part time_left +ticks epoll_rounding_error_margin;
  })

unfoldable pub add_orphan_timer : Service → M (Unit {0})
add_orphan_timer service = do
  orphan_timer ← orphan_timer_create service
  s ← get_sd
  orphans ← lift (Pmap.add s.orphans (to_u64 service.service_id) orphan_timer)
  put_orphans orphans

-- The margin is not added here.
unfoldable pub update_orphan_timer : Service → M (Unit {0})
update_orphan_timer service = do
  s ← get_sd
  orphan_timer ← lift (Pmap.get s.orphans (to_u64 service.service_id))
  time_left ← lift (Service.orphan_time_left s.now service)
  put_orphans (
      Pmap.update s.orphans (to_u64 service.service_id)
        (record orphan_timer { deadline = s.now +ticks pos_part time_left }))

unfoldable pub remove_orphan_timer : Service → M (Unit {0})
remove_orphan_timer service = do
  s ← get_sd
  orphan_timer ← lift (Pmap.get s.orphans (to_u64 service.service_id))
  orphans ← lift (Pmap.del s.orphans (to_u64 service.service_id))
  put_orphans orphans

-- The three branches on whether the service was and is an orphan.
unfoldable pub maintain_modified : Bool → Bool → Service → M (Unit {0})
maintain_modified true false service = remove_orphan_timer service
maintain_modified false true service = add_orphan_timer service
maintain_modified true true service = update_orphan_timer service
maintain_modified false false service = pure tt

unfoldable pub maintain_orphans : Service → ChangeType → M (Unit {0})
maintain_orphans service ChangeType.added = do
  is_orphan ← lift (Service.is_orphan service)
  when is_orphan (add_orphan_timer service)
maintain_orphans service ChangeType.modified = do
  is_orphan ← lift (Service.is_orphan service)
  maintain_modified (Service.was_orphan service) is_orphan service
maintain_orphans service ChangeType.removed =
    when (Service.was_orphan service) (remove_orphan_timer service)
maintain_orphans service ChangeType.unchanged = ut_assert false

-- match_cb, if sub_notify calls it.
unfoldable pub record_call : Sub → Service → Option MatchType → M (Unit {0})
record_call sub service none s = some (tt, s)
record_call sub service (some match_type) s = some (
  tt,
  record s {
    calls = record { sub_id = sub.sub_id; match_type = match_type; service = service } ∷ s.calls;
  },
)

unfoldable pub sub_notify : ChangeType → Service → Entry Sub → M (Unit {0})
sub_notify change_type service entry = do
  match_type ← lift (Sub.notify entry.value change_type service)
  record_call entry.value service match_type

unfoldable pub service_changed : Service → ChangeType → M (Unit {0})
service_changed service change_type = do
  s ← get_sd
  for_each (sub_notify change_type service) s.db.subs
  maintain_orphans service change_type
