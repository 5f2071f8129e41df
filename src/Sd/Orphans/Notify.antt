-- ===== src/Sd/Orphans/Notify.antt =====
-- service_changed of src/sd/sd.c: every subscription is notified, then the timer is seen to.
use tpaf.Prelude.{◌≡◌, refl, Bool, Option, none, some, List, [], ◌∷◌, arith}
use tpaf.Util.Pmap.{Pmap, Entry}
use tpaf.Util.Pmap.Laws.{IsDistinct}
use tpaf.Sd.Service.{Service, ChangeType}
use tpaf.Sd.Sub.{Sub, MatchType, match_type, notify}
use tpaf.Sd.Sub.Laws.{Changed, was_added, was_modified, was_removed, shows}
use tpaf.Sd.State.{Sd, MatchCall, for_each}
use tpaf.Sd.Orphans.{sub_notify, record_call, service_changed}
use tpaf.Sd.Orphans.Laws.{orphaned, has_timer, OnlyTimer, maintain_orphans_lem}

-- Whether a subscription can tell if it matches the two generations of a service, and what it tells.
pub record Tells (service : Service) (sub : Sub) : Type 0 where
  pub before : Bool
  pub after : Bool
  pub before_eq : shows sub service.prev ≡ some before
  pub after_eq : shows sub service.current ≡ some after

pub data AllTell (service : Service) : Pmap Sub → Type 0 where
  nobody : AllTell service []
  also :
      {e : Entry Sub} {subs : Pmap Sub}
      → Tells service e.value
      → AllTell service subs
      → AllTell service (e ∷ subs)

-- The calls of match_cb that a change leads to, from whether each subscription matches before and
-- after it, the last call first, in front of the earlier calls.
abbrev pub with_call : Sub → Service → Option MatchType → List MatchCall → List MatchCall
with_call sub service none calls = calls
with_call sub service (some m) calls =
    record { sub_id = sub.sub_id; match_type = m; service = service } ∷ calls

unfoldable pub calls_of :
    {service : Service} {subs : Pmap Sub} → AllTell service subs → List MatchCall → List MatchCall
calls_of nobody calls = calls
calls_of {service = service} (also {e = e} told tell) calls =
    calls_of tell (with_call e.value service (match_type told.before told.after) calls)

notify-told :
    (change : ChangeType) (service : Service) (sub : Sub)
    → Changed change service
    → (told : Tells service sub)
    → notify sub change service ≡ some (match_type told.before told.after)
unfolding notify shows match_type
notify-told _ service sub (was_added x g p c) told = ground (arith, told.before_eq, told.after_eq)
notify-told _ service sub (was_modified x g h p c) told =
    ground (arith, told.before_eq, told.after_eq)
notify-told _ service sub (was_removed x g p c) told = ground (arith, told.before_eq, told.after_eq)

sub_notify-told :
    (change : ChangeType) (service : Service) (e : Entry Sub) (s : Sd)
    → Changed change service
    → (told : Tells service e.value)
    → sub_notify change service e s
      ≡ some (
        tt,
        record s { calls = with_call e.value service (match_type told.before told.after) s.calls },
      )
unfolding sub_notify record_call
sub_notify-told change service e s c told =
    rw (notify-told change service e.value c told)
      (elim (match_type told.before told.after)
        as (λ m.
          record_call e.value service m s
          ≡ some (tt, record s { calls = with_call e.value service m s.calls })) [
            | none ↦ refl
            | some m ↦ refl
          ])

notify_all :
    (change : ChangeType) (service : Service) (subs : Pmap Sub) (s : Sd)
    → Changed change service
    → (tell : AllTell service subs)
    → for_each (sub_notify change service) subs s
      ≡ some (tt, record s { calls = calls_of tell s.calls })
unfolding for_each calls_of
notify_all change service _ s c nobody = refl
notify_all change service _ s c (also {e = e} {subs = subs} told tell) = ground (
  arith,
  sub_notify-told change service e s c told,
  notify_all change service subs
      (record s { calls = with_call e.value service (match_type told.before told.after) s.calls }) c
      tell,
)

-- After a change of a service, match_cb has been called for the subscriptions that the change
-- concerns, in their order, with the match type that its properties before and after give; the timer
-- of the service is there exactly if the service is an orphan now; the database and the other timers
-- are as they were. This holds if every filter can be matched against both generations, and the
-- timer was there exactly if the previous generation was an orphan.
pub service_changed_lem :
    (change : ChangeType) (service : Service) (s : Sd)
    → Changed change service
    → (tell : AllTell service s.db.subs) → has_timer s service.service_id ≡ orphaned service.prev
    → IsDistinct s.orphans
    → (t : Sd) × (service_changed service change s ≡ some (tt, t))
      × (has_timer t service.service_id ≡ orphaned service.current)
      × OnlyTimer service.service_id (record s { calls = calls_of tell s.calls }) t
unfolding service_changed
service_changed_lem change service s c tell h d =
    let s' = record s { calls = calls_of tell s.calls } in
    let (t, ran, timer, only) = maintain_orphans_lem change service s' c h d in
    (t, ground (arith, notify_all change service s.db.subs s c tell, ran), timer, only)
