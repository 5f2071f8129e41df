-- ===== src/Sd/Client/Modify.antt =====
-- A change of a service in the database, as src/sd/client.c makes it.
use tpaf.Prelude.{ℕ, ◌≡◌, ◌≢◌, refl, sym, ap, subst, ◌∙◌, true, some, List, arith}
use tpaf.Prelude.Int.{ℤ, to_u64}
use tpaf.Util.Pmap
use tpaf.Util.Pmap.{Pmap, Entry}
use tpaf.Util.Pmap.Laws.{IsDistinct, get-update}
use tpaf.Sd.Props.{Props}
use tpaf.Sd.Generation
use tpaf.Sd.Generation.{Generation}
use tpaf.Sd.Service.{Service, ChangeType}
use tpaf.Sd.Service.Laws.{IsIdle, set_each, each, modify-commit}
use tpaf.Sd.Sub.Laws.{was_modified}
use tpaf.Sd.State.{Sd, get_service, put_service}
use tpaf.Sd.Orphans.Laws.{orphaned, has_timer}
use tpaf.Sd.Orphans.Notify.{AllTell, calls_of, service_changed_lem}
use tpaf.Sd.Client.{modify_service}

-- The service after a change.
abbrev pub changed : List (Generation → Generation) → Service → Generation → Service
changed fs service g = record service { prev = some g; current = some (each fs g) }

-- A service of the database that is there and at rest, and whose orphan timer is right.
pub record IsReady (id : ℤ) (s : Sd) (service : Service) (g : Generation) (p : Props) : Type 0 where
  pub found : get_service id s ≡ some service
  pub id_eq : service.service_id ≡ id
  pub idle : IsIdle service
  pub current_eq : service.current ≡ some g
  pub props_eq : g.props ≡ some p
  pub timer : has_timer s id ≡ orphaned (some g)
  pub timers : IsDistinct s.orphans

-- What a change of a service leaves: the service as changed, and all else as it was.
pub record Modified (id : ℤ) (s t : Sd) (service : Service) : Type 0 where
  pub found : get_service id t ≡ some service
  pub others : (j : ℕ) → to_u64 id ≢ j → Pmap.get t.db.services j ≡ Pmap.get s.db.services j
  pub clients_eq : t.db.clients ≡ s.db.clients
  pub subs_eq : t.db.subs ≡ s.db.subs
  pub timer : has_timer t id ≡ orphaned service.current
  pub other_timers : (j : ℕ) → to_u64 id ≢ j → Pmap.get t.orphans j ≡ Pmap.get s.orphans j
  pub timers : IsDistinct t.orphans
  pub now_eq : t.now ≡ s.now

pub modify_service_lem :
    (id : ℤ) (s : Sd) (service : Service) (g : Generation) (p : Props)
    (fs : List (Generation → Generation))
    → IsReady id s service g p
    → Generation.is_consistent (each fs g) ≡ true
    → (tell : AllTell (changed fs service g) s.db.subs)
    → (t : Sd) × (modify_service id (set_each fs) s ≡ some (tt, t))
      × (t.calls ≡ calls_of tell s.calls)
      × Modified id s t (changed fs service g)
unfolding modify_service put_service
modify_service_lem id s service g p fs r ok tell =
    let new = changed fs service g in
    let db = s.db in
    let key = to_u64 id in
    let services = Pmap.update db.services key new in
    let s' : Sd = record s { db = record db { services = services } } in
    let done = modify-commit service g p fs r.idle r.current_eq r.props_eq ok in
    let (t, ran, timer, only) =
      service_changed_lem ChangeType.modified new s' (was_modified new g (each fs g) refl refl) tell
        (subst (λ j. has_timer s j ≡ orphaned (some g)) (sym r.id_eq) r.timer) r.timers in
    (
      t,
      ground (arith, r.found, done, ran),
      only.calls_eq,
      record {
        found = rw (only.db_eq, get-update db.services key key new service r.found) (ground arith);
        others =
            λ j n. rw (only.db_eq, get-update db.services key j new service r.found) (ground arith);
        clients_eq = ap (λ d. d.clients) only.db_eq;
        subs_eq = ap (λ d. d.subs) only.db_eq;
        timer = subst (λ j. has_timer t j ≡ orphaned new.current) r.id_eq timer;
        other_timers = λ j n. only.others j (λ e. n (ap to_u64 (sym r.id_eq) ∙ e));
        timers = only.distinct;
        now_eq = only.now_eq;
      },
    )
