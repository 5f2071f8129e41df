-- ===== src/Sd/Server/Removal.antt =====
-- Removing a service: client_unpublish and remove_service of src/sd/client.c.
use tpaf.Prelude.{
  ℕ, ◌≡◌, ◌≢◌, refl, sym, ◌∙◌, ap, subst, true, false, none, some, arith, if◌then◌else◌, ◌==◌,
}
use tpaf.Prelude.Int.{ℤ, ==ℤ_iff, to_u64, is_nonneg}
use tpaf.Util.Pmap
use tpaf.Util.Pmap.{Pmap}
use tpaf.Util.Pmap.Laws.{IsDistinct, get-del, get-update, has_key-get}
use tpaf.Sd.Generation.{Generation}
use tpaf.Sd.Service
use tpaf.Sd.Service.{Service, ChangeType}
use tpaf.Sd.Service.Laws.{IsIdle, idle-ongoing}
use tpaf.Clib.Ftime.{is_since}
use tpaf.Sd.Sub.Laws.{was_removed}
use tpaf.Sd.Orphans.Laws.{has_timer, orphaned}
use tpaf.Sd.Orphans.Notify.{AllTell, calls_of, service_changed_lem}
use tpaf.Sd.Conn
use tpaf.Sd.Conn.{Conn}
use tpaf.Sd.State.{Sd, Client, get_client, get_service, put_client, del_service}
use tpaf.Sd.Client
use tpaf.Sd.Client.{Rc}
use tpaf.Sd.Server
use tpaf.Sd.Publish

-- A service that is at rest on the active connection of a client, and whose timer is right.
pub record IsHeld (id service_id : ℤ) (s : Sd) (c : Client) (conn : Conn) (service : Service)
    (g : Generation) : Type 0 where
  pub found : get_service service_id s ≡ some service
  pub id_eq : service.service_id ≡ service_id
  pub id_nonneg : is_nonneg service_id ≡ true
  pub idle : IsIdle service
  pub current_eq : service.current ≡ some g
  pub client_eq : get_client id s ≡ some c
  pub conn_eq : c.active_conn ≡ some conn
  pub connected : Conn.is_connected conn ≡ true
  pub held_id : ℤ
  pub held : Pmap.get conn.services (to_u64 service_id) ≡ some held_id
  pub held_distinct : IsDistinct conn.services
  pub services_distinct : IsDistinct s.db.services
  pub timer : has_timer s service_id ≡ is_since g.orphan_since
  pub timers : IsDistinct s.orphans

-- What removing a service leaves: no such service, timer or place in the connection, and all else as
-- it was.
pub record Removed (id service_id : ℤ) (s t : Sd) (c : Client) (conn : Conn) : Type 0 where
  pub gone : get_service service_id t ≡ none
  pub other_services :
      (j : ℕ) → to_u64 service_id ≢ j → Pmap.get t.db.services j ≡ Pmap.get s.db.services j
  pub held : Pmap ℤ
  pub held_lem :
      (j : ℕ)
      → Pmap.get held j ≡ (if to_u64 service_id == j then none else Pmap.get conn.services j)
  pub client_eq :
      get_client id t ≡ some (record c { active_conn = some (record conn { services = held }) })
  pub other_clients : (j : ℕ) → to_u64 id ≢ j → Pmap.get t.db.clients j ≡ Pmap.get s.db.clients j
  pub subs_eq : t.db.subs ≡ s.db.subs
  pub no_timer : has_timer t service_id ≡ false
  pub other_timers : (j : ℕ) → to_u64 service_id ≢ j → Pmap.get t.orphans j ≡ Pmap.get s.orphans j

pub remove_lem :
    (service : Service)
    → IsIdle service
    → Service.remove service
      ≡ some (record service { prev = service.current; current = none }, ChangeType.removed)
unfolding Service.remove
remove_lem service i = rw (idle-ongoing service i) refl

pub remove_service_lem :
    (id service_id : ℤ) (s : Sd) (c : Client) (conn : Conn) (service : Service) (g : Generation)
    → IsHeld id service_id s c conn service g
    → (tell : AllTell (record service { prev = service.current; current = none }) s.db.subs)
    → (t : Sd) × (Publish.remove_service id service_id s ≡ some (tt, t))
      × (t.calls ≡ calls_of tell s.calls)
      × Removed id service_id s t c conn
unfolding Publish.remove_service Publish.conn_del_service Client.get_service_conn Client.is_stale
    Conn.is_stale Conn.del_service Conn.has_service put_client del_service
remove_service_lem id service_id s c conn service g k tell =
    let key = to_u64 service_id in
    let db = s.db in
    let old = record service { prev = service.current; current = none } in
    let (held, drops, held_read) = get-del conn.services key k.held_id k.held_distinct k.held in
    let (services, deleted, services_read) =
      get-del db.services key service k.services_distinct k.found in
    let c' : Client = record c { active_conn = some (record conn { services = held }) } in
    let clients = Pmap.update db.clients (to_u64 id) c' in
    let clients_read : (j : ℕ)
        → Pmap.get clients j ≡ (if to_u64 id == j then some c' else Pmap.get db.clients j) =
      λ j. get-update db.clients (to_u64 id) j c' c k.client_eq in
    let s' : Sd = record s { db = record db { clients = clients; services = services } } in
    let (t, ran, timer, only) =
      service_changed_lem ChangeType.removed old s' (was_removed old g k.current_eq refl) tell
        (subst (λ j. has_timer s j ≡ is_since g.orphan_since) (sym k.id_eq) k.timer
          ∙ sym (ap orphaned k.current_eq))
        k.timers in
    (
      t,
      ground (
        arith,
        k.found,
        k.id_nonneg,
        k.client_eq,
        k.conn_eq,
        k.connected,
        drops,
        deleted,
        clients_read (to_u64 id),
        has_key-get conn.services key,
        k.held,
        remove_lem service k.idle,
        ran,
      ),
      only.calls_eq,
      record {
        gone = rw only.db_eq (ground (arith, services_read key));
        other_services = λ j n. rw only.db_eq (ground (arith, services_read j));
        held = held;
        held_lem = held_read;
        client_eq = rw only.db_eq (ground (arith, clients_read (to_u64 id)));
        other_clients = λ j n. rw only.db_eq (ground (arith, clients_read j));
        subs_eq = ap (λ d. d.subs) only.db_eq;
        no_timer = subst (λ j. has_timer t j ≡ false) k.id_eq timer;
        other_timers = λ j n. only.others j (λ e. n (ap to_u64 (sym k.id_eq) ∙ e));
      },
    )

-- Unpublishing a service at rest that its owner holds on its active connection (IsHeld), and that
-- is no orphan, if every filter can be matched against the generations before and after (AllTell):
-- the service is removed, the subscriptions are told, and the client and all else stay.
pub unpublish-own :
    (id service_id : ℤ) (s : Sd) (c : Client) (conn : Conn) (service : Service) (g : Generation)
    → IsHeld id service_id s c conn service g
    → g.client_id ≡ id
    → is_since g.orphan_since ≡ false
    → (tell : AllTell (record service { prev = service.current; current = none }) s.db.subs)
    → (t : Sd) × (Server.unpublish id service_id s ≡ some (Rc.ok, t))
      × (t.calls ≡ calls_of tell s.calls)
      × Removed id service_id s t c conn
unfolding Server.unpublish Publish.unpublish
unpublish-own id service_id s c conn service g k own orphan tell =
    let (t, ran, calls, removed) = remove_service_lem id service_id s c conn service g k tell in
    (
      t,
      ground (
        arith,
        k.found,
        k.current_eq,
        k.client_eq,
        k.conn_eq,
        own,
        orphan,
        ran,
        ==ℤ_iff id g.client_id,
      ),
      calls,
      removed,
    )
