-- ===== src/Sd/Server/Expiry.antt =====
-- The orphan timer of a service going off: orphan_timeout_cb of src/sd/sd.c and client_purge_orphan
-- of src/sd/client.c.
use tpaf.Prelude.{
  ℕ, ◌≡◌, ◌≢◌, refl, sym, ◌∙◌, ap, subst, true, false, none, some, arith, if◌then◌else◌, ◌==◌,
}
use tpaf.Prelude.Int.{ℤ, ==ℤ_iff, to_u64}
use tpaf.Util.Pmap
use tpaf.Util.Pmap.{Pmap}
use tpaf.Util.Pmap.Laws.{get-del}
use tpaf.Sd.Generation.{Generation}
use tpaf.Sd.Service.{Service, ChangeType}
use tpaf.Sd.Sub.Laws.{was_removed}
use tpaf.Sd.Conn.{Conn}
use tpaf.Sd.State.{Sd, Client, get_client, get_service}
use tpaf.Sd.Orphans.Laws.{has_timer, orphaned}
use tpaf.Sd.Orphans.Notify.{AllTell, calls_of, service_changed_lem}
use tpaf.Clib.Str.{Str}
use tpaf.Sd.Conn
use tpaf.Sd.Server.Connections.{away}
use tpaf.Sd.Client
use tpaf.Sd.Client.{ConnRef}
use tpaf.Sd.Publish
use tpaf.Sd.Server
use tpaf.Sd.Server.Orphan.{IsOrphan, without, remove_service-clients}

-- What the expiry leaves: no service and no timer; the client without the service, or no client, if
-- it has no other; and all else as it was.
pub record Expired (id service_id : ℤ) (i : ℕ) (s t : Sd) (c : Client) (conn : Conn) : Type 0 where
  pub gone : get_service service_id t ≡ none
  pub other_services :
      (j : ℕ) → to_u64 service_id ≢ j → Pmap.get t.db.services j ≡ Pmap.get s.db.services j
  pub held : Pmap ℤ
  pub held_lem :
      (j : ℕ)
      → Pmap.get held j ≡ (if to_u64 service_id == j then none else Pmap.get conn.services j)
  pub client_eq : get_client id t ≡ (
      let c' = without c i (record conn { services = held }) in
      if Client.is_stale c' then none else some c')
  pub other_clients : (j : ℕ) → to_u64 id ≢ j → Pmap.get t.db.clients j ≡ Pmap.get s.db.clients j
  pub subs_eq : t.db.subs ≡ s.db.subs
  pub no_timer : has_timer t service_id ≡ false
  pub other_timers : (j : ℕ) → to_u64 service_id ≢ j → Pmap.get t.orphans j ≡ Pmap.get s.orphans j

-- When the timer of an orphan at rest goes off while its owner is not connected and holds it on an
-- inactive connection (IsOrphan), if every filter can be matched against the generations before and
-- after (AllTell): the service and its timer are removed, and the subscriptions are told; a
-- connection that holds no other service goes, and the client too if it has no connection left that
-- does. No assertion fails.
pub orphan_timeout_lem :
    (id service_id : ℤ) (i : ℕ) (s : Sd) (c : Client) (conn : Conn) (service : Service)
    (g : Generation)
    → IsOrphan id service_id i s c conn service g
    → (tell : AllTell (record service { prev = service.current; current = none }) s.db.subs)
    → (t : Sd) × (Server.orphan_timeout service_id s ≡ some (tt, t))
      × (t.calls ≡ calls_of tell s.calls)
      × Expired id service_id i s t c conn
unfolding Server.orphan_timeout Publish.purge_orphan
orphan_timeout_lem id service_id i s c conn service g k tell =
    let key = to_u64 service_id in
    let db = s.db in
    let old = record service { prev = service.current; current = none } in
    let (held, drops, held_read) = get-del conn.services key k.held_id k.held_distinct k.held in
    let (services, deleted, services_read) =
      get-del db.services key service k.services_distinct k.found in
    let (clients, removes, clients_read) =
      remove_service-clients id service_id i s c conn service g held services k drops deleted in
    let s' : Sd = record s { db = record db { clients = clients; services = services } } in
    let timed : has_timer s' service.service_id ≡ orphaned service.current =
      subst (λ j. has_timer s j ≡ true) (sym k.id_eq) k.timer
      ∙ sym (ap orphaned k.current_eq ∙ k.orphan) in
    let (t, ran, timer, only) =
      service_changed_lem ChangeType.removed old s' (was_removed old g k.current_eq refl) tell timed
        k.timers in
    (
      t,
      ground (
        arith,
        k.found,
        k.id_eq,
        k.current_eq,
        k.owner_eq,
        k.client_eq,
        k.client_id_eq,
        k.away,
        removes,
        ran,
        ==ℤ_iff id id,
      ),
      only.calls_eq,
      record {
        gone = rw only.db_eq (ground (arith, services_read key));
        other_services = λ j n. rw only.db_eq (ground (arith, services_read j));
        held = held;
        held_lem = held_read;
        client_eq = rw only.db_eq (ground (arith, clients_read (to_u64 id)));
        other_clients = λ j n. rw only.db_eq (ground (arith, clients_read j));
        subs_eq = ap (λ d. d.subs) only.db_eq;
        no_timer = subst (λ j. has_timer t j ≡ false) k.id_eq timer;
        other_timers = λ j n. only.others j (λ e. n (ap to_u64 (sym k.id_eq) ∙ e));
      },
    )
