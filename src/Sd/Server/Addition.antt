-- ===== src/Sd/Server/Addition.antt =====
-- Publishing a service that is not there: client_publish of src/sd/client.c.
use tpaf.Prelude.{ℕ, ◌≡◌, ◌≢◌, refl, ◌∙◌, true, false, none, some, arith, if◌then◌else◌, ◌==◌}
use tpaf.Prelude.Int.{ℤ, to_u64, is_nonneg}
use tpaf.Util.Pmap
use tpaf.Util.Pmap.{Pmap, Entry}
use tpaf.Sd.Props.{Props}
use tpaf.Sd.Generation
use tpaf.Sd.Generation.{Generation}
use tpaf.Sd.Service
use tpaf.Sd.Service.{Service, ChangeType, ◌>>=◌}
use tpaf.Sd.Conn
use tpaf.Sd.Conn.{Conn}
use tpaf.Sd.State.{Sd, Client, get_client, get_service, add_service, put_client}
use tpaf.Util.Pmap.Laws.{IsDistinct, get-add, get-update, has_key-get}
use tpaf.Sd.Orphans.Laws.{has_timer}
use tpaf.Sd.Orphans.Notify.{AllTell, calls_of, service_changed_lem}
use tpaf.Sd.Sub.Laws.{was_added}
use tpaf.Sd.Orphans.{service_changed}
use tpaf.Sd.Client.{Rc}
use tpaf.Sd.Publish
use tpaf.Sd.Server
use tpaf.Sd.Server.Renewal.{published}

-- A service of the database that is not there yet, and a connected client that may publish it.
pub record IsNew (id service_id : ℤ) (s : Sd) (c : Client) (conn : Conn) : Type 0 where
  pub client_eq : get_client id s ≡ some c
  pub conn_eq : c.active_conn ≡ some conn
  pub absent : get_service service_id s ≡ none
  pub unpublished : Conn.has_service conn service_id ≡ false
  pub no_timer : has_timer s service_id ≡ false
  pub timers : IsDistinct s.orphans
  pub id_nonneg : is_nonneg service_id ≡ true

-- A service after its first change.
abbrev pub first : ℤ → Generation → Service
first service_id g = record {
  service_id = service_id;
  change_in_progress = ChangeType.unchanged;
  current = some g;
  prev = none;
  next = none;
  ref_cnt = 1;
}

first_change :
    (id service_id generation ttl : ℤ) (props : Props)
    → Generation.is_consistent (published id generation props ttl) ≡ true
    → (Service.add_begin (Service.create service_id)
        >>= Publish.set_all id generation props ttl
        >>= Service.commit)
      ≡ some (first service_id (published id generation props ttl), ChangeType.added)
unfolding Service.add_begin Service.create Service.commit Service.set_next
    Service.has_ongoing_change Service.ongoing Generation.is_consistent Generation.set_props
first_change id service_id generation ttl props ok = ground (arith, ok)

-- What publishing a new service leaves: the service, its place in the connection of the client, and
-- all else as it was.
pub record Added (id service_id : ℤ) (s t : Sd) (c : Client) (conn : Conn) (service : Service)
    : Type 0 where
  pub found : get_service service_id t ≡ some service
  pub other_services :
      (j : ℕ) → to_u64 service_id ≢ j → Pmap.get t.db.services j ≡ Pmap.get s.db.services j
  pub held : Pmap ℤ
  pub held_lem :
      (j : ℕ)
      → Pmap.get held j
        ≡ (if to_u64 service_id == j then some service_id else Pmap.get conn.services j)
  pub client_eq :
      get_client id t ≡ some (record c { active_conn = some (record conn { services = held }) })
  pub other_clients : (j : ℕ) → to_u64 id ≢ j → Pmap.get t.db.clients j ≡ Pmap.get s.db.clients j
  pub subs_eq : t.db.subs ≡ s.db.subs
  pub no_timer : has_timer t service_id ≡ false
  pub other_timers : (j : ℕ) → to_u64 service_id ≢ j → Pmap.get t.orphans j ≡ Pmap.get s.orphans j
  pub same_now : t.now ≡ s.now

-- Publishing under an id with no service, timer or place in the connection of the connected client
-- (IsNew), with numbers that are not negative, if every filter can be matched against the
-- generations before and after (AllTell): the service is added, owned by the client and held by its
-- connection, with all that was published. The subscriptions are told, and nothing else changes.
pub publish-new :
    (id service_id generation ttl : ℤ) (props : Props) (s : Sd) (c : Client) (conn : Conn)
    → IsNew id service_id s c conn
    → is_nonneg generation ≡ true
    → is_nonneg ttl ≡ true
    → is_nonneg id ≡ true
    → (tell : AllTell (first service_id (published id generation props ttl)) s.db.subs)
    → (t : Sd) × (Server.publish id service_id generation props ttl s ≡ some (Rc.ok, t))
      × (t.calls ≡ calls_of tell s.calls)
      × Added id service_id s t c conn (first service_id (published id generation props ttl))
unfolding Server.publish Publish.publish Publish.publish_new Publish.conn_add_service add_service
    put_client Conn.add_service Conn.has_service Generation.is_consistent
publish-new id service_id generation ttl props s c conn n hg ht hi tell =
    let g = published id generation props ttl in
    let new = first service_id g in
    let db = s.db in
    let key = to_u64 service_id in
    let ok : Generation.is_consistent g ≡ true = ground arith in
    let begun = first_change id service_id generation ttl props ok in
    let (u, ran, timer, only) =
      service_changed_lem ChangeType.added new s (was_added new g refl refl) tell n.no_timer
        n.timers in
    let u' : Sd = record u { db = s.db } in
    let ran' : service_changed new ChangeType.added s ≡ some (tt, u') =
      ran ∙ (λ i. some (tt, record u { db = only.db_eq i })) in
    let (services, added, services_read) = get-add db.services key new n.absent in
    let free : Pmap.get conn.services key ≡ none =
      ground (arith, n.unpublished, has_key-get conn.services key) in
    let (held, holds, held_read) = get-add conn.services key service_id free in
    let c' : Client = record c { active_conn = some (record conn { services = held }) } in
    let t : Sd = record u {
      db = record db { services = services; clients = Pmap.update db.clients (to_u64 id) c' };
    } in
    (
      t,
      ground (arith, n.client_eq, n.conn_eq, n.absent, begun, ran', added, holds, n.id_nonneg),
      only.calls_eq,
      record {
        found = ground (arith, services_read key);
        other_services = λ j h. ground (arith, services_read j);
        held = held;
        held_lem = held_read;
        client_eq = ground (arith, get-update db.clients (to_u64 id) (to_u64 id) c' c n.client_eq);
        other_clients = λ j h. ground (arith, get-update db.clients (to_u64 id) j c' c n.client_eq);
        subs_eq = refl;
        no_timer = timer;
        other_timers = only.others;
        same_now = only.now_eq;
      },
    )
