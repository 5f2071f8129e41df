-- ===== src/Sd/Server/Disconnection.antt =====
-- A client that disconnects: sd_client_disconnect of src/sd/sd.c and client_disconnect of client.c.
use tpaf.Prelude.{ℕ, ◌≡◌, ◌≢◌, ap, ◌∙◌, true, none, some, [], ◌∷◌, arith, if◌then◌else◌, ◌==◌}
use tpaf.Prelude.Int.{ℤ, to_u64, is_nonneg}
use tpaf.Util.Pmap
use tpaf.Util.Pmap.{Pmap, Entry}
use tpaf.Util.Pmap.Laws.{IsDistinct, get-update, update-IsDistinct}
use tpaf.Sd.Service.{Service}
use tpaf.Sd.Sub.{Sub}
use tpaf.Sd.Conn
use tpaf.Sd.Conn.{Conn}
use tpaf.Sd.State.{Sd, Client, get_client, put_client}
use tpaf.Sd.Orphans.Notify.{AllTell}
use tpaf.Sd.Client
use tpaf.Sd.Client.{Rc, sub_handle_conn_inactivation, service_handle_conn_inactivation, retire}
use tpaf.Sd.Client.Inactivation.{IsOutside, AllReady, AllOrphans, inactivate_lem}
use tpaf.Sd.Client.Retirement.{SubsHeld, SubsGone, drop_subs_lem, kept, retire_lem}
use tpaf.Sd.Server

-- A connected client whose services are at rest and whose subscriptions are in the database.
pub record IsLeaving (id : ℤ) (s : Sd) (c : Client) (conn : Conn) : Type 0 where
  pub client_eq : get_client id s ≡ some c
  pub client_id_eq : c.client_id ≡ id
  pub id_nonneg : is_nonneg id ≡ true
  pub conn_eq : c.active_conn ≡ some conn
  pub connected : Conn.is_connected conn ≡ true
  pub now_nonneg : is_nonneg s.now ≡ true
  pub clients : IsDistinct s.db.clients
  pub subs : IsDistinct s.db.subs
  pub subs_held : SubsHeld s.db.subs conn.subs
  pub services_ready : AllReady s.now s conn.services

-- The connection after it has gone down.
abbrev pub down : ℤ → Conn → Conn
down now conn = record conn { disconnected_at = now; subs = [] }

-- What a disconnect leaves.
pub record Disconnected (id : ℤ) (s t : Sd) (c : Client) (conn : Conn) : Type 0 where
  pub orphans : AllOrphans s.now t conn.services
  pub subs_gone : SubsGone t.db.subs conn.subs
  pub client_eq : get_client id t ≡ (
      let c' = kept (record c { active_conn = none }) (down s.now conn) in
      if Client.is_stale c' then none else some c')
  pub other_clients : (j : ℕ) → to_u64 id ≢ j → Pmap.get t.db.clients j ≡ Pmap.get s.db.clients j
  pub other_services :
      (j : ℕ) → IsOutside j conn.services → Pmap.get t.db.services j ≡ Pmap.get s.db.services j
  pub other_subs : (j : ℕ) → IsOutside j conn.subs → Pmap.get t.db.subs j ≡ Pmap.get s.db.subs j
  pub other_timers :
      (j : ℕ) → IsOutside j conn.services → Pmap.get t.orphans j ≡ Pmap.get s.orphans j

-- The services stay ready when clients change and subscriptions go.
AllReady-subs :
    (since : ℤ) (s : Sd) (clients : Pmap Client) (subs : Pmap Sub) (es : Pmap ℤ)
    → ((service : Service) → AllTell service s.db.subs → AllTell service subs)
    → AllReady since s es
    → (let db = s.db in
        AllReady since (record s { db = record db { clients = clients; subs = subs } }) es)
AllReady-subs since s clients subs [] tells AllReady.no_more = AllReady.no_more
AllReady-subs since s clients subs (e ∷ es) tells
      (AllReady.one_more service g p r ok tell apart ready) =
    AllReady.one_more service g p
      (record {
        found = r.found;
        id_eq = r.id_eq;
        idle = r.idle;
        current_eq = r.current_eq;
        props_eq = r.props_eq;
        timer = r.timer;
        timers = r.timers;
      })
      ok (tells _ tell) apart (AllReady-subs since s clients subs es tells ready)

AllOrphans-clients :
    (since : ℤ) (t : Sd) (clients : Pmap Client) (es : Pmap ℤ)
    → AllOrphans since t es
    → (let db = t.db in AllOrphans since (record t { db = record db { clients = clients } }) es)
AllOrphans-clients since t clients [] AllOrphans.no_more = AllOrphans.no_more
AllOrphans-clients since t clients (e ∷ es)
      (AllOrphans.one_more service g found current orphan timer rest) =
    AllOrphans.one_more service g found current orphan timer
      (AllOrphans-clients since t clients es rest)

-- A connected client whose services are at rest and whose subscriptions are in the database
-- (IsLeaving) disconnects: its services become orphans at that time, each with a timer, and stay
-- with the connection; its subscriptions go; the client is kept with the connection if that holds
-- services, and goes if no connection of it does. The clients, services, subscriptions and timers
-- of others do not change. No assertion fails.
pub client_disconnect_lem :
    (id : ℤ) (s : Sd) (c : Client) (conn : Conn)
    → IsLeaving id s c conn
    → (t : Sd) × (Server.client_disconnect id s ≡ some (Rc.ok, t)) × Disconnected id s t c conn
unfolding Server.client_disconnect Client.disconnect Conn.mark_disconnected Conn.clear_subs
    put_client
client_disconnect_lem id s c conn k =
    let db = s.db in
    let key = to_u64 id in
    let c₁ : Client = record c { active_conn = none } in
    let clients₁ = Pmap.update db.clients key c₁ in
    let read₁ : (j : ℕ)
        → Pmap.get clients₁ j ≡ (if key == j then some c₁ else Pmap.get db.clients j) =
      λ j. get-update db.clients key j c₁ c k.client_eq in
    let s₁ : Sd = record s { db = record db { clients = clients₁ } } in
    let (subs, drops, gone, other_subs, tells) = drop_subs_lem conn.subs s₁ k.subs k.subs_held in
    let s₂ : Sd = record s { db = record db { clients = clients₁; subs = subs } } in
    let (t₁, orphans, done) =
      inactivate_lem s.now conn.services s₂ k.now_nonneg
        (AllReady-subs s.now s clients₁ subs conn.services tells k.services_ready) in
    let found₁ : get_client id t₁ ≡ some c₁ = rw done.clients_eq (ground (arith, read₁ key)) in
    let (clients, retires, read) =
      retire_lem id c₁ (down s.now conn) t₁ found₁ k.client_id_eq k.id_nonneg (
        coe 1 0 (i. IsDistinct (done.clients_eq i))
          (update-IsDistinct db.clients key c₁ k.clients)) in
    let db₁ = t₁.db in
    let t : Sd = record t₁ { db = record db₁ { clients = clients } } in
    (
      t,
      ground (arith, k.client_eq, k.conn_eq, k.connected, drops, orphans, retires),
      record {
        orphans = AllOrphans-clients s.now t₁ clients conn.services done.orphans;
        subs_gone = coe 1 0 (i. SubsGone (done.subs_eq i) conn.subs) gone;
        client_eq = ground (arith, read key);
        other_clients =
            λ j n. ground (arith, read j, ap (λ m. Pmap.get m j) done.clients_eq, read₁ j);
        other_services = done.others;
        other_subs = λ j o. ap (λ m. Pmap.get m j) done.subs_eq ∙ other_subs j o;
        other_timers = done.other_timers;
      },
    )
