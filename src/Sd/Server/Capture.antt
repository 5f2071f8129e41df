-- ===== src/Sd/Server/Capture.antt =====
-- Taking a service over: capture_service of src/sd/client.c.
use tpaf.Prelude.{ℕ, ◌≡◌, ◌≢◌, refl, none, some, arith, if◌then◌else◌, ◌==◌}
use tpaf.Prelude.Int.{ℤ, to_u64}
use tpaf.Util.Pmap
use tpaf.Util.Pmap.{Pmap}
use tpaf.Util.Pmap.Laws.{IsDistinct, get-add, get-del, get-update}
use tpaf.Sd.Generation.{Generation}
use tpaf.Sd.Service.{Service}
use tpaf.Sd.Conn
use tpaf.Sd.Conn.{Conn}
use tpaf.Sd.State.{Sd, Client, get_client, get_service, put_client}
use tpaf.Sd.Client
use tpaf.Sd.Client.{ConnRef}
use tpaf.Sd.Publish

-- A service that a client finds on a connection of another client, active or not.
pub record IsTaken (id service_id : ℤ) (s : Sd) (c v : Client) (mine theirs : Conn) (ref : ConnRef)
    (service : Service) (g : Generation) : Type 0 where
  pub found : get_service service_id s ≡ some service
  pub current_eq : service.current ≡ some g
  pub client_eq : get_client id s ≡ some c
  pub conn_eq : c.active_conn ≡ some mine
  pub victim_eq : get_client g.client_id s ≡ some v
  pub place : Client.get_service_conn v service_id ≡ some ref
  pub victim_conn_eq : Client.conn_of v ref ≡ some theirs
  pub held_id : ℤ
  pub held : Pmap.get theirs.services (to_u64 service_id) ≡ some held_id
  pub held_distinct : IsDistinct theirs.services
  pub free : Pmap.get mine.services (to_u64 service_id) ≡ none
  pub apart : to_u64 g.client_id ≢ to_u64 id

-- What taking over a service leaves: it is on the active connection of the client and no more on that
-- of its owner, and all else is as it was.
pub record Captured (id service_id : ℤ) (s t : Sd) (c v : Client) (mine theirs : Conn)
    (ref : ConnRef) (g : Generation) : Type 0 where
  pub gained : Pmap ℤ
  pub lost : Pmap ℤ
  pub gained_lem :
      (j : ℕ)
      → Pmap.get gained j
        ≡ (if to_u64 service_id == j then some service_id else Pmap.get mine.services j)
  pub lost_lem :
      (j : ℕ)
      → Pmap.get lost j ≡ (if to_u64 service_id == j then none else Pmap.get theirs.services j)
  pub client_eq :
      get_client id t ≡ some (record c { active_conn = some (record mine { services = gained }) })
  pub victim_eq :
      get_client g.client_id t ≡ some (Client.with_conn v ref (record theirs { services = lost }))
  pub other_clients :
      (j : ℕ)
      → to_u64 id ≢ j
      → to_u64 g.client_id ≢ j
      → Pmap.get t.db.clients j ≡ Pmap.get s.db.clients j
  pub services_eq : t.db.services ≡ s.db.services
  pub subs_eq : t.db.subs ≡ s.db.subs
  pub orphans_eq : t.orphans ≡ s.orphans
  pub calls_eq : t.calls ≡ s.calls

-- Taking over a service moves it from the connection of its owner to the active connection of the
-- client, and changes no other client and nothing else.
pub capture_service_lem :
    (id service_id : ℤ) (s : Sd) (c v : Client) (mine theirs : Conn) (ref : ConnRef)
    (service : Service) (g : Generation)
    → IsTaken id service_id s c v mine theirs ref service g
    → (t : Sd) × (Publish.capture_service id service_id s ≡ some (tt, t))
      × Captured id service_id s t c v mine theirs ref g
unfolding Publish.capture_service Publish.conn_del_service Publish.conn_add_service Conn.add_service
    Conn.del_service put_client
capture_service_lem id service_id s c v mine theirs ref service g k =
    let key = to_u64 service_id in
    let db = s.db in
    let (lost, drops, lost_read) = get-del theirs.services key k.held_id k.held_distinct k.held in
    let (gained, holds, gained_read) = get-add mine.services key service_id k.free in
    let v' : Client = Client.with_conn v ref (record theirs { services = lost }) in
    let c' : Client = record c { active_conn = some (record mine { services = gained }) } in
    let between = Pmap.update db.clients (to_u64 g.client_id) v' in
    let read₁ : (j : ℕ)
        → Pmap.get between j
          ≡ (if to_u64 g.client_id == j then some v' else Pmap.get db.clients j) =
      λ j. get-update db.clients (to_u64 g.client_id) j v' v k.victim_eq in
    let still : Pmap.get between (to_u64 id) ≡ some c =
      ground (arith, read₁ (to_u64 id), k.client_eq, k.apart) in
    let after = Pmap.update between (to_u64 id) c' in
    let read₂ : (j : ℕ)
        → Pmap.get after j ≡ (if to_u64 id == j then some c' else Pmap.get between j) =
      λ j. get-update between (to_u64 id) j c' c still in
    let t : Sd = record s { db = record db { clients = after } } in
    (
      t,
      ground (
        arith, k.found, k.current_eq, k.client_eq, k.conn_eq, k.victim_eq, k.victim_conn_eq,
        k.apart, drops, holds, still, k.place,
      ),
      record {
        gained = gained;
        lost = lost;
        gained_lem = gained_read;
        lost_lem = lost_read;
        client_eq = ground (arith, read₂ (to_u64 id));
        victim_eq = ground (arith, read₂ (to_u64 g.client_id), read₁ (to_u64 g.client_id), k.apart);
        other_clients = λ j n m. ground (arith, read₂ j, read₁ j);
        services_eq = refl;
        subs_eq = refl;
        orphans_eq = refl;
        calls_eq = refl;
      },
    )
