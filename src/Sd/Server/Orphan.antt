-- ===== src/Sd/Server/Orphan.antt =====
-- The clients when an orphan is removed: remove_service of src/sd/client.c on an inactive connection.
use tpaf.Prelude.{
  ℕ, zero, suc, ◌≡◌, true, none, some, List, [], ◌∷◌, arith, if◌then◌else◌, ◌==◌, get_elem?, set,
  Bool-cases, inl, inr,
}
use tpaf.Prelude.Int.{ℤ, to_u64, is_nonneg}
use tpaf.Clib.Ftime.{is_since}
use tpaf.Util.Sequence
use tpaf.Util.Pmap
use tpaf.Util.Pmap.{Pmap}
use tpaf.Util.Pmap.Laws.{IsDistinct, get-del, get-update, update-IsDistinct}
use tpaf.Sd.Generation.{Generation}
use tpaf.Sd.Service.{Service, ChangeType}
use tpaf.Sd.Service.Laws.{IsIdle}
use tpaf.Sd.Conn
use tpaf.Sd.Conn.{Conn}
use tpaf.Sd.State.{Sd, Client, get_client, get_service, put_client, del_client, del_service}
use tpaf.Sd.Orphans.{service_changed}
use tpaf.Sd.Orphans.Laws.{has_timer}
use tpaf.Sd.Client
use tpaf.Sd.Client.{ConnRef}
use tpaf.Sd.Publish
use tpaf.Sd.Server.Removal.{remove_lem}

get_elem?-set :
    {A : Type 0} (l : List A) (i : ℕ) (x y : A)
    → get_elem? l i ≡ some y
    → get_elem? (set l i x) i ≡ some x
get_elem?-set [] i x y e = ground arith
get_elem?-set (z ∷ l) zero x y e = ground arith
get_elem?-set (z ∷ l) (suc i) x y e = ground (arith, get_elem?-set l i x y)

-- An orphan on an inactive connection of its owner, who is not connected, with its timer.
pub record IsOrphan (id service_id : ℤ) (i : ℕ) (s : Sd) (c : Client) (conn : Conn)
    (service : Service) (g : Generation) : Type 0 where
  pub found : get_service service_id s ≡ some service
  pub id_eq : service.service_id ≡ service_id
  pub id_nonneg : is_nonneg service_id ≡ true
  pub idle : IsIdle service
  pub current_eq : service.current ≡ some g
  pub owner_eq : g.client_id ≡ id
  pub orphan : is_since g.orphan_since ≡ true
  pub client_eq : get_client id s ≡ some c
  pub client_id_eq : c.client_id ≡ id
  pub client_nonneg : is_nonneg id ≡ true
  pub away : c.active_conn ≡ none
  pub place : Client.get_service_conn c service_id ≡ some (ConnRef.inactive i)
  pub conn_eq : get_elem? c.inactive_conns i ≡ some conn
  pub held_id : ℤ
  pub held : Pmap.get conn.services (to_u64 service_id) ≡ some held_id
  pub held_distinct : IsDistinct conn.services
  pub services_distinct : IsDistinct s.db.services
  pub clients_distinct : IsDistinct s.db.clients
  pub timer : has_timer s service_id ≡ true
  pub timers : IsDistinct s.orphans

-- The client without the service: a connection that is stale then is dropped.
unfoldable pub without : Client → ℕ → Conn → Client
without c i conn =
    if Conn.is_stale conn
    then record c { inactive_conns = Sequence.delete_at i (set c.inactive_conns i conn) }
    else record c { inactive_conns = set c.inactive_conns i conn }

-- The clients after the expiry, and the rest of the work: the notifications and the timer.
pub remove_service-clients :
    (id service_id : ℤ) (i : ℕ) (s : Sd) (c : Client) (conn : Conn) (service : Service)
    (g : Generation) (held : Pmap ℤ) (services : Pmap Service)
    → IsOrphan id service_id i s c conn service g
    → Pmap.del conn.services (to_u64 service_id) ≡ some held
    → Pmap.del s.db.services (to_u64 service_id) ≡ some services
    → (clients : Pmap Client) × (Publish.remove_service id service_id s ≡ (
        let db = s.db in
        service_changed
          (record service { prev = service.current; current = none })
          ChangeType.removed
          (record s { db = record db { clients = clients; services = services } })))
      × ((j : ℕ)
          → Pmap.get clients j ≡ (
              let c' = without c i (record conn { services = held }) in
              if to_u64 id == j
              then (if Client.is_stale c' then none else some c')
              else Pmap.get s.db.clients j))
unfolding Publish.remove_service Publish.conn_del_service Publish.remove_conn Conn.del_service
    Conn.has_service put_client del_client del_service without
remove_service-clients id service_id i s c conn service g held services k drops deleted =
    let key = to_u64 id in
    let conn' : Conn = record conn { services = held } in
    let c₁ : Client = record c { inactive_conns = set c.inactive_conns i conn' } in
    let c₂ : Client = record c {
      inactive_conns = Sequence.delete_at i (set c.inactive_conns i conn');
    } in
    let clients₁ = Pmap.update s.db.clients key c₁ in
    let read₁ : (j : ℕ)
        → Pmap.get clients₁ j ≡ (if key == j then some c₁ else Pmap.get s.db.clients j) =
      λ j. get-update s.db.clients key j c₁ c k.client_eq in
    let found₁ : Pmap.get clients₁ key ≡ some c₁ = ground (arith, read₁ key) in
    let distinct₁ = update-IsDistinct s.db.clients key c₁ k.clients_distinct in
    let clients₂ = Pmap.update clients₁ key c₂ in
    let read₂ : (j : ℕ)
        → Pmap.get clients₂ j ≡ (if key == j then some c₂ else Pmap.get clients₁ j) =
      λ j. get-update clients₁ key j c₂ c₁ found₁ in
    let found₂ : Pmap.get clients₂ key ≡ some c₂ = ground (arith, read₂ key) in
    let distinct₂ = update-IsDistinct clients₁ key c₂ distinct₁ in
    let placed = get_elem?-set c.inactive_conns i conn' conn k.conn_eq in
    elim (Bool-cases (Conn.is_stale conn')) [
      | inl stale ↦ elim (Bool-cases (Client.is_stale c₂)) [
        | inl empty ↦
            let (left, dropped, read) = get-del clients₂ key c₂ distinct₂ found₂ in
            (
              left,
              ground (
                arith,
                k.found,
                k.id_nonneg,
                k.client_eq,
                k.client_id_eq,
                k.client_nonneg,
                k.away,
                k.place,
                k.conn_eq,
                placed,
                drops,
                deleted,
                found₁,
                remove_lem service k.idle,
                stale,
                empty,
                found₂,
                dropped,
              ),
              λ j. ground (arith, stale, empty, read j, read₂ j, read₁ j),
            )
        | inr busy ↦ (
          clients₂,
          ground (
            arith,
            k.found,
            k.id_nonneg,
            k.client_eq,
            k.client_id_eq,
            k.client_nonneg,
            k.away,
            k.place,
            k.conn_eq,
            placed,
            drops,
            deleted,
            found₁,
            remove_lem service k.idle,
            stale,
            busy,
            found₂,
          ),
          λ j. ground (arith, stale, busy, read₂ j, read₁ j),
        )
      ]
      | inr fresh ↦ elim (Bool-cases (Client.is_stale c₁)) [
        | inl empty ↦
            let (left, dropped, read) = get-del clients₁ key c₁ distinct₁ found₁ in
            (
              left,
              ground (
                arith,
                k.found,
                k.id_nonneg,
                k.client_eq,
                k.client_id_eq,
                k.client_nonneg,
                k.away,
                k.place,
                k.conn_eq,
                placed,
                drops,
                deleted,
                found₁,
                remove_lem service k.idle,
                fresh,
                empty,
                dropped,
              ),
              λ j. ground (arith, fresh, empty, read j, read₁ j),
            )
        | inr busy ↦ (
          clients₁,
          ground (
            arith,
            k.found,
            k.id_nonneg,
            k.client_eq,
            k.client_id_eq,
            k.client_nonneg,
            k.away,
            k.place,
            k.conn_eq,
            placed,
            drops,
            deleted,
            found₁,
            remove_lem service k.idle,
            fresh,
            busy,
          ),
          λ j. ground (arith, fresh, busy, read₁ j),
        )
      ]
    ]
