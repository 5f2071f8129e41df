-- ===== src/Sd/Server/Connections.antt =====
-- Clients that connect and connect again: sd_client_connect of src/sd/sd.c.
use tpaf.Prelude.{◌≡◌, ◌≢◌, ℕ, refl, Option, none, some, [], true, arith}
use tpaf.Prelude.Int.{ℤ, to_u64, is_nonneg}
use tpaf.Clib.Str.{Str}
use tpaf.Util.Pmap
use tpaf.Util.Pmap.{Pmap}
use tpaf.Util.Pmap.Laws.{get-add, get-update}
use tpaf.Sd.Conn
use tpaf.Sd.Conn.{Conn}
use tpaf.Sd.State.{Sd, Client, get_client, add_client, put_client}
use tpaf.Sd.Client
use tpaf.Sd.Client.{Rc}
use tpaf.Sd.Server

-- What a connect leaves: the client, with a new connection, and all else as it was.
pub record Connected (id : ℤ) (s t : Sd) (c : Client) : Type 0 where
  pub client_eq : get_client id t ≡ some c
  pub other_clients : (j : ℕ) → to_u64 id ≢ j → Pmap.get t.db.clients j ≡ Pmap.get s.db.clients j
  pub services_eq : t.db.services ≡ s.db.services
  pub subs_eq : t.db.subs ≡ s.db.subs
  pub orphans_eq : t.orphans ≡ s.orphans
  pub calls_eq : t.calls ≡ s.calls

-- What a client is when it connects, the return code, and what it becomes.
pub data Connecting (id : ℤ) (addr : Option Str) (s : Sd) : Rc → Client → Type 0 where
  unknown :
      get_client id s ≡ none
      → Connecting id addr s Rc.ok (record {
        client_id = id;
        active_conn = some (Conn.create s.now addr);
        inactive_conns = [];
      })
  away :
      (c : Client)
      → get_client id s ≡ some c
      → c.active_conn ≡ none
      → Connecting id addr s Rc.ok (record c { active_conn = some (Conn.create s.now addr) })
  there :
      (c : Client) (conn : Conn)
      → get_client id s ≡ some c
      → c.active_conn ≡ some conn
      → Connecting id addr s Rc.client_already_exists c

-- With an id that is not negative: a client that is not known is added with a new active
-- connection; a client that is known and away gets a new active connection next to its inactive
-- ones; a client that is connected is refused and stays as it is. Nothing else changes.
pub client_connect_lem :
    (id : ℤ) (addr : Option Str) (s : Sd) (rc : Rc) (c : Client)
    → is_nonneg id ≡ true
    → Connecting id addr s rc c
    → (t : Sd) × (Server.client_connect id addr s ≡ some (rc, t)) × Connected id s t c
unfolding Server.client_connect Client.connect Client.reconnect add_client put_client
client_connect_lem id addr s _ _ nonneg (unknown gone) =
    let db = s.db in
    let c : Client = record {
      client_id = id;
      active_conn = some (Conn.create s.now addr);
      inactive_conns = [];
    } in
    let (clients, added, read) = get-add db.clients (to_u64 id) c gone in
    (
      record s { db = record db { clients = clients } },
      ground (arith, added),
      record {
        client_eq = ground (arith, read (to_u64 id));
        other_clients = λ j n. ground (arith, read j);
        services_eq = refl;
        subs_eq = refl;
        orphans_eq = refl;
        calls_eq = refl;
      },
    )
client_connect_lem id addr s _ _ nonneg (away c found gone) =
    let db = s.db in
    let key = to_u64 id in
    let c' : Client = record c { active_conn = some (Conn.create s.now addr) } in
    let clients = Pmap.update db.clients key c' in
    (
      record s { db = record db { clients = clients } },
      ground arith,
      record {
        client_eq = ground (arith, get-update db.clients key key c' c found);
        other_clients = λ j n. ground (arith, get-update db.clients key j c' c found);
        services_eq = refl;
        subs_eq = refl;
        orphans_eq = refl;
        calls_eq = refl;
      },
    )
client_connect_lem id addr s _ _ nonneg (there c conn found active) = (
  s,
  ground arith,
  record {
    client_eq = found;
    other_clients = λ j n. refl;
    services_eq = refl;
    subs_eq = refl;
    orphans_eq = refl;
    calls_eq = refl;
  },
)
