-- ===== src/Sd/Server/Subscriptions.antt =====
-- Subscribing and unsubscribing: sd_create_sub and sd_unsubscribe of src/sd/sd.c.
use tpaf.Prelude.{ℕ, ◌≡◌, ◌≢◌, refl, true, false, Option, none, some, arith, if◌then◌else◌, ◌==◌}
use tpaf.Prelude.Int.{ℤ, to_u64, is_nonneg}
use tpaf.Clib.Str.{Str}
use tpaf.Util.Pmap
use tpaf.Util.Pmap.{Pmap}
use tpaf.Util.Pmap.Laws.{IsDistinct, get-add, get-del, get-update, has_key-get}
use tpaf.Sd.Filter.{Filter}
use tpaf.Sd.Sub
use tpaf.Sd.Sub.{Sub}
use tpaf.Sd.Conn
use tpaf.Sd.Conn.{Conn}
use tpaf.Sd.State.{Sd, Client, get_client, get_sub, has_sub, add_sub, del_sub, put_client}
use tpaf.Sd.Client.{Rc}
use tpaf.Sd.Subscribe
use tpaf.Sd.Server

-- The filter that a request gives: none, or a text that may not parse.
abbrev pub Given : (Str → Option Filter) → Option Str → Option Filter → Type 0
Given parse none filter = filter ≡ none
Given parse (some text) filter = (f : Filter) × (parse text ≡ some f) × (filter ≡ some f)

-- What subscribing and unsubscribing leave: the map of the connection, and all else as it was.
pub record SubsOnly (id sub_id : ℤ) (s t : Sd) (c : Client) (conn : Conn) (held : Pmap ℤ)
    : Type 0 where
  pub client_eq :
      get_client id t ≡ some (record c { active_conn = some (record conn { subs = held }) })
  pub other_clients : (j : ℕ) → to_u64 id ≢ j → Pmap.get t.db.clients j ≡ Pmap.get s.db.clients j
  pub other_subs : (j : ℕ) → to_u64 sub_id ≢ j → Pmap.get t.db.subs j ≡ Pmap.get s.db.subs j
  pub services_eq : t.db.services ≡ s.db.services
  pub orphans_eq : t.orphans ≡ s.orphans
  pub calls_eq : t.calls ≡ s.calls

create_sub-Given :
    (parse : Str → Option Filter) (id sub_id : ℤ) (text : Option Str) (filter : Option Filter)
    (s : Sd)
    → Given parse text filter
    → Server.create_sub parse id sub_id text s
      ≡ Server.on_client id (Subscribe.create_sub id sub_id filter) s
unfolding Server.create_sub
create_sub-Given parse id sub_id none filter s e = rw e refl
create_sub-Given parse id sub_id (some text) filter s (f, p, e) = rw (p, e) refl

-- A connected client that subscribes with a free id that is not negative, and with no filter or one
-- that parses: the subscription is added to the database and to the active connection, and nothing
-- else changes.
pub create_sub_lem :
    (parse : Str → Option Filter) (id sub_id : ℤ) (text : Option Str) (filter : Option Filter)
    (s : Sd) (c : Client) (conn : Conn)
    → Given parse text filter
    → get_client id s ≡ some c
    → c.active_conn ≡ some conn
    → is_nonneg sub_id ≡ true
    → has_sub sub_id s ≡ false
    → Conn.has_sub conn sub_id ≡ false
    → (t : Sd) × (held : Pmap ℤ) × (Server.create_sub parse id sub_id text s ≡ some (Rc.ok, t))
      × (get_sub sub_id t ≡ some (Sub.create sub_id filter c.client_id))
      × ((j : ℕ)
          → Pmap.get held j ≡ (if to_u64 sub_id == j then some sub_id else Pmap.get conn.subs j))
      × SubsOnly id sub_id s t c conn held
unfolding Subscribe.create_sub Conn.add_sub Conn.has_sub add_sub put_client
create_sub_lem parse id sub_id text filter s c conn given hc ha hi h hn =
    let key = to_u64 sub_id in
    let db = s.db in
    let new = Sub.create sub_id filter c.client_id in
    let free : Pmap.get db.subs key ≡ none = ground (arith, h, has_key-get db.subs key) in
    let free' : Pmap.get conn.subs key ≡ none = ground (arith, hn, has_key-get conn.subs key) in
    let (subs, added, read) = get-add db.subs key new free in
    let (held, holds, held_read) = get-add conn.subs key sub_id free' in
    let c' : Client = record c { active_conn = some (record conn { subs = held }) } in
    let clients = Pmap.update db.clients (to_u64 id) c' in
    let t : Sd = record s { db = record db { subs = subs; clients = clients } } in
    (
      t,
      held,
      rw (create_sub-Given parse id sub_id text filter s given) (ground (arith, added, holds)),
      ground (arith, read key),
      held_read,
      record {
        client_eq = ground (arith, get-update db.clients (to_u64 id) (to_u64 id) c' c hc);
        other_clients = λ j n. ground (arith, get-update db.clients (to_u64 id) j c' c hc);
        other_subs = λ j n. ground (arith, read j);
        services_eq = refl;
        orphans_eq = refl;
        calls_eq = refl;
      },
    )

-- A connected client that unsubscribes a subscription of its active connection, with an id that is
-- not negative, in maps with no key twice: the subscription is taken from the database and from the
-- connection, and nothing else changes.
pub unsubscribe_lem :
    (id sub_id held_id : ℤ) (s : Sd) (c : Client) (conn : Conn) (sub : Sub)
    → get_client id s ≡ some c
    → c.active_conn ≡ some conn
    → is_nonneg sub_id ≡ true
    → IsDistinct s.db.subs
    → IsDistinct conn.subs
    → get_sub sub_id s ≡ some sub
    → Pmap.get conn.subs (to_u64 sub_id) ≡ some held_id
    → (t : Sd) × (held : Pmap ℤ) × (Server.unsubscribe id sub_id s ≡ some (Rc.ok, t))
      × (get_sub sub_id t ≡ none)
      × ((j : ℕ) → Pmap.get held j ≡ (if to_u64 sub_id == j then none else Pmap.get conn.subs j))
      × SubsOnly id sub_id s t c conn held
unfolding Server.unsubscribe Subscribe.unsubscribe Conn.del_sub Conn.has_sub del_sub put_client
unsubscribe_lem id sub_id held_id s c conn sub hc ha hi ds dc hs hh =
    let key = to_u64 sub_id in
    let db = s.db in
    let (subs, deleted, read) = get-del db.subs key sub ds hs in
    let (held, drops, held_read) = get-del conn.subs key held_id dc hh in
    let c' : Client = record c { active_conn = some (record conn { subs = held }) } in
    let clients = Pmap.update db.clients (to_u64 id) c' in
    let t : Sd = record s { db = record db { subs = subs; clients = clients } } in
    (
      t,
      held,
      ground (arith, deleted, drops, has_key-get db.subs key, has_key-get conn.subs key),
      ground (arith, read key),
      held_read,
      record {
        client_eq = ground (arith, get-update db.clients (to_u64 id) (to_u64 id) c' c hc);
        other_clients = λ j n. ground (arith, get-update db.clients (to_u64 id) j c' c hc);
        other_subs = λ j n. ground (arith, read j);
        services_eq = refl;
        orphans_eq = refl;
        calls_eq = refl;
      },
    )
