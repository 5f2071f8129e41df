-- ===== src/Sd/Server/Takeover.antt =====
-- Publishing a service of another client: client_publish of src/sd/client.c.
use tpaf.Prelude.{List, [], ◌∷◌, ◌≡◌, ◌∙◌, true, some, arith}
use tpaf.Prelude.Int.{ℤ, negsuc, ==ℤ_iff, is_nonneg, ltb_ℤ}
use tpaf.Sd.Props
use tpaf.Sd.Props.{Props}
use tpaf.Clib.Ftime.{at, seconds}
use tpaf.Sd.Generation
use tpaf.Sd.Generation.{Generation}
use tpaf.Sd.Service.{Service}
use tpaf.Sd.Service.Laws.{each, set_each}
use tpaf.Sd.Conn.{Conn}
use tpaf.Sd.State.{Sd, Client}
use tpaf.Sd.Orphans.Notify.{AllTell, calls_of}
use tpaf.Sd.Client.{ConnRef, Rc, modify_service}
use tpaf.Sd.Client.Modify.{IsReady, Modified, modify_service_lem}
use tpaf.Sd.Publish
use tpaf.Sd.Server
use tpaf.Sd.Server.Renewal.{published, setters, set_all-setters}
use tpaf.Sd.Server.Capture.{IsTaken, Captured, capture_service_lem}

still-IsReady :
    (id service_id : ℤ) (s u : Sd) (c v : Client) (mine theirs : Conn) (ref : ConnRef)
    (service : Service) (g : Generation) (p : Props)
    → Captured id service_id s u c v mine theirs ref g
    → IsReady service_id s service g p
    → IsReady service_id u service g p
still-IsReady id service_id s u c v mine theirs ref service g p captured r = record {
  found = rw captured.services_eq r.found;
  id_eq = r.id_eq;
  idle = r.idle;
  current_eq = r.current_eq;
  props_eq = r.props_eq;
  timer = rw captured.orphans_eq r.timer;
  timers = rw captured.orphans_eq r.timers;
}

-- A newer generation of a service at rest (IsReady) that another client owns and holds on a
-- connection, active or not (IsTaken), published with numbers that are not negative, if every
-- filter can be matched against the generations before and after (AllTell): the service goes over
-- to the connection of the client that publishes it, and becomes what was published, owned by that
-- client; the subscriptions are told. The change is in two steps: taking the service over
-- (Captured), and changing it (Modified).
pub publish-takeover :
    (id service_id generation ttl : ℤ) (props p : Props) (s : Sd) (c v : Client)
    (mine theirs : Conn) (ref : ConnRef) (service : Service) (g : Generation)
    → IsTaken id service_id s c v mine theirs ref service g
    → IsReady service_id s service g p
    → ltb_ℤ g.generation generation ≡ true
    → is_nonneg generation ≡ true
    → is_nonneg ttl ≡ true
    → is_nonneg id ≡ true
    → (tell : AllTell
        (record service { prev = some g; current = some (published id generation props ttl) })
        s.db.subs)
    → (between t : Sd) × (Server.publish id service_id generation props ttl s ≡ some (Rc.ok, t))
      × Captured id service_id s between c v mine theirs ref g
      × Modified service_id between t
          (record service { prev = some g; current = some (published id generation props ttl) })
      × (t.calls ≡ calls_of tell s.calls)
unfolding Server.publish Publish.publish Publish.publish_existing Publish.publish_newer each
    Generation.set_props Generation.is_consistent
publish-takeover id service_id generation ttl props p s c v mine theirs ref service g k r newer hg
      ht hi tell =
    let (u, took, captured) = capture_service_lem id service_id s c v mine theirs ref service g k in
    let new = record service {
      prev = some g;
      current = some (published id generation props ttl);
    } in
    let ready = still-IsReady id service_id s u c v mine theirs ref service g p captured r in
    let ok : Generation.is_consistent (published id generation props ttl) ≡ true = ground arith in
    let told : AllTell new u.db.subs = coe 1 0 (i. AllTell new (captured.subs_eq i)) tell in
    let (t, ran, calls, modified) =
      modify_service_lem service_id u service g p (setters id generation props ttl) ready ok told in
    let ran' : modify_service service_id (Publish.set_all id generation props ttl) u
        ≡ some (tt, t) =
      (λ i. modify_service service_id (λ b. set_all-setters id generation props ttl b i) u) ∙ ran in
    (
      u,
      t,
      ground (
        arith,
        k.found,
        k.current_eq,
        k.client_eq,
        k.conn_eq,
        k.apart,
        took,
        ran',
        ==ℤ_iff generation g.generation,
        ==ℤ_iff g.client_id id,
      ),
      captured,
      modified,
      calls ∙ (λ i.
          calls_of (coe 1 i (j. AllTell new (captured.subs_eq j)) tell) (captured.calls_eq i)),
    )

-- What a client makes of a generation that it takes over unchanged: its own, and no orphan.
abbrev pub adopted : ℤ → Generation → Generation
adopted id g = record g { orphan_since = at (seconds (negsuc 0)); client_id = id }

abbrev adopting : ℤ → List (Generation → Generation)
adopting id =
    (λ g. Generation.set_orphan_since g (at (seconds (negsuc 0))))
    ∷ (λ g. Generation.set_client_id g id)
    ∷ []

adopting-set :
    (id : ℤ) (begun : Service) → Publish.set_adopted id begun ≡ set_each (adopting id) begun
unfolding set_each
adopting-set id begun = ground arith

-- The current generation of a service at rest (IsReady) that another client owns and holds on a
-- connection, active or not (IsTaken), published with the same data, if every filter can be matched
-- against the generations before and after (AllTell): the service goes over to the connection of
-- the client that publishes it, is owned by that client, and is no orphan; the rest of the
-- generation stays, and the subscriptions are told.
pub publish-adopt :
    (id service_id generation ttl : ℤ) (props p : Props) (s : Sd) (c v : Client)
    (mine theirs : Conn) (ref : ConnRef) (service : Service) (g : Generation)
    → IsTaken id service_id s c v mine theirs ref service g
    → IsReady service_id s service g p
    → generation ≡ g.generation
    → Props.equal props p ≡ true
    → ttl ≡ g.ttl
    → Generation.is_consistent g ≡ true
    → is_nonneg id ≡ true
    → (tell : AllTell (record service { prev = some g; current = some (adopted id g) }) s.db.subs)
    → (between t : Sd) × (Server.publish id service_id generation props ttl s ≡ some (Rc.ok, t))
      × Captured id service_id s between c v mine theirs ref g
      × Modified service_id between t
          (record service { prev = some g; current = some (adopted id g) })
      × (t.calls ≡ calls_of tell s.calls)
unfolding Server.publish Publish.publish Publish.publish_existing Publish.republish each
    Generation.is_consistent
publish-adopt id service_id generation ttl props p s c v mine theirs ref service g k r hg hp ht
      consistent hi tell =
    let (u, took, captured) = capture_service_lem id service_id s c v mine theirs ref service g k in
    let new = record service { prev = some g; current = some (adopted id g) } in
    let ready = still-IsReady id service_id s u c v mine theirs ref service g p captured r in
    let ok : Generation.is_consistent (adopted id g) ≡ true = ground arith in
    let told : AllTell new u.db.subs = coe 1 0 (i. AllTell new (captured.subs_eq i)) tell in
    let (t, ran, calls, modified) =
      modify_service_lem service_id u service g p (adopting id) ready ok told in
    let ran' : modify_service service_id (Publish.set_adopted id) u ≡ some (tt, t) =
      (λ i. modify_service service_id (λ b. adopting-set id b i) u) ∙ ran in
    (
      u,
      t,
      ground (
        arith,
        k.found,
        k.current_eq,
        k.client_eq,
        k.conn_eq,
        k.apart,
        r.props_eq,
        took,
        ran',
        ==ℤ_iff generation g.generation,
        ==ℤ_iff g.client_id id,
        ==ℤ_iff ttl g.ttl,
      ),
      captured,
      modified,
      calls ∙ (λ i.
          calls_of (coe 1 i (j. AllTell new (captured.subs_eq j)) tell) (captured.calls_eq i)),
    )
