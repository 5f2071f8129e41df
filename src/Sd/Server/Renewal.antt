-- ===== src/Sd/Server/Renewal.antt =====
-- Publishing a service again by its owner: client_publish of src/sd/client.c.
use tpaf.Prelude.{◌≡◌, refl, ◌∙◌, true, some, List, [], ◌∷◌, arith}
use tpaf.Prelude.Int.{ℤ, negsuc, ==ℤ_iff, ltb_ℤ, is_nonneg}
use tpaf.Clib.Ftime.{at, is_since, seconds}
use tpaf.Sd.Props
use tpaf.Sd.Props.{Props}
use tpaf.Sd.Generation
use tpaf.Sd.Generation.{Generation}
use tpaf.Sd.Service
use tpaf.Sd.Service.{Service, ChangeType, ◌>>=◌}
use tpaf.Sd.Service.Laws.{set_each, each}
use tpaf.Sd.Conn.{Conn}
use tpaf.Sd.State.{Sd, Client, get_client}
use tpaf.Sd.Orphans.Notify.{AllTell, calls_of}
use tpaf.Sd.Client.{Rc, modify_service}
use tpaf.Sd.Client.Modify.{IsReady, Modified, modify_service_lem}
use tpaf.Sd.Publish
use tpaf.Sd.Server

-- The setters of client_publish, and the generation that they make.
abbrev pub setters : ℤ → ℤ → Props → ℤ → List (Generation → Generation)
setters id generation props ttl =
    (λ g. Generation.set_generation g generation)
    ∷ (λ g. Generation.set_props g props)
    ∷ (λ g. Generation.set_ttl g ttl)
    ∷ (λ g. Generation.set_orphan_since g (at (seconds (negsuc 0))))
    ∷ (λ g. Generation.set_client_id g id)
    ∷ []

abbrev pub published : ℤ → ℤ → Props → ℤ → Generation
published id generation props ttl = record {
  generation = generation;
  props = some (Props.clone props);
  ttl = ttl;
  orphan_since = at (seconds (negsuc 0));
  client_id = id;
}

setters-each :
    (id generation : ℤ) (props : Props) (ttl : ℤ) (g : Generation)
    → each (setters id generation props ttl) g ≡ published id generation props ttl
unfolding each Generation.set_props
setters-each id generation props ttl g = refl

pub set_all-setters :
    (id generation : ℤ) (props : Props) (ttl : ℤ) (begun : Service)
    → Publish.set_all id generation props ttl begun
      ≡ set_each (setters id generation props ttl) begun
unfolding set_each
set_all-setters id generation props ttl begun = ground arith

-- What a client that is connected finds of a service of its own.
pub record IsOwn (id service_id : ℤ) (s : Sd) (c : Client) (conn : Conn) (service : Service)
    (g : Generation) (p : Props) : Type 0 where
  pub client_eq : get_client id s ≡ some c
  pub conn_eq : c.active_conn ≡ some conn
  pub owner_eq : g.client_id ≡ id
  pub ready : IsReady service_id s service g p

-- A newer generation of a service at rest, published by its connected owner (IsOwn) with numbers
-- that are not negative, if every filter can be matched against the generations before and after
-- (AllTell): it becomes the current one, with all that was published, and no orphan; the one that
-- it replaces becomes the previous one. The subscriptions are told, a timer is cleared, and nothing
-- else changes.
pub publish-newer :
    (id service_id generation ttl : ℤ) (props p : Props) (s : Sd) (c : Client) (conn : Conn)
    (service : Service) (g : Generation)
    → IsOwn id service_id s c conn service g p
    → ltb_ℤ g.generation generation ≡ true
    → is_nonneg generation ≡ true
    → is_nonneg ttl ≡ true
    → is_nonneg id ≡ true
    → (tell : AllTell
        (record service { prev = some g; current = some (published id generation props ttl) })
        s.db.subs)
    → (t : Sd) × (Server.publish id service_id generation props ttl s ≡ some (Rc.ok, t))
      × (t.calls ≡ calls_of tell s.calls)
      × Modified service_id s t
          (record service { prev = some g; current = some (published id generation props ttl) })
unfolding Server.publish Publish.publish Publish.publish_existing Publish.publish_newer each
    Generation.set_props Generation.is_consistent
publish-newer id service_id generation ttl props p s c conn service g own newer hg ht hi tell =
    let ok : Generation.is_consistent (published id generation props ttl) ≡ true = ground arith in
    let (t, ran, calls, modified) =
      modify_service_lem service_id s service g p (setters id generation props ttl) own.ready ok
        tell in
    let ran' : modify_service service_id (Publish.set_all id generation props ttl) s
        ≡ some (tt, t) =
      (λ i. modify_service service_id (λ b. set_all-setters id generation props ttl b i) s) ∙ ran in
    (
      t,
      ground (
        arith,
        own.client_eq,
        own.conn_eq,
        own.ready.found,
        own.ready.current_eq,
        own.owner_eq,
        ==ℤ_iff generation g.generation,
        ==ℤ_iff g.client_id id,
        ran',
      ),
      calls,
      modified,
    )

-- The current generation of an orphan at rest, published by its connected owner (IsOwn) with the
-- same data, if every filter can be matched against the generations before and after (AllTell): it
-- is an orphan no longer, its timer is cleared, the subscriptions are told, and nothing else of it
-- changes.
pub publish-again :
    (id service_id generation ttl : ℤ) (props p : Props) (s : Sd) (c : Client) (conn : Conn)
    (service : Service) (g : Generation)
    → IsOwn id service_id s c conn service g p
    → generation ≡ g.generation
    → Props.equal props p ≡ true
    → ttl ≡ g.ttl
    → Generation.is_consistent g ≡ true
    → is_since g.orphan_since ≡ true
    → (tell : AllTell
        (record service {
          prev = some g;
          current = some (record g { orphan_since = at (seconds (negsuc 0)) });
        })
        s.db.subs)
    → (t : Sd) × (Server.publish id service_id generation props ttl s ≡ some (Rc.ok, t))
      × (t.calls ≡ calls_of tell s.calls)
      × Modified service_id s t (record service {
        prev = some g;
        current = some (record g { orphan_since = at (seconds (negsuc 0)) });
      })
unfolding Server.publish Publish.publish Publish.publish_existing Publish.republish each
    Generation.is_consistent set_each
publish-again id service_id generation ttl props p s c conn service g own hg hp ht consistent o
      tell =
    let fs = (λ h. Generation.set_orphan_since h (at (seconds (negsuc 0)))) ∷ [] in
    let ok : Generation.is_consistent (each fs g) ≡ true = ground arith in
    let (t, ran, calls, modified) =
      modify_service_lem service_id s service g p fs own.ready ok tell in
    let same : (b : Service) → Service.set_non_orphan b ≡ set_each fs b = λ b. ground arith in
    let ran' : modify_service service_id Service.set_non_orphan s ≡ some (tt, t) =
      (λ i. modify_service service_id (λ b. same b i) s) ∙ ran in
    (
      t,
      ground (
        arith,
        own.client_eq,
        own.conn_eq,
        own.ready.found,
        own.ready.current_eq,
        own.ready.props_eq,
        own.owner_eq,
        ==ℤ_iff generation g.generation,
        ==ℤ_iff g.client_id id,
        ==ℤ_iff ttl g.ttl,
        ran',
      ),
      calls,
      modified,
    )
