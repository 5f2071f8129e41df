-- ===== src/Sd/Server/Refusals.antt =====
-- The requests that src/sd/sd.c and client.c refuse, with their error codes.
use tpaf.Prelude.{◌≡◌, ◌≢◌, true, false, Option, none, some, arith, ◌⊎◌}
use tpaf.Prelude.Int.{ℤ, ==ℤ_iff, ltb_ℤ}
use tpaf.Clib.Str.{Str}
use tpaf.Sd.Props
use tpaf.Sd.Props.{Props}
use tpaf.Sd.Generation.{Generation}
use tpaf.Sd.Service.{Service}
use tpaf.Sd.Filter.{Filter}
use tpaf.Sd.Conn
use tpaf.Sd.Conn.{Conn}
use tpaf.Sd.State.{Sd, Client, has_sub, get_client, get_service}
use tpaf.Sd.Client
use tpaf.Sd.Client.{Rc}
use tpaf.Sd.Publish
use tpaf.Sd.Subscribe
use tpaf.Sd.Server
use tpaf.Sd.Server.Requests.{
  Request, connects, disconnects, publishes, unpublishes, subscribes, unsubscribes, run,
}

-- The requests that are refused, and the error codes.
pub data Refusal (filter_parse : Str → Option Filter) (s : Sd) : Request → Rc → Type 0 where
  stranger_disconnects :
      (id : ℤ) → get_client id s ≡ none → Refusal filter_parse s (disconnects id) Rc.no_such_client
  stranger_publishes :
      (id service_id generation : ℤ) (props : Props) (ttl : ℤ)
      → get_client id s ≡ none
      → Refusal filter_parse s (publishes id service_id generation props ttl) Rc.no_such_client
  stranger_unpublishes :
      (id service_id : ℤ)
      → get_client id s ≡ none
      → Refusal filter_parse s (unpublishes id service_id) Rc.no_such_client
  stranger_subscribes :
      (id sub_id : ℤ) (text : Option Str)
      → get_client id s ≡ none
      → Refusal filter_parse s (subscribes id sub_id text) Rc.no_such_client
  stranger_unsubscribes :
      (id sub_id : ℤ)
      → get_client id s ≡ none
      → Refusal filter_parse s (unsubscribes id sub_id) Rc.no_such_client
  connects_twice :
      (id : ℤ) (addr : Option Str) (c : Client) (conn : Conn)
      → get_client id s ≡ some c
      → c.active_conn ≡ some conn
      → Refusal filter_parse s (connects id addr) Rc.client_already_exists
  publishes_older :
      (id service_id generation : ℤ) (props : Props) (ttl : ℤ) (c : Client) (conn : Conn)
      (service : Service) (g : Generation)
      → get_client id s ≡ some c
      → c.active_conn ≡ some conn
      → get_service service_id s ≡ some service
      → service.current ≡ some g
      → ltb_ℤ generation g.generation ≡ true
      → Refusal filter_parse s
          (publishes id service_id generation props ttl)
          Rc.newer_service_generation_exists
  publishes_other_data :
      (id service_id generation : ℤ) (props p : Props) (ttl : ℤ) (c : Client) (conn : Conn)
      (service : Service) (g : Generation)
      → get_client id s ≡ some c
      → c.active_conn ≡ some conn
      → get_service service_id s ≡ some service
      → service.current ≡ some g
      → g.props ≡ some p
      → generation ≡ g.generation
      → (Props.equal props p ≡ false) ⊎ (ttl ≢ g.ttl)
      → Refusal filter_parse s
          (publishes id service_id generation props ttl)
          Rc.service_same_generation_but_different_data
  unpublishes_none :
      (id service_id : ℤ) (c : Client) (conn : Conn)
      → get_client id s ≡ some c
      → c.active_conn ≡ some conn
      → get_service service_id s ≡ none
      → Refusal filter_parse s (unpublishes id service_id) Rc.no_such_service
  subscribes_wrong :
      (id sub_id : ℤ) (text : Str) (c : Client)
      → get_client id s ≡ some c
      → filter_parse text ≡ none
      → Refusal filter_parse s (subscribes id sub_id (some text)) Rc.invalid_filter
  subscribes_twice :
      (id sub_id : ℤ) (c : Client) (conn : Conn)
      → get_client id s ≡ some c
      → c.active_conn ≡ some conn
      → has_sub sub_id s ≡ true
      → Refusal filter_parse s (subscribes id sub_id none) Rc.sub_already_exists
  unsubscribes_none :
      (id sub_id : ℤ) (c : Client) (conn : Conn)
      → get_client id s ≡ some c
      → c.active_conn ≡ some conn
      → has_sub sub_id s ≡ false
      → Refusal filter_parse s (unsubscribes id sub_id) Rc.no_such_sub
  unsubscribes_foreign :
      (id sub_id : ℤ) (c : Client) (conn : Conn)
      → get_client id s ≡ some c
      → c.active_conn ≡ some conn
      → has_sub sub_id s ≡ true
      → Conn.has_sub conn sub_id ≡ false
      → Refusal filter_parse s (unsubscribes id sub_id) Rc.perm_denied

-- A request in one of the situations of Refusal returns the error code that belongs to it, and
-- leaves the state as it was: a client that is not known, or connects twice; an older generation,
-- or the current one with other data; a service or subscription that is not there, a subscription
-- id in use, a subscription of another connection, and a filter that does not parse.
pub refusal_lem :
    (filter_parse : Str → Option Filter) (s : Sd) (request : Request) (rc : Rc)
    → Refusal filter_parse s request rc
    → run filter_parse request s ≡ some (rc, s)
unfolding run Server.client_connect Server.client_disconnect Server.publish Server.unpublish
    Server.create_sub Server.unsubscribe Client.reconnect Publish.publish Publish.publish_existing
    Publish.unpublish Subscribe.create_sub Subscribe.unsubscribe
refusal_lem parse s _ _ (stranger_disconnects id e) = ground arith
refusal_lem parse s _ _ (stranger_publishes id service_id generation props ttl e) = ground arith
refusal_lem parse s _ _ (stranger_unpublishes id service_id e) = ground arith
refusal_lem parse s _ _ (stranger_subscribes id sub_id text e) = ground arith
refusal_lem parse s _ _ (stranger_unsubscribes id sub_id e) = ground arith
refusal_lem parse s _ _ (connects_twice id addr c conn hc ha) = ground arith
refusal_lem parse s _ _
      (publishes_older id service_id generation props ttl c conn service g hc ha hs hg older) =
    ground (arith, ==ℤ_iff generation g.generation)
refusal_lem parse s _ _
      (publishes_other_data id service_id generation props p ttl c conn service g hc ha hs hg hp
        same other) =
    ground (arith, ==ℤ_iff generation g.generation, ==ℤ_iff ttl g.ttl)
refusal_lem parse s _ _ (unpublishes_none id service_id c conn hc ha hs) = ground arith
refusal_lem parse s _ _ (subscribes_wrong id sub_id text c hc wrong) = ground arith
refusal_lem parse s _ _ (subscribes_twice id sub_id c conn hc ha hs) = ground arith
refusal_lem parse s _ _ (unsubscribes_none id sub_id c conn hc ha hs) = ground arith
refusal_lem parse s _ _ (unsubscribes_foreign id sub_id c conn hc ha hs hn) = ground arith
