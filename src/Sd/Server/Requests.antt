-- ===== src/Sd/Server/Requests.antt =====
-- The requests of a client, as the server passes them to src/sd/sd.c.
use tpaf.Prelude.{◌≡◌, ◌≢◌, Option, none, some, arith, Option-cases, inl, inr}
use tpaf.Prelude.Int.{ℤ}
use tpaf.Clib.Str.{Str}
use tpaf.Sd.Props.{Props}
use tpaf.Sd.Generation.{Generation}
use tpaf.Sd.Filter.{Filter}
use tpaf.Sd.State.{
  Sd, Client, M, ◌>>=◌, ◌>>◌, lift, pure, ut_assert, get_sd, has_sub, get_client, get_service,
  client,
}
use tpaf.Sd.Client
use tpaf.Sd.Client.{Rc}
use tpaf.Sd.Publish
use tpaf.Sd.Subscribe
use tpaf.Sd.Server

pub data Request : Type 0 where
  connects : ℤ → Option Str → Request
  disconnects : ℤ → Request
  publishes : ℤ → ℤ → ℤ → Props → ℤ → Request
  unpublishes : ℤ → ℤ → Request
  subscribes : ℤ → ℤ → Option Str → Request
  unsubscribes : ℤ → ℤ → Request

unfoldable pub run : (Str → Option Filter) → Request → M Rc
run filter_parse (connects client_id addr) = Server.client_connect client_id addr
run filter_parse (disconnects client_id) = Server.client_disconnect client_id
run filter_parse (publishes client_id service_id generation props ttl) =
    Server.publish client_id service_id generation props ttl
run filter_parse (unpublishes client_id service_id) = Server.unpublish client_id service_id
run filter_parse (subscribes client_id sub_id filter) =
    Server.create_sub filter_parse client_id sub_id filter
run filter_parse (unsubscribes client_id sub_id) = Server.unsubscribe client_id sub_id

-- An action that returns only 0, and one that changes nothing if it does not return 0.
abbrev IsOk : M Rc → Type 0
IsOk m = (s t : Sd) (rc : Rc) → m s ≡ some (rc, t) → rc ≡ Rc.ok

abbrev IsAtomic : M Rc → Type 0
IsAtomic m = (s t : Sd) (rc : Rc) → m s ≡ some (rc, t) → rc ≢ Rc.ok → t ≡ s

connect-IsOk :
    (c : tpaf.Sd.State.Client) (addr : Option Str) → IsOk (Client.connect c addr >> pure Rc.ok)
connect-IsOk c addr s t rc e = ground arith

reconnect-IsAtomic : (id : ℤ) (addr : Option Str) → IsAtomic (Client.reconnect id addr)
unfolding Client.reconnect
reconnect-IsAtomic id addr s t rc e n = ground arith

disconnect-IsOk : (id : ℤ) → IsOk (Client.disconnect id)
unfolding Client.disconnect
disconnect-IsOk id s t rc e = ground arith

republish-IsOk : (id service_id : ℤ) (g : Generation) → IsOk (Publish.republish id service_id g)
unfolding Publish.republish
republish-IsOk id service_id g s t rc e = ground arith

newer-IsOk :
    (id service_id : ℤ) (g : Generation) (generation : ℤ) (props : Props) (ttl : ℤ)
    → IsOk (Publish.publish_newer id service_id g generation props ttl)
unfolding Publish.publish_newer
newer-IsOk id service_id g generation props ttl s t rc e = ground arith

new-IsOk :
    (id service_id generation : ℤ) (props : Props) (ttl : ℤ)
    → IsOk (Publish.publish_new id service_id generation props ttl)
unfolding Publish.publish_new
new-IsOk id service_id generation props ttl s t rc e = ground arith

existing-IsAtomic :
    (id service_id : ℤ) (g : Generation) (generation : ℤ) (props : Props) (ttl : ℤ)
    → IsAtomic (Publish.publish_existing id service_id g generation props ttl)
unfolding Publish.publish_existing
existing-IsAtomic id service_id g generation props ttl s t rc e n = ground (
  arith,
  republish-IsOk id service_id g s t rc,
  newer-IsOk id service_id g generation props ttl s t rc,
)

publish-IsAtomic :
    (id service_id generation : ℤ) (props : Props) (ttl : ℤ)
    → IsAtomic (Publish.publish id service_id generation props ttl)
unfolding Publish.publish
publish-IsAtomic id service_id generation props ttl s t rc e n =
    elim (Option-cases (get_service service_id s)) [
      | inl gone ↦ ground (arith, new-IsOk id service_id generation props ttl s t rc)
      | inr (found, q) ↦ elim (Option-cases found.current) [
        | inl no_current ↦ ground arith
        | inr (g, c) ↦ ground (arith, existing-IsAtomic id service_id g generation props ttl s t rc)
      ]
    ]

unpublish-IsAtomic : (id service_id : ℤ) → IsAtomic (Publish.unpublish id service_id)
unfolding Publish.unpublish
unpublish-IsAtomic id service_id s t rc e n = ground arith

create_sub-IsAtomic :
    (id sub_id : ℤ) (filter : Option Filter) → IsAtomic (Subscribe.create_sub id sub_id filter)
unfolding Subscribe.create_sub
create_sub-IsAtomic id sub_id filter s t rc e n = ground arith

unsubscribe-IsAtomic : (id sub_id : ℤ) → IsAtomic (Subscribe.unsubscribe id sub_id)
unfolding Subscribe.unsubscribe
unsubscribe-IsAtomic id sub_id s t rc e n = ground arith

on_client-IsAtomic : (id : ℤ) (m : M Rc) → IsAtomic m → IsAtomic (Server.on_client id m)
on_client-IsAtomic id m h s t rc e n = ground (arith, h s t rc)

-- If a request returns any of the error codes, the whole state is as it was: the clients, services,
-- subscriptions, timers, and the calls of match_cb.
pub refused_changes_nothing :
    (filter_parse : Str → Option Filter) (request : Request) (s t : Sd) (rc : Rc)
    → run filter_parse request s ≡ some (rc, t)
    → rc ≢ Rc.ok
    → t ≡ s
unfolding run Server.client_connect Server.client_disconnect Server.publish Server.unpublish
    Server.create_sub Server.unsubscribe
refused_changes_nothing parse (connects id addr) s t rc e n =
    ground (arith, connect-IsOk (Client.create id) addr s t rc, reconnect-IsAtomic id addr s t rc)
refused_changes_nothing parse (disconnects id) s t rc e n =
    on_client-IsAtomic id _ (λ u v r q m. absurd (m (disconnect-IsOk id u v r q))) s t rc e n
refused_changes_nothing parse (publishes id service_id generation props ttl) s t rc e n =
    on_client-IsAtomic id _ (publish-IsAtomic id service_id generation props ttl) s t rc e n
refused_changes_nothing parse (unpublishes id service_id) s t rc e n =
    on_client-IsAtomic id _ (unpublish-IsAtomic id service_id) s t rc e n
refused_changes_nothing parse (subscribes id sub_id none) s t rc e n =
    on_client-IsAtomic id _ (create_sub-IsAtomic id sub_id none) s t rc e n
refused_changes_nothing parse (subscribes id sub_id (some text)) s t rc e n =
    elim (Option-cases (parse text)) [
      | inl wrong ↦ ground arith
      | inr (filter, q) ↦ ground (arith, create_sub-IsAtomic id sub_id (some filter) s t rc)
    ]
refused_changes_nothing parse (unsubscribes id sub_id) s t rc e n =
    on_client-IsAtomic id _ (unsubscribe-IsAtomic id sub_id) s t rc e n
