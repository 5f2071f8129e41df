-- ===== src/Sd/Server.antt =====
-- src/sd/sd.c: the operations of the service discovery domain. filter_parse is the argument
-- `filter_parse` here (Filter/Parse models it).
pub mod Requests
pub mod Refusals
pub mod Renewal
pub mod Addition
pub mod Subscriptions
pub mod Activation
pub mod Capture
pub mod Removal
pub mod Takeover
pub mod Orphan
pub mod Expiry
pub mod Connections
pub mod Disconnection
pub mod Tests
use tpaf.Prelude.{Bool, true, false, Option, none, some, List, [], ◌∷◌}
use tpaf.Prelude.Int.{ℤ}
use tpaf.Clib.Str.{Str}
use tpaf.Util.Pmap
use tpaf.Util.Pmap.{Entry}
use tpaf.Sd.Props.{Props}
use tpaf.Sd.Service
use tpaf.Sd.Service.{Service}
use tpaf.Sd.Filter
use tpaf.Sd.Filter.{Filter}
use tpaf.Sd.Sub.{Sub}
use tpaf.Sd.Sub
use tpaf.Sd.State.{Sd, M, ◌>>=◌, ◌>>◌, pure, lift, get_client, service}
use tpaf.Sd.Client
use tpaf.Sd.Client.{Rc}
use tpaf.Sd.Publish
use tpaf.Sd.Subscribe

abbrev pub init : ℤ → Sd
init now = record {
  db = record { clients = Pmap.create; services = Pmap.create; subs = Pmap.create };
  orphans = Pmap.create;
  now = now;
  calls = [];
}

-- The clock is read by the operations, and moves between them.
abbrev pub tick : ℤ → M (Unit {0})
tick now s = some (tt, record s { now = now })

-- An operation on a client that may not exist.
abbrev pub on_client : ℤ → M Rc → M Rc
on_client client_id operation s = elim (get_client client_id s) [
  | none ↦ pure Rc.no_such_client s
  | some found ↦ operation s
]

unfoldable pub client_connect : ℤ → Option Str → M Rc
client_connect client_id remote_addr s = elim (get_client client_id s) [
  | none ↦ (do Client.connect (Client.create client_id) remote_addr; pure Rc.ok) s
  | some found ↦ Client.reconnect client_id remote_addr s
]

unfoldable pub client_disconnect : ℤ → M Rc
client_disconnect client_id = on_client client_id (Client.disconnect client_id)

unfoldable pub publish : ℤ → ℤ → ℤ → Props → ℤ → M Rc
publish client_id service_id generation props ttl =
    on_client client_id (Publish.publish client_id service_id generation props ttl)

unfoldable pub unpublish : ℤ → ℤ → M Rc
unpublish client_id service_id = on_client client_id (Publish.unpublish client_id service_id)

-- filter_s is NULL or a string, which may not parse.
unfoldable pub create_sub : (Str → Option Filter) → ℤ → ℤ → Option Str → M Rc
create_sub filter_parse client_id sub_id filter_s = on_client client_id (elim filter_s [
  | none ↦ Subscribe.create_sub client_id sub_id none
  | some text ↦ elim (filter_parse text) [
    | none ↦ pure Rc.invalid_filter
    | some filter ↦ Subscribe.create_sub client_id sub_id (some filter)
  ]
])

unfoldable pub activate_sub : ℤ → ℤ → M (Unit {0})
activate_sub client_id sub_id = Subscribe.activate_sub client_id sub_id

unfoldable pub unsubscribe : ℤ → ℤ → M Rc
unsubscribe client_id sub_id = on_client client_id (Subscribe.unsubscribe client_id sub_id)

-- orphan_timeout_cb, for the timer of a service; the event loop has taken the event off.
unfoldable pub orphan_timeout : ℤ → M (Unit {0})
orphan_timeout service_id = do
  target ← service service_id
  owner ← lift (Service.get target (λ g. g.client_id))
  Publish.purge_orphan owner target.service_id

-- Whether sd_foreach_service passes a service on.
unfoldable pub forward_if_matches : Option Filter → Service → Option Bool
forward_if_matches none target = some true
forward_if_matches (some filter) target = elim (Sub.props_of target.current) [
  | none ↦ none
  | some props ↦ Filter.matches filter props
]

-- sd_foreach_service: the ids and services that user_cb is called with, in order.
unfoldable pub foreach_service :
    Option Filter → List (Entry Service) → Option (List (Entry Service))
foreach_service filter [] = some []
foreach_service filter (entry ∷ entries) =
    let rest = foreach_service filter entries in
    elim (forward_if_matches filter entry.value) [
      | none ↦ none
      | some true ↦ elim rest [ none ↦ none | some found ↦ some (entry ∷ found) ]
      | some false ↦ rest
    ]
