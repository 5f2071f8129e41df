-- ===== src/Proto/Conn.antt =====
-- src/proto/proto_conn.c: the requests of a connection. `c` is the pointer to the connection. A
-- handler returns the transaction as it leaves it.
pub mod Replies
pub mod Answered
pub mod Publishing
pub mod Subscribing
pub mod Unsubscribing
pub mod Listing
pub mod Guard
pub mod Hello
use tpaf.Prelude.{
  ℕ, Bool, true, false, not, ◌||◌, Option, none, some, List, [], ◌∷◌, map, if◌then◌else◌,
}
use tpaf.Prelude.Int.{ℤ, pos, to_u64, ltb_ℤ, ◌==ℤ◌}
use mathlib.Core.Option
use tpaf.Clib.Str.{Str, str_eq}
use tpaf.Util.Pmap
use tpaf.Util.Pmap.{Pmap, Entry}
use tpaf.Sd.Generation.{Generation}
use tpaf.Sd.Service.{Service}
use tpaf.Sd.Sub.{Sub}
use tpaf.Sd.Filter.{Filter}
use tpaf.Sd.Filter.Parse
use tpaf.Sd.Filter.Print
use tpaf.Sd.State.{Client}
use tpaf.Sd.Client.{Rc}
use tpaf.Sd.Client
use tpaf.Sd.Server
use tpaf.Proto.Json.{Json}
use tpaf.Proto.Names.{
  version, cmd_hello, cmd_subscribe, cmd_unsubscribe, cmd_publish, cmd_unpublish, cmd_ping,
  cmd_subscriptions, cmd_services, cmd_clients, fail_reason_no_hello, fail_reason_client_id_exists,
  fail_reason_invalid_filter_syntax, fail_reason_subscription_id_exists,
  fail_reason_non_existent_subscription_id, fail_reason_non_existent_service_id,
  fail_reason_unsupported_protocol_version, fail_reason_permission_denied,
  fail_reason_old_generation, fail_reason_same_generation_but_different,
}
use tpaf.Proto.Encoding.{FieldValue, uint63, str}
use tpaf.Proto.Ta
use tpaf.Proto.Ta.{Ta}
use tpaf.Proto.World.{
  World, W, ◌>>=◌, ◌>>◌, pure, lift, fault, for_each, get_world, conn, put_conn, put_match_conn,
  has_finished_handshake, respond, of_u64, whole_seconds,
}
use tpaf.Proto.Notify.{on_sd, service_args}
use tpaf.Proto.Lists.{handshake}

-- filter_parse: `none` is NULL. Its parser never runs out of fuel (Sd/Filter/Total).
unfoldable pub parse_filter : Str → Option Filter
parse_filter text = elim (Parse.filter_parse text) [
  | Parse.ok filter rest ↦ some filter
  | Parse.failed ↦ none
  | Parse.out_of_fuel ↦ none
]

-- What the callbacks of handle_services, handle_subscriptions and handle_clients notify of.
unfoldable pub service_notify_args : Entry Service → Option (List (Option FieldValue))
service_notify_args entry =
    Option.map (λ g. some (uint63 (of_u64 entry.key)) ∷ service_args g) entry.value.current

unfoldable pub sub_notify_args : Entry Sub → List (Option FieldValue)
sub_notify_args entry =
    some (uint63 (of_u64 entry.key))
    ∷ some (uint63 entry.value.client_id)
    ∷ Option.map (λ filter. str (Print.str filter)) entry.value.filter
    ∷ []

unfoldable pub client_notify_args : Entry Client → Option (List (Option FieldValue))
client_notify_args entry =
    Option.map
      (λ (own : tpaf.Sd.Conn.Conn).
        some (uint63 (of_u64 entry.key))
        ∷ Option.map str own.remote_addr
        ∷ some (uint63 (whole_seconds own.connected_at))
        ∷ [])
      entry.value.active_conn

module _ (J : Json) where
  -- proto_ta_complete and proto_ta_fail, whose message is queued.
  unfoldable pub complete : ℕ → Ta → List (Option FieldValue) → W Ta
  complete c ta args = do
    (response, ta') ← lift (Ta.complete J ta args)
    respond c response
    pure ta'

  unfoldable pub fail : ℕ → Ta → Str → W Ta
  fail c ta reason = do
    (response, ta') ← lift (Ta.fail J ta (some (str reason) ∷ []))
    respond c response
    pure ta'

  unfoldable pub accept : ℕ → Ta → W Ta
  accept c ta = do (response, ta') ← lift (Ta.accept J ta); respond c response; pure ta'

  unfoldable pub notify : ℕ → Ta → List (Option FieldValue) → W (Unit {0})
  notify c ta args = do (response, ta') ← lift (Ta.notify J ta args); respond c response

  -- A hello on a connection that has finished its handshake.
  unfoldable pub hello_again : ℕ → Ta → ℤ → ℤ → W Ta
  hello_again c ta own_id client_id =
      if not (own_id ==ℤ client_id)
      then fail c ta fail_reason_permission_denied
      else complete c ta (some (uint63 version) ∷ [])

  unfoldable pub hello_connect : ℕ → Ta → ℤ → Option Str → W Ta
  hello_connect c ta client_id remote_addr = do
    rc ← on_sd J (Server.client_connect client_id remote_addr)
    elim rc [
      | Rc.client_already_exists ↦ fail c ta fail_reason_client_id_exists
      | Rc.ok ↦ do
        own ← conn c
        put_conn c (record own { client_id = client_id })
        handshake c
        complete c ta (some (uint63 version) ∷ [])
      | _ ↦ fault
    ]

  unfoldable pub handle_hello : ℕ → Ta → W Ta
  handle_hello c ta = do
    client_id ← lift (Ta.get_req_field_uint63_value ta 0)
    min_version ← lift (Ta.get_req_field_uint63_value ta 1)
    max_version ← lift (Ta.get_req_field_uint63_value ta 2)
    own ← conn c
    if has_finished_handshake own
        then hello_again c ta own.client_id client_id
        else if ltb_ℤ version min_version || ltb_ℤ max_version version
        then fail c ta fail_reason_unsupported_protocol_version
        else hello_connect c ta client_id own.remote_addr

  unfoldable pub handle_no_hello : ℕ → Ta → W Ta
  handle_no_hello c ta = fail c ta fail_reason_no_hello

  -- proto_ta_map_add: the map holds the transaction itself, so what proto_ta_accept does to it is
  -- seen through the map as well.
  unfoldable pub install_sub : ℕ → ℤ → Ta → W Ta
  install_sub c sub_id ta = do
    put_match_conn sub_id c
    own ← conn c
    sub_tas ← lift (Pmap.add own.sub_tas (to_u64 sub_id) ta)
    put_conn c (record own { sub_tas = sub_tas })
    ta' ← accept c ta
    own' ← conn c
    put_conn c (record own' { sub_tas = Pmap.update own'.sub_tas (to_u64 sub_id) ta' })
    pure ta'

  unfoldable pub handle_subscribe : ℕ → Ta → W Ta
  handle_subscribe c ta = do
    sub_id ← lift (Ta.get_req_field_uint63_value ta 0)
    filter_s ← lift (Ta.get_opt_req_field_str_value ta 0)
    own ← conn c
    rc ← on_sd J (Server.create_sub parse_filter own.client_id sub_id filter_s)
    elim rc [
      | Rc.sub_already_exists ↦ fail c ta fail_reason_subscription_id_exists
      | Rc.invalid_filter ↦ fail c ta fail_reason_invalid_filter_syntax
      | Rc.ok ↦ do
        ta' ← install_sub c sub_id ta
        on_sd J (Server.activate_sub own.client_id sub_id)
        pure ta'
      | _ ↦ fault
    ]

  -- The end of a subscription that was there, behind the response to unsubscribe.
  unfoldable pub complete_sub : ℕ → ℤ → Ta → W Ta
  complete_sub c sub_id unsub_ta = do
    (unsub_response, unsub_ta') ← lift (Ta.complete J unsub_ta [])
    own ← conn c
    sub_ta ← lift (Pmap.get own.sub_tas (to_u64 sub_id))
    sub_tas ← lift (Pmap.del own.sub_tas (to_u64 sub_id))
    put_conn c (record own { sub_tas = sub_tas })
    (sub_response, sub_ta') ← lift (Ta.complete J sub_ta [])
    respond c unsub_response
    respond c sub_response
    pure unsub_ta'

  unfoldable pub handle_unsubscribe : ℕ → Ta → W Ta
  handle_unsubscribe c unsub_ta = do
    sub_id ← lift (Ta.get_req_field_uint63_value unsub_ta 0)
    own ← conn c
    rc ← on_sd J (Server.unsubscribe own.client_id sub_id)
    elim rc [
      | Rc.no_such_sub ↦ fail c unsub_ta fail_reason_non_existent_subscription_id
      | Rc.perm_denied ↦ fail c unsub_ta fail_reason_permission_denied
      | Rc.ok ↦ complete_sub c sub_id unsub_ta
      | _ ↦ fault
    ]

  unfoldable pub handle_publish : ℕ → Ta → W Ta
  handle_publish c ta = do
    service_id ← lift (Ta.get_req_field_uint63_value ta 0)
    generation ← lift (Ta.get_req_field_uint63_value ta 1)
    props ← lift (Ta.get_req_field_props_value ta 2)
    ttl ← lift (Ta.get_req_field_uint63_value ta 3)
    own ← conn c
    rc ← on_sd J (Server.publish own.client_id service_id generation props ttl)
    elim rc [
      | Rc.service_same_generation_but_different_data ↦
          fail c ta fail_reason_same_generation_but_different
      | Rc.newer_service_generation_exists ↦ fail c ta fail_reason_old_generation
      | Rc.ok ↦ complete c ta []
      | _ ↦ fault
    ]

  unfoldable pub handle_unpublish : ℕ → Ta → W Ta
  handle_unpublish c ta = do
    service_id ← lift (Ta.get_req_field_uint63_value ta 0)
    own ← conn c
    rc ← on_sd J (Server.unpublish own.client_id service_id)
    elim rc [
      | Rc.no_such_service ↦ fail c ta fail_reason_non_existent_service_id
      | Rc.ok ↦ complete c ta []
      | _ ↦ fault
    ]

  unfoldable pub handle_ping : ℕ → Ta → W Ta
  handle_ping c ta = complete c ta []

  unfoldable pub service_notify : ℕ → Ta → Entry Service → W (Unit {0})
  service_notify c ta entry = do args ← lift (service_notify_args entry); notify c ta args

  unfoldable pub sub_notify : ℕ → Ta → Entry Sub → W (Unit {0})
  sub_notify c ta entry = notify c ta (sub_notify_args entry)

  -- A client that is not connected is left out.
  unfoldable pub client_notify : ℕ → Ta → Entry Client → W (Unit {0})
  client_notify c ta entry = elim (client_notify_args entry) [
    | none ↦ pure tt
    | some args ↦ notify c ta args
  ]

  unfoldable pub list_services : ℕ → Ta → Option Filter → W Ta
  list_services c ta filter = do
    ta' ← accept c ta
    w ← get_world
    found ← lift (Server.foreach_service filter w.sd.db.services)
    for_each (service_notify c ta') found
    complete c ta' []

  unfoldable pub handle_services : ℕ → Ta → W Ta
  handle_services c ta = do
    filter_s ← lift (Ta.get_opt_req_field_str_value ta 0)
    elim filter_s [
      | none ↦ list_services c ta none
      | some text ↦ elim (parse_filter text) [
        | none ↦ fail c ta fail_reason_invalid_filter_syntax
        | some filter ↦ list_services c ta (some filter)
      ]
    ]

  unfoldable pub handle_subscriptions : ℕ → Ta → W Ta
  handle_subscriptions c ta = do
    ta' ← accept c ta
    w ← get_world
    for_each (sub_notify c ta') w.sd.db.subs
    complete c ta' []

  unfoldable pub handle_clients : ℕ → Ta → W Ta
  handle_clients c ta = do
    ta' ← accept c ta
    w ← get_world
    for_each (client_notify c ta') w.sd.db.clients
    complete c ta' []

  -- The chain of strcmp in handle_req, behind the test for hello.
  unfoldable pub dispatch : ℕ → Ta → Str → W Ta
  dispatch c ta cmd =
      if str_eq cmd cmd_subscribe
      then handle_subscribe c ta
      else if str_eq cmd cmd_unsubscribe
      then handle_unsubscribe c ta
      else if str_eq cmd cmd_publish
      then handle_publish c ta
      else if str_eq cmd cmd_unpublish
      then handle_unpublish c ta
      else if str_eq cmd cmd_ping
      then handle_ping c ta
      else if str_eq cmd cmd_services
      then handle_services c ta
      else if str_eq cmd cmd_subscriptions
      then handle_subscriptions c ta
      else if str_eq cmd cmd_clients
      then handle_clients c ta
      else fault

  unfoldable pub handle_cmd : ℕ → Ta → W Ta
  handle_cmd c ta = do
    cmd ← lift (Ta.get_cmd ta)
    own ← conn c
    if str_eq cmd cmd_hello
        then handle_hello c ta
        else if not (has_finished_handshake own)
        then handle_no_hello c ta
        else dispatch c ta cmd

  -- Whether handle_req returns 0.
  unfoldable pub handle_req : ℕ → Str → W Bool
  handle_req c req_msg = do
    (ta, accepted) ← lift (Ta.req J Ta.create req_msg)
    if not accepted then pure false else do ta' ← handle_cmd c ta; pure true
