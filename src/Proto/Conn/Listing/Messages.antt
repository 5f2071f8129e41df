-- ===== src/Proto/Conn/Listing/Messages.antt =====
-- The notifications of the listings of src/proto/proto_conn.c as JSON messages, by the names of their
-- members, and the services that a filter lets through.
use tpaf.Prelude.{
  ◌≡◌, refl, Bool, true, false, Option, none, some, List, [], ◌∷◌, arith, inl, inr, Bool-cases,
  Option-cases,
}
use tpaf.Prelude.Int.{ℤ}
use tpaf.Clib.Str.{Str}
use tpaf.Clib.Ftime.{is_since}
use tpaf.Util.Pmap.{Pmap, Entry}
use tpaf.Sd.Props.{Props}
use tpaf.Sd.Generation.{Generation}
use tpaf.Sd.Service.{Service}
use tpaf.Sd.Sub.{Sub}
use tpaf.Sd.Filter
use tpaf.Sd.Filter.{Filter}
use tpaf.Sd.Filter.Print
use tpaf.Sd.Conn.{Conn}
use tpaf.Sd.State.{Client}
use tpaf.Sd.Server
use tpaf.Proto.Json.{Json}
use tpaf.Proto.Names.{
  cmd_subscriptions, cmd_services, cmd_clients, field_subscription_id, field_client_id,
  field_filter, field_service_id, field_client_addr, field_time,
}
use tpaf.Proto.Types.{subscriptions_ta, services_ta, clients_ta}
use tpaf.Proto.Encoding
use tpaf.Proto.Encoding.{FieldValue, object_set_new}
use tpaf.Proto.Ta
use tpaf.Proto.Ta.{Ta, produce_response, response_fields}
use tpaf.Proto.World.{of_u64, whole_seconds}
use tpaf.Proto.Notify.{orphan_since}
use tpaf.Proto.Notify.Messages.{notification, current_members}
use tpaf.Proto.Conn.{sub_notify_args, service_notify_args, client_notify_args}

-- Whether a filter lets a service through, by the properties of its current generation.
pub data Lets : Option Filter → Service → Bool → Type 0 where
  unfiltered : {service : Service} → Lets none service true
  filtered :
      {filter : Filter} {service : Service} {passes : Bool} (g : Generation) (p : Props)
      → service.current ≡ some g
      → g.props ≡ some p
      → Filter.matches filter p ≡ some passes
      → Lets (some filter) service passes

-- The services of a map that a filter lets through, in their order.
pub data IsSelection (filter : Option Filter) : Pmap Service → List (Entry Service) → Type 0 where
  end : IsSelection filter [] []
  keeps :
      {e : Entry Service} {services : Pmap Service} {shown : List (Entry Service)}
      → Lets filter e.value true
      → IsSelection filter services shown
      → IsSelection filter (e ∷ services) (e ∷ shown)
  drops :
      {e : Entry Service} {services : Pmap Service} {shown : List (Entry Service)}
      → Lets filter e.value false
      → IsSelection filter services shown
      → IsSelection filter (e ∷ services) shown

forward_if_matches-Lets :
    (filter : Option Filter) (service : Service) (passes : Bool)
    → Lets filter service passes
    → Server.forward_if_matches filter service ≡ some passes
unfolding Server.forward_if_matches
forward_if_matches-Lets _ service _ unfiltered = refl
forward_if_matches-Lets _ service passes (filtered g p current has m) =
    ground (arith, current, has, m)

pub foreach_service-IsSelection :
    (filter : Option Filter) (services : Pmap Service) (shown : List (Entry Service))
    → IsSelection filter services shown
    → Server.foreach_service filter services ≡ some shown
unfolding Server.foreach_service
foreach_service-IsSelection filter _ _ end = refl
foreach_service-IsSelection filter _ _ (keeps {e = e} {services = services} {shown = shown} l s) =
    ground (
      arith,
      forward_if_matches-Lets filter e.value true l,
      foreach_service-IsSelection filter services shown s,
    )
foreach_service-IsSelection filter _ _ (drops {e = e} {services = services} {shown = shown} l s) =
    ground (
      arith,
      forward_if_matches-Lets filter e.value false l,
      foreach_service-IsSelection filter services shown s,
    )

module _ (J : Json) where
  open J use {Value}

  abbrev pub filter_value : Option Filter → Option Value
  filter_value none = none
  filter_value (some filter) = J.string (Print.str filter)

  -- A subscription is told by its id, its client, and its filter if it has one.
  abbrev pub sub_text : ℤ → Entry Sub → Str
  sub_text ta_id e = notification J cmd_subscriptions ta_id (
      (field_subscription_id, some (J.integer (of_u64 e.key)))
      ∷ (field_client_id, some (J.integer e.value.client_id))
      ∷ (field_filter, filter_value e.value.filter)
      ∷ [])

  -- A service by its id and its current generation.
  abbrev pub service_text : ℤ → Entry Service → Str
  service_text ta_id e =
      notification J cmd_services ta_id
        ((field_service_id, some (J.integer (of_u64 e.key))) ∷ current_members J e.value.current)

  -- A client by its id, its address and when it connected, in seconds.
  abbrev pub client_text : ℤ → Entry Client → Str → Conn → Str
  client_text ta_id e addr own = notification J cmd_clients ta_id (
      (field_client_id, some (J.integer (of_u64 e.key)))
      ∷ (field_client_addr, J.string addr)
      ∷ (field_time, some (J.integer (whole_seconds own.connected_at)))
      ∷ [])

  -- The notifications that are made have these texts.
  pub notify-sub_text :
      (ta ta' : Ta) (e : Entry Sub) (response : Str)
      → ta.type ≡ some subscriptions_ta
      → Ta.notify J ta (sub_notify_args e) ≡ some (response, ta')
      → response ≡ sub_text ta.ta_id e
  unfolding Ta.notify produce_response response_fields Encoding.set_fields Encoding.set_opt_fields
      Encoding.set_field Encoding.write_value Encoding.create_response object_set_new
      sub_notify_args
  notify-sub_text ta ta' e response t h = elim (Option-cases e.value.filter) [
    | inl bare ↦ ground arith
    | inr (filter, has) ↦ ground arith
  ]

  pub notify-service_text :
      (ta ta' : Ta) (e : Entry Service) (args : List (Option FieldValue)) (response : Str)
      → ta.type ≡ some services_ta
      → service_notify_args e ≡ some args
      → Ta.notify J ta args ≡ some (response, ta')
      → response ≡ service_text ta.ta_id e
  unfolding Ta.notify produce_response response_fields Encoding.set_fields Encoding.set_opt_fields
      Encoding.set_field Encoding.write_value Encoding.create_response object_set_new
      service_notify_args orphan_since
  notify-service_text ta ta' e args response t a h = elim (Option-cases e.value.current) [
    | inl gone ↦ absurd (ground arith)
    | inr (g, here) ↦ elim (Option-cases g.props) [
      | inl bare ↦ absurd (ground arith)
      | inr (p, has) ↦ elim (Bool-cases (is_since g.orphan_since)) [
        | inl since ↦ ground arith
        | inr not_since ↦ ground arith
      ]
    ]
  ]

  pub notify-client_text :
      (ta ta' : Ta) (e : Entry Client) (addr : Str) (own : Conn) (args : List (Option FieldValue))
      (response : Str)
      → ta.type ≡ some clients_ta
      → e.value.active_conn ≡ some own
      → own.remote_addr ≡ some addr
      → client_notify_args e ≡ some args
      → Ta.notify J ta args ≡ some (response, ta')
      → response ≡ client_text ta.ta_id e addr own
  unfolding Ta.notify produce_response response_fields Encoding.set_fields Encoding.set_opt_fields
      Encoding.set_field Encoding.write_value Encoding.create_response object_set_new
      client_notify_args
  notify-client_text ta ta' e addr own args response t active has a h = ground arith
