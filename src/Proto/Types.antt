-- ===== src/Proto/Types.antt =====
-- src/proto/proto_ta.c: the transaction types, tables of the commands with the fields of their
-- messages. A table of fields ends where the source has no name.
use tpaf.Prelude.{Option, none, some, List, [], ◌∷◌, if◌then◌else◌}
use tpaf.Clib.Str.{Str, str_eq}
use tpaf.Proto.Names.{
  cmd_hello, cmd_subscribe, cmd_unsubscribe, cmd_publish, cmd_unpublish, cmd_ping,
  cmd_subscriptions, cmd_services, cmd_clients, field_fail_reason, field_proto_min_version,
  field_proto_max_version, field_proto_version, field_service_id, field_service_props,
  field_generation, field_ttl, field_orphan_since, field_subscription_id, field_filter,
  field_client_id, field_client_addr, field_time, field_match_type,
}

pub data FieldType : Type 0 where
  str uint63 number props match_type : FieldType

pub record Field : Type 0 where
  pub name : Str
  pub type : FieldType

pub data IaType : Type 0 where
  single_response multi_response : IaType

pub record TaType : Type 0 where
  pub cmd : Str
  pub ia_type : IaType
  pub req_fields : List Field
  pub opt_req_fields : List Field
  pub notify_fields : List Field
  pub opt_notify_fields : List Field
  pub complete_fields : List Field
  pub opt_fail_fields : List Field

abbrev field : Str → FieldType → Field
field name type = record { name = name; type = type }

abbrev pub hello_ta : TaType
hello_ta = record {
  cmd = cmd_hello;
  ia_type = single_response;
  req_fields =
      field field_client_id uint63
      ∷ field field_proto_min_version uint63
      ∷ field field_proto_max_version uint63
      ∷ [];
  opt_req_fields = [];
  notify_fields = [];
  opt_notify_fields = [];
  complete_fields = field field_proto_version uint63 ∷ [];
  opt_fail_fields = field field_fail_reason str ∷ [];
}

abbrev pub publish_ta : TaType
publish_ta = record {
  cmd = cmd_publish;
  ia_type = single_response;
  req_fields =
      field field_service_id uint63
      ∷ field field_generation uint63
      ∷ field field_service_props props
      ∷ field field_ttl uint63
      ∷ [];
  opt_req_fields = [];
  notify_fields = [];
  opt_notify_fields = [];
  complete_fields = [];
  opt_fail_fields = field field_fail_reason str ∷ [];
}

abbrev pub unpublish_ta : TaType
unpublish_ta = record {
  cmd = cmd_unpublish;
  ia_type = single_response;
  req_fields = field field_service_id uint63 ∷ [];
  opt_req_fields = [];
  notify_fields = [];
  opt_notify_fields = [];
  complete_fields = [];
  opt_fail_fields = field field_fail_reason str ∷ [];
}

abbrev pub subscribe_ta : TaType
subscribe_ta = record {
  cmd = cmd_subscribe;
  ia_type = multi_response;
  req_fields = field field_subscription_id uint63 ∷ [];
  opt_req_fields = field field_filter str ∷ [];
  notify_fields = field field_match_type match_type ∷ field field_service_id uint63 ∷ [];
  opt_notify_fields =
      field field_generation uint63
      ∷ field field_service_props props
      ∷ field field_ttl uint63
      ∷ field field_client_id uint63
      ∷ field field_orphan_since number
      ∷ [];
  complete_fields = [];
  opt_fail_fields = field field_fail_reason str ∷ [];
}

abbrev pub unsubscribe_ta : TaType
unsubscribe_ta = record {
  cmd = cmd_unsubscribe;
  ia_type = single_response;
  req_fields = field field_subscription_id uint63 ∷ [];
  opt_req_fields = [];
  notify_fields = [];
  opt_notify_fields = [];
  complete_fields = [];
  opt_fail_fields = field field_fail_reason str ∷ [];
}

abbrev pub ping_ta : TaType
ping_ta = record {
  cmd = cmd_ping;
  ia_type = single_response;
  req_fields = [];
  opt_req_fields = [];
  notify_fields = [];
  opt_notify_fields = [];
  complete_fields = [];
  opt_fail_fields = field field_fail_reason str ∷ [];
}

abbrev pub services_ta : TaType
services_ta = record {
  cmd = cmd_services;
  ia_type = multi_response;
  req_fields = [];
  opt_req_fields = field field_filter str ∷ [];
  notify_fields =
      field field_service_id uint63
      ∷ field field_generation uint63
      ∷ field field_service_props props
      ∷ field field_ttl uint63
      ∷ field field_client_id uint63
      ∷ [];
  opt_notify_fields = field field_orphan_since number ∷ [];
  complete_fields = [];
  opt_fail_fields = field field_fail_reason str ∷ [];
}

abbrev pub subscriptions_ta : TaType
subscriptions_ta = record {
  cmd = cmd_subscriptions;
  ia_type = multi_response;
  req_fields = [];
  opt_req_fields = [];
  notify_fields = field field_subscription_id uint63 ∷ field field_client_id uint63 ∷ [];
  opt_notify_fields = field field_filter str ∷ [];
  complete_fields = [];
  opt_fail_fields = [];
}

abbrev pub clients_ta : TaType
clients_ta = record {
  cmd = cmd_clients;
  ia_type = multi_response;
  req_fields = [];
  opt_req_fields = [];
  notify_fields =
      field field_client_id uint63 ∷ field field_client_addr str ∷ field field_time uint63 ∷ [];
  opt_notify_fields = [];
  complete_fields = [];
  opt_fail_fields = field field_fail_reason str ∷ [];
}

abbrev pub ta_types : List TaType
ta_types =
    hello_ta ∷ publish_ta ∷ unpublish_ta ∷ subscribe_ta ∷ unsubscribe_ta ∷ ping_ta ∷ services_ta
    ∷ subscriptions_ta ∷ clients_ta ∷ []

-- The first type of the table with the command.
unfoldable pub find_type : List TaType → Str → Option TaType
find_type [] cmd_name = none
find_type (type ∷ types) cmd_name =
    if str_eq type.cmd cmd_name then some type else find_type types cmd_name

unfoldable pub lookup_type : Str → Option TaType
unfolding find_type
lookup_type cmd_name = find_type ta_types cmd_name
