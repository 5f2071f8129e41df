-- ===== src/Proto/Tests.antt =====
-- Concrete connections, transactions and messages of src/proto/: clients 1 and 2 on connections 10 and
-- 20, client 2 with subscription 3, and connection 30 without a client.
mod Requests
mod Serving
mod Serves
mod Listings
mod Endings
mod Reaching
use tpaf.Prelude.{
  ◌≡◌, refl, ℕ, Bool, true, false, Option, none, some, List, [], ◌∷◌, if◌then◌else◌, length,
}
use tpaf.Prelude.Int.{ℤ, pos, negsuc, ◌==ℤ◌}
use tpaf.Clib.Str.{Str, str_eq}
use tpaf.Util.Pmap.{Pmap}
use tpaf.Sd.State.{Sd}
use tpaf.Sd.Server.Tests.{entry}
use tpaf.Proto.Json.{Json}
use tpaf.Proto.Json.Tree.{Tree, integer, string, array, object, nil, cons, none_left, tree_json}
use tpaf.Proto.Json.Tree
use tpaf.Proto.Names.{
  bytes, cmd_hello, cmd_publish, cmd_unpublish, cmd_ping, cmd_subscribe, cmd_unsubscribe,
  cmd_subscriptions, cmd_services, field_ta_cmd, field_ta_id, field_msg_type, msg_type_req,
}
use tpaf.Proto.Types.{
  TaType, hello_ta, publish_ta, ping_ta, subscribe_ta, unsubscribe_ta, subscriptions_ta,
  services_ta, find_type, lookup_type,
}
use tpaf.Proto.Encoding.{FieldValue, uint63, str, props}
use tpaf.Proto.Ta.{Ta, requested, accepted}
use tpaf.Proto.Ta.Requests.{IsRequested, AllFit}
use tpaf.Proto.World.{World, ProtoConn, Condition, assign}

-- A text that is no JSON, and one that is a ping.
abbrev pub ping_object : Tree
ping_object = object (
    Tree.entry field_ta_cmd (string cmd_ping) (
      Tree.entry field_ta_id (integer (pos 5))
        (Tree.entry field_msg_type (string msg_type_req) none_left)))

abbrev pub parse : Str → Option Tree
parse [] = none
parse (c ∷ msg) = some ping_object

abbrev pub J : Json
J = tree_json parse

abbrev pub ta_of : TaType → List (Option FieldValue) → List (Option FieldValue) → Ta
ta_of type values opt_values = record {
  type = some type;
  state = requested;
  ta_id = pos 5;
  req_field_values = values;
  opt_req_field_values = opt_values;
}

pub hello_known : lookup_type cmd_hello ≡ some hello_ta
unfolding lookup_type find_type str_eq cmd_hello bytes
hello_known = refl

pub publish_known : lookup_type cmd_publish ≡ some publish_ta
unfolding lookup_type find_type str_eq cmd_publish cmd_hello bytes
publish_known = refl

pub IsRequested-ta_of :
    (type : TaType) (values opt_values : List (Option FieldValue)) (cmd : Str)
    → lookup_type cmd ≡ some type
    → AllFit false type.req_fields values
    → AllFit true type.opt_req_fields opt_values
    → IsRequested J (ta_of type values opt_values) type
IsRequested-ta_of type values opt_values cmd known fit opt_fit = record {
  has_type = refl;
  in_table = (cmd, known);
  requested = refl;
  has_id = refl;
  req_fit = fit;
  opt_req_fit = opt_fit;
}

pub subscribe_known : lookup_type cmd_subscribe ≡ some subscribe_ta
unfolding lookup_type find_type str_eq cmd_subscribe cmd_publish cmd_unpublish cmd_hello bytes
subscribe_known = refl

pub unsubscribe_known : lookup_type cmd_unsubscribe ≡ some unsubscribe_ta
unfolding lookup_type find_type str_eq cmd_unsubscribe cmd_subscribe cmd_publish cmd_unpublish
    cmd_hello bytes
unsubscribe_known = refl

pub services_known : lookup_type cmd_services ≡ some services_ta
unfolding lookup_type find_type str_eq cmd_services cmd_ping cmd_unsubscribe cmd_subscribe
    cmd_publish cmd_unpublish cmd_hello bytes
services_known = refl

pub subscriptions_known : lookup_type cmd_subscriptions ≡ some subscriptions_ta
unfolding lookup_type find_type str_eq cmd_subscriptions cmd_services cmd_ping cmd_unsubscribe
    cmd_subscribe cmd_publish cmd_unpublish cmd_hello bytes
subscriptions_known = refl

-- The connections: of client 1, of client 2 with its subscription, and one without a client.
abbrev pub line_of : ℤ → Pmap Ta → ProtoConn
line_of client_id sub_tas = record {
  remote_addr = none;
  condition = record { sendable = false; receivable = true };
  established_at = pos 0;
  client_id = client_id;
  sub_tas = sub_tas;
  out_queue = [];
  term = false;
}

abbrev pub watcher_ta : Ta
watcher_ta = record (ta_of subscribe_ta (some (uint63 (pos 3)) ∷ []) (none ∷ [])) {
  state = accepted;
}

abbrev pub publisher : ProtoConn
publisher = line_of (pos 1) []

abbrev pub subscriber : ProtoConn
subscriber = line_of (pos 2) (entry 3 watcher_ta ∷ [])

abbrev pub newcomer : ProtoConn
newcomer = line_of (negsuc 0) []

abbrev pub served : Sd → World
served sd = record {
  sd = sd;
  conns = entry 10 publisher ∷ entry 20 subscriber ∷ entry 30 newcomer ∷ [];
  match_conns = assign (λ sub_id. none) (pos 3) 20;
  client_conns = 10 ∷ 20 ∷ [];
  clientless_conns = 30 ∷ [];
}
