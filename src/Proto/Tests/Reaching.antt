-- ===== src/Proto/Tests/Reaching.antt =====
-- A server that has accepted two connections, of which one has said hello.
use tpaf.Prelude.{◌≡◌, refl, ℕ, true, false, none, some, [], ◌∷◌}
use tpaf.Prelude.Int.{pos, ltb_ℤ, ◌-ℤ◌}
use tpaf.Clib.Str.{str_eq}
use tpaf.Clib.Ftime.{seconds}
use tpaf.Util.Sequence
use tpaf.Util.Pmap
use tpaf.Sd.Conn
use tpaf.Sd.State
use tpaf.Sd.Server
use tpaf.Sd.Server.Tests.{entry}
use tpaf.Proto.Json.{Json}
use tpaf.Proto.Json.Tree
use tpaf.Proto.Json.Tree.{Tree, integer, string, object, none_left, tree_json}
use tpaf.Proto.Names
use tpaf.Proto.Types.{lookup_type}
use tpaf.Proto.Encoding
use tpaf.Proto.Ta
use tpaf.Proto.World
use tpaf.Proto.Notify
use tpaf.Proto.Lists
use tpaf.Proto.Conn as Requests
use tpaf.Proto.Conn.{hello_connect, handle_hello, handle_cmd, handle_req}
use tpaf.Sd.Client.{connect}
use tpaf.Proto.World.{World, ProtoConn, has_finished_handshake}
use tpaf.Proto.Server.{
  init, update_await, try_receive, send_loop, try_send, create_conn, message, accept, clean_out,
  conn_process,
}
use tpaf.Proto.Conn.Hello.{agreed}
use tpaf.Proto.Events.Invariant.{IsParted}
use tpaf.Proto.Events.Reachable.{
  Reachable, start, step, accepts, serves_one, passes, Reachable-IsParted, clean_out-Reachable,
}
use tpaf.Proto.Tests.{newcomer}

abbrev hello_object : Tree
hello_object = object (
    Tree.entry Names.field_ta_cmd (string Names.cmd_hello) (
      Tree.entry Names.field_ta_id (integer (pos 5)) (
        Tree.entry Names.field_msg_type (string Names.msg_type_req) (
          Tree.entry Names.field_client_id (integer (pos 4)) (
            Tree.entry Names.field_proto_min_version (integer (pos 1))
              (Tree.entry Names.field_proto_max_version (integer (pos 2)) none_left))))))

abbrev greets : Json
greets = tree_json (λ msg. some hello_object)

abbrev one_waits : World
one_waits = record (init (pos 0)) { conns = entry 30 newcomer ∷ []; clientless_conns = 30 ∷ [] }

abbrev two_wait : World
two_wait = record (init (pos 0)) {
  conns = entry 30 newcomer ∷ entry 40 newcomer ∷ [];
  clientless_conns = 30 ∷ 40 ∷ [];
}

abbrev one_serves : World
one_serves = record two_wait {
  sd = record (Server.init (pos 0)) {
    db = record (Server.init (pos 0)).db {
      clients =
          entry 4 (record {
            client_id = pos 4;
            active_conn = some (Conn.create (pos 0) none);
            inactive_conns = [];
          })
          ∷ [];
    };
  };
  conns =
      entry 30 (record newcomer {
        client_id = pos 4;
        out_queue = agreed greets (pos 5) ∷ [];
        condition = record { sendable = true; receivable = true };
      })
      ∷ entry 40 newcomer
      ∷ [];
  clientless_conns = 40 ∷ [];
  client_conns = 30 ∷ [];
}

first_accepted : accept 30 none (init (pos 0)) ≡ some (tt, one_waits)
unfolding accept init World.add_conn Pmap.add Pmap.has_key Pmap.index_of Sequence.index_of
    create_conn
first_accepted = refl

second_accepted : accept 40 none one_waits ≡ some (tt, two_wait)
unfolding accept init World.add_conn Pmap.add Pmap.has_key Pmap.index_of Sequence.index_of
    create_conn
second_accepted = refl

said_hello : conn_process greets 30 (message []) [] two_wait ≡ some (tt, one_serves)
unfolding lookup_type Encoding.get_uint63 Encoding.get_msg_type Encoding.get_fields
    Encoding.set_fields Encoding.set_opt_fields Ta.create Ta.get_cmd Ta.get_req_field_uint63_value
    Ta.req_fields Ta.req_type Ta.req Ta.produce_response Ta.complete World.put_conn
    World.has_finished_handshake World.queue_response World.respond Notify.deliver Notify.on_sd
    Lists.index_of Lists.remove Lists.handshake Requests.complete hello_connect handle_hello
    handle_cmd handle_req init update_await try_receive send_loop try_send conn_process
    Names.msg_type_req Names.cmd_hello Names.field_ta_cmd Names.field_ta_id Names.field_msg_type
    Names.field_proto_min_version Names.field_proto_max_version Names.field_client_id
    Server.client_connect connect State.add_client Pmap.add Pmap.get Pmap.update Sequence.delete_at
    str_eq
said_hello = refl

served_one : Reachable greets one_serves
served_one =
    step
      (step (step (start (pos 0)) (accepts 30 none first_accepted))
        (accepts 40 none second_accepted))
      (serves_one 30 (message []) [] said_hello)

Reachable-IsParted_example : IsParted one_serves
Reachable-IsParted_example = Reachable-IsParted greets one_serves served_one

-- Ten seconds on.
abbrev late : World
late = record one_serves { sd = record one_serves.sd { now = seconds (pos 10) } }

clean_out-Reachable_example :
    (w' : World) × (clean_out late ≡ some (tt, w'))
    × ((c : ℕ) (own : ProtoConn)
        → Pmap.get w'.conns c ≡ some own
        → has_finished_handshake own ≡ false
        → ltb_ℤ (seconds (pos 2)) (seconds (pos 10) -ℤ own.established_at) ≡ false)
clean_out-Reachable_example =
    clean_out-Reachable greets late (step served_one (passes (seconds (pos 10))))
