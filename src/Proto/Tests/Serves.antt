-- ===== src/Proto/Tests/Serves.antt =====
-- The handshake and what comes before it, at concrete states.
use tpaf.Prelude.{◌≡◌, refl, ℕ, true, none, some, [], ◌∷◌, ◌++◌, arith}
use tpaf.Prelude.Int.{ℤ, pos}
use tpaf.Clib.Str.{str_eq}
use tpaf.Util.Sequence
use tpaf.Util.Pmap
use tpaf.Sd.Conn
use tpaf.Sd.State.{Sd, Client}
use tpaf.Sd.Server.Connections.{Connected, unknown}
use tpaf.Sd.Server.Tests.{quiet}
use tpaf.Proto.Names.{
  bytes, cmd_hello, cmd_publish, cmd_unpublish, cmd_subscribe, cmd_unsubscribe, cmd_ping,
  field_ta_cmd, field_ta_id, field_msg_type, msg_type_req, fail_reason_no_hello,
  fail_reason_permission_denied,
}
use tpaf.Proto.Types.{hello_ta, ping_ta, find_type, lookup_type}
use tpaf.Proto.Encoding
use tpaf.Proto.Encoding.{FieldValue, uint63}
use tpaf.Proto.Ta
use tpaf.Proto.Ta.{Ta, completed, failed, req, req_type, req_fields}
use tpaf.Proto.Ta.Requests.{IsRequested}
use tpaf.Proto.Ta.Answers.{failure}
use tpaf.Proto.World.{has_finished_handshake}
use tpaf.Proto.Lists
use tpaf.Proto.Conn.{handle_req, handle_hello}
use tpaf.Proto.Conn.Replies.{queued}
use tpaf.Proto.Conn.Guard.{handle_req-no_hello}
use tpaf.Proto.Conn.Hello.{agreed, handle_hello-again, handle_hello-Connected}
use tpaf.Proto.Tests.{J, ta_of, IsRequested-ta_of, hello_known, publisher, newcomer, served}

pinged : req J Ta.create (1 ∷ []) ≡ some (ta_of ping_ta [] [], true)
unfolding req req_type req_fields Ta.create Encoding.get_typed Encoding.get_json Encoding.get_uint63
    Encoding.get_msg_type Encoding.get_fields lookup_type find_type str_eq bytes cmd_hello
    cmd_publish cmd_unpublish cmd_subscribe cmd_unsubscribe cmd_ping field_ta_cmd field_ta_id
    field_msg_type msg_type_req
pinged = refl

handle_req-no_hello_example :
    handle_req J 30 (1 ∷ []) (served quiet)
    ≡ some
        (true, queued (served quiet) 30 newcomer (failure J ping_ta (pos 5) fail_reason_no_hello))
unfolding Pmap.get Pmap.index_of Sequence.index_of has_finished_handshake str_eq cmd_ping cmd_hello
    bytes
handle_req-no_hello_example =
    handle_req-no_hello J 30 (1 ∷ []) (served quiet) newcomer (ta_of ping_ta [] []) ping_ta refl
      refl pinged refl refl

abbrev greeting : ℤ → Ta
greeting client_id =
    ta_of hello_ta (some (uint63 client_id) ∷ some (uint63 (pos 1)) ∷ some (uint63 (pos 2)) ∷ []) []

greeting-IsRequested : (n : ℕ) → IsRequested J (greeting (pos n)) hello_ta
greeting-IsRequested n =
    IsRequested-ta_of hello_ta _ [] cmd_hello hello_known (refl, (refl, (refl, tt))) tt

handle_hello-again_example :
    handle_hello J 10 (greeting (pos 4)) (served quiet)
    ≡ some (
      record (greeting (pos 4)) { state = failed },
      queued (served quiet) 10 publisher (failure J hello_ta (pos 5) fail_reason_permission_denied),
    )
unfolding Pmap.get Pmap.index_of Sequence.index_of has_finished_handshake
    Ta.get_req_field_uint63_value Ta.get_req_field_value Ta.get_value Ta.type_eq
handle_hello-again_example =
    handle_hello-again J 10 (greeting (pos 4)) (greeting-IsRequested 4) (pos 4) (pos 1) (pos 2) refl
      refl refl (served quiet) publisher refl refl

abbrev newly : Client
newly = record {
  client_id = pos 4;
  active_conn = some (Conn.create (pos 10) none);
  inactive_conns = [];
}

handle_hello-Connected_example :
    (sd : Sd) × Connected (pos 4) quiet sd newly
    × (handle_hello J 30 (greeting (pos 4)) (served quiet)
        ≡ some (
          record (greeting (pos 4)) { state = completed },
          queued
              (record (served quiet) {
                sd = record sd { calls = [] };
                conns = Pmap.update (served quiet).conns 30 (record newcomer { client_id = pos 4 });
                clientless_conns = [];
                client_conns = (10 ∷ 20 ∷ []) ++ 30 ∷ [];
              })
              30
              (record newcomer { client_id = pos 4 })
              (agreed J (pos 5)),
        ))
unfolding Pmap.get Pmap.index_of Sequence.index_of Sequence.delete_at has_finished_handshake
    Ta.get_req_field_uint63_value Ta.get_req_field_value Ta.get_value Ta.type_eq Lists.remove
    Lists.index_of
handle_hello-Connected_example =
    handle_hello-Connected J 30 (greeting (pos 4)) (greeting-IsRequested 4) (pos 4) (pos 1) (pos 2)
      refl refl refl (served quiet) newcomer refl refl (omega arith) (omega arith) refl newly []
      (unknown refl) refl
