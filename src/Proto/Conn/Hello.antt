-- ===== src/Proto/Conn/Hello.antt =====
-- src/proto/proto_conn.c, handle_hello: the handshake of a connection, with the version of the
-- protocol and the client's id.
use tpaf.Prelude.{ℕ, ◌≡◌, ◌⊎◌, true, false, some, List, [], ◌∷◌, ◌++◌, arith, if◌then◌else◌}
use tpaf.Prelude.Int.{ℤ, is_nonneg, ◌==ℤ◌, ◌≤ℤ◌, ◌<ℤ◌}
use tpaf.Clib.Str.{Str}
use tpaf.Util.Pmap
use tpaf.Util.Pmap.Laws.{get-update}
use tpaf.Sd.State.{Sd, Client}
use tpaf.Sd.Client.{Rc}
use tpaf.Sd.Server
use tpaf.Sd.Server.Connections.{Connecting, Connected, client_connect_lem}
use tpaf.Proto.Json.{Json}
use tpaf.Proto.Names.{
  version, msg_type_complete, field_proto_version, fail_reason_permission_denied,
  fail_reason_unsupported_protocol_version, fail_reason_client_id_exists,
}
use tpaf.Proto.Types.{hello_ta}
use tpaf.Proto.Encoding
use tpaf.Proto.Encoding.{uint63}
use tpaf.Proto.Ta
use tpaf.Proto.Ta.{
  Ta, completed, failed, get_req_field_uint63_value, produce_response, response_fields,
}
use tpaf.Proto.Ta.Requests.{IsRequested}
use tpaf.Proto.Ta.Answers.{failure}
use tpaf.Proto.World.{World, ProtoConn, has_finished_handshake, put_conn}
use tpaf.Proto.World.Queues.{respond_lem}
use tpaf.Proto.Notify.Quiet.{on_sd_quiet}
use tpaf.Proto.Lists.{handshake, remove}
use tpaf.Proto.Conn.{complete, handle_hello, hello_again, hello_connect}
use tpaf.Proto.Conn.Replies.{queued, fail_reply}

-- The reply with the version agreed on.
abbrev pub agreed : Json → ℤ → Str
agreed J ta_id = J.dumps (
    J.object_set (Encoding.create_response J hello_ta.cmd ta_id msg_type_complete)
      field_proto_version (J.integer version))

module _ (J : Json) (c : ℕ) (ta : Ta) (r : IsRequested J ta hello_ta) where
  agree_reply :
      (own : ProtoConn) (w : World)
      → Pmap.get w.conns c ≡ some own
      → complete J c ta (some (uint63 version) ∷ []) w
        ≡ some (record ta { state = completed }, queued w c own (agreed J ta.ta_id))
  unfolding complete Ta.complete produce_response response_fields Encoding.set_fields
      Encoding.set_field Encoding.write_value Encoding.object_set_new Encoding.set_opt_fields
  agree_reply own w found =
      ground (arith, r.has_type, r.requested, respond_lem c own (agreed J ta.ta_id) w found)

  -- The values of the request.
  module _ (client_id min_version max_version : ℤ)
      (has_client : get_req_field_uint63_value ta 0 ≡ some client_id)
      (has_min : get_req_field_uint63_value ta 1 ≡ some min_version)
      (has_max : get_req_field_uint63_value ta 2 ≡ some max_version) where
    -- A hello on a connection that has finished its handshake changes nothing: it is answered with the
    -- version agreed on if it has the client id of the connection, and with `permission-denied` if it
    -- has another one.
    pub handle_hello-again :
        (w : World) (own : ProtoConn)
        → Pmap.get w.conns c ≡ some own
        → has_finished_handshake own ≡ true
        → handle_hello J c ta w
          ≡ some (
              if own.client_id ==ℤ client_id
              then (record ta { state = completed }, queued w c own (agreed J ta.ta_id))
              else (
                record ta { state = failed },
                queued w c own (failure J hello_ta ta.ta_id fail_reason_permission_denied),
              ))
    unfolding handle_hello hello_again
    handle_hello-again w own found done = ground (
      arith,
      agree_reply own w found,
      fail_reply J c own ta hello_ta w found fail_reason_permission_denied r,
    )

    -- A first hello whose range of versions leaves out that of the server is answered with
    -- `unsupported-protocol-version`, and changes nothing.
    pub handle_hello-unsupported :
        (w : World) (own : ProtoConn)
        → Pmap.get w.conns c ≡ some own
        → has_finished_handshake own ≡ false
        → (version <ℤ min_version) ⊎ (max_version <ℤ version)
        → handle_hello J c ta w
          ≡ some (
            record ta { state = failed },
            queued w c own (failure J hello_ta ta.ta_id fail_reason_unsupported_protocol_version),
          )
    unfolding handle_hello
    handle_hello-unsupported w own found early range =
        ground
          (arith, fail_reply J c own ta hello_ta w found fail_reason_unsupported_protocol_version r)

    module _ (w : World) (own : ProtoConn) (found : Pmap.get w.conns c ≡ some own)
        (early : has_finished_handshake own ≡ false) (above : min_version ≤ℤ version)
        (below : version ≤ℤ max_version) (nonneg : is_nonneg client_id ≡ true) where
      -- A first hello for a client that is connected is answered with `client-id-exists`; the domain,
      -- with no calls pending, is as it was.
      hello-exists :
          (client : Client)
          → Connecting client_id own.remote_addr
              (record w.sd { calls = [] })
              Rc.client_already_exists
              client
          → (sd : Sd) × Connected client_id (record w.sd { calls = [] }) sd client
            × (handle_hello J c ta w
                ≡ some (
                  record ta { state = failed },
                  queued
                      (record w { sd = record sd { calls = [] } })
                      c
                      own
                      (failure J hello_ta ta.ta_id fail_reason_client_id_exists),
                ))
      unfolding handle_hello hello_connect
      hello-exists client k =
          let (sd, did, left) =
            client_connect_lem client_id own.remote_addr _ Rc.client_already_exists client nonneg
              k in
          (
            sd,
            left,
            ground (
              arith,
              on_sd_quiet J (Server.client_connect client_id own.remote_addr)
                  Rc.client_already_exists w sd did left.calls_eq,
              fail_reply J c own ta hello_ta (record w { sd = record sd { calls = [] } }) found
                  fail_reason_client_id_exists r,
            ),
          )

      -- The first hello of a client that is not connected, with a range of versions that has the
      -- server's: the client is connected in the domain, the connection gets the client's id and moves
      -- from the list of the clientless connections to the end of the other list, and the version
      -- agreed on is put into its queue.
      pub handle_hello-Connected :
          (client : Client) (clientless : List ℕ)
          → Connecting client_id own.remote_addr (record w.sd { calls = [] }) Rc.ok client
          → remove w.clientless_conns c ≡ some clientless
          → (sd : Sd) × Connected client_id (record w.sd { calls = [] }) sd client
            × (handle_hello J c ta w
                ≡ some (
                  record ta { state = completed },
                  queued
                      (record w {
                        sd = record sd { calls = [] };
                        conns = Pmap.update w.conns c (record own { client_id = client_id });
                        clientless_conns = clientless;
                        client_conns = w.client_conns ++ c ∷ [];
                      })
                      c
                      (record own { client_id = client_id })
                      (agreed J ta.ta_id),
                ))
      unfolding handle_hello hello_connect put_conn handshake
      handle_hello-Connected client clientless k removed =
          let (sd, did, left) =
            client_connect_lem client_id own.remote_addr _ Rc.ok client nonneg k in
          let own' = record own { client_id = client_id } in
          let w' = record w {
            sd = record sd { calls = [] };
            conns = Pmap.update w.conns c own';
            clientless_conns = clientless;
            client_conns = w.client_conns ++ c ∷ [];
          } in
          let there : Pmap.get w'.conns c ≡ some own' =
            ground (arith, get-update w.conns c c own' own found) in
          (
            sd,
            left,
            ground (
              arith,
              on_sd_quiet J (Server.client_connect client_id own.remote_addr) Rc.ok w sd did
                  left.calls_eq,
              agree_reply own' w' there,
            ),
          )
