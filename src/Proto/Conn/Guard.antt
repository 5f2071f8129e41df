-- ===== src/Proto/Conn/Guard.antt =====
-- src/proto/proto_conn.c, handle_req: what a connection may do before its handshake, and with a
-- message that is no request.
use tpaf.Prelude.{some-injective, ℕ, ◌≡◌, sym, ◌∙◌, subst, true, false, some, arith}
use tpaf.Clib.Str.{Str, str_eq}
use tpaf.Util.Pmap
use tpaf.Proto.Json.{Json}
use tpaf.Proto.Names.{cmd_hello, fail_reason_no_hello}
use tpaf.Proto.Types.{TaType}
use tpaf.Proto.Ta
use tpaf.Proto.Ta.{Ta, failed}
use tpaf.Proto.Ta.Requests.{IsRequested, req-IsRequested}
use tpaf.Proto.Ta.Answers.{failure}
use tpaf.Proto.World.{World, ProtoConn, has_finished_handshake}
use tpaf.Proto.Conn.{handle_req, handle_cmd, handle_no_hello}
use tpaf.Proto.Conn.Replies.{queued, fail_reply}

module _ (J : Json) where
  -- A request that was let through, with its type.
  pub request-IsRequested :
      (ta : Ta) (type : TaType) (msg : Str)
      → Ta.req J Ta.create msg ≡ some (ta, true)
      → ta.type ≡ some type
      → IsRequested J ta type
  request-IsRequested ta type msg e t =
      let (j, type', loaded, r, others) = req-IsRequested J ta msg e in
      subst (IsRequested J ta) (some-injective (sym r.has_type ∙ t)) r

  -- A request other than hello, on a connection that has not finished its handshake, does nothing but
  -- put one message into the queue of the connection, the failure `no-hello`: the domain, the lists
  -- and every other connection stay as they are.
  pub handle_req-no_hello :
      (c : ℕ) (msg : Str) (w : World) (own : ProtoConn) (ta : Ta) (type : TaType)
      → Pmap.get w.conns c ≡ some own
      → has_finished_handshake own ≡ false
      → Ta.req J Ta.create msg ≡ some (ta, true)
      → ta.type ≡ some type
      → str_eq type.cmd cmd_hello ≡ false
      → handle_req J c msg w
        ≡ some (true, queued w c own (failure J type ta.ta_id fail_reason_no_hello))
  unfolding handle_req handle_cmd handle_no_hello Ta.get_cmd
  handle_req-no_hello c msg w own ta type found early e t other = ground (
    arith,
    fail_reply J c own ta type w found fail_reason_no_hello (request-IsRequested ta type msg e t),
  )

  -- A message that is no request of the protocol changes nothing, and is reported to the caller.
  pub handle_req-refused :
      (c : ℕ) (msg : Str) (w : World) (ta : Ta)
      → Ta.req J Ta.create msg ≡ some (ta, false)
      → handle_req J c msg w ≡ some (false, w)
  unfolding handle_req
  handle_req-refused c msg w ta e = ground arith
