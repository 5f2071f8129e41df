-- ===== src/Proto/Server.antt =====
-- src/proto/server.c, and the event handling of src/proto/proto_conn.c: a connection is accepted, its
-- socket is served, it ends, or it is dropped for want of a handshake. What XCM returns is an
-- argument.
pub mod CleanOut
pub mod Ends
pub mod Sending
use tpaf.Prelude.{
  ℕ, zero, suc, Bool, true, false, not, Option, none, some, List, [], ◌∷◌, ◌++◌, if◌then◌else◌,
}
use tpaf.Prelude.Int.{ℤ, pos, negsuc, ltb_ℤ, ◌-ℤ◌}
use tpaf.Clib.Str.{Str}
use tpaf.Clib.Ftime.{seconds}
use tpaf.Util.Pmap
use tpaf.Sd.Server
use tpaf.Proto.Json.{Json}
use tpaf.Proto.World.{
  World, ProtoConn, W, ◌>>=◌, ◌>>◌, pure, lift, ut_assert, for_each, get_world, conn, put_conn,
  add_conn, del_conn, has_finished_handshake, await_update, max_send_batch,
}
use tpaf.Proto.Notify.{on_sd}
use tpaf.Proto.Lists.{conn_term, remove}
use tpaf.Proto.Conn.{handle_req}

-- xcm_receive: a message, EAGAIN, another error, or the end of the connection.
pub data Received : Type 0 where
  message : Str → Received
  again failed closed : Received

-- xcm_send.
pub data Sent : Type 0 where
  sent again failed : Sent

unfoldable pub init : ℤ → World
init now = record {
  sd = Server.init now;
  conns = Pmap.create;
  match_conns = λ sub_id. none;
  client_conns = [];
  clientless_conns = [];
}

unfoldable pub create_conn : ℤ → Option Str → ProtoConn
create_conn now remote_addr = record {
  remote_addr = remote_addr;
  condition = record { sendable = false; receivable = true };
  established_at = now;
  client_id = negsuc 0;
  sub_tas = Pmap.create;
  out_queue = [];
  term = false;
}

abbrev put_clientless : List ℕ → W (Unit {0})
put_clientless conns w = some (tt, record w { clientless_conns = conns })

-- accept_cb for a socket that xcm_accept returned; `c` is the memory of the new connection.
unfoldable pub accept : ℕ → Option Str → W (Unit {0})
accept c remote_addr = do
  w ← get_world
  add_conn c (create_conn w.sd.now remote_addr)
  put_clientless (w.clientless_conns ++ c ∷ [])

abbrev max_handshake_time : ℤ
max_handshake_time = seconds (pos 2)

-- The loop of clean_out_cb that collects the expired connections.
unfoldable pub is_expired : ℤ → ProtoConn → Bool
is_expired now own = ltb_ℤ max_handshake_time (now -ℤ own.established_at)

unfoldable pub consider_disconnect : List ℕ → List ℕ → W (List ℕ)
consider_disconnect expired [] = pure expired
consider_disconnect expired (c ∷ clientless) = do
  own ← conn c
  w ← get_world
  consider_disconnect (if is_expired w.sd.now own then expired ++ c ∷ [] else expired) clientless

unfoldable pub do_disconnect : ℕ → W (Unit {0})
do_disconnect c = do
  w ← get_world
  clientless ← lift (remove w.clientless_conns c)
  put_clientless clientless
  del_conn c

unfoldable pub clean_out : W (Unit {0})
clean_out = do
  w ← get_world
  expired ← consider_disconnect [] w.clientless_conns
  for_each do_disconnect expired

module _ (J : Json) where
  -- Its part for a connection that has a client.
  unfoldable pub disconnect_client : ProtoConn → W (Unit {0})
  disconnect_client own =
      if has_finished_handshake own
      then (do rc ← on_sd J (Server.client_disconnect own.client_id); pure tt)
      else pure tt

  unfoldable pub term : ℕ → W (Unit {0})
  term c = do
    own ← conn c
    ut_assert (not own.term)
    disconnect_client own
    own' ← conn c
    put_conn c (record own' { term = true })
    conn_term c

  unfoldable pub update_await : ℕ → W (Unit {0})
  update_await c = do own ← conn c; put_conn c (await_update own)

  -- Whether try_receive returns 0.
  unfoldable pub try_receive : ℕ → Received → W Bool
  try_receive c (message msg) = do
    kept ← handle_req J c msg
    if kept then (do update_await c; pure true) else (do term c; pure false)
  try_receive c Received.again = do update_await c; pure true
  try_receive c Received.failed = do term c; pure false
  try_receive c closed = do term c; pure false

  -- The rounds left, and what xcm_send will return; a socket that takes no more is EAGAIN.
  unfoldable pub send_loop : ℕ → ℕ → List Sent → W Bool
  send_loop zero c results = do update_await c; pure true
  send_loop (suc rounds) c results = do
    own ← conn c
    elim own.out_queue [
      | [] ↦ pure true
      | msg ∷ queue ↦ elim results [
        | [] ↦ pure true
        | Sent.again ∷ rest ↦ pure true
        | Sent.failed ∷ rest ↦ do term c; pure false
        | sent ∷ rest ↦ do put_conn c (record own { out_queue = queue }); send_loop rounds c rest
      ]
    ]

  unfoldable pub try_send : ℕ → List Sent → W Bool
  try_send c results = send_loop max_send_batch c results

  unfoldable pub conn_process : ℕ → Received → List Sent → W (Unit {0})
  conn_process c received results = do
    kept ← try_receive c received
    if not kept then pure tt else (do sent_all ← try_send c results; pure tt)

  -- A timer of the domain goes off.
  unfoldable pub orphan_timeout : ℤ → W (Unit {0})
  orphan_timeout service_id = on_sd J (Server.orphan_timeout service_id)
