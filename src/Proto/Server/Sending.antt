-- ===== src/Proto/Server/Sending.antt =====
-- src/proto/proto_conn.c, try_send: the queue of a connection is sent, the oldest message first.
use tpaf.Prelude.{
  ℕ, zero, suc, ◌≡◌, ◌<◌, refl, ap, ◌∙◌, true, some, List, [], ◌∷◌, ◌++◌, arith, ◌==◌, ==_iff,
  Bool-cases, inl, inr, sym, if◌then◌else◌, length,
}
use tpaf.Clib.Str.{Str}
use tpaf.Util.Pmap
use tpaf.Util.Pmap.Laws.{get-update}
use tpaf.Proto.Json.{Json}
use tpaf.Proto.World.{World, ProtoConn, put_conn, max_send_batch}
use tpaf.Proto.Server.{Sent, sent, send_loop, try_send}

-- A socket that takes as many messages as there are here, and no more.
unfoldable pub takes : List Str → List Sent
takes [] = []
takes (msg ∷ msgs) = sent ∷ takes msgs

-- The connection has the queue, and nothing else has changed.
pub record Left (c : ℕ) (own : ProtoConn) (queue : List Str) (w w' : World) : Type 0 where
  pub conns_eq :
      (d : ℕ)
      → Pmap.get w'.conns d
        ≡ (if c == d then some (record own { out_queue = queue }) else Pmap.get w.conns d)
  pub same_sd : w'.sd ≡ w.sd
  pub same_client : w'.client_conns ≡ w.client_conns
  pub same_clientless : w'.clientless_conns ≡ w.clientless_conns

module _ (J : Json) (c : ℕ) where
  unsent :
      (own : ProtoConn) (queue : List Str) (w : World)
      → Pmap.get w.conns c ≡ some own
      → own.out_queue ≡ queue
      → Left c own queue w w
  unsent own queue w found e = record {
    conns_eq = λ d. elim (Bool-cases (c == d)) [
      | inl hit ↦ rw hit (
          ap (Pmap.get w.conns) (sym ((==_iff c d).0 hit))
          ∙ found
          ∙ ap (λ q. some (record own { out_queue = q })) e)
      | inr miss ↦ rw miss refl
    ];
    same_sd = refl;
    same_client = refl;
    same_clientless = refl;
  }

  send_loop-Left :
      (msgs rest : List Str) (rounds : ℕ) (own : ProtoConn) (w : World)
      → Pmap.get w.conns c ≡ some own
      → own.out_queue ≡ msgs ++ rest
      → length msgs < rounds
      → (w' : World) × (send_loop J rounds c (takes msgs) w ≡ some (true, w'))
        × Left c own rest w w'
  unfolding send_loop takes put_conn
  send_loop-Left msgs rest zero own w found e h = absurd (omega arith)
  send_loop-Left [] [] (suc rounds) own w found e h = (w, ground arith, unsent own [] w found e)
  send_loop-Left [] (msg ∷ rest) (suc rounds) own w found e h =
      (w, ground arith, unsent own (msg ∷ rest) w found e)
  send_loop-Left (msg ∷ msgs) rest (suc rounds) own w found e h =
      let own₁ = record own { out_queue = msgs ++ rest } in
      let w₁ = record w { conns = Pmap.update w.conns c own₁ } in
      let there : Pmap.get w₁.conns c ≡ some own₁ =
        ground (arith, get-update w.conns c c own₁ own found) in
      let (w', ran, l) = send_loop-Left msgs rest rounds own₁ w₁ there refl (omega arith) in
      (
        w',
        ground arith,
        record {
          conns_eq = λ d. ground (arith, l.conns_eq d, get-update w.conns c d own₁ own found);
          same_sd = l.same_sd;
          same_client = l.same_client;
          same_clientless = l.same_clientless;
        },
      )

  -- When the socket takes the first messages of the queue, fewer than a batch, and then no more, these
  -- are gone from the queue and the others are left in their order; nothing else of the connection
  -- changes, which includes what its socket is awaited for, also if the queue is now empty.
  pub try_send-Left :
      (msgs rest : List Str) (own : ProtoConn) (w : World)
      → Pmap.get w.conns c ≡ some own
      → own.out_queue ≡ msgs ++ rest
      → length msgs < max_send_batch
      → (w' : World) × (try_send J c (takes msgs) w ≡ some (true, w')) × Left c own rest w w'
  unfolding try_send
  try_send-Left msgs rest own w found e h = send_loop-Left msgs rest max_send_batch own w found e h
