-- ===== src/Proto/Events/Endings.antt =====
-- What else src/proto/proto_conn.c and src/proto/server.c do to a connection: it is accepted, receives,
-- sends, ends, or is dropped, and the two lists still part the connections.
use tpaf.Prelude.{
  ℕ, zero, suc, ◌⊎◌, ◌≡◌, refl, sym, ap, subst, ◌∙◌, Bool, true, false, not, Option, some, List, [],
  ◌∷◌, ◌++◌, arith, inl, inr, Option-cases, Bool-cases, if◌then◌else◌, ◌==◌, ==_iff,
}
use tpaf.Prelude.Int.{ℤ}
use tpaf.Clib.Str.{Str}
use tpaf.Util.Pmap
use tpaf.Util.Pmap.Laws.{del-none, get-add, add-has_key, add-IsDistinct}
use tpaf.Sd.Server
use tpaf.Proto.Json.{Json}
use tpaf.Proto.World.{
  World, ProtoConn, pure, for_each, put_conn, add_conn, del_conn, has_finished_handshake,
  await_update, max_send_batch,
}
use tpaf.Proto.Lists.{remove, conn_term}
use tpaf.Proto.Lists.Removal.{mem}
use tpaf.Proto.Lists.Members.{removed_mem, mem-append, append-IsNodup}
use tpaf.Proto.Notify.{on_sd}
use tpaf.Proto.Conn.{handle_req}
use tpaf.Proto.Server.{
  Received, message, again, failed, closed, Sent, sent, create_conn, is_expired,
  consider_disconnect, do_disconnect, clean_out, disconnect_client, term, update_await, try_receive,
  send_loop, try_send, conn_process,
}
use tpaf.Proto.Events.Frame.{
  client_of, update-Frame, Keeps, bind-Keeps, pure-Keeps, conn-Keeps, put_conn-Keeps,
}
use tpaf.Proto.Events.Handlers.{on_sd-Keeps}
use tpaf.Proto.Events.Invariant.{
  clientless_remove, client_remove, IsParted, Frame-IsParted, early-IsParted, ended-IsParted, waits,
}
use tpaf.Proto.Events.Hello.{handle_req-IsParted}

-- A connection that ends is in one of the lists, and leaves it.
conn_term-IsParted :
    (c : ℕ) (w w' : World) → IsParted w → conn_term c w ≡ some (tt, w') → IsParted w'
unfolding conn_term del_conn has_finished_handshake
conn_term-IsParted c w w' p e = elim (Option-cases (Pmap.del w.conns c)) [
  | inl bad ↦ absurd (ground arith)
  | inr (conns, deleted) ↦ elim (Option-cases (Pmap.get w.conns c)) [
    | inl gone ↦ absurd (ground (arith, del-none w.conns c))
    | inr (own, found) ↦ elim (Bool-cases (has_finished_handshake own)) [
      | inl finished ↦
          let (rest, not_clientless, removed) = client_remove w c own p found finished in
          subst IsParted (ground arith) (
            ended-IsParted w c own conns rest p found deleted removed
              (p.clientless c ∙ rw found (ap not finished)))
      | inr early ↦
          let (rest, removed) = clientless_remove w c own p found early in
          subst IsParted (ground arith) (
            early-IsParted w c own conns rest p found deleted removed (p.client c ∙ rw found early))
    ]
  ]
]

do_disconnect-IsParted :
    (c : ℕ) (w w' : World) → IsParted w → do_disconnect c w ≡ some (tt, w') → IsParted w'
unfolding do_disconnect del_conn
do_disconnect-IsParted c w w' p e = elim (Option-cases (Pmap.del w.conns c)) [
  | inl bad ↦ absurd (ground arith)
  | inr (conns, deleted) ↦ elim (Option-cases (Pmap.get w.conns c)) [
    | inl gone ↦ absurd (ground (arith, del-none w.conns c))
    | inr (own, found) ↦ elim (Option-cases (remove w.clientless_conns c)) [
      | inl bad ↦ absurd (ground arith)
      | inr (rest, removed) ↦
          let early : waits (client_of w c) ≡ true =
            sym (p.clientless c) ∙ removed_mem w.clientless_conns rest c removed in
          subst IsParted (ground arith) (
            early-IsParted w c own conns rest p found deleted removed
              (p.client c ∙ ground (arith, early, found)))
    ]
  ]
]

disconnects-IsParted :
    (expired : List ℕ) (w w' : World)
    → IsParted w
    → for_each do_disconnect expired w ≡ some (tt, w')
    → IsParted w'
unfolding for_each
disconnects-IsParted [] w w' p e = subst IsParted (ground arith) p
disconnects-IsParted (c ∷ expired) w w' p e = elim (Option-cases (do_disconnect c w)) [
  | inl bad ↦ absurd (ground arith)
  | inr ((u, v), ran) ↦
      disconnects-IsParted expired v w' (do_disconnect-IsParted c w v p ran) (ground arith)
]

consider_disconnect_same :
    (conns expired found : List ℕ) (w w' : World)
    → consider_disconnect expired conns w ≡ some (found, w')
    → w ≡ w'
unfolding consider_disconnect
consider_disconnect_same [] expired found w w' e = ground arith
consider_disconnect_same (c ∷ conns) expired found w w' e =
    elim (Option-cases (Pmap.get w.conns c)) [
      | inl bad ↦ absurd (ground arith)
      | inr (own, there) ↦
          consider_disconnect_same conns
            (if is_expired w.sd.now own then expired ++ c ∷ [] else expired) found w w'
            (ground arith)
    ]

pub clean_out-IsParted : (w w' : World) → IsParted w → clean_out w ≡ some (tt, w') → IsParted w'
unfolding clean_out
clean_out-IsParted w w' p e = elim (Option-cases (consider_disconnect [] w.clientless_conns w)) [
  | inl bad ↦ absurd (ground arith)
  | inr ((expired, v), ran) ↦
      let same = consider_disconnect_same w.clientless_conns [] expired w v ran in
      disconnects-IsParted expired v w' (subst IsParted same p) (ground arith)
]

pub accept-IsParted :
    (c : ℕ) (addr : Option Str) (w w' : World)
    → IsParted w
    → tpaf.Proto.Server.accept c addr w ≡ some (tt, w')
    → IsParted w'
unfolding tpaf.Proto.Server.accept add_conn create_conn
accept-IsParted c addr w w' p e = elim (Option-cases (Pmap.get w.conns c)) [
  | inr (own, found) ↦
      absurd (ground (arith, add-has_key w.conns c (create_conn w.sd.now addr) own found))
  | inl free ↦
      let new = create_conn w.sd.now addr in
      let (conns, added, read) = get-add w.conns c new free in
      let away : mem w.clientless_conns c ≡ false = p.clientless c ∙ rw free refl in
      let v = record w { conns = conns; clientless_conns = w.clientless_conns ++ c ∷ [] } in
      let q : IsParted v = record {
        distinct = add-IsDistinct w.conns conns c new added p.distinct;
        nodup_clientless = append-IsNodup w.clientless_conns c p.nodup_clientless away;
        nodup_client = p.nodup_client;
        clientless = λ d. ground (arith, mem-append w.clientless_conns c d, p.clientless d, read d);
        client = λ d. elim (Bool-cases (c == d)) [
          | inl hit ↦
              rw (← (==_iff c d).0 hit) (ground (arith, p.client c, free, read c, ==_iff c c))
          | inr miss ↦ ground (arith, p.client d, read d)
        ];
      } in
      subst IsParted (ground arith) q
]

queue-cases :
    (queue : List Str) → (queue ≡ []) ⊎ ((msg : Str) × (rest : List Str) × (queue ≡ msg ∷ rest))
queue-cases [] = inl refl
queue-cases (msg ∷ rest) = inr (msg, rest, refl)

module _ (J : Json) where
  disconnect_client-Keeps : (own : ProtoConn) (w : World) → Keeps (disconnect_client J own) w
  unfolding disconnect_client
  disconnect_client-Keeps own w u w' e = elim (Bool-cases (has_finished_handshake own)) [
    | inl finished ↦
        bind-Keeps (on_sd J (Server.client_disconnect own.client_id)) (λ _. pure tt) w
          (on_sd-Keeps J (Server.client_disconnect own.client_id) w) (λ _ v _. pure-Keeps tt v) u w'
          (ground arith)
    | inr early ↦ pure-Keeps tt w u w' (ground arith)
  ]

  term-IsParted : (c : ℕ) (w w' : World) → IsParted w → term J c w ≡ some (tt, w') → IsParted w'
  unfolding term put_conn
  term-IsParted c w w' p e = elim (Option-cases (Pmap.get w.conns c)) [
    | inl bad ↦ absurd (ground arith)
    | inr (own, found) ↦ elim (Option-cases (disconnect_client J own w)) [
      | inl bad ↦ absurd (ground arith)
      | inr ((u, v), ran) ↦ elim (Option-cases (Pmap.get v.conns c)) [
        | inl bad ↦ absurd (ground arith)
        | inr (now, there) ↦
            let q = Frame-IsParted w v (disconnect_client-Keeps own w u v ran) p in
            let gone = record now { term = true } in
            conn_term-IsParted c (record v { conns = Pmap.update v.conns c gone }) w'
              (Frame-IsParted v _ (update-Frame v c now gone there refl) q) (ground arith)
      ]
    ]
  ]

  update_await-Keeps : (c : ℕ) (w : World) → Keeps (update_await J c) w
  unfolding update_await await_update
  update_await-Keeps c w =
      conn-Keeps c _ w λ own found. put_conn-Keeps c own (await_update own) w found refl

  send_loop-IsParted :
      (rounds c : ℕ) (results : List Sent) (kept : Bool) (w w' : World)
      → IsParted w
      → send_loop J rounds c results w ≡ some (kept, w')
      → IsParted w'
  unfolding send_loop put_conn
  send_loop-IsParted zero c results kept w w' p e =
      Frame-IsParted w w'
        (bind-Keeps (update_await J c) (λ _. pure true) w (update_await-Keeps c w)
          (λ _ v _. pure-Keeps true v) kept w' (ground arith))
        p
  send_loop-IsParted (suc rounds) c [] kept w w' p e = elim (Option-cases (Pmap.get w.conns c)) [
    | inl bad ↦ absurd (ground arith)
    | inr (own, found) ↦ subst IsParted (ground arith) p
  ]
  send_loop-IsParted (suc rounds) c (Sent.again ∷ results) kept w w' p e =
      elim (Option-cases (Pmap.get w.conns c)) [
        | inl bad ↦ absurd (ground arith)
        | inr (own, found) ↦ subst IsParted (ground arith) p
      ]
  send_loop-IsParted (suc rounds) c (Sent.failed ∷ results) kept w w' p e =
      elim (Option-cases (Pmap.get w.conns c)) [
        | inl bad ↦ absurd (ground arith)
        | inr (own, found) ↦ elim (queue-cases own.out_queue) [
          | inl empty ↦ subst IsParted (ground arith) p
          | inr (msg, queue, full) ↦ elim (Option-cases (term J c w)) [
            | inl bad ↦ absurd (ground arith)
            | inr ((u, v), ran) ↦ subst IsParted (ground arith) (term-IsParted c w v p ran)
          ]
        ]
      ]
  send_loop-IsParted (suc rounds) c (sent ∷ results) kept w w' p e =
      elim (Option-cases (Pmap.get w.conns c)) [
        | inl bad ↦ absurd (ground arith)
        | inr (own, found) ↦ elim (queue-cases own.out_queue) [
          | inl empty ↦ subst IsParted (ground arith) p
          | inr (msg, queue, full) ↦
              let popped = record own { out_queue = queue } in
              send_loop-IsParted rounds c results kept
                (record w { conns = Pmap.update w.conns c popped }) w'
                (Frame-IsParted w _ (update-Frame w c own popped found refl) p) (ground arith)
        ]
      ]

  try_receive-IsParted :
      (c : ℕ) (received : Received) (kept : Bool) (w w' : World)
      → IsParted w
      → try_receive J c received w ≡ some (kept, w')
      → IsParted w'
  unfolding try_receive
  try_receive-IsParted c (message msg) kept w w' p e = elim (Option-cases (handle_req J c msg w)) [
    | inl bad ↦ absurd (ground arith)
    | inr ((true, v), ran) ↦
        Frame-IsParted v w'
          (bind-Keeps (update_await J c) (λ _. pure true) v (update_await-Keeps c v)
            (λ _ u _. pure-Keeps true u) kept w' (ground arith))
          (handle_req-IsParted J c msg true w v p ran)
    | inr ((false, v), ran) ↦ elim (Option-cases (term J c v)) [
      | inl bad ↦ absurd (ground arith)
      | inr ((u, v'), ended) ↦
          subst IsParted (ground arith)
            (term-IsParted c v v' (handle_req-IsParted J c msg false w v p ran) ended)
    ]
  ]
  try_receive-IsParted c Received.again kept w w' p e =
      Frame-IsParted w w'
        (bind-Keeps (update_await J c) (λ _. pure true) w (update_await-Keeps c w)
          (λ _ u _. pure-Keeps true u) kept w' (ground arith))
        p
  try_receive-IsParted c Received.failed kept w w' p e = elim (Option-cases (term J c w)) [
    | inl bad ↦ absurd (ground arith)
    | inr ((u, v), ended) ↦ subst IsParted (ground arith) (term-IsParted c w v p ended)
  ]
  try_receive-IsParted c closed kept w w' p e = elim (Option-cases (term J c w)) [
    | inl bad ↦ absurd (ground arith)
    | inr ((u, v), ended) ↦ subst IsParted (ground arith) (term-IsParted c w v p ended)
  ]

  pub conn_process-IsParted :
      (c : ℕ) (received : Received) (results : List Sent) (w w' : World)
      → IsParted w
      → conn_process J c received results w ≡ some (tt, w')
      → IsParted w'
  unfolding conn_process try_send
  conn_process-IsParted c received results w w' p e =
      elim (Option-cases (try_receive J c received w)) [
        | inl bad ↦ absurd (ground arith)
        | inr ((false, v), ran) ↦
            subst IsParted (ground arith) (try_receive-IsParted c received false w v p ran)
        | inr ((true, v), ran) ↦ elim (Option-cases (send_loop J max_send_batch c results v)) [
          | inl bad ↦ absurd (ground arith)
          | inr ((all, v'), sends) ↦ subst IsParted (ground arith) (
              send_loop-IsParted max_send_batch c results all v v'
                (try_receive-IsParted c received true w v p ran) sends)
        ]
      ]

  pub orphan_timeout-IsParted :
      (service_id : ℤ) (w w' : World)
      → IsParted w
      → tpaf.Proto.Server.orphan_timeout J service_id w ≡ some (tt, w')
      → IsParted w'
  unfolding tpaf.Proto.Server.orphan_timeout
  orphan_timeout-IsParted service_id w w' p e =
      Frame-IsParted w w' (on_sd-Keeps J (Server.orphan_timeout service_id) w tt w' e) p
