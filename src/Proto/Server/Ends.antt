-- ===== src/Proto/Server/Ends.antt =====
-- src/proto/proto_conn.c, term, and conn_term_cb of src/proto/server.c: how a connection ends.
use tpaf.Prelude.{
  sym, subst, some-injective, ==_iff, ℕ, ◌≡◌, refl, ap, ◌∙◌, true, false, none, some, List, [],
  arith, ◌==◌, if◌then◌else◌,
}
use mathlib.Core.List.{reverse}
use tpaf.Clib.Str.{Str}
use tpaf.Util.Pmap
use tpaf.Util.Pmap.{Pmap}
use tpaf.Util.Pmap.Laws.{IsDistinct, get-del, get-update, update-IsDistinct}
use tpaf.Sd.State.{Sd, Client}
use tpaf.Sd.Conn.{Conn}
use tpaf.Sd.Server.Disconnection.{IsLeaving, Disconnected, client_disconnect_lem}
use tpaf.Proto.Notify.Messages.{notes}
use tpaf.Proto.Notify.Delivery.{delivered-Queued}
use tpaf.Proto.World.Queues.{Queued}
use tpaf.Sd.Client.{Rc}
use tpaf.Sd.Server
use tpaf.Proto.Json.{Json}
use tpaf.Proto.Ta
use tpaf.Proto.Ta.{Ta}
use tpaf.Proto.World.{
  World, ProtoConn, has_finished_handshake, conn, put_conn, del_conn, W, pure, ◌>>=◌, ◌>>◌,
}
use tpaf.Proto.Lists.{remove, conn_term}
use tpaf.Proto.Notify.{on_sd}
use tpaf.Proto.Notify.Growth.{on_sd-Performed, deliver-IsDistinct}
use tpaf.Proto.Notify.Safety.{AllReady, on_sd_total}
use tpaf.Proto.Conn.Guard.{handle_req-refused}
use tpaf.Proto.Server.{Received, message, failed, closed, disconnect_client, term, try_receive}

-- A connection that is gone, with all others as they were.
pub record Gone (c : ℕ) (w after : World) : Type 0 where
  pub conns_eq : (d : ℕ) → Pmap.get after.conns d ≡ (if c == d then none else Pmap.get w.conns d)
  pub same_sd : after.sd ≡ w.sd
  pub same_matches : after.match_conns ≡ w.match_conns

-- The end of a connection of a client, from where the domain has been seen to.
drop-Gone :
    (c : ℕ) (w : World) (now : ProtoConn) (rest : List ℕ)
    → Pmap.get w.conns c ≡ some now
    → IsDistinct w.conns
    → remove w.clientless_conns c ≡ none
    → remove w.client_conns c ≡ some rest
    → (after : World) × ((do own ← conn c; put_conn c (record own { term = true }); conn_term c) w
        ≡ some (tt, after))
      × Gone c w after
      × (after.clientless_conns ≡ w.clientless_conns)
      × (after.client_conns ≡ rest)
unfolding conn_term put_conn del_conn
drop-Gone c w now rest found distinct not_clientless removed =
    let now' = record now { term = true } in
    let conns₁ = Pmap.update w.conns c now' in
    let there : Pmap.get conns₁ c ≡ some now' =
      ground (arith, get-update w.conns c c now' now found) in
    let (conns, deleted, read) =
      get-del conns₁ c now' (update-IsDistinct w.conns c now' distinct) there in
    (
      record w { conns = conns; client_conns = rest },
      ground arith,
      record {
        conns_eq = λ d. ground (arith, read d, get-update w.conns c d now' now found);
        same_sd = refl;
        same_matches = refl;
      },
      refl,
      refl,
    )

module _ (J : Json) (c : ℕ) (own : ProtoConn) (w : World) (found : Pmap.get w.conns c ≡ some own)
    (alive : own.term ≡ false) (distinct : IsDistinct w.conns) where
  term-early :
      (rest : List ℕ)
      → has_finished_handshake own ≡ false
      → remove w.clientless_conns c ≡ some rest
      → (after : World) × (term J c w ≡ some (tt, after))
        × Gone c w after
        × (after.clientless_conns ≡ rest)
        × (after.client_conns ≡ w.client_conns)
  unfolding term disconnect_client conn_term put_conn del_conn
  term-early rest early removed =
      let own' = record own { term = true } in
      let conns₁ = Pmap.update w.conns c own' in
      let there : Pmap.get conns₁ c ≡ some own' =
        ground (arith, get-update w.conns c c own' own found) in
      let (conns, deleted, read) =
        get-del conns₁ c own' (update-IsDistinct w.conns c own' distinct) there in
      (
        record w { conns = conns; clientless_conns = rest },
        ground arith,
        record {
          conns_eq = λ d. ground (arith, read d, get-update w.conns c d own' own found);
          same_sd = refl;
          same_matches = refl;
        },
        refl,
        refl,
      )

  -- What ends a connection when it is read: a message that is no request, an error, or its end.
  pub data IsEnd : Received → Type 0 where
    refused :
        (msg : Str) (ta : Ta) → Ta.req J Ta.create msg ≡ some (ta, false) → IsEnd (message msg)
    error : IsEnd failed
    hung_up : IsEnd closed

  -- A connection without a client that sends what is no request of the protocol, has an error or is
  -- closed by its peer is destroyed and leaves the list of the clientless connections; the domain, the
  -- other connections and the other list stay as they are, and the caller is told.
  pub try_receive-early :
      (received : Received) (rest : List ℕ)
      → IsEnd received
      → has_finished_handshake own ≡ false
      → remove w.clientless_conns c ≡ some rest
      → (after : World) × (try_receive J c received w ≡ some (false, after))
        × Gone c w after
        × (after.clientless_conns ≡ rest)
        × (after.client_conns ≡ w.client_conns)
  unfolding try_receive
  try_receive-early _ rest (refused msg ta e) early removed =
      let (after, ran, gone, lists, same) = term-early rest early removed in
      (after, ground (arith, handle_req-refused J c msg w ta e), gone, lists, same)
  try_receive-early _ rest error early removed =
      let (after, ran, gone, lists, same) = term-early rest early removed in
      (after, ground arith, gone, lists, same)
  try_receive-early _ rest hung_up early removed =
      let (after, ran, gone, lists, same) = term-early rest early removed in
      (after, ground arith, gone, lists, same)

  disconnect_client-on :
      (rc : Rc) (mid : World)
      → has_finished_handshake own ≡ true
      → on_sd J (Server.client_disconnect own.client_id) w ≡ some (rc, mid)
      → disconnect_client J own w ≡ some (tt, mid)
  unfolding disconnect_client
  disconnect_client-on rc mid finished on =
      let ask : W (Unit {0}) = (do
        rc ← on_sd J (Server.client_disconnect own.client_id)
        pure tt) in
      let step : disconnect_client J own w ≡ ask w = rw finished refl in step ∙ rw (on, ◌>>=◌) refl

  term-on :
      (rc : Rc) (mid : World)
      → has_finished_handshake own ≡ true
      → on_sd J (Server.client_disconnect own.client_id) w ≡ some (rc, mid)
      → term J c w ≡ (do own ← conn c; put_conn c (record own { term = true }); conn_term c) mid
  unfolding term
  term-on rc mid finished on = ground (arith, disconnect_client-on rc mid finished on)

  -- The end of a connection of a connected client whose services are at rest and whose subscriptions
  -- are in the database (IsLeaving), where the calls of the match callback that this leads to are for
  -- subscriptions that are served: the client is disconnected in the domain (Disconnected), every other
  -- connection gets the messages for those calls (notes), and the connection is destroyed and leaves
  -- the list of the clients' connections.
  pub term-connected :
      (client : Client) (line : Conn) (sd : Sd) (rest : List ℕ)
      → has_finished_handshake own ≡ true
      → IsLeaving own.client_id (record w.sd { calls = [] }) client line
      → Server.client_disconnect own.client_id (record w.sd { calls = [] }) ≡ some (Rc.ok, sd)
      → AllReady w sd.calls
      → remove w.clientless_conns c ≡ none
      → remove w.client_conns c ≡ some rest
      → (after : World) × (term J c w ≡ some (tt, after))
        × Disconnected own.client_id (record w.sd { calls = [] }) sd client line
        × (after.sd ≡ record sd { calls = [] })
        × (Pmap.get after.conns c ≡ none)
        × ((d : ℕ) (other : ProtoConn)
            → (c == d) ≡ false
            → Pmap.get w.conns d ≡ some other
            → Queued d other (notes J w.match_conns d other.sub_tas (reverse sd.calls)) after)
        × (after.clientless_conns ≡ w.clientless_conns)
        × (after.client_conns ≡ rest)
  term-connected client line sd rest finished leaving did ready not_clientless removed =
      let disconnect = Server.client_disconnect own.client_id in
      let (t, did', left) =
        client_disconnect_lem own.client_id (record w.sd { calls = [] }) client line leaving in
      let same_sd : t ≡ sd = ap (λ (x : Rc × Sd). x.1) (some-injective (sym did' ∙ did)) in
      let (mid, ran, on, keeps) = on_sd_total J disconnect Rc.ok w sd did ready in
      let p = on_sd-Performed J c own disconnect Rc.ok w mid found on in
      let mid_distinct = deliver-IsDistinct J (reverse sd.calls) _ mid ran distinct in
      let (after, dropped, gone, same, others) =
        drop-Gone c mid p.queued.now rest p.queued.found mid_distinct
          (ap (λ l. remove l c) p.same_clientless ∙ not_clientless)
          (ap (λ l. remove l c) p.same_client ∙ removed) in
      (
        after,
        term-on Rc.ok mid finished on ∙ dropped,
        subst (λ x. Disconnected own.client_id (record w.sd { calls = [] }) x client line) same_sd
            left,
        gone.same_sd
            ∙ p.new_sd
            ∙ ap (λ (x : Rc × Sd). record x.1 { calls = [] }) (some-injective (sym p.did ∙ did)),
        ground (arith, gone.conns_eq c, ==_iff c c),
        λ d other miss there.
            (let q = delivered-Queued J w mid sd ready ran d other there in
              record {
                now = q.now;
                found = ground (arith, gone.conns_eq d, q.found);
                grown = q.grown;
              }),
        same ∙ p.same_clientless,
        others,
      )
