-- ===== src/Proto/Events/Reachable.antt =====
-- The states that the server of src/proto/server.c can be in: those that its events lead to from
-- server_create on.
use tpaf.Prelude.{
  ℕ, refl, ◌≡◌, sym, ◌∙◌, true, false, Option, some, List, [], ◌∷◌, arith, inl, inr, Option-cases,
  Bool-cases, ◌==◌, ==_iff,
}
use tpaf.Prelude.Int.{ℤ, pos, ltb_ℤ, ◌-ℤ◌}
use tpaf.Clib.Ftime.{seconds}
use tpaf.Clib.Str.{Str}
use tpaf.Util.Pmap
use tpaf.Proto.Json.{Json}
use tpaf.Proto.World.{World, ProtoConn, has_finished_handshake}
use tpaf.Proto.Lists.Removal.{mem}
use tpaf.Proto.Server.{
  is_expired, Received, Sent, init, accept, conn_process, clean_out, orphan_timeout,
}
use tpaf.Proto.Server.CleanOut.{AreThere, clean_out_lem}
use tpaf.Proto.Events.Frame.{client_of}
use tpaf.Proto.Events.Invariant.{IsParted, waits}
use tpaf.Proto.Events.Endings.{
  clean_out-IsParted, accept-IsParted, conn_process-IsParted, orphan_timeout-IsParted,
}

-- A connection is accepted, is served, a timer of the domain goes off, the connections are cleaned
-- out, or time passes.
pub data Step (J : Json) : World → World → Type 0 where
  accepts :
      {w w' : World} (c : ℕ) (remote_addr : Option Str)
      → accept c remote_addr w ≡ some (tt, w')
      → Step J w w'
  serves_one :
      {w w' : World} (c : ℕ) (received : Received) (results : List Sent)
      → conn_process J c received results w ≡ some (tt, w')
      → Step J w w'
  times_out :
      {w w' : World} (service_id : ℤ) → orphan_timeout J service_id w ≡ some (tt, w') → Step J w w'
  cleans_out : {w w' : World} → clean_out w ≡ some (tt, w') → Step J w w'
  passes : {w : World} (now : ℤ) → Step J w (record w { sd = record w.sd { now = now } })

pub data Reachable (J : Json) : World → Type 0 where
  start : (now : ℤ) → Reachable J (init now)
  step : {w w' : World} → Reachable J w → Step J w w' → Reachable J w'

init-IsParted : (now : ℤ) → IsParted (init now)
unfolding init mem Pmap.get Pmap.index_of tpaf.Util.Sequence.index_of
init-IsParted now = record {
  distinct = tt;
  nodup_clientless = tt;
  nodup_client = tt;
  clientless = λ c. refl;
  client = λ c. refl;
}

module _ (J : Json) where
  Step-IsParted : (w w' : World) → IsParted w → Step J w w' → IsParted w'
  Step-IsParted w w' p (accepts c addr e) = accept-IsParted c addr w w' p e
  Step-IsParted w w' p (serves_one c received results e) =
      conn_process-IsParted J c received results w w' p e
  Step-IsParted w w' p (times_out service_id e) = orphan_timeout-IsParted J service_id w w' p e
  Step-IsParted w w' p (cleans_out e) = clean_out-IsParted w w' p e
  Step-IsParted w _ p (passes now) = record {
    distinct = p.distinct;
    nodup_clientless = p.nodup_clientless;
    nodup_client = p.nodup_client;
    clientless = p.clientless;
    client = p.client;
  }

  -- In every state that the server gets into with no failed assertion on the way, whatever is
  -- received and sent and in whatever order, no connection is in one of the two lists twice, those
  -- of the one are the connections that have not finished their handshake, and those of the other
  -- are the connections that have.
  pub Reachable-IsParted : (w : World) → Reachable J w → IsParted w
  Reachable-IsParted _ (start now) = init-IsParted now
  Reachable-IsParted w' (step {w = w} r s) = Step-IsParted w w' (Reachable-IsParted w r) s

are_there :
    (w : World) (conns : List ℕ)
    → ((c : ℕ) → mem conns c ≡ true → waits (client_of w c) ≡ true)
    → AreThere w conns
unfolding mem
are_there w [] all = tt
are_there w (c ∷ conns) all = elim (Option-cases (Pmap.get w.conns c)) [
  | inl gone ↦ absurd (ground (arith, all c, ==_iff c c))
  | inr (own, found) ↦ (
    (own, found),
    are_there w conns λ d m. elim (Bool-cases (c == d)) [
      | inl hit ↦ all d (ground arith)
      | inr miss ↦ all d (ground arith)
    ],
  )
]

module _ (J : Json) where
  -- In every state that the server gets into with no failed assertion on the way, clean_out_cb
  -- fails none and finds every connection in its list, and when it is done no connection that has
  -- not finished its handshake has been there for more than the two seconds that it is given.
  pub clean_out-Reachable :
      (w : World)
      → Reachable J w
      → (w' : World) × (clean_out w ≡ some (tt, w'))
        × ((c : ℕ) (own : ProtoConn)
            → Pmap.get w'.conns c ≡ some own
            → has_finished_handshake own ≡ false
            → ltb_ℤ (seconds (pos 2)) (w.sd.now -ℤ own.established_at) ≡ false)
  unfolding has_finished_handshake is_expired
  clean_out-Reachable w r =
      let p = Reachable-IsParted J w r in
      let (w', ran, lists, conns_eq, same, matches, client) =
        clean_out_lem w p.nodup_clientless p.distinct
          (are_there w w.clientless_conns λ c m. sym (p.clientless c) ∙ m) in
      (
        w',
        ran,
        λ c own found early. elim (Option-cases (Pmap.get w.conns c)) [
          | inl gone ↦ absurd (ground (arith, conns_eq c))
          | inr (before, there) ↦ ground (arith, conns_eq c, p.clientless c)
        ],
      )
