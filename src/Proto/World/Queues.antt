-- ===== src/Proto/World/Queues.antt =====
-- What the operations of src/proto/proto_conn.c do to the queue of a connection that is there.
use tpaf.Prelude.{
  some-injective, ℕ, ◌≡◌, refl, sym, ap, subst, ◌∙◌, some, List, [], ◌∷◌, ◌++◌, arith, inl, inr,
  Bool-cases, append_assoc, append-nil, ◌==◌, ==_iff,
}
use tpaf.Clib.Str.{Str}
use tpaf.Util.Pmap
use tpaf.Util.Pmap.Laws.{get-update}
use tpaf.Proto.World.{World, ProtoConn, put_conn, queue_response, await_update, respond}

-- From `own` on, the connection has got these messages into its queue, and has otherwise changed in
-- what its socket is awaited for alone.
pub record Grown (own : ProtoConn) (msgs : List Str) (now : ProtoConn) : Type 0 where
  pub queue : now.out_queue ≡ own.out_queue ++ msgs
  pub same_addr : now.remote_addr ≡ own.remote_addr
  pub same_established : now.established_at ≡ own.established_at
  pub same_id : now.client_id ≡ own.client_id
  pub same_tas : now.sub_tas ≡ own.sub_tas
  pub same_term : now.term ≡ own.term

pub Grown-refl : (own : ProtoConn) → Grown own [] own
Grown-refl own = record {
  queue = sym (append-nil own.out_queue);
  same_addr = refl;
  same_established = refl;
  same_id = refl;
  same_tas = refl;
  same_term = refl;
}

pub Grown-trans :
    (a b c : ProtoConn) (m n : List Str) → Grown a m b → Grown b n c → Grown a (m ++ n) c
Grown-trans a b c m n g h = record {
  queue = ground (arith, g.queue, h.queue, append_assoc a.out_queue m n);
  same_addr = h.same_addr ∙ g.same_addr;
  same_established = h.same_established ∙ g.same_established;
  same_id = h.same_id ∙ g.same_id;
  same_tas = h.same_tas ∙ g.same_tas;
  same_term = h.same_term ∙ g.same_term;
}

pub queue_response-Grown :
    (own : ProtoConn) (msg : Str) → Grown own (msg ∷ []) (queue_response own msg)
unfolding queue_response await_update
queue_response-Grown own msg = record {
  queue = refl;
  same_addr = refl;
  same_established = refl;
  same_id = refl;
  same_tas = refl;
  same_term = refl;
}

-- The connection is there, and has grown by the messages.
pub record Queued (c : ℕ) (own : ProtoConn) (msgs : List Str) (w : World) : Type 0 where
  pub now : ProtoConn
  pub found : Pmap.get w.conns c ≡ some now
  pub grown : Grown own msgs now

pub Queued_refl :
    (c : ℕ) (own : ProtoConn) (w : World) → Pmap.get w.conns c ≡ some own → Queued c own [] w
Queued_refl c own w e = record { now = own; found = e; grown = Grown-refl own }

-- A response that is put into the queue of a connection, this one or another.
pub put-Queued :
    (c d : ℕ) (own other : ProtoConn) (msg : Str) (w : World)
    → Pmap.get w.conns c ≡ some own
    → Pmap.get w.conns d ≡ some other
    → (msgs : List Str) × Queued c own msgs
        (record w { conns = Pmap.update w.conns d (queue_response other msg) })
put-Queued c d own other msg w e f = elim (Bool-cases (d == c)) [
  | inl hit ↦
      let same : other ≡ own =
        some-injective (sym f ∙ ap (Pmap.get w.conns) ((==_iff d c).0 hit) ∙ e) in
      (
        msg ∷ [],
        record {
          now = queue_response other msg;
          found = ground (arith, get-update w.conns d c (queue_response other msg) other);
          grown =
              subst (λ o. Grown o (msg ∷ []) (queue_response other msg)) same
                (queue_response-Grown other msg);
        },
      )
  | inr miss ↦ (
    [],
    record {
      now = own;
      found = ground (arith, get-update w.conns d c (queue_response other msg) other);
      grown = Grown-refl own;
    },
  )
]

pub respond_lem :
    (c : ℕ) (own : ProtoConn) (msg : Str) (w : World)
    → Pmap.get w.conns c ≡ some own
    → respond c msg w
      ≡ some (tt, record w { conns = Pmap.update w.conns c (queue_response own msg) })
unfolding respond put_conn
respond_lem c own msg w e = ground arith
