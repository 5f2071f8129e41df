-- ===== src/Proto/Conn/Replies.antt =====
-- The single replies of src/proto/proto_conn.c: a `complete` or a `fail` for a transaction, put into
-- the queue of its connection.
use tpaf.Prelude.{ℕ, ◌≡◌, some, [], arith}
use tpaf.Clib.Str.{Str}
use tpaf.Util.Pmap
use tpaf.Proto.Json.{Json}
use tpaf.Proto.Names.{msg_type_complete, msg_type_accept}
use tpaf.Proto.Types.{TaType, single_response, multi_response}
use tpaf.Proto.Ta.{Ta, completed, failed, accepted, has_term}
use tpaf.Proto.Ta.Requests.{IsRequested}
use tpaf.Proto.Ta.Answers.{
  plain, failure, lookup_type-CanFail, complete_total, fail_total, accept_total,
}
use tpaf.Proto.World.{World, ProtoConn, queue_response}
use tpaf.Proto.World.Queues.{respond_lem}
use tpaf.Proto.Conn.{complete, fail, accept}

-- The world with one more message in the queue of a connection.
abbrev pub queued : World → ℕ → ProtoConn → Str → World
queued w c own msg = record w { conns = Pmap.update w.conns c (queue_response own msg) }

module _ (J : Json) (c : ℕ) (own : ProtoConn) (ta : Ta) (type : TaType) (w : World)
    (found : Pmap.get w.conns c ≡ some own) where
  pub fail_reply :
      (reason : Str)
      → IsRequested J ta type
      → fail J c ta reason w
        ≡ some (record ta { state = failed }, queued w c own (failure J type ta.ta_id reason))
  unfolding fail has_term
  fail_reply reason r = ground (
    arith,
    fail_total J ta type r.has_type reason (lookup_type-CanFail r.in_table.0 type r.in_table.1)
        (ground (arith, r.requested)),
    respond_lem c own (failure J type ta.ta_id reason) w found,
  )

  pub complete_reply :
      IsRequested J ta type
      → type.ia_type ≡ single_response
      → type.complete_fields ≡ []
      → complete J c ta [] w
        ≡ some (
          record ta { state = completed },
          queued w c own (plain J type ta.ta_id msg_type_complete),
        )
  unfolding complete
  complete_reply r s n = ground (
    arith,
    complete_total J ta type r.has_type n (ground (arith, r.requested)),
    respond_lem c own (plain J type ta.ta_id msg_type_complete) w found,
  )

  pub accept_reply :
      IsRequested J ta type
      → type.ia_type ≡ multi_response
      → accept J c ta w
        ≡ some
            (record ta { state = accepted }, queued w c own (plain J type ta.ta_id msg_type_accept))
  unfolding accept
  accept_reply r m = ground (
    arith,
    accept_total J ta type r.has_type m r.requested,
    respond_lem c own (plain J type ta.ta_id msg_type_accept) w found,
  )

  -- The `complete` of a transaction that has been accepted.
  pub complete_accepted_reply :
      ta.type ≡ some type
      → type.ia_type ≡ multi_response
      → type.complete_fields ≡ []
      → ta.state ≡ accepted
      → complete J c ta [] w
        ≡ some (
          record ta { state = completed },
          queued w c own (plain J type ta.ta_id msg_type_complete),
        )
  unfolding complete
  complete_accepted_reply t m n a = ground (
    arith,
    complete_total J ta type t n (ground arith),
    respond_lem c own (plain J type ta.ta_id msg_type_complete) w found,
  )
