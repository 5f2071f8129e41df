-- ===== src/Proto/World.antt =====
-- The state that src/proto/proto_conn.c and src/proto/server.c work on: the domain, the connections
-- that exist, and the server's lists of them. A pointer to a connection is its key in `conns`, where
-- it stands from proto_conn_create to proto_conn_destroy. Going through the pointer of a connection
-- that is gone, or failing an assertion, is `none`.
pub mod Queues
use tpaf.Prelude.{
  ℕ, suc, ◌+◌, ◌-◌, ◌/◌, ◌^◌, Bool, true, false, not, ◌&&◌, Option, none, some, List, [], ◌∷◌, ◌++◌,
  if◌then◌else◌, ltb, length,
}
use tpaf.Prelude.Int.{ℤ, pos, negsuc, is_nonneg, to_u64, ◌==ℤ◌, ◌-ℤ◌}
use tpaf.Clib.Str.{Str}
use tpaf.Clib.Ftime.{ticks_per_second}
use tpaf.Util.Pmap
use tpaf.Util.Pmap.{Pmap}
use tpaf.Sd.State.{Sd}
use tpaf.Sd.State
use tpaf.Proto.Ta.{Ta}

-- What the socket is awaited for: XCM_SO_SENDABLE and XCM_SO_RECEIVABLE.
pub record Condition : Type 0 where
  pub sendable : Bool
  pub receivable : Bool

-- struct proto_conn. `remote_addr` is what xcm_remote_addr gives for its socket, and the queue is a
-- list, which Util/Pqueue/Refinement shows it to be.
pub record ProtoConn : Type 0 where
  pub remote_addr : Option Str
  pub condition : Condition
  pub established_at : ℤ
  pub client_id : ℤ
  pub sub_tas : Pmap Ta
  pub out_queue : List Str
  pub term : Bool

-- struct server, with all that is reached from it. `match_conns` has the match_cb_data that a
-- subscription was created with.
pub record World : Type 0 where
  pub sd : Sd
  pub conns : Pmap ProtoConn
  pub match_conns : ℤ → Option ℕ
  pub client_conns : List ℕ
  pub clientless_conns : List ℕ

abbrev pub W : Type 0 → Type 0
W A = World → Option (A × World)

infixl 5 ◌>>=◌ ◌>>◌
abbrev pub ◌>>=◌ : {A B : Type 0} → W A → (A → W B) → W B
◌>>=◌ m f w = elim (m w) [ none ↦ none | some (a, w') ↦ f a w' ]

abbrev pub ◌>>◌ : {B : Type 0} → W (Unit {0}) → W B → W B
m >> k = m >>= λ _. k

abbrev pub pure : {A : Type 0} → A → W A
pure a w = some (a, w)

abbrev pub lift : {A : Type 0} → Option A → W A
lift none w = none
lift (some a) w = some (a, w)

abbrev pub fault : {A : Type 0} → W A
fault w = none

abbrev pub ut_assert : Bool → W (Unit {0})
ut_assert true w = some (tt, w)
ut_assert false w = none

unfoldable pub for_each {ℓ} : {A : Type ℓ} → (A → W (Unit {0})) → List A → W (Unit {0})
for_each body [] = pure tt
for_each body (x ∷ xs) = body x >> for_each body xs

abbrev pub get_world : W World
get_world w = some (w, w)

-- The object behind a pointer to a connection, and a write to it.
abbrev pub conn : ℕ → W ProtoConn
conn c w = lift (Pmap.get w.conns c) w

unfoldable pub put_conn : ℕ → ProtoConn → W (Unit {0})
put_conn c changed w = some (tt, record w { conns = Pmap.update w.conns c changed })

unfoldable pub add_conn : ℕ → ProtoConn → W (Unit {0})
add_conn c new w = elim (Pmap.add w.conns c new) [
  | none ↦ none
  | some conns ↦ some (tt, record w { conns = conns })
]

unfoldable pub del_conn : ℕ → W (Unit {0})
del_conn c w = elim (Pmap.del w.conns c) [
  | none ↦ none
  | some conns ↦ some (tt, record w { conns = conns })
]

abbrev pub assign : (ℤ → Option ℕ) → ℤ → ℕ → ℤ → Option ℕ
assign f k c j = if j ==ℤ k then some c else f j

unfoldable pub put_match_conn : ℤ → ℕ → W (Unit {0})
put_match_conn sub_id c w = some (tt, record w { match_conns = assign w.match_conns sub_id c })

unfoldable pub has_finished_handshake : ProtoConn → Bool
has_finished_handshake own = is_nonneg own.client_id

abbrev pub max_send_batch : ℕ
max_send_batch = 64

abbrev pub soft_out_wire_limit : ℕ
soft_out_wire_limit = 128

unfoldable pub await_update : ProtoConn → ProtoConn
await_update own = record own {
  condition = record {
    sendable = not own.term && ltb 0 (length own.out_queue);
    receivable = not own.term && ltb (length own.out_queue) soft_out_wire_limit;
  };
}

unfoldable pub queue_response : ProtoConn → Str → ProtoConn
unfolding await_update
queue_response own msg = await_update (record own { out_queue = own.out_queue ++ msg ∷ [] })

unfoldable pub respond : ℕ → Str → W (Unit {0})
respond c msg = do own ← conn c; put_conn c (queue_response own msg)

-- (int64_t) of a map's key, and of a number of seconds that is a double.
unfoldable pub of_u64 : ℕ → ℤ
of_u64 k = if ltb k (2 ^ 63) then pos k else negsuc (2 ^ 64 - 1 - k)

unfoldable pub whole_seconds : ℤ → ℤ
whole_seconds (pos n) = pos (n / ticks_per_second)
whole_seconds (negsuc n) = pos 0 -ℤ pos (suc n / ticks_per_second)
