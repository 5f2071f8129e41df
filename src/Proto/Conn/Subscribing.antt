-- ===== src/Proto/Conn/Subscribing.antt =====
-- src/proto/proto_conn.c, handle_subscribe: a new subscription is served from before its first
-- notification on.
use tpaf.Prelude.{ℕ, map, ◌==◌, ◌≡◌, ◌≢◌, false, Option, some, List, [], ◌∷◌, ◌++◌}
use tpaf.Prelude.Int.{ℤ, to_u64}
use tpaf.Clib.Str.{Str}
use tpaf.Util.Pmap
use tpaf.Util.Pmap.{Pmap}
use tpaf.Sd.Conn
use tpaf.Sd.Conn.{Conn}
use tpaf.Sd.Sub
use tpaf.Sd.Filter.{Filter}
use tpaf.Sd.State.{Sd, Client, MatchCall, get_sub}
use tpaf.Sd.Server
use tpaf.Proto.Json.{Json}
use tpaf.Proto.Names.{msg_type_accept}
use tpaf.Proto.Types.{subscribe_ta}
use tpaf.Proto.Ta.{Ta, accepted}
use tpaf.Proto.Ta.Answers.{plain}
use tpaf.Proto.World.{World, ProtoConn}
use tpaf.Proto.Notify.Safety.{IsServed}
use tpaf.Proto.Notify.Messages.{match_text}
use tpaf.Proto.World.Queues.{Queued}
use tpaf.Util.Pmap.{Entry}
use tpaf.Sd.Sub.{Sub}
use tpaf.Sd.Service.{Service}
use mathlib.Core.List.{reverse}

-- What install_sub leaves: the subscription is served, by this connection, whose queue has got the
-- `accept`; so are all that were served before.
record Installed (J : Json) (c : ℕ) (own : ProtoConn) (sub_id : ℤ) (ta : Ta) (w w' : World)
    : Type 0 where
  now : ProtoConn
  there : Pmap.get w'.conns c ≡ some now
  queue : now.out_queue ≡ own.out_queue ++ plain J subscribe_ta ta.ta_id msg_type_accept ∷ []
  same_id : now.client_id ≡ own.client_id
  same_sd : w'.sd ≡ w.sd
  called_with : w'.match_conns sub_id ≡ some c
  has_ta : Pmap.get now.sub_tas (to_u64 sub_id) ≡ some (record ta { state = accepted })
  rest : (d : ℕ) → (c == d) ≡ false → Pmap.get w'.conns d ≡ Pmap.get w.conns d
  served : IsServed w' sub_id
  others : (j : ℤ) → to_u64 sub_id ≢ to_u64 j → IsServed w j → IsServed w' j

-- Calls for one subscription.
abbrev AllOf : ℤ → List MatchCall → Type 0
AllOf sub_id [] = Unit {0}
AllOf sub_id (call ∷ calls) = (call.sub_id ≡ sub_id) × AllOf sub_id calls

-- The texts of the notifications of one subscription, which has this transaction id.
abbrev pub texts : Json → ℤ → List MatchCall → List Str
texts J ta_id calls = map (λ call. match_text J ta_id call.match_type call.service) calls

-- A subscription that is made: the `accept` comes first in the queue of the connection, then the
-- notifications for the calls, the last of which is the first of the list; the other connections get
-- no message, and the domain has the subscription.
pub record Subscribed (J : Json) (c : ℕ) (own : ProtoConn) (sub : Sub) (ta : Ta) (w : World)
    (calls : List MatchCall) (result : Option (Ta × World)) : Type 0 where
  pub after : World
  pub returned : result ≡ some (record ta { state = accepted }, after)
  pub stored : get_sub sub.sub_id after.sd ≡ some sub
  pub now : ProtoConn
  pub there : Pmap.get after.conns c ≡ some now
  pub queue :
      now.out_queue
      ≡ own.out_queue
        ++ plain J subscribe_ta ta.ta_id msg_type_accept ∷ texts J ta.ta_id (reverse calls)
  pub rest :
      (d : ℕ) (other : ProtoConn)
      → (c == d) ≡ false
      → Pmap.get w.conns d ≡ some other
      → Queued d other [] after
  pub served : IsServed after sub.sub_id
  pub others : (j : ℤ) → to_u64 sub.sub_id ≢ to_u64 j → IsServed w j → IsServed after j
