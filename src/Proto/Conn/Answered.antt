-- ===== src/Proto/Conn/Answered.antt =====
-- A single-response request of src/proto/proto_conn.c that the domain carries out: the notifications
-- that it leads to, and then the one response.
use tpaf.Prelude.{ap, sym, some-injective, ℕ, ◌≡◌, ◌∙◌, Option, some, []}
use mathlib.Core.List.{reverse}
use tpaf.Prelude.Int.{ℤ}
use tpaf.Clib.Str.{Str}
use tpaf.Util.Pmap
use tpaf.Sd.State.{Sd}
use tpaf.Sd.State
use tpaf.Proto.Json.{Json}
use tpaf.Proto.Names.{msg_type_complete}
use tpaf.Proto.Types.{TaType, single_response}
use tpaf.Proto.Ta.{Ta, completed, failed}
use tpaf.Proto.Ta.Requests.{IsRequested}
use tpaf.Proto.Ta.Answers.{plain, failure}
use tpaf.Proto.World.{World, W, ProtoConn}
use tpaf.Proto.World.Queues.{Grown, Queued}
use tpaf.Proto.Notify.Messages.{notes}
use tpaf.Proto.Notify.Delivery.{delivered-Queued}
use tpaf.Proto.Notify.{deliver, on_sd}
use tpaf.Proto.Notify.Growth.{on_sd-Performed}
use tpaf.Proto.Notify.Safety.{IsServed, AllReady, on_sd_total}
use tpaf.Proto.Conn.{fail, complete}
use tpaf.Proto.Conn.Replies.{queued, fail_reply, complete_reply}

-- After the calls of the match callback in `sd` are carried out, each connection has got its messages
-- for them (notes), the connection `own` has become `now`, and all else is as the domain left it; the
-- result is that world with one more message in the queue of `now`, and the transaction `ta'`.
pub record IsAnswered (J : Json) (c : ℕ) (own : ProtoConn) (w : World) (sd : Sd)
    (result : Option (Ta × World)) (ta' : Ta) (text : Str) : Type 0 where
  pub mid : World
  pub now : ProtoConn
  pub delivered :
      deliver J (reverse sd.calls) (record w { sd = record sd { calls = [] } }) ≡ some (tt, mid)
  pub there : Pmap.get mid.conns c ≡ some now
  pub grown : Grown own (notes J w.match_conns c own.sub_tas (reverse sd.calls)) now
  pub told :
      (d : ℕ) (other : ProtoConn)
      → Pmap.get w.conns d ≡ some other
      → Queued d other (notes J w.match_conns d other.sub_tas (reverse sd.calls)) mid
  pub new_sd : mid.sd ≡ record sd { calls = [] }
  pub same_matches : mid.match_conns ≡ w.match_conns
  pub same_client : mid.client_conns ≡ w.client_conns
  pub same_clientless : mid.clientless_conns ≡ w.clientless_conns
  pub keeps : (sub_id : ℤ) → IsServed w sub_id → IsServed mid sub_id
  pub answered : result ≡ some (ta', queued mid c now text)

-- The response to a request of a type without response fields: `complete`, or `fail` with a reason.
pub data Reply : Type 0 where
  done : Reply
  refused : Str → Reply

abbrev pub reply_ta : Ta → Reply → Ta
reply_ta ta done = record ta { state = completed }
reply_ta ta (refused reason) = record ta { state = failed }

abbrev pub reply_text : Json → TaType → Ta → Reply → Str
reply_text J type ta done = plain J type ta.ta_id msg_type_complete
reply_text J type ta (refused reason) = failure J type ta.ta_id reason

abbrev pub send_reply : Json → ℕ → Ta → Reply → W Ta
send_reply J c ta done = complete J c ta []
send_reply J c ta (refused reason) = fail J c ta reason

pub send_reply_lem :
    (J : Json) (c : ℕ) (own : ProtoConn) (ta : Ta) (type : TaType) (w : World)
    → Pmap.get w.conns c ≡ some own
    → IsRequested J ta type
    → type.ia_type ≡ single_response
    → type.complete_fields ≡ []
    → (reply : Reply)
    → send_reply J c ta reply w
      ≡ some (reply_ta ta reply, queued w c own (reply_text J type ta reply))
send_reply_lem J c own ta type w found r s n done = complete_reply J c own ta type w found r s n
send_reply_lem J c own ta type w found r s n (refused reason) =
    fail_reply J c own ta type w found reason r

module _ (J : Json) (c : ℕ) (own : ProtoConn) (ta : Ta) (type : TaType) (w : World)
    (found : Pmap.get w.conns c ≡ some own) (r : IsRequested J ta type)
    (single : type.ia_type ≡ single_response) (bare : type.complete_fields ≡ []) where
  pub operation-IsAnswered :
      {A : Type 0} (operation : State.M A) (a : A) (sd : Sd) (reply : Reply) (handler : W Ta)
      → operation (record w.sd { calls = [] }) ≡ some (a, sd)
      → AllReady w sd.calls
      → ((w' : World) → on_sd J operation w ≡ some (a, w') → handler w ≡ send_reply J c ta reply w')
      → IsAnswered J c own w sd (handler w) (reply_ta ta reply) (reply_text J type ta reply)
  operation-IsAnswered {A = A} operation a sd reply handler did ready then =
      let (mid, ran, on, keeps) = on_sd_total J operation a w sd did ready in
      let p = on_sd-Performed J c own operation a w mid found on in
      let told = delivered-Queued J w mid sd ready ran in
      let q = told c own found in
      record {
        mid = mid;
        now = q.now;
        delivered = ran;
        there = q.found;
        grown = q.grown;
        told = told;
        new_sd =
            p.new_sd
            ∙ ap (λ (r : A × Sd). record r.1 { calls = [] }) (some-injective (sym p.did ∙ did));
        same_matches = p.same_matches;
        same_client = p.same_client;
        same_clientless = p.same_clientless;
        keeps = keeps;
        answered = then mid on ∙ send_reply_lem J c q.now ta type mid q.found r single bare reply;
      }
