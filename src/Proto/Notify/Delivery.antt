-- ===== src/Proto/Notify/Delivery.antt =====
-- What every connection has got when calls of the match callback of src/proto/proto_conn.c are carried
-- out.
use tpaf.Prelude.{
  some-injective, ℕ, ◌≡◌, refl, sym, ap, subst, ◌∙◌, some, List, [], ◌∷◌, arith, inl, inr,
  Bool-cases, ◌==◌, ==_iff,
}
use tpaf.Prelude.Int.{to_u64}
use mathlib.Core.List.{reverse}
use tpaf.Clib.Str.{Str}
use tpaf.Util.Pmap
use tpaf.Util.Pmap.{Pmap}
use tpaf.Util.Pmap.Laws.{get-update}
use tpaf.Sd.State.{Sd, MatchCall}
use tpaf.Proto.Json.{Json}
use tpaf.Proto.World.{World, ProtoConn, for_each, queue_response, await_update}
use tpaf.Proto.World.Queues.{Grown, Grown-trans, Queued, Queued_refl, queue_response-Grown}
use tpaf.Proto.Notify.{deliver}
use tpaf.Proto.Notify.Messages.{notes, match_text}
use tpaf.Proto.Notify.Safety.{
  AllReady, queue-AllReady, notify_sub_match_total, sd-AllReady, AllReady-reverse_aux,
}

queue_response-tas : (own : ProtoConn) (msg : Str) → (queue_response own msg).sub_tas ≡ own.sub_tas
unfolding queue_response await_update
queue_response-tas own msg = refl

module _ (J : Json) where
  -- Each connection that is there gets one message for each call of a subscription of its own, and
  -- otherwise changes in what its socket is awaited for alone.
  pub deliver-Queued :
      (calls : List MatchCall) (w w' : World)
      → AllReady w calls
      → deliver J calls w ≡ some (tt, w')
      → (d : ℕ) (other : ProtoConn) → Pmap.get w.conns d ≡ some other
      → Queued d other (notes J w.match_conns d other.sub_tas calls) w'
  unfolding deliver for_each
  deliver-Queued [] w w' a e d other found =
      subst (Queued d other []) (ground arith) (Queued_refl d other w found)
  deliver-Queued (call ∷ calls) w w' (s, t, a) e d other found =
      let response = match_text J s.sub_ta.ta_id call.match_type call.service in
      let changed = queue_response s.own response in
      let w₁ = record w { conns = Pmap.update w.conns s.target changed } in
      let told = notify_sub_match_total J call w s t in
      let ready = queue-AllReady w s.target s.own response calls s.found a in
      let rest : deliver J calls w₁ ≡ some (tt, w') = ground arith in
      let read = get-update w.conns s.target d changed s.own s.found in
      elim (Bool-cases (s.target == d)) [
        | inl hit ↦
            let same : s.own ≡ other =
              some-injective
                (sym s.found ∙ ap (Pmap.get w.conns) ((==_iff s.target d).0 hit) ∙ found) in
            let has : Pmap.get other.sub_tas (to_u64 call.sub_id) ≡ some s.sub_ta =
              subst (λ (o : ProtoConn). Pmap.get o.sub_tas (to_u64 call.sub_id) ≡ some s.sub_ta)
                same s.has_ta in
            let head : notes J w.match_conns d other.sub_tas (call ∷ calls)
                ≡ response ∷ notes J w.match_conns d other.sub_tas calls =
              ground (arith, s.called_with, hit, has) in
            let q = deliver-Queued calls w₁ w' ready rest d changed (ground (arith, read)) in
            let tas : changed.sub_tas ≡ other.sub_tas =
              queue_response-tas s.own response ∙ ap (λ (o : ProtoConn). o.sub_tas) same in
            let msgs : response ∷ notes J w.match_conns d changed.sub_tas calls
                ≡ notes J w.match_conns d other.sub_tas (call ∷ calls) =
              ap (λ x. response ∷ notes J w.match_conns d x calls) tas ∙ sym head in
            let grown =
              Grown-trans s.own changed q.now (response ∷ []) _
                (queue_response-Grown s.own response) q.grown in
            record {
              now = q.now;
              found = q.found;
              grown =
                  subst (λ o. Grown o (notes J w.match_conns d other.sub_tas (call ∷ calls)) q.now)
                    same (subst (λ m. Grown s.own m q.now) msgs grown);
            }
        | inr miss ↦
            let none_here : notes J w.match_conns d other.sub_tas (call ∷ calls)
                ≡ notes J w.match_conns d other.sub_tas calls =
              ground (arith, s.called_with, miss) in
            subst (λ msgs. Queued d other msgs w') (sym none_here)
              (deliver-Queued calls w₁ w' ready rest d other (ground (arith, read)))
      ]

  -- So it is behind an operation of the domain, whose calls are kept with the last one first.
  pub delivered-Queued :
      (w mid : World) (sd : Sd)
      → AllReady w sd.calls
      → deliver J (reverse sd.calls) (record w { sd = record sd { calls = [] } }) ≡ some (tt, mid)
      → (d : ℕ) (other : ProtoConn) → Pmap.get w.conns d ≡ some other
      → Queued d other (notes J w.match_conns d other.sub_tas (reverse sd.calls)) mid
  delivered-Queued w mid sd ready ran =
      deliver-Queued (reverse sd.calls) (record w { sd = record sd { calls = [] } }) mid
        (sd-AllReady J w _ (reverse sd.calls) (AllReady-reverse_aux w sd.calls [] ready tt)) ran
