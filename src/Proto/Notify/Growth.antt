-- ===== src/Proto/Notify/Growth.antt =====
-- What the match callback of src/proto/proto_conn.c does to the connections.
use tpaf.Prelude.{
  ℕ, ◌≡◌, ap, sym, subst, ◌∙◌, some, List, [], ◌∷◌, ◌++◌, arith, inl, inr, Option-cases,
}
use tpaf.Prelude.Int.{to_u64}
use mathlib.Core.List.{reverse}
use tpaf.Clib.Str.{Str}
use tpaf.Util.Pmap
use tpaf.Util.Pmap.Laws.{IsDistinct, update-IsDistinct}
use tpaf.Sd.State.{Sd, MatchCall}
use tpaf.Sd.State
use tpaf.Proto.Json.{Json}
use tpaf.Proto.Ta.{Ta}
use tpaf.Proto.Ta
use tpaf.Proto.World.{World, ProtoConn, for_each, put_conn, queue_response}
use tpaf.Proto.World.Queues.{Grown-trans, Queued, Queued_refl, put-Queued}
use tpaf.Proto.Notify.{match_args, notify_sub_match, deliver, on_sd}

module _ (J : Json) where
  -- What a call of the callback that returned has found, and left.
  pub record Notified (call : MatchCall) (w w' : World) : Type 0 where
    pub target : ℕ
    pub other : ProtoConn
    pub response : Str
    pub found : Pmap.get w.conns target ≡ some other
    pub left : w' ≡ record w { conns = Pmap.update w.conns target (queue_response other response) }

  pub notify_sub_match-Notified :
      (call : MatchCall) (w w' : World)
      → notify_sub_match J call w ≡ some (tt, w')
      → Notified call w w'
  unfolding notify_sub_match put_conn
  notify_sub_match-Notified call w w' e = elim (Option-cases (w.match_conns call.sub_id)) [
    | inl missing ↦ absurd (ground arith)
    | inr (c, at) ↦ elim (Option-cases (Pmap.get w.conns c)) [
      | inl missing ↦ absurd (ground arith)
      | inr (own, found) ↦ elim (Option-cases (Pmap.get own.sub_tas (to_u64 call.sub_id))) [
        | inl missing ↦ absurd (ground arith)
        | inr (ta, has) ↦ elim (Option-cases (match_args call.match_type call.service)) [
          | inl missing ↦ absurd (ground arith)
          | inr (args, given) ↦ elim (Option-cases (Ta.notify J ta args)) [
            | inl missing ↦ absurd (ground arith)
            | inr ((response, ta'), notified) ↦ record {
              target = c;
              other = own;
              response = response;
              found = found;
              left = ground arith;
            }
          ]
        ]
      ]
    ]
  ]

  -- The callback leaves all but the connections as it was, and no connection has lost anything.
  pub record Delivered (c : ℕ) (own : ProtoConn) (w w' : World) : Type 0 where
    pub msgs : List Str
    pub queued : Queued c own msgs w'
    pub same_sd : w'.sd ≡ w.sd
    pub same_matches : w'.match_conns ≡ w.match_conns
    pub same_client : w'.client_conns ≡ w.client_conns
    pub same_clientless : w'.clientless_conns ≡ w.clientless_conns

  notify-Delivered :
      (c : ℕ) (own : ProtoConn) (call : MatchCall) (w w' : World)
      → Pmap.get w.conns c ≡ some own
      → Notified call w w'
      → Delivered c own w w'
  notify-Delivered c own call w w' e n =
      let (msgs, q) = put-Queued c n.target own n.other n.response w e n.found in
      record {
        msgs = msgs;
        queued = subst (Queued c own msgs) (sym n.left) q;
        same_sd = ap (λ (x : World). x.sd) n.left;
        same_matches = ap (λ (x : World). x.match_conns) n.left;
        same_client = ap (λ (x : World). x.client_conns) n.left;
        same_clientless = ap (λ (x : World). x.clientless_conns) n.left;
      }

  deliver-Delivered :
      (c : ℕ) (own : ProtoConn) (calls : List MatchCall) (w w' : World)
      → Pmap.get w.conns c ≡ some own
      → deliver J calls w ≡ some (tt, w')
      → Delivered c own w w'
  unfolding deliver for_each
  deliver-Delivered c own [] w w' e h =
      let same : w ≡ w' = ground arith in
      record {
        msgs = [];
        queued = subst (Queued c own []) same (Queued_refl c own w e);
        same_sd = ap (λ (x : World). x.sd) (sym same);
        same_matches = ap (λ (x : World). x.match_conns) (sym same);
        same_client = ap (λ (x : World). x.client_conns) (sym same);
        same_clientless = ap (λ (x : World). x.clientless_conns) (sym same);
      }
  deliver-Delivered c own (call ∷ calls) w w' e h =
      elim (Option-cases (notify_sub_match J call w)) [
        | inl bad ↦ absurd (ground arith)
        | inr ((u, mid), ok) ↦
            let first =
              notify-Delivered c own call w mid e (notify_sub_match-Notified call w mid ok) in
            let rest =
              deliver-Delivered c first.queued.now calls mid w' first.queued.found (ground arith) in
            record {
              msgs = first.msgs ++ rest.msgs;
              queued = record {
                now = rest.queued.now;
                found = rest.queued.found;
                grown =
                    Grown-trans own first.queued.now rest.queued.now first.msgs rest.msgs
                      first.queued.grown rest.queued.grown;
              };
              same_sd = rest.same_sd ∙ first.same_sd;
              same_matches = rest.same_matches ∙ first.same_matches;
              same_client = rest.same_client ∙ first.same_client;
              same_clientless = rest.same_clientless ∙ first.same_clientless;
            }
      ]

  pub deliver-IsDistinct :
      (calls : List MatchCall) (w w' : World)
      → deliver J calls w ≡ some (tt, w')
      → IsDistinct w.conns
      → IsDistinct w'.conns
  unfolding deliver for_each
  deliver-IsDistinct [] w w' h d =
      let same : w ≡ w' = ground arith in subst (λ (x : World). IsDistinct x.conns) same d
  deliver-IsDistinct (call ∷ calls) w w' h d = elim (Option-cases (notify_sub_match J call w)) [
    | inl bad ↦ absurd (ground arith)
    | inr ((u, mid), ok) ↦
        let n = notify_sub_match-Notified call w mid ok in
        deliver-IsDistinct calls mid w' (ground arith) (
          subst (λ (x : World). IsDistinct x.conns) (sym n.left)
            (update-IsDistinct w.conns n.target (queue_response n.other n.response) d))
  ]

  -- An operation of the domain that returned: its own result and new domain, and the messages that
  -- the connection has got on the way.
  pub record Performed {A : Type 0} (c : ℕ) (own : ProtoConn) (operation : State.M A) (a : A)
      (w w' : World) : Type 0 where
    pub sd : Sd
    pub did : operation (record w.sd { calls = [] }) ≡ some (a, sd)
    pub new_sd : w'.sd ≡ record sd { calls = [] }
    pub msgs : List Str
    pub queued : Queued c own msgs w'
    pub same_matches : w'.match_conns ≡ w.match_conns
    pub same_client : w'.client_conns ≡ w.client_conns
    pub same_clientless : w'.clientless_conns ≡ w.clientless_conns

  pub on_sd-Performed :
      {A : Type 0} (c : ℕ) (own : ProtoConn) (operation : State.M A) (a : A) (w w' : World)
      → Pmap.get w.conns c ≡ some own
      → on_sd J operation w ≡ some (a, w')
      → Performed c own operation a w w'
  unfolding on_sd
  on_sd-Performed c own operation a w w' e h =
      elim (Option-cases (operation (record w.sd { calls = [] }))) [
        | inl bad ↦ absurd (ground arith)
        | inr ((b, sd), did) ↦
            let start = record w { sd = record sd { calls = [] } } in
            elim (Option-cases (deliver J (reverse sd.calls) start)) [
              | inl bad ↦ absurd (ground arith)
              | inr ((u, mid), ok) ↦
                  let same : mid ≡ w' = ground arith in
                  let same_a : b ≡ a = ground arith in
                  let d = deliver-Delivered c own (reverse sd.calls) start mid e ok in
                  record {
                    sd = sd;
                    did = rw did (ap (λ x. some (x, sd)) same_a);
                    new_sd = ap (λ (x : World). x.sd) (sym same) ∙ d.same_sd;
                    msgs = d.msgs;
                    queued = subst (Queued c own d.msgs) same d.queued;
                    same_matches = ap (λ (x : World). x.match_conns) (sym same) ∙ d.same_matches;
                    same_client = ap (λ (x : World). x.client_conns) (sym same) ∙ d.same_client;
                    same_clientless =
                        ap (λ (x : World). x.clientless_conns) (sym same) ∙ d.same_clientless;
                  }
            ]
      ]
