-- ===== src/Proto/Conn/Unsubscribing.antt =====
-- src/proto/proto_conn.c, handle_unsubscribe: the two transactions that end with a subscription.
use tpaf.Prelude.{
  ℕ, ◌≡◌, refl, sym, subst, ◌∙◌, some-injective, true, false, none, some, [], ◌∷◌, ◌++◌, arith,
  ◌==◌, if◌then◌else◌, append_assoc,
}
use tpaf.Prelude.Int.{ℤ, is_nonneg, to_u64}
use tpaf.Util.Pmap
use tpaf.Util.Pmap.{Pmap}
use tpaf.Util.Pmap.Laws.{IsDistinct, get-update, get-del}
use tpaf.Sd.Conn.{Conn}
use tpaf.Sd.Sub.{Sub}
use tpaf.Sd.State.{Sd, Client, get_client, get_sub}
use tpaf.Sd.Client.{Rc}
use tpaf.Sd.Server
use tpaf.Sd.Server.Subscriptions.{SubsOnly, unsubscribe_lem}
use tpaf.Proto.Json.{Json}
use tpaf.Proto.Names.{msg_type_complete, field_subscription_id}
use tpaf.Proto.Types.{subscribe_ta, unsubscribe_ta}
use tpaf.Proto.Ta.{Ta, accepted, completed, get_req_field_uint63_value}
use tpaf.Proto.Ta.Requests.{IsRequested, uint63_value}
use tpaf.Proto.Ta.Answers.{plain, complete_total}
use tpaf.Proto.World.{World, ProtoConn, put_conn, queue_response}
use tpaf.Proto.World.Queues.{respond_lem}
use tpaf.Proto.Notify.Quiet.{on_sd_quiet}
use tpaf.Proto.Conn.{handle_unsubscribe, complete_sub}

-- A subscription of the connection that ends: the connection has lost its transaction, and its queue
-- has got the `complete` of the request and then that of the subscription; the other connections are
-- as they were.
pub record Unsubscribed (J : Json) (c : ℕ) (own : ProtoConn) (sub_id : ℤ) (ta sub_ta : Ta)
    (w after : World) : Type 0 where
  pub now : ProtoConn
  pub there : Pmap.get after.conns c ≡ some now
  pub queue :
      now.out_queue
      ≡ own.out_queue
        ++ plain J unsubscribe_ta ta.ta_id msg_type_complete
          ∷ plain J subscribe_ta sub_ta.ta_id msg_type_complete
          ∷ []
  pub tas :
      (k : ℕ)
      → Pmap.get now.sub_tas k ≡ (if to_u64 sub_id == k then none else Pmap.get own.sub_tas k)
  pub others : (d : ℕ) → (c == d) ≡ false → Pmap.get after.conns d ≡ Pmap.get w.conns d

module _ (J : Json) (c : ℕ) (own : ProtoConn) (ta sub_ta : Ta) (sub_id : ℤ)
    (r : IsRequested J ta unsubscribe_ta)
    (has_ta : Pmap.get own.sub_tas (to_u64 sub_id) ≡ some sub_ta)
    (has_type : sub_ta.type ≡ some subscribe_ta) (is_accepted : sub_ta.state ≡ accepted)
    (distinct : IsDistinct own.sub_tas) where
  complete_sub-Unsubscribed :
      (w : World)
      → Pmap.get w.conns c ≡ some own
      → (after : World) × (complete_sub J c sub_id ta w
          ≡ some (record ta { state = completed }, after))
        × (after.sd ≡ w.sd)
        × Unsubscribed J c own sub_id ta sub_ta w after
  unfolding complete_sub put_conn queue_response tpaf.Proto.World.await_update
  complete_sub-Unsubscribed w found =
      let (sub_tas, deleted, read) = get-del own.sub_tas (to_u64 sub_id) sub_ta distinct has_ta in
      let text = plain J unsubscribe_ta ta.ta_id msg_type_complete in
      let sub_text = plain J subscribe_ta sub_ta.ta_id msg_type_complete in
      let own₁ = record own { sub_tas = sub_tas } in
      let conns₁ = Pmap.update w.conns c own₁ in
      let own₂ = queue_response own₁ text in
      let conns₂ = Pmap.update conns₁ c own₂ in
      let own₃ = queue_response own₂ sub_text in
      let conns₃ = Pmap.update conns₂ c own₃ in
      let there₁ : Pmap.get conns₁ c ≡ some own₁ =
        ground (arith, get-update w.conns c c own₁ own found) in
      let there₂ : Pmap.get conns₂ c ≡ some own₂ =
        ground (arith, get-update conns₁ c c own₂ own₁ there₁) in
      let there₃ : Pmap.get conns₃ c ≡ some own₃ =
        ground (arith, get-update conns₂ c c own₃ own₂ there₂) in
      let ended = complete_total J ta unsubscribe_ta r.has_type refl (rw r.requested refl) in
      let sub_ended = complete_total J sub_ta subscribe_ta has_type refl (rw is_accepted refl) in
      (
        record w { conns = conns₃ },
        ground (
          arith,
          ended,
          sub_ended,
          respond_lem c own₁ text (record w { conns = conns₁ }) there₁,
          respond_lem c own₂ sub_text (record w { conns = conns₂ }) there₂,
        ),
        refl,
        record {
          now = own₃;
          there = there₃;
          queue = append_assoc own.out_queue (text ∷ []) (sub_text ∷ []);
          tas = read;
          others = λ d miss. ground (
            arith,
            get-update conns₂ c d own₃ own₂ there₂,
            get-update conns₁ c d own₂ own₁ there₁,
            get-update w.conns c d own₁ own found,
          );
        },
      )

  -- An unsubscribe of a subscription that the connection of the client holds: it is taken out of the
  -- domain, and each of the two transactions ends with a `complete`, that of the request first.
  pub handle_unsubscribe-own :
      (w : World) (held_id : ℤ) (client : Client) (conn : Conn) (sub : Sub)
      → Pmap.get w.conns c ≡ some own
      → get_req_field_uint63_value ta 0 ≡ some sub_id
      → get_client own.client_id w.sd ≡ some client
      → client.active_conn ≡ some conn
      → IsDistinct w.sd.db.subs
      → IsDistinct conn.subs
      → get_sub sub_id w.sd ≡ some sub
      → Pmap.get conn.subs (to_u64 sub_id) ≡ some held_id
      → (sd : Sd) × (held : Pmap ℤ) × (after : World) × (handle_unsubscribe J c ta w
          ≡ some (record ta { state = completed }, after))
        × (after.sd ≡ record sd { calls = [] })
        × (get_sub sub_id sd ≡ none)
        × SubsOnly own.client_id sub_id (record w.sd { calls = [] }) sd client conn held
        × Unsubscribed J c own sub_id ta sub_ta w after
  unfolding handle_unsubscribe
  handle_unsubscribe-own w held_id client conn sub found h₀ hc ha ds dc hs hh =
      let (z, got, nonneg') = uint63_value J ta unsubscribe_ta 0 field_subscription_id r refl in
      let nonneg : is_nonneg sub_id ≡ true =
        subst (λ x. is_nonneg x ≡ true) (some-injective (sym got ∙ h₀)) nonneg' in
      let (sd, held, removed, gone, _, only) =
        unsubscribe_lem own.client_id sub_id held_id (record w.sd { calls = [] }) client conn sub hc
          ha nonneg ds dc hs hh in
      let on =
        on_sd_quiet J (Server.unsubscribe own.client_id sub_id) Rc.ok w sd removed only.calls_eq in
      let w₁ = record w { sd = record sd { calls = [] } } in
      let (after, ran, same_sd, u) = complete_sub-Unsubscribed w₁ found in
      (
        sd,
        held,
        after,
        ground (arith, on, ran),
        same_sd,
        gone,
        only,
        record { now = u.now; there = u.there; queue = u.queue; tas = u.tas; others = u.others },
      )
