-- ===== src/Proto/Conn/Publishing.antt =====
-- src/proto/proto_conn.c, handle_publish and handle_unpublish: the one response to the request, behind
-- the notifications that it leads to.
use tpaf.Prelude.{ℕ, ◌≡◌, refl, sym, subst, ◌∙◌, some-injective, true, get_elem?, some, [], arith}
use tpaf.Prelude.Int.{ℤ, is_nonneg}
use tpaf.Clib.Str.{Str}
use tpaf.Util.Pmap
use tpaf.Sd.Props.{Props}
use tpaf.Sd.State.{Sd, Client}
use tpaf.Sd.Conn.{Conn}
use tpaf.Sd.Client.{Rc}
use tpaf.Sd.Server
use tpaf.Sd.Orphans.Notify.{AllTell, calls_of}
use tpaf.Sd.Server.Addition.{IsNew, Added, first, publish-new}
use tpaf.Sd.Server.Renewal.{published}
use tpaf.Proto.Json.{Json}
use tpaf.Proto.Names.{
  fail_reason_old_generation, fail_reason_same_generation_but_different,
  fail_reason_non_existent_service_id, field_generation, field_ttl,
}
use tpaf.Proto.Types.{FieldType, publish_ta, unpublish_ta}
use tpaf.Proto.Ta.{Ta, get_req_field_uint63_value, get_req_field_props_value}
use tpaf.Proto.Ta.Requests.{IsRequested, uint63_value}
use tpaf.Proto.World.{World, ProtoConn, has_finished_handshake}
use tpaf.Proto.Notify.Safety.{AllReady, AllServed, calls_of-AllReady, IsPublic, IsPublic-CanTell}
use tpaf.Proto.Conn.{handle_publish, handle_unpublish}
use tpaf.Proto.Conn.Answered.{
  IsAnswered, Reply, done, refused, reply_ta, reply_text, operation-IsAnswered,
}

-- The response that a return code of sd_publish and of sd_unpublish leads to.
pub data PublishReply : Rc → Reply → Type 0 where
  accepted : PublishReply Rc.ok done
  different :
      PublishReply Rc.service_same_generation_but_different_data
        (refused fail_reason_same_generation_but_different)
  old : PublishReply Rc.newer_service_generation_exists (refused fail_reason_old_generation)

pub data UnpublishReply : Rc → Reply → Type 0 where
  removed : UnpublishReply Rc.ok done
  unknown : UnpublishReply Rc.no_such_service (refused fail_reason_non_existent_service_id)

module _ (J : Json) (c : ℕ) (own : ProtoConn) (ta : Ta) (w : World)
    (found : Pmap.get w.conns c ≡ some own) where
  -- A publish that the domain carries out or refuses, with calls of the match callback whose
  -- subscriptions are served: each connection gets the messages for the calls of its subscriptions, in
  -- their order (notes), and behind those that the publisher itself gets comes the one response,
  -- `complete` or `fail` with the reason for the return code. The transaction has then ended.
  pub handle_publish-IsAnswered :
      (service_id generation ttl : ℤ) (props : Props) (rc : Rc) (sd : Sd) (reply : Reply)
      → IsRequested J ta publish_ta
      → get_req_field_uint63_value ta 0 ≡ some service_id
      → get_req_field_uint63_value ta 1 ≡ some generation
      → get_req_field_props_value ta 2 ≡ some props
      → get_req_field_uint63_value ta 3 ≡ some ttl
      → PublishReply rc reply
      → Server.publish own.client_id service_id generation props ttl (record w.sd { calls = [] })
        ≡ some (rc, sd)
      → AllReady w sd.calls
      → IsAnswered J c own w sd
          (handle_publish J c ta w)
          (reply_ta ta reply)
          (reply_text J publish_ta ta reply)
  unfolding handle_publish
  handle_publish-IsAnswered service_id generation ttl props _ sd _ r h₀ h₁ h₂ h₃ accepted did
        ready =
      operation-IsAnswered J c own ta publish_ta w found r refl refl
        (Server.publish own.client_id service_id generation props ttl) _ sd done
        (handle_publish J c ta) did ready λ w' on. ground arith
  handle_publish-IsAnswered service_id generation ttl props _ sd _ r h₀ h₁ h₂ h₃ different did
        ready =
      operation-IsAnswered J c own ta publish_ta w found r refl refl
        (Server.publish own.client_id service_id generation props ttl) _ sd
        (refused fail_reason_same_generation_but_different) (handle_publish J c ta) did ready
        λ w' on. ground arith
  handle_publish-IsAnswered service_id generation ttl props _ sd _ r h₀ h₁ h₂ h₃ old did ready =
      operation-IsAnswered J c own ta publish_ta w found r refl refl
        (Server.publish own.client_id service_id generation props ttl) _ sd
        (refused fail_reason_old_generation) (handle_publish J c ta) did ready λ w' on. ground arith

  -- So it is with an unpublish.
  pub handle_unpublish-IsAnswered :
      (service_id : ℤ) (rc : Rc) (sd : Sd) (reply : Reply)
      → IsRequested J ta unpublish_ta
      → get_req_field_uint63_value ta 0 ≡ some service_id
      → UnpublishReply rc reply
      → Server.unpublish own.client_id service_id (record w.sd { calls = [] }) ≡ some (rc, sd)
      → AllReady w sd.calls
      → IsAnswered J c own w sd
          (handle_unpublish J c ta w)
          (reply_ta ta reply)
          (reply_text J unpublish_ta ta reply)
  unfolding handle_unpublish
  handle_unpublish-IsAnswered service_id _ sd _ r h₀ removed did ready =
      operation-IsAnswered J c own ta unpublish_ta w found r refl refl
        (Server.unpublish own.client_id service_id) _ sd done (handle_unpublish J c ta) did ready
        λ w' on. ground arith
  handle_unpublish-IsAnswered service_id _ sd _ r h₀ unknown did ready =
      operation-IsAnswered J c own ta unpublish_ta w found r refl refl
        (Server.unpublish own.client_id service_id) _ sd
        (refused fail_reason_non_existent_service_id) (handle_unpublish J c ta) did ready
        λ w' on. ground arith

module _ (J : Json) (c : ℕ) (own : ProtoConn) (ta : Ta) (w : World)
    (found : Pmap.get w.conns c ≡ some own) where
  uint63_nonneg :
      (i : ℕ) (name : Str) (z : ℤ)
      → IsRequested J ta publish_ta
      → get_elem? publish_ta.req_fields i ≡ some (record { name = name; type = FieldType.uint63 })
      → get_req_field_uint63_value ta i ≡ some z
      → is_nonneg z ≡ true
  uint63_nonneg i name z r at got =
      let (y, got', nonneg) = uint63_value J ta publish_ta i name r at in
      subst (λ x. is_nonneg x ≡ true) (some-injective (sym got' ∙ got)) nonneg

  -- Publishing a new service, from the request to the last message: a client that is connected, and
  -- may publish under the id (IsNew), gets the service into the domain with all that it sent. Every
  -- subscription that matches it is notified (calls_of): the connection that holds the subscription
  -- gets one message in the subscription's transaction, with the service and its properties (notes,
  -- match_text), and no connection gets any other, but for the publisher's `complete` at the end. This
  -- holds where the subscriptions of the domain are served and their filters can be matched against
  -- the service.
  pub handle_publish-new :
      (service_id generation ttl : ℤ) (props : Props) (client : Client) (conn : Conn)
      → IsRequested J ta publish_ta
      → get_req_field_uint63_value ta 0 ≡ some service_id
      → get_req_field_uint63_value ta 1 ≡ some generation
      → get_req_field_props_value ta 2 ≡ some props
      → get_req_field_uint63_value ta 3 ≡ some ttl
      → has_finished_handshake own ≡ true
      → IsNew own.client_id service_id (record w.sd { calls = [] }) client conn
      → (tell : AllTell
          (first service_id (published own.client_id generation props ttl))
          w.sd.db.subs)
      → AllServed w w.sd.db.subs
      → (sd : Sd) × Added own.client_id service_id
          (record w.sd { calls = [] })
          sd
          client
          conn
          (first service_id (published own.client_id generation props ttl))
        × (sd.calls ≡ calls_of tell [])
        × IsAnswered J c own w sd
            (handle_publish J c ta w)
            (reply_ta ta done)
            (reply_text J publish_ta ta done)
  unfolding has_finished_handshake
  handle_publish-new service_id generation ttl props client conn r h₀ h₁ h₂ h₃ finished new tell
        served =
      let g_nonneg = uint63_nonneg 1 field_generation generation r refl h₁ in
      let t_nonneg = uint63_nonneg 3 field_ttl ttl r refl h₃ in
      let (sd, did, calls, added) =
        publish-new own.client_id service_id generation ttl props (record w.sd { calls = [] })
          client conn new g_nonneg t_nonneg finished tell in
      let public : IsPublic (first service_id (published own.client_id generation props ttl))
          (published own.client_id generation props ttl) =
        record {
          has_current = refl;
          id_nonneg = new.id_nonneg;
          generation_nonneg = g_nonneg;
          ttl_nonneg = t_nonneg;
          client_nonneg = finished;
        } in
      let ready =
        calls_of-AllReady w _ w.sd.db.subs tell [] (λ m. IsPublic-CanTell m _ _ public) served tt in
      (
        sd,
        added,
        calls,
        handle_publish-IsAnswered J c own ta w found service_id generation ttl props Rc.ok sd done r
            h₀ h₁ h₂ h₃ accepted did (subst (AllReady w) (sym calls) ready),
      )
