-- ===== src/Proto/Events/Handlers.antt =====
-- The handlers of src/proto/proto_conn.c behind the test for the handshake: none of them touches the
-- lists of connections or the clients of the connections.
use tpaf.Prelude.{
  ℕ, ◌≡◌, refl, sym, subst, Option, none, some, List, [], ◌∷◌, arith, inl, inr, Option-cases, ap,
  some-injective,
}
use tpaf.Prelude.Int.{ℤ, to_u64}
use mathlib.Core.List.{reverse}
use tpaf.Clib.Str.{Str}
use tpaf.Util.Pmap
use tpaf.Util.Pmap.{Pmap, Entry}
use tpaf.Sd.State.{Sd, MatchCall, Client}
use tpaf.Sd.State
use tpaf.Sd.Filter.{Filter}
use tpaf.Sd.Service.{Service}
use tpaf.Sd.Server
use tpaf.Proto.Json.{Json}
use tpaf.Proto.Names.{
  fail_reason_subscription_id_exists, fail_reason_invalid_filter_syntax,
  fail_reason_non_existent_subscription_id, fail_reason_permission_denied,
  fail_reason_same_generation_but_different, fail_reason_old_generation,
  fail_reason_non_existent_service_id, fail_reason_no_hello, version,
}
use tpaf.Proto.Encoding.{uint63}
use tpaf.Proto.Ta
use tpaf.Proto.Ta.{Ta}
use tpaf.Proto.World.{
  World, ProtoConn, W, ◌>>=◌, ◌>>◌, pure, for_each, put_conn, queue_response, await_update, respond,
  put_match_conn,
}
use tpaf.Proto.Notify.{notify_sub_match, deliver, on_sd}
use tpaf.Proto.Notify.Growth.{notify_sub_match-Notified}
use tpaf.Proto.Conn
use tpaf.Proto.Events.Frame.{
  Frame, Frame-trans, update-Frame, Keeps, bind-Keeps, pure-Keeps, for_each-Keeps, conn-Keeps,
  lift_bind-Keeps, put_conn-Keeps,
}

queue_response-client :
    (own : ProtoConn) (msg : Str) → (queue_response own msg).client_id ≡ own.client_id
unfolding queue_response await_update
queue_response-client own msg = refl

respond-Keeps : (c : ℕ) (msg : Str) (w : World) → Keeps (respond c msg) w
unfolding respond
respond-Keeps c msg w = conn-Keeps c _ w λ own found.
    put_conn-Keeps c own (queue_response own msg) w found (queue_response-client own msg)

put_match_conn-Keeps : (sub_id : ℤ) (c : ℕ) (w : World) → Keeps (put_match_conn sub_id c) w
unfolding put_match_conn
put_match_conn-Keeps sub_id c w a w' e =
    subst (Frame w) (ap (λ (p : Unit {0} × World). p.1) (some-injective e)) (record {
      same_ids = λ d. refl;
      distinct = λ d. d;
      same_client = refl;
      same_clientless = refl;
    })

module _ (J : Json) where
  deliver-Keeps : (calls : List MatchCall) (w : World) → Keeps (deliver J calls) w
  unfolding deliver
  deliver-Keeps calls = for_each-Keeps (notify_sub_match J) calls λ call w a w' e.
      let n = notify_sub_match-Notified J call w w' e in
      subst (Frame w) (sym n.left) (
        update-Frame w n.target n.other (queue_response n.other n.response) n.found
          (queue_response-client n.other n.response))

  pub on_sd-Keeps : {A : Type 0} (operation : State.M A) (w : World) → Keeps (on_sd J operation) w
  unfolding on_sd
  on_sd-Keeps operation w a w' e = elim (Option-cases (operation (record w.sd { calls = [] }))) [
    | inl bad ↦ absurd (ground arith)
    | inr ((b, sd), did) ↦
        let start = record w { sd = record sd { calls = [] } } in
        Frame-trans w start w'
          (record {
            same_ids = λ c. refl;
            distinct = λ d. d;
            same_client = refl;
            same_clientless = refl;
          })
          (bind-Keeps (deliver J (reverse sd.calls)) (λ _. pure b) start
            (deliver-Keeps (reverse sd.calls) start) (λ _ v ran. pure-Keeps b v) a w'
            (ground arith))
  ]

  pub complete-Keeps :
      (c : ℕ) (ta : Ta) (args : _) (w : World) → Keeps (Conn.complete J c ta args) w
  unfolding Conn.complete
  complete-Keeps c ta args w =
      lift_bind-Keeps (Ta.complete J ta args) _ w
        λ a got. bind-Keeps (respond c a.0) _ w (respond-Keeps c a.0 w) λ u v ran. pure-Keeps a.1 v

  pub fail-Keeps : (c : ℕ) (ta : Ta) (reason : Str) (w : World) → Keeps (Conn.fail J c ta reason) w
  unfolding Conn.fail
  fail-Keeps c ta reason w =
      lift_bind-Keeps (Ta.fail J ta _) _ w
        λ a got. bind-Keeps (respond c a.0) _ w (respond-Keeps c a.0 w) λ u v ran. pure-Keeps a.1 v

  accept-Keeps : (c : ℕ) (ta : Ta) (w : World) → Keeps (Conn.accept J c ta) w
  unfolding Conn.accept
  accept-Keeps c ta w =
      lift_bind-Keeps (Ta.accept J ta) _ w
        λ a got. bind-Keeps (respond c a.0) _ w (respond-Keeps c a.0 w) λ u v ran. pure-Keeps a.1 v

  notify-Keeps : (c : ℕ) (ta : Ta) (args : _) (w : World) → Keeps (Conn.notify J c ta args) w
  unfolding Conn.notify
  notify-Keeps c ta args w =
      lift_bind-Keeps (Ta.notify J ta args) _ w λ a got. respond-Keeps c a.0 w

  install_sub-Keeps :
      (c : ℕ) (sub_id : ℤ) (ta : Ta) (w : World) → Keeps (Conn.install_sub J c sub_id ta) w
  unfolding Conn.install_sub
  install_sub-Keeps c sub_id ta w =
      bind-Keeps (put_match_conn sub_id c) _ w (put_match_conn-Keeps sub_id c w) λ _ mid _.
        conn-Keeps c _ mid λ own found.
          lift_bind-Keeps (Pmap.add own.sub_tas (to_u64 sub_id) ta) _ mid λ tas added.
            bind-Keeps (put_conn c (record own { sub_tas = tas })) _ mid
              (put_conn-Keeps c own _ mid found refl)
              λ _ v _. bind-Keeps (Conn.accept J c ta) _ v (accept-Keeps c ta v) λ ta' v' _.
                conn-Keeps c _ v' λ own' found'.
                  bind-Keeps (put_conn c _) _ v' (put_conn-Keeps c own' _ v' found' refl)
                    λ _ v'' _. pure-Keeps ta' v''

  -- The new subscription, accepted and told of the services that are there.
  activated-Keeps :
      (c : ℕ) (own_id sub_id : ℤ) (ta : Ta) (w : World)
      → Keeps
          (do
            ta' ← Conn.install_sub J c sub_id ta
            on_sd J (Server.activate_sub own_id sub_id)
            pure ta')
          w
  activated-Keeps c own_id sub_id ta w =
      bind-Keeps (Conn.install_sub J c sub_id ta) _ w (install_sub-Keeps c sub_id ta w) λ ta' v _.
        bind-Keeps (on_sd J (Server.activate_sub own_id sub_id)) _ v
          (on_sd-Keeps (Server.activate_sub own_id sub_id) v) λ _ v' _. pure-Keeps ta' v'

  subscribe-Keeps : (c : ℕ) (ta : Ta) (w : World) → Keeps (Conn.handle_subscribe J c ta) w
  unfolding Conn.handle_subscribe
  subscribe-Keeps c ta w = lift_bind-Keeps (Ta.get_req_field_uint63_value ta 0) _ w λ sub_id _.
      lift_bind-Keeps (Ta.get_opt_req_field_str_value ta 0) _ w λ text _.
        conn-Keeps c _ w λ own found.
          let operation = Server.create_sub Conn.parse_filter own.client_id sub_id text in
          bind-Keeps (on_sd J operation) _ w (on_sd-Keeps operation w) λ rc v _ a w' e. ground (
            arith,
            fail-Keeps c ta fail_reason_subscription_id_exists v a w',
            fail-Keeps c ta fail_reason_invalid_filter_syntax v a w',
            activated-Keeps c own.client_id sub_id ta v a w',
          )

  complete_sub-Keeps :
      (c : ℕ) (sub_id : ℤ) (ta : Ta) (w : World) → Keeps (Conn.complete_sub J c sub_id ta) w
  unfolding Conn.complete_sub
  complete_sub-Keeps c sub_id ta w = lift_bind-Keeps (Ta.complete J ta []) _ w λ a _.
      conn-Keeps c _ w λ own found.
        lift_bind-Keeps (Pmap.get own.sub_tas (to_u64 sub_id)) _ w λ sub_ta _.
          lift_bind-Keeps (Pmap.del own.sub_tas (to_u64 sub_id)) _ w λ sub_tas _.
            bind-Keeps (put_conn c (record own { sub_tas = sub_tas })) _ w
              (put_conn-Keeps c own _ w found refl)
              λ _ v _. lift_bind-Keeps (Ta.complete J sub_ta []) _ v λ b _.
                bind-Keeps (respond c a.0) _ v (respond-Keeps c a.0 v) λ _ v' _.
                  bind-Keeps (respond c b.0) _ v' (respond-Keeps c b.0 v')
                    λ _ v'' _. pure-Keeps a.1 v''

  unsubscribe-Keeps : (c : ℕ) (ta : Ta) (w : World) → Keeps (Conn.handle_unsubscribe J c ta) w
  unfolding Conn.handle_unsubscribe
  unsubscribe-Keeps c ta w = lift_bind-Keeps (Ta.get_req_field_uint63_value ta 0) _ w λ sub_id _.
      conn-Keeps c _ w λ own found.
        let operation = Server.unsubscribe own.client_id sub_id in
        bind-Keeps (on_sd J operation) _ w (on_sd-Keeps operation w) λ rc v _ a w' e. ground (
          arith,
          fail-Keeps c ta fail_reason_non_existent_subscription_id v a w',
          fail-Keeps c ta fail_reason_permission_denied v a w',
          complete_sub-Keeps c sub_id ta v a w',
        )

  publish-Keeps : (c : ℕ) (ta : Ta) (w : World) → Keeps (Conn.handle_publish J c ta) w
  unfolding Conn.handle_publish
  publish-Keeps c ta w = lift_bind-Keeps (Ta.get_req_field_uint63_value ta 0) _ w λ service_id _.
      lift_bind-Keeps (Ta.get_req_field_uint63_value ta 1) _ w λ generation _.
        lift_bind-Keeps (Ta.get_req_field_props_value ta 2) _ w λ props' _.
          lift_bind-Keeps (Ta.get_req_field_uint63_value ta 3) _ w λ ttl _.
            conn-Keeps c _ w λ own found.
              let operation = Server.publish own.client_id service_id generation props' ttl in
              bind-Keeps (on_sd J operation) _ w (on_sd-Keeps operation w) λ rc v _ a w' e. ground (
                arith,
                fail-Keeps c ta fail_reason_same_generation_but_different v a w',
                fail-Keeps c ta fail_reason_old_generation v a w',
                complete-Keeps c ta [] v a w',
              )

  unpublish-Keeps : (c : ℕ) (ta : Ta) (w : World) → Keeps (Conn.handle_unpublish J c ta) w
  unfolding Conn.handle_unpublish
  unpublish-Keeps c ta w = lift_bind-Keeps (Ta.get_req_field_uint63_value ta 0) _ w λ service_id _.
      conn-Keeps c _ w λ own found.
        let operation = Server.unpublish own.client_id service_id in
        bind-Keeps (on_sd J operation) _ w (on_sd-Keeps operation w) λ rc v _ a w' e. ground (
          arith,
          fail-Keeps c ta fail_reason_non_existent_service_id v a w',
          complete-Keeps c ta [] v a w',
        )

  service_notify-Keeps :
      (c : ℕ) (ta : Ta) (s : Entry Service) (w : World) → Keeps (Conn.service_notify J c ta s) w
  unfolding Conn.service_notify
  service_notify-Keeps c ta s w =
      lift_bind-Keeps (Conn.service_notify_args s) _ w λ args _. notify-Keeps c ta args w

  client_notify-Keeps :
      (c : ℕ) (ta : Ta) (e : Entry Client) (w : World) → Keeps (Conn.client_notify J c ta e) w
  unfolding Conn.client_notify
  client_notify-Keeps c ta entry w a w' e = elim (Option-cases (Conn.client_notify_args entry)) [
    | inl away ↦ pure-Keeps tt w a w' (ground arith)
    | inr (args, there) ↦ notify-Keeps c ta args w a w' (ground arith)
  ]

  -- The two ends of a listing, with what stands between them.
  listing-Keeps :
      (c : ℕ) (ta ta' : Ta) (m : W (Unit {0})) (w : World)
      → ((v : World) → Keeps m v)
      → Keeps (m >>= λ _. Conn.complete J c ta' []) w
  listing-Keeps c ta ta' m w k = bind-Keeps m _ w (k w) λ _ v _. complete-Keeps c ta' [] v

  list_services-Keeps :
      (c : ℕ) (ta : Ta) (filter : Option Filter) (w : World)
      → Keeps (Conn.list_services J c ta filter) w
  unfolding Conn.list_services
  list_services-Keeps c ta filter w =
      bind-Keeps (Conn.accept J c ta) _ w (accept-Keeps c ta w) λ ta' v _.
        lift_bind-Keeps (Server.foreach_service filter v.sd.db.services) _ v λ found _.
          listing-Keeps c ta ta' (for_each (Conn.service_notify J c ta') found) v
            (for_each-Keeps _ found (service_notify-Keeps c ta'))

  services-Keeps : (c : ℕ) (ta : Ta) (w : World) → Keeps (Conn.handle_services J c ta) w
  unfolding Conn.handle_services
  services-Keeps c ta w a w' e = elim (Option-cases (Ta.get_opt_req_field_str_value ta 0)) [
    | inl bad ↦ absurd (ground arith)
    | inr (none, given) ↦ list_services-Keeps c ta none w a w' (ground arith)
    | inr (some text, given) ↦ elim (Option-cases (Conn.parse_filter text)) [
      | inl bad ↦ fail-Keeps c ta fail_reason_invalid_filter_syntax w a w' (ground arith)
      | inr (filter, parsed) ↦ list_services-Keeps c ta (some filter) w a w' (ground arith)
    ]
  ]

  subscriptions-Keeps : (c : ℕ) (ta : Ta) (w : World) → Keeps (Conn.handle_subscriptions J c ta) w
  unfolding Conn.handle_subscriptions Conn.sub_notify
  subscriptions-Keeps c ta w = bind-Keeps (Conn.accept J c ta) _ w (accept-Keeps c ta w) λ ta' v _.
      listing-Keeps c ta ta' (for_each (Conn.sub_notify J c ta') v.sd.db.subs) v (
        for_each-Keeps (Conn.sub_notify J c ta') v.sd.db.subs
          λ entry. notify-Keeps c ta' (Conn.sub_notify_args entry))

  clients-Keeps : (c : ℕ) (ta : Ta) (w : World) → Keeps (Conn.handle_clients J c ta) w
  unfolding Conn.handle_clients
  clients-Keeps c ta w = bind-Keeps (Conn.accept J c ta) _ w (accept-Keeps c ta w) λ ta' v _.
      listing-Keeps c ta ta' (for_each (Conn.client_notify J c ta') v.sd.db.clients) v
        (for_each-Keeps (Conn.client_notify J c ta') v.sd.db.clients (client_notify-Keeps c ta'))

  ping-Keeps : (c : ℕ) (ta : Ta) (w : World) → Keeps (Conn.handle_ping J c ta) w
  unfolding Conn.handle_ping
  ping-Keeps c ta w = complete-Keeps c ta [] w

  pub dispatch-Keeps :
      (c : ℕ) (ta : Ta) (cmd : Str) (w : World) → Keeps (Conn.dispatch J c ta cmd) w
  unfolding Conn.dispatch
  dispatch-Keeps c ta cmd w a w' e = ground (
    arith,
    subscribe-Keeps c ta w a w',
    unsubscribe-Keeps c ta w a w',
    publish-Keeps c ta w a w',
    unpublish-Keeps c ta w a w',
    ping-Keeps c ta w a w',
    services-Keeps c ta w a w',
    subscriptions-Keeps c ta w a w',
    clients-Keeps c ta w a w',
  )

  pub no_hello-Keeps : (c : ℕ) (ta : Ta) (w : World) → Keeps (Conn.handle_no_hello J c ta) w
  unfolding Conn.handle_no_hello
  no_hello-Keeps c ta w = fail-Keeps c ta fail_reason_no_hello w

  pub hello_again-Keeps :
      (c : ℕ) (ta : Ta) (own_id client_id : ℤ) (w : World)
      → Keeps (Conn.hello_again J c ta own_id client_id) w
  unfolding Conn.hello_again
  hello_again-Keeps c ta own_id client_id w a w' e = ground (
    arith,
    fail-Keeps c ta fail_reason_permission_denied w a w',
    complete-Keeps c ta (some (uint63 version) ∷ []) w a w',
  )
