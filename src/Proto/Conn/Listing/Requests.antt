-- ===== src/Proto/Conn/Listing/Requests.antt =====
-- src/proto/proto_conn.c: what the three listings answer, to the last message.
use tpaf.Prelude.{
  ◌∙◌, ap, ℕ, ◌≡◌, refl, sym, subst, true, false, Option, none, some, List, [], ◌∷◌, ◌++◌, map,
  arith,
}
use tpaf.Prelude.Int.{ℤ, is_nonneg}
use tpaf.Clib.Str.{Str}
use mathlib.Core.Option
use tpaf.Util.Pmap
use tpaf.Util.Pmap.{Pmap, Entry}
use tpaf.Sd.Generation.{Generation}
use tpaf.Sd.Service.{Service}
use tpaf.Sd.Sub.{Sub}
use tpaf.Sd.Filter.{Filter}
use tpaf.Sd.Filter.Print
use tpaf.Sd.Conn.{Conn}
use tpaf.Sd.State.{Client}
use tpaf.Sd.Server.Subscriptions.{Given}
use tpaf.Sd.Props.{Props}
use tpaf.Proto.Json.{Json}
use tpaf.Proto.Names.{msg_type_accept, msg_type_complete}
use tpaf.Proto.Encoding.{FieldValue, uint63, str, props}
use tpaf.Proto.Types.{FieldType, TaType, services_ta, subscriptions_ta, clients_ta}
use tpaf.Proto.Ta
use tpaf.Proto.Ta.{Ta, accepted, completed, get_opt_req_field_str_value}
use tpaf.Proto.Ta.Requests.{IsRequested, FitsAt}
use tpaf.Proto.Ta.Answers.{plain}
use tpaf.Proto.Ta.Writing.{notify_total}
use tpaf.Proto.World.{World, ProtoConn, of_u64, whole_seconds}
use tpaf.Proto.World.Queues.{respond_lem}
use tpaf.Proto.Notify.Safety.{IsPublic, orphan_since-Fits, props_arg}
use tpaf.Proto.Notify.{orphan_since}
use tpaf.Proto.Conn.{
  notify, sub_notify_args, service_notify_args, client_notify_args, sub_notify, service_notify,
  client_notify, handle_subscriptions, handle_services, handle_clients, list_services, parse_filter,
}
use tpaf.Proto.Conn.Replies.{queued}
use tpaf.Proto.Conn.Listing.Messages.{
  IsSelection, foreach_service-IsSelection, sub_text, service_text, client_text, notify-sub_text,
  notify-service_text, notify-client_text,
}
use tpaf.Proto.Conn.Listing.{Tells, stop, tells, skips, Listed, listing_lem}

-- A whole listing, from the request to the end.
abbrev pub whole : Json → TaType → Ta → List Str → List Str
whole J type ta msgs =
    plain J type ta.ta_id msg_type_accept ∷ msgs ++ plain J type ta.ta_id msg_type_complete ∷ []

abbrev pub AllNumbered : Pmap Sub → Type 0
AllNumbered [] = Unit {0}
AllNumbered (e ∷ subs) =
    (is_nonneg (of_u64 e.key) ≡ true) × (is_nonneg e.value.client_id ≡ true) × AllNumbered subs

-- A service with a public generation that has properties, under an id that is not negative.
pub record IsShown (e : Entry Service) : Type 0 where
  pub generation : Generation
  pub properties : Props
  pub public : IsPublic e.value generation
  pub has_props : generation.props ≡ some properties
  pub key_nonneg : is_nonneg (of_u64 e.key) ≡ true

-- A client that is away, or whose connection has an address and was made at a time that is not
-- negative.
pub data IsListable (e : Entry Client) : Type 0 where
  away : e.value.active_conn ≡ none → IsListable e
  connected :
      (conn : Conn) (addr : Str)
      → e.value.active_conn ≡ some conn
      → conn.remote_addr ≡ some addr
      → is_nonneg (whole_seconds conn.connected_at) ≡ true
      → is_nonneg (of_u64 e.key) ≡ true
      → IsListable e

module _ (J : Json) (c : ℕ) where
  notify_lem :
      (ta : Ta) (args : List (Option FieldValue)) (w : World) (own : ProtoConn) (response msg : Str)
      → Ta.notify J ta args ≡ some (response, ta)
      → response ≡ msg
      → Pmap.get w.conns c ≡ some own
      → notify J c ta args w ≡ some (tt, queued w c own msg)
  unfolding notify
  notify_lem ta args w own response msg e same found =
      ground (arith, same, respond_lem c own msg w found)

  -- The filter as an argument is a text or NULL.
  abbrev filter_arg : Option Filter → Option FieldValue
  filter_arg filter = Option.map (λ f. str (Print.str f)) filter

  filter_arg-Fits : (filter : Option Filter) → FitsAt true FieldType.str (filter_arg filter)
  filter_arg-Fits none = refl
  filter_arg-Fits (some f) = tt

  module _ (ta : Ta) (s : ta.state ≡ accepted) where
    sub_told :
        (e : Entry Sub) (w : World) (own : ProtoConn)
        → ta.type ≡ some subscriptions_ta
        → is_nonneg (of_u64 e.key) ≡ true
        → is_nonneg e.value.client_id ≡ true
        → Pmap.get w.conns c ≡ some own
        → sub_notify J c ta e w ≡ some (tt, queued w c own (sub_text J ta.ta_id e))
    unfolding sub_notify sub_notify_args
    sub_told e w own t k i found =
        let (response, made) =
          notify_total J ta subscriptions_ta
            (some (uint63 (of_u64 e.key)) ∷ some (uint63 e.value.client_id) ∷ [])
            (filter_arg e.value.filter ∷ []) t refl s (k, (i, tt))
            (filter_arg-Fits e.value.filter, tt) in
        notify_lem ta (sub_notify_args e) w own response (sub_text J ta.ta_id e) made
          (notify-sub_text J ta ta e response t made) found

    subs-Tells :
        (subs : Pmap Sub)
        → ta.type ≡ some subscriptions_ta
        → AllNumbered subs
        → Tells c (sub_notify J c ta) subs (map (sub_text J ta.ta_id) subs)
    subs-Tells [] t n = stop
    subs-Tells (e ∷ subs) t (k, i, n) =
        tells e _ subs _ (λ w own found. sub_told e w own t k i found) (subs-Tells subs t n)

  -- A request for the subscriptions is answered with an `accept`, one notification for each
  -- subscription of the domain, with its id, its client and its filter as a text (sub_text), in their
  -- order, and a `complete`. Nothing but the connection changes.
  pub handle_subscriptions-Listed :
      (own : ProtoConn) (ta : Ta) (w : World)
      → Pmap.get w.conns c ≡ some own
      → IsRequested J ta subscriptions_ta
      → AllNumbered w.sd.db.subs
      → (after : World) × (handle_subscriptions J c ta w
          ≡ some (record ta { state = completed }, after))
        × Listed c own
            (whole J subscriptions_ta ta (map (sub_text J ta.ta_id) w.sd.db.subs))
            w
            after
  unfolding handle_subscriptions
  handle_subscriptions-Listed own ta w found r n =
      let ta' = record ta { state = accepted } in
      let (mid, after, accepts, same, rest, l) =
        listing_lem c J ta subscriptions_ta (sub_notify J c ta') w.sd.db.subs _ own w found r refl
          refl (subs-Tells ta' refl w.sd.db.subs r.has_type n) in
      (after, ground (arith, accepts, same, rest), l)

  abbrev pub AreShown : List (Entry Service) → Type 0
  AreShown [] = Unit {0}
  AreShown (e ∷ services) = IsShown e × AreShown services

  abbrev pub AreListable : Pmap Client → Type 0
  AreListable [] = Unit {0}
  AreListable (e ∷ clients) = IsListable e × AreListable clients

  abbrev with_addr : ℤ → Entry Client → Conn → Option Str → List Str → List Str
  with_addr ta_id e own none msgs = msgs
  with_addr ta_id e own (some addr) msgs = client_text J ta_id e addr own ∷ msgs

  abbrev with_client : ℤ → Entry Client → Option Conn → List Str → List Str
  with_client ta_id e none msgs = msgs
  with_client ta_id e (some own) msgs = with_addr ta_id e own own.remote_addr msgs

  -- The texts for the clients that are connected.
  abbrev pub client_texts : ℤ → Pmap Client → List Str
  client_texts ta_id [] = []
  client_texts ta_id (e ∷ clients) =
      with_client ta_id e e.value.active_conn (client_texts ta_id clients)

  module _ (ta : Ta) (s : ta.state ≡ accepted) where
    service_told :
        (e : Entry Service) (w : World) (own : ProtoConn)
        → ta.type ≡ some services_ta
        → IsShown e
        → Pmap.get w.conns c ≡ some own
        → service_notify J c ta e w ≡ some (tt, queued w c own (service_text J ta.ta_id e))
    unfolding service_notify service_notify_args
    service_told e w own t shown found =
        let g = shown.generation in
        let p = shown.public in
        let has_props : FitsAt false FieldType.props (props_arg g) =
          subst (λ o. FitsAt false FieldType.props (Option.map props o)) (sym shown.has_props) tt in
        let args =
          some (uint63 (of_u64 e.key))
          ∷ some (uint63 g.generation)
          ∷ props_arg g
          ∷ some (uint63 g.ttl)
          ∷ some (uint63 g.client_id)
          ∷ [] in
        let all = args ++ orphan_since g ∷ [] in
        let (response, made) =
          notify_total J ta services_ta args (orphan_since g ∷ []) t refl s
            (
              shown.key_nonneg,
              (p.generation_nonneg, (has_props, (p.ttl_nonneg, (p.client_nonneg, tt)))),
            )
            (orphan_since-Fits g, tt) in
        let given : service_notify_args e ≡ some all = rw p.has_current refl in
        let told =
          notify_lem ta all w own response (service_text J ta.ta_id e) made
            (notify-service_text J ta ta e all response t given made) found in
        let same : service_notify J c ta e w ≡ notify J c ta all w = ground (arith, given) in
        same ∙ told

    services-Tells :
        (services : List (Entry Service))
        → ta.type ≡ some services_ta
        → AreShown services
        → Tells c (service_notify J c ta) services (map (service_text J ta.ta_id) services)
    services-Tells [] t p = stop
    services-Tells (e ∷ services) t (p, ps) =
        tells e _ services _ (λ w own found. service_told e w own t p found)
          (services-Tells services t ps)

    client_told :
        (e : Entry Client) (args : List (Option FieldValue)) (msg : Str) (w : World)
        (own : ProtoConn)
        → client_notify_args e ≡ some args
        → (response : Str) × (Ta.notify J ta args ≡ some (response, ta)) × (response ≡ msg)
        → Pmap.get w.conns c ≡ some own
        → client_notify J c ta e w ≡ some (tt, queued w c own msg)
    unfolding client_notify
    client_told e args msg w own given (response, made, same) found =
        ground (arith, notify_lem ta args w own response msg made same found)

    clients-Tells :
        (clients : Pmap Client)
        → ta.type ≡ some clients_ta
        → AreListable clients
        → Tells c (client_notify J c ta) clients (client_texts ta.ta_id clients)
    unfolding client_notify client_notify_args
    clients-Tells [] t l = stop
    clients-Tells (e ∷ clients) t (away gone, ls) =
        subst
          (λ o.
            Tells c (client_notify J c ta) (e ∷ clients)
              (with_client ta.ta_id e o (client_texts ta.ta_id clients)))
          (sym gone) (skips e clients _ (λ w. ground arith) (clients-Tells clients t ls))
    clients-Tells (e ∷ clients) t (connected conn addr at has time key, ls) =
        let args =
          some (uint63 (of_u64 e.key))
          ∷ some (str addr)
          ∷ some (uint63 (whole_seconds conn.connected_at))
          ∷ [] in
        let given : client_notify_args e ≡ some args = ground arith in
        let (response, made) =
          notify_total J ta clients_ta args [] t refl s (key, (tt, (time, tt))) tt in
        let msg = client_text J ta.ta_id e addr conn in
        let rest = client_texts ta.ta_id clients in
        let same : with_client ta.ta_id e e.value.active_conn rest ≡ msg ∷ rest =
          ap (λ o. with_client ta.ta_id e o rest) at
          ∙ ap (λ o. with_addr ta.ta_id e conn o rest) has in
        subst (Tells c (client_notify J c ta) (e ∷ clients)) (sym same) (
          tells e msg clients _
            (λ w own found.
              client_told e args msg w own given
                (
                  response,
                  made,
                  notify-client_text J ta ta e addr conn args response t at has given made,
                )
                found)
            (clients-Tells clients t ls))

  -- A request for the clients is answered with an `accept`, one notification for each client that is
  -- connected, in their order, and a `complete`.
  pub handle_clients-Listed :
      (own : ProtoConn) (ta : Ta) (w : World)
      → Pmap.get w.conns c ≡ some own
      → IsRequested J ta clients_ta
      → AreListable w.sd.db.clients
      → (after : World) × (handle_clients J c ta w ≡ some (record ta { state = completed }, after))
        × Listed c own (whole J clients_ta ta (client_texts ta.ta_id w.sd.db.clients)) w after
  unfolding handle_clients
  handle_clients-Listed own ta w found r n =
      let ta' = record ta { state = accepted } in
      let (mid, after, accepts, same, rest, l) =
        listing_lem c J ta clients_ta (client_notify J c ta') w.sd.db.clients _ own w found r refl
          refl (clients-Tells ta' refl w.sd.db.clients r.has_type n) in
      (after, ground (arith, accepts, same, rest), l)

  -- A request for the services with no filter, or one that parses, is answered with an `accept`, one
  -- notification for each service that the filter lets through (IsSelection), with its id and its
  -- current generation (service_text), in their order, and a `complete`. Nothing but the connection
  -- changes. This holds where each of these services has a generation with properties and numbers that
  -- are not negative, and each other one has properties that the filter can be matched against.
  pub handle_services-Listed :
      (own : ProtoConn) (ta : Ta) (w : World) (filter_s : Option Str) (filter : Option Filter)
      (services : List (Entry Service))
      → Pmap.get w.conns c ≡ some own
      → IsRequested J ta services_ta
      → get_opt_req_field_str_value ta 0 ≡ some filter_s
      → Given parse_filter filter_s filter
      → IsSelection filter w.sd.db.services services
      → AreShown services
      → (after : World) × (handle_services J c ta w ≡ some (record ta { state = completed }, after))
        × Listed c own (whole J services_ta ta (map (service_text J ta.ta_id) services)) w after
  unfolding handle_services list_services
  handle_services-Listed own ta w none filter services found r h given select p =
      let ta' = record ta { state = accepted } in
      let pass = foreach_service-IsSelection filter w.sd.db.services services select in
      let (mid, after, accepts, same, rest, l) =
        listing_lem c J ta services_ta (service_notify J c ta') services _ own w found r refl refl
          (services-Tells ta' refl services r.has_type p) in
      (after, ground (arith, accepts, same, rest, pass), l)
  handle_services-Listed own ta w (some text) filter services found r h (f, parsed, is) select p =
      let ta' = record ta { state = accepted } in
      let pass = foreach_service-IsSelection filter w.sd.db.services services select in
      let (mid, after, accepts, same, rest, l) =
        listing_lem c J ta services_ta (service_notify J c ta') services _ own w found r refl refl
          (services-Tells ta' refl services r.has_type p) in
      (after, ground (arith, accepts, same, rest, pass), l)
