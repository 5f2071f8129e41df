-- ===== src/Proto/Tests/Serving.antt =====
-- Publishing, subscribing and unsubscribing at concrete states.
use tpaf.Prelude.{◌≡◌, refl, true, false, none, some, List, [], ◌∷◌}
use tpaf.Prelude.Int.{ℤ, pos}
use tpaf.Util.Sequence
use tpaf.Util.Pmap
use tpaf.Util.Pmap.{Pmap}
use tpaf.Sd.Service.{Service}
use tpaf.Sd.Sub
use tpaf.Sd.Sub.{Sub, appeared}
use tpaf.Sd.Sub.Laws.{shows}
use tpaf.Sd.Conn
use tpaf.Sd.State.{Sd, MatchCall, get_sub}
use tpaf.Sd.Client.{Rc}
use tpaf.Sd.Server
use tpaf.Sd.Orphans.Notify.{AllTell, calls_of}
use tpaf.Sd.Server.Renewal.{published}
use tpaf.Sd.Server.Addition.{IsNew, Added, first}
use tpaf.Sd.Server.Subscriptions.{SubsOnly}
use tpaf.Sd.Server.Tests.{entry, line, owner, other, watcher, empty, quiet, gen, told}
use tpaf.Proto.Names.{cmd_publish, cmd_unsubscribe, fail_reason_old_generation}
use tpaf.Proto.Types.{publish_ta, subscribe_ta, unsubscribe_ta}
use tpaf.Proto.Encoding.{uint63, props}
use tpaf.Proto.Ta
use tpaf.Proto.Ta.{Ta, accepted, completed}
use tpaf.Proto.Ta.Requests.{IsRequested}
use tpaf.Proto.World.{World, has_finished_handshake}
use tpaf.Proto.Notify.{deliver}
use tpaf.Proto.Notify.Safety.{IsServed, IsPublic, IsPublic-CanTell, deliver_total}
use tpaf.Proto.Conn.{handle_publish, handle_unsubscribe}
use tpaf.Proto.Conn.Answered.{IsAnswered, done, refused, reply_ta, reply_text}
use tpaf.Proto.Conn.Publishing.{old, handle_publish-new, handle_publish-IsAnswered}
use tpaf.Sd.Publish
use tpaf.Proto.Conn.Unsubscribing.{Unsubscribed, handle_unsubscribe-own}
use tpaf.Proto.Tests.{
  J, ta_of, IsRequested-ta_of, publish_known, unsubscribe_known, publisher, subscriber, watcher_ta,
  served,
}

-- Subscription 3 is served by connection 20, whatever the domain is.
pub watcher-IsServed : (sd : Sd) → IsServed (served sd) (pos 3)
unfolding Pmap.get Pmap.index_of Sequence.index_of
watcher-IsServed sd = record {
  target = 20;
  own = subscriber;
  sub_ta = watcher_ta;
  called_with = refl;
  found = refl;
  has_ta = refl;
  has_type = refl;
  is_accepted = refl;
}

abbrev publishing : Ta
publishing =
    ta_of publish_ta
      (some (uint63 (pos 7))
        ∷ some (uint63 (pos 5))
        ∷ some (props [])
        ∷ some (uint63 (pos 60))
        ∷ [])
      []

publishing-IsRequested : IsRequested J publishing publish_ta
publishing-IsRequested =
    IsRequested-ta_of publish_ta _ [] cmd_publish publish_known (refl, (refl, (tt, (refl, tt)))) tt

abbrev service_first : Service
service_first = first (pos 7) (published (pos 1) (pos 5) [] (pos 60))

told_first : AllTell service_first (entry 3 watcher ∷ [])
unfolding shows Sub.generation_matches Sub.matches
told_first = told service_first false true refl refl

empty-IsNew :
    IsNew (pos 1) (pos 7) empty (record owner { active_conn = some (line [] []) }) (line [] [])
unfolding Pmap.get Pmap.index_of Sequence.index_of Pmap.has_key Conn.has_service
empty-IsNew = record {
  client_eq = refl;
  conn_eq = refl;
  absent = refl;
  unpublished = refl;
  no_timer = refl;
  timers = tt;
  id_nonneg = refl;
}

handle_publish-new_example :
    (sd : Sd) × Added
      (pos 1)
      (pos 7)
      empty
      sd
      (record owner { active_conn = some (line [] []) })
      (line [] [])
      service_first
    × (sd.calls ≡ calls_of told_first [])
    × IsAnswered J 10 publisher
        (served empty)
        sd
        (handle_publish J 10 publishing (served empty))
        (reply_ta publishing done)
        (reply_text J publish_ta publishing done)
unfolding Pmap.get Pmap.index_of Sequence.index_of Ta.get_req_field_uint63_value
    Ta.get_req_field_props_value Ta.get_req_field_value Ta.get_value Ta.type_eq
    has_finished_handshake
handle_publish-new_example =
    handle_publish-new J 10 publisher publishing (served empty) refl (pos 7) (pos 5) (pos 60) []
      (record owner { active_conn = some (line [] []) }) (line [] []) publishing-IsRequested refl
      refl refl refl refl empty-IsNew told_first (watcher-IsServed empty, tt)

abbrev subscribing : Ta
subscribing = ta_of subscribe_ta (some (uint63 (pos 9)) ∷ []) (none ∷ [])

gen-IsPublic : IsPublic (first (pos 7) gen) gen
gen-IsPublic = record {
  has_current = refl;
  id_nonneg = refl;
  generation_nonneg = refl;
  ttl_nonneg = refl;
  client_nonneg = refl;
}

abbrev unsubscribing : Ta
unsubscribing = ta_of unsubscribe_ta (some (uint63 (pos 3)) ∷ []) []

handle_unsubscribe-own_example :
    (sd : Sd) × (held : Pmap ℤ) × (after : World) × (handle_unsubscribe J 20 unsubscribing
        (served quiet)
      ≡ some (record unsubscribing { state = completed }, after))
    × (after.sd ≡ record sd { calls = [] })
    × (get_sub (pos 3) sd ≡ none)
    × SubsOnly (pos 2) (pos 3) quiet sd other (line [] (entry 3 (pos 3) ∷ [])) held
    × Unsubscribed J 20 subscriber (pos 3) unsubscribing watcher_ta (served quiet) after
unfolding Pmap.get Pmap.index_of Sequence.index_of Ta.get_req_field_uint63_value
    Ta.get_req_field_value Ta.get_value Ta.type_eq
handle_unsubscribe-own_example =
    handle_unsubscribe-own J 20 subscriber unsubscribing watcher_ta (pos 3)
      (IsRequested-ta_of unsubscribe_ta (some (uint63 (pos 3)) ∷ []) [] cmd_unsubscribe
        unsubscribe_known (refl, tt) tt)
      refl refl refl (tt, tt) (served quiet) (pos 3) other (line [] (entry 3 (pos 3) ∷ [])) watcher
      refl refl refl refl (tt, tt) (tt, tt) refl refl

abbrev one_call : List MatchCall
one_call = record { sub_id = pos 3; match_type = appeared; service = first (pos 7) gen } ∷ []

deliver_total_example :
    (w' : World) × (deliver J one_call (served quiet) ≡ some (tt, w'))
    × ((sub_id : ℤ) → IsServed (served quiet) sub_id → IsServed w' sub_id)
deliver_total_example =
    deliver_total J one_call (served quiet)
      (watcher-IsServed quiet, IsPublic-CanTell appeared (first (pos 7) gen) gen gen-IsPublic, tt)

abbrev outdated : Ta
outdated =
    ta_of publish_ta
      (some (uint63 (pos 7))
        ∷ some (uint63 (pos 3))
        ∷ some (props [])
        ∷ some (uint63 (pos 30))
        ∷ [])
      []

too_old :
    Server.publish (pos 1) (pos 7) (pos 3) [] (pos 30) quiet
    ≡ some (Rc.newer_service_generation_exists, quiet)
unfolding Server.publish Publish.publish Publish.publish_existing Pmap.get Pmap.index_of
    Sequence.index_of
too_old = refl

handle_publish-IsAnswered_example :
    IsAnswered J 10 publisher
      (served quiet)
      quiet
      (handle_publish J 10 outdated (served quiet))
      (reply_ta outdated (refused fail_reason_old_generation))
      (reply_text J publish_ta outdated (refused fail_reason_old_generation))
unfolding Pmap.get Pmap.index_of Sequence.index_of Ta.get_req_field_uint63_value
    Ta.get_req_field_props_value Ta.get_req_field_value Ta.get_value Ta.type_eq
handle_publish-IsAnswered_example =
    handle_publish-IsAnswered J 10 publisher outdated (served quiet) refl (pos 7) (pos 3) (pos 30)
      [] Rc.newer_service_generation_exists quiet (refused fail_reason_old_generation)
      (IsRequested-ta_of publish_ta _ [] cmd_publish publish_known (refl, (refl, (tt, (refl, tt))))
        tt)
      refl refl refl refl old too_old tt
