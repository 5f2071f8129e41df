-- ===== src/Proto/Tests/Requests.antt =====
-- Requests and transactions at concrete messages.
use tpaf.Prelude.{◌≡◌, refl, true, none, some, [], ◌∷◌}
use tpaf.Prelude.Int.{pos}
use tpaf.Clib.Str.{Str, str_eq}
use tpaf.Sd.Props.{Props}
use tpaf.Sd.Props.Laws.{values_of}
use tpaf.Sd.Pvalue.{Pvalue, int64}
use tpaf.Proto.Json.Tree.{tree_json-IsLawful, integer, string}
use tpaf.Sd.Sub.{appeared}
use tpaf.Proto.Names.{
  bytes, cmd_hello, cmd_publish, cmd_unpublish, cmd_subscribe, cmd_unsubscribe, cmd_ping,
  field_ta_cmd, field_ta_id, field_msg_type, msg_type_req, field_generation,
}
use tpaf.Proto.Types.{
  FieldType, multi_response, TaType, publish_ta, ping_ta, subscribe_ta, find_type, lookup_type,
}
use tpaf.Proto.Encoding
use tpaf.Proto.Encoding.{
  FieldValue, MsgType, uint63, props, match_type, json_to_props, props_to_json,
}
use tpaf.Proto.Encoding.Properties.{json_to_props-props_to_json}
use tpaf.Proto.Ta
use tpaf.Proto.Ta.{
  Ta, accepted, completed, has_term, req, req_type, req_fields, get_req_field_value,
}
use tpaf.Proto.Ta.Lifecycle.{
  is_allowed, is_end, Run-IsAllowed, Run, stop, next, accepts, notifies, completes,
}
use tpaf.Proto.Ta.Reading.{IsRead, req-IsRead}
use tpaf.Proto.Ta.Requests.{Fits, get_req_field_value_total}
use tpaf.Proto.Ta.Answers.{accept_total, complete_total}
use tpaf.Proto.Ta.Writing.{notify_total}
use tpaf.Proto.Tests.{J, parse, ta_of, IsRequested-ta_of, publish_known, watcher_ta}

abbrev subscribing : Ta
subscribing = ta_of subscribe_ta (some (uint63 (pos 3)) ∷ []) (none ∷ [])

told_service :
    (response : Str) × (Ta.notify J watcher_ta
        (some (match_type appeared) ∷ some (uint63 (pos 7)) ∷ none ∷ none ∷ none ∷ none ∷ none ∷ [])
      ≡ some (response, watcher_ta))
told_service =
    notify_total J watcher_ta subscribe_ta (some (match_type appeared) ∷ some (uint63 (pos 7)) ∷ [])
      (none ∷ none ∷ none ∷ none ∷ none ∷ []) refl refl refl (tt, (refl, tt))
      (refl, (refl, (refl, (refl, (refl, tt)))))

subscription :
    Run J subscribing
      (MsgType.accept ∷ MsgType.notify ∷ MsgType.complete ∷ [])
      (record watcher_ta { state = completed })
subscription = next (accepts _ (accept_total J subscribing subscribe_ta refl refl refl)) (
    next (notifies _ told_service.0 told_service.1)
      (next (completes [] _ (complete_total J watcher_ta subscribe_ta refl refl refl)) stop))

Run-IsAllowed_example :
    (is_allowed multi_response (MsgType.accept ∷ MsgType.notify ∷ MsgType.complete ∷ []) ≡ true)
    × (has_term (record watcher_ta { state = completed })
        ≡ is_end (MsgType.accept ∷ MsgType.notify ∷ MsgType.complete ∷ []))
Run-IsAllowed_example =
    Run-IsAllowed J subscribing (record watcher_ta { state = completed }) subscribe_ta
      (MsgType.accept ∷ MsgType.notify ∷ MsgType.complete ∷ []) refl refl subscription

pinged : req J Ta.create (1 ∷ []) ≡ some (ta_of ping_ta [] [], true)
unfolding req req_type req_fields Ta.create Encoding.get_typed Encoding.get_json Encoding.get_uint63
    Encoding.get_msg_type Encoding.get_fields lookup_type find_type str_eq bytes cmd_hello
    cmd_publish cmd_unpublish cmd_subscribe cmd_unsubscribe cmd_ping field_ta_cmd field_ta_id
    field_msg_type msg_type_req
pinged = refl

req-IsRead_example : (type : TaType) × IsRead J (1 ∷ []) (ta_of ping_ta [] []) type
req-IsRead_example = req-IsRead J (ta_of ping_ta [] []) (1 ∷ []) pinged

get_req_field_value_total_example :
    (v : FieldValue) × (get_req_field_value
        (ta_of publish_ta
          (some (uint63 (pos 7))
            ∷ some (uint63 (pos 5))
            ∷ some (props [])
            ∷ some (uint63 (pos 60))
            ∷ [])
          [])
        FieldType.uint63
        1
      ≡ some v)
    × Fits FieldType.uint63 v
get_req_field_value_total_example =
    get_req_field_value_total J _ publish_ta 1
      (record { name = field_generation; type = FieldType.uint63 })
      (IsRequested-ta_of publish_ta
        (some (uint63 (pos 7))
          ∷ some (uint63 (pos 5))
          ∷ some (props [])
          ∷ some (uint63 (pos 60))
          ∷ [])
        [] cmd_publish publish_known (refl, (refl, (tt, (refl, tt)))) tt)
      refl

-- Two values of one name, with another between them.
abbrev pairs : Props
pairs = (1 ∷ [], int64 (pos 4)) ∷ (2 ∷ [], Pvalue.str (3 ∷ [])) ∷ (1 ∷ [], int64 (pos 6)) ∷ []

json_to_props-props_to_json_example :
    (q : Props) × (json_to_props J (props_to_json J pairs) ≡ some q)
    × ((n : Str) → values_of q n ≡ values_of pairs n)
unfolding Encoding.pvalue_to_json
json_to_props-props_to_json_example =
    json_to_props-props_to_json J (tree_json-IsLawful parse) pairs
      ((integer (pos 4), refl), ((string (3 ∷ []), refl), ((integer (pos 6), refl), tt)))
