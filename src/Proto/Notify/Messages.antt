-- ===== src/Proto/Notify/Messages.antt =====
-- The notifications of src/proto/proto_conn.c as JSON messages, by the names of their members, and who
-- gets them.
use tpaf.Prelude.{
  ℕ, ◌≡◌, Bool, false, Option, none, some, List, [], ◌∷◌, ◌++◌, arith, inl, inr, Bool-cases,
  Option-cases, if◌then◌else◌, ◌==◌,
}
use tpaf.Prelude.Int.{ℤ, to_u64}
use mathlib.Core.Option
use tpaf.Clib.Str.{Str}
use tpaf.Clib.Ftime.{Ftime, is_since}
use tpaf.Util.Pmap
use tpaf.Util.Pmap.{Pmap}
use tpaf.Sd.Generation.{Generation}
use tpaf.Sd.Service.{Service}
use tpaf.Sd.Sub.{MatchType, appeared, modified, disappeared}
use tpaf.Sd.State.{MatchCall}
use tpaf.Proto.Json.{Json}
use tpaf.Proto.Names.{
  msg_type_notify, cmd_subscribe, field_ta_cmd, field_ta_id, field_msg_type, field_match_type,
  field_service_id, field_generation, field_service_props, field_ttl, field_client_id,
  field_orphan_since, match_type_appeared, match_type_modified, match_type_disappeared,
}
use tpaf.Proto.Types.{subscribe_ta}
use tpaf.Proto.Encoding
use tpaf.Proto.Encoding.{FieldValue, object_set_new, props_to_json}
use tpaf.Proto.Ta
use tpaf.Proto.Ta.{Ta, produce_response, response_fields}
use tpaf.Proto.Notify.{match_args, orphan_since}

module _ (J : Json) where
  open J use {Value}

  -- An object with these members more, in their order; a member without a value is left out.
  abbrev pub with_members : Value → List (Str × Option Value) → Value
  with_members object [] = object
  with_members object ((name, value) ∷ members) =
      with_members (object_set_new J object name value) members

  -- A notification: the command, the id of the transaction, the type, and what it tells.
  abbrev pub notification : Str → ℤ → List (Str × Option Value) → Str
  notification cmd ta_id members = J.dumps (
      with_members J.object (
        (field_ta_cmd, J.string cmd)
        ∷ (field_ta_id, some (J.integer ta_id))
        ∷ (field_msg_type, J.string msg_type_notify)
        ∷ members))

  abbrev pub time_member : Ftime → Option Value
  time_member since = if is_since since then J.real since else none

  -- What is told of a generation.
  abbrev pub generation_members : Generation → List (Str × Option Value)
  generation_members g =
      (field_generation, some (J.integer g.generation))
      ∷ (field_service_props, Option.map (props_to_json J) g.props)
      ∷ (field_ttl, some (J.integer g.ttl))
      ∷ (field_client_id, some (J.integer g.client_id))
      ∷ (field_orphan_since, time_member g.orphan_since)
      ∷ []

  abbrev pub current_members : Option Generation → List (Str × Option Value)
  current_members none = []
  current_members (some g) = generation_members g

  abbrev pub match_name : MatchType → Str
  match_name appeared = match_type_appeared
  match_name modified = match_type_modified
  match_name disappeared = match_type_disappeared

  -- A service that has appeared or been modified is told with its current generation; of one that has
  -- disappeared there is the id alone.
  abbrev pub details : MatchType → Service → List (Str × Option Value)
  details disappeared service = []
  details appeared service = current_members service.current
  details modified service = current_members service.current

  abbrev pub match_text : ℤ → MatchType → Service → Str
  match_text ta_id m service = notification cmd_subscribe ta_id (
      (field_match_type, J.string (match_name m))
      ∷ (field_service_id, some (J.integer service.service_id))
      ∷ details m service)

  abbrev is_target : Option ℕ → ℕ → Bool
  is_target none d = false
  is_target (some c) d = c == d

  abbrev note : Option Ta → MatchCall → List Str
  note none call = []
  note (some sub_ta) call = match_text sub_ta.ta_id call.match_type call.service ∷ []

  -- The messages that connection `d`, with its transactions, gets for the calls of the callback: one for
  -- each call of a subscription of its own, in the order of the calls, in the transaction of the
  -- subscription.
  abbrev pub notes : (ℤ → Option ℕ) → ℕ → Pmap Ta → List MatchCall → List Str
  notes match_conns d sub_tas [] = []
  notes match_conns d sub_tas (call ∷ calls) =
      (if is_target (match_conns call.sub_id) d
        then note (Pmap.get sub_tas (to_u64 call.sub_id)) call
        else [])
      ++ notes match_conns d sub_tas calls

  -- A notification of a match that is made has the text for the match.
  pub notify-match_text :
      (ta ta' : Ta) (m : MatchType) (service : Service) (args : List (Option FieldValue))
      (response : Str)
      → ta.type ≡ some subscribe_ta
      → match_args m service ≡ some args
      → Ta.notify J ta args ≡ some (response, ta')
      → response ≡ match_text ta.ta_id m service
  unfolding Ta.notify produce_response response_fields Encoding.set_fields Encoding.set_opt_fields
      Encoding.set_field Encoding.write_value Encoding.create_response object_set_new match_args
      orphan_since Encoding.enum_to_match_type
  notify-match_text ta ta' disappeared service args response t a e = ground arith
  notify-match_text ta ta' m service args response t a e = elim (Option-cases service.current) [
    | inl gone ↦ absurd (ground arith)
    | inr (g, here) ↦ elim (Option-cases g.props) [
      | inl bare ↦ elim (Bool-cases (is_since g.orphan_since)) [
        | inl since ↦ ground arith
        | inr not_since ↦ ground arith
      ]
      | inr (p, has) ↦ elim (Bool-cases (is_since g.orphan_since)) [
        | inl since ↦ ground arith
        | inr not_since ↦ ground arith
      ]
    ]
  ]
