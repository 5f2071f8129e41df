-- ===== src/Proto/Ta.antt =====
-- src/proto/proto_ta.c and src/proto/msg.c: a transaction, from its request to its last response. A
-- message is its bytes. `none` is a fault: a failed assertion or a read through a bad pointer.
pub mod Lifecycle
pub mod Requests
pub mod Reading
pub mod Answers
pub mod Writing
use tpaf.Prelude.{
  ◌≡◌, Bool, true, false, not, ◌||◌, ◌&&◌, Option, none, some, List, [], ◌∷◌, ◌++◌, ℕ, ◌+◌,
  if◌then◌else◌, ltb, get_elem?, map,
}
use tpaf.Prelude.Int.{ℤ, negsuc, is_nonneg}
use tpaf.Clib.Str.{Str, str_eq}
use tpaf.Clib.Ftime.{Ftime}
use tpaf.Sd.Props.{Props}
use tpaf.Proto.Json.{Json}
use tpaf.Proto.Names.{
  msg_type_accept, msg_type_notify, msg_type_complete, msg_type_fail, field_ta_cmd, field_ta_id,
  num_mandatory_fields,
}
use tpaf.Proto.Types.{
  FieldType, Field, IaType, single_response, multi_response, TaType, lookup_type,
}
use tpaf.Proto.Encoding
use tpaf.Proto.Encoding.{FieldValue, MsgType, ◌>>=◌}

pub data TaState : Type 0 where
  initialized requested accepted completed failed : TaState

pub record Ta : Type 0 where
  pub type : Option TaType
  pub state : TaState
  pub ta_id : ℤ
  pub req_field_values : List (Option FieldValue)
  pub opt_req_field_values : List (Option FieldValue)

unfoldable pub create : Ta
create = record {
  type = none;
  state = initialized;
  ta_id = negsuc 0;
  req_field_values = [];
  opt_req_field_values = [];
}

unfoldable pub get_cmd : Ta → Option Str
get_cmd ta = elim ta.type [ none ↦ none | some type ↦ some type.cmd ]

infixl 5 ◌>>◌
abbrev pub ◌>>◌ : {B : Type 0} → Option (Unit {0}) → Option B → Option B
none >> k = none
some tt >> k = k

abbrev pub ut_assert : Bool → Option (Unit {0})
ut_assert true = some tt
ut_assert false = none

abbrev pub is_initialized : TaState → Bool
is_initialized initialized = true
is_initialized _ = false

abbrev pub is_requested : TaState → Bool
is_requested requested = true
is_requested _ = false

abbrev pub is_accepted : TaState → Bool
is_accepted accepted = true
is_accepted _ = false

abbrev pub is_multi_response : IaType → Bool
is_multi_response multi_response = true
is_multi_response single_response = false

abbrev pub can_complete : IaType → TaState → Bool
can_complete single_response state = is_requested state
can_complete multi_response state = is_accepted state

abbrev is_req : MsgType → Bool
is_req MsgType.req = true
is_req _ = false

unfoldable pub has_term : Ta → Bool
has_term ta = elim ta.state [ failed ↦ true | completed ↦ true | _ ↦ false ]

unfoldable pub type_eq : FieldType → FieldType → Bool
type_eq FieldType.str FieldType.str = true
type_eq FieldType.uint63 FieldType.uint63 = true
type_eq FieldType.number FieldType.number = true
type_eq FieldType.props FieldType.props = true
type_eq FieldType.match_type FieldType.match_type = true
type_eq a b = false

-- get_req_field_value and get_opt_req_field_value, over the table and the values.
unfoldable pub get_value :
    List Field → List (Option FieldValue) → FieldType → ℕ → Option (Option FieldValue)
unfolding type_eq
get_value fields values field_type field_idx = do
  f ← get_elem? fields field_idx
  ut_assert (type_eq f.type field_type)
  get_elem? values field_idx

unfoldable pub get_req_field_value : Ta → FieldType → ℕ → Option FieldValue
unfolding get_value
get_req_field_value ta field_type field_idx = do
  type ← ta.type
  value ← get_value type.req_fields ta.req_field_values field_type field_idx
  value

-- The inner `none` is NULL.
unfoldable pub get_opt_req_field_value : Ta → FieldType → ℕ → Option (Option FieldValue)
unfolding get_value
get_opt_req_field_value ta field_type field_idx = do
  type ← ta.type
  get_value type.opt_req_fields ta.opt_req_field_values field_type field_idx

-- What the pointer returned is used as.
abbrev pub as_uint63 : FieldValue → Option ℤ
as_uint63 (FieldValue.uint63 value) = some value
as_uint63 _ = none

abbrev pub as_str : FieldValue → Option Str
as_str (FieldValue.str value) = some value
as_str _ = none

abbrev pub as_props : FieldValue → Option Props
as_props (FieldValue.props value) = some value
as_props _ = none

unfoldable pub get_req_field_uint63_value : Ta → ℕ → Option ℤ
unfolding get_req_field_value
get_req_field_uint63_value ta field_idx = do
  value ← get_req_field_value ta FieldType.uint63 field_idx
  as_uint63 value

unfoldable pub get_req_field_props_value : Ta → ℕ → Option Props
unfolding get_req_field_value
get_req_field_props_value ta field_idx = do
  value ← get_req_field_value ta FieldType.props field_idx
  as_props value

unfoldable pub get_req_field_str_value : Ta → ℕ → Option Str
unfolding get_req_field_value
get_req_field_str_value ta field_idx = do
  value ← get_req_field_value ta FieldType.str field_idx
  as_str value

unfoldable pub get_opt_req_field_str_value : Ta → ℕ → Option (Option Str)
unfolding get_opt_req_field_value
get_opt_req_field_str_value ta field_idx = do
  value ← get_opt_req_field_value ta FieldType.str field_idx
  elim value [ none ↦ some none | some found ↦ do text ← as_str found; some (some text) ]

module _ (J : Json) where
  open J use {Value}

  -- The end of proto_ta_req: the fields of the type are read, and there may be no others.
  unfoldable pub req_fields : Ta → TaType → Value → Ta × Bool
  req_fields ta type req_json = elim (Encoding.get_fields J req_json false type.req_fields) [
    | none ↦ (ta, false)
    | some (values, num_req_fields) ↦
        elim (Encoding.get_fields J req_json true type.opt_req_fields) [
          | none ↦ (ta, false)
          | some (opt_values, num_opt_req_fields) ↦
              let total_fields_visited =
                num_mandatory_fields + num_req_fields + num_opt_req_fields in
              if ltb total_fields_visited (J.object_size req_json) then (ta, false) else (
                record ta {
                  req_field_values = values;
                  opt_req_field_values = opt_values;
                  state = requested;
                },
                true,
              )
        ]
  ]

  -- The part of it behind the transaction id.
  unfoldable pub req_type : Ta → Value → Ta × Bool
  req_type ta req_json = elim (Encoding.get_typed J J.is_string req_json field_ta_cmd false) [
    | none ↦ (ta, false)
    | some none ↦ (ta, false)
    | some (some cmd) ↦
        if not (is_req (Encoding.get_msg_type J req_json))
        then (ta, false)
        else elim (lookup_type (J.string_value cmd)) [
          | none ↦ (record ta { type = none }, false)
          | some type ↦ req_fields (record ta { type = some type }) type req_json
        ]
  ]

  -- proto_ta_req: whether it returns 0. A field value that was read is freed again on an error.
  unfoldable pub req : Ta → Str → Option (Ta × Bool)
  req ta req_msg = do
    ut_assert (is_initialized ta.state)
    some (elim (J.loadb req_msg) [
      | none ↦ (ta, false)
      | some req_json ↦ elim (Encoding.get_uint63 J req_json field_ta_id) [
        | none ↦ (ta, false)
        | some ta_id ↦ req_type (record ta { ta_id = ta_id }) req_json
      ]
    ])

  -- The switch of produce_response: text, fields and optional fields.
  unfoldable pub response_fields : TaType → MsgType → Option (Str × List Field × List Field)
  response_fields type MsgType.accept = some (msg_type_accept, [], [])
  response_fields type MsgType.notify =
      some (msg_type_notify, type.notify_fields, type.opt_notify_fields)
  response_fields type MsgType.complete = some (msg_type_complete, type.complete_fields, [])
  response_fields type MsgType.fail = some (msg_type_fail, [], type.opt_fail_fields)
  response_fields type msg_type = none

  -- The arguments are those of the fields, then those of the optional fields; arguments that are left
  -- over are not read.
  unfoldable pub produce_response : Ta → MsgType → List (Option FieldValue) → Option Str
  unfolding response_fields
  produce_response ta msg_type args = do
    type ← ta.type
    (msg_type_str, fields, opt_fields) ← response_fields type msg_type
    let response = Encoding.create_response J type.cmd ta.ta_id msg_type_str
    (response₁, opt_args) ← Encoding.set_fields J response fields args
    response₂ ← Encoding.set_opt_fields J response₁ opt_fields opt_args
    some (J.dumps response₂)

  -- The message, and the transaction in its next state.
  unfoldable pub accept : Ta → Option (Str × Ta)
  accept ta = do
    type ← ta.type
    ut_assert (is_multi_response type.ia_type && is_requested ta.state)
    response ← produce_response ta MsgType.accept []
    some (response, record ta { state = accepted })

  unfoldable pub notify : Ta → List (Option FieldValue) → Option (Str × Ta)
  notify ta args = do
    type ← ta.type
    ut_assert (is_multi_response type.ia_type && is_accepted ta.state)
    response ← produce_response ta MsgType.notify args
    some (response, ta)

  unfoldable pub complete : Ta → List (Option FieldValue) → Option (Str × Ta)
  complete ta args = do
    type ← ta.type
    ut_assert (can_complete type.ia_type ta.state)
    response ← produce_response ta MsgType.complete args
    some (response, record ta { state = completed })

  unfoldable pub fail : Ta → List (Option FieldValue) → Option (Str × Ta)
  unfolding has_term
  fail ta args = do
    ut_assert (not (has_term ta))
    response ← produce_response ta MsgType.fail args
    some (response, record ta { state = failed })
