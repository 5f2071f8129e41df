-- ===== src/Proto/Encoding.antt =====
-- src/proto/proto_ta.c: what becomes of the fields of a message: get_fields and set_field, with the
-- values that they read and write. A JSON object is a value of the JSON library `J`.
pub mod Properties
use tpaf.Prelude.{
  ◌≡◌, Bool, true, false, not, Option, none, some, List, [], ◌∷◌, ℕ, ◌+◌, suc, if◌then◌else◌, ltb,
}
use tpaf.Prelude.Int.{ℤ, is_nonneg}
use tpaf.Clib.Str.{Str, str_eq}
use tpaf.Clib.Ftime.{Ftime}
use tpaf.Sd.Props
use tpaf.Sd.Props.{Props}
use tpaf.Sd.Pvalue.{Pvalue, int64}
use tpaf.Sd.Pvalue
use tpaf.Sd.Sub.{MatchType, appeared, modified, disappeared}
use tpaf.Proto.Json.{Json}
use tpaf.Proto.Names.{
  msg_type_req, msg_type_accept, msg_type_notify, msg_type_complete, msg_type_fail, field_ta_cmd,
  field_ta_id, field_msg_type, match_type_appeared, match_type_modified, match_type_disappeared,
}
use tpaf.Proto.Types
use tpaf.Proto.Types.{FieldType, Field}

-- What a `void *` of the field values points to.
pub data FieldValue : Type 0 where
  str : Str → FieldValue
  uint63 : ℤ → FieldValue
  number : Ftime → FieldValue
  props : Props → FieldValue
  match_type : MatchType → FieldValue

pub data MsgType : Type 0 where
  req accept notify complete fail undefined : MsgType

infixl 5 ◌>>=◌
abbrev pub ◌>>=◌ : {A B : Type 0} → Option A → (A → Option B) → Option B
none >>= f = none
some a >>= f = f a

-- `none` is -1.
unfoldable pub match_type_to_enum : Str → Option MatchType
match_type_to_enum text =
    if str_eq text match_type_appeared
    then some appeared
    else if str_eq text match_type_modified
    then some modified
    else if str_eq text match_type_disappeared
    then some disappeared
    else none

unfoldable pub enum_to_match_type : MatchType → Str
enum_to_match_type appeared = match_type_appeared
enum_to_match_type modified = match_type_modified
enum_to_match_type disappeared = match_type_disappeared

abbrev count : Option FieldValue → ℕ → ℕ
count none n = n
count (some v) n = suc n

module _ (J : Json) where
  open J use {Value}

  -- The outer `none` is -1, the inner one a NULL `*value`.
  unfoldable pub get_json : Value → Str → Bool → Option (Option Value)
  get_json msg name opt = elim (J.object_get msg name) [
    | none ↦ if not opt then none else some none
    | some value ↦ some (some value)
  ]

  -- GEN_TYPED_GET, over the test of the type.
  unfoldable pub get_typed : (Value → Bool) → Value → Str → Bool → Option (Option Value)
  unfolding get_json
  get_typed is_type msg name opt = do
    found ← get_json msg name opt
    elim found [
      | none ↦ some none
      | some value ↦ if not (is_type value) then none else some (some value)
    ]

  unfoldable pub get_uint63 : Value → Str → Option ℤ
  unfolding get_typed
  get_uint63 msg name = do
    found ← get_typed J.is_integer msg name false
    json_value ← found
    if not (is_nonneg (J.integer_value json_value)) then none else some (J.integer_value json_value)

  unfoldable pub get_msg_type : Value → MsgType
  unfolding get_typed
  get_msg_type msg = elim (get_typed J.is_string msg field_msg_type false) [
    | none ↦ undefined
    | some none ↦ undefined
    | some (some value) ↦
        let text = J.string_value value in
        if str_eq text msg_type_req
        then req
        else if str_eq text msg_type_accept
        then accept
        else if str_eq text msg_type_notify
        then notify
        else if str_eq text msg_type_complete
        then complete
        else if str_eq text msg_type_fail
        then fail
        else undefined
  ]

  unfoldable pub json_to_pvalue : Value → Option Pvalue
  json_to_pvalue value =
      if J.is_integer value
      then some (int64 (J.integer_value value))
      else if J.is_string value
      then some (Pvalue.str (J.string_value value))
      else none

  -- The loop over the values of one name.
  unfoldable pub add_values : Str → List Value → Props → Option Props
  unfolding json_to_pvalue
  add_values prop_name [] found = some found
  add_values prop_name (value ∷ values) found = do
    prop_value ← json_to_pvalue value
    add_values prop_name values (Props.add found prop_name prop_value)

  -- The loop over the names.
  unfoldable pub add_names : List (Str × Value) → Props → Option Props
  unfolding add_values
  add_names [] found = some found
  add_names ((prop_name, values) ∷ entries) found =
      if not (J.is_array values)
      then none
      else do found' ← add_values prop_name (J.elements values) found; add_names entries found'

  unfoldable pub json_to_props : Value → Option Props
  unfolding add_names
  json_to_props json_props = add_names (J.entries json_props) Props.create

  -- What get_fields makes of a value, which its typed get has let through.
  unfoldable pub read_value : FieldType → Value → Option FieldValue
  unfolding json_to_props
  read_value FieldType.uint63 value =
      if not (is_nonneg (J.integer_value value))
      then none
      else some (uint63 (J.integer_value value))
  read_value FieldType.number value = some (number (J.number_value value))
  read_value FieldType.str value = some (str (J.string_value value))
  read_value FieldType.props value = do found ← json_to_props value; some (props found)
  read_value FieldType.match_type value = do
    found ← match_type_to_enum (J.string_value value)
    some (match_type found)

  -- The typed get of a field type.
  unfoldable pub is_of_type : FieldType → Value → Bool
  is_of_type FieldType.uint63 = J.is_integer
  is_of_type FieldType.number = J.is_number
  is_of_type FieldType.str = J.is_string
  is_of_type FieldType.props = J.is_object
  is_of_type FieldType.match_type = J.is_string

  -- One round of get_fields: `some none` leaves the argument NULL.
  unfoldable pub get_field : Value → Bool → Field → Option (Option FieldValue)
  unfolding get_typed is_of_type read_value
  get_field response opt f = do
    found ← get_typed (is_of_type f.type) response f.name opt
    elim found [ none ↦ some none | some value ↦ do arg ← read_value f.type value; some (some arg) ]

  -- The field values and how many are not NULL; `none` is -1, with the values freed.
  unfoldable pub get_fields : Value → Bool → List Field → Option (List (Option FieldValue) × ℕ)
  unfolding get_field
  get_fields response opt [] = some ([], 0)
  get_fields response opt (f ∷ fields) = do
    arg ← get_field response opt f
    (field_values, num) ← get_fields response opt fields
    some (arg ∷ field_values, count arg num)

  -- json_object_set_new and json_array_append_new: NULL is refused, and changes nothing.
  unfoldable pub object_set_new : Value → Str → Option Value → Value
  object_set_new object name none = object
  object_set_new object name (some value) = J.object_set object name value

  unfoldable pub array_append_new : Value → Option Value → Value
  array_append_new array none = array
  array_append_new array (some value) = J.array_append array value

  unfoldable pub pvalue_to_json : Pvalue → Option Value
  pvalue_to_json (int64 value) = some (J.integer value)
  pvalue_to_json (Pvalue.str value) = J.string value

  -- The list of a name, which is a new one for NULL.
  abbrev pub or_array : Option Value → Value
  or_array none = J.array
  or_array (some value_list) = value_list

  unfoldable pub prop_to_json : Value → Str → Pvalue → Value
  unfolding pvalue_to_json array_append_new
  prop_to_json json_props prop_name prop_value =
      let value_list = or_array (J.object_get json_props prop_name) in
      J.object_set json_props prop_name (array_append_new value_list (pvalue_to_json prop_value))

  unfoldable pub props_to_json_loop : Value → Props → Value
  unfolding prop_to_json
  props_to_json_loop json_props [] = json_props
  props_to_json_loop json_props ((prop_name, prop_value) ∷ rest) =
      props_to_json_loop (prop_to_json json_props prop_name prop_value) rest

  unfoldable pub props_to_json : Props → Value
  unfolding props_to_json_loop
  props_to_json given = props_to_json_loop J.object given

  -- The JSON value that set_field puts in. The outer `none` is a fault: a failed assertion, or an
  -- argument of another type than the field's. The inner one is NULL.
  unfoldable pub write_value : FieldType → FieldValue → Option (Option Value)
  unfolding props_to_json enum_to_match_type
  write_value FieldType.uint63 (uint63 value) =
      if is_nonneg value then some (some (J.integer value)) else none
  write_value FieldType.number (number value) = some (J.real value)
  write_value FieldType.str (str value) = some (J.string value)
  write_value FieldType.props (props value) = some (some (props_to_json value))
  write_value FieldType.match_type (match_type value) = some (J.string (enum_to_match_type value))
  write_value type value = none

  -- A NULL argument is a fault but for a string, which json_string takes and makes NULL of.
  unfoldable pub set_field : Value → Field → Option FieldValue → Option Value
  unfolding write_value object_set_new
  set_field request f none = elim f.type [
    | FieldType.str ↦ some (object_set_new request f.name none)
    | _ ↦ none
  ]
  set_field request f (some field_value) = do
    value ← write_value f.type field_value
    some (object_set_new request f.name value)

  -- The loops of produce_response, over the arguments that are left: one for each field, of which
  -- those of the optional ones may be NULL. What va_arg reads behind the last argument is a fault.
  unfoldable pub set_fields :
      Value → List Field → List (Option FieldValue) → Option (Value × List (Option FieldValue))
  unfolding set_field
  set_fields response [] args = some (response, args)
  set_fields response (f ∷ fields) [] = none
  set_fields response (f ∷ fields) (arg ∷ args) = do
    response' ← set_field response f arg
    set_fields response' fields args

  unfoldable pub set_opt_fields : Value → List Field → List (Option FieldValue) → Option Value
  unfolding set_field
  set_opt_fields response [] args = some response
  set_opt_fields response (f ∷ fields) [] = none
  set_opt_fields response (f ∷ fields) (none ∷ args) = set_opt_fields response fields args
  set_opt_fields response (f ∷ fields) (some arg ∷ args) = do
    response' ← set_field response f (some arg)
    set_opt_fields response' fields args

  unfoldable pub create_response : Str → ℤ → Str → Value
  unfolding object_set_new
  create_response cmd ta_id msg_type_str =
      let with_cmd = object_set_new J.object field_ta_cmd (J.string cmd) in
      let with_id = object_set_new with_cmd field_ta_id (some (J.integer ta_id)) in
      object_set_new with_id field_msg_type (J.string msg_type_str)
