-- ===== src/Proto/Ta/Writing.antt =====
-- produce_response of src/proto/proto_ta.c: arguments of the types of the fields are written without a
-- fault.
use tpaf.Prelude.{◌≡◌, refl, true, false, Option, none, some, List, [], ◌∷◌, ◌++◌, arith}
use tpaf.Clib.Str.{Str}
use tpaf.Proto.Json.{Json}
use tpaf.Proto.Names.{msg_type_notify}
use tpaf.Proto.Types.{FieldType, Field, multi_response, TaType}
use tpaf.Proto.Encoding.{
  FieldValue, uint63, number, str, props, match_type, write_value, set_field, set_fields,
  set_opt_fields, create_response, object_set_new, props_to_json, enum_to_match_type,
}
use tpaf.Proto.Ta
use tpaf.Proto.Ta.{Ta, accepted, produce_response, response_fields}
use tpaf.Proto.Ta.Requests.{Fits, AllFit}

module _ (J : Json) where
  open J use {Value}

  write_value_total :
      (type : FieldType) (v : FieldValue)
      → Fits type v
      → (o : Option Value) × (write_value J type v ≡ some o)
  unfolding write_value
  write_value_total FieldType.uint63 (uint63 z) f = (some (J.integer z), ground arith)
  write_value_total FieldType.number (number t) f = (J.real t, refl)
  write_value_total FieldType.str (str s) f = (J.string s, refl)
  write_value_total FieldType.props (props p) f = (some (props_to_json J p), refl)
  write_value_total FieldType.match_type (match_type m) f = (J.string (enum_to_match_type m), refl)
  write_value_total type v f = absurd f

  set_field_total :
      (response : Value) (f : Field) (v : FieldValue)
      → Fits f.type v
      → (o : Value) × (set_field J response f (some v) ≡ some o)
  unfolding set_field
  set_field_total response f v fits =
      let (value, e) = write_value_total f.type v fits in
      (object_set_new J response f.name value, ground arith)

  set_fields_total :
      (response : Value) (fields : List Field) (args rest : List (Option FieldValue))
      → AllFit false fields args
      → (o : Value) × (set_fields J response fields (args ++ rest) ≡ some (o, rest))
  unfolding set_fields
  set_fields_total response [] [] rest a = (response, refl)
  set_fields_total response [] (v ∷ args) rest a = absurd a
  set_fields_total response (f ∷ fields) [] rest a = absurd a
  set_fields_total response (f ∷ fields) (none ∷ args) rest a = absurd (ground arith)
  set_fields_total response (f ∷ fields) (some v ∷ args) rest a =
      let (o, e) = set_field_total response f v a.0 in
      let (p, h) = set_fields_total o fields args rest a.1 in (p, ground arith)

  set_opt_fields_total :
      (response : Value) (fields : List Field) (args : List (Option FieldValue))
      → AllFit true fields args
      → (o : Value) × (set_opt_fields J response fields args ≡ some o)
  unfolding set_opt_fields
  set_opt_fields_total response [] [] a = (response, refl)
  set_opt_fields_total response [] (v ∷ args) a = absurd a
  set_opt_fields_total response (f ∷ fields) [] a = absurd a
  set_opt_fields_total response (f ∷ fields) (none ∷ args) a =
      set_opt_fields_total response fields args a.1
  set_opt_fields_total response (f ∷ fields) (some v ∷ args) a =
      let (o, e) = set_field_total response f v a.0 in
      let (p, h) = set_opt_fields_total o fields args a.1 in (p, ground arith)

  -- A transaction that has been accepted makes a notification of every list of arguments of the types
  -- of its fields, of which those of the optional fields may be NULL, and stays as it is.
  pub notify_total :
      (ta : Ta) (type : TaType) (args opt_args : List (Option FieldValue))
      → ta.type ≡ some type
      → type.ia_type ≡ multi_response
      → ta.state ≡ accepted
      → AllFit false type.notify_fields args
      → AllFit true type.opt_notify_fields opt_args
      → (response : Str) × (Ta.notify J ta (args ++ opt_args) ≡ some (response, ta))
  unfolding Ta.notify produce_response response_fields
  notify_total ta type args opt_args t m s fit opt_fit =
      let start = create_response J type.cmd ta.ta_id msg_type_notify in
      let (o, e) = set_fields_total start type.notify_fields args opt_args fit in
      let (p, h) = set_opt_fields_total o type.opt_notify_fields opt_args opt_fit in
      (J.dumps p, ground arith)
