-- ===== src/Proto/Ta/Reading.antt =====
-- proto_ta_req of src/proto/proto_ta.c against the JSON message: what an accepted request says, member by
-- member.
use tpaf.Prelude.{
  ◌≡◌, ◌≤◌, ◌+◌, refl, subst, ℕ, Bool, true, false, Option, none, some, List, [], ◌∷◌, arith, inl,
  inr, Option-cases, Bool-cases,
}
use tpaf.Prelude.Int.{is_nonneg}
use tpaf.Clib.Str.{Str, str_eq}
use tpaf.Proto.Json.{Json}
use tpaf.Proto.Names.{msg_type_req, num_mandatory_fields, field_ta_cmd, field_ta_id, field_msg_type}
use tpaf.Proto.Types.{FieldType, Field, TaType, ta_types, find_type, lookup_type}
use tpaf.Proto.Encoding
use tpaf.Proto.Encoding.{
  FieldValue, uint63, number, str, props, match_type, MsgType, read_value, is_of_type, get_field,
  get_fields, json_to_props, enum_to_match_type, match_type_to_enum,
}
use tpaf.Proto.Ta
use tpaf.Proto.Ta.{Ta, requested, req, req_type, req_fields}
use tpaf.Proto.Ta.Requests.{count, get_fields-AllFit}

module _ (J : Json) where
  open J use {Value}

  -- The value that a JSON value of the type of a field stands for.
  abbrev pub Denotes : FieldType → Value → FieldValue → Type 0
  Denotes FieldType.uint63 j (uint63 z) =
      (J.is_integer j ≡ true) × (J.integer_value j ≡ z) × (is_nonneg z ≡ true)
  Denotes FieldType.number j (number t) = (J.is_number j ≡ true) × (J.number_value j ≡ t)
  Denotes FieldType.str j (str s) = (J.is_string j ≡ true) × (J.string_value j ≡ s)
  Denotes FieldType.props j (props p) = (J.is_object j ≡ true) × (json_to_props J j ≡ some p)
  Denotes FieldType.match_type j (match_type m) =
      (J.is_string j ≡ true) × (match_type_to_enum (J.string_value j) ≡ some m)
  Denotes type j value = ⊥

  -- The value of a field is what the member of its name stands for; only for an optional field it may
  -- be NULL, which it is if there is no such member.
  abbrev pub ReadFrom : Value → Bool → Field → Option FieldValue → Type 0
  ReadFrom msg opt f none = (opt ≡ true) × (J.object_get msg f.name ≡ none)
  ReadFrom msg opt f (some value) =
      (j : Value) × (J.object_get msg f.name ≡ some j) × Denotes f.type j value

  abbrev pub AllReadFrom : Value → Bool → List Field → List (Option FieldValue) → Type 0
  AllReadFrom msg opt [] [] = Unit {0}
  AllReadFrom msg opt [] (v ∷ values) = ⊥
  AllReadFrom msg opt (f ∷ fields) [] = ⊥
  AllReadFrom msg opt (f ∷ fields) (v ∷ values) =
      ReadFrom msg opt f v × AllReadFrom msg opt fields values

  -- What a message has to say to be accepted, and the transaction that is made of it.
  pub record IsRead (msg : Str) (ta : Ta) (type : TaType) : Type 0 where
    pub json : Value
    pub loaded : J.loadb msg ≡ some json
    pub msg_type : Value
    pub msg_type_at : J.object_get json field_msg_type ≡ some msg_type
    pub is_request : J.is_string msg_type ≡ true
    pub says_request : str_eq (J.string_value msg_type) msg_type_req ≡ true
    pub cmd : Value
    pub cmd_at : J.object_get json field_ta_cmd ≡ some cmd
    pub cmd_is_string : J.is_string cmd ≡ true
    pub cmd_eq : str_eq type.cmd (J.string_value cmd) ≡ true
    pub known : lookup_type (J.string_value cmd) ≡ some type
    pub has_type : ta.type ≡ some type
    pub id : Value
    pub id_at : J.object_get json field_ta_id ≡ some id
    pub has_id : Denotes FieldType.uint63 id (uint63 ta.ta_id)
    pub state : ta.state ≡ Ta.requested
    pub required : AllReadFrom json false type.req_fields ta.req_field_values
    pub optional : AllReadFrom json true type.opt_req_fields ta.opt_req_field_values
    pub few :
        J.object_size json
        ≤ num_mandatory_fields + count ta.req_field_values + count ta.opt_req_field_values

  read_value-Denotes :
      (type : FieldType) (j : Value) (v : FieldValue)
      → is_of_type J type j ≡ true
      → read_value J type j ≡ some v
      → Denotes type j v
  unfolding read_value is_of_type
  read_value-Denotes FieldType.uint63 j v i e = ground arith
  read_value-Denotes FieldType.number j v i e = ground arith
  read_value-Denotes FieldType.str j v i e = ground arith
  read_value-Denotes FieldType.props j v i e = ground arith
  read_value-Denotes FieldType.match_type j v i e = ground arith

  get_field-ReadFrom :
      (msg : Value) (opt : Bool) (f : Field) (v : Option FieldValue)
      → get_field J msg opt f ≡ some v
      → ReadFrom msg opt f v
  unfolding get_field Encoding.get_typed Encoding.get_json
  get_field-ReadFrom msg opt f none e = ground arith
  get_field-ReadFrom msg opt f (some v) e = elim (Option-cases (J.object_get msg f.name)) [
    | inl missing ↦ absurd (ground arith)
    | inr (j, found) ↦ elim (Bool-cases (is_of_type J f.type j)) [
      | inl is ↦ (j, found, read_value-Denotes f.type j v is (ground arith))
      | inr not_is ↦ absurd (ground arith)
    ]
  ]

  get_fields-AllReadFrom :
      (msg : Value) (opt : Bool) (fields : List Field) (values : List (Option FieldValue)) (n : ℕ)
      → get_fields J msg opt fields ≡ some (values, n)
      → AllReadFrom msg opt fields values
  unfolding get_fields
  get_fields-AllReadFrom msg opt [] [] n e = ground arith
  get_fields-AllReadFrom msg opt [] (v ∷ values) n e = absurd (ground arith)
  get_fields-AllReadFrom msg opt (f ∷ fields) [] n e = absurd (ground arith)
  get_fields-AllReadFrom msg opt (f ∷ fields) (v ∷ values) n e =
      elim (Option-cases (get_field J msg opt f)) [
        | inl bad ↦ absurd (ground arith)
        | inr (u, found) ↦ elim (Option-cases (get_fields J msg opt fields)) [
          | inl bad ↦ absurd (ground arith)
          | inr ((others, m), rest) ↦
              let same : v ≡ u = ground arith in
              let sames : values ≡ others = ground arith in
              rw (same, sames)
                (
                  get_field-ReadFrom msg opt f u found,
                  get_fields-AllReadFrom msg opt fields others m rest,
                )
        ]
      ]

  find_type-cmd :
      (types : List TaType) (cmd : Str) (type : TaType)
      → find_type types cmd ≡ some type
      → str_eq type.cmd cmd ≡ true
  unfolding find_type
  find_type-cmd [] cmd type e = absurd (ground arith)
  find_type-cmd (t ∷ types) cmd type e = elim (Bool-cases (str_eq t.cmd cmd)) [
    | inl hit ↦ let same : t ≡ type = ground arith in subst (λ x. str_eq x.cmd cmd ≡ true) same hit
    | inr miss ↦ find_type-cmd types cmd type (ground arith)
  ]

  -- The texts and numbers behind the fields of the type.
  req_type-IsRead :
      (msg : Str) (ta ta' : Ta) (json id : Value)
      → J.loadb msg ≡ some json
      → J.object_get json field_ta_id ≡ some id
      → Denotes FieldType.uint63 id (uint63 ta.ta_id)
      → req_type J ta json ≡ (ta', true)
      → (type : TaType) × IsRead msg ta' type
  unfolding req_type req_fields Encoding.get_typed Encoding.get_json Encoding.get_msg_type
      lookup_type
  req_type-IsRead msg ta ta' json id loaded id_at has_id e =
      elim (Option-cases (J.object_get json field_ta_cmd)) [
        | inl bad ↦ absurd (ground arith)
        | inr (cmd, cmd_at) ↦ elim (Option-cases (J.object_get json field_msg_type)) [
          | inl bad ↦ absurd (ground arith)
          | inr (msg_type, msg_type_at) ↦ elim (Option-cases (lookup_type (J.string_value cmd))) [
            | inl bad ↦ absurd (ground arith)
            | inr (type, known) ↦ elim (Option-cases (get_fields J json false type.req_fields)) [
              | inl bad ↦ absurd (ground arith)
              | inr ((values, n), got) ↦
                  elim (Option-cases (get_fields J json true type.opt_req_fields)) [
                    | inl bad ↦ absurd (ground arith)
                    | inr ((opt_values, m), opt_got) ↦
                        let same : ta' ≡ record ta {
                          type = some type;
                          req_field_values = values;
                          opt_req_field_values = opt_values;
                          state = requested;
                        } =
                          ground arith in
                        (
                          type,
                          rw same (record {
                            json = json;
                            loaded = loaded;
                            msg_type = msg_type;
                            msg_type_at = msg_type_at;
                            is_request = ground arith;
                            says_request = ground arith;
                            cmd = cmd;
                            cmd_at = cmd_at;
                            cmd_is_string = ground arith;
                            cmd_eq = find_type-cmd ta_types (J.string_value cmd) type known;
                            known = known;
                            has_type = refl;
                            id = id;
                            id_at = id_at;
                            has_id = has_id;
                            state = refl;
                            required =
                                get_fields-AllReadFrom json false type.req_fields values n got;
                            optional =
                                get_fields-AllReadFrom json true type.opt_req_fields opt_values m
                                  opt_got;
                            few = ground (
                              arith,
                              get_fields-AllFit J json false type.req_fields values n got,
                              get_fields-AllFit J json true type.opt_req_fields opt_values m
                                  opt_got,
                            );
                          }),
                        )
                  ]
            ]
          ]
        ]
      ]

  -- A request for which proto_ta_req returns 0 is a JSON message of the type `request`, whose command is
  -- that of the transaction's type and whose id, an integer that is not negative, is the transaction's.
  -- Each field of the type has the value of the member of its name, which is of the field's JSON type;
  -- an optional one is NULL if there is no such member. The count of members that json_object_size gives
  -- for the message is at most that of the three and of the fields that are not NULL.
  pub req-IsRead :
      (ta : Ta) (msg : Str)
      → req J Ta.create msg ≡ some (ta, true)
      → (type : TaType) × IsRead msg ta type
  unfolding req Ta.create Encoding.get_uint63 Encoding.get_typed Encoding.get_json
  req-IsRead ta msg e = elim (Option-cases (J.loadb msg)) [
    | inl bad ↦ absurd (ground arith)
    | inr (json, loaded) ↦ elim (Option-cases (J.object_get json field_ta_id)) [
      | inl missing ↦ absurd (ground arith)
      | inr (id, id_at) ↦
          let start = record Ta.create { ta_id = J.integer_value id } in
          req_type-IsRead msg start ta json id loaded id_at (ground arith, refl, ground arith)
            (ground arith)
    ]
  ]
