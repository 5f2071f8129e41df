-- ===== src/Proto/Ta/Requests.antt =====
-- What proto_ta_req of src/proto/proto_ta.c lets through: the fields of an accepted request have
-- values of their types, which the getters then find.
use tpaf.Prelude.{
  some-injective, ◌≡◌, ◌≤◌, ◌+◌, refl, subst, Bool, true, false, Option, none, some, List, [], ◌∷◌,
  ℕ, zero, suc, arith, inl, inr, Option-cases, get_elem?,
}
use tpaf.Prelude.Int.{ℤ, is_nonneg}
use tpaf.Clib.Str.{Str}
use tpaf.Sd.Props.{Props}
use tpaf.Proto.Json.{Json}
use tpaf.Proto.Names.{field_ta_id, field_ta_cmd, num_mandatory_fields}
use tpaf.Proto.Types.{FieldType, Field, TaType, lookup_type}
use tpaf.Proto.Encoding
use tpaf.Proto.Encoding.{
  FieldValue, uint63, number, str, props, match_type, read_value, get_field, get_fields,
}
use tpaf.Proto.Ta
use tpaf.Proto.Ta.{
  Ta, requested, req, req_type, req_fields, type_eq, get_value, get_req_field_value,
  get_req_field_uint63_value, get_req_field_props_value, get_opt_req_field_value,
  get_opt_req_field_str_value,
}

-- A value of the type; an integer is not negative.
abbrev pub Fits : FieldType → FieldValue → Type 0
Fits FieldType.uint63 (uint63 z) = is_nonneg z ≡ true
Fits FieldType.number (number t) = Unit {0}
Fits FieldType.str (str s) = Unit {0}
Fits FieldType.props (props p) = Unit {0}
Fits FieldType.match_type (match_type m) = Unit {0}
Fits type value = ⊥

-- The field values of a table, of which NULL is allowed for optional fields.
abbrev pub FitsAt : Bool → FieldType → Option FieldValue → Type 0
FitsAt opt type none = opt ≡ true
FitsAt opt type (some value) = Fits type value

abbrev pub AllFit : Bool → List Field → List (Option FieldValue) → Type 0
AllFit opt [] [] = Unit {0}
AllFit opt [] (v ∷ values) = ⊥
AllFit opt (f ∷ fields) [] = ⊥
AllFit opt (f ∷ fields) (v ∷ values) = FitsAt opt f.type v × AllFit opt fields values

abbrev counted : Option FieldValue → ℕ
counted none = 0
counted (some v) = 1

abbrev pub count : List (Option FieldValue) → ℕ
count [] = 0
count (v ∷ values) = counted v + count values

value_at :
    (opt : Bool) (fields : List Field) (values : List (Option FieldValue)) (i : ℕ) (f : Field)
    → AllFit opt fields values
    → get_elem? fields i ≡ some f
    → (v : Option FieldValue) × (get_elem? values i ≡ some v) × FitsAt opt f.type v
value_at opt [] [] i f a e = absurd (ground arith)
value_at opt [] (v ∷ values) i f a e = absurd a
value_at opt (g ∷ fields) [] i f a e = absurd a
value_at opt (g ∷ fields) (v ∷ values) zero f a e =
    (v, refl, subst (λ (h : Field). FitsAt opt h.type v) (some-injective e) a.0)
value_at opt (g ∷ fields) (v ∷ values) (suc i) f a e = value_at opt fields values i f a.1 e

type_eq_refl : (type : FieldType) → type_eq type type ≡ true
unfolding type_eq
type_eq_refl FieldType.str = refl
type_eq_refl FieldType.uint63 = refl
type_eq_refl FieldType.number = refl
type_eq_refl FieldType.props = refl
type_eq_refl FieldType.match_type = refl

module _ (J : Json) where
  open J use {Value}

  read_value-Fits :
      (type : FieldType) (j : Value) (v : FieldValue) → read_value J type j ≡ some v → Fits type v
  unfolding read_value
  read_value-Fits FieldType.uint63 j v e = ground arith
  read_value-Fits FieldType.number j v e = ground arith
  read_value-Fits FieldType.str j v e = ground arith
  read_value-Fits FieldType.props j v e = ground arith
  read_value-Fits FieldType.match_type j v e = ground arith

  get_field-Fits :
      (msg : Value) (opt : Bool) (f : Field) (v : Option FieldValue)
      → get_field J msg opt f ≡ some v
      → FitsAt opt f.type v
  unfolding get_field Encoding.get_typed Encoding.get_json
  get_field-Fits msg opt f none e = ground arith
  get_field-Fits msg opt f (some v) e = elim (Option-cases (J.object_get msg f.name)) [
    | inl missing ↦ absurd (ground arith)
    | inr (j, found) ↦
        let r : read_value J f.type j ≡ some v = ground arith in read_value-Fits f.type j v r
  ]

  pub get_fields-AllFit :
      (msg : Value) (opt : Bool) (fields : List Field) (values : List (Option FieldValue)) (n : ℕ)
      → get_fields J msg opt fields ≡ some (values, n)
      → AllFit opt fields values × (n ≡ count values)
  unfolding get_fields
  get_fields-AllFit msg opt [] [] n e = ground arith
  get_fields-AllFit msg opt [] (v ∷ values) n e = absurd (ground arith)
  get_fields-AllFit msg opt (f ∷ fields) [] n e = absurd (ground arith)
  get_fields-AllFit msg opt (f ∷ fields) (v ∷ values) n e =
      elim (Option-cases (get_field J msg opt f)) [
        | inl missing ↦ absurd (ground arith)
        | inr (u, found) ↦ elim (Option-cases (get_fields J msg opt fields)) [
          | inl missing ↦ absurd (ground arith)
          | inr ((us, m), rest) ↦
              let same : v ≡ u = ground arith in
              let sames : values ≡ us = ground arith in
              let (fits, num) = get_fields-AllFit msg opt fields us m rest in
              rw (same, sames) ((get_field-Fits msg opt f u found, fits), ground arith)
        ]
      ]

  get_uint63-nonneg :
      (j : Value) (name : Str) (z : ℤ) → Encoding.get_uint63 J j name ≡ some z → is_nonneg z ≡ true
  unfolding Encoding.get_uint63
  get_uint63-nonneg j name z e = ground arith

  -- A request that was accepted.
  pub record IsRequested (ta : Ta) (type : TaType) : Type 0 where
    pub has_type : ta.type ≡ some type
    pub in_table : (cmd : Str) × (lookup_type cmd ≡ some type)
    pub requested : ta.state ≡ Ta.requested
    pub has_id : is_nonneg ta.ta_id ≡ true
    pub req_fit : AllFit false type.req_fields ta.req_field_values
    pub opt_req_fit : AllFit true type.opt_req_fields ta.opt_req_field_values

  req_fields-IsRequested :
      (ta ta' : Ta) (type : TaType) (cmd : Str) (j : Value)
      → ta.type ≡ some type
      → lookup_type cmd ≡ some type
      → is_nonneg ta.ta_id ≡ true
      → req_fields J ta type j ≡ (ta', true)
      → IsRequested ta' type
        × (J.object_size j
            ≤ num_mandatory_fields + count ta'.req_field_values + count ta'.opt_req_field_values)
  unfolding req_fields
  req_fields-IsRequested ta ta' type cmd j t l i e =
      elim (Option-cases (get_fields J j false type.req_fields)) [
        | inl missing ↦ absurd (ground arith)
        | inr ((values, n), got) ↦ elim (Option-cases (get_fields J j true type.opt_req_fields)) [
          | inl missing ↦ absurd (ground arith)
          | inr ((opt_values, m), opt_got) ↦
              let (fit, num) = get_fields-AllFit j false type.req_fields values n got in
              let (opt_fit, opt_num) =
                get_fields-AllFit j true type.opt_req_fields opt_values m opt_got in
              let same : ta' ≡ record ta {
                req_field_values = values;
                opt_req_field_values = opt_values;
                state = requested;
              } =
                ground arith in
              rw same (
                record {
                  has_type = t;
                  in_table = (cmd, l);
                  requested = refl;
                  has_id = i;
                  req_fit = fit;
                  opt_req_fit = opt_fit;
                },
                ground arith,
              )
        ]
      ]

  -- The number of the members of the message, which is bounded by that of the fields read.
  abbrev pub HasNoOthers : Ta → Value → Type 0
  HasNoOthers ta j =
      J.object_size j
      ≤ num_mandatory_fields + count ta.req_field_values + count ta.opt_req_field_values

  req_type-IsRequested :
      (ta ta' : Ta) (j : Value)
      → is_nonneg ta.ta_id ≡ true
      → req_type J ta j ≡ (ta', true)
      → (type : TaType) × IsRequested ta' type × HasNoOthers ta' j
  unfolding req_type
  req_type-IsRequested ta ta' j i e =
      elim (Option-cases (Encoding.get_typed J J.is_string j field_ta_cmd false)) [
        | inl missing ↦ absurd (ground arith)
        | inr (none, got) ↦ absurd (ground arith)
        | inr (some cmd, got) ↦ elim (Option-cases (lookup_type (J.string_value cmd))) [
          | inl unknown ↦ absurd (ground arith)
          | inr (type, known) ↦
              let r : req_fields J (record ta { type = some type }) type j ≡ (ta', true) =
                ground arith in
              let (is, others) =
                req_fields-IsRequested (record ta { type = some type }) ta' type
                  (J.string_value cmd) j refl known i r in
              (type, is, others)
        ]
      ]

  -- What holds of the transaction of a request for which proto_ta_req returns 0: its state and id, and
  -- for each field of its type a value of the field's type, or NULL where the field is optional.
  pub req-IsRequested :
      (ta' : Ta) (msg : Str)
      → req J Ta.create msg ≡ some (ta', true)
      → (j : Value) × (type : TaType) × (J.loadb msg ≡ some j)
        × IsRequested ta' type
        × HasNoOthers ta' j
  unfolding req Ta.create
  req-IsRequested ta' msg e = elim (Option-cases (J.loadb msg)) [
    | inl bad ↦ absurd (ground arith)
    | inr (j, loaded) ↦ elim (Option-cases (Encoding.get_uint63 J j field_ta_id)) [
      | inl missing ↦ absurd (ground arith)
      | inr (ta_id, got) ↦
          let r : req_type J (record Ta.create { ta_id = ta_id }) j ≡ (ta', true) = ground arith in
          let (type, is, others) =
            req_type-IsRequested (record Ta.create { ta_id = ta_id }) ta' j
              (get_uint63-nonneg j field_ta_id ta_id got) r in
          (j, type, loaded, is, others)
    ]
  ]

  required :
      (ta : Ta) (type : TaType) (i : ℕ) (f : Field)
      → IsRequested ta type
      → (v : Option FieldValue) × (get_elem? ta.req_field_values i ≡ some v) × FitsAt false f.type v
      → get_elem? type.req_fields i ≡ some f
      → (v : FieldValue) × (get_req_field_value ta f.type i ≡ some v) × Fits f.type v
  unfolding get_req_field_value get_value
  required ta type i f r (none, at, fits) field_at = absurd (ground arith)
  required ta type i f r (some v, at, fits) field_at =
      (v, ground (arith, r.has_type, type_eq_refl f.type), fits)

  optional :
      (ta : Ta) (type : TaType) (i : ℕ) (f : Field)
      → IsRequested ta type
      → (o : Option FieldValue) × (get_elem? ta.opt_req_field_values i ≡ some o)
        × FitsAt true f.type o
      → get_elem? type.opt_req_fields i ≡ some f
      → (o : Option FieldValue) × (get_opt_req_field_value ta f.type i ≡ some o)
        × FitsAt true f.type o
  unfolding get_opt_req_field_value get_value
  optional ta type i f r (o, at, fits) field_at =
      (o, ground (arith, r.has_type, type_eq_refl f.type), fits)

  as_uint63 :
      (ta : Ta) (i : ℕ)
      → (v : FieldValue) × (get_req_field_value ta FieldType.uint63 i ≡ some v)
        × Fits FieldType.uint63 v
      → (z : ℤ) × (get_req_field_uint63_value ta i ≡ some z) × (is_nonneg z ≡ true)
  unfolding get_req_field_uint63_value
  as_uint63 ta i (uint63 z, got, fits) = (z, ground arith, fits)
  as_uint63 ta i (v, got, fits) = absurd fits

  as_props :
      (ta : Ta) (i : ℕ)
      → (v : FieldValue) × (get_req_field_value ta FieldType.props i ≡ some v)
        × Fits FieldType.props v
      → (p : Props) × (get_req_field_props_value ta i ≡ some p)
  unfolding get_req_field_props_value
  as_props ta i (props p, got, fits) = (p, ground arith)
  as_props ta i (v, got, fits) = absurd fits

  as_opt_str :
      (ta : Ta) (i : ℕ)
      → (o : Option FieldValue) × (get_opt_req_field_value ta FieldType.str i ≡ some o)
        × FitsAt true FieldType.str o
      → (o : Option Str) × (get_opt_req_field_str_value ta i ≡ some o)
  unfolding get_opt_req_field_str_value
  as_opt_str ta i (none, got, fits) = (none, ground arith)
  as_opt_str ta i (some (str s), got, fits) = (some s, ground arith)
  as_opt_str ta i (some v, got, fits) = absurd fits

  -- A getter of a required field of an accepted request, for whichever field of the table and with
  -- the type that the field has there, fails no assertion and finds a value of that type.
  pub get_req_field_value_total :
      (ta : Ta) (type : TaType) (i : ℕ) (f : Field)
      → IsRequested ta type
      → get_elem? type.req_fields i ≡ some f
      → (v : FieldValue) × (get_req_field_value ta f.type i ≡ some v) × Fits f.type v
  get_req_field_value_total ta type i f r at =
      required ta type i f r (value_at false type.req_fields ta.req_field_values i f r.req_fit at)
        at

  -- That of an optional field finds such a value, or NULL.
  pub get_opt_req_field_value_total :
      (ta : Ta) (type : TaType) (i : ℕ) (f : Field)
      → IsRequested ta type
      → get_elem? type.opt_req_fields i ≡ some f
      → (o : Option FieldValue) × (get_opt_req_field_value ta f.type i ≡ some o)
        × FitsAt true f.type o
  get_opt_req_field_value_total ta type i f r at =
      optional ta type i f r
        (value_at true type.opt_req_fields ta.opt_req_field_values i f r.opt_req_fit at) at

  pub uint63_value :
      (ta : Ta) (type : TaType) (i : ℕ) (name : Str)
      → IsRequested ta type
      → get_elem? type.req_fields i ≡ some (record { name = name; type = FieldType.uint63 })
      → (z : ℤ) × (get_req_field_uint63_value ta i ≡ some z) × (is_nonneg z ≡ true)
  uint63_value ta type i name r at = as_uint63 ta i (get_req_field_value_total ta type i _ r at)

  pub props_value :
      (ta : Ta) (type : TaType) (i : ℕ) (name : Str)
      → IsRequested ta type
      → get_elem? type.req_fields i ≡ some (record { name = name; type = FieldType.props })
      → (p : Props) × (get_req_field_props_value ta i ≡ some p)
  props_value ta type i name r at = as_props ta i (get_req_field_value_total ta type i _ r at)

  pub opt_str_value :
      (ta : Ta) (type : TaType) (i : ℕ) (name : Str)
      → IsRequested ta type
      → get_elem? type.opt_req_fields i ≡ some (record { name = name; type = FieldType.str })
      → (o : Option Str) × (get_opt_req_field_str_value ta i ≡ some o)
  opt_str_value ta type i name r at =
      as_opt_str ta i (get_opt_req_field_value_total ta type i _ r at)
