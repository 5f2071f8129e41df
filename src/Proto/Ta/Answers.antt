-- ===== src/Proto/Ta/Answers.antt =====
-- The messages that src/proto/proto_ta.c makes of responses with no fields but a reason, and that it
-- makes them whenever the state allows.
use tpaf.Prelude.{
  ◌≡◌, ◌⊎◌, refl, true, false, some, List, [], ◌∷◌, arith, inl, inr, Bool-cases, subst,
}
use tpaf.Prelude.Int.{ℤ}
use tpaf.Clib.Str.{Str, str_eq}
use tpaf.Proto.Json.{Json}
use tpaf.Proto.Names.{field_fail_reason, msg_type_accept, msg_type_complete, msg_type_fail}
use tpaf.Proto.Types.{FieldType, Field, multi_response, TaType, ta_types, find_type, lookup_type}
use tpaf.Proto.Encoding
use tpaf.Proto.Encoding.{FieldValue, str}
use tpaf.Proto.Ta
use tpaf.Proto.Ta.{
  Ta, TaState, requested, accepted, completed, failed, has_term, can_complete, produce_response,
  response_fields,
}

-- The fields of a failure: a reason, or none.
abbrev pub reason_field : Field
reason_field = record { name = field_fail_reason; type = FieldType.str }

abbrev pub CanFail : TaType → Type 0
CanFail type = (type.opt_fail_fields ≡ []) ⊎ (type.opt_fail_fields ≡ reason_field ∷ [])

abbrev All : List TaType → Type 0
All [] = Unit {0}
All (type ∷ types) = CanFail type × All types

find_type-CanFail :
    (types : List TaType) (cmd : Str) (type : TaType)
    → All types
    → find_type types cmd ≡ some type
    → CanFail type
unfolding find_type
find_type-CanFail [] cmd type a e = absurd (ground arith)
find_type-CanFail (t ∷ types) cmd type a e = elim (Bool-cases (str_eq t.cmd cmd)) [
  | inl hit ↦ let same : t ≡ type = ground arith in subst CanFail same a.0
  | inr miss ↦ find_type-CanFail types cmd type a.1 (ground arith)
]

pub lookup_type-CanFail : (cmd : Str) (type : TaType) → lookup_type cmd ≡ some type → CanFail type
unfolding lookup_type
lookup_type-CanFail cmd type e =
    find_type-CanFail ta_types cmd type
      (
        inr refl,
        (
          inr refl,
          (inr refl, (inr refl, (inr refl, (inr refl, (inr refl, (inl refl, (inr refl, tt))))))),
        ),
      )
      e

module _ (J : Json) where
  open J use {Value}

  -- A response with no fields of its own.
  abbrev pub plain : TaType → ℤ → Str → Str
  plain type ta_id msg_type = J.dumps (Encoding.create_response J type.cmd ta_id msg_type)

  abbrev with_reason : List Field → Str → Value → Value
  with_reason [] reason response = response
  with_reason (f ∷ fields) reason response =
      Encoding.object_set_new J response field_fail_reason (J.string reason)

  -- A failure, which has its reason if the type has a field for it.
  abbrev pub failure : TaType → ℤ → Str → Str
  failure type ta_id reason = J.dumps (
      with_reason type.opt_fail_fields reason
        (Encoding.create_response J type.cmd ta_id msg_type_fail))

  module _ (ta : Ta) (type : TaType) (t : ta.type ≡ some type) where
    pub accept_total :
        type.ia_type ≡ multi_response
        → ta.state ≡ requested
        → Ta.accept J ta
          ≡ some (plain type ta.ta_id msg_type_accept, record ta { state = accepted })
    unfolding Ta.accept produce_response response_fields Encoding.set_fields Encoding.set_opt_fields
    accept_total m s = ground arith

    pub complete_total :
        type.complete_fields ≡ []
        → can_complete type.ia_type ta.state ≡ true
        → Ta.complete J ta []
          ≡ some (plain type ta.ta_id msg_type_complete, record ta { state = completed })
    unfolding Ta.complete produce_response response_fields Encoding.set_fields
        Encoding.set_opt_fields
    complete_total c s = ground arith

    pub fail_total :
        (reason : Str)
        → CanFail type
        → has_term ta ≡ false
        → Ta.fail J ta (some (str reason) ∷ [])
          ≡ some (failure type ta.ta_id reason, record ta { state = failed })
    unfolding Ta.fail produce_response response_fields Encoding.set_fields Encoding.set_opt_fields
    fail_total reason (inl e) s = ground arith
    fail_total reason (inr e) s = ground arith
