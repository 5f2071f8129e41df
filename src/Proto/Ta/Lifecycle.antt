-- ===== src/Proto/Ta/Lifecycle.antt =====
-- The state machine of src/proto/proto_ta.c: which responses a transaction may have, in which order.
use tpaf.Prelude.{
  ◌≡◌, ◌⊎◌, inl, inr, refl, ap, ◌∙◌, Bool, true, false, Option, some, List, [], ◌∷◌, arith,
}
use tpaf.Clib.Str.{Str}
use tpaf.Proto.Json.{Json}
use tpaf.Proto.Types.{IaType, single_response, multi_response, TaType}
use tpaf.Proto.Encoding.{FieldValue, MsgType}
use tpaf.Proto.Ta
use tpaf.Proto.Ta.{Ta, TaState, requested, accepted, completed, failed, has_term}

-- What the protocol allows behind an accept: notifications, and at most one end.
unfoldable pub continues : List MsgType → Bool
continues [] = true
continues (MsgType.notify ∷ msgs) = continues msgs
continues (MsgType.complete ∷ []) = true
continues (MsgType.fail ∷ []) = true
continues (msg ∷ msgs) = false

-- The responses, so far, to a request of each kind.
unfoldable pub is_allowed : IaType → List MsgType → Bool
unfolding continues
is_allowed ia_type [] = true
is_allowed ia_type (MsgType.fail ∷ []) = true
is_allowed single_response (MsgType.complete ∷ []) = true
is_allowed multi_response (MsgType.accept ∷ msgs) = continues msgs
is_allowed ia_type (msg ∷ msgs) = false

-- Whether the last response ends the transaction.
unfoldable pub is_end : List MsgType → Bool
is_end [] = false
is_end (MsgType.complete ∷ []) = true
is_end (MsgType.fail ∷ []) = true
is_end (msg ∷ msgs) = is_end msgs

ia_cases : (ia_type : IaType) → (ia_type ≡ single_response) ⊎ (ia_type ≡ multi_response)
ia_cases single_response = inl refl
ia_cases multi_response = inr refl

module _ (J : Json) where
  -- A call of one of the four response functions, which returned.
  pub data Responds (ta ta' : Ta) : MsgType → Type 0 where
    accepts :
        (response : Str) → Ta.accept J ta ≡ some (response, ta') → Responds ta ta' MsgType.accept
    notifies :
        (args : List (Option FieldValue)) (response : Str)
        → Ta.notify J ta args ≡ some (response, ta')
        → Responds ta ta' MsgType.notify
    completes :
        (args : List (Option FieldValue)) (response : Str)
        → Ta.complete J ta args ≡ some (response, ta')
        → Responds ta ta' MsgType.complete
    fails :
        (args : List (Option FieldValue)) (response : Str)
        → Ta.fail J ta args ≡ some (response, ta')
        → Responds ta ta' MsgType.fail

  pub data Run : Ta → List MsgType → Ta → Type 0 where
    stop : {ta : Ta} → Run ta [] ta
    next :
        {ta ta' ta'' : Ta} {msg : MsgType} {msgs : List MsgType}
        → Responds ta ta' msg
        → Run ta' msgs ta''
        → Run ta (msg ∷ msgs) ta''

  accept_lem :
      (ta ta' : Ta) (type : TaType) (response : Str)
      → ta.type ≡ some type
      → Ta.accept J ta ≡ some (response, ta')
      → (type.ia_type ≡ multi_response)
        × (ta.state ≡ requested)
        × (ta'.type ≡ some type)
        × (ta'.state ≡ accepted)
  unfolding Ta.accept
  accept_lem ta ta' type response t e = ground arith

  notify_lem :
      (ta ta' : Ta) (type : TaType) (args : List (Option FieldValue)) (response : Str)
      → ta.type ≡ some type
      → Ta.notify J ta args ≡ some (response, ta')
      → (type.ia_type ≡ multi_response) × (ta.state ≡ accepted) × (ta' ≡ ta)
  unfolding Ta.notify
  notify_lem ta ta' type args response t e = ground arith

  complete_lem :
      (ta ta' : Ta) (type : TaType) (args : List (Option FieldValue)) (response : Str)
      → ta.type ≡ some type
      → Ta.complete J ta args ≡ some (response, ta')
      → (((type.ia_type ≡ single_response) × (ta.state ≡ requested))
          ⊎ ((type.ia_type ≡ multi_response) × (ta.state ≡ accepted)))
        × (ta'.type ≡ some type)
        × (ta'.state ≡ completed)
  unfolding Ta.complete
  complete_lem ta ta' type args response t e = elim (ia_cases type.ia_type) [
    | inl single ↦ (inl (single, ground arith), ground arith, ground arith)
    | inr multi ↦ (inr (multi, ground arith), ground arith, ground arith)
  ]

  fail_lem :
      (ta ta' : Ta) (args : List (Option FieldValue)) (response : Str)
      → Ta.fail J ta args ≡ some (response, ta')
      → (has_term ta ≡ false) × (ta'.type ≡ ta.type) × (ta'.state ≡ failed)
  unfolding Ta.fail
  fail_lem ta ta' args response e = ground arith

  terminated-Run :
      (ta ta' : Ta) (type : TaType) (msgs : List MsgType)
      → ta.type ≡ some type
      → (ta.state ≡ completed) ⊎ (ta.state ≡ failed)
      → Run ta msgs ta'
      → (msgs ≡ []) × (ta' ≡ ta)
  unfolding has_term
  terminated-Run ta ta' type [] t h stop = (refl, refl)
  terminated-Run ta ta' type (msg ∷ msgs) t h (next (accepts response e) run) =
      ground (arith, accept_lem ta _ type response t e)
  terminated-Run ta ta' type (msg ∷ msgs) t h (next (notifies args response e) run) =
      ground (arith, notify_lem ta _ type args response t e)
  terminated-Run ta ta' type (msg ∷ msgs) t h (next (completes args response e) run) =
      ground (arith, complete_lem ta _ type args response t e)
  terminated-Run ta ta' type (msg ∷ msgs) t h (next (fails args response e) run) =
      ground (arith, fail_lem ta _ args response e)

  accepted-Run :
      (ta ta' : Ta) (type : TaType) (msgs : List MsgType)
      → ta.type ≡ some type
      → ta.state ≡ accepted
      → type.ia_type ≡ multi_response
      → Run ta msgs ta'
      → (continues msgs ≡ true) × (has_term ta' ≡ is_end msgs)
  unfolding has_term continues is_end
  accepted-Run ta ta' type [] t h m stop = (refl, ground arith)
  accepted-Run ta ta' type (msg ∷ msgs) t h m (next (accepts response e) run) =
      ground (arith, accept_lem ta _ type response t e)
  accepted-Run ta ta' type (msg ∷ msgs) t h m (next {ta' = now} (notifies args response e) run) =
      let (_, _, same) = notify_lem ta now type args response t e in
      accepted-Run now ta' type msgs (ap (λ (x : Ta). x.type) same ∙ t)
        (ap (λ (x : Ta). x.state) same ∙ h) m run
  accepted-Run ta ta' type (msg ∷ msgs) t h m (next {ta' = now} (completes args response e) run) =
      let (_, t', h') = complete_lem ta now type args response t e in
      ground (arith, terminated-Run now ta' type msgs t' (inl h') run)
  accepted-Run ta ta' type (msg ∷ msgs) t h m (next {ta' = now} (fails args response e) run) =
      let (_, t', h') = fail_lem ta now args response e in
      ground (arith, terminated-Run now ta' type msgs (t' ∙ t) (inr h') run)

  -- The responses to a request, in whatever order the functions are called, are those that the
  -- protocol allows: to a single-response request one `complete` or one `fail` at most, to a
  -- multi-response request an `accept`, any number of `notify` and at most one `complete` or `fail`,
  -- or a `fail` alone. The transaction has terminated exactly when the last of them was a `complete`
  -- or a `fail`.
  pub Run-IsAllowed :
      (ta ta' : Ta) (type : TaType) (msgs : List MsgType)
      → ta.type ≡ some type
      → ta.state ≡ requested
      → Run ta msgs ta'
      → (is_allowed type.ia_type msgs ≡ true) × (has_term ta' ≡ is_end msgs)
  unfolding has_term is_allowed is_end
  Run-IsAllowed ta ta' type [] t h stop = (refl, ground arith)
  Run-IsAllowed ta ta' type (msg ∷ msgs) t h (next {ta' = now} (accepts response e) run) =
      let (m, _, t', h') = accept_lem ta now type response t e in
      let (c, n) = accepted-Run now ta' type msgs t' h' m run in rw m (c, n)
  Run-IsAllowed ta ta' type (msg ∷ msgs) t h (next {ta' = now} (notifies args response e) run) =
      ground (arith, notify_lem ta now type args response t e)
  Run-IsAllowed ta ta' type (msg ∷ msgs) t h (next {ta' = now} (completes args response e) run) =
      let (can, t', h') = complete_lem ta now type args response t e in
      ground (arith, terminated-Run now ta' type msgs t' (inl h') run)
  Run-IsAllowed ta ta' type (msg ∷ msgs) t h (next {ta' = now} (fails args response e) run) =
      let (_, t', h') = fail_lem ta now args response e in
      ground (arith, terminated-Run now ta' type msgs (t' ∙ t) (inr h') run)
