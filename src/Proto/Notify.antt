-- ===== src/Proto/Notify.antt =====
-- src/proto/proto_conn.c: the match callback of the subscriptions, and the operations of the domain
-- as a connection calls them. The domain calls the callback in the midst of an operation; the
-- callback changes connections alone, which the operation does not read, so the calls are carried
-- out behind the operation, in their order.
pub mod Growth
pub mod Quiet
pub mod Messages
pub mod Safety
pub mod Delivery
use tpaf.Prelude.{Bool, true, false, if◌then◌else◌, Option, none, some, List, [], ◌∷◌}
use tpaf.Prelude.Int.{ℤ, to_u64}
use mathlib.Core.List.{reverse}
use mathlib.Core.Option
use tpaf.Util.Pmap
use tpaf.Sd.Service
use tpaf.Sd.Service.{Service}
use tpaf.Sd.Generation.{Generation}
use tpaf.Sd.Sub.{MatchType, disappeared, appeared, modified}
use tpaf.Sd.State.{Sd, MatchCall}
use tpaf.Sd.State
use tpaf.Proto.Json.{Json}
use tpaf.Proto.Encoding.{FieldValue, uint63, number, props, match_type}
use tpaf.Proto.Ta
use tpaf.Proto.Ta.{Ta}
use tpaf.Proto.World.{
  World, W, ◌>>=◌, ◌>>◌, pure, lift, for_each, conn, put_conn, get_world, queue_response,
}

-- The getters of a service go through its current generation, which is a fault without one.
unfoldable pub orphan_since : Generation → Option FieldValue
orphan_since g =
    if tpaf.Clib.Ftime.is_since g.orphan_since then some (number g.orphan_since) else none

abbrev pub service_args : Generation → List (Option FieldValue)
service_args g =
    some (uint63 g.generation)
    ∷ Option.map props g.props
    ∷ some (uint63 g.ttl)
    ∷ some (uint63 g.client_id)
    ∷ orphan_since g
    ∷ []

-- The arguments of proto_ta_notify for a match.
unfoldable pub match_args : MatchType → Service → Option (List (Option FieldValue))
unfolding orphan_since
match_args disappeared service = some (
    some (match_type disappeared)
    ∷ some (uint63 service.service_id)
    ∷ none
    ∷ none
    ∷ none
    ∷ none
    ∷ none
    ∷ [])
match_args type service =
    Option.map (λ g. some (match_type type) ∷ some (uint63 service.service_id) ∷ service_args g)
      service.current

module _ (J : Json) where
  unfoldable pub notify_sub_match : MatchCall → W (Unit {0})
  unfolding match_args
  notify_sub_match call = do
    w ← get_world
    c ← lift (w.match_conns call.sub_id)
    own ← conn c
    sub_ta ← lift (Pmap.get own.sub_tas (to_u64 call.sub_id))
    args ← lift (match_args call.match_type call.service)
    (response, sub_ta') ← lift (Ta.notify J sub_ta args)
    put_conn c (queue_response own response)

  unfoldable pub deliver : List MatchCall → W (Unit {0})
  unfolding for_each notify_sub_match
  deliver calls = for_each notify_sub_match calls

  -- An operation of the domain, and its calls of the callback.
  unfoldable pub on_sd : {A : Type 0} → State.M A → W A
  on_sd operation w = elim (operation (record w.sd { calls = [] })) [
    | none ↦ none
    | some (a, sd) ↦
        (do deliver (reverse sd.calls); pure a) (record w { sd = record sd { calls = [] } })
  ]
