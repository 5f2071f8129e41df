-- ===== src/Proto/Notify/Safety.antt =====
-- The match callback of src/proto/proto_conn.c finds what it goes through: the connection that its
-- subscription was created with, and the accepted transaction of the subscription.
use tpaf.Prelude.{
  some-injective, ℕ, ◌≡◌, refl, sym, ap, ◌∙◌, subst, true, false, Option, none, some, List, [], ◌∷◌,
  ◌++◌, arith, ◌==◌, ==_iff, inl, inr, Bool-cases, if◌then◌else◌,
}
use tpaf.Prelude.Int.{ℤ, to_u64, is_nonneg}
use mathlib.Core.List.{reverse, reverse_aux}
use tpaf.Clib.Str.{Str}
use tpaf.Clib.Ftime.{is_since}
use tpaf.Util.Pmap
use tpaf.Util.Pmap.{Pmap, Entry}
use tpaf.Util.Pmap.Laws.{get-update}
use tpaf.Sd.Generation.{Generation}
use tpaf.Sd.Service.{Service}
use tpaf.Sd.Sub.{Sub, MatchType, appeared, modified, disappeared}
use tpaf.Sd.State.{Sd, MatchCall}
use tpaf.Sd.State
use tpaf.Sd.Orphans.Notify.{AllTell, nobody, with_call, calls_of}
use tpaf.Sd.Server.Activation.{AllMatch, nothing, also, appearances}
use tpaf.Proto.Json.{Json}
use tpaf.Proto.Encoding.{FieldValue, uint63, match_type, props}
use tpaf.Proto.Types.{FieldType, subscribe_ta}
use tpaf.Proto.Ta.{Ta, accepted}
use tpaf.Proto.Ta.Requests.{FitsAt, AllFit}
use tpaf.Proto.Ta.Writing.{notify_total}
use tpaf.Proto.World.{World, ProtoConn, for_each, put_conn, queue_response, await_update}
use tpaf.Proto.Notify.Messages.{match_text, notify-match_text}
use tpaf.Proto.Notify.{orphan_since, match_args, notify_sub_match, deliver, on_sd}
use mathlib.Core.Option

-- The connection that the callback of a subscription is called with is there, and has the
-- transaction of the subscription, which is an accepted one of `subscribe`.
pub record IsServed (w : World) (sub_id : ℤ) : Type 0 where
  pub target : ℕ
  pub own : ProtoConn
  pub sub_ta : Ta
  pub called_with : w.match_conns sub_id ≡ some target
  pub found : Pmap.get w.conns target ≡ some own
  pub has_ta : Pmap.get own.sub_tas (to_u64 sub_id) ≡ some sub_ta
  pub has_type : sub_ta.type ≡ some subscribe_ta
  pub is_accepted : sub_ta.state ≡ accepted

abbrev pub AllServed : World → Pmap Sub → Type 0
AllServed w [] = Unit {0}
AllServed w (e ∷ subs) = IsServed w e.value.sub_id × AllServed w subs

-- Arguments for the notification of a match, of the types of their fields.
pub record CanTell (m : MatchType) (service : Service) : Type 0 where
  pub args : List (Option FieldValue)
  pub opt_args : List (Option FieldValue)
  pub args_eq : match_args m service ≡ some (args ++ opt_args)
  pub fit : AllFit false subscribe_ta.notify_fields args
  pub opt_fit : AllFit true subscribe_ta.opt_notify_fields opt_args

abbrev pub AllReady : World → List MatchCall → Type 0
AllReady w [] = Unit {0}
AllReady w (call ∷ calls) =
    IsServed w call.sub_id × CanTell call.match_type call.service × AllReady w calls

-- A service that has a current generation with numbers that are not negative, whose timestamp is no
-- matter.
pub record IsPublic (service : Service) (g : Generation) : Type 0 where
  pub has_current : service.current ≡ some g
  pub id_nonneg : is_nonneg service.service_id ≡ true
  pub generation_nonneg : is_nonneg g.generation ≡ true
  pub ttl_nonneg : is_nonneg g.ttl ≡ true
  pub client_nonneg : is_nonneg g.client_id ≡ true

pub orphan_since-Fits : (g : Generation) → FitsAt true FieldType.number (orphan_since g)
unfolding orphan_since
orphan_since-Fits g = elim (Bool-cases (is_since g.orphan_since)) [
  | inl since ↦ rw since tt
  | inr not_since ↦ rw not_since refl
]

abbrev pub props_arg : Generation → Option FieldValue
props_arg g = Option.map props g.props

pub props_arg-Fits : (g : Generation) → FitsAt true FieldType.props (props_arg g)
props_arg-Fits g = elim g.props as (λ o. FitsAt true FieldType.props (Option.map props o)) [
  | none ↦ refl
  | some p ↦ tt
]

pub IsPublic-CanTell :
    (m : MatchType) (service : Service) (g : Generation) → IsPublic service g → CanTell m service
unfolding match_args
IsPublic-CanTell disappeared service g p = record {
  args = some (match_type disappeared) ∷ some (uint63 service.service_id) ∷ [];
  opt_args = none ∷ none ∷ none ∷ none ∷ none ∷ [];
  args_eq = refl;
  fit = (tt, (p.id_nonneg, tt));
  opt_fit = (refl, (refl, (refl, (refl, (refl, tt)))));
}
IsPublic-CanTell m service g p = record {
  args = some (match_type m) ∷ some (uint63 service.service_id) ∷ [];
  opt_args =
      some (uint63 g.generation)
      ∷ props_arg g
      ∷ some (uint63 g.ttl)
      ∷ some (uint63 g.client_id)
      ∷ orphan_since g
      ∷ [];
  args_eq = rw p.has_current refl;
  fit = (tt, (p.id_nonneg, tt));
  opt_fit = (
    p.generation_nonneg,
    (props_arg-Fits g, (p.ttl_nonneg, (p.client_nonneg, (orphan_since-Fits g, tt)))),
  );
}

-- A change of one connection that keeps its transaction of a subscription.
pub moved-IsServed :
    (w w' : World) (c : ℕ) (own own' : ProtoConn) (sub_id : ℤ)
    → Pmap.get w.conns c ≡ some own
    → Pmap.get w'.conns c ≡ some own'
    → ((d : ℕ) → (c == d) ≡ false → Pmap.get w'.conns d ≡ Pmap.get w.conns d)
    → w'.match_conns sub_id ≡ w.match_conns sub_id
    → Pmap.get own'.sub_tas (to_u64 sub_id) ≡ Pmap.get own.sub_tas (to_u64 sub_id)
    → IsServed w sub_id
    → IsServed w' sub_id
moved-IsServed w w' c own own' sub_id found found' rest same_target same_ta s =
    elim (Bool-cases (c == s.target)) [
      | inl hit ↦
          let same = (==_iff c s.target).0 hit in
          record {
            target = s.target;
            own = own';
            sub_ta = s.sub_ta;
            called_with = same_target ∙ s.called_with;
            found = subst (λ d. Pmap.get w'.conns d ≡ some own') same found';
            has_ta =
                same_ta
                ∙ ap (λ (o : ProtoConn). Pmap.get o.sub_tas (to_u64 sub_id))
                    (some-injective (sym found ∙ ap (Pmap.get w.conns) same ∙ s.found))
                ∙ s.has_ta;
            has_type = s.has_type;
            is_accepted = s.is_accepted;
          }
      | inr miss ↦ record {
        target = s.target;
        own = s.own;
        sub_ta = s.sub_ta;
        called_with = same_target ∙ s.called_with;
        found = rest s.target miss ∙ s.found;
        has_ta = s.has_ta;
        has_type = s.has_type;
        is_accepted = s.is_accepted;
      }
    ]

-- A message more in a queue takes nothing away.
queue-IsServed :
    (w : World) (c : ℕ) (other : ProtoConn) (msg : Str) (sub_id : ℤ)
    → Pmap.get w.conns c ≡ some other
    → IsServed w sub_id
    → IsServed (record w { conns = Pmap.update w.conns c (queue_response other msg) }) sub_id
unfolding queue_response await_update
queue-IsServed w c other msg sub_id found s =
    let changed = queue_response other msg in
    moved-IsServed w (record w { conns = Pmap.update w.conns c changed }) c other changed sub_id
      found (ground (arith, get-update w.conns c c changed other))
      (λ d miss. ground (arith, get-update w.conns c d changed other)) refl refl s

pub queue-AllReady :
    (w : World) (c : ℕ) (other : ProtoConn) (msg : Str) (calls : List MatchCall)
    → Pmap.get w.conns c ≡ some other
    → AllReady w calls
    → AllReady (record w { conns = Pmap.update w.conns c (queue_response other msg) }) calls
queue-AllReady w c other msg [] found a = tt
queue-AllReady w c other msg (call ∷ calls) found (s, t, a) = (
  queue-IsServed w c other msg call.sub_id found s,
  t,
  queue-AllReady w c other msg calls found a,
)

pub AllReady-reverse_aux :
    (w : World) (calls rest : List MatchCall)
    → AllReady w calls
    → AllReady w rest
    → AllReady w (reverse_aux calls rest)
AllReady-reverse_aux w [] rest a b = b
AllReady-reverse_aux w (call ∷ calls) rest (s, t, a) b =
    AllReady-reverse_aux w calls (call ∷ rest) a (s, t, b)

with_call-AllReady :
    (w : World) (service : Service) (sub : Sub) (calls : List MatchCall) (o : Option MatchType)
    → ((m : MatchType) → CanTell m service)
    → IsServed w sub.sub_id
    → AllReady w calls
    → AllReady w (with_call sub service o calls)
with_call-AllReady w service sub calls none t s a = a
with_call-AllReady w service sub calls (some m) t s a = (s, t m, a)

pub calls_of-AllReady :
    (w : World) (service : Service) (subs : Pmap Sub) (tell : AllTell service subs)
    (calls : List MatchCall)
    → ((m : MatchType) → CanTell m service)
    → AllServed w subs
    → AllReady w calls
    → AllReady w (calls_of tell calls)
unfolding calls_of
calls_of-AllReady w service _ nobody calls t s a = a
calls_of-AllReady w service _ (AllTell.also {e = e} {subs = subs} told tell) calls t (s, rest) a =
    calls_of-AllReady w service subs tell _ t rest (
      with_call-AllReady w service e.value calls (tpaf.Sd.Sub.match_type told.before told.after) t s
        a)

abbrev pub AllPublic : Pmap Service → Type 0
AllPublic [] = Unit {0}
AllPublic (e ∷ services) = ((g : Generation) × IsPublic e.value g) × AllPublic services

pub appearances-AllReady :
    (w : World) (target : Sub) (services : Pmap Service) (all : AllMatch target services)
    (calls : List MatchCall)
    → AllPublic services
    → IsServed w target.sub_id
    → AllReady w calls
    → AllReady w (appearances all calls)
unfolding appearances
appearances-AllReady w target _ nothing calls p s a = a
appearances-AllReady w target _ (also {e = e} {services = services} matched eq all) calls (p, ps) s
      a =
    appearances-AllReady w target services all _ ps s (
      with_call-AllReady w e.value target calls (if matched then some appeared else none)
        (λ m. IsPublic-CanTell m e.value p.0 p.1) s a)

module _ (J : Json) where
  -- A call of the callback whose subscription is served puts the text for the match into the queue
  -- of the subscription's connection.
  pub notify_sub_match_total :
      (call : MatchCall) (w : World)
      → (s : IsServed w call.sub_id) → CanTell call.match_type call.service
      → notify_sub_match J call w
        ≡ some (
          tt,
          record w {
            conns =
                Pmap.update w.conns s.target
                  (queue_response s.own (match_text J s.sub_ta.ta_id call.match_type call.service));
          },
        )
  unfolding notify_sub_match put_conn
  notify_sub_match_total call w s t =
      let (response, e) =
        notify_total J s.sub_ta subscribe_ta t.args t.opt_args s.has_type refl s.is_accepted t.fit
          t.opt_fit in
      let same : response ≡ match_text J s.sub_ta.ta_id call.match_type call.service =
        notify-match_text J s.sub_ta s.sub_ta call.match_type call.service (t.args ++ t.opt_args)
          response s.has_type t.args_eq e in
      ground (arith, s.called_with, s.found, s.has_ta, t.args_eq, e, same)

  -- Calls of the callback whose subscriptions are served all return, and every subscription that was
  -- served still is.
  pub deliver_total :
      (calls : List MatchCall) (w : World)
      → AllReady w calls
      → (w' : World) × (deliver J calls w ≡ some (tt, w'))
        × ((sub_id : ℤ) → IsServed w sub_id → IsServed w' sub_id)
  unfolding deliver for_each
  deliver_total [] w a = (w, refl, λ sub_id s. s)
  deliver_total (call ∷ calls) w (s, t, a) =
      let response = match_text J s.sub_ta.ta_id call.match_type call.service in
      let e = notify_sub_match_total call w s t in
      let w₁ = record w { conns = Pmap.update w.conns s.target (queue_response s.own response) } in
      let (w', h, keeps) =
        deliver_total calls w₁ (queue-AllReady w s.target s.own response calls s.found a) in
      (
        w',
        ground arith,
        λ sub_id k. keeps sub_id (queue-IsServed w s.target s.own response sub_id s.found k),
      )

  pub sd-IsServed :
      (w : World) (sd : Sd) (sub_id : ℤ)
      → IsServed w sub_id
      → IsServed (record w { sd = sd }) sub_id
  sd-IsServed w sd sub_id s = record {
    target = s.target;
    own = s.own;
    sub_ta = s.sub_ta;
    called_with = s.called_with;
    found = s.found;
    has_ta = s.has_ta;
    has_type = s.has_type;
    is_accepted = s.is_accepted;
  }

  pub sd-AllReady :
      (w : World) (sd : Sd) (calls : List MatchCall)
      → AllReady w calls
      → AllReady (record w { sd = sd }) calls
  sd-AllReady w sd [] a = tt
  sd-AllReady w sd (call ∷ calls) (s, t, a) =
      (sd-IsServed w sd call.sub_id s, t, sd-AllReady w sd calls a)

  -- An operation of the domain that returns, with calls whose subscriptions are served.
  pub on_sd_total :
      {A : Type 0} (operation : State.M A) (a : A) (w : World) (sd : Sd)
      → operation (record w.sd { calls = [] }) ≡ some (a, sd)
      → AllReady w sd.calls
      → (w' : World) × (deliver J (reverse sd.calls) (record w { sd = record sd { calls = [] } })
          ≡ some (tt, w'))
        × (on_sd J operation w ≡ some (a, w'))
        × ((sub_id : ℤ) → IsServed w sub_id → IsServed w' sub_id)
  unfolding on_sd
  on_sd_total operation a w sd did ready =
      let start = record w { sd = record sd { calls = [] } } in
      let (w', ran, keeps) =
        deliver_total (reverse sd.calls) start
          (sd-AllReady w _ (reverse sd.calls) (AllReady-reverse_aux w sd.calls [] ready tt)) in
      (w', ran, ground arith, λ sub_id s. keeps sub_id (sd-IsServed w _ sub_id s))
