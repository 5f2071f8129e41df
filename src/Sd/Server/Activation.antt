-- ===== src/Sd/Server/Activation.antt =====
-- A new subscription is told of the services that are there: sd_activate_sub of src/sd/sd.c.
use tpaf.Prelude.{◌≡◌, refl, Bool, true, false, none, some, List, [], ◌∷◌, arith, if◌then◌else◌}
use tpaf.Prelude.Int.{ℤ}
use tpaf.Util.Pmap.{Pmap, Entry}
use tpaf.Sd.Service.{Service}
use tpaf.Sd.Sub.{Sub, generation_matches, notify, appeared}
use tpaf.Sd.Conn.{Conn}
use tpaf.Sd.State.{Sd, Client, MatchCall, get_client, get_sub, for_each}
use tpaf.Sd.Orphans.{sub_notify, record_call}
use tpaf.Sd.Orphans.Notify.{with_call}
use tpaf.Sd.Subscribe.{notify_sub_service_added}
use tpaf.Sd.Subscribe
use tpaf.Sd.Server

-- Whether the subscription can tell if it matches each of the services.
pub data AllMatch (target : Sub) : Pmap Service → Type 0 where
  nothing : AllMatch target []
  also :
      {e : Entry Service} {services : Pmap Service} (matched : Bool)
      → generation_matches target e.value.current ≡ some matched
      → AllMatch target services
      → AllMatch target (e ∷ services)

-- The calls for the services that it matches, the last one first, in front of the earlier calls.
unfoldable pub appearances :
    {target : Sub} {services : Pmap Service}
    → AllMatch target services
    → List MatchCall
    → List MatchCall
appearances nothing calls = calls
appearances {target = target} (also {e = e} matched eq rest) calls =
    appearances rest (with_call target e.value (if matched then some appeared else none) calls)

added-told :
    (sub_id : ℤ) (target : Sub) (e : Entry Service) (matched : Bool) (s : Sd)
    → generation_matches target e.value.current ≡ some matched
    → notify_sub_service_added sub_id target e s
      ≡ some (
        tt,
        record s {
          calls = with_call target e.value (if matched then some appeared else none) s.calls;
        },
      )
unfolding notify_sub_service_added sub_notify notify record_call
added-told sub_id target e true s h = ground arith
added-told sub_id target e false s h = ground arith

notify_added :
    (sub_id : ℤ) (target : Sub) (services : Pmap Service) (s : Sd)
    → (all : AllMatch target services)
    → for_each (notify_sub_service_added sub_id target) services s
      ≡ some (tt, record s { calls = appearances all s.calls })
unfolding for_each appearances
notify_added sub_id target _ s nothing = refl
notify_added sub_id target _ s (also {e = e} {services = services} matched eq all) = ground (
  arith,
  added-told sub_id target e matched s eq,
  notify_added sub_id target services
      (record s {
        calls = with_call target e.value (if matched then some appeared else none) s.calls;
      })
      all,
)

-- Activating a subscription of a connected client calls its match_cb with `appeared` for each service
-- of the domain that it matches, in their order, and changes nothing; its filter has to be one that
-- can be matched against every service.
pub activate_sub_lem :
    (id sub_id : ℤ) (s : Sd) (c : Client) (conn : Conn) (target : Sub) (services : Pmap Service)
    → s.db.services ≡ services
    → get_client id s ≡ some c
    → c.active_conn ≡ some conn
    → get_sub sub_id s ≡ some target
    → (all : AllMatch target services)
    → Server.activate_sub id sub_id s ≡ some (tt, record s { calls = appearances all s.calls })
unfolding Server.activate_sub Subscribe.activate_sub
activate_sub_lem id sub_id s c conn target services same hc ha hs all =
    ground (arith, notify_added sub_id target services s all)
