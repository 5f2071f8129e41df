-- ===== src/Proto/Tests/Listings.antt =====
-- Listings at concrete states.
use tpaf.Prelude.{◌≡◌, refl, none, some, [], ◌∷◌, map}
use tpaf.Prelude.Int.{pos}
use tpaf.Util.Sequence
use tpaf.Util.Pmap
use tpaf.Sd.Server.Addition.{first}
use tpaf.Sd.Server.Tests.{entry, quiet, gen, watcher}
use tpaf.Proto.Names.{cmd_subscriptions, cmd_services}
use tpaf.Proto.Types.{subscriptions_ta, services_ta}
use tpaf.Proto.Ta
use tpaf.Proto.Ta.{Ta, accepted, completed}
use tpaf.Proto.World.{World, of_u64}
use tpaf.Proto.Conn.{handle_subscriptions, handle_services}
use tpaf.Proto.Conn.Listing.{Listed}
use tpaf.Proto.Conn.Listing.Messages.{keeps, end, unfiltered, sub_text, service_text}
use tpaf.Proto.Conn.Listing.Requests.{whole, handle_subscriptions-Listed, handle_services-Listed}
use tpaf.Proto.Tests.{
  J, ta_of, IsRequested-ta_of, subscriptions_known, services_known, publisher, served,
}

abbrev asking : Ta
asking = ta_of subscriptions_ta [] []

handle_subscriptions-Listed_example :
    (after : World) × (handle_subscriptions J 10 asking (served quiet)
      ≡ some (record asking { state = completed }, after))
    × Listed 10 publisher
        (whole J subscriptions_ta asking (map (sub_text J (pos 5)) (entry 3 watcher ∷ [])))
        (served quiet)
        after
unfolding Pmap.get Pmap.index_of Sequence.index_of of_u64
handle_subscriptions-Listed_example =
    handle_subscriptions-Listed J 10 publisher asking (served quiet) refl
      (IsRequested-ta_of subscriptions_ta [] [] cmd_subscriptions subscriptions_known tt tt)
      (refl, refl, tt)

abbrev looking : Ta
looking = ta_of services_ta [] (none ∷ [])

handle_services-Listed_example :
    (after : World) × (handle_services J 10 looking (served quiet)
      ≡ some (record looking { state = completed }, after))
    × Listed 10 publisher
        (whole J services_ta looking
          (map (service_text J (pos 5)) (entry 7 (first (pos 7) gen) ∷ [])))
        (served quiet)
        after
unfolding Pmap.get Pmap.index_of Sequence.index_of of_u64 Ta.get_opt_req_field_str_value
    Ta.get_opt_req_field_value Ta.get_value Ta.type_eq
handle_services-Listed_example =
    handle_services-Listed J 10 publisher looking (served quiet) none none
      (entry 7 (first (pos 7) gen) ∷ []) refl
      (IsRequested-ta_of services_ta [] (none ∷ []) cmd_services services_known tt (refl, tt)) refl
      refl (keeps unfiltered end)
      (
        record {
          generation = gen;
          properties = [];
          public = record {
            has_current = refl;
            id_nonneg = refl;
            generation_nonneg = refl;
            ttl_nonneg = refl;
            client_nonneg = refl;
          };
          has_props = refl;
          key_nonneg = refl;
        },
        tt,
      )
