-- ===== src/Sd/Server/Tests/Endings.antt =====
-- Unpublishing, disconnecting and the expiry of orphans, of src/sd/client.c, on concrete states.
use tpaf.Prelude.{◌≡◌, refl, true, false, none, some, [], ◌∷◌, arith}
use tpaf.Prelude.Int.{pos}
use tpaf.Clib.Ftime.{at}
use tpaf.Util.Sequence
use tpaf.Util.Pmap
use tpaf.Util.Pmap.{Pmap, Entry}
use tpaf.Sd.Generation
use tpaf.Sd.Generation.{Generation}
use tpaf.Sd.Service.{Service}
use tpaf.Sd.Sub
use tpaf.Sd.Sub.{Sub}
use tpaf.Sd.Sub.Laws.{shows}
use tpaf.Sd.Conn
use tpaf.Sd.Conn.{Conn}
use tpaf.Sd.State.{Sd}
use tpaf.Sd.Server.Orphan.{IsOrphan}
use tpaf.Sd.Orphans.Notify.{AllTell, calls_of}
use tpaf.Sd.Client
use tpaf.Sd.Client.{Rc, ConnRef, modify_service}
use tpaf.Sd.Server
use tpaf.Sd.Server.Addition.{first}
use tpaf.Sd.Server.Removal.{Removed, unpublish-own}
use tpaf.Sd.Client.Inactivation.{one_more, no_more}
use tpaf.Sd.Server.Disconnection.{IsLeaving, Disconnected, client_disconnect_lem}
use tpaf.Sd.Server.Expiry.{Expired, orphan_timeout_lem}
use tpaf.Sd.Service.Laws.{each}
use tpaf.Sd.Server.Tests.{
  dead_line, entry, gen, gone, idle, line, orphan, orphaned_world, owner, quiet, quiet-IsReady,
  told, watcher,
}

abbrev service_gone : Service
service_gone = record (first (pos 7) gen) { prev = some gen; current = none }

told_gone : AllTell service_gone (entry 3 watcher ∷ [])
unfolding shows Sub.generation_matches Sub.matches
told_gone = told service_gone true false refl refl

unpublish-own_example :
    (t : Sd) × (Server.unpublish (pos 1) (pos 7) quiet ≡ some (Rc.ok, t))
    × (t.calls ≡ calls_of told_gone [])
    × Removed (pos 1) (pos 7) quiet t owner (line (entry 7 (pos 7) ∷ []) [])
unfolding Pmap.get Pmap.index_of Sequence.index_of Conn.is_connected Pmap.has_key
unpublish-own_example =
    unpublish-own (pos 1) (pos 7) quiet owner (line (entry 7 (pos 7) ∷ []) []) (first (pos 7) gen)
      gen
      (record {
        found = refl;
        id_eq = refl;
        id_nonneg = refl;
        idle = idle gen;
        current_eq = refl;
        client_eq = refl;
        conn_eq = refl;
        connected = refl;
        held_id = pos 7;
        held = refl;
        held_distinct = (tt, tt);
        services_distinct = (tt, tt);
        timer = refl;
        timers = tt;
      })
      refl refl told_gone

abbrev service_expired : Service
service_expired = record (first (pos 7) orphan) { prev = some orphan; current = none }

told_expired : AllTell service_expired (entry 3 watcher ∷ [])
unfolding shows Sub.generation_matches Sub.matches
told_expired = told service_expired true false refl refl

orphan-IsOrphan :
    IsOrphan (pos 1) (pos 7) 0 orphaned_world gone dead_line (first (pos 7) orphan) orphan
unfolding Pmap.get Pmap.index_of Sequence.index_of Pmap.has_key Client.get_service_conn
    Client.find_inactive Conn.has_service
orphan-IsOrphan = record {
  found = refl;
  id_eq = refl;
  id_nonneg = refl;
  idle = idle orphan;
  current_eq = refl;
  owner_eq = refl;
  orphan = refl;
  client_eq = refl;
  client_id_eq = refl;
  client_nonneg = refl;
  away = refl;
  place = refl;
  conn_eq = refl;
  held_id = pos 7;
  held = refl;
  held_distinct = (tt, tt);
  services_distinct = (tt, tt);
  clients_distinct = ((λ e. absurd (omega arith), tt), (tt, tt));
  timer = refl;
  timers = (tt, tt);
}

orphan_timeout_lem_example :
    (t : Sd) × (Server.orphan_timeout (pos 7) orphaned_world ≡ some (tt, t))
    × (t.calls ≡ calls_of told_expired [])
    × Expired (pos 1) (pos 7) 0 orphaned_world t gone dead_line
unfolding Pmap.get Pmap.index_of Sequence.index_of Pmap.has_key Client.get_service_conn
    Client.find_inactive Conn.has_service
orphan_timeout_lem_example =
    orphan_timeout_lem (pos 1) (pos 7) 0 orphaned_world gone dead_line (first (pos 7) orphan) orphan
      orphan-IsOrphan told_expired

abbrev pub service_left : Service
service_left = record (first (pos 7) gen) {
  prev = some gen;
  current = some (record gen { orphan_since = at (pos 10) });
}

told_left : AllTell service_left (entry 3 watcher ∷ [])
unfolding shows Sub.generation_matches Sub.matches
told_left = told service_left true true refl refl

pub owner-IsLeaving : IsLeaving (pos 1) quiet owner (line (entry 7 (pos 7) ∷ []) [])
unfolding Pmap.get Pmap.index_of Sequence.index_of Conn.is_connected Generation.is_consistent each
owner-IsLeaving = record {
  client_eq = refl;
  client_id_eq = refl;
  id_nonneg = refl;
  conn_eq = refl;
  connected = refl;
  now_nonneg = refl;
  clients = ((λ e. absurd (omega arith), tt), (tt, tt));
  subs = (tt, tt);
  subs_held = tt;
  services_ready = one_more (first (pos 7) gen) gen [] quiet-IsReady refl told_left tt no_more;
}

client_disconnect_lem_example :
    (t : Sd) × (Server.client_disconnect (pos 1) quiet ≡ some (Rc.ok, t))
    × Disconnected (pos 1) quiet t owner (line (entry 7 (pos 7) ∷ []) [])
client_disconnect_lem_example =
    client_disconnect_lem (pos 1) quiet owner (line (entry 7 (pos 7) ∷ []) []) owner-IsLeaving
