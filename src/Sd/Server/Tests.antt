-- ===== src/Sd/Server/Tests.antt =====
-- Concrete states of the domain of src/sd/sd.c: clients 1 and 2, service 7 and subscription 3.
mod Publishing
pub mod Endings
mod Refusals
use tpaf.Prelude.{◌≡◌, refl, ℕ, Bool, true, false, none, some, [], ◌∷◌, arith, if◌then◌else◌, ◌==◌}
use tpaf.Prelude.Int.{ℤ, pos, negsuc}
use tpaf.Clib.Ftime.{at, seconds}
use tpaf.Util.Sequence
use tpaf.Util.Pmap
use tpaf.Util.Pmap.{Pmap, Entry}
use tpaf.Sd.Props
use tpaf.Sd.Props.{Props}
use tpaf.Sd.Generation
use tpaf.Sd.Generation.{Generation}
use tpaf.Sd.Service.{Service, ChangeType}
use tpaf.Sd.Service.Laws.{IsIdle}
use tpaf.Sd.Sub
use tpaf.Sd.Sub.{Sub}
use tpaf.Sd.Sub.Laws.{shows, was_added}
use tpaf.Sd.Conn
use tpaf.Sd.Conn.{Conn}
use tpaf.Sd.State.{Sd, Client, OrphanTimer, get_sub}
use tpaf.Sd.Orphans.{service_changed}
use tpaf.Sd.Orphans.Laws.{has_timer, OnlyTimer}
use tpaf.Sd.Orphans.Notify.{AllTell, nobody, also, calls_of, service_changed_lem}
use tpaf.Sd.Client
use tpaf.Sd.Client.{Rc, ConnRef, modify_service}
use tpaf.Sd.Client.Modify.{IsReady, Modified}
use tpaf.Sd.Server
use tpaf.Sd.Server.Requests.{publishes, run, refused_changes_nothing}
use tpaf.Sd.Server.Refusals.{Refusal, publishes_older, refusal_lem}
use tpaf.Sd.Server.Connections.{away, Connected, client_connect_lem}
use tpaf.Sd.Server.Renewal.{published, publish-newer, publish-again}
use tpaf.Sd.Server.Addition.{Added, first, publish-new}
use tpaf.Sd.Server.Takeover.{publish-takeover}
use tpaf.Sd.Server.Removal.{Removed, unpublish-own}
use tpaf.Sd.Server.Subscriptions.{SubsOnly, create_sub_lem, unsubscribe_lem}
use tpaf.Sd.Client.Inactivation.{AllReady, one_more, no_more}
use tpaf.Sd.Server.Disconnection.{IsLeaving, Disconnected, client_disconnect_lem}
use tpaf.Sd.Server.Orphan.{IsOrphan}
use tpaf.Sd.Server.Expiry.{Expired, orphan_timeout_lem}
use tpaf.Sd.Service.Laws.{each}

abbrev pub entry : {V : Type 0} → ℕ → V → Entry V
entry k v = record { key = k; value = v }

abbrev pub line : Pmap ℤ → Pmap ℤ → Conn
line services subs = record {
  remote_addr = none;
  connected_at = pos 0;
  disconnected_at = seconds (negsuc 0);
  services = services;
  subs = subs;
}

abbrev pub dead_line : Conn
dead_line = record {
  remote_addr = none;
  connected_at = pos 0;
  disconnected_at = pos 5;
  services = entry 7 (pos 7) ∷ [];
  subs = [];
}

abbrev pub owner : Client
owner = record {
  client_id = pos 1;
  active_conn = some (line (entry 7 (pos 7) ∷ []) []);
  inactive_conns = [];
}

abbrev pub other : Client
other = record {
  client_id = pos 2;
  active_conn = some (line [] (entry 3 (pos 3) ∷ []));
  inactive_conns = [];
}

abbrev pub gone : Client
gone = record { client_id = pos 1; active_conn = none; inactive_conns = dead_line ∷ [] }

abbrev pub gen : Generation
gen = record {
  generation = pos 4;
  props = some [];
  ttl = pos 30;
  orphan_since = at (seconds (negsuc 0));
  client_id = pos 1;
}

abbrev pub orphan : Generation
orphan = record gen { orphan_since = at (pos 5) }

abbrev pub watcher : Sub
watcher = record { sub_id = pos 3; filter = none; client_id = pos 2; ref_cnt = 1 }

abbrev pub world : Client → Pmap Service → Pmap OrphanTimer → Sd
world c services timers = record {
  db = record {
    clients = entry 1 c ∷ entry 2 other ∷ [];
    services = services;
    subs = entry 3 watcher ∷ [];
  };
  orphans = timers;
  now = pos 10;
  calls = [];
}

abbrev pub timer : Pmap OrphanTimer
timer = entry 7 (record { service_id = pos 7; deadline = pos 30000005 }) ∷ []

-- The service as published, as an orphan on an inactive connection, and as an orphan whose client is
-- back.
abbrev pub quiet : Sd
quiet = world owner (entry 7 (first (pos 7) gen) ∷ []) []

abbrev pub orphaned_world : Sd
orphaned_world = world gone (entry 7 (first (pos 7) orphan) ∷ []) timer

abbrev pub back : Sd
back = world owner (entry 7 (first (pos 7) orphan) ∷ []) timer

abbrev pub empty : Sd
empty = world (record owner { active_conn = some (line [] []) }) [] []

-- The subscription without a filter sees every generation.
pub told :
    (service : Service) (v w : Bool)
    → shows watcher service.prev ≡ some v
    → shows watcher service.current ≡ some w
    → AllTell service (entry 3 watcher ∷ [])
told service v w p c = also (record { before = v; after = w; before_eq = p; after_eq = c }) nobody

pub idle : (g : Generation) → IsIdle (first (pos 7) g)
idle g = record { change_eq = refl; next_eq = refl }

pub quiet-IsReady : IsReady (pos 7) quiet (first (pos 7) gen) gen []
unfolding Pmap.get Pmap.has_key Pmap.index_of Sequence.index_of
quiet-IsReady = record {
  found = refl;
  id_eq = refl;
  idle = idle gen;
  current_eq = refl;
  props_eq = refl;
  timer = refl;
  timers = tt;
}

pub back-IsReady : IsReady (pos 7) back (first (pos 7) orphan) orphan []
unfolding Pmap.get Pmap.has_key Pmap.index_of Sequence.index_of
back-IsReady = record {
  found = refl;
  id_eq = refl;
  idle = idle orphan;
  current_eq = refl;
  props_eq = refl;
  timer = refl;
  timers = (tt, tt);
}
