-- ===== src/Sd/Server/Tests/Publishing.antt =====
-- Publishing, of src/sd/client.c, on concrete states.
use tpaf.Prelude.{◌≡◌, refl, true, false, some, [], ◌∷◌, arith}
use tpaf.Prelude.Int.{pos}
use tpaf.Util.Sequence
use tpaf.Util.Pmap
use tpaf.Util.Pmap.{Pmap, Entry}
use tpaf.Sd.Service.{Service, ChangeType}
use tpaf.Sd.Sub
use tpaf.Sd.Sub.{Sub}
use tpaf.Sd.Sub.Laws.{shows, was_added}
use tpaf.Sd.Conn
use tpaf.Sd.Conn.{Conn}
use tpaf.Sd.State.{Sd}
use tpaf.Sd.Orphans.{service_changed}
use tpaf.Sd.Orphans.Laws.{has_timer, OnlyTimer}
use tpaf.Sd.Orphans.Notify.{AllTell, calls_of, service_changed_lem}
use tpaf.Sd.Client.{Rc}
use tpaf.Sd.Client.Modify.{Modified}
use tpaf.Sd.Server
use tpaf.Sd.Server.Renewal.{published, publish-newer}
use tpaf.Sd.Server.Addition.{Added, first, publish-new}
use tpaf.Sd.Server.Takeover.{publish-takeover}
use tpaf.Sd.Client
use tpaf.Sd.Client.{ConnRef, active, inactive}
use tpaf.Sd.Conn
use tpaf.Sd.Server.Capture.{Captured}
use tpaf.Sd.Server.Tests.{
  empty, entry, gen, line, other, owner, quiet, quiet-IsReady, told, watcher,
}

abbrev service_new : Service
service_new = record (first (pos 7) gen) {
  prev = some gen;
  current = some (published (pos 1) (pos 5) [] (pos 60));
}

told_new : AllTell service_new (entry 3 watcher ∷ [])
unfolding shows Sub.generation_matches Sub.matches
told_new = told service_new true true refl refl

publish-newer_example :
    (t : Sd) × (Server.publish (pos 1) (pos 7) (pos 5) [] (pos 60) quiet ≡ some (Rc.ok, t))
    × (t.calls ≡ calls_of told_new [])
    × Modified (pos 7) quiet t service_new
unfolding Pmap.get Pmap.index_of Sequence.index_of
publish-newer_example =
    publish-newer (pos 1) (pos 7) (pos 5) (pos 60) [] [] quiet owner _ (first (pos 7) gen) gen
      (record { client_eq = refl; conn_eq = refl; owner_eq = refl; ready = quiet-IsReady }) refl
      refl refl refl told_new

abbrev service_first : Service
service_first = first (pos 7) (published (pos 1) (pos 5) [] (pos 60))

told_first : AllTell service_first (entry 3 watcher ∷ [])
unfolding shows Sub.generation_matches Sub.matches
told_first = told service_first false true refl refl

publish-new_example :
    (t : Sd) × (Server.publish (pos 1) (pos 7) (pos 5) [] (pos 60) empty ≡ some (Rc.ok, t))
    × (t.calls ≡ calls_of told_first [])
    × Added
        (pos 1)
        (pos 7)
        empty
        t
        (record owner { active_conn = some (line [] []) })
        (line [] [])
        service_first
unfolding Pmap.get Pmap.index_of Sequence.index_of Pmap.has_key Conn.has_service
publish-new_example =
    publish-new (pos 1) (pos 7) (pos 5) (pos 60) [] empty
      (record owner { active_conn = some (line [] []) }) (line [] [])
      (record {
        client_eq = refl;
        conn_eq = refl;
        absent = refl;
        unpublished = refl;
        no_timer = refl;
        timers = tt;
        id_nonneg = refl;
      })
      refl refl refl told_first

abbrev service_taken : Service
service_taken = record (first (pos 7) gen) {
  prev = some gen;
  current = some (published (pos 2) (pos 5) [] (pos 60));
}

told_taken : AllTell service_taken (entry 3 watcher ∷ [])
unfolding shows Sub.generation_matches Sub.matches
told_taken = told service_taken true true refl refl

publish-takeover_example :
    (between t : Sd) × (Server.publish (pos 2) (pos 7) (pos 5) [] (pos 60) quiet ≡ some (Rc.ok, t))
    × Captured
        (pos 2)
        (pos 7)
        quiet
        between
        other
        owner
        (line [] (entry 3 (pos 3) ∷ []))
        (line (entry 7 (pos 7) ∷ []) [])
        active
        gen
    × Modified (pos 7) between t service_taken
    × (t.calls ≡ calls_of told_taken [])
unfolding Pmap.get Pmap.index_of Sequence.index_of Pmap.has_key Conn.has_service
    Client.get_service_conn
publish-takeover_example =
    publish-takeover (pos 2) (pos 7) (pos 5) (pos 60) [] [] quiet other owner
      (line [] (entry 3 (pos 3) ∷ [])) (line (entry 7 (pos 7) ∷ []) []) active (first (pos 7) gen)
      gen
      (record {
        found = refl;
        current_eq = refl;
        client_eq = refl;
        conn_eq = refl;
        victim_eq = refl;
        place = refl;
        victim_conn_eq = refl;
        held_id = pos 7;
        held = refl;
        held_distinct = (tt, tt);
        free = refl;
        apart = λ e. absurd (omega arith);
      })
      quiet-IsReady refl refl refl refl told_taken

service_changed_lem_example :
    (t : Sd) × (service_changed service_first ChangeType.added empty ≡ some (tt, t))
    × (has_timer t (pos 7) ≡ false)
    × OnlyTimer (pos 7) (record empty { calls = calls_of told_first [] }) t
unfolding Pmap.has_key Pmap.index_of Sequence.index_of
service_changed_lem_example =
    service_changed_lem ChangeType.added service_first empty
      (was_added service_first (published (pos 1) (pos 5) [] (pos 60)) refl refl) told_first refl tt
