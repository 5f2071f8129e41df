-- ===== src/Proto/Tests/Endings.antt =====
-- Connections that end, are cleaned out, or send, at concrete states.
use tpaf.Prelude.{
  ◌≡◌, refl, ℕ, Bool, true, false, not, ◌&&◌, Option, none, some, List, [], ◌∷◌, if◌then◌else◌,
  ◌==◌, arith,
}
use tpaf.Prelude.Int.{ℤ, pos}
use tpaf.Clib.Ftime.{seconds}
use tpaf.Util.Sequence
use tpaf.Util.Pmap
use tpaf.Sd.Conn
use tpaf.Sd.State
use tpaf.Sd.State.{Sd, for_each}
use tpaf.Sd.Client
use tpaf.Sd.Client.{Rc}
use tpaf.Sd.Server
use tpaf.Sd.Orphans
use tpaf.Sd.Service
use tpaf.Sd.Sub
use tpaf.Sd.Props
use tpaf.Sd.Server.Tests.{entry, quiet, owner, line, world, gone, dead_line, gen}
use tpaf.Sd.Server.Tests.Endings.{owner-IsLeaving, service_left}
use tpaf.Sd.Server.Disconnection.{Disconnected}
use tpaf.Sd.Sub.{modified}
use tpaf.Clib.Ftime.{at}
use tpaf.Proto.Notify.Messages.{notes}
use tpaf.Proto.Notify.Safety.{IsPublic, IsPublic-CanTell}
use tpaf.Proto.World.Queues.{Queued}
use mathlib.Core.List.{reverse}
use tpaf.Proto.Tests.Serving.{watcher-IsServed}
use tpaf.Proto.World.{World, ProtoConn, has_finished_handshake}
use tpaf.Proto.Lists
use tpaf.Proto.Lists.Removal.{mem, select}
use tpaf.Proto.Server.{closed, sent, clean_out, is_expired, term, try_receive, try_send}
use tpaf.Proto.Server.CleanOut.{has_expired, clean_out_lem}
use tpaf.Proto.Server.Ends.{Gone, hung_up, try_receive-early, term-connected}
use tpaf.Proto.Server.Sending.{Left, takes, try_send-Left}
use tpaf.Proto.Tests.{J, publisher, newcomer, served}

-- Ten seconds on, connection 30 is still without a client.
abbrev later : World
later = served (record quiet { now = seconds (pos 10) })

clean_out_lem_example :
    (w' : World) × (clean_out later ≡ some (tt, w'))
    × (w'.clientless_conns ≡ [])
    × ((d : ℕ)
        → Pmap.get w'.conns d
          ≡ (if mem (30 ∷ []) d && has_expired later d then none else Pmap.get later.conns d))
    × (w'.sd ≡ later.sd)
    × (w'.match_conns ≡ later.match_conns)
    × (w'.client_conns ≡ later.client_conns)
unfolding Pmap.get Pmap.index_of Sequence.index_of select is_expired mem tpaf.Prelude.Int.◌-ℤ◌
clean_out_lem_example =
    clean_out_lem later (refl, tt)
      (
        (λ e. absurd (omega arith), (λ e. absurd (omega arith), tt)),
        ((λ e. absurd (omega arith), tt), (tt, tt)),
      )
      ((newcomer, refl), tt)

try_receive-early_example :
    (after : World) × (try_receive J 30 closed (served quiet) ≡ some (false, after))
    × Gone 30 (served quiet) after
    × (after.clientless_conns ≡ [])
    × (after.client_conns ≡ 10 ∷ 20 ∷ [])
unfolding Pmap.get Pmap.index_of Sequence.index_of Sequence.delete_at has_finished_handshake
    Lists.remove Lists.index_of
try_receive-early_example =
    try_receive-early J 30 newcomer (served quiet) refl refl
      (
        (λ e. absurd (omega arith), (λ e. absurd (omega arith), tt)),
        ((λ e. absurd (omega arith), tt), (tt, tt)),
      )
      closed [] hung_up refl refl

-- Client 1 is away with its service, which is an orphan now; subscription 3 has seen the change.
abbrev left : Sd
left =
    record (world
      (record gone { inactive_conns = record dead_line { disconnected_at = pos 10 } ∷ [] })
      (entry 7 service_left ∷ [])
      (entry 7 (record { service_id = pos 7; deadline = pos 30001010 }) ∷ [])) {
        calls = record { sub_id = pos 3; match_type = modified; service = service_left } ∷ [];
      }

owner_left : Server.client_disconnect (pos 1) quiet ≡ some (Rc.ok, left)
unfolding Server.client_disconnect Client.all_stale Client.is_stale Client.modify_service
    Client.service_handle_conn_inactivation Client.retire Client.disconnect State.for_each
    State.put_client State.put_service Conn.mark_disconnected Conn.is_stale Conn.clear_subs
    Orphans.orphan_timer_create Orphans.add_orphan_timer Orphans.maintain_modified
    Orphans.maintain_orphans Orphans.record_call Orphans.sub_notify Orphans.service_changed
    Service.modify_begin Service.commit Service.set_next Service.was_orphan Service.orphan_time_left
    Sub.notify Pmap.add Pmap.get Pmap.update Props.clone tpaf.Prelude.Int.◌-ℤ◌
owner_left = refl

service_left-IsPublic : IsPublic service_left (record gen { orphan_since = at (pos 10) })
service_left-IsPublic = record {
  has_current = refl;
  id_nonneg = refl;
  generation_nonneg = refl;
  ttl_nonneg = refl;
  client_nonneg = refl;
}

term-connected_example :
    (after : World) × (term J 10 (served quiet) ≡ some (tt, after))
    × Disconnected (pos 1) quiet left owner (line (entry 7 (pos 7) ∷ []) [])
    × (after.sd ≡ record left { calls = [] })
    × (Pmap.get after.conns 10 ≡ none)
    × ((d : ℕ) (other : ProtoConn)
        → (10 == d) ≡ false
        → Pmap.get (served quiet).conns d ≡ some other
        → Queued d other
            (notes J (served quiet).match_conns d other.sub_tas (reverse left.calls))
            after)
    × (after.clientless_conns ≡ 30 ∷ [])
    × (after.client_conns ≡ 20 ∷ [])
unfolding Pmap.get Pmap.index_of Sequence.index_of Sequence.delete_at has_finished_handshake
    Lists.remove Lists.index_of
term-connected_example =
    term-connected J 10 publisher (served quiet) refl refl
      (
        (λ e. absurd (omega arith), (λ e. absurd (omega arith), tt)),
        ((λ e. absurd (omega arith), tt), (tt, tt)),
      )
      owner (line (entry 7 (pos 7) ∷ []) []) left (20 ∷ []) refl owner-IsLeaving owner_left
      (watcher-IsServed quiet, IsPublic-CanTell modified service_left _ service_left-IsPublic, tt)
      refl refl

abbrev talking : ProtoConn
talking = record publisher { out_queue = (1 ∷ []) ∷ (2 ∷ []) ∷ [] }

abbrev busy : World
busy = record (served quiet) { conns = entry 10 talking ∷ [] }

try_send-Left_example :
    (w' : World) × (try_send J 10 (sent ∷ []) busy ≡ some (true, w'))
    × Left 10 talking ((2 ∷ []) ∷ []) busy w'
unfolding Pmap.get Pmap.index_of Sequence.index_of takes
try_send-Left_example =
    try_send-Left J 10 ((1 ∷ []) ∷ []) ((2 ∷ []) ∷ []) talking busy refl refl (omega arith)
