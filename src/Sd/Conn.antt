-- ===== src/Sd/Conn.antt =====
-- src/sd/conn.c: a connection of a client, with the services and subscriptions made through it. A
-- service or subscription is one object that the database and a connection both point to: the maps
-- here hold its id, and the object itself stands in the database (State).
use tpaf.Prelude.{Bool, not, ◌&&◌, Option, none, some, if◌then◌else◌, ◌==◌}
use tpaf.Prelude.Int.{ℤ, negsuc, is_nonneg, to_u64}
use tpaf.Clib.Str.{Str}
use tpaf.Clib.Ftime.{seconds}
use tpaf.Util.Pmap
use tpaf.Util.Pmap.{Pmap}
use mathlib.Core.Option

pub record Conn : Type 0 where
  pub remote_addr : Option Str
  pub connected_at : ℤ
  pub disconnected_at : ℤ
  pub services : Pmap ℤ
  pub subs : Pmap ℤ

unfoldable pub create : ℤ → Option Str → Conn
create now remote_addr = record {
  remote_addr = remote_addr;
  connected_at = now;
  disconnected_at = seconds (negsuc 0);
  services = Pmap.create;
  subs = Pmap.create;
}

unfoldable pub is_connected : Conn → Bool
is_connected conn = not (is_nonneg conn.disconnected_at)

-- `none` is the failed assertion.
unfoldable pub mark_disconnected : ℤ → Conn → Option Conn
unfolding is_connected
mark_disconnected now conn =
    if is_connected conn then some (record conn { disconnected_at = now }) else none

unfoldable pub is_stale : Conn → Bool
unfolding is_connected
is_stale conn = not (is_connected conn) && Pmap.size conn.services == 0

unfoldable pub add_service : Conn → ℤ → Option Conn
unfolding Pmap.add
add_service conn id =
    Option.map (λ m. record conn { services = m }) (Pmap.add conn.services (to_u64 id) id)

unfoldable pub del_service : Conn → ℤ → Option Conn
unfolding Pmap.del
del_service conn id =
    Option.map (λ m. record conn { services = m }) (Pmap.del conn.services (to_u64 id))

unfoldable pub has_service : Conn → ℤ → Bool
unfolding Pmap.has_key
has_service conn id = Pmap.has_key conn.services (to_u64 id)

unfoldable pub add_sub : Conn → ℤ → Option Conn
unfolding Pmap.add
add_sub conn id = Option.map (λ m. record conn { subs = m }) (Pmap.add conn.subs (to_u64 id) id)

unfoldable pub del_sub : Conn → ℤ → Option Conn
unfolding Pmap.del
del_sub conn id = Option.map (λ m. record conn { subs = m }) (Pmap.del conn.subs (to_u64 id))

unfoldable pub has_sub : Conn → ℤ → Bool
unfolding Pmap.has_key
has_sub conn id = Pmap.has_key conn.subs (to_u64 id)

unfoldable pub clear_subs : Conn → Conn
clear_subs conn = record conn { subs = Pmap.clear conn.subs }
