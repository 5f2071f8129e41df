-- ===== src/Sd/Client.antt =====
-- src/sd/client.c: what a client's requests do to the database. A connection of a client is named by
-- its place; the client is read anew after each write, as it is through its pointer.
pub mod Modify
pub mod Inactivation
pub mod Retirement
use tpaf.Prelude.{
  ℕ, suc, Bool, true, false, not, Option, none, some, List, [], ◌∷◌, ◌++◌, if◌then◌else◌, get_elem?,
  set,
}
use tpaf.Prelude.Int.{ℤ}
use tpaf.Clib.Str.{Str}
use tpaf.Clib.Ftime.{at}
use tpaf.Util.Pmap.{Entry}
use tpaf.Sd.Service
use tpaf.Sd.Service.{Service, ChangeType}
use tpaf.Sd.Conn
use tpaf.Sd.Conn.{Conn}
use tpaf.Sd.State.{
  Client, M, ◌>>=◌, ◌>>◌, pure, lift, when, for_each, get_sd, client, service, put_client,
  put_service, add_client, del_client, del_sub,
}
use tpaf.Sd.Orphans.{service_changed}

-- The return codes: 0, and the errors of sd_err.h that this layer gives.
pub data Rc : Type 0 where
  ok perm_denied client_already_exists no_such_client no_such_service : Rc
  service_same_generation_but_different_data newer_service_generation_exists : Rc
  sub_already_exists invalid_filter no_such_sub : Rc

pub data ConnRef : Type 0 where
  active : ConnRef
  inactive : ℕ → ConnRef

abbrev pub create : ℤ → Client
create client_id = record { client_id = client_id; active_conn = none; inactive_conns = [] }

abbrev pub is_connected : Client → Bool
is_connected c = elim c.active_conn [ none ↦ false | some conn ↦ true ]

abbrev pub conn_of : Client → ConnRef → Option Conn
conn_of c active = c.active_conn
conn_of c (inactive i) = get_elem? c.inactive_conns i

abbrev pub with_conn : Client → ConnRef → Conn → Client
with_conn c active conn = record c { active_conn = some conn }
with_conn c (inactive i) conn = record c { inactive_conns = set c.inactive_conns i conn }

-- client_is_stale: client_conn_foreach with find_non_stale.
unfoldable pub all_stale : List Conn → Bool
all_stale [] = true
all_stale (conn ∷ conns) = if not (Conn.is_stale conn) then false else all_stale conns

unfoldable pub is_stale : Client → Bool
is_stale c = elim c.active_conn [
  | none ↦ all_stale c.inactive_conns
  | some conn ↦ if not (Conn.is_stale conn) then false else all_stale c.inactive_conns
]

-- get_service_conn: client_conn_foreach with find_service_conn; `none` is NULL.
unfoldable pub find_inactive : List Conn → ℕ → ℤ → Option ConnRef
find_inactive [] i service_id = none
find_inactive (conn ∷ conns) i service_id =
    if Conn.has_service conn service_id
    then some (inactive i)
    else find_inactive conns (suc i) service_id

unfoldable pub get_service_conn : Client → ℤ → Option ConnRef
get_service_conn c service_id = elim c.active_conn [
  | none ↦ find_inactive c.inactive_conns 0 service_id
  | some conn ↦
      if Conn.has_service conn service_id
      then some active
      else find_inactive c.inactive_conns 0 service_id
]

-- The client is new, and this puts it into the database.
unfoldable pub connect : Client → Option Str → M (Unit {0})
connect c remote_addr = do
  s ← get_sd
  add_client c.client_id (record c { active_conn = some (Conn.create s.now remote_addr) })

unfoldable pub reconnect : ℤ → Option Str → M Rc
reconnect client_id remote_addr = do
  s ← get_sd
  c ← client client_id
  if is_connected c then pure client_already_exists else do
    put_client client_id (record c { active_conn = some (Conn.create s.now remote_addr) })
    pure ok

unfoldable pub sub_handle_conn_inactivation : Entry ℤ → M (Unit {0})
sub_handle_conn_inactivation entry = del_sub entry.value

-- A change of a service in the database, between begin and commit, and its callback.
unfoldable pub modify_service : ℤ → (Service → Option Service) → M (Unit {0})
modify_service service_id changes = do
  old ← service service_id
  begun ← lift (Service.modify_begin old)
  changed ← lift (changes begun)
  (new, change_type) ← lift (Service.commit changed)
  put_service service_id new
  service_changed new change_type

unfoldable pub service_handle_conn_inactivation : ℤ → Entry ℤ → M (Unit {0})
service_handle_conn_inactivation disconnected_at entry =
    modify_service entry.value (λ begun. Service.set_orphan_since begun (at disconnected_at))

-- The end of client_disconnect: the connection is dropped or kept, and then the client.
unfoldable pub retire : ℤ → Conn → M (Unit {0})
retire client_id inactivated = do
  c ← client client_id
  when (not (Conn.is_stale inactivated))
      (put_client client_id (record c { inactive_conns = c.inactive_conns ++ inactivated ∷ [] }))
  c' ← client client_id
  when (is_stale c') (del_client c'.client_id)

unfoldable pub disconnect : ℤ → M Rc
disconnect client_id = do
  s ← get_sd
  c ← client client_id
  active_conn ← lift c.active_conn
  put_client client_id (record c { active_conn = none })
  marked ← lift (Conn.mark_disconnected s.now active_conn)
  for_each sub_handle_conn_inactivation marked.subs
  let inactivated = Conn.clear_subs marked
  for_each (service_handle_conn_inactivation inactivated.disconnected_at) inactivated.services
  retire client_id inactivated
  pure ok
