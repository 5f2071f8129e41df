-- ===== src/Sd/Subscribe.antt =====
-- src/sd/client.c: subscriptions.
use tpaf.Prelude.{Bool, true, false, not, Option, none, some, if◌then◌else◌}
use tpaf.Prelude.Int.{ℤ}
use tpaf.Sd.Service.{ChangeType}
use tpaf.Sd.Filter.{Filter}
use tpaf.Sd.Sub
use tpaf.Sd.Sub.{Sub}
use tpaf.Sd.Conn
use tpaf.Util.Pmap.{Entry}
use tpaf.Sd.Service.{Service}
use tpaf.Sd.State.{
  M, ◌>>=◌, ◌>>◌, pure, lift, ut_assert, for_each, get_sd, client, sub, put_client, has_sub,
  add_sub, del_sub,
}
use tpaf.Sd.Orphans.{sub_notify}
use tpaf.Sd.Client
use tpaf.Sd.Client.{Rc}

unfoldable pub create_sub : ℤ → ℤ → Option Filter → M Rc
create_sub client_id sub_id filter = do
  c ← client client_id
  ut_assert (Client.is_connected c)
  s ← get_sd
  if has_sub sub_id s then pure Rc.sub_already_exists else do
    conn ← lift c.active_conn
    conn' ← lift (Conn.add_sub conn sub_id)
    put_client client_id (record c { active_conn = some conn' })
    add_sub sub_id (Sub.create sub_id filter c.client_id)
    pure Rc.ok

-- The subscription is notified of every service as if it were new.
unfoldable pub notify_sub_service_added : ℤ → Sub → Entry Service → M (Unit {0})
notify_sub_service_added sub_id target entry =
    sub_notify ChangeType.added entry.value
      (record { key = tpaf.Prelude.Int.to_u64 sub_id; value = target })

unfoldable pub activate_sub : ℤ → ℤ → M (Unit {0})
activate_sub client_id sub_id = do
  c ← client client_id
  ut_assert (Client.is_connected c)
  target ← sub sub_id
  s ← get_sd
  for_each (notify_sub_service_added sub_id target) s.db.services

unfoldable pub unsubscribe : ℤ → ℤ → M Rc
unsubscribe client_id sub_id = do
  c ← client client_id
  conn ← lift c.active_conn
  s ← get_sd
  if not (has_sub sub_id s)
      then pure Rc.no_such_sub
      else if not (Conn.has_sub conn sub_id)
      then pure Rc.perm_denied
      else do
        conn' ← lift (Conn.del_sub conn sub_id)
        put_client client_id (record c { active_conn = some conn' })
        del_sub sub_id
        pure Rc.ok
