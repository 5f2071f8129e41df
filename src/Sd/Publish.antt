-- ===== src/Sd/Publish.antt =====
-- src/sd/client.c: publishing, taking over and removing a service.
use tpaf.Prelude.{Bool, not, ◌||◌, Option, none, some, if◌then◌else◌}
use tpaf.Prelude.Int.{ℤ, ◌==ℤ◌, ltb_ℤ}
use tpaf.Clib.Ftime.{is_since}
use tpaf.Util.Sequence
use tpaf.Sd.Props
use tpaf.Sd.Props.{Props}
use tpaf.Sd.Generation.{Generation}
use tpaf.Sd.Service
use tpaf.Sd.Service.{Service, ChangeType}
use tpaf.Sd.Conn
use tpaf.Sd.Conn.{Conn}
use tpaf.Sd.State.{
  Client, M, ◌>>=◌, ◌>>◌, pure, lift, ut_assert, when, get_sd, get_service, client, service,
  put_client, del_client, add_service, del_service,
}
use tpaf.Sd.Orphans.{service_changed}
use tpaf.Sd.Client
use tpaf.Sd.Client.{Rc, ConnRef, modify_service}

-- A chain of changes between begin and commit.
infixl 5 ◌then_set◌
abbrev ◌then_set◌ : Option Service → (Service → Option Service) → Option Service
none then_set f = none
some s then_set f = f s

-- conn_del_service on a connection of a client.
unfoldable pub conn_del_service : ℤ → ConnRef → ℤ → M (Unit {0})
conn_del_service client_id ref service_id = do
  c ← client client_id
  conn ← lift (Client.conn_of c ref)
  conn' ← lift (Conn.del_service conn service_id)
  put_client client_id (Client.with_conn c ref conn')

-- conn_add_service on the active connection of a client.
unfoldable pub conn_add_service : ℤ → ℤ → M (Unit {0})
conn_add_service client_id service_id = do
  c ← client client_id
  conn ← lift c.active_conn
  conn' ← lift (Conn.add_service conn service_id)
  put_client client_id (record c { active_conn = some conn' })

unfoldable pub capture_service : ℤ → ℤ → M (Unit {0})
capture_service client_id service_id = do
  target ← service service_id
  victim_client_id ← lift (Service.get target (λ g. g.client_id))
  victim_client ← client victim_client_id
  victim_conn ← lift (Client.get_service_conn victim_client service_id)
  conn_del_service victim_client_id victim_conn service_id
  conn_add_service client_id service_id

-- What client_publish sets between begin and commit, for a new or a newer generation.
abbrev pub set_all : ℤ → ℤ → Props → ℤ → Service → Option Service
set_all client_id generation props ttl begun =
    Service.set_generation begun generation
    then_set (λ s. Service.set_props s props)
    then_set (λ s. Service.set_ttl s ttl)
    then_set Service.set_non_orphan
    then_set (λ s. Service.set_client_id s client_id)

-- A service that is not in the database yet: its first change is committed before it is added.
unfoldable pub publish_new : ℤ → ℤ → ℤ → Props → ℤ → M Rc
publish_new client_id service_id generation props ttl = do
  begun ← lift (Service.add_begin (Service.create service_id))
  changed ← lift (set_all client_id generation props ttl begun)
  (new, change_type) ← lift (Service.commit changed)
  service_changed new change_type
  add_service service_id new
  conn_add_service client_id service_id
  pure Rc.ok

-- What it sets for the same generation of another client.
abbrev pub set_adopted : ℤ → Service → Option Service
set_adopted client_id begun =
    Service.set_non_orphan begun then_set (λ s. Service.set_client_id s client_id)

-- The generation that is published again, with the same data.
unfoldable pub republish : ℤ → ℤ → Generation → M Rc
republish client_id service_id current =
    if not (current.client_id ==ℤ client_id)
    then (do
      capture_service client_id service_id
      modify_service service_id (set_adopted client_id)
      pure Rc.ok)
    else (do
      when (is_since current.orphan_since) (modify_service service_id Service.set_non_orphan)
      pure Rc.ok)

unfoldable pub publish_newer : ℤ → ℤ → Generation → ℤ → Props → ℤ → M Rc
publish_newer client_id service_id current generation props ttl = do
  when (not (current.client_id ==ℤ client_id)) (capture_service client_id service_id)
  modify_service service_id (set_all client_id generation props ttl)
  pure Rc.ok

-- props_equal reads the properties of the current generation through their pointer.
unfoldable pub publish_existing : ℤ → ℤ → Generation → ℤ → Props → ℤ → M Rc
publish_existing client_id service_id current generation props ttl =
    if generation ==ℤ current.generation
    then (do
      current_props ← lift current.props
      if not (Props.equal props current_props) || not (ttl ==ℤ current.ttl)
          then pure Rc.service_same_generation_but_different_data
          else republish client_id service_id current)
    else if ltb_ℤ current.generation generation
    then publish_newer client_id service_id current generation props ttl
    else pure Rc.newer_service_generation_exists

unfoldable pub publish : ℤ → ℤ → ℤ → Props → ℤ → M Rc
publish client_id service_id generation props ttl = do
  c ← client client_id
  ut_assert (Client.is_connected c)
  s ← get_sd
  elim (get_service service_id s) [
    | none ↦ publish_new client_id service_id generation props ttl
    | some found ↦ do
      current ← lift found.current
      publish_existing client_id service_id current generation props ttl
  ]

-- conn_list_index_of finds no active connection among the inactive ones: a fault.
unfoldable pub remove_conn : Client → ConnRef → Option Client
remove_conn c ConnRef.active = none
remove_conn c (ConnRef.inactive i) =
    some (record c { inactive_conns = Sequence.delete_at i c.inactive_conns })

-- The reference counts that are raised here keep the client and the service alive to the end.
unfoldable pub remove_service : ℤ → ℤ → M (Unit {0})
remove_service client_id service_id = do
  target ← service service_id
  c ← client client_id
  ref ← lift (Client.get_service_conn c service_id)
  conn_del_service client_id ref service_id
  c₁ ← client client_id
  conn ← lift (Client.conn_of c₁ ref)
  when (Conn.is_stale conn) (do c₂ ← lift (remove_conn c₁ ref); put_client client_id c₂)
  c₃ ← client client_id
  when (Client.is_stale c₃) (del_client c₃.client_id)
  del_service service_id
  (removed, change_type) ← lift (Service.remove target)
  service_changed removed change_type

-- What client_unpublish sets when the service is taken over or is an orphan.
abbrev pub set_owner : ℤ → Bool → Bool → Service → Option Service
set_owner client_id changed_client_id is_orphan begun =
    Service.set_non_orphan begun
    then_set (λ s. if changed_client_id then Service.set_client_id s client_id else some s)
    then_set (λ s. if is_orphan then Service.set_non_orphan s else some s)

unfoldable pub unpublish : ℤ → ℤ → M Rc
unpublish client_id service_id = do
  c ← client client_id
  ut_assert (Client.is_connected c)
  s ← get_sd
  elim (get_service service_id s) [
    | none ↦ pure Rc.no_such_service
    | some found ↦ do
      current ← lift found.current
      let changed_client_id = not (client_id ==ℤ current.client_id)
      let is_orphan = is_since current.orphan_since
      when (changed_client_id || is_orphan) (do
        when changed_client_id (capture_service client_id service_id)
        modify_service service_id (set_owner client_id changed_client_id is_orphan))
      remove_service client_id service_id
      pure Rc.ok
  ]

unfoldable pub purge_orphan : ℤ → ℤ → M (Unit {0})
purge_orphan client_id service_id = do
  c ← client client_id
  ut_assert (not (Client.is_connected c))
  target ← service service_id
  owner ← lift (Service.get target (λ g. g.client_id))
  ut_assert (owner ==ℤ c.client_id)
  remove_service client_id service_id
