-- ===== src/Sd/State.antt =====
-- src/sd/db.c, and the structures of client.c and sd.c: the whole state of the domain. A client,
-- service or subscription is found through the database by its id, which stands for the pointer to
-- it. An action returns `none` where the source fails an assertion or goes through a bad pointer.
use tpaf.Prelude.{Bool, true, false, Option, none, some, List, [], ◌∷◌}
use tpaf.Prelude.Int.{ℤ, is_nonneg, to_u64}
use tpaf.Util.Pmap
use tpaf.Util.Pmap.{Pmap, Entry}
use tpaf.Sd.Conn.{Conn}
use tpaf.Sd.Service.{Service}
use tpaf.Sd.Sub.{Sub, MatchType}

pub record Client : Type 0 where
  pub client_id : ℤ
  pub active_conn : Option Conn
  pub inactive_conns : List Conn

pub record Db : Type 0 where
  pub clients : Pmap Client
  pub services : Pmap Service
  pub subs : Pmap Sub

-- A pending timer event: the service, and when it goes off.
pub record OrphanTimer : Type 0 where
  pub service_id : ℤ
  pub deadline : ℤ

-- A call of a subscription's match_cb.
pub record MatchCall : Type 0 where
  pub sub_id : ℤ
  pub match_type : MatchType
  pub service : Service

-- struct sd, the reading of the clock, and the calls of match_cb so far, the last one first.
pub record Sd : Type 0 where
  pub db : Db
  pub orphans : Pmap OrphanTimer
  pub now : ℤ
  pub calls : List MatchCall

abbrev pub M : Type 0 → Type 0
M A = Sd → Option (A × Sd)

infixl 5 ◌>>=◌ ◌>>◌
abbrev pub ◌>>=◌ : {A B : Type 0} → M A → (A → M B) → M B
◌>>=◌ m f s = elim (m s) [ none ↦ none | some (a, s') ↦ f a s' ]

abbrev pub ◌>>◌ : {B : Type 0} → M (Unit {0}) → M B → M B
m >> k = m >>= λ _. k

abbrev pub pure : {A : Type 0} → A → M A
pure a s = some (a, s)

-- A value that is there: NULL is a fault.
abbrev pub lift : {A : Type 0} → Option A → M A
lift none s = none
lift (some a) s = some (a, s)

abbrev pub ut_assert : Bool → M (Unit {0})
ut_assert true s = some (tt, s)
ut_assert false s = none

abbrev pub when : Bool → M (Unit {0}) → M (Unit {0})
when true m = m
when false m = pure tt

-- A loop over a map whose callback always returns true.
unfoldable pub for_each {ℓ} : {A : Type ℓ} → (A → M (Unit {0})) → List A → M (Unit {0})
for_each body [] = pure tt
for_each body (x ∷ xs) = body x >> for_each body xs

abbrev pub get_sd : M Sd
get_sd s = some (s, s)

abbrev pub put_db : Db → M (Unit {0})
put_db db s = some (tt, record s { db = db })

-- GEN_RELAY_FUNS of db.c. Writes through a pointer are the `put_` actions.
abbrev pub get_client : ℤ → Sd → Option Client
get_client id s = Pmap.get s.db.clients (to_u64 id)

abbrev pub get_service : ℤ → Sd → Option Service
get_service id s = Pmap.get s.db.services (to_u64 id)

abbrev pub get_sub : ℤ → Sd → Option Sub
get_sub id s = Pmap.get s.db.subs (to_u64 id)

-- The object behind a pointer that the code goes through unchecked.
abbrev pub client : ℤ → M Client
client id s = lift (get_client id s) s

abbrev pub service : ℤ → M Service
service id s = lift (get_service id s) s

abbrev pub sub : ℤ → M Sub
sub id s = lift (get_sub id s) s

unfoldable pub put_client : ℤ → Client → M (Unit {0})
put_client id c s =
    let db = s.db in
    some (tt, record s { db = record db { clients = Pmap.update db.clients (to_u64 id) c } })

unfoldable pub put_service : ℤ → Service → M (Unit {0})
put_service id c s =
    let db = s.db in
    some (tt, record s { db = record db { services = Pmap.update db.services (to_u64 id) c } })

abbrev pub has_sub : ℤ → Sd → Bool
has_sub id s = Pmap.has_key s.db.subs (to_u64 id)

-- db_add_ and db_del_: an id is not negative.
unfoldable pub add_client : ℤ → Client → M (Unit {0})
add_client id c s =
    let db = s.db in
    (do
      ut_assert (is_nonneg id)
      clients ← lift (Pmap.add db.clients (to_u64 id) c)
      put_db (record db { clients = clients }))
      s

unfoldable pub del_client : ℤ → M (Unit {0})
del_client id s =
    let db = s.db in
    (do
      ut_assert (is_nonneg id)
      clients ← lift (Pmap.del db.clients (to_u64 id))
      put_db (record db { clients = clients }))
      s

unfoldable pub add_service : ℤ → Service → M (Unit {0})
add_service id c s =
    let db = s.db in
    (do
      ut_assert (is_nonneg id)
      services ← lift (Pmap.add db.services (to_u64 id) c)
      put_db (record db { services = services }))
      s

unfoldable pub del_service : ℤ → M (Unit {0})
del_service id s =
    let db = s.db in
    (do
      ut_assert (is_nonneg id)
      services ← lift (Pmap.del db.services (to_u64 id))
      put_db (record db { services = services }))
      s

unfoldable pub add_sub : ℤ → Sub → M (Unit {0})
add_sub id c s =
    let db = s.db in
    (do
      ut_assert (is_nonneg id)
      subs ← lift (Pmap.add db.subs (to_u64 id) c)
      put_db (record db { subs = subs }))
      s

unfoldable pub del_sub : ℤ → M (Unit {0})
del_sub id s =
    let db = s.db in
    (do
      ut_assert (is_nonneg id)
      subs ← lift (Pmap.del db.subs (to_u64 id))
      put_db (record db { subs = subs }))
      s
