-- ===== src/Sd/Service.antt =====
-- src/sd/service.c: a service with its current, previous and, during a change, next generation.
-- A function returns `none` where the source fails an assertion or reads through NULL. The change
-- callback is called by the clients of this module, with the change type that `commit` and `remove`
-- return; the memory behind a reference count is freed where it falls to 0.
pub mod Laws
use tpaf.Prelude.{
  ℕ, zero, suc, ◌+◌, ◌-◌, ◌≡◌, refl, Bool, true, false, not, Option, none, some, arith,
  if◌then◌else◌, ltb,
}
use tpaf.Prelude.Int.{ℤ, pos, negsuc, ltb_ℤ, ◌-ℤ◌}
use tpaf.Clib.Ftime.{Ftime, at, is_since, seconds}
use tpaf.Sd.Generation
use tpaf.Sd.Generation.{Generation}
use tpaf.Sd.Props.{Props}
use mathlib.Core.Option

-- service_change_type_none is `unchanged`.
pub data ChangeType : Type 0 where
  unchanged added modified removed : ChangeType

pub record Service : Type 0 where
  pub service_id : ℤ
  pub change_in_progress : ChangeType
  pub current : Option Generation
  pub prev : Option Generation
  pub next : Option Generation
  pub ref_cnt : ℕ

infixl 5 ◌>>=◌ ◌>>◌
abbrev pub ◌>>=◌ : {A B : Type 0} → Option A → (A → Option B) → Option B
none >>= f = none
some a >>= f = f a

abbrev pub ◌>>◌ : {B : Type 0} → Option (Unit {0}) → Option B → Option B
m >> k = m >>= λ _. k

abbrev ut_assert : Bool → Option (Unit {0})
ut_assert true = some tt
ut_assert false = none

unfoldable pub create : ℤ → Service
create service_id = record {
  service_id = service_id;
  change_in_progress = unchanged;
  current = none;
  prev = none;
  next = none;
  ref_cnt = 1;
}

unfoldable pub inc_ref : Service → Option Service
inc_ref service = do
  ut_assert (ltb 0 service.ref_cnt)
  some (record service { ref_cnt = service.ref_cnt + 1 })

-- What a release leaves: the object, or nothing once the last reference is gone.
pub data Released (A : Type 0) : Type 0 where
  kept : A → Released A
  freed : Released A

unfoldable pub dec_ref : Service → Option (Released Service)
dec_ref service = do
  ut_assert (ltb 0 service.ref_cnt)
  some (
      if ltb 0 (service.ref_cnt - 1)
      then kept (record service { ref_cnt = service.ref_cnt - 1 })
      else freed)

abbrev is_null : Option Generation → Bool
is_null none = true
is_null (some g) = false

-- The switch of has_ongoing_change, over the two fields that it reads.
unfoldable pub ongoing : ChangeType → Option Generation → Option Bool
ongoing added next = do ut_assert (not (is_null next)); some true
ongoing modified next = do ut_assert (not (is_null next)); some true
ongoing unchanged next = do ut_assert (is_null next); some false
ongoing removed next = none

unfoldable pub has_ongoing_change : Service → Option Bool
unfolding ongoing
has_ongoing_change service = ongoing service.change_in_progress service.next

unfoldable pub add_begin : Service → Option Service
unfolding has_ongoing_change
add_begin service = do
  busy ← has_ongoing_change service
  ut_assert (not busy)
  some (record service { change_in_progress = added; next = some Generation.create })

unfoldable pub modify_begin : Service → Option Service
unfolding has_ongoing_change Generation.clone
modify_begin service = do
  busy ← has_ongoing_change service
  ut_assert (not busy)
  current ← service.current
  copy ← Generation.clone current
  some (record service { change_in_progress = modified; next = some copy })

-- The new state, and the change type that the callback is given.
unfoldable pub commit : Service → Option (Service × ChangeType)
unfolding has_ongoing_change Generation.is_consistent
commit service = do
  busy ← has_ongoing_change service
  ut_assert busy
  next ← service.next
  ut_assert (Generation.is_consistent next)
  some (
    record service {
      prev = service.current;
      current = some next;
      change_in_progress = unchanged;
      next = none;
    },
    service.change_in_progress,
  )

unfoldable pub remove : Service → Option (Service × ChangeType)
unfolding has_ongoing_change
remove service = do
  busy ← has_ongoing_change service
  ut_assert (not busy)
  some (record service { prev = service.current; current = none }, removed)

unfoldable pub abort : Service → Option Service
unfolding has_ongoing_change
abort service = do
  busy ← has_ongoing_change service
  ut_assert busy
  some (record service { change_in_progress = unchanged; next = none })

-- GEN_SET_RELAY, over the setter of the generation.
unfoldable pub set_next : Service → (Generation → Generation) → Option Service
unfolding has_ongoing_change
set_next service setter = do
  busy ← has_ongoing_change service
  ut_assert busy
  next ← service.next
  some (record service { next = some (setter next) })

abbrev pub set_generation : Service → ℤ → Option Service
set_generation service generation = set_next service (λ g. Generation.set_generation g generation)

abbrev pub set_props : Service → Props → Option Service
set_props service props = set_next service (λ g. Generation.set_props g props)

abbrev pub set_ttl : Service → ℤ → Option Service
set_ttl service ttl = set_next service (λ g. Generation.set_ttl g ttl)

abbrev pub set_orphan_since : Service → Ftime → Option Service
set_orphan_since service since = set_next service (λ g. Generation.set_orphan_since g since)

abbrev pub set_client_id : Service → ℤ → Option Service
set_client_id service client_id = set_next service (λ g. Generation.set_client_id g client_id)

-- orphan_since becomes -1.
abbrev pub set_non_orphan : Service → Option Service
set_non_orphan service = set_orphan_since service (at (seconds (negsuc 0)))

-- GEN_GET_RELAY, over the getter of the current or the previous generation.
abbrev pub get {ℓ} : {A : Type ℓ} → Service → (Generation → A) → Option A
get service getter = Option.map getter service.current

abbrev pub get_prev {ℓ} : {A : Type ℓ} → Service → (Generation → A) → Option A
get_prev service getter = Option.map getter service.prev

unfoldable pub is_orphan : Service → Option Bool
is_orphan service = get service (λ g. is_since g.orphan_since)

unfoldable pub was_orphan : Service → Bool
was_orphan service = elim service.prev [ none ↦ false | some g ↦ is_since g.orphan_since ]

-- ttl - elapsed, in ticks, and not below 0.
unfoldable pub time_left : ℤ → Generation → Ftime → Option ℤ
time_left now g Ftime.nan = none
time_left now g (at since) =
    let elapsed = now -ℤ since in
    let left = seconds g.ttl -ℤ elapsed in some (if ltb_ℤ left (pos 0) then pos 0 else left)

unfoldable pub orphan_time_left : ℤ → Service → Option ℤ
unfolding is_orphan time_left
orphan_time_left now service = do
  orphan ← is_orphan service
  ut_assert orphan
  current ← service.current
  time_left now current current.orphan_since
