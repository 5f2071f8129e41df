-- ===== src/Sd/Sub/Laws.antt =====
-- What src/sd/sub.c promises a subscriber: the match events tell it when the service is in view.
use tpaf.Prelude.{◌≡◌, Bool, true, false, Option, none, some, arith, if◌then◌else◌}
use tpaf.Sd.Generation.{Generation}
use tpaf.Sd.Service.{Service, ChangeType}
use tpaf.Sd.Sub.{
  Sub, MatchType, appeared, modified, disappeared, generation_matches, notify, match_type,
}

-- Whether a generation of the service, if there is one, matches the subscription.
unfoldable pub shows : Sub → Option Generation → Option Bool
unfolding generation_matches
shows sub none = some false
shows sub (some g) = generation_matches sub (some g)

-- What the subscriber makes of an event: `none` is an event that makes no sense to it, such as the
-- disappearance of a service that it does not see.
unfoldable pub visible : Bool → Option MatchType → Option Bool
visible v none = some v
visible false (some appeared) = some true
visible true (some modified) = some true
visible true (some disappeared) = some false
visible _ _ = none

-- The generations of a service that has just been through a change.
pub data Changed : ChangeType → Service → Type 0 where
  was_added :
      (s : Service) (g : Generation)
      → s.prev ≡ none
      → s.current ≡ some g
      → Changed ChangeType.added s
  was_modified :
      (s : Service) (g h : Generation)
      → s.prev ≡ some g
      → s.current ≡ some h
      → Changed ChangeType.modified s
  was_removed :
      (s : Service) (g : Generation)
      → s.prev ≡ some g
      → s.current ≡ none
      → Changed ChangeType.removed s

-- After every change of a service `sub_notify` gives the subscriber an event that makes sense to it,
-- or none, and after which it sees the service exactly if the service is there and matches.
pub notify-visible :
    (sub : Sub) (change : ChangeType) (s : Service) (v w : Bool)
    → Changed change s
    → shows sub s.prev ≡ some v
    → shows sub s.current ≡ some w
    → (m : Option MatchType) × (notify sub change s ≡ some m) × (visible v m ≡ some w)
unfolding notify shows visible
notify-visible sub _ s v w (was_added s' g p c) hv hw =
    ((if w then some appeared else none), ground arith, ground arith)
notify-visible sub _ s v w (was_modified s' g h p c) hv hw =
    (match_type v w, ground arith, ground arith)
notify-visible sub _ s v w (was_removed s' g p c) hv hw =
    ((if v then some disappeared else none), ground arith, ground arith)
