-- ===== src/Proto/Notify/Quiet.antt =====
-- Operations of the domain that call no match callback, as a connection calls them.
use tpaf.Prelude.{◌≡◌, some, [], arith}
use tpaf.Sd.State.{Sd}
use tpaf.Sd.State
use tpaf.Proto.Json.{Json}
use tpaf.Proto.World.{World, for_each}
use tpaf.Proto.Notify.{deliver, on_sd}

pub on_sd_quiet :
    {A : Type 0} (J : Json) (operation : State.M A) (a : A) (w : World) (sd : Sd)
    → operation (record w.sd { calls = [] }) ≡ some (a, sd)
    → sd.calls ≡ []
    → on_sd J operation w ≡ some (a, record w { sd = record sd { calls = [] } })
unfolding on_sd deliver for_each
on_sd_quiet J operation a w sd e q = ground arith
