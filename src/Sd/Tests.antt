-- ===== src/Sd/Tests.antt =====
-- The objects of src/sd on concrete values.
use tpaf.Prelude.{◌≡◌, inl, refl, ℕ, ◌-◌, ◌*◌, true, false, Option, none, some, [], ◌∷◌, arith}
use tpaf.Prelude.Int.{pos}
use tpaf.Clib.Str.{Str}
use tpaf.Clib.Ftime.{at}
use tpaf.Sd.Pvalue.{Pvalue}
use tpaf.Sd.Props
use tpaf.Sd.Props.{Props}
use tpaf.Sd.Props.Laws.{equal_asymmetric}
use tpaf.Sd.Generation.{Generation}
use tpaf.Sd.Service
use tpaf.Sd.Service.{Service, ChangeType, ◌>>=◌}
use tpaf.Sd.Service.Laws.{IsIdle, IsValid, Op, apply, apply-IsValid, orphan_time_left_bounds}
use tpaf.Sd.Sub
use tpaf.Sd.Sub.{Sub, MatchType}
use tpaf.Sd.Sub.Laws.{was_modified, shows, visible, notify-visible}

abbrev key : Str
key = b'k' ∷ []

abbrev one : Pvalue
one = Pvalue.int64 (pos 1)

abbrev two : Pvalue
two = Pvalue.int64 (pos 2)

abbrev both : Props
both = (key, one) ∷ (key, two) ∷ []

equal_asymmetric_example :
    (Props.equal ((key, one) ∷ (key, one) ∷ []) both ≡ true)
    × (Props.equal both ((key, one) ∷ (key, one) ∷ []) ≡ false)
equal_asymmetric_example = equal_asymmetric key one two (λ e. cc)

-- A service that client 1 publishes, and a newer generation of client 2.
abbrev first : Generation
first = record {
  generation = pos 0;
  props = some both;
  ttl = pos 30;
  orphan_since = at (pos 5000000);
  client_id = pos 1;
}

abbrev published : Service
published = record {
  service_id = pos 7;
  change_in_progress = ChangeType.unchanged;
  current = some first;
  prev = none;
  next = none;
  ref_cnt = 1;
}

published-IsIdle : IsIdle published
published-IsIdle = record { change_eq = refl; next_eq = refl }

apply-IsValid_example : IsValid (record published { prev = some first; current = none })
unfolding apply Service.remove
apply-IsValid_example =
    apply-IsValid Op.removes published (record published { prev = some first; current = none })
      (inl published-IsIdle) refl

orphan_time_left_bounds_example :
    (left : ℕ) × (Service.orphan_time_left (pos 15000000) published ≡ some (pos left))
    × (left ≡ 30 * 1000000 - (15000000 - 5000000))
orphan_time_left_bounds_example =
    orphan_time_left_bounds 15000000 5000000 30 published first refl refl refl (omega arith)

abbrev watcher : Sub
watcher = record { sub_id = pos 3; filter = none; client_id = pos 2; ref_cnt = 1 }

abbrev renewed : Service
renewed = record published { prev = some first }

notify-visible_example :
    (m : Option MatchType) × (Sub.notify watcher ChangeType.modified renewed ≡ some m)
    × (visible true m ≡ some true)
unfolding shows
notify-visible_example =
    notify-visible watcher ChangeType.modified renewed true true
      (was_modified renewed first first refl refl) refl refl
