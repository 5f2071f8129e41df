-- ===== src/Sd/Sub.antt =====
-- src/sd/sub.c: a subscription, and which change of a service it is notified of.
pub mod Laws
use tpaf.Prelude.{
  ℕ, zero, suc, ◌+◌, ◌-◌, ◌≡◌, refl, Bool, true, false, Option, none, some, arith, if◌then◌else◌,
  ltb,
}
use tpaf.Prelude.Int.{ℤ}
use tpaf.Sd.Filter
use tpaf.Sd.Filter.{Filter}
use tpaf.Sd.Generation.{Generation}
use tpaf.Sd.Props.{Props}
use tpaf.Sd.Service.{Service, ChangeType, Released, kept, freed}

pub data MatchType : Type 0 where
  appeared modified disappeared : MatchType

pub record Sub : Type 0 where
  pub sub_id : ℤ
  pub filter : Option Filter
  pub client_id : ℤ
  pub ref_cnt : ℕ

unfoldable pub create : ℤ → Option Filter → ℤ → Sub
create sub_id filter client_id = record {
  sub_id = sub_id;
  filter = filter;
  client_id = client_id;
  ref_cnt = 1;
}

unfoldable pub inc_ref : Sub → Option Sub
inc_ref sub = if ltb 0 sub.ref_cnt then some (record sub { ref_cnt = sub.ref_cnt + 1 }) else none

unfoldable pub dec_ref : Sub → Option (Released Sub)
dec_ref sub =
    if ltb 0 sub.ref_cnt
    then some
        (if ltb 0 (sub.ref_cnt - 1) then kept (record sub { ref_cnt = sub.ref_cnt - 1 }) else freed)
    else none

-- No filter matches everything. The properties are those of a generation; NULL is a fault.
unfoldable pub matches : Option Filter → Props → Option Bool
matches none props = some true
matches (some filter) props = Filter.matches filter props

abbrev pub props_of : Option Generation → Option Props
props_of none = none
props_of (some g) = g.props

-- `matches` on the properties of a generation of the service.
unfoldable pub generation_matches : Sub → Option Generation → Option Bool
unfolding matches
generation_matches sub g = elim (props_of g) [ none ↦ none | some props ↦ matches sub.filter props ]

-- The match type for the properties before and after, if there is a call of the match callback.
unfoldable pub match_type : Bool → Bool → Option MatchType
match_type false false = none
match_type true true = some modified
match_type false true = some appeared
match_type true false = some disappeared

-- sub_notify: `none` is a fault, and else the argument of match_cb if it is called.
unfoldable pub notify : Sub → ChangeType → Service → Option (Option MatchType)
unfolding generation_matches match_type
notify sub ChangeType.unchanged service = none
notify sub ChangeType.added service = elim (generation_matches sub service.current) [
  | none ↦ none
  | some matched ↦ some (if matched then some appeared else none)
]
notify sub ChangeType.modified service = elim (generation_matches sub service.prev) [
  | none ↦ none
  | some before ↦ elim (generation_matches sub service.current) [
    | none ↦ none
    | some after ↦ some (match_type before after)
  ]
]
notify sub ChangeType.removed service = elim (generation_matches sub service.prev) [
  | none ↦ none
  | some matched ↦ some (if matched then some disappeared else none)
]
