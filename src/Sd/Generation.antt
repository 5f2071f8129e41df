-- ===== src/Sd/Generation.antt =====
-- src/sd/generation.c: the attributes of one generation of a service. -1 and NAN stand for what is
-- not set yet, as in the source; `props` is `none` for NULL.
use tpaf.Prelude.{Bool, true, false, not, ◌&&◌, Option, none, some}
use tpaf.Prelude.Int.{ℤ, negsuc, is_nonneg}
use tpaf.Clib.Ftime.{Ftime, nan, is_nan}
use tpaf.Sd.Props
use tpaf.Sd.Props.{Props}
use mathlib.Core.Option

pub record Generation : Type 0 where
  pub generation : ℤ
  pub props : Option Props
  pub ttl : ℤ
  pub orphan_since : Ftime
  pub client_id : ℤ

abbrev pub create : Generation
create = record {
  generation = negsuc 0;
  props = none;
  ttl = negsuc 0;
  orphan_since = nan;
  client_id = negsuc 0;
}

-- props_clone reads through the pointer, so NULL is a fault: `none`.
unfoldable pub clone : Generation → Option Generation
clone original = Option.map (λ p. record original { props = some (Props.clone p) }) original.props

unfoldable pub is_consistent : Generation → Bool
is_consistent g =
    is_nonneg g.generation
    && (elim g.props [ none ↦ false | some p ↦ true ])
    && is_nonneg g.ttl
    && not (is_nan g.orphan_since)
    && is_nonneg g.client_id

abbrev pub set_generation : Generation → ℤ → Generation
set_generation g generation = record g { generation = generation }

abbrev pub set_ttl : Generation → ℤ → Generation
set_ttl g ttl = record g { ttl = ttl }

abbrev pub set_orphan_since : Generation → Ftime → Generation
set_orphan_since g orphan_since = record g { orphan_since = orphan_since }

abbrev pub set_client_id : Generation → ℤ → Generation
set_client_id g client_id = record g { client_id = client_id }

unfoldable pub set_props : Generation → Props → Generation
set_props g props = record g { props = some (Props.clone props) }
