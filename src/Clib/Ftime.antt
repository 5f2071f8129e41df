-- ===== src/Clib/Ftime.antt =====
-- The doubles that stand for points in time: NAN, or a number of ticks of a fixed length, so that
-- every reading of the clock, every `int64_t` number of seconds and -1 are integers. The rounding
-- of double arithmetic is not modelled.
use tpaf.Prelude.{ℕ, ◌+◌, ◌-◌, ◌*◌, Bool, true, false}
use tpaf.Prelude.Int.{ℤ, pos, negsuc, is_nonneg}

pub data Ftime : Type 0 where
  nan : Ftime
  at : ℤ → Ftime

abbrev pub ticks_per_second : ℕ
ticks_per_second = 1000000

-- (double)seconds.
abbrev pub seconds : ℤ → ℤ
seconds (pos n) = pos (n * ticks_per_second)
seconds (negsuc n) = negsuc (n * ticks_per_second + (ticks_per_second - 1))

-- t >= 0, which is false of NAN.
abbrev pub is_since : Ftime → Bool
is_since nan = false
is_since (at t) = is_nonneg t

abbrev pub is_nan : Ftime → Bool
is_nan nan = true
is_nan (at t) = false
