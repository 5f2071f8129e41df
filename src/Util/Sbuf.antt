-- ===== src/Util/Sbuf.antt =====
-- src/util/sbuf.c: a growing byte buffer. `buf` holds the bytes in use; the rest of the block, up to
-- `capacity`, is never read before it is written.
use tpaf.Prelude.{
  ℕ, ◌+◌, ◌*◌, ◌≤◌, ◌≡◌, [], ◌∷◌, ◌++◌, arith, if◌then◌else◌, ltb, length, length-append,
}
use tpaf.Clib.Str.{Str}

pub record Sbuf : Type 0 where
  pub buf : Str
  pub capacity : ℕ

abbrev pub len : Sbuf → ℕ
len sbuf = length sbuf.buf

abbrev pub create : Sbuf
create = record { buf = []; capacity = 0 }

unfoldable pub assure_capacity : Sbuf → ℕ → Sbuf
assure_capacity sbuf capacity =
    if ltb sbuf.capacity capacity then record sbuf { capacity = 2 * capacity } else sbuf

unfoldable pub append : Sbuf → Str → Sbuf
unfolding assure_capacity
append sbuf s =
    let grown = assure_capacity sbuf (len sbuf + length s) in record grown { buf = grown.buf ++ s }

abbrev pub append_c : Sbuf → ℕ → Sbuf
append_c sbuf c = append sbuf (c ∷ [])

-- The string, whose NUL byte also has room in the block: the pair is the string and the block size.
unfoldable pub morph : Sbuf → Str × ℕ
unfolding assure_capacity
morph sbuf = let grown = assure_capacity sbuf (len sbuf + 1) in (grown.buf, grown.capacity)

-- Appending to a buffer whose bytes fit keeps them, adds the new ones, and stays within the block.
pub append_lem :
    (sbuf : Sbuf) (s : Str)
    → len sbuf ≤ sbuf.capacity
    → ((append sbuf s).buf ≡ sbuf.buf ++ s) × (len (append sbuf s) ≤ (append sbuf s).capacity)
unfolding append
append_lem sbuf s h = ground (arith, length-append sbuf.buf s)
