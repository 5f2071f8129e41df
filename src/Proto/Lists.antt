-- ===== src/Proto/Lists.antt =====
-- src/proto/server.c: the two lists of connections, and what becomes of them when a connection has
-- finished its handshake or ends. The lists are plists, which Util/Plist/Refinement shows to be lists;
-- -1 of proto_conn_list_index_of is a fault of proto_conn_list_del.
pub mod Removal
pub mod Members
use tpaf.Prelude.{ℕ, Bool, Option, none, some, List, [], ◌∷◌, ◌++◌, ◌==◌}
use tpaf.Util.Sequence
use tpaf.Proto.World.{World, W, ◌>>=◌, ◌>>◌, pure, lift, get_world, del_conn}
use mathlib.Core.Option

unfoldable pub index_of : List ℕ → ℕ → Option ℕ
index_of conns c = Sequence.index_of (λ d. d == c) conns

unfoldable pub remove : List ℕ → ℕ → Option (List ℕ)
remove conns c = Option.map (λ idx. Sequence.delete_at idx conns) (index_of conns c)

abbrev put_lists : List ℕ → List ℕ → W (Unit {0})
put_lists clientless client w =
    some (tt, record w { clientless_conns = clientless; client_conns = client })

-- conn_handshake_cb.
unfoldable pub handshake : ℕ → W (Unit {0})
handshake c = do
  w ← get_world
  clientless ← lift (remove w.clientless_conns c)
  put_lists clientless (w.client_conns ++ c ∷ [])

-- conn_term_cb: the connection is destroyed.
unfoldable pub conn_term : ℕ → W (Unit {0})
conn_term c = do
  w ← get_world
  elim (remove w.clientless_conns c) [
    | some clientless ↦ put_lists clientless w.client_conns
    | none ↦ do client ← lift (remove w.client_conns c); put_lists w.clientless_conns client
  ]
  del_conn c
