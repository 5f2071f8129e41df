-- ===== src/Proto/Events/Invariant.antt =====
-- The two lists of connections of src/proto/server.c: a connection is in the one or the other,
-- according to whether it has finished its handshake.
use tpaf.Prelude.{
  ℕ, ◌≡◌, sym, ap, subst, ◌∙◌, Bool, true, false, not, Option, none, some, List, [], ◌∷◌, ◌++◌,
  arith, inl, inr, Bool-cases, ◌==◌, ==_iff, if◌then◌else◌, some-injective,
}
use tpaf.Prelude.Int.{ℤ, is_nonneg}
use tpaf.Util.Pmap
use tpaf.Util.Pmap.{Pmap}
use tpaf.Util.Pmap.Laws.{IsDistinct, get-update, get-del, update-IsDistinct, del-IsDistinct}
use tpaf.Proto.World.{World, ProtoConn, has_finished_handshake}
use tpaf.Proto.Lists.{remove}
use tpaf.Proto.Lists.Removal.{mem, IsNodup}
use tpaf.Proto.Lists.Members.{
  remove-mem, remove-missing, mem-remove, remove-IsNodup, mem-append, append-IsNodup,
}
use tpaf.Proto.Events.Frame.{client_of, Frame}

-- A connection that is there, by its client's id: without a client, or with one.
abbrev pub waits : Option ℤ → Bool
waits none = false
waits (some client_id) = not (is_nonneg client_id)

abbrev pub serves : Option ℤ → Bool
serves none = false
serves (some client_id) = is_nonneg client_id

pub record IsParted (w : World) : Type 0 where
  pub distinct : IsDistinct w.conns
  pub nodup_clientless : IsNodup w.clientless_conns
  pub nodup_client : IsNodup w.client_conns
  pub clientless : (c : ℕ) → mem w.clientless_conns c ≡ waits (client_of w c)
  pub client : (c : ℕ) → mem w.client_conns c ≡ serves (client_of w c)

pub Frame-IsParted : (w w' : World) → Frame w w' → IsParted w → IsParted w'
Frame-IsParted w w' f p = record {
  distinct = f.distinct p.distinct;
  nodup_clientless = subst IsNodup (sym f.same_clientless) p.nodup_clientless;
  nodup_client = subst IsNodup (sym f.same_client) p.nodup_client;
  clientless =
      λ c. ap (λ l. mem l c) f.same_clientless ∙ p.clientless c ∙ ap waits (sym (f.same_ids c));
  client = λ c. ap (λ l. mem l c) f.same_client ∙ p.client c ∙ ap serves (sym (f.same_ids c));
}

-- A connection of the invariant is in its list.
pub clientless_remove :
    (w : World) (c : ℕ) (own : ProtoConn)
    → IsParted w
    → Pmap.get w.conns c ≡ some own
    → has_finished_handshake own ≡ false
    → (rest : List ℕ) × (remove w.clientless_conns c ≡ some rest)
unfolding has_finished_handshake
clientless_remove w c own p found early =
    remove-mem w.clientless_conns c (p.clientless c ∙ rw found (ap not early))

pub client_remove :
    (w : World) (c : ℕ) (own : ProtoConn)
    → IsParted w
    → Pmap.get w.conns c ≡ some own
    → has_finished_handshake own ≡ true
    → (rest : List ℕ) × (remove w.clientless_conns c ≡ none) × (remove w.client_conns c ≡ some rest)
unfolding has_finished_handshake
client_remove w c own p found finished =
    let (rest, e) = remove-mem w.client_conns c (p.client c ∙ rw found finished) in
    (rest, remove-missing w.clientless_conns c (p.clientless c ∙ rw found (ap not finished)), e)

-- The handshake of a connection: it gets its client, and moves to the other list.
pub handshake-IsParted :
    (w : World) (c : ℕ) (own changed : ProtoConn) (rest : List ℕ)
    → IsParted w
    → Pmap.get w.conns c ≡ some own
    → has_finished_handshake own ≡ false
    → has_finished_handshake changed ≡ true
    → remove w.clientless_conns c ≡ some rest
    → IsParted (record w {
      conns = Pmap.update w.conns c changed;
      clientless_conns = rest;
      client_conns = w.client_conns ++ c ∷ [];
    })
unfolding has_finished_handshake
handshake-IsParted w c own changed rest p found early finished removed =
    let not_client : mem w.client_conns c ≡ false = p.client c ∙ rw found early in
    record {
      distinct = update-IsDistinct w.conns c changed p.distinct;
      nodup_clientless = remove-IsNodup w.clientless_conns rest c p.nodup_clientless removed;
      nodup_client = append-IsNodup w.client_conns c p.nodup_client not_client;
      clientless = λ d. ground (
        arith,
        mem-remove w.clientless_conns rest c p.nodup_clientless removed d,
        p.clientless d,
        get-update w.conns c d changed own found,
      );
      client = λ d. ground (
        arith,
        mem-append w.client_conns c d,
        p.client d,
        get-update w.conns c d changed own found,
      );
    }

-- A connection that is gone from the connections and from its list.
pub early-IsParted :
    (w : World) (c : ℕ) (own : ProtoConn) (conns : Pmap ProtoConn) (rest : List ℕ)
    → IsParted w
    → Pmap.get w.conns c ≡ some own
    → Pmap.del w.conns c ≡ some conns
    → remove w.clientless_conns c ≡ some rest
    → mem w.client_conns c ≡ false
    → IsParted (record w { conns = conns; clientless_conns = rest })
early-IsParted w c own conns rest p found deleted removed away =
    let (conns', deleted', read) = get-del w.conns c own p.distinct found in
    let same : conns' ≡ conns = some-injective (sym deleted' ∙ deleted) in
    let read' =
      subst (λ m. (d : ℕ) → Pmap.get m d ≡ (if c == d then none else Pmap.get w.conns d)) same
        read in
    record {
      distinct = del-IsDistinct w.conns conns c deleted p.distinct;
      nodup_clientless = remove-IsNodup w.clientless_conns rest c p.nodup_clientless removed;
      nodup_client = p.nodup_client;
      clientless = λ d. ground (
        arith,
        mem-remove w.clientless_conns rest c p.nodup_clientless removed d,
        p.clientless d,
        read' d,
      );
      client = λ d. elim (Bool-cases (c == d)) [
        | inl hit ↦ rw (← (==_iff c d).0 hit) (ground (arith, away, read' c, ==_iff c c))
        | inr miss ↦ ground (arith, p.client d, read' d)
      ];
    }

pub ended-IsParted :
    (w : World) (c : ℕ) (own : ProtoConn) (conns : Pmap ProtoConn) (rest : List ℕ)
    → IsParted w
    → Pmap.get w.conns c ≡ some own
    → Pmap.del w.conns c ≡ some conns
    → remove w.client_conns c ≡ some rest
    → mem w.clientless_conns c ≡ false
    → IsParted (record w { conns = conns; client_conns = rest })
ended-IsParted w c own conns rest p found deleted removed away =
    let (conns', deleted', read) = get-del w.conns c own p.distinct found in
    let same : conns' ≡ conns = some-injective (sym deleted' ∙ deleted) in
    let read' =
      subst (λ m. (d : ℕ) → Pmap.get m d ≡ (if c == d then none else Pmap.get w.conns d)) same
        read in
    record {
      distinct = del-IsDistinct w.conns conns c deleted p.distinct;
      nodup_clientless = p.nodup_clientless;
      nodup_client = remove-IsNodup w.client_conns rest c p.nodup_client removed;
      clientless = λ d. elim (Bool-cases (c == d)) [
        | inl hit ↦ rw (← (==_iff c d).0 hit) (ground (arith, away, read' c, ==_iff c c))
        | inr miss ↦ ground (arith, p.clientless d, read' d)
      ];
      client = λ d.
          ground
            (arith, mem-remove w.client_conns rest c p.nodup_client removed d, p.client d, read' d);
    }
