-- ===== src/Proto/Server/CleanOut.antt =====
-- src/proto/server.c, clean_out_cb: connections that take too long for their handshake are dropped.
use tpaf.Prelude.{
  ℕ, ◌≡◌, refl, sym, ap, Bool, false, not, ◌&&◌, Option, none, some, List, [], ◌∷◌, ◌++◌, arith,
  ◌==◌, ==_iff, if◌then◌else◌, inl, inr, Bool-cases, Option-cases, append_assoc, append-nil,
}
use tpaf.Util.Pmap
use tpaf.Util.Pmap.{Pmap}
use tpaf.Util.Pmap.Laws.{IsDistinct, get-del, del-IsDistinct}
use tpaf.Proto.World.{World, ProtoConn, for_each, del_conn}
use tpaf.Proto.Lists.{remove}
use tpaf.Proto.Lists.Removal.{
  mem, IsNodup, select, remove_all, remove_all-select, select-IsNodup, mem-select,
}
use tpaf.Proto.Server.{is_expired, consider_disconnect, do_disconnect, clean_out}
use tpaf.Prelude.Int.{ℤ}

-- Whether a connection that is there has expired.
abbrev expired_at : ℤ → Option ProtoConn → Bool
expired_at now none = false
expired_at now (some own) = is_expired now own

abbrev pub has_expired : World → ℕ → Bool
has_expired w c = expired_at w.sd.now (Pmap.get w.conns c)

abbrev pub AreThere : World → List ℕ → Type 0
AreThere w [] = Unit {0}
AreThere w (c ∷ conns) = ((own : ProtoConn) × (Pmap.get w.conns c ≡ some own)) × AreThere w conns

consider_disconnect_lem :
    (w : World) (conns expired : List ℕ)
    → AreThere w conns
    → consider_disconnect expired conns w ≡ some (expired ++ select (has_expired w) conns, w)
unfolding consider_disconnect select
consider_disconnect_lem w [] expired a = ap (λ l. some (l, w)) (sym (append-nil expired))
consider_disconnect_lem w (c ∷ conns) expired ((own, there), a) =
    elim (Bool-cases (is_expired w.sd.now own)) [
      | inl hit ↦ ground (
        arith,
        consider_disconnect_lem w conns (expired ++ c ∷ []) a,
        append_assoc expired (c ∷ []) (select (has_expired w) conns),
      )
      | inr miss ↦ ground (arith, consider_disconnect_lem w conns expired a)
    ]

-- What dropping a list of connections leaves.
record Dropped (expired : List ℕ) (w w' : World) : Type 0 where
  conns_eq : (d : ℕ) → Pmap.get w'.conns d ≡ (if mem expired d then none else Pmap.get w.conns d)
  same_sd : w'.sd ≡ w.sd
  same_matches : w'.match_conns ≡ w.match_conns
  same_client : w'.client_conns ≡ w.client_conns

AllGet : Pmap ProtoConn → List ℕ → Type 0
AllGet conns [] = Unit {0}
AllGet conns (c ∷ expired) =
    ((own : ProtoConn) × (Pmap.get conns c ≡ some own)) × AllGet conns expired

AllGet-del :
    (conns conns' : Pmap ProtoConn) (c : ℕ) (expired : List ℕ)
    → ((d : ℕ) → Pmap.get conns' d ≡ (if c == d then none else Pmap.get conns d))
    → mem expired c ≡ false
    → AllGet conns expired
    → AllGet conns' expired
unfolding AllGet mem
AllGet-del conns conns' c [] read n a = tt
AllGet-del conns conns' c (x ∷ expired) read n ((own, there), a) = (
  (own, ground (arith, read x, ==_iff c x, ==_iff x c)),
  AllGet-del conns conns' c expired read (ground arith) a,
)

do_disconnect_all :
    (expired rest : List ℕ) (w : World)
    → remove_all w.clientless_conns expired ≡ some rest
    → IsNodup expired
    → IsDistinct w.conns
    → AllGet w.conns expired
    → (w' : World) × (for_each do_disconnect expired w ≡ some (tt, w'))
      × (w'.clientless_conns ≡ rest)
      × Dropped expired w w'
unfolding for_each do_disconnect del_conn remove_all mem AllGet
do_disconnect_all [] rest w e n d a = (
  w,
  refl,
  ground arith,
  record { conns_eq = λ d. refl; same_sd = refl; same_matches = refl; same_client = refl },
)
do_disconnect_all (c ∷ expired) rest w e n d ((own, there), a) =
    elim (Option-cases (remove w.clientless_conns c)) [
      | inl missing ↦ absurd (ground arith)
      | inr (left, removed) ↦
          let (conns, deleted, read) = get-del w.conns c own d there in
          let w₁ = record w { clientless_conns = left; conns = conns } in
          let (w', ran, lists, k) =
            do_disconnect_all expired rest w₁ (ground arith) n.1
              (del-IsDistinct w.conns conns c deleted d)
              (AllGet-del w.conns conns c expired read n.0 a) in
          (
            w',
            ground arith,
            lists,
            record {
              conns_eq = λ j. ground (arith, k.conns_eq j, read j);
              same_sd = k.same_sd;
              same_matches = k.same_matches;
              same_client = k.same_client;
            },
          )
    ]

select-AllGet :
    (w : World) (test : ℕ → Bool) (conns : List ℕ)
    → AreThere w conns
    → AllGet w.conns (select test conns)
unfolding AllGet select
select-AllGet w test [] a = tt
select-AllGet w test (c ∷ conns) (there, a) = elim (Bool-cases (test c)) [
  | inl hit ↦ rw hit (there, select-AllGet w test conns a)
  | inr miss ↦ rw miss (select-AllGet w test conns a)
]

-- Cleaning out drops exactly the connections that are still without a client and were established
-- more than two seconds ago: they are gone from the list of the clientless connections, which keeps
-- the others in their order, and are destroyed. Every other connection, the domain and the list of
-- the clients' connections are as they were. The list has to be one of connections that exist,
-- without repetitions.
pub clean_out_lem :
    (w : World)
    → IsNodup w.clientless_conns
    → IsDistinct w.conns
    → AreThere w w.clientless_conns
    → (w' : World) × (clean_out w ≡ some (tt, w'))
      × (w'.clientless_conns ≡ select (λ c. not (has_expired w c)) w.clientless_conns)
      × ((d : ℕ)
          → Pmap.get w'.conns d
            ≡ (if mem w.clientless_conns d && has_expired w d then none else Pmap.get w.conns d))
      × (w'.sd ≡ w.sd)
      × (w'.match_conns ≡ w.match_conns)
      × (w'.client_conns ≡ w.client_conns)
unfolding clean_out
clean_out_lem w n d a =
    let expired = select (has_expired w) w.clientless_conns in
    let (w', ran, lists, k) =
      do_disconnect_all expired (select (λ c. not (has_expired w c)) w.clientless_conns) w
        (remove_all-select (has_expired w) w.clientless_conns n)
        (select-IsNodup (has_expired w) w.clientless_conns n) d
        (select-AllGet w (has_expired w) w.clientless_conns a) in
    (
      w',
      ground (arith, consider_disconnect_lem w w.clientless_conns [] a, ran),
      lists,
      λ j. ground (arith, k.conns_eq j, mem-select (has_expired w) w.clientless_conns j),
      k.same_sd,
      k.same_matches,
      k.same_client,
    )
