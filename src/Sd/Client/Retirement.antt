-- ===== src/Sd/Client/Retirement.antt =====
-- client_disconnect of src/sd/client.c: the subscriptions of the connection, and its end.
use tpaf.Prelude.{
  ℕ, zero, suc, ◌≡◌, refl, ◌∙◌, true, none, some, [], ◌∷◌, ◌++◌, arith, Option-cases, Bool-cases,
  inl, inr, if◌then◌else◌, ◌==◌,
}
use tpaf.Prelude.Int.{ℤ, to_u64, is_nonneg}
use tpaf.Util.Sequence
use tpaf.Util.Pmap
use tpaf.Util.Pmap.{Pmap, Entry}
use tpaf.Util.Pmap.Laws.{
  IsDistinct, get-del, get-update, del-IsDistinct, update-IsDistinct, is_some,
}
use tpaf.Sd.Service.{Service}
use tpaf.Sd.Sub.{Sub}
use tpaf.Sd.Conn
use tpaf.Sd.Conn.{Conn}
use tpaf.Sd.State.{Sd, Client, for_each, get_client, put_client, del_client, del_sub}
use tpaf.Sd.Orphans.Notify.{AllTell, also}
use tpaf.Sd.Client
use tpaf.Sd.Client.{retire, sub_handle_conn_inactivation}
use tpaf.Sd.Client.Inactivation.{IsOutside}

-- The subscriptions of the entries are in the database, under different ids; and they are gone.
abbrev pub SubsHeld : Pmap Sub → Pmap ℤ → Type 0
SubsHeld subs [] = Unit {0}
SubsHeld subs (e ∷ es) =
    (is_nonneg e.value ≡ true)
    × (is_some (Pmap.get subs (to_u64 e.value)) ≡ true)
    × IsOutside (to_u64 e.value) es
    × SubsHeld subs es

abbrev pub SubsGone : Pmap Sub → Pmap ℤ → Type 0
SubsGone subs [] = Unit {0}
SubsGone subs (e ∷ es) = (Pmap.get subs (to_u64 e.value) ≡ none) × SubsGone subs es

SubsHeld-others :
    (subs subs' : Pmap Sub) (k : ℕ) (es : Pmap ℤ)
    → ((j : ℕ) → Pmap.get subs' j ≡ (if k == j then none else Pmap.get subs j))
    → IsOutside k es
    → SubsHeld subs es
    → SubsHeld subs' es
SubsHeld-others subs subs' k [] read o h = tt
SubsHeld-others subs subs' k (e ∷ es) read o (nonneg, there, apart, held) = (
  nonneg,
  ground (arith, read (to_u64 e.value), o.0, there),
  apart,
  SubsHeld-others subs subs' k es read o.1 held,
)

AllTell-delete_at :
    (service : Service) (i : ℕ) (subs : Pmap Sub)
    → AllTell service subs
    → AllTell service (Sequence.delete_at i subs)
unfolding Sequence.delete_at
AllTell-delete_at service i [] tell = tell
AllTell-delete_at service zero (e ∷ subs) (also told tell) = tell
AllTell-delete_at service (suc i) (e ∷ subs) (also told tell) =
    also told (AllTell-delete_at service i subs tell)

AllTell-del :
    (service : Service) (subs subs' : Pmap Sub) (k : ℕ)
    → Pmap.del subs k ≡ some subs'
    → AllTell service subs
    → AllTell service subs'
unfolding Pmap.del
AllTell-del service subs subs' k e tell = elim (Option-cases (Pmap.index_of subs k)) [
  | inl absent ↦ absurd (ground arith)
  | inr (i, found) ↦
      let same : Sequence.delete_at i subs ≡ subs' = ground arith in
      coe 0 1 (j. AllTell service (same j)) (AllTell-delete_at service i subs tell)
]

-- The loop over the subscriptions of the connection takes them, and no others, from the database.
pub drop_subs_lem :
    (es : Pmap ℤ) (s : Sd)
    → IsDistinct s.db.subs
    → SubsHeld s.db.subs es
    → (subs : Pmap Sub) × (for_each sub_handle_conn_inactivation es s
        ≡ (let db = s.db in some (tt, record s { db = record db { subs = subs } })))
      × SubsGone subs es
      × ((j : ℕ) → IsOutside j es → Pmap.get subs j ≡ Pmap.get s.db.subs j)
      × ((service : Service) → AllTell service s.db.subs → AllTell service subs)
unfolding for_each sub_handle_conn_inactivation del_sub
drop_subs_lem [] s d h = (s.db.subs, refl, tt, λ j o. refl, λ service tell. tell)
drop_subs_lem (e ∷ es) s d (nonneg, there, apart, held) =
    let key = to_u64 e.value in
    let db = s.db in
    elim (Option-cases (Pmap.get db.subs key)) [
      | inl absent ↦ absurd (ground arith)
      | inr (sub, found) ↦
          let (subs₁, deleted, read) = get-del db.subs key sub d found in
          let s₁ : Sd = record s { db = record db { subs = subs₁ } } in
          let (subs, ran, rest_gone, others, tells) =
            drop_subs_lem es s₁ (del-IsDistinct db.subs subs₁ key deleted d)
              (SubsHeld-others db.subs subs₁ key es read apart held) in
          (
            subs,
            ground (arith, nonneg, deleted, ran),
            (ground (arith, others key apart, read key), rest_gone),
            λ j o. others j o.1 ∙ ground (arith, read j, o.0),
            λ service tell. tells service (AllTell-del service db.subs subs₁ key deleted tell),
          )
    ]

-- The client when a connection has gone down: it keeps a connection that still holds services.
unfoldable pub kept : Client → Conn → Client
kept c conn =
    if Conn.is_stale conn then c else record c { inactive_conns = c.inactive_conns ++ conn ∷ [] }

-- The end of a connection: the client keeps it while it holds services, and a client that has no
-- connection left that holds any goes too.
pub retire_lem :
    (id : ℤ) (c : Client) (conn : Conn) (s : Sd)
    → get_client id s ≡ some c
    → c.client_id ≡ id
    → is_nonneg id ≡ true
    → IsDistinct s.db.clients
    → (clients : Pmap Client) × (retire id conn s
        ≡ (let db = s.db in some (tt, record s { db = record db { clients = clients } })))
      × ((j : ℕ)
          → Pmap.get clients j ≡ (
              let c' = kept c conn in
              if to_u64 id == j
              then (if Client.is_stale c' then none else some c')
              else Pmap.get s.db.clients j))
unfolding retire put_client del_client kept
retire_lem id c conn s found id_eq nonneg d =
    let key = to_u64 id in
    let db = s.db in
    let c₁ : Client = record c { inactive_conns = c.inactive_conns ++ conn ∷ [] } in
    let clients₁ = Pmap.update db.clients key c₁ in
    let read₁ : (j : ℕ)
        → Pmap.get clients₁ j ≡ (if key == j then some c₁ else Pmap.get db.clients j) =
      λ j. get-update db.clients key j c₁ c found in
    let found₁ : Pmap.get clients₁ key ≡ some c₁ = ground (arith, read₁ key) in
    let d₁ = update-IsDistinct db.clients key c₁ d in
    elim (Bool-cases (Conn.is_stale conn)) [
      | inl stale ↦ elim (Bool-cases (Client.is_stale c)) [
        | inl empty ↦
            let (left, dropped, read) = get-del db.clients key c d found in
            (
              left,
              ground (arith, stale, empty, dropped, found, id_eq, nonneg),
              λ j. ground (arith, stale, empty, read j),
            )
        | inr busy ↦ (
          db.clients,
          ground (arith, stale, busy, found),
          λ j. ground (arith, stale, busy, found),
        )
      ]
      | inr fresh ↦ elim (Bool-cases (Client.is_stale c₁)) [
        | inl empty ↦
            let (left, dropped, read) = get-del clients₁ key c₁ d₁ found₁ in
            (
              left,
              ground (arith, fresh, empty, dropped, found, found₁, id_eq, nonneg),
              λ j. ground (arith, fresh, empty, read j, read₁ j),
            )
        | inr busy ↦ (
          clients₁,
          ground (arith, fresh, busy, found, found₁),
          λ j. ground (arith, fresh, busy, read₁ j),
        )
      ]
    ]
