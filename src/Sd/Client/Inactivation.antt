-- ===== src/Sd/Client/Inactivation.antt =====
-- The services of a connection that goes down become orphans: the loop of client_disconnect in
-- src/sd/client.c over service_handle_conn_inactivation.
use tpaf.Prelude.{ℕ, ◌≡◌, ◌≢◌, refl, sym, ◌∙◌, true, some, List, [], ◌∷◌, arith}
use tpaf.Prelude.Int.{ℤ, to_u64, is_nonneg}
use tpaf.Clib.Ftime.{at}
use tpaf.Util.Pmap
use tpaf.Util.Pmap.{Pmap, Entry}
use tpaf.Util.Pmap.Laws.{has_key-get}
use tpaf.Sd.Props.{Props}
use tpaf.Sd.Generation
use tpaf.Sd.Generation.{Generation}
use tpaf.Sd.Service
use tpaf.Sd.Service.{Service}
use tpaf.Sd.Service.Laws.{set_each, each}
use tpaf.Sd.State.{Sd, for_each, get_service}
use tpaf.Sd.Orphans.Laws.{has_timer}
use tpaf.Sd.Orphans.Notify.{AllTell}
use tpaf.Sd.Client.{modify_service, service_handle_conn_inactivation}
use tpaf.Sd.Client.Modify.{IsReady, Modified, changed, modify_service_lem}

abbrev pub orphaning : ℤ → List (Generation → Generation)
orphaning since = (λ g. Generation.set_orphan_since g (at since)) ∷ []

-- A key that is none of the ids of the entries.
abbrev pub IsOutside : ℕ → Pmap ℤ → Type 0
IsOutside j [] = Unit {0}
IsOutside j (e ∷ es) = (to_u64 e.value ≢ j) × IsOutside j es

-- The services of the entries are there and at rest, under different ids, with all that they need to
-- become orphans at a time.
pub data AllReady (since : ℤ) (s : Sd) : Pmap ℤ → Type 0 where
  no_more : AllReady since s []
  one_more :
      {e : Entry ℤ} {es : Pmap ℤ} (service : Service) (g : Generation) (p : Props)
      → IsReady e.value s service g p
      → Generation.is_consistent g ≡ true
      → AllTell (changed (orphaning since) service g) s.db.subs
      → IsOutside (to_u64 e.value) es
      → AllReady since s es
      → AllReady since s (e ∷ es)

-- The services of the entries are orphans since a time, each with a timer.
pub data AllOrphans (since : ℤ) (t : Sd) : Pmap ℤ → Type 0 where
  no_more : AllOrphans since t []
  one_more :
      {e : Entry ℤ} {es : Pmap ℤ} (service : Service) (g : Generation)
      → get_service e.value t ≡ some service
      → service.current ≡ some g
      → g.orphan_since ≡ at since
      → has_timer t e.value ≡ true
      → AllOrphans since t es
      → AllOrphans since t (e ∷ es)

-- What the loop leaves.
pub record Inactivated (since : ℤ) (es : Pmap ℤ) (s t : Sd) : Type 0 where
  pub orphans : AllOrphans since t es
  pub others : (j : ℕ) → IsOutside j es → Pmap.get t.db.services j ≡ Pmap.get s.db.services j
  pub other_timers : (j : ℕ) → IsOutside j es → Pmap.get t.orphans j ≡ Pmap.get s.orphans j
  pub clients_eq : t.db.clients ≡ s.db.clients
  pub subs_eq : t.db.subs ≡ s.db.subs
  pub now_eq : t.now ≡ s.now

-- A change of one service leaves the others ready.
AllReady-Modified :
    (since id : ℤ) (s t : Sd) (service : Service) (es : Pmap ℤ)
    → Modified id s t service
    → IsOutside (to_u64 id) es
    → AllReady since s es
    → AllReady since t es
AllReady-Modified since id s t service [] m out AllReady.no_more = AllReady.no_more
AllReady-Modified since id s t service (e ∷ es) m out
      (AllReady.one_more service' g p r ok tell apart ready) =
    AllReady.one_more service' g p
      (record {
        found = m.others (to_u64 e.value) (λ q. out.0 (sym q)) ∙ r.found;
        id_eq = r.id_eq;
        idle = r.idle;
        current_eq = r.current_eq;
        props_eq = r.props_eq;
        timer = ground (
          arith,
          has_key-get t.orphans (to_u64 e.value),
          has_key-get s.orphans (to_u64 e.value),
          m.other_timers (to_u64 e.value) (λ q. out.0 (sym q)),
          r.timer,
        );
        timers = m.timers;
      })
      ok (coe 1 0 (i. AllTell (changed (orphaning since) service' g) (m.subs_eq i)) tell) apart
      (AllReady-Modified since id s t service es m out.1 ready)

orphan-IsConsistent :
    (since : ℤ) (g : Generation)
    → Generation.is_consistent g ≡ true
    → Generation.is_consistent (each (orphaning since) g) ≡ true
unfolding Generation.is_consistent each
orphan-IsConsistent since g ok = ground arith

inactivate_one :
    (since : ℤ) (e : Entry ℤ) (s : Sd)
    → service_handle_conn_inactivation since e s
      ≡ modify_service e.value (set_each (orphaning since)) s
unfolding service_handle_conn_inactivation set_each
inactivate_one since e s =
    let same : (b : Service)
        → Service.set_orphan_since b (at since) ≡ set_each (orphaning since) b =
      λ b. ground arith in
    λ i. modify_service e.value (λ b. same b i) s

-- Every service of a connection that goes down becomes an orphan at that time and gets a timer; the
-- subscriptions are told. No other service, timer, client or subscription changes.
pub inactivate_lem :
    (since : ℤ) (es : Pmap ℤ) (s : Sd)
    → is_nonneg since ≡ true
    → AllReady since s es
    → (t : Sd) × (for_each (service_handle_conn_inactivation since) es s ≡ some (tt, t))
      × Inactivated since es s t
unfolding for_each each
inactivate_lem since [] s h AllReady.no_more = (
  s,
  refl,
  record {
    orphans = AllOrphans.no_more;
    others = λ j o. refl;
    other_timers = λ j o. refl;
    clients_eq = refl;
    subs_eq = refl;
    now_eq = refl;
  },
)
inactivate_lem since (e ∷ es) s h (AllReady.one_more service g p r ok tell apart ready) =
    let (u, ran, calls, m) =
      modify_service_lem e.value s service g p (orphaning since) r (orphan-IsConsistent since g ok)
        tell in
    let (t, rest, done) =
      inactivate_lem since es u h (AllReady-Modified since e.value s u _ es m apart ready) in
    (
      t,
      ground (arith, inactivate_one since e s, ran, rest),
      record {
        orphans =
            AllOrphans.one_more (changed (orphaning since) service g) (each (orphaning since) g)
              (done.others (to_u64 e.value) apart ∙ m.found) refl refl
              (ground (
                arith,
                has_key-get t.orphans (to_u64 e.value),
                has_key-get u.orphans (to_u64 e.value),
                done.other_timers (to_u64 e.value) apart,
                m.timer,
                h,
              ))
              done.orphans;
        others = λ j o. done.others j o.1 ∙ m.others j o.0;
        other_timers = λ j o. done.other_timers j o.1 ∙ m.other_timers j o.0;
        clients_eq = done.clients_eq ∙ m.clients_eq;
        subs_eq = done.subs_eq ∙ m.subs_eq;
        now_eq = done.now_eq ∙ m.now_eq;
      },
    )
