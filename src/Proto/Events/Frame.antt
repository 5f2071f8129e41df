-- ===== src/Proto/Events/Frame.antt =====
-- The operations of src/proto/proto_conn.c that leave the two lists of src/proto/server.c and the
-- clients of the connections as they are, which is all but hello and the end of a connection.
use tpaf.Prelude.{
  ℕ, ◌≡◌, refl, ap, subst, ◌∙◌, Bool, true, false, Option, none, some, List, [], ◌∷◌, arith, inl,
  inr, Option-cases, Bool-cases, ◌==◌, ==_iff, if◌then◌else◌,
}
use tpaf.Prelude.Int.{ℤ}
use mathlib.Core.Option
use tpaf.Util.Pmap
use tpaf.Util.Pmap.Laws.{IsDistinct, get-update, update-IsDistinct}
use tpaf.Proto.World.{World, ProtoConn, W, ◌>>=◌, pure, lift, fault, for_each, conn, put_conn}

-- The client of a connection that is there.
abbrev pub client_of : World → ℕ → Option ℤ
client_of w c = Option.map (λ (own : ProtoConn). own.client_id) (Pmap.get w.conns c)

pub record Frame (w w' : World) : Type 0 where
  pub same_ids : (c : ℕ) → client_of w' c ≡ client_of w c
  pub distinct : IsDistinct w.conns → IsDistinct w'.conns
  pub same_client : w'.client_conns ≡ w.client_conns
  pub same_clientless : w'.clientless_conns ≡ w.clientless_conns

pub Frame-refl : (w : World) → Frame w w
Frame-refl w = record {
  same_ids = λ c. refl;
  distinct = λ d. d;
  same_client = refl;
  same_clientless = refl;
}

pub Frame-trans : (u v w : World) → Frame u v → Frame v w → Frame u w
Frame-trans u v w f g = record {
  same_ids = λ c. g.same_ids c ∙ f.same_ids c;
  distinct = λ d. g.distinct (f.distinct d);
  same_client = g.same_client ∙ f.same_client;
  same_clientless = g.same_clientless ∙ f.same_clientless;
}

-- A write to a connection that leaves it its client.
pub update-Frame :
    (w : World) (c : ℕ) (own changed : ProtoConn)
    → Pmap.get w.conns c ≡ some own
    → changed.client_id ≡ own.client_id
    → Frame w (record w { conns = Pmap.update w.conns c changed })
update-Frame w c own changed found same = record {
  same_ids = λ d. elim (Bool-cases (c == d)) [
    | inl hit ↦
        rw (get-update w.conns c d changed own found, hit)
          (ap some same ∙ rw (← (==_iff c d).0 hit, found) refl)
    | inr miss ↦ rw (get-update w.conns c d changed own found, miss) refl
  ];
  distinct = update-IsDistinct w.conns c changed;
  same_client = refl;
  same_clientless = refl;
}

-- If the action returns, it leaves the frame as it was.
abbrev pub Keeps : {A : Type 0} → W A → World → Type 0
Keeps {A = A} m w = (a : A) (w' : World) → m w ≡ some (a, w') → Frame w w'

pub bind-Keeps :
    {A B : Type 0} (m : W A) (f : A → W B) (w : World)
    → Keeps m w
    → ((a : A) (v : World) → m w ≡ some (a, v) → Keeps (f a) v)
    → Keeps (m >>= f) w
bind-Keeps m f w k l b w' e = elim (Option-cases (m w)) [
  | inl bad ↦ absurd (ground arith)
  | inr ((a, v), ran) ↦ Frame-trans w v w' (k a v ran) (l a v ran b w' (ground arith))
]

pub pure-Keeps : {A : Type 0} (a : A) (w : World) → Keeps (pure a) w
pure-Keeps a w b w' e = subst (Frame w) (ground arith) (Frame-refl w)

pub lift-Keeps : {A : Type 0} (o : Option A) (w : World) → Keeps (lift o) w
lift-Keeps none w b w' e = absurd (ground arith)
lift-Keeps (some a) w b w' e = subst (Frame w) (ground arith) (Frame-refl w)

pub fault-Keeps : {A : Type 0} (w : World) → Keeps (fault {A = A}) w
fault-Keeps w b w' e = absurd (ground arith)

pub for_each-Keeps :
    {A : Type 0} (body : A → W (Unit {0})) (xs : List A)
    → ((x : A) (w : World) → Keeps (body x) w)
    → (w : World) → Keeps (for_each body xs) w
unfolding for_each
for_each-Keeps body [] k w = pure-Keeps tt w
for_each-Keeps body (x ∷ xs) k w =
    bind-Keeps (body x) (λ _. for_each body xs) w (k x w) (λ _ v ran. for_each-Keeps body xs k v)

-- What follows on reading a connection knows that it is there.
pub conn-Keeps :
    {B : Type 0} (c : ℕ) (f : ProtoConn → W B) (w : World)
    → ((own : ProtoConn) → Pmap.get w.conns c ≡ some own → Keeps (f own) w)
    → Keeps (conn c >>= f) w
conn-Keeps c f w k b w' e = elim (Option-cases (Pmap.get w.conns c)) [
  | inl bad ↦ absurd (ground arith)
  | inr (own, found) ↦ k own found b w' (ground arith)
]

-- So does what follows on a value that is there.
pub lift_bind-Keeps :
    {A B : Type 0} (o : Option A) (f : A → W B) (w : World)
    → ((a : A) → o ≡ some a → Keeps (f a) w)
    → Keeps (lift o >>= f) w
lift_bind-Keeps none f w k b w' e = absurd (ground arith)
lift_bind-Keeps (some a) f w k b w' e = k a refl b w' e

pub put_conn-Keeps :
    (c : ℕ) (own changed : ProtoConn) (w : World)
    → Pmap.get w.conns c ≡ some own
    → changed.client_id ≡ own.client_id
    → Keeps (put_conn c changed) w
unfolding put_conn
put_conn-Keeps c own changed w found same a w' e =
    subst (Frame w) (ground arith) (update-Frame w c own changed found same)

pub if-Keeps :
    {A : Type 0} (b : Bool) (m n : W A) (w : World)
    → Keeps m w
    → Keeps n w
    → Keeps (if b then m else n) w
if-Keeps true m n w k l = k
if-Keeps false m n w k l = l
