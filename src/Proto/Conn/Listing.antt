-- ===== src/Proto/Conn/Listing.antt =====
-- src/proto/proto_conn.c, handle_services, handle_subscriptions and handle_clients: the listings, an
-- `accept`, a notification for each entry, and a `complete`.
pub mod Messages
pub mod Requests
use tpaf.Prelude.{
  ℕ, true, false, ◌==◌, ◌≡◌, refl, ap, ◌∙◌, Option, none, some, List, [], ◌∷◌, ◌++◌, arith,
  append_assoc,
}
use tpaf.Clib.Str.{Str}
use tpaf.Util.Pmap
use tpaf.Util.Pmap.Laws.{get-update}
use tpaf.Proto.Json.{Json}
use tpaf.Proto.Names.{msg_type_accept, msg_type_complete}
use tpaf.Proto.Types.{TaType, multi_response}
use tpaf.Proto.Ta.{Ta, accepted, completed}
use tpaf.Proto.Ta.Requests.{IsRequested}
use tpaf.Proto.Ta.Answers.{plain}
use tpaf.Proto.World.{World, W, ProtoConn, for_each, queue_response, ◌>>=◌, ◌>>◌}
use tpaf.Proto.World.Queues.{Grown, Grown-refl, Grown-trans, queue_response-Grown}
use tpaf.Proto.Conn.{accept, complete}
use tpaf.Proto.Conn.Replies.{queued, accept_reply, complete_accepted_reply}

module _ (c : ℕ) where
  -- A callback that puts one message into the queue of the connection for each entry, or none.
  pub data Tells {A : Type 0} (body : A → W (Unit {0})) : List A → List Str → Type 0 where
    stop : Tells body [] []
    tells :
        (x : A) (msg : Str) (xs : List A) (msgs : List Str)
        → ((w : World) (own : ProtoConn)
            → Pmap.get w.conns c ≡ some own
            → body x w ≡ some (tt, queued w c own msg))
        → Tells body xs msgs
        → Tells body (x ∷ xs) (msg ∷ msgs)
    skips :
        (x : A) (xs : List A) (msgs : List Str)
        → ((w : World) → body x w ≡ some (tt, w))
        → Tells body xs msgs
        → Tells body (x ∷ xs) msgs

  -- Nothing but the connection has changed, and it has grown by the messages.
  pub record Listed (own : ProtoConn) (msgs : List Str) (w w' : World) : Type 0 where
    pub now : ProtoConn
    pub there : Pmap.get w'.conns c ≡ some now
    pub grown : Grown own msgs now
    pub same_sd : w'.sd ≡ w.sd
    pub same_client : w'.client_conns ≡ w.client_conns
    pub same_clientless : w'.clientless_conns ≡ w.clientless_conns
    pub same_matches : w'.match_conns ≡ w.match_conns
    pub others : (d : ℕ) → (c == d) ≡ false → Pmap.get w'.conns d ≡ Pmap.get w.conns d

  queued-Listed :
      (own : ProtoConn) (msg : Str) (w : World)
      → Pmap.get w.conns c ≡ some own
      → Listed own (msg ∷ []) w (queued w c own msg)
  queued-Listed own msg w found = record {
    now = queue_response own msg;
    there = ground (arith, get-update w.conns c c (queue_response own msg) own);
    grown = queue_response-Grown own msg;
    same_sd = refl;
    same_client = refl;
    same_clientless = refl;
    same_matches = refl;
    others = λ d miss. ground (arith, get-update w.conns c d (queue_response own msg) own);
  }

  Listed-trans :
      (own : ProtoConn) (m n : List Str) (w₁ w₂ w₃ : World) (l : Listed own m w₁ w₂)
      → Listed l.now n w₂ w₃
      → Listed own (m ++ n) w₁ w₃
  Listed-trans own m n w₁ w₂ w₃ l k = record {
    now = k.now;
    there = k.there;
    grown = Grown-trans own l.now k.now m n l.grown k.grown;
    same_sd = k.same_sd ∙ l.same_sd;
    same_client = k.same_client ∙ l.same_client;
    same_clientless = k.same_clientless ∙ l.same_clientless;
    same_matches = k.same_matches ∙ l.same_matches;
    others = λ d miss. k.others d miss ∙ l.others d miss;
  }

  for_each-Tells :
      {A : Type 0} (body : A → W (Unit {0})) (xs : List A) (msgs : List Str) (own : ProtoConn)
      (w : World)
      → Pmap.get w.conns c ≡ some own
      → Tells body xs msgs
      → (w' : World) × (for_each body xs w ≡ some (tt, w')) × Listed own msgs w w'
  unfolding for_each
  for_each-Tells body _ _ own w found stop = (
    w,
    refl,
    record {
      now = own;
      there = found;
      grown = Grown-refl own;
      same_sd = refl;
      same_client = refl;
      same_clientless = refl;
      same_matches = refl;
      others = λ d miss. refl;
    },
  )
  for_each-Tells body _ _ own w found (tells x msg xs msgs told rest) =
      let l = queued-Listed own msg w found in
      let (w', ran, k) = for_each-Tells body xs msgs l.now (queued w c own msg) l.there rest in
      (w', ground (arith, told w own found), Listed-trans own (msg ∷ []) msgs w _ w' l k)
  for_each-Tells body _ _ own w found (skips x xs msgs told rest) =
      let (w', ran, k) = for_each-Tells body xs msgs own w found rest in
      (w', ground (arith, told w), k)

  -- The three parts of a listing.
  pub listing_lem :
      {A : Type 0} (J : Json) (ta : Ta) (type : TaType) (body : A → W (Unit {0})) (xs : List A)
      (msgs : List Str) (own : ProtoConn) (w : World)
      → Pmap.get w.conns c ≡ some own
      → IsRequested J ta type
      → type.ia_type ≡ multi_response
      → type.complete_fields ≡ []
      → Tells body xs msgs
      → (mid after : World) × (accept J c ta w ≡ some (record ta { state = accepted }, mid))
        × (mid.sd ≡ w.sd)
        × ((do for_each body xs; complete J c (record ta { state = accepted }) []) mid
            ≡ some (record ta { state = completed }, after))
        × Listed own
            (plain J type ta.ta_id msg_type_accept ∷ msgs
              ++ plain J type ta.ta_id msg_type_complete ∷ [])
            w
            after
  listing_lem J ta type body xs msgs own w found r m n t =
      let start = plain J type ta.ta_id msg_type_accept in
      let end = plain J type ta.ta_id msg_type_complete in
      let ta' = record ta { state = accepted } in
      let l₁ = queued-Listed own start w found in
      let w₁ = queued w c own start in
      let (w₂, ran, l₂) = for_each-Tells body xs msgs l₁.now w₁ l₁.there t in
      let l₃ = queued-Listed l₂.now end w₂ l₂.there in
      let w₃ = queued w₂ c l₂.now end in
      (
        w₁,
        w₃,
        accept_reply J c own ta type w found r m,
        refl,
        ground (arith, complete_accepted_reply J c l₂.now ta' type w₂ l₂.there r.has_type m n refl),
        Listed-trans own (start ∷ []) (msgs ++ end ∷ []) w w₁ w₃ l₁
            (Listed-trans l₁.now msgs (end ∷ []) w₁ w₂ w₃ l₂ l₃),
      )
