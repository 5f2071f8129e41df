-- ===== src/Proto/Events/Hello.antt =====
-- The requests of src/proto/proto_conn.c, hello among them, and the two lists of connections.
use tpaf.Prelude.{
  ◌||◌, ℕ, ◌≡◌, sym, subst, ◌∙◌, Bool, true, false, some, [], ◌∷◌, ◌++◌, arith, inl, inr,
  Option-cases, Bool-cases, get_elem?, some-injective,
}
use tpaf.Prelude.Int.{ℤ, is_nonneg, ltb_ℤ}
use tpaf.Clib.Str.{Str}
use tpaf.Util.Pmap
use tpaf.Sd.Server
use tpaf.Proto.Json.{Json}
use tpaf.Proto.Names.{
  version, fail_reason_client_id_exists, fail_reason_unsupported_protocol_version,
}
use tpaf.Proto.Types.{FieldType, TaType}
use tpaf.Proto.Encoding.{uint63}
use tpaf.Proto.Ta
use tpaf.Proto.Ta.{Ta, type_eq, get_value, get_req_field_value, get_req_field_uint63_value}
use tpaf.Proto.Ta.Requests.{IsRequested, uint63_value, req-IsRequested}
use tpaf.Proto.World.{World, ProtoConn, has_finished_handshake, put_conn}
use tpaf.Proto.Lists.{handshake, remove}
use tpaf.Proto.Notify.{on_sd}
use tpaf.Proto.Conn.{hello_connect, handle_hello, handle_cmd, handle_req}
use tpaf.Proto.Events.Frame.{Frame}
use tpaf.Proto.Events.Handlers.{
  on_sd-Keeps, complete-Keeps, fail-Keeps, dispatch-Keeps, no_hello-Keeps, hello_again-Keeps,
}
use tpaf.Proto.Events.Invariant.{IsParted, Frame-IsParted, handshake-IsParted}

module _ (J : Json) where
  nonneg_at :
      (ta : Ta) (type : TaType) (i : ℕ) (name : Str) (field_type : FieldType) (z : ℤ)
      → IsRequested J ta type
      → get_elem? type.req_fields i ≡ some (record { name = name; type = field_type })
      → get_req_field_uint63_value ta i ≡ some z
      → is_nonneg z ≡ true
  unfolding get_req_field_uint63_value get_req_field_value get_value type_eq
  nonneg_at ta type i name FieldType.uint63 z r at got =
      let (y, e, nonneg) = uint63_value J ta type i name r at in
      subst (λ x. is_nonneg x ≡ true) (some-injective (sym e ∙ got)) nonneg
  nonneg_at ta type i name FieldType.str z r at got = absurd (ground (arith, r.has_type))
  nonneg_at ta type i name FieldType.number z r at got = absurd (ground (arith, r.has_type))
  nonneg_at ta type i name FieldType.props z r at got = absurd (ground (arith, r.has_type))
  nonneg_at ta type i name FieldType.match_type z r at got = absurd (ground (arith, r.has_type))

  -- An integer of an accepted request is not negative.
  uint63_nonneg :
      (ta : Ta) (type : TaType) (i : ℕ) (z : ℤ)
      → IsRequested J ta type
      → get_req_field_uint63_value ta i ≡ some z
      → is_nonneg z ≡ true
  unfolding get_req_field_uint63_value get_req_field_value get_value
  uint63_nonneg ta type i z r got = elim (Option-cases (get_elem? type.req_fields i)) [
    | inl missing ↦ absurd (ground (arith, r.has_type))
    | inr (f, at) ↦ nonneg_at ta type i f.name f.type z r at got
  ]

  hello_connect-IsParted :
      (c : ℕ) (ta ta' : Ta) (client_id : ℤ) (own : ProtoConn) (w w' : World)
      → IsParted w
      → Pmap.get w.conns c ≡ some own
      → has_finished_handshake own ≡ false
      → is_nonneg client_id ≡ true
      → hello_connect J c ta client_id own.remote_addr w ≡ some (ta', w')
      → IsParted w'
  unfolding hello_connect handshake put_conn has_finished_handshake
  hello_connect-IsParted c ta ta' client_id own w w' p found early nonneg e =
      elim (Option-cases (on_sd J (Server.client_connect client_id own.remote_addr) w)) [
        | inl bad ↦ absurd (ground arith)
        | inr ((rc, v), ran) ↦
            let f = on_sd-Keeps J (Server.client_connect client_id own.remote_addr) w rc v ran in
            let q = Frame-IsParted w v f p in
            elim (Option-cases (Pmap.get v.conns c)) [
              | inl gone ↦ absurd (ground (arith, f.same_ids c))
              | inr (now, there) ↦
                  let id : now.client_id ≡ own.client_id = ground (arith, f.same_ids c) in
                  elim (Option-cases (remove v.clientless_conns c)) [
                    | inl missing ↦
                        Frame-IsParted v w'
                          (ground (arith, fail-Keeps J c ta fail_reason_client_id_exists v ta' w'))
                          q
                    | inr (rest, removed) ↦
                        let changed = record now { client_id = client_id } in
                        let u = record v {
                          conns = Pmap.update v.conns c changed;
                          clientless_conns = rest;
                          client_conns = v.client_conns ++ c ∷ [];
                        } in
                        let h : IsParted u =
                          handshake-IsParted v c now changed rest q there (rw id early) nonneg
                            removed in
                        ground (
                          arith,
                          λ (k : Frame v w'). Frame-IsParted v w' k q,
                          λ (k : Frame u w'). Frame-IsParted u w' k h,
                          fail-Keeps J c ta fail_reason_client_id_exists v ta' w',
                          complete-Keeps J c ta (some (uint63 version) ∷ []) u ta' w',
                        )
                  ]
            ]
      ]

  handle_hello-IsParted :
      (c : ℕ) (ta ta' : Ta) (type : TaType) (w w' : World)
      → IsRequested J ta type
      → IsParted w
      → handle_hello J c ta w ≡ some (ta', w')
      → IsParted w'
  unfolding handle_hello
  handle_hello-IsParted c ta ta' type w w' r p e =
      elim (Option-cases (get_req_field_uint63_value ta 0)) [
        | inl bad ↦ absurd (ground arith)
        | inr (client_id, got) ↦ elim (Option-cases (get_req_field_uint63_value ta 1)) [
          | inl bad ↦ absurd (ground arith)
          | inr (min, got_min) ↦ elim (Option-cases (get_req_field_uint63_value ta 2)) [
            | inl bad ↦ absurd (ground arith)
            | inr (max, got_max) ↦ elim (Option-cases (Pmap.get w.conns c)) [
              | inl bad ↦ absurd (ground arith)
              | inr (own, found) ↦ elim (Bool-cases (has_finished_handshake own)) [
                | inl done ↦
                    Frame-IsParted w w'
                      (hello_again-Keeps J c ta own.client_id client_id w ta' w' (ground arith)) p
                | inr early ↦ elim (Bool-cases (ltb_ℤ version min || ltb_ℤ max version)) [
                  | inl unsupported ↦
                      Frame-IsParted w w'
                        (fail-Keeps J c ta fail_reason_unsupported_protocol_version w ta' w'
                          (ground arith))
                        p
                  | inr supported ↦
                      hello_connect-IsParted c ta ta' client_id own w w' p found early
                        (uint63_nonneg ta type 0 client_id r got) (ground arith)
                ]
              ]
            ]
          ]
        ]
      ]

  handle_cmd-IsParted :
      (c : ℕ) (ta ta' : Ta) (type : TaType) (w w' : World)
      → IsRequested J ta type
      → IsParted w
      → handle_cmd J c ta w ≡ some (ta', w')
      → IsParted w'
  unfolding handle_cmd
  handle_cmd-IsParted c ta ta' type w w' r p e = elim (Option-cases (Ta.get_cmd ta)) [
    | inl bad ↦ absurd (ground arith)
    | inr (cmd, named) ↦ elim (Option-cases (Pmap.get w.conns c)) [
      | inl bad ↦ absurd (ground arith)
      | inr (own, found) ↦ ground (
        arith,
        λ (k : Frame w w'). Frame-IsParted w w' k p,
        dispatch-Keeps J c ta cmd w ta' w',
        no_hello-Keeps J c ta w ta' w',
        handle_hello-IsParted c ta ta' type w w' r p,
      )
    ]
  ]

  -- Whatever a connection sends, and whatever becomes of it.
  pub handle_req-IsParted :
      (c : ℕ) (msg : Str) (kept : Bool) (w w' : World)
      → IsParted w
      → handle_req J c msg w ≡ some (kept, w')
      → IsParted w'
  unfolding handle_req
  handle_req-IsParted c msg kept w w' p e = elim (Option-cases (Ta.req J Ta.create msg)) [
    | inl bad ↦ absurd (ground arith)
    | inr ((ta, false), read) ↦ let same : w ≡ w' = ground arith in subst IsParted same p
    | inr ((ta, true), read) ↦
        let (j, type, loaded, r, others) = req-IsRequested J ta msg read in
        elim (Option-cases (handle_cmd J c ta w)) [
          | inl bad ↦ absurd (ground arith)
          | inr ((ta', v), ran) ↦
              let same : v ≡ w' = ground arith in
              subst IsParted same (handle_cmd-IsParted c ta ta' type w v r p ran)
        ]
  ]
