-- ===== src/Session/Valid.antt =====
-- `advc_session_engine_handle` of src/video_bridge/src/session_engine.c on every request: what an
-- answer leaves of the table of sessions.
use lin_de_x.Base.{
  arith, none, some, Option, length, ℕ, ◌<◌, ◌≤◌, ◌≡◌, refl, subst, Bool-cases, Option-cases, inl,
  inr, not, ◌&&◌, ◌!=◌, length-update_first,
}
use lin_de_x.Session.World.{Host, Config}
use lin_de_x.Session.State.{
  free_session, Engine, Message, find_session, is_session, is_free, allocate_session_id, status_ok,
}
use lin_de_x.Session.Create.{
  Created, opened, handle_create, read_config, new_session, registry_failure,
}
use lin_de_x.Session.Ids.{Fresh, allocate_session_id-Fresh}
use lin_de_x.Session.Ahb.{is_idle}
use lin_de_x.Session.Engine.{
  engine_handle, handle_session, handled_by, dispatch, op_of, is_complete_ahb,
}

-- What an answer leaves of the table: as many slots, and a counter of 32 bits.
unfoldable pub Answered : {W : Type 0} (h : Host W) → Engine → Option (Created h) → Type 0
Answered h e none = ⊥
Answered h e (some c) =
    (length c.engine.sessions ≡ length e.sessions) × (c.engine.next_session_id < 4294967296)

module _ {W : Type 0} (h : Host W) where
  opened-Answered :
      (e : Engine) (reply : Message) (c : Config) (result : ℕ × Option ℕ × W)
      → length e.sessions ≤ 4
      → e.next_session_id < 4294967296
      → Answered h e (opened h e reply c result)
  unfolding opened Answered Fresh
  opened-Answered e reply c (status, handle, w) l m = elim (Bool-cases (status != status_ok)) [
    | inl q ↦ rw (q, Answered) (refl, m)
    | inr q ↦ elim (Option-cases handle) [
      | inl n ↦ rw (q, n, Answered) (refl, m)
      | inr (p, n) ↦ elim (Option-cases (registry_failure h c w)) [
        | inr (error, r) ↦
            rw (q, n, r, Answered) (length-update_first is_free (λ _. free_session) e.sessions, m)
        | inl r ↦ elim (Option-cases (allocate_session_id 6 e.next_session_id e.sessions)) [
          | inl a ↦ absurd (
              subst (Fresh e.sessions) a
                (allocate_session_id-Fresh e.next_session_id e.sessions m l))
          | inr (found, a) ↦
              rw (q, n, r, a, Answered)
                (
                  length-update_first is_free (λ _. new_session h c p found.0) e.sessions,
                  (subst (Fresh e.sessions) a
                      (allocate_session_id-Fresh e.next_session_id e.sessions m l)).2,
                )
        ]
      ]
    ]
  ]

  handle_create-Answered :
      (w : W) (e : Engine) (request reply : Message)
      → length e.sessions ≤ 4
      → e.next_session_id < 4294967296
      → Answered h e (handle_create h w e request reply)
  unfolding handle_create Answered
  handle_create-Answered w e request reply l m = ground (
    arith,
    opened-Answered e reply (read_config request.payload)
        (h.backend.create w (read_config request.payload)) l m,
  )

  handle_session-Answered :
      (w : W) (e : Engine) (request reply : Message)
      → e.next_session_id < 4294967296
      → Answered h e (handle_session h w e request reply)
  unfolding handle_session handled_by Answered
  handle_session-Answered w e request reply m =
      elim (Option-cases (find_session request.header.session_id e.sessions)) [
        | inl n ↦ rw (n, Answered) (refl, m)
        | inr (s, n) ↦
            elim (Bool-cases
              (not (is_idle s.pending) && not (is_complete_ahb (op_of request.header.opcode)))) [
                | inl b ↦ rw (n, b, Answered) (refl, m)
                | inr b ↦
                    rw (n, b, Answered)
                      (
                        length-update_first (is_session request.header.session_id)
                            (λ _.
                              (dispatch h (op_of request.header.opcode) e.next_output_id w s request
                                reply).handled.session)
                            e.sessions,
                        m,
                      )
              ]
      ]

  -- For a table of at most four sessions and a session counter below 2^32: every request is
  -- answered, and the answer leaves as many slots and a counter below 2^32.
  pub engine_handle-Answered :
      (w : W) (e : Engine) (request reply : Message)
      → length e.sessions ≤ 4
      → e.next_session_id < 4294967296
      → Answered h e (engine_handle h w e request reply)
  unfolding engine_handle Answered
  engine_handle-Answered w e request reply l m = ground (
    arith,
    handle_create-Answered w e request reply l m,
    handle_session-Answered w e request reply m,
  )
