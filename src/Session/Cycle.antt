-- ===== src/Session/Cycle.antt =====
-- The handshake of an Android hardware buffer over every request that names its session, as
-- src/video_bridge/src/session_engine.c answers it.
use lin_de_x.Base.{
  find_first-passes, true, arith, none, some, Option, ℕ, ◌≡◌, ◌≢◌, refl, Bool-cases, inl, inr, not,
  ◌&&◌, List, [], ◌∷◌, false, find_first, update_first, find_first-passes, ◌⊎◌,
}
use lin_de_x.Session.World.{Host}
use lin_de_x.Session.State.{
  Engine, Message, Session, find_session, is_session, status_ok, Pending, pending_none,
  await_handle, pending_complete, status_would_block, status_internal, status_unsupported,
  status_bad_message,
}
use lin_de_x.Session.Create.{Created}
use lin_de_x.Session.Ahb.{is_idle}
use lin_de_x.Session.Output.{Dequeued}
use lin_de_x.Session.Engine.{
  dispatch, engine_handle, handle_session, handled_by, is_complete_ahb, op_of, reject,
}
use lin_de_x.Session.Steps.{Steps, dispatch-Steps}

find-update_same :
    (id : ℕ) (new : Session) (ss : List Session) (s : Session)
    → is_session id new ≡ true
    → find_session id ss ≡ some s
    → find_session id (update_first (is_session id) (λ _. new) ss) ≡ some new
unfolding find_first update_first
find-update_same id new [] s n f = absurd cc
find-update_same id new (x ∷ xs) s n f = ground (arith, find-update_same id new xs s n)

-- A session stands in the table under that id, with its handshake in that state.
abbrev pub Stands : ℕ → List Session → Pending → Type 0
Stands id ss p = (s : Session) × (find_session id ss ≡ some s) × (s.pending ≡ p)

-- What an answer leaves of the handshake of the session that its request names.
unfoldable pub Cycle :
    {W : Type 0} (h : Host W) → W → Engine → Message → Session → Option (Created h) → Type 0
Cycle h w e request s none = ⊥
Cycle h w e request s (some c) =
    let id = request.header.session_id in
    let opcode = request.header.opcode in
    -- While the handshake is under way, every request but COMPLETE_AHB is refused.
    ((s.pending ≡ pending_none)
      ⊎ (opcode ≡ 12)
      ⊎ ((c.status ≢ status_ok) × (c.engine ≡ e) × (c.world ≡ w)))
    -- It moves only by QUEUE_AHB and COMPLETE_AHB, and only an idle session is closed.
    × (Stands id c.engine.sessions s.pending
        ⊎ ((opcode ≡ 11)
            × (c.status ≡ status_ok)
            × (s.pending ≡ pending_none)
            × Stands id c.engine.sessions await_handle)
        ⊎ ((opcode ≡ 12)
            × (c.status ≡ status_ok)
            × (s.pending ≡ pending_complete)
            × Stands id c.engine.sessions pending_none)
        ⊎ ((opcode ≡ 8) × (c.status ≡ status_ok) × (s.pending ≡ pending_none)))

-- What the test before the dispatch leaves.
gate-cases :
    (opcode : ℕ) (p : Pending)
    → (not (is_idle p) && not (is_complete_ahb (op_of opcode))) ≡ false
    → (p ≡ pending_none) ⊎ (opcode ≡ 12)
unfolding op_of
gate-cases opcode p b = ground arith

module _ {W : Type 0} (h : Host W) (w : W) (e : Engine) (request reply : Message)
    (s : Session) where
  -- The written table has the session that the handler left, unless that is closed.
  stepped-Cycle :
      (d : Dequeued W)
      → find_session request.header.session_id e.sessions ≡ some s
      → (s.pending ≡ pending_none) ⊎ (request.header.opcode ≡ 12)
      → Steps request.header.opcode d.handled.status s d.handled.session
      → Cycle h w e request s (handled_by h e request.header.session_id d)
  unfolding Cycle handled_by
  stepped-Cycle d found gate step =
      let named = find_first-passes (is_session request.header.session_id) e.sessions s found in
      let stands = find-update_same request.header.session_id d.handled.session e.sessions s in
      (
        elim gate [ inl idle ↦ inl idle | inr complete ↦ inr (inl complete) ],
        elim step [
          | inl goes ↦ inl (d.handled.session, stands (ground arith) found, goes.2)
          | inr (inl (o, k, b, goes)) ↦
              inr (inl (o, k, b, (d.handled.session, stands (ground arith) found, goes.2)))
          | inr (inr (inl (o, k, b, goes))) ↦
              inr (inr (inl (o, k, b, (d.handled.session, stands (ground arith) found, goes.2))))
          | inr (inr (inr closes)) ↦ inr (inr (inr closes))
        ],
      )

  rejected-Cycle :
      (status : ℕ)
      → status ≢ status_ok
      → find_session request.header.session_id e.sessions ≡ some s
      → Cycle h w e request s (reject h status w e reply)
  unfolding Cycle
  rejected-Cycle status bad found = (inr (inr (bad, refl, refl)), inl (s, found, refl))

  handle_session-Cycle :
      find_session request.header.session_id e.sessions ≡ some s
      → Cycle h w e request s (handle_session h w e request reply)
  unfolding handle_session handled_by Cycle
  handle_session-Cycle found =
      let op = op_of request.header.opcode in
      elim (Bool-cases (not (is_idle s.pending) && not (is_complete_ahb op))) [
        | inl b ↦ rw (found, b, Cycle) (rejected-Cycle status_would_block (λ x. omega arith) found)
        | inr b ↦
            rw (found, b, Cycle)
              (stepped-Cycle (dispatch h op e.next_output_id w s request reply) found
                (gate-cases request.header.opcode s.pending b)
                (dispatch-Steps h w s request reply e.next_output_id request.header.opcode op refl
                  b))
      ]

  -- If a session is in the table under the id that a request carries, and the opcode is not
  -- CREATE_SESSION: while a hardware buffer is on its way, every request but COMPLETE_AHB (12) is
  -- answered with a status other than OK and leaves the engine and the world as they were. After
  -- any answer the session stands under its id with its handshake as before, except that an OK to
  -- QUEUE_AHB (11) takes it from idle to awaiting the buffer, an OK to COMPLETE_AHB takes it from
  -- completed to idle, and an OK to CLOSE_SESSION (8) is given only to an idle session.
  pub engine_handle-Cycle :
      find_session request.header.session_id e.sessions ≡ some s
      → request.header.opcode ≢ 3
      → Cycle h w e request s (engine_handle h w e request reply)
  unfolding engine_handle
  engine_handle-Cycle found uncreated = ground (
    arith,
    rejected-Cycle status_internal (λ x. omega arith) found,
    rejected-Cycle status_unsupported (λ x. omega arith) found,
    rejected-Cycle status_bad_message (λ x. omega arith) found,
    handle_session-Cycle found,
  )
