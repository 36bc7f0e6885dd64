-- ===== src/Session/Identity.antt =====
-- The identity of a reply, which src/video_bridge/src/broker.c writes, in the handlers of
-- src/video_bridge/src/session_engine.c.
use lin_de_x.Base.{
  if◌then◌else◌, is_some, arith, none, some, Option, ℕ, ◌≡◌, ◌≢◌, refl, Bool-cases, Option-cases,
  inl, inr, not, ◌&&◌, ◌==◌, ◌!=◌, ◌||◌,
}
use lin_de_x.Session.World.{Host, Config, BackendOutput}
use lin_de_x.Session.State.{
  Engine, Message, Session, find_session, status_ok, allocate_session_id, write_status,
}
use lin_de_x.Session.Create.{Created, handle_create, opened, read_config, registry_failure}
use lin_de_x.Session.Input.{handle_queue, queue_loaded, load_input, queued}
use lin_de_x.Session.Ahb.{
  is_idle, handle_queue_ahb, await_ahb, handle_complete_ahb, complete_in, completed_ahb,
}
use lin_de_x.Session.Ingress.{
  handle_register_dmabuf, registry_answer, handle_unregister_dmabuf, handle_queue_dmabuf,
  queue_dmabuf_to, begun, submitted, handle_complete_dmabuf, completed_dmabuf, completion_reply,
}
use lin_de_x.Session.Output.{
  handle_dequeue, dequeued_output, dequeue_bytes, dequeue_ahb, entered, handle_release,
  release_slot, freed, handle_transfer_ahb, handle_transfer_prime, exported, output_reply,
}
use lin_de_x.Session.Engine.{
  queue_input, dequeue_output, release_output, flush, close_session, create_session, transfer_ahb,
  queue_ahb, complete_ahb, register_dmabuf, unregister_dmabuf, queue_dmabuf, complete_dmabuf,
  transfer_prime, other, dispatch, flushed, handle_flush, handle_close, engine_handle,
  handle_session, handled_by, Op, is_complete_ahb, op_of,
}

-- The fields of the header that a handler does not write, but for the session of a new one.
abbrev pub SameRequest : Message → Message → Type 0
SameRequest m m' =
    (m'.header.major ≡ m.header.major)
    × (m'.header.minor ≡ m.header.minor)
    × (m'.header.message_type ≡ m.header.message_type)
    × (m'.header.opcode ≡ m.header.opcode)
    × (m'.header.request_id ≡ m.header.request_id)

abbrev pub Same : Message → Message → Type 0
Same m m' = (m'.header.session_id ≡ m.header.session_id) × SameRequest m m'

module _ {W : Type 0} (h : Host W) (w : W) (s : Session) (request reply : Message) where
  handle_queue-Same : Same reply (handle_queue h w s request reply).reply
  unfolding handle_queue queue_loaded load_input queued write_status
  handle_queue-Same = ground arith

  handle_queue_ahb-Same : Same reply (handle_queue_ahb h w s request reply).reply
  unfolding handle_queue_ahb await_ahb write_status
  handle_queue_ahb-Same = ground arith

  handle_complete_ahb-Same : Same reply (handle_complete_ahb h w s request reply).reply
  unfolding handle_complete_ahb complete_in completed_ahb
  handle_complete_ahb-Same = ground arith

  handle_register-Same : Same reply (handle_register_dmabuf h w s request reply).reply
  unfolding handle_register_dmabuf registry_answer write_status
  handle_register-Same = ground arith

  handle_queue_dmabuf-Same : Same reply (handle_queue_dmabuf h w s request reply).reply
  unfolding handle_queue_dmabuf queue_dmabuf_to begun submitted write_status
  handle_queue_dmabuf-Same = ground arith

  handle_complete_dmabuf-Same : Same reply (handle_complete_dmabuf h w s request reply).reply
  unfolding handle_complete_dmabuf completed_dmabuf completion_reply
  handle_complete_dmabuf-Same = ground arith

  handle_unregister-Same : Same reply (handle_unregister_dmabuf h w s request reply).reply
  unfolding handle_unregister_dmabuf registry_answer write_status
  handle_unregister-Same = ground arith

  handle_release-Same : Same reply (handle_release h w s request reply).reply
  unfolding handle_release release_slot freed write_status
  handle_release-Same = ground arith

  handle_transfer_ahb-Same : Same reply (handle_transfer_ahb h w s request reply).reply
  unfolding handle_transfer_ahb write_status
  handle_transfer_ahb-Same = ground arith

  handle_transfer_prime-Same : Same reply (handle_transfer_prime h w s request reply).reply
  unfolding handle_transfer_prime exported write_status
  handle_transfer_prime-Same = ground arith

  handle_flush-Same : Same reply (handle_flush h w s request reply).reply
  unfolding handle_flush flushed write_status
  handle_flush-Same = ground arith

  handle_close-Same : Same reply (handle_close h w s request reply).reply
  unfolding handle_close write_status
  handle_close-Same = ground arith

  module _ (n : ℕ) where
    entered-Same :
        (w' : W) (o : BackendOutput) (fd : Option ℕ)
        → Same reply (entered h n w' s reply o fd).handled.reply
    unfolding entered output_reply
    entered-Same w' o fd = (refl, (refl, refl, refl, refl, refl))

    dequeue_bytes-Same :
        (w' : W) (o : BackendOutput) → Same reply (dequeue_bytes h n w' s reply o).handled.reply
    unfolding dequeue_bytes
    dequeue_bytes-Same w' o =
        let (fd, v) = h.files.sealed_output w' o.bytes o.size in
        elim (Bool-cases (is_some o.native_buffer || is_some o.acquire_fence)) [
          | inl a ↦ rw a (refl, (refl, refl, refl, refl, refl))
          | inr a ↦ elim (Bool-cases (is_some fd)) [
            | inl b ↦ rw (a, b) (entered-Same _ o fd)
            | inr b ↦ rw (a, b) (refl, (refl, refl, refl, refl, refl))
          ]
        ]

    dequeue_ahb-Same :
        (w' : W) (o : BackendOutput) → Same reply (dequeue_ahb h n w' s reply o).handled.reply
    unfolding dequeue_ahb
    dequeue_ahb-Same w' o = ground (arith, entered-Same w' o none)

    dequeued_output-Same :
        (result : ℕ × BackendOutput × W)
        → Same reply (dequeued_output h n s reply result).handled.reply
    unfolding dequeued_output
    dequeued_output-Same (status, o, w') =
        let o' = record o { transport = if o.transport == 0 then 1 else o.transport } in
        ground (arith, dequeue_bytes-Same w' o', dequeue_ahb-Same w' o')

    handle_dequeue-Same : Same reply (handle_dequeue h n w s request reply).handled.reply
    unfolding handle_dequeue
    handle_dequeue-Same = ground (arith, dequeued_output-Same (h.backend.dequeue_output w s.handle))

    dispatch-Same : (op : Op) → Same reply (dispatch h op n w s request reply).handled.reply
    unfolding dispatch
    dispatch-Same queue_input = handle_queue-Same
    dispatch-Same dequeue_output = handle_dequeue-Same
    dispatch-Same release_output = handle_release-Same
    dispatch-Same transfer_ahb = ground (arith, handle_transfer_ahb-Same)
    dispatch-Same transfer_prime = ground (arith, handle_transfer_prime-Same)
    dispatch-Same queue_ahb = handle_queue_ahb-Same
    dispatch-Same complete_ahb = handle_complete_ahb-Same
    dispatch-Same register_dmabuf = handle_register-Same
    dispatch-Same unregister_dmabuf = handle_unregister-Same
    dispatch-Same queue_dmabuf = handle_queue_dmabuf-Same
    dispatch-Same complete_dmabuf = handle_complete_dmabuf-Same
    dispatch-Same flush = handle_flush-Same
    dispatch-Same close_session = handle_close-Same
    dispatch-Same create_session = ground arith
    dispatch-Same other = ground arith

-- A reply of the engine to a request of an opcode: its session is the request's unless it is a new one.
unfoldable pub Answers : {W : Type 0} (h : Host W) → ℕ → Message → Option (Created h) → Type 0
Answers h opcode reply none = Unit {0}
Answers h opcode reply (some c) =
    SameRequest reply c.reply × (opcode ≢ 3 → c.reply.header.session_id ≡ reply.header.session_id)

module _ {W : Type 0} (h : Host W) (w : W) (e : Engine) (request reply : Message) (opcode : ℕ) where
  handle_session-Answers : Answers h opcode reply (handle_session h w e request reply)
  unfolding handle_session handled_by Answers
  handle_session-Answers = elim (Option-cases (find_session request.header.session_id e.sessions)) [
    | inl p ↦ rw (p, Answers) ((refl, refl, refl, refl, refl), λ _. refl)
    | inr (s, p) ↦
        elim (Bool-cases
          (not (is_idle s.pending) && not (is_complete_ahb (op_of request.header.opcode)))) [
            | inl b ↦ rw (p, b, Answers) ((refl, refl, refl, refl, refl), λ _. refl)
            | inr b ↦
                let same =
                  dispatch-Same h w s request reply e.next_output_id
                    (op_of request.header.opcode) in
                rw (p, b, Answers) (same.1, λ _. same.0)
          ]
  ]

  opened-Answers :
      (c : Config) (result : ℕ × Option ℕ × W)
      → opcode ≡ 3
      → Answers h opcode reply (opened h e reply c result)
  unfolding opened Answers write_status
  opened-Answers c (status, handle, w') created = elim (Bool-cases (status != status_ok)) [
    | inl q ↦ rw (q, Answers) ((refl, refl, refl, refl, refl), λ _. refl)
    | inr q ↦ elim (Option-cases handle) [
      | inl n ↦ rw (q, n, Answers) ((refl, refl, refl, refl, refl), λ _. refl)
      | inr (pointer, n) ↦ elim (Option-cases (registry_failure h c w')) [
        | inr (error, r) ↦ rw (q, n, r, Answers) ((refl, refl, refl, refl, refl), λ _. refl)
        | inl r ↦ elim (Option-cases (allocate_session_id 6 e.next_session_id e.sessions)) [
          | inl a ↦ rw (q, n, r, a, Answers) tt
          | inr (found, a) ↦
              rw (q, n, r, a, Answers)
                ((refl, refl, refl, refl, refl), λ other. absurd (other created))
        ]
      ]
    ]
  ]

  handle_create-Answers : opcode ≡ 3 → Answers h opcode reply (handle_create h w e request reply)
  unfolding handle_create Answers
  handle_create-Answers created = ground (
    arith,
    opened-Answers (read_config request.payload) (h.backend.create w (read_config request.payload))
        created,
  )

pub engine_handle-Answers :
    {W : Type 0} (h : Host W) (w : W) (e : Engine) (request reply : Message)
    → Answers h request.header.opcode reply (engine_handle h w e request reply)
unfolding engine_handle Answers
engine_handle-Answers h w e request reply = ground (
  arith,
  handle_session-Answers h w e request reply request.header.opcode,
  handle_create-Answers h w e request reply request.header.opcode,
)
