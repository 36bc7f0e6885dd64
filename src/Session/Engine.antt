-- ===== src/Session/Engine.antt =====
-- `advc_session_engine_handle`, with `handle_flush` and `handle_close`,
-- `advc_session_engine_after_reply` and `advc_session_engine_destroy`.
use lin_de_x.Base.{
  ℕ, ◌==◌, ◌!=◌, ltb, ◌&&◌, ◌||◌, not, Bool, true, false, Option, none, some, List, [], ◌∷◌,
  if◌then◌else◌, find_first, update_first, bit_and,
}
use lin_de_x.Protocol.Wire.{get_u64}
use lin_de_x.Session.World.{Host}
use lin_de_x.Session.State.{
  Message, Session, Engine, OutputSlot, is_session, find_session, is_output, free_session,
  status_ok, status_bad_message, status_unsupported, status_would_block, status_internal,
  transport_dmabuf,
}
use lin_de_x.Session.Handled.{Handled, refuse, accept}
use lin_de_x.Session.Create.{Created, handle_create}
use lin_de_x.Session.Input.{handle_queue}
use lin_de_x.Session.Ahb.{
  is_idle, handle_queue_ahb, handle_complete_ahb, receive_ahb, flag_ahb_follows,
}
use lin_de_x.Session.Ingress.{
  handle_register_dmabuf, handle_unregister_dmabuf, handle_queue_dmabuf, handle_complete_dmabuf,
  release_dmabuf_state,
}
use lin_de_x.Session.Output.{
  Dequeued, keep_id, handle_dequeue, handle_release, handle_transfer_ahb, handle_transfer_prime,
  release_outstanding,
}

-- The opcodes that the engine serves, and any other.
pub data Op : Type 0 where
  create_session queue_input dequeue_output release_output flush close_session : Op
  transfer_ahb queue_ahb complete_ahb register_dmabuf unregister_dmabuf : Op
  queue_dmabuf complete_dmabuf transfer_prime other : Op

unfoldable pub op_of : ℕ → Op
op_of n =
    if n == 3
    then create_session
    else if n == 4
    then queue_input
    else if n == 5
    then dequeue_output
    else if n == 6
    then release_output
    else if n == 7
    then flush
    else if n == 8
    then close_session
    else if n == 9
    then transfer_ahb
    else if n == 11
    then queue_ahb
    else if n == 12
    then complete_ahb
    else if n == 13
    then register_dmabuf
    else if n == 14
    then unregister_dmabuf
    else if n == 15
    then queue_dmabuf
    else if n == 16
    then complete_dmabuf
    else if n == 17
    then transfer_prime
    else other

abbrev pub is_complete_ahb : Op → Bool
is_complete_ahb complete_ahb = true
is_complete_ahb _ = false

module _ {W : Type 0} (h : Host W) where
  unfoldable pub flushed : Session → Message → ℕ × W → Handled W
  flushed s reply (status, w) =
      if status == status_ok
      then (let (s', w') = release_outstanding h w s in accept s' reply w')
      else refuse status s reply w

  unfoldable pub handle_flush : W → Session → Message → Message → Handled W
  handle_flush w s request reply =
      if request.header.payload_size != 0 || request.header.fd_count != 0
      then refuse status_bad_message s reply w
      else if s.transport == transport_dmabuf
      then refuse status_unsupported s reply w
      else flushed s reply (h.backend.flush w s.handle)

  -- Outputs and dma-bufs are released, then the backend's session is destroyed.
  unfoldable pub closed : W → Session → W
  closed w s =
      let (s', w') = release_outstanding h w s in
      h.backend.destroy (release_dmabuf_state h w' s').1 s.handle

  unfoldable pub handle_close : W → Session → Message → Message → Handled W
  handle_close w s request reply =
      if request.header.payload_size != 0 || request.header.fd_count != 0
      then refuse status_bad_message s reply w
      else accept free_session reply (closed w s)

  -- The `switch` on the opcode, for a session that was found.
  unfoldable pub dispatch : Op → ℕ → W → Session → Message → Message → Dequeued W
  dispatch queue_input n w s request reply = keep_id h n (handle_queue h w s request reply)
  dispatch dequeue_output n w s request reply = handle_dequeue h n w s request reply
  dispatch release_output n w s request reply = keep_id h n (handle_release h w s request reply)
  dispatch transfer_ahb n w s request reply = keep_id h n (
      if ltb request.header.minor 2
      then refuse status_unsupported s reply w
      else handle_transfer_ahb h w s request reply)
  dispatch transfer_prime n w s request reply = keep_id h n (
      if ltb request.header.minor 6
      then refuse status_unsupported s reply w
      else handle_transfer_prime h w s request reply)
  dispatch queue_ahb n w s request reply = keep_id h n (handle_queue_ahb h w s request reply)
  dispatch complete_ahb n w s request reply = keep_id h n (handle_complete_ahb h w s request reply)
  dispatch register_dmabuf n w s request reply =
      keep_id h n (handle_register_dmabuf h w s request reply)
  dispatch unregister_dmabuf n w s request reply =
      keep_id h n (handle_unregister_dmabuf h w s request reply)
  dispatch queue_dmabuf n w s request reply = keep_id h n (handle_queue_dmabuf h w s request reply)
  dispatch complete_dmabuf n w s request reply =
      keep_id h n (handle_complete_dmabuf h w s request reply)
  dispatch flush n w s request reply = keep_id h n (handle_flush w s request reply)
  dispatch close_session n w s request reply = keep_id h n (handle_close w s request reply)
  dispatch create_session n w s request reply = keep_id h n (refuse status_unsupported s reply w)
  dispatch other n w s request reply = keep_id h n (refuse status_unsupported s reply w)

  abbrev pub reject : ℕ → W → Engine → Message → Option (Created h)
  reject status w e reply = some (record { status = status; engine = e; reply = reply; world = w })

  -- The session is written back to the slot that it was found in.
  unfoldable pub handled_by : Engine → ℕ → Dequeued W → Option (Created h)
  handled_by e id d = some (record {
    status = d.handled.status;
    engine = record e {
      sessions = update_first (is_session id) (λ _. d.handled.session) e.sessions;
      next_output_id = d.next_output_id;
    };
    reply = d.handled.reply;
    world = d.handled.world;
  })

  unfoldable pub handle_session : W → Engine → Message → Message → Option (Created h)
  handle_session w e request reply =
      let id = request.header.session_id in
      let op = op_of request.header.opcode in
      elim (find_session id e.sessions) [
        | none ↦ reject status_bad_message w e reply
        | some s ↦
            if not (is_idle s.pending) && not (is_complete_ahb op)
            then reject status_would_block w e reply
            else handled_by e id (dispatch op e.next_output_id w s request reply)
      ]

  -- `none` only if the search for a session id ran out of fuel.
  unfoldable pub engine_handle : W → Engine → Message → Message → Option (Created h)
  engine_handle w e request reply =
      if not reply.has_payload
        || ltb reply.capacity 136
        || ltb 0 request.header.payload_size && not request.has_payload
      then reject status_internal w e reply
      else if ltb request.header.minor 1
      then reject status_unsupported w e reply
      else if request.header.flags != 0
      then reject status_bad_message w e reply
      else if request.header.opcode == 3
      then handle_create h w e request reply
      else handle_session w e request reply

  -- Sending the buffer behind the reply to TRANSFER_AHB.
  unfoldable pub send_slot : W → ℕ → Session → ℕ → OutputSlot → Bool × Session × W
  send_slot w socket s id o = if o.transferred then (false, s, w) else elim o.native_buffer [
    | none ↦ (false, s, w)
    | some buffer ↦ elim h.backend.send_native_buffer [
      | none ↦ (false, s, w)
      | some send ↦
          let (sent, w') = send w socket buffer in
          if sent
          then (
            true,
            record s {
              outputs =
                  update_first (is_output id) (λ o. record o { transferred = true }) s.outputs;
            },
            w',
          )
          else (false, s, w')
    ]
  ]

  unfoldable pub send_ahb : W → ℕ → Session → Message → Bool × Session × W
  send_ahb w socket s request =
      let id = get_u64 request.payload 0 in
      if request.header.payload_size != 8
      then (false, s, w)
      else elim (find_first (is_output id) s.outputs) [
        | none ↦ (false, s, w)
        | some o ↦ send_slot w socket s id o
      ]

  unfoldable pub after_reply_op : Op → W → ℕ → Session → Message → Bool × Session × W
  after_reply_op queue_ahb w socket s request = receive_ahb h w socket s
  after_reply_op transfer_ahb w socket s request = send_ahb w socket s request
  after_reply_op _ w socket s request = (false, s, w)

  -- Whether the connection goes on, the engine and the world.
  unfoldable pub after_reply : W → ℕ → Engine → Message → Message → Bool × Engine × W
  after_reply w socket e request reply =
      let id = request.header.session_id in
      if bit_and reply.header.flags flag_ahb_follows == 0
      then (true, e, w)
      else elim (find_session id e.sessions) [
        | none ↦ (false, e, w)
        | some s ↦
            let (on, s', w') = after_reply_op (op_of request.header.opcode) w socket s request in
            (on, record e { sessions = update_first (is_session id) (λ _. s') e.sessions }, w')
      ]

  unfoldable pub destroy_sessions : W → List Session → W
  destroy_sessions w [] = w
  destroy_sessions w (s ∷ ss) = destroy_sessions (if s.in_use then closed w s else w) ss

  unfoldable pub engine_destroy : W → Engine → W
  engine_destroy w e = destroy_sessions w e.sessions
