-- ===== src/Session/Steps.antt =====
-- What each handler of src/video_bridge/src/session_engine.c does to the handshake of an Android
-- hardware buffer.
use lin_de_x.Base.{true, arith, ℕ, ◌≡◌, refl, inl, not, ◌&&◌, false, ◌⊎◌}
use lin_de_x.Session.World.{Host, BackendOutput}
use lin_de_x.Session.State.{
  Message, Session, status_ok, Pending, pending_none, await_handle, pending_complete,
}
use lin_de_x.Session.Input.{handle_queue, queue_loaded, load_input, queued}
use lin_de_x.Session.Ahb.{
  is_idle, handle_queue_ahb, await_ahb, handle_complete_ahb, complete_in, completed_ahb,
}
use lin_de_x.Session.Ingress.{
  handle_register_dmabuf, registry_answer, handle_unregister_dmabuf, handle_queue_dmabuf,
  queue_dmabuf_to, begun, submitted, handle_complete_dmabuf, completed_dmabuf,
}
use lin_de_x.Session.Output.{
  handle_dequeue, dequeued_output, dequeue_bytes, dequeue_ahb, entered, handle_release,
  release_slot, freed, handle_transfer_ahb, handle_transfer_prime, exported, release_outstanding,
}
use lin_de_x.Session.Engine.{
  queue_input, dequeue_output, release_output, flush, close_session, create_session, transfer_ahb,
  queue_ahb, complete_ahb, register_dmabuf, unregister_dmabuf, queue_dmabuf, complete_dmabuf,
  transfer_prime, other, dispatch, flushed, handle_flush, handle_close, Op, is_complete_ahb, op_of,
}

-- The session keeps its id, its slot and the state of its handshake.
abbrev Stays : Session → Session → Type 0
Stays s s' = (s'.id ≡ s.id) × (s'.in_use ≡ s.in_use) × (s'.pending ≡ s.pending)

-- The session keeps its id and its slot, and its handshake is in that state.
abbrev pub Goes : Session → Session → Pending → Type 0
Goes s s' p = (s'.id ≡ s.id) × (s'.in_use ≡ s.in_use) × (s'.pending ≡ p)

-- A step of a session by a request with that opcode: 11 is QUEUE_AHB, 12 COMPLETE_AHB and 8
-- CLOSE_SESSION.
abbrev pub Steps : ℕ → ℕ → Session → Session → Type 0
Steps opcode status s s' =
    Goes s s' s.pending
    ⊎ ((opcode ≡ 11) × (status ≡ status_ok) × (s.pending ≡ pending_none) × Goes s s' await_handle)
    ⊎ ((opcode ≡ 12)
        × (status ≡ status_ok)
        × (s.pending ≡ pending_complete)
        × Goes s s' pending_none)
    ⊎ ((opcode ≡ 8) × (status ≡ status_ok) × (s.pending ≡ pending_none))

module _ {W : Type 0} (h : Host W) (w : W) (s : Session) (request reply : Message) where
  handle_queue-Stays : Stays s (handle_queue h w s request reply).session
  unfolding handle_queue queue_loaded load_input queued
  handle_queue-Stays = ground arith

  handle_register-Stays : Stays s (handle_register_dmabuf h w s request reply).session
  unfolding handle_register_dmabuf registry_answer
  handle_register-Stays = ground arith

  handle_queue_dmabuf-Stays : Stays s (handle_queue_dmabuf h w s request reply).session
  unfolding handle_queue_dmabuf queue_dmabuf_to begun submitted
  handle_queue_dmabuf-Stays = ground arith

  handle_complete_dmabuf-Stays : Stays s (handle_complete_dmabuf h w s request reply).session
  unfolding handle_complete_dmabuf completed_dmabuf
  handle_complete_dmabuf-Stays = ground arith

  handle_unregister-Stays : Stays s (handle_unregister_dmabuf h w s request reply).session
  unfolding handle_unregister_dmabuf registry_answer
  handle_unregister-Stays = ground arith

  handle_release-Stays : Stays s (handle_release h w s request reply).session
  unfolding handle_release release_slot freed
  handle_release-Stays = ground arith

  handle_transfer_ahb-Stays : Stays s (handle_transfer_ahb h w s request reply).session
  unfolding handle_transfer_ahb
  handle_transfer_ahb-Stays = ground arith

  handle_transfer_prime-Stays : Stays s (handle_transfer_prime h w s request reply).session
  unfolding handle_transfer_prime exported
  handle_transfer_prime-Stays = ground arith

  handle_flush-Stays : is_idle s.pending ≡ true → Stays s (handle_flush h w s request reply).session
  unfolding handle_flush flushed release_outstanding
  handle_flush-Stays idle = ground arith

  module _ (n : ℕ) where
    dequeued_output-Stays :
        (result : ℕ × BackendOutput × W)
        → Stays s (dequeued_output h n s reply result).handled.session
    unfolding dequeued_output dequeue_bytes dequeue_ahb entered
    dequeued_output-Stays (status, o, w') = ground arith

    handle_dequeue-Stays : Stays s (handle_dequeue h n w s request reply).handled.session
    unfolding handle_dequeue
    handle_dequeue-Stays =
        ground (arith, dequeued_output-Stays (h.backend.dequeue_output w s.handle))

    module _ (opcode : ℕ) where
      queue_ahb-Steps :
          op_of opcode ≡ queue_ahb
          → let r = handle_queue_ahb h w s request reply in Steps opcode r.status s r.session
      unfolding handle_queue_ahb await_ahb op_of
      queue_ahb-Steps e = ground arith

      complete_ahb-Steps :
          op_of opcode ≡ complete_ahb
          → let r = handle_complete_ahb h w s request reply in Steps opcode r.status s r.session
      unfolding handle_complete_ahb complete_in completed_ahb op_of
      complete_ahb-Steps e = ground arith

      close-Steps :
          op_of opcode ≡ close_session
          → is_idle s.pending ≡ true
          → let r = handle_close h w s request reply in Steps opcode r.status s r.session
      unfolding handle_close op_of
      close-Steps e idle = ground arith

      -- A session whose handshake is under way is dispatched for COMPLETE_AHB alone.
      pub dispatch-Steps :
          (op : Op)
          → op_of opcode ≡ op
          → (not (is_idle s.pending) && not (is_complete_ahb op)) ≡ false
          → let d = dispatch h op n w s request reply in
            Steps opcode d.handled.status s d.handled.session
      unfolding dispatch
      dispatch-Steps queue_input e g = inl handle_queue-Stays
      dispatch-Steps dequeue_output e g = inl handle_dequeue-Stays
      dispatch-Steps release_output e g = inl handle_release-Stays
      dispatch-Steps transfer_ahb e g = inl (ground (arith, handle_transfer_ahb-Stays))
      dispatch-Steps transfer_prime e g = inl (ground (arith, handle_transfer_prime-Stays))
      dispatch-Steps queue_ahb e g = queue_ahb-Steps e
      dispatch-Steps complete_ahb e g = complete_ahb-Steps e
      dispatch-Steps register_dmabuf e g = inl handle_register-Stays
      dispatch-Steps unregister_dmabuf e g = inl handle_unregister-Stays
      dispatch-Steps queue_dmabuf e g = inl handle_queue_dmabuf-Stays
      dispatch-Steps complete_dmabuf e g = inl handle_complete_dmabuf-Stays
      dispatch-Steps flush e g = inl (handle_flush-Stays (ground arith))
      dispatch-Steps close_session e g = close-Steps e (ground arith)
      dispatch-Steps create_session e g = inl (refl, refl, refl)
      dispatch-Steps other e g = inl (refl, refl, refl)
