-- ===== src/Session/Handshake.antt =====
-- The buffer behind the reply to QUEUE_AHB in src/video_bridge/src/session_engine.c.
use lin_de_x.Base.{arith, none, ℕ, ◌≡◌, ◌≢◌, true, false, ltb}
use lin_de_x.Session.World.{Host}
use lin_de_x.Session.State.{Session, await_handle, pending_complete, status_ok, status_internal}
use lin_de_x.Session.Ahb.{receive_ahb, receive_in, received}

-- If the connection goes on after a buffer was to be received, the session awaited one and now
-- holds its completion, whose status is in range and has a release fence only if it is OK. A
-- session that did not await one is as before, with the world, and the connection ends. If the
-- state of the handshake changed, the acquire fence is no longer the session's.
pub receive_ahb_lem :
    {W : Type 0} (h : Host W) (w : W) (socket : ℕ) (s : Session)
    → let r = receive_ahb h w socket s in
      (r.0 ≡ true → (s.pending ≡ await_handle) × (r.1.pending ≡ pending_complete))
      × (s.pending ≢ await_handle → r ≡ (false, s, w))
      × (r.1.pending ≢ s.pending → r.1.pending_input.acquire_fence ≡ none)
      × (r.0 ≡ true → ltb status_internal r.1.pending_status ≡ false)
      × (r.0 ≡ true → r.1.pending_status ≢ status_ok → r.1.pending_release_fence ≡ none)
unfolding receive_ahb receive_in received
receive_ahb_lem h w socket s = ground arith
