-- ===== src/Broker/Closing.antt =====
-- The descriptors of a request when src/video_bridge/src/broker.c is done with it.
use lin_de_x.Base.{
  ℕ, zero, suc, ◌==◌, ◌!=◌, ltb, ◌||◌, Bool, true, false, Option, none, some, List, [], ◌∷◌,
  if◌then◌else◌, ◌≡◌, refl, arith, Bool-cases, inl, inr, Errno, ap, sym, ◌∙◌,
}
use lin_de_x.Protocol.Messages.Delivery.{receive_message-IsAdmitted}
use lin_de_x.Kernel.{Kernel, Laws, returns}
use lin_de_x.Protocol.Limits.{max_fds, msg_request}
use lin_de_x.Session.State.{Message}
use lin_de_x.Protocol.Messages.{Socket, first_fds, close_fds, close_message_fds, receive_message}
use lin_de_x.Broker.{Provider, serve, handle_once, fresh_request}

-- A descriptor stands among the fields of an array.
unfoldable pub stands_among : ℕ → List (Option ℕ) → Bool
stands_among fd [] = false
stands_among fd (none ∷ fds) = stands_among fd fds
stands_among fd (some x ∷ fds) = fd == x || stands_among fd fds

none-among : (count fd : ℕ) → stands_among fd (first_fds count []) ≡ false
unfolding stands_among first_fds
none-among zero fd = refl
none-among (suc count) fd = none-among count fd

module _ {W : Type 0} (k : Kernel W) (s : Socket W) (live : W → ℕ → Bool) (laws : Laws k live) where
  -- Exactly the descriptors among the first are closed.
  pub close_fds-live :
      (w : W) (count : ℕ) (fds : List (Option ℕ)) (fd : ℕ)
      → live (close_fds k s w count fds).1 fd
        ≡ (if stands_among fd (first_fds count fds) then false else live w fd)
  unfolding close_fds first_fds stands_among
  close_fds-live w zero fds fd = refl
  close_fds-live w (suc count) [] fd = rw (none-among count fd) refl
  close_fds-live w (suc count) (none ∷ fds) fd = close_fds-live w count fds fd
  close_fds-live w (suc count) (some x ∷ fds) fd =
      ground (arith, close_fds-live (k.close w x) count fds fd, laws.close_live w x fd)

  module _ (p : Provider W) where
    -- Under the kernel's laws, when the broker is done with a request that it received, whatever
    -- the request was, whether the provider can serve it and whether the reply could be sent, no
    -- descriptor that came with the request is open.
    pub handle_once-closes :
        (w u v : W) (errno : Errno) (socket : ℕ) (request : Message) (done : Bool) (fd : ℕ)
        → receive_message k s w socket fresh_request ≡ returns request u
        → handle_once p k s true w errno socket ≡ (done, v)
        → stands_among fd (first_fds request.header.fd_count request.fds) ≡ true
        → live v fd ≡ false
    unfolding handle_once close_message_fds
    handle_once-closes w u v errno socket request done fd got h stands =
        let admitted = receive_message-IsAdmitted k s w u socket fresh_request request got in
        let few : ltb max_fds request.header.fd_count ≡ false = ground (arith, admitted.fds) in
        let g = rw (got, few) at h in
        elim (Bool-cases (request.header.message_type != msg_request)) [
          | inl e ↦ ended u (ap (λ r. r.1) (rw e at g))
          | inr e ↦ ended (serve p k s u errno socket request).1 (ap (λ r. r.1) (rw e at g))
        ]
      where
        ended :
            (x : W)
            → (close_fds k s x request.header.fd_count request.fds).1 ≡ v
            → live v fd ≡ false
        ended x e =
            ap (λ (y : W). live y fd) (sym e)
            ∙ close_fds-live x request.header.fd_count request.fds fd
            ∙ rw stands refl
