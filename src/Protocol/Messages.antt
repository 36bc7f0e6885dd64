-- ===== src/Protocol/Messages.antt =====
-- `advc_send_message`, `advc_receive_message` and `advc_close_message_fds` of
-- src/video_bridge/src/protocol.c. `sendmsg` and `recvmsg` are a parameter: a call that a signal
-- interrupts is made again until it is not, so they answer as the last of these calls does. The payload
-- pointer of a message that has a size is not NULL unless `has_payload` is false.
pub mod Delivery
use lin_de_x.Base.{
  ℕ, zero, suc, ◌+◌, ◌==◌, ◌!=◌, ltb, ◌&&◌, ◌||◌, not, Bool, true, false, Option, none, some, List,
  [], ◌∷◌, ◌++◌, length, if◌then◌else◌, Errno, einval, eio, econnreset, emsgsize, Result, ok, err,
}
use lin_de_x.Kernel.{Kernel, Outcome, returns, fails, close_fd}
use lin_de_x.Protocol.Limits.{header_size, max_fds}
use lin_de_x.Protocol.Wire.{Buffer}
use lin_de_x.Protocol.Header.{Header, header_encode, header_decode}
use lin_de_x.Session.State.{Message}
use lin_de_x.Dmabuf.Registry.{close_all}

-- What one `sendmsg` hands over: the header's bytes, the payload and the descriptors to pass.
pub record Datagram : Type 0 where
  pub header : Buffer
  pub payload : Buffer
  pub payload_size : ℕ
  pub rights : List (Option ℕ)

-- What one `recvmsg` has got: its result, the bytes, whether a part was cut off, and the descriptors of
-- each control message that carries some.
pub record Received : Type 0 where
  pub size : ℕ
  pub header : Buffer
  pub payload : Buffer
  pub truncated : Bool
  pub rights : List (List ℕ)

pub record Socket (W : Type 0) : Type 0 where
  pub sendmsg : W → ℕ → Datagram → Outcome W ℕ
  -- The capacity is that of the payload's buffer.
  pub recvmsg : W → ℕ → ℕ → Outcome W Received

-- The first `count` of the message's descriptors; one that is missing is -1.
unfoldable pub first_fds : ℕ → List (Option ℕ) → List (Option ℕ)
first_fds zero fds = []
first_fds (suc count) [] = none ∷ first_fds count []
first_fds (suc count) (fd ∷ fds) = fd ∷ first_fds count fds

unfoldable pub datagram : Buffer → Message → Datagram
datagram header m = record {
  header = header;
  payload = m.payload;
  payload_size = m.header.payload_size;
  rights = first_fds m.header.fd_count m.fds;
}

-- `memcpy` of descriptors over the front of an array.
unfoldable pub overlay : List ℕ → List (Option ℕ) → List (Option ℕ)
overlay [] fds = fds
overlay (fd ∷ new) [] = some fd ∷ overlay new []
overlay (fd ∷ new) (_ ∷ fds) = some fd ∷ overlay new fds

module _ {W : Type 0} (k : Kernel W) (s : Socket W) where
  unfoldable pub sent_whole : ℕ → Outcome W ℕ → Outcome W (Unit {0})
  sent_whole payload_size (fails errno w) = fails errno w
  sent_whole payload_size (returns sent w) =
      if sent != header_size + payload_size then fails eio w else returns tt w

  -- A payload that is missing leaves errno as it is.
  unfoldable pub send_message : W → Errno → ℕ → Message → Outcome W (Unit {0})
  send_message w errno socket m =
      if ltb 0 m.header.payload_size && not m.has_payload
      then fails errno w
      else elim (header_encode m.header) [
        | err e ↦ fails e w
        | ok header ↦ sent_whole m.header.payload_size (s.sendmsg w socket (datagram header m))
      ]

  -- The loop over the control messages: the descriptors so far, or the world in which the ones of the
  -- control message that is too much are closed.
  unfoldable pub collect_rights : W → List ℕ → List (List ℕ) → Outcome W (List ℕ)
  collect_rights w collected [] = returns collected w
  collect_rights w collected (incoming ∷ rest) =
      let more = collect_rights w (collected ++ incoming) rest in
      if ltb max_fds (length collected + length incoming)
      then fails emsgsize (close_all k w incoming)
      else more

  unfoldable pub is_whole : Message → Received → List ℕ → Header → Bool
  is_whole m r collected header =
      r.size == header_size + header.payload_size
      && length collected == header.fd_count
      && not (ltb m.capacity header.payload_size)

  unfoldable pub accept_message : Message → Received → Outcome W (List ℕ) → Outcome W Message
  accept_message m r (fails errno w) = fails errno w
  accept_message m r (returns collected w) =
      let refused = fails emsgsize (close_all k w collected) in
      if r.truncated || ltb r.size header_size then refused else elim (header_decode r.header) [
        | err e ↦ refused
        | ok header ↦
            if is_whole m r collected header
            then (returns
                (record m { header = header; payload = r.payload; fds = overlay collected m.fds })
                w)
            else refused
      ]

  unfoldable pub received_datagram : Message → Outcome W Received → Outcome W Message
  received_datagram m (fails errno w) = fails errno w
  received_datagram m (returns r w) =
      if r.size == 0 then fails econnreset w else accept_message m r (collect_rights w [] r.rights)

  unfoldable pub receive_message : W → ℕ → Message → Outcome W Message
  receive_message w socket m =
      if ltb 0 m.capacity && not m.has_payload
      then fails einval w
      else received_datagram m (s.recvmsg w socket m.capacity)

  -- The loop closes at most eight and forgets them.
  unfoldable pub close_fds : W → ℕ → List (Option ℕ) → List (Option ℕ) × W
  close_fds w zero fds = (fds, w)
  close_fds w (suc count) [] = ([], w)
  close_fds w (suc count) (fd ∷ fds) =
      let (rest, v) = close_fds (close_fd k w fd) count fds in (none ∷ rest, v)

  unfoldable pub close_message_fds : W → Message → Message × W
  close_message_fds w m =
      let count = if ltb max_fds m.header.fd_count then max_fds else m.header.fd_count in
      let (fds, v) = close_fds w count m.fds in
      (record m { header = record m.header { fd_count = 0 }; fds = fds }, v)
