-- ===== src/Protocol/Messages/Delivery.antt =====
-- A message that is sent against the message that is received from its bytes, and the descriptors of a
-- message that is refused.
use lin_de_x.Base.{
  ℕ, ◌+◌, ◌==◌, ltb, ◌&&◌, ◌||◌, not, Bool, true, false, List, [], ◌∷◌, length, if◌then◌else◌,
  Errno, ok, ◌≡◌, ◌≤◌, ◌<◌, refl, arith, Bool-cases, Result-cases, inl, inr, ap, ◌∙◌, emsgsize,
  subst,
}
use lin_de_x.Kernel.{Kernel, Laws, Outcome, returns, fails}
use lin_de_x.Protocol.Limits.{header_size, max_fds}
use lin_de_x.Protocol.Wire.{Buffer}
use lin_de_x.Protocol.Header.{Header, Fits, header_encode, header_decode}
use lin_de_x.Protocol.RoundTrip.{header_decode-IsAdmitted, IsAdmitted, header_decode-encode}
use lin_de_x.Session.State.{Message}
use lin_de_x.Dmabuf.Registry.{close_all}
use lin_de_x.Dmabuf.Registry.Leaks.{member, close_all-live}
use lin_de_x.Protocol.Messages.{
  Datagram, Received, Socket, datagram, overlay, send_message, collect_rights, is_whole,
  accept_message, received_datagram, receive_message, sent_whole,
}

-- The datagram as it arrives, its descriptors installed under other numbers.
abbrev pub arrived : Datagram → List ℕ → Received
arrived d installed = record {
  size = header_size + d.payload_size;
  header = d.header;
  payload = d.payload;
  truncated = false;
  rights = installed ∷ [];
}

module _ {W : Type 0} (k : Kernel W) (s : Socket W) where
  sent_whole-inverse :
      (size : ℕ) (o : Outcome W ℕ) (v : W)
      → sent_whole k s size o ≡ returns tt v
      → o ≡ returns (header_size + size) v
  unfolding sent_whole
  sent_whole-inverse size (fails e w) v h = absurd (ground (arith, h))
  sent_whole-inverse size (returns n w) v h =
      let whole : n ≡ header_size + size = ground (arith, h) in
      let same : w ≡ v = ground (arith, h) in rw (whole, same) refl

  accept_message-whole :
      (m : Message) (r : Received) (fds : List ℕ) (header : Header) (u : W)
      → r.truncated ≡ false
      → header_decode r.header ≡ ok header
      → r.size ≡ header_size + header.payload_size
      → length fds ≡ header.fd_count
      → header.payload_size ≤ m.capacity
      → accept_message k s m r (returns fds u)
        ≡ returns (record m { header = header; payload = r.payload; fds = overlay fds m.fds }) u
  unfolding accept_message is_whole
  accept_message-whole m r fds header u whole decoded size count room =
      let long : ltb r.size header_size ≡ false = ground (arith, size) in
      let all : (r.size == header_size + header.payload_size
            && length fds == header.fd_count
            && not (ltb m.capacity header.payload_size))
          ≡ true =
        ground arith in
      rw (whole, long, decoded, all) refl

  accept_message-fails :
      (m : Message) (r : Received) (failed errno : Errno) (u v : W)
      → accept_message k s m r (fails failed u) ≡ fails errno v
      → v ≡ u
  unfolding accept_message
  accept_message-fails m r failed errno u v h = ground (arith, h)

  accept_message-refused :
      (m : Message) (r : Received) (fds : List ℕ) (errno : Errno) (u v : W)
      → accept_message k s m r (returns fds u) ≡ fails errno v
      → v ≡ close_all k u fds
  unfolding accept_message
  accept_message-refused m r fds errno u v h =
      elim (Bool-cases (r.truncated || ltb r.size header_size)) [
        | inl e ↦ let g = rw e at h in ground (arith, g)
        | inr e ↦ elim (Result-cases (header_decode r.header)) [
          | inl (failed, f) ↦ let g = rw (e, f) at h in ground (arith, g)
          | inr (header, f) ↦ let g = rw (e, f) at h in ground (arith, g)
        ]
      ]

  -- For an admitted header whose fields fit their types: if sending a message succeeds, one
  -- datagram was handed over whole; and if this datagram is got with as many descriptors as the
  -- header counts, by a receiver with a buffer large enough, the message is received with the same
  -- header and payload and with those descriptors.
  pub receive_message-sent :
      (w v u u' : W) (errno : Errno) (from to : ℕ) (m into : Message) (installed : List ℕ)
      (header : Buffer)
      → IsAdmitted m.header
      → Fits m.header
      → header_encode m.header ≡ ok header
      → send_message k s w errno from m ≡ returns tt v
      → m.header.payload_size ≤ into.capacity
      → (ltb 0 into.capacity && not into.has_payload) ≡ false
      → length installed ≡ m.header.fd_count
      → s.recvmsg u to into.capacity ≡ returns (arrived (datagram header m) installed) u'
      → (s.sendmsg w from (datagram header m) ≡ returns (header_size + m.header.payload_size) v)
        × (receive_message k s u to into
            ≡ returns
                (record into {
                  header = m.header;
                  payload = m.payload;
                  fds = overlay installed into.fds;
                })
                u')
  unfolding send_message receive_message received_datagram collect_rights datagram
  receive_message-sent w v u u' errno from to m into installed header admitted fits encoded sent
        room space count got =
      let (out, out_encoded, out_decoded) = header_decode-encode m.header admitted fits in
      let same : out ≡ header = ground (arith, encoded, out_encoded) in
      let decoded : header_decode header ≡ ok m.header =
        subst (λ (b : Buffer). header_decode b ≡ ok m.header) same out_decoded in
      let tried : (ltb 0 m.header.payload_size && not m.has_payload) ≡ false =
        ground (arith, sent) in
      let few : ltb max_fds (0 + length installed) ≡ false = ground (arith, count, admitted.fds) in
      let some_bytes : (header_size + m.header.payload_size == 0) ≡ false = ground arith in
      (
        sent_whole-inverse m.header.payload_size (s.sendmsg w from (datagram header m)) v
            (rw (tried, encoded) at sent),
        rw (space, got, some_bytes, few)
            (accept_message-whole into (arrived (datagram header m) installed) installed m.header u'
              refl decoded refl count room),
      )

  -- Under the kernel's laws, if bytes were got with one control message and the message is refused,
  -- then the descriptors of the control message are closed and every other is open or not as
  -- before.
  pub receive_message-refused :
      (live : W → ℕ → Bool) (laws : Laws k live) (w u v : W) (socket : ℕ) (m : Message)
      (r : Received) (errno : Errno) (fds : List ℕ)
      → (ltb 0 m.capacity && not m.has_payload) ≡ false
      → s.recvmsg w socket m.capacity ≡ returns r u
      → 0 < r.size
      → r.rights ≡ fds ∷ []
      → receive_message k s w socket m ≡ fails errno v
      → (other : ℕ) → live v other ≡ (if member other fds then false else live u other)
  unfolding receive_message received_datagram collect_rights accept_message is_whole
  receive_message-refused live laws w u v socket m r errno fds space got some_bytes one refused
        other =
      let begun : (r.size == 0) ≡ false = ground (arith, some_bytes) in
      let h = rw (space, got, begun, one) at refused in
      let closed : v ≡ close_all k u fds = elim (Bool-cases (ltb max_fds (0 + length fds))) [
        | inl e ↦ accept_message-fails m r emsgsize errno (close_all k u fds) v (rw e at h)
        | inr e ↦ accept_message-refused m r fds errno u v (rw e at h)
      ] in
      ap (λ (x : W). live x other) closed ∙ close_all-live k live laws u fds other

  accept_message-IsAdmitted :
      (m : Message) (r : Received) (o : Outcome W (List ℕ)) (got : Message) (u : W)
      → accept_message k s m r o ≡ returns got u
      → IsAdmitted got.header
  unfolding accept_message
  accept_message-IsAdmitted m r (fails errno v) got u h = absurd (ground (arith, h))
  accept_message-IsAdmitted m r (returns fds v) got u h =
      elim (Bool-cases (r.truncated || ltb r.size header_size)) [
        | inl e ↦ let g = rw e at h in absurd (ground (arith, g))
        | inr e ↦ elim (Result-cases (header_decode r.header)) [
          | inl (failed, f) ↦ let g = rw (e, f) at h in absurd (ground (arith, g))
          | inr (header, f) ↦
              let g = rw (e, f) at h in
              let same : header ≡ got.header = ground (arith, g) in
              let (_, _, admitted) = header_decode-IsAdmitted r.header header f in
              subst IsAdmitted same admitted
        ]
      ]

  received-IsAdmitted :
      (m : Message) (o : Outcome W Received) (got : Message) (u : W)
      → received_datagram k s m o ≡ returns got u
      → IsAdmitted got.header
  unfolding received_datagram
  received-IsAdmitted m (fails errno v) got u h = absurd (ground (arith, h))
  received-IsAdmitted m (returns r v) got u h = elim (Bool-cases (r.size == 0)) [
    | inl e ↦ let g = rw e at h in absurd (ground (arith, g))
    | inr e ↦ accept_message-IsAdmitted m r (collect_rights k s v [] r.rights) got u (rw e at h)
  ]

  -- A message that is received has a header that the protocol admits.
  pub receive_message-IsAdmitted :
      (w u : W) (socket : ℕ) (m got : Message)
      → receive_message k s w socket m ≡ returns got u
      → IsAdmitted got.header
  unfolding receive_message
  receive_message-IsAdmitted w u socket m got h =
      elim (Bool-cases (ltb 0 m.capacity && not m.has_payload)) [
        | inl e ↦ let g = rw e at h in absurd (ground (arith, g))
        | inr e ↦ received-IsAdmitted m (s.recvmsg w socket m.capacity) got u (rw e at h)
      ]
