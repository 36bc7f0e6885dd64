-- ===== src/Broker/Loop.antt =====
-- The engine's table over the requests of a client: the loop of serve_client of
-- src/video_bridge/android/broker_main.c.
mod Examples
use lin_de_x.Base.{
  ◌+◌, ◌++◌, length, ℕ, zero, suc, ◌≡◌, ◌∙◌, ap, sym, subst, Option, none, some, refl, Option-cases,
  Result-cases, Bool-cases, inl, inr, Bool, true, false, Errno, List, [], ◌∷◌, ltb, ◌&&◌, ◌||◌, not,
  ◌==◌, ◌!=◌, arith, length,
}
use lin_de_x.Kernel.{Kernel, Outcome, returns, fails, after}
use lin_de_x.Protocol.Limits.{max_fds, msg_request, version_minor, header_size}
use lin_de_x.Protocol.Header.{header_encode, header_decode}
use lin_de_x.Protocol.Messages.{
  Socket, Datagram, Received, datagram, send_message, sent_whole, receive_message,
  received_datagram, accept_message, collect_rights, close_fds, close_message_fds, is_whole,
}
use lin_de_x.Dmabuf.Registry.{close_all}
use lin_de_x.Session.World.{Host}
use lin_de_x.Session.State.{Engine, Message}
use lin_de_x.Session.Create.{Created}
use lin_de_x.Session.Engine.{engine_handle, after_reply}
use lin_de_x.Session.Unique.{IsSound, answers, Step-IsSound, after_reply-IsSound}
use lin_de_x.Dmabuf.Registry.Leaks.{Outcome-cases}
use lin_de_x.Broker.{
  Provider, Capabilities, answer_request, handle_once, serve, send_reply, finish_reply,
  handle_query, handle_codec, codec_reply, fresh_request, init_reply,
}
use lin_de_x.Broker.Engine.{
  engine_answer, engine_provider, handle_request, finish_request, serve_requests,
}

-- The calls on descriptors and sockets leave the engine as it is.
pub record Apart {W : Type 0} (k : Kernel (W × Engine)) (s : Socket (W × Engine)) : Type 0 where
  pub close : (x : W × Engine) (fd : ℕ) → (k.close x fd).1 ≡ x.1
  pub send : (x : W × Engine) (fd : ℕ) (d : Datagram) → (after (s.sendmsg x fd d)).1 ≡ x.1
  pub receive : (x : W × Engine) (fd capacity : ℕ) → (after (s.recvmsg x fd capacity)).1 ≡ x.1

module _ {W : Type 0} (k : Kernel (W × Engine)) (s : Socket (W × Engine)) (apart : Apart k s) where
  close_all-engine : (x : W × Engine) (fds : List ℕ) → (close_all k x fds).1 ≡ x.1
  unfolding close_all
  close_all-engine x [] = refl
  close_all-engine x (fd ∷ fds) = close_all-engine (k.close x fd) fds ∙ apart.close x fd

  close_fds-engine :
      (x : W × Engine) (count : ℕ) (fds : List (Option ℕ)) → (close_fds k s x count fds).1.1 ≡ x.1
  unfolding close_fds
  close_fds-engine x zero fds = refl
  close_fds-engine x (suc count) [] = refl
  close_fds-engine x (suc count) (none ∷ fds) = close_fds-engine x count fds
  close_fds-engine x (suc count) (some fd ∷ fds) =
      close_fds-engine (k.close x fd) count fds ∙ apart.close x fd

  close_message_fds-engine : (x : W × Engine) (m : Message) → (close_message_fds k s x m).1.1 ≡ x.1
  unfolding close_message_fds
  close_message_fds-engine x m = close_fds-engine x _ m.fds

  collect_rights-engine :
      (x : W × Engine) (collected : List ℕ) (rights : List (List ℕ))
      → (after (collect_rights k s x collected rights)).1 ≡ x.1
  unfolding collect_rights
  collect_rights-engine x collected [] = refl
  collect_rights-engine x collected (incoming ∷ rest) =
      elim (Bool-cases (ltb max_fds (length collected + length incoming))) [
        | inl e ↦ rw e (close_all-engine x incoming)
        | inr e ↦ rw e (collect_rights-engine x (collected ++ incoming) rest)
      ]

  accept_message-engine :
      (m : Message) (r : Received) (o : Outcome (W × Engine) (List ℕ))
      → (after (accept_message k s m r o)).1 ≡ (after o).1
  unfolding accept_message
  accept_message-engine m r (fails errno x) = refl
  accept_message-engine m r (returns fds x) =
      elim (Bool-cases (r.truncated || ltb r.size header_size)) [
        | inl e ↦ rw e (close_all-engine x fds)
        | inr e ↦ elim (Result-cases (header_decode r.header)) [
          | inl (failed, f) ↦ rw (e, f) (close_all-engine x fds)
          | inr (header, f) ↦ elim (Bool-cases (is_whole k s m r fds header)) [
            | inl g ↦ rw (e, f, g) refl
            | inr g ↦ rw (e, f, g) (close_all-engine x fds)
          ]
        ]
      ]

  received_datagram-engine :
      (m : Message) (o : Outcome (W × Engine) Received)
      → (after (received_datagram k s m o)).1 ≡ (after o).1
  unfolding received_datagram
  received_datagram-engine m (fails errno x) = refl
  received_datagram-engine m (returns r x) = elim (Bool-cases (r.size == 0)) [
    | inl e ↦ rw e refl
    | inr e ↦ rw e (
        accept_message-engine m r (collect_rights k s x [] r.rights)
        ∙ collect_rights-engine x [] r.rights)
  ]

  receive_message-engine :
      (x : W × Engine) (socket : ℕ) (m : Message) → (after (receive_message k s x socket m)).1 ≡ x.1
  unfolding receive_message
  receive_message-engine x socket m = elim (Bool-cases (ltb 0 m.capacity && not m.has_payload)) [
    | inl e ↦ rw e refl
    | inr e ↦ rw e (
        received_datagram-engine m (s.recvmsg x socket m.capacity)
        ∙ apart.receive x socket m.capacity)
  ]

  sent_whole-engine :
      (size : ℕ) (o : Outcome (W × Engine) ℕ) → (after (sent_whole k s size o)).1 ≡ (after o).1
  unfolding sent_whole
  sent_whole-engine size (fails errno x) = refl
  sent_whole-engine size (returns n x) = elim (Bool-cases (n != header_size + size)) [
    | inl e ↦ rw e refl
    | inr e ↦ rw e refl
  ]

  send_message-engine :
      (x : W × Engine) (errno : Errno) (socket : ℕ) (m : Message)
      → (after (send_message k s x errno socket m)).1 ≡ x.1
  unfolding send_message
  send_message-engine x errno socket m =
      elim (Bool-cases (ltb 0 m.header.payload_size && not m.has_payload)) [
        | inl e ↦ rw e refl
        | inr e ↦ elim (Result-cases (header_encode m.header)) [
          | inl (failed, f) ↦ rw (e, f) refl
          | inr (header, f) ↦
              rw (e, f)
                (sent_whole-engine m.header.payload_size (s.sendmsg x socket (datagram header m))
                  ∙ apart.send x socket (datagram header m))
        ]
      ]

-- The probe of the codecs, where there is one, leaves the engine as it is.
unfoldable pub KeepsEngine :
    {W : Type 0} → Option (W × Engine → Option Capabilities × (W × Engine)) → Type 0
KeepsEngine none = Unit
KeepsEngine {W} (some query) = (x : W × Engine) → (query x).1.1 ≡ x.1

module _ {W : Type 0} (h : Host W) (feature_bits : ℕ)
    (query : Option (W × Engine → Option Capabilities × (W × Engine)))
    (keeps : KeepsEngine query) where
  abbrev pub provider : Provider (W × Engine)
  provider = engine_provider h feature_bits query

  handle_request-IsSound :
      (x : W × Engine) (request reply : Message)
      → IsSound x.1
      → IsSound (handle_request h x request reply).2.1
  unfolding handle_request engine_answer
  handle_request-IsSound (w, e) request reply sound =
      elim (Option-cases (engine_handle h w e request reply)) [
        | inl n ↦ rw n sound
        | inr (c, m) ↦
            rw m (Step-IsSound h (w, e) (c.world, c.engine) (answers w e request reply c m) sound)
      ]

  handle_query-IsSound :
      (x : W × Engine) (request reply : Message)
      → IsSound x.1
      → IsSound (handle_query provider x request reply).1.1
  unfolding handle_query engine_provider KeepsEngine
  handle_query-IsSound x request reply sound = elim (Option-cases query) [
    | inl n ↦ rw n sound
    | inr (q, m) ↦ rw m (subst IsSound (sym ((rw m at keeps) x)) sound)
  ]

  answer_request-IsSound :
      (x : W × Engine) (request : Message)
      → IsSound x.1
      → IsSound (answer_request provider x request).1.1
  unfolding answer_request handle_codec codec_reply engine_provider
  answer_request-IsSound x request sound =
      let opcode = request.header.opcode in
      elim (Bool-cases (ltb version_minor request.header.minor)) [
        | inl a ↦ rw a sound
        | inr a ↦ elim (Bool-cases (opcode == 1)) [
          | inl b ↦ rw (a, b) sound
          | inr b ↦ elim (Bool-cases (opcode == 10)) [
            | inl c ↦ rw (a, b, c) sound
            | inr c ↦ elim (Bool-cases (opcode == 2)) [
              | inl d ↦ rw (a, b, c, d) (handle_query-IsSound x request (init_reply request) sound)
              | inr d ↦
                  rw (a, b, c, d) (handle_request-IsSound x request (init_reply request) sound)
            ]
          ]
        ]
      ]

  module _ (k : Kernel (W × Engine)) (s : Socket (W × Engine)) (apart : Apart k s) where
    send_reply-IsSound :
        (x : W × Engine) (errno : Errno) (socket : ℕ) (request reply : Message)
        → IsSound x.1
        → IsSound (send_reply provider k s x errno socket request reply).1.1
    unfolding send_reply finish_reply engine_provider finish_request
    send_reply-IsSound x errno socket request reply sound =
        let sent = send_message-engine k s apart x errno socket reply in
        elim (Outcome-cases (send_message k s x errno socket reply)) [
          | inl (done, y, m) ↦
              rw (m, send_reply)
                (after_reply-IsSound h y.0 socket y.1 request reply
                  (subst IsSound (sym (rw m at sent)) sound))
          | inr (failed, y, m) ↦ rw (m, send_reply) (subst IsSound (sym (rw m at sent)) sound)
        ]

    serve-IsSound :
        (x : W × Engine) (errno : Errno) (socket : ℕ) (request : Message)
        → IsSound x.1
        → IsSound (serve provider k s x errno socket request).1.1
    unfolding serve
    serve-IsSound x errno socket request sound =
        let answer = answer_request provider x request in
        let u = (send_reply provider k s answer.1 errno socket request answer.0).1 in
        subst IsSound (sym (close_message_fds-engine k s apart u answer.0)) (
          send_reply-IsSound answer.1 errno socket request answer.0
            (answer_request-IsSound x request sound))

    handle_once-IsSound :
        (allocated : Bool) (x : W × Engine) (errno : Errno) (socket : ℕ)
        → IsSound x.1
        → IsSound (handle_once provider k s allocated x errno socket).1.1
    unfolding handle_once
    handle_once-IsSound false x errno socket sound = sound
    handle_once-IsSound true x errno socket sound =
        let got = receive_message-engine k s apart x socket fresh_request in
        elim (Outcome-cases (receive_message k s x socket fresh_request)) [
          | inr (failed, y, m) ↦ rw m (subst IsSound (sym (rw m at got)) sound)
          | inl (request, y, m) ↦
              let y_sound : IsSound y.1 = subst IsSound (sym (rw m at got)) sound in
              elim (Bool-cases (request.header.message_type != msg_request)) [
                | inl a ↦
                    rw (m, a)
                      (subst IsSound (sym (close_message_fds-engine k s apart y request)) y_sound)
                | inr a ↦
                    let served = serve provider k s y errno socket request in
                    rw (m, a)
                      (subst IsSound (sym (close_message_fds-engine k s apart served.1 request))
                        (serve-IsSound y errno socket request y_sound))
              ]
        ]

    -- If calls on descriptors and sockets and the probe of the codecs leave the engine as it is,
    -- and the engine has four slots, a 32-bit counter of session ids and no two sessions with one
    -- id, then so it has after the broker has served any number of requests of a client, whichever
    -- of its allocations fail.
    pub serve_requests-IsSound :
        (rounds : List Bool) (x : W × Engine) (errno : Errno) (socket : ℕ)
        → IsSound x.1
        → IsSound (serve_requests provider k s errno rounds socket x).1
    unfolding serve_requests
    serve_requests-IsSound [] x errno socket sound = sound
    serve_requests-IsSound (allocated ∷ rounds) x errno socket sound =
        let next = handle_once-IsSound allocated x errno socket sound in
        elim (Bool-cases (handle_once provider k s allocated x errno socket).0) [
          | inl a ↦
              rw (a, serve_requests)
                (serve_requests-IsSound rounds (handle_once provider k s allocated x errno socket).1
                  errno socket next)
          | inr a ↦ rw (a, serve_requests) next
        ]
