-- ===== src/Broker/Replies.antt =====
-- The header of the reply that src/video_bridge/src/broker.c answers a request with.
use lin_de_x.Base.{
  ◌≢◌, ℕ, ◌==◌, ◌!=◌, ltb, ◌&&◌, Option, none, some, min, ◌≡◌, refl, arith, Bool-cases,
  Option-cases, inl, inr, bit_and,
}
use lin_de_x.Protocol.Limits.{version_minor, msg_reply, version_major}
use lin_de_x.Session.State.{Message, write_status}
use lin_de_x.Broker.{
  Provider, Capabilities, init_reply, hello_reply, handle_hello, write_capability_reply,
  capability_reply, handle_query, codec_reply, handle_codec, answer_request, gate_features,
}

-- The reply is the request's: its identity, and a version that both sides know. The session of a reply to
-- CREATE_SESSION (opcode 3) is the new one.
pub record Echoes (request reply : Message) : Type 0 where
  pub major : reply.header.major ≡ version_major
  pub minor : reply.header.minor ≡ min request.header.minor version_minor
  pub message_type : reply.header.message_type ≡ msg_reply
  pub opcode : reply.header.opcode ≡ request.header.opcode
  pub request_id : reply.header.request_id ≡ request.header.request_id
  pub session_id : request.header.opcode ≢ 3 → reply.header.session_id ≡ request.header.session_id

-- A codec engine, where there is one, leaves the identity of the reply as it is.
unfoldable pub KeepsIdentity :
    {W : Type 0} → Option (W → Message → Message → ℕ × Message × W) → Type 0
KeepsIdentity none = Unit
KeepsIdentity {W} (some handle) =
    (w : W) (request reply : Message)
    → Echoes request reply
    → Echoes request (handle w request reply).1

init_reply-Echoes : (request : Message) → Echoes request (init_reply request)
unfolding init_reply
init_reply-Echoes request = record {
  major = refl;
  minor = ground arith;
  message_type = refl;
  opcode = refl;
  request_id = refl;
  session_id = λ _. refl;
}

written-Echoes :
    (request reply : Message)
    → Echoes request reply
    → (status detail : ℕ) → Echoes request (write_status reply status detail)
unfolding write_status
written-Echoes request reply e status detail = record {
  major = e.major;
  minor = e.minor;
  message_type = e.message_type;
  opcode = e.opcode;
  request_id = e.request_id;
  session_id = e.session_id;
}

codec_reply-Echoes :
    {W : Type 0} (p : Provider W) (request : Message) (r : ℕ × Message × W)
    → Echoes request r.1
    → Echoes request (codec_reply p r).0
unfolding codec_reply
codec_reply-Echoes p request (status, answered, w) h =
    elim (Bool-cases (status != 0 && answered.header.payload_size == 0)) [
      | inl a ↦ rw a (written-Echoes request answered h status 0)
      | inr a ↦ rw a h
    ]

module _ (request reply : Message) (e : Echoes request reply) where
  hello_reply-Echoes :
      (feature_bits client most : ℕ)
      → Echoes request (hello_reply feature_bits request reply client most)
  unfolding hello_reply
  hello_reply-Echoes feature_bits client most = record {
    major = e.major;
    minor = e.minor;
    message_type = e.message_type;
    opcode = e.opcode;
    request_id = e.request_id;
    session_id = e.session_id;
  }

  handle_hello-Echoes :
      (feature_bits : ℕ) → Echoes request (handle_hello feature_bits request reply)
  unfolding handle_hello
  handle_hello-Echoes feature_bits = elim (Bool-cases (request.header.payload_size == 0)) [
    | inl a ↦ rw a (hello_reply-Echoes feature_bits _ _)
    | inr a ↦ elim (Bool-cases (request.header.payload_size == 16)) [
      | inl b ↦ rw (a, b) (hello_reply-Echoes feature_bits _ _)
      | inr b ↦ rw (a, b) (written-Echoes request reply e _ _)
    ]
  ]

  write_capability_reply-Echoes :
      (caps : Capabilities) (written : Message)
      → write_capability_reply reply caps ≡ some written
      → Echoes request written
  unfolding write_capability_reply
  write_capability_reply-Echoes caps written h = record {
    major = ground (arith, h, e.major);
    minor = ground (arith, h, e.minor);
    message_type = ground (arith, h, e.message_type);
    opcode = ground (arith, h, e.opcode);
    request_id = ground (arith, h, e.request_id);
    session_id = λ n. ground (arith, h, e.session_id n);
  }

  capability_reply-Echoes :
      (feature_bits : ℕ) (caps : Option Capabilities)
      → Echoes request (capability_reply feature_bits request reply caps)
  unfolding capability_reply
  capability_reply-Echoes feature_bits none = written-Echoes request reply e _ _
  capability_reply-Echoes feature_bits (some caps) =
      let features =
        gate_features request.header.minor (bit_and caps.transport_features feature_bits) in
      let offered = record caps { transport_features = features } in
      elim (Option-cases (write_capability_reply reply offered)) [
        | inl m ↦ rw (m, capability_reply) (written-Echoes request reply e _ _)
        | inr (written, m) ↦
            rw (m, capability_reply) (write_capability_reply-Echoes offered written m)
      ]

  module _ {W : Type 0} (p : Provider W) where
    handle_query-Echoes : (w : W) → Echoes request (handle_query p w request reply).0
    unfolding handle_query
    handle_query-Echoes w = elim (Option-cases p.query_capabilities) [
      | inl m ↦ rw m (written-Echoes request reply e _ _)
      | inr (query, m) ↦ rw m (capability_reply-Echoes p.feature_bits (query w).0)
    ]

    handle_codec-Echoes :
        KeepsIdentity p.handle_codec_request
        → (w : W) → Echoes request (handle_codec p w request reply).0
    unfolding handle_codec KeepsIdentity codec_reply
    handle_codec-Echoes keeps w = elim (Option-cases p.handle_codec_request) [
      | inl m ↦ rw m (written-Echoes request reply e _ _)
      | inr (handle, m) ↦ rw m (
          codec_reply-Echoes p request (handle w request reply) ((rw m at keeps) w request reply e))
    ]

-- If the codec engine leaves the identity of a reply as it is, the reply to any request is a reply
-- of the protocol's major version, with the request's opcode, request id and session id and the
-- smaller of the two minor versions.
pub answer_request-Echoes :
    {W : Type 0} (p : Provider W) (w : W) (request : Message)
    → KeepsIdentity p.handle_codec_request
    → Echoes request (answer_request p w request).0
unfolding answer_request
answer_request-Echoes p w request keeps =
    let reply = init_reply request in
    let e = init_reply-Echoes request in
    let opcode = request.header.opcode in
    elim (Bool-cases (ltb version_minor request.header.minor)) [
      | inl a ↦ rw a (written-Echoes request reply e _ _)
      | inr a ↦ elim (Bool-cases (opcode == 1)) [
        | inl b ↦ rw (a, b) (handle_hello-Echoes request reply e p.feature_bits)
        | inr b ↦ elim (Bool-cases (opcode == 10)) [
          | inl c ↦ rw (a, b, c) (written-Echoes request reply e _ _)
          | inr c ↦ elim (Bool-cases (opcode == 2)) [
            | inl d ↦ rw (a, b, c, d) (handle_query-Echoes request reply e p w)
            | inr d ↦ rw (a, b, c, d) (handle_codec-Echoes request reply e p keeps w)
          ]
        ]
      ]
    ]
