-- ===== src/Broker.antt =====
-- The broker's loop body: src/video_bridge/src/broker.c with struct advc_broker_provider of
-- src/video_bridge/include/advc/broker.h and struct advc_capability_set of
-- src/video_bridge/include/advc/capabilities.h. A provider that is NULL is the one without functions and
-- features.
pub mod Features
pub mod Replies
pub mod Closing
pub mod Engine
pub mod Loop
pub mod Examples
use lin_de_x.Base.{
  ℕ, zero, suc, ◌+◌, ◌*◌, ◌-◌, ◌^◌, ◌==◌, ◌!=◌, ltb, leb, ◌&&◌, ◌||◌, not, Bool, true, false,
  Option, none, some, List, [], ◌∷◌, if◌then◌else◌, bit_and, replicate, min, Errno, enomem, eproto,
}
use lin_de_x.Kernel.{Kernel, Outcome, returns, fails}
use lin_de_x.Protocol.Limits.{
  version_major, version_minor, max_payload, max_fds, msg_request, msg_reply, op_hello,
}
use lin_de_x.Protocol.Wire.{Buffer, zeroes, clear, write, put_u32, put_u64, get_u32, get_u64}
use lin_de_x.Protocol.Header.{Header}
use lin_de_x.Protocol.Messages.{Socket, send_message, receive_message, close_message_fds}
use lin_de_x.Session.State.{
  Message, write_status, status_ok, status_bad_message, status_unsupported,
}

-- ADVC_STATUS_CODEC_ERROR
abbrev pub status_codec_error : ℕ
status_codec_error = 4

-- ADVC_MAX_CAPABILITIES
abbrev pub max_capabilities : ℕ
max_capabilities = 32

pub record Capability : Type 0 where
  pub mime : List ℕ
  pub codec_name : List ℕ
  pub direction : ℕ
  pub acceleration : ℕ
  pub low_latency : ℕ
  pub secure_playback : ℕ
  pub max_width : ℕ
  pub max_height : ℕ
  pub max_fps_milli : ℕ
  pub flags : ℕ

-- The array has its 32 entries, of which `count` are used.
pub record Capabilities : Type 0 where
  pub api_level : ℕ
  pub count : ℕ
  pub transport_features : ℕ
  pub codecs : List Capability

pub record Provider (W : Type 0) : Type 0 where
  pub feature_bits : ℕ
  -- The capabilities, or a negative result.
  pub query_capabilities : Option (W → Option Capabilities × W)
  pub handle_codec_request : Option (W → Message → Message → ℕ × Message × W)
  -- The result is not negative.
  pub after_reply : Option (W → ℕ → Message → Message → Bool × W)

-- `features & ~mask` of 64 bits.
unfoldable pub without : ℕ → ℕ → ℕ
without mask features = bit_and features (2 ^ 64 - 1 - mask)

-- The features that a client of the minor version knows.
unfoldable pub gate_features : ℕ → ℕ → ℕ
gate_features minor features =
    let a = if ltb minor 3 then without 0x40 features else features in
    let b = if ltb minor 4 then without 0x80 a else a in
    let c = if ltb minor 5 then without 0x302 b else b in
    let d = if ltb minor 6 then without 0x400 c else c in
    if ltb minor 8 then without 0x3800 d else d

unfoldable pub init_reply : Message → Message
init_reply request = record {
  header = record {
    major = version_major;
    minor = if leb request.header.minor version_minor then request.header.minor else version_minor;
    message_type = msg_reply;
    opcode = request.header.opcode;
    request_id = request.header.request_id;
    session_id = request.header.session_id;
    flags = 0;
    payload_size = 0;
    fd_count = 0;
    reserved = 0;
  };
  has_payload = true;
  payload = zeroes;
  capacity = max_payload;
  fds = replicate max_fds none;
}

-- `strncpy(entry + o, s, limit)`: the bytes of the string, then zeroes.
unfoldable pub put_string : Buffer → ℕ → ℕ → List ℕ → Buffer
put_string p o zero s = p
put_string p o (suc limit) [] = put_string (write p o 0) (o + 1) limit []
put_string p o (suc limit) (c ∷ s) = put_string (write p o c) (o + 1) limit s

unfoldable pub put_capability : Buffer → ℕ → Capability → Buffer
put_capability p entry c =
    let a = put_string p entry 63 c.mime in
    let b = put_string a (entry + 64) 127 c.codec_name in
    let d = write b (entry + 192) c.direction in
    let e = write d (entry + 193) c.acceleration in
    let f = write e (entry + 194) c.low_latency in
    let g = write f (entry + 195) c.secure_playback in
    let h = put_u32 g (entry + 196) c.max_width in
    let i = put_u32 h (entry + 200) c.max_height in
    let j = put_u32 i (entry + 204) c.max_fps_milli in put_u32 j (entry + 208) c.flags

unfoldable pub put_capabilities : Buffer → ℕ → ℕ → List Capability → Buffer
put_capabilities p entry zero codecs = p
put_capabilities p entry (suc count) [] = p
put_capabilities p entry (suc count) (c ∷ codecs) =
    put_capabilities (put_capability p entry c) (entry + 224) count codecs

unfoldable pub write_capability_reply : Message → Capabilities → Option Message
write_capability_reply reply caps =
    let required = 24 + caps.count * 224 in
    let a = clear reply.payload required in
    let b = put_u32 (put_u32 (put_u32 (put_u32 a 0 0) 4 caps.count) 8 caps.api_level) 12 0 in
    let c = put_u64 b 16 caps.transport_features in
    if ltb max_capabilities caps.count || ltb reply.capacity required
    then none
    else some (record reply {
      payload = put_capabilities c 24 caps.count caps.codecs;
      header = record reply.header { payload_size = required };
    })

-- HELLO with the client's features and its largest payload.
unfoldable pub hello_reply : ℕ → Message → Message → ℕ → ℕ → Message
hello_reply feature_bits request reply client_features client_max_payload =
    let features = bit_and (gate_features request.header.minor feature_bits) client_features in
    let most = if ltb client_max_payload max_payload then client_max_payload else max_payload in
    record reply {
      payload = put_u32 (put_u64 (clear reply.payload 16) 0 features) 8 most;
      header = record reply.header { payload_size = 16 };
    }

-- A HELLO without a payload asks for everything.
unfoldable pub handle_hello : ℕ → Message → Message → Message
handle_hello feature_bits request reply =
    if request.header.payload_size == 0
    then hello_reply feature_bits request reply (2 ^ 64 - 1) max_payload
    else if request.header.payload_size == 16
    then (hello_reply feature_bits request reply (get_u64 request.payload 0)
        (get_u32 request.payload 8))
    else write_status reply status_bad_message 0

unfoldable pub capability_reply : ℕ → Message → Message → Option Capabilities → Message
capability_reply feature_bits request reply none = write_status reply status_codec_error 0
capability_reply feature_bits request reply (some caps) =
    let features =
      gate_features request.header.minor (bit_and caps.transport_features feature_bits) in
    elim (write_capability_reply reply (record caps { transport_features = features })) [
      | some written ↦ written
      | none ↦ write_status reply status_codec_error 0
    ]

abbrev pub fresh_request : Message
fresh_request = record {
  header = record {
    major = 0;
    minor = 0;
    message_type = 0;
    opcode = 0;
    request_id = 0;
    session_id = 0;
    flags = 0;
    payload_size = 0;
    fd_count = 0;
    reserved = 0;
  };
  has_payload = true;
  payload = zeroes;
  capacity = max_payload;
  fds = replicate max_fds none;
}

module _ {W : Type 0} (p : Provider W) where
  unfoldable pub handle_query : W → Message → Message → Message × W
  handle_query w request reply = elim p.query_capabilities [
    | none ↦ (write_status reply status_unsupported 0, w)
    | some query ↦
        let (caps, v) = query w in (capability_reply p.feature_bits request reply caps, v)
  ]

  unfoldable pub codec_reply : ℕ × Message × W → Message × W
  codec_reply (status, reply, w) = (
    if status != status_ok && reply.header.payload_size == 0
        then write_status reply status 0
        else reply,
    w,
  )

  unfoldable pub handle_codec : W → Message → Message → Message × W
  handle_codec w request reply = elim p.handle_codec_request [
    | none ↦ (write_status reply status_unsupported 0, w)
    | some handle ↦ codec_reply (handle w request reply)
  ]

  -- The reply to a request, before it is sent.
  unfoldable pub answer_request : W → Message → Message × W
  answer_request w request =
      let reply = init_reply request in
      let opcode = request.header.opcode in
      if ltb version_minor request.header.minor
      then (write_status reply status_unsupported version_minor, w)
      else if opcode == 1
      then (handle_hello p.feature_bits request reply, w)
      else if opcode == 10
      then (write_status reply status_ok 0, w)
      else if opcode == 2
      then handle_query w request reply
      else handle_codec w request reply

  unfoldable pub finish_reply : W → ℕ → Message → Message → Bool × W
  finish_reply w socket request reply = elim p.after_reply [
    | none ↦ (true, w)
    | some after_reply ↦ after_reply w socket request reply
  ]

  module _ (k : Kernel W) (s : Socket W) where
    -- The result is that 0 is returned.
    unfoldable pub send_reply : W → Errno → ℕ → Message → Message → Bool × W
    send_reply w errno socket request reply = elim (send_message k s w errno socket reply) [
      | fails e v ↦ (false, v)
      | returns _ v ↦ finish_reply v socket request reply
    ]

    unfoldable pub serve : W → Errno → ℕ → Message → Bool × W
    serve w errno socket request =
        let (reply, v) = answer_request w request in
        let (done, u) = send_reply v errno socket request reply in
        (done, (close_message_fds k s u reply).1)

    -- `malloc` has given both buffers or not. errno is what the calls before have left.
    unfoldable pub handle_once : Bool → W → Errno → ℕ → Bool × W
    handle_once allocated w errno socket =
        if not allocated then (false, w) else elim (receive_message k s w socket fresh_request) [
          | fails e v ↦ (false, v)
          | returns request v ↦
              let (done, u) =
                if request.header.message_type != msg_request
                then (false, v)
                else serve v errno socket request in
              (done, (close_message_fds k s u request).1)
        ]
