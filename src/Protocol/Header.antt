-- ===== src/Protocol/Header.antt =====
-- struct advc_header and `advc_header_validate`, `advc_header_encode`, `advc_header_decode` of
-- src/video_bridge/src/protocol.c. The pointer arguments are not NULL.
use lin_de_x.Base.{
  ℕ, ◌^◌, ◌<◌, ◌||◌, ◌!=◌, ltb, if◌then◌else◌, Result, ok, err, einval, eproto, ◌>>◌,
}
use lin_de_x.Protocol.Limits.{
  magic, version_major, max_payload, max_fds, msg_event, op_reserve_linear,
}
use lin_de_x.Protocol.Wire.{Buffer, zeroes, put_u16, put_u32, get_u16, get_u32}

pub record Header : Type 0 where
  pub major : ℕ
  pub minor : ℕ
  pub message_type : ℕ
  pub opcode : ℕ
  pub request_id : ℕ
  pub session_id : ℕ
  pub flags : ℕ
  pub payload_size : ℕ
  pub fd_count : ℕ
  pub reserved : ℕ

unfoldable pub header_validate : Header → Result (Unit {0})
header_validate h =
    if h.major != version_major
      || ltb h.message_type 1
      || ltb msg_event h.message_type
      || ltb h.opcode 1
      || ltb op_reserve_linear h.opcode
      || ltb max_payload h.payload_size
      || ltb max_fds h.fd_count
      || h.reserved != 0
    then err eproto
    else ok tt

unfoldable pub put_header : Buffer → Header → Buffer
put_header out h =
    let b0 = put_u32 out 0 magic in
    let b4 = put_u16 b0 4 h.major in
    let b6 = put_u16 b4 6 h.minor in
    let b8 = put_u16 b6 8 h.message_type in
    let b10 = put_u16 b8 10 h.opcode in
    let b12 = put_u32 b10 12 h.request_id in
    let b16 = put_u32 b12 16 h.session_id in
    let b20 = put_u32 b16 20 h.flags in
    let b24 = put_u32 b20 24 h.payload_size in
    let b28 = put_u16 b24 28 h.fd_count in put_u16 b28 30 0

-- The 32 bytes written, or EINVAL whatever the reason.
unfoldable pub header_encode : Header → Result Buffer
header_encode h = elim (header_validate h) [ ok _ ↦ ok (put_header zeroes h) | err _ ↦ err einval ]

unfoldable pub get_header : Buffer → Header
get_header p = record {
  major = get_u16 p 4;
  minor = get_u16 p 6;
  message_type = get_u16 p 8;
  opcode = get_u16 p 10;
  request_id = get_u32 p 12;
  session_id = get_u32 p 16;
  flags = get_u32 p 20;
  payload_size = get_u32 p 24;
  fd_count = get_u16 p 28;
  reserved = get_u16 p 30;
}

-- The header read, or EPROTO.
unfoldable pub header_decode : Buffer → Result Header
header_decode p =
    if get_u32 p 0 != magic then err eproto else do let h = get_header p; header_validate h; ok h

-- Each field fits its C type.
pub record Fits (h : Header) : Type 0 where
  pub major : h.major < 2 ^ 16
  pub minor : h.minor < 2 ^ 16
  pub message_type : h.message_type < 2 ^ 16
  pub opcode : h.opcode < 2 ^ 16
  pub request_id : h.request_id < 2 ^ 32
  pub session_id : h.session_id < 2 ^ 32
  pub flags : h.flags < 2 ^ 32
  pub payload_size : h.payload_size < 2 ^ 32
  pub fd_count : h.fd_count < 2 ^ 16
  pub reserved : h.reserved < 2 ^ 16
