-- ===== src/Protocol/RoundTrip.antt =====
-- The header codec of src/video_bridge/src/protocol.c: the headers that it admits, writes and reads.
use lin_de_x.Base.{◌≤◌, ◌≡◌, arith, ◌≢◌, ok, err, einval, eproto, ◌↔◌}
use lin_de_x.Protocol.Limits.{magic, max_payload}
use lin_de_x.Protocol.Wire.{
  Buffer, zeroes, put_u16, put_u32, get_u16, get_u32, join-split_u16, join-split_u32,
}
use lin_de_x.Protocol.Header.{
  Header, Fits, header_validate, header_encode, header_decode, get_header, put_header,
}

-- The headers that the protocol admits.
pub record IsAdmitted (h : Header) : Type 0 where
  pub version : h.major ≡ 1
  pub type_low : 1 ≤ h.message_type
  pub type_high : h.message_type ≤ 3
  pub opcode_low : 1 ≤ h.opcode
  pub opcode_high : h.opcode ≤ 18
  pub payload : h.payload_size ≤ max_payload
  pub fds : h.fd_count ≤ 8
  pub reserved : h.reserved ≡ 0

-- Validation succeeds on exactly the admitted headers.
pub header_validate_iff : (h : Header) → (header_validate h ≡ ok tt) ↔ IsAdmitted h
unfolding header_validate
header_validate_iff h = ground arith

pub header_validate-cases :
    (h : Header) → header_validate h ≢ ok tt → header_validate h ≡ err eproto
unfolding header_validate
header_validate-cases h n = ground arith

-- Every field is read back from the offset that it was written to.
get-put_header : (h : Header) → Fits h → h.reserved ≡ 0 → get_header (put_header zeroes h) ≡ h
unfolding get_header put_header put_u16 put_u32 get_u16 get_u32
get-put_header h f e = simp (join-split_u16, join-split_u32) (ground arith)

magic-put_header : (h : Header) → get_u32 (put_header zeroes h) 0 ≡ magic
unfolding put_header put_u16 put_u32 get_u32
magic-put_header h = join-split_u32 magic

-- An admitted header whose fields fit their types is written, and reading the bytes gives it back.
pub header_decode-encode :
    (h : Header)
    → IsAdmitted h
    → Fits h
    → (out : Buffer) × (header_encode h ≡ ok out) × (header_decode out ≡ ok h)
unfolding header_encode header_decode
header_decode-encode h a f =
    let valid : header_validate h ≡ ok tt = (header_validate_iff h).1 a in
    (
      put_header zeroes h,
      rw (valid, header_encode),
      rw (magic-put_header h, get-put_header h f a.reserved, valid, header_decode),
    )

-- A header that is not admitted is not written; the error is EINVAL.
header_encode-refuses : (h : Header) → ¬ IsAdmitted h → header_encode h ≡ err einval
unfolding header_encode
header_encode-refuses h n =
    rw (header_validate-cases h (λ e. n ((header_validate_iff h).0 e)), header_encode)

-- If reading bytes succeeds, the magic stands at their start, the header is what the fields hold,
-- and it is admitted.
pub header_decode-IsAdmitted :
    (p : Buffer) (h : Header)
    → header_decode p ≡ ok h
    → (get_u32 p 0 ≡ magic) × (h ≡ get_header p) × IsAdmitted h
unfolding header_decode
header_decode-IsAdmitted p h e = ground (arith, header_validate_iff (get_header p))
