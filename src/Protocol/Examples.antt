-- ===== src/Protocol/Examples.antt =====
-- The codec on one reply header.
use lin_de_x.Base.{◌≡◌, refl, arith, ok}
use lin_de_x.Protocol.Limits.{magic}
use lin_de_x.Protocol.Wire.{Buffer, zeroes, put_u16, put_u32, get_u16, get_u32, join_u16, join_u32}
use lin_de_x.Protocol.Header.{
  Header, header_validate, header_encode, header_decode, get_header, put_header,
}
use lin_de_x.Protocol.RoundTrip.{IsAdmitted, header_decode-encode, header_decode-IsAdmitted}

abbrev ping : Header
ping = record {
  major = 1;
  minor = 8;
  message_type = 1;
  opcode = 10;
  request_id = 0x01020304;
  session_id = 7;
  flags = 0;
  payload_size = 0;
  fd_count = 0;
  reserved = 0;
}

ping-IsAdmitted : IsAdmitted ping
ping-IsAdmitted = omega arith

request_id_bytes : put_header zeroes ping 12 ≡ 4
unfolding put_header put_u16 put_u32
request_id_bytes = refl

header_decode-encode_example :
    (out : Buffer) × (header_encode ping ≡ ok out) × (header_decode out ≡ ok ping)
header_decode-encode_example = header_decode-encode ping ping-IsAdmitted (omega arith)

ping_read : header_decode (put_header zeroes ping) ≡ ok ping
unfolding header_decode header_validate get_header put_header put_u16 put_u32 get_u16 get_u32
    join_u16 join_u32
ping_read = refl

header_decode-IsAdmitted_example :
    (get_u32 (put_header zeroes ping) 0 ≡ magic)
    × (ping ≡ get_header (put_header zeroes ping))
    × IsAdmitted ping
header_decode-IsAdmitted_example = header_decode-IsAdmitted (put_header zeroes ping) ping ping_read
