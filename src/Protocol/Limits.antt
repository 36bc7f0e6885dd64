-- ===== src/Protocol/Limits.antt =====
-- Constants of src/video_bridge/include/advc/protocol.h.
use lin_de_x.Base.{ℕ, ◌*◌}

-- The wire bytes of "ADVC".
abbrev pub magic : ℕ
magic = 0x43564441

abbrev pub version_major : ℕ
version_major = 1

abbrev pub version_minor : ℕ
version_minor = 8

abbrev pub header_size : ℕ
header_size = 32

abbrev pub max_payload : ℕ
max_payload = 1024 * 1024

abbrev pub max_fds : ℕ
max_fds = 8

-- enum advc_message_type, its first and last members.
abbrev pub msg_request : ℕ
msg_request = 1

abbrev pub msg_reply : ℕ
msg_reply = 2

abbrev pub msg_event : ℕ
msg_event = 3

-- enum advc_opcode, its first and last members.
abbrev pub op_hello : ℕ
op_hello = 1

abbrev pub op_reserve_linear : ℕ
op_reserve_linear = 18
