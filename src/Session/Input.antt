-- ===== src/Session/Input.antt =====
-- `load_input` and `handle_queue` of src/video_bridge/src/session_engine.c.
use lin_de_x.Base.{
  ℕ, ◌+◌, ◌-◌, ◌^◌, ◌==◌, ◌!=◌, ltb, leb, ◌&&◌, ◌||◌, not, Bool, Option, none, some, if◌then◌else◌,
  get_or, bit_and,
}
use lin_de_x.Protocol.Wire.{Buffer, get_u32, get_u64}
use lin_de_x.Dmabuf.Records.{bytes_are_zero}
use lin_de_x.Session.World.{Host}
use lin_de_x.Session.State.{
  Message, Session, status_ok, status_bad_message, status_unsupported, status_no_resource,
  direction_encode, transport_dmabuf, transport_broker_egl, transport_android_ahb,
}
use lin_de_x.Session.Create.{max_input_bytes}
use lin_de_x.Session.Handled.{Handled, refuse, accept}

abbrev pub queue_input_size : ℕ
queue_input_size = 48

-- enum advc_fd_role and enum advc_packet_flags
abbrev pub fd_none : ℕ
fd_none = 0

abbrev pub fd_input_data : ℕ
fd_input_data = 1

abbrev pub flag_end_of_stream : ℕ
flag_end_of_stream = 1

-- Every flag but END_OF_STREAM, KEY_FRAME and CODEC_CONFIG, in 32 bits.
abbrev pub other_flags : ℕ
other_flags = 2 ^ 32 - 1 - 7

-- A status, and with `status_ok` the data and its size.
pub record Loaded : Type 0 where
  pub status : ℕ
  pub bytes : Buffer
  pub size : ℕ

abbrev pub not_loaded : ℕ → Loaded
not_loaded status = record { status = status; bytes = λ _. 0; size = 0 }

module _ {W : Type 0} (h : Host W) where
  -- The data in a sealed memory file.
  unfoldable pub load_file : W → Option ℕ → ℕ → ℕ → Loaded
  load_file w none offset size = not_loaded status_bad_message
  load_file w (some fd) offset size =
      if leb (2 ^ 63) offset || leb (2 ^ 64) (offset + size)
      then not_loaded status_bad_message
      else elim (h.files.regular_size w fd) [
        | none ↦ not_loaded status_bad_message
        | some file_size ↦
            if not (h.files.is_sealed w fd) || ltb file_size (offset + size)
            then not_loaded status_bad_message
            else if not (h.files.can_allocate w (if ltb 0 size then size else 1))
            then not_loaded status_no_resource
            else if size == 0
            then record { status = status_ok; bytes = λ _. 0; size = 0 }
            else elim (h.files.read_at w fd size offset) [
              | none ↦ not_loaded status_bad_message
              | some bytes ↦ record { status = status_ok; bytes = bytes; size = size }
            ]
      ]

  unfoldable pub load_input : W → Message → Loaded
  load_input w request =
      let p = request.payload in
      let header = request.header in
      let offset = get_u64 p 16 in
      let size = get_u64 p 24 in
      let role = get_u32 p 36 in
      if ltb header.payload_size queue_input_size || not (bytes_are_zero p 40 8)
      then not_loaded status_bad_message
      else if ltb max_input_bytes size
      then not_loaded status_no_resource
      else if header.fd_count == 0
      then if role != fd_none
          || offset != queue_input_size
          || ltb (2 ^ 32 - 1 - queue_input_size) size
          || header.payload_size != queue_input_size + size
        then not_loaded status_bad_message
        else record { status = status_ok; bytes = λ i. p (queue_input_size + i); size = size }
      else if header.fd_count == 1
          && role == fd_input_data
          && header.payload_size == queue_input_size
      then load_file w (get_or request.fds 0 none) offset size
      else not_loaded status_bad_message

  -- An empty frame-control packet.
  unfoldable pub is_control : Message → Bool
  is_control request =
      let p = request.payload in
      request.header.fd_count == 0
      && request.header.payload_size == queue_input_size
      && get_u64 p 16 == queue_input_size
      && get_u64 p 24 == 0
      && get_u32 p 36 == fd_none

  -- What an encoder takes: the end of the stream alone, or a whole frame with no flag.
  unfoldable pub encoder_refuses : Session → ℕ → ℕ → Bool
  encoder_refuses s flags size =
      s.direction == direction_encode
      && ((bit_and flags flag_end_of_stream != 0 && (flags != flag_end_of_stream || size != 0))
          || (bit_and flags flag_end_of_stream == 0 && (flags != 0 || size != s.encode_frame_size)))

  unfoldable pub queued : Session → Message → ℕ × W → Handled W
  queued s reply (status, w) =
      if status == status_ok then accept s reply w else refuse status s reply w

  unfoldable pub queue_loaded : W → Session → Message → Message → Loaded → Handled W
  queue_loaded w s request reply l =
      let flags = get_u32 request.payload 32 in
      if l.status != status_ok
      then refuse l.status s reply w
      else if bit_and flags other_flags != 0 || encoder_refuses s flags l.size
      then refuse status_bad_message s reply w
      else queued s reply
          (h.backend.queue_input w s.handle l.bytes l.size (get_u64 request.payload 8) flags)

  unfoldable pub handle_queue : W → Session → Message → Message → Handled W
  handle_queue w s request reply =
      if (s.transport == transport_android_ahb || s.transport == transport_dmabuf)
        && not (is_control request && get_u32 request.payload 32 == flag_end_of_stream)
      then refuse status_unsupported s reply w
      else if s.transport == transport_broker_egl && not (is_control request)
      then refuse status_bad_message s reply w
      else queue_loaded w s request reply (load_input w request)
