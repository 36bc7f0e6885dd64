-- ===== src/Session/Create.antt =====
-- `handle_create` of src/video_bridge/src/session_engine.c: its tests in their order, the backend
-- call, and the slot that it fills.
use lin_de_x.Base.{
  ℕ, zero, suc, ◌+◌, ◌*◌, ◌/◌, ◌%◌, ◌^◌, ◌==◌, ◌!=◌, ltb, ◌&&◌, ◌||◌, not, Bool, true, false,
  Option, none, some, List, [], ◌∷◌, if◌then◌else◌, is_some, find_first, update_first, ◌-◌, Errno,
  enomem,
}
use lin_de_x.Protocol.Wire.{Buffer, get_u32}
use lin_de_x.Dmabuf.Registry.{registry_create}
use lin_de_x.Session.World.{Config, Host}
use lin_de_x.Session.State.{
  Message, Session, Engine, free_session, is_free, allocate_session_id, write_status, status_ok,
  status_bad_message, status_unsupported, status_no_resource, status_internal, direction_decode,
  direction_encode, transport_bytes, transport_dmabuf, transport_ahb, transport_broker_egl,
  transport_android_ahb,
}

-- memchr(p + o, '\0', size) != NULL
unfoldable pub has_zero : Buffer → ℕ → ℕ → Bool
has_zero p o zero = false
has_zero p o (suc size) = p o == 0 || has_zero p (o + 1) size

-- strncmp(p + o, text, strlen(text)) == 0
unfoldable pub starts_with : Buffer → ℕ → List ℕ → Bool
starts_with p o [] = true
starts_with p o (c ∷ cs) = p o == c && starts_with p (o + 1) cs

-- strcmp(p + o, text) == 0
unfoldable pub equals : Buffer → ℕ → List ℕ → Bool
equals p o [] = p o == 0
equals p o (c ∷ cs) = p o == c && equals p (o + 1) cs

-- The bytes that `strncpy` copies, at most `size`.
unfoldable pub c_string : Buffer → ℕ → ℕ → List ℕ
c_string p o zero = []
c_string p o (suc size) = let rest = c_string p (o + 1) size in if p o == 0 then [] else p o ∷ rest

-- "video/", "video/avc" and "video/hevc"
abbrev pub mime_video : List ℕ
mime_video = b'v' ∷ b'i' ∷ b'd' ∷ b'e' ∷ b'o' ∷ b'/' ∷ []

abbrev pub mime_avc : List ℕ
mime_avc = b'v' ∷ b'i' ∷ b'd' ∷ b'e' ∷ b'o' ∷ b'/' ∷ b'a' ∷ b'v' ∷ b'c' ∷ []

abbrev pub mime_hevc : List ℕ
mime_hevc = b'v' ∷ b'i' ∷ b'd' ∷ b'e' ∷ b'o' ∷ b'/' ∷ b'h' ∷ b'e' ∷ b'v' ∷ b'c' ∷ []

abbrev pub max_mime : ℕ
max_mime = 64

abbrev pub mime_offset : ℕ
mime_offset = 24

abbrev pub create_size : ℕ
create_size = 100

abbrev pub max_input_bytes : ℕ
max_input_bytes = 16 * 1024 * 1024

unfoldable pub read_config : Buffer → Config
read_config p =
    let transport = get_u32 p 92 in
    record {
      direction = get_u32 p 0;
      mime = c_string p mime_offset (max_mime - 1);
      width = get_u32 p 4;
      height = get_u32 p 8;
      bitrate = get_u32 p 12;
      framerate_milli = get_u32 p 16;
      color_format = get_u32 p 88;
      transport = if transport == 0 then transport_bytes else transport;
      encode_profile = get_u32 p 96;
      flags = get_u32 p 20;
    }

-- The conditions on every session.
unfoldable pub common_ok : Config → Buffer → Bool
common_ok c p = not (
    c.direction != direction_decode && c.direction != direction_encode
    || c.flags != 0
    || ltb c.width 16
    || ltb 8192 c.width
    || ltb c.height 16
    || ltb 8192 c.height
    || ltb 240000 c.framerate_milli
    || not (has_zero p mime_offset max_mime)
    || not (starts_with p mime_offset mime_video))

-- The tests of a decode session, as the status that they give.
unfoldable pub decode_status : Config → ℕ → ℕ
decode_status c minor =
    if c.color_format != 0
      || c.encode_profile != 0
      || c.transport != transport_bytes && c.transport != transport_ahb
    then status_bad_message
    else if c.transport == transport_ahb && ltb minor 2
    then status_unsupported
    else status_ok

-- Width by height and half as much again, in 64 bits.
unfoldable pub frame_size : Config → ℕ
frame_size c = let luma = c.width * c.height % 2 ^ 64 in (luma + luma / 2) % 2 ^ 64

unfoldable pub encode_malformed : Config → Buffer → Bool
encode_malformed c p =
    let avc = equals p mime_offset mime_avc in
    let hevc = equals p mime_offset mime_hevc in
    let surface =
      c.transport == transport_broker_egl
      || c.transport == transport_android_ahb
      || c.transport == transport_dmabuf in
    not avc && not hevc
    || c.bitrate == 0
    || ltb 200000000 c.bitrate
    || ltb c.framerate_milli 1000
    || c.width % 2 != 0
    || c.height % 2 != 0
    || c.transport != transport_bytes && not surface
    || c.transport == transport_bytes && c.color_format != 19 && c.color_format != 21
    || surface && c.color_format != 0
    || avc && c.encode_profile != 1 && c.encode_profile != 2 && c.encode_profile != 3
    || hevc && c.encode_profile != 4

unfoldable pub registry_status : Errno → ℕ
registry_status enomem = status_no_resource
registry_status _ = status_internal

module _ {W : Type 0} (h : Host W) where
  -- The tests of an encode session.
  unfoldable pub encode_status : Config → Buffer → ℕ → ℕ
  encode_status c p minor =
      if ltb minor 7
      then status_unsupported
      else if encode_malformed c p
      then status_bad_message
      else if c.transport == transport_broker_egl && ltb minor 3
      then status_unsupported
      else if c.transport == transport_android_ahb
          && (ltb minor 4 || not (is_some h.backend.receive_ahb_input))
      then status_unsupported
      else if c.transport == transport_dmabuf
          && (ltb minor 5
              || not (is_some h.backend.dmabuf_format_allowed)
              || not (is_some h.backend.submit_dmabuf))
      then status_unsupported
      else if c.transport == transport_bytes && ltb max_input_bytes (frame_size c)
      then status_no_resource
      else status_ok

  -- All tests on the request.
  unfoldable pub create_status : Message → ℕ
  create_status request =
      let header = request.header in
      let c = read_config request.payload in
      if header.session_id != 0 || header.fd_count != 0 || header.payload_size != create_size
      then status_bad_message
      else if not (common_ok c request.payload)
      then status_bad_message
      else if c.direction == direction_decode
      then decode_status c header.minor
      else encode_status c request.payload header.minor

  -- A reply to a request, with what it leaves behind.
  pub record Created : Type 0 where
    pub status : ℕ
    pub engine : Engine
    pub reply : Message
    pub world : W

  -- The slot of a new session, without its id.
  unfoldable pub new_session : Config → ℕ → ℕ → Session
  new_session c handle id = record free_session {
    id = id;
    handle = handle;
    encode_frame_size =
        if c.direction == direction_encode && c.transport == transport_bytes
        then frame_size c
        else 0;
    transport = c.transport;
    direction = c.direction % 2 ^ 8;
    dmabufs = if c.transport == transport_dmabuf then some registry_create else none;
    in_use = true;
  }

  -- errno if the registry of a new session, which only dma-bufs need, is not created.
  unfoldable pub registry_failure : Config → W → Option Errno
  registry_failure c w = if c.transport == transport_dmabuf then h.files.registry_error w else none

  -- The slot is filled and its id allocated, or cleared if there is no registry for it; the fuel is the number of ids that may be passed over.
  unfoldable pub opened : Engine → Message → Config → ℕ × Option ℕ × W → Option Created
  opened e reply c (status, handle, w) = elim (status != status_ok) [
    | true ↦ some (record { status = status; engine = e; reply = reply; world = w })
    | false ↦ elim handle [
      | none ↦ some (record { status = status_internal; engine = e; reply = reply; world = w })
      | some pointer ↦ elim (registry_failure c w) [
        | some error ↦ some (record {
          status = registry_status error;
          engine = record e { sessions = update_first is_free (λ _. free_session) e.sessions };
          reply = reply;
          world = h.backend.destroy w pointer;
        })
        | none ↦ elim (allocate_session_id 6 e.next_session_id e.sessions) [
          | none ↦ none
          | some (id, next) ↦ some (record {
            status = status_ok;
            engine = record e {
              sessions = update_first is_free (λ _. new_session c pointer id) e.sessions;
              next_session_id = next;
            };
            reply =
                write_status (record reply { header = record reply.header { session_id = id } })
                  status_ok 0;
            world = w;
          })
        ]
      ]
    ]
  ]

  unfoldable pub handle_create : W → Engine → Message → Message → Option Created
  handle_create w e request reply =
      let status = create_status request in
      if status != status_ok
      then some (record { status = status; engine = e; reply = reply; world = w })
      else if not (is_some (find_first is_free e.sessions))
      then some (record { status = status_no_resource; engine = e; reply = reply; world = w })
      else opened e reply (read_config request.payload)
          (h.backend.create w (read_config request.payload))
