-- ===== src/Session/State.antt =====
-- struct advc_session_slot, struct advc_session_engine and struct advc_message, and the searches
-- through their arrays.
use lin_de_x.Base.{
  ℕ, zero, suc, ◌+◌, ◌%◌, ◌^◌, ◌==◌, ◌&&◌, not, Bool, false, Option, none, some, List,
  if◌then◌else◌, replicate, is_some, find_first,
}
use lin_de_x.Protocol.Header.{Header}
use lin_de_x.Protocol.Wire.{Buffer, put_u32}
use lin_de_x.Dmabuf.Registry.{Registry}
use lin_de_x.Session.World.{AhbInput, Metadata}

-- enum advc_status
abbrev pub status_ok : ℕ
status_ok = 0

abbrev pub status_bad_message : ℕ
status_bad_message = 1

abbrev pub status_unsupported : ℕ
status_unsupported = 2

abbrev pub status_no_resource : ℕ
status_no_resource = 3

abbrev pub status_would_block : ℕ
status_would_block = 6

abbrev pub status_internal : ℕ
status_internal = 7

-- enum advc_codec_direction
abbrev pub direction_decode : ℕ
direction_decode = 1

abbrev pub direction_encode : ℕ
direction_encode = 2

-- enum advc_buffer_transport
abbrev pub transport_bytes : ℕ
transport_bytes = 1

abbrev pub transport_dmabuf : ℕ
transport_dmabuf = 2

abbrev pub transport_ahb : ℕ
transport_ahb = 3

abbrev pub transport_broker_egl : ℕ
transport_broker_egl = 4

abbrev pub transport_android_ahb : ℕ
transport_android_ahb = 5

abbrev pub max_sessions : ℕ
max_sessions = 4

abbrev pub max_outputs : ℕ
max_outputs = 8

pub record Message : Type 0 where
  pub header : Header
  pub has_payload : Bool
  pub payload : Buffer
  pub capacity : ℕ
  pub fds : List (Option ℕ)

pub record OutputSlot : Type 0 where
  pub id : ℕ
  pub token : ℕ
  pub native_buffer : Option ℕ
  pub metadata : Metadata
  pub transport : ℕ
  pub transferred : Bool
  pub prime_transferred : Bool
  pub in_use : Bool

pub record Completion : Type 0 where
  pub buffer_id : ℕ
  pub status : ℕ
  pub detail : ℕ
  pub release_fence : Option ℕ
  pub in_use : Bool

-- The three states of a pending Android hardware buffer.
pub data Pending : Type 0 where
  pending_none await_handle pending_complete : Pending

pub record Session : Type 0 where
  pub id : ℕ
  pub handle : ℕ
  pub outputs : List OutputSlot
  pub encode_frame_size : ℕ
  pub transport : ℕ
  pub direction : ℕ
  pub pending : Pending
  pub pending_input : AhbInput
  pub pending_status : ℕ
  pub pending_detail : ℕ
  pub pending_release_fence : Option ℕ
  pub dmabufs : Option Registry
  pub completions : List Completion
  pub in_use : Bool

pub record Engine : Type 0 where
  pub sessions : List Session
  pub next_session_id : ℕ
  pub next_output_id : ℕ

abbrev pub no_metadata : Metadata
no_metadata = record {
  width = 0;
  height = 0;
  android_format = 0;
  stride = 0;
  layers = 0;
  usage = 0;
  crop_left = 0;
  crop_top = 0;
  crop_width = 0;
  crop_height = 0;
}

-- `memset` of a slot, with the descriptors at -1.
abbrev pub free_output : OutputSlot
free_output = record {
  id = 0;
  token = 0;
  native_buffer = none;
  metadata = no_metadata;
  transport = 0;
  transferred = false;
  prime_transferred = false;
  in_use = false;
}

abbrev pub free_completion : Completion
free_completion = record {
  buffer_id = 0;
  status = 0;
  detail = 0;
  release_fence = none;
  in_use = false;
}

abbrev pub no_input : AhbInput
no_input = record {
  pts_ns = 0;
  width = 0;
  height = 0;
  format = 0;
  layers = 0;
  usage = 0;
  acquire_fence = none;
}

abbrev pub free_session : Session
free_session = record {
  id = 0;
  handle = 0;
  outputs = replicate max_outputs free_output;
  encode_frame_size = 0;
  transport = 0;
  direction = 0;
  pending = pending_none;
  pending_input = no_input;
  pending_status = 0;
  pending_detail = 0;
  pending_release_fence = none;
  dmabufs = none;
  completions = replicate 4 free_completion;
  in_use = false;
}

unfoldable pub engine_create : Engine
engine_create = record {
  sessions = replicate max_sessions free_session;
  next_session_id = 1;
  next_output_id = 1;
}

abbrev pub is_session : ℕ → Session → Bool
is_session id s = s.in_use && s.id == id

abbrev pub is_free : Session → Bool
is_free s = not s.in_use

abbrev pub find_session : ℕ → List Session → Option Session
find_session id ss = find_first (is_session id) ss

abbrev pub is_output : ℕ → OutputSlot → Bool
is_output id o = o.in_use && o.id == id

abbrev pub is_free_output : OutputSlot → Bool
is_free_output o = not o.in_use

abbrev pub is_completion : ℕ → Completion → Bool
is_completion id c = c.in_use && c.buffer_id == id

abbrev pub is_free_completion : Completion → Bool
is_free_completion c = not c.in_use

abbrev pub uint32_mod : ℕ
uint32_mod = 2 ^ 32

abbrev pub uint64_mod : ℕ
uint64_mod = 2 ^ 64

-- `allocate_session_id` from the counter's value, with fuel: the id and the counter after it.
unfoldable pub allocate_session_id : ℕ → ℕ → List Session → Option (ℕ × ℕ)
allocate_session_id zero candidate ss = none
allocate_session_id (suc fuel) candidate ss =
    let next = (candidate + 1) % uint32_mod in
    let rest = allocate_session_id fuel next ss in
    if candidate == 0
    then rest
    else if is_some (find_session candidate ss)
    then rest
    else some (candidate, next)

-- `allocate_output_id`: the id and the counter after it.
unfoldable pub allocate_output_id : ℕ → ℕ × ℕ
allocate_output_id counter =
    let next = (counter + 1) % uint64_mod in
    if counter == 0 then (next, (next + 1) % uint64_mod) else (counter, next)

unfoldable pub write_status : Message → ℕ → ℕ → Message
write_status reply status detail = record reply {
  payload = put_u32 (put_u32 reply.payload 0 status) 4 detail;
  header = record reply.header { payload_size = 8 };
}
