-- ===== src/Session/Examples.antt =====
-- The engine on a host whose backend answers OK to everything.
use lin_de_x.Base.{
  ℕ, ◌+◌, ◌≡◌, ◌≢◌, refl, ok, err, true, false, some, none, ◌∷◌, replicate, arith, find_first, ltb,
}
use lin_de_x.Protocol.Wire.{Buffer, zeroes, put_u32}
use lin_de_x.Dmabuf.Sample.{counting_kernel, frame, allow, registered}
use lin_de_x.Dmabuf.Registry.{allowed, registry_create, find_entry}
use lin_de_x.Dmabuf.Registry.Refine.{registry_register-IsValid, registry_create-IsValid, status}
use lin_de_x.Dmabuf.Records.{registration_encode}
use lin_de_x.Session.Unique.{IsSound, begins, Reaches-Answered}
use lin_de_x.Session.World.{Host, Backend, Files, BackendOutput}
use lin_de_x.Session.State.{
  Engine, Message, Session, free_session, find_session, await_handle, status_ok, status_internal,
  allocate_session_id, pending_complete, engine_create,
}
use lin_de_x.Session.Ids.{Fresh, allocate_session_id-Fresh}
use lin_de_x.Session.Valid.{Answered, engine_handle-Answered}
use lin_de_x.Session.Others.{Untouched, engine_handle-Untouched}
use lin_de_x.Session.Ahb.{receive_ahb}
use lin_de_x.Session.Handshake.{receive_ahb_lem}
use lin_de_x.Session.Ingress.{
  handle_register_dmabuf, handle_unregister_dmabuf, handle_queue_dmabuf, handle_complete_dmabuf,
}
use lin_de_x.Session.Pairing.{
  Paired, Paired-same, register-flies, SessionPaired, handle_register_dmabuf-Paired,
  handle_unregister_dmabuf-Paired, waiting,
}
use lin_de_x.Session.Flights.{handle_queue_dmabuf-Paired, handle_complete_dmabuf-Paired}
use lin_de_x.Session.Create.{Created}
use lin_de_x.Session.Cycle.{Cycle, engine_handle-Cycle}
use lin_de_x.Session.Engine.{engine_handle}

abbrev no_output : BackendOutput
no_output = record {
  bytes = none;
  size = 0;
  pts_ns = 0;
  flags = 0;
  width = 0;
  height = 0;
  android_format = 0;
  stride = 0;
  layers = 0;
  usage = 0;
  slice_height = 0;
  crop_left = 0;
  crop_top = 0;
  crop_right = 0;
  crop_bottom = 0;
  token = 0;
  native_buffer = none;
  acquire_fence = none;
  transport = 0;
}

abbrev willing : Backend ℕ
willing = record {
  create = λ w c. (0, some 1, w);
  queue_input = λ w s p size pts flags. (0, w);
  dequeue_output = λ w s. (0, no_output, w);
  release_output = λ w s token fence. w;
  export_decode_prime = none;
  send_native_buffer = none;
  receive_ahb_input = some (λ w s socket input. (0, some 9, w));
  dmabuf_format_allowed = some (λ w s d. allowed);
  submit_dmabuf = some (λ w s d pts fence. (0, none, w));
  flush = λ w s. (0, w);
  destroy = λ w s. w;
}

abbrev empty_files : Files ℕ
empty_files = record {
  regular_size = λ w fd. none;
  is_sealed = λ w fd. false;
  can_allocate = λ w size. true;
  registry_error = λ w. none;
  read_at = λ w fd offset size. none;
  sealed_output = λ w p size. (some w, w + 1);
}

abbrev pub host : Host ℕ
host = record { kernel = counting_kernel; backend = willing; files = empty_files }

-- A request with an opcode, a session and a payload.
abbrev request_to : ℕ → ℕ → ℕ → Buffer → Message
request_to opcode id size payload = record {
  header = record {
    major = 1;
    minor = 8;
    message_type = 1;
    opcode = opcode;
    request_id = 1;
    session_id = id;
    flags = 0;
    payload_size = size;
    fd_count = 0;
    reserved = 0;
  };
  has_payload = true;
  payload = payload;
  capacity = 1024;
  fds = replicate 8 none;
}

abbrev buffer_of_64 : Buffer
buffer_of_64 = put_u32 (put_u32 (put_u32 zeroes 8 64) 12 64) 20 1

abbrev reply : Message
reply = request_to 7 1 0 zeroes

abbrev idle : Session
idle = record free_session { id = 1; handle = 1; transport = 5; direction = 2; in_use = true }

abbrev waiting_session : Session
waiting_session = record idle { pending = await_handle }

abbrev engine : Engine
engine = record {
  sessions = waiting_session ∷ record idle { id = 2 } ∷ replicate 2 free_session;
  next_session_id = 3;
  next_output_id = 1;
}

allocate_session_id-Fresh_example :
    Fresh engine.sessions (allocate_session_id 6 4294967295 engine.sessions)
allocate_session_id-Fresh_example =
    allocate_session_id-Fresh 4294967295 engine.sessions (omega arith) (omega arith)

engine_handle-Answered_example :
    Answered host engine (engine_handle host 10 engine (request_to 7 1 0 zeroes) reply)
engine_handle-Answered_example =
    engine_handle-Answered host 10 engine (request_to 7 1 0 zeroes) reply (omega arith)
      (omega arith)

engine_handle-Untouched_example :
    Untouched host 1 engine (engine_handle host 10 engine (request_to 8 2 0 zeroes) reply)
engine_handle-Untouched_example =
    engine_handle-Untouched host 10 engine (request_to 8 2 0 zeroes) reply 1 (omega arith)
      (omega arith) (λ e. omega arith)

is_second : find_session 2 engine.sessions ≡ some (record idle { id = 2 })
unfolding find_first
is_second = refl

engine_handle-Cycle_example :
    Cycle host 10 engine
      (request_to 11 2 48 buffer_of_64)
      (record idle { id = 2 })
      (engine_handle host 10 engine (request_to 11 2 48 buffer_of_64) reply)
engine_handle-Cycle_example =
    engine_handle-Cycle host 10 engine (request_to 11 2 48 buffer_of_64) reply
      (record idle { id = 2 }) is_second (λ e. omega arith)

receive_ahb_lem_example :
    let r = receive_ahb host 10 6 waiting_session in
    (r.0 ≡ true → (waiting_session.pending ≡ await_handle) × (r.1.pending ≡ pending_complete))
    × (waiting_session.pending ≢ await_handle → r ≡ (false, waiting_session, 10))
    × (r.1.pending ≢ waiting_session.pending → r.1.pending_input.acquire_fence ≡ none)
    × (r.0 ≡ true → ltb status_internal r.1.pending_status ≡ false)
    × (r.0 ≡ true → r.1.pending_status ≢ status_ok → r.1.pending_release_fence ≡ none)
receive_ahb_lem_example = receive_ahb_lem host 10 6 waiting_session

-- The registration of the sample frame, its submission and the request for its completion.
abbrev registration : Message
registration = elim (registration_encode counting_kernel 10 frame) [
  | err e ↦ request_to 13 1 256 zeroes
  | ok encoded ↦ record (request_to 13 1 256 encoded.payload) { fds = encoded.fds }
]

abbrev submission_request : Message
submission_request = request_to 15 1 32 (put_u32 zeroes 0 5)

abbrev completion_request : Message
completion_request = request_to 16 1 8 (put_u32 zeroes 0 5)

-- Sessions with an empty registry, and with the frame registered and submitted.
abbrev exporter : Session
exporter = record idle { transport = 2; dmabufs = some registry_create }

abbrev ready : Session
ready = record exporter { dmabufs = some registered }

abbrev submitted_session : Session
submitted_session = (handle_queue_dmabuf host 10 ready submission_request reply).session

exporter-Paired : SessionPaired exporter
unfolding Paired waiting status registry_create find_entry
exporter-Paired = (registry_create-IsValid, λ id. refl)

ready-Paired : SessionPaired ready
ready-Paired =
    Paired-same registry_create registered ready.completions exporter-Paired
      (registry_register-IsValid counting_kernel allow 10 registry_create frame
        registry_create-IsValid)
      (register-flies counting_kernel allow 10 registry_create frame)

submitted-Paired : SessionPaired submitted_session
submitted-Paired = handle_queue_dmabuf-Paired host 10 ready submission_request reply ready-Paired

handle_register_dmabuf-Paired_example :
    SessionPaired (handle_register_dmabuf host 10 exporter registration reply).session
handle_register_dmabuf-Paired_example =
    handle_register_dmabuf-Paired host 10 exporter registration reply exporter-Paired

handle_unregister_dmabuf-Paired_example :
    SessionPaired (handle_unregister_dmabuf host 10 ready completion_request reply).session
handle_unregister_dmabuf-Paired_example =
    handle_unregister_dmabuf-Paired host 10 ready completion_request reply ready-Paired

handle_queue_dmabuf-Paired_example :
    SessionPaired (handle_queue_dmabuf host 10 ready submission_request reply).session
handle_queue_dmabuf-Paired_example =
    handle_queue_dmabuf-Paired host 10 ready submission_request reply ready-Paired

handle_complete_dmabuf-Paired_example :
    SessionPaired
      (handle_complete_dmabuf host 10 submitted_session completion_request reply).session
    × ((handle_complete_dmabuf host 10 submitted_session completion_request reply).status
        ≢ status_internal)
handle_complete_dmabuf-Paired_example =
    handle_complete_dmabuf-Paired host 10 submitted_session completion_request reply
      submitted-Paired

-- A request to an engine that was just created.
Reaches-Answered_example :
    (c : Created host) × (engine_handle host 10 engine_create (request_to 3 0 48 buffer_of_64) reply
      ≡ some c)
    × IsSound c.engine
Reaches-Answered_example =
    Reaches-Answered host 10 engine_create (request_to 3 0 48 buffer_of_64) reply (begins 10)
