-- ===== src/Session/Output.antt =====
-- The outputs of a session: `handle_dequeue`, `handle_release`, `handle_transfer_ahb`,
-- `handle_transfer_prime` and `release_outstanding`.
use lin_de_x.Base.{
  ℕ, zero, suc, ◌+◌, ◌-◌, ◌*◌, ◌%◌, ◌^◌, ◌==◌, ◌!=◌, ltb, ◌&&◌, ◌||◌, not, Bool, true, false,
  Option, none, some, is_some, List, [], ◌∷◌, if◌then◌else◌, get_or, set, find_first, update_first,
  ok, err, bit_and, replicate,
}
use lin_de_x.Kernel.{returns, fails, close_fd, dup_fd}
use lin_de_x.Protocol.Wire.{Buffer, clear, get_u32, get_u64, put_u32, put_u64}
use lin_de_x.Dmabuf.Descriptor.{Descriptor}
use lin_de_x.Dmabuf.Records.{bytes_are_zero, registration_encode}
use lin_de_x.Dmabuf.Requests.{role_none, role_acquire_fence, role_release_fence}
use lin_de_x.Dmabuf.Registry.{descriptor_close}
use lin_de_x.Session.World.{Host, BackendOutput, Metadata}
use lin_de_x.Session.State.{
  Message, Session, OutputSlot, free_output, is_output, is_free_output, pending_none, no_input,
  allocate_output_id, max_outputs, write_status, status_ok, status_bad_message, status_unsupported,
  status_no_resource, status_internal, direction_decode, transport_bytes, transport_ahb,
}
use lin_de_x.Session.Handled.{Handled, refuse, accept}
use lin_de_x.Session.Input.{other_flags}
use lin_de_x.Session.Ahb.{flag_ahb_follows}

abbrev pub max_output_bytes : ℕ
max_output_bytes = 16 * 1024 * 1024

-- A handler that also takes an output id.
pub record Dequeued (W : Type 0) : Type 0 where
  pub handled : Handled W
  pub next_output_id : ℕ

-- right - left + 1 in 32 bits, and 0 if the edges are crossed.
unfoldable pub crop_extent : ℕ → ℕ → ℕ
crop_extent left right = if ltb right left then 0 else (right - left + 1) % 2 ^ 32

unfoldable pub output_metadata : BackendOutput → Metadata
output_metadata o = record {
  width = o.width;
  height = o.height;
  android_format = o.android_format;
  stride = o.stride;
  layers = o.layers;
  usage = o.usage;
  crop_left = o.crop_left;
  crop_top = o.crop_top;
  crop_width = crop_extent o.crop_left o.crop_right;
  crop_height = crop_extent o.crop_top o.crop_bottom;
}

unfoldable pub output_slot : ℕ → BackendOutput → OutputSlot
output_slot id o =
    if o.transport == transport_ahb
    then record {
      id = id;
      token = o.token;
      native_buffer = o.native_buffer;
      metadata = output_metadata o;
      transport = o.transport;
      transferred = false;
      prime_transferred = false;
      in_use = true;
    }
    else record free_output { id = id; in_use = true }

unfoldable pub output_payload : Buffer → ℕ → BackendOutput → Buffer
output_payload p id o =
    let b0 = put_u64 (clear p 136) 0 id in
    let b8 = put_u64 b0 8 o.pts_ns in
    let b16 = put_u64 b8 16 o.size in
    let b24 = put_u32 b16 24 o.flags in
    let b28 = put_u32 b24 28 o.transport in
    let b32 = put_u32 b28 32 o.width in
    let b36 = put_u32 b32 36 o.height in
    let b40 = put_u32 b36 40 o.android_format in
    let b60 = put_u32 b40 60 o.stride in
    let b56 = put_u32 b60 56 o.layers in
    let b64 = put_u64 b56 64 o.usage in
    let b108 =
      put_u32 b64 108 (if is_some o.acquire_fence then role_acquire_fence else role_none) in
    let b112 = put_u32 b108 112 o.slice_height in
    let b116 = put_u32 b112 116 o.crop_left in
    let b120 = put_u32 b116 120 o.crop_top in
    let b124 = put_u32 b120 124 o.crop_right in put_u32 b124 128 o.crop_bottom

-- The reply to a dequeued output; `fd` is the memory file of a byte output.
unfoldable pub output_reply : Message → ℕ → BackendOutput → Option ℕ → Message
output_reply reply id o fd =
    let fd' = if is_some fd then fd else o.acquire_fence in
    record reply {
      payload = output_payload reply.payload id o;
      header = record reply.header {
        payload_size = if o.transport == transport_bytes then 136 else 112;
        fd_count =
            if o.transport == transport_bytes then 1 else if is_some o.acquire_fence then 1 else 0;
      };
      fds = if is_some fd' then set reply.fds 0 fd' else reply.fds;
    }

module _ {W : Type 0} (h : Host W) (next_id : ℕ) where
  abbrev give_back : W → Session → BackendOutput → W
  give_back w s o = h.backend.release_output w s.handle o.token none

  abbrev pub keep_id : Handled W → Dequeued W
  keep_id handled = record { handled = handled; next_output_id = next_id }

  -- The output is entered into the first free slot under a new id.
  unfoldable pub entered : W → Session → Message → BackendOutput → Option ℕ → Dequeued W
  entered w s reply o fd =
      let (id, next) = allocate_output_id next_id in
      record {
        handled = record {
          status = status_ok;
          session = record s {
            outputs = update_first is_free_output (λ _. output_slot id o) s.outputs;
          };
          reply = output_reply reply id o fd;
          world = w;
        };
        next_output_id = next;
      }

  -- Bytes are copied into a sealed memory file, and the backend's output is returned at once.
  unfoldable pub dequeue_bytes : W → Session → Message → BackendOutput → Dequeued W
  dequeue_bytes w s reply o =
      if is_some o.native_buffer || is_some o.acquire_fence
      then keep_id
          (refuse status_internal s reply (close_fd h.kernel (give_back w s o) o.acquire_fence))
      else let (fd, w') = h.files.sealed_output w o.bytes o.size in
        let w'' = give_back w' s o in
        if is_some fd
        then entered w'' s reply o fd
        else keep_id (refuse status_internal s reply w'')

  unfoldable pub dequeue_ahb : W → Session → Message → BackendOutput → Dequeued W
  dequeue_ahb w s reply o =
      if not (is_some o.native_buffer)
        || is_some o.bytes
        || o.size != 0
        || not (is_some h.backend.send_native_buffer)
      then keep_id
          (refuse status_unsupported s reply (close_fd h.kernel (give_back w s o) o.acquire_fence))
      else entered w s reply o none

  unfoldable pub dequeued_output : Session → Message → ℕ × BackendOutput × W → Dequeued W
  dequeued_output s reply (status, o, w) =
      let o' = record o { transport = if o.transport == 0 then transport_bytes else o.transport } in
      if status != status_ok
      then keep_id (refuse status s reply w)
      else if ltb max_output_bytes o.size
          || ltb 0 o.size && not (is_some o.bytes)
          || bit_and o.flags other_flags != 0
      then keep_id (refuse status_no_resource s reply (give_back w s o))
      else if o'.transport == transport_bytes
      then dequeue_bytes w s reply o'
      else if o'.transport == transport_ahb
      then dequeue_ahb w s reply o'
      else keep_id
          (refuse status_unsupported s reply (close_fd h.kernel (give_back w s o) o.acquire_fence))

  unfoldable pub handle_dequeue : W → Session → Message → Message → Dequeued W
  handle_dequeue w s request reply =
      if request.header.payload_size != 0 || request.header.fd_count != 0
      then keep_id (refuse status_bad_message s reply w)
      else if not (is_some (find_first is_free_output s.outputs))
      then keep_id (refuse status_no_resource s reply w)
      else dequeued_output s reply (h.backend.dequeue_output w s.handle)

module _ {W : Type 0} (h : Host W) where
  unfoldable pub freed : W → Session → Message → ℕ → Handled W
  freed w s reply id =
      accept (record s { outputs = update_first (is_output id) (λ _. free_output) s.outputs }) reply
        w

  -- The fence role and the number of descriptors must agree.
  unfoldable pub fence_mismatch : ℕ → ℕ → Bool
  fence_mismatch role fd_count =
      role == role_none && fd_count != 0
      || role == role_release_fence && fd_count != 1
      || role != role_none && role != role_release_fence

  unfoldable pub release_slot : W → Session → Message → Message → ℕ → OutputSlot → Handled W
  release_slot w s request reply id o =
      let role = get_u32 request.payload 8 in
      let fd_count = request.header.fd_count in
      if o.transport == transport_ahb
      then if fence_mismatch role fd_count
        then refuse status_bad_message s reply w
        else if fd_count == 1
        then elim (dup_fd h.kernel w (get_or request.fds 0 none)) [
          | fails e w' ↦ refuse status_internal s reply w'
          | returns fd w' ↦
              freed (h.backend.release_output w' s.handle o.token (some fd)) s reply id
        ]
        else freed (h.backend.release_output w s.handle o.token none) s reply id
      else if role != role_none || fd_count != 0
      then refuse status_bad_message s reply w
      else freed w s reply id

  unfoldable pub handle_release : W → Session → Message → Message → Handled W
  handle_release w s request reply =
      let id = get_u64 request.payload 0 in
      if request.header.payload_size != 16
        || ltb 1 request.header.fd_count
        || not (bytes_are_zero request.payload 12 4)
      then refuse status_bad_message s reply w
      else elim (find_first (is_output id) s.outputs) [
        | none ↦ refuse status_bad_message s reply w
        | some o ↦ release_slot w s request reply id o
      ]

  unfoldable pub handle_transfer_ahb : W → Session → Message → Message → Handled W
  handle_transfer_ahb w s request reply =
      if request.header.payload_size != 8 || request.header.fd_count != 0
      then refuse status_bad_message s reply w
      else elim (find_first (is_output (get_u64 request.payload 0)) s.outputs) [
        | none ↦ refuse status_bad_message s reply w
        | some o ↦
            if o.transport != transport_ahb || not (is_some o.native_buffer) || o.transferred
            then refuse status_bad_message s reply w
            else let reply' = write_status reply status_ok 0 in
              record {
                status = status_ok;
                session = s;
                reply = record reply' {
                  header = record reply'.header { flags = flag_ahb_follows };
                };
                world = w;
              }
      ]

  -- `fds` of the first `count` entries, from index `i`.
  unfoldable pub copy_fds : List (Option ℕ) → List (Option ℕ) → ℕ → ℕ → List (Option ℕ)
  copy_fds into from i zero = into
  copy_fds into from i (suc count) = copy_fds (set into i (get_or from i none)) from (i + 1) count

  -- The exporter's answer. What fails closes every descriptor that it declared.
  unfoldable pub exported : Session → Message → ℕ → ℕ × Descriptor × W → Handled W
  exported s reply id (status, d, w) =
      let closed = descriptor_close h.kernel w d in
      let status' = if ltb status_internal status then status_internal else status in
      if status' != status_ok
      then refuse status' s reply closed
      else if d.buffer_id != id
      then refuse status_internal s reply closed
      else elim (registration_encode h.kernel w d) [
        | err e ↦ refuse status_internal s reply closed
        | ok encoded ↦ record {
          status = status_ok;
          session = record s {
            outputs =
                update_first (is_output id) (λ o. record o { prime_transferred = true }) s.outputs;
          };
          reply = record reply {
            payload = λ i.
                if ltb i 8
                then put_u32 (put_u32 reply.payload 0 status_ok) 4 0 i
                else if ltb i 264
                then encoded.payload (i - 8)
                else reply.payload i;
            header = record reply.header { payload_size = 264; fd_count = encoded.fd_count };
            fds = copy_fds reply.fds encoded.fds 0 encoded.fd_count;
          };
          world = w;
        }
      ]

  unfoldable pub handle_transfer_prime : W → Session → Message → Message → Handled W
  handle_transfer_prime w s request reply =
      let id = get_u64 request.payload 0 in
      if request.header.payload_size != 8 || request.header.fd_count != 0
      then refuse status_bad_message s reply w
      else if s.direction != direction_decode || s.transport != transport_ahb
      then refuse status_unsupported s reply w
      else elim h.backend.export_decode_prime [
        | none ↦ refuse status_unsupported s reply w
        | some export ↦
            if ltb reply.capacity 264
            then refuse status_internal s reply w
            else if id == 0
            then refuse status_bad_message s reply w
            else elim (find_first (is_output id) s.outputs) [
              | none ↦ refuse status_bad_message s reply w
              | some o ↦
                  if o.transport != transport_ahb || o.prime_transferred
                  then refuse status_bad_message s reply w
                  else elim o.native_buffer [
                    | none ↦ refuse status_bad_message s reply w
                    | some buffer ↦ exported s reply id (export w s.handle buffer o.metadata id)
                  ]
            ]
      ]

  unfoldable pub release_slots : W → ℕ → List OutputSlot → W
  release_slots w handle [] = w
  release_slots w handle (o ∷ os) =
      release_slots
        (if o.in_use && o.transport == transport_ahb
          then h.backend.release_output w handle o.token none
          else w)
        handle os

  unfoldable pub release_outstanding : W → Session → Session × W
  release_outstanding w s = (
    record s {
      outputs = replicate max_outputs free_output;
      pending = pending_none;
      pending_input = no_input;
      pending_release_fence = none;
    },
    close_fd h.kernel
        (close_fd h.kernel (release_slots w s.handle s.outputs) s.pending_input.acquire_fence)
        s.pending_release_fence,
  )
