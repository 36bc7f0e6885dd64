-- ===== src/Session/Ahb.antt =====
-- The handshake of an Android hardware buffer: `handle_queue_ahb`, `handle_complete_ahb`, and the
-- part of `advc_session_engine_after_reply` that receives the buffer.
use lin_de_x.Base.{
  ℕ, ◌-◌, ◌^◌, ◌==◌, ◌!=◌, ltb, ◌&&◌, ◌||◌, not, Bool, true, false, Option, none, some, is_some,
  if◌then◌else◌, get_or, set,
}
use lin_de_x.Kernel.{returns, fails, close_fd, dup_fd}
use lin_de_x.Protocol.Wire.{Buffer, clear, get_u32, get_u64, put_u32}
use lin_de_x.Dmabuf.Records.{bytes_are_zero}
use lin_de_x.Dmabuf.Requests.{role_none, role_acquire_fence, role_release_fence, int64_max}
use lin_de_x.Session.World.{Host, AhbInput}
use lin_de_x.Session.State.{
  Message, Session, Pending, pending_none, await_handle, pending_complete, no_input, write_status,
  status_ok, status_bad_message, status_unsupported, status_would_block, status_internal,
  transport_android_ahb,
}
use lin_de_x.Session.Handled.{Handled, refuse}

abbrev pub flag_ahb_follows : ℕ
flag_ahb_follows = 16

abbrev pub is_idle : Pending → Bool
is_idle pending_none = true
is_idle _ = false

-- enum advc_fd_role of a release fence
abbrev pub release_role : Option ℕ → ℕ
release_role fence = if is_some fence then role_release_fence else role_none

unfoldable pub read_ahb_input : Buffer → Option ℕ → AhbInput
read_ahb_input p fence = record {
  pts_ns = get_u64 p 0;
  width = get_u32 p 8;
  height = get_u32 p 12;
  format = get_u32 p 16;
  layers = get_u32 p 20;
  usage = get_u64 p 24;
  acquire_fence = fence;
}

unfoldable pub ahb_request_ok : Message → Bool
ahb_request_ok request =
    let p = request.payload in
    let input = read_ahb_input p none in
    let role = get_u32 p 36 in
    let fd_count = request.header.fd_count in
    not (
      request.header.payload_size != 48
      || ltb 1 fd_count
      || not (bytes_are_zero p 40 8)
      || input.width == 0
      || input.height == 0
      || input.layers != 1
      || ltb int64_max input.pts_ns
      || get_u32 p 32 != 0
      || (if role == role_none then fd_count != 0 else fd_count == 0)
      || fd_count == 1 && role != role_acquire_fence)

module _ {W : Type 0} (h : Host W) where
  unfoldable pub await_ahb : Session → Message → Message → Option ℕ → W → Handled W
  await_ahb s request reply fence w = record {
    status = status_ok;
    session = record s {
      pending = await_handle;
      pending_input = read_ahb_input request.payload fence;
      pending_status = status_internal;
      pending_detail = 0;
      pending_release_fence = none;
    };
    reply =
        let reply' = write_status reply status_ok 0 in
        record reply' { header = record reply'.header { flags = flag_ahb_follows } };
    world = w;
  }

  unfoldable pub handle_queue_ahb : W → Session → Message → Message → Handled W
  handle_queue_ahb w s request reply =
      if ltb request.header.minor 4 || s.transport != transport_android_ahb
      then refuse status_unsupported s reply w
      else if not (is_idle s.pending)
      then refuse status_would_block s reply w
      else if not (ahb_request_ok request)
      then refuse status_bad_message s reply w
      else if request.header.fd_count == 1
      then elim (dup_fd h.kernel w (get_or request.fds 0 none)) [
        | returns fd w' ↦ await_ahb s request reply (some fd) w'
        | fails e w' ↦ refuse status_internal s reply w'
      ]
      else await_ahb s request reply none w

  -- The completion is delivered: the fence is handed over and the session is idle again.
  unfoldable pub completed_ahb : Session → Message → W → Handled W
  completed_ahb s reply w =
      let fence = s.pending_release_fence in
      record {
        status = status_ok;
        session = record s {
          pending = pending_none;
          pending_input = no_input;
          pending_release_fence = none;
        };
        reply = record reply {
          payload =
              put_u32
                (put_u32 (put_u32 (clear reply.payload 16) 0 s.pending_status) 4 s.pending_detail) 8
                (release_role fence);
          header = record reply.header {
            payload_size = 16;
            fd_count = if is_some fence then 1 else reply.header.fd_count;
          };
          fds = if is_some fence then set reply.fds 0 fence else reply.fds;
        };
        world = w;
      }

  unfoldable pub complete_in : Pending → W → Session → Message → Handled W
  complete_in pending_complete w s reply = completed_ahb s reply w
  complete_in _ w s reply = refuse status_would_block s reply w

  unfoldable pub handle_complete_ahb : W → Session → Message → Message → Handled W
  handle_complete_ahb w s request reply =
      if ltb request.header.minor 4 || s.transport != transport_android_ahb
      then refuse status_unsupported s reply w
      else if request.header.payload_size != 0 || request.header.fd_count != 0
      then refuse status_bad_message s reply w
      else complete_in s.pending w s reply

  -- ADVC_BACKEND_AHB_FATAL_TRANSPORT
  abbrev pub fatal_transport : ℕ
  fatal_transport = 2 ^ 32 - 1

  -- The backend's answer to the buffer: whether the connection goes on, and the session.
  unfoldable pub received : Session → ℕ × Option ℕ × W → Bool × Session × W
  received s (status, fence, w) =
      if status == fatal_transport
      then (
        false,
        record s { pending = pending_none; pending_input = no_input },
        close_fd h.kernel w fence,
      )
      else let bad = ltb status_internal status || status != status_ok && is_some fence in
        (
          true,
          record s {
            pending = pending_complete;
            pending_input = record s.pending_input { acquire_fence = none };
            pending_status = if bad then status_internal else status;
            pending_detail = 0;
            pending_release_fence = if bad then none else fence;
          },
          if bad then close_fd h.kernel w fence else w,
        )

  unfoldable pub receive_in : Pending → W → ℕ → Session → Bool × Session × W
  receive_in await_handle w socket s = elim h.backend.receive_ahb_input [
    | none ↦ (false, s, w)
    | some receive ↦ received s (receive w s.handle socket s.pending_input)
  ]
  receive_in _ w socket s = (false, s, w)

  -- The record behind the reply to QUEUE_AHB.
  unfoldable pub receive_ahb : W → ℕ → Session → Bool × Session × W
  receive_ahb w socket s = receive_in s.pending w socket s
