-- ===== src/Session/Ingress.antt =====
-- The dma-buf requests of a session: `handle_register_dmabuf`, `handle_unregister_dmabuf`,
-- `handle_queue_dmabuf`, `handle_complete_dmabuf` and `release_dmabuf_state`.
use lin_de_x.Base.{
  ℕ, ◌==◌, ◌!=◌, ltb, ◌&&◌, ◌||◌, not, true, Option, none, some, is_some, List, [], ◌∷◌,
  if◌then◌else◌, set, find_first, update_first, ok, err, Errno, einval, ebadf, eexist, enoent,
  ebusy, ealready, enospc, enomem, eagain, enotsup, replicate,
}
use lin_de_x.Kernel.{close_fd}
use lin_de_x.Protocol.Wire.{clear, get_u64, put_u32, put_u64}
use lin_de_x.Dmabuf.Descriptor.{Descriptor}
use lin_de_x.Dmabuf.Records.{registration_decode}
use lin_de_x.Dmabuf.Requests.{submission_decode, unregister_decode, is_sync_file}
use lin_de_x.Dmabuf.Registry.{
  Registry, Reply, Job, Verdict, refused, registry_register, registry_unregister, registry_begin,
  registry_finish, registry_destroy,
}
use lin_de_x.Session.World.{Host}
use lin_de_x.Session.State.{
  Message, Session, Completion, free_completion, is_completion, is_free_completion, status_ok,
  status_bad_message, status_unsupported, status_no_resource, status_would_block, status_internal,
  transport_dmabuf,
}
use lin_de_x.Session.Handled.{Handled, refuse, accept}
use lin_de_x.Session.Ahb.{release_role}

unfoldable pub errno_status : Errno → ℕ
errno_status einval = status_bad_message
errno_status ebadf = status_bad_message
errno_status eexist = status_bad_message
errno_status enoent = status_bad_message
errno_status ebusy = status_bad_message
errno_status ealready = status_bad_message
errno_status enospc = status_no_resource
errno_status enomem = status_no_resource
errno_status eagain = status_would_block
errno_status enotsup = status_unsupported
errno_status _ = status_internal

-- The registry of a session that speaks the dma-buf protocol.
unfoldable pub dmabuf_session : Session → Message → Option Registry
dmabuf_session s request =
    if ltb request.header.minor 5 || s.transport != transport_dmabuf then none else s.dmabufs

module _ {W : Type 0} (h : Host W) where
  -- `session_dmabuf_format_allowed`
  unfoldable pub format_allowed : ℕ → W → Descriptor → Verdict
  format_allowed handle w d = elim h.backend.dmabuf_format_allowed [
    | none ↦ refused
    | some allows ↦ allows w handle d
  ]

  -- The answer of the registry becomes the answer of the session.
  unfoldable pub registry_answer : Session → Message → Reply W (Unit {0}) → Handled W
  registry_answer s reply r =
      let s' = record s { dmabufs = some r.registry } in
      elim r.result [
        | ok _ ↦ accept s' reply r.world
        | err e ↦ refuse (errno_status e) s' reply r.world
      ]

  unfoldable pub handle_register_dmabuf : W → Session → Message → Message → Handled W
  handle_register_dmabuf w s request reply = elim (dmabuf_session s request) [
    | none ↦ refuse status_unsupported s reply w
    | some r ↦
        elim (registration_decode h.kernel w request.payload request.header.payload_size request.fds
          request.header.fd_count) [
            | err e ↦ refuse (errno_status e) s reply w
            | ok d ↦
                registry_answer s reply (registry_register h.kernel (format_allowed s.handle) w r d)
          ]
  ]

  unfoldable pub handle_unregister_dmabuf : W → Session → Message → Message → Handled W
  handle_unregister_dmabuf w s request reply = elim (dmabuf_session s request) [
    | none ↦ refuse status_unsupported s reply w
    | some r ↦
        elim (unregister_decode request.payload request.header.payload_size
          request.header.fd_count) [
            | err e ↦ refuse (errno_status e) s reply w
            | ok id ↦ registry_answer s reply (registry_unregister h.kernel w r id)
          ]
  ]

  unfoldable pub new_completion : ℕ → Option ℕ → Completion
  new_completion id fence = record {
    buffer_id = id;
    status = status_ok;
    detail = 0;
    release_fence = fence;
    in_use = true;
  }

  -- The backend's answer to a submission. A failed one takes the buffer out of flight again.
  unfoldable pub submitted : Session → Message → Registry → Job → ℕ × Option ℕ × W → Handled W
  submitted s reply r job (status, fence, w) =
      let bad =
        ltb status_internal status
        || status != status_ok && is_some fence
        || is_some fence && not (is_sync_file h.kernel w fence) in
      let w' = if bad then close_fd h.kernel w fence else w in
      let status' = if bad then status_internal else status in
      if status' != status_ok
      then refuse status' (record s { dmabufs = some (registry_finish r job.buffer_id).1 }) reply w'
      else accept
          (record s {
            dmabufs = some r;
            completions =
                update_first is_free_completion
                  (λ _. new_completion job.buffer_id (if bad then none else fence)) s.completions;
          })
          reply w'

  -- The registry has put the buffer in flight, or not.
  unfoldable pub begun :
      (W → ℕ → Descriptor → ℕ → Option ℕ → ℕ × Option ℕ × W)
      → Session
      → Message
      → Reply W Job
      → Handled W
  begun submit s reply r = elim r.result [
    | err e ↦ refuse (errno_status e) (record s { dmabufs = some r.registry }) reply r.world
    | ok job ↦
        submitted s reply r.registry job
          (submit r.world s.handle job.descriptor job.pts_ns job.acquire_fence)
  ]

  unfoldable pub queue_dmabuf_to :
      (W → ℕ → Descriptor → ℕ → Option ℕ → ℕ × Option ℕ × W)
      → W
      → Registry
      → Session
      → Message
      → Message
      → Handled W
  queue_dmabuf_to submit w r s request reply =
      if not (is_some (find_first is_free_completion s.completions))
      then refuse status_would_block s reply w
      else elim (submission_decode h.kernel w request.payload request.header.payload_size
          request.fds request.header.fd_count) [
            | err e ↦ refuse (errno_status e) s reply w
            | ok submission ↦ begun submit s reply (registry_begin h.kernel w r submission)
          ]

  unfoldable pub handle_queue_dmabuf : W → Session → Message → Message → Handled W
  handle_queue_dmabuf w s request reply = elim (dmabuf_session s request) [
    | none ↦ refuse status_unsupported s reply w
    | some r ↦ elim h.backend.submit_dmabuf [
      | none ↦ refuse status_unsupported s reply w
      | some submit ↦ queue_dmabuf_to submit w r s request reply
    ]
  ]

  unfoldable pub completion_reply : Message → ℕ → Completion → Message
  completion_reply reply id c = record reply {
    payload =
        put_u32 (put_u32 (put_u32 (put_u64 (clear reply.payload 24) 0 id) 8 c.status) 12 c.detail)
          16 (release_role c.release_fence);
    header = record reply.header {
      payload_size = 24;
      fd_count = if is_some c.release_fence then 1 else reply.header.fd_count;
    };
    fds = if is_some c.release_fence then set reply.fds 0 c.release_fence else reply.fds;
  }

  unfoldable pub completed_dmabuf :
      W → Registry → Session → Message → ℕ → Option Completion → Handled W
  completed_dmabuf w r s reply id none = refuse status_would_block s reply w
  completed_dmabuf w r s reply id (some c) =
      let (result, r') = registry_finish r id in
      elim result [
        | err e ↦ refuse status_internal (record s { dmabufs = some r' }) reply w
        | ok _ ↦ record {
          status = status_ok;
          session = record s {
            dmabufs = some r';
            completions = update_first (is_completion id) (λ _. free_completion) s.completions;
          };
          reply = completion_reply reply id c;
          world = w;
        }
      ]

  unfoldable pub handle_complete_dmabuf : W → Session → Message → Message → Handled W
  handle_complete_dmabuf w s request reply = elim (dmabuf_session s request) [
    | none ↦ refuse status_unsupported s reply w
    | some r ↦
        let id = get_u64 request.payload 0 in
        if request.header.payload_size != 8 || request.header.fd_count != 0 || id == 0
        then refuse status_bad_message s reply w
        else completed_dmabuf w r s reply id (find_first (is_completion id) s.completions)
  ]

  -- The fences of the completions are closed and their buffers taken out of flight.
  unfoldable pub release_completions : W → Option Registry → List Completion → Option Registry × W
  release_completions w r [] = (r, w)
  release_completions w none (c ∷ cs) =
      release_completions (close_fd h.kernel w c.release_fence) none cs
  release_completions w (some r) (c ∷ cs) =
      release_completions (close_fd h.kernel w c.release_fence)
        (some (if c.in_use then (registry_finish r c.buffer_id).1 else r)) cs

  unfoldable pub release_dmabuf_state : W → Session → Session × W
  release_dmabuf_state w s =
      let (r, w') = release_completions w s.dmabufs s.completions in
      (
        record s { dmabufs = none; completions = replicate 4 free_completion },
        elim r [ none ↦ w' | some registry ↦ registry_destroy h.kernel w' registry ],
      )
