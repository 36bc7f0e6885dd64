-- ===== src/Dmabuf/Requests.antt =====
-- The smaller messages of src/video_bridge/src/dmabuf_ingress.c: submissions, unregistrations and
-- completions, and `advc_dmabuf_sync_file_validate`.
use lin_de_x.Base.{
  ℕ, ◌-◌, ◌^◌, ◌==◌, ◌!=◌, ltb, leb, ◌&&◌, ◌||◌, not, Bool, true, false, Option, none, some, List,
  if◌then◌else◌, get_or, Result, ok, err, einval, ebadf, ◌>>◌, guard,
}
use lin_de_x.Kernel.{Kernel, valid_cloexec_fd}
use lin_de_x.Protocol.Wire.{Buffer, get_u32, get_u64}
use lin_de_x.Dmabuf.Records.{bytes_are_zero}

-- enum advc_fd_role
abbrev pub role_none : ℕ
role_none = 0

abbrev pub role_acquire_fence : ℕ
role_acquire_fence = 32

abbrev pub role_release_fence : ℕ
role_release_fence = 33

abbrev pub int64_max : ℕ
int64_max = 2 ^ 63 - 1

pub record Submission : Type 0 where
  pub buffer_id : ℕ
  pub pts_ns : ℕ
  pub acquire_fence : Option ℕ

module _ {W : Type 0} (k : Kernel W) (w : W) where
  -- EBADF, or the error of the ioctl, which the callers replace by their own.
  unfoldable pub sync_file_validate : Option ℕ → Result (Unit {0})
  sync_file_validate none = err ebadf
  sync_file_validate (some fd) =
      if valid_cloexec_fd k w (some fd)
      then if k.is_sync_file w fd then ok tt else err einval
      else err ebadf

  abbrev pub is_sync_file : Option ℕ → Bool
  is_sync_file fd = elim (sync_file_validate fd) [ ok _ ↦ true | err _ ↦ false ]

  unfoldable pub submission_decode : Buffer → ℕ → List (Option ℕ) → ℕ → Result Submission
  submission_decode p size fds fd_count = do
    guard (size == 32 && leb fd_count 1) einval
    let role = get_u32 p 20
    guard
        (not (
          get_u64 p 0 == 0
          || ltb int64_max (get_u64 p 8)
          || get_u32 p 16 != 0
          || not (bytes_are_zero p 24 8)
          || (fd_count == 0 && role != role_none)
          || (fd_count == 1 && role != role_acquire_fence)
          || (fd_count == 1 && not (is_sync_file (get_or fds 0 none)))))
        einval
    ok (record {
      buffer_id = get_u64 p 0;
      pts_ns = get_u64 p 8;
      acquire_fence = if fd_count == 1 then get_or fds 0 none else none;
    })

  unfoldable pub completion_validate : Buffer → ℕ → List (Option ℕ) → ℕ → Result (Unit {0})
  completion_validate p size fds fd_count = do
    guard (size == 24 && leb fd_count 1) einval
    let role = get_u32 p 16
    let status = get_u32 p 8
    guard
        (not (
          get_u64 p 0 == 0
          || ltb 7 status
          || not (bytes_are_zero p 20 4)
          || (fd_count == 0 && role != role_none)
          || (fd_count == 1
              && (role != role_release_fence
                  || status != 0
                  || not (is_sync_file (get_or fds 0 none))))))
        einval
    ok tt

unfoldable pub unregister_decode : Buffer → ℕ → ℕ → Result ℕ
unregister_decode p size fd_count = do
  guard (size == 8 && fd_count == 0) einval
  guard (get_u64 p 0 != 0) einval
  ok (get_u64 p 0)
