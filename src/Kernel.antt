-- ===== src/Kernel.antt =====
-- The system calls on descriptors that the codec broker makes, as a parameter. A C descriptor is
-- `some fd`, and `none` is the -1 that stands for no descriptor. A world is whatever state the
-- kernel and the codec backend keep; calls pass it on.
pub mod Table
use lin_de_x.Base.{
  true, false, ◌==◌, if◌then◌else◌, Errno, ebadf, ℕ, Bool, false, Option, none, some, ◌≡◌,
}

-- A call that returns a value or fails with errno, and the world after it.
pub data Outcome (W A : Type 0) : Type 0 where
  returns : A → W → Outcome W A
  fails : Errno → W → Outcome W A

abbrev pub after : {W A : Type 0} → Outcome W A → W
after (returns a w) = w
after (fails e w) = w

pub record Kernel (W : Type 0) : Type 0 where
  -- fcntl(fd, F_GETFD) succeeds and has FD_CLOEXEC.
  pub has_cloexec : W → ℕ → Bool
  -- ioctl(fd, SYNC_IOC_FILE_INFO, &info) succeeds.
  pub is_sync_file : W → ℕ → Bool
  -- fcntl(fd, F_DUPFD_CLOEXEC, 0): the new descriptor, or errno.
  pub dup : W → ℕ → Outcome W ℕ
  pub close : W → ℕ → W

module _ {W : Type 0} (k : Kernel W) where
  unfoldable pub valid_cloexec_fd : W → Option ℕ → Bool
  valid_cloexec_fd w none = false
  valid_cloexec_fd w (some fd) = k.has_cloexec w fd

  abbrev pub dup_fd : W → Option ℕ → Outcome W ℕ
  dup_fd w none = fails ebadf w
  dup_fd w (some fd) = k.dup w fd

  -- `if (fd >= 0) close(fd);`
  abbrev pub close_fd : W → Option ℕ → W
  close_fd w none = w
  close_fd w (some fd) = k.close w fd

  -- What the descriptor table does, by the manual pages of fcntl and close. `live` is the table.
  pub record Laws (live : W → ℕ → Bool) : Type 0 where
    pub dup_fresh : (w v : W) (fd new : ℕ) → k.dup w fd ≡ returns new v → live w new ≡ false
    pub dup_live :
        (w v : W) (fd new other : ℕ)
        → k.dup w fd ≡ returns new v
        → live v other ≡ (if other == new then true else live w other)
    pub dup_fails : (w v : W) (fd : ℕ) (e : Errno) → k.dup w fd ≡ fails e v → v ≡ w
    pub close_live :
        (w : W) (fd other : ℕ)
        → live (k.close w fd) other ≡ (if other == fd then false else live w other)
