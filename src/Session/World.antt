-- ===== src/Session/World.antt =====
-- What the session engine calls: struct advc_backend_ops of
-- src/video_bridge/include/advc/session_engine.h, whose functions the codec backend implements, and
-- the system calls on memory files. All of it acts on one world. A pointer of the backend is a
-- number, and `none` is NULL. A status is the number that the protocol gives it.
use lin_de_x.Base.{ℕ, Bool, Option, List, Errno}
use lin_de_x.Kernel.{Kernel}
use lin_de_x.Protocol.Wire.{Buffer}
use lin_de_x.Dmabuf.Descriptor.{Descriptor}
use lin_de_x.Dmabuf.Registry.{Verdict}

pub record Config : Type 0 where
  pub direction : ℕ
  -- the bytes before the terminating zero
  pub mime : List ℕ
  pub width : ℕ
  pub height : ℕ
  pub bitrate : ℕ
  pub framerate_milli : ℕ
  pub color_format : ℕ
  pub transport : ℕ
  pub encode_profile : ℕ
  pub flags : ℕ

pub record BackendOutput : Type 0 where
  pub bytes : Option Buffer
  pub size : ℕ
  pub pts_ns : ℕ
  pub flags : ℕ
  pub width : ℕ
  pub height : ℕ
  pub android_format : ℕ
  pub stride : ℕ
  pub layers : ℕ
  pub usage : ℕ
  pub slice_height : ℕ
  pub crop_left : ℕ
  pub crop_top : ℕ
  pub crop_right : ℕ
  pub crop_bottom : ℕ
  pub token : ℕ
  pub native_buffer : Option ℕ
  pub acquire_fence : Option ℕ
  pub transport : ℕ

pub record AhbInput : Type 0 where
  pub pts_ns : ℕ
  pub width : ℕ
  pub height : ℕ
  pub format : ℕ
  pub layers : ℕ
  pub usage : ℕ
  pub acquire_fence : Option ℕ

-- struct advc_ahb_public_metadata
pub record Metadata : Type 0 where
  pub width : ℕ
  pub height : ℕ
  pub android_format : ℕ
  pub stride : ℕ
  pub layers : ℕ
  pub usage : ℕ
  pub crop_left : ℕ
  pub crop_top : ℕ
  pub crop_width : ℕ
  pub crop_height : ℕ

pub record Backend (W : Type 0) : Type 0 where
  pub create : W → Config → ℕ × Option ℕ × W
  pub queue_input : W → ℕ → Buffer → ℕ → ℕ → ℕ → ℕ × W
  pub dequeue_output : W → ℕ → ℕ × BackendOutput × W
  pub release_output : W → ℕ → ℕ → Option ℕ → W
  pub export_decode_prime : Option (W → ℕ → ℕ → Metadata → ℕ → ℕ × Descriptor × W)
  -- Whether the buffer was sent.
  pub send_native_buffer : Option (W → ℕ → ℕ → Bool × W)
  pub receive_ahb_input : Option (W → ℕ → ℕ → AhbInput → ℕ × Option ℕ × W)
  pub dmabuf_format_allowed : Option (W → ℕ → Descriptor → Verdict)
  pub submit_dmabuf : Option (W → ℕ → Descriptor → ℕ → Option ℕ → ℕ × Option ℕ × W)
  pub flush : W → ℕ → ℕ × W
  pub destroy : W → ℕ → W

-- The system calls behind `load_input` and `create_sealed_output`, and the allocation of a registry.
pub record Files (W : Type 0) : Type 0 where
  -- fstat succeeds on a regular file of that size.
  pub regular_size : W → ℕ → Option ℕ
  -- fcntl(fd, F_GET_SEALS) has the shrink, grow and write seals.
  pub is_sealed : W → ℕ → Bool
  -- malloc succeeds for that size.
  pub can_allocate : W → ℕ → Bool
  -- calloc fails for the registry of dma-bufs: errno as it is read when the session was destroyed.
  pub registry_error : W → Option Errno
  -- pread delivers that many bytes from the offset.
  pub read_at : W → ℕ → ℕ → ℕ → Option Buffer
  -- memfd_create, ftruncate, pwrite and F_ADD_SEALS, or no descriptor if one of them fails.
  pub sealed_output : W → Option Buffer → ℕ → Option ℕ × W

pub record Host (W : Type 0) : Type 0 where
  pub kernel : Kernel W
  pub backend : Backend W
  pub files : Files W
