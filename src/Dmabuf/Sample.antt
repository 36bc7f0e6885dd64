-- ===== src/Dmabuf/Sample.antt =====
-- A concrete descriptor table, frame and registry for the examples. The world is the next descriptor.
use lin_de_x.Base.{ℕ, ◌+◌, true, some, replicate, ◌∷◌, true}
use lin_de_x.Kernel.{Kernel, returns}
use lin_de_x.Dmabuf.Descriptor.{Descriptor, no_object, no_plane}
use lin_de_x.Dmabuf.Requests.{Submission}
use lin_de_x.Dmabuf.Registry.{
  Registry, Verdict, allowed, registry_register, registry_begin, registry_create,
}

abbrev pub counting_kernel : Kernel ℕ
counting_kernel = record {
  has_cloexec = λ w fd. true;
  is_sync_file = λ w fd. true;
  dup = λ w fd. returns w (w + 1);
  close = λ w fd. w;
}

-- A frame of 64 by 64 pixels in one object of 16384 bytes.
abbrev pub frame : Descriptor
frame = record {
  buffer_id = 5;
  width = 64;
  height = 64;
  drm_fourcc = 875713112;
  explicit_flags = 7;
  drm_modifier = 0;
  crop = record { left = 0; top = 0; width = 64; height = 64 };
  object_count = 1;
  plane_count = 1;
  color = record {
    primaries = 0;
    transfer = 0;
    matrix = 0;
    range = 0;
    chroma_horizontal = 0;
    chroma_vertical = 0;
  };
  objects = record { fd = some 3; size = 16384 } ∷ replicate 3 no_object;
  planes = record { object_index = 0; offset = 0; pitch = 256 } ∷ replicate 3 no_plane;
}

abbrev pub allow : ℕ → Descriptor → Verdict
allow w d = allowed

-- The registry that holds the frame, and the one in which it is in flight.
abbrev pub registered : Registry
registered = (registry_register counting_kernel allow 10 registry_create frame).registry

abbrev pub submission : Submission
submission = record { buffer_id = 5; pts_ns = 1000; acquire_fence = some 4 }

abbrev pub flying : Registry
flying = (registry_begin counting_kernel 11 registered submission).registry
