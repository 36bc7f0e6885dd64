-- ===== src/Dmabuf/Records.antt =====
-- `advc_dmabuf_registration_encode` and `advc_dmabuf_registration_decode`: the 256-byte record of a
-- registration. A received message has its descriptors as a list.
use lin_de_x.Base.{
  ℕ, zero, suc, ◌+◌, ◌*◌, ◌==◌, ◌!=◌, ltb, leb, ◌&&◌, ◌||◌, not, Bool, true, false, Option, none,
  List, [], ◌∷◌, if◌then◌else◌, get_or, Result, ok, einval, ◌>>=◌, ◌>>◌, guard,
}
use lin_de_x.Kernel.{Kernel}
use lin_de_x.Protocol.Wire.{Buffer, zeroes, put_u32, put_u64, get_u32, get_u64}
use lin_de_x.Dmabuf.Descriptor.{
  Object, Plane, Descriptor, no_object, no_plane, max_objects, max_planes, descriptor_validate,
}

abbrev pub registration_size : ℕ
registration_size = 256

unfoldable pub bytes_are_zero : Buffer → ℕ → ℕ → Bool
bytes_are_zero p o zero = true
bytes_are_zero p o (suc size) = p o == 0 && bytes_are_zero p (o + 1) size

-- What the encoder returns through its pointers.
pub record Encoded : Type 0 where
  pub payload : Buffer
  pub fds : List (Option ℕ)
  pub fd_count : ℕ

unfoldable pub put_fields : Buffer → Descriptor → Buffer
put_fields p d =
    let b0 = put_u64 p 0 d.buffer_id in
    let b8 = put_u32 b0 8 d.width in
    let b12 = put_u32 b8 12 d.height in
    let b16 = put_u32 b12 16 d.drm_fourcc in
    let b20 = put_u32 b16 20 d.explicit_flags in
    let b24 = put_u64 b20 24 d.drm_modifier in
    let b32 = put_u32 b24 32 d.crop.left in
    let b36 = put_u32 b32 36 d.crop.top in
    let b40 = put_u32 b36 40 d.crop.width in
    let b44 = put_u32 b40 44 d.crop.height in
    let b48 = put_u32 b44 48 d.object_count in
    let b52 = put_u32 b48 52 d.plane_count in
    let b56 = put_u32 b52 56 d.color.primaries in
    let b60 = put_u32 b56 60 d.color.transfer in
    let b64 = put_u32 b60 64 d.color.matrix in
    let b68 = put_u32 b64 68 d.color.range in
    let b72 = put_u32 b68 72 d.color.chroma_horizontal in put_u32 b72 76 d.color.chroma_vertical

-- The loop over the declared objects, at index `i` with `left` rounds to go.
unfoldable pub put_objects : Buffer → ℕ → ℕ → List Object → Buffer
put_objects p i zero os = p
put_objects p i (suc left) [] = p
put_objects p i (suc left) (o ∷ os) =
    put_objects (put_u64 (put_u32 p (96 + i * 16) i) (96 + i * 16 + 8) o.size) (i + 1) left os

-- `fds[i] = descriptor->objects[i].fd` for the declared objects, and -1 elsewhere.
unfoldable pub object_fds : ℕ → List Object → List (Option ℕ)
object_fds count [] = []
object_fds zero (o ∷ os) = none ∷ object_fds zero os
object_fds (suc count) (o ∷ os) = o.fd ∷ object_fds count os

unfoldable pub put_planes : Buffer → ℕ → ℕ → List Plane → Buffer
put_planes p i zero ps = p
put_planes p i (suc left) [] = p
put_planes p i (suc left) (q ∷ ps) =
    let o = 160 + i * 24 in
    put_planes (put_u32 (put_u64 (put_u32 p o q.object_index) (o + 8) q.offset) (o + 16) q.pitch)
      (i + 1) left ps

-- The record of an accepted descriptor, without the test.
unfoldable pub put_descriptor : Descriptor → Buffer
put_descriptor d =
    put_planes (put_objects (put_fields zeroes d) 0 d.object_count d.objects) 0 d.plane_count
      d.planes

unfoldable pub taken : ℕ → List ℕ → Bool
taken n [] = false
taken n (m ∷ ms) = m == n || taken n ms

-- Reading an object record; `used` are the descriptor indices that earlier records took.
unfoldable pub get_objects :
    Buffer → List (Option ℕ) → ℕ → List ℕ → ℕ → ℕ → ℕ → Result (List Object)
get_objects p fds fd_count used object_count i zero = ok []
get_objects p fds fd_count used object_count i (suc left) =
    let o = 96 + i * 16 in
    let fd_index = get_u32 p o in
    let declared = (do
      guard (bytes_are_zero p (o + 4) 4 && ltb fd_index fd_count && not (taken fd_index used))
          einval
      rest ← get_objects p fds fd_count (fd_index ∷ used) object_count (i + 1) left
      ok (record { fd = get_or fds fd_index none; size = get_u64 p (o + 8) } ∷ rest)) in
    let unused = (do
      guard (bytes_are_zero p o 16) einval
      rest ← get_objects p fds fd_count used object_count (i + 1) left
      ok (no_object ∷ rest)) in
    if ltb i object_count then declared else unused

unfoldable pub get_planes : Buffer → ℕ → ℕ → ℕ → Result (List Plane)
get_planes p plane_count i zero = ok []
get_planes p plane_count i (suc left) =
    let o = 160 + i * 24 in
    let declared = (do
      guard (bytes_are_zero p (o + 4) 4 && bytes_are_zero p (o + 20) 4) einval
      rest ← get_planes p plane_count (i + 1) left
      ok (
          record {
            object_index = get_u32 p o;
            offset = get_u64 p (o + 8);
            pitch = get_u32 p (o + 16);
          }
          ∷ rest)) in
    let unused = (do
      guard (bytes_are_zero p o 24) einval
      rest ← get_planes p plane_count (i + 1) left
      ok (no_plane ∷ rest)) in
    if ltb i plane_count then declared else unused

-- The fixed fields, with the arrays given.
unfoldable pub get_fields : Buffer → List Object → List Plane → Descriptor
get_fields p objects planes = record {
  buffer_id = get_u64 p 0;
  width = get_u32 p 8;
  height = get_u32 p 12;
  drm_fourcc = get_u32 p 16;
  explicit_flags = get_u32 p 20;
  drm_modifier = get_u64 p 24;
  crop = record {
    left = get_u32 p 32;
    top = get_u32 p 36;
    width = get_u32 p 40;
    height = get_u32 p 44;
  };
  object_count = get_u32 p 48;
  plane_count = get_u32 p 52;
  color = record {
    primaries = get_u32 p 56;
    transfer = get_u32 p 60;
    matrix = get_u32 p 64;
    range = get_u32 p 68;
    chroma_horizontal = get_u32 p 72;
    chroma_vertical = get_u32 p 76;
  };
  objects = objects;
  planes = planes;
}

module _ {W : Type 0} (k : Kernel W) (w : W) where
  unfoldable pub registration_encode : Descriptor → Result Encoded
  registration_encode d = do
    descriptor_validate k w d
    ok (record {
      payload = put_descriptor d;
      fds = object_fds d.object_count d.objects;
      fd_count = d.object_count;
    })

  unfoldable pub registration_decode : Buffer → ℕ → List (Option ℕ) → ℕ → Result Descriptor
  registration_decode p size fds fd_count = do
    guard (size == registration_size && leb fd_count max_objects) einval
    let object_count = get_u32 p 48
    let plane_count = get_u32 p 52
    guard
        (bytes_are_zero p 80 16
          && object_count == fd_count
          && object_count != 0
          && leb object_count max_objects
          && plane_count != 0
          && leb plane_count max_planes)
        einval
    objects ← get_objects p fds fd_count [] object_count 0 max_objects
    planes ← get_planes p plane_count 0 max_planes
    let d = get_fields p objects planes
    descriptor_validate k w d
    ok d
