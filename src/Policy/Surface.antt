-- ===== src/Policy/Surface.antt =====
-- src/vaapi_advc/advc_vaapi_surface_policy.c: how a consumer gets a decoded NV12 surface. The
-- pointers are not NULL.
use lin_de_x.Base.{
  Result-cases, inl, inr, ℕ, ◌+◌, ◌-◌, ◌*◌, ◌/◌, ◌%◌, ◌^◌, ◌==◌, ◌!=◌, ltb, leb, ◌&&◌, ◌||◌, not,
  Bool, true, false, if◌then◌else◌, get_or, ◌≡◌, ◌≤◌, ◌<◌, arith, is_ok,
}
use native.Mathlib.Nat.{le-div_iff_mul-le}
use lin_de_x.Kernel.{Kernel}
use lin_de_x.Dmabuf.Valid.{descriptor_validate-inside}
use lin_de_x.Dmabuf.Descriptor.{Descriptor, Plane, no_plane, no_object, descriptor_validate}

-- enum advc_vaapi_surface_route
pub data Route : Type 0 where
  unsupported direct_linear direct_qcom gpu_repack_linear cpu_copy_linear : Route

pub record Consumer : Type 0 where
  pub accepts_linear_nv12 : Bool
  pub accepts_qcom_compressed_nv12 : Bool
  pub gpu_repack_available : Bool
  pub cpu_copy_allowed : Bool

abbrev pub format_nv12 : ℕ
format_nv12 = 0x3231564e

abbrev pub uint64_max : ℕ
uint64_max = 2 ^ 64 - 1

abbrev pub plane_at : Descriptor → ℕ → Plane
plane_at d i = get_or d.planes i no_plane

abbrev pub object_size : Descriptor → ℕ → ℕ
object_size d i = (get_or d.objects i no_object).size

unfoldable pub exact_nv12_planes : Descriptor → Bool
exact_nv12_planes d =
    d.plane_count == 2
    && leb d.object_count 2
    && d.width % 2 == 0
    && d.height % 2 == 0
    && leb d.width (plane_at d 0).pitch
    && leb d.width (plane_at d 1).pitch

-- The end of a plane, in 64 bits.
abbrev pub plane_end : Plane → ℕ → ℕ
plane_end p rows = (p.offset + p.pitch * rows % 2 ^ 64) % 2 ^ 64

unfoldable pub linear_nv12_compatible : Descriptor → Bool
linear_nv12_compatible d =
    let luma = plane_at d 0 in
    let chroma = plane_at d 1 in
    let luma_end = plane_end luma d.height in
    let chroma_end = plane_end chroma (d.height / 2) in
    exact_nv12_planes d
    && not
        (ltb (uint64_max / d.height) luma.pitch || ltb (uint64_max / (d.height / 2)) chroma.pitch)
    && not (
        ltb luma_end luma.offset
        || ltb chroma_end chroma.offset
        || ltb (object_size d luma.object_index) luma_end
        || ltb (object_size d chroma.object_index) chroma_end)
    && not (luma.object_index == chroma.object_index && ltb chroma.offset luma_end)

unfoldable pub qcom_nv12_compatible : Descriptor → Bool
qcom_nv12_compatible d =
    exact_nv12_planes d
    && d.object_count == 1
    && (plane_at d 0).object_index == 0
    && (plane_at d 1).object_index == 0

module _ {W : Type 0} (k : Kernel W) (w : W) where
  unfoldable pub select_surface_route : Descriptor → Consumer → Route
  select_surface_route d c =
      if not (is_ok (descriptor_validate k w d)) || d.drm_fourcc != format_nv12
      then unsupported
      else if d.drm_modifier == 0 && linear_nv12_compatible d && c.accepts_linear_nv12
      then direct_linear
      else if d.drm_modifier == 0x0500000000000001 && qcom_nv12_compatible d
      then if c.accepts_qcom_compressed_nv12
        then direct_qcom
        else if c.accepts_linear_nv12 && c.gpu_repack_available
        then gpu_repack_linear
        else if c.accepts_linear_nv12 && c.cpu_copy_allowed
        then cpu_copy_linear
        else unsupported
      else unsupported

-- The whole of a plane of that many rows lies in its object.
abbrev pub PlaneFits : Descriptor → Plane → ℕ → Type 0
PlaneFits d p rows = p.offset + p.pitch * rows ≤ object_size d p.object_index

-- A 64-bit end that is checked as the source does is the end.
plane_end-exact :
    (p : Plane) (rows : ℕ)
    → p.offset < 2 ^ 64
    → 0 < rows
    → ltb (uint64_max / rows) p.pitch ≡ false
    → ltb (plane_end p rows) p.offset ≡ false
    → plane_end p rows ≡ p.offset + p.pitch * rows
plane_end-exact p rows l r n m =
    let fits : p.pitch * rows ≤ uint64_max = (le-div_iff_mul-le r).0 (ground arith) in
    ground (arith, fits)

-- What the linear route ensures of the two planes.
pub record LinearFits (d : Descriptor) : Type 0 where
  pub luma : PlaneFits d (plane_at d 0) d.height
  pub chroma : PlaneFits d (plane_at d 1) (d.height / 2)
  pub apart :
      (plane_at d 0).object_index ≡ (plane_at d 1).object_index
      → (plane_at d 0).offset + (plane_at d 0).pitch * d.height ≤ (plane_at d 1).offset

linear_nv12_compatible-LinearFits :
    (d : Descriptor)
    → 16 ≤ d.height
    → (plane_at d 0).offset < 2 ^ 64
    → (plane_at d 1).offset < 2 ^ 64
    → linear_nv12_compatible d ≡ true
    → LinearFits d
unfolding linear_nv12_compatible
linear_nv12_compatible-LinearFits d r l m h = ground (
  arith,
  plane_end-exact (plane_at d 0) d.height l (omega arith),
  plane_end-exact (plane_at d 1) (d.height / 2) m (omega arith),
)

validated-height :
    {W : Type 0} (k : Kernel W) (w : W) (d : Descriptor)
    → is_ok (descriptor_validate k w d) ≡ true
    → 16 ≤ d.height
validated-height k w d h = elim (Result-cases (descriptor_validate k w d)) [
  | inl (e, q) ↦ ground (arith, q)
  | inr (u, q) ↦ (descriptor_validate-inside k w d q).0.height_low
]

-- For plane offsets of 64 bits: a surface is passed on as linear only if the consumer takes linear
-- surfaces, both planes lie whole in their objects, without wrap-around, and in one object luma
-- ends before chroma begins. It is passed on compressed only if the consumer takes that, repacked
-- only if the consumer takes linear surfaces and the GPU can, and copied by the CPU only if that is
-- allowed and the GPU cannot.
pub select_surface_route_lem :
    {W : Type 0} (k : Kernel W) (w : W) (d : Descriptor) (c : Consumer)
    → (plane_at d 0).offset < 2 ^ 64
    → (plane_at d 1).offset < 2 ^ 64
    → let route = select_surface_route k w d c in
      (route ≡ direct_linear → LinearFits d × (c.accepts_linear_nv12 ≡ true))
      × (route ≡ direct_qcom → c.accepts_qcom_compressed_nv12 ≡ true)
      × (route ≡ gpu_repack_linear
          → (c.accepts_linear_nv12 ≡ true) × (c.gpu_repack_available ≡ true))
      × (route ≡ cpu_copy_linear → (c.cpu_copy_allowed ≡ true) × (c.gpu_repack_available ≡ false))
unfolding select_surface_route
select_surface_route_lem k w d c l m = ground (
  arith,
  validated-height k w d,
  λ (h : 16 ≤ d.height) (e : linear_nv12_compatible d ≡ true).
      linear_nv12_compatible-LinearFits d h l m e,
)
