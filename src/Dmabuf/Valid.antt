-- ===== src/Dmabuf/Valid.antt =====
-- `advc_dmabuf_descriptor_validate` of src/video_bridge/src/dmabuf_ingress.c, for the code that
-- imports a descriptor.
use lin_de_x.Base.{
  ℕ, zero, suc, ◌+◌, ◌-◌, ◌^◌, ◌<◌, ◌≤◌, true, false, none, some, Option, refl, List, [], ◌∷◌,
  get_or, ok, ◌≡◌, ◌≢◌, arith,
}
use lin_de_x.Kernel.{Kernel, valid_cloexec_fd}
use lin_de_x.Dmabuf.Descriptor.{
  Object, Plane, Descriptor, no_object, max_objects, max_planes, max_object_bytes, max_pitch,
  explicit_all, has_fd, unused_objects, unused_planes, valid_objects, valid_plane, valid_planes,
  valid_fields, valid_crop, valid_color, descriptor_validate,
}

-- The first `n` entries have the property `P` and those behind them have `Q`.
abbrev pub Upto : {A : Type 0} → (A → Type 0) → (A → Type 0) → ℕ → List A → Type 0
Upto P Q zero [] = Unit
Upto P Q (suc n) [] = ⊥
Upto P Q zero (x ∷ xs) = Q x × Upto P Q zero xs
Upto P Q (suc n) (x ∷ xs) = P x × Upto P Q n xs

-- One whole declared row of the plane lies inside the object that it names.
pub record PlaneInside (objects : List Object) (object_count : ℕ) (p : Plane) : Type 0 where
  pub index : p.object_index < object_count
  pub pitch_low : 0 < p.pitch
  pub pitch_high : p.pitch ≤ max_pitch
  pub inside : p.offset + p.pitch ≤ (get_or objects p.object_index no_object).size

abbrev pub PlaneEmpty : Plane → Type 0
PlaneEmpty p = (p.object_index ≡ 0) × (p.offset ≡ 0) × (p.pitch ≡ 0)

valid_plane-PlaneInside :
    (objects : List Object) (n : ℕ) (p : Plane)
    → valid_plane objects n p ≡ true
    → PlaneInside objects n p
unfolding valid_plane
valid_plane-PlaneInside objects n p h = ground arith

unused_planes-Empty :
    (n : ℕ) (objects : List Object) (ps : List Plane)
    → unused_planes ps ≡ true
    → Upto (PlaneInside objects n) PlaneEmpty 0 ps
unfolding unused_planes
unused_planes-Empty n objects [] h = tt
unused_planes-Empty n objects (p ∷ ps) h = ground (arith, unused_planes-Empty n objects ps)

valid_planes-Upto :
    (objects : List Object) (n count : ℕ) (ps : List Plane)
    → valid_planes objects n count ps ≡ true
    → Upto (PlaneInside objects n) PlaneEmpty count ps
unfolding valid_planes
valid_planes-Upto objects n zero ps h = unused_planes-Empty n objects ps h
valid_planes-Upto objects n (suc count) [] h = ground arith
valid_planes-Upto objects n (suc count) (p ∷ ps) h =
    ground (arith, valid_plane-PlaneInside objects n p, valid_planes-Upto objects n count ps)

-- The fixed fields and the crop rectangle of an accepted descriptor.
pub record FieldsInRange (d : Descriptor) : Type 0 where
  pub id : d.buffer_id ≢ 0
  pub fourcc : d.drm_fourcc ≢ 0
  pub modifier : d.drm_modifier ≢ 2 ^ 64 - 1
  pub width_low : 16 ≤ d.width
  pub width_high : d.width ≤ 8192
  pub height_low : 16 ≤ d.height
  pub height_high : d.height ≤ 8192
  pub explicit : d.explicit_flags ≡ explicit_all
  pub objects_low : 1 ≤ d.object_count
  pub objects_high : d.object_count ≤ max_objects
  pub planes_low : 1 ≤ d.plane_count
  pub planes_high : d.plane_count ≤ max_planes
  pub crop_width : d.crop.width ≢ 0
  pub crop_height : d.crop.height ≢ 0
  pub crop_right : d.crop.left + d.crop.width ≤ d.width
  pub crop_bottom : d.crop.top + d.crop.height ≤ d.height
  pub primaries : d.color.primaries ≤ 4
  pub transfer : d.color.transfer ≤ 5
  pub matrix : d.color.matrix ≤ 4
  pub range : d.color.range ≤ 2
  pub chroma_horizontal : d.color.chroma_horizontal ≤ 2
  pub chroma_vertical : d.color.chroma_vertical ≤ 2
  -- The matrix of RGB comes without a chroma siting.
  pub rgb : d.color.matrix ≡ 1 → (d.color.chroma_horizontal ≡ 0) × (d.color.chroma_vertical ≡ 0)

valid_fields-InRange :
    (d : Descriptor) → valid_fields d ≡ true → valid_crop d ≡ true → FieldsInRange d
unfolding valid_fields valid_crop valid_color
valid_fields-InRange d h c = ground arith

-- None of the objects has that descriptor.
abbrev pub Differs : ℕ → List Object → Type 0
Differs fd [] = Unit
Differs fd (o ∷ os) = (o.fd ≢ some fd) × Differs fd os

has_fd-Differs : (fd : ℕ) (os : List Object) → has_fd (some fd) os ≡ false → Differs fd os
has_fd-Differs fd [] h = tt
has_fd-Differs fd (o ∷ os) h = ground (arith, has_fd-Differs fd os)

-- The object has an open descriptor with close-on-exec, which none of those seen has.
abbrev pub Owns : {W : Type 0} → Kernel W → W → List Object → Option ℕ → Type 0
Owns k w seen fd = (n : ℕ) × (fd ≡ some n) × (k.has_cloexec w n ≡ true) × Differs n seen

-- Each of the first `n` objects has such a descriptor and a bounded size; the objects behind them
-- are empty.
abbrev pub ObjectsOwned : {W : Type 0} → Kernel W → W → ℕ → List Object → List Object → Type 0
ObjectsOwned k w zero seen [] = Unit
ObjectsOwned k w zero seen (o ∷ os) = (o.fd ≡ none) × (o.size ≡ 0) × ObjectsOwned k w zero seen os
ObjectsOwned k w (suc n) seen [] = ⊥
ObjectsOwned k w (suc n) seen (o ∷ os) =
    Owns k w seen o.fd
    × (0 < o.size)
    × (o.size ≤ max_object_bytes)
    × ObjectsOwned k w n (o ∷ seen) os

module _ {W : Type 0} (k : Kernel W) (w : W) where
  descriptor_validate-parts :
      (d : Descriptor)
      → descriptor_validate k w d ≡ ok tt
      → (valid_fields d ≡ true)
        × (valid_crop d ≡ true)
        × (valid_objects k w d.object_count [] d.objects ≡ true)
        × (valid_planes d.objects d.object_count d.plane_count d.planes ≡ true)
  unfolding descriptor_validate
  descriptor_validate-parts d h = ground arith

  unused_objects-Owned :
      (seen os : List Object) → unused_objects os ≡ true → ObjectsOwned k w 0 seen os
  unfolding unused_objects
  unused_objects-Owned seen [] h = tt
  unused_objects-Owned seen (o ∷ os) h = ground (arith, unused_objects-Owned seen os)

  valid_cloexec_fd-Owns :
      (seen : List Object) (fd : Option ℕ)
      → valid_cloexec_fd k w fd ≡ true
      → has_fd fd seen ≡ false
      → Owns k w seen fd
  unfolding valid_cloexec_fd
  valid_cloexec_fd-Owns seen none v h = absurd cc
  valid_cloexec_fd-Owns seen (some n) v h = (n, refl, v, has_fd-Differs n seen h)

  valid_objects-Owned :
      (n : ℕ) (seen os : List Object)
      → valid_objects k w n seen os ≡ true
      → ObjectsOwned k w n seen os
  unfolding valid_objects
  valid_objects-Owned zero seen os h = unused_objects-Owned seen os h
  valid_objects-Owned (suc n) seen [] h = ground arith
  valid_objects-Owned (suc n) seen (o ∷ os) h = (
    valid_cloexec_fd-Owns seen o.fd (ground (arith, h)) (ground (arith, h)),
    ground (arith, h),
    ground (arith, h),
    valid_objects-Owned n (o ∷ seen) os (ground (arith, h)),
  )

  -- An accepted descriptor has a buffer id, a format, a modifier that is not the invalid one,
  -- sizes, counts and colour enumerations in range, no chroma siting with the matrix of RGB, and a
  -- crop that is not empty and inside the frame; each declared object has a bounded size and a
  -- close-on-exec descriptor that no other has; a whole row of each declared plane lies inside its
  -- object; and what is not declared is empty.
  pub descriptor_validate-inside :
      (d : Descriptor)
      → descriptor_validate k w d ≡ ok tt
      → FieldsInRange d
        × ObjectsOwned k w d.object_count [] d.objects
        × Upto (PlaneInside d.objects d.object_count) PlaneEmpty d.plane_count d.planes
  descriptor_validate-inside d h =
      let (fields, crop, objects, planes) = descriptor_validate-parts d h in
      (
        valid_fields-InRange d fields crop,
        valid_objects-Owned d.object_count [] d.objects objects,
        valid_planes-Upto d.objects d.object_count d.plane_count d.planes planes,
      )
