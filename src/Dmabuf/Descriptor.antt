-- ===== src/Dmabuf/Descriptor.antt =====
-- struct advc_dmabuf_descriptor and `advc_dmabuf_descriptor_validate`. The arrays `objects` and
-- `planes` are lists of four entries.
use lin_de_x.Base.{
  ℕ, zero, suc, ◌+◌, ◌-◌, ◌^◌, ◌==◌, ◌!=◌, ltb, leb, ◌&&◌, ◌||◌, not, Bool, true, false, Option,
  none, some, is_some, List, [], ◌∷◌, if◌then◌else◌, get_or, Result, ok, err, einval,
}
use lin_de_x.Kernel.{Kernel, valid_cloexec_fd}

abbrev pub max_objects : ℕ
max_objects = 4

abbrev pub max_planes : ℕ
max_planes = 4

abbrev pub max_object_bytes : ℕ
max_object_bytes = 2 ^ 30

abbrev pub max_pitch : ℕ
max_pitch = 2 ^ 20

abbrev pub explicit_all : ℕ
explicit_all = 7

pub record Object : Type 0 where
  pub fd : Option ℕ
  pub size : ℕ

pub record Plane : Type 0 where
  pub object_index : ℕ
  pub offset : ℕ
  pub pitch : ℕ

abbrev pub no_object : Object
no_object = record { fd = none; size = 0 }

abbrev pub no_plane : Plane
no_plane = record { object_index = 0; offset = 0; pitch = 0 }

pub record Color : Type 0 where
  pub primaries : ℕ
  pub transfer : ℕ
  pub matrix : ℕ
  pub range : ℕ
  pub chroma_horizontal : ℕ
  pub chroma_vertical : ℕ

pub record Crop : Type 0 where
  pub left : ℕ
  pub top : ℕ
  pub width : ℕ
  pub height : ℕ

pub record Descriptor : Type 0 where
  pub buffer_id : ℕ
  pub width : ℕ
  pub height : ℕ
  pub drm_fourcc : ℕ
  pub explicit_flags : ℕ
  pub drm_modifier : ℕ
  pub crop : Crop
  pub object_count : ℕ
  pub plane_count : ℕ
  pub color : Color
  pub objects : List Object
  pub planes : List Plane

-- The enumerations of colour metadata, by their last members; RGB is the matrix 1.
unfoldable pub valid_color : Color → Bool
valid_color c =
    if ltb 4 c.primaries
      || ltb 5 c.transfer
      || ltb 4 c.matrix
      || ltb 2 c.range
      || ltb 2 c.chroma_horizontal
      || ltb 2 c.chroma_vertical
    then false
    else if c.matrix == 1 && (c.chroma_horizontal != 0 || c.chroma_vertical != 0)
    then false
    else true

abbrev pub has_fd : Option ℕ → List Object → Bool
has_fd fd [] = false
has_fd none (o ∷ os) = not (is_some o.fd) || has_fd none os
has_fd (some n) (o ∷ os) = elim o.fd [ none ↦ false | some m ↦ m == n ] || has_fd (some n) os

-- The entries behind the declared ones are empty.
unfoldable pub unused_objects : List Object → Bool
unused_objects [] = true
unused_objects (o ∷ os) = not (is_some o.fd || o.size != 0) && unused_objects os

unfoldable pub unused_planes : List Plane → Bool
unused_planes [] = true
unused_planes (p ∷ ps) =
    not (p.object_index != 0 || p.offset != 0 || p.pitch != 0) && unused_planes ps

module _ {W : Type 0} (k : Kernel W) (w : W) where
  -- The two loops over `objects`: `count` entries are still declared, `seen` are those before.
  unfoldable pub valid_objects : ℕ → List Object → List Object → Bool
  valid_objects zero seen os = unused_objects os
  valid_objects (suc count) seen [] = false
  valid_objects (suc count) seen (o ∷ os) =
      not (not (valid_cloexec_fd k w o.fd) || o.size == 0 || ltb max_object_bytes o.size)
      && not (has_fd o.fd seen)
      && valid_objects count (o ∷ seen) os

unfoldable pub valid_plane : List Object → ℕ → Plane → Bool
valid_plane objects object_count p =
    if leb object_count p.object_index || p.pitch == 0 || ltb max_pitch p.pitch
    then false
    else let object_size = (get_or objects p.object_index no_object).size in
      not (leb object_size p.offset || ltb (object_size - p.offset) p.pitch)

-- The two loops over `planes`.
unfoldable pub valid_planes : List Object → ℕ → ℕ → List Plane → Bool
valid_planes objects object_count zero ps = unused_planes ps
valid_planes objects object_count (suc count) [] = false
valid_planes objects object_count (suc count) (p ∷ ps) =
    valid_plane objects object_count p && valid_planes objects object_count count ps

-- The conditions on the fixed fields.
unfoldable pub valid_fields : Descriptor → Bool
valid_fields d = not (
    d.buffer_id == 0
    || ltb d.width 16
    || ltb 8192 d.width
    || ltb d.height 16
    || ltb 8192 d.height
    || d.drm_fourcc == 0
    || d.drm_modifier == 2 ^ 64 - 1
    || d.explicit_flags != explicit_all
    || d.object_count == 0
    || ltb max_objects d.object_count
    || d.plane_count == 0
    || ltb max_planes d.plane_count
    || d.crop.width == 0
    || d.crop.height == 0
    || not (valid_color d.color))

-- The sums are of 32-bit values in 64 bits, so they do not wrap.
unfoldable pub valid_crop : Descriptor → Bool
valid_crop d =
    not (ltb d.width (d.crop.left + d.crop.width) || ltb d.height (d.crop.top + d.crop.height))

module _ {W : Type 0} (k : Kernel W) (w : W) where
  unfoldable pub descriptor_validate : Descriptor → Result (Unit {0})
  descriptor_validate d =
      if valid_fields d
        && valid_crop d
        && valid_objects k w d.object_count [] d.objects
        && valid_planes d.objects d.object_count d.plane_count d.planes
      then ok tt
      else err einval
