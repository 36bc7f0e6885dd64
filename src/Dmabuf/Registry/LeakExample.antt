-- ===== src/Dmabuf/Registry/LeakExample.antt =====
-- A table of descriptors and a frame that the policy refuses.
use lin_de_x.Base.{ℕ, false, some, List, [], ◌∷◌, is_ok, ◌≡◌, refl, replicate}
use lin_de_x.Kernel.{valid_cloexec_fd}
use lin_de_x.Dmabuf.Descriptor.{
  Descriptor, descriptor_validate, valid_fields, valid_crop, valid_color, valid_objects,
  valid_planes, valid_plane, unused_objects, unused_planes, no_object,
}
use lin_de_x.Dmabuf.Sample.{frame}
use lin_de_x.Dmabuf.Registry.{
  Verdict, allowed, registry_create, registry_register, store, stored, dup_objects, find_entry,
  has_free, fill, close_all,
}
use lin_de_x.Kernel.Table.{table, table-Laws}
use lin_de_x.Dmabuf.Registry.Leaks.{member, registry_register-live}

-- Two objects, of which only the first can be duplicated.
abbrev two_objects : Descriptor
two_objects = record frame {
  object_count = 2;
  objects =
      record { fd = some 3; size = 16384 }
      ∷ record { fd = some 4; size = 16384 }
      ∷ replicate 2 no_object;
}

abbrev allow_all : List ℕ → Descriptor → Verdict
allow_all w d = allowed

full-fails :
    is_ok (registry_register table allow_all (3 ∷ 4 ∷ []) registry_create two_objects).result
    ≡ false
unfolding registry_register registry_create descriptor_validate valid_fields valid_crop valid_color
    valid_objects valid_planes valid_plane unused_objects unused_planes valid_cloexec_fd store
    stored dup_objects find_entry has_free fill close_all
full-fails = refl

-- The copy of the first object is 8, and it is gone.
registry_register-live_example :
    member 8 (registry_register table allow_all (3 ∷ 4 ∷ []) registry_create two_objects).world
    ≡ member 8 (3 ∷ 4 ∷ [])
registry_register-live_example =
    registry_register-live table (λ w fd. member fd w) table-Laws allow_all (3 ∷ 4 ∷ [])
      registry_create two_objects full-fails 8
