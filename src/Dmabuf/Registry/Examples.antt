-- ===== src/Dmabuf/Registry/Examples.antt =====
-- The registry on one frame: registered, submitted, finished and unregistered.
use lin_de_x.Base.{◌≡◌, refl, ok, true, false, some, none, is_ok, ◌&&◌, ◌==◌, if◌then◌else◌, []}
use lin_de_x.Dmabuf.Descriptor.{
  descriptor_validate, valid_fields, valid_crop, valid_color, valid_objects, valid_planes,
  valid_plane, unused_objects, unused_planes,
}
use lin_de_x.Kernel.{valid_cloexec_fd}
use lin_de_x.Dmabuf.Valid.{
  descriptor_validate-inside, FieldsInRange, ObjectsOwned, Upto, PlaneInside, PlaneEmpty,
}
use lin_de_x.Dmabuf.Sample.{counting_kernel, frame, allow, registered, submission, flying}
use lin_de_x.Dmabuf.Registry.{
  registry_create, registry_register, registry_unregister, registry_begin, registry_finish, store,
  stored, dup_objects, find_entry, has_free, fill,
}
use lin_de_x.Dmabuf.Registry.Refine.{
  IsValid, status, registry_create-IsValid, registry_register-IsValid, registry_register-status,
}
use lin_de_x.Dmabuf.Registry.Flights.{
  Changes, Begun, unregister_answer, finish_answer, registry_unregister_lem, registry_finish_lem,
  registry_begin-Begun,
}

frame-valid : descriptor_validate counting_kernel 10 frame ≡ ok tt
unfolding descriptor_validate valid_fields valid_crop valid_color valid_objects valid_planes
    valid_plane unused_objects unused_planes valid_cloexec_fd
frame-valid = refl

descriptor_validate-inside_example :
    FieldsInRange frame
    × ObjectsOwned counting_kernel 10 frame.object_count [] frame.objects
    × Upto (PlaneInside frame.objects frame.object_count) PlaneEmpty frame.plane_count frame.planes
descriptor_validate-inside_example = descriptor_validate-inside counting_kernel 10 frame frame-valid

registry_register-IsValid_example : IsValid registered
registry_register-IsValid_example =
    registry_register-IsValid counting_kernel allow 10 registry_create frame registry_create-IsValid

registered-IsValid : IsValid registered
registered-IsValid =
    registry_register-IsValid counting_kernel allow 10 registry_create frame registry_create-IsValid

registry_register-status_example : status registered 5 ≡ (
    if is_ok (registry_register counting_kernel allow 10 registry_create frame).result && 5 == 5
    then some false
    else status registry_create 5)
registry_register-status_example =
    registry_register-status counting_kernel allow 10 registry_create frame 5

frame-registers :
    is_ok (registry_register counting_kernel allow 10 registry_create frame).result ≡ true
unfolding registry_register registry_create descriptor_validate valid_fields valid_crop valid_color
    valid_objects valid_planes valid_plane unused_objects unused_planes valid_cloexec_fd store
    stored dup_objects find_entry has_free fill
frame-registers = refl

registry_begin-Begun_example :
    Begun counting_kernel 11 registered submission registered-IsValid
      (registry_begin counting_kernel 11 registered submission)
registry_begin-Begun_example =
    registry_begin-Begun counting_kernel 11 registered submission registered-IsValid

flying-IsValid : IsValid flying
flying-IsValid =
    (registry_begin-Begun counting_kernel 11 registered submission registered-IsValid).valid

registry_finish_lem_example :
    ((registry_finish flying 5).0 ≡ finish_answer 5 (status flying 5))
    × Changes flying 5 (some false) (registry_finish flying 5).0 (registry_finish flying 5).1
    × IsValid (registry_finish flying 5).1
registry_finish_lem_example = registry_finish_lem flying 5 flying-IsValid

registry_unregister_lem_example :
    let reply = registry_unregister counting_kernel 12 registered 5 in
    (reply.result ≡ unregister_answer 5 (status registered 5))
    × Changes registered 5 none reply.result reply.registry
    × IsValid reply.registry
registry_unregister_lem_example =
    registry_unregister_lem counting_kernel 12 registered 5 registered-IsValid
