-- ===== src/Policy/Examples.antt =====
-- The policies on concrete requests.
use lin_de_x.Base.{
  ◌≡◌, ◌≤◌, ◌+◌, refl, ok, err, einval, true, false, ◌∷◌, [], ◌⊎◌, arith, replicate, List,
}
use lin_de_x.Dmabuf.Sample.{counting_kernel, frame}
use lin_de_x.Dmabuf.Descriptor.{Descriptor, no_plane}
use lin_de_x.Policy.Slices.{Span, Moved, rebase_slice_offsets, rebase_slice_offsets_lem, uint32_max}
use lin_de_x.Policy.Surface.{
  Consumer, LinearFits, select_surface_route, select_surface_route_lem, direct_linear, direct_qcom,
  gpu_repack_linear, cpu_copy_linear,
}
use lin_de_x.Policy.Transport.{
  Request, Choice, Justified, transport_policy_select, select_fallback, available,
  transport_policy_select-Justified,
}

abbrev two_spans : List Span
two_spans = record { offset = 0; size = 10 } ∷ record { offset = 10; size = 20 } ∷ []

rebase_slice_offsets_lem_example :
    let r = rebase_slice_offsets two_spans 100 30 4096 in
    ((r.0 ≡ ok tt) × Moved 100 30 two_spans r.1 × (100 + 30 ≤ 4096) × (100 + 30 ≤ uint32_max))
    ⊎ ((r.0 ≡ err einval) × (r.1 ≡ two_spans))
rebase_slice_offsets_lem_example = rebase_slice_offsets_lem two_spans 100 30 4096

-- A linear NV12 frame of 64 by 64 pixels.
abbrev nv12 : Descriptor
nv12 = record frame {
  drm_fourcc = 0x3231564e;
  plane_count = 2;
  planes =
      record { object_index = 0; offset = 0; pitch = 64 }
      ∷ record { object_index = 0; offset = 4096; pitch = 64 }
      ∷ replicate 2 no_plane;
}

abbrev plain_consumer : Consumer
plain_consumer = record {
  accepts_linear_nv12 = true;
  accepts_qcom_compressed_nv12 = false;
  gpu_repack_available = false;
  cpu_copy_allowed = true;
}

select_surface_route_lem_example :
    let route = select_surface_route counting_kernel 10 nv12 plain_consumer in
    (route ≡ direct_linear → LinearFits nv12 × (plain_consumer.accepts_linear_nv12 ≡ true))
    × (route ≡ direct_qcom → plain_consumer.accepts_qcom_compressed_nv12 ≡ true)
    × (route ≡ gpu_repack_linear
        → (plain_consumer.accepts_linear_nv12 ≡ true)
          × (plain_consumer.gpu_repack_available ≡ true))
    × (route ≡ cpu_copy_linear
        → (plain_consumer.cpu_copy_allowed ≡ true) × (plain_consumer.gpu_repack_available ≡ false))
select_surface_route_lem_example =
    select_surface_route_lem counting_kernel 10 nv12 plain_consumer (omega arith) (omega arith)

-- Vulkan and EGL are there, and Vulkan was rejected.
abbrev retry : Request
retry = record {
  zero_copy_mode = 2;
  dmabuf_preference = 0;
  available_features = 771;
  rejected_backends = 2;
  frames_submitted = 0;
  previous_session_closed = true;
}

abbrev egl_choice : Choice
egl_choice = record { backend = 2; reason = 1; transport = 2; cpu_pixel_copy = false }

retry-chooses : transport_policy_select retry ≡ ok egl_choice
unfolding transport_policy_select select_fallback available
retry-chooses = refl

transport_policy_select-Justified_example : Justified retry egl_choice
transport_policy_select-Justified_example =
    transport_policy_select-Justified retry egl_choice retry-chooses
