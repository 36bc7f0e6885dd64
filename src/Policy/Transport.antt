-- ===== src/Policy/Transport.antt =====
-- src/video_bridge/src/transport_policy.c: the backend of an encode session. The pointers are not
-- NULL; features and rejected backends are sets of bits.
use lin_de_x.Base.{
  ℕ, ◌^◌, ◌==◌, ◌!=◌, ltb, ◌&&◌, ◌||◌, not, Bool, true, false, if◌then◌else◌, Result, ok, err,
  einval, ebusy, ◌≡◌, ◌≢◌, arith, bit_and, ◌⊎◌, ◌↔◌, ◌≤◌,
}
use lin_de_x.Session.State.{
  transport_bytes, transport_dmabuf, transport_broker_egl, transport_android_ahb,
}

abbrev pub strict : ℕ
strict = 1

abbrev pub auto : ℕ
auto = 2

abbrev pub prefer_any : ℕ
prefer_any = 0

abbrev pub prefer_vulkan : ℕ
prefer_vulkan = 1

abbrev pub prefer_egl : ℕ
prefer_egl = 2

abbrev pub backend_none : ℕ
backend_none = 0

abbrev pub backend_vulkan : ℕ
backend_vulkan = 1

abbrev pub backend_egl : ℕ
backend_egl = 2

abbrev pub backend_ahb : ℕ
backend_ahb = 3

abbrev pub backend_surface : ℕ
backend_surface = 4

abbrev pub backend_bytes : ℕ
backend_bytes = 5

-- The bits of enum advc_feature_bits.
abbrev pub feature_memfd : ℕ
feature_memfd = 1

abbrev pub feature_dmabuf : ℕ
feature_dmabuf = 2

abbrev pub feature_surface : ℕ
feature_surface = 64

abbrev pub feature_ahb : ℕ
feature_ahb = 128

abbrev pub feature_egl : ℕ
feature_egl = 256

abbrev pub feature_vulkan : ℕ
feature_vulkan = 512

pub record Request : Type 0 where
  pub zero_copy_mode : ℕ
  pub dmabuf_preference : ℕ
  pub available_features : ℕ
  pub rejected_backends : ℕ
  pub frames_submitted : ℕ
  pub previous_session_closed : Bool

pub record Choice : Type 0 where
  pub backend : ℕ
  pub reason : ℕ
  pub transport : ℕ
  pub cpu_pixel_copy : Bool

unfoldable pub available : Request → ℕ → ℕ → Bool
available q backend feature =
    (not (backend == backend_vulkan || backend == backend_egl)
      || bit_and q.available_features feature_dmabuf != 0)
    && bit_and q.available_features feature != 0
    && bit_and q.rejected_backends (2 ^ backend) == 0

abbrev pub choose : ℕ → ℕ → ℕ → Bool → Result Choice
choose backend reason transport copy =
    ok (record { backend = backend; reason = reason; transport = transport; cpu_pixel_copy = copy })

-- The candidates behind the dma-buf backends.
unfoldable pub select_fallback : Request → Result Choice
select_fallback q =
    if q.zero_copy_mode == strict
    then choose backend_none 4 0 false
    else if available q backend_ahb feature_ahb
    then choose backend_ahb 2 transport_android_ahb false
    else if available q backend_surface feature_surface
    then choose backend_surface 2 transport_broker_egl false
    else if available q backend_bytes feature_memfd
    then choose backend_bytes 3 transport_bytes true
    else choose backend_none 5 0 false

unfoldable pub transport_policy_select : Request → Result Choice
transport_policy_select q =
    let egl_first = q.dmabuf_preference == prefer_egl in
    let first = if egl_first then backend_egl else backend_vulkan in
    let first_feature = if egl_first then feature_egl else feature_vulkan in
    let second = if egl_first then backend_vulkan else backend_egl in
    let second_feature = if egl_first then feature_vulkan else feature_egl in
    if q.zero_copy_mode != strict && q.zero_copy_mode != auto || ltb prefer_egl q.dmabuf_preference
    then err einval
    else if q.rejected_backends != 0 && (q.frames_submitted != 0 || not q.previous_session_closed)
    then err ebusy
    else if available q first first_feature
    then choose first 1 transport_dmabuf false
    else if q.dmabuf_preference == prefer_any && available q second second_feature
    then choose second 1 transport_dmabuf false
    else select_fallback q

-- Neither the backend's feature nor its rejection rules it out: 2, 4, 8, 16 and 32 are the bits of
-- the backends from Vulkan to bytes in the set of those rejected.
abbrev pub Usable : Request → ℕ → ℕ → Type 0
Usable q feature rejection =
    (bit_and q.available_features feature ≢ 0) × (bit_and q.rejected_backends rejection ≡ 0)

abbrev pub Unusable : Request → ℕ → ℕ → Type 0
Unusable q feature rejection =
    (bit_and q.available_features feature ≡ 0) ⊎ (bit_and q.rejected_backends rejection ≢ 0)

-- The feature of dma-bufs.
abbrev pub HasDmabuf : Request → Type 0
HasDmabuf q = bit_and q.available_features feature_dmabuf ≢ 0

abbrev pub LacksDmabuf : Request → Type 0
LacksDmabuf q = bit_and q.available_features feature_dmabuf ≡ 0

-- What a client may rely on in a choice.
pub record Justified (q : Request) (c : Choice) : Type 0 where
  -- A backend is one of the five, its features are there, and it was not rejected.
  pub known : c.backend ≤ backend_bytes
  pub vulkan : c.backend ≡ backend_vulkan → HasDmabuf q × Usable q feature_vulkan 2
  pub egl : c.backend ≡ backend_egl → HasDmabuf q × Usable q feature_egl 4
  pub ahb : c.backend ≡ backend_ahb → Usable q feature_ahb 8
  pub surface : c.backend ≡ backend_surface → Usable q feature_surface 16
  pub bytes : c.backend ≡ backend_bytes → Usable q feature_memfd 32
  -- Without a copy there is a dma-buf or nothing, and pixels are copied only for bytes.
  pub strict_dmabuf :
      q.zero_copy_mode ≡ strict → c.backend ≢ backend_none → c.transport ≡ transport_dmabuf
  pub copies : c.cpu_pixel_copy ≡ true → c.backend ≡ backend_bytes
  pub bytes_copied : c.backend ≡ backend_bytes → c.cpu_pixel_copy ≡ true
  -- A preference for one dma-buf backend excludes the other.
  pub vulkan_only : q.dmabuf_preference ≡ prefer_vulkan → c.backend ≢ backend_egl
  pub egl_only : q.dmabuf_preference ≡ prefer_egl → c.backend ≢ backend_vulkan
  -- Nothing is chosen only if each candidate that may be used is unavailable.
  pub exhausted_vulkan :
      c.backend ≡ backend_none
      → q.dmabuf_preference ≢ prefer_egl
      → LacksDmabuf q ⊎ Unusable q feature_vulkan 2
  pub exhausted_egl :
      c.backend ≡ backend_none
      → q.dmabuf_preference ≢ prefer_vulkan
      → LacksDmabuf q ⊎ Unusable q feature_egl 4
  pub exhausted_rest :
      c.backend ≡ backend_none
      → q.zero_copy_mode ≡ auto
      → Unusable q feature_ahb 8 × Unusable q feature_surface 16 × Unusable q feature_memfd 32

-- A backend that is chosen is one of the five, its feature is there, with that of dma-bufs for
-- Vulkan and EGL, and its bit is not set in the rejected ones. In strict mode it has the dma-buf
-- transport; pixels are copied exactly by the byte backend; a preference for one dma-buf backend
-- excludes the other; and if none is chosen, each dma-buf backend that the preference admits lacks
-- a feature or was rejected, as in automatic mode each of the other three.
pub transport_policy_select-Justified :
    (q : Request) (c : Choice) → transport_policy_select q ≡ ok c → Justified q c
unfolding transport_policy_select select_fallback available
transport_policy_select-Justified q c h = ground arith

-- The answer is EBUSY exactly if the mode and the preference are in range, a backend was rejected,
-- and the previous session has submitted frames or is not closed.
transport_policy_select_busy :
    (q : Request)
    → (transport_policy_select q ≡ err ebusy) ↔ (
        ((q.zero_copy_mode ≡ strict) ⊎ (q.zero_copy_mode ≡ auto))
        × (q.dmabuf_preference ≤ prefer_egl)
        × (q.rejected_backends ≢ 0)
        × ((q.frames_submitted ≢ 0) ⊎ (q.previous_session_closed ≡ false)))
unfolding transport_policy_select select_fallback
transport_policy_select_busy q = ground arith
