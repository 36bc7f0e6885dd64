-- ===== src/H264/AccessUnit.antt =====
-- `advc_h264_build_access_unit` and `advc_h264_prepend_codec_config` of
-- src/vaapi_advc/advc_h264_annexb.c. Memory for the output is had or not, as `malloc` says.
pub mod Joined
use lin_de_x.Base.{
  ℕ, zero, suc, ◌+◌, ◌-◌, ◌%◌, ltb, leb, ◌==◌, ◌!=◌, ◌&&◌, ◌||◌, not, Bool, true, false, List, [],
  ◌∷◌, ◌++◌, length, if◌then◌else◌, Result, ok, err, ◌>>=◌, Errno, os, einval, eproto, enotsup,
  eoverflow, enomem,
}
use lin_de_x.H264.Bits.{max_config_bytes}
use lin_de_x.H264.Nal.{annexb_prefix_size, drop_bytes, SliceIdentity, parse_slice_identity}
use lin_de_x.H264.Config.{CodecConfig}
use lin_de_x.Session.Create.{max_input_bytes}

-- ADVC_H264_MAX_SLICES
abbrev pub max_slices : ℕ
max_slices = 256

pub record SliceInput : Type 0 where
  pub bytes : List ℕ
  pub expected_first_mb_in_slice : ℕ
  pub expected_slice_type : ℕ

-- What the checks of the slices have found: the size, the common identifier and whether one is an IDR
-- slice.
pub record Found : Type 0 where
  pub output_size : ℕ
  pub common_pps : ℕ
  pub any_idr : Bool

pub record AccessUnit : Type 0 where
  pub bytes : List ℕ
  pub pps_id : ℕ
  pub is_idr : Bool

-- errno is 0.
unfoldable pub is_clear : Errno → Bool
is_clear (os n) = n == 0
is_clear _ = false

-- A slice that is not the expected one leaves an errno that is set as it is.
unfoldable pub mismatch : Errno → Errno
mismatch errno = if is_clear errno then eproto else errno

-- The bytes of a slice behind its start code.
unfoldable pub slice_unit : SliceInput → List ℕ
slice_unit slice = drop_bytes (annexb_prefix_size slice.bytes) slice.bytes

unfoldable pub is_expected : SliceInput → SliceIdentity → Bool
is_expected slice parsed =
    parsed.first_mb_in_slice == slice.expected_first_mb_in_slice
    && parsed.slice_type % 5 == slice.expected_slice_type % 5

-- What one round of the first loop adds; the first slice's identifier is the common one.
unfoldable pub check_slice : Errno → Bool → Found → SliceInput → Result Found
check_slice errno first found slice = parse_slice_identity slice.bytes >>= λ parsed.
    let size = length slice.bytes - annexb_prefix_size slice.bytes in
    if not (is_expected slice parsed)
    then err (mismatch errno)
    else if not first && parsed.pps_id != found.common_pps
    then err enotsup
    else if ltb (max_input_bytes - 4) found.output_size
        || ltb (max_input_bytes - found.output_size - 4) size
    then err eoverflow
    else ok record {
      output_size = found.output_size + 4 + size;
      common_pps = if first then parsed.pps_id else found.common_pps;
      any_idr = found.any_idr || parsed.is_idr;
    }

unfoldable pub check_slices : Errno → Bool → Found → List SliceInput → Result Found
check_slices errno first found [] = ok found
check_slices errno first found (slice ∷ slices) =
    check_slice errno first found slice >>= λ next. check_slices errno false next slices

-- The second loop.
unfoldable pub join_slices : List SliceInput → List ℕ
join_slices [] = []
join_slices (slice ∷ slices) = 0 ∷ 0 ∷ 0 ∷ 1 ∷ (slice_unit slice ++ join_slices slices)

unfoldable pub build_access_unit : (ℕ → Bool) → Errno → List SliceInput → Result AccessUnit
build_access_unit malloc errno slices =
    if length slices == 0 || ltb max_slices (length slices)
    then err einval
    else (check_slices errno true (record { output_size = 0; common_pps = 0; any_idr = false })
          slices
        >>= λ found.
            if not (malloc found.output_size)
            then err enomem
            else ok record {
              bytes = join_slices slices;
              pps_id = found.common_pps;
              is_idr = found.any_idr;
            })

-- The unit with the configuration before it.
unfoldable pub prepend_codec_config : (ℕ → Bool) → CodecConfig → List ℕ → Result (List ℕ)
prepend_codec_config malloc config unit =
    let size = length config.bytes in
    if size == 0 || ltb max_config_bytes size || length unit == 0
    then err einval
    else if ltb max_input_bytes size || ltb (max_input_bytes - size) (length unit)
    then err eoverflow
    else if not (malloc (size + length unit))
    then err enomem
    else ok (config.bytes ++ unit)
