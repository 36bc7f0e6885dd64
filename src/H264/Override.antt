-- ===== src/H264/Override.antt =====
-- `advc_h264_parse_reference_override` of src/vaapi_advc/advc_h264_annexb.c, against the slice header
-- that it walks.
pub mod Header
use lin_de_x.Base.{
  ℕ, ◌+◌, ◌%◌, ltb, leb, ◌==◌, ◌!=◌, ◌&&◌, ◌||◌, not, Bool, true, false, List, [], ◌∷◌, ◌++◌,
  if◌then◌else◌, Result, ok, err, ◌>>=◌, enotsup, ◌≡◌, refl, arith,
}
use lin_de_x.H264.Bits.{Reader, Signed, read_bit, read_bits, read_ue, read_se}
use lin_de_x.H264.Nal.{init_slice_reader}
use lin_de_x.H264.Config.{ParameterInput}
use lin_de_x.H264.Syntax.{Element, flag, fixed, unsigned, signed, read_element, read_elements}

pub record ReferenceOverride : Type 0 where
  pub uses_reference_lists : Bool
  pub uses_list1 : Bool
  pub override_present : ℕ

unfoldable pub override_supported : ParameterInput → Bool
override_supported parameters =
    parameters.frame_mbs_only_flag == 1
    && parameters.field_pic_flag == 0
    && (parameters.pic_order_cnt_type == 0 || parameters.pic_order_cnt_type == 2)
    && leb parameters.log2_max_frame_num_minus4 12
    && leb parameters.log2_max_pic_order_cnt_lsb_minus4 12

-- A read under a condition whose value is not used.
unfoldable pub skip : Bool → (Reader → Result (ℕ × Reader)) → Reader → Result Reader
skip condition read r = if condition then (read r >>= λ (p : ℕ × Reader). ok p.1) else ok r

unfoldable pub skip_signed : Bool → Reader → Result Reader
skip_signed condition r =
    if condition then (read_se r >>= λ (p : Signed × Reader). ok p.1) else ok r

-- The order count and the redundant count, up to the flags of the reference lists.
unfoldable pub skip_counts : ParameterInput → Bool → Reader → Result Reader
skip_counts parameters is_idr r =
    let ordered = parameters.pic_order_cnt_type == 0 in
    let both = ordered && parameters.bottom_field_pic_order_in_frame_present_flag != 0 in
    let order_bits =
      λ (s : Reader). read_bits s (parameters.log2_max_pic_order_cnt_lsb_minus4 + 4) in
    skip is_idr read_ue r
    >>= skip ordered order_bits
    >>= skip_signed both
    >>= skip (parameters.redundant_pic_cnt_present_flag != 0) read_ue

-- What the type of the slice says of its reference lists.
unfoldable pub read_override : ℕ → Reader → Result ReferenceOverride
read_override type r =
    let inter = type == 0 || type == 1 || type == 3 in
    skip (type == 1) read_bit r >>= λ (s : Reader).
    if inter
    then (read_bit s >>= λ (p : ℕ × Reader).
        ok record { uses_reference_lists = true; uses_list1 = type == 1; override_present = p.0 })
    else ok record { uses_reference_lists = false; uses_list1 = false; override_present = 0 }

unfoldable pub parse_reference_override : List ℕ → ParameterInput → Result ReferenceOverride
parse_reference_override input parameters =
    if not (override_supported parameters)
    then err enotsup
    else (init_slice_reader input >>= λ (h : ℕ × Reader). read_ue h.1 >>= λ (first_mb : ℕ × Reader).
        read_ue first_mb.1 >>= λ (slice_type : ℕ × Reader).
        read_ue slice_type.1 >>= λ (pps_id : ℕ × Reader).
        if ltb 9 slice_type.0
        then err enotsup
        else (read_bits pps_id.1 (parameters.log2_max_frame_num_minus4 + 4)
            >>= λ (frame_num : ℕ × Reader).
                skip_counts parameters (h.0 % 32 == 5) frame_num.1
                >>= read_override (slice_type.0 % 5)))

-- The fields of a slice header up to the override flag.
pub record SliceHeader : Type 0 where
  pub first_mb_in_slice : ℕ
  pub slice_type : ℕ
  pub pps_id : ℕ
  pub frame_num : ℕ
  pub idr_pic_id : ℕ
  pub pic_order_cnt_lsb : ℕ
  pub delta_pic_order_cnt_bottom : Signed
  pub redundant_pic_cnt : ℕ
  pub direct_spatial_mv_pred_flag : ℕ
  pub num_ref_idx_active_override_flag : ℕ

-- The element if the condition holds.
unfoldable pub present : Bool → Element → List Element
present condition element = if condition then element ∷ [] else []

-- The syntax of the header of a progressive picture, as the standard orders it.
unfoldable pub header_elements : ParameterInput → Bool → SliceHeader → List Element
header_elements parameters is_idr header =
    let ordered = parameters.pic_order_cnt_type == 0 in
    let both = ordered && parameters.bottom_field_pic_order_in_frame_present_flag != 0 in
    let type = header.slice_type % 5 in
    unsigned header.first_mb_in_slice
    ∷ unsigned header.slice_type
    ∷ unsigned header.pps_id
    ∷ fixed header.frame_num (parameters.log2_max_frame_num_minus4 + 4)
    ∷ (present is_idr (unsigned header.idr_pic_id)
        ++ (present ordered
              (fixed header.pic_order_cnt_lsb (parameters.log2_max_pic_order_cnt_lsb_minus4 + 4))
            ++ (present both (signed header.delta_pic_order_cnt_bottom)
                ++ (present (parameters.redundant_pic_cnt_present_flag != 0)
                      (unsigned header.redundant_pic_cnt)
                    ++ (present (type == 1) (flag header.direct_spatial_mv_pred_flag)
                        ++ present (type == 0 || type == 1 || type == 3)
                            (flag header.num_ref_idx_active_override_flag))))))
