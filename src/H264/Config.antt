-- ===== src/H264/Config.antt =====
-- `validate_parameters` and `advc_h264_build_codec_config` of src/vaapi_advc/advc_h264_annexb.c: a
-- sequence parameter set and a picture parameter set for the decoder.
pub mod Rbsp
pub mod Decoded
use lin_de_x.Base.{
  ℕ, ◌+◌, ◌*◌, ◌-◌, ◌/◌, ◌%◌, ltb, leb, ◌==◌, ◌!=◌, ◌&&◌, ◌||◌, not, Bool, true, false, List, [],
  ◌∷◌, ◌++◌, if◌then◌else◌, Result, ok, err, ◌>>=◌, ◌>>◌, guard, Errno, einval, enotsup,
}
use lin_de_x.Protocol.Wire.{zeroes}
use lin_de_x.H264.Bits.{Writer, Signed, max_config_bytes, finish_rbsp}
use lin_de_x.H264.Syntax.{Element, flag, fixed, unsigned, signed, put_elements}
use lin_de_x.H264.Nal.{append_annexb_nal}

pub record ParameterInput : Type 0 where
  pub profile_idc : ℕ
  pub visible_width : ℕ
  pub visible_height : ℕ
  pub picture_width_in_mbs_minus1 : ℕ
  pub picture_height_in_mbs_minus1 : ℕ
  pub bit_depth_luma_minus8 : ℕ
  pub bit_depth_chroma_minus8 : ℕ
  pub chroma_format_idc : ℕ
  pub separate_colour_plane_flag : ℕ
  pub gaps_in_frame_num_value_allowed_flag : ℕ
  pub frame_mbs_only_flag : ℕ
  pub mb_adaptive_frame_field_flag : ℕ
  pub direct_8x8_inference_flag : ℕ
  pub log2_max_frame_num_minus4 : ℕ
  pub pic_order_cnt_type : ℕ
  pub log2_max_pic_order_cnt_lsb_minus4 : ℕ
  pub delta_pic_order_always_zero_flag : ℕ
  pub num_ref_frames : ℕ
  pub vui_bitstream_restriction_flag : ℕ
  pub max_num_reorder_frames : ℕ
  pub max_dec_frame_buffering : ℕ
  pub pic_init_qp_minus26 : Signed
  pub pic_init_qs_minus26 : Signed
  pub chroma_qp_index_offset : Signed
  pub second_chroma_qp_index_offset : Signed
  pub entropy_coding_mode_flag : ℕ
  pub weighted_pred_flag : ℕ
  pub weighted_bipred_idc : ℕ
  pub transform_8x8_mode_flag : ℕ
  pub field_pic_flag : ℕ
  pub constrained_intra_pred_flag : ℕ
  pub bottom_field_pic_order_in_frame_present_flag : ℕ
  pub deblocking_filter_control_present_flag : ℕ
  pub redundant_pic_cnt_present_flag : ℕ
  pub num_ref_idx_l0_default_active_minus1 : ℕ
  pub num_ref_idx_l1_default_active_minus1 : ℕ

pub record CodecConfig : Type 0 where
  pub bytes : List ℕ
  pub pps_id : ℕ

unfoldable pub same_signed : Signed → Signed → Bool
same_signed a b = a.magnitude == b.magnitude && (if a.negative then b.negative else not b.negative)

unfoldable pub coded_width : ParameterInput → ℕ
coded_width input = (input.picture_width_in_mbs_minus1 + 1) * 16

unfoldable pub coded_height : ParameterInput → ℕ
coded_height input = (input.picture_height_in_mbs_minus1 + 1) * 16

-- The restriction of the decoder's reordering is given in full or not at all.
unfoldable pub restriction_supported : ParameterInput → Bool
restriction_supported input =
    if input.vui_bitstream_restriction_flag == 0
    then input.max_num_reorder_frames == 0 && input.max_dec_frame_buffering == 0
    else leb input.max_dec_frame_buffering 16
      && leb input.max_num_reorder_frames input.max_dec_frame_buffering
      && leb input.num_ref_frames input.max_dec_frame_buffering

unfoldable pub syntax_supported : ParameterInput → Bool
syntax_supported input =
    (input.profile_idc == 66 || input.profile_idc == 77)
    && input.bit_depth_luma_minus8 == 0
    && input.bit_depth_chroma_minus8 == 0
    && input.chroma_format_idc == 1
    && input.separate_colour_plane_flag == 0
    && input.frame_mbs_only_flag == 1
    && input.mb_adaptive_frame_field_flag == 0
    && input.field_pic_flag == 0
    && (input.pic_order_cnt_type == 0 || input.pic_order_cnt_type == 2)
    && input.transform_8x8_mode_flag == 0
    && same_signed input.second_chroma_qp_index_offset input.chroma_qp_index_offset
    && leb input.weighted_bipred_idc 2
    && leb input.log2_max_frame_num_minus4 12
    && leb input.log2_max_pic_order_cnt_lsb_minus4 12
    && leb input.num_ref_frames 16
    && restriction_supported input

unfoldable pub visible_inside : ℕ → ℕ → Bool
visible_inside visible coded = leb visible coded && (coded - visible) % 2 == 0

unfoldable pub validate_parameters : ParameterInput → Result (Unit {0})
validate_parameters input =
    if input.visible_width == 0
      || input.visible_height == 0
      || ltb 8192 input.visible_width
      || ltb 8192 input.visible_height
    then err einval
    else if not (syntax_supported input)
    then err enotsup
    else guard
        (visible_inside input.visible_width (coded_width input)
          && visible_inside input.visible_height (coded_height input))
        enotsup

unfoldable pub cropped_right : ParameterInput → ℕ
cropped_right input = (coded_width input - input.visible_width) / 2

unfoldable pub cropped_bottom : ParameterInput → ℕ
cropped_bottom input = (coded_height input - input.visible_height) / 2

unfoldable pub is_cropped : ParameterInput → Bool
is_cropped input = cropped_right input != 0 || cropped_bottom input != 0

unfoldable pub order_elements : ParameterInput → List Element
order_elements input =
    if input.pic_order_cnt_type == 0
    then unsigned input.log2_max_pic_order_cnt_lsb_minus4 ∷ []
    else []

unfoldable pub crop_elements : ParameterInput → List Element
crop_elements input =
    if is_cropped input
    then (unsigned 0
        ∷ unsigned (cropped_right input)
        ∷ unsigned 0
        ∷ unsigned (cropped_bottom input)
        ∷ [])
    else []

unfoldable pub vui_elements : ParameterInput → List Element
vui_elements input =
    if input.vui_bitstream_restriction_flag == 0
    then []
    else (flag 0
        ∷ flag 0
        ∷ flag 0
        ∷ flag 0
        ∷ flag 0
        ∷ flag 0
        ∷ flag 0
        ∷ flag 0
        ∷ flag 1
        ∷ flag 1
        ∷ unsigned 2
        ∷ unsigned 1
        ∷ unsigned 16
        ∷ unsigned 16
        ∷ unsigned input.max_num_reorder_frames
        ∷ unsigned input.max_dec_frame_buffering
        ∷ [])

-- The sequence parameter set in the order in which it is written.
unfoldable pub sps_elements : ParameterInput → List Element
sps_elements input =
    fixed input.profile_idc 8
    ∷ fixed (if input.profile_idc == 66 then 192 else 0) 8
    ∷ fixed 51 8
    ∷ unsigned 0
    ∷ unsigned input.log2_max_frame_num_minus4
    ∷ unsigned input.pic_order_cnt_type
    ∷ (order_elements input
        ++ (unsigned input.num_ref_frames
            ∷ flag input.gaps_in_frame_num_value_allowed_flag
            ∷ unsigned input.picture_width_in_mbs_minus1
            ∷ unsigned input.picture_height_in_mbs_minus1
            ∷ flag input.frame_mbs_only_flag
            ∷ flag input.direct_8x8_inference_flag
            ∷ flag (if is_cropped input then 1 else 0)
            ∷ (crop_elements input
                ++ (flag input.vui_bitstream_restriction_flag ∷ vui_elements input))))

unfoldable pub pps_elements : ParameterInput → ℕ → List Element
pps_elements input pps_id =
    unsigned pps_id
    ∷ unsigned 0
    ∷ flag input.entropy_coding_mode_flag
    ∷ flag input.bottom_field_pic_order_in_frame_present_flag
    ∷ unsigned 0
    ∷ unsigned input.num_ref_idx_l0_default_active_minus1
    ∷ unsigned input.num_ref_idx_l1_default_active_minus1
    ∷ flag input.weighted_pred_flag
    ∷ fixed input.weighted_bipred_idc 2
    ∷ signed input.pic_init_qp_minus26
    ∷ signed input.pic_init_qs_minus26
    ∷ signed input.chroma_qp_index_offset
    ∷ flag input.deblocking_filter_control_present_flag
    ∷ flag input.constrained_intra_pred_flag
    ∷ flag input.redundant_pic_cnt_present_flag
    ∷ []

abbrev pub empty_writer : Writer
empty_writer = record { bytes = zeroes; bit_count = 0 }

unfoldable pub put_rbsp : List Element → Result Writer
put_rbsp elements = put_elements empty_writer elements >>= finish_rbsp

-- An identifier that is refused leaves errno as it is.
unfoldable pub build_codec_config : Errno → ParameterInput → ℕ → Result CodecConfig
build_codec_config errno input pps_id =
    if ltb 255 pps_id
    then err errno
    else (validate_parameters input >>= λ (_ : Unit {0}). put_rbsp (sps_elements input) >>= λ sps.
        put_rbsp (pps_elements input pps_id) >>= λ pps.
        append_annexb_nal max_config_bytes [] 103 sps >>= λ first.
        append_annexb_nal max_config_bytes first 104 pps >>= λ bytes.
        ok record { bytes = bytes; pps_id = pps_id })
