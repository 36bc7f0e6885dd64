-- ===== src/H264/Examples.antt =====
-- One picture of 64 by 48 pixels and its slices.
use lin_de_x.Base.{
  ℕ, List, [], ◌∷◌, ◌≡◌, ◌<◌, ◌≤◌, Bool, true, false, refl, arith, ok, os, All, length,
}
use lin_de_x.Session.Create.{max_input_bytes}
use lin_de_x.H264.Bits.{Signed, Reader, read_ue, read_bit, read_bits, read_loop, read_zeroes}
use lin_de_x.H264.Syntax.{read_elements, read_element, IsSigned}
use lin_de_x.H264.Nal.{
  append_loop, unescape, count_zero, emit, init_slice_reader, init_payload, annexb_prefix_size,
  drop_bytes, array_of, reader_of, parse_slice_identity,
}
use lin_de_x.H264.Nal.Escape.{unescape-append_loop, append_loop-apart}
use lin_de_x.H264.Config.{
  ParameterInput, validate_parameters, syntax_supported, restriction_supported, same_signed,
  visible_inside, coded_width, coded_height,
}
use lin_de_x.H264.Config.Decoded.{IsInput, IsDecodable, build_codec_config-IsDecodable}
use lin_de_x.H264.AccessUnit.{
  SliceInput, AccessUnit, build_access_unit, check_slices, check_slice, join_slices, slice_unit,
  is_expected,
}
use lin_de_x.H264.AccessUnit.Joined.{IsChecked, build_access_unit-Checked}
use lin_de_x.H264.Override.{
  SliceHeader, override_supported, parse_reference_override, header_elements, present,
}
use lin_de_x.H264.Override.Header.{expected, parse_reference_override-Header}

abbrev nought : Signed
nought = record { negative = false; magnitude = 0 }

abbrev sample : ParameterInput
sample = record {
  profile_idc = 77;
  visible_width = 62;
  visible_height = 48;
  picture_width_in_mbs_minus1 = 3;
  picture_height_in_mbs_minus1 = 2;
  bit_depth_luma_minus8 = 0;
  bit_depth_chroma_minus8 = 0;
  chroma_format_idc = 1;
  separate_colour_plane_flag = 0;
  gaps_in_frame_num_value_allowed_flag = 0;
  frame_mbs_only_flag = 1;
  mb_adaptive_frame_field_flag = 0;
  direct_8x8_inference_flag = 1;
  log2_max_frame_num_minus4 = 0;
  pic_order_cnt_type = 2;
  log2_max_pic_order_cnt_lsb_minus4 = 0;
  delta_pic_order_always_zero_flag = 0;
  num_ref_frames = 1;
  vui_bitstream_restriction_flag = 1;
  max_num_reorder_frames = 0;
  max_dec_frame_buffering = 1;
  pic_init_qp_minus26 = record { negative = true; magnitude = 6 };
  pic_init_qs_minus26 = nought;
  chroma_qp_index_offset = nought;
  second_chroma_qp_index_offset = nought;
  entropy_coding_mode_flag = 1;
  weighted_pred_flag = 0;
  weighted_bipred_idc = 0;
  transform_8x8_mode_flag = 0;
  field_pic_flag = 0;
  constrained_intra_pred_flag = 0;
  bottom_field_pic_order_in_frame_present_flag = 0;
  deblocking_filter_control_present_flag = 1;
  redundant_pic_cnt_present_flag = 0;
  num_ref_idx_l0_default_active_minus1 = 0;
  num_ref_idx_l1_default_active_minus1 = 0;
}

sample-valid : validate_parameters sample ≡ ok tt
unfolding validate_parameters syntax_supported restriction_supported same_signed visible_inside
    coded_width coded_height
sample-valid = refl

sample-IsInput : IsInput sample
unfolding IsSigned
sample-IsInput = ground arith

build_codec_config-IsDecodable_example : IsDecodable (os 0) sample 0
build_codec_config-IsDecodable_example =
    build_codec_config-IsDecodable sample sample-valid sample-IsInput (os 0) 0 (omega arith)

escaped : append_loop 1024 5 0 (0 ∷ 0 ∷ 1 ∷ []) ≡ ok (0 ∷ 0 ∷ 3 ∷ 1 ∷ [])
unfolding append_loop emit count_zero
escaped = refl

unescape-append_loop_example : unescape 128 0 (0 ∷ 0 ∷ 3 ∷ 1 ∷ []) ≡ 0 ∷ 0 ∷ 1 ∷ []
unescape-append_loop_example =
    unescape-append_loop 1024 5 128 (0 ∷ 0 ∷ 1 ∷ []) (0 ∷ 0 ∷ 3 ∷ 1 ∷ []) (omega arith) escaped

append_loop-apart_example : 2 < 3
append_loop-apart_example = append_loop-apart 1024 5 (0 ∷ 0 ∷ 1 ∷ []) [] (1 ∷ []) 3 escaped

-- An IDR slice of macroblock 0, type 7 and parameter set 0.
abbrev idr_slice : SliceInput
idr_slice = record {
  bytes = 0 ∷ 0 ∷ 1 ∷ 101 ∷ 136 ∷ 128 ∷ [];
  expected_first_mb_in_slice = 0;
  expected_slice_type = 2;
}

abbrev unit : AccessUnit
unit = record { bytes = 0 ∷ 0 ∷ 0 ∷ 1 ∷ 101 ∷ 136 ∷ 128 ∷ []; pps_id = 0; is_idr = true }

abbrev has_memory : ℕ → Bool
has_memory n = true

unit-built : build_access_unit has_memory (os 0) (idr_slice ∷ []) ≡ ok unit
unfolding build_access_unit check_slices check_slice parse_slice_identity init_slice_reader
    init_payload annexb_prefix_size drop_bytes unescape count_zero reader_of array_of read_ue
    read_zeroes read_loop read_bit is_expected join_slices slice_unit
unit-built = refl

build_access_unit-Checked_example :
    (1 ≤ length (idr_slice ∷ []))
    × (length (idr_slice ∷ []) ≤ 256)
    × (unit.bytes ≡ join_slices (idr_slice ∷ []))
    × (has_memory (length unit.bytes) ≡ true)
    × (length unit.bytes ≤ max_input_bytes)
    × All (IsChecked unit.pps_id) (idr_slice ∷ [])
build_access_unit-Checked_example =
    build_access_unit-Checked has_memory (os 0) (idr_slice ∷ []) unit unit-built

-- A P slice with frame number 1 and the override flag set.
abbrev inter_header : SliceHeader
inter_header = record {
  first_mb_in_slice = 0;
  slice_type = 0;
  pps_id = 0;
  frame_num = 1;
  idr_pic_id = 0;
  pic_order_cnt_lsb = 0;
  delta_pic_order_cnt_bottom = nought;
  redundant_pic_cnt = 0;
  direct_spatial_mv_pred_flag = 0;
  num_ref_idx_active_override_flag = 1;
}

abbrev inter_slice : List ℕ
inter_slice = 0 ∷ 0 ∷ 1 ∷ 65 ∷ 227 ∷ 128 ∷ []

abbrev inter_reader : ℕ → Reader
inter_reader n = record { bytes = array_of (227 ∷ 128 ∷ []); size = 2; bit_offset = n }

inter-begun : init_slice_reader inter_slice ≡ ok (65, inter_reader 0)
unfolding init_slice_reader init_payload annexb_prefix_size drop_bytes unescape count_zero reader_of
inter-begun = refl

inter-read :
    read_elements (header_elements sample false inter_header) (inter_reader 0)
    ≡ ok (header_elements sample false inter_header, inter_reader 8)
unfolding read_elements header_elements read_element read_ue read_bits read_zeroes read_loop
    read_bit present array_of
inter-read = refl

inter-supported : override_supported sample ≡ true
unfolding override_supported
inter-supported = refl

parse_reference_override-Header_example :
    parse_reference_override inter_slice sample ≡ ok (expected sample inter_header)
parse_reference_override-Header_example =
    parse_reference_override-Header inter_slice sample inter_header 65 (inter_reader 0)
      (inter_reader 8) inter-supported (omega arith) inter-begun inter-read
