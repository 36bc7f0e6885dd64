-- ===== src/H264/Config/Decoded.antt =====
-- The configuration against the elements that a parser reads from it.

use lin_de_x.Base.{
  length-append, if◌then◌else◌, ℕ, ◌+◌, ◌*◌, ◌-◌, ◌/◌, ◌%◌, ◌<◌, ◌≤◌, List, [], ◌∷◌, ◌++◌, length,
  ok, ◌≡◌, refl, arith, ◌&&◌, ◌||◌, ◌!=◌, ◌==◌, ltb, leb, Errno, Bool-cases, inl, inr, true, false,
  ◌^◌, leb,
}
use lin_de_x.H264.Bits.{Writer}
use lin_de_x.H264.Nal.{append_annexb_nal, reader_of, bytes_from, count_zero}
use lin_de_x.H264.Nal.Escape.{escape, append_loop-room}
use lin_de_x.H264.Syntax.{Element, AreElements, IsElement, IsSigned, read_elements}
use lin_de_x.H264.Syntax.RoundTrip.{elements_count}
use lin_de_x.H264.Config.{
  ParameterInput, validate_parameters, sps_elements, pps_elements, build_codec_config,
  order_elements, crop_elements, vui_elements, cropped_right, cropped_bottom, coded_width,
  coded_height, is_cropped, syntax_supported, restriction_supported,
}
use lin_de_x.H264.Config.Rbsp.{
  put_rbsp-RoundTrip, elements_count-short, AreElements-append, payload, length-bytes_from,
}

-- The fields fit their C types, and a flag is 0 or 1.
pub record IsInput (input : ParameterInput) : Type 0 where
  pub width : input.picture_width_in_mbs_minus1 < 2 ^ 16
  pub height : input.picture_height_in_mbs_minus1 < 2 ^ 16
  pub gaps : input.gaps_in_frame_num_value_allowed_flag < 2
  pub direct : input.direct_8x8_inference_flag < 2
  pub entropy : input.entropy_coding_mode_flag < 2
  pub weighted : input.weighted_pred_flag < 2
  pub constrained : input.constrained_intra_pred_flag < 2
  pub bottom : input.bottom_field_pic_order_in_frame_present_flag < 2
  pub deblocking : input.deblocking_filter_control_present_flag < 2
  pub redundant : input.redundant_pic_cnt_present_flag < 2
  pub restriction : input.vui_bitstream_restriction_flag < 2
  pub l0 : input.num_ref_idx_l0_default_active_minus1 < 2 ^ 8
  pub l1 : input.num_ref_idx_l1_default_active_minus1 < 2 ^ 8
  pub qp : IsSigned input.pic_init_qp_minus26
  pub qs : IsSigned input.pic_init_qs_minus26
  pub chroma : IsSigned input.chroma_qp_index_offset

-- A unit with its start code.
unfoldable pub unit : ℕ → List ℕ → List ℕ
unit nal_header bytes = 0 ∷ 0 ∷ 0 ∷ 1 ∷ nal_header ∷ escape 0 bytes

length-escape :
    (zero_count : ℕ) (bytes : List ℕ) → length (escape zero_count bytes) ≤ 2 * length bytes
unfolding escape
length-escape zero_count [] = omega arith
length-escape zero_count (byte ∷ rest) = elim (Bool-cases (leb 2 zero_count && leb byte 3)) [
  | inl e ↦ rw e (omega (arith, length-escape (count_zero 0 byte) rest))
  | inr e ↦ rw e (omega (arith, length-escape (count_zero zero_count byte) rest))
]

append_annexb_nal-room :
    (output : List ℕ) (nal_header : ℕ) (w : Writer)
    → w.bit_count % 8 ≡ 0
    → length output + 5 + 2 * (w.bit_count / 8) ≤ 1024
    → append_annexb_nal 1024 output nal_header w ≡ ok (output ++ unit nal_header (payload w))
unfolding append_annexb_nal unit payload
append_annexb_nal-room output nal_header w whole room =
    let aligned : (w.bit_count % 8 != 0) ≡ false = ground (arith, whole) in
    let fits : (ltb 1024 (length output) || ltb (1024 - length output) 5) ≡ false = ground arith in
    let count = length-bytes_from w.bytes 0 (w.bit_count / 8) in
    rw
      (
        aligned,
        fits,
        append_loop-room 1024 (length output + 5) 0 (bytes_from w.bytes 0 (w.bit_count / 8))
            (omega (arith, count)),
      )
      refl

-- The elements are read from the bytes, and the reader stops behind the last of them.
unfoldable pub IsReadFrom : List ℕ → List Element → Type 0
IsReadFrom bytes elements =
    read_elements elements (reader_of bytes)
    ≡ ok (elements, record (reader_of bytes) { bit_offset = elements_count elements })

-- The call succeeds with a configuration of two units, from which the parameters are read.
unfoldable pub IsDecodable : Errno → ParameterInput → ℕ → Type 0
IsDecodable errno input pps_id =
    (sps pps : List ℕ) × (build_codec_config errno input pps_id
      ≡ ok record { bytes = unit 103 sps ++ unit 104 pps; pps_id = pps_id })
    × IsReadFrom sps (sps_elements input)
    × IsReadFrom pps (pps_elements input pps_id)

module _ (input : ParameterInput) (valid : validate_parameters input ≡ ok tt)
    (h : IsInput input) where
  supported : syntax_supported input ≡ true
  unfolding validate_parameters
  supported = ground (arith, valid)

  profile-short : input.profile_idc < 2 ^ 8
  unfolding syntax_supported
  profile-short = ground (arith, supported)

  order-short : input.pic_order_cnt_type ≤ 2
  unfolding syntax_supported
  order-short = ground (arith, supported)

  frame-one : input.frame_mbs_only_flag ≡ 1
  unfolding syntax_supported
  frame-one = ground (arith, supported)

  bipred-short : input.weighted_bipred_idc ≤ 2
  unfolding syntax_supported
  bipred-short = ground (arith, supported)

  frame_num-short : input.log2_max_frame_num_minus4 ≤ 12
  unfolding syntax_supported
  frame_num-short = ground (arith, supported)

  lsb-short : input.log2_max_pic_order_cnt_lsb_minus4 ≤ 12
  unfolding syntax_supported
  lsb-short = ground (arith, supported)

  ref_frames-short : input.num_ref_frames ≤ 16
  unfolding syntax_supported
  ref_frames-short = ground (arith, supported)

  restricted : restriction_supported input ≡ true
  unfolding syntax_supported
  restricted = ground (arith, supported)

  reorder-short : input.max_num_reorder_frames ≤ 16
  unfolding restriction_supported
  reorder-short = ground (arith, restricted)

  buffering-short : input.max_dec_frame_buffering ≤ 16
  unfolding restriction_supported
  buffering-short = ground (arith, restricted)

  cropped_right-short : cropped_right input + 1 < 2 ^ 32
  unfolding cropped_right coded_width
  cropped_right-short = omega (arith, h.width)

  cropped_bottom-short : cropped_bottom input + 1 < 2 ^ 32
  unfolding cropped_bottom coded_height
  cropped_bottom-short = omega (arith, h.height)

  pps-AreElements : (pps_id : ℕ) → pps_id ≤ 255 → AreElements (pps_elements input pps_id)
  unfolding pps_elements AreElements IsElement
  pps-AreElements pps_id l = (
    omega (arith, l),
    (
      omega arith,
      (
        h.entropy,
        (
          h.bottom,
          (
            omega arith,
            (
              omega (arith, h.l0),
              (
                omega (arith, h.l1),
                (
                  h.weighted,
                  (
                    (omega (arith, bipred-short), omega arith),
                    (h.qp, (h.qs, (h.chroma, (h.deblocking, (h.constrained, (h.redundant, tt)))))),
                  ),
                ),
              ),
            ),
          ),
        ),
      ),
    ),
  )

  order-AreElements : AreElements (order_elements input)
  unfolding order_elements AreElements IsElement
  order-AreElements = elim (Bool-cases (input.pic_order_cnt_type == 0)) [
    | inl e ↦ rw e (omega (arith, lsb-short), tt)
    | inr e ↦ rw e tt
  ]

  crop-AreElements : AreElements (crop_elements input)
  unfolding crop_elements AreElements IsElement
  crop-AreElements = elim (Bool-cases (is_cropped input)) [
    | inl e ↦ rw e (omega arith, (cropped_right-short, (omega arith, (cropped_bottom-short, tt))))
    | inr e ↦ rw e tt
  ]

  vui-AreElements : AreElements (vui_elements input)
  unfolding vui_elements AreElements IsElement
  vui-AreElements = elim (Bool-cases (input.vui_bitstream_restriction_flag == 0)) [
    | inl e ↦ rw e tt
    | inr e ↦ rw e (
      omega arith,
      (
        omega arith,
        (
          omega arith,
          (
            omega arith,
            (
              omega arith,
              (
                omega arith,
                (
                  omega arith,
                  (
                    omega arith,
                    (
                      omega arith,
                      (
                        omega arith,
                        (
                          omega arith,
                          (
                            omega arith,
                            (
                              omega arith,
                              (
                                omega arith,
                                (
                                  omega (arith, reorder-short),
                                  (omega (arith, buffering-short), tt),
                                ),
                              ),
                            ),
                          ),
                        ),
                      ),
                    ),
                  ),
                ),
              ),
            ),
          ),
        ),
      ),
    )
  ]

  cropped-short : (if is_cropped input then 1 else 0) < 2
  cropped-short = ground arith

  constraint-short : (if input.profile_idc == 66 then 192 else 0) < 2 ^ 8
  constraint-short = ground arith

  sps-AreElements : AreElements (sps_elements input)
  unfolding sps_elements AreElements IsElement
  sps-AreElements = (
    (profile-short, omega arith),
    (
      (constraint-short, omega arith),
      (
        (omega arith, omega arith),
        (
          omega arith,
          (
            omega (arith, frame_num-short),
            (
              omega (arith, order-short),
              AreElements-append (order_elements input) _ order-AreElements (
                omega (arith, ref_frames-short),
                (
                  h.gaps,
                  (
                    omega (arith, h.width),
                    (
                      omega (arith, h.height),
                      (
                        omega (arith, frame-one),
                        (
                          h.direct,
                          (
                            cropped-short,
                            AreElements-append (crop_elements input) _ crop-AreElements
                                (h.restriction, vui-AreElements),
                          ),
                        ),
                      ),
                    ),
                  ),
                ),
              ),
            ),
          ),
        ),
      ),
    ),
  )

  pps-length : (pps_id : ℕ) → length (pps_elements input pps_id) ≤ 15
  unfolding pps_elements
  pps-length pps_id = omega arith

  order-length : length (order_elements input) ≤ 1
  unfolding order_elements
  order-length = ground arith

  crop-length : length (crop_elements input) ≤ 4
  unfolding crop_elements
  crop-length = ground arith

  vui-length : length (vui_elements input) ≤ 16
  unfolding vui_elements
  vui-length = ground arith

  sps-length : length (sps_elements input) ≤ 35
  unfolding sps_elements
  sps-length = omega (
    arith,
    length-append (order_elements input) _,
    length-append (crop_elements input) _,
    order-length,
    crop-length,
    vui-length,
  )

  -- For parameters that are validated, whose fields fit their types and whose flags are 0 or 1, and
  -- a picture parameter set id of at most 255, a configuration is built. It is two units with start
  -- codes and emulation prevention, and reading the syntax elements of each parameter set from the
  -- bytes of its unit gives back the values that were written and stops behind the last of them.
  pub build_codec_config-IsDecodable :
      (errno : Errno) (pps_id : ℕ) → pps_id ≤ 255 → IsDecodable errno input pps_id
  unfolding build_codec_config unit payload IsDecodable IsReadFrom
  build_codec_config-IsDecodable errno pps_id l =
      let sps_elems = sps-AreElements in
      let pps_elems = pps-AreElements pps_id l in
      let sps_count = elements_count-short (sps_elements input) sps_elems in
      let pps_count = elements_count-short (pps_elements input pps_id) pps_elems in
      let (sps, sps_put, sps_whole, sps_bits, sps_read) =
        put_rbsp-RoundTrip (sps_elements input) sps_elems (omega (arith, sps_count, sps-length)) in
      let (pps, pps_put, pps_whole, pps_bits, pps_read) =
        put_rbsp-RoundTrip (pps_elements input pps_id) pps_elems
          (omega (arith, pps_count, pps-length pps_id)) in
      let known : ltb 255 pps_id ≡ false = ground arith in
      let first =
        append_annexb_nal-room [] 103 sps sps_whole
          (omega (arith, sps_bits, sps_count, sps-length)) in
      let sps_bytes : length (payload sps) ≡ sps.bit_count / 8 =
        length-bytes_from sps.bytes 0 (sps.bit_count / 8) in
      let both = append_annexb_nal-room (unit 103 (payload sps)) 104 pps pps_whole (
        omega (
          arith,
          sps_bits,
          sps_count,
          sps-length,
          sps_bytes,
          length-escape 0 (payload sps),
          pps_bits,
          pps_count,
          pps-length pps_id,
        )) in
      (
        payload sps,
        payload pps,
        rw (known, valid, sps_put, pps_put, first, both) refl,
        sps_read,
        pps_read,
      )
