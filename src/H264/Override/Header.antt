-- ===== src/H264/Override/Header.antt =====
-- The parser of the override flag against the elements of the slice header.
use lin_de_x.Base.{
  ℕ, ◌+◌, ◌%◌, ltb, ◌==◌, ◌!=◌, ◌&&◌, ◌||◌, Bool, true, false, List, [], ◌∷◌, ◌++◌, if◌then◌else◌,
  Result, ok, ◌≡◌, refl, arith, ◌≤◌, Bool-cases, inl, inr, Result-cases, ◌∙◌,
}
use lin_de_x.H264.Bits.{Reader, Signed, read_bit, read_bits, read_ue, read_se}
use lin_de_x.H264.Nal.{init_slice_reader}
use lin_de_x.H264.Config.{ParameterInput}
use lin_de_x.H264.Syntax.{Element, flag, fixed, unsigned, signed, read_element, read_elements}
use lin_de_x.H264.Override.{
  ReferenceOverride, SliceHeader, override_supported, skip, skip_signed, skip_counts, read_override,
  parse_reference_override, present, header_elements,
}

-- A row that is read begins with its first element.
read_elements-cons :
    (e : Element) (es : List Element) (r last : Reader)
    → read_elements (e ∷ es) r ≡ ok (e ∷ es, last)
    → (next : Reader) × (read_element e r ≡ ok (e, next)) × (read_elements es next ≡ ok (es, last))
unfolding read_elements
read_elements-cons e es r last h = elim (Result-cases (read_element e r)) [
  | inl (failed, f) ↦ let g = rw f at h in absurd (ground (arith, g))
  | inr ((e', next), f) ↦ elim (Result-cases (read_elements es next)) [
    | inl (failed, m) ↦ let g = rw (f, m) at h in absurd (ground (arith, g))
    | inr ((es', after), m) ↦
        let g = rw (f, m) at h in
        let same : e' ≡ e = ground (arith, g) in
        let same_rest : es' ≡ es = ground (arith, g) in
        let end : after ≡ last = ground (arith, g) in
        (next, f ∙ rw same refl, m ∙ rw (same_rest, end) refl)
  ]
]

unsigned-read :
    (v : ℕ) (r next : Reader)
    → read_element (unsigned v) r ≡ ok (unsigned v, next)
    → read_ue r ≡ ok (v, next)
unfolding read_element
unsigned-read v r next h = elim (Result-cases (read_ue r)) [
  | inl (failed, f) ↦ let g = rw f at h in absurd (ground (arith, g))
  | inr ((v', after), f) ↦
      let g = rw f at h in
      let same : v' ≡ v = ground (arith, g) in
      let end : after ≡ next = ground (arith, g) in f ∙ rw (same, end) refl
]

fixed-read :
    (v count : ℕ) (r next : Reader)
    → read_element (fixed v count) r ≡ ok (fixed v count, next)
    → read_bits r count ≡ ok (v, next)
unfolding read_element
fixed-read v count r next h = elim (Result-cases (read_bits r count)) [
  | inl (failed, f) ↦ let g = rw f at h in absurd (ground (arith, g))
  | inr ((v', after), f) ↦
      let g = rw f at h in
      let same : v' ≡ v = ground (arith, g) in
      let end : after ≡ next = ground (arith, g) in f ∙ rw (same, end) refl
]

flag-read :
    (v : ℕ) (r next : Reader)
    → read_element (flag v) r ≡ ok (flag v, next)
    → read_bit r ≡ ok (v, next)
unfolding read_element
flag-read v r next h = elim (Result-cases (read_bit r)) [
  | inl (failed, f) ↦ let g = rw f at h in absurd (ground (arith, g))
  | inr ((v', after), f) ↦
      let g = rw f at h in
      let same : v' ≡ v = ground (arith, g) in
      let end : after ≡ next = ground (arith, g) in f ∙ rw (same, end) refl
]

signed-read :
    (v : Signed) (r next : Reader)
    → read_element (signed v) r ≡ ok (signed v, next)
    → read_se r ≡ ok (v, next)
unfolding read_element
signed-read v r next h = elim (Result-cases (read_se r)) [
  | inl (failed, f) ↦ let g = rw f at h in absurd (ground (arith, g))
  | inr ((v', after), f) ↦
      let g = rw f at h in
      let same : v' ≡ v = ground (arith, g) in
      let end : after ≡ next = ground (arith, g) in f ∙ rw (same, end) refl
]

-- An element that may be missing, before a row.
module _ (e : Element) (es : List Element) (r last : Reader)
    (skipped : Bool → Reader → Result Reader) (absent : skipped false r ≡ ok r)
    (there : (next : Reader) → read_element e r ≡ ok (e, next) → skipped true r ≡ ok next) where
  present-skip :
      (condition : Bool)
      → read_elements (present condition e ++ es) r ≡ ok (present condition e ++ es, last)
      → (next : Reader) × (skipped condition r ≡ ok next) × (read_elements es next ≡ ok (es, last))
  unfolding present
  present-skip true h =
      let (next, first, rest) = read_elements-cons e es r last h in (next, there next first, rest)
  present-skip false h = (r, absent, h)

module _ (parameters : ParameterInput) (header : SliceHeader) where
  abbrev both : Bool
  both =
      parameters.pic_order_cnt_type == 0
      && parameters.bottom_field_pic_order_in_frame_present_flag != 0

  abbrev redundant : Bool
  redundant = parameters.redundant_pic_cnt_present_flag != 0

  -- The elements between the frame number and the flags.
  abbrev counts : Bool → List Element → List Element
  counts is_idr es =
      present is_idr (unsigned header.idr_pic_id)
      ++ (present (parameters.pic_order_cnt_type == 0)
            (fixed header.pic_order_cnt_lsb (parameters.log2_max_pic_order_cnt_lsb_minus4 + 4))
          ++ (present both (signed header.delta_pic_order_cnt_bottom)
              ++ (present redundant (unsigned header.redundant_pic_cnt) ++ es)))

  unsigned-skip :
      (condition : Bool) (v : ℕ) (es : List Element) (r last : Reader)
      → read_elements (present condition (unsigned v) ++ es) r
        ≡ ok (present condition (unsigned v) ++ es, last)
      → (next : Reader) × (skip condition read_ue r ≡ ok next)
        × (read_elements es next ≡ ok (es, last))
  unfolding skip
  unsigned-skip condition v es r last h =
      present-skip (unsigned v) es r last (λ c. skip c read_ue) refl
        (λ next m. rw (unsigned-read v r next m) refl) condition h

  skip_counts-header :
      (is_idr : Bool) (es : List Element) (r last : Reader)
      → read_elements (counts is_idr es) r ≡ ok (counts is_idr es, last)
      → (next : Reader) × (skip_counts parameters is_idr r ≡ ok next)
        × (read_elements es next ≡ ok (es, last))
  unfolding skip_counts skip skip_signed
  skip_counts-header is_idr es r last h =
      let count = parameters.log2_max_pic_order_cnt_lsb_minus4 + 4 in
      let (a, a_skip, a_rest) = unsigned-skip is_idr header.idr_pic_id _ r last h in
      let (b, b_skip, b_rest) =
        present-skip (fixed header.pic_order_cnt_lsb count) _ a last
          (λ c. skip c (λ s. read_bits s count)) refl
          (λ next m. rw (fixed-read header.pic_order_cnt_lsb count a next m) refl)
          (parameters.pic_order_cnt_type == 0) a_rest in
      let (c, c_skip, c_rest) =
        present-skip (signed header.delta_pic_order_cnt_bottom) _ b last skip_signed refl
          (λ next m. rw (signed-read header.delta_pic_order_cnt_bottom b next m) refl) both
          b_rest in
      let (d, d_skip, d_rest) = unsigned-skip redundant header.redundant_pic_cnt es c last c_rest in
      (d, rw (a_skip, b_skip, c_skip, d_skip) refl, d_rest)

  abbrev pub type : ℕ
  type = header.slice_type % 5

  abbrev pub inter : Bool
  inter = type == 0 || type == 1 || type == 3

  -- The flag of a slice with reference lists is its header's.
  abbrev pub expected : ReferenceOverride
  expected = record {
    uses_reference_lists = inter;
    uses_list1 = type == 1;
    override_present = if inter then header.num_ref_idx_active_override_flag else 0;
  }

  abbrev flags : List Element
  flags =
      present (type == 1) (flag header.direct_spatial_mv_pred_flag)
      ++ present inter (flag header.num_ref_idx_active_override_flag)

  read_override-header :
      (r last : Reader)
      → read_elements flags r ≡ ok (flags, last)
      → read_override type r ≡ ok expected
  unfolding read_override skip present
  read_override-header r last h =
      let (a, a_skip, a_rest) =
        present-skip (flag header.direct_spatial_mv_pred_flag)
          (present inter (flag header.num_ref_idx_active_override_flag)) r last
          (λ c. skip c read_bit) refl
          (λ next m. rw (flag-read header.direct_spatial_mv_pred_flag r next m) refl) (type == 1)
          h in
      elim (Bool-cases inter) [
        | inl i ↦
            let (b, b_read, _) =
              read_elements-cons (flag header.num_ref_idx_active_override_flag) [] a last
                (rw i at a_rest) in
            let bit = flag-read header.num_ref_idx_active_override_flag a b b_read in
            rw (a_skip, i, bit) refl
        | inr i ↦ let other : (type == 1) ≡ false = ground (arith, i) in rw (a_skip, i, other) refl
      ]

-- If the parameters are supported, the slice's type is at most 9, and the elements of a slice
-- header, as the standard orders them under these parameters, are read from the slice's bytes, then
-- the answer is the header's override flag, and the lists that its type uses: every field that
-- stands in the header is passed over, and no other.
pub parse_reference_override-Header :
    (input : List ℕ) (parameters : ParameterInput) (header : SliceHeader) (nal_header : ℕ)
    (r last : Reader)
    → override_supported parameters ≡ true
    → header.slice_type ≤ 9
    → init_slice_reader input ≡ ok (nal_header, r)
    → read_elements (header_elements parameters (nal_header % 32 == 5) header) r
      ≡ ok (header_elements parameters (nal_header % 32 == 5) header, last)
    → parse_reference_override input parameters ≡ ok (expected parameters header)
unfolding parse_reference_override header_elements
parse_reference_override-Header input parameters header nal_header r last supported l begun h =
    let is_idr = nal_header % 32 == 5 in
    let (a, a_read, a_rest) = read_elements-cons (unsigned header.first_mb_in_slice) _ r last h in
    let (b, b_read, b_rest) = read_elements-cons (unsigned header.slice_type) _ a last a_rest in
    let (c, c_read, c_rest) = read_elements-cons (unsigned header.pps_id) _ b last b_rest in
    let (d, d_read, d_rest) =
      read_elements-cons (fixed header.frame_num (parameters.log2_max_frame_num_minus4 + 4)) _ c
        last c_rest in
    let (e, e_skip, e_rest) =
      skip_counts-header parameters header is_idr (flags parameters header) d last d_rest in
    let known : ltb 9 header.slice_type ≡ false = ground (arith, l) in
    rw
      (
        supported,
        begun,
        unsigned-read header.first_mb_in_slice r a a_read,
        unsigned-read header.slice_type a b b_read,
        known,
        unsigned-read header.pps_id b c c_read,
        fixed-read header.frame_num (parameters.log2_max_frame_num_minus4 + 4) c d d_read,
        e_skip,
      )
      (read_override-header parameters header e last e_rest)
