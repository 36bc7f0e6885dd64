-- ===== src/H264/AccessUnit/Joined.antt =====
-- What is allocated, what is written and what is checked of an access unit.
use lin_de_x.Base.{
  length-append, ℕ, zero, suc, ◌+◌, ◌-◌, ◌%◌, ◌≤◌, Bool, true, false, List, [], ◌∷◌, length, ok,
  ◌≡◌, refl, arith, Result-cases, inl, inr, Errno, All, sym, ◌∙◌, subst, ap,
}
use lin_de_x.H264.Nal.{annexb_prefix_size, drop_bytes, SliceIdentity, parse_slice_identity}
use lin_de_x.H264.AccessUnit.{
  SliceInput, Found, AccessUnit, slice_unit, is_expected, check_slice, check_slices, join_slices,
  build_access_unit, max_input_bytes,
}

length-drop_bytes : (n : ℕ) (input : List ℕ) → length (drop_bytes n input) ≡ length input - n
unfolding drop_bytes
length-drop_bytes zero input = omega arith
length-drop_bytes (suc n) [] = omega arith
length-drop_bytes (suc n) (b ∷ input) = omega (arith, length-drop_bytes n input)

-- The slice was parsed to what the caller said it is, in the common parameter set.
unfoldable pub IsChecked : ℕ → SliceInput → Type 0
IsChecked pps_id slice =
    (parsed : SliceIdentity) × (parse_slice_identity slice.bytes ≡ ok parsed)
    × (parsed.pps_id ≡ pps_id)
    × (parsed.first_mb_in_slice ≡ slice.expected_first_mb_in_slice)
    × (parsed.slice_type % 5 ≡ slice.expected_slice_type % 5)

module _ (errno : Errno) where
  -- What a round that succeeds has checked and counted.
  check_slice-Checked :
      (first : Bool) (found : Found) (slice : SliceInput) (next : Found)
      → check_slice errno first found slice ≡ ok next
      → IsChecked next.common_pps slice
        × (next.output_size ≡ found.output_size + 4 + length (slice_unit slice))
        × (next.output_size ≤ max_input_bytes)
        × (first ≡ false → next.common_pps ≡ found.common_pps)
  unfolding check_slice IsChecked slice_unit is_expected
  check_slice-Checked first found slice next e =
      elim (Result-cases (parse_slice_identity slice.bytes)) [
        | inl (failed, f) ↦ let g = rw f at e in absurd (ground (arith, g))
        | inr (parsed, f) ↦
            let g = rw f at e in
            let size = length-drop_bytes (annexb_prefix_size slice.bytes) slice.bytes in
            (
              (parsed, f, ground (arith, g), ground (arith, g), ground (arith, g)),
              ground (arith, g, size),
              ground (arith, g),
              λ h. ground (arith, g, h),
            )
      ]

  -- The loop from its second slice on.
  check_slices-Checked :
      (found : Found) (slices : List SliceInput) (last : Found)
      → found.output_size ≤ max_input_bytes
      → check_slices errno false found slices ≡ ok last
      → All (IsChecked last.common_pps) slices
        × (last.output_size ≡ found.output_size + length (join_slices slices))
        × (last.output_size ≤ max_input_bytes)
        × (last.common_pps ≡ found.common_pps)
  unfolding check_slices join_slices
  check_slices-Checked found [] last l e =
      (tt, ground (arith, e), ground (arith, e), ground (arith, e))
  check_slices-Checked found (slice ∷ slices) last l e =
      elim (Result-cases (check_slice errno false found slice)) [
        | inl (failed, f) ↦ let g = rw f at e in absurd (ground (arith, g))
        | inr (next, f) ↦
            let (checked, size, bound, same) = check_slice-Checked false found slice next f in
            let (rest, total, short, common) =
              check_slices-Checked next slices last bound (rw f at e) in
            (
              (subst (λ (t : ℕ). IsChecked t slice) (sym common) checked, rest),
              omega (arith, size, total, length-append (slice_unit slice) (join_slices slices)),
              short,
              omega (arith, common, same refl),
            )
      ]

  -- The whole loop.
  check_slices-All :
      (found : Found) (slice : SliceInput) (slices : List SliceInput) (last : Found)
      → check_slices errno true found (slice ∷ slices) ≡ ok last
      → All (IsChecked last.common_pps) (slice ∷ slices)
        × (last.output_size ≡ found.output_size + length (join_slices (slice ∷ slices)))
        × (last.output_size ≤ max_input_bytes)
  unfolding check_slices join_slices
  check_slices-All found slice slices last e =
      elim (Result-cases (check_slice errno true found slice)) [
        | inl (failed, f) ↦ let g = rw f at e in absurd (ground (arith, g))
        | inr (next, f) ↦
            let (checked, size, bound, same) = check_slice-Checked true found slice next f in
            let (rest, total, short, common) =
              check_slices-Checked next slices last bound (rw f at e) in
            (
              (subst (λ (t : ℕ). IsChecked t slice) (sym common) checked, rest),
              omega (arith, size, total, length-append (slice_unit slice) (join_slices slices)),
              short,
            )
      ]

abbrev nothing : Found
nothing = record { output_size = 0; common_pps = 0; any_idr = false }

-- If an access unit is built, it has 1 to 256 slices; its bytes are the slices' units behind start
-- codes, as many as were allocated and at most the limit of an input; and each slice was parsed to
-- the macroblock and type that the caller expects and to the parameter set that the unit is
-- reported with.
pub build_access_unit-Checked :
    (malloc : ℕ → Bool) (errno : Errno) (slices : List SliceInput) (unit : AccessUnit)
    → build_access_unit malloc errno slices ≡ ok unit
    → (1 ≤ length slices)
      × (length slices ≤ 256)
      × (unit.bytes ≡ join_slices slices)
      × (malloc (length unit.bytes) ≡ true)
      × (length unit.bytes ≤ max_input_bytes)
      × All (IsChecked unit.pps_id) slices
unfolding build_access_unit join_slices
build_access_unit-Checked malloc errno [] unit e = absurd (ground (arith, e))
build_access_unit-Checked malloc errno (slice ∷ slices) unit e =
    elim (Result-cases (check_slices errno true nothing (slice ∷ slices))) [
      | inl (failed, f) ↦ let g = rw f at e in absurd (ground (arith, g))
      | inr (found, f) ↦
          let g = rw f at e in
          let (checked, total, short) = check_slices-All errno nothing slice slices found f in
          let joined : unit.bytes ≡ join_slices (slice ∷ slices) = ground (arith, g) in
          let pps : found.common_pps ≡ unit.pps_id = ground (arith, g) in
          let had : malloc found.output_size ≡ true = ground (arith, g) in
          let size : length unit.bytes ≡ found.output_size =
            ap length joined ∙ omega (arith, total) in
          (
            omega arith,
            ground (arith, g),
            joined,
            ap malloc size ∙ had,
            omega (arith, size, short),
            subst (λ (t : ℕ). All (IsChecked t) (slice ∷ slices)) pps checked,
          )
    ]
