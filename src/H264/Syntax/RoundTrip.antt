-- ===== src/H264/Syntax/RoundTrip.antt =====
-- What `put_element` writes is what `read_element` reads, for a row of elements of any kinds.
use native.Mathlib.Nat.{mod-eq_of_lt, pow-le-pow_right}
use lin_de_x.Base.{
  ℕ, ◌+◌, ◌-◌, ◌*◌, ◌/◌, ◌%◌, ◌^◌, ◌<◌, ◌≤◌, ◌==◌, ◌||◌, if◌then◌else◌, List, [], ◌∷◌, ok, ◌≡◌,
  refl, arith, false, ◌&&◌, not, ltb, subst, ◌∙◌,
}
use lin_de_x.H264.Bits.{Writer, Reader, Signed, put_se, read_se, read_bits, put_bits}
use lin_de_x.H264.Bits.Packed.{Packs, read_bit-Packs}
use lin_de_x.H264.Bits.Fields.{
  pushed_field, field, Shows, put_loop-room, pushed_field-bit_count, reader_at, read_loop-Shows,
  put_bit-room, pushed_field-Packs, Shows-agree, field-Shows, field-below,
}
use lin_de_x.H264.Bits.Golomb.{ue_count, put_ue-room, read_ue-Shows}
use lin_de_x.H264.Syntax.{
  Element, flag, fixed, unsigned, signed, put_element, put_elements, read_element, read_elements,
  IsSigned, IsElement, AreElements,
}

-- The unsigned number that stands for a signed one.
unfoldable pub signed_code : Signed → ℕ
signed_code s = if s.negative || s.magnitude == 0 then s.magnitude * 2 else s.magnitude * 2 - 1

-- The field that an element is.
unfoldable pub element_code : Element → ℕ
element_code (flag value) = value
element_code (fixed value count) = value
element_code (unsigned value) = value + 1
element_code (signed value) = signed_code value + 1

unfoldable pub element_count : Element → ℕ
element_count (flag value) = 1
element_count (fixed value count) = count
element_count (unsigned value) = ue_count value
element_count (signed value) = ue_count (signed_code value)

unfoldable pub elements_count : List Element → ℕ
elements_count [] = 0
elements_count (e ∷ es) = element_count e + elements_count es

unfoldable pub pushed_elements : Writer → List Element → Writer
pushed_elements w [] = w
pushed_elements w (e ∷ es) = pushed_elements (pushed_field w (element_code e) (element_count e)) es

pub signed_code-short : (s : Signed) → IsSigned s → signed_code s + 1 < 2 ^ 32
unfolding signed_code IsSigned
signed_code-short s (h, n) = ground arith

-- What `read_se` makes of the number is the signed one.
signed_code-negative :
    (s : Signed) → IsSigned s → (signed_code s % 2 == 0 && not (signed_code s == 0)) ≡ s.negative
unfolding signed_code IsSigned
signed_code-negative s (h, n) = ground arith

signed_code-magnitude :
    (s : Signed)
    → IsSigned s
    → (if signed_code s % 2 == 1 then (signed_code s + 1) / 2 else signed_code s / 2) ≡ s.magnitude
unfolding signed_code IsSigned
signed_code-magnitude s (h, n) = ground arith

signed_code-limit : (s : Signed) → IsSigned s → signed_code s ≤ (2 ^ 31 - 1) * 2
unfolding signed_code IsSigned
signed_code-limit s (h, n) = ground arith

pub put_element-room :
    (w : Writer) (e : Element)
    → IsElement e
    → w.bit_count + element_count e ≤ 8192
    → put_element w e ≡ ok (pushed_field w (element_code e) (element_count e))
unfolding put_element IsElement element_count element_code put_bits put_se pushed_field signed_code
put_element-room w (flag value) h l =
    let bit : value / 2 ^ 0 % 2 ≡ value = omega arith in
    rw (put_bit-room w value (omega arith), bit) refl
put_element-room w (fixed value count) (h, limit) l =
    let accepted : ltb 32 count ≡ false = ground arith in
    rw (accepted, put_loop-room w value count l) refl
put_element-room w (unsigned value) h l = put_ue-room w value h l
put_element-room w (signed value) h l =
    let code = signed_code value in
    let accepted : ltb (2 ^ 32 - 1) code ≡ false = ground (arith, signed_code-limit value h) in
    rw (accepted, put_ue-room w code (signed_code-short value h) l) refl

unfoldable pub Shown : (ℕ → ℕ) → ℕ → List Element → Type 0
Shown bits n [] = Unit
Shown bits n (e ∷ es) =
    Shows bits n (element_code e) (element_count e) × Shown bits (n + element_count e) es

module _ (w : Writer) (bits : ℕ → ℕ) (p : Packs w bits) (size : ℕ)
    (room : w.bit_count ≤ size * 8) where
  abbrev at : ℕ → Reader
  at = reader_at w bits p size room

  read_element-Shows :
      (n : ℕ) (e : Element)
      → IsElement e
      → Shows bits n (element_code e) (element_count e)
      → n + element_count e ≤ w.bit_count
      → read_element e (at n) ≡ ok (e, at (n + element_count e))
  unfolding read_element IsElement element_count element_code read_bits read_se Shows
  read_element-Shows n (flag value) h (s, _) l =
      let bit : bits n ≡ value = omega (arith, s, h) in
      rw (read_bit-Packs w bits p (at n) (λ o. refl) (omega arith) room, bit) refl
  read_element-Shows n (fixed value count) (h, limit) s l =
      let accepted : ltb 32 count ≡ false = ground arith in
      let whole : 0 * 2 ^ count + value % 2 ^ count ≡ value = omega (arith, mod-eq_of_lt h) in
      let more : 2 ^ count ≤ 2 ^ 32 = pow-le-pow_right {n = 2} (omega arith) limit in
      rw
        (
          accepted,
          read_loop-Shows w bits p size room n 0 value count s l (omega (arith, whole, h, more)),
          whole,
        )
        refl
  read_element-Shows n (unsigned value) h s l =
      rw (read_ue-Shows w bits p size room n value h s l) refl
  read_element-Shows n (signed value) h s l =
      let code = signed_code value in
      let accepted : ltb ((2 ^ 31 - 1) * 2) code ≡ false =
        ground (arith, signed_code-limit value h) in
      rw
        (
          read_ue-Shows w bits p size room n code (signed_code-short value h) s l,
          accepted,
          signed_code-negative value h,
          signed_code-magnitude value h,
        )
        refl

  -- The elements stand one behind the other.
  pub read_elements-Shown :
      (n : ℕ) (es : List Element)
      → AreElements es
      → Shown bits n es
      → n + elements_count es ≤ w.bit_count
      → read_elements es (at n) ≡ ok (es, at (n + elements_count es))
  unfolding read_elements AreElements Shown elements_count
  read_elements-Shown n [] h s l = let here : n + 0 ≡ n = omega arith in rw here refl
  read_elements-Shown n (e ∷ es) (h, hs) (s, ss) l =
      let count = element_count e in
      let next : n + count + elements_count es ≡ n + (count + elements_count es) = omega arith in
      rw
        (
          read_element-Shows n e h s (omega arith),
          read_elements-Shown (n + count) es hs ss (omega arith),
          next,
        )
        refl

pub pushed_elements-bit_count :
    (w : Writer) (es : List Element)
    → (pushed_elements w es).bit_count ≡ w.bit_count + elements_count es
unfolding pushed_elements elements_count
pushed_elements-bit_count w [] = omega arith
pushed_elements-bit_count w (e ∷ es) =
    let v = pushed_field w (element_code e) (element_count e) in
    omega (
      arith,
      pushed_elements-bit_count v es,
      pushed_field-bit_count w (element_code e) (element_count e),
    )

pub put_elements-room :
    (w : Writer) (es : List Element)
    → AreElements es
    → w.bit_count + elements_count es ≤ 8192
    → put_elements w es ≡ ok (pushed_elements w es)
unfolding put_elements pushed_elements AreElements elements_count
put_elements-room w [] h l = refl
put_elements-room w (e ∷ es) (h, hs) l =
    let v = pushed_field w (element_code e) (element_count e) in
    let here : v.bit_count ≡ w.bit_count + element_count e =
      pushed_field-bit_count w (element_code e) (element_count e) in
    rw (put_element-room w e h (omega arith), put_elements-room v es hs (omega (arith, here))) refl

-- The bits behind which a row of elements is written stay as they are.
pub pushed_elements-Packs :
    (w : Writer) (bits : ℕ → ℕ) (es : List Element)
    → Packs w bits
    → (other : ℕ → ℕ) × (Packs (pushed_elements w es) other)
      × Shown other w.bit_count es
      × ((i : ℕ) → i < w.bit_count → other i ≡ bits i)
unfolding pushed_elements Shown
pushed_elements-Packs w bits [] p = (bits, p, tt, λ i l. refl)
pushed_elements-Packs w bits (e ∷ es) p =
    let code = element_code e in
    let count = element_count e in
    let v = pushed_field w code count in
    let here : v.bit_count ≡ w.bit_count + count = pushed_field-bit_count w code count in
    let (other, packs, shown, same) =
      pushed_elements-Packs v (field bits w.bit_count code count) es
        (pushed_field-Packs w bits code count p) in
    (
      other,
      packs,
      (
        Shows-agree (field bits w.bit_count code count) other w.bit_count code count
            (λ i l. same i (omega (arith, l, here))) (field-Shows bits w.bit_count code count),
        subst (λ (t : ℕ). Shown other t es) here shown,
      ),
      λ i l. same i (omega (arith, l, here)) ∙ field-below bits w.bit_count code count i l,
    )
