-- ===== src/H264/Syntax.antt =====
-- The syntax elements that advc_h264_build_codec_config of src/vaapi_advc/advc_h264_annexb.c writes one
-- after the other, as the calls that write them, and the calls that read them.
pub mod RoundTrip
use lin_de_x.Base.{
  ℕ, zero, suc, ◌+◌, ◌^◌, ◌<◌, ◌≤◌, Bool, true, List, [], ◌∷◌, Result, ok, ◌>>=◌, ◌≡◌, map,
}
use lin_de_x.H264.Bits.{
  Writer, Reader, Signed, put_bit, put_bits, put_ue, put_se, read_bit, read_bits, read_ue, read_se,
}

-- A call of `put_bit`, `put_bits`, `put_ue` or `put_se`.
pub data Element : Type 0 where
  flag : ℕ → Element
  fixed : ℕ → ℕ → Element
  unsigned : ℕ → Element
  signed : Signed → Element

unfoldable pub put_element : Writer → Element → Result Writer
put_element w (flag value) = put_bit w value
put_element w (fixed value count) = put_bits w value count
put_element w (unsigned value) = put_ue w value
put_element w (signed value) = put_se w value

-- The calls in a row, up to the first that fails.
unfoldable pub put_elements : Writer → List Element → Result Writer
put_elements w [] = ok w
put_elements w (e ∷ es) = put_element w e >>= λ v. put_elements v es

-- The call that reads an element of the same kind.
unfoldable pub read_element : Element → Reader → Result (Element × Reader)
read_element (flag value) r = read_bit r >>= λ (p : ℕ × Reader). ok (flag p.0, p.1)
read_element (fixed value count) r =
    read_bits r count >>= λ (p : ℕ × Reader). ok (fixed p.0 count, p.1)
read_element (unsigned value) r = read_ue r >>= λ (p : ℕ × Reader). ok (unsigned p.0, p.1)
read_element (signed value) r = read_se r >>= λ (p : Signed × Reader). ok (signed p.0, p.1)

unfoldable pub read_elements : List Element → Reader → Result (List Element × Reader)
read_elements [] r = ok ([], r)
read_elements (e ∷ es) r = read_element e r >>= λ (p : Element × Reader).
    read_elements es p.1 >>= λ (q : List Element × Reader). ok (p.0 ∷ q.0, q.1)

-- A number of 32 bits with a sign, less the one that has no opposite.
unfoldable pub IsSigned : Signed → Type 0
IsSigned s = (s.magnitude < 2 ^ 31) × (s.negative ≡ true → 0 < s.magnitude)

-- The value fits the element.
unfoldable pub IsElement : Element → Type 0
IsElement (flag value) = value < 2
IsElement (fixed value count) = (value < 2 ^ count) × (count ≤ 32)
IsElement (unsigned value) = value + 1 < 2 ^ 32
IsElement (signed value) = IsSigned value

unfoldable pub AreElements : List Element → Type 0
AreElements [] = Unit
AreElements (e ∷ es) = IsElement e × AreElements es
