-- ===== src/H264/Config/Rbsp.antt =====
-- A row of elements with its trailing bits, written from an empty writer and read from its bytes.
use native.Mathlib.Nat.{zero-div}
use lin_de_x.Base.{
  ℕ, zero, suc, ◌+◌, ◌*◌, ◌-◌, ◌/◌, ◌%◌, ◌<◌, ◌≤◌, List, [], ◌∷◌, ◌++◌, length, ok, ◌≡◌, refl,
  arith, ap, ◌∙◌, ◌^◌,
}
use lin_de_x.Protocol.Wire.{Buffer}
use lin_de_x.H264.Bits.{Writer, pushed, align, finish_rbsp}
use lin_de_x.H264.Bits.Packed.{Packs}
use lin_de_x.H264.Bits.Fields.{pushed_field, Shows-agree, put_bit-room}
use lin_de_x.H264.Bits.Golomb.{ue_count, zeroes-short}
use lin_de_x.H264.Nal.{bytes_from, array_of, reader_of}
use lin_de_x.H264.Syntax.{
  Element, flag, fixed, unsigned, signed, read_elements, IsElement, AreElements,
}
use lin_de_x.H264.Syntax.RoundTrip.{
  element_code, element_count, elements_count, pushed_elements, Shown, put_elements-room,
  pushed_elements-Packs, pushed_elements-bit_count, read_elements-Shown, signed_code,
  signed_code-short,
}
use lin_de_x.H264.Config.{put_rbsp, empty_writer}

element_count-short : (e : Element) → IsElement e → element_count e ≤ 63
unfolding IsElement element_count ue_count
element_count-short (flag value) h = omega arith
element_count-short (fixed value count) (h, l) = omega arith
element_count-short (unsigned value) h = omega (arith, zeroes-short value h)
element_count-short (signed value) h =
    omega (arith, zeroes-short (signed_code value) (signed_code-short value h))

pub elements_count-short : (es : List Element) → AreElements es → elements_count es ≤ 63 * length es
unfolding AreElements elements_count
elements_count-short [] h = omega arith
elements_count-short (e ∷ es) (h, hs) =
    omega (arith, element_count-short e h, elements_count-short es hs)

pub AreElements-append : (a b : List Element) → AreElements a → AreElements b → AreElements (a ++ b)
unfolding AreElements
AreElements-append [] b ha hb = hb
AreElements-append (e ∷ a) b (h, ha) hb = (h, AreElements-append a b ha hb)

-- The trailing bits as elements.
trailing : ℕ → List Element
trailing count = flag 1 ∷ fixed 0 ((8 - (count + 1) % 8) % 8) ∷ []

align-room :
    (fuel : ℕ) (w : Writer) → w.bit_count + fuel ≤ 8192 → align fuel w ≡ ok (pushed_field w 0 fuel)
unfolding align pushed_field pushed
align-room zero w h = refl
align-room (suc fuel) w h =
    let none : 0 / 2 ^ fuel % 2 ≡ 0 = omega (arith, zero-div (2 ^ fuel)) in
    rw (none, put_bit-room w 0 (omega arith), align-room fuel (pushed w 0) (omega arith)) refl

finish_rbsp-room :
    (w : Writer)
    → w.bit_count + 8 ≤ 8192
    → finish_rbsp w ≡ ok (pushed_elements w (trailing w.bit_count))
unfolding finish_rbsp pushed_elements trailing pushed_field element_code element_count pushed
finish_rbsp-room w h =
    rw
      (
        put_bit-room w 1 (omega arith),
        align-room ((8 - (w.bit_count + 1) % 8) % 8) (pushed w 1) (omega arith),
      )
      refl

array_of-bytes_from :
    (buffer : Buffer) (o count i : ℕ)
    → i < count
    → array_of (bytes_from buffer o count) i ≡ buffer (o + i)
unfolding array_of bytes_from
array_of-bytes_from buffer o zero i h = absurd (omega arith)
array_of-bytes_from buffer o (suc count) zero h = ap buffer (omega arith)
array_of-bytes_from buffer o (suc count) (suc i) h =
    array_of-bytes_from buffer (o + 1) count i (omega arith) ∙ ap buffer (omega arith)

pub length-bytes_from : (buffer : Buffer) (o count : ℕ) → length (bytes_from buffer o count) ≡ count
unfolding bytes_from
length-bytes_from buffer o zero = refl
length-bytes_from buffer o (suc count) = ap suc (length-bytes_from buffer (o + 1) count)

-- The whole bytes of a writer.
unfoldable pub payload : Writer → List ℕ
payload w = bytes_from w.bytes 0 (w.bit_count / 8)

Shown-agree :
    (bits other : ℕ → ℕ) (n : ℕ) (es : List Element)
    → ((i : ℕ) → i < n + elements_count es → other i ≡ bits i)
    → Shown bits n es
    → Shown other n es
unfolding Shown elements_count
Shown-agree bits other n [] same h = tt
Shown-agree bits other n (e ∷ es) same (h, rest) = (
  Shows-agree bits other n (element_code e) (element_count e) (λ i l. same i (omega (arith, l))) h,
  Shown-agree bits other (n + element_count e) es (λ i l. same i (omega (arith, l))) rest,
)

-- An empty writer has taken no bits.
empty-Packs : Packs empty_writer (λ i. 0)
empty-Packs = record {
  binary = λ i. omega arith;
  ended = λ i l. refl;
  packed = λ o h. absurd (omega (arith, h));
}

-- The elements are written, and what reads them from the bytes reads the same.
pub put_rbsp-RoundTrip :
    (es : List Element)
    → AreElements es
    → elements_count es + 8 ≤ 8192
    → (w : Writer) × (put_rbsp es ≡ ok w)
      × (w.bit_count % 8 ≡ 0)
      × (w.bit_count ≤ elements_count es + 8)
      × (read_elements es (reader_of (payload w))
          ≡ ok (es, record (reader_of (payload w)) { bit_offset = elements_count es }))
unfolding put_rbsp reader_of payload trailing elements_count element_count
put_rbsp-RoundTrip es h l =
    let v = pushed_elements empty_writer es in
    let tail = trailing v.bit_count in
    let w = pushed_elements v tail in
    let v_count : v.bit_count ≡ elements_count es =
      omega (arith, pushed_elements-bit_count empty_writer es) in
    let w_count : w.bit_count ≡ v.bit_count + (1 + ((8 - (v.bit_count + 1) % 8) % 8 + 0)) =
      pushed_elements-bit_count v tail in
    let whole : w.bit_count % 8 ≡ 0 = omega (arith, w_count) in
    let (bits, packs, shown, _) = pushed_elements-Packs empty_writer (λ i. 0) es empty-Packs in
    let (all, all_packs, _, same) = pushed_elements-Packs v bits tail packs in
    let bytes = payload w in
    let copy : Writer = record { bytes = array_of bytes; bit_count = w.bit_count } in
    let copy_packs : Packs copy all = record {
      binary = all_packs.binary;
      ended = all_packs.ended;
      packed = λ o m.
          array_of-bytes_from w.bytes 0 (w.bit_count / 8) o (omega (arith, m, whole))
          ∙ ap w.bytes (omega arith)
          ∙ all_packs.packed o m;
    } in
    let size : w.bit_count ≡ length bytes * 8 =
      omega (arith, length-bytes_from w.bytes 0 (w.bit_count / 8), whole) in
    let shown_all : Shown all 0 es =
      Shown-agree bits all 0 es (λ i m. same i (omega (arith, m, v_count))) shown in
    let start : 0 + elements_count es ≡ elements_count es = omega arith in
    (
      w,
      rw
          (
            put_elements-room empty_writer es h (omega arith),
            finish_rbsp-room v (omega (arith, v_count)),
          )
          refl,
      whole,
      omega (arith, w_count, v_count),
      read_elements-Shown copy all copy_packs (length bytes) (omega (arith, size)) 0 es h shown_all
            (omega (arith, w_count, v_count))
          ∙ ap
              (λ (t : ℕ).
                ok (es, record { bytes = array_of bytes; size = length bytes; bit_offset = t }))
              start,
    )
