-- ===== src/H264/Bits/Fields.antt =====
-- Fields of several bits, written by `put_bits` and `put_zeroes` and read by `read_bits`.
use native.Mathlib.Nat.{div-add-mod, pow-suc, le-mul_of_pos_right}
use lin_de_x.Base.{
  ℕ, zero, suc, ◌+◌, ◌*◌, ◌/◌, ◌%◌, ◌^◌, ◌<◌, ◌≤◌, ok, ◌≡◌, refl, arith, ap, bit_or,
}
use lin_de_x.Base.Bits.{power_positive, mod-bit, bit_or_fields_high}
use lin_de_x.H264.Bits.{Writer, Reader, pushed, put_bit, put_loop, put_zeroes, read_loop}
use lin_de_x.H264.Bits.Packed.{Packs, extend, pushed-Packs, read_bit-Packs}

-- The writer after a field of `count` bits.
unfoldable pub pushed_field : Writer → ℕ → ℕ → Writer
pushed_field w value zero = w
pushed_field w value (suc count) = pushed_field (pushed w (value / 2 ^ count % 2)) value count

-- The sequence of bits with a field at `n`.
unfoldable pub field : (ℕ → ℕ) → ℕ → ℕ → ℕ → ℕ → ℕ
field bits n value zero = bits
field bits n value (suc count) =
    field (extend bits n (value / 2 ^ count % 2 % 2)) (n + 1) value count

-- The low `count` bits of the value stand at `n`, highest first.
unfoldable pub Shows : (ℕ → ℕ) → ℕ → ℕ → ℕ → Type 0
Shows bits n value zero = Unit
Shows bits n value (suc count) = (bits n ≡ value / 2 ^ count % 2) × Shows bits (n + 1) value count

pub put_bit-room :
    (w : Writer) (value : ℕ) → w.bit_count < 8192 → put_bit w value ≡ ok (pushed w value)
unfolding put_bit
put_bit-room w value h = ground arith

pub put_loop-room :
    (w : Writer) (value count : ℕ)
    → w.bit_count + count ≤ 8192
    → put_loop w value count ≡ ok (pushed_field w value count)
unfolding put_loop pushed_field pushed
put_loop-room w value zero h = refl
put_loop-room w value (suc count) h =
    let bit = value / 2 ^ count % 2 in
    rw (put_bit-room w bit (omega arith), put_loop-room (pushed w bit) value count (omega arith))
      refl

pub put_zeroes-room :
    (w : Writer) (count : ℕ)
    → w.bit_count + count ≤ 8192
    → put_zeroes w count ≡ ok (pushed_field w 0 count)
unfolding put_zeroes pushed_field pushed
put_zeroes-room w zero h = refl
put_zeroes-room w (suc count) h =
    let none : 0 / 2 ^ count % 2 ≡ 0 = omega (arith, div-add-mod 0 (2 ^ count)) in
    rw (none, put_bit-room w 0 (omega arith), put_zeroes-room (pushed w 0) count (omega arith)) refl

pub pushed_field-bit_count :
    (w : Writer) (value count : ℕ) → (pushed_field w value count).bit_count ≡ w.bit_count + count
unfolding pushed_field pushed
pushed_field-bit_count w value zero = omega arith
pushed_field-bit_count w value (suc count) =
    omega (arith, pushed_field-bit_count (pushed w (value / 2 ^ count % 2)) value count)

pub pushed_field-Packs :
    (w : Writer) (bits : ℕ → ℕ) (value count : ℕ)
    → Packs w bits
    → Packs (pushed_field w value count) (field bits w.bit_count value count)
unfolding pushed_field field pushed
pushed_field-Packs w bits value zero p = p
pushed_field-Packs w bits value (suc count) p =
    let bit = value / 2 ^ count % 2 in
    pushed_field-Packs (pushed w bit) (extend bits w.bit_count (bit % 2)) value count
      (pushed-Packs w bits p bit)

extend-apart : (bits : ℕ → ℕ) (n b i : ℕ) → i < n → extend bits n b i ≡ bits i
unfolding extend
extend-apart bits n b i h = ground arith

extend-here : (bits : ℕ → ℕ) (n b : ℕ) → extend bits n b n ≡ b
unfolding extend
extend-here bits n b = ground arith

-- A field leaves what stands before it.
pub field-below : (bits : ℕ → ℕ) (n value count i : ℕ) → i < n → field bits n value count i ≡ bits i
unfolding field
field-below bits n value zero i h = refl
field-below bits n value (suc count) i h =
    let bit = value / 2 ^ count % 2 % 2 in
    rw
      (
        field-below (extend bits n bit) (n + 1) value count i (omega arith),
        extend-apart bits n bit i (omega arith),
      )
      refl

pub field-Shows :
    (bits : ℕ → ℕ) (n value count : ℕ) → Shows (field bits n value count) n value count
unfolding field Shows
field-Shows bits n value zero = tt
field-Shows bits n value (suc count) =
    let bit = value / 2 ^ count % 2 % 2 in
    (
      rw
          (
            field-below (extend bits n bit) (n + 1) value count n (omega arith),
            extend-here bits n bit,
          )
          (omega arith),
      field-Shows (extend bits n bit) (n + 1) value count,
    )

-- What is shown stays shown when bits are added behind it.
pub Shows-agree :
    (bits other : ℕ → ℕ) (n value count : ℕ)
    → ((i : ℕ) → i < n + count → other i ≡ bits i)
    → Shows bits n value count
    → Shows other n value count
unfolding Shows
Shows-agree bits other n value zero same h = tt
Shows-agree bits other n value (suc count) same (h, rest) = (
  rw (same n (omega arith)) h,
  Shows-agree bits other (n + 1) value count (λ i l. same i (omega (arith, l))) rest,
)

module _ (w : Writer) (bits : ℕ → ℕ) (p : Packs w bits) (size : ℕ)
    (room : w.bit_count ≤ size * 8) where
  -- The reader over the writer's bytes at a bit.
  abbrev pub reader_at : ℕ → Reader
  reader_at n = record { bytes = w.bytes; size = size; bit_offset = n }

  -- A field of at most 32 bits that is read behind `value` is appended to it.
  pub read_loop-Shows :
      (n value code count : ℕ)
      → Shows bits n code count
      → n + count ≤ w.bit_count
      → value * 2 ^ count + code % 2 ^ count < 2 ^ 32
      → read_loop count value (reader_at n)
        ≡ ok (value * 2 ^ count + code % 2 ^ count, reader_at (n + count))
  unfolding read_loop Shows
  read_loop-Shows n value code zero h l m =
      let kept : value * 2 ^ 0 + code % 2 ^ 0 ≡ value = omega arith in
      let offset : n + 0 ≡ n = omega arith in rw (kept, offset) refl
  read_loop-Shows n value code (suc count) (h, rest) l m =
      let bit = code / 2 ^ count % 2 in
      let read = read_bit-Packs w bits p (reader_at n) (λ o. refl) (omega arith) room in
      let positive = power_positive count in
      let joined : (value * 2 + bit) * 2 ^ count + code % 2 ^ count
          ≡ value * 2 ^ suc count + code % 2 ^ suc count =
        omega (arith, mod-bit code count, ap (λ (t : ℕ). value * t) (pow-suc 2 count)) in
      let least : value * 2 + bit ≤ (value * 2 + bit) * 2 ^ count =
        le-mul_of_pos_right (value * 2 + bit) positive in
      let small : value * 2 + bit < 2 ^ 32 = omega (arith, joined, least, m) in
      let whole : value * 2 % 2 ^ 32 ≡ value * 2 ^ 1 = omega (arith, small) in
      let taken : bit_or (value * 2 % 2 ^ 32) bit ≡ value * 2 + bit =
        omega (
          arith,
          ap (λ (t : ℕ). bit_or t bit) whole,
          bit_or_fields_high 1 bit value (omega arith),
        ) in
      let offset : n + 1 + count ≡ n + suc count = omega arith in
      rw
        (
          read,
          h,
          taken,
          read_loop-Shows (n + 1) (value * 2 + bit) code count rest (omega arith)
              (omega (arith, joined)),
          joined,
          offset,
        )
        refl
