-- ===== src/H264/Bits/Golomb.antt =====
-- Exponential Golomb codes: `put_ue`, `put_se`, `read_ue` and `read_se`. The code of `v` is the field of
-- the value `v + 1` that has as many zeroes before its first one as bits behind it.
use native.Mathlib.Nat.{
  pow-suc, pow-le-pow_right, div-eq_of_lt, div-eq_of_lt-le, zero-div, div-add-mod, mod-lt,
  mod-eq_of_lt,
}
use native.Mathlib.Decide.{dec_le}
use lin_de_x.Base.{
  ℕ, zero, suc, ◌+◌, ◌-◌, ◌*◌, ◌/◌, ◌%◌, ◌^◌, ◌<◌, ◌≤◌, ◌==◌, ok, ◌≡◌, refl, arith, ◌≢◌, subst, ap,
  Bool-cases, inl, inr, false, ==_iff, ltb, ◌∙◌,
}
use lin_de_x.Base.Bits.{power_positive, power-next, mod-bit}
use lin_de_x.H264.Bits.{Writer, bit_length, put_bits, put_ue, read_ue, read_zeroes, Reader, pushed}
use lin_de_x.H264.Bits.Packed.{Packs, read_bit-Packs}
use lin_de_x.H264.Bits.Fields.{
  pushed_field, Shows, put_loop-room, put_zeroes-room, pushed_field-bit_count, reader_at,
  read_loop-Shows,
}

-- The number has `count` bits.
unfoldable pub Sized : ℕ → ℕ → Type 0
Sized count code = (code < 2 ^ count) × (2 ^ count ≤ 2 * code)

over-power : (code k : ℕ) → code / 2 ^ k ≢ 0 → 2 ^ k ≤ code
over-power code k h = elim (dec_le (2 ^ k) code) [
  | yes l ↦ l
  | no l ↦ absurd (h (div-eq_of_lt (omega (arith, l))))
]

under-power : (code k : ℕ) → code / 2 ^ k ≡ 0 → code < 2 ^ k
under-power code k h =
    omega
      (arith, div-add-mod code (2 ^ k), ap (λ (t : ℕ). 2 ^ k * t) h, mod-lt code (power_positive k))

pub bit_length-Sized :
    (fuel bits code : ℕ)
    → code < 2 ^ (bits + fuel)
    → 2 ^ bits ≤ 2 * code
    → Sized (bit_length fuel bits code) code
unfolding bit_length Sized
bit_length-Sized zero bits code h l = (subst (λ (t : ℕ). code < 2 ^ t) (omega arith) h, l)
bit_length-Sized (suc fuel) bits code h l = elim (Bool-cases (code / 2 ^ bits == 0)) [
  | inl e ↦ rw e (under-power code bits ((==_iff (code / 2 ^ bits) 0).0 e), l)
  | inr e ↦
      let more = over-power code bits (not-zero e) in
      rw e (
        bit_length-Sized fuel (bits + 1) code (subst (λ (t : ℕ). code < 2 ^ t) (omega arith) h)
          (omega (arith, more, power-next bits)))
]
  where
    not-zero : (code / 2 ^ bits == 0) ≡ false → code / 2 ^ bits ≢ 0
    not-zero e = ground arith

-- The zeroes before the code of a value.
unfoldable pub zeroes : ℕ → ℕ
zeroes value = bit_length 34 0 (value + 1) - 1

module _ (value : ℕ) (small : value + 1 < 2 ^ 32) where
  bit_length-zeroes : bit_length 34 0 (value + 1) ≡ suc (zeroes value)
  unfolding zeroes Sized
  bit_length-zeroes =
      let (short, long) = bit_length-Sized 34 0 (value + 1) (omega arith) (omega arith) in
      positive (bit_length 34 0 (value + 1)) short
    where
      positive : (n : ℕ) → value + 1 < 2 ^ n → n ≡ suc (n - 1)
      positive zero h = absurd (omega (arith, h))
      positive (suc n) h = omega arith

  code-Sized : Sized (suc (zeroes value)) (value + 1)
  code-Sized =
      subst (λ (t : ℕ). Sized t (value + 1)) bit_length-zeroes
        (bit_length-Sized 34 0 (value + 1) (omega arith) (omega arith))

  pub zeroes-short : zeroes value < 32
  unfolding Sized
  zeroes-short = elim (dec_le 32 (zeroes value)) [
    | yes l ↦
        let (short, long) = code-Sized in
        let much : 2 ^ 33 ≤ 2 ^ suc (zeroes value) =
          pow-le-pow_right {n = 2} (omega arith) {i = 33} (omega (arith, l)) in
        absurd (omega (arith, much, long))
    | no l ↦ omega (arith, l)
  ]

  -- The code's highest bit is set.
  code-high : (value + 1) / 2 ^ zeroes value % 2 ≡ 1
  unfolding Sized
  code-high =
      let (short, long) = code-Sized in
      let one : (value + 1) / 2 ^ zeroes value ≡ 1 =
        div-eq_of_lt-le (2 ^ zeroes value) (omega (arith, pow-suc 2 (zeroes value), long))
          (omega (arith, pow-suc 2 (zeroes value), short)) in
      omega (arith, one)

-- A field whose value fits its last `low` bits is that many zeroes and a field of `low` bits.
pub Shows-zeroes :
    (bits : ℕ → ℕ) (n code high low count : ℕ)
    → count ≡ high + low
    → code < 2 ^ low
    → Shows bits n code count
    → Shows bits n 0 high × Shows bits (n + high) code low
unfolding Shows
Shows-zeroes bits n code zero low count e h s =
    let all : count ≡ low = omega arith in
    let here : n ≡ n + 0 = omega arith in
    (
      tt,
      subst (λ (t : ℕ). Shows bits t code low) here (subst (λ (t : ℕ). Shows bits n code t) all s),
    )
Shows-zeroes bits n code (suc high) low zero e h s = absurd (omega arith)
Shows-zeroes bits n code (suc high) low (suc count) e h (first, rest) =
    let (zeroes_first, last) = Shows-zeroes bits (n + 1) code high low count (omega arith) h rest in
    let more : 2 ^ low ≤ 2 ^ count = pow-le-pow_right {n = 2} (omega arith) (omega arith) in
    let none : code / 2 ^ count ≡ 0 = div-eq_of_lt (omega (arith, more, h)) in
    let nought : 0 / 2 ^ high ≡ 0 = zero-div (2 ^ high) in
    let next : n + 1 + high ≡ n + suc high = omega arith in
    (
      (omega (arith, first, none, nought), zeroes_first),
      subst (λ (t : ℕ). Shows bits t code low) next last,
    )

-- The same of the writer.
pub pushed_field-zeroes :
    (w : Writer) (code high low count : ℕ)
    → count ≡ high + low
    → code < 2 ^ low
    → pushed_field (pushed_field w 0 high) code low ≡ pushed_field w code count
unfolding pushed_field
pushed_field-zeroes w code zero low count e h = let all : count ≡ low = omega arith in rw all refl
pushed_field-zeroes w code (suc high) low zero e h = absurd (omega arith)
pushed_field-zeroes w code (suc high) low (suc count) e h =
    let more : 2 ^ low ≤ 2 ^ count = pow-le-pow_right {n = 2} (omega arith) (omega arith) in
    let none : code / 2 ^ count ≡ 0 = div-eq_of_lt (omega (arith, more, h)) in
    let nought : 0 / 2 ^ high ≡ 0 = zero-div (2 ^ high) in
    rw (none, nought) (pushed_field-zeroes (pushed w 0) code high low count (omega arith) h)

-- The bits of the code of a value.
unfoldable pub ue_count : ℕ → ℕ
ue_count value = zeroes value + suc (zeroes value)

pub put_ue-room :
    (w : Writer) (value : ℕ)
    → value + 1 < 2 ^ 32
    → w.bit_count + ue_count value ≤ 8192
    → put_ue w value ≡ ok (pushed_field w (value + 1) (ue_count value))
unfolding put_ue put_bits ue_count Sized
put_ue-room w value small room =
    let z = zeroes value in
    let (short, long) = code-Sized value small in
    let length = bit_length-zeroes value small in
    let limit : ltb 32 (suc z) ≡ false = ground (arith, zeroes-short value small) in
    let word : (value + 1) % 2 ^ 32 ≡ value + 1 = omega arith in
    let begun = put_zeroes-room w z (omega arith) in
    let ended =
      put_loop-room (pushed_field w 0 z) (value + 1) (suc z)
        (omega (arith, pushed_field-bit_count w 0 z)) in
    let shorter : suc z - 1 ≡ z = omega arith in
    rw
      (
        length,
        shorter,
        begun,
        limit,
        word,
        ended,
        pushed_field-zeroes w (value + 1) z (suc z) (z + suc z) refl short,
      )
      refl

module _ (w : Writer) (bits : ℕ → ℕ) (p : Packs w bits) (size : ℕ)
    (room : w.bit_count ≤ size * 8) where
  abbrev at : ℕ → Reader
  at = reader_at w bits p size room

  read_zeroes-Shows :
      (left seen n z : ℕ)
      → z < left
      → Shows bits n 0 z
      → bits (n + z) ≡ 1
      → n + z < w.bit_count
      → read_zeroes left seen (at n) ≡ ok (seen + z, at (n + z + 1))
  unfolding read_zeroes Shows
  read_zeroes-Shows zero seen n z h s one l = absurd (omega arith)
  read_zeroes-Shows (suc left) seen n zero h s one l =
      let here : n + 0 ≡ n = omega arith in
      let none : seen + 0 ≡ seen = omega arith in
      let first : bits n ≡ 1 = omega (arith, ap bits here, one) in
      rw (here, none, read_bit-Packs w bits p (at n) (λ o. refl) (omega arith) room, first) refl
  read_zeroes-Shows (suc left) seen n (suc z) h (first, rest) one l =
      let next : n + 1 + z ≡ n + suc z = omega arith in
      let count : seen + 1 + z ≡ seen + suc z = omega arith in
      let zero_bit : bits n ≡ 0 = omega (arith, first, zero-div (2 ^ z)) in
      let more =
        read_zeroes-Shows left (seen + 1) (n + 1) z (omega arith) rest (ap bits next ∙ one)
          (omega arith) in
      rw
        (read_bit-Packs w bits p (at n) (λ o. refl) (omega arith) room, zero_bit, more, next, count)
        refl

  -- Where the code of a value stands, `read_ue` gives the value and stops behind the code.
  pub read_ue-Shows :
      (n value : ℕ)
      → value + 1 < 2 ^ 32
      → Shows bits n (value + 1) (ue_count value)
      → n + ue_count value ≤ w.bit_count
      → read_ue (at n) ≡ ok (value, at (n + ue_count value))
  unfolding read_ue ue_count Shows Sized
  read_ue-Shows n value small s l =
      let z = zeroes value in
      let (short, long) = code-Sized value small in
      let (high, (one, low)) = Shows-zeroes bits n (value + 1) z (suc z) (z + suc z) refl short s in
      let begun =
        read_zeroes-Shows 32 0 n z (zeroes-short value small) high (one ∙ code-high value small)
          (omega arith) in
      let value_low : 2 ^ z + (value + 1) % 2 ^ z ≡ value + 1 = omega (
        arith,
        mod-bit (value + 1) z,
        ap (λ (t : ℕ). t * 2 ^ z) (code-high value small),
        mod-eq_of_lt short,
      ) in
      let nothing : 0 * 2 ^ z + (value + 1) % 2 ^ z ≡ (value + 1) % 2 ^ z = omega arith in
      let ended =
        read_loop-Shows w bits p size room (n + z + 1) 0 (value + 1) z low (omega arith)
          (omega (arith, mod-lt (value + 1) (power_positive z), value_low)) in
      let seen : 0 + z ≡ z = omega arith in
      let again : (2 ^ z - 1 + (0 * 2 ^ z + (value + 1) % 2 ^ z)) % 2 ^ 32 ≡ value =
        omega (arith, value_low, nothing, power_positive z) in
      let offset : n + z + 1 + z ≡ n + (z + suc z) = omega arith in
      rw (begun, seen, ended, again, offset) refl
