-- ===== src/H264/Bits.antt =====
-- struct bit_writer and struct bit_reader of src/vaapi_advc/advc_h264_annexb.c with `put_bit`,
-- `put_bits`, `put_ue`, `put_se`, `finish_rbsp`, `read_bit`, `read_bits`, `read_ue` and `read_se`. A
-- signed number is a sign and a magnitude.
pub mod Packed
pub mod Fields
pub mod Golomb
use lin_de_x.Base.{
  ℕ, zero, suc, ◌+◌, ◌-◌, ◌*◌, ◌/◌, ◌%◌, ◌^◌, ◌==◌, ltb, leb, ◌&&◌, not, Bool, true, false, List,
  [], ◌∷◌, if◌then◌else◌, Result, ok, err, ◌>>=◌, Errno, eoverflow, einval, eproto, bit_or, ◌||◌,
}
use lin_de_x.Protocol.Wire.{Buffer, write}

-- ADVC_H264_MAX_CONFIG_BYTES
abbrev pub max_config_bytes : ℕ
max_config_bytes = 1024

pub record Writer : Type 0 where
  pub bytes : Buffer
  pub bit_count : ℕ

pub record Reader : Type 0 where
  pub bytes : Buffer
  pub size : ℕ
  pub bit_offset : ℕ

-- `data[byte_offset] |= (value & 1) << shift`, in a byte that is cleared when it is begun.
unfoldable pub pushed : Writer → ℕ → Writer
pushed w value =
    let offset = w.bit_count / 8 in
    let shift = 7 - w.bit_count % 8 in
    let cleared = if w.bit_count % 8 == 0 then write w.bytes offset 0 else w.bytes in
    record {
      bytes = write cleared offset (bit_or (cleared offset) (value % 2 * 2 ^ shift % 2 ^ 8));
      bit_count = w.bit_count + 1;
    }

unfoldable pub put_bit : Writer → ℕ → Result Writer
put_bit w value =
    if leb (max_config_bytes * 8) w.bit_count then err eoverflow else ok (pushed w value)

-- The loop of `put_bits`, highest bit first.
unfoldable pub put_loop : Writer → ℕ → ℕ → Result Writer
put_loop w value zero = ok w
put_loop w value (suc count) = put_bit w (value / 2 ^ count % 2) >>= λ v. put_loop v value count

unfoldable pub put_bits : Writer → ℕ → ℕ → Result Writer
put_bits w value count = if ltb 32 count then err einval else put_loop w value count

-- `while ((code_num >> bits) != 0) ++bits`, with fuel.
unfoldable pub bit_length : ℕ → ℕ → ℕ → ℕ
bit_length zero bits code = bits
bit_length (suc fuel) bits code =
    let rest = bit_length fuel (bits + 1) code in if code / 2 ^ bits == 0 then bits else rest

unfoldable pub put_zeroes : Writer → ℕ → Result Writer
put_zeroes w zero = ok w
put_zeroes w (suc count) = put_bit w 0 >>= λ v. put_zeroes v count

-- A 32-bit value plus one has at most 33 bits.
unfoldable pub put_ue : Writer → ℕ → Result Writer
put_ue w value =
    let code = value + 1 in
    let bits = bit_length 34 0 code in
    put_zeroes w (bits - 1) >>= λ v. put_bits v (code % 2 ^ 32) bits

pub record Signed : Type 0 where
  pub negative : Bool
  pub magnitude : ℕ

-- A zero is not positive.
unfoldable pub put_se : Writer → Signed → Result Writer
put_se w value =
    let code =
      if value.negative || value.magnitude == 0
      then value.magnitude * 2
      else value.magnitude * 2 - 1 in
    if ltb (2 ^ 32 - 1) code then err eoverflow else put_ue w code

-- `while ((writer->bit_count % 8) != 0)`: the rounds are what is missing from the byte.
unfoldable pub align : ℕ → Writer → Result Writer
align zero w = ok w
align (suc fuel) w = put_bit w 0 >>= align fuel

unfoldable pub finish_rbsp : Writer → Result Writer
finish_rbsp w = put_bit w 1 >>= λ v. align ((8 - v.bit_count % 8) % 8) v

unfoldable pub read_bit : Reader → Result (ℕ × Reader)
read_bit r =
    if leb (r.size * 8) r.bit_offset
    then err eproto
    else ok (
      r.bytes (r.bit_offset / 8) / 2 ^ (7 - r.bit_offset % 8) % 2,
      record r { bit_offset = r.bit_offset + 1 },
    )

-- Bits shifted into a 32-bit value.
unfoldable pub read_loop : ℕ → ℕ → Reader → Result (ℕ × Reader)
read_loop zero value r = ok (value, r)
read_loop (suc count) value r =
    read_bit r >>= λ (p : ℕ × Reader). read_loop count (bit_or (value * 2 % 2 ^ 32) p.0) p.1

unfoldable pub read_bits : Reader → ℕ → Result (ℕ × Reader)
read_bits r count = if ltb 32 count then err einval else read_loop count 0 r

-- The zeroes before the first one, at most 31 of them.
unfoldable pub read_zeroes : ℕ → ℕ → Reader → Result (ℕ × Reader)
read_zeroes zero seen r = err eoverflow
read_zeroes (suc left) seen r = read_bit r >>= λ (p : ℕ × Reader). elim (p.0 == 0) [
  | true ↦ read_zeroes left (seen + 1) p.1
  | false ↦ ok (seen, p.1)
]

unfoldable pub read_ue : Reader → Result (ℕ × Reader)
read_ue r = read_zeroes 32 0 r >>= λ (p : ℕ × Reader).
    read_loop p.0 0 p.1 >>= λ (q : ℕ × Reader). ok ((2 ^ p.0 - 1 + q.0) % 2 ^ 32, q.1)

unfoldable pub read_se : Reader → Result (Signed × Reader)
read_se r = read_ue r >>= λ (p : ℕ × Reader).
    if ltb ((2 ^ 31 - 1) * 2) p.0
    then err eoverflow
    else ok (
      record {
        negative = p.0 % 2 == 0 && not (p.0 == 0);
        magnitude = if p.0 % 2 == 1 then (p.0 + 1) / 2 else p.0 / 2;
      },
      p.1,
    )
