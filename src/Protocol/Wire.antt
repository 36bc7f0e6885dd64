-- ===== src/Protocol/Wire.antt =====
-- The little-endian accessors of src/video_bridge/src/protocol.c: `advc_put_u16`, `advc_put_u32`,
-- `advc_put_u64` and the three readers. A buffer is the bytes at each offset from its start; a
-- pointer into it is an offset. The values of a buffer are bytes, below 256.
use lin_de_x.Base.{
  ltb, ℕ, ◌+◌, ◌*◌, ◌/◌, ◌%◌, ◌^◌, ◌<◌, ◌≤◌, ◌≡◌, ◌⊎◌, inl, arith, bit_or, ◌==◌, if◌then◌else◌,
}
use lin_de_x.Base.Bits.{bit_or_fields}

abbrev pub Buffer : Type 0
Buffer = ℕ → ℕ

-- `memset(p, 0, size)` for the whole of a buffer.
abbrev pub zeroes : Buffer
zeroes i = 0

-- `memset(p, 0, size)`
abbrev pub clear : Buffer → ℕ → Buffer
clear p size i = if ltb i size then 0 else p i

-- p[o] = v
abbrev pub write : Buffer → ℕ → ℕ → Buffer
write p o v i = if i == o then v else p i

unfoldable pub put_u16 : Buffer → ℕ → ℕ → Buffer
put_u16 p o v = write (write p o (v % 2 ^ 8)) (o + 1) (v / 2 ^ 8 % 2 ^ 8)

unfoldable pub put_u32 : Buffer → ℕ → ℕ → Buffer
put_u32 p o v =
    write
      (write (write (write p o (v % 2 ^ 8)) (o + 1) (v / 2 ^ 8 % 2 ^ 8)) (o + 2)
        (v / 2 ^ 16 % 2 ^ 8))
      (o + 3) (v / 2 ^ 24 % 2 ^ 8)

unfoldable pub put_u64 : Buffer → ℕ → ℕ → Buffer
put_u64 p o v = put_u32 (put_u32 p o (v % 2 ^ 32)) (o + 4) (v / 2 ^ 32 % 2 ^ 32)

-- The bytes of a word put together, lowest first.
unfoldable pub join_u16 : ℕ → ℕ → ℕ
join_u16 a b = bit_or a (b * 2 ^ 8)

unfoldable pub join_u32 : ℕ → ℕ → ℕ → ℕ → ℕ
join_u32 a b c d = bit_or (bit_or (bit_or a (b * 2 ^ 8)) (c * 2 ^ 16)) (d * 2 ^ 24)

unfoldable pub join_u64 : ℕ → ℕ → ℕ
join_u64 low high = bit_or low (high * 2 ^ 32)

unfoldable pub get_u16 : Buffer → ℕ → ℕ
get_u16 p o = join_u16 (p o) (p (o + 1))

unfoldable pub get_u32 : Buffer → ℕ → ℕ
get_u32 p o = join_u32 (p o) (p (o + 1)) (p (o + 2)) (p (o + 3))

unfoldable pub get_u64 : Buffer → ℕ → ℕ
get_u64 p o = join_u64 (get_u32 p o) (get_u32 p (o + 4))

-- Joining bytes is their sum with weights.
pub join_u16_sum : (a b : ℕ) → a < 2 ^ 8 → join_u16 a b ≡ a + b * 2 ^ 8
unfolding join_u16
join_u16_sum a b h = bit_or_fields 8 a b h

pub join_u32_sum :
    (a b c d : ℕ)
    → a < 2 ^ 8
    → b < 2 ^ 8
    → c < 2 ^ 8
    → join_u32 a b c d ≡ a + b * 2 ^ 8 + c * 2 ^ 16 + d * 2 ^ 24
unfolding join_u32
join_u32_sum a b c d ha hb hc =
    let ab : bit_or a (b * 2 ^ 8) ≡ a + b * 2 ^ 8 = bit_or_fields 8 a b ha in
    let abc : bit_or (a + b * 2 ^ 8) (c * 2 ^ 16) ≡ a + b * 2 ^ 8 + c * 2 ^ 16 =
      bit_or_fields 16 (a + b * 2 ^ 8) c (omega arith) in
    rw (ab, abc) (bit_or_fields 24 (a + b * 2 ^ 8 + c * 2 ^ 16) d (omega arith))

pub join_u64_sum : (low high : ℕ) → low < 2 ^ 32 → join_u64 low high ≡ low + high * 2 ^ 32
unfolding join_u64
join_u64_sum low high h = bit_or_fields 32 low high h

-- Splitting a word into bytes and joining them cuts it to its width.
pub join-split_u16 : (v : ℕ) → join_u16 (v % 2 ^ 8) (v / 2 ^ 8 % 2 ^ 8) ≡ v % 2 ^ 16
join-split_u16 v = omega (arith, join_u16_sum (v % 2 ^ 8) (v / 2 ^ 8 % 2 ^ 8) (omega arith))

pub join-split_u32 :
    (v : ℕ)
    → join_u32 (v % 2 ^ 8) (v / 2 ^ 8 % 2 ^ 8) (v / 2 ^ 16 % 2 ^ 8) (v / 2 ^ 24 % 2 ^ 8)
      ≡ v % 2 ^ 32
join-split_u32 v = omega (
  arith,
  join_u32_sum (v % 2 ^ 8) (v / 2 ^ 8 % 2 ^ 8) (v / 2 ^ 16 % 2 ^ 8) (v / 2 ^ 24 % 2 ^ 8)
      (omega arith) (omega arith) (omega arith),
)

pub join-split_u64 : (v : ℕ) → join_u64 (v % 2 ^ 32) (v / 2 ^ 32 % 2 ^ 32) ≡ v % 2 ^ 64
join-split_u64 v = omega (arith, join_u64_sum (v % 2 ^ 32) (v / 2 ^ 32 % 2 ^ 32) (omega arith))

-- A buffer that holds bytes.
abbrev pub IsBytes : Buffer → Type 0
IsBytes p = (i : ℕ) → p i < 2 ^ 8

pub get_u16-lt : (p : Buffer) (o : ℕ) → IsBytes p → get_u16 p o < 2 ^ 16
unfolding get_u16
get_u16-lt p o b = omega (arith, join_u16_sum (p o) (p (o + 1)) (b o), b o, b (o + 1))

pub get_u32-lt : (p : Buffer) (o : ℕ) → IsBytes p → get_u32 p o < 2 ^ 32
unfolding get_u32
get_u32-lt p o b = omega (
  arith,
  join_u32_sum (p o) (p (o + 1)) (p (o + 2)) (p (o + 3)) (b o) (b (o + 1)) (b (o + 2)),
  b o,
  b (o + 1),
  b (o + 2),
  b (o + 3),
)

pub get_u64-lt : (p : Buffer) (o : ℕ) → IsBytes p → get_u64 p o < 2 ^ 64
unfolding get_u64
get_u64-lt p o b = omega (
  arith,
  join_u64_sum (get_u32 p o) (get_u32 p (o + 4)) (get_u32-lt p o b),
  get_u32-lt p o b,
  get_u32-lt p (o + 4) b,
)

module _ (p : Buffer) (o v : ℕ) where
  -- What is read back is the value, cut to the width.
  pub get-put_u16 : get_u16 (put_u16 p o v) o ≡ v % 2 ^ 16
  unfolding get_u16 put_u16
  get-put_u16 = ground (arith, join-split_u16 v)

  pub get-put_u32 : get_u32 (put_u32 p o v) o ≡ v % 2 ^ 32
  unfolding get_u32 put_u32
  get-put_u32 = ground (arith, join-split_u32 v)

  -- A write leaves a word that it does not overlap.
  pub get_u32-put_u32_ne :
      (i : ℕ) → (i + 4 ≤ o) ⊎ (o + 4 ≤ i) → get_u32 (put_u32 p o v) i ≡ get_u32 p i
  unfolding get_u32 put_u32
  get_u32-put_u32_ne i h = ground arith

-- A second word is written behind the first and leaves it.
pub get-put_u64 : (p : Buffer) (o v : ℕ) → get_u64 (put_u64 p o v) o ≡ v % 2 ^ 64
unfolding get_u64 put_u64
get-put_u64 p o v =
    let low = put_u32 p o (v % 2 ^ 32) in
    let high = v / 2 ^ 32 % 2 ^ 32 in
    rw
      (
        get_u32-put_u32_ne low (o + 4) high o (inl (omega arith)),
        get-put_u32 p o (v % 2 ^ 32),
        get-put_u32 low (o + 4) high,
      )
      (ground (arith, join-split_u64 v))
