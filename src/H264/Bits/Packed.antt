-- ===== src/H264/Bits/Packed.antt =====
-- The bytes of a writer against the sequence of its bits.
use native.Mathlib.Nat.{div-add-mod, pow-suc, mul-le-mul_left}
use lin_de_x.Base.{
  subst, sym, ℕ, zero, suc, ◌+◌, ◌-◌, ◌*◌, ◌/◌, ◌%◌, ◌^◌, ◌==◌, ◌<◌, ◌≤◌, if◌then◌else◌, ok, ◌≡◌,
  ◌≢◌, arith, bit_or,
}
use lin_de_x.Base.Bits.{bit_or_fields_high}
use lin_de_x.H264.Bits.{Writer, Reader, pushed, read_bit}

-- Eight bits, highest first, from the one at `8 * o` on.
unfoldable pub byte_of : (ℕ → ℕ) → ℕ → ℕ
byte_of bits o =
    bits (8 * o) * 128
    + bits (8 * o + 1) * 64
    + bits (8 * o + 2) * 32
    + bits (8 * o + 3) * 16
    + bits (8 * o + 4) * 8
    + bits (8 * o + 5) * 4
    + bits (8 * o + 6) * 2
    + bits (8 * o + 7)

unfoldable pub extend : (ℕ → ℕ) → ℕ → ℕ → ℕ → ℕ
extend bits n b i = if i == n then b else bits i

-- The sequence `bits` is what the writer has taken, with nothing behind it.
pub record Packs (w : Writer) (bits : ℕ → ℕ) : Type 0 where
  pub binary : (i : ℕ) → bits i < 2
  pub ended : (i : ℕ) → w.bit_count ≤ i → bits i ≡ 0
  pub packed : (o : ℕ) → o * 8 < w.bit_count → w.bytes o ≡ byte_of bits o

-- A bit below the last one of a number adds to it.
or_low : (k x b : ℕ) → x % 2 ^ suc k ≡ 0 → b < 2 → bit_or x (b * 2 ^ k) ≡ x + b * 2 ^ k
or_low k x b h l =
    let high = x / 2 ^ suc k in
    let whole : x ≡ high * 2 ^ suc k = omega (arith, div-add-mod x (2 ^ suc k)) in
    let small : b * 2 ^ k < 2 ^ suc k =
      omega (arith, pow-suc 2 k, pow_positive k, mul-le-mul_left (2 ^ k) (le_one b l)) in
    subst (λ (t : ℕ). bit_or t (b * 2 ^ k) ≡ t + b * 2 ^ k) (sym whole)
      (bit_or_fields_high (suc k) (b * 2 ^ k) high small)
  where
    le_one : (n : ℕ) → n < 2 → n ≤ 1
    le_one n m = omega arith

    pow_positive : (n : ℕ) → 0 < 2 ^ n
    pow_positive zero = omega arith
    pow_positive (suc n) = omega (arith, pow-suc 2 n, pow_positive n)

module _ (bits : ℕ → ℕ) (q b : ℕ) (binary : (i : ℕ) → bits i < 2) (bit : b < 2) where
  -- The byte `q` with a bit set at `k`, behind which it is empty.
  byte_extended :
      (k : ℕ)
      → k < 8
      → ((i : ℕ) → 8 * q + k ≤ i → bits i ≡ 0)
      → byte_of (extend bits (8 * q + k) b) q ≡ bit_or (byte_of bits q) (b * 2 ^ (7 - k))
  unfolding byte_of extend
  byte_extended zero h ended =
      let empty : byte_of bits q % 2 ^ 8 ≡ 0 = ground (
        arith,
        ended (8 * q) (omega arith),
        ended (8 * q + 1) (omega arith),
        ended (8 * q + 2) (omega arith),
        ended (8 * q + 3) (omega arith),
        ended (8 * q + 4) (omega arith),
        ended (8 * q + 5) (omega arith),
        ended (8 * q + 6) (omega arith),
        ended (8 * q + 7) (omega arith),
      ) in
      ground (
        arith,
        or_low 7 (byte_of bits q) b empty bit,
        ended (8 * q) (omega arith),
        ended (8 * q + 1) (omega arith),
        ended (8 * q + 2) (omega arith),
        ended (8 * q + 3) (omega arith),
        ended (8 * q + 4) (omega arith),
        ended (8 * q + 5) (omega arith),
        ended (8 * q + 6) (omega arith),
        ended (8 * q + 7) (omega arith),
      )
  byte_extended (suc zero) h ended =
      let empty : byte_of bits q % 2 ^ 7 ≡ 0 = ground (
        arith,
        ended (8 * q + 1) (omega arith),
        ended (8 * q + 2) (omega arith),
        ended (8 * q + 3) (omega arith),
        ended (8 * q + 4) (omega arith),
        ended (8 * q + 5) (omega arith),
        ended (8 * q + 6) (omega arith),
        ended (8 * q + 7) (omega arith),
      ) in
      ground (
        arith,
        or_low 6 (byte_of bits q) b empty bit,
        ended (8 * q + 1) (omega arith),
        ended (8 * q + 2) (omega arith),
        ended (8 * q + 3) (omega arith),
        ended (8 * q + 4) (omega arith),
        ended (8 * q + 5) (omega arith),
        ended (8 * q + 6) (omega arith),
        ended (8 * q + 7) (omega arith),
      )
  byte_extended (suc (suc zero)) h ended =
      let empty : byte_of bits q % 2 ^ 6 ≡ 0 = ground (
        arith,
        ended (8 * q + 2) (omega arith),
        ended (8 * q + 3) (omega arith),
        ended (8 * q + 4) (omega arith),
        ended (8 * q + 5) (omega arith),
        ended (8 * q + 6) (omega arith),
        ended (8 * q + 7) (omega arith),
      ) in
      ground (
        arith,
        or_low 5 (byte_of bits q) b empty bit,
        ended (8 * q + 2) (omega arith),
        ended (8 * q + 3) (omega arith),
        ended (8 * q + 4) (omega arith),
        ended (8 * q + 5) (omega arith),
        ended (8 * q + 6) (omega arith),
        ended (8 * q + 7) (omega arith),
      )
  byte_extended (suc (suc (suc zero))) h ended =
      let empty : byte_of bits q % 2 ^ 5 ≡ 0 = ground (
        arith,
        ended (8 * q + 3) (omega arith),
        ended (8 * q + 4) (omega arith),
        ended (8 * q + 5) (omega arith),
        ended (8 * q + 6) (omega arith),
        ended (8 * q + 7) (omega arith),
      ) in
      ground (
        arith,
        or_low 4 (byte_of bits q) b empty bit,
        ended (8 * q + 3) (omega arith),
        ended (8 * q + 4) (omega arith),
        ended (8 * q + 5) (omega arith),
        ended (8 * q + 6) (omega arith),
        ended (8 * q + 7) (omega arith),
      )
  byte_extended (suc (suc (suc (suc zero)))) h ended =
      let empty : byte_of bits q % 2 ^ 4 ≡ 0 = ground (
        arith,
        ended (8 * q + 4) (omega arith),
        ended (8 * q + 5) (omega arith),
        ended (8 * q + 6) (omega arith),
        ended (8 * q + 7) (omega arith),
      ) in
      ground (
        arith,
        or_low 3 (byte_of bits q) b empty bit,
        ended (8 * q + 4) (omega arith),
        ended (8 * q + 5) (omega arith),
        ended (8 * q + 6) (omega arith),
        ended (8 * q + 7) (omega arith),
      )
  byte_extended (suc (suc (suc (suc (suc zero))))) h ended =
      let empty : byte_of bits q % 2 ^ 3 ≡ 0 = ground (
        arith,
        ended (8 * q + 5) (omega arith),
        ended (8 * q + 6) (omega arith),
        ended (8 * q + 7) (omega arith),
      ) in
      ground (
        arith,
        or_low 2 (byte_of bits q) b empty bit,
        ended (8 * q + 5) (omega arith),
        ended (8 * q + 6) (omega arith),
        ended (8 * q + 7) (omega arith),
      )
  byte_extended (suc (suc (suc (suc (suc (suc zero)))))) h ended =
      let empty : byte_of bits q % 2 ^ 2 ≡ 0 =
        ground (arith, ended (8 * q + 6) (omega arith), ended (8 * q + 7) (omega arith)) in
      ground (
        arith,
        or_low 1 (byte_of bits q) b empty bit,
        ended (8 * q + 6) (omega arith),
        ended (8 * q + 7) (omega arith),
      )
  byte_extended (suc (suc (suc (suc (suc (suc (suc zero))))))) h ended =
      let empty : byte_of bits q % 2 ^ 1 ≡ 0 = ground (arith, ended (8 * q + 7) (omega arith)) in
      ground (arith, or_low 0 (byte_of bits q) b empty bit, ended (8 * q + 7) (omega arith))
  byte_extended (suc (suc (suc (suc (suc (suc (suc (suc k)))))))) h ended = absurd (omega arith)

  -- The byte `o` when a bit is set in another one.
  byte_apart : (n o : ℕ) → n / 8 ≢ o → byte_of (extend bits n b) o ≡ byte_of bits o
  unfolding byte_of extend
  byte_apart n o h = ground arith

  -- A byte that is not begun is empty.
  byte_empty : ((i : ℕ) → 8 * q ≤ i → bits i ≡ 0) → byte_of bits q ≡ 0
  unfolding byte_of
  byte_empty ended = ground (
    arith,
    ended (8 * q) (omega arith),
    ended (8 * q + 1) (omega arith),
    ended (8 * q + 2) (omega arith),
    ended (8 * q + 3) (omega arith),
    ended (8 * q + 4) (omega arith),
    ended (8 * q + 5) (omega arith),
    ended (8 * q + 6) (omega arith),
    ended (8 * q + 7) (omega arith),
  )

-- A bit that is shifted inside a byte keeps its value.
bit_in_byte : (k b : ℕ) → k < 8 → b < 2 → b * 2 ^ (7 - k) % 2 ^ 8 ≡ b * 2 ^ (7 - k)
bit_in_byte zero b h l = omega arith
bit_in_byte (suc zero) b h l = omega arith
bit_in_byte (suc (suc zero)) b h l = omega arith
bit_in_byte (suc (suc (suc zero))) b h l = omega arith
bit_in_byte (suc (suc (suc (suc zero)))) b h l = omega arith
bit_in_byte (suc (suc (suc (suc (suc zero))))) b h l = omega arith
bit_in_byte (suc (suc (suc (suc (suc (suc zero)))))) b h l = omega arith
bit_in_byte (suc (suc (suc (suc (suc (suc (suc zero))))))) b h l = omega arith
bit_in_byte (suc (suc (suc (suc (suc (suc (suc (suc k)))))))) b h l = absurd (omega arith)

-- Bit `k` of a byte.
byte_bit :
    (bits : ℕ → ℕ) (q : ℕ) (binary : (i : ℕ) → bits i < 2) (k : ℕ)
    → k < 8
    → byte_of bits q / 2 ^ (7 - k) % 2 ≡ bits (8 * q + k)
unfolding byte_of
byte_bit bits q binary zero h = ground (
  arith,
  binary (8 * q),
  binary (8 * q + 1),
  binary (8 * q + 2),
  binary (8 * q + 3),
  binary (8 * q + 4),
  binary (8 * q + 5),
  binary (8 * q + 6),
  binary (8 * q + 7),
)
byte_bit bits q binary (suc zero) h = ground (
  arith,
  binary (8 * q),
  binary (8 * q + 1),
  binary (8 * q + 2),
  binary (8 * q + 3),
  binary (8 * q + 4),
  binary (8 * q + 5),
  binary (8 * q + 6),
  binary (8 * q + 7),
)
byte_bit bits q binary (suc (suc zero)) h = ground (
  arith,
  binary (8 * q),
  binary (8 * q + 1),
  binary (8 * q + 2),
  binary (8 * q + 3),
  binary (8 * q + 4),
  binary (8 * q + 5),
  binary (8 * q + 6),
  binary (8 * q + 7),
)
byte_bit bits q binary (suc (suc (suc zero))) h = ground (
  arith,
  binary (8 * q),
  binary (8 * q + 1),
  binary (8 * q + 2),
  binary (8 * q + 3),
  binary (8 * q + 4),
  binary (8 * q + 5),
  binary (8 * q + 6),
  binary (8 * q + 7),
)
byte_bit bits q binary (suc (suc (suc (suc zero)))) h = ground (
  arith,
  binary (8 * q),
  binary (8 * q + 1),
  binary (8 * q + 2),
  binary (8 * q + 3),
  binary (8 * q + 4),
  binary (8 * q + 5),
  binary (8 * q + 6),
  binary (8 * q + 7),
)
byte_bit bits q binary (suc (suc (suc (suc (suc zero))))) h = ground (
  arith,
  binary (8 * q),
  binary (8 * q + 1),
  binary (8 * q + 2),
  binary (8 * q + 3),
  binary (8 * q + 4),
  binary (8 * q + 5),
  binary (8 * q + 6),
  binary (8 * q + 7),
)
byte_bit bits q binary (suc (suc (suc (suc (suc (suc zero)))))) h = ground (
  arith,
  binary (8 * q),
  binary (8 * q + 1),
  binary (8 * q + 2),
  binary (8 * q + 3),
  binary (8 * q + 4),
  binary (8 * q + 5),
  binary (8 * q + 6),
  binary (8 * q + 7),
)
byte_bit bits q binary (suc (suc (suc (suc (suc (suc (suc zero))))))) h = ground (
  arith,
  binary (8 * q),
  binary (8 * q + 1),
  binary (8 * q + 2),
  binary (8 * q + 3),
  binary (8 * q + 4),
  binary (8 * q + 5),
  binary (8 * q + 6),
  binary (8 * q + 7),
)
byte_bit bits q binary (suc (suc (suc (suc (suc (suc (suc (suc k)))))))) h = absurd (omega arith)

module _ (w : Writer) (bits : ℕ → ℕ) (p : Packs w bits) (value : ℕ) where
  pushed-packed :
      (o : ℕ)
      → o * 8 < w.bit_count + 1
      → (pushed w value).bytes o ≡ byte_of (extend bits w.bit_count (value % 2)) o
  unfolding pushed
  pushed-packed o h =
      let q = w.bit_count / 8 in
      let k = w.bit_count % 8 in
      let split : w.bit_count ≡ 8 * q + k = omega arith in
      let bit : value % 2 < 2 = omega arith in
      ground (
        arith,
        byte_apart bits q (value % 2) p.binary bit w.bit_count o,
        p.packed o,
        λ (z : w.bit_count % 8 ≡ 0).
            byte_empty bits q (value % 2) p.binary bit (λ i l. p.ended i (omega (arith, l, z))),
        bit_in_byte k (value % 2) (omega arith) bit,
        subst
            (λ (n : ℕ).
              byte_of (extend bits n (value % 2)) q
              ≡ bit_or (byte_of bits q) (value % 2 * 2 ^ (7 - k)))
            (sym split)
            (byte_extended bits q (value % 2) p.binary bit k (omega arith)
              (λ i l. p.ended i (omega (arith, l, split)))),
      )

  pub pushed-Packs : Packs (pushed w value) (extend bits w.bit_count (value % 2))
  unfolding pushed extend
  pushed-Packs = record {
    binary = λ i. ground (arith, p.binary i);
    ended = λ i l. ground (arith, p.ended i);
    packed = λ o h. pushed-packed o h;
  }

-- Bit `i` is what the reader gets at the offset `i`.
pub read_bit-Packs :
    (w : Writer) (bits : ℕ → ℕ) (p : Packs w bits) (r : Reader)
    → ((o : ℕ) → r.bytes o ≡ w.bytes o)
    → r.bit_offset < w.bit_count
    → w.bit_count ≤ r.size * 8
    → read_bit r ≡ ok (bits r.bit_offset, record r { bit_offset = r.bit_offset + 1 })
unfolding read_bit
read_bit-Packs w bits p r same l m =
    let q = r.bit_offset / 8 in
    let k = r.bit_offset % 8 in
    let split : 8 * q + k ≡ r.bit_offset = omega arith in
    ground (
      arith,
      same q,
      p.packed q,
      subst (λ (n : ℕ). byte_of bits q / 2 ^ (7 - k) % 2 ≡ bits n) split
          (byte_bit bits q p.binary k (omega arith)),
    )
