-- ===== src/Base/Masks.antt =====
-- The native `&` bit by bit.
use Prim.Native.Nat.{
  ℕ, zero, suc, ◌+◌, ◌*◌, ◌/◌, ◌%◌, ◌^◌, ◌≤◌, min, digits, bit_and, bit_and-bitwise,
}
use mathlib.Core.Path.{◌≡◌, refl, ap}
use native.Mathlib.Nat.{pow-suc, div-div-eq-div-mul}
use native.Mathlib.Omega.{arith}

abbrev conjunction : ℕ → ℕ → ℕ → ℕ
conjunction fuel x y = digits (λ rest. zero) min fuel x y

conjunction-enough :
    (x y fuel other : ℕ) → x ≤ other → x ≤ fuel → conjunction fuel x y ≡ conjunction other x y
conjunction-enough zero y zero zero l k = refl
conjunction-enough zero y zero (suc other) l k = refl
conjunction-enough zero y (suc fuel) zero l k = refl
conjunction-enough zero y (suc fuel) (suc other) l k = refl
conjunction-enough (suc x) y zero other l k = absurd (omega arith)
conjunction-enough (suc x) y (suc fuel) zero l k = absurd (omega arith)
conjunction-enough (suc x) y (suc fuel) (suc other) l k =
    omega (arith, conjunction-enough (suc x / 2) (y / 2) fuel other (omega arith) (omega arith))

none-and : (y : ℕ) → bit_and 0 y ≡ 0
none-and y = bit_and-bitwise 0 y

and-halves : (x y : ℕ) → bit_and x y ≡ min (x % 2) (y % 2) + 2 * bit_and (x / 2) (y / 2)
and-halves zero y = omega (arith, none-and y, none-and (y / 2))
and-halves (suc x) y =
    let half = suc x / 2 in
    omega (
      arith,
      bit_and-bitwise half (y / 2),
      bit_and-bitwise (suc x) y,
      conjunction-enough half (y / 2) x half (omega arith) (omega arith),
    )

-- Bit `k` of a number.
abbrev pub bit : ℕ → ℕ → ℕ
bit k n = n / 2 ^ k % 2

bit-half : (k n : ℕ) → bit (suc k) n ≡ bit k (n / 2)
bit-half k n =
    let twice : 2 ^ suc k ≡ 2 * 2 ^ k = omega (arith, pow-suc 2 k) in
    rw (twice) (omega (arith, div-div-eq-div-mul n 2 (2 ^ k)))

-- A bit is set in both numbers or clear.
pub bit-bit_and : (k x y : ℕ) → bit k (bit_and x y) ≡ min (bit k x) (bit k y)
bit-bit_and zero x y = omega (arith, and-halves x y)
bit-bit_and (suc k) x y =
    let below : bit_and x y / 2 ≡ bit_and (x / 2) (y / 2) = omega (arith, and-halves x y) in
    omega (
      arith,
      bit-half k (bit_and x y),
      bit-half k x,
      bit-half k y,
      ap (bit k) below,
      bit-bit_and k (x / 2) (y / 2),
    )

pub bit_and-le : (fuel x y : ℕ) → x ≤ fuel → bit_and x y ≤ x
bit_and-le zero x y h = let none : x ≡ 0 = omega arith in rw none (omega (arith, none-and y))
bit_and-le (suc fuel) zero y h = omega (arith, none-and y)
bit_and-le (suc fuel) (suc x) y h =
    omega (arith, and-halves (suc x) y, bit_and-le fuel (suc x / 2) (y / 2) (omega arith))
