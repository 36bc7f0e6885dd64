-- ===== src/Base/Bits.antt =====
-- The native `|` on numbers whose set bits do not meet is their sum, at every width.
use Prim.Native.Nat.{
  ℕ, zero, suc, ◌+◌, ◌*◌, ◌/◌, ◌%◌, ◌^◌, ◌≤◌, ◌<◌, max, digits, bit_or, bit_or-bitwise,
}
use mathlib.Core.Path.{◌≡◌, refl, ap, ◌∙◌}
use native.Mathlib.Nat.{
  pow-suc, one-le-pow, mod-lt, mul-le-mul_right, div-add-mod, add-mul-mod_self_right, mod-eq_of_lt,
}
use native.Mathlib.Decide.{dec_le}
use native.Mathlib.Omega.{arith}

-- Disjunction digit by digit, for as many digits as there is fuel.
abbrev disjunction : ℕ → ℕ → ℕ → ℕ
disjunction fuel x y = digits (λ rest. rest) max fuel x y

-- Any fuel that is at least the first number gives the same.
disjunction-enough :
    (x y fuel other : ℕ) → x ≤ other → x ≤ fuel → disjunction fuel x y ≡ disjunction other x y
disjunction-enough zero y zero zero l k = refl
disjunction-enough zero y zero (suc other) l k = refl
disjunction-enough zero y (suc fuel) zero l k = refl
disjunction-enough zero y (suc fuel) (suc other) l k = refl
disjunction-enough (suc x) y zero other l k = absurd (omega arith)
disjunction-enough (suc x) y (suc fuel) zero l k = absurd (omega arith)
disjunction-enough (suc x) y (suc fuel) (suc other) l k =
    let halves = disjunction-enough (suc x / 2) (y / 2) fuel other (omega arith) (omega arith) in
    omega (arith, halves)

none-or : (y : ℕ) → bit_or 0 y ≡ y
none-or y = bit_or-bitwise 0 y

-- The last digits of two numbers disjoin by themselves.
or-halves : (x y : ℕ) → bit_or x y ≡ max (x % 2) (y % 2) + 2 * bit_or (x / 2) (y / 2)
or-halves zero y = omega (arith, none-or y, none-or (y / 2))
or-halves (suc x) y =
    let half = suc x / 2 in
    omega (
      arith,
      bit_or-bitwise half (y / 2),
      bit_or-bitwise (suc x) y,
      disjunction-enough half (y / 2) x half (omega arith) (omega arith),
    )

-- A field that is shifted past the width of another adds to it.
pub bit_or_fields : (k low high : ℕ) → low < 2 ^ k → bit_or low (high * 2 ^ k) ≡ low + high * 2 ^ k
bit_or_fields zero low high h = ground (arith, none-or (high * 2 ^ 0))
bit_or_fields (suc k) low high h =
    let doubled : high * 2 ^ suc k ≡ 2 * (high * 2 ^ k) =
      omega (arith, ap (λ (t : ℕ). high * t) (pow-suc 2 k)) in
    ground (
      arith,
      or-halves low (high * 2 ^ suc k),
      doubled,
      bit_or_fields k (low / 2) high (omega (arith, pow-suc 2 k)),
    )

-- `|` takes its numbers in either order.
or-swap : (fuel x y : ℕ) → x + y ≤ fuel → bit_or x y ≡ bit_or y x
or-swap zero x y h =
    let (x_none, y_none) : (x ≡ 0) × (y ≡ 0) = omega arith in rw (x_none, y_none) refl
or-swap (suc fuel) x y h = elim (dec_le (x + y) fuel) [
  | yes less ↦ or-swap fuel x y less
  | no more ↦
      omega (arith, or-halves x y, or-halves y x, or-swap fuel (x / 2) (y / 2) (omega arith))
]

pub bit_or_comm : (x y : ℕ) → bit_or x y ≡ bit_or y x
bit_or_comm x y = or-swap (x + y) x y (omega arith)

-- The same sum with the high field first.
pub bit_or_fields_high :
    (k low high : ℕ) → low < 2 ^ k → bit_or (high * 2 ^ k) low ≡ high * 2 ^ k + low
bit_or_fields_high k low high h =
    omega (arith, bit_or_comm (high * 2 ^ k) low, bit_or_fields k low high h)

pub power_positive : (k : ℕ) → 0 < 2 ^ k
power_positive k = omega (arith, one-le-pow k 2 (omega arith))

-- The last `k + 1` bits of a number are its bit `k` and the last `k`.
pub mod-bit : (n k : ℕ) → n % 2 ^ suc k ≡ n / 2 ^ k % 2 * 2 ^ k + n % 2 ^ k
mod-bit n k =
    let power = 2 ^ k in
    let high = n / power / 2 in
    let bit = n / power % 2 in
    let low : n % power < power = mod-lt n (power_positive k) in
    let least : bit ≤ 1 = omega arith in
    let bound : bit * power ≤ power = omega (arith, mul-le-mul_right power least) in
    let halves : n / power ≡ high * 2 + bit = omega arith in
    let whole : n ≡ bit * power + n % power + high * 2 ^ suc k = omega (
      arith,
      div-add-mod n power,
      ap (λ (t : ℕ). power * t) halves,
      ap (λ (t : ℕ). high * t) (pow-suc 2 k),
    ) in
    let short : bit * power + n % power < 2 ^ suc k = omega (arith, pow-suc 2 k, low, bound) in
    omega (
      arith,
      ap (λ (t : ℕ). t % 2 ^ suc k) whole,
      add-mul-mod_self_right (bit * power + n % power) high (2 ^ suc k),
      mod-eq_of_lt short,
    )

pub power-next : (k : ℕ) → 2 ^ (k + 1) ≡ 2 ^ k * 2
power-next k = ap (λ (t : ℕ). 2 ^ t) (omega arith) ∙ pow-suc 2 k
