-- ===== src/Base/Bits.antt =====
-- Go's `|` of disjoint fields and `&` with a low mask as arithmetic, for fields of any width.
use Prim.Native.Nat.{
  ℕ, zero, suc, ◌+◌, ◌-◌, ◌*◌, ◌/◌, ◌%◌, ◌^◌, ◌≤◌, ◌<◌, min, max, bit_and, bit_or, digits,
  bit_and-bitwise, bit_or-bitwise,
}
use mathlib.Core.Path.{◌≡◌, refl, ◌∙◌, ap}
use native.Mathlib.Nat.{pow-suc, one-le-pow, div-add-mod}
use native.Mathlib.Omega.{arith}

-- The fuel of the digit recursion does not matter once it reaches the left operand.
module _ (right : ℕ → ℕ) (op : ℕ → ℕ → ℕ) where
  digits_more : (k j a b : ℕ) → a ≤ k → a ≤ j → digits right op k a b ≡ digits right op j a b
  digits_more zero zero a b hk hj = refl
  digits_more (suc k) zero zero b hk hj = refl
  digits_more zero (suc j) zero b hk hj = refl
  digits_more (suc k) (suc j) zero b hk hj = refl
  digits_more zero j (suc a) b hk hj = absurd (omega arith)
  digits_more (suc k) zero (suc a) b hk hj = absurd (omega arith)
  digits_more (suc k) (suc j) (suc a) b hk hj =
      ap (λ (t : ℕ). t * 2 + op (suc a % 2) (b % 2))
        (digits_more k j (suc a / 2) (b / 2) (omega arith) (omega arith))

-- The lowest binary digit of each operation, and the rest.
bit_or_low : (a b : ℕ) → bit_or a b ≡ bit_or (a / 2) (b / 2) * 2 + max (a % 2) (b % 2)
bit_or_low zero b = omega (arith, bit_or-bitwise 0 b, bit_or-bitwise 0 (b / 2))
bit_or_low (suc a) b = omega (
  arith,
  bit_or-bitwise (suc a) b,
  bit_or-bitwise (suc a / 2) (b / 2),
  digits_more (λ y. y) max a (suc a / 2) (suc a / 2) (b / 2) (omega arith) (omega arith),
)

bit_and_low : (a b : ℕ) → bit_and a b ≡ bit_and (a / 2) (b / 2) * 2 + min (a % 2) (b % 2)
bit_and_low zero b = omega (arith, bit_and-bitwise 0 b, bit_and-bitwise 0 (b / 2))
bit_and_low (suc a) b = omega (
  arith,
  bit_and-bitwise (suc a) b,
  bit_and-bitwise (suc a / 2) (b / 2),
  digits_more (λ y. 0) min a (suc a / 2) (suc a / 2) (b / 2) (omega arith) (omega arith),
)

bit_or_none_below : (k a : ℕ) → a ≤ k → bit_or a 0 ≡ a
bit_or_none_below k zero h = refl
bit_or_none_below zero (suc a) h = absurd (omega arith)
bit_or_none_below (suc k) (suc a) h =
    omega (arith, bit_or_low (suc a) 0, bit_or_none_below k (suc a / 2) (omega arith))

bit_and_none_below : (k a : ℕ) → a ≤ k → bit_and a 0 ≡ 0
bit_and_none_below k zero h = refl
bit_and_none_below zero (suc a) h = absurd (omega arith)
bit_and_none_below (suc k) (suc a) h =
    omega (arith, bit_and_low (suc a) 0, bit_and_none_below k (suc a / 2) (omega arith))

halves : (k hi : ℕ) → hi * 2 ^ suc k / 2 ≡ hi * 2 ^ k
halves k hi = omega (arith, ap (λ (t : ℕ). hi * t) (pow-suc 2 k))

mod_of_parts : (n q r : ℕ) → r < n → (q * n + r) % n ≡ r
mod_of_parts n q r h = grind arith

mod_double_lem : (k a : ℕ) → a % 2 ^ suc k ≡ a / 2 % 2 ^ k * 2 + a % 2
mod_double_lem k a =
    ap (λ (t : ℕ). t % 2 ^ suc k) parts
    ∙ mod_of_parts (2 ^ suc k) (a / 2 / 2 ^ k) (a / 2 % 2 ^ k * 2 + a % 2)
        (omega (arith, pow-suc 2 k, one-le-pow k 2 (omega arith)))
  where
    parts : a ≡ a / 2 / 2 ^ k * 2 ^ suc k + (a / 2 % 2 ^ k * 2 + a % 2)
    parts =
        omega (arith, ap (λ (t : ℕ). a / 2 / 2 ^ k * t) (pow-suc 2 k), div-add-mod (a / 2) (2 ^ k))

-- `a & (1<<k - 1)` is `a` modulo `1<<k`.
pub bit_and_mask : (k a : ℕ) → bit_and a (2 ^ k - 1) ≡ a % 2 ^ k
bit_and_mask zero a = omega (arith, bit_and_none_below a a (omega arith))
bit_and_mask (suc k) a = omega (
  arith,
  bit_and_low a (2 ^ suc k - 1),
  ap (λ (t : ℕ). bit_and (a / 2) t) (half_mask),
  bit_and_mask k (a / 2),
  pow-suc 2 k,
  one-le-pow k 2 (omega arith),
  mod_double_lem k a,
)
  where
    half_mask : (2 ^ suc k - 1) / 2 ≡ 2 ^ k - 1
    half_mask = omega (arith, pow-suc 2 k, one-le-pow k 2 (omega arith))

-- `hi<<k | lo` is a sum when `lo` fits in `k` bits.
pub bit_or_fields : (k hi lo : ℕ) → lo < 2 ^ k → bit_or (hi * 2 ^ k) lo ≡ hi * 2 ^ k + lo
bit_or_fields zero hi lo h =
    let e : lo ≡ 0 = omega arith in
    let f : hi * 2 ^ 0 ≡ hi = omega arith in
    rw (e, f, bit_or_none_below hi hi (omega arith)) (omega arith)
bit_or_fields (suc k) hi lo h = omega (
  arith,
  bit_or_low (hi * 2 ^ suc k) lo,
  ap (λ (t : ℕ). hi * t) (pow-suc 2 k),
  ap (λ (t : ℕ). bit_or t (lo / 2)) (halves k hi),
  bit_or_fields k hi (lo / 2) (omega (arith, pow-suc 2 k)),
)
