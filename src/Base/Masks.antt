-- ===== src/Base/Masks.antt =====
-- Bitwise and with a mask of high bits, and bitwise or with a mask of low bits.
use Prim.Native.Nat.{
  ℕ, zero, suc, ◌+◌, ◌-◌, ◌*◌, ◌/◌, ◌%◌, ◌^◌, ◌≤◌, ◌<◌, min, max, digits, bit_and, bit_or,
  bit_and-bitwise, bit_or-bitwise,
}
use mathlib.Core.Path.{◌≡◌, sym, subst, ◌∙◌}
use mathlib.Core.Logic.{◌↔◌}
use native.Mathlib.Omega.{arith}
use native.Mathlib.Nat.{
  two-pow-succ, div-div-eq-div-mul, div-one, zero-div, div-eq_of_lt-le, div-mul-le_self,
  lt-div-mul-add,
}

-- The number with its last `k` bits cleared.
abbrev pub floor : ℕ → ℕ → ℕ
floor k x = x / 2 ^ k * 2 ^ k

pub pow-pos : (k : ℕ) → 0 < 2 ^ k
pow-pos zero = omega arith
pow-pos (suc k) = omega (arith, pow-pos k, two-pow-succ k)

floor-suc : (k x : ℕ) → floor (suc k) x ≡ floor k (x / 2) * 2
floor-suc k x =
    let twice : 2 ^ suc k ≡ 2 * 2 ^ k = omega (arith, two-pow-succ k) in
    let halved : x / 2 / 2 ^ k ≡ x / (2 * 2 ^ k) = div-div-eq-div-mul x 2 (2 ^ k) in
    rw (twice, sym halved) (omega arith)

floor-zero : (x : ℕ) → floor zero x ≡ x
floor-zero x = rw (div-one x) (omega arith)

floor-zero_left : (k : ℕ) → floor k zero ≡ zero
floor-zero_left k = rw (zero-div (2 ^ k)) (omega arith)

and_high :
    (n w k a : ℕ)
    → a ≤ n
    → a < 2 ^ w
    → k ≤ w
    → digits (λ b. zero) min n a (2 ^ w - 2 ^ k) ≡ floor k a
and_high zero w k zero h hw hk = sym (floor-zero_left k)
and_high zero w k (suc a) h hw hk = absurd (omega arith)
and_high (suc n) w k zero h hw hk = sym (floor-zero_left k)
and_high (suc n) zero k (suc a) h hw hk = absurd (omega arith)
and_high (suc n) (suc w) zero (suc a) h hw hk =
    let double = two-pow-succ w in
    let pos = pow-pos w in
    let rest : (2 ^ suc w - 2 ^ zero) / 2 ≡ 2 ^ w - 2 ^ zero = omega (arith, double, pos) in
    let odd : (2 ^ suc w - 2 ^ zero) % 2 ≡ 1 = omega (arith, double, pos) in
    rw
      (
        rest,
        odd,
        and_high n w zero (suc a / 2) (omega arith) (omega (arith, double)) (omega arith),
        floor-zero (suc a / 2),
        floor-zero (suc a),
      )
      (omega arith)
and_high (suc n) (suc w) (suc k) (suc a) h hw hk =
    let double = two-pow-succ w in
    let double' = two-pow-succ k in
    let rest : (2 ^ suc w - 2 ^ suc k) / 2 ≡ 2 ^ w - 2 ^ k = omega (arith, double, double') in
    let even : (2 ^ suc w - 2 ^ suc k) % 2 ≡ 0 = omega (arith, double, double') in
    rw
      (
        rest,
        even,
        and_high n w k (suc a / 2) (omega arith) (omega (arith, double)) (omega arith),
        floor-suc k (suc a),
      )
      (omega arith)

or_low : (n k a : ℕ) → a ≤ n → digits (λ b. b) max n a (2 ^ k - 1) ≡ floor k a + (2 ^ k - 1)
or_low zero k zero h = omega (arith, floor-zero_left k)
or_low zero k (suc a) h = absurd (omega arith)
or_low (suc n) k zero h = omega (arith, floor-zero_left k)
or_low (suc n) zero (suc a) h =
    rw (or_low n zero (suc a / 2) (omega arith), floor-zero (suc a / 2), floor-zero (suc a))
      (omega arith)
or_low (suc n) (suc k) (suc a) h =
    let double = two-pow-succ k in
    let pos = pow-pos k in
    let rest : (2 ^ suc k - 1) / 2 ≡ 2 ^ k - 1 = omega (arith, double, pos) in
    let odd : (2 ^ suc k - 1) % 2 ≡ 1 = omega (arith, double, pos) in
    rw (rest, odd, or_low n k (suc a / 2) (omega arith), floor-suc k (suc a))
      (omega (arith, double, pos))

-- Of the low `w` bits of a number all but the last `k` are kept.
pub bit_and-high : (w k a : ℕ) → a < 2 ^ w → k ≤ w → bit_and a (2 ^ w - 2 ^ k) ≡ floor k a
bit_and-high w k a h hk = bit_and-bitwise a (2 ^ w - 2 ^ k) ∙ and_high a w k a (omega arith) h hk

-- The last `k` bits are set.
pub bit_or-low : (k a : ℕ) → bit_or a (2 ^ k - 1) ≡ floor k a + (2 ^ k - 1)
bit_or-low k a = bit_or-bitwise a (2 ^ k - 1) ∙ or_low a k a (omega arith)

-- Between the two lie the numbers that differ from `a` in their last `k` bits only.
pub floor-between :
    (k a x : ℕ) → ((floor k a ≤ x) × (x ≤ floor k a + (2 ^ k - 1))) ↔ (x / 2 ^ k ≡ a / 2 ^ k)
floor-between k a x = (
  (λ h. div-eq_of_lt-le (2 ^ k) h.0 (omega (arith, h.1, pow-pos k))),
  (λ e.
      subst (λ q. (q * 2 ^ k ≤ x) × (x ≤ q * 2 ^ k + (2 ^ k - 1))) e
        (
          div-mul-le_self x (2 ^ k),
          omega (arith, lt-div-mul-add {a = x} {b = 2 ^ k} (pow-pos k), pow-pos k),
        )),
)
