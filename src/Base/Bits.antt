-- ===== src/Base/Bits.antt =====
-- Masks and fields of machine words as arithmetic. The native `bit_or` and `bit_and` are defined by
-- a recursion on binary digits; one equation for the lowest digit carries every law.
use Prim.Native.Nat.{ℕ, zero, suc, ◌+◌, ◌*◌, ◌/◌, ◌%◌, ◌^◌, ◌≤◌, ◌<◌, min, max}
use Prim.Native.Nat.{digits, bitwise, bit_and, bit_or, bit_and-bitwise, bit_or-bitwise}
use mathlib.Core.Path.{◌≡◌, refl, ap, ◌∙◌}
use native.Mathlib.Omega.{arith}
use native.Mathlib.Nat.{pow-suc}

module _ (zeros : ℕ → ℕ) (digit : ℕ → ℕ → ℕ) where
  digits_enough :
      (k l x y : ℕ) → x ≤ k → x ≤ l → digits zeros digit k x y ≡ digits zeros digit l x y
  digits_enough zero zero x y p q = refl
  digits_enough (suc k) zero zero y p q = refl
  digits_enough (suc k) zero (suc x) y p q = absurd (omega arith)
  digits_enough zero (suc l) zero y p q = refl
  digits_enough zero (suc l) (suc x) y p q = absurd (omega arith)
  digits_enough (suc k) (suc l) zero y p q = refl
  digits_enough (suc k) (suc l) (suc x) y p q =
      ap (λ (t : ℕ). t * 2 + digit (suc x % 2) (y % 2))
        (digits_enough k l (suc x / 2) (y / 2) (omega arith) (omega arith))

  bitwise_lowest :
      (x y : ℕ)
      → bitwise zeros digit (suc x) y
        ≡ bitwise zeros digit (suc x / 2) (y / 2) * 2 + digit (suc x % 2) (y % 2)
  bitwise_lowest x y =
      ap (λ (t : ℕ). t * 2 + digit (suc x % 2) (y % 2))
        (digits_enough x (suc x / 2) (suc x / 2) (y / 2) (omega arith) (omega arith))

or_lowest : (x y : ℕ) → bit_or x y ≡ bit_or (x / 2) (y / 2) * 2 + max (x % 2) (y % 2)
or_lowest zero y = simp bit_or-bitwise (omega arith)
or_lowest (suc x) y = simp bit_or-bitwise (bitwise_lowest (λ b. b) max x y)

and_lowest : (x y : ℕ) → bit_and x y ≡ bit_and (x / 2) (y / 2) * 2 + min (x % 2) (y % 2)
and_lowest zero y = simp bit_and-bitwise (omega arith)
and_lowest (suc x) y = simp bit_and-bitwise (bitwise_lowest (λ b. zero) min x y)

and_zero_below : (k x : ℕ) → x ≤ k → bit_and x 0 ≡ 0
and_zero_below k zero h = refl
and_zero_below zero (suc x) h = absurd (omega arith)
and_zero_below (suc k) (suc x) h =
    omega (arith, and_lowest (suc x) 0, and_zero_below k (suc x / 2) (omega arith))

or_zero_below : (k x : ℕ) → x ≤ k → bit_or x 0 ≡ x
or_zero_below k zero h = refl
or_zero_below zero (suc x) h = absurd (omega arith)
or_zero_below (suc k) (suc x) h =
    omega (arith, or_lowest (suc x) 0, or_zero_below k (suc x / 2) (omega arith))

and_odd : (x m : ℕ) → bit_and x (m * 2 + 1) ≡ bit_and (x / 2) m * 2 + x % 2
and_odd x m =
    and_lowest x (m * 2 + 1)
    ∙ rw (half, odd) (ap (λ (t : ℕ). bit_and (x / 2) m * 2 + t) (omega arith))
  where
    half : (m * 2 + 1) / 2 ≡ m
    half = omega arith

    odd : (m * 2 + 1) % 2 ≡ 1
    odd = omega arith

-- `x & 0xff` is the low byte of `x`.
pub and-low_byte : (x : ℕ) → bit_and x 0xff ≡ x % 256
and-low_byte x = omega (
  arith,
  and_odd x 127,
  and_odd (x / 2) 63,
  and_odd (x / 2 / 2) 31,
  and_odd (x / 2 / 2 / 2) 15,
  and_odd (x / 2 / 2 / 2 / 2) 7,
  and_odd (x / 2 / 2 / 2 / 2 / 2) 3,
  and_odd (x / 2 / 2 / 2 / 2 / 2 / 2) 1,
  and_odd (x / 2 / 2 / 2 / 2 / 2 / 2 / 2) 0,
  and_zero_below (x / 2 / 2 / 2 / 2 / 2 / 2 / 2 / 2) (x / 2 / 2 / 2 / 2 / 2 / 2 / 2 / 2),
)

-- A field of the high bits joined to a field of the `k` low bits is their sum.
pub or-high_low : (k high low : ℕ) → low < 2 ^ k → bit_or (high * 2 ^ k) low ≡ high * 2 ^ k + low
or-high_low zero high low h = ground (arith, or_zero_below high high)
or-high_low (suc k) high low h = ground (
  arith,
  or_lowest (high * 2 ^ suc k) low,
  pow-suc 2 k,
  ap (λ (t : ℕ). high * t) (pow-suc 2 k),
  or-high_low k high (low / 2),
)

-- The same, where the high field is given by an equation.
pub or-multiple : (k high x low : ℕ) → x ≡ high * 2 ^ k → low < 2 ^ k → bit_or x low ≡ x + low
or-multiple k high x low e h = rw e (or-high_low k high low h)
