-- ===== src/Prefix/BitOr.antt =====
-- `x | y` is a sum where the bits of `y` lie below those of `x`.
use Prim.Native.Nat.{bit_or, digits, bit_or-bitwise}
use native.Mathlib.Nat.{pow-suc, le_refl}
use native.Mathlib.Decide.{dec_le}
use saimiris_gateway.Prelude.{
  ℕ, zero, suc, ◌+◌, ◌*◌, ◌/◌, ◌%◌, ◌^◌, ◌≤◌, ◌<◌, max, ◌≡◌, refl, ap, ◌∙◌, arith,
}

-- The recursion that the native operation stands for.
abbrev or_with : ℕ → ℕ → ℕ → ℕ
or_with fuel a b = digits (λ y. y) max fuel a b

more_fuel : (fuel a b : ℕ) → a ≤ fuel → or_with (suc fuel) a b ≡ or_with fuel a b
more_fuel zero zero b h = refl
more_fuel zero (suc a) b h = absurd (omega arith)
more_fuel (suc fuel) zero b h = refl
more_fuel (suc fuel) (suc a) b h = omega (arith, more_fuel fuel (suc a / 2) (b / 2) (omega arith))

enough_fuel : (fuel a b : ℕ) → a ≤ fuel → or_with fuel a b ≡ or_with a a b
enough_fuel zero a b h = rw (is_zero a h)
  where
    is_zero : (a : ℕ) → a ≤ 0 → a ≡ 0
    is_zero a h = omega arith
enough_fuel (suc fuel) a b h = elim (dec_le a fuel) [
  | yes small ↦ more_fuel fuel a b small ∙ enough_fuel fuel a b small
  | no large ↦ let exact : a ≡ suc fuel = omega arith in rw exact
]

or_step : (a b : ℕ) → bit_or a b ≡ bit_or (a / 2) (b / 2) * 2 + max (a % 2) (b % 2)
or_step zero b = omega (arith, bit_or-bitwise 0 b, bit_or-bitwise 0 (b / 2))
or_step (suc a) b = omega (
  arith,
  bit_or-bitwise (suc a) b,
  bit_or-bitwise (suc a / 2) (b / 2),
  enough_fuel a (suc a / 2) (b / 2) (omega arith),
)

or_zero : (fuel a : ℕ) → a ≤ fuel → bit_or a 0 ≡ a
or_zero fuel zero h = bit_or-bitwise 0 0
or_zero zero (suc a) h = absurd (omega arith)
or_zero (suc fuel) (suc a) h =
    omega (arith, or_step (suc a) 0, or_zero fuel (suc a / 2) (omega arith))

half_double : (n : ℕ) → 2 * n / 2 ≡ n
half_double n = omega arith

pub bit_or-shifted : (k q r : ℕ) → r < 2 ^ k → bit_or (q * 2 ^ k) r ≡ q * 2 ^ k + r
bit_or-shifted zero q r h = ground (arith, or_zero (q * 2 ^ 0) (q * 2 ^ 0) (le_refl _))
bit_or-shifted (suc k) q r h =
    let double : q * 2 ^ suc k ≡ 2 * (q * 2 ^ k) =
      omega (arith, ap (λ (t : ℕ). q * t) (pow-suc 2 k)) in
    omega (
      arith,
      double,
      or_step (q * 2 ^ suc k) r,
      bit_or-shifted k q (r / 2) (omega (arith, pow-suc 2 k)),
      ap (λ (t : ℕ). bit_or (t / 2) (r / 2)) double,
      ap (λ (t : ℕ). bit_or t (r / 2)) (half_double (q * 2 ^ k)),
    )
