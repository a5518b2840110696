-- ===== src/Base/Float.antt =====
-- float64 values that are finite: `dyadic m k` is m / 2^k.
-- JSON decoding gives no infinity and no NaN.
use Prim.Native.Nat.{ℕ, zero, suc, ◌+◌, ◌*◌, ◌/◌, ◌%◌, ◌^◌}
use mathlib.Core.Bool.{Bool, true, false}
use eudi_dev.Base.Tests.{ltb, ◌==◌, if◌then◌else◌}
use eudi_dev.Base.Int.{ℤ, pos, negsuc}

pub data Float64 : Type 0 where
  dyadic : ℤ → ℕ → Float64

abbrev negate : ℕ → ℤ
negate zero = pos 0
negate (suc n) = negsuc n

-- `int(v)`: the fraction is dropped.
unfoldable pub truncate : Float64 → ℤ
truncate (dyadic (pos m) k) = pos (m / 2 ^ k)
truncate (dyadic (negsuc m) k) = negate (suc m / 2 ^ k)

-- `v == float64(int(v))`.
unfoldable pub is_integral : Float64 → Bool
is_integral (dyadic (pos m) k) = m % 2 ^ k == 0
is_integral (dyadic (negsuc m) k) = suc m % 2 ^ k == 0

-- `v < 0`.
unfoldable pub is_below_zero : Float64 → Bool
is_below_zero (dyadic (pos m) k) = false
is_below_zero (dyadic (negsuc m) k) = true

-- `==` on float64.
unfoldable pub float_eq : Float64 → Float64 → Bool
float_eq (dyadic (pos a) j) (dyadic (pos b) k) = a * 2 ^ k == b * 2 ^ j
float_eq (dyadic (negsuc a) j) (dyadic (negsuc b) k) = suc a * 2 ^ k == suc b * 2 ^ j
float_eq (dyadic (pos a) j) (dyadic (negsuc b) k) = false
float_eq (dyadic (negsuc a) j) (dyadic (pos b) k) = false

-- How many low bits of a 64-bit number do not fit the 53 bits of a float64.
excess_bits : ℕ → ℕ → ℕ
excess_bits zero n = 0
excess_bits (suc fuel) n =
    let more = suc (excess_bits fuel (n / 2)) in if ltb n (2 ^ 53) then 0 else more

-- Round `n / 2^k` to the nearest integer, ties to even.
round_shift : ℕ → ℕ → ℕ
round_shift n k =
    let q = n / 2 ^ k in
    let rest = 2 * (n % 2 ^ k) in
    if ltb rest (2 ^ k) then q else if ltb (2 ^ k) rest then q + 1 else q + q % 2

-- The magnitude of `float64(n)`, for a Go integer of at most 64 bits.
unfoldable pub round_to_float : ℕ → ℕ
unfolding excess_bits round_shift
round_to_float n = let k = excess_bits 11 n in round_shift n k * 2 ^ k

-- `float64(n)`.
unfoldable pub float_of_int : ℤ → Float64
unfolding round_to_float
float_of_int (pos n) = dyadic (pos (round_to_float n)) 0
float_of_int (negsuc n) = dyadic (negate (round_to_float (suc n))) 0
