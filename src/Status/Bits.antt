-- ===== src/Status/Bits.antt =====
-- Shifts, masks and `|` on bytes, as arithmetic.
use eudi_dev.Base.{
  ℕ, zero, suc, ◌+◌, ◌*◌, ◌/◌, ◌%◌, ◌^◌, ◌≤◌, ◌<◌, if◌then◌else◌, ◌==◌, ◌≡◌, refl, sym, ap, ◌∙◌,
  arith,
}
use native.Mathlib.Nat.{one-le-pow, mul_assoc, zero-add, suc-add}

-- `|` on the low bits of two numbers.
unfoldable pub or_bits : ℕ → ℕ → ℕ → ℕ
or_bits zero x y = 0
or_bits (suc width) x y = (if x % 2 == 1 then 1 else y % 2) + 2 * or_bits width (x / 2) (y / 2)

pub one-le-two_pow : (n : ℕ) → 1 ≤ 2 ^ n
one-le-two_pow n = one-le-pow n 2 (omega arith)

quotient_unique : (d p q r s : ℕ) → d * p + r ≡ d * q + s → r < d → s < d → p ≡ q
quotient_unique d p q r s h k l = grind arith

div-mod : (d x : ℕ) → 1 ≤ d → d * (x / d) + x % d ≡ x
div-mod d x h = omega arith

mod-lt : (d x : ℕ) → 1 ≤ d → x % d < d
mod-lt d x h = omega arith

div_small : (d v : ℕ) → 1 ≤ d → v < d → v / d ≡ 0
div_small d v p h =
    quotient_unique d (v / d) 0 (v % d) v (div-mod d v p ∙ omega arith) (mod-lt d v p) h

mod_small : (d v : ℕ) → 1 ≤ d → v < d → v % d ≡ v
mod_small d v p h =
    let q = ap (λ z. d * z) (div_small d v p h) in let e = div-mod d v p in omega arith

double_div-mod :
    (d x : ℕ)
    → 1 ≤ d
    → 2 * d * (x / (2 * d)) + x % (2 * d) ≡ 2 * d * (x / 2 / d) + (2 * (x / 2 % d) + x % 2)
double_div-mod d x h =
    let s = div-mod d (x / 2) h in
    let t = mul_assoc 2 d (x / 2 / d) in div-mod (2 * d) x (omega arith) ∙ grind arith

div-double : (d x : ℕ) → 1 ≤ d → x / (2 * d) ≡ x / 2 / d
div-double d x h =
    let s = mod-lt d (x / 2) h in
    quotient_unique (2 * d) (x / (2 * d)) (x / 2 / d) (x % (2 * d)) (2 * (x / 2 % d) + x % 2)
      (double_div-mod d x h) (mod-lt (2 * d) x (omega arith)) (omega arith)

mod-double : (d x : ℕ) → 1 ≤ d → x % (2 * d) ≡ x % 2 + 2 * (x / 2 % d)
mod-double d x h =
    let e = double_div-mod d x h in let q = ap (λ z. 2 * d * z) (div-double d x h) in omega arith

div-one : (x : ℕ) → x ≡ x / 2 ^ 0
div-one x = omega arith

-- A shift or a mask of one bit more.
div-pow_suc : (n x : ℕ) → x / 2 ^ suc n ≡ x / 2 / 2 ^ n
div-pow_suc n x = ap (λ d. x / d) (omega arith) ∙ div-double (2 ^ n) x (one-le-two_pow n)

mod-pow_suc : (n x : ℕ) → x % 2 ^ suc n ≡ x % 2 + 2 * (x / 2 % 2 ^ n)
mod-pow_suc n x = ap (λ d. x % d) (omega arith) ∙ mod-double (2 ^ n) x (one-le-two_pow n)

pub div-pow_add : (n m x : ℕ) → x / 2 ^ (n + m) ≡ x / 2 ^ n / 2 ^ m
div-pow_add zero m x = ap (λ z. x / 2 ^ z) (zero-add m) ∙ ap (λ z. z / 2 ^ m) (div-one x)
div-pow_add (suc n) m x =
    ap (λ z. x / 2 ^ z) (suc-add n m)
    ∙ div-pow_suc (n + m) x
    ∙ div-pow_add n m (x / 2)
    ∙ ap (λ z. z / 2 ^ m) (sym (div-pow_suc n x))

or_bit-lt : (x y : ℕ) → (if x % 2 == 1 then 1 else y % 2) < 2
or_bit-lt x y = ground arith

-- A shift of `x | y` is the `|` of the shifts.
pub or_bits-shift :
    (n width x y : ℕ) → or_bits (n + width) x y / 2 ^ n ≡ or_bits width (x / 2 ^ n) (y / 2 ^ n)
unfolding or_bits
or_bits-shift zero width x y =
    sym (div-one (or_bits (0 + width) x y))
    ∙ ap (λ z. or_bits z x y) (zero-add width)
    ∙ ap (λ z. or_bits width z y) (div-one x)
    ∙ ap (λ z. or_bits width (x / 2 ^ 0) z) (div-one y)
or_bits-shift (suc n) width x y =
    ap (λ z. or_bits z x y / 2 ^ suc n) (suc-add n width)
    ∙ div-pow_suc n (or_bits (suc (n + width)) x y)
    ∙ ap (λ z. z / 2 ^ n) (let h = or_bit-lt x y in omega arith)
    ∙ or_bits-shift n width (x / 2) (y / 2)
    ∙ ap (λ z. or_bits width z (y / 2 / 2 ^ n)) (sym (div-pow_suc n x))
    ∙ ap (λ z. or_bits width (x / 2 ^ suc n) z) (sym (div-pow_suc n y))

half_of_mask : (m x : ℕ) → x % 2 ^ suc m / 2 ≡ x / 2 % 2 ^ m
half_of_mask m x = let h = mod-pow_suc m x in omega arith

bit_of_mask : (m x : ℕ) → x % 2 ^ suc m % 2 ≡ x % 2
bit_of_mask m x = let h = mod-pow_suc m x in omega arith

-- A mask of `x | y` is the `|` of the masked numbers.
pub or_bits-mask : (m k x y : ℕ) → or_bits (m + k) x y % 2 ^ m ≡ or_bits m (x % 2 ^ m) (y % 2 ^ m)
unfolding or_bits
or_bits-mask zero k x y = omega arith
or_bits-mask (suc m) k x y =
    ap (λ z. or_bits z x y % 2 ^ suc m) (suc-add m k)
    ∙ mod-pow_suc m (or_bits (suc (m + k)) x y)
    ∙ (let bit = or_bit-lt x y in
        let rest = or_bits-mask m k (x / 2) (y / 2) in
        let half : or_bits (suc (m + k)) x y / 2 ≡ or_bits (m + k) (x / 2) (y / 2) = omega arith in
        let low : or_bits (suc (m + k)) x y % 2 ≡ (if x % 2 == 1 then 1 else y % 2) = omega arith in
        ap (λ z. z + 2 * (or_bits (suc (m + k)) x y / 2 % 2 ^ m)) low
        ∙ ap (λ z. (if x % 2 == 1 then 1 else y % 2) + 2 * z) (ap (λ z. z % 2 ^ m) half ∙ rest)
        ∙ ap (λ z. (if x % 2 == 1 then 1 else y % 2) + 2 * or_bits m z (y / 2 % 2 ^ m))
            (sym (half_of_mask m x))
        ∙ ap (λ z. (if x % 2 == 1 then 1 else y % 2) + 2 * or_bits m (x % 2 ^ suc m / 2) z)
            (sym (half_of_mask m y))
        ∙ ap
            (λ z.
              (if z == 1 then 1 else y % 2) + 2 * or_bits m (x % 2 ^ suc m / 2) (y % 2 ^ suc m / 2))
            (sym (bit_of_mask m x))
        ∙ ap
            (λ z.
              (if x % 2 ^ suc m % 2 == 1 then 1 else z)
              + 2 * or_bits m (x % 2 ^ suc m / 2) (y % 2 ^ suc m / 2))
            (sym (bit_of_mask m y)))

pub or_bits-zero_left : (width y : ℕ) → or_bits width 0 y ≡ y % 2 ^ width
unfolding or_bits
or_bits-zero_left zero y = omega arith
or_bits-zero_left (suc w) y =
    ap (λ z. y % 2 + 2 * z) (or_bits-zero_left w (y / 2)) ∙ sym (mod-pow_suc w y)

pub or_bits-zero_right : (width x : ℕ) → or_bits width x 0 ≡ x % 2 ^ width
unfolding or_bits
or_bits-zero_right zero x = omega arith
or_bits-zero_right (suc w) x =
    let e = or_bits-zero_right w (x / 2) in let t = mod-pow_suc w x in ground arith

shift_up-half : (v n : ℕ) → v * 2 ^ suc n ≡ 2 * (v * 2 ^ n)
shift_up-half v n = grind arith

-- A shift to the left, then to the right.
pub shift_up-down : (n k v : ℕ) → v * 2 ^ (n + k) / 2 ^ n ≡ v * 2 ^ k
shift_up-down zero k v = sym (div-one (v * 2 ^ (0 + k))) ∙ ap (λ z. v * 2 ^ z) (zero-add k)
shift_up-down (suc n) k v =
    ap (λ z. v * 2 ^ z / 2 ^ suc n) (suc-add n k)
    ∙ div-pow_suc n (v * 2 ^ suc (n + k))
    ∙ ap (λ z. z / 2 ^ n) (let h = shift_up-half v (n + k) in omega arith)
    ∙ shift_up-down n k v

pub shift_up-mask : (b k v : ℕ) → v * 2 ^ (b + k) % 2 ^ b ≡ 0
shift_up-mask zero k v = omega arith
shift_up-mask (suc b) k v =
    ap (λ z. v * 2 ^ z % 2 ^ suc b) (suc-add b k)
    ∙ mod-pow_suc b (v * 2 ^ suc (b + k))
    ∙ (let h = shift_up-half v (b + k) in
        let low : v * 2 ^ suc (b + k) % 2 ≡ 0 = omega arith in
        let half : v * 2 ^ suc (b + k) / 2 ≡ v * 2 ^ (b + k) = omega arith in
        let rest = ap (λ z. z % 2 ^ b) half ∙ shift_up-mask b k v in omega arith)

-- Only the low bits of the second number matter.
pub or_bits-mod_right : (width x y : ℕ) → or_bits width x (y % 2 ^ width) ≡ or_bits width x y
unfolding or_bits
or_bits-mod_right zero x y = refl
or_bits-mod_right (suc w) x y =
    ap (λ z. (if x % 2 == 1 then 1 else z) + 2 * or_bits w (x / 2) (y % 2 ^ suc w / 2))
      (bit_of_mask w y)
    ∙ ap (λ z. (if x % 2 == 1 then 1 else y % 2) + 2 * z)
        (ap (or_bits w (x / 2)) (half_of_mask w y) ∙ or_bits-mod_right w (x / 2) (y / 2))

-- What a value of `bits` bits at one offset shows at the same offset, at a lower and at a higher one.
pub field_same : (o b v : ℕ) → v < 2 ^ b → v * 2 ^ o / 2 ^ o % 2 ^ b ≡ v
field_same o b v h =
    ap (λ z. v * 2 ^ z / 2 ^ o % 2 ^ b) (omega arith)
    ∙ ap (λ z. z % 2 ^ b) (shift_up-down o 0 v ∙ omega arith)
    ∙ mod_small (2 ^ b) v (one-le-two_pow b) h

pub field_lower : (o b k v : ℕ) → v * 2 ^ (o + (b + k)) / 2 ^ o % 2 ^ b ≡ 0
field_lower o b k v = ap (λ z. z % 2 ^ b) (shift_up-down o (b + k) v) ∙ shift_up-mask b k v

pub field_higher : (o b k v : ℕ) → v < 2 ^ b → v * 2 ^ o / 2 ^ (o + (b + k)) % 2 ^ b ≡ 0
field_higher o b k v h =
    ap (λ z. z % 2 ^ b)
      (div-pow_add o (b + k) (v * 2 ^ o)
        ∙ ap (λ z. z / 2 ^ (b + k))
            (ap (λ z. v * 2 ^ z / 2 ^ o) (omega arith) ∙ shift_up-down o 0 v)
        ∙ div-pow_add b k (v * 2 ^ 0)
        ∙ ap (λ z. z / 2 ^ k) small
        ∙ none)
    ∙ (let p = one-le-two_pow b in omega arith)
  where
    small : v * 2 ^ 0 / 2 ^ b ≡ 0
    small = ap (λ z. z / 2 ^ b) (omega arith) ∙ below
      where
        below : v / 2 ^ b ≡ 0
        below = div_small (2 ^ b) v (one-le-two_pow b) h

    none : 0 / 2 ^ k ≡ 0
    none = let p = one-le-two_pow k in omega arith

pub mask_twice : (b x : ℕ) → x % 2 ^ b % 2 ^ b ≡ x % 2 ^ b
mask_twice b x =
    mod_small (2 ^ b) (x % 2 ^ b) (one-le-two_pow b) (mod-lt (2 ^ b) x (one-le-two_pow b))

pub mask-lt : (b x : ℕ) → x % 2 ^ b < 2 ^ b
mask-lt b x = mod-lt (2 ^ b) x (one-le-two_pow b)

pub mask_small : (b v : ℕ) → v < 2 ^ b → v % 2 ^ b ≡ v
mask_small b v h = mod_small (2 ^ b) v (one-le-two_pow b) h

pub zero-shift : (k : ℕ) → 0 / 2 ^ k ≡ 0
zero-shift k = let p = one-le-two_pow k in omega arith
