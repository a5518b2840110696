-- ===== src/Base/Decimal.antt =====
-- Decimal numerals: `strconv.Itoa` on naturals and `strconv.Atoi`.
use Prim.Native.Nat.{ℕ, zero, suc, ◌+◌, ◌-◌, ◌*◌, ◌/◌, ◌%◌, ◌^◌, ◌<◌}
use mathlib.Core.Path.{◌≡◌, refl, ap, ◌∙◌}
use mathlib.Core.Logic.{◌≢◌, inl, inr}
use mathlib.Core.Bool.{Bool, true, ◌&&◌}
use mathlib.Core.Option.{Option, none, some}
use mathlib.Core.List.{[], ◌∷◌, ◌++◌}
use native.Mathlib.Omega.{arith}
use eudi_dev.Base.Tests.{ltb, leb, ◌==◌, if◌then◌else◌, Bool-cases}
use eudi_dev.Base.Int.{ℤ, pos, negsuc}
use eudi_dev.Base.Lists.{All, All-append}
use eudi_dev.Base.Bytes.{Text}

-- The digits of a number, with fuel above it.
unfoldable pub decimal_from : ℕ → ℕ → Text
decimal_from zero n = []
decimal_from (suc fuel) n =
    let rest = decimal_from fuel (n / 10) ++ (n % 10 + 48) ∷ [] in
    if ltb n 10 then (n + 48) ∷ [] else rest

unfoldable pub decimal : ℕ → Text
unfolding decimal_from
decimal n = decimal_from (suc n) n

abbrev pub is_digit : ℕ → Bool
is_digit c = leb b'0' c && leb c b'9'

unfoldable pub digits_value : ℕ → Text → Option ℕ
digits_value acc [] = some acc
digits_value acc (c ∷ cs) =
    let rest = digits_value (acc * 10 + (c - 48)) cs in if is_digit c then rest else none

-- At least one digit.
unfoldable pub unsigned_value : Text → Option ℕ
unfolding digits_value
unsigned_value [] = none
unsigned_value (c ∷ cs) = digits_value 0 (c ∷ cs)

abbrev pub int_limit : ℕ
int_limit = 2 ^ 63

-- A value of 64 bits, or a range error.
unfoldable pub positive_int : Option ℕ → Option ℤ
positive_int none = none
positive_int (some n) = if ltb n int_limit then some (pos n) else none

abbrev negate : ℕ → ℤ
negate zero = pos 0
negate (suc n) = negsuc n

unfoldable pub negative_int : Option ℕ → Option ℤ
negative_int none = none
negative_int (some n) = if leb n int_limit then some (negate n) else none

-- `strconv.Atoi`: an optional sign, digits, and a value of 64 bits.
unfoldable pub atoi : Text → Option ℤ
unfolding unsigned_value positive_int negative_int
atoi [] = none
atoi (c ∷ cs) =
    if c == b'-'
    then negative_int (unsigned_value cs)
    else if c == b'+'
    then positive_int (unsigned_value cs)
    else positive_int (unsigned_value (c ∷ cs))

abbrev pub IsDigit : ℕ → Type 0
IsDigit c = is_digit c ≡ true

digits_value-append :
    (acc n d : ℕ) (xs : Text)
    → digits_value acc xs ≡ some n
    → d < 10
    → digits_value acc (xs ++ (d + 48) ∷ []) ≡ some (n * 10 + d)
unfolding digits_value
digits_value-append acc n d [] h k = ground arith
digits_value-append acc n d (c ∷ cs) h k =
    ground (arith, digits_value-append (acc * 10 + (c - 48)) n d cs)

digits_value-decimal_from : (fuel n : ℕ) → n < fuel → digits_value 0 (decimal_from fuel n) ≡ some n
unfolding decimal_from digits_value
digits_value-decimal_from zero n h = elim h [ ]
digits_value-decimal_from (suc fuel) n h = elim (Bool-cases (ltb n 10)) [
  | inl small ↦ ground arith
  | inr large ↦ rw large (
      digits_value-append 0 (n / 10) (n % 10) (decimal_from fuel (n / 10))
        (digits_value-decimal_from fuel (n / 10) (ground arith)) (omega arith)
      ∙ ap some (omega arith))
]

decimal_from-IsDigit : (fuel n : ℕ) → All IsDigit (decimal_from fuel n)
unfolding decimal_from
decimal_from-IsDigit zero n = tt
decimal_from-IsDigit (suc fuel) n = elim (Bool-cases (ltb n 10)) [
  | inl small ↦ ground arith
  | inr large ↦
      rw large (All-append IsDigit _ _ (decimal_from-IsDigit fuel (n / 10)) (ground arith, tt))
]

-- Every character of a numeral is a digit.
pub decimal-IsDigit : (n : ℕ) → All IsDigit (decimal n)
unfolding decimal
decimal-IsDigit n = decimal_from-IsDigit (suc n) n

atoi_of_digits :
    (t : Text) (n : ℕ)
    → All IsDigit t
    → unsigned_value t ≡ some n
    → n < int_limit
    → atoi t ≡ some (pos n)
unfolding atoi unsigned_value
atoi_of_digits [] n h e k = cc
atoi_of_digits (c ∷ cs) n (h, _) e k = ground arith

unsigned_value-digits_value :
    (t : Text) (n : ℕ) → digits_value 0 t ≡ some n → t ≢ [] → unsigned_value t ≡ some n
unfolding unsigned_value
unsigned_value-digits_value [] n e h = absurd (h refl)
unsigned_value-digits_value (c ∷ cs) n e h = e

append-ne-nil : (xs : Text) (c : ℕ) → xs ++ c ∷ [] ≢ []
append-ne-nil [] c = cc
append-ne-nil (x ∷ xs) c = cc

pub decimal-ne-nil : (n : ℕ) → decimal n ≢ []
unfolding decimal decimal_from
decimal-ne-nil n = ground (arith, append-ne-nil (decimal_from n (n / 10)) (n % 10 + 48))

-- `strconv.Atoi` reads back what `strconv.Itoa` printed.
pub atoi-decimal : (n : ℕ) → n < int_limit → atoi (decimal n) ≡ some (pos n)
unfolding decimal
atoi-decimal n h =
    atoi_of_digits (decimal_from (suc n) n) n (decimal_from-IsDigit (suc n) n)
      (unsigned_value-digits_value _ n (digits_value-decimal_from (suc n) n (omega arith))
        (unfold decimal in decimal-ne-nil n))
      h
