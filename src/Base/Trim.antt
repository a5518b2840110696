-- ===== src/Base/Trim.antt =====
-- `strings.TrimSpace` on the bytes of a text.
use Prim.Native.Nat.{ℕ}
use mathlib.Core.Bool.{Bool, ◌&&◌, ◌||◌}
use mathlib.Core.List.{[], ◌∷◌, reverse}
use eudi_dev.Base.Tests.{leb, ◌==◌, if◌then◌else◌}
use eudi_dev.Base.Bytes.{Text}

-- `unicode.IsSpace` on the bytes of a rune.
abbrev pub is_space : ℕ → Bool
is_space a = (leb 9 a && leb a 13) || (a == 32)

abbrev pub is_space_2 : ℕ → ℕ → Bool
is_space_2 a b = (a == 0xC2) && ((b == 0x85) || (b == 0xA0))

abbrev pub is_space_3 : ℕ → ℕ → ℕ → Bool
is_space_3 a b c =
    ((a == 0xE1) && (b == 0x9A) && (c == 0x80))
    || ((a == 0xE3) && (b == 0x80) && (c == 0x80))
    || ((a == 0xE2) && (b == 0x81) && (c == 0x9F))
    || ((a == 0xE2)
        && (b == 0x80)
        && (leb c 0x8A && leb 0x80 c || (c == 0xA8) || (c == 0xA9) || (c == 0xAF)))

-- The text without the spaces at its start, where the tests know the bytes of a space.
unfoldable pub trim_start : (ℕ → ℕ → Bool) → (ℕ → ℕ → ℕ → Bool) → Text → Text
trim_start two three [] = []
trim_start two three (a ∷ []) = if is_space a then [] else a ∷ []
trim_start two three (a ∷ b ∷ []) =
    let rest = trim_start two three (b ∷ []) in
    if is_space a then rest else if two a b then [] else a ∷ b ∷ []
trim_start two three (a ∷ b ∷ c ∷ cs) =
    let rest = trim_start two three (b ∷ c ∷ cs) in
    let rest_2 = trim_start two three (c ∷ cs) in
    let rest_3 = trim_start two three cs in
    if is_space a
    then rest
    else if two a b
    then rest_2
    else if three a b c
    then rest_3
    else a ∷ b ∷ c ∷ cs

-- `strings.TrimSpace`: the end is trimmed from behind.
unfoldable pub trim_space : Text → Text
trim_space t = reverse (
    trim_start (λ a b. is_space_2 b a) (λ a b c. is_space_3 c b a)
      (reverse (trim_start is_space_2 is_space_3 t)))
