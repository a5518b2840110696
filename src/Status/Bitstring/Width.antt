-- ===== src/Status/Bitstring/Width.antt =====
-- The number of bits that the wallet chooses.
use eudi_dev.Base.{
  ℕ, ◌≤◌, ◌<◌, ◌^◌, pos, negsuc, true, none, some, ◌≡◌, ◌⊎◌, arith, Option-cases, inl, inr, refl,
}
use eudi_dev.Status.Bitstring.{is_width, bits_for_status}
use eudi_dev.Status.Bitstring.Laws.{by_width}

-- A width that holds every status up to `max`, and no larger than any other such width.
abbrev pub IsLeastWidth : ℕ → ℕ → Type 0
IsLeastWidth max bits =
    (is_width bits ≡ true)
    × (max < 2 ^ bits)
    × ((other : ℕ) → is_width other ≡ true → max < 2 ^ other → bits ≤ other)

least :
    (max bits : ℕ)
    → bits_for_status (pos max) ≡ some bits
    → (other : ℕ) → is_width other ≡ true
    → max < 2 ^ other
    → bits ≤ other
unfolding bits_for_status
least max bits e =
    by_width (λ w. max < 2 ^ w → bits ≤ w) (λ h. ground arith) (λ h. ground arith)
      (λ h. ground arith) (λ h. ground arith)

-- A status of at most 255 gets the least of the widths 1, 2, 4 and 8 that holds it; a greater one and a
-- negative one get none.
pub bits_for_status-IsLeastWidth :
    (max : ℕ)
    → (max ≤ 255 → (bits : ℕ) × (bits_for_status (pos max) ≡ some bits) × IsLeastWidth max bits)
      × (255 < max → bits_for_status (pos max) ≡ none)
      × (bits_for_status (negsuc max) ≡ none)
unfolding bits_for_status
bits_for_status-IsLeastWidth max =
    ((λ h. at_most h (Option-cases (bits_for_status (pos max)))), (λ h. ground arith), refl)
  where
    at_most :
        max ≤ 255
        → (bits_for_status (pos max) ≡ none) ⊎ ((b : ℕ) × (bits_for_status (pos max) ≡ some b))
        → (bits : ℕ) × (bits_for_status (pos max) ≡ some bits) × IsLeastWidth max bits
    at_most h (inl e) = absurd (ground arith)
    at_most h (inr (bits, e)) = (bits, e, (ground arith, ground arith, least max bits e))
