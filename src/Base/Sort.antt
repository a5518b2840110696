-- ===== src/Base/Sort.antt =====
-- `sort.SliceStable`: insertion of each element behind the sorted ones, moving left while it is less.
-- On blocks of 20 this is what Go runs; it merges larger blocks stably.
use mathlib.Core.Bool.{Bool, true, false}
use mathlib.Core.List.{List, [], ◌∷◌}
use eudi_dev.Base.Tests.{if◌then◌else◌}
use eudi_dev.Base.Lists.{All}

module _ {ℓ} {A : Type ℓ} where
  -- The sorted elements stand with the last one first.
  unfoldable pub insert_left : (A → A → Bool) → A → List A → List A
  insert_left less x [] = x ∷ []
  insert_left less x (y ∷ ys) =
      let moved = y ∷ insert_left less x ys in if less x y then moved else x ∷ y ∷ ys

  unfoldable pub sort_onto : (A → A → Bool) → List A → List A → List A
  unfolding insert_left
  sort_onto less sorted [] = sorted
  sort_onto less sorted (x ∷ xs) = sort_onto less (insert_left less x sorted) xs

  unfoldable pub reverse_onto : List A → List A → List A
  reverse_onto out [] = out
  reverse_onto out (x ∷ xs) = reverse_onto (x ∷ out) xs

  unfoldable pub stable_sort : (A → A → Bool) → List A → List A
  unfolding sort_onto reverse_onto
  stable_sort less xs = reverse_onto [] (sort_onto less [] xs)

module _ {ℓ κ} {A : Type ℓ} (P : A → Type κ) (less : A → A → Bool) where
  All-insert_left : (x : A) (ys : List A) → P x → All P ys → All P (insert_left less x ys)
  unfolding insert_left
  All-insert_left x [] p h = (p, tt)
  All-insert_left x (y ∷ ys) p (q, h) =
      elim (less x y) as (λ b. All P (if b then y ∷ insert_left less x ys else x ∷ y ∷ ys)) [
        | true ↦ (q, All-insert_left x ys p h)
        | false ↦ (p, (q, h))
      ]

  All-sort_onto : (sorted xs : List A) → All P sorted → All P xs → All P (sort_onto less sorted xs)
  unfolding sort_onto
  All-sort_onto sorted [] h k = h
  All-sort_onto sorted (x ∷ xs) h (p, k) =
      All-sort_onto (insert_left less x sorted) xs (All-insert_left x sorted p h) k

  All-reverse_onto : (out xs : List A) → All P out → All P xs → All P (reverse_onto out xs)
  unfolding reverse_onto
  All-reverse_onto out [] h k = h
  All-reverse_onto out (x ∷ xs) h (p, k) = All-reverse_onto (x ∷ out) xs (p, h) k

  -- Sorting keeps what holds of every element.
  pub All-stable_sort : (xs : List A) → All P xs → All P (stable_sort less xs)
  unfolding stable_sort
  All-stable_sort xs h = All-reverse_onto [] (sort_onto less [] xs) tt (All-sort_onto [] xs tt h)
