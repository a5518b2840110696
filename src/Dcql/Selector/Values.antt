-- ===== src/Dcql/Selector/Values.antt =====
-- A path that exists in the claims names a value through its selector.
use eudi_dev.Base.{
  Float64, Text, Bool, true, false, Option, none, some, List, [], ◌∷◌, is_empty, any, All, map, ◌≡◌,
  refl, arith, not, Option-cases, inl, inr,
}
use eudi_dev.Dcql.Value.{Value, null, str, num, as_array}
use eudi_dev.Dcql.Path.{claim_path_exists}
use eudi_dev.Dcql.Selector.{values_of, claim_value_at_path}
use eudi_dev.Dcql.Selector.RoundTrip.{IsPointerSegment, selector_segment}

abbrev pub is_present : Option Value → Bool
is_present none = false
is_present (some v) = true

any-values_of :
    (p : Value → Bool) (f : Value → Option Value) (xs : List Value)
    → ((x : Value) → is_present (f x) ≡ p x)
    → not (is_empty (values_of f xs)) ≡ any p xs
unfolding values_of
any-values_of p f [] h = refl
any-values_of p f (x ∷ xs) h = ground (arith, h x, any-values_of p f xs h)

is_empty-map : (xs : List Value) → is_empty (map selector_segment xs) ≡ is_empty xs
is_empty-map [] = refl
is_empty-map (x ∷ xs) = refl

module _ (value : Value) (rest : List Value)
    (ih : (v : Value)
      → is_present (claim_value_at_path v (map selector_segment rest))
        ≡ claim_path_exists v rest) where
  at_str :
      (k : Text)
      → is_present (claim_value_at_path value (map selector_segment (str k ∷ rest)))
        ≡ claim_path_exists value (str k ∷ rest)
  unfolding claim_value_at_path claim_path_exists
  at_str k = grind (arith, ih)

  at_num :
      (f : Float64)
      → is_present (claim_value_at_path value (map selector_segment (num f ∷ rest)))
        ≡ claim_path_exists value (num f ∷ rest)
  unfolding claim_value_at_path claim_path_exists
  at_num f = grind (arith, ih)

  at_null :
      is_present (claim_value_at_path value (map selector_segment (null ∷ rest)))
      ≡ claim_path_exists value (null ∷ rest)
  unfolding claim_value_at_path claim_path_exists
  at_null = elim (Option-cases (as_array value)) [
    | inl e ↦ ground arith
    | inr (a, e) ↦ ground (
      arith,
      is_empty-map rest,
      any-values_of (λ item. claim_path_exists item rest)
          (λ item. claim_value_at_path item (map selector_segment rest)) a ih,
    )
  ]

-- For a path of plain names, wildcards and indexes below 2^53: a value is found at the form of the path
-- that the parser gives exactly when the path exists.
pub claim_value_at_path-exists :
    (path : List Value) (value : Value)
    → All IsPointerSegment path
    → is_present (claim_value_at_path value (map selector_segment path))
      ≡ claim_path_exists value path
unfolding claim_value_at_path claim_path_exists
claim_value_at_path-exists [] value h = refl
claim_value_at_path-exists (str k ∷ rest) value (p, h) =
    at_str value rest (λ v. claim_value_at_path-exists rest v h) k
claim_value_at_path-exists (num f ∷ rest) value (p, h) =
    at_num value rest (λ v. claim_value_at_path-exists rest v h) f
claim_value_at_path-exists (null ∷ rest) value (p, h) =
    at_null value rest (λ v. claim_value_at_path-exists rest v h)
claim_value_at_path-exists (_ ∷ rest) value (p, h) = elim p [ ]
