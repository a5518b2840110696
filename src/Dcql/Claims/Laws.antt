-- ===== src/Dcql/Claims/Laws.antt =====
-- What the claims of a query select from a credential.
use eudi_dev.Base.{
  any, ◌⊎◌, ℕ, ◌+◌, Float64, Text, codes, Bool, true, false, some, List, [], ◌∷◌, is_empty, All,
  ◌≡◌, refl, arith, Bool-cases, inl, inr,
}
use mathlib.Core.List.{Memᴰ}
use eudi_dev.Credential.{StoredCredential}
use eudi_dev.Dcql.Value.{Value, as_object}
use eudi_dev.Dcql.Claims.{
  Object, array_member, array_or_empty, claim_key_from_path, ConsentClaimSet, values_allow,
  values_constraint_satisfied, claim_values_at_path, claim_value_equals, build_claim_by_id,
}
use eudi_dev.Dcql.Claims.There.{IsThere, key-IsThere}
use eudi_dev.Dcql.Claims.Same.{IsSame, claim_value_equals-IsSame}
use eudi_dev.Dcql.Claims.Select.{
  claim_selector_from_path, claim_selector_for, first_claim_set, select_from_claim_sets,
  claim_set_options, satisfiable_claim_sets, requested_claims, select_all_requested_claims,
  select_claims,
}

abbrev pub first_keys : List ConsentClaimSet → List Text
first_keys [] = []
first_keys (set ∷ sets) = set.keys

-- A value that the path selects is one of the values that are asked for.
abbrev pub HasValue : List Value → List Value → Type 0
HasValue selected values =
    (claim : Value) × (want : Value) × Memᴰ claim selected × Memᴰ want values × IsSame claim want

any-member :
    (t : Value → Bool) (xs : List Value) → any t xs ≡ true → (x : Value) × Memᴰ x xs × (t x ≡ true)
any-member t [] h = absurd (cc)
any-member t (x ∷ xs) h = elim (Bool-cases (t x)) [
  | inl e ↦ (x, Memᴰ.head refl, e)
  | inr e ↦ let (y, m, f) = any-member t xs (rw e at h) in (y, Memᴰ.tail m, f)
]

satisfied-HasValue :
    (selected values : List Value)
    → values_constraint_satisfied selected values ≡ true
    → HasValue selected values
unfolding values_constraint_satisfied
satisfied-HasValue selected values h =
    let (claim, listed, some_want) =
      any-member (λ claim. any (λ want. claim_value_equals claim want) values) selected h in
    let (want, asked, same) = any-member (λ want. claim_value_equals claim want) values some_want in
    (claim, want, listed, asked, claim_value_equals-IsSame claim want same)

module _ (g : Float64 → Text) (cred : StoredCredential) where
  first_claim_set-eq :
      (by_id : List (Text × Object)) (i : ℕ) (claim_sets : List Value)
      → first_claim_set g cred by_id claim_sets
        ≡ first_keys (claim_set_options g cred by_id i claim_sets)
  unfolding first_claim_set claim_set_options
  first_claim_set-eq by_id i [] = refl
  first_claim_set-eq by_id i (cs ∷ claim_sets) =
      ground (arith, first_claim_set-eq by_id (i + 1) claim_sets)

  -- With claims and claim sets in the query, the keys selected automatically are those of the first
  -- claim set that the credential can answer, and there are none where it can answer none.
  pub select_claims-first_keys :
      (d : StoredCredential → List Value → Bool) (query : Object)
      → is_empty (array_or_empty (array_member (codes "claims") query)) ≡ false
      → is_empty (array_or_empty (array_member (codes "claim_sets") query)) ≡ false
      → (select_claims g d cred query).selected_keys
        ≡ first_keys (satisfiable_claim_sets g cred query)
  unfolding select_claims satisfiable_claim_sets select_from_claim_sets
  select_claims-first_keys d query h k =
      rw (h, k)
        (first_claim_set-eq
          (build_claim_by_id (array_or_empty (array_member (codes "claims") query))) 0
          (array_or_empty (array_member (codes "claim_sets") query)))

  -- A claims query, if it is an object with a path, names a claim that is there, and where it has
  -- `values`, a value that the path selects is one of them.
  abbrev pub IsAnswered : Value → Type 0
  IsAnswered cq =
      (claim_query : Object) (path : List Value)
      → as_object cq ≡ some claim_query
      → array_member (codes "path") claim_query ≡ some path
      → IsThere cred path
        × ((values : List Value)
            → array_member (codes "values") claim_query ≡ some values
            → (values ≡ []) ⊎ HasValue (claim_values_at_path cred path) values)

  values_allow-HasValue :
      (claim_query : Object) (path values : List Value)
      → values_allow cred claim_query path ≡ true
      → array_member (codes "values") claim_query ≡ some values
      → (values ≡ []) ⊎ HasValue (claim_values_at_path cred path) values
  unfolding values_allow
  values_allow-HasValue claim_query path [] h e = inl refl
  values_allow-HasValue claim_query path (v ∷ vs) h e =
      inr (satisfied-HasValue (claim_values_at_path cred path) (v ∷ vs) (rw e at h))

  selector-key :
      (path : List Value)
      → is_empty (claim_selector_from_path g cred path) ≡ false
      → is_empty (claim_key_from_path cred path) ≡ false
  unfolding claim_selector_from_path
  selector-key path h = ground arith

  claim_selector_for-ne :
      (claim_query : Object) (path : List Value)
      → array_member (codes "path") claim_query ≡ some path
      → is_empty (claim_selector_for g cred claim_query) ≡ false
      → (is_empty (claim_key_from_path cred path) ≡ false)
        × (values_allow cred claim_query path ≡ true)
  unfolding claim_selector_for
  claim_selector_for-ne claim_query path e h = ground (arith, selector-key path)

  module _ (d : StoredCredential → List Value → Bool) where
    requested-tail :
        (cq : Value) (cqs : List Value)
        → (requested_claims g d cred (cq ∷ cqs)).missing_required ≡ []
        → (requested_claims g d cred cqs).missing_required ≡ []
    unfolding requested_claims
    requested-tail cq cqs h = ground arith

    requested-head :
        (cq : Value) (cqs : List Value)
        → (requested_claims g d cred (cq ∷ cqs)).missing_required ≡ []
        → IsAnswered cq
    unfolding requested_claims
    requested-head cq cqs h claim_query path e f =
        let (there, allowed) = claim_selector_for-ne claim_query path f (ground arith) in
        (
          key-IsThere cred path there,
          λ values g. values_allow-HasValue claim_query path values allowed g,
        )

    requested_claims-IsAnswered :
        (claims_query : List Value)
        → (requested_claims g d cred claims_query).missing_required ≡ []
        → All IsAnswered claims_query
    requested_claims-IsAnswered [] h = tt
    requested_claims-IsAnswered (cq ∷ cqs) h =
        (requested-head cq cqs h, requested_claims-IsAnswered cqs (requested-tail cq cqs h))

    -- Without claim sets, a selection that reports no missing claim answers every claims query: each
    -- one that is an object with a path names a claim of the credential (an element of an mdoc, or a
    -- member of the JSON claims in which the rest of the path exists), and where it has `values` that
    -- are not empty, one of them is the same text, Boolean or number as a value that the path selects.
    pub select_claims-IsAnswered :
        (query : Object)
        → is_empty (array_or_empty (array_member (codes "claim_sets") query)) ≡ true
        → (select_claims g d cred query).missing_required ≡ []
        → All IsAnswered (array_or_empty (array_member (codes "claims") query))
    unfolding select_claims select_all_requested_claims
    select_claims-IsAnswered query h k = elim (Bool-cases (is_empty claims)) [
      | inl e ↦ all_of_empty claims e
      | inr e ↦ requested_claims-IsAnswered claims (ground arith)
    ]
      where
        claims : List Value
        claims = array_or_empty (array_member (codes "claims") query)

        all_of_empty : (xs : List Value) → is_empty xs ≡ true → All IsAnswered xs
        all_of_empty [] e = tt
        all_of_empty (x ∷ xs) e = cc
