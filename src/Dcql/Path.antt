-- ===== src/Dcql/Path.antt =====
-- Claims path pointers over JSON claims: `claimPathExists`, `selectJSONClaims`, `claimPathIndex`.
pub mod Laws
use eudi_dev.Base.{
  ℕ, ℤ, pos, negsuc, Float64, truncate, is_integral, is_below_zero, Text, lookup, Bool, true, false,
  Option, none, some, List, [], ◌∷◌, ◌++◌, get_elem?, is_empty, any, if◌then◌else◌, ◌&&◌, not,
}
use eudi_dev.Dcql.Value.{Value, null, str, num, int, as_object, as_array}

-- `idx < 0 || idx >= len(arr)` guards the read `arr[idx]`.
unfoldable pub index_int : List Value → ℤ → Option Value
index_int a (pos i) = get_elem? a i
index_int a (negsuc i) = none

-- `claimPathExists`.
unfoldable pub claim_path_exists : Value → List Value → Bool
claim_path_exists value [] = true
claim_path_exists value (str key ∷ rest) = elim (as_object value) [
  | none ↦ false
  | some o ↦ elim (lookup key o) [ none ↦ false | some next ↦ claim_path_exists next rest ]
]
claim_path_exists value (num idx ∷ rest) = elim (as_array value) [
  | none ↦ false
  | some a ↦ elim (index_int a (truncate idx)) [
    | none ↦ false
    | some next ↦ claim_path_exists next rest
  ]
]
claim_path_exists value (null ∷ rest) = elim (as_array value) [
  | none ↦ false
  | some a ↦ if is_empty rest then true else any (λ item. claim_path_exists item rest) a
]
claim_path_exists value (_ ∷ rest) = false

-- `claimPathIndex`.
unfoldable pub claim_path_index : Value → Option ℕ
claim_path_index (num v) =
    if is_below_zero v
    then none
    else if is_integral v
    then elim (truncate v) [ pos i ↦ some i | negsuc i ↦ none ]
    else none
claim_path_index (int i) = elim i [ pos i ↦ some i | negsuc i ↦ none ]
claim_path_index _ = none

-- The elements that one segment selects from one value; `none` aborts the whole selection.
unfoldable pub select_segment : Value → Value → Option (List Value)
select_segment (str key) value = some (elim (as_object value) [
  | none ↦ []
  | some o ↦ elim (lookup key o) [ none ↦ [] | some v ↦ v ∷ [] ]
])
select_segment null value = some (elim (as_array value) [ none ↦ [] | some a ↦ a ])
select_segment segment value = elim (claim_path_index segment) [
  | none ↦ none
  | some i ↦ some (elim (as_array value) [
    | none ↦ []
    | some a ↦ elim (get_elem? a i) [ none ↦ [] | some v ↦ v ∷ [] ]
  ])
]

-- The inner loop of `selectJSONClaims`.
unfoldable pub next_selection : Value → List Value → Option (List Value)
next_selection segment [] = some []
next_selection segment (value ∷ selection) = elim (select_segment segment value) [
  | none ↦ none
  | some here ↦ elim (next_selection segment selection) [
    | none ↦ none
    | some there ↦ some (here ++ there)
  ]
]

-- The outer loop of `selectJSONClaims`; a nil result is the empty list.
unfoldable pub select_from : List Value → List Value → List Value
select_from selection [] = selection
select_from selection (segment ∷ path) = elim (next_selection segment selection) [
  | none ↦ []
  | some next ↦ let found = select_from next path in if is_empty next then [] else found
]

-- `selectJSONClaims`.
unfoldable pub select_json_claims : Value → List Value → List Value
unfolding select_from
select_json_claims root path = select_from (root ∷ []) path
