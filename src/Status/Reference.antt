-- ===== src/Status/Reference.antt =====
-- internal/statuslist/checker.go: the reference of a credential to its entry of a status list.
use eudi_dev.Base.{
  ◌>>=◌, ℕ, ℤ, pos, negsuc, ◌^◌, Text, codes, lookup, truncate, is_integral, Option, none, some,
  List, [], is_empty, if◌then◌else◌, ltb,
}
use eudi_dev.Dcql.Value.{Value, num, int, as_object, string_or_empty}

-- Why a reference is invalid.
pub data InvalidReference : Type 0 where
  no_uri no_idx idx_no_integer : InvalidReference
  idx_negative : ℤ → InvalidReference

-- `StatusRef`, whose index is 0 where the reference is invalid.
pub record StatusRef : Type 0 where
  pub uri : Text
  pub idx : ℕ
  pub invalid : Option InvalidReference

-- `asInt`. A decoded JSON number is a float64, and a decoded CBOR number an int64 or a uint64.
unfoldable pub as_int : Value → Option ℤ
as_int (num n) = if is_integral n then some (truncate n) else none
as_int (int (pos n)) = if ltb (2 ^ 62) n then none else some (pos n)
as_int (int (negsuc n)) = some (negsuc n)
as_int _ = none

-- The checks on the idx claim.
unfoldable pub reference_with_idx : Text → Option Value → StatusRef
reference_with_idx uri none = record { uri = uri; idx = 0; invalid = some no_idx }
reference_with_idx uri (some raw) = elim (as_int raw) [
  | none ↦ record { uri = uri; idx = 0; invalid = some idx_no_integer }
  | some i ↦ elim i [
    | negsuc n ↦ record { uri = uri; idx = 0; invalid = some (idx_negative (negsuc n)) }
    | pos n ↦ record { uri = uri; idx = n; invalid = none }
  ]
]

-- `ExtractStatusRef`.
unfoldable pub extract_status_ref : List (Text × Value) → Option StatusRef
extract_status_ref claims = lookup (codes "status") claims >>= λ status.
    as_object status >>= λ fields. lookup (codes "status_list") fields >>= λ list.
    as_object list >>= λ reference.
    let uri = string_or_empty (lookup (codes "uri") reference) in
    some (
      if is_empty uri
      then record { uri = []; idx = 0; invalid = some no_uri }
      else reference_with_idx uri (lookup (codes "idx") reference))
