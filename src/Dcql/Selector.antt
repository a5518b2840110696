-- ===== src/Dcql/Selector.antt =====
-- Claim selectors: the text form of a path (`claimPathString`), its parser (`parseSDJWTSelector`),
-- and the values that a selector names (`claimValueBySelector`, `filterClaims`).
pub mod RoundTrip
pub mod Values
use eudi_dev.Base.{
  ◌>>=◌, ℕ, ℤ, pos, negsuc, suc, ◌+◌, ◌/◌, ◌^◌, Float64, truncate, is_integral, Text, codes,
  text_eq, decimal, atoi, lookup, Bool, true, false, Option, none, some, List, [], ◌∷◌, ◌++◌,
  is_empty, if◌then◌else◌, ◌&&◌, ltb, ◌==◌,
}
use eudi_dev.Credential.{StoredCredential, is_mdoc}
use eudi_dev.Dcql.Value.{Value, null, str, num, int, arr, to_items, as_object, as_array}
use eudi_dev.Dcql.Path.{index_int, claim_path_exists}

-- `format_other` is `strconv.FormatFloat` where the value is no integer below 2^53.
module _ (format_other : Float64 → Text) where
  unfoldable pub format_float : Float64 → Text
  format_float f = elim (truncate f) [
    | pos n ↦ if is_integral f && ltb n (2 ^ 53) then decimal n else format_other f
    | negsuc n ↦
        if is_integral f && ltb (n + 1) (2 ^ 53) then b'-' ∷ decimal (n + 1) else format_other f
  ]

  -- The text that one segment adds; `first` is `i == 0`.
  unfoldable pub segment_text : Bool → Value → Text
  unfolding format_float
  segment_text first (str v) = if first then v else b'.' ∷ v
  segment_text first (num v) = b'[' ∷ (format_float v ++ b']' ∷ [])
  segment_text first null = codes "[*]"
  segment_text first _ = if first then codes "?" else codes ".?"

  unfoldable pub path_text : Bool → List Value → Text
  unfolding segment_text
  path_text first [] = []
  path_text first (segment ∷ path) = segment_text first segment ++ path_text false path

  -- `claimPathString`.
  unfoldable pub claim_path_string : List Value → Text
  unfolding path_text
  claim_path_string [] = codes "<empty>"
  claim_path_string (segment ∷ path) = path_text true (segment ∷ path)

-- The variables of the loop of `parseSDJWTSelector`. `bracket` holds what was read since an open
-- bracket, which the source finds by `strings.IndexByte(selector[i:], ']')`.
pub record Scan : Type 0 where
  pub path : List Value
  pub name : Text
  pub bracket : Option Text

-- `flushName`; every caller goes on whatever it returns.
unfoldable pub flush_name : Scan → Scan
flush_name s =
    if is_empty s.name
    then s
    else record { path = s.path ++ str s.name ∷ []; name = []; bracket = s.bracket }

abbrev push_segment : Scan → Value → Scan
push_segment s v = record { path = s.path ++ v ∷ []; name = s.name; bracket = none }

-- The closing bracket.
unfoldable pub close_bracket : Scan → Text → Option Scan
close_bracket s content =
    if is_empty content
    then none
    else if text_eq content (codes "*")
    then some (push_segment s null)
    else elim (atoi content) [ none ↦ none | some idx ↦ some (push_segment s (int idx)) ]

-- One round of the loop.
unfoldable pub scan_char : Scan → ℕ → Option Scan
unfolding flush_name close_bracket
scan_char s c = elim s.bracket [
  | some content ↦
      if c == b']'
      then close_bracket s content
      else some (record { path = s.path; name = s.name; bracket = some (content ++ c ∷ []) })
  | none ↦
      if c == b'.'
      then (if is_empty s.name
          then (if is_empty s.path then none else some s)
          else some (flush_name s))
      else if c == b'['
      then some (record { path = (flush_name s).path; name = []; bracket = some [] })
      else some (record { path = s.path; name = s.name ++ c ∷ []; bracket = none })
]

unfoldable pub scan_all : Scan → Text → Option Scan
unfolding scan_char
scan_all s [] = some s
scan_all s (c ∷ cs) = scan_char s c >>= λ next. scan_all next cs

-- What follows the loop; a bracket left open was refused inside it.
unfoldable pub finish_scan : Scan → Option (List Value)
unfolding flush_name
finish_scan s = elim s.bracket [
  | some content ↦ none
  | none ↦ let path = (flush_name s).path in if is_empty path then none else some path
]

abbrev pub start_scan : Scan
start_scan = record { path = []; name = []; bracket = none }

-- `parseSDJWTSelector`.
unfoldable pub parse_sdjwt_selector : Text → Option (List Value)
unfolding scan_all finish_scan
parse_sdjwt_selector [] = none
parse_sdjwt_selector (c ∷ cs) = scan_all start_scan (c ∷ cs) >>= finish_scan

-- `if v, ok := f(item); ok { out = append(out, v) }`.
unfoldable pub values_of : (Value → Option Value) → List Value → List Value
values_of f [] = []
values_of f (x ∷ xs) = let rest = values_of f xs in elim (f x) [ none ↦ rest | some v ↦ v ∷ rest ]

-- `claimValueAtPath`.
unfoldable pub claim_value_at_path : Value → List Value → Option Value
unfolding values_of
claim_value_at_path value [] = some value
claim_value_at_path value (str key ∷ rest) = elim (as_object value) [
  | none ↦ none
  | some o ↦ elim (lookup key o) [ none ↦ none | some next ↦ claim_value_at_path next rest ]
]
claim_value_at_path value (int idx ∷ rest) = elim (as_array value) [
  | none ↦ none
  | some a ↦ elim (index_int a idx) [ none ↦ none | some next ↦ claim_value_at_path next rest ]
]
claim_value_at_path value (null ∷ rest) = elim (as_array value) [
  | none ↦ none
  | some a ↦
      let out = values_of (λ item. claim_value_at_path item rest) a in
      if is_empty rest then some value else if is_empty out then none else some (arr (to_items out))
]
claim_value_at_path value (_ ∷ rest) = none

-- `claimValueBySelector` for JSON claims, once the selector is parsed.
unfoldable pub claim_value_by_path : StoredCredential → List Value → Option Value
claim_value_by_path cred (str key ∷ rest) = elim (lookup key cred.claims) [
  | none ↦ none
  | some v ↦ claim_value_at_path v rest
]
claim_value_by_path cred _ = none

-- `claimValueBySelector`.
unfoldable pub claim_value_by_selector : StoredCredential → Text → Option Value
unfolding claim_value_by_path
claim_value_by_selector cred selector =
    if is_mdoc cred
    then lookup selector cred.claims
    else parse_sdjwt_selector selector >>= claim_value_by_path cred

-- `filterClaims`, as the entries that it writes in turn.
unfoldable pub filter_claims : StoredCredential → List Text → List (Text × Value)
filter_claims cred [] = []
filter_claims cred (k ∷ ks) =
    let rest = filter_claims cred ks in
    elim (claim_value_by_selector cred k) [ none ↦ rest | some v ↦ (k, v) ∷ rest ]
