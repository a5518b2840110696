-- ===== src/Credtype.antt =====
-- internal/credtype/credtype.go: credential types and the types that they extend.
pub mod Laws
mod Tests
use eudi_dev.Base.{
  ◌>>=◌, ℕ, zero, suc, ◌+◌, Text, codes, text_eq, contains, lookup, Bool, true, false, Option, none,
  some, List, [], ◌∷◌, ◌++◌, is_empty, get_elem?, length, if◌then◌else◌, is_digit, ◌==◌,
}
use eudi_dev.Dcql.Value.{Value, as_array, as_string}

abbrev pub pid_vct : Text
pid_vct = codes "urn:eudi:pid:1"

abbrev pub pid_vct_prefix : Text
pid_vct_prefix = codes "urn:eudi:pid:"

-- `strings.CutPrefix`.
unfoldable pub cut_prefix : Text → Text → Option Text
cut_prefix s [] = some s
cut_prefix [] (p ∷ prefix) = none
cut_prefix (c ∷ s) (p ∷ prefix) = let rest = cut_prefix s prefix in if c == p then rest else none

-- The part before the first byte `sep`: `strings.Cut`.
unfoldable pub before : ℕ → Text → Text
before sep [] = []
before sep (c ∷ s) = let rest = before sep s in if c == sep then [] else c ∷ rest

abbrev all_digits : Text → Bool
all_digits [] = true
all_digits (c ∷ s) = if is_digit c then all_digits s else false

-- `isNumber`.
unfoldable pub is_number : Text → Bool
is_number s = if all_digits s then (if is_empty s then false else true) else false

-- `Extends`.
unfoldable pub extends : Text → Option Text
unfolding cut_prefix before is_number
extends vct = elim (cut_prefix vct pid_vct_prefix) [
  | none ↦ none
  | some rest ↦
      let country = before b':' rest in
      if is_empty rest
      then none
      else if is_empty country
      then none
      else if is_number country
      then none
      else some pid_vct
]

-- The closure `add` of `Chain`; its set `seen` is what the chain holds.
unfoldable pub add_type : Text → List Text → List Text
add_type t chain = if is_empty t then chain else if contains chain t then chain else chain ++ t ∷ []

unfoldable pub add_types : List Text → List Text → List Text
unfolding add_type
add_types [] chain = chain
add_types (t ∷ ts) chain = add_types ts (add_type t chain)

unfoldable pub add_parent : Text → List Text → List Text
unfolding add_type extends
add_parent t chain = elim (extends t) [ none ↦ chain | some parent ↦ add_type parent chain ]

-- The loop `for i := 0; i < len(chain); i++`, which grows the chain; `none` is fuel that ran out.
unfoldable pub add_base_types : ℕ → ℕ → List Text → Option (List Text)
unfolding add_parent
add_base_types zero i chain = none
add_base_types (suc fuel) i chain = elim (get_elem? chain i) [
  | none ↦ some chain
  | some t ↦ add_base_types fuel (suc i) (add_parent t chain)
]

-- `Chain`.
unfoldable pub chain : Text → List Text → Option (List Text)
unfolding add_types add_base_types
chain vct aka_vcts =
    let start = add_types aka_vcts (vct ∷ []) in
    if is_empty vct then some [] else add_base_types (length start + 2) 0 start

-- `AkaVCTs`: the non-empty strings of the claim `aka_vcts`.
strings_of : List Value → List Text
strings_of [] = []
strings_of (v ∷ vs) =
    let rest = strings_of vs in
    elim (as_string v) [ none ↦ rest | some s ↦ if is_empty s then rest else s ∷ rest ]

unfoldable pub aka_vcts : List (Text × Value) → List Text
unfolding strings_of
aka_vcts claims = elim (lookup (codes "aka_vcts") claims >>= as_array) [
  | none ↦ []
  | some raw ↦ strings_of raw
]

-- `Answers`.
unfoldable pub answers : Text → List Text → Text → Option Bool
unfolding chain
answers vct aka requested =
    if is_empty requested
    then some false
    else if is_empty vct
    then some false
    else chain vct aka >>= λ types. some (contains types requested)
