-- ===== src/Dcql/Path/Laws.antt =====
-- The breadth-first selection of `selectJSONClaims` is a depth-first search, and agrees with
-- `claimPathExists`.
use eudi_dev.Base.{
  pos, negsuc, Float64, dyadic, truncate, is_integral, is_below_zero, Text, Bool, true, false,
  Option, none, some, List, [], ◌∷◌, ◌++◌, is_empty, any, flat_map, ◌≡◌, refl, sym, ◌≢◌, arith, not,
  ◌&&◌, append-nil, append_assoc, ap, ◌∙◌, Option-cases, inl, inr,
}
use eudi_dev.Dcql.Value.{Value, null, str, num}
use eudi_dev.Dcql.Path.{
  index_int, claim_path_exists, claim_path_index, select_segment, next_selection, select_from,
  select_json_claims,
}

-- The values under `value` that one segment names.
unfoldable pub children : Value → Value → List Value
unfolding select_segment
children segment value = elim (select_segment segment value) [ none ↦ [] | some vs ↦ vs ]

-- The values that a path names, found depth first.
unfoldable pub reach : List Value → Value → List Value
unfolding children
reach [] value = value ∷ []
reach (segment ∷ path) value = flat_map (reach path) (children segment value)

flat_map-append :
    (f : Value → List Value) (xs ys : List Value)
    → flat_map f (xs ++ ys) ≡ flat_map f xs ++ flat_map f ys
flat_map-append f [] ys = refl
flat_map-append f (x ∷ xs) ys = simp (flat_map-append f xs ys, append_assoc)

flat_map-flat_map :
    (f g : Value → List Value) (xs : List Value)
    → flat_map f (flat_map g xs) ≡ flat_map (λ x. flat_map f (g x)) xs
flat_map-flat_map f g [] = refl
flat_map-flat_map f g (x ∷ xs) =
    flat_map-append f (g x) (flat_map g xs)
    ∙ ap (λ r. flat_map f (g x) ++ r) (flat_map-flat_map f g xs)

flat_map-single : (xs : List Value) → flat_map (λ x. x ∷ []) xs ≡ xs
flat_map-single [] = refl
flat_map-single (x ∷ xs) = ap (λ r. x ∷ r) (flat_map-single xs)

-- A segment that aborts does so at every value.
select_segment-none : (s v w : Value) → select_segment s v ≡ none → select_segment s w ≡ none
unfolding select_segment
select_segment-none null v w h = ground arith
select_segment-none s v w h = ground arith

children-none :
    (s v : Value) → select_segment s v ≡ none → (vs : List Value) → flat_map (children s) vs ≡ []
unfolding children
children-none s v h [] = refl
children-none s v h (w ∷ vs) = rw (select_segment-none s v w h, children) (children-none s v h vs)

abbrev or_empty : Option (List Value) → List Value
or_empty none = []
or_empty (some vs) = vs

next_selection-none :
    (s v : Value) (vs : List Value) → next_selection s vs ≡ none → select_segment s v ≡ none
unfolding next_selection
next_selection-none s v [] h = cc
next_selection-none s v (w ∷ vs) h = elim (Option-cases (select_segment s w)) [
  | inl e ↦ select_segment-none s w v e
  | inr (here, e) ↦ next_selection-none s v vs (ground arith)
]

-- One round of the outer loop selects the children of every selected value.
next_selection-eq :
    (s : Value) (vs : List Value) → or_empty (next_selection s vs) ≡ flat_map (children s) vs
unfolding next_selection children
next_selection-eq s [] = refl
next_selection-eq s (v ∷ vs) = elim (Option-cases (select_segment s v)) [
  | inl e ↦ rw (e, next_selection) (sym (children-none s v e (v ∷ vs)))
  | inr (here, e) ↦ elim (Option-cases (next_selection s vs)) [
    | inl f ↦ cc (e, next_selection-none s v vs f)
    | inr (there, f) ↦ ground (arith, next_selection-eq s vs)
  ]
]

select_from-cons :
    (s : Value) (path selection : List Value)
    → ((next : List Value) → select_from next path ≡ flat_map (reach path) next)
    → select_from selection (s ∷ path) ≡ flat_map (reach path) (flat_map (children s) selection)
unfolding select_from
select_from-cons s path selection ih =
    rw (← next_selection-eq s selection) (elim (Option-cases (next_selection s selection)) [
      | inl e ↦ rw e (rw (e, select_from))
      | inr ([], e) ↦ rw e (rw (e, select_from))
      | inr (v ∷ vs, e) ↦ rw e (rw (e, select_from) (ih (v ∷ vs)))
    ])

select_from-eq :
    (path selection : List Value) → select_from selection path ≡ flat_map (reach path) selection
unfolding select_from reach
select_from-eq [] selection = sym (flat_map-single selection)
select_from-eq (s ∷ path) selection =
    select_from-cons s path selection (λ next. select_from-eq path next)
    ∙ flat_map-flat_map (reach path) (children s) selection

-- A claims path pointer (§7) whose last segment is no null: strings, nulls and
-- non-negative integers.
abbrev IsSegment : Value → List Value → Type 0
IsSegment (str k) rest = Unit
IsSegment null rest = rest ≢ []
IsSegment (num f) rest = (is_below_zero f ≡ false) × (is_integral f ≡ true)
IsSegment _ rest = ⊥

abbrev pub IsMatchable : List Value → Type 0
IsMatchable [] = Unit
IsMatchable (s ∷ rest) = IsSegment s rest × IsMatchable rest

is_empty-append : (xs ys : List Value) → is_empty (xs ++ ys) ≡ is_empty xs && is_empty ys
is_empty-append [] ys = refl
is_empty-append (x ∷ xs) ys = refl

any-flat_map :
    (p : Value → Bool) (f : Value → List Value) (xs : List Value)
    → ((x : Value) → p x ≡ not (is_empty (f x)))
    → any p xs ≡ not (is_empty (flat_map f xs))
any-flat_map p f [] h = refl
any-flat_map p f (x ∷ xs) h =
    ground (arith, h x, is_empty-append (f x) (flat_map f xs), any-flat_map p f xs h)

-- One segment of `claimPathExists` tries the children that `selectJSONClaims` selects.
module _ (value : Value) (rest : List Value) where
  exists-str :
      (k : Text)
      → claim_path_exists value (str k ∷ rest)
        ≡ any (λ v. claim_path_exists v rest) (children (str k) value)
  unfolding claim_path_exists children select_segment
  exists-str k = ground arith

  exists-null :
      rest ≢ []
      → claim_path_exists value (null ∷ rest)
        ≡ any (λ v. claim_path_exists v rest) (children null value)
  unfolding claim_path_exists children select_segment
  exists-null h = ground arith

  exists-num :
      (f : Float64)
      → is_below_zero f ≡ false
      → is_integral f ≡ true
      → claim_path_exists value (num f ∷ rest)
        ≡ any (λ v. claim_path_exists v rest) (children (num f) value)
  unfolding claim_path_exists children select_segment claim_path_index index_int is_below_zero
      truncate
  exists-num (dyadic (pos m) k) b i = ground arith
  exists-num (dyadic (negsuc m) k) b i = cc

claim_path_exists-reach :
    (path : List Value) (value : Value)
    → IsMatchable path
    → claim_path_exists value path ≡ not (is_empty (reach path value))
unfolding claim_path_exists reach
claim_path_exists-reach [] value h = refl
claim_path_exists-reach (str k ∷ rest) value (_, h) =
    exists-str value rest k ∙ any-flat_map _ (reach rest) _ (λ v. claim_path_exists-reach rest v h)
claim_path_exists-reach (num f ∷ rest) value (i, h) =
    exists-num value rest f i.0 i.1
    ∙ any-flat_map _ (reach rest) _ (λ v. claim_path_exists-reach rest v h)
claim_path_exists-reach (null ∷ rest) value (n, h) =
    exists-null value rest n ∙ any-flat_map _ (reach rest) _ (λ v. claim_path_exists-reach rest v h)
claim_path_exists-reach (_ ∷ rest) value (n, h) = elim n [ ]

-- `selectJSONClaims` searches breadth first and stops at the first empty round. It finds, in the
-- same order, what a depth-first search of the claims finds, whatever the path holds.
pub select_json_claims-eq-reach :
    (root : Value) (path : List Value) → select_json_claims root path ≡ reach path root
unfolding select_json_claims
select_json_claims-eq-reach root path =
    select_from-eq path (root ∷ []) ∙ append-nil (reach path root)

-- On a path pointer of strings, nulls and non-negative integers whose last segment is no null, the
-- existence test of claim selection holds exactly when the values test has a value to compare.
pub claim_path_exists-eq-select :
    (root : Value) (path : List Value)
    → IsMatchable path
    → claim_path_exists root path ≡ not (is_empty (select_json_claims root path))
claim_path_exists-eq-select root path h =
    claim_path_exists-reach path root h
    ∙ ap (λ found. not (is_empty found)) (sym (select_json_claims-eq-reach root path))
