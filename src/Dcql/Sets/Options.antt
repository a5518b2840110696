-- ===== src/Dcql/Sets/Options.antt =====
-- The credential sets of a request: what is returned satisfies every required set.
use eudi_dev.Base.{
  text_eq, Bool-cases, Text, codes, text_eq_iff, text_eq_refl, subst, contains, Bool, true, false,
  not, ◌||◌, ◌&&◌, some, List, [], ◌∷◌, ◌++◌, is_empty, if◌then◌else◌, keep_if, All, ◌≡◌, ◌≢◌, refl,
  ◌⊎◌, ◌∙◌, arith, Option-cases, inl, inr,
}
use mathlib.Core.List.{Memᴰ}
use eudi_dev.Base.Sort.{stable_sort, All-stable_sort}
use eudi_dev.Dcql.Value.{Value, as_object, as_array, as_string}
use eudi_dev.Dcql.Claims.{Object, array_member}
use eudi_dev.Dcql.Meta.{bool_member}
use eudi_dev.Dcql.Match.{CredentialMatch}
use eudi_dev.Dcql.Sets.{
  has_match, option_ids, satisfiable_option, first_option, order_options, is_required,
  needed_queries, apply_credential_sets, option_matches_format,
}

pub All-map {ℓ κ μ} :
    {A : Type ℓ} (P : A → Type κ) (Q : A → Type μ)
    → ((a : A) → P a → Q a)
    → (xs : List A) → All P xs
    → All Q xs
All-map P Q f [] h = tt
All-map P Q f (x ∷ xs) (p, h) = (f x p, All-map P Q f xs h)

pub All-self {ℓ} : {A : Type ℓ} (xs : List A) → All (λ x. Memᴰ x xs) xs
All-self [] = tt
All-self (x ∷ xs) = (
  Memᴰ.head refl,
  All-map (λ y. Memᴰ y xs) (λ y. Memᴰ y (x ∷ xs)) (λ y m. Memᴰ.tail m) xs (All-self xs),
)

has_match-keep_if :
    (needed : List Text) (id : Text) (ms : List CredentialMatch)
    → has_match (keep_if (λ m. contains needed m.query_id) ms) id
      ≡ (contains needed id && has_match ms id)
has_match-keep_if needed id [] = ground arith
has_match-keep_if needed id (m ∷ ms) =
    ground (arith, text_eq_iff m.query_id id, has_match-keep_if needed id ms)

contains-append :
    (xs ys : List Text) (t : Text) → contains (xs ++ ys) t ≡ (contains xs t || contains ys t)
unfolding contains
contains-append [] ys t = refl
contains-append (x ∷ xs) ys t = ground (arith, contains-append xs ys t)

abbrev AreIn : List Text → List Text → Type 0
AreIn needed ids = All (λ q. contains needed q ≡ true) ids

contains-tail : (x q : Text) (xs : List Text) → contains xs q ≡ true → contains (x ∷ xs) q ≡ true
unfolding contains
contains-tail x q xs h = ground arith

contains-head : (x : Text) (xs : List Text) → contains (x ∷ xs) x ≡ true
unfolding contains
contains-head x xs = ground (arith, text_eq_refl x)

AreIn-self : (xs : List Text) → AreIn xs xs
AreIn-self [] = tt
AreIn-self (x ∷ xs) = (
  contains-head x xs,
  All-map (λ q. contains xs q ≡ true) (λ q. contains (x ∷ xs) q ≡ true)
      (λ q h. contains-tail x q xs h) xs (AreIn-self xs),
)

-- The first id of an option, and the others.
option_ids-cons :
    (has : Text → Bool) (v : Value) (vs : List Value) {ids : List Text}
    → option_ids has (v ∷ vs) ≡ some ids
    → (q : Text) × (rest : List Text) × (as_string v ≡ some q)
      × (option_ids has vs ≡ some rest)
      × (has q ≡ true)
      × (ids ≡ q ∷ rest)
unfolding option_ids
option_ids-cons has v vs e = elim (Option-cases (as_string v)) [
  | inl f ↦ absurd (ground arith)
  | inr (q, f) ↦ elim (Option-cases (option_ids has vs)) [
    | inl g ↦ absurd (ground arith)
    | inr (rest, g) ↦ (q, rest, f, g, ground arith, ground arith)
  ]
]

option_ids-intro :
    (has : Text → Bool) (v : Value) (vs : List Value) {q : Text} {rest : List Text}
    → as_string v ≡ some q
    → option_ids has vs ≡ some rest
    → has q ≡ true
    → option_ids has (v ∷ vs) ≡ some (q ∷ rest)
unfolding option_ids
option_ids-intro has v vs f g h = ground arith

AreIn-left : (ids rest : List Text) → AreIn (ids ++ rest) ids
AreIn-left ids rest =
    All-map (λ q. contains ids q ≡ true) (λ q. contains (ids ++ rest) q ≡ true)
      (λ q h. ground (arith, contains-append ids rest q)) ids (AreIn-self ids)

AreIn-right : (earlier needed ids : List Text) → AreIn needed ids → AreIn (earlier ++ needed) ids
AreIn-right earlier needed ids =
    All-map (λ q. contains needed q ≡ true) (λ q. contains (earlier ++ needed) q ≡ true)
      (λ q h. ground (arith, contains-append earlier needed q)) ids

module _ (ms : List CredentialMatch) where
  order_options-Memᴰ :
      (options : List Value) (preferred : Text)
      → All (λ o. Memᴰ o options) (order_options options ms preferred)
  unfolding order_options
  order_options-Memᴰ options preferred = split (is_empty preferred)
    where
      less : Value → Value → Bool
      less a b = option_matches_format ms preferred a && not (option_matches_format ms preferred b)

      split :
          (b : Bool) → All (λ o. Memᴰ o options) (if b then options else stable_sort less options)
      split true = All-self options
      split false = All-stable_sort (λ o. Memᴰ o options) less options (All-self options)

  first_option-found {κ} :
      (P : Value → Type κ) (opts : List Value) {ids : List Text}
      → All P opts
      → first_option ms opts ≡ some ids
      → (opt : Value) × P opt × (satisfiable_option (has_match ms) opt ≡ some ids)
  unfolding first_option
  first_option-found P [] h e = cc
  first_option-found P (opt ∷ opts) (p, h) e =
      elim (Option-cases (satisfiable_option (has_match ms) opt)) [
        | inl f ↦ first_option-found P opts h (ground arith)
        | inr (found, f) ↦ (opt, p, ground arith)
      ]

  abbrev presented : List Text → List CredentialMatch
  presented needed = keep_if (λ m. contains needed m.query_id) ms

  option_ids-presented :
      (needed : List Text) (vs : List Value) {ids : List Text}
      → option_ids (has_match ms) vs ≡ some ids
      → AreIn needed ids
      → option_ids (has_match (presented needed)) vs ≡ some ids
  option_ids-presented needed [] e h = unfold option_ids in e
  option_ids-presented needed (v ∷ vs) e h =
      let (q, rest, is_q, tail, has_q, same) = option_ids-cons (has_match ms) v vs e in
      let (here, there) = subst (AreIn needed) same h in
      rw same (
        option_ids-intro (has_match (presented needed)) v vs is_q
          (option_ids-presented needed vs tail there)
          (has_match-keep_if needed q ms ∙ rw (here, has_q) refl))

  option-presented :
      (needed : List Text) (opt : Value) {ids : List Text}
      → satisfiable_option (has_match ms) opt ≡ some ids
      → AreIn needed ids
      → satisfiable_option (has_match (presented needed)) opt ≡ some ids
  unfolding satisfiable_option
  option-presented needed opt e h = elim (Option-cases (as_array opt)) [
    | inl f ↦ absurd (ground arith)
    | inr (vs, f) ↦ let g = option_ids-presented needed vs (ground arith) h in ground arith
  ]

  -- A required set of the request that has options has one whose queries are all needed.
  abbrev IsChosen : List Text → Value → Type 0
  IsChosen needed cs =
      (set : Object) (options : List Value)
      → as_object cs ≡ some set
      → array_member (codes "options") set ≡ some options
      → is_required set ≡ true
      → (opt : Value) × (ids : List Text) × Memᴰ opt options
        × (satisfiable_option (has_match ms) opt ≡ some ids)
        × AreIn needed ids

  abbrev IsSubset : List Text → List Text → Type 0
  IsSubset later needed = (q : Text) → contains later q ≡ true → contains needed q ≡ true

  IsChosen-mono :
      (later needed : List Text)
      → IsSubset later needed
      → (cs : Value) → IsChosen later cs
      → IsChosen needed cs
  IsChosen-mono later needed sub cs h set options e f g =
      let (opt, ids, listed, satisfied, inside) = h set options e f g in
      (
        opt,
        ids,
        listed,
        satisfied,
        All-map (λ q. contains later q ≡ true) (λ q. contains needed q ≡ true) sub ids inside,
      )

  -- One round of the loop over the sets only adds queries.
  needed-step :
      (preferred : Text) (cs : Value) (sets : List Value) {needed : List Text}
      → needed_queries ms preferred (cs ∷ sets) ≡ some needed
      → (later : List Text) × (needed_queries ms preferred sets ≡ some later)
        × ((needed ≡ later) ⊎ ((ids : List Text) × (needed ≡ ids ++ later)))
  unfolding needed_queries
  needed-step preferred cs sets e = elim (Option-cases (needed_queries ms preferred sets)) [
    | inl f ↦ absurd (ground arith)
    | inr (later, f) ↦ elim (Option-cases (as_object cs)) [
      | inl o ↦ (later, f, inl (ground arith))
      | inr (set, o) ↦ elim (Option-cases (array_member (codes "options") set)) [
        | inl a ↦ (later, f, inl (ground arith))
        | inr (options, a) ↦
            elim (Option-cases (first_option ms (order_options options ms preferred))) [
              | inl n ↦ (later, f, inl (ground arith))
              | inr (ids, n) ↦ (later, f, inr (ids, ground arith))
            ]
      ]
    ]
  ]

  needed-here :
      (preferred : Text) (cs : Value) (sets : List Value) {needed later : List Text} (set : Object)
      (options : List Value)
      → needed_queries ms preferred (cs ∷ sets) ≡ some needed
      → needed_queries ms preferred sets ≡ some later
      → as_object cs ≡ some set
      → array_member (codes "options") set ≡ some options
      → is_required set ≡ true
      → (ids : List Text) × (first_option ms (order_options options ms preferred) ≡ some ids)
        × (needed ≡ ids ++ later)
  unfolding needed_queries
  needed-here preferred cs sets set options e l f g r =
      elim (Option-cases (first_option ms (order_options options ms preferred))) [
        | inl n ↦ absurd (ground arith)
        | inr (ids, n) ↦ (ids, n, ground arith)
      ]

  subset-step :
      (needed later : List Text)
      → (needed ≡ later) ⊎ ((ids : List Text) × (needed ≡ ids ++ later))
      → IsSubset later needed
  subset-step needed later (inl e) q h = rw e h
  subset-step needed later (inr (ids, e)) q h = rw e (ground (arith, contains-append ids later q))

  needed_queries-IsChosen :
      (preferred : Text) (sets : List Value) {needed : List Text}
      → needed_queries ms preferred sets ≡ some needed
      → All (IsChosen needed) sets
  needed_queries-IsChosen preferred [] e = tt
  needed_queries-IsChosen preferred (cs ∷ sets) {needed} e =
      let (later, f, step) = needed-step preferred cs sets e in
      (
        λ set options o a r.
            let (ids, found, same) = needed-here preferred cs sets set options e f o a r in
            let (opt, listed, satisfied) =
              first_option-found (λ o. Memᴰ o options) (order_options options ms preferred)
                (order_options-Memᴰ options preferred) found in
            (opt, ids, listed, satisfied, rw same (AreIn-left ids later)),
        All-map (IsChosen later) (IsChosen needed)
            (IsChosen-mono later needed (subset-step needed later step)) sets
            (needed_queries-IsChosen preferred sets f),
      )

-- A query id of an option, which some credential that is returned answers.
abbrev pub IsIdAnswered : List CredentialMatch → Value → Type 0
IsIdAnswered result v =
    (qid : Text) × (m : CredentialMatch) × (as_string v ≡ some qid)
    × Memᴰ m result
    × (m.query_id ≡ qid)

has_match-Memᴰ :
    (ms : List CredentialMatch) (id : Text)
    → has_match ms id ≡ true
    → (m : CredentialMatch) × Memᴰ m ms × (m.query_id ≡ id)
has_match-Memᴰ [] id h = absurd (ground arith)
has_match-Memᴰ (m ∷ ms) id h = elim (Bool-cases (text_eq m.query_id id)) [
  | inl e ↦ (m, Memᴰ.head refl, (text_eq_iff m.query_id id).0 e)
  | inr e ↦ let (n, listed, same) = has_match-Memᴰ ms id (rw e at h) in (n, Memᴰ.tail listed, same)
]

option_ids-answered :
    (result : List CredentialMatch) (vs : List Value) {ids : List Text}
    → option_ids (has_match result) vs ≡ some ids
    → All (IsIdAnswered result) vs
option_ids-answered result [] e = tt
option_ids-answered result (v ∷ vs) e =
    let (q, rest, is_q, tail, has_q, same) = option_ids-cons (has_match result) v vs e in
    let (m, listed, named) = has_match-Memᴰ result q has_q in
    ((q, m, is_q, listed, named), option_ids-answered result vs tail)

-- What a credential set of the request asks of the credentials that are returned: if it is an object
-- with options and does not say that it is not required, it has an option, an array of query ids, for
-- each of which some credential is returned.
abbrev pub IsSatisfied : List CredentialMatch → Value → Type 0
IsSatisfied result cs =
    (set : Object) (options : List Value)
    → as_object cs ≡ some set
    → array_member (codes "options") set ≡ some options
    → bool_member (codes "required") set ≢ some false
    → (opt : Value) × (ids : List Value) × Memᴰ opt options
      × (as_array opt ≡ some ids)
      × All (IsIdAnswered result) ids

option-answered :
    (result : List CredentialMatch) (opt : Value) {ids : List Text}
    → satisfiable_option (has_match result) opt ≡ some ids
    → (vs : List Value) × (as_array opt ≡ some vs) × All (IsIdAnswered result) vs
unfolding satisfiable_option
option-answered result opt {ids} e = elim (Option-cases (as_array opt)) [
  | inl f ↦ absurd (ground arith)
  | inr (vs, f) ↦ (vs, f, option_ids-answered result vs {ids = ids} (ground arith))
]

required_unless :
    (set : Object) → bool_member (codes "required") set ≢ some false → is_required set ≡ true
required_unless set h = elim (Option-cases (bool_member (codes "required") set)) [
  | inl e ↦ rw (e, is_required) refl
  | inr (true, e) ↦ rw (e, is_required) refl
  | inr (false, e) ↦ absurd (h e)
]

-- Either no credential is returned, or the credentials returned satisfy an option of every required set
-- that is an object with an array of options.
pub apply_credential_sets-IsSatisfied :
    (ms : List CredentialMatch) (sets : List Value) (preferred : Text)
    → apply_credential_sets ms sets preferred ≢ []
    → All (IsSatisfied (apply_credential_sets ms sets preferred)) sets
unfolding apply_credential_sets
apply_credential_sets-IsSatisfied ms sets preferred h =
    elim (Option-cases (needed_queries ms preferred sets)) [
      | inl e ↦ absurd (h (rw (e, apply_credential_sets) refl))
      | inr (needed, e) ↦
          rw (e, apply_credential_sets)
            (All-map (IsChosen ms needed) (IsSatisfied (presented ms needed))
              (λ cs chosen set options o a r.
                let (opt, ids, listed, satisfied, inside) =
                  chosen set options o a (required_unless set r) in
                let (vs, is_array, answered) =
                  option-answered (presented ms needed) opt
                    (option-presented ms needed opt satisfied inside) in
                (opt, vs, listed, is_array, answered))
              sets (needed_queries-IsChosen ms preferred sets e))
    ]
