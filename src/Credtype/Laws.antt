-- ===== src/Credtype/Laws.antt =====
-- The loop of `Chain` ends, and what the chain holds.
use eudi_dev.Base.{
  ℕ, zero, suc, ◌+◌, ◌≤◌, ◌<◌, Text, text_eq, text_eq_iff, text_eq_refl, contains, Bool, true,
  false, none, some, List, [], ◌∷◌, ◌++◌, is_empty, get_elem?, length, length-append, if◌then◌else◌,
  ◌≡◌, refl, ap, ◌∙◌, arith, Option-cases, Bool-cases, inl, inr, drop, ◌||◌, ◌&&◌, ◌⊎◌,
}
use eudi_dev.Credtype.{
  pid_vct, extends, add_type, add_types, add_parent, add_base_types, chain, answers, cut_prefix,
}

-- Only one type is ever extended.
extends-pid_vct : (t : Text) {parent : Text} → extends t ≡ some parent → parent ≡ pid_vct
unfolding extends
extends-pid_vct t h = ground arith

extends_base : extends pid_vct ≡ none
unfolding extends
extends_base = refl

contains-snoc : (xs : List Text) (t : Text) → contains (xs ++ t ∷ []) t ≡ true
unfolding contains
contains-snoc [] t = ground (arith, text_eq_refl t)
contains-snoc (x ∷ xs) t = ground (arith, contains-snoc xs t)

-- Once the base type is in the chain, the loop adds nothing.
add_parent_settled : (t : Text) (c : List Text) → contains c pid_vct ≡ true → add_parent t c ≡ c
unfolding add_parent add_type
add_parent_settled t c h = elim (Option-cases (extends t)) [
  | inl e ↦ ground arith
  | inr (parent, e) ↦ ground (arith, extends-pid_vct t e)
]

get_elem?-none : (c : List Text) (i : ℕ) → get_elem? c i ≡ none → length c ≤ i
get_elem?-none [] i h = omega arith
get_elem?-none (x ∷ c) zero h = cc
get_elem?-none (x ∷ c) (suc i) h = omega (arith, get_elem?-none c i h)

get_elem?-some : (c : List Text) (i : ℕ) {t : Text} → get_elem? c i ≡ some t → i < length c
get_elem?-some [] i h = cc
get_elem?-some (x ∷ c) zero h = omega arith
get_elem?-some (x ∷ c) (suc i) h = omega (arith, get_elem?-some c i h)

settled_loop :
    (fuel i : ℕ) (c : List Text)
    → contains c pid_vct ≡ true
    → i ≤ length c
    → length c < fuel + i
    → add_base_types fuel i c ≡ some c
unfolding add_base_types
settled_loop zero i c h j k = absurd (omega arith)
settled_loop (suc fuel) i c h j k = elim (Option-cases (get_elem? c i)) [
  | inl e ↦ rw (e, add_base_types) refl
  | inr (t, e) ↦
      rw (e, add_base_types)
        (rw (add_parent_settled t c h) (
          settled_loop fuel (suc i) c h (let q = get_elem?-some c i e in omega arith)
            (omega arith)))
]

abbrev pub is_extending : Text → Bool
is_extending t = elim (extends t) [ none ↦ false | some parent ↦ true ]

abbrev pub some_extends : List Text → Bool
some_extends [] = false
some_extends (t ∷ ts) = is_extending t || some_extends ts

drop-get_elem? :
    (c : List Text) (i : ℕ) {t : Text} → get_elem? c i ≡ some t → drop i c ≡ t ∷ drop (suc i) c
drop-get_elem? [] i h = cc
drop-get_elem? (x ∷ c) zero h = cc
drop-get_elem? (x ∷ c) (suc i) h = drop-get_elem? c i h

drop-all : (c : List Text) (i : ℕ) → length c ≤ i → drop i c ≡ []
drop-all [] zero h = refl
drop-all [] (suc i) h = refl
drop-all (x ∷ c) zero h = absurd (omega arith)
drop-all (x ∷ c) (suc i) h = drop-all c i (omega arith)

add_parent-none : (t : Text) (c : List Text) → extends t ≡ none → add_parent t c ≡ c
unfolding add_parent
add_parent-none t c e = ground arith

add_parent-some :
    (t : Text) (c : List Text) {parent : Text}
    → extends t ≡ some parent
    → contains c pid_vct ≡ false
    → add_parent t c ≡ c ++ pid_vct ∷ []
unfolding add_parent add_type
add_parent-some t c {parent} e h = ground (arith, extends-pid_vct t e)

loop_lem :
    (fuel i : ℕ) (c : List Text)
    → contains c pid_vct ≡ false
    → i ≤ length c
    → length c + 1 < fuel + i
    → add_base_types fuel i c ≡ some (if some_extends (drop i c) then c ++ pid_vct ∷ [] else c)
unfolding add_base_types
loop_lem zero i c h j k = absurd (omega arith)
loop_lem (suc fuel) i c h j k = elim (Option-cases (get_elem? c i)) [
  | inl e ↦ rw (e, add_base_types) (rw (drop-all c i (get_elem?-none c i e)) refl)
  | inr (t, e) ↦
      rw (e, add_base_types)
        (rw (drop-get_elem? c i e) (
          loop_step t (get_elem?-some c i e) (loop_lem fuel (suc i) c h)
            (Option-cases (extends t))))
]
  where
    result : List Text → List Text
    result rest = if some_extends rest then c ++ pid_vct ∷ [] else c

    loop_step :
        (t : Text)
        → i < length c
        → (suc i ≤ length c
            → length c + 1 < fuel + suc i
            → add_base_types fuel (suc i) c ≡ some (result (drop (suc i) c)))
        → (extends t ≡ none) ⊎ ((parent : Text) × (extends t ≡ some parent))
        → add_base_types fuel (suc i) (add_parent t c) ≡ some (result (t ∷ drop (suc i) c))
    loop_step t q ih (inl e) = rw (add_parent-none t c e) (rw e (ih (omega arith) (omega arith)))
    loop_step t q ih (inr (parent, e)) = rw (add_parent-some t c e h) (
        rw e (
          settled_loop fuel (suc i) (c ++ pid_vct ∷ []) (contains-snoc c pid_vct)
            (rw length-append (omega arith)) (rw length-append (omega arith))))

contains-append :
    (xs ys : List Text) (t : Text) → contains (xs ++ ys) t ≡ (contains xs t || contains ys t)
unfolding contains
contains-append [] ys t = refl
contains-append (x ∷ xs) ys t = ground (arith, contains-append xs ys t)

contains-add_type :
    (t : Text) (c : List Text) (r : Text)
    → is_empty r ≡ false
    → contains (add_type t c) r ≡ (contains c r || text_eq t r)
unfolding add_type contains
contains-add_type t c r h =
    ground (arith, contains-append c (t ∷ []) r, text_eq_iff t r, text_eq_iff t [])

contains-add_types :
    (ts c : List Text) (r : Text)
    → is_empty r ≡ false
    → contains (add_types ts c) r ≡ (contains c r || contains ts r)
unfolding add_types contains
contains-add_types [] c r h = ground arith
contains-add_types (t ∷ ts) c r h =
    ground (arith, contains-add_types ts (add_type t c) r h, contains-add_type t c r h)

extends_empty : extends [] ≡ none
unfolding extends cut_prefix
extends_empty = refl

some_extends-append :
    (xs ys : List Text) → some_extends (xs ++ ys) ≡ (some_extends xs || some_extends ys)
some_extends-append [] ys = refl
some_extends-append (x ∷ xs) ys = ground (arith, some_extends-append xs ys)

some_extends_of_contains :
    (c : List Text) (t : Text) → contains c t ≡ true → is_extending t ≡ true → some_extends c ≡ true
unfolding contains
some_extends_of_contains [] t h e = cc
some_extends_of_contains (x ∷ c) t h e =
    ground (arith, text_eq_iff x t, some_extends_of_contains c t)

some_extends-add_type :
    (t : Text) (c : List Text) → some_extends (add_type t c) ≡ (some_extends c || is_extending t)
unfolding add_type
some_extends-add_type [] c = ground (arith, extends_empty)
some_extends-add_type (b ∷ t) c =
    ground (arith, some_extends-append c ((b ∷ t) ∷ []), some_extends_of_contains c (b ∷ t))

some_extends-add_types :
    (ts c : List Text) → some_extends (add_types ts c) ≡ (some_extends c || some_extends ts)
unfolding add_types
some_extends-add_types [] c = ground arith
some_extends-add_types (t ∷ ts) c =
    ground (arith, some_extends-add_types ts (add_type t c), some_extends-add_type t c)

-- The chain with the base type, where some type extends it.
abbrev pub with_base : List Text → List Text
with_base c = if contains c pid_vct then c else if some_extends c then c ++ pid_vct ∷ [] else c

loop-with_base : (c : List Text) → add_base_types (length c + 2) 0 c ≡ some (with_base c)
loop-with_base c = elim (Bool-cases (contains c pid_vct)) [
  | inl e ↦ rw e (settled_loop (length c + 2) 0 c e (omega arith) (omega arith))
  | inr e ↦ rw e (loop_lem (length c + 2) 0 c e (omega arith) (omega arith))
]

-- The loop of `Chain` ends for every input, and adds the base type once, if a type extends it.
pub chain-with_base :
    (vct : Text) (aka : List Text)
    → is_empty vct ≡ false
    → chain vct aka ≡ some (with_base (add_types aka (vct ∷ [])))
unfolding chain
chain-with_base vct aka h = rw h (loop-with_base (add_types aka (vct ∷ [])))

contains-single : (t r : Text) → contains (t ∷ []) r ≡ text_eq t r
unfolding contains
contains-single t r = ground arith

base_case :
    (c : List Text) (r : Text)
    → pid_vct ≡ r
    → contains (with_base c) r ≡ (contains c r || (text_eq pid_vct r && some_extends c))
base_case c r e = rw (← e) (
    rw (text_eq_refl pid_vct) (
      ground (
        arith,
        contains-append c (pid_vct ∷ []) pid_vct,
        contains-single pid_vct pid_vct,
        text_eq_refl pid_vct,
      )))

contains-with_base :
    (c : List Text) (r : Text)
    → contains (with_base c) r ≡ (contains c r || (text_eq pid_vct r && some_extends c))
contains-with_base c r = elim (Bool-cases (text_eq pid_vct r)) [
  | inl e ↦ base_case c r ((text_eq_iff pid_vct r).0 e)
  | inr e ↦ ground (arith, contains-append c (pid_vct ∷ []) r, contains-single pid_vct r)
]

contains-cons :
    (t : Text) (ts : List Text) (r : Text) → contains (t ∷ ts) r ≡ (text_eq t r || contains ts r)
unfolding contains
contains-cons t ts r = ground arith

regroup :
    (t : Text) (ts : List Text) (r : Text)
    → (contains (t ∷ []) r || contains ts r)
        || (text_eq pid_vct r && (some_extends (t ∷ []) || some_extends ts))
      ≡ (contains (t ∷ ts) r || (text_eq pid_vct r && some_extends (t ∷ ts)))
regroup t ts r =
    rw (contains-single t r, contains-cons t ts r)
      (or_false (is_extending t) (text_eq t r) (text_eq pid_vct r) (contains ts r)
        (some_extends ts))
  where
    or_false :
        (e a b c d : Bool) → (a || c) || (b && ((e || false) || d)) ≡ ((a || c) || (b && (e || d)))
    or_false e a b c d = ground arith

-- A credential with a type answers for exactly that type, the types of its `aka_vcts`, and the base
-- PID type where one of those is a domestic PID type; the loop that finds them ends.
pub answers_iff :
    (vct : Text) (aka : List Text) (requested : Text)
    → is_empty vct ≡ false
    → is_empty requested ≡ false
    → answers vct aka requested
      ≡ some (
          contains (vct ∷ aka) requested || (text_eq pid_vct requested && some_extends (vct ∷ aka)))
unfolding answers
answers_iff vct aka requested h k =
    rw (h, k)
      (rw (loop-with_base (add_types aka (vct ∷ []))) (
        ap some (
          contains-with_base (add_types aka (vct ∷ [])) requested
          ∙ rw
              (contains-add_types aka (vct ∷ []) requested k, some_extends-add_types aka (vct ∷ []))
              (regroup vct aka requested))))
