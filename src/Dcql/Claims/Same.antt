-- ===== src/Dcql/Claims/Same.antt =====
-- When a claim is one of the `values` of a claims query.
use eudi_dev.Base.{
  ℤ, Float64, float_eq, float_of_int, Text, text_eq_iff, Bool, true, false, none, some,
  Option-cases, ◌≡◌, inl, inr, subst, arith,
}
use eudi_dev.Dcql.Value.{Value, null, bool, str, num, int, bytes, arr, obj, as_string}
use eudi_dev.Dcql.Claims.{numeric_claim_value, claim_value_equals}

-- A value that stands for this number: a float, or an integer of an mdoc.
pub data IsNumber : Value → Float64 → Type 0 where
  a_float : (f : Float64) → IsNumber (num f) f
  an_integer : (i : ℤ) → IsNumber (int i) (float_of_int i)

-- The same text, the same Boolean, or equal numbers.
pub data IsSame : Value → Value → Type 0 where
  same_text : (t : Text) → IsSame (str t) (str t)
  same_bool : (b : Bool) → IsSame (bool b) (bool b)
  same_number :
      (claim want : Value) (x y : Float64)
      → IsNumber claim x
      → IsNumber want y
      → float_eq x y ≡ true
      → IsSame claim want

numeric-IsNumber : (v : Value) (x : Float64) → numeric_claim_value v ≡ some x → IsNumber v x
unfolding numeric_claim_value
numeric-IsNumber (num f) x e = let same : f ≡ x = cc in subst (IsNumber (num f)) same (a_float f)
numeric-IsNumber (int i) x e =
    let same : float_of_int i ≡ x = cc in subst (IsNumber (int i)) same (an_integer i)
numeric-IsNumber null x e = absurd (cc)
numeric-IsNumber (bool b) x e = absurd (cc)
numeric-IsNumber (str t) x e = absurd (cc)
numeric-IsNumber (bytes b) x e = absurd (cc)
numeric-IsNumber (arr vs) x e = absurd (cc)
numeric-IsNumber (obj fs) x e = absurd (cc)

numbers-IsSame :
    (claim want : Value)
    → (elim (numeric_claim_value want) [
      | none ↦ false
      | some y ↦ elim (numeric_claim_value claim) [ none ↦ false | some x ↦ float_eq x y ]
    ])
      ≡ true
    → IsSame claim want
numbers-IsSame claim want h = elim (Option-cases (numeric_claim_value want)) [
  | inl e ↦ absurd (ground arith)
  | inr (y, e) ↦ elim (Option-cases (numeric_claim_value claim)) [
    | inl f ↦ absurd (ground arith)
    | inr (x, f) ↦
        same_number claim want x y (numeric-IsNumber claim x f) (numeric-IsNumber want y e)
          (ground arith)
  ]
]

pub claim_value_equals-IsSame :
    (claim want : Value) → claim_value_equals claim want ≡ true → IsSame claim want
unfolding claim_value_equals as_string
claim_value_equals-IsSame (str t) (str u) h =
    subst (λ x. IsSame (str t) (str x)) ((text_eq_iff t u).0 h) (same_text t)
claim_value_equals-IsSame null (str u) h = absurd (cc)
claim_value_equals-IsSame (bool b) (str u) h = absurd (cc)
claim_value_equals-IsSame (num f) (str u) h = absurd (cc)
claim_value_equals-IsSame (int i) (str u) h = absurd (cc)
claim_value_equals-IsSame (bytes b) (str u) h = absurd (cc)
claim_value_equals-IsSame (arr vs) (str u) h = absurd (cc)
claim_value_equals-IsSame (obj fs) (str u) h = absurd (cc)
claim_value_equals-IsSame (bool true) (bool true) h = same_bool true
claim_value_equals-IsSame (bool false) (bool false) h = same_bool false
claim_value_equals-IsSame (bool true) (bool false) h = absurd (cc)
claim_value_equals-IsSame (bool false) (bool true) h = absurd (cc)
claim_value_equals-IsSame null (bool b) h = absurd (cc)
claim_value_equals-IsSame (str t) (bool b) h = absurd (cc)
claim_value_equals-IsSame (num f) (bool b) h = absurd (cc)
claim_value_equals-IsSame (int i) (bool b) h = absurd (cc)
claim_value_equals-IsSame (bytes b) (bool c) h = absurd (cc)
claim_value_equals-IsSame (arr vs) (bool b) h = absurd (cc)
claim_value_equals-IsSame (obj fs) (bool b) h = absurd (cc)
claim_value_equals-IsSame claim null h = numbers-IsSame claim null h
claim_value_equals-IsSame claim (num f) h = numbers-IsSame claim (num f) h
claim_value_equals-IsSame claim (int i) h = numbers-IsSame claim (int i) h
claim_value_equals-IsSame claim (bytes b) h = numbers-IsSame claim (bytes b) h
claim_value_equals-IsSame claim (arr vs) h = numbers-IsSame claim (arr vs) h
claim_value_equals-IsSame claim (obj fs) h = numbers-IsSame claim (obj fs) h
