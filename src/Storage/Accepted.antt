-- ===== src/Storage/Accepted.antt =====
-- Which keys a store accepts.
use eudi_dev.Base.{
  ℕ, Text, codes, text_eq, text_eq_iff, text_eq_refl, true, false, none, Bool-cases, List, [], ◌∷◌,
  ◌++◌, is_empty, if◌then◌else◌, ◌==◌, All, ◌≡◌, ◌↔◌, ◌⊎◌, refl, sym, ap, ◌∙◌, subst, arith, inl,
  inr,
}
use eudi_dev.Credential.Resolve.{has_prefix}
use eudi_dev.Storage.Keys.{slash, split, after_part, clean_parts, join_back, clean, clean_key}
use eudi_dev.Storage.Names.{
  parts, IsName, IsPart, onto, All-onto, split-HasNoSlash, parts-join_back, IsDown, IsKept,
  clean_parts-IsKept, split-no_slash, onto-IsUp, split-prefix, prefix-split,
}

-- The whole text of its parts.
abbrev glue : Text → List Text → Text
glue part [] = part
glue part (p ∷ ps) = part ++ slash ∷ glue p ps

glue_cons : (c : ℕ) (part : Text) (ps : List Text) → glue (c ∷ part) ps ≡ c ∷ glue part ps
glue_cons c part [] = refl
glue_cons c part (p ∷ ps) = refl

glue-split : (text : Text) → glue (split text).0 (split text).1 ≡ text
unfolding split
glue-split [] = refl
glue-split (c ∷ cs) = elim (Bool-cases (c == slash)) [
  | inl e ↦
      let same : c ≡ slash = ground arith in
      rw (e, split) (ap (λ x. slash ∷ x) (glue-split cs) ∙ ap (λ x. x ∷ cs) (sym same))
  | inr e ↦ rw (e, split) (glue_cons c (split cs).0 (split cs).1 ∙ ap (λ x. c ∷ x) (glue-split cs))
]

is_some-glue :
    (part : Text) (ps : List Text) → is_empty part ≡ false → is_empty (glue part ps) ≡ false
is_some-glue [] ps e = absurd (cc)
is_some-glue (c ∷ cs) [] e = refl
is_some-glue (c ∷ cs) (p ∷ ps) e = refl

join_back-onto :
    (part : Text) (ps out : List Text)
    → All IsName ps
    → join_back [] (onto ps (part ∷ out)) ≡ join_back (glue part ps) out
unfolding join_back
join_back-onto part [] out h = refl
join_back-onto part (p ∷ ps) out ((some_text, dot, up), hs) =
    join_back-onto p ps (part ∷ out) hs ∙ rw (is_some-glue p ps some_text, join_back) refl

-- Names are kept.
clean_parts-names : (ps out : List Text) → All IsName ps → clean_parts false out ps ≡ onto ps out
unfolding clean_parts after_part
clean_parts-names [] out h = refl
clean_parts-names (p ∷ ps) out ((some_text, dot, up), hs) =
    rw (some_text, dot, up, clean_parts) (clean_parts-names ps (p ∷ out) hs)

-- A key that is not refused.
record IsAccepted (key : Text) : Type 0 where
  some_text : is_empty key ≡ false
  not_rooted : has_prefix key (slash ∷ []) ≡ false
  cleaned : clean key ≡ key
  not_up : text_eq key (codes "..") ≡ false
  not_above : has_prefix key (codes "../") ≡ false

clean_key-IsAccepted : (key : Text) → (clean_key key ≡ none) ↔ IsAccepted key
unfolding clean_key
clean_key-IsAccepted key = (
  λ e. record {
    some_text = ground arith;
    not_rooted = ground arith;
    cleaned = (text_eq_iff (clean key) key).0 (ground arith);
    not_up = ground arith;
    not_above = ground arith;
  },
  λ h.
      rw (h.some_text, h.not_rooted, h.cleaned, text_eq_refl key, h.not_up, h.not_above, clean_key)
        refl,
)

clean-relative :
    (key : Text)
    → has_prefix key (slash ∷ []) ≡ false
    → clean key ≡ (
        let text = join_back [] (clean_parts false [] (parts key)) in
        if is_empty text then codes "." else text)
unfolding clean
clean-relative key e = rw (e, clean) refl

All-IsName : (out : List Text) → All IsPart out → IsDown out → All IsName out
All-IsName [] h d = tt
All-IsName (p ∷ out) ((some_text, dot, no_slash), h) (up, d) =
    ((some_text, dot, up), All-IsName out h d)

-- The first part of an accepted key is not "..".
IsAccepted-down :
    (key : Text) (others : List Text) → IsAccepted key → parts key ≡ codes ".." ∷ others → ⊥
IsAccepted-down key others h e =
    let first : (split key).0 ≡ codes ".." = cc in
    elim (split-prefix key) [
      | inl is ↦
          let same : text_eq key (codes "..") ≡ true =
            (text_eq_iff key (codes "..")).1 (is ∙ first) in
          absurd (ground (arith, h.not_up))
      | inr is ↦
          let same : has_prefix key (codes "../") ≡ true =
            subst (λ x. has_prefix key (x ++ slash ∷ []) ≡ true) first is in
          absurd (ground (arith, h.not_above))
    ]

IsKept-names :
    (key p : Text) (out : List Text)
    → IsAccepted key
    → IsKept (p ∷ out)
    → key ≡ join_back p out
    → All IsName (parts key)
IsKept-names key p out h ((part, is_part), d) e =
    let is : parts key ≡ onto out (p ∷ []) =
      ap parts e
      ∙ parts-join_back p out part.0 is_part
      ∙ ap (λ x. onto out (x.0 ∷ x.1)) (split-no_slash p part.2) in
    elim d [
      | inl down ↦
          let (name, names) = All-IsName (p ∷ out) (part, is_part) down in
          subst (All IsName) (sym is) (All-onto IsName out (p ∷ []) names (name, tt))
      | inr up ↦
          let (others, first) = onto-IsUp p out [] up in
          absurd (IsAccepted-down key others h (is ∙ first))
    ]

kept-names :
    (key : Text) (out : List Text)
    → IsAccepted key
    → IsKept out
    → key ≡ (if is_empty (join_back [] out) then codes "." else join_back [] out)
    → (key ≡ codes ".") ⊎ All IsName (parts key)
unfolding join_back
kept-names key [] h kept e = inl e
kept-names key (p ∷ out) h kept e = elim (Bool-cases (is_empty (join_back p out))) [
  | inl q ↦ inl (e ∙ rw q refl)
  | inr q ↦ inr (IsKept-names key p out h kept (e ∙ rw q refl))
]

IsAccepted-names : (key : Text) → IsAccepted key → (key ≡ codes ".") ⊎ All IsName (parts key)
IsAccepted-names key h =
    kept-names key (clean_parts false [] (parts key)) h
      (clean_parts-IsKept (parts key) [] (split-HasNoSlash key) (tt, inl tt))
      (sym h.cleaned ∙ clean-relative key h.not_rooted)

is_some-first : (key : Text) → is_empty (split key).0 ≡ false → is_empty key ≡ false
unfolding split
is_some-first [] e = e
is_some-first (c ∷ cs) e = refl

not_first : (key part : Text) → text_eq (split key).0 part ≡ false → (split key).0 ≡ part → ⊥
not_first key part e first =
    let same : text_eq (split key).0 part ≡ true = (text_eq_iff (split key).0 part).1 first in cc

names-cleaned :
    (key : Text)
    → All IsName (parts key)
    → is_empty key ≡ false
    → has_prefix key (slash ∷ []) ≡ false
    → clean key ≡ key
unfolding clean_parts join_back
names-cleaned key (name, names) some_text relative =
    let is : join_back [] (clean_parts false [] (parts key)) ≡ key =
      ap (join_back []) (clean_parts-names (parts key) [] (name, names))
      ∙ join_back-onto (split key).0 (split key).1 [] names
      ∙ glue-split key in
    clean-relative key relative ∙ rw (is, some_text) refl

names-IsAccepted : (key : Text) → All IsName (parts key) → IsAccepted key
unfolding split
names-IsAccepted key ((some_part, dot, up), names) =
    let some_text = is_some-first key some_part in
    let relative : has_prefix key (slash ∷ []) ≡ false =
      elim (Bool-cases (has_prefix key (slash ∷ []))) [
        | inl e ↦ let first : (split key).0 ≡ [] = prefix-split key [] tt e in absurd (cc)
        | inr e ↦ e
      ] in
    record {
      some_text = some_text;
      not_rooted = relative;
      cleaned = names-cleaned key ((some_part, dot, up), names) some_text relative;
      not_up = elim (Bool-cases (text_eq key (codes ".."))) [
        | inl e ↦ absurd (
            not_first key (codes "..") up
              (ap (λ k. (split k).0) ((text_eq_iff key (codes "..")).0 e)))
        | inr e ↦ e
      ];
      not_above = elim (Bool-cases (has_prefix key (codes "../"))) [
        | inl e ↦
            absurd
              (not_first key (codes "..") up (prefix-split key (codes "..") (refl, (refl, tt)) e))
        | inr e ↦ e
      ];
    }

this-IsAccepted : IsAccepted (codes ".")
unfolding has_prefix clean split after_part clean_parts join_back text_eq
this-IsAccepted = record {
  some_text = refl;
  not_rooted = refl;
  cleaned = refl;
  not_up = refl;
  not_above = refl;
}

-- A store accepts a key exactly where it is "." or each part between its slashes is a name: no part is
-- empty, "." or "..".
pub clean_key-IsName :
    (key : Text) → (clean_key key ≡ none) ↔ ((key ≡ codes ".") ⊎ All IsName (parts key))
clean_key-IsName key = (
  λ e. IsAccepted-names key ((clean_key-IsAccepted key).0 e),
  λ h. (clean_key-IsAccepted key).1 (elim h [
    | inl is ↦ subst IsAccepted (sym is) this-IsAccepted
    | inr names ↦ names-IsAccepted key names
  ]),
)
