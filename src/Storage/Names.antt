-- ===== src/Storage/Names.antt =====
-- The keys that a store accepts, by their parts between slashes.
use eudi_dev.Base.{
  Text, codes, text_eq, text_eq_iff, true, false, ◌||◌, Bool-cases, List, [], ◌∷◌, ◌++◌, is_empty,
  ◌==◌, All, ◌≡◌, ◌⊎◌, refl, ap, ◌∙◌, arith, inl, inr,
}
use eudi_dev.Credential.Resolve.{has_prefix}
use eudi_dev.Storage.Keys.{slash, split, after_part, clean_parts, join_back}

-- The parts of a key between its slashes.
abbrev pub parts : Text → List Text
parts key = let (part, others) = split key in part ∷ others

-- A part that names a file or a folder.
abbrev pub IsName : Text → Type 0
IsName part =
    (is_empty part ≡ false)
    × (text_eq part (codes ".") ≡ false)
    × (text_eq part (codes "..") ≡ false)

abbrev pub HasNoSlash : Text → Type 0
HasNoSlash text = All (λ c. (c == slash) ≡ false) text

abbrev pub IsPart : Text → Type 0
IsPart part = (is_empty part ≡ false) × (text_eq part (codes ".") ≡ false) × HasNoSlash part

-- The parts onto others, in the opposite order.
abbrev pub onto : List Text → List Text → List Text
onto [] out = out
onto (part ∷ ps) out = onto ps (part ∷ out)

pub All-onto : (P : Text → Type 0) (ps out : List Text) → All P ps → All P out → All P (onto ps out)
All-onto P [] out hs h = h
All-onto P (p ∷ ps) out (hp, hs) h = All-onto P ps (p ∷ out) hs (hp, h)

pub split-HasNoSlash : (text : Text) → All HasNoSlash (parts text)
unfolding split
split-HasNoSlash [] = (tt, tt)
split-HasNoSlash (c ∷ cs) =
    let (h, hs) = split-HasNoSlash cs in
    elim (Bool-cases (c == slash)) [
      | inl e ↦ rw (e, split) (tt, (h, hs))
      | inr e ↦ rw (e, split) ((e, h), hs)
    ]

pub split-no_slash : (part : Text) → HasNoSlash part → split part ≡ (part, [])
unfolding split
split-no_slash [] h = refl
split-no_slash (c ∷ cs) (h, hs) = rw (h, split-no_slash cs hs, split) refl

split-slash :
    (part text : Text) → HasNoSlash part → split (part ++ slash ∷ text) ≡ (part, parts text)
unfolding split
split-slash [] text h = refl
split-slash (c ∷ cs) text (h, hs) = rw (h, split-slash cs text hs, split) refl

is_some-append : (part text : Text) → is_empty (part ++ slash ∷ text) ≡ false
is_some-append [] text = refl
is_some-append (c ∷ cs) text = refl

pub parts-join_back :
    (text : Text) (out : List Text)
    → is_empty text ≡ false
    → All IsPart out
    → parts (join_back text out) ≡ onto out (parts text)
unfolding join_back
parts-join_back text [] e h = refl
parts-join_back text (part ∷ out) e ((some_text, dot, h), hs) =
    rw (e, join_back)
      (parts-join_back (part ++ slash ∷ text) out (is_some-append part text) hs
        ∙ ap (λ x. onto out (x.0 ∷ x.1)) (split-slash part text h))

-- The first part that is kept is "..".
abbrev pub IsUp : List Text → Type 0
IsUp [] = ⊥
IsUp (p ∷ []) = text_eq p (codes "..") ≡ true
IsUp (p ∷ q ∷ out) = IsUp (q ∷ out)

-- No part that is kept is "..".
abbrev pub IsDown : List Text → Type 0
IsDown out = All (λ p. text_eq p (codes "..") ≡ false) out

-- What `path.Clean` has kept of a path that is not rooted.
abbrev pub IsKept : List Text → Type 0
IsKept out = All IsPart out × (IsDown out ⊎ IsUp out)

IsUp-push : (p : Text) (out : List Text) → IsUp out → IsUp (p ∷ out)
IsUp-push p [] h = absurd h
IsUp-push p (q ∷ out) h = h

IsUp-pop :
    (last : Text) (others : List Text)
    → text_eq last (codes "..") ≡ false
    → IsUp (last ∷ others)
    → IsUp others
IsUp-pop last [] e h = absurd (cc)
IsUp-pop last (q ∷ others) e h = h

-- A part "..", which is not under the folder of the path unless a part goes before it.
up-IsKept :
    (p : Text) (out : List Text)
    → text_eq p (codes "..") ≡ true
    → IsPart p
    → IsKept out
    → IsKept (after_part false out p)
unfolding after_part
up-IsKept p [] e (some_text, dot, hp) h =
    rw (some_text, dot, e, after_part) (((some_text, dot, hp), tt), inr e)
up-IsKept p (last ∷ others) e (some_text, dot, hp) ((h, hs), d) =
    elim (Bool-cases (text_eq last (codes ".."))) [
      | inl q ↦
          rw (some_text, dot, e, q, after_part)
            (
              ((some_text, dot, hp), (h, hs)),
              elim d [ inl down ↦ absurd (cc) | inr up ↦ inr (IsUp-push p (last ∷ others) up) ],
            )
      | inr q ↦
          rw (some_text, dot, e, q, after_part)
            (hs, elim d [ inl down ↦ inl down.1 | inr up ↦ inr (IsUp-pop last others q up) ])
    ]

after_part-IsKept :
    (p : Text) (out : List Text) → HasNoSlash p → IsKept out → IsKept (after_part false out p)
unfolding after_part
after_part-IsKept p out hp (h, d) = elim (Bool-cases (is_empty p || text_eq p (codes "."))) [
  | inl e ↦ rw (e, after_part) (h, d)
  | inr e ↦
      let is_part : IsPart p = (ground arith, ground arith, hp) in
      elim (Bool-cases (text_eq p (codes ".."))) [
        | inl q ↦ up-IsKept p out q is_part (h, d)
        | inr q ↦
            rw (e, q, after_part)
              (
                (is_part, h),
                elim d [ inl down ↦ inl (q, down) | inr up ↦ inr (IsUp-push p out up) ],
              )
      ]
]

pub clean_parts-IsKept :
    (ps out : List Text) → All HasNoSlash ps → IsKept out → IsKept (clean_parts false out ps)
unfolding clean_parts
clean_parts-IsKept [] out hs h = h
clean_parts-IsKept (p ∷ ps) out (hp, hs) h =
    clean_parts-IsKept ps (after_part false out p) hs (after_part-IsKept p out hp h)

-- Where the first part that is kept is "..", so is the first one of the path.
pub onto-IsUp :
    (p : Text) (out acc : List Text)
    → IsUp (p ∷ out)
    → (others : List Text) × (onto out (p ∷ acc) ≡ codes ".." ∷ others)
onto-IsUp p [] acc h = (acc, ap (λ x. x ∷ acc) ((text_eq_iff p (codes "..")).0 h))
onto-IsUp p (q ∷ out) acc h = onto-IsUp q out (p ∷ acc) h

-- A path is its first part, or it starts with that and a slash.
pub split-prefix :
    (text : Text)
    → (text ≡ (split text).0) ⊎ (has_prefix text ((split text).0 ++ slash ∷ []) ≡ true)
unfolding split has_prefix
split-prefix [] = inl refl
split-prefix (c ∷ cs) = elim (Bool-cases (c == slash)) [
  | inl e ↦ rw (e, split) (inr (rw (e, has_prefix) refl))
  | inr e ↦
      rw (e, split)
        (elim (split-prefix cs) [
          | inl h ↦ inl (ap (λ x. c ∷ x) h)
          | inr h ↦ inr (rw h (ground arith))
        ])
]

pub prefix-split :
    (text part : Text)
    → HasNoSlash part
    → has_prefix text (part ++ slash ∷ []) ≡ true
    → (split text).0 ≡ part
unfolding split has_prefix
prefix-split [] [] h e = absurd (cc)
prefix-split [] (p ∷ part) h e = absurd (cc)
prefix-split (c ∷ cs) [] h e = let is : (c == slash) ≡ true = ground arith in rw (is, split) refl
prefix-split (c ∷ cs) (p ∷ part) (h, hs) e =
    let same : c ≡ p = ground arith in
    let more : has_prefix cs (part ++ slash ∷ []) ≡ true = ground arith in
    rw (same, h, split) (ap (λ x. p ∷ x) (prefix-split cs part hs more))
