-- ===== src/Proxy/Store/Newest.antt =====
-- The store holds the newest entries, numbered from 1.
use eudi_dev.Base.{
  ℕ, zero, suc, ◌+◌, ◌-◌, ◌≤◌, ◌<◌, Text, true, false, Option, none, some, List, [], ◌∷◌, ◌++◌,
  append-nil, append_assoc, ◌⊎◌, is_empty, length, length-append, length-drop, drop, map, leb,
  if◌then◌else◌, ◌≡◌, refl, sym, ap, ◌∙◌, arith, Bool-cases, inl, inr, subst,
}
use eudi_dev.Proxy.Store.{TrafficEntry, Store, new_store, label, delete_flows, add, add_all}

-- What the history fixes of an entry: its number and its keys.
abbrev pub Seen : Type 0
Seen = ℕ × List Text

abbrev pub seen : TrafficEntry → Seen
seen e = (e.id, e.keys)

-- The entries of a history, numbered after `n`.
abbrev pub numbered : ℕ → List TrafficEntry → List Seen
numbered n [] = []
numbered n (e ∷ es) = (suc n, e.keys) ∷ numbered (suc n) es

drop-append : (n : ℕ) (xs ys : List Seen) → n ≤ length xs → drop n (xs ++ ys) ≡ drop n xs ++ ys
drop-append zero xs ys h = refl
drop-append (suc n) [] ys h = absurd (omega arith)
drop-append (suc n) (x ∷ xs) ys h = drop-append n xs ys (omega arith)

drop-suc :
    (n : ℕ) (xs : List Seen) {y : Seen} {ys : List Seen} → drop n xs ≡ y ∷ ys → drop (suc n) xs ≡ ys
drop-suc zero [] h = cc
drop-suc zero (x ∷ xs) h = cc
drop-suc (suc n) [] h = cc
drop-suc (suc n) (x ∷ xs) h = drop-suc n xs h

drop-nil : (n : ℕ) → [] ≡ drop {A = Seen} n []
drop-nil zero = refl
drop-nil (suc n) = refl

map-append : (xs ys : List TrafficEntry) → map seen (xs ++ ys) ≡ map seen xs ++ map seen ys
map-append [] ys = refl
map-append (x ∷ xs) ys = ap (λ l. seen x ∷ l) (map-append xs ys)

length-map : (xs : List TrafficEntry) → length (map seen xs) ≡ length xs
length-map [] = refl
length-map (x ∷ xs) = ap suc (length-map xs)

-- The state after a history: the newest entries, and the number of the last one.
pub record IsNewest (s : Store) (history : List Seen) : Type 0 where
  pub entries : map seen s.entries ≡ drop (length history - s.max_size) history
  pub last : s.next_id ≡ length history

label-seen : (s : Store) (e : TrafficEntry) → seen (label s e).0 ≡ (suc s.next_id, e.keys)
unfolding label
label-seen s e = elim (Bool-cases (is_empty e.keys)) [ inl h ↦ rw h refl | inr h ↦ rw h refl ]

-- The new list of entries, by whether the oldest one is evicted.
kept-newest :
    (max : ℕ) (es : List TrafficEntry) (new : TrafficEntry) (history : List Seen)
    → map seen es ≡ drop (length history - max) history
    → length es < max
    → map seen (es ++ new ∷ [])
      ≡ drop (length (history ++ seen new ∷ []) - max) (history ++ seen new ∷ [])
kept-newest max es new history h few =
    map-append es (new ∷ [])
    ∙ ap (λ l. l ++ seen new ∷ []) (h ∙ ap (λ n. drop n history) all_fit)
    ∙ ap (λ n. drop n (history ++ seen new ∷ [])) (sym none_over)
  where
    count : length es ≡ length history - (length history - max)
    count = sym (length-map es) ∙ ap length h ∙ length-drop (length history - max) history

    all_fit : length history - max ≡ 0
    all_fit = let c = count in omega arith

    none_over : length (history ++ seen new ∷ []) - max ≡ 0
    none_over = let c = count in let l = length-append history (seen new ∷ []) in omega arith

evicted-newest :
    (max : ℕ) (oldest : TrafficEntry) (rest : List TrafficEntry) (new : TrafficEntry)
    (history : List Seen)
    → 0 < max
    → map seen (oldest ∷ rest) ≡ drop (length history - max) history
    → max ≤ length (oldest ∷ rest)
    → map seen (rest ++ new ∷ [])
      ≡ drop (length (history ++ seen new ∷ []) - max) (history ++ seen new ∷ [])
evicted-newest max oldest rest new history p h full =
    map-append rest (new ∷ [])
    ∙ ap (λ l. l ++ seen new ∷ []) (sym (drop-suc (length history - max) history (sym h)))
    ∙ sym (drop-append (suc (length history - max)) history (seen new ∷ []) inside)
    ∙ ap (λ n. drop n (history ++ seen new ∷ [])) one_more
  where
    count : length (oldest ∷ rest) ≡ length history - (length history - max)
    count =
        sym (length-map (oldest ∷ rest)) ∙ ap length h ∙ length-drop (length history - max) history

    inside : suc (length history - max) ≤ length history
    inside = let c = count in omega arith

    one_more : suc (length history - max) ≡ length (history ++ seen new ∷ []) - max
    one_more = let c = count in let l = length-append history (seen new ∷ []) in omega arith

module _ (s : Store) (e : TrafficEntry) (history : List Seen) (p : 0 < s.max_size)
    (h : IsNewest s history) where
  abbrev extended : List Seen
  extended = history ++ (suc (length history), e.keys) ∷ []

  new_seen : seen (label s e).0 ≡ (suc (length history), e.keys)
  new_seen = label-seen s e ∙ ap (λ n. (suc n, e.keys)) h.last

  length-extended : suc s.next_id ≡ length extended
  length-extended =
      let l = length-append history ((suc (length history), e.keys) ∷ []) in
      let q = h.last in omega arith

  abbrev IsNext : Option Store → Type 0
  IsNext o = (t : Store) × (o ≡ some t) × (t.max_size ≡ s.max_size) × IsNewest t extended

  -- A call of `Add` succeeds, and keeps the newest entries.
  add-IsNewest : IsNext (add s e)
  unfolding add
  add-IsNewest = split s.entries h.entries (Bool-cases (leb s.max_size (length s.entries)))
    where
      entry : TrafficEntry
      entry = (label s e).0

      shown :
          (es : List TrafficEntry)
          → map seen es
            ≡ drop (length (history ++ seen entry ∷ []) - s.max_size) (history ++ seen entry ∷ [])
          → map seen es ≡ drop (length extended - s.max_size) extended
      shown es q =
          subst
            (λ x. map seen es ≡ drop (length (history ++ x ∷ []) - s.max_size) (history ++ x ∷ []))
            new_seen q

      split :
          (es : List TrafficEntry)
          → map seen es ≡ drop (length history - s.max_size) history
          → (leb s.max_size (length es) ≡ true) ⊎ (leb s.max_size (length es) ≡ false)
          → IsNext (
              if leb s.max_size (length es)
              then elim es [
                | [] ↦ none
                | evicted ∷ rest ↦ some (record {
                  entries = rest ++ entry ∷ [];
                  max_size = s.max_size;
                  next_id = suc s.next_id;
                  next_flow_id = (label s e).1;
                  flows = delete_flows evicted.keys (label s e).2;
                })
              ]
              else some (record {
                entries = es ++ entry ∷ [];
                max_size = s.max_size;
                next_id = suc s.next_id;
                next_flow_id = (label s e).1;
                flows = (label s e).2;
              }))
      split es q (inr few) = rw few (
        _,
        refl,
        refl,
        record {
          entries =
              shown (es ++ entry ∷ []) (kept-newest s.max_size es entry history q (ground arith));
          last = length-extended;
        },
      )
      split [] q (inl full) = absurd (ground arith)
      split (oldest ∷ rest) q (inl full) = rw full (
        _,
        refl,
        refl,
        record {
          entries =
              shown (rest ++ entry ∷ [])
                (evicted-newest s.max_size oldest rest entry history p q (ground arith));
          last = length-extended;
        },
      )

add_all-IsNewest :
    (s : Store) (es : List TrafficEntry) (history : List Seen)
    → 0 < s.max_size
    → IsNewest s history
    → (t : Store) × (add_all s es ≡ some t)
      × (t.max_size ≡ s.max_size)
      × IsNewest t (history ++ numbered (length history) es)
unfolding add_all
add_all-IsNewest s [] history p h = (s, refl, refl, subst (IsNewest s) (sym (append-nil history)) h)
add_all-IsNewest s (e ∷ es) history p h =
    let (t, made, size, newest) = add-IsNewest s e history p h in
    let (u, done, size2, last) =
      add_all-IsNewest t es (history ++ (suc (length history), e.keys) ∷ [])
        (subst (λ n. 0 < n) (sym size) p) newest in
    (
      u,
      rw made done,
      size2 ∙ size,
      subst (IsNewest u) (rejoin (length-append history ((suc (length history), e.keys) ∷ [])))
          last,
    )
  where
    rejoin :
        length (history ++ (suc (length history), e.keys) ∷ []) ≡ length history + 1
        → (history ++ (suc (length history), e.keys) ∷ [])
            ++ numbered (length (history ++ (suc (length history), e.keys) ∷ [])) es
          ≡ history ++ numbered (length history) (e ∷ es)
    rejoin l =
        append_assoc history ((suc (length history), e.keys) ∷ [])
          (numbered (length (history ++ (suc (length history), e.keys) ∷ [])) es)
        ∙ ap (λ n. history ++ (suc (length history), e.keys) ∷ numbered n es) (l ∙ omega arith)

-- A store that keeps at least one entry takes any sequence of entries without failing; it then holds
-- the newest of them, as many as it keeps, in order, each with its number in the sequence.
pub add_all-newest :
    (max_size : ℕ) (es : List TrafficEntry)
    → 0 < max_size
    → (s : Store) × (add_all (new_store max_size) es ≡ some s)
      × (map seen s.entries ≡ drop (length (numbered 0 es) - max_size) (numbered 0 es))
add_all-newest max_size es p =
    let (s, made, size, newest) =
      add_all-IsNewest (new_store max_size) es [] p
        (record { entries = drop-nil (0 - max_size); last = refl }) in
    (s, made, newest.entries ∙ ap (λ n. drop (length (numbered 0 es) - n) (numbered 0 es)) size)
