-- ===== src/Status/Bitstring/Laws.antt =====
-- Reading an entry back.
use eudi_dev.Base.{
  ◌>>=◌, ℕ, zero, suc, ◌+◌, ◌-◌, ◌*◌, ◌/◌, ◌%◌, ◌^◌, ◌≤◌, ◌<◌, true, Option, none, some, List, [],
  ◌∷◌, length, get_elem?, if◌then◌else◌, ◌==◌, ◌≡◌, ◌≢◌, ◌⊎◌, inl, inr, refl, sym, ap, ◌∙◌, arith,
  Option-cases, subst,
}
use eudi_dev.Status.Bits.{
  or_bits, or_bits-shift, or_bits-mask, or_bits-mod_right, or_bits-zero_right, field_same,
  field_lower, field_higher, mask_twice,
}
use eudi_dev.Status.Bitstring.{is_width, entry_at, update_byte, or_entry}

-- What holds of 1, 2, 4 and 8 holds of every width.
pub by_width {ℓ} :
    (P : ℕ → Type ℓ) → P 1 → P 2 → P 4 → P 8 → (bits : ℕ) → is_width bits ≡ true → P bits
by_width P p1 p2 p4 p8 bits h = pick cases
  where
    cases : ((bits ≡ 1) ⊎ (bits ≡ 2)) ⊎ ((bits ≡ 4) ⊎ (bits ≡ 8))
    cases = ground arith

    pick : ((bits ≡ 1) ⊎ (bits ≡ 2)) ⊎ ((bits ≡ 4) ⊎ (bits ≡ 8)) → P bits
    pick (inl (inl e)) = subst P (sym e) p1
    pick (inl (inr e)) = subst P (sym e) p2
    pick (inr (inl e)) = subst P (sym e) p4
    pick (inr (inr e)) = subst P (sym e) p8

-- An entry lies inside one byte.
entry_inside : (bits : ℕ) → is_width bits ≡ true → (i : ℕ) → i * bits % 8 + bits ≤ 8
entry_inside =
    by_width (λ b. (i : ℕ) → i * b % 8 + b ≤ 8) (λ i. omega arith) (λ i. omega arith)
      (λ i. omega arith) (λ i. omega arith)

-- Two entries in one byte are the same entry, or lie apart.
entries_apart :
    (bits : ℕ)
    → is_width bits ≡ true
    → (i j : ℕ) → i * bits / 8 ≡ j * bits / 8
    → (i ≡ j) ⊎ ((i * bits % 8 + bits ≤ j * bits % 8) ⊎ (j * bits % 8 + bits ≤ i * bits % 8))
entries_apart =
    by_width
      (λ b.
        (i j : ℕ)
        → i * b / 8 ≡ j * b / 8
        → (i ≡ j) ⊎ ((i * b % 8 + b ≤ j * b % 8) ⊎ (j * b % 8 + b ≤ i * b % 8)))
      (λ i j e. ground arith) (λ i j e. ground arith) (λ i j e. ground arith)
      (λ i j e. ground arith)

-- An entry below the capacity has its byte, and conversely.
pub entry_in_range :
    (bits : ℕ) → is_width bits ≡ true → (i n : ℕ) → i < n * 8 / bits → i * bits / 8 < n
entry_in_range =
    by_width (λ b. (i n : ℕ) → i < n * 8 / b → i * b / 8 < n) (λ i n h. omega arith)
      (λ i n h. omega arith) (λ i n h. omega arith) (λ i n h. omega arith)

-- The field at an offset of a byte that another field was written to.
field_of_or :
    (o bits b x : ℕ)
    → o + bits ≤ 8
    → or_bits 8 b (x % 2 ^ 8) / 2 ^ o % 2 ^ bits
      ≡ or_bits bits (b / 2 ^ o % 2 ^ bits) (x / 2 ^ o % 2 ^ bits)
field_of_or o bits b x h =
    ap (λ z. z / 2 ^ o % 2 ^ bits) (or_bits-mod_right 8 b x ∙ ap (λ w. or_bits w b x) (omega arith))
    ∙ ap (λ z. z % 2 ^ bits) (or_bits-shift o (bits + (8 - o - bits)) b x)
    ∙ or_bits-mask bits (8 - o - bits) (b / 2 ^ o) (x / 2 ^ o)

module _ (bits : ℕ) (w : is_width bits ≡ true) (i v : ℕ) (small : v < 2 ^ bits) where
  abbrev written : ℕ → ℕ
  written b = or_bits 8 b (v * 2 ^ (i * bits % 8) % 2 ^ 8)

  abbrev field : ℕ → ℕ → ℕ
  field j b = b / 2 ^ (j * bits % 8) % 2 ^ bits

  same_field : (b : ℕ) → field i (written b) ≡ or_bits bits (field i b) v
  same_field b =
      field_of_or (i * bits % 8) bits b (v * 2 ^ (i * bits % 8)) (entry_inside bits w i)
      ∙ ap (or_bits bits (field i b)) (field_same (i * bits % 8) bits v small)

  other_field : (j b : ℕ) → i * bits / 8 ≡ j * bits / 8 → i ≢ j → field j (written b) ≡ field j b
  other_field j b e ne =
      field_of_or (j * bits % 8) bits b (v * 2 ^ (i * bits % 8)) (entry_inside bits w j)
      ∙ ap (or_bits bits (field j b)) (nothing (entries_apart bits w i j e))
      ∙ or_bits-zero_right bits (field j b)
      ∙ mask_twice bits (b / 2 ^ (j * bits % 8))
    where
      nothing :
          (i ≡ j) ⊎ ((i * bits % 8 + bits ≤ j * bits % 8) ⊎ (j * bits % 8 + bits ≤ i * bits % 8))
          → v * 2 ^ (i * bits % 8) / 2 ^ (j * bits % 8) % 2 ^ bits ≡ 0
      nothing (inl e) = absurd (ne e)
      nothing (inr (inl h)) =
          ap (λ o. v * 2 ^ (i * bits % 8) / 2 ^ o % 2 ^ bits) (omega arith)
          ∙ field_higher (i * bits % 8) bits (j * bits % 8 - i * bits % 8 - bits) v small
      nothing (inr (inr h)) =
          ap (λ o. v * 2 ^ o / 2 ^ (j * bits % 8) % 2 ^ bits) (omega arith)
          ∙ field_lower (j * bits % 8) bits (i * bits % 8 - j * bits % 8 - bits) v

abbrev pub map_option : (ℕ → ℕ) → Option ℕ → Option ℕ
map_option f none = none
map_option f (some a) = some (f a)

pub update_byte-total :
    (f : ℕ → ℕ) (i : ℕ) (bs : List ℕ)
    → i < length bs
    → (out : List ℕ) × (update_byte f i bs ≡ some out)
unfolding update_byte
update_byte-total f i [] h = absurd (omega arith)
update_byte-total f zero (b ∷ bs) h = (f b ∷ bs, refl)
update_byte-total f (suc i) (b ∷ bs) h =
    let (out, e) = update_byte-total f i bs (omega arith) in (b ∷ out, rw e refl)

update_byte-cons :
    (f : ℕ → ℕ) (i b : ℕ) (bs : List ℕ) {out : List ℕ}
    → update_byte f (suc i) (b ∷ bs) ≡ some out
    → (rest : List ℕ) × (update_byte f i bs ≡ some rest) × (out ≡ b ∷ rest)
unfolding update_byte
update_byte-cons f i b bs e = elim (Option-cases (update_byte f i bs)) [
  | inl n ↦ absurd (ground arith)
  | inr (rest, s) ↦ (rest, s, ground arith)
]

pub length-update_byte :
    (f : ℕ → ℕ) (i : ℕ) (bs : List ℕ) {out : List ℕ}
    → update_byte f i bs ≡ some out
    → length out ≡ length bs
unfolding update_byte
length-update_byte f i [] e = cc
length-update_byte f zero (b ∷ bs) e = ground arith
length-update_byte f (suc i) (b ∷ bs) e =
    let (rest, s, same) = update_byte-cons f i b bs e in
    ap length same ∙ ap suc (length-update_byte f i bs s)

get-update_byte :
    (f : ℕ → ℕ) (i k : ℕ) (bs : List ℕ) {out : List ℕ}
    → update_byte f i bs ≡ some out
    → get_elem? out k ≡ (if i == k then map_option f (get_elem? bs k) else get_elem? bs k)
unfolding update_byte
get-update_byte f i k [] e = cc
get-update_byte f zero zero (b ∷ bs) e = ground arith
get-update_byte f zero (suc k) (b ∷ bs) e = ground arith
get-update_byte f (suc i) zero (b ∷ bs) e =
    let (rest, s, same) = update_byte-cons f i b bs e in ap (λ l. get_elem? l 0) same ∙ ground arith
get-update_byte f (suc i) (suc k) (b ∷ bs) e =
    let (rest, s, same) = update_byte-cons f i b bs e in
    ap (λ l. get_elem? l (suc k)) same ∙ get-update_byte f i k bs s ∙ ground arith

module _ (bits : ℕ) (w : is_width bits ≡ true) (i v : ℕ) (small : v < 2 ^ bits) where
  abbrev pub IsWritten : ℕ → Option ℕ → Option ℕ → Type 0
  IsWritten j before after =
      after ≡ (if i == j then map_option (λ old. or_bits bits old v) before else before)

  entry_of_byte : (j : ℕ) → Option ℕ → Option ℕ
  entry_of_byte j byte = byte >>= λ b. some (field bits w i v small j b)

  written_byte :
      (j : ℕ) (byte after : Option ℕ)
      → after ≡ (
          if i * bits / 8 == j * bits / 8 then map_option (written bits w i v small) byte else byte)
      → IsWritten j (entry_of_byte j byte) (entry_of_byte j after)
  unfolding entry_of_byte
  written_byte j none after e = ground arith
  written_byte j (some b) after e = elim (dec i j) [
    | inl same ↦
        let bytes = ap (λ k. k * bits / 8) same in
        ap (entry_of_byte j) (whole b bytes e)
        ∙ subst
            (λ k. some (field bits w i v small k (written bits w i v small b)) ≡ (
              if i == k
              then some (or_bits bits (field bits w i v small k b) v)
              else some (field bits w i v small k b)))
            same (at_same b)
    | inr ne ↦ elim (dec (i * bits / 8) (j * bits / 8)) [
      | inl bytes ↦
          ap (entry_of_byte j) (whole b bytes e)
          ∙ ap some (other_field bits w i v small j b bytes ne)
          ∙ apart (some (field bits w i v small j b)) _ ne
      | inr bytes ↦
          ap (entry_of_byte j) (untouched b bytes e)
          ∙ apart (some (field bits w i v small j b)) _ ne
    ]
  ]
    where
      dec : (x y : ℕ) → (x ≡ y) ⊎ (x ≢ y)
      dec x y = ground arith

      whole :
          (b : ℕ)
          → i * bits / 8 ≡ j * bits / 8
          → after
            ≡ (if i * bits / 8 == j * bits / 8 then some (written bits w i v small b) else some b)
          → after ≡ some (written bits w i v small b)
      whole b bytes h = ground arith

      untouched :
          (b : ℕ)
          → i * bits / 8 ≢ j * bits / 8
          → after
            ≡ (if i * bits / 8 == j * bits / 8 then some (written bits w i v small b) else some b)
          → after ≡ some b
      untouched b bytes h = ground arith

      at_same :
          (b : ℕ)
          → some (field bits w i v small i (written bits w i v small b)) ≡ (
              if i == i
              then some (or_bits bits (field bits w i v small i b) v)
              else some (field bits w i v small i b))
      at_same b = let h = ap some (same_field bits w i v small b) in ground arith

      apart : (kept new : Option ℕ) → i ≢ j → kept ≡ (if i == j then new else kept)
      apart kept new ne = ground arith

  -- Writing an entry that is there: afterwards it holds the `|` of the old and the new value, and
  -- every other entry is as it was.
  pub entry_at-or_entry :
      (j : ℕ) (bs : List ℕ) {out : List ℕ}
      → or_entry bits i v bs ≡ some out
      → IsWritten j (entry_at bits j bs) (entry_at bits j out)
  unfolding or_entry entry_at entry_of_byte
  entry_at-or_entry j bs {out} e =
      written_byte j (get_elem? bs (j * bits / 8)) (get_elem? out (j * bits / 8))
        (get-update_byte (written bits w i v small) (i * bits / 8) (j * bits / 8) bs e)
