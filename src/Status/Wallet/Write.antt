-- ===== src/Status/Wallet/Write.antt =====
-- The loop that writes the entries of the wallet.
use eudi_dev.Base.{
  All-member, ℕ, ◌*◌, ◌/◌, ◌%◌, ◌^◌, ◌<◌, ℤ, pos, negsuc, true, false, some, List, [], ◌∷◌, length,
  if◌then◌else◌, leb, ◌==◌, All, ◌≡◌, ◌≢◌, ◌⊎◌, inl, inr, refl, sym, ap, ◌∙◌, arith, Option-cases,
  Bool-cases,
}
use mathlib.Core.List.{Memᴰ}
use eudi_dev.Status.Bits.{or_bits, or_bits-zero_left, mask_twice, mask_small}
use eudi_dev.Status.Bitstring.{is_width, entry_at, or_entry}
use eudi_dev.Status.Bitstring.Laws.{
  entry_in_range, map_option, update_byte-total, length-update_byte, entry_at-or_entry,
}
use eudi_dev.Status.Wallet.{StatusEntry, mask_status, write_entry, write_entries}
use eudi_dev.Status.Wallet.Publish.{mask_status-lt}

-- No two entries share an index.
abbrev pub HaveDistinctIndices : List StatusEntry → Type 0
HaveDistinctIndices [] = Unit
HaveDistinctIndices (x ∷ es) = All (λ y. y.index ≢ x.index) es × HaveDistinctIndices es

module _ (bits : ℕ) (w : is_width bits ≡ true) (capacity : ℕ) where
  abbrev IsOrEntry : StatusEntry → List ℕ → List ℕ → Type 0
  IsOrEntry e bs out =
      (i : ℕ) × (e.index ≡ pos i)
      × (i < capacity)
      × (or_entry bits i (mask_status bits e.status) bs ≡ some out)

  -- A round leaves the list as it is, or writes the entry that it names.
  write_entry-cases :
      (e : StatusEntry) (bs : List ℕ) {out : List ℕ}
      → write_entry bits capacity e bs ≡ some out
      → (out ≡ bs) ⊎ IsOrEntry e bs out
  unfolding write_entry
  write_entry-cases e bs {out} h = split e.index e.status refl h
    where
      split :
          (index status : ℤ)
          → e.index ≡ index
          → (elim index [
            | negsuc i ↦ some bs
            | pos i ↦ if leb capacity i then some bs else elim status [
              | negsuc n ↦ or_entry bits i (mask_status bits e.status) bs
              | pos n ↦ if n == 0 then some bs else or_entry bits i (mask_status bits e.status) bs
            ]
          ])
            ≡ some out
          → (out ≡ bs) ⊎ IsOrEntry e bs out
      split (negsuc i) status q k = inl (ground arith)
      split (pos i) (negsuc n) q k = elim (Bool-cases (leb capacity i)) [
        | inl over ↦ inl (ground arith)
        | inr under ↦ inr (i, q, ground arith, ground arith)
      ]
      split (pos i) (pos n) q k = elim (Bool-cases (leb capacity i)) [
        | inl over ↦ inl (ground arith)
        | inr under ↦ elim (Bool-cases (n == 0)) [
          | inl zero_status ↦ inl (ground arith)
          | inr other ↦ inr (i, q, ground arith, ground arith)
        ]
      ]

  -- A round keeps the length, and writes inside the list.
  length-write_entry :
      (e : StatusEntry) (bs : List ℕ) {out : List ℕ}
      → write_entry bits capacity e bs ≡ some out
      → length out ≡ length bs
  unfolding or_entry
  length-write_entry e bs h = elim (write_entry-cases e bs h) [
    | inl same ↦ ap length same
    | inr (i, index, below, k) ↦ length-update_byte _ (i * bits / 8) bs k
  ]

  write_entry-total :
      (e : StatusEntry) (bs : List ℕ)
      → capacity ≡ length bs * 8 / bits
      → (out : List ℕ) × (write_entry bits capacity e bs ≡ some out)
  unfolding write_entry or_entry
  write_entry-total e bs c = split e.index e.status
    where
      made :
          (i : ℕ)
          → i < capacity
          → (out : List ℕ) × (or_entry bits i (mask_status bits e.status) bs ≡ some out)
      made i below =
          update_byte-total
            (λ b. or_bits 8 b (mask_status bits e.status * 2 ^ (i * bits % 8) % 2 ^ 8))
            (i * bits / 8) bs (entry_in_range bits w i (length bs) (omega arith))

      split :
          (index status : ℤ)
          → (out : List ℕ) × ((elim index [
            | negsuc i ↦ some bs
            | pos i ↦ if leb capacity i then some bs else elim status [
              | negsuc n ↦ or_entry bits i (mask_status bits e.status) bs
              | pos n ↦ if n == 0 then some bs else or_entry bits i (mask_status bits e.status) bs
            ]
          ])
              ≡ some out)
      split (negsuc i) status = (bs, refl)
      split (pos i) (negsuc n) = elim (Bool-cases (leb capacity i)) [
        | inl over ↦ (bs, rw over refl)
        | inr under ↦ let (out, k) = made i (ground arith) in (out, rw under k)
      ]
      split (pos i) (pos n) = elim (Bool-cases (leb capacity i)) [
        | inl over ↦ (bs, rw over refl)
        | inr under ↦ elim (Bool-cases (n == 0)) [
          | inl unset ↦ (bs, rw (under, unset) refl)
          | inr other ↦ let (out, k) = made i (ground arith) in (out, rw (under, other) k)
        ]
      ]

  module _ (j : ℕ) where
    -- An entry with another index leaves the entry as it is.
    write_entry-other :
        (e : StatusEntry) (bs : List ℕ) {out : List ℕ}
        → e.index ≢ pos j
        → write_entry bits capacity e bs ≡ some out
        → entry_at bits j out ≡ entry_at bits j bs
    write_entry-other e bs ne h = elim (write_entry-cases e bs h) [
      | inl same ↦ ap (entry_at bits j) same
      | inr (i, index, below, k) ↦
          entry_at-or_entry bits w i (mask_status bits e.status) (mask_status-lt bits e.status) j bs
            k
          ∙ apart i (λ same. ne (index ∙ ap pos same))
    ]
      where
        apart :
            (i : ℕ)
            → i ≢ j
            → (if i == j
                then map_option
                    (λ old. or_bits bits old (mask_status bits e.status))
                    (entry_at bits j bs)
                else entry_at bits j bs)
              ≡ entry_at bits j bs
        apart i h = ground arith

    -- An entry with the index writes its status.
    write_entry-own :
        (e : StatusEntry) (bs : List ℕ) {out : List ℕ} (s : ℕ)
        → e.index ≡ pos j
        → e.status ≡ pos s
        → s < 2 ^ bits
        → j < capacity
        → entry_at bits j bs ≡ some 0
        → write_entry bits capacity e bs ≡ some out
        → entry_at bits j out ≡ some s
    unfolding write_entry mask_status
    write_entry-own e bs {out} s i k small c zero_before h = elim (Bool-cases (s == 0)) [
      | inl unset ↦ ap (entry_at bits j) (left (rw (i, k) at h) unset) ∙ zero_before ∙ ground arith
      | inr other ↦
          entry_at-or_entry bits w j (mask_status bits e.status) (mask_status-lt bits e.status) j bs
            (right (rw (i, k) at h) other)
          ∙ rw zero_before (
              whole (or_bits bits 0 (mask_status bits e.status)) (
                or_bits-zero_left bits (mask_status bits e.status)
                ∙ ap (λ z. mask_status bits z % 2 ^ bits) k
                ∙ mask_twice bits s
                ∙ mask_small bits s small))
    ]
      where
        whole : (x : ℕ) → x ≡ s → (if j == j then some x else some 0) ≡ some s
        whole x h = ground arith

        left :
            (if leb capacity j
                then some bs
                else if s == 0
                then some bs
                else or_entry bits j (mask_status bits e.status) bs)
              ≡ some out
            → (s == 0) ≡ true
            → out ≡ bs
        left h unset = ground arith

        right :
            (if leb capacity j
                then some bs
                else if s == 0
                then some bs
                else or_entry bits j (mask_status bits e.status) bs)
              ≡ some out
            → (s == 0) ≡ false
            → or_entry bits j (mask_status bits e.status) bs ≡ some out
        right h other = ground arith

    -- The rounds after and before that of the entry leave it as it is.
    write_entries-other :
        (es : List StatusEntry) (bs : List ℕ) {out : List ℕ}
        → All (λ e. e.index ≢ pos j) es
        → write_entries bits capacity es bs ≡ some out
        → entry_at bits j out ≡ entry_at bits j bs
    unfolding write_entries
    write_entries-other [] bs a h = ap (entry_at bits j) (ground arith)
    write_entries-other (e ∷ es) bs (ne, a) h =
        elim (Option-cases (write_entry bits capacity e bs)) [
          | inl n ↦ absurd (ground arith)
          | inr (next, k) ↦
              write_entries-other es next a (ground arith) ∙ write_entry-other e bs ne k
        ]

    pub write_entries-own :
        (es : List StatusEntry) (bs : List ℕ) {out : List ℕ} (e : StatusEntry) (s : ℕ)
        → HaveDistinctIndices es
        → Memᴰ e es
        → e.index ≡ pos j
        → e.status ≡ pos s
        → s < 2 ^ bits
        → j < capacity
        → entry_at bits j bs ≡ some 0
        → write_entries bits capacity es bs ≡ some out
        → entry_at bits j out ≡ some s
    unfolding write_entries
    write_entries-own [] bs e s d m i k small c z h = elim m [ ]
    write_entries-own (x ∷ es) bs e s (ne, d) (Memᴰ.head q) i k small c z h =
        elim (Option-cases (write_entry bits capacity x bs)) [
          | inl n ↦ absurd (ground arith)
          | inr (next, f) ↦
              write_entries-other es next (others x es (ap (λ y. y.index) (sym q) ∙ i) ne)
                (ground arith)
              ∙ write_entry-own x bs s (ap (λ y. y.index) (sym q) ∙ i)
                  (ap (λ y. y.status) (sym q) ∙ k) small c z f
        ]
      where
        others :
            (x : StatusEntry) (ys : List StatusEntry)
            → x.index ≡ pos j
            → All (λ y. y.index ≢ x.index) ys
            → All (λ y. y.index ≢ pos j) ys
        others x [] h a = tt
        others x (y ∷ ys) h (n, a) = ((λ p. n (p ∙ sym h)), others x ys h a)
    write_entries-own (x ∷ es) bs e s (ne, d) (Memᴰ.tail m) i k small c z h =
        elim (Option-cases (write_entry bits capacity x bs)) [
          | inl n ↦ absurd (ground arith)
          | inr (next, f) ↦
              write_entries-own es next e s d m i k small c
                (write_entry-other x bs
                    (λ p. All-member (λ y. y.index ≢ x.index) es m ne (i ∙ sym p)) f
                  ∙ z)
                (ground arith)
        ]

  pub write_entries-total :
      (es : List StatusEntry) (bs : List ℕ)
      → capacity ≡ length bs * 8 / bits
      → (out : List ℕ) × (write_entries bits capacity es bs ≡ some out) × (length out ≡ length bs)
  unfolding write_entries
  write_entries-total [] bs c = (bs, refl, refl)
  write_entries-total (e ∷ es) bs c =
      let (next, f) = write_entry-total e bs c in
      let l = length-write_entry e bs f in
      let (out, g, m) = write_entries-total es next (c ∙ ap (λ n. n * 8 / bits) (sym l)) in
      (out, rw f g, m ∙ l)
