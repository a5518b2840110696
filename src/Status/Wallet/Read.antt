-- ===== src/Status/Wallet/Read.antt =====
-- The published list shows every status that the wallet keeps.
use eudi_dev.Base.{
  ◌>>=◌, ℕ, zero, suc, ◌*◌, ◌/◌, ◌%◌, ◌^◌, ◌≤◌, ◌<◌, pos, true, Option, none, some, List, length,
  get_elem?, replicate, length-replicate, map, if◌then◌else◌, leb, ◌≡◌, refl, sym, ap, ◌∙◌, arith,
  Option-cases, inl, inr,
}
use mathlib.Core.List.{Memᴰ}
use eudi_dev.Status.Bits.{one-le-two_pow, mask_small, zero-shift}
use eudi_dev.Status.Bitstring.{is_width, bits_for_status, entry_at, extract_status}
use eudi_dev.Status.Bitstring.Laws.{entry_in_range}
use eudi_dev.Status.Wallet.{
  StatusEntry, StatusStore, max_status, list_bits, list_bytes, write_entries, build_status_list,
}
use eudi_dev.Status.Wallet.Publish.{list_bits-is_width, max_status-member, bits_hold, index_fits}
use eudi_dev.Status.Wallet.Write.{HaveDistinctIndices, write_entries-own, write_entries-total}

zero_entry :
    (bits : ℕ)
    → is_width bits ≡ true
    → (n j : ℕ) → j * bits / 8 < n
    → entry_at bits j (replicate n 0) ≡ some 0
unfolding entry_at
zero_entry bits w n j h =
    ap (λ b. b >>= λ x. some (x / 2 ^ (j * bits % 8) % 2 ^ bits)) (zero_byte n (j * bits / 8) h)
    ∙ ap some (
        ap (λ z. z % 2 ^ bits) (zero-shift (j * bits % 8))
        ∙ mask_small bits 0 (one-le-two_pow bits))
  where
    zero_byte : (n k : ℕ) → k < n → get_elem? {A = ℕ} (replicate n 0) k ≡ some 0
    zero_byte zero k l = absurd (omega arith)
    zero_byte (suc n) zero l = refl
    zero_byte (suc n) (suc k) l = zero_byte n k (omega arith)

list_bits-hold :
    (es : List StatusEntry) (n : ℕ) → n ≤ 255 → n ≤ max_status 0 es → n < 2 ^ list_bits es
unfolding list_bits
list_bits-hold es n h k = elim (Option-cases (bits_for_status (pos (max_status 0 es)))) [
  | inl e ↦ rw (e, list_bits) (omega arith)
  | inr (bits, e) ↦ rw (e, list_bits) (bits_hold (max_status 0 es) n bits e k)
]

module _ (s : StatusStore) where
  abbrev entries_of : List StatusEntry
  entries_of = map (λ entry. entry.1) s.entries

  abbrev bits_of : ℕ
  bits_of = list_bits entries_of

  abbrev bytes_of : ℕ
  bytes_of = list_bytes bits_of s.counter

  abbrev start_of : List ℕ
  start_of = replicate bytes_of 0

  written :
      (bitstring : List ℕ) × (write_entries bits_of (bytes_of * 8 / bits_of) entries_of start_of
        ≡ some bitstring)
      × (length bitstring ≡ length start_of)
  written =
      write_entries-total bits_of (list_bits-is_width entries_of) (bytes_of * 8 / bits_of)
        entries_of start_of (ap (λ n. n * 8 / bits_of) (sym (length-replicate bytes_of 0)))

  built : build_status_list s ≡ some (bits_of, written.0)
  unfolding build_status_list
  built = rw written.1 refl

  -- Building the list never writes outside it, whatever entries the wallet holds.
  pub build_status_list-total :
      (bits : ℕ) × (bitstring : List ℕ) × (build_status_list s ≡ some (bits, bitstring))
  build_status_list-total = (bits_of, written.0, built)

  -- For an entry of the wallet with a status from 0 to 255 and an index that the counter has given,
  -- where no two entries share an index: the published list, read as a verifier reads it, shows the
  -- status.
  pub extract_status-build :
      (e : StatusEntry) (j n : ℕ)
      → HaveDistinctIndices (map (λ entry. entry.1) s.entries)
      → Memᴰ e (map (λ entry. entry.1) s.entries)
      → e.index ≡ pos j
      → e.status ≡ pos n
      → n ≤ 255
      → j < s.counter
      → (bits : ℕ) × (bitstring : List ℕ) × (build_status_list s ≡ some (bits, bitstring))
        × (extract_status bitstring (pos j) bits ≡ some n)
  unfolding extract_status
  extract_status-build e j n d m i k small given =
      let w = list_bits-is_width entries_of in
      let fits = index_fits bits_of w s.counter j given in
      let start = zero_entry bits_of w bytes_of j (entry_in_range bits_of w j bytes_of fits) in
      let hold = list_bits-hold entries_of n small (max_status-member 0 entries_of e j n m i k) in
      let shown =
        write_entries-own bits_of w (bytes_of * 8 / bits_of) j entries_of start_of e n d m i k hold
          fits start written.1 in
      (
        bits_of,
        written.0,
        built,
        rw w (in_list (length written.0) (written.2 ∙ length-replicate bytes_of 0) fits) ∙ shown,
      )
    where
      in_list :
          (l : ℕ)
          → l ≡ bytes_of
          → j < bytes_of * 8 / bits_of
          → {o : Option ℕ} → (if leb (l * 8 / bits_of) j then none else o) ≡ o
      in_list l e h = let q = ap (λ n. n * 8 / bits_of) e in ground arith
