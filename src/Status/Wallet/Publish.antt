-- ===== src/Status/Wallet/Publish.antt =====
-- What a verifier reads from the list that the wallet publishes.
use eudi_dev.Base.{
  ℕ, ◌+◌, ◌*◌, ◌/◌, ◌^◌, ◌≤◌, ◌<◌, ℤ, pos, negsuc, true, some, List, [], ◌∷◌, ◌≡◌, sym, ap, ◌∙◌,
  arith,
}
use mathlib.Core.List.{Memᴰ}
use eudi_dev.Status.Bits.{mask-lt, one-le-two_pow}
use eudi_dev.Status.Bitstring.{is_width, bits_for_status}
use eudi_dev.Status.Bitstring.Laws.{by_width}
use eudi_dev.Status.Wallet.{
  StatusEntry, raise_status, mask_status, max_status, list_bits, list_bytes,
}

-- The width is the least of 1, 2, 4 and 8 that holds the greatest status below 256.
pub list_bits-is_width : (es : List StatusEntry) → is_width (list_bits es) ≡ true
unfolding list_bits bits_for_status
list_bits-is_width es = ground arith

max_status-le : (top : ℕ) (es : List StatusEntry) → top ≤ max_status top es
unfolding max_status
max_status-le top [] = omega arith
max_status-le top (e ∷ es) = let h = max_status-le (raise_status top e) es in ground arith

raised :
    (top : ℕ) (e : StatusEntry) (i s : ℕ)
    → e.index ≡ pos i
    → e.status ≡ pos s
    → s ≤ raise_status top e
raised top e i s h k = ground arith

pub max_status-member :
    (top : ℕ) (es : List StatusEntry) (e : StatusEntry) (i s : ℕ)
    → Memᴰ e es
    → e.index ≡ pos i
    → e.status ≡ pos s
    → s ≤ max_status top es
unfolding max_status
max_status-member top [] e i s m h k = elim m [ ]
max_status-member top (x ∷ es) e i s (Memᴰ.head q) h k =
    let up = raised top x i s (ap (λ z. z.index) (sym q) ∙ h) (ap (λ z. z.status) (sym q) ∙ k) in
    let le = max_status-le (raise_status top x) es in omega arith
max_status-member top (x ∷ es) e i s (Memᴰ.tail m) h k =
    max_status-member (raise_status top x) es e i s m h k

pub bits_hold : (max s bits : ℕ) → bits_for_status (pos max) ≡ some bits → s ≤ max → s < 2 ^ bits
unfolding bits_for_status
bits_hold max s bits h k = ground arith

pub mask_status-lt : (bits : ℕ) (s : ℤ) → mask_status bits s < 2 ^ bits
unfolding mask_status
mask_status-lt bits (pos n) = mask-lt bits n
mask_status-lt bits (negsuc n) = let p = one-le-two_pow bits in omega arith

list_in_range :
    (bits : ℕ) → is_width bits ≡ true → (c i : ℕ) → i < c → i < (c * bits + 7) / 8 * 8 / bits
list_in_range =
    by_width (λ b. (c i : ℕ) → i < c → i < (c * b + 7) / 8 * 8 / b) (λ c i h. omega arith)
      (λ c i h. omega arith) (λ c i h. omega arith) (λ c i h. omega arith)

more_bytes :
    (bits : ℕ) → is_width bits ≡ true → (m n i : ℕ) → m ≤ n → i < m * 8 / bits → i < n * 8 / bits
more_bytes =
    by_width (λ b. (m n i : ℕ) → m ≤ n → i < m * 8 / b → i < n * 8 / b) (λ m n i h k. omega arith)
      (λ m n i h k. omega arith) (λ m n i h k. omega arith) (λ m n i h k. omega arith)

-- Every index that the counter has given fits the list.
pub index_fits :
    (bits : ℕ) → is_width bits ≡ true → (c i : ℕ) → i < c → i < list_bytes bits c * 8 / bits
unfolding list_bytes
index_fits bits w c i h =
    let fits = list_in_range bits w c i h in
    let more = more_bytes bits w ((c * bits + 7) / 8) 16 i in ground arith
