-- ===== src/Status/Bitstring.antt =====
-- internal/statuslist: entries of 1, 2, 4 or 8 bits in a byte array (draft-ietf-oauth-status-list).
pub mod Laws
pub mod Width
use eudi_dev.Base.{
  ◌>>=◌, ℕ, zero, suc, ◌+◌, ◌*◌, ◌/◌, ◌%◌, ◌^◌, ℤ, pos, negsuc, Bool, true, false, Option, none,
  some, List, [], ◌∷◌, length, get_elem?, if◌then◌else◌, ltb, leb, ◌==◌,
}
use eudi_dev.Status.Bits.{or_bits}

-- `case 1, 2, 4, 8:`.
abbrev pub is_width : ℕ → Bool
is_width bits =
    if bits == 1 then true else if bits == 2 then true else if bits == 4 then true else bits == 8

-- `BitsForStatus`; `none` is an error.
unfoldable pub bits_for_status : ℤ → Option ℕ
bits_for_status (negsuc n) = none
bits_for_status (pos max) =
    if leb max 1
    then some 1
    else if leb max 3
    then some 2
    else if leb max 15
    then some 4
    else if leb max 255
    then some 8
    else none

-- `normalizeBits`.
unfoldable pub normalize_bits : ℕ → Option ℕ
normalize_bits bits = if bits == 0 then some 1 else if is_width bits then some bits else none

-- The names of `StatusName`, with the value that the last two show.
pub data StatusName : Type 0 where
  valid invalid suspended : StatusName
  application_specific unknown : ℕ → StatusName

-- `StatusName` on a value of the list.
unfoldable pub status_name : ℕ → StatusName
status_name value =
    if value == 0
    then valid
    else if value == 1
    then invalid
    else if value == 2
    then suspended
    else if value == 3
    then application_specific value
    else if leb 12 value
    then (if leb value 15 then application_specific value else unknown value)
    else unknown value

-- `(int(bitstring[byteIdx]) >> bitOffset) & mask`; `none` is an index out of range.
unfoldable pub entry_at : ℕ → ℕ → List ℕ → Option ℕ
entry_at bits idx bitstring =
    get_elem? bitstring (idx * bits / 8) >>= λ b. some (b / 2 ^ (idx * bits % 8) % 2 ^ bits)

-- `extractStatus`; `none` is an error.
unfoldable pub extract_status : List ℕ → ℤ → ℕ → Option ℕ
extract_status bitstring (negsuc i) bits = none
extract_status bitstring (pos idx) bits =
    if is_width bits
    then (if leb (length bitstring * 8 / bits) idx then none else entry_at bits idx bitstring)
    else none

-- `bitstring[i] |= ...`; `none` is an index out of range, which panics.
unfoldable pub update_byte : (ℕ → ℕ) → ℕ → List ℕ → Option (List ℕ)
update_byte f i [] = none
update_byte f zero (b ∷ bs) = some (f b ∷ bs)
update_byte f (suc i) (b ∷ bs) = update_byte f i bs >>= λ rest. some (b ∷ rest)

-- `bitstring[bitPos/8] |= byte(value << (bitPos % 8))`, where `value` was masked.
unfoldable pub or_entry : ℕ → ℕ → ℕ → List ℕ → Option (List ℕ)
or_entry bits idx value =
    update_byte (λ b. or_bits 8 b (value * 2 ^ (idx * bits % 8) % 2 ^ 8)) (idx * bits / 8)
