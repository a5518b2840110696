-- ===== src/Base/Base64.antt =====
-- `format.EncodeBase64URL`: base64url without padding (RFC 4648 §5), over bytes.
use Prim.Native.Nat.{ℕ, ◌+◌, ◌-◌, ◌*◌, ◌/◌, ◌%◌}
use mathlib.Core.List.{[], ◌∷◌}
use eudi_dev.Base.Tests.{ltb, ◌==◌, if◌then◌else◌}
use eudi_dev.Base.Bytes.{Text}

-- The character for a value of six bits.
base64url_char : ℕ → ℕ
base64url_char n =
    if ltb n 26
    then n + b'A'
    else if ltb n 52
    then n - 26 + b'a'
    else if ltb n 62
    then n - 52 + b'0'
    else if n == 62
    then b'-'
    else b'_'

-- Three bytes give four characters; one or two bytes at the end give two or three.
unfoldable pub encode_base64url : Text → Text
unfolding base64url_char
encode_base64url [] = []
encode_base64url (a ∷ []) = base64url_char (a / 4) ∷ base64url_char (a % 4 * 16) ∷ []
encode_base64url (a ∷ b ∷ []) =
    base64url_char (a / 4) ∷ base64url_char (a % 4 * 16 + b / 16) ∷ base64url_char (b % 16 * 4) ∷ []
encode_base64url (a ∷ b ∷ c ∷ rest) =
    base64url_char (a / 4)
    ∷ base64url_char (a % 4 * 16 + b / 16)
    ∷ base64url_char (b % 16 * 4 + c / 64)
    ∷ base64url_char (c % 64)
    ∷ encode_base64url rest
