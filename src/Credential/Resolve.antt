-- ===== src/Credential/Resolve.antt =====
-- internal/wallet/wallet.go: finding a stored credential by its id, or by the start of its id.
use eudi_dev.Base.{
  Text, text_eq, Bool, true, false, Option, List, [], ◌∷◌, is_empty, find_first, if◌then◌else◌,
  ◌==◌,
}
use eudi_dev.Credential.{StoredCredential}

-- `strings.HasPrefix`.
unfoldable pub has_prefix : Text → Text → Bool
has_prefix s [] = true
has_prefix [] (p ∷ prefix) = false
has_prefix (c ∷ s) (p ∷ prefix) = let rest = has_prefix s prefix in if c == p then rest else false

-- The credentials that the loop of `resolveIDLocked` has counted: none, one, or several.
pub data Found : Type 0 where
  nothing several : Found
  one : Text → Found

abbrev pub one_more : Found → Text → Found
one_more nothing id = one id
one_more (one other) id = several
one_more several id = several

-- The loop of `resolveIDLocked`.
unfoldable pub resolve_from : Text → Found → List StoredCredential → Text
resolve_from id nothing [] = []
resolve_from id several [] = []
resolve_from id (one match) [] = match
resolve_from id found (c ∷ creds) =
    let counted = resolve_from id (one_more found c.id) creds in
    let passed = resolve_from id found creds in
    if text_eq c.id id then c.id else if has_prefix c.id id then counted else passed

-- `resolveIDLocked`.
unfoldable pub resolve_id : List StoredCredential → Text → Text
resolve_id creds id = if is_empty id then [] else resolve_from id nothing creds

-- `GetCredential`.
unfoldable pub get_credential : List StoredCredential → Text → Option StoredCredential
get_credential creds id = find_first (λ c. text_eq c.id (resolve_id creds id)) creds
