-- ===== src/Storage/Keys.antt =====
-- internal/storage/storage.go: the keys that a store takes.
use eudi_dev.Base.{
  ℕ, Text, codes, text_eq, Bool, not, ◌||◌, Option, none, some, List, [], ◌∷◌, ◌++◌, is_empty,
  if◌then◌else◌, ◌==◌,
}
use eudi_dev.Credential.Resolve.{has_prefix}

-- The errors of a store in memory.
pub data StoreError : Type 0 where
  empty_key invalid_key not_exist conflict : StoreError

-- "/".
abbrev pub slash : ℕ
slash = 47

-- A text split at each slash: its first part, and the others.
unfoldable pub split : Text → Text × List Text
split [] = ([], [])
split (c ∷ cs) =
    let (part, parts) = split cs in if c == slash then ([], part ∷ parts) else (c ∷ part, parts)

-- What `path.Clean` does with a part, where it has kept these, the last one first.
unfoldable pub after_part : Bool → List Text → Text → List Text
after_part rooted out part =
    if is_empty part || text_eq part (codes ".")
    then out
    else if text_eq part (codes "..")
    then elim out [
      | [] ↦ if rooted then [] else part ∷ []
      | last ∷ others ↦ if text_eq last (codes "..") then part ∷ last ∷ others else others
    ]
    else part ∷ out

-- The parts that `path.Clean` keeps, the last one first.
unfoldable pub clean_parts : Bool → List Text → List Text → List Text
clean_parts rooted out [] = out
clean_parts rooted out (part ∷ parts) = clean_parts rooted (after_part rooted out part) parts

-- The parts with slashes between them, from the last to the first.
unfoldable pub join_back : Text → List Text → Text
join_back text [] = text
join_back text (part ∷ parts) =
    join_back (if is_empty text then part else part ++ slash ∷ text) parts

-- `path.Clean`.
unfoldable pub clean : Text → Text
unfolding split after_part clean_parts join_back
clean path =
    let rooted = has_prefix path (slash ∷ []) in
    let (part, parts) = split path in
    let text = join_back [] (clean_parts rooted [] (part ∷ parts)) in
    if rooted then slash ∷ text else if is_empty text then codes "." else text

-- `cleanKey`: the error, where the key is refused.
unfoldable pub clean_key : Text → Option StoreError
clean_key key =
    if is_empty key
    then some empty_key
    else if has_prefix key (slash ∷ [])
        || not (text_eq (clean key) key)
        || text_eq key (codes "..")
        || has_prefix key (codes "../")
    then some invalid_key
    else none

-- `cleanPrefix`.
unfoldable pub clean_prefix : Text → Option StoreError
clean_prefix prefix = if is_empty prefix then none else clean_key prefix
