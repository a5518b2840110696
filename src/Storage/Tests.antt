-- ===== src/Storage/Tests.antt =====
-- Runs of the store in memory, and the theorem at a concrete input.
use eudi_dev.Base.{
  codes, text_eq, lookup, insert, delete, decimal, none, some, List, [], ◌∷◌, ◌≡◌, ◌↔◌, ◌⊎◌, All,
  refl, arith,
}
use eudi_dev.Base.Sort.{stable_sort}
use eudi_dev.Credential.Resolve.{has_prefix}
use eudi_dev.Storage.{
  Stamp, ok, failed, new_memory, put, read, write, delete_blob, stat, write_if, after_prefix,
  text_lt, list_names, read_all, stamps,
}
use eudi_dev.Storage.Keys.{empty_key, invalid_key, conflict, clean, clean_key, clean_prefix}
use eudi_dev.Storage.Names.{parts, IsName}
use eudi_dev.Storage.Accepted.{clean_key-IsName}
use eudi_dev.Storage.Versions.{Change, writing, deleting, apply, run}
use eudi_dev.Storage.Swap.{IsSwapped, write_if-unchanged_iff}

everything : Unit {0}
unfolding text_eq lookup insert delete decimal stable_sort has_prefix put read write delete_blob
    stat write_if after_prefix text_lt list_names read_all stamps clean clean_key clean_prefix apply
    run
everything = tt

cleaned : clean (codes "a/../b//./c/") ≡ codes "b/c"
unfolding everything
cleaned = refl

above : clean (codes "a/../../b") ≡ codes "../b"
unfolding everything
above = refl

rooted : clean (codes "/../b") ≡ codes "/b"
unfolding everything
rooted = refl

key_ok : clean_key (codes "keys/holder.pem") ≡ none
unfolding everything
key_ok = refl

key_refused : clean_key (codes "keys/../../etc") ≡ some invalid_key
unfolding everything
key_refused = refl

key_empty : clean_key [] ≡ some empty_key
unfolding everything
key_empty = refl

abbrev before : List Change
before =
    writing (codes "b/x") (codes "1")
    ∷ writing (codes "a") (codes "2")
    ∷ writing (codes "b/y/z") []
    ∷ []

abbrev changes : List Change
changes = deleting (codes "a") ∷ writing (codes "a") (codes "2") ∷ []

listed : list_names (codes "b") (run before new_memory) ≡ ok (codes "x" ∷ [])
unfolding everything
listed = refl

top : list_names [] (run before new_memory) ≡ ok (codes "a" ∷ [])
unfolding everything
top = refl

fetched : read (codes "a") (run before new_memory) ≡ ok (codes "2")
unfolding everything
fetched = refl

abbrev read_stamp : Stamp
read_stamp = record { version = codes "2"; size = 1 }

-- The key was deleted and written again with the same content, and the old version is refused.
refused :
    (write_if (codes "a") [] (codes "2") (run changes (run before new_memory))).1 ≡ failed conflict
unfolding everything
refused = refl

read_first : stat (codes "a") (run before new_memory) ≡ ok read_stamp
unfolding everything
read_first = refl

write_if-unchanged_iff_example :
    let s = run before new_memory in
    let t = run changes s in
    IsSwapped (write_if (codes "a") (codes "3") read_stamp.version t)
    ↔ (lookup (codes "a") t.blobs ≡ lookup (codes "a") s.blobs)
write_if-unchanged_iff_example =
    write_if-unchanged_iff before changes (codes "a") (codes "3") read_stamp (omega arith)
      read_first

clean_key-IsName_example :
    (clean_key (codes "keys/holder.pem") ≡ none)
    ↔ ((codes "keys/holder.pem" ≡ codes ".") ⊎ All IsName (parts (codes "keys/holder.pem")))
clean_key-IsName_example = clean_key-IsName (codes "keys/holder.pem")
