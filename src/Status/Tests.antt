-- ===== src/Status/Tests.antt =====
-- Runs of the status list, and the theorems at concrete inputs.
use eudi_dev.Base.{
  ℕ, ◌^◌, ◌≤◌, ◌<◌, pos, negsuc, Text, codes, text_eq, contains, lookup, insert, delete, false,
  none, some, List, [], ◌∷◌, replicate, ◌≡◌, refl, arith,
}
use mathlib.Core.List.{Memᴰ}
use eudi_dev.Base.Trim.{trim_start, trim_space}
use eudi_dev.Dcql.Value.{as_object, as_string}
use eudi_dev.Credential.{StoredCredential}
use eudi_dev.Status.Bits.{or_bits}
use eudi_dev.Status.Bitstring.{
  bits_for_status, normalize_bits, suspended, application_specific, status_name, entry_at,
  extract_status, update_byte, or_entry,
}
use eudi_dev.Status.Bitstring.Laws.{IsWritten, entry_at-or_entry}
use eudi_dev.Status.Bitstring.Width.{IsLeastWidth, bits_for_status-IsLeastWidth}
use eudi_dev.Status.Wallet.{
  StatusStore, mask_status, max_status, list_bits, list_bytes, write_entry, write_entries,
  build_status_list, group_to_set, batch_ids, set_statuses, ids_to_set, set_credential_status,
  next_status_index, register_status_entry,
}
use eudi_dev.Status.Reference.{as_int, reference_with_idx, extract_status_ref}
use eudi_dev.Status.Wallet.Issue.{
  own_status_ref, adopt_own_status_entry, import_credential, resolve_issue_status, store_copy,
  store_copies, issue_credential, rename_credential, replace_credential,
}
use eudi_dev.Status.Wallet.Write.{HaveDistinctIndices}
use eudi_dev.Status.Wallet.Read.{build_status_list-total, extract_status-build}
use eudi_dev.Status.Wallet.Revoke.{entries}
use eudi_dev.Status.Wallet.Copies.{
  IsBatchCopy, set_credential_status-shown, set_credential_status-shown_self,
}

everything : Unit {0}
unfolding or_bits bits_for_status normalize_bits status_name entry_at extract_status update_byte
    or_entry mask_status max_status list_bits list_bytes write_entry write_entries build_status_list
    group_to_set batch_ids set_statuses ids_to_set set_credential_status next_status_index
    register_status_entry text_eq contains lookup insert delete trim_start trim_space as_int
    reference_with_idx extract_status_ref own_status_ref adopt_own_status_entry as_object as_string
    import_credential resolve_issue_status store_copy store_copies issue_credential
    rename_credential replace_credential
everything = tt

abbrev copy_named : Text → StoredCredential
copy_named id = record {
  id = id;
  format = codes "dc+sd-jwt";
  raw = [];
  claims = [];
  vct = [];
  doc_type = [];
  protected = false;
  batch_group = codes "b";
  uses = 0;
}

-- Two copies of a batch.
abbrev store : StatusStore
store = record {
  credentials = copy_named (codes "c1") ∷ copy_named (codes "c2") ∷ [];
  entries =
      (codes "c1", record { index = pos 4; status = pos 0 })
      ∷ (codes "c2", record { index = pos 5; status = pos 0 })
      ∷ [];
  counter = 6;
}

-- Both are suspended.
abbrev suspended_store : StatusStore
suspended_store = record {
  credentials = copy_named (codes "c1") ∷ copy_named (codes "c2") ∷ [];
  entries =
      (codes "c1", record { index = pos 4; status = pos 2 })
      ∷ (codes "c2", record { index = pos 5; status = pos 2 })
      ∷ [];
  counter = 6;
}

status_tests :
    (set_credential_status store (codes "c1") (pos 2)
      ≡ some (suspended_store, record { index = pos 4; status = pos 2 }))
    × (set_credential_status store (codes "c1") (pos 256) ≡ none)
    × (set_credential_status store (codes "c9") (pos 1) ≡ none)
    × (build_status_list suspended_store ≡ some (2, 0 ∷ 10 ∷ replicate 14 0))
    × (extract_status (0 ∷ 10 ∷ []) (pos 5) 2 ≡ some 2)
    × (extract_status (0 ∷ 10 ∷ []) (pos 8) 2 ≡ none)
    × (status_name 2 ≡ suspended)
    × (status_name 13 ≡ application_specific 13)
    × (normalize_bits 0 ≡ some 1)
unfolding everything
status_tests = (refl, refl, refl, refl, refl, refl, refl, refl, refl)

distinct : HaveDistinctIndices (entries store.entries)
distinct = (((λ e. cc), tt), (tt, tt))

suspends :
    set_credential_status store (codes "c1") (pos 2)
    ≡ some (suspended_store, record { index = pos 4; status = pos 2 })
unfolding everything
suspends = refl

second_copy : IsBatchCopy store.credentials (codes "c1") (copy_named (codes "c2"))
unfolding everything
second_copy = record {
  named = copy_named (codes "c1");
  is_named = refl;
  in_batch = λ e. cc;
  stored = Memᴰ.tail (Memᴰ.head refl);
  same_batch = refl;
}

second_entry : lookup (codes "c2") store.entries ≡ some (record { index = pos 5; status = pos 0 })
unfolding everything
second_entry = refl

first_entry : lookup (codes "c1") store.entries ≡ some (record { index = pos 4; status = pos 0 })
unfolding everything
first_entry = refl

set_credential_status-shown_example :
    ((copy_named (codes "c2")).protected ≡ false)
    × ((bits : ℕ) × (bitstring : List ℕ) × (build_status_list suspended_store
          ≡ some (bits, bitstring))
        × (extract_status bitstring (pos 5) bits ≡ some 2))
set_credential_status-shown_example =
    set_credential_status-shown store suspended_store (codes "c1") 2
      (record { index = pos 4; status = pos 2 }) suspends distinct (copy_named (codes "c2"))
      (record { index = pos 5; status = pos 0 }) 5 second_copy second_entry refl (omega arith)

set_credential_status-shown_self_example :
    (bits : ℕ) × (bitstring : List ℕ) × (build_status_list suspended_store ≡ some (bits, bitstring))
    × (extract_status bitstring (pos 4) bits ≡ some 2)
set_credential_status-shown_self_example =
    set_credential_status-shown_self store suspended_store (codes "c1") 2
      (record { index = pos 4; status = pos 2 }) suspends distinct
      (record { index = pos 4; status = pos 0 }) 4 first_entry refl (omega arith)

extract_status-build_example :
    (bits : ℕ) × (bitstring : List ℕ) × (build_status_list suspended_store ≡ some (bits, bitstring))
    × (extract_status bitstring (pos 4) bits ≡ some 2)
extract_status-build_example =
    extract_status-build suspended_store (record { index = pos 4; status = pos 2 }) 4 2
      (((λ e. cc), tt), (tt, tt)) (Memᴰ.head refl) refl refl (omega arith) (omega arith)

build_status_list-total_example :
    (bits : ℕ) × (bitstring : List ℕ) × (build_status_list suspended_store ≡ some (bits, bitstring))
build_status_list-total_example = build_status_list-total suspended_store

bits_for_status-IsLeastWidth_example :
    (5 ≤ 255 → (bits : ℕ) × (bits_for_status (pos 5) ≡ some bits) × IsLeastWidth 5 bits)
    × (255 < 5 → bits_for_status (pos 5) ≡ none)
    × (bits_for_status (negsuc 5) ≡ none)
bits_for_status-IsLeastWidth_example = bits_for_status-IsLeastWidth 5

two_small : 2 < 2 ^ 2
two_small = omega arith

written_byte : or_entry 2 5 2 (0 ∷ 2 ∷ []) ≡ some (0 ∷ 10 ∷ [])
unfolding everything
written_byte = refl

entry_at-or_entry_example :
    IsWritten 2 refl 5 2 two_small 4 (entry_at 2 4 (0 ∷ 2 ∷ [])) (entry_at 2 4 (0 ∷ 10 ∷ []))
entry_at-or_entry_example = entry_at-or_entry 2 refl 5 2 two_small 4 (0 ∷ 2 ∷ []) written_byte
