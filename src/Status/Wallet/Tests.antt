-- ===== src/Status/Wallet/Tests.antt =====
-- Runs of the status entries over the history of a wallet, and the theorem at a concrete one.
use eudi_dev.Base.{
  ℕ, pos, negsuc, Text, codes, text_eq, contains, lookup, insert, delete, false, none, some, inl,
  List, [], ◌∷◌, ◌≡◌, refl,
}
use eudi_dev.Base.Trim.{trim_start, trim_space}
use eudi_dev.Dcql.Value.{Value, int, str, obj, end, field, as_object, as_string}
use eudi_dev.Credential.{StoredCredential}
use eudi_dev.Status.Bits.{or_bits}
use eudi_dev.Status.Bitstring.{
  bits_for_status, normalize_bits, status_name, entry_at, extract_status, update_byte, or_entry,
}
use eudi_dev.Status.Wallet.{
  StatusStore, mask_status, max_status, list_bits, list_bytes, write_entry, write_entries,
  build_status_list, group_to_set, batch_ids, set_statuses, ids_to_set, set_credential_status,
  next_status_index, register_status_entry,
}
use eudi_dev.Status.Reference.{idx_negative, as_int, reference_with_idx, extract_status_ref}
use eudi_dev.Status.Wallet.Issue.{
  own_status_ref, adopt_own_status_entry, import_credential, resolve_issue_status, store_copy,
  store_copies, issue_credential, rename_credential, replace_credential,
}
use eudi_dev.Status.Wallet.History.{
  issue, set_status, empty_wallet, here, next, Reach, published-shown,
}
use eudi_dev.Status.Wallet.Write.{HaveDistinctIndices}
use eudi_dev.Status.Wallet.Revoke.{entries}

everything : Unit {0}
unfolding or_bits bits_for_status normalize_bits status_name entry_at extract_status update_byte
    or_entry mask_status max_status list_bits list_bytes write_entry write_entries build_status_list
    group_to_set batch_ids set_statuses ids_to_set set_credential_status next_status_index
    register_status_entry text_eq contains lookup insert delete trim_start trim_space as_int
    reference_with_idx extract_status_ref own_status_ref adopt_own_status_entry as_object as_string
    import_credential resolve_issue_status store_copy store_copies issue_credential
    rename_credential replace_credential
everything = tt

abbrev copy_named : Text → StoredCredential
copy_named id = record {
  id = id;
  format = codes "dc+sd-jwt";
  raw = [];
  claims = [];
  vct = [];
  doc_type = [];
  protected = false;
  batch_group = codes "b";
  uses = 0;
}

abbrev own_list : Text
own_list = codes "https://w.example/api/statuslist"

-- The wallet that has issued two copies of a batch.
abbrev issued_batch : StatusStore
issued_batch = record {
  credentials = copy_named (codes "c1") ∷ copy_named (codes "c2") ∷ [];
  entries =
      (codes "c1", record { index = pos 0; status = pos 0 })
      ∷ (codes "c2", record { index = pos 1; status = pos 0 })
      ∷ [];
  counter = 2;
}

-- The same where they are revoked.
abbrev revoked_batch : StatusStore
revoked_batch = record {
  credentials = copy_named (codes "c1") ∷ copy_named (codes "c2") ∷ [];
  entries =
      (codes "c1", record { index = pos 0; status = pos 1 })
      ∷ (codes "c2", record { index = pos 1; status = pos 1 })
      ∷ [];
  counter = 2;
}

issues_batch :
    issue_credential own_list none none
      (copy_named (codes "c1"))
      (copy_named (codes "c2") ∷ [])
      empty_wallet
    ≡ some issued_batch
unfolding everything
issues_batch = refl

revokes_batch :
    set_credential_status issued_batch (codes "c2") (pos 1)
    ≡ some (revoked_batch, record { index = pos 1; status = pos 1 })
unfolding everything
revokes_batch = refl

Reach-revoked : Reach own_list revoked_batch
Reach-revoked =
    next
      (next here (
        issue none none (copy_named (codes "c1")) (copy_named (codes "c2") ∷ []) empty_wallet
          issued_batch (refl, inl refl) issues_batch))
      (set_status (codes "c2") (pos 1) issued_batch revoked_batch
        (record { index = pos 1; status = pos 1 }) revokes_batch)

revoked_entry :
    lookup (codes "c2") revoked_batch.entries ≡ some (record { index = pos 1; status = pos 1 })
unfolding everything
revoked_entry = refl

published-shown_example :
    HaveDistinctIndices (entries revoked_batch.entries)
    × (j : ℕ) × (n : ℕ) × (pos 1 ≡ pos j)
    × (pos 1 ≡ pos n)
    × (bits : ℕ) × (bitstring : List ℕ) × (build_status_list revoked_batch ≡ some (bits, bitstring))
    × (extract_status bitstring (pos j) bits ≡ some n)
published-shown_example =
    published-shown (codes "c2") (record { index = pos 1; status = pos 1 }) Reach-revoked
      revoked_entry

-- A reference whose index is negative.
abbrev negative_ref : List (Text × Value)
negative_ref =
    (
      codes "status",
      obj (
          field (codes "status_list")
            (obj (field (codes "uri") (str own_list) (field (codes "idx") (int (negsuc 2)) end)))
            end),
    )
    ∷ []

-- It is invalid, and an import of its credential registers index 0, which the first copy has.
reference_tests :
    (extract_status_ref negative_ref
      ≡ some (record { uri = own_list; idx = 0; invalid = some (idx_negative (negsuc 2)) }))
    × ((import_credential own_list
          (copy_named (codes "c3"))
          (extract_status_ref negative_ref)
          issued_batch).entries
        ≡ (codes "c1", record { index = pos 0; status = pos 0 })
          ∷ (codes "c2", record { index = pos 1; status = pos 0 })
          ∷ (codes "c3", record { index = pos 0; status = pos 0 })
          ∷ [])
    × ((rename_credential (codes "c1") (codes "c0") issued_batch).entries
        ≡ (codes "c2", record { index = pos 1; status = pos 0 })
          ∷ (codes "c0", record { index = pos 0; status = pos 0 })
          ∷ [])
    × ((replace_credential (codes "c2") (codes "c1") issued_batch).entries
        ≡ (codes "c2", record { index = pos 0; status = pos 0 }) ∷ [])
unfolding everything
reference_tests = (refl, refl, refl, refl)
