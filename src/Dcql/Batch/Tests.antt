-- ===== src/Dcql/Batch/Tests.antt =====
-- Presentations of a batch, and the theorem at a concrete one.
use eudi_dev.Base.{ℕ, ◌+◌, Text, codes, text_eq, true, false, List, [], ◌∷◌, All, ◌≡◌, refl}
use eudi_dev.Credential.{StoredCredential}
use eudi_dev.Dcql.Match.{CredentialMatch}
use eudi_dev.Dcql.Order.{credential_by_id}
use eudi_dev.Dcql.Batch.{
  fewest_uses, least_used, choose_batch_copy, uses_at, record_batch_presentation,
}
use eudi_dev.Dcql.Batch.Record.{is_copy, total_uses}
use eudi_dev.Dcql.Batch.Rotation.{
  IsBalanced, present_copy, present_copies, present_copies-IsBalanced,
}

everything : Unit {0}
unfolding text_eq credential_by_id fewest_uses least_used choose_batch_copy
    record_batch_presentation is_copy present_copy present_copies
everything = tt

abbrev stored : Text → Text → ℕ → StoredCredential
stored id group uses = record {
  id = id;
  format = codes "dc+sd-jwt";
  raw = [];
  claims = [];
  vct = [];
  doc_type = [];
  protected = false;
  batch_group = group;
  uses = uses;
}

abbrev match_of : Text → CredentialMatch
match_of id = record {
  query_id = codes "q";
  credential_id = id;
  format = codes "dc+sd-jwt";
  vct = [];
  doc_type = [];
  claims = [];
  selected_keys = [];
  untrusted_authority = false;
  unbound = false;
  empty_array_claims = [];
  missing_claims = [];
  mismatches = [];
  claim_sets = [];
}

abbrev wallet : List StoredCredential
wallet =
    stored (codes "s") [] 7
    ∷ stored (codes "c1") (codes "b") 0
    ∷ stored (codes "c2") (codes "b") 0
    ∷ []

abbrev matched : List CredentialMatch
matched = match_of (codes "c1") ∷ match_of (codes "c2") ∷ []

abbrev three_times : List (ℕ → ℕ)
three_times = (λ n. 0) ∷ (λ n. 0) ∷ (λ n. 0) ∷ []

batch_tests :
    (present_copies matched three_times (0 ∷ 1 ∷ []) wallet
      ≡ stored (codes "s") [] 7
        ∷ stored (codes "c1") (codes "b") 2
        ∷ stored (codes "c2") (codes "b") 1
        ∷ [])
    × (record_batch_presentation (codes "s") wallet ≡ wallet)
unfolding everything
batch_tests = (refl, refl)

first_copy : is_copy (codes "c1") wallet ≡ true
unfolding everything
first_copy = refl

second_copy : is_copy (codes "c2") wallet ≡ true
unfolding everything
second_copy = refl

equally_often : All (λ j. uses_at wallet matched j ≡ 0) (0 ∷ 1 ∷ [])
unfolding everything
equally_often = (refl, (refl, tt))

present_copies-IsBalanced_example :
    (total_uses (present_copies matched three_times (0 ∷ 1 ∷ []) wallet) ≡ 3 + 7)
    × (least : ℕ) × IsBalanced
        (uses_at (present_copies matched three_times (0 ∷ 1 ∷ []) wallet) matched)
        (0 ∷ 1 ∷ [])
        least
present_copies-IsBalanced_example =
    present_copies-IsBalanced matched three_times 0 (1 ∷ []) 0 wallet
      ((λ n h. h), ((λ n h. h), ((λ n h. h), tt)))
      ((match_of (codes "c1"), refl, first_copy), ((match_of (codes "c2"), refl, second_copy), tt))
      equally_often
