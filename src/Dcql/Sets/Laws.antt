-- ===== src/Dcql/Sets/Laws.antt =====
-- What the choice of presentations guarantees.
use eudi_dev.Base.{
  ℕ, ◌≤◌, Text, text_eq_iff, contains, Bool, true, false, List, [], ◌∷◌, if◌then◌else◌, length, All,
  ◌≡◌, refl, arith,
}
use eudi_dev.Dcql.Match.{CredentialMatch}
use eudi_dev.Dcql.Sets.{keep_one_from, keep_one_presentation_per_query, matches_for, has_match}

module _ {κ} (P : CredentialMatch → Type κ) (multiple : List Text) where
  All-keep_one_from :
      (seen : List Text) (ms : List CredentialMatch)
      → All P ms
      → All P (keep_one_from multiple seen ms)
  unfolding keep_one_from
  All-keep_one_from seen [] h = tt
  All-keep_one_from seen (m ∷ ms) (p, h) =
      split (contains seen m.query_id) (contains multiple m.query_id)
        (All-keep_one_from (m.query_id ∷ seen) ms h) (All-keep_one_from seen ms h)
    where
      split :
          (s t : Bool)
          → All P (keep_one_from multiple (m.query_id ∷ seen) ms)
          → All P (keep_one_from multiple seen ms)
          → All P (
              if s
              then (if t
                  then m ∷ keep_one_from multiple (m.query_id ∷ seen) ms
                  else keep_one_from multiple seen ms)
              else m ∷ keep_one_from multiple (m.query_id ∷ seen) ms)
      split true true h k = (p, h)
      split true false h k = k
      split false t h k = (p, h)

  -- What holds of every match holds of those that are kept.
  pub All-keep_one :
      (ms : List CredentialMatch) → All P ms → All P (keep_one_presentation_per_query ms multiple)
  unfolding keep_one_presentation_per_query
  All-keep_one ms h = All-keep_one_from [] ms h

module _ (multiple : List Text) (id : Text) where
  -- How many more matches of the query can be kept.
  abbrev room : List Text → ℕ
  room seen = if contains seen id then 0 else 1

  keep_one_room :
      (seen : List Text) (ms : List CredentialMatch)
      → contains multiple id ≡ false
      → length (matches_for id (keep_one_from multiple seen ms)) ≤ room seen
  unfolding keep_one_from contains
  keep_one_room seen [] h = omega arith
  keep_one_room seen (m ∷ ms) h = ground (
    arith,
    text_eq_iff m.query_id id,
    keep_one_room (m.query_id ∷ seen) ms h,
    keep_one_room seen ms h,
  )

  -- A query that does not set `multiple` is answered by at most one presentation.
  pub keep_one-le_one :
      (ms : List CredentialMatch)
      → contains multiple id ≡ false
      → length (matches_for id (keep_one_presentation_per_query ms multiple)) ≤ 1
  unfolding keep_one_presentation_per_query contains
  keep_one-le_one ms h = keep_one_room [] ms h

  keep_one_first :
      (seen : List Text) (ms : List CredentialMatch)
      → contains seen id ≡ false
      → has_match (keep_one_from multiple seen ms) id ≡ has_match ms id
  unfolding keep_one_from contains
  keep_one_first seen [] h = refl
  keep_one_first seen (m ∷ ms) h = ground (
    arith,
    text_eq_iff m.query_id id,
    keep_one_first (m.query_id ∷ seen) ms,
    keep_one_first seen ms h,
  )
