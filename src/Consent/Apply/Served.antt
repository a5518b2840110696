-- ===== src/Consent/Apply/Served.antt =====
-- A selection that was validated answers every query of the chosen options.
use eudi_dev.Base.{
  All-member, lookup, sym, subst, ◌>>=◌, ℤ, Text, Bool, true, false, ◌&&◌, some, List, [], ◌∷◌,
  is_empty, map, if◌then◌else◌, All, ◌≡◌, ◌≢◌, refl, ap,
}
use mathlib.Core.List.{Memᴰ}
use eudi_dev.Dcql.Match.{CredentialMatch}
use eudi_dev.Dcql.Options.{ConsentQueryOptions, ConsentCredentialOptions}
use eudi_dev.Consent.{
  active_from, active_queries, find_consent_query, picks_for, picked_candidates, ConsentResult,
}
use eudi_dev.Dcql.Sets.Options.{All-self, All-map}
use eudi_dev.Consent.Validate.{accepted, check_sets, check_picks, validate_with}
use eudi_dev.Consent.Apply.{needed_from, picked_for, select_credentials}
use eudi_dev.Consent.Apply.Picked.{
  offered_for, IsOffered, HasOffer, picked_candidates-named, picked_candidates-IsOffered,
  checked-HasOffer,
}
use eudi_dev.Consent.Apply.Chosen.{needed-active, answered_by, accepted_parts, picked_for-All}

-- What a selection holds for a query that the user was asked about: some credential that was offered for
-- it, and where the user named ids for it, for each of them an offered credential with that id, and
-- every offered credential that has one of them.
abbrev pub IsServed :
    ConsentCredentialOptions → List (Text × List Text) → List CredentialMatch → Text → Type 0
IsServed options picks selected qid =
    (query : ConsentQueryOptions)
    → find_consent_query options qid ≡ some query
    → ((m : CredentialMatch) × Memᴰ m (offered_for query) × Memᴰ m selected)
      × ((ids : List Text)
          → lookup qid picks ≡ some ids
          → All
              (λ id.
                (m : CredentialMatch) × Memᴰ m (offered_for query)
                × (m.credential_id ≡ id)
                × Memᴰ m selected)
              ids
            × All (λ m. Memᴰ m.credential_id ids → Memᴰ m selected) (offered_for query))

some_picked :
    (P Q : CredentialMatch → Type 0) (ms : List CredentialMatch)
    → ms ≢ []
    → All P ms
    → All Q ms
    → (m : CredentialMatch) × P m × Q m
some_picked P Q [] n p q = absurd (n refl)
some_picked P Q (m ∷ ms) n (p, ps) (q, qs) = (m, p, q)

-- The ids that were named, where what is picked for them is selected.
named_selected :
    (query : ConsentQueryOptions) (selected : List CredentialMatch) (all_ids ids : List Text)
    → All (λ id. Memᴰ id all_ids) ids
    → All (λ m. Memᴰ m selected) (picked_candidates query all_ids)
    → All (HasOffer query) ids
    → All
        (λ id.
          (m : CredentialMatch) × Memᴰ m (offered_for query)
          × (m.credential_id ≡ id)
          × Memᴰ m selected)
        ids
named_selected query selected all_ids [] named chosen offers = tt
named_selected query selected all_ids (id ∷ ids) (listed, named) chosen
      ((m, offered, same), offers) =
    let picked =
      picked_candidates-named query all_ids m offered
        (subst (λ x. Memᴰ x all_ids) (sym same) listed) in
    (
      (
        m,
        offered,
        same,
        All-member (λ m. Memᴰ m selected) (picked_candidates query all_ids) picked chosen,
      ),
      named_selected query selected all_ids ids named chosen offers,
    )

module _ (options : ConsentCredentialOptions) (picks : List (Text × List Text))
    (selected : List CredentialMatch) (checked : check_picks options picks ≡ accepted) where
  served_query :
      (qid : Text) (query : ConsentQueryOptions)
      → find_consent_query options qid ≡ some query
      → picked_candidates query (picks_for qid picks) ≢ []
      → All (λ m. Memᴰ m selected) (picked_candidates query (picks_for qid picks))
      → ((m : CredentialMatch) × Memᴰ m (offered_for query) × Memᴰ m selected)
        × ((ids : List Text)
            → lookup qid picks ≡ some ids
            → All
                (λ id.
                  (m : CredentialMatch) × Memᴰ m (offered_for query)
                  × (m.credential_id ≡ id)
                  × Memᴰ m selected)
                ids
              × All (λ m. Memᴰ m.credential_id ids → Memᴰ m selected) (offered_for query))
  served_query qid query e some_pick chosen = (
    some_picked (IsOffered query) (λ m. Memᴰ m selected)
        (picked_candidates query (picks_for qid picks)) some_pick
        (picked_candidates-IsOffered query (picks_for qid picks)) chosen,
    λ ids f.
        let named : All (λ m. Memᴰ m selected) (picked_candidates query ids) =
          (rw (f, picks_for) at chosen) in
        (
          named_selected query selected ids ids (All-self ids) named
              (checked-HasOffer options picks qid ids query checked e f),
          All-map (IsOffered query) (λ m. Memᴰ m.credential_id ids → Memᴰ m selected)
              (λ m offered id.
                All-member (λ m. Memᴰ m selected) (picked_candidates query ids)
                  (picked_candidates-named query ids m offered id) named)
              (offered_for query) (All-self (offered_for query)),
        ),
  )

  served :
      (qids : List Text)
      → All
          (λ qid.
            (query : ConsentQueryOptions)
            → find_consent_query options qid ≡ some query
            → picked_candidates query (picks_for qid picks) ≢ [])
          qids
      → All
          (λ qid.
            (query : ConsentQueryOptions)
            → find_consent_query options qid ≡ some query
            → All (λ m. Memᴰ m selected) (picked_candidates query (picks_for qid picks)))
          qids
      → All (IsServed options picks selected) qids
  served [] a b = tt
  served (qid ∷ qids) (a, rest) (b, shown) =
      ((λ query e. served_query qid query e (a query e) (b query e)), served qids rest shown)

needed_of :
    (options : ConsentCredentialOptions) (choices : List ℤ)
    → check_sets 0 (is_empty options.sets) options.sets choices ≡ accepted
    → (if is_empty options.sets
        then some (map (λ q. q.id) options.queries)
        else needed_from [] options.sets choices)
      ≡ some (active_queries options choices)
unfolding active_queries
needed_of options choices h =
    split (is_empty options.sets)
      (needed-active 0 (is_empty options.sets) [] options.sets choices h)
  where
    split :
        (b : Bool)
        → needed_from [] options.sets choices ≡ some (active_from [] options.sets choices)
        → (if b
            then some (map (λ q. q.id) options.queries)
            else needed_from [] options.sets choices)
          ≡ some
              (if b then map (λ q. q.id) options.queries else active_from [] options.sets choices)
    split true h = refl
    split false h = h

-- Where the user picked credentials or options and the check accepts the selection, the selection
-- succeeds. For every query of the chosen options (every query, where there are no credential sets) that
-- the dialog offered it has some credential that was offered for the query. Where the user named
-- credentials for it, each is the id of an offered credential in the selection, and the selection has
-- every offered credential with such an id.
pub select_credentials-IsServed :
    (options : ConsentCredentialOptions) (matches : List CredentialMatch) (result : ConsentResult)
    → validate_with options result.picks result.set_choices result.claim_set_choices ≡ accepted
    → (is_empty result.picks && is_empty result.set_choices) ≡ false
    → (selected : List CredentialMatch) × (select_credentials options matches result
        ≡ some selected)
      × All (IsServed options result.picks selected) (active_queries options result.set_choices)
unfolding select_credentials
select_credentials-IsServed options matches result h some_choice =
    let (sets, picked, active) =
      accepted_parts options result.picks result.set_choices result.claim_set_choices h in
    (
      selected,
      rw some_choice
          (ap (λ o. o >>= λ ids. some (chosen_or ids)) (needed_of options result.set_choices sets)),
      served options result.picks selected picked (active_queries options result.set_choices)
          (answered_by options result.picks (active_queries options result.set_choices) active)
          (picked_for-All (λ m. Memᴰ m selected) options result.picks
            (active_queries options result.set_choices)
            (All-map (λ m. Memᴰ m out) (λ m. Memᴰ m selected) (λ m. kept out m) out
              (All-self out))),
    )
  where
    chosen_or : List Text → List CredentialMatch
    chosen_or ids = let o = picked_for options result.picks ids in if is_empty o then matches else o

    out : List CredentialMatch
    out = picked_for options result.picks (active_queries options result.set_choices)

    selected : List CredentialMatch
    selected = if is_empty out then matches else out

    kept :
        (o : List CredentialMatch) (m : CredentialMatch)
        → Memᴰ m o
        → Memᴰ m (if is_empty o then matches else o)
    kept [] m i = elim i [ ]
    kept (x ∷ xs) m i = i
