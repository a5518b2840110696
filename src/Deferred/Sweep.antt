-- ===== src/Deferred/Sweep.antt =====
-- The sweep over the deferred issuances that are due.
use eudi_dev.Base.{
  ◌+◌, ◌≤◌, ◌<◌, ◌≢◌, ℕ, Text, text_eq, text_eq_iff, false, List, [], ◌∷◌, ◌++◌, append_assoc,
  append-nil, flat_map, All, All-append, ◌≡◌, refl, sym, ◌∙◌, ap, ap₂, subst, inl, inr, ◌⊎◌, arith,
}
use eudi_dev.Deferred.{DeferredIssuance}
use eudi_dev.Deferred.Poller.{
  Poller, Issuer, rescheduled, collect_due, collect_each, collect_due_deferred_credentials,
}
use eudi_dev.Deferred.Frame.{IsAway, due-framed}
use eudi_dev.Deferred.Settled.{alone, only, day, IsOld, IsSettled, alone-IsSettled}
use eudi_dev.Deferred.Keeps.{IsStable, due-Keeps}

-- No two records have the same id.
abbrev pub HaveDistinctRecords : List DeferredIssuance → Type 0
HaveDistinctRecords [] = Unit
HaveDistinctRecords (p ∷ ps) = IsAway p.id ps × HaveDistinctRecords ps

abbrev pub each_alone : Issuer → ℕ → Poller → Poller
each_alone env now s = record {
  issuances = flat_map (λ p. (alone env now s.in_flight p).issuances) s.issuances;
  in_flight = s.in_flight;
  imported = s.imported ++ flat_map (λ p. (alone env now s.in_flight p).imported) s.issuances;
}

abbrev HaveId : Text → List DeferredIssuance → Type 0
HaveId id = All (λ q. q.id ≡ id)

id-IsStable : (id : Text) → IsStable (λ q. q.id ≡ id)
unfolding rescheduled
id-IsStable id = record { rescheduling = λ n d e q h. h; tokens = λ u q h. h }

IsAway-of_id :
    (id other : Text) (ps : List DeferredIssuance)
    → text_eq id other ≡ false
    → HaveId id ps
    → IsAway other ps
IsAway-of_id id other [] n h = tt
IsAway-of_id id other (p ∷ ps) n (e, h) = (rw e n, IsAway-of_id id other ps n h)

All-IsAway :
    (id : Text) (done more ps : List DeferredIssuance)
    → HaveId id more
    → All (λ q. text_eq q.id id ≡ false) ps
    → All (λ q. IsAway q.id done) ps
    → All (λ q. IsAway q.id (done ++ more)) ps
All-IsAway id done more [] h a b = tt
All-IsAway id done more (q ∷ ps) h (n, a) (k, b) = (
  All-append (λ r. text_eq r.id q.id ≡ false) done more k
      (IsAway-of_id id q.id more (ground (arith, text_eq_iff id q.id, text_eq_iff q.id id)) h),
  All-IsAway id done more ps h a b,
)

none-IsAway : (ps : List DeferredIssuance) → All (λ q. IsAway q.id []) ps
none-IsAway [] = tt
none-IsAway (q ∷ ps) = (tt, none-IsAway ps)

module _ (env : Issuer) (now : ℕ) (flight : List Text) where
  abbrev state : List DeferredIssuance → List Text → Poller
  state issuances imported = record {
    issuances = issuances;
    in_flight = flight;
    imported = imported;
  }

  one : DeferredIssuance → Poller
  one p = alone env now flight p

  step :
      (done ps : List DeferredIssuance) (log : List Text) (p : DeferredIssuance)
      → IsAway p.id done
      → IsAway p.id ps
      → collect_due env now p (state (done ++ p ∷ ps) log)
        ≡ state ((done ++ (one p).issuances) ++ ps) (log ++ (one p).imported)
  unfolding one
  step done ps log p before behind =
      let single = state (p ∷ []) [] in
      ap (collect_due env now p)
        (ap₂ state (sym (append_assoc done (p ∷ []) ps)) (sym (append-nil log)))
      ∙ due-framed env done ps log now p single (before, behind)
      ∙ ap
          (λ ids. record {
            issuances = done ++ (one p).issuances ++ ps;
            in_flight = ids;
            imported = log ++ (one p).imported;
          })
          (due-Keeps env (λ q. q.id ≡ p.id) (id-IsStable p.id) now p single).0

  sweep :
      (done ps : List DeferredIssuance) (log : List Text)
      → All (λ p. IsAway p.id done) ps
      → HaveDistinctRecords ps
      → collect_each env now ps (state (done ++ ps) log)
        ≡ state
            (done ++ flat_map (λ p. (one p).issuances) ps)
            (log ++ flat_map (λ p. (one p).imported) ps)
  unfolding collect_each one
  sweep done [] log away distinct = ap (state (done ++ [])) (sym (append-nil log))
  sweep done (p ∷ ps) log (before, away) (behind, distinct) =
      let r = one p in
      ap (collect_each env now ps) (step done ps log p before behind)
      ∙ sweep (done ++ r.issuances) ps (log ++ r.imported)
          (All-IsAway p.id done r.issuances ps
            ((due-Keeps env (λ q. q.id ≡ p.id) (id-IsStable p.id) now p (state (p ∷ []) [])).1
              (refl, tt))
            behind away)
          distinct
      ∙ ap₂ state (append_assoc done r.issuances _) (append_assoc log r.imported _)

All-of_each :
    (P : DeferredIssuance → Type 0)
    → ((p : DeferredIssuance) → P p)
    → (ps : List DeferredIssuance) → All P ps
All-of_each P f [] = tt
All-of_each P f (p ∷ ps) = (f p, All-of_each P f ps)

-- Where no two deferred issuances have the same id, the sweep does with each of them what it does where
-- it is the only one, whatever the issuers answer: what becomes of one does not depend on the others,
-- and the credentials are imported in the order of the records. The only record stays as it is until it
-- is due. If it is then older than a day, it is removed and nothing is imported. Else it is attempted:
-- an attempt that reports the credential as collected leaves one import of it and no record, one that
-- reports that it gave up leaves neither, and any other leaves one record with the id and no import.
pub collect_due_deferred-each_alone :
    (env : Issuer) (now : ℕ) (s : Poller)
    → HaveDistinctRecords s.issuances
    → (collect_due_deferred_credentials env now s ≡ each_alone env now s)
      × All (IsSettled env now s.in_flight) s.issuances
unfolding collect_due_deferred_credentials one
collect_due_deferred-each_alone env now s distinct = (
  sweep env now s.in_flight [] s.issuances s.imported (none-IsAway s.issuances) distinct,
  All-of_each (IsSettled env now s.in_flight) (alone-IsSettled env now s.in_flight) s.issuances,
)

-- A record that is not tried yet at this time, or not older than a day.
abbrev pub IsLive : ℕ → DeferredIssuance → Type 0
IsLive now q = (now < q.next_attempt_at) ⊎ (now ≤ q.created_at + day)

young-IsStable : (now : ℕ) → IsStable (λ q. now ≤ q.created_at + day)
unfolding rescheduled
young-IsStable now = record { rescheduling = λ n d e q h. h; tokens = λ u q h. h }

All-imp :
    (P Q : DeferredIssuance → Type 0) (ps : List DeferredIssuance)
    → ((q : DeferredIssuance) → P q → Q q)
    → All P ps
    → All Q ps
All-imp P Q [] f h = tt
All-imp P Q (q ∷ ps) f (x, h) = (f q x, All-imp P Q ps f h)

alone-IsLive :
    (env : Issuer) (now : ℕ) (flight : List Text) (p : DeferredIssuance)
    → All (IsLive now) (alone env now flight p).issuances
alone-IsLive env now flight p = elim (alone-IsSettled env now flight p) [
  | inl (e, same) ↦ rw same (inl e, tt)
  | inr (inl (due, old, left, nothing)) ↦ rw left tt
  | inr (inr (due, young, outcome)) ↦
      All-imp (λ q. now ≤ q.created_at + day) (IsLive now) _ (λ q h. inr h)
        ((due-Keeps env (λ q. now ≤ q.created_at + day) (young-IsStable now) now p
            (only flight p)).1
          (young, tt))
]

each-IsLive :
    (env : Issuer) (now : ℕ) (flight : List Text) (ps : List DeferredIssuance)
    → All (IsLive now) (flat_map (λ p. (alone env now flight p).issuances) ps)
each-IsLive env now flight [] = tt
each-IsLive env now flight (p ∷ ps) =
    All-append (IsLive now) (alone env now flight p).issuances _ (alone-IsLive env now flight p)
      (each-IsLive env now flight ps)

module _ (env : Issuer) (now : ℕ) (flight : List Text) where
  abbrev left_of : List DeferredIssuance → List DeferredIssuance
  left_of ps = flat_map (λ p. (alone env now flight p).issuances) ps

  -- No record with the id is left, if this one is due and older than a day.
  abbrev IsGone : DeferredIssuance → List DeferredIssuance → Type 0
  IsGone p left = p.next_attempt_at ≤ now → IsOld now p → IsAway p.id left

  alone-HaveId : (p : DeferredIssuance) → HaveId p.id (alone env now flight p).issuances
  alone-HaveId p =
      (due-Keeps env (λ q. q.id ≡ p.id) (id-IsStable p.id) now p (only flight p)).1 (refl, tt)

  left-IsAway : (id : Text) (ps : List DeferredIssuance) → IsAway id ps → IsAway id (left_of ps)
  left-IsAway id [] h = tt
  left-IsAway id (p ∷ ps) (n, h) =
      All-append (λ r. text_eq r.id id ≡ false) (alone env now flight p).issuances _
        (IsAway-of_id p.id id (alone env now flight p).issuances n (alone-HaveId p))
        (left-IsAway id ps h)

  old-removed :
      (p : DeferredIssuance)
      → p.next_attempt_at ≤ now
      → IsOld now p
      → (alone env now flight p).issuances ≡ []
  old-removed p due old = elim (alone-IsSettled env now flight p) [
    | inl (e, same) ↦ absurd (omega arith)
    | inr (inl (d, o, left, nothing)) ↦ left
    | inr (inr (d, young, outcome)) ↦ absurd (omega arith)
  ]

  each-IsGone :
      (done ps : List DeferredIssuance)
      → All (λ p. IsAway p.id done) ps
      → HaveDistinctRecords ps
      → All (λ p. IsGone p (done ++ left_of ps)) ps
  each-IsGone done [] away distinct = tt
  each-IsGone done (p ∷ ps) (before, away) (behind, distinct) =
      let here = (alone env now flight p).issuances in
      (
        λ due old.
            All-append (λ r. text_eq r.id p.id ≡ false) done _ before
              (rw (old-removed p due old) (left-IsAway p.id ps behind)),
        subst (λ left. All (λ q. IsGone q left) ps) (append_assoc done here (left_of ps))
            (each-IsGone (done ++ here) ps
              (All-IsAway p.id done here ps (alone-HaveId p) behind away) distinct),
      )

-- Where a record is due and older than a day, no record with its id is left.
abbrev pub IsGivenUp : ℕ → List DeferredIssuance → DeferredIssuance → Type 0
IsGivenUp now left p = p.next_attempt_at ≤ now → IsOld now p → All (λ q. q.id ≢ p.id) left

IsAway-ne : (id : Text) (ps : List DeferredIssuance) → IsAway id ps → All (λ q. q.id ≢ id) ps
IsAway-ne id ps h =
    All-imp (λ q. text_eq q.id id ≡ false) (λ q. q.id ≢ id) ps
      (λ q n e. let same = (text_eq_iff q.id id).1 e in cc) h

-- After a sweep, where no two deferred issuances have the same id, whatever the issuers answer: the
-- wallet has given up on every record that was due and older than a day, of which none with its id is
-- left, and every record that is left is not to be tried yet, or is at most a day old.
pub collect_due_deferred-IsLive :
    (env : Issuer) (now : ℕ) (s : Poller)
    → HaveDistinctRecords s.issuances
    → All (IsGivenUp now (collect_due_deferred_credentials env now s).issuances) s.issuances
      × All (IsLive now) (collect_due_deferred_credentials env now s).issuances
collect_due_deferred-IsLive env now s distinct =
    subst (λ t. All (IsGivenUp now t.issuances) s.issuances × All (IsLive now) t.issuances)
      (sym (collect_due_deferred-each_alone env now s distinct).0)
      (
        All-imp (λ p. IsGone env now s.in_flight p (left_of env now s.in_flight s.issuances))
            (IsGivenUp now (left_of env now s.in_flight s.issuances)) s.issuances
            (λ p gone due old. IsAway-ne p.id _ (gone due old))
            (each-IsGone env now s.in_flight [] s.issuances (none-IsAway s.issuances) distinct),
        each-IsLive env now s.in_flight s.issuances,
      )
