-- ===== src/Status/Wallet/Allocated.antt =====
-- Indices from the counter: what holds however the wallet issues, renames, replaces and revokes.
use eudi_dev.Base.{
  ℕ, ◌+◌, ◌≤◌, ◌<◌, ℤ, pos, negsuc, Text, insert, true, false, List, [], ◌∷◌, ◌++◌, All, ◌≡◌, ◌≢◌,
  ◌⊎◌, refl, sym, ap, ◌∙◌, subst, arith, inl, inr,
}
use eudi_dev.Credential.{StoredCredential}
use eudi_dev.Status.Wallet.{StatusEntry, StatusStore, next_status_index, register_status_entry}
use eudi_dev.Status.Wallet.Write.{HaveDistinctIndices}
use eudi_dev.Status.Wallet.Revoke.{entries}
use eudi_dev.Status.Wallet.Issue.{
  own_status_ref, adopt_own_status_entry, import_credential, signed_ref, store_copy, store_copies,
}
use eudi_dev.Status.Wallet.Entries.{All-insert, insert-distinct, insert-insert}

-- An entry with an index below the counter and a status that can be encoded.
abbrev pub IsEntry : ℕ → StatusEntry → Type 0
IsEntry counter e =
    (j : ℕ) × (n : ℕ) × (e.index ≡ pos j) × (j < counter) × (e.status ≡ pos n) × (n ≤ 255)

-- All entries are such, and no two share an index.
abbrev pub AreAllocated : ℕ → List (Text × StatusEntry) → Type 0
AreAllocated counter m = All (IsEntry counter) (entries m) × HaveDistinctIndices (entries m)

IsEntry-suc : (counter : ℕ) (e : StatusEntry) → IsEntry counter e → IsEntry (counter + 1) e
IsEntry-suc counter e (j, n, a, b, c, d) = (j, n, a, omega (arith, b), c, d)

All-IsEntry-suc :
    (counter : ℕ) (es : List StatusEntry)
    → All (IsEntry counter) es
    → All (IsEntry (counter + 1)) es
All-IsEntry-suc counter [] h = tt
All-IsEntry-suc counter (e ∷ es) (p, h) = (IsEntry-suc counter e p, All-IsEntry-suc counter es h)

-- The index that the counter gives is no entry's.
away_from_counter :
    (counter : ℕ) (es : List StatusEntry)
    → All (IsEntry counter) es
    → All (λ y. y.index ≢ pos counter) es
away_from_counter counter [] h = tt
away_from_counter counter (e ∷ es) ((j, n, a, b, c, d), h) =
    (λ q. grind arith, away_from_counter counter es h)

abbrev new_entry : ℕ → StatusEntry
new_entry i = record { index = pos i; status = pos 0 }

insert-AreAllocated :
    (id : Text) (counter : ℕ) (m : List (Text × StatusEntry))
    → AreAllocated counter m
    → AreAllocated (counter + 1) (insert id (new_entry counter) m)
insert-AreAllocated id counter m (h, d) = (
  All-insert (IsEntry (counter + 1)) id (new_entry counter) m
      (counter, 0, refl, omega arith, refl, omega arith) (All-IsEntry-suc counter (entries m) h),
  insert-distinct id (new_entry counter) m (away_from_counter counter (entries m) h) d,
)

adopted-entries :
    (own id : Text) (uri : Text) (i : ℕ) (s : StatusStore)
    → ((adopt_own_status_entry own id (signed_ref uri (pos i)) s).counter ≡ s.counter)
      × (((adopt_own_status_entry own id (signed_ref uri (pos i)) s).entries ≡ s.entries)
          ⊎ ((adopt_own_status_entry own id (signed_ref uri (pos i)) s).entries
              ≡ insert id (new_entry i) s.entries))
unfolding adopt_own_status_entry own_status_ref register_status_entry
adopted-entries own id uri i s = grind arith

-- A copy that is registered gets its entry, and no other entry changes.
store_copy-registered :
    (own uri : Text) (i : ℕ) (c : StoredCredential) (s : StatusStore)
    → ((store_copy own uri true (pos i) c s).entries ≡ insert c.id (new_entry i) s.entries)
      × ((store_copy own uri true (pos i) c s).counter ≡ s.counter)
unfolding store_copy import_credential register_status_entry
store_copy-registered own uri i c s =
    let (counted, cases) =
      adopted-entries own c.id uri i (record s { credentials = s.credentials ++ c ∷ [] }) in
    (
      elim cases [
        | inl e ↦ ap (insert c.id (new_entry i)) e
        | inr e ↦ ap (insert c.id (new_entry i)) e ∙ insert-insert c.id (new_entry i) s.entries
      ],
      counted,
    )

unlisted-adopted :
    (own id : Text) (i : ℤ) (s : StatusStore)
    → adopt_own_status_entry own id (signed_ref [] i) s ≡ s
unfolding adopt_own_status_entry own_status_ref
unlisted-adopted own id (pos i) s = refl
unlisted-adopted own id (negsuc i) s = refl

-- A copy without a status list changes no entry.
pub store_copy-unlisted :
    (own : Text) (i : ℤ) (c : StoredCredential) (s : StatusStore)
    → store_copy own [] false i c s ≡ record s { credentials = s.credentials ++ c ∷ [] }
unfolding store_copy import_credential
store_copy-unlisted own i c s =
    unlisted-adopted own c.id i (record s { credentials = s.credentials ++ c ∷ [] })

pub store_copies-unlisted :
    (own : Text) (i : ℤ) (cs : List StoredCredential) (s : StatusStore)
    → AreAllocated s.counter s.entries
    → let t = store_copies own [] false i cs s in AreAllocated t.counter t.entries
unfolding store_copies
store_copies-unlisted own i [] s h = h
store_copies-unlisted own i (c ∷ cs) s h =
    subst (λ u. let t = store_copies own [] false i cs u in AreAllocated t.counter t.entries)
      (sym (store_copy-unlisted own i c s))
      (store_copies-unlisted own i cs (record s { credentials = s.credentials ++ c ∷ [] }) h)

-- The next index and the entry of a copy.
pub counted-AreAllocated :
    (own uri : Text) (c : StoredCredential) (s : StatusStore)
    → AreAllocated s.counter s.entries
    → let (after, i) = next_status_index s in
      let t = store_copy own uri true (pos i) c after in AreAllocated t.counter t.entries
unfolding next_status_index
counted-AreAllocated own uri c s h =
    let (stored, counted) =
      store_copy-registered own uri s.counter c (record s { counter = s.counter + 1 }) in
    rw (stored, counted) (insert-AreAllocated c.id s.counter s.entries h)

pub store_copies-AreAllocated :
    (own uri : Text) (i : ℤ) (cs : List StoredCredential) (s : StatusStore)
    → AreAllocated s.counter s.entries
    → let t = store_copies own uri true i cs s in AreAllocated t.counter t.entries
unfolding store_copies
store_copies-AreAllocated own uri i [] s h = h
store_copies-AreAllocated own uri i (c ∷ cs) s h =
    let (after, next) = next_status_index s in
    store_copies-AreAllocated own uri i cs (store_copy own uri true (pos next) c after)
      (counted-AreAllocated own uri c s h)
