-- ===== src/Lib.antt =====
-- eudi-dev: a wallet, verifier tools and test services for the EU Digital Identity ecosystem.
--
-- The development models how the wallet decides what it presents. A verifier sends a DCQL query
-- (OpenID for Verifiable Presentations 1.0, section 6). `EvaluateDCQLWithOptions` in
-- internal/wallet/dcql.go matches the stored credentials with it, orders the matches by preference,
-- and returns the credentials that the wallet selects by itself, with the alternatives that its consent
-- dialog offers.
--
--   Base        texts as bytes, float64 as dyadic numbers, strconv, base64url, stable sorting
--   Credential  `StoredCredential` of internal/wallet/wallet.go
--   Credtype    internal/credtype/credtype.go: credential types and what they extend
--   Dcql        internal/wallet/dcql.go, and the batch copies of internal/wallet/issuance_batch.go:
--     Value, Path, Selector    decoded JSON, claims path pointers, and their text form
--     Claims                   which claims answer a query (`selectClaims`)
--       Same, There            when a claim is there, and is one of the `values`
--     Meta, Trust              format, metadata, holder binding, trusted authorities
--     Match                    the loop of the evaluation over queries and credentials
--     Order, Batch, Sets       preference, one copy of a batch, credential sets
--       Record, Rotation       the copies of a batch over several presentations
--     Findings, Options        checks of the query, and what the consent dialog offers
--     Evaluate                 the evaluation as a whole
--
-- The user can change the selection (internal/wallet/consent_selection.go): `ValidateConsentSelection`
-- checks the choices, `ApplyConsentSelection` takes the credentials, and `applySelectedClaims` the claims.
--
--   Consent     internal/wallet/consent_selection.go
--     Validate, Apply          the check of the choices, and what is presented
--   Credential.Resolve         `GetCredential` and `resolveIDLocked` of internal/wallet/wallet.go
--
-- A flow that needs consent registers a request and waits (`awaitConsent`), while the handlers of the
-- consent dialog approve or deny it, and a timeout expires it (internal/wallet/wallet_events.go and
-- server_requests.go). The flow, the handlers and the registry run at once: `Step` lets them take turns
-- at the granularity of a critical section or a channel operation.
--
--   Requests    internal/wallet/wallet_events.go: the registry, with pointers into a heap
--     Handlers                 internal/wallet/server_requests.go and server_owner.go
--     Steps                    the turns that flows and handlers take
--     Sound, Invariant         what holds of a request, its flow and its handlers
--     Outcome, Delivery        what a flow returns, and that it can
--     Answers, Consented       what the handlers answer, and the flow that takes it
--
-- An issuer can defer a credential. The wallet keeps a record of it and asks for the credential when the
-- record is due, until it gets it or gives up (internal/wallet/deferred.go and deferred_poller.go).
--
--   Deferred    internal/wallet/deferred.go: the records
--     Poller                   internal/wallet/deferred_poller.go: one attempt, and the sweep
--     Frame, Keeps             what an attempt leaves alone
--     Once, Settled, Sweep     what an attempt and a sweep do to each record
--
-- The server runs its background tasks, of which the sweep is one, in a loop with a tick of a second. A
-- task that fails is run again at the next tick, and given up after five failures in a row.
--
--   Background  internal/wallet/deferred_poller.go: the loop of `StartBackgroundTasks`
--     History, Turns           the runs of a task, and when the next one is
--
-- The wallet also publishes a status list of the credentials that it issued (internal/statuslist and
-- internal/wallet/wallet_status.go). `SetCredentialStatus` changes the entries of a batch,
-- `BuildStatusList` packs them, and a verifier reads them by `extractStatus`.
--
--   Status      internal/statuslist and internal/wallet/wallet_status.go
--     Bits, Bitstring          `|` and shifts as arithmetic; entries in a byte array
--     Reference                the reference of a credential to its entry (`ExtractStatusRef`)
--     Wallet                   setting a status, and building the list
--       Issue                  internal/wallet/issue.go, wallet_import.go, credentials_file.go: who gets
--                              which index
--       Remove                 internal/wallet/wallet.go: removal and eviction
--       Allocated, Operations  what each operation does to the entries
--       History                the entries over the history of a wallet
--
-- Wallet state is stored as blobs under keys. A client that changes a blob writes it back only where it is
-- still the one it read (`WriteIf`).
--
--   Storage     internal/storage/memory.go: the store in memory
--     Keys                     internal/storage/storage.go: the keys that a store takes
--     Names, Accepted          which keys those are
--     Versions, Swap           what any changes do to versions; compare and swap
--
-- The intercepting proxy keeps the newest traffic entries and groups them into flows.
--
--   Proxy.Store internal/proxy/store.go, with the correlation keys of an entry as its field
--
-- A Go string is the list of its bytes. A map is an association list; where code ranges over one, its
-- order plays no part in the result. A nil slice is the empty list. A float64 is a finite dyadic number:
-- decoded JSON has no infinity and no NaN; numbers beyond the range of an int are out of scope where the
-- code converts one. `format_other` is strconv.FormatFloat on the numbers that are no integers below
-- 2^53. `stable_sort` is the insertion sort that sort.SliceStable runs on blocks of 20.
--
-- The parameters of the model: what an SD-JWT discloses and the holder binding of a raw credential
-- (`Reader`), certificate chains and trusted lists (`Certificates`, `list_findings`), issuance times, what
-- an issuer and its metadata answer to the poller and when (`Issuer`), the background tasks (`Task`), and
-- the random choice of a batch copy (`pick`). Log lines are left out. Ids of credentials are
-- unique, so the map `bound` is a function of the credential. Dates of mdoc elements are not values.
--
-- A time is the number of nanoseconds since the zero time. A consent request is registered with an id
-- that no request has yet (a random UUID), and when one is registered no flow still waits for the
-- answer to a request that is more than an hour old, as its timeout takes five minutes: `IsFresh` and
-- `IsPrompt` are conditions of the step.
--
-- An index out of range, which panics in Go, is `none` in `update_byte`, in `taken_option` and in
-- `add`. The counter of the status list is not negative, and its products with a width do not overflow
-- an int.
--
-- The history of the status list (`Step`) has the issuance of credentials whose index comes from the
-- counter, changes of a status, renaming, replacement, removal, the imports that do not name the own
-- list, and the eviction that makes room for others, as a step of its own. A credential that is imported
-- with a reference to the own list, and one that is issued with an index given by hand, name any index,
-- and are not steps of it. Loading a state that was saved is not a step either.
--
-- Not modelled: cryptography, X.509, XML and CBOR (signatures, tokens, certificate chains, the parsing of
-- credentials), the HTTP exchanges of issuance and presentation, files and SQL, the command line, the web
-- interface and the demo services, whose code is mostly calls of libraries. NextStatusIndex is the one
-- without a shared backend.
--
-- The fuel of `Credtype.chain` is two more than the types it starts with: only the base PID type can be
-- added, once.
pub mod Base
pub mod Background
pub mod Consent
pub mod Credential
pub mod Credtype
pub mod Dcql
pub mod Deferred
pub mod Proxy
pub mod Requests
pub mod Status
pub mod Storage
