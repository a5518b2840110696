-- ===== src/Requests/Sound.antt =====
-- The invariant of the steps: what holds of a request, its flow and its handlers together.
use eudi_dev.Base.{
  ℕ, ◌<◌, Text, text_eq, text_eq_iff, lookup, insert, Bool, true, false, none, some, Bool-cases,
  List, [], ◌∷◌, keep_if, All, ◌≡◌, refl, ap, inl, inr, arith,
}
use eudi_dev.Requests.{
  pending, expired, is_pending, Decision, ConsentRequest, Runtime, Waiter, selecting, committed,
  returned,
}
use eudi_dev.Requests.Steps.{status_of, is_waiting}

-- A request with its flow and the results not sent yet: undecided, or with one result on its way
-- to the flow, or at an end that the status names.
pub data IsCoherent (r : ConsentRequest) (w : Waiter) (s : List Decision) : Type 0 where
  undecided : r.status ≡ pending → r.result_ch ≡ [] → s ≡ [] → w ≡ selecting → IsCoherent r w s
  in_flight :
      (d : Decision)
      → r.status ≡ status_of d
      → r.result_ch ≡ []
      → s ≡ d ∷ []
      → is_waiting w ≡ true
      → IsCoherent r w s
  buffered :
      (d : Decision)
      → r.status ≡ status_of d
      → r.result_ch ≡ d ∷ []
      → s ≡ []
      → is_waiting w ≡ true
      → IsCoherent r w s
  delivered :
      (d : Decision)
      → r.status ≡ status_of d
      → r.result_ch ≡ []
      → s ≡ []
      → w ≡ returned (some d)
      → IsCoherent r w s
  lapsed : r.status ≡ expired → r.result_ch ≡ [] → s ≡ [] → w ≡ returned none → IsCoherent r w s

pub status_of-not_pending : (d : Decision) → is_pending (status_of d) ≡ false
status_of-not_pending d = ground arith

pub IsCoherent-resolve :
    (r : ConsentRequest) (w : Waiter) (s : List Decision) (d : Decision)
    → is_pending r.status ≡ true
    → IsCoherent r w s
    → IsCoherent (record r { status = status_of d }) w (d ∷ s)
IsCoherent-resolve r w s d p (undecided a b c e) =
    in_flight d refl b (ap (λ x. d ∷ x) c) (ap is_waiting e)
IsCoherent-resolve r w s d p (in_flight d' a b c e) =
    absurd (ground (arith, status_of-not_pending d'))
IsCoherent-resolve r w s d p (buffered d' a b c e) =
    absurd (ground (arith, status_of-not_pending d'))
IsCoherent-resolve r w s d p (delivered d' a b c e) =
    absurd (ground (arith, status_of-not_pending d'))
IsCoherent-resolve r w s d p (lapsed a b c e) = absurd (ground arith)

pub IsCoherent-send :
    (r : ConsentRequest) (w : Waiter) (s ds : List Decision) (d : Decision)
    → s ≡ d ∷ ds
    → IsCoherent r w s
    → IsCoherent (record r { result_ch = d ∷ [] }) w ds
IsCoherent-send r w s ds d q (undecided a b c e) = absurd (cc)
IsCoherent-send r w s ds d q (in_flight d' a b c e) =
    buffered d (ground (arith, a, c, q)) refl (ground (arith, c, q)) e
IsCoherent-send r w s ds d q (buffered d' a b c e) = absurd (cc)
IsCoherent-send r w s ds d q (delivered d' a b c e) = absurd (cc)
IsCoherent-send r w s ds d q (lapsed a b c e) = absurd (cc)

pub IsCoherent-receive :
    (r : ConsentRequest) (w : Waiter) (s ds : List Decision) (d : Decision)
    → r.result_ch ≡ d ∷ ds
    → IsCoherent r w s
    → IsCoherent (record r { result_ch = ds }) (returned (some d)) s
IsCoherent-receive r w s ds d q (undecided a b c e) = absurd (cc)
IsCoherent-receive r w s ds d q (in_flight d' a b c e) = absurd (cc)
IsCoherent-receive r w s ds d q (buffered d' a b c e) =
    delivered d (ground (arith, a, b, q)) (ground (arith, b, q)) c refl
IsCoherent-receive r w s ds d q (delivered d' a b c e) = absurd (cc)
IsCoherent-receive r w s ds d q (lapsed a b c e) = absurd (cc)

pub IsCoherent-expire :
    (r : ConsentRequest) (w : Waiter) (s : List Decision)
    → is_pending r.status ≡ true
    → IsCoherent r w s
    → IsCoherent (record r { status = expired }) (returned none) s
IsCoherent-expire r w s p (undecided a b c e) = lapsed refl b c refl
IsCoherent-expire r w s p (in_flight d' a b c e) = absurd (ground (arith, status_of-not_pending d'))
IsCoherent-expire r w s p (buffered d' a b c e) = absurd (ground (arith, status_of-not_pending d'))
IsCoherent-expire r w s p (delivered d' a b c e) = absurd (ground (arith, status_of-not_pending d'))
IsCoherent-expire r w s p (lapsed a b c e) = absurd (ground arith)

-- A flow that finds its request decided waits on for the result.
pub IsCoherent-commit :
    (r : ConsentRequest) (w : Waiter) (s : List Decision)
    → is_pending r.status ≡ false
    → w ≡ selecting
    → IsCoherent r w s
    → IsCoherent r committed s
IsCoherent-commit r w s p h (undecided a b c e) = absurd (ground arith)
IsCoherent-commit r w s p h (in_flight d' a b c e) = in_flight d' a b c refl
IsCoherent-commit r w s p h (buffered d' a b c e) = buffered d' a b c refl
IsCoherent-commit r w s p h (delivered d' a b c e) = absurd (cc)
IsCoherent-commit r w s p h (lapsed a b c e) = absurd (cc)

-- What a registered pointer is.
abbrev pub IsListed : Runtime → Text × ℕ → Type 0
IsListed rt entry = (entry.1 < rt.next) × ((rt.heap entry.1).id ≡ entry.0)

pub All-insert :
    (rt : Runtime) (id : Text) (a : ℕ) (m : List (Text × ℕ))
    → IsListed rt (id, a)
    → All (IsListed rt) m
    → All (IsListed rt) (insert id a m)
unfolding insert
All-insert rt id a [] h hs = (h, tt)
All-insert rt id a ((j, b) ∷ m) h (q, hs) = elim (Bool-cases (text_eq j id)) [
  | inl e ↦ rw e (h, hs)
  | inr e ↦ rw e (q, All-insert rt id a m h hs)
]

pub All-imp :
    (rt after : Runtime) (m : List (Text × ℕ))
    → ((entry : Text × ℕ) → IsListed rt entry → IsListed after entry)
    → All (IsListed rt) m
    → All (IsListed after) m
All-imp rt after [] imp h = tt
All-imp rt after (entry ∷ m) imp (q, h) = (imp entry q, All-imp rt after m imp h)

pub lookup-IsListed :
    (rt : Runtime) (id : Text) (a : ℕ) (m : List (Text × ℕ))
    → All (IsListed rt) m
    → lookup id m ≡ some a
    → IsListed rt (id, a)
unfolding lookup
lookup-IsListed rt id a [] h e = cc
lookup-IsListed rt id a ((j, b) ∷ m) (q, h) e = elim (Bool-cases (text_eq j id)) [
  | inl p ↦ ground (arith, text_eq_iff j id)
  | inr p ↦ lookup-IsListed rt id a m h (ground arith)
]

pub lookup-keep_if :
    (p : Text × ℕ → Bool) (id : Text) (a : ℕ) (m : List (Text × ℕ))
    → lookup id m ≡ some a
    → p (id, a) ≡ true
    → lookup id (keep_if p m) ≡ some a
unfolding lookup
lookup-keep_if p id a [] e h = e
lookup-keep_if p id a ((j, b) ∷ m) e h = elim (Bool-cases (text_eq j id)) [
  | inl q ↦ ground (arith, text_eq_iff j id)
  | inr q ↦ ground (arith, lookup-keep_if p id a m)
]
