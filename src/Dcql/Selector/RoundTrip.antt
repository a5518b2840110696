-- ===== src/Dcql/Selector/RoundTrip.antt =====
-- Parsing the text form of a path gives the path back.
use eudi_dev.Base.{
  ◌>>=◌, ℕ, pos, ◌<◌, ◌^◌, Float64, truncate, is_integral, Text, codes, text_eq, decimal,
  atoi-decimal, decimal-IsDigit, decimal-ne-nil, IsDigit, true, false, Option, none, some, List, [],
  ◌∷◌, ◌++◌, is_empty, All, map, ◌≡◌, ◌≢◌, refl, sym, ap, ◌∙◌, arith, append_assoc, append-nil,
  lt→ltb, if◌then◌else◌,
}
use eudi_dev.Dcql.Value.{Value, null, str, num, int}
use eudi_dev.Dcql.Selector.{
  format_float, segment_text, path_text, claim_path_string, Scan, flush_name, close_bracket,
  scan_char, scan_all, finish_scan, start_scan, parse_sdjwt_selector,
}

abbrev pub IsNameChar : ℕ → Type 0
IsNameChar c = (c ≢ b'.') × (c ≢ b'[')

-- A claim name that the selector syntax can hold: not empty, with no dot and no open bracket.
abbrev pub IsPlainName : Text → Type 0
IsPlainName k = (k ≢ []) × All IsNameChar k

-- A JSON number that is an index below 2^53.
pub record IsIndex (f : Float64) : Type 0 where
  pub index : ℕ
  pub value : truncate f ≡ pos index
  pub integral : is_integral f ≡ true
  pub small : index < 2 ^ 53

-- A segment of a claims path pointer (§7).
abbrev pub IsPointerSegment : Value → Type 0
IsPointerSegment (str k) = IsPlainName k
IsPointerSegment null = Unit
IsPointerSegment (num f) = IsIndex f
IsPointerSegment _ = ⊥

-- The parser returns an index as an `int`.
abbrev pub selector_segment : Value → Value
selector_segment (num f) = int (truncate f)
selector_segment v = v

abbrev at_name : List Value → Text → Scan
at_name path name = record { path = path; name = name; bracket = none }

abbrev in_bracket : List Value → Text → Scan
in_bracket path content = record { path = path; name = []; bracket = some content }

scan_all-append :
    (s : Scan) (xs ys : Text) → scan_all s (xs ++ ys) ≡ (scan_all s xs >>= λ next. scan_all next ys)
unfolding scan_all
scan_all-append s [] ys = refl
scan_all-append s (c ∷ xs) ys = bind-append (scan_char s c) (λ next. scan_all-append next xs ys)
  where
    bind-append :
        (o : Option Scan)
        → ((next : Scan) → scan_all next (xs ++ ys) ≡ (scan_all next xs >>= λ n. scan_all n ys))
        → (o >>= λ next. scan_all next (xs ++ ys))
          ≡ ((o >>= λ next. scan_all next xs) >>= λ n. scan_all n ys)
    bind-append none h = refl
    bind-append (some n) h = h n

scan_name :
    (path : List Value) (name k : Text)
    → All IsNameChar k
    → scan_all (at_name path name) k ≡ some (at_name path (name ++ k))
unfolding scan_all scan_char
scan_name path name [] h = ap (λ n. some (at_name path n)) (sym (append-nil name))
scan_name path name (c ∷ k) (p, h) =
    ground (arith, scan_name path (name ++ c ∷ []) k h, append_assoc name (c ∷ []) k)

scan_content :
    (path : List Value) (content k : Text)
    → All (λ c. c ≢ b']') k
    → scan_all (in_bracket path content) k ≡ some (in_bracket path (content ++ k))
unfolding scan_all scan_char
scan_content path content [] h = ap (λ n. some (in_bracket path n)) (sym (append-nil content))
scan_content path content (c ∷ k) (p, h) =
    ground (arith, scan_content path (content ++ c ∷ []) k h, append_assoc content (c ∷ []) k)

-- The path once a pending name is flushed.
abbrev path_after : List Value → Text → List Value
path_after path name = if is_empty name then path else path ++ str name ∷ []

scan_bracketed :
    (path : List Value) (name content : Text) (v : Value)
    → All (λ c. c ≢ b']') content
    → close_bracket (in_bracket (path_after path name) content) content
      ≡ some (at_name (path_after path name ++ v ∷ []) [])
    → scan_all (at_name path name) (b'[' ∷ (content ++ b']' ∷ []))
      ≡ some (at_name (path_after path name ++ v ∷ []) [])
unfolding scan_all scan_char flush_name
scan_bracketed path name content v h e = ground (
  arith,
  scan_all-append (in_bracket (path_after path name) []) content (b']' ∷ []),
  scan_content (path_after path name) [] content h,
)

digits_no_bracket : (t : Text) → All IsDigit t → All (λ c. c ≢ b']') t
digits_no_bracket [] h = tt
digits_no_bracket (c ∷ t) (p, h) = (ground arith, digits_no_bracket t h)

is_empty-of-ne : (t : Text) → t ≢ [] → is_empty t ≡ false
is_empty-of-ne [] h = absurd (h refl)
is_empty-of-ne (c ∷ t) h = refl

star_no_digit : (t : Text) → All IsDigit t → text_eq t (codes "*") ≡ false
unfolding text_eq
star_no_digit [] h = refl
star_no_digit (c ∷ t) (p, h) = ground arith

close_index :
    (path : List Value) (n : ℕ)
    → n < 2 ^ 53
    → close_bracket (in_bracket path (decimal n)) (decimal n)
      ≡ some (at_name (path ++ int (pos n) ∷ []) [])
unfolding close_bracket
close_index path n h = ground (
  arith,
  is_empty-of-ne (decimal n) (decimal-ne-nil n),
  star_no_digit (decimal n) (decimal-IsDigit n),
  atoi-decimal n (omega arith),
)

format_index :
    (g : Float64 → Text) (f : Float64) (h : IsIndex f) → format_float g f ≡ decimal h.index
unfolding format_float
format_index g f h = rw (h.value, format_float) (rw h.integral (rw (lt→ltb _ _ h.small) refl))

module _ (g : Float64 → Text) (path : List Value) (name : Text) where
  scan_str :
      (k : Text)
      → IsPlainName k
      → is_empty (path_after path name) ≡ false
      → scan_all (at_name path name) (segment_text g false (str k))
        ≡ some (at_name (path_after path name) k)
  unfolding segment_text scan_all scan_char flush_name
  scan_str k h e = ground (arith, scan_name (path_after path name) [] k h.1)

  scan_null :
      scan_all (at_name path name) (segment_text g false null)
      ≡ some (at_name (path_after path name ++ null ∷ []) [])
  unfolding segment_text close_bracket text_eq
  scan_null = scan_bracketed path name (codes "*") null (ground arith, tt) refl

  scan_num :
      (f : Float64)
      → IsIndex f
      → scan_all (at_name path name) (segment_text g false (num f))
        ≡ some (at_name (path_after path name ++ int (truncate f) ∷ []) [])
  unfolding segment_text
  scan_num f h = rw (format_index g f h) (
      rw h.value (
        scan_bracketed path name (decimal h.index) (int (pos h.index))
          (digits_no_bracket (decimal h.index) (decimal-IsDigit h.index))
          (close_index (path_after path name) h.index h.small)))

is_empty-snoc : (xs : List Value) (v : Value) → is_empty (xs ++ v ∷ []) ≡ false
is_empty-snoc [] v = refl
is_empty-snoc (x ∷ xs) v = refl

path_after-name : (path : List Value) (k : Text) → k ≢ [] → path_after path k ≡ path ++ str k ∷ []
path_after-name path [] h = absurd (h refl)
path_after-name path (c ∷ k) h = refl

snoc-append :
    (path : List Value) (v : Value) (rest : List Value)
    → (path ++ v ∷ []) ++ rest ≡ path ++ v ∷ rest
snoc-append path v rest = append_assoc path (v ∷ []) rest

module _ (g : Float64 → Text) where
  scan_step :
      (s t : Scan) (segment : Value) (rest out : List Value)
      → scan_all s (segment_text g false segment) ≡ some t
      → (scan_all t (path_text g false rest) >>= finish_scan) ≡ some out
      → (scan_all s (path_text g false (segment ∷ rest)) >>= finish_scan) ≡ some out
  unfolding path_text
  scan_step s t segment rest out h k =
      rw (scan_all-append s (segment_text g false segment) (path_text g false rest)) (rw h k)

  -- Scanning the text of further segments adds them to the path.
  scan_path :
      (path : List Value) (name : Text) (rest : List Value)
      → All IsPointerSegment rest
      → is_empty (path_after path name) ≡ false
      → (scan_all (at_name path name) (path_text g false rest) >>= finish_scan)
        ≡ some (path_after path name ++ map selector_segment rest)
  scan_path path name [] h e =
      unfold path_text scan_all finish_scan flush_name in
      ground (arith, append-nil (path_after path name))
  scan_path path name (str k ∷ rest) (p, h) e =
      scan_step _ _ (str k) rest _ (scan_str g path name k p e) (
        scan_path (path_after path name) k rest h (
          rw (path_after-name (path_after path name) k p.0)
            (is_empty-snoc (path_after path name) (str k)))
        ∙ ap some (
            rw (path_after-name (path_after path name) k p.0)
              (snoc-append (path_after path name) (str k) (map selector_segment rest))))
  scan_path path name (null ∷ rest) (_, h) e = scan_step _ _ null rest _ (scan_null g path name) (
      scan_path (path_after path name ++ null ∷ []) [] rest h
        (is_empty-snoc (path_after path name) null)
      ∙ ap some (snoc-append (path_after path name) null (map selector_segment rest)))
  scan_path path name (num f ∷ rest) (p, h) e =
      scan_step _ _ (num f) rest _ (scan_num g path name f p) (
        scan_path (path_after path name ++ int (truncate f) ∷ []) [] rest h
          (is_empty-snoc (path_after path name) (int (truncate f)))
        ∙ ap some
            (snoc-append (path_after path name) (int (truncate f)) (map selector_segment rest)))
  scan_path path name (_ ∷ rest) (p, h) e = elim p [ ]

  parse_of_scan :
      (t : Text) (out : List Value)
      → t ≢ []
      → (scan_all start_scan t >>= finish_scan) ≡ some out
      → parse_sdjwt_selector t ≡ some out
  unfolding parse_sdjwt_selector
  parse_of_scan [] out h e = absurd (h refl)
  parse_of_scan (c ∷ t) out h e = e

  append-ne-nil : (k t : Text) → k ≢ [] → k ++ t ≢ []
  append-ne-nil [] t h = absurd (h refl)
  append-ne-nil (c ∷ k) t h = cc

  -- A path that starts at a key, whose names are not empty and hold no dot and no open bracket, and whose
  -- indexes are below 2^53, is read back from its text form, with each index as an `int`.
  pub parse-claim_path_string :
      (k : Text) (rest : List Value)
      → IsPlainName k
      → All IsPointerSegment rest
      → parse_sdjwt_selector (claim_path_string g (str k ∷ rest))
        ≡ some (str k ∷ map selector_segment rest)
  unfolding claim_path_string path_text segment_text
  parse-claim_path_string k rest p h =
      parse_of_scan _ _ (append-ne-nil k (path_text g false rest) p.0) (
        rw (scan_all-append start_scan k (path_text g false rest)) (
          rw (scan_name [] [] k p.1) (
            scan_path [] k rest h (rw (path_after-name [] k p.0) refl)
            ∙ ap some (rw (path_after-name [] k p.0) refl))))
