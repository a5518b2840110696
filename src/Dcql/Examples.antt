-- ===== src/Dcql/Examples.antt =====
-- A wallet, credentials and queries that the tests evaluate.
use eudi_dev.Base.{pos, Float64, dyadic, Text, codes, Bool, true, false, none, List, [], ◌∷◌}
use eudi_dev.Credential.{StoredCredential}
use eudi_dev.Dcql.Value.{Value, str, num, arr, obj, to_items}
use eudi_dev.Dcql.Claims.{Object, to_fields}
use eudi_dev.Dcql.Match.{ValidationMode, Reader}
use eudi_dev.Dcql.Evaluate.{Wallet}

-- An object of a query: pairs of a key and a value.
abbrev pub object : Object → Value
object m = obj (to_fields m)

abbrev pub array : List Value → Value
array vs = arr (to_items vs)

abbrev pub text : Text → Value
text t = str t

-- A credential with an address and two nationalities.
abbrev pub person : StoredCredential
person = record {
  id = codes "c1";
  format = codes "dc+sd-jwt";
  raw = [];
  claims =
      (codes "given_name", str (codes "Ann"))
      ∷ (codes "address", object ((codes "locality", str (codes "Bonn")) ∷ []))
      ∷ (codes "nationalities", array (str (codes "DE") ∷ str (codes "FR") ∷ []))
      ∷ [];
  vct = codes "urn:eudi:pid:1";
  doc_type = [];
  protected = false;
  batch_group = [];
  uses = 0;
}

-- The same person, issued as an mdoc.
abbrev pub licence : StoredCredential
licence = record {
  id = codes "m1";
  format = codes "mso_mdoc";
  raw = [];
  claims = (codes "ns:name", str (codes "Ann")) ∷ [];
  vct = [];
  doc_type = codes "mdl";
  protected = false;
  batch_group = [];
  uses = 0;
}

-- No number of the tests needs `strconv.FormatFloat`, and no certificate is read.
abbrev pub plain_format : Float64 → Text
plain_format f = []

abbrev pub no_empty_array : StoredCredential → List Value → Bool
no_empty_array cred path = false

abbrev pub test_reader : Reader
test_reader = record {
  format_other = plain_format;
  discloses_empty_array = no_empty_array;
  holder_bound = λ cred. true;
  certificates = record { authority_keys = λ cred. none; chain_anchored = λ cred url. false };
}

abbrev pub wallet_in : ValidationMode → Wallet
wallet_in mode = record {
  credentials = person ∷ licence ∷ [];
  mode = mode;
  preferred_format = [];
  reader = test_reader;
  issued_at = λ cred. none;
  list_findings = λ entries. false;
  pick = λ is n. 0;
  pick_other = λ is n. 0;
}

-- `["nationalities", 1]`.
abbrev pub second_nationality : List Value
second_nationality = num (dyadic (pos 1) 0) ∷ []

abbrev pub name_claim : Value
name_claim = object (
    (codes "id", str (codes "n"))
    ∷ (codes "path", array (str (codes "given_name") ∷ []))
    ∷ (codes "values", array (str (codes "Ann") ∷ []))
    ∷ [])

abbrev pub locality_claim : Value
locality_claim = object (
    (codes "id", str (codes "l"))
    ∷ (codes "path", array (str (codes "address") ∷ str (codes "locality") ∷ []))
    ∷ [])

-- The query that `person` answers.
abbrev pub person_query : Object
person_query =
    (codes "id", str (codes "pid"))
    ∷ (codes "format", str (codes "dc+sd-jwt"))
    ∷ (codes "meta", object ((codes "vct_values", array (str (codes "urn:eudi:pid:1") ∷ [])) ∷ []))
    ∷ (codes "claims", array (name_claim ∷ locality_claim ∷ []))
    ∷ []

-- The query with two claim sets, the first of which names an unknown claim.
abbrev pub choice_query : Object
choice_query =
    (codes "claim_sets", array (array (str (codes "x") ∷ []) ∷ array (str (codes "l") ∷ []) ∷ []))
    ∷ person_query

abbrev pub request : Object
request = (codes "credentials", array (object person_query ∷ [])) ∷ []

-- The request with one required credential set.
abbrev pub set_of_options : Value
set_of_options = object ((codes "options", array (array (str (codes "pid") ∷ []) ∷ [])) ∷ [])

abbrev pub set_request : Object
set_request = (codes "credential_sets", array (set_of_options ∷ [])) ∷ request
