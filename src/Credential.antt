-- ===== src/Credential.antt =====
-- internal/wallet/wallet.go: the stored credential, with the fields that the modelled parts read.
pub mod Resolve
use eudi_dev.Base.{ℕ, Text, Bool, List, codes, text_eq}
use eudi_dev.Dcql.Value.{Value}

pub record StoredCredential : Type 0 where
  pub id : Text
  pub format : Text
  pub raw : Text
  pub claims : List (Text × Value)
  pub vct : Text
  pub doc_type : Text
  pub protected : Bool
  pub batch_group : Text
  pub uses : ℕ

abbrev pub mso_mdoc : Text
mso_mdoc = codes "mso_mdoc"

abbrev pub dc_sd_jwt : Text
dc_sd_jwt = codes "dc+sd-jwt"

-- `cred.Format == "mso_mdoc"`.
unfoldable pub is_mdoc : StoredCredential → Bool
is_mdoc cred = text_eq cred.format mso_mdoc
