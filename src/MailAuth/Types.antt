-- ===== src/MailAuth/Types.antt =====
-- The results of SPF and DKIM (spf.rs and dkim.rs of crates/sentio-auth/src), and the answers of DNS.
use sentio.Common.{Bool, true, false, ◌||◌, List, [], ◌∷◌, Option, Result}
use sentio.Common.Text.{Text}

pub data SpfVerifyResult : Type 0 where
  spf_pass spf_fail spf_soft_fail spf_neutral spf_temp_error spf_perm_error spf_none :
      SpfVerifyResult

pub record SpfVerifyOutput : Type 0 where
  pub result : SpfVerifyResult
  pub domain : Text
  pub explanation : Option Text

abbrev pub spf_passed : SpfVerifyResult → Bool
spf_passed spf_pass = true
spf_passed spf_fail = false
spf_passed spf_soft_fail = false
spf_passed spf_neutral = false
spf_passed spf_temp_error = false
spf_passed spf_perm_error = false
spf_passed spf_none = false

pub data DkimVerifyResult : Type 0 where
  dkim_pass dkim_neutral dkim_fail dkim_perm_error dkim_temp_error dkim_none : DkimVerifyResult

pub record DkimSignatureResult : Type 0 where
  pub result : DkimVerifyResult
  pub domain : Text
  pub selector : Text
  pub algorithm : Text

pub record DkimVerifyOutput : Type 0 where
  pub signatures : List DkimSignatureResult

abbrev pub dkim_passed : DkimVerifyResult → Bool
dkim_passed dkim_pass = true
dkim_passed dkim_neutral = false
dkim_passed dkim_fail = false
dkim_passed dkim_perm_error = false
dkim_passed dkim_temp_error = false
dkim_passed dkim_none = false

unfoldable pub any_pass : List DkimSignatureResult → Bool
any_pass [] = false
any_pass (s ∷ signatures) = dkim_passed s.result || any_pass signatures

unfoldable pub has_pass : DkimVerifyOutput → Bool
has_pass output = any_pass output.signatures

-- A record in an answer of DNS.
pub data Answer : Type 0 where
  txt : Text → Answer
  other : Answer

-- The answer of a web server: whether the status is a success, and the body, or an error.
pub record Response : Type 0 where
  pub is_success : Bool
  pub text : Result Text Text

-- What the checks are given: lower case by Unicode, the lookup of TXT records, and the HTTP client, with
-- their errors by their texts.
pub record MailAuthDeps : Type 0 where
  pub to_lowercase : Text → Text
  pub txt_lookup : Text → Result Text (List Answer)
  pub build_client : Result Text (Unit {0})
  pub get : (url : Text) → Result Text Response
