-- ===== src/MailAuth/MtaSts.antt =====
-- MTA-STS: crates/sentio-auth/src/mta_sts.rs.
pub mod Entries
pub mod Policies
pub mod Patterns
use sentio.Common.{
  ℕ, ◌^◌, Bool, true, false, not, ◌||◌, List, [], ◌∷◌, ◌++◌, Option, none, some, if◌then◌else◌,
  Result, ok, err, ◌>>=◌, ◌>>◌, ok_or,
}
use sentio.Common.Text.{
  Text, codes, same, is_empty, trim, split, split_once, strip_prefix, parse_unsigned,
}
use sentio.Common.Text.Lines.{lines, ends_with, contains_text}
use sentio.Core.Error.{SentioError, auth}
use sentio.MailAuth.Types.{Answer, txt, other, Response, MailAuthDeps}

pub data MtaStsMode : Type 0 where
  enforce testing no_mode : MtaStsMode

pub record MtaStsPolicy : Type 0 where
  pub version : Text
  pub mode : MtaStsMode
  pub mx : List Text
  pub max_age : ℕ

pub record MtaStsLookupOutput : Type 0 where
  pub policy_id : Option Text
  pub policy : Option MtaStsPolicy

-- The variables of `parse_mta_sts_policy`.
pub record PolicySoFar : Type 0 where
  pub version : Option Text
  pub mode : Option MtaStsMode
  pub mx : List Text
  pub max_age : Option ℕ

abbrev pub no_policy : PolicySoFar
no_policy = record { version = none; mode = none; mx = []; max_age = none }

unfoldable pub finish_policy : PolicySoFar → Result SentioError MtaStsPolicy
finish_policy so_far = do
  version ← ok_or so_far.version (auth (codes "MTA-STS policy missing version"))
  mode ← ok_or so_far.mode (auth (codes "MTA-STS policy missing mode"))
  max_age ← ok_or so_far.max_age (auth (codes "MTA-STS policy missing max_age"))
  ok (record { version = version; mode = mode; mx = so_far.mx; max_age = max_age })

-- The first answer that has an id.
unfoldable pub parse_mta_sts_parts : List Text → Option Text
parse_mta_sts_parts [] = none
parse_mta_sts_parts (part ∷ parts) = elim (strip_prefix (codes "id=") (trim part)) [
  | some id ↦ some (trim id)
  | none ↦ parse_mta_sts_parts parts
]

unfoldable pub parse_mta_sts_txt : Text → Option Text
parse_mta_sts_txt record_text =
    if not (contains_text (codes "v=STSv1") (trim record_text))
    then none
    else parse_mta_sts_parts (split b';' (trim record_text))

unfoldable pub first_id : List Answer → Option Text
first_id [] = none
first_id (other ∷ answers) = first_id answers
first_id (txt t ∷ answers) = elim (parse_mta_sts_txt t) [
  | some id ↦ some id
  | none ↦ first_id answers
]

-- One pattern; `mx_lower` and `pat` are in lower case.
unfoldable pub matches_pattern : (mx_lower pat : Text) → Bool
matches_pattern mx_lower pat = elim (strip_prefix (codes "*.") pat) [
  | some suffix ↦ ends_with (b'.' ∷ suffix) mx_lower || same mx_lower suffix
  | none ↦ same mx_lower pat
]

module _ (to_lowercase : Text → Text) where
  unfoldable pub parse_mode : (value : Text) → Result SentioError MtaStsMode
  parse_mode value =
      if same (to_lowercase value) (codes "enforce")
      then ok enforce
      else if same (to_lowercase value) (codes "testing")
      then ok testing
      else if same (to_lowercase value) (codes "none")
      then ok no_mode
      else err (auth (codes "invalid MTA-STS mode: " ++ value))

  -- One entry, by its key.
  unfoldable pub policy_entry : PolicySoFar → (key value : Text) → Result SentioError PolicySoFar
  policy_entry so_far key value =
      if same key (codes "version")
      then if not (same value (codes "STSv1"))
        then err (auth (codes "unsupported MTA-STS version: " ++ value))
        else ok (record so_far { version = some value })
      else if same key (codes "mode")
      then parse_mode value >>= (λ mode. ok (record so_far { mode = some mode }))
      else if same key (codes "mx")
      then ok (record so_far { mx = so_far.mx ++ value ∷ [] })
      else if same key (codes "max_age")
      then ok_or (parse_unsigned (2 ^ 64) value) (auth (codes "invalid MTA-STS max_age: " ++ value))
        >>= (λ age. ok (record so_far { max_age = some age }))
      else ok so_far

  unfoldable pub policy_line : PolicySoFar → (line : Text) → Result SentioError PolicySoFar
  policy_line so_far line =
      if is_empty (trim line)
      then ok so_far
      else (ok_or (split_once b':' (trim line))
            (auth (codes "invalid MTA-STS policy line: " ++ trim line))
          >>= (λ (key, value). policy_entry so_far (to_lowercase (trim key)) (trim value)))

  unfoldable pub policy_lines : PolicySoFar → List Text → Result SentioError PolicySoFar
  policy_lines so_far [] = ok so_far
  policy_lines so_far (line ∷ more) = policy_line so_far line >>= (λ next. policy_lines next more)

  unfoldable pub parse_mta_sts_policy : Text → Result SentioError MtaStsPolicy
  parse_mta_sts_policy text = policy_lines no_policy (lines text) >>= finish_policy

  unfoldable pub matches_any : (mx_lower : Text) → List Text → Bool
  matches_any mx_lower [] = false
  matches_any mx_lower (pattern ∷ patterns) =
      matches_pattern mx_lower (to_lowercase pattern) || matches_any mx_lower patterns

  unfoldable pub matches_mx : MtaStsPolicy → (mx_host : Text) → Bool
  matches_mx policy mx_host = matches_any (to_lowercase mx_host) policy.mx

-- An error of the library, by its text, as an error of the crate.
abbrev pub map_err : {A : Type 0} → (Text → Text) → Result Text A → Result SentioError A
map_err f (ok a) = ok a
map_err f (err e) = err (auth (f e))

module _ (d : MailAuthDeps) where
  -- A policy that does not parse counts as none.
  abbrev pub parsed : Result SentioError MtaStsPolicy → Option MtaStsPolicy
  parsed (ok policy) = some policy
  parsed (err e) = none

  unfoldable pub with_response :
      (policy_id : Text) → Response → Result SentioError MtaStsLookupOutput
  with_response policy_id response =
      if not response.is_success
      then ok (record { policy_id = some policy_id; policy = none })
      else do
        body ← map_err (λ e. codes "failed to read MTA-STS policy body: " ++ e) response.text
        ok (record {
          policy_id = some policy_id;
          policy = parsed (parse_mta_sts_policy d.to_lowercase body);
        })

  unfoldable pub with_policy_id :
      (domain : Text) → Option Text → Result SentioError MtaStsLookupOutput
  with_policy_id domain none = ok (record { policy_id = none; policy = none })
  with_policy_id domain (some policy_id) = do
    map_err (λ e. codes "MTA-STS client build failed: " ++ e) d.build_client
    response ←
        map_err (λ e. codes "MTA-STS policy fetch failed for " ++ (domain ++ (codes ": " ++ e)))
          (d.get (codes "https://mta-sts." ++ (domain ++ codes "/.well-known/mta-sts.txt")))
    with_response policy_id response

  unfoldable pub fetch_mta_sts : (domain : Text) → Result SentioError MtaStsLookupOutput
  fetch_mta_sts domain = elim (d.txt_lookup (codes "_mta-sts." ++ domain)) [
    | ok answers ↦ with_policy_id domain (first_id answers)
    | err e ↦ ok (record { policy_id = none; policy = none })
  ]
