-- ===== src/MailAuth/Dmarc.antt =====
-- DMARC: crates/sentio-auth/src/dmarc.rs.
pub mod Alignment
use sentio.Common.{
  ℕ, ◌^◌, Bool, true, false, not, ◌||◌, ◌&&◌, List, [], ◌∷◌, ◌++◌, Option, none, some, map,
  if◌then◌else◌, Result, ok, err, ◌>>=◌, ok_or,
}
use sentio.Common.Text.{
  Text, codes, same, is_empty, trim, split, split_once, rsplit_once, starts_with, parse_unsigned,
}
use sentio.Core.Error.{SentioError, auth}
use sentio.MailAuth.Types.{
  SpfVerifyOutput, spf_passed, DkimSignatureResult, DkimVerifyOutput, dkim_passed, Answer, txt,
  other, MailAuthDeps,
}

pub data DmarcVerifyResult : Type 0 where
  pass fail temp_error perm_error no_result : DmarcVerifyResult

pub data DmarcPolicy : Type 0 where
  no_policy quarantine reject : DmarcPolicy

pub data DmarcAlignment : Type 0 where
  relaxed strict : DmarcAlignment

pub record DmarcRecord : Type 0 where
  pub policy : DmarcPolicy
  pub subdomain_policy : Option DmarcPolicy
  pub dkim_alignment : DmarcAlignment
  pub spf_alignment : DmarcAlignment
  pub pct : ℕ
  pub rua : List Text
  pub ruf : List Text

pub record DmarcVerifyOutput : Type 0 where
  pub result : DmarcVerifyResult
  pub domain : Text
  pub policy : DmarcPolicy
  pub dkim_aligned : Bool
  pub spf_aligned : Bool
  pub dmarc_record : Option DmarcRecord

-- The variables of `parse_dmarc_record`.
pub record RecordSoFar : Type 0 where
  pub policy : Option DmarcPolicy
  pub subdomain_policy : Option DmarcPolicy
  pub dkim_alignment : DmarcAlignment
  pub spf_alignment : DmarcAlignment
  pub pct : ℕ
  pub rua : List Text
  pub ruf : List Text
  pub has_version : Bool

abbrev pub no_tags : RecordSoFar
no_tags = record {
  policy = none;
  subdomain_policy = none;
  dkim_alignment = relaxed;
  spf_alignment = relaxed;
  pct = 100;
  rua = [];
  ruf = [];
  has_version = false;
}

-- `split(',')` with every piece trimmed.
unfoldable pub addresses : (value : Text) → List Text
addresses value = map trim (split b',' value)

unfoldable pub finish_record : RecordSoFar → Result SentioError DmarcRecord
finish_record so_far =
    if not so_far.has_version
    then err (auth (codes "DMARC record missing v=DMARC1"))
    else (ok_or so_far.policy (auth (codes "DMARC record missing required p= tag")) >>= (λ policy.
        ok (record {
          policy = policy;
          subdomain_policy = so_far.subdomain_policy;
          dkim_alignment = so_far.dkim_alignment;
          spf_alignment = so_far.spf_alignment;
          pct = so_far.pct;
          rua = so_far.rua;
          ruf = so_far.ruf;
        })))

-- `&domain[pos + 1..]`, behind the last dot but one.
unfoldable pub org_domain : (domain : Text) → Text
org_domain domain = elim (rsplit_once b'.' domain) [
  | none ↦ domain
  | some (front, label) ↦ elim (rsplit_once b'.' front) [
    | none ↦ domain
    | some (rest, name) ↦ name ++ (b'.' ∷ label)
  ]
]

module _ (to_lowercase : Text → Text) where
  unfoldable pub parse_policy : (value : Text) → Result SentioError DmarcPolicy
  parse_policy value =
      if same (to_lowercase value) (codes "none")
      then ok no_policy
      else if same (to_lowercase value) (codes "quarantine")
      then ok quarantine
      else if same (to_lowercase value) (codes "reject")
      then ok reject
      else err (auth (codes "invalid DMARC policy: " ++ value))

  unfoldable pub parse_alignment : (value : Text) → Result SentioError DmarcAlignment
  parse_alignment value =
      if same (to_lowercase value) (codes "r")
      then ok relaxed
      else if same (to_lowercase value) (codes "s")
      then ok strict
      else err (auth (codes "invalid DMARC alignment: " ++ value))

  -- One tag, by its key.
  unfoldable pub record_tag : RecordSoFar → (key value : Text) → Result SentioError RecordSoFar
  record_tag so_far key value =
      if same key (codes "v")
      then if not (same value (codes "DMARC1"))
        then err (auth (codes "unsupported DMARC version: " ++ value))
        else ok (record so_far { has_version = true })
      else if same key (codes "p")
      then parse_policy value >>= (λ policy. ok (record so_far { policy = some policy }))
      else if same key (codes "sp")
      then parse_policy value >>= (λ policy. ok (record so_far { subdomain_policy = some policy }))
      else if same key (codes "adkim")
      then parse_alignment value
        >>= (λ alignment. ok (record so_far { dkim_alignment = alignment }))
      else if same key (codes "aspf")
      then parse_alignment value >>= (λ alignment. ok (record so_far { spf_alignment = alignment }))
      else if same key (codes "pct")
      then ok_or (parse_unsigned (2 ^ 8) value) (auth (codes "invalid DMARC pct: " ++ value))
        >>= (λ pct. ok (record so_far { pct = pct }))
      else if same key (codes "rua")
      then ok (record so_far { rua = addresses value })
      else if same key (codes "ruf")
      then ok (record so_far { ruf = addresses value })
      else ok so_far

  unfoldable pub record_part : RecordSoFar → (part : Text) → Result SentioError RecordSoFar
  record_part so_far part =
      if is_empty (trim part)
      then ok so_far
      else (ok_or (split_once b'=' (trim part)) (auth (codes "invalid DMARC tag: " ++ trim part))
          >>= (λ (key, value). record_tag so_far (to_lowercase (trim key)) (trim value)))

  unfoldable pub record_parts : RecordSoFar → List Text → Result SentioError RecordSoFar
  record_parts so_far [] = ok so_far
  record_parts so_far (part ∷ parts) = record_part so_far part >>= (λ next. record_parts next parts)

  unfoldable pub parse_dmarc_record : Text → Result SentioError DmarcRecord
  parse_dmarc_record record_text =
      record_parts no_tags (split b';' (trim record_text)) >>= finish_record

  unfoldable pub domains_aligned : (d1 d2 : Text) → DmarcAlignment → Bool
  domains_aligned d1 d2 strict = same (to_lowercase d1) (to_lowercase d2)
  domains_aligned d1 d2 relaxed = same (org_domain (to_lowercase d1)) (org_domain (to_lowercase d2))

  unfoldable pub any_aligned :
      (from_domain : Text) → DmarcAlignment → List DkimSignatureResult → Bool
  any_aligned from_domain alignment [] = false
  any_aligned from_domain alignment (sig ∷ signatures) =
      (dkim_passed sig.result && domains_aligned sig.domain from_domain alignment)
      || any_aligned from_domain alignment signatures

  abbrev pub result_of : (dkim_aligned spf_aligned : Bool) → DmarcVerifyResult
  result_of dkim_aligned spf_aligned = if dkim_aligned || spf_aligned then pass else fail

  unfoldable pub evaluate_alignment_inner :
      (from_domain spf_domain : Text)
      → DkimVerifyOutput
      → SpfVerifyOutput
      → Option DmarcRecord
      → DmarcVerifyOutput
  evaluate_alignment_inner from_domain spf_domain dkim_output spf_output none = record {
    result = no_result;
    domain = from_domain;
    policy = no_policy;
    dkim_aligned = false;
    spf_aligned = false;
    dmarc_record = none;
  }
  evaluate_alignment_inner from_domain spf_domain dkim_output spf_output (some r) =
      let dkim = any_aligned from_domain r.dkim_alignment dkim_output.signatures in
      let spf =
        spf_passed spf_output.result && domains_aligned spf_domain from_domain r.spf_alignment in
      record {
        result = result_of dkim spf;
        domain = from_domain;
        policy = r.policy;
        dkim_aligned = dkim;
        spf_aligned = spf;
        dmarc_record = some r;
      }

  -- The first answer that parses; the others are skipped.
  unfoldable pub first_record : List Answer → Option DmarcRecord
  first_record [] = none
  first_record (other ∷ answers) = first_record answers
  first_record (txt value ∷ answers) =
      let rest = first_record answers in
      if starts_with (codes "v=DMARC1") value
      then elim (parse_dmarc_record value) [ ok r ↦ some r | err e ↦ rest ]
      else rest

module _ (d : MailAuthDeps) where
  unfoldable pub try_parse_dmarc_txt : (name : Text) → Option DmarcRecord
  try_parse_dmarc_txt name = elim (d.txt_lookup name) [
    | ok answers ↦ first_record d.to_lowercase answers
    | err e ↦ none
  ]

  -- At the domain, and then at its organizational domain.
  unfoldable pub lookup_dmarc_record : (domain : Text) → Option DmarcRecord
  lookup_dmarc_record domain = elim (try_parse_dmarc_txt (codes "_dmarc." ++ domain)) [
    | some r ↦ some r
    | none ↦
        if same (org_domain domain) domain
        then none
        else try_parse_dmarc_txt (codes "_dmarc." ++ org_domain domain)
  ]

  unfoldable pub verify_dmarc :
      (from_domain spf_domain : Text)
      → DkimVerifyOutput
      → SpfVerifyOutput
      → Result SentioError DmarcVerifyOutput
  verify_dmarc from_domain spf_domain dkim_output spf_output = ok (
      evaluate_alignment_inner d.to_lowercase from_domain spf_domain dkim_output spf_output
        (lookup_dmarc_record from_domain))
