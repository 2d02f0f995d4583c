-- ===== src/MailAuth/Tests.antt =====
-- The checks of who sent a message at concrete inputs.
use sentio.Common.{
  [], ◌∷◌, none, some, ◌≡◌, ◌↔◌, ◌⊎◌, inl, inr, true, refl, arith, ok, err, false, if◌then◌else◌,
}
use sentio.Common.Text.{
  codes, is_whitespace, same, trim, trim_start, trim_end, split, split_once, rsplit_once, is_empty,
  starts_with,
}
use sentio.Common.Text.Lines.{to_ascii_lower, to_ascii_lowercase}
use sentio.MailAuth.Types.{
  spf_fail, SpfVerifyOutput, spf_passed, dkim_pass, DkimVerifyOutput, txt, MailAuthDeps,
}
use sentio.MailAuth.MtaSts.{MtaStsPolicy, enforce, parse_mta_sts_policy, matches_mx}
use sentio.MailAuth.MtaSts.Patterns.{AnyCovers, matches_mx_iff}
use sentio.MailAuth.MtaSts.Entries.{show_policy}
use sentio.MailAuth.MtaSts.Policies.{parse_mta_sts_policy-show_policy}
use sentio.MailAuth.Dmarc.{
  DmarcRecord, DmarcVerifyOutput, reject, relaxed, strict, pass, org_domain, lookup_dmarc_record,
  verify_dmarc, evaluate_alignment_inner, try_parse_dmarc_txt, first_record, parse_dmarc_record,
  record_parts, record_part, record_tag, parse_policy, parse_alignment, finish_record, any_aligned,
  domains_aligned,
}
use sentio.MailAuth.Dmarc.Alignment.{AnySigned, Agrees, verify_dmarc_pass_iff}

abbrev policy : MtaStsPolicy
policy = record {
  version = codes "STSv1";
  mode = enforce;
  mx = codes "mx.a.org" ∷ codes "*.b.org" ∷ [];
  max_age = 604800;
}

parse_mta_sts_policy-show_policy_example :
    parse_mta_sts_policy to_ascii_lowercase (show_policy policy) ≡ ok policy
unfolding is_whitespace
parse_mta_sts_policy-show_policy_example =
    parse_mta_sts_policy-show_policy to_ascii_lowercase (λ s h. refl) policy refl
      ((ground arith, λ e. cc), ((ground arith, λ e. cc), tt)) (omega arith)

matches_mx_iff_example :
    (matches_mx to_ascii_lowercase policy (codes "MX2.b.org") ≡ true)
    ↔ AnyCovers to_ascii_lowercase policy.mx (to_ascii_lowercase (codes "MX2.b.org"))
matches_mx_iff_example = matches_mx_iff to_ascii_lowercase policy (codes "MX2.b.org")

-- The domain itself matches a pattern that is for what is below it.
matches_bare_domain : matches_mx to_ascii_lowercase policy (codes "b.org") ≡ true
unfolding to_ascii_lowercase to_ascii_lower
matches_bare_domain =
    (matches_mx_iff to_ascii_lowercase policy (codes "b.org")).1
      (inr (inl (inr (codes "b.org", refl, inl refl))))

abbrev deps : MailAuthDeps
deps = record {
  to_lowercase = to_ascii_lowercase;
  txt_lookup = λ name.
      if same name (codes "_dmarc.a.org")
      then ok (txt (codes "v=DMARC1; p=reject; aspf=s") ∷ [])
      else err (codes "no records");
  build_client = ok tt;
  get = λ url. err (codes "no route");
}

abbrev signed : DkimVerifyOutput
signed = record {
  signatures =
      record {
        result = dkim_pass;
        domain = codes "mail.a.org";
        selector = codes "s";
        algorithm = codes "rsa-sha256";
      }
      ∷ [];
}

abbrev not_permitted : SpfVerifyOutput
not_permitted = record { result = spf_fail; domain = codes "a.org"; explanation = none }

abbrev a_record : DmarcRecord
a_record = record {
  policy = reject;
  subdomain_policy = none;
  dkim_alignment = relaxed;
  spf_alignment = strict;
  pct = 100;
  rua = [];
  ruf = [];
}

abbrev passed : DmarcVerifyOutput
passed = record {
  result = pass;
  domain = codes "News.a.org";
  policy = reject;
  dkim_aligned = true;
  spf_aligned = false;
  dmarc_record = some a_record;
}

a_record_found : lookup_dmarc_record deps (codes "News.a.org") ≡ some a_record
unfolding lookup_dmarc_record org_domain try_parse_dmarc_txt first_record parse_dmarc_record
    record_parts record_part record_tag parse_policy parse_alignment finish_record same trim
    trim_start trim_end split split_once rsplit_once is_empty starts_with to_ascii_lowercase
    to_ascii_lower is_whitespace
a_record_found = refl

passes : verify_dmarc deps (codes "News.a.org") (codes "a.org") signed not_permitted ≡ ok passed
unfolding verify_dmarc evaluate_alignment_inner any_aligned domains_aligned org_domain rsplit_once
    to_ascii_lowercase to_ascii_lower same
passes = rw a_record_found refl

verify_dmarc_pass_iff_example : (passed.result ≡ pass) ↔ (
    AnySigned deps
      (codes "News.a.org")
      (codes "a.org")
      (codes "a")
      (codes "org")
      relaxed
      signed.signatures
    ⊎ ((spf_passed spf_fail ≡ true)
        × Agrees deps
            (codes "News.a.org")
            (codes "a.org")
            (codes "a")
            (codes "org")
            strict
            (codes "a.org")))
unfolding to_ascii_lowercase to_ascii_lower
verify_dmarc_pass_iff_example =
    verify_dmarc_pass_iff deps (codes "News.a.org") (codes "a.org") (codes "a") (codes "org") signed
      not_permitted a_record passed (omega arith) (omega arith) (inr (codes "news", refl))
      a_record_found passes
