-- ===== src/MailAuth/Dmarc/Alignment.antt =====
-- Whose domains are aligned for DMARC, and who passes (crates/sentio-auth/src/dmarc.rs).
use sentio.Common.{
  true, List, [], ◌∷◌, ◌++◌, none, some, ◌≡◌, ◌≢◌, refl, sym, ap, subst, ◌∙◌, ◌↔◌, ◌⊎◌, inl, inr,
  Option-cases, All, arith, ok, append_assoc,
}
use sentio.Common.Text.{Text, same_iff, rsplit_once}
use sentio.MailAuth.Types.{
  SpfVerifyOutput, spf_passed, DkimSignatureResult, DkimVerifyOutput, dkim_passed, MailAuthDeps,
}
use sentio.MailAuth.Dmarc.{
  DmarcAlignment, relaxed, strict, DmarcRecord, DmarcVerifyOutput, pass, org_domain,
  domains_aligned, any_aligned, evaluate_alignment_inner, lookup_dmarc_record, verify_dmarc,
}

-- A label has no dot.
abbrev pub IsLabel : Text → Type 0
IsLabel s = All (λ c. c ≢ b'.') s

-- The domain `name.label`, or one below it.
abbrev pub Below : (name label domain : Text) → Type 0
Below name label domain =
    (domain ≡ name ++ b'.' ∷ label)
    ⊎ ((front : Text) × (domain ≡ front ++ b'.' ∷ (name ++ b'.' ∷ label)))

rsplit_once_label : (s : Text) → IsLabel s → rsplit_once b'.' s ≡ none
unfolding rsplit_once
rsplit_once_label [] h = refl
rsplit_once_label (c ∷ s) h = ground (arith, h.0, rsplit_once_label s h.1)

rsplit_once-append :
    (front label : Text)
    → IsLabel label
    → rsplit_once b'.' (front ++ b'.' ∷ label) ≡ some (front, label)
unfolding rsplit_once
rsplit_once-append [] label h = ground (arith, rsplit_once_label label h)
rsplit_once-append (c ∷ front) label h = ground (arith, rsplit_once-append front label h)

rsplit_once_joins :
    (s front label : Text) → rsplit_once b'.' s ≡ some (front, label) → s ≡ front ++ b'.' ∷ label
unfolding rsplit_once
rsplit_once_joins [] front label e = cc
rsplit_once_joins (c ∷ s) front label e = elim (Option-cases (rsplit_once b'.' s)) [
  | inl n ↦ ground (arith, n, e)
  | inr (p, q) ↦ ground (arith, q, e, rsplit_once_joins s p.0 p.1 q)
]

-- The organizational domain of a domain that is, or is below, a domain of two labels.
org_domain-Below :
    (name label domain : Text)
    → IsLabel name
    → IsLabel label
    → Below name label domain
    → org_domain domain ≡ name ++ b'.' ∷ label
unfolding org_domain
org_domain-Below name label domain n l (inl e) =
    subst (λ s. org_domain s ≡ name ++ b'.' ∷ label) (sym e)
      (rw (rsplit_once-append name label l, org_domain) (rw (rsplit_once_label name n) refl))
org_domain-Below name label domain n l (inr (front, e)) =
    subst (λ s. org_domain s ≡ name ++ b'.' ∷ label)
      (append_assoc front (b'.' ∷ name) (b'.' ∷ label) ∙ sym e)
      (rw (rsplit_once-append (front ++ b'.' ∷ name) label l, org_domain)
        (rw (rsplit_once-append front name n) refl))

Below-org_domain :
    (name label domain : Text) → org_domain domain ≡ name ++ b'.' ∷ label → Below name label domain
unfolding org_domain
Below-org_domain name label domain e = elim (Option-cases (rsplit_once b'.' domain)) [
  | inl n ↦ inl (ground (arith, n, e))
  | inr ((front, last), s) ↦ elim (Option-cases (rsplit_once b'.' front)) [
    | inl n ↦ inl (ground (arith, s, n, e))
    | inr ((rest, second), t) ↦ inr (
      rest,
      rsplit_once_joins domain front last s
          ∙ ap (λ f. f ++ b'.' ∷ last) (rsplit_once_joins front rest second t)
          ∙ append_assoc rest (b'.' ∷ second) (b'.' ∷ last)
          ∙ ap (λ o. rest ++ b'.' ∷ o) (ground (arith, s, t, e)),
    )
  ]
]

module _ (d : MailAuthDeps) (from_domain spf_domain name label : Text) where
  -- What it is for a domain to agree with that of From, by the mode.
  abbrev pub Agrees : DmarcAlignment → (domain : Text) → Type 0
  Agrees strict domain = d.to_lowercase domain ≡ d.to_lowercase from_domain
  Agrees relaxed domain = Below name label (d.to_lowercase domain)

  -- A signature that passed agrees.
  abbrev pub AnySigned : DmarcAlignment → List DkimSignatureResult → Type 0
  AnySigned alignment [] = ⊥
  AnySigned alignment (sig ∷ signatures) =
      ((dkim_passed sig.result ≡ true) × Agrees alignment sig.domain)
      ⊎ AnySigned alignment signatures

  domains_aligned-Agrees :
      (alignment : DmarcAlignment) (domain : Text)
      → IsLabel name
      → IsLabel label
      → Below name label (d.to_lowercase from_domain)
      → (domains_aligned d.to_lowercase domain from_domain alignment ≡ true)
        ↔ Agrees alignment domain
  unfolding domains_aligned
  domains_aligned-Agrees strict domain n l b =
      same_iff (d.to_lowercase domain) (d.to_lowercase from_domain)
  domains_aligned-Agrees relaxed domain n l b =
      let org = org_domain-Below name label (d.to_lowercase from_domain) n l b in
      let iff =
        same_iff (org_domain (d.to_lowercase domain)) (org_domain (d.to_lowercase from_domain)) in
      (
        λ e. Below-org_domain name label (d.to_lowercase domain) (iff.0 e ∙ org),
        λ h. iff.1 (org_domain-Below name label (d.to_lowercase domain) n l h ∙ sym org),
      )

  any_aligned-AnySigned :
      (alignment : DmarcAlignment) (signatures : List DkimSignatureResult)
      → IsLabel name
      → IsLabel label
      → Below name label (d.to_lowercase from_domain)
      → (any_aligned d.to_lowercase from_domain alignment signatures ≡ true)
        ↔ AnySigned alignment signatures
  unfolding any_aligned
  any_aligned-AnySigned alignment [] n l b = ground arith
  any_aligned-AnySigned alignment (sig ∷ signatures) n l b = ground (
    arith,
    domains_aligned-Agrees alignment sig.domain n l b,
    any_aligned-AnySigned alignment signatures n l b,
  )

  -- Where the domain of From is `name.label` or below it, and has a record, a message passes DMARC just when a
  -- signature of a domain that agrees with it passed, or SPF passed for one. To agree is to be the same domain
  -- if the record is strict, and to be `name.label` or below it if it is relaxed, in lower case.
  pub verify_dmarc_pass_iff :
      (dkim_output : DkimVerifyOutput) (spf_output : SpfVerifyOutput) (r : DmarcRecord)
      (output : DmarcVerifyOutput)
      → IsLabel name
      → IsLabel label
      → Below name label (d.to_lowercase from_domain)
      → lookup_dmarc_record d from_domain ≡ some r
      → verify_dmarc d from_domain spf_domain dkim_output spf_output ≡ ok output
      → (output.result ≡ pass) ↔ (
          AnySigned r.dkim_alignment dkim_output.signatures
          ⊎ ((spf_passed spf_output.result ≡ true) × Agrees r.spf_alignment spf_domain))
  unfolding verify_dmarc evaluate_alignment_inner
  verify_dmarc_pass_iff dkim_output spf_output r output n l b found e = ground (
    arith,
    found,
    e,
    any_aligned-AnySigned r.dkim_alignment dkim_output.signatures n l b,
    domains_aligned-Agrees r.spf_alignment spf_domain n l b,
  )
