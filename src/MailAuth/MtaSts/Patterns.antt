-- ===== src/MailAuth/MtaSts/Patterns.antt =====
-- The patterns of an MTA-STS policy (crates/sentio-auth/src/mta_sts.rs), by the hosts that they cover.
use sentio.Common.{
  true, ◌||◌, List, [], ◌∷◌, ◌++◌, none, some, ◌≡◌, refl, sym, subst, ◌↔◌, ◌⊎◌, inl, inr,
  Bool-cases, Option-cases, arith,
}
use sentio.Common.Text.{Text, codes, same, same_iff, strip_prefix}
use sentio.Common.Text.Lines.{ends_with, ends_with-append, ends_with_front}
use sentio.MailAuth.MtaSts.{MtaStsPolicy, matches_pattern, matches_any, matches_mx}

-- A pattern is a host, or stands for a domain and all that is below it.
abbrev pub Covers : (pat host : Text) → Type 0
Covers pat host =
    ((strip_prefix (codes "*.") pat ≡ none) × (host ≡ pat))
    ⊎ ((suffix : Text) × (pat ≡ codes "*." ++ suffix)
        × ((host ≡ suffix) ⊎ ((front : Text) × (host ≡ front ++ b'.' ∷ suffix))))

abbrev pub AnyCovers : (to_lowercase : Text → Text) → List Text → (host : Text) → Type 0
AnyCovers to_lowercase [] host = ⊥
AnyCovers to_lowercase (pattern ∷ patterns) host =
    Covers (to_lowercase pattern) host ⊎ AnyCovers to_lowercase patterns host

strip_prefix-append : (p s : Text) → strip_prefix p (p ++ s) ≡ some s
unfolding strip_prefix
strip_prefix-append [] s = refl
strip_prefix-append (c ∷ p) s = ground (arith, strip_prefix-append p s)

strip_prefix_joins : (p s rest : Text) → strip_prefix p s ≡ some rest → s ≡ p ++ rest
unfolding strip_prefix
strip_prefix_joins [] s rest e = ground (arith, e)
strip_prefix_joins (c ∷ p) [] rest e = cc
strip_prefix_joins (c ∷ p) (d ∷ s) rest e = ground (arith, e, strip_prefix_joins p s rest)

below :
    (host suffix : Text)
    → ends_with (b'.' ∷ suffix) host || same host suffix ≡ true
    → (host ≡ suffix) ⊎ ((front : Text) × (host ≡ front ++ b'.' ∷ suffix))
below host suffix e = elim (Bool-cases (ends_with (b'.' ∷ suffix) host)) [
  | inl t ↦ inr (ends_with_front (b'.' ∷ suffix) host t)
  | inr f ↦ inl ((same_iff host suffix).0 (ground (arith, e, f)))
]

below_back :
    (host suffix : Text)
    → (host ≡ suffix) ⊎ ((front : Text) × (host ≡ front ++ b'.' ∷ suffix))
    → ends_with (b'.' ∷ suffix) host || same host suffix ≡ true
below_back host suffix (inl e) = ground (arith, (same_iff host suffix).1 e)
below_back host suffix (inr (front, e)) =
    let t : ends_with (b'.' ∷ suffix) host ≡ true =
      subst (λ h. ends_with (b'.' ∷ suffix) h ≡ true) (sym e)
        (ends_with-append front (b'.' ∷ suffix)) in
    ground (arith, t)

matches_pattern-Covers : (pat host : Text) → matches_pattern host pat ≡ true → Covers pat host
unfolding matches_pattern
matches_pattern-Covers pat host e = elim (Option-cases (strip_prefix (codes "*.") pat)) [
  | inl n ↦ inl (n, (same_iff host pat).0 (ground (arith, e, n)))
  | inr (suffix, s) ↦ inr (
    suffix,
    strip_prefix_joins (codes "*.") pat suffix s,
    below host suffix (ground (arith, e, s)),
  )
]

Covers-matches_pattern : (pat host : Text) → Covers pat host → matches_pattern host pat ≡ true
unfolding matches_pattern strip_prefix
Covers-matches_pattern pat host (inl (n, e)) = rw n ((same_iff host pat).1 e)
Covers-matches_pattern pat host (inr (suffix, e, b)) =
    let s : strip_prefix (codes "*.") pat ≡ some suffix =
      subst (λ p. strip_prefix (codes "*.") p ≡ some suffix) (sym e)
        (strip_prefix-append (codes "*.") suffix) in
    rw s (below_back host suffix b)

matches_any_iff :
    (to_lowercase : Text → Text) (patterns : List Text) (host : Text)
    → (matches_any to_lowercase host patterns ≡ true) ↔ AnyCovers to_lowercase patterns host
unfolding matches_any
matches_any_iff to_lowercase [] host = ground arith
matches_any_iff to_lowercase (p ∷ patterns) host = (
  λ e. elim (Bool-cases (matches_pattern host (to_lowercase p))) [
    | inl t ↦ inl (matches_pattern-Covers (to_lowercase p) host t)
    | inr f ↦ inr ((matches_any_iff to_lowercase patterns host).0 (ground (arith, e, f)))
  ],
  λ c. elim c [
    | inl t ↦ ground (arith, Covers-matches_pattern (to_lowercase p) host t)
    | inr rest ↦ ground (arith, (matches_any_iff to_lowercase patterns host).1 rest)
  ],
)

-- A host matches a policy just when, in lower case, it is one of its patterns, or is the domain of a pattern
-- that begins with a star and a dot, or ends in a dot and that domain.
pub matches_mx_iff :
    (to_lowercase : Text → Text) (policy : MtaStsPolicy) (mx_host : Text)
    → (matches_mx to_lowercase policy mx_host ≡ true)
      ↔ AnyCovers to_lowercase policy.mx (to_lowercase mx_host)
unfolding matches_mx
matches_mx_iff to_lowercase policy mx_host =
    matches_any_iff to_lowercase policy.mx (to_lowercase mx_host)
