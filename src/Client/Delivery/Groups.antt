-- ===== src/Client/Delivery/Groups.antt =====
-- The groups of recipients (`group_by_domain` of crates/sentio-smtp-client/src/delivery.rs).
use sentio.Common.{
  All, ◌≢◌, ◌⊎◌, Option, none, some, true, false, List, [], ◌∷◌, ◌++◌, if◌then◌else◌, ◌≡◌, refl,
  sym, ap, subst, ◌∙◌, append_assoc, append-nil, arith, Bool-cases, inl, inr,
}
use sentio.Common.Text.{Text, codes, same, same_iff, rsplit_once}
use sentio.Common.Text.Rsplit.{
  rsplit_once_whole, rsplit_once-append, rsplit_once_absent, rsplit_once_joins,
}
use sentio.Client.Delivery.{domain_of, push_entry, group_onto, group_by_domain}

-- What the map has for a domain, in all its entries.
abbrev pub members : (domain : Text) → List (Text × List Text) → List Text
members domain [] = []
members domain ((key, rcpts) ∷ groups) =
    (if same key domain then rcpts else []) ++ members domain groups

-- The recipients of a domain, in their order.
abbrev pub of_domain : (to_lowercase : Text → Text) → (domain : Text) → List Text → List Text
of_domain to_lowercase domain [] = []
of_domain to_lowercase domain (rcpt ∷ rcpts) =
    (if same (domain_of to_lowercase rcpt) domain then rcpt ∷ [] else [])
    ++ of_domain to_lowercase domain rcpts

-- The keys differ from one another.
abbrev pub Fresh : (key : Text) → List (Text × List Text) → Type 0
Fresh key [] = Unit
Fresh key ((k, rcpts) ∷ groups) = (same k key ≡ false) × Fresh key groups

abbrev pub Distinct : List (Text × List Text) → Type 0
Distinct [] = Unit
Distinct ((key, rcpts) ∷ groups) = Fresh key groups × Distinct groups

members-Fresh :
    (domain : Text) (groups : List (Text × List Text))
    → Fresh domain groups
    → members domain groups ≡ []
members-Fresh domain [] h = refl
members-Fresh domain ((key, rcpts) ∷ groups) h = ground (arith, h, members-Fresh domain groups h.1)

same_swapped : (a b : Text) → same a b ≡ false → same b a ≡ false
same_swapped a b f = elim (Bool-cases (same b a)) [
  | inl t ↦ (let e = (same_iff a b).1 (sym ((same_iff b a).0 t)) in ground (arith, e, f))
  | inr g ↦ g
]

push_entry-Fresh :
    (key domain rcpt : Text) (groups : List (Text × List Text))
    → same domain key ≡ false
    → Fresh key groups
    → Fresh key (push_entry domain rcpt groups)
unfolding push_entry
push_entry-Fresh key domain rcpt [] n h = (n, tt)
push_entry-Fresh key domain rcpt ((k, rcpts) ∷ groups) n h =
    ground (arith, h, push_entry-Fresh key domain rcpt groups n h.1)

push_entry-Distinct :
    (domain rcpt : Text) (groups : List (Text × List Text))
    → Distinct groups
    → Distinct (push_entry domain rcpt groups)
unfolding push_entry
push_entry-Distinct domain rcpt [] h = (tt, tt)
push_entry-Distinct domain rcpt ((key, rcpts) ∷ groups) h = elim (Bool-cases (same key domain)) [
  | inl t ↦ ground (arith, t, h)
  | inr f ↦ ground (
    arith,
    f,
    h,
    push_entry-Fresh key domain rcpt groups (same_swapped key domain f) h.0,
    push_entry-Distinct domain rcpt groups h.1,
  )
]

members-push_entry :
    (domain key rcpt : Text) (groups : List (Text × List Text))
    → Distinct groups
    → members domain (push_entry key rcpt groups)
      ≡ members domain groups ++ (if same key domain then rcpt ∷ [] else [])
unfolding push_entry
members-push_entry domain key rcpt [] h = append-nil (if same key domain then rcpt ∷ [] else [])
members-push_entry domain key rcpt ((k, rcpts) ∷ groups) h = elim (Bool-cases (same k key)) [
  | inl t ↦
      (let e = (same_iff k key).0 t in
        elim (Bool-cases (same k domain)) [
          | inl d ↦
              let fresh = subst (λ name. Fresh name groups) ((same_iff k domain).0 d) h.0 in
              let here = subst (λ name. same name domain ≡ true) e d in
              rw t (
                rw d (
                  rw here
                    (rw (members-Fresh domain groups fresh) (simp (append_assoc, append-nil)))))
          | inr n ↦
              let away = subst (λ name. same name domain ≡ false) e n in
              rw t (rw n (rw away (simp append-nil)))
        ])
  | inr f ↦ rw f (rw (members-push_entry domain key rcpt groups h.1) (simp append_assoc))
]

group_onto_lem :
    (to_lowercase : Text → Text) (groups : List (Text × List Text)) (rcpts : List Text)
    → Distinct groups
    → Distinct (group_onto to_lowercase groups rcpts)
      × ((domain : Text)
          → members domain (group_onto to_lowercase groups rcpts)
            ≡ members domain groups ++ of_domain to_lowercase domain rcpts)
unfolding group_onto
group_onto_lem to_lowercase groups [] h = (h, λ domain. sym (append-nil (members domain groups)))
group_onto_lem to_lowercase groups (rcpt ∷ rcpts) h =
    let key = domain_of to_lowercase rcpt in
    let rest =
      group_onto_lem to_lowercase (push_entry key rcpt groups) rcpts
        (push_entry-Distinct key rcpt groups h) in
    (
      rest.0,
      λ domain.
          rest.1 domain
          ∙ ap (λ m. m ++ of_domain to_lowercase domain rcpts)
              (members-push_entry domain key rcpt groups h)
          ∙ append_assoc (members domain groups) (if same key domain then rcpt ∷ [] else [])
              (of_domain to_lowercase domain rcpts),
    )

-- The domain of a recipient, in lower case: what is behind its last at sign, or "unknown" without one.
abbrev pub HasDomain : (to_lowercase : Text → Text) → (domain rcpt : Text) → Type 0
HasDomain to_lowercase domain rcpt =
    ((user : Text) × (name : Text) × (rcpt ≡ user ++ b'@' ∷ name)
      × All (λ c. c ≢ b'@') name
      × (to_lowercase name ≡ domain))
    ⊎ (All (λ c. c ≢ b'@') rcpt × (codes "unknown" ≡ domain))

domain_of-HasDomain :
    (to_lowercase : Text → Text) (rcpt : Text)
    → HasDomain to_lowercase (domain_of to_lowercase rcpt) rcpt
unfolding domain_of
domain_of-HasDomain to_lowercase rcpt = cases (rsplit_once b'@' rcpt) refl
  where
    cases :
        (o : Option (Text × Text))
        → rsplit_once b'@' rcpt ≡ o
        → HasDomain to_lowercase
            (elim o [ some (user, d) ↦ to_lowercase d | none ↦ codes "unknown" ])
            rcpt
    cases none e = inr (rsplit_once_absent b'@' rcpt e, refl)
    cases (some (user, name)) e =
        (let joined = rsplit_once_joins b'@' rcpt user name e in
          inl (user, name, joined.0, joined.1, refl))

HasDomain-domain_of :
    (to_lowercase : Text → Text) (domain rcpt : Text)
    → HasDomain to_lowercase domain rcpt
    → domain_of to_lowercase rcpt ≡ domain
unfolding domain_of
HasDomain-domain_of to_lowercase domain rcpt (inl (user, name, e, h, f)) =
    subst (λ s. domain_of to_lowercase s ≡ domain) (sym e)
      (rw (rsplit_once-append b'@' user name h, domain_of) f)
HasDomain-domain_of to_lowercase domain rcpt (inr (h, f)) =
    rw (rsplit_once_whole b'@' rcpt h, domain_of) f

-- Those of a list for which `P` holds, in their order.
pub data Selected (P : Text → Type 0) : List Text → List Text → Type 0 where
  nobody : Selected P [] []
  taken : (a : Text) (xs ys : List Text) → P a → Selected P xs ys → Selected P (a ∷ xs) (a ∷ ys)
  left_out : (a : Text) (xs ys : List Text) → (P a → ⊥) → Selected P xs ys → Selected P (a ∷ xs) ys

of_domain-Selected :
    (to_lowercase : Text → Text) (domain : Text) (rcpts : List Text)
    → Selected (HasDomain to_lowercase domain) rcpts (of_domain to_lowercase domain rcpts)
of_domain-Selected to_lowercase domain [] = nobody
of_domain-Selected to_lowercase domain (rcpt ∷ rcpts) =
    elim (Bool-cases (same (domain_of to_lowercase rcpt) domain)) [
      | inl t ↦
          let e = (same_iff (domain_of to_lowercase rcpt) domain).0 t in
          let h =
            subst (λ name. HasDomain to_lowercase name rcpt) e
              (domain_of-HasDomain to_lowercase rcpt) in
          rw t (taken rcpt rcpts _ h (of_domain-Selected to_lowercase domain rcpts))
      | inr f ↦
          let n : HasDomain to_lowercase domain rcpt → ⊥ = λ h.
            (let t =
                (same_iff (domain_of to_lowercase rcpt) domain).1
                  (HasDomain-domain_of to_lowercase domain rcpt h) in
              ground (arith, t, f)) in
          rw f (left_out rcpt rcpts _ n (of_domain-Selected to_lowercase domain rcpts))
    ]

-- No two groups are for the same domain, and the group of a domain has just the recipients with that domain
-- behind their last at sign, in lower case, in their order; those without an at sign are in the group "unknown".
pub group_by_domain_lem :
    (to_lowercase : Text → Text) (recipients : List Text)
    → Distinct (group_by_domain to_lowercase recipients)
      × ((domain : Text)
          → Selected
              (HasDomain to_lowercase domain)
              recipients
              (members domain (group_by_domain to_lowercase recipients)))
unfolding group_by_domain
group_by_domain_lem to_lowercase recipients =
    let r = group_onto_lem to_lowercase [] recipients tt in
    (
      r.0,
      λ domain.
          subst (Selected (HasDomain to_lowercase domain) recipients) (sym (r.1 domain))
            (of_domain-Selected to_lowercase domain recipients),
    )
