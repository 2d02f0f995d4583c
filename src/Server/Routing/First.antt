-- ===== src/Server/Routing/First.antt =====
-- Which route a recipient gets (`match_route` of crates/sentio-smtp-server/src/routing.rs).
use sentio.Common.{
  Bool, true, false, List, [], ◌∷◌, ◌++◌, Option, none, some, ◌≡◌, ◌≢◌, refl, sym, ap, subst,
  some-inj, ◌↔◌, ◌⊎◌, All, arith, Bool-cases, Option-cases, inl, inr,
}
use sentio.Common.Text.{Text, same_iff, rsplit_once}
use sentio.Common.Text.Rsplit.{
  rsplit_once_whole, rsplit_once-append, rsplit_once_absent, rsplit_once_joins,
}
use sentio.Server.Routing.{
  InboundRouteMatchType, exact, regex, domain, catch_all, InboundRouteRecord, domain_part, matched,
  first_match, match_route,
}

-- The domain of an address: what is behind its last at sign, and the empty one if there is none.
abbrev pub HasDomain : (address domain : Text) → Type 0
HasDomain address name =
    ((user : Text) × (address ≡ user ++ b'@' ∷ name) × All (λ c. c ≢ b'@') name)
    ⊎ (All (λ c. c ≢ b'@') address × (name ≡ []))

domain_part-HasDomain : (address : Text) → HasDomain address (domain_part address)
domain_part-HasDomain address = cases (rsplit_once b'@' address) refl
  where
    cases :
        (o : Option (Text × Text))
        → rsplit_once b'@' address ≡ o
        → HasDomain address (elim o [ some (user, d) ↦ d | none ↦ [] ])
    cases none e = inr (rsplit_once_absent b'@' address e, refl)
    cases (some (user, name)) e =
        (let joined = rsplit_once_joins b'@' address user name e in inl (user, joined.0, joined.1))

HasDomain-domain_part : (address name : Text) → HasDomain address name → domain_part address ≡ name
HasDomain-domain_part address name (inl (user, e, h)) =
    subst (λ s. domain_part s ≡ name) (sym e)
      (rw (rsplit_once-append b'@' user name h, domain_part) refl)
HasDomain-domain_part address name (inr (h, e)) =
    rw (rsplit_once_whole b'@' address h, domain_part) (sym e)

module _ (to_lowercase : Text → Text) (new_regex : Text → Option (Text → Bool)) where
  -- What it is for a pattern to match a recipient: to be the same address or its domain, in lower case; to be
  -- a regular expression that matches it in lower case; or to be for all.
  abbrev pub Matches : (recipient pattern : Text) → InboundRouteMatchType → Type 0
  Matches recipient pattern exact = to_lowercase pattern ≡ to_lowercase recipient
  Matches recipient pattern domain = HasDomain (to_lowercase recipient) (to_lowercase pattern)
  Matches recipient pattern regex =
      (is_match : Text → Bool) × (new_regex pattern ≡ some is_match)
      × (is_match (to_lowercase recipient) ≡ true)
  Matches recipient pattern catch_all = Unit

  matched-Matches :
      (recipient pattern : Text) (type : InboundRouteMatchType)
      → (matched to_lowercase new_regex (to_lowercase recipient) pattern type ≡ true)
        ↔ Matches recipient pattern type
  unfolding matched
  matched-Matches recipient pattern exact = same_iff (to_lowercase pattern) (to_lowercase recipient)
  matched-Matches recipient pattern domain =
      let iff = same_iff (to_lowercase pattern) (domain_part (to_lowercase recipient)) in
      (
        λ e.
            subst (HasDomain (to_lowercase recipient)) (sym (iff.0 e))
              (domain_part-HasDomain (to_lowercase recipient)),
        λ h. iff.1 (sym (HasDomain-domain_part (to_lowercase recipient) (to_lowercase pattern) h)),
      )
  matched-Matches recipient pattern regex = elim (Option-cases (new_regex pattern)) [
    | inl n ↦ (λ e. ground (arith, n, e), λ (m, s, t). ground (arith, n, s))
    | inr (m, s) ↦ (λ e. (m, s, ground (arith, s, e)), λ (m', s', t). ground (arith, s', t))
  ]
  matched-Matches recipient pattern catch_all = ground arith

  unmatched :
      (recipient pattern : Text) (type : InboundRouteMatchType)
      → (matched to_lowercase new_regex (to_lowercase recipient) pattern type ≡ false)
        ↔ (Matches recipient pattern type → ⊥)
  unmatched recipient pattern type = ground (
    arith,
    matched-Matches recipient pattern type,
    Bool-cases (matched to_lowercase new_regex (to_lowercase recipient) pattern type),
  )

  -- The route is in the list, matches, and none before it does.
  abbrev pub IsFirst : (recipient : Text) → List InboundRouteRecord → InboundRouteRecord → Type 0
  IsFirst recipient routes route =
      (before : List InboundRouteRecord) × (after : List InboundRouteRecord) × (routes
        ≡ before ++ route ∷ after)
      × All (λ r. Matches recipient r.pattern r.match_type → ⊥) before
      × Matches recipient route.pattern route.match_type

  first_match-IsFirst :
      (recipient : Text) (routes : List InboundRouteRecord) (route : InboundRouteRecord)
      → first_match to_lowercase new_regex (to_lowercase recipient) routes ≡ some route
      → IsFirst recipient routes route
  unfolding first_match
  first_match-IsFirst recipient [] route h = cc
  first_match-IsFirst recipient (r ∷ routes) route h =
      elim (Bool-cases
        (matched to_lowercase new_regex (to_lowercase recipient) r.pattern r.match_type)) [
          | inl t ↦
              let same_route : r ≡ route = some-inj (ground (arith, t, h)) in
              let m = (matched-Matches recipient r.pattern r.match_type).0 t in
              subst (λ x. IsFirst recipient (r ∷ routes) x) same_route ([], routes, refl, tt, m)
          | inr f ↦
              (let (before, after, shape, all, m) =
                  first_match-IsFirst recipient routes route (ground (arith, f, h)) in
                (
                  r ∷ before,
                  after,
                  ap (◌∷◌ r) shape,
                  ((unmatched recipient r.pattern r.match_type).0 f, all),
                  m,
                ))
        ]

  IsFirst-first_match :
      (recipient : Text) (before after : List InboundRouteRecord) (route : InboundRouteRecord)
      → All (λ r. Matches recipient r.pattern r.match_type → ⊥) before
      → Matches recipient route.pattern route.match_type
      → first_match to_lowercase new_regex (to_lowercase recipient) (before ++ route ∷ after)
        ≡ some route
  unfolding first_match
  IsFirst-first_match recipient [] after route h m =
      rw ((matched-Matches recipient route.pattern route.match_type).1 m) refl
  IsFirst-first_match recipient (r ∷ before) after route h m =
      rw ((unmatched recipient r.pattern r.match_type).1 h.0)
        (IsFirst-first_match recipient before after route h.1 m)

  -- The route of a recipient is the first one in the list whose pattern matches it: the same address, or its
  -- domain (what is behind its last at sign), in lower case; a regular expression that matches it in lower
  -- case; or a pattern for all.
  pub match_route_iff :
      (recipient : Text) (routes : List InboundRouteRecord) (route : InboundRouteRecord)
      → (match_route to_lowercase new_regex recipient routes ≡ some route)
        ↔ IsFirst recipient routes route
  unfolding match_route
  match_route_iff recipient routes route = (
    first_match-IsFirst recipient routes route,
    λ (before, after, shape, all, m).
        subst (λ rs. first_match to_lowercase new_regex (to_lowercase recipient) rs ≡ some route)
          (sym shape) (IsFirst-first_match recipient before after route all m),
  )
