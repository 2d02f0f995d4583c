-- ===== src/Server/Routing/Tests.antt =====
-- Routes and the delays of webhooks at concrete inputs.
use sentio.Common.{ℕ, ◌+◌, ◌*◌, ◌/◌, List, [], ◌∷◌, none, some, ◌≡◌, ◌↔◌, refl}
use sentio.Common.Text.{codes}
use sentio.Common.Text.Lines.{to_ascii_lowercase}
use sentio.Queue.Retry.{saturating_mul}
use sentio.Server.Routing.{
  InboundRouteRecord, domain, catch_all, match_route, default_policy, capped, delay_after_attempt,
}
use sentio.Server.Routing.First.{IsFirst, match_route_iff}

abbrev for_domain : InboundRouteRecord
for_domain = record {
  pattern = codes "X.Org";
  match_type = domain;
  webhook_url = codes "https://hooks.x.org/in";
  priority = 10;
}

abbrev for_all : InboundRouteRecord
for_all = record {
  pattern = [];
  match_type = catch_all;
  webhook_url = codes "https://all.x.org";
  priority = 0;
}

match_route_iff_example :
    (match_route to_ascii_lowercase (λ pattern. none) (codes "A@X.org") (for_domain ∷ for_all ∷ [])
      ≡ some for_domain)
    ↔ IsFirst to_ascii_lowercase
        (λ pattern. none)
        (codes "A@X.org")
        (for_domain ∷ for_all ∷ [])
        for_domain
match_route_iff_example =
    match_route_iff to_ascii_lowercase (λ pattern. none) (codes "A@X.org")
      (for_domain ∷ for_all ∷ []) for_domain

-- The nine delays between ten attempts, without jitter.
abbrev total : ℕ → List ℕ → ℕ
total n [] = n
total n (attempt ∷ attempts) =
    total (n + delay_after_attempt (default_policy (λ ms. ms)) attempt) attempts

nine_delays : total 0 (1 ∷ 2 ∷ 3 ∷ 4 ∷ 5 ∷ 6 ∷ 7 ∷ 8 ∷ 9 ∷ []) ≡ 15_330_000
unfolding delay_after_attempt capped saturating_mul
nine_delays = refl

-- The jitter comes behind the cap.
above_the_cap : delay_after_attempt (default_policy (λ ms. ms * 115 / 100)) 11 ≡ 24_840_000
unfolding delay_after_attempt capped saturating_mul
above_the_cap = refl
