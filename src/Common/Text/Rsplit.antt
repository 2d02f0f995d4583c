-- ===== src/Common/Text/Rsplit.antt =====
-- `rsplit_once`: the part behind the last separator.
use sentio.Common.Lists.{All}
use sentio.Common.Tests.{Option-cases}
use sentio.Common.Text.{Text, rsplit_once}
use Prim.Native.Nat.{ℕ}
use mathlib.Core.Path.{◌≡◌, refl}
use mathlib.Core.Logic.{◌≢◌, inl, inr}
use mathlib.Core.Option.{none, some}
use mathlib.Core.List.{[], ◌∷◌, ◌++◌}
use native.Mathlib.Omega.{arith}

pub rsplit_once_whole : (c : ℕ) (s : Text) → All (λ a. a ≢ c) s → rsplit_once c s ≡ none
unfolding rsplit_once
rsplit_once_whole c [] h = refl
rsplit_once_whole c (a ∷ s) h = ground (arith, h.0, rsplit_once_whole c s h.1)

pub rsplit_once-append :
    (c : ℕ) (front last : Text)
    → All (λ a. a ≢ c) last
    → rsplit_once c (front ++ c ∷ last) ≡ some (front, last)
unfolding rsplit_once
rsplit_once-append c [] last h = ground (arith, rsplit_once_whole c last h)
rsplit_once-append c (a ∷ front) last h = ground (arith, rsplit_once-append c front last h)

pub rsplit_once_absent : (c : ℕ) (s : Text) → rsplit_once c s ≡ none → All (λ a. a ≢ c) s
unfolding rsplit_once
rsplit_once_absent c [] e = tt
rsplit_once_absent c (a ∷ s) e = elim (Option-cases (rsplit_once c s)) [
  | inl n ↦ ground (arith, n, e, rsplit_once_absent c s n)
  | inr (p, q) ↦ ground (arith, q, e)
]

pub rsplit_once_joins :
    (c : ℕ) (s front last : Text)
    → rsplit_once c s ≡ some (front, last)
    → (s ≡ front ++ c ∷ last) × All (λ a. a ≢ c) last
unfolding rsplit_once
rsplit_once_joins c [] front last e = cc
rsplit_once_joins c (a ∷ s) front last e = elim (Option-cases (rsplit_once c s)) [
  | inl n ↦ ground (arith, n, e, rsplit_once_absent c s n)
  | inr (p, q) ↦ ground (arith, q, e, rsplit_once_joins c s p.0 p.1 q)
]
