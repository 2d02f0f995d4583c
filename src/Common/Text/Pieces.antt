-- ===== src/Common/Text/Pieces.antt =====
-- `split` by a separator that the pieces do not hold.
use sentio.Common.Lists.{All}
use sentio.Common.Text.{Text, split}
use Prim.Native.Nat.{ℕ}
use mathlib.Core.Path.{◌≡◌, refl}
use mathlib.Core.Logic.{◌≢◌}
use mathlib.Core.List.{[], ◌∷◌, ◌++◌}
use native.Mathlib.Omega.{arith}

split_consed : (c : ℕ) (s : Text) → split c s ≢ []
unfolding split
split_consed c [] h = cc
split_consed c (x ∷ s) h = ground (arith, split_consed c s)

pub split-append :
    (c : ℕ) (s more : Text) → All (λ a. a ≢ c) s → split c (s ++ c ∷ more) ≡ s ∷ split c more
unfolding split
split-append c [] more h = ground (arith, split_consed c more)
split-append c (a ∷ s) more h = ground (arith, split-append c s more h.1)

pub split_last : (c : ℕ) (s : Text) → All (λ a. a ≢ c) s → split c s ≡ s ∷ []
unfolding split
split_last c [] h = refl
split_last c (a ∷ s) h = ground (arith, split_last c s h.1)
