-- ===== src/Server/Validation/Laws.antt =====
-- `dot_unstuff` of crates/sentio-smtp-server/src/validation.rs never adds a byte.
use sentio.Common.{ℕ, ◌≤◌, Bool, true, false, List, [], ◌∷◌, arith, length, ◌==◌}
use sentio.Server.Validation.{dot_unstuff_from, dot_unstuff}

length-dot_unstuff_from :
    (b : Bool) (bytes : List ℕ) → length (dot_unstuff_from b bytes) ≤ length bytes
unfolding dot_unstuff_from
length-dot_unstuff_from b [] = omega arith
length-dot_unstuff_from b (c ∷ []) = omega arith
length-dot_unstuff_from b (c ∷ d ∷ rest) = ground (
  arith,
  length-dot_unstuff_from b (d ∷ rest),
  length-dot_unstuff_from false (d ∷ rest),
  length-dot_unstuff_from (c == b'\n') (d ∷ rest),
)

pub length-dot_unstuff_le : (bytes : List ℕ) → length (dot_unstuff bytes) ≤ length bytes
unfolding dot_unstuff
length-dot_unstuff_le bytes = length-dot_unstuff_from true bytes
