-- ===== src/Transfer/Stuffing.antt =====
-- Unstuffing undoes stuffing: `dot_stuff` of crates/sentio-smtp-client/src/connection.rs against
-- `dot_unstuff` of crates/sentio-smtp-server/src/validation.rs.
use sentio.Common.{ℕ, Bool, List, [], ◌∷◌, ◌≡◌, refl, arith, ◌==◌}
use sentio.Client.DotStuff.{dot_stuff_from, end_line}
use sentio.Server.Validation.{dot_unstuff_from}

-- With the same flag, the loop of the server undoes the loop of the client.
pub dot_unstuff_from-dot_stuff_from :
    (b : Bool) (s : List ℕ) → dot_unstuff_from b (dot_stuff_from b s) ≡ s
unfolding dot_unstuff_from dot_stuff_from
dot_unstuff_from-dot_stuff_from b [] = refl
dot_unstuff_from-dot_stuff_from b (c ∷ []) = ground arith
dot_unstuff_from-dot_stuff_from b (c ∷ d ∷ s) =
    ground (arith, dot_unstuff_from-dot_stuff_from (c == b'\n') (d ∷ s))

-- The line end may be put on before or after the stuffing.
pub end_line-dot_stuff_from :
    (b : Bool) (s : List ℕ) → end_line (dot_stuff_from b s) ≡ dot_stuff_from b (end_line s)
unfolding end_line dot_stuff_from
end_line-dot_stuff_from b [] = ground arith
end_line-dot_stuff_from b (c ∷ []) = ground arith
end_line-dot_stuff_from b (c ∷ d ∷ []) = ground arith
end_line-dot_stuff_from b (c ∷ d ∷ e ∷ s) =
    ground (arith, end_line-dot_stuff_from (c == b'\n') (d ∷ e ∷ s))
