-- ===== src/Server/Reader/Exact.antt =====
-- `read_exact_bytes` of crates/sentio-smtp-server/src/session.rs returns what it was asked for.
use sentio.Common.{
  ℕ, zero, suc, ◌+◌, ◌-◌, List, ◌∷◌, ◌++◌, ◌≡◌, arith, take, drop, length, ok, length-append,
  length-take,
}
use sentio.Server.Reader.{ReadEvent, got, read_rest, read_exact_bytes}

length-read_rest :
    (n : ℕ) (result buf : List ℕ) (ev : List ReadEvent) {bytes : List ℕ}
    → (read_rest n result buf ev).result ≡ ok bytes
    → length bytes ≡ n + length result
unfolding read_rest
length-read_rest zero result buf ev e = ground arith
length-read_rest (suc n) result buf (got (b ∷ bytes) ∷ ev) e = omega (
  arith,
  length-read_rest (suc n - length (b ∷ bytes)) (result ++ take (suc n) (b ∷ bytes))
      (buf ++ drop (suc n) (b ∷ bytes)) ev e,
  length-append result (take (suc n) (b ∷ bytes)),
  length-take (suc n) (b ∷ bytes),
)
length-read_rest (suc n) result buf _ e = cc

-- A chunk that was read has the length that was asked for.
pub length-read_exact_bytes :
    (count : ℕ) (buf : List ℕ) (ev : List ReadEvent) {bytes : List ℕ}
    → (read_exact_bytes count buf ev).result ≡ ok bytes
    → length bytes ≡ count
unfolding read_exact_bytes
length-read_exact_bytes count buf ev e = omega (
  arith,
  length-read_rest (count - length buf) (take count buf) (drop count buf) ev e,
  length-take count buf,
)
