-- ===== src/Common/Text/Words.antt =====
-- `split_whitespace` and `trim` on words.
use sentio.Common.Lists.{All}
use sentio.Common.Text.{Text, is_whitespace, trim_end, words_from, split_whitespace}
use sentio.Common.Text.Laws.{trim_end_words}
use Prim.Native.Nat.{ℕ}
use mathlib.Core.Path.{◌≡◌, ap, ◌∙◌, sym}
use mathlib.Core.Logic.{◌≢◌}
use mathlib.Core.Bool.{false}
use mathlib.Core.List.{[], ◌∷◌, ◌++◌, reverse, reverse-cons, append_assoc, append-nil}
use native.Mathlib.Omega.{arith}

abbrev pub IsWord : Text → Type 0
IsWord s = All (λ c. is_whitespace c ≡ false) s

shift : (c a : ℕ) (cur w : Text) → reverse (a ∷ c ∷ cur) ++ w ≡ reverse (c ∷ cur) ++ a ∷ w
shift c a cur w =
    ap (λ r. r ++ w) (reverse-cons a (c ∷ cur)) ∙ append_assoc (reverse (c ∷ cur)) (a ∷ []) w

words_from-word :
    (c : ℕ) (cur w s : Text)
    → IsWord w
    → words_from (c ∷ cur) (w ++ 32 ∷ s) ≡ (reverse (c ∷ cur) ++ w) ∷ words_from [] s
unfolding words_from is_whitespace
words_from-word c cur [] s h = ap (λ r. r ∷ words_from [] s) (sym (append-nil (reverse (c ∷ cur))))
words_from-word c cur (a ∷ w) s h =
    ground (arith, h.0, words_from-word a (c ∷ cur) w s h.1, shift c a cur w)

words_from-last :
    (c : ℕ) (cur w : Text) → IsWord w → words_from (c ∷ cur) w ≡ (reverse (c ∷ cur) ++ w) ∷ []
unfolding words_from
words_from-last c cur [] h = ap (λ r. r ∷ []) (sym (append-nil (reverse (c ∷ cur))))
words_from-last c cur (a ∷ w) h =
    ground (arith, h.0, words_from-last a (c ∷ cur) w h.1, shift c a cur w)

-- The first word, and the words behind the space.
pub split_whitespace-word :
    (w s : Text) → IsWord w → w ≢ [] → split_whitespace (w ++ 32 ∷ s) ≡ w ∷ split_whitespace s
unfolding split_whitespace words_from
split_whitespace-word [] s h n = ground (arith, n)
split_whitespace-word (c ∷ w) s h n = ground (arith, h.0, words_from-word c [] w s h.1)

pub split_whitespace-last : (w : Text) → IsWord w → w ≢ [] → split_whitespace w ≡ w ∷ []
unfolding split_whitespace words_from
split_whitespace-last [] h n = ground (arith, n)
split_whitespace-last (c ∷ w) h n = ground (arith, h.0, words_from-last c [] w h.1)

-- A text that ends in a word keeps its end.
pub trim_end-append : (s w : Text) → IsWord w → w ≢ [] → trim_end (s ++ w) ≡ s ++ w
unfolding trim_end
trim_end-append [] w h n = trim_end_words w h
trim_end-append (a ∷ []) [] h n = ground (arith, n)
trim_end-append (a ∷ []) (c ∷ w) h n = ground (arith, trim_end_words (c ∷ w) h)
trim_end-append (a ∷ b ∷ s) w h n = ground (arith, trim_end-append (b ∷ s) w h n)
