-- ===== src/Server/Commands/Chunks.antt =====
-- BDAT through the parser of crates/sentio-smtp-server/src/commands.rs.
use sentio.Common.{
  ℕ, ◌<◌, Bool, true, false, not, if◌then◌else◌, List, [], ◌∷◌, ◌++◌, Option, ◌≡◌, ◌≢◌, refl, sym,
  ap, subst, ◌∙◌, arith, ok, All, All-append, append_assoc, append-nil,
}
use sentio.Common.Text.{
  Text, codes, same, is_empty, is_whitespace, trim_start, trim_end, trim, split_whitespace,
  to_ascii_uppercase, to_ascii_upper, decimal, u64_mod, eq_ignore_ascii_case,
}
use sentio.Common.Text.Laws.{split_once-append, to_ascii_uppercase_low, to_ascii_uppercase_spaces}
use sentio.Common.Text.Numbers.{IsDigit, decimal-digits, decimal_nonempty, parse_unsigned-decimal}
use sentio.Common.Text.Words.{IsWord, split_whitespace-word, split_whitespace-last, trim_end-append}
use sentio.Common.Utf8.{from_utf8_ascii}
use sentio.Server.Commands.Types.{IpAddr, bdat, guard_syntax}
use sentio.Server.Commands.RcptTo.{bdat_words, parse_bdat}
use sentio.Server.Commands.Line.{cut_verb, parse_verb, parse_text, parse}

digits-IsWord : (s : Text) → All IsDigit s → IsWord s
unfolding is_whitespace
digits-IsWord [] h = tt
digits-IsWord (c ∷ s) h = (ground (arith, h.0), digits-IsWord s h.1)

digits_low : (s : Text) → All IsDigit s → All (λ c. c < 0x80) s
digits_low [] h = tt
digits_low (c ∷ s) h = (omega (arith, h.0), digits_low s h.1)

-- The argument of BDAT: the size, and the word of the last chunk.
abbrev pub size_text : ℕ → (last : Bool) → Text
size_text n false = decimal n
size_text n true = decimal n ++ b' ' ∷ codes "LAST"

size_text_low : (n : ℕ) (last : Bool) → All (λ c. c < 0x80) (size_text n last)
size_text_low n false = digits_low (decimal n) (decimal-digits n)
size_text_low n true =
    All-append (λ c. c < 0x80) (decimal n) (b' ' ∷ codes "LAST")
      (digits_low (decimal n) (decimal-digits n)) (ground arith)

last-IsWord : IsWord (codes "LAST")
unfolding is_whitespace
last-IsWord = ground arith

trim_end-size_text :
    (s : Text) (n : ℕ) (last : Bool) → trim_end (s ++ size_text n last) ≡ s ++ size_text n last
trim_end-size_text s n false =
    trim_end-append s (decimal n) (digits-IsWord (decimal n) (decimal-digits n))
      (decimal_nonempty n)
trim_end-size_text s n true =
    let e : s ++ (decimal n ++ b' ' ∷ codes "LAST")
        ≡ (s ++ (decimal n ++ b' ' ∷ [])) ++ codes "LAST" =
      ap (λ t. s ++ t) (sym (append_assoc (decimal n) (b' ' ∷ []) (codes "LAST")))
      ∙ sym (append_assoc s (decimal n ++ b' ' ∷ []) (codes "LAST")) in
    ap trim_end e
    ∙ trim_end-append (s ++ (decimal n ++ b' ' ∷ [])) (codes "LAST") last-IsWord (ground arith)
    ∙ sym e

starts_fixed : (s more : Text) → IsWord s → s ≢ [] → trim_start (s ++ more) ≡ s ++ more
unfolding trim_start
starts_fixed [] more h n = ground (arith, n)
starts_fixed (c ∷ s) more h n = ground (arith, h.0)

trim-size_text : (n : ℕ) (last : Bool) → trim (size_text n last) ≡ size_text n last
unfolding trim
trim-size_text n false =
    ap trim_start (trim_end-size_text [] n false)
    ∙ ap trim_start (sym (append-nil (decimal n)))
    ∙ starts_fixed (decimal n) [] (digits-IsWord (decimal n) (decimal-digits n))
        (decimal_nonempty n)
    ∙ append-nil (decimal n)
trim-size_text n true =
    ap trim_start (trim_end-size_text [] n true)
    ∙ starts_fixed (decimal n) (b' ' ∷ codes "LAST") (digits-IsWord (decimal n) (decimal-digits n))
        (decimal_nonempty n)

size_words : Bool → List Text
size_words last = if last then codes "LAST" ∷ [] else []

split_whitespace-size_text :
    (n : ℕ) (last : Bool) → split_whitespace (size_text n last) ≡ decimal n ∷ size_words last
unfolding size_words
split_whitespace-size_text n false =
    split_whitespace-last (decimal n) (digits-IsWord (decimal n) (decimal-digits n))
      (decimal_nonempty n)
split_whitespace-size_text n true =
    split_whitespace-word (decimal n) (codes "LAST") (digits-IsWord (decimal n) (decimal-digits n))
      (decimal_nonempty n)
    ∙ ap (λ ws. decimal n ∷ ws) (split_whitespace-last (codes "LAST") last-IsWord (ground arith))

append_nonempty : (s more : Text) → s ≢ [] → is_empty (s ++ more) ≡ false
unfolding is_empty
append_nonempty [] more n = ground (arith, n)
append_nonempty (c ∷ s) more n = refl

size_text_nonempty : (n : ℕ) (last : Bool) → is_empty (size_text n last) ≡ false
size_text_nonempty n false =
    ap is_empty (sym (append-nil (decimal n))) ∙ append_nonempty (decimal n) [] (decimal_nonempty n)
size_text_nonempty n true = append_nonempty (decimal n) (b' ' ∷ codes "LAST") (decimal_nonempty n)

bdat_words-decimal :
    (n : ℕ) (last : Bool)
    → n < u64_mod
    → bdat_words (decimal n ∷ size_words last) ≡ ok (bdat n last)
unfolding bdat_words size_words eq_ignore_ascii_case to_ascii_uppercase to_ascii_upper same
bdat_words-decimal n false h = ground (arith, parse_unsigned-decimal u64_mod n h)
bdat_words-decimal n true h = ground (arith, parse_unsigned-decimal u64_mod n h)

parse_bdat-size_text :
    (n : ℕ) (last : Bool) → n < u64_mod → parse_bdat (size_text n last) ≡ ok (bdat n last)
unfolding parse_bdat split_whitespace
parse_bdat-size_text n last h =
    ap (λ b. guard_syntax (not b) (bdat_words (split_whitespace (size_text n last))))
      (size_text_nonempty n last)
    ∙ ap bdat_words (split_whitespace-size_text n last)
    ∙ bdat_words-decimal n last h

verb_bdat :
    (parse_ip : Text → Option IpAddr) (rest : Text)
    → parse_verb parse_ip (codes "BDAT") rest ≡ parse_bdat rest
unfolding parse_verb same
verb_bdat parse_ip rest = refl

-- `BDAT n` and `BDAT n LAST`, with the verb in any case of its letters and a size below 2 ^ 64 in
-- decimal form, are parsed as a BDAT of that size, and the last one just with the second word.
pub parse_bdat_line :
    (parse_ip : Text → Option IpAddr) (verb : Text) (n : ℕ) (last : Bool)
    → to_ascii_uppercase verb ≡ codes "BDAT"
    → n < u64_mod
    → parse parse_ip (verb ++ b' ' ∷ size_text n last) ≡ ok (bdat n last)
parse_bdat_line parse_ip verb n last v h =
    parsed
    ∙ ap (λ t. parse_verb parse_ip t (size_text n last)) v
    ∙ verb_bdat parse_ip (size_text n last)
    ∙ parse_bdat-size_text n last h
  where
    low : All (λ c. c < 0x80) verb
    low = to_ascii_uppercase_low verb (subst (All (λ c. c < 0x80)) (sym v) (ground arith))

    spaces : All (λ c. c ≢ 32) verb
    spaces = to_ascii_uppercase_spaces verb (subst (All (λ c. c ≢ 32)) (sym v) (ground arith))

    fixed : trim_end (verb ++ b' ' ∷ size_text n last) ≡ verb ++ b' ' ∷ size_text n last
    fixed =
        let e : verb ++ b' ' ∷ size_text n last ≡ (verb ++ b' ' ∷ []) ++ size_text n last =
          sym (append_assoc verb (b' ' ∷ []) (size_text n last)) in
        ap trim_end e ∙ trim_end-size_text (verb ++ b' ' ∷ []) n last ∙ sym e

    parsed :
        parse parse_ip (verb ++ b' ' ∷ size_text n last)
        ≡ parse_verb parse_ip (to_ascii_uppercase verb) (size_text n last)
    parsed =
        unfold parse parse_text cut_verb is_empty in
        ground (
          arith,
          from_utf8_ascii (verb ++ b' ' ∷ size_text n last) (
              All-append (λ c. c < 0x80) verb (b' ' ∷ size_text n last) low
                (omega arith, size_text_low n last)),
          fixed,
          split_once-append 32 verb (size_text n last) spaces,
          trim-size_text n last,
        )
