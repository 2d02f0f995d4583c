-- ===== src/Client/Reply/Lines.antt =====
-- A line of a reply as crates/sentio-smtp-client/src/connection.rs takes it apart.
use sentio.Common.{
  ℕ, zero, suc, ◌+◌, ◌-◌, ◌/◌, ◌%◌, ◌^◌, ◌<◌, ◌≤◌, [], ◌∷◌, ◌++◌, some, ◌≡◌, ◌≢◌, refl, sym, subst,
  ap, ◌∙◌, arith, true, false, length, length-append, All, All-map, All-append, append_assoc, ltb,
  ◌==◌, ok,
}
use sentio.Common.Text.{Text, decimal, decimal_from, len, utf8_width}
use sentio.Common.Text.Numbers.{decimal-digits, parse_unsigned-decimal}
use sentio.Client.Reply.{
  slice_at, trim_end_matches, trim_line_end, text_behind, with_text, with_code, parse_reply_line,
}

-- A number of three digits.
decimal_from_small :
    (f n : ℕ) (acc : Text) → n < 10 → decimal_from (suc f) n acc ≡ (b'0' + n % 10) ∷ acc
unfolding decimal_from
decimal_from_small f n acc h = ground arith

decimal_from_large :
    (f n : ℕ) (acc : Text)
    → 10 ≤ n
    → decimal_from (suc f) n acc ≡ decimal_from f (n / 10) ((b'0' + n % 10) ∷ acc)
unfolding decimal_from
decimal_from_large f n acc h = ground arith

three_digits : (f n : ℕ) → 100 ≤ n → n < 1000 → length (decimal_from (suc (suc (suc f))) n []) ≡ 3
three_digits f n h k = rw (decimal_from_large (suc (suc f)) n [] (omega arith)) (
    rw (decimal_from_large (suc f) (n / 10) ((b'0' + n % 10) ∷ []) (omega arith)) (
      rw
        (decimal_from_small f (n / 10 / 10) ((b'0' + n / 10 % 10) ∷ (b'0' + n % 10) ∷ [])
          (omega arith))
        refl))

pub length-decimal : (n : ℕ) → 100 ≤ n → n < 1000 → length (decimal n) ≡ 3
unfolding decimal
length-decimal zero h k = absurd (omega arith)
length-decimal (suc zero) h k = absurd (omega arith)
length-decimal (suc (suc n)) h k = three_digits n (suc (suc n)) h k

-- A slice behind ASCII characters.
slice_at-append :
    (s more : Text) → All (λ c. c < 0x80) s → slice_at (length s) (s ++ more) ≡ some (s, more)
unfolding slice_at
slice_at-append [] more h = refl
slice_at-append (c ∷ s) more h =
    let e : utf8_width c ≡ 1 = ground arith in
    rw e (
      let f : suc (length s) - 1 ≡ length s = omega arith in
      rw f (rw (slice_at-append s more h.1) (ground arith)))

len-append : (s more : Text) → len (s ++ more) ≡ len s + len more
unfolding len
len-append [] more = omega arith
len-append (c ∷ s) more = omega (arith, len-append s more)

len_pos : (c : ℕ) (s : Text) → 1 ≤ len (c ∷ s)
unfolding len
len_pos c s = ground arith

len_ascii : (s : Text) → All (λ c. c < 0x80) s → len s ≡ length s
unfolding len
len_ascii [] h = refl
len_ascii (c ∷ s) h = ground (arith, len_ascii s h.1)

-- A line with a code, a separator and a text that is not empty.
pub parse_reply_line-wire :
    (code sep c : ℕ) (text : Text)
    → 100 ≤ code
    → code < 1000
    → sep < 0x80
    → parse_reply_line (decimal code ++ (sep ∷ c ∷ text))
      ≡ ok (record { code = code; more = sep == b'-'; text = c ∷ text })
unfolding parse_reply_line with_code with_text text_behind
parse_reply_line-wire code sep c text h k s =
    let digits = decimal code in
    let n = length-decimal code h k in
    let ascii : All (λ x. x < 0x80) digits =
      All-map _ _ digits (λ x p. omega (arith, p)) (decimal-digits code) in
    let whole = len-append digits (sep ∷ c ∷ text) in
    let separator = len-append (sep ∷ []) (c ∷ text) in
    let three = len_ascii digits ascii in
    let one = len_ascii (sep ∷ []) (s, tt) in
    let pos = len_pos c text in
    let big : 5 ≤ len (digits ++ (sep ∷ c ∷ text)) =
      omega (arith, whole, separator, three, one, pos, n) in
    let long : ltb (len (digits ++ (sep ∷ c ∷ text))) 3 ≡ false = ground (arith, big) in
    let longer : ltb 4 (len (digits ++ (sep ∷ c ∷ text))) ≡ true = ground (arith, big) in
    let at3 : slice_at 3 (digits ++ (sep ∷ c ∷ text)) ≡ some (digits, sep ∷ c ∷ text) =
      subst (λ m. slice_at m (digits ++ (sep ∷ c ∷ text)) ≡ some (digits, sep ∷ c ∷ text)) n
        (slice_at-append digits (sep ∷ c ∷ text) ascii) in
    let at4 : slice_at 4 (digits ++ (sep ∷ c ∷ text)) ≡ some (digits ++ sep ∷ [], c ∷ text) =
      subst (λ t. slice_at 4 t ≡ some (digits ++ sep ∷ [], c ∷ text))
        (append_assoc digits (sep ∷ []) (c ∷ text))
        (subst
          (λ m.
            slice_at m ((digits ++ sep ∷ []) ++ (c ∷ text)) ≡ some (digits ++ sep ∷ [], c ∷ text))
          (omega (arith, length-append {0} digits (sep ∷ []), n))
          (slice_at-append (digits ++ sep ∷ []) (c ∷ text)
            (All-append (λ x. x < 0x80) digits (sep ∷ []) ascii (s, tt)))) in
    rw long (
      rw at3
        (rw (parse_unsigned-decimal (2 ^ 16) code (omega (arith, k))) (rw longer (rw at4 refl))))

-- The carriage return of a line end stays: the trims come in the wrong order for it.
trim_end_last : (d c : ℕ) (s : Text) → c ≢ d → trim_end_matches d (s ++ c ∷ []) ≡ s ++ c ∷ []
unfolding trim_end_matches
trim_end_last d c [] h = ground arith
trim_end_last d c (x ∷ []) h = ground (arith, trim_end_last d c [] h)
trim_end_last d c (x ∷ y ∷ s) h = ground (arith, trim_end_last d c (y ∷ s) h)

trim_end_drops : (d c : ℕ) (s : Text) → c ≢ d → trim_end_matches d (s ++ c ∷ d ∷ []) ≡ s ++ c ∷ []
unfolding trim_end_matches
trim_end_drops d c [] h = ground arith
trim_end_drops d c (x ∷ []) h = ground (arith, trim_end_drops d c [] h)
trim_end_drops d c (x ∷ y ∷ s) h = ground (arith, trim_end_drops d c (y ∷ s) h)

pub trim_line_end_keeps_cr : (s : Text) → trim_line_end (s ++ b'\r' ∷ b'\n' ∷ []) ≡ s ++ b'\r' ∷ []
unfolding trim_line_end
trim_line_end_keeps_cr s =
    ap (trim_end_matches b'\n') (
      ap (trim_end_matches b'\r') (sym (append_assoc s (b'\r' ∷ []) (b'\n' ∷ [])))
      ∙ trim_end_last b'\r' b'\n' (s ++ b'\r' ∷ []) (omega arith)
      ∙ append_assoc s (b'\r' ∷ []) (b'\n' ∷ []))
    ∙ trim_end_drops b'\n' b'\r' s (omega arith)
