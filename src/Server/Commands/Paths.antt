-- ===== src/Server/Commands/Paths.antt =====
-- A command line with an address, through the parser of crates/sentio-smtp-server/src/commands.rs.
use sentio.Common.{
  ℕ, ◌+◌, ◌<◌, false, [], ◌∷◌, ◌++◌, Option, ◌≡◌, ◌≢◌, refl, sym, ap, ◌∙◌, arith, ok, length, drop,
  All, All-append, append_assoc, take-append,
}
use sentio.Common.Text.{
  Text, codes, is_empty, starts_with, find, is_whitespace, trim_start, trim_end, trim,
  to_ascii_uppercase,
}
use sentio.Common.Text.Laws.{trim_end_fixed, trim_words, split_once-append, find-append}
use sentio.Common.Utf8.{from_utf8_ascii}
use sentio.Server.Commands.Types.{IpAddr}
use sentio.Server.Commands.MailFrom.{extract_angle_path}
use sentio.Server.Commands.Line.{cut_verb, parse_verb, parse_text, parse}

-- A character of an address between angle brackets.
abbrev pub IsAddressChar : ℕ → Type 0
IsAddressChar c = (is_whitespace c ≡ false) × ((c < 0x80) × (c ≢ b'>'))

-- ASCII, without spaces, brackets or a source route.
pub record IsAddress (path : Text) : Type 0 where
  pub chars : All IsAddressChar path
  pub no_route : starts_with (codes "@") path ≡ false

-- The address in its brackets.
abbrev pub angle : Text → Text
angle path = b'<' ∷ (path ++ b'>' ∷ [])

chars_words : (s : Text) → All IsAddressChar s → All (λ c. is_whitespace c ≡ false) s
chars_words [] h = tt
chars_words (c ∷ s) h = (h.0.0, chars_words s h.1)

chars_closed : (s : Text) → All IsAddressChar s → All (λ c. c ≢ b'>') s
chars_closed [] h = tt
chars_closed (c ∷ s) h = (h.0.1.1, chars_closed s h.1)

chars_low : (s : Text) → All IsAddressChar s → All (λ c. c < 0x80) s
chars_low [] h = tt
chars_low (c ∷ s) h = (h.0.1.0, chars_low s h.1)

drop_bracket : (s : Text) → drop (length s + 1) (s ++ b'>' ∷ []) ≡ []
drop_bracket [] = refl
drop_bracket (c ∷ s) = ground (arith, drop_bracket s)

pub extract_angle_path-angle :
    (path : Text) → IsAddress path → extract_angle_path (angle path) ≡ ok (path, [])
unfolding extract_angle_path find
extract_angle_path-angle path h = ground (
  arith,
  find-append b'>' path [] (chars_closed path h.chars),
  take-append path (b'>' ∷ []),
  drop_bracket path,
  trim_words path (chars_words path h.chars),
  h.no_route,
)

-- The line of a command: the verb, a space, a keyword with its colon, the address.
abbrev pub address_line : (verb keyword path : Text) → Text
address_line verb keyword path = verb ++ b' ' ∷ (keyword ++ angle path)

angle-append : (keyword path : Text) → keyword ++ angle path ≡ (keyword ++ b'<' ∷ path) ++ b'>' ∷ []
angle-append keyword path = sym (append_assoc keyword (b'<' ∷ path) (b'>' ∷ []))

bracket_end : is_whitespace b'>' ≡ false
unfolding is_whitespace
bracket_end = refl

trim_end-address_line :
    (verb keyword path : Text)
    → trim_end (address_line verb keyword path) ≡ address_line verb keyword path
trim_end-address_line verb keyword path =
    let body : Text = verb ++ b' ' ∷ (keyword ++ b'<' ∷ path) in
    let e : address_line verb keyword path ≡ body ++ b'>' ∷ [] =
      ap (λ t. verb ++ b' ' ∷ t) (angle-append keyword path)
      ∙ sym (append_assoc verb (b' ' ∷ (keyword ++ b'<' ∷ path)) (b'>' ∷ [])) in
    ap trim_end e ∙ trim_end_fixed body b'>' bracket_end ∙ sym e

trim-keyword :
    (c : ℕ) (keyword path : Text)
    → is_whitespace c ≡ false
    → trim (c ∷ (keyword ++ angle path)) ≡ c ∷ (keyword ++ angle path)
unfolding trim trim_start
trim-keyword c keyword path h =
    let e : c ∷ (keyword ++ angle path) ≡ (c ∷ (keyword ++ b'<' ∷ path)) ++ b'>' ∷ [] =
      ap (λ t. c ∷ t) (angle-append keyword path) in
    ground (arith, e, trim_end_fixed (c ∷ (keyword ++ b'<' ∷ path)) b'>' bracket_end)

low_line :
    (verb keyword path : Text)
    → All (λ c. c < 0x80) verb
    → All (λ c. c < 0x80) keyword
    → IsAddress path
    → All (λ c. c < 0x80) (address_line verb keyword path)
low_line verb keyword path v k h =
    All-append (λ c. c < 0x80) verb (b' ' ∷ (keyword ++ angle path)) v
      (
        omega arith,
        All-append (λ c. c < 0x80) keyword (angle path) k
            (
              omega arith,
              All-append (λ c. c < 0x80) path (b'>' ∷ []) (chars_low path h.chars)
                  (omega arith, tt),
            ),
      )

-- The parser on such a line: the verb in upper case, and the rest.
pub parse-address_line :
    (parse_ip : Text → Option IpAddr) (verb : Text) (c : ℕ) (keyword path : Text)
    → All (λ c. c ≢ 32) verb
    → All (λ c. c < 0x80) verb
    → All (λ c. c < 0x80) (c ∷ keyword)
    → is_whitespace c ≡ false
    → IsAddress path
    → parse parse_ip (address_line verb (c ∷ keyword) path)
      ≡ parse_verb parse_ip (to_ascii_uppercase verb) (c ∷ (keyword ++ angle path))
unfolding parse parse_text cut_verb is_empty
parse-address_line parse_ip verb c keyword path spaces v k w h = ground (
  arith,
  from_utf8_ascii (address_line verb (c ∷ keyword) path) (low_line verb (c ∷ keyword) path v k h),
  trim_end-address_line verb (c ∷ keyword) path,
  split_once-append 32 verb ((c ∷ keyword) ++ angle path) spaces,
  trim-keyword c keyword path w,
)
