-- ===== src/Server/Commands/Lines.antt =====
-- MAIL and RCPT with an address, through the parser of crates/sentio-smtp-server/src/commands.rs.
use sentio.Common.{
  ℕ, ◌<◌, true, false, [], ◌∷◌, ◌++◌, Option, none, ◌≡◌, ◌≢◌, refl, sym, ap, subst, ◌∙◌, arith, ok,
  length, drop, All, leb, ◌&&◌, drop-append,
}
use sentio.Common.Text.{
  Text, codes, same, is_empty, starts_with, is_whitespace, trim_start, split_whitespace,
  to_ascii_uppercase, to_ascii_upper,
}
use sentio.Common.Text.Laws.{
  to_ascii_uppercase_low, to_ascii_uppercase_spaces, to_ascii_uppercase-append, starts_with-append,
  length-to_ascii_uppercase,
}
use sentio.Server.Commands.Types.{IpAddr, mail_from, rcpt_to}
use sentio.Server.Commands.MailFrom.{bare_mail, mail_params, parse_mail_from}
use sentio.Server.Commands.RcptTo.{rcpt_params, parse_rcpt_to}
use sentio.Server.Commands.Line.{parse_verb, parse}
use sentio.Server.Commands.Paths.{
  IsAddress, angle, address_line, extract_angle_path-angle, parse-address_line,
}

-- The facts on a word that is known in upper case.
word_low :
    (s word : Text) → to_ascii_uppercase s ≡ word → All (λ c. c < 0x80) word → All (λ c. c < 0x80) s
word_low s word e h = to_ascii_uppercase_low s (subst (All (λ c. c < 0x80)) (sym e) h)

word_spaces :
    (s word : Text) → to_ascii_uppercase s ≡ word → All (λ c. c ≢ 32) word → All (λ c. c ≢ 32) s
word_spaces s word e h = to_ascii_uppercase_spaces s (subst (All (λ c. c ≢ 32)) (sym e) h)

head_of_word :
    (c : ℕ) (s : Text) (d : ℕ) (word : Text)
    → to_ascii_uppercase (c ∷ s) ≡ d ∷ word
    → leb b'A' d && leb d b'Z' ≡ true
    → is_whitespace c ≡ false
unfolding to_ascii_uppercase to_ascii_upper is_whitespace
head_of_word c s d word e h = ground arith

keyword_matches :
    (s word more : Text)
    → to_ascii_uppercase s ≡ word
    → starts_with word (to_ascii_uppercase (s ++ more)) ≡ true
keyword_matches s word more e =
    ap (starts_with word)
      (to_ascii_uppercase-append s more ∙ ap (λ t. t ++ to_ascii_uppercase more) e)
    ∙ starts_with-append word (to_ascii_uppercase more)

drop-keyword :
    (s word more : Text) → to_ascii_uppercase s ≡ word → drop (length word) (s ++ more) ≡ more
drop-keyword s word more e =
    ap (λ n. drop n (s ++ more)) (ap length (sym e) ∙ length-to_ascii_uppercase s)
    ∙ drop-append s more

parse_mail_from-angle :
    (keyword path : Text)
    → to_ascii_uppercase keyword ≡ codes "FROM:"
    → IsAddress path
    → parse_mail_from (keyword ++ angle path) ≡ ok (mail_from (bare_mail path))
unfolding parse_mail_from trim_start is_whitespace split_whitespace mail_params
parse_mail_from-angle keyword path e h = ground (
  arith,
  keyword_matches keyword (codes "FROM:") (angle path) e,
  drop-keyword keyword (codes "FROM:") (angle path) e,
  extract_angle_path-angle path h,
)

parse_rcpt_to-angle :
    (keyword path : Text)
    → to_ascii_uppercase keyword ≡ codes "TO:"
    → IsAddress path
    → path ≢ []
    → parse_rcpt_to (keyword ++ angle path)
      ≡ ok (rcpt_to (record { path = path; notify = none; orcpt = none }))
unfolding parse_rcpt_to trim_start is_whitespace split_whitespace rcpt_params is_empty
parse_rcpt_to-angle keyword path e h n = ground (
  arith,
  keyword_matches keyword (codes "TO:") (angle path) e,
  drop-keyword keyword (codes "TO:") (angle path) e,
  extract_angle_path-angle path h,
)

verb_mail :
    (parse_ip : Text → Option IpAddr) (rest : Text)
    → parse_verb parse_ip (codes "MAIL") rest ≡ parse_mail_from rest
unfolding parse_verb same
verb_mail parse_ip rest = refl

verb_rcpt :
    (parse_ip : Text → Option IpAddr) (rest : Text)
    → parse_verb parse_ip (codes "RCPT") rest ≡ parse_rcpt_to rest
unfolding parse_verb same
verb_rcpt parse_ip rest = refl

-- `MAIL FROM:<path>`, in any case of the letters of the two words, is parsed as a MAIL with that path
-- and no parameters, for a path in ASCII without spaces, `>` or a leading `@`.
pub parse_mail_line :
    (parse_ip : Text → Option IpAddr) (verb keyword path : Text)
    → to_ascii_uppercase verb ≡ codes "MAIL"
    → to_ascii_uppercase keyword ≡ codes "FROM:"
    → IsAddress path
    → parse parse_ip (address_line verb keyword path) ≡ ok (mail_from (bare_mail path))
unfolding to_ascii_uppercase
parse_mail_line parse_ip verb [] path v e h = ground arith
parse_mail_line parse_ip verb (c ∷ keyword) path v e h =
    parse-address_line parse_ip verb c keyword path
      (word_spaces verb (codes "MAIL") v (ground arith))
      (word_low verb (codes "MAIL") v (ground arith))
      (word_low (c ∷ keyword) (codes "FROM:") e (ground arith))
      (head_of_word c keyword b'F' (codes "ROM:") e refl) h
    ∙ ap (λ t. parse_verb parse_ip t (c ∷ (keyword ++ angle path))) v
    ∙ verb_mail parse_ip (c ∷ (keyword ++ angle path))
    ∙ parse_mail_from-angle (c ∷ keyword) path e h

-- `RCPT TO:<path>`, in any case of the letters of the two words, is parsed as a RCPT with that path and
-- no parameters, for such a path that is not empty.
pub parse_rcpt_line :
    (parse_ip : Text → Option IpAddr) (verb keyword path : Text)
    → to_ascii_uppercase verb ≡ codes "RCPT"
    → to_ascii_uppercase keyword ≡ codes "TO:"
    → IsAddress path
    → path ≢ []
    → parse parse_ip (address_line verb keyword path)
      ≡ ok (rcpt_to (record { path = path; notify = none; orcpt = none }))
unfolding to_ascii_uppercase
parse_rcpt_line parse_ip verb [] path v e h n = ground arith
parse_rcpt_line parse_ip verb (c ∷ keyword) path v e h n =
    parse-address_line parse_ip verb c keyword path
      (word_spaces verb (codes "RCPT") v (ground arith))
      (word_low verb (codes "RCPT") v (ground arith))
      (word_low (c ∷ keyword) (codes "TO:") e (ground arith))
      (head_of_word c keyword b'T' (codes "O:") e refl) h
    ∙ ap (λ t. parse_verb parse_ip t (c ∷ (keyword ++ angle path))) v
    ∙ verb_rcpt parse_ip (c ∷ (keyword ++ angle path))
    ∙ parse_rcpt_to-angle (c ∷ keyword) path e h n
