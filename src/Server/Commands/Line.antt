-- ===== src/Server/Commands/Line.antt =====
-- `parse` of crates/sentio-smtp-server/src/commands.rs: one command line, without its line end.
use sentio.Common.{
  ℕ, Bool, not, ◌||◌, List, [], Option, none, some, if◌then◌else◌, ok, err, ◌>>=◌, ok_or,
}
use sentio.Common.Text.{Text, codes, same, is_empty, split_once, trim, trim_end, to_ascii_uppercase}
use Prim.Native.String.{String}
use sentio.Common.Utf8.{from_utf8}
use sentio.Server.Response.{command_not_recognized, syntax_error}
use sentio.Server.Commands.Types.{
  IpAddr, SmtpCommand, ehlo, helo, data_cmd, quit, rset, noop, vrfy, help, start_tls, auth, xclient,
  not_implemented, unknown, Parsed, guard_syntax,
}
use sentio.Server.Commands.MailFrom.{parse_mail_from}
use sentio.Server.Commands.RcptTo.{parse_rcpt_to, parse_bdat, parse_xclient}

-- The verb and the rest of the line.
unfoldable pub cut_verb : Text → Text × Text
unfolding split_once trim
cut_verb trimmed = elim (split_once b' ' trimmed) [
  | some (verb, rest) ↦ (verb, trim rest)
  | none ↦ (trimmed, [])
]

module _ (parse_ip : Text → Option IpAddr) where
  -- The `match` on the upper-case verb.
  unfoldable pub parse_verb : (verb_upper rest : Text) → Parsed SmtpCommand
  unfolding same is_empty parse_mail_from parse_rcpt_to parse_bdat parse_xclient
  parse_verb verb_upper rest =
      if is "EHLO"
      then guard_syntax (not (is_empty rest)) (ok (ehlo rest))
      else if is "HELO"
      then guard_syntax (not (is_empty rest)) (ok (helo rest))
      else if is "MAIL"
      then parse_mail_from rest
      else if is "RCPT"
      then parse_rcpt_to rest
      else if is "DATA"
      then guard_syntax (is_empty rest) (ok data_cmd)
      else if is "QUIT"
      then ok quit
      else if is "RSET"
      then ok rset
      else if is "NOOP"
      then ok noop
      else if is "VRFY"
      then ok (vrfy rest)
      else if is "HELP"
      then ok help
      else if is "STARTTLS"
      then guard_syntax (is_empty rest) (ok start_tls)
      else if is "AUTH"
      then guard_syntax (not (is_empty rest)) (ok (auth rest))
      else if is "BDAT"
      then parse_bdat rest
      else if is "XCLIENT"
      then (do p ← parse_xclient parse_ip rest; ok (xclient p))
      else if is "EXPN" || is "TURN" || is "ETRN"
      then ok (not_implemented verb_upper)
      else ok (unknown verb_upper)
    where
      is : String → Bool
      is name = same verb_upper (codes name)

  unfoldable pub parse_text : Text → Parsed SmtpCommand
  unfolding cut_verb parse_verb trim_end is_empty to_ascii_uppercase
  parse_text text =
      let trimmed = trim_end text in
      let (verb, rest) = cut_verb trimmed in
      if is_empty trimmed
      then err command_not_recognized
      else parse_verb (to_ascii_uppercase verb) rest

  unfoldable pub parse : List ℕ → Parsed SmtpCommand
  unfolding from_utf8 parse_text
  parse line = do text ← ok_or (from_utf8 line) syntax_error; parse_text text
