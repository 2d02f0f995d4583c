-- ===== src/Server/Commands/Tests.antt =====
-- The parser on the lines of the unit tests of commands.rs.
use sentio.Common.{◌++◌, ◌∷◌, Option, none, some, true, false, ◌≡◌, refl, ok, err, arith}
use sentio.Common.Text.{Text, codes, is_whitespace, starts_with, to_ascii_uppercase, to_ascii_upper}
use sentio.Server.Commands.MailFrom.{bare_mail}
use sentio.Server.Commands.Paths.{IsAddress, address_line}
use sentio.Server.Commands.Chunks.{size_text, parse_bdat_line}
use sentio.Server.Commands.Lines.{parse_mail_line, parse_rcpt_line}
use sentio.Server.Response.{syntax_error, command_not_recognized}
use sentio.Server.Commands.Types.{
  ehlo, mail_from, rcpt_to, data_cmd, bdat, unknown, not_implemented, eight_bit_mime, flags, IpAddr,
}
use sentio.Server.Commands.Line.{parse}

abbrev no_ip : Text → Option IpAddr
no_ip _ = none

parse_tests :
    (parse no_ip (codes "ehlo EXAMPLE.COM") ≡ ok (ehlo (codes "EXAMPLE.COM")))
    × (parse no_ip (codes "EHLO") ≡ err syntax_error)
    × (parse no_ip (codes "DATA") ≡ ok data_cmd)
    × (parse no_ip (codes "DATA extra") ≡ err syntax_error)
    × (parse no_ip (codes "  ") ≡ err command_not_recognized)
    × (parse no_ip (codes "bdat 1024 last") ≡ ok (bdat 1024 true))
    × (parse no_ip (codes "EXPN list") ≡ ok (not_implemented (codes "EXPN")))
    × (parse no_ip (codes "FOO bar") ≡ ok (unknown (codes "FOO")))
unfolding parse
parse_tests = (refl, refl, refl, refl, refl, refl, refl, refl)

mail_test :
    parse no_ip (codes "MAIL FROM:<@r.org:u@ex.com> BODY=8BITMIME SMTPUTF8 size=10 X=1")
    ≡ ok (
        mail_from (record {
          path = codes "u@ex.com";
          size = some 10;
          body = some eight_bit_mime;
          smtputf8 = true;
          ret = none;
          envid = none;
          auth_param = none;
        }))
unfolding parse
mail_test = refl

rcpt_test :
    parse no_ip (codes "rcpt to: <u@ex.com> NOTIFY=SUCCESS,DELAY ORCPT=rfc822;u@ex.com")
    ≡ ok (
        rcpt_to (record {
          path = codes "u@ex.com";
          notify = some (flags true false true);
          orcpt = some (codes "rfc822;u@ex.com");
        }))
unfolding parse
rcpt_test = refl

rcpt_empty : parse no_ip (codes "RCPT TO:<>") ≡ err syntax_error
unfolding parse
rcpt_empty = refl

abbrev address : Text
address = codes "u@ex.com"

address-IsAddress : IsAddress address
unfolding is_whitespace starts_with
address-IsAddress = record { chars = ground arith; no_route = refl }

parse_mail_line_example :
    parse no_ip (address_line (codes "mail") (codes "From:") address)
    ≡ ok (mail_from (bare_mail address))
unfolding to_ascii_uppercase to_ascii_upper
parse_mail_line_example =
    parse_mail_line no_ip (codes "mail") (codes "From:") address refl refl address-IsAddress

parse_rcpt_line_example :
    parse no_ip (address_line (codes "RCPT") (codes "to:") address)
    ≡ ok (rcpt_to (record { path = address; notify = none; orcpt = none }))
unfolding to_ascii_uppercase to_ascii_upper
parse_rcpt_line_example =
    parse_rcpt_line no_ip (codes "RCPT") (codes "to:") address refl refl address-IsAddress
      (ground arith)

parse_bdat_line_example :
    parse no_ip (codes "bdat" ++ b' ' ∷ size_text 1024 true) ≡ ok (bdat 1024 true)
unfolding to_ascii_uppercase to_ascii_upper
parse_bdat_line_example = parse_bdat_line no_ip (codes "bdat") 1024 true refl (omega arith)
