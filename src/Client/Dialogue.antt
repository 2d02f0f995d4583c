-- ===== src/Client/Dialogue.antt =====
-- The commands of the client of crates/sentio-smtp-client/src/connection.rs, and what it learns of the
-- server.
use sentio.Common.{
  ℕ, ◌^◌, ◌/◌, ◌%◌, ◌+◌, ◌-◌, List, [], ◌∷◌, ◌++◌, Option, none, some, true, false, not, ◌||◌, ltb,
  leb, ◌==◌, if◌then◌else◌, Result, ok,
}
use sentio.Common.Text.{Text, codes, same, decimal, parse_unsigned, split_whitespace}
use sentio.Common.Utf8.Encode.{to_utf8}
use sentio.Client.DotStuff.{crlf, dot_stuff}
use sentio.Client.Wire.{
  ReadOutcome, WriteOutcome, ServerCapabilities, SmtpConnection, Fault, error, Io, ◌>>=◌, ◌>>◌,
  return, fail, smtp_err, write_all,
}
use sentio.Client.Reply.{SmtpResponse, is_success, full_text, read_response}

abbrev pub no_capabilities : ServerCapabilities
no_capabilities = record {
  starttls = false;
  size = none;
  pipelining = false;
  eight_bit_mime = false;
  smtputf8 = false;
  chunking = false;
  dsn = false;
  auth_mechanisms = [];
}

-- `parts.get(1).and_then(|s| s.parse().ok())`.
abbrev pub size_of : List Text → Option ℕ
size_of [] = none
size_of (s ∷ args) = parse_unsigned (2 ^ 64) s

unfoldable pub capability :
    ServerCapabilities → (keyword : Text) → (args : List Text) → ServerCapabilities
capability caps keyword args =
    if same keyword (codes "STARTTLS")
    then record caps { starttls = true }
    else if same keyword (codes "SIZE")
    then record caps { size = size_of args }
    else if same keyword (codes "PIPELINING")
    then record caps { pipelining = true }
    else if same keyword (codes "8BITMIME")
    then record caps { eight_bit_mime = true }
    else if same keyword (codes "SMTPUTF8")
    then record caps { smtputf8 = true }
    else if same keyword (codes "CHUNKING")
    then record caps { chunking = true }
    else if same keyword (codes "DSN")
    then record caps { dsn = true }
    else if same keyword (codes "AUTH")
    then record caps { auth_mechanisms = args }
    else caps

unfoldable pub capability_of : ServerCapabilities → List Text → ServerCapabilities
capability_of caps [] = caps
capability_of caps (keyword ∷ args) = capability caps keyword args

-- The loop over the lines; `to_uppercase` is that of Unicode.
unfoldable pub parse_ehlo_lines :
    (to_uppercase : Text → Text) → ServerCapabilities → List Text → ServerCapabilities
parse_ehlo_lines to_uppercase caps [] = caps
parse_ehlo_lines to_uppercase caps (line ∷ lines) =
    parse_ehlo_lines to_uppercase (capability_of caps (split_whitespace (to_uppercase line))) lines

-- The lines behind the first one.
abbrev pub tail : List Text → List Text
tail [] = []
tail (line ∷ lines) = lines

-- `{:02X}` behind a plus sign, or the byte.
abbrev pub upper_hex : ℕ → ℕ
upper_hex n = if ltb n 10 then b'0' + n else b'A' + (n - 10)

unfoldable pub xtext_bytes : List ℕ → Text
xtext_bytes [] = []
xtext_bytes (byte ∷ bytes) =
    let rest = xtext_bytes bytes in
    if byte == b'+' || byte == b'=' || leb byte 32 || leb 127 byte
    then b'+' ∷ upper_hex (byte / 16 % 16) ∷ upper_hex (byte % 16) ∷ rest
    else byte ∷ rest

unfoldable pub xtext_encode : Text → Text
xtext_encode s = xtext_bytes (to_utf8 s)

unfoldable pub mail_from_line : (sender : Text) → (size : Option ℕ) → Text
mail_from_line sender (some sz) = codes "MAIL FROM:<" ++ (sender ++ (codes "> SIZE=" ++ decimal sz))
mail_from_line sender none = codes "MAIL FROM:<" ++ (sender ++ codes ">")

unfoldable pub rcpt_to_line : (recipient : Text) → Text
rcpt_to_line recipient = codes "RCPT TO:<" ++ (recipient ++ codes ">")

-- A parameter, if it is given.
abbrev pub with_param : (name : Text) → Option Text → Text → Text
with_param name none cmd = cmd
with_param name (some value) cmd = cmd ++ (name ++ value)

module _ (lossy : List ℕ → Text) (to_uppercase : Text → Text) where
  unfoldable pub command : (cmd : Text) → Io SmtpResponse
  command cmd = do write_all (to_utf8 (cmd ++ crlf)); read_response lossy

  unfoldable pub check_greeting : SmtpResponse → Io SmtpResponse
  check_greeting greeting =
      if is_success greeting
      then return greeting
      else fail (
          error (
            smtp_err (
              codes "server rejected connection: "
              ++ (decimal greeting.code ++ (b' ' ∷ full_text greeting)))))

  abbrev pub opened :
      List ℕ → List ReadOutcome → List WriteOutcome → (hostname : Text) → SmtpConnection
  opened read_buf pending writes hostname = record {
    read_buf = read_buf;
    pending = pending;
    writes = writes;
    sent = [];
    hostname = hostname;
    capabilities = none;
  }

  unfoldable pub new :
      List ReadOutcome
      → List WriteOutcome
      → (hostname : Text) → Result Fault SmtpResponse × SmtpConnection
  new pending writes hostname =
      (do greeting ← read_response lossy; check_greeting greeting)
        (opened [] pending writes hostname)

  abbrev pub from_upgraded :
      (read_buf : List ℕ)
      → List ReadOutcome
      → List WriteOutcome
      → (hostname : Text) → SmtpConnection
  from_upgraded read_buf pending writes hostname = opened read_buf pending writes hostname

  unfoldable pub learn : SmtpResponse → Io SmtpResponse
  learn response c =
      if is_success response
      then (
        ok response,
        record c {
          capabilities = some (parse_ehlo_lines to_uppercase no_capabilities (tail response.lines));
        },
      )
      else (ok response, c)

  unfoldable pub ehlo : (my_hostname : Text) → Io SmtpResponse
  ehlo my_hostname = do response ← command (codes "EHLO " ++ my_hostname); learn response

  unfoldable pub mail_from : (sender : Text) → (size : Option ℕ) → Io SmtpResponse
  mail_from sender size = command (mail_from_line sender size)

  unfoldable pub rcpt_to : (recipient : Text) → Io SmtpResponse
  rcpt_to recipient = command (rcpt_to_line recipient)

  abbrev pub encoded : Option Text → Option Text
  encoded none = none
  encoded (some envid) = some (xtext_encode envid)

  unfoldable pub mail_from_with_dsn :
      (sender : Text) → (size : Option ℕ) → (ret envid : Option Text) → Io SmtpResponse
  mail_from_with_dsn sender size ret envid = command (
      with_param (codes " ENVID=") (encoded envid)
        (with_param (codes " RET=") ret (mail_from_line sender size)))

  unfoldable pub rcpt_to_with_dsn :
      (recipient : Text) → (notify orcpt : Option Text) → Io SmtpResponse
  rcpt_to_with_dsn recipient notify orcpt = command (
      with_param (codes " ORCPT=") orcpt
        (with_param (codes " NOTIFY=") notify (rcpt_to_line recipient)))

  unfoldable pub send_body : (message : List ℕ) → SmtpResponse → Io SmtpResponse
  send_body message init =
      if not (init.code == 354)
      then return init
      else do write_all (dot_stuff message); read_response lossy

  unfoldable pub send_data : (message : List ℕ) → Io SmtpResponse
  send_data message = do init ← command (codes "DATA"); send_body message init

  unfoldable pub rset : Io SmtpResponse
  rset = command (codes "RSET")

  unfoldable pub quit : Io SmtpResponse
  quit = command (codes "QUIT")

  unfoldable pub starttls : Io SmtpResponse
  starttls = command (codes "STARTTLS")
