-- ===== src/Server/Response.antt =====
-- Replies to the client: crates/sentio-smtp-server/src/response.rs.
use sentio.Common.{ℕ, List, [], ◌∷◌, ◌++◌, Option, none, some}
use sentio.Common.Text.{Text, codes, decimal}

pub record SmtpResponse : Type 0 where
  pub code : ℕ
  pub enhanced : Option Text
  pub lines : List Text

abbrev pub new : ℕ → Option Text → Text → SmtpResponse
new code enhanced message = record { code = code; enhanced = enhanced; lines = message ∷ [] }

abbrev pub multi : ℕ → Option Text → List Text → SmtpResponse
multi code enhanced lines = record { code = code; enhanced = enhanced; lines = lines }

unfoldable pub greeting : Text → SmtpResponse
greeting hostname = new 220 none (hostname ++ codes " ESMTP AI-SMTP")

unfoldable pub ehlo : Text → List Text → SmtpResponse
ehlo hostname ext_lines = multi 250 none ((hostname ++ codes " greets you") ∷ ext_lines)

unfoldable pub helo : Text → SmtpResponse
helo hostname = new 250 none (hostname ++ codes " greets you")

unfoldable pub ok_reply : SmtpResponse
ok_reply = new 250 (some (codes "2.0.0")) (codes "OK")

unfoldable pub mail_ok : SmtpResponse
mail_ok = new 250 (some (codes "2.1.0")) (codes "OK")

unfoldable pub rcpt_ok : SmtpResponse
rcpt_ok = new 250 (some (codes "2.1.5")) (codes "OK")

unfoldable pub start_data : SmtpResponse
start_data = new 354 none (codes "Start mail input; end with <CRLF>.<CRLF>")

unfoldable pub data_ok : Text → SmtpResponse
data_ok queue_id = new 250 (some (codes "2.0.0")) (codes "OK queued as " ++ queue_id)

unfoldable pub bye : SmtpResponse
bye = new 221 (some (codes "2.0.0")) (codes "Bye")

unfoldable pub command_not_recognized : SmtpResponse
command_not_recognized = new 500 (some (codes "5.5.1")) (codes "Command not recognized")

unfoldable pub command_not_implemented : SmtpResponse
command_not_implemented = new 502 (some (codes "5.5.1")) (codes "Command not implemented")

unfoldable pub syntax_error : SmtpResponse
syntax_error = new 501 (some (codes "5.5.4")) (codes "Syntax error in parameters or arguments")

unfoldable pub bad_sequence : SmtpResponse
bad_sequence = new 503 (some (codes "5.5.1")) (codes "Bad sequence of commands")

unfoldable pub too_many_recipients : SmtpResponse
too_many_recipients = new 452 (some (codes "4.5.3")) (codes "Too many recipients")

unfoldable pub message_too_large : SmtpResponse
message_too_large =
    new 552 (some (codes "5.3.4")) (codes "Message size exceeds fixed maximum message size")

unfoldable pub line_too_long_reply : SmtpResponse
line_too_long_reply = new 500 (some (codes "5.5.2")) (codes "Line too long")

unfoldable pub ready_starttls : SmtpResponse
ready_starttls = new 220 (some (codes "2.0.0")) (codes "Ready to start TLS")

unfoldable pub tls_not_available : SmtpResponse
tls_not_available = new 454 (some (codes "4.7.0")) (codes "TLS not available")

unfoldable pub auth_success : SmtpResponse
auth_success = new 235 (some (codes "2.7.0")) (codes "Authentication successful")

unfoldable pub auth_challenge : Text → SmtpResponse
auth_challenge challenge = new 334 none challenge

unfoldable pub auth_continue : SmtpResponse
auth_continue = new 334 none []

unfoldable pub auth_failed : SmtpResponse
auth_failed = new 535 (some (codes "5.7.8")) (codes "Authentication credentials invalid")

unfoldable pub auth_temp_failure : SmtpResponse
auth_temp_failure = new 454 (some (codes "4.7.0")) (codes "Temporary authentication failure")

unfoldable pub auth_mechanism_not_supported : SmtpResponse
auth_mechanism_not_supported =
    new 504 (some (codes "5.5.4")) (codes "Unrecognized authentication type")

unfoldable pub encryption_required : SmtpResponse
encryption_required = new 538 (some (codes "5.7.11")) (codes "Encryption required")

unfoldable pub auth_too_many : SmtpResponse
auth_too_many = new 421 (some (codes "4.7.0")) (codes "Too many authentication attempts")

unfoldable pub auth_cancelled : SmtpResponse
auth_cancelled = new 501 (some (codes "5.7.0")) (codes "Authentication cancelled")

unfoldable pub already_authenticated : SmtpResponse
already_authenticated = new 503 (some (codes "5.5.1")) (codes "Already authenticated")

unfoldable pub connection_refused : SmtpResponse
connection_refused = new 421 (some (codes "4.7.0")) (codes "Connection refused")

unfoldable pub timeout : SmtpResponse
timeout = new 421 (some (codes "4.4.2")) (codes "Timeout waiting for input")

unfoldable pub service_unavailable : SmtpResponse
service_unavailable =
    new 421 (some (codes "4.3.2")) (codes "Service not available, closing channel")

unfoldable pub too_many_messages : SmtpResponse
too_many_messages = new 421 (some (codes "4.7.0")) (codes "Too many messages in this session")

unfoldable pub processing_reject : ℕ → Text → Text → SmtpResponse
processing_reject code enhanced message = new code (some enhanced) message

unfoldable pub processing_tempfail : ℕ → Text → Text → SmtpResponse
processing_tempfail code enhanced message = new code (some enhanced) message

abbrev pub enhanced_part : Option Text → Text
enhanced_part none = []
enhanced_part (some enh) = enh ++ codes " "

-- One line of a reply, with the separator that says whether more follow.
abbrev pub wire_line : SmtpResponse → ℕ → Text → Text
wire_line r sep line =
    decimal r.code ++ (sep ∷ (enhanced_part r.enhanced ++ (line ++ codes "\r\n")))

unfoldable pub wire_lines : SmtpResponse → List Text → Text
wire_lines r [] = []
wire_lines r (line ∷ []) = wire_line r b' ' line
wire_lines r (line ∷ next ∷ more) = wire_line r b'-' line ++ wire_lines r (next ∷ more)

unfoldable pub to_bytes : SmtpResponse → Text
unfolding wire_lines decimal
to_bytes r = wire_lines r r.lines
