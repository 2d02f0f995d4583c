-- ===== src/Transfer/Sending.antt =====
-- A message from `send_message` (crates/sentio-smtp-client/src/delivery.rs) to a server that accepts it with
-- the replies of crates/sentio-smtp-server/src/response.rs.
pub mod Accepted
use sentio.Common.{
  ℕ, ◌≤◌, ◌<◌, List, [], ◌∷◌, ◌++◌, Option, none, some, ◌≡◌, ◌≢◌, refl, sym, ap, subst, ◌∙◌,
  append_assoc, arith, All, All-append, Bool, true, false, length, Result, ok, err,
}
use sentio.Common.Text.{Text, codes}
use sentio.Common.Utf8.Encode.{to_utf8}
use sentio.Server.Response
use sentio.Server.Response.{enhanced_part, to_bytes, mail_ok, rcpt_ok, start_data, data_ok, bye}
use sentio.Client.Wire.{
  WriteOutcome, wrote, SmtpConnection, ServerCapabilities, Fault, Io, ◌>>=◌, write_all, after_write,
}
use sentio.Client.Reply
use sentio.Client.Reply.{is_success, read_response}
use sentio.Client.DotStuff.{crlf, dot_stuff}
use sentio.Client.Dialogue
use sentio.Client.Dialogue.{
  mail_from_line, rcpt_to_line, command, mail_from, rcpt_to, send_data, quit,
}
use sentio.Client.Delivery.{DeliveryOutcome, delivered, response_text, classify_response}
use sentio.Client.Delivery.Sending.{
  DsnOptions, dropped, ignored, offers_dsn, send_mail, send_rcpt, send_body, send_rcpts, after_mail,
  send_message,
}
use sentio.Transfer.Replies.{IsLine, received_texts, first_enhanced, read_response-to_bytes}

-- What the client makes of a reply.
abbrev pub reading_of : Response.SmtpResponse → Reply.SmtpResponse
reading_of r = record {
  code = r.code;
  enhanced = first_enhanced none (received_texts r r.lines);
  lines = received_texts r r.lines;
}

-- A reply that goes over the wire as it is meant.
abbrev pub IsReply : Response.SmtpResponse → Type 0
IsReply r =
    (100 ≤ r.code)
    × (r.code < 1000)
    × IsLine (enhanced_part r.enhanced)
    × (r.lines ≢ [])
    × All IsLine r.lines

-- What is sent, one piece after the other.
abbrev pub said : (sent : List ℕ) → List (List ℕ) → List ℕ
said sent [] = sent
said sent (piece ∷ pieces) = said (sent ++ piece) pieces

abbrev pub cmd_line : Text → List ℕ
cmd_line cmd = to_utf8 (cmd ++ crlf)

-- The commands for the recipients, the writes and the replies, in front of those that follow.
abbrev pub rcpt_lines : (recipients : List Text) → List (List ℕ) → List (List ℕ)
rcpt_lines [] pieces = pieces
rcpt_lines (rcpt ∷ recipients) pieces = cmd_line (rcpt_to_line rcpt) ∷ rcpt_lines recipients pieces

abbrev pub rcpt_writes : (recipients : List Text) → List WriteOutcome → List WriteOutcome
rcpt_writes [] writes = writes
rcpt_writes (rcpt ∷ recipients) writes = wrote ∷ rcpt_writes recipients writes

abbrev pub rcpt_replies : (recipients : List Text) → List ℕ → List ℕ
rcpt_replies [] more = more
rcpt_replies (rcpt ∷ recipients) more = to_bytes rcpt_ok ++ rcpt_replies recipients more

pub mail_ok-IsReply : IsReply mail_ok
unfolding mail_ok
mail_ok-IsReply = (omega arith, omega arith, omega arith, λ e. cc, omega arith)

pub rcpt_ok-IsReply : IsReply rcpt_ok
unfolding rcpt_ok
rcpt_ok-IsReply = (omega arith, omega arith, omega arith, λ e. cc, omega arith)

start_data-IsReply : IsReply start_data
unfolding start_data
start_data-IsReply = (omega arith, omega arith, omega arith, λ e. cc, omega arith)

data_ok-IsReply : (queue_id : Text) → IsLine queue_id → IsReply (data_ok queue_id)
unfolding data_ok
data_ok-IsReply queue_id h = (
  omega arith,
  omega arith,
  omega arith,
  λ e. cc,
  (All-append _ (codes "OK queued as ") queue_id (omega arith) h, tt),
)

pub bye-IsReply : IsReply bye
unfolding bye
bye-IsReply = (omega arith, omega arith, omega arith, λ e. cc, omega arith)

pub >>=_ok :
    {A B : Type 0} (m : Io A) (f : A → Io B) (c c' : SmtpConnection) (a : A)
    → m c ≡ (ok a, c')
    → (m >>= f) c ≡ f a c'
>>=_ok {A} {B} m f c c' a e =
    ap (λ (p : Result Fault A × SmtpConnection). elim p.0 [ ok x ↦ f x p.1 | err x ↦ (err x, p.1) ])
      e

module _ (lossy : List ℕ → Text) (to_uppercase : Text → Text) where
  -- A connection with what waits to be read and the writes that come.
  abbrev pub at :
      SmtpConnection → (buf : List ℕ) → List WriteOutcome → (sent : List ℕ) → SmtpConnection
  at c buf writes sent = record c { read_buf = buf; writes = writes; sent = sent }

  write_then_read :
      (bytes : List ℕ) (r : Response.SmtpResponse) (c : SmtpConnection) (more : List ℕ)
      (writes : List WriteOutcome) (sent : List ℕ)
      → IsReply r
      → (write_all bytes >>= (λ _. read_response lossy))
          (at c (to_bytes r ++ more) (wrote ∷ writes) sent)
        ≡ (ok (reading_of r), at c more writes (sent ++ bytes))
  unfolding write_all after_write
  write_then_read bytes r c more writes sent h =
      read_response-to_bytes lossy r h.0 h.1 h.2 (at c more writes (sent ++ bytes)) more h.3 h.4

  pub command_answered :
      (cmd : Text) (r : Response.SmtpResponse) (c : SmtpConnection) (more : List ℕ)
      (writes : List WriteOutcome) (sent : List ℕ)
      → IsReply r
      → command lossy to_uppercase cmd (at c (to_bytes r ++ more) (wrote ∷ writes) sent)
        ≡ (ok (reading_of r), at c more writes (sent ++ to_utf8 (cmd ++ crlf)))
  unfolding command
  command_answered cmd r c more writes sent h =
      write_then_read (to_utf8 (cmd ++ crlf)) r c more writes sent h

  pub ignored_ok :
      (m : Io Reply.SmtpResponse) (c c' : SmtpConnection) (a : Reply.SmtpResponse)
      → m c ≡ (ok a, c')
      → ignored m c ≡ (ok tt, c')
  unfolding ignored dropped
  ignored_ok m c c' a e =
      ap (λ (p : Result Fault Reply.SmtpResponse × SmtpConnection). (dropped p.0, p.1)) e

  pub data_answered :
      (message : List ℕ) (queue_id : Text) (c : SmtpConnection) (more : List ℕ)
      (writes : List WriteOutcome) (sent : List ℕ)
      → IsLine queue_id
      → send_data lossy to_uppercase message (
          at c
            (to_bytes start_data ++ (to_bytes (data_ok queue_id) ++ more))
            (wrote ∷ wrote ∷ writes)
            sent)
        ≡ (
          ok (reading_of (data_ok queue_id)),
          at c more writes ((sent ++ cmd_line (codes "DATA")) ++ dot_stuff message),
        )
  unfolding send_data Dialogue.send_body start_data
  data_answered message queue_id c more writes sent h =
      let behind = to_bytes (data_ok queue_id) ++ more in
      let waiting = at c behind (wrote ∷ writes) (sent ++ cmd_line (codes "DATA")) in
      >>=_ok (command lossy to_uppercase (codes "DATA"))
        (Dialogue.send_body lossy to_uppercase message)
        (at c (to_bytes start_data ++ behind) (wrote ∷ wrote ∷ writes) sent) waiting
        (reading_of start_data)
        (command_answered (codes "DATA") start_data c behind (wrote ∷ writes) sent
          start_data-IsReply)
      ∙ write_then_read (dot_stuff message) (data_ok queue_id) c more writes
          (sent ++ cmd_line (codes "DATA")) (data_ok-IsReply queue_id h)
