-- ===== src/Client/Delivery/Sending.antt =====
-- `send_message` of crates/sentio-smtp-client/src/delivery.rs: a message over an open connection.
use sentio.Common.{
  ℕ, Bool, false, not, ◌||◌, ◌&&◌, List, [], ◌∷◌, Option, none, some, is_some, length,
  if◌then◌else◌, Result, ok, err,
}
use sentio.Common.Text.{Text}
use sentio.Client.Wire.{ServerCapabilities, Fault, error, panicked, Io, ◌>>=◌, ◌>>◌, return}
use sentio.Client.Reply.{SmtpResponse, is_success}
use sentio.Client.Dialogue.{
  mail_from, mail_from_with_dsn, rcpt_to, rcpt_to_with_dsn, send_data, rset, quit,
}
use sentio.Client.Delivery.{DeliveryOutcome, classify_response}

-- `let _ = …`: an error is dropped, a panic is not.
unfoldable pub dropped : Result Fault SmtpResponse → Result Fault (Unit {0})
dropped (ok resp) = ok tt
dropped (err (error e)) = ok tt
dropped (err panicked) = err panicked

unfoldable pub ignored : Io SmtpResponse → Io (Unit {0})
ignored m c = (dropped (m c).0, (m c).1)

abbrev pub offers_dsn : Option ServerCapabilities → Bool
offers_dsn none = false
offers_dsn (some caps) = caps.dsn

-- The parameters of RFC 3461; the maps by recipient are functions.
pub record DsnOptions : Type 0 where
  pub dsn_ret : Option Text
  pub dsn_envid : Option Text
  pub dsn_notify : Text → Option Text
  pub dsn_orcpt : Text → Option Text

module _ (lossy : List ℕ → Text) (to_uppercase : Text → Text) (now : ℕ) (sender : Text)
    (message : List ℕ) (remote_mta : Text) (dsn : DsnOptions) where
  unfoldable pub send_mail : (server_dsn : Bool) → Io SmtpResponse
  send_mail server_dsn =
      if server_dsn && (is_some dsn.dsn_ret || is_some dsn.dsn_envid)
      then mail_from_with_dsn lossy to_uppercase sender (some (length message)) dsn.dsn_ret
          dsn.dsn_envid
      else mail_from lossy to_uppercase sender (some (length message))

  unfoldable pub send_rcpt : (server_dsn : Bool) → (rcpt : Text) → Io SmtpResponse
  send_rcpt server_dsn rcpt =
      if server_dsn && (is_some (dsn.dsn_notify rcpt) || is_some (dsn.dsn_orcpt rcpt))
      then rcpt_to_with_dsn lossy to_uppercase rcpt (dsn.dsn_notify rcpt) (dsn.dsn_orcpt rcpt)
      else rcpt_to lossy to_uppercase rcpt

  -- A recipient that is refused ends the attempt.
  unfoldable pub refused_rcpt : SmtpResponse → Io DeliveryOutcome
  refused_rcpt resp = do
    ignored (rset lossy to_uppercase)
    return (classify_response now resp remote_mta)

  unfoldable pub send_body : Io DeliveryOutcome
  send_body = do
    resp ← send_data lossy to_uppercase message
    ignored (quit lossy to_uppercase)
    return (classify_response now resp remote_mta)

  unfoldable pub next_rcpt : (more : Io DeliveryOutcome) → SmtpResponse → Io DeliveryOutcome
  next_rcpt more resp = if is_success resp then more else refused_rcpt resp

  unfoldable pub send_rcpts : (server_dsn : Bool) → (recipients : List Text) → Io DeliveryOutcome
  send_rcpts server_dsn [] = send_body
  send_rcpts server_dsn (rcpt ∷ recipients) =
      let more = send_rcpts server_dsn recipients in send_rcpt server_dsn rcpt >>= next_rcpt more

  unfoldable pub after_mail :
      (server_dsn : Bool) → (recipients : List Text) → SmtpResponse → Io DeliveryOutcome
  after_mail server_dsn recipients resp =
      if not (is_success resp)
      then return (classify_response now resp remote_mta)
      else send_rcpts server_dsn recipients

  unfoldable pub send_message : (recipients : List Text) → Io DeliveryOutcome
  send_message recipients conn =
      let server_dsn = offers_dsn conn.capabilities in
      (send_mail server_dsn >>= after_mail server_dsn recipients) conn
