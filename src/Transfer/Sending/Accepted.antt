-- ===== src/Transfer/Sending/Accepted.antt =====
-- The whole of `send_message` (crates/sentio-smtp-client/src/delivery.rs) with a server that accepts.
use sentio.Common.{ℕ, List, [], ◌∷◌, ◌++◌, some, ◌≡◌, ap, ◌∙◌, false, length, ok}
use sentio.Common.Text.{Text, codes}
use sentio.Server.Response.{to_bytes, mail_ok, rcpt_ok, start_data, data_ok, bye}
use sentio.Client.Wire.{WriteOutcome, wrote, SmtpConnection, ◌>>=◌, return}
use sentio.Client.Reply.{is_success}
use sentio.Client.DotStuff.{dot_stuff}
use sentio.Client.Dialogue.{mail_from_line, rcpt_to_line, mail_from, rcpt_to, send_data, quit}
use sentio.Client.Delivery.{delivered, response_text, classify_response}
use sentio.Client.Delivery.Sending
use sentio.Client.Delivery.Sending.{
  DsnOptions, ignored, offers_dsn, send_mail, send_rcpt, next_rcpt, send_rcpts, after_mail,
  send_message,
}
use sentio.Transfer.Replies.{IsLine}
use sentio.Transfer.Sending.{
  reading_of, mail_ok-IsReply, rcpt_ok-IsReply, bye-IsReply, >>=_ok, at, said, cmd_line, rcpt_lines,
  rcpt_writes, rcpt_replies, command_answered, ignored_ok, data_answered,
}

module _ (lossy : List ℕ → Text) (to_uppercase : Text → Text) (now : ℕ) (sender : Text)
    (message : List ℕ) (remote_mta : Text) (dsn : DsnOptions) (queue_id : Text) (more : List ℕ)
    (writes : List WriteOutcome) where
  -- What the client says and hears from DATA on, and what comes of it.
  abbrev pub data_lines : List (List ℕ)
  data_lines = cmd_line (codes "DATA") ∷ dot_stuff message ∷ cmd_line (codes "QUIT") ∷ []

  abbrev pub data_replies : List ℕ
  data_replies = to_bytes start_data ++ (to_bytes (data_ok queue_id) ++ (to_bytes bye ++ more))

  abbrev pub data_writes : List WriteOutcome
  data_writes = wrote ∷ wrote ∷ wrote ∷ writes

  body_accepted :
      (c : SmtpConnection) (sent : List ℕ)
      → IsLine queue_id
      → Sending.send_body lossy to_uppercase now sender message remote_mta dsn
          (at lossy to_uppercase c data_replies data_writes sent)
        ≡ (
          ok (delivered (response_text (reading_of (data_ok queue_id))) remote_mta),
          at lossy to_uppercase c more writes (said sent data_lines),
        )
  unfolding Sending.send_body quit classify_response is_success data_ok
  body_accepted c sent h =
      let heard = to_bytes bye ++ more in
      let before =
        at lossy to_uppercase c heard (wrote ∷ writes)
          ((sent ++ cmd_line (codes "DATA")) ++ dot_stuff message) in
      let after = at lossy to_uppercase c more writes (said sent data_lines) in
      >>=_ok (send_data lossy to_uppercase message)
        (λ resp.
          ignored (quit lossy to_uppercase)
          >>= (λ _. return (classify_response now resp remote_mta)))
        (at lossy to_uppercase c data_replies data_writes sent) before
        (reading_of (data_ok queue_id))
        (data_answered lossy to_uppercase message queue_id c heard (wrote ∷ writes) sent h)
      ∙ >>=_ok (ignored (quit lossy to_uppercase))
          (λ _. return (classify_response now (reading_of (data_ok queue_id)) remote_mta)) before
          after tt
          (ignored_ok lossy to_uppercase (quit lossy to_uppercase) before after (reading_of bye) (
            command_answered lossy to_uppercase (codes "QUIT") bye c more writes
              ((sent ++ cmd_line (codes "DATA")) ++ dot_stuff message) bye-IsReply))

  rcpts_accepted :
      (recipients : List Text) (c : SmtpConnection) (sent : List ℕ)
      → IsLine queue_id
      → send_rcpts lossy to_uppercase now sender message remote_mta dsn false recipients (
          at lossy to_uppercase c
            (rcpt_replies recipients data_replies)
            (rcpt_writes recipients data_writes)
            sent)
        ≡ (
          ok (delivered (response_text (reading_of (data_ok queue_id))) remote_mta),
          at lossy to_uppercase c more writes (said sent (rcpt_lines recipients data_lines)),
        )
  unfolding send_rcpts next_rcpt send_rcpt rcpt_to is_success rcpt_ok
  rcpts_accepted [] c sent h = body_accepted c sent h
  rcpts_accepted (rcpt ∷ recipients) c sent h =
      let heard = rcpt_replies recipients data_replies in
      let coming = rcpt_writes recipients data_writes in
      let sent' = sent ++ cmd_line (rcpt_to_line rcpt) in
      >>=_ok (send_rcpt lossy to_uppercase now sender message remote_mta dsn false rcpt)
        (next_rcpt lossy to_uppercase now sender message remote_mta dsn
          (send_rcpts lossy to_uppercase now sender message remote_mta dsn false recipients))
        (at lossy to_uppercase c (to_bytes rcpt_ok ++ heard) (wrote ∷ coming) sent)
        (at lossy to_uppercase c heard coming sent') (reading_of rcpt_ok)
        (command_answered lossy to_uppercase (rcpt_to_line rcpt) rcpt_ok c heard coming sent
          rcpt_ok-IsReply)
      ∙ rcpts_accepted recipients c sent' h

  mail_accepted :
      (recipients : List Text) (c : SmtpConnection) (sent : List ℕ)
      → IsLine queue_id
      → (send_mail lossy to_uppercase now sender message remote_mta dsn false
            >>= after_mail lossy to_uppercase now sender message remote_mta dsn false recipients)
          (at lossy to_uppercase c
            (to_bytes mail_ok ++ rcpt_replies recipients data_replies)
            (wrote ∷ rcpt_writes recipients data_writes)
            sent)
        ≡ (
          ok (delivered (response_text (reading_of (data_ok queue_id))) remote_mta),
          at lossy to_uppercase c more writes (
              said sent (
                cmd_line (mail_from_line sender (some (length message)))
                ∷ rcpt_lines recipients data_lines)),
        )
  unfolding send_mail after_mail mail_from is_success mail_ok
  mail_accepted recipients c sent h =
      let heard = rcpt_replies recipients data_replies in
      let coming = rcpt_writes recipients data_writes in
      let cmd = mail_from_line sender (some (length message)) in
      >>=_ok (send_mail lossy to_uppercase now sender message remote_mta dsn false)
        (after_mail lossy to_uppercase now sender message remote_mta dsn false recipients)
        (at lossy to_uppercase c (to_bytes mail_ok ++ heard) (wrote ∷ coming) sent)
        (at lossy to_uppercase c heard coming (sent ++ cmd_line cmd)) (reading_of mail_ok)
        (command_answered lossy to_uppercase cmd mail_ok c heard coming sent mail_ok-IsReply)
      ∙ rcpts_accepted recipients c (sent ++ cmd_line cmd) h

  -- A server that does not offer DSN and accepts the sender, every recipient and the message, on a stream
  -- whose writes succeed, is sent MAIL, a RCPT for each recipient in their order, DATA, the stuffed message and
  -- QUIT; the message is delivered, and just these replies are taken from the stream.
  pub send_message_accepted :
      (recipients : List Text) (c : SmtpConnection) (sent : List ℕ)
      → offers_dsn c.capabilities ≡ false
      → IsLine queue_id
      → send_message lossy to_uppercase now sender message remote_mta dsn recipients (
          at lossy to_uppercase c
            (to_bytes mail_ok ++ rcpt_replies recipients data_replies)
            (wrote ∷ rcpt_writes recipients data_writes)
            sent)
        ≡ (
          ok (delivered (response_text (reading_of (data_ok queue_id))) remote_mta),
          at lossy to_uppercase c more writes (
              said sent (
                cmd_line (mail_from_line sender (some (length message)))
                ∷ rcpt_lines recipients data_lines)),
        )
  unfolding send_message
  send_message_accepted recipients c sent e h =
      let conn =
        at lossy to_uppercase c (to_bytes mail_ok ++ rcpt_replies recipients data_replies)
          (wrote ∷ rcpt_writes recipients data_writes) sent in
      ap
        (λ server_dsn.
          (send_mail lossy to_uppercase now sender message remote_mta dsn server_dsn
              >>= after_mail lossy to_uppercase now sender message remote_mta dsn server_dsn
                  recipients)
            conn)
        e
      ∙ mail_accepted recipients c sent h
