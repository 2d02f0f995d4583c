-- ===== src/Transfer/Tests.antt =====
-- The body and the replies between the client and the server.
use sentio.Common.{ℕ, List, [], ◌∷◌, ◌++◌, true, ◌≡◌, ok, err, arith, none, some, is_some, refl}
use sentio.Common.Text.{codes, is_empty, len, split_once, parse_unsigned}
use sentio.Client.DotStuff.{crlf, end_line, dot_stuff_from, dot_stuff}
use sentio.Client.Wire.{SmtpConnection, received, input, panicked}
use sentio.Client.Reply
use sentio.Client.Reply.{
  enhanced_of, first_word, slice_at, parse_reply_line, with_code, with_text, text_behind,
  read_lines, read_response,
}
use sentio.Client.Reply.Ends.{read_lines_ends}
use sentio.Server.Response
use sentio.Server.Response.{to_bytes}
use sentio.Server.Reader.{got, reading, read_data}
use sentio.Common.Text.{Text}
use sentio.Common.{length}
use sentio.Server.Response.{mail_ok, start_data, data_ok, bye}
use sentio.Client.Wire.{wrote}
use sentio.Client.Dialogue.{mail_from_line}
use sentio.Client.Delivery.{delivered, response_text}
use sentio.Client.Delivery.Sending.{DsnOptions, send_message}
use sentio.Transfer.Sending.{at, said, cmd_line, rcpt_lines, rcpt_writes, rcpt_replies, reading_of}
use sentio.Transfer.Sending.Accepted.{send_message_accepted}
use sentio.Transfer.Delivery.{read_data-dot_stuff}
use sentio.Transfer.Replies.{read_response-to_bytes}

abbrev message : List ℕ
message = codes "a" ++ (crlf ++ codes ".b")

read_data-dot_stuff_example :
    read_data 10 [] (got (dot_stuff message ++ codes "QUIT") ∷ [])
    ≡ reading (ok (end_line message)) (codes "QUIT") []
unfolding dot_stuff_from end_line
read_data-dot_stuff_example = read_data-dot_stuff 10 message (codes "QUIT") [] (omega arith)

-- A reply of two lines, behind which the next one has begun.
abbrev reply : Response.SmtpResponse
reply = record { code = 250; enhanced = some (codes "2.1.5"); lines = codes "OK" ∷ codes "Go" ∷ [] }

abbrev connection : SmtpConnection
connection = record {
  read_buf = [];
  pending = received (codes "50") ∷ [];
  writes = [];
  sent = [];
  hostname = codes "mx.example";
  capabilities = none;
}

abbrev received_reply : Reply.SmtpResponse
received_reply = record {
  code = 250;
  enhanced = some (codes "2.1.5");
  lines = codes "2.1.5 OK\r" ∷ codes "2.1.5 Go\r" ∷ [];
}

read_response-to_bytes_example :
    read_response (λ bytes. bytes) (record connection { read_buf = to_bytes reply ++ codes "2" })
    ≡ (ok received_reply, record connection { read_buf = codes "2" })
unfolding enhanced_of first_word is_empty len split_once
read_response-to_bytes_example =
    read_response-to_bytes (λ bytes. bytes) reply (omega arith) (omega arith) (omega arith)
      connection (codes "2") (λ e. cc) (omega arith)

read_lines_ends_example :
    is_some (read_lines (λ bytes. bytes) 5 [] none (codes "25") (received (codes "0\n") ∷ []))
    ≡ true
unfolding input
read_lines_ends_example =
    read_lines_ends (λ bytes. bytes) 5 [] none (codes "25") (received (codes "0\n") ∷ [])
      (omega arith)

-- A reply that is cut inside a character at the code.
cut_code : parse_reply_line (b'2' ∷ b'5' ∷ 0xe9 ∷ []) ≡ err panicked
unfolding parse_reply_line slice_at len
cut_code = refl

-- And one that is cut inside a character behind it.
cut_text : parse_reply_line (codes "250" ++ (0xe9 ∷ [])) ≡ err panicked
unfolding parse_reply_line slice_at len with_code with_text text_behind parse_unsigned
cut_text = refl

-- A message for two recipients, with a server that accepts it.
abbrev no_dsn : DsnOptions
no_dsn = record {
  dsn_ret = none;
  dsn_envid = none;
  dsn_notify = λ rcpt. none;
  dsn_orcpt = λ rcpt. none;
}

abbrev two_recipients : List Text
two_recipients = codes "a@b.org" ∷ codes "c@b.org" ∷ []

send_message_accepted_example :
    send_message
      (λ bytes. bytes)
      (λ s. s)
      0
      (codes "me@x.org")
      message
      (codes "mx.b.org")
      no_dsn
      two_recipients
      (at
        (λ bytes. bytes)
        (λ s. s)
        connection
        (to_bytes mail_ok
          ++ rcpt_replies two_recipients
              (to_bytes start_data ++ (to_bytes (data_ok (codes "7")) ++ (to_bytes bye ++ []))))
        (wrote ∷ rcpt_writes two_recipients (wrote ∷ wrote ∷ wrote ∷ []))
        [])
    ≡ (
      ok (delivered (response_text (reading_of (data_ok (codes "7")))) (codes "mx.b.org")),
      at
          (λ bytes. bytes)
          (λ s. s)
          connection
          []
          []
          (said [] (
            cmd_line (mail_from_line (codes "me@x.org") (some (length message)))
            ∷ rcpt_lines two_recipients
                (cmd_line (codes "DATA") ∷ dot_stuff message ∷ cmd_line (codes "QUIT") ∷ []))),
    )
send_message_accepted_example =
    send_message_accepted (λ bytes. bytes) (λ s. s) 0 (codes "me@x.org") message (codes "mx.b.org")
      no_dsn (codes "7") [] [] two_recipients connection [] refl (omega arith)
