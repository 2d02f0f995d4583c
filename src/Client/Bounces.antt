-- ===== src/Client/Bounces.antt =====
-- The classes of bounces and the delivery status notifications:
-- crates/sentio-smtp-client/src/headers.rs.
use sentio.Common.{
  ℕ, Bool, false, ◌||◌, ◌&&◌, List, [], ◌∷◌, ◌++◌, Option, none, some, leb, ◌==◌, if◌then◌else◌,
}
use sentio.Common.Text.{Text, codes, starts_with}
use sentio.Common.Text.Lines.{contains_text, to_ascii_lowercase}
use sentio.Common.Utf8.Encode.{to_utf8}
use sentio.Queue.Retry.{BounceClass, hard, soft, block}

-- `original_orcpt` is the map as a function. The dates are in the form of RFC 2822.
pub record DsnParams : Type 0 where
  pub original_from : Text
  pub original_to : List Text
  pub reporting_mta : Text
  pub remote_response : Text
  pub remote_mta : Option Text
  pub bounce_class : BounceClass
  pub arrival_date : Text
  pub original_message_id : Option Text
  pub original_envid : Option Text
  pub original_ret : Option Text
  pub original_orcpt : Text → Option Text

abbrev pub dnsbl_hints : List Text
dnsbl_hints =
    codes "spamhaus"
    ∷ codes "sorbs"
    ∷ codes "spamcop"
    ∷ codes "barracuda"
    ∷ codes "senderscore"
    ∷ codes "pbl"
    ∷ codes "sbl"
    ∷ codes "xbl"
    ∷ codes "dnsbl"
    ∷ codes "rbl"
    ∷ codes "blacklist"
    ∷ codes "blocklist"
    ∷ []

abbrev pub reputation_hints : List Text
reputation_hints =
    codes "poor reputation"
    ∷ codes "bad reputation"
    ∷ codes "sender reputation"
    ∷ codes "ip reputation"
    ∷ codes "blocked using"
    ∷ codes "listed by"
    ∷ codes "temporarily blocked"
    ∷ codes "deferred due to reputation"
    ∷ codes "mail from this ip"
    ∷ []

unfoldable pub contains_any : List Text → Text → Bool
contains_any [] t = false
contains_any (k ∷ hints) t = contains_text k t || contains_any hints t

unfoldable pub is_sender_reputation_reject : Text → Bool
is_sender_reputation_reject text =
    contains_any dnsbl_hints (to_ascii_lowercase text)
    || contains_any reputation_hints (to_ascii_lowercase text)

unfoldable pub class_of_code : (code : ℕ) → BounceClass
class_of_code code =
    if leb 550 code && leb code 554
    then hard
    else if code == 421 || code == 450 || code == 451 || code == 452
    then soft
    else if leb 500 code && leb code 599
    then block
    else soft

unfoldable pub class_of_status : (code : ℕ) → Option Text → BounceClass
class_of_status code none = class_of_code code
class_of_status code (some esc) =
    if starts_with (codes "5.1.") esc
    then hard
    else if starts_with (codes "5.7.") esc
    then block
    else if starts_with (codes "4.") esc
    then soft
    else class_of_code code

abbrev pub rejected_for_sender : Option Text → Bool
rejected_for_sender none = false
rejected_for_sender (some text) = is_sender_reputation_reject text

unfoldable pub classify_bounce : (code : ℕ) → (enhanced response_text : Option Text) → BounceClass
classify_bounce code enhanced response_text =
    if rejected_for_sender response_text then block else class_of_status code enhanced

unfoldable pub dsn_action : BounceClass → Text
dsn_action hard = codes "failed"
dsn_action block = codes "failed"
dsn_action soft = codes "delayed"

unfoldable pub dsn_status_code : BounceClass → Text
dsn_status_code hard = codes "5.0.0"
dsn_status_code block = codes "5.7.1"
dsn_status_code soft = codes "4.0.0"

-- A line with a name in front, and none for what is not known.
abbrev pub line : (name value : Text) → Text
line name value = name ++ (value ++ codes "\r\n")

abbrev pub optional_line : (name : Text) → Option Text → Text
optional_line name none = []
optional_line name (some value) = line name value

unfoldable pub explanation : BounceClass → Text
explanation soft =
    codes "This is a temporary delivery failure notification.\r\n\r\n"
    ++ (codes "Delivery of your message has been delayed. The system will continue\r\n"
        ++ codes "trying to deliver it for you.\r\n\r\n")
explanation hard =
    codes "This is a permanent delivery failure notification.\r\n\r\n"
    ++ codes "Your message could not be delivered to the following recipients:\r\n\r\n"
explanation block =
    codes "This is a permanent delivery failure notification.\r\n\r\n"
    ++ codes "Your message could not be delivered to the following recipients:\r\n\r\n"

unfoldable pub recipient_lines : (response : Text) → List Text → Text
recipient_lines response [] = []
recipient_lines response (rcpt ∷ rcpts) =
    line (codes "  <" ++ (rcpt ++ codes ">: ")) response ++ recipient_lines response rcpts

unfoldable pub recipient_fields : DsnParams → List Text → Text
recipient_fields params [] = []
recipient_fields params (rcpt ∷ rcpts) =
    optional_line (codes "Original-Recipient: ") (params.original_orcpt rcpt)
    ++ (line (codes "Final-Recipient: rfc822; ") rcpt
        ++ (line (codes "Action: ") (dsn_action params.bounce_class)
            ++ (line (codes "Status: ") (dsn_status_code params.bounce_class)
                ++ (optional_line (codes "Remote-MTA: dns; ") params.remote_mta
                    ++ (line (codes "Diagnostic-Code: smtp; ") params.remote_response
                        ++ (codes "\r\n" ++ recipient_fields params rcpts))))))

-- `token` is the first group of a new UUID, and `date_now` the time.
module _ (token date_now : Text) (params : DsnParams) where
  abbrev pub boundary : Text
  boundary = codes "sentio-dsn-" ++ token

  unfoldable pub dsn_headers : Text
  dsn_headers =
      line (codes "Date: ") date_now
      ++ (line (codes "From: Mail Delivery System <mailer-daemon@")
            (params.reporting_mta ++ codes ">")
          ++ (line (codes "To: <") (params.original_from ++ codes ">")
              ++ (codes "Subject: Delivery Status Notification\r\n"
                  ++ (optional_line (codes "In-Reply-To: ") params.original_message_id
                      ++ (codes "MIME-Version: 1.0\r\n"
                          ++ (codes
                                "Content-Type: multipart/report; report-type=delivery-status;\r\n boundary=\""
                              ++ (boundary ++ codes "\"\r\n\r\n")))))))

  unfoldable pub explanation_part : Text
  explanation_part =
      line (codes "--") boundary
      ++ (codes "Content-Type: text/plain; charset=utf-8\r\n\r\n"
          ++ (explanation params.bounce_class
              ++ (recipient_lines params.remote_response params.original_to ++ codes "\r\n")))

  unfoldable pub status_part : Text
  status_part =
      line (codes "--") boundary
      ++ (codes "Content-Type: message/delivery-status\r\n\r\n"
          ++ (line (codes "Reporting-MTA: dns; ") params.reporting_mta
              ++ (optional_line (codes "Original-Envelope-Id: ") params.original_envid
                  ++ (line (codes "Arrival-Date: ") params.arrival_date
                      ++ (codes "\r\n" ++ recipient_fields params params.original_to)))))

  unfoldable pub generate_dsn : List ℕ
  generate_dsn = to_utf8 (
      dsn_headers
      ++ (explanation_part ++ (status_part ++ line (codes "--") (boundary ++ codes "--"))))
