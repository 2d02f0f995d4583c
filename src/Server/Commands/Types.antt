-- ===== src/Server/Commands/Types.antt =====
-- Parsed commands: the types of crates/sentio-smtp-server/src/commands.rs and xclient.rs.
use sentio.Common.{ℕ, Bool, true, false, Option, Result, err}
use sentio.Common.Text.{Text}
use sentio.Server.Response.{SmtpResponse, syntax_error}

pub data BodyType : Type 0 where
  seven_bit eight_bit_mime : BodyType

pub data DsnRet : Type 0 where
  full hdrs : DsnRet

pub data DsnNotify : Type 0 where
  never : DsnNotify
  flags : (success failure delay : Bool) → DsnNotify

pub record MailFromParams : Type 0 where
  pub path : Text
  pub size : Option ℕ
  pub body : Option BodyType
  pub smtputf8 : Bool
  pub ret : Option DsnRet
  pub envid : Option Text
  pub auth_param : Option Text

pub record RcptToParams : Type 0 where
  pub path : Text
  pub notify : Option DsnNotify
  pub orcpt : Option Text

-- `std::net::IpAddr`, as a number.
abbrev pub IpAddr : Type 0
IpAddr = ℕ

pub record XClientParams : Type 0 where
  pub addr : Option IpAddr
  pub name : Option Text
  pub helo : Option Text
  pub login : Option Text
  pub port : Option ℕ

pub data SmtpCommand : Type 0 where
  ehlo helo : Text → SmtpCommand
  mail_from : MailFromParams → SmtpCommand
  rcpt_to : RcptToParams → SmtpCommand
  data_cmd quit rset noop : SmtpCommand
  vrfy : Text → SmtpCommand
  help start_tls : SmtpCommand
  auth : Text → SmtpCommand
  bdat : (size : ℕ) (last : Bool) → SmtpCommand
  xclient : XClientParams → SmtpCommand
  not_implemented unknown : Text → SmtpCommand

abbrev pub Parsed : Type 0 → Type 0
Parsed A = Result SmtpResponse A

-- An early `return Err(SmtpResponse::syntax_error())`.
abbrev pub guard_syntax {ℓ} : {A : Type ℓ} → Bool → Result SmtpResponse A → Result SmtpResponse A
guard_syntax true k = k
guard_syntax false k = err syntax_error
