-- ===== src/Server/Session/Samples.antt =====
-- Callbacks, a configuration and a connection for the tests of session.rs.
use Prim.Native.String.{String}
use sentio.Common.{ℕ, true, false, List, [], ◌∷◌, ◌++◌, none, some, Result, ok}
use sentio.Common.Text.{codes}
use sentio.Client.DotStuff.{crlf}
use sentio.Server.Reader.{got}
use sentio.Server.Session.Types.{
  complete, InboundMessage, SessionDeps, SessionConfig, Connection, ProcessingOutcome,
  ProcessingError,
}

-- The world of the tests is the list of the messages that were taken.
abbrev pub Log : Type 0
Log = List InboundMessage

abbrev pub log_message : InboundMessage → Log → Result ProcessingError ProcessingOutcome × Log
log_message msg log = (ok (record { queue_id = codes "Q1"; message_id = 7 }), log ++ msg ∷ [])

abbrev pub deps : SessionDeps Unit Log
deps = record {
  begin_auth = λ args cb w. (ok (complete (record { username = args; tenant_id = 1 })), w);
  continue_auth = λ a line cb w. (ok (complete (record { username = []; tenant_id = 1 })), w);
  on_auth_failure = λ peer w. w;
  on_auth_success = λ peer w. w;
  message_processor = some log_message;
  domain_check = none;
  parse_ip = λ s. none;
  now = λ w. 0;
}

abbrev pub config : SessionConfig
config = record {
  hostname = codes "mx.org";
  extensions = 0x1ff;
  max_message_size = 100;
  max_recipients = 2;
  max_messages = 2;
  max_line_length = 80;
  max_received_headers = 10;
  max_auth_attempts = 3;
  max_commands_per_session = 12;
  strict_ehlo_validation = false;
  tls_available = true;
  auth_mechanisms = codes "PLAIN";
  tls_server_cert_hash = none;
  xclient_enabled = false;
  xclient_allowed_ips = [];
}

abbrev pub line : String → List ℕ
line s = codes s ++ crlf

abbrev pub first_read : List ℕ
first_read = line "EHLO me.org" ++ (line "MAIL FROM:<a@me.org>" ++ codes "RCPT TO:<b@")

abbrev pub second_read : List ℕ
second_read = line "mx.org>" ++ (line "DATA" ++ (line "..hi" ++ (line "." ++ line "QUIT")))

abbrev pub stream : Connection
stream = record { shutdown = []; pending = got first_read ∷ got second_read ∷ []; writes = [] }
