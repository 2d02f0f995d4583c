-- ===== src/Lib.antt =====
-- Models of the Sentio mail server, and what is proved of them.
--
-- The program is a mail server in Rust. A listener accepts a connection and gives it to a session
-- (crates/sentio-smtp-server/src/session.rs). The session reads lines, parses them (commands.rs,
-- xclient.rs), answers them (response.rs, extensions.rs), collects the envelope and the message, and
-- hands the message to the processor that it was given (pipeline.rs). The client of the same program
-- (crates/sentio-smtp-client/src/connection.rs) sends messages to other servers.
--
-- Common: names that are shared. Common/Text has the operations of Rust's strings that the sources
--   call, on lists of code points; Common/Utf8 is the decoding of UTF-8.
-- Server/Response: the replies (`SmtpResponse`) and their wire form.
-- Server/Validation: validation.rs, with dot-unstuffing.
-- Server/Extensions: the bit set of extensions.rs and the lines of EHLO.
-- Server/Commands: the parser of commands.rs and xclient.rs. `parse` takes the line without its end.
--   Paths, Lines and Chunks have the lines that MAIL, RCPT and BDAT are read from.
-- Server/Reader: `read_line`, `read_data`, `drain_until_dot_terminator` and `read_exact_bytes` of
--   session.rs. The stream is the list of the outcomes of its reads, and the loops recur on it, so
--   they need no fuel. Reader/Rounds has the single rounds, Reader/Stream and Reader/Complete relate
--   what is returned to the bytes of the stream, as does Reader/Conservation for DATA, Reader/Limits
--   and Reader/Exact bound it, and Reader/Progress counts the input that is left. Reader/Truncation is
--   about a message that is cut short, and Reader/LongLines about a line above the limit.
-- Server/Session: the rest of session.rs. Types has the session and what it is given; Envelope has
--   EHLO, HELO, MAIL, RCPT, RSET, QUIT, XCLIENT and STARTTLS, Messages DATA and BDAT, Login AUTH, and
--   Loop the command loop. A handler takes the session and the world `W` of the callbacks and returns
--   the reply, the new session and the new world. Invariant, Rules, Frame, Acceptance, Termination,
--   Contract, Protocol, Chunks and Guards have the proofs; Protocol is the abstract state machine, an
--   indexed data type with the codes of the replies, that the handlers refine.
-- Server/Auth: the SASL exchanges (auth.rs) that AUTH runs, with the state of an exchange. Passwords
--   has PLAIN and LOGIN, Scram and ScramFinal have SCRAM-SHA-256, and Exchange has the two functions
--   that the session calls. Accounts has what a client must have said to be authenticated, by an
--   exchange and by a whole session, and Accounts/Lines the lines that a session has handled;
--   Completes has a client that has the key of an account.
-- Server/Proxy: the PROXY protocol (proxy_protocol.rs).
-- Server/Routing: the matching of routes and the delays of webhooks (routing.rs).
-- Queue/Retry: the retry policy (crates/sentio-queue/src/retry.rs).
-- Core/Verp: the bounce addresses (crates/sentio-core/src/verp.rs).
-- Core/Error, Core/Kv: the shared errors (crates/sentio-core/src/error.rs) and the interface of the
--   key-value store (kv.rs).
-- Abuse: the guards of crates/sentio-abuse. Counters has the bans, the failed logins, greylisting and
--   the rate of connections, Lists the whitelist and the DNS block lists, Reputation the scores, and
--   Guard the order of the checks of a connection. The guards are functions of the store and of the
--   clock. Store has what is relied on of the store; AutoBan, Refused, Greylist and Down have the
--   proofs.
-- MailAuth: crates/sentio-auth. Dmarc has dmarc.rs and MtaSts has mta_sts.rs, with the lookups over what
--   DNS and HTTP answer; Types has the results of SPF and DKIM that DMARC reads.
-- Client: connection.rs of the client. Wire has the stream and the state of a connection, Reply
--   `read_response`, Dialogue the commands and the capabilities of EHLO, and DotStuff `dot_stuff`.
--   Bounces is headers.rs. Delivery has the functions of delivery.rs that decide on replies and
--   outcomes, and Delivery/Sending has `send_message`; Groups, Denied and
--   Budget have proofs. Pool is pool.rs,
--   with its semaphores in a store, since permits outlive the entries that made them.
-- Transfer: a message from the client to the server, a reply from the server to the client, and, in
--   Sending, the whole dialogue of a message that is accepted.
--
-- Fuel: `command_loop` and `run` take fuel, since a round may leave the input as it is. Two for each
-- coming read and one for each command of the quota are enough. `read_response` of the client has one
-- more than the bytes that are there or will come, since each of its rounds takes a line feed.
--
-- Not modelled: sockets, TLS and tasks; the timeouts, whose expiry is an outcome of a read; the
-- metrics and log lines. The callbacks and the parser of IP addresses of Rust's library are fields
-- of `SessionDeps`; so are the two functions of auth.rs, which `with_sasl` fills with their models.
-- The lookup of an account, random bytes, base64, SHA-256, HMAC and Argon2 are fields of
-- `SaslDeps`. The jitter of the retry policy, the operations of floating-point numbers, DNS, HMAC
-- and UUIDs are parameters. Lossy decoding and lower and upper case
-- beyond ASCII are parameters too. The pipeline behind the processor, the rest of routing and of delivery, the checks of
-- SPF and DKIM, storage and the HTTP interfaces are left out: most of them call other services.
pub mod Abuse
pub mod Client
pub mod Common
pub mod Core
pub mod MailAuth
pub mod Queue
pub mod Server
pub mod Transfer
