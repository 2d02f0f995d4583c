-- ===== src/Server/Session/Guards/Tests.antt =====
-- A client of session.rs that asks for the address of another by XCLIENT.
use sentio.Common.{[], ◌∷◌, ◌++◌, Option, none, some, ◌≡◌, refl, inl, true, ◌≢◌}
use sentio.Common.Text.{contains, starts_with, is_empty, split_once}
use sentio.Server.Reader.{got, read_line, line_or, split_line, strip_cr, find_terminator}
use sentio.Server.Commands.Types.{IpAddr}
use sentio.Server.Commands.Line.{parse}
use sentio.Server.Session.Types.{
  SessionDeps, SessionConfig, Connection, smtp, new_session, write_response, reset_envelope,
}
use sentio.Server.Session.Envelope.{
  contains_ip, greet, handle_ehlo, refuses_domain, handle_xclient, handle_quit, offered, mechanisms,
}
use sentio.Server.Session.Loop.{
  Round, died, run, command_loop, round, after_line, count_line, handle_line, handle_command,
}
use sentio.Server.Session.Rules.{session_of}
use sentio.Server.Session.Guards.{run_untrusted_peer}
use sentio.Server.Session.Samples.{Log, deps, config, line}

abbrev other : IpAddr
other = 3

-- XCLIENT is for the address 3, and the client comes from 9.
abbrev guarded : SessionConfig
guarded = record config { xclient_enabled = true; xclient_allowed_ips = other ∷ [] }

abbrev addressed : SessionDeps Unit Log
addressed = record deps { parse_ip = λ s. some 4 }

abbrev claims : Connection
claims = record {
  shutdown = [];
  pending = got (line "EHLO me.org" ++ (line "XCLIENT ADDR=4" ++ line "QUIT")) ∷ [];
  writes = [];
}

abbrev ended : Option (Round Unit Log) → Round Unit Log
ended none = died (new_session claims guarded 9 smtp true) []
ended (some r) = r

abbrev session : Round Unit Log
session = ended (run addressed 20 (new_session claims guarded 9 smtp true) [])

session_ends : run addressed 20 (new_session claims guarded 9 smtp true) [] ≡ some session
unfolding run new_session write_response reset_envelope command_loop round after_line count_line
    handle_line handle_command read_line line_or split_line strip_cr find_terminator parse greet
    handle_ehlo refuses_domain handle_xclient contains_ip handle_quit offered mechanisms contains
    starts_with is_empty split_once
session_ends = refl

run_untrusted_peer_example : (session_of session).peer_addr ≡ 9
run_untrusted_peer_example =
    run_untrusted_peer addressed guarded 9 20 claims smtp true [] session (inl (other_address, tt))
      session_ends
  where
    other_address : other ≢ 9
    other_address e = cc
