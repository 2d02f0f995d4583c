-- ===== src/Server/Session/Chunks/Tests.antt =====
-- A message in two chunks, the second of which comes in two reads.
use sentio.Common.{true, false, [], ◌∷◌, ◌++◌, none, some, ◌≡◌, refl, arith, take}
use sentio.Common.Text.{codes}
use sentio.Server.Extensions.{has}
use sentio.Server.Reader.{got}
use sentio.Server.Commands.MailFrom.{bare_mail}
use sentio.Server.Session.Types.{Session, rcpt_to, bdat, smtp, new_session}
use sentio.Server.Session.Messages.{inbound_message, run_processor, handle_bdat}
use sentio.Server.Session.Samples.{deps, config, stream}
use sentio.Server.Session.Chunks.{
  stream_of, IsWelcomeChunk, handle_bdat_appends, handle_bdat_delivers,
}

abbrev addressed : Session Unit
addressed = record (new_session stream config 9 smtp false) {
  state = rcpt_to;
  mail_from = some (bare_mail (codes "a@me.org"));
  rcpt_to = record { path = codes "b@mx.org"; notify = none; orcpt = none } ∷ [];
  read_buf = codes "Hi";
  pending = got (codes " you") ∷ [];
}

-- After the first chunk, `Hi`.
abbrev half : Session Unit
half = record addressed {
  state = bdat;
  bdat_data = codes "Hi";
  read_buf = codes " y";
  pending = got (codes "ou") ∷ [];
}

addressed-IsWelcomeChunk : IsWelcomeChunk addressed 2
unfolding new_session has
addressed-IsWelcomeChunk = record {
  state = refl;
  offered = refl;
  representable = omega arith;
  fits = omega arith;
  arrives = omega arith;
}

half-IsWelcomeChunk : IsWelcomeChunk half 4
unfolding new_session has
half-IsWelcomeChunk = record {
  state = refl;
  offered = refl;
  representable = omega arith;
  fits = omega arith;
  arrives = omega arith;
}

handle_bdat_appends_example :
    ((handle_bdat deps addressed 2 false []).1.bdat_data
      ≡ addressed.bdat_data ++ take 2 (stream_of addressed))
    × ((handle_bdat deps addressed 2 false []).1.state ≡ bdat)
handle_bdat_appends_example = handle_bdat_appends deps addressed 2 [] addressed-IsWelcomeChunk

handle_bdat_delivers_example :
    (handle_bdat deps half 4 true []).2
    ≡ (run_processor deps deps.message_processor
        (inbound_message half (codes "Hi" ++ take 4 (stream_of half)))
        []).1
handle_bdat_delivers_example = handle_bdat_delivers deps half 4 [] half-IsWelcomeChunk
