-- ===== src/Server/Session/Protocol/Refinement.antt =====
-- The handlers of session.rs make only the transitions of Protocol.
use sentio.Common.{
  ℕ, Bool, true, none, some, ◌≡◌, ◌⊎◌, ◌≤◌, inl, inr, refl, sym, subst, arith, Option,
}
use sentio.Server.Response.{
  SmtpResponse, bye, ok_reply, command_not_implemented, command_not_recognized,
}
use sentio.Server.Commands.Types.{
  SmtpCommand, ehlo, helo, mail_from as mail, rcpt_to as rcpt, data_cmd, quit, rset, noop, vrfy,
  help, start_tls, auth, bdat as chunk, xclient, not_implemented, unknown,
}
use sentio.Server.Session.Types.{
  SessionState, takes_bdat, connected, greeted, mail_from, rcpt_to, data_state, bdat, done, Session,
  SessionDeps, CommandResult, response, upgrade, panicked,
}
use sentio.Server.Session.Envelope.{handle_quit}
use sentio.Server.Session.Loop.{starttls_result, handle_command}
use sentio.Server.Session.Protocol.{
  TakesChunk, first_chunk, later_chunk, Transition, refused, extended_hello, hello, begins,
  exhausted, first_recipient, next_recipient, message_done, message_lost, not_prompted, next_chunk,
  last_chunk, large_chunk, chunk_lost, huge_chunk, leaves, resets, nothing_to_reset, restarts,
  exchanges, locked_out, upgrades, idles, verifies, helps,
}
use sentio.Server.Session.Protocol.States.{
  IsRefusal, ChunkComes, BdatComes, handle_ehlo_state, handle_helo_state, handle_rcpt_to_state,
  handle_rset_state, handle_xclient_state, handle_starttls_state, handle_mail_from_state,
  handle_data_state, handle_bdat_state, handle_auth_begin_state,
}

-- A transition between states that are known by equations.
moves :
    (s s' t t' : SessionState) (c : SmtpCommand) (r : CommandResult)
    → Transition s' c r t'
    → s ≡ s'
    → t ≡ t'
    → Transition s c r t
moves s s' t t' c r h e f =
    subst (λ a. Transition a c r t) (sym e) (subst (λ b. Transition s' c r b) (sym f) h)

arrives :
    (s t t' : SessionState) (c : SmtpCommand) (r : CommandResult)
    → Transition s c r t'
    → t ≡ t'
    → Transition s c r t
arrives s t t' c r h f = moves s s t t' c r h refl f

refuses :
    (s t : SessionState) (c : SmtpCommand) (r : SmtpResponse)
    → IsRefusal s t r
    → Transition s c (response r) t
refuses s t c r (code, same) = arrives s t s c (response r) (refused s c r code) same

takes : (s : SessionState) → takes_bdat s ≡ true → TakesChunk s
takes rcpt_to e = first_chunk
takes bdat e = later_chunk
takes connected e = cc
takes greeted e = cc
takes mail_from e = cc
takes data_state e = cc
takes done e = cc

chunk_moves :
    (s t : SessionState) (size : ℕ) (last : Bool) (r : SmtpResponse)
    → TakesChunk s
    → ChunkComes last t r
    → Transition s (chunk size last) (response r) t
chunk_moves s t size last r k (inl (more, (code, f))) =
    subst (λ l. Transition s (chunk size l) (response r) t) (sym more)
      (arrives s t bdat _ _ (next_chunk s size r k code) f)
chunk_moves s t size last r k (inr (inl (ends, f))) =
    subst (λ l. Transition s (chunk size l) (response r) t) (sym ends)
      (arrives s t greeted _ _ (last_chunk s size r k) f)
chunk_moves s t size last r k (inr (inr (inl (code, f)))) =
    arrives s t greeted _ _ (large_chunk s size last r k code) f
chunk_moves s t size last r k (inr (inr (inr (code, f)))) =
    arrives s t done _ _ (chunk_lost s size last r k code) f

bdat_moves :
    (s t : SessionState) (size : ℕ) (last : Bool) (o : CommandResult)
    → BdatComes s t size last o
    → Transition s (chunk size last) o t
bdat_moves s t size last (response r) (inl h) = refuses s t _ r h
bdat_moves s t size last (response r) (inr (k, h)) = chunk_moves s t size last r (takes s k) h
bdat_moves s t size last panicked (k, huge, f) =
    arrives s t s _ panicked (huge_chunk s size last (takes s k) huge) f
bdat_moves s t size last upgrade h = elim h [ ]

module _ {A W : Type 0} (d : SessionDeps A W) where
  upgrade_moves :
      (s : SessionState) (o : Option SmtpResponse)
      → ((r : SmtpResponse) × (o ≡ some r) × (400 ≤ r.code)) ⊎ ((o ≡ none) × (s ≡ greeted))
      → Transition s start_tls (starttls_result d o) s
  upgrade_moves s o (inl (r, e, code)) =
      subst (λ q. Transition s start_tls (starttls_result d q) s) (sym e)
        (refused s start_tls r code)
  upgrade_moves s o (inr (e, f)) =
      subst (λ q. Transition s start_tls (starttls_result d q) s) (sym e)
        (moves s greeted s greeted _ _ upgrades f f)

  pub handle_command-Transition :
      (s : Session A) (c : SmtpCommand) (w : W)
      → Transition s.state c (handle_command d s c w).0 (handle_command d s c w).1.state
  unfolding handle_command handle_quit bye ok_reply command_not_implemented command_not_recognized
  handle_command-Transition s (ehlo domain) w = elim (handle_ehlo_state s domain) [
    | inl h ↦ refuses _ _ _ _ h
    | inr (code, f) ↦ arrives _ _ _ _ _ (extended_hello s.state domain _ code) f
  ]
  handle_command-Transition s (helo domain) w = elim (handle_helo_state s domain) [
    | inl h ↦ refuses _ _ _ _ h
    | inr (code, f) ↦ arrives _ _ _ _ _ (hello s.state domain _ code) f
  ]
  handle_command-Transition s (mail params) w = elim (handle_mail_from_state d s params w) [
    | inl h ↦ refuses _ _ _ _ h
    | inr (e, inl (code, f)) ↦ moves _ _ _ _ _ _ (begins params _ code) e f
    | inr (e, inr (code, f)) ↦ moves _ _ _ _ _ _ (exhausted params _ code) e f
  ]
  handle_command-Transition s (rcpt params) w = elim (handle_rcpt_to_state s params) [
    | inl h ↦ refuses _ _ _ _ h
    | inr (inl e, (code, f)) ↦ moves _ _ _ _ _ _ (first_recipient params _ code) e f
    | inr (inr e, (code, f)) ↦ moves _ _ _ _ _ _ (next_recipient params _ code) e f
  ]
  handle_command-Transition s data_cmd w = elim (handle_data_state d s w) [
    | inl h ↦ refuses _ _ _ _ h
    | inr (e, inl f) ↦ moves _ _ _ _ _ _ (message_done _) e f
    | inr (e, inr (inl (code, f))) ↦ moves _ _ _ _ _ _ (message_lost _ code) e f
    | inr (e, inr (inr (code, f))) ↦ moves _ _ _ _ _ _ (not_prompted _ code) e f
  ]
  handle_command-Transition s (chunk size last) w =
      bdat_moves _ _ size last _ (handle_bdat_state d s size last w)
  handle_command-Transition s quit w = leaves s.state bye refl
  handle_command-Transition s rset w = elim (handle_rset_state s) [
    | inl (e, (code, f)) ↦ moves _ _ _ _ _ _ (nothing_to_reset _ code) e f
    | inr (n, (code, f)) ↦ arrives _ _ _ _ _ (resets s.state _ n code) f
  ]
  handle_command-Transition s noop w = idles s.state _ refl
  handle_command-Transition s (vrfy text) w = verifies s.state text _ refl
  handle_command-Transition s help w = helps s.state _ refl
  handle_command-Transition s start_tls w = upgrade_moves _ _ (handle_starttls_state s)
  handle_command-Transition s (auth args) w = elim (handle_auth_begin_state d s args w) [
    | inl h ↦ refuses _ _ _ _ h
    | inr (outside, inl f) ↦ arrives _ _ _ _ _ (exchanges s.state args _ outside) f
    | inr (outside, inr (code, f)) ↦ arrives _ _ _ _ _ (locked_out s.state args _ outside code) f
  ]
  handle_command-Transition s (xclient params) w = elim (handle_xclient_state s params) [
    | inl h ↦ refuses _ _ _ _ h
    | inr (e, (code, f)) ↦ moves _ _ _ _ _ _ (restarts params _ code) e f
  ]
  handle_command-Transition s (not_implemented text) w =
      refused s.state _ command_not_implemented (omega arith)
  handle_command-Transition s (unknown text) w =
      refused s.state _ command_not_recognized (omega arith)
