-- ===== src/Server/Session/Guards.antt =====
-- What no client of session.rs can get: a login without TLS, or the address of another client.
mod Tests
use sentio.Common.{
  ℕ, Bool, false, ◌||◌, List, [], ◌∷◌, none, some, ◌≡◌, ◌≢◌, ◌⊎◌, inl, inr, ◌∙◌, refl, sym, subst,
  arith, All,
}
use sentio.Server.Commands.Types.{IpAddr}
use sentio.Server.Session.Types.{
  Connection, SessionConfig, ListenerMode, Session, SessionDeps, new_session, is_smtps,
}
use sentio.Server.Session.Envelope.{contains_ip}
use sentio.Server.Session.Loop.{Round, handle_line, run}
use sentio.Server.Session.Frame.{Frame, handle_line-Frame}
use sentio.Server.Session.Rules.{IsKept, session_of, run-Holds}
use sentio.Server.Session.Invariant.{IsValid}
use sentio.Server.Session.Invariant.Rounds.{handle_line-IsValid, line-IsKept, new_session-IsValid}

module _ {A W : Type 0} (d : SessionDeps A W) (tls_active : Bool) (mode : ListenerMode) where
  record Listening (s : Session A) (w : W) : Type 0 where
    valid : IsValid s
    same_tls : s.tls_active ≡ tls_active
    same_mode : s.listener_mode ≡ mode

  Listening-IsKept : IsKept d Listening
  Listening-IsKept = record {
    moved = λ s w count buf ev signals writes written h. record {
      valid = (line-IsKept d).moved s w count buf ev signals writes written h.valid;
      same_tls = h.same_tls;
      same_mode = h.same_mode;
    };
    line = λ s st bytes w h e.
        let f = handle_line-Frame d s st bytes w in
        record {
          valid = handle_line-IsValid d s st bytes w h.valid e;
          same_tls = f.tls ∙ h.same_tls;
          same_mode = f.mode ∙ h.same_mode;
        };
  }

  run-Listening :
      (fuel : ℕ) (stream : Connection) (config : SessionConfig) (peer : IpAddr) (w : W)
      (r : Round A W)
      → run d fuel (new_session stream config peer mode tls_active) w ≡ some r
      → Listening (session_of r) w
  unfolding new_session
  run-Listening fuel stream config peer w r e =
      let start : Listening (new_session stream config peer mode tls_active) w = record {
        valid = new_session-IsValid stream config peer mode tls_active;
        same_tls = refl;
        same_mode = refl;
      } in
      let h =
        run-Holds d Listening Listening-IsKept fuel (new_session stream config peer mode tls_active)
          w r start start e in
      record { valid = h.valid; same_tls = h.same_tls; same_mode = h.same_mode }

  -- In a session that is not under TLS and not on the SMTPS port, nobody is logged in when it ends,
  -- and no exchange of AUTH is under way.
  pub run_unauthenticated :
      (fuel : ℕ) (stream : Connection) (config : SessionConfig) (peer : IpAddr) (w : W)
      (r : Round A W)
      → (tls_active || is_smtps mode) ≡ false
      → run d fuel (new_session stream config peer mode tls_active) w ≡ some r
      → ((session_of r).authenticated ≡ none) × ((session_of r).auth_state ≡ none)
  run_unauthenticated fuel stream config peer w r plain e =
      let h = run-Listening fuel stream config peer w r e in
      ground (arith, h, h.valid.identity, h.valid.exchange_secure, plain, h.same_tls, h.same_mode)

-- An address that is not in the list.
contains_ip_absent :
    (ips : List IpAddr) (a : IpAddr) → All (λ ip. ip ≢ a) ips → contains_ip ips a ≡ false
unfolding contains_ip
contains_ip_absent [] a h = refl
contains_ip_absent (ip ∷ ips) a h = ground (arith, contains_ip_absent ips a h.1, h.0)

module _ {A W : Type 0} (d : SessionDeps A W) (config : SessionConfig) (peer : IpAddr) where
  -- XCLIENT is off, or is not for this peer.
  abbrev IsUntrusted : Type 0
  IsUntrusted = All (λ ip. ip ≢ peer) config.xclient_allowed_ips ⊎ (config.xclient_enabled ≡ false)

  record FromPeer (s : Session A) (w : W) : Type 0 where
    same : s.config ≡ config
    address : s.peer_addr ≡ peer

  keeps_peer : (s s' : Session A) (w : W) → IsUntrusted → Frame s s' → FromPeer s w → FromPeer s' w
  keeps_peer s s' w u f h = record {
    same = f.config ∙ h.same;
    address =
        f.peer (
          subst
            (λ c.
              (contains_ip c.xclient_allowed_ips s.peer_addr ≡ false) ⊎ (c.xclient_enabled ≡ false))
            (sym h.same)
            (elim u [
              | inl absent ↦ inl (
                  subst (λ a. contains_ip config.xclient_allowed_ips a ≡ false) (sym h.address)
                    (contains_ip_absent config.xclient_allowed_ips peer absent))
              | inr off ↦ inr off
            ]))
        ∙ h.address;
  }

  FromPeer-IsKept : IsUntrusted → IsKept d FromPeer
  FromPeer-IsKept u = record {
    moved =
        λ s w count buf ev signals writes written h. record { same = h.same; address = h.address };
    line = λ s st bytes w h e.
        let h' =
          keeps_peer s (handle_line d s st bytes w).1 w u (handle_line-Frame d s st bytes w) h in
        record { same = h'.same; address = h'.address };
  }

  -- A client whose address is none of those that may use XCLIENT, or any client where it is off, is
  -- still taken for its own address when its session ends.
  pub run_untrusted_peer :
      (fuel : ℕ) (stream : Connection) (mode : ListenerMode) (tls_active : Bool) (w : W)
      (r : Round A W)
      → IsUntrusted
      → run d fuel (new_session stream config peer mode tls_active) w ≡ some r
      → (session_of r).peer_addr ≡ peer
  unfolding new_session
  run_untrusted_peer fuel stream mode tls_active w r u e =
      let start : FromPeer (new_session stream config peer mode tls_active) w = record {
        same = refl;
        address = refl;
      } in
      let h =
        run-Holds d FromPeer (FromPeer-IsKept u) fuel
          (new_session stream config peer mode tls_active) w r start start e in
      h.address
