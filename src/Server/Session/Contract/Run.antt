-- ===== src/Server/Session/Contract/Run.antt =====
-- A whole session of session.rs keeps to the contract with its callbacks.
use sentio.Common.{ℕ, Bool, some, ◌≤◌, ◌≡◌, ◌∙◌, refl, subst, sym}
use sentio.Server.Commands.Types.{IpAddr}
use sentio.Server.Session.Types.{
  Connection, SessionConfig, ListenerMode, Session, SessionDeps, new_session,
}
use sentio.Server.Session.Loop.{Round, handle_line, run}
use sentio.Server.Session.Frame.{Frame, handle_line-Frame}
use sentio.Server.Session.Rules.{IsKept, session_of, world_of, run-Holds}
use sentio.Server.Session.Invariant.{IsValid}
use sentio.Server.Session.Invariant.Rounds.{handle_line-IsValid, line-IsKept, new_session-IsValid}
use sentio.Server.Session.Contract.{IsContract}
use sentio.Server.Session.Contract.Handlers.{handle_line-After}

module _ {A W : Type 0} (d : SessionDeps A W) (P : ℕ → W → Type 0) (config : SessionConfig) where
  record Running (s : Session A) (w : W) : Type 0 where
    valid : IsValid s
    same : s.config ≡ config
    contract : IsContract d P s.config s.listener_mode
    world : P s.message_count w

  moved-IsContract :
      (s s' : Session A)
      → Frame s s'
      → IsContract d P s.config s.listener_mode
      → IsContract d P s'.config s'.listener_mode
  moved-IsContract s s' f c =
      subst (λ config. IsContract d P config s'.listener_mode) (sym f.config)
        (subst (λ mode. IsContract d P s.config mode) (sym f.mode) c)

  Running-IsKept : IsKept d Running
  Running-IsKept = record {
    moved = λ s w count buf ev signals writes written h. record {
      valid = (line-IsKept d).moved s w count buf ev signals writes written h.valid;
      same = h.same;
      contract = h.contract;
      world = h.world;
    };
    line = λ s st bytes w h e. record {
      valid = handle_line-IsValid d s st bytes w h.valid e;
      same = (handle_line-Frame d s st bytes w).config ∙ h.same;
      contract =
          moved-IsContract s (handle_line d s st bytes w).1 (handle_line-Frame d s st bytes w)
            h.contract;
      world = handle_line-After d P s st bytes w h.valid h.contract h.world;
    };
  }

  -- If the callbacks keep a property of the world and of the number of messages taken, where the
  -- processor has to keep it for deliverable messages below the quota only, then it holds when a
  -- session on a new connection ends, and the messages taken are within the quota.
  pub run_keeps :
      (fuel : ℕ) (stream : Connection) (peer : IpAddr) (mode : ListenerMode) (tls_active : Bool)
      (w : W) (r : Round A W)
      → IsContract d P config mode
      → P 0 w
      → run d fuel (new_session stream config peer mode tls_active) w ≡ some r
      → P (session_of r).message_count (world_of r)
        × ((session_of r).message_count ≤ config.max_messages)
  unfolding new_session
  run_keeps fuel stream peer mode tls_active w r c p e =
      let v = new_session-IsValid {A = A} stream config peer mode tls_active in
      let start : Running (new_session stream config peer mode tls_active) w = record {
        valid = v;
        same = refl;
        contract = c;
        world = p;
      } in
      let h =
        run-Holds d Running Running-IsKept fuel (new_session stream config peer mode tls_active) w r
          start start e in
      (h.world, subst (λ c. (session_of r).message_count ≤ c.max_messages) h.same h.valid.messages)
