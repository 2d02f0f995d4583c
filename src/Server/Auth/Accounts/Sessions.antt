-- ===== src/Server/Auth/Accounts/Sessions.antt =====
-- The sessions of crates/sentio-smtp-server/src/session.rs with the exchanges of
-- crates/sentio-smtp-server/src/auth.rs: who is logged in when a session ends.
use sentio.Common.{Option, none, some}
use sentio.Common.Text.{Text}
use sentio.Server.Session.Types.{Session, SessionDeps, AuthResult}
use sentio.Server.Extensions
use sentio.Server.Auth.Types.{SaslDeps, AuthState}
use sentio.Server.Auth.Exchange.{begin_auth, continue_auth}
use sentio.Server.Auth.Accounts.{IsGenuine, IsSound}

-- The callbacks of a session, with the exchanges of auth.rs.
abbrev pub with_sasl : {W : Type 0} → SaslDeps W → SessionDeps AuthState W → SessionDeps AuthState W
with_sasl d rest = record rest {
  begin_auth = begin_auth d;
  continue_auth = λ state line cb w. continue_auth d state line w;
}

-- A session whose user is genuine, and whose exchange is sound.
module _ {W : Type 0} (d : SaslDeps W) (rest : SessionDeps AuthState W)
    (IsMessage : Text → Type 0) where
  abbrev IsGenuine? : Option AuthResult → Type 0
  IsGenuine? none = Unit {0}
  IsGenuine? (some user) = IsGenuine d IsMessage user

  abbrev IsSound? : Option AuthState → Type 0
  IsSound? none = Unit {0}
  IsSound? (some state) = IsSound d IsMessage state

  record LoggedIn (s : Session AuthState) : Type 0 where
    user : IsGenuine? s.authenticated
    exchange : IsSound? s.auth_state
