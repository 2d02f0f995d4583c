-- ===== src/Server/Auth/Types.antt =====
-- What the SASL exchanges of crates/sentio-smtp-server/src/auth.rs keep and are given.
use Prim.Native.Nat.{bit_or, bit_xor}
use sentio.Common.{ℕ, Bool, false, List, ◌∷◌, Option, length, ◌==◌, not, if◌then◌else◌, Result}
use sentio.Common.Text.{Text}
use sentio.Server.Response.{SmtpResponse, auth_failed, auth_temp_failure}
use sentio.Server.Session.Types.{TenantId, AuthProgress}

-- `SmtpCredentialRecord` of crates/sentio-core/src/traits.rs, as far as it is read. The iterations
-- are those that the cast to `u32` gives.
pub record SmtpCredentialRecord : Type 0 where
  pub tenant_id : TenantId
  pub username : Text
  pub password_hash : Text
  pub scram_stored_key : Option Text
  pub scram_server_key : Option Text
  pub scram_salt : Option Text
  pub scram_iterations : Option ℕ
  pub enabled : Bool

-- `SentioError` as the answer to a lookup: no such user, or a failure behind the lookup.
pub data LookupError : Type 0 where
  not_found unavailable : LookupError

-- What the check of a password on a blocking thread comes to.
pub data Verification : Type 0 where
  matches differs unreadable_hash panicked : Verification

-- The lookup of a credential and the random bytes of a nonce, which read and change the world, and
-- the crates for base64, SHA-256, HMAC and Argon2.
pub record SaslDeps (W : Type 0) : Type 0 where
  pub lookup : Text → W → Result LookupError SmtpCredentialRecord × W
  pub random : W → List ℕ × W
  pub b64_decode : List ℕ → Option (List ℕ)
  pub b64_encode : List ℕ → Text
  pub sha256 : List ℕ → List ℕ
  pub hmac_sha256 : (key message : List ℕ) → List ℕ
  pub argon2 : (hash : Text) → (password : List ℕ) → Verification

pub record ScramServerState : Type 0 where
  pub client_first_bare : Text
  pub server_first : Text
  pub stored_key_b64 : Text
  pub server_key_b64 : Text
  pub combined_nonce : Text
  pub salt_b64 : Text
  pub iterations : ℕ
  pub username : Text
  pub tenant_id : TenantId
  pub channel_binding_data : Option (List ℕ)
  pub gs2_cbind_flag : ℕ
  pub gs2_header : Text

pub data AuthState : Type 0 where
  waiting_plain_data login_waiting_username : AuthState
  login_waiting_password : (username : Text) → AuthState
  scram_step : ScramServerState → AuthState

-- What a step of an exchange comes to.
abbrev pub Progress : Type 0
Progress = Result SmtpResponse (AuthProgress AuthState)

unfoldable pub lookup_error_to_response : LookupError → SmtpResponse
lookup_error_to_response not_found = auth_failed
lookup_error_to_response unavailable = auth_temp_failure

-- The loop over two lists of one length, with its accumulator.
unfoldable pub differences : ℕ → List ℕ → List ℕ → ℕ
differences diff (x ∷ xs) (y ∷ ys) = differences (bit_or diff (bit_xor x y)) xs ys
differences diff _ _ = diff

unfoldable pub constant_time_eq : List ℕ → List ℕ → Bool
unfolding differences
constant_time_eq a b = if not (length a == length b) then false else differences 0 a b == 0
