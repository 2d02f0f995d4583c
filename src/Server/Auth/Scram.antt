-- ===== src/Server/Auth/Scram.antt =====
-- The mechanism SCRAM-SHA-256 of crates/sentio-smtp-server/src/auth.rs, with and without channel
-- binding.
use sentio.Common.{
  ℕ, Bool, true, false, List, [], ◌∷◌, ◌++◌, Option, none, some, is_some, if◌then◌else◌, Result, ok,
  err, ok_or, ◌>>=◌,
}
use sentio.Common.Text.{Text, codes, same, strip_prefix, split, split_once, decimal}
use sentio.Common.Utf8.Encode.{to_utf8}
use sentio.Server.Response.{SmtpResponse, auth_failed, auth_challenge, auth_continue}
use sentio.Server.Session.Types.{challenge}
use sentio.Server.Auth.Types.{
  SmtpCredentialRecord, SaslDeps, ScramServerState, scram_step, Progress,
}
use sentio.Server.Auth.Passwords.{check_account, decode, text_of, then_with}

-- The GS2 header, its flag, and the rest of the client's first message.
pub record Gs2 : Type 0 where
  pub header : Text
  pub flag : ℕ
  pub bare : Text

-- The test of the name of the binding, before the rest is read.
unfoldable pub after_name : (cb_name rest : Text) → Result SmtpResponse Text
after_name cb_name rest =
    if same cb_name (codes "tls-server-end-point")
    then ok_or (strip_prefix (codes ",,") (b',' ∷ rest)) auth_failed
    else err auth_failed

-- The header with the flag `p`, where the server has a binding.
unfoldable pub bound : (has_binding : Bool) → (cb_name bare : Text) → Result SmtpResponse Gs2
bound true cb_name bare =
    ok (record { header = codes "p=" ++ (cb_name ++ codes ",,"); flag = b'p'; bare = bare })
bound false cb_name bare = err auth_failed

unfoldable pub parse_binding : (has_binding : Bool) → Text → Result SmtpResponse Gs2
parse_binding has_binding after_p = do
  (cb_name, rest) ← ok_or (split_once b',' after_p) auth_failed
  bare ← after_name cb_name rest
  bound has_binding cb_name bare

unfoldable pub parse_gs2 : (has_binding : Bool) → Text → Result SmtpResponse Gs2
parse_gs2 has_binding client_first = elim (strip_prefix (codes "n,,") client_first) [
  | some rest ↦ ok (record { header = codes "n,,"; flag = b'n'; bare = rest })
  | none ↦ elim (strip_prefix (codes "y,,") client_first) [
    | some rest ↦ ok (record { header = codes "y,,"; flag = b'y'; bare = rest })
    | none ↦ elim (strip_prefix (codes "p=") client_first) [
      | some after_p ↦ parse_binding has_binding after_p
      | none ↦ err auth_failed
    ]
  ]
]

-- The loop over the attributes, whose last `n=` and `r=` count.
unfoldable pub first_attributes : Option Text → Option Text → List Text → Option Text × Option Text
first_attributes username nonce [] = (username, nonce)
first_attributes username nonce (part ∷ parts) = elim (strip_prefix (codes "n=") part) [
  | some u ↦ first_attributes (some u) nonce parts
  | none ↦ elim (strip_prefix (codes "r=") part) [
    | some r ↦ first_attributes username (some r) parts
    | none ↦ first_attributes username nonce parts
  ]
]

unfoldable pub user_and_nonce : Text → Result SmtpResponse (Text × Text)
user_and_nonce bare = do
  let found = first_attributes none none (split b',' bare)
  username ← ok_or found.0 auth_failed
  client_nonce ← ok_or found.1 auth_failed
  ok (username, client_nonce)

-- The state before the lookup.
abbrev pub first_state : Option (List ℕ) → Gs2 → (user nonce : Text) → ScramServerState
first_state binding gs2 user nonce = record {
  client_first_bare = gs2.bare;
  server_first = [];
  stored_key_b64 = [];
  server_key_b64 = [];
  combined_nonce = nonce;
  salt_b64 = [];
  iterations = 0;
  username = user;
  tenant_id = 0;
  channel_binding_data = binding;
  gs2_cbind_flag = gs2.flag;
  gs2_header = gs2.header;
}

unfoldable pub parse_first : Option (List ℕ) → Text → Result SmtpResponse ScramServerState
parse_first binding client_first = do
  gs2 ← parse_gs2 (is_some binding) client_first
  (user, nonce) ← user_and_nonce gs2.bare
  ok (first_state binding gs2 user nonce)

-- The lookup is left to the next step, so the challenge is empty.
unfoldable pub scram_process_client_first : Text → Option (List ℕ) → Progress
scram_process_client_first client_first binding = do
  state ← parse_first binding client_first
  ok (challenge (scram_step state) auth_continue)

abbrev pub empty_state : Option (List ℕ) → ScramServerState
empty_state binding = first_state binding (record { header = []; flag = b'n'; bare = [] }) [] []

-- The keys of an account that has them all.
unfoldable pub with_keys :
    SmtpCredentialRecord → ScramServerState → Result SmtpResponse ScramServerState
with_keys account state = do
  stored_key ← ok_or account.scram_stored_key auth_failed
  server_key ← ok_or account.scram_server_key auth_failed
  salt ← ok_or account.scram_salt auth_failed
  iterations ← ok_or account.scram_iterations auth_failed
  ok (record state {
    stored_key_b64 = stored_key;
    server_key_b64 = server_key;
    salt_b64 = salt;
    iterations = iterations;
    tenant_id = account.tenant_id;
  })

unfoldable pub server_first_message : ScramServerState → Text
server_first_message state =
    codes "r="
    ++ (state.combined_nonce
        ++ (codes ",s=" ++ (state.salt_b64 ++ (codes ",i=" ++ decimal state.iterations))))

module _ {W : Type 0} (d : SaslDeps W) where
  unfoldable pub handle_scram_begin : Option Text → Option (List ℕ) → Progress
  handle_scram_begin none binding = ok (challenge (scram_step (empty_state binding)) auth_continue)
  handle_scram_begin (some initial) binding = do
    bytes ← decode d (to_utf8 initial)
    client_first ← text_of d bytes
    scram_process_client_first client_first binding

  -- A nonce is drawn, and the server's first message is sent.
  unfoldable pub send_server_first : ScramServerState → W → Progress × W
  send_server_first state w =
      let (bytes, w') = d.random w in
      let state' = record state { combined_nonce = state.combined_nonce ++ d.b64_encode bytes } in
      let message = server_first_message state' in
      (
        ok (
            challenge (scram_step (record state' { server_first = message }))
              (auth_challenge (d.b64_encode (to_utf8 message)))),
        w',
      )

  unfoldable pub scram_produce_server_first : ScramServerState → W → Progress × W
  scram_produce_server_first state w =
      let (found, w') = d.lookup state.username w in
      then_with d (do account ← check_account d found; with_keys account state) send_server_first w'

  unfoldable pub scram_process_full_first : Text → ScramServerState → W → Progress × W
  scram_process_full_first client_first state w =
      then_with d (parse_first state.channel_binding_data client_first) scram_produce_server_first w
