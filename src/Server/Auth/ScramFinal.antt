-- ===== src/Server/Auth/ScramFinal.antt =====
-- The client's last message of SCRAM-SHA-256, and the order of the steps:
-- `scram_process_client_final` and `handle_scram_continue` of
-- crates/sentio-smtp-server/src/auth.rs.
use Prim.Native.Nat.{bit_xor}
use sentio.Common.{
  ℕ, List, [], ◌∷◌, ◌++◌, Option, none, some, length, ◌==◌, if◌then◌else◌, Result, ok, err, ok_or,
  ◌>>=◌, ◌>>◌, ensure,
}
use sentio.Common.Text.{Text, codes, same, is_empty, starts_with, strip_prefix, split}
use sentio.Common.Utf8.Encode.{to_utf8}
use sentio.Server.Response.{SmtpResponse, auth_failed}
use sentio.Server.Session.Types.{complete}
use sentio.Server.Auth.Types.{SaslDeps, ScramServerState, Progress, constant_time_eq}
use sentio.Server.Auth.Passwords.{decode, text_of, then_with}
use sentio.Server.Auth.Scram.{scram_process_full_first, scram_produce_server_first}

-- The attributes of the last message.
pub record FinalAttributes : Type 0 where
  pub channel_binding_b64 : Option Text
  pub nonce : Option Text
  pub proof_b64 : Option Text

abbrev pub no_attributes : FinalAttributes
no_attributes = record { channel_binding_b64 = none; nonce = none; proof_b64 = none }

unfoldable pub read_attribute : FinalAttributes → Text → FinalAttributes
read_attribute found part = elim (strip_prefix (codes "c=") part) [
  | some c ↦ record found { channel_binding_b64 = some c }
  | none ↦ elim (strip_prefix (codes "r=") part) [
    | some r ↦ record found { nonce = some r }
    | none ↦ elim (strip_prefix (codes "p=") part) [
      | some p ↦ record found { proof_b64 = some p }
      | none ↦ found
    ]
  ]
]

-- The loop over the parts.
unfoldable pub final_attributes : FinalAttributes → List Text → FinalAttributes
final_attributes found [] = found
final_attributes found (part ∷ parts) = final_attributes (read_attribute found part) parts

unfoldable pub parts_without_proof : List Text → List Text
parts_without_proof [] = []
parts_without_proof (part ∷ parts) =
    if starts_with (codes "p=") part
    then parts_without_proof parts
    else part ∷ parts_without_proof parts

-- `join(",")`.
unfoldable pub join_comma : List Text → Text
join_comma [] = []
join_comma (part ∷ []) = part
join_comma (part ∷ next ∷ parts) = part ++ (b',' ∷ join_comma (next ∷ parts))

-- The data that the channel binding must repeat, by the flag of the first message.
unfoldable pub with_binding : List ℕ → Option (List ℕ) → Result SmtpResponse (List ℕ)
with_binding header (some binding) = ok (header ++ binding)
with_binding header none = err auth_failed

unfoldable pub expected_binding : ScramServerState → Result SmtpResponse (List ℕ)
expected_binding state =
    if state.gs2_cbind_flag == b'p'
    then with_binding (to_utf8 state.gs2_header) state.channel_binding_data
    else ok (to_utf8 state.gs2_header)

-- The client's key: the proof and the signature, byte by byte.
unfoldable pub xor_bytes : List ℕ → List ℕ → List ℕ
xor_bytes (a ∷ xs) (b ∷ ys) = bit_xor a b ∷ xor_bytes xs ys
xor_bytes _ _ = []

unfoldable pub auth_message_of : ScramServerState → List Text → Text
auth_message_of state parts =
    state.client_first_bare
    ++ (b',' ∷ (state.server_first ++ (b',' ∷ join_comma (parts_without_proof parts))))

module _ {W : Type 0} (d : SaslDeps W) where
  unfoldable pub check_binding : ScramServerState → FinalAttributes → Result SmtpResponse (Unit {0})
  check_binding state found = do
    cb_b64 ← ok_or found.channel_binding_b64 auth_failed
    cb_data ← decode d (to_utf8 cb_b64)
    expected_cb ← expected_binding state
    ensure (constant_time_eq cb_data expected_cb) auth_failed

  unfoldable pub check_proof :
      ScramServerState → (proof_b64 auth_message : Text) → Result SmtpResponse (Unit {0})
  check_proof state proof_b64 auth_message = do
    stored_key ← decode d (to_utf8 state.stored_key_b64)
    let client_signature = d.hmac_sha256 stored_key (to_utf8 auth_message)
    client_proof ← decode d (to_utf8 proof_b64)
    ensure (length client_proof == length client_signature) auth_failed
    let client_key = xor_bytes client_proof client_signature
    ensure (constant_time_eq (d.sha256 client_key) stored_key) auth_failed

  unfoldable pub scram_process_client_final : ScramServerState → Text → Progress
  scram_process_client_final state client_final = do
    let parts = split b',' client_final
    let found = final_attributes no_attributes parts
    check_binding state found
    nonce ← ok_or found.nonce auth_failed
    proof_b64 ← ok_or found.proof_b64 auth_failed
    ensure (same nonce state.combined_nonce) auth_failed
    check_proof state proof_b64 (auth_message_of state parts)
    ok (complete (record { username = state.username; tenant_id = state.tenant_id }))

  -- Which message this is, by what has been sent and received.
  unfoldable pub scram_dispatch : ScramServerState → Text → W → Progress × W
  scram_dispatch state msg w =
      if is_empty state.server_first
      then (if is_empty state.client_first_bare
          then scram_process_full_first d msg state w
          else scram_produce_server_first d state w)
      else (scram_process_client_final state msg, w)

  unfoldable pub handle_scram_continue : ScramServerState → (client_data : Text) → W → Progress × W
  handle_scram_continue state client_data w =
      then_with d (do bytes ← decode d (to_utf8 client_data); text_of d bytes)
        (scram_dispatch state) w
