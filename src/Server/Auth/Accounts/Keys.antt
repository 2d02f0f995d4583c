-- ===== src/Server/Auth/Accounts/Keys.antt =====
-- The mechanism SCRAM-SHA-256 of crates/sentio-smtp-server/src/auth.rs authenticates genuine users
-- only.
use sentio.Common.{
  ◌∙◌, ap, ℕ, Bool, true, false, List, ◌++◌, Option, none, some, is_some, ◌≡◌, ◌⊎◌, inl, inr, refl,
  arith, length, ◌==◌, ok, ok_or, ensure, Bool-cases, subst, sym, >>=-eq_ok, ensure_lem, ok_or_lem,
}
use sentio.Common.Text.{Text, codes, decimal, same, same_iff, is_empty, split}
use sentio.Common.Utf8.Encode.{to_utf8}
use sentio.Server.Response.{auth_failed}
use sentio.Server.Session.Types.{complete}
use sentio.Server.Auth.Types.{SmtpCredentialRecord, SaslDeps, ScramServerState, scram_step}
use sentio.Server.Auth.Passwords.{check_account, decode, text_of}
use sentio.Server.Auth.Scram.{
  parse_gs2, server_first_message, user_and_nonce, parse_first, with_keys,
  scram_process_client_first, handle_scram_begin, send_server_first, scram_produce_server_first,
  scram_process_full_first,
}
use sentio.Server.Auth.ScramFinal.{
  check_proof, check_binding, no_attributes, final_attributes, auth_message_of, xor_bytes,
  scram_process_client_final, scram_dispatch,
}
use sentio.Server.Auth.Bytes.{constant_time_eq_iff}
use sentio.Server.Auth.Accounts.{
  IsFound, IsTold, IsChallenged, IsProved, by_key, IsGenuine, IsKeyed, IsSound, IsSoundProgress,
}
use sentio.Server.Auth.Accounts.Passwords.{then_with-IsSound, >>=-IsSound, check_account_lem}

module _ {W : Type 0} (d : SaslDeps W) (Said : Text → Type 0) where
  with_keys_lem :
      (account : SmtpCredentialRecord) (state state' : ScramServerState)
      → with_keys account state ≡ ok state'
      → (state'.username ≡ state.username)
        × (state'.tenant_id ≡ account.tenant_id)
        × (account.scram_stored_key ≡ some state'.stored_key_b64)
  unfolding with_keys
  with_keys_lem account state state' e = ground arith

  send_server_first-IsSound :
      (state : ScramServerState) (w : W)
      → IsKeyed d Said state
      → IsSoundProgress d Said (send_server_first d state w).0
  unfolding send_server_first server_first_message
  send_server_first-IsSound state w k = inr (
    record { account = k.account; looked_up = k.looked_up; tenant = k.tenant; stored = k.stored },
    (codes ",s=" ++ (state.salt_b64 ++ (codes ",i=" ++ decimal state.iterations)), refl),
  )

  keyed :
      (state state' : ScramServerState) (w : W) (account : SmtpCredentialRecord)
      → check_account d (d.lookup state.username w).0 ≡ ok account
      → with_keys account state ≡ ok state'
      → IsKeyed d Said state'
  keyed state state' w account found e =
      let (same_name, tenant, stored) = with_keys_lem account state state' e in
      record {
        account = account;
        looked_up =
            subst (λ name. IsFound d name account) (sym same_name)
              (check_account_lem d Said state.username w _ account refl found);
        tenant = tenant;
        stored = stored;
      }

  scram_produce_server_first-IsSound :
      (state : ScramServerState) (w : W)
      → IsSoundProgress d Said (scram_produce_server_first d state w).0
  unfolding scram_produce_server_first
  scram_produce_server_first-IsSound state w =
      then_with-IsSound d Said _ (send_server_first d) _ (λ state' e.
        let (account, found, e') = >>=-eq_ok (check_account d (d.lookup state.username w).0) _ e in
        send_server_first-IsSound state' _ (keyed state state' w account found e'))

  parse_first_lem :
      (binding : Option (List ℕ)) (client_first : Text) (state : ScramServerState)
      → parse_first binding client_first ≡ ok state
      → is_empty state.server_first ≡ true
  unfolding parse_first is_empty
  parse_first_lem binding client_first state e =
      let (gs2, _, e') = >>=-eq_ok (parse_gs2 (is_some binding) client_first) _ e in
      let (p, _, e'') = >>=-eq_ok (user_and_nonce gs2.bare) _ e' in ground arith

  scram_process_client_first-IsSound :
      (client_first : Text) (binding : Option (List ℕ))
      → IsSoundProgress d Said (scram_process_client_first client_first binding)
  unfolding scram_process_client_first
  scram_process_client_first-IsSound client_first binding =
      >>=-IsSound d Said (parse_first binding client_first) _
        (λ state e. inl (parse_first_lem binding client_first state e))

  pub handle_scram_begin-IsSound :
      (initial : Option Text) (binding : Option (List ℕ))
      → IsSoundProgress d Said (handle_scram_begin d initial binding)
  unfolding handle_scram_begin is_empty
  handle_scram_begin-IsSound none binding = inl refl
  handle_scram_begin-IsSound (some initial) binding =
      >>=-IsSound d Said (decode d (to_utf8 initial)) _ (λ bytes e.
        >>=-IsSound d Said (text_of d bytes) _
          (λ first e'. scram_process_client_first-IsSound first binding))

  scram_process_full_first-IsSound :
      (client_first : Text) (state : ScramServerState) (w : W)
      → IsSoundProgress d Said (scram_process_full_first d client_first state w).0
  unfolding scram_process_full_first
  scram_process_full_first-IsSound client_first state w =
      then_with-IsSound d Said _ (scram_produce_server_first d) w
        (λ state' e. scram_produce_server_first-IsSound state' w)

  -- A proof that is right comes to a key with the digest that is stored.
  check_proof_lem :
      (state : ScramServerState) (name proof_b64 msg : Text) (account : SmtpCredentialRecord)
      → account.scram_stored_key ≡ some state.stored_key_b64
      → IsTold d Said msg
      → IsChallenged d state
      → (final_attributes no_attributes (split b',' msg)).nonce ≡ some state.combined_nonce
      → (final_attributes no_attributes (split b',' msg)).proof_b64 ≡ some proof_b64
      → check_proof d state proof_b64 (auth_message_of state (split b',' msg)) ≡ ok tt
      → IsProved d Said name account
  unfolding check_proof decode
  check_proof_lem state name proof_b64 msg account e told c fresh sent h =
      let (stored_key, e1, h1) =
        >>=-eq_ok (ok_or (d.b64_decode (to_utf8 state.stored_key_b64)) auth_failed) _ h in
      let (proof, e2, h2) = >>=-eq_ok (ok_or (d.b64_decode (to_utf8 proof_b64)) auth_failed) _ h1 in
      let signature = d.hmac_sha256 stored_key (to_utf8 (auth_message_of state (split b',' msg))) in
      let (_, e3, h3) = >>=-eq_ok (ensure (length proof == length signature) auth_failed) _ h2 in
      let same_key =
        (constant_time_eq_iff (d.sha256 (xor_bytes proof signature)) stored_key).0
          (ensure_lem _ _ h3) in
      by_key state msg proof_b64 stored_key proof told c fresh sent (ok_or_lem _ _ e2) e
        (ok_or_lem _ _ e1) (ground (arith, ensure_lem _ _ e3)) same_key

  proved_user :
      (state : ScramServerState) (proof_b64 msg : Text)
      → IsKeyed d Said state
      → IsTold d Said msg
      → IsChallenged d state
      → (final_attributes no_attributes (split b',' msg)).nonce ≡ some state.combined_nonce
      → (final_attributes no_attributes (split b',' msg)).proof_b64 ≡ some proof_b64
      → check_proof d state proof_b64 (auth_message_of state (split b',' msg)) ≡ ok tt
      → IsGenuine d Said (record { username = state.username; tenant_id = state.tenant_id })
  proved_user state proof_b64 msg k told c fresh sent e = record {
    name = state.username;
    account = k.account;
    looked_up = k.looked_up;
    tenant = k.tenant;
    named = inr refl;
    proved =
        check_proof_lem state state.username proof_b64 msg k.account k.stored told c fresh sent e;
  }

  scram_process_client_final-IsSound :
      (state : ScramServerState) (msg : Text)
      → IsKeyed d Said state
      → IsChallenged d state
      → IsTold d Said msg
      → IsSoundProgress d Said (scram_process_client_final d state msg)
  unfolding scram_process_client_final
  scram_process_client_final-IsSound state msg k c told =
      let parts = split b',' msg in
      let found = final_attributes no_attributes parts in
      >>=-IsSound d Said (check_binding d state found) _ (λ _ _.
        >>=-IsSound d Said (ok_or found.nonce auth_failed) _ (λ nonce given.
          >>=-IsSound d Said (ok_or found.proof_b64 auth_failed) _ (λ proof_b64 sent.
            >>=-IsSound d Said (ensure (same nonce state.combined_nonce) auth_failed) _ (λ _ equal.
              >>=-IsSound d Said (check_proof d state proof_b64 (auth_message_of state parts))
                (λ _.
                  ok (complete (record { username = state.username; tenant_id = state.tenant_id })))
                (λ _ e.
                  proved_user state proof_b64 msg k told c
                    (ok_or_lem _ _ given
                      ∙ ap some ((same_iff nonce state.combined_nonce).0 (ensure_lem _ _ equal)))
                    (ok_or_lem _ _ sent) e)))))

  pub scram_dispatch-IsSound :
      (state : ScramServerState) (msg : Text) (w : W)
      → IsSound d Said (scram_step state)
      → IsTold d Said msg
      → IsSoundProgress d Said (scram_dispatch d state msg w).0
  unfolding scram_dispatch
  scram_dispatch-IsSound state msg w s told = elim (Bool-cases (is_empty state.server_first)) [
    | inl none_sent ↦ rw none_sent (elim (Bool-cases (is_empty state.client_first_bare)) [
      | inl none_read ↦ rw none_read (scram_process_full_first-IsSound msg state w)
      | inr read ↦ rw read (scram_produce_server_first-IsSound state w)
    ])
    | inr sent ↦
        rw sent (scram_process_client_final-IsSound state msg (keys sent s).0 (keys sent s).1 told)
  ]
    where
      keys : {P : Type 0} {b : Bool} → b ≡ false → (b ≡ true) ⊎ P → P
      keys sent (inl none_sent) = cc
      keys sent (inr p) = p
