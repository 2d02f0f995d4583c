-- ===== src/MailAuth/MtaSts/Policies.antt =====
-- An MTA-STS policy is parsed as what it was written from (crates/sentio-auth/src/mta_sts.rs).
use sentio.Common.{
  ◌^◌, ◌<◌, List, [], ◌∷◌, ◌++◌, some, ◌≡◌, refl, sym, ap, ◌∙◌, All, ok, ◌>>=◌, append_assoc,
  append-nil,
}
use sentio.Common.Text.{Text, codes, decimal}
use sentio.Common.Text.Words.{IsWord}
use sentio.Common.Text.Lines.{lines_from, lines, lines-append, to_ascii_lowercase}
use sentio.MailAuth.MtaSts.{
  MtaStsPolicy, PolicySoFar, no_policy, finish_policy, policy_line, policy_lines,
  parse_mta_sts_policy,
}
use sentio.MailAuth.MtaSts.Entries.{
  show_mode, entry, show_hosts, show_policy, IsValue, decimal-IsValue, entry-clean, mx-IsWord,
  mode-IsWord, version-IsWord, max_age-IsWord, version_line, mode_line, mx_line, max_age_line,
}

module _ (to_lowercase : Text → Text)
    (lower : (s : Text) → All (λ c. c < 0x80) s → to_lowercase s ≡ to_ascii_lowercase s) where
  line_step :
      (so_far next : PolicySoFar) (key value more : Text)
      → IsWord key
      → IsWord value
      → policy_line to_lowercase so_far (entry key value) ≡ ok next
      → policy_lines to_lowercase so_far (lines (entry key value ++ b'\n' ∷ more))
        ≡ policy_lines to_lowercase next (lines more)
  unfolding policy_lines
  line_step so_far next key value more w v e =
      ap (policy_lines to_lowercase so_far)
        (lines-append (entry key value) more (entry-clean key value w v))
      ∙ rw e refl

  hosts_step :
      (so_far : PolicySoFar) (hosts : List Text) (more : Text)
      → All IsValue hosts
      → policy_lines to_lowercase so_far (lines (show_hosts hosts more))
        ≡ policy_lines to_lowercase (record so_far { mx = so_far.mx ++ hosts }) (lines more)
  hosts_step so_far [] more h =
      ap (λ mx. policy_lines to_lowercase (record so_far { mx = mx }) (lines more))
        (sym (append-nil so_far.mx))
  hosts_step so_far (host ∷ hosts) more h =
      let next = record so_far { mx = so_far.mx ++ host ∷ [] } in
      line_step so_far next (codes "mx") host (show_hosts hosts more) mx-IsWord h.0.0
        (mx_line to_lowercase lower so_far host h.0)
      ∙ hosts_step next hosts more h.1
      ∙ ap (λ mx. policy_lines to_lowercase (record so_far { mx = mx }) (lines more))
          (append_assoc so_far.mx (host ∷ []) hosts)

  finished :
      (policy : MtaStsPolicy)
      → policy.version ≡ codes "STSv1"
      → finish_policy (record {
        version = some (codes "STSv1");
        mode = some policy.mode;
        mx = policy.mx;
        max_age = some policy.max_age;
      })
        ≡ ok policy
  unfolding finish_policy
  finished policy v = ap (λ version. ok (record policy { version = version })) (sym v)

  -- The loop over the lines of a policy.
  whole :
      (policy : MtaStsPolicy)
      → policy.version ≡ codes "STSv1"
      → All IsValue policy.mx
      → policy.max_age < 2 ^ 64
      → policy_lines to_lowercase no_policy (lines (show_policy policy))
        ≡ ok (record {
          version = some (codes "STSv1");
          mode = some policy.mode;
          mx = policy.mx;
          max_age = some policy.max_age;
        })
  unfolding policy_lines lines lines_from
  whole policy v hosts age =
      let first : PolicySoFar = record no_policy { version = some (codes "STSv1") } in
      let second : PolicySoFar = record first { mode = some policy.mode } in
      let third : PolicySoFar = record second { mx = policy.mx } in
      let max_age = entry (codes "max_age") (decimal policy.max_age) in
      let behind = show_hosts policy.mx (max_age ++ b'\n' ∷ []) in
      let from_mode = entry (codes "mode") (show_mode policy.mode) ++ b'\n' ∷ behind in
      ap
        (λ version.
          policy_lines to_lowercase no_policy
            (lines (entry (codes "version") version ++ b'\n' ∷ from_mode)))
        v
      ∙ line_step no_policy first (codes "version") (codes "STSv1") from_mode version-IsWord.0
          version-IsWord.1 (version_line to_lowercase lower no_policy)
      ∙ line_step first second (codes "mode") (show_mode policy.mode) behind
          (mode-IsWord policy.mode).0 (mode-IsWord policy.mode).1
          (mode_line to_lowercase lower first policy.mode)
      ∙ hosts_step second policy.mx (max_age ++ b'\n' ∷ []) hosts
      ∙ line_step third _ (codes "max_age") (decimal policy.max_age) [] max_age-IsWord
          (decimal-IsValue policy.max_age).0
          (max_age_line to_lowercase lower third policy.max_age age)

  -- A policy that is written as RFC 8461 asks for is read back: of version STSv1, with hosts without white
  -- space that are not empty, and an age below 2^64. Lower case is that of ASCII on ASCII.
  pub parse_mta_sts_policy-show_policy :
      (policy : MtaStsPolicy)
      → policy.version ≡ codes "STSv1"
      → All IsValue policy.mx
      → policy.max_age < 2 ^ 64
      → parse_mta_sts_policy to_lowercase (show_policy policy) ≡ ok policy
  unfolding parse_mta_sts_policy
  parse_mta_sts_policy-show_policy policy v hosts age =
      ap (λ r. r >>= finish_policy) (whole policy v hosts age) ∙ finished policy v
