-- ===== src/MailAuth/MtaSts/Entries.antt =====
-- The single entries of a policy of crates/sentio-auth/src/mta_sts.rs, written and parsed.
use sentio.Common.{
  ℕ, ◌^◌, ◌<◌, false, List, [], ◌∷◌, ◌++◌, some, ◌≡◌, ◌≢◌, refl, ap, subst, ◌∙◌, arith, All,
  All-map, All-append, ok, append_assoc,
}
use sentio.Common.Text.{
  Text, codes, same, decimal, is_whitespace, is_empty, trim_start, trim_end, trim,
}
use sentio.Common.Text.Laws.{trim_words, split_once-append}
use sentio.Common.Text.Words.{IsWord, trim_end-append}
use sentio.Common.Text.Numbers.{decimal-digits, decimal_nonempty, parse_unsigned-decimal}
use sentio.Common.Text.Lines.{to_ascii_lower, to_ascii_lowercase}
use sentio.MailAuth.MtaSts.{
  MtaStsMode, enforce, testing, no_mode, MtaStsPolicy, PolicySoFar, parse_mode, policy_entry,
  policy_line,
}

abbrev pub show_mode : MtaStsMode → Text
show_mode enforce = codes "enforce"
show_mode testing = codes "testing"
show_mode no_mode = codes "none"

abbrev pub entry : (key value : Text) → Text
entry key value = key ++ (b':' ∷ 32 ∷ value)

abbrev pub show_hosts : (hosts : List Text) → Text → Text
show_hosts [] more = more
show_hosts (host ∷ hosts) more = entry (codes "mx") host ++ b'\n' ∷ show_hosts hosts more

-- A policy as RFC 8461 writes it.
abbrev pub show_policy : MtaStsPolicy → Text
show_policy policy =
    entry (codes "version") policy.version
    ++ b'\n'
      ∷ (entry (codes "mode") (show_mode policy.mode)
          ++ b'\n'
            ∷ show_hosts policy.mx (entry (codes "max_age") (decimal policy.max_age) ++ b'\n' ∷ []))

-- A value of an entry: no white space, and not empty.
abbrev pub IsValue : Text → Type 0
IsValue s = IsWord s × (s ≢ [])

value_trimmed : (value : Text) → IsValue value → trim (32 ∷ value) ≡ value
unfolding trim trim_start trim_end is_whitespace
value_trimmed [] h = absurd (h.1 refl)
value_trimmed (c ∷ value) h = ground (arith, h.0.0, trim_end-append (32 ∷ []) (c ∷ value) h.0 h.1)

line_trimmed :
    (c : ℕ) (key value : Text)
    → is_whitespace c ≡ false
    → IsValue value
    → trim (entry (c ∷ key) value) ≡ entry (c ∷ key) value
unfolding trim trim_start
line_trimmed c key value n h =
    let e : trim_end (entry (c ∷ key) value) ≡ entry (c ∷ key) value =
      subst (λ s. trim_end s ≡ s) (append_assoc (c ∷ key) (b':' ∷ 32 ∷ []) value)
        (trim_end-append ((c ∷ key) ++ b':' ∷ 32 ∷ []) value h.0 h.1) in
    ap trim_start e ∙ ground (arith, n)

pub decimal-IsValue : (n : ℕ) → IsValue (decimal n)
unfolding is_whitespace
decimal-IsValue n =
    (All-map _ _ (decimal n) (λ c p. ground (arith, p)) (decimal-digits n), decimal_nonempty n)

-- No line ends within an entry.
pub entry-clean :
    (key value : Text)
    → IsWord key
    → IsWord value
    → All (λ c. (c ≢ b'\n') × (c ≢ b'\r')) (entry key value)
unfolding is_whitespace
entry-clean key value w v =
    All-append _ key _ (All-map _ _ key (λ c p. ground (arith, p)) w)
      (omega arith, (omega arith, All-map _ _ value (λ c p. ground (arith, p)) v))

-- The parts of an entry for the keys and values that are fixed.
pub mx-IsWord : IsWord (codes "mx")
unfolding is_whitespace
mx-IsWord = ground arith

pub mode-IsWord : (mode : MtaStsMode) → IsWord (codes "mode") × IsWord (show_mode mode)
unfolding is_whitespace
mode-IsWord enforce = ground arith
mode-IsWord testing = ground arith
mode-IsWord no_mode = ground arith

pub version-IsWord : IsWord (codes "version") × IsWord (codes "STSv1")
unfolding is_whitespace
version-IsWord = ground arith

pub max_age-IsWord : IsWord (codes "max_age")
unfolding is_whitespace
max_age-IsWord = ground arith

module _ (to_lowercase : Text → Text)
    (lower : (s : Text) → All (λ c. c < 0x80) s → to_lowercase s ≡ to_ascii_lowercase s) where
  policy_line-entry :
      (so_far : PolicySoFar) (c : ℕ) (key value : Text)
      → IsWord (c ∷ key)
      → All (λ a. a ≢ b':') (c ∷ key)
      → IsValue value
      → policy_line to_lowercase so_far (entry (c ∷ key) value)
        ≡ policy_entry to_lowercase so_far (to_lowercase (c ∷ key)) value
  unfolding policy_line is_empty
  policy_line-entry so_far c key value w k v = rw (line_trimmed c key value w.0 v) (
      rw (split_once-append b':' (c ∷ key) (32 ∷ value) k)
        (rw (trim_words (c ∷ key) w) (rw (value_trimmed value v) refl)))

  pub version_line :
      (so_far : PolicySoFar)
      → policy_line to_lowercase so_far (entry (codes "version") (codes "STSv1"))
        ≡ ok (record so_far { version = some (codes "STSv1") })
  unfolding policy_entry same is_whitespace to_ascii_lowercase to_ascii_lower
  version_line so_far =
      policy_line-entry so_far _ _ (codes "STSv1") (ground arith) (omega arith)
        (ground arith, λ e. cc)
      ∙ ap (λ key. policy_entry to_lowercase so_far key (codes "STSv1"))
          (lower (codes "version") (omega arith))

  pub mode_line :
      (so_far : PolicySoFar) (mode : MtaStsMode)
      → policy_line to_lowercase so_far (entry (codes "mode") (show_mode mode))
        ≡ ok (record so_far { mode = some mode })
  unfolding policy_entry parse_mode same is_whitespace to_ascii_lowercase to_ascii_lower
  mode_line so_far enforce =
      policy_line-entry so_far _ _ (codes "enforce") (ground arith) (omega arith)
        (ground arith, λ e. cc)
      ∙ ap (λ key. policy_entry to_lowercase so_far key (codes "enforce"))
          (lower (codes "mode") (omega arith))
      ∙ rw (lower (codes "enforce") (omega arith)) refl
  mode_line so_far testing =
      policy_line-entry so_far _ _ (codes "testing") (ground arith) (omega arith)
        (ground arith, λ e. cc)
      ∙ ap (λ key. policy_entry to_lowercase so_far key (codes "testing"))
          (lower (codes "mode") (omega arith))
      ∙ rw (lower (codes "testing") (omega arith)) refl
  mode_line so_far no_mode =
      policy_line-entry so_far _ _ (codes "none") (ground arith) (omega arith)
        (ground arith, λ e. cc)
      ∙ ap (λ key. policy_entry to_lowercase so_far key (codes "none"))
          (lower (codes "mode") (omega arith))
      ∙ rw (lower (codes "none") (omega arith)) refl

  pub mx_line :
      (so_far : PolicySoFar) (host : Text)
      → IsValue host
      → policy_line to_lowercase so_far (entry (codes "mx") host)
        ≡ ok (record so_far { mx = so_far.mx ++ host ∷ [] })
  unfolding policy_entry same is_whitespace to_ascii_lowercase to_ascii_lower
  mx_line so_far host v =
      policy_line-entry so_far _ _ host (ground arith) (omega arith) v
      ∙ ap (λ key. policy_entry to_lowercase so_far key host) (lower (codes "mx") (omega arith))

  pub max_age_line :
      (so_far : PolicySoFar) (age : ℕ)
      → age < 2 ^ 64
      → policy_line to_lowercase so_far (entry (codes "max_age") (decimal age))
        ≡ ok (record so_far { max_age = some age })
  unfolding policy_entry same is_whitespace to_ascii_lowercase to_ascii_lower
  max_age_line so_far age h =
      policy_line-entry so_far _ _ (decimal age) (ground arith) (omega arith) (decimal-IsValue age)
      ∙ ap (λ key. policy_entry to_lowercase so_far key (decimal age))
          (lower (codes "max_age") (omega arith))
      ∙ rw (parse_unsigned-decimal (2 ^ 64) age h) refl
