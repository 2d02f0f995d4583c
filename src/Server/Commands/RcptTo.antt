-- ===== src/Server/Commands/RcptTo.antt =====
-- `parse_rcpt_to`, `parse_bdat`, `parse_dsn_notify` of crates/sentio-smtp-server/src/commands.rs,
-- and `parse_xclient` of xclient.rs.
use sentio.Common.{
  ◌^◌, Bool, true, false, not, ◌||◌, List, [], ◌∷◌, Option, none, some, drop, if◌then◌else◌, ok,
  err, ◌>>=◌, ok_or,
}
use sentio.Common.Text.{
  Text, codes, same, is_empty, starts_with, strip_prefix, contains, split_once, split, trim_start,
  split_whitespace, to_ascii_uppercase, eq_ignore_ascii_case, parse_unsigned, u64_mod,
}
use sentio.Server.Response.{syntax_error}
use sentio.Server.Commands.Types.{
  DsnNotify, never, flags, RcptToParams, IpAddr, XClientParams, SmtpCommand, rcpt_to, bdat, Parsed,
  guard_syntax,
}
use sentio.Server.Commands.MailFrom.{extract_angle_path, or_else}

-- The three flags of a NOTIFY value, one token after another.
unfoldable pub notify_tokens : (success failure delay : Bool) → List Text → Parsed DsnNotify
notify_tokens success failure delay [] =
    guard_syntax (success || failure || delay) (ok (flags success failure delay))
notify_tokens success failure delay (token ∷ tokens) = elim (same token (codes "SUCCESS")) [
  | true ↦ notify_tokens true failure delay tokens
  | false ↦ elim (same token (codes "FAILURE")) [
    | true ↦ notify_tokens success true delay tokens
    | false ↦ elim (same token (codes "DELAY")) [
      | true ↦ notify_tokens success failure true tokens
      | false ↦ err syntax_error
    ]
  ]
]

unfoldable pub parse_dsn_notify : Text → Parsed DsnNotify
unfolding notify_tokens split same
parse_dsn_notify val =
    if same val (codes "NEVER") then ok never else notify_tokens false false false (split b',' val)

unfoldable pub rcpt_param : RcptToParams → Text → Parsed RcptToParams
unfolding strip_prefix to_ascii_uppercase is_empty contains parse_dsn_notify
rcpt_param p param = elim (strip_prefix (codes "NOTIFY=") (to_ascii_uppercase param)) [
  | some val ↦ do n ← parse_dsn_notify val; ok (record p { notify = some n })
  | none ↦
      elim (or_else (strip_prefix (codes "ORCPT=") param) (strip_prefix (codes "orcpt=") param)) [
        | some val ↦
            guard_syntax (not (is_empty val || not (contains b';' val)))
              (ok (record p { orcpt = some val }))
        | none ↦ ok p
      ]
]

unfoldable pub rcpt_params : RcptToParams → List Text → Parsed RcptToParams
rcpt_params p [] = ok p
rcpt_params p (param ∷ more) = do p' ← rcpt_param p param; rcpt_params p' more

unfoldable pub parse_rcpt_to : Text → Parsed SmtpCommand
unfolding extract_angle_path rcpt_params rcpt_param split_whitespace
parse_rcpt_to rest = guard_syntax (starts_with (codes "TO:") (to_ascii_uppercase rest)) (do
  (path, params_str) ← extract_angle_path (trim_start (drop 3 rest))
  guard_syntax (not (is_empty path)) (do
    params ←
        rcpt_params (record { path = path; notify = none; orcpt = none })
          (split_whitespace params_str)
    ok (rcpt_to params)))

abbrev pub is_last : List Text → Bool
is_last [] = false
is_last (s ∷ more) = eq_ignore_ascii_case s (codes "LAST")

-- After the test that the arguments are not empty.
unfoldable pub bdat_words : List Text → Parsed SmtpCommand
unfolding parse_unsigned eq_ignore_ascii_case
bdat_words [] = err syntax_error
bdat_words (size_str ∷ parts) = do
  size ← ok_or (parse_unsigned u64_mod size_str) syntax_error
  ok (bdat size (is_last parts))

unfoldable pub parse_bdat : Text → Parsed SmtpCommand
unfolding split_whitespace bdat_words
parse_bdat rest = guard_syntax (not (is_empty rest)) (bdat_words (split_whitespace rest))

unfoldable pub is_unavailable : Text → Bool
unfolding same to_ascii_uppercase
is_unavailable value =
    same (to_ascii_uppercase value) (codes "[UNAVAILABLE]")
    || same (to_ascii_uppercase value) (codes "[TEMPUNAVAIL]")

-- `parse_ip` stands for the standard library's `IpAddr::from_str`.
module _ (parse_ip : Text → Option IpAddr) where
  unfoldable pub xclient_attribute : XClientParams → (key value : Text) → Parsed XClientParams
  unfolding same to_ascii_uppercase parse_unsigned
  xclient_attribute p key value =
      if same upper (codes "ADDR")
      then (do a ← ok_or (parse_ip value) syntax_error; ok (record p { addr = some a }))
      else if same upper (codes "NAME")
      then ok (record p { name = some value })
      else if same upper (codes "HELO")
      then ok (record p { helo = some value })
      else if same upper (codes "LOGIN")
      then ok (record p { login = some value })
      else if same upper (codes "PORT")
      then (do
        n ← ok_or (parse_unsigned (2 ^ 16) value) syntax_error
        ok (record p { port = some n }))
      else ok p
    where
      upper : Text
      upper = to_ascii_uppercase key

  unfoldable pub xclient_pairs : XClientParams → List Text → Parsed XClientParams
  unfolding is_unavailable xclient_attribute split_once
  xclient_pairs p [] = ok p
  xclient_pairs p (pair ∷ pairs) = elim (split_once b'=' pair) [
    | none ↦ err syntax_error
    | some (key, value) ↦ elim (is_unavailable value) [
      | true ↦ xclient_pairs p pairs
      | false ↦ do p' ← xclient_attribute p key value; xclient_pairs p' pairs
    ]
  ]

  unfoldable pub parse_xclient : Text → Parsed XClientParams
  unfolding xclient_pairs split_whitespace is_empty
  parse_xclient rest = guard_syntax (not (is_empty rest)) (
      xclient_pairs (record { addr = none; name = none; helo = none; login = none; port = none })
        (split_whitespace rest))
