-- ===== src/Server/Commands/MailFrom.antt =====
-- `extract_angle_path` and `parse_mail_from` of crates/sentio-smtp-server/src/commands.rs.
-- `str::find` with a slice on each side is `split_once`.
use sentio.Common.{
  ◌+◌, true, false, not, List, [], ◌∷◌, Option, none, some, take, drop, ltb, if◌then◌else◌, ok, err,
  ◌>>=◌, ok_or,
}
use sentio.Common.Text.{
  Text, codes, same, is_empty, starts_with, strip_prefix, find, split_once, trim, trim_start,
  split_whitespace, to_ascii_uppercase, parse_unsigned, u64_mod,
}
use sentio.Server.Response.{syntax_error}
use sentio.Server.Commands.Types.{
  BodyType, seven_bit, eight_bit_mime, DsnRet, full, hdrs, MailFromParams, SmtpCommand, mail_from,
  Parsed, guard_syntax,
}

-- The address between the brackets; a source route `@a,@b:user@host` is cut off.
unfoldable pub strip_route : Text → Text
unfolding trim starts_with find
strip_route addr =
    if starts_with (codes "@") addr
    then elim (find b':' addr) [ none ↦ addr | some colon_pos ↦ trim (drop (colon_pos + 1) addr) ]
    else addr

-- Returns the address and the text of the parameters.
unfoldable pub extract_angle_path : Text → Parsed (Text × Text)
unfolding strip_route split_once
extract_angle_path s = elim (find b'<' s) [
  | none ↦ elim (split_once b' ' s) [ some (addr, rest) ↦ ok (addr, trim rest) | none ↦ ok (s, []) ]
  | some start ↦ elim (find b'>' s) [
    | none ↦ err syntax_error
    | some end ↦
        if ltb end start
        then err syntax_error
        else ok (strip_route (trim (drop (start + 1) (take end s))), trim (drop (end + 1) s))
  ]
]

unfoldable pub parse_body : Text → Parsed BodyType
unfolding same
parse_body val =
    if same val (codes "7BIT")
    then ok seven_bit
    else if same val (codes "8BITMIME")
    then ok eight_bit_mime
    else err syntax_error

unfoldable pub parse_ret : Text → Parsed DsnRet
unfolding same
parse_ret val =
    if same val (codes "FULL")
    then ok full
    else if same val (codes "HDRS")
    then ok hdrs
    else err syntax_error

abbrev pub or_else {ℓ} : {A : Type ℓ} → Option A → Option A → Option A
or_else none b = b
or_else (some a) b = some a

-- One parameter of MAIL FROM. The keys ENVID and AUTH are taken in upper or in lower case only,
-- and their values keep their case.
unfoldable pub mail_param : MailFromParams → Text → Parsed MailFromParams
unfolding strip_prefix to_ascii_uppercase same is_empty parse_body parse_ret parse_unsigned
mail_param p param = elim (strip_prefix (codes "SIZE=") upper) [
  | some val ↦ do
    n ← ok_or (parse_unsigned u64_mod val) syntax_error
    ok (record p { size = some n })
  | none ↦ elim (strip_prefix (codes "BODY=") upper) [
    | some val ↦ do b ← parse_body val; ok (record p { body = some b })
    | none ↦
        if same upper (codes "SMTPUTF8")
        then ok (record p { smtputf8 = true })
        else elim (strip_prefix (codes "RET=") upper) [
          | some val ↦ do r ← parse_ret val; ok (record p { ret = some r })
          | none ↦
              elim (or_else (strip_prefix (codes "ENVID=") param)
                (strip_prefix (codes "envid=") param)) [
                  | some val ↦
                      guard_syntax (not (is_empty val)) (ok (record p { envid = some val }))
                  | none ↦
                      elim (or_else (strip_prefix (codes "AUTH=") param)
                        (strip_prefix (codes "auth=") param)) [
                          | some val ↦ ok (record p {
                            auth_param = some (if same val (codes "<>") then [] else val);
                          })
                          | none ↦ ok p
                        ]
                ]
        ]
  ]
]
  where
    upper : Text
    upper = to_ascii_uppercase param

unfoldable pub mail_params : MailFromParams → List Text → Parsed MailFromParams
mail_params p [] = ok p
mail_params p (param ∷ more) = do p' ← mail_param p param; mail_params p' more

abbrev pub bare_mail : Text → MailFromParams
bare_mail path = record {
  path = path;
  size = none;
  body = none;
  smtputf8 = false;
  ret = none;
  envid = none;
  auth_param = none;
}

unfoldable pub parse_mail_from : Text → Parsed SmtpCommand
unfolding extract_angle_path mail_params mail_param split_whitespace
parse_mail_from rest = guard_syntax (starts_with (codes "FROM:") (to_ascii_uppercase rest)) (do
  (path, params_str) ← extract_angle_path (trim_start (drop 5 rest))
  params ← mail_params (bare_mail path) (split_whitespace params_str)
  ok (mail_from params))
