-- ===== src/Core/Error.antt =====
-- The errors that all crates share: crates/sentio-core/src/error.rs.
use sentio.Common.{ℕ, List, [], ◌∷◌, ◌++◌, Option, none, some, ◌+◌}
use sentio.Common.Text.{Text, codes, decimal}

-- The errors of the standard library and of the TOML parser, by their text.
pub data ConfigError : Type 0 where
  read_file : (path source : Text) → ConfigError
  parse_toml : Text → ConfigError
  env_override : (key message : Text) → ConfigError
  validation_batch : List Text → ConfigError

pub record SmtpError : Type 0 where
  pub code : ℕ
  pub enhanced : Option Text
  pub message : Text

pub data SentioError : Type 0 where
  config : ConfigError → SentioError
  database redis kv queue storage : Text → SentioError
  smtp : SmtpError → SentioError
  auth : Text → SentioError
  rate_limit : (key : Text) → SentioError
  not_found : (entity id : Text) → SentioError
  conflict validation internal : Text → SentioError

-- The lines of `format_validation_errors`, numbered from `i`.
unfoldable pub numbered : ℕ → List Text → Text
numbered i [] = []
numbered i (e ∷ []) = codes "  " ++ (decimal i ++ (codes ". " ++ e))
numbered i (e ∷ f ∷ errors) =
    (codes "  " ++ (decimal i ++ (codes ". " ++ e))) ++ (b'\n' ∷ numbered (i + 1) (f ∷ errors))

unfoldable pub format_validation_errors : List Text → Text
format_validation_errors errors = numbered 1 errors

unfoldable pub smtp_to_text : Option Text → SmtpError → Text
smtp_to_text (some enh) e = decimal e.code ++ (b' ' ∷ (enh ++ (b' ' ∷ e.message)))
smtp_to_text none e = decimal e.code ++ (b' ' ∷ e.message)

unfoldable pub config_to_text : ConfigError → Text
config_to_text (read_file path source) =
    codes "failed to read configuration file " ++ (path ++ (codes ": " ++ source))
config_to_text (parse_toml e) = codes "failed to parse TOML configuration: " ++ e
config_to_text (env_override key message) =
    codes "invalid environment variable override SENTIO__" ++ (key ++ (codes ": " ++ message))
config_to_text (validation_batch errors) =
    codes "configuration validation failed:\n" ++ format_validation_errors errors

-- `Display`.
unfoldable pub to_text : SentioError → Text
to_text (config e) = config_to_text e
to_text (database e) = codes "database error: " ++ e
to_text (redis e) = codes "redis error: " ++ e
to_text (kv e) = codes "KV error: " ++ e
to_text (queue e) = codes "queue error: " ++ e
to_text (storage e) = codes "storage error: " ++ e
to_text (smtp e) = codes "SMTP error: " ++ smtp_to_text e.enhanced e
to_text (auth e) = codes "auth error: " ++ e
to_text (rate_limit key) = codes "rate limit exceeded for key: " ++ key
to_text (not_found entity id) = entity ++ (codes " not found: " ++ id)
to_text (conflict e) = codes "conflict: " ++ e
to_text (validation e) = codes "validation error: " ++ e
to_text (internal e) = codes "internal error: " ++ e

unfoldable pub error_category : SentioError → Text
error_category (config e) = codes "config"
error_category (database e) = codes "database"
error_category (redis e) = codes "redis"
error_category (kv e) = codes "kv"
error_category (queue e) = codes "queue"
error_category (storage e) = codes "storage"
error_category (smtp e) = codes "smtp"
error_category (auth e) = codes "auth"
error_category (rate_limit key) = codes "rate_limit"
error_category (not_found entity id) = codes "not_found"
error_category (conflict e) = codes "conflict"
error_category (validation e) = codes "validation"
error_category (internal e) = codes "internal"
