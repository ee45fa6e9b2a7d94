-- ===== src/Config.antt =====
-- internal/config/config.go: the server's configuration, read from the environment and validated.
-- `getenv` is os.Getenv, `trim_space` strings.TrimSpace, `to_lower` strings.ToLower and `parse_url`
-- url.Parse, of which the scheme and the host are read. An error names what it reports.
pub mod ParseInt
pub mod Grammar
pub mod Valid
use Prim.Native.String.{◌++◌}
use tracker.Base.{
  Bool, true, false, not, ◌&&◌, ◌||◌, String, Option, none, some, if◌then◌else◌, ◌==◌, string_eq, ℤ,
  pos, ltb_ℤ, leb_ℤ,
}
use tracker.Config.ParseInt.{Parsed, parsed, syntax, out_of_range, parse_int}
use tracker.Presentation.{Windows}

-- EnvPrefix, and the two variables of the presentation windows with their defaults.
abbrev pub env_prefix : String
env_prefix = "TRACKER_"

abbrev pub env_live_window_seconds : String
env_live_window_seconds = "TRACKER_LIVE_WINDOW_SECONDS"

abbrev pub env_stale_window_seconds : String
env_stale_window_seconds = "TRACKER_STALE_WINDOW_SECONDS"

abbrev pub default_live_window_seconds : ℤ
default_live_window_seconds = pos 120

abbrev pub default_stale_window_seconds : ℤ
default_stale_window_seconds = pos 900

abbrev pub push_provider_none : String
push_provider_none = ""

abbrev pub push_provider_fcm : String
push_provider_fcm = "fcm"

abbrev pub push_provider_unified_push : String
push_provider_unified_push = "unifiedpush"

pub record Config : Type 0 where
  pub database_url : String
  pub addr : String
  pub log_level : String
  pub push_provider : String
  pub fcm_project_id : String
  pub fcm_credentials_file : String
  pub tls_cert_file : String
  pub tls_key_file : String
  pub allow_plaintext : Bool
  pub retention_days : ℤ
  pub live_window_seconds : ℤ
  pub stale_window_seconds : ℤ

-- What a start-up is refused for.
pub data Refusal : Type 0 where
  missing_database_url : Refusal
  invalid_url no_host : Refusal
  bad_scheme bad_log_level unknown_push_provider : String → Refusal
  empty_addr : Refusal
  fcm_needs_project_id fcm_needs_credentials_file : Refusal
  cert_without_key key_without_cert : Refusal
  plaintext_endpoint tls_required : Refusal
  not_an_integer : String → String → Refusal
  window_out_of_range window_not_whole : String → String → Refusal
  window_not_positive : String → ℤ → Refusal
  negative_retention : ℤ → Refusal
  windows_unordered : ℤ → ℤ → Refusal

-- Go's value and error.
pub data Checked (A : Type 0) : Type 0 where
  ok : A → Checked A
  refused : Refusal → Checked A

infixl 5 ◌>>=◌ ◌>>◌
abbrev pub ◌>>=◌ : {A B : Type 0} → Checked A → (A → Checked B) → Checked B
ok a >>= f = f a
refused e >>= f = refused e

abbrev pub ◌>>◌ : {B : Type 0} → Checked (Unit {0}) → Checked B → Checked B
m >> k = m >>= λ _. k

-- `if !test { return error }`.
abbrev pub require : Bool → Refusal → Checked (Unit {0})
require true e = ok tt
require false e = refused e

-- The parts of a url.URL that validation reads.
pub record Url : Type 0 where
  pub scheme : String
  pub host : String

unfoldable pub serves_tls : Config → Bool
serves_tls c = not (c.tls_cert_file == "") && not (c.tls_key_file == "")

unfoldable pub validate_tls_pair : String → String → Checked (Unit {0})
validate_tls_pair cert_file key_file = do
  require (not (not (cert_file == "") && key_file == "")) cert_without_key
  require (not (not (key_file == "") && cert_file == "")) key_without_cert

unfoldable pub require_servable : Config → Checked (Unit {0})
unfolding serves_tls
require_servable c = require (not (not (serves_tls c) && not c.allow_plaintext)) tls_required

-- The two switches of validate.
unfoldable pub validate_log_level : String → Checked (Unit {0})
validate_log_level level =
    require (level == "debug" || level == "info" || level == "warn" || level == "error")
      (bad_log_level level)

unfoldable pub validate_push : Config → Checked (Unit {0})
validate_push c =
    if c.push_provider == push_provider_none || c.push_provider == push_provider_unified_push
    then ok tt
    else if c.push_provider == push_provider_fcm
    then (do
      require (not (c.fcm_project_id == "")) fcm_needs_project_id
      require (not (c.fcm_credentials_file == "")) fcm_needs_credentials_file)
    else refused (unknown_push_provider c.push_provider)

unfoldable pub validate_url : Option Url → Checked (Unit {0})
validate_url none = refused invalid_url
validate_url (some u) = do
  require (u.scheme == "postgres" || u.scheme == "postgresql") (bad_scheme u.scheme)
  require (not (u.host == "")) no_host

unfoldable pub validate : (String → Option Url) → Config → Checked (Unit {0})
validate parse_url c = do
  validate_url (parse_url c.database_url)
  validate_log_level c.log_level
  require (not (c.addr == "")) empty_addr
  validate_push c
  validate_tls_pair c.tls_cert_file c.tls_key_file
  require (not (ltb_ℤ c.retention_days (pos 0))) (negative_retention c.retention_days)
  require (ltb_ℤ c.live_window_seconds c.stale_window_seconds)
      (windows_unordered c.live_window_seconds c.stale_window_seconds)

-- The part of envWindowSeconds past the trim.
unfoldable pub window_seconds : String → String → ℤ → Checked ℤ
window_seconds key raw def = if raw == "" then ok def else elim (parse_int raw) [
  | out_of_range ↦ refused (window_out_of_range key raw)
  | syntax ↦ refused (window_not_whole key raw)
  | parsed n ↦ if ltb_ℤ n (pos 1) then refused (window_not_positive key n) else ok n
]

module _ (getenv trim_space to_lower : String → String) where
  unfoldable pub env_or : String → String → String
  env_or key def = let v = trim_space (getenv key) in if v == "" then def else v

  unfoldable pub env_bool : String → Bool
  env_bool key =
      let v = to_lower (trim_space (getenv key)) in
      v == "1" || v == "true" || v == "yes" || v == "on"

  unfoldable pub env_window_seconds : String → ℤ → Checked ℤ
  env_window_seconds key def = window_seconds key (trim_space (getenv key)) def

  -- strconv.Atoi accepts what ParseInt does.
  unfoldable pub env_int : String → ℤ → Checked ℤ
  env_int key def =
      let v = trim_space (getenv key) in
      if v == "" then ok def else elim (parse_int v) [
        | parsed n ↦ ok n
        | syntax ↦ refused (not_an_integer key v)
        | out_of_range ↦ refused (not_an_integer key v)
      ]

  -- The struct literal of Load.
  unfoldable pub assemble : String → ℤ → ℤ → ℤ → Config
  unfolding env_or env_bool
  assemble dsn retention_days live_window stale_window = record {
    database_url = dsn;
    addr = env_or "TRACKER_ADDR" ":8080";
    log_level = env_or "TRACKER_LOG_LEVEL" "info";
    push_provider = trim_space (getenv "TRACKER_PUSH_PROVIDER");
    fcm_project_id = trim_space (getenv "TRACKER_FCM_PROJECT_ID");
    fcm_credentials_file = trim_space (getenv "TRACKER_FCM_CREDENTIALS_FILE");
    tls_cert_file = trim_space (getenv "TRACKER_TLS_CERT_FILE");
    tls_key_file = trim_space (getenv "TRACKER_TLS_KEY_FILE");
    allow_plaintext = env_bool "TRACKER_ALLOW_PLAINTEXT";
    retention_days = retention_days;
    live_window_seconds = live_window;
    stale_window_seconds = stale_window;
  }

  unfoldable pub load : (String → Option Url) → Checked Config
  load parse_url = do
    let dsn = trim_space (getenv "TRACKER_DATABASE_URL")
    require (not (dsn == "")) missing_database_url
    retention_days ← env_int "TRACKER_RETENTION_DAYS" (pos 0)
    live_window ← env_window_seconds env_live_window_seconds default_live_window_seconds
    stale_window ← env_window_seconds env_stale_window_seconds default_stale_window_seconds
    validate parse_url (assemble dsn retention_days live_window stale_window)
    ok (assemble dsn retention_days live_window stale_window)

-- LintTLS, the two files trimmed.
unfoldable pub lint_tls : (String → String) → String → String → Checked (Unit {0})
unfolding validate_tls_pair
lint_tls trim_space cert_file key_file = do
  let cert = trim_space cert_file
  let key = trim_space key_file
  validate_tls_pair cert key
  require (not (cert == "" && key == "")) plaintext_endpoint

-- The windows that every read surface evaluates by.
abbrev pub windows_of : Config → Windows
windows_of c = record {
  live_seconds = c.live_window_seconds;
  stale_seconds = c.stale_window_seconds;
}
