-- ===== src/Config.antt =====
-- internal/config/config.go: the settings that are read from the environment. time.ParseDuration is a
-- parameter, of which nothing is assumed; the messages leave out the value that is refused.
pub mod Valid
mod Tests
use cftm.Base.{
  ℕ, suc, zero, ◌*◌, String, Bool, true, false, not, ◌||◌, ◌&&◌, ◌==◌, nat_eq, ltb, leb, Option,
  none, some, List, [], ◌∷◌, ◌++◌, map, flat_map, filter_by, if◌then◌else◌,
}
use cftm.Base.Integers.{ℤ, pos, negsuc, atoi, parse_bool}
use cftm.Base.Text.{◌<>◌, trim_space, to_lower, show_nat, byte_len, all_chars, split_at, quote}
use cftm.Model.Clock.{Duration, second, hour}
use Prim.Native.Char.{Char, code}

-- minPollInterval
abbrev pub min_poll_interval : Duration
min_poll_interval = 10 * second

abbrev is_hex : Char → Bool
is_hex c =
    leb b'0' (code c) && leb (code c) b'9'
    || leb b'a' (code c) && leb (code c) b'f'
    || leb b'A' (code c) && leb (code c) b'F'

-- accountIDPattern
unfoldable pub matches_account_id : String → Bool
matches_account_id s = nat_eq (byte_len s) 32 && all_chars is_hex s

-- Config
pub record Config : Type 0 where
  pub addr : String
  pub data_dir : String
  pub log_level : String
  pub account_id : String
  pub api_token : String
  pub poll_interval : Duration
  pub config_refresh_every : ℕ
  pub retention_days : ℕ
  pub access_audit_enabled : Bool
  pub access_audit_interval : Duration
  pub release_check_enabled : Bool
  pub release_check_interval : Duration
  pub probe_enabled : Bool
  pub probe_interval : Duration
  pub probe_timeout : Duration
  pub probe_concurrency : ℕ
  pub access_client_id : String
  pub access_client_secret : String
  pub expected_public : List String
  pub notify_enabled : Bool
  pub notify_min_severity : String
  pub notify_cooldown : Duration
  pub access_logins_enabled : Bool
  pub access_logins_interval : Duration
  pub access_logins_window : Duration
  pub origins_enabled : Bool
  pub origins_interval : Duration
  pub origins_window : Duration
  pub expected_countries : List String

-- a value with the errors of reading it
pub record Setting {ℓ} (A : Type ℓ) : Type ℓ where
  pub value : A
  pub errors : List String

abbrev pub fine {ℓ} : {A : Type ℓ} → A → Setting A
fine value = record { value = value; errors = [] }

abbrev pub refused {ℓ} : {A : Type ℓ} → A → String → Setting A
refused value error = record { value = value; errors = error ∷ [] }

abbrev pub Env : Type 0
Env = String → String

-- envString
unfoldable pub env_string : Env → String → String → String
env_string env key def = let v = trim_space (env key) in if not (v == "") then v else def

-- envList
unfoldable pub env_list : Env → String → List String
env_list env key =
    let raw = trim_space (env key) in
    let items = map (λ item. to_lower (trim_space item)) (split_at b',' raw) in
    if raw == "" then [] else filter_by (λ v. not (v == "")) items

unfoldable pub checked_duration : String → Duration → Option ℤ → Setting Duration
checked_duration key def none = refused def (key <> ": invalid duration")
checked_duration key def (some (pos zero)) = refused def (key <> " must be positive")
checked_duration key def (some (pos (suc n))) = fine (suc n)
checked_duration key def (some (negsuc n)) = refused def (key <> " must be positive")

-- envDuration
unfoldable pub env_duration : (String → Option ℤ) → Env → String → Duration → Setting Duration
env_duration parse_duration env key def =
    let raw = trim_space (env key) in
    if raw == "" then fine def else checked_duration key def (parse_duration raw)

unfoldable pub checked_int : String → ℕ → ℕ → Option ℤ → Setting ℕ
checked_int key def min_value none = refused def (key <> ": invalid integer")
checked_int key def min_value (some (pos n)) =
    if ltb n min_value
    then refused def (key <> " must be at least " <> show_nat min_value)
    else fine n
checked_int key def min_value (some (negsuc n)) =
    refused def (key <> " must be at least " <> show_nat min_value)

-- envInt, with a least value that is not negative
unfoldable pub env_int : Env → String → ℕ → ℕ → Setting ℕ
env_int env key def min_value =
    let raw = trim_space (env key) in
    if raw == "" then fine def else checked_int key def min_value (atoi raw)

unfoldable pub checked_bool : String → Bool → Option Bool → Setting Bool
checked_bool key def none = refused def (key <> ": invalid boolean")
checked_bool key def (some b) = fine b

-- envBool
unfoldable pub env_bool : Env → String → Bool → Setting Bool
env_bool env key def =
    let raw = trim_space (env key) in
    if raw == "" then fine def else checked_bool key def (parse_bool raw)

-- the least polling interval is asked for where the interval could be read
unfoldable pub poll_errors : Duration → List String → List String
poll_errors v [] =
    if ltb v min_poll_interval then "CFTM_POLL_INTERVAL must be at least 10s" ∷ [] else []
poll_errors v (e ∷ es) = e ∷ es

unfoldable pub is_severity : String → Bool
is_severity s = s == "info" || s == "warning" || s == "critical"

unfoldable pub severity_errors : String → List String
severity_errors s =
    if is_severity s
    then []
    else ("CFTM_NOTIFY_MIN_SEVERITY must be info, warning or critical, got " <> quote s) ∷ []

unfoldable pub account_errors : String → List String
account_errors id =
    if id == ""
    then "CLOUDFLARE_ACCOUNT_ID is required" ∷ []
    else if not (matches_account_id id)
    then "CLOUDFLARE_ACCOUNT_ID must be 32 hex characters, see the dashboard URL" ∷ []
    else []

unfoldable pub token_errors : String → List String
token_errors token = if token == "" then "CLOUDFLARE_API_TOKEN is required" ∷ [] else []

-- the settings that are parsed, in the order in which Load reads them
pub record Settings : Type 0 where
  pub poll : Setting Duration
  pub audit : Setting Duration
  pub release : Setting Duration
  pub probe : Setting Duration
  pub timeout : Setting Duration
  pub origins : Setting Duration
  pub origins_window : Setting Duration
  pub refresh : Setting ℕ
  pub retention : Setting ℕ
  pub concurrency : Setting ℕ
  pub audit_on : Setting Bool
  pub release_on : Setting Bool
  pub probe_on : Setting Bool
  pub origins_on : Setting Bool
  pub notify_on : Setting Bool
  pub cooldown : Setting Duration
  pub logins_on : Setting Bool
  pub logins : Setting Duration
  pub logins_window : Setting Duration

unfoldable pub settings : (String → Option ℤ) → Env → Settings
settings parse_duration env = record {
  poll = env_duration parse_duration env "CFTM_POLL_INTERVAL" (30 * second);
  audit = env_duration parse_duration env "CFTM_ACCESS_AUDIT_INTERVAL" (hour);
  release = env_duration parse_duration env "CFTM_RELEASE_CHECK_INTERVAL" (12 * hour);
  probe = env_duration parse_duration env "CFTM_PROBE_INTERVAL" (300 * second);
  timeout = env_duration parse_duration env "CFTM_PROBE_TIMEOUT" (10 * second);
  origins = env_duration parse_duration env "CFTM_ORIGINS_INTERVAL" (hour);
  origins_window = env_duration parse_duration env "CFTM_ORIGINS_WINDOW" (24 * hour);
  refresh = env_int env "CFTM_CONFIG_REFRESH_EVERY" 10 1;
  retention = env_int env "CFTM_RETENTION_DAYS" 90 1;
  concurrency = env_int env "CFTM_PROBE_CONCURRENCY" 4 1;
  audit_on = env_bool env "CFTM_ACCESS_AUDIT_ENABLED" true;
  release_on = env_bool env "CFTM_RELEASE_CHECK_ENABLED" true;
  probe_on = env_bool env "CFTM_PROBE_ENABLED" false;
  origins_on = env_bool env "CFTM_ORIGINS_ENABLED" false;
  notify_on = env_bool env "CFTM_NOTIFY_ENABLED" false;
  cooldown = env_duration parse_duration env "CFTM_NOTIFY_COOLDOWN" (hour);
  logins_on = env_bool env "CFTM_ACCESS_LOGINS_ENABLED" false;
  logins = env_duration parse_duration env "CFTM_ACCESS_LOGINS_INTERVAL" (hour);
  logins_window = env_duration parse_duration env "CFTM_ACCESS_LOGINS_WINDOW" (24 * hour);
}

-- the errors of Load, in the order in which they are noted
unfoldable pub load_errors : Settings → String → String → String → List (List String)
load_errors s severity account token =
    poll_errors s.poll.value s.poll.errors
    ∷ s.audit.errors
    ∷ s.release.errors
    ∷ s.probe.errors
    ∷ s.timeout.errors
    ∷ s.origins.errors
    ∷ s.origins_window.errors
    ∷ s.refresh.errors
    ∷ s.retention.errors
    ∷ s.concurrency.errors
    ∷ s.audit_on.errors
    ∷ s.release_on.errors
    ∷ s.probe_on.errors
    ∷ s.origins_on.errors
    ∷ s.notify_on.errors
    ∷ s.cooldown.errors
    ∷ s.logins_on.errors
    ∷ s.logins.errors
    ∷ s.logins_window.errors
    ∷ severity_errors severity
    ∷ account_errors account
    ∷ token_errors token
    ∷ []

unfoldable pub config_of : Env → Settings → Config
config_of env s = record {
  addr = env_string env "CFTM_ADDR" ":8080";
  data_dir = env_string env "CFTM_DATA_DIR" "/appdata";
  log_level = env_string env "CFTM_LOG_LEVEL" "info";
  account_id = trim_space (env "CLOUDFLARE_ACCOUNT_ID");
  api_token = trim_space (env "CLOUDFLARE_API_TOKEN");
  poll_interval = s.poll.value;
  config_refresh_every = s.refresh.value;
  retention_days = s.retention.value;
  access_audit_enabled = s.audit_on.value;
  access_audit_interval = s.audit.value;
  release_check_enabled = s.release_on.value;
  release_check_interval = s.release.value;
  probe_enabled = s.probe_on.value;
  probe_interval = s.probe.value;
  probe_timeout = s.timeout.value;
  probe_concurrency = s.concurrency.value;
  access_client_id = trim_space (env "CFTM_ACCESS_CLIENT_ID");
  access_client_secret = trim_space (env "CFTM_ACCESS_CLIENT_SECRET");
  expected_public = env_list env "CFTM_EXPECTED_PUBLIC";
  notify_enabled = s.notify_on.value;
  notify_min_severity = to_lower (env_string env "CFTM_NOTIFY_MIN_SEVERITY" "warning");
  notify_cooldown = s.cooldown.value;
  access_logins_enabled = s.logins_on.value;
  access_logins_interval = s.logins.value;
  access_logins_window = s.logins_window.value;
  origins_enabled = s.origins_on.value;
  origins_interval = s.origins.value;
  origins_window = s.origins_window.value;
  expected_countries = env_list env "CFTM_EXPECTED_COUNTRIES";
}

-- Load
unfoldable pub load : (String → Option ℤ) → Env → Setting Config
load parse_duration env =
    let s = settings parse_duration env in
    let c = config_of env s in
    record {
      value = c;
      errors = flat_map (λ es. es) (load_errors s c.notify_min_severity c.account_id c.api_token);
    }

-- SlogLevel, as the name of the level
unfoldable pub slog_level : Config → String
slog_level c =
    let level = to_lower (trim_space c.log_level) in
    if level == "debug"
    then "DEBUG"
    else if level == "warn" || level == "warning"
    then "WARN"
    else if level == "error"
    then "ERROR"
    else "INFO"

-- HasAccessServiceToken
unfoldable pub has_access_service_token : Config → Bool
has_access_service_token c = not (c.access_client_id == "") && not (c.access_client_secret == "")
