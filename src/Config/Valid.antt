-- ===== src/Config/Valid.antt =====
-- What Load guarantees of a configuration that it accepts.
use cftm.Base.{
  ℕ, suc, zero, ◌≤◌, ◌<◌, String, true, false, not, ◌==◌, ◌≡◌, refl, ltb, Option, none, some, List,
  [], ◌∷◌, get_or, flat_map, arith, if_split,
}
use mathlib.Core.List.{cons≢nil}
use cftm.Base.Integers.{ℤ, pos, negsuc, atoi}
use cftm.Base.Text.{trim_space}
use cftm.Model.Clock.{Duration}
use cftm.Config.{
  Config, Setting, Env, min_poll_interval, matches_account_id, is_severity, env_duration,
  checked_duration, env_int, checked_int, poll_errors, severity_errors, account_errors,
  token_errors, settings, load_errors, config_of, load,
}

none_among : (ls : List (List String)) → flat_map (λ es. es) ls ≡ [] → (k : ℕ) → get_or ls k [] ≡ []
unfolding flat_map
none_among [] h k = refl
none_among ([] ∷ ls) h zero = refl
none_among ([] ∷ ls) h (suc k) = none_among ls h k
none_among ((e ∷ es) ∷ ls) h k = absurd (cons≢nil h)

checked_duration_positive :
    (key : String) (def : Duration) (o : Option ℤ)
    → (checked_duration key def o).errors ≡ []
    → 0 < (checked_duration key def o).value
unfolding checked_duration
checked_duration_positive key def none h = absurd (cons≢nil h)
checked_duration_positive key def (some (pos zero)) h = absurd (cons≢nil h)
checked_duration_positive key def (some (pos (suc n))) h = omega arith
checked_duration_positive key def (some (negsuc n)) h = absurd (cons≢nil h)

env_duration_positive :
    (parse : String → Option ℤ) (env : Env) (key : String) (def : Duration)
    → 0 < def
    → (env_duration parse env key def).errors ≡ []
    → 0 < (env_duration parse env key def).value
unfolding env_duration
env_duration_positive parse env key def d =
    if_split {A = Setting Duration} (λ s. s.errors ≡ [] → 0 < s.value) (trim_space (env key) == "")
      _ _ (λ e h. d) (λ e. checked_duration_positive key def (parse (trim_space (env key))))

checked_int_least :
    (key : String) (def least : ℕ) (o : Option ℤ)
    → (checked_int key def least o).errors ≡ []
    → least ≤ (checked_int key def least o).value
unfolding checked_int
checked_int_least key def least none = λ h. absurd (cons≢nil h)
checked_int_least key def least (some (pos n)) =
    if_split {A = Setting ℕ} (λ s. s.errors ≡ [] → least ≤ s.value) (ltb n least) _ _
      (λ e h. absurd (cons≢nil h)) (λ e h. ground arith)
checked_int_least key def least (some (negsuc n)) = λ h. absurd (cons≢nil h)

env_int_least :
    (env : Env) (key : String) (def least : ℕ)
    → least ≤ def
    → (env_int env key def least).errors ≡ []
    → least ≤ (env_int env key def least).value
unfolding env_int
env_int_least env key def least d =
    if_split {A = Setting ℕ} (λ s. s.errors ≡ [] → least ≤ s.value) (trim_space (env key) == "") _ _
      (λ e h. d) (λ e. checked_int_least key def least (atoi (trim_space (env key))))

poll_errors_least :
    (v : Duration) (es : List String) → poll_errors v es ≡ [] → min_poll_interval ≤ v
unfolding poll_errors
poll_errors_least v [] =
    if_split {A = List String} (λ l. l ≡ [] → min_poll_interval ≤ v) (ltb v min_poll_interval) _ _
      (λ e h. absurd (cons≢nil h)) (λ e h. ground arith)
poll_errors_least v (e ∷ es) = λ h. absurd (cons≢nil h)

severity_known : (s : String) → severity_errors s ≡ [] → is_severity s ≡ true
unfolding severity_errors
severity_known s =
    if_split {A = List String} (λ l. l ≡ [] → is_severity s ≡ true) (is_severity s) _ _ (λ e h. e)
      (λ e h. absurd (cons≢nil h))

account_known : (s : String) → account_errors s ≡ [] → matches_account_id s ≡ true
unfolding account_errors
account_known s =
    if_split {A = List String} (λ l. l ≡ [] → matches_account_id s ≡ true) (s == "") _ _
      (λ e h. absurd (cons≢nil h))
      (λ e.
        if_split {A = List String} (λ l. l ≡ [] → matches_account_id s ≡ true)
          (not (matches_account_id s)) _ _ (λ k h. absurd (cons≢nil h)) (λ k h. ground arith))

token_known : (s : String) → token_errors s ≡ [] → (s == "") ≡ false
unfolding token_errors
token_known s =
    if_split {A = List String} (λ l. l ≡ [] → (s == "") ≡ false) (s == "") _ _
      (λ e h. absurd (cons≢nil h)) (λ e h. e)

-- what the other components rely on
pub record IsValid (c : Config) : Type 0 where
  pub poll : min_poll_interval ≤ c.poll_interval
  pub refresh : 1 ≤ c.config_refresh_every
  pub retention : 1 ≤ c.retention_days
  pub concurrency : 1 ≤ c.probe_concurrency
  pub audit : 0 < c.access_audit_interval
  pub release : 0 < c.release_check_interval
  pub probe : 0 < c.probe_interval
  pub timeout : 0 < c.probe_timeout
  pub cooldown : 0 < c.notify_cooldown
  pub logins : 0 < c.access_logins_interval
  pub logins_window : 0 < c.access_logins_window
  pub origins : 0 < c.origins_interval
  pub origins_window : 0 < c.origins_window
  pub severity : is_severity c.notify_min_severity ≡ true
  pub account : matches_account_id c.account_id ≡ true
  pub token : (c.api_token == "") ≡ false

-- A configuration that Load returns without an error polls at most once in ten seconds, keeps its
-- history for at least a day, refreshes and probes with counts of at least one, has only positive
-- intervals, windows and timeouts, a known least severity, an account id of 32 hexadecimal digits and
-- a token; whatever time.ParseDuration answers.
pub load-IsValid :
    (parse : String → Option ℤ) (env : Env)
    → (load parse env).errors ≡ []
    → IsValid (load parse env).value
unfolding load load_errors settings config_of
load-IsValid parse env h =
    let s = settings parse env in
    let c = config_of env s in
    let none = none_among (load_errors s c.notify_min_severity c.account_id c.api_token) h in
    record {
      poll = poll_errors_least s.poll.value s.poll.errors (none 0);
      refresh = env_int_least env _ 10 1 (omega arith) (none 7);
      retention = env_int_least env _ 90 1 (omega arith) (none 8);
      concurrency = env_int_least env _ 4 1 (omega arith) (none 9);
      audit = env_duration_positive parse env _ _ (omega arith) (none 1);
      release = env_duration_positive parse env _ _ (omega arith) (none 2);
      probe = env_duration_positive parse env _ _ (omega arith) (none 3);
      timeout = env_duration_positive parse env _ _ (omega arith) (none 4);
      cooldown = env_duration_positive parse env _ _ (omega arith) (none 15);
      logins = env_duration_positive parse env _ _ (omega arith) (none 17);
      logins_window = env_duration_positive parse env _ _ (omega arith) (none 18);
      origins = env_duration_positive parse env _ _ (omega arith) (none 5);
      origins_window = env_duration_positive parse env _ _ (omega arith) (none 6);
      severity = severity_known _ (none 19);
      account = account_known _ (none 20);
      token = token_known _ (none 21);
    }
