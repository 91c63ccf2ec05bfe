-- ===== src/Config/Tests.antt =====
-- Runs of the configuration.
use cftm.Base.{String, ◌==◌, ◌≡◌, refl, Option, none, [], ◌∷◌, flat_map, filter_by, if◌then◌else◌}
use cftm.Base.Integers.{ℤ}
use cftm.Base.Text.{trim_space, to_lower, split_at, onto_first, all_chars}
use cftm.Config.{
  Env, env_string, env_list, env_duration, env_int, env_bool, poll_errors, is_severity,
  severity_errors, matches_account_id, account_errors, token_errors, settings, load_errors,
  config_of, load,
}
use cftm.Config.Valid.{IsValid, load-IsValid}

abbrev env : Env
env key =
    if key == "CLOUDFLARE_ACCOUNT_ID"
    then " 0123456789abcdef0123456789ABCDEF"
    else if key == "CLOUDFLARE_API_TOKEN"
    then "token"
    else if key == "CFTM_EXPECTED_PUBLIC"
    then "WWW.example.com, ,blog.example.com"
    else ""

abbrev unparsed : String → Option ℤ
unparsed raw = none

public_list : env_list env "CFTM_EXPECTED_PUBLIC" ≡ ("www.example.com" ∷ "blog.example.com" ∷ [])
unfolding env_list trim_space to_lower split_at onto_first filter_by
public_list = refl

accepted : (load unparsed env).errors ≡ []
unfolding load load_errors settings config_of flat_map env_duration env_int env_bool poll_errors
    severity_errors is_severity account_errors matches_account_id token_errors env_string trim_space
    to_lower all_chars
accepted = refl

load-IsValid_example : IsValid (load unparsed env).value
load-IsValid_example = load-IsValid unparsed env accepted
