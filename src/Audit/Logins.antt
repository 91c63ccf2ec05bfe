-- ===== src/Audit/Logins.antt =====
-- summarizeLogins and normalizeAppDomain of internal/collector/logins.go. The rows stand in the order
-- in which their domains appear; the source's order is that of a Go map.
pub mod Tally
use cftm.Base.{
  ℕ, suc, String, Bool, true, false, not, ◌==◌, length, List, [], ◌∷◌, map, exists_by,
  if◌then◌else◌,
}
use cftm.Base.Text.{to_lower, trim_space, cut}
use cftm.Model.Clock.{Time, after, zero_time}

-- the fields of AccessRequest that are read
pub record AccessRequest : Type 0 where
  pub app_domain : String
  pub allowed : Bool
  pub user_email : String
  pub created_at : Time

-- AccessLogin of internal/store/logins.go
pub record AccessLogin : Type 0 where
  pub app_domain : String
  pub allowed : ℕ
  pub denied : ℕ
  pub users : ℕ
  pub last_at : Time

-- the accumulator of one domain
pub record Acc : Type 0 where
  pub domain : String
  pub allowed : ℕ
  pub denied : ℕ
  pub last_at : Time
  pub users : List String

-- normalizeAppDomain
unfoldable pub normalize_app_domain : String → String
normalize_app_domain domain = (cut (to_lower (trim_space domain)) "/").0

unfoldable pub add_user : String → List String → List String
add_user email users =
    if email == ""
    then users
    else if exists_by (λ u. u == to_lower email) users
    then users
    else to_lower email ∷ users

-- what one request changes in its entry
unfoldable pub bump : AccessRequest → Acc → Acc
bump r a = record {
  domain = a.domain;
  allowed = if r.allowed then suc a.allowed else a.allowed;
  denied = if r.allowed then a.denied else suc a.denied;
  last_at = if after r.created_at a.last_at then r.created_at else a.last_at;
  users = add_user r.user_email a.users;
}

abbrev pub fresh : String → Acc
fresh domain = record { domain = domain; allowed = 0; denied = 0; last_at = zero_time; users = [] }

-- the entry of a domain, made where there is none
unfoldable pub add_request : String → AccessRequest → List Acc → List Acc
add_request domain r [] = bump r (fresh domain) ∷ []
add_request domain r (a ∷ accs) =
    let rest = add_request domain r accs in if a.domain == domain then bump r a ∷ accs else a ∷ rest

-- the loop over the requests
unfoldable pub accumulate : List Acc → List AccessRequest → List Acc
accumulate accs [] = accs
accumulate accs (r ∷ rs) =
    let domain = normalize_app_domain r.app_domain in
    accumulate (if domain == "" then accs else add_request domain r accs) rs

abbrev pub login_of : Acc → AccessLogin
login_of a = record {
  app_domain = a.domain;
  allowed = a.allowed;
  denied = a.denied;
  users = length a.users;
  last_at = a.last_at;
}

-- summarizeLogins
unfoldable pub summarize_logins : List AccessRequest → List AccessLogin
summarize_logins requests = map login_of (accumulate [] requests)
