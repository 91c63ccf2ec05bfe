-- ===== src/Client/Access.antt =====
-- internal/cloudflare/access.go: the domains of Access applications and what a policy admits. The
-- lists that the client fetches page by page are those of Client.Pages.
mod Tests
use cftm.Base.{String, Bool, ◌==◌, ◌||◌, List, [], ◌∷◌, map, exists_by, distinct, if◌then◌else◌}
use cftm.Base.Text.{to_lower, trim_space, cut, equal_fold}
use cftm.Model.Clock.{Time}

-- the fields that are read of AccessApp, AccessPolicy and ServiceToken of internal/cloudflare/types.go
pub record App : Type 0 where
  pub id : String
  pub name : String
  pub domain : String
  pub app_type : String
  pub self_hosted_domains : List String

-- the rules to include are given by their keys
pub record Policy : Type 0 where
  pub id : String
  pub name : String
  pub decision : String
  pub include : List (List String)

pub record Token : Type 0 where
  pub id : String
  pub name : String
  pub client_id : String
  pub expires_at : Time

-- trimScheme
unfoldable pub trim_scheme : String → String
trim_scheme domain =
    let d = trim_space (to_lower domain) in
    let (before, rest, found) = cut d "://" in if found then rest else d

-- normalizeDomain
unfoldable pub normalize_domain : String → String
normalize_domain d = (cut (trim_scheme d) "/").0

-- Domains
unfoldable pub domains : App → List String
domains a = distinct [] (map normalize_domain (a.domain ∷ a.self_hosted_domains))

-- RawDomains
unfoldable pub raw_domains : App → List String
raw_domains a = distinct [] (map trim_scheme (a.domain ∷ a.self_hosted_domains))

-- HasServiceTokenRule
unfoldable pub has_service_token_rule : Policy → Bool
has_service_token_rule p =
    exists_by
      (λ rule. exists_by (λ key. key == "service_token" || key == "any_valid_service_token") rule)
      p.include

-- IsBypass
unfoldable pub is_bypass : Policy → Bool
is_bypass p = equal_fold p.decision "bypass"
