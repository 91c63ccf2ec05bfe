-- ===== src/Client/Access/Tests.antt =====
-- Runs of the readers of Access applications.
use cftm.Base.{[], ◌∷◌, ◌≡◌, refl, distinct, exists_by}
use cftm.Base.Text.{cut, trim_space, to_lower}
use cftm.Client.Access.{App, trim_scheme, normalize_domain, domains, raw_domains}

abbrev shop : App
shop = record {
  id = "1";
  name = "Shop";
  domain = "https://Shop.Example.com/admin";
  app_type = "self_hosted";
  self_hosted_domains = "shop.example.com" ∷ "" ∷ "api.example.com/v1" ∷ [];
}

shop_domains : domains shop ≡ ("shop.example.com" ∷ "api.example.com" ∷ [])
unfolding domains distinct normalize_domain trim_scheme exists_by cut trim_space to_lower
shop_domains = refl

shop_raw :
    raw_domains shop ≡ ("shop.example.com/admin" ∷ "shop.example.com" ∷ "api.example.com/v1" ∷ [])
unfolding raw_domains distinct trim_scheme exists_by cut trim_space to_lower
shop_raw = refl
