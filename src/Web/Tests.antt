-- ===== src/Web/Tests.antt =====
-- Runs of the links.
use cftm.Base.{true, ◌≡◌, ◌⊎◌}
use cftm.Base.Text.{all_chars, ◌<>◌}
use cftm.Prober.Hostname.{is_host_char}
use cftm.Web.Links.{hostname_href, hostname_href-safe}

hostname_href-safe_example :
    (hostname_href "www.example.com" ≡ "")
    ⊎ ((hostname_href "www.example.com" ≡ "https://" <> "www.example.com")
        × (all_chars is_host_char "www.example.com" ≡ true))
hostname_href-safe_example = hostname_href-safe "www.example.com"
