-- ===== src/Web/Links.antt =====
-- HostnameHref of internal/web/viewmodels.go.
use cftm.Base.{String, true, ◌≡◌, ◌⊎◌, inl, inr, refl, Bool-cases, if◌then◌else◌}
use cftm.Base.Text.{all_chars, ◌<>◌}
use cftm.Prober.Hostname.{matches_hostname, matches_hostname-safe, is_host_char}

-- HostnameHref; linkableHostname is the pattern of the prober
unfoldable pub hostname_href : String → String
hostname_href host = if matches_hostname host then "https://" <> host else ""

-- What a page links for a hostname is nothing at all, or the hostname after https://, with only
-- letters, digits, hyphens and dots in it.
pub hostname_href-safe :
    (host : String)
    → (hostname_href host ≡ "")
      ⊎ ((hostname_href host ≡ "https://" <> host) × (all_chars is_host_char host ≡ true))
unfolding hostname_href
hostname_href-safe host = elim (Bool-cases (matches_hostname host)) [
  | inl e ↦ inr (rw e refl, matches_hostname-safe host e)
  | inr e ↦ inl (rw e refl)
]
