-- ===== src/Server/Origins/Shares.antt =====
-- The shares of the countries in a summary.
use cftm.Base.{
  ℕ, String, Bool, true, false, ◌≡◌, refl, ◌∙◌, Option, List, sum_by, sum_by-order_by, sum_by-map,
  sum_by-merge_new,
}
use cftm.Model.Clock.{Time, Duration}
use cftm.Store.Origins.{RequestOrigin}
use cftm.Server.Origins.{
  OriginCountry, by_country, sorted_countries, kept_origins, total_of, origin_summary, same_code,
  add_counts, entry_of, with_share,
}

sum_by_country :
    (origins : List RequestOrigin)
    → sum_by (λ c. c.requests) (by_country origins) ≡ total_of origins
unfolding by_country
sum_by_country origins =
    sum_by-merge_new same_code add_counts (λ c. c.requests) (λ x y h. refl) _
    ∙ sum_by-map (λ c. c.requests) entry_of origins

sum_sorted :
    (entries : List OriginCountry) (total : ℕ)
    → sum_by (λ c. c.requests) (sorted_countries entries total) ≡ sum_by (λ c. c.requests) entries
unfolding sorted_countries
sum_sorted entries total =
    sum_by-order_by _ (λ c. c.requests) _ ∙ sum_by-map (λ c. c.requests) (with_share total) entries

-- The requests of the countries that an origin summary lists add up to the requests that the summary
-- states, whether it is narrowed to some hostnames or not and whether the feature is on or off.
pub summary-adds_up :
    (enabled : Bool) (rows : List RequestOrigin) (hosts : Option (String → Bool)) (collected : Time)
    (window : Duration)
    → sum_by (λ c. c.requests) (origin_summary enabled rows hosts collected window).0.countries
      ≡ (origin_summary enabled rows hosts collected window).0.requests
unfolding origin_summary sum_by
summary-adds_up true rows hosts collected window =
    sum_sorted (by_country (kept_origins hosts rows)) (total_of (kept_origins hosts rows))
    ∙ sum_by_country (kept_origins hosts rows)
summary-adds_up false rows hosts collected window = refl
