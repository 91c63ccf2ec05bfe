-- ===== src/Store/Origins/Totals.antt =====
-- The totals of a country over what was collected.
use cftm.Base.{
  ℕ, ◌+◌, String, true, ◌==◌, ◌≡◌, ◌∙◌, List, eq_iff, arith, sum_by, sum_by-merge_new,
  sum_by-order_by, sum_by-map, if◌then◌else◌,
}
use cftm.Store.Origins.{
  RequestOrigin, origin_row, same_key, merge_origin, replace_request_origins, busier, group_row,
  same_country, origin_country_totals,
}

-- a count of a row, if the row is of the country
abbrev pub of_country : String → (RequestOrigin → ℕ) → RequestOrigin → ℕ
of_country c count o = if o.country == c then count o else 0

module _ (c : String) where
  key-adds :
      (x y : RequestOrigin)
      → same_key y x ≡ true
      → of_country c (λ o. o.requests) (merge_origin y x)
        ≡ of_country c (λ o. o.requests) y + of_country c (λ o. o.requests) x
  unfolding same_key
  key-adds x y h = rw (same) (ground arith)
    where
      same : y.country ≡ x.country
      same = (eq_iff y.country x.country).0 (ground arith)

  country-adds :
      (x y : RequestOrigin)
      → same_country y x ≡ true
      → of_country c (λ o. o.requests) (merge_origin y x)
        ≡ of_country c (λ o. o.requests) y + of_country c (λ o. o.requests) x
  unfolding same_country
  country-adds x y h = rw ((eq_iff y.country x.country).0 h) (ground arith)

  -- The totals by country that are read after a collection was stored give a country exactly the sum
  -- of the requests that the collection counted for it, over all sources, hostnames and paths.
  pub totals-stored :
      (origins : List RequestOrigin)
      → sum_by
          (of_country c (λ o. o.requests))
          (origin_country_totals (replace_request_origins origins))
        ≡ sum_by (of_country c (λ o. o.requests)) origins
  unfolding origin_country_totals replace_request_origins sum_by
  totals-stored origins =
      sum_by-order_by busier _ _
      ∙ sum_by-merge_new same_country merge_origin _ country-adds _
      ∙ sum_by-map _ group_row _
      ∙ sum_by-merge_new same_key merge_origin _ key-adds _
      ∙ sum_by-map _ origin_row origins
