-- ===== src/Store/Logins/Read.antt =====
-- The login summary after a round: what the page reads of the requests.
use cftm.Base.{
  ℕ, ◌+◌, String, Bool, false, ◌==◌, ◌≡◌, refl, sym, ap, ◌∙◌, List, [], ◌∷◌, sum_by, sum_by-map,
  sum_by-order_by, if◌then◌else◌,
}
use cftm.Audit.Logins.{AccessRequest, AccessLogin, summarize_logins}
use cftm.Audit.Logins.Tally.{rows_for, requests_for, summarize_logins-tally}
use cftm.Store.Logins.{login_row, busier, access_logins, replace_access_logins}

abbrev said : Bool → String → AccessLogin → ℕ
said allowed domain l =
    if l.app_domain == domain then (if allowed then l.allowed else l.denied) else 0

rows_for-sum :
    (allowed : Bool) (domain : String) (ls : List AccessLogin)
    → rows_for allowed domain ls ≡ sum_by (said allowed domain) ls
unfolding rows_for sum_by
rows_for-sum allowed domain [] = refl
rows_for-sum allowed domain (l ∷ ls) =
    ap (λ n. said allowed domain l + n) (rows_for-sum allowed domain ls)

-- For each application's domain, the page reads as many allowed and as many denied requests as were
-- summarized, whatever the table held before.
pub access_logins-tally :
    (rows : List AccessLogin) (requests : List AccessRequest) (allowed : Bool) (domain : String)
    → (domain == "") ≡ false
    → rows_for allowed domain
        (access_logins (replace_access_logins rows (summarize_logins requests)))
      ≡ requests_for allowed domain requests
unfolding access_logins replace_access_logins
access_logins-tally rows requests allowed domain named =
    rows_for-sum allowed domain _
    ∙ sum_by-order_by busier (said allowed domain) _
    ∙ sum_by-map (said allowed domain) login_row (summarize_logins requests)
    ∙ sym (rows_for-sum allowed domain (summarize_logins requests))
    ∙ summarize_logins-tally requests allowed domain named
