-- ===== src/Audit/Logins/Tally.antt =====
-- Every request is counted once, under its domain.
use cftm.Base.{
  ℕ, String, Bool, false, ◌==◌, eq_iff, ◌≡◌, ◌+◌, ap, List, [], ◌∷◌, map, if◌then◌else◌, if_split,
  Bool-cases, inl, inr, arith,
}
use cftm.Audit.Logins.{
  AccessRequest, AccessLogin, Acc, normalize_app_domain, bump, fresh, add_request, accumulate,
  login_of, summarize_logins,
}

-- one if a request was decided this way
abbrev pub hit : Bool → AccessRequest → ℕ
hit allowed r = if allowed then (if r.allowed then 1 else 0) else (if r.allowed then 0 else 1)

-- how many requests for a domain were decided this way
pub requests_for : Bool → String → List AccessRequest → ℕ
requests_for allowed domain [] = 0
requests_for allowed domain (r ∷ rs) =
    (if normalize_app_domain r.app_domain == domain then hit allowed r else 0)
    + requests_for allowed domain rs

-- what the rows of a domain say
unfoldable pub rows_for : Bool → String → List AccessLogin → ℕ
rows_for allowed domain [] = 0
rows_for allowed domain (l ∷ ls) =
    (if l.app_domain == domain then (if allowed then l.allowed else l.denied) else 0)
    + rows_for allowed domain ls

module _ (allowed : Bool) (domain : String) where
  entries : List Acc → ℕ
  entries accs = rows_for allowed domain (map login_of accs)

  share : Acc → ℕ
  share a = if a.domain == domain then (if allowed then a.allowed else a.denied) else 0

  bump-share :
      (r : AccessRequest) (a : Acc)
      → share (bump r a) ≡ share a + (if a.domain == domain then hit allowed r else 0)
  unfolding bump share
  bump-share r a = ground arith

  fresh_none : (d : String) → share (fresh d) ≡ 0
  unfolding share
  fresh_none d = ground arith

  add_request-entries :
      (d : String) (r : AccessRequest) (accs : List Acc)
      → entries (add_request d r accs) ≡ entries accs + (if d == domain then hit allowed r else 0)
  unfolding add_request entries rows_for share
  add_request-entries d r [] = let b = bump-share r (fresh d) in let z = fresh_none d in omega arith
  add_request-entries d r (a ∷ accs) =
      if_split (λ l. entries l ≡ entries (a ∷ accs) + (if d == domain then hit allowed r else 0))
        (a.domain == d) _ _
        (λ e.
          let b = bump-share r a in
          let q = ap (λ x. if x == domain then hit allowed r else 0) ((eq_iff a.domain d).0 e) in
          omega arith)
        (λ e. let rest = add_request-entries d r accs in omega arith)

  one_request :
      (d : String) (r : AccessRequest) (accs : List Acc)
      → (domain == "") ≡ false
      → entries (if d == "" then accs else add_request d r accs)
        ≡ entries accs + (if d == domain then hit allowed r else 0)
  one_request d r accs named =
      if_split (λ l. entries l ≡ entries accs + (if d == domain then hit allowed r else 0))
        (d == "") _ _
        (λ e. elim (Bool-cases (d == domain)) [
          | inl k ↦ let q = ap (λ x. x == "") ((eq_iff d domain).0 k) in absurd (ground arith)
          | inr k ↦ rw k (omega arith)
        ])
        (λ e. add_request-entries d r accs)

  accumulate-entries :
      (accs : List Acc) (rs : List AccessRequest)
      → (domain == "") ≡ false
      → entries (accumulate accs rs) ≡ entries accs + requests_for allowed domain rs
  unfolding accumulate requests_for
  accumulate-entries accs [] named = omega arith
  accumulate-entries accs (r ∷ rs) named =
      let d = normalize_app_domain r.app_domain in
      let rest = accumulate-entries (if d == "" then accs else add_request d r accs) rs named in
      let step = one_request d r accs named in omega arith

-- For each application's domain, the rows of the login summary count every allowed request for it as
-- allowed and every other one as denied, each exactly once.
pub summarize_logins-tally :
    (requests : List AccessRequest) (allowed : Bool) (domain : String)
    → (domain == "") ≡ false
    → rows_for allowed domain (summarize_logins requests) ≡ requests_for allowed domain requests
unfolding summarize_logins entries rows_for
summarize_logins-tally requests allowed domain named =
    let all = accumulate-entries allowed domain [] requests named in omega arith
