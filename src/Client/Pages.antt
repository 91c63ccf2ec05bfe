-- ===== src/Client/Pages.antt =====
-- listAll of internal/cloudflare/client.go, over what each page's request answers: `none` is an error,
-- otherwise the items and the total count where the answer has one (info.TotalCount > 0).
pub mod Complete
mod Tests
use cftm.Base.{
  ℕ, zero, suc, Bool, true, false, ◌&&◌, ltb, leb, length, Option, none, some, List, [], ◌∷◌, ◌++◌,
  if◌then◌else◌,
}

abbrev pub per_page : ℕ
per_page = 50

abbrev pub max_pages : ℕ
max_pages = 50

-- len(out) >= info.TotalCount, where there is one
abbrev pub is_full : Option ℕ → ℕ → Bool
is_full none n = false
is_full (some total) n = ltb 0 total && leb total n

module _ {ℓ} {A : Type ℓ} where
  -- the loop of listAll, with the pages that may still be asked for
  unfoldable pub list_from : (ℕ → Option (List A × Option ℕ)) → ℕ → ℕ → List A → Option (List A)
  list_from page zero p out = some out
  list_from page (suc left) p out = elim (page p) [
    | none ↦ none
    | some answer ↦
        let rest = list_from page left (suc p) (out ++ answer.0) in
        if ltb (length answer.0) per_page
        then some (out ++ answer.0)
        else if is_full answer.1 (length (out ++ answer.0))
        then some (out ++ answer.0)
        else rest
  ]

  -- listAll
  unfoldable pub list_all : (ℕ → Option (List A × Option ℕ)) → Option (List A)
  list_all page = list_from page max_pages 1 []
