-- ===== src/Client/Pages/Tests.antt =====
-- A collection of three items whose length the server tells.
use cftm.Base.{ℕ, ◌≡◌, some, List, [], ◌∷◌, arith}
use cftm.Client.Pages.{list_all}
use cftm.Client.Pages.Complete.{served, list_all_complete}

abbrev three : List ℕ
three = 4 ∷ 5 ∷ 6 ∷ []

told_three : (n : ℕ) → some 3 ≡ some n → n ≡ 3
told_three n e = ground arith

list_all_complete_example : list_all (served (some 3) three) ≡ some three
list_all_complete_example = list_all_complete (some 3) three told_three (omega arith)
