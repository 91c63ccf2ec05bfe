-- ===== src/LogBuf/Tests.antt =====
-- A buffer of three slots that has gone round once.
use cftm.Base.{ℕ, ◌≡◌, refl, List, [], ◌∷◌, arith, length, drop, ◌+◌, ◌-◌, ◌++◌}
use cftm.LogBuf.{Entry, Buffer, new, add, snapshot}
use cftm.LogBuf.Refine.{IsValid, add_all, snapshot-add_all}

abbrev line : ℕ → Entry
line n = record { time = n; level = "INFO"; message = "poll" }

abbrev four : List Entry
four = line 1 ∷ line 2 ∷ line 3 ∷ line 4 ∷ []

abbrev wrapped : Buffer
wrapped = record { entries = line 4 ∷ line 2 ∷ line 3 ∷ []; start = 1; count = 3; capacity = 3 }

add_all-four : add_all (new 3) four ≡ wrapped
unfolding add_all new add
add_all-four = refl

snapshot-wrapped : snapshot wrapped ≡ line 2 ∷ line 3 ∷ line 4 ∷ []
unfolding snapshot
snapshot-wrapped = refl

wrapped-IsValid : IsValid wrapped
wrapped-IsValid = omega arith

snapshot-add_all_example :
    snapshot (add_all wrapped four)
    ≡ drop (length (snapshot wrapped) + 4 - 3) (snapshot wrapped ++ four)
snapshot-add_all_example = snapshot-add_all wrapped four wrapped-IsValid
