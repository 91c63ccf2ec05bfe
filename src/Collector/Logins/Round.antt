-- ===== src/Collector/Logins/Round.antt =====
-- What a round of the login summary leaves, on every branch.
use cftm.Base.{
  String, Bool, true, false, ◌==◌, ◌≡◌, refl, ap, ◌∙◌, Option, none, some, List, if◌then◌else◌,
}
use cftm.Base.Text.{◌<>◌}
use cftm.Model.Clock.{Time}
use cftm.Audit.Logins.{AccessRequest}
use cftm.Audit.Logins.Tally.{rows_for, requests_for}
use cftm.Store.Logins.{access_logins}
use cftm.Store.Logins.Read.{access_logins-tally}
use cftm.Store.Tables.{stamp}
use cftm.Collector.Capabilities.{
  Call, failed, answered, error_of, error_text, cap_access_logins, capability_of, known,
}
use cftm.Collector.Capabilities.Known.{known-note_call}
use cftm.Collector.Logins.{State, World, save_logins, after_listing, collect_access_logins}

abbrev IsUntouched : State → State → Type 0
IsUntouched before after = (after.rows ≡ before.rows) × (after.collected_at ≡ before.collected_at)

-- what the page says of a domain, the time and the error, after rows were to be saved
abbrev IsSaved :
    World → State → Time → Bool → String → List AccessRequest → Option String × State → Type 0
IsSaved w before now allowed domain requests out =
    if w.saves
    then (rows_for allowed domain (access_logins out.1.rows) ≡ requests_for allowed domain requests)
      × (out.1.collected_at ≡ (if w.saves_timestamp then stamp now else before.collected_at))
      × (out.0 ≡ (if w.saves_timestamp then none else some "save timestamp"))
    else IsUntouched before out.1 × (out.0 ≡ some "save access logins")

-- the contract of a round: an answer that is saved is tallied, anything else leaves the summary
abbrev IsListed :
    World
    → State
    → Time
    → Bool
    → String
    → Call (List AccessRequest)
    → Option String × State
    → Type 0
IsListed w before now allowed domain (failed e) out =
    IsUntouched before out.1 × (out.0 ≡ some ("list access requests: " <> error_text e))
IsListed w before now allowed domain (answered requests) out =
    IsSaved w before now allowed domain requests out

abbrev pub IsRound : World → State → Time → Bool → String → Option String × State → Type 0
IsRound w before now allowed domain out =
    (known out.1.capabilities cap_access_logins ≡ some (capability_of (error_of w.requests) now))
    × IsListed w before now allowed domain w.requests out

save_logins-IsSaved :
    (w : World) (st : State) (now : Time) (allowed : Bool) (domain : String)
    (requests : List AccessRequest)
    → (domain == "") ≡ false
    → IsSaved w st now allowed domain requests (save_logins w st requests now)
      × ((save_logins w st requests now).1.capabilities ≡ st.capabilities)
unfolding save_logins
save_logins-IsSaved w st now allowed domain requests named = go w.saves
  where
    go :
        (saves : Bool)
        → IsSaved
            (record w { saves = saves })
            st
            now
            allowed
            domain
            requests
            (save_logins (record w { saves = saves }) st requests now)
          × ((save_logins (record w { saves = saves }) st requests now).1.capabilities
              ≡ st.capabilities)
    go true = ((access_logins-tally st.rows requests allowed domain named, refl, refl), refl)
    go false = (((refl, refl), refl), refl)

after_listing-IsListed :
    (w : World) (st : State) (now : Time) (allowed : Bool) (domain : String)
    (call : Call (List AccessRequest))
    → (domain == "") ≡ false
    → IsListed w st now allowed domain call (after_listing w st now call)
      × ((after_listing w st now call).1.capabilities ≡ st.capabilities)
unfolding after_listing
after_listing-IsListed w st now allowed domain (failed e) named = (((refl, refl), refl), refl)
after_listing-IsListed w st now allowed domain (answered requests) named =
    save_logins-IsSaved w st now allowed domain requests named

-- A round notes the outcome of the listing as a capability. If the listing fails or the rows cannot
-- be saved, the rows and the time stay and the error says so; otherwise the page reads, for every
-- domain, as many allowed and denied requests as were listed, and the time is that of the round
-- unless writing it failed.
pub collect_access_logins-IsRound :
    (w : World) (st : State) (now : Time) (allowed : Bool) (domain : String)
    → (domain == "") ≡ false
    → IsRound w st now allowed domain (collect_access_logins w st now)
unfolding collect_access_logins
collect_access_logins-IsRound w st now allowed domain named =
    let (listed, kept) = after_listing-IsListed w _ now allowed domain w.requests named in
    (
      ap (λ c. known c cap_access_logins) kept
          ∙ known-note_call st.capabilities cap_access_logins cap_access_logins
              (error_of w.requests) now,
      listed,
    )
