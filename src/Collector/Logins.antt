-- ===== src/Collector/Logins.antt =====
-- CollectAccessLogins of internal/collector/logins.go, over what the API and the database answer.
pub mod Round
mod Tests
use cftm.Base.{String, Bool, if◌then◌else◌, Option, none, some, List}
use cftm.Base.Text.{◌<>◌}
use cftm.Model.Clock.{Time}
use cftm.Audit.Logins.{AccessRequest, AccessLogin, summarize_logins}
use cftm.Store.Logins.{replace_access_logins}
use cftm.Store.Tables.{stamp}
use cftm.Collector.Capabilities.{
  Capabilities, Call, failed, answered, note_call, error_of, error_text, cap_access_logins,
}

-- the table access_logins and what is kept with it
pub record State : Type 0 where
  pub rows : List AccessLogin
  pub capabilities : Capabilities
  -- MetaAccessLoginsAt
  pub collected_at : Time

-- what the API answers for the requests of the window, and whether the two writes get through
pub record World : Type 0 where
  pub requests : Call (List AccessRequest)
  pub saves : Bool
  pub saves_timestamp : Bool

-- CollectAccessLogins once the requests are there
unfoldable pub save_logins : World → State → List AccessRequest → Time → Option String × State
save_logins w st requests now =
    if w.saves
    then (
      (if w.saves_timestamp then none else some "save timestamp"),
      record st {
        rows = replace_access_logins st.rows (summarize_logins requests);
        collected_at = if w.saves_timestamp then stamp now else st.collected_at;
      },
    )
    else (some "save access logins", st)

after_listing : World → State → Time → Call (List AccessRequest) → Option String × State
after_listing w st now (failed e) = (some ("list access requests: " <> error_text e), st)
after_listing w st now (answered requests) = save_logins w st requests now

-- CollectAccessLogins: its error and the state after it
unfoldable pub collect_access_logins : World → State → Time → Option String × State
unfolding after_listing
collect_access_logins w st now =
    let noted = record st {
      capabilities = note_call st.capabilities cap_access_logins (error_of w.requests) now;
    } in
    after_listing w noted now w.requests
