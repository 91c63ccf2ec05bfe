-- ===== src/Store/Logins.antt =====
-- internal/store/logins.go: the login summaries of the Access applications, as rows in the order of
-- insertion. Whether the transaction gets through is the caller's parameter.
pub mod Read
use cftm.Base.{◌+◌, Bool, ◌||◌, ◌&&◌, nat_eq, ltb, List, map, order_by, text_le}
use cftm.Model.Clock.{to_unix, from_unix}
use cftm.Audit.Logins.{AccessLogin}

-- a row as it is read back: the time in whole seconds
abbrev pub login_row : AccessLogin → AccessLogin
login_row l = record l { last_at = from_unix (to_unix l.last_at) }

-- ReplaceAccessLogins
unfoldable pub replace_access_logins : List AccessLogin → List AccessLogin → List AccessLogin
replace_access_logins rows logins = map login_row logins

-- ORDER BY allowed + denied DESC, app_domain
abbrev pub busier : AccessLogin → AccessLogin → Bool
busier a b =
    ltb (b.allowed + b.denied) (a.allowed + a.denied)
    || nat_eq (a.allowed + a.denied) (b.allowed + b.denied) && text_le a.app_domain b.app_domain

-- AccessLogins
unfoldable pub access_logins : List AccessLogin → List AccessLogin
access_logins rows = order_by busier rows
