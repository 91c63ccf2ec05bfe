-- ===== src/Notify/Cooldown.antt =====
-- Within the cooldown the same condition is recorded once.
use cftm.Base.{
  String, Bool, true, false, not, ◌≡◌, ◌<◌, refl, Option, none, some, List, [], ◌∷◌, nat_eq, length,
  if◌then◌else◌, arith, eq_iff, exists_by, ◌||◌,
}
use cftm.Base.{if_split}
use cftm.Model.{Event}
use cftm.Model.Clock.{Time, Duration, ago, to_unix}
use cftm.Notify.{
  Notification, Row, Outbox, Config, Answers, from_event, notified_since, row_of, deliver, consider,
  urgent_enough, dispatch_one, dispatch_all, dispatch,
}

-- the row for `n` would not repeat the row `r`
abbrev pub Apart : Duration → String → Time → Row → Type 0
Apart cooldown key at r = r.key ≡ key → r.created_at < to_unix (ago at cooldown)

abbrev pub AllApart : Duration → String → Time → Outbox → Type 0
AllApart cooldown key at [] = Unit
AllApart cooldown key at (r ∷ rs) = Apart cooldown key at r × AllApart cooldown key at rs

-- Every row was written at some time; the older rows with its key are older than the cooldown
-- before that time.
pub data Spaced (cooldown : Duration) : Outbox → Type 0 where
  none_yet : Spaced cooldown []
  one_more :
      {rs : Outbox} (r : Row) (at : Time)
      → r.created_at ≡ to_unix at
      → AllApart cooldown r.key at rs
      → Spaced cooldown rs
      → Spaced cooldown (r ∷ rs)

not_recent-AllApart :
    (cooldown : Duration) (key : String) (at : Time) (rs : Outbox)
    → notified_since rs key (ago at cooldown) ≡ false
    → AllApart cooldown key at rs
unfolding notified_since exists_by
not_recent-AllApart cooldown key at [] h = tt
not_recent-AllApart cooldown key at (r ∷ rs) h = (
  λ same. ground (arith, eq_iff r.key key),
  not_recent-AllApart cooldown key at rs (unfold notified_since exists_by in ground arith),
)

consider-Spaced :
    (cfg : Config) (transport : String) (a : Answers) (outbox : Outbox) (o : Option Notification)
    → Spaced cfg.cooldown outbox
    → Spaced cfg.cooldown (consider cfg transport a outbox o)
unfolding consider
consider-Spaced cfg transport a outbox none s = s
consider-Spaced cfg transport a outbox (some n) s =
    if_split P (not (urgent_enough cfg n)) outbox _ (λ _. s)
      (λ _.
        if_split P a.query_fails outbox _ (λ _. s)
          (λ _.
            if_split P (notified_since outbox n.key (ago n.timestamp cfg.cooldown)) outbox _
              (λ _. s) (λ quiet. delivered quiet)))
  where
    P : Outbox → Type 0
    P = Spaced cfg.cooldown

    delivered :
        notified_since outbox n.key (ago n.timestamp cfg.cooldown) ≡ false
        → P (deliver transport a outbox n)
    delivered quiet =
        unfold deliver row_of in
        (if_split P a.insert_fails outbox _ (λ _. s)
          (λ _.
            one_more (row_of transport n a.send_error) n.timestamp refl
              (not_recent-AllApart cfg.cooldown n.key n.timestamp outbox quiet) s))

pub dispatch_one-Spaced :
    (cfg : Config) (transport : String) (names : String → String) (outbox : Outbox) (e : Event)
    (a : Answers)
    → Spaced cfg.cooldown outbox
    → Spaced cfg.cooldown (dispatch_one cfg transport names outbox e a)
unfolding dispatch_one
dispatch_one-Spaced cfg transport names outbox e a =
    consider-Spaced cfg transport a outbox (from_event e (names e.tunnel_id))

dispatch_all-Spaced :
    (cfg : Config) (transport : String) (names : String → String) (outbox : Outbox)
    (batch : List (Event × Answers))
    → Spaced cfg.cooldown outbox
    → Spaced cfg.cooldown (dispatch_all cfg transport names outbox batch)
unfolding dispatch_all
dispatch_all-Spaced cfg transport names outbox [] s = s
dispatch_all-Spaced cfg transport names outbox ((e, a) ∷ rest) s =
    dispatch_all-Spaced cfg transport names (dispatch_one cfg transport names outbox e a) rest
      (dispatch_one-Spaced cfg transport names outbox e a s)

-- Whatever the database and the transport answer, a batch of events keeps the outbox spaced: the
-- rows below a row that have its key are older than the cooldown before it.
pub dispatch-Spaced :
    (cfg : Config) (transport : String) (names : String → String) (outbox : Outbox)
    (batch : List (Event × Answers))
    → Spaced cfg.cooldown outbox
    → Spaced cfg.cooldown (dispatch cfg transport names outbox batch)
unfolding dispatch
dispatch-Spaced cfg transport names outbox batch s =
    by_guard (not cfg.enabled || nat_eq (length batch) 0)
  where
    by_guard :
        (b : Bool)
        → Spaced cfg.cooldown (if b then outbox else dispatch_all cfg transport names outbox batch)
    by_guard true = s
    by_guard false = dispatch_all-Spaced cfg transport names outbox batch s
