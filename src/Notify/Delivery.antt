-- ===== src/Notify/Delivery.antt =====
-- What is recorded, and that an urgent event is.
use cftm.Base.{
  String, Bool, true, false, not, ◌≡◌, ◌≤◌, refl, Option, none, List, [], ◌∷◌, leb, nat_eq, length,
  if◌then◌else◌, arith, exists_by, ◌||◌, ◌&&◌, ◌==◌, ap, Memᴰ, Bool-cases, inl, inr,
}
use mathlib.Core.List.Memᴰ.{head, tail}
use text.Mathlib.TextPositions.{eq_refl}
use cftm.Model.{Event}
use cftm.Model.Clock.{Time, Duration, ago, to_unix}
use cftm.Severity.{rank}
use cftm.Event.{event_severity}
use cftm.Base.{if_split, le→leb}
use cftm.Notify.{
  notification_of, Notification, Row, Outbox, Config, Answers, is_routine, from_event,
  notified_since, row_of, deliver, consider, urgent_enough, dispatch_one, dispatch_all, dispatch,
  dedup_key,
}

pub record IsWorthy (cfg : Config) (r : Row) : Type 0 where
  pub urgent : rank cfg.min_severity ≤ rank r.severity
  pub special : is_routine r.kind ≡ false

abbrev AllWorthy : Config → Outbox → Type 0
AllWorthy cfg [] = Unit
AllWorthy cfg (r ∷ rs) = IsWorthy cfg r × AllWorthy cfg rs

dispatch_one-AllWorthy :
    (cfg : Config) (transport : String) (names : String → String) (outbox : Outbox) (e : Event)
    (a : Answers)
    → AllWorthy cfg outbox
    → AllWorthy cfg (dispatch_one cfg transport names outbox e a)
unfolding dispatch_one from_event urgent_enough
dispatch_one-AllWorthy cfg transport names outbox e a h =
    if_split (λ o. P (consider cfg transport a outbox o)) (is_routine e.kind) none _
      (λ _. unfold consider in h)
      (λ special.
        unfold consider in
        (if_split P (not (leb (rank cfg.min_severity) (rank (event_severity e)))) outbox _ (λ _. h)
          (λ urgent.
            if_split P a.query_fails outbox _ (λ _. h)
              (λ _.
                if_split P (notified_since outbox (dedup_key e) (ago e.timestamp cfg.cooldown))
                  outbox _ (λ _. h) (λ _. delivered special urgent)))))
  where
    P : Outbox → Type 0
    P = AllWorthy cfg

    delivered :
        is_routine e.kind ≡ false
        → not (leb (rank cfg.min_severity) (rank (event_severity e))) ≡ false
        → P (deliver transport a outbox (notification_of e (names e.tunnel_id)))
    delivered special urgent =
        unfold deliver row_of in
        (if_split P a.insert_fails outbox _ (λ _. h)
          (λ _. (record { urgent = ground arith; special = special }, h)))

dispatch_all-AllWorthy :
    (cfg : Config) (transport : String) (names : String → String) (outbox : Outbox)
    (batch : List (Event × Answers))
    → AllWorthy cfg outbox
    → AllWorthy cfg (dispatch_all cfg transport names outbox batch)
unfolding dispatch_all
dispatch_all-AllWorthy cfg transport names outbox [] h = h
dispatch_all-AllWorthy cfg transport names outbox ((e, a) ∷ rest) h =
    dispatch_all-AllWorthy cfg transport names (dispatch_one cfg transport names outbox e a) rest
      (dispatch_one-AllWorthy cfg transport names outbox e a h)

-- Whatever the database and the transport answer, a batch adds to the outbox only rows that are at
-- least as urgent as the configured severity and of none of the routine kinds.
dispatch-AllWorthy :
    (cfg : Config) (transport : String) (names : String → String) (outbox : Outbox)
    (batch : List (Event × Answers))
    → AllWorthy cfg outbox
    → AllWorthy cfg (dispatch cfg transport names outbox batch)
unfolding dispatch
dispatch-AllWorthy cfg transport names outbox batch h =
    if_split (AllWorthy cfg) (not cfg.enabled || nat_eq (length batch) 0) outbox _ (λ _. h)
      (λ _. dispatch_all-AllWorthy cfg transport names outbox batch h)

to_unix_mono : (t : Time) (d : Duration) → leb (to_unix (ago t d)) (to_unix t) ≡ true
unfolding to_unix
to_unix_mono t d = ground arith

fresh_row :
    (transport : String) (outbox : Outbox) (n : Notification) (sent : Option String) (d : Duration)
    → notified_since (row_of transport n sent ∷ outbox) n.key (ago n.timestamp d) ≡ true
unfolding notified_since exists_by row_of
fresh_row transport outbox n sent d = rw (eq_refl n.key, to_unix_mono n.timestamp d)

-- an urgent event that is no routine one is on record after its round of the loop
dispatch_one-notified :
    (cfg : Config) (transport : String) (names : String → String) (outbox : Outbox) (e : Event)
    (sent : Option String)
    → is_routine e.kind ≡ false
    → rank cfg.min_severity ≤ rank (event_severity e)
    → notified_since
        (dispatch_one cfg transport names outbox e
          (record { query_fails = false; insert_fails = false; send_error = sent }))
        (dedup_key e)
        (ago e.timestamp cfg.cooldown)
      ≡ true
unfolding dispatch_one from_event urgent_enough
dispatch_one-notified cfg transport names outbox e sent special urgent =
    rw (special, consider, le→leb _ _ urgent)
      (by_outbox (notified_since outbox (dedup_key e) (ago e.timestamp cfg.cooldown)) refl)
  where
    since : Time
    since = ago e.timestamp cfg.cooldown

    by_outbox :
        (b : Bool)
        → notified_since outbox (dedup_key e) since ≡ b
        → notified_since
            (if b
              then outbox
              else deliver transport
                  (record { query_fails = false; insert_fails = false; send_error = sent })
                  outbox
                  (notification_of e (names e.tunnel_id)))
            (dedup_key e)
            since
          ≡ true
    by_outbox true h = h
    by_outbox false h =
        unfold deliver in
        (fresh_row transport outbox (notification_of e (names e.tunnel_id)) sent cfg.cooldown)

still_notified :
    (r : Row) (outbox : Outbox) (key : String) (since : Time)
    → notified_since outbox key since ≡ true
    → notified_since (r ∷ outbox) key since ≡ true
unfolding notified_since exists_by
still_notified r outbox key since h =
    elim (Bool-cases (r.key == key && leb (to_unix since) r.created_at)) [
      | inl e ↦ rw e
      | inr e ↦ rw e h
    ]

-- no round of the loop takes a row away
dispatch_one-keeps :
    (cfg : Config) (transport : String) (names : String → String) (outbox : Outbox) (e : Event)
    (a : Answers) (key : String) (since : Time)
    → notified_since outbox key since ≡ true
    → notified_since (dispatch_one cfg transport names outbox e a) key since ≡ true
unfolding dispatch_one from_event
dispatch_one-keeps cfg transport names outbox e a key since h =
    if_split (λ o. P (consider cfg transport a outbox o)) (is_routine e.kind) none _
      (λ _. unfold consider in h)
      (λ _.
        let n = notification_of e (names e.tunnel_id) in
        unfold consider in
        (if_split P (not (urgent_enough cfg n)) outbox _ (λ _. h)
          (λ _.
            if_split P a.query_fails outbox _ (λ _. h)
              (λ _.
                if_split P (notified_since outbox n.key (ago n.timestamp cfg.cooldown)) outbox _
                  (λ _. h) (λ _. kept n)))))
  where
    P : Outbox → Type 0
    P o = notified_since o key since ≡ true

    kept : (n : Notification) → P (deliver transport a outbox n)
    kept n =
        unfold deliver in
        (if_split P a.insert_fails outbox _ (λ _. h)
          (λ _. still_notified (row_of transport n a.send_error) outbox key since h))

dispatch_all-keeps :
    (cfg : Config) (transport : String) (names : String → String) (outbox : Outbox)
    (batch : List (Event × Answers)) (key : String) (since : Time)
    → notified_since outbox key since ≡ true
    → notified_since (dispatch_all cfg transport names outbox batch) key since ≡ true
unfolding dispatch_all
dispatch_all-keeps cfg transport names outbox [] key since h = h
dispatch_all-keeps cfg transport names outbox ((e, a) ∷ rest) key since h =
    dispatch_all-keeps cfg transport names (dispatch_one cfg transport names outbox e a) rest key
      since (dispatch_one-keeps cfg transport names outbox e a key since h)

abbrev pub answered : Option String → Answers
answered sent = record { query_fails = false; insert_fails = false; send_error = sent }

dispatch_all-notified :
    (cfg : Config) (transport : String) (names : String → String) (outbox : Outbox)
    (batch : List (Event × Answers)) (e : Event) (sent : Option String)
    → Memᴰ (e, answered sent) batch
    → is_routine e.kind ≡ false
    → rank cfg.min_severity ≤ rank (event_severity e)
    → notified_since
        (dispatch_all cfg transport names outbox batch)
        (dedup_key e)
        (ago e.timestamp cfg.cooldown)
      ≡ true
unfolding dispatch_all
dispatch_all-notified cfg transport names outbox [] e sent m special urgent = elim m [ ]
dispatch_all-notified cfg transport names outbox ((f, a) ∷ rest) e sent (head q) special urgent =
    rw (← ap (λ p. p.0) q, ← ap (λ p. p.1) q)
      (dispatch_all-keeps cfg transport names
        (dispatch_one cfg transport names outbox e (answered sent)) rest _ _
        (dispatch_one-notified cfg transport names outbox e sent special urgent))
dispatch_all-notified cfg transport names outbox ((f, a) ∷ rest) e sent (tail m) special urgent =
    dispatch_all-notified cfg transport names (dispatch_one cfg transport names outbox f a) rest e
      sent m special urgent

-- After a batch is dispatched, an urgent event of it that is no routine one and for which both
-- statements on the database succeed is on record exactly when notifications are enabled or it was
-- on record before: there is a row with its key that is no older than the cooldown before the event,
-- even if the transport fails, and whatever the database and the transport answer for the others.
pub dispatch-notified :
    (cfg : Config) (transport : String) (names : String → String) (outbox : Outbox)
    (batch : List (Event × Answers)) (e : Event) (sent : Option String)
    → Memᴰ (e, answered sent) batch
    → is_routine e.kind ≡ false
    → rank cfg.min_severity ≤ rank (event_severity e)
    → notified_since
        (dispatch cfg transport names outbox batch)
        (dedup_key e)
        (ago e.timestamp cfg.cooldown)
      ≡ (cfg.enabled || notified_since outbox (dedup_key e) (ago e.timestamp cfg.cooldown))
unfolding dispatch urgent_enough
dispatch-notified cfg transport names outbox [] e sent m special urgent = elim m [ ]
dispatch-notified cfg transport names outbox (p ∷ rest) e sent m special urgent =
    elim (Bool-cases cfg.enabled) [
      | inl on ↦ rw on (
          if_split (λ o. notified_since o (dedup_key e) (ago e.timestamp cfg.cooldown) ≡ true)
            (nat_eq (length (p ∷ rest)) 0) outbox _ (λ k. absurd (ground arith))
            (λ _.
              dispatch_all-notified cfg transport names outbox (p ∷ rest) e sent m special urgent))
      | inr off ↦ rw off refl
    ]
