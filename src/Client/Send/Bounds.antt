-- ===== src/Client/Send/Bounds.antt =====
-- How many requests a call of send makes.
use cftm.Base.{
  ℕ, zero, suc, Option, none, Bool, true, false, not, ◌≡◌, ◌≤◌, refl, ◌-◌, String, some, if_split,
  arith,
}
use cftm.Model.Clock.{Time}
use cftm.Client.Rate.{Client, check_budget}
use cftm.Client.Send.{attempt, Outside, Sent, is_final, send_from, send, max_attempts}

module _ (out : Outside) (graphql : Bool) where
  send_from-requests :
      (left : ℕ) (c : Client) (n : ℕ) → (send_from out graphql left c n).requests ≤ suc left
  unfolding send_from
  send_from-requests zero c n = omega arith
  send_from-requests (suc left) c n =
      let a = attempt c graphql (out.now n) (out.reply n) in
      let rest = send_from-requests left a.1 (suc n) in
      if_split {A = Sent} (λ s. s.requests ≤ suc (suc left)) (is_final a.0) _ _ (λ e. omega arith)
        (λ e.
          if_split {A = Sent} (λ s. s.requests ≤ suc (suc left)) (not (out.waits (suc n))) _ _
            (λ k. omega arith) (λ k. omega arith))

  -- A call of send makes at most three requests, and none where the budget guard refuses.
  pub send-requests :
      (c : Client) (start : Time)
      → ((send out graphql c start).requests ≤ max_attempts)
        × (check_budget c graphql start ≡ false → (send out graphql c start).requests ≡ 0)
  unfolding send
  send-requests c start = (
    if_split {A = Sent} (λ s. s.requests ≤ max_attempts) (not (check_budget c graphql start)) _ _
        (λ e. omega arith) (λ e. send_from-requests (max_attempts - 1) c 1),
    λ refused. rw refused refl,
  )

  -- a 429 ends the call if its body can be read, or if the context ends before the next attempt
  abbrev pub ends_at_once : Option String → Bool
  ends_at_once (some text) = true
  ends_at_once none = not (out.waits 2)
