-- ===== src/Audit/Access/Alerted.antt =====
-- What auditAlerts leaves of the finding that Cloudflare would not alert on a tunnel.
use cftm.Base.{
  exists_by-filter_and, exists_by_congr, String, Bool, true, false, not, ◌||◌, ◌&&◌, ◌==◌, ◌≡◌,
  nat_eq, ltb, length, refl, ap, if_split, ◌∙◌, List, none, some, exists_by, exists_by-map,
  filter_by, if◌then◌else◌, arith, [],
}
use cftm.Base.Text.{equal_fold}
use cftm.Model.{Tunnel}
use cftm.Model.Clock.{Time}
use cftm.Finding.{Finding}
use cftm.Finding.Code
use cftm.Health.{AlertCoverage, covers_tunnel, evaluate_alert_coverage}
use cftm.Audit.Alerts.{Policy, covers, delivers_to, alerted_on, audit_alerts}
use cftm.Audit.Access.{World, State, Audited, cache_alerts, alerts_from, refresh_alerts, stopped}
use cftm.Collector.Capabilities.{Call, failed, answered}

-- a policy that is enabled, concerns the health of tunnels, has some destination and, where it is
-- narrowed to some tunnels, names this one by its id or its name
abbrev pub reaches : Tunnel → Policy → Bool
reaches t p =
    p.alert_type == "tunnel_health_event"
    && (p.enabled
        && (not (
              nat_eq p.mechanisms.email 0
              && (nat_eq p.mechanisms.pager_duty 0 && nat_eq p.mechanisms.webhooks 0))
            && ((nat_eq (length p.filters.tunnel_id) 0 && nat_eq (length p.filters.tunnel_name) 0)
                || (exists_by (λ id. equal_fold id t.id) p.filters.tunnel_id
                    || exists_by (λ name. equal_fold name t.name) p.filters.tunnel_name))))

-- a stored tunnel with this id that some policy reaches
abbrev pub is_reached : List Policy → List Tunnel → String → Bool
is_reached policies tunnels id =
    exists_by (λ t. exists_by (reaches t) policies && t.id == id) tunnels

policy-reaches :
    (t : Tunnel) (p : Policy)
    → (if not (p.alert_type == "tunnel_health_event")
        then false
        else covers p t.id t.name && ltb 0 (delivers_to p))
      ≡ reaches t p
unfolding covers delivers_to
policy-reaches t p = ground arith

alerted_on-reaches :
    (policies : List Policy) (t : Tunnel)
    → alerted_on policies t.id t.name ≡ exists_by (reaches t) policies
unfolding alerted_on
alerted_on-reaches policies t = exists_by_congr _ _ policies (policy-reaches t)

abbrev pub says_no_alert : Finding → Bool
says_no_alert f = f.code == Code.no_cloudflare_alert

-- whether the tunnel gets that finding
abbrev pub is_flagged : AlertCoverage → String → Bool
is_flagged a id = exists_by says_no_alert (evaluate_alert_coverage a id)

covered-reached :
    (policies : List Policy) (tunnels : List Tunnel) (id : String)
    → covers_tunnel (audit_alerts (some policies) tunnels) id ≡ is_reached policies tunnels id
unfolding covers_tunnel audit_alerts
covered-reached policies tunnels id =
    exists_by-map (λ c. c == id) (λ t. t.id)
      (filter_by (λ t. alerted_on policies t.id t.name) tunnels)
    ∙ exists_by-filter_and (λ t. alerted_on policies t.id t.name) (λ t. t.id == id) tunnels
    ∙ exists_by_congr _ _ tunnels (λ t. ap (λ b. b && t.id == id) (alerted_on-reaches policies t))

flagged-covered :
    (a : AlertCoverage) (id : String)
    → a.readable ≡ true
    → is_flagged a id ≡ not (covers_tunnel a id)
unfolding evaluate_alert_coverage exists_by
flagged-covered a id h =
    if_split (λ fs. exists_by says_no_alert fs ≡ not (covers_tunnel a id))
      (not a.readable || covers_tunnel a id) _ _ (λ e. ground arith) (λ e. ground arith)

flagged-unreadable :
    (tunnels : List Tunnel) (id : String) → is_flagged (audit_alerts none tunnels) id ≡ false
unfolding evaluate_alert_coverage exists_by audit_alerts
flagged-unreadable tunnels id = refl

flagged-listed :
    (policies : List Policy) (tunnels : List Tunnel) (id : String)
    → is_flagged (audit_alerts (some policies) tunnels) id ≡ not (is_reached policies tunnels id)
flagged-listed policies tunnels id =
    flagged-covered (audit_alerts (some policies) tunnels) id (unfold audit_alerts in refl)
    ∙ ap not (covered-reached policies tunnels id)

-- whether the coverage gets cached: a listing that answers needs the stored tunnels as well
abbrev pub is_cached : World → Call (List Policy) → Bool
is_cached w (failed e) = w.saves_alerts
is_cached w (answered policies) = w.reads_tunnels && w.saves_alerts

-- what the finding says of a tunnel once the coverage is cached
abbrev pub is_unreached : Call (List Policy) → List Tunnel → String → Bool
is_unreached (failed e) tunnels id = false
is_unreached (answered policies) tunnels id = not (is_reached policies tunnels id)

-- the flag of the tunnel and the number of errors after the audit of the alerts
abbrev Leaves : String → Bool → Bool → Bool → Audited → Type 0
Leaves id cached fresh before out =
    (is_flagged out.state.alerts id ≡ (if cached then fresh else before))
    × (length out.errors ≡ (if cached then 0 else 1))

cache_alerts-Leaves :
    (w : World) (st : State) (coverage : AlertCoverage) (id : String) (fresh : Bool)
    → is_flagged coverage id ≡ fresh
    → Leaves id w.saves_alerts fresh (is_flagged st.alerts id) (cache_alerts w st coverage)
unfolding cache_alerts
cache_alerts-Leaves w st coverage id fresh h = go w.saves_alerts
  where
    go :
        (b : Bool)
        → Leaves id b fresh (is_flagged st.alerts id) (
            if b
            then record { errors = []; state = record st { alerts = coverage } }
            else stopped "cache alert coverage" st)
    go true = (h, refl)
    go false = (refl, refl)

alerts_from-Leaves :
    (w : World) (st : State) (tunnels : List Tunnel) (id : String) (call : Call (List Policy))
    → Leaves id
        (is_cached w call)
        (is_unreached call tunnels id)
        (is_flagged st.alerts id)
        (alerts_from w st tunnels call)
unfolding alerts_from
alerts_from-Leaves w st tunnels id (failed e) =
    cache_alerts-Leaves w st (audit_alerts none tunnels) id false (flagged-unreadable tunnels id)
alerts_from-Leaves w st tunnels id (answered policies) = go w.reads_tunnels
  where
    go :
        (b : Bool)
        → Leaves id
            (b && w.saves_alerts)
            (not (is_reached policies tunnels id))
            (is_flagged st.alerts id)
            (if b
              then cache_alerts w st (audit_alerts (some policies) tunnels)
              else stopped "read tunnels for alert coverage" st)
    go true =
        cache_alerts-Leaves w st (audit_alerts (some policies) tunnels) id _
          (flagged-listed policies tunnels id)
    go false = (refl, refl)

-- After auditAlerts, the finding that Cloudflare would not alert anyone on a tunnel says the
-- following. If the outcome could not be cached, or the policies were listed but the stored tunnels
-- could not be read, it says what it said before, and there is an error. Otherwise there is none; a
-- tunnel has no finding if the policies could not be listed, and has it exactly when no enabled
-- policy on the health of tunnels with some destination applies to a stored tunnel of its id.
pub refresh_alerts_iff :
    (w : World) (st : State) (tunnels : List Tunnel) (now : Time) (id : String)
    → (is_flagged (refresh_alerts w st tunnels now).state.alerts id ≡ (
        if is_cached w w.alert_policies
        then is_unreached w.alert_policies tunnels id
        else is_flagged st.alerts id))
      × (length (refresh_alerts w st tunnels now).errors
          ≡ (if is_cached w w.alert_policies then 0 else 1))
unfolding refresh_alerts
refresh_alerts_iff w st tunnels now id = alerts_from-Leaves w _ tunnels id w.alert_policies
