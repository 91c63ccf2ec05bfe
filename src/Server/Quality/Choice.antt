-- ===== src/Server/Quality/Choice.antt =====
-- Which hostname the quality card shows.
use mathlib.Core.List.Memᴰ.{head, tail}
use cftm.Base.{
  String, Bool, true, false, not, ◌&&◌, ◌||◌, ◌==◌, ◌≡◌, refl, sym, ◌∙◌, List, [], ◌∷◌, Option,
  none, some, Memᴰ, exists_by, exists_by_intro, exists_by-map, exists_by-order_by, text_le,
  if_split, eq_iff, arith, exists_by-distinct, exists_by_congr, ap, map, sort_by, filter_by, ltb,
  leb, ◌-◌, ◌*◌, ◌/◌, Bool-cases, inl, inr,
}
use cftm.Model.{IngressRule, ProbeResult}
use cftm.Model.Clock.{Time, Duration, second, day, to_unix}
use cftm.Prober.{targets, is_http_service}
use cftm.Prober.Hostname.{matches_hostname}
use cftm.Prober.Targets.{targets_iff}
use cftm.Store.Samples.{probe_history}
use cftm.Store.Tables.{Tables}
use cftm.Server.Quality.{
  Outcome, quality_hostnames, search_strings, same_text, first_text, choose_hostname, show_hostname,
  build_quality, tunnel_quality,
}

-- a hostname that an ingress rule with an HTTP service serves and that may be probed
unfoldable pub is_shown_for : List IngressRule → String → Bool
is_shown_for rules host =
    exists_by
      (λ r. is_http_service r.service && (matches_hostname r.hostname && r.hostname == host)) rules

-- an option that holds nothing but a member, or the empty text
abbrev IsAmong : List String → Option String → Type 0
IsAmong hosts none = Unit
IsAmong hosts (some s) = (s == "") ≡ false → Memᴰ s hosts

IsAmong-tail :
    (x : String) (hosts : List String) (o : Option String) → IsAmong hosts o → IsAmong (x ∷ hosts) o
IsAmong-tail x hosts none a = tt
IsAmong-tail x hosts (some s) a = λ n. tail (a n)

search_strings-IsAmong : (hosts : List String) (h : String) → IsAmong hosts (search_strings hosts h)
unfolding search_strings
search_strings-IsAmong [] h = tt
search_strings-IsAmong (x ∷ hosts) h =
    if_split (IsAmong (x ∷ hosts)) (text_le h x) _ _ (λ e. λ n. head refl)
      (λ e. IsAmong-tail x hosts (search_strings hosts h) (search_strings-IsAmong hosts h))

same_text-IsAmong :
    (hosts : List String) (h : String) (o : Option String)
    → IsAmong hosts o
    → IsAmong hosts (same_text h o)
same_text-IsAmong hosts h none a = tt
same_text-IsAmong hosts h (some s) a =
    if_split (IsAmong hosts) (s == h) _ _ (λ e. rw (sym ((eq_iff s h).0 e)) a) (λ e. tt)

first_text-IsAmong : (hosts : List String) → IsAmong hosts (some (first_text hosts))
first_text-IsAmong [] = λ n. absurd (ground arith)
first_text-IsAmong (s ∷ hosts) = λ n. head refl

choose_hostname-IsAmong :
    (hosts : List String) (h : String) → IsAmong hosts (choose_hostname hosts h)
unfolding choose_hostname
choose_hostname-IsAmong hosts h =
    if_split (IsAmong hosts) (not (h == "")) _ _
      (λ e. same_text-IsAmong hosts h _ (search_strings-IsAmong hosts h))
      (λ e. first_text-IsAmong hosts)

quality_hostnames_iff :
    (rules : List IngressRule) (host : String)
    → exists_by (λ x. x == host) (quality_hostnames rules) ≡ is_shown_for rules host
unfolding quality_hostnames is_shown_for
quality_hostnames_iff rules host =
    exists_by-order_by text_le (λ x. x == host) _
    ∙ exists_by-map (λ x. x == host) _ (targets rules (λ h. false))
    ∙ targets_iff rules (λ h. false) host

-- the requested text, if there is a request
abbrev Keeps : String → Option String → Type 0
Keeps h none = not (h == "") ≡ true
Keeps h (some s) = (h == "" || s == h) ≡ true

same_text-Keeps : (h : String) (o : Option String) → not (h == "") ≡ true → Keeps h (same_text h o)
same_text-Keeps h none n = n
same_text-Keeps h (some s) n =
    if_split (Keeps h) (s == h) _ _ (λ e. let q = (eq_iff h h).1 refl in ground arith) (λ e. n)

choose_hostname-Keeps : (hosts : List String) (h : String) → Keeps h (choose_hostname hosts h)
unfolding choose_hostname
choose_hostname-Keeps hosts h =
    if_split (Keeps h) (not (h == "")) _ _ (λ n. same_text-Keeps h (search_strings hosts h) n)
      (λ n. ground arith)

-- the empty text stands for no hostname at all
abbrev IsExhausted : List String → Option String → Type 0
IsExhausted hosts none = Unit
IsExhausted hosts (some s) = (s == "") ≡ true → hosts ≡ []

same_text-IsExhausted :
    (hosts : List String) (h : String) (o : Option String)
    → not (h == "") ≡ true
    → IsExhausted hosts (same_text h o)
same_text-IsExhausted hosts h none n = tt
same_text-IsExhausted hosts h (some s) n =
    if_split (IsExhausted hosts) (s == h) _ _ (λ e. λ q. absurd (ground arith)) (λ e. tt)

first_text-IsExhausted :
    (hosts : List String)
    → exists_by (λ x. x == "") hosts ≡ false
    → IsExhausted hosts (some (first_text hosts))
unfolding exists_by
first_text-IsExhausted [] named = λ q. refl
first_text-IsExhausted (s ∷ hosts) named = λ q. absurd (ground arith)

choose_hostname-IsExhausted :
    (hosts : List String) (h : String)
    → exists_by (λ x. x == "") hosts ≡ false
    → IsExhausted hosts (choose_hostname hosts h)
unfolding choose_hostname
choose_hostname-IsExhausted hosts h named =
    if_split (IsExhausted hosts) (not (h == "")) _ _
      (λ n. same_text-IsExhausted hosts h (search_strings hosts h) n)
      (λ n. first_text-IsExhausted hosts named)

none_pass : (hosts : List String) → exists_by (λ x. false) hosts ≡ false
unfolding exists_by
none_pass [] = refl
none_pass (x ∷ hosts) = none_pass hosts

-- a hostname that stands for none was not requested
unrequested :
    (h host : String) → (host == "") ≡ true → (h == "" || host == h) ≡ true → (h == "") ≡ true
unrequested h host e k = elim (Bool-cases (h == "")) [
  | inl q ↦ q
  | inr q ↦ ap (λ x. x == "") (sym ((eq_iff host h).0 (ground arith))) ∙ e
]

quality_hostnames-named :
    (rules : List IngressRule) → exists_by (λ x. x == "") (quality_hostnames rules) ≡ false
unfolding quality_hostnames targets
quality_hostnames-named rules =
    exists_by-order_by text_le (λ x. x == "") _
    ∙ exists_by-map (λ x. x == "") (λ t. t.hostname) (targets rules (λ h. false))
    ∙ exists_by-map (λ t. t.hostname == "") _ _
    ∙ exists_by-distinct (λ x. x == "") _
    ∙ exists_by_congr _ (λ x. false) _ (λ x. ground arith)
    ∙ none_pass _

-- the stored results of a hostname in the day up to a second, oldest first
abbrev pub day_of : Tables → String → Time → List ProbeResult
day_of db host until =
    map (λ (r : ProbeResult). record r { error = "" })
      (sort_by (λ r. to_unix r.checked_at)
        (filter_by
          (λ r.
            r.hostname == host
            && ltb (to_unix (until - day)) (to_unix r.checked_at)
            && leb (to_unix r.checked_at) (to_unix until))
          db.probe_results))

-- what may be answered to a request for h at a time
abbrev pub IsAllowed : Tables → List IngressRule → String → Time → Duration → Outcome → Type 0
IsAllowed db rules h now interval Outcome.refused = (h == "") ≡ false
IsAllowed db rules h now interval Outcome.unprobed =
    ((h == "") ≡ true) × ((host : String) → is_shown_for rules host ≡ false)
IsAllowed db rules h now interval (Outcome.shown q) =
    (is_shown_for rules q.hostname ≡ true)
    × ((h == "" || q.hostname == h) ≡ true)
    × (q
        ≡ build_quality q.hostname (now / second * second - day) (now / second * second) interval
            (day_of db q.hostname (now / second * second)))

show_hostname-IsAllowed :
    (db : Tables) (rules : List IngressRule) (h : String) (now : Time) (interval : Duration)
    (o : Option String)
    → IsAmong (quality_hostnames rules) o
    → Keeps h o
    → IsExhausted (quality_hostnames rules) o
    → IsAllowed db rules h now interval (show_hostname db now interval o)
unfolding build_quality probe_history
show_hostname-IsAllowed db rules h now interval none a k x = ground arith
show_hostname-IsAllowed db rules h now interval (some host) a k x =
    if_split (IsAllowed db rules h now interval) (host == "") _ _
      (λ e. (
        unrequested h host e k,
        λ other.
            sym (quality_hostnames_iff rules other)
            ∙ ap (exists_by (λ x. x == other)) (x e)
            ∙ (unfold exists_by in refl),
      ))
      (λ e. (
        sym (quality_hostnames_iff rules host)
            ∙ exists_by_intro (λ x. x == host) _ (a e) ((eq_iff host host).1 refl),
        k,
        refl,
      ))

-- The quality card refuses only a request for a hostname. It shows no data only where no hostname
-- was requested and no ingress rule with an HTTP service has a hostname that the pattern of
-- hostnames accepts. Otherwise it shows such a hostname, which is the requested one if there was a
-- request, and what it shows is built from the stored results of that hostname alone, those of the
-- day up to the present second, oldest first.
pub tunnel_quality-IsAllowed :
    (db : Tables) (rules : List IngressRule) (h : String) (now : Time) (interval : Duration)
    → IsAllowed db rules h now interval (tunnel_quality db rules h now interval)
unfolding tunnel_quality
tunnel_quality-IsAllowed db rules h now interval =
    let hosts = quality_hostnames rules in
    show_hostname-IsAllowed db rules h now interval (choose_hostname hosts h)
      (choose_hostname-IsAmong hosts h) (choose_hostname-Keeps hosts h)
      (choose_hostname-IsExhausted hosts h (quality_hostnames-named rules))
