-- ===== src/Collector/Origins/Countries.antt =====
-- Which countries are announced as new.
use cftm.Base.{
  ℕ, ◌+◌, String, Bool, true, false, not, ◌||◌, ◌&&◌, ◌==◌, ◌≡◌, refl, ◌∙◌, ap, sym, List, [], ◌∷◌,
  exists_by, exists_by-map, exists_by-order_by, exists_by-merge_new, sum_by, eq_iff, arith,
  Bool-cases, inl, inr, if◌then◌else◌,
}
use cftm.Base.Text.{to_lower}
use cftm.Model.{Event}
use cftm.Model.Clock.{Time, Duration}
use cftm.Store.Origins.{
  RequestOrigin, unknown_country, origin_row, same_key, merge_origin, busier,
  replace_request_origins, request_origins,
}
use cftm.Collector.Origins.{
  World, State, Collected, is_new, new_events_from, new_country_events, known_countries,
  store_origins,
}

-- counts an event for the country
abbrev pub announces : String → Event → ℕ
announces c e = if e.to_state == c then 1 else 0

abbrev pub one : Bool → ℕ
one b = if b then 1 else 0

abbrev pub among : List RequestOrigin → String → Bool
among origins c = exists_by (λ o. o.country == c) origins

announced :
    (n s e : Bool) → (n && not s) ≡ true → 1 + one (n && (e && false)) ≡ one (n && (true && not s))
announced true true e h = absurd (ground arith)
announced true false true h = refl
announced true false false h = refl
announced false s e h = absurd (ground arith)

silent :
    (n s e : Bool) → (n && not s) ≡ false → one (n && (e && not s)) ≡ one (n && (true && not s))
silent true true true h = refl
silent true true false h = refl
silent true false e h = absurd (ground arith)
silent false s e h = refl

module _ (previous expected : String → Bool) (now : Time) (c : String) where
  abbrev fresh : Bool
  fresh = is_new previous expected c

  abbrev was_seen : List String → Bool
  was_seen seen = exists_by (λ s. s == c) seen

  abbrev announce : RequestOrigin → List String → Bool
  announce o seen = is_new previous expected o.country && not (exists_by (λ s. s == o.country) seen)

  announce-same :
      (o : RequestOrigin) (seen : List String)
      → (o.country == c) ≡ true
      → announce o seen ≡ (fresh && not (was_seen seen))
  announce-same o seen e =
      ap (λ d. is_new previous expected d && not (exists_by (λ s. s == d) seen))
        ((eq_iff o.country c).0 e)

  events_for :
      (origins : List RequestOrigin) (seen : List String)
      → sum_by (announces c) (new_events_from previous expected now seen origins)
        ≡ one
            (is_new previous expected c && (among origins c && not (exists_by (λ s. s == c) seen)))
  unfolding new_events_from sum_by exists_by
  events_for [] seen = none_of fresh (was_seen seen)
    where
      none_of : (n s : Bool) → 0 ≡ one (n && (false && not s))
      none_of true s = refl
      none_of false s = refl
  events_for (o ∷ os) seen = elim (Bool-cases (o.country == c)) [
    | inl e ↦ elim (Bool-cases (announce o seen)) [
      | inl a ↦
          rw (a, e, events_for os (o.country ∷ seen), e)
            (announced fresh (was_seen seen) (among os c) (sym (announce-same o seen e) ∙ a))
      | inr a ↦
          rw (a, e, events_for os seen)
            (silent fresh (was_seen seen) (among os c) (sym (announce-same o seen e) ∙ a))
    ]
    | inr e ↦ elim (Bool-cases (announce o seen)) [
      | inl a ↦ rw (a, e, events_for os (o.country ∷ seen), e) (omega arith)
      | inr a ↦ rw (a, e) (events_for os seen)
    ]
  ]

key-keeps :
    (c : String) (x y : RequestOrigin)
    → same_key y x ≡ true
    → ((merge_origin y x).country == c ≡ (y.country == c)) × ((x.country == c) ≡ (y.country == c))
unfolding same_key
key-keeps c x y h = (refl, ap (λ d. d == c) (sym ((eq_iff y.country x.country).0 (ground arith))))

-- the countries that are known after a collection was stored are those of its origins
known_countries-stored :
    (origins : List RequestOrigin) (c : String)
    → known_countries (replace_request_origins origins) c ≡ among origins c
unfolding known_countries replace_request_origins request_origins
known_countries-stored origins c =
    exists_by-order_by busier (λ o. o.country == c) _
    ∙ exists_by-merge_new same_key merge_origin (λ o. o.country == c) (key-keeps c) _
    ∙ exists_by-map (λ o. o.country == c) origin_row origins

event_count :
    (previous expected : String → Bool) (now : Time) (c : String) (origins : List RequestOrigin)
    → sum_by (announces c) (new_country_events expected previous now origins)
      ≡ one (
          not (c == "" || c == unknown_country)
          && not (previous c || expected (to_lower c))
          && among origins c)
unfolding new_country_events exists_by
event_count previous expected now c origins =
    events_for previous expected now c origins []
    ∙ ap
        (λ b.
          one (
            not (c == "" || c == unknown_country)
            && not (previous c || expected (to_lower c))
            && b))
        (and_true (among origins c))
  where
    and_true : (b : Bool) → (b && true) ≡ b
    and_true true = refl
    and_true false = refl

-- whether a collection finds the country among the origins that the one before it stored
abbrev pub is_remembered : World → List RequestOrigin → String → Bool
is_remembered w before c = w.reads_known && among before c

remembered_countries :
    (b : Bool) (rows before : List RequestOrigin) (c : String)
    → rows ≡ replace_request_origins before
    → (if b then known_countries rows else (λ d. false)) c ≡ (b && among before c)
remembered_countries true rows before c stored =
    ap (λ r. known_countries r c) stored ∙ known_countries-stored before c
remembered_countries false rows before c stored = refl

if_saved :
    (b n : Bool) (c : String) (done failed : Collected)
    → sum_by (announces c) done.events ≡ one n
    → failed.events ≡ []
    → sum_by (announces c) (if b then done else failed).events ≡ one (b && n)
unfolding sum_by
if_saved true n c done failed h e = h
if_saved false n c done failed h e = ap (sum_by (announces c)) e

-- Where the stored rows are those of the collection right before, the step that stores the origins
-- of a collection announces a country exactly once if these origins get stored, the country is known
-- by its code, is not expected, occurs among them and is not read back among those of the collection
-- right before, and otherwise not at all. So a country that an earlier collection stored and the one
-- right before lacks counts as new again, and so does each one if the stored rows cannot be read.
pub store_origins-announces :
    (w : World) (st : State) (before origins : List RequestOrigin) (effective : Duration)
    (now : Time) (errors : List String) (c : String)
    → st.rows ≡ replace_request_origins before
    → sum_by (announces c) (store_origins w st effective now origins errors).events
      ≡ one (
          w.saves
          && (not (c == "" || c == unknown_country)
              && not (is_remembered w before c || w.expected (to_lower c))
              && among origins c))
unfolding store_origins
store_origins-announces w st before origins effective now errors c stored =
    if_saved w.saves _ c _ _
      (event_count (if w.reads_known then known_countries st.rows else (λ d. false)) w.expected now
          c origins
        ∙ ap
            (λ b. one (
              not (c == "" || c == unknown_country)
              && not (b || w.expected (to_lower c))
              && among origins c))
            (remembered_countries w.reads_known st.rows before c stored))
      refl
