-- ===== src/Collector/Origins/Partial.antt =====
-- What is stored when one of the two sources fails.
use cftm.Base.{
  String, Bool, true, false, not, ◌&&◌, ◌==◌, ◌≡◌, refl, ◌∙◌, ap, sym, List, [], ◌∷◌, ◌++◌,
  exists_by, length, nat_eq, exists_by-map, exists_by_none, exists_by-merge_new, eq_iff, arith,
  if_split, if◌then◌else◌, merge_into, merge_all,
}
use cftm.Model.{IngressRule}
use cftm.Model.Clock.{Time, Duration, ago}
use cftm.Store.Origins.{
  RequestOrigin, origin_row, same_key, same_country, merge_origin, replace_request_origins,
  origin_source_http,
}
use cftm.Collector.Capabilities.{Capabilities, CallError, failed, answered}
use cftm.Collector.Origins.Http.{HttpWorld, served_hostnames, HttpOrigins, http_origins, from_zones}
use cftm.Collector.Origins.{
  World, State, Collected, LoginGroup, login_entry, login_entries, login_origins, store_origins,
  join_sources, collect_request_origins,
}

abbrev pub is_http : RequestOrigin → Bool
is_http o = o.source == origin_source_http

-- both tests fail where neither may hold
neither : (a b : Bool) → (if a then true else b) ≡ false → (a ≡ false) × (b ≡ false)
neither true b h = absurd (ground arith)
neither false b h = (refl, h)

module _ {ℓ} {A : Type ℓ} (same : A → A → Bool) (merge : A → A → A) (p : A → Bool)
    (keeps : (x y : A) → p (merge y x) ≡ p y) where
  merge_into_none :
      (x : A) (ys : List A)
      → p x ≡ false
      → exists_by p ys ≡ false
      → exists_by p (merge_into same merge x ys) ≡ false
  unfolding exists_by merge_into
  merge_into_none x [] h k = rw h refl
  merge_into_none x (y ∷ ys) h k =
      let (a, b) = neither (p y) (exists_by p ys) k in
      if_split (λ rows. exists_by p rows ≡ false) (same y x) _ _ (λ e. rw (keeps x y) k)
        (λ e. rw a (merge_into_none x ys h b))

  merge_all_none :
      (rows xs : List A)
      → exists_by p rows ≡ false
      → exists_by p xs ≡ false
      → exists_by p (merge_all same merge rows xs) ≡ false
  unfolding exists_by merge_all
  merge_all_none rows [] h k = h
  merge_all_none rows (x ∷ xs) h k =
      let (a, b) = neither (p x) (exists_by p xs) k in
      merge_all_none (merge_into same merge x rows) xs (merge_into_none x rows a h) b

login_entries_none :
    (from now : Time) (groups : List LoginGroup)
    → exists_by is_http (login_entries from now groups) ≡ false
unfolding login_entries login_entry exists_by
login_entries_none from now groups =
    merge_all_none same_country merge_origin is_http (λ x y. refl) [] _ refl
      (exists_by-map is_http (login_entry from now) groups ∙ exists_by_none _ groups (λ g m. refl))

login_entries-nonempty :
    (from now : Time) (g : LoginGroup) (groups : List LoginGroup)
    → nat_eq (length (login_entries from now (g ∷ groups))) 0 ≡ false
unfolding login_entries exists_by
login_entries-nonempty from now g groups =
    found (login_entries from now (g ∷ groups))
      (exists_by-merge_new same_country merge_origin (λ o. true) (λ x y h. (refl, refl)) _ ∙ refl)
  where
    found :
        (os : List RequestOrigin) → exists_by (λ o. true) os ≡ true → nat_eq (length os) 0 ≡ false
    found [] h = sym h
    found (o ∷ os) h = ground arith

source-keeps :
    (x y : RequestOrigin)
    → same_key y x ≡ true
    → (is_http (merge_origin y x) ≡ is_http y) × (is_http x ≡ is_http y)
unfolding same_key
source-keeps x y h =
    (refl, ap (λ d. d == origin_source_http) (sym ((eq_iff y.source x.source).0 (ground arith))))

stored-http :
    (origins : List RequestOrigin)
    → exists_by is_http (replace_request_origins origins) ≡ exists_by is_http origins
unfolding replace_request_origins
stored-http origins =
    exists_by-merge_new same_key merge_origin is_http source-keeps _
    ∙ exists_by-map is_http origin_row origins

store_origins-rows :
    (w : World) (st : State) (effective : Duration) (now : Time) (origins : List RequestOrigin)
    (errors : List String)
    → w.saves ≡ true
    → (store_origins w st effective now origins errors).state.rows ≡ replace_request_origins origins
unfolding store_origins
store_origins-rows w st effective now origins errors h =
    if_split {A = Collected} (λ c. c.state.rows ≡ replace_request_origins origins) w.saves _ _
      (λ e. refl) (λ e. absurd (ground arith))

join_sources-rows :
    (w : World) (st : State) (window : Duration) (now : Time) (http : HttpOrigins) (g : LoginGroup)
    (groups : List LoginGroup)
    → http.origins ≡ []
    → w.logins ≡ answered (g ∷ groups)
    → w.saves ≡ true
    → exists_by is_http (join_sources w st window now http).state.rows ≡ false
unfolding join_sources login_origins
join_sources-rows w st window now http g groups none h up =
    if_split {A = Collected} (λ c. exists_by is_http c.state.rows ≡ false)
      (nat_eq (length (http.origins ++ (login_origins window now w.logins).0)) 0
        && not (nat_eq (length (http.errors ++ (login_origins window now w.logins).1)) 0))
      _ _
      (λ e. absurd (
        clash _ _
          (ap (λ os. nat_eq (length os) 0) collected
            ∙ login_entries-nonempty (ago now window) now g groups)
          e))
      (λ e.
        ap (exists_by is_http) (store_origins-rows w _ _ now _ _ up)
        ∙ stored-http _
        ∙ ap (exists_by is_http) collected
        ∙ login_entries_none (ago now window) now (g ∷ groups))
  where
    collected :
        http.origins ++ (login_origins window now w.logins).0
        ≡ login_entries (ago now window) now (g ∷ groups)
    collected =
        ap (λ l. l ++ (login_origins window now w.logins).0) none
        ∙ ap (λ c. (login_origins window now c).0) h

    clash : (a b : Bool) → a ≡ false → (a && b) ≡ true → ⊥
    clash true b p q = absurd (ground arith)
    clash false b p q = absurd (ground arith)

http_origins-failed :
    (w : HttpWorld) (caps : Capabilities) (rules : List IngressRule) (window : Duration)
    (now : Time) (e : CallError)
    → w.zones ≡ failed e
    → (http_origins w caps rules window now).origins ≡ []
unfolding http_origins from_zones
http_origins-failed w caps rules window now e h =
    if_split {A = HttpOrigins} (λ o. o.origins ≡ []) (nat_eq (length (served_hostnames rules)) 0) _
      _ (λ k. refl)
      (λ k. ap (λ c. (from_zones w caps (served_hostnames rules) window now c).origins) h)

-- When the zones cannot be listed and the login analytics answer at least one group, a collection
-- that saves leaves no row of the HTTP analytics in the table, whatever rows it held before.
pub collect_partial :
    (w : World) (st : State) (rules : List IngressRule) (window : Duration) (now : Time)
    (e : CallError) (g : LoginGroup) (groups : List LoginGroup)
    → w.http.zones ≡ failed e
    → w.logins ≡ answered (g ∷ groups)
    → w.saves ≡ true
    → exists_by is_http (collect_request_origins w st rules window now).state.rows ≡ false
unfolding collect_request_origins
collect_partial w st rules window now e g groups h k up =
    join_sources-rows w st window now _ g groups
      (http_origins-failed w.http st.capabilities rules window now e h) k up
