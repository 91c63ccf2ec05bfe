-- ===== src/Store/Inventory/Read.antt =====
-- What the inventory answers after it was replaced.
use cftm.Base.{
  Bool, true, false, ◌||◌, ◌≡◌, refl, ◌∙◌, inl, inr, ap, sym, some, List, [], ◌∷◌, ◌++◌, ◌==◌,
  exists_by, exists_by-append, exists_by-order_by, Bool-cases, Option-cases, if◌then◌else◌, text_le,
}
use cftm.Model.{AccessApp}
use cftm.Model.Clock.{Time}
use cftm.Store.Inventory.{Inventory, app_row, insert_apps, replace_access_apps, access_apps}
use mathlib.Core.Option.{some-injective, none-ne-some}

module _ (p : AccessApp → Bool) (now : Time)
    (steady : (a : AccessApp) → p (app_row now a) ≡ p a) where
  -- the rows that are inserted pass a test as the applications do, where the test does not read when
  -- a row was seen
  exists_by-insert_apps :
      (rows apps out : List AccessApp)
      → insert_apps now rows apps ≡ some out
      → exists_by p out ≡ (exists_by p rows || exists_by p apps)
  unfolding insert_apps exists_by
  exists_by-insert_apps rows [] out h =
      rw (some-injective out rows (sym h)) (or_false (exists_by p rows))
    where
      or_false : (b : Bool) → b ≡ (b || false)
      or_false true = refl
      or_false false = refl
  exists_by-insert_apps rows (a ∷ apps) out h =
      elim (Bool-cases (exists_by (λ r. r.id == a.id) rows)) [
        | inl e ↦ absurd (none-ne-some out (rw (e, if◌then◌else◌) at h))
        | inr e ↦
            exists_by-insert_apps (rows ++ (app_row now a ∷ [])) apps out
              (rw (e, if◌then◌else◌) at h)
            ∙ rw (exists_by-append p rows (app_row now a ∷ []), steady a)
                (regroup (exists_by p rows) (p a) (exists_by p apps))
      ]
    where
      regroup :
          (a b c : Bool)
          → ((a || (if b then true else false)) || c) ≡ (a || (if b then true else c))
      regroup true b c = refl
      regroup false true c = refl
      regroup false false c = refl

  -- after a replacement that succeeds, the inventory that is read passes a test as the applications
  -- that were given do
  pub exists_by-access_apps :
      (db db' : Inventory) (apps : List AccessApp)
      → replace_access_apps db apps now ≡ some db'
      → exists_by p (access_apps db') ≡ exists_by p apps
  unfolding replace_access_apps access_apps exists_by
  exists_by-access_apps db db' apps h =
      exists_by-order_by (λ a b. text_le a.name b.name) p db'.apps
      ∙ elim (Option-cases (insert_apps now [] apps)) [
        | inl e ↦ absurd (none-ne-some db' (rw (e, replace_access_apps) at h))
        | inr (rows, e) ↦
            rw (← ap (λ d. d.apps) (some-injective _ _ (rw (e, replace_access_apps) at h)))
              (exists_by-insert_apps [] apps rows e)
      ]
