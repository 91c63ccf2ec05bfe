-- ===== src/Store/Ignores.antt =====
-- internal/store/ignores.go: the findings that the operator muted, as rows in the order of insertion.
pub mod Muted
mod Tests
use cftm.Base.{
  String, Bool, not, ◌||◌, ◌&&◌, ◌==◌, nat_eq, ltb, List, [], ◌∷◌, ◌++◌, map, exists_by, filter_by,
  order_by, text_le, if◌then◌else◌,
}
use cftm.Base.Text.{to_lower}
use cftm.Model.Clock.{Time}
use cftm.Store.Tables.{stamp}

pub record FindingRef : Type 0 where
  pub code : String
  pub tunnel_id : String
  pub hostname : String

-- FindingRef.Valid
unfoldable pub is_valid : FindingRef → Bool
is_valid r = not (r.code == "")

abbrev pub same_ref : FindingRef → FindingRef → Bool
same_ref a b = a.code == b.code && a.tunnel_id == b.tunnel_id && a.hostname == b.hostname

-- a lookup in the set of ignored findings
abbrev pub is_ignored : List FindingRef → FindingRef → Bool
is_ignored ignored ref = exists_by (λ i. same_ref i ref) ignored

-- IgnoredFinding
pub record Ignored : Type 0 where
  pub ref : FindingRef
  pub message : String
  pub created_at : Time

-- the key of the row of a finding
abbrev pub stored_ref : FindingRef → FindingRef
stored_ref r = record r { hostname = to_lower r.hostname }

abbrev pub ignored_row : FindingRef → String → Time → Ignored
ignored_row ref message now = record {
  ref = stored_ref ref;
  message = message;
  created_at = stamp now;
}

-- IgnoreFinding: a key that is there stays as it is
unfoldable pub ignore_finding : List Ignored → FindingRef → String → Time → List Ignored
ignore_finding rows ref message now =
    if exists_by (λ i. same_ref i.ref (stored_ref ref)) rows
    then rows
    else rows ++ (ignored_row ref message now ∷ [])

-- RestoreFinding
unfoldable pub restore_finding : List Ignored → FindingRef → List Ignored
restore_finding rows ref = filter_by (λ i. not (same_ref i.ref (stored_ref ref))) rows

-- IgnoredFindings: ORDER BY created_at DESC, code
unfoldable pub ignored_findings : List Ignored → List Ignored
ignored_findings rows =
    order_by
      (λ a b.
        ltb b.created_at a.created_at
        || nat_eq a.created_at b.created_at && text_le a.ref.code b.ref.code)
      rows

-- IgnoredFindingSet
unfoldable pub ignored_finding_set : List Ignored → List FindingRef
ignored_finding_set rows = map (λ i. i.ref) (ignored_findings rows)
