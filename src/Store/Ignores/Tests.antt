-- ===== src/Store/Ignores/Tests.antt =====
-- Runs of muting and restoring a finding.
use cftm.Base.{not, ◌&&◌, ◌||◌, ◌*◌, ◌≡◌, [], ◌∷◌}
use cftm.Model.Clock.{second}
use cftm.Store.Ignores.{
  FindingRef, Ignored, same_ref, is_ignored, stored_ref, ignore_finding, restore_finding,
  ignored_finding_set,
}
use cftm.Store.Ignores.Muted.{muted-ignore_restore}

abbrev gap : FindingRef
gap = record { code = "access_unprotected"; tunnel_id = "t1"; hostname = "WWW.example.com" }

abbrev other : Ignored
other = record {
  ref = record { code = "flapping"; tunnel_id = "t1"; hostname = "" };
  message = "";
  created_at = 5 * second;
}

muted-ignore_restore_example :
    (is_ignored
        (ignored_finding_set (ignore_finding (other ∷ []) gap "public" (9 * second)))
        (stored_ref gap)
      ≡ (is_ignored (ignored_finding_set (other ∷ [])) (stored_ref gap)
          || same_ref (stored_ref gap) (stored_ref gap)))
    × (is_ignored (ignored_finding_set (restore_finding (other ∷ []) gap)) (stored_ref gap) ≡ (
        not (same_ref (stored_ref gap) (stored_ref gap))
        && is_ignored (ignored_finding_set (other ∷ [])) (stored_ref gap)))
    × (ignore_finding
          (ignore_finding (other ∷ []) gap "public" (9 * second))
          gap
          "public"
          (9 * second)
        ≡ ignore_finding (other ∷ []) gap "public" (9 * second))
muted-ignore_restore_example =
    muted-ignore_restore (other ∷ []) gap (stored_ref gap) "public" (9 * second)
