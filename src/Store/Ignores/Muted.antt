-- ===== src/Store/Ignores/Muted.antt =====
-- Which findings are muted after muting and restoring one.
use cftm.Base.{
  String, Bool, true, false, not, ◌&&◌, ◌||◌, ◌≡◌, refl, ◌∙◌, ap, sym, List, [], ◌∷◌, ◌++◌, eq_iff,
  exists_by, exists_by-append, exists_by-map, exists_by-order_by, exists_by-filter_by, arith,
  if_split, if◌then◌else◌, Bool-cases, inl, inr, exists_by-true, exists_by_intro,
}
use text.Mathlib.TextPositions.{eq_refl}
use cftm.Model.Clock.{Time}
use cftm.Store.Ignores.{
  FindingRef, same_ref, is_ignored, Ignored, stored_ref, ignored_row, ignore_finding,
  restore_finding, ignored_findings, ignored_finding_set,
}

-- a row has the reference
abbrev pub is_muted : List Ignored → FindingRef → Bool
is_muted rows q = exists_by (λ i. same_ref i.ref q) rows

set_lookup :
    (rows : List Ignored) (q : FindingRef)
    → is_ignored (ignored_finding_set rows) q ≡ is_muted rows q
unfolding ignored_finding_set ignored_findings
set_lookup rows q =
    exists_by-map (λ r. same_ref r q) (λ i. i.ref) _
    ∙ exists_by-order_by _ (λ i. same_ref i.ref q) rows

same_ref_trans : (a b q : FindingRef) → same_ref a b ≡ true → same_ref a q ≡ same_ref b q
same_ref_trans a b q h =
    rw
      (
        (eq_iff a.code b.code).0 (ground arith),
        (eq_iff a.tunnel_id b.tunnel_id).0 (ground arith),
        (eq_iff a.hostname b.hostname).0 (ground arith),
      )
      refl

same_ref_right : (a b q : FindingRef) → same_ref a b ≡ true → same_ref q a ≡ same_ref q b
same_ref_right a b q h =
    rw
      (
        (eq_iff a.code b.code).0 (ground arith),
        (eq_iff a.tunnel_id b.tunnel_id).0 (ground arith),
        (eq_iff a.hostname b.hostname).0 (ground arith),
      )
      refl

same_ref_refl : (a : FindingRef) → same_ref a a ≡ true
same_ref_refl a = rw (eq_refl a.code, eq_refl a.tunnel_id, eq_refl a.hostname) refl

is_muted-ignore :
    (rows : List Ignored) (ref q : FindingRef) (message : String) (now : Time)
    → is_muted (ignore_finding rows ref message now) q
      ≡ (is_muted rows q || same_ref (stored_ref ref) q)
unfolding ignore_finding exists_by
is_muted-ignore rows ref q message now =
    if_split {A = List Ignored}
      (λ l. is_muted l q ≡ (is_muted rows q || same_ref (stored_ref ref) q))
      (exists_by (λ i. same_ref i.ref (stored_ref ref)) rows) rows
      (rows ++ (ignored_row ref message now ∷ []))
      (λ e.
        let (i, m, h) = exists_by-true (λ i. same_ref i.ref (stored_ref ref)) rows e in
        absorbed (same_ref (stored_ref ref) q) (is_muted rows q) (λ k.
          exists_by_intro (λ i. same_ref i.ref q) rows m
            (same_ref_trans i.ref (stored_ref ref) q h ∙ k)))
      (λ e.
        exists_by-append (λ i. same_ref i.ref q) rows (ignored_row ref message now ∷ [])
        ∙ ap (λ b. is_muted rows q || b) (last_one (same_ref (stored_ref ref) q)))
  where
    absorbed : (a b : Bool) → (a ≡ true → b ≡ true) → b ≡ (b || a)
    absorbed true b h = rw (h refl) refl
    absorbed false true h = refl
    absorbed false false h = refl

    last_one : (a : Bool) → (if a then true else false) ≡ a
    last_one true = refl
    last_one false = refl

kept_elsewhere :
    (s q i : FindingRef)
    → (not (same_ref i s) && same_ref i q) ≡ (not (same_ref s q) && same_ref i q)
kept_elsewhere s q i = elim (Bool-cases (same_ref i s)) [
  | inl e ↦ rw (e, same_ref_trans i s q e) (never (same_ref s q))
  | inr e ↦ elim (Bool-cases (same_ref s q)) [
    | inl k ↦
        ap (λ b. not b && same_ref i q) e
        ∙ (sym (same_ref_right s q i k) ∙ e)
        ∙ ap (λ b. not b && same_ref i q) (sym k)
    | inr k ↦ ap (λ b. not b && same_ref i q) (e ∙ sym k)
  ]
]
  where
    never : (a : Bool) → false ≡ (not a && a)
    never true = refl
    never false = refl

ignore_muted :
    (rows : List Ignored) (ref : FindingRef) (message : String) (now : Time)
    → is_muted rows (stored_ref ref) ≡ true
    → ignore_finding rows ref message now ≡ rows
unfolding ignore_finding
ignore_muted rows ref message now h =
    if_split {A = List Ignored} (λ l. l ≡ rows) (is_muted rows (stored_ref ref)) rows
      (rows ++ (ignored_row ref message now ∷ [])) (λ e. refl) (λ e. absurd (clash (sym h ∙ e)))
  where
    clash : true ≡ false → ⊥
    clash q = absurd (ground arith)

-- Muting a finding mutes its reference, with the hostname in lower case, and no other one; restoring
-- it lifts the muting of that reference and of no other one. Muting twice is muting once.
pub muted-ignore_restore :
    (rows : List Ignored) (ref q : FindingRef) (message : String) (now : Time)
    → (is_ignored (ignored_finding_set (ignore_finding rows ref message now)) q
        ≡ (is_ignored (ignored_finding_set rows) q || same_ref (stored_ref ref) q))
      × (is_ignored (ignored_finding_set (restore_finding rows ref)) q
          ≡ (not (same_ref (stored_ref ref) q) && is_ignored (ignored_finding_set rows) q))
      × (ignore_finding (ignore_finding rows ref message now) ref message now
          ≡ ignore_finding rows ref message now)
unfolding ignore_finding restore_finding
muted-ignore_restore rows ref q message now = (
  set_lookup _ q
      ∙ is_muted-ignore rows ref q message now
      ∙ ap (λ b. b || same_ref (stored_ref ref) q) (sym (set_lookup rows q)),
  set_lookup _ q
      ∙ exists_by-filter_by _ (λ i. same_ref i.ref q) (not (same_ref (stored_ref ref) q)) rows
          (λ i. kept_elsewhere (stored_ref ref) q i.ref)
      ∙ ap (λ b. not (same_ref (stored_ref ref) q) && b) (sym (set_lookup rows q)),
  ignore_muted (ignore_finding rows ref message now) ref message now (
      is_muted-ignore rows ref (stored_ref ref) message now
      ∙ ap (λ b. is_muted rows (stored_ref ref) || b) (same_ref_refl (stored_ref ref))
      ∙ or_true (is_muted rows (stored_ref ref))),
)
  where
    or_true : (b : Bool) → (b || true) ≡ true
    or_true true = refl
    or_true false = refl
