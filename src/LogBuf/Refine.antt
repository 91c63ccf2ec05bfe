-- ===== src/LogBuf/Refine.antt =====
-- The ring buffer is a bounded queue that forgets its oldest record first.
use mathlib.Core.List.{append_assoc, append-nil}
use native.Mathlib.Nat.{mod-eq_of_lt, mod_self, add-mod_right}
use native.Mathlib.Numerals.{add-one}
use native.Mathlib.Decide.{dec_lt}
use cftm.Base.{
  ℕ, suc, ◌+◌, ◌-◌, ◌%◌, ◌≤◌, ◌<◌, ◌≡◌, ◌⊎◌, refl, ap, ◌∙◌, sym, List, [], ◌∷◌, ◌++◌, arith, inl,
  inr, length, set, take, drop, length-set, length-append, length-replicate, take_all, drop_all,
  drop-set_lt, take-suc-set, drop-get, false, ltb, leb, if◌then◌else◌, lt→ltb, drop-drop,
  drop-append_le, min, length-take, length-drop,
}
use cftm.LogBuf.{Entry, Buffer, new, add, snapshot, blank}

-- The representation invariant: the storage has `capacity` slots, and the buffer starts at slot 0
-- until it is full.
pub record IsValid (b : Buffer) : Type 0 where
  pub positive : 0 < b.capacity
  pub storage : length b.entries ≡ b.capacity
  pub start_in : b.start < b.capacity
  pub count_in : b.count ≤ b.capacity
  pub start_full : (b.start ≡ 0) ⊎ (b.count ≡ b.capacity)

pub new-IsValid : (asked : ℕ) → IsValid (new asked)
unfolding new
new-IsValid asked = ground (arith, length-replicate asked blank, length-replicate 200 blank)

-- Adding a record keeps a buffer valid: its storage has the full capacity, start and count lie within
-- it, and the start moves only when the buffer is full.
pub add-IsValid : (b : Buffer) (e : Entry) → IsValid b → IsValid (add b e)
unfolding add
add-IsValid b e v = ground (arith, length-set b.entries ((b.start + b.count) % b.capacity) e)

snapshot_filling : (b : Buffer) → IsValid b → b.start ≡ 0 → snapshot b ≡ take b.count b.entries
unfolding snapshot
snapshot_filling b v z = rw (z, first, none_left) (append-nil (take b.count b.entries))
  where
    first : min (0 + b.count) b.capacity - 0 ≡ b.count
    first = omega arith

    none_left : b.count - b.count ≡ 0
    none_left = omega arith

snapshot_full :
    (b : Buffer)
    → IsValid b
    → b.count ≡ b.capacity
    → snapshot b ≡ drop b.start b.entries ++ take b.start b.entries
unfolding snapshot
snapshot_full b v z =
    rw (first, rest, take_all (b.capacity - b.start) (drop b.start b.entries) fits)
  where
    first : min (b.start + b.count) b.capacity - b.start ≡ b.capacity - b.start
    first = omega arith

    rest : b.count - (b.capacity - b.start) ≡ b.start
    rest = omega arith

    fits : length (drop b.start b.entries) ≤ b.capacity - b.start
    fits = omega (arith, length-drop b.start b.entries)

pub length-snapshot : (b : Buffer) → IsValid b → length (snapshot b) ≡ b.count
length-snapshot b v = elim v.start_full [
  | inl z ↦ rw (snapshot_filling b v z) (omega (arith, length-take b.count b.entries))
  | inr f ↦ rw (snapshot_full b v f) (
      omega (
        arith,
        length-append (drop b.start b.entries) (take b.start b.entries),
        length-take b.start b.entries,
        length-drop b.start b.entries,
      ))
]

-- what `add` writes while there is room
add_room :
    (b : Buffer) (e : Entry)
    → IsValid b
    → b.count < b.capacity
    → add b e ≡ record b { entries = set b.entries b.count e; count = suc b.count }
unfolding add
add_room b e v h = rw (lt→ltb b.count b.capacity h, slot, add-one)
  where
    z : b.start ≡ 0
    z = omega arith

    slot : (b.start + b.count) % b.capacity ≡ b.count
    slot = ap (λ k. k % b.capacity) (omega arith) ∙ mod-eq_of_lt h

-- what `add` writes when the buffer is full
add_wrap :
    (b : Buffer) (e : Entry)
    → IsValid b
    → b.count ≡ b.capacity
    → add b e ≡ record b { entries = set b.entries b.start e; start = (b.start + 1) % b.capacity }
unfolding add
add_wrap b e v h = rw (full, slot)
  where
    full : ltb b.count b.capacity ≡ false
    full = ground arith

    slot : (b.start + b.count) % b.capacity ≡ b.start
    slot = rw h (add-mod_right b.start b.capacity ∙ mod-eq_of_lt v.start_in)

-- While there is room, a record goes to the end.
add_filling :
    (b : Buffer) (e : Entry)
    → IsValid b
    → b.count < b.capacity
    → snapshot (add b e) ≡ snapshot b ++ (e ∷ [])
add_filling b e v h =
    snapshot_filling (add b e) (add-IsValid b e v) start_zero
    ∙ (rw (add_room b e v h) (take-suc-set b.entries b.count e (omega arith))
        ∙ ap (λ q. q ++ (e ∷ [])) (sym (snapshot_filling b v z)))
  where
    z : b.start ≡ 0
    z = omega arith

    start_zero : (add b e).start ≡ 0
    start_zero = rw (add_room b e v h) z

-- When it is full, the oldest record goes and the new one stands last.
add_full :
    (b : Buffer) (e : Entry)
    → IsValid b
    → b.count ≡ b.capacity
    → snapshot (add b e) ≡ drop 1 (snapshot b) ++ (e ∷ [])
add_full b e v h =
    snapshot_full (add b e) (add-IsValid b e v) still_full
    ∙ (rw (add_wrap b e v h) (turn (dec_lt (b.start + 1) b.capacity))
        ∙ ap (λ q. drop 1 q ++ (e ∷ [])) (sym (snapshot_full b v h)))
  where
    still_full : (add b e).count ≡ (add b e).capacity
    still_full = rw (add_wrap b e v h) h

    slots : b.start < length b.entries
    slots = omega arith

    oldest :
        drop 1 (drop b.start b.entries ++ take b.start b.entries)
        ≡ drop (suc b.start) b.entries ++ take b.start b.entries
    oldest = rw (drop-get b.entries b.start e slots)

    turn :
        Dec (b.start + 1 < b.capacity)
        → drop ((b.start + 1) % b.capacity) (set b.entries b.start e)
            ++ take ((b.start + 1) % b.capacity) (set b.entries b.start e)
          ≡ drop 1 (drop b.start b.entries ++ take b.start b.entries) ++ (e ∷ [])
    turn (yes p) =
        rw
          (
            mod-eq_of_lt p,
            add-one,
            drop-set_lt b.entries b.start (suc b.start) e (omega arith),
            take-suc-set b.entries b.start e slots,
            oldest,
          )
          (sym (append_assoc (drop (suc b.start) b.entries) (take b.start b.entries) (e ∷ [])))
    turn (no p) =
        rw (round, oldest, drop_all (suc b.start) b.entries (omega arith))
          (append-nil (set b.entries b.start e)
            ∙ (sym (take_all (suc b.start) (set b.entries b.start e) whole)
                ∙ take-suc-set b.entries b.start e slots))
      where
        round : (b.start + 1) % b.capacity ≡ 0
        round = ap (λ k. k % b.capacity) (omega arith) ∙ mod_self b.capacity

        whole : length (set b.entries b.start e) ≤ suc b.start
        whole = omega (arith, length-set b.entries b.start e)

unfoldable pub add_all : Buffer → List Entry → Buffer
add_all b [] = b
add_all b (e ∷ es) = add_all (add b e) es

pub add_all-IsValid : (b : Buffer) (es : List Entry) → IsValid b → IsValid (add_all b es)
unfolding add_all
add_all-IsValid b [] v = v
add_all-IsValid b (e ∷ es) v = add_all-IsValid (add b e) es (add-IsValid b e v)

capacity-add : (b : Buffer) (e : Entry) → (add b e).capacity ≡ b.capacity
unfolding add
capacity-add b e = ground arith

-- one record, on both branches of `add`
snapshot-add :
    (b : Buffer) (e : Entry)
    → IsValid b
    → snapshot (add b e) ≡ drop (length (snapshot b) + 1 - b.capacity) (snapshot b ++ (e ∷ []))
snapshot-add b e v = elim (dec_lt b.count b.capacity) [
  | yes p ↦ rw (room p) (add_filling b e v p)
  | no p ↦
      rw (full p, drop-append_le 1 (snapshot b) (e ∷ []) (omega (arith, length-snapshot b v)))
        (add_full b e v (omega arith))
]
  where
    room : b.count < b.capacity → length (snapshot b) + 1 - b.capacity ≡ 0
    room p = omega (arith, length-snapshot b v)

    full : ¬ (b.count < b.capacity) → length (snapshot b) + 1 - b.capacity ≡ 1
    full p = omega (arith, length-snapshot b v)

-- keeping the last `cap` twice is keeping them once
drop_twice :
    (cap : ℕ) (q : List Entry) (e : Entry) (es : List Entry)
    → let kept = drop (length q + 1 - cap) (q ++ (e ∷ [])) in
      drop (length kept + length es - cap) (kept ++ es)
      ≡ drop (length q + length (e ∷ es) - cap) (q ++ (e ∷ es))
drop_twice cap q e es =
    let k : ℕ = length q + 1 - cap in
    let kept : List Entry = drop k (q ++ (e ∷ [])) in
    rw
      (
        ← drop-append_le k (q ++ (e ∷ [])) es (omega (arith, length-append q (e ∷ []))),
        drop-drop (length kept + length es - cap) k ((q ++ (e ∷ [])) ++ es),
        append_assoc q (e ∷ []) es,
      )
      (ap (λ n. drop n (q ++ (e ∷ es))) (total k kept refl refl))
  where
    total :
        (k : ℕ) (kept : List Entry)
        → kept ≡ drop k (q ++ (e ∷ []))
        → k ≡ length q + 1 - cap
        → k + (length kept + length es - cap) ≡ length q + length (e ∷ es) - cap
    total k kept h j =
        omega (arith, ap length h, length-drop k (q ++ (e ∷ [])), length-append q (e ∷ []))

-- From a valid buffer, any records added in order leave the last `capacity` of what it held and
-- of what was added, oldest first.
pub snapshot-add_all :
    (b : Buffer) (es : List Entry)
    → IsValid b
    → snapshot (add_all b es)
      ≡ drop (length (snapshot b) + length es - b.capacity) (snapshot b ++ es)
unfolding add_all
snapshot-add_all b [] v = rw (none_over, append-nil (snapshot b))
  where
    none_over : length (snapshot b) + length {A = Entry} [] - b.capacity ≡ 0
    none_over = omega (arith, length-snapshot b v)
snapshot-add_all b (e ∷ es) v =
    snapshot-add_all (add b e) es (add-IsValid b e v)
    ∙ rw (snapshot-add b e v, capacity-add b e) (drop_twice b.capacity (snapshot b) e es)

snapshot-new : (asked : ℕ) → snapshot (new asked) ≡ []
unfolding new
snapshot-new asked = snapshot_filling (new asked) (new-IsValid asked) refl

-- A buffer made for `asked` records shows the last `asked` of the records added to it, oldest
-- first, or the last 200 if `asked` is 0.
pub keeps_last :
    (asked : ℕ) (es : List Entry)
    → snapshot (add_all (new asked) es) ≡ drop (length es - (if leb asked 0 then 200 else asked)) es
keeps_last asked es =
    snapshot-add_all (new asked) es (new-IsValid asked)
    ∙ rw (snapshot-new asked, capacity-new) (ap (λ k. drop k es) (omega arith))
  where
    capacity-new : (new asked).capacity ≡ (if leb asked 0 then 200 else asked)
    capacity-new = unfold new in refl
