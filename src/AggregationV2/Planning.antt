-- ===== src/AggregationV2/Planning.antt =====
-- internal/aggregationv2/queue.go: `planLocked` plans what `EncodePrefix` packs, and leaves sound entries.
use mpudp.Prelude.{
  ℕ, ◌+◌, ◌≤◌, ◌<◌, ◌≡◌, refl, ap, ◌∙◌, List, [], ◌∷◌, Bool, true, false, ◌||◌, ltb, Bool-cases,
  arith, length, length-drop, ◌⊎◌, inl, inr,
}
use mpudp.FecV2.{Parameters, Fragment, descriptor_bytes}
use mpudp.FecV2.Packing.{Cursor, is_full, taken, plan}
use mpudp.FecV2.Packing.Consumed.{plan_part, plan_whole}
use mpudp.AggregationV2.{
  Limits, Entry, Plan, remaining, fresh_capacity, fragment_count, has_no_room, consumed,
  would_split_too_often, fragment_of, plan_from,
}

-- What holds of every queued entry.
pub record IsSound (p : Parameters) (l : Limits) (e : Entry) : Type 0 where
  pub small : length e.payload ≤ l.max_datagram_bytes
  pub unfinished : (e.offset < length e.payload) ⊎ ((length e.payload ≡ 0) × (e.offset ≡ 0))
  pub splits : e.fragments + fragment_count (remaining e) (fresh_capacity p) ≤ l.max_fragments
  pub fits : (length e.payload ≡ 0) ⊎ (1 ≤ fresh_capacity p)

-- The entries' IDs grow from `low` on.
abbrev pub IsOrdered : Parameters → Limits → ℕ → List Entry → Type 0
IsOrdered p l low [] = Unit
IsOrdered p l low (e ∷ es) = (low < e.id) × IsSound p l e × IsOrdered p l e.id es

abbrev pub from_here : ℕ → Cursor
from_here i = record { next = i; bytes = 0 }

module _ (p : Parameters) (max_fragments count used i : ℕ) (cursor : Cursor) (e : Entry)
    (es : List Entry) where
  abbrev pub rest_of_plan : Plan
  rest_of_plan =
      plan_from p max_fragments (count + 1) (used + descriptor_bytes + consumed p used e) (i + 1)
        (from_here (i + 1)) es

  pub plan_from_stop :
      (has_no_room p count used e || would_split_too_often p max_fragments used e) ≡ true
      → plan_from p max_fragments count used i cursor (e ∷ es)
        ≡ record { fragments = []; used = used; cursor = cursor; is_full = true }
  unfolding plan_from
  plan_from_stop h = rw h

  pub plan_from_part :
      (has_no_room p count used e || would_split_too_often p max_fragments used e) ≡ false
      → ltb (consumed p used e) (remaining e) ≡ true
      → plan_from p max_fragments count used i cursor (e ∷ es) ≡ record {
        fragments = fragment_of e ∷ [];
        used = used + descriptor_bytes + consumed p used e;
        cursor = record { next = i; bytes = consumed p used e };
        is_full = true;
      }
  unfolding plan_from
  plan_from_part h k = rw (h, k)

  pub plan_from_whole :
      (has_no_room p count used e || would_split_too_often p max_fragments used e) ≡ false
      → ltb (consumed p used e) (remaining e) ≡ false
      → plan_from p max_fragments count used i cursor (e ∷ es)
        ≡ record rest_of_plan { fragments = fragment_of e ∷ rest_of_plan.fragments }
  unfolding plan_from
  plan_from_whole h k = rw (h, k)

  -- The entry as `EncodePrefix` sees it.
  is_full_fragment : is_full p count used (fragment_of e) ≡ has_no_room p count used e
  unfolding is_full has_no_room
  is_full_fragment = rw (length-drop e.offset e.payload)

  pub taken_fragment : taken p used (fragment_of e) ≡ consumed p used e
  taken_fragment = rw (length-drop e.offset e.payload)

pub or_false : (a b : Bool) → (a || b) ≡ false → (a ≡ false) × (b ≡ false)
or_false a b h = (ground arith, ground arith)

-- `EncodePrefix` on the planned fragments ends at the planned cursor.
pub cursor-planned :
    (p : Parameters) (max_fragments count used i : ℕ) (es : List Entry)
    → (plan p count used i
        (from_here i)
        (plan_from p max_fragments count used i (from_here i) es).fragments).1
      ≡ (plan_from p max_fragments count used i (from_here i) es).cursor
cursor-planned p max_fragments count used i [] = unfold plan plan_from in refl
cursor-planned p max_fragments count used i (e ∷ es) =
    let c = from_here i in
    elim (Bool-cases (has_no_room p count used e || would_split_too_often p max_fragments used e)) [
      | inl h ↦ rw (plan_from_stop p max_fragments count used i c e es h) (unfold plan in refl)
      | inr h ↦
          let room = is_full_fragment p max_fragments count used i c e es ∙ (or_false _ _ h).0 in
          let same = taken_fragment p max_fragments count used i c e es in
          let len = length-drop e.offset e.payload in
          elim (Bool-cases (ltb (consumed p used e) (remaining e))) [
            | inl k ↦ rw (plan_from_part p max_fragments count used i c e es h k) (
                ap (λ (r : List Fragment × Cursor). r.1)
                  (plan_part p count used i c (fragment_of e) [] room (rw (same, len) k))
                ∙ ap (λ (n : ℕ). record { next = i; bytes = n }) same)
            | inr k ↦
                let more = (rest_of_plan p max_fragments count used i c e es).fragments in
                rw (plan_from_whole p max_fragments count used i c e es h k) (
                  ap (λ (r : List Fragment × Cursor). r.1)
                    (plan_whole p count used i c (fragment_of e) more room (rw (same, len) k))
                  ∙ ap
                      (λ (n : ℕ).
                        (plan p (count + 1) (used + descriptor_bytes + n) (i + 1)
                          (from_here (i + 1)) more).1)
                      same
                  ∙ cursor-planned p max_fragments (count + 1)
                      (used + descriptor_bytes + consumed p used e) (i + 1) es)
          ]
    ]
