-- ===== src/AggregationV2/Committing.antt =====
-- internal/aggregationv2/queue.go: what is left when a sealed group's fragments leave the queue.
use mpudp.Prelude.{
  ℕ, zero, suc, ◌+◌, ◌-◌, ◌≤◌, ◌<◌, ◌≡◌, refl, sym, ap, ◌∙◌, List, [], ◌∷◌, true, ◌==◌, Bool-cases,
  arith, length, length-set, length-drop, set, drop, ◌⊎◌, inl, inr,
}
use mpudp.FecV2.Packing.{Cursor}
use mpudp.AggregationV2.{Scope, Entry, State, at, entries, queued}
use mpudp.AggregationV2.Queue.{drop_heads, advance_head, commit}
use mpudp.AggregationV2.Slots.{entries-set_head, length-entries}
use mpudp.AggregationV2.Planning.{IsOrdered}
use mpudp.AggregationV2.Leaving.{advanced, left}
use mpudp.AggregationV2.Validity.{
  bytes_of, AreBelow, IsValid, IsKept, HasLeft, queued-suc, drop_heads-HasLeft,
}

left-drop : (n b : ℕ) (es : List Entry) → left n b es ≡ left 0 b (drop n es)
left-drop zero b es = refl
left-drop (suc n) b [] = refl
left-drop (suc n) b (e ∷ es) = left-drop n b es

next_head : Entry → ℕ → Entry
next_head e n = record e { offset = e.offset + n; fragments = e.fragments + 1 }

left_zero : (es : List Entry) (b : ℕ) → (b == 0) ≡ true → left 0 b es ≡ es
left_zero [] b z = refl
left_zero (x ∷ es) b z = rw z

-- The write to the head after the drops leaves the planned rest.
advance_head-queued :
    (q : State) (bytes : ℕ)
    → IsValid q
    → (bytes ≡ 0) ⊎ (1 ≤ q.count)
    → queued (advance_head q bytes) ≡ left 0 bytes (queued q)
unfolding advance_head next_head
advance_head-queued q bytes v h = elim (Bool-cases (bytes == 0)) [
  | inl z ↦ rw z (sym (left_zero (queued q) bytes z))
  | inr z ↦
      let first = at q.ring q.head 0 in
      let e : q.count ≡ suc (q.count - 1) = ground arith in
      let new : advanced first bytes ≡ next_head first bytes = rw z in
      rw z (
        ap (entries (set q.ring q.head (next_head first bytes)) q.head 0) e
        ∙ entries-set_head q.ring q.head (q.count - 1) (next_head first bytes)
            (omega (arith, v.count_in)) v.head_in
        ∙ ap (λ (x : Entry). x ∷ entries q.ring q.head 1 (q.count - 1)) (sym new)
        ∙ sym (ap (left 0 bytes) (queued-suc q (q.count - 1) e)))
]

IsKept-refl : (q : State) → IsKept q q
IsKept-refl q = record {
  same_limits = refl;
  same_epoch = refl;
  same_datagram = refl;
  same_group = refl;
}

-- Neither the payloads nor the IDs change.
left-same :
    (b : ℕ) (es : List Entry) (next : ℕ)
    → (bytes_of (left 0 b es) ≡ bytes_of es) × (AreBelow next es → AreBelow next (left 0 b es))
left-same b [] next = (refl, λ h. h)
left-same b (e ∷ es) next = elim (Bool-cases (b == 0)) [
  | inl z ↦ rw z (refl, λ h. h)
  | inr z ↦ rw z (refl, λ h. h)
]

advance_head-same :
    (q : State) (bytes : ℕ)
    → (let q' = advance_head q bytes in
        IsKept q q'
        × (length q'.ring ≡ length q.ring)
        × (q'.count ≡ q.count)
        × (q'.head ≡ q.head)
        × (q'.retained_bytes ≡ q.retained_bytes)
        × (q'.is_closed ≡ q.is_closed))
unfolding advance_head next_head
advance_head-same q bytes = elim (Bool-cases (bytes == 0)) [
  | inl z ↦ rw z (IsKept-refl q, refl, refl, refl, refl, refl)
  | inr z ↦ rw z (
    record { same_limits = refl; same_epoch = refl; same_datagram = refl; same_group = refl },
    length-set q.ring q.head (next_head (at q.ring q.head 0) bytes),
    refl,
    refl,
    refl,
    refl,
  )
]

-- `advance_head` keeps a valid queue valid, where the rest is sound.
advance_head-HasLeft :
    (q : State) (bytes : ℕ)
    → IsValid q
    → (bytes ≡ 0) ⊎ (1 ≤ q.count)
    → IsOrdered q.epoch.parameters q.limits 0 (left 0 bytes (queued q))
    → HasLeft q (advance_head q bytes) (left 0 bytes (queued q))
advance_head-HasLeft q bytes v h o =
    let holds = advance_head-queued q bytes v h in
    let (bytes_same, below_same) = left-same bytes (queued q) q.next_datagram_id in
    let (k, len, c, hd, r, op) = advance_head-same q bytes in
    record {
      valid = record {
        head_in = rw (len, hd) v.head_in;
        count_in = rw (len, c) v.count_in;
        retained = r ∙ v.retained ∙ sym bytes_same ∙ sym (ap bytes_of holds);
        retained_in = rw (r, k.same_limits) v.retained_in;
        bytes_range = rw k.same_limits v.bytes_range;
        accepted = rw k.same_epoch v.accepted;
        datagrams_fit = rw (k.same_limits, k.same_epoch) v.datagrams_fit;
        ordered = rw (holds, k.same_limits, k.same_epoch) o;
        below = rw (holds, k.same_datagram) (below_same v.below);
        id_range = rw k.same_datagram v.id_range;
        is_open = op ∙ v.is_open;
      };
      kept = k;
      holds = holds;
    }

module _ {S : Type 0} (scope : Scope S) where
  -- `commit` leaves the entries behind the cursor.
  pub commit-HasLeft :
      (s : S) (q : State) (now : ℕ) (c : Cursor)
      → IsValid q
      → c.next ≤ q.count
      → (c.next ≡ q.count) ⊎ (c.next < q.count)
      → (c.next ≡ q.count → c.bytes ≡ 0)
      → IsOrdered q.epoch.parameters q.limits 0 (left c.next c.bytes (queued q))
      → IsValid (commit scope s q now c).1
        × (queued (commit scope s q now c).1 ≡ left c.next c.bytes (queued q))
  unfolding commit
  commit-HasLeft s q now c v h split at_end o =
      let x = drop_heads-HasLeft scope c.next s q v h in
      let q' = (drop_heads scope c.next (s, q)).1 in
      let rest : left 0 c.bytes (queued q') ≡ left c.next c.bytes (queued q) =
        ap (left 0 c.bytes) x.holds ∙ sym (left-drop c.next c.bytes (queued q)) in
      let size : q'.count ≡ q.count - c.next = omega (
        arith,
        ap length x.holds,
        length-entries q'.ring q'.head 0 q'.count,
        length-entries q.ring q.head 0 q.count,
        length-drop c.next (queued q),
      ) in
      let room : (c.bytes ≡ 0) ⊎ (1 ≤ q'.count) = elim split [
        | inl e ↦ inl (at_end e)
        | inr lt ↦ inr (omega (arith, size))
      ] in
      let y =
        advance_head-HasLeft q' c.bytes x.valid room
          (rw (rest, x.kept.same_limits, x.kept.same_epoch) o) in
      let z = y.valid in
      (
        record {
          head_in = z.head_in;
          count_in = z.count_in;
          retained = z.retained;
          retained_in = z.retained_in;
          bytes_range = z.bytes_range;
          accepted = z.accepted;
          datagrams_fit = z.datagrams_fit;
          ordered = z.ordered;
          below = z.below;
          id_range = z.id_range;
          is_open = z.is_open;
        },
        y.holds ∙ rest,
      )
