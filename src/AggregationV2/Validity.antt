-- ===== src/AggregationV2/Validity.antt =====
-- internal/aggregationv2/queue.go: the queue's invariant, and the head's removal.
use mpudp.Prelude.{
  ℕ, zero, suc, ◌+◌, ◌-◌, ◌%◌, ◌^◌, ◌≤◌, ◌<◌, ◌≡◌, refl, sym, ap, subst, ◌∙◌, List, [], ◌∷◌, false,
  arith, length, length-set, set, drop, total, All, ◌⊎◌, inl, inr, ok,
}
use native.Mathlib.Nat.{mod-lt}
use mpudp.FecV2
use mpudp.FecV2.Writing.{drop-add}
use mpudp.AggregationV2.{Scope, Entry, no_entry, State, at, entries, queued}
use mpudp.AggregationV2.Queue.{drop_head, drop_heads}
use mpudp.AggregationV2.Slots.{entries-drop_head}
use mpudp.AggregationV2.Planning.{IsOrdered}
use mpudp.AggregationV2.Leaving.{IsOrdered-lower}

abbrev pub bytes_of : List Entry → ℕ
bytes_of es = total (λ e. length e.payload) es

-- The IDs are below the next one, which is 0 once they are used up.
abbrev pub AreBelow : ℕ → List Entry → Type 0
AreBelow next es = (next ≡ 0) ⊎ All (λ (e : Entry). e.id < next) es

pub record IsValid (q : State) : Type 0 where
  pub head_in : q.head < length q.ring
  pub count_in : q.count ≤ length q.ring
  pub retained : q.retained_bytes ≡ bytes_of (queued q)
  pub retained_in : q.retained_bytes ≤ q.limits.max_queued_bytes
  pub bytes_range : q.limits.max_queued_bytes ≤ 2 ^ 30
  pub accepted : FecV2.validate q.epoch.parameters ≡ ok tt
  pub datagrams_fit : q.limits.max_datagram_bytes ≤ q.epoch.parameters.max_datagram_bytes
  pub ordered : IsOrdered q.epoch.parameters q.limits 0 (queued q)
  pub below : AreBelow q.next_datagram_id (queued q)
  pub id_range : q.next_datagram_id < 2 ^ 64
  pub is_open : q.is_closed ≡ false

pub AreBelow-drop : (next n : ℕ) (es : List Entry) → AreBelow next es → AreBelow next (drop n es)
AreBelow-drop next n es (inl z) = inl z
AreBelow-drop next zero es (inr h) = inr h
AreBelow-drop next (suc n) [] (inr h) = inr tt
AreBelow-drop next (suc n) (e ∷ es) (inr h) = AreBelow-drop next n es (inr h.1)

-- What stays when entries leave the queue.
pub record IsKept (q q' : State) : Type 0 where
  pub same_limits : q'.limits ≡ q.limits
  pub same_epoch : q'.epoch ≡ q.epoch
  pub same_datagram : q'.next_datagram_id ≡ q.next_datagram_id
  pub same_group : q'.next_group_id ≡ q.next_group_id

-- A valid queue with the entries `es` left in it.
pub record HasLeft (q q' : State) (es : List Entry) : Type 0 where
  pub valid : IsValid q'
  pub kept : IsKept q q'
  pub holds : queued q' ≡ es

IsKept-trans : (a b c : State) → IsKept a b → IsKept b c → IsKept a c
IsKept-trans a b c x y = record {
  same_limits = y.same_limits ∙ x.same_limits;
  same_epoch = y.same_epoch ∙ x.same_epoch;
  same_datagram = y.same_datagram ∙ x.same_datagram;
  same_group = y.same_group ∙ x.same_group;
}

pub queued-suc :
    (q : State) (n : ℕ)
    → q.count ≡ suc n
    → queued q ≡ at q.ring q.head 0 ∷ entries q.ring q.head 1 n
queued-suc q n e = ap (entries q.ring q.head 0) e

module _ {S : Type 0} (scope : Scope S) where
  -- `dropHeadLocked` on a queue that is not empty leaves the entries behind the head.
  pub drop_head-HasLeft :
      (s : S) (q : State) (n : ℕ)
      → IsValid q
      → q.count ≡ suc n
      → HasLeft q (drop_head scope (s, q)).1 (drop 1 (queued q))
  unfolding drop_head
  drop_head-HasLeft s q n v e =
      let first = at q.ring q.head 0 in
      let rest = entries q.ring q.head 1 n in
      let all = queued-suc q n e in
      let len = length-set q.ring q.head no_entry in
      let o = subst (IsOrdered q.epoch.parameters q.limits 0) all v.ordered in
      let sum : q.retained_bytes ≡ length first.payload + bytes_of rest =
        v.retained ∙ ap bytes_of all in
      let one_less : q.count - 1 ≡ n = omega arith in
      let holds : entries (set q.ring q.head no_entry) ((q.head + 1) % length q.ring) 0
            (q.count - 1)
          ≡ rest =
        ap (entries (set q.ring q.head no_entry) ((q.head + 1) % length q.ring) 0) one_less
        ∙ ap (λ (m : ℕ). entries (set q.ring q.head no_entry) ((q.head + 1) % m) 0 n) (sym len)
        ∙ entries-drop_head q.ring q.head n no_entry (omega (arith, v.count_in)) v.head_in in
      record {
        valid = record {
          head_in = rw len (mod-lt (q.head + 1) {m = length q.ring} (omega (arith, v.head_in)));
          count_in = rw len (omega (arith, v.count_in));
          retained = rw holds (omega (arith, sum, v.retained_in, v.bytes_range));
          retained_in = omega (arith, sum, v.retained_in, v.bytes_range);
          bytes_range = v.bytes_range;
          accepted = v.accepted;
          datagrams_fit = v.datagrams_fit;
          ordered =
              rw holds
                (IsOrdered-lower q.epoch.parameters q.limits first.id 0 rest (omega arith) o.2);
          below = rw holds (
              AreBelow-drop q.next_datagram_id 1 (first ∷ rest)
                (subst (AreBelow q.next_datagram_id) all v.below));
          id_range = v.id_range;
          is_open = v.is_open;
        };
        kept = record {
          same_limits = refl;
          same_epoch = refl;
          same_datagram = refl;
          same_group = refl;
        };
        holds = holds ∙ sym (ap (drop 1) all);
      }

  pub drop_heads-HasLeft :
      (n : ℕ) (s : S) (q : State)
      → IsValid q
      → n ≤ q.count
      → HasLeft q (drop_heads scope n (s, q)).1 (drop n (queued q))
  unfolding drop_heads
  drop_heads-HasLeft zero s q v h = record {
    valid = v;
    kept = record {
      same_limits = refl;
      same_epoch = refl;
      same_datagram = refl;
      same_group = refl;
    };
    holds = refl;
  }
  drop_heads-HasLeft (suc n) s q v h =
      let e : q.count ≡ suc (q.count - 1) = omega arith in
      let one_more : 1 + n ≡ suc n = omega arith in
      let x = drop_head-HasLeft s q (q.count - 1) v e in
      let next = drop_head scope (s, q) in
      let one_less : next.1.count ≡ q.count - 1 = unfold drop_head in refl in
      let y = drop_heads-HasLeft n next.0 next.1 x.valid (omega arith) in
      record {
        valid = y.valid;
        kept = IsKept-trans q next.1 (drop_heads scope n next).1 x.kept y.kept;
        holds =
            y.holds
            ∙ ap (drop n) x.holds
            ∙ sym (drop-add 1 n (queued q))
            ∙ ap (λ (m : ℕ). drop m (queued q)) one_more;
      }
