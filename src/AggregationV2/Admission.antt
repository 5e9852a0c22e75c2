-- ===== src/AggregationV2/Admission.antt =====
-- internal/aggregationv2/queue.go: what `Admit` does to the queue.
use mpudp.Prelude.{
  ℕ, ◌+◌, ◌-◌, ◌%◌, ◌^◌, ◌≤◌, ◌<◌, ◌≡◌, ◌≢◌, refl, sym, ap, subst, ◌∙◌, List, [], ◌∷◌, ◌++◌, ◌==◌,
  Bool-cases, arith, length, length-set, total-append, All, ◌⊎◌, inl, inr, Option, >>=-eq-ok, ok,
}
use mpudp.Credit.{add64, sub64}
use mpudp.FecV2.{Parameters}
use mpudp.AggregationV2.{Scope, Limits, Entry, State, slot, queued, fresh_capacity, fragment_count}
use mpudp.AggregationV2.Queue.{check, check_payload, reserve_some, append, admit}
use mpudp.AggregationV2.Slots.{entries-set_last}
use mpudp.AggregationV2.Planning.{IsSound, IsOrdered}
use mpudp.AggregationV2.Validity.{bytes_of, AreBelow, IsValid}

-- The entry of an admitted Datagram.
abbrev pub admitted : State → List ℕ → ℕ → Option ℕ → Entry
admitted q payload now lease = record {
  id = q.next_datagram_id;
  payload = payload;
  offset = 0;
  fragments = 0;
  admitted_at = now;
  lease = lease;
}

IsOrdered-append :
    (p : Parameters) (l : Limits) (low : ℕ) (es : List Entry) (e : Entry)
    → low < e.id
    → All (λ (x : Entry). x.id < e.id) es
    → IsSound p l e
    → IsOrdered p l low es
    → IsOrdered p l low (es ++ (e ∷ []))
IsOrdered-append p l low [] e h b s o = (h, s, tt)
IsOrdered-append p l low (x ∷ es) e h b s o =
    (o.0, o.1, IsOrdered-append p l x.id es e b.0 b.1 s o.2)

AreBelow-append :
    (next : ℕ) (es : List Entry) (e : Entry)
    → e.id ≡ next
    → All (λ (x : Entry). x.id < next) es
    → All (λ (x : Entry). x.id < next + 1) (es ++ (e ∷ []))
AreBelow-append next [] e h b = (omega arith, tt)
AreBelow-append next (x ∷ es) e h b = (omega (arith, b.0), AreBelow-append next es e h b.1)

-- What `Admit` has checked of a payload.
record IsAdmissible (q : State) (payload : List ℕ) : Type 0 where
  pub has_id : q.next_datagram_id ≢ 0
  pub small : length payload ≤ q.limits.max_datagram_bytes
  pub fits : (length payload ≡ 0) ⊎ (1 ≤ fresh_capacity q.epoch.parameters)
  pub splits :
      fragment_count (length payload) (fresh_capacity q.epoch.parameters) ≤ q.limits.max_fragments
  pub slot_left : q.count ≢ length q.ring
  pub bytes_left : length payload ≤ sub64 q.limits.max_queued_bytes q.retained_bytes

check_payload-IsAdmissible :
    (q : State) (payload : List ℕ) → check_payload q payload ≡ ok tt → IsAdmissible q payload
unfolding check_payload
check_payload-IsAdmissible q payload h = record {
  has_id = ground arith;
  small = ground arith;
  fits = ground arith;
  splits = ground arith;
  slot_left = ground arith;
  bytes_left = ground arith;
}

ids_below :
    (q : State) (payload : List ℕ)
    → IsValid q
    → IsAdmissible q payload
    → All (λ (x : Entry). x.id < q.next_datagram_id) (queued q)
ids_below q payload v a = elim v.below [ inl z ↦ absurd (a.has_id z) | inr h ↦ h ]

admitted-IsSound :
    (q : State) (payload : List ℕ) (now : ℕ) (lease : Option ℕ)
    → IsAdmissible q payload
    → IsSound q.epoch.parameters q.limits (admitted q payload now lease)
admitted-IsSound q payload now lease a =
    let all_left : length payload - 0 ≡ length payload = omega arith in
    record {
      small = a.small;
      unfinished = elim (Bool-cases (length payload == 0)) [
        | inl z ↦ inr (ground arith, refl)
        | inr z ↦ inl (ground arith)
      ];
      splits = rw all_left (omega (arith, a.splits));
      fits = a.fits;
    }

-- The next ID wraps to 0.
next_below :
    (next : ℕ) (es : List Entry) (e : Entry)
    → next < 2 ^ 64
    → e.id ≡ next
    → All (λ (x : Entry). x.id < next) es
    → AreBelow ((next + 1) % 2 ^ 64) (es ++ (e ∷ []))
next_below next es e h same b =
    let split : ((next + 1) % 2 ^ 64 ≡ 0) ⊎ ((next + 1) % 2 ^ 64 ≡ next + 1) = omega arith in
    elim split [ inl z ↦ inl z | inr k ↦ inr (rw k (AreBelow-append next es e same b)) ]

append-IsValid :
    (q : State) (payload : List ℕ) (now : ℕ) (lease : Option ℕ)
    → IsValid q
    → IsAdmissible q payload
    → IsValid (append q payload now lease)
      × (queued (append q payload now lease) ≡ queued q ++ (admitted q payload now lease ∷ []))
unfolding append
append-IsValid q payload now lease v a =
    let e = admitted q payload now lease in
    let place = slot q.ring q.head q.count in
    let len = length-set q.ring place e in
    let room : q.count < length q.ring = omega (arith, v.count_in, a.slot_left) in
    let holds = entries-set_last q.ring q.head q.count e room in
    let ids : All (λ (x : Entry). x.id < q.next_datagram_id) (queued q) = ids_below q payload v a in
    let sum : bytes_of (queued q ++ (e ∷ [])) ≡ bytes_of (queued q) + (length payload + 0) =
      total-append (λ (x : Entry). length x.payload) (queued q) (e ∷ []) in
    let b = a.bytes_left in
    let r = v.retained_in in
    let range = v.bytes_range in
    let exact : add64 q.retained_bytes (length payload) ≡ q.retained_bytes + length payload =
      omega arith in
    (
      record {
        head_in = rw len v.head_in;
        count_in = rw len (omega arith);
        retained = rw holds (omega (arith, sum, exact, v.retained));
        retained_in = omega (arith, exact);
        bytes_range = v.bytes_range;
        accepted = v.accepted;
        datagrams_fit = v.datagrams_fit;
        ordered = rw holds (
            IsOrdered-append q.epoch.parameters q.limits 0 (queued q) e (omega (arith, a.has_id))
              ids (admitted-IsSound q payload now lease a) v.ordered);
        below = rw holds (next_below q.next_datagram_id (queued q) e v.id_range refl ids);
        id_range = omega arith;
        is_open = v.is_open;
      },
      holds,
    )

module _ {S : Type 0} (scope : Scope S) where
  admit-parts :
      (s s' : S) (q q' : State) (payload : List ℕ) (now id : ℕ)
      → admit scope s q payload now ≡ ok (s', q', id)
      → (lease : Option ℕ) × (check_payload q payload ≡ ok tt)
        × (reserve_some scope s (length payload) ≡ ok (s', lease))
        × (q' ≡ append q payload now lease)
        × (id ≡ q.next_datagram_id)
  unfolding admit
  admit-parts s s' q q' payload now id h =
      let (_, _, h1) = >>=-eq-ok (check scope s q now) _ h in
      let (_, checked, h2) = >>=-eq-ok (check_payload q payload) _ h1 in
      let ((s1, lease), reserved, h3) = >>=-eq-ok (reserve_some scope s (length payload)) _ h2 in
      (lease, checked, ground (arith, reserved, h3), ground (arith, h3), ground (arith, h3))

  -- `Admit` keeps the queue valid: the Datagram gets the next ID and stands whole behind the entries that were there,
  -- which are left alone, under the lease that its bytes are reserved with.
  pub admit-appends :
      (s s' : S) (q q' : State) (payload : List ℕ) (now id : ℕ)
      → IsValid q
      → admit scope s q payload now ≡ ok (s', q', id)
      → (lease : Option ℕ) × (reserve_some scope s (length payload) ≡ ok (s', lease))
        × (id ≡ q.next_datagram_id)
        × IsValid q'
        × (queued q' ≡ queued q ++ (admitted q payload now lease ∷ []))
  admit-appends s s' q q' payload now id v h =
      let (lease, checked, reserved, same, named) = admit-parts s s' q q' payload now id h in
      let (valid, holds) =
        append-IsValid q payload now lease v (check_payload-IsAdmissible q payload checked) in
      (lease, reserved, named, subst IsValid (sym same) valid, ap queued same ∙ holds)
