-- ===== src/AggregationV2/Cancelling.antt =====
-- internal/aggregationv2/queue.go: `Cancel` takes one entry out of the ring.
use mpudp.Prelude.{
  ℕ, zero, suc, ◌+◌, ◌-◌, ◌≤◌, ◌<◌, ◌≡◌, ◌≢◌, refl, sym, ap, subst, ◌∙◌, List, [], ◌∷◌, ◌++◌, true,
  false, ◌==◌, Bool-cases, arith, length, length-set, set, total-append, All, ◌⊎◌, inl, inr, none,
  some, Option-cases,
}
use mpudp.FecV2.{Parameters}
use mpudp.AggregationV2.{Scope, Limits, Entry, no_entry, State, slot, at, entries, queued}
use mpudp.AggregationV2.Queue.{find_id, shift, release_some, remove_at, cancel}
use mpudp.AggregationV2.Slots.{at-set_self, at-set_ne, entries_cong, entries-append}
use mpudp.AggregationV2.Planning.{IsOrdered}
use mpudp.AggregationV2.Leaving.{IsOrdered-lower}
use mpudp.AggregationV2.Validity.{bytes_of, AreBelow, IsValid}

length-shift : (ring : List Entry) (head j n : ℕ) → length (shift ring head j n) ≡ length ring
unfolding shift
length-shift ring head j zero = refl
length-shift ring head j (suc n) =
    length-shift (set ring (slot ring head j) (at ring head (j + 1))) head (j + 1) n
    ∙ length-set ring (slot ring head j) (at ring head (j + 1))

-- Places before the move keep their entries.
shift_before :
    (ring : List Entry) (head j n k : ℕ)
    → k < j
    → j + n < length ring
    → at (shift ring head j n) head k ≡ at ring head k
unfolding shift
shift_before ring head j zero k h fits = refl
shift_before ring head j (suc n) k h fits =
    let next = at ring head (j + 1) in
    shift_before (set ring (slot ring head j) next) head (j + 1) n k (omega arith)
      (omega (arith, length-set ring (slot ring head j) next))
    ∙ at-set_ne ring head j k next (omega arith) (omega arith) (omega arith)

-- The others get the next place's.
shift_moved :
    (ring : List Entry) (head j n k : ℕ)
    → j ≤ k
    → k < j + n
    → j + n < length ring
    → at (shift ring head j n) head k ≡ at ring head (k + 1)
unfolding shift
shift_moved ring head j zero k h lt fits = absurd (omega arith)
shift_moved ring head j (suc n) k h lt fits =
    let next = at ring head (j + 1) in
    let ring' = set ring (slot ring head j) next in
    let len = length-set ring (slot ring head j) next in
    let split : (k ≡ j) ⊎ (j + 1 ≤ k) = omega arith in
    elim split [
      | inl e ↦
          ap (at (shift ring' head (j + 1) n) head) e
          ∙ shift_before ring' head (j + 1) n j (omega arith) (omega (arith, len))
          ∙ at-set_self ring head j next (omega arith)
          ∙ ap (λ (m : ℕ). at ring head (m + 1)) (sym e)
      | inr le ↦
          shift_moved ring' head (j + 1) n k le (omega arith) (omega (arith, len))
          ∙ at-set_ne ring head j (k + 1) next (omega arith) (omega arith) (omega arith)
    ]

-- What stands at the places after the removal of the `i`th of `n + 1` entries.
module _ (ring : List Entry) (head i n : ℕ) (here : i ≤ n) (fits : n < length ring) where
  abbrev moved : List Entry
  moved = shift ring head i (n - i)

  abbrev cleared : List Entry
  cleared = set moved (slot moved head n) no_entry

  length-cleared : length cleared ≡ length ring
  length-cleared = length-set moved (slot moved head n) no_entry ∙ length-shift ring head i (n - i)

  entries-cleared :
      entries cleared head 0 n ≡ entries ring head 0 i ++ entries ring head (i + 1) (n - i)
  entries-cleared =
      let len = length-shift ring head i (n - i) in
      let e : n ≡ i + (n - i) = omega arith in
      let z : 0 + i ≡ i = omega arith in
      let keep : (k : ℕ) → k < n → at cleared head k ≡ at moved head k = λ k lt.
        at-set_ne moved head n k no_entry (omega arith) (omega (arith, len)) (omega (arith, len)) in
      ap (entries cleared head 0) e
      ∙ entries-append cleared head 0 i (n - i)
      ∙ (λ j. first keep j ++ last keep j)
    where
      first :
          ((k : ℕ) → k < n → at cleared head k ≡ at moved head k)
          → entries cleared head 0 i ≡ entries ring head 0 i
      first keep = entries_cong cleared ring head head 0 0 i (λ k lt.
          keep (0 + k) (omega arith)
          ∙ shift_before ring head i (n - i) (0 + k) (omega arith) (omega arith))

      last :
          ((k : ℕ) → k < n → at cleared head k ≡ at moved head k)
          → entries cleared head (0 + i) (n - i) ≡ entries ring head (i + 1) (n - i)
      last keep = entries_cong cleared ring head head (0 + i) (i + 1) (n - i) (λ k lt.
          let e : 0 + i + k + 1 ≡ i + 1 + k = omega arith in
          keep (0 + i + k) (omega arith)
          ∙ shift_moved ring head i (n - i) (0 + i + k) (omega arith) (omega arith) (omega arith)
          ∙ ap (at ring head) e)

find_id-some :
    (q : State) (id i n k : ℕ)
    → find_id q id i n ≡ some k
    → (i ≤ k) × (k < i + n) × ((at q.ring q.head k).id ≡ id)
unfolding find_id
find_id-some q id i zero k h = cc
find_id-some q id i (suc n) k h = elim (Bool-cases ((at q.ring q.head i).id == id)) [
  | inl e ↦
      let here : i ≡ k = ground arith in
      (
        omega arith,
        omega arith,
        subst (λ (m : ℕ). (at q.ring q.head m).id ≡ id) here (ground arith),
      )
  | inr e ↦
      let (lo, hi, found) = find_id-some q id (i + 1) n k (ground arith) in
      (omega arith, omega arith, found)
]

find_id-none :
    (q : State) (id i n : ℕ)
    → find_id q id i n ≡ none
    → All (λ (e : Entry). e.id ≢ id) (entries q.ring q.head i n)
unfolding find_id
find_id-none q id i zero h = tt
find_id-none q id i (suc n) h = elim (Bool-cases ((at q.ring q.head i).id == id)) [
  | inl e ↦ ground arith
  | inr e ↦ (ground arith, find_id-none q id (i + 1) n (ground arith))
]

IsOrdered-remove :
    (p : Parameters) (l : Limits) (low : ℕ) (xs : List Entry) (e : Entry) (ys : List Entry)
    → IsOrdered p l low (xs ++ (e ∷ ys))
    → IsOrdered p l low (xs ++ ys)
IsOrdered-remove p l low [] e ys o = IsOrdered-lower p l e.id low ys (omega (arith, o.0)) o.2
IsOrdered-remove p l low (x ∷ xs) e ys o = (o.0, o.1, IsOrdered-remove p l x.id xs e ys o.2)

All-remove :
    (next : ℕ) (xs : List Entry) (e : Entry) (ys : List Entry)
    → All (λ (x : Entry). x.id < next) (xs ++ (e ∷ ys))
    → All (λ (x : Entry). x.id < next) (xs ++ ys)
All-remove next [] e ys h = h.1
All-remove next (x ∷ xs) e ys h = (h.0, All-remove next xs e ys h.1)

module _ {S : Type 0} (scope : Scope S) where
  remove_at-IsValid :
      (s : S) (q : State) (i n : ℕ)
      → IsValid q
      → q.count ≡ suc n
      → i ≤ n
      → (let xs = entries q.ring q.head 0 i in
          let ys = entries q.ring q.head (i + 1) (n - i) in
          (queued q ≡ xs ++ (at q.ring q.head i ∷ ys))
          × (queued (remove_at scope s q i).1 ≡ xs ++ ys)
          × IsValid (remove_at scope s q i).1)
  unfolding remove_at
  remove_at-IsValid s q i n v e le =
      let p = q.epoch.parameters in
      let f = λ (x : Entry). length x.payload in
      let xs = entries q.ring q.head 0 i in
      let ys = entries q.ring q.head (i + 1) (n - i) in
      let here = at q.ring q.head i in
      let fits : n < length q.ring = omega (arith, v.count_in) in
      let one_less : q.count - 1 ≡ n = omega arith in
      let split : q.count ≡ i + suc (n - i) = omega arith in
      let z : 0 + i ≡ i = omega arith in
      let all : queued q ≡ xs ++ (here ∷ ys) =
        ap (entries q.ring q.head 0) split
        ∙ entries-append q.ring q.head 0 i (suc (n - i))
        ∙ ap (λ (k : ℕ). xs ++ entries q.ring q.head k (suc (n - i))) z in
      let holds = entries-cleared q.ring q.head i n le fits in
      let len = length-cleared q.ring q.head i n le fits in
      let sum : bytes_of (queued q) ≡ bytes_of xs + (length here.payload + bytes_of ys) =
        ap bytes_of all ∙ total-append f xs (here ∷ ys) in
      let sum' : bytes_of (xs ++ ys) ≡ bytes_of xs + bytes_of ys = total-append f xs ys in
      let r = v.retained in
      let cap = v.retained_in in
      let range = v.bytes_range in
      let b : AreBelow q.next_datagram_id (xs ++ ys) =
        elim (subst (AreBelow q.next_datagram_id) all v.below) [
          | inl zero_id ↦ inl zero_id
          | inr h ↦ inr (All-remove q.next_datagram_id xs here ys h)
        ] in
      rw one_less (
        all,
        holds,
        record {
          head_in = rw len v.head_in;
          count_in = rw len (omega arith);
          retained = rw holds (omega (arith, sum, sum', r, cap, range));
          retained_in = omega (arith, sum, r, cap, range);
          bytes_range = v.bytes_range;
          accepted = v.accepted;
          datagrams_fit = v.datagrams_fit;
          ordered = rw holds (
              IsOrdered-remove p q.limits 0 xs here ys
                (subst (IsOrdered p q.limits 0) all v.ordered));
          below = rw holds b;
          id_range = v.id_range;
          is_open = v.is_open;
        },
      )

  cancel-none :
      (s : S) (q : State) (id : ℕ)
      → q.is_closed ≡ false
      → find_id q id 0 q.count ≡ none
      → cancel scope s q id ≡ (s, q, false)
  unfolding cancel
  cancel-none s q id o e = ground (arith, o, e)

  cancel-some :
      (s : S) (q : State) (id i : ℕ)
      → q.is_closed ≡ false
      → find_id q id 0 q.count ≡ some i
      → cancel scope s q id ≡ ((remove_at scope s q i).0, (remove_at scope s q i).1, true)
  unfolding cancel
  cancel-some s q id i o e = ground (arith, o, e)

  -- On a valid queue `Cancel` either finds no entry with the ID and changes nothing, or takes the first one out:
  -- the other entries stay in their order, the queue stays valid, and the entry's lease is released.
  pub cancel-removes :
      (s : S) (q : State) (id : ℕ)
      → IsValid q
      → (let (s', q', found) = cancel scope s q id in
          ((found ≡ false) × (s' ≡ s) × (q' ≡ q) × All (λ (e : Entry). e.id ≢ id) (queued q))
          ⊎ ((xs : List Entry) × (e : Entry) × (ys : List Entry) × (found ≡ true)
              × (queued q ≡ xs ++ (e ∷ ys))
              × (e.id ≡ id)
              × (queued q' ≡ xs ++ ys)
              × (s' ≡ release_some scope s e.lease)
              × IsValid q'))
  cancel-removes s q id v = elim (Option-cases (find_id q id 0 q.count)) [
    | inl e ↦
        rw (cancel-none s q id v.is_open e) (inl (refl, refl, refl, find_id-none q id 0 q.count e))
    | inr (i, e) ↦
        let (lo, hi, named) = find_id-some q id 0 q.count i e in
        let count : q.count ≡ suc (q.count - 1) = omega arith in
        let (all, holds, valid) = remove_at-IsValid s q i (q.count - 1) v count (omega arith) in
        rw (cancel-some s q id i v.is_open e) (
          inr (
            entries q.ring q.head 0 i,
            at q.ring q.head i,
            entries q.ring q.head (i + 1) (q.count - 1 - i),
            refl,
            all,
            named,
            holds,
            unfold remove_at in refl,
            valid,
          ))
  ]
