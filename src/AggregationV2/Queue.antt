-- ===== src/AggregationV2/Queue.antt =====
-- internal/aggregationv2/queue.go: the operations, with `scope` for the credit Session and `codec` for the
-- Reed-Solomon library's `Encode`. The queue's lock makes each of them one step. `Seal` is without a workspace.
use mpudp.Prelude.{
  ℕ, zero, suc, ◌+◌, ◌-◌, ◌*◌, ◌%◌, ◌^◌, List, [], Bool, true, false, not, ◌&&◌, ◌||◌, ◌==◌, ltb,
  if◌then◌else◌, length, set, replicate, Option, none, some, Result, ok, err, ◌>>=◌, ◌>>◌,
  reject_if,
}
use mpudp.Credit
use mpudp.Credit.{add64, sub64}
use mpudp.FecV2
use mpudp.FecV2.{Parameters}
use mpudp.FecV2.Codec.{Group}
use mpudp.FecV2.Packing.{Cursor, encode_prefix}
use mpudp.AggregationV2.{
  Error, invalid, closed_queue, message_too_large, id_exhausted, clock_regression, from_credit,
  from_codec, Scope, Limits, Epoch, Entry, no_entry, State, Plan, slice_bytes,
  required_initial_bytes, fragment_count, slot, at, fresh_capacity, plan_group, is_due,
}

abbrev pub credit {ℓ} : {A : Type ℓ} → Result Credit.Error A → Result Error A
credit (err cause) = err (from_credit cause)
credit (ok a) = ok a

abbrev pub coded {ℓ} : {A : Type ℓ} → Result FecV2.Error A → Result Error A
coded (err cause) = err (from_codec cause)
coded (ok a) = ok a

pub record Output : Type 0 where
  pub epoch_id : ℕ
  pub group_id : ℕ
  pub group : Group
  pub lease : ℕ

-- `newQueue`; `n * size` stays far below 2 ^ 64 for the parameters that `fecv2.New` accepts.
unfoldable pub new_queue : Limits → Epoch → ℕ → State
new_queue l e ring_lease =
    let p = e.parameters in
    record {
      limits = l;
      epoch = e;
      ring = replicate l.max_queued_datagrams no_entry;
      ring_lease = some ring_lease;
      head = 0;
      count = 0;
      retained_bytes = 0;
      next_datagram_id = 1;
      next_group_id = 1;
      output_bytes = (p.data_shards + p.parity_shards) * (p.shard_bytes + slice_bytes);
      last_now = 0;
      have_now = false;
      is_closed = false;
    }

abbrev pub clocked : State → ℕ → State
clocked q now = record q { last_now = now; have_now = true }

-- The refusals of `Admit` before its reservation.
unfoldable pub check_payload : State → List ℕ → Result Error (Unit {0})
check_payload q payload = do
  reject_if (q.next_datagram_id == 0 || q.next_group_id == 0) id_exhausted
  let capacity = fresh_capacity q.epoch.parameters
  reject_if
      (ltb q.limits.max_datagram_bytes (length payload)
        || (ltb 0 (length payload)
            && (capacity == 0
                || ltb q.limits.max_fragments (fragment_count (length payload) capacity))))
      message_too_large
  reject_if
      (q.count == length q.ring
        || ltb (sub64 q.limits.max_queued_bytes q.retained_bytes) (length payload))
      (from_credit Credit.resource_limit)

-- The state after an admission.
unfoldable pub append : State → List ℕ → ℕ → Option ℕ → State
append q payload now lease =
    let e : Entry = record {
      id = q.next_datagram_id;
      payload = payload;
      offset = 0;
      fragments = 0;
      admitted_at = now;
      lease = lease;
    } in
    record q {
      ring = set q.ring (slot q.ring q.head q.count) e;
      count = q.count + 1;
      retained_bytes = add64 q.retained_bytes (length payload);
      next_datagram_id = (q.next_datagram_id + 1) % 2 ^ 64;
      last_now = now;
      have_now = true;
    }

-- The write to the entry at the head that the group has taken `bytes` of.
unfoldable pub advance_head : State → ℕ → State
advance_head q bytes =
    let e = at q.ring q.head 0 in
    if bytes == 0 then q else record q {
      ring =
          set q.ring q.head (record e { offset = e.offset + bytes; fragments = e.fragments + 1 });
    }

-- `Cancel`: the first place from `i` on, among `n`, that holds the ID.
unfoldable pub find_id : State → ℕ → ℕ → ℕ → Option ℕ
find_id q id i zero = none
find_id q id i (suc n) =
    let more = find_id q id (i + 1) n in if (at q.ring q.head i).id == id then some i else more

-- The entries behind place `j`, `n` of them, move one place up.
unfoldable pub shift : List Entry → ℕ → ℕ → ℕ → List Entry
shift ring head j zero = ring
shift ring head j (suc n) =
    shift (set ring (slot ring head j) (at ring head (j + 1))) head (j + 1) n

module _ {S : Type 0} (scope : Scope S) where
  -- `accepts` tells whether the Reed-Solomon library's constructor returns no error.
  unfoldable pub prepare : (ℕ → ℕ → Bool) → S → Limits → Epoch → Result Error ℕ
  prepare accepts s l e = do
    reject_if (scope.is_closed s || scope.is_pending s) invalid
    bytes ← required_initial_bytes l
    reject_if (e.id == 0) invalid
    coded (FecV2.validate e.parameters)
    reject_if (not (accepts e.parameters.data_shards e.parameters.parity_shards))
        (from_codec FecV2.invalid)
    reject_if (ltb e.parameters.max_datagram_bytes l.max_datagram_bytes) invalid
    ok bytes

  unfoldable pub new : (ℕ → ℕ → Bool) → S → Limits → Epoch → Result Error (S × State)
  unfolding prepare new_queue
  new accepts s l e = do
    bytes ← prepare accepts s l e
    (s', lease) ← credit (scope.reserve s bytes)
    ok (s', new_queue l e lease)

  unfoldable pub new_prepaid : (ℕ → ℕ → Bool) → S → Limits → Epoch → ℕ → Result Error (S × State)
  unfolding prepare new_queue
  new_prepaid accepts s l e prepaid = do
    bytes ← prepare accepts s l e
    (s', lease) ← credit (scope.bind_bytes s prepaid bytes)
    ok (s', new_queue l e lease)

  unfoldable pub check : S → State → ℕ → Result Error (Unit {0})
  check s q now = do
    reject_if (q.is_closed || scope.is_closed s) closed_queue
    reject_if (q.have_now && ltb now q.last_now) clock_regression

  -- A lease for bytes, none for no bytes.
  unfoldable pub reserve_some : S → ℕ → Result Error (S × Option ℕ)
  reserve_some s zero = ok (s, none)
  reserve_some s (suc n) = do (s', lease) ← credit (scope.reserve s (suc n)); ok (s', some lease)

  unfoldable pub admit : S → State → List ℕ → ℕ → Result Error (S × State × ℕ)
  admit s q payload now = do
    check s q now
    check_payload q payload
    (s', lease) ← reserve_some s (length payload)
    ok (s', append q payload now lease, q.next_datagram_id)

  unfoldable pub ready : S → State → ℕ → Result Error (State × Bool)
  ready s q now = do check s q now; ok (clocked q now, is_due q now (plan_group q))

  abbrev pub release_some : S → Option ℕ → S
  release_some s none = s
  release_some s (some lease) = scope.release s lease

  unfoldable pub drop_head : S × State → S × State
  drop_head (s, q) =
      let e = at q.ring q.head 0 in
      (
        release_some s e.lease,
        record q {
          retained_bytes = sub64 q.retained_bytes (length e.payload);
          ring = set q.ring q.head no_entry;
          head = (q.head + 1) % length q.ring;
          count = q.count - 1;
        },
      )

  unfoldable pub drop_heads : ℕ → S × State → S × State
  drop_heads zero c = c
  drop_heads (suc n) c = drop_heads n (drop_head c)

  -- What `seal` writes once the group is encoded.
  unfoldable pub commit : S → State → ℕ → Cursor → S × State
  commit s q now cursor =
      let (s', q') = drop_heads cursor.next (s, q) in
      let q'' = advance_head q' cursor.bytes in
      (
        s',
        record q'' {
          next_group_id = (q''.next_group_id + 1) % 2 ^ 64;
          last_now = now;
          have_now = true;
        },
      )

  module _ (codec : List (List ℕ) → Option (List (List ℕ))) where
    -- `seal` with a reservation made: the group, its test against the plan, and the commit.
    unfoldable pub emit : S → S → State → ℕ → ℕ → Plan → S × State × Result Error (Option Output)
    emit s s' q now lease planned =
        elim (encode_prefix codec q.epoch.parameters planned.fragments) [
          | err cause ↦ (scope.release s' lease, q, err (from_codec cause))
          | ok (group, cursor) ↦
              if cursor.next == planned.cursor.next && cursor.bytes == planned.cursor.bytes
              then (let (s'', q') = commit s' q now cursor in
                  (
                    s'',
                    q',
                    ok (
                        some (record {
                          epoch_id = q.epoch.id;
                          group_id = q.next_group_id;
                          group = group;
                          lease = lease;
                        })),
                  ))
              else (scope.release s' lease, q, err invalid)
        ]

    -- The reservation of a group's output.
    unfoldable pub seal_planned : S → State → ℕ → Plan → S × State × Result Error (Option Output)
    seal_planned s q now planned =
        if length planned.fragments == 0
        then (s, q, err invalid)
        else elim (scope.reserve s q.output_bytes) [
          | err cause ↦ (s, q, err (from_credit cause))
          | ok (s', lease) ↦ emit s s' q now lease planned
        ]

    unfoldable pub seal : S → State → ℕ → Bool → S × State × Result Error (Option Output)
    seal s q now force = elim (check s q now) [
      | err cause ↦ (s, q, err cause)
      | ok _ ↦
          if q.count == 0
          then (s, clocked q now, ok none)
          else if q.next_group_id == 0
          then (s, q, err id_exhausted)
          else if not force && not (is_due q now (plan_group q))
          then (s, clocked q now, ok none)
          else seal_planned s q now (plan_group q)
    ]

  unfoldable pub remove_at : S → State → ℕ → S × State
  unfolding shift
  remove_at s q i =
      let e = at q.ring q.head i in
      let moved = shift q.ring q.head i (q.count - 1 - i) in
      (
        release_some s e.lease,
        record q {
          retained_bytes = sub64 q.retained_bytes (length e.payload);
          ring = set moved (slot moved q.head (q.count - 1)) no_entry;
          count = q.count - 1;
        },
      )

  unfoldable pub cancel : S → State → ℕ → S × State × Bool
  cancel s q id = if q.is_closed then (s, q, false) else elim (find_id q id 0 q.count) [
    | none ↦ (s, q, false)
    | some i ↦ let (s', q') = remove_at s q i in (s', q', true)
  ]

  unfoldable pub close : S → State → S × State
  close s q =
      if q.is_closed
      then (s, q)
      else (let (s', q') = drop_heads q.count (s, record q { is_closed = true }) in
          (release_some s' q'.ring_lease, record q' { ring = []; ring_lease = none }))
