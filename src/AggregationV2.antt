-- ===== src/AggregationV2.antt =====
-- internal/aggregationv2/queue.go: the send queue's state, its limits and the plan of the next group. Times are
-- nanoseconds on the caller's clock; the sizes of `entry` and of a slice are those of a 64-bit platform.
pub mod Queue
pub mod Slots
pub mod Planning
pub mod Leaving
pub mod Validity
pub mod Admission
pub mod Committing
pub mod Sealing
pub mod Cancelling
pub mod Starting
pub mod Undoing
pub mod Ledger
mod Tests
use mpudp.Prelude.{
  ℕ, zero, suc, ◌+◌, ◌-◌, ◌*◌, ◌/◌, ◌%◌, ◌^◌, List, [], ◌∷◌, Bool, true, false, not, ◌&&◌, ◌||◌,
  ◌==◌, ltb, if◌then◌else◌, length, get_or, drop, min, Option, none, some, Result, ok, err, ◌>>=◌,
  ◌>>◌, reject_if, ◌≡◌,
}
use mpudp.Credit
use mpudp.FecV2
use mpudp.FecV2.{
  Parameters, Fragment, manifest_bytes, descriptor_bytes, max_datagram_limit, outside,
}
use mpudp.FecV2.Packing.{Cursor, start}

pub data Error : Type 0 where
  invalid closed_queue message_too_large id_exhausted clock_regression : Error
  from_credit : Credit.Error → Error
  from_codec : FecV2.Error → Error

-- What the queue uses of its credit Session: `s` is the ledger's state, a lease is a number.
pub record Scope (S : Type 0) : Type 0 where
  pub is_closed : S → Bool
  pub is_pending : S → Bool
  pub reserve : S → ℕ → Result Credit.Error (S × ℕ)
  pub bind_bytes : S → ℕ → ℕ → Result Credit.Error (S × ℕ)
  pub release : S → ℕ → S

pub record Limits : Type 0 where
  pub max_queued_datagrams : ℕ
  pub max_queued_bytes : ℕ  -- uint64
  pub max_datagram_bytes : ℕ  -- uint32
  pub max_fragments : ℕ
  pub max_delay : ℕ

pub record Epoch : Type 0 where
  pub id : ℕ  -- uint32
  pub parameters : Parameters

pub record Entry : Type 0 where
  pub id : ℕ  -- uint64
  pub payload : List ℕ
  pub offset : ℕ  -- uint32
  pub fragments : ℕ
  pub admitted_at : ℕ
  pub lease : Option ℕ

abbrev pub no_entry : Entry
no_entry = record { id = 0; payload = []; offset = 0; fragments = 0; admitted_at = 0; lease = none }

-- The mutable fields and the limits; the codec and the credit Session are arguments of the operations.
pub record State : Type 0 where
  pub limits : Limits
  pub epoch : Epoch
  pub ring : List Entry
  pub ring_lease : Option ℕ
  pub head : ℕ
  pub count : ℕ
  pub retained_bytes : ℕ  -- uint64
  pub next_datagram_id : ℕ  -- uint64
  pub next_group_id : ℕ  -- uint64
  pub output_bytes : ℕ  -- uint64
  pub last_now : ℕ
  pub have_now : Bool
  pub is_closed : Bool

-- `unsafe.Sizeof(entry{})` and `unsafe.Sizeof([]byte{})`.
abbrev pub slot_bytes : ℕ
slot_bytes = 80

abbrev pub slice_bytes : ℕ
slice_bytes = 24

-- The product cannot overflow: the number of slots is checked first.
unfoldable pub required_initial_bytes : Limits → Result Error ℕ
required_initial_bytes l = do
  reject_if
      (outside 1 65536 l.max_queued_datagrams
        || outside 1 Credit.max_retained_bytes l.max_queued_bytes
        || outside 1 max_datagram_limit l.max_datagram_bytes
        || outside 1 4096 l.max_fragments
        || outside 1000 10000000 l.max_delay)
      invalid
  reject_if (ltb ((2 ^ 64 - 1) / slot_bytes) l.max_queued_datagrams) invalid
  ok (l.max_queued_datagrams * slot_bytes)

abbrev pub fragment_count : ℕ → ℕ → ℕ
fragment_count bytes capacity = if bytes == 0 then 0 else 1 + (bytes - 1) / capacity

-- The slot of the `i`th queued entry, and the entry there.
abbrev pub slot : List Entry → ℕ → ℕ → ℕ
slot ring head i = (head + i) % length ring

abbrev pub at : List Entry → ℕ → ℕ → Entry
at ring head i = get_or ring (slot ring head i) no_entry

-- The entries that a loop over the queue meets from the `i`th on, `n` of them.
abbrev pub entries : List Entry → ℕ → ℕ → ℕ → List Entry
entries ring head i zero = []
entries ring head i (suc n) = at ring head i ∷ entries ring head (i + 1) n

abbrev pub queued : State → List Entry
queued q = entries q.ring q.head 0 q.count

abbrev pub remaining : Entry → ℕ
remaining e = length e.payload - e.offset

abbrev pub fresh_capacity : Parameters → ℕ
fresh_capacity p = p.max_logical_bytes - manifest_bytes - descriptor_bytes

pub record Plan : Type 0 where
  pub fragments : List Fragment
  pub used : ℕ
  pub cursor : Cursor
  pub is_full : Bool

-- The two tests that end `planLocked`'s loop before an entry.
unfoldable pub has_no_room : Parameters → ℕ → ℕ → Entry → Bool
has_no_room p count used e =
    count == p.max_descriptors
    || ltb p.max_logical_bytes (used + descriptor_bytes)
    || (p.max_logical_bytes - used - descriptor_bytes == 0 && ltb 0 (remaining e))

-- The bytes of the entry that the group takes.
abbrev pub consumed : Parameters → ℕ → Entry → ℕ
consumed p used e = min (p.max_logical_bytes - used - descriptor_bytes) (remaining e)

unfoldable pub would_split_too_often : Parameters → ℕ → ℕ → Entry → Bool
would_split_too_often p max_fragments used e =
    ltb (consumed p used e) (remaining e)
    && ltb max_fragments
        (e.fragments + 1 + fragment_count (remaining e - consumed p used e) (fresh_capacity p))

abbrev pub fragment_of : Entry → Fragment
fragment_of e = record {
  datagram_id = e.id;
  total_bytes = length e.payload;
  offset = e.offset;
  payload = drop e.offset e.payload;
}

-- The loop of `planLocked` at the `i`th entry, with `count` fragments planned.
unfoldable pub plan_from : Parameters → ℕ → ℕ → ℕ → ℕ → Cursor → List Entry → Plan
plan_from p max_fragments count used i cursor [] = record {
  fragments = [];
  used = used;
  cursor = cursor;
  is_full = false;
}
plan_from p max_fragments count used i cursor (e ∷ es) =
    let n = consumed p used e in
    let after = used + descriptor_bytes + n in
    let more =
      plan_from p max_fragments (count + 1) after (i + 1) (record { next = i + 1; bytes = 0 }) es in
    if has_no_room p count used e || would_split_too_often p max_fragments used e
    then record { fragments = []; used = used; cursor = cursor; is_full = true }
    else if ltb n (remaining e)
    then record {
      fragments = fragment_of e ∷ [];
      used = after;
      cursor = record { next = i; bytes = n };
      is_full = true;
    }
    else record more { fragments = fragment_of e ∷ more.fragments }

unfoldable pub plan_group : State → Plan
plan_group q =
    let p = q.epoch.parameters in
    let r = plan_from p q.limits.max_fragments 0 manifest_bytes 0 start (queued q) in
    record r {
      is_full =
          r.is_full || r.used == p.max_logical_bytes || length r.fragments == p.max_descriptors;
    }

unfoldable pub is_due : State → ℕ → Plan → Bool
is_due q now planned =
    ltb 0 q.count
    && (planned.is_full || not (ltb now ((at q.ring q.head 0).admitted_at + q.limits.max_delay)))
