-- ===== src/AggregationV2/Tests.antt =====
-- internal/aggregationv2: a queue over one Session of a credit ledger, and its next group.
use mpudp.Prelude.{
  ◌==◌, ◌&&◌, if◌then◌else◌, length, ℕ, ◌<◌, ◌≡◌, ◌⊎◌, inl, refl, List, [], ◌∷◌, ◌++◌, Bool, true,
  false, arith, All, total, replicate, Option, none, some, ok, err, ◌≢◌,
}
use mpudp.Credit
use mpudp.Credit.{Session, Lease, Peer}
use mpudp.Credit.Operations.{begin}
use mpudp.Credit.Operations
use mpudp.Credit.Balance.{IsBalanced}
use mpudp.Credit.Ledger.{begins, reserves, here, next, reachable-IsBalanced}
use mpudp.FecV2
use mpudp.FecV2.{Parameters, payloads, logical_size}
use mpudp.FecV2.Packing.{is_full, encode_prefix, planned, plan, validate_fragments}
use mpudp.Credit.Releasing.{spent}
use mpudp.FecV2.Codec.{encode}
use mpudp.Fec.Parts.{HasSize}
use mpudp.FecV2.Packing.Consumed.{unconsumed, weight}
use mpudp.FecV2.Packing.Consumed
use mpudp.AggregationV2.{
  from_codec, Scope, Limits, Epoch, Entry, no_entry, State, queued, required_initial_bytes,
  has_no_room, would_split_too_often, plan_from, plan_group, is_due,
}
use mpudp.AggregationV2.Queue.{
  Output, new, prepare, new_queue, check, check_payload, reserve_some, append, admit, release_some,
  cancel, seal_planned, seal, emit,
}
use mpudp.AggregationV2.Validity.{IsValid}
use mpudp.AggregationV2.Starting.{new-IsValid}
use mpudp.AggregationV2.Admission.{admitted, admit-appends}
use mpudp.AggregationV2.Cancelling.{cancel-removes}
use mpudp.AggregationV2.Sealing.{IsEncoding, waiting, seal-progress}
use mpudp.AggregationV2.Undoing.{seal-undone}
use mpudp.AggregationV2.Ledger.{ledger_scope, bytes_only}

abbrev ledger_limits : Credit.Limits
ledger_limits = record {
  max_peer_bytes = 1000;
  max_session_bytes = 600;
  max_sessions = 2;
  max_pending_handshakes = 1;
  max_pending_accepts = 2;
  max_streams_per_session = 3;
  max_peer_streams = 4;
  max_leases = 8;
}

abbrev peer_start : Peer
peer_start = record {
  name = 7;
  limits = ledger_limits;
  usage = Credit.no_usage;
  session_slots = 0;
  pending_handshakes = 0;
  established_sessions = 0;
  closed = false;
  sessions = [];
  leases = [];
}

abbrev idle : Session
idle = record {
  usage = Credit.no_usage;
  pending_handshake = false;
  closed = false;
  retired = false;
  registered = true;
}

abbrev one_session : Peer
one_session = record peer_start {
  session_slots = 1;
  established_sessions = 1;
  sessions = idle ∷ [];
}

peer_started : Credit.new 7 ledger_limits ≡ ok peer_start
unfolding Credit.new Credit.fresh
peer_started = refl

session_begun : begin peer_start Credit.no_claim false ≡ ok (one_session, 0, none)
unfolding begin
session_begun = refl

abbrev scope : Scope Peer
scope = ledger_scope 0

abbrev params : Parameters
params = record {
  data_shards = 1;
  parity_shards = 1;
  shard_bytes = 60;
  max_descriptors = 2;
  max_logical_bytes = 50;
  max_datagram_bytes = 1000;
}

abbrev limits : Limits
limits = record {
  max_queued_datagrams = 3;
  max_queued_bytes = 90;
  max_datagram_bytes = 80;
  max_fragments = 4;
  max_delay = 1000;
}

abbrev epoch : Epoch
epoch = record { id = 9; parameters = params }

abbrev all_accepted : ℕ → ℕ → Bool
all_accepted k r = true

abbrev ring_lease : Lease
ring_lease =
    Credit.new_lease 0 (record { bytes = 240; business_stream = false; pending_accept = false })

-- The ledger with the ring's lease.
abbrev prepaid : Peer
prepaid = record one_session {
  usage = record { bytes = 240; reservations = 1; business_streams = 0; pending_accepts = 0 };
  sessions =
      record idle {
        usage = record { bytes = 240; reservations = 1; business_streams = 0; pending_accepts = 0 };
      }
      ∷ [];
  leases = ring_lease ∷ [];
}

abbrev empty_queue : State
empty_queue = record {
  limits = limits;
  epoch = epoch;
  ring = no_entry ∷ no_entry ∷ no_entry ∷ [];
  ring_lease = some 0;
  head = 0;
  count = 0;
  retained_bytes = 0;
  next_datagram_id = 1;
  next_group_id = 1;
  output_bytes = 168;
  last_now = 0;
  have_now = false;
  is_closed = false;
}

made : new scope all_accepted one_session limits epoch ≡ ok (prepaid, empty_queue)
unfolding new prepare new_queue required_initial_bytes FecV2.validate Operations.reserve
    Credit.check_claim Credit.check_session_claim Credit.charge Credit.add_claim
made = refl

empty_queue-IsValid : IsValid empty_queue × (queued empty_queue ≡ [])
empty_queue-IsValid =
    new-IsValid scope all_accepted one_session prepaid limits epoch empty_queue made

abbrev bytes_of_40 : List ℕ
bytes_of_40 = replicate 40 6

abbrev lease_of_40 : Lease
lease_of_40 =
    Credit.new_lease 0 (record { bytes = 40; business_stream = false; pending_accept = false })

abbrev charged : Peer
charged = record prepaid {
  usage = record { bytes = 280; reservations = 2; business_streams = 0; pending_accepts = 0 };
  sessions =
      record idle {
        usage = record { bytes = 280; reservations = 2; business_streams = 0; pending_accepts = 0 };
      }
      ∷ [];
  leases = ring_lease ∷ lease_of_40 ∷ [];
}

abbrev entry : Entry
entry = admitted empty_queue bytes_of_40 5 (some 1)

abbrev one_queued : State
one_queued = record empty_queue {
  ring = entry ∷ no_entry ∷ no_entry ∷ [];
  count = 1;
  retained_bytes = 40;
  next_datagram_id = 2;
  last_now = 5;
  have_now = true;
}

admitted_once : admit scope prepaid empty_queue bytes_of_40 5 ≡ ok (charged, one_queued, 1)
unfolding admit check check_payload reserve_some append Operations.reserve Credit.check_claim
    Credit.check_session_claim Credit.charge Credit.add_claim
admitted_once = refl

admit-appends_example :
    (lease : Option ℕ) × (reserve_some scope prepaid 40 ≡ ok (charged, lease))
    × (◌≡◌ {A = ℕ} 1 1)
    × IsValid one_queued
    × (queued one_queued ≡ queued empty_queue ++ (admitted empty_queue bytes_of_40 5 lease ∷ []))
admit-appends_example =
    admit-appends scope prepaid charged empty_queue one_queued bytes_of_40 5 1 empty_queue-IsValid.0
      admitted_once

one_queued-IsValid : IsValid one_queued
one_queued-IsValid =
    (admit-appends scope prepaid charged empty_queue one_queued bytes_of_40 5 1
      empty_queue-IsValid.0 admitted_once).3

cancel-removes_example :
    (let (s', q', found) = cancel scope charged one_queued 1 in
      ((found ≡ false)
        × (s' ≡ charged)
        × (q' ≡ one_queued)
        × All (λ (e : Entry). e.id ≢ 1) (queued one_queued))
      ⊎ ((xs : List Entry) × (e : Entry) × (ys : List Entry) × (found ≡ true)
          × (queued one_queued ≡ xs ++ (e ∷ ys))
          × (e.id ≡ 1)
          × (queued q' ≡ xs ++ ys)
          × (s' ≡ release_some scope charged e.lease)
          × IsValid q'))
cancel-removes_example = cancel-removes scope charged one_queued 1 one_queued-IsValid

abbrev output_lease : Lease
output_lease =
    Credit.new_lease 0 (record { bytes = 168; business_stream = false; pending_accept = false })

abbrev charged_output : Peer
charged_output = record charged {
  usage = record { bytes = 448; reservations = 3; business_streams = 0; pending_accepts = 0 };
  sessions =
      record idle {
        usage = record { bytes = 448; reservations = 3; business_streams = 0; pending_accepts = 0 };
      }
      ∷ [];
  leases = ring_lease ∷ lease_of_40 ∷ output_lease ∷ [];
}

output_reserved : scope.reserve charged 168 ≡ ok (charged_output, 2)
unfolding Operations.reserve Credit.check_claim Credit.check_session_claim Credit.charge
    Credit.add_claim
output_reserved = refl

checked : check scope charged one_queued 7 ≡ ok tt
unfolding check
checked = refl

-- One data shard and its copy, of 60 bytes; the library refuses any others.
abbrev copied : List (List ℕ) → Option (List (List ℕ))
copied [] = none
copied (a ∷ []) = none
copied (a ∷ b ∷ []) = if length a == 60 && length b == 60 then some (a ∷ a ∷ []) else none
copied (a ∷ b ∷ c ∷ rest) = none

copied-IsEncoding : IsEncoding copied 2 60
copied-IsEncoding = record { encodes = two }
  where
    two :
        (shards : List (List ℕ))
        → length shards ≡ 2
        → HasSize 60 shards
        → (full : List (List ℕ)) × (copied shards ≡ some full)
    two [] h sized = absurd (omega arith)
    two (a ∷ []) h sized = absurd (omega arith)
    two (a ∷ b ∷ []) h (la, (lb, _)) = (a ∷ a ∷ [], ground (arith, la, lb))
    two (a ∷ b ∷ c ∷ rest) h sized = absurd (omega arith)

seal-progress_example :
    (s'' : Peer) × (q' : State) × (o : Output) × (n : ℕ) × (b : ℕ) × (seal scope copied charged
        one_queued 7 true
      ≡ (s'', q', ok (some o)))
    × IsValid q'
    × (encode copied params (Consumed.consumed n b (waiting one_queued)) ≡ ok o.group)
    × (o.group_id ≡ 1)
    × (o.lease ≡ 2)
    × (waiting q' ≡ unconsumed n b (waiting one_queued))
    × (payloads (Consumed.consumed n b (waiting one_queued)) ++ payloads (waiting q')
        ≡ payloads (waiting one_queued))
    × (total weight (waiting q') < total weight (waiting one_queued))
seal-progress_example =
    seal-progress scope copied charged charged_output one_queued 7 2 true one_queued-IsValid checked
      (omega arith) (omega arith) (inl refl) output_reserved copied-IsEncoding

-- A library that always fails: the output's reservation is given up.
abbrev broken : List (List ℕ) → Option (List (List ℕ))
broken shards = none

abbrev given_up : Peer
given_up = record charged { leases = ring_lease ∷ lease_of_40 ∷ spent output_lease ∷ [] }

encode_failed :
    seal scope broken charged one_queued 7 true
    ≡ (given_up, one_queued, err (from_codec FecV2.invalid))
unfolding seal seal_planned emit check plan_group plan_from is_due has_no_room would_split_too_often
    encode_prefix planned plan validate_fragments encode logical_size Operations.reserve
    Credit.check_claim Credit.check_session_claim Credit.charge Credit.add_claim Operations.release
    Operations.discharge Credit.subtract_claim Credit.retire FecV2.validate_fragment is_full
    FecV2.size_from
encode_failed = refl

ring_reserved : Operations.reserve one_session (some 0) (bytes_only 240) ≡ ok (prepaid, 0)
unfolding Operations.reserve Credit.check_claim Credit.check_session_claim Credit.charge
    Credit.add_claim
ring_reserved = refl

entry_reserved : Operations.reserve prepaid (some 0) (bytes_only 40) ≡ ok (charged, 1)
unfolding Operations.reserve Credit.check_claim Credit.check_session_claim Credit.charge
    Credit.add_claim
entry_reserved = refl

charged-IsBalanced : IsBalanced charged
charged-IsBalanced = reachable-IsBalanced 7 ledger_limits peer_start charged peer_started (
    next
      (next (next here (begins Credit.no_claim false 0 none session_begun))
        (reserves (some 0) (bytes_only 240) 0 ring_reserved))
      (reserves (some 0) (bytes_only 40) 1 entry_reserved))

seal-undone_example :
    (one_queued ≡ one_queued)
    × ((given_up ≡ charged)
        ⊎ (given_up ≡ record charged {
          leases = charged.leases ++ (spent (Credit.new_lease 0 (bytes_only 168)) ∷ []);
        }))
seal-undone_example =
    seal-undone broken 0 charged given_up one_queued one_queued 7 true (from_codec FecV2.invalid)
      charged-IsBalanced encode_failed
