-- ===== src/ReassemblyV2/Tests.antt =====
-- internal/reassemblyv2: a Datagram in two pieces, the second one first, with its credit in one Session's ledger.
use mpudp.Prelude.{
  ℕ, zero, suc, ◌+◌, ◌<◌, ◌≡◌, refl, List, [], ◌∷◌, true, false, arith, byte_at, none, Result, ok,
  ◌==◌, if◌then◌else◌,
}
use mpudp.Credit
use mpudp.Credit.{Session, Peer}
use mpudp.Credit.Operations
use mpudp.FecV2.{Fragment}
use mpudp.RecvWindow
use mpudp.ReassemblyV2.{Error, search, inspect, copy, write, fresh, is_due}
use mpudp.ReassemblyV2.Receiver.{
  Scope, State, Datagram, check_time, validate_each, validate, plan_one, plan_all, add_pending,
  remove_pending, reserve_all, settle, commit_one, commit_all, plan_group, add_planned, add_group,
}
use mpudp.ReassemblyV2.Assembling.{IsFragmentOf}
use mpudp.ReassemblyV2.Pending.{Holds}
use mpudp.ReassemblyV2.Delivering.{AreWhole}
use mpudp.ReassemblyV2.Groups.{add_group-delivers}
use mpudp.ReassemblyV2.Ledger.{ledger_scope}

abbrev ledger : Peer
ledger = record {
  name = 7;
  limits = record {
    max_peer_bytes = 1000;
    max_session_bytes = 600;
    max_sessions = 2;
    max_pending_handshakes = 1;
    max_pending_accepts = 2;
    max_streams_per_session = 3;
    max_peer_streams = 4;
    max_leases = 8;
  };
  usage = Credit.no_usage;
  session_slots = 1;
  pending_handshakes = 0;
  established_sessions = 1;
  closed = false;
  sessions =
      record {
        usage = Credit.no_usage;
        pending_handshake = false;
        closed = false;
        retired = false;
        registered = true;
      }
      ∷ [];
  leases = [];
}

abbrev scope : Scope Peer
scope = ledger_scope 0

abbrev receiver : State
receiver = record {
  limits = record {
    max_datagrams = 4;
    max_datagram_bytes = 100;
    max_fragments = 3;
    span = 8;
    timeout = 100000000;
  };
  window = record {
    span = 8;
    highest = 0;
    done = RecvWindow.no_bits;
    lost = RecvWindow.no_bits;
    is_closed = false;
  };
  window_lease = none;
  pending = [];
  head = 0;
  tail = 0;
  last = 0;
  have_time = false;
  is_closed = false;
}

abbrev message : ℕ → List ℕ
message id = if id == 1 then 5 ∷ 6 ∷ 7 ∷ 8 ∷ [] else []

abbrev first_half : Fragment
first_half = record { datagram_id = 1; total_bytes = 4; offset = 0; payload = 5 ∷ 6 ∷ [] }

abbrev second_half : Fragment
second_half = record { datagram_id = 1; total_bytes = 4; offset = 2; payload = 7 ∷ 8 ∷ [] }

first_half-IsFragmentOf : IsFragmentOf (message 1) first_half
first_half-IsFragmentOf = record { whole = refl; within = omega arith; bytes = same }
  where
    same : (k : ℕ) → k < 2 → byte_at (5 ∷ 6 ∷ []) k ≡ byte_at (message 1) (0 + k)
    same zero h = refl
    same (suc zero) h = refl
    same (suc (suc k)) h = absurd (omega arith)

second_half-IsFragmentOf : IsFragmentOf (message 1) second_half
second_half-IsFragmentOf = record { whole = refl; within = omega arith; bytes = same }
  where
    same : (k : ℕ) → k < 2 → byte_at (7 ∷ 8 ∷ []) k ≡ byte_at (message 1) (2 + k)
    same zero h = refl
    same (suc zero) h = refl
    same (suc (suc k)) h = absurd (omega arith)

abbrev after_one : Peer × State × Result Error (List Datagram)
after_one = add_group scope ledger receiver 10 (second_half ∷ [])

one_added : after_one ≡ (after_one.0, after_one.1, ok [])
unfolding add_group plan_group check_time validate validate_each plan_all plan_one reserve_all
    add_planned commit_all commit_one settle add_pending write fresh copy RecvWindow.state
    Operations.reserve Credit.check_claim Credit.check_session_claim
one_added = refl

one_pending : Holds message after_one.1.pending
one_pending =
    (add_group-delivers scope message ledger after_one.0 receiver after_one.1 10 (second_half ∷ [])
      [] tt (second_half-IsFragmentOf, tt) one_added).1

abbrev after_two : Peer × State × Result Error (List Datagram)
after_two = add_group scope after_one.0 after_one.1 20 (first_half ∷ [])

abbrev whole : Datagram
whole = record { id = 1; contents = 5 ∷ 6 ∷ 7 ∷ 8 ∷ []; lease = 0 }

two_added : after_two ≡ (after_two.0, after_two.1, ok (whole ∷ []))
unfolding add_group plan_group check_time validate validate_each plan_all plan_one reserve_all
    add_planned commit_all commit_one settle add_pending remove_pending write fresh copy search
    inspect is_due RecvWindow.state RecvWindow.admit Operations.reserve Credit.check_claim
    Credit.check_session_claim
two_added = refl

add_group-delivers_example : AreWhole message (whole ∷ []) × Holds message after_two.1.pending
add_group-delivers_example =
    add_group-delivers scope message after_one.0 after_two.0 after_one.1 after_two.1 20
      (first_half ∷ []) (whole ∷ []) one_pending (first_half-IsFragmentOf, tt) two_added
