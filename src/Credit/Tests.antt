-- ===== src/Credit/Tests.antt =====
-- internal/creditv2/ledger.go: the theorems at a concrete history of one ledger.
use mpudp.Prelude.{
  zero, suc, ◌<◌, ◌⊎◌, ◌≢◌, inl, length, subst, ℕ, ◌≡◌, refl, ◌↔◌, [], ◌∷◌, ◌++◌, true, false,
  get_elem?, none, some, ok, err, arith,
}
use mpudp.Credit.{
  Limits, Claim, Session, Lease, Peer, resource_limit, no_usage, no_claim, new, fresh, charge,
  retire, check_claim, check_session_claim, add_claim, subtract_claim, new_lease,
}
use mpudp.Credit.Operations.{
  begin, reserve, transfer, release, discharge, move, close_session, close_peer, close_all,
  close_at, shut,
}
use mpudp.Credit.Balance.{IsBalanced, IsAffordable}
use mpudp.Credit.Releasing.{spent}
use mpudp.Credit.Outcomes.{reserve_iff}
use mpudp.Credit.Handover.{IsMoved, transfer-IsMoved}
use mpudp.Credit.Draining.{IsListed, release_each, close_peer-drains}
use mpudp.Credit.Ledger.{
  begins, reserves, releases, transfers, closes_session, closes, Reach, here, next,
  reachable-IsBalanced, release-reserve,
}

abbrev limits : Limits
limits = record {
  max_peer_bytes = 1000;
  max_session_bytes = 600;
  max_sessions = 2;
  max_pending_handshakes = 1;
  max_pending_accepts = 2;
  max_streams_per_session = 3;
  max_peer_streams = 4;
  max_leases = 8;
}

abbrev start : Peer
start = record {
  name = 7;
  limits = limits;
  usage = no_usage;
  session_slots = 0;
  pending_handshakes = 0;
  established_sessions = 0;
  closed = false;
  sessions = [];
  leases = [];
}

started : new 7 limits ≡ ok start
unfolding new fresh
started = refl

abbrev idle : Session
idle = record {
  usage = no_usage;
  pending_handshake = false;
  closed = false;
  retired = false;
  registered = true;
}

abbrev claim : Claim
claim = record { bytes = 400; business_stream = true; pending_accept = false }

-- Two Sessions, the first with a claim.
abbrev one_session : Peer
one_session = record start { session_slots = 1; established_sessions = 1; sessions = idle ∷ [] }

abbrev two_sessions : Peer
two_sessions = record start {
  session_slots = 2;
  established_sessions = 2;
  sessions = idle ∷ idle ∷ [];
}

begun_once : begin start no_claim false ≡ ok (one_session, 0, none)
unfolding begin
begun_once = refl

begun_twice : begin one_session no_claim false ≡ ok (two_sessions, 1, none)
unfolding begin
begun_twice = refl

abbrev taken : Lease
taken = record {
  owner = some 0;
  claim = claim;
  accept_reserved = false;
  bound = false;
  released = false;
}

abbrev busy : Session
busy = record idle {
  usage = record { bytes = 400; reservations = 1; business_streams = 1; pending_accepts = 0 };
}

abbrev reserved : Peer
reserved = record two_sessions {
  usage = busy.usage;
  sessions = busy ∷ idle ∷ [];
  leases = taken ∷ [];
}

reserved_once : reserve two_sessions (some 0) claim ≡ ok (reserved, 0)
unfolding reserve check_claim check_session_claim charge add_claim
reserved_once = refl

over_limit : reserve reserved (some 0) claim ≡ err resource_limit
unfolding reserve check_claim check_session_claim charge add_claim
over_limit = refl

abbrev handed_over : Peer
handed_over = record reserved {
  sessions = idle ∷ busy ∷ [];
  leases = record taken { owner = some 1 } ∷ [];
}

transferred : transfer reserved (some 0) (some (record { peer = 7; place = 1 })) ≡ ok handed_over
unfolding transfer move check_session_claim add_claim subtract_claim retire
transferred = refl

abbrev drained : Peer
drained = record two_sessions { leases = spent taken ∷ [] }

released_once : release handed_over (some 0) ≡ drained
unfolding release discharge subtract_claim retire
released_once = refl

abbrev gone : Session
gone = record idle { closed = true; retired = true; registered = false }

abbrev ended : Peer
ended = record start { closed = true; sessions = gone ∷ gone ∷ []; leases = spent taken ∷ [] }

all_closed : close_peer drained ≡ ended
unfolding close_peer close_all close_at shut retire
all_closed = refl

to_reserved : Reach start reserved
to_reserved =
    next
      (next (next here (begins no_claim false 0 none begun_once))
        (begins no_claim false 1 none begun_twice))
      (reserves (some 0) claim 0 reserved_once)

to_handed_over : Reach start handed_over
to_handed_over =
    next to_reserved (transfers (some 0) (some (record { peer = 7; place = 1 })) transferred)

to_drained : Reach start drained
to_drained = next to_handed_over (releases (some 0) released_once)

one_lease : length (close_peer handed_over).leases ≡ 1
unfolding close_peer close_all close_at shut retire
one_lease = refl

reachable-IsBalanced_example : IsBalanced ended
reachable-IsBalanced_example =
    reachable-IsBalanced 7 limits start ended started (next to_drained (closes all_closed))

two_sessions-IsBalanced : IsBalanced two_sessions
two_sessions-IsBalanced = reachable-IsBalanced 7 limits start two_sessions started (
    next (next here (begins no_claim false 0 none begun_once))
      (begins no_claim false 1 none begun_twice))

-- The Peer is closed with its lease still live, which is released then.
all-IsListed : (j : ℕ) → j < 1 → IsListed j (0 ∷ [])
all-IsListed zero h = inl refl
all-IsListed (suc j) h = absurd (omega arith)

close_peer-drains_example :
    (let q = release_each (close_peer handed_over) (0 ∷ []) in
      (q.usage ≡ no_usage)
      × (q.session_slots ≡ 0)
      × (q.pending_handshakes ≡ 0)
      × (q.established_sessions ≡ 0)
      × ((i : ℕ) (s : Session)
          → get_elem? q.sessions i ≡ some s
          → (s.registered ≡ false) × (s.usage ≡ no_usage)))
close_peer-drains_example =
    close_peer-drains 7 limits start handed_over (0 ∷ []) started to_handed_over
      (λ j h. all-IsListed j (subst (λ (n : ℕ). j < n) one_lease h))

release-reserve_example :
    (i : ℕ) × (some 0 ≡ some i)
    × (release reserved (some 0)
        ≡ record two_sessions { leases = [] ++ (spent (new_lease i claim) ∷ []) })
release-reserve_example =
    release-reserve two_sessions reserved (some 0) claim 0 two_sessions-IsBalanced reserved_once

reserve_iff_example :
    (reserve two_sessions (some 0) claim ≡ ok (charge two_sessions 0 idle claim, 0))
    ↔ IsAffordable two_sessions idle claim
reserve_iff_example =
    reserve_iff two_sessions 0 idle claim two_sessions-IsBalanced refl refl refl refl

-- The source is closed: with the lease it leaves the Peer.
abbrev closing : Peer
closing = record reserved { sessions = record busy { closed = true } ∷ idle ∷ [] }

closed_source : close_session reserved (some 0) ≡ closing
unfolding close_session shut retire
closed_source = refl

closing-IsBalanced : IsBalanced closing
closing-IsBalanced =
    reachable-IsBalanced 7 limits start closing started
      (next to_reserved (closes_session (some 0) closed_source))

abbrev left_alone : Peer
left_alone = record handed_over {
  session_slots = 1;
  established_sessions = 1;
  sessions = gone ∷ busy ∷ [];
}

transferred_last : transfer closing (some 0) (some (record { peer = 7; place = 1 })) ≡ ok left_alone
unfolding transfer move check_session_claim add_claim subtract_claim retire
transferred_last = refl

transfer-IsMoved_example :
    (l : Lease) × (a : ℕ) × (get_elem? closing.leases 0 ≡ some l)
    × (l.owner ≡ some a)
    × (((1 ≡ a) × (left_alone ≡ closing))
        ⊎ ((s : Session) × (t : Session) × (1 ≢ a)
            × (get_elem? closing.sessions a ≡ some s)
            × (get_elem? closing.sessions 1 ≡ some t)
            × (t.closed ≡ false)
            × IsMoved closing left_alone 0 a 1 l s t))
transfer-IsMoved_example =
    transfer-IsMoved closing left_alone 0 (record { peer = 7; place = 1 }) closing-IsBalanced
      transferred_last
