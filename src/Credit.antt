-- ===== src/Credit.antt =====
-- internal/creditv2/ledger.go: the credit ledger of one Peer, with its Sessions and leases.
-- Sessions and leases are shared objects: a handle is the object's place in the Peer's store.
-- `registered` is membership in the map `sessions`. Every error is returned before the first
-- write, so an operation returns an error or the new store. Counters of type `int` are natural
-- numbers; `Balance` shows that none of them is decremented at 0.
pub mod Operations
pub mod Levels
pub mod Transfer
pub mod Balance
pub mod Retire
pub mod Charging
pub mod Opening
pub mod Binding
pub mod Adjust
pub mod Lowering
pub mod Releasing
pub mod Moving
pub mod Closing
pub mod Outcomes
pub mod Ledger
pub mod Handover
pub mod Draining
mod Tests
use mpudp.Prelude.{
  ℕ, ◌+◌, ◌-◌, ◌%◌, ◌^◌, List, [], ◌∷◌, ◌++◌, Bool, true, false, not, ◌&&◌, ◌||◌, ◌==◌, ltb,
  if◌then◌else◌, length, set, get_elem?, Option, none, some, Result, ok, err, ◌>>=◌, ◌>>◌,
  reject_if,
}

abbrev pub max_retained_bytes : ℕ
max_retained_bytes = 2 ^ 30

abbrev pub max_reservations : ℕ
max_reservations = 2 ^ 20

pub data Error : Type 0 where
  invalid resource_limit closed_scope released_lease : Error

pub record Limits : Type 0 where
  pub max_peer_bytes : ℕ  -- uint64
  pub max_session_bytes : ℕ  -- uint64
  pub max_sessions : ℕ
  pub max_pending_handshakes : ℕ
  pub max_pending_accepts : ℕ
  pub max_streams_per_session : ℕ
  pub max_peer_streams : ℕ
  pub max_leases : ℕ

pub record Claim : Type 0 where
  pub bytes : ℕ  -- uint64
  pub business_stream : Bool
  pub pending_accept : Bool

pub record Usage : Type 0 where
  pub bytes : ℕ  -- uint64
  pub reservations : ℕ
  pub business_streams : ℕ
  pub pending_accepts : ℕ

pub record Session : Type 0 where
  pub usage : Usage
  pub pending_handshake : Bool
  pub closed : Bool
  pub retired : Bool
  pub registered : Bool

pub record Lease : Type 0 where
  pub owner : Option ℕ
  pub claim : Claim
  pub accept_reserved : Bool
  pub bound : Bool
  pub released : Bool

pub record Peer : Type 0 where
  pub name : ℕ  -- tells the Peers apart
  pub limits : Limits
  pub usage : Usage
  pub session_slots : ℕ
  pub pending_handshakes : ℕ
  pub established_sessions : ℕ
  pub closed : Bool
  pub sessions : List Session
  pub leases : List Lease

-- uint64 sums and differences.
abbrev pub add64 : ℕ → ℕ → ℕ
add64 a b = (a + b) % 2 ^ 64

abbrev pub sub64 : ℕ → ℕ → ℕ
sub64 a b = (a + 2 ^ 64 - b) % 2 ^ 64

abbrev pub no_usage : Usage
no_usage = record { bytes = 0; reservations = 0; business_streams = 0; pending_accepts = 0 }

abbrev pub no_claim : Claim
no_claim = record { bytes = 0; business_stream = false; pending_accept = false }

-- `limit < low || limit > high`.
abbrev pub outside : ℕ → ℕ → ℕ → Bool
outside low high limit = ltb limit low || ltb high limit

-- `&peerState{limits: limits, sessions: make(…)}`.
unfoldable pub fresh : ℕ → Limits → Peer
fresh name limits = record {
  name = name;
  limits = limits;
  usage = no_usage;
  session_slots = 0;
  pending_handshakes = 0;
  established_sessions = 0;
  closed = false;
  sessions = [];
  leases = [];
}

unfoldable pub new : ℕ → Limits → Result Error Peer
new name limits = do
  reject_if
      (max_peer_bytes == 0
        || ltb max_retained_bytes max_peer_bytes
        || max_session_bytes == 0
        || ltb max_peer_bytes max_session_bytes)
      invalid
  reject_if
      (outside 1 65536 max_sessions
        || outside 1 4096 max_pending_handshakes
        || outside 1 65536 max_pending_accepts)
      invalid
  reject_if
      (outside 1 4096 max_streams_per_session
        || outside 1 65536 max_peer_streams
        || outside 1 max_reservations max_leases)
      invalid
  ok (fresh name limits)
  where
    open limits use {
      max_peer_bytes, max_session_bytes, max_sessions, max_pending_handshakes, max_pending_accepts,
      max_streams_per_session, max_peer_streams, max_leases,
    }

-- `Claim.empty`.
abbrev pub is_empty : Claim → Bool
is_empty c = c.bytes == 0 && not c.business_stream && not c.pending_accept

abbrev pub one_if : Bool → ℕ
one_if b = if b then 1 else 0

unfoldable pub check_session_claim : Peer → Session → Claim → Result Error (Unit {0})
check_session_claim p s c =
    reject_if
      (ltb (sub64 p.limits.max_session_bytes s.usage.bytes) c.bytes
        || (c.business_stream && s.usage.business_streams == p.limits.max_streams_per_session))
      resource_limit

unfoldable pub check_claim : Peer → Session → Claim → Result Error (Unit {0})
check_claim p s c = do
  check_session_claim p s c
  reject_if
      (ltb (sub64 p.limits.max_peer_bytes p.usage.bytes) c.bytes
        || p.usage.reservations == p.limits.max_leases
        || (c.business_stream && p.usage.business_streams == p.limits.max_peer_streams)
        || (c.pending_accept && p.usage.pending_accepts == p.limits.max_pending_accepts))
      resource_limit

unfoldable pub add_claim : Usage → Claim → Usage
add_claim u c = record {
  bytes = add64 u.bytes c.bytes;
  reservations = u.reservations + 1;
  business_streams = u.business_streams + one_if c.business_stream;
  pending_accepts = u.pending_accepts + one_if c.pending_accept;
}

unfoldable pub subtract_claim : Usage → Claim → Usage
subtract_claim u c = record {
  bytes = sub64 u.bytes c.bytes;
  reservations = u.reservations - 1;
  business_streams = u.business_streams - one_if c.business_stream;
  pending_accepts = u.pending_accepts - one_if c.pending_accept;
}

-- A lease's object as `newLease` makes it.
abbrev pub new_lease : ℕ → Claim → Lease
new_lease owner c = record {
  owner = some owner;
  claim = c;
  accept_reserved = c.pending_accept;
  bound = false;
  released = false;
}

-- `retireLocked` on the Session `s` at `i`.
unfoldable pub retire : Peer → ℕ → Session → Peer
retire p i s =
    if not s.closed || s.retired || not (s.usage.reservations == 0) then p else record p {
      session_slots = p.session_slots - 1;
      pending_handshakes = p.pending_handshakes - one_if s.pending_handshake;
      established_sessions = p.established_sessions - one_if (not s.pending_handshake);
      sessions = set p.sessions i (record s { retired = true; registered = false });
    }

-- `chargeLocked` for the Session `s` at `i`, with the new lease's object.
unfoldable pub charge : Peer → ℕ → Session → Claim → Peer
unfolding add_claim
charge p i s c = record p {
  usage = add_claim p.usage c;
  sessions = set p.sessions i (record s { usage = add_claim s.usage c });
  leases = p.leases ++ (new_lease i c ∷ []);
}
