-- ===== src/Credit/Balance.antt =====
-- internal/creditv2/ledger.go: the ledger's invariant, and what its parts say of one write.
use mpudp.Prelude.{
  ℕ, ◌+◌, ◌≤◌, ◌<◌, ◌≡◌, refl, List, Bool, true, false, not, ◌&&◌, get_elem?, some, ok, arith,
  total,
}
use mpudp.Credit.{
  Claim, Usage, Session, Limits, Peer, one_if, no_usage, max_retained_bytes, check_claim,
  check_session_claim, add_claim, subtract_claim, new, fresh,
}
use mpudp.Credit.Levels.{
  IsLevel, Dimension, in_bytes, in_reservations, in_streams, in_accepts, level, amount,
}

abbrev pub slot_of : Session → ℕ
slot_of s = one_if s.registered

abbrev pub pending_of : Session → ℕ
pending_of s = one_if (s.registered && s.pending_handshake)

abbrev pub established_of : Session → ℕ
established_of s = one_if (s.registered && not s.pending_handshake)

-- The Peer's counts of Sessions are the numbers of registered Sessions of each kind.
pub record IsCounted (slots pending established : ℕ) (ss : List Session) : Type 0 where
  pub slots_exact : slots ≡ total slot_of ss
  pub pending_exact : pending ≡ total pending_of ss
  pub established_exact : established ≡ total established_of ss

abbrev pub IsSessionCapped : Limits → Session → Type 0
IsSessionCapped m s =
    (s.usage.bytes ≤ m.max_session_bytes) × (s.usage.business_streams ≤ m.max_streams_per_session)

-- The limits, and every counter that they bound.
pub record IsCapped (p : Peer) : Type 0 where
  pub bytes_range : p.limits.max_peer_bytes ≤ max_retained_bytes
  pub session_range : p.limits.max_session_bytes ≤ p.limits.max_peer_bytes
  pub peer_bytes : p.usage.bytes ≤ p.limits.max_peer_bytes
  pub peer_leases : p.usage.reservations ≤ p.limits.max_leases
  pub peer_streams : p.usage.business_streams ≤ p.limits.max_peer_streams
  pub peer_accepts : p.usage.pending_accepts ≤ p.limits.max_pending_accepts
  pub slots : p.session_slots ≤ p.limits.max_sessions
  pub pending : p.pending_handshakes ≤ p.limits.max_pending_handshakes
  pub each_session :
      (i : ℕ) (s : Session) → get_elem? p.sessions i ≡ some s → IsSessionCapped p.limits s

-- A closed Session leaves the map when its last lease goes, and not before; one that left the map
-- is closed and holds nothing; a closed Peer has closed its Sessions.
abbrev pub IsSettled : Bool → Session → Type 0
IsSettled peer_closed s =
    (s.closed ≡ true → s.registered ≡ true → 0 < s.usage.reservations)
    × (s.registered ≡ false → (s.usage.reservations ≡ 0) × (s.closed ≡ true))
    × (s.registered ≡ not s.retired)
    × (peer_closed ≡ true → s.closed ≡ true)

-- The invariant of the ledger between two calls.
pub record IsBalanced (p : Peer) : Type 0 where
  pub levels : IsLevel p.usage p.sessions p.leases
  pub counts : IsCounted p.session_slots p.pending_handshakes p.established_sessions p.sessions
  pub caps : IsCapped p
  pub settled : (i : ℕ) (s : Session) → get_elem? p.sessions i ≡ some s → IsSettled p.closed s

-- A claim that fits under the limits of the Session and of the Peer.
pub record IsAffordable (p : Peer) (s : Session) (c : Claim) : Type 0 where
  pub session_bytes : s.usage.bytes + c.bytes ≤ p.limits.max_session_bytes
  pub session_streams :
      s.usage.business_streams + one_if c.business_stream ≤ p.limits.max_streams_per_session
  pub peer_bytes : p.usage.bytes + c.bytes ≤ p.limits.max_peer_bytes
  pub peer_leases : p.usage.reservations + 1 ≤ p.limits.max_leases
  pub peer_streams : p.usage.business_streams + one_if c.business_stream ≤ p.limits.max_peer_streams
  pub peer_accepts :
      p.usage.pending_accepts + one_if c.pending_accept ≤ p.limits.max_pending_accepts

module _ (p : Peer) (s : Session) (c : Claim) (cap : IsCapped p)
    (sc : IsSessionCapped p.limits s) where
  pub check_session_claim-fits :
      check_session_claim p s c ≡ ok tt
      → (s.usage.bytes + c.bytes ≤ p.limits.max_session_bytes)
        × (s.usage.business_streams + one_if c.business_stream ≤ p.limits.max_streams_per_session)
  unfolding check_session_claim
  check_session_claim-fits e = ground arith

  pub check_claim-IsAffordable : check_claim p s c ≡ ok tt → IsAffordable p s c
  unfolding check_claim check_session_claim
  check_claim-IsAffordable e = ground arith

  pub IsAffordable-check_claim : IsAffordable p s c → check_claim p s c ≡ ok tt
  unfolding check_claim check_session_claim
  IsAffordable-check_claim a = ground arith

-- The counters' arithmetic is exact: no uint64 sum wraps, and nothing is taken below 0.
pub level-add_claim :
    (d : Dimension) (u : Usage) (c : Claim)
    → u.bytes + c.bytes ≤ max_retained_bytes
    → level d (add_claim u c) ≡ level d u + amount d c
unfolding add_claim
level-add_claim in_bytes u c h = omega arith
level-add_claim _ u c h = refl

pub level-subtract_claim :
    (d : Dimension) (u : Usage) (c : Claim)
    → u.bytes ≤ max_retained_bytes
    → amount d c ≤ level d u
    → level d (subtract_claim u c) + amount d c ≡ level d u
unfolding subtract_claim
level-subtract_claim in_bytes u c h k = omega arith
level-subtract_claim in_reservations u c h k = omega arith
level-subtract_claim in_streams u c h k = ground arith
level-subtract_claim in_accepts u c h k = ground arith

pub no_level : (d : Dimension) → level d no_usage ≡ 0
no_level in_bytes = refl
no_level _ = refl

fresh-IsLevel :
    (name : ℕ) (m : Limits) → let p = fresh name m in IsLevel p.usage p.sessions p.leases
unfolding fresh
fresh-IsLevel name m = record {
  peer_level = no_level;
  session_level = λ d i s e. cc;
  owners = λ j l e live. cc;
}

new-bounds :
    (name : ℕ) (m : Limits) (p : Peer)
    → new name m ≡ ok p
    → (fresh name m ≡ p)
      × (m.max_peer_bytes ≤ max_retained_bytes)
      × (m.max_session_bytes ≤ m.max_peer_bytes)
unfolding new
new-bounds name m p e = ground arith

pub new-IsBalanced : (name : ℕ) (m : Limits) (p : Peer) → new name m ≡ ok p → IsBalanced p
new-IsBalanced name m p e =
    let (same, b, b') = new-bounds name m p e in
    rw (← same) (record {
      levels = fresh-IsLevel name m;
      counts =
          unfold fresh in
          record { slots_exact = refl; pending_exact = refl; established_exact = refl };
      caps =
          unfold fresh in
          record {
            bytes_range = b;
            session_range = b';
            peer_bytes = omega arith;
            peer_leases = omega arith;
            peer_streams = omega arith;
            peer_accepts = omega arith;
            slots = omega arith;
            pending = omega arith;
            each_session = λ i s e. cc;
          };
      settled = unfold fresh in λ i s e. cc;
    })
