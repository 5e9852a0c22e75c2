-- ===== src/Credit/Operations.antt =====
-- internal/creditv2/ledger.go: the operations. A nil handle, or one with no object, is `none`.
use mpudp.Prelude.{
  ℕ, zero, suc, ◌+◌, ◌-◌, [], ◌∷◌, ◌++◌, Bool, true, false, not, ◌&&◌, ◌||◌, ◌==◌, ltb,
  if◌then◌else◌, length, set, get_elem?, Option, none, some, Result, ok, err, ◌>>=◌, ◌>>◌,
  reject_if,
}
use mpudp.Credit.{
  Error, invalid, resource_limit, closed_scope, released_lease, Claim, Session, Lease, Peer,
  max_retained_bytes, no_usage, no_claim, is_empty, one_if, sub64, check_session_claim, check_claim,
  add_claim, subtract_claim, retire, charge,
}

-- A handle: the Peer that it belongs to, and the object's place in that Peer's store.
pub record Handle : Type 0 where
  pub peer : ℕ
  pub place : ℕ

abbrev pub or_invalid {ℓ} : {A : Type ℓ} → Option A → Result Error A
or_invalid none = err invalid
or_invalid (some a) = ok a

abbrev pub same_place : Option ℕ → ℕ → Bool
same_place none j = false
same_place (some i) j = i == j

-- A Session's object as `begin` makes it.
abbrev pub begun : Bool → Session
begun pending = record {
  usage = no_usage;
  pending_handshake = pending;
  closed = false;
  retired = false;
  registered = true;
}

-- The Peer with that Session in its map, counted.
abbrev pub opened : Peer → Bool → Peer
opened p pending = record p {
  session_slots = p.session_slots + 1;
  pending_handshakes = p.pending_handshakes + one_if pending;
  established_sessions = p.established_sessions + one_if (not pending);
  sessions = p.sessions ++ (begun pending ∷ []);
}

unfoldable pub begin : Peer → Claim → Bool → Result Error (Peer × ℕ × Option ℕ)
begin p initial pending = do
  reject_if p.closed closed_scope
  reject_if
      (p.session_slots == p.limits.max_sessions
        || (pending && p.pending_handshakes == p.limits.max_pending_handshakes))
      resource_limit
  if is_empty initial then ok tt else check_claim p (begun pending) initial
  let i = length p.sessions
  if is_empty initial
      then ok (opened p pending, i, none)
      else ok (charge (opened p pending) i (begun pending) initial, i, some (length p.leases))

unfoldable pub begin_handshake : Peer → Claim → Result Error (Peer × ℕ × Option ℕ)
unfolding begin
begin_handshake p initial = begin p initial true

unfoldable pub begin_session : Peer → Claim → Result Error (Peer × ℕ × Option ℕ)
unfolding begin
begin_session p initial = begin p initial false

unfoldable pub promote : Peer → Option ℕ → Result Error Peer
promote p session = do
  i ← or_invalid session
  s ← or_invalid (get_elem? p.sessions i)
  reject_if (s.closed || p.closed) closed_scope
  ok (
      if s.pending_handshake
      then record p {
        pending_handshakes = p.pending_handshakes - 1;
        established_sessions = p.established_sessions + 1;
        sessions = set p.sessions i (record s { pending_handshake = false });
      }
      else p)

unfoldable pub reserve : Peer → Option ℕ → Claim → Result Error (Peer × ℕ)
unfolding charge
reserve p session c = do
  i ← or_invalid session
  s ← or_invalid (get_elem? p.sessions i)
  reject_if (is_empty c) invalid
  reject_if (s.closed || p.closed) closed_scope
  check_claim p s c
  ok (charge p i s c, length p.leases)

unfoldable pub bind_bytes : Peer → Option ℕ → Option Handle → ℕ → Result Error (Peer × Handle)
bind_bytes p session lease required = do
  i ← or_invalid session
  s ← or_invalid (get_elem? p.sessions i)
  h ← or_invalid lease
  reject_if (required == 0 || ltb max_retained_bytes required) invalid
  reject_if (not (h.peer == p.name)) invalid
  l ← or_invalid (get_elem? p.leases h.place)
  reject_if (s.closed || p.closed) closed_scope
  reject_if s.pending_handshake invalid
  reject_if l.released released_lease
  reject_if
      (not (same_place l.owner i)
        || l.bound
        || l.claim.business_stream
        || l.claim.pending_accept
        || ltb l.claim.bytes required)
      invalid
  ok (record p { leases = set p.leases h.place (record l { bound = true }) }, h)

-- The debit, the credit and the move of `Transfer`, once its tests are passed.
unfoldable pub move : Peer → ℕ → Lease → ℕ → Session → ℕ → Session → Peer
unfolding add_claim subtract_claim retire
move p j l source s target t =
    let s' = record s { usage = subtract_claim s.usage l.claim } in
    let t' = record t { usage = add_claim t.usage l.claim } in
    retire
      (record p {
        sessions = set (set p.sessions source s') target t';
        leases = set p.leases j (record l { owner = some target });
      })
      source s'

unfoldable pub transfer : Peer → Option ℕ → Option Handle → Result Error Peer
unfolding move
transfer p lease destination = do
  j ← or_invalid lease
  l ← or_invalid (get_elem? p.leases j)
  h ← or_invalid destination
  reject_if (not (h.peer == p.name)) invalid
  t ← or_invalid (get_elem? p.sessions h.place)
  reject_if l.released released_lease
  reject_if (t.closed || p.closed) closed_scope
  source ← or_invalid l.owner
  s ← or_invalid (get_elem? p.sessions source)
  if source == h.place
      then ok p
      else reject_if l.bound invalid
        >> check_session_claim p t l.claim
        >> ok (move p j l source s h.place t)

-- `MarkAccepted`'s write to a lease.
abbrev pub unpended : Lease → Lease
unpended l = record l {
  claim = record {
    bytes = l.claim.bytes;
    business_stream = l.claim.business_stream;
    pending_accept = false;
  };
}

unfoldable pub mark_accepted : Peer → Option ℕ → Result Error Peer
mark_accepted p lease = do
  j ← or_invalid lease
  l ← or_invalid (get_elem? p.leases j)
  reject_if l.released released_lease
  i ← or_invalid l.owner
  s ← or_invalid (get_elem? p.sessions i)
  reject_if (s.closed || p.closed) closed_scope
  reject_if (s.pending_handshake || not l.accept_reserved) invalid
  let u = s.usage
  let v = p.usage
  ok (
      if l.claim.pending_accept
      then record p {
        usage = record v { pending_accepts = v.pending_accepts - 1 };
        sessions =
            set p.sessions i
              (record s { usage = record u { pending_accepts = u.pending_accepts - 1 } });
        leases = set p.leases j (unpended l);
      }
      else p)

-- `ShrinkBytes`' write to a lease.
abbrev pub shrunk : Lease → ℕ → Lease
shrunk l bytes = record l {
  claim = record {
    bytes = bytes;
    business_stream = l.claim.business_stream;
    pending_accept = l.claim.pending_accept;
  };
}

unfoldable pub shrink_bytes : Peer → Option ℕ → ℕ → Result Error Peer
shrink_bytes p lease bytes = do
  j ← or_invalid lease
  l ← or_invalid (get_elem? p.leases j)
  reject_if l.released released_lease
  i ← or_invalid l.owner
  s ← or_invalid (get_elem? p.sessions i)
  reject_if (ltb l.claim.bytes bytes) invalid
  let freed = sub64 l.claim.bytes bytes
  let u = s.usage
  let v = p.usage
  ok (record p {
    usage = record v { bytes = sub64 v.bytes freed };
    sessions = set p.sessions i (record s { usage = record u { bytes = sub64 u.bytes freed } });
    leases = set p.leases j (shrunk l bytes);
  })

-- The body of `Release` on a live lease `l` at `j` whose owner is the Session `s` at `i`.
unfoldable pub discharge : Peer → ℕ → Lease → ℕ → Session → Peer
unfolding subtract_claim retire
discharge p j l i s =
    let s' = record s { usage = subtract_claim s.usage l.claim } in
    retire
      (record p {
        usage = subtract_claim p.usage l.claim;
        sessions = set p.sessions i s';
        leases = set p.leases j (record l { owner = none; claim = no_claim; released = true });
      })
      i s'

-- `Release` does nothing where an object is missing or the lease is released already.
unfoldable pub release : Peer → Option ℕ → Peer
unfolding discharge
release p none = p
release p (some j) = elim (get_elem? p.leases j) [
  | none ↦ p
  | some l ↦ if l.released then p else elim l.owner [
    | none ↦ p
    | some i ↦ elim (get_elem? p.sessions i) [ none ↦ p | some s ↦ discharge p j l i s ]
  ]
]

-- `closed = true`, then `retireLocked`.
unfoldable pub shut : Peer → ℕ → Session → Peer
unfolding retire
shut p i s =
    let s' = record s { closed = true } in retire (record p { sessions = set p.sessions i s' }) i s'

unfoldable pub close_session : Peer → Option ℕ → Peer
unfolding shut
close_session p none = p
close_session p (some i) = elim (get_elem? p.sessions i) [ none ↦ p | some s ↦ shut p i s ]

-- One round of `Peer.Close`, at place `i`.
unfoldable pub close_at : Peer → ℕ → Peer
unfolding shut
close_at p i = elim (get_elem? p.sessions i) [
  | none ↦ p
  | some s ↦ if s.registered then shut p i s else p
]

-- Its loop over the registered Sessions, with `n` places from `i` on still to be met.
-- Go's order over the map is arbitrary; the Sessions do not see one another.
unfoldable pub close_all : Peer → ℕ → ℕ → Peer
close_all p i zero = p
close_all p i (suc n) = close_all (close_at p i) (i + 1) n

unfoldable pub close_peer : Peer → Peer
unfolding close_all
close_peer p = if p.closed then p else close_all (record p { closed = true }) 0 (length p.sessions)
