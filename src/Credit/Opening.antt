-- ===== src/Credit/Opening.antt =====
-- internal/creditv2/ledger.go: `begin` and `Promote` keep the invariant.
use mpudp.Prelude.{
  ℕ, ◌+◌, ◌-◌, ◌≡◌, ◌≢◌, refl, ◌⊎◌, inl, inr, [], ◌∷◌, Bool, true, false, length, set, get_elem?,
  Option, none, some, Option-cases, ok, arith, total-set, total-append, get_elem?-set_cases,
  get_elem?-append_cases, get_elem?-append_last,
}
use mpudp.Credit.{Claim, Session, Peer, charge, check_claim, is_empty}
use mpudp.Credit.Operations.{begin, promote, begun, opened}
use mpudp.Credit.Levels.{open-IsLevel, flag-IsLevel}
use mpudp.Credit.Balance.{
  IsBalanced, check_claim-IsAffordable, no_level, slot_of, pending_of, established_of,
}
use mpudp.Credit.Charging.{Finds, charge-IsBalanced}

-- A Session as `begin` makes it, and the Peer once it is in the map.
module _ (p : Peer) (pending : Bool) (h : IsBalanced p) (open_peer : p.closed ≡ false)
    (room : p.session_slots ≢ p.limits.max_sessions)
    (quiet : pending ≡ true → p.pending_handshakes ≢ p.limits.max_pending_handshakes) where
  opened-IsBalanced : IsBalanced (opened p pending)
  opened-IsBalanced = record {
    levels = open-IsLevel p.usage p.sessions p.leases h.levels (begun pending) (λ d. no_level d);
    counts = record {
      slots_exact =
          omega (arith, h.counts.slots_exact, total-append slot_of p.sessions (begun pending ∷ []));
      pending_exact =
          ground (
            arith,
            h.counts.pending_exact,
            total-append pending_of p.sessions (begun pending ∷ []),
          );
      established_exact = ground (
        arith,
        h.counts.established_exact,
        total-append established_of p.sessions (begun pending ∷ []),
      );
    };
    caps = record {
      bytes_range = h.caps.bytes_range;
      session_range = h.caps.session_range;
      peer_bytes = h.caps.peer_bytes;
      peer_leases = h.caps.peer_leases;
      peer_streams = h.caps.peer_streams;
      peer_accepts = h.caps.peer_accepts;
      slots = omega (arith, h.caps.slots);
      pending = ground (arith, h.caps.pending, quiet);
      each_session = λ k t e. elim (get_elem?-append_cases p.sessions k (begun pending) t e) [
        | inl (ek, et) ↦ rw (← et) (omega arith, omega arith)
        | inr et ↦ h.caps.each_session k t et
      ];
    };
    settled = λ k t e. elim (get_elem?-append_cases p.sessions k (begun pending) t e) [
      | inl (ek, et) ↦ rw (← et) (ground arith)
      | inr et ↦ h.settled k t et
    ];
  }

-- The tests of `begin`, and what it returns.
begin-parts :
    (p p' : Peer) (initial : Claim) (pending : Bool) (i : ℕ) (j : Option ℕ)
    → begin p initial pending ≡ ok (p', i, j)
    → (p.closed ≡ false)
      × (p.session_slots ≢ p.limits.max_sessions)
      × (pending ≡ true → p.pending_handshakes ≢ p.limits.max_pending_handshakes)
      × (i ≡ length p.sessions)
      × (((is_empty initial ≡ true) × (p' ≡ opened p pending) × (j ≡ none))
          ⊎ ((is_empty initial ≡ false)
              × (check_claim p (begun pending) initial ≡ ok tt)
              × (p' ≡ charge (opened p pending) (length p.sessions) (begun pending) initial)
              × (j ≡ some (length p.leases))))
unfolding begin
begin-parts p p' initial pending i j e = ground arith

pub begin-IsBalanced :
    (p p' : Peer) (initial : Claim) (pending : Bool) (i : ℕ) (j : Option ℕ)
    → IsBalanced p
    → begin p initial pending ≡ ok (p', i, j)
    → IsBalanced p'
begin-IsBalanced p p' initial pending i j h e =
    let (live, room, quiet, _, outcome) = begin-parts p p' initial pending i j e in
    let o = opened-IsBalanced p pending h live room quiet in
    elim outcome [
      | inl (_, same, _) ↦ rw same o
      | inr (_, checked, same, _) ↦
          let a =
            check_claim-IsAffordable p (begun pending) initial h.caps (omega arith, omega arith)
              checked in
          rw same (
            charge-IsBalanced (opened p pending) (length p.sessions) (begun pending) initial o
              (get_elem?-append_last p.sessions (begun pending)) refl
              (record {
                session_bytes = a.session_bytes;
                session_streams = a.session_streams;
                peer_bytes = a.peer_bytes;
                peer_leases = a.peer_leases;
                peer_streams = a.peer_streams;
                peer_accepts = a.peer_accepts;
              }))
    ]

established : Session → Session
established s = record s { pending_handshake = false }

promoted : Peer → ℕ → Session → Peer
unfolding established
promoted p i s = record p {
  pending_handshakes = p.pending_handshakes - 1;
  established_sessions = p.established_sessions + 1;
  sessions = set p.sessions i (established s);
}

promoted-IsBalanced :
    (p : Peer) (i : ℕ) (s : Session)
    → IsBalanced p
    → get_elem? p.sessions i ≡ some s
    → s.closed ≡ false
    → s.pending_handshake ≡ true
    → IsBalanced (promoted p i s)
unfolding promoted
promoted-IsBalanced p i s h es live q =
    let so = h.settled i s es in
    let here : s.registered ≡ true = ground (arith, so) in
    record {
      levels = flag-IsLevel p.usage p.sessions p.leases h.levels i s (established s) es refl;
      counts = record {
        slots_exact =
            ground
              (arith, h.counts.slots_exact, total-set slot_of p.sessions i s (established s) es);
        pending_exact = ground (
          arith,
          here,
          h.counts.pending_exact,
          total-set pending_of p.sessions i s (established s) es,
        );
        established_exact = ground (
          arith,
          here,
          h.counts.established_exact,
          total-set established_of p.sessions i s (established s) es,
        );
      };
      caps = record {
        bytes_range = h.caps.bytes_range;
        session_range = h.caps.session_range;
        peer_bytes = h.caps.peer_bytes;
        peer_leases = h.caps.peer_leases;
        peer_streams = h.caps.peer_streams;
        peer_accepts = h.caps.peer_accepts;
        slots = h.caps.slots;
        pending = omega (arith, h.caps.pending);
        each_session = λ k t e. elim (get_elem?-set_cases p.sessions i k (established s) t e) [
          | inl (ek, et) ↦ rw (← et) (h.caps.each_session i s es)
          | inr (n, et) ↦ h.caps.each_session k t et
        ];
      };
      settled = λ k t e. elim (get_elem?-set_cases p.sessions i k (established s) t e) [
        | inl (ek, et) ↦ rw (← et) so
        | inr (n, et) ↦ h.settled k t et
      ];
    }

promote-parts :
    (p p' : Peer) (session : Option ℕ)
    → promote p session ≡ ok p'
    → (i : ℕ) × (s : Session) × Finds p session i s
      × (s.closed ≡ false)
      × (p.closed ≡ false)
      × (((s.pending_handshake ≡ true) × (p' ≡ promoted p i s))
          ⊎ ((s.pending_handshake ≡ false) × (p' ≡ p)))
unfolding promote promoted
promote-parts p p' none e = cc
promote-parts p p' (some i) e = elim (Option-cases (get_elem? p.sessions i)) [
  | inl n ↦ ground arith
  | inr (s, es) ↦ (i, s, (refl, es), ground arith, ground arith, ground arith)
]

pub promote-IsBalanced :
    (p p' : Peer) (session : Option ℕ) → IsBalanced p → promote p session ≡ ok p' → IsBalanced p'
promote-IsBalanced p p' session h e =
    let (i, s, (_, es), live, _, outcome) = promote-parts p p' session e in
    elim outcome [
      | inl (q, same) ↦ rw same (promoted-IsBalanced p i s h es live q)
      | inr (_, same) ↦ rw same h
    ]
