-- ===== src/Credit/Retire.antt =====
-- internal/creditv2/ledger.go: `retireLocked` restores the invariant at the Session it is called on.
use mpudp.Prelude.{
  ℕ, ◌-◌, ◌<◌, ◌≡◌, ◌≢◌, refl, ◌⊎◌, inl, inr, Bool, true, false, not, ◌||◌, ◌==◌, set, get_elem?,
  some, arith, total-set, get_elem?-set_cases, Bool-cases,
}
use mpudp.Credit.{Session, Peer, one_if, retire}
use mpudp.Credit.Levels.{IsLevel, flag-IsLevel}
use mpudp.Credit.Balance.{IsBalanced, IsCapped, IsCounted, slot_of, pending_of, established_of}

-- All of `IsSettled` but its first part.
abbrev pub IsSound : Bool → Session → Type 0
IsSound peer_closed s =
    (s.registered ≡ false → (s.usage.reservations ≡ 0) × (s.closed ≡ true))
    × (s.registered ≡ not s.retired)
    × (peer_closed ≡ true → s.closed ≡ true)

abbrev pub IsBusy : Session → Type 0
IsBusy s = s.closed ≡ true → s.registered ≡ true → 0 < s.usage.reservations

-- The invariant, with the Session at `i` perhaps due to leave the map.
pub record IsNearly (p : Peer) (i : ℕ) : Type 0 where
  pub levels : IsLevel p.usage p.sessions p.leases
  pub counts : IsCounted p.session_slots p.pending_handshakes p.established_sessions p.sessions
  pub caps : IsCapped p
  pub sound : (k : ℕ) (s : Session) → get_elem? p.sessions k ≡ some s → IsSound p.closed s
  pub busy : (k : ℕ) (s : Session) → k ≢ i → get_elem? p.sessions k ≡ some s → IsBusy s

pub ℕ-cases : (a b : ℕ) → (a ≡ b) ⊎ (a ≢ b)
ℕ-cases a b = ground arith

abbrev pub stays : Session → Bool
stays s = not s.closed || s.retired || not (s.usage.reservations == 0)

abbrev pub gone : Session → Session
gone s = record s { retired = true; registered = false }

abbrev pub without : Peer → ℕ → Session → Peer
without p i s = record p {
  session_slots = p.session_slots - 1;
  pending_handshakes = p.pending_handshakes - one_if s.pending_handshake;
  established_sessions = p.established_sessions - one_if (not s.pending_handshake);
  sessions = set p.sessions i (gone s);
}

pub retire-stays : (p : Peer) (i : ℕ) (s : Session) → stays s ≡ true → retire p i s ≡ p
unfolding retire
retire-stays p i s b = rw b

pub retire-leaves :
    (p : Peer) (i : ℕ) (s : Session) → stays s ≡ false → retire p i s ≡ without p i s
unfolding retire
retire-leaves p i s b = rw b

-- `retire` writes to one Session at most.
pub retire-sessions :
    (p : Peer) (i : ℕ) (s : Session)
    → ((retire p i s).sessions ≡ p.sessions) ⊎ ((retire p i s).sessions ≡ set p.sessions i (gone s))
unfolding retire
retire-sessions p i s = elim (Bool-cases (stays s)) [ inl b ↦ inl (rw b) | inr b ↦ inr (rw b) ]

pub retire-closed : (p : Peer) (i : ℕ) (s : Session) → (retire p i s).closed ≡ p.closed
unfolding retire
retire-closed p i s = ground arith

module _ (p : Peer) (i : ℕ) (s : Session) (h : IsNearly p i)
    (es : get_elem? p.sessions i ≡ some s) where
  -- With a live lease, or still open, that Session may stay.
  pub IsBusy-IsBalanced : IsBusy s → IsBalanced p
  IsBusy-IsBalanced b = record {
    levels = h.levels;
    counts = h.counts;
    caps = h.caps;
    settled = λ k t et. elim (ℕ-cases k i) [
      | inl ek ↦
          let so = h.sound k t et in
          let same : s ≡ t = cc (es, et, ek) in (rw (← same) b, so.0, so.1, so.2)
      | inr n ↦ let so = h.sound k t et in (h.busy k t n et, so.0, so.1, so.2)
    ];
  }

  kept : stays s ≡ true → IsBalanced p
  kept b = IsBusy-IsBalanced (ground (arith, h.sound i s es))

  removed_counts :
      stays s ≡ false
      → let q = without p i s in
        IsCounted q.session_slots q.pending_handshakes q.established_sessions q.sessions
  removed_counts b =
      let so = h.sound i s es in
      let here : s.registered ≡ true = ground (arith, so) in
      record {
        slots_exact =
            ground
              (arith, here, h.counts.slots_exact, total-set slot_of p.sessions i s (gone s) es);
        pending_exact =
            ground (
              arith,
              here,
              h.counts.pending_exact,
              total-set pending_of p.sessions i s (gone s) es,
            );
        established_exact = ground (
          arith,
          here,
          h.counts.established_exact,
          total-set established_of p.sessions i s (gone s) es,
        );
      }

  removed : stays s ≡ false → IsBalanced (without p i s)
  removed b = record {
    levels = flag-IsLevel p.usage p.sessions p.leases h.levels i s (gone s) es refl;
    counts = removed_counts b;
    caps = record {
      bytes_range = h.caps.bytes_range;
      session_range = h.caps.session_range;
      peer_bytes = h.caps.peer_bytes;
      peer_leases = h.caps.peer_leases;
      peer_streams = h.caps.peer_streams;
      peer_accepts = h.caps.peer_accepts;
      slots = omega (arith, h.caps.slots);
      pending = omega (arith, h.caps.pending);
      each_session = λ k t e. elim (get_elem?-set_cases p.sessions i k (gone s) t e) [
        | inl (ek, et) ↦ rw (← et) (h.caps.each_session i s es)
        | inr (n, et) ↦ h.caps.each_session k t et
      ];
    };
    settled = λ k t e. elim (get_elem?-set_cases p.sessions i k (gone s) t e) [
      | inl (ek, et) ↦ rw (← et) (ground (arith, h.sound i s es))
      | inr (n, et) ↦ let so = h.sound k t et in (h.busy k t n et, so.0, so.1, so.2)
    ];
  }

  pub retire-IsBalanced : IsBalanced (retire p i s)
  unfolding retire
  retire-IsBalanced = elim (Bool-cases (stays s)) [
    | inl b ↦ rw b (kept b)
    | inr b ↦ rw b (removed b)
  ]
