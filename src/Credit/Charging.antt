-- ===== src/Credit/Charging.antt =====
-- internal/creditv2/ledger.go: `Reserve` keeps the invariant.
use mpudp.Prelude.{
  ℕ, ◌+◌, ◌≤◌, ◌≡◌, refl, ap, inl, inr, List, false, length, set, get_elem?, Option, none, some,
  Option-cases, ok, arith, total-set, get_elem?-set_cases,
}
use mpudp.Credit.{
  Claim, Session, Peer, one_if, add_claim, new_lease, charge, check_claim, max_retained_bytes,
}
use mpudp.Credit.Operations.{reserve}
use mpudp.Credit.Levels.{add-IsLevel}
use mpudp.Credit.Balance.{
  IsBalanced, IsCapped, IsCounted, IsSessionCapped, IsAffordable, check_claim-IsAffordable,
  level-add_claim, slot_of, pending_of, established_of,
}

-- A write that keeps a Session's flags keeps the counts of Sessions.
pub flags-IsCounted :
    {a b c : ℕ} (ss : List Session) (i : ℕ) (s s' : Session)
    → IsCounted a b c ss
    → get_elem? ss i ≡ some s
    → s'.registered ≡ s.registered
    → s'.pending_handshake ≡ s.pending_handshake
    → IsCounted a b c (set ss i s')
flags-IsCounted ss i s s' h es r q = record {
  slots_exact = omega (arith, h.slots_exact, total-set slot_of ss i s s' es, ap one_if r);
  pending_exact = ground (arith, h.pending_exact, total-set pending_of ss i s s' es);
  established_exact = ground (arith, h.established_exact, total-set established_of ss i s s' es);
}

module _ (p : Peer) (i : ℕ) (s : Session) (c : Claim) (h : IsBalanced p)
    (es : get_elem? p.sessions i ≡ some s) (live : s.closed ≡ false) (a : IsAffordable p s c) where
  charged : Session
  charged = record s { usage = add_claim s.usage c }

  charged_session-IsCapped : (t : Session) → charged ≡ t → IsSessionCapped p.limits t
  unfolding charged add_claim
  charged_session-IsCapped t e = rw (← e) (ground (arith, a.session_bytes, a.session_streams))

  charge-IsCapped : IsCapped (charge p i s c)
  unfolding charge
  charge-IsCapped = record {
    bytes_range = h.caps.bytes_range;
    session_range = h.caps.session_range;
    peer_bytes = omega (arith, a.peer_bytes);
    peer_leases = omega (arith, a.peer_leases);
    peer_streams = omega (arith, a.peer_streams);
    peer_accepts = omega (arith, a.peer_accepts);
    slots = h.caps.slots;
    pending = h.caps.pending;
    each_session = λ k t e.
        elim (get_elem?-set_cases p.sessions i k charged t (unfold charged in e)) [
          | inl (ek, et) ↦ charged_session-IsCapped t et
          | inr (n, et) ↦ h.caps.each_session k t et
        ];
  }

  pub charge-IsBalanced : IsBalanced (charge p i s c)
  unfolding charge charged
  charge-IsBalanced =
      let fits : s.usage.bytes + c.bytes ≤ max_retained_bytes =
        omega (arith, a.session_bytes, h.caps.session_range, h.caps.bytes_range) in
      let fits' : p.usage.bytes + c.bytes ≤ max_retained_bytes =
        omega (arith, a.peer_bytes, h.caps.bytes_range) in
      record {
        levels =
            add-IsLevel p.usage (add_claim p.usage c) p.sessions p.leases i s charged
              (new_lease i c) h.levels es refl refl (λ d. level-add_claim d p.usage c fits')
              (λ d. level-add_claim d s.usage c fits);
        counts = flags-IsCounted p.sessions i s charged h.counts es refl refl;
        caps = charge-IsCapped;
        settled = λ k t e. elim (get_elem?-set_cases p.sessions i k charged t e) [
          | inl (ek, et) ↦ rw (← et) (ground (arith, h.settled i s es))
          | inr (n, et) ↦ h.settled k t et
        ];
      }

-- The Session of a handle.
abbrev pub Finds : Peer → Option ℕ → ℕ → Session → Type 0
Finds p session i s = (session ≡ some i) × (get_elem? p.sessions i ≡ some s)

pub reserve-parts :
    (p p' : Peer) (session : Option ℕ) (c : Claim) (j : ℕ)
    → reserve p session c ≡ ok (p', j)
    → (i : ℕ) × (s : Session) × Finds p session i s
      × (s.closed ≡ false)
      × (p.closed ≡ false)
      × (check_claim p s c ≡ ok tt)
      × (charge p i s c ≡ p')
      × (j ≡ length p.leases)
unfolding reserve
reserve-parts p p' none c j e = cc
reserve-parts p p' (some i) c j e = elim (Option-cases (get_elem? p.sessions i)) [
  | inl n ↦ ground arith
  | inr (s, es) ↦
      (i, s, (refl, es), ground arith, ground arith, ground arith, ground arith, ground arith)
]

pub reserve-IsBalanced :
    (p p' : Peer) (session : Option ℕ) (c : Claim) (j : ℕ)
    → IsBalanced p
    → reserve p session c ≡ ok (p', j)
    → IsBalanced p'
reserve-IsBalanced p p' session c j h e =
    let (i, s, (_, es), live, _, checked, same, _) = reserve-parts p p' session c j e in
    rw (← same) (
      charge-IsBalanced p i s c h es live
        (check_claim-IsAffordable p s c h.caps (h.caps.each_session i s es) checked))
