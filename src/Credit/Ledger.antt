-- ===== src/Credit/Ledger.antt =====
-- internal/creditv2/ledger.go: what the ledger promises over every history of calls.
use mpudp.Prelude.{
  ℕ, ◌+◌, ◌≤◌, ◌≡◌, refl, sym, ap, ◌∙◌, inl, inr, List, [], ◌∷◌, ◌++◌, Bool, true, false, length,
  set, get_elem?, get_elem?-set_here, get_elem?-append_last, set-set, set-append_last,
  set-get_elem?, Option, some, ok, arith, Bool-cases, total, total-eq-zero,
}
use mpudp.Credit.{
  Claim, Usage, Session, Lease, Peer, Limits, new, retire, charge, no_usage, add_claim,
  subtract_claim, max_retained_bytes, new_lease,
}
use mpudp.Credit.Operations.{
  Handle, begin, promote, reserve, bind_bytes, transfer, mark_accepted, shrink_bytes, release,
  close_session, close_peer, discharge,
}
use mpudp.Credit.Levels.{
  Dimension, level, held, in_bytes, in_reservations, in_streams, in_accepts, held_by,
}
use mpudp.Credit.Balance.{
  IsBalanced, IsAffordable, check_claim-IsAffordable, new-IsBalanced, slot_of, pending_of,
  established_of,
}
use mpudp.Credit.Charging.{reserve-IsBalanced, reserve-parts}
use mpudp.Credit.Opening.{begin-IsBalanced, promote-IsBalanced}
use mpudp.Credit.Binding.{bind_bytes-IsBalanced}
use mpudp.Credit.Lowering.{IsHeld, mark_accepted-IsBalanced, shrink_bytes-IsBalanced}
use mpudp.Credit.Releasing.{release-IsBalanced, release-finds, spent}
use mpudp.Credit.Moving.{transfer-IsBalanced}
use mpudp.Credit.Closing.{close_session-IsBalanced, close_peer-IsBalanced}

-- One call that changes a ledger. A call that fails changes nothing.
pub data Step (p p' : Peer) : Type 0 where
  begins :
      (c : Claim) (pending : Bool) (i : ℕ) (j : Option ℕ)
      → begin p c pending ≡ ok (p', i, j)
      → Step p p'
  promotes : (s : Option ℕ) → promote p s ≡ ok p' → Step p p'
  reserves : (s : Option ℕ) (c : Claim) (j : ℕ) → reserve p s c ≡ ok (p', j) → Step p p'
  binds :
      (s : Option ℕ) (l : Option Handle) (n : ℕ) (g : Handle)
      → bind_bytes p s l n ≡ ok (p', g)
      → Step p p'
  transfers : (l : Option ℕ) (g : Option Handle) → transfer p l g ≡ ok p' → Step p p'
  accepts : (l : Option ℕ) → mark_accepted p l ≡ ok p' → Step p p'
  shrinks : (l : Option ℕ) (n : ℕ) → shrink_bytes p l n ≡ ok p' → Step p p'
  releases : (l : Option ℕ) → release p l ≡ p' → Step p p'
  closes_session : (s : Option ℕ) → close_session p s ≡ p' → Step p p'
  closes : close_peer p ≡ p' → Step p p'

-- The ledgers that a history of calls leads to.
pub data Reach (p : Peer) : Peer → Type 0 where
  here : Reach p p
  next : {q r : Peer} → Reach p q → Step q r → Reach p r

Step-IsBalanced : {p p' : Peer} → Step p p' → IsBalanced p → IsBalanced p'
Step-IsBalanced {p} {p'} (begins c pending i j e) h = begin-IsBalanced p p' c pending i j h e
Step-IsBalanced {p} {p'} (promotes s e) h = promote-IsBalanced p p' s h e
Step-IsBalanced {p} {p'} (reserves s c j e) h = reserve-IsBalanced p p' s c j h e
Step-IsBalanced {p} {p'} (binds s l n g e) h = bind_bytes-IsBalanced p p' s l n g h e
Step-IsBalanced {p} {p'} (transfers l g e) h = transfer-IsBalanced p p' l g h e
Step-IsBalanced {p} {p'} (accepts l e) h = mark_accepted-IsBalanced p p' l h e
Step-IsBalanced {p} {p'} (shrinks l n e) h = shrink_bytes-IsBalanced p p' l n h e
Step-IsBalanced {p} {p'} (releases l e) h = rw (← e) (release-IsBalanced p l h)
Step-IsBalanced {p} {p'} (closes_session s e) h = rw (← e) (close_session-IsBalanced p s h)
Step-IsBalanced {p} {p'} (closes e) h = rw (← e) (close_peer-IsBalanced p h).0

Reach-IsBalanced : {p q : Peer} → IsBalanced p → Reach p q → IsBalanced q
Reach-IsBalanced h here = h
Reach-IsBalanced h (next r st) = Step-IsBalanced st (Reach-IsBalanced h r)

-- Whatever calls a new ledger has seen, its counters are the sums over the live leases, its counts
-- of Sessions are the registered Sessions of each kind, no counter passes its limit, a closed
-- Session stays registered exactly as long as it has a live lease, and one that is not registered
-- is closed and holds nothing.
pub reachable-IsBalanced :
    (name : ℕ) (m : Limits) (p q : Peer) → new name m ≡ ok p → Reach p q → IsBalanced q
reachable-IsBalanced name m p q e r = Reach-IsBalanced (new-IsBalanced name m p e) r

all_released :
    (d : Dimension) (ls : List Lease)
    → ((j : ℕ) (l : Lease) → get_elem? ls j ≡ some l → l.released ≡ true)
    → total (held d) ls ≡ 0
all_released d ls h = total-eq-zero (held d) ls (λ j l e. rw (h j l e))

all_released_by :
    (d : Dimension) (i : ℕ) (ls : List Lease)
    → ((j : ℕ) (l : Lease) → get_elem? ls j ≡ some l → l.released ≡ true)
    → total (held_by d i) ls ≡ 0
all_released_by d i ls h = total-eq-zero (held_by d i) ls (λ j l e. rw (h j l e))

-- With a closed Peer and no live lease, the invariant leaves no charge and no registered Session.
pub closed_drains :
    (p : Peer)
    → IsBalanced p
    → p.closed ≡ true
    → ((j : ℕ) (l : Lease) → get_elem? p.leases j ≡ some l → l.released ≡ true)
    → (p.usage ≡ no_usage)
      × (p.session_slots ≡ 0)
      × (p.pending_handshakes ≡ 0)
      × (p.established_sessions ≡ 0)
      × ((i : ℕ) (s : Session)
          → get_elem? p.sessions i ≡ some s
          → (s.registered ≡ false) × (s.usage ≡ no_usage))
closed_drains p h closed gone = (
  ground (arith, z in_bytes, z in_reservations, z in_streams, z in_accepts),
  h.counts.slots_exact ∙ total-eq-zero slot_of p.sessions (λ i s e. rw (out i s e)),
  h.counts.pending_exact ∙ total-eq-zero pending_of p.sessions (λ i s e. rw (out i s e)),
  h.counts.established_exact ∙ total-eq-zero established_of p.sessions (λ i s e. rw (out i s e)),
  λ i s e.
      let w : (d : Dimension) → level d s.usage ≡ 0 =
        λ d. h.levels.session_level d i s e ∙ all_released_by d i p.leases gone in
      (out i s e, ground (arith, w in_bytes, w in_reservations, w in_streams, w in_accepts)),
)
  where
    z : (d : Dimension) → level d p.usage ≡ 0
    z d = h.levels.peer_level d ∙ all_released d p.leases gone

    out : (i : ℕ) (s : Session) → get_elem? p.sessions i ≡ some s → s.registered ≡ false
    out i s e =
        let so = h.settled i s e in
        let none_left =
          h.levels.session_level in_reservations i s e
          ∙ all_released_by in_reservations i p.leases gone in
        elim (Bool-cases s.registered) [
          | inl r ↦ absurd (omega (arith, none_left, so.0 (so.3 closed) r))
          | inr r ↦ r
        ]

-- A claim taken and given back.
subtract-add_claim :
    (u : Usage) (c : Claim)
    → u.bytes + c.bytes ≤ max_retained_bytes
    → subtract_claim (add_claim u c) c ≡ u
unfolding subtract_claim add_claim
subtract-add_claim u c h = ground arith

-- The Session object that `charge` writes.
abbrev charged : Session → Claim → Session
charged s c = record s { usage = add_claim s.usage c }

retire-live : (p : Peer) (i : ℕ) (s : Session) → s.closed ≡ false → retire p i s ≡ p
unfolding retire
retire-live p i s e = rw e

discharge-charge :
    (p : Peer) (i : ℕ) (s : Session) (c : Claim)
    → IsBalanced p
    → get_elem? p.sessions i ≡ some s
    → s.closed ≡ false
    → IsAffordable p s c
    → discharge (charge p i s c) (length p.leases) (new_lease i c) i (charged s c)
      ≡ record p { leases = p.leases ++ (spent (new_lease i c) ∷ []) }
unfolding charge discharge
discharge-charge p i s c h es live a =
    let u =
      subtract-add_claim s.usage c
        (omega (arith, a.session_bytes, h.caps.session_range, h.caps.bytes_range)) in
    let v = subtract-add_claim p.usage c (omega (arith, a.peer_bytes, h.caps.bytes_range)) in
    let w : Session = record s { usage = subtract_claim (add_claim s.usage c) c } in
    let back : w ≡ s = ap (λ (x : Usage). record s { usage = x }) u in
    let rest : Peer = record p {
      usage = subtract_claim (add_claim p.usage c) c;
      sessions = set (set p.sessions i (charged s c)) i w;
      leases = set (p.leases ++ (new_lease i c ∷ [])) (length p.leases) (spent (new_lease i c));
    } in
    let sessions =
      set-set p.sessions i (charged s c) w
      ∙ ap (set p.sessions i) back
      ∙ set-get_elem? p.sessions i s es in
    let parts : rest ≡ record p { leases = p.leases ++ (spent (new_lease i c) ∷ []) } = (λ k.
      record p {
        usage = v k;
        sessions = sessions k;
        leases = set-append_last p.leases (new_lease i c) (spent (new_lease i c)) k;
      }) in
    retire-live rest i w live ∙ parts

-- In a balanced ledger, `Release` of a lease that `Reserve` has just returned undoes it: but for the
-- spent lease the ledger is what it was.
pub release-reserve :
    (p p' : Peer) (session : Option ℕ) (c : Claim) (j : ℕ)
    → IsBalanced p
    → reserve p session c ≡ ok (p', j)
    → (i : ℕ) × (session ≡ some i)
      × (release p' (some j) ≡ record p { leases = p.leases ++ (spent (new_lease i c) ∷ []) })
unfolding charge
release-reserve p p' session c j h e =
    let (i, s, (named, es), live, _, checked, same, at) = reserve-parts p p' session c j e in
    let a = check_claim-IsAffordable p s c h.caps (h.caps.each_session i s es) checked in
    let found : IsHeld (charge p i s c) (some (length p.leases)) i (length p.leases) (charged s c)
        (new_lease i c) =
      record {
        handle = refl;
        lease_there = get_elem?-append_last p.leases (new_lease i c);
        live = refl;
        owned = refl;
        session_there = get_elem?-set_here p.sessions i s (charged s c) es;
      } in
    (
      i,
      named,
      ap (λ (q : Peer). release q (some j)) (sym same)
          ∙ ap (λ (n : ℕ). release (charge p i s c) (some n)) at
          ∙ release-finds (charge p i s c) i (length p.leases) (charged s c) (new_lease i c) found
          ∙ discharge-charge p i s c h es live a,
    )
