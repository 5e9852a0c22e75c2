-- ===== src/Credit/Outcomes.antt =====
-- internal/creditv2/ledger.go: what single calls do to a balanced ledger.
use mpudp.Prelude.{
  ℕ, ◌≡◌, refl, ap, ◌∙◌, ◌↔◌, inl, inr, List, true, false, not, ◌||◌, ◌==◌, length, set, get_elem?,
  get_elem?-set_here, Option, some, ok, arith, Bool-cases,
}
use mpudp.Credit.{Claim, Session, Lease, Peer, retire, charge, is_empty, subtract_claim}
use mpudp.Credit.Operations.{reserve, release, discharge}
use mpudp.Credit.Balance.{
  IsBalanced, IsAffordable, check_claim-IsAffordable, IsAffordable-check_claim,
}
use mpudp.Credit.Charging.{reserve-parts}
use mpudp.Credit.Releasing.{release-parts, spent}

pub retire-keeps :
    (p : Peer) (i : ℕ) (s : Session)
    → ((retire p i s).usage ≡ p.usage) × ((retire p i s).leases ≡ p.leases)
unfolding retire
retire-keeps p i s =
    elim (Bool-cases (not s.closed || s.retired || not (s.usage.reservations == 0))) [
      | inl stays ↦ rw stays (refl, refl)
      | inr leaves ↦ rw leaves (refl, refl)
    ]

-- In a balanced ledger, on an open Session of an open Peer: `Reserve` of a nonempty claim succeeds
-- exactly when the claim fits under every limit of the Session and of the Peer.
pub reserve_iff :
    (p : Peer) (i : ℕ) (s : Session) (c : Claim)
    → IsBalanced p
    → get_elem? p.sessions i ≡ some s
    → s.closed ≡ false
    → p.closed ≡ false
    → is_empty c ≡ false
    → (reserve p (some i) c ≡ ok (charge p i s c, length p.leases)) ↔ IsAffordable p s c
unfolding reserve
reserve_iff p i s c h es live open_peer some_claim =
    let cap = h.caps.each_session i s es in
    (
      λ e.
          let (i', s', (named, es'), _, _, checked, _, _) =
            reserve-parts p _ (some i) c _ (unfold reserve in e) in
          let same : s ≡ s' = ground (arith, es, es', named) in
          check_claim-IsAffordable p s c h.caps cap (rw same checked),
      λ a. let checked = IsAffordable-check_claim p s c h.caps cap a in ground arith,
    )

-- The lease of a discharge is spent.
discharged :
    (p : Peer) (i j : ℕ) (s : Session) (l : Lease)
    → get_elem? p.leases j ≡ some l
    → get_elem? (discharge p j l i s).leases j ≡ some (spent l)
unfolding discharge
discharged p i j s l el =
    let s' : Session = record s { usage = subtract_claim s.usage l.claim } in
    let q : Peer = record p {
      usage = subtract_claim p.usage l.claim;
      sessions = set p.sessions i s';
      leases = set p.leases j (spent l);
    } in
    ap (λ (ls : List Lease). get_elem? ls j) (retire-keeps q i s').1
    ∙ get_elem?-set_here p.leases j l (spent l) el

pub release-spent :
    (p : Peer) (j : ℕ) (l : Lease)
    → get_elem? p.leases j ≡ some l
    → l.released ≡ true
    → release p (some j) ≡ p
unfolding release
release-spent p j l el r = ground arith

-- A lease that is released once and again: the second call changes nothing, in any ledger.
release_idem : (p : Peer) (lease : Option ℕ) → release (release p lease) lease ≡ release p lease
release_idem p lease = elim (release-parts p lease) [
  | inl same ↦ ap (λ (q : Peer). release q lease) same
  | inr (i, j, s, l, x, same) ↦
      rw (same, x.handle)
        (release-spent (discharge p j l i s) j (spent l) (discharged p i j s l x.lease_there) refl)
]
