-- ===== src/Credit/Releasing.antt =====
-- internal/creditv2/ledger.go: `Release` keeps the invariant.
use mpudp.Prelude.{
  ℕ, ◌≤◌, ◌≡◌, refl, ◌⊎◌, inl, inr, true, false, get_elem?, get_elem?-set_here, Option, none, some,
  arith, Bool-cases,
}
use mpudp.Credit.{Session, Lease, Peer, no_claim, subtract_claim, max_retained_bytes}
use mpudp.Credit.Operations.{release, discharge}
use mpudp.Credit.Balance.{IsBalanced, level-subtract_claim}
use mpudp.Credit.Adjust.{adjusted, adjusted-IsNearly, amount-le_peer, amount-le_session}
use mpudp.Credit.Lowering.{no_lease, no_owner, no_session, finds, look_up, IsHeld}
use mpudp.Credit.Retire.{retire-IsBalanced}

abbrev pub spent : Lease → Lease
spent l = record l { owner = none; claim = no_claim; released = true }

discharge-IsBalanced :
    (p : Peer) (j : ℕ) (l : Lease) (i : ℕ) (s : Session)
    → IsBalanced p
    → get_elem? p.sessions i ≡ some s
    → get_elem? p.leases j ≡ some l
    → l.released ≡ false
    → l.owner ≡ some i
    → IsBalanced (discharge p j l i s)
unfolding discharge
discharge-IsBalanced p j l i s h es el live o =
    let c = h.caps.each_session i s es in
    let pm : p.usage.bytes ≤ max_retained_bytes =
      omega (arith, h.caps.peer_bytes, h.caps.bytes_range) in
    let sm : s.usage.bytes ≤ max_retained_bytes =
      omega (arith, c.0, h.caps.session_range, h.caps.bytes_range) in
    let u = subtract_claim s.usage l.claim in
    let v = subtract_claim p.usage l.claim in
    let m = amount-le_peer p i j s l h es el live o in
    let n = amount-le_session p i j s l h es el live o in
    retire-IsBalanced (adjusted p i j s (spent l) u v) i (record s { usage = u })
      (adjusted-IsNearly p i j s l h es el live o (spent l) u v (inl refl) (λ d. omega arith)
        (λ d. omega (arith, level-subtract_claim d p.usage l.claim pm (m d)))
        (λ d. omega (arith, level-subtract_claim d s.usage l.claim sm (n d))))
      (get_elem?-set_here p.sessions i s (record s { usage = u }) es)

pub release-finds :
    (p : Peer) (i j : ℕ) (s : Session) (l : Lease)
    → IsHeld p (some j) i j s l
    → release p (some j) ≡ discharge p j l i s
unfolding release
release-finds p i j s l x = ground (arith, x.lease_there, x.live, x.owned, x.session_there)

-- `Release` changes nothing, or discharges a live lease.
pub release-parts :
    (p : Peer) (lease : Option ℕ)
    → (release p lease ≡ p)
      ⊎ ((i : ℕ) × (j : ℕ) × (s : Session) × (l : Lease) × IsHeld p lease i j s l
          × (release p lease ≡ discharge p j l i s))
unfolding release
release-parts p none = inl refl
release-parts p (some j) = elim (look_up p j) [
  | no_lease n ↦ inl (rw (n, release))
  | no_owner l el n ↦ inl (ground arith)
  | no_session l i el o n ↦ inl (ground arith)
  | finds l i s el o es ↦ elim (Bool-cases l.released) [
    | inl r ↦ inl (ground arith)
    | inr live ↦ inr (
      i,
      j,
      s,
      l,
      record { handle = refl; lease_there = el; live = live; owned = o; session_there = es },
      ground arith,
    )
  ]
]

pub release-IsBalanced : (p : Peer) (lease : Option ℕ) → IsBalanced p → IsBalanced (release p lease)
release-IsBalanced p lease h = elim (release-parts p lease) [
  | inl same ↦ rw same h
  | inr (i, j, s, l, x, same) ↦
      rw same (discharge-IsBalanced p j l i s h x.session_there x.lease_there x.live x.owned)
]
