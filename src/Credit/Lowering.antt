-- ===== src/Credit/Lowering.antt =====
-- internal/creditv2/ledger.go: `MarkAccepted` and `ShrinkBytes` keep the invariant.
use mpudp.Prelude.{
  ℕ, ◌+◌, ◌-◌, ◌≤◌, ◌≡◌, refl, ◌⊎◌, inl, inr, true, false, get_elem?, Option, none, some,
  Option-cases, ok, arith,
}
use mpudp.Credit.{Usage, Session, Lease, Peer, sub64, max_retained_bytes}
use mpudp.Credit.Operations.{mark_accepted, shrink_bytes, unpended, shrunk}
use mpudp.Credit.Levels.{Dimension, in_bytes, in_accepts, level, amount, held}
use mpudp.Credit.Balance.{IsBalanced}
use mpudp.Credit.Adjust.{adjusted, adjusted-IsBalanced, amount-le_peer, amount-le_session}

abbrev one_accept_less : Usage → Usage
one_accept_less u = record u { pending_accepts = u.pending_accepts - 1 }

fewer :
    (d : Dimension) (l : Lease)
    → l.claim.pending_accept ≡ true
    → l.released ≡ false
    → held d (unpended l) ≤ amount d l.claim
fewer in_bytes l q r = ground arith
fewer _ l q r = ground arith

exact :
    (d : Dimension) (u : Usage) (l : Lease)
    → l.claim.pending_accept ≡ true
    → l.released ≡ false
    → amount in_accepts l.claim ≤ u.pending_accepts
    → level d (one_accept_less u) + amount d l.claim ≡ level d u + held d (unpended l)
exact in_bytes u l q r h = ground arith
exact _ u l q r h = ground arith

-- The owner of a live lease.
pub record IsHeld (p : Peer) (lease : Option ℕ) (i j : ℕ) (s : Session) (l : Lease) : Type 0 where
  pub handle : lease ≡ some j
  pub lease_there : get_elem? p.leases j ≡ some l
  pub live : l.released ≡ false
  pub owned : l.owner ≡ some i
  pub session_there : get_elem? p.sessions i ≡ some s

-- What a lease's place leads to.
pub data Lookup (p : Peer) (j : ℕ) : Type 0 where
  no_lease : get_elem? p.leases j ≡ none → Lookup p j
  no_owner : (l : Lease) → get_elem? p.leases j ≡ some l → l.owner ≡ none → Lookup p j
  no_session :
      (l : Lease) (i : ℕ)
      → get_elem? p.leases j ≡ some l
      → l.owner ≡ some i
      → get_elem? p.sessions i ≡ none
      → Lookup p j
  finds :
      (l : Lease) (i : ℕ) (s : Session)
      → get_elem? p.leases j ≡ some l
      → l.owner ≡ some i
      → get_elem? p.sessions i ≡ some s
      → Lookup p j

pub look_up : (p : Peer) (j : ℕ) → Lookup p j
look_up p j = elim (Option-cases (get_elem? p.leases j)) [
  | inl e ↦ no_lease e
  | inr (l, e) ↦ elim (Option-cases l.owner) [
    | inl o ↦ no_owner l e o
    | inr (i, o) ↦ elim (Option-cases (get_elem? p.sessions i)) [
      | inl n ↦ no_session l i e o n
      | inr (s, es) ↦ finds l i s e o es
    ]
  ]
]

mark_accepted-parts :
    (p p' : Peer) (lease : Option ℕ)
    → mark_accepted p lease ≡ ok p'
    → (i : ℕ) × (j : ℕ) × (s : Session) × (l : Lease) × IsHeld p lease i j s l
      × (((l.claim.pending_accept ≡ true)
            × (p'
                ≡ adjusted p i j s
                    (unpended l)
                    (one_accept_less s.usage)
                    (one_accept_less p.usage)))
          ⊎ ((l.claim.pending_accept ≡ false) × (p' ≡ p)))
unfolding mark_accepted
mark_accepted-parts p p' none e = cc
mark_accepted-parts p p' (some j) e = elim (look_up p j) [
  | no_lease n ↦ ground arith
  | no_owner l el n ↦ ground arith
  | no_session l i el o n ↦ ground arith
  | finds l i s el o es ↦ (
    i,
    j,
    s,
    l,
    record { handle = refl; lease_there = el; live = ground arith; owned = o; session_there = es },
    ground arith,
  )
]

pub mark_accepted-IsBalanced :
    (p p' : Peer) (lease : Option ℕ) → IsBalanced p → mark_accepted p lease ≡ ok p' → IsBalanced p'
mark_accepted-IsBalanced p p' lease h e =
    let (i, j, s, l, x, outcome) = mark_accepted-parts p p' lease e in
    elim outcome [
      | inr (_, same) ↦ rw same h
      | inl (q, same) ↦
          let m =
            amount-le_peer p i j s l h x.session_there x.lease_there x.live x.owned in_accepts in
          let n =
            amount-le_session p i j s l h x.session_there x.lease_there x.live x.owned in_accepts in
          rw same (
            adjusted-IsBalanced p i j s l h x.session_there x.lease_there x.live x.owned
              (unpended l) (one_accept_less s.usage) (one_accept_less p.usage)
              (inr (x.live, x.owned)) (λ d. fewer d l q x.live) (λ d. exact d p.usage l q x.live m)
              (λ d. exact d s.usage l q x.live n) x.live)
    ]

abbrev fewer_bytes : Usage → ℕ → Usage
fewer_bytes u freed = record u { bytes = sub64 u.bytes freed }

shrink_bytes-parts :
    (p p' : Peer) (lease : Option ℕ) (bytes : ℕ)
    → shrink_bytes p lease bytes ≡ ok p'
    → (i : ℕ) × (j : ℕ) × (s : Session) × (l : Lease) × IsHeld p lease i j s l
      × (bytes ≤ l.claim.bytes)
      × (let freed = sub64 l.claim.bytes bytes in
          p'
          ≡ adjusted p i j s
              (shrunk l bytes)
              (fewer_bytes s.usage freed)
              (fewer_bytes p.usage freed))
unfolding shrink_bytes
shrink_bytes-parts p p' none bytes e = cc
shrink_bytes-parts p p' (some j) bytes e = elim (look_up p j) [
  | no_lease n ↦ ground arith
  | no_owner l el n ↦ ground arith
  | no_session l i el o n ↦ ground arith
  | finds l i s el o es ↦ (
    i,
    j,
    s,
    l,
    record { handle = refl; lease_there = el; live = ground arith; owned = o; session_there = es },
    ground arith,
    ground arith,
  )
]

shorter :
    (d : Dimension) (l : Lease) (bytes : ℕ)
    → bytes ≤ l.claim.bytes
    → l.released ≡ false
    → held d (shrunk l bytes) ≤ amount d l.claim
shorter in_bytes l bytes q r = ground arith
shorter _ l bytes q r = ground arith

exact_bytes :
    (d : Dimension) (u : Usage) (l : Lease) (bytes : ℕ)
    → bytes ≤ l.claim.bytes
    → l.released ≡ false
    → l.claim.bytes ≤ u.bytes
    → u.bytes ≤ max_retained_bytes
    → level d (fewer_bytes u (sub64 l.claim.bytes bytes)) + amount d l.claim
      ≡ level d u + held d (shrunk l bytes)
exact_bytes in_bytes u l bytes q r h m = rw r (omega arith)
exact_bytes _ u l bytes q r h m = rw r

pub shrink_bytes-IsBalanced :
    (p p' : Peer) (lease : Option ℕ) (bytes : ℕ)
    → IsBalanced p
    → shrink_bytes p lease bytes ≡ ok p'
    → IsBalanced p'
shrink_bytes-IsBalanced p p' lease bytes h e =
    let (i, j, s, l, x, q, same) = shrink_bytes-parts p p' lease bytes e in
    let m = amount-le_peer p i j s l h x.session_there x.lease_there x.live x.owned in_bytes in
    let n = amount-le_session p i j s l h x.session_there x.lease_there x.live x.owned in_bytes in
    let freed = sub64 l.claim.bytes bytes in
    let c = h.caps.each_session i s x.session_there in
    let pm : p.usage.bytes ≤ max_retained_bytes =
      omega (arith, h.caps.peer_bytes, h.caps.bytes_range) in
    let sm : s.usage.bytes ≤ max_retained_bytes =
      omega (arith, c.0, h.caps.session_range, h.caps.bytes_range) in
    rw same (
      adjusted-IsBalanced p i j s l h x.session_there x.lease_there x.live x.owned (shrunk l bytes)
        (fewer_bytes s.usage freed) (fewer_bytes p.usage freed) (inr (x.live, x.owned))
        (λ d. shorter d l bytes q x.live) (λ d. exact_bytes d p.usage l bytes q x.live m pm)
        (λ d. exact_bytes d s.usage l bytes q x.live n sm) x.live)
