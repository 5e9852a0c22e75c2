-- ===== src/Credit/Moving.antt =====
-- internal/creditv2/ledger.go: `Transfer` keeps the invariant.
use mpudp.Prelude.{
  ℕ, ◌+◌, ◌≤◌, ◌≡◌, ◌≢◌, refl, sym, ◌∙◌, ◌⊎◌, inl, inr, false, set, get_elem?, get_elem?-set_here,
  get_elem?-set_ne, get_elem?-set_cases, Option, none, some, Option-cases, ok, arith,
}
use mpudp.Credit.{Session, Lease, Peer, one_if, subtract_claim, add_claim, check_session_claim}
use mpudp.Credit.Operations.{Handle, transfer, move}
use mpudp.Credit.Levels.{Dimension, in_bytes, in_reservations, in_streams, level, amount}
use mpudp.Credit.Transfer.{move-IsLevel}
use mpudp.Credit.Balance.{
  IsBalanced, IsCapped, IsSessionCapped, level-subtract_claim, level-add_claim,
  check_session_claim-fits,
}
use mpudp.Credit.Adjust.{amount-le_session}
use mpudp.Credit.Charging.{flags-IsCounted}
use mpudp.Credit.Lowering.{no_lease, no_owner, no_session, finds, look_up, IsHeld}
use mpudp.Credit.Retire.{IsNearly, IsSound, IsBusy, retire-IsBalanced}

module _ (p : Peer) (a b j : ℕ) (s t : Session) (l : Lease) (h : IsBalanced p) (apart : b ≢ a)
    (es : get_elem? p.sessions a ≡ some s) (et : get_elem? p.sessions b ≡ some t)
    (el : get_elem? p.leases j ≡ some l) (live : l.released ≡ false) (o : l.owner ≡ some a)
    (t_open : t.closed ≡ false)
    (fits : (t.usage.bytes + l.claim.bytes ≤ p.limits.max_session_bytes)
      × (t.usage.business_streams + one_if l.claim.business_stream
          ≤ p.limits.max_streams_per_session)) where
  abbrev pub debited : Session
  debited = record s { usage = subtract_claim s.usage l.claim }

  abbrev pub credited : Session
  credited = record t { usage = add_claim t.usage l.claim }

  abbrev pub moved : Peer
  moved = record p {
    sessions = set (set p.sessions a debited) b credited;
    leases = set p.leases j (record l { owner = some b });
  }

  pub debit : (d : Dimension) → level d debited.usage + amount d l.claim ≡ level d s.usage
  debit d =
      let c = h.caps.each_session a s es in
      level-subtract_claim d s.usage l.claim
        (omega (arith, c.0, h.caps.session_range, h.caps.bytes_range))
        (amount-le_session p a j s l h es el live o d)

  pub credit : (d : Dimension) → level d credited.usage ≡ level d t.usage + amount d l.claim
  credit d =
      level-add_claim d t.usage l.claim
        (omega (arith, fits.0, h.caps.session_range, h.caps.bytes_range))

  -- A Session of the moved ledger is one of the two, or an untouched one.
  moved_cases :
      {P : ℕ → Session → Type 0}
      → P a debited
      → P b credited
      → ((k : ℕ) (x : Session) → k ≢ a → get_elem? p.sessions k ≡ some x → P k x)
      → (k : ℕ) (x : Session) → get_elem? moved.sessions k ≡ some x
      → P k x
  moved_cases {P} pa pb other k x e =
      elim (get_elem?-set_cases (set p.sessions a debited) b k credited x e) [
        | inl (ek, ex) ↦ rw (ek, ← ex) pb
        | inr (n, ex) ↦ elim (get_elem?-set_cases p.sessions a k debited x ex) [
          | inl (ek, ey) ↦ rw (ek, ← ey) pa
          | inr (m, ey) ↦ other k x m ey
        ]
      ]

  still_there : get_elem? (set p.sessions a debited) b ≡ some t
  still_there = get_elem?-set_ne p.sessions {i = a} {j = b} debited (λ e. apart (sym e)) ∙ et

  moved-IsCapped : IsCapped moved
  moved-IsCapped = record {
    bytes_range = h.caps.bytes_range;
    session_range = h.caps.session_range;
    peer_bytes = h.caps.peer_bytes;
    peer_leases = h.caps.peer_leases;
    peer_streams = h.caps.peer_streams;
    peer_accepts = h.caps.peer_accepts;
    slots = h.caps.slots;
    pending = h.caps.pending;
    each_session =
        moved_cases {P = λ k x. IsSessionCapped p.limits x}
          (let c = h.caps.each_session a s es in
            (omega (arith, c.0, debit in_bytes), omega (arith, c.1, debit in_streams)))
          (omega (arith, credit in_bytes, fits.0), omega (arith, credit in_streams, fits.1))
          (λ k x n e. h.caps.each_session k x e);
  }

  pub moved-IsNearly : IsNearly moved a
  moved-IsNearly = record {
    levels =
        move-IsLevel p.usage p.sessions p.leases a b j s debited t credited l
          (record l { owner = some b }) h.levels apart es et el live o live refl refl debit credit;
    counts =
        flags-IsCounted (set p.sessions a debited) b t credited
          (flags-IsCounted p.sessions a s debited h.counts es refl refl) still_there refl refl;
    caps = moved-IsCapped;
    sound =
        moved_cases {P = λ k x. IsSound p.closed x}
          (let so = h.settled a s es in
            let some_lease = amount-le_session p a j s l h es el live o in_reservations in
            ((λ gone. absurd (omega (arith, some_lease, (so.1 gone).0))), so.2, so.3))
          (let so = h.settled b t et in ((λ gone. cc (t_open, (so.1 gone).1)), so.2, so.3))
          (λ k x n e. let so = h.settled k x e in (so.1, so.2, so.3));
    busy = λ k x n e.
        moved_cases {P = λ k x. k ≢ a → IsBusy x} (λ m. absurd (m refl))
          (λ _ closed. cc (closed, t_open)) (λ k x m e _. (h.settled k x e).0) k x e n;
  }

  pub move-IsBalanced : IsBalanced (move p j l a s b t)
  unfolding move
  move-IsBalanced = retire-IsBalanced moved a debited moved-IsNearly (
      get_elem?-set_ne (set p.sessions a debited) {i = b} {j = a} credited apart
      ∙ get_elem?-set_here p.sessions a s debited es)

pub transfer-parts :
    (p p' : Peer) (lease : Option ℕ) (destination : Option Handle)
    → transfer p lease destination ≡ ok p'
    → (a : ℕ) × (b : ℕ) × (j : ℕ) × (s : Session) × (t : Session) × (l : Lease) × IsHeld p lease a j
        s l
      × ((g : Handle) × (destination ≡ some g) × (g.place ≡ b))
      × (get_elem? p.sessions b ≡ some t)
      × (t.closed ≡ false)
      × (p.closed ≡ false)
      × (((b ≡ a) × (p' ≡ p))
          ⊎ ((b ≢ a) × (check_session_claim p t l.claim ≡ ok tt) × (p' ≡ move p j l a s b t)))
unfolding transfer
transfer-parts p p' none destination e = cc
transfer-parts p p' (some j) none e = elim (Option-cases (get_elem? p.leases j)) [
  | inl n ↦ ground arith
  | inr (l, el) ↦ ground arith
]
transfer-parts p p' (some j) (some g) e = elim (Option-cases (get_elem? p.sessions g.place)) [
  | inl n ↦ elim (Option-cases (get_elem? p.leases j)) [
    | inl m ↦ ground arith
    | inr (l, el) ↦ ground arith
  ]
  | inr (t, et) ↦ elim (look_up p j) [
    | no_lease n ↦ ground arith
    | no_owner l el n ↦ ground arith
    | no_session l i el o n ↦ ground arith
    | finds l i s el o es ↦ (
      i,
      g.place,
      j,
      s,
      t,
      l,
      record {
        handle = refl;
        lease_there = el;
        live = ground arith;
        owned = o;
        session_there = es;
      },
      (g, refl, refl),
      et,
      ground arith,
      ground arith,
      ground arith,
    )
  ]
]

pub transfer-IsBalanced :
    (p p' : Peer) (lease : Option ℕ) (destination : Option Handle)
    → IsBalanced p
    → transfer p lease destination ≡ ok p'
    → IsBalanced p'
transfer-IsBalanced p p' lease destination h e =
    let (a, b, j, s, t, l, x, _, et, live, _, outcome) = transfer-parts p p' lease destination e in
    elim outcome [
      | inl (_, same) ↦ rw same h
      | inr (apart, checked, same) ↦ rw same (
          move-IsBalanced p a b j s t l h apart x.session_there et x.lease_there x.live x.owned live
            (check_session_claim-fits p t l.claim h.caps (h.caps.each_session b t et) checked))
    ]
