-- ===== src/Credit/Adjust.antt =====
-- internal/creditv2/ledger.go: writes that lower what a lease holds: `MarkAccepted`, `ShrinkBytes`
-- and `Release` keep the invariant.
use mpudp.Prelude.{
  ℕ, ◌+◌, ◌≤◌, ◌≡◌, refl, inl, inr, false, set, get_elem?, some, arith, le-total,
  get_elem?-set_cases, get_elem?-set_here,
}
use mpudp.Credit.{Usage, Session, Lease, Peer}
use mpudp.Credit.Levels.{
  Dimension, IsOwnedBy, in_bytes, in_reservations, in_streams, in_accepts, level, amount, held,
  held_by, held-live, held_by-owner, replace-IsLevel,
}
use mpudp.Credit.Balance.{IsBalanced, IsCapped}
use mpudp.Credit.Charging.{flags-IsCounted}
use mpudp.Credit.Retire.{IsNearly, IsBusy-IsBalanced}

abbrev pub adjusted : Peer → ℕ → ℕ → Session → Lease → Usage → Usage → Peer
adjusted p i j s l' u v = record p {
  usage = v;
  sessions = set p.sessions i (record s { usage = u });
  leases = set p.leases j l';
}

-- The Session at `i` owns the live lease `l` at `j`.
module _ (p : Peer) (i j : ℕ) (s : Session) (l : Lease) (h : IsBalanced p)
    (es : get_elem? p.sessions i ≡ some s) (el : get_elem? p.leases j ≡ some l)
    (live : l.released ≡ false) (o : l.owner ≡ some i) where
  -- What the lease holds is part of both counters.
  pub amount-le_peer : (d : Dimension) → amount d l.claim ≤ level d p.usage
  amount-le_peer d =
      omega (arith, h.levels.peer_level d, le-total (held d) p.leases j l el, held-live d l live)

  pub amount-le_session : (d : Dimension) → amount d l.claim ≤ level d s.usage
  amount-le_session d = omega (
    arith,
    h.levels.session_level d i s es,
    le-total (held_by d i) p.leases j l el,
    held_by-owner d i l live o,
  )

  -- `l'`, `u` and `v` are written in the places of the lease and of the two usages.
  module _ (l' : Lease) (u v : Usage) (o' : IsOwnedBy l' i)
      (less : (d : Dimension) → held d l' ≤ amount d l.claim)
      (hv : (d : Dimension) → level d v + amount d l.claim ≡ level d p.usage + held d l')
      (hu : (d : Dimension) → level d u + amount d l.claim ≡ level d s.usage + held d l') where
    adjusted-IsCapped : IsCapped (adjusted p i j s l' u v)
    adjusted-IsCapped = record {
      bytes_range = h.caps.bytes_range;
      session_range = h.caps.session_range;
      peer_bytes = omega (arith, h.caps.peer_bytes, hv in_bytes, less in_bytes);
      peer_leases = omega (arith, h.caps.peer_leases, hv in_reservations, less in_reservations);
      peer_streams = omega (arith, h.caps.peer_streams, hv in_streams, less in_streams);
      peer_accepts = omega (arith, h.caps.peer_accepts, hv in_accepts, less in_accepts);
      slots = h.caps.slots;
      pending = h.caps.pending;
      each_session = λ k t e.
          elim (get_elem?-set_cases p.sessions i k (record s { usage = u }) t e) [
            | inl (ek, et) ↦
                let c = h.caps.each_session i s es in
                rw (← et) (
                  omega (arith, c.0, hu in_bytes, less in_bytes),
                  omega (arith, c.1, hu in_streams, less in_streams),
                )
            | inr (n, et) ↦ h.caps.each_session k t et
          ];
    }

    pub adjusted-IsNearly : IsNearly (adjusted p i j s l' u v) i
    adjusted-IsNearly = record {
      levels =
          replace-IsLevel p.usage v p.sessions p.leases i j s (record s { usage = u }) l l' h.levels
            es el live o o' hv hu;
      counts = flags-IsCounted p.sessions i s (record s { usage = u }) h.counts es refl refl;
      caps = adjusted-IsCapped;
      sound = λ k t e. elim (get_elem?-set_cases p.sessions i k (record s { usage = u }) t e) [
        | inl (ek, et) ↦
            let so = h.settled i s es in
            let some_lease = amount-le_session in_reservations in
            rw (← et) (λ gone. absurd (omega (arith, some_lease, (so.1 gone).0)), so.2, so.3)
        | inr (n, et) ↦ let so = h.settled k t et in (so.1, so.2, so.3)
      ];
      busy = λ k t n e. elim (get_elem?-set_cases p.sessions i k (record s { usage = u }) t e) [
        | inl (ek, et) ↦ absurd (n ek)
        | inr (_, et) ↦ (h.settled k t et).0
      ];
    }

    -- A lease that stays live keeps its Session in the map.
    pub adjusted-IsBalanced : l'.released ≡ false → IsBalanced (adjusted p i j s l' u v)
    adjusted-IsBalanced live' =
        IsBusy-IsBalanced (adjusted p i j s l' u v) i (record s { usage = u }) adjusted-IsNearly
          (get_elem?-set_here p.sessions i s (record s { usage = u }) es)
          (λ closed here. omega (
            arith,
            hu in_reservations,
            held-live in_reservations l' live',
            amount-le_session in_reservations,
          ))
