-- ===== src/Credit/Handover.antt =====
-- internal/creditv2/ledger.go: what `Transfer` does to the ledger.
use mpudp.Prelude.{
  ℕ, ◌+◌, ◌≤◌, ◌≡◌, ◌≢◌, ◌⊎◌, refl, sym, ap, ◌∙◌, subst, inl, inr, Bool, true, false, not, ◌&&◌,
  ◌==◌, set, get_elem?, get_elem?-set_here, get_elem?-set_ne, le-total, some, ok, arith, Bool-cases,
}
use mpudp.Credit.{Session, Lease, Peer, one_if}
use mpudp.Credit.Operations.{Handle, transfer, move}
use mpudp.Credit.Levels.{Dimension, in_reservations, level, amount}
use mpudp.Credit.Balance.{IsBalanced, slot_of, pending_of, established_of, check_session_claim-fits}
use mpudp.Credit.Adjust.{amount-le_session}
use mpudp.Credit.Retire.{gone, stays, without, retire-stays, retire-leaves}
use mpudp.Credit.Moving.{debited, credited, moved, debit, credit, moved-IsNearly, transfer-parts}

-- Whether the Session `s` is closed and has but one lease.
abbrev pub is_last : Session → Bool
is_last s = s.closed && s.usage.reservations == 1

-- The lease `l` at `j` has gone from the Session `s` at `a` to the Session `t` at `b`.
pub record IsMoved (p p' : Peer) (j a b : ℕ) (l : Lease) (s t : Session) : Type 0 where
  pub usage_eq : p'.usage ≡ p.usage
  pub leases_eq : p'.leases ≡ set p.leases j (record l { owner = some b })
  pub closed_eq : p'.closed ≡ p.closed
  pub slots : p'.session_slots + one_if (is_last s) ≡ p.session_slots
  pub pending :
      p'.pending_handshakes + one_if (is_last s && s.pending_handshake) ≡ p.pending_handshakes
  pub established :
      p'.established_sessions + one_if (is_last s && not s.pending_handshake)
      ≡ p.established_sessions
  pub s' : Session
  pub source : get_elem? p'.sessions a ≡ some s'
  pub debited_by : (d : Dimension) → level d s'.usage + amount d l.claim ≡ level d s.usage
  pub same_flags : (s'.closed ≡ s.closed) × (s'.pending_handshake ≡ s.pending_handshake)
  pub retired : (s'.retired ≡ is_last s) × (s'.registered ≡ not (is_last s))
  pub t' : Session
  pub target : get_elem? p'.sessions b ≡ some t'
  pub credited_by : (d : Dimension) → level d t'.usage ≡ level d t.usage + amount d l.claim
  pub target_kept : t' ≡ record t { usage = t'.usage }
  pub others : (k : ℕ) → k ≢ a → k ≢ b → get_elem? p'.sessions k ≡ get_elem? p.sessions k

module _ (p : Peer) (a b j : ℕ) (s t : Session) (l : Lease) (h : IsBalanced p) (apart : b ≢ a)
    (es : get_elem? p.sessions a ≡ some s) (et : get_elem? p.sessions b ≡ some t)
    (el : get_elem? p.leases j ≡ some l) (live : l.released ≡ false) (o : l.owner ≡ some a)
    (t_open : t.closed ≡ false)
    (fits : (t.usage.bytes + l.claim.bytes ≤ p.limits.max_session_bytes)
      × (t.usage.business_streams + one_if l.claim.business_stream
          ≤ p.limits.max_streams_per_session)) where
  abbrev less : Session
  less = debited p a b j s t l h apart es et el live o t_open fits

  abbrev more : Session
  more = credited p a b j s t l h apart es et el live o t_open fits

  abbrev between : Peer
  between = moved p a b j s t l h apart es et el live o t_open fits

  -- The source has a live lease, so it is registered.
  here : (s.registered ≡ true) × (s.retired ≡ false)
  here =
      let so = h.settled a s es in
      let one = amount-le_session p a j s l h es el live o in_reservations in
      let there : s.registered ≡ true = elim (Bool-cases s.registered) [
        | inl r ↦ r
        | inr out ↦ let (none_left, _) = so.1 out in absurd (omega arith)
      ] in
      let flags = so.2 in (there, ground (arith, there, flags))

  stays-last : stays less ≡ not (is_last s)
  stays-last =
      let down = debit p a b j s t l h apart es et el live o t_open fits in_reservations in
      let (_, kept) = here in ground (arith, down, kept)

  source_there : get_elem? between.sessions a ≡ some less
  source_there =
      get_elem?-set_ne (set p.sessions a less) {i = b} {j = a} more apart
      ∙ get_elem?-set_here p.sessions a s less es

  target_there : get_elem? between.sessions b ≡ some more
  target_there =
      get_elem?-set_here (set p.sessions a less) b t more
        (get_elem?-set_ne p.sessions {i = a} {j = b} less (λ e. apart (sym e)) ∙ et)

  other_there : (k : ℕ) → k ≢ a → k ≢ b → get_elem? between.sessions k ≡ get_elem? p.sessions k
  other_there k na nb =
      get_elem?-set_ne (set p.sessions a less) {i = b} {j = k} more (λ e. nb (sym e))
      ∙ get_elem?-set_ne p.sessions {i = a} {j = k} less (λ e. na (sym e))

  kept-IsMoved : is_last s ≡ false → IsMoved p between j a b l s t
  kept-IsMoved n =
      let (registered, retired) = here in
      record {
        usage_eq = refl;
        leases_eq = refl;
        closed_eq = refl;
        slots = rw n (omega arith);
        pending = rw n (omega arith);
        established = rw n (omega arith);
        s' = less;
        source = source_there;
        debited_by = debit p a b j s t l h apart es et el live o t_open fits;
        same_flags = (refl, refl);
        retired = rw n (retired, registered);
        t' = more;
        target = target_there;
        credited_by = credit p a b j s t l h apart es et el live o t_open fits;
        target_kept = refl;
        others = other_there;
      }

  left-IsMoved : is_last s ≡ true → IsMoved p (without between a less) j a b l s t
  left-IsMoved y =
      let (registered, retired) = here in
      let counts = (moved-IsNearly p a b j s t l h apart es et el live o t_open fits).counts in
      let slots = counts.slots_exact in
      let pending = counts.pending_exact in
      let established = counts.established_exact in
      let one_slot = le-total slot_of between.sessions a less source_there in
      let one_pending = le-total pending_of between.sessions a less source_there in
      let one_established = le-total established_of between.sessions a less source_there in
      record {
        usage_eq = refl;
        leases_eq = refl;
        closed_eq = refl;
        slots = rw y (ground (arith, registered, slots, one_slot));
        pending = rw y (ground (arith, registered, pending, one_pending));
        established = rw y (ground (arith, registered, established, one_established));
        s' = gone less;
        source = get_elem?-set_here between.sessions a less (gone less) source_there;
        debited_by = debit p a b j s t l h apart es et el live o t_open fits;
        same_flags = (refl, refl);
        retired = rw y (refl, refl);
        t' = more;
        target =
            get_elem?-set_ne between.sessions {i = a} {j = b} (gone less) (λ e. apart (sym e))
            ∙ target_there;
        credited_by = credit p a b j s t l h apart es et el live o t_open fits;
        target_kept = refl;
        others = λ k na nb.
            get_elem?-set_ne between.sessions {i = a} {j = k} (gone less) (λ e. na (sym e))
            ∙ other_there k na nb;
      }

  move-IsMoved : IsMoved p (move p j l a s b t) j a b l s t
  unfolding move
  move-IsMoved = elim (Bool-cases (is_last s)) [
    | inl y ↦
        subst (λ (q : Peer). IsMoved p q j a b l s t)
          (sym (retire-leaves between a less (stays-last ∙ rw y refl))) (left-IsMoved y)
    | inr n ↦
        subst (λ (q : Peer). IsMoved p q j a b l s t)
          (sym (retire-stays between a less (stays-last ∙ rw n refl))) (kept-IsMoved n)
  ]

-- Where `Transfer` succeeds in a balanced ledger, the lease had an owner. If that is the destination, nothing changes.
-- Otherwise the lease is the destination's, and no other lease changes; its claim is taken from the source's counters and
-- added to the destination's, exactly; the Peer's usage and the other Sessions stay as they are. If the source is closed
-- and that was its last lease, it is retired and leaves the Peer's counts of Sessions; otherwise they stay as they are.
pub transfer-IsMoved :
    (p p' : Peer) (j : ℕ) (destination : Handle)
    → IsBalanced p
    → transfer p (some j) (some destination) ≡ ok p'
    → (l : Lease) × (a : ℕ) × (get_elem? p.leases j ≡ some l)
      × (l.owner ≡ some a)
      × (((destination.place ≡ a) × (p' ≡ p))
          ⊎ ((s : Session) × (t : Session) × (destination.place ≢ a)
              × (get_elem? p.sessions a ≡ some s)
              × (get_elem? p.sessions destination.place ≡ some t)
              × (t.closed ≡ false)
              × IsMoved p p' j a destination.place l s t))
transfer-IsMoved p p' j destination h e =
    let (a, b, j', s, t, l, x, (g, named, place), et, t_open, _, outcome) =
      transfer-parts p p' (some j) (some destination) e in
    let at_b : b ≡ destination.place = ground arith in
    let same_j : j' ≡ j = ground (arith, x.handle) in
    let lease_there = ap (get_elem? p.leases) (sym same_j) ∙ x.lease_there in
    (
      l,
      a,
      lease_there,
      x.owned,
      elim outcome [
        | inl (at_home, same) ↦ inl (sym at_b ∙ at_home, same)
        | inr (apart, checked, same) ↦
            let fits =
              check_session_claim-fits p t l.claim h.caps (h.caps.each_session b t et) checked in
            let done =
              move-IsMoved p a b j' s t l h apart x.session_there et x.lease_there x.live x.owned
                t_open fits in
            let there = subst (λ (q : Peer). IsMoved p q j' a b l s t) (sym same) done in
            inr (
              s,
              t,
              subst (λ (k : ℕ). k ≢ a) at_b apart,
              x.session_there,
              ap (get_elem? p.sessions) (sym at_b) ∙ et,
              t_open,
              subst (λ (k : ℕ). IsMoved p p' j a k l s t) at_b
                  (subst (λ (i : ℕ). IsMoved p p' i a b l s t) same_j there),
            )
      ],
    )
