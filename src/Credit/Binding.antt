-- ===== src/Credit/Binding.antt =====
-- internal/creditv2/ledger.go: `BindBytes` keeps the invariant.
use mpudp.Prelude.{
  ℕ, ◌+◌, ◌≡◌, refl, subst, inl, inr, true, false, set, get_elem?, Option, none, some, Option-cases,
  ok, arith, set-get_elem?,
}
use mpudp.Credit.{Session, Lease, Peer}
use mpudp.Credit.Operations.{Handle, bind_bytes}
use mpudp.Credit.Levels.{Dimension, IsLevel, amount, held, level, replace-IsLevel}
use mpudp.Credit.Balance.{IsBalanced}
use mpudp.Credit.Charging.{Finds}

bind_bytes-parts :
    (p p' : Peer) (session : Option ℕ) (lease : Option Handle) (required : ℕ) (g : Handle)
    → bind_bytes p session lease required ≡ ok (p', g)
    → (i : ℕ) × (s : Session) × (l : Lease) × Finds p session i s
      × (get_elem? p.leases g.place ≡ some l)
      × (l.released ≡ false)
      × (l.owner ≡ some i)
      × (p' ≡ record p { leases = set p.leases g.place (record l { bound = true }) })
unfolding bind_bytes
bind_bytes-parts p p' none lease required g e = cc
bind_bytes-parts p p' (some i) none required g e = elim (Option-cases (get_elem? p.sessions i)) [
  | inl n ↦ ground arith
  | inr (s, es) ↦ ground arith
]
bind_bytes-parts p p' (some i) (some h) required g e =
    elim (Option-cases (get_elem? p.sessions i)) [
      | inl n ↦ ground arith
      | inr (s, es) ↦ elim (Option-cases (get_elem? p.leases h.place)) [
        | inl n ↦ ground arith
        | inr (l, el) ↦
            (i, s, l, (refl, es), ground arith, ground arith, ground arith, ground arith)
      ]
    ]

pub bind_bytes-IsBalanced :
    (p p' : Peer) (session : Option ℕ) (lease : Option Handle) (required : ℕ) (g : Handle)
    → IsBalanced p
    → bind_bytes p session lease required ≡ ok (p', g)
    → IsBalanced p'
bind_bytes-IsBalanced p p' session lease required g h e =
    let (i, s, l, (_, es), el, live, o, same) = bind_bytes-parts p p' session lease required g e in
    let l' : Lease = record l { bound = true } in
    let kept : (d : Dimension) (n : ℕ) → n + amount d l.claim ≡ n + held d l' = λ d n. rw live in
    let levels : IsLevel p.usage (set p.sessions i s) (set p.leases g.place l') =
      replace-IsLevel p.usage p.usage p.sessions p.leases i g.place s s l l' h.levels es el live o
        (inr (live, o)) (λ d. kept d (level d p.usage)) (λ d. kept d (level d s.usage)) in
    rw same (record {
      levels =
          subst (λ t. IsLevel p.usage t (set p.leases g.place l')) (set-get_elem? p.sessions i s es)
            levels;
      counts = h.counts;
      caps = record {
        bytes_range = h.caps.bytes_range;
        session_range = h.caps.session_range;
        peer_bytes = h.caps.peer_bytes;
        peer_leases = h.caps.peer_leases;
        peer_streams = h.caps.peer_streams;
        peer_accepts = h.caps.peer_accepts;
        slots = h.caps.slots;
        pending = h.caps.pending;
        each_session = h.caps.each_session;
      };
      settled = h.settled;
    })
