-- ===== src/Credit/Closing.antt =====
-- internal/creditv2/ledger.go: `Session.Close` and `Peer.Close` keep the invariant, and the loop of
-- `Peer.Close` closes every Session.
use mpudp.Prelude.{
  All, List, [], ◌∷◌, ℕ, zero, suc, ◌+◌, ◌<◌, ◌≡◌, ◌≢◌, refl, ◌∙◌, ◌⊎◌, inl, inr, true, false,
  length, length-set, set, get_elem?, get_elem?-lt, get_elem?-set_here, get_elem?-set_cases, Option,
  none, some, Option-cases, arith, Bool-cases,
}
use mpudp.Credit.{Session, Peer}
use mpudp.Credit.Operations.{shut, close_session, close_at, close_all, close_peer}
use mpudp.Credit.Levels.{flag-IsLevel}
use mpudp.Credit.Balance.{IsBalanced}
use mpudp.Credit.Charging.{flags-IsCounted}
use mpudp.Credit.Retire.{IsNearly, retire-IsBalanced, retire-sessions, retire-closed, gone, ℕ-cases}

abbrev shutting : Session → Session
shutting s = record s { closed = true }

module _ (p : Peer) (i : ℕ) (s : Session) (es : get_elem? p.sessions i ≡ some s) where
  abbrev marked : Peer
  marked = record p { sessions = set p.sessions i (shutting s) }

  marked-IsNearly : IsBalanced p → IsNearly marked i
  marked-IsNearly h = record {
    levels = flag-IsLevel p.usage p.sessions p.leases h.levels i s (shutting s) es refl;
    counts = flags-IsCounted p.sessions i s (shutting s) h.counts es refl refl;
    caps = record {
      bytes_range = h.caps.bytes_range;
      session_range = h.caps.session_range;
      peer_bytes = h.caps.peer_bytes;
      peer_leases = h.caps.peer_leases;
      peer_streams = h.caps.peer_streams;
      peer_accepts = h.caps.peer_accepts;
      slots = h.caps.slots;
      pending = h.caps.pending;
      each_session = λ k t e. elim (get_elem?-set_cases p.sessions i k (shutting s) t e) [
        | inl (ek, et) ↦ rw (← et) (h.caps.each_session i s es)
        | inr (n, et) ↦ h.caps.each_session k t et
      ];
    };
    sound = λ k t e. elim (get_elem?-set_cases p.sessions i k (shutting s) t e) [
      | inl (ek, et) ↦
          let so = h.settled i s es in rw (← et) ((λ r. ((so.1 r).0, refl)), so.2, λ _. refl)
      | inr (n, et) ↦ let so = h.settled k t et in (so.1, so.2, so.3)
    ];
    busy = λ k t n e. elim (get_elem?-set_cases p.sessions i k (shutting s) t e) [
      | inl (ek, et) ↦ absurd (n ek)
      | inr (_, et) ↦ (h.settled k t et).0
    ];
  }

  shut-IsBalanced : IsBalanced p → IsBalanced (shut p i s)
  unfolding shut
  shut-IsBalanced h =
      retire-IsBalanced marked i (shutting s) (marked-IsNearly h)
        (get_elem?-set_here p.sessions i s (shutting s) es)

  once :
      (k : ℕ) (x : Session)
      → get_elem? marked.sessions k ≡ some x
      → ((k ≡ i) × (x.closed ≡ true)) ⊎ ((k ≢ i) × (get_elem? p.sessions k ≡ some x))
  once k x e = elim (get_elem?-set_cases p.sessions i k (shutting s) x e) [
    | inl (ek, ex) ↦ inl (ek, rw (← ex))
    | inr r ↦ inr r
  ]

  -- `shut` closes this Session and leaves the others as they are.
  shut_cases :
      (k : ℕ) (x : Session)
      → get_elem? (shut p i s).sessions k ≡ some x
      → ((k ≡ i) × (x.closed ≡ true)) ⊎ ((k ≢ i) × (get_elem? p.sessions k ≡ some x))
  unfolding shut
  shut_cases k x e = elim (retire-sessions marked i (shutting s)) [
    | inl same ↦ once k x (rw same at e)
    | inr same ↦
        elim (get_elem?-set_cases marked.sessions i k (gone (shutting s)) x (rw same at e)) [
          | inl (ek, ex) ↦ inl (ek, rw (← ex))
          | inr (_, ex) ↦ once k x ex
        ]
  ]

pub close_session-IsBalanced :
    (p : Peer) (session : Option ℕ) → IsBalanced p → IsBalanced (close_session p session)
unfolding close_session
close_session-IsBalanced p none h = h
close_session-IsBalanced p (some i) h = elim (Option-cases (get_elem? p.sessions i)) [
  | inl n ↦ rw (n, close_session) h
  | inr (s, es) ↦ rw (es, close_session) (shut-IsBalanced p i s es h)
]

-- A round of `Peer.Close` changes nothing, or shuts the registered Session at its place.
close_at-parts :
    (p : Peer) (i : ℕ)
    → ((close_at p i ≡ p)
        × ((s : Session) → get_elem? p.sessions i ≡ some s → s.registered ≡ false))
      ⊎ ((s : Session) × (get_elem? p.sessions i ≡ some s) × (close_at p i ≡ shut p i s))
unfolding close_at
close_at-parts p i = elim (Option-cases (get_elem? p.sessions i)) [
  | inl n ↦ inl (ground arith, λ s e. cc)
  | inr (s, es) ↦ elim (Bool-cases s.registered) [
    | inl r ↦ inr (s, es, ground arith)
    | inr r ↦ inl (ground arith, λ t e. let same : s ≡ t = cc in rw (← same) r)
  ]
]

abbrev reopened : Peer → Peer
reopened p = record p { closed = false }

-- The loop does not read the Peer's flag.
shut-reopened : (p : Peer) (i : ℕ) (s : Session) → reopened (shut p i s) ≡ shut (reopened p) i s
unfolding shut
shut-reopened p i s = ground arith

-- What holds of a closing ledger in the loop: its first `i` Sessions are closed, and but for the
-- flag it is balanced.
record IsClosing (i : ℕ) (p : Peer) : Type 0 where
  balanced : IsBalanced (reopened p)
  below : (k : ℕ) (x : Session) → k < i → get_elem? p.sessions k ≡ some x → x.closed ≡ true

close_at-IsClosing : (i : ℕ) (p : Peer) → IsClosing i p → IsClosing (i + 1) (close_at p i)
close_at-IsClosing i p c = elim (close_at-parts p i) [
  | inl (same, left) ↦ rw same (record {
    balanced = c.balanced;
    below = λ k x h e. elim (ℕ-cases k i) [
      | inl ek ↦ ((c.balanced.settled k x e).1 (left x (rw ek at e))).1
      | inr n ↦ c.below k x (omega arith) e
    ];
  })
  | inr (s, es, same) ↦ rw same (record {
    balanced = rw (shut-reopened p i s) (shut-IsBalanced (reopened p) i s es c.balanced);
    below = λ k x h e. elim (shut_cases p i s es k x e) [
      | inl (_, closed) ↦ closed
      | inr (n, ex) ↦ c.below k x (omega arith) ex
    ];
  })
]

length-shut : (p : Peer) (i : ℕ) (s : Session) → length (shut p i s).sessions ≡ length p.sessions
unfolding shut
length-shut p i s =
    elim (retire-sessions (record p { sessions = set p.sessions i (shutting s) }) i (shutting s)) [
      | inl same ↦ rw same (length-set p.sessions i (shutting s))
      | inr same ↦ rw same (
          length-set (set p.sessions i (shutting s)) i (gone (shutting s))
          ∙ length-set p.sessions i (shutting s))
    ]

length-close_at : (p : Peer) (i : ℕ) → length (close_at p i).sessions ≡ length p.sessions
length-close_at p i = elim (close_at-parts p i) [
  | inl (same, _) ↦ rw same
  | inr (s, _, same) ↦ rw same (length-shut p i s)
]

close_all-IsClosing :
    (n i : ℕ) (p : Peer)
    → IsClosing i p
    → IsClosing (i + n) (close_all p i n) × (length (close_all p i n).sessions ≡ length p.sessions)
unfolding close_all
close_all-IsClosing zero i p c = let z : i + 0 ≡ i = omega arith in (rw z c, refl)
close_all-IsClosing (suc n) i p c =
    let (rest, len) = close_all-IsClosing n (i + 1) (close_at p i) (close_at-IsClosing i p c) in
    let z : i + 1 + n ≡ i + suc n = omega arith in (rw z at rest, len ∙ length-close_at p i)

shut-closed : (p : Peer) (i : ℕ) (s : Session) → (shut p i s).closed ≡ p.closed
unfolding shut
shut-closed p i s =
    retire-closed (record p { sessions = set p.sessions i (shutting s) }) i (shutting s)

close_at-closed : (p : Peer) (i : ℕ) → (close_at p i).closed ≡ p.closed
close_at-closed p i = elim (close_at-parts p i) [
  | inl (same, _) ↦ rw same
  | inr (s, _, same) ↦ rw same (shut-closed p i s)
]

close_all-closed : (n i : ℕ) (p : Peer) → (close_all p i n).closed ≡ p.closed
unfolding close_all
close_all-closed zero i p = refl
close_all-closed (suc n) i p = close_all-closed n (i + 1) (close_at p i) ∙ close_at-closed p i

close_peer-parts :
    (p : Peer)
    → ((p.closed ≡ true) × (close_peer p ≡ p))
      ⊎ ((record p { closed = false } ≡ p)
          × (close_peer p ≡ close_all (record p { closed = true }) 0 (length p.sessions)))
unfolding close_peer
close_peer-parts p = elim (Bool-cases p.closed) [
  | inl done ↦ inl (done, ground arith)
  | inr busy ↦ inr (ground arith, ground arith)
]

-- A ledger whose loop is done.
closed-IsBalanced :
    (q : Peer)
    → IsBalanced (reopened q)
    → ((k : ℕ) (x : Session) → get_elem? q.sessions k ≡ some x → x.closed ≡ true)
    → IsBalanced q
closed-IsBalanced q b all = record {
  levels = b.levels;
  counts = b.counts;
  caps = record {
    bytes_range = b.caps.bytes_range;
    session_range = b.caps.session_range;
    peer_bytes = b.caps.peer_bytes;
    peer_leases = b.caps.peer_leases;
    peer_streams = b.caps.peer_streams;
    peer_accepts = b.caps.peer_accepts;
    slots = b.caps.slots;
    pending = b.caps.pending;
    each_session = b.caps.each_session;
  };
  settled = λ k x e. let so = b.settled k x e in (so.0, so.1, so.2, λ _. all k x e);
}

every_closed :
    (ss : List Session)
    → ((k : ℕ) (x : Session) → get_elem? ss k ≡ some x → x.closed ≡ true)
    → All (λ (x : Session). x.closed ≡ true) ss
every_closed [] h = tt
every_closed (s ∷ ss) h = (h 0 s refl, every_closed ss (λ k x e. h (suc k) x e))

-- Closing a Peer keeps the ledger balanced, and leaves the Peer and all of its Sessions closed.
pub close_peer-IsBalanced :
    (p : Peer)
    → IsBalanced p
    → IsBalanced (close_peer p)
      × ((close_peer p).closed ≡ true)
      × All (λ (x : Session). x.closed ≡ true) (close_peer p).sessions
close_peer-IsBalanced p h = elim (close_peer-parts p) [
  | inl (done, same) ↦
      rw same (h, done, every_closed p.sessions (λ k x e. (h.settled k x e).3 done))
  | inr (busy, same) ↦
      let p' : Peer = record p { closed = true } in
      let (c, len) =
        close_all-IsClosing (length p.sessions) 0 p'
          (record { balanced = rw busy h; below = λ k x k_lt e. absurd (omega arith) }) in
      let all : (k : ℕ) (x : Session)
          → get_elem? (close_all p' 0 (length p.sessions)).sessions k ≡ some x
          → x.closed ≡ true =
        λ k x e.
          c.below k x
            (omega (arith, len, get_elem?-lt (close_all p' 0 (length p.sessions)).sessions k x e))
            e in
      rw same (
        closed-IsBalanced _ c.balanced all,
        close_all-closed (length p.sessions) 0 p',
        every_closed _ all,
      )
]
