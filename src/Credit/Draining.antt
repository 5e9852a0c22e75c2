-- ===== src/Credit/Draining.antt =====
-- internal/creditv2/ledger.go: a closed Peer whose leases are released.
use mpudp.Prelude.{
  ℕ, zero, suc, ◌<◌, ◌≡◌, ◌⊎◌, refl, sym, ap, ◌∙◌, subst, inl, inr, List, [], ◌∷◌, true, false,
  length, length-set, set, get_elem?, get_elem?-lt, get_elem?-set_here, get_elem?-set_cases, some,
  ok, arith, Bool-cases,
}
use mpudp.Credit.{subtract_claim, Session, Lease, Limits, Peer, new, no_usage}
use mpudp.Credit.Operations.{release, discharge, close_peer}
use mpudp.Credit.Balance.{IsBalanced}
use mpudp.Credit.Lowering.{IsHeld}
use mpudp.Credit.Releasing.{spent, release-finds, release-parts, release-IsBalanced}
use mpudp.Credit.Retire.{retire-closed}
use mpudp.Credit.Closing.{close_peer-IsBalanced}
use mpudp.Credit.Outcomes.{retire-keeps, release-spent}
use mpudp.Credit.Ledger.{Reach, reachable-IsBalanced, closed_drains}

-- The lease at `j`, if there is one, is released.
abbrev pub IsSpent : Peer → ℕ → Type 0
IsSpent p j = (l : Lease) → get_elem? p.leases j ≡ some l → l.released ≡ true

-- `Release` of the leases at the places `js`, one call after the other.
abbrev pub release_each : Peer → List ℕ → Peer
release_each p [] = p
release_each p (j ∷ js) = release_each (release p (some j)) js

abbrev pub IsListed : ℕ → List ℕ → Type 0
IsListed j [] = ⊥
IsListed j (k ∷ ks) = (k ≡ j) ⊎ IsListed j ks

discharge-keeps :
    (p : Peer) (j : ℕ) (l : Lease) (i : ℕ) (s : Session)
    → ((discharge p j l i s).leases ≡ set p.leases j (spent l))
      × ((discharge p j l i s).closed ≡ p.closed)
unfolding discharge
discharge-keeps p j l i s =
    let s' : Session = record s { usage = subtract_claim s.usage l.claim } in
    let q : Peer = record p {
      usage = subtract_claim p.usage l.claim;
      sessions = set p.sessions i s';
      leases = set p.leases j (spent l);
    } in
    ((retire-keeps q i s').1, retire-closed q i s')

-- A release leaves the other leases alone, and a released lease released.
release-keeps :
    (p : Peer) (j : ℕ)
    → ((release p (some j)).closed ≡ p.closed)
      × (length (release p (some j)).leases ≡ length p.leases)
      × ((k : ℕ) → IsSpent p k → IsSpent (release p (some j)) k)
release-keeps p j = elim (release-parts p (some j)) [
  | inl same ↦ (
    ap (λ (q : Peer). q.closed) same,
    ap (λ (q : Peer). length q.leases) same,
    λ k x l e. x l (ap (λ (q : Peer). get_elem? q.leases k) (sym same) ∙ e),
  )
  | inr (i, j', s, l, x, same) ↦
      let (leases, closed) = discharge-keeps p j' l i s in
      let after = ap (λ (q : Peer). q.leases) same ∙ leases in
      (
        ap (λ (q : Peer). q.closed) same ∙ closed,
        ap length after ∙ length-set p.leases j' (spent l),
        λ k y m e.
            elim (get_elem?-set_cases p.leases j' k (spent l) m
              (ap (λ (ls : List Lease). get_elem? ls k) (sym after) ∙ e)) [
                | inl (_, em) ↦ ap (λ (n : Lease). n.released) (sym em)
                | inr (_, em) ↦ y m em
              ],
      )
]

found {ℓ} : {A : Type ℓ} (xs : List A) (i : ℕ) → i < length xs → (x : A) × (get_elem? xs i ≡ some x)
found [] i h = absurd (omega arith)
found (x ∷ xs) zero h = (x, refl)
found (x ∷ xs) (suc i) h = found xs i (omega arith)

-- In a balanced ledger a release of a lease releases it.
release-IsSpent : (p : Peer) (j : ℕ) → IsBalanced p → IsSpent (release p (some j)) j
release-IsSpent p j h m e =
    let (_, many, _) = release-keeps p j in
    let inside = get_elem?-lt (release p (some j)).leases j m e in
    let (l, el) = found p.leases j (omega arith) in
    elim (Bool-cases l.released) [
      | inl r ↦
          let there : get_elem? p.leases j ≡ some m =
            ap (λ (q : Peer). get_elem? q.leases j) (sym (release-spent p j l el r)) ∙ e in
          let same : l ≡ m = ground (arith, el, there) in
          ap (λ (n : Lease). n.released) (sym same) ∙ r
      | inr live ↦
          let (i, o, place) = h.levels.owners j l el live in
          let (s, es) = found p.sessions i place in
          let x : IsHeld p (some j) i j s l = record {
            handle = refl;
            lease_there = el;
            live = live;
            owned = o;
            session_there = es;
          } in
          let (leases, _) = discharge-keeps p j l i s in
          let after = ap (λ (q : Peer). q.leases) (release-finds p i j s l x) ∙ leases in
          let now : get_elem? (release p (some j)).leases j ≡ some (spent l) =
            ap (λ (ls : List Lease). get_elem? ls j) after
            ∙ get_elem?-set_here p.leases j l (spent l) el in
          let same : spent l ≡ m = ground (arith, now, e) in
          ap (λ (n : Lease). n.released) (sym same)
    ]

release_each-keeps :
    (js : List ℕ) (p : Peer)
    → IsBalanced p
    → IsBalanced (release_each p js)
      × ((release_each p js).closed ≡ p.closed)
      × (length (release_each p js).leases ≡ length p.leases)
      × ((k : ℕ) → IsSpent p k ⊎ IsListed k js → IsSpent (release_each p js) k)
release_each-keeps [] p h = (h, refl, refl, λ k x. elim x [ inl y ↦ y | inr y ↦ absurd y ])
release_each-keeps (j ∷ js) p h =
    let (closed, many, spent_still) = release-keeps p j in
    let (h', closed', many', rest) =
      release_each-keeps js (release p (some j)) (release-IsBalanced p (some j) h) in
    (
      h',
      closed' ∙ closed,
      many' ∙ many,
      λ k x. elim x [
        | inl y ↦ rest k (inl (spent_still k y))
        | inr (inl jk) ↦
            rest k (inl (subst (IsSpent (release p (some j))) jk (release-IsSpent p j h)))
        | inr (inr y) ↦ rest k (inr y)
      ],
    )

-- Whatever calls a new ledger has seen: when `Close` of the Peer is called, and then `Release` of each of its leases, in
-- any order and any number of times, every counter of the Peer is 0, and each of its Sessions is unregistered and charged
-- with nothing.
pub close_peer-drains :
    (name : ℕ) (m : Limits) (start p : Peer) (js : List ℕ)
    → new name m ≡ ok start
    → Reach start p
    → ((j : ℕ) → j < length (close_peer p).leases → IsListed j js)
    → (let q = release_each (close_peer p) js in
        (q.usage ≡ no_usage)
        × (q.session_slots ≡ 0)
        × (q.pending_handshakes ≡ 0)
        × (q.established_sessions ≡ 0)
        × ((i : ℕ) (s : Session)
            → get_elem? q.sessions i ≡ some s
            → (s.registered ≡ false) × (s.usage ≡ no_usage)))
close_peer-drains name m start p js made calls all =
    let (h, closed, _) = close_peer-IsBalanced p (reachable-IsBalanced name m start p made calls) in
    let (h', closed', many, spent_all) = release_each-keeps js (close_peer p) h in
    let gone : (j : ℕ) (l : Lease)
        → get_elem? (release_each (close_peer p) js).leases j ≡ some l
        → l.released ≡ true =
      λ j l e.
        let inside = get_elem?-lt (release_each (close_peer p) js).leases j l e in
        spent_all j (inr (all j (omega arith))) l e in
    closed_drains (release_each (close_peer p) js) h' (closed' ∙ closed) gone
