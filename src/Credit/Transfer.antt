-- ===== src/Credit/Transfer.antt =====
-- internal/creditv2/ledger.go: the usage counters when a lease moves from one Session to another.
use mpudp.Prelude.{
  ℕ, ◌+◌, ◌<◌, ◌≡◌, ◌≢◌, sym, ap, ◌∙◌, inl, inr, List, false, length, length-set, set, get_elem?,
  some, arith, total, total-set, get_elem?-lt, get_elem?-set_cases,
}
use mpudp.Credit.{Usage, Session, Lease}
use mpudp.Credit.Levels.{
  Dimension, amount, level, held, held_by, IsLevel, held_by-owner, held_by-other, held-live,
}

-- A lease moves from the Session at `a` to the one at `b`.
module _ (v : Usage) (ss : List Session) (ls : List Lease) (a b j : ℕ) (s s' t t' : Session)
    (l l' : Lease) (p : IsLevel v ss ls) (apart : b ≢ a) (es : get_elem? ss a ≡ some s)
    (et : get_elem? ss b ≡ some t) (el : get_elem? ls j ≡ some l) (r : l.released ≡ false)
    (o : l.owner ≡ some a) (r' : l'.released ≡ false) (o' : l'.owner ≡ some b)
    (same : l'.claim ≡ l.claim) where
  moved_to :
      (d : Dimension)
      → level d t'.usage ≡ level d t.usage + amount d l.claim
      → level d t'.usage ≡ total (held_by d b) (set ls j l')
  moved_to d h = omega (
    arith,
    h,
    p.session_level d b t et,
    total-set (held_by d b) ls j l l' el,
    held_by-other d a b l o apart,
    held_by-owner d b l' r' o',
    ap (amount d) same,
  )

  moved_from :
      (d : Dimension)
      → level d s'.usage + amount d l.claim ≡ level d s.usage
      → level d s'.usage ≡ total (held_by d a) (set ls j l')
  moved_from d h = omega (
    arith,
    h,
    p.session_level d a s es,
    total-set (held_by d a) ls j l l' el,
    held_by-owner d a l r o,
    held_by-other d b a l' o' (λ e. apart (sym e)),
  )

  moved_session :
      (d : Dimension) (k : ℕ) (x : Session)
      → level d s'.usage + amount d l.claim ≡ level d s.usage
      → level d t'.usage ≡ level d t.usage + amount d l.claim
      → get_elem? (set (set ss a s') b t') k ≡ some x
      → level d x.usage ≡ total (held_by d k) (set ls j l')
  moved_session d k x hs ht e = elim (get_elem?-set_cases (set ss a s') b k t' x e) [
    | inl (ek, ex) ↦ rw (ek, ← ex) (moved_to d ht)
    | inr (n, ex) ↦ elim (get_elem?-set_cases ss a k s' x ex) [
      | inl (ek, ey) ↦ rw (ek, ← ey) (moved_from d hs)
      | inr (m, ey) ↦ omega (
        arith,
        total-set (held_by d k) ls j l l' el,
        p.session_level d k x ey,
        held_by-other d a k l o m,
        held_by-other d b k l' o' n,
      )
    ]
  ]

  moved_owner :
      (k : ℕ) (m : Lease)
      → get_elem? (set ls j l') k ≡ some m
      → m.released ≡ false
      → (x : ℕ) × (m.owner ≡ some x) × (x < length (set (set ss a s') b t'))
  moved_owner k m e live =
      let n : length (set (set ss a s') b t') ≡ length ss =
        length-set (set ss a s') b t' ∙ length-set ss a s' in
      elim (get_elem?-set_cases ls j k l' m e) [
        | inl (ek, em) ↦ (b, cc (em, o'), rw n (get_elem?-lt ss b t et))
        | inr (_, em) ↦ let (x, ox, lx) = p.owners k m em live in (x, ox, rw n lx)
      ]

  pub move-IsLevel :
      ((d : Dimension) → level d s'.usage + amount d l.claim ≡ level d s.usage)
      → ((d : Dimension) → level d t'.usage ≡ level d t.usage + amount d l.claim)
      → IsLevel v (set (set ss a s') b t') (set ls j l')
  move-IsLevel hs ht = record {
    peer_level = λ d. omega (
      arith,
      p.peer_level d,
      total-set (held d) ls j l l' el,
      held-live d l r,
      held-live d l' r',
      ap (amount d) same,
    );
    session_level = λ d k x e. moved_session d k x (hs d) (ht d) e;
    owners = moved_owner;
  }
