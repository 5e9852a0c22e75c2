-- ===== src/Credit/Levels.antt =====
-- internal/creditv2/ledger.go: what the usage counters of the Peer and its Sessions stand for.
use mpudp.Prelude.{
  ℕ, ◌+◌, ◌<◌, ◌≡◌, ◌≢◌, ◌⊎◌, inl, inr, List, [], ◌∷◌, ◌++◌, true, false, if◌then◌else◌, length,
  length-set, length-append, set, get_elem?, some, arith, total, total-set, total-append,
  total-eq-zero, Bool-cases, get_elem?-lt, get_elem?-set_cases, get_elem?-append_cases,
}
use mpudp.Credit.{Claim, Usage, Session, Lease, one_if}
use mpudp.Credit.Operations.{same_place}

-- The four things that a claim takes.
pub data Dimension : Type 0 where
  in_bytes in_reservations in_streams in_accepts : Dimension

abbrev pub amount : Dimension → Claim → ℕ
amount in_bytes c = c.bytes
amount in_reservations c = 1
amount in_streams c = one_if c.business_stream
amount in_accepts c = one_if c.pending_accept

abbrev pub level : Dimension → Usage → ℕ
level in_bytes u = u.bytes
level in_reservations u = u.reservations
level in_streams u = u.business_streams
level in_accepts u = u.pending_accepts

-- What a lease holds, and what it holds for the Session at `i`.
abbrev pub held : Dimension → Lease → ℕ
held d l = if l.released then 0 else amount d l.claim

abbrev pub held_by : Dimension → ℕ → Lease → ℕ
held_by d i l = if l.released then 0 else if same_place l.owner i then amount d l.claim else 0

-- Every counter is the sum over the live leases, and a live lease has an owner.
pub record IsLevel (v : Usage) (ss : List Session) (ls : List Lease) : Type 0 where
  pub peer_level : (d : Dimension) → level d v ≡ total (held d) ls
  pub session_level :
      (d : Dimension) (i : ℕ) (s : Session)
      → get_elem? ss i ≡ some s
      → level d s.usage ≡ total (held_by d i) ls
  pub owners :
      (j : ℕ) (l : Lease)
      → get_elem? ls j ≡ some l
      → l.released ≡ false
      → (i : ℕ) × (l.owner ≡ some i) × (i < length ss)

pub held_by-owner :
    (d : Dimension) (i : ℕ) (l : Lease)
    → l.released ≡ false
    → l.owner ≡ some i
    → held_by d i l ≡ amount d l.claim
held_by-owner d i l r o = rw (r, o) (ground arith)

pub held_by-other :
    (d : Dimension) (i k : ℕ) (l : Lease) → l.owner ≡ some i → k ≢ i → held_by d k l ≡ 0
held_by-other d i k l o n = ground arith

pub held-live : (d : Dimension) (l : Lease) → l.released ≡ false → held d l ≡ amount d l.claim
held-live d l r = rw r

-- What a lease holds, it holds for its owner.
abbrev pub IsOwnedBy : Lease → ℕ → Type 0
IsOwnedBy l i = (l.released ≡ true) ⊎ ((l.released ≡ false) × (l.owner ≡ some i))

held_by_self : (d : Dimension) (i : ℕ) (l : Lease) → IsOwnedBy l i → held_by d i l ≡ held d l
held_by_self d i l (inl r) = rw r
held_by_self d i l (inr (r, o)) = rw (held_by-owner d i l r o, held-live d l r)

held_by-none : (d : Dimension) (i k : ℕ) (l : Lease) → IsOwnedBy l i → k ≢ i → held_by d k l ≡ 0
held_by-none d i k l (inl r) n = rw r
held_by-none d i k l (inr (r, o)) n = held_by-other d i k l o n

-- A lease of the Session at `i` is replaced by `l'`, which stays that Session's or is released.
module _ (v v' : Usage) (ss : List Session) (ls : List Lease) (i j : ℕ) (s s' : Session)
    (l l' : Lease) (p : IsLevel v ss ls) (es : get_elem? ss i ≡ some s)
    (el : get_elem? ls j ≡ some l) (r : l.released ≡ false) (o : l.owner ≡ some i)
    (o' : IsOwnedBy l' i) where
  replaced_session :
      (d : Dimension) (k : ℕ) (t : Session)
      → level d s'.usage + amount d l.claim ≡ level d s.usage + held d l'
      → get_elem? (set ss i s') k ≡ some t
      → level d t.usage ≡ total (held_by d k) (set ls j l')
  replaced_session d k t h e = elim (get_elem?-set_cases ss i k s' t e) [
    | inl (ek, et) ↦
        rw (ek, ← et)
          (omega (
            arith,
            h,
            p.session_level d i s es,
            total-set (held_by d i) ls j l l' el,
            held_by-owner d i l r o,
            held_by_self d i l' o',
          ))
    | inr (n, et) ↦ omega (
      arith,
      p.session_level d k t et,
      total-set (held_by d k) ls j l l' el,
      held_by-other d i k l o n,
      held_by-none d i k l' o' n,
    )
  ]

  replaced_owner :
      (k : ℕ) (m : Lease)
      → get_elem? (set ls j l') k ≡ some m
      → m.released ≡ false
      → (x : ℕ) × (m.owner ≡ some x) × (x < length (set ss i s'))
  replaced_owner k m e live = elim (get_elem?-set_cases ls j k l' m e) [
    | inl (ek, em) ↦ (
      i,
      elim o' [ inl rl ↦ cc (rl, em, live) | inr (rl, ol) ↦ cc (ol, em) ],
      rw length-set (get_elem?-lt ss i s es),
    )
    | inr (n, em) ↦ let (x, ox, lx) = p.owners k m em live in (x, ox, rw length-set lx)
  ]

  pub replace-IsLevel :
      ((d : Dimension) → level d v' + amount d l.claim ≡ level d v + held d l')
      → ((d : Dimension) → level d s'.usage + amount d l.claim ≡ level d s.usage + held d l')
      → IsLevel v' (set ss i s') (set ls j l')
  replace-IsLevel hv hs = record {
    peer_level =
        λ d. omega (arith, p.peer_level d, total-set (held d) ls j l l' el, hv d, held-live d l r);
    session_level = λ d k t e. replaced_session d k t (hs d) e;
    owners = replaced_owner;
  }

-- A lease `l` of the Session at `i` is added.
module _ (v v' : Usage) (ss : List Session) (ls : List Lease) (i : ℕ) (s s' : Session) (l : Lease)
    (p : IsLevel v ss ls) (es : get_elem? ss i ≡ some s) (r : l.released ≡ false)
    (o : l.owner ≡ some i) where
  added_session :
      (d : Dimension) (k : ℕ) (t : Session)
      → level d s'.usage ≡ level d s.usage + amount d l.claim
      → get_elem? (set ss i s') k ≡ some t
      → level d t.usage ≡ total (held_by d k) (ls ++ (l ∷ []))
  added_session d k t h e = elim (get_elem?-set_cases ss i k s' t e) [
    | inl (ek, et) ↦
        rw (ek, ← et)
          (omega (
            arith,
            h,
            p.session_level d i s es,
            total-append (held_by d i) ls (l ∷ []),
            held_by-owner d i l r o,
          ))
    | inr (n, et) ↦ omega (
      arith,
      p.session_level d k t et,
      total-append (held_by d k) ls (l ∷ []),
      held_by-other d i k l o n,
    )
  ]

  added_owner :
      (k : ℕ) (m : Lease)
      → get_elem? (ls ++ (l ∷ [])) k ≡ some m
      → m.released ≡ false
      → (x : ℕ) × (m.owner ≡ some x) × (x < length (set ss i s'))
  added_owner k m e live = elim (get_elem?-append_cases ls k l m e) [
    | inl (ek, em) ↦ (i, cc (o, em), rw length-set (get_elem?-lt ss i s es))
    | inr em ↦ let (x, ox, lx) = p.owners k m em live in (x, ox, rw length-set lx)
  ]

  pub add-IsLevel :
      ((d : Dimension) → level d v' ≡ level d v + amount d l.claim)
      → ((d : Dimension) → level d s'.usage ≡ level d s.usage + amount d l.claim)
      → IsLevel v' (set ss i s') (ls ++ (l ∷ []))
  add-IsLevel hv hs = record {
    peer_level = λ d.
        omega (arith, p.peer_level d, total-append (held d) ls (l ∷ []), hv d, held-live d l r);
    session_level = λ d k t e. added_session d k t (hs d) e;
    owners = added_owner;
  }

module _ (v : Usage) (ss : List Session) (ls : List Lease) (p : IsLevel v ss ls) where
  -- Nothing is held for a place beyond the Sessions.
  held_beyond : (d : Dimension) → total (held_by d (length ss)) ls ≡ 0
  held_beyond d = total-eq-zero (held_by d (length ss)) ls (λ j l e. elim (Bool-cases l.released) [
    | inl r ↦ rw r
    | inr live ↦
        let (x, ox, lx) = p.owners j l e live in held_by-other d x (length ss) l ox (omega arith)
  ])

  -- A new Session holds nothing.
  pub open-IsLevel :
      (s : Session) → ((d : Dimension) → level d s.usage ≡ 0) → IsLevel v (ss ++ (s ∷ [])) ls
  open-IsLevel s z = record {
    peer_level = p.peer_level;
    session_level = λ d k t e. elim (get_elem?-append_cases ss k s t e) [
      | inl (ek, et) ↦ rw (ek, ← et) (omega (arith, z d, held_beyond d))
      | inr et ↦ p.session_level d k t et
    ];
    owners = λ j l e live.
        let (x, ox, lx) = p.owners j l e live in
        (x, ox, omega (arith, lx, length-append ss (s ∷ [])));
  }

  -- A Session's flags do not matter.
  pub flag-IsLevel :
      (i : ℕ) (s s' : Session)
      → get_elem? ss i ≡ some s
      → s'.usage ≡ s.usage
      → IsLevel v (set ss i s') ls
  flag-IsLevel i s s' es u = record {
    peer_level = p.peer_level;
    session_level = λ d k t e. elim (get_elem?-set_cases ss i k s' t e) [
      | inl (ek, et) ↦ rw (ek, ← et, u) (p.session_level d i s es)
      | inr (n, et) ↦ p.session_level d k t et
    ];
    owners = λ j l e live. let (x, ox, lx) = p.owners j l e live in (x, ox, rw length-set lx);
  }
