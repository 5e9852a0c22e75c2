-- ===== src/ReassemblyV2/Pending.antt =====
-- internal/reassemblyv2/reassembly.go: what the map `pending` holds while its links change.
use mpudp.Prelude.{
  ℕ, ◌≡◌, ◌≢◌, refl, sym, ap, ◌∙◌, subst, List, [], ◌∷◌, false, ◌==◌, Bool-cases, if◌then◌else◌,
  arith, ◌⊎◌, inl, inr, Option, none, some,
}
use mpudp.ReassemblyV2.{Interval, Assembly}
use mpudp.ReassemblyV2.Receiver.{
  State, find, delete, change, with_next, with_previous, add_pending, remove_pending,
}
use mpudp.ReassemblyV2.Assembling.{IsPart}

-- Each pending assembly is one of its ID's message.
abbrev pub Holds : (ℕ → List ℕ) → List (ℕ × Assembly) → Type 0
Holds m [] = Unit
Holds m ((k, a) ∷ rest) = IsPart (m k) a × Holds m rest

-- The bytes and the ranges under an ID.
abbrev pub View : Type 0
View = List ℕ × List Interval

abbrev pub view : Assembly → View
view a = (a.contents, a.ranges)

abbrev pub look : List (ℕ × Assembly) → ℕ → Option View
look [] id = none
look ((k, a) ∷ rest) id = if k == id then some (view a) else look rest id

pub find-look :
    (p : List (ℕ × Assembly)) (id : ℕ) (v : View)
    → look p id ≡ some v
    → (a : Assembly) × (find p id ≡ some a) × (view a ≡ v)
find-look [] id v e = cc
find-look ((k, a) ∷ rest) id v e = elim (Bool-cases (k == id)) [
  | inl h ↦ (a, rw h, ground (arith, h))
  | inr h ↦ let (b, f, w) = find-look rest id v (ground (arith, h)) in (b, rw h f, w)
]

pub look-find :
    (p : List (ℕ × Assembly)) (id : ℕ) (a : Assembly)
    → find p id ≡ some a
    → look p id ≡ some (view a)
look-find [] id a e = cc
look-find ((k, b) ∷ rest) id a e = elim (Bool-cases (k == id)) [
  | inl h ↦ rw h (ground (arith, h))
  | inr h ↦ rw h (look-find rest id a (ground (arith, h)))
]

pub Holds-find :
    (m : ℕ → List ℕ) (p : List (ℕ × Assembly)) (id : ℕ) (a : Assembly)
    → Holds m p
    → find p id ≡ some a
    → IsPart (m id) a
Holds-find m [] id a h e = cc
Holds-find m ((k, b) ∷ rest) id a h e = elim (Bool-cases (k == id)) [
  | inl t ↦
      let same : k ≡ id = ground arith in
      let here : b ≡ a = ground (arith, t) in
      subst (λ (n : ℕ). IsPart (m n) a) same (subst (IsPart (m k)) here h.0)
  | inr t ↦ Holds-find m rest id a h.1 (ground (arith, t))
]

pub Holds-delete :
    (m : ℕ → List ℕ) (p : List (ℕ × Assembly)) (id : ℕ) → Holds m p → Holds m (delete p id)
Holds-delete m [] id h = tt
Holds-delete m ((k, b) ∷ rest) id h = elim (Bool-cases (k == id)) [
  | inl t ↦ rw t (Holds-delete m rest id h.1)
  | inr t ↦ rw t (h.0, Holds-delete m rest id h.1)
]

pub Holds-change :
    (m : ℕ → List ℕ) (p : List (ℕ × Assembly)) (id : ℕ) (f : Assembly → Assembly)
    → ((a : Assembly) → IsPart (m id) a → IsPart (m id) (f a))
    → Holds m p
    → Holds m (change p id f)
Holds-change m [] id f keep h = tt
Holds-change m ((k, b) ∷ rest) id f keep h = elim (Bool-cases (k == id)) [
  | inl t ↦
      let same : k ≡ id = ground arith in
      rw t (
        subst (λ (n : ℕ). IsPart (m n) (f b)) (sym same)
            (keep b (subst (λ (n : ℕ). IsPart (m n) b) same h.0)),
        Holds-change m rest id f keep h.1,
      )
  | inr t ↦ rw t (h.0, Holds-change m rest id f keep h.1)
]

pub look-delete : (p : List (ℕ × Assembly)) (id k : ℕ) → k ≢ id → look (delete p id) k ≡ look p k
look-delete [] id k ne = refl
look-delete ((j, b) ∷ rest) id k ne =
    let ih = look-delete rest id k ne in
    elim (Bool-cases (j == id)) [
      | inl t ↦ let other : (j == k) ≡ false = ground arith in rw (t, other) ih
      | inr t ↦ rw t (ap (λ (o : Option View). if j == k then some (view b) else o) ih)
    ]

pub look-change :
    (p : List (ℕ × Assembly)) (id k : ℕ) (f : Assembly → Assembly)
    → (k ≢ id) ⊎ ((a : Assembly) → view (f a) ≡ view a)
    → look (change p id f) k ≡ look p k
look-change [] id k f h = refl
look-change ((j, b) ∷ rest) id k f h =
    let ih = look-change rest id k f h in
    elim (Bool-cases (j == id)) [
      | inr t ↦ rw t (ap (λ (o : Option View). if j == k then some (view b) else o) ih)
      | inl t ↦
          let here : (if j == k then some (view (f b)) else look (change rest id f) k)
              ≡ (if j == k then some (view b) else look rest k) =
            elim h [
              | inl ne ↦ let other : (j == k) ≡ false = ground arith in rw other ih
              | inr same ↦
                  ap (λ (o : Option View). if j == k then some (view (f b)) else o) ih
                  ∙ ap (λ (v : View). if j == k then some v else look rest k) (same b)
            ] in
          rw t here
    ]

-- Links are no part of what an assembly holds.
pub relinked-IsPart :
    (m : List ℕ) (a : Assembly) (previous next : ℕ)
    → IsPart m a
    → IsPart m (record a { previous = previous; next = next })
relinked-IsPart m a previous next x = record {
  whole = x.whole;
  buffer = x.buffer;
  spread = x.spread;
  counted = x.counted;
  agree = x.agree;
}

module _ (r : State) (id : ℕ) (a : Assembly) where
  pub add_pending-Holds :
      (m : ℕ → List ℕ) → IsPart (m id) a → Holds m r.pending → Holds m (add_pending r id a).pending
  unfolding add_pending
  add_pending-Holds m x h = elim (Bool-cases (r.tail == 0)) [
    | inl t ↦ rw t (relinked-IsPart (m id) a r.tail a.next x, h)
    | inr t ↦ rw t (
      relinked-IsPart (m id) a r.tail a.next x,
      Holds-change m r.pending r.tail (with_next id)
          (λ b y. relinked-IsPart (m r.tail) b b.previous id y) h,
    )
  ]

  pub remove_pending-Holds :
      (m : ℕ → List ℕ) → Holds m r.pending → Holds m (remove_pending r id a).pending
  unfolding remove_pending
  remove_pending-Holds m h =
      let before : Holds m
          (if a.previous == 0 then r.pending else change r.pending a.previous (with_next a.next)) =
        elim (Bool-cases (a.previous == 0)) [
          | inl t ↦ rw t h
          | inr t ↦ rw t (
              Holds-change m r.pending a.previous (with_next a.next)
                (λ b y. relinked-IsPart (m a.previous) b b.previous a.next y) h)
        ] in
      let p =
        (if a.previous == 0 then r.pending else change r.pending a.previous (with_next a.next)) in
      Holds-delete m (if a.next == 0 then p else change p a.next (with_previous a.previous)) id
        (elim (Bool-cases (a.next == 0)) [
          | inl t ↦ rw t before
          | inr t ↦ rw t (
              Holds-change m p a.next (with_previous a.previous)
                (λ b y. relinked-IsPart (m a.next) b a.previous b.next y) before)
        ])

  pub add_pending-look : (k : ℕ) → k ≢ id → look (add_pending r id a).pending k ≡ look r.pending k
  unfolding add_pending
  add_pending-look k ne =
      let other : (id == k) ≡ false = ground arith in
      elim (Bool-cases (r.tail == 0)) [
        | inl t ↦ rw (t, other)
        | inr t ↦ rw (t, other) (look-change r.pending r.tail k (with_next id) (inr (λ b. refl)))
      ]

  pub remove_pending-look :
      (k : ℕ) → k ≢ id → look (remove_pending r id a).pending k ≡ look r.pending k
  unfolding remove_pending
  remove_pending-look k ne =
      let p =
        (if a.previous == 0 then r.pending else change r.pending a.previous (with_next a.next)) in
      let before : look p k ≡ look r.pending k = elim (Bool-cases (a.previous == 0)) [
        | inl t ↦ rw t
        | inr t ↦ rw t (look-change r.pending a.previous k (with_next a.next) (inr (λ b. refl)))
      ] in
      let after : look (if a.next == 0 then p else change p a.next (with_previous a.previous)) k
          ≡ look p k =
        elim (Bool-cases (a.next == 0)) [
          | inl t ↦ rw t
          | inr t ↦ rw t (look-change p a.next k (with_previous a.previous) (inr (λ b. refl)))
        ] in
      look-delete (if a.next == 0 then p else change p a.next (with_previous a.previous)) id k ne
      ∙ after
      ∙ before
