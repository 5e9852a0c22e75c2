-- ===== src/ReassemblyV2/Delivering.antt =====
-- internal/reassemblyv2/reassembly.go: `AddGroup` hands over the messages that the fragments are of.
use mpudp.Prelude.{
  ℕ, ◌≤◌, ◌<◌, ◌≡◌, ◌≢◌, refl, sym, ap, ◌∙◌, List, [], ◌∷◌, false, ◌==◌, Bool-cases, arith, length,
  All, ◌⊎◌, inl, inr, Option, none, some, Option-cases, ok,
}
use mpudp.FecV2.{Fragment}
use mpudp.RecvWindow
use mpudp.ReassemblyV2.{Assembly, search, inspect, write, fresh, copy}
use mpudp.ReassemblyV2.Ranges.{IsSpread-le, length-copy}
use mpudp.ReassemblyV2.Receiver.{
  Scope, State, Datagram, Planned, ignored, repeated, expires, opens, adds, opens_with, find,
  add_pending, expire, settle, commit_one, with_datagram, commit_all,
}
use mpudp.ReassemblyV2.Assembling.{IsPart, IsFragmentOf, write-IsPart, IsPart-whole, fresh-IsPart}
use mpudp.ReassemblyV2.Pending.{
  Holds, View, view, look, find-look, Holds-find, Holds-change, look-change, add_pending-Holds,
  remove_pending-Holds, add_pending-look, remove_pending-look, relinked-IsPart,
}

abbrev pub AreWhole : (ℕ → List ℕ) → List Datagram → Type 0
AreWhole m ds = All (λ (d : Datagram). d.contents ≡ m d.id) ds

abbrev pub IsWhole : (ℕ → List ℕ) → Option Datagram → Type 0
IsWhole m none = Unit
IsWhole m (some d) = d.contents ≡ m d.id

-- `inspect` reads the bytes and the ranges only.
inspect-view : (a b : Assembly) (f : Fragment) → view a ≡ view b → inspect a f ≡ inspect b f
unfolding inspect
inspect-view a b f e =
    let c : a.contents ≡ b.contents = ap (λ (v : View). v.0) e in
    let r : a.ranges ≡ b.ranges = ap (λ (v : View). v.1) e in rw (c, r)

-- What a planned step rests on.
abbrev pub IsPlanned : List (ℕ × Assembly) → Fragment → Planned → Type 0
IsPlanned p f (adds place) =
    (a : Assembly) × (look p f.datagram_id ≡ some (view a)) × (inspect a f ≡ ok (place, false))
IsPlanned p f _ = Unit

-- The fragment is of its ID's message, and is empty only for the empty one.
pub record IsOf (m : ℕ → List ℕ) (f : Fragment) : Type 0 where
  pub part : IsFragmentOf (m f.datagram_id) f
  pub some_bytes : (1 ≤ length f.payload) ⊎ (f.total_bytes ≡ 0)

abbrev pub IsReady : (ℕ → List ℕ) → ℕ → List (ℕ × Assembly) → List (Fragment × Planned) → Type 0
IsReady m low p [] = Unit
IsReady m low p ((f, planned) ∷ rest) =
    (low < f.datagram_id) × IsOf m f × IsPlanned p f planned × IsReady m f.datagram_id p rest

IsPlanned-look :
    (p p' : List (ℕ × Assembly)) (f : Fragment) (planned : Planned)
    → look p' f.datagram_id ≡ look p f.datagram_id
    → IsPlanned p f planned
    → IsPlanned p' f planned
IsPlanned-look p p' f (adds place) e (a, there, seen) = (a, e ∙ there, seen)
IsPlanned-look p p' f ignored e x = tt
IsPlanned-look p p' f repeated e x = tt
IsPlanned-look p p' f expires e x = tt
IsPlanned-look p p' f opens e x = tt
IsPlanned-look p p' f (opens_with lease) e x = tt

IsReady-look :
    (m : ℕ → List ℕ) (low : ℕ) (p p' : List (ℕ × Assembly)) (items : List (Fragment × Planned))
    → ((k : ℕ) → low < k → look p' k ≡ look p k)
    → IsReady m low p items
    → IsReady m low p' items
IsReady-look m low p p' [] h x = tt
IsReady-look m low p p' ((f, planned) ∷ rest) h (lt, part, x, more) = (
  lt,
  part,
  IsPlanned-look p p' f planned (h f.datagram_id lt) x,
  IsReady-look m f.datagram_id p p' rest (λ k less. h k (omega arith)) more,
)

inspect-fresh :
    (f : Fragment) (total now lease previous : ℕ)
    → inspect (record (fresh total now lease) { previous = previous }) f ≡ ok (0, false)
unfolding inspect search fresh
inspect-fresh f total now lease previous = refl

no_bytes : (xs : List ℕ) → length xs ≡ 0 → xs ≡ []
no_bytes [] h = refl
no_bytes (x ∷ xs) h = absurd (omega arith)

-- A written assembly is still one of the message, or is the empty message.
written :
    (m : List ℕ) (a : Assembly) (f : Fragment) (place : ℕ)
    → IsPart m a
    → IsFragmentOf m f
    → (1 ≤ length f.payload) ⊎ (f.total_bytes ≡ 0)
    → inspect a f ≡ ok (place, false)
    → IsPart m (write a f place)
      ⊎ (((write a f place).contents ≡ m)
          × ((write a f place).received ≡ (write a f place).total_bytes))
written m a f place x y (inl some_bytes) h = inl (write-IsPart m a f place x y some_bytes h)
written m a f place x y (inr z) h =
    let bound = IsSpread-le 0 (length m) a.ranges x.spread in
    let none_left : length m ≡ 0 = sym y.whole ∙ z in
    inr (
      unfold write in
      (
        no_bytes (copy a.contents f.offset f.payload)
              (length-copy a.contents f.offset f.payload ∙ x.buffer ∙ none_left)
            ∙ sym (no_bytes m none_left),
        omega (arith, x.counted, x.whole, y.within, bound),
      ))

module _ {S : Type 0} (scope : Scope S) (m : ℕ → List ℕ) where
  -- The three facts that a step of the committing loop keeps.
  record Delivers (r : State) (id : ℕ) (result : S × State × Option Datagram) : Type 0 where
    pub holds : Holds m result.1.pending
    pub same : (k : ℕ) → k ≢ id → look result.1.pending k ≡ look r.pending k
    pub whole : IsWhole m result.2

  settle-Delivers :
      (s : S) (r : State) (id : ℕ) (a : Assembly)
      → Holds m r.pending
      → IsPart (m id) a ⊎ ((a.contents ≡ m id) × (a.received ≡ a.total_bytes))
      → Delivers r id (settle scope (s, r) id a)
  unfolding settle
  settle-Delivers s r id a h x = elim (Bool-cases (a.received == a.total_bytes)) [
    | inl e ↦
        let r' = record r { window = (RecvWindow.finish r.window id RecvWindow.completed).1 } in
        rw e (record {
          holds = remove_pending-Holds r' id a m h;
          same = λ k ne. remove_pending-look r' id a k ne;
          whole = elim x [ inl y ↦ IsPart-whole (m id) a y (ground arith) | inr (y, _) ↦ y ];
        })
    | inr e ↦
        let part : IsPart (m id) a = elim x [ inl y ↦ y | inr (_, y) ↦ absurd (ground arith) ] in
        rw e (record {
          holds = Holds-change m r.pending id (λ _. a) (λ b y. part) h;
          same = λ k ne. look-change r.pending id k (λ _. a) (inl ne);
          whole = tt;
        })
  ]

  unchanged-Delivers : (s : S) (r : State) (id : ℕ) → Holds m r.pending → Delivers r id (s, r, none)
  unchanged-Delivers s r id h = record { holds = h; same = λ k ne. refl; whole = tt }

  commit_one-Delivers :
      (now : ℕ) (s : S) (r : State) (f : Fragment) (planned : Planned)
      → Holds m r.pending
      → IsOf m f
      → IsPlanned r.pending f planned
      → Delivers r f.datagram_id (commit_one scope now (s, r) f planned)
  unfolding commit_one
  commit_one-Delivers now s r f ignored h x y = unchanged-Delivers s r f.datagram_id h
  commit_one-Delivers now s r f repeated h x y = unchanged-Delivers s r f.datagram_id h
  commit_one-Delivers now s r f opens h x y = unchanged-Delivers s r f.datagram_id h
  commit_one-Delivers now s r f expires h x y = elim (Option-cases (find r.pending f.datagram_id)) [
    | inl e ↦ rw (e, commit_one) (unchanged-Delivers s r f.datagram_id h)
    | inr (a, e) ↦
        let r' = record r {
          window = (RecvWindow.finish r.window f.datagram_id RecvWindow.expired).1;
        } in
        rw (e, commit_one)
          (unfold expire in
            (record {
              holds = remove_pending-Holds r' f.datagram_id a m h;
              same = λ k ne. remove_pending-look r' f.datagram_id a k ne;
              whole = tt;
            }))
  ]
  commit_one-Delivers now s r f (adds place) h x (b, there, seen) =
      let (a, e, v) = find-look r.pending f.datagram_id (view b) there in
      let part = Holds-find m r.pending f.datagram_id a h e in
      rw (e, commit_one)
        (settle-Delivers s r f.datagram_id (write a f place) h (
          written (m f.datagram_id) a f place part x.part x.some_bytes
            (inspect-view a b f v ∙ seen)))
  commit_one-Delivers now s r f (opens_with lease) h x y =
      let id = f.datagram_id in
      let a = record (fresh f.total_bytes now lease) { previous = r.tail } in
      let opened = record r { window = (RecvWindow.admit r.window id).1 } in
      let part : IsPart (m id) a =
        relinked-IsPart (m id) (fresh f.total_bytes now lease) r.tail
          (fresh f.total_bytes now lease).next
          (fresh-IsPart (m id) f.total_bytes now lease x.part.whole) in
      let step =
        settle-Delivers s (add_pending opened id a) id (write a f 0)
          (add_pending-Holds opened id a m part h)
          (written (m id) a f 0 part x.part x.some_bytes
            (inspect-fresh f f.total_bytes now lease r.tail)) in
      record {
        holds = step.holds;
        same = λ k ne. step.same k ne ∙ add_pending-look opened id a k ne;
        whole = step.whole;
      }

  with_whole :
      (d : Option Datagram) (ds : List Datagram)
      → IsWhole m d
      → AreWhole m ds
      → AreWhole m (with_datagram d ds)
  with_whole none ds x y = y
  with_whole (some d) ds x y = (x, y)

  pub commit_all-delivers :
      (now : ℕ) (s : S) (r : State) (low : ℕ) (items : List (Fragment × Planned))
      → Holds m r.pending
      → IsReady m low r.pending items
      → Holds m (commit_all scope now (s, r) items).1.pending
        × AreWhole m (commit_all scope now (s, r) items).2
  unfolding commit_all
  commit_all-delivers now s r low [] h x = (h, tt)
  commit_all-delivers now s r low ((f, planned) ∷ rest) h (lt, part, x, more) =
      let step = commit_one scope now (s, r) f planned in
      let d = commit_one-Delivers now s r f planned h part x in
      let (held, whole) = commit_all-delivers now step.0 step.1 f.datagram_id rest d.holds (
        IsReady-look m f.datagram_id r.pending step.1.pending rest
          (λ k less. d.same k (omega arith)) more) in
      (held, with_whole step.2 (commit_all scope now (step.0, step.1) rest).2 d.whole whole)
