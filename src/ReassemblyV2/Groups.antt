-- ===== src/ReassemblyV2/Groups.antt =====
-- internal/reassemblyv2/reassembly.go: `AddGroup`'s plan and reservations, and what the whole call hands over.
use mpudp.Prelude.{
  ℕ, ◌≤◌, ◌<◌, ◌≡◌, refl, subst, List, [], ◌∷◌, ◌++◌, true, arith, length, All, ◌⊎◌, inl, inr,
  Option-cases, Result, Result-cases, ok, err, >>=-eq-ok, reject_if,
}
use mpudp.Credit
use mpudp.FecV2.{Fragment}
use mpudp.ReassemblyV2.{Error, from_credit, Limits, Assembly}
use mpudp.ReassemblyV2.Receiver.{
  Scope, State, Datagram, Planned, ignored, repeated, expires, opens, adds, opens_with, find,
  check_time, validate_each, validate, plan_one, plan_all, charge_of, with_first, reserve_all,
  plan_group, add_planned, add_group,
}
use mpudp.ReassemblyV2.Assembling.{IsFragmentOf}
use mpudp.ReassemblyV2.Pending.{Holds, look-find}
use mpudp.ReassemblyV2.Delivering.{IsPlanned, IsReady, AreWhole, commit_all-delivers}

plan_one-IsPlanned :
    (r : State) (now : ℕ) (f : Fragment) (count : ℕ) (planned : Planned) (after : ℕ)
    → plan_one r now f count ≡ ok (planned, after)
    → IsPlanned r.pending f planned
unfolding plan_one
plan_one-IsPlanned r now f count ignored after h = tt
plan_one-IsPlanned r now f count repeated after h = tt
plan_one-IsPlanned r now f count expires after h = tt
plan_one-IsPlanned r now f count opens after h = tt
plan_one-IsPlanned r now f count (opens_with lease) after h = tt
plan_one-IsPlanned r now f count (adds place) after h =
    elim (Option-cases (find r.pending f.datagram_id)) [
      | inl e ↦ absurd (ground (arith, e))
      | inr (a, e) ↦ (a, look-find r.pending f.datagram_id a e, ground (arith, e))
    ]

validate_each-parts :
    (l : Limits) (low : ℕ) (f : Fragment) (fs : List Fragment)
    → validate_each l low (f ∷ fs) ≡ ok tt
    → (low < f.datagram_id)
      × ((1 ≤ length f.payload) ⊎ (f.total_bytes ≡ 0))
      × (validate_each l f.datagram_id fs ≡ ok tt)
unfolding validate_each
validate_each-parts l low f fs h = (ground arith, ground arith, ground arith)

plan_all-IsReady :
    (m : ℕ → List ℕ) (r : State) (now low count : ℕ) (fs : List Fragment)
    (plan : List (Fragment × Planned)) (end : ℕ)
    → validate_each r.limits low fs ≡ ok tt
    → All (λ (f : Fragment). IsFragmentOf (m f.datagram_id) f) fs
    → plan_all r now fs count ≡ ok (plan, end)
    → IsReady m low r.pending plan
unfolding plan_all
plan_all-IsReady m r now low count [] plan end v x h =
    let e : [] ≡ plan = ground arith in subst (IsReady m low r.pending) e tt
plan_all-IsReady m r now low count (f ∷ fs) plan end v x h =
    let (lt, some_bytes, v') = validate_each-parts r.limits low f fs v in
    let ((planned, after), one, h1) = >>=-eq-ok (plan_one r now f count) _ h in
    let ((more, last), rest, h2) = >>=-eq-ok (plan_all r now fs after) _ h1 in
    let e : (f, planned) ∷ more ≡ plan = ground (arith, h2) in
    subst (IsReady m low r.pending) e (
      lt,
      record { part = x.0; some_bytes = some_bytes },
      plan_one-IsPlanned r now f count planned after one,
      plan_all-IsReady m r now f.datagram_id after fs more last v' x.1 rest,
    )

with_first-ok :
    (first : Fragment × Planned) (result : Result Error (List (Fragment × Planned)))
    (ready : List (Fragment × Planned))
    → with_first first result ≡ ok ready
    → (more : List (Fragment × Planned)) × (result ≡ ok more) × (ready ≡ first ∷ more)
with_first-ok first (err cause) ready h = cc
with_first-ok first (ok more) ready h = (more, refl, ground arith)

module _ {S : Type 0} (scope : Scope S) (m : ℕ → List ℕ) where
  reserve_all-IsReady :
      (s : S) (l : Limits) (taken : List ℕ) (low : ℕ) (p : List (ℕ × Assembly))
      (items ready : List (Fragment × Planned))
      → (reserve_all scope s l taken items).1 ≡ ok ready
      → IsReady m low p items
      → IsReady m low p ready
  unfolding reserve_all
  reserve_all-IsReady s l taken low p [] ready h x =
      let e : [] ≡ ready = ground arith in subst (IsReady m low p) e tt
  reserve_all-IsReady s l taken low p ((f, opens) ∷ rest) ready h (lt, part, y, more) =
      elim (Result-cases (scope.reserve s (charge_of l f))) [
        | inr (cause, e) ↦ absurd (ground (arith, e))
        | inl ((s', lease), e) ↦
            let (ready', h', same) =
              with_first-ok (f, opens_with lease)
                (reserve_all scope s' l (taken ++ (lease ∷ [])) rest).1 ready
                (rw (e, reserve_all) at h) in
            rw same (
              lt,
              part,
              tt,
              reserve_all-IsReady s' l (taken ++ (lease ∷ [])) f.datagram_id p rest ready' h' more,
            )
      ]
  reserve_all-IsReady s l taken low p ((f, ignored) ∷ rest) ready h (lt, part, y, more) =
      let (ready', h', same) =
        with_first-ok (f, ignored) (reserve_all scope s l taken rest).1 ready h in
      rw same (lt, part, tt, reserve_all-IsReady s l taken f.datagram_id p rest ready' h' more)
  reserve_all-IsReady s l taken low p ((f, repeated) ∷ rest) ready h (lt, part, y, more) =
      let (ready', h', same) =
        with_first-ok (f, repeated) (reserve_all scope s l taken rest).1 ready h in
      rw same (lt, part, tt, reserve_all-IsReady s l taken f.datagram_id p rest ready' h' more)
  reserve_all-IsReady s l taken low p ((f, expires) ∷ rest) ready h (lt, part, y, more) =
      let (ready', h', same) =
        with_first-ok (f, expires) (reserve_all scope s l taken rest).1 ready h in
      rw same (lt, part, tt, reserve_all-IsReady s l taken f.datagram_id p rest ready' h' more)
  reserve_all-IsReady s l taken low p ((f, adds place) ∷ rest) ready h (lt, part, y, more) =
      let (ready', h', same) =
        with_first-ok (f, adds place) (reserve_all scope s l taken rest).1 ready h in
      rw same (lt, part, y, reserve_all-IsReady s l taken f.datagram_id p rest ready' h' more)
  reserve_all-IsReady s l taken low p ((f, opens_with lease) ∷ rest) ready h (lt, part, y, more) =
      let (ready', h', same) =
        with_first-ok (f, opens_with lease) (reserve_all scope s l taken rest).1 ready h in
      rw same (lt, part, tt, reserve_all-IsReady s l taken f.datagram_id p rest ready' h' more)

  plan_group-IsReady :
      (s : S) (r : State) (now : ℕ) (fs : List Fragment) (plan : List (Fragment × Planned))
      → All (λ (f : Fragment). IsFragmentOf (m f.datagram_id) f) fs
      → plan_group scope s r now fs ≡ ok plan
      → IsReady m 0 r.pending plan
  unfolding plan_group validate
  plan_group-IsReady s r now fs plan x h =
      let (_, _, h1) = >>=-eq-ok (check_time r now) _ h in
      let (_, _, h2) =
        >>=-eq-ok (reject_if (scope.is_closed s) (from_credit Credit.closed_scope)) _ h1 in
      let (_, valid, h3) = >>=-eq-ok (validate r.limits fs) _ h2 in
      let ((made, count), planned, h4) = >>=-eq-ok (plan_all r now fs (length r.pending)) _ h3 in
      let e : made ≡ plan = ground (arith, h4) in
      let v : validate_each r.limits 0 fs ≡ ok tt = ground (arith, valid) in
      subst (IsReady m 0 r.pending) e
        (plan_all-IsReady m r now 0 (length r.pending) fs made count v x planned)

  abbrev IsDelivered : S × State × Result Error (List Datagram) → Type 0
  IsDelivered (s, r, err cause) = Unit
  IsDelivered (s, r, ok completed) = AreWhole m completed × Holds m r.pending

  add_planned-IsDelivered :
      (s : S) (result : Result Error (List (Fragment × Planned))) (r : State) (now : ℕ)
      → Holds m r.pending
      → ((ready : List (Fragment × Planned)) → result ≡ ok ready → IsReady m 0 r.pending ready)
      → IsDelivered (add_planned scope (s, result) r now)
  unfolding add_planned
  add_planned-IsDelivered s (err cause) r now held x = tt
  add_planned-IsDelivered s (ok ready) r now held x =
      let (held', whole) =
        commit_all-delivers scope m now s (record r { last = now; have_time = true }) 0 ready held
          (x ready refl) in
      (whole, held')

  add_group-IsDelivered :
      (s : S) (r : State) (now : ℕ) (fs : List Fragment)
      → Holds m r.pending
      → All (λ (f : Fragment). IsFragmentOf (m f.datagram_id) f) fs
      → IsDelivered (add_group scope s r now fs)
  unfolding add_group
  add_group-IsDelivered s r now fs held x = elim (Result-cases (plan_group scope s r now fs)) [
    | inr (cause, e) ↦ rw (e, add_group) tt
    | inl (plan, e) ↦
        let reserved = reserve_all scope s r.limits [] plan in
        rw (e, add_group)
          (add_planned-IsDelivered reserved.0 reserved.1 r now held (λ ready h.
            reserve_all-IsReady s r.limits [] 0 r.pending plan ready h
              (plan_group-IsReady s r now fs plan x e)))
  ]

  -- Let every fragment be a piece of its Datagram's message, and every pending assembly one of such pieces. Where
  -- `AddGroup` succeeds, each Datagram that it returns has its message's very bytes, and the pending assemblies are
  -- still made of such pieces.
  pub add_group-delivers :
      (s s' : S) (r r' : State) (now : ℕ) (fs : List Fragment) (completed : List Datagram)
      → Holds m r.pending
      → All (λ (f : Fragment). IsFragmentOf (m f.datagram_id) f) fs
      → add_group scope s r now fs ≡ (s', r', ok completed)
      → AreWhole m completed × Holds m r'.pending
  add_group-delivers s s' r r' now fs completed held x h =
      subst IsDelivered h (add_group-IsDelivered s r now fs held x)
