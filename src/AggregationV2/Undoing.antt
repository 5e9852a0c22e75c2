-- ===== src/AggregationV2/Undoing.antt =====
-- internal/aggregationv2/queue.go: what an error of `Seal` leaves.
use mpudp.Prelude.{
  ℕ, ◌≡◌, ◌⊎◌, ◌∙◌, ◌∷◌, [], ◌++◌, some, arith, refl, subst, List, Bool, not, ◌&&◌, ◌==◌,
  Bool-cases, inl, inr, length, Option, Result, Result-cases, ok, err,
}
use mpudp.FecV2.Packing.{encode_prefix}
use mpudp.AggregationV2.{Error, Scope, State, Plan, plan_group, is_due}
use mpudp.AggregationV2.Queue.{Output, check, emit, seal_planned, seal}
use mpudp.AggregationV2.Ledger.{ledger_scope, bytes_only}
use mpudp.Credit.{Peer, new_lease}
use mpudp.Credit.Operations
use mpudp.Credit.Balance.{IsBalanced}
use mpudp.Credit.Releasing.{spent}
use mpudp.Credit.Ledger.{release-reserve}

module _ {S : Type 0} (scope : Scope S) where
  -- Nothing is reserved, or what was reserved is released again.
  abbrev IsGivenUp : S → State → S → Type 0
  IsGivenUp s q s' =
      (s' ≡ s)
      ⊎ ((paid : S) × (lease : ℕ) × (scope.reserve s q.output_bytes ≡ ok (paid, lease))
          × (s' ≡ scope.release paid lease))

  -- What an error leaves.
  abbrev IsUndone : S → State → S × State × Result Error (Option Output) → Type 0
  IsUndone s q (s', q', ok output) = Unit
  IsUndone s q (s', q', err cause) = IsGivenUp s q s' × (q' ≡ q)

  module _ (codec : List (List ℕ) → Option (List (List ℕ))) where
    emit-IsUndone :
        (s s' : S) (q : State) (now lease : ℕ) (pl : Plan)
        → scope.reserve s q.output_bytes ≡ ok (s', lease)
        → IsUndone s q (emit scope codec s s' q now lease pl)
    unfolding emit
    emit-IsUndone s s' q now lease pl r =
        let undone : IsGivenUp s q (scope.release s' lease) = inr (s', lease, r, refl) in
        elim (Result-cases (encode_prefix codec q.epoch.parameters pl.fragments)) [
          | inr (cause, e) ↦ rw (e, emit) (undone, refl)
          | inl ((g, c), e) ↦
              elim (Bool-cases (c.next == pl.cursor.next && c.bytes == pl.cursor.bytes)) [
                | inl same ↦ rw (e, emit) (rw same tt)
                | inr other ↦ rw (e, emit) (rw other (undone, refl))
              ]
        ]

    seal_planned-IsUndone :
        (s : S) (q : State) (now : ℕ) (pl : Plan)
        → IsUndone s q (seal_planned scope codec s q now pl)
    unfolding seal_planned
    seal_planned-IsUndone s q now pl =
        let here : IsGivenUp s q s × (q ≡ q) = (inl refl, refl) in
        elim (Bool-cases (length pl.fragments == 0)) [
          | inl z ↦ rw z here
          | inr z ↦ elim (Result-cases (scope.reserve s q.output_bytes)) [
            | inr (cause, e) ↦ rw z (rw (e, seal_planned) here)
            | inl ((s', lease), e) ↦
                rw z (rw (e, seal_planned) (emit-IsUndone s s' q now lease pl e))
          ]
        ]

    seal-IsUndone :
        (s : S) (q : State) (now : ℕ) (force : Bool) → IsUndone s q (seal scope codec s q now force)
    unfolding seal
    seal-IsUndone s q now force =
        let here : IsGivenUp s q s × (q ≡ q) = (inl refl, refl) in
        elim (Result-cases (check scope s q now)) [
          | inr (cause, e) ↦ rw (e, seal) here
          | inl (_, e) ↦ elim (Bool-cases (q.count == 0)) [
            | inl z ↦ rw (e, seal) (rw z tt)
            | inr z ↦ elim (Bool-cases (q.next_group_id == 0)) [
              | inl g ↦ rw (e, seal) (rw z (rw g here))
              | inr g ↦ elim (Bool-cases (not force && not (is_due q now (plan_group q)))) [
                | inl d ↦ rw (e, seal) (rw z (rw g (rw d tt)))
                | inr d ↦
                    rw (e, seal) (rw z (rw g (rw d (seal_planned-IsUndone s q now (plan_group q)))))
              ]
            ]
          ]
        ]

-- A queue on the Session at `i` of a balanced credit ledger: where `Seal` returns an error, the queue is the very queue
-- that it was. So is the ledger; or `Seal` has reserved its output, and the ledger is the very one that it was but for
-- that one lease at the end, which is spent.
pub seal-undone :
    (codec : List (List ℕ) → Option (List (List ℕ))) (i : ℕ) (p p' : Peer) (q q' : State) (now : ℕ)
    (force : Bool) (cause : Error)
    → IsBalanced p
    → seal (ledger_scope i) codec p q now force ≡ (p', q', err cause)
    → (q' ≡ q)
      × ((p' ≡ p)
          ⊎ (p' ≡ record p {
            leases = p.leases ++ (spent (new_lease i (bytes_only q.output_bytes)) ∷ []);
          }))
seal-undone codec i p p' q q' now force cause balanced h =
    let (given_up, same) =
      subst (IsUndone (ledger_scope i) p q) h
        (seal-IsUndone (ledger_scope i) codec p q now force) in
    (
      same,
      elim given_up [
        | inl untouched ↦ inl untouched
        | inr (paid, lease, reserved, released) ↦
            let (k, named, undone) =
              release-reserve p paid (some i) (bytes_only q.output_bytes) lease balanced reserved in
            let i_eq : k ≡ i = ground arith in
            inr (
              released
              ∙ subst
                  (λ (x : ℕ). Operations.release paid (some lease) ≡ record p {
                    leases = p.leases ++ (spent (new_lease x (bytes_only q.output_bytes)) ∷ []);
                  })
                  i_eq undone)
      ],
    )
