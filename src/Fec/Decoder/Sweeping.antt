-- ===== src/Fec/Decoder/Sweeping.antt =====
-- internal/fec/decoder.go: what each round of `sweepLocked` keeps, the sweep keeps.
use mpudp.Prelude.{
  ℕ, zero, suc, ◌≤◌, ◌<◌, ◌≡◌, ◌⊎◌, inl, inr, some, Option-cases, refl, sym, subst, List, [], ◌∷◌,
  true, ltb, Bool-cases, arith,
}
use mpudp.Fec.Expiry.{ExpiryEntry, least, same_entry}
use mpudp.Fec.Decoder.{PendingBlock, Decoder, find, delete, close}
use mpudp.Fec.Decoder.Expiration.{
  expire_pending, sweep_pending, expire_completed, sweep_completed, sweep_locked, sweep,
}

pub List-cases {ℓ} :
    {A : Type ℓ} (xs : List A) → (xs ≡ []) ⊎ ((x : A) × (rest : List A) × (xs ≡ x ∷ rest))
List-cases [] = inl refl
List-cases (x ∷ xs) = inr (x, xs, refl)

-- A round ends the loop, since the heap is empty or its first entry is not due; or it takes out an entry that is.
pub sweep_pending-suc :
    (fuel now : ℕ) (d : Decoder)
    → (d.pending_expiry ≡ []) × ((sweep_pending (suc fuel) now d).0 ≡ d)
      ⊎ ((e : ExpiryEntry) × (es : List ExpiryEntry) × (d.pending_expiry ≡ e ∷ es)
          × (now < (least e es).deadline)
          × ((sweep_pending (suc fuel) now d).0 ≡ d))
      ⊎ ((e : ExpiryEntry) × (es : List ExpiryEntry) × (d.pending_expiry ≡ e ∷ es)
          × ((least e es).deadline ≤ now)
          × ((sweep_pending (suc fuel) now d).0
              ≡ (sweep_pending fuel now (expire_pending d (least e es)).0).0))
sweep_pending-suc fuel now d = elim (List-cases d.pending_expiry) [
  | inl none_left ↦ inl (none_left, unfold sweep_pending in rw none_left refl)
  | inr (e, es, some_left) ↦ elim (Bool-cases (ltb now (least e es).deadline)) [
    | inl later ↦
        inr (
          inl
            (e, es, some_left, ground arith, unfold sweep_pending in rw some_left (rw later refl)))
    | inr due ↦
        inr
          (inr (e, es, some_left, ground arith, unfold sweep_pending in rw some_left (rw due refl)))
  ]
]

pub sweep_pending-keeps {ℓ} :
    (P : Decoder → Type ℓ) (now : ℕ)
    → ((d : Decoder) (top : ExpiryEntry) → top.deadline ≤ now → P d → P (expire_pending d top).0)
    → (fuel : ℕ) (d : Decoder) → P d
    → P (sweep_pending fuel now d).0
sweep_pending-keeps P now round zero d h = unfold sweep_pending in h
sweep_pending-keeps P now round (suc fuel) d h = elim (sweep_pending-suc fuel now d) [
  | inl (_, same) ↦ subst P (sym same) h
  | inr (inl (_, _, _, _, same)) ↦ subst P (sym same) h
  | inr (inr (e, es, _, due, more)) ↦
      let top = least e es in
      subst P (sym more)
        (sweep_pending-keeps P now round fuel (expire_pending d top).0 (round d top due h))
]

sweep_completed-suc :
    (fuel now : ℕ) (d : Decoder)
    → ((sweep_completed (suc fuel) now d).0 ≡ d)
      ⊎ ((top : ExpiryEntry) × ((sweep_completed (suc fuel) now d).0
            ≡ (sweep_completed fuel now (expire_completed d top).0).0))
sweep_completed-suc fuel now d = elim (List-cases d.completed_expiry) [
  | inl none_left ↦ inl (unfold sweep_completed in rw none_left refl)
  | inr (e, es, some_left) ↦
      let top = least e es in
      elim (Bool-cases (ltb now top.deadline)) [
        | inl later ↦ inl (unfold sweep_completed in rw some_left (rw later refl))
        | inr due ↦ inr (top, unfold sweep_completed in rw some_left (rw due refl))
      ]
]

pub sweep_completed-keeps {ℓ} :
    (P : Decoder → Type ℓ) (now : ℕ)
    → ((d : Decoder) (top : ExpiryEntry) → P d → P (expire_completed d top).0)
    → (fuel : ℕ) (d : Decoder) → P d
    → P (sweep_completed fuel now d).0
sweep_completed-keeps P now round zero d h = unfold sweep_completed in h
sweep_completed-keeps P now round (suc fuel) d h = elim (sweep_completed-suc fuel now d) [
  | inl same ↦ subst P (sym same) h
  | inr (top, more) ↦
      subst P (sym more)
        (sweep_completed-keeps P now round fuel (expire_completed d top).0 (round d top h))
]

pub sweep_locked-keeps {ℓ} :
    (P : Decoder → Type ℓ) (now : ℕ) (d : Decoder)
    → ((d : Decoder) (top : ExpiryEntry) → top.deadline ≤ now → P d → P (expire_pending d top).0)
    → ((d : Decoder) (top : ExpiryEntry) → P d → P (expire_completed d top).0)
    → P d
    → P (sweep_locked now d).0
unfolding sweep_locked
sweep_locked-keeps P now d pending_round completed_round h =
    sweep_completed-keeps P now completed_round _ _ (sweep_pending-keeps P now pending_round _ d h)

-- The fields that a round leaves alone.
pub record SameRules (d d' : Decoder) : Type 0 where
  pub params_eq : d'.params ≡ d.params
  pub limits_eq : d'.limits ≡ d.limits
  pub total_eq : d'.total ≡ d.total
  pub closed_eq : d'.closed ≡ d.closed
  pub replay_eq : d'.replay ≡ d.replay

-- A round leaves the blocks alone, or takes out the one that the entry is of.
pub expire_pending-cases :
    (d : Decoder) (entry : ExpiryEntry)
    → SameRules d (expire_pending d entry).0
      × (((expire_pending d entry).0.pending ≡ d.pending)
          ⊎ ((block : PendingBlock) × (find d.pending entry.key ≡ some block)
              × (same_entry block.expiry entry ≡ true)
              × ((expire_pending d entry).0.pending ≡ delete d.pending entry.key)))
unfolding expire_pending
expire_pending-cases d entry = elim (Option-cases (find d.pending entry.key)) [
  | inl absent ↦ (
    record {
      params_eq = ground (arith, absent);
      limits_eq = ground (arith, absent);
      total_eq = ground (arith, absent);
      closed_eq = ground (arith, absent);
      replay_eq = ground (arith, absent);
    },
    inl (ground (arith, absent)),
  )
  | inr (block, found) ↦ elim (Bool-cases (same_entry block.expiry entry)) [
    | inr other ↦ (
      record {
        params_eq = ground (arith, found, other);
        limits_eq = ground (arith, found, other);
        total_eq = ground (arith, found, other);
        closed_eq = ground (arith, found, other);
        replay_eq = ground (arith, found, other);
      },
      inl (ground (arith, found, other)),
    )
    | inl same ↦ (
      record {
        params_eq = ground (arith, found, same);
        limits_eq = ground (arith, found, same);
        total_eq = ground (arith, found, same);
        closed_eq = ground (arith, found, same);
        replay_eq = ground (arith, found, same);
      },
      inr (block, found, same, ground (arith, found, same)),
    )
  ]
]

pub expire_completed-cases :
    (d : Decoder) (entry : ExpiryEntry)
    → SameRules d (expire_completed d entry).0 × ((expire_completed d entry).0.pending ≡ d.pending)
unfolding expire_completed
expire_completed-cases d entry = elim (Option-cases (find d.completed entry.key)) [
  | inl absent ↦ (
    record {
      params_eq = ground (arith, absent);
      limits_eq = ground (arith, absent);
      total_eq = ground (arith, absent);
      closed_eq = ground (arith, absent);
      replay_eq = ground (arith, absent);
    },
    ground (arith, absent),
  )
  | inr (current, found) ↦ (
    record {
      params_eq = ground (arith, found);
      limits_eq = ground (arith, found);
      total_eq = ground (arith, found);
      closed_eq = ground (arith, found);
      replay_eq = ground (arith, found);
    },
    ground (arith, found),
  )
]

pub sweep-cases :
    (now : ℕ) (d : Decoder) → ((sweep now d).0 ≡ d) ⊎ ((sweep now d).0 ≡ (sweep_locked now d).0)
unfolding sweep
sweep-cases now d = elim (Bool-cases d.closed) [
  | inl shut ↦ inl (ground (arith, shut))
  | inr live ↦ inr (ground (arith, live))
]

pub close-cases :
    (d : Decoder)
    → (close d ≡ d)
      ⊎ (((close d).params ≡ d.params) × ((close d).total ≡ d.total) × ((close d).pending ≡ []))
unfolding close
close-cases d = elim (Bool-cases d.closed) [
  | inl shut ↦ inl (ground (arith, shut))
  | inr live ↦ inr (ground (arith, live), ground (arith, live), ground (arith, live))
]
