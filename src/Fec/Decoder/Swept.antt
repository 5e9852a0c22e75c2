-- ===== src/Fec/Decoder/Swept.antt =====
-- internal/fec/decoder.go: which blocks `Sweep` leaves.
use mpudp.Prelude.{
  ℕ, zero, suc, ◌≤◌, ◌<◌, ◌≡◌, ◌↔◌, refl, sym, ap, ◌∙◌, subst, List, [], ◌∷◌, length, Bool, true,
  false, Bool-cases, inl, inr, Option, some, ok, arith,
}
use mpudp.Fec.Expiry.{BlockKey, ExpiryEntry, same_key, least, without}
use mpudp.Fec.Decoder.{PendingBlock, Decoder, DecoderConfig, new_decoder, find}
use mpudp.Fec.Decoder.Expiration.{expire_pending, sweep_pending, sweep_locked, sweep}
use mpudp.Fec.Decoder.Maps.{same_key→eq, find-delete, find-delete_found}
use mpudp.Fec.Decoder.Cases.{new_decoder-parts}
use mpudp.Fec.Decoder.Sweeping.{
  sweep_pending-suc, sweep_pending-keeps, sweep_completed-keeps, sweep-cases,
}
use mpudp.Fec.Decoder.Runs.{Call, adds, sweeps, closes, after}
use mpudp.Fec.Decoder.Viewing.{View, view, expire_completed-view, expire_pending-view, close-view}
use mpudp.Fec.Decoder.Heap.{has, same_entry→eq, length-without, has-least, least-le}
use mpudp.Fec.Decoder.Bounded.{reached}
use mpudp.Fec.Decoder.Expiring.{
  HasEntries, HasEntriesView, expire_pending-HasEntries, sweep_locked-HasEntries,
  add_verified_shard-HasEntries,
}

expire_pending-heap :
    (d : Decoder) (top : ExpiryEntry)
    → (expire_pending d top).0.pending_expiry ≡ without top d.pending_expiry
expire_pending-heap d top = elim (expire_pending-view d top) [
  | inl (kept, _) ↦ ap (λ (v : View). v.4) kept
  | inr (_, _, _, gone) ↦ ap (λ (v : View). v.4) gone
]

-- With as many rounds as the heap has entries, nothing is left that is due.
sweep_pending-later :
    (fuel now : ℕ) (d : Decoder)
    → length d.pending_expiry ≤ fuel
    → HasEntries d
    → (k : BlockKey) (b : PendingBlock) → find (sweep_pending fuel now d).0.pending k ≡ some b
    → now < b.expiry.deadline
sweep_pending-later zero now d enough x k b found =
    let (_, held) = x k b (unfold sweep_pending in found) in
    absurd (nothing d.pending_expiry b.expiry held enough)
  where
    nothing : (heap : List ExpiryEntry) (e : ExpiryEntry) → has heap e ≡ true → length heap ≤ 0 → ⊥
    nothing [] e held enough = cc
    nothing (f ∷ fs) e held enough = omega arith
sweep_pending-later (suc fuel) now d enough x k b found = elim (sweep_pending-suc fuel now d) [
  | inl (empty, same) ↦
      let there = ap (λ (s : Decoder). find s.pending k) (sym same) ∙ found in
      let (_, held) = x k b there in
      let impossible : has [] b.expiry ≡ true =
        ap (λ (h : List ExpiryEntry). has h b.expiry) (sym empty) ∙ held in
      cc
  | inr (inl (e, es, heap, later, same)) ↦
      let there = ap (λ (s : Decoder). find s.pending k) (sym same) ∙ found in
      let (_, held) = x k b there in
      let held' = ap (λ (h : List ExpiryEntry). has h b.expiry) (sym heap) ∙ held in
      let le = least-le es e b.expiry held' in omega arith
  | inr (inr (e, es, heap, due, more)) ↦
      let top = least e es in
      let there = ap (λ (s : Decoder). find s.pending k) (sym more) ∙ found in
      let one =
        length-without d.pending_expiry top
          (ap (λ (h : List ExpiryEntry). has h top) heap ∙ has-least es e) in
      let fewer = ap length (expire_pending-heap d top) in
      sweep_pending-later fuel now (expire_pending d top).0 (omega arith)
        (expire_pending-HasEntries d top x) k b there
]

-- A block that is not due is kept, and none comes in.
module _ (now : ℕ) (d : Decoder) (k : BlockKey) (b : PendingBlock) where
  sweep_pending-kept :
      (fuel : ℕ)
      → find d.pending k ≡ some b
      → now < b.expiry.deadline
      → find (sweep_pending fuel now d).0.pending k ≡ some b
  sweep_pending-kept fuel found later =
      sweep_pending-keeps (λ (s : Decoder). find s.pending k ≡ some b) now round fuel d found
    where
      round :
          (s : Decoder) (top : ExpiryEntry)
          → top.deadline ≤ now
          → find s.pending k ≡ some b
          → find (expire_pending s top).0.pending k ≡ some b
      round s top due there = elim (expire_pending-view s top) [
        | inl (kept, _) ↦ ap (λ (v : View). find v.1 k) kept ∙ there
        | inr (block, is_there, same, gone) ↦ elim (Bool-cases (same_key top.key k)) [
          | inr other ↦
              let f = find-delete s.pending top.key k in
              ap (λ (v : View). find v.1 k) gone ∙ ground (arith, f, other, there)
          | inl mine ↦
              let here = ap (find s.pending) (same_key→eq top.key k mine) ∙ there in
              let is_b : block ≡ b = cc in
              let deadlines =
                ap (λ (e : ExpiryEntry). e.deadline) (same_entry→eq block.expiry top same) in
              let e = ap (λ (c : PendingBlock). c.expiry.deadline) is_b in absurd (omega arith)
        ]
      ]

  sweep_pending-from :
      (fuel : ℕ) → find (sweep_pending fuel now d).0.pending k ≡ some b → find d.pending k ≡ some b
  sweep_pending-from fuel =
      sweep_pending-keeps (λ (s : Decoder). find s.pending k ≡ some b → find d.pending k ≡ some b)
        now round fuel d (λ h. h)
    where
      round :
          (s : Decoder) (top : ExpiryEntry)
          → top.deadline ≤ now
          → (find s.pending k ≡ some b → find d.pending k ≡ some b)
          → find (expire_pending s top).0.pending k ≡ some b
          → find d.pending k ≡ some b
      round s top due before there = elim (expire_pending-view s top) [
        | inl (kept, _) ↦ before (ap (λ (v : View). find v.1 k) (sym kept) ∙ there)
        | inr (_, _, _, gone) ↦
            before
              (find-delete_found s.pending top.key k b
                (ap (λ (v : View). find v.1 k) (sym gone) ∙ there)).0
      ]

  sweep_locked-pending :
      view (sweep_locked now d).0 ≡ view (sweep_pending (length d.pending_expiry) now d).0
  unfolding sweep_locked
  sweep_locked-pending =
      let s = (sweep_pending (length d.pending_expiry) now d).0 in
      sweep_completed-keeps (λ (t : Decoder). view t ≡ view s) now
        (λ t top y. expire_completed-view t top ∙ y) (length s.completed_expiry) s refl

  sweep_locked_iff :
      HasEntries d
      → (find (sweep_locked now d).0.pending k ≡ some b)
        ↔ ((find d.pending k ≡ some b) × (now < b.expiry.deadline))
  sweep_locked_iff x =
      let fuel = length d.pending_expiry in
      let same = ap (λ (v : View). find v.1 k) sweep_locked-pending in
      (
        λ there.
            let there' = sym same ∙ there in
            (
              sweep_pending-from fuel there',
              sweep_pending-later fuel now d (omega arith) x k b there',
            ),
        λ (found, later). same ∙ sweep_pending-kept fuel found later,
      )

module _ (reconstruct : List (List ℕ) → Option (List (List ℕ))) where
  after-HasEntries : (d : Decoder) (c : Call) → HasEntries d → HasEntries (after reconstruct d c).0
  unfolding after
  after-HasEntries d (adds now input) x = add_verified_shard-HasEntries reconstruct now input d x
  after-HasEntries d (sweeps now) x = elim (sweep-cases now d) [
    | inl same ↦ subst HasEntries (sym same) x
    | inr swept ↦ subst HasEntries (sym swept) (sweep_locked-HasEntries now d x)
  ]
  after-HasEntries d closes x = elim (close-view d) [
    | inl same ↦ subst HasEntries (sym same) x
    | inr shut ↦ subst HasEntriesView (sym shut) (λ k b found. cc)
  ]

  reached-HasEntries :
      (d : Decoder) (cs : List Call) → HasEntries d → HasEntries (reached reconstruct d cs)
  reached-HasEntries d [] x = x
  reached-HasEntries d (c ∷ cs) x =
      reached-HasEntries (after reconstruct d c).0 cs (after-HasEntries d c x)

  -- In whatever a new Decoder has become, unless it is closed: what Sweep leaves pending is just the blocks whose
  -- deadline is still to come.
  pub find-sweep :
      (accepts : ℕ → ℕ → Bool) (config : DecoderConfig) (d : Decoder) (cs : List Call) (now : ℕ)
      (k : BlockKey) (b : PendingBlock)
      → new_decoder accepts config ≡ ok d
      → (reached reconstruct d cs).closed ≡ false
      → (find (sweep now (reached reconstruct d cs)).0.pending k ≡ some b)
        ↔ ((find (reached reconstruct d cs).pending k ≡ some b) × (now < b.expiry.deadline))
  find-sweep accepts config d cs now k b made live =
      let s = reached reconstruct d cs in
      let (limits, count, _, _, _, _, same) = new_decoder-parts accepts config d made in
      let start : HasEntries d = subst HasEntries (sym same) (λ j c found. cc) in
      let swept : (sweep now s).0 ≡ (sweep_locked now s).0 = unfold sweep in rw live refl in
      rw swept (sweep_locked_iff now s k b (reached-HasEntries d cs start))
