-- ===== src/Fec/Decoder/Expiring.antt =====
-- internal/fec/decoder.go: each pending block has its entry in the heap, call by call.
use mpudp.Prelude.{
  ℕ, ◌≡◌, refl, sym, ap, ◌∙◌, subst, List, ◌∷◌, true, false, Bool-cases, inl, inr, Option, some,
  Result, arith,
}
use mpudp.Prelude.Int.{pos_part}
use mpudp.Fec.{Error}
use mpudp.Fec.Expiry.{BlockKey, ExpiryEntry, same_key, same_entry, without}
use mpudp.Fec.Decoder.{IncomingShard, Added, PendingBlock, Decoder, find, remove_pending}
use mpudp.Fec.Decoder.Expiration.{expire_pending, sweep_locked}
use mpudp.Fec.Decoder.Adding.{
  with_shard, retained, new_block, opened, finish_block, add_to_block, add_valid,
  add_verified_shard,
}
use mpudp.Fec.Decoder.Maps.{same_key→eq, same_key_refl, find-delete_found, find-change_cases}
use mpudp.Fec.Decoder.Cases.{
  delivered, finish_block-cases, add_to_block-cases, open_block-cases, add_valid-cases,
  add_verified_shard-cases,
}
use mpudp.Fec.Decoder.Sweeping.{sweep_locked-keeps}
use mpudp.Fec.Decoder.Viewing.{
  View, view, remember_completed-view, expire_completed-view, expire_pending-view, removed-view,
}
use mpudp.Fec.Decoder.Heap.{has, same_entry→eq, same_entry_refl, has-without}

-- Each pending block has its entry in the heap, under its own key.
abbrev pub HasEntriesView : View → Type 0
HasEntriesView (r, p, shards, bytes, heap) =
    (k : BlockKey) (b : PendingBlock)
    → find p k ≡ some b
    → (b.expiry.key ≡ k) × (has heap b.expiry ≡ true)

abbrev pub HasEntries : Decoder → Type 0
HasEntries d = HasEntriesView (view d)

-- A block keeps its entry when another's is taken out.
apart :
    (heap : List ExpiryEntry) (t : ExpiryEntry) (j k : BlockKey) (b : PendingBlock)
    → t.key ≡ j
    → same_key j k ≡ false
    → (b.expiry.key ≡ k) × (has heap b.expiry ≡ true)
    → (b.expiry.key ≡ k) × (has (without t heap) b.expiry ≡ true)
apart heap t j k b own other (named, there) = elim (Bool-cases (same_entry b.expiry t)) [
  | inr differs ↦ (named, has-without heap t b.expiry differs there)
  | inl same ↦
      let keys = ap (λ (e : ExpiryEntry). e.key) (same_entry→eq b.expiry t same) in
      let jk : j ≡ k = sym own ∙ sym keys ∙ named in
      let self : same_key j k ≡ true = ap (same_key j) (sym jk) ∙ same_key_refl j in cc
]

stale-HasEntries :
    (d : Decoder) (top : ExpiryEntry)
    → HasEntries d
    → ((b : PendingBlock) → find d.pending top.key ≡ some b → same_entry b.expiry top ≡ false)
    → (k : BlockKey) (b : PendingBlock) → find d.pending k ≡ some b
    → (b.expiry.key ≡ k) × (has (without top d.pending_expiry) b.expiry ≡ true)
stale-HasEntries d top x stale k b found = elim (Bool-cases (same_key top.key k)) [
  | inr other ↦ apart d.pending_expiry top top.key k b refl other (x k b found)
  | inl same ↦
      let here = ap (find d.pending) (same_key→eq top.key k same) ∙ found in
      let (named, there) = x k b found in
      (named, has-without d.pending_expiry top b.expiry (stale b here) there)
]

pub expire_pending-HasEntries :
    (d : Decoder) (top : ExpiryEntry) → HasEntries d → HasEntries (expire_pending d top).0
expire_pending-HasEntries d top x = elim (expire_pending-view d top) [
  | inl (kept, stale) ↦ subst HasEntriesView (sym kept) (stale-HasEntries d top x stale)
  | inr (block, found, _, gone) ↦ subst HasEntriesView (sym gone) (λ k b there.
      let (before, other) = find-delete_found d.pending top.key k b there in
      apart d.pending_expiry top top.key k b refl other (x k b before))
]

pub sweep_locked-HasEntries :
    (now : ℕ) (d : Decoder) → HasEntries d → HasEntries (sweep_locked now d).0
sweep_locked-HasEntries now d x =
    sweep_locked-keeps HasEntries now d (λ s top due y. expire_pending-HasEntries s top y)
      (λ s top y. subst HasEntriesView (sym (expire_completed-view s top)) y) x

module _ (reconstruct : List (List ℕ) → Option (List (List ℕ))) (now : ℕ)
    (input : IncomingShard) where
  abbrev HasEntriesAfter : Decoder × Result Error Added → Type 0
  HasEntriesAfter answer = HasEntries answer.0

  retained-HasEntries :
      (d : Decoder) (block : PendingBlock)
      → HasEntries d
      → find d.pending input.key ≡ some block
      → HasEntries (retained d input block)
  retained-HasEntries d block x found k b there =
      let w = with_shard block (pos_part input.index) input.payload in
      elim (find-change_cases d.pending input.key k block w b found there) [
        | inr before ↦ x k b before
        | inl (jk, wb) ↦
            let (named, held) = x input.key block found in
            let same = ap (λ (c : PendingBlock). c.expiry) wb in
            (
              ap (λ (e : ExpiryEntry). e.key) (sym same) ∙ named ∙ jk,
              ap (has d.pending_expiry) (sym same) ∙ held,
            )
      ]

  finish_block-HasEntries :
      (d : Decoder) (block : PendingBlock)
      → HasEntries d
      → find d.pending input.key ≡ some block
      → HasEntriesAfter (
          finish_block reconstruct now
            (retained d input block)
            input
            (with_shard block (pos_part input.index) input.payload))
  finish_block-HasEntries d block x found =
      let s = retained d input block in
      let w = with_shard block (pos_part input.index) input.payload in
      let removed = remove_pending s input.key w in
      let y : HasEntries removed =
        subst HasEntriesView (sym (removed-view d input block)) (λ k b there.
          let (before, other) = find-delete_found d.pending input.key k b there in
          apart d.pending_expiry block.expiry input.key k b (x input.key block found).0 other
            (x k b before)) in
      elim (finish_block-cases reconstruct now s input w) [
        | inl (cause, e) ↦ subst HasEntriesAfter (sym e) y
        | inr (working, datagram, _, _, e) ↦
            let same : view (delivered reconstruct now s input w datagram).0 ≡ view removed =
              remember_completed-view now removed input.key in
            subst HasEntriesAfter (sym e) (subst HasEntriesView (sym same) y)
      ]

  add_to_block-HasEntries :
      (d : Decoder) (block : PendingBlock)
      → HasEntries d
      → find d.pending input.key ≡ some block
      → HasEntriesAfter (add_to_block reconstruct now d input block)
  add_to_block-HasEntries d block x found =
      elim (add_to_block-cases reconstruct now d input block) [
        | inl (d', answer, quiet, same, e) ↦
            subst HasEntriesAfter (sym e) (subst HasEntriesView (sym (ap view same)) x)
        | inr (inl (empty, few, e)) ↦
            subst HasEntriesAfter (sym e) (retained-HasEntries d block x found)
        | inr (inr (empty, enough, e)) ↦
            subst HasEntriesAfter (sym e) (finish_block-HasEntries d block x found)
      ]

  opened-HasEntries : (d : Decoder) (size : ℕ) → HasEntries d → HasEntries (opened now d input size)
  opened-HasEntries d size x k b there =
      let block = new_block now d input size in
      elim (Bool-cases (same_key input.key k)) [
        | inl same ↦
            let wb : block ≡ b = ground (arith, same, there) in
            let e = ap (λ (c : PendingBlock). c.expiry) wb in
            let self = same_entry_refl block.expiry in
            let first : has (block.expiry ∷ d.pending_expiry) block.expiry ≡ true = rw self refl in
            (
              ap (λ (f : ExpiryEntry). f.key) (sym e) ∙ same_key→eq input.key k same,
              ap (has (block.expiry ∷ d.pending_expiry)) (sym e) ∙ first,
            )
        | inr other ↦
            let (named, held) = x k b (ground (arith, other, there)) in
            (named, ground (arith, held))
      ]

  add_valid-HasEntries :
      (d : Decoder) (size : ℕ)
      → HasEntries d
      → HasEntriesAfter (add_valid reconstruct now d input size)
  add_valid-HasEntries d size x = elim (add_valid-cases reconstruct now d input size) [
    | inr (inl (block, found, f)) ↦ subst HasEntriesAfter (sym f) x
    | inr (inr (block, found, _, _, f)) ↦
        subst HasEntriesAfter (sym f) (add_to_block-HasEntries d block x found)
    | inl (free, f) ↦
        subst HasEntriesAfter (sym f) (elim (open_block-cases reconstruct now d input size) [
          | inl (d', answer, quiet, same, g) ↦
              subst HasEntriesAfter (sym g) (subst HasEntriesView (sym (ap view same)) x)
          | inr (young, new, room, g) ↦
              let self = same_key_refl input.key in
              subst HasEntriesAfter (sym g) (
                add_to_block-HasEntries (opened now d input size) (new_block now d input size)
                  (opened-HasEntries d size x) (ground (arith, self)))
        ])
  ]

  pub add_verified_shard-HasEntries :
      (d : Decoder) → HasEntries d → HasEntriesAfter (add_verified_shard reconstruct now d input)
  add_verified_shard-HasEntries d x = elim (add_verified_shard-cases reconstruct now d input) [
    | inl (cause, e) ↦ subst HasEntriesAfter (sym e) x
    | inr (size, live, valid, e) ↦
        subst HasEntriesAfter (sym e)
          (add_valid-HasEntries (sweep_locked now d).0 size (sweep_locked-HasEntries now d x))
  ]
