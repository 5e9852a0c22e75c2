-- ===== src/Fec/Decoder/Exact.antt =====
-- internal/fec/decoder.go: the Decoder's counts stay exact, call by call.
use mpudp.Prelude.{
  ℕ, ◌-◌, ◌≤◌, ◌<◌, ◌≡◌, refl, sym, ap, ◌∙◌, subst, List, length, inl, inr, Option, none, some,
  Result, arith,
}
use mpudp.Prelude.Int.{pos_part}
use mpudp.Fec.{Error, Params, Limits}
use mpudp.Fec.Expiry.{BlockKey, ExpiryEntry}
use mpudp.Fec.Decoder.{
  IncomingShard, Added, PendingBlock, Decoder, find, data_shards, remove_pending, close,
}
use mpudp.Fec.Decoder.Expiration.{expire_pending, expire_completed, sweep_locked, sweep}
use mpudp.Fec.Decoder.Adding.{
  with_shard, retained, new_block, opened, finish_block, add_to_block, add_valid,
  add_verified_shard,
}
use mpudp.Fec.Decoder.Maps.{same_key_refl}
use mpudp.Fec.Decoder.Keys.{AllValues-find}
use mpudp.Fec.Decoder.Cases.{
  delivered, finish_block-cases, add_to_block-cases, open_block-cases, add_valid-cases,
  add_verified_shard-cases,
}
use mpudp.Fec.Decoder.Sweeping.{sweep_locked-keeps, sweep-cases}
use mpudp.Fec.Decoder.Viewing.{
  rules, View, view, expire_pending-view, removed-view, close-view, remember_completed-view,
  expire_completed-view, validate_shard-fits,
}
use mpudp.Fec.Decoder.Counting.{
  IsSound, IsCounted, replicate-absent, replicate-AreSmall, with_shard-IsSound, empty-IsCounted,
  delete-IsCounted, change-IsCounted, open-IsCounted,
}

-- A Decoder that `start` has become.
module _ (start : Decoder) where
  abbrev m : ℕ
  m = data_shards start - 1

  abbrev capacity : ℕ
  capacity = start.limits.shard_capacity

  abbrev Sound : PendingBlock → Type 0
  Sound = IsSound start.total start.max_pending_blocks m capacity

  abbrev Counted : List (BlockKey × PendingBlock) → ℕ → ℕ → Type 0
  Counted = IsCounted start.total start.max_pending_blocks m capacity

  abbrev IsExactView : View → Type 0
  IsExactView (r, p, shards, bytes, heap) = (r ≡ rules start) × Counted p shards bytes

  abbrev pub IsExact : Decoder → Type 0
  IsExact d = IsExactView (view d)

  kept-IsExact : (d d' : Decoder) → view d' ≡ view d → IsExact d → IsExact d'
  kept-IsExact d d' e x = subst IsExactView (sym e) x

  expire_pending-IsExact :
      (d : Decoder) (top : ExpiryEntry) → IsExact d → IsExact (expire_pending d top).0
  expire_pending-IsExact d top (r, x) = elim (expire_pending-view d top) [
    | inl (stale, _) ↦ subst IsExactView (sym stale) (r, x)
    | inr (block, found, _, gone) ↦ subst IsExactView (sym gone) (
      r,
      delete-IsCounted start.total start.max_pending_blocks m capacity d.pending d.pending_shards
          d.pending_bytes top.key block x found,
    )
  ]

  sweep_locked-IsExact : (now : ℕ) (d : Decoder) → IsExact d → IsExact (sweep_locked now d).0
  sweep_locked-IsExact now d x =
      sweep_locked-keeps IsExact now d (λ s top due y. expire_pending-IsExact s top y)
        (λ s top y. kept-IsExact s (expire_completed s top).0 (expire_completed-view s top) y) x

  pub close-IsExact : (d : Decoder) → IsExact d → IsExact (close d)
  close-IsExact d (r, x) = elim (close-view d) [
    | inl same ↦ subst IsExact (sym same) (r, x)
    | inr shut ↦
        subst IsExactView (sym shut)
          (r, empty-IsCounted start.total start.max_pending_blocks m capacity)
  ]

  module _ (reconstruct : List (List ℕ) → Option (List (List ℕ))) (now : ℕ) (input : IncomingShard)
      (inside : pos_part input.index < start.total) (fits : length input.payload ≤ capacity) where
    abbrev IsExactAnswer : Decoder × Result Error Added → Type 0
    IsExactAnswer answer = IsExact answer.0

    -- The block is gone with its last shard.
    removed-IsExact :
        (d : Decoder) (block : PendingBlock)
        → IsExact d
        → find d.pending input.key ≡ some block
        → IsExact (
            remove_pending
              (retained d input block)
              input.key
              (with_shard block (pos_part input.index) input.payload))
    removed-IsExact d block (r, x) found = subst IsExactView (sym (removed-view d input block)) (
      r,
      delete-IsCounted start.total start.max_pending_blocks m capacity d.pending d.pending_shards
          d.pending_bytes input.key block x found,
    )

    finish_block-IsExact :
        (d : Decoder) (block : PendingBlock)
        → IsExact d
        → find d.pending input.key ≡ some block
        → IsExactAnswer (
            finish_block reconstruct now
              (retained d input block)
              input
              (with_shard block (pos_part input.index) input.payload))
    finish_block-IsExact d block x found =
        let s = retained d input block in
        let w = with_shard block (pos_part input.index) input.payload in
        let y = removed-IsExact d block x found in
        elim (finish_block-cases reconstruct now s input w) [
          | inl (cause, e) ↦ subst IsExactAnswer (sym e) y
          | inr (working, datagram, _, _, e) ↦ subst IsExactAnswer (sym e) (
              kept-IsExact (remove_pending s input.key w)
                (delivered reconstruct now s input w datagram).0
                (remember_completed-view now (remove_pending s input.key w) input.key) y)
        ]

    add_to_block-IsExact :
        (d : Decoder) (block : PendingBlock)
        → IsExact d
        → find d.pending input.key ≡ some block
        → IsExactAnswer (add_to_block reconstruct now d input block)
    add_to_block-IsExact d block (r, x) found =
        elim (add_to_block-cases reconstruct now d input block) [
          | inl (d', answer, quiet, same, e) ↦
              subst IsExactAnswer (sym e) (kept-IsExact d d' (ap view same) (r, x))
          | inr (inl (empty, few, e)) ↦
              let k_eq : data_shards d ≡ data_shards start =
                ap (λ (q : Params × Limits × ℕ × ℕ). pos_part q.0.data_shards) r in
              let sound = AllValues-find Sound d.pending input.key block x.sound found in
              let more =
                with_shard-IsSound start.total start.max_pending_blocks m capacity block
                  (pos_part input.index) input.payload sound inside empty fits
                  (ground (arith, few, k_eq)) in
              subst IsExactAnswer (sym e) (
                r,
                change-IsCounted start.total start.max_pending_blocks m capacity d.pending
                    d.pending_shards d.pending_bytes input.key block (pos_part input.index)
                    input.payload x found more,
              )
          | inr (inr (empty, enough, e)) ↦
              subst IsExactAnswer (sym e) (finish_block-IsExact d block (r, x) found)
        ]

    opened-IsExact :
        (d : Decoder) (size : ℕ)
        → IsExact d
        → find d.pending input.key ≡ none
        → length d.pending < d.max_pending_blocks
        → IsExact (opened now d input size)
    opened-IsExact d size (r, x) free room =
        let (places, shards, holds) = replicate-absent d.total in
        let n_eq : d.total ≡ start.total = ap (λ (q : Params × Limits × ℕ × ℕ). q.2) r in
        let most_eq : d.max_pending_blocks ≡ start.max_pending_blocks =
          ap (λ (q : Params × Limits × ℕ × ℕ). q.3) r in
        (
          r,
          open-IsCounted start.total start.max_pending_blocks m capacity d.pending d.pending_shards
              d.pending_bytes input.key (new_block now d input size) x free (omega arith)
              (record {
                places = places ∙ n_eq;
                shards = shards;
                holds = holds;
                few = omega arith;
                each_small = replicate-AreSmall capacity d.total;
                small = omega arith;
              })
              refl refl,
        )

    add_valid-IsExact :
        (d : Decoder) (size : ℕ)
        → IsExact d
        → IsExactAnswer (add_valid reconstruct now d input size)
    add_valid-IsExact d size x = elim (add_valid-cases reconstruct now d input size) [
      | inr (inl (block, found, f)) ↦ subst IsExactAnswer (sym f) x
      | inr (inr (block, found, _, _, f)) ↦
          subst IsExactAnswer (sym f) (add_to_block-IsExact d block x found)
      | inl (free, f) ↦
          subst IsExactAnswer (sym f) (elim (open_block-cases reconstruct now d input size) [
            | inl (d', answer, quiet, same, g) ↦
                subst IsExactAnswer (sym g) (kept-IsExact d d' (ap view same) x)
            | inr (young, new, room, g) ↦
                let self = same_key_refl input.key in
                subst IsExactAnswer (sym g) (
                  add_to_block-IsExact (opened now d input size) (new_block now d input size)
                    (opened-IsExact d size x free room) (ground (arith, self)))
          ])
    ]

  pub add_verified_shard-IsExact :
      (reconstruct : List (List ℕ) → Option (List (List ℕ))) (now : ℕ) (d : Decoder)
      (input : IncomingShard)
      → IsExact d
      → IsExact (add_verified_shard reconstruct now d input).0
  add_verified_shard-IsExact reconstruct now d input x =
      elim (add_verified_shard-cases reconstruct now d input) [
        | inl (cause, e) ↦ subst (λ (a : Decoder × Result Error Added). IsExact a.0) (sym e) x
        | inr (size, live, valid, e) ↦
            let (inside, fits) = validate_shard-fits d input size valid in
            let n_eq : d.total ≡ start.total = ap (λ (q : Params × Limits × ℕ × ℕ). q.2) x.0 in
            let room_eq : d.limits.shard_capacity ≡ capacity =
              ap (λ (q : Params × Limits × ℕ × ℕ). q.1.shard_capacity) x.0 in
            subst (λ (a : Decoder × Result Error Added). IsExact a.0) (sym e)
              (add_valid-IsExact reconstruct now input (omega arith) (omega arith)
                (sweep_locked now d).0 size (sweep_locked-IsExact now d x))
      ]

  pub sweep-IsExact : (now : ℕ) (d : Decoder) → IsExact d → IsExact (sweep now d).0
  sweep-IsExact now d x = elim (sweep-cases now d) [
    | inl same ↦ subst IsExact (sym same) x
    | inr swept ↦ subst IsExact (sym swept) (sweep_locked-IsExact now d x)
  ]
