-- ===== src/Fec/Decoder/Cases.antt =====
-- internal/fec/decoder.go: the ways in which `AddVerifiedShard` and its parts end.
use mpudp.Prelude.{
  ℕ, ◌+◌, ◌≤◌, ◌<◌, ◌≡◌, ◌⊎◌, refl, List, map, Bool, true, false, not, ◌&&◌, ◌||◌, ◌==◌, ltb, leb,
  Bool-cases, Option-cases, Result-cases, inl, inr, Option, none, some, Result, ok, err, reject_if,
  >>=-eq-ok, length, get_or, take, bytes_eq, total, arith,
}
use mpudp.Prelude.Int.{ℤ, pos, negsuc, pos_part, is_nonpositive}
use mpudp.Fec.{
  Error, invalid_decoder_config, Limits, derive_limits, decode_failed, inconsistent_block,
  conflicting_shard, decoder_full, closed_decoder,
}
use mpudp.Fec.Encoder.{join_data, new_codec}
use mpudp.Fec.Parts.{shard_or_empty}
use mpudp.Fec.Counters.{counting}
use mpudp.Fec.Decoder.{
  IncomingShard, Added, pending, duplicate, complete, too_old, PendingBlock, Decoder, find,
  is_found, DecoderConfig, new_decoder, new_state, data_shards, validate_shard, remove_pending,
  remember_completed,
}
use mpudp.Fec.Decoder.Expiration.{sweep_locked}
use mpudp.Fec.Decoder.Adding.{
  absent, counted, count_duplicate_shards, count_too_old_shards, count_late_shards,
  count_decoder_full, count_completed, finish_block, with_shard, retained, add_to_block, opened,
  new_block, is_too_old, is_contained, open_block, add_valid, add_verified_shard,
}

-- The Datagram that a call returns, with its packet ID.
abbrev pub delivery : IncomingShard → Result Error Added → Option (ℕ × List ℕ)
delivery input (err cause) = none
delivery input (ok added) = elim added.datagram [
  | none ↦ none
  | some datagram ↦ some (input.key.packet_id, datagram)
]

positive : (z : ℤ) → reject_if (is_nonpositive z) invalid_decoder_config ≡ ok tt → 1 ≤ pos_part z
positive (pos n) h = ground arith
positive (negsuc n) h = cc

pub new_decoder-parts :
    (accepts : ℕ → ℕ → Bool) (config : DecoderConfig) (d : Decoder)
    → new_decoder accepts config ≡ ok d
    → (limits : Limits) × (count : ℕ) × (derive_limits config.params config.budget ≡ ok limits)
      × (new_codec accepts config.params ≡ ok count)
      × (1 ≤ pos_part config.max_pending_blocks)
      × (1 ≤ pos_part config.decode_timeout)
      × (d ≡ new_state config limits count)
unfolding new_decoder
new_decoder-parts accepts config d made =
    let cached = not (is_found config.replay_window) in
    let (limits, derived, h) = >>=-eq-ok (derive_limits config.params config.budget) _ made in
    let (_, timed, h1) =
      >>=-eq-ok (reject_if (is_nonpositive config.decode_timeout) invalid_decoder_config) _ h in
    let (_, _, h2) =
      >>=-eq-ok (reject_if (cached && is_nonpositive config.completion_ttl) invalid_decoder_config)
        _ h1 in
    let (_, roomy, h3) =
      >>=-eq-ok (reject_if (is_nonpositive config.max_pending_blocks) invalid_decoder_config) _
        h2 in
    let (_, _, h4) =
      >>=-eq-ok
        (reject_if (cached && is_nonpositive config.max_completed_blocks) invalid_decoder_config) _
        h3 in
    let (count, coded, h5) = >>=-eq-ok (new_codec accepts config.params) _ h4 in
    (
      limits,
      count,
      derived,
      coded,
      positive config.max_pending_blocks roomy,
      positive config.decode_timeout timed,
      ground (arith, h5),
    )

module _ (reconstruct : List (List ℕ) → Option (List (List ℕ))) (now : ℕ) (d : Decoder)
    (input : IncomingShard) where
  abbrev pub delivered : PendingBlock → List ℕ → Decoder × Result Error Added
  delivered block datagram =
      let kept = remember_completed now (remove_pending d input.key block) input.key in
      let missing = total absent (take (data_shards d) block.shards) in
      (
        record kept { statistics = counting (count_completed missing) kept.statistics },
        ok (record { outcome = complete; datagram = some datagram }),
      )

  pub finish_block-cases :
      (block : PendingBlock)
      → ((cause : Error) × (finish_block reconstruct now d input block
            ≡ (remove_pending d input.key block, err cause)))
        ⊎ ((working : List (List ℕ)) × (datagram : List ℕ) × (reconstruct
                (map shard_or_empty block.shards)
              ≡ some working)
            × (join_data (data_shards d) (pos_part input.original_length) working ≡ ok datagram)
            × (finish_block reconstruct now d input block ≡ delivered block datagram))
  unfolding finish_block
  finish_block-cases block = elim (Option-cases (reconstruct (map shard_or_empty block.shards))) [
    | inl failed ↦ inl (decode_failed, rw (failed, finish_block) refl)
    | inr (working, restored) ↦
        elim (Result-cases (join_data (data_shards d) (pos_part input.original_length) working)) [
          | inr (cause, broken) ↦ inl (cause, rw (restored, finish_block) (rw broken refl))
          | inl (datagram, joined) ↦
              inr
                (working, datagram, restored, joined, rw (restored, finish_block) (rw joined refl))
        ]
  ]

  -- The shard is there already; or it is kept, as one of fewer than k, or as the last of k.
  pub add_to_block-cases :
      (block : PendingBlock)
      → ((d' : Decoder) × (answer : Result Error Added) × (delivery input answer ≡ none)
          × (d' ≡ record d { statistics = d'.statistics })
          × (add_to_block reconstruct now d input block ≡ (d', answer)))
        ⊎ ((get_or block.shards (pos_part input.index) none ≡ none)
            × (ltb (block.present + 1) (data_shards d) ≡ true)
            × (add_to_block reconstruct now d input block
                ≡ (retained d input block, ok (record { outcome = pending; datagram = none }))))
        ⊎ ((get_or block.shards (pos_part input.index) none ≡ none)
            × (ltb (block.present + 1) (data_shards d) ≡ false)
            × (add_to_block reconstruct now d input block
                ≡ finish_block reconstruct now
                    (retained d input block)
                    input
                    (with_shard block (pos_part input.index) input.payload)))
  unfolding add_to_block
  add_to_block-cases block = elim (Option-cases (get_or block.shards (pos_part input.index) none)) [
    | inr (existing, there) ↦ elim (Bool-cases (bytes_eq existing input.payload)) [
      | inl same ↦ inl (
        counted count_duplicate_shards d,
        ok (record { outcome = duplicate; datagram = none }),
        refl,
        refl,
        rw (there, add_to_block) (rw same refl),
      )
      | inr other ↦
          inl (d, err conflicting_shard, refl, refl, rw (there, add_to_block) (rw other refl))
    ]
    | inl empty ↦ elim (Bool-cases (ltb (block.present + 1) (data_shards d))) [
      | inl few ↦ inr (inl (empty, few, rw (empty, add_to_block) (rw few refl)))
      | inr enough ↦ inr (inr (empty, enough, rw (empty, add_to_block) (rw enough refl)))
    ]
  ]

  abbrev pub fresh_block : ℕ → PendingBlock
  fresh_block size = new_block now d input size

  -- There is no block for the key: the shard is answered without one, or opens one.
  pub open_block-cases :
      (size : ℕ)
      → ((d' : Decoder) × (answer : Result Error Added) × (delivery input answer ≡ none)
          × (d' ≡ record d { statistics = d'.statistics })
          × (open_block reconstruct now d input size ≡ (d', answer)))
        ⊎ ((is_too_old d.replay input.key.packet_id ≡ false)
            × (is_contained d.replay input.key.packet_id ≡ false)
            × (length d.pending < d.max_pending_blocks)
            × (open_block reconstruct now d input size
                ≡ add_to_block reconstruct now (opened now d input size) input (fresh_block size)))
  unfolding open_block
  open_block-cases size =
      let id = input.key.packet_id in
      elim (Bool-cases (is_too_old d.replay id)) [
        | inl old ↦ inl (
          counted count_too_old_shards d,
          ok (record { outcome = too_old; datagram = none }),
          refl,
          refl,
          rw (old, open_block) refl,
        )
        | inr young ↦
            elim (Bool-cases (is_found (find d.completed input.key) || is_contained d.replay id)) [
              | inl late ↦ inl (
                counted count_late_shards d,
                ok (record { outcome = duplicate; datagram = none }),
                refl,
                refl,
                rw (young, open_block) (rw late refl),
              )
              | inr new ↦ elim (Bool-cases (leb d.max_pending_blocks (length d.pending))) [
                | inl full ↦ inl (
                  counted count_decoder_full d,
                  err decoder_full,
                  refl,
                  refl,
                  rw (young, open_block) (rw new (rw full refl)),
                )
                | inr room ↦ inr (
                  young,
                  ground (arith, new),
                  ground (arith, room),
                  rw (young, open_block) (rw new (rw room refl)),
                )
              ]
            ]
      ]

  -- The part behind the sweep, and the whole call.
  pub add_valid-cases :
      (size : ℕ)
      → ((find d.pending input.key ≡ none)
          × (add_valid reconstruct now d input size ≡ open_block reconstruct now d input size))
        ⊎ ((block : PendingBlock) × (find d.pending input.key ≡ some block)
            × (add_valid reconstruct now d input size ≡ (d, err inconsistent_block)))
        ⊎ ((block : PendingBlock) × (find d.pending input.key ≡ some block)
            × (block.original_length ≡ pos_part input.original_length)
            × (block.shard_size ≡ size)
            × (add_valid reconstruct now d input size ≡ add_to_block reconstruct now d input block))
  unfolding add_valid
  add_valid-cases size = elim (Option-cases (find d.pending input.key)) [
    | inl absent_block ↦ inl (absent_block, rw (absent_block, add_valid) refl)
    | inr (block, found) ↦
        elim (Bool-cases (
          not (block.original_length == pos_part input.original_length)
          || not (block.shard_size == size))) [
            | inl differs ↦ inr (inl (block, found, rw (found, add_valid) (rw differs refl)))
            | inr agrees ↦ inr (
                inr (
                  block,
                  found,
                  ground (arith, agrees),
                  ground (arith, agrees),
                  rw (found, add_valid) (rw agrees refl),
                ))
          ]
  ]

  pub add_verified_shard-cases :
      ((cause : Error) × (add_verified_shard reconstruct now d input ≡ (d, err cause)))
      ⊎ ((size : ℕ) × (d.closed ≡ false)
          × (validate_shard d input ≡ ok size)
          × (add_verified_shard reconstruct now d input
              ≡ add_valid reconstruct now (sweep_locked now d).0 input size))
  unfolding add_verified_shard
  add_verified_shard-cases = elim (Bool-cases d.closed) [
    | inl shut ↦ inl (closed_decoder, rw (shut, add_verified_shard) refl)
    | inr live ↦ elim (Result-cases (validate_shard d input)) [
      | inr (cause, bad) ↦ inl (cause, ground (arith, live, bad))
      | inl (size, good) ↦ inr (size, live, good, ground (arith, live, good))
    ]
  ]
