-- ===== src/Fec/Decoder/Adding.antt =====
-- internal/fec/decoder.go: `AddVerifiedShard`. `reconstruct` stands for `ReconstructData` of the Reed-Solomon
-- library.
use mpudp.Prelude.{
  ℕ, ◌+◌, List, ◌∷◌, map, Bool, false, not, ◌||◌, ◌==◌, ltb, leb, if◌then◌else◌, length, get_or,
  set, take, replicate, Option, none, some, Result, ok, err, bytes_eq, total,
}
use mpudp.Prelude.Int.{pos_part}
use mpudp.Fec.{
  Error, inconsistent_block, conflicting_shard, decoder_full, closed_decoder, decode_failed,
}
use mpudp.Fec.Encoder.{join_data}
use mpudp.Fec.Parts.{shard_or_empty}
use mpudp.Fec.Replay
use mpudp.Fec.Replay.{ReplayWindow}
use mpudp.Fec.Counters.{Counters, plus, raise_pending, counting}
use mpudp.Fec.Decoder.{
  IncomingShard, Added, pending, duplicate, complete, too_old, PendingBlock, Decoder, find, change,
  is_found, data_shards, validate_shard, remove_pending, remember_completed,
}
use mpudp.Fec.Decoder.Expiration.{sweep_locked}

abbrev pub absent : Option (List ℕ) → ℕ
absent none = 1
absent (some shard) = 0

abbrev pub counted : (Counters → Counters) → Decoder → Decoder
counted f d = record d { statistics = counting f d.statistics }

abbrev pub count_duplicate_shards : Counters → Counters
count_duplicate_shards c = record c { duplicate_shards = plus c.duplicate_shards 1 }

abbrev pub count_too_old_shards : Counters → Counters
count_too_old_shards c = record c { too_old_shards = plus c.too_old_shards 1 }

abbrev pub count_late_shards : Counters → Counters
count_late_shards c = record c { late_shards = plus c.late_shards 1 }

abbrev pub count_decoder_full : Counters → Counters
count_decoder_full c = record c { decoder_full = plus c.decoder_full 1 }

abbrev pub count_completed : ℕ → Counters → Counters
count_completed missing c =
    let done = record c { completed_blocks = plus c.completed_blocks 1 } in
    if missing == 0 then done else record done {
      recovered_blocks = plus c.recovered_blocks 1;
      recovered_shards = plus c.recovered_shards missing;
    }

abbrev pub with_shard : PendingBlock → ℕ → List ℕ → PendingBlock
with_shard block index payload = record block {
  shards = set block.shards index (some payload);
  present = block.present + 1;
  bytes = block.bytes + length payload;
}

abbrev pub retained : Decoder → IncomingShard → PendingBlock → Decoder
retained d input block = record d {
  pending = change d.pending input.key (with_shard block (pos_part input.index) input.payload);
  pending_shards = d.pending_shards + 1;
  pending_bytes = d.pending_bytes + length input.payload;
  statistics = counting (raise_pending 0 1 (length input.payload)) d.statistics;
}

abbrev pub is_too_old : Option (List ℕ × ReplayWindow) → ℕ → Bool
is_too_old none packet_id = false
is_too_old (some (id, w)) packet_id = Replay.too_old w packet_id

abbrev pub is_contained : Option (List ℕ × ReplayWindow) → ℕ → Bool
is_contained none packet_id = false
is_contained (some (id, w)) packet_id = Replay.contains w packet_id

abbrev pub admitted : Option (List ℕ × ReplayWindow) → ℕ → Option (List ℕ × ReplayWindow)
admitted none packet_id = none
admitted (some (id, w)) packet_id = some (id, Replay.admit w packet_id)

abbrev pub new_block : ℕ → Decoder → IncomingShard → ℕ → PendingBlock
new_block now d input size = record {
  original_length = pos_part input.original_length;
  shard_size = size;
  shards = replicate d.total none;
  present = 0;
  bytes = 0;
  expiry = record { key = input.key; deadline = now + d.decode_timeout };
}

abbrev pub opened : ℕ → Decoder → IncomingShard → ℕ → Decoder
opened now d input size =
    let block = new_block now d input size in
    record d {
      pending = (input.key, block) ∷ d.pending;
      pending_expiry = block.expiry ∷ d.pending_expiry;
      statistics = counting (raise_pending 1 0 0) d.statistics;
      replay = admitted d.replay input.key.packet_id;
    }

module _ (reconstruct : List (List ℕ) → Option (List (List ℕ))) where
  -- The part of `AddVerifiedShard` behind the last of the k shards.
  unfoldable pub finish_block :
      ℕ → Decoder → IncomingShard → PendingBlock → Decoder × Result Error Added
  finish_block now d input block =
      let removed = remove_pending d input.key block in
      elim (reconstruct (map shard_or_empty block.shards)) [
        | none ↦ (removed, err decode_failed)
        | some working ↦ elim (join_data (data_shards d) (pos_part input.original_length) working) [
          | err cause ↦ (removed, err cause)
          | ok datagram ↦
              let kept = remember_completed now removed input.key in
              let missing = total absent (take (data_shards d) block.shards) in
              (
                record kept { statistics = counting (count_completed missing) kept.statistics },
                ok (record { outcome = complete; datagram = some datagram }),
              )
        ]
      ]

  -- The part behind the block's lookup.
  unfoldable pub add_to_block :
      ℕ → Decoder → IncomingShard → PendingBlock → Decoder × Result Error Added
  add_to_block now d input block = elim (get_or block.shards (pos_part input.index) none) [
    | some existing ↦
        if bytes_eq existing input.payload
        then (
          counted count_duplicate_shards d,
          ok (record { outcome = duplicate; datagram = none }),
        )
        else (d, err conflicting_shard)
    | none ↦
        let d' = retained d input block in
        let block' = with_shard block (pos_part input.index) input.payload in
        if ltb block'.present (data_shards d)
        then (d', ok (record { outcome = pending; datagram = none }))
        else finish_block now d' input block'
  ]

  -- The branch without a block for the key.
  unfoldable pub open_block : ℕ → Decoder → IncomingShard → ℕ → Decoder × Result Error Added
  open_block now d input size =
      let id = input.key.packet_id in
      if is_too_old d.replay id
      then (counted count_too_old_shards d, ok (record { outcome = too_old; datagram = none }))
      else if is_found (find d.completed input.key) || is_contained d.replay id
      then (counted count_late_shards d, ok (record { outcome = duplicate; datagram = none }))
      else if leb d.max_pending_blocks (length d.pending)
      then (counted count_decoder_full d, err decoder_full)
      else add_to_block now (opened now d input size) input (new_block now d input size)

  -- The part behind the sweep.
  unfoldable pub add_valid : ℕ → Decoder → IncomingShard → ℕ → Decoder × Result Error Added
  add_valid now d input size = elim (find d.pending input.key) [
    | none ↦ open_block now d input size
    | some block ↦
        if not (block.original_length == pos_part input.original_length)
          || not (block.shard_size == size)
        then (d, err inconsistent_block)
        else add_to_block now d input block
  ]

  unfoldable pub add_verified_shard : ℕ → Decoder → IncomingShard → Decoder × Result Error Added
  add_verified_shard now d input =
      if d.closed then (d, err closed_decoder) else elim (validate_shard d input) [
        | err cause ↦ (d, err cause)
        | ok size ↦ add_valid now (sweep_locked now d).0 input size
      ]
