-- ===== src/Fec/Decoder.antt =====
-- internal/fec/decoder.go: the Decoder's state and what its operations do with it, under its lock. `now` is what
-- the clock returns, in nanoseconds.
pub mod Expiration
pub mod Adding
pub mod Maps
pub mod Keys
pub mod Counting
pub mod Viewing
pub mod Exact
pub mod Bounded
pub mod Heap
pub mod Expiring
pub mod Swept
pub mod Cases
pub mod Sweeping
pub mod Following
pub mod Answering
pub mod Runs
pub mod Contents
pub mod Genuine
pub mod Sent
pub mod Taking
pub mod Waiting
pub mod Completing
mod SumCode
mod Tests
use mpudp.Prelude.{
  ℕ, zero, suc, ◌+◌, ◌-◌, List, [], ◌∷◌, Bool, true, false, not, ◌&&◌, ◌||◌, ◌==◌, ltb, leb,
  if◌then◌else◌, length, Option, none, some, Result, ok, err, ◌>>=◌, ◌>>◌, reject_if, bytes_eq,
}
use mpudp.Prelude.Int.{ℤ, pos_part, is_negative, is_nonpositive, int_eq}
use mpudp.Fec.{
  Error, invalid_decoder_config, invalid_shard, Params, Budget, Limits, derive_limits,
  shard_size_for_datagram,
}
use mpudp.Fec.Encoder.{new_codec}
use mpudp.Fec.Replay
use mpudp.Fec.Replay.{ReplayWindow}
use mpudp.RecvWindow.{no_bits}
use mpudp.Fec.Counters.{Counters, plus, lower_pending, counting}
use mpudp.Fec.Expiry.{BlockKey, ExpiryEntry, same_key, same_entry, least, without}

pub record IncomingShard : Type 0 where
  pub key : BlockKey
  pub params : Params
  pub index : ℤ
  pub original_length : ℤ
  pub payload : List ℕ

pub data Outcome : Type 0 where
  pending duplicate complete too_old : Outcome

-- `Result`.
pub record Added : Type 0 where
  pub outcome : Outcome
  pub datagram : Option (List ℕ)

pub record DecoderConfig : Type 0 where
  pub params : Params
  pub budget : Budget
  pub decode_timeout : ℤ
  pub completion_ttl : ℤ
  pub max_pending_blocks : ℤ
  pub max_completed_blocks : ℤ
  pub statistics : Option Counters
  pub replay_window : Option (List ℕ)  -- its Session ID

pub record Stats : Type 0 where
  pub pending_blocks : ℕ
  pub pending_shards : ℕ
  pub pending_bytes : ℕ
  pub completed_blocks : ℕ

pub record ExpireStats : Type 0 where
  pub pending_blocks : ℕ
  pub completed_blocks : ℕ

pub record PendingBlock : Type 0 where
  pub original_length : ℕ
  pub shard_size : ℕ
  pub shards : List (Option (List ℕ))
  pub present : ℕ
  pub bytes : ℕ
  pub expiry : ExpiryEntry

pub record Decoder : Type 0 where
  pub params : Params
  pub limits : Limits
  pub total : ℕ
  pub decode_timeout : ℕ
  pub completion_ttl : ℕ
  pub max_pending_blocks : ℕ
  pub max_completed_blocks : ℕ
  pub pending : List (BlockKey × PendingBlock)
  pub pending_expiry : List ExpiryEntry
  pub completed : List (BlockKey × ExpiryEntry)
  pub completed_expiry : List ExpiryEntry
  pub pending_shards : ℕ
  pub pending_bytes : ℕ
  pub closed : Bool
  pub statistics : Option Counters
  pub replay : Option (List ℕ × ReplayWindow)

-- The maps' operations.
module _ {V : Type 0} where
  abbrev pub find : List (BlockKey × V) → BlockKey → Option V
  find [] key = none
  find ((k, v) ∷ rest) key = if same_key k key then some v else find rest key

  abbrev pub delete : List (BlockKey × V) → BlockKey → List (BlockKey × V)
  delete [] key = []
  delete ((k, v) ∷ rest) key =
      let more = delete rest key in if same_key k key then more else (k, v) ∷ more

  abbrev pub change : List (BlockKey × V) → BlockKey → V → List (BlockKey × V)
  change [] key w = []
  change ((k, v) ∷ rest) key w = (if same_key k key then (k, w) else (k, v)) ∷ change rest key w

abbrev pub is_found : {V : Type 0} → Option V → Bool
is_found none = false
is_found (some v) = true

abbrev pub new_replay : Option (List ℕ) → Option (List ℕ × ReplayWindow)
new_replay none = none
new_replay (some id) = some (id, record { completed = no_bits; highest = 0; started = false })

-- The Decoder that `NewDecoder` returns.
abbrev pub new_state : DecoderConfig → Limits → ℕ → Decoder
new_state config limits total = record {
  params = config.params;
  limits = limits;
  total = total;
  decode_timeout = pos_part config.decode_timeout;
  completion_ttl = pos_part config.completion_ttl;
  max_pending_blocks = pos_part config.max_pending_blocks;
  max_completed_blocks = pos_part config.max_completed_blocks;
  pending = [];
  pending_expiry = [];
  completed = [];
  completed_expiry = [];
  pending_shards = 0;
  pending_bytes = 0;
  closed = false;
  statistics = config.statistics;
  replay = new_replay config.replay_window;
}

unfoldable pub new_decoder : (ℕ → ℕ → Bool) → DecoderConfig → Result Error Decoder
new_decoder accepts config = do
  limits ← derive_limits config.params config.budget
  let cached = not (is_found config.replay_window)
  reject_if (is_nonpositive config.decode_timeout) invalid_decoder_config
  reject_if (cached && is_nonpositive config.completion_ttl) invalid_decoder_config
  reject_if (is_nonpositive config.max_pending_blocks) invalid_decoder_config
  reject_if (cached && is_nonpositive config.max_completed_blocks) invalid_decoder_config
  total ← new_codec accepts config.params
  ok (new_state config limits total)

-- `d.replay != nil && input.Key.SessionID != d.replay.sessionID`.
abbrev pub foreign : Option (List ℕ × ReplayWindow) → BlockKey → Bool
foreign none key = false
foreign (some (id, w)) key = not (bytes_eq key.session_id id)

abbrev pub data_shards : Decoder → ℕ
data_shards d = pos_part d.params.data_shards

unfoldable pub validate_shard : Decoder → IncomingShard → Result Error ℕ
validate_shard d input = do
  reject_if (foreign d.replay input.key) invalid_shard
  reject_if
      (not (
        int_eq input.params.data_shards d.params.data_shards
        && int_eq input.params.parity_shards d.params.parity_shards))
      invalid_shard
  reject_if (is_negative input.index || leb d.total (pos_part input.index)) invalid_shard
  reject_if
      (is_negative input.original_length
        || ltb d.limits.effective_datagram_limit (pos_part input.original_length))
      invalid_shard
  let size = shard_size_for_datagram (pos_part input.original_length) (data_shards d)
  reject_if (ltb d.limits.shard_capacity size || not (length input.payload == size)) invalid_shard
  ok size

unfoldable pub remove_pending : Decoder → BlockKey → PendingBlock → Decoder
remove_pending d key block = record d {
  pending = delete d.pending key;
  pending_expiry = without block.expiry d.pending_expiry;
  pending_shards = d.pending_shards - block.present;
  pending_bytes = d.pending_bytes - block.bytes;
  statistics = counting (lower_pending 1 block.present block.bytes) d.statistics;
}

-- The oldest completed key gives way where the cache is full.
unfoldable pub evict_completed : Decoder → Decoder
evict_completed d = elim d.completed_expiry [
  | [] ↦ d
  | e ∷ es ↦
      let oldest = least e es in
      record d {
        completed = delete d.completed oldest.key;
        completed_expiry = without oldest d.completed_expiry;
        statistics =
            counting
              (λ (c : Counters). record c {
                completed_capacity_evictions = plus c.completed_capacity_evictions 1;
              })
              d.statistics;
      }
]

unfoldable pub remember_completed : ℕ → Decoder → BlockKey → Decoder
remember_completed now d key = elim d.replay [
  | some (id, w) ↦ record d { replay = some (id, Replay.complete w key.packet_id) }
  | none ↦
      let d' = if leb d.max_completed_blocks (length d.completed) then evict_completed d else d in
      let entry : ExpiryEntry = record { key = key; deadline = now + d.completion_ttl } in
      record d' {
        completed = (key, entry) ∷ d'.completed;
        completed_expiry = entry ∷ d'.completed_expiry;
      }
]

-- The set bits of the window, from what `complete` counts.
unfoldable pub stats : Decoder → Stats
stats d = record {
  pending_blocks = length d.pending;
  pending_shards = d.pending_shards;
  pending_bytes = d.pending_bytes;
  completed_blocks = elim d.replay [ none ↦ length d.completed | some (id, w) ↦ w.completed.count ];
}

unfoldable pub close : Decoder → Decoder
close d = if d.closed then d else record d {
  closed = true;
  statistics =
      counting (lower_pending (length d.pending) d.pending_shards d.pending_bytes) d.statistics;
  pending = [];
  completed = [];
  replay = none;
  pending_expiry = [];
  completed_expiry = [];
  pending_shards = 0;
  pending_bytes = 0;
}
