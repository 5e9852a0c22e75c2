-- ===== src/Fec.antt =====
-- internal/fec: limits.go and errors.go. Go's `int` has 64 bits; inputs that may be negative are
-- `ℤ`, and what has been checked is a natural number.
pub mod Bounds
pub mod Encoder
pub mod Split
pub mod Block
pub mod Ids
pub mod Replay
pub mod Receiver
pub mod Delivery
pub mod Counters
pub mod Expiry
pub mod Parts
pub mod Decoder
mod Tests
use mpudp.Prelude.{
  ℕ, ◌+◌, ◌-◌, ◌*◌, ◌/◌, ◌%◌, ◌^◌, Bool, true, false, not, ◌||◌, ◌==◌, ltb, leb, if◌then◌else◌,
  Result, ok, err, ◌>>=◌, ◌>>◌, reject_if,
}
use mpudp.Prelude.Int.{ℤ, pos_part, is_negative, is_nonpositive}

abbrev pub max_total_shards : ℕ
max_total_shards = 256

abbrev pub max_wire_original_length : ℕ
max_wire_original_length = 2 ^ 32 - 1

-- `int(^uint(0) >> 1)`.
abbrev pub max_int : ℕ
max_int = 2 ^ 63 - 1

pub data Error : Type 0 where
  invalid_parameters invalid_budget invalid_decoder_config message_too_large : Error
  packet_id_exhausted invalid_shard inconsistent_block conflicting_shard : Error
  decoder_full closed_decoder encode_failed decode_failed : Error

pub record Params : Type 0 where
  pub data_shards : ℤ
  pub parity_shards : ℤ

pub record Budget : Type 0 where
  pub max_udp_payload : ℤ
  pub data_shard_wire_overhead : ℤ
  pub max_datagram_size : ℤ

pub record Limits : Type 0 where
  pub max_udp_payload : ℕ
  pub data_shard_wire_overhead : ℕ
  pub shard_capacity : ℕ
  pub fec_derived_datagram_limit : ℕ
  pub effective_datagram_limit : ℕ

unfoldable pub validate_params : Params → Result Error ℕ
validate_params params = do
  reject_if (is_nonpositive params.data_shards) invalid_parameters
  reject_if (is_nonpositive params.parity_shards) invalid_parameters
  let k = pos_part params.data_shards
  let r = pos_part params.parity_shards
  reject_if (ltb max_total_shards r || ltb (max_total_shards - r) k) invalid_parameters
  ok (k + r)

abbrev pub smaller : ℕ → ℕ → ℕ
smaller a b = if ltb a b then a else b

-- `MaxUDPPayload <= DataShardWireOverhead`, the overhead being nonnegative.
unfoldable pub check_budget : Budget → Result Error (Unit {0})
check_budget budget = do
  reject_if (is_negative budget.data_shard_wire_overhead) invalid_budget
  reject_if (leb (pos_part budget.max_udp_payload) (pos_part budget.data_shard_wire_overhead))
      invalid_budget
  reject_if (is_nonpositive budget.max_datagram_size) invalid_budget
  reject_if (ltb max_wire_original_length (pos_part budget.max_datagram_size)) invalid_budget

unfoldable pub derive_limits : Params → Budget → Result Error Limits
unfolding validate_params check_budget
derive_limits params budget = do
  total ← validate_params params
  check_budget budget
  let overhead = pos_part budget.data_shard_wire_overhead
  let capacity = pos_part budget.max_udp_payload - overhead
  let k = pos_part params.data_shards
  reject_if (ltb (max_int / k) capacity) invalid_budget
  reject_if (ltb (max_int / total) capacity) invalid_budget
  ok (record {
    max_udp_payload = pos_part budget.max_udp_payload;
    data_shard_wire_overhead = overhead;
    shard_capacity = capacity;
    fec_derived_datagram_limit = k * capacity;
    effective_datagram_limit = smaller (k * capacity) (pos_part budget.max_datagram_size);
  })

unfoldable pub shard_size_for_datagram : ℕ → ℕ → ℕ
shard_size_for_datagram size k =
    if size == 0 then 1 else if size % k == 0 then size / k else size / k + 1
