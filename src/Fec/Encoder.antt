-- ===== src/Fec/Encoder.antt =====
-- internal/fec/encoder.go, codec.go, and the copying loop of decoder.go. `codec` stands for
-- `Encode` of the Reed-Solomon library: the shards with their parity filled in, or an error.
-- `accepts k r` tells whether its `New` returns no error.
use mpudp.Prelude.{
  ℕ, zero, suc, ◌+◌, ◌-◌, ◌*◌, ◌/◌, ◌^◌, List, [], ◌∷◌, ◌++◌, Bool, true, false, not, ◌==◌, ltb,
  if◌then◌else◌, length, take, drop, replicate, Option, none, some, Result, ok, err, ◌>>=◌, ◌>>◌,
  reject_if,
}
use mpudp.Prelude.Int.{pos_part}
use mpudp.Fec.{
  Error, invalid_parameters, message_too_large, packet_id_exhausted, encode_failed, decode_failed,
  Params, Budget, Limits, max_int, validate_params, derive_limits, shard_size_for_datagram,
}

pub record EncodedBlock : Type 0 where
  pub packet_id : ℕ  -- uint64
  pub original_length : ℕ
  pub params : Params
  pub shards : List (List ℕ)

pub record Encoder : Type 0 where
  pub params : Params
  pub limits : Limits
  pub total : ℕ
  pub next : ℕ  -- uint64
  pub exhausted : Bool

module _ (accepts : ℕ → ℕ → Bool) where
  unfoldable pub new_codec : Params → Result Error ℕ
  new_codec params = do
    total ← validate_params params
    reject_if (not (accepts (pos_part params.data_shards) (pos_part params.parity_shards)))
        invalid_parameters
    ok total

  unfoldable pub new_encoder_at : Params → Budget → ℕ → Bool → Result Error Encoder
  unfolding new_codec
  new_encoder_at params budget next exhausted = do
    limits ← derive_limits params budget
    total ← new_codec params
    ok (record {
      params = params;
      limits = limits;
      total = total;
      next = next;
      exhausted = exhausted;
    })

  unfoldable pub new_encoder : Params → Budget → Result Error Encoder
  unfolding new_encoder_at
  new_encoder params budget = new_encoder_at params budget 0 false

-- The backing array: the copied bytes, with zeros behind it.
unfoldable pub backing : List ℕ → ℕ → List ℕ
backing payload size = payload ++ replicate (size - length payload) 0

-- `copy(backing[:k*size], payload)` for this Encoder's `k`.
abbrev pub filled : Encoder → List ℕ → ℕ → List ℕ
filled e payload size =
    backing (take (pos_part e.params.data_shards * size) payload) (e.total * size)

-- Its `count` consecutive slices of `size` bytes.
unfoldable pub slices : ℕ → ℕ → List ℕ → List (List ℕ)
slices zero size bytes = []
slices (suc count) size bytes = take size bytes ∷ slices count size (drop size bytes)

-- The state after a block: the next ID, or exhaustion after the last one.
unfoldable pub advance_id : Encoder → Encoder
advance_id e =
    if e.next == 2 ^ 64 - 1 then record e { exhausted = true } else record e { next = e.next + 1 }

abbrev pub encoded : Encoder → List ℕ → List (List ℕ) → EncodedBlock
encoded e payload shards = record {
  packet_id = e.next;
  original_length = length payload;
  params = e.params;
  shards = shards;
}

unfoldable pub check_block : Encoder → List ℕ → Result Error ℕ
check_block e payload = do
  reject_if (ltb e.limits.effective_datagram_limit (length payload)) message_too_large
  reject_if e.exhausted packet_id_exhausted
  let size = shard_size_for_datagram (length payload) (pos_part e.params.data_shards)
  reject_if (ltb e.limits.shard_capacity size) message_too_large
  reject_if (ltb (max_int / e.total) size) encode_failed
  ok size

module _ (codec : List (List ℕ) → Option (List (List ℕ))) where
  unfoldable pub encode : Encoder → List ℕ → Result Error (EncodedBlock × Encoder)
  encode e payload = do
    size ← check_block e payload
    elim (codec (slices e.total size (filled e payload size))) [
      | none ↦ err encode_failed
      | some shards ↦ ok (encoded e payload shards, advance_id e)
    ]

abbrev pub concat : List (List ℕ) → List ℕ
concat [] = []
concat (xs ∷ xss) = xs ++ concat xss

-- `AddVerifiedShard`'s datagram: the data shards' bytes, up to the original length.
unfoldable pub join_data : ℕ → ℕ → List (List ℕ) → Result Error (List ℕ)
join_data k original_length working = do
  let datagram = take original_length (concat (take k working))
  if length datagram == original_length then ok datagram else err decode_failed
