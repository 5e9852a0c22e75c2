-- ===== src/Fec/Tests.antt =====
-- internal/fec: the theorems at a concrete code.
use mpudp.Prelude.{
  ℕ, ◌+◌, ◌*◌, ◌^◌, ◌≤◌, ◌<◌, ◌≡◌, refl, ◌↔◌, List, [], ◌∷◌, true, false, length, take, Option,
  none, some, ok, err, arith,
}
use mpudp.Prelude.Int.{pos, negsuc}
use mpudp.Fec.{
  Params, Budget, Limits, invalid_parameters, derive_limits, validate_params, check_budget,
  shard_size_for_datagram,
}
use mpudp.Fec.Bounds.{IsValid, IsSafe, derive_limits-IsSafe, shard_size_minimal}
use mpudp.Fec.Encoder.{
  Encoder, EncodedBlock, new_encoder_at, new_codec, encode, encoded, check_block, backing, slices,
  advance_id,
}
use mpudp.Fec.Block.{IsEncoder, new_encoder_at-IsEncoder, IsSystematic, encode_iff}
use mpudp.RecvWindow.{set_bit}
use mpudp.Fec.Replay.{too_old, contains, admit, complete}
use mpudp.Fec.Receiver.{
  Receiver, empty_receiver, with_pending, with_delivered, opens, delivers, Reach, here, next,
}
use mpudp.Fec.Ids.{encode_all, encode_all-packet_id}

abbrev params : Params
params = record { data_shards = pos 2; parity_shards = pos 1 }

abbrev budget : Budget
budget = record {
  max_udp_payload = pos 80;
  data_shard_wire_overhead = pos 71;
  max_datagram_size = pos 100;
}

abbrev limits : Limits
limits = record {
  max_udp_payload = 80;
  data_shard_wire_overhead = 71;
  shard_capacity = 9;
  fec_derived_datagram_limit = 18;
  effective_datagram_limit = 18;
}

derived : derive_limits params budget ≡ ok limits
unfolding derive_limits validate_params check_budget
derived = refl

no_data :
    derive_limits (record { data_shards = negsuc 0; parity_shards = pos 1 }) budget
    ≡ err invalid_parameters
unfolding derive_limits validate_params
no_data = refl

derive_limits-IsSafe_example : (total : ℕ) × IsValid params total × IsSafe params total limits
derive_limits-IsSafe_example = derive_limits-IsSafe params budget limits derived

shard_size_minimal_example :
    (0 < shard_size_for_datagram 7 2)
    × (7 ≤ 2 * shard_size_for_datagram 7 2)
    × (shard_size_for_datagram 7 2 ≤ 5)
shard_size_minimal_example = shard_size_minimal 7 2 5 (omega arith) (omega arith) (omega arith)

-- A code of two data shards, with the first repeated as parity.
abbrev repeating : List (List ℕ) → Option (List (List ℕ))
repeating (a ∷ b ∷ c ∷ []) = some (a ∷ b ∷ a ∷ [])
repeating (a ∷ b ∷ c ∷ d ∷ rest) = none
repeating (a ∷ b ∷ []) = none
repeating (a ∷ []) = none
repeating [] = none

repeating-encodes :
    (shards : List (List ℕ))
    → length shards ≡ 3
    → (out : List (List ℕ)) × (repeating shards ≡ some out)
repeating-encodes (a ∷ b ∷ c ∷ []) h = (a ∷ b ∷ a ∷ [], refl)
repeating-encodes (a ∷ b ∷ c ∷ d ∷ rest) h = absurd (omega arith)
repeating-encodes (a ∷ b ∷ []) h = absurd (omega arith)
repeating-encodes (a ∷ []) h = absurd (omega arith)
repeating-encodes [] h = absurd (omega arith)

repeating-keeps :
    (shards out : List (List ℕ))
    → repeating shards ≡ some out
    → (length out ≡ length shards) × (take 2 out ≡ take 2 shards)
repeating-keeps (a ∷ b ∷ c ∷ []) out h = ground arith
repeating-keeps (a ∷ b ∷ c ∷ d ∷ rest) out h = ground arith
repeating-keeps (a ∷ b ∷ []) out h = ground arith
repeating-keeps (a ∷ []) out h = ground arith
repeating-keeps [] out h = ground arith

repeating-IsSystematic : IsSystematic repeating 2 3
repeating-IsSystematic = record {
  encodes = λ size shards _ h _. repeating-encodes shards h;
  keeps = repeating-keeps;
}

abbrev encoder : Encoder
encoder = record { params = params; limits = limits; total = 3; next = 0; exhausted = false }

encoder_made : new_encoder_at (λ k r. true) params budget 0 false ≡ ok encoder
unfolding new_encoder_at new_codec derive_limits validate_params check_budget
encoder_made = refl

encoder-IsEncoder : IsEncoder encoder
encoder-IsEncoder =
    new_encoder_at-IsEncoder (λ k r. true) params budget 0 false encoder (omega arith) encoder_made

abbrev payload : List ℕ
payload = 10 ∷ 11 ∷ 12 ∷ []

abbrev shards : List (List ℕ)
shards = (10 ∷ 11 ∷ []) ∷ (12 ∷ 0 ∷ []) ∷ (10 ∷ 11 ∷ []) ∷ []

block_made :
    encode repeating encoder payload
    ≡ ok (encoded encoder payload shards, record encoder { next = 1 })
unfolding encode check_block shard_size_for_datagram slices backing advance_id
block_made = refl

encode_iff_example :
    ((b : EncodedBlock) × (e' : Encoder) × (encode repeating encoder payload ≡ ok (b, e')))
    ↔ ((length payload ≤ 18) × (false ≡ false))
encode_iff_example = encode_iff repeating encoder payload encoder-IsEncoder repeating-IsSystematic

abbrev two_blocks : List EncodedBlock
two_blocks =
    encoded encoder payload shards ∷ encoded (record encoder { next = 1 }) payload shards ∷ []

blocks_made :
    encode_all repeating encoder (payload ∷ payload ∷ [])
    ≡ ok (two_blocks, record encoder { next = 2 })
unfolding encode_all encode check_block shard_size_for_datagram slices backing advance_id
blocks_made = refl

encode_all-packet_id_example : (1 ≡ 0 + 1) × (0 + 1 < 2 ^ 64)
encode_all-packet_id_example =
    encode_all-packet_id repeating (payload ∷ payload ∷ []) encoder (record encoder { next = 2 })
      two_blocks 1 (encoded (record encoder { next = 1 }) payload shards) encoder-IsEncoder
      blocks_made refl

-- ID 5 is delivered, then ID 70000 moves the window past it.
abbrev opened_5 : Receiver
opened_5 = record empty_receiver {
  window = admit empty_receiver.window 5;
  pending = with_pending empty_receiver 5 true;
}

abbrev delivered_5 : Receiver
delivered_5 = record {
  window = complete opened_5.window 5;
  pending = with_pending opened_5 5 false;
  delivered = with_delivered opened_5 5;
}

five_new : contains empty_receiver.window 5 ≡ false
unfolding contains
five_new = refl

five_young : too_old empty_receiver.window 5 ≡ false
unfolding too_old
five_young = refl

five_marked : contains delivered_5.window 5 ≡ true
unfolding contains complete admit too_old set_bit
five_marked = refl

to_delivered_5 : Reach empty_receiver delivered_5
to_delivered_5 = next (next here (opens 5 refl five_young five_new)) (delivers 5 refl)
