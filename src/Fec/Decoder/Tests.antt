-- ===== src/Fec/Decoder/Tests.antt =====
-- internal/fec/decoder.go: the theorems with a code of two data shards and their sum.
use mpudp.Prelude.{
  ◌↔◌, ◌<◌, false, ℕ, ◌≤◌, ◌≡◌, refl, List, [], ◌∷◌, true, false, replicate, none, some, ok, All,
  arith,
}
use mpudp.Prelude.Int.{pos}
use mpudp.Fec.{
  Params, Budget, Limits, derive_limits, validate_params, check_budget, shard_size_for_datagram,
}
use mpudp.Fec.Encoder.{
  Encoder, new_encoder_at, new_codec, encode, encoded, check_block, backing, slices, advance_id,
}
use mpudp.Fec.Block.{new_encoder_at-IsEncoder}
use mpudp.Fec.Expiry.{BlockKey}
use mpudp.Fec.Decoder.{
  IncomingShard, DecoderConfig, Decoder, PendingBlock, find, new_decoder, new_state, validate_shard,
}
use mpudp.Fec.Decoder.Expiration.{sweep, sweep_locked, sweep_pending, sweep_completed}
use mpudp.Fec.Decoder.Swept.{find-sweep}
use mpudp.Fec.Decoder.Adding.{add_verified_shard, add_valid, open_block, add_to_block}
use mpudp.Fec.Replay.{too_old, contains}
use mpudp.Fec.Decoder.Runs.{after, Call, adds, sweeps, deliveries, times, deliveries-once}
use mpudp.Fec.Decoder.Bounded.{HasExactStats, reached, reached-HasExactStats}
use mpudp.Fec.Decoder.Contents.{IsSent}
use mpudp.Fec.Decoder.Genuine.{IsGenuine}
use mpudp.Fec.Decoder.Sent.{IsAsSent, deliveries-sent}
use mpudp.Fec.Decoder.Completing.{deliveries_complete}
use mpudp.Fec.Decoder.SumCode.{summed, restored, summed-IsSystematic, summed-Rebuilds}

abbrev params : Params
params = record { data_shards = pos 2; parity_shards = pos 1 }

abbrev budget : Budget
budget = record {
  max_udp_payload = pos 80;
  data_shard_wire_overhead = pos 71;
  max_datagram_size = pos 100;
}

abbrev limits : Limits
limits = record {
  max_udp_payload = 80;
  data_shard_wire_overhead = 71;
  shard_capacity = 9;
  fec_derived_datagram_limit = 18;
  effective_datagram_limit = 18;
}

abbrev encoder : Encoder
encoder = record { params = params; limits = limits; total = 3; next = 0; exhausted = false }

encoder_made : new_encoder_at (λ k r. true) params budget 0 false ≡ ok encoder
unfolding new_encoder_at new_codec derive_limits validate_params check_budget
encoder_made = refl

abbrev payload : List ℕ
payload = 10 ∷ 11 ∷ 12 ∷ []

abbrev shards : List (List ℕ)
shards = (10 ∷ 11 ∷ []) ∷ (12 ∷ 0 ∷ []) ∷ (22 ∷ 11 ∷ []) ∷ []

block_made :
    encode summed encoder payload ≡ ok (encoded encoder payload shards, record encoder { next = 1 })
unfolding encode check_block shard_size_for_datagram slices backing advance_id
block_made = refl

block-IsSent : IsSent summed params 3 0 payload shards
block-IsSent = record {
  encoder = encoder;
  next = record encoder { next = 1 };
  block = encoded encoder payload shards;
  valid =
      new_encoder_at-IsEncoder (λ k r. true) params budget 0 false encoder (omega arith)
        encoder_made;
  made = block_made;
  same_params = refl;
  same_total = refl;
  same_id = refl;
  same_shards = refl;
}

abbrev session : List ℕ
session = replicate 16 3

abbrev config : DecoderConfig
config = record {
  params = params;
  budget = budget;
  decode_timeout = pos 5;
  completion_ttl = pos 0;
  max_pending_blocks = pos 2;
  max_completed_blocks = pos 0;
  statistics = none;
  replay_window = some session;
}

abbrev decoder : Decoder
decoder = new_state config limits 3

decoder_made : new_decoder (λ k r. true) config ≡ ok decoder
unfolding new_decoder new_codec derive_limits validate_params check_budget
decoder_made = refl

abbrev block_key : BlockKey
block_key = record { session_id = session; packet_id = 0 }

abbrev shard_of : ℕ → List ℕ → IncomingShard
shard_of index bytes = record {
  key = block_key;
  params = params;
  index = pos index;
  original_length = pos 3;
  payload = bytes;
}

abbrev parity : IncomingShard
parity = shard_of 2 (22 ∷ 11 ∷ [])

abbrev last_data : IncomingShard
last_data = shard_of 1 (12 ∷ 0 ∷ [])

parity-IsGenuine : IsGenuine summed restored params 3 (λ id. payload) (λ id. shards) parity
parity-IsGenuine = record { sent = block-IsSent; shard = refl; original = refl }

last_data-IsGenuine : IsGenuine summed restored params 3 (λ id. payload) (λ id. shards) last_data
last_data-IsGenuine = record { sent = block-IsSent; shard = refl; original = refl }

parity_accepted : validate_shard decoder parity ≡ ok 2
unfolding validate_shard shard_size_for_datagram
parity_accepted = refl

last_data_accepted : validate_shard decoder last_data ≡ ok 2
unfolding validate_shard shard_size_for_datagram
last_data_accepted = refl

deliveries_complete_example :
    deliveries restored decoder (adds 10 parity ∷ adds 14 last_data ∷ []) ≡ (0, payload) ∷ []
deliveries_complete_example =
    deliveries_complete summed restored params 3 (λ id. payload) (λ id. shards) summed-IsSystematic
      summed-Rebuilds (λ k r. true) config decoder block_key 2 10 parity ((14, last_data) ∷ []) refl
      decoder_made refl
      (
        record {
          early = omega arith;
          same_key = refl;
          genuine = parity-IsGenuine;
          accepted = parity_accepted;
        },
        (
          record {
            early = omega arith;
            same_key = refl;
            genuine = last_data-IsGenuine;
            accepted = last_data_accepted;
          },
          tt,
        ),
      )
      ((omega arith, tt), (tt, tt)) refl

-- The second shard comes too late, and again.
abbrev calls : List Call
calls = adds 10 parity ∷ sweeps 15 ∷ adds 16 last_data ∷ adds 17 parity ∷ adds 18 last_data ∷ []

deliveries-sent_example :
    All
      (IsAsSent summed restored params 3 (λ id. payload) (λ id. shards))
      (deliveries restored decoder calls)
deliveries-sent_example =
    deliveries-sent summed restored params 3 (λ id. payload) (λ id. shards) summed-IsSystematic
      summed-Rebuilds (λ k r. true) config decoder calls refl decoder_made refl
      (parity-IsGenuine, (tt, (last_data-IsGenuine, (parity-IsGenuine, (last_data-IsGenuine, tt)))))

deliveries-once_example : times 0 (deliveries restored decoder calls) ≤ 1
deliveries-once_example =
    deliveries-once restored session (λ k r. true) config decoder calls 0 refl decoder_made

abbrev late_again : List Call
late_again = adds 10 parity ∷ sweeps 15 ∷ adds 16 last_data ∷ []

reached-HasExactStats_example : HasExactStats 2 2 9 (reached restored decoder late_again)
reached-HasExactStats_example =
    reached-HasExactStats restored (λ k r. true) config decoder late_again decoder_made

abbrev waiting : PendingBlock
waiting = record {
  original_length = 3;
  shard_size = 2;
  shards = none ∷ none ∷ some (22 ∷ 11 ∷ []) ∷ [];
  present = 1;
  bytes = 2;
  expiry = record { key = block_key; deadline = 15 };
}

waiting_there :
    ((reached restored decoder (adds 10 parity ∷ [])).closed ≡ false)
    × (find (reached restored decoder (adds 10 parity ∷ [])).pending block_key ≡ some waiting)
unfolding after add_verified_shard add_valid open_block add_to_block validate_shard
    shard_size_for_datagram sweep_locked sweep_pending sweep_completed too_old contains
waiting_there = (refl, refl)

find-sweep_example :
    (find (sweep 14 (reached restored decoder (adds 10 parity ∷ []))).0.pending block_key
      ≡ some waiting)
    ↔ ((find (reached restored decoder (adds 10 parity ∷ [])).pending block_key ≡ some waiting)
        × (14 < 15))
find-sweep_example =
    find-sweep restored (λ k r. true) config decoder (adds 10 parity ∷ []) 14 block_key waiting
      decoder_made waiting_there.0
