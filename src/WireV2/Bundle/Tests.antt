-- ===== src/WireV2/Bundle/Tests.antt =====
-- internal/wirev2/bundle.go: a bundle of two records.
use mpudp.Prelude.{
  ℕ, ◌+◌, ◌*◌, ◌%◌, ◌≤◌, ◌≡◌, ◌==◌, refl, List, [], ◌∷◌, ◌++◌, none, some, if◌then◌else◌, length,
  ok, err, put64, arith, replicate,
}
use mpudp.WireV2.{
  Envelope, AuthenticatedEnvelope, parse_envelope, authenticate, append_envelope, validate_envelope,
  encode_prefix,
}
use mpudp.WireV2.RoundTrip.{HasTagSize}
use mpudp.WireV2.Established.{validate_route, encode_route, validate_payload_limit}
use mpudp.WireV2.Context.{invalid_bundle, EncodingContext, validate_context}
use mpudp.WireV2.Bundle.{
  FecRecord, FecBundle, ContextLookup, ask, get_context, validate_record, check_record,
  check_records, encode_record, encode_records, encode_bundle, append_fec_bundle, decode_fec_bundle,
}
use mpudp.WireV2.Bundle.BundleTrip.{decode-append_fec_bundle}

-- A stand-in for HMAC-SHA-256.
abbrev mixed : List ℕ → ℕ
mixed [] = 5
mixed (b ∷ bs) = (b + 31 * mixed bs) % 65536

abbrev tag : List ℕ → List ℕ → List ℕ
tag key bytes = put64 (mixed bytes) ++ (put64 (mixed key) ++ (put64 1 ++ put64 (length bytes)))

tag-HasTagSize : HasTagSize tag
tag-HasTagSize key bytes = refl

abbrev key : List ℕ
key = replicate 32 4

abbrev context : EncodingContext
context = record {
  epoch = 1;
  layout_id = 1;
  protection_id = 1;
  data_shards = 2;
  parity_shards = 1;
  shard_bytes = 20;
  max_descriptors = 4;
  logical_limit = 40;
}

abbrev contexts : ContextLookup
contexts epoch = if epoch == 1 then some context else none

-- The second data shard of a group of 30 bytes, and the parity shard of another.
abbrev data_record : FecRecord
data_record = record {
  group_id = 5;
  encoding_epoch = 1;
  logical_bytes = 30;
  shard_index = 1;
  payload = replicate 10 9 ++ replicate 10 0;
}

abbrev parity_record : FecRecord
parity_record = record {
  group_id = 6;
  encoding_epoch = 1;
  logical_bytes = 40;
  shard_index = 2;
  payload = replicate 20 7;
}

abbrev bundle : FecBundle
bundle = record {
  header = record { packet_type = 32; session_id = replicate 16 2 };
  route = record { path_id = 3; generation = 9; budget_epoch = 1 };
  records = data_record ∷ parity_record ∷ [];
}

abbrev record_bytes : ℕ → ℕ → ℕ → List ℕ → List ℕ
record_bytes id size index payload =
    put64 id ++ (0 ∷ 0 ∷ 0 ∷ 1 ∷ 0 ∷ 0 ∷ 0 ∷ size ∷ index ∷ 0 ∷ payload)

abbrev signed_part : List ℕ
signed_part =
    b'M'
    ∷ b'P'
    ∷ b'U'
    ∷ b'D'
    ∷ 2
    ∷ 32
    ∷ 0
    ∷ 96
    ∷ (replicate 16 2
        ++ (0
            ∷ 0
            ∷ 0
            ∷ 3
            ∷ (put64 9
                ++ (0
                    ∷ 0
                    ∷ 0
                    ∷ 1
                    ∷ 0
                    ∷ 2
                    ∷ 0
                    ∷ 0
                    ∷ (record_bytes 5 30 1 (replicate 10 9 ++ replicate 10 0)
                        ++ record_bytes 6 40 2 (replicate 20 7))))))

abbrev packet : List ℕ
packet = signed_part ++ tag key signed_part

appended : append_fec_bundle tag [] bundle contexts key 512 ≡ ok packet
unfolding append_fec_bundle append_envelope validate_envelope encode_prefix validate_route
    encode_route validate_payload_limit check_records check_record get_context ask validate_context
    validate_record encode_bundle encode_records encode_record
appended = refl

-- Data after the end of the group is refused.
dirty_padding :
    validate_record (record data_record { logical_bytes = 29 }) context ≡ err invalid_bundle
unfolding validate_record
dirty_padding = refl

decode-append_fec_bundle_example :
    (length packet ≤ 512)
    × (e : Envelope) × (a : AuthenticatedEnvelope) × (parse_envelope packet ≡ ok e)
    × (authenticate tag e key ≡ ok a)
    × (decode_fec_bundle a contexts 512 ≡ ok bundle)
decode-append_fec_bundle_example =
    decode-append_fec_bundle tag key contexts 512 bundle packet tag-HasTagSize
      (record { type_range = omega arith; id_size = refl })
      (record {
        path_range = omega arith;
        generation_range = omega arith;
        epoch_range = omega arith;
      })
      (
        record { id_range = omega arith; epoch_range = omega arith; size_range = omega arith },
        (
          record { id_range = omega arith; epoch_range = omega arith; size_range = omega arith },
          tt,
        ),
      )
      appended
