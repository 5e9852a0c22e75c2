-- ===== src/WireV2/Context/Tests.antt =====
-- internal/wirev2/context.go: a context and its acknowledgement.
use mpudp.Prelude.{
  ℕ, ◌+◌, ◌*◌, ◌%◌, ◌≡◌, refl, List, [], ◌∷◌, ◌++◌, length, ok, err, put64, arith, replicate,
}
use mpudp.WireV2.{
  Envelope, AuthenticatedEnvelope, parse_envelope, authenticate, append_envelope, validate_envelope,
  encode_prefix,
}
use mpudp.WireV2.RoundTrip.{HasTagSize}
use mpudp.WireV2.Established.{Route, validate_route, encode_route, append_established}
use mpudp.WireV2.Context.{
  context_ack, EncodingContext, ContextAck, validate_context, encode_context, decode_context,
  decode_ack, new_ack, validate_ack, append_context, append_ack,
}
use mpudp.WireV2.Context.ContextTrip.{HasDigestSize, context-acknowledged}

-- A stand-in for HMAC-SHA-256.
abbrev mixed : List ℕ → ℕ
mixed [] = 5
mixed (b ∷ bs) = (b + 31 * mixed bs) % 65536

abbrev tag : List ℕ → List ℕ → List ℕ
tag key bytes = put64 (mixed bytes) ++ (put64 (mixed key) ++ (put64 1 ++ put64 (length bytes)))

tag-HasTagSize : HasTagSize tag
tag-HasTagSize key bytes = refl

abbrev key : List ℕ
key = replicate 32 4

abbrev context : EncodingContext
context = record {
  epoch = 1;
  layout_id = 1;
  protection_id = 1;
  data_shards = 2;
  parity_shards = 1;
  shard_bytes = 20;
  max_descriptors = 4;
  logical_limit = 40;
}

-- A stand-in for SHA-256.
abbrev digest : List ℕ → List ℕ
digest bytes = tag [] bytes

digest-HasDigestSize : HasDigestSize digest
digest-HasDigestSize bytes = refl

abbrev session_id : List ℕ
session_id = replicate 16 2

abbrev route : Route
route = record { path_id = 3; generation = 9; budget_epoch = 1 }

abbrev signed_part : List ℕ
signed_part =
    b'M'
    ∷ b'P'
    ∷ b'U'
    ∷ b'D'
    ∷ 2
    ∷ 27
    ∷ 0
    ∷ 40
    ∷ (session_id
        ++ (0
            ∷ 0
            ∷ 0
            ∷ 3
            ∷ (put64 9
                ++ (0 ∷ 0 ∷ 0 ∷ 1 ∷ 0 ∷ 0 ∷ 0 ∷ 1 ∷ 0 ∷ 1 ∷ 0 ∷ 1 ∷ 2 ∷ 1 ∷ 0 ∷ 20 ∷ 0 ∷ 4 ∷ 0 ∷ 0
                    ∷ 0 ∷ 0 ∷ 0 ∷ 40 ∷ 0 ∷ 0 ∷ 0 ∷ 0 ∷ []))))

abbrev packet : List ℕ
packet = signed_part ++ tag key signed_part

appended : append_context tag [] session_id route context key ≡ ok packet
unfolding append_context encode_context validate_context append_established append_envelope
    validate_envelope encode_prefix validate_route encode_route
appended = refl

-- An acknowledgement of another epoch is refused.
wrong_epoch :
    validate_ack digest (record { epoch = 2; hash = replicate 32 0 }) context ≡ err context_ack
unfolding validate_ack new_ack encode_context validate_context
wrong_epoch = refl

context-acknowledged_example :
    ((e : Envelope) × (a : AuthenticatedEnvelope) × (parse_envelope packet ≡ ok e)
      × (authenticate tag e key ≡ ok a)
      × (decode_context a ≡ ok (route, context)))
    × (ack : ContextAck) × (reply : List ℕ) × (new_ack digest context ≡ ok ack)
    × (validate_ack digest ack context ≡ ok tt)
    × (append_ack tag [] session_id route ack key ≡ ok reply)
    × (e : Envelope) × (a : AuthenticatedEnvelope) × (parse_envelope reply ≡ ok e)
    × (authenticate tag e key ≡ ok a)
    × (decode_ack a ≡ ok (route, ack))
context-acknowledged_example =
    context-acknowledged tag digest key session_id route context packet tag-HasTagSize
      digest-HasDigestSize refl
      (record {
        path_range = omega arith;
        generation_range = omega arith;
        epoch_range = omega arith;
      })
      (omega arith) appended
